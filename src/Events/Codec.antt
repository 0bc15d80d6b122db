-- ===== src/Events/Codec.antt =====
-- The value of an event's message: encoding/json over the struct `Event` of
-- internal/events/types.go, as `Publish`, `Run` and the dead letter worker call it.
pub mod Laws
use eventmind.Base.{
  Text, bytes, text_eq, is_empty, List, [], ◌∷◌, ◌++◌, Option, none, some, Result, ok, err, Time,
  if◌then◌else◌,
}
use eventmind.Events.{Event}

-- What a text is to the decoder: no JSON, null, the members of an object with the raw texts of their
-- values, or any other value.
pub data Parsed : Type 0 where
  malformed null_value other_value : Parsed
  members : List (Text × Text) → Parsed

-- What the encoding uses of encoding/json and of time: literals of strings and of times, and their
-- readers; the checked and compacted text of a raw value; objects; the folding of names; and what
-- stands for the zero time.
pub record Json : Type 0 where
  pub quote : Text → Text
  pub unquote : Text → Option Text
  pub compact : Text → Result Text
  pub time_literal : Time → Result Text
  pub read_time : Text → Option Time
  pub object : List (Text × Text) → Text
  pub parse : Text → Parsed
  pub fold_name : Text → Text
  pub zero_time : Time

-- The names of the tags.
pub data Field : Type 0 where
  id type payload source timestamp : Field

unfoldable pub name_of : Field → Text
name_of id = bytes "id"
name_of type = bytes "type"
name_of payload = bytes "payload"
name_of source = bytes "source"
name_of timestamp = bytes "timestamp"

abbrev pub all_fields : List Field
all_fields = id ∷ type ∷ payload ∷ source ∷ timestamp ∷ []

-- The first field whose name, read so, is this one.
unfoldable pub field_named : (Text → Text) → Text → List Field → Option Field
unfolding name_of text_eq
field_named reading name [] = none
field_named reading name (f ∷ fields) =
    if text_eq (reading (name_of f)) name then some f else field_named reading name fields

abbrev pub or_folded : Option Field → Option Field → Option Field
or_folded (some f) other = some f
or_folded none other = other

abbrev pub assigned : {A : Type 0} → (A → Event) → Option A → Option Event
assigned put none = none
assigned put (some a) = some (put a)

module _ (J : Json) where
  -- A `RawMessage` that is nil is null.
  unfoldable pub raw_value : Text → Result Text
  raw_value raw = if is_empty raw then ok (bytes "null") else J.compact raw

  -- `omitempty`
  unfoldable pub source_member : Text → List (Text × Text)
  unfolding name_of
  source_member s = if is_empty s then [] else (name_of source, J.quote s) ∷ []

  unfoldable pub event_members : Event → Text → Text → List (Text × Text)
  unfolding source_member
  event_members ev raw time =
      (name_of id, J.quote ev.id)
      ∷ (name_of type, J.quote ev.type)
      ∷ (name_of payload, raw)
      ∷ (source_member ev.source ++ (name_of timestamp, time) ∷ [])

  abbrev pub with_time : Event → Text → Result Text → Result Text
  with_time ev raw (err e) = err e
  with_time ev raw (ok time) = ok (J.object (event_members ev raw time))

  abbrev pub with_payload : Event → Result Text → Result Text
  with_payload ev (err e) = err e
  with_payload ev (ok raw) = with_time ev raw (J.time_literal ev.timestamp)

  -- `json.Marshal` of an event.
  unfoldable pub marshal : Event → Result Text
  unfolding raw_value event_members
  marshal ev = with_payload ev (raw_value ev.payload)

  -- The exact name, or else one that folds to the same.
  unfoldable pub find_field : Text → Option Field
  unfolding field_named
  find_field name =
      or_folded (field_named (λ n. n) name all_fields)
        (field_named J.fold_name (J.fold_name name) all_fields)

  -- A string: null leaves what is there, and another value is an error.
  unfoldable pub read_string : Text → Text → Option Text
  unfolding text_eq
  read_string old raw = if text_eq raw (bytes "null") then some old else J.unquote raw

  unfoldable pub read_timestamp : Time → Text → Option Time
  unfolding text_eq
  read_timestamp old raw = if text_eq raw (bytes "null") then some old else J.read_time raw

  unfoldable pub assign : Event → Option Field → Text → Option Event
  unfolding read_string read_timestamp
  assign ev none raw = some ev
  assign ev (some id) raw = assigned (λ s. record ev { id = s }) (read_string ev.id raw)
  assign ev (some type) raw = assigned (λ s. record ev { type = s }) (read_string ev.type raw)
  assign ev (some payload) raw = some (record ev { payload = raw })
  assign ev (some source) raw = assigned (λ s. record ev { source = s }) (read_string ev.source raw)
  assign ev (some timestamp) raw =
      assigned (λ t. record ev { timestamp = t }) (read_timestamp ev.timestamp raw)

  -- The members in their order, a later one over an earlier one.
  unfoldable pub fill : Option Event → List (Text × Text) → Option Event
  unfolding find_field assign
  fill none ms = none
  fill (some ev) [] = some ev
  fill (some ev) ((name, raw) ∷ ms) = fill (assign ev (find_field name) raw) ms

  abbrev pub zero_event : Event
  zero_event = record { id = []; type = []; payload = []; source = []; timestamp = J.zero_time }

  unfoldable pub unmarshal_parsed : Parsed → Option Event
  unfolding fill
  unmarshal_parsed malformed = none
  unmarshal_parsed null_value = some zero_event
  unmarshal_parsed other_value = none
  unmarshal_parsed (members ms) = fill (some zero_event) ms

  -- `json.Unmarshal` into a fresh event; `none` is an error.
  unfoldable pub unmarshal : Text → Option Event
  unfolding unmarshal_parsed
  unmarshal text = unmarshal_parsed (J.parse text)
