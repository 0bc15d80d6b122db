-- ===== src/Events/Codec/Laws.antt =====
-- What comes out of the encoding of an event.
use eventmind.Base.{
  ok_inj, Text, bytes, text_eq, is_empty, false, List, [], ◌∷◌, ◌++◌, some, Result, ok, err, Time,
  ◌≡◌, refl, ◌∙◌, sym, ap, subst,
}
use eventmind.Events.{Event}
use eventmind.Events.Codec.{
  members, Json, Field, id, type, payload, source, timestamp, name_of, raw_value, source_member,
  event_members, with_time, with_payload, marshal, find_field, read_string, read_timestamp, assign,
  assigned, fill, zero_event, unmarshal_parsed, unmarshal,
}

-- Members whose names and values are as the predicates say.
abbrev pub AllPlain : (Text → Type 0) → (Text → Type 0) → List (Text × Text) → Type 0
AllPlain P Q [] = Unit
AllPlain P Q (m ∷ ms) = P m.0 × Q m.1 × AllPlain P Q ms

-- What encoding/json and time document. A text is plain if it is valid UTF-8 and has no byte that the
-- encoder would replace; a value is the compact text of a JSON value.
pub record IsJson (J : Json) : Type 1 where
  pub IsPlain : Text → Type 0
  pub IsValue : Text → Type 0
  pub unquote-quote : (s : Text) → IsPlain s → J.unquote (J.quote s) ≡ some s
  pub quote-IsValue : (s : Text) → IsPlain s → IsValue (J.quote s)
  pub quote_not_null : (s : Text) → text_eq (J.quote s) (bytes "null") ≡ false
  pub null-IsValue : IsValue (bytes "null")
  pub compact-IsValue : (raw v : Text) → J.compact raw ≡ ok v → IsValue v
  pub compact_again : (v : Text) → IsValue v → J.compact v ≡ ok v
  pub value_full : (v : Text) → IsValue v → is_empty v ≡ false
  pub time-IsValue : (t : Time) (l : Text) → J.time_literal t ≡ ok l → IsValue l
  pub time_not_null :
      (t : Time) (l : Text) → J.time_literal t ≡ ok l → text_eq l (bytes "null") ≡ false
  pub read_time-time_literal :
      (t : Time) (l : Text) → J.time_literal t ≡ ok l → J.read_time l ≡ some t
  pub names-IsPlain : (f : Field) → IsPlain (name_of f)
  pub parse-object :
      (ms : List (Text × Text)) → AllPlain IsPlain IsValue ms → J.parse (J.object ms) ≡ members ms

module _ (J : Json) (L : IsJson J) where
  read_string-quote : (old s : Text) → L.IsPlain s → read_string J old (J.quote s) ≡ some s
  unfolding read_string
  read_string-quote old s plain = rw (L.quote_not_null s) (L.unquote-quote s plain)

  read_timestamp-literal :
      (old t : Time) (l : Text) → J.time_literal t ≡ ok l → read_timestamp J old l ≡ some t
  unfolding read_timestamp
  read_timestamp-literal old t l e = rw (L.time_not_null t l e) (L.read_time-time_literal t l e)

  find_field-name_of : (f : Field) → find_field J (name_of f) ≡ some f
  unfolding find_field
  find_field-name_of id = refl
  find_field-name_of type = refl
  find_field-name_of payload = refl
  find_field-name_of source = refl
  find_field-name_of timestamp = refl

  -- One member.
  fill-cons :
      (ev ev' : Event) (f : Field) (raw : Text) (ms : List (Text × Text))
      → assign J ev (some f) raw ≡ some ev'
      → fill J (some ev) ((name_of f, raw) ∷ ms) ≡ fill J (some ev') ms
  unfolding fill
  fill-cons ev ev' f raw ms step =
      ap (λ o. fill J (assign J ev o raw) ms) (find_field-name_of f) ∙ ap (λ o. fill J o ms) step

  -- The texts of the event are plain.
  pub record ArePlain (ev : Event) : Type 0 where
    pub id : L.IsPlain ev.id
    pub type : L.IsPlain ev.type
    pub source : L.IsPlain ev.source

  fill-source :
      (ev : Event) (s l : Text)
      → L.IsPlain s
      → ev.source ≡ []
      → fill J (some ev) (source_member J s ++ (name_of timestamp, l) ∷ [])
        ≡ fill J (some (record ev { source = s })) ((name_of timestamp, l) ∷ [])
  unfolding source_member assign
  fill-source ev [] l plain none_yet =
      ap (λ t. fill J (some (record ev { source = t })) ((name_of timestamp, l) ∷ [])) none_yet
  fill-source ev (c ∷ s) l plain none_yet =
      fill-cons ev (record ev { source = c ∷ s }) source (J.quote (c ∷ s)) _
        (ap (assigned (λ t. record ev { source = t })) (read_string-quote ev.source (c ∷ s) plain))

  fill-event_members :
      (ev : Event) (raw l : Text)
      → ArePlain ev
      → J.time_literal ev.timestamp ≡ ok l
      → fill J (some (zero_event J)) (event_members J ev raw l) ≡ some (record ev { payload = raw })
  unfolding event_members assign fill
  fill-event_members ev raw l plain is_time =
      let e1 = record (zero_event J) { id = ev.id } in
      let e2 = record e1 { type = ev.type } in
      let e3 = record e2 { payload = raw } in
      let e4 = record e3 { source = ev.source } in
      let ms3 = source_member J ev.source ++ (name_of timestamp, l) ∷ [] in
      let ms2 = (name_of payload, raw) ∷ ms3 in
      let ms1 = (name_of type, J.quote ev.type) ∷ ms2 in
      fill-cons (zero_event J) e1 id (J.quote ev.id) ms1 (
        ap (assigned (λ t. record (zero_event J) { id = t })) (read_string-quote [] ev.id plain.id))
      ∙ fill-cons e1 e2 type (J.quote ev.type) ms2
          (ap (assigned (λ t. record e1 { type = t })) (read_string-quote [] ev.type plain.type))
      ∙ fill-cons e2 e3 payload raw ms3 refl
      ∙ fill-source e3 ev.source l plain.source refl
      ∙ fill-cons e4 (record ev { payload = raw }) timestamp l []
          (ap (assigned (λ t. record e4 { timestamp = t }))
            (read_timestamp-literal J.zero_time ev.timestamp l is_time))

  source-AllPlain :
      (s l : Text)
      → L.IsPlain s
      → L.IsValue l
      → AllPlain L.IsPlain L.IsValue (source_member J s ++ (name_of timestamp, l) ∷ [])
  unfolding source_member
  source-AllPlain [] l plain value = (L.names-IsPlain timestamp, value, tt)
  source-AllPlain (c ∷ s) l plain value = (
    L.names-IsPlain source,
    L.quote-IsValue (c ∷ s) plain,
    (L.names-IsPlain timestamp, value, tt),
  )

  event_members-AllPlain :
      (ev : Event) (raw l : Text)
      → ArePlain ev
      → L.IsValue raw
      → J.time_literal ev.timestamp ≡ ok l
      → AllPlain L.IsPlain L.IsValue (event_members J ev raw l)
  unfolding event_members
  event_members-AllPlain ev raw l plain value is_time = (
    L.names-IsPlain id,
    L.quote-IsValue ev.id plain.id,
    (
      L.names-IsPlain type,
      L.quote-IsValue ev.type plain.type,
      (
        L.names-IsPlain payload,
        value,
        source-AllPlain ev.source l plain.source (L.time-IsValue ev.timestamp l is_time),
      ),
    ),
  )

  raw_value-IsValue : (p raw : Text) → raw_value J p ≡ ok raw → L.IsValue raw
  unfolding raw_value
  raw_value-IsValue [] raw e = subst L.IsValue (ok_inj e) L.null-IsValue
  raw_value-IsValue (c ∷ p) raw e = L.compact-IsValue (c ∷ p) raw e

  -- What an encoding that succeeds has found.
  record Encodes (ev : Event) (value : Text) : Type 0 where
    pub raw : Text
    pub literal : Text
    pub is_raw : raw_value J ev.payload ≡ ok raw
    pub is_time : J.time_literal ev.timestamp ≡ ok literal
    pub is_value : J.object (event_members J ev raw literal) ≡ value

  marshal-Encodes : (ev : Event) (value : Text) → marshal J ev ≡ ok value → Encodes ev value
  unfolding marshal
  marshal-Encodes ev value e = by_payload (raw_value J ev.payload) refl e
    where
      by_time :
          (raw : Text) (t : Result Text)
          → raw_value J ev.payload ≡ ok raw
          → J.time_literal ev.timestamp ≡ t
          → with_time J ev raw t ≡ ok value
          → Encodes ev value
      by_time raw (err x) is_raw is_time e = absurd cc
      by_time raw (ok l) is_raw is_time e = record {
        raw = raw;
        literal = l;
        is_raw = is_raw;
        is_time = is_time;
        is_value = ok_inj e;
      }

      by_payload :
          (r : Result Text)
          → raw_value J ev.payload ≡ r
          → with_payload J ev r ≡ ok value
          → Encodes ev value
      by_payload (err x) is_raw e = absurd cc
      by_payload (ok raw) is_raw e = by_time raw (J.time_literal ev.timestamp) is_raw refl e

  raw_value-again : (raw : Text) → L.IsValue raw → raw_value J raw ≡ ok raw
  unfolding raw_value
  raw_value-again raw value = rw (L.value_full raw value) (L.compact_again raw value)

  marshal-again :
      (ev : Event) (value : Text) (E : Encodes ev value)
      → marshal J (record ev { payload = E.raw }) ≡ ok value
  unfolding marshal
  marshal-again ev value E =
      ap (with_payload J (record ev { payload = E.raw }))
        (raw_value-again E.raw (raw_value-IsValue ev.payload E.raw E.is_raw))
      ∙ ap (with_time J ev E.raw) E.is_time
      ∙ ap ok E.is_value

  -- If encoding/json behaves as documented and an event with plain texts is encoded, then the
  -- message is decoded to that event with the compact text of its payload, or null for none, and
  -- that event is encoded to the same bytes again.
  pub unmarshal-marshal :
      (ev : Event) (value : Text)
      → ArePlain ev
      → marshal J ev ≡ ok value
      → (raw : Text) × (raw_value J ev.payload ≡ ok raw)
        × (unmarshal J value ≡ some (record ev { payload = raw }))
        × (marshal J (record ev { payload = raw }) ≡ ok value)
  unfolding unmarshal
  unmarshal-marshal ev value plain e =
      let E = marshal-Encodes ev value e in
      let all =
        event_members-AllPlain ev E.raw E.literal plain
          (raw_value-IsValue ev.payload E.raw E.is_raw) E.is_time in
      (
        E.raw,
        E.is_raw,
        ap (λ t. unmarshal_parsed J (J.parse t)) (sym E.is_value)
            ∙ ap (unmarshal_parsed J) (L.parse-object _ all)
            ∙ fill-event_members ev E.raw E.literal plain E.is_time,
        marshal-again ev value E,
      )
