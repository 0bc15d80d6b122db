-- ===== src/Storage/Mongo.antt =====
-- internal/storage/mongo.go: the raw event documents. The server is a parameter.
pub mod Laws
pub mod Counts
use eventmind.Base.{Text, Option, none, some, List, Result, ℤ, Time, is_empty, if◌then◌else◌}
use eventmind.Events.{Event}

-- What `json.Unmarshal` into `any` makes of the payload (the type of such values and the function
-- are those of encoding/json), and the fallback on the bytes.
pub data Payload (Json : Type 0) : Type 0 where
  nested : Json → Payload Json
  raw_text : Text → Payload Json

-- The document of `SaveEvent`.
pub record Document (Json : Type 0) : Type 0 where
  pub id : Text
  pub type : Text
  pub payload : Payload Json
  pub source : Text
  pub timestamp : Time
  pub stored_at : Time

-- The commands: replace or insert by `_id`, find by `_id` (`none` is `ErrNoDocuments`), and find
-- by type in the order of falling timestamps with a limit and a number of documents to skip.
pub record Mongo : Type 1 where
  pub State : Type 0
  pub Json : Type 0
  pub decode_any : Text → Option Json
  pub upsert : State → Text → Document Json → Option Text × State
  pub find_one : State → Text → Result (Option (Document Json))
  pub find : State → Option Text → ℤ → ℤ → Result (List (Document Json))

module _ (M : Mongo) where
  unfoldable pub payload_of : Text → Payload M.Json
  payload_of payload = elim (M.decode_any payload) [ none ↦ raw_text payload | some j ↦ nested j ]

  unfoldable pub document_of : Event → Time → Document M.Json
  document_of ev now = record {
    id = ev.id;
    type = ev.type;
    payload = payload_of ev.payload;
    source = ev.source;
    timestamp = ev.timestamp;
    stored_at = now;
  }

  -- `SaveEvent`, with the time that it reads.
  unfoldable pub save_event : M.State → Event → Time → Option Text × M.State
  save_event s ev now = M.upsert s ev.id (document_of ev now)

  -- `GetEvent`: no document and no error for an unknown id.
  unfoldable pub get_event : M.State → Text → Result (Option (Document M.Json))
  get_event s id = M.find_one s id

  -- `ListEvents`: the empty text is no filter.
  unfoldable pub list_events : M.State → ℤ → ℤ → Text → Result (List (Document M.Json))
  list_events s limit offset event_type =
      M.find s (if is_empty event_type then none else some event_type) limit offset
