-- ===== src/Events.antt =====
-- internal/events/types.go: event types and the event that travels through the system.
pub mod Payloads
pub mod Codec
use eventmind.Base.{Text, bytes, text_eq, Bool, ◌||◌, Time}

-- `type Type string`: any text; the five constants below are the valid ones.
abbrev pub EventType : Type 0
EventType = Text

abbrev pub order_placed : EventType
order_placed = bytes "order_placed"

abbrev pub support_ticket_created : EventType
support_ticket_created = bytes "support_ticket_created"

abbrev pub payment_failed : EventType
payment_failed = bytes "payment_failed"

abbrev pub user_signup : EventType
user_signup = bytes "user_signup"

abbrev pub inventory_low : EventType
inventory_low = bytes "inventory_low"

-- `Type.Valid`
unfoldable pub valid : EventType → Bool
valid t =
    text_eq t order_placed
    || text_eq t support_ticket_created
    || text_eq t payment_failed
    || text_eq t user_signup
    || text_eq t inventory_low

-- `Payload` is raw JSON: the bytes as they were received.
pub record Event : Type 0 where
  pub id : Text
  pub type : EventType
  pub payload : Text
  pub source : Text
  pub timestamp : Time
