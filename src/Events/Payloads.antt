-- ===== src/Events/Payloads.antt =====
-- internal/events/types.go: the payload structs as their fields, each with its JSON name and the Go
-- type that it is decoded into; and the JSON values of payloads.
use eventmind.Base.{
  ℕ, ◌%◌, String, ◌==◌, Text, text_eq, bytes, Bool, true, false, ◌&&◌, Option, none, some, List, [],
  ◌∷◌, if◌then◌else◌,
}
use eventmind.Events.{
  EventType, order_placed, support_ticket_created, payment_failed, user_signup, inventory_low,
}

-- A text, an integer, or the `float64` nearest to a number of hundredths.
pub data Scalar : Type 0 where
  text : Text → Scalar
  int : ℕ → Scalar
  hundredths : ℕ → Scalar

-- The value of a field: a scalar or an array of flat objects.
pub data Value : Type 0 where
  scalar : Scalar → Value
  objects : List (List (Text × Scalar)) → Value

-- The Go types of the fields.
pub data ScalarType : Type 0 where
  go_string go_int go_float64 : ScalarType

pub data FieldType : Type 0 where
  of_scalar : ScalarType → FieldType
  slice_of : List (Text × ScalarType) → FieldType

abbrev string_field : String → Text × FieldType
string_field key = (bytes key, of_scalar go_string)

abbrev int_field : String → Text × FieldType
int_field key = (bytes key, of_scalar go_int)

abbrev float64_field : String → Text × FieldType
float64_field key = (bytes key, of_scalar go_float64)

-- `Item`
abbrev pub item_fields : List (Text × ScalarType)
item_fields =
    (bytes "sku", go_string) ∷ (bytes "quantity", go_int) ∷ (bytes "price", go_float64) ∷ []

-- `OrderPayload`
abbrev pub order_payload : List (Text × FieldType)
order_payload =
    string_field "order_id"
    ∷ string_field "customer_id"
    ∷ float64_field "amount"
    ∷ (bytes "items", slice_of item_fields)
    ∷ []

-- `SupportTicketPayload`
abbrev pub support_ticket_payload : List (Text × FieldType)
support_ticket_payload =
    string_field "ticket_id"
    ∷ string_field "customer_id"
    ∷ string_field "subject"
    ∷ string_field "priority"
    ∷ string_field "body"
    ∷ []

-- `PaymentFailedPayload`
abbrev pub payment_failed_payload : List (Text × FieldType)
payment_failed_payload =
    string_field "payment_id"
    ∷ string_field "order_id"
    ∷ string_field "customer_id"
    ∷ float64_field "amount"
    ∷ string_field "reason"
    ∷ int_field "attempts"
    ∷ []

-- `UserSignupPayload`
abbrev pub user_signup_payload : List (Text × FieldType)
user_signup_payload =
    string_field "user_id" ∷ string_field "email" ∷ string_field "plan" ∷ string_field "source" ∷ []

-- `InventoryLowPayload`
abbrev pub inventory_low_payload : List (Text × FieldType)
inventory_low_payload =
    string_field "sku"
    ∷ string_field "product_name"
    ∷ int_field "current_stock"
    ∷ int_field "threshold"
    ∷ string_field "warehouse_id"
    ∷ []

-- The field of an object.
unfoldable pub lookup {ℓ} : {A : Type ℓ} → Text → List (Text × A) → Option A
lookup key [] = none
lookup key ((k, v) ∷ fields) =
    let rest = lookup key fields in if text_eq key k then some v else rest

-- A JSON number with a fraction does not go into an `int`.
unfoldable pub fits_scalar : ScalarType → Scalar → Bool
fits_scalar go_string (text s) = true
fits_scalar go_int (int n) = true
fits_scalar go_int (hundredths n) = n % 100 == 0
fits_scalar go_float64 (int n) = true
fits_scalar go_float64 (hundredths n) = true
fits_scalar t v = false

-- An object has every field of the struct, and each goes into the field's Go type.
unfoldable pub fits_item : List (Text × ScalarType) → List (Text × Scalar) → Bool
unfolding lookup fits_scalar
fits_item [] object = true
fits_item ((key, t) ∷ fields) object =
    elim (lookup key object) [ none ↦ false | some v ↦ fits_scalar t v ] && fits_item fields object

unfoldable pub all_fit : List (Text × ScalarType) → List (List (Text × Scalar)) → Bool
all_fit fields [] = true
all_fit fields (object ∷ rest) = fits_item fields object && all_fit fields rest

unfoldable pub fits_value : FieldType → Value → Bool
unfolding fits_scalar all_fit
fits_value (of_scalar t) (scalar v) = fits_scalar t v
fits_value (slice_of fields) (objects l) = all_fit fields l
fits_value t v = false

unfoldable pub fits : List (Text × FieldType) → List (Text × Value) → Bool
unfolding lookup fits_value
fits [] object = true
fits ((key, t) ∷ fields) object =
    elim (lookup key object) [ none ↦ false | some v ↦ fits_value t v ] && fits fields object

-- The struct that is meant for the payloads of a type.
unfoldable pub payload_fields : EventType → List (Text × FieldType)
payload_fields t =
    if text_eq t order_placed
    then order_payload
    else if text_eq t support_ticket_created
    then support_ticket_payload
    else if text_eq t payment_failed
    then payment_failed_payload
    else if text_eq t user_signup
    then user_signup_payload
    else if text_eq t inventory_low
    then inventory_low_payload
    else []
