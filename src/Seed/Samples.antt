-- ===== src/Seed/Samples.antt =====
-- scripts/seed.go: the sample events, one function for each type. The generator, the source of
-- identifiers and `json.Marshal` are parameters; the calls are in the order of Go's evaluation.

use eventmind.Base.{
  ℕ, zero, suc, ◌+◌, ◌-◌, ◌*◌, ◌/◌, ◌%◌, ltb, Text, String, bytes, List, [], ◌∷◌, ◌++◌, map, Option,
  none, some, length, take, pos, format_int, if◌then◌else◌,
}
use eventmind.Events.{
  Event, EventType, order_placed, support_ticket_created, payment_failed, user_signup,
  inventory_low,
}
use eventmind.Events.Payloads.{Scalar, Value, text, int, hundredths, scalar, objects}
use eventmind.Messaging.Kafka.{Client}
use eventmind.Seed.Tables.{priorities, subjects, reasons, plans, sources, names, domains, products}
use eventmind.Seed.Run.{Run, ◌>>=◌, pure, panic, returned, out_of_fuel}

-- `rng.Intn` and the `int31n` inside `rng.Shuffle`, `uuid.New().String()`, and `json.Marshal` of a
-- payload, whose error is dropped.
pub record Sources (K : Client) : Type 0 where
  pub int_n : K.World → ℕ → ℕ × K.World
  pub new_uuid : K.World → Text × K.World
  pub marshal : List (Text × Value) → Text

-- `fmt.Sprintf` with `%02d` and `%04d`.
zeros : ℕ → Text
zeros zero = []
zeros (suc n) = b'0' ∷ zeros n

unfoldable pub padded : ℕ → ℕ → Text
unfolding zeros
padded width n = let digits = format_int (pos n) in zeros (width - length digits) ++ digits

-- `%.2f` of a sum of hundredths: the errors of `float64` are far below a hundredth.
unfoldable pub two_decimals : ℕ → Text
two_decimals n = format_int (pos (n / 100)) ++ b'.' ∷ (48 + n / 10 % 10) ∷ (48 + n % 10) ∷ []

abbrev pub get_elem? {ℓ} : {A : Type ℓ} → List A → ℕ → Option A
get_elem? [] i = none
get_elem? (x ∷ l) zero = some x
get_elem? (x ∷ l) (suc i) = get_elem? l i

abbrev pub string : Text → Value
string s = scalar (text s)

abbrev pub field : String → Value → Text × Value
field key v = (bytes key, v)

pub record OrderItem : Type 0 where
  pub sku : Text
  pub quantity : ℕ
  pub price : ℕ

abbrev pub item_object : OrderItem → List (Text × Scalar)
item_object item =
    (bytes "sku", text item.sku)
    ∷ (bytes "quantity", int item.quantity)
    ∷ (bytes "price", hundredths item.price)
    ∷ []

unfoldable pub total : List OrderItem → ℕ
total [] = 0
total (item ∷ items) = item.price * item.quantity + total items

module _ {K : Client} (S : Sources K) where
  -- `Intn` panics for 0.
  unfoldable pub draw : ℕ → Run K.World ℕ
  draw zero = panic
  draw (suc n) = λ w. returned (S.int_n w (suc n))

  -- `l[rng.Intn(len(l))]`
  unfoldable pub pick {ℓ} : {A : Type ℓ} → List A → Run K.World A
  pick l = draw (length l) >>= λ i. elim (get_elem? l i) [ none ↦ panic | some x ↦ pure x ]

  -- `shortID`: the slice panics for a shorter text.
  unfoldable pub short_id : Run K.World Text
  short_id w =
      let (id, w') = S.new_uuid w in (if ltb (length id) 8 then panic else pure (take 8 id)) w'

  -- `mkEvent`
  unfoldable pub mk_event : EventType → List (Text × Value) → Run K.World Event
  mk_event type payload w =
      let (id, w') = S.new_uuid w in
      let (now, w'') = K.now w' in
      returned (
        record {
          id = id;
          type = type;
          payload = S.marshal payload;
          source = bytes "seed-script";
          timestamp = now;
        },
        w'',
      )

  -- The loop over the items of an order, whose bound is drawn in each round; five rounds are
  -- enough.
  unfoldable pub order_items : ℕ → ℕ → List OrderItem → Run K.World (List OrderItem)
  order_items zero n items = λ w. out_of_fuel
  order_items (suc f) n items = do
    bound ← draw 4
    let more = do
      sku ← draw 9999
      quantity ← draw 5
      price ← draw 5000
      order_items f (suc n) (
          items
          ++ record {
            sku = bytes "SKU-" ++ padded 4 sku;
            quantity = 1 + quantity;
            price = 499 + price;
          }
            ∷ [])
    if ltb n (1 + bound) then more else pure items

  unfoldable pub seed_order_placed : Run K.World Event
  unfolding order_items
  seed_order_placed = do
    items ← order_items 5 0 []
    order_id ← short_id
    customer_id ← short_id
    mk_event order_placed (
        field "order_id" (string (bytes "ord_" ++ order_id))
        ∷ field "customer_id" (string (bytes "cust_" ++ customer_id))
        ∷ field "amount" (string (two_decimals (total items)))
        ∷ field "items" (objects (map item_object items))
        ∷ [])

  unfoldable pub seed_support_ticket : Run K.World Event
  seed_support_ticket = do
    ticket_id ← short_id
    customer_id ← short_id
    subject ← pick subjects
    priority ← pick priorities
    mk_event support_ticket_created (
        field "ticket_id" (string (bytes "tkt_" ++ ticket_id))
        ∷ field "customer_id" (string (bytes "cust_" ++ customer_id))
        ∷ field "subject" (string subject)
        ∷ field "priority" (string priority)
        ∷ field "body" (string (bytes "Customer submitted via support portal."))
        ∷ [])

  unfoldable pub seed_payment_failed : Run K.World Event
  seed_payment_failed = do
    payment_id ← short_id
    order_id ← short_id
    customer_id ← short_id
    amount ← draw 9000
    reason ← pick reasons
    attempts ← draw 3
    mk_event payment_failed (
        field "payment_id" (string (bytes "pay_" ++ payment_id))
        ∷ field "order_id" (string (bytes "ord_" ++ order_id))
        ∷ field "customer_id" (string (bytes "cust_" ++ customer_id))
        ∷ field "amount" (scalar (hundredths (999 + amount)))
        ∷ field "reason" (string reason)
        ∷ field "attempts" (scalar (int (1 + attempts)))
        ∷ [])

  unfoldable pub seed_user_signup : Run K.World Event
  seed_user_signup = do
    name ← pick names
    user_id ← short_id
    number ← draw 900
    domain ← pick domains
    plan ← pick plans
    source ← pick sources
    mk_event user_signup (
        field "user_id" (string (bytes "usr_" ++ user_id))
        ∷ field "email" (string (name ++ format_int (pos (100 + number)) ++ b'@' ∷ domain))
        ∷ field "plan" (string plan)
        ∷ field "source" (string source)
        ∷ [])

  unfoldable pub seed_inventory_low : Run K.World Event
  seed_inventory_low = do
    p ← pick products
    above ← draw 40
    let threshold = 10 + above
    current ← draw threshold
    warehouse ← draw 5
    mk_event inventory_low (
        field "sku" (string p.1)
        ∷ field "product_name" (string p.0)
        ∷ field "current_stock" (scalar (int current))
        ∷ field "threshold" (scalar (int threshold))
        ∷ field "warehouse_id" (string (bytes "wh-" ++ padded 2 (1 + warehouse)))
        ∷ [])
