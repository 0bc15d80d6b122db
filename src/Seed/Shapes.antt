-- ===== src/Seed/Shapes.antt =====
-- The sample events of scripts/seed.go do not panic, and which of their payloads go into the structs of their types.
use eventmind.Base.{
  ℕ, zero, suc, ◌+◌, ◌<◌, ltb, ◌≡◌, refl, ◌∙◌, arith, Text, text_eq, true, not, bytes, keep, List,
  [], ◌∷◌, ◌++◌, map, some, length, Bool-cases, inl, inr,
}
use eventmind.Events.{
  Event, EventType, order_placed, support_ticket_created, payment_failed, user_signup,
  inventory_low,
}
use eventmind.Events.Payloads.{
  Value, item_fields, FieldType, lookup, fits_scalar, fits_item, all_fit, fits_value, fits,
  payload_fields,
}
use eventmind.Seed.Run.{Run, ◌>>=◌, ends, Returns, Returns-pure, Returns-bind}
use eventmind.Messaging.Kafka.{Client, IsLawful}
use eventmind.Seed.Tables.{priorities, subjects, reasons, plans, sources, names, domains, products}
use eventmind.Seed.Samples.{
  Sources, OrderItem, item_object, get_elem?, draw, pick, short_id, mk_event, order_items,
  seed_order_placed, seed_support_ticket, seed_payment_failed, seed_user_signup, seed_inventory_low,
}

-- The documented behaviour: `Intn(n)` is below n, the text of a UUID has 36 characters, and neither
-- call has to do with the queues.
pub record IsGenerator {K : Client} (L : IsLawful K) (S : Sources K) : Type 0 where
  pub int_n_lem : (w : K.World) (n : ℕ) → 0 < n → (S.int_n w n).0 < n
  pub new_uuid_lem : (w : K.World) → length (S.new_uuid w).0 ≡ 36
  pub published-int_n : (w : K.World) (n : ℕ) → L.published (S.int_n w n).1 ≡ L.published w
  pub published-new_uuid : (w : K.World) → L.published (S.new_uuid w).1 ≡ L.published w

-- The fields of a struct without the amount.
abbrev pub but_amount : List (Text × FieldType) → List (Text × FieldType)
but_amount = keep (λ f. not (text_eq f.0 (bytes "amount")))

-- An event of the type t, whose payload encodes an object; the object has the fields of the type's
-- struct, each of the right Go type, but for the amount of an order.
pub record IsSample {K : Client} (S : Sources K) (t : EventType) (ev : Event) : Type 0 where
  pub type_eq : ev.type ≡ t
  pub object : List (Text × Value)
  pub encoded : ev.payload ≡ S.marshal object
  pub fitting : fits (payload_fields t) object ≡ not (text_eq t order_placed)
  pub others_fitting : fits (but_amount (payload_fields t)) object ≡ true

pub get_elem?-some {ℓ} :
    {A : Type ℓ} (l : List A) (i : ℕ) → i < length l → (x : A) × (get_elem? l i ≡ some x)
get_elem?-some [] i h = absurd (omega (arith, h))
get_elem?-some (x ∷ l) zero h = (x, refl)
get_elem?-some (x ∷ l) (suc i) h = get_elem?-some l i (omega (arith, h))

all_fit-append :
    (l : List OrderItem) (item : OrderItem)
    → all_fit item_fields (map item_object l) ≡ true
    → all_fit item_fields (map item_object (l ++ item ∷ [])) ≡ true
unfolding all_fit fits_item lookup fits_scalar text_eq
all_fit-append [] item h = refl
all_fit-append (i ∷ l) item h = all_fit-append l item h

module _ {K : Client} (L : IsLawful K) (S : Sources K) (G : IsGenerator L S) where
  pub draw-Returns : (n : ℕ) → 0 < n → Returns L.published (λ k. k < n) (draw S n)
  unfolding draw
  draw-Returns zero h = absurd (omega (arith, h))
  draw-Returns (suc n) h = record {
    from = λ w. ends (G.int_n_lem w (suc n) h, G.published-int_n w (suc n));
  }

  pick-Returns {ℓ} :
      {A : Type ℓ} (l : List A) → 0 < length l → Returns L.published (λ x. Unit {0}) (pick S l)
  unfolding pick
  pick-Returns l h =
      Returns-bind (draw-Returns (length l) h)
        λ i below. let (x, there) = get_elem?-some l i below in rw there (Returns-pure tt)

  short_id-Returns : Returns L.published (λ id. Unit {0}) (short_id S)
  unfolding short_id
  short_id-Returns = record {
    from = λ w. rw (G.new_uuid_lem w) (ends (tt, G.published-new_uuid w));
  }

  mk_event-Returns :
      (t : EventType) (object : List (Text × Value))
      → fits (payload_fields t) object ≡ not (text_eq t order_placed)
      → fits (but_amount (payload_fields t)) object ≡ true
      → Returns L.published (IsSample S t) (mk_event S t object)
  unfolding mk_event
  mk_event-Returns t object h others = record {
    from = λ w. ends (
      (record {
        type_eq = refl;
        object = object;
        encoded = refl;
        fitting = h;
        others_fitting = others;
      }),
      L.published-now _ ∙ G.published-new_uuid w,
    );
  }

  -- Round n of the loop has n items behind it: the bound is at most 4.
  order_items-Returns :
      (f n : ℕ) (items : List OrderItem)
      → n + f ≡ 5
      → n < 5
      → all_fit item_fields (map item_object items) ≡ true
      → Returns L.published
          (λ l. all_fit item_fields (map item_object l) ≡ true)
          (order_items S f n items)
  unfolding order_items
  order_items-Returns zero n items total below h = absurd (omega (arith, total, below))
  order_items-Returns (suc f) n items total below h =
      Returns-bind (draw-Returns 4 (omega arith)) λ bound small.
        elim (Bool-cases (ltb n (1 + bound))) [
          | inr done ↦ rw done (Returns-pure h)
          | inl on ↦ rw on (
              Returns-bind (draw-Returns 9999 (omega arith)) λ sku _.
                Returns-bind (draw-Returns 5 (omega arith)) λ quantity _.
                  Returns-bind (draw-Returns 5000 (omega arith)) λ price _.
                    order_items-Returns f (suc n) _ (omega (arith, total))
                      (ground (arith, on, small)) (all_fit-append items _ h))
        ]

  short :
      {Q : Event → Type 0} (f : Text → Run K.World Event)
      → ((id : Text) → Returns L.published Q (f id))
      → Returns L.published Q (short_id S >>= f)
  short f k = Returns-bind short_id-Returns λ id _. k id

  pub seed_order_placed-Returns :
      Returns L.published (IsSample S order_placed) (seed_order_placed S)
  unfolding seed_order_placed fits payload_fields lookup fits_value fits_scalar text_eq
  seed_order_placed-Returns =
      Returns-bind (order_items-Returns 5 0 [] refl (omega arith) refl) λ items fitting.
        short _
          λ order_id. short _ λ customer_id. mk_event-Returns order_placed _ refl (rw fitting refl)

  pub seed_support_ticket-Returns :
      Returns L.published (IsSample S support_ticket_created) (seed_support_ticket S)
  unfolding seed_support_ticket fits payload_fields lookup fits_value fits_scalar text_eq
  seed_support_ticket-Returns = short _ λ ticket_id. short _ λ customer_id.
      Returns-bind (pick-Returns subjects (omega arith)) λ subject _.
        Returns-bind (pick-Returns priorities (omega arith))
          λ priority _. mk_event-Returns support_ticket_created _ refl refl

  pub seed_payment_failed-Returns :
      Returns L.published (IsSample S payment_failed) (seed_payment_failed S)
  unfolding seed_payment_failed fits payload_fields lookup fits_value fits_scalar text_eq
  seed_payment_failed-Returns = short _ λ payment_id. short _ λ order_id. short _ λ customer_id.
      Returns-bind (draw-Returns 9000 (omega arith)) λ amount _.
        Returns-bind (pick-Returns reasons (omega arith)) λ reason _.
          Returns-bind (draw-Returns 3 (omega arith))
            λ attempts _. mk_event-Returns payment_failed _ refl refl

  pub seed_user_signup-Returns : Returns L.published (IsSample S user_signup) (seed_user_signup S)
  unfolding seed_user_signup fits payload_fields lookup fits_value fits_scalar text_eq
  seed_user_signup-Returns = Returns-bind (pick-Returns names (omega arith)) λ name _.
      short _ λ user_id. Returns-bind (draw-Returns 900 (omega arith)) λ number _.
        Returns-bind (pick-Returns domains (omega arith)) λ domain _.
          Returns-bind (pick-Returns plans (omega arith)) λ plan _.
            Returns-bind (pick-Returns sources (omega arith))
              λ source _. mk_event-Returns user_signup _ refl refl

  pub seed_inventory_low-Returns :
      Returns L.published (IsSample S inventory_low) (seed_inventory_low S)
  unfolding seed_inventory_low fits payload_fields lookup fits_value fits_scalar text_eq
  seed_inventory_low-Returns = Returns-bind (pick-Returns products (omega arith)) λ p _.
      Returns-bind (draw-Returns 40 (omega arith)) λ above _.
        Returns-bind (draw-Returns (10 + above) (omega arith)) λ current _.
          Returns-bind (draw-Returns 5 (omega arith))
            λ warehouse _. mk_event-Returns inventory_low _ refl refl

  -- For a lawful client and generator, each function of the seed script returns without a panic an
  -- event of its type and leaves the queue as it was; the payload encodes an object with the
  -- fields of that type's struct, each with a value of the field's Go type, except that the amount
  -- of an order is none.
  pub samples_fit :
      Returns L.published (IsSample S order_placed) (seed_order_placed S)
      × Returns L.published (IsSample S support_ticket_created) (seed_support_ticket S)
      × Returns L.published (IsSample S payment_failed) (seed_payment_failed S)
      × Returns L.published (IsSample S user_signup) (seed_user_signup S)
      × Returns L.published (IsSample S inventory_low) (seed_inventory_low S)
  samples_fit = (
    seed_order_placed-Returns, seed_support_ticket-Returns, seed_payment_failed-Returns,
    seed_user_signup-Returns, seed_inventory_low-Returns,
  )
