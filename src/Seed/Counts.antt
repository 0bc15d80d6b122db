-- ===== src/Seed/Counts.antt =====
-- What scripts/seed.go publishes: ten events of each type, in some order.
use eventmind.Base.{
  ℕ, zero, suc, ◌+◌, ◌*◌, ◌≡◌, refl, ◌∙◌, sym, subst, arith, text_eq, text_eq_iff, Bool, true, List,
  [], ◌∷◌, ◌++◌, length, length-append, if◌then◌else◌, Bool-cases, inl, inr,
}
use eventmind.Events.{
  Event, EventType, valid, order_placed, support_ticket_created, payment_failed, user_signup,
  inventory_low,
}
use eventmind.Messaging.Kafka.{Client, IsLawful}
use eventmind.Seed.Run.{Returns, Returns-pure, Returns-bind, Returns-map}
use eventmind.Seed.Samples.{Sources}
use eventmind.Seed.Shapes.{
  IsGenerator, IsSample, seed_order_placed-Returns, seed_support_ticket-Returns,
  seed_payment_failed-Returns, seed_user_signup-Returns, seed_inventory_low-Returns,
}
use eventmind.Seed.Shuffle.{tally, tally-append, SameElements, SameElements-length, shuffle-Returns}
use eventmind.Seed.Build.{rounds, build_seed_events}

abbrev pub is_of : EventType → Event → Bool
is_of t ev = text_eq t ev.type

-- n events of each of the five types, and no other.
pub record IsEven (n : ℕ) (evs : List Event) : Type 0 where
  pub total : length evs ≡ 5 * n
  pub each : (t : EventType) → tally (is_of t) evs ≡ (if valid t then n else 0)

abbrev bit : Bool → ℕ
bit b = if b then 1 else 0

-- Each valid type is one of the five.
abbrev IsOneOfFive : EventType → Type 0
IsOneOfFive t =
    bit (text_eq t order_placed)
      + (bit (text_eq t support_ticket_created)
          + (bit (text_eq t payment_failed)
              + (bit (text_eq t user_signup) + (bit (text_eq t inventory_low) + 0))))
    ≡ bit (valid t)

known : (s t : EventType) → text_eq t s ≡ true → IsOneOfFive s → IsOneOfFive t
known s t e h = subst IsOneOfFive (sym ((text_eq_iff t s).0 e)) h

one_of_five : (t : EventType) → IsOneOfFive t
unfolding valid text_eq
one_of_five t = elim (Bool-cases (text_eq t order_placed)) [
  | inl e ↦ known order_placed t e refl
  | inr a ↦ elim (Bool-cases (text_eq t support_ticket_created)) [
    | inl e ↦ known support_ticket_created t e refl
    | inr b ↦ elim (Bool-cases (text_eq t payment_failed)) [
      | inl e ↦ known payment_failed t e refl
      | inr c ↦ elim (Bool-cases (text_eq t user_signup)) [
        | inl e ↦ known user_signup t e refl
        | inr d ↦ elim (Bool-cases (text_eq t inventory_low)) [
          | inl e ↦ known inventory_low t e refl
          | inr f ↦ rw a (rw b (rw c (rw d (rw f refl))))
        ]
      ]
    ]
  ]
]

IsEven-empty : IsEven 0 []
IsEven-empty = record { total = refl; each = λ t. ground arith }

-- One more round of the loop.
IsEven-round :
    {K : Client} (S : Sources K) (n : ℕ) (all : List Event) (a b c d e : Event)
    → IsEven n all
    → IsSample S order_placed a
    → IsSample S support_ticket_created b
    → IsSample S payment_failed c
    → IsSample S user_signup d
    → IsSample S inventory_low e
    → IsEven (suc n) (all ++ a ∷ b ∷ c ∷ d ∷ e ∷ [])
IsEven-round S n all a b c d e h a' b' c' d' e' = record {
  total = length-append all _ ∙ omega (arith, h.total);
  each = λ t.
      tally-append (is_of t) all _
      ∙ rw (a'.type_eq) (
          rw (b'.type_eq) (
            rw (c'.type_eq)
              (rw (d'.type_eq) (rw (e'.type_eq) (ground (arith, h.each t, one_of_five t))))));
}

module _ {K : Client} (L : IsLawful K) (S : Sources K) (G : IsGenerator L S) where
  rounds-Returns :
      (n m : ℕ) (all : List Event)
      → IsEven m all
      → Returns L.published (IsEven (n + m)) (rounds S n all)
  unfolding rounds
  rounds-Returns zero m all h = Returns-pure (subst (λ k. IsEven k all) (omega arith) h)
  rounds-Returns (suc n) m all h = Returns-bind (seed_order_placed-Returns L S G) λ a a'.
      Returns-bind (seed_support_ticket-Returns L S G) λ b b'.
        Returns-bind (seed_payment_failed-Returns L S G) λ c c'.
          Returns-bind (seed_user_signup-Returns L S G) λ d d'.
            Returns-bind (seed_inventory_low-Returns L S G) λ e e'.
              Returns-map
                (rounds-Returns n (suc m) _ (IsEven-round S m all a b c d e h a' b' c' d' e'))
                (λ evs even. subst (λ k. IsEven k evs) (omega arith) even)

  shuffled-IsEven :
      (n : ℕ) (all evs : List Event) → IsEven n all → SameElements all evs → IsEven n evs
  shuffled-IsEven n all evs h same = record {
    total = SameElements-length all evs same ∙ h.total;
    each = λ t. same (is_of t) ∙ h.each t;
  }

  pub build_seed_events-IsEven : Returns L.published (IsEven 10) (build_seed_events S)
  unfolding build_seed_events rounds
  build_seed_events-IsEven = Returns-bind (rounds-Returns 10 0 [] IsEven-empty) λ all even.
      Returns-map (shuffle-Returns L S G all) λ evs same. shuffled-IsEven 10 all evs even same
