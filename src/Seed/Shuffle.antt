-- ===== src/Seed/Shuffle.antt =====
-- `rng.Shuffle` with the swap of scripts/seed.go: it exchanges elements, so that every count of
-- elements stays.
use eventmind.Base.{
  ℕ, zero, suc, ◌+◌, ◌-◌, ◌<◌, ◌≡◌, refl, ◌∙◌, sym, arith, Bool, true, List, [], ◌∷◌, ◌++◌, Option,
  none, some, length, if◌then◌else◌,
}
use eventmind.Messaging.Kafka.{Client, IsLawful}
use eventmind.Seed.Run.{Run, ◌>>=◌, pure, panic, Returns, Returns-pure, Returns-bind, Returns-map}
use eventmind.Seed.Samples.{Sources, get_elem?, draw}
use eventmind.Seed.Shapes.{IsGenerator, get_elem?-some, draw-Returns}

module _ {ℓ} {A : Type ℓ} where
  abbrev set : List A → ℕ → A → List A
  set [] i v = []
  set (x ∷ l) zero v = v ∷ l
  set (x ∷ l) (suc i) v = x ∷ set l i v

  abbrev exchanged : List A → ℕ → ℕ → Option A → Option A → Option (List A)
  exchanged l i j (some a) (some b) = some (set (set l i b) j a)
  exchanged l i j (some a) none = none
  exchanged l i j none at_j = none

  -- `all[i], all[j] = all[j], all[i]`, `none` for an index out of range.
  abbrev pub exchange : List A → ℕ → ℕ → Option (List A)
  exchange l i j = exchanged l i j (get_elem? l i) (get_elem? l j)

  -- How many elements pass the test.
  abbrev pub tally : (A → Bool) → List A → ℕ
  tally p [] = 0
  tally p (x ∷ l) = (if p x then 1 else 0) + tally p l

  pub tally-append : (p : A → Bool) (l r : List A) → tally p (l ++ r) ≡ tally p l + tally p r
  tally-append p [] r = omega arith
  tally-append p (x ∷ l) r = omega (arith, tally-append p l r)

  pub tally_all : (l : List A) → tally (λ x. true) l ≡ length l
  tally_all [] = refl
  tally_all (x ∷ l) = omega (arith, tally_all l)

  tally-set :
      (p : A → Bool) (l : List A) (i : ℕ) (x y : A)
      → get_elem? l i ≡ some x
      → tally p (set l i y) + (if p x then 1 else 0) ≡ tally p l + (if p y then 1 else 0)
  tally-set p [] i x y h = ground arith
  tally-set p (z ∷ l) zero x y h = ground arith
  tally-set p (z ∷ l) (suc i) x y h = omega (arith, tally-set p l i x y h)

  get_elem?-set :
      (l : List A) (i j : ℕ) (v : A) → get_elem? l j ≡ some v → get_elem? (set l i v) j ≡ some v
  get_elem?-set [] i j v h = h
  get_elem?-set (x ∷ l) zero zero v h = refl
  get_elem?-set (x ∷ l) zero (suc j) v h = h
  get_elem?-set (x ∷ l) (suc i) zero v h = h
  get_elem?-set (x ∷ l) (suc i) (suc j) v h = get_elem?-set l i j v h

  -- The second list holds the elements of the first one, each as often.
  abbrev pub SameElements : List A → List A → Type ℓ
  SameElements l r = (p : A → Bool) → tally p r ≡ tally p l

  pub SameElements-length : (l r : List A) → SameElements l r → length r ≡ length l
  SameElements-length l r same = sym (tally_all r) ∙ same (λ x. true) ∙ tally_all l

  exchange-some :
      (l : List A) (i j : ℕ)
      → i < length l
      → j < length l
      → (r : List A) × (exchange l i j ≡ some r) × SameElements l r
  exchange-some l i j below_i below_j =
      let (a, at_i) = get_elem?-some l i below_i in
      let (b, at_j) = get_elem?-some l j below_j in
      (
        set (set l i b) j a,
        rw at_i (rw at_j refl),
        λ p.
            let one = tally-set p l i a b at_i in
            let two = tally-set p (set l i b) j b a (get_elem?-set l i j b at_j) in
            omega (arith, one, two),
      )

module _ {K : Client} (S : Sources K) where
  or_panic {ℓ} : {A : Type ℓ} → Option A → Run K.World A
  or_panic none = panic
  or_panic (some a) = pure a

  -- The rounds with the indices i, ..., 1 of the Fisher-Yates shuffle.
  unfoldable shuffle_from {ℓ} : {A : Type ℓ} → ℕ → List A → Run K.World (List A)
  unfolding or_panic
  shuffle_from zero l = pure l
  shuffle_from (suc i) l = do
    j ← draw S (suc (suc i))
    r ← or_panic (exchange l (suc i) j)
    shuffle_from i r

  unfoldable pub shuffle {ℓ} : {A : Type ℓ} → List A → Run K.World (List A)
  unfolding shuffle_from
  shuffle l = shuffle_from (length l - 1) l

module _ {K : Client} (L : IsLawful K) (S : Sources K) (G : IsGenerator L S) where
  shuffle_from-Returns {ℓ} :
      {A : Type ℓ} (i : ℕ) (l : List A)
      → i < length l
      → Returns L.published (SameElements l) (shuffle_from S i l)
  unfolding shuffle_from or_panic
  shuffle_from-Returns zero l h = Returns-pure (λ p. refl)
  shuffle_from-Returns (suc i) l h =
      Returns-bind (draw-Returns L S G (suc (suc i)) (omega arith)) λ j below.
        let (r, exchanged, same) = exchange-some l (suc i) j h (omega (arith, below, h)) in
        rw exchanged (
          Returns-map (shuffle_from-Returns i r (omega (arith, SameElements-length l r same, h)))
            (λ s again p. again p ∙ same p))

  -- The shuffle returns, with the same elements.
  pub shuffle-Returns {ℓ} :
      {A : Type ℓ} (l : List A) → Returns L.published (SameElements l) (shuffle S l)
  unfolding shuffle shuffle_from
  shuffle-Returns [] = Returns-pure (λ p. refl)
  shuffle-Returns (x ∷ l) = shuffle_from-Returns (length (x ∷ l) - 1) (x ∷ l) (omega arith)
