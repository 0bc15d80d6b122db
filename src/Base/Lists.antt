-- ===== src/Base/Lists.antt =====
-- Lists over the native numbers, a filter by a Boolean test, and laws of the append.
use Prim.Native.Nat.{ℕ, zero, suc, ◌+◌}
use mathlib.Core.Path.{◌≡◌, ap}
use mathlib.Core.Logic.{◌≢◌}
use mathlib.Core.Bool.{Bool}
use mathlib.Core.List.{List, [], ◌∷◌, ◌++◌}
use native.Mathlib.Omega.{arith}
use eventmind.Base.Tests.{if◌then◌else◌}

module _ {ℓ} {A : Type ℓ} where
  abbrev pub length : List A → ℕ
  length [] = 0
  length (x ∷ xs) = suc (length xs)

  abbrev pub take : ℕ → List A → List A
  take zero xs = []
  take (suc n) [] = []
  take (suc n) (x ∷ xs) = x ∷ take n xs

  abbrev pub drop : ℕ → List A → List A
  drop zero xs = xs
  drop (suc n) [] = []
  drop (suc n) (x ∷ xs) = drop n xs

  -- The elements that pass the test, in their order.
  abbrev pub keep : (A → Bool) → List A → List A
  keep p [] = []
  keep p (x ∷ xs) = let rest = keep p xs in if p x then x ∷ rest else rest

  pub length-append : (xs ys : List A) → length (xs ++ ys) ≡ length xs + length ys
  length-append [] ys = omega arith
  length-append (x ∷ xs) ys = omega (arith, length-append xs ys)

  pub append-ne_self : (xs : List A) (x : A) → xs ≢ xs ++ x ∷ []
  append-ne_self xs x e = omega (arith, ap length e, length-append xs (x ∷ []))

  pub append_last_inj : (xs : List A) (a b : A) → xs ++ a ∷ [] ≡ xs ++ b ∷ [] → a ≡ b
  append_last_inj [] a b e = cc
  append_last_inj (x ∷ xs) a b e = append_last_inj xs a b (ground arith)
