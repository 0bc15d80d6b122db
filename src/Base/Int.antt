-- ===== src/Base/Int.antt =====
-- Go's `int` and `int64`: integers, with 64-bit arithmetic that wraps.
use Prim.Native.Nat.{ℕ, suc, ◌+◌, ◌-◌, ◌*◌, ◌%◌, ◌^◌, ◌≤◌, ◌<◌}
use mathlib.Core.Path.{◌≡◌, refl}
use mathlib.Core.Logic.{◌⊎◌, inl, inr}
use mathlib.Core.Bool.{Bool, true, false}
use native.Mathlib.Nat.{mod-eq_of_lt}
use native.Mathlib.Omega.{arith}
use eventmind.Base.Tests.{ltb, if◌then◌else◌}

-- `negsuc n` is -(n + 1).
pub data ℤ : Type 0 where
  pos : ℕ → ℤ
  negsuc : ℕ → ℤ

abbrev pub ltb_ℤ : ℤ → ℤ → Bool
ltb_ℤ (pos a) (pos b) = ltb a b
ltb_ℤ (pos a) (negsuc b) = false
ltb_ℤ (negsuc a) (pos b) = true
ltb_ℤ (negsuc a) (negsuc b) = ltb b a

abbrev pub ◌≤ℤ◌ : ℤ → ℤ → Type 0
◌≤ℤ◌ (pos a) (pos b) = a ≤ b
◌≤ℤ◌ (pos a) (negsuc b) = ⊥
◌≤ℤ◌ (negsuc a) (pos b) = Unit
◌≤ℤ◌ (negsuc a) (negsuc b) = b ≤ a

infix 50 ◌≤ℤ◌
abbrev pub word : ℕ
word = 2 ^ 64

abbrev pub half_word : ℕ
half_word = 2 ^ 63

-- The two's complement bit pattern of an integer, and the int64 of a pattern.
unfoldable pub to_bits : ℤ → ℕ
to_bits (pos n) = n % word
to_bits (negsuc n) = word - 1 - n % word

unfoldable pub of_bits : ℕ → ℤ
of_bits n = if ltb n half_word then pos n else negsuc (word - 1 - n)

-- The values of an int64.
abbrev pub IsInt64 : ℤ → Type 0
IsInt64 (pos n) = n < half_word
IsInt64 (negsuc n) = n < half_word

unfoldable pub add64 : ℤ → ℤ → ℤ
unfolding to_bits of_bits
add64 a b = of_bits ((to_bits a + to_bits b) % word)

unfoldable pub mul64 : ℤ → ℤ → ℤ
mul64 a b = of_bits (to_bits a * to_bits b % word)

to_bits-of_bits : (n : ℕ) → n < word → to_bits (of_bits n) ≡ n
unfolding to_bits of_bits
to_bits-of_bits n h = ground arith

to_bits_pos : (n : ℕ) → n < word → to_bits (pos n) ≡ n
unfolding to_bits
to_bits_pos n h = ground arith

pub of_bits_small : (n : ℕ) → n < half_word → of_bits n ≡ pos n
unfolding of_bits
of_bits_small n h = ground arith

product_in_word : (a b : ℕ) → a * b < half_word → a * b < word
product_in_word a b h = omega arith

pub add64-suc : (n : ℕ) → suc n < half_word → add64 (pos n) (pos 1) ≡ pos (n + 1)
unfolding add64
add64-suc n h = ground arith

-- Where the product of natural numbers is in range it is the product.
pub mul64_pos :
    (a b : ℕ) → a < word → b < word → a * b < half_word → mul64 (pos a) (pos b) ≡ pos (a * b)
unfolding mul64
mul64_pos a b p q h =
    rw (to_bits_pos a p, to_bits_pos b q)
      (rw (mod-eq_of_lt (product_in_word a b h)) (of_bits_small (a * b) h))

pub ℤ-cases : (n : ℤ) → ((k : ℕ) × (n ≡ pos k)) ⊎ ((k : ℕ) × (n ≡ negsuc k))
ℤ-cases (pos k) = inl (k, refl)
ℤ-cases (negsuc k) = inr (k, refl)

pub pos_inj : (k n : ℕ) → pos k ≡ pos n → k ≡ n
pos_inj k n e = cc
