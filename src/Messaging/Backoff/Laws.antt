-- ===== src/Messaging/Backoff/Laws.antt =====
-- The schedule of the retries.
use native.Mathlib.Nat.{mod-eq_of_lt, pow-suc}
use eventmind.Base.{
  ℕ, zero, suc, ◌*◌, ◌^◌, ◌<◌, min, ◌≡◌, ◌∙◌, ap, some, pos, ltb, word, half_word, mul64_pos,
  of_bits_small, arith, Bool-cases, inl, inr,
}
use eventmind.Messaging.Backoff.{delay, backoff}

delay_pos :
    (b p : ℕ)
    → b < word
    → p < word
    → b * p < half_word
    → delay (pos b) (pos p) ≡ pos (min (b * p) 30000 * 1000000)
unfolding delay
delay_pos b p hb hp h = rw (mul64_pos b p hb hp h) (elim (Bool-cases (ltb 30000 (b * p))) [
  | inl over ↦
      rw over
        (mul64_pos 30000 1000000 (omega arith) (omega arith) (omega arith) ∙ ap pos (ground arith))
  | inr under ↦
      rw under (
        mul64_pos (b * p) 1000000 (omega arith) (omega arith) (ground arith)
        ∙ ap pos (ground arith))
])

-- The factors of a product in range are in range.
factors_bound : (b p : ℕ) → 0 < b → 0 < p → b * p < half_word → (b < half_word) × (p < half_word)
factors_bound zero p x y h = elim x [ ]
factors_bound (suc b) zero x y h = elim y [ ]
factors_bound (suc b) (suc p) x y h = (grind arith, grind arith)

pow_pos : (n : ℕ) → 0 < 2 ^ n
pow_pos zero = omega arith
pow_pos (suc n) = rw (pow-suc 2 n) (omega (arith, pow_pos n))

-- If base * 2^n fits a 64-bit integer and the base is positive, the wait before attempt n + 1 is
-- base * 2^n milliseconds, at most 30 seconds, and nothing panics or overflows.
pub backoff_schedule :
    (base n : ℕ)
    → 0 < base
    → base * 2 ^ n < half_word
    → backoff (pos base) (pos n) ≡ some (pos (min (base * 2 ^ n) 30000 * 1000000))
unfolding backoff
backoff_schedule base n hb h =
    let (b, p) = factors_bound base (2 ^ n) hb (pow_pos n) h in
    let in_word : 2 ^ n < word = omega arith in
    rw (mod-eq_of_lt {n = 2 ^ n} {m = word} in_word)
      (rw (of_bits_small (2 ^ n) p) (ap some (delay_pos base (2 ^ n) (omega arith) in_word h)))
