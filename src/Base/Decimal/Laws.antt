-- ===== src/Base/Decimal/Laws.antt =====
-- Scanning what was printed gives the integer back.
use Prim.Native.Nat.{ℕ, zero, suc, ◌+◌, ◌/◌, ◌%◌, ◌≤◌, ◌<◌}
use mathlib.Core.Path.{◌≡◌, refl, ap, ◌∙◌}
use mathlib.Core.Logic.{inl, inr}
use mathlib.Core.Bool.{true, false}
use mathlib.Core.Option.{some}
use mathlib.Core.List.{[], ◌∷◌}
use native.Mathlib.Omega.{arith}
use eventmind.Base.Tests.{ltb, Bool-cases}
use eventmind.Base.Bytes.{Text, space_len, is_empty}
use eventmind.Base.Int.{ℤ, pos, negsuc, IsInt64}
use eventmind.Base.Decimal.{
  digits_from, decimal, format_int, scan_digits, scan_number, map_signed, scan_int, all_digits,
  parse_number, atoi,
}

scan_digits-digits_from :
    (f n : ℕ) (acc : Text) → n < f → scan_digits 0 (digits_from f n acc) ≡ scan_digits n acc
unfolding digits_from scan_digits
scan_digits-digits_from zero n acc h = absurd (omega arith)
scan_digits-digits_from (suc f) n acc h =
    ground (arith, scan_digits-digits_from f (n / 10) ((48 + n % 10) ∷ acc))

scan_digits-decimal : (n : ℕ) → scan_digits 0 (decimal n) ≡ n
unfolding decimal scan_digits
scan_digits-decimal n = scan_digits-digits_from (suc n) n [] (omega arith)

-- The text of a number begins with a digit.
digits_from-head :
    (f n : ℕ) (acc : Text)
    → n < f
    → (c : ℕ) × (s : Text) × (digits_from f n acc ≡ c ∷ s) × (48 ≤ c) × (c ≤ 57)
unfolding digits_from
digits_from-head zero n acc h = absurd (omega arith)
digits_from-head (suc f) n acc h = elim (Bool-cases (ltb n 10)) [
  | inl small ↦ (48 + n, acc, rw small, ground arith, ground arith)
  | inr big ↦ rw big (digits_from-head f (n / 10) ((48 + n % 10) ∷ acc) (ground arith))
]

decimal-head : (n : ℕ) → (c : ℕ) × (s : Text) × (decimal n ≡ c ∷ s) × (48 ≤ c) × (c ≤ 57)
unfolding decimal
decimal-head n = digits_from-head (suc n) n [] (omega arith)

space_len_of_digit : (c : ℕ) (s : Text) → 48 ≤ c → c ≤ 57 → space_len (c ∷ s) ≡ 0
unfolding space_len
space_len_of_digit c [] lo hi = ground arith
space_len_of_digit c (a ∷ []) lo hi = ground arith
space_len_of_digit c (a ∷ b ∷ s) lo hi = ground arith

scan_number-eq :
    (t : Text) (c : ℕ) (s : Text)
    → t ≡ c ∷ s
    → 48 ≤ c
    → c ≤ 57
    → scan_number t ≡ some (scan_digits 0 t)
unfolding scan_number
scan_number-eq t c s e lo hi = rw e (ground arith)

scan_number-decimal : (n : ℕ) → scan_number (decimal n) ≡ some n
scan_number-decimal n =
    let (c, s, e, lo, hi) = decimal-head n in
    scan_number-eq (decimal n) c s e lo hi ∙ ap some (scan_digits-decimal n)

scan_int-eq :
    (t : Text) (c : ℕ) (s : Text)
    → t ≡ c ∷ s
    → 48 ≤ c
    → c ≤ 57
    → scan_int t ≡ map_signed false (scan_number t)
unfolding scan_int
scan_int-eq t c s e lo hi = rw e (ground (arith, space_len_of_digit c s lo hi))

scan_int-minus : (t : Text) → scan_int (b'-' ∷ t) ≡ map_signed true (scan_number t)
unfolding scan_int
scan_int-minus [] = refl
scan_int-minus (a ∷ []) = refl
scan_int-minus (a ∷ b ∷ t) = refl

-- Scanning the text that `%d` prints gives the integer back.
pub scan_int-format_int : (i : ℤ) → IsInt64 i → scan_int (format_int i) ≡ some i
unfolding format_int map_signed
scan_int-format_int (pos n) h =
    let (c, s, e, lo, hi) = decimal-head n in
    rw (scan_int-eq (decimal n) c s e lo hi) (rw (scan_number-decimal n) (ground arith))
scan_int-format_int (negsuc n) h =
    rw (scan_int-minus (decimal (suc n))) (rw (scan_number-decimal (suc n)) (ground arith))

all_digits-digits_from :
    (f n : ℕ) (acc : Text) → n < f → all_digits 0 (digits_from f n acc) ≡ all_digits n acc
unfolding digits_from all_digits
all_digits-digits_from zero n acc h = absurd (omega arith)
all_digits-digits_from (suc f) n acc h =
    ground (arith, all_digits-digits_from f (n / 10) ((48 + n % 10) ∷ acc))

all_digits-decimal : (n : ℕ) → all_digits 0 (decimal n) ≡ some n
unfolding decimal all_digits
all_digits-decimal n = all_digits-digits_from (suc n) n [] (omega arith)

parse_number-eq : (t : Text) (c : ℕ) (s : Text) → t ≡ c ∷ s → parse_number t ≡ all_digits 0 t
unfolding parse_number
parse_number-eq t c s e = rw e refl

parse_number-decimal : (n : ℕ) → parse_number (decimal n) ≡ some n
parse_number-decimal n =
    let (c, s, e, lo, hi) = decimal-head n in
    parse_number-eq (decimal n) c s e ∙ all_digits-decimal n

atoi-eq :
    (t : Text) (c : ℕ) (s : Text)
    → t ≡ c ∷ s
    → 48 ≤ c
    → c ≤ 57
    → atoi t ≡ map_signed false (parse_number t)
unfolding atoi
atoi-eq t c s e lo hi = rw e (ground arith)

atoi-minus : (t : Text) → atoi (b'-' ∷ t) ≡ map_signed true (parse_number t)
unfolding atoi
atoi-minus t = refl

-- So does `strconv.Atoi`.
pub atoi-format_int : (i : ℤ) → IsInt64 i → atoi (format_int i) ≡ some i
unfolding format_int map_signed
atoi-format_int (pos n) h =
    let (c, s, e, lo, hi) = decimal-head n in
    rw (atoi-eq (decimal n) c s e lo hi) (rw (parse_number-decimal n) (ground arith))
atoi-format_int (negsuc n) h =
    rw (atoi-minus (decimal (suc n))) (rw (parse_number-decimal (suc n)) (ground arith))

-- A printed number is not the empty text.
pub is_empty-format_int : (i : ℤ) → is_empty (format_int i) ≡ false
unfolding format_int
is_empty-format_int (pos n) = let (c, s, e, lo, hi) = decimal-head n in rw e refl
is_empty-format_int (negsuc n) = refl
