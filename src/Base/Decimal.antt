-- ===== src/Base/Decimal.antt =====
-- Decimal printing (`%d`) and scanning (`fmt.Sscanf` with `%d`) of integers.
pub mod Laws
use Prim.Native.Nat.{ℕ, zero, suc, ◌+◌, ◌-◌, ◌*◌, ◌/◌, ◌%◌}
use mathlib.Core.Bool.{Bool, true, false, ◌&&◌, ◌||◌}
use mathlib.Core.Option.{Option, none, some}
use mathlib.Core.List.{[], ◌∷◌}
use eventmind.Base.Tests.{ltb, leb, ◌==◌, if◌then◌else◌}
use eventmind.Base.Bytes.{Text, space_len}
use eventmind.Base.Int.{ℤ, pos, negsuc, half_word}

-- The digits of n before `acc`, one for each round; n + 1 rounds are enough.
digits_from : ℕ → ℕ → Text → Text
digits_from zero n acc = acc
digits_from (suc f) n acc =
    let rest = digits_from f (n / 10) ((48 + n % 10) ∷ acc) in
    if ltb n 10 then (48 + n) ∷ acc else rest

unfoldable pub decimal : ℕ → Text
unfolding digits_from
decimal n = digits_from (suc n) n []

-- `fmt.Sprintf("%d", i)`
unfoldable pub format_int : ℤ → Text
format_int (pos n) = decimal n
format_int (negsuc n) = b'-' ∷ decimal (suc n)

abbrev is_digit : ℕ → Bool
is_digit c = leb 48 c && leb c 57

scan_digits : ℕ → Text → ℕ
scan_digits v [] = v
scan_digits v (c ∷ s) =
    let rest = scan_digits (v * 10 + (c - 48)) s in if is_digit c then rest else v

-- The run of digits at the head, which must not be empty.
scan_number : Text → Option ℕ
unfolding scan_digits
scan_number [] = none
scan_number (c ∷ s) = if is_digit c then some (scan_digits 0 (c ∷ s)) else none

-- `strconv.ParseInt(tok, 10, 64)` on the scanned digits: out of range is an error.
signed : Bool → ℕ → Option ℤ
signed false n = if ltb n half_word then some (pos n) else none
signed true zero = some (pos 0)
signed true (suc n) = if ltb n half_word then some (negsuc n) else none

map_signed : Bool → Option ℕ → Option ℤ
unfolding signed
map_signed neg none = none
map_signed neg (some n) = signed neg n

scan_signed : Text → Option ℤ
unfolding scan_number map_signed
scan_signed [] = none
scan_signed (c ∷ s) =
    if c == b'-'
    then map_signed true (scan_number s)
    else if c == b'+'
    then map_signed false (scan_number s)
    else map_signed false (scan_number (c ∷ s))

-- The white space that `%d` skips before a number, after n bytes. A newline is not skipped: it
-- ends the scan with an error.
skip_blanks : ℕ → Text → Text
unfolding space_len
skip_blanks n [] = []
skip_blanks (suc n) (c ∷ s) = skip_blanks n s
skip_blanks zero (c ∷ s) =
    let k = space_len (c ∷ s) in
    let rest = skip_blanks (k - 1) s in if k == 0 || c == 10 then c ∷ s else rest

-- `fmt.Sscanf(s, "%d", &n)`; what follows the number is not read.
unfoldable pub scan_int : Text → Option ℤ
unfolding skip_blanks scan_signed
scan_int s = scan_signed (skip_blanks 0 s)

-- All of the text as a number in base 10, which must not be empty.
all_digits : ℕ → Text → Option ℕ
all_digits v [] = some v
all_digits v (c ∷ s) =
    let rest = all_digits (v * 10 + (c - 48)) s in if is_digit c then rest else none

parse_number : Text → Option ℕ
unfolding all_digits
parse_number [] = none
parse_number (c ∷ s) = all_digits 0 (c ∷ s)

-- `strconv.Atoi`: an optional sign, digits up to the end, and a value in range.
unfoldable pub atoi : Text → Option ℤ
unfolding parse_number map_signed
atoi [] = none
atoi (c ∷ s) =
    if c == b'-'
    then map_signed true (parse_number s)
    else if c == b'+'
    then map_signed false (parse_number s)
    else map_signed false (parse_number (c ∷ s))
