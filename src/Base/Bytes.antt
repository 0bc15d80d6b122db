-- ===== src/Base/Bytes.antt =====
-- Go strings and byte slices: lists of bytes. A literal is its UTF-8 encoding.
pub mod Laws
use Prim.Native.Char.{code}
use Prim.Native.String.{String}
use Prim.Native.Nat.{ℕ, zero, suc, ◌+◌, ◌-◌, ◌/◌, ◌%◌}
use mathlib.Core.Path.{◌≡◌, refl}
use mathlib.Core.Logic.{◌↔◌}
use mathlib.Core.Bool.{Bool, true, false, ◌&&◌, ◌||◌}
use mathlib.Core.Option
use mathlib.Core.Option.{Option, none, some}
use mathlib.Core.List.{List, [], ◌∷◌, ◌++◌}
use native.Mathlib.Omega.{arith}
use eventmind.Base.Tests.{ltb, leb, ◌==◌, if◌then◌else◌}
use eventmind.Base.Lists.{length, take}

abbrev pub Text : Type 0
Text = List ℕ

-- The UTF-8 encoding of a code point.
abbrev utf8 : ℕ → Text
utf8 c =
    if ltb c 0x80
    then c ∷ []
    else if ltb c 0x800
    then (0xc0 + c / 0x40) ∷ (0x80 + c % 0x40) ∷ []
    else if ltb c 0x10000
    then (0xe0 + c / 0x1000) ∷ (0x80 + c / 0x40 % 0x40) ∷ (0x80 + c % 0x40) ∷ []
    else (0xf0 + c / 0x40000)
      ∷ (0x80 + c / 0x1000 % 0x40)
      ∷ (0x80 + c / 0x40 % 0x40)
      ∷ (0x80 + c % 0x40)
      ∷ []

abbrev pub bytes : String → Text
bytes String.[] = []
bytes (String.◌∷◌ c s) = utf8 (code c) ++ bytes s

unfoldable pub text_eq : Text → Text → Bool
text_eq [] [] = true
text_eq [] (d ∷ t) = false
text_eq (c ∷ s) [] = false
text_eq (c ∷ s) (d ∷ t) = c == d && text_eq s t

pub text_eq_iff : (s t : Text) → (text_eq s t ≡ true) ↔ (s ≡ t)
unfolding text_eq
text_eq_iff [] [] = (λ _. refl, λ _. refl)
text_eq_iff [] (d ∷ t) = ground arith
text_eq_iff (c ∷ s) [] = ground arith
text_eq_iff (c ∷ s) (d ∷ t) = ground (arith, text_eq_iff s t)

pub text_eq_refl : (s : Text) → text_eq s s ≡ true
text_eq_refl s = (text_eq_iff s s).1 refl

-- The length of the white space character at the head of the text (`unicode.IsSpace`), or 0.
abbrev low_space : ℕ → ℕ → ℕ
low_space b c =
    if b == 0x80 && (leb 0x80 c && leb c 0x8a || c == 0xa8 || c == 0xa9 || c == 0xaf)
    then 3
    else if b == 0x81 && c == 0x9f
    then 3
    else 0

abbrev three_byte_space : ℕ → ℕ → ℕ → ℕ
three_byte_space a b c =
    if a == 0xe2
    then low_space b c
    else if a == 0xe1 && b == 0x9a && c == 0x80 || a == 0xe3 && b == 0x80 && c == 0x80
    then 3
    else 0

unfoldable pub space_len : Text → ℕ
space_len [] = 0
space_len (a ∷ []) = if leb 9 a && leb a 13 || a == 32 then 1 else 0
space_len (a ∷ b ∷ []) =
    if leb 9 a && leb a 13 || a == 32
    then 1
    else if a == 0xc2 && (b == 0x85 || b == 0xa0)
    then 2
    else 0
space_len (a ∷ b ∷ c ∷ s) =
    if leb 9 a && leb a 13 || a == 32
    then 1
    else if a == 0xc2 && (b == 0x85 || b == 0xa0)
    then 2
    else three_byte_space a b c

-- Drops n bytes, and then the white space that follows.
trim_left_from : ℕ → Text → Text
unfolding space_len
trim_left_from n [] = []
trim_left_from (suc n) (c ∷ s) = trim_left_from n s
trim_left_from zero (c ∷ s) =
    let k = space_len (c ∷ s) in
    let rest = trim_left_from (k - 1) s in if k == 0 then c ∷ s else rest

-- Whether the text is white space only, after n bytes.
all_space_from : ℕ → Text → Bool
unfolding space_len
all_space_from n [] = true
all_space_from (suc n) (c ∷ s) = all_space_from n s
all_space_from zero (c ∷ s) =
    let k = space_len (c ∷ s) in
    let rest = all_space_from (k - 1) s in if k == 0 then false else rest

trim_right : Text → Text
unfolding all_space_from
trim_right [] = []
trim_right (c ∷ s) = let rest = c ∷ trim_right s in if all_space_from 0 (c ∷ s) then [] else rest

-- `strings.TrimSpace`
unfoldable pub trim_space : Text → Text
unfolding trim_left_from trim_right
trim_space s = trim_right (trim_left_from 0 s)

-- `strings.Index` and `strings.LastIndex` for a text of one byte.
unfoldable pub index_byte : ℕ → Text → Option ℕ
index_byte c [] = none
index_byte c (d ∷ s) = if c == d then some 0 else Option.map suc (index_byte c s)

unfoldable pub last_index_byte : ℕ → Text → Option ℕ
last_index_byte c [] = none
last_index_byte c (d ∷ s) = elim (last_index_byte c s) [
  | some i ↦ some (suc i)
  | none ↦ if c == d then some 0 else none
]

-- `s == ""`
abbrev pub is_empty : Text → Bool
is_empty [] = true
is_empty (c ∷ s) = false

-- `truncate` and `truncateStr`: at most n bytes, and a mark for what was cut.
unfoldable pub truncate : Text → ℕ → Text
truncate s n = if leb (length s) n then s else take n s ++ bytes "..."
