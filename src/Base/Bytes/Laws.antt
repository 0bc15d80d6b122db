-- ===== src/Base/Bytes/Laws.antt =====
-- Trimming and searching around a byte that is no white space.
use Prim.Native.Nat.{ℕ, zero, suc, ◌-◌, ◌≤◌, ◌<◌}
use mathlib.Core.Path.{◌≡◌, refl, ◌∙◌, ap, sym}
use mathlib.Core.Logic.{◌≢◌, inl, inr}
use mathlib.Core.Bool.{false}
use mathlib.Core.Option.{none, some}
use mathlib.Core.List.{[], ◌∷◌, ◌++◌, append_assoc}
use native.Mathlib.Omega.{arith}
use eventmind.Base.Tests.{◌==◌, Bool-cases}
use eventmind.Base.Lists.{length}
use eventmind.Base.Bytes.{
  Text, space_len, trim_left_from, all_space_from, trim_right, trim_space, index_byte,
  last_index_byte,
}

-- The byte does not occur.
abbrev pub Lacks : ℕ → Text → Type 0
Lacks c [] = Unit
Lacks c (d ∷ s) = (c ≢ d) × Lacks c s

pub index_byte-append :
    (c : ℕ) (pre s : Text) → Lacks c pre → index_byte c (pre ++ c ∷ s) ≡ some (length pre)
unfolding index_byte
index_byte-append c [] s h = ground arith
index_byte-append c (d ∷ pre) s (n, h) = ground (arith, index_byte-append c pre s h)

index_byte_of_Lacks : (c : ℕ) (s : Text) → Lacks c s → index_byte c s ≡ none
unfolding index_byte
index_byte_of_Lacks c [] h = refl
index_byte_of_Lacks c (d ∷ s) (n, h) = ground (arith, index_byte_of_Lacks c s h)

last_index_byte_of_Lacks : (c : ℕ) (s : Text) → Lacks c s → last_index_byte c s ≡ none
unfolding last_index_byte
last_index_byte_of_Lacks c [] h = refl
last_index_byte_of_Lacks c (d ∷ s) (n, h) = ground (arith, last_index_byte_of_Lacks c s h)

pub last_index_byte-append :
    (c : ℕ) (pre s : Text) → Lacks c s → last_index_byte c (pre ++ c ∷ s) ≡ some (length pre)
unfolding last_index_byte
last_index_byte-append c [] s h = ground (arith, last_index_byte_of_Lacks c s h)
last_index_byte-append c (d ∷ pre) s h = ground (arith, last_index_byte-append c pre s h)

-- A byte that is part of no white space character.
abbrev pub IsSolid : ℕ → Type 0
IsSolid c = (32 < c) × (c < 128)

-- A white space character before a solid byte ends before it.
space_len-append :
    (c d : ℕ) (pre s : Text) → IsSolid d → space_len (c ∷ pre ++ d ∷ s) ≤ suc (length pre)
unfolding space_len
space_len-append c d [] [] h = ground arith
space_len-append c d [] (e ∷ s) h = ground arith
space_len-append c d (a ∷ []) s h = ground arith
space_len-append c d (a ∷ b ∷ pre) s h = ground arith

space_len_of_solid : (d : ℕ) (s : Text) → IsSolid d → space_len (d ∷ s) ≡ 0
unfolding space_len
space_len_of_solid d [] h = ground arith
space_len_of_solid d (a ∷ []) h = ground arith
space_len_of_solid d (a ∷ b ∷ s) h = ground arith

-- Trimming on the left removes a part of what stands before a solid byte.
trim_left_from-append :
    (n d : ℕ) (pre s : Text)
    → IsSolid d
    → n ≤ length pre
    → (c : ℕ) → Lacks c pre
    → (rest : Text) × (trim_left_from n (pre ++ d ∷ s) ≡ rest ++ d ∷ s) × Lacks c rest
unfolding trim_left_from
trim_left_from-append zero d [] s solid le c h =
    ([], ground (arith, space_len_of_solid d s solid), tt)
trim_left_from-append (suc n) d [] s solid le c h = absurd (omega arith)
trim_left_from-append (suc n) d (a ∷ pre) s solid le c h =
    trim_left_from-append n d pre s solid (omega arith) c h.1
trim_left_from-append zero d (a ∷ pre) s solid le c h =
    let bound = space_len-append a d pre s solid in
    elim (Bool-cases (space_len (a ∷ pre ++ d ∷ s) == 0)) [
      | inl none_here ↦ (a ∷ pre, rw none_here, h)
      | inr some_here ↦ rw some_here (
          trim_left_from-append (space_len (a ∷ pre ++ d ∷ s) - 1) d pre s solid (ground arith) c
            h.1)
    ]

all_space_from-append :
    (n d : ℕ) (pre s : Text) → IsSolid d → n ≤ length pre → all_space_from n (pre ++ d ∷ s) ≡ false
unfolding all_space_from
all_space_from-append zero d [] s solid le = ground (arith, space_len_of_solid d s solid)
all_space_from-append (suc n) d [] s solid le = absurd (omega arith)
all_space_from-append (suc n) d (a ∷ pre) s solid le =
    all_space_from-append n d pre s solid (omega arith)
all_space_from-append zero d (a ∷ pre) s solid le =
    let bound = space_len-append a d pre s solid in
    ground (arith, all_space_from-append (space_len (a ∷ pre ++ d ∷ s) - 1) d pre s solid)

-- Trimming on the right removes a part of what stands behind a solid byte.
trim_right-append :
    (d : ℕ) (pre s : Text) → IsSolid d → trim_right (pre ++ d ∷ s) ≡ pre ++ d ∷ trim_right s
unfolding trim_right
trim_right-append d [] s solid = rw (all_space_from-append 0 d [] s solid (omega arith))
trim_right-append d (a ∷ pre) s solid =
    rw (all_space_from-append 0 d (a ∷ pre) s solid (omega arith))
      (rw (trim_right-append d pre s solid))

Lacks-trim_right : (c : ℕ) (s : Text) → Lacks c s → Lacks c (trim_right s)
unfolding trim_right
Lacks-trim_right c [] h = tt
Lacks-trim_right c (d ∷ s) (n, h) = elim (Bool-cases (all_space_from 0 (d ∷ s))) [
  | inl blank ↦ rw blank tt
  | inr solid ↦ rw solid (n, Lacks-trim_right c s h)
]

-- Trimming touches neither a solid byte a, nor a solid byte b behind it, nor what is between them.
pub trim_space-around :
    (a b : ℕ) (pre mid post : Text)
    → IsSolid a
    → IsSolid b
    → Lacks a pre
    → Lacks b post
    → (pre' post' : Text) × (trim_space (pre ++ a ∷ (mid ++ b ∷ post))
        ≡ pre' ++ a ∷ (mid ++ b ∷ post'))
      × Lacks a pre'
      × Lacks b post'
unfolding trim_space
trim_space-around a b pre mid post solid_a solid_b lacks_a lacks_b =
    let (pre', left, free) =
      trim_left_from-append 0 a pre (mid ++ b ∷ post) solid_a (omega arith) a lacks_a in
    (
      pre',
      trim_right post,
      ap trim_right left
          ∙ ap trim_right (sym (append_assoc pre' (a ∷ mid) (b ∷ post)))
          ∙ trim_right-append b (pre' ++ a ∷ mid) post solid_b
          ∙ append_assoc pre' (a ∷ mid) (b ∷ trim_right post),
      free,
      Lacks-trim_right b post lacks_b,
    )
