-- ===== src/Rest/Routes/Paths.antt =====
-- Paths as gin matches them: segments between slashes, of which a pattern may name some.
pub mod Laws
use eventmind.Base.{
  ℕ, Text, bytes, text_eq, text_eq_iff, text_eq_refl, ◌==◌, is_empty, Bool, true, false, not, ◌&&◌,
  List, [], ◌∷◌, ◌++◌, Option, none, some, if◌then◌else◌, ◌≡◌, refl, ◌∙◌, sym, ap, ◌⊎◌, inl, inr,
  Bool-cases, arith, subst,
}

abbrev pub slash : ℕ
slash = b'/'

-- The segments of a path.
abbrev pub before : ℕ → List Text → List Text
before c [] = (c ∷ []) ∷ []
before c (s ∷ segments) = (c ∷ s) ∷ segments

unfoldable pub split_slash : Text → List Text
split_slash [] = [] ∷ []
split_slash (c ∷ path) =
    let rest = split_slash path in if c == slash then [] ∷ rest else before c rest

unfoldable pub has_slash : Text → Bool
has_slash [] = false
has_slash (c ∷ s) = if c == slash then true else has_slash s

-- A segment that a colon begins takes any text that is not empty, and names it.
unfoldable pub match_segment : Text → Text → Option (List (Text × Text))
unfolding text_eq
match_segment [] s = if is_empty s then some [] else none
match_segment (c ∷ p) s =
    if c == b':'
    then (if is_empty s then none else some ((p, s) ∷ []))
    else if text_eq (c ∷ p) s
    then some []
    else none

abbrev pub both :
    Option (List (Text × Text)) → Option (List (Text × Text)) → Option (List (Text × Text))
both none b = none
both (some ps) none = none
both (some ps) (some qs) = some (ps ++ qs)

unfoldable pub match_segments : List Text → List Text → Option (List (Text × Text))
unfolding match_segment
match_segments [] [] = some []
match_segments [] (s ∷ ss) = none
match_segments (p ∷ pattern) [] = none
match_segments (p ∷ pattern) (s ∷ ss) = both (match_segment p s) (match_segments pattern ss)

unfoldable pub match_path : Text → Text → Option (List (Text × Text))
unfolding match_segments split_slash
match_path pattern path = match_segments (split_slash pattern) (split_slash path)

-- The path of its segments.
unfoldable pub join_slash : List Text → Text
join_slash [] = []
join_slash (s ∷ []) = s
join_slash (s ∷ t ∷ segments) = s ++ slash ∷ join_slash (t ∷ segments)
