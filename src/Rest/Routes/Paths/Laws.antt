-- ===== src/Rest/Routes/Paths/Laws.antt =====
-- Which paths a pattern matches.
use eventmind.Base.{
  ℕ, Text, text_eq_iff, ◌==◌, is_empty, Bool, true, false, not, ◌&&◌, List, [], ◌∷◌, ◌++◌, Option,
  none, some, ◌≡◌, refl, ◌∙◌, sym, ap, inl, inr, Bool-cases, arith, subst,
}
use eventmind.Rest.Routes.Paths.{
  slash, before, both, split_slash, has_slash, match_segment, match_segments, match_path,
  join_slash,
}

split_some : (path : Text) → (s : Text) × (rest : List Text) × (split_slash path ≡ s ∷ rest)
unfolding split_slash
split_some [] = ([], [], refl)
split_some (c ∷ path) =
    let (s, rest, e) = split_some path in
    elim (Bool-cases (c == slash)) [
      | inl cut ↦ ([], split_slash path, rw cut refl)
      | inr more ↦ (c ∷ s, rest, rw more (ap (before c) e))
    ]

join-before :
    (c : ℕ) (s : Text) (rest : List Text) → join_slash ((c ∷ s) ∷ rest) ≡ c ∷ join_slash (s ∷ rest)
unfolding join_slash
join-before c s [] = refl
join-before c s (t ∷ rest) = refl

join-split : (path : Text) → join_slash (split_slash path) ≡ path
unfolding split_slash join_slash
join-split [] = refl
join-split (c ∷ path) =
    let (s, rest, e) = split_some path in
    let same = sym (ap join_slash e) ∙ join-split path in
    elim (Bool-cases (c == slash)) [
      | inl cut ↦ rw cut (ground (arith, e, same))
      | inr more ↦
          rw more
            (ap (λ l. join_slash (before c l)) e ∙ join-before c s rest ∙ ap (λ t. c ∷ t) same)
    ]

split_inj : (p q : Text) → split_slash p ≡ split_slash q → p ≡ q
split_inj p q e = sym (join-split p) ∙ ap join_slash e ∙ join-split q

-- A text without a slash is one segment, and a segment is a text without a slash.
pub split-no_slash : (s : Text) → has_slash s ≡ false → split_slash s ≡ s ∷ []
unfolding split_slash has_slash
split-no_slash [] h = refl
split-no_slash (c ∷ s) h = ground (arith, split-no_slash s)

abbrev NoneSlashed : List Text → Type 0
NoneSlashed [] = Unit
NoneSlashed (s ∷ segments) = (has_slash s ≡ false) × NoneSlashed segments

before-NoneSlashed :
    (c : ℕ) (segments : List Text)
    → (c == slash) ≡ false
    → NoneSlashed segments
    → NoneSlashed (before c segments)
unfolding has_slash
before-NoneSlashed c [] h all = (rw h refl, tt)
before-NoneSlashed c (s ∷ segments) h all = (rw h all.0, all.1)

split-NoneSlashed : (path : Text) → NoneSlashed (split_slash path)
unfolding split_slash has_slash
split-NoneSlashed [] = (refl, tt)
split-NoneSlashed (c ∷ path) = elim (Bool-cases (c == slash)) [
  | inl cut ↦ rw cut (refl, split-NoneSlashed path)
  | inr more ↦ rw more (before-NoneSlashed c (split_slash path) more (split-NoneSlashed path))
]

-- A segment of a pattern without a colon at its head.
abbrev pub is_fixed : Text → Bool
is_fixed [] = true
is_fixed (c ∷ p) = not (c == b':')

match_fixed :
    (p s : Text) (ps : List (Text × Text))
    → is_fixed p ≡ true
    → match_segment p s ≡ some ps
    → (s ≡ p) × (ps ≡ [])
unfolding match_segment
match_fixed [] [] ps f e = (refl, ground arith)
match_fixed [] (d ∷ s) ps f e = absurd cc
match_fixed (c ∷ p) s ps f e = ground (arith, text_eq_iff (c ∷ p) s)

abbrev AllFixed : List Text → Type 0
AllFixed [] = Unit
AllFixed (p ∷ pattern) = (is_fixed p ≡ true) × AllFixed pattern

abbrev pub all_fixed : List Text → Bool
all_fixed [] = true
all_fixed (p ∷ pattern) = is_fixed p && all_fixed pattern

AllFixed-of : (pattern : List Text) → all_fixed pattern ≡ true → AllFixed pattern
AllFixed-of [] h = tt
AllFixed-of (p ∷ pattern) h = (ground arith, AllFixed-of pattern (ground arith))

both-some :
    (a b : Option (List (Text × Text))) (ps : List (Text × Text))
    → both a b ≡ some ps
    → (xs : List (Text × Text)) × (ys : List (Text × Text)) × (a ≡ some xs)
      × (b ≡ some ys)
      × (ps ≡ xs ++ ys)
both-some none b ps e = absurd cc
both-some (some xs) none ps e = absurd cc
both-some (some xs) (some ys) ps e = (xs, ys, refl, refl, ground arith)

match-AllFixed :
    (pattern segments : List Text) (ps : List (Text × Text))
    → AllFixed pattern
    → match_segments pattern segments ≡ some ps
    → (segments ≡ pattern) × (ps ≡ [])
unfolding match_segments
match-AllFixed [] [] ps f e = (refl, ground arith)
match-AllFixed [] (s ∷ ss) ps f e = absurd cc
match-AllFixed (p ∷ pattern) [] ps f e = absurd cc
match-AllFixed (p ∷ pattern) (s ∷ ss) ps f e =
    let (xs, ys, first, more, all) = both-some _ _ ps e in
    let (same, no_xs) = match_fixed p s xs f.0 first in
    let (same', no_ys) = match-AllFixed pattern ss ys f.1 more in (cc, rw (all, no_xs, no_ys) refl)

-- A pattern without parameters matches itself only.
pub match_path-fixed :
    (pattern path : Text) (ps : List (Text × Text))
    → all_fixed (split_slash pattern) ≡ true
    → match_path pattern path ≡ some ps
    → (path ≡ pattern) × (ps ≡ [])
unfolding match_path
match_path-fixed pattern path ps f e =
    let (same, none_named) = match-AllFixed _ _ ps (AllFixed-of (split_slash pattern) f) e in
    (split_inj path pattern same, none_named)

match_named :
    (name s : Text) (ps : List (Text × Text))
    → match_segment (b':' ∷ name) s ≡ some ps
    → (is_empty s ≡ false) × (ps ≡ (name, s) ∷ [])
unfolding match_segment
match_named name [] ps e = absurd cc
match_named name (c ∷ s) ps e = (refl, ground arith)

match_last :
    (fixed : List Text) (name : Text) (segments : List Text) (ps : List (Text × Text))
    → AllFixed fixed
    → match_segments (fixed ++ (b':' ∷ name) ∷ []) segments ≡ some ps
    → (s : Text) × (segments ≡ fixed ++ s ∷ []) × (is_empty s ≡ false) × (ps ≡ (name, s) ∷ [])
unfolding match_segments
match_last [] name [] ps f e = absurd cc
match_last [] name (s ∷ []) ps f e =
    let (xs, ys, first, more, all) = both-some _ _ ps e in
    let (full, named) = match_named name s xs first in (s, refl, full, ground (arith, all, named))
match_last [] name (s ∷ t ∷ ss) ps f e =
    let (xs, ys, first, more, all) = both-some _ _ ps e in absurd cc
match_last (p ∷ fixed) name [] ps f e = absurd cc
match_last (p ∷ fixed) name (s ∷ ss) ps f e =
    let (xs, ys, first, more, all) = both-some _ _ ps e in
    let (same, no_xs) = match_fixed p s xs f.0 first in
    let (t, rest, full, named) = match_last fixed name ss ys f.1 more in
    (t, cc, full, all ∙ ap (λ l. l ++ ys) no_xs ∙ named)

NoneSlashed-last :
    (fixed : List Text) (s : Text) → NoneSlashed (fixed ++ s ∷ []) → has_slash s ≡ false
NoneSlashed-last [] s all = all.0
NoneSlashed-last (p ∷ fixed) s all = NoneSlashed-last fixed s all.1

-- A pattern that ends in a parameter matches the paths with one segment in its place.
pub match_path-named :
    (pattern path name : Text) (fixed : List Text) (ps : List (Text × Text))
    → split_slash pattern ≡ fixed ++ (b':' ∷ name) ∷ []
    → all_fixed fixed ≡ true
    → match_path pattern path ≡ some ps
    → (s : Text) × (path ≡ join_slash (fixed ++ s ∷ []))
      × (is_empty s ≡ false)
      × (has_slash s ≡ false)
      × (ps ≡ (name, s) ∷ [])
unfolding match_path
match_path-named pattern path name fixed ps shape f e =
    let (s, segments, full, named) =
      match_last fixed name (split_slash path) ps (AllFixed-of fixed f)
        (sym (ap (λ l. match_segments l (split_slash path)) shape) ∙ e) in
    (
      s,
      sym (join-split path) ∙ ap join_slash segments,
      full,
      NoneSlashed-last fixed s (subst NoneSlashed segments (split-NoneSlashed path)),
      named,
    )
