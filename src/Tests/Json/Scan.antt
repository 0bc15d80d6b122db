-- ===== src/Tests/Json/Scan.antt =====
-- The parser of the tests reads what their printer of objects writes.
use eventmind.Base.{
  ℕ, Text, ◌==◌, Bool, true, false, ◌||◌, List, [], ◌∷◌, ◌++◌, append_assoc, append-nil, ◌≡◌, refl,
  ◌∙◌, sym, ap, arith, if◌then◌else◌, ◌⊎◌, inl, inr,
}
use eventmind.Events.Codec.{members}
use eventmind.Events.Codec.Laws.{AllPlain}
use eventmind.Tests.Json.{
  Mode, bad, name_start, after, finished, name, colon, value, in_text, in_word, mark, is_plain,
  is_word_byte, is_word_tail, is_word, quote, member, rest_text, object, end_of, scan, finish,
  parse,
}

-- The value of a member.
abbrev pub IsValue : Text → Type 0
IsValue v = ((s : Text) × (v ≡ quote s) × (is_plain s ≡ true)) ⊎ (is_word v ≡ true)

pub not_mark :
    (c : ℕ) (s : Text) → is_plain (c ∷ s) ≡ true → ((c == mark) ≡ false) × (is_plain s ≡ true)
unfolding is_plain
not_mark c s h = ground arith

scan-name :
    (ms : List (Text × Text)) (acc s rest : Text)
    → is_plain s ≡ true
    → scan (name ms acc) (s ++ mark ∷ rest) ≡ scan (colon ms (acc ++ s)) rest
unfolding scan
scan-name ms acc [] rest h = ap (λ t. scan (colon ms t) rest) (sym (append-nil acc))
scan-name ms acc (c ∷ s) rest h =
    let (other, plain) = not_mark c s h in
    ap (λ b. scan (if b then colon ms acc else name ms (acc ++ c ∷ [])) (s ++ mark ∷ rest)) other
    ∙ scan-name ms (acc ++ c ∷ []) s rest plain
    ∙ ap (λ t. scan (colon ms t) rest) (append_assoc acc (c ∷ []) s)

scan-text :
    (ms : List (Text × Text)) (n acc s rest : Text)
    → is_plain s ≡ true
    → scan (in_text ms n acc) (s ++ mark ∷ rest)
      ≡ scan (after (ms ++ (n, (acc ++ s) ++ mark ∷ []) ∷ [])) rest
unfolding scan
scan-text ms n acc [] rest h =
    ap (λ t. scan (after (ms ++ (n, t ++ mark ∷ []) ∷ [])) rest) (sym (append-nil acc))
scan-text ms n acc (c ∷ s) rest h =
    let (other, plain) = not_mark c s h in
    ap
      (λ b.
        scan (if b then after (ms ++ (n, acc ++ c ∷ []) ∷ []) else in_text ms n (acc ++ c ∷ []))
          (s ++ mark ∷ rest))
      other
    ∙ scan-text ms n (acc ++ c ∷ []) s rest plain
    ∙ ap (λ t. scan (after (ms ++ (n, t ++ mark ∷ []) ∷ [])) rest) (append_assoc acc (c ∷ []) s)

abbrev is_end : ℕ → Bool
is_end c = c == b',' || c == b'}'

-- A byte that ends a member.
ends :
    (c : ℕ) (ms : List (Text × Text)) (m m' : Mode)
    → is_end c ≡ true
    → end_of c ms m ≡ end_of c ms m'
ends c ms m m' h = ground arith

goes_on :
    (c : ℕ) (s : Text) (ms : List (Text × Text)) (m m' : Mode)
    → is_word_tail (c ∷ s) ≡ true
    → (end_of c ms (if is_word_byte c then m else m') ≡ m) × (is_word_tail s ≡ true)
unfolding is_word_tail
goes_on c s ms m m' h = ground arith

scan-word :
    (ms : List (Text × Text)) (n acc s rest : Text) (c : ℕ)
    → is_word_tail s ≡ true
    → is_end c ≡ true
    → scan (in_word ms n acc) (s ++ c ∷ rest) ≡ scan (end_of c (ms ++ (n, acc ++ s) ∷ []) bad) rest
unfolding scan
scan-word ms n acc [] rest c h e =
    ap (λ m. scan m rest) (ends c (ms ++ (n, acc) ∷ []) _ bad e)
    ∙ ap (λ t. scan (end_of c (ms ++ (n, t) ∷ []) bad) rest) (sym (append-nil acc))
scan-word ms n acc (d ∷ s) rest c h e =
    let (on, more) = goes_on d s (ms ++ (n, acc) ∷ []) (in_word ms n (acc ++ d ∷ [])) bad h in
    ap (λ m. scan m (s ++ c ∷ rest)) on
    ∙ scan-word ms n (acc ++ d ∷ []) s rest c more e
    ∙ ap (λ t. scan (end_of c (ms ++ (n, t) ∷ []) bad) rest) (append_assoc acc (d ∷ []) s)

word_head :
    (c : ℕ) (s : Text)
    → is_word (c ∷ s) ≡ true
    → (is_word_byte c ≡ true) × (is_word_tail s ≡ true) × ((c == mark) ≡ false)
unfolding is_word_tail
word_head c s h = ground arith

scan-value :
    (ms : List (Text × Text)) (n v rest : Text) (c : ℕ)
    → IsValue v
    → is_end c ≡ true
    → scan (value ms n) (v ++ c ∷ rest) ≡ scan (end_of c (ms ++ (n, v) ∷ []) bad) rest
unfolding scan
scan-value ms n v rest c (inl (s, is_v, plain)) e =
    ap (λ t. scan (value ms n) (t ++ c ∷ rest)) is_v
    ∙ ap (scan (in_text ms n (mark ∷ []))) (append_assoc s (mark ∷ []) (c ∷ rest))
    ∙ scan-text ms n (mark ∷ []) s (c ∷ rest) plain
    ∙ ap (λ t. scan (end_of c (ms ++ (n, t) ∷ []) bad) rest) (sym is_v)
scan-value ms n [] rest c (inr word) e = absurd cc
scan-value ms n (d ∷ v) rest c (inr word) e =
    let (byte, tail, other) = word_head d v word in
    ap
      (λ b.
        scan
          (if b
            then in_text ms n (d ∷ [])
            else if is_word_byte d
            then in_word ms n (d ∷ [])
            else bad)
          (v ++ c ∷ rest))
      other
    ∙ ap (λ b. scan (if b then in_word ms n (d ∷ []) else bad) (v ++ c ∷ rest)) byte
    ∙ scan-word ms n (d ∷ []) v rest c tail e

scan-member :
    (ms : List (Text × Text)) (n v rest : Text) (c : ℕ)
    → is_plain n ≡ true
    → IsValue v
    → is_end c ≡ true
    → scan (name_start ms) (member (n, v) ++ c ∷ rest)
      ≡ scan (end_of c (ms ++ (n, v) ∷ []) bad) rest
unfolding scan
scan-member ms n v rest c plain value_ok e =
    ap (scan (name ms [])) (
      append_assoc (n ++ mark ∷ []) (b':' ∷ v) (c ∷ rest)
      ∙ append_assoc n (mark ∷ []) (b':' ∷ (v ++ c ∷ rest)))
    ∙ scan-name ms [] n (b':' ∷ (v ++ c ∷ rest)) plain
    ∙ scan-value ms n v rest c value_ok e

scan-members :
    (seen : List (Text × Text)) (m : Text × Text) (ms : List (Text × Text))
    → AllPlain (λ s. is_plain s ≡ true) IsValue (m ∷ ms)
    → scan (name_start seen) (member m ++ rest_text ms) ≡ finished (seen ++ m ∷ ms)
unfolding rest_text scan
scan-members seen (n, v) [] fine = scan-member seen n v [] b'}' fine.0 fine.1 refl
scan-members seen (n, v) (m' ∷ ms) fine =
    scan-member seen n v (member m' ++ rest_text ms) b',' fine.0 fine.1 refl
    ∙ scan-members (seen ++ (n, v) ∷ []) m' ms fine.2
    ∙ ap finished (append_assoc seen ((n, v) ∷ []) (m' ∷ ms))

pub parse-object :
    (ms : List (Text × Text))
    → AllPlain (λ s. is_plain s ≡ true) IsValue ms
    → parse (object ms) ≡ members ms
unfolding parse object scan
parse-object [] fine = refl
parse-object (m ∷ ms) fine = ap finish (scan-members [] m ms fine)
