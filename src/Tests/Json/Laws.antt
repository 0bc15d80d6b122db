-- ===== src/Tests/Json/Laws.antt =====
-- The part of JSON of the tests satisfies what the encoding of events relies on.
use eventmind.Base.{
  ok_inj, ℕ, zero, suc, Text, bytes, text_eq, is_empty, Bool, true, false, ◌&&◌, [], ◌∷◌, ◌++◌,
  some, ok, Time, ◌≡◌, refl, ◌∙◌, sym, ap, arith, Bool-cases, Option-cases, text_eq_iff,
  text_eq_refl, inl, inr, subst,
}
use eventmind.Events.Codec.{Field, id, type, payload, source, timestamp, name_of}
use eventmind.Events.Codec.Laws.{IsJson, ArePlain}
use eventmind.Events.{Event}
use eventmind.Tests.Json.{
  mark, is_plain, is_word_tail, is_word, quote, until_mark, unquote, zeros, count, is_quote_of,
  is_quoted, compact, read_count, small_json,
}
use eventmind.Tests.Json.Scan.{IsValue, not_mark, parse-object}

both_true : (a b : Bool) → (a && b) ≡ true → (a ≡ true) × (b ≡ true)
both_true a b h = ground arith

until_mark-plain : (s : Text) → is_plain s ≡ true → until_mark (s ++ mark ∷ []) ≡ some s
unfolding until_mark
until_mark-plain [] h = refl
until_mark-plain (c ∷ s) h =
    let (other, plain) = not_mark c s h in ground (arith, other, until_mark-plain s plain)

unquote-quote : (s : Text) → is_plain s ≡ true → unquote (quote s) ≡ some s
unfolding unquote
unquote-quote s h = until_mark-plain s h

zeros-plain : (n : ℕ) → is_plain (zeros n) ≡ true
unfolding zeros is_plain
zeros-plain zero = refl
zeros-plain (suc n) = zeros-plain n

count-zeros : (n : ℕ) → count (zeros n) ≡ n
unfolding zeros count
count-zeros zero = refl
count-zeros (suc n) = omega (arith, count-zeros n)

is_quoted-IsValue : (raw : Text) → is_quoted raw ≡ true → IsValue raw
is_quoted-IsValue raw h = elim (Option-cases (unquote raw)) [
  | inl no_text ↦ absurd (ground (arith, h, no_text))
  | inr (t, found) ↦
      let (plain, same) =
        both_true (is_plain t) (text_eq raw (quote t)) (ground (arith, h, found)) in
      inl (t, (text_eq_iff raw (quote t)).0 same, plain)
]

compact-IsValue : (raw v : Text) → compact raw ≡ ok v → IsValue v
unfolding compact
compact-IsValue raw v e = elim (Bool-cases (is_word raw)) [
  | inl word ↦ inr (ground (arith, e, word))
  | inr no_word ↦ elim (Bool-cases (is_quoted raw)) [
    | inl quoted ↦
        let same : raw ≡ v = ground (arith, e, no_word, quoted) in
        subst IsValue same (is_quoted-IsValue raw quoted)
    | inr neither ↦ absurd (ground (arith, e, no_word, neither))
  ]
]

is_quoted-quote : (s : Text) → is_plain s ≡ true → is_quoted (quote s) ≡ true
is_quoted-quote s plain =
    ap (is_quote_of (quote s)) (unquote-quote s plain)
    ∙ ap (λ b. b && text_eq (quote s) (quote s)) plain
    ∙ text_eq_refl (quote s)

compact_again : (v : Text) → IsValue v → compact v ≡ ok v
unfolding compact
compact_again v (inl (s, is_v, plain)) = rw is_v (ground (arith, is_quoted-quote s plain))
compact_again v (inr word) = rw word refl

value_full : (v : Text) → IsValue v → is_empty v ≡ false
value_full v (inl (s, is_v, plain)) = rw is_v refl
value_full [] (inr word) = absurd cc
value_full (c ∷ v) (inr word) = refl

zeros_of : (t : Time) (l : Text) → ok (quote (zeros t)) ≡ ok l → l ≡ quote (zeros t)
zeros_of t l e = sym (ok_inj e)

read_zeros : (t : Time) (l : Text) → ok (quote (zeros t)) ≡ ok l → read_count (unquote l) ≡ some t
unfolding read_count
read_zeros t l e =
    ap (λ s. read_count (unquote s)) (zeros_of t l e)
    ∙ ap read_count (unquote-quote (zeros t) (zeros-plain t))
    ∙ ap some (count-zeros t)

names-plain : (f : Field) → is_plain (name_of f) ≡ true
unfolding is_plain name_of
names-plain id = refl
names-plain type = refl
names-plain payload = refl
names-plain source = refl
names-plain timestamp = refl

mark_not_null : (s : Text) → text_eq (mark ∷ s) (bytes "null") ≡ false
unfolding text_eq
mark_not_null s = refl

null_word : is_word (bytes "null") ≡ true
unfolding is_word_tail
null_word = refl

pub small_json-IsJson : IsJson small_json
small_json-IsJson = record {
  IsPlain = λ s. is_plain s ≡ true;
  IsValue = λ v. IsValue v;
  unquote-quote = unquote-quote;
  quote-IsValue = λ s plain. inl (s, refl, plain);
  quote_not_null = λ s. mark_not_null _;
  null-IsValue = inr null_word;
  compact-IsValue = compact-IsValue;
  compact_again = compact_again;
  value_full = value_full;
  time-IsValue = λ t l e. inl (zeros t, zeros_of t l e, zeros-plain t);
  time_not_null = λ t l e. ap (λ s. text_eq s (bytes "null")) (zeros_of t l e) ∙ mark_not_null _;
  read_time-time_literal = read_zeros;
  names-IsPlain = names-plain;
  parse-object = parse-object;
}

pub small_json-ArePlain :
    (ev : Event)
    → is_plain ev.id ≡ true
    → is_plain ev.type ≡ true
    → is_plain ev.source ≡ true
    → ArePlain small_json small_json-IsJson ev
unfolding small_json-IsJson
small_json-ArePlain ev id_ok type_ok source_ok = record {
  id = id_ok;
  type = type_ok;
  source = source_ok;
}
