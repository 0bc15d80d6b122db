-- ===== src/Tests/Json.antt =====
-- A part of JSON that satisfies what the encoding of events relies on: objects without white space
-- whose values are texts without escapes, or words such as numbers.
pub mod Scan
pub mod Laws
use eventmind.Base.{
  ℕ, zero, suc, Text, bytes, text_eq, ◌==◌, is_empty, Bool, true, false, ◌&&◌, ◌||◌, not, List, [],
  ◌∷◌, ◌++◌, append_assoc, append-nil, Option, none, some, Result, ok, err, Time, ◌≡◌, refl, ◌∙◌,
  sym, ap, arith, Bool-cases, Option-cases, text_eq_iff, text_eq_refl, if◌then◌else◌, ◌⊎◌, inl, inr,
  subst,
}
use eventmind.Events.Codec.{
  Parsed, malformed, null_value, members, Json, Field, id, type, payload, source, timestamp,
  name_of,
}
use eventmind.Events.Codec.Laws.{IsJson, AllPlain, ArePlain}
use eventmind.Events.{Event}

abbrev pub mark : ℕ
mark = b'"'

-- No byte ends or escapes a text.
unfoldable pub is_plain : Text → Bool
is_plain [] = true
is_plain (c ∷ s) = not (c == mark || c == b'\\') && is_plain s

abbrev pub is_word_byte : ℕ → Bool
is_word_byte c = not (c == mark || c == b',' || c == b':' || c == b'{' || c == b'}')

unfoldable pub is_word_tail : Text → Bool
is_word_tail [] = true
is_word_tail (c ∷ s) = is_word_byte c && is_word_tail s

abbrev pub is_word : Text → Bool
is_word s = not (is_empty s) && is_word_tail s

abbrev pub quote : Text → Text
quote s = mark ∷ (s ++ mark ∷ [])

-- The text up to its mark, if that is its end.
unfoldable pub until_mark : Text → Option Text
until_mark [] = none
until_mark (c ∷ s) = elim (c == mark) [
  | true ↦ if is_empty s then some [] else none
  | false ↦ elim (until_mark s) [ none ↦ none | some t ↦ some (c ∷ t) ]
]

unfoldable pub unquote : Text → Option Text
unfolding until_mark
unquote [] = none
unquote (c ∷ s) = if c == mark then until_mark s else none

-- A time in unary, as a text.
unfoldable pub zeros : ℕ → Text
zeros zero = []
zeros (suc n) = b'0' ∷ zeros n

unfoldable pub count : Text → ℕ
count [] = 0
count (c ∷ s) = suc (count s)

abbrev pub member : Text × Text → Text
member (name, raw) = quote name ++ b':' ∷ raw

unfoldable pub rest_text : List (Text × Text) → Text
rest_text [] = b'}' ∷ []
rest_text (m ∷ ms) = b',' ∷ (member m ++ rest_text ms)

unfoldable pub object : List (Text × Text) → Text
unfolding rest_text
object [] = bytes "{}"
object (m ∷ ms) = b'{' ∷ (member m ++ rest_text ms)

-- The reader, byte by byte.
pub data Mode : Type 0 where
  start first bad : Mode
  name_start after finished : List (Text × Text) → Mode
  name : List (Text × Text) → Text → Mode
  colon value : List (Text × Text) → Text → Mode
  in_text in_word : List (Text × Text) → Text → Text → Mode

abbrev pub end_of : ℕ → List (Text × Text) → Mode → Mode
end_of c ms other = if c == b',' then name_start ms else if c == b'}' then finished ms else other

unfoldable pub next : Mode → ℕ → Mode
next start c = if c == b'{' then first else bad
next first c = if c == mark then name [] [] else if c == b'}' then finished [] else bad
next bad c = bad
next (name_start ms) c = if c == mark then name ms [] else bad
next (after ms) c = end_of c ms bad
next (finished ms) c = bad
next (name ms acc) c = if c == mark then colon ms acc else name ms (acc ++ c ∷ [])
next (colon ms n) c = if c == b':' then value ms n else bad
next (value ms n) c =
    if c == mark
    then in_text ms n (c ∷ [])
    else if is_word_byte c
    then in_word ms n (c ∷ [])
    else bad
next (in_text ms n acc) c =
    if c == mark then after (ms ++ (n, acc ++ c ∷ []) ∷ []) else in_text ms n (acc ++ c ∷ [])
next (in_word ms n acc) c =
    end_of c (ms ++ (n, acc) ∷ []) (if is_word_byte c then in_word ms n (acc ++ c ∷ []) else bad)

unfoldable pub scan : Mode → Text → Mode
unfolding next
scan m [] = m
scan m (c ∷ s) = scan (next m c) s

abbrev pub finish : Mode → Parsed
finish (finished ms) = members ms
finish other = malformed

unfoldable pub parse : Text → Parsed
unfolding scan text_eq
parse s = if text_eq s (bytes "null") then null_value else finish (scan start s)

abbrev pub is_quote_of : Text → Option Text → Bool
is_quote_of raw none = false
is_quote_of raw (some t) = is_plain t && text_eq raw (quote t)

abbrev pub is_quoted : Text → Bool
is_quoted raw = is_quote_of raw (unquote raw)

unfoldable pub compact : Text → Result Text
unfolding unquote is_word_tail is_plain text_eq
compact raw = if is_word raw || is_quoted raw then ok raw else err (bytes "invalid")

unfoldable pub read_count : Option Text → Option Time
unfolding count
read_count none = none
read_count (some t) = some (count t)

abbrev pub small_json : Json
small_json = record {
  quote = λ s. quote s;
  unquote = unquote;
  compact = compact;
  time_literal = λ t. ok (quote (zeros t));
  read_time = λ raw. read_count (unquote raw);
  object = object;
  parse = parse;
  fold_name = λ n. n;
  zero_time = 0;
}
