-- ===== src/Agent/Extract/Laws.antt =====
-- Which part of a reply `extractJSON` takes.
use eventmind.Base.{
  ℕ, suc, ◌+◌, ◌-◌, ◌≡◌, refl, ◌∙◌, sym, ap, Text, bytes, [], ◌∷◌, ◌++◌, append_assoc, length, take,
  drop, length-append, trim_space, index_byte, last_index_byte, arith, lt→ltb,
}
use eventmind.Base.Bytes.Laws.{Lacks, index_byte-append, last_index_byte-append, trim_space-around}
use eventmind.Agent.Extract.{slice, cut, extract_json}

drop-append : (xs ys : Text) → drop (length xs) (xs ++ ys) ≡ ys
drop-append [] ys = refl
drop-append (x ∷ xs) ys = drop-append xs ys

take_through : (xs ys : Text) (b : ℕ) → take (suc (length xs)) (xs ++ b ∷ ys) ≡ xs ++ b ∷ []
take_through [] ys b = refl
take_through (x ∷ xs) ys b = ap (λ l. x ∷ l) (take_through xs ys b)

-- From the first byte a to the last byte b.
slice-around :
    (a b : ℕ) (pre mid post : Text)
    → slice (pre ++ a ∷ (mid ++ b ∷ post)) (length pre) (length (pre ++ a ∷ mid) + 1)
      ≡ a ∷ (mid ++ b ∷ [])
slice-around a b pre mid post =
    let span : length (pre ++ a ∷ mid) + 1 - length pre ≡ suc (suc (length mid)) =
      omega (arith, length-append pre (a ∷ mid)) in
    rw (drop-append pre (a ∷ (mid ++ b ∷ post)))
      (rw span (ap (λ l. a ∷ l) (take_through mid post b)))

cut-around :
    (t pre mid post : Text)
    → Lacks b'{' pre
    → Lacks b'}' post
    → t ≡ pre ++ b'{' ∷ (mid ++ b'}' ∷ post)
    → cut t (index_byte b'{' t) (last_index_byte b'}' t) ≡ b'{' ∷ (mid ++ b'}' ∷ [])
unfolding cut
cut-around t pre mid post open_free close_free e =
    let first =
      ap (index_byte b'{') e ∙ index_byte-append b'{' pre (mid ++ b'}' ∷ post) open_free in
    let last =
      ap (last_index_byte b'}') (e ∙ sym (append_assoc pre (b'{' ∷ mid) (b'}' ∷ post)))
      ∙ last_index_byte-append b'}' (pre ++ b'{' ∷ mid) post close_free in
    rw first (
      rw last (
        rw
          (lt→ltb (length pre) (length (pre ++ b'{' ∷ mid))
            (omega (arith, length-append pre (b'{' ∷ mid))))
          (rw e (slice-around b'{' b'}' pre mid post))))

-- If no opening brace stands before a text in braces and no closing brace behind it, the
-- extraction takes exactly the text in braces.
pub extract_json-around :
    (pre mid post : Text)
    → Lacks b'{' pre
    → Lacks b'}' post
    → extract_json (pre ++ b'{' ∷ (mid ++ b'}' ∷ post)) ≡ b'{' ∷ (mid ++ b'}' ∷ [])
unfolding extract_json
extract_json-around pre mid post open_free close_free =
    let (pre', post', same, open_free', close_free') =
      trim_space-around b'{' b'}' pre mid post (omega arith) (omega arith) open_free close_free in
    cut-around _ pre' mid post' open_free' close_free' same

fenced : extract_json (bytes "```json\n{\"action\":\"x\"}\n```") ≡ bytes "{\"action\":\"x\"}"
unfolding extract_json trim_space index_byte last_index_byte
fenced = refl

no_object : extract_json (bytes "  no json here ") ≡ bytes "no json here"
unfolding extract_json trim_space index_byte last_index_byte
no_object = refl
