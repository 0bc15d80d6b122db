-- ===== src/Storage/Mongo/Counts.antt =====
-- internal/storage/mongo.go: `CountByType`. The aggregation is done by the server: its rows, where
-- `none` is one that does not decode, and the error of the cursor are parameters.
use eventmind.Base.{
  ◌≡◌, refl, ◌∙◌, ap, false, Text, text_eq, text_eq_iff, ℤ, not, Option, none, some, List, [], ◌∷◌,
  Result, ok, err, Bool-cases, inl, inr, keep, if◌then◌else◌,
}

pub record CountRow : Type 0 where
  pub id : Text
  pub count : ℤ

abbrev Counts : Type 0
Counts = List (Text × ℤ)

-- `out[row.ID] = row.Count`
unfoldable pub set_count : CountRow → Counts → Counts
set_count r out = (r.id, r.count) ∷ keep (λ c. not (text_eq c.0 r.id)) out

-- The loop over the cursor.
unfoldable pub collect : List (Option CountRow) → Counts → Counts
unfolding set_count
collect [] out = out
collect (none ∷ rows) out = collect rows out
collect (some r ∷ rows) out = collect rows (set_count r out)

-- `CountByType`, with the error that it returns beside the counts.
unfoldable pub count_by_type : Result (List (Option CountRow) × Option Text) → Counts × Option Text
unfolding collect
count_by_type (err e) = ([], some e)
count_by_type (ok (rows, failed)) = (collect rows [], failed)

-- The count of a type, as the caller looks it up.
abbrev count_of : Text → Counts → Option ℤ
count_of id [] = none
count_of id ((key, n) ∷ out) = if text_eq id key then some n else count_of id out

count_of-keep :
    (id other : Text) (out : Counts)
    → text_eq id other ≡ false
    → count_of id (keep (λ c. not (text_eq c.0 other)) out) ≡ count_of id out
count_of-keep id other [] differs = refl
count_of-keep id other ((key, n) ∷ out) differs =
    let rest = count_of-keep id other out differs in
    elim (Bool-cases (text_eq key other)) [
      | inl same ↦
          let e : text_eq id key ≡ false = rw ((text_eq_iff key other).0 same) differs in
          rw same (rw e rest)
      | inr other_key ↦ rw other_key (ap (λ o. if text_eq id key then some n else o) rest)
    ]

-- A write changes the count of its own type only.
count_of-set_count :
    (id : Text) (r : CountRow) (out : Counts)
    → count_of id (set_count r out) ≡ (if text_eq id r.id then some r.count else count_of id out)
unfolding set_count
count_of-set_count id r out = elim (Bool-cases (text_eq id r.id)) [
  | inl same ↦ rw same refl
  | inr differs ↦ rw differs (count_of-keep id r.id out differs)
]

-- The count of the last row of a type that decodes.
abbrev last_count : Text → List (Option CountRow) → Option ℤ → Option ℤ
last_count id [] n = n
last_count id (none ∷ rows) n = last_count id rows n
last_count id (some r ∷ rows) n = last_count id rows (if text_eq id r.id then some r.count else n)

-- The result holds for each type the count of its last row that decodes.
count_of-collect :
    (id : Text) (rows : List (Option CountRow)) (out : Counts)
    → count_of id (collect rows out) ≡ last_count id rows (count_of id out)
unfolding collect
count_of-collect id [] out = refl
count_of-collect id (none ∷ rows) out = count_of-collect id rows out
count_of-collect id (some r ∷ rows) out =
    count_of-collect id rows (set_count r out)
    ∙ ap (last_count id rows) (count_of-set_count id r out)
