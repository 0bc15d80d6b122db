-- ===== src/Storage/Postgres/Laws.antt =====
-- A decision that was saved is read back as it was, but for less than a microsecond of its time.
use eventmind.Base.{
  Time, ◌≡◌, refl, ap, ◌∙◌, ◌⊎◌, inl, inr, Text, text_eq, text_eq_refl, none, some, [], ◌∷◌,
  if◌then◌else◌,
}
use eventmind.Agent.Process.{Decision}
use eventmind.Storage.Postgres.{
  pg_error, row, error, Pg, nil_if_empty, decision_row, scan_decision, text_or_empty, map_answer,
  save_decision, get_decision,
}
use eventmind.Storage.Postgres.Tables.{IsNear, as_read, IsLawful, one_row}

text_or_empty-nil_if_empty : (s : Text) → text_or_empty (nil_if_empty s) ≡ s
unfolding nil_if_empty
text_or_empty-nil_if_empty [] = refl
text_or_empty-nil_if_empty (c ∷ s) = refl

-- No column is lost or mixed up on the way into a row and back, the nullable error included.
scan_decision-kept :
    (d : Decision) (t : Time)
    → scan_decision (record (decision_row d) { processed_at = t }) ≡ record d { processed_at = t }
unfolding scan_decision decision_row
scan_decision-kept d t =
    ap (λ e. record d { error = e; processed_at = t }) (text_or_empty-nil_if_empty d.error)

module _ (P : Pg) (L : IsLawful P) where
  after_id :
      (s : P.State) (d : Decision)
      → ((id : Text)
          → L.decisions (save_decision P s d).1 id
            ≡ (if text_eq id (decision_row d).id then some (decision_row d) else L.decisions s id))
      → (id : Text)
      → L.decisions (save_decision P s d).1 id
        ≡ (if text_eq id d.id then some (decision_row d) else L.decisions s id)
  unfolding decision_row
  after_id s d after = after

  -- A read gives the decision, with a time less than a microsecond off, or an error of the server.
  abbrev pub IsReadBack : P.State → Decision → Type 0
  IsReadBack s d =
      ((e : Text) × (get_decision P s d.id ≡ error (pg_error e)))
      ⊎ ((t : Time) × IsNear d.processed_at t
          × (get_decision P s d.id ≡ row (record d { processed_at = t })))

  -- If the insert of a decision succeeds, reading it by its id gives the same decision, with a time
  -- less than a microsecond off, or an error of the server, and the rows of all other decisions
  -- stay.
  pub get_decision-save_decision :
      (s : P.State) (d : Decision)
      → (save_decision P s d).0 ≡ none
      → let s' = (save_decision P s d).1 in
        IsReadBack s' d
        × ((id : Text)
            → L.decisions s' id
              ≡ (if text_eq id d.id then some (decision_row d) else L.decisions s id))
  unfolding save_decision get_decision decision_row
  get_decision-save_decision s d saved = elim (L.insert_decision_lem s (decision_row d)) [
    | inl (e, bad) ↦ cc
    | inr (good, after) ↦ (
      elim (L.select_decision_lem (save_decision P s d).1 d.id) [
        | inl (e, bad) ↦ inl (e, ap (map_answer scan_decision) bad)
        | inr found ↦
            let there = rw (text_eq_refl d.id) at (after_id s d after d.id) in
            inr (
              L.kept_time d.processed_at,
              L.kept_time-IsNear d.processed_at,
              ap (map_answer scan_decision)
                    (found ∙ ap (λ o. one_row (as_read L.kept_time o)) there)
                  ∙ ap row (scan_decision-kept d (L.kept_time d.processed_at)),
            )
      ],
      after_id s d after,
    )
  ]
