-- ===== src/Storage/Postgres/Tables.antt =====
-- The documented behaviour of the statements: the two tables by primary key, the foreign key from
-- decisions to events, and what a select finds. Any statement may fail. A row is known by the values
-- that its insert was given. What a select gives for a row may differ from them: a TIMESTAMPTZ has
-- microseconds, where Go has nanoseconds, and JSONB has a text of its own for a value, so that of the
-- events only the inserted values are spoken of.
use eventmind.Base.{Time, ◌<◌, ◌+◌, ◌≡◌, ◌⊎◌, Text, text_eq, Option, none, some, if◌then◌else◌}
use eventmind.Storage.Postgres.{
  PgError, no_rows, pg_error, Answer, row, error, EventRow, DecisionRow, Pg,
}

-- A row that is there already stays (`ON CONFLICT (id) DO NOTHING`).
abbrev pub kept_row : Option EventRow → EventRow → EventRow
kept_row none new = new
kept_row (some old) new = old

abbrev pub one_row : Option DecisionRow → Answer DecisionRow
one_row none = error no_rows
one_row (some r) = row r

-- Two times that differ by less than a microsecond.
abbrev pub IsNear : Time → Time → Type 0
IsNear t t' = (t < t' + 1000) × (t' < t + 1000)

-- A row as a select gives it, with its time as it was kept.
abbrev pub as_read : (Time → Time) → Option DecisionRow → Option DecisionRow
as_read kept_time none = none
as_read kept_time (some r) = some (record r { processed_at = kept_time r.processed_at })

pub record IsLawful (P : Pg) : Type 0 where
  pub events : P.State → Text → Option EventRow
  pub decisions : P.State → Text → Option DecisionRow
  pub kept_time : Time → Time
  pub kept_time-IsNear : (t : Time) → IsNear t (kept_time t)
  pub insert_event_lem :
      (s : P.State) (r : EventRow)
      → ((e : PgError) × ((P.insert_event s r).0 ≡ some e))
        ⊎ (((P.insert_event s r).0 ≡ none)
            × ((id : Text)
                → events (P.insert_event s r).1 id
                  ≡ (if text_eq id r.id then some (kept_row (events s r.id) r) else events s id)))
  pub insert_decision_lem :
      (s : P.State) (r : DecisionRow)
      → ((e : PgError) × ((P.insert_decision s r).0 ≡ some e))
        ⊎ (((P.insert_decision s r).0 ≡ none)
            × ((id : Text)
                → decisions (P.insert_decision s r).1 id
                  ≡ (if text_eq id r.id then some r else decisions s id)))
  pub foreign_key :
      (s : P.State) (r : DecisionRow)
      → events s r.event_id ≡ none
      → ((e : PgError) × ((P.insert_decision s r).0 ≡ some e))
        × ((id : Text) → decisions (P.insert_decision s r).1 id ≡ decisions s id)
  pub select_decision_lem :
      (s : P.State) (id : Text)
      → ((e : Text) × (P.select_decision s id ≡ error (pg_error e)))
        ⊎ (P.select_decision s id ≡ one_row (as_read kept_time (decisions s id)))
