-- ===== src/Startup/WorkerRun/Sound.antt =====
-- What every turn of the worker keeps.
use eventmind.Base.{
  ℕ, ◌≤◌, ◌+◌, Text, Bool, true, false, Option, none, List, [], ◌∷◌, ◌++◌, length, length-append,
  ◌≡◌, ◌≢◌, refl, ◌∙◌, ◌⊎◌, inl, inr, arith, if◌then◌else◌, subst,
}
use eventmind.Resources.{Resources}
use eventmind.Resources.Laws.{IsStack}
use eventmind.Startup.{Libraries, WorkerClients, stop_worker, interrupted}
use eventmind.Startup.ApiRun.{may_return}
use eventmind.Startup.WorkerRun.{
  Phase, selecting, exited, crashed, WorkerRun, Turn, signal, consumer_returns, dlq_returns,
  dlq_panics, metrics_returns, loop_step, take_result, see_done, consumer_returned, dlq_returned,
  main_ends, result_taken, turn, turn_in, turns,
}

module _ {R : Resources} (L : IsStack R) where
  -- A step of a loop leaves the open connections as they are.
  abbrev pub Keeps : Turn R → Type 0
  Keeps signal = Unit
  Keeps consumer_returns = Unit
  Keeps dlq_returns = Unit
  Keeps dlq_panics = Unit
  Keeps (metrics_returns e) = Unit
  Keeps (loop_step f) = (w : R.World) → L.opened (f w) ≡ L.opened w
  Keeps take_result = Unit
  Keeps see_done = Unit

  abbrev pub AllKeep : List (Turn R) → Type 0
  AllKeep [] = Unit
  AllKeep (t ∷ ts) = Keeps t × AllKeep ts

-- The loops that have not returned.
abbrev pub one_if : Bool → ℕ
one_if true = 1
one_if false = 0

abbrev pub AllNil : List (Option Text) → Type 0
AllNil [] = Unit
AllNil (r ∷ rs) = (r ≡ none) × AllNil rs

AllNil-append : (rs : List (Option Text)) → AllNil rs → AllNil (rs ++ none ∷ [])
AllNil-append [] all = (refl, tt)
AllNil-append (r ∷ rs) all = (all.0, AllNil-append rs all.1)

module _ {R : Resources} (L : IsStack R) (C : Libraries R) (clients : WorkerClients R)
    (before : List R.Handle) (started : R.World)
    (closes : (w : R.World)
      → L.opened w ≡ L.opened started
      → L.opened (stop_worker C w clients) ≡ before) where
  abbrev pub IsOpen : Phase → R.World → Type 0
  IsOpen selecting w = L.opened w ≡ L.opened started
  IsOpen exited w = L.opened w ≡ before
  IsOpen crashed w = L.opened w ≡ L.opened started

  pub record IsSound (s : WorkerRun R) : Type 0 where
    pub cause : (s.cancelled ≡ false) ⊎ (s.signalled ≡ true)
    pub ended : (s.main ≢ exited) ⊎ (s.cancelled ≡ true)
    pub room : length s.results + one_if s.consumer_runs + one_if s.dlq_runs ≤ 2
    pub caused : (s.results ≡ []) ⊎ (s.cancelled ≡ true)
    pub nil : AllNil s.results
    pub connections : IsOpen s.main s.world

  IsOpen-same : (p : Phase) (w v : R.World) → L.opened v ≡ L.opened w → IsOpen p w → IsOpen p v
  IsOpen-same selecting w v e held = e ∙ held
  IsOpen-same exited w v e held = e ∙ held
  IsOpen-same crashed w v e held = e ∙ held

  if-IsSound :
      (b : Bool) (s t : WorkerRun R)
      → (b ≡ true → IsSound s)
      → (b ≡ false → IsSound t)
      → IsSound (if b then s else t)
  if-IsSound true s t hold other = hold refl
  if-IsSound false s t hold other = other refl

  -- A cancelled context has been cancelled by a signal.
  pub signal_of : (s : WorkerRun R) → IsSound s → s.cancelled ≡ true → s.signalled ≡ true
  signal_of s sound on = elim sound.cause [ inl calm ↦ absurd cc | inr sig ↦ sig ]

  consumer_returned-IsSound :
      (runs cancelled : Bool) (s : WorkerRun R)
      → s.consumer_runs ≡ runs
      → s.cancelled ≡ cancelled
      → IsSound s
      → IsSound (consumer_returned C clients runs cancelled s)
  unfolding consumer_returned
  consumer_returned-IsSound true true s runs on sound =
      let room = subst (λ b. length s.results + one_if b + one_if s.dlq_runs ≤ 2) runs sound.room in
      record {
        cause = sound.cause;
        ended = sound.ended;
        room = omega (arith, length-append s.results (none ∷ []));
        caused = inr on;
        nil = AllNil-append s.results sound.nil;
        connections = sound.connections;
      }
  consumer_returned-IsSound true false s runs on sound = sound
  consumer_returned-IsSound false cancelled s runs on sound = sound

  dlq_returned-IsSound :
      (runs cancelled : Bool) (s : WorkerRun R)
      → s.dlq_runs ≡ runs
      → s.cancelled ≡ cancelled
      → IsSound s
      → IsSound (dlq_returned C clients runs cancelled s)
  unfolding dlq_returned
  dlq_returned-IsSound true true s runs on sound =
      let room =
        subst (λ b. length s.results + one_if s.consumer_runs + one_if b ≤ 2) runs sound.room in
      record {
        cause = sound.cause;
        ended = sound.ended;
        room = omega (arith, length-append s.results (none ∷ []));
        caused = inr on;
        nil = AllNil-append s.results sound.nil;
        connections = sound.connections;
      }
  dlq_returned-IsSound true false s runs on sound = sound
  dlq_returned-IsSound false cancelled s runs on sound = sound

  main_ends-IsSound :
      (s : WorkerRun R) (on : s.cancelled ≡ true) (at : s.main ≡ selecting) (sound : IsSound s)
      → IsSound (main_ends C clients s s.results interrupted)
  unfolding main_ends
  main_ends-IsSound s on at sound = record {
    cause = inr (signal_of s sound on);
    ended = inr on;
    room = sound.room;
    caused = inr on;
    nil = sound.nil;
    connections = closes s.world (subst (λ p. IsOpen p s.world) at sound.connections);
  }

  result_taken-IsSound :
      (rs : List (Option Text)) (s : WorkerRun R)
      → s.results ≡ rs
      → s.main ≡ selecting
      → IsSound s
      → IsSound (result_taken C clients rs s)
  unfolding result_taken
  result_taken-IsSound [] s are at sound = sound
  result_taken-IsSound (r ∷ rest) s are at sound =
      let on : s.cancelled ≡ true = elim sound.caused [ inl no_result ↦ absurd cc | inr on ↦ on ] in
      let room =
        subst (λ l. length l + one_if s.consumer_runs + one_if s.dlq_runs ≤ 2) are sound.room in
      record {
        cause = inr (signal_of s sound on);
        ended = inr refl;
        room = omega arith;
        caused = inr refl;
        nil = (subst AllNil are sound.nil).1;
        connections = closes s.world (subst (λ p. IsOpen p s.world) at sound.connections);
      }

  turn-IsSound :
      (s : WorkerRun R) (t : Turn R)
      → s.main ≡ selecting
      → Keeps L t
      → IsSound s
      → IsSound (turn C clients s t)
  unfolding turn
  turn-IsSound s signal at keeps sound = record {
    cause = inr refl;
    ended = inr refl;
    room = sound.room;
    caused = inr refl;
    nil = sound.nil;
    connections = sound.connections;
  }
  turn-IsSound s consumer_returns at keeps sound =
      consumer_returned-IsSound s.consumer_runs s.cancelled s refl refl sound
  turn-IsSound s dlq_returns at keeps sound =
      dlq_returned-IsSound s.dlq_runs s.cancelled s refl refl sound
  turn-IsSound s dlq_panics at keeps sound =
      if-IsSound s.dlq_runs _ s
        (λ runs. record {
          cause = sound.cause;
          ended = inl (λ e. cc);
          room = sound.room;
          caused = sound.caused;
          nil = sound.nil;
          connections = subst (λ p. IsOpen p s.world) at sound.connections;
        })
        (λ stopped. sound)
  turn-IsSound s (metrics_returns end) at keeps sound =
      if-IsSound (may_return s.metrics end) _ s
        (λ may. record {
          cause = sound.cause;
          ended = sound.ended;
          room = sound.room;
          caused = sound.caused;
          nil = sound.nil;
          connections = sound.connections;
        })
        (λ not_yet. sound)
  turn-IsSound s (loop_step f) at keeps sound = record {
    cause = sound.cause;
    ended = sound.ended;
    room = sound.room;
    caused = sound.caused;
    nil = sound.nil;
    connections = IsOpen-same s.main s.world (f s.world) (keeps s.world) sound.connections;
  }
  turn-IsSound s take_result at keeps sound = result_taken-IsSound s.results s refl at sound
  turn-IsSound s see_done at keeps sound =
      if-IsSound s.cancelled _ s (λ on. main_ends-IsSound s on at sound) (λ calm. sound)

  turn_in-IsSound :
      (p : Phase) (s : WorkerRun R) (t : Turn R)
      → s.main ≡ p
      → Keeps L t
      → IsSound s
      → IsSound (turn_in C clients p s t)
  unfolding turn_in
  turn_in-IsSound selecting s t at keeps sound = turn-IsSound s t at keeps sound
  turn_in-IsSound exited s t at keeps sound = sound
  turn_in-IsSound crashed s t at keeps sound = sound

  pub turns-IsSound :
      (s : WorkerRun R) (ts : List (Turn R))
      → AllKeep L ts
      → IsSound s
      → IsSound (turns C clients s ts)
  unfolding turns
  turns-IsSound s [] keep sound = sound
  turns-IsSound s (t ∷ ts) keep sound =
      turns-IsSound (turn_in C clients s.main s t) ts keep.1
        (turn_in-IsSound s.main s t refl keep.0 sound)
