-- ===== src/Startup/WorkerRun/Laws.antt =====
-- Why the worker ends, and in which state.
use eventmind.Base.{
  ok_inj, ◌≤◌, ◌+◌, Text, true, List, length, Result, ok, err, ◌≡◌, refl, ◌∙◌, sym, ap, inl, inr,
  arith, subst,
}
use eventmind.Resources.{Resources}
use eventmind.Resources.Laws.{IsStack}
use eventmind.Startup.{Libraries, WorkerClients, start_worker, stop_worker}
use eventmind.Startup.Laws.{AreLawful, stop_worker-start_worker}
use eventmind.Startup.WorkerRun.{exited, WorkerRun, Turn, turns, looping, run_from, worker_main}
use eventmind.Startup.WorkerRun.Sound.{
  AllKeep, one_if, AllNil, IsOpen, IsSound, signal_of, turns-IsSound,
}

module _ {R : Resources} (L : IsStack R) (C : Libraries R) (D : AreLawful L C)
    (getenv : Text → Text) (quote : Text → Text) where
  -- What is said of a run: the channel has room for what the loops still send, and no error has
  -- come through it; `main` has ended only after a signal, and has then closed what it had opened.
  abbrev pub IsOrderlyRun : R.World → WorkerRun R → Type 0
  IsOrderlyRun w s =
      (length s.results + one_if s.consumer_runs + one_if s.dlq_runs ≤ 2)
      × AllNil s.results
      × (s.main ≡ exited → (s.signalled ≡ true) × (L.opened s.world ≡ L.opened w))

  IsOrderlyRun-sound :
      (w : R.World) (clients : WorkerClients R) (started : R.World)
      (closes : (v : R.World)
        → L.opened v ≡ L.opened started
        → L.opened (stop_worker C v clients) ≡ L.opened w)
      (s : WorkerRun R)
      → IsSound L C clients (L.opened w) started closes s
      → IsOrderlyRun w s
  IsOrderlyRun-sound w clients started closes s sound = (
    sound.room,
    sound.nil,
    λ over. (
      elim sound.ended [
        | inl going ↦ absurd (going over)
        | inr on ↦ signal_of L C clients _ started closes s sound on
      ],
      subst (λ p. IsOpen L C clients _ started closes p s.world) over sound.connections,
    ),
  )

  run_from-IsOrderlyRun :
      (w : R.World) (ts : List (Turn R)) (s : WorkerRun R) (r : Result (WorkerClients R) × R.World)
      → AllKeep L ts
      → start_worker getenv quote C w ≡ r
      → run_from C r ts ≡ ok s
      → IsOrderlyRun w s
  run_from-IsOrderlyRun w ts s (err e, v) keep began ran = absurd cc
  run_from-IsOrderlyRun w ts s (ok clients, v) keep began ran =
      let closes : (u : R.World)
          → L.opened u ≡ L.opened v
          → L.opened (stop_worker C u clients) ≡ L.opened w =
        λ u same.
          stop_worker-start_worker L C D getenv quote w u clients (ap (λ q. q.0) began)
            (same ∙ sym (ap (λ q. L.opened q.1) began)) in
      let sound = turns-IsSound L C clients (L.opened w) v closes (looping v) ts keep (record {
        cause = inl refl;
        ended = inl (λ e. cc);
        room = omega arith;
        caused = inl refl;
        nil = tt;
        connections = refl;
      }) in
      subst (IsOrderlyRun w) (ok_inj ran)
        (IsOrderlyRun-sound w clients v closes (turns C clients (looping v) ts) sound)

  -- For client libraries that behave as documented, and loops that leave the open connections as
  -- they are, in whatever order signals, ends of the loops, a panic and the cases of the select
  -- come: the channel always has room for the results that the loops have still to send, so that
  -- none blocks, and no error comes through it; and main of the worker has ended only after a
  -- signal, and exactly the connections from before the start are then open.
  pub worker_main-IsOrderlyRun :
      (w : R.World) (ts : List (Turn R)) (s : WorkerRun R)
      → AllKeep L ts
      → worker_main C getenv quote w ts ≡ ok s
      → IsOrderlyRun w s
  unfolding worker_main
  worker_main-IsOrderlyRun w ts s keep ran = run_from-IsOrderlyRun w ts s _ keep refl ran
