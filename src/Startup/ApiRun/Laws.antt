-- ===== src/Startup/ApiRun/Laws.antt =====
-- Why the API server ends, and in which state.
use eventmind.Base.{
  ok_inj, Text, true, false, List, Result, ok, err, ◌≡◌, refl, ◌∙◌, sym, ap, ◌⊎◌, inl, inr, arith,
  subst,
}
use eventmind.Resources.{Resources}
use eventmind.Resources.Laws.{IsStack}
use eventmind.Startup.{Libraries, ApiClients, start_api, stop_api}
use eventmind.Startup.Laws.{AreLawful, stop_api-start_api}
use eventmind.Startup.ApiRun.{
  accepts, waiting, exited, ApiRun, Turn, turns, serving, run_from, api_main,
}
use eventmind.Startup.ApiRun.Causes.{HasFailed}
use eventmind.Startup.ApiRun.Sound.{
  AllKeep, IsOpen, IsSound, api_is_shut, metrics_is_shut, turns-IsSound,
}

-- Whether `main` has a reason to end: a signal, or the API server has failed.
abbrev pub HasCause : {R : Resources} → ApiRun R → Type 0
HasCause s = (s.signalled ≡ true) ⊎ HasFailed s.api

cause_of :
    {R : Resources} (s : ApiRun R)
    → s.cancelled ≡ true
    → (s.cancelled ≡ false) ⊎ HasCause s
    → HasCause s
cause_of s on (inl calm) = absurd cc
cause_of s on (inr why) = why

module _ {R : Resources} (L : IsStack R) (C : Libraries R) (D : AreLawful L C)
    (getenv : Text → Text) (quote : Text → Text) where
  -- What is said of a run: if `main` has been woken there is a cause, and at its end the servers
  -- take no connections and the open connections are those before the start.
  abbrev pub IsOrderlyRun : R.World → ApiRun R → Type 0
  IsOrderlyRun w s =
      ((s.main ≡ waiting) ⊎ HasCause s)
      × (s.main ≡ exited
          → (accepts s.api ≡ false) × (accepts s.metrics ≡ false) × (L.opened s.world ≡ L.opened w))

  IsOrderlyRun-sound :
      (w : R.World) (clients : ApiClients R) (started : R.World)
      (closes : (v : R.World)
        → L.opened v ≡ L.opened started
        → L.opened (stop_api C v clients) ≡ L.opened w)
      (s : ApiRun R)
      → IsSound L C clients (L.opened w) started closes s
      → IsOrderlyRun w s
  IsOrderlyRun-sound w clients started closes s sound = (
    elim sound.woken [ inl here ↦ inl here | inr on ↦ inr (cause_of s on sound.cause) ],
    λ over. (
      api_is_shut L C clients _ started closes s sound (rw over (omega arith)),
      metrics_is_shut L C clients _ started closes s sound (rw over (omega arith)),
      subst (λ p. IsOpen L C clients _ started closes p s.world) over sound.connections,
    ),
  )

  run_from-IsOrderlyRun :
      (w : R.World) (ts : List (Turn R)) (s : ApiRun R) (r : Result (ApiClients R) × R.World)
      → AllKeep L ts
      → start_api getenv quote C w ≡ r
      → run_from C r ts ≡ ok s
      → IsOrderlyRun w s
  run_from-IsOrderlyRun w ts s (err e, v) keep began ran = absurd cc
  run_from-IsOrderlyRun w ts s (ok clients, v) keep began ran =
      let closes : (u : R.World)
          → L.opened u ≡ L.opened v
          → L.opened (stop_api C u clients) ≡ L.opened w =
        λ u same.
          stop_api-start_api L C D getenv quote w u clients (ap (λ q. q.0) began)
            (same ∙ sym (ap (λ q. L.opened q.1) began)) in
      let sound = turns-IsSound L C clients (L.opened w) v closes (serving v) ts keep (record {
        woken = inl refl;
        cause = inl refl;
        api_shut = inl (omega arith);
        metrics_shut = inl (omega arith);
        connections = refl;
      }) in
      subst (IsOrderlyRun w) (ok_inj ran)
        (IsOrderlyRun-sound w clients v closes (turns C clients (serving v) ts) sound)

  -- For client libraries that behave as documented, and requests that leave the open connections
  -- as they are, in whatever order signals, requests, failures of the servers and the steps of
  -- main come: main of the API server stays at its wait until a signal or a failure of the API
  -- server's own listener; and once it has ended, neither server accepts connections, and exactly
  -- the connections from before the start are open.
  pub api_main-IsOrderlyRun :
      (w : R.World) (ts : List (Turn R)) (s : ApiRun R)
      → AllKeep L ts
      → api_main C getenv quote w ts ≡ ok s
      → IsOrderlyRun w s
  unfolding api_main
  api_main-IsOrderlyRun w ts s keep ran = run_from-IsOrderlyRun w ts s _ keep refl ran
