-- ===== src/Startup/ApiRun/Ending.antt =====
-- Once its context is cancelled, the API server ends, with everything closed, whatever else happens.
use eventmind.Base.{
  Text, false, ◌++◌, Result, ok, err, ok_inj, ◌∙◌, ℕ, suc, ◌≤◌, ◌+◌, true, ◌||◌, List, [], ◌∷◌, ◌≡◌,
  refl, sym, ap, arith, Bool-cases, subst, inl, inr, if◌then◌else◌,
}
use eventmind.Resources.{Resources}
use eventmind.Resources.Laws.{IsStack}
use eventmind.Startup.Laws.{AreLawful}
use eventmind.Startup.{Libraries, ApiClients, ServeEnd, cancels}
use eventmind.Startup.ApiRun.{
  Phase, waiting, shutting_api, shutting_metrics, closing, exited, ApiRun, Turn, signal,
  api_returns, metrics_returns, request, go_on, may_return, api_returned, metrics_returned,
  main_goes_on, turn, turn_in, turns, accepts, serving, run_from, api_main,
}
use eventmind.Startup.ApiRun.Sound.{steps_left, AllKeep}
use eventmind.Startup.ApiRun.Laws.{HasCause, IsOrderlyRun, api_main-IsOrderlyRun}

-- How often `main` goes on.
abbrev pub own_steps : {R : Resources} → List (Turn R) → ℕ
own_steps [] = 0
own_steps (go_on ∷ ts) = suc (own_steps ts)
own_steps (signal ∷ ts) = own_steps ts
own_steps (api_returns e ∷ ts) = own_steps ts
own_steps (metrics_returns e ∷ ts) = own_steps ts
own_steps (request f ∷ ts) = own_steps ts

exited_of : (p : Phase) → steps_left p ≤ 0 → p ≡ exited
exited_of exited h = refl
exited_of waiting h = absurd (omega arith)
exited_of shutting_api h = absurd (omega arith)
exited_of shutting_metrics h = absurd (omega arith)
exited_of closing h = absurd (omega arith)

steps_few :
    {R : Resources} (p : Phase) (ts : List (Turn R))
    → 4 ≤ own_steps ts
    → steps_left p ≤ own_steps ts
steps_few waiting ts enough = omega arith
steps_few shutting_api ts enough = omega arith
steps_few shutting_metrics ts enough = omega arith
steps_few closing ts enough = omega arith
steps_few exited ts enough = omega arith

module _ {R : Resources} (C : Libraries R) (clients : ApiClients R) where
  -- A cancelled state that has so many steps left at most.
  record IsEnding (n : ℕ) (s : ApiRun R) : Type 0 where
    pub cancelled : s.cancelled ≡ true
    pub left : steps_left s.main ≤ n

  IsEnding-mono : (s : ApiRun R) (m n : ℕ) → m ≤ n → IsEnding m s → IsEnding n s
  IsEnding-mono s m n few h = record { cancelled = h.cancelled; left = omega (arith, h.left) }

  -- What is left, at a phase that is known.
  left_at : (s : ApiRun R) (p : Phase) {n : ℕ} → s.main ≡ p → IsEnding n s → steps_left p ≤ n
  left_at s p {n} at h = subst (λ q. steps_left q ≤ n) at h.left

  main_goes_on-IsEnding :
      (p : Phase) (s : ApiRun R) (n : ℕ)
      → s.main ≡ p
      → IsEnding (suc n) s
      → IsEnding n (main_goes_on C clients p s)
  unfolding main_goes_on
  main_goes_on-IsEnding waiting s n at h =
      let few = left_at s waiting at h in
      subst (λ b. IsEnding n (if b then record s { main = shutting_api } else s)) (sym h.cancelled)
        (record { cancelled = h.cancelled; left = omega arith })
  main_goes_on-IsEnding shutting_api s n at h =
      let few = left_at s shutting_api at h in
      record { cancelled = h.cancelled; left = omega arith }
  main_goes_on-IsEnding shutting_metrics s n at h =
      let few = left_at s shutting_metrics at h in
      record { cancelled = h.cancelled; left = omega arith }
  main_goes_on-IsEnding closing s n at h = record { cancelled = refl; left = omega arith }
  main_goes_on-IsEnding exited s n at h = record {
    cancelled = h.cancelled;
    left = rw at (omega arith);
  }

  -- The servers and the requests take no step from `main`, and never undo the cancellation.
  api_returned-IsEnding :
      (s : ApiRun R) (e : ServeEnd) (n : ℕ) → IsEnding n s → IsEnding n (api_returned C clients s e)
  unfolding api_returned
  api_returned-IsEnding s e n h = elim (Bool-cases (may_return s.api e)) [
    | inr not_yet ↦ rw not_yet h
    | inl may ↦ rw may (record { cancelled = ap (λ b. b || cancels e) h.cancelled; left = h.left })
  ]

  metrics_returned-IsEnding :
      (s : ApiRun R) (e : ServeEnd) (n : ℕ)
      → IsEnding n s
      → IsEnding n (metrics_returned C clients s e)
  unfolding metrics_returned
  metrics_returned-IsEnding s e n h = elim (Bool-cases (may_return s.metrics e)) [
    | inr not_yet ↦ rw not_yet h
    | inl may ↦ rw may (record { cancelled = h.cancelled; left = h.left })
  ]

  -- The steps of `main` in one turn.
  abbrev own : Turn R → ℕ
  own t = own_steps (t ∷ [])

  turn-IsEnding :
      (s : ApiRun R) (t : Turn R) (n : ℕ) → IsEnding (own t + n) s → IsEnding n (turn C clients s t)
  unfolding turn
  turn-IsEnding s signal n h = record { cancelled = refl; left = omega (arith, h.left) }
  turn-IsEnding s (api_returns e) n h =
      api_returned-IsEnding s e n (IsEnding-mono s _ n (omega arith) h)
  turn-IsEnding s (metrics_returns e) n h =
      metrics_returned-IsEnding s e n (IsEnding-mono s _ n (omega arith) h)
  turn-IsEnding s (request f) n h = record { cancelled = h.cancelled; left = omega (arith, h.left) }
  turn-IsEnding s go_on n h =
      main_goes_on-IsEnding s.main s n refl (IsEnding-mono s _ (suc n) (omega arith) h)

  turn_in-IsEnding :
      (p : Phase) (s : ApiRun R) (t : Turn R) (n : ℕ)
      → s.main ≡ p
      → IsEnding (own t + n) s
      → IsEnding n (turn_in C clients p s t)
  unfolding turn_in
  turn_in-IsEnding exited s t n at h = record {
    cancelled = h.cancelled;
    left = rw at (omega arith);
  }
  turn_in-IsEnding waiting s t n at h = turn-IsEnding s t n h
  turn_in-IsEnding shutting_api s t n at h = turn-IsEnding s t n h
  turn_in-IsEnding shutting_metrics s t n at h = turn-IsEnding s t n h
  turn_in-IsEnding closing s t n at h = turn-IsEnding s t n h

  own_steps-cons : (t : Turn R) (ts : List (Turn R)) → own_steps (t ∷ ts) ≡ own t + own_steps ts
  own_steps-cons signal ts = omega arith
  own_steps-cons (api_returns e) ts = omega arith
  own_steps-cons (metrics_returns e) ts = omega arith
  own_steps-cons (request f) ts = omega arith
  own_steps-cons go_on ts = omega arith

  turns-exits :
      (s : ApiRun R) (ts : List (Turn R))
      → IsEnding (own_steps ts) s
      → (turns C clients s ts).main ≡ exited
  unfolding turns
  turns-exits s [] h = exited_of s.main h.left
  turns-exits s (t ∷ ts) h = turns-exits (turn_in C clients s.main s t) ts (
      turn_in-IsEnding s.main s t (own_steps ts) refl
        (subst (λ n. IsEnding n s) (own_steps-cons t ts) h))

  -- From a state in which its context is cancelled, `main` ends in at most four steps of its own.
  turns-exited :
      (s : ApiRun R) (ts : List (Turn R))
      → s.cancelled ≡ true
      → 4 ≤ own_steps ts
      → (turns C clients s ts).main ≡ exited
  turns-exited s ts on enough =
      turns-exits s ts (record { cancelled = on; left = steps_few s.main ts enough })

  turns-append :
      (s : ApiRun R) (ts more : List (Turn R))
      → turns C clients s (ts ++ more) ≡ turns C clients (turns C clients s ts) more
  unfolding turns
  turns-append s [] more = refl
  turns-append s (t ∷ ts) more = turns-append (turn_in C clients s.main s t) ts more

AllKeep-append :
    {R : Resources} (L : IsStack R) (ts more : List (Turn R))
    → AllKeep L ts
    → AllKeep L more
    → AllKeep L (ts ++ more)
AllKeep-append L [] more keep keep_more = keep_more
AllKeep-append L (t ∷ ts) more keep keep_more = (keep.0, AllKeep-append L ts more keep.1 keep_more)

module _ {R : Resources} (L : IsStack R) (C : Libraries R) (D : AreLawful L C)
    (getenv : Text → Text) (quote : Text → Text) where
  -- `main` has ended, for a cause; both listeners are shut, and the connections are those before
  -- the start.
  pub record IsStopped (w : R.World) (s : ApiRun R) : Type 0 where
    pub over : s.main ≡ exited
    pub cause : HasCause s
    pub api : accepts s.api ≡ false
    pub metrics : accepts s.metrics ≡ false
    pub closed : L.opened s.world ≡ L.opened w

  IsStopped-of_exited :
      (w : R.World) (s : ApiRun R)
      → s.main ≡ exited
      → IsOrderlyRun L C D getenv quote w s
      → IsStopped w s
  IsStopped-of_exited w s over orderly =
      let (api, metrics, closed) = orderly.1 over in
      record {
        over = over;
        cause = elim orderly.0 [ inl here ↦ absurd cc | inr why ↦ why ];
        api = api;
        metrics = metrics;
        closed = closed;
      }

  run_from-append :
      (ts more : List (Turn R)) (s : ApiRun R) (r : Result (ApiClients R) × R.World)
      → run_from C r ts ≡ ok s
      → s.cancelled ≡ true
      → 4 ≤ own_steps more
      → (s' : ApiRun R) × (run_from C r (ts ++ more) ≡ ok s') × (s'.main ≡ exited)
  run_from-append ts more s (err e, v) ran on enough = absurd cc
  run_from-append ts more s (ok clients, v) ran on enough =
      let s1 = turns C clients (serving v) ts in
      let same : s1 ≡ s = ok_inj ran in
      (
        turns C clients (serving v) (ts ++ more),
        refl,
        ap (λ q. q.main) (turns-append C clients (serving v) ts more)
            ∙ turns-exited C clients s1 more (ap (λ q. q.cancelled) same ∙ on) enough,
      )

  -- For client libraries that behave as documented, and requests that leave the open connections
  -- as they are: once the context of the API server is cancelled, then after any further turns in
  -- which main takes four steps, whatever signals, requests and ends of the servers come between
  -- them, main has ended, for a signal or a failure of the API server; neither server accepts
  -- connections, and exactly the connections from before the start are open.
  pub api_main-IsStopped :
      (w : R.World) (ts more : List (Turn R)) (s : ApiRun R)
      → AllKeep L ts
      → AllKeep L more
      → api_main C getenv quote w ts ≡ ok s
      → s.cancelled ≡ true
      → 4 ≤ own_steps more
      → (s' : ApiRun R) × (api_main C getenv quote w (ts ++ more) ≡ ok s') × IsStopped w s'
  unfolding api_main
  api_main-IsStopped w ts more s keep keep_more ran on enough =
      let (s', runs, over) = run_from-append ts more s _ ran on enough in
      (
        s',
        runs,
        IsStopped-of_exited w s' over (
            api_main-IsOrderlyRun L C D getenv quote w (ts ++ more) s'
              (AllKeep-append L ts more keep keep_more) runs),
      )
