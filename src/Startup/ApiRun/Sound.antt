-- ===== src/Startup/ApiRun/Sound.antt =====
-- What every turn of the API server keeps.
use eventmind.Base.{
  ℕ, ◌≤◌, ◌<◌, Bool, true, false, List, [], ◌∷◌, ◌≡◌, ◌≢◌, refl, ◌∙◌, ◌⊎◌, inl, inr, arith, subst,
  Bool-cases, if◌then◌else◌,
}
use eventmind.Resources.{Resources}
use eventmind.Resources.Laws.{IsStack}
use eventmind.Startup.{Libraries, ApiClients, stop_api, ServeEnd, cancels}
use eventmind.Startup.ApiRun.{
  accepts, Phase, waiting, shutting_api, shutting_metrics, closing, exited, ApiRun, Turn, signal,
  api_returns, metrics_returns, request, go_on, may_return, api_returned, metrics_returned,
  main_goes_on, turn, turn_in, turns,
}
use eventmind.Startup.ApiRun.Causes.{
  HasFailed, failed_cause, still, accepts-shut_down, cause_shut, cause_on,
}

-- How many steps `main` still has to take.
abbrev pub steps_left : Phase → ℕ
steps_left waiting = 4
steps_left shutting_api = 3
steps_left shutting_metrics = 2
steps_left closing = 1
steps_left exited = 0

module _ {R : Resources} (L : IsStack R) where
  -- A request leaves the open connections as they are.
  abbrev pub Keeps : Turn R → Type 0
  Keeps (request f) = (w : R.World) → L.opened (f w) ≡ L.opened w
  Keeps signal = Unit
  Keeps (api_returns e) = Unit
  Keeps (metrics_returns e) = Unit
  Keeps go_on = Unit

  abbrev pub AllKeep : List (Turn R) → Type 0
  AllKeep [] = Unit
  AllKeep (t ∷ ts) = Keeps t × AllKeep ts

module _ {R : Resources} (L : IsStack R) (C : Libraries R) (clients : ApiClients R)
    (before : List R.Handle) (started : R.World)
    (closes : (w : R.World)
      → L.opened w ≡ L.opened started
      → L.opened (stop_api C w clients) ≡ before) where
  -- The connections: those of the start until `main` closes them, then those before it.
  abbrev pub IsOpen : Phase → R.World → Type 0
  IsOpen exited w = L.opened w ≡ before
  IsOpen waiting w = L.opened w ≡ L.opened started
  IsOpen shutting_api w = L.opened w ≡ L.opened started
  IsOpen shutting_metrics w = L.opened w ≡ L.opened started
  IsOpen closing w = L.opened w ≡ L.opened started

  pub record IsSound (s : ApiRun R) : Type 0 where
    pub woken : (s.main ≡ waiting) ⊎ (s.cancelled ≡ true)
    pub cause : (s.cancelled ≡ false) ⊎ (s.signalled ≡ true) ⊎ HasFailed s.api
    pub api_shut : (3 ≤ steps_left s.main) ⊎ (accepts s.api ≡ false)
    pub metrics_shut : (2 ≤ steps_left s.main) ⊎ (accepts s.metrics ≡ false)
    pub connections : IsOpen s.main s.world

  IsOpen-same : (p : Phase) (w v : R.World) → L.opened v ≡ L.opened w → IsOpen p w → IsOpen p v
  IsOpen-same exited w v e held = e ∙ held
  IsOpen-same waiting w v e held = e ∙ held
  IsOpen-same shutting_api w v e held = e ∙ held
  IsOpen-same shutting_metrics w v e held = e ∙ held
  IsOpen-same closing w v e held = e ∙ held

  api_returned-IsSound :
      (s : ApiRun R) (e : ServeEnd) → IsSound s → IsSound (api_returned C clients s e)
  unfolding api_returned accepts
  api_returned-IsSound s e sound = elim (Bool-cases (may_return s.api e)) [
    | inr not_yet ↦ rw not_yet sound
    | inl may ↦ rw may (record {
      woken = still s.main s.cancelled (cancels e) sound.woken;
      cause = failed_cause s.api e s.cancelled s.signalled may sound.cause;
      api_shut = inr refl;
      metrics_shut = sound.metrics_shut;
      connections = sound.connections;
    })
  ]

  metrics_returned-IsSound :
      (s : ApiRun R) (e : ServeEnd) → IsSound s → IsSound (metrics_returned C clients s e)
  unfolding metrics_returned accepts
  metrics_returned-IsSound s e sound = elim (Bool-cases (may_return s.metrics e)) [
    | inr not_yet ↦ rw not_yet sound
    | inl may ↦ rw may (record {
      woken = sound.woken;
      cause = sound.cause;
      api_shut = sound.api_shut;
      metrics_shut = inr refl;
      connections = sound.connections;
    })
  ]

  pub is_cancelled : (s : ApiRun R) → IsSound s → s.main ≢ waiting → s.cancelled ≡ true
  is_cancelled s sound past = elim sound.woken [ inl here ↦ absurd (past here) | inr on ↦ on ]

  pub api_is_shut : (s : ApiRun R) → IsSound s → steps_left s.main < 3 → accepts s.api ≡ false
  api_is_shut s sound past = elim sound.api_shut [
    | inl early ↦ absurd (omega arith)
    | inr shut ↦ shut
  ]

  pub metrics_is_shut :
      (s : ApiRun R) → IsSound s → steps_left s.main < 2 → accepts s.metrics ≡ false
  metrics_is_shut s sound past = elim sound.metrics_shut [
    | inl early ↦ absurd (omega arith)
    | inr shut ↦ shut
  ]

  if-IsSound :
      (b : Bool) (s t : ApiRun R)
      → (b ≡ true → IsSound s)
      → (b ≡ false → IsSound t)
      → IsSound (if b then s else t)
  if-IsSound true s t hold other = hold refl
  if-IsSound false s t hold other = other refl

  main_goes_on-IsSound :
      (p : Phase) (s : ApiRun R) → s.main ≡ p → IsSound s → IsSound (main_goes_on C clients p s)
  unfolding main_goes_on
  main_goes_on-IsSound waiting s at sound =
      if-IsSound s.cancelled _ s
        (λ on. record {
          woken = inr on;
          cause = sound.cause;
          api_shut = inl (omega arith);
          metrics_shut = inl (omega arith);
          connections = subst (λ p. IsOpen p s.world) at sound.connections;
        })
        (λ calm. sound)
  main_goes_on-IsSound shutting_api s at sound = record {
    woken = inr (is_cancelled s sound (λ e. cc));
    cause = cause_shut s.api s.cancelled s.signalled sound.cause;
    api_shut = inr (accepts-shut_down s.api);
    metrics_shut = inl (omega arith);
    connections = subst (λ p. IsOpen p s.world) at sound.connections;
  }
  main_goes_on-IsSound shutting_metrics s at sound = record {
    woken = inr (is_cancelled s sound (λ e. cc));
    cause = sound.cause;
    api_shut = inr (api_is_shut s sound (rw at (omega arith)));
    metrics_shut = inr (accepts-shut_down s.metrics);
    connections = subst (λ p. IsOpen p s.world) at sound.connections;
  }
  main_goes_on-IsSound closing s at sound = record {
    woken = inr refl;
    cause = cause_on s.api s.cancelled s.signalled (is_cancelled s sound (λ e. cc)) sound.cause;
    api_shut = inr (api_is_shut s sound (rw at (omega arith)));
    metrics_shut = inr (metrics_is_shut s sound (rw at (omega arith)));
    connections = closes s.world (subst (λ p. IsOpen p s.world) at sound.connections);
  }
  main_goes_on-IsSound exited s at sound = sound

  turn-IsSound :
      (s : ApiRun R) (t : Turn R)
      → s.main ≢ exited
      → Keeps L t
      → IsSound s
      → IsSound (turn C clients s t)
  unfolding turn
  turn-IsSound s signal on keeps sound = record {
    woken = inr refl;
    cause = inr (inl refl);
    api_shut = sound.api_shut;
    metrics_shut = sound.metrics_shut;
    connections = sound.connections;
  }
  turn-IsSound s (api_returns e) on keeps sound = api_returned-IsSound s e sound
  turn-IsSound s (metrics_returns e) on keeps sound = metrics_returned-IsSound s e sound
  turn-IsSound s (request f) on keeps sound = record {
    woken = sound.woken;
    cause = sound.cause;
    api_shut = sound.api_shut;
    metrics_shut = sound.metrics_shut;
    connections = IsOpen-same s.main s.world (f s.world) (keeps s.world) sound.connections;
  }
  turn-IsSound s go_on on keeps sound = main_goes_on-IsSound s.main s refl sound

  turn_in-IsSound :
      (p : Phase) (s : ApiRun R) (t : Turn R)
      → s.main ≡ p
      → Keeps L t
      → IsSound s
      → IsSound (turn_in C clients p s t)
  unfolding turn_in
  turn_in-IsSound exited s t at keeps sound = sound
  turn_in-IsSound waiting s t at keeps sound = turn-IsSound s t (λ e. cc) keeps sound
  turn_in-IsSound shutting_api s t at keeps sound = turn-IsSound s t (λ e. cc) keeps sound
  turn_in-IsSound shutting_metrics s t at keeps sound = turn-IsSound s t (λ e. cc) keeps sound
  turn_in-IsSound closing s t at keeps sound = turn-IsSound s t (λ e. cc) keeps sound

  pub turns-IsSound :
      (s : ApiRun R) (ts : List (Turn R))
      → AllKeep L ts
      → IsSound s
      → IsSound (turns C clients s ts)
  unfolding turns
  turns-IsSound s [] keep sound = sound
  turns-IsSound s (t ∷ ts) keep sound =
      turns-IsSound (turn_in C clients s.main s t) ts keep.1
        (turn_in-IsSound s.main s t refl keep.0 sound)
