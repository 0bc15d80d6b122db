-- ===== src/Worker/Config.antt =====
-- cmd/worker/main.go: `envInt` and the settings of the dead letter worker.
use eventmind.Base.{
  ◌≡◌, refl, ap, Text, bytes, not, Option, none, some, List, [], ◌∷◌, map, ℤ, pos, mul64, of_bits,
  to_bits, atoi, is_empty, if◌then◌else◌,
}
use eventmind.Messaging.Backoff.{backoff}
use eventmind.Messaging.Dlq.{DlqWorker}

abbrev or_default : Option ℤ → ℤ → ℤ
or_default none def = def
or_default (some n) def = n

module _ (getenv : Text → Text) where
  -- `envInt`: a variable that is not set, or no number, gives the default.
  unfoldable pub env_int : Text → ℤ → ℤ
  env_int key def = let v = getenv key in if not (is_empty v) then or_default (atoi v) def else def

  -- The arguments of `NewDLQWorker`.
  unfoldable pub dlq_settings : DlqWorker
  dlq_settings = record {
    dlq_topic = getenv (bytes "KAFKA_TOPIC_DLQ");
    max_retry = env_int (bytes "RETRY_MAX_ATTEMPTS") (pos 5);
    base_ms = env_int (bytes "RETRY_BASE_DELAY_MS") (pos 1000);
  }

  -- The delays in nanoseconds before the first attempts from the dead letter queue.
  abbrev pub first_delays : List (Option ℤ)
  first_delays = map (backoff dlq_settings.base_ms) (pos 0 ∷ pos 1 ∷ pos 2 ∷ pos 3 ∷ pos 4 ∷ [])

  env_int_unset : (key : Text) (def : ℤ) → getenv key ≡ [] → env_int key def ≡ def
  unfolding env_int
  env_int_unset key def unset = rw unset refl

  -- If RETRY_MAX_ATTEMPTS and RETRY_BASE_DELAY_MS are not set, there are at most five attempts,
  -- and the waits before them are 1, 2, 4, 8 and 16 seconds.
  dlq_settings_default :
      getenv (bytes "RETRY_MAX_ATTEMPTS") ≡ []
      → getenv (bytes "RETRY_BASE_DELAY_MS") ≡ []
      → (dlq_settings.max_retry ≡ pos 5)
        × (first_delays
            ≡ some (pos 1000000000)
              ∷ some (pos 2000000000)
              ∷ some (pos 4000000000)
              ∷ some (pos 8000000000)
              ∷ some (pos 16000000000)
              ∷ [])
  unfolding dlq_settings backoff mul64 of_bits to_bits
  dlq_settings_default no_max no_base = (
    env_int_unset _ (pos 5) no_max,
    ap (λ b. map (backoff b) (pos 0 ∷ pos 1 ∷ pos 2 ∷ pos 3 ∷ pos 4 ∷ []))
        (env_int_unset _ (pos 1000) no_base),
  )
