-- ===== src/Messaging/Dlq.antt =====
-- internal/messaging/dlq.go: the worker of the dead letter queue. The wait for the backoff delay is
-- a flag of the poll: whether the context was cancelled before the delay was over.
pub mod Branches
pub mod Retries
pub mod Exhaustion
pub mod Runs
use eventmind.Base.{
  Text, Bool, true, false, not, Option, none, some, List, [], ◌∷◌, ℤ, pos, ltb_ℤ, add64,
  if◌then◌else◌,
}
use eventmind.Events.{Event}
use eventmind.Messaging.Headers.{header_int, merge_headers, retry_count_key}
use eventmind.Messaging.Kafka.{Message, ReadError, is_timeout, Client, Handler, publish_raw, commit}
use eventmind.Messaging.Backoff.{backoff}

-- `DLQWorker`, without its client; the callback `onFailed` is a parameter below.
pub record DlqWorker : Type 0 where
  pub dlq_topic : Text
  pub max_retry : ℤ
  pub base_ms : ℤ

-- One round of the loop: `ctx.Done()`, an error of `ReadMessage`, or a message.
pub data Poll : Type 0 where
  cancelled : Poll
  read_failed : ReadError → Poll
  received : Message → Bool → Poll

-- The loop goes on, has returned, or has panicked.
pub data Flow (W : Type 0) : Type 0 where
  going stopped panicked : W → Flow W

module _ (K : Client) (worker : DlqWorker) where
  -- The message goes back into the queue, with its count of attempts and the error in its headers.
  unfoldable pub requeue : K.World → Message → ℤ → Text → Option Text × K.World
  unfolding publish_raw
  requeue w msg retry_count err =
      let (now, w') = K.now w in
      publish_raw K w' worker.dlq_topic msg.key msg.value
        (merge_headers msg.headers (add64 retry_count (pos 1)) err now)

  module _ (handler : Handler K) where
    -- The handler, and the way back into the queue on its failure.
    unfoldable pub retry : K.World → Message → ℤ → Event → K.World
    retry w msg retry_count ev =
        let (failed, w') = handler w ev in
        elim failed [ none ↦ w' | some err ↦ (requeue w' msg retry_count err).1 ]

    module _ (unmarshal : Text → Option Event) (on_failed : Option (K.World → Text → K.World)) where
      -- The callback, if one is registered.
      unfoldable pub give_up : K.World → Message → K.World
      give_up w msg = elim on_failed [ none ↦ w | some callback ↦ callback w msg.value ]

      -- What follows the wait.
      unfoldable pub attempt : K.World → Message → ℤ → K.World
      attempt w msg retry_count = elim (unmarshal msg.value) [
        | none ↦ commit K w msg
        | some ev ↦ commit K (retry w msg retry_count ev) msg
      ]

      -- The body of the loop after a message was read.
      unfoldable pub process : K.World → Message → Bool → Flow K.World
      process w msg interrupted =
          let retry_count = header_int msg.headers retry_count_key in
          if not (ltb_ℤ retry_count worker.max_retry)
          then going (commit K (give_up w msg) msg)
          else elim (backoff worker.base_ms retry_count) [
            | none ↦ panicked w
            | some delay ↦ if interrupted then stopped w else going (attempt w msg retry_count)
          ]

      -- `Run`
      unfoldable pub run : K.World → List Poll → Flow K.World
      run w [] = going w
      run w (cancelled ∷ polls) = stopped w
      run w (read_failed err ∷ polls) =
          let again = run w polls in if is_timeout err then again else again
      run w (received msg interrupted ∷ polls) = elim (process w msg interrupted) [
        | going w' ↦ run w' polls
        | stopped w' ↦ stopped w'
        | panicked w' ↦ panicked w'
      ]
