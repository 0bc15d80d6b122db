-- ===== src/Agent/Process.antt =====
-- internal/agent/agent.go: `Decision`, `Process` and `failedDecision`.
pub mod Laws
use eventmind.Base.{
  ℕ, Text, bytes, ◌++◌, [], Bool, true, false, not, Option, none, some, if◌then◌else◌, truncate,
  Time, millis_between, ℤ, pos,
}
use eventmind.Events.{Event, EventType}
use eventmind.Agent.Tools.{Action, valid, Reader, ToolResult, execute_action}
use eventmind.Agent.Extract.{extract_json}
use eventmind.Agent.Prompt.{build_prompt}

-- `Decision`
pub record Decision : Type 0 where
  pub id : Text
  pub event_id : Text
  pub event_type : EventType
  pub action : Action
  pub reasoning : Text
  pub llm_prompt : Text
  pub llm_response : Text
  pub success : Bool
  pub error : Text
  pub duration_ms : ℕ
  pub llm_duration_ms : ℕ
  pub retry_count : ℤ
  pub status : Text
  pub processed_at : Time

unfoldable pub completed : Text
completed = bytes "completed"

unfoldable pub failed : Text
failed = bytes "failed"

-- What `Provider.Complete` returns: a text, or an error with its message.
pub data Completion : Type 0 where
  answered : Text → Completion
  refused : Text → Completion

-- What `json.Unmarshal` makes of the reply: the two fields of the struct, or an error.
pub data Decoded : Type 0 where
  reply : Text → Text → Decoded
  not_json : Text → Decoded

-- The agent's collaborators over the state of the outside world: the provider, the clock, the
-- source of identifiers, the histogram of the provider's latency (if metrics are given) and the
-- parts of encoding/json and fmt that it calls.
pub record Env : Type 1 where
  pub World : Type 0
  pub complete : World → Text → Completion × World
  pub provider_name : Text
  pub now : World → Time × World
  pub new_uuid : World → Text × World
  pub metered : Bool
  pub observe_llm : World → Text → ℕ → World
  pub decode_reply : Text → Decoded
  pub reader : Reader

module _ (E : Env) where
  -- `failedDecision`
  unfoldable pub failed_decision :
      E.World → Event → Text → Text → Text → Time → ℕ → Decision × E.World
  failed_decision w ev prompt response message start llm_ms =
      let (id, w1) = E.new_uuid w in
      let (end, w2) = E.now w1 in
      let (processed, w3) = E.now w2 in
      (
        record {
          id = id;
          event_id = ev.id;
          event_type = ev.type;
          action = [];
          reasoning = [];
          llm_prompt = prompt;
          llm_response = response;
          success = false;
          error = message;
          duration_ms = millis_between start end;
          llm_duration_ms = llm_ms;
          retry_count = pos 0;
          status = failed;
          processed_at = processed;
        },
        w3,
      )

  -- A return of `Process` with a failed decision and an error.
  unfoldable pub fail :
      E.World → Event → Text → Text → Text → Time → ℕ → Text → Decision × Option Text × E.World
  fail w ev prompt response message start llm_ms err =
      let (d, w') = failed_decision w ev prompt response message start llm_ms in (d, some err, w')

  -- The decision after the tool has run; a tool that failed changes its status and error.
  unfoldable pub conclude :
      E.World
      → Event
      → Text
      → Text
      → Time
      → ℕ
      → Action
      → Text
      → ToolResult
      → Decision × Option Text × E.World
  conclude w ev prompt response start llm_ms action reasoning result =
      let (id, w1) = E.new_uuid w in
      let (end, w2) = E.now w1 in
      let (processed, w3) = E.now w2 in
      (
        record {
          id = id;
          event_id = ev.id;
          event_type = ev.type;
          action = action;
          reasoning = reasoning;
          llm_prompt = prompt;
          llm_response = response;
          success = result.success;
          error = if not result.success then result.details else [];
          duration_ms = millis_between start end;
          llm_duration_ms = llm_ms;
          retry_count = pos 0;
          status = if not result.success then failed else completed;
          processed_at = processed;
        },
        none,
        w3,
      )

  -- The validation of the action, and its execution.
  unfoldable pub judge :
      E.World → Event → Text → Text → Time → ℕ → Decoded → Decision × Option Text × E.World
  unfolding fail conclude failed_decision
  judge w ev prompt response start llm_ms (not_json err) =
      fail w ev prompt response (bytes "LLM returned non-JSON: " ++ truncate response 200) start
        llm_ms (bytes "parse LLM response: " ++ err)
  judge w ev prompt response start llm_ms (reply action reasoning) =
      let message = bytes "LLM returned unknown action " ++ E.reader.quote action in
      if not (valid action)
      then fail w ev prompt response message start llm_ms message
      else conclude w ev prompt response start llm_ms action reasoning
          (execute_action E.reader action ev.payload)

  unfoldable pub judge_completion :
      E.World → Event → Text → Time → ℕ → Completion → Decision × Option Text × E.World
  judge_completion w ev prompt start llm_ms (refused err) =
      fail w ev prompt [] err start llm_ms (bytes "llm: " ++ err)
  judge_completion w ev prompt start llm_ms (answered response) =
      judge w ev prompt response start llm_ms (E.decode_reply (extract_json response))

  -- `Process`: the decision, the error if there is one, and the state behind.
  unfoldable pub process : E.World → Event → Decision × Option Text × E.World
  unfolding judge judge_completion fail conclude
  process w ev =
      let (start, w1) = E.now w in
      let prompt = build_prompt ev in
      let (llm_start, w2) = E.now w1 in
      let (completion, w3) = E.complete w2 prompt in
      let (llm_end, w4) = E.now w3 in
      let llm_ms = millis_between llm_start llm_end in
      let w5 = if E.metered then E.observe_llm w4 E.provider_name llm_ms else w4 in
      judge_completion w5 ev prompt start llm_ms completion
