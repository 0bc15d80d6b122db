-- ===== src/Agent/Process/Laws.antt =====
-- When a decision is a success, and what every decision records.
use eventmind.Base.{
  ℕ, ◌≡◌, refl, ◌⊎◌, inl, inr, Text, [], true, false, Option, none, some, Bool-cases, Time, pos,
}
use eventmind.Events.{Event}
use eventmind.Agent.Tools.{Action, valid, execute_action}
use eventmind.Agent.Tools.Laws.{execute_action-valid}
use eventmind.Agent.Extract.{extract_json}
use eventmind.Agent.Prompt.{build_prompt}
use eventmind.Agent.Process.{
  Decision, completed, failed, Completion, answered, refused, Decoded, reply, not_json, Env,
  failed_decision, fail, conclude, judge, judge_completion, process,
}

module _ (E : Env) where
  -- What every decision record holds of its event.
  pub record IsAbout (d : Decision) (ev : Event) (prompt : Text) : Type 0 where
    pub event_id : d.event_id ≡ ev.id
    pub event_type : d.event_type ≡ ev.type
    pub llm_prompt : d.llm_prompt ≡ prompt
    pub first_try : d.retry_count ≡ pos 0

  -- A success: no error, a valid action from the reply, the status "completed".
  pub record IsSuccess (response : Text) (d : Decision) (err : Option Text) : Type 0 where
    pub no_error : err ≡ none
    pub decoded : E.decode_reply (extract_json response) ≡ reply d.action d.reasoning
    pub is_valid : valid d.action ≡ true
    pub success : d.success ≡ true
    pub status : d.status ≡ completed
    pub quiet : d.error ≡ []
    pub llm_response : d.llm_response ≡ response

  -- A failure: an error, no action, the status "failed".
  pub record IsFailure (d : Decision) (err : Option Text) : Type 0 where
    pub message : Text
    pub has_error : err ≡ some message
    pub no_action : d.action ≡ []
    pub success : d.success ≡ false
    pub status : d.status ≡ failed

  fail-IsFailure :
      (w : E.World) (ev : Event) (prompt response message : Text) (start : Time) (llm_ms : ℕ)
      (err : Text)
      → let result = fail E w ev prompt response message start llm_ms err in
        IsAbout result.0 ev prompt × IsFailure result.0 result.1
  unfolding fail failed_decision
  fail-IsFailure w ev prompt response message start llm_ms err = (
    record { event_id = refl; event_type = refl; llm_prompt = refl; first_try = refl },
    record { message = err; has_error = refl; no_action = refl; success = refl; status = refl },
  )

  -- The reasons for a failure, in the order of the code.
  abbrev pub IsRejected : Completion → Type 0
  IsRejected completion =
      ((err : Text) × (completion ≡ refused err))
      ⊎ ((response : Text) × (err : Text) × (completion ≡ answered response)
          × (E.decode_reply (extract_json response) ≡ not_json err))
      ⊎ ((response : Text) × (action : Action) × (reasoning : Text) × (completion
            ≡ answered response)
          × (E.decode_reply (extract_json response) ≡ reply action reasoning)
          × (valid action ≡ false))

  -- A result is a success for an answer with a valid action, or a failure for one of the reasons.
  abbrev pub IsResult : Completion → Decision → Option Text → Type 0
  IsResult completion d err =
      ((response : Text) × (completion ≡ answered response) × IsSuccess response d err)
      ⊎ (IsRejected completion × IsFailure d err)

  conclude-IsSuccess :
      (w : E.World) (ev : Event) (prompt response : Text) (start : Time) (llm_ms : ℕ)
      (action : Action) (reasoning : Text)
      → E.decode_reply (extract_json response) ≡ reply action reasoning
      → valid action ≡ true
      → let result =
          conclude E w ev prompt response start llm_ms action reasoning
            (execute_action E.reader action ev.payload) in
        IsAbout result.0 ev prompt × IsSuccess response result.0 result.1
  unfolding conclude
  conclude-IsSuccess w ev prompt response start llm_ms action reasoning decoded ok =
      let done = (execute_action-valid E.reader action ev.payload).0.1 ok in
      (
        record { event_id = refl; event_type = refl; llm_prompt = refl; first_try = refl },
        record {
          no_error = refl;
          decoded = decoded;
          is_valid = ok;
          success = done;
          status = rw done refl;
          quiet = rw done refl;
          llm_response = refl;
        },
      )

  judge-IsResult :
      (w : E.World) (ev : Event) (prompt response : Text) (start : Time) (llm_ms : ℕ)
      (decoded : Decoded)
      → E.decode_reply (extract_json response) ≡ decoded
      → let result = judge E w ev prompt response start llm_ms decoded in
        IsAbout result.0 ev prompt × IsResult (answered response) result.0 result.1
  unfolding judge
  judge-IsResult w ev prompt response start llm_ms (not_json err) e =
      let (about, failure) = fail-IsFailure w ev prompt response _ start llm_ms _ in
      (about, inr (inr (inl (response, err, refl, e)), failure))
  judge-IsResult w ev prompt response start llm_ms (reply action reasoning) e =
      elim (Bool-cases (valid action)) [
        | inl ok ↦
            let (about, success) =
              conclude-IsSuccess w ev prompt response start llm_ms action reasoning e ok in
            rw ok (about, inl (response, refl, success))
        | inr bad ↦
            let (about, failure) = fail-IsFailure w ev prompt response _ start llm_ms _ in
            rw bad (about, inr (inr (inr (response, action, reasoning, refl, e, bad)), failure))
      ]

  judge_completion-IsResult :
      (w : E.World) (ev : Event) (prompt : Text) (start : Time) (llm_ms : ℕ)
      (completion : Completion)
      → let result = judge_completion E w ev prompt start llm_ms completion in
        IsAbout result.0 ev prompt × IsResult completion result.0 result.1
  unfolding judge_completion
  judge_completion-IsResult w ev prompt start llm_ms (refused err) =
      let (about, failure) = fail-IsFailure w ev prompt [] err start llm_ms _ in
      (about, inr (inl (err, refl), failure))
  judge_completion-IsResult w ev prompt start llm_ms (answered response) =
      judge-IsResult w ev prompt response start llm_ms _ refl

  -- What the provider returns in the course of `Process`.
  abbrev pub completion_of : E.World → Event → Completion
  completion_of w ev = (E.complete (E.now (E.now w).1).1 (build_prompt ev)).0

  -- Every decision of the agent is about its event and holds the prompt. It is a success without
  -- an error, with the action of the reply, if the provider answers with a JSON object that names
  -- a valid action; for an error of the provider, a reply that is no JSON or an unknown action it
  -- is a failure with an error and no action.
  pub process-IsResult :
      (w : E.World) (ev : Event)
      → let result = process E w ev in
        IsAbout result.0 ev (build_prompt ev) × IsResult (completion_of w ev) result.0 result.1
  unfolding process
  process-IsResult w ev = judge_completion-IsResult _ ev (build_prompt ev) _ _ (completion_of w ev)
