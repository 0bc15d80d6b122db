-- ===== src/Tests/Agent.antt =====
-- The agent with a provider that always gives the same completion.
use eventmind.Base.{
  ◌≡◌, Text, bytes, text_eq, true, [], ◌∷◌, ◌++◌, ℕ, ◌+◌, ◌*◌, pos, arith, if◌then◌else◌,
}
use eventmind.Events.{Event, payment_failed}
use eventmind.Agent.Tools.{Reader, flag_for_review_action}
use eventmind.Agent.Extract.{extract_json}
use eventmind.Agent.Extract.Laws.{extract_json-around}
use eventmind.Agent.Prompt.{build_prompt}
use eventmind.Agent.Process.{Completion, answered, refused, reply, not_json, Env, process}
use eventmind.Agent.Process.Laws.{IsAbout, IsResult, completion_of, process-IsResult}

abbrev pub plain_reader : Reader
plain_reader = record {
  text_field = λ payload name. name;
  int_field = λ payload name. pos 3;
  quote = λ text. b'"' ∷ (text ++ b'"' ∷ []);
}

abbrev pub review_reply : Text
review_reply = bytes "{\"action\":\"flag_for_review\"}"

abbrev pub sure : Completion
sure = answered (bytes "Sure: " ++ review_reply)

abbrev pub no_model : Completion
no_model = refused (bytes "timeout")

-- The state is the clock, in seconds.
abbrev pub agent_env : Completion → Env
agent_env completion = record {
  World = ℕ;
  complete = λ w prompt. (completion, w + 1);
  provider_name = bytes "mock";
  now = λ w. (w * 1000000000, w + 1);
  new_uuid = λ w. (bytes "d1", w + 1);
  metered = true;
  observe_llm = λ w provider ms. w;
  decode_reply = λ t.
      if text_eq t review_reply
      then reply flag_for_review_action (bytes "why")
      else not_json (bytes "eof");
  reader = plain_reader;
}

abbrev pub payment : Event
payment = record {
  id = bytes "e7";
  type = payment_failed;
  payload = bytes "{}";
  source = [];
  timestamp = 0;
}

process-IsResult_example :
    let result = process (agent_env sure) 100 payment in
    IsAbout (agent_env sure) result.0 payment (build_prompt payment)
    × IsResult (agent_env sure) (completion_of (agent_env sure) 100 payment) result.0 result.1
process-IsResult_example = process-IsResult (agent_env sure) 100 payment

extract_json-around_example :
    extract_json (bytes "Sure: " ++ b'{' ∷ (bytes "\"a\": {}" ++ b'}' ∷ bytes " ok"))
    ≡ bytes "{\"a\": {}}"
extract_json-around_example =
    extract_json-around (bytes "Sure: ") (bytes "\"a\": {}") (bytes " ok") (ground arith)
      (ground arith)
