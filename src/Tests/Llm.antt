-- ===== src/Tests/Llm.antt =====
-- The providers with an HTTP client that always gives the same answer.
use eventmind.Base.{◌≡◌, refl, Text, bytes, text_eq, none, List, [], ◌∷◌, ok, if◌then◌else◌}
use eventmind.Llm.{
  claude, Provider, remote, Http, complete, default_model, base_url, new, choose, new_claude, asked,
}
use eventmind.Llm.Calls.{Completed, complete-new}

abbrev pub only_key : Text → Text
only_key variable = if text_eq variable (bytes "LLM_API_KEY") then bytes "k" else []

abbrev echo_http : Http
echo_http = record {
  State = List Text;
  bad_url = λ url. none;
  send = λ sent request. (
    ok (record { status_code = 200; status = bytes "200 OK"; content = request.body }),
    request.body ∷ sent,
  );
  encode_request = λ model prompt. prompt;
  decode_content = λ content. ok (content ∷ []);
  decode_choices = λ content. ok [];
}

abbrev no_quotes : Text → Text
no_quotes name = name

-- Without a name, Claude is asked for.
abbrev by_default : Provider
by_default = remote claude (bytes "k") (default_model claude) (base_url claude)

is_made : new only_key no_quotes ≡ ok by_default
unfolding new choose new_claude text_eq
is_made = refl

complete-new_example :
    Completed echo_http []
      (asked only_key no_quotes)
      (bytes "k")
      []
      (bytes "hello")
      (complete echo_http [] by_default (bytes "hello"))
unfolding text_eq
complete-new_example =
    complete-new echo_http only_key no_quotes [] (bytes "hello") by_default is_made
