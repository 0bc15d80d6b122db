-- ===== src/Llm.antt =====
-- pkg/llm: the providers of the language model and the choice among them. HTTP, the environment
-- and encoding/json are parameters.
pub mod Laws
pub mod Calls
use eventmind.Base.{
  ℕ, ◌==◌, Text, text_eq, bytes, ◌++◌, Bool, not, List, [], ◌∷◌, Option, none, some, Result, ok,
  err, is_empty, if◌then◌else◌,
}
use eventmind.Agent.Process.{Completion, answered, refused}

-- A provider: which one, with the fields that it holds. The mock has none.
pub data Kind : Type 0 where
  claude groq openai : Kind

pub data Provider : Type 0 where
  remote : Kind → Text → Text → Text → Provider
  mock : Provider

pub record Request : Type 0 where
  pub url : Text
  pub headers : List (Text × Text)
  pub body : Text

-- An answer with what `io.ReadAll` has read of its body; an error there is dropped.
pub record HttpResponse : Type 0 where
  pub status_code : ℕ
  pub status : Text
  pub content : Text

-- The HTTP client over an unknown state: the error of `http.NewRequestWithContext` for a URL, and
-- `Do`. Of encoding/json: the request of a model and a prompt, the texts in the array `content` of
-- Claude's answers, and the contents of the messages in `choices` of the others'.
pub record Http : Type 1 where
  pub State : Type 0
  pub bad_url : Text → Option Text
  pub send : State → Request → Result HttpResponse × State
  pub encode_request : Text → Text → Text
  pub decode_content : Text → Result (List Text)
  pub decode_choices : Text → Result (List Text)

-- `Name`
unfoldable pub kind_name : Kind → Text
kind_name claude = bytes "claude"
kind_name groq = bytes "groq"
kind_name openai = bytes "openai"

unfoldable pub name : Provider → Text
unfolding kind_name
name (remote kind key model url) = kind_name kind
name mock = bytes "mock"

abbrev pub default_model : Kind → Text
default_model claude = bytes "claude-3-5-sonnet-20241022"
default_model groq = bytes "llama-3.3-70b-versatile"
default_model openai = bytes "gpt-4o-mini"

abbrev pub base_url : Kind → Text
base_url claude = bytes "https://api.anthropic.com/v1/messages"
base_url groq = bytes "https://api.groq.com/openai/v1/chat/completions"
base_url openai = bytes "https://api.openai.com/v1/chat/completions"

abbrev or_else : Text → Text → Text
or_else text default = if is_empty text then default else text

-- `os.Getenv`: the empty text for a variable that is not set.
module _ (getenv : Text → Text) (quote : Text → Text) where
  -- `newClaude`, `newGroq` and `newOpenAI`
  unfoldable pub new_claude : Text → Provider
  new_claude key =
      remote claude key (or_else (getenv (bytes "LLM_MODEL")) (default_model claude))
        (base_url claude)

  unfoldable pub new_groq : Text → Provider
  new_groq key =
      remote groq key (or_else (getenv (bytes "LLM_MODEL")) (default_model groq)) (base_url groq)

  unfoldable pub new_openai : Text → Provider
  new_openai key =
      remote openai key (or_else (getenv (bytes "LLM_MODEL")) (default_model openai))
        (base_url openai)

  abbrev pub asked : Text
  asked = or_else (getenv (bytes "LLM_PROVIDER")) (bytes "claude")

  abbrev pub unknown_provider : Text → Text
  unknown_provider p =
      bytes "unknown LLM_PROVIDER " ++ (quote p ++ bytes " — valid: claude, groq, openai")

  -- The `switch` of `New`.
  unfoldable pub choose : Text → Text → Result Provider
  choose p key =
      if text_eq p (bytes "claude")
      then ok (new_claude key)
      else if text_eq p (bytes "groq")
      then ok (new_groq key)
      else if text_eq p (bytes "openai")
      then ok (new_openai key)
      else if text_eq p (bytes "mock")
      then ok mock
      else err (unknown_provider p)

  -- `New`
  unfoldable pub new : Result Provider
  new =
      let key = getenv (bytes "LLM_API_KEY") in
      if is_empty key then err (bytes "LLM_API_KEY not set") else choose asked key

module _ (H : Http) where
  -- The words before an error of the provider: only Claude's are marked.
  abbrev pub mark : Kind → Text
  mark claude = bytes "claude: "
  mark groq = []
  mark openai = []

  abbrev pub request_headers : Kind → Text → List (Text × Text)
  request_headers claude key =
      (bytes "x-api-key", key)
      ∷ (bytes "anthropic-version", bytes "2023-06-01")
      ∷ (bytes "content-type", bytes "application/json")
      ∷ []
  request_headers groq key =
      (bytes "Authorization", bytes "Bearer " ++ key)
      ∷ (bytes "content-type", bytes "application/json")
      ∷ []
  request_headers openai key =
      (bytes "Authorization", bytes "Bearer " ++ key)
      ∷ (bytes "content-type", bytes "application/json")
      ∷ []

  abbrev pub decode : Kind → Text → Result (List Text)
  decode claude content = H.decode_content content
  decode groq content = H.decode_choices content
  decode openai content = H.decode_choices content

  abbrev pub first_text : Kind → Result (List Text) → Completion
  first_text kind (err e) = refused (mark kind ++ (bytes "parse: " ++ e))
  first_text kind (ok []) = refused (mark kind ++ bytes "empty response")
  first_text kind (ok (text ∷ texts)) = answered text

  -- What follows the call of the HTTP client.
  unfoldable pub read_answer : Kind → Result HttpResponse → Completion
  read_answer kind (err e) = refused (mark kind ++ e)
  read_answer kind (ok resp) =
      if not (resp.status_code == 200)
      then refused (mark kind ++ (resp.status ++ (bytes ": " ++ resp.content)))
      else first_text kind (decode kind resp.content)

  abbrev pub request_of : Kind → Text → Text → Text → Text → Request
  request_of kind key model url prompt = record {
    url = url;
    headers = request_headers kind key;
    body = H.encode_request model prompt;
  }

  unfoldable pub mock_reply : Text
  mock_reply = bytes "{\"action\":\"send_notification\",\"reasoning\":\"mock provider\"}"

  -- One request and its answer.
  unfoldable pub exchange : H.State → Kind → Text → Text → Text → Text → Completion × H.State
  unfolding read_answer
  exchange w kind key model url prompt = elim (H.bad_url url) [
    | some e ↦ (refused e, w)
    | none ↦
        let (answer, w') = H.send w (request_of kind key model url prompt) in
        (read_answer kind answer, w')
  ]

  -- `Complete` of Claude, and `chatCompletions` of the other two: they differ in the headers, the
  -- format of the answer and the mark of the errors.
  unfoldable pub complete_claude : H.State → Text → Text → Text → Text → Completion × H.State
  unfolding exchange
  complete_claude w key model url prompt = exchange w claude key model url prompt

  unfoldable pub complete_groq : H.State → Text → Text → Text → Text → Completion × H.State
  unfolding exchange
  complete_groq w key model url prompt = exchange w groq key model url prompt

  unfoldable pub complete_openai : H.State → Text → Text → Text → Text → Completion × H.State
  unfolding exchange
  complete_openai w key model url prompt = exchange w openai key model url prompt

  -- `Complete` of a provider.
  unfoldable pub complete : H.State → Provider → Text → Completion × H.State
  unfolding complete_claude complete_groq complete_openai
  complete w mock prompt = (answered mock_reply, w)
  complete w (remote claude key model url) prompt = complete_claude w key model url prompt
  complete w (remote groq key model url) prompt = complete_groq w key model url prompt
  complete w (remote openai key model url) prompt = complete_openai w key model url prompt
