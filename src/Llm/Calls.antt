-- ===== src/Llm/Calls.antt =====
-- The completion of the provider that `New` gives: what is sent, and what is made of the answer.
use eventmind.Base.{
  ◌==◌, ==_iff, ◌≡◌, refl, inl, inr, ◌↔◌, Text, text_eq, text_eq_iff, bytes, ◌++◌, List, [], ◌∷◌,
  Option, none, some, Option-cases, Bool-cases, Result, ok, err, is_empty, arith, if◌then◌else◌,
  subst,
}
use eventmind.Agent.Process.{Completion, answered, refused}
use eventmind.Llm.{
  Kind, claude, groq, openai, Provider, mock, Request, HttpResponse, Http, new_claude, new_groq,
  new_openai, base_url, asked, choose, new, decode, first_text, read_answer, request_of, mock_reply,
  exchange, complete_claude, complete_groq, complete_openai, complete,
}

-- The value of the first header of that name.
abbrev pub header : Text → List (Text × Text) → Option Text
header name [] = none
header name ((n, v) ∷ rest) = if text_eq name n then some v else header name rest

abbrev pub bearer : Text → Text
bearer key = bytes "Bearer " ++ key

abbrev pub model_or : Text → Text → Text
model_or default chosen = if is_empty chosen then default else chosen

-- A provider as the name asks for it.
data IsMade (getenv : Text → Text) (quote : Text → Text) (p key : Text) : Provider → Type 0 where
  made_claude : p ≡ bytes "claude" → IsMade getenv quote p key (new_claude getenv quote key)
  made_groq : p ≡ bytes "groq" → IsMade getenv quote p key (new_groq getenv quote key)
  made_openai : p ≡ bytes "openai" → IsMade getenv quote p key (new_openai getenv quote key)
  made_mock : p ≡ bytes "mock" → IsMade getenv quote p key mock

module _ (getenv : Text → Text) (quote : Text → Text) where
  MadeIfOk : Text → Text → Result Provider → Type 0
  MadeIfOk p key (ok q) = IsMade getenv quote p key q
  MadeIfOk p key (err e) = Unit

  choose-MadeIfOk : (p key : Text) → MadeIfOk p key (choose getenv quote p key)
  unfolding choose MadeIfOk
  choose-MadeIfOk p key = elim (Bool-cases (text_eq p (bytes "claude"))) [
    | inl a ↦ rw a (made_claude ((text_eq_iff p (bytes "claude")).0 a))
    | inr a ↦ elim (Bool-cases (text_eq p (bytes "groq"))) [
      | inl b ↦ rw a (rw b (made_groq ((text_eq_iff p (bytes "groq")).0 b)))
      | inr b ↦ elim (Bool-cases (text_eq p (bytes "openai"))) [
        | inl c ↦ rw a (rw b (rw c (made_openai ((text_eq_iff p (bytes "openai")).0 c))))
        | inr c ↦ elim (Bool-cases (text_eq p (bytes "mock"))) [
          | inl d ↦ rw a (rw b (rw c (rw d (made_mock ((text_eq_iff p (bytes "mock")).0 d)))))
          | inr d ↦ rw a (rw b (rw c (rw d tt)))
        ]
      ]
    ]
  ]

  new-IsMade :
      (q : Provider)
      → new getenv quote ≡ ok q
      → IsMade getenv quote (asked getenv quote) (getenv (bytes "LLM_API_KEY")) q
  unfolding new MadeIfOk
  new-IsMade q e = elim (Bool-cases (is_empty (getenv (bytes "LLM_API_KEY")))) [
    | inl missing ↦ absurd (ground (arith, e, missing))
    | inr there ↦
        let chosen : choose getenv quote (asked getenv quote) (getenv (bytes "LLM_API_KEY"))
            ≡ ok q =
          ground (arith, e, there) in
        subst (MadeIfOk (asked getenv quote) (getenv (bytes "LLM_API_KEY"))) chosen
          (choose-MadeIfOk (asked getenv quote) (getenv (bytes "LLM_API_KEY")))
  ]

module _ (H : Http) where
  -- The requests that the three vendors document, for a key, a model and a prompt, by the name of
  -- the vendor, with what the vendor's answers are decoded by.
  pub data IsDocumented (key model prompt : Text)
      : Text → Request → (Text → Result (List Text)) → Type 0 where
    to_claude :
        (req : Request)
        → req.url ≡ bytes "https://api.anthropic.com/v1/messages"
        → header (bytes "x-api-key") req.headers ≡ some key
        → header (bytes "anthropic-version") req.headers ≡ some (bytes "2023-06-01")
        → header (bytes "content-type") req.headers ≡ some (bytes "application/json")
        → req.body ≡ H.encode_request (model_or (bytes "claude-3-5-sonnet-20241022") model) prompt
        → IsDocumented key model prompt (bytes "claude") req H.decode_content
    to_groq :
        (req : Request)
        → req.url ≡ bytes "https://api.groq.com/openai/v1/chat/completions"
        → header (bytes "Authorization") req.headers ≡ some (bearer key)
        → header (bytes "content-type") req.headers ≡ some (bytes "application/json")
        → req.body ≡ H.encode_request (model_or (bytes "llama-3.3-70b-versatile") model) prompt
        → IsDocumented key model prompt (bytes "groq") req H.decode_choices
    to_openai :
        (req : Request)
        → req.url ≡ bytes "https://api.openai.com/v1/chat/completions"
        → header (bytes "Authorization") req.headers ≡ some (bearer key)
        → header (bytes "content-type") req.headers ≡ some (bytes "application/json")
        → req.body ≡ H.encode_request (model_or (bytes "gpt-4o-mini") model) prompt
        → IsDocumented key model prompt (bytes "openai") req H.decode_choices

  -- The answer has status 200 and its body decodes to texts of which this is the first.
  abbrev pub Gives : (Text → Result (List Text)) → Result HttpResponse → Text → Type 0
  Gives decoding answer text =
      (resp : HttpResponse) × (texts : List Text) × (answer ≡ ok resp)
      × (resp.status_code ≡ 200)
      × (decoding resp.content ≡ ok (text ∷ texts))

  first_text-answered :
      (kind : Kind) (decoded : Result (List Text)) (text : Text)
      → first_text H kind decoded ≡ answered text
      → (texts : List Text) × (decoded ≡ ok (text ∷ texts))
  first_text-answered kind (err e) text is = absurd cc
  first_text-answered kind (ok []) text is = absurd cc
  first_text-answered kind (ok (t ∷ texts)) text is = (texts, cc)

  read_answer-Gives :
      (kind : Kind) (answer : Result HttpResponse) (text : Text)
      → read_answer H kind answer ≡ answered text
      → Gives (decode H kind) answer text
  unfolding read_answer
  read_answer-Gives kind (err e) text is = absurd cc
  read_answer-Gives kind (ok resp) text is = elim (Bool-cases (resp.status_code == 200)) [
    | inl good ↦
        let (texts, found) =
          first_text-answered kind (decode H kind resp.content) text (ground (arith, is, good)) in
        (resp, texts, refl, (==_iff resp.status_code 200).0 good, found)
    | inr bad ↦ absurd (ground (arith, is, bad))
  ]

  Gives-read_answer :
      (kind : Kind) (answer : Result HttpResponse) (text : Text)
      → Gives (decode H kind) answer text
      → read_answer H kind answer ≡ answered text
  unfolding read_answer
  Gives-read_answer kind answer text (resp, texts, got, good, found) =
      rw got (rw ((==_iff resp.status_code 200).1 good) (rw found refl))

  -- How a completion ends: the mock answers always; a remote call is refused for a bad URL, or
  -- sends one documented request, and answers with a text exactly if the answer gives it.
  pub data Completed (w : H.State) (name key model prompt : Text)
      : Completion × H.State → Type 0 where
    mocked : name ≡ bytes "mock" → Completed w name key model prompt (answered (mock_reply H), w)
    not_sent :
        (req : Request) (decoding : Text → Result (List Text)) (e : Text)
        → IsDocumented key model prompt name req decoding
        → H.bad_url req.url ≡ some e
        → Completed w name key model prompt (refused e, w)
    was_sent :
        (req : Request) (decoding : Text → Result (List Text)) (c : Completion)
        → IsDocumented key model prompt name req decoding
        → H.bad_url req.url ≡ none
        → ((text : Text) → (c ≡ answered text) ↔ Gives decoding (H.send w req).0 text)
        → Completed w name key model prompt (c, (H.send w req).1)

  Completed-exchange :
      (w : H.State) (kind : Kind) (name key model chosen prompt : Text)
      → IsDocumented key chosen prompt name
          (request_of H kind key model (base_url kind) prompt)
          (decode H kind)
      → Completed w name key chosen prompt (exchange H w kind key model (base_url kind) prompt)
  unfolding exchange
  Completed-exchange w kind name key model chosen prompt doc =
      elim (Option-cases (H.bad_url (base_url kind))) [
        | inl fine ↦
            rw (fine, exchange)
              (was_sent _ _ _ doc fine
                (λ text. (read_answer-Gives kind _ text, Gives-read_answer kind _ text)))
        | inr (e, bad) ↦ rw (bad, exchange) (not_sent _ _ e doc bad)
      ]

  module _ (getenv : Text → Text) (quote : Text → Text) (w : H.State) (prompt : Text) where
    complete-IsMade :
        (p key : Text) (q : Provider)
        → IsMade getenv quote p key q
        → Completed w p key (getenv (bytes "LLM_MODEL")) prompt (complete H w q prompt)
    unfolding complete complete_claude complete_groq complete_openai new_claude new_groq new_openai
        text_eq
    complete-IsMade p key q (made_claude is) = rw is (
        Completed-exchange w claude (bytes "claude") key _ (getenv (bytes "LLM_MODEL")) prompt
          (to_claude _ refl refl refl refl refl))
    complete-IsMade p key q (made_groq is) = rw is (
        Completed-exchange w groq (bytes "groq") key _ (getenv (bytes "LLM_MODEL")) prompt
          (to_groq _ refl refl refl refl))
    complete-IsMade p key q (made_openai is) = rw is (
        Completed-exchange w openai (bytes "openai") key _ (getenv (bytes "LLM_MODEL")) prompt
          (to_openai _ refl refl refl refl))
    complete-IsMade p key q (made_mock is) = mocked is

    -- If New gives a provider, a completion by it ends in one of three ways. The mock, asked for
    -- by name, always answers. For the vendor asked for, the request is the documented one: its
    -- address, the key of LLM_API_KEY in the header that the vendor reads, its other headers, and
    -- the prompt encoded with the model of LLM_MODEL or the vendor's default. If the address is
    -- bad, nothing is sent and there is an error. Otherwise exactly that request is sent, and the
    -- completion is a text exactly if the answer has status 200 and its body decodes to texts of
    -- which that is the first.
    pub complete-new :
        (q : Provider)
        → new getenv quote ≡ ok q
        → Completed w
            (asked getenv quote)
            (getenv (bytes "LLM_API_KEY"))
            (getenv (bytes "LLM_MODEL"))
            prompt
            (complete H w q prompt)
    complete-new q made = complete-IsMade _ _ q (new-IsMade getenv quote q made)
