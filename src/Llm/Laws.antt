-- ===== src/Llm/Laws.antt =====
-- Which provider is chosen.
use eventmind.Base.{
  ◌≡◌, refl, sym, ◌⊎◌, inl, inr, Text, text_eq, text_eq_iff, bytes, true, false, Bool-cases, ok,
  err, is_empty, arith,
}
use eventmind.Llm.{Provider, name, new_claude, new_groq, new_openai, asked, choose, new}

-- The names that `New` knows.
abbrev pub IsKnown : Text → Type 0
IsKnown p = (p ≡ bytes "claude") ⊎ (p ≡ bytes "groq") ⊎ (p ≡ bytes "openai") ⊎ (p ≡ bytes "mock")

module _ (getenv : Text → Text) (quote : Text → Text) where
  choose_lem :
      (p key : Text)
      → ((q : Provider) × (choose getenv quote p key ≡ ok q) × (name q ≡ p) × IsKnown p)
        ⊎ ((e : Text) × (choose getenv quote p key ≡ err e) × ¬ IsKnown p)
  unfolding choose name new_claude new_groq new_openai
  choose_lem p key = elim (Bool-cases (text_eq p (bytes "claude"))) [
    | inl a ↦ let e = (text_eq_iff p (bytes "claude")).0 a in rw a (inl (_, refl, sym e, inl e))
    | inr a ↦ elim (Bool-cases (text_eq p (bytes "groq"))) [
      | inl b ↦
          let e = (text_eq_iff p (bytes "groq")).0 b in
          rw a (rw b (inl (_, refl, sym e, inr (inl e))))
      | inr b ↦ elim (Bool-cases (text_eq p (bytes "openai"))) [
        | inl c ↦
            let e = (text_eq_iff p (bytes "openai")).0 c in
            rw a (rw b (rw c (inl (_, refl, sym e, inr (inr (inl e))))))
        | inr c ↦ elim (Bool-cases (text_eq p (bytes "mock"))) [
          | inl d ↦
              let e = (text_eq_iff p (bytes "mock")).0 d in
              rw a (rw b (rw c (rw d (inl (_, refl, sym e, inr (inr (inr e)))))))
          | inr d ↦ rw a (
              rw b (
                rw c (
                  rw d (
                    inr (
                      _,
                      refl,
                      λ known. ground (
                        arith,
                        text_eq_iff p (bytes "claude"),
                        text_eq_iff p (bytes "groq"),
                        text_eq_iff p (bytes "openai"),
                        text_eq_iff p (bytes "mock"),
                      ),
                    )))))
        ]
      ]
    ]
  ]

  -- A provider is made if there is a key and the name that is asked for, Claude by default, is one
  -- of the four known ones, and it has that name; otherwise there is an error, and the key is
  -- missing or the name is not known.
  new-IsKnown :
      ((q : Provider) × (new getenv quote ≡ ok q)
        × (name q ≡ asked getenv quote)
        × IsKnown (asked getenv quote)
        × (is_empty (getenv (bytes "LLM_API_KEY")) ≡ false))
      ⊎ ((e : Text) × (new getenv quote ≡ err e)
          × ((is_empty (getenv (bytes "LLM_API_KEY")) ≡ true) ⊎ (¬ IsKnown (asked getenv quote))))
  unfolding new
  new-IsKnown = elim (Bool-cases (is_empty (getenv (bytes "LLM_API_KEY")))) [
    | inl missing ↦ rw missing (inr (_, refl, inl refl))
    | inr there ↦ elim (choose_lem (asked getenv quote) (getenv (bytes "LLM_API_KEY"))) [
      | inl (q, made, named, known) ↦ rw there (inl (q, made, named, known, refl))
      | inr (e, refusal, unknown) ↦ rw there (inr (e, refusal, inr unknown))
    ]
  ]
