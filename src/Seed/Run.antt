-- ===== src/Seed/Run.antt =====
-- How a call of the script ends: Go code over an unknown state, with run-time panics.
use mathlib.Core.Path.{◌≡◌, refl, ◌∙◌}

pub data Outcome {ℓ} (A : Type ℓ) : Type ℓ where
  returned : A → Outcome A
  panicked out_of_fuel : Outcome A

-- A call that reads and changes the state.
abbrev pub Run {ℓ} : Type 0 → Type ℓ → Type ℓ
Run W A = W → Outcome (A × W)

abbrev pub continue_with {ℓ κ} :
    {A : Type ℓ} {B : Type κ} {W : Type 0} → Outcome (A × W) → (A → Run W B) → Outcome (B × W)
continue_with (returned (a, w)) f = f a w
continue_with panicked f = panicked
continue_with out_of_fuel f = out_of_fuel

infixl 5 ◌>>=◌
abbrev pub ◌>>=◌ {ℓ κ} : {A : Type ℓ} {B : Type κ} {W : Type 0} → Run W A → (A → Run W B) → Run W B
m >>= f = λ w. continue_with (m w) f

abbrev pub pure {ℓ} : {A : Type ℓ} {W : Type 0} → A → Run W A
pure a w = returned (a, w)

abbrev pub panic {ℓ} : {A : Type ℓ} {W : Type 0} → Run W A
panic w = panicked

-- The call returns, with a value and a state that satisfy `P`.
pub data Ends {ℓ κ} {A : Type ℓ} (P : A → Type κ) : Outcome A → Type (ℓ ⊔ κ) where
  ends : {a : A} → P a → Ends P (returned a)

-- From every state the call returns, with a value that satisfies `P`, and keeps what is seen of the
-- state.
pub record Returns {ℓ κ ι} {A : Type ℓ} {W : Type 0} {V : Type ι} (view : W → V) (P : A → Type κ)
    (m : Run W A) : Type (ℓ ⊔ κ ⊔ ι) where
  pub from : (w : W) → Ends (λ r. P r.0 × (view r.1 ≡ view w)) (m w)

pub Ends-map {ℓ κ κ'} :
    {A : Type ℓ} {P : A → Type κ} {Q : A → Type κ'} {r : Outcome A}
    → Ends P r
    → ((a : A) → P a → Q a)
    → Ends Q r
Ends-map (ends p) k = ends (k _ p)

module _ {ℓ} {W : Type 0} {A : Type ℓ} where
  pub Ends-continue_with {κ κ' ι} :
      {B : Type κ} {P : A × W → Type κ'} {Q : B × W → Type ι} {r : Outcome (A × W)}
      {f : A → Run W B}
      → Ends P r
      → ((a : A) (w : W) → P (a, w) → Ends Q (f a w))
      → Ends Q (continue_with r f)
  Ends-continue_with (ends p) k = k _ _ p

  module _ {ι} {V : Type ι} {view : W → V} where
    pub Returns-pure {κ} : {P : A → Type κ} {a : A} → P a → Returns view P (pure a)
    Returns-pure p = record { from = λ w. ends (p, refl) }

    pub Returns-bind {κ κ' ι'} :
        {B : Type κ} {P : A → Type κ'} {Q : B → Type ι'} {m : Run W A} {f : A → Run W B}
        → Returns view P m
        → ((a : A) → P a → Returns view Q (f a))
        → Returns view Q (m >>= f)
    Returns-bind h k = record {
      from = λ w.
          Ends-continue_with (h.from w)
            λ a w' (p, same). Ends-map ((k a p).from w') (λ r (q, again). (q, again ∙ same));
    }

    pub Returns-map {κ κ'} :
        {P : A → Type κ} {Q : A → Type κ'} {m : Run W A}
        → Returns view P m
        → ((a : A) → P a → Q a)
        → Returns view Q m
    Returns-map h k = record { from = λ w. Ends-map (h.from w) (λ r (p, same). (k r.0 p, same)) }
