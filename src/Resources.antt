-- ===== src/Resources.antt =====
-- The calls of internal/messaging, internal/storage and internal/cache that open connections: how the constructors of the clients open them and give them back on an error, over
-- the client libraries, which are parameters.
pub mod Laws
use eventmind.Base.{
  Text, Option, none, some, List, [], ◌∷◌, ◌++◌, Result, ok, err, ◌≡◌, refl, ◌∙◌, ap, sym,
  append_assoc,
}

-- The state of the outside world, and the handles of connections.
pub record Resources : Type 1 where
  pub World : Type 0
  pub Handle : Type 0
  pub close : World → Handle → World

-- A call that may fail.
abbrev pub Call {ℓ} : Type 0 → Type ℓ → Type ℓ
Call W A = W → Result A × W

module _ {W : Type 0} where
  abbrev pub continue_with {ℓ κ} :
      {A : Type ℓ} {B : Type κ} → Result A × W → (A → Call W B) → Result B × W
  continue_with (ok a, w) f = f a w
  continue_with (err e, w) f = (err e, w)

  infixl 5 ◌>>=◌
  unfoldable pub ◌>>=◌ {ℓ κ} : {A : Type ℓ} {B : Type κ} → Call W A → (A → Call W B) → Call W B
  m >>= f = λ w. continue_with (m w) f

  infixl 5 ◌>>◌
  unfoldable pub ◌>>◌ {ℓ κ} : {A : Type ℓ} {B : Type κ} → Call W A → Call W B → Call W B
  m >> n = m >>= λ a. n

  abbrev pub pure {ℓ} : {A : Type ℓ} → A → Call W A
  pure a w = (ok a, w)

  abbrev pub of_result {ℓ} : {A : Type ℓ} → Result A → Call W A
  of_result r w = (r, w)

  -- A call without an error, or whose error is dropped.
  abbrev pub total {ℓ} : {A : Type ℓ} → (W → A × W) → Call W A
  total f w = let (a, w') = f w in (ok a, w')

  -- `fmt.Errorf` with a text before the error.
  abbrev prefixed {ℓ} : {A : Type ℓ} → Text → Result A × W → Result A × W
  prefixed context (ok a, w) = (ok a, w)
  prefixed context (err e, w) = (err (context ++ e), w)

  unfoldable pub within {ℓ} : {A : Type ℓ} → Text → Call W A → Call W A
  within context m w = prefixed context (m w)

module _ (R : Resources) where
  -- A call whose error closes a handle: `h.Close()` before the return.
  abbrev closed_on_error {ℓ} : {A : Type ℓ} → R.Handle → Result A × R.World → Result A × R.World
  closed_on_error h (ok a, w) = (ok a, w)
  closed_on_error h (err e, w) = (err e, R.close w h)

  unfoldable pub or_close {ℓ} : {A : Type ℓ} → R.Handle → Call R.World A → Call R.World A
  or_close h m w = closed_on_error h (m w)
