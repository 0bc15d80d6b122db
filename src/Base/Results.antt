-- ===== src/Base/Results.antt =====
-- The results of fallible calls: a value, or an error with its message.
use mathlib.Core.Path.{◌≡◌}
use eventmind.Base.Bytes.{Text}

pub data Result {ℓ} (A : Type ℓ) : Type ℓ where
  ok : A → Result A
  err : Text → Result A

pub ok_inj {ℓ} : {A : Type ℓ} {a b : A} → ok a ≡ ok b → a ≡ b
ok_inj e = cc
