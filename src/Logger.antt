-- ===== src/Logger.antt =====
-- pkg/logger/logger.go: the choice of the level and of the format. zerolog is a parameter.
use eventmind.Base.{Text, bytes, text_eq, Bool, Option, none, some}

-- The global level, and whether the lines are JSON.
pub record Logger {ℓ} (Level : Type ℓ) : Type ℓ where
  pub level : Level
  pub json : Bool

-- `New`, with `zerolog.ParseLevel`, `none` for an error.
unfoldable pub new {ℓ} :
    {Level : Type ℓ} → (Text → Option Level) → Level → (Text → Text) → Logger Level
new parse_level info getenv = record {
  level = elim (parse_level (getenv (bytes "LOG_LEVEL"))) [ none ↦ info | some l ↦ l ];
  json = text_eq (getenv (bytes "ENV")) (bytes "production");
}
