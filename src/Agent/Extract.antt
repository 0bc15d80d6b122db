-- ===== src/Agent/Extract.antt =====
-- internal/agent/agent.go: `extractJSON`.
pub mod Laws
use eventmind.Base.{
  ℕ, ◌+◌, ◌-◌, Text, trim_space, index_byte, last_index_byte, Option, none, some, ltb, take, drop,
  if◌then◌else◌,
}

-- `s[i:j]`
abbrev pub slice : Text → ℕ → ℕ → Text
slice s i j = take (j - i) (drop i s)

-- The part of the text from i to j, if both were found and j is behind i.
unfoldable pub cut : Text → Option ℕ → Option ℕ → Text
cut t none j = t
cut t (some i) none = t
cut t (some i) (some j) = if ltb i j then slice t i (j + 1) else t

unfoldable pub extract_json : Text → Text
unfolding cut
extract_json s = let t = trim_space s in cut t (index_byte b'{' t) (last_index_byte b'}' t)
