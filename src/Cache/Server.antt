-- ===== src/Cache/Server.antt =====
-- What the code uses of Redis (go-redis): the commands over an unknown state of the server, and
-- their documented behaviour. A command may fail at any time, and then nothing is known but that
-- SETNX removes no key. A law speaks of the effect of one command; that a key expires in the course
-- of time is no part of a command.
use eventmind.Base.{
  ℕ, ◌≡◌, ◌≢◌, ◌⊎◌, Text, text_eq, Bool, true, false, Option, none, some, List, Result, ok, err,
  if◌then◌else◌,
}

-- The answer to GET: a value, `redis.Nil`, or another error.
pub data Lookup : Type 0 where
  value : Text → Lookup
  nil : Lookup
  failed : Text → Lookup

pub record Redis : Type 1 where
  pub State : Type 0
  pub set_nx : State → Text → Text → ℕ → Result Bool × State
  pub set : State → Text → Text → ℕ → Option Text × State
  pub get : State → Text → Lookup
  pub del : State → List Text → Option Text × State

abbrev pub answer : Option Text → Lookup
answer none = nil
answer (some v) = value v

abbrev pub is_none : Option Text → Bool
is_none none = true
is_none (some v) = false

-- The value that SETNX leaves: the old one, if there is one.
abbrev pub kept : Option Text → Text → Text
kept none v = v
kept (some old) v = old

-- `live s k` is the value of the key k, if it is set and has not expired.
pub record IsLawful (R : Redis) : Type 0 where
  pub live : R.State → Text → Option Text
  pub set_nx_lem :
      (s : R.State) (k v : Text) (ttl : ℕ)
      → ((e : Text) × ((R.set_nx s k v ttl).0 ≡ err e))
        ⊎ (((R.set_nx s k v ttl).0 ≡ ok (is_none (live s k)))
            × ((j : Text)
                → live (R.set_nx s k v ttl).1 j
                  ≡ (if text_eq j k then some (kept (live s k) v) else live s j)))
  pub set_nx_keeps :
      (s : R.State) (k v : Text) (ttl : ℕ) (j : Text)
      → live s j ≢ none
      → live (R.set_nx s k v ttl).1 j ≢ none
  pub set_lem :
      (s : R.State) (k v : Text) (ttl : ℕ)
      → ((e : Text) × ((R.set s k v ttl).0 ≡ some e))
        ⊎ (((R.set s k v ttl).0 ≡ none)
            × ((j : Text)
                → live (R.set s k v ttl).1 j ≡ (if text_eq j k then some v else live s j)))
  pub get_lem :
      (s : R.State) (k : Text)
      → ((e : Text) × (R.get s k ≡ failed e)) ⊎ (R.get s k ≡ answer (live s k))
