-- ===== src/Resources/Laws.antt =====
-- The bookkeeping of open connections: rules for the calls of Resources, one for each way in which
-- the constructors combine them.
use eventmind.Base.{Text, List, [], ◌∷◌, ◌++◌, Result, ok, err, ◌≡◌, ◌∙◌, ap, sym, append_assoc}
use eventmind.Resources.{
  Resources, Call, continue_with, ◌>>=◌, pure, prefixed, within, closed_on_error, or_close,
}

-- Which connections are open, the newest first: the newest one can be closed.
pub record IsStack (R : Resources) : Type 0 where
  pub opened : R.World → List R.Handle
  pub opened-close :
      (w : R.World) (h : R.Handle) (rest : List R.Handle)
      → opened w ≡ h ∷ rest
      → opened (R.close w h) ≡ rest

module _ {R : Resources} (L : IsStack R) where
  -- What is open after a call: the handles of its result on top of the others, or only what an
  -- error leaves.
  abbrev pub after {ℓ} :
      {A : Type ℓ} → (A → List R.Handle) → Result A → List R.Handle → List R.Handle → List R.Handle
  after handles (ok a) others left = handles a ++ others
  after handles (err e) others left = left

  -- A call that succeeds has opened the handles of its result, and one that fails none that stay
  -- open.
  pub record Opens {ℓ} {A : Type ℓ} (handles : A → List R.Handle) (m : Call R.World A)
      : Type ℓ where
    pub from : (w : R.World) → L.opened (m w).1 ≡ after handles (m w).0 (L.opened w) (L.opened w)

  -- The same with a handle that is open before: it belongs to the result, or is still open.
  pub record Takes {ℓ} {A : Type ℓ} (h : R.Handle) (handles : A → List R.Handle)
      (m : Call R.World A) : Type ℓ where
    pub from :
        (w : R.World) (others : List R.Handle)
        → L.opened w ≡ h ∷ others
        → L.opened (m w).1 ≡ after handles (m w).0 others (h ∷ others)

  abbrev pub one : R.Handle → List R.Handle
  one h = h ∷ []

  abbrev pub none_of {ℓ} : {A : Type ℓ} → A → List R.Handle
  none_of a = []

  module _ {ℓ} {A : Type ℓ} (handles : A → List R.Handle) where
    within_step :
        (context : Text) (r : Result A × R.World) (before : List R.Handle)
        → L.opened r.1 ≡ after handles r.0 before before
        → L.opened (prefixed context r).1 ≡ after handles (prefixed context r).0 before before
    within_step context (ok a, w) before h = h
    within_step context (err e, w) before h = h

    close_step :
        (h : R.Handle) (others : List R.Handle) (r : Result A × R.World)
        → L.opened r.1 ≡ after handles r.0 others (h ∷ others)
        → L.opened (closed_on_error R h r).1 ≡ after handles (closed_on_error R h r).0 others others
    close_step h others (ok a, w) e = e
    close_step h others (err x, w) e = L.opened-close w h others e

    open_step :
        (r : Result R.Handle × R.World) (k : R.Handle → Call R.World A) (before : List R.Handle)
        → L.opened r.1 ≡ after one r.0 before before
        → ((h : R.Handle) → Takes h handles (k h))
        → let s = continue_with r (λ h. or_close R h (k h)) in
          L.opened s.1 ≡ after handles s.0 before before
    unfolding or_close
    open_step (ok h, w) k before held takes =
        close_step h before (k h w) ((takes h).from w before held)
    open_step (err x, w) k before held takes = held

    then_step {κ} :
        {B : Type κ} (h : R.Handle) (others : List R.Handle) (r : Result B × R.World)
        (k : B → Call R.World A)
        → L.opened r.1 ≡ after none_of r.0 (h ∷ others) (h ∷ others)
        → ((b : B) → Takes h handles (k b))
        → let s = continue_with r k in L.opened s.1 ≡ after handles s.0 others (h ∷ others)
    then_step h others (ok b, w) k held takes = (takes b).from w others held
    then_step h others (err x, w) k held takes = held

    join_step {κ} :
        {B : Type κ} (more : B → List R.Handle) (h : R.Handle) (others : List R.Handle)
        (r : Result B × R.World) (f : B → A)
        → L.opened r.1 ≡ after more r.0 (h ∷ others) (h ∷ others)
        → ((b : B) → handles (f b) ≡ more b ++ h ∷ [])
        → let s = continue_with r (λ b. pure (f b)) in
          L.opened s.1 ≡ after handles s.0 others (h ∷ others)
    join_step more h others (ok b, w) f held e =
        held ∙ sym (append_assoc (more b) _ _) ∙ ap (λ l. l ++ others) (sym (e b))
    join_step more h others (err x, w) f held e = held

  module _ {ℓ} {A : Type ℓ} {handles : A → List R.Handle} where
    pub Opens-within :
        {m : Call R.World A} (context : Text) → Opens handles m → Opens handles (within context m)
    unfolding within
    Opens-within {m} context h = record {
      from = λ w. within_step handles context (m w) _ (h.from w);
    }

    pub Takes-pure : {h : R.Handle} (a : A) → handles a ≡ h ∷ [] → Takes h handles (pure a)
    Takes-pure a e = record { from = λ w others held. held ∙ ap (λ l. l ++ others) (sym e) }

    -- A connection, and a call that has it and closes it on an error.
    pub Opens-or_close :
        {m : Call R.World R.Handle} {k : R.Handle → Call R.World A}
        → Opens one m
        → ((h : R.Handle) → Takes h handles (k h))
        → Opens handles (m >>= λ h. or_close R h (k h))
    unfolding ◌>>=◌ or_close
    Opens-or_close {m} {k} h takes = record {
      from = λ w. open_step handles (m w) k _ (h.from w) takes;
    }

    -- A call that opens nothing first.
    pub Takes-then {κ} :
        {B : Type κ} {h : R.Handle} {m : Call R.World B} {k : B → Call R.World A}
        → Opens none_of m
        → ((b : B) → Takes h handles (k b))
        → Takes h handles (m >>= k)
    unfolding ◌>>=◌
    Takes-then {h = h} {m = m} {k = k} opens takes = record {
      from = λ w others held.
          then_step handles h others (m w) k
            (opens.from w ∙ ap (λ l. after none_of (m w).0 l l) held) takes;
    }

    -- One more connection, which the result holds as well.
    pub Takes-join {κ} :
        {B : Type κ} {more : B → List R.Handle} {h : R.Handle} {m : Call R.World B} (f : B → A)
        → Opens more m
        → ((b : B) → handles (f b) ≡ more b ++ h ∷ [])
        → Takes h handles (m >>= λ b. pure (f b))
    unfolding ◌>>=◌
    Takes-join {more = more} {h = h} {m = m} f opens e = record {
      from = λ w others held.
          join_step handles more h others (m w) f
            (opens.from w ∙ ap (λ l. after more (m w).0 l l) held) e;
    }

  map_step {ℓ κ} :
      {A : Type ℓ} {B : Type κ} (more : A → List R.Handle) (handles : B → List R.Handle)
      (r : Result A × R.World) (f : A → B) (before : List R.Handle)
      → L.opened r.1 ≡ after more r.0 before before
      → ((a : A) → handles (f a) ≡ more a)
      → let s = continue_with r (λ a. pure (f a)) in L.opened s.1 ≡ after handles s.0 before before
  map_step more handles (ok a, w) f before held e = held ∙ ap (λ l. l ++ before) (sym (e a))
  map_step more handles (err x, w) f before held e = held

  pub Opens-map {ℓ κ} :
      {A : Type ℓ} {B : Type κ} {more : A → List R.Handle} {handles : B → List R.Handle}
      {m : Call R.World A} (f : A → B)
      → Opens more m
      → ((a : A) → handles (f a) ≡ more a)
      → Opens handles (m >>= λ a. pure (f a))
  unfolding ◌>>=◌
  Opens-map {more = more} {handles = handles} {m = m} f opens e = record {
    from = λ w. map_step more handles (m w) f _ (opens.from w) e;
  }

  start_step {ℓ κ} :
      {A : Type ℓ} {B : Type κ} (handles : B → List R.Handle) (r : Result A × R.World)
      (k : A → Call R.World B) (before : List R.Handle)
      → L.opened r.1 ≡ after none_of r.0 before before
      → ((a : A) → Opens handles (k a))
      → let s = continue_with r k in L.opened s.1 ≡ after handles s.0 before before
  start_step handles (ok a, w) k before held opens =
      (opens a).from w ∙ ap (λ l. after handles (k a w).0 l l) held
  start_step handles (err x, w) k before held opens = held

  -- A call that opens nothing, before all others.
  pub Opens-then {ℓ κ} :
      {A : Type ℓ} {B : Type κ} {handles : B → List R.Handle} {m : Call R.World A}
      {k : A → Call R.World B}
      → Opens none_of m
      → ((a : A) → Opens handles (k a))
      → Opens handles (m >>= k)
  unfolding ◌>>=◌
  Opens-then {handles = handles} {m = m} {k = k} opens rest = record {
    from = λ w. start_step handles (m w) k _ (opens.from w) rest;
  }
