-- ===== src/Startup/ApiRun/Causes.antt =====
-- The cancelled context of the API server and its cause, over the return and the shutdown of a
-- server.
use eventmind.Base.{Bool, true, false, ◌||◌, ◌≡◌, refl, ◌⊎◌, inl, inr}
use eventmind.Startup.{ServeEnd, server_closed, serve_error, cancels}
use eventmind.Startup.ApiRun.{
  Serving, running, returned, shut_down, accepts, Phase, waiting, may_return,
}

abbrev pub HasFailed : Serving → Type 0
HasFailed (running told) = ⊥
HasFailed (returned server_closed) = ⊥
HasFailed (returned (serve_error e)) = Unit

pub failed_cause :
    (a : Serving) (e : ServeEnd) (cancelled signalled : Bool)
    → may_return a e ≡ true
    → (cancelled ≡ false) ⊎ (signalled ≡ true) ⊎ HasFailed a
    → ((cancelled || cancels e) ≡ false) ⊎ (signalled ≡ true) ⊎ HasFailed (returned e)
unfolding may_return cancels
failed_cause (running told) server_closed cancelled signalled may (inl calm) = inl (rw calm refl)
failed_cause (running told) server_closed cancelled signalled may (inr (inl sig)) = inr (inl sig)
failed_cause (running told) server_closed cancelled signalled may (inr (inr bad)) = elim bad [ ]
failed_cause (running told) (serve_error x) cancelled signalled may c = inr (inr tt)
failed_cause (returned r) e cancelled signalled may c = absurd cc

pub still :
    (p : Phase) (c d : Bool) → (p ≡ waiting) ⊎ (c ≡ true) → (p ≡ waiting) ⊎ ((c || d) ≡ true)
still p c d (inl here) = inl here
still p c d (inr on) = inr (rw on refl)

pub accepts-shut_down : (a : Serving) → accepts (shut_down a) ≡ false
unfolding accepts shut_down
accepts-shut_down (running told) = refl
accepts-shut_down (returned e) = refl

pub HasFailed-shut_down : (a : Serving) → HasFailed a → HasFailed (shut_down a)
unfolding shut_down
HasFailed-shut_down (running told) bad = bad
HasFailed-shut_down (returned e) bad = bad

pub cause_shut :
    (a : Serving) (c g : Bool)
    → (c ≡ false) ⊎ (g ≡ true) ⊎ HasFailed a
    → (c ≡ false) ⊎ (g ≡ true) ⊎ HasFailed (shut_down a)
cause_shut a c g (inl calm) = inl calm
cause_shut a c g (inr (inl sig)) = inr (inl sig)
cause_shut a c g (inr (inr bad)) = inr (inr (HasFailed-shut_down a bad))

pub cause_on :
    (a : Serving) (c g : Bool)
    → c ≡ true
    → (c ≡ false) ⊎ (g ≡ true) ⊎ HasFailed a
    → (true ≡ false) ⊎ (g ≡ true) ⊎ HasFailed a
cause_on a c g on (inl calm) = absurd cc
cause_on a c g on (inr why) = inr why
