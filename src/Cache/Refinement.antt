-- ===== src/Cache/Refinement.antt =====
-- The cache of internal/cache/redis.go does what its callers expect of it, as long as no key expires.
use eventmind.Base.{
  ◌≡◌, ◌≢◌, refl, ◌∙◌, sym, ap, subst, inl, inr, Text, text_eq, text_eq_iff, Bool, true, false, not,
  ◌&&◌, Bool-cases, Option, none, some, List, [], ◌∷◌, Result, ok, err,
}
use eventmind.Cache.{seen_key, decision_key, seen, cache_decision, get_decision, get_result}
use eventmind.Cache.Server.{Redis, IsLawful, is_none, answer}
use eventmind.Cache.Memory.{
  CacheCall, ask_seen, store, fetch, was_seen, fetched, is_answer, seen_reply, store_reply,
  fetch_reply, Memory, expected, expected_replies, all_answer, perform, replies,
}
use eventmind.Cache.Laws.{seen-ok, get_decision-cache_decision}

module _ (R : Redis) (L : IsLawful R) where
  abbrev text_of : Option Text → Text
  text_of none = []
  text_of (some t) = t

  -- What Redis holds, as the callers see it.
  abbrev pub memory_of : R.State → Memory
  memory_of s = record {
    processed = λ id. not (is_none (L.live s (seen_key id)));
    decisions = λ id. text_of (L.live s (decision_key id));
  }

  record Represents (s : R.State) (m : Memory) : Type 0 where
    pub processed : (id : Text) → not (is_none (L.live s (seen_key id))) ≡ m.processed id
    pub decisions : (id : Text) → text_of (L.live s (decision_key id)) ≡ m.decisions id

  -- An answered call gives the expected reply and leaves what is expected.
  record IsExpected (s : R.State) (m : Memory) (call : CacheCall) : Type 0 where
    pub reply_eq : (perform R s call).0 ≡ (expected m call).0
    pub represents : Represents (perform R s call).1 (expected m call).1

  present : (o : Option Text) → o ≢ none → not (is_none o) ≡ true
  present none h = absurd (h refl)
  present (some t) h = refl

  seen_step :
      (s : R.State) (m : Memory) (id : Text) (r : Result Bool)
      → (seen R s id).0 ≡ r
      → Represents s m
      → is_answer (seen_reply r) ≡ true
      → IsExpected s m (ask_seen id)
  unfolding perform
  seen_step s m id (err e) called h answered = absurd cc
  seen_step s m id (ok b) called h answered =
      let a = seen-ok R L s id b called in
      record {
        reply_eq = ap seen_reply called ∙ ap was_seen (a.is_before ∙ h.processed id);
        represents = record {
          processed = λ other. elim (Bool-cases (text_eq other id)) [
            | inl same ↦ rw same (
                subst (λ j. not (is_none (L.live (seen R s id).1 (seen_key j))) ≡ true)
                  (sym ((text_eq_iff other id).0 same)) (present _ a.marked))
            | inr differs ↦
                rw differs (ap (λ o. not (is_none o)) (a.others other differs) ∙ h.processed other)
          ];
          decisions = λ other. ap text_of (a.decisions other) ∙ h.decisions other;
        };
      }

  store_step :
      (s : R.State) (m : Memory) (id blob : Text) (r : Option Text)
      → (cache_decision R s id blob).0 ≡ r
      → Represents s m
      → is_answer (store_reply r) ≡ true
      → IsExpected s m (store id blob)
  unfolding perform
  store_step s m id blob (some e) called h answered = absurd cc
  store_step s m id blob none called h answered =
      let (read, entries, marks) = get_decision-cache_decision R L s id blob called in
      record {
        reply_eq = ap store_reply called;
        represents = record {
          processed = λ other. ap (λ o. not (is_none o)) (marks other) ∙ h.processed other;
          decisions = λ other. elim (Bool-cases (text_eq other id)) [
            | inl same ↦ rw same (ap text_of (rw same at (entries other)))
            | inr differs ↦
                rw differs (ap text_of (rw differs at (entries other)) ∙ h.decisions other)
          ];
        };
      }

  fetch_reply_of : (o : Option Text) → fetch_reply (get_result (answer o)) ≡ fetched (text_of o)
  unfolding get_result
  fetch_reply_of none = refl
  fetch_reply_of (some t) = refl

  fetch_step :
      (s : R.State) (m : Memory) (id : Text)
      → Represents s m
      → is_answer (fetch_reply (get_decision R s id)) ≡ true
      → IsExpected s m (fetch id)
  unfolding perform get_decision get_result
  fetch_step s m id h answered = elim (L.get_lem s (decision_key id)) [
    | inl (e, bad) ↦ absurd (let no = rw bad at answered in cc)
    | inr found ↦ record {
      reply_eq =
          ap (λ o. fetch_reply (get_result o)) found
          ∙ fetch_reply_of (L.live s (decision_key id))
          ∙ ap fetched (h.decisions id);
      represents = h;
    }
  ]

  perform-IsExpected :
      (s : R.State) (m : Memory) (call : CacheCall)
      → Represents s m
      → is_answer (perform R s call).0 ≡ true
      → IsExpected s m call
  unfolding perform
  perform-IsExpected s m (ask_seen id) h answered = seen_step s m id _ refl h answered
  perform-IsExpected s m (store id blob) h answered = store_step s m id blob _ refl h answered
  perform-IsExpected s m (fetch id) h answered = fetch_step s m id h answered

  both : (a b : Bool) → (a && b) ≡ true → (a ≡ true) × (b ≡ true)
  both true b h = (refl, h)
  both false b h = absurd cc

  replies_of_represented :
      (s : R.State) (m : Memory) (calls : List CacheCall)
      → Represents s m
      → all_answer (replies R s calls) ≡ true
      → replies R s calls ≡ expected_replies m calls
  unfolding replies all_answer expected_replies
  replies_of_represented s m [] h answered = refl
  replies_of_represented s m (call ∷ calls) h answered =
      let (first, rest) = both _ _ answered in
      let step = perform-IsExpected s m call h first in
      ap (λ r. r ∷ replies R (perform R s call).1 calls) step.reply_eq
      ∙ ap (λ l. (expected m call).0 ∷ l)
          (replies_of_represented (perform R s call).1 (expected m call).1 calls step.represents
            rest)

  -- If Redis behaves as documented and no call of the guard or of the decision cache fails, and no
  -- key expires, then any sequence of these calls is answered as a set of seen events and a map of
  -- decisions would answer it that begin with what Redis holds.
  pub replies_refine :
      (s : R.State) (calls : List CacheCall)
      → all_answer (replies R s calls) ≡ true
      → replies R s calls ≡ expected_replies (memory_of s) calls
  replies_refine s calls answered =
      replies_of_represented s (memory_of s) calls
        (record { processed = λ id. refl; decisions = λ id. refl }) answered
