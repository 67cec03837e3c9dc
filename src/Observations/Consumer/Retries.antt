-- ===== src/Observations/Consumer/Retries.antt =====
-- The loop of `withRetries` in src/news-observations/live-consumer.ts, as a sequence of attempts.
use mayday_dispatch.Prelude.{
  ℕ, zero, suc, ◌≤◌, ◌≡◌, refl, sym, ap, subst, inl, inr, ◌⊎◌, true, false, arith, Bool-cases, none,
  some, Option-cases, ◌∙◌,
}
use mayday_dispatch.Gateway.Errors.{
  Result, ok, err, Failure, Outcome-cases, live_consumer_error, authentication_failed,
}
use mayday_dispatch.Observations.Consumer.{
  Consumer, Action, attempts, note_failure, error_code, is_final, ConsumerOptions, Credentials,
  with_retries, usable_credentials, status_for, audited, authentication_rejected,
}
use mayday_dispatch.Observations.{Platform}

module _ {S A : Type 0} (action : Action S A) where
  -- `k` attempts that failed, each with an error that is tried again.
  pub data Failed : ℕ → Consumer S → Consumer S → Type 0 where
    none_yet : (c : Consumer S) → Failed 0 c c
    once_more :
        {k : ℕ} (c last : Consumer S) (e : Failure)
        → (action c).0 ≡ err e
        → is_final (error_code e) ≡ false
        → Failed k (note_failure (error_code e) (action c).1) last
        → Failed (suc k) c last

  -- The answer of the last attempt, after `k` that failed: a value, or an error that is final or has
  -- used up the attempts, and is noted.
  pub record Answered (n : ℕ) (c : Consumer S) (x : Result A × Consumer S) : Type 0 where
    pub retries : ℕ
    pub last : Consumer S
    pub failed : Failed retries c last
    pub few : retries ≤ n
    pub same : x.0 ≡ (action last).0
    pub on_success : (a : A) → x.0 ≡ ok a → x.1 ≡ (action last).1
    pub on_failure :
        (e : Failure)
        → x.0 ≡ err e
        → (x.1 ≡ note_failure (error_code e) (action last).1)
          × ((is_final (error_code e) ≡ true) ⊎ (retries ≡ n))

  ended :
      (n : ℕ) (c : Consumer S) (e : Failure)
      → (action c).0 ≡ err e
      → (is_final (error_code e) ≡ true) ⊎ (0 ≡ n)
      → Answered n c (err e, note_failure (error_code e) (action c).1)
  ended n c e h final = record {
    retries = 0;
    last = c;
    failed = none_yet c;
    few = omega arith;
    same = sym h;
    on_success = λ a f. absurd (cc f);
    on_failure = λ x f.
        let same_error : e ≡ x = cc f in
        subst
          (λ y.
            (note_failure (error_code e) (action c).1 ≡ note_failure (error_code y) (action c).1)
            × ((is_final (error_code y) ≡ true) ⊎ (0 ≡ n)))
          same_error (refl, final);
  }

  succeeded :
      (n : ℕ) (c : Consumer S) (a : A) → (action c).0 ≡ ok a → Answered n c (ok a, (action c).1)
  succeeded n c a h = record {
    retries = 0;
    last = c;
    failed = none_yet c;
    few = omega arith;
    same = sym h;
    on_success = λ b f. refl;
    on_failure = λ x f. absurd (cc f);
  }

  retried :
      (n : ℕ) (c : Consumer S) (e : Failure) (x : Result A × Consumer S)
      → (action c).0 ≡ err e
      → is_final (error_code e) ≡ false
      → Answered n (note_failure (error_code e) (action c).1) x
      → Answered (suc n) c x
  retried n c e x h f r = record {
    retries = suc r.retries;
    last = r.last;
    failed = once_more c r.last e h f r.failed;
    few = omega (arith, r.few);
    same = r.same;
    on_success = r.on_success;
    on_failure = λ y g.
        let (noted, final) = r.on_failure y g in
        (noted, elim final [ inl t ↦ inl t | inr t ↦ inr (ap suc t) ]);
  }

  -- The attempts end with the answer of the last of them: at most as many as the ceiling failed
  -- before it with an error that is tried again, each noted, and it is a value, or an error that is
  -- not tried again or met the ceiling, which is noted as well.
  pub attempts-Answered : (n : ℕ) (c : Consumer S) → Answered n c (attempts n action c)
  unfolding attempts
  attempts-Answered zero c = elim (Outcome-cases (action c).0) [
    | inl (a, h) ↦ rw (attempts, h) (succeeded 0 c a h)
    | inr (e, h) ↦ rw (attempts, h) (ended 0 c e h (inr refl))
  ]
  attempts-Answered (suc n) c = elim (Outcome-cases (action c).0) [
    | inl (a, h) ↦ rw (attempts, h) (succeeded (suc n) c a h)
    | inr (e, h) ↦ elim (Bool-cases (is_final (error_code e))) [
      | inl f ↦ rw (attempts, h, f) (ended (suc n) c e h (inl f))
      | inr f ↦
          rw (attempts, h, f)
            (retried n c e _ h f (attempts-Answered n (note_failure (error_code e) (action c).1)))
    ]
  ]

  -- What holds before the attempts, and that a failed one keeps, holds before the last of them.
  pub Failed-kept :
      (Kept : Consumer S → Type 0)
      → ((c : Consumer S) (e : Failure)
          → (action c).0 ≡ err e
          → Kept c
          → Kept (note_failure (error_code e) (action c).1))
      → {k : ℕ} {c last : Consumer S} → Failed k c last
      → Kept c
      → Kept last
  Failed-kept Kept step (none_yet c) h = h
  Failed-kept Kept step (once_more c last e t f rest) h = Failed-kept Kept step rest (step c e t h)

module _ (p : Platform) (now : ℕ) {S A : Type 0} (o : ConsumerOptions)
    (action : Credentials → Action S A) (c : Consumer S) where
  -- Without usable credentials nothing is asked.
  abbrev pub Rejected : Type 0
  Rejected =
      (usable_credentials p now o.credentials ≡ none)
      × (with_retries p now o action c ≡ (
        err (live_consumer_error authentication_failed),
        audited authentication_rejected none
            (record c { status = status_for authentication_failed }),
      ))

  pub with_retries-Answered :
      Rejected
      ⊎ ((k : Credentials) × (usable_credentials p now o.credentials ≡ some k)
          × Answered (action k) o.retry_ceiling c (with_retries p now o action c))
  unfolding with_retries
  with_retries-Answered = elim (Option-cases (usable_credentials p now o.credentials)) [
    | inl e ↦ inl (e, rw (with_retries, e) refl)
    | inr (k, e) ↦ inr (k, e, rw (with_retries, e) (attempts-Answered (action k) o.retry_ceiling c))
  ]

  -- What an attempt that succeeds brings about is there after a request that succeeds.
  pub with_retries-ok :
      (Kept : Consumer S → Type 0) (Done : A → Consumer S → Type 0)
      → ((k : Credentials) (d : Consumer S) (e : Failure)
          → (action k d).0 ≡ err e
          → Kept d
          → Kept (note_failure (error_code e) (action k d).1))
      → ((k : Credentials) (d : Consumer S) (a : A)
          → (action k d).0 ≡ ok a
          → Kept d
          → Done a (action k d).1)
      → Kept c
      → (a : A) → (with_retries p now o action c).0 ≡ ok a
      → Done a (with_retries p now o action c).1
  with_retries-ok Kept Done step done h a e = elim with_retries-Answered [
    | inl (_, r) ↦ absurd (cc (ap (λ (t : Result A × Consumer S). t.0) (sym r) ∙ e))
    | inr (k, _, r) ↦
        let last = Failed-kept (action k) Kept (step k) r.failed h in
        rw (r.on_success a e) (done k r.last a (sym r.same ∙ e) last)
  ]
