-- ===== src/Observations/Cache/Reviewed.antt =====
-- The review of a synchronized observation in src/news-observations/synchronized-cache.ts.
use mayday_dispatch.Prelude.{
  String, ◌≡◌, refl, subst, inl, inr, true, false, Bool-cases, Option, some, Option-cases, [], ◌∷◌,
  ◌++◌, ◌==◌, ◌||◌, arith,
}
use mayday_dispatch.Gateway.Errors.{ok, >>=-eq-ok, forbid-eq-ok, require-eq-ok, ok-injective}
use mayday_dispatch.Observations.{Platform, Observation, Eligibility, requires_review}
use mayday_dispatch.Observations.Normal.{normalize, ordered}
use mayday_dispatch.Observations.Schema.{is_valid_observation, parsed_observation}
use mayday_dispatch.Observations.Cache.{
  Row, Cache, Review, Operator, Decision, decided, decided_feed, find_row, is_bad_note,
  awaits_review, row_to_review, review_eligibility,
}
use mayday_dispatch.Observations.Cache.Kept.{find-update, find-update_other}

-- What a review that is accepted comes to.
pub record Reviewed (id : String) (d : Decision) (r : Review) (before after : Cache) : Type 0 where
  pub waiting : Row
  pub found : find_row id before.rows ≡ some waiting
  pub waited : waiting.eligibility ≡ requires_review
  pub row : Row
  pub now : find_row id after.rows ≡ some row
  pub decision : row.eligibility ≡ decided d
  pub shown : row.observation.public_feed.eligibility ≡ decided d
  pub others : (j : String) → (id == j) ≡ false → find_row j after.rows ≡ find_row j before.rows
  pub noted : after.reviews ≡ before.reviews ++ r ∷ []
  pub named : (r.document_id ≡ id) × (r.eligibility ≡ decided d)

awaits : (e : Eligibility) → awaits_review e ≡ true → e ≡ requires_review
awaits e h = ground arith

row_to_review-ok :
    (id : String) (c : Cache) (r : Row)
    → row_to_review id c ≡ ok r
    → (find_row id c.rows ≡ some r) × (r.eligibility ≡ requires_review)
unfolding row_to_review
row_to_review-ok id c r h = elim (Option-cases (find_row id c.rows)) [
  | inl e ↦ absurd (cc (rw (row_to_review, e) at h))
  | inr (x, e) ↦ elim (Bool-cases (awaits_review x.eligibility)) [
    | inl f ↦
        let same : ok x ≡ ok r = rw (row_to_review, e, f) at h in
        rw (← ok-injective same) (e, awaits x.eligibility f)
    | inr f ↦ absurd (cc (rw (row_to_review, e, f) at h))
  ]
]

normalize-eligibility :
    (p : Platform) (o normal : Observation)
    → normalize p o ≡ ok normal
    → normal.public_feed.eligibility ≡ o.public_feed.eligibility
unfolding normalize ordered parsed_observation
normalize-eligibility p o normal h =
    let (_, h1) = require-eq-ok (is_valid_observation p o) _ _ h in rw (← ok-injective h1) refl

-- A review that is accepted is of an observation that waited for one: it gives its row the decision,
-- also in the feed of the observation, leaves all other rows alone and is recorded.
pub review_eligibility-Reviewed :
    (p : Platform) (at id : String) (d : Decision) (operator : Operator) (note : Option String)
    (before after : Cache) (r : Review)
    → review_eligibility p at id d operator note before ≡ ok (r, after)
    → Reviewed id d r before after
unfolding review_eligibility
review_eligibility-Reviewed p at id d operator note before after r h =
    let (_, h1) = forbid-eq-ok (id == "" || operator.subject_id == "" || is_bad_note note) _ _ h in
    let (waiting, e, h2) = >>=-eq-ok (row_to_review id before) _ h1 in
    let (found, waited) = row_to_review-ok id before waiting e in
    let (normal, _, h3) = >>=-eq-ok (normalize p waiting.observation) _ h2 in
    let (reviewed, f, h4) =
      >>=-eq-ok (normalize p (record normal { public_feed = decided_feed (decided d) })) _ h3 in
    let decide : Row → Row =
      λ x. record x { eligibility = decided d; observation = reviewed; synchronized_at = at } in
    subst (λ (t : Review × Cache). Reviewed id d t.0 before t.1) (ok-injective h4)
      (record {
        waiting = waiting;
        found = found;
        waited = waited;
        row = decide waiting;
        now = find-update id decide (λ x. refl) before.rows waiting found;
        decision = refl;
        shown =
            normalize-eligibility p (record normal { public_feed = decided_feed (decided d) })
              reviewed f;
        others = λ j. find-update_other id decide (λ x. refl) j before.rows;
        noted = refl;
        named = (refl, refl);
      })
