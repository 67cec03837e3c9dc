-- ===== src/Observations/Consumer/Accepted.antt =====
-- What the checks of src/news-observations/live-consumer.ts let pass of a page.
use mayday_dispatch.Prelude.{
  ℕ, suc, ◌≤◌, ◌≡◌, refl, ap, ◌∙◌, inl, inr, true, arith, Bool, Bool-cases, Option-cases, List, [],
  ◌∷◌, length, keep, leb, ◌&&◌,
}
use mayday_dispatch.Prelude.Sort.{length-sort}
use mayday_dispatch.Gateway.Errors.{
  Result, ok, err, ok-injective, >>=-eq-ok, >>-eq-ok, require-eq-ok,
}
use mayday_dispatch.Observations.{Platform, Observation}
use mayday_dispatch.Observations.Schema.{is_eligible}
use mayday_dispatch.Observations.Normal.{
  PublicObservation, normalize, normalize_each, normalize_all, check_distinct, before_observation,
  to_public_observation,
}
use mayday_dispatch.Observations.Provider.{ObservationPage, to_public_each}
use mayday_dispatch.Observations.Consumer.{Action, RawPage, Answer, Consumer}
use mayday_dispatch.Observations.Consumer.Requests.{
  if_ok, shown_page, accepted_page, is_cursor, is_within_bytes,
}

length-keep : {A : Type 0} (t : A → Bool) (xs : List A) → length (keep t xs) ≤ length xs
length-keep t [] = omega arith
length-keep t (x ∷ xs) = elim (Bool-cases (t x)) [
  | inl e ↦ rw e (omega (arith, length-keep t xs))
  | inr e ↦ rw e (omega (arith, length-keep t xs))
]

length-to_public_each :
    (os : List Observation) (shown : List PublicObservation)
    → to_public_each os ≡ ok shown
    → length shown ≡ length os
unfolding to_public_each
length-to_public_each [] shown h = rw (← ok-injective h) refl
length-to_public_each (o ∷ os) shown h =
    let (first, _, h1) = >>=-eq-ok (to_public_observation o) _ h in
    let (rest, e, h2) = >>=-eq-ok (to_public_each os) _ h1 in
    rw (← ok-injective h2) (ap suc (length-to_public_each os rest e))

length-normalize_each :
    (p : Platform) (os normal : List Observation)
    → normalize_each p os ≡ ok normal
    → length normal ≡ length os
unfolding normalize_each
length-normalize_each p [] normal h = rw (← ok-injective h) refl
length-normalize_each p (o ∷ os) normal h =
    let (first, _, h1) = >>=-eq-ok (normalize p o) _ h in
    let (rest, e, h2) = >>=-eq-ok (normalize_each p os) _ h1 in
    rw (← ok-injective h2) (ap suc (length-normalize_each p os rest e))

length-normalize_all :
    (p : Platform) (os normal : List Observation)
    → normalize_all p os ≡ ok normal
    → length normal ≡ length os
unfolding normalize_all
length-normalize_all p os normal h =
    let (each, e, h1) = >>=-eq-ok (normalize_each p os) _ h in
    let (_, h2) = >>-eq-ok (check_distinct [] each) _ h1 in
    rw (← ok-injective h2)
      (length-sort (before_observation p) each ∙ length-normalize_each p os each e)

pub length-shown_page :
    (p : Platform) (raw : RawPage) (page : ObservationPage)
    → shown_page p raw ≡ ok page
    → (length page.observations ≤ length raw.observations) × (page.next_cursor ≡ raw.next_cursor)
unfolding shown_page
length-shown_page p raw page h =
    let (normal, e, h1) = >>=-eq-ok (normalize_all p raw.observations) _ h in
    let chosen = keep (λ (o : Observation). is_eligible o.public_feed.eligibility) normal in
    let (shown, f, h2) = >>=-eq-ok (to_public_each chosen) _ h1 in
    rw (← ok-injective h2) (
      omega (
        arith,
        length-to_public_each chosen shown f,
        length-keep (λ (o : Observation). is_eligible o.public_feed.eligibility) normal,
        length-normalize_all p raw.observations normal e,
      ),
      refl,
    )

pub accepted_page-ok :
    (limit maximum : ℕ) (answer : Answer RawPage) (raw : RawPage)
    → accepted_page limit maximum answer ≡ ok raw
    → (length raw.observations ≤ limit) × (is_cursor raw.next_cursor ≡ true)
unfolding accepted_page
accepted_page-ok limit maximum answer raw h =
    let (_, h1) = require-eq-ok (is_within_bytes maximum answer.bytes) _ _ h in
    elim (Option-cases answer.body) [
      | inl e ↦ absurd (cc (rw e at h1))
      | inr (body, e) ↦
          let (both, h2) =
            require-eq-ok (leb (length body.observations) limit && is_cursor body.next_cursor) _ _
              (rw e at h1) in
          rw (← ok-injective h2) (ground (arith, both), ground (arith, both))
    ]

pub if_ok-ok :
    {S A B : Type 0} (x : Result A × Consumer S) (k : A → Action S B) (b : B)
    → (if_ok x k).0 ≡ ok b
    → (a : A) × (x.0 ≡ ok a) × (if_ok x k ≡ k a x.1)
if_ok-ok (ok a, c) k b h = (a, refl, refl)
if_ok-ok (err e, c) k b h = absurd (cc h)
