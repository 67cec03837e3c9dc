-- ===== src/Observations/Cache/Kept.antt =====
-- What a page leaves as it was in the cache of src/news-observations/synchronized-cache.ts.
use mayday_dispatch.Prelude.{
  ◌+◌, String, ◌≡◌, refl, sym, ◌∙◌, inl, inr, true, false, Option, none, some, List, [], ◌∷◌, ◌++◌,
  ◌==◌, eq_iff, arith, Bool-cases, Option-cases, eq_text, subst,
}
use mayday_dispatch.Observations.{Observation}
use mayday_dispatch.Observations.Cache.{Row, Cache, OperationType, find_row, update_rows}
use mayday_dispatch.Observations.Cache.Apply.{
  Counts, new_row, revised, apply_one, apply_each, apply_page,
}

pub find-append :
    (id : String) (r : Row) (rows : List Row) (old : Row)
    → find_row id rows ≡ some old
    → find_row id (rows ++ r ∷ []) ≡ some old
unfolding find_row
find-append id r [] old h = cc
find-append id r (x ∷ rows) old h = ground (arith, find-append id r rows old)

pub find-document :
    (id : String) (rows : List Row) (r : Row) → find_row id rows ≡ some r → r.document_id ≡ id
unfolding find_row
find-document id [] r h = cc
find-document id (x ∷ rows) r h = ground (arith, eq_iff x.document_id id, find-document id rows r)

-- An update of the rows of one document, which keeps the documents' ids.
module _ (id : String) (f : Row → Row) (same : (r : Row) → (f r).document_id ≡ r.document_id) where
  pub find-update :
      (rows : List Row) (old : Row)
      → find_row id rows ≡ some old
      → find_row id (update_rows id f rows) ≡ some (f old)
  unfolding find_row update_rows
  find-update [] old h = cc
  find-update (x ∷ rows) old h = ground (arith, same x, find-update rows old)

  pub find-update_other :
      (j : String) (rows : List Row)
      → (id == j) ≡ false
      → find_row j (update_rows id f rows) ≡ find_row j rows
  unfolding find_row update_rows
  find-update_other j [] h = refl
  find-update_other j (x ∷ rows) h = ground (
    arith,
    same x,
    eq_iff x.document_id id,
    eq_iff x.document_id j,
    eq_iff id j,
    find-update_other j rows h,
  )

-- What no page changes of a row: whose it is, what was decided about it, and when it came first.
pub record Kept (old new : Row) : Type 0 where
  pub document_id : new.document_id ≡ old.document_id
  pub eligibility : new.eligibility ≡ old.eligibility
  pub received_at : new.received_at ≡ old.received_at

pub Kept-refl : (r : Row) → Kept r r
Kept-refl r = record { document_id = refl; eligibility = refl; received_at = refl }

pub Kept-trans : {a b c : Row} → Kept a b → Kept b c → Kept a c
Kept-trans h k = record {
  document_id = k.document_id ∙ h.document_id;
  eligibility = k.eligibility ∙ h.eligibility;
  received_at = k.received_at ∙ h.received_at;
}

abbrev Holds : String → Row → List Row → Type 0
Holds id old rows = (new : Row) × (find_row id rows ≡ some new) × Kept old new

module _ (fingerprint : Observation → String) (received_at : String) where
  revised-Kept : (o : Observation) (r : Row) → Kept r (revised fingerprint received_at o r)
  revised-Kept o r = record { document_id = refl; eligibility = refl; received_at = refl }

  -- The three ways in which an observation meets the rows.
  pub data Applied (o : Observation) (n : Counts) (rows : List Row) (after : Counts × List Row)
      : Type 0 where
    inserted :
        find_row o.identity.intelligence_document_id rows ≡ none
        → after ≡ (n, rows ++ new_row fingerprint received_at o ∷ [])
        → Applied o n rows after
    updated :
        (x : Row)
        → find_row o.identity.intelligence_document_id rows ≡ some x
        → (x.fingerprint == fingerprint o) ≡ false
        → after ≡ (
          record n { revision_updates = n.revision_updates + 1 },
          update_rows o.identity.intelligence_document_id (revised fingerprint received_at o) rows,
        )
        → Applied o n rows after
    repeated :
        (x : Row)
        → find_row o.identity.intelligence_document_id rows ≡ some x
        → (x.fingerprint == fingerprint o) ≡ true
        → after ≡ (record n { duplicates = n.duplicates + 1 }, rows)
        → Applied o n rows after

  pub apply_one-Applied :
      (o : Observation) (n : Counts) (rows : List Row)
      → Applied o n rows (apply_one fingerprint received_at o (n, rows))
  unfolding apply_one
  apply_one-Applied o n rows =
      elim (Option-cases (find_row o.identity.intelligence_document_id rows)) [
        | inl e ↦ inserted e (rw (apply_one, e) refl)
        | inr (x, e) ↦ elim (Bool-cases (x.fingerprint == fingerprint o)) [
          | inl f ↦ repeated x e f (rw (apply_one, e, f) refl)
          | inr f ↦ updated x e f (rw (apply_one, e, f) refl)
        ]
      ]

  update-Kept :
      (id : String) (o : Observation) (rows : List Row) (old : Row)
      → find_row id rows ≡ some old
      → Holds id old
          (update_rows o.identity.intelligence_document_id (revised fingerprint received_at o) rows)
  update-Kept id o rows old h =
      let d = o.identity.intelligence_document_id in
      let f = revised fingerprint received_at o in
      elim (Bool-cases (d == id)) [
        | inl g ↦
            let same : d ≡ id = eq_text d id g in
            (
              f old,
              subst (λ j. find_row j (update_rows d f rows) ≡ some (f old)) same
                  (find-update d f (λ r. refl) rows old
                    (subst (λ j. find_row j rows ≡ some old) (sym same) h)),
              revised-Kept o old,
            )
        | inr g ↦ (old, find-update_other d f (λ r. refl) id rows g ∙ h, Kept-refl old)
      ]

  Applied-Kept :
      (id : String) (o : Observation) (n : Counts) (rows : List Row) (old : Row)
      {after : Counts × List Row}
      → Applied o n rows after
      → find_row id rows ≡ some old
      → Holds id old after.1
  Applied-Kept id o n rows old (inserted e a) h =
      rw a (old, find-append id (new_row fingerprint received_at o) rows old h, Kept-refl old)
  Applied-Kept id o n rows old (updated x e f a) h = rw a (update-Kept id o rows old h)
  Applied-Kept id o n rows old (repeated x e f a) h = rw a (old, h, Kept-refl old)

  apply_one-Kept :
      (id : String) (o : Observation) (n : Counts) (rows : List Row) (old : Row)
      → find_row id rows ≡ some old
      → Holds id old (apply_one fingerprint received_at o (n, rows)).1
  apply_one-Kept id o n rows old = Applied-Kept id o n rows old (apply_one-Applied o n rows)

  apply_each-Kept :
      (id : String) (os : List Observation) (n : Counts) (rows : List Row) (old : Row)
      → find_row id rows ≡ some old
      → Holds id old (apply_each fingerprint received_at os (n, rows)).1
  unfolding apply_each
  apply_each-Kept id [] n rows old h = (old, h, Kept-refl old)
  apply_each-Kept id (o ∷ os) n rows old h =
      let (n', rows') = apply_one fingerprint received_at o (n, rows) in
      let (mid, found, kept) = apply_one-Kept id o n rows old h in
      let (new, found', kept') = apply_each-Kept id os n' rows' mid found in
      (new, found', Kept-trans kept kept')

  -- A document that is stored stays stored when a page is applied, whatever the page says of it:
  -- with the eligibility that it had, a review's decision too, and with the time it came first.
  pub apply_page-Kept :
      (op : OperationType) (os : List Observation) (cursor : Option String) (c : Cache)
      (id : String) (old : Row)
      → find_row id c.rows ≡ some old
      → (new : Row) × (find_row id (apply_page fingerprint received_at op os cursor c).1.rows
          ≡ some new)
        × Kept old new
  unfolding apply_page
  apply_page-Kept op os cursor c id old h = apply_each-Kept id os _ c.rows old h
