-- ===== src/Observations/Cache/Pages.antt =====
-- What a page adds to the cache of src/news-observations/synchronized-cache.ts, and what happens
-- when it is applied again.
use mayday_dispatch.Prelude.{
  ℕ, ◌+◌, String, ◌≡◌, refl, ap, ◌∙◌, true, false, Option, none, some, List, [], ◌∷◌, ◌++◌, ◌==◌,
  arith, length, All, eq_refl,
}
use mayday_dispatch.Observations.{Observation}
use mayday_dispatch.Observations.Cache.{Row, Cache, OperationType, find_row, update_rows}
use mayday_dispatch.Observations.Cache.Apply.{
  Counts, new_row, revised, apply_one, apply_each, apply_page,
}
use mayday_dispatch.Observations.Cache.Kept.{
  Applied, inserted, updated, repeated, apply_one-Applied, find-append, find-update,
  find-update_other,
}

length-append : (rows : List Row) (r : Row) → length (rows ++ r ∷ []) ≡ length rows + 1
length-append [] r = refl
length-append (x ∷ rows) r = omega (arith, length-append rows r)

length-update :
    (id : String) (f : Row → Row) (rows : List Row) → length (update_rows id f rows) ≡ length rows
unfolding update_rows
length-update id f [] = refl
length-update id f (x ∷ rows) = ground (arith, length-update id f rows)

find-append_new :
    (id : String) (r : Row) (rows : List Row)
    → find_row id rows ≡ none
    → (r.document_id == id) ≡ true
    → find_row id (rows ++ r ∷ []) ≡ some r
unfolding find_row
find-append_new id r [] h e = rw e refl
find-append_new id r (x ∷ rows) h e = ground (arith, find-append_new id r rows)

module _ (fingerprint : Observation → String) (received_at : String) where
  -- The counts of duplicates and of updates, and the number of rows.
  total : Counts × List Row → ℕ
  total (n, rows) = n.duplicates + n.revision_updates + length rows

  total-Applied :
      (o : Observation) (n : Counts) (rows : List Row) {after : Counts × List Row}
      → Applied fingerprint received_at o n rows after
      → total after ≡ total (n, rows) + 1
  unfolding total
  total-Applied o n rows (inserted e a) =
      rw a (omega (arith, length-append rows (new_row fingerprint received_at o)))
  total-Applied o n rows (updated x e f a) = rw a (
      omega (
        arith,
        length-update o.identity.intelligence_document_id (revised fingerprint received_at o) rows,
      ))
  total-Applied o n rows (repeated x e f a) = rw a (omega arith)

  total-apply_each :
      (os : List Observation) (n : Counts) (rows : List Row)
      → total (apply_each fingerprint received_at os (n, rows)) ≡ total (n, rows) + length os
  unfolding apply_each
  total-apply_each [] n rows = omega arith
  total-apply_each (o ∷ os) n rows =
      let (n', rows') = apply_one fingerprint received_at o (n, rows) in
      omega (
        arith,
        total-Applied o n rows (apply_one-Applied fingerprint received_at o n rows),
        total-apply_each os n' rows',
      )

  -- Each observation of a page is counted as a duplicate, counted as an update, or adds a row: the
  -- three numbers add up to the size of the page, which is what the program counts as accepted.
  pub apply_page_counts :
      (op : OperationType) (os : List Observation) (cursor : Option String) (c : Cache)
      → let (n, c') = apply_page fingerprint received_at op os cursor c in
        n.duplicates + n.revision_updates + length c'.rows ≡ length os + length c.rows
  unfolding apply_page total
  apply_page_counts op os cursor c =
      omega (arith, total-apply_each os (record { duplicates = 0; revision_updates = 0 }) c.rows)

-- The stored row of the observation's document has the observation's fingerprint.
abbrev pub IsStored : (Observation → String) → List Row → Observation → Type 0
IsStored fingerprint rows o =
    (x : Row) × (find_row o.identity.intelligence_document_id rows ≡ some x)
    × ((x.fingerprint == fingerprint o) ≡ true)

-- No two observations of a page are of the same document.
abbrev pub DistinctDocuments : List Observation → Type 0
DistinctDocuments [] = Unit
DistinctDocuments (o ∷ os) =
    All
      (λ (q : Observation).
        (q.identity.intelligence_document_id == o.identity.intelligence_document_id) ≡ false)
      os
    × DistinctDocuments os

module _ (fingerprint : Observation → String) (received_at : String) where
  IsStored-Applied :
      (o : Observation) (n : Counts) (rows : List Row) {after : Counts × List Row}
      → Applied fingerprint received_at o n rows after
      → IsStored fingerprint after.1 o
  IsStored-Applied o n rows (inserted e a) = rw a (
    new_row fingerprint received_at o,
    find-append_new o.identity.intelligence_document_id (new_row fingerprint received_at o) rows e
        (eq_refl _),
    eq_refl _,
  )
  IsStored-Applied o n rows (updated x e f a) = rw a (
    revised fingerprint received_at o x,
    find-update o.identity.intelligence_document_id (revised fingerprint received_at o) (λ r. refl)
        rows x e,
    eq_refl _,
  )
  IsStored-Applied o n rows (repeated x e f a) = rw a (x, e, f)

  stays-Applied :
      (o q : Observation) (n : Counts) (rows : List Row) {after : Counts × List Row}
      → (q.identity.intelligence_document_id == o.identity.intelligence_document_id) ≡ false
      → Applied fingerprint received_at q n rows after
      → IsStored fingerprint rows o
      → IsStored fingerprint after.1 o
  stays-Applied o q n rows h (inserted e a) (x, s, f) =
      rw a (x, find-append _ (new_row fingerprint received_at q) rows x s, f)
  stays-Applied o q n rows h (updated y e g a) (x, s, f) = rw a (
    x,
    find-update_other q.identity.intelligence_document_id (revised fingerprint received_at q)
          (λ r. refl) o.identity.intelligence_document_id rows h
        ∙ s,
    f,
  )
  stays-Applied o q n rows h (repeated y e g a) s = rw a s

  stays-apply_each :
      (o : Observation) (os : List Observation) (n : Counts) (rows : List Row)
      → All
          (λ (q : Observation).
            (q.identity.intelligence_document_id == o.identity.intelligence_document_id) ≡ false)
          os
      → IsStored fingerprint rows o
      → IsStored fingerprint (apply_each fingerprint received_at os (n, rows)).1 o
  unfolding apply_each
  stays-apply_each o [] n rows d s = s
  stays-apply_each o (q ∷ os) n rows (d, ds) s =
      let (n', rows') = apply_one fingerprint received_at q (n, rows) in
      stays-apply_each o os n' rows' ds
        (stays-Applied o q n rows d (apply_one-Applied fingerprint received_at q n rows) s)

  IsStored-apply_each :
      (os : List Observation) (n : Counts) (rows : List Row)
      → DistinctDocuments os
      → All (IsStored fingerprint (apply_each fingerprint received_at os (n, rows)).1) os
  unfolding apply_each
  IsStored-apply_each [] n rows d = tt
  IsStored-apply_each (o ∷ os) n rows (d, ds) =
      let (n', rows') = apply_one fingerprint received_at o (n, rows) in
      (
        stays-apply_each o os n' rows' d
            (IsStored-Applied o n rows (apply_one-Applied fingerprint received_at o n rows)),
        IsStored-apply_each os n' rows' ds,
      )

  repeated_one :
      (o : Observation) (n : Counts) (rows : List Row)
      → IsStored fingerprint rows o
      → apply_one fingerprint received_at o (n, rows)
        ≡ (record n { duplicates = n.duplicates + 1 }, rows)
  unfolding apply_one
  repeated_one o n rows (x, s, f) = rw (apply_one, s, f) refl

  repeated_each :
      (os : List Observation) (n : Counts) (rows : List Row)
      → All (IsStored fingerprint rows) os
      → apply_each fingerprint received_at os (n, rows)
        ≡ (record n { duplicates = n.duplicates + length os }, rows)
  unfolding apply_each
  repeated_each [] n rows s = ap (λ d. (record n { duplicates = d }, rows)) (omega arith)
  repeated_each (o ∷ os) n rows (s, ss) =
      ap (apply_each fingerprint received_at os) (repeated_one o n rows s)
      ∙ (repeated_each os (record n { duplicates = n.duplicates + 1 }) rows ss
          ∙ ap (λ d. (record n { duplicates = d }, rows)) (omega arith))

zero_add : (os : List Observation) → 0 + length os ≡ length os
zero_add os = omega arith

-- Applying a page a second time, at any later time, changes no row, and counts every observation as
-- a duplicate, when no two observations of the page are of the same document.
pub apply_page_again :
    (fingerprint : Observation → String) (earlier later : String) (op op' : OperationType)
    (os : List Observation) (cursor cursor' : Option String) (c : Cache)
    → DistinctDocuments os
    → let c1 = (apply_page fingerprint earlier op os cursor c).1 in
      let again = apply_page fingerprint later op' os cursor' c1 in
      (again.1.rows ≡ c1.rows) × (again.0.duplicates ≡ length os) × (again.0.revision_updates ≡ 0)
unfolding apply_page
apply_page_again fingerprint earlier later op op' os cursor cursor' c d =
    let none_yet : Counts = record { duplicates = 0; revision_updates = 0 } in
    let c1 = (apply_page fingerprint earlier op os cursor c).1 in
    let again =
      repeated_each fingerprint later os none_yet c1.rows
        (IsStored-apply_each fingerprint earlier os none_yet c.rows d) in
    (
      ap (λ (t : Counts × List Row). t.1) again,
      ap (λ (t : Counts × List Row). t.0.duplicates) again ∙ zero_add os,
      ap (λ (t : Counts × List Row). t.0.revision_updates) again,
    )
