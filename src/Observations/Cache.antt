-- ===== src/Observations/Cache.antt =====
-- src/news-observations/synchronized-cache.ts: the observations that were synchronized. A record
-- holds the tables of one provider; each operation is one transaction, so an exception returns no
-- new tables. What the program stores as JSON stands here as the value.
pub mod Apply
pub mod Kept
pub mod Pages
pub mod Reviewed
use mayday_dispatch.Prelude.{
  ℕ, ◌+◌, String, Bool, true, false, not, ◌&&◌, ◌||◌, Option, none, some, List, [], ◌∷◌, ◌++◌, map,
  ◌==◌, leb, ltb, if◌then◌else◌, keep, find, take, length,
}
use mayday_dispatch.Prelude.Text.{trim, utf16_length}
use mayday_dispatch.Prelude.Sort.{sort}
use mayday_dispatch.Prelude.Order.{leb_text, max_text}
use mayday_dispatch.Domain.Json.{Decimal, positive_int}
use mayday_dispatch.Gateway.Errors.{Result, ok, err, plain_error, ◌>>=◌, ◌>>◌, forbid}
use mayday_dispatch.Observations.{
  Platform, Observation, Eligibility, PublicFeed, eligible, ineligible, safety_review,
}
use mayday_dispatch.Observations.Schema.{is_eligible}
use mayday_dispatch.Observations.Normal.{PublicObservation, normalize, to_public_observation}

pub record Row : Type 0 where
  pub document_id : String
  pub fingerprint : String
  pub observation : Observation
  pub eligibility : Eligibility
  pub received_at : String
  pub synchronized_at : String

pub data OperationType : Type 0 where
  backfill incremental : OperationType

abbrev pub same_operation : OperationType → OperationType → Bool
same_operation backfill backfill = true
same_operation incremental incremental = true
same_operation _ _ = false

pub record Checkpoint : Type 0 where
  pub operation_type : OperationType
  pub cursor : Option String
  pub started_at : String
  pub completed_at : String
  pub pages_processed : ℕ
  pub accepted : ℕ
  pub rejected : ℕ
  pub duplicates : ℕ
  pub revision_updates : ℕ
  pub last_successful_sync_at : Option String

pub record Operator : Type 0 where
  pub subject_id : String
  pub application : Option String

pub record Review : Type 0 where
  pub document_id : String
  pub prior_eligibility : Eligibility
  pub eligibility : Eligibility
  pub operator : Operator
  pub note : Option String
  pub decided_at : String

pub record Cache : Type 0 where
  pub rows : List Row
  pub checkpoints : List Checkpoint
  -- what was appended to the tables of audit events, the reviews and the advances of a checkpoint
  pub reviews : List Review
  pub advances : List (OperationType × String)

unfoldable pub find_row : String → List Row → Option Row
find_row id [] = none
find_row id (r ∷ rs) = if r.document_id == id then some r else find_row id rs

-- `UPDATE … WHERE document_id = ?`
unfoldable pub update_rows : String → (Row → Row) → List Row → List Row
update_rows id f [] = []
update_rows id f (r ∷ rs) =
    if r.document_id == id then f r ∷ update_rows id f rs else r ∷ update_rows id f rs

-- The feed that belongs to an eligibility which was decided here.
unfoldable pub decided_feed : Eligibility → PublicFeed
decided_feed e = record {
  eligibility = e;
  reasons = if is_eligible e then [] else safety_review ∷ [];
}

-- `ORDER BY synchronized_at DESC, document_id DESC`
unfoldable pub newer : Row → Row → Bool
unfolding leb_text
newer a b =
    not (leb_text a.synchronized_at b.synchronized_at)
    || (a.synchronized_at == b.synchronized_at && leb_text b.document_id a.document_id)

-- `Number.isInteger(limit)` and the bounds, with the number
unfoldable pub bounded : ℕ → Decimal → Result ℕ
unfolding positive_int
bounded maximum d = elim (positive_int d) [
  | none ↦ err plain_error
  | some n ↦ if leb n maximum then ok n else err plain_error
]

module _ (p : Platform) where
  unfoldable pub shown_rows : List Row → Result (List PublicObservation)
  unfolding normalize to_public_observation
  shown_rows [] = ok []
  shown_rows (r ∷ rs) = do
    o ← normalize p r.observation
    shown ← to_public_observation o
    rest ← shown_rows rs
    ok (shown ∷ rest)

  -- `listEligible`
  unfoldable pub list_eligible : Decimal → Cache → Result (List PublicObservation)
  unfolding bounded shown_rows newer sort
  list_eligible limit c = do
    n ← bounded 100 limit
    shown_rows (take n (sort newer (keep (λ r. is_eligible r.eligibility) c.rows)))

unfoldable pub latest_successful_sync : Cache → Option String
unfolding max_text
latest_successful_sync c = max_text (map (λ k. k.last_successful_sync_at) c.checkpoints)

unfoldable pub checkpoint : OperationType → Cache → Option String
checkpoint op c = elim (find (λ k. same_operation k.operation_type op) c.checkpoints) [
  | none ↦ none
  | some k ↦ k.cursor
]

abbrev pub awaits_review : Eligibility → Bool
awaits_review Eligibility.requires_review = true
awaits_review _ = false

-- The decisions that a review can take.
pub data Decision : Type 0 where
  approve refuse : Decision

abbrev pub decided : Decision → Eligibility
decided approve = eligible
decided refuse = ineligible

-- `note !== undefined && (!note.trim() || note.length > 500)`
unfoldable pub is_bad_note : Option String → Bool
unfolding trim
is_bad_note none = false
is_bad_note (some note) = trim note == "" || ltb 500 (utf16_length note)

unfoldable pub trimmed_note : Option String → Option String
unfolding trim
trimmed_note none = none
trimmed_note (some note) = some (trim note)

-- The row to review, when a review may decide on it.
unfoldable pub row_to_review : String → Cache → Result Row
unfolding find_row
row_to_review id c = elim (find_row id c.rows) [
  | none ↦ err plain_error
  | some r ↦ if awaits_review r.eligibility then ok r else err plain_error
]

module _ (p : Platform) where
  -- `reviewEligibility`; `decided_at` is the time of the call.
  unfoldable pub review_eligibility :
      (decided_at : String)
      → String
      → Decision
      → Operator
      → Option String
      → Cache
      → Result (Review × Cache)
  unfolding is_bad_note trimmed_note row_to_review normalize decided_feed update_rows
  review_eligibility decided_at id decision operator note c = do
    forbid (id == "" || operator.subject_id == "" || is_bad_note note) plain_error
    current ← row_to_review id c
    observation ← normalize p current.observation
    reviewed ← normalize p (record observation { public_feed = decided_feed (decided decision) })
    let review : Review = record {
      document_id = id;
      prior_eligibility = current.eligibility;
      eligibility = decided decision;
      operator = operator;
      note = trimmed_note note;
      decided_at = decided_at;
    }
    ok (
      review,
      record c {
        rows =
            update_rows id
              (λ r. record r {
                eligibility = decided decision;
                observation = reviewed;
                synchronized_at = decided_at;
              })
              c.rows;
        reviews = c.reviews ++ review ∷ [];
      },
    )
