-- ===== src/Observations/Cache/Apply.antt =====
-- `applyPage` of src/news-observations/synchronized-cache.ts.
use mayday_dispatch.Prelude.{
  ℕ, ◌+◌, String, not, Option, none, some, List, [], ◌∷◌, ◌++◌, ◌==◌, if◌then◌else◌, length,
}
use mayday_dispatch.Observations.{Observation}
use mayday_dispatch.Observations.Cache.{
  Row, Cache, Checkpoint, OperationType, same_operation, find_row, update_rows, decided_feed,
}

pub record Counts : Type 0 where
  pub duplicates : ℕ
  pub revision_updates : ℕ

module _ (fingerprint : Observation → String) where
  abbrev pub new_row : String → Observation → Row
  new_row received_at o = record {
    document_id = o.identity.intelligence_document_id;
    fingerprint = fingerprint o;
    observation = o;
    eligibility = o.public_feed.eligibility;
    received_at = received_at;
    synchronized_at = received_at;
  }

  -- An observation whose text changed: the eligibility that is stored stays.
  abbrev pub revised : String → Observation → Row → Row
  revised received_at o r = record r {
    fingerprint = fingerprint o;
    observation = record o { public_feed = decided_feed r.eligibility };
    synchronized_at = received_at;
  }

  -- One round of the loop of `applyPage`.
  unfoldable pub apply_one : String → Observation → Counts × List Row → Counts × List Row
  unfolding find_row update_rows decided_feed
  apply_one received_at o (counts, rows) =
      let id = o.identity.intelligence_document_id in
      elim (find_row id rows) [
        | none ↦ (counts, rows ++ new_row received_at o ∷ [])
        | some existing ↦
            if not (existing.fingerprint == fingerprint o)
            then (
              record counts { revision_updates = counts.revision_updates + 1 },
              update_rows id (revised received_at o) rows,
            )
            else (record counts { duplicates = counts.duplicates + 1 }, rows)
      ]

  unfoldable pub apply_each : String → List Observation → Counts × List Row → Counts × List Row
  unfolding apply_one
  apply_each received_at [] state = state
  apply_each received_at (o ∷ os) state = apply_each received_at os (apply_one received_at o state)

  -- `INSERT … ON CONFLICT DO UPDATE` of the checkpoint
  unfoldable pub advance :
      OperationType → Option String → String → ℕ → Counts → List Checkpoint → List Checkpoint
  advance op cursor at n counts [] =
      record {
        operation_type = op;
        cursor = cursor;
        started_at = at;
        completed_at = at;
        pages_processed = 1;
        accepted = n;
        rejected = 0;
        duplicates = counts.duplicates;
        revision_updates = counts.revision_updates;
        last_successful_sync_at = some at;
      }
      ∷ []
  advance op cursor at n counts (k ∷ ks) =
      if same_operation k.operation_type op
      then record k {
        cursor = cursor;
        completed_at = at;
        pages_processed = k.pages_processed + 1;
        accepted = k.accepted + n;
        rejected = k.rejected + 0;
        duplicates = k.duplicates + counts.duplicates;
        revision_updates = k.revision_updates + counts.revision_updates;
        last_successful_sync_at = some at;
      }
        ∷ ks
      else k ∷ advance op cursor at n counts ks

  -- `applyPage`; `received_at` is the time of the call.
  unfoldable pub apply_page :
      (received_at : String)
      → OperationType
      → List Observation
      → Option String
      → Cache
      → Counts × Cache
  unfolding apply_each advance
  apply_page received_at op os cursor c =
      let (counts, rows) =
        apply_each received_at os (record { duplicates = 0; revision_updates = 0 }, c.rows) in
      (
        counts,
        record c {
          rows = rows;
          checkpoints = advance op cursor received_at (length os) counts c.checkpoints;
          advances = c.advances ++ (op, received_at) ∷ [];
        },
      )
