-- ===== src/Gateway/Errors.antt =====
-- src/application/publication-gateway/errors.ts, and the exceptions that the other parts throw:
-- a computation that may throw returns a `Result`. Messages are left out, details are kept.
use mayday_dispatch.Prelude.{ℕ, ◌⊎◌, inl, inr, String, Bool, true, false, ◌≡◌, refl, Option, List}
use mayday_dispatch.Domain.Lifecycle.{LifecycleState}
use mayday_dispatch.Gateway.Readiness.{Finding}

pub data ErrorCode : Type 0 where
  validation_failed request_too_large unauthorized forbidden not_found conflict origin_conflict
        stale_version idempotency_conflict persistence_failure evidence_not_registered audit_failure
        invalid_transition evidence_policy_violation editorial_lock publication_locked
        internal_error :
      ErrorCode

unfoldable pub error_status : ErrorCode → ℕ
error_status validation_failed = 400
error_status request_too_large = 413
error_status unauthorized = 401
error_status forbidden = 403
error_status not_found = 404
error_status conflict = 409
error_status origin_conflict = 409
error_status stale_version = 409
error_status idempotency_conflict = 409
error_status persistence_failure = 503
error_status evidence_not_registered = 422
error_status audit_failure = 503
error_status invalid_transition = 409
error_status evidence_policy_violation = 422
error_status editorial_lock = 409
error_status publication_locked = 423
error_status internal_error = 500

-- The details of a `GatewayError`; of the issues of a refused schema only that there are some.
pub data Details : Type 0 where
  no_details issues : Details
  versions : (expected : ℕ) (current : Option ℕ) → Details
  existing_origin : (publication_id : String) (current_version : ℕ) → Details
  locked_draft : (publication_id : String) (current_version : ℕ) → LifecycleState → Details
  evidence_id : String → Details
  record_id : String → Details
  findings : List Finding → Details

-- What the steps of a persistence failure are called.
pub data Operation : Type 0 where
  audit release_manifest_integrity release_manifest_validation duplicate_evidence parent_evidence
        evidence_version publication_saving unregistered_association control_writing
        evidence_registration evidence_updating release_manifest_audit_integrity :
      Operation

-- The codes of a `LiveConsumerError` (src/news-observations/live-consumer.ts).
pub data LiveErrorCode : Type 0 where
  authentication_failed capability_incompatible rate_limited service_unavailable timeout
        invalid_response :
      LiveErrorCode

-- Everything that is thrown.
pub data Failure : Type 0 where
  gateway_error : ErrorCode → Details → Failure
  zod_error : Failure
  plain_error : Failure
  abort_error : Failure
  live_consumer_error : LiveErrorCode → Failure
  repository_concurrency_error : (expected : ℕ) (actual : Option ℕ) → Failure
  repository_idempotency_conflict_error : Failure
  repository_persistence_error : Operation → Failure

pub data Result {ℓ} (A : Type ℓ) : Type ℓ where
  ok : A → Result A
  err : Failure → Result A

module _ {ℓ κ} {A : Type ℓ} {B : Type κ} where
  infixl 5 ◌>>=◌
  -- A failure ends a block.
  abbrev pub ◌>>=◌ : Result A → (next : A → Result B) → Result B
  err failure >>= next = err failure
  ok value >>= next = next value

module _ {ℓ} {B : Type ℓ} where
  infixl 5 ◌>>◌
  abbrev pub ◌>>◌ : (test : Result (Unit {0})) → (rest : Result B) → Result B
  err failure >> rest = err failure
  ok _ >> rest = rest

-- `if (!test) throw failure`
abbrev pub require : Bool → Failure → Result (Unit {0})
require false failure = err failure
require true failure = ok tt

-- `if (test) throw failure`
abbrev pub forbid : Bool → Failure → Result (Unit {0})
forbid true failure = err failure
forbid false failure = ok tt

-- `parseRequest`, and each other `parse` of a schema whose refusal is made a gateway error
abbrev pub validation_error : Failure
validation_error = gateway_error validation_failed issues

-- `toGatewayError`
unfoldable pub to_gateway_error : Failure → ErrorCode × Details
to_gateway_error (gateway_error code details) = (code, details)
to_gateway_error zod_error = (validation_failed, issues)
to_gateway_error _ = (internal_error, no_details)

pub ok-injective {ℓ} : {A : Type ℓ} {a b : A} → ok a ≡ ok b → a ≡ b
ok-injective h = cc

-- Inversion of a block that succeeds, one step at a time.
module _ {ℓ κ} {A : Type ℓ} {B : Type κ} where
  pub >>=-eq-ok :
      (m : Result A) (next : A → Result B) {b : B}
      → (m >>= next) ≡ ok b
      → (value : A) × (m ≡ ok value) × (next value ≡ ok b)
  >>=-eq-ok (err failure) next h = cc
  >>=-eq-ok (ok value) next h = (value, refl, h)

module _ {ℓ} {B : Type ℓ} where
  pub require-eq-ok :
      (t : Bool) (e : Failure) (k : Result B) {b : B}
      → (require t e >> k) ≡ ok b
      → (t ≡ true) × (k ≡ ok b)
  require-eq-ok true e k h = (refl, h)
  require-eq-ok false e k h = cc

  pub forbid-eq-ok :
      (t : Bool) (e : Failure) (k : Result B) {b : B}
      → (forbid t e >> k) ≡ ok b
      → (t ≡ false) × (k ≡ ok b)
  forbid-eq-ok true e k h = cc
  forbid-eq-ok false e k h = (refl, h)

  pub >>-eq-ok :
      (m : Result (Unit {0})) (k : Result B) {b : B} → (m >> k) ≡ ok b → (m ≡ ok tt) × (k ≡ ok b)
  >>-eq-ok (ok tt) k h = (refl, h)
  >>-eq-ok (err e) k h = cc

pub Outcome-cases {ℓ} :
    {A : Type ℓ} (m : Result A) → ((a : A) × (m ≡ ok a)) ⊎ ((e : Failure) × (m ≡ err e))
Outcome-cases (ok a) = inl (a, refl)
Outcome-cases (err e) = inr (e, refl)
