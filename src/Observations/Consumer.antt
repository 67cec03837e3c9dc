-- ===== src/Observations/Consumer.antt =====
-- src/news-observations/live-consumer.ts: the provider that asks the intelligence service. The
-- transport is an interface with a state `S`; an answer is a value of the shape that is asked for,
-- or none when the body has another shape, with the size of its text in bytes, or none when it
-- cannot be written as JSON.
pub mod Requests
pub mod Retries
pub mod Accepted
pub mod Listed
use mayday_dispatch.Prelude.{
  ℕ, zero, suc, String, Bool, true, false, not, ◌&&◌, ◌||◌, Option, none, some, List, [], ◌∷◌, ◌++◌,
  ◌==◌, eqb, leb, if◌then◌else◌, keep, length, is_some, all,
}
use mayday_dispatch.Prelude.Text.{codes, utf16_length}
use mayday_dispatch.Domain.Patterns.{is_letter, is_digit}
use mayday_dispatch.Domain.Json.{Decimal, positive_int}
use mayday_dispatch.Gateway.Errors.{
  Result, ok, err, Failure, LiveErrorCode, authentication_failed, capability_incompatible,
  rate_limited, service_unavailable, timeout, invalid_response, abort_error, live_consumer_error,
  ◌>>=◌, ◌>>◌, require, forbid,
}
use mayday_dispatch.Observations.{Platform, Observation, protocol_name}
use mayday_dispatch.Observations.Schema.{is_eligible}
use mayday_dispatch.Observations.Normal.{
  PublicObservation, normalize, normalize_all, to_public_observation,
}
use mayday_dispatch.Observations.Sync.{SourcePage, is_absent, min}
use mayday_dispatch.Observations.Provider.{
  Mode, ObservationQuery, ValidQuery, ObservationPage, live, degraded, unavailable, present_text,
  validate_observation_query, to_public_each,
}

-- `ConsumerCapabilitiesSchema`, as it is sent; the literals that are Booleans are Booleans here.
pub record Capabilities : Type 0 where
  pub service_id : String
  pub api_version : String
  pub observation_schema_version : String
  pub lists_observations : Bool
  pub gets_observation : Bool
  pub pagination_method : String
  pub maximum_page_size : Decimal
  pub filters_topic : Bool
  pub filters_temporal : Bool
  pub has_provenance : Bool
  pub has_source : Bool
  pub has_geography : Bool
  pub has_health : Bool
  pub maximum_response_bytes : Decimal

-- What the consumer reads of capabilities that it accepted.
pub record Terms : Type 0 where
  pub service_id : String
  pub gets_observation : Bool
  pub maximum_page_size : ℕ
  pub filters_topic : Bool
  pub maximum_response_bytes : ℕ

-- `z.number().int().min(1).max(limit)`
unfoldable pub limited : ℕ → Decimal → Option ℕ
unfolding positive_int
limited limit d = elim (positive_int d) [
  | none ↦ none
  | some n ↦ if leb n limit then some n else none
]

unfoldable pub is_compatible : Capabilities → Bool
is_compatible c =
    not (c.service_id == "")
    && leb (utf16_length c.service_id) 200
    && c.api_version == "mayday.intelligence-consumer/1"
    && c.observation_schema_version == protocol_name
    && c.lists_observations
    && c.pagination_method == "cursor"
    && c.filters_temporal
    && c.has_provenance
    && c.has_source
    && c.has_geography
    && c.has_health

-- `ConsumerCapabilitiesSchema.parse`
unfoldable pub terms_of : Capabilities → Option Terms
unfolding limited is_compatible
terms_of c = elim (limited 100 c.maximum_page_size) [
  | none ↦ none
  | some size ↦ elim (limited 5000000 c.maximum_response_bytes) [
    | none ↦ none
    | some bytes ↦
        if is_compatible c
        then some (record {
          service_id = c.service_id;
          gets_observation = c.gets_observation;
          maximum_page_size = size;
          filters_topic = c.filters_topic;
          maximum_response_bytes = bytes;
        })
        else none
  ]
]

pub record Credentials : Type 0 where
  pub bearer_token : String
  pub expires_at : Option String

pub record Answer (A : Type 0) : Type 0 where
  pub body : Option A
  pub bytes : Option ℕ

pub data Health : Type 0 where
  healthy maintenance out_of_service : Health

pub record RawPage : Type 0 where
  pub observations : List Observation
  pub next_cursor : Option String

-- `IntelligenceConsumerTransport`
pub record Transport (S : Type 0) : Type 0 where
  pub discover_capabilities : Credentials → S → Result (Option Capabilities) × S
  pub get_status : Credentials → S → Result (Answer Health) × S
  pub list_observations : ValidQuery → Credentials → S → Result (Answer RawPage) × S
  pub has_get_observation : Bool
  -- an answer of none stands for `undefined` and `null`
  pub get_observation : String → Credentials → S → Result (Option (Answer Observation)) × S

pub data AuditType : Type 0 where
  capability_negotiated capability_rejected authentication_rejected retrieval_failed
        malformed_observation_rejected rate_limit_met timed_out service_missing :
      AuditType

-- The status; its detail is the code of the last error.
pub record Status : Type 0 where
  pub mode : Mode
  pub detail : Option LiveErrorCode

-- The fields that change, with the events that were audited and the state of the transport.
pub record Consumer (S : Type 0) : Type 0 where
  pub status : Status
  pub terms : Option Terms
  pub audits : List (AuditType × Option String)
  pub remote : S

abbrev pub initial_status : Status
initial_status = record { mode = unavailable; detail = some service_unavailable }

abbrev pub live_status : Status
live_status = record { mode = live; detail = none }

-- `statusFor`
unfoldable pub status_for : LiveErrorCode → Status
status_for authentication_failed = record {
  mode = unavailable;
  detail = some authentication_failed;
}
status_for capability_incompatible = record {
  mode = unavailable;
  detail = some capability_incompatible;
}
status_for code = record { mode = degraded; detail = some code }

-- `errorCode`
unfoldable pub error_code : Failure → LiveErrorCode
error_code (live_consumer_error code) = code
error_code abort_error = timeout
error_code _ = service_unavailable

abbrev pub audit_of : LiveErrorCode → AuditType
audit_of timeout = timed_out
audit_of rate_limited = rate_limit_met
audit_of service_unavailable = service_missing
audit_of _ = retrieval_failed

-- The errors that are not tried again.
abbrev pub is_final : LiveErrorCode → Bool
is_final authentication_failed = true
is_final capability_incompatible = true
is_final invalid_response = true
is_final _ = false

pub record ConsumerOptions : Type 0 where
  pub credentials : Option Credentials
  pub max_page_size : ℕ
  pub max_pages_per_operation : ℕ
  pub retry_ceiling : ℕ

-- The test of the constructor.
unfoldable pub has_valid_bounds : ConsumerOptions → Bool
has_valid_bounds o =
    leb 1 o.max_page_size
    && leb o.max_page_size 100
    && leb 1 o.max_pages_per_operation
    && leb o.retry_ceiling 3

abbrev pub Action : Type 0 → Type 0 → Type 0
Action S A = Consumer S → Result A × Consumer S

module _ {S : Type 0} where
  abbrev pub audited : AuditType → Option String → Consumer S → Consumer S
  audited type detail c = record c { audits = c.audits ++ (type, detail) ∷ [] }

  -- The `catch` of one attempt.
  unfoldable pub note_failure : LiveErrorCode → Consumer S → Consumer S
  unfolding status_for
  note_failure code c = record c {
    status = status_for code;
    audits = c.audits ++ (audit_of code, none) ∷ [];
  }

module _ {S A : Type 0} where
  -- The loop of `withRetries`, with the number of attempts that may follow the next one.
  unfoldable pub attempts : ℕ → Action S A → Consumer S → Result A × Consumer S
  unfolding note_failure error_code
  attempts zero action c =
      let (result, c') = action c in
      elim result [ ok a ↦ (ok a, c') | err e ↦ (err e, note_failure (error_code e) c') ]
  attempts (suc n) action c =
      let (result, c') = action c in
      elim result [
        | ok a ↦ (ok a, c')
        | err e ↦ elim (is_final (error_code e)) [
          | true ↦ (err e, note_failure (error_code e) c')
          | false ↦ attempts n action (note_failure (error_code e) c')
        ]
      ]

module _ (p : Platform) (now : ℕ) where
  -- `expiresAt` is given, and is no date or a date that is over
  unfoldable pub is_expired : Option String → Bool
  is_expired none = false
  is_expired (some s) = elim (p.date_parse s) [ none ↦ true | some t ↦ leb t now ]

  -- The credentials, when they may be used.
  unfoldable pub usable_credentials : Option Credentials → Option Credentials
  unfolding is_expired
  usable_credentials none = none
  usable_credentials (some k) =
      if k.bearer_token == "" || is_expired k.expires_at then none else some k

  -- `withRetries`
  unfoldable pub with_retries :
      {S A : Type 0}
      → ConsumerOptions
      → (Credentials → Action S A)
      → Consumer S
      → Result A × Consumer S
  unfolding usable_credentials attempts status_for
  with_retries o action c = elim (usable_credentials o.credentials) [
    | none ↦ (
      err (live_consumer_error authentication_failed),
      audited authentication_rejected none (record c { status = status_for authentication_failed }),
    )
    | some k ↦ attempts o.retry_ceiling (action k) c
  ]
