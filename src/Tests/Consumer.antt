-- ===== src/Tests/Consumer.antt =====
-- The live consumer of news observations, at sample data.
use mayday_dispatch.Prelude.{refl, true, false, none, some, [], ◌∷◌, ℕ, leb, if◌then◌else◌}
use mayday_dispatch.Tests.{running}
use mayday_dispatch.Tests.Observations.{normalizing, platform, observation}
use mayday_dispatch.Gateway.Errors.{ok, err, live_consumer_error, LiveErrorCode}
use mayday_dispatch.Observations.Cache.{bounded}
use mayday_dispatch.Observations.Normal.{shown_observation, to_public_observation}
use mayday_dispatch.Observations.Provider.{
  ObservationQuery, ValidQuery, live, to_public_each, validate_observation_query,
}
use mayday_dispatch.Observations.Consumer.{
  Consumer, ConsumerOptions, Transport, Terms, healthy, initial_status, usable_credentials,
  with_retries, is_expired, attempts, note_failure, error_code, status_for,
}
use mayday_dispatch.Observations.Consumer.Requests.{
  list_live, fetch, shown_page, list_with, list_within, negotiate, checked_query, accepted_page,
  or_malformed, is_within_bytes, is_cursor,
}
use mayday_dispatch.Observations.Consumer.Listed.{Listed, list_live-Listed}

abbrev options : ConsumerOptions
options = record {
  credentials = some (record { bearer_token = "token"; expires_at = none });
  max_page_size = 20;
  max_pages_per_operation = 5;
  retry_ceiling = 1;
}

abbrev terms : Terms
terms = record {
  service_id = "intelligence";
  gets_observation = true;
  maximum_page_size = 10;
  filters_topic = false;
  maximum_response_bytes = 1000;
}

-- A service that times out at first; its state counts the calls.
abbrev transport : Transport ℕ
transport = record {
  discover_capabilities = λ k n. (ok none, n);
  get_status = λ k n. (ok (record { body = some healthy; bytes = some 15 }), n);
  list_observations = λ q k n.
      if leb n 0 then (err (live_consumer_error LiveErrorCode.timeout), 1) else (
        ok (record {
          body =
              some (record { observations = observation "doc-1" "Storm" ∷ []; next_cursor = none });
          bytes = some 500;
        }),
        2,
      );
  has_get_observation = false;
  get_observation = λ id k n. (ok none, n);
}

abbrev consumer : Consumer ℕ
consumer = record { status = initial_status; terms = some terms; audits = []; remote = 0 }

abbrev query : ObservationQuery
query = record { cursor = none; limit = none; topic = none; from = none; to = none }

abbrev valid : ValidQuery
valid = record { cursor = none; limit = 8; topic = none; from = none; to = none }

list_live-Listed_example :
    Listed platform 0 options transport
      (record {
        observations = shown_observation (observation "doc-1" "Storm") ∷ [];
        next_cursor = none;
        mode = live;
      })
      (list_live platform 0 options transport query consumer).1
unfolding running normalizing list_live list_with list_within negotiate checked_query with_retries
    fetch accepted_page or_malformed shown_page validate_observation_query usable_credentials
    is_expired attempts note_failure error_code status_for is_within_bytes is_cursor to_public_each
    to_public_observation shown_observation bounded
list_live-Listed_example = list_live-Listed platform 0 options transport query consumer _ refl
