-- ===== src/Repository/Control.antt =====
-- src/publications/repository.ts: the publication lockdown of the repository in memory.
use mayday_dispatch.Prelude.{◌+◌, Bool, true, false, not, [], ◌∷◌, ◌++◌, if◌then◌else◌, String}
use mayday_dispatch.Gateway.Authorization.{Actor}
use mayday_dispatch.Repository.{Lockdown, Repository}

abbrev pub same_flag : Bool → Bool → Bool
same_flag true b = b
same_flag false b = not b

-- `setPublicationLockdown`; the id of the event is the platform's `randomUUID`.
unfoldable pub set_publication_lockdown :
    (event_id : String)
    → Bool
    → Actor
    → (correlation_id request_id timestamp : String) → Repository
    → Lockdown × Repository
set_publication_lockdown event_id enabled actor correlation_id request_id timestamp r =
    if same_flag r.lockdown.enabled enabled
    then (r.lockdown, r)
    else let lockdown : Lockdown = record {
      enabled = enabled;
      version = r.lockdown.version + 1;
      changed_at = timestamp;
      changed_by_subject = actor.subject_id;
    } in
      (
        lockdown,
        record r {
          lockdown = lockdown;
          operational_audit_events =
              r.operational_audit_events
              ++ record {
                id = event_id;
                timestamp = timestamp;
                actor_subject = actor.subject_id;
                actor_roles = actor.roles;
                actor_application = actor.originating_application;
                activated = enabled;
                resulting_version = lockdown.version;
                correlation_id = correlation_id;
                request_id = request_id;
              }
                ∷ [];
        },
      )
