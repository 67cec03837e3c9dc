-- ===== src/Audit.antt =====
-- src/audit/events.ts: audit events, with their schema.
use mayday_dispatch.Prelude.{ℕ, String, Bool, not, ◌&&◌, Option, List, ◌==◌, leb, optionally}
use mayday_dispatch.Domain.Patterns.{Formats}
use mayday_dispatch.Domain.Publication.{RevisionType}
use mayday_dispatch.Gateway.Authorization.{Role}

pub data Outcome : Type 0 where
  succeeded rejected failed : Outcome

pub record AuditActor : Type 0 where
  pub subject_id : String
  pub roles : List Role
  pub application : Option String

pub record AuditEvent : Type 0 where
  pub id : String
  pub timestamp : String
  pub actor : AuditActor
  pub action : String
  pub publication_id : Option String
  pub correlation_id : String
  pub request_id : String
  pub previous_version : Option ℕ
  pub resulting_version : Option ℕ
  pub outcome : Outcome
  pub reason : Option String
  pub error_code : Option String
  pub revision_type : Option RevisionType

-- `z.string().min(1)`, with no trimming
abbrev pub is_filled : String → Bool
is_filled s = not (s == "")

-- The names of the roles are never empty.
unfoldable pub is_valid_audit_event : Formats → AuditEvent → Bool
is_valid_audit_event f e =
    f.is_uuid e.id
    && f.is_datetime e.timestamp
    && is_filled e.actor.subject_id
    && optionally is_filled e.actor.application
    && is_filled e.action
    && optionally f.is_uuid e.publication_id
    && is_filled e.correlation_id
    && is_filled e.request_id
    && optionally (leb 1) e.previous_version
    && optionally (leb 1) e.resulting_version
    && optionally is_filled e.reason
    && optionally is_filled e.error_code
