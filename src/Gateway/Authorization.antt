-- ===== src/Gateway/Authorization.antt =====
-- src/application/publication-gateway/authorization.ts: who may do what.
pub mod Grants
use mayday_dispatch.Prelude.{
  String, Bool, true, false, not, ◌&&◌, ◌||◌, Option, none, some, List, [], ◌∷◌, any, is_some,
  same_text?, ◌==◌,
}
use mayday_dispatch.Domain.Lifecycle.{LifecycleState, draft, same_state}
use mayday_dispatch.Domain.Publication.{Publication}
use mayday_dispatch.Gateway.Errors.{
  Result, ok, err, gateway_error, unauthorized, forbidden, no_details, Failure,
}

pub data Role : Type 0 where
  external_application editor publisher admin operator public_reader : Role

abbrev pub same_role : Role → Role → Bool
same_role external_application external_application = true
same_role editor editor = true
same_role publisher publisher = true
same_role admin admin = true
same_role operator operator = true
same_role public_reader public_reader = true
same_role _ _ = false

pub data AuthenticationMethod : Type 0 where
  application_credential editorial_session development : AuthenticationMethod

pub record Actor : Type 0 where
  pub subject_id : String
  pub roles : List Role
  pub originating_application : Option String
  pub authentication_method : Option AuthenticationMethod

pub data Action : Type 0 where
  create_draft list retrieve update attach_evidence transition read_public : Action

-- `actor.roles.includes(role)`
abbrev pub has_role : Role → Actor → Bool
has_role r a = any (same_role r) a.roles

-- `hasAnyRole(actor, ["editor", "publisher"])`; the other calls are `has_role`s joined likewise.
abbrev pub is_editor_or_publisher : Actor → Bool
is_editor_or_publisher a = has_role editor a || has_role publisher a

-- `Boolean(a) && a === b`
abbrev pub names_application : Option String → String → Bool
names_application none b = false
names_application (some a) b = not (a == "") && a == b

unfoldable pub owns_external_application : Actor → Publication → Bool
owns_external_application a p =
    has_role external_application a
    && names_application a.originating_application p.provenance.origin.originating_application

abbrev pub forbidden_error : Failure
forbidden_error = gateway_error forbidden no_details

abbrev pub allow_if : Bool → Result (Unit {0})
allow_if true = ok tt
allow_if false = err forbidden_error

-- The tests on an actor that is no administrator.
unfoldable pub allows : Action → Actor → Option Publication → Bool
unfolding owns_external_application
allows create_draft a p = has_role external_application a || has_role editor a
allows list a p = is_editor_or_publisher a
allows _ a none = false
allows update a (some p) = has_role editor a || owns_external_application a p
allows retrieve a (some p) = is_editor_or_publisher a || owns_external_application a p
allows attach_evidence a (some p) =
    is_editor_or_publisher a
    || (owns_external_application a p && same_state p.lifecycle_state draft)
allows transition a (some p) = is_editor_or_publisher a
allows read_public a (some p) = false

-- `assertCan`
unfoldable pub assert_can : Action → Option Actor → Option Publication → Result (Unit {0})
unfolding allows
assert_can read_public a p = ok tt
assert_can action none p = err (gateway_error unauthorized no_details)
assert_can action (some a) p = allow_if (has_role admin a || allows action a p)
