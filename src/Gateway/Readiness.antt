-- ===== src/Gateway/Readiness.antt =====
-- src/application/publication-gateway/readiness.ts: the findings on a publication that is to be
-- released. The messages of the findings are left out.
pub mod Criteria
use text.Mathlib.Text.{starts_with}
use mayday_dispatch.Prelude.{
  ◌≡◌, refl, String, Bool, true, false, not, ◌&&◌, ◌||◌, Option, none, some, List, [], ◌∷◌, ◌++◌,
  any, is_empty, ◌==◌, if◌then◌else◌,
}
use mayday_dispatch.Prelude.Text.{trim}
use mayday_dispatch.Domain.Json.{get, is_truthy, lookup, Json}
use mayday_dispatch.Domain.Citation.{
  Visibility, private, internal, EvidenceReference, is_visibility_public,
}
use mayday_dispatch.Domain.Publication.{Publication}

pub data Severity : Type 0 where
  error warning info : Severity

pub data FindingCode : Type 0 where
  missing_summary missing_citations restricted_evidence missing_geographic_scope
        missing_temporal_scope :
      FindingCode

pub record Finding : Type 0 where
  pub severity : Severity
  pub code : FindingCode

pub record Readiness : Type 0 where
  pub ready : Bool
  pub findings : List Finding

-- `if (test) findings.push(…)`
abbrev pub finding_if : Bool → Severity → FindingCode → List Finding
finding_if b severity code = if b then record { severity = severity; code = code } ∷ [] else []

abbrev pub is_restricted : Visibility → Bool
is_restricted private = true
is_restricted internal = true
is_restricted _ = false

-- The types for which a geographic and a temporal scope are asked.
unfoldable pub is_assessment : String → Bool
is_assessment kind =
    starts_with kind "overwatch-" || kind == "situation-report" || kind == "intelligence-brief"

-- `extensions.overwatch?.assessment?.[scope]`
unfoldable pub scope_of : Publication → String → Option Json
unfolding lookup get
scope_of p scope = get (get (lookup "overwatch" p.extensions) "assessment") scope

unfoldable pub scope_findings : Publication → List Finding
unfolding scope_of is_assessment
scope_findings p =
    if is_assessment p.kind
    then finding_if (not (is_truthy (scope_of p "geographicScope"))) warning
        missing_geographic_scope
      ++ finding_if (not (is_truthy (scope_of p "temporalScope"))) warning missing_temporal_scope
    else []

abbrev pub is_severe : Severity → Bool
is_severe error = true
is_severe _ = false

-- `finding.severity === "error"`
abbrev pub is_error : Finding → Bool
is_error e = is_severe e.severity

unfoldable pub findings_of : Publication → List Finding
unfolding trim
findings_of p =
    finding_if (trim p.excerpt == "") error missing_summary
    ++ (finding_if (is_empty p.sources) warning missing_citations
        ++ (finding_if
              (is_visibility_public p.visibility
                && any (λ e. is_restricted e.visibility) p.evidence)
              error restricted_evidence
            ++ scope_findings p))

unfoldable pub validate_publication_readiness : Publication → Readiness
unfolding findings_of
validate_publication_readiness p = record {
  ready = not (any is_error (findings_of p));
  findings = findings_of p;
}
