-- ===== src/Evidence/Registry.antt =====
-- src/evidence/registry.ts: the evidence registry in memory.
pub mod Laws
use mayday_dispatch.Prelude.{
  ℕ, String, Bool, true, false, ◌&&◌, Option, none, some, List, [], ◌∷◌, ◌==◌, eqb, if◌then◌else◌,
  is_some, not, zero, suc, ◌+◌, ◌-◌, ◌≤◌, ◌<◌, ◌≡◌, refl, sym, ap, ◌∙◌, subst, ◌≢◌, ◌↔◌, ◌⊎◌, inl,
  inr, ◌||◌, ◌++◌, map, Memᴰ, arith, eq_iff, ltb, leb, Bool-cases, &&-eq-true, ||-eq-true,
  not-eq-true, eqb→eq, eqb_refl, ne→eqb, eq_text, ne_text, Option-cases, or_else, or_option,
  optionally, same_text?, length, any, all, keep, find, is_empty, includes, All, All-mem, all-any,
  find-true, eq_refl,
}
use mayday_dispatch.Prelude.Text.{join}
use mayday_dispatch.Domain.Patterns.{Formats}
use mayday_dispatch.Gateway.Errors.{Result, ok, err, plain_error, zod_error, ◌>>◌, require, forbid}
use mayday_dispatch.Evidence.{RegisteredEvidence, is_valid_evidence, parsed_evidence}

pub record Registry : Type 0 where
  pub evidence : List RegisteredEvidence
  -- by storage key
  pub answers : List (String × RegisteredEvidence)

-- The scope and the key of `EvidenceSaveOptions.idempotency`; the registry in memory stores neither
-- its hash nor an audit event.
pub record EvidenceKey : Type 0 where
  pub actor_scope : String
  pub key : String

unfoldable pub get_evidence : String → List RegisteredEvidence → Option RegisteredEvidence
get_evidence id [] = none
get_evidence id (e ∷ es) = if e.id == id then some e else get_evidence id es

-- `evidence.set(e.id, e)`: an id that is there keeps its place.
unfoldable pub set_evidence : RegisteredEvidence → List RegisteredEvidence → List RegisteredEvidence
set_evidence e [] = e ∷ []
set_evidence e (old ∷ es) = if old.id == e.id then e ∷ es else old ∷ set_evidence e es

-- `getRegisteredEvidence`
unfoldable pub get_registered_evidence : Registry → String → Option RegisteredEvidence
unfolding get_evidence
get_registered_evidence s id = get_evidence id s.evidence

-- `idempotency.set(storageKey, e)`
unfoldable pub set_answer :
    String
    → RegisteredEvidence
    → List (String × RegisteredEvidence)
    → List (String × RegisteredEvidence)
set_answer k e [] = (k, e) ∷ []
set_answer k e (a ∷ answers) = if a.0 == k then (k, e) ∷ answers else a ∷ set_answer k e answers

unfoldable pub answer_key : EvidenceKey → String
answer_key k = join k.actor_scope (join ":" k.key)

unfoldable pub note_answer : Option EvidenceKey → RegisteredEvidence → Registry → Registry
unfolding set_answer answer_key
note_answer none e s = s
note_answer (some k) e s = record s { answers = set_answer (answer_key k) e s.answers }

unfoldable pub store_evidence : RegisteredEvidence → Registry → Registry
unfolding set_evidence
store_evidence e s = record s { evidence = set_evidence e s.evidence }

-- A change that is made only if its checks pass.
abbrev pub checked :
    Result (Unit {0})
    → RegisteredEvidence
    → Registry
    → Registry
    → Result RegisteredEvidence × Registry
checked (ok tt) e changed s = (ok e, changed)
checked (err failure) e changed s = (err failure, s)

abbrev pub has_version : Option RegisteredEvidence → ℕ → Bool
has_version none n = false
has_version (some e) n = eqb e.version n

module _ (f : Formats) where
  -- `register`
  unfoldable pub register :
      RegisteredEvidence → Option EvidenceKey → Registry → Result RegisteredEvidence × Registry
  unfolding get_registered_evidence store_evidence note_answer
  register e key s =
      let registered = parsed_evidence e in
      checked
        (do
          require (is_valid_evidence f e) zod_error
          forbid (is_some (get_registered_evidence s registered.id)) plain_error)
        registered (note_answer key registered (store_evidence registered s)) s

  -- `updateEvidence`
  unfoldable pub update_evidence :
      RegisteredEvidence → (expected : ℕ) → Registry → Result RegisteredEvidence × Registry
  unfolding get_registered_evidence store_evidence
  update_evidence e expected s =
      let updated = parsed_evidence e in
      checked
        (do
          require (has_version (get_registered_evidence s e.id) expected) plain_error
          require (is_valid_evidence f e) zod_error)
        updated (store_evidence updated s) s
