-- ===== src/Gateway/Service/Attach/Usable.antt =====
-- What `resolveEvidence` of src/application/publication-gateway/service.ts lets a publication use.
use mayday_dispatch.Prelude.{
  String, ◌≡◌, refl, ◌∙◌, subst, true, false, Bool, ◌&&◌, not, Option, none, some, List, [], ◌∷◌,
  arith,
}
use mayday_dispatch.Domain.Citation.{is_disclosed}
use mayday_dispatch.Gateway.Errors.{ok, >>=-eq-ok, require-eq-ok, forbid-eq-ok, ok-injective}
use mayday_dispatch.Gateway.Authorization.{Actor}
use mayday_dispatch.Evidence.{RegisteredEvidence, ProcessingStatus, same_status}
use mayday_dispatch.Gateway.Service.{Gateway, is_external, resolve_evidence, resolve_one}
use mayday_dispatch.Gateway.Service.Attach.{first_of_list}

-- The registered evidence behind an id: it is ready and, for an external application, disclosed.
pub record Usable (g : Gateway) (actor : Option Actor) (id : String) (e : RegisteredEvidence)
    : Type 0 where
  pub known : g.registered id ≡ some e
  pub is_ready : e.status ≡ ProcessingStatus.ready
  pub disclosed : is_external actor ≡ true → is_disclosed e.visibility ≡ true

head-eq {ℓ} : {A : Type ℓ} {x y : A} {xs ys : List A} → x ∷ xs ≡ y ∷ ys → x ≡ y
head-eq h = cc

module _ (g : Gateway) (actor : Option Actor) where
  is_ready_status :
      (s : ProcessingStatus)
      → same_status s ProcessingStatus.ready ≡ true
      → s ≡ ProcessingStatus.ready
  is_ready_status s h = ground arith

  disclosed_to :
      (external disclosed : Bool)
      → (external && not disclosed) ≡ false
      → external ≡ true
      → disclosed ≡ true
  disclosed_to external disclosed h e = ground arith

  resolve_one-Usable :
      (o : Option RegisteredEvidence) (id : String) (e : RegisteredEvidence)
      → g.registered id ≡ o
      → resolve_one o id actor ≡ ok e
      → Usable g actor id e
  unfolding resolve_one
  resolve_one-Usable none id e known h = absurd (cc h)
  resolve_one-Usable (some x) id e known h =
      let (status, h1) = require-eq-ok (same_status x.status ProcessingStatus.ready) _ _ h in
      let (visible, h2) =
        forbid-eq-ok (is_external actor && not (is_disclosed x.visibility)) _ _ h1 in
      subst (Usable g actor id) (ok-injective h2) (record {
        known = known;
        is_ready = is_ready_status x.status status;
        disclosed = disclosed_to (is_external actor) (is_disclosed x.visibility) visible;
      })

  pub resolve_first-Usable :
      (id : String) (es : List RegisteredEvidence) (e : RegisteredEvidence)
      → resolve_evidence g.registered (id ∷ []) actor ≡ ok es
      → first_of_list es ≡ ok e
      → Usable g actor id e
  unfolding resolve_evidence first_of_list
  resolve_first-Usable id [] e h k = absurd (cc k)
  resolve_first-Usable id (x ∷ xs) e h k =
      let (y, found, h1) = >>=-eq-ok (resolve_one (g.registered id) id actor) _ h in
      let same : y ≡ e = head-eq (ok-injective h1) ∙ ok-injective k in
      subst (Usable g actor id) same (resolve_one-Usable (g.registered id) id y refl found)
