-- ===== src/Gateway/Authorization/Grants.antt =====
-- The rights of each role, stated apart from the order of the tests.
use mayday_dispatch.Prelude.{
  ◌≡◌, true, Option, some, List, [], ◌∷◌, any, arith, ||-eq-true, ◌⊎◌, inl, inr, Memᴰ, ◌≢◌, Bool,
  String, none, ◌↔◌, eq_iff, &&-eq-true, refl, sym, ◌∙◌, false, ◌&&◌, ◌||◌,
}
use mayday_dispatch.Domain.Lifecycle.{draft, LifecycleState, same_state}
use mayday_dispatch.Domain.Publication.{Publication}
use mayday_dispatch.Gateway.Authorization.{
  Role, external_application, editor, publisher, admin, Actor, Action, create_draft, list, retrieve,
  update, attach_evidence, transition, same_role, assert_can, allows, owns_external_application,
  has_role, read_public, names_application, ok, allow_if,
}

abbrev pub Holds : Role → Actor → Type 0
Holds r a = Memᴰ r a.roles

-- An application acts for a publication of its own: it has the role, and it is named by the
-- publication's origin.
pub record Owns (a : Actor) (p : Publication) : Type 0 where
  pub role : Holds external_application a
  pub named : a.originating_application ≡ some p.provenance.origin.originating_application
  pub not_blank : p.provenance.origin.originating_application ≢ ""

-- The rights: each line of the documented table is one constructor.
pub data Granted (a : Actor) : Action → Option Publication → Type 0 where
  administers : (action : Action) (p : Option Publication) → Holds admin a → Granted a action p
  drafts_as_application :
      (p : Option Publication) → Holds external_application a → Granted a create_draft p
  drafts_as_editor : (p : Option Publication) → Holds editor a → Granted a create_draft p
  lists : (p : Option Publication) → Holds editor a ⊎ Holds publisher a → Granted a list p
  edits : (p : Publication) → Holds editor a → Granted a update (some p)
  synchronizes : (p : Publication) → Owns a p → Granted a update (some p)
  reads : (p : Publication) → Holds editor a ⊎ Holds publisher a → Granted a retrieve (some p)
  reads_own : (p : Publication) → Owns a p → Granted a retrieve (some p)
  attaches :
      (p : Publication) → Holds editor a ⊎ Holds publisher a → Granted a attach_evidence (some p)
  attaches_own :
      (p : Publication) → Owns a p → p.lifecycle_state ≡ draft → Granted a attach_evidence (some p)
  moves : (p : Publication) → Holds editor a ⊎ Holds publisher a → Granted a transition (some p)

same_role-eq : (r s : Role) → same_role r s ≡ true → r ≡ s
same_role-eq r s h = ground arith

same_role_refl : (r : Role) → same_role r r ≡ true
same_role_refl r = ground arith

any-Memᴰ : (r : Role) (rs : List Role) → any (same_role r) rs ≡ true → Memᴰ r rs
any-Memᴰ r [] h = cc
any-Memᴰ r (s ∷ rs) h = elim (||-eq-true (same_role r s) (any (same_role r) rs) h) [
  | inl e ↦ Memᴰ.head (same_role-eq r s e)
  | inr e ↦ Memᴰ.tail (any-Memᴰ r rs e)
]

Memᴰ-any : (r : Role) {rs : List Role} → Memᴰ r rs → any (same_role r) rs ≡ true
Memᴰ-any r (Memᴰ.head {xs} e) = rw (← e, same_role_refl r)
Memᴰ-any r (Memᴰ.tail {x} {xs} m) = ground (arith, Memᴰ-any r m)

module _ (a : Actor) where
  holds : (r : Role) → has_role r a ≡ true → Holds r a
  holds r h = any-Memᴰ r a.roles h

  has : (r : Role) → Holds r a → has_role r a ≡ true
  has r m = Memᴰ-any r m

  either_role :
      (has_role editor a || has_role publisher a) ≡ true → Holds editor a ⊎ Holds publisher a
  either_role h = elim (||-eq-true (has_role editor a) (has_role publisher a) h) [
    | inl e ↦ inl (holds editor e)
    | inr e ↦ inr (holds publisher e)
  ]

  has_either :
      Holds editor a ⊎ Holds publisher a → (has_role editor a || has_role publisher a) ≡ true
  has_either (inl m) = rw (has editor m)
  has_either (inr m) = ground (arith, has publisher m)

  named-eq :
      (o : Option String) (s : String) → (names_application o s ≡ true) ↔ ((o ≡ some s) × (s ≢ ""))
  named-eq none s = (λ h. cc, λ h. cc (h.0))
  named-eq (some t) s = (
    (λ h. (ground (arith, eq_iff t s, eq_iff t ""), λ e. ground (arith, eq_iff t s, eq_iff t ""))),
    (λ h. ground (arith, eq_iff t s, eq_iff t "", h.0, h.1)),
  )

  owned : (p : Publication) → (owns_external_application a p ≡ true) ↔ Owns a p
  unfolding owns_external_application
  owned p =
      let (to, from) =
        named-eq a.originating_application p.provenance.origin.originating_application in
      (
        (λ h.
            let (role, named) = &&-eq-true (has_role external_application a) _ h in
            let (name, filled) = to named in
            record { role = holds external_application role; named = name; not_blank = filled }),
        (λ o. rw (has external_application o.role) (from (o.named, o.not_blank))),
      )

  allow_if-eq-ok : (b : Bool) → (allow_if b ≡ ok tt) ↔ (b ≡ true)
  allow_if-eq-ok true = (λ h. refl, λ h. refl)
  allow_if-eq-ok false = (λ h. cc, λ h. cc)

  Granted-allows :
      (action : Action) (p : Option Publication)
      → Granted a action p
      → (has_role admin a || allows action a p) ≡ true
  unfolding allows
  Granted-allows action p (administers action' p' m) = rw (has admin m)
  Granted-allows action p (drafts_as_application p' m) = ground (arith, has external_application m)
  Granted-allows action p (drafts_as_editor p' m) = ground (arith, has editor m)
  Granted-allows action p (lists p' m) = ground (arith, has_either m)
  Granted-allows action p (edits q m) = ground (arith, has editor m)
  Granted-allows action p (synchronizes q o) = ground (arith, (owned q).1 o)
  Granted-allows action p (reads q m) = ground (arith, has_either m)
  Granted-allows action p (reads_own q o) = ground (arith, (owned q).1 o)
  Granted-allows action p (attaches q m) = ground (arith, has_either m)
  Granted-allows action p (attaches_own q o d) = ground (arith, (owned q).1 o)
  Granted-allows action p (moves q m) = ground (arith, has_either m)

  is_draft : (s : LifecycleState) → same_state s draft ≡ true → s ≡ draft
  is_draft s h = ground arith

  allows-Granted :
      (action : Action) (p : Option Publication) → allows action a p ≡ true → Granted a action p
  unfolding allows
  allows-Granted create_draft p h =
      elim (||-eq-true (has_role external_application a) (has_role editor a) h) [
        | inl e ↦ drafts_as_application p (holds external_application e)
        | inr e ↦ drafts_as_editor p (holds editor e)
      ]
  allows-Granted list p h = lists p (either_role h)
  allows-Granted update (some p) h =
      elim (||-eq-true (has_role editor a) (owns_external_application a p) h) [
        | inl e ↦ edits p (holds editor e)
        | inr e ↦ synchronizes p ((owned p).0 e)
      ]
  allows-Granted retrieve (some p) h =
      elim (||-eq-true (has_role editor a || has_role publisher a) (owns_external_application a p)
        h) [ inl e ↦ reads p (either_role e) | inr e ↦ reads_own p ((owned p).0 e) ]
  allows-Granted attach_evidence (some p) h =
      elim (||-eq-true (has_role editor a || has_role publisher a)
        (owns_external_application a p && same_state p.lifecycle_state draft) h) [
          | inl e ↦ attaches p (either_role e)
          | inr e ↦
              let (own, d) =
                &&-eq-true (owns_external_application a p) (same_state p.lifecycle_state draft) e in
              attaches_own p ((owned p).0 own) (is_draft p.lifecycle_state d)
        ]
  allows-Granted transition (some p) h = moves p (either_role h)
  allows-Granted read_public (some p) h = cc
  allows-Granted _ none h = cc

assert_can-some :
    (action : Action) (a : Actor) (p : Option Publication)
    → action ≢ read_public
    → assert_can action (some a) p ≡ allow_if (has_role admin a || allows action a p)
unfolding assert_can
assert_can-some read_public a p ne = absurd (ne refl)
assert_can-some _ a p ne = refl

-- An identified actor passes the check of an action other than the public read exactly if a right
-- is granted; the public read needs no right.
pub assert_can_iff :
    (action : Action) (a : Actor) (p : Option Publication)
    → action ≢ read_public
    → (assert_can action (some a) p ≡ ok tt) ↔ Granted a action p
assert_can_iff action a p ne = (
  (λ h. granted (
      (allow_if-eq-ok a (has_role admin a || allows action a p)).0
        (sym (assert_can-some action a p ne) ∙ h))),
  (λ g.
      assert_can-some action a p ne
      ∙ (allow_if-eq-ok a (has_role admin a || allows action a p)).1 (Granted-allows a action p g)),
)
  where
    granted : (has_role admin a || allows action a p) ≡ true → Granted a action p
    granted h = elim (||-eq-true (has_role admin a) (allows action a p) h) [
      | inl e ↦ administers action p (holds a admin e)
      | inr e ↦ allows-Granted a action p e
    ]

-- Without an actor only the public read passes.
assert_can-anonymous :
    (action : Action) (p : Option Publication)
    → (assert_can action none p ≡ ok tt) ↔ (action ≡ read_public)
unfolding assert_can
assert_can-anonymous action p = (λ h. ground arith, λ h. ground arith)
