-- ===== src/Gateway/Service/Slugs.antt =====
-- No two stored publications share a slug: what `assertSlugAvailable` of
-- src/application/publication-gateway/service.ts is for.
pub mod Free
pub mod Kept
use mayday_dispatch.Prelude.{
  String, ◌≡◌, refl, sym, ap, ◌∙◌, subst, ◌⊎◌, inl, inr, true, false, not, Bool, Option, none, some,
  List, [], ◌∷◌, Memᴰ, ◌==◌, find, Bool-cases, same_text?, eq_text, eq_refl, if◌then◌else◌, ℕ, zero,
  suc, ◌+◌, ◌-◌, ◌≤◌, ◌<◌, ◌≢◌, ◌↔◌, ◌&&◌, ◌||◌, ◌++◌, map, arith, eq_iff, ltb, leb, eqb,
  &&-eq-true, ||-eq-true, not-eq-true, eqb→eq, eqb_refl, ne→eqb, ne_text, Option-cases, is_some,
  or_else, or_option, optionally, length, any, all, keep, is_empty, includes, All, All-mem, all-any,
  find-true,
}
use mayday_dispatch.Domain.Publication.{Publication}
use mayday_dispatch.Gateway.Errors.{Result, ok, forbid}
use mayday_dispatch.Repository.{
  Repository, set_publication, find_by_slug, find_by_id, get_publication,
}
use mayday_dispatch.Gateway.Service.{is_other, assert_slug_available}
use mayday_dispatch.Gateway.Service.Update.{check_slug}
use mayday_dispatch.Gateway.Service.Update.Prepared.{forbid-false}

-- Publications with the same slug have the same id.
unfoldable pub OneSlug : Repository → Type 0
OneSlug r =
    (p q : Publication)
    → Memᴰ p r.publications
    → Memᴰ q r.publications
    → p.slug ≡ q.slug
    → p.id ≡ q.id

-- Only the publication of this id may have the slug.
pub SlugFree : (id slug : String) → Repository → Type 0
SlugFree id slug r = (y : Publication) → Memᴰ y r.publications → y.slug ≡ slug → y.id ≡ id

placed :
    (same : Bool) (q x p : Publication) (ps rest : List Publication)
    → (Memᴰ x rest → (x ≡ q) ⊎ Memᴰ x ps)
    → Memᴰ x (if same then q ∷ ps else p ∷ rest)
    → (x ≡ q) ⊎ Memᴰ x (p ∷ ps)
placed true q x p ps rest f (Memᴰ.head e) = inl e
placed true q x p ps rest f (Memᴰ.tail m) = inr (Memᴰ.tail m)
placed false q x p ps rest f (Memᴰ.head e) = inr (Memᴰ.head e)
placed false q x p ps rest f (Memᴰ.tail m) = elim (f m) [
  | inl e ↦ inl e
  | inr t ↦ inr (Memᴰ.tail t)
]

pub set_publication-Memᴰ :
    (q x : Publication) (ps : List Publication)
    → Memᴰ x (set_publication q ps)
    → (x ≡ q) ⊎ Memᴰ x ps
unfolding set_publication
set_publication-Memᴰ q x [] (Memᴰ.head e) = inl e
set_publication-Memᴰ q x [] (Memᴰ.tail m) = inr m
set_publication-Memᴰ q x (p ∷ ps) m =
    placed (p.id == q.id) q x p ps (set_publication q ps) (set_publication-Memᴰ q x ps) m

pub set-OneSlug :
    (q : Publication) (r r' : Repository)
    → r'.publications ≡ set_publication q r.publications
    → OneSlug r
    → SlugFree q.id q.slug r
    → OneSlug r'
unfolding OneSlug SlugFree
set-OneSlug q r r' stored one free x y mx my same =
    elim (set_publication-Memᴰ q x r.publications (subst (Memᴰ x) stored mx)) [
      | inl ex ↦ elim (set_publication-Memᴰ q y r.publications (subst (Memᴰ y) stored my)) [
        | inl ey ↦ ap (λ (p : Publication). p.id) (ex ∙ sym ey)
        | inr ty ↦
            ap (λ (p : Publication). p.id) ex
            ∙ sym (free y ty (sym same ∙ ap (λ (p : Publication). p.slug) ex))
      ]
      | inr tx ↦ elim (set_publication-Memᴰ q y r.publications (subst (Memᴰ y) stored my)) [
        | inl ey ↦
            free x tx (same ∙ ap (λ (p : Publication). p.slug) ey)
            ∙ sym (ap (λ (p : Publication). p.id) ey)
        | inr ty ↦ one x y tx ty same
      ]
    ]

find-Memᴰ :
    (slug : String) (y : Publication) (ps : List Publication)
    → Memᴰ y ps
    → y.slug ≡ slug
    → (z : Publication) × (find (λ (p : Publication). p.slug == slug) ps ≡ some z)
      × Memᴰ z ps
      × (z.slug ≡ slug)
find-Memᴰ slug y [] m e = elim m [ ]
find-Memᴰ slug y (p ∷ ps) m e = elim (Bool-cases (p.slug == slug)) [
  | inl h ↦ (p, rw h refl, Memᴰ.head refl, eq_text p.slug slug h)
  | inr h ↦ elim m [
    | Memᴰ.head same ↦
        absurd
          (cc (sym h ∙ (eq_iff p.slug slug).1 (sym (ap (λ (x : Publication). x.slug) same) ∙ e)))
    | Memᴰ.tail t ↦ let (z, f, mz, ez) = find-Memᴰ slug y ps t e in (z, rw h f, Memᴰ.tail mz, ez)
  ]
]

own_id :
    (z : Publication) (current : Option String)
    → is_other (some z) current ≡ false
    → some z.id ≡ current
own_id z none h = absurd (cc h)
own_id z (some id) h = ap some (eq_text z.id id (ground arith))

-- The check of the slug passes only if no other publication has it.
pub available-SlugFree :
    (slug : String) (current : Option String) (r : Repository)
    → assert_slug_available slug current r ≡ ok tt
    → OneSlug r
    → (y : Publication) → Memᴰ y r.publications
    → y.slug ≡ slug
    → some y.id ≡ current
unfolding assert_slug_available find_by_slug OneSlug
available-SlugFree slug current r h one y m e =
    let (z, f, mz, ez) = find-Memᴰ slug y r.publications m e in
    let mine : is_other (some z) current ≡ false =
      subst (λ o. is_other o current ≡ false) f
        (forbid-false (is_other (find (λ p. p.slug == slug) r.publications) current) _ h) in
    ap some (one y z m mz (e ∙ sym ez)) ∙ own_id z current mine
