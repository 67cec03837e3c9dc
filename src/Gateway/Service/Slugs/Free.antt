-- ===== src/Gateway/Service/Slugs/Free.antt =====
-- What the checks of src/application/publication-gateway/service.ts say of a slug, and what a plan
-- makes of it.
use mayday_dispatch.Prelude.{
  String, ◌≡◌, refl, sym, ap, ◌∙◌, subst, inl, inr, true, false, Option, none, some, List, [], ◌∷◌,
  Memᴰ, ◌==◌, Bool-cases, arith, ◌||◌, ||-eq-true, eq_text, or_else, Bool, if◌then◌else◌, find,
}
use mayday_dispatch.Domain.Patterns.{Formats, is_slug}
use mayday_dispatch.Domain.Publication.{
  Publication, is_valid_publication, is_valid_content, parsed_publication, Origin,
}
use mayday_dispatch.Gateway.Errors.{Result, ok, err}
use mayday_dispatch.Repository.{
  Repository, SaveOptions, find_by_id, get_publication, find_by_origin_identity, origin_matches,
}
use mayday_dispatch.Repository.Save.{save}
use mayday_dispatch.Repository.Save.Effect.{save-Effect}
use mayday_dispatch.Gateway.Dto.{Response}
use mayday_dispatch.Gateway.Service.{
  Gateway, RequestContext, Plan, write, perform, validate_publication, assert_slug_available,
}
use mayday_dispatch.Gateway.Service.Inversion.{validate_publication-eq-ok}
use mayday_dispatch.Gateway.Service.Outcome.{
  Performed, Failed, unchanged, unanswered, perform-Performed, perform-Failed,
}
use mayday_dispatch.Gateway.Service.Slugs.{OneSlug, SlugFree, set-OneSlug, available-SlugFree}
use mayday_dispatch.Gateway.Service.Update.{check_slug}

module _ (g : Gateway) (context : RequestContext) (r : Repository) (one : OneSlug r) where
  save-OneSlug :
      (p : Publication) (o : SaveOptions) (r' : Repository) {q : Publication}
      → SlugFree p.id p.slug r
      → save g.formats g.digest p o r ≡ (ok q, r')
      → OneSlug r'
  unfolding parsed_publication SlugFree
  save-OneSlug p o r' {q} free saved =
      let (same, effect) = save-Effect g.formats g.digest p o r r' saved in
      let id : q.id ≡ p.id = ap (λ (x : Publication). x.id) same in
      let slug : q.slug ≡ p.slug = ap (λ (x : Publication). x.slug) same in
      set-OneSlug q r r' effect.publications one (λ y m e. free y m (e ∙ slug) ∙ sym id)

  -- A plan that writes only a publication whose slug is free for it.
  pub perform-OneSlug :
      (m : Result Plan) (x : Result Response) (r' : Repository)
      → ((p : Publication) (o : SaveOptions) → m ≡ ok (write p o) → SlugFree p.id p.slug r)
      → perform g context m r ≡ (x, r')
      → OneSlug r'
  perform-OneSlug m (ok resp) r' free h =
      performed m free (perform-Performed g context r m resp r' h)
    where
      performed :
          (m : Result Plan)
          → ((p : Publication) (o : SaveOptions) → m ≡ ok (write p o) → SlugFree p.id p.slug r)
          → Performed g context r resp r' m
          → OneSlug r'
      performed _ free (Performed.replayed p same _) = subst OneSlug (sym same) one
      performed _ free (Performed.written p o q saved _) = save-OneSlug p o r' (free p o refl) saved
  perform-OneSlug m (err e) r' free h = failed m free (perform-Failed g context r m r' h)
    where
      failed :
          (m : Result Plan)
          → ((p : Publication) (o : SaveOptions) → m ≡ ok (write p o) → SlugFree p.id p.slug r)
          → Failed g context r r' m
          → OneSlug r'
      failed _ free (unchanged _ same) = subst OneSlug (sym same) one
      failed _ free (unanswered p o q saved _) = save-OneSlug p o r' (free p o refl) saved

some_eq {ℓ} : {A : Type ℓ} {a b : A} → some a ≡ some b → a ≡ b
some_eq h = cc

no_slug : is_slug "" ≡ false
unfolding is_slug
no_slug = refl

pub get_publication-Memᴰ :
    (id : String) (ps : List Publication) {p : Publication}
    → get_publication id ps ≡ some p
    → Memᴰ p ps
unfolding get_publication
get_publication-Memᴰ id [] h = absurd (cc h)
get_publication-Memᴰ id (q ∷ ps) {p} h = elim (Bool-cases (q.id == id)) [
  | inl e ↦ Memᴰ.head (sym (some_eq (rw (e, get_publication) at h)))
  | inr e ↦ Memᴰ.tail (get_publication-Memᴰ id ps (rw (e, get_publication) at h))
]

module _ (r : Repository) (one : OneSlug r) (p : Publication) where
  -- A stored publication may keep its slug.
  pub own-SlugFree : (id : String) → find_by_id id r ≡ some p → SlugFree p.id p.slug r
  unfolding OneSlug SlugFree find_by_id
  own-SlugFree id stored y m e = one y p m (get_publication-Memᴰ id r.publications stored) e

  -- The slug that an edit asks for is free for the publication, unless it is empty.
  pub check_slug-SlugFree :
      (slug : Option String) (id : String)
      → find_by_id id r ≡ some p
      → check_slug slug p r ≡ ok tt
      → is_slug (or_else slug p.slug) ≡ true
      → SlugFree p.id (or_else slug p.slug) r
  unfolding check_slug SlugFree
  check_slug-SlugFree none id stored h valid y m e = own-SlugFree id stored y m e
  check_slug-SlugFree (some slug) id stored h valid y m e =
      elim (Bool-cases (slug == "" || slug == p.slug)) [
        | inr other ↦ some_eq (available-SlugFree slug (some p.id) r (rw other at h) one y m e)
        | inl same ↦ elim (||-eq-true (slug == "") (slug == p.slug) same) [
          | inl empty ↦
              absurd
                (cc (sym no_slug ∙ subst (λ t. is_slug t ≡ true) (eq_text slug "" empty) valid))
          | inr own ↦ own-SlugFree id stored y m (e ∙ eq_text slug p.slug own)
        ]
      ]

find-stored :
    (f : Publication → Bool) (ps : List Publication) {p : Publication}
    → find f ps ≡ some p
    → Memᴰ p ps
find-stored f [] h = absurd (cc h)
find-stored f (q ∷ ps) {p} h = elim (Bool-cases (f q)) [
  | inl e ↦ Memᴰ.head (sym (some_eq (rw e at h)))
  | inr e ↦ Memᴰ.tail (find-stored f ps (rw e at h))
]

pub found_here :
    (r : Repository) (o : Origin) {p : Publication}
    → find_by_origin_identity o r ≡ some p
    → Memᴰ p r.publications
unfolding find_by_origin_identity
found_here r o h = find-stored (origin_matches o) r.publications h

-- The slug that a synchronization asks for is free for the publication.
pub synchronized-SlugFree :
    (r : Repository) (one : OneSlug r) (p : Publication) (slug : String)
    → Memᴰ p r.publications
    → (if slug == p.slug then ok tt else assert_slug_available slug (some p.id) r) ≡ ok tt
    → SlugFree p.id slug r
unfolding SlugFree OneSlug
synchronized-SlugFree r one p slug stored h y m e = elim (Bool-cases (slug == p.slug)) [
  | inl same ↦ one y p m stored (e ∙ eq_text slug p.slug same)
  | inr other ↦ some_eq (available-SlugFree slug (some p.id) r (rw other at h) one y m e)
]

pub write_eq :
    {p q : Publication} {o o' : SaveOptions} → ◌≡◌ {A = Plan} (write p o) (write q o') → p ≡ q
write_eq h = cc

pub valid_slug :
    (f : Formats) (p : Publication) → is_valid_publication f p ≡ true → is_slug p.slug ≡ true
unfolding is_valid_publication is_valid_content
valid_slug f p h = ground arith

module _ (f : Formats) (draft after : Publication) (id : String) (r : Repository) where
  -- The id and the slug of a parsed publication are those of the draft.
  pub parsed-SlugFree :
      validate_publication f draft ≡ ok after
      → SlugFree draft.id draft.slug r
      → SlugFree after.id after.slug r
  unfolding parsed_publication SlugFree
  parsed-SlugFree v free y m e =
      let (valid, same) = validate_publication-eq-ok f draft v in
      free y m (e ∙ ap (λ (x : Publication). x.slug) same)
      ∙ sym (ap (λ (x : Publication). x.id) same)
