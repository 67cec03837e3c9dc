-- ===== src/Domain/Blocks/Disclosure.antt =====
-- What `sanitizePublicBlocks` discloses of the evidence behind the blocks.
use mayday_dispatch.Prelude.{
  ◌≡◌, refl, ap, subst, inl, inr, ◌↔◌, String, Bool, true, false, ◌||◌, Option, none, some, List,
  [], ◌∷◌, ◌++◌, includes, All, Memᴰ, Bool-cases, ◌==◌,
}
use mayday_dispatch.Domain.Blocks.{
  Block, prose, heading, quote, figure, image, table, evidence_reference, map_block, timeline,
  dataset_reference, media_reference, Entry, withhold, sanitize_block, sanitize_public_blocks,
}

-- The evidence that a block names itself. The entries of a timeline are not read.
abbrev pub evidence_of : Block → Option String
evidence_of (figure v) = v.evidence_id
evidence_of (image v) = v.evidence_id
evidence_of (table t) = t.evidence_id
evidence_of (evidence_reference id e label) = some e
evidence_of (map_block m) = m.evidence_id
evidence_of (dataset_reference d) = d.evidence_id
evidence_of (media_reference m) = m.evidence_id
evidence_of _ = none

abbrev pub is_reference : Block → Bool
is_reference (evidence_reference id e label) = true
is_reference _ = false

-- An id is listed. The empty id, which no schema accepts, counts as no id except in a reference.
abbrev pub is_listed : List String → Bool → Option String → Bool
is_listed ids strict none = true
is_listed ids true (some e) = includes e ids
is_listed ids false (some e) = e == "" || includes e ids

abbrev pub Discloses : List String → Block → Type 0
Discloses ids b = is_listed ids (is_reference b) (evidence_of b) ≡ true

is_listed-withhold :
    (ids : List String) (o : Option String) → is_listed ids false (withhold ids o) ≡ true
unfolding withhold
is_listed-withhold ids none = refl
is_listed-withhold ids (some e) = elim (Bool-cases (e == "" || includes e ids)) [
  | inl h ↦ rw h h
  | inr h ↦ rw h refl
]

withhold_listed :
    (ids : List String) (o : Option String) → is_listed ids false o ≡ true → withhold ids o ≡ o
unfolding withhold
withhold_listed ids none h = refl
withhold_listed ids (some e) h = rw h refl

sanitize_block-Discloses :
    (ids : List String) (b : Block) → All (Discloses ids) (sanitize_block ids b)
unfolding sanitize_block
sanitize_block-Discloses ids (evidence_reference id e label) = elim (Bool-cases (includes e ids)) [
  | inl h ↦ rw h (h, tt)
  | inr h ↦ rw h tt
]
sanitize_block-Discloses ids (figure v) = (is_listed-withhold ids v.evidence_id, tt)
sanitize_block-Discloses ids (image v) = (is_listed-withhold ids v.evidence_id, tt)
sanitize_block-Discloses ids (table t) = (is_listed-withhold ids t.evidence_id, tt)
sanitize_block-Discloses ids (map_block m) = (is_listed-withhold ids m.evidence_id, tt)
sanitize_block-Discloses ids (dataset_reference d) = (is_listed-withhold ids d.evidence_id, tt)
sanitize_block-Discloses ids (media_reference m) = (is_listed-withhold ids m.evidence_id, tt)
sanitize_block-Discloses ids (prose id text) = (refl, tt)
sanitize_block-Discloses ids (heading id level text) = (refl, tt)
sanitize_block-Discloses ids (quote id text attribution c) = (refl, tt)
sanitize_block-Discloses ids (timeline id title entries) = (refl, tt)

All-join {ℓ} :
    {A : Type 0} (P : A → Type ℓ) (xs ys : List A) → All P xs → All P ys → All P (xs ++ ys)
All-join P [] ys h k = k
All-join P (x ∷ xs) ys (p, h) k = (p, All-join P xs ys h k)

pub sanitize-Discloses :
    (ids : List String) (bs : List Block) → All (Discloses ids) (sanitize_public_blocks ids bs)
unfolding sanitize_public_blocks
sanitize-Discloses ids [] = tt
sanitize-Discloses ids (b ∷ bs) =
    All-join (Discloses ids) (sanitize_block ids b) _ (sanitize_block-Discloses ids b)
      (sanitize-Discloses ids bs)

sanitize_block_listed :
    (ids : List String) (b : Block) → Discloses ids b → sanitize_block ids b ≡ b ∷ []
unfolding sanitize_block
sanitize_block_listed ids (evidence_reference id e label) h = rw h refl
sanitize_block_listed ids (figure v) h = rw (withhold_listed ids v.evidence_id h) refl
sanitize_block_listed ids (image v) h = rw (withhold_listed ids v.evidence_id h) refl
sanitize_block_listed ids (table t) h = rw (withhold_listed ids t.evidence_id h) refl
sanitize_block_listed ids (map_block m) h = rw (withhold_listed ids m.evidence_id h) refl
sanitize_block_listed ids (dataset_reference d) h = rw (withhold_listed ids d.evidence_id h) refl
sanitize_block_listed ids (media_reference m) h = rw (withhold_listed ids m.evidence_id h) refl
sanitize_block_listed ids (prose id text) h = refl
sanitize_block_listed ids (heading id level text) h = refl
sanitize_block_listed ids (quote id text attribution c) h = refl
sanitize_block_listed ids (timeline id title entries) h = refl

sanitize_listed :
    (ids : List String) (bs : List Block)
    → All (Discloses ids) bs
    → sanitize_public_blocks ids bs ≡ bs
unfolding sanitize_public_blocks
sanitize_listed ids [] h = refl
sanitize_listed ids (b ∷ bs) (p, h) =
    rw (sanitize_block_listed ids b p) (ap (λ t. b ∷ t) (sanitize_listed ids bs h))

-- The blocks are returned unchanged exactly if each of them names only listed evidence; so
-- sanitising twice is sanitising once.
sanitize-eq_iff :
    (ids : List String) (bs : List Block)
    → (sanitize_public_blocks ids bs ≡ bs) ↔ All (Discloses ids) bs
sanitize-eq_iff ids bs =
    ((λ e. subst (All (Discloses ids)) e (sanitize-Discloses ids bs)), sanitize_listed ids bs)

mem_right {ℓ} : {A : Type ℓ} {x : A} (ys : List A) {xs : List A} → Memᴰ x xs → Memᴰ x (ys ++ xs)
mem_right [] m = m
mem_right (y ∷ ys) m = Memᴰ.tail (mem_right ys m)

-- A timeline is returned as it is, whatever evidence its entries name: the ids in its entries are
-- disclosed even if none is public.
pub timeline_is_kept :
    (ids : List String) (id title : String) (entries : List Entry) (bs : List Block)
    → Memᴰ (timeline id title entries) bs
    → Memᴰ (timeline id title entries) (sanitize_public_blocks ids bs)
unfolding sanitize_public_blocks sanitize_block
timeline_is_kept ids id title entries [] m = elim m [ ]
timeline_is_kept ids id title entries (b ∷ bs) (Memᴰ.head e) =
    subst
      (λ c.
        Memᴰ (timeline id title entries) (sanitize_block ids c ++ sanitize_public_blocks ids bs))
      e (Memᴰ.head refl)
timeline_is_kept ids id title entries (b ∷ bs) (Memᴰ.tail m) =
    mem_right (sanitize_block ids b) (timeline_is_kept ids id title entries bs m)
