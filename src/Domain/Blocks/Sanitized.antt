-- ===== src/Domain/Blocks/Sanitized.antt =====
-- What `sanitizePublicBlocks` returns passes the schema of the blocks again.
use mayday_dispatch.Prelude.{
  ◌≤◌, ◌≡◌, refl, inl, inr, String, Bool, true, false, ◌&&◌, not, Option, none, some, List, [], ◌∷◌,
  ◌++◌, arith, includes, Bool-cases, length, all, optionally, &&-eq-true,
}
use mayday_dispatch.Domain.Patterns.{Formats}
use mayday_dispatch.Domain.Blocks.{
  Visual, Table, Map, Dataset, Media, Block, prose, heading, quote, figure, image, table,
  evidence_reference, map_block, timeline, dataset_reference, media_reference, withhold,
  sanitize_block, sanitize_public_blocks, block_id,
}
use mayday_dispatch.Domain.Blocks.Schema.{
  is_valid_visual, is_valid_table, is_valid_map, is_valid_dataset, is_valid_media, is_valid_block,
  is_valid_blocks, is_refined, is_complete, is_described,
}

length-sanitize :
    (ids : List String) (bs : List Block) → length (sanitize_public_blocks ids bs) ≤ length bs
unfolding sanitize_public_blocks sanitize_block
length-sanitize ids [] = omega arith
length-sanitize ids (evidence_reference id e label ∷ bs) = ground (arith, length-sanitize ids bs)
length-sanitize ids (b ∷ bs) = ground (arith, length-sanitize ids bs)

only : {a : Bool} → a ≡ true → (a && true) ≡ true
only h = rw h

module _ (f : Formats) (ids : List String) where
  optionally-withhold :
      (p : String → Bool) (o : Option String)
      → optionally p o ≡ true
      → optionally p (withhold ids o) ≡ true
  unfolding withhold
  optionally-withhold p none h = refl
  optionally-withhold p (some e) h = ground arith

  is_valid_visual-withhold :
      (v : Visual)
      → is_valid_visual f v ≡ true
      → is_valid_visual f (record v { evidence_id = withhold ids v.evidence_id }) ≡ true
  unfolding is_valid_visual
  is_valid_visual-withhold v h = ground (arith, optionally-withhold f.is_uuid v.evidence_id)

  is_valid_table-withhold :
      (t : Table)
      → is_valid_table f t ≡ true
      → is_valid_table f (record t { evidence_id = withhold ids t.evidence_id }) ≡ true
  unfolding is_valid_table
  is_valid_table-withhold t h = ground (arith, optionally-withhold f.is_uuid t.evidence_id)

  is_valid_map-withhold :
      (m : Map)
      → is_valid_map f m ≡ true
      → is_valid_map f (record m { evidence_id = withhold ids m.evidence_id }) ≡ true
  unfolding is_valid_map
  is_valid_map-withhold m h = ground (arith, optionally-withhold f.is_uuid m.evidence_id)

  is_valid_dataset-withhold :
      (d : Dataset)
      → is_valid_dataset f d ≡ true
      → is_valid_dataset f (record d { evidence_id = withhold ids d.evidence_id }) ≡ true
  unfolding is_valid_dataset
  is_valid_dataset-withhold d h = ground (arith, optionally-withhold f.is_uuid d.evidence_id)

  is_valid_media-withhold :
      (m : Media)
      → is_valid_media f m ≡ true
      → is_valid_media f (record m { evidence_id = withhold ids m.evidence_id }) ≡ true
  unfolding is_valid_media
  is_valid_media-withhold m h = ground (arith, optionally-withhold f.is_uuid m.evidence_id)

  is_valid-sanitize_block :
      (b : Block) → is_valid_block f b ≡ true → all (is_valid_block f) (sanitize_block ids b) ≡ true
  unfolding is_valid_block sanitize_block
  is_valid-sanitize_block (evidence_reference id e label) h = elim (Bool-cases (includes e ids)) [
    | inl k ↦ rw k (only h)
    | inr k ↦ rw k refl
  ]
  is_valid-sanitize_block (figure v) h = only (is_valid_visual-withhold v h)
  is_valid-sanitize_block (image v) h = only (is_valid_visual-withhold v h)
  is_valid-sanitize_block (table t) h = only (is_valid_table-withhold t h)
  is_valid-sanitize_block (map_block m) h = only (is_valid_map-withhold m h)
  is_valid-sanitize_block (dataset_reference d) h = only (is_valid_dataset-withhold d h)
  is_valid-sanitize_block (media_reference m) h = only (is_valid_media-withhold m h)
  is_valid-sanitize_block (prose id text) h = only h
  is_valid-sanitize_block (heading id level text) h = only h
  is_valid-sanitize_block (quote id text attribution c) h = only h
  is_valid-sanitize_block (timeline id title entries) h = only h

  all-append :
      (p : Block → Bool) (xs ys : List Block)
      → all p xs ≡ true
      → all p ys ≡ true
      → all p (xs ++ ys) ≡ true
  all-append p [] ys h k = k
  all-append p (x ∷ xs) ys h k =
      let (hx, hxs) = &&-eq-true (p x) (all p xs) h in rw hx (all-append p xs ys hxs k)

  all-valid-sanitize :
      (bs : List Block)
      → all (is_valid_block f) bs ≡ true
      → all (is_valid_block f) (sanitize_public_blocks ids bs) ≡ true
  unfolding sanitize_public_blocks
  all-valid-sanitize [] h = refl
  all-valid-sanitize (b ∷ bs) h =
      let (hb, hbs) = &&-eq-true (is_valid_block f b) (all (is_valid_block f) bs) h in
      all-append (is_valid_block f) (sanitize_block ids b) _ (is_valid-sanitize_block b hb)
        (all-valid-sanitize bs hbs)

-- A block of the result has the id of the block that it comes from, and is as complete.
data Kept (ids : List String) (b : Block) : List Block → Type 0 where
  gone : Kept ids b []
  left : (c : Block) → block_id c ≡ block_id b → is_complete c ≡ is_complete b → Kept ids b (c ∷ [])

sanitize_block-Kept : (ids : List String) (b : Block) → Kept ids b (sanitize_block ids b)
unfolding sanitize_block is_complete is_described
sanitize_block-Kept ids (evidence_reference id e label) = elim (Bool-cases (includes e ids)) [
  | inl h ↦ rw h (left (evidence_reference id e label) refl refl)
  | inr h ↦ rw h gone
]
sanitize_block-Kept ids b = left _ refl refl

-- With fewer ids seen before, the refinement still holds.
is_refined_fewer :
    (bs : List Block) (seen seen' : List String)
    → ((x : String) → includes x seen ≡ false → includes x seen' ≡ false)
    → is_refined seen bs ≡ true
    → is_refined seen' bs ≡ true
unfolding is_refined
is_refined_fewer [] seen seen' sub h = refl
is_refined_fewer (b ∷ bs) seen seen' sub h = ground (
  arith,
  sub (block_id b),
  is_refined_fewer bs (block_id b ∷ seen) (block_id b ∷ seen') (λ x k. ground (arith, sub x)),
)

is_refined-Kept :
    (ids seen : List String) (b : Block) (cs bs : List Block)
    → Kept ids b cs
    → (not (includes (block_id b) seen) && is_complete b) ≡ true
    → is_refined (block_id b ∷ seen) bs ≡ true
    → is_refined seen (cs ++ bs) ≡ true
unfolding is_refined
is_refined-Kept ids seen b [] bs gone h k =
    is_refined_fewer bs (block_id b ∷ seen) seen (λ x n. ground arith) k
is_refined-Kept ids seen b cs bs (left c e d) h k = rw (e, d) (ground arith)

is_refined-sanitize :
    (ids seen : List String) (bs : List Block)
    → is_refined seen bs ≡ true
    → is_refined seen (sanitize_public_blocks ids bs) ≡ true
unfolding is_refined sanitize_public_blocks
is_refined-sanitize ids seen [] h = refl
is_refined-sanitize ids seen (b ∷ bs) h =
    is_refined-Kept ids seen b (sanitize_block ids b) (sanitize_public_blocks ids bs)
      (sanitize_block-Kept ids b) (ground arith)
      (is_refined-sanitize ids (block_id b ∷ seen) bs (ground arith))

-- Valid blocks stay valid: the ids stay unique, the number stays in bounds, and each block that is
-- left passes its schema.
sanitize-is_valid :
    (f : Formats) (ids : List String) (bs : List Block)
    → is_valid_blocks f bs ≡ true
    → is_valid_blocks f (sanitize_public_blocks ids bs) ≡ true
unfolding is_valid_blocks
sanitize-is_valid f ids bs h =
    ground
      (arith, length-sanitize ids bs, all-valid-sanitize f ids bs, is_refined-sanitize ids [] bs)
