-- ===== src/Domain/Parsed/Blocks.antt =====
-- The blocks that the schema returns pass it again.
use mayday_dispatch.Prelude.{
  ℕ, String, ◌≡◌, refl, ◌∙◌, not, ◌&&◌, ◌||◌, Option, none, some, List, [], ◌∷◌, map, ◌==◌, leb,
  eqb, length, all, ap,
}
use mathlib.Core.Option
use mayday_dispatch.Prelude.Text.{codes, trim, utf16_length}
use mayday_dispatch.Prelude.Text.Trim.{trim-trim}
use mayday_dispatch.Domain.Patterns.{Formats, is_short_text, is_unsafe}
use mayday_dispatch.Domain.Patterns.Temporal.{is_temporal, month, digits, and_then}
use mayday_dispatch.Domain.Blocks.{
  Visual, Feature, point, line, polygon, Entry, Block, prose, heading, quote, figure, image, table,
  evidence_reference, map_block, timeline, dataset_reference, media_reference, block_id,
}
use mayday_dispatch.Domain.Blocks.Schema.{
  is_within_length, is_key, is_valid_column, is_valid_cell, is_valid_feature, is_valid_entry,
  is_valid_visual, is_valid_table, is_valid_map, is_valid_dataset, is_valid_media, is_valid_block,
  is_valid_blocks, is_refined, is_complete, is_described, has_alt, parsed_feature, parsed_entry,
  parsed_visual, parsed_column, parsed_block,
}
use mayday_dispatch.Domain.Parsed.{
  is_plain_text-trim, is_short_text-trim, short?-trim, optionally-map, all-map, length-map,
}

is_within_length-trim : (n : ℕ) (s : String) → is_within_length n (trim s) ≡ is_within_length n s
unfolding is_within_length
is_within_length-trim n s = ap (λ t. leb (utf16_length t) n) (trim-trim s)

is_valid_column-trim : (c : String × String) → is_valid_column (parsed_column c) ≡ is_valid_column c
unfolding is_valid_column
is_valid_column-trim c =
    ap (λ t. is_key (codes t) && is_short_text (trim c.1)) (trim-trim c.0)
    ∙ ap (λ b. is_key (codes (trim c.0)) && b) (is_short_text-trim c.1)

is_valid_cell-trim : (s : String) → is_valid_cell (trim s) ≡ is_valid_cell s
unfolding is_valid_cell
is_valid_cell-trim s = ap (λ t. leb (utf16_length t) 4000 && not (is_unsafe t)) (trim-trim s)

is_temporal-trim : (s : String) → is_temporal (trim s) ≡ is_temporal s
unfolding is_temporal
is_temporal-trim s = ap (λ t. and_then month (digits 4 (codes t))) (trim-trim s)

is_valid_feature-parsed : (e : Feature) → is_valid_feature (parsed_feature e) ≡ is_valid_feature e
unfolding is_valid_feature parsed_feature
is_valid_feature-parsed (point c label) = rw (is_short_text-trim label) refl
is_valid_feature-parsed (line cs label) = rw (short?-trim label) refl
is_valid_feature-parsed (polygon cs label) = rw (short?-trim label) refl

module _ (f : Formats) where
  is_valid_entry-parsed : (e : Entry) → is_valid_entry f (parsed_entry e) ≡ is_valid_entry f e
  unfolding is_valid_entry parsed_entry
  is_valid_entry-parsed e =
      rw (is_temporal-trim e.date, is_short_text-trim e.title, is_plain_text-trim e.description)
        refl

  is_valid_visual-parsed : (v : Visual) → is_valid_visual f (parsed_visual v) ≡ is_valid_visual f v
  unfolding is_valid_visual parsed_visual
  is_valid_visual-parsed v =
      rw
        (
          optionally-map (is_within_length 1000) trim (is_within_length-trim 1000) v.alt,
          is_short_text-trim v.caption,
          short?-trim v.credit,
          short?-trim v.source,
        )
        refl

  is_valid_block-parsed : (b : Block) → is_valid_block f (parsed_block b) ≡ is_valid_block f b
  unfolding is_valid_block parsed_block is_valid_table is_valid_map is_valid_dataset is_valid_media
  is_valid_block-parsed (prose id text) = rw (is_plain_text-trim text) refl
  is_valid_block-parsed (heading id level text) = rw (is_short_text-trim text) refl
  is_valid_block-parsed (quote id text attribution c) =
      rw (is_plain_text-trim text, is_short_text-trim attribution) refl
  is_valid_block-parsed (figure v) = is_valid_visual-parsed v
  is_valid_block-parsed (image v) = is_valid_visual-parsed v
  is_valid_block-parsed (table t) =
      rw
        (
          is_short_text-trim t.caption,
          all-map is_valid_column parsed_column is_valid_column-trim t.columns,
          length-map parsed_column t.columns,
          all-map (all is_valid_cell) (map trim) (all-map is_valid_cell trim is_valid_cell-trim)
              t.rows,
          length-map (map trim) t.rows,
          short?-trim t.source,
        )
        refl
  is_valid_block-parsed (evidence_reference id e label) = rw (short?-trim label) refl
  is_valid_block-parsed (map_block m) =
      rw
        (
          is_short_text-trim m.title,
          is_short_text-trim m.caption,
          is_plain_text-trim m.description,
          all-map is_valid_feature parsed_feature is_valid_feature-parsed m.features,
          length-map parsed_feature m.features,
        )
        refl
  is_valid_block-parsed (timeline id title entries) =
      rw
        (
          is_short_text-trim title,
          all-map (is_valid_entry f) parsed_entry is_valid_entry-parsed entries,
          length-map parsed_entry entries,
        )
        refl
  is_valid_block-parsed (dataset_reference d) =
      rw
        (
          is_short_text-trim d.title,
          is_plain_text-trim d.description,
          is_short_text-trim d.source,
          short?-trim d.format,
          short?-trim d.coverage,
        )
        refl
  is_valid_block-parsed (media_reference m) =
      rw (is_short_text-trim m.title, is_plain_text-trim m.description, short?-trim m.source) refl

has_alt-trim : (o : Option String) → has_alt (Option.map trim o) ≡ has_alt o
unfolding has_alt
has_alt-trim none = refl
has_alt-trim (some s) = ap (λ t. not (t == "")) (trim-trim s)

is_described-parsed : (v : Visual) → is_described (parsed_visual v) ≡ is_described v
unfolding parsed_visual is_described
is_described-parsed v =
    ap (λ b. (v.decorative || b) && not (v.decorative && b)) (has_alt-trim v.alt)

row-parsed :
    (n : ℕ) (rows : List (List String))
    → all (λ row. eqb (length row) n) (map (map trim) rows) ≡ all (λ row. eqb (length row) n) rows
row-parsed n rows =
    all-map (λ row. eqb (length row) n) (map trim) (λ row. ap (λ m. eqb m n) (length-map trim row))
      rows

is_complete-parsed : (b : Block) → is_complete (parsed_block b) ≡ is_complete b
unfolding is_complete parsed_block
is_complete-parsed (figure v) = is_described-parsed v
is_complete-parsed (image v) = is_described-parsed v
is_complete-parsed (table t) =
    ap (λ n. all (λ row. eqb (length row) n) (map (map trim) t.rows))
      (length-map parsed_column t.columns)
    ∙ row-parsed (length t.columns) t.rows
is_complete-parsed _ = refl

block_id-parsed : (b : Block) → block_id (parsed_block b) ≡ block_id b
unfolding parsed_block parsed_visual
block_id-parsed (figure v) = refl
block_id-parsed _ = refl

is_refined-parsed :
    (seen : List String) (bs : List Block)
    → is_refined seen (map parsed_block bs) ≡ is_refined seen bs
unfolding is_refined
is_refined-parsed seen [] = refl
is_refined-parsed seen (b ∷ bs) =
    rw (block_id-parsed b, is_complete-parsed b, is_refined-parsed (block_id b ∷ seen) bs) refl

pub is_valid_blocks-parsed :
    (f : Formats) (bs : List Block) → is_valid_blocks f (map parsed_block bs) ≡ is_valid_blocks f bs
unfolding is_valid_blocks
is_valid_blocks-parsed f bs =
    rw
      (
        length-map parsed_block bs,
        all-map (is_valid_block f) parsed_block (is_valid_block-parsed f) bs,
        is_refined-parsed [] bs,
      )
      refl
