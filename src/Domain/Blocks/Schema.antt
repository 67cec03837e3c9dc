-- ===== src/Domain/Blocks/Schema.antt =====
-- src/domain/content-blocks.ts: the schemas of the blocks. `is_valid_…` tells whether a schema
-- accepts, and `parsed_…` is what it then returns.
use mathlib.Core.Option
use mayday_dispatch.Prelude.{
  ℕ, String, Bool, true, false, not, ◌&&◌, ◌||◌, Option, none, some, List, [], ◌∷◌, map, leb, eqb,
  all, length, optionally, includes, ◌==◌,
}
use mayday_dispatch.Prelude.Text.{codes, trim, utf16_length}
use mayday_dispatch.Domain.Patterns.{
  Formats, is_plain_text, is_short_text, is_unsafe, is_digit, is_lower,
}
use mayday_dispatch.Domain.Patterns.Temporal.{is_temporal}
use mayday_dispatch.Domain.Json.{is_within}
use mayday_dispatch.Domain.Citation.{is_public_url}
use mayday_dispatch.Domain.Blocks.{
  Visual, Table, Coordinate, Feature, point, line, polygon, Map, Entry, Dataset, Media, Block,
  prose, heading, quote, figure, image, table, evidence_reference, map_block, timeline,
  dataset_reference, media_reference, block_id,
}

-- `z.string().trim().max(limit)`
unfoldable pub is_within_length : ℕ → String → Bool
unfolding trim
is_within_length limit s = leb (utf16_length (trim s)) limit

-- `^[a-z][a-z0-9_-]*$`
pub is_key : List ℕ → Bool
unfolding is_lower is_digit
is_key [] = false
is_key (c ∷ cs) = is_lower c && all (λ d. is_lower d || is_digit d || eqb d b'_' || eqb d b'-') cs

unfoldable pub is_valid_column : String × String → Bool
unfolding is_key trim
is_valid_column (key, label) = is_key (codes (trim key)) && is_short_text label

unfoldable pub is_valid_cell : String → Bool
unfolding is_within_length is_unsafe
is_valid_cell s = is_within_length 4000 s && not (is_unsafe (trim s))

pub is_coordinate : Coordinate → Bool
unfolding is_within
is_coordinate c = is_within 90 c.latitude && is_within 180 c.longitude

unfoldable pub is_valid_feature : Feature → Bool
unfolding is_coordinate
is_valid_feature (point c label) = is_coordinate c && is_short_text label
is_valid_feature (line cs label) =
    all is_coordinate cs
    && leb 2 (length cs)
    && leb (length cs) 100
    && optionally is_short_text label
is_valid_feature (polygon cs label) =
    all is_coordinate cs
    && leb 3 (length cs)
    && leb (length cs) 100
    && optionally is_short_text label

module _ (f : Formats) where
  unfoldable pub is_valid_entry : Entry → Bool
  is_valid_entry e =
      is_temporal e.date
      && is_short_text e.title
      && is_plain_text e.description
      && optionally f.is_uuid e.citation_id
      && optionally f.is_uuid e.evidence_id

  unfoldable pub is_valid_visual : Visual → Bool
  is_valid_visual v =
      f.is_uuid v.id
      && is_public_url f v.url
      && optionally (is_within_length 1000) v.alt
      && is_short_text v.caption
      && optionally is_short_text v.credit
      && optionally is_short_text v.source
      && optionally f.is_uuid v.citation_id
      && optionally f.is_uuid v.evidence_id
      && optionally (leb 1) v.figure_number
      && optionally (λ n. leb 1 n && leb n 10000) v.width
      && optionally (λ n. leb 1 n && leb n 10000) v.height

  unfoldable pub is_valid_table : Table → Bool
  is_valid_table t =
      f.is_uuid t.id
      && is_short_text t.caption
      && all is_valid_column t.columns
      && leb 1 (length t.columns)
      && leb (length t.columns) 20
      && all (all is_valid_cell) t.rows
      && leb (length t.rows) 200
      && optionally is_short_text t.source
      && optionally f.is_uuid t.citation_id
      && optionally f.is_uuid t.evidence_id
      && optionally (leb 1) t.table_number

  unfoldable pub is_valid_map : Map → Bool
  is_valid_map m =
      f.is_uuid m.id
      && is_short_text m.title
      && is_short_text m.caption
      && is_plain_text m.description
      && all is_valid_feature m.features
      && leb 1 (length m.features)
      && leb (length m.features) 50
      && optionally f.is_uuid m.evidence_id
      && optionally f.is_uuid m.citation_id

  unfoldable pub is_valid_dataset : Dataset → Bool
  is_valid_dataset d =
      f.is_uuid d.id
      && is_short_text d.title
      && is_plain_text d.description
      && is_short_text d.source
      && optionally (is_public_url f) d.url
      && optionally is_short_text d.format
      && optionally is_short_text d.coverage
      && optionally f.is_uuid d.citation_id
      && optionally f.is_uuid d.evidence_id

  unfoldable pub is_valid_media : Media → Bool
  is_valid_media m =
      f.is_uuid m.id
      && is_short_text m.title
      && is_plain_text m.description
      && is_public_url f m.url
      && optionally (is_public_url f) m.transcript_url
      && optionally is_short_text m.source
      && optionally f.is_uuid m.citation_id
      && optionally f.is_uuid m.evidence_id

  -- `PublicationContentBlockSchema`
  unfoldable pub is_valid_block : Block → Bool
  is_valid_block (prose id text) = f.is_uuid id && is_plain_text text
  is_valid_block (heading id level text) =
      f.is_uuid id && leb 2 level && leb level 4 && is_short_text text
  is_valid_block (quote id text attribution citation_id) =
      f.is_uuid id
      && is_plain_text text
      && is_short_text attribution
      && optionally f.is_uuid citation_id
  is_valid_block (figure v) = is_valid_visual v
  is_valid_block (image v) = is_valid_visual v
  is_valid_block (table t) = is_valid_table t
  is_valid_block (evidence_reference id evidence_id label) =
      f.is_uuid id && f.is_uuid evidence_id && optionally is_short_text label
  is_valid_block (map_block m) = is_valid_map m
  is_valid_block (timeline id title entries) =
      f.is_uuid id
      && is_short_text title
      && all is_valid_entry entries
      && leb 1 (length entries)
      && leb (length entries) 100
  is_valid_block (dataset_reference d) = is_valid_dataset d
  is_valid_block (media_reference m) = is_valid_media m

-- `Boolean(alt)` of the trimmed text
unfoldable pub has_alt : Option String → Bool
unfolding trim
has_alt none = false
has_alt (some alt) = not (trim alt == "")

-- Alternative text is there exactly for an image that is not decorative.
unfoldable pub is_described : Visual → Bool
is_described v = (v.decorative || has_alt v.alt) && not (v.decorative && has_alt v.alt)

-- What the refinement of `PublicationContentBlocksSchema` asks of one block.
unfoldable pub is_complete : Block → Bool
is_complete (figure v) = is_described v
is_complete (image v) = is_described v
is_complete (table t) = all (λ row. eqb (length row) (length t.columns)) t.rows
is_complete _ = true

-- The loop of the refinement: `seen` holds the ids of the blocks before.
unfoldable pub is_refined : List String → List Block → Bool
is_refined seen [] = true
is_refined seen (b ∷ bs) =
    not (includes (block_id b) seen) && is_complete b && is_refined (block_id b ∷ seen) bs

-- `PublicationContentBlocksSchema`
unfoldable pub is_valid_blocks : Formats → List Block → Bool
is_valid_blocks f bs = leb (length bs) 200 && all (is_valid_block f) bs && is_refined [] bs

unfoldable pub parsed_feature : Feature → Feature
parsed_feature (point c label) = point c (trim label)
parsed_feature (line cs label) = line cs (Option.map trim label)
parsed_feature (polygon cs label) = polygon cs (Option.map trim label)

unfoldable pub parsed_entry : Entry → Entry
parsed_entry e = record e {
  date = trim e.date;
  title = trim e.title;
  description = trim e.description;
}

unfoldable pub parsed_visual : Visual → Visual
parsed_visual v = record v {
  alt = Option.map trim v.alt;
  caption = trim v.caption;
  credit = Option.map trim v.credit;
  source = Option.map trim v.source;
}

abbrev pub parsed_column : String × String → String × String
parsed_column c = (trim c.0, trim c.1)

unfoldable pub parsed_block : Block → Block
parsed_block (prose id text) = prose id (trim text)
parsed_block (heading id level text) = heading id level (trim text)
parsed_block (quote id text attribution citation_id) =
    quote id (trim text) (trim attribution) citation_id
parsed_block (figure v) = figure (parsed_visual v)
parsed_block (image v) = image (parsed_visual v)
parsed_block (table t) = table (record t {
  caption = trim t.caption;
  columns = map parsed_column t.columns;
  rows = map (map trim) t.rows;
  source = Option.map trim t.source;
})
parsed_block (evidence_reference id evidence_id label) =
    evidence_reference id evidence_id (Option.map trim label)
parsed_block (map_block m) = map_block (record m {
  title = trim m.title;
  caption = trim m.caption;
  description = trim m.description;
  features = map parsed_feature m.features;
})
parsed_block (timeline id title entries) = timeline id (trim title) (map parsed_entry entries)
parsed_block (dataset_reference d) = dataset_reference (record d {
  title = trim d.title;
  description = trim d.description;
  source = trim d.source;
  format = Option.map trim d.format;
  coverage = Option.map trim d.coverage;
})
parsed_block (media_reference m) = media_reference (record m {
  title = trim m.title;
  description = trim m.description;
  source = Option.map trim m.source;
})
