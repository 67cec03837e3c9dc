-- ===== src/Domain/Blocks.antt =====
-- src/domain/content-blocks.ts: the content blocks, and the two functions that read them.
pub mod Schema
pub mod Disclosure
pub mod Sanitized
use mayday_dispatch.Prelude.{
  ℕ, String, Bool, ◌||◌, Option, none, some, List, [], ◌∷◌, ◌++◌, map, includes, if◌then◌else◌,
  ◌==◌,
}
use mayday_dispatch.Domain.Json.{Decimal}

-- A figure or an image.
pub record Visual : Type 0 where
  pub id : String
  pub url : String
  pub alt : Option String
  pub decorative : Bool
  pub caption : String
  pub credit : Option String
  pub source : Option String
  pub citation_id : Option String
  pub evidence_id : Option String
  pub figure_number : Option ℕ
  pub width : Option ℕ
  pub height : Option ℕ

pub record Table : Type 0 where
  pub id : String
  pub caption : String
  -- the key and the label of each column
  pub columns : List (String × String)
  pub rows : List (List String)
  pub source : Option String
  pub citation_id : Option String
  pub evidence_id : Option String
  pub table_number : Option ℕ

pub record Coordinate : Type 0 where
  pub latitude : Decimal
  pub longitude : Decimal

pub data Feature : Type 0 where
  point : Coordinate → (label : String) → Feature
  line : List Coordinate → (label : Option String) → Feature
  polygon : List Coordinate → (label : Option String) → Feature

pub record Map : Type 0 where
  pub id : String
  pub title : String
  pub caption : String
  pub description : String
  pub features : List Feature
  pub evidence_id : Option String
  pub citation_id : Option String

pub record Entry : Type 0 where
  pub date : String
  pub title : String
  pub description : String
  pub citation_id : Option String
  pub evidence_id : Option String

pub record Dataset : Type 0 where
  pub id : String
  pub title : String
  pub description : String
  pub source : String
  pub url : Option String
  pub format : Option String
  pub coverage : Option String
  pub citation_id : Option String
  pub evidence_id : Option String

pub data MediaType : Type 0 where
  audio video external_media : MediaType

pub record Media : Type 0 where
  pub id : String
  pub title : String
  pub description : String
  pub url : String
  pub media_type : MediaType
  pub transcript_url : Option String
  pub source : Option String
  pub citation_id : Option String
  pub evidence_id : Option String

pub data Block : Type 0 where
  prose : (id text : String) → Block
  heading : (id : String) (level : ℕ) (text : String) → Block
  quote : (id text attribution : String) (citation_id : Option String) → Block
  figure : Visual → Block
  image : Visual → Block
  table : Table → Block
  evidence_reference : (id evidence_id : String) (label : Option String) → Block
  map_block : Map → Block
  timeline : (id title : String) (entries : List Entry) → Block
  dataset_reference : Dataset → Block
  media_reference : Media → Block

abbrev pub block_id : Block → String
block_id (prose id text) = id
block_id (heading id level text) = id
block_id (quote id text attribution citation_id) = id
block_id (figure v) = v.id
block_id (image v) = v.id
block_id (table t) = t.id
block_id (evidence_reference id evidence_id label) = id
block_id (map_block m) = m.id
block_id (timeline id title entries) = id
block_id (dataset_reference d) = d.id
block_id (media_reference m) = m.id

-- `block.evidenceId && !publicEvidenceIds.has(block.evidenceId)` removes the id. An empty id is
-- falsy, and stays.
unfoldable pub withhold : List String → Option String → Option String
withhold ids none = none
withhold ids (some e) = if e == "" || includes e ids then some e else none

-- The function that `sanitizePublicBlocks` maps. A timeline has no `evidenceId` of its own.
unfoldable pub sanitize_block : List String → Block → List Block
unfolding withhold
sanitize_block ids (evidence_reference id e label) =
    if includes e ids then evidence_reference id e label ∷ [] else []
sanitize_block ids (figure v) = figure (record v { evidence_id = withhold ids v.evidence_id }) ∷ []
sanitize_block ids (image v) = image (record v { evidence_id = withhold ids v.evidence_id }) ∷ []
sanitize_block ids (table t) = table (record t { evidence_id = withhold ids t.evidence_id }) ∷ []
sanitize_block ids (map_block m) =
    map_block (record m { evidence_id = withhold ids m.evidence_id }) ∷ []
sanitize_block ids (dataset_reference d) =
    dataset_reference (record d { evidence_id = withhold ids d.evidence_id }) ∷ []
sanitize_block ids (media_reference m) =
    media_reference (record m { evidence_id = withhold ids m.evidence_id }) ∷ []
sanitize_block ids b = b ∷ []

unfoldable pub sanitize_public_blocks : List String → List Block → List Block
unfolding sanitize_block
sanitize_public_blocks ids [] = []
sanitize_public_blocks ids (b ∷ bs) = sanitize_block ids b ++ sanitize_public_blocks ids bs

-- `[…].filter((value) => Boolean(value))`
unfoldable pub present : List (Option String) → List String
present [] = []
present (none ∷ xs) = present xs
present (some s ∷ xs) = if s == "" then present xs else s ∷ present xs

feature_label : Feature → Option String
feature_label (point c label) = some label
feature_label (line cs label) = label
feature_label (polygon cs label) = label

entry_texts : List Entry → List String
entry_texts [] = []
entry_texts (e ∷ es) = e.title ∷ e.description ∷ entry_texts es

row_texts : List (List String) → List (Option String)
row_texts [] = []
row_texts (r ∷ rs) = map some r ++ row_texts rs

unfoldable pub searchable_text : Block → List String
unfolding present feature_label entry_texts row_texts
searchable_text (prose id text) = text ∷ []
searchable_text (heading id level text) = text ∷ []
searchable_text (quote id text attribution citation_id) = text ∷ attribution ∷ []
searchable_text (figure v) = present (some v.caption ∷ v.credit ∷ v.source ∷ v.alt ∷ [])
searchable_text (image v) = present (some v.caption ∷ v.credit ∷ v.source ∷ v.alt ∷ [])
searchable_text (table t) =
    present (some t.caption ∷ t.source ∷ (map (λ c. some c.1) t.columns ++ row_texts t.rows))
searchable_text (map_block m) =
    m.title ∷ m.caption ∷ m.description ∷ present (map feature_label m.features)
searchable_text (timeline id title entries) = title ∷ entry_texts entries
searchable_text (dataset_reference d) =
    present (some d.title ∷ some d.description ∷ some d.source ∷ d.format ∷ d.coverage ∷ [])
searchable_text (media_reference m) = present (some m.title ∷ some m.description ∷ m.source ∷ [])
searchable_text (evidence_reference id evidence_id label) = present (label ∷ [])

unfoldable pub searchable_block_text : List Block → List String
unfolding searchable_text
searchable_block_text [] = []
searchable_block_text (b ∷ bs) = searchable_text b ++ searchable_block_text bs
