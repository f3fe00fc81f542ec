-- ===== src/Frontend/Metadata.antt =====
-- frontend/src/lib/metadata.js: the metadata of a page as the bridge has it, and as the form shows
-- it. `undefined` is `none`. JSON values, JSON.parse, JSON.stringify and trim are parameters.
pub mod Saved
mod Tests
use wordpress.Common.{
  Bool, List, Option, String, [], false, if◌then◌else◌, none, or_else, some, true, ◌==◌, ◌||◌, ◌∷◌,
}

pub record Robots : Type 0 where
  pub index : Option Bool
  pub follow : Option Bool

pub record OpenGraph : Type 0 where
  pub og_title : Option String
  pub og_description : Option String
  pub og_image : Option String

pub record MetadataFields (J : Type 0) : Type 0 where
  pub title : Option String
  pub description : Option String
  pub canonical : Option String
  pub robots : Option Robots
  pub open_graph : Option OpenGraph
  pub json_ld : Option (List J)

pub record MetadataForm : Type 0 where
  pub form_title : String
  pub form_description : String
  pub form_canonical : String
  pub robots_set : Bool
  pub form_index : Bool
  pub form_follow : Bool
  pub form_og_title : String
  pub form_og_description : String
  pub form_og_image : String
  pub form_json_ld : String

-- What JSON.parse returns: an array, or another value.
pub data Parsed (J : Type 0) : Type 0 where
  array : List J → Parsed J
  single : J → Parsed J

-- The parameters.
pub record Texts (J : Type 0) : Type 0 where
  pub trim : String → String
  pub parse : String → Option (Parsed J)
  pub stringify : List J → String

-- `value || ""`.
unfoldable pub or_blank : Option String → String
or_blank o = or_else o ""

-- `value !== false`.
unfoldable pub not_false : Option Bool → Bool
not_false o = or_else o true

unfoldable pub robots_index : Option Robots → Bool
robots_index none = true
robots_index (some r) = not_false r.index

unfoldable pub robots_follow : Option Robots → Bool
robots_follow none = true
robots_follow (some r) = not_false r.follow

-- `fields.openGraph?.key || ""`.
unfoldable pub graph_text : (OpenGraph → Option String) → Option OpenGraph → String
graph_text key none = ""
graph_text key (some og) = or_blank (key og)

unfoldable pub is_set : {A : Type 0} → Option A → Bool
is_set none = false
is_set (some a) = true

module _ {J : Type 0} (js : Texts J) where
  unfoldable pub json_text : Option (List J) → String
  json_text none = ""
  json_text (some []) = ""
  json_text (some (j ∷ l)) = js.stringify (j ∷ l)

  unfoldable pub fields_to_form : MetadataFields J → MetadataForm
  fields_to_form fs = record {
    form_title = or_blank fs.title;
    form_description = or_blank fs.description;
    form_canonical = or_blank fs.canonical;
    robots_set = is_set fs.robots;
    form_index = robots_index fs.robots;
    form_follow = robots_follow fs.robots;
    form_og_title = graph_text (λ og. og.og_title) fs.open_graph;
    form_og_description = graph_text (λ og. og.og_description) fs.open_graph;
    form_og_image = graph_text (λ og. og.og_image) fs.open_graph;
    form_json_ld = json_text fs.json_ld;
  }

  -- `if (text.trim()) key = text.trim()`.
  unfoldable pub trimmed : String → Option String
  trimmed s = let t = js.trim s in if t == "" then none else some t

  unfoldable pub robots_field : Bool → Bool → Bool → Option Robots
  robots_field given i f = if given then some (record { index = some i; follow = some f }) else none

  unfoldable pub graph_field : Option String → Option String → Option String → Option OpenGraph
  graph_field t d i =
      if is_set t || is_set d || is_set i
      then some (record { og_title = t; og_description = d; og_image = i })
      else none

  -- `Array.isArray(parsed) ? parsed : [parsed]`.
  unfoldable pub as_list : Option (Parsed J) → Option (Option (List J))
  as_list none = none
  as_list (some (array l)) = some (some l)
  as_list (some (single j)) = some (some (j ∷ []))

  -- `none` where JSON.parse throws.
  unfoldable pub json_field : String → Option (Option (List J))
  json_field s = if js.trim s == "" then some none else as_list (js.parse s)

  unfoldable pub other_fields : MetadataForm → Option (List J) → MetadataFields J
  other_fields f j = record {
    title = trimmed f.form_title;
    description = trimmed f.form_description;
    canonical = trimmed f.form_canonical;
    robots = robots_field f.robots_set f.form_index f.form_follow;
    open_graph =
        graph_field (trimmed f.form_og_title) (trimmed f.form_og_description)
          (trimmed f.form_og_image);
    json_ld = j;
  }

  unfoldable pub with_json : MetadataForm → Option (Option (List J)) → Option (MetadataFields J)
  with_json f none = none
  with_json f (some j) = some (other_fields f j)

  unfoldable pub form_to_fields : MetadataForm → Option (MetadataFields J)
  form_to_fields f = with_json f (json_field f.form_json_ld)
