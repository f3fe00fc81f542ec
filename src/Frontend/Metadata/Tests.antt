-- ===== src/Frontend/Metadata/Tests.antt =====
-- A page's form, where a JSON value is a character and JSON text a bracket before them.
use wordpress.Common.{List, Option, String, [], false, none, some, true, ◌∷◌}
use wordpress.Frontend.Metadata.{MetadataFields, MetadataForm, Parsed, Texts, array}
use Prim.Native.Char.{Char}

unfoldable brackets : List Char → String
brackets [] = ""
brackets (c ∷ cs) = String.◌∷◌ c (brackets cs)

unfoldable unbracketed : String → List Char
unbracketed String.[] = []
unbracketed (String.◌∷◌ c s) = c ∷ unbracketed s

abbrev test_parse : String → Option (Parsed Char)
test_parse String.[] = none
test_parse (String.◌∷◌ c s) = some (array (unbracketed s))

abbrev test_texts : Texts Char
test_texts = record {
  trim = λ s. s;
  parse = test_parse;
  stringify = λ l. String.◌∷◌ "[" (brackets l);
}

unfoldable IsShown : String → Type 0
IsShown String.[] = ⊥
IsShown (String.◌∷◌ c s) = Unit

unfoldable IsNonempty : Option (List Char) → Type 0
IsNonempty none = Unit
IsNonempty (some []) = ⊥
IsNonempty (some (c ∷ cs)) = Unit

abbrev test_form : MetadataForm
test_form = record {
  form_title = "Home";
  form_description = "";
  form_canonical = "/";
  robots_set = true;
  form_index = false;
  form_follow = true;
  form_og_title = "";
  form_og_description = "";
  form_og_image = "/a.png";
  form_json_ld = "[x";
}

abbrev test_fields : MetadataFields Char
test_fields = record {
  title = some "Home";
  description = none;
  canonical = some "/";
  robots = some (record { index = some false; follow = some true });
  open_graph = some (record { og_title = none; og_description = none; og_image = some "/a.png" });
  json_ld = some ("x" ∷ []);
}
