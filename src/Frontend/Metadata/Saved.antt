-- ===== src/Frontend/Metadata/Saved.antt =====
-- What a form saves is what the form shows again.
use wordpress.Common.{List, String, false, some, ◌==◌, ◌≡◌}
use wordpress.Frontend.Metadata.{Texts, array}

-- What the code relies on in String.prototype.trim and JSON.
pub record TextLaws {J : Type 0} (js : Texts J) : Type 0 where
  pub trim_twice : (s : String) → js.trim (js.trim s) ≡ js.trim s
  pub trim_empty : js.trim "" ≡ ""
  pub read_back : (l : List J) → js.parse (js.stringify l) ≡ some (array l)
  pub not_blank : (l : List J) → (js.trim (js.stringify l) == "") ≡ false
