-- ===== src/Bridge/Paths/Tests.antt =====
-- Paths that pass and paths that do not.
use wordpress.Common.{String, [], any, codes, err, none, ok, refl, ◌==◌, ◌∷◌, ◌≡◌}
use wordpress.Bridge.Paths.{
  encoded_traversal, is_bad_path, is_bad_segment, split_path, validate_rel_path,
}
use wordpress.Bridge.Errors.{bridge, path_invalid, path_outside_root}
use wordpress.Bridge.Paths.Resolve.{
  PathRoot, PathSystem, is_inside, is_inside_from, lexical, real_at, resolve_from, resolve_in_root,
}

abbrev same_text : String → String
same_text s = s

-- Every path exists and there are no links; the glob `**` matches all.
abbrev test_system : PathSystem
test_system = record {
  nfc = same_text;
  real_path = λ p. real_at p;
  read_link = λ p. none;
  picomatch = λ gs p. any (λ g. g == "**") gs;
  text_of = λ segs. "a/b";
}

abbrev test_root : PathRoot
test_root = record { abs = codes "site" ∷ []; allow = "**" ∷ []; deny = [] }

test_valid : validate_rel_path same_text "a/b.md" ≡ ok "a/b.md"
unfolding validate_rel_path codes is_bad_path encoded_traversal split_path is_bad_segment
test_valid = refl

test_up : validate_rel_path same_text "a/../b" ≡ err (bridge path_invalid)
unfolding validate_rel_path codes is_bad_path encoded_traversal split_path is_bad_segment
test_up = refl

test_encoded : validate_rel_path same_text "a/%2E/b" ≡ err (bridge path_invalid)
unfolding validate_rel_path codes is_bad_path encoded_traversal split_path is_bad_segment
test_encoded = refl

-- A name that begins with two dots is valid, and is then taken for a way out of the root.
test_dots : resolve_in_root test_system test_root "..a" ≡ err (bridge path_outside_root)
unfolding resolve_in_root resolve_from is_inside is_inside_from lexical validate_rel_path codes
    is_bad_path encoded_traversal split_path is_bad_segment
test_dots = refl
