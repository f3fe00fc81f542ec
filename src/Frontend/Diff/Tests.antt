-- ===== src/Frontend/Diff/Tests.antt =====
-- The diff and the rows at small inputs.
use wordpress.Common.{
  List, String, [], arith, keep, length, none, refl, some, ◌*◌, ◌↔◌, ◌∷◌, ◌≡◌, ◌≤◌,
}
use wordpress.Frontend.Diff.{
  DiffLine, FileDiff, LineType, Row, add, added, context, del, removed, same, simple_file_diff,
  to_side_by_side_rows,
}
use wordpress.Frontend.Diff.Lcs.{
  Subsequence, kept_lines, new_side, old_side, simple_file_diff-eq-none_iff,
  simple_file_diff_minimal, simple_file_diff_sides,
}
use wordpress.Frontend.Diff.Rows.{is_new, is_old, lefts, rights, to_side_by_side_rows-Shows}

abbrev old_file : List String
old_file = "a" ∷ "b" ∷ "c" ∷ []

abbrev new_file : List String
new_file = "a" ∷ "x" ∷ "c" ∷ "d" ∷ []

abbrev edits : FileDiff
edits = record {
  old_count = 3;
  new_count = 4;
  lines = same "a" ∷ added "x" ∷ removed "b" ∷ same "c" ∷ added "d" ∷ [];
}

edits_found : simple_file_diff old_file new_file ≡ some edits
unfolding simple_file_diff
edits_found = refl

simple_file_diff_sides_example :
    (old_side edits.lines ≡ old_file)
    × (new_side edits.lines ≡ new_file)
    × (edits.old_count ≡ length old_file)
    × (edits.new_count ≡ length new_file)
simple_file_diff_sides_example = simple_file_diff_sides old_file new_file edits edits_found

simple_file_diff-eq-none_iff_example :
    (simple_file_diff old_file old_file ≡ none)
    ↔ ((old_file ≡ old_file) × (length old_file * length old_file ≤ 4_000_000))
simple_file_diff-eq-none_iff_example = simple_file_diff-eq-none_iff old_file old_file

simple_file_diff_minimal_example :
    Subsequence (kept_lines edits.lines) old_file
    × Subsequence (kept_lines edits.lines) new_file
    × ((c : List String)
        → Subsequence c old_file
        → Subsequence c new_file
        → length c ≤ length (kept_lines edits.lines))
simple_file_diff_minimal_example =
    simple_file_diff_minimal old_file new_file edits (omega arith) edits_found

abbrev line : LineType → String → DiffLine
line t s = record { type = t; old_no = none; new_no = none; text = s }

abbrev hunk : List DiffLine
hunk = line context "k" ∷ line del "a" ∷ line del "b" ∷ line add "c" ∷ []

to_side_by_side_rows-Shows_example :
    (rows : List Row) × (to_side_by_side_rows hunk ≡ some rows)
    × (lefts rows ≡ keep is_old hunk)
    × (rights rows ≡ keep is_new hunk)
to_side_by_side_rows-Shows_example = to_side_by_side_rows-Shows hunk
