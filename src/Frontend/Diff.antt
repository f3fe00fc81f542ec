-- ===== src/Frontend/Diff.antt =====
-- frontend/src/lib/diff.js: the side-by-side rows of a hunk, and the unified diff of one file. A line
-- is a text; the arrays of lines are lists, and an index into an array is the rest of the list.
pub mod Rows
pub mod Lcs
pub mod Tests
use wordpress.Common.{
  Bool, List, Option, String, [], any, false, if◌then◌else◌, leb, length, ltb, map, none, some, suc,
  true, zero, ℕ, ◌*◌, ◌++◌, ◌+◌, ◌==◌, ◌∷◌,
}
use Prim.Native.Nat.{max}
use mathlib.Core.Option

pub data LineType : Type 0 where
  context add del : LineType

pub record DiffLine : Type 0 where
  pub type : LineType
  pub old_no : Option ℕ
  pub new_no : Option ℕ
  pub text : String

pub record Row : Type 0 where
  pub left : Option DiffLine
  pub right : Option DiffLine

abbrev pub is_del : LineType → Bool
is_del del = true
is_del _ = false

abbrev pub is_add : LineType → Bool
is_add add = true
is_add _ = false

abbrev pub is_context : LineType → Bool
is_context context = true
is_context _ = false

-- `while (i < ls.length && ls[i].type === …) xs.push(ls[i++])`: the run, and what is left.
unfoldable pub run_of : (LineType → Bool) → List DiffLine → List DiffLine × List DiffLine
run_of p [] = ([], [])
run_of p (l ∷ ls) =
    let (run, rest) = run_of p ls in if p l.type then (l ∷ run, rest) else ([], l ∷ ls)

-- `rows.push({ left: dels[k] || null, right: adds[k] || null })` for every k below the longer length.
unfoldable pub zip_rows : List DiffLine → List DiffLine → List Row
zip_rows [] [] = []
zip_rows [] (b ∷ bs) = record { left = none; right = some b } ∷ zip_rows [] bs
zip_rows (a ∷ as') [] = record { left = some a; right = none } ∷ zip_rows as' []
zip_rows (a ∷ as') (b ∷ bs) = record { left = some a; right = some b } ∷ zip_rows as' bs

-- `toSideBySideRows`; `none` means that the fuel ran out.
unfoldable pub rows_from : ℕ → List DiffLine → Option (List Row)
unfolding run_of zip_rows
rows_from zero ls = none
rows_from (suc fuel) [] = some []
rows_from (suc fuel) (l ∷ ls) =
    let shown =
      Option.map (λ rows. record { left = some l; right = some l } ∷ rows) (rows_from fuel ls) in
    let (dels, rest) = run_of is_del (l ∷ ls) in
    let (adds, more) = run_of is_add rest in
    let paired = Option.map (λ rows. zip_rows dels adds ++ rows) (rows_from fuel more) in
    if is_context l.type then shown else paired

unfoldable pub to_side_by_side_rows : List DiffLine → Option (List Row)
unfolding rows_from
to_side_by_side_rows ls = rows_from (suc (length ls)) ls

-- The table `dp`: the length of a longest common subsequence of two lists of lines.
unfoldable pub lcs : List String → List String → ℕ
lcs [] b = 0
lcs (x ∷ a) [] = 0
lcs (x ∷ a) (y ∷ b) = if x == y then lcs a b + 1 else max (lcs a (y ∷ b)) (lcs (x ∷ a) b)

-- A line of the output, by its first character.
pub data OutLine : Type 0 where
  same added removed : String → OutLine

-- The walk over the table; the calls in the branches wait.
unfoldable pub walk : List String → List String → List OutLine
unfolding lcs
walk [] [] = []
walk [] (y ∷ b) = added y ∷ walk [] b
walk (x ∷ a) [] = removed x ∷ walk a []
walk (x ∷ a) (y ∷ b) =
    let both = same x ∷ walk a b in
    let plus = added y ∷ walk (x ∷ a) b in
    let minus = removed x ∷ walk a (y ∷ b) in
    if x == y then both else if leb (lcs a (y ∷ b)) (lcs (x ∷ a) b) then plus else minus

abbrev pub is_change : OutLine → Bool
is_change (same s) = false
is_change _ = true

-- The one hunk of `simpleFileDiff`, with the counts of its header; `none` is the empty text.
pub record FileDiff : Type 0 where
  pub old_count : ℕ
  pub new_count : ℕ
  pub lines : List OutLine

abbrev pub file_diff : List String → List String → List OutLine → FileDiff
file_diff a b out = record { old_count = length a; new_count = length b; lines = out }

unfoldable pub simple_file_diff : List String → List String → Option FileDiff
unfolding walk
simple_file_diff a b =
    if ltb 4_000_000 (length a * length b)
    then some (file_diff a b (map removed a ++ map added b))
    else if any is_change (walk a b)
    then some (file_diff a b (walk a b))
    else none
