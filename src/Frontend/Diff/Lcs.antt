-- ===== src/Frontend/Diff/Lcs.antt =====
-- The one-file diff: what it removes and adds, and that it keeps as many lines as can be kept.
use wordpress.Common.{
  List, String, [], any, ap, append-nil, arith, eq_iff, false, length, map, none, refl, some,
  str_eq_refl, sym, ℕ, ◌*◌, ◌++◌, ◌+◌, ◌↔◌, ◌∙◌, ◌∷◌, ◌≡◌, ◌≤◌,
}
use wordpress.Frontend.Diff.{
  same, FileDiff, OutLine, added, is_change, lcs, removed, simple_file_diff, walk,
}
use mathlib.Core.Path.{subst}

-- The lines of the old file, of the new one, and those that the diff keeps.
abbrev pub old_side : List OutLine → List String
old_side [] = []
old_side (same s ∷ out) = s ∷ old_side out
old_side (added s ∷ out) = old_side out
old_side (removed s ∷ out) = s ∷ old_side out

abbrev pub new_side : List OutLine → List String
new_side [] = []
new_side (same s ∷ out) = s ∷ new_side out
new_side (added s ∷ out) = s ∷ new_side out
new_side (removed s ∷ out) = new_side out

abbrev pub kept : List OutLine → ℕ
kept [] = 0
kept (same s ∷ out) = kept out + 1
kept (added s ∷ out) = kept out
kept (removed s ∷ out) = kept out

walk_sides : (a b : List String) → (old_side (walk a b) ≡ a) × (new_side (walk a b) ≡ b)
unfolding walk
walk_sides [] [] = (refl, refl)
walk_sides [] (y ∷ b) = ground (arith, walk_sides [] b)
walk_sides (x ∷ a) [] = ground (arith, walk_sides a [])
walk_sides (x ∷ a) (y ∷ b) =
    ground (arith, eq_iff x y, walk_sides a b, walk_sides (x ∷ a) b, walk_sides a (y ∷ b))

lcs-nil : (a : List String) → lcs a [] ≡ 0
unfolding lcs
lcs-nil [] = refl
lcs-nil (x ∷ a) = refl

kept-walk : (a b : List String) → kept (walk a b) ≡ lcs a b
unfolding walk
kept-walk [] [] = refl
kept-walk [] (y ∷ b) = kept-walk [] b
kept-walk (x ∷ a) [] = kept-walk a [] ∙ lcs-nil a
kept-walk (x ∷ a) (y ∷ b) = ground (arith, kept-walk a b, kept-walk (x ∷ a) b, kept-walk a (y ∷ b))

-- `c` is what is left of a list when some of its elements are dropped.
pub data Subsequence : List String → List String → Type 0 where
  done : Subsequence [] []
  drop_it : {c a : List String} {x : String} → Subsequence c a → Subsequence c (x ∷ a)
  take_it : {c a : List String} {x : String} → Subsequence c a → Subsequence (x ∷ c) (x ∷ a)

lcs_comm : (a b : List String) → lcs a b ≡ lcs b a
unfolding lcs
lcs_comm [] [] = refl
lcs_comm [] (y ∷ b) = refl
lcs_comm (x ∷ a) [] = refl
lcs_comm (x ∷ a) (y ∷ b) =
    ground (arith, eq_iff x y, eq_iff y x, lcs_comm a b, lcs_comm (x ∷ a) b, lcs_comm a (y ∷ b))

-- One more line on the left adds at least nothing; one more on the right adds at most one.
lcs_bounds :
    (a b : List String) (x y : String) → (lcs a b ≤ lcs (x ∷ a) b) × (lcs a (y ∷ b) ≤ lcs a b + 1)
unfolding lcs
lcs_bounds [] [] x y = omega arith
lcs_bounds [] (w ∷ b) x y = omega arith
lcs_bounds (z ∷ a) [] x y = ground (arith, lcs_bounds a [] z y, lcs-nil a)
lcs_bounds (z ∷ a) (w ∷ b) x y = ground (arith, lcs_bounds a (w ∷ b) z y, lcs_bounds (z ∷ a) b x w)

lcs_mono_right : (a b : List String) (y : String) → lcs a b ≤ lcs a (y ∷ b)
lcs_mono_right a b y = omega (arith, lcs_comm a b, lcs_comm a (y ∷ b), (lcs_bounds b a y y).0)

lcs-cons_same : (x : String) (a b : List String) → lcs (x ∷ a) (x ∷ b) ≡ lcs a b + 1
unfolding lcs
lcs-cons_same x a b = ground (arith, str_eq_refl x)

Subsequence-le : {c a b : List String} → Subsequence c a → Subsequence c b → length c ≤ lcs a b
Subsequence-le done q = omega arith
Subsequence-le (drop_it {a} {x} p) q = omega (arith, Subsequence-le p q, (lcs_bounds a _ x x).0)
Subsequence-le (take_it {a} {x} p) (drop_it {a = b} {x = y} q) =
    omega (arith, Subsequence-le (take_it {x = x} p) q, lcs_mono_right (x ∷ a) b y)
Subsequence-le (take_it p) (take_it q) = omega (arith, Subsequence-le p q, lcs-cons_same _ _ _)

-- The kept lines of the walk are a subsequence of both files.
abbrev pub kept_lines : List OutLine → List String
kept_lines [] = []
kept_lines (same s ∷ out) = s ∷ kept_lines out
kept_lines (added s ∷ out) = kept_lines out
kept_lines (removed s ∷ out) = kept_lines out

kept_lines-Subsequence_old : (out : List OutLine) → Subsequence (kept_lines out) (old_side out)
kept_lines-Subsequence_old [] = done
kept_lines-Subsequence_old (same s ∷ out) = take_it (kept_lines-Subsequence_old out)
kept_lines-Subsequence_old (added s ∷ out) = kept_lines-Subsequence_old out
kept_lines-Subsequence_old (removed s ∷ out) = drop_it (kept_lines-Subsequence_old out)

kept_lines-Subsequence_new : (out : List OutLine) → Subsequence (kept_lines out) (new_side out)
kept_lines-Subsequence_new [] = done
kept_lines-Subsequence_new (same s ∷ out) = take_it (kept_lines-Subsequence_new out)
kept_lines-Subsequence_new (added s ∷ out) = drop_it (kept_lines-Subsequence_new out)
kept_lines-Subsequence_new (removed s ∷ out) = kept_lines-Subsequence_new out

length-kept_lines : (out : List OutLine) → length (kept_lines out) ≡ kept out
length-kept_lines [] = refl
length-kept_lines (same s ∷ out) = omega (arith, length-kept_lines out)
length-kept_lines (added s ∷ out) = length-kept_lines out
length-kept_lines (removed s ∷ out) = length-kept_lines out

has_no_change : (out : List OutLine) → any is_change out ≡ false → old_side out ≡ new_side out
has_no_change [] h = refl
has_no_change (same s ∷ out) h = ap (λ l. s ∷ l) (has_no_change out h)
has_no_change (added s ∷ out) h = cc
has_no_change (removed s ∷ out) h = cc

walk_self : (a : List String) → any is_change (walk a a) ≡ false
unfolding walk
walk_self [] = refl
walk_self (x ∷ a) = ground (arith, str_eq_refl x, walk_self a)

old_side-append : (out more : List OutLine) → old_side (out ++ more) ≡ old_side out ++ old_side more
old_side-append [] more = refl
old_side-append (same s ∷ out) more = ap (λ l. s ∷ l) (old_side-append out more)
old_side-append (added s ∷ out) more = old_side-append out more
old_side-append (removed s ∷ out) more = ap (λ l. s ∷ l) (old_side-append out more)

new_side-append : (out more : List OutLine) → new_side (out ++ more) ≡ new_side out ++ new_side more
new_side-append [] more = refl
new_side-append (same s ∷ out) more = ap (λ l. s ∷ l) (new_side-append out more)
new_side-append (added s ∷ out) more = ap (λ l. s ∷ l) (new_side-append out more)
new_side-append (removed s ∷ out) more = new_side-append out more

removed_sides : (a : List String) → (old_side (map removed a) ≡ a) × (new_side (map removed a) ≡ [])
removed_sides [] = (refl, refl)
removed_sides (x ∷ a) = ground (arith, removed_sides a)

added_sides : (b : List String) → (old_side (map added b) ≡ []) × (new_side (map added b) ≡ b)
added_sides [] = (refl, refl)
added_sides (y ∷ b) = ground (arith, added_sides b)

whole_sides :
    (a b : List String)
    → (old_side (map removed a ++ map added b) ≡ a) × (new_side (map removed a ++ map added b) ≡ b)
whole_sides a b = (
  old_side-append (map removed a) (map added b)
      ∙ cc (append-nil a, (removed_sides a).0, (added_sides b).0),
  new_side-append (map removed a) (map added b) ∙ cc ((removed_sides a).1, (added_sides b).1),
)

-- Whatever the sizes, a diff that is returned turns the old lines into the new ones: its unchanged and
-- removed lines are the old file, its unchanged and added lines the new one, and its header counts
-- both.
pub simple_file_diff_sides :
    (a b : List String) (d : FileDiff)
    → simple_file_diff a b ≡ some d
    → (old_side d.lines ≡ a)
      × (new_side d.lines ≡ b)
      × (d.old_count ≡ length a)
      × (d.new_count ≡ length b)
unfolding simple_file_diff
simple_file_diff_sides a b d h = ground (arith, whole_sides a b, walk_sides a b)

-- The empty diff is returned exactly for two equal files of at most 4,000,000 pairs of lines.
pub simple_file_diff-eq-none_iff :
    (a b : List String)
    → (simple_file_diff a b ≡ none) ↔ ((a ≡ b) × (length a * length b ≤ 4_000_000))
unfolding simple_file_diff
simple_file_diff-eq-none_iff a b = (
  λ h. (
    sym (walk_sides a b).0 ∙ (has_no_change (walk a b) (ground (arith, h)) ∙ (walk_sides a b).1),
    ground (arith, h),
  ),
  λ e. ground (arith, e.0, e.1, walk_self a),
)

simple_file_diff-lines :
    (a b : List String) (d : FileDiff)
    → length a * length b ≤ 4_000_000
    → simple_file_diff a b ≡ some d
    → d.lines ≡ walk a b
unfolding simple_file_diff
simple_file_diff-lines a b d small h = ground (arith, h)

-- Up to 4,000,000 pairs of lines, no common subsequence of the two files is longer than what a
-- returned diff keeps unchanged, and what it keeps is such a subsequence.
pub simple_file_diff_minimal :
    (a b : List String) (d : FileDiff)
    → length a * length b ≤ 4_000_000
    → simple_file_diff a b ≡ some d
    → Subsequence (kept_lines d.lines) a
      × Subsequence (kept_lines d.lines) b
      × ((c : List String)
          → Subsequence c a
          → Subsequence c b
          → length c ≤ length (kept_lines d.lines))
simple_file_diff_minimal a b d small h =
    let e = simple_file_diff-lines a b d small h in
    rw e (
      subst (Subsequence (kept_lines (walk a b))) (walk_sides a b).0
          (kept_lines-Subsequence_old (walk a b)),
      subst (Subsequence (kept_lines (walk a b))) (walk_sides a b).1
          (kept_lines-Subsequence_new (walk a b)),
      λ c p q. omega (arith, Subsequence-le p q, length-kept_lines (walk a b), kept-walk a b),
    )
