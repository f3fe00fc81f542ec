-- ===== src/Frontend/Diff/Rows.antt =====
-- Every line of a hunk is shown once on its side, in order, and no line is lost.
use wordpress.Common.{
  Bool, Bool-cases, List, Option, [], arith, false, inl, inr, keep, length, none, not, refl, some,
  suc, true, zero, ℕ, ◌++◌, ◌<◌, ◌∙◌, ◌∷◌, ◌≡◌, ◌≤◌,
}
use wordpress.Frontend.Diff.{
  DiffLine, LineType, Row, add, context, del, is_add, is_context, is_del, rows_from, run_of,
  to_side_by_side_rows, zip_rows,
}

-- The lines shown on the left and on the right.
abbrev pub lefts : List Row → List DiffLine
lefts [] = []
lefts (r ∷ rs) = elim r.left [ none ↦ lefts rs | some l ↦ l ∷ lefts rs ]

abbrev pub rights : List Row → List DiffLine
rights [] = []
rights (r ∷ rs) = elim r.right [ none ↦ rights rs | some l ↦ l ∷ rights rs ]

-- The lines of the old file and of the new one.
abbrev pub is_old : DiffLine → Bool
is_old l = not (is_add l.type)

abbrev pub is_new : DiffLine → Bool
is_new l = not (is_del l.type)

lefts-append : (rs qs : List Row) → lefts (rs ++ qs) ≡ lefts rs ++ lefts qs
lefts-append [] qs = refl
lefts-append (r ∷ rs) qs = ground (arith, lefts-append rs qs)

rights-append : (rs qs : List Row) → rights (rs ++ qs) ≡ rights rs ++ rights qs
rights-append [] qs = refl
rights-append (r ∷ rs) qs = ground (arith, rights-append rs qs)

zip_rows_sides :
    (as' bs : List DiffLine) → (lefts (zip_rows as' bs) ≡ as') × (rights (zip_rows as' bs) ≡ bs)
unfolding zip_rows
zip_rows_sides [] [] = (refl, refl)
zip_rows_sides [] (b ∷ bs) = ground (arith, zip_rows_sides [] bs)
zip_rows_sides (a ∷ as') [] = ground (arith, zip_rows_sides as' [])
zip_rows_sides (a ∷ as') (b ∷ bs) = ground (arith, zip_rows_sides as' bs)

-- What a run does to a filter that keeps the whole run, or none of it.
run_of-keep :
    (p : LineType → Bool) (q : DiffLine → Bool) (ls : List DiffLine)
    → ((l : DiffLine) → p l.type ≡ true → q l ≡ true)
    → (run_of p ls).0 ++ keep q (run_of p ls).1 ≡ keep q ls
unfolding run_of
run_of-keep p q [] h = refl
run_of-keep p q (l ∷ ls) h = ground (arith, run_of-keep p q ls h, h l)

run_of-drop :
    (p : LineType → Bool) (q : DiffLine → Bool) (ls : List DiffLine)
    → ((l : DiffLine) → p l.type ≡ true → q l ≡ false)
    → keep q (run_of p ls).1 ≡ keep q ls
unfolding run_of
run_of-drop p q [] h = refl
run_of-drop p q (l ∷ ls) h = ground (arith, run_of-drop p q ls h, h l)

length-run_of : (p : LineType → Bool) (ls : List DiffLine) → length (run_of p ls).1 ≤ length ls
unfolding run_of
length-run_of p [] = omega arith
length-run_of p (l ∷ ls) = ground (arith, length-run_of p ls)

-- One round that pairs a run of deletions with a run of additions consumes a line.
run_of_progress :
    (l : DiffLine) (ls : List DiffLine)
    → is_context l.type ≡ false
    → length (run_of is_add (run_of is_del (l ∷ ls)).1).1 ≤ length ls
unfolding run_of
run_of_progress l ls e = go l.type refl
  where
    go :
        (t : LineType)
        → l.type ≡ t
        → length (run_of is_add (run_of is_del (l ∷ ls)).1).1 ≤ length ls
    go context f = cc
    go del f = ground (arith, f, length-run_of is_add (run_of is_del ls).1, length-run_of is_del ls)
    go add f = ground (arith, f, length-run_of is_add ls)

module _ (l : DiffLine) (ls : List DiffLine) where
  abbrev dels : List DiffLine
  dels = (run_of is_del (l ∷ ls)).0

  abbrev rest : List DiffLine
  rest = (run_of is_del (l ∷ ls)).1

  abbrev adds : List DiffLine
  adds = (run_of is_add rest).0

  abbrev more : List DiffLine
  more = (run_of is_add rest).1

  paired_lefts :
      (rows : List Row)
      → lefts rows ≡ keep is_old more
      → lefts (zip_rows dels adds ++ rows) ≡ keep is_old (l ∷ ls)
  paired_lefts rows e =
      lefts-append (zip_rows dels adds) rows
      ∙ cc (
        (zip_rows_sides dels adds).0,
        e,
        run_of-drop is_add is_old rest (λ x h. ground (arith, h)),
        run_of-keep is_del is_old (l ∷ ls) (λ x h. ground (arith, h)),
      )

  paired_rights :
      (rows : List Row)
      → rights rows ≡ keep is_new more
      → rights (zip_rows dels adds ++ rows) ≡ keep is_new (l ∷ ls)
  paired_rights rows e =
      rights-append (zip_rows dels adds) rows
      ∙ cc (
        (zip_rows_sides dels adds).1,
        e,
        run_of-keep is_add is_new rest (λ x h. ground (arith, h)),
        run_of-drop is_del is_new (l ∷ ls) (λ x h. ground (arith, h)),
      )

-- With more fuel than lines, the rows exist and show the old lines on the left and the new ones on the
-- right.
abbrev Shows : List DiffLine → Option (List Row) → Type 0
Shows ls o =
    (rows : List Row) × (o ≡ some rows)
    × (lefts rows ≡ keep is_old ls)
    × (rights rows ≡ keep is_new ls)

rows_from-Shows : (fuel : ℕ) (ls : List DiffLine) → length ls < fuel → Shows ls (rows_from fuel ls)
unfolding rows_from
rows_from-Shows zero ls h = elim h [ ]
rows_from-Shows (suc fuel) [] h = ([], refl, refl, refl)
rows_from-Shows (suc fuel) (l ∷ ls) h = elim (Bool-cases (is_context l.type)) [
  | inl e ↦
      let (rows, found, le, ri) = rows_from-Shows fuel ls (omega arith) in
      (
        record { left = some l; right = some l } ∷ rows,
        rw e (rw found),
        ground (arith, e, le),
        ground (arith, e, ri),
      )
  | inr e ↦
      let (rows, found, le, ri) =
        rows_from-Shows fuel (more l ls) (omega (arith, run_of_progress l ls e)) in
      (
        zip_rows (dels l ls) (adds l ls) ++ rows,
        rw e (rw found),
        paired_lefts l ls rows le,
        paired_rights l ls rows ri,
      )
]

-- `toSideBySideRows` returns: its left column holds the context and deleted lines of the hunk, and its
-- right column the context and added lines, each once and in the hunk's order.
pub to_side_by_side_rows-Shows :
    (ls : List DiffLine)
    → (rows : List Row) × (to_side_by_side_rows ls ≡ some rows)
      × (lefts rows ≡ keep is_old ls)
      × (rights rows ≡ keep is_new ls)
unfolding to_side_by_side_rows
to_side_by_side_rows-Shows ls = rows_from-Shows (suc (length ls)) ls (omega arith)
