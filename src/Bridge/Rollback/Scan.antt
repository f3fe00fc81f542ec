-- ===== src/Bridge/Rollback/Scan.antt =====
-- What the scan of a snapshot finds: the entries that differ from the disk, as changes.
use wordpress.Common.{
  All, Bool, Bool-cases, List, Option, Option-cases, String, [], any, ap, arith, err, false,
  if◌then◌else◌, inl, inr, ok, or_else, refl, some, str_eq_refl, sym, true, ◌∙◌, ◌∷◌, ◌≡◌,
}
use wordpress.Bridge.Rollback.{Found, add_found, add_round, locate, scan}
use wordpress.Bridge.Errors.{Try}
use wordpress.Bridge.Execute.Atomic.{reaches}
use wordpress.Bridge.Execute.Restore.{abs_of, is_at}
use wordpress.Bridge.Files.{Buffer, Disk, FileChange, read_file, root_by_id, same_content}
use wordpress.Bridge.World.{SnapshotItem}
use wordpress.Bridge.Writes.{Site, at_rollback}
use wordpress.Bridge.Execute.Targets.{Readable, read_or_null-Readable}
use mathlib.Core.Path.{subst}

pub same_path : {o : Option String} {a b : String} → o ≡ some a → o ≡ some b → a ≡ b
same_path {a = a} e f = ap (λ x. or_else x a) (sym e ∙ f)

module _ (site : Site) where
  -- The entry has what the disk had at its path.
  pub record Remembers (was : Disk) (i : SnapshotItem) : Type 0 where
    pub abs : String
    pub place : abs_of site i.root i.path ≡ some abs
    pub kept : i.content ≡ read_file was abs

  -- A change writes what the disk had at its path.
  abbrev pub Reverts : Disk → FileChange → Type 0
  Reverts was c = (p : String) → abs_of site c.root c.path ≡ some p → c.after ≡ read_file was p

  -- An entry that needs no change, or has one.
  abbrev pub Handled : Disk → List FileChange → SnapshotItem → Type 0
  Handled now cs i =
      (p : String)
      → abs_of site i.root i.path ≡ some p
      → any (reaches site p) cs ≡ false
      → same_content (read_file now p) i.content ≡ true

  -- A round of the scan that goes through.
  record Round (now : Disk) (recorded : List FileChange) (i : SnapshotItem) (is : List SnapshotItem)
      (found : Found) : Type 0 where
    abs : String
    before : Found
    place : abs_of site i.root i.path ≡ some abs
    earlier : scan site recorded now is ≡ ok before
    result : add_found site recorded i (read_file now abs) before ≡ found

  abbrev ok_or : Found → Try Found → Found
  ok_or d (ok f) = f
  ok_or d (err e) = d

  Round-add_round :
      Readable site
      → (now : Disk) (recorded : List FileChange) (i : SnapshotItem) (is : List SnapshotItem)
        (found : Found) (at : Try String) (rest : Try Found)
      → ((abs : String) → at ≡ ok abs → abs_of site i.root i.path ≡ some abs)
      → scan site recorded now is ≡ rest
      → add_round site recorded now i at rest ≡ ok found
      → Round now recorded i is found
  unfolding add_round
  Round-add_round readable now recorded i is found (err x) rest place earlier e = ground (arith, e)
  Round-add_round readable now recorded i is found (ok abs) (err x) place earlier e =
      ground (arith, e)
  Round-add_round readable now recorded i is found (ok abs) (ok before) place earlier e = record {
    abs = abs;
    before = before;
    place = place abs refl;
    earlier = earlier;
    result = rw (read_or_null-Readable site readable at_rollback now abs) at (ap (ok_or found) e);
  }

  locate-abs_of :
      (i : SnapshotItem) (abs : String)
      → locate site i ≡ ok abs
      → abs_of site i.root i.path ≡ some abs
  unfolding locate
  locate-abs_of i abs e = elim (Option-cases (root_by_id site.roots i.root)) [
    | inl gone ↦ ground (arith, rw (gone, locate) at e)
    | inr (root, known) ↦ rw (known, abs_of) (rw (rw (known, locate) at e) refl)
  ]

  scan-Round :
      Readable site
      → (now : Disk) (recorded : List FileChange) (i : SnapshotItem) (is : List SnapshotItem)
        (found : Found)
      → scan site recorded now (i ∷ is) ≡ ok found
      → Round now recorded i is found
  unfolding scan
  scan-Round readable now recorded i is found e =
      Round-add_round readable now recorded i is found (locate site i) (scan site recorded now is)
        (locate-abs_of i) refl e

  any-later :
      (p : String) (b : Bool) (c : FileChange) (cs : List FileChange)
      → any (reaches site p) (if b then cs else c ∷ cs) ≡ false
      → any (reaches site p) cs ≡ false
  any-later p true c cs h = h
  any-later p false c cs h = ground (arith, h)

  Handled-add_found :
      (now : Disk) (recorded : List FileChange) (i : SnapshotItem) (disk : Option Buffer)
      (found : Found) (is : List SnapshotItem)
      → All (Handled now found.changes) is
      → All (Handled now (add_found site recorded i disk found).changes) is
  unfolding add_found
  Handled-add_found now recorded i disk found [] h = tt
  Handled-add_found now recorded i disk found (j ∷ is) (g, h) = (
    λ p e n. g p e (any-later p (same_content disk i.content) _ found.changes n),
    Handled-add_found now recorded i disk found is h,
  )

  Handled-here :
      (now : Disk) (recorded : List FileChange) (i : SnapshotItem) (abs : String) (found : Found)
      → abs_of site i.root i.path ≡ some abs
      → Handled now (add_found site recorded i (read_file now abs) found).changes i
  unfolding add_found
  Handled-here now recorded i abs found e p e' n =
      elim (Bool-cases (same_content (read_file now abs) i.content)) [
        | inl same_now ↦
            subst (λ q. same_content (read_file now q) i.content ≡ true) (same_path e e') same_now
        | inr differs ↦ ground (arith, str_eq_refl p, ap (is_at site p) e', rw differs at n)
      ]

  pub scan-Handled :
      Readable site
      → (now : Disk) (recorded : List FileChange) (is : List SnapshotItem) (found : Found)
      → scan site recorded now is ≡ ok found
      → All (Handled now found.changes) is
  scan-Handled readable now recorded [] found e = tt
  scan-Handled readable now recorded (i ∷ is) found e =
      let r = scan-Round readable now recorded i is found e in
      subst (λ f. All (Handled now f.changes) (i ∷ is)) r.result
        (
          Handled-here now recorded i r.abs r.before r.place,
          Handled-add_found now recorded i (read_file now r.abs) r.before is
              (scan-Handled readable now recorded is r.before r.earlier),
        )

  add_found-Reverts :
      (was : Disk) (recorded : List FileChange) (i : SnapshotItem) (disk : Option Buffer)
      (found : Found)
      → Remembers was i
      → All (Reverts was) found.changes
      → All (Reverts was) (add_found site recorded i disk found).changes
  unfolding add_found
  add_found-Reverts was recorded i disk found m h =
      elim (Bool-cases (same_content disk i.content)) [
        | inl same_now ↦ rw same_now h
        | inr differs ↦ rw differs (λ p e. m.kept ∙ ap (read_file was) (same_path m.place e), h)
      ]

  pub scan-Reverts :
      Readable site
      → (was now : Disk) (recorded : List FileChange) (is : List SnapshotItem) (found : Found)
      → All (Remembers was) is
      → scan site recorded now is ≡ ok found
      → All (Reverts was) found.changes
  unfolding scan
  scan-Reverts readable was now recorded [] found m e =
      subst (λ f. All (Reverts was) f.changes) (ap (ok_or found) e) tt
  scan-Reverts readable was now recorded (i ∷ is) found (m, ms) e =
      let r = scan-Round readable now recorded i is found e in
      subst (λ f. All (Reverts was) f.changes) r.result
        (add_found-Reverts was recorded i (read_file now r.abs) r.before m
          (scan-Reverts readable was now recorded is r.before ms r.earlier))
