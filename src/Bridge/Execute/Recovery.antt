-- ===== src/Bridge/Execute/Recovery.antt =====
-- A restart with `recoverInterrupted`, when the file system does not fail.
use wordpress.Common.{
  All, Bool, Bool-cases, List, Option, Option-cases, Post, Post-bind, Post-both, Post-caught,
  Post-map, Result, String, [], any, ap, arith, eq_iff, false, inl, inr, none, pure, refl, some,
  str_eq_refl, true, ℕ, ◌==◌, ◌∙◌, ◌∷◌, ◌≡◌, ◌⊎◌,
}
use wordpress.Bridge.Execute.{
  put_content, recover_interrupted, recover_marked, recover_revision, recover_revisions,
  restore_file, restore_item, restore_items, restore_snapshot,
}
use wordpress.Bridge.Errors.{Thrown}
use wordpress.Bridge.Execute.Restore.{Mid, Saves}
use wordpress.Bridge.Execute.Undo.{Exact, Recoverable, restore_snapshot-Post}
use wordpress.Bridge.Files.{
  Buffer, Disk, Fault, File, after_effect, before_effect, later_faults, next_fault, passes,
}
use wordpress.Bridge.Revisions.{RevisionSummary, current, first_live, list}
use wordpress.Bridge.World.{
  SnapshotItem, World, call, clear_marker, durable_delete, faulty, set_status,
}
use wordpress.Bridge.Writes.{Site}

-- Without faults the action returns, and the schedule is still empty.
abbrev Returns : (World → Type 0) → {A : Type 0} → Result Thrown A × World → Type 0
Returns Q o = Post (λ _. Q) (λ _ _. ⊥) o

abbrev HasNoFaults : World → Type 0
HasNoFaults w = w.faults ≡ []

call-Returns :
    (f : World → World) (w : World) (Q : World → Type 0)
    → HasNoFaults w
    → Q (f (record w { faults = later_faults w.faults }))
    → Returns Q (call f w)
call-Returns f w Q e q = go (next_fault w.faults) (ap next_fault e)
  where
    go :
        (x : Fault)
        → x ≡ passes
        → Returns Q (faulty x f (record w { faults = later_faults w.faults }))
    go passes h = q
    go before_effect h = cc
    go after_effect h = cc

module _ (site : Site) where
  put_content-Returns :
      (abs : String) (mode : Option ℕ) (o : Option Buffer) (w : World)
      → HasNoFaults w
      → Returns HasNoFaults (put_content site abs mode o w)
  unfolding put_content
  put_content-Returns abs mode none w e = gone (Option-cases (w.disk abs))
    where
      gone :
          (w.disk abs ≡ none) ⊎ ((f : File) × (w.disk abs ≡ some f))
          → Returns HasNoFaults (durable_delete abs w)
      gone (inl h) = rw (h, durable_delete) (call-Returns _ w HasNoFaults e (ap later_faults e))
      gone (inr (f, h)) =
          rw (h, durable_delete) (call-Returns _ w HasNoFaults e (ap later_faults e))
  put_content-Returns abs mode (some b) w e = call-Returns _ w HasNoFaults e (ap later_faults e)

  restore_item-Returns :
      (was : Disk) (i : SnapshotItem) (w : World)
      → Saves site was i
      → HasNoFaults w
      → Returns HasNoFaults (restore_item site i w)
  unfolding restore_item restore_file
  restore_item-Returns was i w s e =
      rw (s.known, restore_item)
        (rw (s.resolved, restore_item) (put_content-Returns s.abs i.mode _ w e))

  restore_items-Returns :
      (was : Disk) (is : List SnapshotItem) (w : World)
      → All (Saves site was) is
      → HasNoFaults w
      → Returns HasNoFaults (restore_items site is w)
  unfolding restore_items
  restore_items-Returns was [] w s e = e
  restore_items-Returns was (i ∷ is) w (s, ss) e =
      Post-bind (λ _. HasNoFaults) (λ _. HasNoFaults) (λ _ _. ⊥) (restore_item site i w) _
        (restore_item-Returns was i w s e) (λ _ v h. restore_items-Returns was is v ss h)

  -- Of the revisions other than this one none is marked, and there are no faults.
  pub record Others (id : String) (w : World) : Type 0 where
    pub unmarked : (j : String) → (id == j) ≡ false → w.in_progress j ≡ false
    pub no_faults : w.faults ≡ []

  -- The recovery of a revision has happened.
  pub record Recovered (was : Disk) (id : String) (w : World) : Type 0 where
    pub exact : Exact was w
    pub done : w.in_progress id ≡ false
    pub others : Others id w

  Mid-Recoverable :
      {was : Disk} {id : String} {w : World} (r : Recoverable site was id w)
      → Mid site was r.items w w
  Mid-Recoverable r = record { near = r.near; snapshots = refl; in_progress = refl; events = refl }

  restore_snapshot-Returns :
      (was : Disk) (id : String) (w : World) (r : Recoverable site was id w)
      → HasNoFaults w
      → Returns
          (λ v. (Exact was v × Mid site was r.items w v) × HasNoFaults v)
          (restore_snapshot site id w)
  restore_snapshot-Returns was id w r e =
      Post-map _ _ _ _ (restore_snapshot site id w)
        (Post-both (λ _ v. Exact was v × Mid site was r.items w v) (λ _. Mid site was r.items w)
          (λ _. HasNoFaults) (λ _ _. ⊥) (restore_snapshot site id w)
          (restore_snapshot-Post site was r.items id w w
            (record { marked = r.marked; snapshot = r.snapshot; saved = r.saved })
            (Mid-Recoverable r))
          (unfold restore_snapshot in
            rw (r.snapshot, restore_snapshot) (restore_items-Returns was r.items w r.saved e)))
        (λ _ v h. h) (λ _ v h. h.1)

  recover_marked-Recovered :
      (was : Disk) (id : String) (w : World)
      → Recoverable site was id w
      → Others id w
      → Returns (Recovered was id) (recover_marked site id w)
  unfolding recover_marked set_status
  recover_marked-Recovered was id w r o =
      let Back = λ (v : World). Exact was v × (v.in_progress ≡ w.in_progress) × HasNoFaults v in
      Post-bind (λ _. Back) (λ _. Recovered was id) (λ _ _. ⊥) (restore_snapshot site id w) _
        (Post-map _ _ _ _ (restore_snapshot site id w)
          (restore_snapshot-Returns was id w r o.no_faults)
          (λ _ v h. (h.0.0, h.0.1.in_progress, h.1)) (λ _ v h. h))
        (λ _ v h.
          Post-bind (λ _. Back) (λ _. Recovered was id) (λ _ _. ⊥) _ _
            (call-Returns _ v Back h.2 (h.0, h.1, ap later_faults h.2)) (λ _ u k. cleared u k))
    where
      cleared :
          (u : World)
          → (Exact was u × (u.in_progress ≡ w.in_progress) × HasNoFaults u)
          → Returns (Recovered was id) (clear_marker id u)
      cleared u (e, m, f) =
          unfold clear_marker in
          rw (f, clear_marker)
            (record {
              exact = e;
              done = rw str_eq_refl refl;
              others = record {
                unmarked = λ j n. rw n (ap (λ (g : String → Bool). g j) m ∙ o.unmarked j n);
                no_faults = ap later_faults f;
              };
            })

  recover_unmarked :
      (j : String) (w : World) (Q : World → Type 0)
      → w.in_progress j ≡ false
      → Q w
      → Returns Q (recover_revision site j w)
  unfolding recover_revision
  recover_unmarked j w Q e q = rw (e, recover_revision) q

  recover_revision-Recovered :
      (was : Disk) (id : String) (w : World)
      → Recoverable site was id w
      → Others id w
      → Returns (Recovered was id) (recover_revision site id w)
  unfolding recover_revision
  recover_revision-Recovered was id w r o =
      rw (r.marked, recover_revision)
        (Post-caught (λ _. Recovered was id) (λ _ _. ⊥) (λ _ _. ⊥) (recover_marked site id w)
          (λ _. pure tt) (recover_marked-Recovered was id w r o) (λ _ v no_error. absurd no_error))

  -- Once recovered, further rounds change nothing.
  recover_revisions_after :
      (was : Disk) (id : String) (rs : List RevisionSummary) (w : World)
      → Recovered was id w
      → Returns (Recovered was id) (recover_revisions site rs w)
  unfolding recover_revisions
  recover_revisions_after was id [] w h = h
  recover_revisions_after was id (r ∷ rs) w h =
      Post-bind (λ _. Recovered was id) (λ _. Recovered was id) (λ _ _. ⊥)
        (recover_revision site r.revision_id w) _
        (recover_unmarked r.revision_id w (Recovered was id) (unmarked r.revision_id) h)
        (λ _ v k. recover_revisions_after was id rs v k)
    where
      unmarked : (j : String) → w.in_progress j ≡ false
      unmarked j = elim (Bool-cases (id == j)) [
        | inl same ↦ rw (← (eq_iff id j).0 same) h.done
        | inr other ↦ h.others.unmarked j other
      ]

  recover_revisions-Recovered :
      (was : Disk) (id : String) (rs : List RevisionSummary) (w : World)
      → any (λ r. id == r.revision_id) rs ≡ true
      → Recoverable site was id w
      → Others id w
      → Returns (Recovered was id) (recover_revisions site rs w)
  unfolding recover_revisions
  recover_revisions-Recovered was id [] w n r o = cc
  recover_revisions-Recovered was id (s ∷ rs) w n r o = elim (Bool-cases (id == s.revision_id)) [
    | inl same ↦
        Post-bind (λ _. Recovered was id) (λ _. Recovered was id) (λ _ _. ⊥)
          (recover_revision site s.revision_id w) _
          (rw (← (eq_iff id s.revision_id).0 same) (recover_revision-Recovered was id w r o))
          (λ _ v k. recover_revisions_after was id rs v k)
    | inr other ↦
        Post-bind (λ _ v. Recoverable site was id v × Others id v) (λ _. Recovered was id)
          (λ _ _. ⊥) (recover_revision site s.revision_id w) _
          (recover_unmarked s.revision_id w (λ v. Recoverable site was id v × Others id v)
            (o.unmarked s.revision_id other) (r, o))
          (λ _ v k. recover_revisions-Recovered was id rs v (rw other at n) k.0 k.1)
  ]

  first_live-any :
      (id : String) (rs : List RevisionSummary)
      → first_live rs ≡ some id
      → any (λ r. id == r.revision_id) rs ≡ true
  first_live-any id [] e = cc
  first_live-any id (r ∷ rs) e = ground (arith, first_live-any id rs, eq_iff id r.revision_id)

  -- After a crash in the middle of an apply (a marked current revision whose snapshot saves every path
  -- that may have changed, no other revision being marked), and where no call that writes or deletes a
  -- file or records a status throws (as it would where a directory stands in a file's place),
  -- `recoverInterrupted` returns, every path of the disk is what it was before the apply, and the
  -- marker is gone.
  pub recover_interrupted-Recovered :
      (was : Disk) (id : String) (w : World)
      → current w.events ≡ some id
      → Recoverable site was id w
      → Others id w
      → Returns (Recovered was id) (recover_interrupted site w)
  unfolding recover_interrupted current
  recover_interrupted-Recovered was id w e r o =
      recover_revisions-Recovered was id (list w.events) w (first_live-any id (list w.events) e) r o
