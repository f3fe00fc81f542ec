-- ===== src/Bridge/Execute/Undo.antt =====
-- What the handler of `executeChanges` and a restart can count on: a snapshot that covers whatever
-- has changed gives the disk back.
use wordpress.Common.{
  All, Bool, List, Post, Post-bind, Post-both, Post-caught, Post-map, Result, String, [], ap, catch,
  false, if◌then◌else◌, inl, inr, lookup, pure, raise, refl, some, true, ◌==◌, ◌∙◌, ◌∷◌, ◌≡◌, ◌⊎◌,
}
use wordpress.Bridge.Execute.{
  after_restore, restore_items, restore_snapshot, revalidate_again, undo,
}
use wordpress.Bridge.Errors.{Thrown, bridge, verify_failed}
use wordpress.Bridge.Execute.Body.{Quiet-run_revalidator, Still, call-Post}
use wordpress.Bridge.Execute.Restore.{Keeps-restore_items, Mid, Near, Saves, restore_items-exact}
use wordpress.Bridge.Files.{
  Disk, Fault, after_effect, before_effect, later_faults, next_fault, passes,
}
use wordpress.Bridge.World.{SnapshotItem, World, clear_marker, run_revalidator, set_status}
use wordpress.Bridge.Writes.{Site}

-- Every file is what it was.
abbrev pub Exact : Disk → World → Type 0
Exact was v = (p : String) → v.disk p ≡ was p

-- What a restart needs: the marker, and a snapshot that covers whatever has changed.
pub record Recoverable (site : Site) (was : Disk) (id : String) (v : World) : Type 0 where
  pub items : List SnapshotItem
  pub marked : v.in_progress id ≡ true
  pub snapshot : lookup id v.snapshots ≡ some items
  pub saved : All (Saves site was) items
  pub near : Near site was items v.disk

pub clear_marker-Post :
    (id : String) (w : World) (Q R : World → Type 0)
    → Q (record w {
      in_progress = λ j. if id == j then false else w.in_progress j;
      faults = later_faults w.faults;
    })
    → R (record w { faults = later_faults w.faults })
    → Post (λ _. Q) (λ _. R) (clear_marker id w)
unfolding clear_marker
clear_marker-Post id w Q R q r = go (next_fault w.faults) refl
  where
    go : (x : Fault) → next_fault w.faults ≡ x → Post (λ _. Q) (λ _. R) (clear_marker id w)
    go passes e = rw (e, clear_marker) q
    go before_effect e = rw (e, clear_marker) r
    go after_effect e = rw (e, clear_marker) q

module _ (site : Site) (was : Disk) (items : List SnapshotItem) (id : String) (start : World) where
  -- What the start of the `try` provides.
  pub record Begun : Type 0 where
    pub marked : start.in_progress id ≡ true
    pub snapshot : lookup id start.snapshots ≡ some items
    pub saved : All (Saves site was) items

  pub Recoverable-Mid : {v : World} → Begun → Mid site was items start v → Recoverable site was id v
  Recoverable-Mid b m = record {
    items = items;
    marked = ap (λ (f : String → Bool). f id) m.in_progress ∙ b.marked;
    snapshot = ap (lookup id) m.snapshots ∙ b.snapshot;
    saved = b.saved;
    near = m.near;
  }

  -- A restore that returns gives the disk back; one that throws leaves the state in the middle.
  pub restore_snapshot-Post :
      (w : World)
      → Begun
      → Mid site was items start w
      → Post
          (λ _ v. Exact was v × Mid site was items start v)
          (λ _. Mid site was items start)
          (restore_snapshot site id w)
  unfolding restore_snapshot
  restore_snapshot-Post w b m =
      rw (ap (lookup id) m.snapshots ∙ b.snapshot, restore_snapshot)
        (Post-map _ _ _ _ (restore_items site items w)
          (Post-both _ _ _ _ (restore_items site items w)
            (restore_items-exact site was items w b.saved m.near)
            (Keeps-restore_items site was items start items b.saved (λ p n. n) w m))
          (λ _ v h. h) (λ _ v h. h.1))

module _ (site : Site) (was : Disk) where
  Exact-Still : {w v : World} → Exact was w → Still w v → Exact was v
  Exact-Still e s p = ap (λ (d : Disk). d p) s.disk ∙ e p

  -- The action always throws, and the disk is then as it was.
  abbrev ThrowsExact : {A : Type 0} → Result Thrown A × World → Type 0
  ThrowsExact o = Post (λ _ _. ⊥) (λ _. Exact was) o

  revalidate_again-Exact :
      (rs : List String) (w : World)
      → Exact was w
      → Post (λ _. Exact was) (λ _. Exact was) (revalidate_again site rs w)
  unfolding revalidate_again
  revalidate_again-Exact [] w e = e
  revalidate_again-Exact (r ∷ rs) w e = go site.revalidator_enabled
    where
      go :
          (b : Bool)
          → Post
              (λ _. Exact was)
              (λ _. Exact was)
              ((if b then catch (run_revalidator (r ∷ rs)) (λ _. pure tt) else pure tt) w)
      go true =
          Post-caught (λ _. Exact was) (λ _. Exact was) (λ _. Exact was)
            (run_revalidator (r ∷ rs) w) (λ _. pure tt)
            (Post-map (λ _. Still w) (λ _. Still w) (λ _. Exact was) (λ _. Exact was)
              (run_revalidator (r ∷ rs) w) (Quiet-run_revalidator (r ∷ rs) w)
              (λ _ v s. Exact-Still e s) (λ _ v s. Exact-Still e s))
            (λ _ v h. h)
      go false = e

  -- What the handler does after the restore touches no file, and ends in a throw.
  after_restore-Exact :
      (id : String) (w : World) → Exact was w → ThrowsExact (after_restore site id w)
  unfolding after_restore set_status
  after_restore-Exact id w e =
      let exact = λ (_ : Unit {0}). Exact was in
      Post-bind exact (λ _ _. ⊥) (λ _. Exact was) _ _ (call-Post _ w (Exact was) (Exact was) e e e)
        (λ _ v h.
          Post-bind exact (λ _ _. ⊥) (λ _. Exact was) (clear_marker id v) _
            (clear_marker-Post id v (Exact was) (Exact was) h h)
            (λ _ u k.
              Post-bind exact (λ _ _. ⊥) (λ _. Exact was)
                (revalidate_again site u.locals.revalidated u) (λ _. raise (bridge verify_failed))
                (revalidate_again-Exact u.locals.revalidated u k) (λ _ x l. l)))

  -- The handler throws with the disk as it was, or with the state that the `try` left.
  pub undo-Post :
      (items : List SnapshotItem) (id : String) (start w : World)
      → Begun site was items id start
      → Mid site was items start w
      → Post (λ _ _. ⊥) (λ _ v. Exact was v ⊎ Mid site was items start v) (undo site id w)
  unfolding undo
  undo-Post items id start w b m =
      let undone = λ (_ : Thrown) (v : World). Exact was v ⊎ Mid site was items start v in
      Post-bind (λ _. Exact was) (λ _ _. ⊥) undone (restore_snapshot site id w) _
        (Post-map (λ _ v. Exact was v × Mid site was items start v) (λ _. Mid site was items start)
          (λ _. Exact was) undone (restore_snapshot site id w)
          (restore_snapshot-Post site was items id start w b m) (λ _ v h. h.0) (λ _ v h. inr h))
        (λ _ v h.
          Post-map (λ _ _. ⊥) (λ _. Exact was) (λ _ _. ⊥) undone (after_restore site id v)
            (after_restore-Exact id v h) (λ _ u k. k) (λ _ u k. inl k))
