-- ===== src/Bridge/Execute/Prepare.antt =====
-- What `executeChanges` has done when its `try` begins: the targets are resolved, the snapshot, the
-- record and the marker are written, and the site is untouched.
use wordpress.Common.{
  All, Bool, List, Option, Post, Post-bind, Post-map, String, [], ap, false, if◌then◌else◌, lookup,
  lookup-insert, map, pure, refl, some, str_eq_refl, take, true, ◌>>◌, ◌∙◌, ◌≡◌,
}
use wordpress.Bridge.Execute.{live_before, prepare, record_start}
use wordpress.Bridge.Errors.{Thrown}
use wordpress.Bridge.Execute.Body.{Quiet, Quiet-live_routes, Still, Still-of, call-Post}
use wordpress.Bridge.Execute.Targets.{IsTarget, Readable, resolve_targets-IsTarget}
use wordpress.Bridge.Files.{Disk, FileChange}
use wordpress.Bridge.Revisions.{current}
use wordpress.Bridge.Revisions.Laws.{current-created}
use wordpress.Bridge.World.{
  RevisionRecord, SnapshotItem, World, set_marker, write_record, write_snapshot,
}
use wordpress.Bridge.Writes.{
  ExecuteInput, Site, Target, live_routes, resolve_targets, snapshot_item,
}

abbrev entries : List Target → List SnapshotItem
entries ts = map snapshot_item ts

pub record Ready (site : Site) (was : Disk) (id : String) (cs : List FileChange) (ts : List Target)
    (v : World) : Type 0 where
  pub targets : All (IsTarget site was) ts
  pub changes : map (λ t. t.change) ts ≡ cs
  pub disk : v.disk ≡ was
  pub snapshot : lookup id v.snapshots ≡ some (map snapshot_item ts)
  pub marked : v.in_progress id ≡ true
  pub newest : current v.events ≡ some id

module _ (site : Site) (input : ExecuteInput) where
  abbrev id : String
  id = input.revision_id

  Quiet-live_before : Quiet (live_before site input)
  unfolding live_before
  Quiet-live_before = go site.has_internal_url
    where
      go :
          (b : Bool)
          → Quiet (if b then live_routes site (take 20 input.impacted_routes) else pure [])
      go true = Quiet-live_routes site (take 20 input.impacted_routes)
      go false = λ w. Still-of w w.locals w.faults w.answers

  -- The state once the snapshot, the event and the marker are there.
  abbrev HasSnapshot : Disk → List Target → World → Type 0
  HasSnapshot was ts v = (v.disk ≡ was) × (lookup id v.snapshots ≡ some (map snapshot_item ts))

  abbrev HasEvent : Disk → List Target → World → Type 0
  HasEvent was ts v = HasSnapshot was ts v × (current v.events ≡ some id)

  abbrev HasMarker : Disk → List Target → World → Type 0
  HasMarker was ts v = HasEvent was ts v × (v.in_progress id ≡ true)

  write_snapshot-Post :
      (was : Disk) (ts : List Target) (w : World)
      → w.disk ≡ was
      → Post
          (λ _. HasSnapshot was ts)
          (λ _ v. v.disk ≡ was)
          (write_snapshot id (map snapshot_item ts) w)
  unfolding write_snapshot
  write_snapshot-Post was ts w e =
      call-Post _ w (HasSnapshot was ts) (λ v. v.disk ≡ was) (e, rw lookup-insert (rw str_eq_refl))
        e e

  write_record-Post :
      (was : Disk) (ts : List Target) (r : RevisionRecord) (w : World)
      → r.revision_id ≡ id
      → HasSnapshot was ts w
      → Post (λ _. HasEvent was ts) (λ _ v. v.disk ≡ was) (write_record r w)
  unfolding write_record
  write_record-Post was ts r w same (e, s) =
      Post-bind (λ _. HasSnapshot was ts) (λ _. HasEvent was ts) (λ _ v. v.disk ≡ was) _ _
        (call-Post _ w (HasSnapshot was ts) (λ v. v.disk ≡ was) (e, s) e e)
        (λ _ v (d, t).
          call-Post _ v (HasEvent was ts) (λ v. v.disk ≡ was)
            ((d, t), current-created v.events _ ∙ ap some same) d d)

  set_marker-Post :
      (was : Disk) (ts : List Target) (w : World)
      → HasEvent was ts w
      → Post (λ _. HasMarker was ts) (λ _ v. v.disk ≡ was) (set_marker id w)
  unfolding set_marker
  set_marker-Post was ts w h =
      call-Post _ w (HasMarker was ts) (λ v. v.disk ≡ was) (h, rw str_eq_refl) h.0.0 h.0.0

  record_start-Post :
      (was : Disk) (parent : Option String) (ts : List Target) (w : World)
      → w.disk ≡ was
      → Post (λ _. HasMarker was ts) (λ _ v. v.disk ≡ was) (record_start site input parent ts w)
  unfolding record_start
  record_start-Post was parent ts w e =
      let still_here = λ (_ : Thrown) (v : World). v.disk ≡ was in
      Post-bind (λ _. HasSnapshot was ts) (λ _. HasMarker was ts) still_here
        (write_snapshot id (map snapshot_item ts) w) _ (write_snapshot-Post was ts w e)
        (λ _ v h.
          Post-bind (λ _. HasEvent was ts) (λ _. HasMarker was ts) still_here (write_record _ v) _
            (write_record-Post was ts _ v refl h)
            (λ _ u k.
              Post-bind (λ _. HasMarker was ts) (λ _. HasMarker was ts) still_here (set_marker id u)
                _ (set_marker-Post was ts u k) (λ _ x l. l)))

  -- The state at the start of the `try`; a throw before it leaves the disk alone.
  pub prepare-Ready :
      Readable site
      → (w : World)
      → Post
          (λ r v. Ready site w.disk id input.changes r.0 v)
          (λ _ v. v.disk ≡ w.disk)
          (prepare site input w)
  unfolding prepare
  prepare-Ready readable w =
      let was = w.disk in
      let alone = λ (_ : Thrown) (v : World). v.disk ≡ was in
      Post-bind
        (λ ts v.
          All (IsTarget site was) ts × (map (λ t. t.change) ts ≡ input.changes) × (v.disk ≡ was))
        (λ r v. Ready site was id input.changes r.0 v) alone (resolve_targets site input.changes w)
        _ (resolve_targets-IsTarget site readable input.changes w)
        (λ ts v h.
          Post-bind (λ _ u. u.disk ≡ was) (λ r x. Ready site was id input.changes r.0 x) alone
            (live_before site input v)
            (λ routes. (do record_start site input (current w.events) ts; pure (ts, routes)))
            (Post-map (λ _. Still v) (λ _. Still v) (λ _ u. u.disk ≡ was) alone
              (live_before site input v) (Quiet-live_before v) (λ _ u s. s.disk ∙ h.2)
              (λ _ u s. s.disk ∙ h.2))
            (λ routes u e.
              Post-bind (λ _. HasMarker was ts) (λ r x. Ready site was id input.changes r.0 x) alone
                (record_start site input (current w.events) ts u) (λ _. pure (ts, routes))
                (record_start-Post was (current w.events) ts u e)
                (λ _ x k. record {
                  targets = h.0;
                  changes = h.1;
                  disk = k.0.0.0;
                  snapshot = k.0.0.1;
                  newest = k.0.1;
                  marked = k.1;
                })))
