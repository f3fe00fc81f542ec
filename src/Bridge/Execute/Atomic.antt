-- ===== src/Bridge/Execute/Atomic.antt =====
-- `executeChanges` is atomic: it returns with every file written and verified, or it throws with the
-- disk as it was, or with the revision still marked and a snapshot that gives the disk back.
use wordpress.Common.{
  All, Bool, List, Post, Post-bind, Post-caught, Post-map, String, [], any, ap, arith, catch, false,
  if◌then◌else◌, inl, inr, map, refl, some, str_eq_refl, true, ◌==◌, ◌∙◌, ◌∷◌, ◌≡◌, ◌⊎◌,
}
use wordpress.Bridge.Execute.{execute_changes, prepare, undo}
use wordpress.Bridge.Errors.{Thrown}
use wordpress.Bridge.Execute.Body.{
  AreCovered, Mid-Still, Still-of, Verified, Written, try_body-Written,
}
use wordpress.Bridge.Execute.Prepare.{Ready, prepare-Ready}
use wordpress.Bridge.Execute.Restore.{Mid, Saves, abs_of, hits, hits-eq, is_at}
use wordpress.Bridge.Execute.Targets.{IsTarget, Readable}
use wordpress.Bridge.Execute.Undo.{
  Begun, Exact, Recoverable, Recoverable-Mid, clear_marker-Post, undo-Post,
}
use wordpress.Bridge.Files.{Disk, FileChange, later_faults, read_file}
use wordpress.Bridge.Revisions.{current}
use wordpress.Bridge.World.{SnapshotItem, World, clear_marker}
use wordpress.Bridge.Writes.{
  ExecuteInput, ExecuteResult, Site, Target, hash_ok, snapshot_item, try_body,
}
use mathlib.Core.Path.{subst}

module _ (site : Site) where
  entries-Saves :
      (was : Disk) (ts : List Target)
      → All (IsTarget site was) ts
      → All (Saves site was) (map snapshot_item ts)
  entries-Saves was [] h = tt
  entries-Saves was (t ∷ ts) (h, hs) = (h.0, entries-Saves was ts hs)

  entries_cover :
      (was : Disk) (start : World) (all_items : List SnapshotItem) (ts : List Target)
      → All (IsTarget site was) ts
      → ((p : String)
          → any (hits site p) all_items ≡ false
          → any (hits site p) (map snapshot_item ts) ≡ false)
      → AreCovered site was all_items start ts
  entries_cover was start all_items [] h c = tt
  entries_cover was start all_items (t ∷ ts) ((s, e), hs) c = (
    λ p n. ground (arith, c p n, hits-eq site s p, e),
    entries_cover was start all_items ts hs (λ p n. ground (arith, c p n)),
  )

  -- The file of a change is at its absolute path, with the content (by its hash) that is wanted.
  pub record Landed (d : Disk) (c : FileChange) : Type 0 where
    pub abs : String
    pub place : abs_of site c.root c.path ≡ some abs
    pub wanted : hash_ok site c.after (read_file d abs) ≡ true

  Landed-targets :
      (was d : Disk) (ts : List Target)
      → All (IsTarget site was) ts
      → All (Verified site d) ts
      → All (Landed d) (map (λ t. t.change) ts)
  unfolding snapshot_item
  Landed-targets was d [] h v = tt
  Landed-targets was d (t ∷ ts) ((s, e), hs) (v, vs) = (
    record { abs = t.abs; place = ground (arith, s.known, s.resolved, e); wanted = v },
    Landed-targets was d ts hs vs,
  )

  -- The change is at this absolute path.
  abbrev pub reaches : String → FileChange → Bool
  reaches p c = is_at site p (abs_of site c.root c.path)

  hits-entries :
      (p : String) (ts : List Target)
      → any (hits site p) (map snapshot_item ts) ≡ any (reaches p) (map (λ t. t.change) ts)
  unfolding snapshot_item
  hits-entries p [] = refl
  hits-entries p (t ∷ ts) = rw (hits-entries p ts)

  -- What holds when `executeChanges` returns.
  pub record Applied (was : Disk) (input : ExecuteInput) (v : World) : Type 0 where
    pub landed : All (Landed v.disk) input.changes
    pub elsewhere : (p : String) → any (reaches p) input.changes ≡ false → v.disk p ≡ was p
    pub newest : current v.events ≡ some input.revision_id
    pub unmarked : v.in_progress input.revision_id ≡ false

  -- What holds when it throws.
  abbrev pub Safe : Disk → String → World → Type 0
  Safe was id v = Exact was v ⊎ Recoverable site was id v

  module _ (input : ExecuteInput) (was : Disk) (ts : List Target) (start : World) where
    abbrev id : String
    id = input.revision_id

    abbrev saved : List SnapshotItem
    saved = map snapshot_item ts

    module _ (ready : Ready site was id input.changes ts start) where
      Begun-Ready : Begun site was saved id start
      Begun-Ready = record {
        marked = ready.marked;
        snapshot = ready.snapshot;
        saved = entries-Saves was ts ready.targets;
      }

      Mid-Ready : Mid site was saved start start
      Mid-Ready = record {
        near = λ p n. ap (λ (d : Disk). d p) ready.disk;
        snapshots = refl;
        in_progress = refl;
        events = refl;
      }

      abbrev Left : Thrown → World → Type 0
      Left _ v = Exact was v ⊎ Mid site was saved start v

      Safe-Left : (e : Thrown) (v : World) → Left e v → Safe was id v
      Safe-Left e v (inl h) = inl h
      Safe-Left e v (inr m) = inr (Recoverable-Mid site was saved id start Begun-Ready m)

      -- The `try` with its handler.
      try-Written :
          Readable site
          → (routes : List String)
          → Post
              (λ _. Written site was saved start ts)
              Left
              (catch (try_body site ts input.impacted_routes routes) (λ _. undo site id) start)
      try-Written readable routes =
          Post-caught (λ _. Written site was saved start ts) (λ _. Mid site was saved start) Left
            (try_body site ts input.impacted_routes routes start) (λ _. undo site id)
            (try_body-Written site was saved start ts readable input.impacted_routes routes start
              (entries_cover was start saved ts ready.targets (λ p n. n)) Mid-Ready)
            (λ _ v m.
              Post-map (λ _ _. ⊥) Left (λ _. Written site was saved start ts) Left (undo site id v)
                (undo-Post site was saved id start v Begun-Ready m)
                (λ _ _ no_value. absurd no_value) (λ _ _ h. h))

      Applied-Written :
          (v : World)
          → Written site was saved start ts v
          → Applied was input (record v {
            in_progress = λ j. if id == j then false else v.in_progress j;
            faults = later_faults v.faults;
          })
      Applied-Written v (m, verified) = record {
        landed =
            subst (All (Landed v.disk)) ready.changes
              (Landed-targets was v.disk ts ready.targets verified);
        elsewhere = λ p n. m.near p (hits-entries p ts ∙ (ap (any (reaches p)) ready.changes ∙ n));
        newest = ap current m.events ∙ ready.newest;
        unmarked = rw str_eq_refl;
      }

  -- Where no look at a file fails, whatever else fails: `executeChanges` either returns with every
  -- changed file at its place with the wanted hash, every other path unchanged, the new revision current and its marker gone; or it throws, and then every
  -- path of the disk is as it was or the new revision is marked as in progress and its snapshot saves
  -- every path that may have changed.
  pub execute_changes-atomic :
      Readable site
      → (input : ExecuteInput) (w : World)
      → Post
          (λ _ v. Applied w.disk input v)
          (λ _ v. Safe w.disk input.revision_id v)
          (execute_changes site input w)
  unfolding execute_changes
  execute_changes-atomic readable input w =
      let was = w.disk in
      let id = input.revision_id in
      let applied = λ (_ : ExecuteResult) (v : World). Applied was input v in
      let safe = λ (_ : Thrown) (v : World). Safe was id v in
      Post-bind (λ r v. Ready site was id input.changes r.0 v) applied safe (prepare site input w) _
        (Post-map (λ r v. Ready site was id input.changes r.0 v) (λ _ v. v.disk ≡ was)
          (λ r v. Ready site was id input.changes r.0 v) safe (prepare site input w)
          (prepare-Ready site input readable w) (λ _ v r. r)
          (λ _ v e. inl (λ p. ap (λ (d : Disk). d p) e)))
        (λ r v ready.
          Post-bind (λ _. Written site was (map snapshot_item r.0) v r.0) applied safe
            (catch (try_body site r.0 input.impacted_routes r.1) (λ _. undo site id) v) _
            (Post-map (λ _. Written site was (map snapshot_item r.0) v r.0)
              (Left input was r.0 v ready) (λ _. Written site was (map snapshot_item r.0) v r.0)
              safe (catch (try_body site r.0 input.impacted_routes r.1) (λ _. undo site id) v)
              (try-Written input was r.0 v ready readable r.1) (λ _ u h. h)
              (Safe-Left input was r.0 v ready))
            (λ _ u h.
              Post-bind (λ _. Applied was input) applied safe (clear_marker id u) _
                (clear_marker-Post id u (Applied was input) (Safe was id)
                  (Applied-Written input was r.0 v ready u h)
                  (inr (
                    Recoverable-Mid site was (map snapshot_item r.0) id v
                      (Begun-Ready input was r.0 v ready) (Mid-Still h.0 (Still-of u _ _ _)))))
                (λ _ x a. a)))
