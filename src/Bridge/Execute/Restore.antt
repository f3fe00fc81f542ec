-- ===== src/Bridge/Execute/Restore.antt =====
-- Restoring a snapshot: `restoreSnapshot` puts every saved file back.
use wordpress.Common.{
  All, Bool, Bool-cases, List, Option, Option-cases, Post, Post-bind, String, [], any, ap, arith,
  eq_iff, err, false, inl, inr, lift, none, ok, pure, refl, some, throw_if, true, ℕ, ◌==◌, ◌>>=◌,
  ◌∷◌, ◌≡◌, ◌⊎◌,
}
use wordpress.Bridge.Execute.{put_content, restore_file, restore_item, restore_items}
use wordpress.Bridge.Errors.{Thrown, Try}
use wordpress.Bridge.Files.{
  Buffer, Disk, Fault, File, Root, after_effect, before_effect, later_faults, next_fault, passes,
  put_file, root_by_id,
}
use wordpress.Bridge.World.{Act, SnapshotItem, World, atomic_write, call, durable_delete, faulty}
use wordpress.Bridge.Writes.{Site}

module _ (site : Site) where
  -- The absolute path of a root and a relative path, where both are good.
  abbrev pub abs_of : String → String → Option String
  abs_of id rel = elim (root_by_id site.roots id) [
    | none ↦ none
    | some root ↦ elim (site.resolve_in_root root rel) [ ok abs ↦ some abs | err e ↦ none ]
  ]

  abbrev pub is_at : String → Option String → Bool
  is_at p none = false
  is_at p (some abs) = abs == p

  -- The snapshot's entry is for this absolute path.
  abbrev pub hits : String → SnapshotItem → Bool
  hits p i = is_at p (abs_of i.root i.path)

  -- Away from the entries' paths the disk is as it was.
  abbrev pub Near : Disk → List SnapshotItem → Disk → Type 0
  Near was items d = (p : String) → any (hits p) items ≡ false → d p ≡ was p

  -- What an entry says of the file at its path.
  abbrev pub SavedFile : SnapshotItem → Option File → Type 0
  SavedFile i none = (i.absent ≡ true)
  SavedFile i (some f) = (i.absent ≡ false) × (i.content ≡ some f.content) × (i.mode ≡ some f.mode)

  pub record Saves (was : Disk) (i : SnapshotItem) : Type 0 where
    pub root : Root
    pub abs : String
    pub known : root_by_id site.roots i.root ≡ some root
    pub resolved : site.resolve_in_root root i.path ≡ ok abs
    pub file : SavedFile i (was abs)

-- The state in the middle of an apply: the disk is as it was away from the saved paths, and the
-- snapshots and markers are those of the start.
pub record Mid (site : Site) (was : Disk) (items : List SnapshotItem) (start w : World)
    : Type 0 where
  pub near : Near site was items w.disk
  pub snapshots : w.snapshots ≡ start.snapshots
  pub in_progress : w.in_progress ≡ start.in_progress
  pub events : w.events ≡ start.events

-- `m` keeps the state in the middle, whether it returns or throws.
module _ (site : Site) (was : Disk) (items : List SnapshotItem) (start : World) where
  abbrev pub Keeps : {A : Type 0} → Act A → Type 0
  Keeps m =
      (w : World)
      → Mid site was items start w
      → Post (λ _. Mid site was items start) (λ _. Mid site was items start) (m w)

  pub Keeps-bind :
      {A B : Type 0} (m : Act A) (f : A → Act B)
      → Keeps m
      → ((a : A) → Keeps (f a))
      → Keeps (m >>= f)
  Keeps-bind m f km kf w h = Post-bind _ _ _ (m w) f (km w h) (λ a v k. kf a v k)

  pub Keeps-lift : {A : Type 0} (r : Try A) → Keeps (lift r)
  Keeps-lift (ok a) w h = h
  Keeps-lift (err e) w h = h

  pub Keeps-throw_if : (b : Bool) (e : Thrown) → Keeps (throw_if b e)
  Keeps-throw_if true e w h = h
  Keeps-throw_if false e w h = h

  pub Keeps-call :
      (f : World → World)
      → ((v : World) → Mid site was items start v → Mid site was items start (f v))
      → Keeps (call f)
  Keeps-call f k w h = go (next_fault w.faults)
    where
      mid : Mid site was items start (record w { faults = later_faults w.faults })
      mid = record {
        near = h.near;
        snapshots = h.snapshots;
        in_progress = h.in_progress;
        events = h.events;
      }

      go :
          (x : Fault)
          → Post
              (λ _. Mid site was items start)
              (λ _. Mid site was items start)
              (faulty x f (record w { faults = later_faults w.faults }))
      go passes = k _ mid
      go before_effect = mid
      go after_effect = k _ mid

  -- The path of a saved file.
  abbrev pub IsCovered : String → Type 0
  IsCovered abs = (p : String) → any (hits site p) items ≡ false → (abs == p) ≡ false

  put-Mid :
      (abs : String) (f : Option File) (v : World)
      → IsCovered abs
      → Mid site was items start v
      → Mid site was items start (record v { disk = put_file v.disk abs f })
  put-Mid abs f v c h = record {
    near = λ p n. rw (c p n) (h.near p n);
    snapshots = h.snapshots;
    in_progress = h.in_progress;
    events = h.events;
  }

  pub Keeps-atomic_write :
      (abs : String) (buffer : Buffer) (mode : Option ℕ) (hook : Act (Unit {0}))
      → IsCovered abs
      → Keeps hook
      → Keeps (atomic_write abs buffer mode hook)
  unfolding atomic_write
  Keeps-atomic_write abs buffer mode hook c k w h =
      Keeps-bind hook _ k (λ _. Keeps-call _ (λ v m. put-Mid abs _ v c m)) w h

  pub Keeps-durable_delete : (abs : String) → IsCovered abs → Keeps (durable_delete abs)
  unfolding durable_delete
  Keeps-durable_delete abs c w h = elim (Option-cases (w.disk abs)) [
    | inl gone ↦ rw (gone, durable_delete) (Keeps-call _ (λ v m. m) w h)
    | inr (f, there) ↦ rw (there, durable_delete) (Keeps-call _ (λ v m. put-Mid abs none v c m) w h)
  ]

-- Restoring one file leaves at its path what was saved.
module _ (site : Site) where
  abbrev pub IsPut : Disk → String → Option File → World → Type 0
  IsPut d abs f w = (q : String) → w.disk q ≡ put_file d abs f q

  call_put :
      (f : World → World) (w : World) (Q : World → Type 0)
      → Q (f (record w { faults = later_faults w.faults }))
      → Post (λ _. Q) (λ _ _. Unit {0}) (call f w)
  call_put f w Q h = go (next_fault w.faults)
    where
      go :
          (x : Fault)
          → Post
              (λ _. Q)
              (λ _ _. Unit {0})
              (faulty x f (record w { faults = later_faults w.faults }))
      go passes = h
      go before_effect = tt
      go after_effect = tt

  restore_file-IsPut :
      (i : SnapshotItem) (abs : String) (was : Option File) (w : World)
      → SavedFile site i was
      → Post (λ _. IsPut w.disk abs was) (λ _ _. Unit {0}) (restore_file site i abs w)
  unfolding restore_file
  restore_file-IsPut i abs none w h = rw (h, restore_file) (gone (Option-cases (w.disk abs)))
    where
      gone :
          (w.disk abs ≡ none) ⊎ ((f : File) × (w.disk abs ≡ some f))
          → Post (λ _. IsPut w.disk abs none) (λ _ _. Unit {0}) (durable_delete abs w)
      gone (inl e) = rw (e, durable_delete) (call_put _ w _ (λ q. ground (arith, e, eq_iff abs q)))
      gone (inr (f, e)) = rw (e, durable_delete) (call_put _ w _ (λ q. refl))
  restore_file-IsPut i abs (some f) w (present, bytes, bits) =
      rw (present, bytes, bits, restore_file) (call_put _ w _ (λ q. refl))

  pub hits-eq :
      {was : Disk} {i : SnapshotItem} (s : Saves site was i) (p : String)
      → hits site p i ≡ (s.abs == p)
  hits-eq s p = ground (arith, s.known, s.resolved)

  pub restore_item-IsPut :
      (was : Disk) (i : SnapshotItem) (w : World) (s : Saves site was i)
      → Post (λ _. IsPut w.disk s.abs (was s.abs)) (λ _ _. Unit {0}) (restore_item site i w)
  unfolding restore_item
  restore_item-IsPut was i w s =
      rw (s.known, restore_item)
        (rw (s.resolved, restore_item) (restore_file-IsPut i s.abs (was s.abs) w s.file))

  Near-tail :
      (was : Disk) (i : SnapshotItem) (is : List SnapshotItem) (w v : World) (s : Saves site was i)
      → Near site was (i ∷ is) w.disk
      → IsPut w.disk s.abs (was s.abs) v
      → Near site was is v.disk
  Near-tail was i is w v s near put p n = elim (Bool-cases (s.abs == p)) [
    | inl here ↦ rw (put p) (rw here (ap was ((eq_iff s.abs p).0 here)))
    | inr other ↦ rw (put p) (rw other (near p (rw (hits-eq s p) (rw other n))))
  ]

  -- Restoring every saved file gives back the disk that the snapshot was taken of, at every path.
  pub restore_items-exact :
      (was : Disk) (items : List SnapshotItem) (w : World)
      → All (Saves site was) items
      → Near site was items w.disk
      → Post (λ _ v. (p : String) → v.disk p ≡ was p) (λ _ _. Unit {0}) (restore_items site items w)
  unfolding restore_items
  restore_items-exact was [] w h near = λ p. near p refl
  restore_items-exact was (i ∷ is) w (s, h) near =
      Post-bind _ _ _ (restore_item site i w) (λ _. restore_items site is)
        (restore_item-IsPut was i w s)
        (λ _ v put. restore_items-exact was is v h (Near-tail was i is w v s near put))

module _ (site : Site) (was : Disk) (items : List SnapshotItem) (start : World) where
  Keeps-put_content :
      (abs : String) (mode : Option ℕ) (o : Option Buffer)
      → IsCovered site was items start abs
      → Keeps site was items start (put_content site abs mode o)
  unfolding put_content
  Keeps-put_content abs mode none c = Keeps-durable_delete site was items start abs c
  Keeps-put_content abs mode (some b) c =
      Keeps-atomic_write site was items start abs b mode (pure tt) c (λ w h. h)

  Keeps-restore_item :
      (i : SnapshotItem) (s : Saves site was i)
      → IsCovered site was items start s.abs
      → Keeps site was items start (restore_item site i)
  unfolding restore_item restore_file
  Keeps-restore_item i s c w h =
      rw (s.known, restore_item)
        (rw (s.resolved, restore_item) (Keeps-put_content s.abs i.mode _ c w h))

  pub Keeps-restore_items :
      (is : List SnapshotItem)
      → All (Saves site was) is
      → ((p : String) → any (hits site p) items ≡ false → any (hits site p) is ≡ false)
      → Keeps site was items start (restore_items site is)
  unfolding restore_items
  Keeps-restore_items [] s c = λ w h. h
  Keeps-restore_items (i ∷ is) (s, ss) c =
      Keeps-bind site was items start (restore_item site i) (λ _. restore_items site is)
        (Keeps-restore_item i s (λ p n. ground (arith, c p n, hits-eq site s p)))
        (λ _. Keeps-restore_items is ss (λ p n. ground (arith, c p n)))
