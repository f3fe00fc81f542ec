-- ===== src/Bridge/Execute/Body.antt =====
-- What the body of the `try` in `executeChanges` does to the site.
use wordpress.Common.{
  All, Bool, Bool-cases, List, Option, Post, Post-bind, Post-map, String, [], ap, false,
  if◌then◌else◌, inl, inr, lift, none, not, or_else, pure, refl, some, sym, throw_if, true, ℕ,
  ◌>>=◌, ◌>>◌, ◌∙◌, ◌∷◌, ◌≡◌,
}
use wordpress.Bridge.Errors.{Thrown, bridge, foreign, verify_failed}
use wordpress.Bridge.Execute.Restore.{
  IsCovered, Keeps, Keeps-atomic_write, Keeps-bind, Keeps-durable_delete, Keeps-lift, Mid,
}
use wordpress.Bridge.Execute.Targets.{Readable, read_or_null-Readable}
use wordpress.Bridge.Files.{
  Buffer, Disk, Fault, Root, after_effect, before_effect, later_faults, next_fault, passes,
  read_file, root_by_id,
}
use wordpress.Bridge.World.{
  Act, Locals, SnapshotItem, World, call, faulty, run_revalidator, site_status,
}
use wordpress.Bridge.Writes.{
  Site, Target, answers_well, at_verify, check_routes, hash_ok, live_routes, push_revalidated,
  push_route, require, revalidate_step, route_check_step, set_step, try_body, verify_targets,
  write_content, write_target, write_targets,
}
use mathlib.Core.Path.{subst}

-- Nothing that an apply works on has changed: not the disk, nor snapshots, markers and events.
pub record Still (w v : World) : Type 0 where
  pub disk : v.disk ≡ w.disk
  pub snapshots : v.snapshots ≡ w.snapshots
  pub in_progress : v.in_progress ≡ w.in_progress
  pub events : v.events ≡ w.events

pub Still-of :
    (w : World) (l : Locals) (fs : List Fault) (as' : List (Option ℕ))
    → Still w (record w { locals = l; faults = fs; answers = as' })
Still-of w l fs as' = record { disk = refl; snapshots = refl; in_progress = refl; events = refl }

Still-trans : {u v w : World} → Still u v → Still v w → Still u w
Still-trans p q = record {
  disk = q.disk ∙ p.disk;
  snapshots = q.snapshots ∙ p.snapshots;
  in_progress = q.in_progress ∙ p.in_progress;
  events = q.events ∙ p.events;
}

abbrev pub Quiet : {A : Type 0} → Act A → Type 0
Quiet m = (w : World) → Post (λ _. Still w) (λ _. Still w) (m w)

pub Quiet-bind :
    {A B : Type 0} (m : Act A) (f : A → Act B) → Quiet m → ((a : A) → Quiet (f a)) → Quiet (m >>= f)
Quiet-bind m f qm qf w = Post-bind _ _ _ (m w) f (qm w) (λ a v s.
    Post-map _ _ _ _ (f a v) (qf a v) (λ _ u t. Still-trans s t) (λ _ u t. Still-trans s t))

Quiet-throw_if : (b : Bool) (e : Thrown) → Quiet (throw_if b e)
Quiet-throw_if true e w = Still-of w _ _ _
Quiet-throw_if false e w = Still-of w _ _ _

Quiet-site_status : (r : String) → Quiet (site_status r)
unfolding site_status
Quiet-site_status r w = Still-of w _ _ _

pub Quiet-run_revalidator : (rs : List String) → Quiet (run_revalidator rs)
unfolding run_revalidator
Quiet-run_revalidator rs w = go (next_fault w.faults)
  where
    go :
        (x : Fault)
        → Post
            (λ _. Still w)
            (λ _. Still w)
            (faulty x (λ v. v) (record w { faults = later_faults w.faults }))
    go passes = Still-of w _ _ _
    go before_effect = Still-of w _ _ _
    go after_effect = Still-of w _ _ _

module _ (site : Site) where
  Quiet-check_routes : (rs : List String) → Quiet (check_routes site rs)
  unfolding check_routes
  Quiet-check_routes [] = λ w. Still-of w _ _ _
  Quiet-check_routes (r ∷ rs) = Quiet-bind (site_status r) _ (Quiet-site_status r) (λ s.
      Quiet-bind (push_route r (or_else s 0)) _ (λ w. Still-of w _ _ _)
        (λ _.
          Quiet-bind (throw_if (not (answers_well s)) (bridge verify_failed)) _ (Quiet-throw_if _ _)
            (λ _. Quiet-check_routes rs)))

  pub Quiet-live_routes : (rs : List String) → Quiet (live_routes site rs)
  unfolding live_routes
  Quiet-live_routes [] = λ w. Still-of w _ _ _
  Quiet-live_routes (r ∷ rs) = Quiet-bind (site_status r) _ (Quiet-site_status r) (λ s.
      Quiet-bind (live_routes site rs) (λ live. pure (if answers_well s then r ∷ live else live))
        (Quiet-live_routes rs) (λ _ w. Still-of w w.locals w.faults w.answers))

  Quiet-revalidate_step : (rs : List String) → Quiet (revalidate_step site rs)
  unfolding revalidate_step
  Quiet-revalidate_step [] = λ w. Still-of w _ _ _
  Quiet-revalidate_step (r ∷ rs) = go site.revalidator_enabled
    where
      go :
          (b : Bool)
          → Quiet (
              if b
              then (do set_step "revalidate"; run_revalidator (r ∷ rs); push_revalidated (r ∷ rs))
              else pure tt)
      go true =
          Quiet-bind (set_step "revalidate") _ (λ w. Still-of w _ _ _)
            (λ _.
              Quiet-bind (run_revalidator (r ∷ rs)) (λ _. push_revalidated (r ∷ rs))
                (Quiet-run_revalidator (r ∷ rs)) (λ _ w. Still-of w _ _ _))
      go false = λ w. Still-of w _ _ _

  Quiet-route_check_step : (rs : List String) → Quiet (route_check_step site rs)
  unfolding route_check_step
  Quiet-route_check_step [] = λ w. Still-of w _ _ _
  Quiet-route_check_step (r ∷ rs) =
      Quiet-bind (set_step "route-check") _ (λ w. Still-of w _ _ _)
        (λ _. Quiet-check_routes (r ∷ rs))

  -- The steps after the verification.
  pub Quiet-last_steps :
      (impacted routes : List String)
      → Quiet (revalidate_step site impacted >> route_check_step site routes)
  Quiet-last_steps impacted routes =
      Quiet-bind (revalidate_step site impacted) _ (Quiet-revalidate_step impacted)
        (λ _. Quiet-route_check_step routes)

-- A call with its effect, without, and after it.
pub call-Post :
    (f : World → World) (w : World) (Q R : World → Type 0)
    → Q (f (record w { faults = later_faults w.faults }))
    → R (record w { faults = later_faults w.faults })
    → R (f (record w { faults = later_faults w.faults }))
    → Post (λ _. Q) (λ _. R) (call f w)
call-Post f w Q R q r r' = go (next_fault w.faults)
  where
    go :
        (x : Fault)
        → Post (λ _. Q) (λ _. R) (faulty x f (record w { faults = later_faults w.faults }))
    go passes = q
    go before_effect = r
    go after_effect = r'

-- A quiet step keeps the state in the middle.
pub Mid-Still :
    {site : Site} {was : Disk} {items : List SnapshotItem} {start w v : World}
    → Mid site was items start w
    → Still w v
    → Mid site was items start v
Mid-Still m s = record {
  near = λ p n. ap (λ (d : Disk). d p) s.disk ∙ m.near p n;
  snapshots = s.snapshots ∙ m.snapshots;
  in_progress = s.in_progress ∙ m.in_progress;
  events = s.events ∙ m.events;
}

module _ (site : Site) (was : Disk) (items : List SnapshotItem) (start : World) where
  Keeps-write_content :
      (root : Root) (t : Target) (o : Option Buffer)
      → IsCovered site was items start t.abs
      → Keeps site was items start (write_content site root t o)
  unfolding write_content
  Keeps-write_content root t none c = Keeps-durable_delete site was items start t.abs c
  Keeps-write_content root t (some b) c =
      Keeps-atomic_write site was items start t.abs b t.mode _ c (
        Keeps-bind site was items start (lift (site.resolve_in_root root t.change.path)) _
          (Keeps-lift site was items start _) (λ _ w h. h))

  Keeps-write_target :
      (t : Target)
      → IsCovered site was items start t.abs
      → Keeps site was items start (write_target site t)
  unfolding write_target
  Keeps-write_target t c w h = go (root_by_id site.roots t.change.root)
    where
      go :
          (o : Option Root)
          → Post
              (λ _. Mid site was items start)
              (λ _. Mid site was items start)
              ((require o foreign >>= λ root. write_content site root t t.change.after) w)
      go none = h
      go (some root) = Keeps-write_content root t t.change.after c w h

  -- Every target's path is one of those that the snapshot covers.
  abbrev pub AreCovered : List Target → Type 0
  AreCovered = All (λ t. IsCovered site was items start t.abs)

  pub Keeps-write_targets :
      (ts : List Target) → AreCovered ts → Keeps site was items start (write_targets site ts)
  unfolding write_targets
  Keeps-write_targets [] c = λ w h. h
  Keeps-write_targets (t ∷ ts) (c, cs) =
      Keeps-bind site was items start (write_target site t) _ (Keeps-write_target t c)
        (λ _. Keeps-write_targets ts cs)

-- The disk has at a target's path what the change set wants there.
abbrev pub Verified : Site → Disk → Target → Type 0
Verified site d t = hash_ok site t.change.after (read_file d t.abs) ≡ true

pub verify_targets-Verified :
    (site : Site)
    → Readable site
    → (ts : List Target) (w : World)
    → Post
        (λ _ v. All (Verified site w.disk) ts × (v ≡ w))
        (λ _ v. v ≡ w)
        (verify_targets site ts w)
unfolding verify_targets
verify_targets-Verified site r [] w = (tt, refl)
verify_targets-Verified site r (t ∷ ts) w =
    elim (Bool-cases (hash_ok site t.change.after (read_file w.disk t.abs))) [
      | inr bad ↦
          rw (read_or_null-Readable site r at_verify w.disk t.abs, verify_targets) (rw bad refl)
      | inl good ↦
          rw (read_or_null-Readable site r at_verify w.disk t.abs, verify_targets)
            (rw good (
              Post-map _ _ _ _ (verify_targets site ts w) (verify_targets-Verified site r ts w)
                (λ _ v h. ((refl, h.0), h.1)) (λ _ v h. h)))
    ]

module _ (site : Site) (was : Disk) (items : List SnapshotItem) (start : World)
    (ts : List Target) where
  -- The state after a body that returns: every target is verified.
  abbrev pub Written : World → Type 0
  Written v = Mid site was items start v × All (Verified site v.disk) ts

  Written-verify :
      Readable site
      → (w : World) → Mid site was items start w
      → Post (λ _. Written) (λ _. Mid site was items start) (verify_targets site ts w)
  Written-verify readable w m =
      Post-map _ _ _ _ (verify_targets site ts w) (verify_targets-Verified site readable ts w)
        (λ _ v h. subst Written (sym h.1) (m, h.0))
        (λ _ v h. subst (Mid site was items start) (sym h) m)

  -- The body of the `try` leaves the state in the middle when it throws, and verified targets when it
  -- returns.
  pub try_body-Written :
      Readable site
      → (impacted routes : List String) (w : World) → AreCovered site was items start ts
      → Mid site was items start w
      → Post (λ _. Written) (λ _. Mid site was items start) (try_body site ts impacted routes w)
  unfolding try_body
  try_body-Written readable impacted routes w c m =
      let mid = Mid site was items start in
      Post-bind (λ _. mid) (λ _. Written) (λ _. mid) (write_targets site ts _) _
        (Keeps-write_targets site was items start ts c _ (Mid-Still m (Still-of w _ _ _)))
        (λ _ v k.
          Post-bind (λ _. Written) (λ _. Written) (λ _. mid) (verify_targets site ts _) _
            (Written-verify readable _ (Mid-Still k (Still-of v _ _ _)))
            (λ _ u h.
              Post-map (λ _. Still u) (λ _. Still u) (λ _. Written) (λ _. mid) _
                (Quiet-last_steps site impacted routes u)
                (λ _ x s. (Mid-Still h.0 s, subst (λ d. All (Verified site d) ts) (sym s.disk) h.1))
                (λ _ x s. Mid-Still h.0 s)))
