-- ===== src/Bridge/Writes.antt =====
-- Writing the files of a change set: the parts of `executeChanges` in
-- automation-bridge/src/core/engine.ts up to the end of its `try`.
use wordpress.Common.{
  Bool, List, Option, String, [], err, false, gets, if◌then◌else◌, is_some, lift, ltb, none, not,
  ok, or_else, pure, some, throw_if, true, ℕ, ◌++◌, ◌==◌, ◌>>=◌, ◌>>◌, ◌∷◌,
}
use wordpress.Bridge.Errors.{
  Thrown, Try, bridge, conflict_revision, foreign, operation_not_allowed, verify_failed,
}
use wordpress.Bridge.Files.{
  Buffer, Disk, FileChange, Root, current_mode, read_file, root_by_id, same_content,
}
use wordpress.Bridge.Revisions.{RevisionKind}
use wordpress.Bridge.World.{
  Act, SnapshotItem, atomic_write, durable_delete, run_revalidator, site_status,
}

-- Where the engine looks at a file of the site and takes a failure for a file that is absent: to check
-- a target and its mode, to verify it, and to find what a rollback has to change.
pub data Look : Type 0 where
  at_check at_mode at_verify at_rollback : Look

-- What the engine is given: the roots, the path checks of paths.ts, sha256 of node:crypto, and two
-- settings. The path checks are functions of the path alone: the links of the site do not change
-- while a change set is applied.
pub record Site : Type 0 where
  -- whether a look at a file fails, which may differ from one of these places to the next
  pub look_fails : Look → String → Bool
  pub roots : List Root
  pub resolve_in_root : Root → String → Try String
  pub is_symlink : String → Bool
  pub sha256 : Buffer → String
  pub has_internal_url : Bool
  pub revalidator_enabled : Bool

pub record Target : Type 0 where
  pub change : FileChange
  pub abs : String
  pub mode : Option ℕ

pub record ExecuteInput : Type 0 where
  pub kind : RevisionKind
  pub change_id : String
  pub changes : List FileChange
  pub impacted_routes : List String
  pub reason : Option String
  pub reverts : Option String
  -- what `newId` and `nowIso` return
  pub revision_id : String
  pub now : ℕ

pub record ExecuteResult : Type 0 where
  pub revision_id : String
  pub revalidated : List String
  pub routes : List (String × ℕ)

-- `if (!x) throw e`
abbrev pub require : {A : Type 0} → Option A → Thrown → Act A
require none e s = (err e, s)
require (some a) e s = (ok a, s)

abbrev pub set_step : String → Act (Unit {0})
set_step s w = (ok tt, record w { locals = record w.locals { step = s } })

-- `routes.push({ route, status })`, `revalidated.push(...routes)`
abbrev pub push_route : String → ℕ → Act (Unit {0})
push_route r s w =
    (ok tt, record w { locals = record w.locals { routes = w.locals.routes ++ (r, s) ∷ [] } })

abbrev pub push_revalidated : List String → Act (Unit {0})
push_revalidated rs w =
    (ok tt, record w { locals = record w.locals { revalidated = w.locals.revalidated ++ rs } })

-- `s !== null && s < 500`
unfoldable pub answers_well : Option ℕ → Bool
answers_well none = false
answers_well (some s) = ltb s 500

unfoldable pub snapshot_item : Target → SnapshotItem
snapshot_item t = record {
  root = t.change.root;
  path = t.change.path;
  absent = not (is_some t.change.before);
  mode = t.mode;
  content = t.change.before;
}

module _ (site : Site) where
  open site use {
    look_fails, roots, resolve_in_root, is_symlink, sha256, has_internal_url, revalidator_enabled,
  }

  -- `fsp.readFile(abs).catch(() => null)`
  unfoldable pub read_or_null : Look → Disk → String → Option Buffer
  read_or_null k d p = if look_fails k p then none else read_file d p

  -- `currentMode`
  unfoldable pub mode_or_null : Disk → String → Option ℕ
  mode_or_null d p = if look_fails at_mode p then none else current_mode d p

  -- The second half of a round of the loop below: the file is no link and holds what was planned.
  unfoldable pub check_target : FileChange → String → Act Target
  unfolding same_content read_or_null mode_or_null
  check_target c abs = do
    throw_if (is_symlink abs) (bridge operation_not_allowed)
    disk ← gets (λ w. w.disk)
    throw_if (not (same_content (read_or_null at_check disk abs) c.before))
        (bridge conflict_revision)
    pure (record { change = c; abs = abs; mode = mode_or_null disk abs })

  -- One round of the loop that resolves and re-checks the targets.
  unfoldable pub resolve_target : FileChange → Act Target
  unfolding root_by_id check_target
  resolve_target c = do
    root ← require (root_by_id roots c.root) (bridge operation_not_allowed)
    throw_if (not root.writable) (bridge operation_not_allowed)
    abs ← lift (resolve_in_root root c.path)
    check_target c abs

  unfoldable pub resolve_targets : List FileChange → Act (List Target)
  resolve_targets [] = pure []
  resolve_targets (c ∷ cs) = do t ← resolve_target c; ts ← resolve_targets cs; pure (t ∷ ts)

  -- The routes that answer below 500 before the apply.
  unfoldable pub live_routes : List String → Act (List String)
  unfolding site_status answers_well
  live_routes [] = pure []
  live_routes (r ∷ rs) = do
    s ← site_status r
    live ← live_routes rs
    pure (if answers_well s then r ∷ live else live)

  -- The parent chain is checked again before the rename.
  unfoldable pub write_content : Root → Target → Option Buffer → Act (Unit {0})
  unfolding atomic_write durable_delete
  write_content root t none = durable_delete t.abs
  write_content root t (some buffer) =
      atomic_write t.abs buffer t.mode (do lift (resolve_in_root root t.change.path); pure tt)

  unfoldable pub write_target : Target → Act (Unit {0})
  unfolding root_by_id write_content
  write_target t = do
    root ← require (root_by_id roots t.change.root) foreign
    write_content root t t.change.after

  unfoldable pub write_targets : List Target → Act (Unit {0})
  write_targets [] = pure tt
  write_targets (t ∷ ts) = do write_target t; write_targets ts

  unfoldable pub hash_ok : Option Buffer → Option Buffer → Bool
  hash_ok none none = true
  hash_ok none (some b) = false
  hash_ok (some a) none = false
  hash_ok (some a) (some b) = sha256 b == sha256 a

  -- `after` is what the plan wants, the other what the disk has.
  unfoldable pub verify_targets : List Target → Act (Unit {0})
  unfolding hash_ok read_or_null
  verify_targets [] = pure tt
  verify_targets (t ∷ ts) = do
    disk ← gets (λ w. w.disk)
    throw_if (not (hash_ok t.change.after (read_or_null at_verify disk t.abs)))
        (bridge verify_failed)
    verify_targets ts

  unfoldable pub check_routes : List String → Act (Unit {0})
  unfolding site_status answers_well
  check_routes [] = pure tt
  check_routes (r ∷ rs) = do
    s ← site_status r
    push_route r (or_else s 0)
    throw_if (not (answers_well s)) (bridge verify_failed)
    check_routes rs

  unfoldable pub revalidate_step : List String → Act (Unit {0})
  unfolding run_revalidator
  revalidate_step [] = pure tt
  revalidate_step (r ∷ rs) =
      if revalidator_enabled
      then (do set_step "revalidate"; run_revalidator (r ∷ rs); push_revalidated (r ∷ rs))
      else pure tt

  unfoldable pub route_check_step : List String → Act (Unit {0})
  unfolding check_routes
  route_check_step [] = pure tt
  route_check_step (r ∷ rs) = do set_step "route-check"; check_routes (r ∷ rs)

  -- The body of the `try`.
  unfoldable pub try_body : List Target → List String → List String → Act (Unit {0})
  unfolding write_targets verify_targets revalidate_step route_check_step
  try_body ts impacted routes = do
    set_step "write"
    write_targets ts
    set_step "verify"
    verify_targets ts
    revalidate_step impacted
    route_check_step routes
