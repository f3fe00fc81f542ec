-- ===== src/Bridge/Plan/Operations.antt =====
-- The operations on content and files, and `planOne`: automation-bridge/src/core/engine.ts.
use wordpress.Common.{
  Bool, List, Option, String, [], any, err, false, insert, is_some, lift, ltb, none, not, ok, pure,
  remove, some, throw_if, true, ℕ, ◌==◌, ◌>>=◌, ◌>>◌, ◌||◌, ◌∷◌,
}
use wordpress.Bridge.Plan.{
  Operation, Plan, RiskFlag, add_flag, add_route, block_clear, block_set, code_change,
  content_delete, content_upsert, deletes_content, file_delete, file_write, image_alt_clear,
  image_alt_set, metadata_clear, metadata_set, on_vfs, redirect_delete, redirect_upsert, warn,
}
use wordpress.Bridge.Errors.{
  bridge, capability_unsupported, conflict_revision, not_found, operation_not_allowed,
  validation_failed,
}
use wordpress.Bridge.Files.{Buffer, Root, RootKind, assets, code, root_by_id}
use wordpress.Bridge.Plan.Steps.{
  Adapter, AdapterResult, AdapterScript, PlanConfig, needed, plan_block_clear, plan_block_set,
  plan_image, plan_metadata_clear, plan_metadata_set, plan_redirect_delete, plan_redirect_upsert,
  reads, returns, throws, when_true, writes,
}
use wordpress.Bridge.Vfs.{Planning, read, write}

-- `cur === null`, or a hash that is not the one of the base.
unfoldable pub base_differs : (Buffer → String) → Option Buffer → String → Bool
base_differs sha none base = true
base_differs sha (some b) base = not (sha b == base)

-- The two checks of "file.write" against `base_sha256`.
unfoldable pub write_conflicts : (Buffer → String) → Option Buffer → Option String → Bool
unfolding base_differs
write_conflicts sha cur none = is_some cur
write_conflicts sha cur (some base) = base_differs sha cur base

abbrev pub kind_is_code : RootKind → Bool
kind_is_code code = true
kind_is_code _ = false

abbrev pub kind_is_assets : RootKind → Bool
kind_is_assets assets = true
kind_is_assets _ = false

module _ (cfg : PlanConfig) (change_id : String) where
  open cfg use {
    vfs_config, entry_json, normalize_plain_text, check_file_op_path, sha256_hex, adapters,
    max_content_bytes,
  }

  unfoldable pub add_routes : List String → ℕ → Plan (Unit {0})
  unfolding add_route
  add_routes [] index = pure tt
  add_routes (r ∷ rs) index = do add_route r index; add_routes rs index

  unfoldable pub warn_all : List String → ℕ → Plan (Unit {0})
  unfolding warn
  warn_all [] index = pure tt
  warn_all (c ∷ cs) index = do warn index c; warn_all cs index

  unfoldable pub add_flags : List RiskFlag → Plan (Unit {0})
  unfolding add_flag
  add_flags [] = pure tt
  add_flags (f ∷ fs) = do add_flag f; add_flags fs

  -- What a content operation asks of the adapter, and the method that plans it.
  unfoldable pub needed_operation : Operation → String
  needed_operation (content_upsert c none o) = "create"
  needed_operation (content_upsert c (some b) o) = "update"
  needed_operation _ = "delete"

  unfoldable pub adapter_plan : Adapter → Operation → Option (Operation → AdapterScript)
  adapter_plan a (content_upsert c b o) = a.plan_upsert
  adapter_plan a _ = a.plan_delete

  -- A method that runs on the virtual file system of the plan.
  unfoldable pub run_script : AdapterScript → Planning AdapterResult
  unfolding read write
  run_script (returns r) v = (ok r, v)
  run_script (throws e) v = (err e, v)
  run_script (reads root_id path next) v =
      let o = read vfs_config root_id path v in run_script (next o.0) o.1
  run_script (writes root_id path new next) v =
      let o = write vfs_config root_id path new v in run_script (next o.0) o.1

  unfoldable pub plan_content : Operation → String → ℕ → Plan (Unit {0})
  unfolding needed_operation adapter_plan run_script add_routes warn_all add_flags
  plan_content op collection index = do
    a ← lift (needed (adapters collection) (bridge not_found))
    throw_if (not (any (λ o. o == needed_operation op) a.operations))
        (bridge capability_unsupported)
    run ← lift (needed (adapter_plan a op) (bridge capability_unsupported))
    r ← on_vfs (run_script (run op))
    add_routes r.impacted_routes index
    warn_all r.warning_codes index
    add_flags r.risk_flags

  -- The root of a file operation, after the checks of its kind, and the path in it.
  unfoldable pub file_target : String → String → Plan (Root × String)
  unfolding root_by_id
  file_target root_id path = do
    root ← lift (needed (root_by_id vfs_config.roots root_id) (bridge not_found))
    throw_if (not (kind_is_code root.kind || kind_is_assets root.kind))
        (bridge operation_not_allowed)
    throw_if (not root.writable) (bridge operation_not_allowed)
    rel ← lift (check_file_op_path root path)
    pure (root, rel)

  unfoldable pub plan_file_write : String → String → Buffer → Option String → Plan (Unit {0})
  unfolding file_target read write write_conflicts add_flag
  plan_file_write root_id path new base = do
    (root, rel) ← file_target root_id path
    cur ← on_vfs (read vfs_config root.id rel)
    throw_if (ltb max_content_bytes (vfs_config.size new)) (bridge validation_failed)
    throw_if (write_conflicts sha256_hex cur base) (bridge conflict_revision)
    on_vfs (write vfs_config root.id rel (some new))
    when_true (kind_is_code root.kind) (add_flag code_change)

  unfoldable pub plan_file_delete : String → String → String → Plan (Unit {0})
  unfolding file_target read write base_differs add_flag
  plan_file_delete root_id path base = do
    (root, rel) ← file_target root_id path
    cur ← on_vfs (read vfs_config root.id rel)
    throw_if (not (is_some cur)) (bridge not_found)
    throw_if (base_differs sha256_hex cur base) (bridge conflict_revision)
    on_vfs (write vfs_config root.id rel none)
    when_true (kind_is_assets root.kind) (add_flag deletes_content)
    when_true (kind_is_code root.kind) (add_flag code_change)

  unfoldable pub plan_one : Operation → ℕ → Plan (Unit {0})
  unfolding plan_metadata_set plan_metadata_clear plan_block_set plan_block_clear plan_image
      plan_redirect_upsert plan_redirect_delete plan_content plan_file_write plan_file_delete
  plan_one (metadata_set route fields noindex) index =
      plan_metadata_set cfg change_id route fields noindex index
  plan_one (metadata_clear route) index = plan_metadata_clear cfg change_id route index
  plan_one (block_set id value format) index = plan_block_set cfg change_id id value format index
  plan_one (block_clear id) index = plan_block_clear cfg change_id id index
  plan_one (image_alt_set id alt) index =
      plan_image cfg change_id id
        (insert id (entry_json (normalize_plain_text alt ∷ change_id ∷ []))) index
  plan_one (image_alt_clear id) index = plan_image cfg change_id id (remove id) index
  plan_one (redirect_upsert source destination permanent) index =
      plan_redirect_upsert cfg change_id
        (record {
          source = source;
          destination = destination;
          permanent = permanent;
          change_id = change_id;
        })
        index
  plan_one (redirect_delete source) index = plan_redirect_delete cfg change_id source index
  plan_one (content_upsert c b o) index = plan_content (content_upsert c b o) c index
  plan_one (content_delete c o) index = plan_content (content_delete c o) c index
  plan_one (file_write root path new base) index = plan_file_write root path new base
  plan_one (file_delete root path base) index = plan_file_delete root path base
