-- ===== src/Bridge/Plan/Kept.antt =====
-- Each operation keeps an original for each staged file.
use wordpress.Common.{Bool, List, Map, Option, Post, Post-map, Result, String, [], err, ok, ℕ, ◌∷◌}
use wordpress.Bridge.Plan.{RiskFlag, add_flag, add_route, warn}
use wordpress.Bridge.Errors.{Thrown}
use wordpress.Bridge.Files.{Buffer}
use wordpress.Bridge.Plan.Backing.{
  Backs, Backs-add_flag, Backs-add_route, Backs-pure, Backs-seq, Backs-warn, backing,
}
use wordpress.Bridge.Plan.Operations.{
  add_flags, add_routes, file_target, plan_file_delete, plan_file_write, run_script, warn_all,
}
use wordpress.Bridge.Plan.Steps.{
  AdapterScript, PlanConfig, StoreKind, finish_metadata, plan_block_clear, plan_block_set,
  plan_image, plan_metadata_clear, plan_metadata_set, plan_redirect_delete, plan_redirect_upsert,
  read_store, reads, returns, throws, warn_chain, write_redirects, writes,
}
use wordpress.Bridge.Redirects.{Redirect}
use wordpress.Bridge.Vfs.{ChangeVfs, read, write}
use wordpress.Bridge.Vfs.Laws.{Backed, read-Backed, read-write}

module _ (cfg : PlanConfig) (change_id : String) where
  Backs-read_store : (kind : StoreKind) → Backs (read_store cfg change_id kind)
  unfolding read_store
  Backs-read_store kind = search backing

  Backs-finish_metadata :
      (route : String) (index : ℕ) (is_set : Bool)
      → Backs (finish_metadata cfg change_id route index is_set)
  unfolding finish_metadata
  Backs-finish_metadata route index is_set = search backing

  pub Backs-plan_metadata_set :
      (route fields : String) (noindex : Bool) (index : ℕ)
      → Backs (plan_metadata_set cfg change_id route fields noindex index)
  unfolding plan_metadata_set
  Backs-plan_metadata_set route fields noindex index =
      search (backing, Backs-read_store, Backs-finish_metadata)

  pub Backs-plan_metadata_clear :
      (route : String) (index : ℕ) → Backs (plan_metadata_clear cfg change_id route index)
  unfolding plan_metadata_clear
  Backs-plan_metadata_clear route index = search (backing, Backs-read_store, Backs-finish_metadata)

  pub Backs-plan_block_set :
      (id value format : String) (index : ℕ)
      → Backs (plan_block_set cfg change_id id value format index)
  unfolding plan_block_set
  Backs-plan_block_set id value format index = search (backing, Backs-read_store) depth 12

  pub Backs-plan_block_clear :
      (id : String) (index : ℕ) → Backs (plan_block_clear cfg change_id id index)
  unfolding plan_block_clear
  Backs-plan_block_clear id index = search (backing, Backs-read_store)

  pub Backs-plan_image :
      (id : String) (f : Map String → Map String) (index : ℕ)
      → Backs (plan_image cfg change_id id f index)
  unfolding plan_image
  Backs-plan_image id f index = search (backing, Backs-read_store)

  Backs-write_redirects :
      (rs : List Redirect) (source : String) (index : ℕ)
      → Backs (write_redirects cfg change_id rs source index)
  unfolding write_redirects
  Backs-write_redirects rs source index = search backing

  pub Backs-plan_redirect_upsert :
      (e : Redirect) (index : ℕ) → Backs (plan_redirect_upsert cfg change_id e index)
  unfolding plan_redirect_upsert warn_chain
  Backs-plan_redirect_upsert e index = search (backing, Backs-write_redirects)

  pub Backs-plan_redirect_delete :
      (source : String) (index : ℕ) → Backs (plan_redirect_delete cfg change_id source index)
  unfolding plan_redirect_delete
  Backs-plan_redirect_delete source index = search (backing, Backs-write_redirects)

  pub Backs-add_routes : (rs : List String) (index : ℕ) → Backs (add_routes cfg change_id rs index)
  unfolding add_routes
  Backs-add_routes [] index = Backs-pure tt
  Backs-add_routes (r ∷ rs) index =
      Backs-seq (add_route r index) (add_routes cfg change_id rs index) (Backs-add_route r index)
        (Backs-add_routes rs index)

  pub Backs-warn_all : (cs : List String) (index : ℕ) → Backs (warn_all cfg change_id cs index)
  unfolding warn_all
  Backs-warn_all [] index = Backs-pure tt
  Backs-warn_all (c ∷ cs) index =
      Backs-seq (warn index c) (warn_all cfg change_id cs index) (Backs-warn index c)
        (Backs-warn_all cs index)

  pub Backs-add_flags : (fs : List RiskFlag) → Backs (add_flags cfg change_id fs)
  unfolding add_flags
  Backs-add_flags [] = Backs-pure tt
  Backs-add_flags (f ∷ fs) =
      Backs-seq (add_flag f) (add_flags cfg change_id fs) (Backs-add_flag f) (Backs-add_flags fs)

  Backs-file_target : (root_id path : String) → Backs (file_target cfg change_id root_id path)
  unfolding file_target
  Backs-file_target root_id path = search backing

  pub Backs-plan_file_write :
      (root_id path : String) (new : Buffer) (base : Option String)
      → Backs (plan_file_write cfg change_id root_id path new base)
  unfolding plan_file_write
  Backs-plan_file_write root_id path new base = search (backing, Backs-file_target) depth 12

  pub Backs-plan_file_delete :
      (root_id path base : String) → Backs (plan_file_delete cfg change_id root_id path base)
  unfolding plan_file_delete
  Backs-plan_file_delete root_id path base = search (backing, Backs-file_target) depth 12

  -- What holds of the state after an outcome, whether it is a value or an exception.
  either_way :
      {A : Type 0} (o : Result Thrown A × ChangeVfs)
      → Post (λ _ w. Backed w) (λ _ w. Backed w) o
      → Backed o.1
  either_way (ok a, v) h = h
  either_way (err e, v) h = h

  -- Whatever an adapter reads and writes.
  pub Backed-run_script :
      (m : AdapterScript) (v : ChangeVfs)
      → Backed v
      → Post (λ _ w. Backed w) (λ _ w. Backed w) (run_script cfg change_id m v)
  unfolding run_script
  Backed-run_script (returns r) v b = b
  Backed-run_script (throws e) v b = b
  Backed-run_script (reads root_id path next) v b =
      let o = read cfg.vfs_config root_id path v in
      Backed-run_script (next o.0) o.1 (either_way o (read-Backed cfg.vfs_config root_id path v b))
  Backed-run_script (writes root_id path new next) v b =
      let o = write cfg.vfs_config root_id path new v in
      Backed-run_script (next o.0) o.1 (
        either_way o (
          Post-map _ _ _ _ o (read-write cfg.vfs_config root_id path new v b) (λ _ w h. h.0)
            (λ _ w h. h.0)))
