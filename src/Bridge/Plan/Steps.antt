-- ===== src/Bridge/Plan/Steps.antt =====
-- The cases of `planOne`: automation-bridge/src/core/engine.ts. What the parsers and printers of the
-- override stores, the sanitisers, the path checks, the route inventory and the content adapters
-- compute are parameters.
use wordpress.Common.{
  Bool, List, Map, Option, String, [], err, false, find?, if◌then◌else◌, insert, lift, none, not,
  ok, pure, remove, some, throw_if, true, ℕ, ◌&&◌, ◌==◌, ◌>>=◌, ◌>>◌, ◌||◌, ◌∷◌,
}
use wordpress.Bridge.Plan.{
  Operation, Plan, RiskFlag, add_flag, add_route, on_vfs, redirect_flag, robots_noindex,
  set_effective, warn,
}
use wordpress.Bridge.Errors.{Thrown, Try, bridge, operation_not_allowed, unregistered_block}
use wordpress.Bridge.Files.{Buffer, Root}
use wordpress.Bridge.Redirects.{Redirect, delete_redirect, has_source, turns_back, upsert_redirect}
use wordpress.Bridge.Vfs.{VfsConfig, read, write}

-- A store of overrides: metadata by route, blocks and images by id, each entry as its JSON.
pub data StoreKind : Type 0 where
  metadata_store blocks_store images_store : StoreKind

unfoldable pub store_file : StoreKind → String
store_file metadata_store = "metadata.json"
store_file blocks_store = "blocks.json"
store_file images_store = "images.json"

abbrev pub redirects_file : String
redirects_file = "redirects.json"

pub record ManifestBlock : Type 0 where
  pub id : String
  pub route : String
  pub kind : String

pub record AdapterResult : Type 0 where
  pub impacted_routes : List String
  pub warning_codes : List String
  pub risk_flags : List RiskFlag

-- What a method of an adapter does with the interface `Vfs` that it is given: it reads and writes,
-- goes on with what it got or with what was thrown, and returns or throws.
pub data AdapterScript : Type 0 where
  returns : AdapterResult → AdapterScript
  throws : Thrown → AdapterScript
  reads : String → String → (Try (Option Buffer) → AdapterScript) → AdapterScript
  writes : String → String → Option Buffer → (Try (Unit {0}) → AdapterScript) → AdapterScript

-- An adapter; `none` stands for a method that it does not have.
pub record Adapter : Type 0 where
  pub operations : List String
  pub plan_upsert : Option (Operation → AdapterScript)
  pub plan_delete : Option (Operation → AdapterScript)

pub record PlanConfig : Type 0 where
  pub vfs_config : VfsConfig
  pub overrides_id : String
  pub blocks : List ManifestBlock
  pub adapters : String → Option Adapter
  pub parse_store : StoreKind → Option Buffer → Map String
  pub print_store : StoreKind → Map String → Buffer
  pub parse_redirects : Option Buffer → List Redirect
  pub print_redirects : List Redirect → Buffer
  pub before : String → String → Bool
  pub entry_json : List String → String
  pub sanitize_rich_text : String → String
  pub normalize_plain_text : String → String
  pub opted_in : String → Bool
  -- `cfg.limits.max_file_bytes`, which is not the limit of `ChangeVfs`
  pub max_content_bytes : ℕ
  pub check_file_op_path : Root → String → Try String
  pub sha256_hex : Buffer → String

-- `if (!x) throw e`
abbrev pub needed : {A : Type 0} → Option A → Thrown → Try A
needed none e = err e
needed (some a) e = ok a

abbrev pub when_true : Bool → Plan (Unit {0}) → Plan (Unit {0})
when_true true m = m
when_true false m = pure tt

module _ (cfg : PlanConfig) (change_id : String) where
  open cfg use {
    vfs_config, overrides_id, parse_store, print_store, parse_redirects, print_redirects, before,
    entry_json, sanitize_rich_text, normalize_plain_text, opted_in,
  }

  abbrev pub find_block : String → Option ManifestBlock
  find_block id = find? (λ b. b.id == id) cfg.blocks

  -- `readStore` and `writeStore`
  unfoldable pub read_store : StoreKind → Plan (Map String)
  unfolding store_file read
  read_store kind = do
    raw ← on_vfs (read vfs_config overrides_id (store_file kind))
    pure (parse_store kind raw)

  unfoldable pub write_store : StoreKind → Map String → Plan (Unit {0})
  unfolding store_file write
  write_store kind m =
      on_vfs (write vfs_config overrides_id (store_file kind) (some (print_store kind m)))

  -- What follows the write of the metadata.
  unfoldable pub finish_metadata : String → ℕ → Bool → Plan (Unit {0})
  unfolding set_effective warn add_route
  finish_metadata route index is_set = do
    set_effective index (opted_in route)
    when_true (not (opted_in route) && is_set) (warn index "METADATA_NOT_OPTED_IN")
    add_route route index

  unfoldable pub plan_metadata_set : String → String → Bool → ℕ → Plan (Unit {0})
  unfolding add_flag read_store write_store finish_metadata
  plan_metadata_set route fields noindex index = do
    store ← read_store metadata_store
    when_true noindex (add_flag robots_noindex)
    write_store metadata_store (insert route (entry_json (fields ∷ change_id ∷ [])) store)
    finish_metadata route index true

  unfoldable pub plan_metadata_clear : String → ℕ → Plan (Unit {0})
  unfolding read_store write_store finish_metadata
  plan_metadata_clear route index = do
    store ← read_store metadata_store
    write_store metadata_store (remove route store)
    finish_metadata route index false

  -- The value that is stored, by the block's kind.
  unfoldable pub clean_value : String → String → String
  clean_value value format =
      if format == "rich-text" then sanitize_rich_text value else normalize_plain_text value

  unfoldable pub plan_block_set : String → String → String → ℕ → Plan (Unit {0})
  unfolding clean_value read_store write_store warn add_route
  plan_block_set id value format index = do
    b ← lift (needed (find_block id) (bridge unregistered_block))
    throw_if (b.kind == "image") (bridge operation_not_allowed)
    store ← read_store blocks_store
    throw_if (not (format == b.kind)) (bridge operation_not_allowed)
    when_true (not (clean_value value format == value)) (warn index "VALUE_SANITIZED")
    write_store blocks_store
        (insert id (entry_json (clean_value value format ∷ format ∷ change_id ∷ [])) store)
    add_route b.route index

  unfoldable pub plan_block_clear : String → ℕ → Plan (Unit {0})
  unfolding read_store write_store add_route
  plan_block_clear id index = do
    b ← lift (needed (find_block id) (bridge unregistered_block))
    throw_if (b.kind == "image") (bridge operation_not_allowed)
    store ← read_store blocks_store
    write_store blocks_store (remove id store)
    add_route b.route index

  unfoldable pub plan_image : String → (Map String → Map String) → ℕ → Plan (Unit {0})
  unfolding read_store write_store add_route
  plan_image id f index = do
    b ← lift (needed (find_block id) (bridge unregistered_block))
    throw_if (not (b.kind == "image")) (bridge unregistered_block)
    store ← read_store images_store
    write_store images_store (f store)
    add_route b.route index

  -- The end of both redirect operations.
  unfoldable pub write_redirects : List Redirect → String → ℕ → Plan (Unit {0})
  unfolding write add_flag add_route
  write_redirects rs source index = do
    on_vfs (write vfs_config overrides_id redirects_file (some (print_redirects rs)))
    add_flag redirect_flag
    add_route source index

  -- The warning stands between the tests of a loop and the test of the length.
  unfoldable pub warn_chain : Redirect → List Redirect → ℕ → Plan (Unit {0})
  unfolding turns_back has_source warn
  warn_chain e rs index =
      when_true (not (e.destination == e.source || turns_back e rs) && has_source e.destination rs)
        (warn index "REDIRECT_CHAIN")

  unfoldable pub plan_redirect_upsert : Redirect → ℕ → Plan (Unit {0})
  unfolding read upsert_redirect warn_chain write_redirects
  plan_redirect_upsert e index = do
    raw ← on_vfs (read vfs_config overrides_id redirects_file)
    warn_chain e (parse_redirects raw) index
    new ← lift (upsert_redirect before e (parse_redirects raw))
    write_redirects new e.source index

  unfoldable pub plan_redirect_delete : String → ℕ → Plan (Unit {0})
  unfolding read delete_redirect write_redirects
  plan_redirect_delete source index = do
    raw ← on_vfs (read vfs_config overrides_id redirects_file)
    new ← lift (delete_redirect before source (parse_redirects raw))
    write_redirects new source index
