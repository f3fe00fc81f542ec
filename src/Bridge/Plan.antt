-- ===== src/Bridge/Plan.antt =====
-- Planning a change set: automation-bridge/src/core/engine.ts, `planChangeSet` around `planOne`, with
-- the operations and capabilities of schemas.ts and `isDynamicPattern` of route.ts beside it.
-- Messages are left out, so a warning is its code, and so is an error.
pub mod Steps
pub mod Operations
pub mod Outcome
pub mod Backing
pub mod Kept
pub mod Net
pub mod Tests
use wordpress.Common.{
  Bool, Exec, List, Option, Result, String, [], any, catch, codes, false, if◌then◌else◌, map,
  modify, nat_eq, not, ok, pure, raise, some, suc, true, zero, ℕ, ◌&&◌, ◌++◌, ◌==◌, ◌>>=◌, ◌>>◌,
  ◌||◌, ◌∷◌,
}
use wordpress.Bridge.Errors.{ErrorCode, Thrown, bridge, capability_unsupported, foreign}
use wordpress.Bridge.Files.{Buffer}
use wordpress.Bridge.Vfs.{ChangeVfs, Planning}

pub data RiskFlag : Type 0 where
  code_change deletes_content robots_noindex redirect_flag : RiskFlag

pub data RiskLevel : Type 0 where
  low medium high : RiskLevel

-- An operation, with what planning reads of it; `fields` is the JSON of the metadata.
pub data Operation : Type 0 where
  content_upsert : String → Option String → String → Operation
  content_delete : String → String → Operation
  metadata_set : String → String → Bool → Operation
  metadata_clear : String → Operation
  block_set : String → String → String → Operation
  block_clear : String → Operation
  image_alt_set : String → String → Operation
  image_alt_clear : String → Operation
  redirect_upsert : String → String → Bool → Operation
  redirect_delete : String → Operation
  file_write : String → String → Buffer → Option String → Operation
  file_delete : String → String → String → Operation

pub data Capability : Type 0 where
  content_write metadata_write blocks_write images_alt_write redirects_write files_patch :
      Capability

unfoldable pub op_capability : Operation → Capability
op_capability (content_upsert c b o) = content_write
op_capability (content_delete c o) = content_write
op_capability (metadata_set r f n) = metadata_write
op_capability (metadata_clear r) = metadata_write
op_capability (block_set b v f) = blocks_write
op_capability (block_clear b) = blocks_write
op_capability (image_alt_set i a) = images_alt_write
op_capability (image_alt_clear i) = images_alt_write
op_capability (redirect_upsert s d p) = redirects_write
op_capability (redirect_delete s) = redirects_write
op_capability (file_write r p c b) = files_patch
op_capability (file_delete r p b) = files_patch

-- The local variables of `planChangeSet`; an error of no operation, with index -1, has `none`; the sets keep the order of insertion.
pub record PlanState : Type 0 where
  pub vfs : ChangeVfs
  pub errors : List (Option ℕ × ErrorCode)
  pub warnings : List (ℕ × String)
  pub impacted : List String
  pub flags : List RiskFlag
  pub effective : List Bool

abbrev pub Plan : Type 0 → Type 0
Plan A = Exec Thrown PlanState A

-- A step of the virtual file system.
abbrev pub keep_vfs :
    {A : Type 0} → PlanState → Result Thrown A × ChangeVfs → Result Thrown A × PlanState
keep_vfs s (r, v) = (r, record s { vfs = v })

abbrev pub on_vfs : {A : Type 0} → Planning A → Plan A
on_vfs m s = keep_vfs s (m s.vfs)

abbrev pub flag_eq : RiskFlag → RiskFlag → Bool
flag_eq code_change code_change = true
flag_eq deletes_content deletes_content = true
flag_eq robots_noindex robots_noindex = true
flag_eq redirect_flag redirect_flag = true
flag_eq _ _ = false

-- `flags.add(f)`
unfoldable pub add_flag : RiskFlag → Plan (Unit {0})
add_flag f =
    modify λ s. record s { flags = if any (flag_eq f) s.flags then s.flags else s.flags ++ f ∷ [] }

unfoldable pub warn : ℕ → String → Plan (Unit {0})
warn index c = modify λ s. record s { warnings = s.warnings ++ (index, c) ∷ [] }

-- `effective[index] = value`
unfoldable pub set_at : ℕ → Bool → List Bool → List Bool
set_at n b [] = []
set_at zero b (e ∷ es) = b ∷ es
set_at (suc n) b (e ∷ es) = e ∷ set_at n b es

unfoldable pub set_effective : ℕ → Bool → Plan (Unit {0})
unfolding set_at
set_effective index b = modify λ s. record s { effective = set_at index b s.effective }

-- `/\[[^\]]+\]/`: a bracket, a character that does not close it, and later one that does.
abbrev pub opens : List ℕ → Bool
opens [] = false
opens (c ∷ cs) = not (nat_eq c 93) && any (nat_eq 93) cs

abbrev pub has_bracket : List ℕ → Bool
has_bracket [] = false
has_bracket (c ∷ cs) = nat_eq c 91 && opens cs || has_bracket cs

unfoldable pub is_dynamic_pattern : String → Bool
unfolding codes
is_dynamic_pattern s = has_bracket (codes s)

-- `addRoute`
unfoldable pub add_route : String → ℕ → Plan (Unit {0})
unfolding is_dynamic_pattern warn
add_route r index s = if is_dynamic_pattern r then warn index "REVALIDATE_DYNAMIC_ROUTE" s else (
  ok tt,
  record s { impacted = if any (λ x. x == r) s.impacted then s.impacted else s.impacted ++ r ∷ [] },
)

unfoldable pub push_error : Option ℕ → ErrorCode → Plan (Unit {0})
push_error index c = modify λ s. record s { errors = s.errors ++ (index, c) ∷ [] }

-- The handler of the loop's `catch`: a `BridgeError` is noted, any other exception goes on.
unfoldable pub note_error : ℕ → Thrown → Plan (Unit {0})
unfolding set_effective push_error
note_error index (bridge c) = do set_effective index false; push_error (some index) c
note_error index foreign = do set_effective index false; raise foreign

module _ (has_capability : Capability → Bool) (plan_one : Operation → ℕ → Plan (Unit {0})) where
  -- A round of the loop.
  unfoldable pub plan_op : Operation → ℕ → Plan (Unit {0})
  unfolding op_capability push_error set_effective note_error
  plan_op op index =
      if has_capability (op_capability op)
      then catch (plan_one op index) (note_error index)
      else (do push_error (some index) capability_unsupported; set_effective index false)

  unfoldable pub plan_ops : List Operation → ℕ → Plan (Unit {0})
  unfolding plan_op
  plan_ops [] index = pure tt
  plan_ops (op ∷ ops) index = do plan_op op index; plan_ops ops (suc index)

abbrev pub start_state : List Operation → PlanState
start_state ops = record {
  vfs = record { originals = []; staged = [] };
  errors = [];
  warnings = [];
  impacted = [];
  flags = [];
  effective = map (λ _. true) ops;
}
