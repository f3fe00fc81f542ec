-- ===== src/Bridge/Redirects.antt =====
-- The redirect operations of a change set: automation-bridge/src/core/engine.ts, the cases
-- "redirect.upsert" and "redirect.delete" of `planOne`, on the store of redirects that they read and
-- write. A thrown error leaves the store as it was, since nothing is written then.
pub mod Store
pub mod Laws
pub mod Tests
use wordpress.Common.{
  Bool, List, String, [], err, false, if◌then◌else◌, length, ltb, ok, ◌&&◌, ◌==◌, ◌||◌, ◌∷◌,
}
use wordpress.Bridge.Errors.{Try, bridge, not_found, operation_not_allowed}
use Prim.Native.String

pub record Redirect : Type 0 where
  pub source : String
  pub destination : String
  pub permanent : Bool
  pub change_id : String

-- `findIndex((r) => r.source === source) >= 0`
unfoldable pub has_source : String → List Redirect → Bool
has_source source [] = false
has_source source (r ∷ rs) = r.source == source || has_source source rs

-- `some((r) => r.source === op.destination && r.destination === op.source)`
unfoldable pub turns_back : Redirect → List Redirect → Bool
turns_back e [] = false
turns_back e (r ∷ rs) = r.source == e.destination && r.destination == e.source || turns_back e rs

-- `if (existing >= 0) store.redirects[existing] = entry; else store.redirects.push(entry)`
unfoldable pub put_entry : Redirect → List Redirect → List Redirect
put_entry e [] = e ∷ []
put_entry e (r ∷ rs) =
    let rest = put_entry e rs in if r.source == e.source then e ∷ rs else r ∷ rest

-- `store.redirects.splice(existing, 1)`
unfoldable pub drop_source : String → List Redirect → List Redirect
drop_source source [] = []
drop_source source (r ∷ rs) =
    let rest = drop_source source rs in if r.source == source then rs else r ∷ rest

-- `store.redirects.sort(…)` by source: a stable sort, in the order of texts `before`.
module _ (before : String → String → Bool) where
  unfoldable pub sort_in : Redirect → List Redirect → List Redirect
  sort_in e [] = e ∷ []
  sort_in e (r ∷ rs) =
      let rest = sort_in e rs in if before r.source e.source then r ∷ rest else e ∷ r ∷ rs

  unfoldable pub sort_redirects : List Redirect → List Redirect
  unfolding sort_in
  sort_redirects [] = []
  sort_redirects (r ∷ rs) = sort_in r (sort_redirects rs)

  unfoldable pub upsert_redirect : Redirect → List Redirect → Try (List Redirect)
  unfolding turns_back put_entry sort_redirects
  upsert_redirect e rs =
      if e.destination == e.source || turns_back e rs
      then err (bridge operation_not_allowed)
      else if ltb 5000 (length (put_entry e rs))
      then err (bridge operation_not_allowed)
      else ok (sort_redirects (put_entry e rs))

  unfoldable pub delete_redirect : String → List Redirect → Try (List Redirect)
  unfolding has_source drop_source sort_redirects
  delete_redirect source rs =
      if has_source source rs
      then ok (sort_redirects (drop_source source rs))
      else err (bridge not_found)
