-- ===== src/Bridge/Paths/Safe.antt =====
-- What a path that passes `checkFileOpPathReal` cannot do.
use wordpress.Common.{String, [], codes, err, false, ok, some, true, ◌≡◌, ◌≤◌}
use wordpress.Bridge.Paths.{max_path_bytes, split_path, validate_rel_path}
use wordpress.Bridge.Errors.{Try}
use wordpress.Bridge.Paths.Lexical.{follow, join_path}
use wordpress.Bridge.Paths.Reached.{LeadsTo}
use wordpress.Bridge.Paths.Resolve.{
  PathRoot, PathSystem, Segments, is_allowed, is_denied, is_inside, lexical, real_at, real_rel_path,
  walk_up,
}
use Prim.Native.String.{len}

abbrev ok_or : {A : Type 0} → A → Try A → A
ok_or d (ok a) = a
ok_or d (err e) = d

module _ (sys : PathSystem) (root : PathRoot) where
  -- The rules of the root allow the path, and do not deny it.
  pub record IsPermitted (p : String) : Type 0 where
    pub allowed : is_allowed sys root p ≡ true
    pub undenied : is_denied sys root p ≡ false

  pub record IsSafe (rel p : String) : Type 0 where
    pub valid : validate_rel_path sys.nfc rel ≡ ok p
    pub down : follow root.abs (split_path (codes p)) ≡ lexical sys root p
    pub whole : join_path (split_path (codes p)) ≡ codes p
    pub few : len p ≤ max_path_bytes
    pub permitted : IsPermitted p
    pub real : String
    pub real_path : real_rel_path sys root p ≡ ok (some real)
    pub real_permitted : IsPermitted real
    pub within : is_inside root.abs (lexical sys root p) ≡ true
    pub root_real : Segments
    pub root_at : sys.real_path root.abs ≡ real_at root_real
    pub segs : Segments
    pub leads : LeadsTo sys root_real root.abs (lexical sys root p) [] segs
    pub real_text : real ≡ sys.text_of segs

  -- The walk of a path that is resolved.
  record Walked (p : String) : Type 0 where
    root_real : Segments
    root_at : sys.real_path root.abs ≡ real_at root_real
    within : is_inside root.abs (lexical sys root p) ≡ true
    walked : walk_up sys root_real root.abs (lexical sys root p) [] ≡ ok tt
