-- ===== src/Bridge/Paths/Resolve.antt =====
-- Paths on the disk: `resolveInRoot`, `realRelPath` and the checks of file operations in
-- automation-bridge/src/core/paths.ts. An absolute path is the list of its segments from the end, so
-- its parent is the rest of the list.
use wordpress.Common.{
  Bool, List, Option, String, [], codes, err, false, if◌then◌else◌, nat_eq, none, not, ok, some,
  true, ℕ, ◌&&◌, ◌++◌, ◌==◌, ◌∷◌,
}
use wordpress.Bridge.Paths.{builtin_deny, split_path, validate_rel_path}
use wordpress.Bridge.Errors.{
  Try, bridge, foreign, not_found, operation_not_allowed, path_outside_root, path_symlink_escape,
}

abbrev pub Segments : Type 0
Segments = List (List ℕ)

-- What `fsp.realpath` answers.
pub data Real : Type 0 where
  real_at : Segments → Real
  real_loop real_missing real_error : Real

-- The calls of the file system, and what picomatch matches; `read_link` is the absolute path to which
-- a link leads, where the path is a link.
pub record PathSystem : Type 0 where
  pub nfc : String → String
  pub real_path : Segments → Real
  pub read_link : Segments → Option Segments
  pub picomatch : List String → String → Bool
  pub text_of : Segments → String

pub record PathRoot : Type 0 where
  pub abs : Segments
  pub allow : List String
  pub deny : List String

abbrev pub seg_eq : List ℕ → List ℕ → Bool
seg_eq [] [] = true
seg_eq (a ∷ as') (b ∷ bs) = nat_eq a b && seg_eq as' bs
seg_eq _ _ = false

abbrev pub reverse_onto {ℓ} : {A : Type ℓ} → List A → List A → List A
reverse_onto [] ys = ys
reverse_onto (x ∷ xs) ys = reverse_onto xs (x ∷ ys)

abbrev pub starts_dots : List ℕ → Bool
starts_dots (c ∷ d ∷ cs) = nat_eq c 46 && nat_eq d 46
starts_dots _ = false

-- `path.relative(parent, child)` does not start with "..": both paths from the front.
unfoldable pub is_inside_from : Segments → Segments → Bool
is_inside_from [] [] = true
is_inside_from [] (s ∷ child) = not (starts_dots s)
is_inside_from (p ∷ parent) [] = false
is_inside_from (p ∷ parent) (s ∷ child) =
    let rest = is_inside_from parent child in if seg_eq p s then rest else false

unfoldable pub is_inside : Segments → Segments → Bool
unfolding is_inside_from
is_inside parent child = is_inside_from (reverse_onto parent []) (reverse_onto child [])

-- `path.resolve(root, ...segments)` of segments that are no dots, and `path.join(real, ...tail)`.
abbrev pub below : Segments → Segments → Segments
below base segs = reverse_onto segs base

-- What follows a step that may throw.
abbrev pub and_then : {A B : Type 0} → Try A → (A → Try B) → Try B
and_then (ok a) f = f a
and_then (err e) f = err e

module _ (sys : PathSystem) where
  open sys use {nfc, real_path, read_link, picomatch, text_of}

  -- A dangling link whose target is outside both forms of the root.
  unfoldable pub leads_out : Segments → Segments → Segments → Bool
  unfolding is_inside
  leads_out root_real root_abs probe = elim (read_link probe) [
    | none ↦ false
    | some target ↦ not (is_inside root_real target) && not (is_inside root_abs target)
  ]

  -- The loop that walks up to the deepest ancestor that exists; `tail` has the segments below it.
  unfoldable pub walk_up : Segments → Segments → Segments → Segments → Try (Unit {0})
  unfolding is_inside leads_out
  walk_up root_real root_abs [] tail = elim (real_path []) [
    | real_at r ↦
        if is_inside root_real (below r tail) then ok tt else err (bridge path_symlink_escape)
    | real_loop ↦ err (bridge path_symlink_escape)
    | real_error ↦ err foreign
    | real_missing ↦
        if leads_out root_real root_abs [] then err (bridge path_symlink_escape) else ok tt
  ]
  walk_up root_real root_abs (s ∷ parent) tail =
      let rest = walk_up root_real root_abs parent (s ∷ tail) in
      elim (real_path (s ∷ parent)) [
        | real_at r ↦
            if is_inside root_real (below r tail) then ok tt else err (bridge path_symlink_escape)
        | real_loop ↦ err (bridge path_symlink_escape)
        | real_error ↦ err foreign
        | real_missing ↦
            if leads_out root_real root_abs (s ∷ parent)
            then err (bridge path_symlink_escape)
            else rest
      ]

  unfoldable pub lexical : PathRoot → String → Segments
  unfolding codes split_path
  lexical root clean = below root.abs (split_path (codes clean))

  -- The absolute path to operate on, for a root whose real path is known.
  unfoldable pub resolve_from : PathRoot → Segments → String → Try Segments
  unfolding lexical is_inside walk_up
  resolve_from root root_real clean =
      let p = lexical root clean in
      if not (is_inside root.abs p)
      then err (bridge path_outside_root)
      else elim (walk_up root_real root.abs p []) [ ok u ↦ ok p | err e ↦ err e ]

  unfoldable pub resolve_in_root : PathRoot → String → Try Segments
  unfolding validate_rel_path resolve_from
  resolve_in_root root rel = elim (validate_rel_path nfc rel) [
    | err e ↦ err e
    | ok clean ↦ elim (real_path root.abs) [
      | real_at root_real ↦ resolve_from root root_real clean
      | _ ↦ err (bridge not_found)
    ]
  ]

  -- `matcher`: an empty list of globs matches nothing.
  unfoldable pub matcher : List String → String → Bool
  matcher [] p = false
  matcher (g ∷ gs) p = picomatch (g ∷ gs) p

  unfoldable pub is_denied : PathRoot → String → Bool
  unfolding matcher
  is_denied root rel = matcher (builtin_deny ++ root.deny) rel

  unfoldable pub is_allowed : PathRoot → String → Bool
  unfolding matcher
  is_allowed root rel = matcher root.allow rel

  unfoldable pub check_rules : PathRoot → String → Try (Unit {0})
  unfolding is_denied is_allowed
  check_rules root rel =
      if is_denied root rel
      then err (bridge operation_not_allowed)
      else if is_allowed root rel
      then ok tt
      else err (bridge operation_not_allowed)

  unfoldable pub check_file_op_path : PathRoot → String → Try String
  unfolding validate_rel_path check_rules
  check_file_op_path root rel =
      and_then (validate_rel_path nfc rel)
        (λ clean. and_then (check_rules root clean) (λ _. ok clean))

  -- The segments that a path has below another one, both from the front.
  unfoldable pub strip : Segments → Segments → Option Segments
  strip [] child = if is_inside_from [] child then some child else none
  strip (p ∷ parent) [] = none
  strip (p ∷ parent) (s ∷ child) =
      let rest = strip parent child in if seg_eq p s then rest else none

  -- `realRelPath`: the real path of the deepest ancestor that exists, with the rest, below the root's.
  unfoldable pub real_rel_from : Segments → Segments → Segments → Option Segments
  unfolding strip
  real_rel_from root_real [] tail = elim (real_path []) [
    | real_at r ↦ strip (reverse_onto root_real []) (reverse_onto (below r tail) [])
    | _ ↦ none
  ]
  real_rel_from root_real (s ∷ parent) tail =
      let rest = real_rel_from root_real parent (s ∷ tail) in
      elim (real_path (s ∷ parent)) [
        | real_at r ↦ strip (reverse_onto root_real []) (reverse_onto (below r tail) [])
        | _ ↦ rest
      ]

  unfoldable pub real_rel_path : PathRoot → String → Try (Option String)
  unfolding lexical real_rel_from
  real_rel_path root clean = elim (real_path root.abs) [
    | real_at root_real ↦ ok (elim (real_rel_from root_real (lexical root clean) []) [
      | none ↦ none
      | some segs ↦ some (text_of segs)
    ])
    | _ ↦ err foreign
  ]

  -- The rules on the real path, where it differs.
  unfoldable pub check_real : PathRoot → String → Option String → Try String
  unfolding check_rules
  check_real root clean none = err (bridge path_symlink_escape)
  check_real root clean (some real) =
      let ruled = and_then (check_rules root real) (λ _. ok clean) in
      if real == clean then ok clean else ruled

  unfoldable pub check_file_op_path_real : PathRoot → String → Try String
  unfolding check_file_op_path resolve_in_root real_rel_path check_real
  check_file_op_path_real root rel = and_then (check_file_op_path root rel) (λ clean.
      and_then (resolve_in_root root clean)
        (λ _. and_then (real_rel_path root clean) (check_real root clean)))
