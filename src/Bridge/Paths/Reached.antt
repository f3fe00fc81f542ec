-- ===== src/Bridge/Paths/Reached.antt =====
-- Where a path that passes the walk and the real-path check really leads: inside the root.
use wordpress.Common.{
  Bool-cases, List, [], ap, arith, err, false, if◌then◌else◌, inl, inr, ok, or_else, refl, some,
  true, ℕ, ◌++◌, ◌∷◌, ◌≡◌,
}
use wordpress.Bridge.Errors.{bridge, path_symlink_escape}
use wordpress.Bridge.Paths.Resolve.{
  PathSystem, Real, Segments, below, is_inside, is_inside_from, leads_out, real_at, real_error,
  real_loop, real_missing, real_rel_from, reverse_onto, seg_eq, strip, walk_up,
}
use mathlib.Core.Path.{subst}

seg_eq→≡ : (a b : List ℕ) → seg_eq a b ≡ true → a ≡ b
seg_eq→≡ [] [] h = refl
seg_eq→≡ [] (y ∷ b) h = ground (arith, h)
seg_eq→≡ (x ∷ a) [] h = ground (arith, h)
seg_eq→≡ (x ∷ a) (y ∷ b) h = ground (arith, h, seg_eq→≡ a b)

-- What `strip` leaves follows the parent, and its first name does not begin with two dots.
pub strip-some :
    (sys : PathSystem) (parent child segs : Segments)
    → strip sys parent child ≡ some segs
    → (child ≡ parent ++ segs) × (is_inside_from [] segs ≡ true)
unfolding strip
strip-some sys [] child segs h = elim (Bool-cases (is_inside_from [] child)) [
  | inl inside ↦
      let same : child ≡ segs = ap (λ o. or_else o child) (rw inside at h) in
      (same, subst (λ c. is_inside_from [] c ≡ true) same inside)
  | inr outside ↦ ground (arith, rw outside at h)
]
strip-some sys (p ∷ parent) [] segs h = ground (arith, h)
strip-some sys (p ∷ parent) (s ∷ child) segs h = elim (Bool-cases (seg_eq p s)) [
  | inl same ↦
      let (rest, first) = strip-some sys parent child segs (rw same at h) in
      (rw (seg_eq→≡ p s same) (ap (λ c. s ∷ c) rest), first)
  | inr other ↦ ground (arith, rw other at h)
]

module _ (sys : PathSystem) where
  -- `full` is the real path of the deepest ancestor of `p` that exists, followed by what is below it.
  -- What is below does not exist, and no link there leads out of the root.
  pub data Reaches (root_real root_abs : Segments) : Segments → Segments → Segments → Type 0 where
    exists :
        {p tail r : Segments}
        → sys.real_path p ≡ real_at r
        → Reaches root_real root_abs p tail (below r tail)
    beneath :
        {s : List ℕ} {p tail full : Segments}
        → sys.real_path (s ∷ p) ≡ real_missing
        → leads_out sys root_real root_abs (s ∷ p) ≡ false
        → Reaches root_real root_abs p (s ∷ tail) full
        → Reaches root_real root_abs (s ∷ p) tail full

  -- The path really leads to a place in the root, which is below its real path.
  pub record LeadsTo (root_real root_abs p tail segs : Segments) : Type 0 where
    pub full : Segments
    pub reached : Reaches root_real root_abs p tail full
    pub below_root : reverse_onto full [] ≡ reverse_onto root_real [] ++ segs
    pub named : is_inside_from [] segs ≡ true
    pub inside : is_inside root_real full ≡ true

  module _ (root_real root_abs : Segments) where
    here :
        (p tail r segs : Segments) (u : Unit {0})
        → sys.real_path p ≡ real_at r
        → (if is_inside root_real (below r tail) then ok tt else err (bridge path_symlink_escape))
          ≡ ok u
        → strip sys (reverse_onto root_real []) (reverse_onto (below r tail) []) ≡ some segs
        → LeadsTo root_real root_abs p tail segs
    here p tail r segs u e h found = elim (Bool-cases (is_inside root_real (below r tail))) [
      | inr outside ↦ ground (arith, rw outside at h)
      | inl inside ↦
          let (rest, first) = strip-some sys (reverse_onto root_real []) _ segs found in
          record {
            full = below r tail;
            reached = exists e;
            below_root = rest;
            named = first;
            inside = inside;
          }
    ]

    pub walk_up-LeadsTo :
        (p tail segs : Segments) (u : Unit {0})
        → walk_up sys root_real root_abs p tail ≡ ok u
        → real_rel_from sys root_real p tail ≡ some segs
        → LeadsTo root_real root_abs p tail segs
    unfolding walk_up real_rel_from
    walk_up-LeadsTo [] tail segs u h found = go (sys.real_path []) refl
      where
        go : (x : Real) → sys.real_path [] ≡ x → LeadsTo root_real root_abs [] tail segs
        go (real_at r) e =
            here [] tail r segs u e (rw (e, walk_up) at h) (rw (e, real_rel_from) at found)
        go real_loop e = ground (arith, rw (e, walk_up) at h)
        go real_error e = ground (arith, rw (e, walk_up) at h)
        go real_missing e = ground (arith, rw (e, real_rel_from) at found)
    walk_up-LeadsTo (s ∷ p) tail segs u h found =
        go (λ walked below_p. walk_up-LeadsTo p (s ∷ tail) segs u walked below_p)
          (sys.real_path (s ∷ p)) refl
      where
        under :
            LeadsTo root_real root_abs p (s ∷ tail) segs
            → sys.real_path (s ∷ p) ≡ real_missing
            → leads_out sys root_real root_abs (s ∷ p) ≡ false
            → LeadsTo root_real root_abs (s ∷ p) tail segs
        under l e within = record {
          full = l.full;
          reached = beneath e within l.reached;
          below_root = l.below_root;
          named = l.named;
          inside = l.inside;
        }

        go :
            (walk_up sys root_real root_abs p (s ∷ tail) ≡ ok u
              → real_rel_from sys root_real p (s ∷ tail) ≡ some segs
              → LeadsTo root_real root_abs p (s ∷ tail) segs)
            → (x : Real) → sys.real_path (s ∷ p) ≡ x
            → LeadsTo root_real root_abs (s ∷ p) tail segs
        go ih (real_at r) e =
            here (s ∷ p) tail r segs u e (rw (e, walk_up) at h) (rw (e, real_rel_from) at found)
        go ih real_loop e = ground (arith, rw (e, walk_up) at h)
        go ih real_error e = ground (arith, rw (e, walk_up) at h)
        go ih real_missing e = elim (Bool-cases (leads_out sys root_real root_abs (s ∷ p))) [
          | inl out ↦ ground (arith, rw out at (rw (e, walk_up) at h))
          | inr within ↦
              under (ih (rw within at (rw (e, walk_up) at h)) (rw (e, real_rel_from) at found)) e
                within
        ]
