-- ===== src/Bridge/Paths/Lexical.antt =====
-- A validated path goes down from its root, segment by segment.
use wordpress.Common.{
  Bool, Bool-cases, List, [], any, ap, arith, false, if◌then◌else◌, inl, inr, nat_eq, not, refl,
  sym, true, ℕ, ◌&&◌, ◌++◌, ◌||◌, ◌∙◌, ◌∷◌, ◌≡◌,
}
use wordpress.Bridge.Paths.{add_first, is_bad_segment, split_path}
use wordpress.Bridge.Paths.Resolve.{Segments, below}
use wordpress.Bridge.Rollback.{is_nonempty}

abbrev pub parent_of : Segments → Segments
parent_of [] = []
parent_of (s ∷ base) = base

abbrev pub is_dot : List ℕ → Bool
is_dot (c ∷ []) = nat_eq c 46
is_dot _ = false

abbrev pub is_dot_dot : List ℕ → Bool
is_dot_dot (c ∷ d ∷ []) = nat_eq c 46 && nat_eq d 46
is_dot_dot _ = false

-- How `path.resolve` is documented to follow segments: an empty one and `.` stay, `..` goes to the
-- parent, and a name goes down.
unfoldable pub follow : Segments → Segments → Segments
follow base [] = base
follow base (s ∷ segs) =
    if is_dot s || not (is_nonempty s)
    then follow base segs
    else if is_dot_dot s
    then follow (parent_of base) segs
    else follow (s ∷ base) segs

names_only :
    (s : List ℕ)
    → is_bad_segment s ≡ false
    → (is_dot s ≡ false) × (is_nonempty s ≡ true) × (is_dot_dot s ≡ false)
unfolding is_bad_segment
names_only [] h = ground (arith, h)
names_only (c ∷ []) h = (h, refl, refl)
names_only (c ∷ d ∷ []) h = (refl, refl, h)
names_only (c ∷ d ∷ e ∷ cs) h = (refl, refl, refl)

-- Segments that are names are all followed down.
pub follow-below :
    (base segs : Segments) → any is_bad_segment segs ≡ false → follow base segs ≡ below base segs
unfolding follow
follow-below base [] h = refl
follow-below base (s ∷ segs) h = elim (Bool-cases (is_bad_segment s)) [
  | inl bad ↦ ground (arith, h, bad)
  | inr good ↦
      let (dot, name, dots) = names_only s good in
      rw (dot, name, dots) (follow-below (s ∷ base) segs (rw good at h))
]

-- The segments with the separators between them.
unfoldable pub join_path : Segments → List ℕ
join_path [] = []
join_path (s ∷ []) = s
join_path (s ∷ t ∷ segs) = s ++ 47 ∷ join_path (t ∷ segs)

join-add_first : (c : ℕ) (segs : Segments) → join_path (add_first c segs) ≡ c ∷ join_path segs
unfolding join_path
join-add_first c [] = refl
join-add_first c (s ∷ []) = refl
join-add_first c (s ∷ t ∷ segs) = refl

join-empty_first :
    (s : List ℕ) (segs : Segments) → join_path ([] ∷ s ∷ segs) ≡ 47 ∷ join_path (s ∷ segs)
unfolding join_path
join-empty_first s segs = refl

split-nonempty : (cs : List ℕ) → (s : List ℕ) × (segs : Segments) × (split_path cs ≡ s ∷ segs)
unfolding split_path
split-nonempty [] = ([], [], refl)
split-nonempty (c ∷ cs) =
    let (s, segs, e) = split-nonempty cs in
    elim (Bool-cases (nat_eq c 47)) [
      | inl slash ↦ ([], split_path cs, rw slash refl)
      | inr other ↦ (c ∷ s, segs, rw other (rw (e, add_first) refl))
    ]

-- The segments of a path make up the path.
pub join-split : (cs : List ℕ) → join_path (split_path cs) ≡ cs
unfolding split_path
join-split [] = unfold join_path in refl
join-split (c ∷ cs) =
    let (s, segs, e) = split-nonempty cs in
    elim (Bool-cases (nat_eq c 47)) [
      | inl slash ↦
          let sep : 47 ≡ c = ground (arith, slash) in
          rw (slash, e)
            (join-empty_first s segs
              ∙ (ap (λ x. 47 ∷ x) (sym (ap join_path e) ∙ join-split cs) ∙ ap (λ x. x ∷ cs) sep))
      | inr other ↦ rw other (join-add_first c (split_path cs) ∙ ap (λ x. c ∷ x) (join-split cs))
    ]
