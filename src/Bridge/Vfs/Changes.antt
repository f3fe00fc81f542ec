-- ===== src/Bridge/Vfs/Changes.antt =====
-- The changes of a virtual file system are the net effect of what is staged.
use wordpress.Common.{
  All, Bool-cases, IsIn, List, Map, Option, String, [], arith, eq_iff, false, inl, inr, lookup, ok,
  refl, some, str_eq_refl, true, ◌==◌, ◌∷◌, ◌≡◌, ◌⊎◌,
}
use wordpress.Bridge.Vfs.{ChangeVfs, Original, changes, changes_from}
use wordpress.Bridge.Files.{Buffer, FileChange, same_content}
use wordpress.Bridge.Vfs.Laws.{Backed}
use mathlib.Core.Path.{subst}

-- The change of a staged file.
abbrev pub change_of : Original → Option Buffer → FileChange
change_of o after = record { root = o.root; path = o.path; before = o.before; after = after }

-- A change that is one of a staged file that differs from its original.
pub record IsStaged (originals : Map Original) (staged : Map (Option Buffer)) (c : FileChange)
    : Type 0 where
  pub key : String
  pub original : Original
  pub after : Option Buffer
  pub entry : IsIn (key, after) staged
  pub known : lookup key originals ≡ some original
  pub differs : same_content original.before after ≡ false
  pub change : c ≡ change_of original after

-- `cs` lists the staged files that differ from their originals, and nothing else.
pub record Net (originals : Map Original) (staged : Map (Option Buffer)) (cs : List FileChange)
    : Type 0 where
  pub sound : All (IsStaged originals staged) cs
  pub complete :
      (k : String) (o : Original) (after : Option Buffer)
      → lookup k staged ≡ some after
      → lookup k originals ≡ some o
      → same_content o.before after ≡ false
      → IsIn (change_of o after) cs

-- The changes of a map are changes of the map with one more entry.
IsStaged-later :
    (originals : Map Original) (k : String) (after : Option Buffer) (staged : Map (Option Buffer))
    (cs : List FileChange)
    → All (IsStaged originals staged) cs
    → All (IsStaged originals ((k, after) ∷ staged)) cs
IsStaged-later originals k after staged [] h = tt
IsStaged-later originals k after staged (c ∷ cs) (h, hs) = (
  record {
    key = h.key;
    original = h.original;
    after = h.after;
    entry = inr h.entry;
    known = h.known;
    differs = h.differs;
    change = h.change;
  },
  IsStaged-later originals k after staged cs hs,
)

-- The entry of a key in a map with one more entry.
entry_cases :
    (k j : String) (after last : Option Buffer) (staged : Map (Option Buffer))
    → lookup j ((k, after) ∷ staged) ≡ some last
    → ((k ≡ j) × (after ≡ last)) ⊎ (lookup j staged ≡ some last)
unfolding lookup
entry_cases k j after last staged is = elim (Bool-cases (k == j)) [
  | inl here ↦ inl ((eq_iff k j).0 here, ground (arith, rw here at is))
  | inr apart ↦ inr (rw apart at is)
]

same_original :
    (originals : Map Original) (k j : String) (o p : Original)
    → k ≡ j
    → lookup k originals ≡ some o
    → lookup j originals ≡ some p
    → o ≡ p
same_original originals k j o p e found was = cc

Net-skip :
    (originals : Map Original) (k : String) (o : Original) (after : Option Buffer)
    (staged : Map (Option Buffer)) (cs : List FileChange)
    → lookup k originals ≡ some o
    → same_content o.before after ≡ true
    → Net originals staged cs
    → Net originals ((k, after) ∷ staged) cs
Net-skip originals k o after staged cs found unchanged n = record {
  sound = IsStaged-later originals k after staged cs n.sound;
  complete = λ j p last is was other. elim (entry_cases k j after last staged is) [
    | inr later ↦ n.complete j p last later was other
    | inl (here, last_is) ↦
        let one = same_original originals k j o p here found was in
        let clash : same_content p.before last ≡ true =
          subst (λ (x : Original). same_content x.before last ≡ true) one
            (rw last_is at unchanged) in
        ground (arith, clash, other)
  ];
}

Net-add :
    (originals : Map Original) (k : String) (o : Original) (after : Option Buffer)
    (staged : Map (Option Buffer)) (cs : List FileChange)
    → lookup k originals ≡ some o
    → same_content o.before after ≡ false
    → Net originals staged cs
    → Net originals ((k, after) ∷ staged) (change_of o after ∷ cs)
Net-add originals k o after staged cs found changed n = record {
  sound = (
    record {
      key = k;
      original = o;
      after = after;
      entry = inl refl;
      known = found;
      differs = changed;
      change = refl;
    },
    IsStaged-later originals k after staged cs n.sound,
  );
  complete = λ j p last is was other. elim (entry_cases k j after last staged is) [
    | inr later ↦ inr (n.complete j p last later was other)
    | inl (here, last_is) ↦
        let one = same_original originals k j o p here found was in
        inl (subst (λ (x : Original). change_of x last ≡ change_of o after) one (rw last_is refl))
  ];
}

-- Every key of the list has an original.
Covered : Map Original → Map (Option Buffer) → Type 0
Covered originals = All (λ e. (o : Original) × (lookup e.0 originals ≡ some o))

changes_from-Net :
    (originals : Map Original) (staged : Map (Option Buffer))
    → Covered originals staged
    → (cs : List FileChange) × (changes_from originals staged ≡ ok cs) × Net originals staged cs
unfolding Covered changes_from
changes_from-Net originals [] c =
    ([], refl, record { sound = tt; complete = λ k o after is was other. unfold lookup in cc })
changes_from-Net originals ((k, after) ∷ staged) ((o, found), c) =
    let (cs, run, n) = changes_from-Net originals staged c in
    elim (Bool-cases (same_content o.before after)) [
      | inl unchanged ↦ (
        cs,
        rw (found, changes_from) (rw unchanged run),
        Net-skip originals k o after staged cs found unchanged n,
      )
      | inr changed ↦ (
        change_of o after ∷ cs,
        rw (found, changes_from) (rw changed (rw run refl)),
        Net-add originals k o after staged cs found changed n,
      )
    ]

-- Every entry of a map has an original if every key that is found has one.
Covered-lookup :
    (originals : Map Original) (staged : Map (Option Buffer))
    → ((k : String) (after : Option Buffer)
        → lookup k staged ≡ some after
        → (o : Original) × (lookup k originals ≡ some o))
    → Covered originals staged
unfolding Covered lookup
Covered-lookup originals [] h = tt
Covered-lookup originals ((k, after) ∷ staged) h = (
  h k after (rw (str_eq_refl k) refl),
  Covered-lookup originals staged (λ j last is. elim (Bool-cases (k == j)) [
    | inl here ↦ h j after (rw here refl)
    | inr apart ↦ h j last (rw apart is)
  ]),
)

-- Where every staged key has an original, `changes` returns, and lists every staged file that differs
-- from its original; each change that it lists is the one of a staged entry that differs.
pub changes-Net :
    (v : ChangeVfs)
    → Backed v
    → (cs : List FileChange) × (changes v ≡ ok cs) × Net v.originals v.staged cs
unfolding changes
changes-Net v b =
    changes_from-Net v.originals v.staged (Covered-lookup v.originals v.staged b.original)
