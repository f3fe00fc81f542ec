-- ===== src/Frontend/Roles/Order.antt =====
-- What each role is allowed, as a table.
use wordpress.Common.{
  Bool, Bool-cases, Option, String, arith, eq_iff, false, if◌then◌else◌, inl, inr, leb, none, refl,
  some, sym, true, ℕ, ◌==◌, ◌≡◌,
}
use wordpress.Frontend.Roles.{has_role, index_of, role_rank, roles}

-- The levels of access of protocol/control-plane-api.md.
pub data Access : Type 0 where
  reads_only edits deploys administers : Access

-- Which level passes as which: the first is what a user has, the second what is asked.
unfoldable pub suffices : Access → Access → Bool
suffices reads_only reads_only = true
suffices reads_only edits = false
suffices reads_only deploys = false
suffices reads_only administers = false
suffices edits reads_only = true
suffices edits edits = true
suffices edits deploys = false
suffices edits administers = false
suffices deploys reads_only = true
suffices deploys edits = true
suffices deploys deploys = true
suffices deploys administers = false
suffices administers reads_only = true
suffices administers edits = true
suffices administers deploys = true
suffices administers administers = true

-- The level that a text names; a text that names none is a viewer's.
unfoldable pub access_of : String → Access
access_of s =
    if s == "admin"
    then administers
    else if s == "deployer"
    then deploys
    else if s == "editor"
    then edits
    else reads_only

unfoldable pub asked_of : Option String → Access
asked_of none = reads_only
asked_of (some s) = access_of s

rank_cases :
    (role : String)
    → ((role == "admin") ≡ false)
    → ((role == "deployer") ≡ false)
    → ((role == "editor") ≡ false)
    → role_rank role ≡ 0
unfolding role_rank index_of roles
rank_cases role a d e = ground (
  arith,
  eq_iff "viewer" role,
  eq_iff "editor" role,
  eq_iff "deployer" role,
  eq_iff "admin" role,
  eq_iff role "admin",
  eq_iff role "deployer",
  eq_iff role "editor",
)

unfoldable level : Access → ℕ
level reads_only = 0
level edits = 1
level deploys = 2
level administers = 3

rank_level : (s : String) → role_rank s ≡ level (access_of s)
unfolding access_of level
rank_level s = elim (Bool-cases (s == "admin")) [
  | inl named ↦ rw ((eq_iff s "admin").0 named) (unfold role_rank index_of roles in refl)
  | inr no_admin ↦ elim (Bool-cases (s == "deployer")) [
    | inl named ↦ rw ((eq_iff s "deployer").0 named) (unfold role_rank index_of roles in refl)
    | inr no_deployer ↦ elim (Bool-cases (s == "editor")) [
      | inl named ↦ rw ((eq_iff s "editor").0 named) (unfold role_rank index_of roles in refl)
      | inr no_editor ↦
          rw no_admin (rw no_deployer (rw no_editor (rank_cases s no_admin no_deployer no_editor)))
    ]
  ]
]

suffices-level : (a b : Access) → leb (level b) (level a) ≡ suffices a b
unfolding suffices level
suffices-level reads_only reads_only = refl
suffices-level reads_only edits = refl
suffices-level reads_only deploys = refl
suffices-level reads_only administers = refl
suffices-level edits reads_only = refl
suffices-level edits edits = refl
suffices-level edits deploys = refl
suffices-level edits administers = refl
suffices-level deploys reads_only = refl
suffices-level deploys edits = refl
suffices-level deploys deploys = refl
suffices-level deploys administers = refl
suffices-level administers reads_only = refl
suffices-level administers edits = refl
suffices-level administers deploys = refl
suffices-level administers administers = refl

suffices_viewer : (a : Access) → suffices a reads_only ≡ true
unfolding suffices
suffices_viewer reads_only = refl
suffices_viewer edits = refl
suffices_viewer deploys = refl
suffices_viewer administers = refl

-- For any role and any minimum, known or not, hasRole answers what the table of the four levels says
-- of the levels that they name.
pub has_role-suffices :
    (role : String) (least : Option String)
    → has_role role least ≡ suffices (access_of role) (asked_of least)
unfolding has_role asked_of
has_role-suffices role none = sym (suffices_viewer (access_of role))
has_role-suffices role (some s) = elim (Bool-cases (s == "")) [
  | inl blank ↦
      rw ((eq_iff s "").0 blank) (unfold access_of in sym (suffices_viewer (access_of role)))
  | inr given ↦
      rw given
        (rw (rank_level s) (rw (rank_level role) (suffices-level (access_of role) (access_of s))))
]
