-- ===== src/Frontend/Roles.antt =====
-- The roles of the control plane: frontend/src/lib/roles.js. A role is a text; `hasRole` takes a
-- missing or empty minimum as none.
pub mod Order
pub mod Tests
use wordpress.Common.{
  Bool, List, Option, String, [], if◌then◌else◌, leb, none, or_else, some, suc, true, ℕ, ◌==◌, ◌∷◌,
}

unfoldable pub roles : List String
roles = "viewer" ∷ "editor" ∷ "deployer" ∷ "admin" ∷ []

-- `xs.indexOf(x)`, from an index on
unfoldable pub index_of : String → List String → ℕ → Option ℕ
index_of x [] i = none
index_of x (y ∷ ys) i = if y == x then some i else index_of x ys (suc i)

-- An unknown role has the rank of a viewer.
unfoldable pub role_rank : String → ℕ
unfolding index_of roles
role_rank role = or_else (index_of role roles 0) 0

unfoldable pub has_role : String → Option String → Bool
unfolding role_rank
has_role role none = true
has_role role (some least) = if least == "" then true else leb (role_rank least) (role_rank role)
