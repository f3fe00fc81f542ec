-- ===== src/Frontend/Roles/Tests.antt =====
-- Runs of the roles.
use wordpress.Common.{false, refl, some, ◌≡◌}
use wordpress.Frontend.Roles.{has_role, index_of, role_rank, roles}
use wordpress.Frontend.Roles.Order.{access_of, asked_of, has_role-suffices, suffices}

editor_applies : has_role "editor" (some "deployer") ≡ false
unfolding has_role role_rank index_of roles
editor_applies = refl

has_role-suffices_example :
    has_role "deployer" (some "editor") ≡ suffices (access_of "deployer") (asked_of (some "editor"))
has_role-suffices_example = has_role-suffices "deployer" (some "editor")
