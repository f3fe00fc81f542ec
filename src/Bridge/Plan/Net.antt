-- ===== src/Bridge/Plan/Net.antt =====
-- What a plan lists is the net effect of its operations.
use wordpress.Common.{Bool, [], err, false, lift, ok, refl, true, ◌>>=◌, ◌↔◌, ◌≡◌}
use wordpress.Bridge.Plan.{Plan, PlanState, RiskLevel, code_change, high, low, medium}
use wordpress.Bridge.Errors.{Try}
use wordpress.Bridge.Plan.Backing.{Backs}
use wordpress.Bridge.Plan.Outcome.{PlanResult, has_flag}
use wordpress.Bridge.Vfs.Changes.{Net}
use wordpress.Bridge.Vfs.Laws.{Backed}

pub Backs-lift_bind :
    {A B : Type 0} (r : Try A) (f : A → Plan B)
    → ((a : A) → r ≡ ok a → Backs (f a))
    → Backs (lift r >>= f)
unfolding Backs
Backs-lift_bind (ok a) f k s b = k a refl s b
Backs-lift_bind (err e) f k s b = b

-- What a plan that is returned says of the state that it leaves.
pub record IsPlan (s : PlanState) (r : PlanResult) : Type 0 where
  pub backed : Backed s.vfs
  pub net : Net s.vfs.originals s.vfs.staged r.file_changes
  pub valid_iff : (r.valid ≡ true) ↔ (s.errors ≡ [])
  pub high_iff : (r.level ≡ high) ↔ (has_flag code_change s.flags ≡ true)
  pub low_iff : (r.level ≡ low) ↔ (s.flags ≡ [])

level_of : Bool → Bool → Bool → Bool → RiskLevel
level_of true d r n = high
level_of false true r n = medium
level_of false false true n = medium
level_of false false false true = medium
level_of false false false false = low
