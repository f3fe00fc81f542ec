-- ===== src/Bridge/Apply/Approved.antt =====
-- An apply changes files only as approved.
use wordpress.Common.{
  Option, Post, Post-map, Post-throw_if, String, arith, eq_iff, false, inl, inr, none, not, refl,
  some, true, ℕ, ◌==◌, ◌≡◌, ◌≢◌, ◌⊎◌,
}
use wordpress.Bridge.Apply.{ApplyRequest, PlanOutcome, apply_change_set, apply_input, base_moved}
use wordpress.Bridge.Execute.{execute_changes}
use wordpress.Bridge.Execute.Atomic.{Applied, Safe, execute_changes-atomic}
use wordpress.Bridge.Execute.Targets.{Readable}
use wordpress.Bridge.World.{World}
use wordpress.Bridge.Writes.{Site}

-- What was approved is what is applied: a base that is given and not empty is the current revision,
-- the plan is valid, and its hash is the one that was approved.
pub record IsApproved (site : Site) (req : ApplyRequest) (plan : PlanOutcome) : Type 0 where
  pub base : (b : String) → req.base_revision ≡ some b → b ≢ "" → plan.current_revision ≡ some b
  pub valid : plan.valid ≡ true
  pub hash : site.sha256 plan.diff ≡ req.expected_plan_sha256

base_current :
    (asked cur : Option String)
    → base_moved asked cur ≡ false
    → (b : String) → asked ≡ some b
    → b ≢ ""
    → cur ≡ some b
unfolding base_moved
base_current none cur h b e n = cc
base_current (some a) none h b e n = ground (arith, eq_iff a "", eq_iff a b)
base_current (some a) (some c) h b e n = ground (arith, eq_iff a "", eq_iff c a)

-- Where no look at a file fails: if an apply returns, the plan was approved and every change of it is on the disk. If it throws, either
-- it was not approved and nothing at all has changed, or the files are as before, or the marked
-- snapshot of its revision restores them.
pub apply_change_set-IsApproved :
    (site : Site)
    → Readable site
    → (req : ApplyRequest) (plan : PlanOutcome) (id : String) (time : ℕ) (w : World)
    → Post
        (λ _ v. IsApproved site req plan × Applied site w.disk (apply_input req plan id time) v)
        (λ _ v. (v ≡ w) ⊎ (IsApproved site req plan × Safe site w.disk id v))
        (apply_change_set site req plan id time w)
unfolding apply_change_set apply_input
apply_change_set-IsApproved site readable req plan id time w =
    Post-throw_if _ _ (base_moved req.base_revision plan.current_revision) _ _ w (inl refl) (λ base.
      Post-throw_if _ _ (not plan.valid) _ _ w (inl refl) (λ valid.
        Post-throw_if _ _ (not (site.sha256 plan.diff == req.expected_plan_sha256)) _ _ w (inl refl)
          (λ hash.
            let approved : IsApproved site req plan = record {
              base = base_current req.base_revision plan.current_revision base;
              valid = ground (arith, valid);
              hash =
                  (eq_iff (site.sha256 plan.diff) req.expected_plan_sha256).0
                    (ground (arith, hash));
            } in
            Post-map _ _ _ _ (execute_changes site (apply_input req plan id time) w)
              (execute_changes-atomic site readable (apply_input req plan id time) w)
              (λ _ v h. (approved, h)) (λ _ v h. inr (approved, h)))))
