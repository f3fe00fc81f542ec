-- ===== src/Bridge/Plan/Backing.antt =====
-- Every step of planning keeps an original for each staged file.
use wordpress.Common.{
  Bool, Bool-cases, Option, Post, Post-bind, Post-map, Result, String, err, false, inl, inr, lift,
  ok, pure, throw_if, true, ℕ, ◌>>=◌, ◌>>◌,
}
use wordpress.Bridge.Plan.{
  Plan, PlanState, RiskFlag, add_flag, add_route, is_dynamic_pattern, keep_vfs, on_vfs, push_error,
  set_effective, warn,
}
use wordpress.Bridge.Errors.{ErrorCode, Thrown, Try}
use wordpress.Bridge.Files.{Buffer}
use wordpress.Bridge.Plan.Steps.{when_true}
use wordpress.Bridge.Vfs.{ChangeVfs, Planning, VfsConfig, read, write}
use wordpress.Bridge.Vfs.Laws.{Backed, read-Backed, read-write}

-- A step keeps the virtual file system backed, whether it returns or throws.
unfoldable pub Backs : {A : Type 0} → Plan A → Type 0
Backs m = (s : PlanState) → Backed s.vfs → Post (λ _ t. Backed t.vfs) (λ _ t. Backed t.vfs) (m s)

pub Backs-bind :
    {A B : Type 0} (m : Plan A) (f : A → Plan B)
    → Backs m
    → ((a : A) → Backs (f a))
    → Backs (m >>= f)
unfolding Backs
Backs-bind m f k l s b = Post-bind _ _ _ (m s) f (k s b) (λ a t c. l a t c)

pub Backs-seq : {A B : Type 0} (m : Plan A) (n : Plan B) → Backs m → Backs n → Backs (m >> n)
unfolding Backs
Backs-seq m n k l s b = Post-bind _ _ _ (m s) (λ _. n) (k s b) (λ a t c. l t c)

pub Backs-lift : {A : Type 0} (r : Try A) → Backs (lift r)
unfolding Backs
Backs-lift (ok a) s b = b
Backs-lift (err e) s b = b

pub Backs-pure : {A : Type 0} (a : A) → Backs (pure a)
unfolding Backs
Backs-pure a s b = b

pub Backs-throw_if : (c : Bool) (e : Thrown) → Backs (throw_if c e)
unfolding Backs
Backs-throw_if true e s b = b
Backs-throw_if false e s b = b

pub Backs-when_true : (c : Bool) (m : Plan (Unit {0})) → Backs m → Backs (when_true c m)
Backs-when_true true m k = k
Backs-when_true false m k = Backs-pure tt

pub Backs-add_flag : (f : RiskFlag) → Backs (add_flag f)
unfolding Backs add_flag
Backs-add_flag f s b = b

pub Backs-warn : (index : ℕ) (c : String) → Backs (warn index c)
unfolding Backs warn
Backs-warn index c s b = b

pub Backs-set_effective : (index : ℕ) (e : Bool) → Backs (set_effective index e)
unfolding Backs set_effective
Backs-set_effective index e s b = b

pub Backs-push_error : (index : Option ℕ) (c : ErrorCode) → Backs (push_error index c)
unfolding Backs push_error
Backs-push_error index c s b = b

pub Backs-add_route : (r : String) (index : ℕ) → Backs (add_route r index)
unfolding Backs add_route warn
Backs-add_route r index s b = elim (Bool-cases (is_dynamic_pattern r)) [
  | inl dynamic ↦ rw dynamic b
  | inr plain ↦ rw plain b
]

pub Backs-on_vfs :
    {A : Type 0} (m : Planning A)
    → ((v : ChangeVfs) → Backed v → Post (λ _ w. Backed w) (λ _ w. Backed w) (m v))
    → Backs (on_vfs m)
unfolding Backs
Backs-on_vfs {A = A} m k s b = kept (m s.vfs) (k s.vfs b)
  where
    kept :
        (o : Result Thrown A × ChangeVfs)
        → Post (λ _ w. Backed w) (λ _ w. Backed w) o
        → Post (λ _ t. Backed t.vfs) (λ _ t. Backed t.vfs) (keep_vfs s o)
    kept (ok a, v) h = h
    kept (err e, v) h = h

pub Backs-read : (cfg : VfsConfig) (id path : String) → Backs (on_vfs (read cfg id path))
Backs-read cfg id path = Backs-on_vfs (read cfg id path) (read-Backed cfg id path)

pub Backs-write :
    (cfg : VfsConfig) (id path : String) (new : Option Buffer)
    → Backs (on_vfs (write cfg id path new))
Backs-write cfg id path new = Backs-on_vfs (write cfg id path new) (λ v b.
    Post-map _ _ _ _ (write cfg id path new v) (read-write cfg id path new v b) (λ _ w h. h.0)
      (λ _ w h. h.0))

pub ruleset backing = (
  Backs-bind, Backs-seq, Backs-lift, Backs-pure, Backs-throw_if, Backs-when_true, Backs-add_flag,
  Backs-warn, Backs-set_effective, Backs-push_error, Backs-add_route, Backs-read, Backs-write,
)
