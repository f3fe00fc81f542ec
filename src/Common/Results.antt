-- ===== src/Common/Results.antt =====
-- Results of code that may throw, and methods that change an object and may throw: what was
-- written before the throw stays written, so the state comes back beside the error too.
use mathlib.Core.Path.{◌≡◌, refl}
use mathlib.Core.Logic.{◌⊎◌, inl, inr}
use mathlib.Core.Bool.{Bool, true, false}

pub data Result {ℓ} (E : Type ℓ) (A : Type ℓ) : Type ℓ where
  ok : A → Result E A
  err : E → Result E A

abbrev pub Exec {ℓ} : Type ℓ → Type ℓ → Type ℓ → Type ℓ
Exec E S A = S → Result E A × S

module _ {ℓ} {E S A : Type ℓ} where
  abbrev pub pure : A → Exec E S A
  pure a s = (ok a, s)

  abbrev pub raise : E → Exec E S A
  raise e s = (err e, s)

  abbrev pub lift : Result E A → Exec E S A
  lift r s = (r, s)

  abbrev pub gets : (S → A) → Exec E S A
  gets f s = (ok (f s), s)

abbrev pub throw_if {ℓ} : {E S : Type ℓ} → Bool → E → Exec E S (Unit {ℓ})
throw_if true e = raise e
throw_if false e = pure tt

abbrev pub modify {ℓ} : {E S : Type ℓ} → (S → S) → Exec E S (Unit {ℓ})
modify f s = (ok tt, f s)

module _ {ℓ} {E S A B : Type ℓ} where
  abbrev pub continue : (A → Exec E S B) → Result E A × S → Result E B × S
  continue f (ok a, s) = f a s
  continue f (err e, s) = (err e, s)

  infixl 5 ◌>>=◌ ◌>>◌
  abbrev pub ◌>>=◌ : Exec E S A → (A → Exec E S B) → Exec E S B
  ◌>>=◌ m f s = continue f (m s)

  abbrev pub ◌>>◌ : Exec E S A → Exec E S B → Exec E S B
  m >> n = m >>= λ _. n

-- `try { m } catch (e) { handler(e) }`
module _ {ℓ} {E S A : Type ℓ} where
  abbrev pub caught : (E → Exec E S A) → Result E A × S → Result E A × S
  caught h (ok a, s) = (ok a, s)
  caught h (err e, s) = h e s

  abbrev pub catch : Exec E S A → (E → Exec E S A) → Exec E S A
  catch m h s = caught h (m s)

  -- What holds after an outcome: `Q` of a value and the state, `R` of an error and the state.
  abbrev pub Post {κ} : (A → S → Type κ) → (E → S → Type κ) → Result E A × S → Type κ
  Post Q R (ok a, s) = Q a s
  Post Q R (err e, s) = R e s

module _ {ℓ κ} {E S A : Type ℓ} (Q : A → S → Type κ) (R : E → S → Type κ) (Q' : A → S → Type κ)
    (R' : E → S → Type κ) where
  pub Post-map :
      (o : Result E A × S)
      → Post Q R o
      → ((a : A) (s : S) → Q a s → Q' a s)
      → ((e : E) (s : S) → R e s → R' e s)
      → Post Q' R' o
  Post-map (ok a, s) h f g = f a s h
  Post-map (err e, s) h f g = g e s h

module _ {ℓ κ} {E S A : Type ℓ} (Q : A → S → Type κ) (P R : E → S → Type κ) where
  -- The rule for a `try` with its handler.
  pub Post-caught :
      (o : Result E A × S) (h : E → Exec E S A)
      → Post Q P o
      → ((e : E) (s : S) → P e s → Post Q R (h e s))
      → Post Q R (caught h o)
  Post-caught (ok a, s) h p k = p
  Post-caught (err e, s) h p k = k e s p

module _ {ℓ κ} {E S A B : Type ℓ} (P : A → S → Type κ) (Q : B → S → Type κ)
    (R : E → S → Type κ) where
  -- The rule for a sequence of two steps.
  pub Post-bind :
      (o : Result E A × S) (f : A → Exec E S B)
      → Post P R o
      → ((a : A) (s : S) → P a s → Post Q R (f a s))
      → Post Q R (continue f o)
  Post-bind (ok a, s) f h k = k a s h
  Post-bind (err e, s) f h k = h

module _ {ℓ κ} {E S A : Type ℓ} (Q : A → S → Type κ) (R : E → S → Type κ) (Q' : A → S → Type κ)
    (R' : E → S → Type κ) where
  pub Post-both :
      (o : Result E A × S)
      → Post Q R o
      → Post Q' R' o
      → Post (λ a s. Q a s × Q' a s) (λ e s. R e s × R' e s) o
  Post-both (ok a, s) h k = (h, k)
  Post-both (err e, s) h k = (h, k)

module _ {ℓ} {E A : Type ℓ} where
  pub Result-cases : (r : Result E A) → ((a : A) × (r ≡ ok a)) ⊎ ((e : E) × (r ≡ err e))
  Result-cases (ok a) = inl (a, refl)
  Result-cases (err e) = inr (e, refl)

module _ {ℓ κ} {E S A : Type ℓ} (Q : A → S → Type κ) (R : E → S → Type κ) where
  -- The rule for a guard.
  pub Post-throw_if :
      (b : Bool) (e : E) (m : Exec E S A) (s : S)
      → R e s
      → (b ≡ false → Post Q R (m s))
      → Post Q R ((throw_if b e >> m) s)
  Post-throw_if true e m s h k = h
  Post-throw_if false e m s h k = k refl

  -- The rule for a call that does not touch the state.
  pub Post-lift :
      {B : Type ℓ} (r : Result E B) (f : B → Exec E S A) (s : S)
      → ((e : E) → R e s)
      → ((b : B) → r ≡ ok b → Post Q R (f b s))
      → Post Q R ((lift r >>= f) s)
  Post-lift (ok b) f s h k = k b refl
  Post-lift (err e) f s h k = h e
