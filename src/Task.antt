-- ===== src/Task.antt =====
-- A coroutine over a state: it ends with a result or an exception, and what it has written before
-- an exception stays written.
pub mod Leaves
use teslatlas_home_assistant.Prelude.{◌≡◌, refl, ap, Bool, true, false, if◌then◌else◌}
use teslatlas_home_assistant.Errors.{Error, Result, ok, err}

abbrev pub Task {ℓ} : Type ℓ → Type ℓ → Type ℓ
Task S A = S → Result A × S

module _ {ℓ} {S A : Type ℓ} where
  abbrev pub pure : A → Task S A
  pure a s = (ok a, s)

  abbrev pub raise : Error → Task S A
  raise e s = (err e, s)

  -- A computation that touches no state.
  abbrev pub lift : Result A → Task S A
  lift r s = (r, s)

  abbrev pub gets : (S → A) → Task S A
  gets f s = (ok (f s), s)

module _ {ℓ} {S A B : Type ℓ} where
  infixl 5 ◌>>=◌ ◌>>◌
  abbrev pub after : Result A → (A → Task S B) → Task S B
  after (ok a) f s = f a s
  after (err e) f s = (err e, s)

  abbrev pub ◌>>=◌ : Task S A → (A → Task S B) → Task S B
  ◌>>=◌ m f s = let (r, s') = m s in after r f s'

  abbrev pub ◌>>◌ : Task S A → Task S B → Task S B
  m >> k = m >>= λ _. k

-- `if not b: raise e`
abbrev pub require : {S : Type 0} → Bool → Error → Task S (Unit {0})
require b e s = (if b then ok tt else err e, s)

abbrev pub modify : {S : Type 0} → (S → S) → Task S (Unit {0})
modify f s = (ok tt, f s)

module _ {ℓ} {S A B : Type ℓ} where
  after-eq-ok :
      (r : Result A) (f : A → Task S B) (s : S) {b : B}
      → (after r f s).0 ≡ ok b
      → (a : A) × (r ≡ ok a) × ((f a s).0 ≡ ok b)
  after-eq-ok (ok a) f s h = (a, refl, h)
  after-eq-ok (err e) f s h = cc

  -- A bind that succeeds: both parts have succeeded, the second from where the first ended.
  pub >>=-eq-ok :
      (m : Task S A) (f : A → Task S B) (s : S) {b : B}
      → ((m >>= f) s).0 ≡ ok b
      → (a : A) × ((m s).0 ≡ ok a) × ((f a (m s).1).0 ≡ ok b)
  >>=-eq-ok m f s h = after-eq-ok (m s).0 f (m s).1 h

module _ {ℓ} {S A B : Type ℓ} (m : Task S A) (f : A → Task S B) (s : S) where
  pub bind_ok : {a : A} → (m s).0 ≡ ok a → (m >>= f) s ≡ f a (m s).1
  bind_ok e = ap (λ r. after r f (m s).1) e

  pub bind_err : {e : Error} → (m s).0 ≡ err e → (m >>= f) s ≡ (err e, (m s).1)
  bind_err e = ap (λ r. after r f (m s).1) e
