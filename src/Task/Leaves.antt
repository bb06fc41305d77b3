-- ===== src/Task/Leaves.antt =====
-- What a coroutine leaves alone, with a rule for each way to build one.
use teslatlas_home_assistant.Prelude.{◌≡◌, refl, ◌∙◌, Bool, true, false, if◌then◌else◌}
use teslatlas_home_assistant.Errors.{Error, Result, ok, err}
use teslatlas_home_assistant.Task.{Task, pure, lift, gets, require, after, ◌>>=◌}

-- However `m` ends, `view` reads the same of the state as before.
pub record Leaves {ℓ} {S A V : Type ℓ} (view : S → V) (m : Task S A) : Type ℓ where
  pub at : (s : S) → view (m s).1 ≡ view s

module _ {ℓ} {S A V : Type ℓ} {view : S → V} where
  pub Leaves-pure : (a : A) → Leaves view (pure a)
  Leaves-pure a = record { at = λ s. refl }

  pub Leaves-lift : (r : Result A) → Leaves view (lift r)
  Leaves-lift r = record { at = λ s. refl }

  pub Leaves-gets : (f : S → A) → Leaves view (gets f)
  Leaves-gets f = record { at = λ s. refl }

  pub Leaves-if :
      (b : Bool) (m n : Task S A) → Leaves view m → Leaves view n → Leaves view (if b then m else n)
  Leaves-if true m n km kn = km
  Leaves-if false m n km kn = kn

module _ {S V : Type 0} {view : S → V} where
  pub Leaves-require : (b : Bool) (e : Error) → Leaves view (require b e)
  Leaves-require b e = record { at = λ s. refl }

module _ {ℓ} {S A B V : Type ℓ} {view : S → V} where
  after-Leaves :
      (r : Result A) (f : A → Task S B) (s : S)
      → ((a : A) → Leaves view (f a))
      → view (after r f s).1 ≡ view s
  after-Leaves (ok a) f s k = (k a).at s
  after-Leaves (err e) f s k = refl

  pub Leaves-bind :
      (m : Task S A) (f : A → Task S B)
      → Leaves view m
      → ((a : A) → Leaves view (f a))
      → Leaves view (m >>= f)
  Leaves-bind m f km kf = record { at = λ s. after-Leaves (m s).0 f (m s).1 kf ∙ km.at s }

pub ruleset leaves_rules =
    (Leaves-pure, Leaves-lift, Leaves-gets, Leaves-if, Leaves-require, Leaves-bind)
