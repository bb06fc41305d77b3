-- ===== src/Contract/Admission/Inversion.antt =====
-- When the parts of `admit_case` go on.
use teslatlas_home_assistant.Prelude.{◌≡◌, refl, ◌≢◌, Bool, true, false, String}
use teslatlas_home_assistant.Errors.{Result, ok, err, ◌>>=◌}
use teslatlas_home_assistant.Contract.{AdmissionDecision, Status, failed}
use teslatlas_home_assistant.Contract.Progress.{
  Progress, returned, next, stop, decision, require, ◌then_with◌,
}

module _ {ℓ} {A : Type ℓ} where
  stop_result-returned :
      (r : Result AdmissionDecision) {a : A} → (r >>= λ d. ok (returned d)) ≢ ok (next a)
  stop_result-returned (ok d) h = cc
  stop_result-returned (err e) h = cc

  pub stop-returned : (s : Status) (code : String) {a : A} → stop s code ≢ ok (next a)
  stop-returned s code h = stop_result-returned (decision s code) h

  pub then_with-next {κ} :
      {B : Type κ} (r : Result (Progress A)) (k : A → Result (Progress B)) {b : B}
      → (r then_with k) ≡ ok (next b)
      → (a : A) × (r ≡ ok (next a)) × (k a ≡ ok (next b))
  then_with-next (err e) k h = cc
  then_with-next (ok (returned d)) k h = cc
  then_with-next (ok (next a)) k h = (a, refl, h)

pub require-next : (b : Bool) (code : String) {u : Unit} → require b code ≡ ok (next u) → b ≡ true
require-next true code h = refl
require-next false code h = absurd (stop-returned failed code h)

-- A condition that holds, and what comes after it.
pub require-then_with {κ} :
    {B : Type κ} (b : Bool) (code : String) (k : Unit → Result (Progress B)) {x : B}
    → (require b code then_with k) ≡ ok (next x)
    → (b ≡ true) × (k tt ≡ ok (next x))
require-then_with true code k h = (refl, h)
require-then_with false code k h =
    let (u, e, rest) = then_with-next (require false code) k h in
    absurd (stop-returned failed code e)
