-- ===== src/Contract/Progress.antt =====
-- `_decision` of tools/matrix_contract.py, and how `admit_case` goes on or returns.
use teslatlas_home_assistant.Prelude.{String, Bool, true, false, List, any, str_eq, if◌then◌else◌}
use teslatlas_home_assistant.Errors.{Error, Result, ok, err, ◌>>=◌}
use teslatlas_home_assistant.Contract.{AdmissionDecision, Status, failed}
use teslatlas_home_assistant.Contract.Tables.{decision_codes}

abbrev pub is_in : List String → String → Bool
is_in ts s = any (λ t. str_eq t s) ts

-- `_decision`
unfoldable pub decision : Status → String → Result AdmissionDecision
decision status code =
    if is_in decision_codes code
    then ok (record { status = status; code = code })
    else err Error.runtime_error

-- What a part of the function comes to: it has returned, or goes on with a value.
pub data Progress {ℓ} (A : Type ℓ) : Type ℓ where
  returned : AdmissionDecision → Progress A
  next : A → Progress A

abbrev pub stop {ℓ} : {A : Type ℓ} → Status → String → Result (Progress A)
stop status code = decision status code >>= λ d. ok (returned d)

abbrev pub go_on {ℓ} : {A : Type ℓ} → A → Result (Progress A)
go_on a = ok (next a)

infixl 5 ◌then_with◌
abbrev pub ◌then_with◌ {κ ℓ} :
    {A : Type κ} {B : Type ℓ}
    → Result (Progress A)
    → (A → Result (Progress B))
    → Result (Progress B)
err e then_with k = err e
ok (returned d) then_with k = ok (returned d)
ok (next a) then_with k = k a

-- `if not condition: return _decision("failed", code)`
abbrev pub require : Bool → String → Result (Progress (Unit {0}))
require true code = go_on tt
require false code = stop failed code
