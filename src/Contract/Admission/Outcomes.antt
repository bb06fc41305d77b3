-- ===== src/Contract/Admission/Outcomes.antt =====
-- The decisions to which `admit_case` comes, and what it raises.
use teslatlas_home_assistant.Prelude.{
  eq_iff, sym, &&_both, all, inl, inr, Bool-cases, ◌≡◌, refl, Bool, true, false, ◌&&◌, String, List,
  [], ◌∷◌, Option, none, some, str_eq, if◌then◌else◌,
}
use teslatlas_home_assistant.Errors.{Result, ok, err, ◌>>=◌}
use teslatlas_home_assistant.Json.{Json, null, bool, int, float, str, list, dict, Members}
use teslatlas_home_assistant.Contract.{
  AdmittedInvocation, AdmissionContext, AdmissionDecision, Status, passed, failed, pending,
}
use teslatlas_home_assistant.Contract.Tables.{decision_codes}
use teslatlas_home_assistant.Contract.Progress.{
  Progress, returned, next, decision, is_in, stop, ◌then_with◌, require,
}
use teslatlas_home_assistant.Contract.Admission.{
  by_operation, fact_code, admit_record, admit_operation, admit_operations, admit_bound, no_problem,
  not_missing, check_case, closing, concluded, admit_named, admit_members, admit_case, unclean,
}
use teslatlas_home_assistant.Contract.Raising.{IsTame, is_lookup_error}
use teslatlas_home_assistant.Contract.Raising.Observing.{running_observation-IsTame}
use teslatlas_home_assistant.Contract.Raising.Showing.{expected_case-IsTame}
use teslatlas_home_assistant.Contract.Raising.Operating.{expected_operation_facts-IsTame}
use teslatlas_home_assistant.Contract.Raising.Refusing.{
  context_codes, IsProblem, validate_context-IsProblem,
}

-- The codes of a failure.
abbrev pub failure_codes : List String
failure_codes =
    "case_shape" ∷ "unknown_case" ∷ "wrong_context" ∷ "wrong_actor" ∷ "wrong_source_role"
    ∷ "wrong_artifact_role" ∷ "installed_manifest_mismatch" ∷ "invocation_missing"
    ∷ "operation_mismatch" ∷ "sequence_mismatch" ∷ "raw_missing" ∷ "raw_identity_mismatch"
    ∷ "raw_fact_mismatch" ∷ "request_mismatch" ∷ "literal_mismatch" ∷ "cleanup_failure" ∷ []

-- A decision on the way: no case has passed.
abbrev pub is_refusal : AdmissionDecision → Bool
is_refusal d = elim d.status [
  | passed ↦ false
  | failed ↦ is_in failure_codes d.code
  | pending ↦ str_eq "independent_observation_pending" d.code
]

abbrev refuses {ℓ} : {A : Type ℓ} → Result (Progress A) → Bool
refuses (err e) = is_lookup_error e
refuses (ok (returned d)) = is_refusal d
refuses (ok (next a)) = true

pub record Refuses {ℓ} {A : Type ℓ} (r : Result (Progress A)) : Type 0 where
  pub refused : refuses r ≡ true

module _ {ℓ} {A : Type ℓ} where
  go_on-Refuses : (a : A) → Refuses (ok (next a))
  go_on-Refuses a = record { refused = refl }

  then_with-Refuses {κ} :
      {B : Type κ} (r : Result (Progress A)) (k : A → Result (Progress B))
      → Refuses r
      → ((a : A) → Refuses (k a))
      → Refuses (r then_with k)
  then_with-Refuses (err e) k h hk = record { refused = h.refused }
  then_with-Refuses (ok (returned d)) k h hk = record { refused = h.refused }
  then_with-Refuses (ok (next a)) k h hk = hk a

  >>=-Refuses {κ} :
      {B : Type κ} (r : Result B) (k : B → Result (Progress A))
      → IsTame r
      → ((b : B) → Refuses (k b))
      → Refuses (r >>= k)
  >>=-Refuses (ok b) k h hk = hk b
  >>=-Refuses (err e) k h hk = record { refused = h.raised }

-- A text of one list is in another that has all its texts.
is_in-all :
    (ts us : List String) (code : String)
    → all (is_in us) ts ≡ true
    → is_in ts code ≡ true
    → is_in us code ≡ true
is_in-all [] us code hs h = cc
is_in-all (t ∷ ts) us code hs h = elim (Bool-cases (str_eq t code)) [
  | inl e ↦ rw (sym ((eq_iff t code).0 e)) ((&&_both _ _ hs).0)
  | inr e ↦ is_in-all ts us code ((&&_both _ _ hs).1) (rw e at h)
]

-- The problems of a context are failures.
context-failure :
    (code : String) → is_in context_codes code ≡ true → is_in failure_codes code ≡ true
context-failure code h = is_in-all context_codes failure_codes code refl h

-- The codes of a failure are reviewed.
failure-reviewed :
    (code : String) → is_in failure_codes code ≡ true → is_in decision_codes code ≡ true
failure-reviewed code h = is_in-all failure_codes decision_codes code refl h

pub decision-failed :
    (code : String)
    → is_in failure_codes code ≡ true
    → decision failed code ≡ ok (record { status = failed; code = code })
unfolding decision
decision-failed code h = rw (failure-reviewed code h)

module _ {ℓ} {A : Type ℓ} where
  stop-Refuses :
      (code : String) → is_in failure_codes code ≡ true → Refuses {A = A} (stop failed code)
  stop-Refuses code h = rw (decision-failed code h) (record { refused = h })

pending-Refuses : Refuses {A = Unit {0}} (stop pending "independent_observation_pending")
unfolding decision
pending-Refuses = record { refused = refl }

require-Refuses :
    (b : Bool) (code : String) → is_in failure_codes code ≡ true → Refuses (require b code)
require-Refuses true code h = go_on-Refuses tt
require-Refuses false code h = stop-Refuses code h

in_if :
    (b : Bool) (s t : String)
    → is_in failure_codes s ≡ true
    → is_in failure_codes t ≡ true
    → is_in failure_codes (if b then s else t) ≡ true
in_if true s t hs ht = hs
in_if false s t hs ht = ht

fact_code-listed :
    (operation : String) (facts : Json) → is_in failure_codes (fact_code operation facts) ≡ true
fact_code-listed operation facts =
    in_if (str_eq operation "unload" && unclean facts) "cleanup_failure" "raw_fact_mismatch" refl
      refl

ruleset refusal_laws = (
  go_on-Refuses, then_with-Refuses, >>=-Refuses, stop-Refuses, require-Refuses, fact_code-listed,
  running_observation-IsTame, expected_operation_facts-IsTame, expected_case-IsTame,
)

admit_record-Refuses :
    (c : AdmissionContext) (actor_id operation : String) (i : AdmittedInvocation)
    (found : Option Members)
    → Refuses (admit_record c actor_id operation i found)
unfolding admit_record
admit_record-Refuses c actor_id operation i none = stop-Refuses "raw_missing" refl
admit_record-Refuses c actor_id operation i (some raw) = search refusal_laws depth 20

admit_operation-Refuses :
    (c : AdmissionContext) (actor_id operation : String) (found : Option AdmittedInvocation)
    → Refuses (admit_operation c actor_id operation found)
unfolding admit_operation
admit_operation-Refuses c actor_id operation none = record { refused = refl }
admit_operation-Refuses c actor_id operation (some i) =
    search (refusal_laws, admit_record-Refuses) depth 20

admit_operations-Refuses :
    (c : AdmissionContext) (actor_id : String) (is : List AdmittedInvocation)
    (operations : List String)
    → Refuses (admit_operations c actor_id is operations)
unfolding admit_operations
admit_operations-Refuses c actor_id is [] = go_on-Refuses []
admit_operations-Refuses c actor_id is (operation ∷ operations) =
    then_with-Refuses (admit_operation c actor_id operation (by_operation operation is)) _
      (admit_operation-Refuses c actor_id operation _)
      (λ requests.
        then_with-Refuses (admit_operations c actor_id is operations) _
          (admit_operations-Refuses c actor_id is operations) (λ later. go_on-Refuses _))

admit_bound-Refuses :
    (c : AdmissionContext) (case_id : String) (case : Members)
    (bound : Option (String × List String))
    → Refuses (admit_bound c case_id case bound)
unfolding admit_bound
admit_bound-Refuses c case_id case none = record { refused = refl }
admit_bound-Refuses c case_id case (some (actor_id, operations)) =
    search (refusal_laws, admit_operations-Refuses) depth 20

problem-Refuses : (p : Option String) → IsProblem p → Refuses (no_problem p)
problem-Refuses none h = go_on-Refuses tt
problem-Refuses (some code) h = stop-Refuses code (context-failure code h.listed)

missing-Refuses : (b : Bool) → Refuses (not_missing b)
missing-Refuses true = pending-Refuses
missing-Refuses false = go_on-Refuses tt

pub check_case-Refuses :
    (c : AdmissionContext) (case_id : String) (case : Members) → Refuses (check_case c case_id case)
unfolding check_case
check_case-Refuses c case_id case =
    search
      (
        refusal_laws, problem-Refuses, missing-Refuses, validate_context-IsProblem,
        admit_bound-Refuses,
      )
      depth 20

-- What a decision says: a case that passed is accepted, a case is left open for one of two reasons,
-- and a failure has one of the codes of a failure.
abbrev pub is_reviewed : AdmissionDecision → Bool
is_reviewed d = elim d.status [
  | passed ↦ str_eq d.code "accepted"
  | failed ↦ is_in failure_codes d.code
  | pending ↦ is_in ("independent_observation_pending" ∷ "runner_owned_service_runtime" ∷ []) d.code
]

abbrev pub IsReviewed : Result AdmissionDecision → Type 0
IsReviewed (ok d) = is_reviewed d ≡ true
IsReviewed (err e) = is_lookup_error e ≡ true

failure-IsReviewed :
    (code : String) → is_in failure_codes code ≡ true → IsReviewed (decision failed code)
failure-IsReviewed code h = rw (decision-failed code h) h

closing-IsReviewed : (case_id : String) → IsReviewed (closing case_id)
unfolding decision
closing-IsReviewed case_id = elim (Bool-cases (str_eq case_id "installed_service_runtime")) [
  | inl e ↦ rw e refl
  | inr e ↦ rw e refl
]

refusal_parts :
    (s : Status) (code : String)
    → is_refusal (record { status = s; code = code }) ≡ true
    → is_reviewed (record { status = s; code = code }) ≡ true
refusal_parts passed code h = cc
refusal_parts failed code h = h
refusal_parts pending code h = rw h

refusal-reviewed : (d : AdmissionDecision) → is_refusal d ≡ true → is_reviewed d ≡ true
refusal-reviewed d h = refusal_parts d.status d.code h

concluded-IsReviewed :
    (case_id : String) (r : Result (Progress Unit)) → Refuses r → IsReviewed (concluded case_id r)
concluded-IsReviewed case_id (err e) h = h.refused
concluded-IsReviewed case_id (ok (returned d)) h = refusal-reviewed d h.refused
concluded-IsReviewed case_id (ok (next u)) h = closing-IsReviewed case_id

admit_named-IsReviewed :
    (c : AdmissionContext) (case : Members) (v : Json) → IsReviewed (admit_named c case v)
admit_named-IsReviewed c case (str s) = concluded-IsReviewed s _ (check_case-Refuses c s case)
admit_named-IsReviewed c case null = failure-IsReviewed "unknown_case" refl
admit_named-IsReviewed c case (bool b) = failure-IsReviewed "unknown_case" refl
admit_named-IsReviewed c case (int n) = failure-IsReviewed "unknown_case" refl
admit_named-IsReviewed c case (float f) = failure-IsReviewed "unknown_case" refl
admit_named-IsReviewed c case (list vs) = failure-IsReviewed "unknown_case" refl
admit_named-IsReviewed c case (dict d) = failure-IsReviewed "unknown_case" refl

admit_members-IsReviewed :
    (c : AdmissionContext) (case : Members) (b : Bool) → IsReviewed (admit_members c case b)
admit_members-IsReviewed c case true = admit_named-IsReviewed c case _
admit_members-IsReviewed c case false = failure-IsReviewed "case_shape" refl

-- Whatever case and context are given, the decision pairs a status with a code of that status: only
-- "accepted" passes, and a failure has one of sixteen codes; the code is always a reviewed one, so
-- that `RuntimeError` is never raised, but at most `TypeError` or `KeyError`.
pub admit_case-IsReviewed : (case : Json) (c : AdmissionContext) → IsReviewed (admit_case case c)
unfolding admit_case
admit_case-IsReviewed (dict d) c = admit_members-IsReviewed c d _
admit_case-IsReviewed null c = failure-IsReviewed "case_shape" refl
admit_case-IsReviewed (bool b) c = failure-IsReviewed "case_shape" refl
admit_case-IsReviewed (int n) c = failure-IsReviewed "case_shape" refl
admit_case-IsReviewed (float f) c = failure-IsReviewed "case_shape" refl
admit_case-IsReviewed (str s) c = failure-IsReviewed "case_shape" refl
admit_case-IsReviewed (list vs) c = failure-IsReviewed "case_shape" refl
