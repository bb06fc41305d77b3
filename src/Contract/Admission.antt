-- ===== src/Contract/Admission.antt =====
-- `_decision` and `admit_case` of tools/matrix_contract.py: a case of the matrix is admitted, refused
-- or left open.
pub mod Inversion
pub mod Accepted
pub mod Outcomes
pub mod Proved
pub mod Requests
use teslatlas_home_assistant.Prelude.{
  String, Bool, true, false, ◌&&◌, ◌||◌, ◌==◌, not, List, [], ◌∷◌, ◌++◌, Option, none, some, length,
  map, any, str_eq, if◌then◌else◌,
}
use teslatlas_home_assistant.Prelude.Int.{ℤ, pos, ltb_ℤ}
use teslatlas_home_assistant.Errors.{Error, Result, ok, err, ◌>>=◌}
use teslatlas_home_assistant.Json.{
  Json, bool, int, str, list, dict, Members, get, eq, has_keys, elements, items, typed_equal,
}
use teslatlas_home_assistant.Contract.{
  AdmittedInvocation, AdmissionContext, AdmissionDecision, Status, passed, failed, pending,
  observation_at,
}
use teslatlas_home_assistant.Contract.Tables.{decision_codes, required_cases, case_bindings, find}
use teslatlas_home_assistant.Contract.Checks.{is_digest, says, counts}
use teslatlas_home_assistant.Contract.Observations.{running_observation, agree, store_keys}
use teslatlas_home_assistant.Contract.Sequences.{is_observed, missing_independent_observation}
use teslatlas_home_assistant.Contract.Context.{validate_context}
use teslatlas_home_assistant.Contract.Facts.{expected_case}
use teslatlas_home_assistant.Contract.Operations.{expected_operation_facts, validate_request_shape}
use teslatlas_home_assistant.Contract.Progress.{
  Progress, returned, next, is_in, decision, stop, go_on, ◌then_with◌, require,
}

abbrev pub case_keys : List String
case_keys = "id" ∷ "status" ∷ "expected" ∷ "actual" ∷ "evidence_kind" ∷ "request_transcript" ∷ []

abbrev pub record_keys : List String
record_keys =
    "schema_version" ∷ "session_id" ∷ "cell_id" ∷ "session_input_sha256" ∷ "actor_id" ∷ "operation"
    ∷ "session_sequence_before" ∷ "session_sequence_after" ∷ "facts" ∷ "requests" ∷ []

abbrev pub expected_kind : String → String
expected_kind case_id =
    if str_eq case_id "unsupported_operation_zero_requests"
    then "zero_request"
    else if is_in
        ("candidate_artifact_identity" ∷ "installed_service_runtime"
          ∷ "installed_home_assistant_runtime" ∷ [])
        case_id
    then "identity"
    else "http"

abbrev pub expected_status : String → String
expected_status case_id = if str_eq case_id "installed_service_runtime" then "pending" else "passed"

-- The invocations of a case.
unfoldable pub candidates : String → List AdmittedInvocation → List AdmittedInvocation
candidates case_id [] = []
candidates case_id (i ∷ is) =
    let rest = candidates case_id is in if str_eq i.case_id case_id then i ∷ rest else rest

-- `tuple(by_operation)`: the operations, each where it is seen first.
unfoldable pub first_seen : List String → List AdmittedInvocation → List String
first_seen seen [] = []
first_seen seen (i ∷ is) =
    let later = first_seen (i.operation ∷ seen) is in
    let rest = first_seen seen is in if is_in seen i.operation then rest else i.operation ∷ later

-- `by_operation[operation]`: the last invocation of an operation.
unfoldable pub by_operation : String → List AdmittedInvocation → Option AdmittedInvocation
by_operation operation [] = none
by_operation operation (i ∷ is) = elim (by_operation operation is) [
  | some j ↦ some j
  | none ↦ if str_eq i.operation operation then some i else none
]

unfoldable pub are_strings : List String → List String → Bool
are_strings [] [] = true
are_strings (s ∷ ss) (t ∷ ts) = str_eq s t && are_strings ss ts
are_strings _ _ = false

-- `tuple(item["request_id"] for item in requests)`, of requests that are valid.
abbrev request_id_of : Json → Json
request_id_of (dict request) = get "request_id" request
request_id_of v = v

unfoldable pub ids_are : List Json → List String → Bool
ids_are [] [] = true
ids_are (request ∷ requests) (id ∷ ids) = says id (request_id_of request) && ids_are requests ids
ids_are _ _ = false

abbrev pub requests_in : Json → List Json
requests_in (list vs) = elements vs
requests_in v = []

-- The numbers of an invocation: they are in order and observed.
unfoldable pub valid_sequences : AdmissionContext → ℤ → ℤ → Bool
valid_sequences c before after =
    ltb_ℤ (pos 0) before
    && (not (ltb_ℤ after before) && (is_observed c before && is_observed c after))

abbrev pub both_agree : Option Members → Option Members → Bool
both_agree (some v) (some w) = agree store_keys v w
both_agree _ _ = false

unfoldable pub is_record_of : AdmissionContext → String → String → Members → Bool
is_record_of c actor_id operation raw =
    counts 1 (get "schema_version" raw)
    && (says c.session_id (get "session_id" raw)
        && (says c.cell_id (get "cell_id" raw)
            && (says actor_id (get "actor_id" raw)
                && (says operation (get "operation" raw)
                    && is_digest (get "session_input_sha256" raw)))))

abbrev pub shows : Json → Option Members → Bool
shows facts none = false
shows facts (some expected) = typed_equal facts (dict expected)

abbrev is_false : Json → Bool
is_false (bool b) = not b
is_false _ = false

abbrev unclean : Json → Bool
unclean (dict facts) = is_false (get "clean_unload" facts)
unclean _ = false

abbrev pub fact_code : String → Json → String
fact_code operation facts =
    if str_eq operation "unload" && unclean facts then "cleanup_failure" else "raw_fact_mismatch"

-- The part of the loop's body that looks at the record; it comes to the record's requests.
unfoldable pub admit_record :
    AdmissionContext
    → String
    → String
    → AdmittedInvocation
    → Option Members
    → Result (Progress (List Json))
admit_record c actor_id operation i none = stop failed "raw_missing"
admit_record c actor_id operation i (some raw) =
    require (has_keys record_keys raw && is_record_of c actor_id operation raw)
      "raw_identity_mismatch"
    then_with λ _.
        require
          (eq (get "session_sequence_before" raw) (int i.session_sequence_before)
            && eq (get "session_sequence_after" raw) (int i.session_sequence_after))
          "sequence_mismatch"
        then_with λ _.
            (expected_operation_facts operation c >>= λ expected.
            require (shows (get "facts" raw) expected) (fact_code operation (get "facts" raw))
            then_with λ _.
                require
                  (validate_request_shape operation (get "requests" raw)
                    && ids_are (requests_in (get "requests" raw)) i.request_ids)
                  "request_mismatch"
                then_with λ _. go_on (requests_in (get "requests" raw)))

-- The loop's body.
unfoldable pub admit_operation :
    AdmissionContext → String → String → Option AdmittedInvocation → Result (Progress (List Json))
unfolding admit_record
admit_operation c actor_id operation none = err Error.key_error
admit_operation c actor_id operation (some i) =
    require (str_eq i.actor_id actor_id) "wrong_actor" then_with λ _.
    require (valid_sequences c i.session_sequence_before i.session_sequence_after)
      "sequence_mismatch"
    then_with λ _.
        (running_observation c i.session_sequence_before >>= λ before.
        (running_observation c i.session_sequence_after >>= λ after.
        require (both_agree before after) "sequence_mismatch" then_with λ _.
        admit_record c actor_id operation i (find i.evidence_id c.raw)))

-- The loop over the operations; it comes to the requests of all records.
unfoldable pub admit_operations :
    AdmissionContext
    → String
    → List AdmittedInvocation
    → List String
    → Result (Progress (List Json))
unfolding admit_operation
admit_operations c actor_id invocations [] = go_on []
admit_operations c actor_id invocations (operation ∷ operations) =
    let rest = admit_operations c actor_id invocations operations in
    admit_operation c actor_id operation (by_operation operation invocations) then_with λ requests.
    (rest then_with λ later. go_on (requests ++ later))

-- From the bindings of a case on.
unfoldable pub admit_bound :
    AdmissionContext
    → String
    → Members
    → Option (String × List String)
    → Result (Progress (Unit {0}))
unfolding admit_operations
admit_bound c case_id case none = err Error.key_error
admit_bound c case_id case (some (actor_id, operations)) =
    require (length (candidates case_id c.invocations) == length operations) "invocation_missing"
    then_with λ _.
        require (are_strings (first_seen [] (candidates case_id c.invocations)) operations)
          "operation_mismatch"
        then_with λ _.
            admit_operations c actor_id (candidates case_id c.invocations) operations
            then_with λ requests.
                require (typed_equal (get "request_transcript" case) (list (items requests)))
                  "request_mismatch"

abbrev pub no_problem : Option String → Result (Progress (Unit {0}))
no_problem none = go_on tt
no_problem (some code) = stop failed code

abbrev pub not_missing : Bool → Result (Progress (Unit {0}))
not_missing true = stop pending "independent_observation_pending"
not_missing false = go_on tt

-- All checks of a case with a name.
unfoldable pub check_case : AdmissionContext → String → Members → Result (Progress (Unit {0}))
unfolding admit_bound
check_case c case_id case = require (is_in required_cases case_id) "unknown_case" then_with λ _.
    no_problem (validate_context c) then_with λ _.
    not_missing (missing_independent_observation case_id c) then_with λ _.
    (expected_case case_id c >>= λ expected.
    require (shows (get "expected" case) expected && shows (get "actual" case) expected)
      "literal_mismatch"
    then_with λ _.
        require
          (says (expected_kind case_id) (get "evidence_kind" case)
            && says (expected_status case_id) (get "status" case))
          "case_shape"
        then_with λ _. admit_bound c case_id case (find case_id case_bindings))

abbrev pub closing : String → Result AdmissionDecision
closing case_id =
    if str_eq case_id "installed_service_runtime"
    then decision pending "runner_owned_service_runtime"
    else decision passed "accepted"

abbrev pub concluded : String → Result (Progress (Unit {0})) → Result AdmissionDecision
concluded case_id (err e) = err e
concluded case_id (ok (returned d)) = ok d
concluded case_id (ok (next _)) = closing case_id

abbrev pub admit_named : AdmissionContext → Members → Json → Result AdmissionDecision
admit_named c case (str case_id) = concluded case_id (check_case c case_id case)
admit_named c case _ = decision failed "unknown_case"

abbrev pub admit_members : AdmissionContext → Members → Bool → Result AdmissionDecision
admit_members c case true = admit_named c case (get "id" case)
admit_members c case false = decision failed "case_shape"

-- `admit_case`
unfoldable pub admit_case : Json → AdmissionContext → Result AdmissionDecision
unfolding check_case
admit_case (dict case) c = admit_members c case (has_keys case_keys case)
admit_case _ c = decision failed "case_shape"
