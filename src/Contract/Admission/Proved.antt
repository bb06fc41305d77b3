-- ===== src/Contract/Admission/Proved.antt =====
-- What it takes to be accepted.
use teslatlas_home_assistant.Prelude.{
  ◌≡◌, refl, ◌↔◌, Bool, true, false, ◌&&◌, ◌==◌, String, List, [], Option, none, some, length,
  str_eq,
}
use mathlib.Core.Path.{subst}
use teslatlas_home_assistant.Errors.{Result, ok, err, ◌>>=◌, ok-injective}
use teslatlas_home_assistant.Json.{
  Json, str, list, dict, Members, get, has_keys, items, typed_equal,
}
use teslatlas_home_assistant.Contract.{AdmissionContext, AdmissionDecision, passed}
use teslatlas_home_assistant.Contract.Tables.{required_cases, case_bindings, find}
use teslatlas_home_assistant.Contract.Checks.{says}
use teslatlas_home_assistant.Contract.Sequences.{missing_independent_observation}
use teslatlas_home_assistant.Contract.Context.{validate_context}
use teslatlas_home_assistant.Contract.Facts.{expected_case}
use teslatlas_home_assistant.Contract.Progress.{
  Progress, returned, next, decision, require, ◌then_with◌, is_in,
}
use teslatlas_home_assistant.Contract.Admission.{
  case_keys, expected_kind, expected_status, candidates, first_seen, are_strings, shows,
  admit_operations, admit_bound, no_problem, not_missing, check_case, concluded, admit_case,
}
use teslatlas_home_assistant.Contract.Admission.Inversion.{
  then_with-next, require-next, require-then_with, stop-returned,
}
use teslatlas_home_assistant.Contract.Admission.Accepted.{
  AreEvidenced, admit_operations-next, admit_operations-evidenced,
}
use teslatlas_home_assistant.Contract.Admission.Outcomes.{Refuses, is_refusal, check_case-Refuses}

-- A case with its reviewed facts, the actor and the operations that it is bound to, and the requests of
-- their records.
pub record IsProved (c : AdmissionContext) (case_id : String) (case : Members) (facts : Members)
    (actor_id : String) (operations : List String) (requests : List Json) : Type 0 where
  pub required : is_in required_cases case_id ≡ true
  pub in_context : validate_context c ≡ none
  pub independent : missing_independent_observation case_id c ≡ false
  pub known : expected_case case_id c ≡ ok (some facts)
  pub claimed :
      (typed_equal (get "expected" case) (dict facts)
        && typed_equal (get "actual" case) (dict facts))
      ≡ true
  pub labelled :
      (says (expected_kind case_id) (get "evidence_kind" case)
        && says (expected_status case_id) (get "status" case))
      ≡ true
  pub bound : find case_id case_bindings ≡ some (actor_id, operations)
  pub counted : (length (candidates case_id c.invocations) == length operations) ≡ true
  pub in_turn : are_strings (first_seen [] (candidates case_id c.invocations)) operations ≡ true
  pub evidenced : AreEvidenced c actor_id (candidates case_id c.invocations) operations requests
  pub transcribed : typed_equal (get "request_transcript" case) (list (items requests)) ≡ true

abbrev pub Proves : AdmissionContext → String → Members → Type 0
Proves c case_id case =
    (facts : Members) × (actor_id : String) × (operations : List String) × (requests : List Json)
    × IsProved c case_id case facts actor_id operations requests

abbrev pub accepted : AdmissionDecision
accepted = record { status = passed; code = "accepted" }

problem-next : (p : Option String) {u : Unit {0}} → no_problem p ≡ ok (next u) → p ≡ none
problem-next none h = refl
problem-next (some code) h = absurd (stop-returned _ _ h)

missing-next : (b : Bool) {u : Unit {0}} → not_missing b ≡ ok (next u) → b ≡ false
missing-next true h = absurd (stop-returned _ _ h)
missing-next false h = refl

claimed-next :
    (case : Members) (code : String) (r : Result (Option Members))
    (k : Unit {0} → Result (Progress (Unit {0}))) {u : Unit {0}}
    → (r >>= λ expected.
        require (shows (get "expected" case) expected && shows (get "actual" case) expected) code
        then_with k)
      ≡ ok (next u)
    → (facts : Members) × (r ≡ ok (some facts))
      × ((typed_equal (get "expected" case) (dict facts)
            && typed_equal (get "actual" case) (dict facts))
          ≡ true)
      × (k tt ≡ ok (next u))
claimed-next case code (err e) k h = cc
claimed-next case code (ok none) k h = absurd (cc ((require-then_with false code k h).0))
claimed-next case code (ok (some facts)) k h =
    let (shown, rest) = require-then_with _ code k h in (facts, refl, shown, rest)

bound-next :
    (c : AdmissionContext) (case_id : String) (case : Members)
    (bound : Option (String × List String)) {u : Unit {0}}
    → admit_bound c case_id case bound ≡ ok (next u)
    → (actor_id : String) × (operations : List String) × (requests : List Json) × (bound
        ≡ some (actor_id, operations))
      × ((length (candidates case_id c.invocations) == length operations) ≡ true)
      × (are_strings (first_seen [] (candidates case_id c.invocations)) operations ≡ true)
      × AreEvidenced c actor_id (candidates case_id c.invocations) operations requests
      × (typed_equal (get "request_transcript" case) (list (items requests)) ≡ true)
unfolding admit_bound
bound-next c case_id case none h = cc
bound-next c case_id case (some (actor_id, operations)) h =
    let (counted, h1) = require-then_with _ _ _ h in
    let (in_turn, h2) = require-then_with _ _ _ h1 in
    let (requests, e, h3) =
      then_with-next (admit_operations c actor_id (candidates case_id c.invocations) operations) _
        h2 in
    (
      actor_id,
      operations,
      requests,
      refl,
      counted,
      in_turn,
      admit_operations-next c actor_id _ operations e,
      require-next _ _ h3,
    )

check_case-next :
    (c : AdmissionContext) (case_id : String) (case : Members) {u : Unit {0}}
    → check_case c case_id case ≡ ok (next u)
    → Proves c case_id case
unfolding check_case
check_case-next c case_id case h =
    let (required, h1) = require-then_with _ _ _ h in
    let (u1, valid, h2) = then_with-next (no_problem (validate_context c)) _ h1 in
    let (u2, missing, h3) =
      then_with-next (not_missing (missing_independent_observation case_id c)) _ h2 in
    let (facts, known, claimed, h4) = claimed-next case _ (expected_case case_id c) _ h3 in
    let (labelled, h5) = require-then_with _ _ _ h4 in
    let (actor_id, operations, requests, bound, counted, in_turn, evidenced, transcribed) =
      bound-next c case_id case _ h5 in
    (
      facts,
      actor_id,
      operations,
      requests,
      record {
        required = required;
        in_context = problem-next _ valid;
        independent = missing-next _ missing;
        known = known;
        claimed = claimed;
        labelled = labelled;
        bound = bound;
        counted = counted;
        in_turn = in_turn;
        evidenced = evidenced;
        transcribed = transcribed;
      },
    )

check_case-proved :
    (c : AdmissionContext) (case_id : String) (case : Members)
    → Proves c case_id case
    → check_case c case_id case ≡ ok (next tt)
unfolding check_case admit_bound
check_case-proved c case_id case (facts, actor_id, operations, requests, p) = rw (
  p.required,
  p.in_context,
  p.independent,
  p.known,
  p.claimed,
  p.labelled,
  p.bound,
  p.counted,
  p.in_turn,
  admit_operations-evidenced c actor_id _ operations requests p.evidenced,
  p.transcribed,
)

accepted-next :
    (case_id : String) (r : Result (Progress (Unit {0})))
    → Refuses r
    → concluded case_id r ≡ ok accepted
    → r ≡ ok (next tt)
accepted-next case_id (err e) f h = cc
accepted-next case_id (ok (returned d)) f h =
    let e : d ≡ accepted = ok-injective h in
    let no : is_refusal accepted ≡ true = subst (λ x. is_refusal x ≡ true) e f.refused in
    absurd (cc no)
accepted-next case_id (ok (next u)) f h = refl

concluded-next :
    (case_id : String) (r : Result (Progress (Unit {0})))
    → str_eq case_id "installed_service_runtime" ≡ false
    → r ≡ ok (next tt)
    → concluded case_id r ≡ ok accepted
unfolding decision
concluded-next case_id r other e = rw (e, other)

-- A case with all its keys and a name, other than the runtime of the service, is accepted exactly if
-- the name is one of the required cases, the context is valid and has the independent observations,
-- the case claims the reviewed facts with the kind and the status of the case, each operation that the
-- case is bound to has, in this order and with no other, an invocation by the bound actor between two
-- observations of one running store with a record that identifies it and shows the operation's facts
-- and requests, and the transcript is that of all records in turn.
pub admit_case_iff :
    (case : Members) (case_id : String) (c : AdmissionContext)
    → has_keys case_keys case ≡ true
    → get "id" case ≡ str case_id
    → str_eq case_id "installed_service_runtime" ≡ false
    → (admit_case (dict case) c ≡ ok accepted) ↔ Proves c case_id case
unfolding admit_case
admit_case_iff case case_id c complete named other = (
  λ h.
      check_case-next c case_id case
        (accepted-next case_id _ (check_case-Refuses c case_id case) (rw (complete, named) at h)),
  λ p. rw (complete, named) (concluded-next case_id _ other (check_case-proved c case_id case p)),
)
