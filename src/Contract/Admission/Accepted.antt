-- ===== src/Contract/Admission/Accepted.antt =====
-- The cases that are accepted.
use teslatlas_home_assistant.Prelude.{
  ◌≡◌, refl, true, false, ◌&&◌, String, List, [], ◌∷◌, ◌++◌, Option, none, some, str_eq,
}
use teslatlas_home_assistant.Errors.{Result, ok, err, ◌>>=◌}
use teslatlas_home_assistant.Json.{Json, int, dict, Members, get, eq, has_keys, typed_equal}
use teslatlas_home_assistant.Contract.{AdmittedInvocation, AdmissionContext}
use teslatlas_home_assistant.Contract.Tables.{find}
use teslatlas_home_assistant.Contract.Observations.{running_observation, agree, store_keys}
use teslatlas_home_assistant.Contract.Operations.{expected_operation_facts, validate_request_shape}
use teslatlas_home_assistant.Contract.Progress.{Progress, next, require, ◌then_with◌}
use teslatlas_home_assistant.Contract.Admission.{
  record_keys, by_operation, ids_are, requests_in, valid_sequences, is_record_of, shows, fact_code,
  admit_record, admit_operation, admit_operations, both_agree,
}
use teslatlas_home_assistant.Contract.Admission.Inversion.{
  then_with-next, require-then_with, stop-returned,
}

-- A record bears out an invocation.
pub record IsRecord (c : AdmissionContext) (actor_id operation : String) (i : AdmittedInvocation)
    (raw expected : Members) : Type 0 where
  pub found : find i.evidence_id c.raw ≡ some raw
  pub named : (has_keys record_keys raw && is_record_of c actor_id operation raw) ≡ true
  pub numbered :
      (eq (get "session_sequence_before" raw) (int i.session_sequence_before)
        && eq (get "session_sequence_after" raw) (int i.session_sequence_after))
      ≡ true
  pub known : expected_operation_facts operation c ≡ ok (some expected)
  pub shown : typed_equal (get "facts" raw) (dict expected) ≡ true
  pub asked :
      (validate_request_shape operation (get "requests" raw)
        && ids_are (requests_in (get "requests" raw)) i.request_ids)
      ≡ true

-- Both observations of an invocation are of one running store.
pub record IsInvocation (c : AdmissionContext) (actor_id : String) (i : AdmittedInvocation)
    (before after : Members) : Type 0 where
  pub acted : str_eq i.actor_id actor_id ≡ true
  pub ordered : valid_sequences c i.session_sequence_before i.session_sequence_after ≡ true
  pub observed_before : running_observation c i.session_sequence_before ≡ ok (some before)
  pub observed_after : running_observation c i.session_sequence_after ≡ ok (some after)
  pub one_store : agree store_keys before after ≡ true

-- An operation has an invocation with a record of these requests.
abbrev pub IsEvidenced :
    AdmissionContext → String → String → Option AdmittedInvocation → List Json → Type 0
IsEvidenced c actor_id operation found requests =
    (i : AdmittedInvocation) × (before : Members) × (after : Members) × (raw : Members)
    × (expected : Members) × (found ≡ some i)
    × IsInvocation c actor_id i before after
    × IsRecord c actor_id operation i raw expected
    × (requests ≡ requests_in (get "requests" raw))

abbrev pub AreEvidenced :
    AdmissionContext → String → List AdmittedInvocation → List String → List Json → Type 0
AreEvidenced c actor_id is [] requests = requests ≡ []
AreEvidenced c actor_id is (operation ∷ operations) requests =
    (here : List Json) × (later : List Json) × IsEvidenced c actor_id operation
      (by_operation operation is) here
    × AreEvidenced c actor_id is operations later
    × (requests ≡ here ++ later)

require_shown-next :
    (c : AdmissionContext) (operation : String) (facts : Json) (r : Result (Option Members))
    (k : Unit → Result (Progress (List Json))) {requests : List Json}
    → (r >>= λ expected. require (shows facts expected) (fact_code operation facts) then_with k)
      ≡ ok (next requests)
    → (expected : Members) × (r ≡ ok (some expected))
      × (typed_equal facts (dict expected) ≡ true)
      × (k tt ≡ ok (next requests))
require_shown-next c operation facts (err e) k h = cc
require_shown-next c operation facts (ok none) k h =
    absurd (cc ((require-then_with false (fact_code operation facts) k h).0))
require_shown-next c operation facts (ok (some expected)) k h =
    let (shown, rest) =
      require-then_with (typed_equal facts (dict expected)) (fact_code operation facts) k h in
    (expected, refl, shown, rest)

admit_record-next :
    (c : AdmissionContext) (actor_id operation : String) (i : AdmittedInvocation)
    (found : Option Members) {requests : List Json}
    → find i.evidence_id c.raw ≡ found
    → admit_record c actor_id operation i found ≡ ok (next requests)
    → (raw : Members) × (expected : Members) × IsRecord c actor_id operation i raw expected
      × (requests ≡ requests_in (get "requests" raw))
unfolding admit_record
admit_record-next c actor_id operation i none f h = absurd (stop-returned _ _ h)
admit_record-next c actor_id operation i (some raw) f h =
    let (named, h1) = require-then_with _ _ _ h in
    let (numbered, h2) = require-then_with _ _ _ h1 in
    let (expected, known, shown, h3) =
      require_shown-next c operation (get "facts" raw) (expected_operation_facts operation c) _
        h2 in
    let (asked, h4) = require-then_with _ _ _ h3 in
    (
      raw,
      expected,
      record {
        found = f;
        named = named;
        numbered = numbered;
        known = known;
        shown = shown;
        asked = asked;
      },
      cc,
    )

observed-next :
    (r q : Result (Option Members)) (code : String) (k : Unit → Result (Progress (List Json)))
    {requests : List Json}
    → (r >>= λ before. (q >>= λ after. require (both_agree before after) code then_with k))
      ≡ ok (next requests)
    → (v : Members) × (w : Members) × (r ≡ ok (some v))
      × (q ≡ ok (some w))
      × (agree store_keys v w ≡ true)
      × (k tt ≡ ok (next requests))
observed-next (err e) q code k h = cc
observed-next (ok before) (err e) code k h = cc
observed-next (ok none) (ok after) code k h = absurd (cc ((require-then_with false code k h).0))
observed-next (ok (some v)) (ok none) code k h = absurd (cc ((require-then_with false code k h).0))
observed-next (ok (some v)) (ok (some w)) code k h =
    let (one, rest) = require-then_with (agree store_keys v w) code k h in
    (v, w, refl, refl, one, rest)

admit_operation-next :
    (c : AdmissionContext) (actor_id operation : String) (found : Option AdmittedInvocation)
    {requests : List Json}
    → admit_operation c actor_id operation found ≡ ok (next requests)
    → IsEvidenced c actor_id operation found requests
unfolding admit_operation
admit_operation-next c actor_id operation none h = cc
admit_operation-next c actor_id operation (some i) h =
    let (acted, h1) = require-then_with _ _ _ h in
    let (ordered, h2) = require-then_with _ _ _ h1 in
    let (v, w, before, after, one, h3) =
      observed-next (running_observation c i.session_sequence_before)
        (running_observation c i.session_sequence_after) _ _ h2 in
    let (raw, expected, is_record, e) =
      admit_record-next c actor_id operation i (find i.evidence_id c.raw) refl h3 in
    (
      i,
      v,
      w,
      raw,
      expected,
      refl,
      record {
        acted = acted;
        ordered = ordered;
        observed_before = before;
        observed_after = after;
        one_store = one;
      },
      is_record,
      e,
    )

pub admit_operations-next :
    (c : AdmissionContext) (actor_id : String) (is : List AdmittedInvocation)
    (operations : List String) {requests : List Json}
    → admit_operations c actor_id is operations ≡ ok (next requests)
    → AreEvidenced c actor_id is operations requests
unfolding admit_operations
admit_operations-next c actor_id is [] h = cc
admit_operations-next c actor_id is (operation ∷ operations) h =
    let (here, e1, h1) =
      then_with-next (admit_operation c actor_id operation (by_operation operation is)) _ h in
    let (later, e2, h2) = then_with-next (admit_operations c actor_id is operations) _ h1 in
    (
      here,
      later,
      admit_operation-next c actor_id operation _ e1,
      admit_operations-next c actor_id is operations e2,
      cc,
    )

admit_record-evidenced :
    (c : AdmissionContext) (actor_id operation : String) (i : AdmittedInvocation)
    (raw expected : Members)
    → IsRecord c actor_id operation i raw expected
    → admit_record c actor_id operation i (find i.evidence_id c.raw)
      ≡ ok (next (requests_in (get "requests" raw)))
unfolding admit_record
admit_record-evidenced c actor_id operation i raw expected r =
    rw (r.found, r.named, r.numbered, r.known, r.shown, r.asked)

admit_operation-evidenced :
    (c : AdmissionContext) (actor_id operation : String) (found : Option AdmittedInvocation)
    (requests : List Json)
    → IsEvidenced c actor_id operation found requests
    → admit_operation c actor_id operation found ≡ ok (next requests)
unfolding admit_operation
admit_operation-evidenced c actor_id operation found requests (i, v, w, raw, expected, f, s, r, e) =
    rw (
      f,
      e,
      s.acted,
      s.ordered,
      s.observed_before,
      s.observed_after,
      s.one_store,
      admit_record-evidenced c actor_id operation i raw expected r,
    )

pub admit_operations-evidenced :
    (c : AdmissionContext) (actor_id : String) (is : List AdmittedInvocation)
    (operations : List String) (requests : List Json)
    → AreEvidenced c actor_id is operations requests
    → admit_operations c actor_id is operations ≡ ok (next requests)
unfolding admit_operations
admit_operations-evidenced c actor_id is [] requests h = rw h
admit_operations-evidenced c actor_id is (operation ∷ operations) requests
      (here, later, one, more, e) =
    rw (
      e,
      admit_operation-evidenced c actor_id operation _ here one,
      admit_operations-evidenced c actor_id is operations later more,
    )
