-- ===== src/Contract/Raising/Showing.antt =====
-- Which exceptions the facts of tools/matrix_contract.py raise: their combinators.
use teslatlas_home_assistant.Prelude.{refl, String, List, Option, none, some}
use teslatlas_home_assistant.Prelude.Int.{ℤ}
use teslatlas_home_assistant.Errors.{Result, ok, err}
use teslatlas_home_assistant.Json.{Json, null, bool, int, float, str, list, dict, Members, has}
use teslatlas_home_assistant.Contract.{AdmissionContext}
use teslatlas_home_assistant.Contract.Facts.{
  Facts, with_value, with_observed, with_dict, with_list, with_runtime, at_key, at_same,
  artifact_case, discovery_case, case_facts, expected_case,
}
use teslatlas_home_assistant.Contract.Facts.Polls.{with_int}
use teslatlas_home_assistant.Contract.Facts.Pairing.{observed_before, invitation, invitation_id}
use teslatlas_home_assistant.Contract.Raising.{
  IsTame, tame_laws, raises_lookup_error, ok-IsTame, >>=-IsTame, and_also-IsTame, if-IsTame,
  canonical_id-IsTame,
}
use teslatlas_home_assistant.Contract.Raising.Observing.{running_observation-IsTame}

pub with_value-IsTame {ℓ} :
    {A : Type ℓ} (o : Option A) (k : A → Facts) → ((a : A) → IsTame (k a)) → IsTame (with_value o k)
with_value-IsTame none k h = search tame_laws
with_value-IsTame (some a) k h = h a

pub with_observed-IsTame :
    (r : Result (Option Members)) (k : Members → Facts)
    → IsTame r
    → ((v : Members) → IsTame (k v))
    → IsTame (with_observed r k)
with_observed-IsTame (err e) k hr h = record { raised = hr.raised }
with_observed-IsTame (ok none) k hr h = search tame_laws
with_observed-IsTame (ok (some v)) k hr h = h v

pub with_dict-IsTame :
    (v : Json) (k : Members → Facts) → ((d : Members) → IsTame (k d)) → IsTame (with_dict v k)
with_dict-IsTame null k h = search tame_laws
with_dict-IsTame (bool b) k h = search tame_laws
with_dict-IsTame (int n) k h = search tame_laws
with_dict-IsTame (float f) k h = search tame_laws
with_dict-IsTame (str s) k h = search tame_laws
with_dict-IsTame (list vs) k h = search tame_laws
with_dict-IsTame (dict d) k h = search (h d)

pub with_list-IsTame :
    (v : Json) (k : List Json → Facts) → ((vs : List Json) → IsTame (k vs)) → IsTame (with_list v k)
with_list-IsTame null k h = search tame_laws
with_list-IsTame (bool b) k h = search tame_laws
with_list-IsTame (int n) k h = search tame_laws
with_list-IsTame (float f) k h = search tame_laws
with_list-IsTame (str s) k h = search tame_laws
with_list-IsTame (list vs) k h = search h
with_list-IsTame (dict d) k h = search tame_laws

pub with_int-IsTame : (v : Json) (k : ℤ → Facts) → ((n : ℤ) → IsTame (k n)) → IsTame (with_int v k)
with_int-IsTame null k h = search tame_laws
with_int-IsTame (bool b) k h = search tame_laws
with_int-IsTame (int n) k h = search (h n)
with_int-IsTame (float f) k h = search tame_laws
with_int-IsTame (str s) k h = search tame_laws
with_int-IsTame (list vs) k h = search tame_laws
with_int-IsTame (dict d) k h = search tame_laws

pub with_runtime-IsTame :
    (c : AdmissionContext) (k : Members → Facts)
    → ((d : Members) → IsTame (k d))
    → IsTame (with_runtime c k)
with_runtime-IsTame c k h = search (with_value-IsTame, with_dict-IsTame, h)

pub at_key-IsTame : (k : String) (v : Json) → IsTame (at_key k v)
at_key-IsTame k (dict d) = if-IsTame (has k d) _ _ (ok-IsTame _) (record { raised = refl })
at_key-IsTame k null = record { raised = refl }
at_key-IsTame k (bool b) = record { raised = refl }
at_key-IsTame k (int n) = record { raised = refl }
at_key-IsTame k (float f) = record { raised = refl }
at_key-IsTame k (str s) = record { raised = refl }
at_key-IsTame k (list vs) = record { raised = refl }

pub at_same-IsTame : (c : AdmissionContext) (s : Option (ℤ × ℤ)) → IsTame (at_same c s)
at_same-IsTame c none = search tame_laws
at_same-IsTame c (some (before, after)) = search (tame_laws, running_observation-IsTame)

pub observed_before-IsTame :
    (c : AdmissionContext) (s : Option (ℤ × ℤ)) → IsTame (observed_before c s)
observed_before-IsTame c none = search tame_laws
observed_before-IsTame c (some (before, after)) = search (running_observation-IsTame)

pub invitation-IsTame : (kind : String) (v : Members) → IsTame (invitation kind v)
invitation-IsTame kind v = search (tame_laws, at_key-IsTame)

pub invitation_id-IsTame : (kind : String) (v : Members) → IsTame (invitation_id kind v)
invitation_id-IsTame kind v = search (tame_laws, at_key-IsTame)

pub ruleset fact_laws = (
  tame_laws, with_value-IsTame, with_observed-IsTame, with_dict-IsTame, with_list-IsTame,
  with_int-IsTame, with_runtime-IsTame, at_key-IsTame, at_same-IsTame, observed_before-IsTame,
  invitation_id-IsTame, invitation-IsTame, running_observation-IsTame,
)

artifact_case-IsTame : (c : AdmissionContext) (facts : Members) → IsTame (artifact_case c facts)
unfolding artifact_case
artifact_case-IsTame c facts = search fact_laws

discovery_case-IsTame : (c : AdmissionContext) → IsTame (discovery_case c)
unfolding discovery_case
discovery_case-IsTame c = search fact_laws

case_facts-IsTame :
    (c : AdmissionContext) (case_id : String) (found : Option Members)
    → IsTame (case_facts c case_id found)
case_facts-IsTame c case_id (some facts) = search fact_laws
case_facts-IsTame c case_id none = search (fact_laws, artifact_case-IsTame, discovery_case-IsTame)

pub expected_case-IsTame :
    (case_id : String) (c : AdmissionContext) → IsTame (expected_case case_id c)
unfolding expected_case
expected_case-IsTame case_id c = search case_facts-IsTame
