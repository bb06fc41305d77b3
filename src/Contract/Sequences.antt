-- ===== src/Contract/Sequences.antt =====
-- The readers of the records and of their sequence numbers in tools/matrix_contract.py, and
-- `_missing_independent_observation`.
use teslatlas_home_assistant.Prelude.{
  String, Bool, true, false, ◌&&◌, ◌||◌, not, List, [], ◌∷◌, Option, none, some, any, str_eq,
  if◌then◌else◌,
}
use teslatlas_home_assistant.Prelude.Int.{ℤ}
use teslatlas_home_assistant.Json.{Json, null, int, dict, Members, get}
use teslatlas_home_assistant.Contract.{AdmissionContext, observation_at}
use teslatlas_home_assistant.Contract.Tables.{case_bindings, find}
use teslatlas_home_assistant.Contract.Checks.{int_with, says}

-- `_runtime_raw`
unfoldable pub first_of : String → List (String × Members) → Option Members
first_of operation [] = none
first_of operation ((id, v) ∷ raw) =
    if says operation (get "operation" v) then some v else first_of operation raw

abbrev pub runtime_raw : AdmissionContext → Option Members
runtime_raw c = first_of "observe_installed_runtime" c.raw

-- The records of an operation.
unfoldable pub all_of : String → List (String × Members) → List Members
all_of operation [] = []
all_of operation ((id, v) ∷ raw) =
    let rest = all_of operation raw in if says operation (get "operation" v) then v ∷ rest else rest

abbrev int_pair : Json → Json → Option (ℤ × ℤ)
int_pair (int before) (int after) = some (before, after)
int_pair _ _ = none

abbrev pub sequences_of : List Members → Option (ℤ × ℤ)
sequences_of (v ∷ []) = int_pair (get "session_sequence_before" v) (get "session_sequence_after" v)
sequences_of _ = none

-- `_operation_sequences`
unfoldable pub operation_sequences : AdmissionContext → String → Option (ℤ × ℤ)
operation_sequences c operation = sequences_of (all_of operation c.raw)

abbrev pub is_observed : AdmissionContext → ℤ → Bool
is_observed c n = elim (observation_at n c.controller_observations) [ none ↦ false | some v ↦ true ]

-- `type(sequence) is int and sequence not in observations`
abbrev is_unobserved : AdmissionContext → Json → Bool
is_unobserved c v = int_with (λ n. not (is_observed c n)) v

abbrev lacks_of : AdmissionContext → String → Json → Bool
lacks_of c operation (dict t) =
    (str_eq operation "later_poll"
      && any (λ k. is_unobserved c (get k t))
          ("from_sequence" ∷ "pre_advance_verify_sequence" ∷ []))
    || ((str_eq operation "endpoint_restart_poll" || str_eq operation "outage_poll")
        && is_unobserved c (get "stopped_sequence" t))
lacks_of c operation _ = false

abbrev transition_of : Option Members → Json
transition_of none = null
transition_of (some v) = get "transition" v

abbrev lacks_between : AdmissionContext → String → Option (ℤ × ℤ) → Bool
lacks_between c operation none = false
lacks_between c operation (some (before, after)) =
    not (is_observed c before && is_observed c after)
    || lacks_of c operation (transition_of (observation_at after c.controller_observations))

abbrev lacks_any : AdmissionContext → Option (String × List String) → Bool
lacks_any c none = false
lacks_any c (some (actor_id, operations)) =
    any (λ operation. lacks_between c operation (operation_sequences c operation)) operations

-- `_missing_independent_observation`
unfoldable pub missing_independent_observation : String → AdmissionContext → Bool
missing_independent_observation case_id c = lacks_any c (find case_id case_bindings)
