-- ===== src/Examples/Contracts.antt =====
-- The theorems on the compatibility contract, at concrete inputs.
use teslatlas_home_assistant.Prelude.{◌≡◌, refl, ◌↔◌, String, true, List, [], ◌∷◌, some}
use teslatlas_home_assistant.Prelude.Int.{ℤ, pos}
use teslatlas_home_assistant.Errors.{ok}
use teslatlas_home_assistant.Json.{
  Json, bool, int, list, dict, Members, Items, nil, item, elements, items, members, get, has, put,
  merge, has_keys, within, eq, typed_equal, eq_double, keys, count,
}
use teslatlas_home_assistant.Contract.{observation_at}
use teslatlas_home_assistant.Contract.Tables.{
  case_bindings, request_shapes, static_facts, probe_shape, endpoint_restart_facts, find,
}
use teslatlas_home_assistant.Contract.Observations.{
  transition_matches, is_dated, is_labelled, is_well_typed, valid_each, valid_invitations,
  valid_effect, valid_change, valid_transition, is_running, running_observation, is_stopped,
  check_stopped, stopped_observation,
}
use teslatlas_home_assistant.Contract.Scenario.{valid_scenario}
use teslatlas_home_assistant.Contract.Sequences.{
  first_of, all_of, operation_sequences, missing_independent_observation,
}
use teslatlas_home_assistant.Contract.Context.{
  split_slash, are_texts, valid_runtime, actor_problem, shared_runtime, actors_problem,
  is_own_uuid4, validate_context,
}
use teslatlas_home_assistant.Contract.Facts.{expected_case}
use teslatlas_home_assistant.Contract.Facts.Pairing.{unsupported_facts}
use teslatlas_home_assistant.Contract.Facts.Polls.{
  has_advanced, advanced_facts, later_poll_facts, has_restarted, restart_facts, restart_poll_facts,
}
use teslatlas_home_assistant.Contract.Facts.Polls.Restarts.{IsRestart, restart_poll_facts-IsRestart}
use teslatlas_home_assistant.Contract.Facts.Polls.Advances.{
  IsAdvance, AreObserved, later_poll_facts-IsAdvance,
}
use teslatlas_home_assistant.Contract.Facts.Unload.{
  objects, all_requests, with_outcome, in_phase, valid_attempts, adds_up, counts_outcomes,
  counts_add_up, is_quiet, same_pairs, census_facts, unload_facts, starts_with, contains_codes,
}
use teslatlas_home_assistant.Contract.Facts.Unload.Sorting.{sorted, sort_onto, insert_sorted}
use teslatlas_home_assistant.Contract.Facts.Unload.Census.{IsCensus, unload_facts-IsCensus}
use teslatlas_home_assistant.Contract.Operations.{
  expected_operation_facts, validate_request_shape, actual_shapes, are_shapes,
}
use teslatlas_home_assistant.Contract.Operations.Shapes.{
  AreRequests, AreNew, validate_request_shape-AreRequests,
}
use teslatlas_home_assistant.Contract.Progress.{decision}
use teslatlas_home_assistant.Contract.Admission.{
  candidates, first_seen, by_operation, are_strings, ids_are, valid_sequences, is_record_of,
  admit_record, admit_operation, admit_operations, admit_bound, check_case, admit_case,
}
use teslatlas_home_assistant.Contract.Admission.Outcomes.{IsReviewed, admit_case-IsReviewed}
use teslatlas_home_assistant.Contract.Admission.Proved.{Proves, accepted, admit_case_iff}
use teslatlas_home_assistant.Contract.Admission.Requests.{
  AreShaped, shapes_of, admit_case-AreShaped,
}
use teslatlas_home_assistant.Uuid.{is_own_uuid}
use teslatlas_home_assistant.Prelude.Text.{eq_codes}
use teslatlas_home_assistant.Credentials.{is_hex64}
use teslatlas_home_assistant.Json.Equality.{typed_equal-get}
use teslatlas_home_assistant.Examples.Session.{
  a_context, surface_case, probe_request, restart_context, advance_context, restarted_members,
  later_members, census_members, unload_context,
}

surface_accepted : admit_case (dict surface_case) a_context ≡ ok accepted
unfolding admit_case check_case validate_context valid_scenario get has within has_keys count eq
    eq_double is_own_uuid4 split_slash first_of find are_texts valid_runtime actor_problem
    actors_problem shared_runtime typed_equal keys is_own_uuid eq_codes is_hex64 running_observation
    observation_at is_running is_labelled is_well_typed valid_invitations valid_transition
    valid_each is_dated missing_independent_observation operation_sequences all_of expected_case
    case_bindings static_facts admit_bound candidates first_seen by_operation are_strings
    admit_operations admit_operation admit_record valid_sequences is_record_of
    expected_operation_facts unsupported_facts validate_request_shape actual_shapes are_shapes
    request_shapes ids_are decision
surface_accepted = refl

admit_case_iff_example :
    (admit_case (dict surface_case) a_context ≡ ok accepted)
    ↔ Proves a_context "unsupported_operation_zero_requests" surface_case
unfolding get has_keys has within
admit_case_iff_example =
    admit_case_iff surface_case "unsupported_operation_zero_requests" a_context refl refl refl

admit_case-AreShaped_example :
    (actor_id : String) × (operations : List String) × (requests : List Json) × (find
        "unsupported_operation_zero_requests" case_bindings
      ≡ some (actor_id, operations))
    × (typed_equal (list nil) (list (items requests)) ≡ true)
    × AreShaped requests (shapes_of operations)
unfolding get has_keys has within
admit_case-AreShaped_example =
    admit_case-AreShaped surface_case "unsupported_operation_zero_requests" a_context refl refl refl
      surface_accepted

admit_case-IsReviewed_example : IsReviewed (admit_case (dict surface_case) a_context)
admit_case-IsReviewed_example = admit_case-IsReviewed (dict surface_case) a_context

validate_request_shape-AreRequests_example :
    (vs : Items) × (ids : List String) × (list (item (probe_request "a") nil) ≡ list vs)
    × AreRequests (elements vs) ids (probe_shape ∷ [])
    × AreNew [] ids
unfolding find request_shapes validate_request_shape actual_shapes are_shapes has_keys has within
    get eq
validate_request_shape-AreRequests_example =
    validate_request_shape-AreRequests "probe" (list (item (probe_request "a") nil))
      (probe_shape ∷ []) refl refl

restart_poll_facts-IsRestart_example :
    (before : ℤ) × (after : ℤ) × (stopped : ℤ) × (prior : Members) × (halted : Members)
    × (restarted : Members) × IsRestart restart_context "endpoint_restart_poll" true before after
        stopped prior halted restarted
unfolding restart_poll_facts restart_facts has_restarted running_observation stopped_observation
    check_stopped is_stopped observation_at is_running is_labelled is_well_typed valid_invitations
    valid_transition valid_change valid_effect transition_matches valid_each is_dated get has within
    has_keys count eq eq_double is_hex64 is_own_uuid eq_codes first_of operation_sequences all_of
    merge put find
restart_poll_facts-IsRestart_example =
    restart_poll_facts-IsRestart restart_context "endpoint_restart_poll" true endpoint_restart_facts
      restarted_members refl

later_poll_facts-IsAdvance_example :
    (from_sequence : ℤ) × (verify_sequence : ℤ) × (before : ℤ) × (after : ℤ)
    × (transition : Members) × (predecessor : Members) × (verify : Members)
    × (observation : Members) × AreObserved advance_context from_sequence verify_sequence before
        after transition predecessor verify observation
    × IsAdvance from_sequence verify_sequence before transition predecessor verify observation
unfolding later_poll_facts advanced_facts has_advanced running_observation observation_at is_running
    is_labelled is_well_typed valid_invitations valid_transition valid_change valid_effect
    transition_matches valid_each is_dated get has within has_keys count eq eq_double is_hex64
    is_own_uuid eq_codes first_of operation_sequences all_of merge put find
later_poll_facts-IsAdvance_example = later_poll_facts-IsAdvance advance_context later_members refl

unload_facts-IsCensus_example :
    (attempts : List Json) × (requests : List Members) × (transcript : List (Json × Json))
    × (completed : List (Json × Json)) × IsCensus unload_context census_members attempts requests
        transcript completed
unfolding unload_facts census_facts counts_add_up adds_up counts_outcomes valid_attempts is_quiet
    same_pairs all_requests objects with_outcome in_phase sorted sort_onto insert_sorted all_of
    first_of get has within has_keys count eq eq_double contains_codes starts_with
unload_facts-IsCensus_example = unload_facts-IsCensus unload_context census_members refl

abbrev one_order : Members
one_order = members (("a", int (pos 1)) ∷ ("b", bool true) ∷ [])

abbrev other_order : Members
other_order = members (("b", bool true) ∷ ("a", int (pos 1)) ∷ [])

typed_equal-get_example :
    (has "b" one_order ≡ has "b" other_order)
    × (has "b" one_order ≡ true → typed_equal (get "b" one_order) (get "b" other_order) ≡ true)
unfolding typed_equal has get within keys
typed_equal-get_example = typed_equal-get "b" one_order other_order refl
