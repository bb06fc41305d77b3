-- ===== src/Contract/Facts/Polls.antt =====
-- The facts of the polls: the first, the one after the store has advanced, and those after a restart
-- and an outage of the service.
pub mod Restarts
pub mod Advances
use teslatlas_home_assistant.Prelude.{
  String, Bool, true, false, ◌&&◌, ◌||◌, not, List, [], ◌∷◌, Option, none, some, str_eq,
  if◌then◌else◌,
}
use teslatlas_home_assistant.Prelude.Int.{ℤ, pos, eq_ℤ, ltb_ℤ}
use teslatlas_home_assistant.Errors.{Error, Result, ok, err, ◌>>=◌}
use teslatlas_home_assistant.Json.{
  Json, null, bool, int, float, shifted_down, str, list, dict, Members, get, eq, merge, members,
}
use teslatlas_home_assistant.Contract.{AdmissionContext}
use teslatlas_home_assistant.Contract.Tables.{
  unicode_name, endpoint_restart_facts, outage_recovery_facts,
}
use teslatlas_home_assistant.Contract.Checks.{says, as_integer}
use teslatlas_home_assistant.Contract.Observations.{
  running_observation, running_at, stopped_observation, transition_matches, agree, store_keys,
}
use teslatlas_home_assistant.Contract.Sequences.{operation_sequences}
use teslatlas_home_assistant.Contract.Facts.{
  Facts, no_facts, facts_if, with_value, with_observed, with_dict, with_runtime,
}

-- `initial_poll`
unfoldable pub initial_poll_facts : AdmissionContext → Facts
initial_poll_facts c = with_runtime c λ facts. ok (
    some (
      members (
        ("vehicles", int (pos 2))
        ∷ ("sensors_per_vehicle", int (pos 13))
        ∷ ("initial_battery", int (pos 0))
        ∷ ("initial_inside_temperature_c", float (shifted_down (pos 43) 1))
        ∷ ("empty_state_of_charge", null)
        ∷ ("unicode_name", str unicode_name)
        ∷ [])))

abbrev pub with_int : Json → (ℤ → Facts) → Facts
with_int (int n) k = k n
with_int _ k = no_facts

abbrev pub is_at : ℤ → Option (ℤ × ℤ) → Bool
is_at n none = false
is_at n (some (before, after)) = eq_ℤ before n && eq_ℤ after n

-- The order of the three observations, what they say, and that the store has moved on once while the
-- service was started anew.
unfoldable pub has_advanced : ℤ → ℤ → ℤ → Members → Members → Members → Members → Bool
has_advanced from_sequence verify_sequence before transition predecessor verify observation =
    says "advance-once" (get "operation" observation)
    && (transition_matches observation "advance-once" (get "from_sequence" transition)
        && (ltb_ℤ from_sequence verify_sequence
            && (ltb_ℤ verify_sequence before
                && (says "verify" (get "operation" predecessor)
                    && (says "verify" (get "operation" verify)
                        && (agree store_keys verify predecessor
                            && (agree store_keys observation predecessor
                                && (eq (get "service_generation" predecessor)
                                      (get "service_generation" verify)
                                    && (not (
                                          eq (get "service_generation" observation)
                                            (get "service_generation" verify))
                                        && (not (
                                              eq (get "before_store_sha256" transition)
                                                (get "after_store_sha256" transition))
                                            && (eq (get "scenario_sha256" transition)
                                                  (get "scenario_sha256" observation)
                                                && eq (get "seed_sha256" transition)
                                                    (get "seed_sha256" observation))))))))))))

unfoldable pub advanced_facts : AdmissionContext → ℤ → Members → Members → Facts
unfolding has_advanced
advanced_facts c before observation transition =
    running_at c (get "from_sequence" transition) >>= λ predecessor.
    (running_at c (get "pre_advance_verify_sequence" transition) >>= λ verify.
    with_int (get "from_sequence" transition) λ from_sequence.
      with_int (get "pre_advance_verify_sequence" transition) λ verify_sequence.
        with_value predecessor λ first. with_value verify λ second.
          facts_if
            (is_at from_sequence (operation_sequences c "initial_poll")
              && has_advanced from_sequence verify_sequence before transition first second
                  observation)
            (members (
              ("later_battery", int (pos 1))
              ∷ ("later_inside_temperature_c", float (shifted_down (pos 45) 1))
              ∷ ("advanced_once", bool true)
              ∷ ("advance_from_sequence", int from_sequence)
              ∷ [])))

-- `later_poll`
unfoldable pub later_poll_facts : AdmissionContext → Facts
later_poll_facts c = with_runtime c λ facts. with_value (operation_sequences c "later_poll") λ s.
    with_observed (running_observation c (s.0)) λ observation.
      with_dict (get "transition" observation)
        λ transition. advanced_facts c (s.0) observation transition

-- The service was stopped between the two numbers and started anew by the second.
unfoldable pub has_restarted : ℤ → ℤ → ℤ → Members → Members → Members → Bool
has_restarted before after stopped transition prior restarted =
    says "start" (get "operation" restarted)
    && (eq (get "from_sequence" transition) (get "stopped_sequence" transition)
        && (transition_matches restarted "start" (get "stopped_sequence" transition)
            && (ltb_ℤ before stopped && ltb_ℤ stopped after)))

abbrev pub restarted_facts : Bool → Members → Members → Members → Facts
restarted_facts same facts prior restarted =
    facts_if
      (same && not (eq (get "service_generation" prior) (get "service_generation" restarted)))
      (merge facts (
        members (
          ("before_service_generation", get "service_generation" prior)
          ∷ ("after_service_generation", get "service_generation" restarted)
          ∷ [])))

-- With the Hub compared or not, and the facts of the case.
unfoldable pub restart_facts : AdmissionContext → Bool → Members → ℤ → ℤ → Members → Members → Facts
unfolding has_restarted
restart_facts c compares_hub facts before after prior restarted =
    with_dict (get "transition" restarted) λ transition.
      with_value (as_integer (get "stopped_sequence" transition)) λ stopped.
        if not (has_restarted before after stopped transition prior restarted)
        then no_facts
        else with_observed (stopped_observation c stopped before) λ stopped_value.
          restarted_facts (not compares_hub || eq (get "hub_id" prior) (get "hub_id" restarted))
            facts prior restarted

-- `endpoint_restart_poll` and `outage_poll`
unfoldable pub restart_poll_facts : AdmissionContext → String → Bool → Members → Facts
restart_poll_facts c operation compares_hub facts = with_runtime c λ runtime_facts.
    with_value (operation_sequences c operation) λ s.
      (running_observation c (s.0) >>= λ before.
      (running_observation c (s.1) >>= λ after. with_value before λ prior.
        with_value after
          λ restarted. restart_facts c compares_hub facts (s.0) (s.1) prior restarted))
