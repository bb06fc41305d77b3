-- ===== src/Contract/Scenario.antt =====
-- `_valid_scenario` of tools/matrix_contract.py.
use teslatlas_home_assistant.Prelude.{String, Bool, false, ◌&&◌, [], ◌∷◌}
use teslatlas_home_assistant.Prelude.Int.{pos}
use teslatlas_home_assistant.Json.{
  Json, null, int, float, shifted_down, str, list, dict, Members, get, eq, members, items,
}
use teslatlas_home_assistant.Contract.Tables.{unicode_name}
use teslatlas_home_assistant.Contract.Checks.{is_null, says, counts}

-- `_valid_scenario`
abbrev vehicle_members : String → String → Json
vehicle_members id name = dict (members (("vehicle_id", str id) ∷ ("display_name", str name) ∷ []))

abbrev first_vehicle : String
first_vehicle = "11111111-1111-4111-8111-111111111111"

abbrev second_vehicle : String
second_vehicle = "22222222-2222-4222-8222-222222222222"

abbrev later_current : Json
later_current = dict (
    members (
      ("observed_at_ms", int (pos 1788566460000))
      ∷ ("battery_level", int (pos 1))
      ∷ ("inside_temp", float (shifted_down (pos 45) 1))
      ∷ ("outside_temp", null)
      ∷ []))

abbrev valid_current : Json → Bool
valid_current (dict current) =
    counts 0 (get "battery_level" current)
    && (eq (get "inside_temp" current) (float (shifted_down (pos 43) 1))
        && (is_null (get "outside_temp" current)
            && counts 1788566400000 (get "observed_at_ms" current)))
valid_current _ = false

unfoldable pub valid_scenario : Members → Bool
valid_scenario scenario =
    counts 1 (get "schema_version" scenario)
    && (says "two-vehicles-five-drives" (get "name" scenario)
        && (says "synthetic-only" (get "provenance" scenario)
            && (counts 1788566400000 (get "observed_at_ms" scenario)
                && (eq (get "vehicle_ids" scenario)
                      (list (items (str first_vehicle ∷ str second_vehicle ∷ [])))
                    && (is_null (get "empty_vehicle_observed_at_ms" scenario)
                        && (eq (get "vehicles" scenario) (
                              list (
                                items (
                                  vehicle_members first_vehicle unicode_name
                                  ∷ vehicle_members second_vehicle "Interop empty"
                                  ∷ [])))
                            && (valid_current (get "current" scenario)
                                && eq (get "later_current" scenario) later_current)))))))
