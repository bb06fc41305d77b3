-- ===== src/Client/Decode.antt =====
-- What the methods of `CurrentHubClient` read out of decoded payloads: the discovery document of
-- `async_probe` and the observation of `_async_current`.
use teslatlas_home_assistant.Prelude.{
  String, Bool, true, false, ◌&&◌, List, [], ◌∷◌, Option, none, some, any, str_eq,
}
use teslatlas_home_assistant.Errors.{Error, Result, ok, err, guard, ◌>>=◌, ◌>>◌}
use teslatlas_home_assistant.Values.{
  Value, Dict, null, bool, str, list, nil, cons, get, items, is_text, equals_one,
}
use teslatlas_home_assistant.Models.{HubInfo, VehicleState}
use teslatlas_home_assistant.Payload.{
  uuid, optional_number, optional_integer, optional_string, or_default,
}

abbrev pub profile_id : String
profile_id = "hub-http-v1@1.0.0"

-- `assert payload is not None`
abbrev pub assert_payload : Option Dict → Result Dict
assert_payload none = err Error.assertion_error
assert_payload (some d) = ok d

-- All values of a list, if each is a text.
texts : List Value → Option (List String)
texts [] = some []
texts (str s ∷ vs) = elim (texts vs) [ none ↦ none | some ss ↦ some (s ∷ ss) ]
texts (v ∷ vs) = none

capabilities_of : Value → Result (List String)
unfolding texts
capabilities_of (list vs) = elim (texts (items vs)) [ none ↦ err Error.contract | some ss ↦ ok ss ]
capabilities_of _ = err Error.contract

-- `value == ["1.0"]`
is_api_versions : Value → Bool
is_api_versions (list (cons v nil)) = is_text "1.0" v
is_api_versions _ = false

abbrev pub contains : List String → String → Bool
contains ss t = any (λ s. str_eq s t) ss

-- The validation of a discovery document.
unfoldable pub read_discovery : Dict → Result HubInfo
unfolding capabilities_of is_api_versions
read_discovery payload = do
  hub_id ← uuid (get "hub_id" payload)
  guard (is_text "teslatlas-sync" (get "protocol" payload)) Error.contract
  guard (equals_one (get "protocol_major" payload) && is_api_versions (get "api_versions" payload))
      Error.contract
  capabilities ← capabilities_of (get "capabilities" payload)
  guard (contains capabilities "query.vehicles" && contains capabilities "query.current")
      Error.contract
  ok (record {
    hub_id = hub_id;
    name = "Teslatlas Hub";
    protocol_version = profile_id;
    capabilities = capabilities;
  })

-- `None`, "locked" or "unlocked".
unfoldable pub access_state : Value → Result (Option String)
access_state null = ok none
access_state (bool true) = ok (some "locked")
access_state (bool false) = ok (some "unlocked")
access_state _ = err Error.contract

-- One vehicle's current observation but for its age; the fields are read in the order of the
-- source.
unfoldable pub read_fields : String → String → Dict → Result VehicleState
read_fields vehicle_id summary_name payload = do
  id ← uuid (get "vehicle_id" payload)
  guard (str_eq id vehicle_id) Error.contract
  access ← access_state (get "locked" payload)
  name ← optional_string payload "display_name"
  soc ← optional_integer payload "battery_level"
  charging ← optional_string payload "charging_state"
  power ← optional_number payload "charger_power"
  limit ← optional_integer payload "charge_limit_soc"
  range ← optional_number payload "est_battery_range_km"
  odometer ← optional_number payload "odometer"
  activity ← optional_string payload "state"
  inside ← optional_number payload "inside_temp"
  outside ← optional_number payload "outside_temp"
  version ← optional_string payload "version"
  update ← optional_string payload "update_status"
  ok (record {
    vehicle_id = vehicle_id;
    name = or_default name summary_name;
    state_of_charge = soc;
    charging_state = charging;
    charging_power_kw = power;
    charge_limit_percent = limit;
    estimated_range_km = range;
    odometer_km = odometer;
    activity_state = activity;
    inside_temperature_c = inside;
    outside_temperature_c = outside;
    access_state = access;
    software_version = version;
    software_update_state = update;
    telemetry_age_seconds = none;
    data_quality = none;
    current_read_failed = false;
  })
