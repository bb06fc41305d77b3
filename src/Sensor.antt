-- ===== src/Sensor.antt =====
-- custom_components/teslatlas_hub/sensor.py: which sensors exist, what they show, and how the
-- listener of the coordinator adds them. Of a description the key and the value are kept; units and
-- classes are data for Home Assistant, and so is the text of a unique id, for which its parts stand.
pub mod Once
use teslatlas_home_assistant.Prelude.{
  ℕ, String, ◌≡◌, Bool, true, false, ◌&&◌, ◌||◌, not, List, [], ◌∷◌, ◌++◌, Option, none, some, map,
  any, str_eq, if◌then◌else◌,
}
use teslatlas_home_assistant.Prelude.Int.{ℤ}
use teslatlas_home_assistant.Prelude.Text.{codes, eq_codes}
use teslatlas_home_assistant.Models.{
  Number, whole, VehicleState, Vehicles, HubInfo, HubSnapshot, lookup,
}
use teslatlas_home_assistant.Models.Vehicles.{occurs}

-- Home Assistant's `StateType`
pub data StateType : Type 0 where
  unknown : StateType
  text : String → StateType
  number : Number → StateType

abbrev from_text : Option String → StateType
from_text none = unknown
from_text (some s) = text s

abbrev from_integer : Option ℤ → StateType
from_integer none = unknown
from_integer (some n) = number (whole n)

abbrev from_number : Option Number → StateType
from_number none = unknown
from_number (some n) = number n

pub record VehicleSensorDescription : Type 0 where
  pub key : String
  pub value_fn : VehicleState → StateType

abbrev pub retired_sensor_keys : List String
retired_sensor_keys =
    "hub_collector_health" ∷ "hub_fleet_cost" ∷ "hub_backup_age" ∷ "data_quality" ∷ []

abbrev pub vehicle_sensor_descriptions : List VehicleSensorDescription
vehicle_sensor_descriptions =
    record { key = "state_of_charge"; value_fn = λ v. from_integer v.state_of_charge }
    ∷ record { key = "charging_state"; value_fn = λ v. from_text v.charging_state }
    ∷ record { key = "charging_power"; value_fn = λ v. from_number v.charging_power_kw }
    ∷ record { key = "charge_limit"; value_fn = λ v. from_integer v.charge_limit_percent }
    ∷ record { key = "estimated_range"; value_fn = λ v. from_number v.estimated_range_km }
    ∷ record { key = "odometer"; value_fn = λ v. from_number v.odometer_km }
    ∷ record { key = "activity_state"; value_fn = λ v. from_text v.activity_state }
    ∷ record { key = "inside_temperature"; value_fn = λ v. from_number v.inside_temperature_c }
    ∷ record { key = "outside_temperature"; value_fn = λ v. from_number v.outside_temperature_c }
    ∷ record { key = "access_state"; value_fn = λ v. from_text v.access_state }
    ∷ record { key = "software_version"; value_fn = λ v. from_text v.software_version }
    ∷ record { key = "software_update_state"; value_fn = λ v. from_text v.software_update_state }
    ∷ record { key = "telemetry_age"; value_fn = λ v. from_integer v.telemetry_age_seconds }
    ∷ []

-- A sensor of a vehicle. Its unique id is `{hub_id}_{vehicle_id}_{key}`.
pub record VehicleSensor : Type 0 where
  pub hub_id : String
  pub vehicle_id : String
  pub description : VehicleSensorDescription

-- Whether the last update has succeeded, and the vehicle is there and was read.
unfoldable pub available : Bool → HubSnapshot → VehicleSensor → Bool
available last_update_success data_now sensor =
    if not last_update_success then false else elim (lookup sensor.vehicle_id data_now.vehicles) [
      | none ↦ false
      | some vehicle ↦ not vehicle.current_read_failed
    ]

unfoldable pub native_value : HubSnapshot → VehicleSensor → StateType
native_value data_now sensor = elim (lookup sensor.vehicle_id data_now.vehicles) [
  | none ↦ unknown
  | some vehicle ↦ sensor.description.value_fn vehicle
]

-- `text.endswith(suffix)`, on code points.
unfoldable pub ends_with : List ℕ → List ℕ → Bool
ends_with suffix [] = eq_codes [] suffix
ends_with suffix (c ∷ s) = eq_codes (c ∷ s) suffix || ends_with suffix s

-- The entities of the registry that stay when the platform is set up.
unfoldable pub keep_current : List String → List String
keep_current [] = []
keep_current (unique_id ∷ ids) =
    if any (λ k. ends_with (codes k) (codes unique_id)) retired_sensor_keys
    then keep_current ids
    else unique_id ∷ keep_current ids

-- What the closure `async_add_new_entities` keeps, with what it has asked Home Assistant for: the
-- sensors added, in order, and the devices renamed, the last one first.
pub record Platform : Type 0 where
  pub hub_added : Bool
  pub known_vehicle_ids : List String
  pub added : List VehicleSensor
  pub renamed : List (String × String)

abbrev pub no_sensors : Platform
no_sensors = record { hub_added = false; known_vehicle_ids = []; added = []; renamed = [] }

-- The sensors of a new vehicle.
unfoldable pub sensors_of : HubInfo → String → List VehicleSensor
sensors_of info vehicle_id =
    map (λ d. record { hub_id = info.hub_id; vehicle_id = vehicle_id; description = d })
      vehicle_sensor_descriptions

-- The device of a known vehicle follows the vehicle's name.
unfoldable pub refresh_name : Option String → VehicleState → String → Platform → Platform
refresh_name none vehicle vehicle_id p = p
refresh_name (some name) vehicle vehicle_id p =
    if str_eq name vehicle.name
    then p
    else record p { renamed = (vehicle_id, vehicle.name) ∷ p.renamed }

-- One turn of the loop over the vehicles, given the names in the device registry.
unfoldable pub add_vehicle :
    (String → Option String) → HubInfo → String → VehicleState → Platform → Platform
add_vehicle device_name info vehicle_id vehicle p =
    if occurs vehicle_id p.known_vehicle_ids
    then refresh_name (device_name vehicle_id) vehicle vehicle_id p
    else record p {
      known_vehicle_ids = vehicle_id ∷ p.known_vehicle_ids;
      added = p.added ++ sensors_of info vehicle_id;
    }

unfoldable pub add_vehicles : (String → Option String) → HubInfo → Vehicles → Platform → Platform
add_vehicles device_name info [] p = p
add_vehicles device_name info ((vehicle_id, vehicle) ∷ m) p =
    add_vehicles device_name info m (add_vehicle device_name info vehicle_id vehicle p)

-- There are no sensors of the Hub itself.
unfoldable pub async_add_new_entities : (String → Option String) → HubSnapshot → Platform → Platform
async_add_new_entities device_name data_now p =
    add_vehicles device_name data_now.info data_now.vehicles (record p { hub_added = true })
