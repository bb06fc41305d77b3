-- ===== src/Models.antt =====
-- custom_components/teslatlas_hub/models.py: the integration-side records. The mapping of vehicles
-- is the list of its entries in insertion order.
pub mod Vehicles
use teslatlas_home_assistant.Prelude.{
  String, Bool, List, [], ◌∷◌, Option, none, some, str_eq, if◌then◌else◌,
}
use teslatlas_home_assistant.Prelude.Int.{ℤ}
use teslatlas_home_assistant.Values.{Value, Float}
use teslatlas_home_assistant.Credentials.{Datetime}

-- The fields come from config entries and forms, so they may hold any value.
pub record HubEndpoint : Type 0 where
  pub host : Value
  pub port : Value
  pub use_tls : Value
  pub tls_pin : Value

pub record HubInfo : Type 0 where
  pub hub_id : String
  pub name : String
  pub protocol_version : String
  pub capabilities : List String

pub record PairingResult : Type 0 where
  pub info : HubInfo
  pub access_token : String
  pub device_id : String
  pub expires_at_ms : ℤ

-- A number that Home Assistant can show.
pub data Number : Type 0 where
  whole : ℤ → Number
  real : Float → Number

pub record HubStatus : Type 0 where
  pub collector_health : Option String
  pub fleet_cost_usd : Option Number
  pub backup_age_seconds : Option ℤ

-- `HubStatus()`
abbrev pub no_status : HubStatus
no_status = record { collector_health = none; fleet_cost_usd = none; backup_age_seconds = none }

pub record VehicleState : Type 0 where
  pub vehicle_id : String
  pub name : String
  pub state_of_charge : Option ℤ
  pub charging_state : Option String
  pub charging_power_kw : Option Number
  pub charge_limit_percent : Option ℤ
  pub estimated_range_km : Option Number
  pub odometer_km : Option Number
  pub activity_state : Option String
  pub inside_temperature_c : Option Number
  pub outside_temperature_c : Option Number
  pub access_state : Option String
  pub software_version : Option String
  pub software_update_state : Option String
  pub telemetry_age_seconds : Option ℤ
  pub data_quality : Option String
  pub current_read_failed : Bool

-- `VehicleState(vehicle_id=…, name=…, current_read_failed=…)`, all else unknown.
abbrev pub unknown_vehicle : String → String → Bool → VehicleState
unknown_vehicle vehicle_id name failed = record {
  vehicle_id = vehicle_id;
  name = name;
  state_of_charge = none;
  charging_state = none;
  charging_power_kw = none;
  charge_limit_percent = none;
  estimated_range_km = none;
  odometer_km = none;
  activity_state = none;
  inside_temperature_c = none;
  outside_temperature_c = none;
  access_state = none;
  software_version = none;
  software_update_state = none;
  telemetry_age_seconds = none;
  data_quality = none;
  current_read_failed = failed;
}

abbrev pub Vehicles : Type 0
Vehicles = List (String × VehicleState)

-- `vehicles.get(key)`
unfoldable pub lookup : String → Vehicles → Option VehicleState
lookup k [] = none
lookup k ((j, v) ∷ m) = if str_eq j k then some v else lookup k m

-- `vehicles[key] = vehicle`: a known key keeps its place.
unfoldable pub insert : String → VehicleState → Vehicles → Vehicles
insert k v [] = (k, v) ∷ []
insert k v ((j, w) ∷ m) = if str_eq j k then (j, v) ∷ m else (j, w) ∷ insert k v m

-- `{vehicle.vehicle_id: vehicle for vehicle in vehicles}`, on top of a mapping.
unfoldable pub collect : Vehicles → List VehicleState → Vehicles
collect m [] = m
collect m (v ∷ vs) = collect (insert v.vehicle_id v m) vs

pub record HubSnapshot : Type 0 where
  pub info : HubInfo
  pub status : HubStatus
  pub vehicles : Vehicles
  pub received_at : Datetime

unfoldable pub create : HubInfo → HubStatus → List VehicleState → Datetime → HubSnapshot
create info status vehicles received_at = record {
  info = info;
  status = status;
  vehicles = collect [] vehicles;
  received_at = received_at;
}

unfoldable pub with_vehicle : HubSnapshot → VehicleState → Datetime → HubSnapshot
with_vehicle s vehicle received_at = record s {
  vehicles = insert vehicle.vehicle_id vehicle s.vehicles;
  received_at = received_at;
}

pub record HubEvent : Type 0 where
  pub event_id : String
  pub vehicle : VehicleState
  pub received_at : Datetime

unfoldable pub apply : HubEvent → HubSnapshot → HubSnapshot
unfolding with_vehicle
apply e s = with_vehicle s e.vehicle e.received_at
