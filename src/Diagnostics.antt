-- ===== src/Diagnostics.antt =====
-- custom_components/teslatlas_hub/diagnostics.py. Home Assistant's `async_redact_data` replaces the
-- value of every listed key that is not null or the empty text, in nested objects too; it is an
-- argument here. The time of a snapshot is kept as it is, not as text.
pub mod Privacy
use teslatlas_home_assistant.Prelude.{
  ℕ, zero, suc, ◌+◌, String, ◌≡◌, refl, Bool, true, false, List, [], ◌∷◌, Option, none, some,
  length, arith, if◌then◌else◌,
}
use teslatlas_home_assistant.Values.{Dict}
use teslatlas_home_assistant.Credentials.{Datetime}
use teslatlas_home_assistant.Models.{VehicleState, Vehicles, HubSnapshot}

abbrev pub to_redact : List String
to_redact =
    "access_token" ∷ "host" ∷ "hub_id" ∷ "latitude" ∷ "longitude" ∷ "pairing_secret" ∷ "port"
    ∷ "tls_pin" ∷ "device_id" ∷ []

-- The number of vehicles whose current read has failed.
unfoldable pub failure_count : Vehicles → ℕ
failure_count [] = 0
failure_count ((k, v) ∷ m) =
    let rest = failure_count m in if v.current_read_failed then suc rest else rest

pub record Runtime : Type 0 where
  pub available : Bool
  pub protocol_version : Option String
  pub capabilities : List String
  pub vehicle_count : ℕ
  pub current_read_failure_count : ℕ
  pub received_at : Option Datetime

-- The runtime part, of the coordinator's last success and its snapshot, if there is one; `sorted` is
-- Python's.
unfoldable pub runtime : (List String → List String) → Bool → Option HubSnapshot → Runtime
runtime sorted success none = record {
  available = false;
  protocol_version = none;
  capabilities = [];
  vehicle_count = 0;
  current_read_failure_count = 0;
  received_at = none;
}
runtime sorted success (some snapshot) = record {
  available = success;
  protocol_version = some snapshot.info.protocol_version;
  capabilities = sorted snapshot.info.capabilities;
  vehicle_count = length snapshot.vehicles;
  current_read_failure_count = failure_count snapshot.vehicles;
  received_at = some snapshot.received_at;
}

pub record Report : Type 0 where
  pub entry_data : Dict
  pub entry_version : ℕ × ℕ
  pub runtime_part : Runtime

unfoldable pub async_get_config_entry_diagnostics :
    (Dict → List String → Dict)
    → (List String → List String)
    → Dict
    → ℕ × ℕ
    → Bool
    → Option HubSnapshot
    → Report
async_get_config_entry_diagnostics redact sorted entry_data version success snapshot = record {
  entry_data = redact entry_data to_redact;
  entry_version = version;
  runtime_part = runtime sorted success snapshot;
}
