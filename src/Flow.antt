-- ===== src/Flow.antt =====
-- custom_components/teslatlas_hub/config_flow.py: the state of `TeslatlasHubConfigFlow` and what it
-- meets outside. The children hold its checks, its steps and their properties. The form schemas are
-- data for Home Assistant's frontend; of a form the step and the errors are kept here.
pub mod Checks
pub mod User
pub mod Reauth
pub mod Reconfigure
pub mod Access
pub mod Updates
pub mod Cancel
pub mod Entry
pub mod Origin
use teslatlas_home_assistant.Prelude.{ℕ, suc, String, Bool, true, false, Option, none, some}
use teslatlas_home_assistant.Errors.{Error}
use teslatlas_home_assistant.Values.{Value, Dict, null, bool, int, str, get, put}
use teslatlas_home_assistant.Models.{HubEndpoint, HubInfo, PairingResult}
use teslatlas_home_assistant.Client.{Env, Wire}

-- The errors that a form shows under "base".
pub data Problem : Type 0 where
  cannot_connect invalid_auth protocol_not_ready invalid_contract : Problem
  wrong_hub invalid_pairing_secret : Problem

pub data StepId : Type 0 where
  user pair pair_validate : StepId
  reauth_confirm reauth_validate : StepId
  reconfigure_confirm reconfigure_tls reconfigure_pair reconfigure_validate : StepId

pub data Reason : Type 0 where
  wrong_hub reauth_cancelled replacement_not_approved : Reason
  already_configured already_in_progress : Reason

-- A form that Home Assistant shows: its step and its error.
abbrev pub Form : Type 0
Form = StepId × Option Problem

-- A pairing result, or an endpoint, as an object: `is` compares the serial numbers.
pub record Pending : Type 0 where
  pub serial : ℕ
  pub result : PairingResult

pub record Candidate : Type 0 where
  pub serial : ℕ
  pub endpoint : HubEndpoint

-- The attributes of the flow, the data of the entry that it is about, the number of objects that it
-- has made, and what the clients that it made have done.
pub record Flow : Type 0 where
  pub endpoint : Option HubEndpoint
  pub info : Option HubInfo
  pub pending : Option Pending
  pub replacement_endpoint : Option Candidate
  pub replacement_hub_id : Option Value
  pub replacement_approved : Bool
  pub flow_removed : Bool
  pub reauth_generation : ℕ
  pub is_reauth : Bool
  pub cur_step : Option Form
  pub entry_data : Dict
  pub serials : ℕ
  pub wire : Wire

-- What a step ends with: a form, an abort, a new entry, the update of the entry (after which Home
-- Assistant reloads it and ends the flow), or an exception.
pub data Outcome : Type 0 where
  form : StepId → Option Problem → Outcome
  abort : Reason → Outcome
  create_entry : String → Dict → Outcome
  updated : Outcome
  raised : Error → Outcome

-- What the flow does not decide: what its clients meet, what other calls of the same flow do to it
-- while a step waits, which identities another flow in progress has and which ones Home
-- Assistant has entries for, and the identity of the entry that the flow is about.
pub record World : Type 0 where
  pub env : Env
  pub meanwhile : Flow → Flow
  pub is_in_progress : String → Bool
  pub is_configured : String → Bool
  pub entry_unique_id : String

-- `async_remove`
unfoldable pub async_remove : Flow → Flow
async_remove f = record f {
  flow_removed = true;
  reauth_generation = suc f.reauth_generation;
  pending = elim f.is_reauth [ true ↦ none | false ↦ f.pending ];
}

-- `_clear_replacement`
abbrev pub clear_replacement : Flow → Flow
clear_replacement f = record f {
  replacement_endpoint = none;
  replacement_hub_id = none;
  replacement_approved = false;
  pending = none;
}

-- `self._pending_pairing_result = result`, of a new object.
abbrev pub set_pending : PairingResult → Flow → Flow
set_pending r f = record f {
  pending = some (record { serial = f.serials; result = r });
  serials = suc f.serials;
}

-- The endpoint that the data of an entry gives.
unfoldable pub entry_endpoint : Dict → HubEndpoint
entry_endpoint d = record {
  host = get "host" d;
  port = get "port" d;
  use_tls = get "use_tls" d;
  tls_pin = get "tls_pin" d;
}

-- The credential keys and the endpoint keys of a `data_updates`.
unfoldable pub put_credential : PairingResult → Dict → Dict
put_credential r d =
    put "token_expires_at_ms" (int r.expires_at_ms)
      (put "device_id" (str r.device_id) (put "access_token" (str r.access_token) d))

unfoldable pub put_endpoint : HubEndpoint → Dict → Dict
put_endpoint e d =
    put "tls_pin" e.tls_pin (put "use_tls" e.use_tls (put "port" e.port (put "host" e.host d)))
