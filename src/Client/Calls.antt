-- ===== src/Client/Calls.antt =====
-- The operations of `CurrentHubClient` that make single requests: `async_probe`, `async_pair`,
-- `async_rotate`, `_async_current`, and `set_bearer` and `async_close`.
use teslatlas_home_assistant.Prelude.{
  suc, String, Bool, true, false, not, Option, none, some, if◌then◌else◌,
}
use teslatlas_home_assistant.Errors.{Error}
use teslatlas_home_assistant.Values.{Value, Dict, null, get, is_text}
use teslatlas_home_assistant.Task.{Task, pure, lift, gets, modify, require, ◌>>=◌, ◌>>◌}
use teslatlas_home_assistant.Credentials.{
  epoch_milliseconds, validate_bearer, validate_current_hub_credential,
}
use teslatlas_home_assistant.Models.{HubInfo, PairingResult, VehicleState, unknown_vehicle}
use teslatlas_home_assistant.Payload.{uuid, vehicle_summary, telemetry_age}
use teslatlas_home_assistant.Client.{Env, Client, discovery, rotate, current, claim, now}
use teslatlas_home_assistant.Client.Decode.{assert_payload, read_discovery, read_fields}
use teslatlas_home_assistant.Client.Http.{Mode, async_json}

abbrev pub anonymous : Mode
anonymous = record { authenticated = false; pairing = false; allow_not_found = false }

abbrev pub with_bearer : Mode
with_bearer = record { authenticated = true; pairing = false; allow_not_found = false }

abbrev pub or_nothing : Mode
or_nothing = record { authenticated = true; pairing = false; allow_not_found = true }

abbrev pub claiming : Mode
claiming = record { authenticated = false; pairing = true; allow_not_found = false }

unfoldable pub async_probe : Env → Task Client HubInfo
async_probe env = do
  reply ← async_json env anonymous discovery none
  payload ← lift (assert_payload reply)
  lift (read_discovery payload)

-- `self._expected_hub_id is not None and info.hub_id != self._expected_hub_id`
unfoldable pub is_other_hub : Value → HubInfo → Bool
is_other_hub null info = false
is_other_hub expected info = not (is_text info.hub_id expected)

-- Discovery, held against the Hub that is expected.
unfoldable pub identify : Env → Task Client HubInfo
identify env = do
  info ← async_probe env
  expected ← gets (λ c. c.expected_hub_id)
  require (not (is_other_hub expected info)) Error.identity
  pure info

-- The credential that a claim or a rotation has issued, admitted at the clock's reading.
unfoldable pub issue : Env → HubInfo → Dict → Task Client PairingResult
issue env info payload = do
  reading ← now env
  now_ms ← lift (epoch_milliseconds reading)
  c ← lift (
      validate_current_hub_credential (get "access_token" payload) (get "device_id" payload)
        (get "expires_at_ms" payload) now_ms)
  pure (record {
    info = info;
    access_token = c.access_token;
    device_id = c.device_id;
    expires_at_ms = c.expires_at_ms;
  })

-- With the secret and the device name given, as every caller does.
unfoldable pub async_pair : Env → Value → Value → Value → Task Client PairingResult
async_pair env pairing_id secret device_name = do
  info ← identify env
  id ← lift (uuid pairing_id)
  reply ← async_json env claiming (claim id) (some (secret, device_name))
  payload ← lift (assert_payload reply)
  issue env info payload

unfoldable pub async_rotate : Env → Task Client PairingResult
async_rotate env = do
  info ← identify env
  reply ← async_json env with_bearer rotate none
  payload ← lift (assert_payload reply)
  issue env info payload

unfoldable pub set_bearer : Env → Value → Value → Task Client (Unit {0})
set_bearer env access_token expires_at_ms = do
  reading ← now env
  now_ms ← lift (epoch_milliseconds reading)
  lift (validate_bearer access_token expires_at_ms now_ms)
  modify (λ c. record c { bearer_token = access_token; bearer_expires_at_ms = expires_at_ms })

-- 404 is the answer that nothing was observed yet.
unfoldable pub observation : Env → String → String → Option Dict → Task Client VehicleState
observation env vehicle_id name none = pure (unknown_vehicle vehicle_id name false)
observation env vehicle_id name (some payload) = do
  vehicle ← lift (read_fields vehicle_id name payload)
  reading ← now env
  age ← lift (telemetry_age (get "observed_at_ms" payload) reading)
  pure (record vehicle { telemetry_age_seconds = age })

unfoldable pub async_current : Env → Value → Task Client VehicleState
async_current env summary = do
  v ← lift (vehicle_summary summary)
  reply ← async_json env or_nothing (current v.0) none
  observation env v.0 v.1 reply

-- The first call closes the client, and detaches the session wrapper if the client owns it; later
-- calls wait for the first one's clean-up.
unfoldable pub async_close : Client → Client
async_close c = if c.closed then c else record c {
  closed = true;
  detached = if c.owns_session_wrapper then suc c.detached else c.detached;
}
