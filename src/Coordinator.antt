-- ===== src/Coordinator.antt =====
-- custom_components/teslatlas_hub/coordinator.py: polling, backoff and rotation of the bearer. Home
-- Assistant's `async_update_entry` is the assignment of the entry's data that it is documented to be.
-- The rotation lock is held over the whole of a rotation, so a rotation is one task here.
pub mod Polling
pub mod Rotation
use teslatlas_home_assistant.Prelude.{
  ℕ, zero, suc, ◌+◌, ◌*◌, String, Bool, true, false, not, ◌||◌, Option, none, some, if◌then◌else◌,
}
use teslatlas_home_assistant.Prelude.Int.{ℤ, pos, ◌-ℤ◌, ltb_ℤ}
use teslatlas_home_assistant.Errors.{
  Error, Result, ok, err, is_authentication, is_connection, is_contract,
}
use teslatlas_home_assistant.Values.{Value, Dict, null, int, str, get, has, put, is_text}
use teslatlas_home_assistant.Task.{Task, pure, raise, lift, gets, modify, require, ◌>>=◌, ◌>>◌}
use teslatlas_home_assistant.Credentials.{
  Credential, epoch_milliseconds, validate_epoch_milliseconds, validate_current_hub_credential,
}
use teslatlas_home_assistant.Models.{HubSnapshot, PairingResult}
use teslatlas_home_assistant.Client.{Env, Client, now}
use teslatlas_home_assistant.Client.Calls.{async_rotate, set_bearer, async_close}
use teslatlas_home_assistant.Client.Snapshot.{async_snapshot}

abbrev pub poll_interval_seconds : ℕ
poll_interval_seconds = 30

-- 7 days
abbrev pub rotation_lead_time_ms : ℕ
rotation_lead_time_ms = 7 * 24 * 60 * 60 * 1000

-- `POLL_BACKOFF_SECONDS[min(failures, 3)]`
unfoldable pub backoff : ℕ → ℕ
backoff zero = 30
backoff (suc zero) = 60
backoff (suc (suc zero)) = 120
backoff (suc (suc (suc n))) = 300

pub record Coordinator : Type 0 where
  pub client : Client
  -- the data of the config entry
  pub entry_data : Dict
  pub failure_count : ℕ
  pub update_interval : ℕ
  pub is_shut_down : Bool

-- A method of the client, called from the coordinator.
abbrev pub on_client : {A : Type 0} → Task Client A → Task Coordinator A
on_client m s = let (r, c) = m s.client in (r, record s { client = c })

-- `data[key]`
abbrev pub index : String → Dict → Result Value
index k d = if has k d then ok (get k d) else err Error.key_error

abbrev pub now_ms : Env → Task Coordinator ℤ
now_ms env = do reading ← on_client (now env); lift (epoch_milliseconds reading)

-- The entry's data after a rotation: the token and its expiry are replaced.
unfoldable pub with_token : Dict → String → ℤ → Dict
with_token d token expires_at_ms =
    put "token_expires_at_ms" (int expires_at_ms) (put "access_token" (str token) d)

-- The checks on what a rotation has brought: the entry's Hub, the entry's device, and a credential
-- that is admitted at the clock's reading.
unfoldable pub admit_rotated : Env → PairingResult → Task Coordinator Credential
admit_rotated env rotated = do
  entry ← gets (λ s. s.entry_data)
  hub_id ← lift (index "hub_id" entry)
  require (is_text rotated.info.hub_id hub_id) Error.authentication
  require (is_text rotated.device_id (get "device_id" entry)) Error.authentication
  reading ← now_ms env
  lift (
      validate_current_hub_credential (str rotated.access_token) (str rotated.device_id)
        (int rotated.expires_at_ms) reading)

-- The entry is updated first, the client then.
unfoldable pub activate : Env → PairingResult → Task Coordinator (Unit {0})
activate env rotated = do
  modify (λ s. record s {
    entry_data = with_token s.entry_data rotated.access_token rotated.expires_at_ms;
  })
  on_client (set_bearer env (str rotated.access_token) (int rotated.expires_at_ms))

-- What follows the decision that a rotation is due.
unfoldable pub rotate_bearer : Env → Task Coordinator (Unit {0})
rotate_bearer env = do
  rotated ← on_client (async_rotate env)
  admit_rotated env rotated
  activate env rotated

-- More than the lead time is left at the reading.
unfoldable pub is_early : ℤ → ℤ → Bool
is_early expires_at_ms reading = ltb_ℤ (pos rotation_lead_time_ms) (expires_at_ms -ℤ reading)

-- With an expiry stored.
unfoldable pub rotate_stored : Env → Value → Task Coordinator (Unit {0})
rotate_stored env stored = do
  expires_at_ms ← lift (validate_epoch_milliseconds stored)
  reading ← now_ms env
  if is_early expires_at_ms reading then pure tt else rotate_bearer env

unfoldable pub rotate_unless_early : Env → Value → Task Coordinator (Unit {0})
rotate_unless_early env null = pure tt
rotate_unless_early env stored = rotate_stored env stored

unfoldable pub async_rotate_bearer_if_due : Env → Task Coordinator (Unit {0})
async_rotate_bearer_if_due env = do
  stored ← gets (λ s. get "token_expires_at_ms" s.entry_data)
  rotate_unless_early env stored

unfoldable pub poll : Env → Task Coordinator HubSnapshot
poll env = do async_rotate_bearer_if_due env; on_client (async_snapshot env)

count_failure : Coordinator → Coordinator
count_failure s = record s {
  failure_count = suc s.failure_count;
  update_interval = backoff s.failure_count;
}

-- How an update ends: with a snapshot, with one of Home Assistant's exceptions
-- `ConfigEntryAuthFailed` and `UpdateFailed`, or with an exception that is not handled.
pub data Update : Type 0 where
  updated : HubSnapshot → Update
  auth_failed update_failed : Update
  raised : Error → Update

-- The `except` clauses around a poll.
fail_poll : Error → Coordinator → Update × Coordinator
unfolding is_authentication is_connection is_contract count_failure
fail_poll e s =
    if is_authentication e
    then (auth_failed, s)
    else if is_connection e || is_contract e
    then (update_failed, count_failure s)
    else (raised e, s)

-- What follows a snapshot.
accept_poll : HubSnapshot → Coordinator → Update × Coordinator
accept_poll snapshot s =
    if not (has "hub_id" s.entry_data)
    then (raised Error.key_error, s)
    else if not (is_text snapshot.info.hub_id (get "hub_id" s.entry_data))
    then (auth_failed, s)
    else (updated snapshot, record s { failure_count = 0; update_interval = poll_interval_seconds })

unfoldable pub finish_poll : Result HubSnapshot → Coordinator → Update × Coordinator
unfolding fail_poll accept_poll
finish_poll (err e) s = fail_poll e s
finish_poll (ok snapshot) s = accept_poll snapshot s

unfoldable pub async_update_data : Env → Coordinator → Update × Coordinator
async_update_data env s = let (r, s') = poll env s in finish_poll r s'

-- The first call shuts the coordinator down and closes the client; later calls wait for it.
unfoldable pub async_shutdown : Coordinator → Coordinator
async_shutdown s =
    if s.is_shut_down then s else record s { is_shut_down = true; client = async_close s.client }
