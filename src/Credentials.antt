-- ===== src/Credentials.antt =====
-- custom_components/teslatlas_hub/credentials.py: admission of issued credentials. A validator of
-- the source that returns nothing returns here the value it has narrowed, which its callers go on
-- using; error texts are not modelled.
pub mod Admission
pub mod Clock
use teslatlas_home_assistant.Prelude.{
  ℕ, ◌+◌, ◌-◌, ◌*◌, ◌^◌, String, Bool, true, false, ◌&&◌, not, List, ◌==◌, length, all,
}
use teslatlas_home_assistant.Prelude.Int.{ℤ, pos, negsuc, leb_ℤ, fdiv}
use teslatlas_home_assistant.Prelude.Text.{codes, is_lower_hex}
use teslatlas_home_assistant.Errors.{Error, Result, ok, err, guard, ◌>>=◌, ◌>>◌}
use teslatlas_home_assistant.Values.{Value, int, str}
use teslatlas_home_assistant.Uuid.{is_own_uuid}

abbrev pub signed64_min : ℤ
signed64_min = negsuc (2 ^ 63 - 1)

abbrev pub signed64_max : ℤ
signed64_max = pos (2 ^ 63 - 1)

-- A `datetime`: whether it carries a UTC offset, and its microseconds since the epoch.
pub record Datetime : Type 0 where
  pub aware : Bool
  pub micros : ℤ

-- `(now - _EPOCH) // _MILLISECOND`
unfoldable pub epoch_milliseconds : Datetime → Result ℤ
epoch_milliseconds now = do guard now.aware Error.contract; ok (fdiv now.micros 1000)

unfoldable pub is_signed64 : ℤ → Bool
is_signed64 n = leb_ℤ signed64_min n && leb_ℤ n signed64_max

-- A `bool` is refused before the test for `int`, of which it is a subclass.
unfoldable pub validate_epoch_milliseconds : Value → Result ℤ
validate_epoch_milliseconds (int n) = do guard (is_signed64 n) Error.contract; ok n
validate_epoch_milliseconds _ = err Error.contract

-- 64 characters, all of them in "0123456789abcdef".
unfoldable pub is_hex64 : String → Bool
is_hex64 s = length (codes s) == 64 && all is_lower_hex (codes s)

unfoldable pub validate_access_token : Value → Result String
validate_access_token (str s) = do guard (is_hex64 s) Error.contract; ok s
validate_access_token _ = err Error.contract

unfoldable pub validate_bearer : Value → Value → ℤ → Result (String × ℤ)
validate_bearer access_token expires_at_ms now_ms = do
  token ← validate_access_token access_token
  expiry ← validate_epoch_milliseconds expires_at_ms
  guard (not (leb_ℤ expiry now_ms)) Error.credential_expired
  ok (token, expiry)

unfoldable pub validate_device_id : Value → Result String
validate_device_id (str s) = do guard (is_own_uuid (codes s)) Error.contract; ok s
validate_device_id _ = err Error.contract

-- One issued credential, with the types that its validation has established.
pub record Credential : Type 0 where
  pub access_token : String
  pub device_id : String
  pub expires_at_ms : ℤ

unfoldable pub validate_current_hub_credential : Value → Value → Value → ℤ → Result Credential
validate_current_hub_credential access_token device_id expires_at_ms now_ms = do
  bearer ← validate_bearer access_token expires_at_ms now_ms
  device ← validate_device_id device_id
  ok (record { access_token = bearer.0; device_id = device; expires_at_ms = bearer.1 })
