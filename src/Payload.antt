-- ===== src/Payload.antt =====
-- custom_components/teslatlas_hub/current_hub_client.py, the functions that read one field of a
-- decoded response: `tls_pin_bytes`, `_uuid`, `_optional_number`, `_optional_integer`,
-- `_optional_string`, `_vehicle_summary` and `_telemetry_age`.
pub mod Fields
use teslatlas_home_assistant.Prelude.{
  ℕ, ◌+◌, ◌-◌, ◌*◌, ◌/◌, ◌%◌, ◌^◌, suc, String, Bool, true, false, ◌&&◌, not, Option, none, some,
  leb, ltb, ◌==◌, if◌then◌else◌,
}
use teslatlas_home_assistant.Prelude.Int.{ℤ, pos, negsuc, pos_part, neg_part, ◌-ℤ◌, ltb_ℤ, fdiv}
use teslatlas_home_assistant.Prelude.Text.{codes}
use teslatlas_home_assistant.Errors.{Error, Result, ok, err, guard, ◌>>=◌, ◌>>◌}
use teslatlas_home_assistant.Values.{
  Value, Dict, Decimal, Float, null, bool, int, float, decimal, str, list, dict, scaled_up,
  scaled_down, rounded, not_finite, get, nonempty,
}
use teslatlas_home_assistant.Uuid.{is_own_uuid}
use teslatlas_home_assistant.Models.{Number, whole, real}
use teslatlas_home_assistant.Credentials.{
  Datetime, epoch_milliseconds, validate_epoch_milliseconds, is_signed64, is_hex64,
}

-- The pin as text; its decoding by `bytes.fromhex` loses nothing.
unfoldable pub tls_pin_bytes : Value → Result String
tls_pin_bytes (str s) = do guard (is_hex64 s) Error.contract; ok s
tls_pin_bytes _ = err Error.contract

unfoldable pub uuid : Value → Result String
uuid (str s) = do guard (is_own_uuid (codes s)) Error.contract; ok s
uuid _ = err Error.contract

-- The least magnitude that no double represents, even rounded: 2^1024 - 2^970.
unfoldable pub float_limit : ℕ
float_limit = 2 ^ 1024 - 2 ^ 970

abbrev pub magnitude : ℤ → ℕ
magnitude n = pos_part n + neg_part n

-- `float(value)` of a decimal: too large a magnitude gives an infinity.
unfoldable pub to_float : Decimal → Float
to_float (scaled_up c e) =
    if ltb (magnitude c * 10 ^ e) float_limit then rounded (scaled_up c e) else not_finite
to_float (scaled_down c e) =
    if ltb (magnitude c) (float_limit * 10 ^ e) then rounded (scaled_down c e) else not_finite
to_float _ = not_finite

abbrev finite_or_unknown : Float → Option Number
finite_or_unknown (rounded d) = some (real (rounded d))
finite_or_unknown not_finite = none

-- `math.isfinite(value)` raises `OverflowError` on an integer that no double can hold.
unfoldable pub number : Value → Result (Option Number)
unfolding to_float
number null = ok none
number (decimal (scaled_up c e)) = ok (finite_or_unknown (to_float (scaled_up c e)))
number (decimal (scaled_down c e)) = ok (finite_or_unknown (to_float (scaled_down c e)))
number (decimal _) = err Error.contract
number (float (rounded d)) = ok (some (real (rounded d)))
number (float not_finite) = err Error.contract
number (int n) = ok (if ltb (magnitude n) float_limit then some (whole n) else none)
number _ = err Error.contract

unfoldable pub optional_number : Dict → String → Result (Option Number)
optional_number payload key = number (get key payload)

-- n * k, for a positive k
unfoldable pub scale : ℤ → ℕ → ℤ
scale (pos n) k = pos (n * k)
scale (negsuc n) k = negsuc (suc n * k - 1)

-- The integer that a decimal is, if it is one. `≤` with a NaN is signalled as an error.
unfoldable pub integral : Decimal → Result ℤ
integral (scaled_up c e) = ok (scale c (10 ^ e))
integral (scaled_down (pos n) e) =
    if n % 10 ^ e == 0 then ok (pos (n / 10 ^ e)) else err Error.contract
integral (scaled_down (negsuc n) e) =
    if suc n % 10 ^ e == 0 then ok (negsuc (suc n / 10 ^ e - 1)) else err Error.contract
integral Decimal.infinite = err Error.contract
integral Decimal.nan = err Error.arithmetic_error

abbrev in_signed64 : ℤ → Result (Option ℤ)
in_signed64 n = do guard (is_signed64 n) Error.contract; ok (some n)

-- The source tests the range before the integrality; the two failures are the same error, and an
-- integral decimal is in the range when the integer that it is is there.
unfoldable pub integer : Value → Result (Option ℤ)
integer null = ok none
integer (int n) = in_signed64 n
integer (decimal d) = integral d >>= in_signed64
integer _ = err Error.contract

unfoldable pub optional_integer : Dict → String → Result (Option ℤ)
optional_integer payload key = integer (get key payload)

unfoldable pub text : Value → Result (Option String)
text null = ok none
text (str s) = ok (some s)
text _ = err Error.contract

unfoldable pub optional_string : Dict → String → Result (Option String)
optional_string payload key = text (get key payload)

-- `text or default`
abbrev pub or_default : Option String → String → String
or_default none d = d
or_default (some s) d = if nonempty s then s else d

-- The identifier and the display name of one entry of the vehicle list.
unfoldable pub vehicle_summary : Value → Result (String × String)
vehicle_summary (dict summary) = do
  vehicle_id ← uuid (get "vehicle_id" summary)
  display_name ← text (get "display_name" summary)
  ok (vehicle_id, or_default display_name "Tesla vehicle")
vehicle_summary _ = err Error.contract

abbrev pub clock_skew_seconds : ℕ
clock_skew_seconds = 300

-- `max(0, n)`
abbrev pub at_least_zero : ℤ → ℤ
at_least_zero (pos n) = pos n
at_least_zero (negsuc n) = pos 0

abbrev age : ℤ → Result (Option ℤ)
age age_ms =
    if ltb_ℤ age_ms (negsuc (clock_skew_seconds * 1000 - 1))
    then err Error.contract
    else ok (some (at_least_zero (fdiv age_ms 1000)))

unfoldable pub telemetry_age : Value → Datetime → Result (Option ℤ)
telemetry_age null now = ok none
telemetry_age observed_at_ms now = do
  observed ← validate_epoch_milliseconds observed_at_ms
  now_ms ← epoch_milliseconds now
  age (now_ms -ℤ observed)
