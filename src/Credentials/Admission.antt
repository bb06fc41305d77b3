-- ===== src/Credentials/Admission.antt =====
-- Exactly which values are admitted as issued credentials.
use teslatlas_home_assistant.Prelude.{◌≡◌, ◌≢◌, ◌↔◌, String, true, false, arith, inl, inr}
use teslatlas_home_assistant.Prelude.Int.{ℤ, ◌≤ℤ◌, ◌<ℤ◌, leb_ℤ}
use teslatlas_home_assistant.Prelude.Text.{codes}
use teslatlas_home_assistant.Errors.{Error, ok, err, Result-cases}
use teslatlas_home_assistant.Values.{Value, int, str}
use teslatlas_home_assistant.Uuid.Canonical.{is_canonical, is_own_uuid-canonical}
use teslatlas_home_assistant.Credentials.{
  Credential, signed64_min, signed64_max, is_hex64, is_signed64, validate_epoch_milliseconds,
  validate_access_token, validate_bearer, validate_device_id, validate_current_hub_credential,
}

-- What the credential contract asks of the three fields of a credential that is used at `now`.
pub record IsAdmissible (now : ℤ) (c : Credential) : Type 0 where
  pub token_form : is_hex64 c.access_token ≡ true
  pub device_form : is_canonical (codes c.device_id) ≡ true
  pub expiry_low : signed64_min ≤ℤ c.expires_at_ms
  pub expiry_high : c.expires_at_ms ≤ℤ signed64_max
  pub fresh : now <ℤ c.expires_at_ms

pub validate_access_token_sound :
    (v : Value) (s : String) → validate_access_token v ≡ ok s → (v ≡ str s) × (is_hex64 s ≡ true)
unfolding validate_access_token
validate_access_token_sound (str t) s h = ground arith
validate_access_token_sound _ s h = cc

pub validate_epoch_milliseconds_sound :
    (v : Value) (n : ℤ)
    → validate_epoch_milliseconds v ≡ ok n
    → (v ≡ int n) × (signed64_min ≤ℤ n) × (n ≤ℤ signed64_max)
unfolding validate_epoch_milliseconds is_signed64
validate_epoch_milliseconds_sound (int m) n h = ground arith
validate_epoch_milliseconds_sound _ n h = cc

validate_device_id_sound :
    (v : Value) (s : String)
    → validate_device_id v ≡ ok s
    → (v ≡ str s) × (is_canonical (codes s) ≡ true)
unfolding validate_device_id
validate_device_id_sound (str t) s h = ground (arith, is_own_uuid-canonical (codes t))
validate_device_id_sound _ s h = cc

validate_bearer_sound :
    (t e : Value) (now : ℤ) (s : String) (n : ℤ)
    → validate_bearer t e now ≡ ok (s, n)
    → (validate_access_token t ≡ ok s) × (validate_epoch_milliseconds e ≡ ok n) × (now <ℤ n)
unfolding validate_bearer
validate_bearer_sound t e now s n h = ground arith

validate_current_hub_credential_sound :
    (t d e : Value) (now : ℤ) (c : Credential)
    → validate_current_hub_credential t d e now ≡ ok c
    → (validate_bearer t e now ≡ ok (c.access_token, c.expires_at_ms))
      × (validate_device_id d ≡ ok c.device_id)
unfolding validate_current_hub_credential
validate_current_hub_credential_sound t d e now c h = ground arith

epoch_admitted :
    (n : ℤ) → signed64_min ≤ℤ n → n ≤ℤ signed64_max → validate_epoch_milliseconds (int n) ≡ ok n
unfolding validate_epoch_milliseconds is_signed64
epoch_admitted n low high = ground arith

admitted :
    (now : ℤ) (c : Credential)
    → IsAdmissible now c
    → validate_current_hub_credential
        (str c.access_token)
        (str c.device_id)
        (int c.expires_at_ms)
        now
      ≡ ok c
unfolding validate_current_hub_credential validate_bearer validate_access_token validate_device_id
admitted now c a =
    let fresh : leb_ℤ c.expires_at_ms now ≡ false = ground (arith, a.fresh) in
    rw (a.token_form, epoch_admitted c.expires_at_ms a.expiry_low a.expiry_high, fresh)
      (rw (is_own_uuid-canonical, a.device_form))

-- The three values of a response are admitted at `now`, as the credential `c`, exactly when they
-- are the token, the device id and the expiry of `c`, the token is 64 lowercase hexadecimal
-- digits, the device id is a canonical UUID, and the expiry is a signed 64-bit number after `now`.
pub validate_current_hub_credential-IsAdmissible :
    (t d e : Value) (now : ℤ) (c : Credential)
    → (validate_current_hub_credential t d e now ≡ ok c) ↔ (
        (t ≡ str c.access_token)
        × (d ≡ str c.device_id)
        × (e ≡ int c.expires_at_ms)
        × IsAdmissible now c)
validate_current_hub_credential-IsAdmissible t d e now c = (forth, back)
  where
    forth :
        validate_current_hub_credential t d e now ≡ ok c
        → (t ≡ str c.access_token)
          × (d ≡ str c.device_id)
          × (e ≡ int c.expires_at_ms)
          × IsAdmissible now c
    forth h =
        let whole = validate_current_hub_credential_sound t d e now c h in
        let bearer = validate_bearer_sound t e now c.access_token c.expires_at_ms whole.0 in
        let token = validate_access_token_sound t c.access_token bearer.0 in
        let expiry = validate_epoch_milliseconds_sound e c.expires_at_ms bearer.1 in
        let device = validate_device_id_sound d c.device_id whole.1 in
        (
          token.0,
          device.0,
          expiry.0,
          record {
            token_form = token.1;
            device_form = device.1;
            expiry_low = expiry.1;
            expiry_high = expiry.2;
            fresh = bearer.2;
          },
        )

    back :
        (t ≡ str c.access_token)
          × (d ≡ str c.device_id)
          × (e ≡ int c.expires_at_ms)
          × IsAdmissible now c
        → validate_current_hub_credential t d e now ≡ ok c
    back (et, ed, ee, a) = rw (et, ed, ee) (admitted now c a)

-- What is needed for the report that a credential has expired.
pub record IsExpired (now : ℤ) (t e : Value) : Type 0 where
  pub token : String
  pub expiry : ℤ
  pub is_token : t ≡ str token
  pub token_form : is_hex64 token ≡ true
  pub is_expiry : e ≡ int expiry
  pub expiry_low : signed64_min ≤ℤ expiry
  pub expiry_high : expiry ≤ℤ signed64_max
  pub past : expiry ≤ℤ now

token-not-expired : (v : Value) → validate_access_token v ≢ err Error.credential_expired
unfolding validate_access_token
token-not-expired (str s) h = ground arith
token-not-expired _ h = cc

epoch-not-expired : (v : Value) → validate_epoch_milliseconds v ≢ err Error.credential_expired
unfolding validate_epoch_milliseconds
epoch-not-expired (int n) h = ground arith
epoch-not-expired _ h = cc

device-not-expired : (v : Value) → validate_device_id v ≢ err Error.credential_expired
unfolding validate_device_id
device-not-expired (str s) h = ground arith
device-not-expired _ h = cc

bearer_expired :
    (t d e : Value) (now : ℤ)
    → validate_current_hub_credential t d e now ≡ err Error.credential_expired
    → validate_bearer t e now ≡ err Error.credential_expired
unfolding validate_current_hub_credential
bearer_expired t d e now h = ground (arith, device-not-expired d)

past_expiry :
    (t e : Value) (now n : ℤ) (s : String)
    → validate_access_token t ≡ ok s
    → validate_epoch_milliseconds e ≡ ok n
    → validate_bearer t e now ≡ err Error.credential_expired
    → n ≤ℤ now
unfolding validate_bearer
past_expiry t e now n s et ee h = ground arith

IsExpired-parts :
    (t e : Value) (now : ℤ)
    → validate_bearer t e now ≡ err Error.credential_expired
    → IsExpired now t e
IsExpired-parts t e now h = elim (Result-cases (validate_access_token t)) [
  | inl (s, et) ↦ elim (Result-cases (validate_epoch_milliseconds e)) [
    | inl (n, ee) ↦
        (let token = validate_access_token_sound t s et in
          let range = validate_epoch_milliseconds_sound e n ee in
          record {
            token = s;
            expiry = n;
            is_token = token.0;
            token_form = token.1;
            is_expiry = range.0;
            expiry_low = range.1;
            expiry_high = range.2;
            past = past_expiry t e now n s et ee h;
          })
    | inr (x, ee) ↦ absurd (unfold validate_bearer in ground (arith, epoch-not-expired e))
  ]
  | inr (x, et) ↦ absurd (unfold validate_bearer in ground (arith, token-not-expired t))
]

expired :
    {t e : Value} (now : ℤ) (d : Value) (x : IsExpired now t e)
    → validate_current_hub_credential (str x.token) d (int x.expiry) now
      ≡ err Error.credential_expired
unfolding validate_current_hub_credential validate_bearer validate_access_token
expired now d x =
    let past : leb_ℤ x.expiry now ≡ true = ground (arith, x.past) in
    rw (x.token_form, epoch_admitted x.expiry x.expiry_low x.expiry_high, past)

-- An expired credential is told apart from a malformed one: the report is made exactly when the
-- token and the expiry are well formed and the expiry is not after `now`, whatever the device id.
pub validate_current_hub_credential-IsExpired :
    (t d e : Value) (now : ℤ)
    → (validate_current_hub_credential t d e now ≡ err Error.credential_expired) ↔ IsExpired now t e
validate_current_hub_credential-IsExpired t d e now = (forth, back)
  where
    forth :
        validate_current_hub_credential t d e now ≡ err Error.credential_expired → IsExpired now t e
    forth h = IsExpired-parts t e now (bearer_expired t d e now h)

    back :
        IsExpired now t e → validate_current_hub_credential t d e now ≡ err Error.credential_expired
    back x = rw (x.is_token, x.is_expiry) (expired now d x)
