-- ===== src/Errors.antt =====
-- custom_components/teslatlas_hub/client.py: the exception classes, with the class of credentials.py
-- and the Python and Home Assistant exceptions that the code raises beside them.
use teslatlas_home_assistant.Prelude.{◌≡◌, refl, ◌⊎◌, inl, inr, Bool, true, false, String}

pub data Error : Type 0 where
  connection authentication identity pairing contract protocol_unavailable : Error
  credential_expired : Error
  -- the third-party and operating system errors that a request raises:
  -- aiohttp's `ClientError`, `TimeoutError` and `OSError`
  transport : Error
  type_error value_error key_error arithmetic_error assertion_error runtime_error cancelled : Error
  -- `MatrixWireError` and `BrokerOperationError` of tools/matrix_wire.py
  wire : Error
  broker_operation : String → Error

-- `except C` takes the classes below C too.
-- `except HubConnectionError`
unfoldable pub is_connection : Error → Bool
is_connection Error.connection = true
is_connection _ = false

-- `except HubAuthenticationError`: also `HubIdentityError`
unfoldable pub is_authentication : Error → Bool
is_authentication Error.authentication = true
is_authentication Error.identity = true
is_authentication _ = false

-- `except HubContractError`: also `ProtocolContractUnavailable` and `HubCredentialExpiredError`
unfoldable pub is_contract : Error → Bool
is_contract Error.contract = true
is_contract Error.protocol_unavailable = true
is_contract Error.credential_expired = true
is_contract _ = false

-- What a call that may raise comes back with.
pub data Result {ℓ} (A : Type ℓ) : Type ℓ where
  ok : A → Result A
  err : Error → Result A

infixl 5 ◌>>=◌ ◌>>◌
-- A call is made only if the one before it has returned.
abbrev pub ◌>>=◌ {κ ℓ} : {X : Type κ} {Y : Type ℓ} → Result X → (X → Result Y) → Result Y
err raised >>= call = err raised
ok returned >>= call = call returned

-- The same where nothing is returned.
abbrev pub ◌>>◌ {κ} : {Y : Type κ} → Result (Unit {0}) → Result Y → Result Y
check >> next = check >>= λ _. next

-- `if not b: raise e`
abbrev pub guard : Bool → Error → Result (Unit {0})
guard true e = ok tt
guard false e = err e

pub Result-cases {ℓ} :
    {A : Type ℓ} (r : Result A) → ((a : A) × (r ≡ ok a)) ⊎ ((e : Error) × (r ≡ err e))
Result-cases (ok a) = inl (a, refl)
Result-cases (err e) = inr (e, refl)

-- A bind that succeeds: both parts have succeeded.
pub >>=-eq-ok {κ ℓ} :
    {X : Type κ} {Y : Type ℓ} (first : Result X) (call : X → Result Y) {y : Y}
    → (first >>= call) ≡ ok y
    → (x : X) × (first ≡ ok x) × (call x ≡ ok y)
>>=-eq-ok (err raised) call e = cc
>>=-eq-ok (ok x) call e = (x, refl, e)

pub ok-injective {ℓ} : {A : Type ℓ} {a b : A} → ok a ≡ ok b → a ≡ b
ok-injective h = cc
