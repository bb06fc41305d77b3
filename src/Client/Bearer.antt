-- ===== src/Client/Bearer.antt =====
-- When a request is sent and which bearer it carries.
use teslatlas_home_assistant.Prelude.{
  ◌≡◌, refl, sym, ◌∙◌, ◌⊎◌, inl, inr, String, Bool, true, false, not, ◌∷◌, Option, none, some,
  arith, Bool-cases,
}
use teslatlas_home_assistant.Prelude.Int.{ℤ, ◌<ℤ◌, leb_ℤ}
use teslatlas_home_assistant.Errors.{Error, ok, Result-cases, ok-injective}
use teslatlas_home_assistant.Values.{Value, null, int, str, is_none}
use teslatlas_home_assistant.Task
use teslatlas_home_assistant.Task.{◌>>=◌, ◌>>◌}
use teslatlas_home_assistant.Credentials.{
  epoch_milliseconds, is_hex64, validate_access_token, validate_epoch_milliseconds,
}
use teslatlas_home_assistant.Credentials.Admission.{
  validate_access_token_sound, validate_epoch_milliseconds_sound,
}
use teslatlas_home_assistant.Client.{Env, Client, Target, Request, now}
use teslatlas_home_assistant.Client.Http.{
  Mode, expiry_check, bearer_header, authorization, send, async_json,
}

-- The stored bearer has no expiry, or one after the clock's next reading.
abbrev pub IsFresh : Env → Client → Type 0
IsFresh env c =
    (c.bearer_expires_at_ms ≡ null)
    ⊎ ((expiry : ℤ) × (reading : ℤ) × (c.bearer_expires_at_ms ≡ int expiry)
        × (epoch_milliseconds (env.clock c.wire.ticks) ≡ ok reading)
        × (reading <ℤ expiry))

-- The header that a request of the mode may carry.
abbrev pub HeaderFits : Env → Bool → Client → Option String → Type 0
HeaderFits env false c header = header ≡ none
HeaderFits env true c header =
    (token : String) × (header ≡ some token)
    × (c.bearer_token ≡ str token)
    × (is_hex64 token ≡ true)
    × IsFresh env c

-- The client differs at most in how often the clock was read and in what was sent.
pub record SameClient (c c' : Client) : Type 0 where
  pub endpoint : c'.endpoint ≡ c.endpoint
  pub token : c'.bearer_token ≡ c.bearer_token
  pub expires : c'.bearer_expires_at_ms ≡ c.bearer_expires_at_ms
  pub expected : c'.expected_hub_id ≡ c.expected_hub_id
  pub owns : c'.owns_session_wrapper ≡ c.owns_session_wrapper
  pub closed : c'.closed ≡ c.closed
  pub detached : c'.detached ≡ c.detached

expiry_check-keeps :
    (env : Env) (v : Value) (c : Client)
    → SameClient c (expiry_check env v c).1 × ((expiry_check env v c).1.wire.sent ≡ c.wire.sent)
unfolding expiry_check
expiry_check-keeps env null c = ground arith
expiry_check-keeps env v c = ground arith

bearer_header-keeps :
    (env : Env) (c : Client)
    → SameClient c (bearer_header env c).1 × ((bearer_header env c).1.wire.sent ≡ c.wire.sent)
unfolding bearer_header
bearer_header-keeps env c = ground (arith, expiry_check-keeps env c.bearer_expires_at_ms c)

authorization-keeps :
    (env : Env) (b : Bool) (c : Client)
    → SameClient c (authorization env b c).1 × ((authorization env b c).1.wire.sent ≡ c.wire.sent)
unfolding authorization
authorization-keeps env true c = bearer_header-keeps env c
authorization-keeps env false c = ground arith

fresh_of_check :
    (env : Env) (c : Client) (n m : ℤ)
    → (Task.require (not (leb_ℤ n m)) Error.authentication c).0 ≡ ok tt
    → m <ℤ n
fresh_of_check env c n m h = ground arith

expiry_check-IsFresh :
    (env : Env) (c : Client) (v : Value)
    → c.bearer_expires_at_ms ≡ v
    → (expiry_check env v c).0 ≡ ok tt
    → IsFresh env c
unfolding expiry_check
expiry_check-IsFresh env c null e h = inl e
expiry_check-IsFresh env c (int n) e h =
    let (m, em, checked) = Task.>>=-eq-ok (Task.lift (validate_epoch_milliseconds (int n))) _ c h in
    let same : int n ≡ int m = (validate_epoch_milliseconds_sound (int n) m em).0 in
    let (reading, er, last) =
      Task.>>=-eq-ok (Task.lift (epoch_milliseconds (env.clock c.wire.ticks))) _ (now env c).1
        checked in
    inr (m, reading, e ∙ same, er, fresh_of_check env (now env c).1 m reading last)
expiry_check-IsFresh env c _ e h = absurd (unfold validate_epoch_milliseconds in cc)

bearer_header-HeaderFits :
    (env : Env) (c : Client) (header : Option String)
    → (bearer_header env c).0 ≡ ok header
    → HeaderFits env true c header
unfolding bearer_header
bearer_header-HeaderFits env c header h =
    let (_, present, later) =
      Task.>>=-eq-ok (Task.require (not (is_none c.bearer_token)) Error.authentication) _ c h in
    let (token, et, checked) =
      Task.>>=-eq-ok (Task.lift (validate_access_token c.bearer_token)) _ c later in
    let (_, ee, last) = Task.>>=-eq-ok (expiry_check env c.bearer_expires_at_ms) _ c checked in
    let form = validate_access_token_sound c.bearer_token token et in
    (
      token,
      sym (ok-injective last),
      form.0,
      form.1,
      expiry_check-IsFresh env c c.bearer_expires_at_ms refl ee,
    )

authorization-HeaderFits :
    (env : Env) (b : Bool) (c : Client) (header : Option String)
    → (authorization env b c).0 ≡ ok header
    → HeaderFits env b c header
unfolding authorization
authorization-HeaderFits env true c header h = bearer_header-HeaderFits env c header h
authorization-HeaderFits env false c header h = sym (ok-injective h)

-- What a request of one mode has done to the log.
pub data Sends (env : Env) (mode : Mode) (target : Target) (body : Option (Value × Value))
    (c c' : Client) : Type 0 where
  nothing : c'.wire.sent ≡ c.wire.sent → Sends env mode target body c c'
  once :
      (header : Option String)
      → c'.wire.sent ≡ record { target = target; authorization = header; body = body } ∷ c.wire.sent
      → HeaderFits env mode.authenticated c header
      → c.closed ≡ false
      → Sends env mode target body c c'

send-keeps : (env : Env) (p n : Bool) (r : Request) (c : Client) → SameClient c (send env p n r c).1
unfolding send
send-keeps env p n r c = ground arith

-- A request changes nothing of the client but its clock readings and its log.
pub async_json-SameClient :
    (env : Env) (mode : Mode) (target : Target) (body : Option (Value × Value)) (c : Client)
    → SameClient c (async_json env mode target body c).1
unfolding async_json send
async_json-SameClient env mode target body c =
    ground (arith, authorization-keeps env mode.authenticated c)

-- One call of `_async_json` sends at most one request. It sends none when the client is closed; an
-- anonymous request carries no bearer, and an authenticated one carries exactly the stored token,
-- of 64 lowercase hexadecimal digits, before the expiry that is stored with it.
pub async_json-Sends :
    (env : Env) (mode : Mode) (target : Target) (body : Option (Value × Value)) (c : Client)
    → Sends env mode target body c (async_json env mode target body c).1
async_json-Sends env mode target body c =
    elim (Result-cases (authorization env mode.authenticated c).0) [
      | inl (header, e) ↦
          (let fits = authorization-HeaderFits env mode.authenticated c header e in
            let kept = authorization-keeps env mode.authenticated c in
            elim (Bool-cases c.closed) [
              | inl shut ↦ nothing (unfold async_json in ground arith)
              | inr open_now ↦ elim (Bool-cases (env.builds_url c.endpoint)) [
                | inl built ↦ once header (unfold async_json send in ground arith) fits open_now
                | inr unbuilt ↦ nothing (unfold async_json send in ground arith)
              ]
            ])
      | inr (x, e) ↦
          nothing
            (unfold async_json in ground (arith, authorization-keeps env mode.authenticated c))
    ]
