-- ===== src/Client/Http.antt =====
-- `_async_json` and `_async_decode_response` of current_hub_client.py: one bounded request.
use teslatlas_home_assistant.Prelude.{
  ℕ, ◌+◌, String, Bool, true, false, ◌&&◌, ◌||◌, not, List, [], ◌∷◌, ◌++◌, Option, none, some, map,
  ltb, leb, ◌==◌, length, if◌then◌else◌,
}
use teslatlas_home_assistant.Prelude.Int.{leb_ℤ}
use teslatlas_home_assistant.Prelude.Text.{codes, eq_codes}
use teslatlas_home_assistant.Errors.{Error, Result, ok, err}
use teslatlas_home_assistant.Errors
use teslatlas_home_assistant.Values.{Value, Dict, dict, is_none}
use teslatlas_home_assistant.Task.{Task, pure, lift, gets, require, ◌>>=◌, ◌>>◌}
use teslatlas_home_assistant.Credentials.{
  epoch_milliseconds, validate_access_token, validate_epoch_milliseconds,
}
use teslatlas_home_assistant.Client.{
  Target, Request, Stream, done, broken, chunk, Response, Reply, failed, response, Env, Client, now,
  log_request, next_reply,
}

abbrev pub max_response_bytes : ℕ
max_response_bytes = 1048576

-- The loop over `iter_chunked`, on the body that was read so far.
unfoldable pub read_body : List ℕ → Stream → Result (List ℕ)
read_body body done = ok body
read_body body broken = err Error.transport
read_body body Stream.interrupted = err Error.cancelled
read_body body (chunk bytes rest) =
    let next = read_body (body ++ bytes) rest in
    if ltb max_response_bytes (length body + length bytes) then err Error.contract else next

before_semicolon : List ℕ → List ℕ
before_semicolon [] = []
before_semicolon (c ∷ s) = if c == b';' then [] else c ∷ before_semicolon s

-- `str.lower` on the letters A to Z, the only ones whose lowercase form stands in the text below.
lower : ℕ → ℕ
lower c = if leb b'A' c && leb c b'Z' then c + 32 else c

unfoldable pub is_json_type : Option String → Bool
unfolding before_semicolon lower
is_json_type none = false
is_json_type (some s) = eq_codes (map lower (before_semicolon (codes s))) (codes "application/json")

-- What the status of a response alone decides: an exception, the answer that there is no such
-- resource, or that the body is to be read.
pub data Verdict : Type 0 where
  refuse : Error → Verdict
  missing : Verdict
  read : Verdict

abbrev pub is_pairing_refusal : ℕ → Bool
is_pairing_refusal s = s == 400 || s == 401 || s == 404 || s == 415 || s == 422

unfoldable pub status_verdict : Bool → Bool → ℕ → Verdict
status_verdict pairing allow_not_found s =
    if leb 300 s && ltb s 400
    then refuse Error.contract
    else if pairing && is_pairing_refusal s
    then refuse Error.pairing
    else if s == 401
    then refuse (if pairing then Error.pairing else Error.authentication)
    else if s == 404 && allow_not_found
    then missing
    else if s == 404 || s == 503
    then refuse Error.connection
    else if ltb s 200 || leb 300 s
    then refuse Error.contract
    else read

abbrev pub is_oversized : Option ℕ → Bool
is_oversized none = false
is_oversized (some n) = ltb max_response_bytes n

as_object : Option Value → Result (Option Dict)
as_object (some (dict d)) = ok (some d)
as_object _ = err Error.contract

-- The body of an accepted response: bounded, declared as JSON, and a JSON object.
unfoldable pub decode_content : Env → Response → Result (Option Dict)
unfolding as_object
decode_content env r =
    if is_oversized r.content_length
    then err Error.contract
    else Errors.◌>>=◌ (read_body [] r.content) (λ raw.
      if is_json_type r.content_type then as_object (env.loads raw) else err Error.contract)

unfoldable pub decode_response : Env → Bool → Bool → Response → Result (Option Dict)
decode_response env pairing allow_not_found r =
    elim (status_verdict pairing allow_not_found r.status) [
      | refuse e ↦ err e
      | missing ↦ ok none
      | read ↦ decode_content env r
    ]

-- The `except` clauses around the request: what aiohttp and the system raise becomes
-- `HubConnectionError`, all else passes.
unfoldable pub translate_transport : Result (Option Dict) → Result (Option Dict)
translate_transport (err Error.transport) = err Error.connection
translate_transport r = r

unfoldable pub handle_reply : Env → Bool → Bool → Reply → Result (Option Dict)
unfolding translate_transport
handle_reply env pairing allow_not_found failed = translate_transport (err Error.transport)
handle_reply env pairing allow_not_found Reply.interrupted = err Error.cancelled
handle_reply env pairing allow_not_found (response r) =
    translate_transport (decode_response env pairing allow_not_found r)

-- `_ensure_open`
abbrev pub ensure_open : Task Client (Unit {0})
ensure_open c = require (not c.closed) Error.connection c

unfoldable pub expiry_check : Env → Value → Task Client (Unit {0})
expiry_check env Value.null = pure tt
expiry_check env expires_at_ms = do
  expiry ← lift (validate_epoch_milliseconds expires_at_ms)
  reading ← now env
  now_ms ← lift (epoch_milliseconds reading)
  require (not (leb_ℤ expiry now_ms)) Error.authentication

-- The bearer for the header of an authenticated request, checked before the header is built.
unfoldable pub bearer_header : Env → Task Client (Option String)
bearer_header env = do
  stored ← gets (λ c. c.bearer_token)
  require (not (is_none stored)) Error.authentication
  token ← lift (validate_access_token stored)
  expires_at_ms ← gets (λ c. c.bearer_expires_at_ms)
  expiry_check env expires_at_ms
  pure (some token)

unfoldable pub authorization : Env → Bool → Task Client (Option String)
authorization env true = bearer_header env
authorization env false = pure none

-- The request is sent only if its URL can be built, and is logged then.
unfoldable pub send : Env → Bool → Bool → Request → Task Client (Option Dict)
send env pairing allow_not_found r c =
    if env.builds_url c.endpoint
    then (handle_reply env pairing allow_not_found (next_reply env r c), log_request r c)
    else (err Error.contract, c)

-- How a request is made: authenticated, as the claim of an invitation, with 404 as an answer.
pub record Mode : Type 0 where
  pub authenticated : Bool
  pub pairing : Bool
  pub allow_not_found : Bool

unfoldable pub async_json : Env → Mode → Target → Option (Value × Value) → Task Client (Option Dict)
async_json env mode target body = do
  header ← authorization env mode.authenticated
  ensure_open
  send env mode.pairing mode.allow_not_found
      (record { target = target; authorization = header; body = body })
