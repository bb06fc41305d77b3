-- ===== src/Flow/Checks.antt =====
-- The calls of the client that the steps of config_flow.py make, with the translation of their
-- failures: `_async_probe`, `_async_validate_access`, `_issued_credential_error`,
-- `_async_validate_issued_access`, the claims of the three pairing steps, and
-- `_has_saved_origin_binding`.
use teslatlas_home_assistant.Prelude.{suc, Bool, true, false, ◌&&◌, not, if◌then◌else◌}
use teslatlas_home_assistant.Errors.{Error, Result, ok, err, ◌>>=◌}
use teslatlas_home_assistant.Values.{
  Value, Dict, null, int, str, get, is_text, is_true, nonempty, truthy,
}
use teslatlas_home_assistant.Models.{HubEndpoint, HubInfo, HubSnapshot, PairingResult}
use teslatlas_home_assistant.Credentials.{
  Credential, epoch_milliseconds, validate_current_hub_credential,
}
use teslatlas_home_assistant.Client.{Env, Client, Wire}
use teslatlas_home_assistant.Client.Create.{Options, create_client}
use teslatlas_home_assistant.Client.Calls.{async_probe, async_pair}
use teslatlas_home_assistant.Client.Snapshot.{async_snapshot}
use teslatlas_home_assistant.Flow.{
  Problem, cannot_connect, invalid_auth, protocol_not_ready, invalid_contract,
  invalid_pairing_secret,
}

-- What a guarded call brings: its value, the problem that an `except` clause names, or an exception
-- that no clause takes.
pub data Checked (A : Type 0) : Type 0 where
  passed : A → Checked A
  problem : Problem → Checked A
  raised : Error → Checked A

-- The `except` clauses of `_async_probe`.
unfoldable pub probe_failure : {A : Type 0} → Error → Checked A
probe_failure Error.connection = problem cannot_connect
probe_failure Error.authentication = problem invalid_auth
probe_failure Error.identity = problem invalid_auth
probe_failure Error.protocol_unavailable = problem protocol_not_ready
probe_failure Error.contract = problem invalid_contract
probe_failure Error.credential_expired = problem invalid_contract
probe_failure e = raised e

-- Those of `_async_validate_access`, where another Hub comes first.
unfoldable pub access_failure : {A : Type 0} → Error → Checked A
unfolding probe_failure
access_failure Error.identity = problem Problem.wrong_hub
access_failure e = probe_failure e

-- Those of the claims, which know a rejected invitation too.
unfoldable pub claim_failure : {A : Type 0} → Error → Checked A
unfolding access_failure
claim_failure Error.pairing = problem invalid_pairing_secret
claim_failure e = access_failure e

abbrev pub no_bearer : Value → Options
no_bearer expected = record {
  bearer_token = null;
  expected_hub_id = expected;
  bearer_expires_at_ms = null;
  has_hass = true;
  has_session = false;
}

abbrev pub saved_bearer : Value → Value → Value → Options
saved_bearer token hub_id expires_at_ms = record {
  bearer_token = token;
  expected_hub_id = hub_id;
  bearer_expires_at_ms = expires_at_ms;
  has_hass = true;
  has_session = false;
}

abbrev pub probed : Result HubInfo → Checked HubInfo
probed (ok info) = passed info
probed (err e) = probe_failure e

abbrev pub probe_with : Env → Result Client → Wire → Checked HubInfo × Wire
probe_with env (err Error.contract) wire = (problem invalid_contract, wire)
probe_with env (err e) wire = (raised e, wire)
probe_with env (ok c) wire = let (r, c') = async_probe env c in (probed r, c'.wire)

-- `_async_probe`, which closes its client on failure; its caller closes it on success.
unfoldable pub probe_endpoint : Env → HubEndpoint → Wire → Checked HubInfo × Wire
probe_endpoint env endpoint wire =
    probe_with env (create_client endpoint (no_bearer null) wire) wire

-- The snapshot that is to prove the access, held against the Hub.
abbrev pub same_hub : Value → Result HubSnapshot → Checked (Unit {0})
same_hub hub_id (ok snapshot) =
    if is_text snapshot.info.hub_id hub_id then passed tt else problem Problem.wrong_hub
same_hub hub_id (err e) = access_failure e

-- `_async_validate_access`
unfoldable pub validate_access :
    Env → HubEndpoint → Value → Value → Value → Wire → Checked (Unit {0}) × Wire
validate_access env endpoint hub_id access_token expires_at_ms wire =
    elim (create_client endpoint (saved_bearer access_token hub_id expires_at_ms) wire) [
      | err Error.contract ↦ (problem invalid_contract, wire)
      | err e ↦ (raised e, wire)
      | ok c ↦ (let (r, c') = async_snapshot env c in (same_hub hub_id r, c'.wire))
    ]

-- `_issued_credential_error`, at one reading of the clock.
abbrev pub freshness : Result Credential → Checked (Unit {0})
freshness (ok c) = passed tt
freshness (err Error.credential_expired) = problem invalid_auth
freshness (err Error.contract) = problem invalid_contract
freshness (err e) = raised e

unfoldable pub issued_credential_error : Env → PairingResult → Wire → Checked (Unit {0}) × Wire
issued_credential_error env r wire = (
  freshness (
      epoch_milliseconds (env.clock wire.ticks) >>= λ now_ms.
      validate_current_hub_credential (str r.access_token) (str r.device_id) (int r.expires_at_ms)
        now_ms),
  record wire { ticks = suc wire.ticks },
)

-- Go on only if a check has passed.
abbrev pub and_then :
    {A B : Type 0} → Checked A × Wire → (A → Wire → Checked B × Wire) → Checked B × Wire
and_then (passed a, w) k = k a w
and_then (problem p, w) k = (problem p, w)
and_then (raised e, w) k = (raised e, w)

-- `_async_validate_issued_access`: the credential, its Hub, its access, and the credential again.
unfoldable pub validate_issued_access :
    Env → HubEndpoint → PairingResult → Value → Wire → Checked (Unit {0}) × Wire
validate_issued_access env endpoint r hub_id wire =
    and_then (issued_credential_error env r wire) λ _ w1.
      if not (is_text r.info.hub_id hub_id)
      then (problem Problem.wrong_hub, w1)
      else (and_then
          (validate_access env endpoint hub_id (str r.access_token) (int r.expires_at_ms) w1)
          λ _ w2. issued_credential_error env r w2)

-- What a user enters to claim an invitation.
pub record Invitation : Type 0 where
  pub pairing_id : Value
  pub secret : Value
  pub device_name : Value

abbrev pub claimed : Result PairingResult → Checked PairingResult
claimed (ok r) = passed r
claimed (err e) = claim_failure e

-- A claim; that no client can be made for the endpoint is not caught.
unfoldable pub claim_invitation :
    Env → HubEndpoint → Value → Invitation → Wire → Checked PairingResult × Wire
claim_invitation env endpoint expected input wire =
    elim (create_client endpoint (no_bearer expected) wire) [
      | err e ↦ (raised e, wire)
      | ok c ↦
          (let (r, c') = async_pair env input.pairing_id input.secret input.device_name c in
            (claimed r, c'.wire))
    ]

-- `_has_saved_origin_binding`
unfoldable pub has_saved_origin_binding : Dict → HubEndpoint → Bool
has_saved_origin_binding entry_data endpoint = elim (get "tls_pin" entry_data) [
  | str saved ↦
      is_true (get "use_tls" entry_data)
      && (nonempty saved && (truthy endpoint.use_tls && is_text saved endpoint.tls_pin))
  | _ ↦ false
]
