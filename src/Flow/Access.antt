-- ===== src/Flow/Access.antt =====
-- What is known of a credential when a flow of config_flow.py stores it.
use teslatlas_home_assistant.Prelude.{◌≡◌, refl, inl, inr, String, true, some, arith, Option-cases}
use teslatlas_home_assistant.Prelude.Int.{ℤ}
use teslatlas_home_assistant.Errors
use teslatlas_home_assistant.Errors.{Error, Result, ok, err, ◌>>=◌, Result-cases}
use teslatlas_home_assistant.Values.{Value, Dict, int, str, is_text}
use teslatlas_home_assistant.Models.{HubEndpoint, HubSnapshot, PairingResult}
use teslatlas_home_assistant.Credentials.{
  Credential, epoch_milliseconds, validate_current_hub_credential,
}
use teslatlas_home_assistant.Credentials.Admission.{IsAdmissible}
use teslatlas_home_assistant.Coordinator.Rotation.{same_credential}
use teslatlas_home_assistant.Client.{Env, Client, Wire}
use teslatlas_home_assistant.Client.Create.{create_client}
use teslatlas_home_assistant.Client.Snapshot.{async_snapshot}
use teslatlas_home_assistant.Flow.{Problem, Flow, Pending, create_entry, World}
use teslatlas_home_assistant.Flow.User.{
  finish_pairing, entry_data_of, validate_pairing, async_step_pair_validate,
}
use teslatlas_home_assistant.Flow.Checks.{
  Checked, passed, problem, raised, access_failure, probe_failure, same_hub, freshness, and_then,
  saved_bearer, validate_access, issued_credential_error, validate_issued_access,
}

-- A client with the bearer has read a snapshot of the Hub from the endpoint.
pub record IsReadable (env : Env) (endpoint : HubEndpoint) (hub_id token expires : Value)
    : Type 0 where
  pub wire : Wire
  pub client : Client
  pub created : create_client endpoint (saved_bearer token hub_id expires) wire ≡ ok client
  pub snapshot : HubSnapshot
  pub read : (async_snapshot env client).0 ≡ ok snapshot
  pub same : is_text snapshot.info.hub_id hub_id ≡ true

-- The result is of the Hub, its credential is admissible at a reading of the clock, and it reads the
-- Hub at the endpoint.
pub record IsVerified (env : Env) (endpoint : HubEndpoint) (r : PairingResult) (hub_id : Value)
    : Type 0 where
  pub hub : is_text r.info.hub_id hub_id ≡ true
  pub reading : ℤ
  pub admissible : IsAdmissible reading (record {
    access_token = r.access_token;
    device_id = r.device_id;
    expires_at_ms = r.expires_at_ms;
  })
  pub access : IsReadable env endpoint hub_id (str r.access_token) (int r.expires_at_ms)

access_failure-fails : {A B : Type 0} {a : A} (e : Error) → access_failure e ≡ passed a → B
unfolding access_failure probe_failure
access_failure-fails Error.connection h = cc
access_failure-fails _ h = cc

same_hub-passed :
    (hub_id : Value) (r : Result HubSnapshot)
    → same_hub hub_id r ≡ passed tt
    → (snap : HubSnapshot) × (r ≡ ok snap) × (is_text snap.info.hub_id hub_id ≡ true)
same_hub-passed hub_id (ok snap) h = (snap, refl, ground arith)
same_hub-passed hub_id (err e) h = access_failure-fails e h

freshness-passed : (r : Result Credential) → freshness r ≡ passed tt → (c : Credential) × (r ≡ ok c)
freshness-passed (ok c) h = (c, refl)
freshness-passed (err Error.credential_expired) h = cc
freshness-passed (err Error.contract) h = cc
freshness-passed (err _) h = cc

and_then-passed :
    {A B : Type 0} (m : Checked A × Wire) (k : A → Wire → Checked B × Wire) {b : B}
    → (and_then m k).0 ≡ passed b
    → (a : A) × (m.0 ≡ passed a) × ((k a m.1).0 ≡ passed b)
and_then-passed (passed a, w) k h = (a, refl, h)
and_then-passed (problem p, w) k h = cc
and_then-passed (raised e, w) k h = cc

validate_access-IsReadable :
    (env : Env) (endpoint : HubEndpoint) (hub_id token expires : Value) (w : Wire)
    → (validate_access env endpoint hub_id token expires w).0 ≡ passed tt
    → IsReadable env endpoint hub_id token expires
unfolding validate_access
validate_access-IsReadable env endpoint hub_id token expires w h =
    elim (Result-cases (create_client endpoint (saved_bearer token hub_id expires) w)) [
      | inr (e, x) ↦ absurd (ground arith)
      | inl (c, x) ↦
          (let got : same_hub hub_id (async_snapshot env c).0 ≡ passed tt = ground arith in
            let (snap, y, same) = same_hub-passed hub_id (async_snapshot env c).0 got in
            record { wire = w; client = c; created = x; snapshot = snap; read = y; same = same })
    ]

issued_credential_error-Admissible :
    (env : Env) (r : PairingResult) (w : Wire)
    → (issued_credential_error env r w).0 ≡ passed tt
    → (n : ℤ) × IsAdmissible n (record {
      access_token = r.access_token;
      device_id = r.device_id;
      expires_at_ms = r.expires_at_ms;
    })
unfolding issued_credential_error
issued_credential_error-Admissible env r w h =
    let (c, e) =
      freshness-passed
        (epoch_milliseconds (env.clock w.ticks) >>= λ now_ms.
          validate_current_hub_credential (str r.access_token) (str r.device_id)
            (int r.expires_at_ms) now_ms)
        h in
    let (n, en, k) = Errors.>>=-eq-ok (epoch_milliseconds (env.clock w.ticks)) _ e in
    (n, same_credential r n c k)

-- A check that passes has verified the result.
pub validate_issued_access-IsVerified :
    (env : Env) (endpoint : HubEndpoint) (r : PairingResult) (hub_id : Value) (w : Wire)
    → (validate_issued_access env endpoint r hub_id w).0 ≡ passed tt
    → IsVerified env endpoint r hub_id
unfolding validate_issued_access
validate_issued_access-IsVerified env endpoint r hub_id w h =
    let (_, e1, k1) = and_then-passed (issued_credential_error env r w) _ h in
    let w1 = (issued_credential_error env r w).1 in
    let hub : is_text r.info.hub_id hub_id ≡ true = ground arith in
    let (_, e2, k2) =
      and_then-passed
        (validate_access env endpoint hub_id (str r.access_token) (int r.expires_at_ms) w1)
        (λ _ w2. issued_credential_error env r w2) (rw hub at k1) in
    let (n, admissible) =
      issued_credential_error-Admissible env r
        (validate_access env endpoint hub_id (str r.access_token) (int r.expires_at_ms) w1).1 k2 in
    record {
      hub = hub;
      reading = n;
      admissible = admissible;
      access =
          validate_access-IsReadable env endpoint hub_id (str r.access_token) (int r.expires_at_ms)
            w1 e2;
    }

finish_pairing-creates :
    (endpoint : HubEndpoint) (r : PairingResult) (check : Checked (Unit {0})) (f : Flow)
    {title : String} {contents : Dict}
    → (finish_pairing endpoint r check f).0 ≡ create_entry title contents
    → (check ≡ passed tt) × (title ≡ r.info.name) × (contents ≡ entry_data_of endpoint r)
unfolding finish_pairing
finish_pairing-creates endpoint r (passed tt) f h = (refl, cc, cc)
finish_pairing-creates endpoint r (raised e) f h = cc
finish_pairing-creates endpoint r (problem Problem.wrong_hub) f h = cc
finish_pairing-creates endpoint r (problem _) f h = cc

validate_pairing-creates :
    (w : World) (endpoint : HubEndpoint) (r : PairingResult) (f : Flow) {title : String}
    {contents : Dict}
    → (validate_pairing w endpoint r f).0 ≡ create_entry title contents
    → IsVerified w.env endpoint r (str r.info.hub_id)
      × (title ≡ r.info.name)
      × (contents ≡ entry_data_of endpoint r)
unfolding validate_pairing
validate_pairing-creates w endpoint r f h =
    let (done, name, filled) = finish_pairing-creates endpoint r _ _ h in
    (
      validate_issued_access-IsVerified w.env endpoint r (str r.info.hub_id) f.wire done,
      name,
      filled,
    )

-- A new entry is created only for the endpoint and the pending result of the flow, from a result
-- that is verified at that endpoint; its title and its data are that result's.
pub async_step_pair_validate-Creates :
    (w : World) (f : Flow) (title : String) (contents : Dict)
    → (async_step_pair_validate w true f).0 ≡ create_entry title contents
    → (endpoint : HubEndpoint) × (p : Pending) × (f.endpoint ≡ some endpoint)
      × (f.pending ≡ some p)
      × IsVerified w.env endpoint p.result (str p.result.info.hub_id)
      × (title ≡ p.result.info.name)
      × (contents ≡ entry_data_of endpoint p.result)
unfolding async_step_pair_validate
async_step_pair_validate-Creates w f title contents h = elim (Option-cases f.endpoint) [
  | inl e ↦ absurd (ground arith)
  | inr (endpoint, e) ↦ elim (Option-cases f.pending) [
    | inl e' ↦ absurd (ground arith)
    | inr (p, e') ↦
        (let made : (validate_pairing w endpoint p.result f).0 ≡ create_entry title contents =
            ground arith in
          let (verified, name, filled) = validate_pairing-creates w endpoint p.result f made in
          (endpoint, p, e, e', verified, name, filled))
  ]
]
