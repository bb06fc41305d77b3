-- ===== src/Client/Snapshot/Identity.antt =====
-- The identity of the Hub is checked before any credential is used.
use teslatlas_home_assistant.Prelude.{
  ◌≡◌, ap, ◌∙◌, ◌⊎◌, inl, inr, String, true, false, not, ◌∷◌, none, arith, eq_iff,
}
use teslatlas_home_assistant.Errors.{Error, ok, err}
use teslatlas_home_assistant.Values.{Value, str, is_text, get}
use teslatlas_home_assistant.Task
use teslatlas_home_assistant.Task.{Task, ◌>>=◌, ◌>>◌}
use teslatlas_home_assistant.Models.{HubInfo, HubSnapshot}
use teslatlas_home_assistant.Client.{Env, Client, Request, discovery, vehicles}
use teslatlas_home_assistant.Models.Vehicles.{keys, AreDistinct}
use teslatlas_home_assistant.Client.Decode.{assert_payload}
use teslatlas_home_assistant.Client.Http.{async_json, ensure_open}
use teslatlas_home_assistant.Client.Calls.{
  anonymous, with_bearer, async_probe, is_other_hub, identify, async_pair, async_rotate,
}
use teslatlas_home_assistant.Client.Bearer.{
  Sends, nothing, once, async_json-SameClient, async_json-Sends,
}
use teslatlas_home_assistant.Client.Snapshot.{async_snapshot, vehicle_list}
use teslatlas_home_assistant.Client.Snapshot.Order.{observe-Listed}

-- The discovery request of a probe carries neither a bearer nor a body.
abbrev pub discovery_request : Request
discovery_request = record { target = discovery; authorization = none; body = none }

async_probe-state :
    (env : Env) (c : Client) → (async_probe env c).1 ≡ (async_json env anonymous discovery none c).1
unfolding async_probe
async_probe-state env c = ground arith

-- At most the discovery request was sent.
abbrev pub OnlyDiscovery : Client → Client → Type 0
OnlyDiscovery c c' = (c'.wire.sent ≡ c.wire.sent) ⊎ (c'.wire.sent ≡ discovery_request ∷ c.wire.sent)

only_discovery :
    {env : Env} {c c' : Client} → Sends env anonymous discovery none c c' → OnlyDiscovery c c'
only_discovery (nothing e) = inl e
only_discovery {c = c} (once header e fits open_now) =
    inr (
      e
      ∙ ap (λ h. record { target = discovery; authorization = h; body = none } ∷ c.wire.sent) fits)

pub async_probe-OnlyDiscovery : (env : Env) (c : Client) → OnlyDiscovery c (async_probe env c).1
async_probe-OnlyDiscovery env c =
    rw async_probe-state (only_discovery (async_json-Sends env anonymous discovery none c))

identify_foreign :
    (env : Env) (c : Client) (info : HubInfo)
    → (async_probe env c).0 ≡ ok info
    → is_other_hub c.expected_hub_id info ≡ true
    → identify env c ≡ (err Error.identity, (async_probe env c).1)
unfolding identify
identify_foreign env c info e other =
    let same : (async_probe env c).1.expected_hub_id ≡ c.expected_hub_id =
      rw async_probe-state (async_json-SameClient env anonymous discovery none c).expected in
    ground arith

snapshot_stops :
    (env : Env) (c c' : Client) (e : Error)
    → c.closed ≡ false
    → identify env c ≡ (err e, c')
    → async_snapshot env c ≡ (err e, c')
unfolding async_snapshot
snapshot_stops env c c' e open_now stopped = ground arith

-- When discovery names another Hub than the one expected, a snapshot, a claim and a rotation end
-- with the identity error, and no request but the discovery, which carries neither a bearer nor a
-- secret, has been sent.
pub foreign_hub :
    (env : Env) (c : Client) (info : HubInfo) (pairing_id secret device_name : Value)
    → c.closed ≡ false
    → (async_probe env c).0 ≡ ok info
    → is_other_hub c.expected_hub_id info ≡ true
    → ((async_snapshot env c).0 ≡ err Error.identity)
      × ((async_pair env pairing_id secret device_name c).0 ≡ err Error.identity)
      × ((async_rotate env c).0 ≡ err Error.identity)
      × OnlyDiscovery c (async_snapshot env c).1
      × OnlyDiscovery c (async_pair env pairing_id secret device_name c).1
      × OnlyDiscovery c (async_rotate env c).1
unfolding async_pair async_rotate
foreign_hub env c info pairing_id secret device_name open_now e other =
    let sent = async_probe-OnlyDiscovery env c in
    let stopped = identify_foreign env c info e other in
    let snapshot = snapshot_stops env c (async_probe env c).1 Error.identity open_now stopped in
    (
      ap (λ r. r.0) snapshot,
      rw stopped,
      rw stopped,
      rw snapshot sent,
      rw stopped sent,
      rw stopped sent,
    )

admitted_hub :
    (expected : Value) (info i : HubInfo) (c : Client) (h : String)
    → expected ≡ str h
    → ((Task.require (not (is_other_hub expected i)) Error.identity >> Task.pure i) c).0 ≡ ok info
    → info.hub_id ≡ h
unfolding is_other_hub is_text
admitted_hub expected info i c h e got = ground (arith, eq_iff h i.hub_id)

identified :
    (env : Env) (c : Client) (info : HubInfo) (h : String)
    → c.expected_hub_id ≡ str h
    → (identify env c).0 ≡ ok info
    → info.hub_id ≡ h
unfolding identify
identified env c info h e got =
    let (i, ei, later) = Task.>>=-eq-ok (async_probe env) _ c got in
    let same : (async_probe env c).1.expected_hub_id ≡ c.expected_hub_id =
      rw async_probe-state (async_json-SameClient env anonymous discovery none c).expected in
    admitted_hub (async_probe env c).1.expected_hub_id info i (async_probe env c).1 h (same ∙ e)
      later

-- A snapshot that is returned to a client that expects a Hub is that Hub's, and the client was open.
pub async_snapshot_trusted :
    (env : Env) (c : Client) (snap : HubSnapshot) (h : String)
    → c.expected_hub_id ≡ str h
    → (async_snapshot env c).0 ≡ ok snap
    → (snap.info.hub_id ≡ h) × (c.closed ≡ false) × AreDistinct (keys snap.vehicles)
unfolding async_snapshot
async_snapshot_trusted env c snap h e got =
    let (_, open_now, k1) = Task.>>=-eq-ok ensure_open _ c got in
    let (_, _, k2) = Task.>>=-eq-ok ensure_open _ c k1 in
    let (info, ei, k3) = Task.>>=-eq-ok (identify env) _ c k2 in
    let c1 = (identify env c).1 in
    let (reply, _, k4) = Task.>>=-eq-ok (async_json env with_bearer vehicles none) _ c1 k3 in
    let c2 = (async_json env with_bearer vehicles none c1).1 in
    let (payload, _, k5) = Task.>>=-eq-ok (Task.lift (assert_payload reply)) _ c2 k4 in
    let (summaries, _, k6) =
      Task.>>=-eq-ok (Task.lift (vehicle_list (get "vehicles" payload))) _ c2 k5 in
    let (same, _, distinct) = observe-Listed env info summaries c2 snap k6 in
    (ap (λ i. i.hub_id) same ∙ identified env c info h e ei, ground arith, distinct)
