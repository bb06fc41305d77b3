-- ===== src/Flow/Origin.antt =====
-- How `async_step_reconfigure_confirm` of config_flow.py treats an endpoint that does not present the
-- saved TLS pin.
use teslatlas_home_assistant.Prelude.{◌≡◌, refl, ap, ◌∙◌, ◌⊎◌, inl, inr, false, ◌∷◌, some, arith}
use teslatlas_home_assistant.Errors.{Error, Result, ok, err}
use teslatlas_home_assistant.Values.{null}
use teslatlas_home_assistant.Models.{HubEndpoint, HubInfo}
use teslatlas_home_assistant.Client.{Env, Client, Wire}
use teslatlas_home_assistant.Client.Create.{Options, create_client, init_client}
use teslatlas_home_assistant.Client.Snapshot.Identity.{discovery_request, async_probe-OnlyDiscovery}
use teslatlas_home_assistant.Flow.{Flow, Outcome, updated, World, clear_replacement}
use teslatlas_home_assistant.Flow.Checks.{
  Checked, passed, problem, raised, no_bearer, probe_with, probe_endpoint, has_saved_origin_binding,
}
use teslatlas_home_assistant.Flow.User.{EndpointInput, input_endpoint}
use teslatlas_home_assistant.Flow.Reconfigure.{
  move_unbound, move_probed, try_endpoint, async_step_reconfigure_confirm,
}

-- At most the anonymous discovery request was sent between the two.
abbrev pub OnlyProbed : Wire → Wire → Type 0
OnlyProbed w w' = (w'.sent ≡ w.sent) ⊎ (w'.sent ≡ discovery_request ∷ w.sent)

create_client-wire :
    (endpoint : HubEndpoint) (o : Options) (w : Wire) (c : Client)
    → create_client endpoint o w ≡ ok c
    → c.wire ≡ w
unfolding create_client init_client
create_client-wire endpoint o w c h = ground arith

probed_wire :
    (env : Env) (r : Result Client) (w : Wire)
    → ((c : Client) → r ≡ ok c → c.wire ≡ w)
    → OnlyProbed w (probe_with env r w).1
probed_wire env (err Error.contract) w h = inl refl
probed_wire env (err _) w h = inl refl
probed_wire env (ok c) w h = elim (async_probe-OnlyDiscovery env c) [
  | inl e ↦ inl (e ∙ ap (λ x. x.sent) (h c refl))
  | inr e ↦ inr (e ∙ ap (λ x. discovery_request ∷ x.sent) (h c refl))
]

-- Without the saved pin, the entry stays, and no flow update is made.
unbound_keeps :
    (w : World) (endpoint : HubEndpoint) (check : Checked HubInfo) (f : Flow)
    → has_saved_origin_binding f.entry_data endpoint ≡ false
    → let out : Outcome × Flow = move_probed w endpoint check f in
      (¬ (out.0 ≡ updated)) × (out.1.entry_data ≡ f.entry_data) × (out.1.wire ≡ f.wire)
unfolding move_probed move_unbound
unbound_keeps w endpoint (raised e) f h = (λ x. cc, refl, refl)
unbound_keeps w endpoint (problem x) f h = (λ x. cc, refl, refl)
unbound_keeps w endpoint (passed info) f h = (λ x. ground arith, ground arith, ground arith)

-- An endpoint that does not present the saved TLS pin never gets the saved bearer by a
-- reconfiguration: the step sends at most the anonymous discovery request, leaves the entry alone and
-- does not end with its update.
pub async_step_reconfigure_confirm_unbound :
    (w : World) (input : EndpointInput) (f : Flow)
    → has_saved_origin_binding f.entry_data (input_endpoint input) ≡ false
    → let out : Outcome × Flow = async_step_reconfigure_confirm w (some input) f in
      (¬ (out.0 ≡ updated))
      × (out.1.entry_data ≡ f.entry_data)
      × ((out.1.wire.sent ≡ f.wire.sent) ⊎ (out.1.wire.sent ≡ discovery_request ∷ f.wire.sent))
unfolding async_step_reconfigure_confirm try_endpoint probe_endpoint
async_step_reconfigure_confirm_unbound w input f h =
    let endpoint = input_endpoint input in
    let r = probe_endpoint w.env endpoint f.wire in
    let (never, entry, wire) =
      unbound_keeps w endpoint r.0 (record (clear_replacement f) { wire = r.1 }) h in
    (
      never,
      entry,
      rw wire (
          probed_wire w.env (create_client endpoint (no_bearer null) f.wire) f.wire
            (create_client-wire endpoint (no_bearer null) f.wire)),
    )
