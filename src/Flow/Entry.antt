-- ===== src/Flow/Entry.antt =====
-- The steps of a flow of config_flow.py in any order, and the Hub of the entry that it is about.
pub mod Hub
use teslatlas_home_assistant.Prelude.{
  ◌≡◌, refl, inl, inr, ◌∙◌, ℕ, String, Bool, true, false, not, Option, none, some, str_eq,
  if◌then◌else◌, Option-cases,
}
use teslatlas_home_assistant.Values.{Value, Dict, get, get-put}
use teslatlas_home_assistant.Models.{HubEndpoint, HubInfo, PairingResult}
use teslatlas_home_assistant.Flow.{
  Problem, Flow, Pending, Candidate, Outcome, World, async_remove, set_pending, put_credential,
  put_endpoint,
}
use teslatlas_home_assistant.Flow.Checks.{
  Checked, passed, problem, raised, Invitation, has_saved_origin_binding,
}
use teslatlas_home_assistant.Flow.User.{
  EndpointInput, accept_probed, accept_endpoint, async_step_user, finish_pairing, validate_pairing,
  async_step_pair_validate, accept_claim, pair_endpoint, async_step_pair,
}
use teslatlas_home_assistant.Flow.Reauth.{
  finish_reauth, settle_reauth, validate_reauth, async_step_reauth_validate, accept_reauth,
  settle_claim, async_step_reauth_confirm,
}
use teslatlas_home_assistant.Flow.Reconfigure.{
  or_else, answer_approval, may_replace, finish_move, move_bound, move_unbound, move_probed,
  try_endpoint, async_step_reconfigure_confirm, finish_replacement, settle_replacement,
  validate_replacement, async_step_reconfigure_validate, settle_replacement_claim,
  claim_replacement, async_step_reconfigure_pair, async_step_reconfigure_tls, approved_replacement,
}

-- A call of Home Assistant's flow manager, with what the user has entered.
pub data Step : Type 0 where
  user : Option EndpointInput → Step
  pair : Option Invitation → Step
  pair_validate : Bool → Step
  reauth_confirm : Option Invitation → Step
  reauth_validate : Bool → Step
  reconfigure_confirm : Option EndpointInput → Step
  reconfigure_tls : Option Bool → Step
  reconfigure_pair : Option Invitation → Step
  reconfigure_validate : Bool → Step

unfoldable pub run_step : World → Step → Flow → Outcome × Flow
run_step w (user input) f = async_step_user w input f
run_step w (pair input) f = async_step_pair w input f
run_step w (pair_validate input) f = async_step_pair_validate w input f
run_step w (reauth_confirm input) f = async_step_reauth_confirm w input f
run_step w (reauth_validate input) f = async_step_reauth_validate w input f
run_step w (reconfigure_confirm input) f = async_step_reconfigure_confirm w input f
run_step w (reconfigure_tls input) f = async_step_reconfigure_tls w input f
run_step w (reconfigure_pair input) f = async_step_reconfigure_pair w input f
run_step w (reconfigure_validate input) f = async_step_reconfigure_validate w input f

-- What steps and a removal make of a flow.
pub data Reaches (w : World) (f : Flow) : Flow → Type 0 where
  start : Reaches w f f
  next : {g : Flow} → Reaches w f g → (s : Step) → Reaches w f (run_step w s g).1
  removed : {g : Flow} → Reaches w f g → Reaches w f (async_remove g)

abbrev hub : Flow → Value
hub f = get "hub_id" f.entry_data

put_credential-hub :
    (r : PairingResult) (d : Dict) → get "hub_id" (put_credential r d) ≡ get "hub_id" d
unfolding put_credential
put_credential-hub r d = simp get-put

put_endpoint-hub : (e : HubEndpoint) (d : Dict) → get "hub_id" (put_endpoint e d) ≡ get "hub_id" d
unfolding put_endpoint
put_endpoint-hub e d = simp get-put

-- The Hub of the entry is the given one afterwards.
data Keeps (v : Value) (out : Outcome × Flow) : Type 0 where
  keeps : hub out.1 ≡ v → Keeps v out

Keeps-from : {v v' : Value} {out : Outcome × Flow} → v ≡ v' → Keeps v out → Keeps v' out
Keeps-from e (keeps k) = keeps (k ∙ e)

kept : {v : Value} {out : Outcome × Flow} → Keeps v out → hub out.1 ≡ v
kept (keeps k) = k

if-hub :
    {v : Value} (b : Bool) {x y : Outcome × Flow}
    → Keeps v x
    → Keeps v y
    → Keeps v (if b then x else y)
if-hub true a c = a
if-hub false a c = c

or_else-hub :
    {A : Type 0} {v : Value} (o : Option A) {out : Outcome × Flow} {k : A → Outcome × Flow}
    → Keeps v out
    → ((a : A) → Keeps v (k a))
    → Keeps v (or_else o out k)
or_else-hub none d h = d
or_else-hub (some a) d h = h a

accept_probed-hub :
    (w : World) (e : HubEndpoint) (check : Checked HubInfo) (f : Flow)
    → Keeps (hub f) (accept_probed w e check f)
unfolding accept_probed
accept_probed-hub w e (passed i) f = keeps refl
accept_probed-hub w e (problem x) f = keeps refl
accept_probed-hub w e (raised x) f = keeps refl

finish_pairing-hub :
    (e : HubEndpoint) (r : PairingResult) (check : Checked (Unit {0})) (f : Flow)
    → Keeps (hub f) (finish_pairing e r check f)
unfolding finish_pairing
finish_pairing-hub e r (passed i) f = keeps refl
finish_pairing-hub e r (problem Problem.wrong_hub) f = keeps refl
finish_pairing-hub e r (problem Problem.invalid_auth) f = keeps refl
finish_pairing-hub e r (problem _) f = keeps refl
finish_pairing-hub e r (raised x) f = keeps refl

pair_validate-hub :
    (w : World) (b : Bool) (f : Flow) → Keeps (hub f) (async_step_pair_validate w b f)
unfolding async_step_pair_validate validate_pairing
pair_validate-hub w b f = elim (Option-cases f.endpoint) [
  | inl e ↦ rw e (keeps refl)
  | inr (endpoint, e) ↦ elim (Option-cases f.pending) [
    | inl e' ↦ rw (e, e') (keeps refl)
    | inr (p, e') ↦ rw (e, e') (if-hub b (finish_pairing-hub endpoint p.result _ _) (keeps refl))
  ]
]

accept_claim-hub :
    (w : World) (h : String) (check : Checked PairingResult) (f : Flow)
    → Keeps (hub f) (accept_claim w h check f)
unfolding accept_claim
accept_claim-hub w h (passed r) f =
    if-hub (str_eq r.info.hub_id h) (pair_validate-hub w true (set_pending r f)) (keeps refl)
accept_claim-hub w h (problem Problem.wrong_hub) f = keeps refl
accept_claim-hub w h (problem _) f = keeps refl
accept_claim-hub w h (raised x) f = keeps refl

pair-hub : (w : World) (i : Option Invitation) (f : Flow) → Keeps (hub f) (async_step_pair w i f)
unfolding async_step_pair pair_endpoint
pair-hub w none f = keeps refl
pair-hub w (some i) f = elim (Option-cases f.endpoint) [
  | inl e ↦ rw e (keeps refl)
  | inr (endpoint, e) ↦ elim (Option-cases f.info) [
    | inl e' ↦ rw (e, e') (keeps refl)
    | inr (info, e') ↦ rw (e, e') (accept_claim-hub w info.hub_id _ _)
  ]
]

finish_move-hub :
    (e : HubEndpoint) (check : Checked (Unit {0})) (f : Flow)
    → Keeps (hub f) (finish_move e check f)
unfolding finish_move
finish_move-hub e (passed i) f = keeps (put_endpoint-hub e f.entry_data)
finish_move-hub e (problem Problem.wrong_hub) f = keeps refl
finish_move-hub e (problem _) f = keeps refl
finish_move-hub e (raised x) f = keeps refl

move_probed-hub :
    (w : World) (e : HubEndpoint) (check : Checked HubInfo) (f : Flow)
    → Keeps (hub f) (move_probed w e check f)
unfolding move_probed move_bound move_unbound
move_probed-hub w e (passed i) f = if-hub (not (str_eq i.hub_id w.entry_unique_id)) (keeps refl) (
    if-hub (has_saved_origin_binding f.entry_data e) (finish_move-hub e _ _)
      (if-hub (may_replace e) (keeps refl) (keeps refl)))
move_probed-hub w e (problem x) f = keeps refl
move_probed-hub w e (raised x) f = keeps refl

finish_reauth-hub :
    (p : Pending) (check : Checked (Unit {0})) (f : Flow) → Keeps (hub f) (finish_reauth p check f)
unfolding finish_reauth
finish_reauth-hub p (passed i) f = keeps (put_credential-hub p.result f.entry_data)
finish_reauth-hub p (problem Problem.wrong_hub) f = keeps refl
finish_reauth-hub p (problem Problem.invalid_auth) f = keeps refl
finish_reauth-hub p (problem _) f = keeps refl
finish_reauth-hub p (raised x) f = keeps refl

settle_reauth-hub :
    (n : ℕ) (p : Pending) (check : Checked (Unit {0})) (f : Flow)
    → Keeps (hub f) (settle_reauth n p check f)
unfolding settle_reauth
settle_reauth-hub n p (passed i) f = search (if-hub, keeps, finish_reauth-hub)
settle_reauth-hub n p (problem x) f = search (if-hub, keeps, finish_reauth-hub)
settle_reauth-hub n p (raised x) f = keeps refl

finish_replacement-hub :
    (e : HubEndpoint) (r : PairingResult) (check : Checked (Unit {0})) (f : Flow)
    → Keeps (hub f) (finish_replacement e r check f)
unfolding finish_replacement
finish_replacement-hub e r (passed i) f =
    keeps (put_credential-hub r (put_endpoint e f.entry_data) ∙ put_endpoint-hub e f.entry_data)
finish_replacement-hub e r (problem Problem.wrong_hub) f = keeps refl
finish_replacement-hub e r (problem Problem.invalid_auth) f = keeps refl
finish_replacement-hub e r (problem _) f = keeps refl
finish_replacement-hub e r (raised x) f = keeps refl

settle_replacement-hub :
    (c : Candidate) (h : String) (p : Pending) (check : Checked (Unit {0})) (f : Flow)
    → Keeps (hub f) (settle_replacement c h p check f)
unfolding settle_replacement
settle_replacement-hub c h p (passed i) f = search (if-hub, keeps, finish_replacement-hub)
settle_replacement-hub c h p (problem x) f = search (if-hub, keeps, finish_replacement-hub)
settle_replacement-hub c h p (raised x) f = keeps refl
