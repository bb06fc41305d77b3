-- ===== src/Client/Snapshot.antt =====
-- `async_snapshot` of current_hub_client.py: discovery, the vehicle list, and the reads of the
-- current observations in batches of four. The reads of a batch run as tasks of their own; here they
-- run one after the other, each against replies that are not restricted, and the environment says
-- which failure of a batch comes first. A read that the source would still cancel after that failure
-- has run here, with no effect but its request.
pub mod Batches
pub mod Order
pub mod Identity
use teslatlas_home_assistant.Prelude.{
  ℕ, zero, suc, ◌+◌, String, Bool, true, false, not, List, [], ◌∷◌, ◌++◌, Option, none, some, leb,
  length, take, drop, str_eq, if◌then◌else◌,
}
use teslatlas_home_assistant.Errors.{Error, Result, ok, err, guard, is_connection}
use teslatlas_home_assistant.Errors
use teslatlas_home_assistant.Values.{Value, Dict, list, get, items}
use teslatlas_home_assistant.Task.{Task, pure, lift, ◌>>=◌, ◌>>◌}
use teslatlas_home_assistant.Models.{
  HubInfo, HubSnapshot, VehicleState, unknown_vehicle, no_status, create,
}
use teslatlas_home_assistant.Payload.{vehicle_summary}
use teslatlas_home_assistant.Client.{Env, Client, vehicles, now}
use teslatlas_home_assistant.Client.Decode.{assert_payload, contains}
use teslatlas_home_assistant.Client.Http.{async_json, ensure_open}
use teslatlas_home_assistant.Client.Calls.{with_bearer, identify, async_current}

abbrev pub max_current_reads : ℕ
max_current_reads = 4

abbrev pub max_vehicles : ℕ
max_vehicles = 10000

unfoldable pub vehicle_list : Value → Result (List Value)
vehicle_list (list vs) =
    if leb (length (items vs)) max_vehicles then ok (items vs) else err Error.contract
vehicle_list _ = err Error.contract

-- The loop that refuses an identifier that was seen before.
unfoldable pub check_unique : List String → List Value → Result (Unit {0})
check_unique seen [] = ok tt
check_unique seen (s ∷ ss) =
    Errors.◌>>=◌ (vehicle_summary s)
      (λ v. if contains seen v.0 then err Error.contract else check_unique (v.0 ∷ seen) ss)

-- The reads of one batch, each with its own outcome.
unfoldable pub run_reads : Env → List Value → Client → List (Result VehicleState) × Client
run_reads env [] c = ([], c)
run_reads env (s ∷ ss) c =
    let (r, c') = async_current env s c in let (rs, c'') = run_reads env ss c' in (r ∷ rs, c'')

errors_of : List (Result VehicleState) → List Error
errors_of [] = []
errors_of (ok v ∷ rs) = errors_of rs
errors_of (err e ∷ rs) = e ∷ errors_of rs

pick : ℕ → List Error → Option Error
pick n [] = none
pick zero (e ∷ es) = some e
pick (suc n) (e ∷ []) = some e
pick (suc n) (e ∷ e' ∷ es) = pick n (e' ∷ es)

-- What `asyncio.gather` raises, if anything: the failure that comes first.
unfoldable pub first_raised : Env → List (Result VehicleState) → Option Error
unfolding errors_of pick
first_raised env rs = pick (env.earliest (errors_of rs)) (errors_of rs)

-- The loop over the summaries and the outcomes: a vehicle that could not be reached is kept as
-- unknown, any other failure is raised.
unfoldable pub settle : List Value → List (Result VehicleState) → Result (List VehicleState)
settle (s ∷ ss) (ok v ∷ rs) = Errors.◌>>=◌ (settle ss rs) (λ vs. ok (v ∷ vs))
settle (s ∷ ss) (err Error.connection ∷ rs) =
    Errors.◌>>=◌ (vehicle_summary s)
      (λ v. Errors.◌>>=◌ (settle ss rs) (λ vs. ok (unknown_vehicle v.0 v.1 true ∷ vs)))
settle (s ∷ ss) (err e ∷ rs) = err e
settle _ _ = ok []

unfoldable pub gather_batch :
    Env → List Value → List (Result VehicleState) → Result (List VehicleState)
unfolding is_connection
gather_batch env batch outcomes = elim (first_raised env outcomes) [
  | none ↦ settle batch outcomes
  | some e ↦ if is_connection e then settle batch outcomes else err e
]

unfoldable pub read_batch : Env → List Value → Task Client (List VehicleState)
read_batch env batch c =
    let (outcomes, c') = run_reads env batch c in (gather_batch env batch outcomes, c')

-- The loop over the offsets 0, 4, 8, …, with a bound on its rounds.
unfoldable pub read_batches : ℕ → Env → List Value → Task Client (List VehicleState)
read_batches zero env ss = pure []
read_batches (suc rounds) env [] = pure []
read_batches (suc rounds) env (s ∷ ss) = do
  observed ← read_batch env (take max_current_reads (s ∷ ss))
  rest ← read_batches rounds env (drop max_current_reads (s ∷ ss))
  pure (observed ++ rest)

-- What follows once the vehicle list is known.
unfoldable pub observe : Env → HubInfo → List Value → Task Client HubSnapshot
observe env info summaries = do
  lift (check_unique [] summaries)
  observations ← read_batches (length summaries) env summaries
  reading ← now env
  pure (create info no_status observations reading)

-- `ensure_open` stands before the lock and again behind it.
unfoldable pub async_snapshot : Env → Task Client HubSnapshot
async_snapshot env = do
  ensure_open
  ensure_open
  info ← identify env
  reply ← async_json env with_bearer vehicles none
  payload ← lift (assert_payload reply)
  summaries ← lift (vehicle_list (get "vehicles" payload))
  observe env info summaries
