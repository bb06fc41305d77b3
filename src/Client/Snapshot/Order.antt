-- ===== src/Client/Snapshot/Order.antt =====
-- A snapshot has each listed vehicle once, under the identifier and in the order of the list.
use mathlib.Core.List.{map-append}
use teslatlas_home_assistant.Prelude.{
  ℕ, zero, suc, ◌≤◌, ◌≡◌, refl, sym, ap, ◌∙◌, String, false, List, [], ◌∷◌, ◌++◌, Option, none,
  some, arith, length, take, drop, take-append-drop, length-drop, inl, inr, ◌⊎◌, All, eq_iff,
}
use teslatlas_home_assistant.Errors.{Result, ok}
use teslatlas_home_assistant.Errors.{ok-injective}
use teslatlas_home_assistant.Credentials.{Datetime}
use teslatlas_home_assistant.Values.{Value, Dict}
use teslatlas_home_assistant.Task
use teslatlas_home_assistant.Task.{after, ◌>>=◌, ◌>>◌}
use teslatlas_home_assistant.Models.{VehicleState, HubInfo, HubSnapshot, create, no_status, collect}
use teslatlas_home_assistant.Models.Vehicles.{ids, keys, occurs, AreDistinct, collect_distinct}
use teslatlas_home_assistant.Payload.{vehicle_summary}
use teslatlas_home_assistant.Client.{Env, Client, current}
use teslatlas_home_assistant.Client.Decode.{read_fields, contains}
use teslatlas_home_assistant.Client.Calls.{async_current, or_nothing, observation}
use teslatlas_home_assistant.Client.Http.{async_json}
use teslatlas_home_assistant.Client.Snapshot.{
  run_reads, read_batch, read_batches, check_unique, observe,
}
use teslatlas_home_assistant.Client.Snapshot.Batches.{
  Kept, observed, unreached, AllKept, done, more, gather_batch-AllKept,
}

-- The summary is an object with this identifier.
abbrev pub HasId : Value → String → Type 0
HasId s k = (name : String) × (vehicle_summary s ≡ ok (k, name))

-- The identifiers of a vehicle list, in order.
abbrev pub Listed : List Value → List String → Type 0
Listed [] [] = Unit
Listed (s ∷ ss) (k ∷ ks) = HasId s k × Listed ss ks
Listed _ _ = ⊥

read_fields-id :
    (id name : String) (payload : Dict) (v : VehicleState)
    → read_fields id name payload ≡ ok v
    → v.vehicle_id ≡ id
unfolding read_fields
read_fields-id id name payload v h = ground arith

observation-id :
    (env : Env) (id name : String) (reply : Option Dict) (c : Client) (v : VehicleState)
    → (observation env id name reply c).0 ≡ ok v
    → v.vehicle_id ≡ id
unfolding observation
observation-id env id name none c v h = ground arith
observation-id env id name (some payload) c v h =
    let (w, e, later) = Task.>>=-eq-ok (Task.lift (read_fields id name payload)) _ c h in
    let same = read_fields-id id name payload w e in ground arith

async_current-HasId :
    (env : Env) (s : Value) (c : Client) (v : VehicleState)
    → (async_current env s c).0 ≡ ok v
    → HasId s v.vehicle_id
unfolding async_current
async_current-HasId env s c v h =
    let ((id, name), es, later) = Task.>>=-eq-ok (Task.lift (vehicle_summary s)) _ c h in
    let (reply, er, last) =
      Task.>>=-eq-ok (async_json env or_nothing (current id) none) (observation env id name) c
        later in
    let same = observation-id env id name reply _ v last in (name, rw same es)

Kept-HasId :
    {s : Value} {r : Result VehicleState} {v : VehicleState}
    → Kept s r v
    → (r ≡ ok v) ⊎ HasId s v.vehicle_id
Kept-HasId (observed v) = inl refl
Kept-HasId (unreached id name e) = inr (name, e)

length-run_reads :
    (env : Env) (ss : List Value) (c : Client) → length ss ≡ length (run_reads env ss c).0
unfolding run_reads
length-run_reads env [] c = refl
length-run_reads env (s ∷ ss) c = ap suc (length-run_reads env ss (async_current env s c).1)

-- The outcomes of a list of reads, read off one by one.
AllKept-Listed :
    (env : Env) (ss : List Value) (c : Client) (rs : List (Result VehicleState))
    (vs : List VehicleState)
    → rs ≡ (run_reads env ss c).0
    → AllKept ss rs vs
    → Listed ss (ids vs)
unfolding run_reads
AllKept-Listed env ss c rs vs e done = tt
AllKept-Listed env (s ∷ ss) c (r ∷ rs) (v ∷ vs) e (more k ks) =
    let head : r ≡ (async_current env s c).0 = ground arith in
    let tail : rs ≡ (run_reads env ss (async_current env s c).1).0 = ground arith in
    (
      elim (Kept-HasId k) [
        | inl same ↦ async_current-HasId env s c v (sym head ∙ same)
        | inr known ↦ known
      ],
      AllKept-Listed env ss (async_current env s c).1 rs vs tail ks,
    )

read_batch-Listed :
    (env : Env) (ss : List Value) (c : Client) (vs : List VehicleState)
    → (read_batch env ss c).0 ≡ ok vs
    → Listed ss (ids vs)
unfolding read_batch
read_batch-Listed env ss c vs h =
    let outcomes = (run_reads env ss c).0 in
    AllKept-Listed env ss c outcomes vs refl
      ((gather_batch-AllKept env ss outcomes vs (length-run_reads env ss c)).0 h)

Listed-append :
    (ss ss' : List Value) (ks ks' : List String)
    → Listed ss ks
    → Listed ss' ks'
    → Listed (ss ++ ss') (ks ++ ks')
Listed-append [] ss' [] ks' h h' = h'
Listed-append [] ss' (k ∷ ks) ks' h h' = absurd h
Listed-append (s ∷ ss) ss' [] ks' h h' = absurd h
Listed-append (s ∷ ss) ss' (k ∷ ks) ks' h h' = (h.0, Listed-append ss ss' ks ks' h.1 h')

read_batches-Listed :
    (rounds : ℕ) (env : Env) (ss : List Value) (c : Client) (vs : List VehicleState)
    → length ss ≤ rounds
    → (read_batches rounds env ss c).0 ≡ ok vs
    → Listed ss (ids vs)
unfolding read_batches
read_batches-Listed zero env [] c vs n h = let e : [] ≡ vs = ground arith in rw (← e) tt
read_batches-Listed zero env (s ∷ ss) c vs n h = absurd (omega arith)
read_batches-Listed (suc rounds) env [] c vs n h = let e : [] ≡ vs = ground arith in rw (← e) tt
read_batches-Listed (suc rounds) env (s ∷ ss) c vs n h =
    let (batch, eb, later) = Task.>>=-eq-ok (read_batch env (take 4 (s ∷ ss))) _ c h in
    let c' = (read_batch env (take 4 (s ∷ ss)) c).1 in
    let (rest, er, last) = Task.>>=-eq-ok (read_batches rounds env (drop 4 (s ∷ ss))) _ c' later in
    let whole : batch ++ rest ≡ vs = ground arith in
    let few : length (drop 3 ss) ≤ rounds = omega (arith, length-drop 3 ss) in
    let parts =
      Listed-append (take 4 (s ∷ ss)) (drop 4 (s ∷ ss)) (ids batch) (ids rest)
        (read_batch-Listed env (take 4 (s ∷ ss)) c batch eb)
        (read_batches-Listed rounds env (drop 4 (s ∷ ss)) c' rest few er) in
    rw (← whole, map-append) (rw (take-append-drop 4 (s ∷ ss)) at parts)

new_of_unseen :
    (seen ks : List String) (k : String)
    → All (λ j. contains (k ∷ seen) j ≡ false) ks
    → (occurs k ks ≡ false) × All (λ j. contains seen j ≡ false) ks
new_of_unseen seen [] k h = (refl, tt)
new_of_unseen seen (j ∷ ks) k h =
    let rest = new_of_unseen seen ks k h.1 in
    (ground (arith, h.0, rest.0, eq_iff j k, eq_iff k j), (ground (arith, h.0), rest.1))

check_unique_step :
    (seen : List String) (s : Value) (ss : List Value) (k name : String)
    → vehicle_summary s ≡ ok (k, name)
    → check_unique seen (s ∷ ss) ≡ ok tt
    → (contains seen k ≡ false) × (check_unique (k ∷ seen) ss ≡ ok tt)
unfolding check_unique
check_unique_step seen s ss k name e h = ground arith

check_unique-AreDistinct :
    (seen : List String) (ss : List Value) (ks : List String)
    → Listed ss ks
    → check_unique seen ss ≡ ok tt
    → AreDistinct ks × All (λ k. contains seen k ≡ false) ks
check_unique-AreDistinct seen [] [] l h = (tt, tt)
check_unique-AreDistinct seen [] (k ∷ ks) l h = absurd l
check_unique-AreDistinct seen (s ∷ ss) [] l h = absurd l
check_unique-AreDistinct seen (s ∷ ss) (k ∷ ks) l h =
    let ((name, e), others) = l in
    let (fresh, later) = check_unique_step seen s ss k name e h in
    let (distinct, unseen) = check_unique-AreDistinct (k ∷ seen) ss ks others later in
    let (new, apart) = new_of_unseen seen ks k unseen in ((new, distinct), (fresh, apart))

shown :
    (info : HubInfo) (ss : List Value) (vs : List VehicleState) (t : Datetime) (snap : HubSnapshot)
    → Listed ss (ids vs)
    → AreDistinct (ids vs)
    → create info no_status vs t ≡ snap
    → (snap.info ≡ info) × Listed ss (keys snap.vehicles) × AreDistinct (keys snap.vehicles)
unfolding create
shown info ss vs t snap listed distinct whole =
    let same : keys (collect [] vs) ≡ ids vs = collect_distinct vs [] distinct in
    rw (← whole) (refl, rw same listed, rw same distinct)

-- A snapshot that is returned shows the Hub that was identified and, under no identifier twice, the
-- vehicles of the list with their identifiers and in their order: none is lost and none is added.
pub observe-Listed :
    (env : Env) (info : HubInfo) (ss : List Value) (c : Client) (snap : HubSnapshot)
    → (observe env info ss c).0 ≡ ok snap
    → (snap.info ≡ info) × Listed ss (keys snap.vehicles) × AreDistinct (keys snap.vehicles)
unfolding observe
observe-Listed env info ss c snap h =
    let (unit, unique, later) = Task.>>=-eq-ok (Task.lift (check_unique [] ss)) _ c h in
    let (vs, ev, last) = Task.>>=-eq-ok (read_batches (length ss) env ss) _ c later in
    let listed = read_batches-Listed (length ss) env ss c vs (omega arith) ev in
    let (distinct, _) = check_unique-AreDistinct [] ss (ids vs) listed unique in
    shown info ss vs _ snap listed distinct (ok-injective last)
