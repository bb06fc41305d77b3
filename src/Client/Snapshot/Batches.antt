-- ===== src/Client/Snapshot/Batches.antt =====
-- The batched reads of a snapshot: every listed vehicle is observed once and in order, a vehicle
-- that cannot be reached stands alone, and the order in which reads fail does not decide success.
use teslatlas_home_assistant.Prelude.{
  ℕ, zero, suc, ◌≡◌, refl, ap, ◌↔◌, String, true, List, [], ◌∷◌, none, some, arith, length, inl,
  inr, All, ◌⊎◌,
}
use teslatlas_home_assistant.Errors.{Error, Result, ok, err, >>=-eq-ok}
use teslatlas_home_assistant.Values.{Value}
use teslatlas_home_assistant.Models.{VehicleState, unknown_vehicle}
use teslatlas_home_assistant.Payload.{vehicle_summary}
use teslatlas_home_assistant.Client.{Env}
use teslatlas_home_assistant.Client.Snapshot.{errors_of, pick, first_raised, settle, gather_batch}

-- What one summary and the outcome of its read put into the snapshot.
pub data Kept (s : Value) : Result VehicleState → VehicleState → Type 0 where
  observed : (v : VehicleState) → Kept s (ok v) v
  unreached :
      (id name : String)
      → vehicle_summary s ≡ ok (id, name)
      → Kept s (err Error.connection) (unknown_vehicle id name true)

-- The same for all summaries of a batch, in order.
pub data AllKept : List Value → List (Result VehicleState) → List VehicleState → Type 0 where
  done : AllKept [] [] []
  more :
      {s : Value} {r : Result VehicleState} {v : VehicleState} {ss : List Value}
      {rs : List (Result VehicleState)} {vs : List VehicleState}
      → Kept s r v
      → AllKept ss rs vs
      → AllKept (s ∷ ss) (r ∷ rs) (v ∷ vs)

settle_sound :
    (ss : List Value) (rs : List (Result VehicleState)) (vs : List VehicleState)
    → length ss ≡ length rs
    → settle ss rs ≡ ok vs
    → AllKept ss rs vs
unfolding settle
settle_sound [] [] [] n h = done
settle_sound [] [] (v ∷ vs) n h = absurd (ground arith)
settle_sound [] (r ∷ rs) vs n h = absurd (omega arith)
settle_sound (s ∷ ss) [] vs n h = absurd (omega arith)
settle_sound (s ∷ ss) (ok v ∷ rs) vs n h =
    let (ws, e, last) = >>=-eq-ok (settle ss rs) (λ ws. ok (v ∷ ws)) h in
    let whole : v ∷ ws ≡ vs = cc in
    rw (← whole) (more (observed v) (settle_sound ss rs ws (omega arith) e))
settle_sound (s ∷ ss) (err Error.connection ∷ rs) vs n h =
    let ((id, name), es, later) = >>=-eq-ok (vehicle_summary s) _ h in
    let (ws, e, last) = >>=-eq-ok (settle ss rs) _ later in
    let whole : unknown_vehicle id name true ∷ ws ≡ vs = cc in
    rw (← whole) (more (unreached id name es) (settle_sound ss rs ws (omega arith) e))
settle_sound (s ∷ ss) (err _ ∷ rs) vs n h = cc

settle_complete :
    {ss : List Value} {rs : List (Result VehicleState)} {vs : List VehicleState}
    → AllKept ss rs vs
    → settle ss rs ≡ ok vs
unfolding settle
settle_complete done = refl
settle_complete (more (observed v) k) = rw (settle_complete k)
settle_complete (more (unreached id name e) k) = rw (e, settle_complete k)

-- Nothing but failures of the connection.
abbrev AllConnection : List Error → Type 0
AllConnection = All (λ e. e ≡ Error.connection)

AllKept-AllConnection :
    {ss : List Value} {rs : List (Result VehicleState)} {vs : List VehicleState}
    → AllKept ss rs vs
    → AllConnection (errors_of rs)
unfolding errors_of
AllKept-AllConnection done = tt
AllKept-AllConnection (more (observed v) k) = AllKept-AllConnection k
AllKept-AllConnection (more (unreached id name e) k) = (refl, AllKept-AllConnection k)

pick-AllConnection :
    (n : ℕ) (es : List Error)
    → AllConnection es
    → (pick n es ≡ none) ⊎ (pick n es ≡ some Error.connection)
unfolding pick
pick-AllConnection n [] h = inl refl
pick-AllConnection zero (e ∷ es) h = inr (ap some h.0)
pick-AllConnection (suc n) (e ∷ []) h = inr (ap some h.0)
pick-AllConnection (suc n) (e ∷ e' ∷ es) h = pick-AllConnection n (e' ∷ es) h.1

gather_batch-settle :
    (env : Env) (ss : List Value) (rs : List (Result VehicleState)) (vs : List VehicleState)
    → gather_batch env ss rs ≡ ok vs
    → settle ss rs ≡ ok vs
unfolding gather_batch
gather_batch-settle env ss rs vs h = ground arith

gather_batch_complete :
    (env : Env) (ss : List Value) (rs : List (Result VehicleState)) (vs : List VehicleState)
    → AllKept ss rs vs
    → gather_batch env ss rs ≡ ok vs
unfolding gather_batch first_raised
gather_batch_complete env ss rs vs k =
    elim (pick-AllConnection (env.earliest (errors_of rs)) (errors_of rs)
      (AllKept-AllConnection k)) [
        | inl e ↦ rw (e, gather_batch) (settle_complete k)
        | inr e ↦ rw (e, gather_batch) (settle_complete k)
      ]

-- A batch succeeds with the observations `vs` exactly when every read has succeeded or has failed
-- only to reach the Hub, and `vs` has for each summary, in order, its observation or the vehicle
-- marked as failed. This holds whichever failing read the environment lets fail first.
pub gather_batch-AllKept :
    (env : Env) (ss : List Value) (rs : List (Result VehicleState)) (vs : List VehicleState)
    → length ss ≡ length rs
    → (gather_batch env ss rs ≡ ok vs) ↔ AllKept ss rs vs
gather_batch-AllKept env ss rs vs n = (
  (λ h. settle_sound ss rs vs n (gather_batch-settle env ss rs vs h)),
  (λ k. gather_batch_complete env ss rs vs k),
)
