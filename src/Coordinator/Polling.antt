-- ===== src/Coordinator/Polling.antt =====
-- The polling schedule after every way in which a poll can end.
use teslatlas_home_assistant.Prelude.{
  ℕ, zero, suc, ◌+◌, ◌≤◌, ◌≡◌, refl, ◌⊎◌, inl, inr, true, false, arith, Bool-cases,
}
use teslatlas_home_assistant.Errors.{Error, Result, ok, err}
use teslatlas_home_assistant.Values.{Value, get, has, is_text}
use teslatlas_home_assistant.Models.{HubSnapshot}
use teslatlas_home_assistant.Task.{Task, after}
use teslatlas_home_assistant.Task.Leaves.{Leaves, Leaves-pure, Leaves-lift, Leaves-if, Leaves-bind}
use teslatlas_home_assistant.Credentials.{validate_epoch_milliseconds}
use teslatlas_home_assistant.Client.Snapshot.{async_snapshot}
use teslatlas_home_assistant.Client.{Env, Client}
use teslatlas_home_assistant.Coordinator.{
  Coordinator, Update, updated, auth_failed, update_failed, raised, rotate_bearer, admit_rotated,
  activate, rotate_stored, rotate_unless_early, backoff, on_client, now_ms, is_early,
  async_rotate_bearer_if_due, poll, finish_poll, async_update_data,
}

-- The failures in a row and the interval in seconds.
abbrev pub schedule : Coordinator → ℕ × ℕ
schedule s = (s.failure_count, s.update_interval)

-- The wait in seconds after a failed poll, of the number of failures in a row before it.
abbrev pub Waits : ℕ → ℕ → Type 0
Waits n t =
    ((n ≡ 0) × (t ≡ 30)) ⊎ ((n ≡ 1) × (t ≡ 60)) ⊎ ((n ≡ 2) × (t ≡ 120)) ⊎ ((3 ≤ n) × (t ≡ 300))

-- The update ends in this way, and the schedule stays.
abbrev pub Keeps : Update → ℕ × ℕ → Update × Coordinator → Type 0
Keeps u before (v, s') = (v ≡ u) × (schedule s' ≡ before)

-- One failure more is counted.
abbrev pub BacksOff : ℕ × ℕ → Update × Coordinator → Type 0
BacksOff before (v, s') =
    (v ≡ update_failed) × (s'.failure_count ≡ before.0 + 1) × Waits before.0 s'.update_interval

-- The schedule is that of a coordinator without failures.
abbrev pub Resets : HubSnapshot → Update × Coordinator → Type 0
Resets snap (v, s') = (v ≡ updated snap) × (s'.failure_count ≡ 0) × (s'.update_interval ≡ 30)

-- What an update comes to that starts with this schedule, by what its poll has brought and left. The
-- Hub is the one that the entry's data names after the poll.
abbrev pub Schedules : ℕ × ℕ → Result HubSnapshot × Coordinator → Update × Coordinator → Type 0
Schedules before (err Error.authentication, t) out = Keeps auth_failed before out
Schedules before (err Error.identity, t) out = Keeps auth_failed before out
Schedules before (err Error.connection, t) out = BacksOff before out
Schedules before (err Error.contract, t) out = BacksOff before out
Schedules before (err Error.protocol_unavailable, t) out = BacksOff before out
Schedules before (err Error.credential_expired, t) out = BacksOff before out
Schedules before (err e, t) out = Keeps (raised e) before out
Schedules before (ok snap, t) out =
    ((has "hub_id" t.entry_data ≡ false) × Keeps (raised Error.key_error) before out)
    ⊎ ((has "hub_id" t.entry_data ≡ true)
        × (is_text snap.info.hub_id (get "hub_id" t.entry_data) ≡ false)
        × Keeps auth_failed before out)
    ⊎ ((is_text snap.info.hub_id (get "hub_id" t.entry_data) ≡ true) × Resets snap out)

-- The poll is the reading of a snapshot, if the rotation has raised nothing.
abbrev pub Polls : Env → ℕ × ℕ → Result (Unit {0}) × Coordinator → Update × Coordinator → Type 0
Polls env before (err e, t) out = Schedules before (err e, t) out
Polls env before (ok u, t) out =
    let (r, c) = async_snapshot env t.client in Schedules before (r, record t { client = c }) out

Waits-backoff : (n : ℕ) → Waits n (backoff n)
unfolding backoff
Waits-backoff zero = inl (refl, refl)
Waits-backoff (suc zero) = inr (inl (refl, refl))
Waits-backoff (suc (suc zero)) = inr (inr (inl (refl, refl)))
Waits-backoff (suc (suc (suc n))) = inr (inr (inr (omega arith, refl)))

accept_poll-Schedules :
    (s : Coordinator) (snap : HubSnapshot)
    → Schedules (schedule s) (ok snap, s) (finish_poll (ok snap) s)
unfolding finish_poll
accept_poll-Schedules s snap = elim (Bool-cases (has "hub_id" s.entry_data)) [
  | inr missing ↦ inl (missing, ground arith)
  | inl present ↦ elim (Bool-cases (is_text snap.info.hub_id (get "hub_id" s.entry_data))) [
    | inr other ↦ inr (inl (present, other, ground arith))
    | inl same ↦ inr (inr (same, ground arith))
  ]
]

finish_poll-Schedules :
    (s : Coordinator) (r : Result HubSnapshot) → Schedules (schedule s) (r, s) (finish_poll r s)
unfolding finish_poll
finish_poll-Schedules s (ok snap) = accept_poll-Schedules s snap
finish_poll-Schedules s (err Error.authentication) = (refl, refl)
finish_poll-Schedules s (err Error.identity) = (refl, refl)
finish_poll-Schedules s (err Error.connection) = (refl, omega arith, Waits-backoff s.failure_count)
finish_poll-Schedules s (err Error.contract) = (refl, omega arith, Waits-backoff s.failure_count)
finish_poll-Schedules s (err Error.protocol_unavailable) =
    (refl, omega arith, Waits-backoff s.failure_count)
finish_poll-Schedules s (err Error.credential_expired) =
    (refl, omega arith, Waits-backoff s.failure_count)
finish_poll-Schedules s (err _) = (refl, refl)

on_client-schedule : {A : Type 0} (m : Task Client A) → Leaves schedule (on_client m)
on_client-schedule m = record { at = λ s. refl }

now_ms-schedule : (env : Env) → Leaves schedule (now_ms env)
now_ms-schedule env = record { at = λ s. ground arith }

rotate_bearer-schedule : (env : Env) → Leaves schedule (rotate_bearer env)
unfolding rotate_bearer admit_rotated activate
rotate_bearer-schedule env = record { at = λ s. ground arith }

rotate_stored-schedule : (env : Env) (stored : Value) → Leaves schedule (rotate_stored env stored)
unfolding rotate_stored
rotate_stored-schedule env stored =
    Leaves-bind _ _ (Leaves-lift (validate_epoch_milliseconds stored)) λ n.
      Leaves-bind _ _ (now_ms-schedule env)
        λ t. Leaves-if (is_early n t) _ _ (Leaves-pure tt) (rotate_bearer-schedule env)

rotate_unless_early-schedule :
    (env : Env) (stored : Value) → Leaves schedule (rotate_unless_early env stored)
unfolding rotate_unless_early
rotate_unless_early-schedule env Value.null = Leaves-pure tt
rotate_unless_early-schedule env stored = rotate_stored-schedule env stored

rotation-schedule : (env : Env) → Leaves schedule (async_rotate_bearer_if_due env)
unfolding async_rotate_bearer_if_due
rotation-schedule env = record {
  at = λ s. (rotate_unless_early-schedule env (get "token_expires_at_ms" s.entry_data)).at s;
}

finish_poll-Polls :
    (env : Env) (rotation : Result (Unit {0}) × Coordinator)
    → let (r, t) = after rotation.0 (λ _. on_client (async_snapshot env)) rotation.1 in
      Polls env (schedule rotation.1) rotation (finish_poll r t)
finish_poll-Polls env (err e, t) = finish_poll-Schedules t (err e)
finish_poll-Polls env (ok u, t) =
    let (r, c) = async_snapshot env t.client in finish_poll-Schedules (record t { client = c }) r

-- An update rotates the bearer if that is due and then reads a snapshot; what the first error or the
-- snapshot is decides how the update ends and what comes of the schedule. A snapshot of the entry's
-- own Hub is returned, the failures are reset and the interval is 30 seconds again. An error of the
-- connection or of the contract (also an unavailable protocol and an expired credential) is reported
-- as a failed update and counted, and the interval is 30, 60, 120 or from then on 300 seconds, by the
-- failures before it. An error of the authentication or the identity, and a snapshot of another Hub,
-- are reported as failed authentication; every other error, and the missing key of an entry without a
-- Hub, are raised as they are: these leave the failures and the interval.
pub async_update_data-Schedules :
    (env : Env) (s : Coordinator)
    → Polls env (schedule s) (async_rotate_bearer_if_due env s) (async_update_data env s)
unfolding async_update_data poll
async_update_data-Schedules env s =
    rw ((rotation-schedule env).at s) at (finish_poll-Polls env (async_rotate_bearer_if_due env s))
