-- ===== src/Coordinator/Rotation.antt =====
-- A rotation stores the new bearer in the config entry before the client uses it, and stores
-- nothing else.
use teslatlas_home_assistant.Prelude.{
  ◌≡◌, refl, ◌∙◌, ap, ◌⊎◌, inl, inr, String, Bool, true, false, Option, none, arith, str_eq,
  Bool-cases,
}
use teslatlas_home_assistant.Prelude.Int.{ℤ}
use teslatlas_home_assistant.Errors.{Error, ok, Result-cases}
use teslatlas_home_assistant.Values.{Value, Dict, str, int, get, is_text, get-put}
use teslatlas_home_assistant.Task
use teslatlas_home_assistant.Task.{Task, lift, require, gets, bind_ok, bind_err, ◌>>=◌, ◌>>◌}
use teslatlas_home_assistant.Task.Leaves.{
  Leaves, Leaves-pure, Leaves-lift, Leaves-gets, Leaves-require, Leaves-bind,
}
use teslatlas_home_assistant.Credentials.{
  Credential, validate_epoch_milliseconds, validate_current_hub_credential,
}
use teslatlas_home_assistant.Credentials.Admission.{
  IsAdmissible, validate_current_hub_credential-IsAdmissible,
}
use teslatlas_home_assistant.Models.{PairingResult, HubInfo}
use teslatlas_home_assistant.Client.{Env, Client, Target, rotate, now}
use teslatlas_home_assistant.Client.Http.{Mode, async_json}
use teslatlas_home_assistant.Client.Bearer.{async_json-SameClient}
use teslatlas_home_assistant.Client.Decode.{assert_payload, read_discovery}
use teslatlas_home_assistant.Client.Calls.{
  async_probe, identify, issue, async_rotate, set_bearer, anonymous, with_bearer,
}
use teslatlas_home_assistant.Coordinator.{
  Coordinator, on_client, now_ms, index, with_token, admit_rotated, activate, rotate_bearer,
  rotate_stored, rotate_unless_early, async_rotate_bearer_if_due, is_early,
}

-- The bearer in use, with its expiry.
abbrev pub bearer : Client → Value × Value
bearer c = (c.bearer_token, c.bearer_expires_at_ms)

async_json-bearer :
    (env : Env) (mode : Mode) (target : Target) (body : Option (Value × Value))
    → Leaves bearer (async_json env mode target body)
async_json-bearer env mode target body = record {
  at = λ c. ground (arith, async_json-SameClient env mode target body c);
}

now-bearer : (env : Env) → Leaves bearer (now env)
now-bearer env = record { at = λ c. refl }

async_probe-bearer : (env : Env) → Leaves bearer (async_probe env)
unfolding async_probe
async_probe-bearer env =
    Leaves-bind _ _ (async_json-bearer env anonymous Target.discovery none)
      λ r. Leaves-bind _ _ (Leaves-lift (assert_payload r)) λ p. Leaves-lift (read_discovery p)

identify-bearer : (env : Env) → Leaves bearer (identify env)
unfolding identify
identify-bearer env = Leaves-bind _ _ (async_probe-bearer env) λ info.
    Leaves-bind _ _ (Leaves-gets (λ c. c.expected_hub_id))
      λ x. Leaves-bind _ _ (Leaves-require _ Error.identity) λ _. Leaves-pure info

issue-bearer : (env : Env) (info : HubInfo) (p : Dict) → Leaves bearer (issue env info p)
unfolding issue
issue-bearer env info p = record { at = λ c. ground arith }

async_rotate-bearer : (env : Env) → Leaves bearer (async_rotate env)
unfolding async_rotate
async_rotate-bearer env = Leaves-bind _ _ (identify-bearer env) λ info.
    Leaves-bind _ _ (async_json-bearer env with_bearer rotate none)
      λ r. Leaves-bind _ _ (Leaves-lift (assert_payload r)) λ p. issue-bearer env info p

-- The new bearer is taken up, or the old one stays.
set_bearer-bearer :
    (env : Env) (t e : Value) (c : Client)
    → (bearer (set_bearer env t e c).1 ≡ bearer c) ⊎ (bearer (set_bearer env t e c).1 ≡ (t, e))
unfolding set_bearer
set_bearer-bearer env t e c = ground arith

-- What a rotation of the coordinator touches: the entry's data and the client's bearer.
abbrev pub credentials_of : Coordinator → Dict × (Value × Value)
credentials_of s = (s.entry_data, bearer s.client)

on_client-credentials :
    {A : Type 0} (m : Task Client A) → Leaves bearer m → Leaves credentials_of (on_client m)
on_client-credentials m k = record { at = λ s. ap (λ b. (s.entry_data, b)) (k.at s.client) }

now_ms-credentials : (env : Env) → Leaves credentials_of (now_ms env)
now_ms-credentials env = record { at = λ s. ground arith }

admit_rotated-credentials :
    (env : Env) (rotated : PairingResult) → Leaves credentials_of (admit_rotated env rotated)
unfolding admit_rotated
admit_rotated-credentials env rotated = record { at = λ s. ground arith }

index-eq : (k : String) (d : Dict) (v : Value) → index k d ≡ ok v → v ≡ get k d
index-eq k d v h = ground arith

require-eq : {S : Type 0} (b : Bool) (e : Error) (s : S) → (require b e s).0 ≡ ok tt → b ≡ true
require-eq true e s h = refl
require-eq false e s h = cc

-- The rotated credential belongs to the Hub and the device of the entry, and was admitted at some
-- reading of the clock.
pub record IsOwn (entry : Dict) (rotated : PairingResult) : Type 0 where
  pub hub : is_text rotated.info.hub_id (get "hub_id" entry) ≡ true
  pub device : is_text rotated.device_id (get "device_id" entry) ≡ true
  pub reading : ℤ
  pub admissible : IsAdmissible reading (record {
    access_token = rotated.access_token;
    device_id = rotated.device_id;
    expires_at_ms = rotated.expires_at_ms;
  })

pub same_credential :
    (rotated : PairingResult) (n : ℤ) (c : Credential)
    → validate_current_hub_credential
        (str rotated.access_token)
        (str rotated.device_id)
        (int rotated.expires_at_ms)
        n
      ≡ ok c
    → IsAdmissible n (record {
      access_token = rotated.access_token;
      device_id = rotated.device_id;
      expires_at_ms = rotated.expires_at_ms;
    })
same_credential rotated n c h =
    let (et, ed, ee, a) =
      (validate_current_hub_credential-IsAdmissible (str rotated.access_token)
          (str rotated.device_id) (int rotated.expires_at_ms) n c).0
        h in
    let t : rotated.access_token ≡ c.access_token = cc in
    let d : rotated.device_id ≡ c.device_id = cc in
    let e : rotated.expires_at_ms ≡ c.expires_at_ms = cc in rw (t, d, e) a

admit_rotated-IsOwn :
    (env : Env) (rotated : PairingResult) (s : Coordinator) (c : Credential)
    → (admit_rotated env rotated s).0 ≡ ok c
    → IsOwn s.entry_data rotated
unfolding admit_rotated
admit_rotated-IsOwn env rotated s c h =
    let (hub, eh, k1) = Task.>>=-eq-ok (lift (index "hub_id" s.entry_data)) _ s h in
    let (_, e1, k2) =
      Task.>>=-eq-ok (require (is_text rotated.info.hub_id hub) Error.authentication) _ s k1 in
    let (_, e2, k3) =
      Task.>>=-eq-ok
        (require (is_text rotated.device_id (get "device_id" s.entry_data)) Error.authentication) _
        s k2 in
    let (n, en, k4) = Task.>>=-eq-ok (now_ms env) _ s k3 in
    record {
      hub = rw (← index-eq "hub_id" s.entry_data hub eh) (require-eq _ Error.authentication s e1);
      device = require-eq _ Error.authentication s e2;
      reading = n;
      admissible = same_credential rotated n c k4;
    }

-- What a call of `_async_rotate_bearer_if_due` has done.
pub data Rotates (s s' : Coordinator) : Type 0 where
  kept : credentials_of s' ≡ credentials_of s → Rotates s s'
  stored :
      (rotated : PairingResult)
      → IsOwn s.entry_data rotated
      → s'.entry_data ≡ with_token s.entry_data rotated.access_token rotated.expires_at_ms
      → (bearer s'.client ≡ bearer s.client)
        ⊎ (bearer s'.client ≡ (str rotated.access_token, int rotated.expires_at_ms))
      → Rotates s s'

activate-Rotates :
    (env : Env) (rotated : PairingResult) (s0 s : Coordinator)
    → credentials_of s ≡ credentials_of s0
    → IsOwn s0.entry_data rotated
    → Rotates s0 (activate env rotated s).1
unfolding activate
activate-Rotates env rotated s0 s e own =
    stored rotated own (ground arith)
      (elim (set_bearer-bearer env (str rotated.access_token) (int rotated.expires_at_ms)
        s.client) [ inl old ↦ inl (old ∙ ap (λ p. p.1) e) | inr new ↦ inr new ])

rotate_bearer-Rotates : (env : Env) (s : Coordinator) → Rotates s (rotate_bearer env s).1
unfolding rotate_bearer
rotate_bearer-Rotates env s = elim (Result-cases (on_client (async_rotate env) s).0) [
  | inr (x, e) ↦ kept (rw (bind_err (on_client (async_rotate env)) _ s e) (rotated_leaves.at s))
  | inl (rotated, e) ↦
      (let s1 = (on_client (async_rotate env) s).1 in
        let same1 : credentials_of s1 ≡ credentials_of s = rotated_leaves.at s in
        rw (bind_ok (on_client (async_rotate env)) _ s e)
          (elim (Result-cases (admit_rotated env rotated s1).0) [
            | inr (x, e') ↦ kept (
                rw (bind_err (admit_rotated env rotated) _ s1 e')
                  ((admit_rotated-credentials env rotated).at s1 ∙ same1))
            | inl (c, e') ↦ rw (bind_ok (admit_rotated env rotated) _ s1 e') (
                activate-Rotates env rotated s (admit_rotated env rotated s1).1
                  ((admit_rotated-credentials env rotated).at s1 ∙ same1)
                  (rw (ap (λ p. p.0) same1) at (admit_rotated-IsOwn env rotated s1 c e')))
          ]))
]
  where
    rotated_leaves : Leaves credentials_of (on_client (async_rotate env))
    rotated_leaves = on_client-credentials (async_rotate env) (async_rotate-bearer env)

Rotates-from :
    {s s1 s' : Coordinator} → credentials_of s1 ≡ credentials_of s → Rotates s1 s' → Rotates s s'
Rotates-from e (kept k) = kept (k ∙ e)
Rotates-from {s} {s1} e (stored rotated own entry used) =
    let data_same : s1.entry_data ≡ s.entry_data = ap (λ p. p.0) e in
    stored rotated (rw data_same at own) (rw data_same at entry)
      (elim used [ inl old ↦ inl (old ∙ ap (λ p. p.1) e) | inr new ↦ inr new ])

rotate_stored-Rotates :
    (env : Env) (v : Value) (s : Coordinator) → Rotates s (rotate_stored env v s).1
unfolding rotate_stored
rotate_stored-Rotates env v s = elim (Result-cases (validate_epoch_milliseconds v)) [
  | inr (x, e) ↦ kept (rw (bind_err (lift (validate_epoch_milliseconds v)) _ s e))
  | inl (n, e) ↦ rw (bind_ok (lift (validate_epoch_milliseconds v)) _ s e) (
      let s1 = (now_ms env s).1 in
      elim (Result-cases (now_ms env s).0) [
        | inr (x, e') ↦ kept (rw (bind_err (now_ms env) _ s e') ((now_ms-credentials env).at s))
        | inl (t, e') ↦ rw (bind_ok (now_ms env) _ s e') (elim (Bool-cases (is_early n t)) [
          | inl early ↦ rw early (kept ((now_ms-credentials env).at s))
          | inr due ↦
              rw due (Rotates-from ((now_ms-credentials env).at s) (rotate_bearer-Rotates env s1))
        ])
      ])
]

unless_early-Rotates :
    (env : Env) (v : Value) (s : Coordinator) → Rotates s (rotate_unless_early env v s).1
unfolding rotate_unless_early
unless_early-Rotates env Value.null s = kept refl
unless_early-Rotates env v s = rotate_stored-Rotates env v s

-- Whether it returns or raises, `_async_rotate_bearer_if_due` leaves the entry and the bearer in use
-- alone, or stores in the entry an admitted credential of the entry's own Hub and device; the bearer
-- in use is then the old one or the stored one.
pub async_rotate_bearer_if_due-Rotates :
    (env : Env) (s : Coordinator) → Rotates s (async_rotate_bearer_if_due env s).1
unfolding async_rotate_bearer_if_due
async_rotate_bearer_if_due-Rotates env s =
    unless_early-Rotates env (get "token_expires_at_ms" s.entry_data) s

with_token-other :
    (k : String) (d : Dict) (token : String) (n : ℤ)
    → str_eq "token_expires_at_ms" k ≡ false
    → str_eq "access_token" k ≡ false
    → get k (with_token d token n) ≡ get k d
unfolding with_token
with_token-other k d token n a b = simp get-put (rw (a, b))

-- A rotation changes no other entry of the config entry's data: neither the Hub nor the device nor
-- the endpoint.
pub rotation_keeps_entry :
    (env : Env) (s : Coordinator) (k : String)
    → str_eq "token_expires_at_ms" k ≡ false
    → str_eq "access_token" k ≡ false
    → get k (async_rotate_bearer_if_due env s).1.entry_data ≡ get k s.entry_data
rotation_keeps_entry env s k a b = elim (async_rotate_bearer_if_due-Rotates env s) [
  | kept e ↦ ap (λ p. get k (p.0)) e
  | stored rotated own entry used ↦
      ap (get k) entry
      ∙ with_token-other k s.entry_data rotated.access_token rotated.expires_at_ms a b
]
