-- ===== src/Setup/Outcomes.antt =====
-- What the setup of an entry comes to, by the entry's data and what its start does.
use teslatlas_home_assistant.Prelude.{
  ◌≡◌, refl, ◌⊎◌, inl, inr, String, true, false, not, ◌&&◌, List, [], ◌∷◌, arith, All, Bool-cases,
  eq_iff,
}
use teslatlas_home_assistant.Errors.{Error, Result, ok, err}
use teslatlas_home_assistant.Values.{Dict, get, has}
use teslatlas_home_assistant.Task.{Task, after}
use teslatlas_home_assistant.Models.Vehicles.{occurs}
use teslatlas_home_assistant.Client.{Client, Wire}
use teslatlas_home_assistant.Client.Calls.{async_close}
use teslatlas_home_assistant.Client.Create.{create_client}
use teslatlas_home_assistant.Coordinator.{Coordinator, async_shutdown}
use teslatlas_home_assistant.Flow.{entry_endpoint}
use teslatlas_home_assistant.Setup.{
  Setup, incomplete, refused, failed, ready, missing, required, init_coordinator, started,
  start_client, setup_checked, async_setup_entry,
}

-- The keys that an entry needs.
abbrev pub needed : List String
needed = "host" ∷ "port" ∷ "use_tls" ∷ "hub_id" ∷ "access_token" ∷ []

-- The client for the Hub of an entry: at its address and with its pin, bearer and expiry.
abbrev pub client_of : Dict → Wire → Result Client
client_of d wire =
    create_client
      (record {
        host = get "host" d;
        port = get "port" d;
        use_tls = get "use_tls" d;
        tls_pin = get "tls_pin" d;
      })
      (record {
        bearer_token = get "access_token" d;
        expected_hub_id = get "hub_id" d;
        bearer_expires_at_ms = get "token_expires_at_ms" d;
        has_hass = true;
        has_session = false;
      })
      wire

-- A coordinator that has not polled yet.
abbrev pub new_coordinator : Dict → Client → Coordinator
new_coordinator d c = record {
  client = c;
  entry_data = d;
  failure_count = 0;
  update_interval = 30;
  is_shut_down = false;
}

-- The start has raised the error and left the coordinator `t`: setup raises the same error, and if
-- the start has not shut the coordinator down, setup has, and has closed its client.
abbrev pub Stopped : Error → Coordinator → Setup → Type 0
Stopped e t (failed raised s) =
    (raised ≡ e) × (s.is_shut_down ≡ true) × ((t.is_shut_down ≡ true) ⊎ (s.client.closed ≡ true))
Stopped e t _ = ⊥

-- By what the platforms have come to.
abbrev pub Forwarded : Result (Unit {0}) × Coordinator → Setup → Type 0
Forwarded (err e, t) out = Stopped e t out
Forwarded (ok u, t) out = out ≡ ready t

-- By what the first refresh has come to.
abbrev pub Refreshed :
    Task Coordinator (Unit {0}) → Result (Unit {0}) × Coordinator → Setup → Type 0
Refreshed forward (err e, t) out = Stopped e t out
Refreshed forward (ok u, t) out = Forwarded (forward t) out

-- By the client.
abbrev pub Starts :
    Task Coordinator (Unit {0})
    → Task Coordinator (Unit {0})
    → Dict
    → Result Client
    → Setup
    → Type 0
Starts refresh forward d (err e) out = out ≡ refused e
Starts refresh forward d (ok c) out = Refreshed forward (refresh (new_coordinator d c)) out

-- Some required keys are absent and setup names them, or none is and the entry is started.
abbrev pub IsTidy :
    Task Coordinator (Unit {0}) → Task Coordinator (Unit {0}) → Dict → Wire → Setup → Type 0
IsTidy refresh forward d wire out =
    ((k : String) × (ks : List String) × (out ≡ incomplete (k ∷ ks))
      × ((j : String) → occurs j (k ∷ ks) ≡ (occurs j needed && not (has j d))))
    ⊎ (All (λ j. has j d ≡ true) needed × Starts refresh forward d (client_of d wire) out)

missing-none : (ks : List String) (d : Dict) → missing ks d ≡ [] → All (λ k. has k d ≡ true) ks
unfolding missing
missing-none [] d h = tt
missing-none (k ∷ ks) d h = elim (Bool-cases (has k d)) [
  | inl e ↦ (e, missing-none ks d (rw e at h))
  | inr e ↦ absurd (ground arith)
]

occurs-missing :
    (j : String) (ks : List String) (d : Dict)
    → occurs j (missing ks d) ≡ (occurs j ks && not (has j d))
unfolding missing
occurs-missing j [] d = refl
occurs-missing j (k ∷ ks) d = ground (arith, eq_iff k j, occurs-missing j ks d)

started-Stopped : (e : Error) (t : Coordinator) → Stopped e t (started (err e, t))
unfolding started async_shutdown async_close
started-Stopped e t = ground arith

started-Forwarded : (r : Result (Unit {0}) × Coordinator) → Forwarded r (started r)
unfolding started
started-Forwarded (err e, t) = started-Stopped e t
started-Forwarded (ok u, t) = refl

started-Refreshed :
    (forward : Task Coordinator (Unit {0})) (r : Result (Unit {0}) × Coordinator)
    → Refreshed forward r (started (after r.0 (λ _. forward) r.1))
started-Refreshed forward (err e, t) = started-Stopped e t
started-Refreshed forward (ok u, t) = started-Forwarded (forward t)

start_client-Starts :
    (refresh forward : Task Coordinator (Unit {0})) (d : Dict) (r : Result Client)
    → Starts refresh forward d r (start_client refresh forward d r)
unfolding init_coordinator
start_client-Starts refresh forward d (err e) = refl
start_client-Starts refresh forward d (ok c) =
    started-Refreshed forward (refresh (new_coordinator d c))

setup_checked-IsTidy :
    (refresh forward : Task Coordinator (Unit {0})) (d : Dict) (wire : Wire) (ks : List String)
    → missing required d ≡ ks
    → IsTidy refresh forward d wire (setup_checked refresh forward d wire ks)
unfolding setup_checked entry_endpoint
setup_checked-IsTidy refresh forward d wire (k ∷ ks) h =
    inl (k, ks, refl, λ j. rw h at (occurs-missing j required d))
setup_checked-IsTidy refresh forward d wire [] h =
    inr (missing-none required d h, start_client-Starts refresh forward d _)

-- If a required key is absent, setup raises the error that names exactly the required keys that
-- are absent. If none is absent and the client for the entry's address, pin, Hub and bearer cannot be
-- made, it raises the error of that. Otherwise the first refresh runs on a new coordinator with that
-- client and, if it succeeds, the platforms are forwarded; if both succeed, the entry is ready with
-- the coordinator as they left it. If one of them raises an error, a cancellation too, setup raises
-- the same error and the coordinator is shut down; unless it was shut down before that, its client is
-- closed.
pub async_setup_entry-IsTidy :
    (refresh forward : Task Coordinator (Unit {0})) (d : Dict) (wire : Wire)
    → IsTidy refresh forward d wire (async_setup_entry refresh forward d wire)
unfolding async_setup_entry
async_setup_entry-IsTidy refresh forward d wire =
    setup_checked-IsTidy refresh forward d wire (missing required d) refl
