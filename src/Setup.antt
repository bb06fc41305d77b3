-- ===== src/Setup.antt =====
-- custom_components/teslatlas_hub/__init__.py: setup, unload and migration of a config entry.
-- `async_config_entry_first_refresh`, `async_forward_entry_setups` and `async_unload_platforms` are
-- Home Assistant's; the first two are arguments that may change the coordinator and may raise.
pub mod Outcomes
use teslatlas_home_assistant.Prelude.{
  ℕ, String, Bool, true, false, not, ◌==◌, ltb, List, [], ◌∷◌, Option, none, some, if◌then◌else◌,
}
use teslatlas_home_assistant.Errors.{Error, Result, ok, err}
use teslatlas_home_assistant.Values.{Value, Dict, get, has}
use teslatlas_home_assistant.Task.{Task, ◌>>=◌, ◌>>◌}
use teslatlas_home_assistant.Client.{Client, Wire}
use teslatlas_home_assistant.Client.Create.{Options, create_client}
use teslatlas_home_assistant.Coordinator.{Coordinator, poll_interval_seconds, async_shutdown}
use teslatlas_home_assistant.Flow.{entry_endpoint}

abbrev pub config_entry_version : ℕ
config_entry_version = 1

abbrev pub config_entry_minor_version : ℕ
config_entry_minor_version = 2

abbrev pub required : List String
required = "host" ∷ "port" ∷ "use_tls" ∷ "hub_id" ∷ "access_token" ∷ []

-- The keys of the list that the data does not have.
unfoldable pub missing : List String → Dict → List String
missing [] d = []
missing (k ∷ ks) d = if has k d then missing ks d else k ∷ missing ks d

-- `TeslatlasDataCoordinator.__init__`
unfoldable pub init_coordinator : Dict → Client → Coordinator
init_coordinator entry_data client = record {
  client = client;
  entry_data = entry_data;
  failure_count = 0;
  update_interval = poll_interval_seconds;
  is_shut_down = false;
}

-- What setup ends with: the error that names the missing keys, an exception before there is a
-- coordinator, or the coordinator with the exception that its start has raised, if it has.
pub data Setup : Type 0 where
  incomplete : List String → Setup
  refused : Error → Setup
  failed : Error → Coordinator → Setup
  ready : Coordinator → Setup

-- The `try` around the start.
unfoldable pub started : Result (Unit {0}) × Coordinator → Setup
started (ok _, s) = ready s
started (err e, s) = failed e (async_shutdown s)

abbrev pub entry_options : Dict → Options
entry_options d = record {
  bearer_token = get "access_token" d;
  expected_hub_id = get "hub_id" d;
  bearer_expires_at_ms = get "token_expires_at_ms" d;
  has_hass = true;
  has_session = false;
}

abbrev pub start_client :
    Task Coordinator (Unit {0}) → Task Coordinator (Unit {0}) → Dict → Result Client → Setup
start_client refresh forward d (err e) = refused e
start_client refresh forward d (ok c) = started ((refresh >> forward) (init_coordinator d c))

unfoldable pub setup_checked :
    Task Coordinator (Unit {0}) → Task Coordinator (Unit {0}) → Dict → Wire → List String → Setup
setup_checked refresh forward d wire (k ∷ ks) = incomplete (k ∷ ks)
setup_checked refresh forward d wire [] =
    start_client refresh forward d (create_client (entry_endpoint d) (entry_options d) wire)

unfoldable pub async_setup_entry :
    Task Coordinator (Unit {0}) → Task Coordinator (Unit {0}) → Dict → Wire → Setup
async_setup_entry refresh forward d wire = setup_checked refresh forward d wire (missing required d)

-- The platforms were unloaded, or not.
unfoldable pub async_unload_entry : Bool → Coordinator → Bool × Coordinator
async_unload_entry unload_ok s = (unload_ok, if unload_ok then async_shutdown s else s)

-- The major and the minor version of an entry.
unfoldable pub async_migrate_entry : ℕ × ℕ → Bool × (ℕ × ℕ)
async_migrate_entry (version, minor) =
    if not (version == config_entry_version)
    then (false, (version, minor))
    else if ltb minor config_entry_minor_version
    then (true, (config_entry_version, config_entry_minor_version))
    else (true, (version, minor))
