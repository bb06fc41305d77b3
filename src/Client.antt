-- ===== src/Client.antt =====
-- custom_components/teslatlas_hub/current_hub_client.py: the state of `CurrentHubClient` and what
-- it meets outside. The children hold its methods and their properties.
pub mod Http
pub mod Decode
pub mod Calls
pub mod Snapshot
pub mod Bearer
pub mod Create
pub mod Bounds
use teslatlas_home_assistant.Prelude.{ℕ, suc, String, Bool, List, ◌∷◌, Option, length}
use teslatlas_home_assistant.Values.{Value}
use teslatlas_home_assistant.Errors.{Error, Result, ok}
use teslatlas_home_assistant.Task.{Task}
use teslatlas_home_assistant.Credentials.{Datetime}
use teslatlas_home_assistant.Models.{HubEndpoint}

-- The method and the path of a request: GET /.well-known/teslatlas-hub, GET /v1/vehicles,
-- GET /v1/vehicles/{id}/current, POST /v1/pairings/{id}/claim and POST /v1/device/rotate. An
-- identifier is a canonical UUID, which `quote` leaves as it is.
pub data Target : Type 0 where
  discovery vehicles rotate : Target
  current claim : String → Target

-- What a request carries: the bearer of its `Authorization` header, and the JSON body of a claim.
pub record Request : Type 0 where
  pub target : Target
  pub authorization : Option String
  pub body : Option (Value × Value)

-- A response body as it arrives: its chunks, until its end, a failure of the connection, or the
-- cancellation of the reading task.
pub data Stream : Type 0 where
  done broken interrupted : Stream
  chunk : List ℕ → Stream → Stream

pub record Response : Type 0 where
  pub status : ℕ
  pub content_length : Option ℕ
  pub content_type : Option String
  pub content : Stream

-- What the session does with a request: aiohttp raises (`failed`), the task is cancelled, or a
-- response comes.
pub data Reply : Type 0 where
  failed interrupted : Reply
  response : Response → Reply

-- What the client does not decide: the readings of the clock, the replies to its requests by their
-- number, which URLs yarl builds, what `json.loads` makes of the bytes it is given (nothing where
-- it raises), and which of the reads of a batch that fail is the first to do so.
pub record Env : Type 0 where
  pub clock : ℕ → Datetime
  pub reply : ℕ → Request → Reply
  pub builds_url : HubEndpoint → Bool
  pub loads : List ℕ → Option Value
  pub earliest : List Error → ℕ

-- How often the clock was read, and the requests that were sent, the last one first.
pub record Wire : Type 0 where
  pub ticks : ℕ
  pub sent : List Request

pub record Client : Type 0 where
  pub endpoint : HubEndpoint
  pub bearer_token : Value
  pub bearer_expires_at_ms : Value
  pub expected_hub_id : Value
  pub owns_session_wrapper : Bool
  pub closed : Bool
  -- how often the session wrapper was detached
  pub detached : ℕ
  pub wire : Wire

-- `self._now()`
abbrev pub now : Env → Task Client Datetime
now env c =
    (ok (env.clock c.wire.ticks), record c { wire = record c.wire { ticks = suc c.wire.ticks } })

abbrev pub log_request : Request → Client → Client
log_request r c = record c { wire = record c.wire { sent = r ∷ c.wire.sent } }

-- The reply to the request that is sent next.
abbrev pub next_reply : Env → Request → Client → Reply
next_reply env r c = env.reply (length c.wire.sent) r
