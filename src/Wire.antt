-- ===== src/Wire.antt =====
-- tools/matrix_wire.py: the checks on single values, and the attachment to the broker of an installed
-- host. The children hold what one request does and its properties.
pub mod Broker
pub mod Chain
pub mod Runs
pub mod Framing
pub mod Channel
pub mod Barrier
use teslatlas_home_assistant.Prelude.{
  ℕ, suc, ◌-◌, ◌==◌, leb, ltb, String, Bool, true, false, ◌&&◌, ◌||◌, not, List, [], ◌∷◌, ◌++◌,
  Option, none, some, length, any, str_eq, if◌then◌else◌,
}
use teslatlas_home_assistant.Prelude.Int.{pos}
use teslatlas_home_assistant.Errors.{Error, Result, ok, err, ◌>>=◌, ◌>>◌, guard}
use teslatlas_home_assistant.Credentials.{is_hex64}
use teslatlas_home_assistant.Json.{
  Json, null, bool, int, float, str, list, dict, Members, get, has_keys, eq,
}
use teslatlas_home_assistant.Contract.Context.{is_own_uuid4}

abbrev pub max_frame_bytes : ℕ
max_frame_bytes = 1048576

abbrev pub operations : List String
operations = "verify" ∷ "stop" ∷ "start" ∷ "pair" ∷ "revoke" ∷ []

-- `_exact`
unfoldable pub exact : List String → Json → Result Members
exact ks (dict d) = if has_keys ks d then ok d else err Error.wire
exact ks _ = err Error.wire

-- `_digest`
unfoldable pub digest : Json → Result String
digest (str s) = if is_hex64 s then ok s else err Error.wire
digest _ = err Error.wire

-- `_session_id`, of a text or nothing
unfoldable pub session_id : Option String → Result String
session_id none = err Error.wire
session_id (some s) = if is_own_uuid4 s then ok s else err Error.wire

-- What waiting for bytes comes to: the deadline passes, the other side has closed, or bytes arrive.
pub data Reads : Type 0 where
  expired finished : Reads
  chunk : List ℕ → Reads → Reads

-- What the process cannot decide: whether a request can be written in time, what a line means as
-- strict JSON, and whether the deadline has passed when a line has been read.
pub record Env : Type 0 where
  pub writes : Members → Bool
  pub strict_json : List ℕ → Option Json
  pub is_late : Json → Bool

pub record StdioBroker : Type 0 where
  pub host_session_id : String
  pub challenge : String
  pub buffer : List ℕ
  pub sequence : ℕ
  pub closed : Bool
  pub reads : Reads
  pub sent : List Members

-- The line before the first newline, and what follows it.
abbrev pub longer : ℕ → Option (List ℕ × List ℕ) → Option (List ℕ × List ℕ)
longer c none = none
longer c (some (line, rest)) = some (c ∷ line, rest)

unfoldable pub split_line : List ℕ → Option (List ℕ × List ℕ)
split_line [] = none
split_line (c ∷ s) = if c == 10 then some ([], s) else longer c (split_line s)

-- A line, with what is left of the buffer.
abbrev pub bounded_line : List ℕ × List ℕ → Result (List ℕ × List ℕ)
bounded_line (line, rest) =
    if leb (length line) max_frame_bytes then ok (line, rest) else err Error.wire

abbrev pub found_line : Option (List ℕ × List ℕ) → Result (List ℕ × List ℕ)
found_line none = err Error.wire
found_line (some found) = bounded_line found

-- A line that is there is taken before anything else is read.
abbrev pub line_or :
    Option (List ℕ × List ℕ)
    → Reads
    → Result (List ℕ × List ℕ) × Reads
    → Result (List ℕ × List ℕ) × Reads
line_or (some found) reads read_on = (bounded_line found, reads)
line_or none reads read_on = read_on

-- The loop of `_read_frame`: a line with the buffer behind it, and the bytes that are still to come.
unfoldable pub read_line : List ℕ → Reads → Result (List ℕ × List ℕ) × Reads
read_line buffer expired = (found_line (split_line buffer), expired)
read_line buffer finished = (found_line (split_line buffer), finished)
read_line buffer (chunk bytes more) =
    let rest = read_line (buffer ++ bytes) more in
    let read_on =
      if leb (length buffer) max_frame_bytes then rest else (err Error.wire, chunk bytes more) in
    line_or (split_line buffer) (chunk bytes more) read_on

-- `strict_json` of a line, in time.
abbrev pub decoded : Env → Option Json → Result Json
decoded env none = err Error.wire
decoded env (some v) = if env.is_late v then err Error.wire else ok v
