-- ===== src/Wire/Chain.antt =====
-- The chain of the challenges and the numbers of the requests to the broker.
use teslatlas_home_assistant.Prelude.{
  ℕ, suc, ◌≡◌, refl, sym, ap, ◌⊎◌, inl, inr, String, Bool, true, false, not, not-true, List, [],
  ◌∷◌, ◌++◌, Option, any, str_eq, Bool-cases,
}
use teslatlas_home_assistant.Errors.{
  Error, Result, ok, err, ◌>>=◌, ◌>>◌, guard, >>=-eq-ok, ok-injective,
}
use teslatlas_home_assistant.Credentials.{is_hex64}
use teslatlas_home_assistant.Json.{Json, null, bool, int, float, str, list, dict, Members, get}
use teslatlas_home_assistant.Contract.Facts.Unload.{is_one_of}
use teslatlas_home_assistant.Wire.{
  operations, exact, digest, Reads, Env, StdioBroker, read_line, decoded,
}
use teslatlas_home_assistant.Wire.Broker.{
  close, check_device, request_of, sequence_valid, identifies, check_identity, with_challenge,
  as_dict, check_reply, settled, accepted, after_line, exchange, started, request,
}

-- A request that was answered: the broker is still open, one request further on, and has a challenge
-- that is a digest and not the one that was sent.
pub record IsAnswered (operation : String) (device : Option String) (b after : StdioBroker)
    : Type 0 where
  pub was_open : b.closed ≡ false
  pub is_open : after.closed ≡ false
  pub next_number : after.sequence ≡ suc b.sequence
  pub sent_one :
      after.sent
      ≡ b.sent ++ (request_of (record b { sequence = suc b.sequence }) operation device ∷ [])
  pub is_digest : is_hex64 after.challenge ≡ true
  pub is_fresh : str_eq after.challenge b.challenge ≡ false

abbrev pub Advances : String → Option String → StdioBroker → Result Members × StdioBroker → Type 0
Advances operation device b (ok result, after) = IsAnswered operation device b after
Advances operation device b (err e, after) = (after ≡ b) ⊎ (after.closed ≡ true)

pub digest-hex : (v : Json) {s : String} → digest v ≡ ok s → is_hex64 s ≡ true
unfolding digest
digest-hex null h = cc
digest-hex (bool b) h = cc
digest-hex (int n) h = cc
digest-hex (float f) h = cc
digest-hex (list vs) h = cc
digest-hex (dict d) h = cc
digest-hex (str t) h = elim (Bool-cases (is_hex64 t)) [
  | inl e ↦ rw (sym (ok-injective (rw e at h))) e
  | inr e ↦ absurd (cc (rw e at h))
]

pub guard-then {ℓ} :
    {A : Type ℓ} (b : Bool) (e : Error) (k : Result A) {a : A}
    → (guard b e >> k) ≡ ok a
    → (b ≡ true) × (k ≡ ok a)
guard-then true e k h = (refl, h)
guard-then false e k h = cc

check_identity-fresh :
    (b : StdioBroker) (is_reply : Bool) (reply : Members) {fresh : String}
    → check_identity b is_reply reply ≡ ok fresh
    → (is_hex64 fresh ≡ true) × (str_eq fresh b.challenge ≡ false)
unfolding check_identity
check_identity-fresh b is_reply reply h =
    let (valid, e1, h1) =
      >>=-eq-ok (sequence_valid is_reply b.sequence (get "sequence" reply)) _ h in
    let (same, h2) = guard-then (identifies b reply valid) Error.wire _ h1 in
    let (s, e3, h3) = >>=-eq-ok (digest (get "challenge" reply)) _ h2 in
    let (other, h4) = guard-then (not (str_eq s b.challenge)) Error.wire (ok s) h3 in
    (
      rw (← ok-injective h4) (digest-hex (get "challenge" reply) e3),
      rw (← ok-injective h4) (not-true (str_eq s b.challenge) other),
    )

challenge-fresh :
    (b : StdioBroker) (is_reply : Bool) (reply : Members) {t : Bool} {r : Members} {fresh : String}
    → with_challenge b is_reply reply ≡ ok (t, (r, fresh))
    → (is_hex64 fresh ≡ true) × (str_eq fresh b.challenge ≡ false)
challenge-fresh b is_reply reply h =
    let (s, e, h1) =
      >>=-eq-ok (check_identity b is_reply reply) (λ s. ok (is_reply, (reply, s))) h in
    rw (← ap (λ p. p.1.1) (ok-injective h1)) (check_identity-fresh b is_reply reply e)

check_reply-fresh :
    (b : StdioBroker) (v : Json) {t : Bool} {r : Members} {fresh : String}
    → check_reply b v ≡ ok (t, (r, fresh))
    → (is_hex64 fresh ≡ true) × (str_eq fresh b.challenge ≡ false)
unfolding check_reply
check_reply-fresh b v h =
    let (d, e1, h1) = >>=-eq-ok (as_dict v) _ h in
    let (typed, e2, h2) = >>=-eq-ok (is_one_of ("reply" ∷ "error" ∷ []) (get "type" d)) _ h1 in
    let (known, h3) = guard-then typed Error.wire _ h2 in
    let (reply, e4, h4) = >>=-eq-ok (exact _ (dict d)) _ h3 in challenge-fresh b _ reply h4

accepted-fresh :
    (operation : String) (b : StdioBroker) (r : Result (Bool × (Members × String)))
    {result : Members}
    → (accepted operation b r).0 ≡ ok result
    → (t : Bool) × (reply : Members) × (fresh : String) × (r ≡ ok (t, (reply, fresh)))
      × ((accepted operation b r).1 ≡ record b { challenge = fresh })
accepted-fresh operation b (err e) h = cc
accepted-fresh operation b (ok (t, (reply, fresh))) h = (t, reply, fresh, refl, refl)

abbrev numbered_next : StdioBroker → StdioBroker
numbered_next b = record b { sequence = suc b.sequence }

-- The broker with the request written.
abbrev written : String → Option String → StdioBroker → StdioBroker
written operation device b = record (numbered_next b) {
  sent = b.sent ++ (request_of (numbered_next b) operation device ∷ []);
}

line-fresh :
    (env : Env) (operation : String) (b : StdioBroker) (p : Result (List ℕ × List ℕ) × Reads)
    {result : Members}
    → (after_line env operation b p).0 ≡ ok result
    → (rest : List ℕ) × (fresh : String) × (is_hex64 fresh ≡ true)
      × (str_eq fresh b.challenge ≡ false)
      × ((after_line env operation b p).1
          ≡ record b { buffer = rest; reads = p.1; challenge = fresh })
line-fresh env operation b (err e, later) h = cc
line-fresh env operation b (ok (line, rest), later) h =
    let waiting : StdioBroker = record b { buffer = rest; reads = later } in
    let (t, reply, fresh, e, same) =
      accepted-fresh operation waiting (decoded env (env.strict_json line) >>= λ v. check_reply b v)
        h in
    let (v, e1, h1) = >>=-eq-ok (decoded env (env.strict_json line)) (λ v. check_reply b v) e in
    let (hex, other) = check_reply-fresh b v h1 in (rest, fresh, hex, other, same)

line-IsAnswered :
    (env : Env) (operation : String) (device : Option String) (b : StdioBroker)
    (p : Result (List ℕ × List ℕ) × Reads) {result : Members}
    → b.closed ≡ false
    → (after_line env operation (written operation device b) p).0 ≡ ok result
    → IsAnswered operation device b (after_line env operation (written operation device b) p).1
line-IsAnswered env operation device b p unclosed h =
    let (rest, fresh, hex, other, same) =
      line-fresh env operation (written operation device b) p h in
    rw same (record {
      was_open = unclosed;
      is_open = unclosed;
      next_number = refl;
      sent_one = refl;
      is_digest = hex;
      is_fresh = other;
    })

exchange-IsAnswered :
    (env : Env) (operation : String) (device : Option String) (b : StdioBroker) {result : Members}
    → b.closed ≡ false
    → (exchange env operation device (numbered_next b)).0 ≡ ok result
    → IsAnswered operation device b (exchange env operation device (numbered_next b)).1
unfolding exchange
exchange-IsAnswered env operation device b unclosed h =
    elim (Bool-cases (env.writes (request_of (numbered_next b) operation device))) [
      | inl e ↦
          rw e (
            line-IsAnswered env operation device b (read_line b.buffer b.reads) unclosed
              (rw e at h))
      | inr e ↦ absurd (cc (rw e at h))
    ]

settled-Advances :
    (operation : String) (device : Option String) (b : StdioBroker)
    (r : Result Members × StdioBroker)
    → ((result : Members) → r.0 ≡ ok result → IsAnswered operation device b r.1)
    → Advances operation device b (settled r)
unfolding close
settled-Advances operation device b (ok result, after) h = h result refl
settled-Advances operation device b (err e, after) h = inr refl

started-Advances :
    (env : Env) (operation : String) (device : Option String) (b : StdioBroker)
    (r : Result (Unit {0}))
    → (r ≡ ok tt → b.closed ≡ false)
    → Advances operation device b (started env operation device b r)
started-Advances env operation device b (err e) h = inl refl
started-Advances env operation device b (ok u) h =
    settled-Advances operation device b (exchange env operation device (numbered_next b))
      (λ result e. exchange-IsAnswered env operation device b (h refl) e)

-- A request that succeeds leaves the broker open, with the number of the request counted up by one,
-- the request with that number and the challenge so far sent, and a fresh challenge that is a digest
-- and not the one that was sent; a request that raises has changed nothing or has closed the broker,
-- and on a closed broker every request raises.
pub request-Advances :
    (env : Env) (operation : String) (device : Option String) (b : StdioBroker)
    → Advances operation device b (request env operation device b)
unfolding request
request-Advances env operation device b =
    started-Advances env operation device b
      (guard (not b.closed) Error.wire
        >> (guard (any (λ t. str_eq t operation) operations) Error.wire
            >> check_device operation device))
      (λ e. not-true b.closed ((guard-then (not b.closed) Error.wire _ e).0))
