-- ===== src/Wire/Runs.antt =====
-- Any number of requests to the broker.
use teslatlas_home_assistant.Prelude.{
  ℕ, suc, ◌≡◌, refl, sym, ap, ◌∙◌, ◌⊎◌, inl, inr, String, true, List, [], ◌∷◌, Option, length,
  length-append, arith,
}
use teslatlas_home_assistant.Errors.{Error, Result, ok, err, ◌>>=◌, >>=-eq-ok, ok-injective}
use teslatlas_home_assistant.Credentials.{is_hex64}
use teslatlas_home_assistant.Json.{Json, Members, get}
use teslatlas_home_assistant.Wire.{exact, Reads, Env, StdioBroker, read_line, decoded}
use teslatlas_home_assistant.Wire.Broker.{
  greets, check_greeting, attached, greeted, attach, request_of, request,
}
use teslatlas_home_assistant.Wire.Chain.{
  IsAnswered, Advances, request-Advances, digest-hex, guard-then,
}

-- The brokers that requests lead to.
pub data Leads (env : Env) (b : StdioBroker) : StdioBroker → Type 0 where
  stays : Leads env b b
  asks :
      {c : StdioBroker} (d : StdioBroker) (operation : String) (device : Option String)
      → Leads env b c
      → d ≡ (request env operation device c).1
      → Leads env b d

-- The broker is closed, or its number is that of the requests sent and its challenge is a digest.
abbrev pub IsCounted : StdioBroker → Type 0
IsCounted b = (b.closed ≡ true) ⊎ ((b.sequence ≡ length b.sent) × (is_hex64 b.challenge ≡ true))

answered-IsCounted :
    (operation : String) (device : Option String) (b after : StdioBroker)
    → IsAnswered operation device b after
    → IsCounted b
    → IsCounted after
answered-IsCounted operation device b after a (inl e) = absurd (cc (sym e ∙ a.was_open))
answered-IsCounted operation device b after a (inr (e, hex)) =
    let counted =
      length-append b.sent
        (request_of (record b { sequence = suc b.sequence }) operation device ∷ []) in
    inr (a.next_number ∙ omega (arith, e, counted) ∙ sym (ap length a.sent_one), a.is_digest)

advanced-IsCounted :
    (operation : String) (device : Option String) (b : StdioBroker)
    (r : Result Members × StdioBroker)
    → Advances operation device b r
    → IsCounted b
    → IsCounted r.1
advanced-IsCounted operation device b (ok result, after) a h =
    answered-IsCounted operation device b after a h
advanced-IsCounted operation device b (err e, after) (inl same) h = rw same h
advanced-IsCounted operation device b (err e, after) (inr shut) h = inl shut

Leads-IsCounted :
    (env : Env) (b : StdioBroker) {c : StdioBroker} → IsCounted b → Leads env b c → IsCounted c
Leads-IsCounted env b h stays = h
Leads-IsCounted env b h (asks {c} d operation device l e) = rw e (
    advanced-IsCounted operation device c (request env operation device c)
      (request-Advances env operation device c) (Leads-IsCounted env b h l))

greeting-hex :
    (session : String) (v : Json) {first : String}
    → check_greeting session v ≡ ok first
    → is_hex64 first ≡ true
unfolding check_greeting
greeting-hex session v h =
    let (greeting, e, h1) = >>=-eq-ok (exact _ v) _ h in
    let (greets_us, h2) = guard-then (greets session greeting) Error.wire _ h1 in
    digest-hex (get "challenge" greeting) h2

greeted-IsCounted :
    (env : Env) (session : String) (p : Result (List ℕ × List ℕ) × Reads) (b : StdioBroker)
    → greeted env session p ≡ ok b
    → IsCounted b
greeted-IsCounted env session (err e, later) b h = cc
greeted-IsCounted env session (ok (line, rest), later) b h =
    let (first, e, h1) =
      >>=-eq-ok (decoded env (env.strict_json line) >>= λ v. check_greeting session v)
        (λ first. ok (attached session first rest later)) h in
    let (v, e1, h2) = >>=-eq-ok (decoded env (env.strict_json line)) _ e in
    rw (← ok-injective h1) (inr (refl, greeting-hex session v h2))

-- However many requests follow an attachment, whatever the broker answers and whichever of them raise,
-- the attachment is closed, or its number is the number of the requests that were sent and its
-- challenge is a digest.
pub attach-IsCounted :
    (env : Env) (session : String) (reads : Reads) (b c : StdioBroker)
    → attach env session reads ≡ ok b
    → Leads env b c
    → IsCounted c
unfolding attach
attach-IsCounted env session reads b c h l =
    Leads-IsCounted env b (greeted-IsCounted env session (read_line [] reads) b h) l
