-- ===== src/Wire/Barrier.antt =====
-- What an exchange over the coordination channel that succeeds has gone through.
use teslatlas_home_assistant.Prelude.{
  suc, ◌≤◌, leb, leb→le, ◌≡◌, refl, sym, ap, ◌∙◌, String, Bool, true, false, List, [], ◌∷◌,
  Bool-cases, inl, inr,
}
use teslatlas_home_assistant.Errors.{
  Error, Result, ok, err, ◌>>=◌, ◌>>◌, guard, >>=-eq-ok, ok-injective,
}
use teslatlas_home_assistant.Json.{Json, dict, Members, get, has_keys}
use mathlib.Core.Path.{subst}
use teslatlas_home_assistant.Wire.{exact, digest}
use teslatlas_home_assistant.Wire.Chain.{guard-then}
use teslatlas_home_assistant.Wire.Channel.{
  Files, CoordinationChannel, absolute, file_binding, same_binding, check_evidence,
  check_observation, ready_of, ack_keys, is_ack_of, is_accepted, caught, assert_frozen, check_ack,
  freeze, published, exchanged, is_phase, checked, barrier,
}

-- The acknowledgement is of the ready file, and the evidence is what it was.
pub record IsAcknowledged (files : Files) (c : CoordinationChannel) (phase : String)
    (evidence : Members) (ready_sha256 : String) (ack current : Members) (path : String)
    : Type 0 where
  pub is_ours : is_ack_of c phase ready_sha256 ack ≡ true
  pub is_granted : is_accepted phase ack ≡ true
  pub last_binding : files.binding_after path ≡ ok current
  pub unchanged : same_binding current evidence ≡ true

caught-ok : (r : Result Members) {b : Members} → caught r ≡ ok b → r ≡ ok b
caught-ok (ok b) h = h
caught-ok (err e) h = cc

exact-members : (ks : List String) (d : Members) {b : Members} → exact ks (dict d) ≡ ok b → b ≡ d
unfolding exact
exact-members ks d h = elim (Bool-cases (has_keys ks d)) [
  | inl e ↦ sym (ok-injective (rw e at h))
  | inr e ↦ absurd (cc (rw e at h))
]

guard-holds : (b : Bool) (e : Error) {u : Unit {0}} → guard b e ≡ ok u → b ≡ true
guard-holds true e h = refl
guard-holds false e h = cc

file_binding-members :
    (files : Files) (d : Members) {bound : Members × (String × String)}
    → file_binding files (dict d) ≡ ok bound
    → bound.0 ≡ d
unfolding file_binding
file_binding-members files d h =
    let (binding, e, h1) = >>=-eq-ok (exact ("path" ∷ "sha256" ∷ []) (dict d)) _ h in
    let (path, e1, h2) = >>=-eq-ok (absolute files (get "path" binding)) _ h1 in
    let (sha256, e2, h3) =
      >>=-eq-ok (digest (get "sha256" binding)) (λ t. ok (binding, (path, t))) h2 in
    sym (ap (λ p. p.0) (ok-injective h3)) ∙ exact-members _ d e

assert_frozen-unchanged :
    (files : Files) (evidence : Members) {u : Unit {0}}
    → assert_frozen files evidence ≡ ok u
    → (path : String) × (current : Members) × (files.binding_after path ≡ ok current)
      × (same_binding current evidence ≡ true)
unfolding assert_frozen
assert_frozen-unchanged files evidence h =
    let (bound, e, h1) = >>=-eq-ok (file_binding files (dict evidence)) _ h in
    let (current, e1, h2) = >>=-eq-ok (caught (files.binding_after (bound.1.0))) _ h1 in
    (
      bound.1.0,
      current,
      caught-ok _ e1,
      subst (λ b. same_binding current b ≡ true) (file_binding-members files evidence e)
          (guard-holds (same_binding current (bound.0)) Error.wire h2),
    )

check_ack-IsAcknowledged :
    (files : Files) (c : CoordinationChannel) (phase : String) (evidence : Members)
    (ready_sha256 : String) (v : Json) {ack : Members}
    → check_ack files c phase evidence ready_sha256 v ≡ ok ack
    → (current : Members) × (path : String) × IsAcknowledged files c phase evidence ready_sha256 ack
        current path
unfolding check_ack
check_ack-IsAcknowledged files c phase evidence ready_sha256 v {ack} h =
    let (a, e, h1) = >>=-eq-ok (exact ack_keys v) _ h in
    let (ours, h2) = guard-then (is_ack_of c phase ready_sha256 a) Error.wire _ h1 in
    let (granted, h3) = guard-then (is_accepted phase a) Error.wire _ h2 in
    let (result, e1, h4) = >>=-eq-ok (file_binding files (get "result" a)) _ h3 in
    let (bound, e2, h5) = >>=-eq-ok (files.binding_acknowledged (result.1.0)) _ h4 in
    let (same, h6) = guard-then (same_binding bound (result.0)) Error.wire _ h5 in
    let (u, e3, h7) = >>=-eq-ok (assert_frozen files evidence) (λ u. ok a) h6 in
    let (path, current, last, unchanged) = assert_frozen-unchanged files evidence e3 in
    let this : a ≡ ack = ok-injective h7 in
    (
      current,
      path,
      record {
        is_ours = subst (λ d. is_ack_of c phase ready_sha256 d ≡ true) this ours;
        is_granted = subst (λ d. is_accepted phase d ≡ true) this granted;
        last_binding = last;
        unchanged = unchanged;
      },
    )

-- An exchange: the ready file is that of the next number, which is within the bound, for evidence
-- whose file was as it says before and is so after.
pub record IsExchange (files : Files) (phase : String) (observation evidence : Json)
    (c after : CoordinationChannel) (ack ready_observation bound_evidence : Members)
    (path sha256 ready_sha256 last_path : String) (first_current last_current : Members)
    : Type 0 where
  pub observed : check_observation observation ≡ ok ready_observation
  pub bound : file_binding files evidence ≡ ok (bound_evidence, (path, sha256))
  pub first_binding : files.binding_before path ≡ ok first_current
  pub as_bound : same_binding first_current bound_evidence ≡ true
  pub within : suc c.sequence ≤ 128
  pub wrote :
      files.publish
        (ready_of (record c { sequence = suc c.sequence }) phase ready_observation bound_evidence)
      ≡ ok ready_sha256
  pub acknowledged :
      IsAcknowledged files
        (record c { sequence = suc c.sequence })
        phase
        bound_evidence
        ready_sha256
        ack
        last_current
        last_path
  pub counted : after.sequence ≡ suc c.sequence
  pub is_frozen : after.frozen ≡ freeze path sha256 c.frozen

check_evidence-bound :
    (files : Files) (v : Json) {bound : Members × (String × String)}
    → check_evidence files v ≡ ok bound
    → (file_binding files v ≡ ok bound)
      × ((current : Members) × (files.binding_before (bound.1.0) ≡ ok current)
          × (same_binding current (bound.0) ≡ true))
unfolding check_evidence
check_evidence-bound files v {bound} h =
    let (b, e, h1) = >>=-eq-ok (file_binding files v) _ h in
    let (current, e1, h2) = >>=-eq-ok (files.binding_before (b.1.0)) _ h1 in
    let (same, h3) = guard-then (same_binding current (b.0)) Error.wire _ h2 in
    let this : b ≡ bound = ok-injective h3 in
    (
      e ∙ ap ok this,
      (
        current,
        subst (λ t. files.binding_before (t.1.0) ≡ ok current) this e1,
        subst (λ t. same_binding current (t.0) ≡ true) this same,
      ),
    )

abbrev pub Exchanges :
    Files → String → Json → Json → CoordinationChannel → CoordinationChannel → Members → Type 0
Exchanges files phase observation evidence c after ack =
    (ready_observation : Members) × (bound_evidence : Members) × (path : String) × (sha256 : String)
    × (ready_sha256 : String) × (last_path : String) × (first_current : Members)
    × (last_current : Members) × IsExchange files phase observation evidence c after ack
        ready_observation bound_evidence path sha256 ready_sha256 last_path first_current
        last_current

published-ok :
    (files : Files) (c : CoordinationChannel) (phase : String) (evidence : Members)
    (place : String × String) (r : Result String) {ack : Members}
    → (published files c phase evidence place r).0 ≡ ok ack
    → (ready_sha256 : String) × (v : Json) × (r ≡ ok ready_sha256)
      × (check_ack files c phase evidence ready_sha256 v ≡ ok ack)
      × ((published files c phase evidence place r).1
          ≡ record c { frozen = freeze (place.0) (place.1) c.frozen })
published-ok files c phase evidence place (err e) h = cc
published-ok files c phase evidence (path, sha256) (ok ready_sha256) h =
    let (v, e, h1) = >>=-eq-ok (files.read_ack c.sequence) _ h in (ready_sha256, v, refl, h1, refl)

exchanged-ok :
    (files : Files) (c : CoordinationChannel) (phase : String) (observation evidence : Members)
    (place : String × String) {ack : Members}
    → (exchanged files c phase observation (evidence, place)).0 ≡ ok ack
    → (c.sequence ≤ 128)
      × ((ready_sha256 : String) × (v : Json) × (files.publish
              (ready_of c phase observation evidence)
            ≡ ok ready_sha256)
          × (check_ack files c phase evidence ready_sha256 v ≡ ok ack)
          × ((exchanged files c phase observation (evidence, place)).1
              ≡ record c { frozen = freeze (place.0) (place.1) c.frozen }))
exchanged-ok files c phase observation evidence place h = elim (Bool-cases (leb c.sequence 128)) [
  | inl e ↦ (
    leb→le c.sequence 128 e,
    rw e (
        published-ok files c phase evidence place
          (files.publish (ready_of c phase observation evidence)) (rw e at h)),
  )
  | inr e ↦ absurd (cc (rw e at h))
]

checked-Exchanges :
    (files : Files) (phase : String) (observation evidence : Json) (c : CoordinationChannel)
    (r : Result (Members × (Members × (String × String)))) {ack : Members}
    → ((o : Members) (b : Members × (String × String))
        → r ≡ ok (o, b)
        → (check_observation observation ≡ ok o) × (check_evidence files evidence ≡ ok b))
    → (checked files c phase r).0 ≡ ok ack
    → Exchanges files phase observation evidence c (checked files c phase r).1 ack
checked-Exchanges files phase observation evidence c (err e) k h = cc
checked-Exchanges files phase observation evidence c (ok (o, (bound, (path, sha256)))) k h =
    let next : CoordinationChannel = record c { sequence = suc c.sequence } in
    let (observed, evident) = k o (bound, (path, sha256)) refl in
    let (is_bound, (first, first_binding, as_bound)) =
      check_evidence-bound files evidence evident in
    let (within, (ready_sha256, v, wrote, acked, same)) =
      exchanged-ok files next phase o bound (path, sha256) h in
    let (last, last_path, acknowledged) =
      check_ack-IsAcknowledged files next phase bound ready_sha256 v acked in
    (
      o,
      bound,
      path,
      sha256,
      ready_sha256,
      last_path,
      first,
      last,
      record {
        observed = observed;
        bound = is_bound;
        first_binding = first_binding;
        as_bound = as_bound;
        within = within;
        wrote = wrote;
        acknowledged = acknowledged;
        counted = ap (λ d. d.sequence) same;
        is_frozen = ap (λ d. d.frozen) same;
      },
    )

-- An exchange that succeeds has counted the number up by one, to 128 at most, has written a ready file
-- with that number for a valid observation and for evidence whose file was as it says, has got the
-- acknowledgement of that very ready file with the action of its phase, and has found a file that
-- agrees with the evidence at the end; the evidence is among the frozen files.
pub barrier-Exchanges :
    (files : Files) (phase : String) (observation evidence : Json) (c : CoordinationChannel)
    (ack : Members)
    → (barrier files phase observation evidence c).0 ≡ ok ack
    → Exchanges files phase observation evidence c
        (barrier files phase observation evidence c).1
        ack
unfolding barrier
barrier-Exchanges files phase observation evidence c ack h =
    checked-Exchanges files phase observation evidence c
      (guard (is_phase phase) Error.wire
        >> (check_observation observation >>= λ o.
            (check_evidence files evidence >>= λ b. ok (o, b))))
      (λ o b e.
        let (known, e1) = guard-then (is_phase phase) Error.wire _ e in
        let (o', e2, e3) = >>=-eq-ok (check_observation observation) _ e1 in
        let (b', e4, e5) = >>=-eq-ok (check_evidence files evidence) (λ t. ok (o', t)) e3 in
        (
          e2 ∙ ap ok (ap (λ p. p.0) (ok-injective e5)),
          e4 ∙ ap ok (ap (λ p. p.1) (ok-injective e5)),
        ))
      h
