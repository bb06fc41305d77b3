-- ===== src/Client/Bounds.antt =====
-- The bound on a response body.
use mathlib.Core.List.{append_assoc, append-nil}
use teslatlas_home_assistant.Prelude.{
  ℕ, ◌+◌, ◌≤◌, ◌≡◌, refl, ap, ◌∙◌, sym, ◌↔◌, false, List, [], ◌++◌, Option, none, some, length,
  length-append, arith, Option-cases, inl, inr, ltb,
}
use teslatlas_home_assistant.Errors.{ok, ok-injective}
use teslatlas_home_assistant.Client.{Stream, done, broken, chunk}
use teslatlas_home_assistant.Client.Http.{read_body, max_response_bytes}

-- All bytes of a body that arrives whole.
unfoldable pub whole_body : Stream → Option (List ℕ)
whole_body done = some []
whole_body broken = none
whole_body Stream.interrupted = none
whole_body (chunk bytes rest) = elim (whole_body rest) [
  | none ↦ none
  | some later ↦ some (bytes ++ later)
]

read_body_sound :
    (s : Stream) (body raw : List ℕ)
    → length body ≤ max_response_bytes
    → read_body body s ≡ ok raw
    → (rest : List ℕ) × (whole_body s ≡ some rest)
      × (raw ≡ body ++ rest)
      × (length raw ≤ max_response_bytes)
unfolding read_body whole_body
read_body_sound done body raw n h =
    let e : body ≡ raw = ok-injective h in ([], refl, sym e ∙ sym (append-nil body), rw (← e) n)
read_body_sound broken body raw n h = cc
read_body_sound Stream.interrupted body raw n h = cc
read_body_sound (chunk bytes s) body raw n h =
    let small : length (body ++ bytes) ≤ max_response_bytes = rw length-append (ground arith) in
    let next : read_body (body ++ bytes) s ≡ ok raw = ground arith in
    let (rest, e, shape, bound) = read_body_sound s (body ++ bytes) raw small next in
    (bytes ++ rest, rw e, shape ∙ append_assoc body bytes rest, bound)

read_body_complete :
    (s : Stream) (body rest : List ℕ)
    → whole_body s ≡ some rest
    → length (body ++ rest) ≤ max_response_bytes
    → read_body body s ≡ ok (body ++ rest)
unfolding read_body whole_body
read_body_complete done body rest e n =
    let empty : [] ≡ rest = ground arith in rw (← empty, append-nil)
read_body_complete broken body rest e n = cc
read_body_complete Stream.interrupted body rest e n = cc
read_body_complete (chunk bytes s) body rest e n = elim (Option-cases (whole_body s)) [
  | inl no_more ↦ absurd (ground arith)
  | inr (later, e') ↦
      (let shape : bytes ++ later ≡ rest = ground arith in
        let total : body ++ rest ≡ (body ++ bytes) ++ later =
          rw (← shape) (sym (append_assoc body bytes later)) in
        let fits : length ((body ++ bytes) ++ later) ≤ max_response_bytes = rw total at n in
        let small : ltb max_response_bytes (length body + length bytes) ≡ false =
          ground (arith, length-append (body ++ bytes) later, length-append body bytes) in
        rw (small, total) (read_body_complete s (body ++ bytes) later e' fits))
]

-- The loop over the chunks returns the body exactly when it arrives whole and has at most 1048576
-- bytes: what is returned is all of it, however it was cut into chunks.
pub read_body-bounded :
    (s : Stream) (raw : List ℕ)
    → (read_body [] s ≡ ok raw) ↔ ((whole_body s ≡ some raw) × (length raw ≤ max_response_bytes))
read_body-bounded s raw = (forth, back)
  where
    forth : read_body [] s ≡ ok raw → (whole_body s ≡ some raw) × (length raw ≤ max_response_bytes)
    forth h =
        let (rest, e, shape, bound) = read_body_sound s [] raw (omega arith) h in
        (e ∙ ap some (sym shape), bound)

    back : (whole_body s ≡ some raw) × (length raw ≤ max_response_bytes) → read_body [] s ≡ ok raw
    back (e, n) = read_body_complete s [] raw e n
