-- ===== src/Contract/Admission/Requests.antt =====
-- The requests of an accepted case.
use teslatlas_home_assistant.Prelude.{
  ◌≡◌, refl, sym, true, false, &&_both, String, List, [], ◌∷◌, ◌++◌, Option, none, some, str_eq,
}
use teslatlas_home_assistant.Prelude.Int.{ℤ}
use mathlib.Core.Path.{subst}
use teslatlas_home_assistant.Errors.{ok}
use teslatlas_home_assistant.Json.{
  Json, str, list, dict, Members, get, has_keys, elements, items, typed_equal,
}
use teslatlas_home_assistant.Contract.{AdmittedInvocation, AdmissionContext}
use teslatlas_home_assistant.Contract.Tables.{Shape, request_shapes, case_bindings, find}
use teslatlas_home_assistant.Contract.Operations.{requests_fit, validate_request_shape}
use teslatlas_home_assistant.Contract.Operations.Shapes.{
  IsRequest, AreRequests, validate_request_shape-AreRequests,
}
use teslatlas_home_assistant.Contract.Admission.{case_keys, requests_in, admit_case}
use teslatlas_home_assistant.Contract.Admission.Accepted.{AreEvidenced}
use teslatlas_home_assistant.Contract.Admission.Proved.{accepted, admit_case_iff}

-- Requests with the shapes, one by one.
abbrev pub AreShaped : List Json → List Shape → Type 0
AreShaped [] [] = Unit
AreShaped (v ∷ vs) (s ∷ shapes) =
    ((id : String) × (request : Members) × (status : ℤ) × IsRequest v id s request status)
    × AreShaped vs shapes
AreShaped _ _ = ⊥

abbrev known_shapes : Option (List Shape) → List Shape
known_shapes none = []
known_shapes (some shapes) = shapes

-- The shapes of operations, in turn.
abbrev pub shapes_of : List String → List Shape
shapes_of [] = []
shapes_of (operation ∷ operations) =
    known_shapes (find operation request_shapes) ++ shapes_of operations

AreRequests-AreShaped :
    (vs : List Json) (ids : List String) (shapes : List Shape)
    → AreRequests vs ids shapes
    → AreShaped vs shapes
AreRequests-AreShaped [] [] [] h = tt
AreRequests-AreShaped [] [] (s ∷ shapes) h = absurd h
AreRequests-AreShaped [] (id ∷ ids) shapes h = absurd h
AreRequests-AreShaped (v ∷ vs) [] shapes h = absurd h
AreRequests-AreShaped (v ∷ vs) (id ∷ ids) [] h = absurd h
AreRequests-AreShaped (v ∷ vs) (id ∷ ids) (s ∷ shapes) (first, rest) =
    ((id, first.0, first.1, first.2), AreRequests-AreShaped vs ids shapes rest)

AreShaped-append :
    (vs ws : List Json) (shapes more : List Shape)
    → AreShaped vs shapes
    → AreShaped ws more
    → AreShaped (vs ++ ws) (shapes ++ more)
AreShaped-append [] ws [] more h g = g
AreShaped-append [] ws (s ∷ shapes) more h g = absurd h
AreShaped-append (v ∷ vs) ws [] more h g = absurd h
AreShaped-append (v ∷ vs) ws (s ∷ shapes) more (first, rest) g =
    (first, AreShaped-append vs ws shapes more rest g)

known_shapes-fit :
    (found : Option (List Shape)) (v : Json)
    → requests_fit found v ≡ true
    → found ≡ some (known_shapes found)
known_shapes-fit none v h = cc
known_shapes-fit (some shapes) v h = refl

valid-AreShaped :
    (operation : String) (v : Json)
    → validate_request_shape operation v ≡ true
    → AreShaped (requests_in v) (known_shapes (find operation request_shapes))
unfolding validate_request_shape
valid-AreShaped operation v h =
    let known = known_shapes-fit (find operation request_shapes) v h in
    let (vs, ids, same, are, new) = validate_request_shape-AreRequests operation v _ known h in
    rw same (AreRequests-AreShaped (elements vs) ids _ are)

evidenced-AreShaped :
    (c : AdmissionContext) (actor_id : String) (is : List AdmittedInvocation)
    (operations : List String) (requests : List Json)
    → AreEvidenced c actor_id is operations requests
    → AreShaped requests (shapes_of operations)
evidenced-AreShaped c actor_id is [] requests h = rw h tt
evidenced-AreShaped c actor_id is (operation ∷ operations) requests (here, later, one, more, e) =
    let (i, v, w, raw, expected, f, s, r, same) = one in
    let fits = (&&_both (validate_request_shape operation (get "requests" raw)) _ r.asked).0 in
    let shaped =
      subst (λ l. AreShaped l (known_shapes (find operation request_shapes))) (sym same)
        (valid-AreShaped operation (get "requests" raw) fits) in
    subst (λ l. AreShaped l (shapes_of (operation ∷ operations))) (sym e)
      (AreShaped-append here later _ _ shaped
        (evidenced-AreShaped c actor_id is operations later more))

-- The transcript of an accepted case, other than that of the service's runtime, is typed equal to a
-- list of requests that have, one by one, the reviewed shapes of the operations to which the case is
-- bound, in turn; a case whose operations have no shapes is accepted only without requests.
pub admit_case-AreShaped :
    (case : Members) (case_id : String) (c : AdmissionContext)
    → has_keys case_keys case ≡ true
    → get "id" case ≡ str case_id
    → str_eq case_id "installed_service_runtime" ≡ false
    → admit_case (dict case) c ≡ ok accepted
    → (actor_id : String) × (operations : List String) × (requests : List Json) × (find case_id
          case_bindings
        ≡ some (actor_id, operations))
      × (typed_equal (get "request_transcript" case) (list (items requests)) ≡ true)
      × AreShaped requests (shapes_of operations)
admit_case-AreShaped case case_id c complete named other h =
    let (facts, actor_id, operations, requests, p) =
      (admit_case_iff case case_id c complete named other).0 h in
    (
      actor_id,
      operations,
      requests,
      p.bound,
      p.transcribed,
      evidenced-AreShaped c actor_id _ operations requests p.evidenced,
    )
