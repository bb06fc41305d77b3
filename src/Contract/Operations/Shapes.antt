-- ===== src/Contract/Operations/Shapes.antt =====
-- The requests of an operation against its reviewed shapes.
use teslatlas_home_assistant.Prelude.{
  ◌≡◌, refl, true, false, ◌||◌, String, List, [], ◌∷◌, Option, none, some, any, str_eq, ap, sym,
  ◌∙◌, &&_both, ||_neither, Bool-cases, Option-cases, inl, inr,
}
use teslatlas_home_assistant.Prelude.Int.{ℤ, pos, eq_ℤ}
use mathlib.Core.Path.{subst}
use mathlib.Core.Option.{some-injective}
use teslatlas_home_assistant.Json.{
  Json, null, bool, int, float, str, list, dict, Members, Items, get, has_keys, elements,
}
use teslatlas_home_assistant.Contract.Tables.{Shape, request_shapes, find}
use teslatlas_home_assistant.Contract.Checks.{says}
use teslatlas_home_assistant.Contract.Operations.{
  request_keys, ActualShape, shape_of, request_shape, actual_shapes, before_shapes, is_shape,
  are_shapes, found_shapes, requests_fit, validate_request_shape,
}

-- A request of a shape, with an identifier.
pub record IsRequest (v : Json) (id : String) (s : Shape) (request : Members) (status : ℤ)
    : Type 0 where
  pub is_object : v ≡ dict request
  pub complete : has_keys request_keys request ≡ true
  pub identified : get "request_id" request ≡ str id
  pub is_filled : str_eq id "" ≡ false
  pub has_status : get "status" request ≡ int status
  pub method_fits : says s.method (get "method" request) ≡ true
  pub route_fits : says s.route (get "route" request) ≡ true
  pub status_fits : eq_ℤ status (pos s.status) ≡ true

abbrev pub AreRequests : List Json → List String → List Shape → Type 0
AreRequests [] [] [] = Unit
AreRequests (v ∷ vs) (id ∷ ids) (s ∷ shapes) =
    ((request : Members) × (status : ℤ) × IsRequest v id s request status)
    × AreRequests vs ids shapes
AreRequests _ _ _ = ⊥

-- None of the texts is among those seen or stands before itself.
abbrev pub AreNew : List String → List String → Type 0
AreNew seen [] = Unit
AreNew seen (id ∷ ids) = (any (λ j. str_eq j id) seen ≡ false) × AreNew (id ∷ seen) ids

-- What a request that has a shape is.
record IsShaped (seen : List String) (v : Json) (id : String) (a : ActualShape) (request : Members)
    : Type 0 where
  shaped_object : v ≡ dict request
  shaped_complete : has_keys request_keys request ≡ true
  shaped_id : get "request_id" request ≡ str id
  shaped_filled : str_eq id "" ≡ false
  shaped_new : any (λ j. str_eq j id) seen ≡ false
  shaped_status : get "status" request ≡ int a.actual_status
  shaped_method : a.actual_method ≡ get "method" request
  shaped_route : a.actual_route ≡ get "route" request

shape_of_text :
    (seen : List String) (request : Members) (j : String) (n : ℤ) {id : String} {a : ActualShape}
    → has_keys request_keys request ≡ true
    → get "request_id" request ≡ str j
    → get "status" request ≡ int n
    → shape_of seen request (str j) (int n) ≡ some (id, a)
    → IsShaped seen (dict request) id a request
shape_of_text seen request j n {id} {a} k hv hw h =
    elim (Bool-cases (str_eq j "" || any (λ i. str_eq i j) seen)) [
      | inl e ↦ absurd (cc (rw e at h))
      | inr e ↦
          let (filled, fresh) = ||_neither _ _ e in
          let same = some-injective _ _ (rw e at h) in
          let same_id : j ≡ id = ap (λ p. p.0) same in
          let same_status : n ≡ a.actual_status = ap (λ p. p.1.actual_status) same in
          record {
            shaped_object = refl;
            shaped_complete = k;
            shaped_id = hv ∙ ap str same_id;
            shaped_filled = rw (sym same_id) filled;
            shaped_new = rw (sym same_id) fresh;
            shaped_status = hw ∙ ap int same_status;
            shaped_method = sym (ap (λ p. p.1.actual_method) same);
            shaped_route = sym (ap (λ p. p.1.actual_route) same);
          }
    ]

shape_of-some :
    (seen : List String) (request : Members) (v w : Json) {id : String} {a : ActualShape}
    → has_keys request_keys request ≡ true
    → get "request_id" request ≡ v
    → get "status" request ≡ w
    → shape_of seen request v w ≡ some (id, a)
    → IsShaped seen (dict request) id a request
shape_of-some seen request (str j) (int n) k hv hw h = shape_of_text seen request j n k hv hw h
shape_of-some seen request null w k hv hw h = cc
shape_of-some seen request (bool b) w k hv hw h = cc
shape_of-some seen request (int n) w k hv hw h = cc
shape_of-some seen request (float f) w k hv hw h = cc
shape_of-some seen request (str j) null k hv hw h = cc
shape_of-some seen request (str j) (bool b) k hv hw h = cc
shape_of-some seen request (str j) (float f) k hv hw h = cc
shape_of-some seen request (str j) (str s) k hv hw h = cc
shape_of-some seen request (str j) (list vs) k hv hw h = cc
shape_of-some seen request (str j) (dict d) k hv hw h = cc
shape_of-some seen request (list vs) w k hv hw h = cc
shape_of-some seen request (dict d) w k hv hw h = cc

request_shape-some :
    (seen : List String) (v : Json) {id : String} {a : ActualShape}
    → request_shape seen v ≡ some (id, a)
    → (request : Members) × IsShaped seen v id a request
request_shape-some seen null h = cc
request_shape-some seen (bool b) h = cc
request_shape-some seen (int n) h = cc
request_shape-some seen (float f) h = cc
request_shape-some seen (str s) h = cc
request_shape-some seen (list vs) h = cc
request_shape-some seen (dict request) h = elim (Bool-cases (has_keys request_keys request)) [
  | inl e ↦ (request, shape_of-some seen request _ _ e refl refl (rw e at h))
  | inr e ↦ absurd (cc (rw e at h))
]

shaped-IsRequest :
    (seen : List String) (v : Json) (id : String) (a : ActualShape) (s : Shape) (request : Members)
    → IsShaped seen v id a request
    → is_shape a s ≡ true
    → IsRequest v id s request a.actual_status
shaped-IsRequest seen v id a s request p h =
    let (m, rest) = &&_both (says s.method a.actual_method) _ h in
    let (r, n) = &&_both (says s.route a.actual_route) _ rest in
    record {
      is_object = p.shaped_object;
      complete = p.shaped_complete;
      identified = p.shaped_id;
      is_filled = p.shaped_filled;
      has_status = p.shaped_status;
      method_fits = rw p.shaped_method at m;
      route_fits = rw p.shaped_route at r;
      status_fits = n;
    }

more-AreRequests :
    (seen : List String) (v : Json) (vs : List Json) (shapes : List Shape) (id : String)
    (a : ActualShape)
    → request_shape seen v ≡ some (id, a)
    → (o : Option (List ActualShape))
    → ((rest : List Shape)
        → found_shapes o rest ≡ true
        → (ids : List String) × AreRequests vs ids rest × AreNew (id ∷ seen) ids)
    → found_shapes (before_shapes a o) shapes ≡ true
    → (ids : List String) × AreRequests (v ∷ vs) ids shapes × AreNew seen ids
unfolding are_shapes
more-AreRequests seen v vs shapes id a e none next h = cc
more-AreRequests seen v vs [] id a e (some actual) next h = cc
more-AreRequests seen v vs (s ∷ shapes) id a e (some actual) next h =
    let (fits, rest) = &&_both _ _ h in
    let (request, shaped) = request_shape-some seen v e in
    let (ids, are, new) = next shapes rest in
    (
      id ∷ ids,
      ((request, a.actual_status, shaped-IsRequest seen v id a s request shaped fits), are),
      (shaped.shaped_new, new),
    )

shapes-AreRequests :
    (seen : List String) (vs : List Json) (shapes : List Shape)
    → found_shapes (actual_shapes seen vs) shapes ≡ true
    → (ids : List String) × AreRequests vs ids shapes × AreNew seen ids
unfolding actual_shapes are_shapes
shapes-AreRequests seen [] [] h = ([], tt, tt)
shapes-AreRequests seen [] (s ∷ shapes) h = cc
shapes-AreRequests seen (v ∷ vs) shapes h = elim (Option-cases (request_shape seen v)) [
  | inl e ↦ absurd (cc (rw (e, found_shapes) at h))
  | inr ((id, a), e) ↦
      more-AreRequests seen v vs shapes id a e (actual_shapes (id ∷ seen) vs)
        (λ rest. shapes-AreRequests (id ∷ seen) vs rest) (rw (e, found_shapes) at h)
]

fit-AreRequests :
    (found : Option (List Shape)) (v : Json) (shapes : List Shape)
    → found ≡ some shapes
    → requests_fit found v ≡ true
    → (vs : Items) × (ids : List String) × (v ≡ list vs)
      × AreRequests (elements vs) ids shapes
      × AreNew [] ids
fit-AreRequests none v shapes e h = cc
fit-AreRequests (some found) null shapes e h = cc
fit-AreRequests (some found) (bool b) shapes e h = cc
fit-AreRequests (some found) (int n) shapes e h = cc
fit-AreRequests (some found) (float f) shapes e h = cc
fit-AreRequests (some found) (str s) shapes e h = cc
fit-AreRequests (some found) (dict d) shapes e h = cc
fit-AreRequests (some found) (list vs) shapes e h =
    let (ids, are, new) = shapes-AreRequests [] (elements vs) found ((&&_both _ _ h).1) in
    (vs, ids, refl, subst (λ l. AreRequests (elements vs) ids l) (some-injective _ _ e) are, new)

-- What is admitted as the requests of an operation is a list of as many objects as the operation has
-- shapes, each with its four keys, an identifier that is a text, not empty and not that of another,
-- and the method, the route and the status of the shape at its place.
pub validate_request_shape-AreRequests :
    (operation : String) (v : Json) (shapes : List Shape)
    → find operation request_shapes ≡ some shapes
    → validate_request_shape operation v ≡ true
    → (vs : Items) × (ids : List String) × (v ≡ list vs)
      × AreRequests (elements vs) ids shapes
      × AreNew [] ids
unfolding validate_request_shape
validate_request_shape-AreRequests operation v shapes e h = fit-AreRequests _ v shapes e h
