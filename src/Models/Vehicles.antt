-- ===== src/Models/Vehicles.antt =====
-- The vehicle mapping of a snapshot: what is found in it, and in which order.
use teslatlas_home_assistant.Prelude.{
  ◌≡◌, refl, ◌∙◌, String, Bool, false, ◌||◌, List, [], ◌∷◌, ◌++◌, Option, none, some, map, arith,
  eq_iff, str_eq, any, if◌then◌else◌,
}
use mathlib.Core.List.{append-nil, append_assoc, map-append}
use teslatlas_home_assistant.Credentials.{Datetime}
use teslatlas_home_assistant.Models.{
  VehicleState, Vehicles, HubInfo, HubStatus, HubSnapshot, HubEvent, lookup, insert, collect,
  create, apply,
}

-- The last vehicle of the list that has the identifier.
unfoldable pub last_with : String → List VehicleState → Option VehicleState → Option VehicleState
last_with k [] found = found
last_with k (v ∷ vs) found = last_with k vs (if str_eq v.vehicle_id k then some v else found)

pub lookup-insert :
    (id other : String) (vehicle : VehicleState) (known : Vehicles)
    → lookup other (insert id vehicle known)
      ≡ (if str_eq id other then some vehicle else lookup other known)
unfolding lookup insert
lookup-insert id other vehicle [] = refl
lookup-insert id other vehicle ((first, old) ∷ known) = ground (
  lookup-insert id other vehicle known,
  eq_iff first other,
  eq_iff first id,
  eq_iff id other,
  arith,
)

lookup-collect :
    (k : String) (vs : List VehicleState) (m : Vehicles)
    → lookup k (collect m vs) ≡ last_with k vs (lookup k m)
unfolding collect last_with
lookup-collect k [] m = refl
lookup-collect k (v ∷ vs) m =
    rw (lookup-collect k vs (insert v.vehicle_id v m)) (rw (lookup-insert v.vehicle_id k v m))

-- A snapshot shows for each identifier the last vehicle that was given with it, and nothing else.
pub lookup-create :
    (info : HubInfo) (status : HubStatus) (vs : List VehicleState) (t : Datetime) (k : String)
    → lookup k (create info status vs t).vehicles ≡ last_with k vs none
unfolding create
lookup-create info status vs t k = rw (lookup-collect k vs []) (unfold lookup in refl)

-- An event replaces its own vehicle, leaves every other vehicle, the identity and the status of the
-- Hub alone, and dates the snapshot.
pub lookup-apply :
    (e : HubEvent) (s : HubSnapshot) (k : String)
    → (lookup k (apply e s).vehicles
        ≡ (if str_eq e.vehicle.vehicle_id k then some e.vehicle else lookup k s.vehicles))
      × ((apply e s).info ≡ s.info)
      × ((apply e s).status ≡ s.status)
      × ((apply e s).received_at ≡ e.received_at)
unfolding apply
lookup-apply e s k = (lookup-insert e.vehicle.vehicle_id k e.vehicle s.vehicles, refl, refl, refl)

abbrev pub keys : Vehicles → List String
keys m = map (λ e. e.0) m

-- Whether the identifier or key is listed.
abbrev pub occurs : String → List String → Bool
occurs k ks = any (λ j. str_eq j k) ks

-- No identifier stands twice.
abbrev pub AreDistinct : List String → Type 0
AreDistinct [] = Unit
AreDistinct (k ∷ ks) = (occurs k ks ≡ false) × AreDistinct ks

occurs-insert :
    (k j : String) (v : VehicleState) (m : Vehicles)
    → occurs j (keys (insert k v m)) ≡ (str_eq k j || occurs j (keys m))
unfolding insert
occurs-insert k j v [] = ground arith
occurs-insert k j v ((i, w) ∷ m) =
    ground (arith, eq_iff k j, eq_iff i k, eq_iff i j, occurs-insert k j v m)

insert-AreDistinct :
    (k : String) (v : VehicleState) (m : Vehicles)
    → AreDistinct (keys m)
    → AreDistinct (keys (insert k v m))
unfolding insert
insert-AreDistinct k v [] h = (refl, tt)
insert-AreDistinct k v ((i, w) ∷ m) h =
    ground (arith, eq_iff i k, eq_iff k i, occurs-insert k i v m, insert-AreDistinct k v m h.1)

pub collect-AreDistinct :
    (vs : List VehicleState) (m : Vehicles)
    → AreDistinct (keys m)
    → AreDistinct (keys (collect m vs))
unfolding collect
collect-AreDistinct [] m h = h
collect-AreDistinct (v ∷ vs) m h =
    collect-AreDistinct vs (insert v.vehicle_id v m) (insert-AreDistinct v.vehicle_id v m h)

insert_new :
    (k : String) (v : VehicleState) (m : Vehicles)
    → occurs k (keys m) ≡ false
    → insert k v m ≡ m ++ ((k, v) ∷ [])
unfolding insert
insert_new k v [] h = refl
insert_new k v ((i, w) ∷ m) h = ground (arith, insert_new k v m)

occurs-middle :
    (j k : String) (ks rest : List String)
    → occurs j (ks ++ (k ∷ rest)) ≡ (occurs j ks || (str_eq k j || occurs j rest))
occurs-middle j k [] rest = refl
occurs-middle j k (i ∷ ks) rest = ground (arith, occurs-middle j k ks rest)

fresh_of_distinct :
    (ks : List String) (k : String) (rest : List String)
    → AreDistinct (ks ++ (k ∷ rest))
    → occurs k ks ≡ false
fresh_of_distinct [] k rest h = refl
fresh_of_distinct (j ∷ ks) k rest h =
    ground
      (arith, occurs-middle j k ks rest, eq_iff j k, eq_iff k j, fresh_of_distinct ks k rest h.1)

abbrev pub ids : List VehicleState → List String
ids vs = map (λ v. v.vehicle_id) vs

-- Vehicles with new and different identifiers are appended in their order.
pub collect_distinct :
    (vs : List VehicleState) (m : Vehicles)
    → AreDistinct (keys m ++ ids vs)
    → keys (collect m vs) ≡ keys m ++ ids vs
unfolding collect
collect_distinct [] m h = rw append-nil
collect_distinct (v ∷ vs) m h =
    let fresh = fresh_of_distinct (keys m) v.vehicle_id (ids vs) h in
    let shape : keys (m ++ ((v.vehicle_id, v) ∷ [])) ++ ids vs ≡ keys m ++ ids (v ∷ vs) =
      simp (map-append, append_assoc) in
    rw (insert_new v.vehicle_id v m fresh)
      (collect_distinct vs (m ++ ((v.vehicle_id, v) ∷ [])) (rw shape h) ∙ shape)
