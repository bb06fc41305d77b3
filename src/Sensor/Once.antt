-- ===== src/Sensor/Once.antt =====
-- Over all updates, every vehicle gets its sensors once.
use teslatlas_home_assistant.Prelude.{
  ◌≡◌, refl, ap, inl, inr, String, true, ◌||◌, List, [], ◌∷◌, ◌++◌, Option, none, some, map, any,
  str_eq, eq_iff, arith, Bool-cases,
}
use mathlib.Core.List.{map-append}
use teslatlas_home_assistant.Models.{VehicleState, Vehicles, HubInfo, HubSnapshot}
use teslatlas_home_assistant.Models.Vehicles.{keys, occurs, AreDistinct}
use teslatlas_home_assistant.Sensor.{
  VehicleSensor, vehicle_sensor_descriptions, Platform, no_sensors, sensors_of, refresh_name,
  add_vehicle, add_vehicles, async_add_new_entities,
}

-- The updates of a platform, from its setup on.
unfoldable pub follow : (String → Option String) → List HubSnapshot → Platform → Platform
follow device_name [] p = p
follow device_name (s ∷ ss) p = follow device_name ss (async_add_new_entities device_name s p)

abbrev pub identity : VehicleSensor → String × String
identity s = (s.vehicle_id, s.description.key)

-- One sensor of each description for each vehicle, the vehicles from the last one to the first.
unfoldable pub one_set_each : List String → List (String × String)
one_set_each [] = []
one_set_each (k ∷ ks) = one_set_each ks ++ map (λ d. (k, d.key)) vehicle_sensor_descriptions

-- The sensors added are one set for each vehicle that is known, and no vehicle is known twice.
pub record IsOnce (p : Platform) : Type 0 where
  pub distinct : AreDistinct p.known_vehicle_ids
  pub sets : map identity p.added ≡ one_set_each p.known_vehicle_ids

abbrev added_so_far : Platform → List String × List VehicleSensor
added_so_far p = (p.known_vehicle_ids, p.added)

named :
    (name : Option String) (v : VehicleState) (k : String) (p : Platform)
    → added_so_far (refresh_name name v k p) ≡ added_so_far p
unfolding refresh_name
named none v k p = refl
named (some name) v k p = ground arith

IsOnce-same : (p q : Platform) → added_so_far q ≡ added_so_far p → IsOnce p → IsOnce q
IsOnce-same p q e h =
    let known : q.known_vehicle_ids ≡ p.known_vehicle_ids = ap (λ x. x.0) e in
    let added : q.added ≡ p.added = ap (λ x. x.1) e in
    record { distinct = rw known h.distinct; sets = rw (known, added) h.sets }

identity-sensors_of :
    (info : HubInfo) (k : String)
    → map identity (sensors_of info k) ≡ map (λ d. (k, d.key)) vehicle_sensor_descriptions
unfolding sensors_of
identity-sensors_of info k = refl

add_vehicle-IsOnce :
    (device_name : String → Option String) (info : HubInfo) (k : String) (v : VehicleState)
    (p : Platform)
    → IsOnce p
    → IsOnce (add_vehicle device_name info k v p)
unfolding add_vehicle one_set_each
add_vehicle-IsOnce device_name info k v p h = elim (Bool-cases (occurs k p.known_vehicle_ids)) [
  | inl e ↦ rw e (IsOnce-same p _ (named (device_name k) v k p) h)
  | inr e ↦ rw e (record {
    distinct = (e, h.distinct);
    sets = rw (map-append, h.sets, identity-sensors_of info k);
  })
]

-- What is known stays known, and the vehicle is known now.
add_vehicle-knows :
    (device_name : String → Option String) (info : HubInfo) (k : String) (v : VehicleState)
    (p : Platform) (j : String)
    → (str_eq k j || occurs j p.known_vehicle_ids) ≡ true
    → occurs j (add_vehicle device_name info k v p).known_vehicle_ids ≡ true
unfolding add_vehicle
add_vehicle-knows device_name info k v p j h =
    ground (arith, eq_iff k j, named (device_name k) v k p)

add_vehicles-IsOnce :
    (device_name : String → Option String) (info : HubInfo) (m : Vehicles) (p : Platform)
    → IsOnce p
    → IsOnce (add_vehicles device_name info m p)
unfolding add_vehicles
add_vehicles-IsOnce device_name info [] p h = h
add_vehicles-IsOnce device_name info ((k, v) ∷ m) p h =
    add_vehicles-IsOnce device_name info m (add_vehicle device_name info k v p)
      (add_vehicle-IsOnce device_name info k v p h)

add_vehicles-knows :
    (device_name : String → Option String) (info : HubInfo) (m : Vehicles) (p : Platform)
    (j : String)
    → (occurs j (keys m) || occurs j p.known_vehicle_ids) ≡ true
    → occurs j (add_vehicles device_name info m p).known_vehicle_ids ≡ true
unfolding add_vehicles
add_vehicles-knows device_name info [] p j h = h
add_vehicles-knows device_name info ((k, v) ∷ m) p j h =
    let q = add_vehicle device_name info k v p in
    add_vehicles-knows device_name info m q j
      (ground (arith, add_vehicle-knows device_name info k v p j))

follow-knows :
    (device_name : String → Option String) (ss : List HubSnapshot) (p : Platform) (j : String)
    → (any (λ s. occurs j (keys s.vehicles)) ss || occurs j p.known_vehicle_ids) ≡ true
    → occurs j (follow device_name ss p).known_vehicle_ids ≡ true
unfolding follow async_add_new_entities
follow-knows device_name [] p j h = h
follow-knows device_name (s ∷ ss) p j h =
    let later =
      add_vehicles-knows device_name s.info s.vehicles (record p { hub_added = true }) j in
    follow-knows device_name ss (async_add_new_entities device_name s p) j (ground (arith, later))

follow-IsOnce :
    (device_name : String → Option String) (ss : List HubSnapshot) (p : Platform)
    → IsOnce p
    → IsOnce (follow device_name ss p)
unfolding follow async_add_new_entities
follow-IsOnce device_name [] p h = h
follow-IsOnce device_name (s ∷ ss) p h =
    follow-IsOnce device_name ss (async_add_new_entities device_name s p) (
      add_vehicles-IsOnce device_name s.info s.vehicles (record p { hub_added = true })
        (record { distinct = h.distinct; sets = h.sets }))

-- After the setup and any number of updates, the sensors that were added are exactly one of each
-- description for each known vehicle, no vehicle is known twice, and every vehicle of every snapshot
-- so far is known.
pub follow-IsOnce_all :
    (device_name : String → Option String) (ss : List HubSnapshot)
    → IsOnce (follow device_name ss no_sensors)
      × ((k : String)
          → any (λ s. occurs k (keys s.vehicles)) ss ≡ true
          → occurs k (follow device_name ss no_sensors).known_vehicle_ids ≡ true)
unfolding one_set_each
follow-IsOnce_all device_name ss = (
  follow-IsOnce device_name ss no_sensors (record { distinct = tt; sets = refl }),
  λ k h. follow-knows device_name ss no_sensors k (ground arith),
)
