-- ===== src/Diagnostics/Privacy.antt =====
-- The diagnostics tell nothing of the Hub's address, identity and credentials and of the vehicles.
use teslatlas_home_assistant.Prelude.{
  ℕ, suc, String, ◌≡◌, refl, ap, ◌⊎◌, inl, inr, Bool, true, false, List, [], ◌∷◌, some, map, length,
  arith, All, str_eq, eq_iff, if◌then◌else◌,
}
use teslatlas_home_assistant.Values.{Value, Dict, null, str, empty, entry}
use teslatlas_home_assistant.Models.{VehicleState, Vehicles, HubSnapshot}
use teslatlas_home_assistant.Models.Vehicles.{occurs}
use teslatlas_home_assistant.Diagnostics.{
  to_redact, failure_count, runtime, async_get_config_entry_diagnostics,
}

abbrev pub alter : (String → String) → (VehicleState → VehicleState) → Vehicles → Vehicles
alter rename change m = map (λ e. (rename e.0, change e.1)) m

-- Another Hub with other vehicles.
abbrev pub disguise :
    String → String → (String → String) → (VehicleState → VehicleState) → HubSnapshot → HubSnapshot
disguise hub_id name rename change s = record s {
  info = record s.info { hub_id = hub_id; name = name };
  vehicles = alter rename change s.vehicles;
}

-- The keys whose values identify a Hub, its place or a client of it, or are secrets.
abbrev pub private_keys : List String
private_keys =
    "host" ∷ "port" ∷ "tls_pin" ∷ "hub_id" ∷ "device_id" ∷ "access_token" ∷ "pairing_secret"
    ∷ "latitude" ∷ "longitude" ∷ []

-- `None` and the empty text, which redaction leaves.
abbrev pub is_blank : Value → Bool
is_blank null = true
is_blank (str s) = str_eq s ""
is_blank _ = false

-- What redaction makes of the value of a key, where `within` is what it makes of the values of keys
-- that are not listed.
abbrev pub shown : (List String → Value → Value) → List String → String → Value → Value
shown within ks k v =
    if is_blank v then v else if occurs k ks then str "**REDACTED**" else within ks v

-- The same data, but for the values of private keys: they may differ where both are something.
abbrev pub IsDisguised : Dict → Dict → Type 0
IsDisguised empty empty = Unit
IsDisguised (entry k v d) (entry j w e) =
    (k ≡ j)
    × ((v ≡ w) ⊎ ((occurs k private_keys ≡ true) × (is_blank v ≡ false) × (is_blank w ≡ false)))
    × IsDisguised d e
IsDisguised _ _ = ⊥

occurs_mono :
    (k : String) (js ks : List String)
    → All (λ j. occurs j ks ≡ true) js
    → occurs k js ≡ true
    → occurs k ks ≡ true
occurs_mono k [] ks h e = cc
occurs_mono k (j ∷ js) ks h e = ground (arith, eq_iff j k, occurs_mono k js ks h.1)

private-redacted : (k : String) → occurs k private_keys ≡ true → occurs k to_redact ≡ true
private-redacted k = occurs_mono k private_keys to_redact (ground arith)

shown-eq :
    (within : List String → Value → Value) (k : String) (v w : Value)
    → (v ≡ w) ⊎ ((occurs k private_keys ≡ true) × (is_blank v ≡ false) × (is_blank w ≡ false))
    → shown within to_redact k v ≡ shown within to_redact k w
shown-eq within k v w (inl e) = ap (shown within to_redact k) e
shown-eq within k v w (inr h) = rw (h.1, h.2, private-redacted k h.0)

redact-disguised :
    (redact : Dict → List String → Dict) (within : List String → Value → Value)
    → ((k : String) (v : Value) (d : Dict) (ks : List String)
        → redact (entry k v d) ks ≡ entry k (shown within ks k v) (redact d ks))
    → (d e : Dict) → IsDisguised d e
    → redact d to_redact ≡ redact e to_redact
redact-disguised redact within redacts empty empty h = refl
redact-disguised redact within redacts (entry k v d) (entry j w e) h = rw (
  redacts k v d to_redact,
  redacts j w e to_redact,
  shown-eq within k v w h.1,
  redact-disguised redact within redacts d e h.2,
  h.0,
)
redact-disguised redact within redacts empty (entry j w e) h = absurd h
redact-disguised redact within redacts (entry k v d) empty h = absurd h

failure_count-alter :
    (rename : String → String) (change : VehicleState → VehicleState)
    → ((v : VehicleState) → (change v).current_read_failed ≡ v.current_read_failed)
    → (m : Vehicles) → failure_count (alter rename change m) ≡ failure_count m
unfolding failure_count
failure_count-alter rename change same [] = refl
failure_count-alter rename change same ((k, v) ∷ m) =
    ground (arith, same v, failure_count-alter rename change same m)

length-alter :
    (rename : String → String) (change : VehicleState → VehicleState) (m : Vehicles)
    → length (alter rename change m) ≡ length m
length-alter rename change [] = refl
length-alter rename change (e ∷ m) = ap suc (length-alter rename change m)

-- The diagnostics of two entries are the same if their data differ only in the values of private keys
-- (host, port, pin, Hub, device, token, pairing secret and position), each of them neither null nor
-- the empty text, and if in the snapshot the Hub and the vehicles have other identifiers and names
-- and the vehicles other readings, as long as the current reads that have failed are the same.
-- Redaction is relied on to go through the data key by key, to leave null and the empty text, to put
-- a fixed text for the value of a listed key, and to put for any other value one that depends on it
-- and the listed keys only.
pub diagnostics_anonymous :
    (redact : Dict → List String → Dict) (within : List String → Value → Value)
    (redacts : (k : String) (v : Value) (d : Dict) (ks : List String)
      → redact (entry k v d) ks ≡ entry k (shown within ks k v) (redact d ks))
    (sorted : List String → List String) (d disguised : Dict)
    → IsDisguised d disguised
    → (version : ℕ × ℕ) (success : Bool) (s : HubSnapshot) (hub_id name : String)
      (rename : String → String) (change : VehicleState → VehicleState)
    → ((v : VehicleState) → (change v).current_read_failed ≡ v.current_read_failed)
    → async_get_config_entry_diagnostics redact sorted disguised version success
        (some (disguise hub_id name rename change s))
      ≡ async_get_config_entry_diagnostics redact sorted d version success (some s)
unfolding async_get_config_entry_diagnostics runtime
diagnostics_anonymous redact within redacts sorted d disguised h version success s hub_id name
      rename change same =
    rw (
      length-alter rename change s.vehicles,
      failure_count-alter rename change same s.vehicles,
      redact-disguised redact within redacts d disguised h,
    )
