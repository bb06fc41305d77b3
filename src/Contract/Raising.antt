-- ===== src/Contract/Raising.antt =====
-- Which exceptions the functions of tools/matrix_contract.py raise.
pub mod Observing
pub mod Showing
pub mod Operating
pub mod Refusing
use teslatlas_home_assistant.Prelude.{
  ◌≡◌, refl, ◌≢◌, Bool, true, false, Option, none, some, not, if◌then◌else◌,
}
use teslatlas_home_assistant.Errors.{Error, Result, ok, err, ◌>>=◌}
use teslatlas_home_assistant.Json.{Json, null, bool, int, float, str, list, dict, Members}
use teslatlas_home_assistant.Contract.Checks.{canonical_id, ◌and_also◌}

-- `TypeError` or `KeyError`.
abbrev pub is_lookup_error : Error → Bool
is_lookup_error Error.type_error = true
is_lookup_error Error.key_error = true
is_lookup_error _ = false

abbrev pub raises_lookup_error {ℓ} : {A : Type ℓ} → Result A → Bool
raises_lookup_error (ok a) = true
raises_lookup_error (err e) = is_lookup_error e

-- A call that raises no other.
pub record IsTame {ℓ} {A : Type ℓ} (r : Result A) : Type 0 where
  pub raised : raises_lookup_error r ≡ true

pub >>=-IsTame {κ ℓ} :
    {A : Type κ} {B : Type ℓ} (r : Result A) (k : A → Result B)
    → IsTame r
    → ((a : A) → IsTame (k a))
    → IsTame (r >>= k)
>>=-IsTame (ok a) k h hk = hk a
>>=-IsTame (err e) k h hk = record { raised = h.raised }

pub ok-IsTame {ℓ} : {A : Type ℓ} (a : A) → IsTame (ok a)
ok-IsTame a = record { raised = refl }

pub and_also-IsTame : (r k : Result Bool) → IsTame r → IsTame k → IsTame (r and_also k)
and_also-IsTame (ok true) k h hk = hk
and_also-IsTame (ok false) k h hk = ok-IsTame false
and_also-IsTame (err e) k h hk = h

pub ok_and_also-IsTame : (b : Bool) (k : Result Bool) → IsTame k → IsTame (ok b and_also k)
ok_and_also-IsTame b k hk = and_also-IsTame (ok b) k (ok-IsTame b) hk

pub if-IsTame {ℓ} :
    {A : Type ℓ} (b : Bool) (r k : Result A) → IsTame r → IsTame k → IsTame (if b then r else k)
if-IsTame true r k h hk = h
if-IsTame false r k h hk = hk

pub canonical_id-IsTame : (v : Json) → IsTame (canonical_id v)
canonical_id-IsTame null = record { raised = refl }
canonical_id-IsTame (str s) = ok-IsTame _
canonical_id-IsTame (bool b) = ok-IsTame _
canonical_id-IsTame (int n) = ok-IsTame _
canonical_id-IsTame (float d) = ok-IsTame _
canonical_id-IsTame (list vs) = ok-IsTame _
canonical_id-IsTame (dict d) = ok-IsTame _

pub ruleset tame_laws =
    (ok-IsTame, >>=-IsTame, ok_and_also-IsTame, and_also-IsTame, if-IsTame, canonical_id-IsTame)
