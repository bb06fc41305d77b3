-- ===== src/Contract/Facts/Inversion.antt =====
-- When the combinators of the facts show some.
use teslatlas_home_assistant.Prelude.{◌≡◌, refl, Bool, true, false, Option, none, some}
use teslatlas_home_assistant.Prelude.Int.{ℤ}
use mathlib.Core.Option.{some-injective}
use teslatlas_home_assistant.Errors.{Result, ok, err, ok-injective}
use teslatlas_home_assistant.Json.{Json, null, bool, int, float, str, list, dict, Members, get}
use teslatlas_home_assistant.Contract.{AdmissionContext}
use teslatlas_home_assistant.Contract.Sequences.{runtime_raw}
use teslatlas_home_assistant.Contract.Facts.{
  Facts, facts_if, with_value, with_observed, with_dict, with_runtime,
}
use teslatlas_home_assistant.Contract.Facts.Polls.{with_int}

pub facts_if-some :
    (b : Bool) (d : Members) {f : Members} → facts_if b d ≡ ok (some f) → (b ≡ true) × (d ≡ f)
facts_if-some true d h = (refl, some-injective _ _ (ok-injective h))
facts_if-some false d h = cc

pub with_value-some {ℓ} :
    {A : Type ℓ} (o : Option A) (k : A → Facts) {f : Members}
    → with_value o k ≡ ok (some f)
    → (a : A) × (o ≡ some a) × (k a ≡ ok (some f))
with_value-some none k h = cc
with_value-some (some a) k h = (a, refl, h)

pub with_observed-some :
    (r : Result (Option Members)) (k : Members → Facts) {f : Members}
    → with_observed r k ≡ ok (some f)
    → (v : Members) × (r ≡ ok (some v)) × (k v ≡ ok (some f))
with_observed-some (err e) k h = cc
with_observed-some (ok none) k h = cc
with_observed-some (ok (some v)) k h = (v, refl, h)

pub with_dict-some :
    (v : Json) (k : Members → Facts) {f : Members}
    → with_dict v k ≡ ok (some f)
    → (d : Members) × (v ≡ dict d) × (k d ≡ ok (some f))
with_dict-some null k h = cc
with_dict-some (bool b) k h = cc
with_dict-some (int n) k h = cc
with_dict-some (float g) k h = cc
with_dict-some (str s) k h = cc
with_dict-some (list vs) k h = cc
with_dict-some (dict d) k h = (d, refl, h)

pub with_int-some :
    (v : Json) (k : ℤ → Facts) {f : Members}
    → with_int v k ≡ ok (some f)
    → (n : ℤ) × (v ≡ int n) × (k n ≡ ok (some f))
with_int-some null k h = cc
with_int-some (bool b) k h = cc
with_int-some (int n) k h = (n, refl, h)
with_int-some (float g) k h = cc
with_int-some (str s) k h = cc
with_int-some (list vs) k h = cc
with_int-some (dict d) k h = cc

-- What is shown of the installed runtime is shown of the facts of one of its records.
pub with_runtime-some :
    (c : AdmissionContext) (k : Members → Facts) {f : Members}
    → with_runtime c k ≡ ok (some f)
    → (d : Members) × (k d ≡ ok (some f))
with_runtime-some c k h =
    let (runtime, e, h1) = with_value-some (runtime_raw c) _ h in
    let (d, e1, h2) = with_dict-some (get "facts" runtime) _ h1 in (d, h2)
