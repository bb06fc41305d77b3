-- ===== src/Payload/Fields.antt =====
-- What the field readers accept, and that what they return is exactly what the payload says.
use native.Mathlib.Nat.{pow-suc, div-add-mod, mul-mod_left, mul-div_cancel}
use teslatlas_home_assistant.Prelude.{
  ℕ, zero, suc, ◌+◌, ◌-◌, ◌/◌, ◌%◌, ◌^◌, ◌<◌, ◌≡◌, refl, ◌↔◌, ap, ◌∙◌, true, some, arith, ltb, inl,
  inr, if◌then◌else◌, ◌*◌, ◌==◌,
}
use teslatlas_home_assistant.Prelude.Int.{
  ℤ, pos, negsuc, pos_part, neg_part, ◌≤ℤ◌, eq_of_parts, sub_ℕ, fdiv, ◌-ℤ◌,
}
use teslatlas_home_assistant.Errors.{Error, ok, err, Result-cases}
use teslatlas_home_assistant.Values.{Value, Decimal, int, decimal, scaled_up, scaled_down}
use teslatlas_home_assistant.Credentials.{
  Datetime, epoch_milliseconds, validate_epoch_milliseconds, is_signed64, signed64_min,
  signed64_max,
}
use teslatlas_home_assistant.Payload.{scale, integral, integer, age, telemetry_age}

pow_pos : (e : ℕ) → 0 < 10 ^ e
pow_pos zero = omega arith
pow_pos (suc e) = omega (arith, pow-suc 10 e, pow_pos e)

-- The decimal is the integer `n`, as numbers.
abbrev pub DecimalIs : Decimal → ℤ → Type 0
DecimalIs (scaled_up c e) n =
    (pos_part n ≡ pos_part c * 10 ^ e) × (neg_part n ≡ neg_part c * 10 ^ e)
DecimalIs (scaled_down c e) n =
    (pos_part n * 10 ^ e ≡ pos_part c) × (neg_part n * 10 ^ e ≡ neg_part c)
DecimalIs _ n = ⊥

-- The JSON number is the integer `n`.
abbrev pub Denotes : Value → ℤ → Type 0
Denotes (int m) n = m ≡ n
Denotes (decimal d) n = DecimalIs d n
Denotes _ n = ⊥

scale-exact :
    (c : ℤ) (k : ℕ)
    → 0 < k
    → (pos_part (scale c k) ≡ pos_part c * k) × (neg_part (scale c k) ≡ neg_part c * k)
unfolding scale
scale-exact (pos n) k h = (refl, omega arith)
scale-exact (negsuc n) k h = (omega arith, grind arith)

div_exact : (n k : ℕ) → n % k ≡ 0 → n / k * k ≡ n
div_exact n k h = omega (arith, div-add-mod n k)

exact_pos :
    (m k : ℕ) (n : ℤ)
    → (if m % k == 0 then ok (pos (m / k)) else err Error.contract) ≡ ok n
    → (pos_part n * k ≡ m) × (neg_part n * k ≡ 0)
exact_pos m k (pos n) h =
    let e : n ≡ m / k = ground arith in
    let r : m % k ≡ 0 = ground arith in (rw e (div_exact m k r), omega arith)
exact_pos m k (negsuc n) h = ground arith

exact_neg :
    (m k : ℕ) (n : ℤ)
    → (if suc m % k == 0 then ok (negsuc (suc m / k - 1)) else err Error.contract) ≡ ok n
    → (pos_part n * k ≡ 0) × (neg_part n * k ≡ suc m)
exact_neg m k (pos n) h = ground arith
exact_neg m k (negsuc n) h =
    let e : n ≡ suc m / k - 1 = ground arith in
    let r : suc m % k ≡ 0 = ground arith in
    let whole : suc m / k * k ≡ suc m = div_exact (suc m) k r in
    let some_part : suc n ≡ suc m / k = grind arith in (omega arith, rw some_part whole)

integral_sound : (d : Decimal) (n : ℤ) → integral d ≡ ok n → DecimalIs d n
unfolding integral
integral_sound (scaled_up c e) n h =
    let same : scale c (10 ^ e) ≡ n = cc in rw same at (scale-exact c (10 ^ e) (pow_pos e))
integral_sound (scaled_down (pos m) e) n h = exact_pos m (10 ^ e) n h
integral_sound (scaled_down (negsuc m) e) n h = exact_neg m (10 ^ e) n h
integral_sound Decimal.infinite n h = cc
integral_sound Decimal.nan n h = cc

integral_complete : (d : Decimal) (n : ℤ) → DecimalIs d n → integral d ≡ ok n
unfolding integral
integral_complete (scaled_up c e) n (p, m) =
    let (sp, sm) = scale-exact c (10 ^ e) (pow_pos e) in
    ap ok (eq_of_parts (scale c (10 ^ e)) n (omega arith))
integral_complete (scaled_down (pos m) e) (pos q) (p, z) =
    rw (← p) (rw (mul-mod_left q (10 ^ e), mul-div_cancel q (pow_pos e)))
integral_complete (scaled_down (pos m) e) (negsuc q) (p, z) = absurd (grind (arith, pow_pos e))
integral_complete (scaled_down (negsuc m) e) (pos q) (p, z) = absurd (omega arith)
integral_complete (scaled_down (negsuc m) e) (negsuc q) (p, z) = rw (← z) (
    rw (mul-mod_left (suc q) (10 ^ e), mul-div_cancel (suc q) (pow_pos e))
      (ap (λ t. ok (negsuc t)) (omega arith)))
integral_complete Decimal.infinite n h = absurd h
integral_complete Decimal.nan n h = absurd h

-- A field is read as the integer `n` exactly when the payload's number is `n`, mathematically, and
-- `n` is a signed 64-bit number: 5, 5.0 and 0.5e1 are the same, 5.5 is refused.
pub integer-Denotes :
    (v : Value) (n : ℤ)
    → (integer v ≡ ok (some n)) ↔ (Denotes v n × (signed64_min ≤ℤ n) × (n ≤ℤ signed64_max))
unfolding integer is_signed64
integer-Denotes (int m) n = ((λ h. ground arith), (λ h. ground arith))
integer-Denotes (decimal d) n = (
  (λ h. elim (Result-cases (integral d)) [
    | inl (m, e) ↦
        (let same : m ≡ n = ground arith in
          (integral_sound d n (e ∙ ap ok same), ground arith, ground arith))
    | inr (x, e) ↦ absurd (ground arith)
  ]),
  (λ h. rw (integral_complete d n h.0) (ground arith)),
)
integer-Denotes _ n = ((λ h. cc), (λ h. absurd h.0))

age_lem :
    (past ahead : ℕ)
    → age (sub_ℕ past ahead) ≡ (
        if ltb (past + 300000) ahead
        then err Error.contract
        else ok (some (pos ((past - ahead) / 1000))))
unfolding fdiv
age_lem past ahead = ground arith

-- With the clock at `now` milliseconds, an observation at `seen` is `(now - seen) / 1000` whole
-- seconds old, no less than 0, and one more than 300000 milliseconds ahead is refused.
pub telemetry_age-exact :
    (seen now : ℤ) (t : Datetime)
    → is_signed64 seen ≡ true
    → epoch_milliseconds t ≡ ok now
    → let ahead = neg_part now + pos_part seen in
      let past = pos_part now + neg_part seen in
      telemetry_age (int seen) t ≡ (
        if ltb (past + 300000) ahead
        then err Error.contract
        else ok (some (pos ((past - ahead) / 1000))))
unfolding telemetry_age validate_epoch_milliseconds ◌-ℤ◌
telemetry_age-exact seen now t range clock =
    rw (range, clock) (age_lem (pos_part now + neg_part seen) (neg_part now + pos_part seen))
