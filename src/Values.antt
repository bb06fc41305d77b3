-- ===== src/Values.antt =====
-- The Python values that JSON payloads and config entries hold, with `dict.get`, `dict | dict` and
-- the comparisons that the integration makes on them.
use teslatlas_home_assistant.Prelude.{
  ◌*◌, ◌^◌, ◌+◌, ◌-◌, ◌==◌, leb, ◌&&◌, not, ℕ, String, ◌≡◌, refl, Bool, true, false, List, [], ◌∷◌,
  arith, eq_iff, str_eq, if◌then◌else◌,
}
use teslatlas_home_assistant.Prelude.Int.{ℤ, pos, negsuc, eq_ℤ}

-- `decimal.Decimal`: a coefficient and a power of ten, or no number at all.
pub data Decimal : Type 0 where
  -- c * 10 ^ e
  scaled_up : ℤ → ℕ → Decimal
  -- c / 10 ^ e
  scaled_down : ℤ → ℕ → Decimal
  infinite nan : Decimal

-- A `float`: the double nearest to a decimal whose magnitude is in range, or no finite number.
pub data Float : Type 0 where
  rounded : Decimal → Float
  not_finite : Float

mutual
  pub data Value : Type 0 where
    null : Value
    bool : Bool → Value
    int : ℤ → Value
    float : Float → Value
    decimal : Decimal → Value
    str : String → Value
    list : Items → Value
    dict : Dict → Value

  pub data Items : Type 0 where
    nil : Items
    cons : Value → Items → Items

  pub data Dict : Type 0 where
    empty : Dict
    entry : String → Value → Dict → Dict

abbrev pub items : Items → List Value
items nil = []
items (cons v vs) = v ∷ items vs

-- `d.get(key)`: `null` where the key is missing.
unfoldable pub get : String → Dict → Value
get k empty = null
get k (entry j v d) = if str_eq j k then v else get k d

-- `key in d`
unfoldable pub has : String → Dict → Bool
has k empty = false
has k (entry j v d) = if str_eq j k then true else has k d

-- `d[key] = value`
unfoldable pub put : String → Value → Dict → Dict
put k v empty = entry k v empty
put k v (entry j w d) = if str_eq j k then entry k v d else entry j w (put k v d)

-- `value == text`
unfoldable pub is_text : String → Value → Bool
is_text t (str s) = str_eq s t
is_text t _ = false

-- `value is None`
abbrev pub is_none : Value → Bool
is_none null = true
is_none _ = false

-- `value is True`
abbrev pub is_true : Value → Bool
is_true (bool true) = true
is_true _ = false

-- `bool(text)`
abbrev pub nonempty : String → Bool
nonempty s = if str_eq s "" then false else true

is_zero : ℤ → Bool
is_zero (pos n) = n == 0
is_zero (negsuc n) = false

decimal_truthy : Decimal → Bool
decimal_truthy (scaled_up c e) = not (is_zero c)
decimal_truthy (scaled_down c e) = not (is_zero c)
decimal_truthy _ = true

float_truthy : Float → Bool
float_truthy (rounded d) = decimal_truthy d
float_truthy _ = true

-- `bool(value)`
unfoldable pub truthy : Value → Bool
unfolding is_zero decimal_truthy float_truthy
truthy null = false
truthy (bool b) = b
truthy (int n) = not (is_zero n)
truthy (float f) = float_truthy f
truthy (decimal d) = decimal_truthy d
truthy (str s) = nonempty s
truthy (list nil) = false
truthy (list (cons v vs)) = true
truthy (dict empty) = false
truthy (dict (entry k v d)) = true

-- The double nearest to the decimal is 1.0: the decimal lies from 1 - 2^-54 to 1 + 2^-53.
nearest_is_one : Decimal → Bool
nearest_is_one (scaled_up (pos c) e) = c * 10 ^ e == 1
nearest_is_one (scaled_down (pos c) e) =
    leb ((2 ^ 54 - 1) * 10 ^ e) (c * 2 ^ 54) && leb (c * 2 ^ 53) ((2 ^ 53 + 1) * 10 ^ e)
nearest_is_one _ = false

-- `value == 1`, where Python takes `True` for 1.
unfoldable pub equals_one : Value → Bool
unfolding nearest_is_one
equals_one (int n) = eq_ℤ n (pos 1)
equals_one (bool b) = b
equals_one (decimal (scaled_up (pos c) e)) = c * 10 ^ e == 1
equals_one (decimal (scaled_down (pos c) e)) = c == 10 ^ e
equals_one (float (rounded d)) = nearest_is_one d
equals_one _ = false

-- What a write does to what is read.
pub get-put :
    (k j : String) (v : Value) (d : Dict) → get j (put k v d) ≡ (if str_eq k j then v else get j d)
unfolding get put
get-put k j v empty = refl
get-put k j v (entry i w d) = ground (arith, eq_iff k j, eq_iff i k, eq_iff i j, get-put k j v d)

pub has-put :
    (k j : String) (v : Value) (d : Dict)
    → has j (put k v d) ≡ (if str_eq k j then true else has j d)
unfolding has put
has-put k j v empty = refl
has-put k j v (entry i w d) = ground (arith, eq_iff k j, eq_iff i k, eq_iff i j, has-put k j v d)

pub ruleset dict_laws = (get-put, has-put)
