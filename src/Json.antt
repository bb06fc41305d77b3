-- ===== src/Json.antt =====
-- Decoded JSON as Python holds it, for the tools of tools/, with the comparisons that they make: `==`
-- of tools/matrix_contract.py's conditions, which takes `True` and 1.0 for 1, and `_typed_equal`,
-- which does not.
pub mod Equality
use teslatlas_home_assistant.Prelude.{
  ℕ, suc, ◌*◌, ◌-◌, ◌^◌, ◌==◌, String, Bool, true, false, ◌&&◌, ◌||◌, not, List, [], ◌∷◌, ◌++◌,
  Option, none, some, any, all, str_eq, if◌then◌else◌,
}
use teslatlas_home_assistant.Prelude.Int.{ℤ, pos, negsuc, pos_part, neg_part, eq_ℤ}
use teslatlas_home_assistant.Prelude.Text.{codes}
use teslatlas_home_assistant.Errors.{Error, Result, ok, err}

-- A finite `float`: n * 2 ^ k, or n / 2 ^ k.
pub data Double : Type 0 where
  shifted_up shifted_down : ℤ → ℕ → Double

mutual
  pub data Json : Type 0 where
    null : Json
    bool : Bool → Json
    int : ℤ → Json
    float : Double → Json
    str : String → Json
    list : Items → Json
    dict : Members → Json

  pub data Items : Type 0 where
    nil : Items
    item : Json → Items → Items

  -- The members of an object in their order; a key stands once.
  pub data Members : Type 0 where
    close : Members
    member : String → Json → Members → Members

-- `d.get(key)`
unfoldable pub get : String → Members → Json
get k close = null
get k (member j v d) = if str_eq j k then v else get k d

-- `key in d`
unfoldable pub has : String → Members → Bool
has k close = false
has k (member j v d) = str_eq j k || has k d

-- `d[key] = value`
unfoldable pub put : String → Json → Members → Members
put k v close = member k v close
put k v (member j w d) = if str_eq j k then member j v d else member j w (put k v d)

-- `{**d, **e}`
unfoldable pub merge : Members → Members → Members
merge d close = d
merge d (member k v e) = merge (put k v d) e

abbrev pub elements : Items → List Json
elements nil = []
elements (item v vs) = v ∷ elements vs

abbrev pub items : List Json → Items
items [] = nil
items (v ∷ vs) = item v (items vs)

abbrev pub members : List (String × Json) → Members
members [] = close
members ((k, v) ∷ d) = member k v (members d)

unfoldable pub keys : Members → List String
keys close = []
keys (member k v d) = k ∷ keys d

unfoldable pub count : Members → ℕ
count close = 0
count (member k v d) = suc (count d)

-- The numerator over a power of two.
abbrev pub numerator : Double → ℤ
numerator (shifted_up (pos n) k) = pos (n * 2 ^ k)
numerator (shifted_up (negsuc n) k) = negsuc (suc n * 2 ^ k - 1)
numerator (shifted_down n k) = n

abbrev pub down : Double → ℕ
down (shifted_up n k) = 0
down (shifted_down n k) = k

-- `a == b` for numbers, by their cross products.
unfoldable pub eq_double : Double → Double → Bool
eq_double a b =
    pos_part (numerator a) * 2 ^ down b == pos_part (numerator b) * 2 ^ down a
    && neg_part (numerator a) * 2 ^ down b == neg_part (numerator b) * 2 ^ down a

-- The number that a value is in a comparison: a `bool` is 0 or 1.
abbrev pub numeral : Json → Option Double
numeral (bool b) = some (shifted_up (pos (if b then 1 else 0)) 0)
numeral (int n) = some (shifted_up n 0)
numeral (float d) = some d
numeral _ = none

abbrev pub eq_numeral : Option Double → Option Double → Bool
eq_numeral (some a) (some b) = eq_double a b
eq_numeral _ _ = false

-- `a == b`
unfoldable mutual
  pub eq : Json → Json → Bool
  eq null null = true
  eq (str s) (str t) = str_eq s t
  eq (list vs) (list ws) = eq_items vs ws
  eq (dict d) (dict e) = count d == count e && eq_members d e
  eq v w = eq_numeral (numeral v) (numeral w)

  pub eq_items : Items → Items → Bool
  eq_items nil nil = true
  eq_items (item v vs) (item w ws) = eq v w && eq_items vs ws
  eq_items _ _ = false

  pub eq_members : Members → Members → Bool
  eq_members close e = true
  eq_members (member k v d) e = has k e && (eq v (get k e) && eq_members d e)

-- `set(d).issubset(keys)`
unfoldable pub within : List String → Members → Bool
within ks close = true
within ks (member k v d) = any (λ j. str_eq j k) ks && within ks d

-- `set(d) == keys`
unfoldable pub has_keys : List String → Members → Bool
has_keys ks d = within ks d && all (λ k. has k d) ks

-- `_typed_equal`: the types are the same, and so are the keys of objects.
unfoldable mutual
  pub typed_equal : Json → Json → Bool
  typed_equal null null = true
  typed_equal (bool b) (bool c) = if b then c else not c
  typed_equal (int m) (int n) = eq_ℤ m n
  typed_equal (float a) (float b) = eq_double a b
  typed_equal (str s) (str t) = str_eq s t
  typed_equal (list vs) (list ws) = typed_equal_items vs ws
  typed_equal (dict d) (dict e) =
      within (keys d) e && (all (λ k. has k e) (keys d) && typed_equal_members d e)
  typed_equal _ _ = false

  pub typed_equal_items : Items → Items → Bool
  typed_equal_items nil nil = true
  typed_equal_items (item v vs) (item w ws) = typed_equal v w && typed_equal_items vs ws
  typed_equal_items _ _ = false

  pub typed_equal_members : Members → Members → Bool
  typed_equal_members close e = true
  typed_equal_members (member k v d) e = typed_equal v (get k e) && typed_equal_members d e
