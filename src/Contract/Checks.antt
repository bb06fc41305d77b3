-- ===== src/Contract/Checks.antt =====
-- The tests on single values that tools/matrix_contract.py is made of.
use teslatlas_home_assistant.Prelude.{
  ℕ, ◌^◌, String, Bool, true, false, ◌&&◌, not, Option, none, some, str_eq, leb, ltb, if◌then◌else◌,
}
use teslatlas_home_assistant.Prelude.Int.{ℤ, pos, leb_ℤ, ltb_ℤ}
use teslatlas_home_assistant.Prelude.Text.{codes}
use teslatlas_home_assistant.Errors.{Error, Result, ok, err}
use teslatlas_home_assistant.Credentials.{is_hex64}
use teslatlas_home_assistant.Uuid.{is_own_uuid}
use teslatlas_home_assistant.Json.{Json, null, bool, int, str, Members, get, eq}

abbrev pub is_str : Json → Bool
is_str (str s) = true
is_str _ = false

-- `isinstance(value, str) and value`
abbrev pub is_filled : Json → Bool
is_filled (str s) = not (str_eq s "")
is_filled _ = false

-- `value is None`
abbrev pub is_null : Json → Bool
is_null null = true
is_null _ = false

-- `type(value) is int` and a test of it.
abbrev pub int_with : (ℤ → Bool) → Json → Bool
int_with p (int n) = p n
int_with p _ = false

abbrev pub is_positive : Json → Bool
is_positive v = int_with (λ n. ltb_ℤ (pos 0) n) v

abbrev pub is_natural : Json → Bool
is_natural v = int_with (λ n. leb_ℤ (pos 0) n) v

-- Both are of type `int`, the first is at least 0, and the second is not before it.
abbrev pub is_span : Json → Json → Bool
is_span (int a) (int b) = leb_ℤ (pos 0) a && leb_ℤ a b
is_span _ _ = false

-- `isinstance(value, int)` and its value: a `bool` is one.
abbrev pub as_integer : Json → Option ℤ
as_integer (int n) = some n
as_integer (bool b) = some (pos (if b then 1 else 0))
as_integer _ = none

-- `isinstance(value, str) and HEX64.fullmatch(value)`
abbrev pub is_digest : Json → Bool
is_digest (str s) = is_hex64 s
is_digest _ = false

-- `HEX64.fullmatch(str(value))`: of the other values only an integer of 64 decimal digits prints so.
abbrev pub prints_digest : Json → Bool
prints_digest (str s) = is_hex64 s
prints_digest (int (pos n)) = leb (10 ^ 63) n && ltb n (10 ^ 64)
prints_digest _ = false

-- `value == text`
abbrev pub says : String → Json → Bool
says t v = eq v (str t)

-- `value == n`
abbrev pub counts : ℕ → Json → Bool
counts n v = eq v (int (pos n))

abbrev pub is_digest_at : Members → String → Bool
is_digest_at d k = is_digest (get k d)

-- `text.startswith("/")`
abbrev pub is_rooted : String → Bool
is_rooted (String.[]) = false
is_rooted (String.◌∷◌ c s) = str_eq (String.◌∷◌ c String.[]) "/"

-- `isinstance(value, str) and value.startswith("/")`
abbrev pub is_rooted_str : Json → Bool
is_rooted_str (str s) = is_rooted s
is_rooted_str _ = false

-- `str(uuid.UUID(value)) == value`, where `ValueError` and `AttributeError` count as no; `UUID(None)`
-- raises `TypeError`, which is not caught.
abbrev pub canonical_id : Json → Result Bool
canonical_id (str s) = ok (is_own_uuid (codes s))
canonical_id null = err Error.type_error
canonical_id _ = ok false

-- A check goes on only if the one before it has passed.
infixl 5 ◌and_also◌
abbrev pub ◌and_also◌ : Result Bool → Result Bool → Result Bool
ok true and_also k = k
ok false and_also k = ok false
err e and_also k = err e
