-- ===== src/Json/Equality.antt =====
-- What `_typed_equal` of tools/matrix_contract.py says of two objects.
use teslatlas_home_assistant.Prelude.{
  ◌≡◌, refl, sym, ◌∙◌, String, Bool, true, false, &&_both, List, [], ◌∷◌, any, all, eq_iff, str_eq,
  Bool-cases, inl, inr,
}
use mathlib.Core.Path.{subst}
use teslatlas_home_assistant.Json.{
  dict, Members, close, member, get, has, keys, within, typed_equal, typed_equal_members,
}

-- A key of an object is among its keys, and the other way round.
has-any : (k : String) (d : Members) → has k d ≡ any (λ j. str_eq j k) (keys d)
unfolding has keys
has-any k close = refl
has-any k (member j v d) = rw (has-any k d)

-- Members that are typed equal are so under every key.
members-get :
    (k : String) (d e : Members)
    → typed_equal_members d e ≡ true
    → has k d ≡ true
    → typed_equal (get k d) (get k e) ≡ true
unfolding typed_equal get has
members-get k close e h m = cc
members-get k (member j v d) e h m = elim (Bool-cases (str_eq j k)) [
  | inl same ↦ rw (same, sym ((eq_iff j k).0 same)) ((&&_both (typed_equal v (get j e)) _ h).0)
  | inr other ↦
      rw other (members-get k d e ((&&_both (typed_equal v (get j e)) _ h).1) (rw other at m))
]

within-has :
    (k : String) (ks : List String) (e : Members)
    → within ks e ≡ true
    → has k e ≡ true
    → any (λ j. str_eq j k) ks ≡ true
unfolding within has
within-has k ks close h m = cc
within-has k ks (member j v e) h m = elim (Bool-cases (str_eq j k)) [
  | inl same ↦
      subst (λ l. any (λ i. str_eq i l) ks ≡ true) ((eq_iff j k).0 same)
        ((&&_both (any (λ i. str_eq i j) ks) _ h).0)
  | inr other ↦ within-has k ks e ((&&_both (any (λ i. str_eq i j) ks) _ h).1) (rw other at m)
]

all-has :
    (k : String) (ks : List String) (e : Members)
    → all (λ j. has j e) ks ≡ true
    → any (λ j. str_eq j k) ks ≡ true
    → has k e ≡ true
all-has k [] e h m = cc
all-has k (j ∷ ks) e h m = elim (Bool-cases (str_eq j k)) [
  | inl same ↦ subst (λ l. has l e ≡ true) ((eq_iff j k).0 same) ((&&_both (has j e) _ h).0)
  | inr other ↦ all-has k ks e ((&&_both (has j e) _ h).1) (rw other at m)
]

both_ways : (a b : Bool) → (a ≡ true → b ≡ true) → (b ≡ true → a ≡ true) → a ≡ b
both_ways true b f g = sym (f refl)
both_ways false true f g = g refl
both_ways false false f g = refl

-- Two objects that `_typed_equal` takes for equal have the same keys, and under each of them values
-- that it takes for equal.
pub typed_equal-get :
    (k : String) (d e : Members)
    → typed_equal (dict d) (dict e) ≡ true
    → (has k d ≡ has k e) × (has k d ≡ true → typed_equal (get k d) (get k e) ≡ true)
unfolding typed_equal
typed_equal-get k d e h =
    let (inside, h1) = &&_both (within (keys d) e) _ h in
    let (present, h2) = &&_both (all (λ j. has j e) (keys d)) _ h1 in
    (
      both_ways (has k d) (has k e) (λ m. all-has k (keys d) e present (sym (has-any k d) ∙ m))
          (λ m. has-any k d ∙ within-has k (keys d) e inside m),
      members-get k d e h2,
    )
