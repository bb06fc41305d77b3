-- ===== src/Contract/Facts/Unload/Sorting.antt =====
-- `sorted` on pairs of JSON values: Python compares two tuples at their first members that differ,
-- and values without an order raise `TypeError`.
use teslatlas_home_assistant.Prelude.{
  ℕ, ◌*◌, ◌^◌, ◌+◌, Bool, true, false, ◌==◌, ltb, not, List, [], ◌∷◌, Option, some, if◌then◌else◌,
}
use teslatlas_home_assistant.Prelude.Int.{pos_part, neg_part}
use teslatlas_home_assistant.Prelude.Text.{codes}
use teslatlas_home_assistant.Errors.{Error, Result, ok, err, ◌>>=◌}
use teslatlas_home_assistant.Json.{
  Json, str, list, Items, nil, item, Double, numerator, down, numeral, eq,
}

-- Texts are in the order of their code points.
unfoldable pub less_codes : List ℕ → List ℕ → Bool
less_codes s [] = false
less_codes [] (d ∷ t) = true
less_codes (c ∷ s) (d ∷ t) = let rest = less_codes s t in if c == d then rest else ltb c d

unfoldable pub less_double : Double → Double → Bool
less_double a b =
    ltb (pos_part (numerator a) * 2 ^ down b + neg_part (numerator b) * 2 ^ down a)
      (pos_part (numerator b) * 2 ^ down a + neg_part (numerator a) * 2 ^ down b)

abbrev pub less_numeral : Option Double → Option Double → Result Bool
less_numeral (some a) (some b) = ok (less_double a b)
less_numeral _ _ = err Error.type_error

-- `a < b`
unfoldable mutual
  pub less : Json → Json → Result Bool
  less (str s) (str t) = ok (less_codes (codes s) (codes t))
  less (list vs) (list ws) = less_items vs ws
  less v w = less_numeral (numeral v) (numeral w)

  pub less_items : Items → Items → Result Bool
  less_items vs nil = ok false
  less_items nil (item w ws) = ok true
  less_items (item v vs) (item w ws) =
      let rest = less_items vs ws in let here = less v w in if eq v w then rest else here

unfoldable pub less_pair : Json × Json → Json × Json → Result Bool
less_pair (a, b) (c, d) =
    if not (eq a c) then less a c else if not (eq b d) then less b d else ok false

-- An insertion behind all that are not greater, so that the order of equals stays.
unfoldable pub insert_sorted : Json × Json → List (Json × Json) → Result (List (Json × Json))
insert_sorted p [] = ok (p ∷ [])
insert_sorted p (q ∷ qs) =
    let rest = insert_sorted p qs in
    (less_pair p q >>= λ smaller.
    (if smaller then ok (p ∷ q ∷ qs) else (rest >>= λ later. ok (q ∷ later))))

-- Sorting inserts one pair after the other. Which comparisons CPython's sort makes is up to its
-- implementation; this one makes enough to decide the order.
unfoldable pub sort_onto : List (Json × Json) → List (Json × Json) → Result (List (Json × Json))
sort_onto done [] = ok done
sort_onto done (p ∷ ps) = insert_sorted p done >>= λ next. sort_onto next ps

unfoldable pub sorted : List (Json × Json) → Result (List (Json × Json))
unfolding sort_onto
sorted ps = sort_onto [] ps
