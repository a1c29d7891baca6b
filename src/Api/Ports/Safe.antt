-- ===== src/Api/Ports/Safe.antt =====
-- Panics of `ToRange` of api/v1beta1/scalewaycluster_types.go.
use cluster_api_provider_sca.Prelude.{ℕ, String, Option, arith, some, none, List, [], ◌∷◌}
use cluster_api_provider_sca.Prelude.Text.{codes}
use cluster_api_provider_sca.Prog.Runs.{AnyError, Any, Meets}
use cluster_api_provider_sca.Api.Ports.{
  positive, negative, atoi, split, range_of_parts, range_of_codes, to_range,
}

positive-plain : (n : Option ℕ) → Meets AnyError Any (positive n)
positive-plain none = tt
positive-plain (some n) = ground arith

negative-plain : (n : Option ℕ) → Meets AnyError Any (negative n)
negative-plain none = tt
negative-plain (some n) = ground arith

atoi-plain : (s : List ℕ) → Meets AnyError Any (atoi s)
unfolding atoi
atoi-plain [] = tt
atoi-plain (c ∷ s) = grind (arith, positive-plain, negative-plain)

range_of_parts-plain : (parts : List (List ℕ)) → Meets AnyError Any (range_of_parts parts)
unfolding range_of_parts
range_of_parts-plain [] = tt
range_of_parts-plain (part ∷ []) = let n = atoi-plain part in grind (arith, n)
range_of_parts-plain (low ∷ high ∷ []) =
    let m = atoi-plain low in let n = atoi-plain high in grind (arith, m, n)
range_of_parts-plain (low ∷ high ∷ more ∷ rest) = tt

pub to_range-plain : (ports : Option String) → Meets AnyError Any (to_range ports)
unfolding to_range range_of_codes
to_range-plain none = tt
to_range-plain (some p) = range_of_parts-plain (split (codes p) b'-')
