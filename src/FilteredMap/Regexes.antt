-- ===== src/FilteredMap/Regexes.antt =====
-- `RegexFiteredMapView` of filtered_map.h.
use bigtable_emulator.Common.{
  ℕ, zero, suc, ◌≤◌, ◌<◌, Bool, not, List, [], ◌∷◌, some, ◌≡◌, refl, arith, length, any_of, all_of,
  keep,
}
use bigtable_emulator.FilteredMap.{ensure_matching, visit_matching, regex_filtered_map_view}

any_of-not :
    {K Regex : Type 0} (p : K → Regex → Bool) (k : K) (fs : List Regex)
    → any_of (λ f. not (p k f)) fs ≡ not (all_of (λ f. p k f) fs)
any_of-not p k [] = refl
any_of-not p k (f ∷ fs) = ground (arith, any_of-not p k fs)

module _ {K V Regex : Type 0} (partial_match : K → Regex → Bool) (filters : List Regex) where
  abbrev matches : K × V → Bool
  matches e = all_of (λ filter. partial_match e.0 filter) filters

  length-ensure_matching :
      (m : List (K × V)) → length (ensure_matching partial_match filters m) ≤ length m
  unfolding ensure_matching
  length-ensure_matching [] = omega arith
  length-ensure_matching ((k, v) ∷ m) = ground (arith, length-ensure_matching m)

  visit_matching_lem :
      (fuel : ℕ) (m : List (K × V))
      → length m < fuel
      → visit_matching partial_match filters fuel (ensure_matching partial_match filters m)
        ≡ some (keep matches m)
  unfolding visit_matching ensure_matching
  visit_matching_lem zero m h = absurd (omega arith)
  visit_matching_lem (suc fuel) [] h = refl
  visit_matching_lem (suc fuel) ((k, v) ∷ m) h = ground (
    arith,
    any_of-not partial_match k filters,
    visit_matching_lem fuel m,
    visit_matching_lem (suc fuel) m,
  )

  -- An iteration through `RegexFiteredMapView` ends after the entries whose keys match every
  -- expression, in their order.
  pub regex_filtered_map_view_lem :
      (m : List (K × V)) → regex_filtered_map_view partial_match filters m ≡ some (keep matches m)
  unfolding regex_filtered_map_view
  regex_filtered_map_view_lem m = visit_matching_lem (suc (length m)) m (omega arith)
