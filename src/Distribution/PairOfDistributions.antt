-- ===== src/Distribution/PairOfDistributions.antt =====
-- class PairOfDistributions and its accumulator (PairOfDistributions.h, PairOfDistributions.cc,
-- PairOfDistributionsAccumulator.h). `locs` holds firstNumLocs_ of every rank.
use ioda.Prelude.{
  ℕ, suc, ◌+◌, ◌-◌, Bool, false, List, [], ◌∷◌, ◌++◌, ltb, leb, if◌then◌else◌, length, get_or, take,
  drop, replicate, Result, ok, err, exception, undefined, true, ◌>>=◌, wrap,
}
use ioda.Distribution.{Term, Distribution}

-- The terms of the first and of the second part; the second part counts its locations from 0.
unfoldable pub first_terms : ℕ → List Term → List Term
first_terms n [] = []
first_terms n ((loc, t) ∷ ts) =
    let rest = first_terms n ts in if ltb loc n then (loc, t) ∷ rest else rest

unfoldable pub second_terms : ℕ → List Term → List Term
second_terms n [] = []
second_terms n ((loc, t) ∷ ts) =
    let rest = second_terms n ts in if ltb loc n then rest else (loc - n, t) ∷ rest

-- f(x, y) for the entries of two lists, side by side.
unfoldable pub zip_with {ℓ κ μ} :
    {A : Type ℓ} {B : Type κ} {C : Type μ} → (A → B → C) → List A → List B → List C
zip_with f [] ys = []
zip_with f (x ∷ xs) [] = []
zip_with f (x ∷ xs) (y ∷ ys) = f x y ∷ zip_with f xs ys

-- The constructor of PairOfDistributions: secondGlobalUniqueConsecutiveLocationIndexOffset_ of every
-- rank. `locs` holds firstNumLocs_ of every rank, from rank r on.
unfoldable pub own_offsets : Distribution → ℕ → List ℕ → List ℕ
own_offsets first r [] = []
own_offsets first r (n ∷ locs) =
    (if ltb 0 n then first.global_unique_consecutive_location_index r (n - 1) + 1 else 0)
    ∷ own_offsets first (suc r) locs

unfoldable pub pair_offsets : Distribution → List ℕ → List ℕ
unfolding own_offsets
pair_offsets first locs = first.max (own_offsets first 0 locs)

-- PairOfDistributions::patchObs
abbrev pub pair_patch_obs :
    Distribution → Distribution → List ℕ → ℕ → List Bool → Result (List Bool)
pair_patch_obs first second locs r v =
    if leb (get_or locs r 0) (length v)
    then second.patch_obs r (replicate (length v - get_or locs r 0) false)
      >>= (λ b. first.patch_obs r (take (get_or locs r 0) v) >>= (λ a. ok (a ++ b)))
    else err exception

-- minImpl and maxImpl
abbrev pub pair_min : Distribution → Distribution → List ℕ → List ℕ
pair_min first second xs = second.min (first.min xs)

abbrev pub pair_max : Distribution → Distribution → List ℕ → List ℕ
pair_max first second xs = second.max (first.max xs)

-- class PairOfDistributionsAccumulator
abbrev pub pair_accumulate :
    Distribution → Distribution → List ℕ → List (List Term) → Result (List ℕ)
pair_accumulate first second locs ts = first.accumulate (zip_with first_terms locs ts) >>= λ a.
    second.accumulate (zip_with second_terms locs ts) >>= λ b.
    ok (zip_with (λ x y. wrap (x + y)) a b)

-- firstNumLocs_ elements are there on every rank.
unfoldable pub parts_inside : List ℕ → List (List ℕ) → Bool
parts_inside [] xs = true
parts_inside (n ∷ locs) [] = true
parts_inside (n ∷ locs) (x ∷ xs) = if leb n (length x) then parts_inside locs xs else false

-- allGathervImpl. x.begin() + firstNumLocs_ past the end is undefined.
abbrev pub pair_all_gatherv :
    Distribution → Distribution → List ℕ → List (List ℕ) → Result (List (List ℕ))
pair_all_gatherv first second locs xs =
    if parts_inside locs xs
    then first.all_gatherv (zip_with take locs xs)
      >>= (λ a. second.all_gatherv (zip_with drop locs xs) >>= (λ b. ok (zip_with ◌++◌ a b)))
    else err undefined

-- globalUniqueConsecutiveLocationIndex
abbrev pub pair_index : Distribution → Distribution → List ℕ → ℕ → ℕ → ℕ
pair_index first second locs r loc =
    if ltb loc (get_or locs r 0)
    then first.global_unique_consecutive_location_index r loc
    else get_or (pair_offsets first locs) r 0
      + second.global_unique_consecutive_location_index r (loc - get_or locs r 0)

-- isMyRecord
abbrev pub pair_record : Distribution → Distribution → ℕ → ℕ → ℕ → Bool
pair_record first second record_offset r rec =
    if ltb rec record_offset
    then first.is_my_record r rec
    else second.is_my_record r (rec - record_offset)

-- class PairOfDistributions
unfoldable pub pair : Distribution → Distribution → List ℕ → ℕ → Distribution
pair first second locs record_offset = record {
  is_identity = false;
  is_nonoverlapping = false;
  is_my_record = pair_record first second record_offset;
  patch_obs = pair_patch_obs first second locs;
  min = pair_min first second;
  max = pair_max first second;
  accumulate = pair_accumulate first second locs;
  all_gatherv = pair_all_gatherv first second locs;
  global_unique_consecutive_location_index = pair_index first second locs;
}
