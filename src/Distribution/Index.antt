-- ===== src/Distribution/Index.antt =====
-- NonoverlappingDistribution::computePatchLocs and globalUniqueConsecutiveLocationIndex, and the offset
-- that PairOfDistributions adds to the indices of its second part.

use ioda.Prelude.{
  ℕ, zero, suc, ◌+◌, ◌<◌, ◌≡◌, refl, ap, ap₂, ◌∙◌, Bool, List, [], ◌∷◌, ◌++◌, map, iota, sum,
  length, length-map, get_or, take, arith,
}
use ioda.Distribution.{
  Comm, Nonoverlapping, set_lower, compute_patch_locs, lower_of, nonoverlapping,
}

abbrev pub counts : List Nonoverlapping → List ℕ
counts ns = map (λ n. n.num_locations_on_this_rank) ns

-- f(r, loc) for the locations of rank r, then those of rank r + 1, and so on.
unfoldable pub all_indices : (ℕ → ℕ → ℕ) → ℕ → List ℕ → List ℕ
all_indices f r [] = []
all_indices f r (n ∷ locs) = map (f r) (iota 0 n) ++ all_indices f (suc r) locs

pub iota-append : (s m n : ℕ) → iota s m ++ iota (s + m) n ≡ iota s (m + n)
iota-append s zero n = ap (λ k. iota k n) (omega arith) ∙ ap (iota s) (omega arith)
iota-append s (suc m) n =
    let e : s + suc m ≡ suc s + m = omega arith in
    let g : suc m + n ≡ suc (m + n) = omega arith in
    rw (e, g) (ap (λ l. s ∷ l) (iota-append (suc s) m n))

map-iota :
    (g : ℕ → ℕ) (k s n : ℕ)
    → ((loc : ℕ) → loc < s + n → g loc ≡ k + loc)
    → map g (iota s n) ≡ iota (k + s) n
map-iota g k s zero h = refl
map-iota g k s (suc n) h =
    let e : suc (k + s) ≡ k + suc s = omega arith in
    rw e (ap₂ ◌∷◌ (h s (omega arith)) (map-iota g k (suc s) n (λ loc l. h loc (omega arith))))

-- Indices that start, on each rank, behind those of the lower ranks are consecutive.
pub all_indices-iota :
    (f : ℕ → ℕ → ℕ) (r start : ℕ) (locs : List ℕ)
    → ((k loc : ℕ)
        → k < length locs
        → loc < get_or locs k 0
        → f (r + k) loc ≡ start + sum (take k locs) + loc)
    → all_indices f r locs ≡ iota start (sum locs)
unfolding all_indices
all_indices-iota f r start [] h = refl
all_indices-iota f r start (n ∷ locs) h =
    ap₂ ◌++◌
      (map-iota (f r) start 0 n (λ loc l.
          ap (λ q. f q loc) (omega arith) ∙ h 0 loc (omega arith) (omega arith) ∙ omega arith)
        ∙ ap (λ q. iota q n) (omega arith))
      (all_indices-iota f (suc r) (start + n) locs (λ k loc a b.
        ap (λ q. f q loc) (omega arith) ∙ h (suc k) loc (omega arith) b ∙ omega arith))
    ∙ iota-append start n (sum locs)

set_lower-lower :
    (ns : List Nonoverlapping) (lower : List ℕ)
    → length lower ≡ length ns
    → map (λ n. n.num_locations_on_lower_ranks) (set_lower ns lower) ≡ lower
unfolding set_lower
set_lower-lower [] [] h = refl
set_lower-lower [] (l ∷ lower) h = absurd (omega (arith, h))
set_lower-lower (n ∷ ns) [] h = absurd (omega (arith, h))
set_lower-lower (n ∷ ns) (l ∷ lower) h =
    ap (λ xs. l ∷ xs) (set_lower-lower ns lower (omega (arith, h)))

pub lower_of-sum :
    (c : Comm) (ns : List Nonoverlapping) (r : ℕ)
    → r < length ns
    → lower_of (compute_patch_locs c ns) r ≡ sum (take r (counts ns))
unfolding compute_patch_locs
lower_of-sum c ns r h =
    let l = length-map (λ (n : Nonoverlapping). n.num_locations_on_this_rank) ns in
    ap (λ xs. get_or xs r 0) (set_lower-lower ns _ (c.length-exclusive_scan (counts ns) ∙ l))
    ∙ c.exclusive_scan_lem (counts ns) r (omega (arith, l))

-- After computePatchLocs the global indices of a non-overlapping distribution, rank after rank and
-- location after location, are 0, 1, 2, ..., one for each location of all ranks.
pub nonoverlapping-consecutive :
    (c : Comm) (is_mine : ℕ → ℕ → Bool) (ns : List Nonoverlapping)
    → all_indices
        (nonoverlapping c is_mine (compute_patch_locs c ns)
          ).global_unique_consecutive_location_index
        0
        (counts ns)
      ≡ iota 0 (sum (counts ns))
unfolding nonoverlapping
nonoverlapping-consecutive c is_mine ns =
    let l = length-map (λ (n : Nonoverlapping). n.num_locations_on_this_rank) ns in
    all_indices-iota _ 0 0 (counts ns) (λ k loc a b.
      let q : 0 + k ≡ k = omega arith in
      rw q (ap (λ z. z + loc) (lower_of-sum c ns k (omega (arith, l))) ∙ omega arith))
