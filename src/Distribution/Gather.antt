-- ===== src/Distribution/Gather.antt =====
-- NonoverlappingDistribution::allGatherv and the global indices: where a value lands.
use ioda.Prelude.{
  ℕ, zero, suc, ◌+◌, ◌<◌, ◌≡◌, refl, ap, sym, ◌∙◌, Bool, true, List, [], ◌∷◌, map, some, sum,
  length, get_or, get_elem?, get_elem?-append_left, get_elem?-append_right, take, drop,
  if◌then◌else◌, ==_iff, ok, err, exception, length-map, none, arith,
}
use ioda.Distribution.{
  Comm, Nonoverlapping, compute_patch_locs, sizes_match, set_lower, nonoverlapping,
}
use ioda.Distribution.Index.{counts, lower_of-sum}

-- The vectors of all ranks have the lengths that the ranks counted.
sizes_match-set_lower :
    (ns : List Nonoverlapping) (lower : List ℕ) (xs : List (List ℕ))
    → map length xs ≡ counts ns
    → sizes_match (set_lower ns lower) xs ≡ true
unfolding sizes_match set_lower
sizes_match-set_lower [] lower xs h = refl
sizes_match-set_lower (n ∷ ns) lower [] h = absurd (omega (arith, ap length h))
sizes_match-set_lower (n ∷ ns) [] (x ∷ xs) h =
    rw ((==_iff (length x) n.num_locations_on_this_rank).1 (ap (λ l. get_or l 0 0) h))
      (sizes_match-set_lower ns [] xs (ap (drop 1) h))
sizes_match-set_lower (n ∷ ns) (l ∷ lower) (x ∷ xs) h =
    rw ((==_iff (length x) n.num_locations_on_this_rank).1 (ap (λ l. get_or l 0 0) h))
      (sizes_match-set_lower ns lower xs (ap (drop 1) h))

sizes_match_all :
    (c : Comm) (ns : List Nonoverlapping) (xs : List (List ℕ))
    → map length xs ≡ counts ns
    → sizes_match (compute_patch_locs c ns) xs ≡ true
unfolding compute_patch_locs
sizes_match_all c ns xs h = sizes_match-set_lower ns _ xs h

get_elem?-gather :
    (c : Comm) (xs : List (List ℕ)) (x : List ℕ) (r loc : ℕ)
    → get_elem? xs r ≡ some x
    → loc < length x
    → get_elem? (c.all_gatherv xs) (sum (take r (map length xs)) + loc) ≡ get_elem? x loc
get_elem?-gather c [] x r loc h l = cc
get_elem?-gather c (y ∷ xs) x zero loc h l =
    let e : y ≡ x = ap (λ o. elim o [ none ↦ [] | some z ↦ z ]) h in
    let z : 0 + loc ≡ loc = omega arith in
    rw (c.all_gatherv-cons y xs, z, e) (get_elem?-append_left x (c.all_gatherv xs) loc l)
get_elem?-gather c (y ∷ xs) x (suc r) loc h l =
    let z : length y + sum (take r (map length xs)) + loc
        ≡ length y + (sum (take r (map length xs)) + loc) =
      omega arith in
    rw (c.all_gatherv-cons y xs, z)
      (get_elem?-append_right y (c.all_gatherv xs) (sum (take r (map length xs)) + loc)
        ∙ get_elem?-gather c xs x r loc h l)

get_elem?-length :
    (xs : List (List ℕ)) (x : List ℕ) (r : ℕ) → get_elem? xs r ≡ some x → r < length xs
get_elem?-length [] x r h = cc
get_elem?-length (y ∷ xs) x zero h = omega arith
get_elem?-length (y ∷ xs) x (suc r) h = omega (arith, get_elem?-length xs x r h)

-- When every rank passes as many values as it has locations, allGatherv gives every rank the same
-- vector, which has the value of location loc of rank r at the global index of that location.
pub nonoverlapping-all_gatherv :
    (c : Comm) (is_mine : ℕ → ℕ → Bool) (ns : List Nonoverlapping) (xs : List (List ℕ)) (x : List ℕ)
    (r loc : ℕ)
    → map length xs ≡ counts ns
    → get_elem? xs r ≡ some x
    → loc < length x
    → (g : List ℕ) × ((nonoverlapping c is_mine (compute_patch_locs c ns)).all_gatherv xs
        ≡ ok (map (λ _. g) xs))
      × (get_elem? g (
            (nonoverlapping c is_mine (compute_patch_locs c ns)
                ).global_unique_consecutive_location_index
              r loc)
          ≡ get_elem? x loc)
unfolding nonoverlapping
nonoverlapping-all_gatherv c is_mine ns xs x r loc h e l =
    let lx = length-map length xs in
    let ln = length-map (λ (n : Nonoverlapping). n.num_locations_on_this_rank) ns in
    let rl : r < length ns = omega (arith, lx, ln, ap length h, get_elem?-length xs x r e) in
    (
      c.all_gatherv xs,
      ap (λ b. if b then ok (map (λ _. c.all_gatherv xs) xs) else err exception)
          (sizes_match_all c ns xs h),
      ap (λ s. get_elem? (c.all_gatherv xs) (s + loc))
            (lower_of-sum c ns r rl ∙ ap (λ s. sum (take r s)) (sym h))
          ∙ get_elem?-gather c xs x r loc e l,
    )
