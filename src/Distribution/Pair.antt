-- ===== src/Distribution/Pair.antt =====
-- PairOfDistributions over two non-overlapping distributions: its global indices.
use ioda.Prelude.{
  ℕ, zero, suc, ◌+◌, ◌-◌, ◌≤◌, ◌<◌, ◌≡◌, refl, ap, ap₂, sym, ◌∙◌, false, List, [], ◌∷◌, ◌++◌, map,
  iota, sum, length, length-map, get_or, take, if◌then◌else◌, ltb, ltb→lt, lt→ltb, Bool, Bool-cases,
  inl, inr, ◌⊎◌, arith,
}
use ioda.Distribution.{Comm, Distribution, Nonoverlapping, compute_patch_locs, nonoverlapping}
use ioda.Distribution.PairOfDistributions.{own_offsets, pair_offsets, pair}
use ioda.Distribution.Index.{counts, all_indices, all_indices-iota, iota-append, lower_of-sum}

length-own_offsets :
    (d : Distribution) (r : ℕ) (locs : List ℕ) → length (own_offsets d r locs) ≡ length locs
unfolding own_offsets
length-own_offsets d r [] = refl
length-own_offsets d r (n ∷ locs) = ap suc (length-own_offsets d (suc r) locs)

own_offsets-at :
    (d : Distribution) (r : ℕ) (locs : List ℕ) (k : ℕ)
    → k < length locs
    → get_or (own_offsets d r locs) k 0 ≡ (
        if ltb 0 (get_or locs k 0)
        then d.global_unique_consecutive_location_index (r + k) (get_or locs k 0 - 1) + 1
        else 0)
unfolding own_offsets
own_offsets-at d r [] k h = absurd (omega arith)
own_offsets-at d r (n ∷ locs) zero h = let e : r + 0 ≡ r = omega arith in rw e
own_offsets-at d r (n ∷ locs) (suc k) h =
    let e : r + suc k ≡ suc r + k = omega arith in
    rw e (own_offsets-at d (suc r) locs k (omega arith))

sum-take_le :
    (locs : List ℕ) (k : ℕ) → k < length locs → sum (take k locs) + get_or locs k 0 ≤ sum locs
sum-take_le [] k h = absurd (omega arith)
sum-take_le (n ∷ locs) zero h = omega arith
sum-take_le (n ∷ locs) (suc k) h = omega (arith, sum-take_le locs k (omega arith))

-- The last rank that has locations ends where all of them end.
last_nonempty :
    (locs : List ℕ)
    → (sum locs ≡ 0)
      ⊎ ((k : ℕ) × (k < length locs)
          × (0 < get_or locs k 0)
          × (sum (take k locs) + get_or locs k 0 ≡ sum locs))
last_nonempty [] = inl refl
last_nonempty (n ∷ locs) = elim (last_nonempty locs) [
  | inr (k, h, p, e) ↦ inr (suc k, omega arith, p, omega (arith, e))
  | inl z ↦ elim (Bool-cases (ltb 0 n)) [
    | inl t ↦ inr (0, omega arith, ltb→lt 0 n t, omega (arith, z))
    | inr f ↦ inl (ground (arith, z))
  ]
]

get_or-map_const : (xs : List ℕ) (v k : ℕ) → k < length xs → get_or (map (λ _. v) xs) k 0 ≡ v
get_or-map_const [] v k h = absurd (omega arith)
get_or-map_const (x ∷ xs) v zero h = refl
get_or-map_const (x ∷ xs) v (suc k) h = get_or-map_const xs v k (omega arith)

module _ (c : Comm) (is_mine : ℕ → ℕ → Bool) (ns : List Nonoverlapping) where
  -- The distribution after computePatchLocs.
  abbrev pub made : Distribution
  made = nonoverlapping c is_mine (compute_patch_locs c ns)

  made-index :
      (r loc : ℕ)
      → r < length ns
      → made.global_unique_consecutive_location_index r loc ≡ sum (take r (counts ns)) + loc
  unfolding nonoverlapping
  made-index r loc h = ap (λ z. z + loc) (lower_of-sum c ns r h)

  -- What a rank passes to the maximum: where its own locations end, or 0 if it has none.
  own_offset :
      (k : ℕ)
      → k < length ns
      → get_or (own_offsets made 0 (counts ns)) k 0 ≡ (
          if ltb 0 (get_or (counts ns) k 0)
          then sum (take k (counts ns)) + get_or (counts ns) k 0
          else 0)
  own_offset k h =
      let l = length-map (λ (n : Nonoverlapping). n.num_locations_on_this_rank) ns in
      let q : 0 + k ≡ k = omega arith in
      own_offsets-at made 0 (counts ns) k (omega (arith, l))
      ∙ rw (q, made-index k (get_or (counts ns) k 0 - 1) h) (ground arith)

  offset_max : c.all_reduce_max (own_offsets made 0 (counts ns)) ≡ sum (counts ns)
  offset_max =
      omega
        (arith, c.all_reduce_max-le _ (sum (counts ns)) below, above (last_nonempty (counts ns)))
    where
      l : length (counts ns) ≡ length ns
      l = length-map (λ (n : Nonoverlapping). n.num_locations_on_this_rank) ns

      lo : length (own_offsets made 0 (counts ns)) ≡ length (counts ns)
      lo = length-own_offsets made 0 (counts ns)

      below :
          (k : ℕ)
          → k < length (own_offsets made 0 (counts ns))
          → get_or (own_offsets made 0 (counts ns)) k 0 ≤ sum (counts ns)
      below k h =
          let e = own_offset k (omega (arith, l, lo)) in
          let b = sum-take_le (counts ns) k (omega (arith, lo)) in rw e (ground (arith, b))

      above :
          (sum (counts ns) ≡ 0)
            ⊎ ((k : ℕ) × (k < length (counts ns))
                × (0 < get_or (counts ns) k 0)
                × (sum (take k (counts ns)) + get_or (counts ns) k 0 ≡ sum (counts ns)))
          → sum (counts ns) ≤ c.all_reduce_max (own_offsets made 0 (counts ns))
      above (inl z) = omega (arith, z)
      above (inr (k, h, p, e)) =
          let o = own_offset k (omega (arith, l)) in
          let a = c.le-all_reduce_max (own_offsets made 0 (counts ns)) k (omega (arith, lo)) in
          let t = lt→ltb 0 (get_or (counts ns) k 0) p in
          let v : get_or (own_offsets made 0 (counts ns)) k 0
              ≡ sum (take k (counts ns)) + get_or (counts ns) k 0 =
            o ∙ ap (λ b. if b then sum (take k (counts ns)) + get_or (counts ns) k 0 else 0) t in
          omega (arith, a, v, e)

  offsets : (r : ℕ) → r < length ns → get_or (pair_offsets made (counts ns)) r 0 ≡ sum (counts ns)
  unfolding pair_offsets nonoverlapping
  offsets r h =
      get_or-map_const (own_offsets made 0 (counts ns))
        (c.all_reduce_max (own_offsets made 0 (counts ns))) r
        (omega (
          arith,
          length-own_offsets made 0 (counts ns),
          length-map (λ (n : Nonoverlapping). n.num_locations_on_this_rank) ns,
        ))
      ∙ offset_max

-- The global indices of a pair of two non-overlapping distributions over as many ranks, after
-- computePatchLocs: those of the first part, rank after rank, and then those of the second part,
-- rank after rank, are 0, 1, 2, ..., one for each location of all ranks and both parts.
pub pair-consecutive :
    (c : Comm) (is_mine is_mine' : ℕ → ℕ → Bool) (ns ns' : List Nonoverlapping) (record_offset : ℕ)
    → length ns ≡ length ns'
    → all_indices
          (pair
            (made c is_mine ns)
            (made c is_mine' ns')
            (counts ns)
            record_offset).global_unique_consecutive_location_index
          0
          (counts ns)
        ++ all_indices
            (λ r loc.
              (pair
                  (made c is_mine ns)
                  (made c is_mine' ns')
                  (counts ns)
                  record_offset).global_unique_consecutive_location_index
                r
                (get_or (counts ns) r 0 + loc))
            0
            (counts ns')
      ≡ iota 0 (sum (counts ns) + sum (counts ns'))
unfolding pair
pair-consecutive c is_mine is_mine' ns ns' record_offset h =
    let l = length-map (λ (n : Nonoverlapping). n.num_locations_on_this_rank) ns in
    let l' = length-map (λ (n : Nonoverlapping). n.num_locations_on_this_rank) ns' in
    let q : (k : ℕ) → 0 + k ≡ k = λ k. omega arith in
    ap₂ ◌++◌
      (all_indices-iota _ 0 0 (counts ns) λ k loc a b.
        rw (q k, lt→ltb loc (get_or (counts ns) k 0) b)
          (made-index c is_mine ns k loc (omega (arith, l)) ∙ omega arith))
      (all_indices-iota _ 0 (sum (counts ns)) (counts ns') λ k loc a b.
        let past : ltb (get_or (counts ns) k 0 + loc) (get_or (counts ns) k 0) ≡ false =
          ground arith in
        let back : get_or (counts ns) k 0 + loc - get_or (counts ns) k 0 ≡ loc = omega arith in
        rw (q k, past, back)
          (omega (
            arith,
            offsets c is_mine ns k (omega (arith, l', h)),
            made-index c is_mine' ns' k loc (omega (arith, l')),
          )))
    ∙ (let z : 0 + sum (counts ns) ≡ sum (counts ns) = omega arith in
        ap (λ k. iota 0 (sum (counts ns)) ++ iota k (sum (counts ns'))) (sym z)
        ∙ iota-append 0 (sum (counts ns)) (sum (counts ns')))
