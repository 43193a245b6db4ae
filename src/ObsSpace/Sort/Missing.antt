-- ===== src/ObsSpace/Sort/Missing.antt =====
-- ObsSpace::buildSortedObsGroups with IGNORE_MISSING: missing places stay, the others are sorted.
use mathlib.Core.List.{append_assoc}
use ioda.Prelude.{
  ℕ, suc, ◌≡◌, refl, ap, sym, subst, ◌∙◌, inl, inr, Bool, true, false, List, [], ◌∷◌, ◌++◌, map,
  Option, some, none, length, length-snoc, at-middle, length-map, Bool-cases, ok, if◌then◌else◌,
  arith,
}
use ioda.ObsSpace.OrderedMap.{lookup, push_all, picks, pushed, lookup-push_all, or_else}
use ioda.ObsSpace.RecIdx.{RecIdx}
use ioda.ObsSpace.Sort.{
  ignore_missing, SortLocation, sort_records, copy_records, comparison, build_sorted_obs_groups,
  collect_loop, nothing_collected, skips, index_record, place_missing,
}
use ioda.ObsSpace.Sort.Order.{StrictWeak, StdSort, before, length-Perm}
use ioda.ObsSpace.Sort.Loops.{
  record_of, pair_of, flags, with_flag, present_entries, missing_entries, flag_entries,
  picks-present_entries, picks-missing_entries, picks-flag_entries, collect_loop-ignore_missing,
}
use ioda.ObsSpace.Sort.Records.{stored, records-lookup, IsSortedRecord, sorted_record}

module _ {V : Type 0} where
  -- The locations of a record where those that are not missing are replaced one by one.
  unfoldable pub put_back : List (ℕ × SortLocation V) → List ℕ → List ℕ
  put_back [] present = []
  put_back (il ∷ ils) [] =
      let rest = put_back ils [] in if il.1.sort_value_missing then il.0 ∷ rest else []
  put_back (il ∷ ils) (p ∷ present) =
      let missing_here = put_back ils (p ∷ present) in
      let present_here = put_back ils present in
      if il.1.sort_value_missing then il.0 ∷ missing_here else p ∷ present_here

  -- The elements at the places of locations that are not missing.
  unfoldable pub at_present : List (ℕ × SortLocation V) → List ℕ → List ℕ
  at_present [] locs = []
  at_present (il ∷ ils) [] = []
  at_present (il ∷ ils) (x ∷ locs) =
      let rest = at_present ils locs in if il.1.sort_value_missing then rest else x ∷ rest

  at_present-put_back :
      (ils : List (ℕ × SortLocation V)) (present : List ℕ)
      → length present ≡ length (with_flag false ils)
      → at_present ils (put_back ils present) ≡ present
  unfolding at_present put_back with_flag
  at_present-put_back [] [] h = refl
  at_present-put_back [] (p ∷ present) h = absurd (omega (arith, h))
  at_present-put_back (il ∷ ils) [] h = elim (Bool-cases il.1.sort_value_missing) [
    | inl m ↦ rw m (at_present-put_back ils [] (rw m at h))
    | inr m ↦ rw m refl
  ]
  at_present-put_back (il ∷ ils) (p ∷ present) h = elim (Bool-cases il.1.sort_value_missing) [
    | inl m ↦ rw m (at_present-put_back ils (p ∷ present) (rw m at h))
    | inr m ↦
        let h' : suc (length present) ≡ suc (length (with_flag false ils)) = rw m at h in
        rw m (ap (λ xs. p ∷ xs) (at_present-put_back ils present (omega (arith, h'))))
  ]

  length-put_back :
      (ils : List (ℕ × SortLocation V)) (present : List ℕ)
      → length present ≡ length (with_flag false ils)
      → length (put_back ils present) ≡ length ils
  unfolding put_back with_flag
  length-put_back [] present h = refl
  length-put_back (il ∷ ils) [] h = elim (Bool-cases il.1.sort_value_missing) [
    | inl m ↦ rw m (ap suc (length-put_back ils [] (rw m at h)))
    | inr m ↦
        let h' : 0 ≡ suc (length (with_flag false ils)) = rw m at h in absurd (omega (arith, h'))
  ]
  length-put_back (il ∷ ils) (p ∷ present) h = elim (Bool-cases il.1.sort_value_missing) [
    | inl m ↦ rw m (ap suc (length-put_back ils (p ∷ present) (rw m at h)))
    | inr m ↦
        let h' : suc (length present) ≡ suc (length (with_flag false ils)) = rw m at h in
        rw m (ap suc (length-put_back ils present (omega (arith, h'))))
  ]

  -- The elements at the places of missing locations.
  unfoldable pub at_missing : List (ℕ × SortLocation V) → List ℕ → List ℕ
  at_missing [] locs = []
  at_missing (il ∷ ils) [] = []
  at_missing (il ∷ ils) (x ∷ locs) =
      let rest = at_missing ils locs in if il.1.sort_value_missing then x ∷ rest else rest

  at_missing-put_back :
      (ils : List (ℕ × SortLocation V)) (present : List ℕ)
      → length present ≡ length (with_flag false ils)
      → at_missing ils (put_back ils present) ≡ map (λ il. il.0) (with_flag true ils)
  unfolding at_missing put_back with_flag
  at_missing-put_back [] present h = refl
  at_missing-put_back (il ∷ ils) [] h = elim (Bool-cases il.1.sort_value_missing) [
    | inl m ↦ rw m (ap (λ xs. il.0 ∷ xs) (at_missing-put_back ils [] (rw m at h)))
    | inr m ↦
        let h' : 0 ≡ suc (length (with_flag false ils)) = rw m at h in absurd (omega (arith, h'))
  ]
  at_missing-put_back (il ∷ ils) (p ∷ present) h = elim (Bool-cases il.1.sort_value_missing) [
    | inl m ↦ rw m (ap (λ xs. il.0 ∷ xs) (at_missing-put_back ils (p ∷ present) (rw m at h)))
    | inr m ↦
        let h' : suc (length present) ≡ suc (length (with_flag false ils)) = rw m at h in
        rw m (at_missing-put_back ils present (omega (arith, h')))
  ]

  place_missing-put_back :
      (ils : List (ℕ × SortLocation V)) (ms ps present : List ℕ)
      → length present ≡ length (with_flag false ils)
      → place_missing
          (flags ils)
          (ms ++ map (λ il. il.0) (with_flag true ils))
          (ps ++ present)
          (length ms)
          (length ps)
        ≡ ok (put_back ils present)
  unfolding place_missing put_back with_flag
  place_missing-put_back [] ms ps present h = refl
  place_missing-put_back (il ∷ ils) ms ps [] h = elim (Bool-cases il.1.sort_value_missing) [
    | inl b ↦
        let missing = map (λ i. i.0) (with_flag true ils) in
        let ih = place_missing-put_back ils (ms ++ il.0 ∷ []) ps [] (rw b at h) in
        let ih' = rw (append_assoc ms (il.0 ∷ []) missing, length-snoc ms il.0) at ih in
        rw b (rw (at-middle ms il.0 missing, ih') refl)
    | inr b ↦
        let h' : 0 ≡ suc (length (with_flag false ils)) = rw b at h in absurd (omega (arith, h'))
  ]
  place_missing-put_back (il ∷ ils) ms ps (p ∷ present) h =
      elim (Bool-cases il.1.sort_value_missing) [
        | inl b ↦
            let missing = map (λ i. i.0) (with_flag true ils) in
            let ih = place_missing-put_back ils (ms ++ il.0 ∷ []) ps (p ∷ present) (rw b at h) in
            let ih' = rw (append_assoc ms (il.0 ∷ []) missing, length-snoc ms il.0) at ih in
            rw b (rw (at-middle ms il.0 missing, ih') refl)
        | inr b ↦
            let h' : suc (length present) ≡ suc (length (with_flag false ils)) = rw b at h in
            let ih = place_missing-put_back ils ms (ps ++ p ∷ []) present (omega (arith, h')) in
            let ih' = rw (append_assoc ps (p ∷ []) present, length-snoc ps p) at ih in
            rw b (rw (at-middle ps p present, ih') refl)
      ]

-- The entry of a record: its missing locations are at their places, the others are sorted on theirs.
abbrev pub IsPlacedRecord :
    {V : Type 0} → (V → V → Bool) → List (ℕ × SortLocation V) → List ℕ → Type 0
IsPlacedRecord less ils locs =
    (length locs ≡ length ils)
    × (at_missing ils locs ≡ map (λ il. il.0) (with_flag true ils))
    × IsSortedRecord less (with_flag false ils) (at_present ils locs)

-- The entry of a record given its present locations; without any there is no entry.
abbrev pub PlacedAmong :
    {V : Type 0}
    → (V → V → Bool)
    → List (ℕ × SortLocation V)
    → List (ℕ × SortLocation V)
    → Option (List ℕ)
    → Type 0
PlacedAmong less ils [] entry = entry ≡ none
PlacedAmong less ils (x ∷ xs) entry =
    (locs : List ℕ) × (entry ≡ some locs) × IsPlacedRecord less ils locs

abbrev pub PlacedEntry :
    {V : Type 0} → (V → V → Bool) → List (ℕ × SortLocation V) → Option (List ℕ) → Type 0
PlacedEntry less ils entry = PlacedAmong less ils (with_flag false ils) entry

or_else-pushed {ℓ} : {A : Type ℓ} (xs : List A) → or_else [] (pushed none xs) ≡ xs
unfolding pushed
or_else-pushed [] = refl
or_else-pushed (x ∷ xs) = refl

collected {ℓ} :
    {A : Type ℓ} (r : ℕ) (m : List (ℕ × List A)) (kxs : List (ℕ × A))
    → m ≡ push_all kxs []
    → or_else [] (lookup r m) ≡ picks r kxs
unfolding lookup
collected r m kxs e =
    ap (λ m'. or_else [] (lookup r m')) e
    ∙ ap (or_else []) (lookup-push_all r kxs [])
    ∙ or_else-pushed (picks r kxs)

module _ {V : Type 0} (std : StdSort (V × ℕ)) (is_ascending : Bool) (less : V → V → Bool)
    (weak : StrictWeak less) where
  sorted_present : List (ℕ × SortLocation V) → List ℕ
  sorted_present ils =
      map (λ p. p.1) (std.sort (comparison is_ascending less) (map pair_of (with_flag false ils)))

  length-sorted_present :
      (ils : List (ℕ × SortLocation V)) → length (sorted_present ils) ≡ length (with_flag false ils)
  unfolding sorted_present
  length-sorted_present ils =
      let pairs = map pair_of (with_flag false ils) in
      length-map (λ p. p.1) (std.sort (comparison is_ascending less) pairs)
      ∙ length-Perm (std.sort-Perm (comparison is_ascending less) pairs)
      ∙ length-map pair_of (with_flag false ils)

  placed_record :
      (ils : List (ℕ × SortLocation V))
      → IsPlacedRecord (before is_ascending less) ils (put_back ils (sorted_present ils))
  unfolding sorted_present
  placed_record ils =
      let n = length-sorted_present ils in
      (
        length-put_back ils (sorted_present ils) n,
        at_missing-put_back ils (sorted_present ils) n,
        subst (IsSortedRecord (before is_ascending less) (with_flag false ils))
            (sym (at_present-put_back ils (sorted_present ils) n))
            (sorted_record std is_ascending less weak (with_flag false ils)),
      )

  placed_entry :
      (ils : List (ℕ × SortLocation V)) (xs : List (V × ℕ)) (entry : Option (List ℕ))
      → xs ≡ map pair_of (with_flag false ils)
      → entry ≡ stored xs (put_back ils (sorted_present ils))
      → PlacedEntry (before is_ascending less) ils entry
  placed_entry ils xs entry q e =
      go (with_flag false ils) (e ∙ ap (λ x. stored x (put_back ils (sorted_present ils))) q)
    where
      go :
          (present : List (ℕ × SortLocation V))
          → entry ≡ stored (map pair_of present) (put_back ils (sorted_present ils))
          → PlacedAmong (before is_ascending less) ils present entry
      go [] f = f
      go (x ∷ xs) f = (put_back ils (sorted_present ils), f, placed_record ils)

  placed_index :
      (ils : List (ℕ × SortLocation V)) (xs : List (V × ℕ))
      → xs ≡ map pair_of (with_flag false ils)
      → place_missing
          (flags ils)
          (map (λ il. il.0) (with_flag true ils))
          (map (λ p. p.1) (std.sort (comparison is_ascending less) xs))
          0
          0
        ≡ ok (put_back ils (map (λ p. p.1) (std.sort (comparison is_ascending less) xs)))
  placed_index ils xs q =
      let sorted = std.sort (comparison is_ascending less) xs in
      place_missing-put_back ils [] [] (map (λ p. p.1) sorted) (
        length-map (λ p. p.1) sorted
        ∙ length-Perm (std.sort-Perm (comparison is_ascending less) xs)
        ∙ ap length q
        ∙ length-map pair_of (with_flag false ils))

  -- With the treatment IGNORE_MISSING the function returns an index that has no entry for a record
  -- whose locations all have a missing sort value, and for any other record a vector as long as the
  -- record where the missing locations stand at their places in ascending order, and where the other
  -- places hold the other locations, sorted as with SORT.
  pub build_sorted-ignore_missing :
      (locations : List (SortLocation V))
      → (recidx : RecIdx) × (build_sorted_obs_groups std.sort is_ascending less ignore_missing
            locations
          ≡ ok recidx)
        × ((r : ℕ)
            → PlacedEntry (before is_ascending less) (record_of r 0 locations) (lookup r recidx))
  unfolding build_sorted_obs_groups skips index_record lookup sorted_present
  build_sorted-ignore_missing locations =
      let sort = std.sort (comparison is_ascending less) in
      let kvs = present_entries 0 locations in
      let c = collect_loop ignore_missing 0 locations nothing_collected in
      let (tmp, missing, marks) = collect_loop-ignore_missing 0 locations nothing_collected in
      let f : ℕ → List (V × ℕ) → List ℕ =
        λ r pairs. put_back (record_of r 0 locations) (map (λ p. p.1) pairs) in
      let (out, e, g) =
        records-lookup sort (λ r. false) kvs (index_record ignore_missing c) f
          (λ r.
            rw
              (
                collected r c.sort_value_missing_in_record (flag_entries locations) marks
                    ∙ picks-flag_entries r 0 locations,
                collected r c.tmp_rec_idx_missing (missing_entries 0 locations) missing
                    ∙ picks-missing_entries r 0 locations,
              )
              (placed_index (record_of r 0 locations) (picks r kvs)
                (picks-present_entries r 0 locations))) in
      (
        out,
        ap (λ t. copy_records (index_record ignore_missing c) (sort_records sort (λ r. false) t) [])
              tmp
            ∙ e,
        λ r.
            placed_entry (record_of r 0 locations) (picks r kvs) (lookup r out)
              (picks-present_entries r 0 locations)
              (g r
                ∙ ap
                    (λ x.
                      stored (picks r kvs)
                        (put_back (record_of r 0 locations) (map (λ p. p.1) (sort x))))
                    (picks-present_entries r 0 locations)),
      )
