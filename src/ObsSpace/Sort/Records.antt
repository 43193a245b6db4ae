-- ===== src/ObsSpace/Sort/Records.antt =====
-- What ObsSpace::buildSortedObsGroups stores for a record where no location is left at its place.
use mathlib.Core.List.{Perm}
use mathlib.Core.Option.{some-injective}
use ioda.Prelude.{
  ℕ, ◌≡◌, refl, ap, sym, subst, ◌∙◌, Bool, true, false, List, [], ◌∷◌, map, Option, some, none,
  Result, ok, if◌then◌else◌,
}
use ioda.ObsSpace.OrderedMap.{lookup, push_all, picks, pushed, lookup-push_all}
use ioda.ObsSpace.RecIdx.{RecIdx}
use ioda.ObsSpace.Sort.{
  no_sort, sort_missing, SortLocation, sort_records, copy_records, comparison,
  build_sorted_obs_groups, collect_loop, nothing_collected, skips, index_record,
}
use ioda.ObsSpace.Sort.Order.{StrictWeak, StdSort, InOrder, Precedes, before, sort-Precedes}
use ioda.ObsSpace.Sort.Maps.{
  push_all-Ascending, lookup-sort_records, sort_records-Ascending, copy_records-lookup,
}
use ioda.ObsSpace.Sort.Loops.{
  record_of, pair_of, any_missing, all_entries, picks-all_entries, collect_loop-sort_missing,
  collect_loop-no_sort, collect_loop-contains_missing,
}

-- The entry of a record: none if nothing was collected for it.
abbrev pub stored {ℓ κ} : {A : Type ℓ} {B : Type κ} → List A → B → Option B
stored [] locs = none
stored (x ∷ xs) locs = some locs

stored-some {ℓ κ} : {A : Type ℓ} {B : Type κ} (xs : List A) (b c : B) → stored xs b ≡ some c → b ≡ c
stored-some [] b c h = cc
stored-some (x ∷ xs) b c h = some-injective b c h

elim-stored {ℓ κ μ} :
    {A : Type ℓ} {B : Type κ} {C : Type μ} (f : B → C) (xs : List A) (b : B)
    → elim (stored xs b) [ none ↦ none | some c ↦ some (f c) ] ≡ stored xs (f b)
elim-stored f [] b = refl
elim-stored f (x ∷ xs) b = refl

module _ {V : Type 0} (sort : List (V × ℕ) → List (V × ℕ)) (skip : ℕ → Bool)
    (kvs : List (ℕ × (V × ℕ))) where
  abbrev pub arranged : ℕ → List (V × ℕ)
  arranged r = if skip r then picks r kvs else sort (picks r kvs)

  lookup-arranged :
      (r : ℕ)
      → lookup r (sort_records sort skip (push_all kvs [])) ≡ stored (picks r kvs) (arranged r)
  unfolding lookup pushed
  lookup-arranged r =
      lookup-sort_records sort skip r (push_all kvs [])
      ∙ rw (lookup-push_all r kvs []) (go (picks r kvs))
    where
      go :
          (xs : List (V × ℕ))
          → elim (pushed none xs) [
            | none ↦ none
            | some pairs ↦ some (if skip r then pairs else sort pairs)
          ]
            ≡ stored xs (if skip r then xs else sort xs)
      go [] = refl
      go (x ∷ xs) = refl

  -- The last two loops store, for every record for which something was collected, its index.
  pub records-lookup :
      (index : ℕ → List (V × ℕ) → Result (List ℕ)) (f : ℕ → List (V × ℕ) → List ℕ)
      → ((r : ℕ) → index r (arranged r) ≡ ok (f r (arranged r)))
      → (out : RecIdx) × (copy_records index (sort_records sort skip (push_all kvs [])) [] ≡ ok out)
        × ((r : ℕ) → lookup r out ≡ stored (picks r kvs) (f r (arranged r)))
  unfolding lookup
  records-lookup index f h =
      let tmp = sort_records sort skip (push_all kvs []) in
      let up = sort_records-Ascending sort skip _ (push_all-Ascending kvs [] tt) in
      let (out, e, g) = copy_records-lookup index f tmp [] up (λ r ps q.
        let b = stored-some (picks r kvs) (arranged r) ps (sym (lookup-arranged r) ∙ q) in
        subst (λ x. index r x ≡ ok (f r x)) b (h r)) in
      (out, e, λ r. g r ∙ rw (lookup-arranged r) (elim-stored (f r) (picks r kvs) (arranged r)))

-- The locations of a record, ordered by their values, equal ones by their number.
abbrev pub IsSortedRecord :
    {V : Type 0} → (V → V → Bool) → List (ℕ × SortLocation V) → List ℕ → Type 0
IsSortedRecord {V = V} less record_locs locs =
    (pairs : List (V × ℕ)) × (locs ≡ map (λ p. p.1) pairs)
    × Perm pairs (map pair_of record_locs)
    × InOrder (Precedes less) pairs

-- A record without locations has no entry, any other one has its sorted locations.
abbrev pub SortedEntry :
    {V : Type 0} → (V → V → Bool) → List (ℕ × SortLocation V) → Option (List ℕ) → Type 0
SortedEntry less [] entry = entry ≡ none
SortedEntry less (il ∷ ils) entry =
    (locs : List ℕ) × (entry ≡ some locs) × IsSortedRecord less (il ∷ ils) locs

module _ {V : Type 0} (std : StdSort (V × ℕ)) (is_ascending : Bool) (less : V → V → Bool)
    (weak : StrictWeak less) where
  pub sorted_record :
      (ils : List (ℕ × SortLocation V))
      → IsSortedRecord
          (before is_ascending less)
          ils
          (map (λ p. p.1) (std.sort (comparison is_ascending less) (map pair_of ils)))
  sorted_record ils = (
    std.sort (comparison is_ascending less) (map pair_of ils),
    refl,
    std.sort-Perm (comparison is_ascending less) (map pair_of ils),
    sort-Precedes std is_ascending less weak (map pair_of ils),
  )

  sorted_entry :
      (ils : List (ℕ × SortLocation V)) (xs : List (V × ℕ)) (entry : Option (List ℕ))
      → xs ≡ map pair_of ils
      → entry ≡ stored xs (map (λ p. p.1) (std.sort (comparison is_ascending less) xs))
      → SortedEntry (before is_ascending less) ils entry
  sorted_entry [] xs entry q e =
      e ∙ ap (λ x. stored x (map (λ p. p.1) (std.sort (comparison is_ascending less) x))) q
  sorted_entry (il ∷ ils) xs entry q e = (
    map (λ p. p.1) (std.sort (comparison is_ascending less) (map pair_of (il ∷ ils))),
    e ∙ ap (λ x. stored x (map (λ p. p.1) (std.sort (comparison is_ascending less) x))) q,
    sorted_record (il ∷ ils),
  )

  -- With the treatment SORT the function returns an index that has, for every record number, no entry
  -- if no location has it, and otherwise a permutation of its locations where no value comes before
  -- one that the sort order puts in front of it, and locations with equal values ascend.
  pub build_sorted-sort_missing :
      (locations : List (SortLocation V))
      → (recidx : RecIdx) × (build_sorted_obs_groups std.sort is_ascending less sort_missing
            locations
          ≡ ok recidx)
        × ((r : ℕ)
            → SortedEntry (before is_ascending less) (record_of r 0 locations) (lookup r recidx))
  unfolding build_sorted_obs_groups skips index_record
  build_sorted-sort_missing locations =
      let sort = std.sort (comparison is_ascending less) in
      let kvs = all_entries 0 locations in
      let c = collect_loop sort_missing 0 locations nothing_collected in
      let tmp : c.tmp_rec_idx ≡ push_all kvs [] =
        collect_loop-sort_missing 0 locations nothing_collected in
      let (out, e, g) =
        records-lookup sort (λ r. false) kvs (index_record sort_missing c)
          (λ r pairs. map (λ p. p.1) pairs) (λ r. refl) in
      (
        out,
        ap (λ t. copy_records (index_record sort_missing c) (sort_records sort (λ r. false) t) [])
              tmp
            ∙ e,
        λ r.
            sorted_entry (record_of r 0 locations) (picks r kvs) (lookup r out)
              (picks-all_entries r 0 locations) (g r),
      )

  locations_of_pairs :
      (ils : List (ℕ × SortLocation V)) → map (λ p. p.1) (map pair_of ils) ≡ map (λ il. il.0) ils
  locations_of_pairs [] = refl
  locations_of_pairs (il ∷ ils) = ap (λ xs. il.0 ∷ xs) (locations_of_pairs ils)

  -- A record with a missing value keeps its locations as they are.
  abbrev pub UnsortedEntry : List (ℕ × SortLocation V) → Option (List ℕ) → Type 0
  UnsortedEntry ils entry = elim (any_missing ils) [
    | true ↦ entry ≡ some (map (λ il. il.0) ils)
    | false ↦ SortedEntry (before is_ascending less) ils entry
  ]

  no_sort_entry :
      (ils : List (ℕ × SortLocation V)) (xs : List (V × ℕ)) (skip : Bool) (entry : Option (List ℕ))
      → xs ≡ map pair_of ils
      → skip ≡ any_missing ils
      → entry
        ≡ stored xs
            (map (λ p. p.1) (if skip then xs else std.sort (comparison is_ascending less) xs))
      → UnsortedEntry ils entry
  unfolding any_missing
  no_sort_entry ils xs false entry q s e =
      subst
        (λ b. elim b [
          | true ↦ entry ≡ some (map (λ il. il.0) ils)
          | false ↦ SortedEntry (before is_ascending less) ils entry
        ])
        s (sorted_entry ils xs entry q e)
  no_sort_entry [] xs true entry q s e = absurd (cc s)
  no_sort_entry (il ∷ ils) xs true entry q s e =
      subst
        (λ b. elim b [
          | true ↦ entry ≡ some (map (λ i. i.0) (il ∷ ils))
          | false ↦ SortedEntry (before is_ascending less) (il ∷ ils) entry
        ])
        s (e ∙ ap (λ x. stored x (map (λ p. p.1) x)) q ∙ ap some (locations_of_pairs (il ∷ ils)))

  -- With the treatment NO_SORT the function returns an index whose entry for a record with a missing
  -- sort value is the vector of its locations in ascending order, and whose other entries are sorted
  -- as with SORT.
  pub build_sorted-no_sort :
      (locations : List (SortLocation V))
      → (recidx : RecIdx) × (build_sorted_obs_groups std.sort is_ascending less no_sort locations
          ≡ ok recidx)
        × ((r : ℕ) → UnsortedEntry (record_of r 0 locations) (lookup r recidx))
  unfolding build_sorted_obs_groups skips index_record lookup
  build_sorted-no_sort locations =
      let sort = std.sort (comparison is_ascending less) in
      let kvs = all_entries 0 locations in
      let c = collect_loop no_sort 0 locations nothing_collected in
      let skip = skips no_sort c.contains_missing in
      let tmp : c.tmp_rec_idx ≡ push_all kvs [] =
        collect_loop-no_sort 0 locations nothing_collected in
      let (out, e, g) =
        records-lookup sort skip kvs (index_record no_sort c) (λ r pairs. map (λ p. p.1) pairs)
          (λ r. refl) in
      (
        out,
        ap (λ t. copy_records (index_record no_sort c) (sort_records sort skip t) []) tmp ∙ e,
        λ r.
            no_sort_entry (record_of r 0 locations) (picks r kvs) (skip r) (lookup r out)
              (picks-all_entries r 0 locations)
              (collect_loop-contains_missing r 0 locations nothing_collected) (g r),
      )
