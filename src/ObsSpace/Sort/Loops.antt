-- ===== src/ObsSpace/Sort/Loops.antt =====
-- The first loop of ObsSpace::buildSortedObsGroups: what it collects for each record.
use ioda.Prelude.{
  ℕ, suc, ◌≡◌, refl, ap, sym, ◌∙◌, inl, inr, Bool, true, false, ◌||◌, List, [], ◌∷◌, map, some,
  ◌==◌, ==_iff, Bool-cases, if◌then◌else◌,
}
use ioda.ObsSpace.OrderedMap.{
  lookup, push_all, picks, or_else, assign, lookup-modify, lookup-modify_ne,
}
use ioda.ObsSpace.Sort.{
  sort_missing, no_sort, ignore_missing, SortLocation, Collected, collect, collect_loop,
}

or_false : (b : Bool) → b || false ≡ b
or_false true = refl
or_false false = refl

or_true : (b : Bool) → b || true ≡ true
or_true true = refl
or_true false = refl

module _ {V : Type 0} where
  -- The locations of a record, from location iloc on.
  unfoldable pub record_of : ℕ → ℕ → List (SortLocation V) → List (ℕ × SortLocation V)
  record_of r iloc [] = []
  record_of r iloc (l ∷ locations) =
      let rest = record_of r (suc iloc) locations in
      if l.recnum == r then (iloc, l) ∷ rest else rest

  abbrev pub pair_of : ℕ × SortLocation V → V × ℕ
  pair_of il = (il.1.sort_value, il.0)

  abbrev pub flags : List (ℕ × SortLocation V) → List Bool
  flags record_locs = map (λ il. il.1.sort_value_missing) record_locs

  -- Those whose flag is `b`.
  unfoldable pub with_flag : Bool → List (ℕ × SortLocation V) → List (ℕ × SortLocation V)
  with_flag b [] = []
  with_flag true (il ∷ ils) =
      let rest = with_flag true ils in if il.1.sort_value_missing then il ∷ rest else rest
  with_flag false (il ∷ ils) =
      let rest = with_flag false ils in if il.1.sort_value_missing then rest else il ∷ rest

  unfoldable pub any_missing : List (ℕ × SortLocation V) → Bool
  any_missing [] = false
  any_missing (il ∷ ils) = il.1.sort_value_missing || any_missing ils

  unfoldable pub all_entries : ℕ → List (SortLocation V) → List (ℕ × (V × ℕ))
  all_entries iloc [] = []
  all_entries iloc (l ∷ ls) = (l.recnum, (l.sort_value, iloc)) ∷ all_entries (suc iloc) ls

  unfoldable pub present_entries : ℕ → List (SortLocation V) → List (ℕ × (V × ℕ))
  present_entries iloc [] = []
  present_entries iloc (l ∷ ls) =
      let rest = present_entries (suc iloc) ls in
      if l.sort_value_missing then rest else (l.recnum, (l.sort_value, iloc)) ∷ rest

  unfoldable pub missing_entries : ℕ → List (SortLocation V) → List (ℕ × ℕ)
  missing_entries iloc [] = []
  missing_entries iloc (l ∷ ls) =
      let rest = missing_entries (suc iloc) ls in
      if l.sort_value_missing then (l.recnum, iloc) ∷ rest else rest

  unfoldable pub flag_entries : List (SortLocation V) → List (ℕ × Bool)
  flag_entries [] = []
  flag_entries (l ∷ ls) = (l.recnum, l.sort_value_missing) ∷ flag_entries ls

  pub picks-all_entries :
      (r iloc : ℕ) (ls : List (SortLocation V))
      → picks r (all_entries iloc ls) ≡ map pair_of (record_of r iloc ls)
  unfolding picks all_entries record_of
  picks-all_entries r iloc [] = refl
  picks-all_entries r iloc (l ∷ ls) = elim (Bool-cases (l.recnum == r)) [
    | inl b ↦ rw b (ap (λ xs. (l.sort_value, iloc) ∷ xs) (picks-all_entries r (suc iloc) ls))
    | inr b ↦ rw b (picks-all_entries r (suc iloc) ls)
  ]

  pub picks-present_entries :
      (r iloc : ℕ) (ls : List (SortLocation V))
      → picks r (present_entries iloc ls) ≡ map pair_of (with_flag false (record_of r iloc ls))
  unfolding picks present_entries record_of with_flag
  picks-present_entries r iloc [] = refl
  picks-present_entries r iloc (l ∷ ls) =
      let ih = picks-present_entries r (suc iloc) ls in
      elim (Bool-cases l.sort_value_missing) [
        | inl m ↦ elim (Bool-cases (l.recnum == r)) [ inl b ↦ rw (m, b) ih | inr b ↦ rw (m, b) ih ]
        | inr m ↦ elim (Bool-cases (l.recnum == r)) [
          | inl b ↦ rw (m, b) (ap (λ xs. (l.sort_value, iloc) ∷ xs) ih)
          | inr b ↦ rw (m, b) ih
        ]
      ]

  pub picks-missing_entries :
      (r iloc : ℕ) (ls : List (SortLocation V))
      → picks r (missing_entries iloc ls) ≡ map (λ il. il.0) (with_flag true (record_of r iloc ls))
  unfolding picks missing_entries record_of with_flag
  picks-missing_entries r iloc [] = refl
  picks-missing_entries r iloc (l ∷ ls) =
      let ih = picks-missing_entries r (suc iloc) ls in
      elim (Bool-cases l.sort_value_missing) [
        | inr m ↦ elim (Bool-cases (l.recnum == r)) [ inl b ↦ rw (m, b) ih | inr b ↦ rw (m, b) ih ]
        | inl m ↦ elim (Bool-cases (l.recnum == r)) [
          | inl b ↦ rw (m, b) (ap (λ xs. iloc ∷ xs) ih)
          | inr b ↦ rw (m, b) ih
        ]
      ]

  pub picks-flag_entries :
      (r iloc : ℕ) (ls : List (SortLocation V))
      → picks r (flag_entries ls) ≡ flags (record_of r iloc ls)
  unfolding picks flag_entries record_of
  picks-flag_entries r iloc [] = refl
  picks-flag_entries r iloc (l ∷ ls) = elim (Bool-cases (l.recnum == r)) [
    | inl b ↦ rw b (ap (λ xs. l.sort_value_missing ∷ xs) (picks-flag_entries r (suc iloc) ls))
    | inr b ↦ rw b (picks-flag_entries r (suc iloc) ls)
  ]

  pub collect_loop-sort_missing :
      (iloc : ℕ) (ls : List (SortLocation V)) (c : Collected V)
      → (collect_loop sort_missing iloc ls c).tmp_rec_idx
        ≡ push_all (all_entries iloc ls) c.tmp_rec_idx
  unfolding collect_loop collect push_all all_entries
  collect_loop-sort_missing iloc [] c = refl
  collect_loop-sort_missing iloc (l ∷ ls) c = collect_loop-sort_missing (suc iloc) ls _

  pub collect_loop-no_sort :
      (iloc : ℕ) (ls : List (SortLocation V)) (c : Collected V)
      → (collect_loop no_sort iloc ls c).tmp_rec_idx ≡ push_all (all_entries iloc ls) c.tmp_rec_idx
  unfolding collect_loop collect push_all all_entries
  collect_loop-no_sort iloc [] c = refl
  collect_loop-no_sort iloc (l ∷ ls) c = collect_loop-no_sort (suc iloc) ls _

  pub collect_loop-ignore_missing :
      (iloc : ℕ) (ls : List (SortLocation V)) (c : Collected V)
      → ((collect_loop ignore_missing iloc ls c).tmp_rec_idx
          ≡ push_all (present_entries iloc ls) c.tmp_rec_idx)
        × ((collect_loop ignore_missing iloc ls c).tmp_rec_idx_missing
            ≡ push_all (missing_entries iloc ls) c.tmp_rec_idx_missing)
        × ((collect_loop ignore_missing iloc ls c).sort_value_missing_in_record
            ≡ push_all (flag_entries ls) c.sort_value_missing_in_record)
  unfolding collect_loop collect push_all present_entries missing_entries flag_entries
  collect_loop-ignore_missing iloc [] c = (refl, refl, refl)
  collect_loop-ignore_missing iloc (l ∷ ls) c = elim (Bool-cases l.sort_value_missing) [
    | inl m ↦ rw m (collect_loop-ignore_missing (suc iloc) ls _)
    | inr m ↦ rw m (collect_loop-ignore_missing (suc iloc) ls _)
  ]

  pub collect_loop-contains_missing :
      (r iloc : ℕ) (ls : List (SortLocation V)) (c : Collected V)
      → or_else false (lookup r (collect_loop no_sort iloc ls c).contains_missing)
        ≡ or_else false (lookup r c.contains_missing) || any_missing (record_of r iloc ls)
  unfolding collect_loop collect record_of any_missing
  collect_loop-contains_missing r iloc [] c =
      sym (or_false (or_else false (lookup r c.contains_missing)))
  collect_loop-contains_missing r iloc (l ∷ ls) c = elim (Bool-cases l.sort_value_missing) [
    | inr m ↦
        let ih = collect_loop-contains_missing r (suc iloc) ls _ in
        elim (Bool-cases (l.recnum == r)) [ inl b ↦ rw (m, b) ih | inr b ↦ rw (m, b) ih ]
    | inl m ↦
        let ih = collect_loop-contains_missing r (suc iloc) ls _ in
        elim (Bool-cases (l.recnum == r)) [
          | inl b ↦
              let e : l.recnum ≡ r = (==_iff l.recnum r).0 b in
              let f = lookup-modify l.recnum true (λ _. true) c.contains_missing in
              let g : lookup r (assign l.recnum true c.contains_missing) ≡ some true =
                ap (λ q. lookup q (assign l.recnum true c.contains_missing)) (sym e) ∙ f in
              rw (m, b) (ih ∙ rw g (sym (or_true (or_else false (lookup r c.contains_missing)))))
          | inr b ↦
              let n : (l.recnum ≡ r → ⊥) = λ q. cc (b, (==_iff l.recnum r).1 q) in
              rw (m, b)
                (ih ∙ rw (lookup-modify_ne l.recnum r true (λ _. true) c.contains_missing n) refl)
        ]
  ]
