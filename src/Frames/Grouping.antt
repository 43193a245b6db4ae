-- ===== src/Frames/Grouping.antt =====
-- ObsFrameRead::genRecordNumbersGrouping (src/io/ObsFrameRead.cc): locations with equal grouping keys
-- belong to one record. obs_grouping_ is kept as a list of its entries, and `same` is == on keys.
use ioda.Prelude.{
  ℕ, suc, zero, ◌+◌, ◌<◌, ◌≡◌, ◌↔◌, refl, ap, sym, ◌∙◌, Bool, true, List, [], ◌∷◌, if◌then◌else◌,
  All, Option, some, none, Bool-cases, Option-cases, subst, inl, inr, get_elem?, ◌==◌, ==_iff,
  ==_ne, arith,
}

module _ {K : Type 0} (same : K → K → Bool) where
  -- obs_grouping_.find, obs_grouping_.at
  unfoldable pub find : K → List (K × ℕ) → Option ℕ
  find k [] = none
  find k ((j, r) ∷ grouping) = if same k j then some r else find k grouping

  -- The record number of one key, with obs_grouping_ and next_rec_num_ before and after.
  unfoldable pub number_key : K → List (K × ℕ) → ℕ → ℕ × List (K × ℕ) × ℕ
  number_key k grouping next = elim (find k grouping) [
    | some r ↦ (r, grouping, next)
    | none ↦ (next, (k, next) ∷ grouping, next + 1)
  ]

  unfoldable pub gen_record_numbers_grouping : List K → List (K × ℕ) → ℕ → List ℕ × List (K × ℕ) × ℕ
  unfolding number_key
  gen_record_numbers_grouping [] grouping next = ([], grouping, next)
  gen_record_numbers_grouping (k ∷ keys) grouping next =
      let a = number_key k grouping next in
      let b = gen_record_numbers_grouping keys a.1 a.2 in (a.0 ∷ b.0, b.1, b.2)

module _ {K : Type 0} (same : K → K → Bool)
    (same_iff : (a b : K) → (same a b ≡ true) ↔ (a ≡ b)) where
  -- Numbers that were given out are below the next one, and different keys have different numbers.
  abbrev Numbered : List (K × ℕ) → ℕ → Type 0
  Numbered [] next = Unit {0}
  Numbered ((j, r) ∷ grouping) next = (r < next) × All (λ e. e.1 < r) grouping × Numbered grouping r

  find-lt :
      (k : K) (grouping : List (K × ℕ)) (n r : ℕ)
      → All (λ e. e.1 < n) grouping
      → find same k grouping ≡ some r
      → r < n
  unfolding find
  find-lt k [] n r h e = cc
  find-lt k ((j, q) ∷ grouping) n r h e = elim (Bool-cases (same k j)) [
    | inl b ↦
        let e' : some q ≡ some r = rw b at e in
        let w : q ≡ r = ap (λ o. elim o [ none ↦ 0 | some z ↦ z ]) e' in omega (arith, h.0, w)
    | inr b ↦ find-lt k grouping n r h.1 (rw b at e)
  ]

  find_injective :
      (a b : K) (grouping : List (K × ℕ)) (next r : ℕ)
      → Numbered grouping next
      → find same a grouping ≡ some r
      → find same b grouping ≡ some r
      → a ≡ b
  unfolding find
  find_injective a b [] next r h e f = cc
  find_injective a b ((j, q) ∷ grouping) next r h e f = elim (Bool-cases (same a j)) [
    | inl p ↦ elim (Bool-cases (same b j)) [
      | inl p' ↦ (same_iff a j).0 p ∙ sym ((same_iff b j).0 p')
      | inr p' ↦
          let w : q ≡ r = ap (λ o. elim o [ none ↦ 0 | some z ↦ z ]) (rw p at e) in
          let l = find-lt b grouping q r h.1 (rw p' at f) in absurd (omega (arith, w, l))
    ]
    | inr p ↦ elim (Bool-cases (same b j)) [
      | inl p' ↦
          let w : q ≡ r = ap (λ o. elim o [ none ↦ 0 | some z ↦ z ]) (rw p' at f) in
          let l = find-lt a grouping q r h.1 (rw p at e) in absurd (omega (arith, w, l))
      | inr p' ↦ find_injective a b grouping q r h.2 (rw p at e) (rw p' at f)
    ]
  ]

  Numbered-All :
      (grouping : List (K × ℕ)) (next : ℕ) → Numbered grouping next → All (λ e. e.1 < next) grouping
  Numbered-All [] next h = tt
  Numbered-All ((j, r) ∷ grouping) next h = (h.0, All_below grouping r next h.0 h.1)
    where
      All_below :
          (xs : List (K × ℕ)) (m n : ℕ) → m < n → All (λ e. e.1 < m) xs → All (λ e. e.1 < n) xs
      All_below [] m n l a = tt
      All_below (x ∷ xs) m n l a = (omega (arith, a.0), All_below xs m n l a.1)

  -- The key is found, entries that were there are found as before, and the numbers stay apart.
  Keeps : K → List (K × ℕ) → ℕ × List (K × ℕ) × ℕ → Type 0
  Keeps k grouping a =
      (find same k a.1 ≡ some a.0)
      × Numbered a.1 a.2
      × ((j : K) (r : ℕ) → find same j grouping ≡ some r → find same j a.1 ≡ some r)

  number_known :
      (k : K) (grouping : List (K × ℕ)) (next r : ℕ)
      → find same k grouping ≡ some r
      → number_key same k grouping next ≡ (r, grouping, next)
  unfolding number_key
  number_known k grouping next r e =
      ap
        (λ o. elim o [
          | some q ↦ (q, grouping, next)
          | none ↦ (next, (k, next) ∷ grouping, next + 1)
        ])
        e

  number_new :
      (k : K) (grouping : List (K × ℕ)) (next : ℕ)
      → find same k grouping ≡ none
      → number_key same k grouping next ≡ (next, (k, next) ∷ grouping, next + 1)
  unfolding number_key
  number_new k grouping next e =
      ap
        (λ o. elim o [
          | some q ↦ (q, grouping, next)
          | none ↦ (next, (k, next) ∷ grouping, next + 1)
        ])
        e

  number_key-Keeps :
      (k : K) (grouping : List (K × ℕ)) (next : ℕ)
      → Numbered grouping next
      → Keeps k grouping (number_key same k grouping next)
  unfolding Keeps find
  number_key-Keeps k grouping next h = elim (Option-cases (find same k grouping)) [
    | inr (r, e) ↦
        subst (Keeps k grouping) (sym (number_known k grouping next r e)) (e, h, λ j q f. f)
    | inl e ↦
        let self : same k k ≡ true = (same_iff k k).1 refl in
        subst (Keeps k grouping) (sym (number_new k grouping next e)) (
          rw self,
          (omega arith, Numbered-All grouping next h, h),
          λ j q f. elim (Bool-cases (same j k)) [
            | inl p ↦ let w : j ≡ k = (same_iff j k).0 p in cc (e, f, w)
            | inr p ↦ rw p f
          ],
        )
  ]

  -- Every key has its record number in the grouping at the end.
  records-find :
      (keys : List K) (grouping : List (K × ℕ)) (next : ℕ)
      → Numbered grouping next
      → ((i : ℕ) (k : K) (r : ℕ)
          → get_elem? keys i ≡ some k
          → get_elem? (gen_record_numbers_grouping same keys grouping next).0 i ≡ some r
          → find same k (gen_record_numbers_grouping same keys grouping next).1 ≡ some r)
        × Numbered
            (gen_record_numbers_grouping same keys grouping next).1
            (gen_record_numbers_grouping same keys grouping next).2
        × ((j : K) (r : ℕ)
            → find same j grouping ≡ some r
            → find same j (gen_record_numbers_grouping same keys grouping next).1 ≡ some r)
  unfolding gen_record_numbers_grouping Keeps
  records-find [] grouping next h = ((λ i k r e f. cc), h, λ j r f. f)
  records-find (k ∷ keys) grouping next h =
      let a = number_key same k grouping next in
      let (found, numbered, old) = number_key-Keeps k grouping next h in
      let (all_found, numbered', old') = records-find keys a.1 a.2 numbered in
      (
        at_place (gen_record_numbers_grouping same keys a.1 a.2).1
            (gen_record_numbers_grouping same keys a.1 a.2).0 a.0 k keys (old' k a.0 found)
            all_found,
        numbered',
        λ j r f. old' j r (old j r f),
      )
    where
      at_place :
          (grouping' : List (K × ℕ)) (records : List ℕ) (r : ℕ) (k : K) (keys : List K)
          → find same k grouping' ≡ some r
          → ((i : ℕ) (k' : K) (r' : ℕ)
              → get_elem? keys i ≡ some k'
              → get_elem? records i ≡ some r'
              → find same k' grouping' ≡ some r')
          → (i : ℕ) (k' : K) (r' : ℕ) → get_elem? (k ∷ keys) i ≡ some k'
          → get_elem? (r ∷ records) i ≡ some r'
          → find same k' grouping' ≡ some r'
      at_place grouping' records r k keys f all zero k' r' e e' = cc (e, e', f)
      at_place grouping' records r k keys f all (suc i) k' r' e e' = all i k' r' e e'

  -- In one frame, read with an empty grouping, two locations have the same record number exactly if
  -- their grouping keys are equal.
  pub gen_record_numbers_grouping-same :
      (keys : List K) (next i j : ℕ) (a b : K) (r q : ℕ)
      → get_elem? keys i ≡ some a
      → get_elem? keys j ≡ some b
      → get_elem? (gen_record_numbers_grouping same keys [] next).0 i ≡ some r
      → get_elem? (gen_record_numbers_grouping same keys [] next).0 j ≡ some q
      → (r == q) ≡ same a b
  gen_record_numbers_grouping-same keys next i j a b r q ea eb er eq =
      let (all_found, numbered, old) = records-find keys [] next tt in
      let fa = all_found i a r ea er in
      let fb = all_found j b q eb eq in
      elim (Bool-cases (same a b)) [
        | inl p ↦
            let w : a ≡ b = (same_iff a b).0 p in
            let v : some r ≡ some q =
              sym fa
              ∙ ap (λ k. find same k (gen_record_numbers_grouping same keys [] next).1) w
              ∙ fb in
            (==_iff r q).1 (ap (λ o. elim o [ none ↦ 0 | some z ↦ z ]) v) ∙ sym p
        | inr p ↦
            ==_ne r q (λ w. cc (
              p,
              (same_iff a b).1 (
                  find_injective a b (gen_record_numbers_grouping same keys [] next).1 _ r numbered
                    fa (fb ∙ ap some (sym w))),
            ))
            ∙ sym p
      ]
