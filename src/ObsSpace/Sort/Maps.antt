-- ===== src/ObsSpace/Sort/Maps.antt =====
-- The second and the last loop of ObsSpace::buildSortedObsGroups, record by record.
use ioda.Prelude.{
  ℕ, ◌≤◌, ◌≡◌, refl, ap, sym, ◌∙◌, inl, inr, Bool, List, [], ◌∷◌, ◌++◌, some, none, ltb, ltb→lt,
  ◌==◌, ==_iff, Bool-cases, Result, ok, if◌then◌else◌, arith,
}
use ioda.ObsSpace.OrderedMap.{
  lookup, modify, push_all, assign, lookup_below, lookup_here, lookup_later, lookup-modify,
  lookup-modify_ne,
}
use ioda.ObsSpace.RecIdx.{RecIdx}
use ioda.ObsSpace.Sort.{sort_records, copy_records}

-- The keys of the entries ascend.
abbrev pub Ascending {ℓ} : {V : Type ℓ} → List (ℕ × V) → Type ℓ
Ascending [] = Unit
Ascending ((k, v) ∷ m) = ((r : ℕ) → r ≤ k → lookup r m ≡ none) × Ascending m

modify-Ascending {ℓ} :
    {V : Type ℓ} (k : ℕ) (initial : V) (f : V → V) (m : List (ℕ × V))
    → Ascending m
    → Ascending (modify k initial f m)
unfolding modify lookup
modify-Ascending k initial f [] h = ((λ r l. refl), tt)
modify-Ascending k initial f ((j, v) ∷ m) h = elim (Bool-cases (ltb k j)) [
  | inl b ↦ rw b ((λ r l. lookup_below r j v m (omega (arith, ltb→lt k j b, l))), h)
  | inr b ↦ elim (Bool-cases (k == j)) [
    | inl e ↦ rw (b, e) h
    | inr e ↦
        rw (b, e)
          (
            (λ r l. lookup-modify_ne k r initial f m (λ q. ground arith) ∙ h.0 r l),
            modify-Ascending k initial f m h.1,
          )
  ]
]

pub push_all-Ascending {ℓ} :
    {A : Type ℓ} (kxs : List (ℕ × A)) (m : List (ℕ × List A))
    → Ascending m
    → Ascending (push_all kxs m)
unfolding push_all
push_all-Ascending [] m h = h
push_all-Ascending ((k, x) ∷ kxs) m h =
    push_all-Ascending kxs _ (modify-Ascending k [] (λ xs. xs ++ x ∷ []) m h)

module _ {V : Type 0} where
  pub lookup-sort_records :
      (sort : List (V × ℕ) → List (V × ℕ)) (skip : ℕ → Bool) (r : ℕ) (tmp : List (ℕ × List (V × ℕ)))
      → lookup r (sort_records sort skip tmp) ≡ elim (lookup r tmp) [
        | none ↦ none
        | some pairs ↦ some (if skip r then pairs else sort pairs)
      ]
  unfolding lookup sort_records
  lookup-sort_records sort skip r [] = refl
  lookup-sort_records sort skip r ((k, pairs) ∷ tmp) = elim (Bool-cases (ltb r k)) [
    | inl b ↦ rw b refl
    | inr b ↦ elim (Bool-cases (r == k)) [
      | inl e ↦ let q : r ≡ k = (==_iff r k).0 e in rw (b, e, q) refl
      | inr e ↦ rw (b, e) (lookup-sort_records sort skip r tmp)
    ]
  ]

  pub sort_records-Ascending :
      (sort : List (V × ℕ) → List (V × ℕ)) (skip : ℕ → Bool) (tmp : List (ℕ × List (V × ℕ)))
      → Ascending tmp
      → Ascending (sort_records sort skip tmp)
  unfolding sort_records
  sort_records-Ascending sort skip [] h = tt
  sort_records-Ascending sort skip ((k, pairs) ∷ tmp) h = (
    (λ r l. lookup-sort_records sort skip r tmp ∙ rw (h.0 r l) refl),
    sort_records-Ascending sort skip tmp h.1,
  )

  entry_later :
      (r k : ℕ) (pairs ps : List (V × ℕ)) (tmp : List (ℕ × List (V × ℕ)))
      → (r ≤ k → lookup r tmp ≡ none)
      → lookup r tmp ≡ some ps
      → lookup r ((k, pairs) ∷ tmp) ≡ some ps
  entry_later r k pairs ps tmp h q = elim (Bool-cases (ltb k r)) [
    | inl b ↦ lookup_later r k pairs tmp (ltb→lt k r b) ∙ q
    | inr b ↦ let e = h (ground arith) in cc
  ]

  assigned :
      (index : ℕ → List (V × ℕ) → Result (List ℕ)) (f : ℕ → List (V × ℕ) → List ℕ) (r k : ℕ)
      (pairs : List (V × ℕ)) (tmp : List (ℕ × List (V × ℕ))) (recidx : RecIdx)
      → (r ≤ k → lookup r tmp ≡ none)
      → elim (lookup r tmp) [
        | none ↦ lookup r (assign k (f k pairs) recidx)
        | some ps ↦ some (f r ps)
      ]
        ≡ elim (lookup r ((k, pairs) ∷ tmp)) [ none ↦ lookup r recidx | some ps ↦ some (f r ps) ]
  assigned index f r k pairs tmp recidx h = elim (Bool-cases (r == k)) [
    | inl b ↦
        let q : r ≡ k = (==_iff r k).0 b in
        let n = h (omega (arith, q)) in
        let i = ap (λ j. lookup j ((k, pairs) ∷ tmp)) q ∙ lookup_here k pairs tmp in
        let m =
          ap (λ j. lookup j (assign k (f k pairs) recidx)) q
          ∙ lookup-modify k (f k pairs) (λ _. f k pairs) recidx in
        rw (n, i) (m ∙ ap (λ j. some (f j pairs)) (sym q))
    | inr b ↦
        let d : (k ≡ r → ⊥) = λ q. cc (b, (==_iff r k).1 (sym q)) in
        let m = lookup-modify_ne k r (f k pairs) (λ _. f k pairs) recidx d in
        elim (Bool-cases (ltb r k)) [
          | inl l ↦
              rw (h (omega (arith, ltb→lt r k l)), lookup_below r k pairs tmp (ltb→lt r k l)) m
          | inr l ↦
              rw (lookup_later r k pairs tmp (ground (arith, d)))
                (ap (λ w. elim (lookup r tmp) [ none ↦ w | some ps ↦ some (f r ps) ]) m)
        ]
  ]

  -- If every record has an index, the last loop stores it.
  pub copy_records-lookup :
      (index : ℕ → List (V × ℕ) → Result (List ℕ)) (f : ℕ → List (V × ℕ) → List ℕ)
      (tmp : List (ℕ × List (V × ℕ))) (recidx : RecIdx)
      → Ascending tmp
      → ((r : ℕ) (pairs : List (V × ℕ))
          → lookup r tmp ≡ some pairs
          → index r pairs ≡ ok (f r pairs))
      → (out : RecIdx) × (copy_records index tmp recidx ≡ ok out)
        × ((r : ℕ)
            → lookup r out
              ≡ elim (lookup r tmp) [ none ↦ lookup r recidx | some pairs ↦ some (f r pairs) ])
  unfolding copy_records lookup
  copy_records-lookup index f [] recidx up h = (recidx, refl, λ r. refl)
  copy_records-lookup index f ((k, pairs) ∷ tmp) recidx up h =
      let (out, e, g) =
        copy_records-lookup index f tmp (assign k (f k pairs) recidx) up.1
          (λ r ps q. h r ps (entry_later r k pairs ps tmp (up.0 r) q)) in
      (
        out,
        rw (h k pairs (lookup_here k pairs tmp)) e,
        λ r. g r ∙ assigned index f r k pairs tmp recidx (up.0 r),
      )
