-- ===== src/ObsSpace/Extend/Index.antt =====
-- The index of the records through the loop of ObsSpace::extendObsSpace.
use mathlib.Core.List.{append_assoc, append-nil}
use ioda.Prelude.{
  ℕ, zero, suc, ◌+◌, ◌*◌, ◌<◌, ◌≤◌, ◌≡◌, refl, ap, ap₂, sym, subst, ◌∙◌, inl, inr, Bool, true, List,
  [], ◌∷◌, ◌++◌, map, length, length-replicate, concat, iota, replicate, All, if◌then◌else◌, ◌==◌,
  ==_iff, Bool-cases, ok, wrap, size_mod, mod-eq_of_lt, arith,
}
use ioda.ObsSpace.OrderedMap.{lookup, modify, push_back, or_else, lookup-modify, lookup-modify_ne}
use ioda.ObsSpace.RecIdx.{RecIdx, locations_of}
use ioda.ObsSpace.Extend.{
  ReplicaDist, Extension, extend_level, extend_levels, start_record, extend_records,
}

abbrev pub vector_of : ℕ → RecIdx → List ℕ
vector_of r recidx = or_else [] (lookup r recidx)

-- Every record number's vector gets the places, from place i on, that it has in recs; an entry that is
-- not there counts as an empty vector.
abbrev pub Appends : ℕ → List ℕ → RecIdx → RecIdx → Type 0
Appends i recs before after =
    (r : ℕ) → vector_of r after ≡ vector_of r before ++ locations_of r i recs

locations_of-append :
    (r i : ℕ) (xs ys : List ℕ)
    → locations_of r i (xs ++ ys) ≡ locations_of r i xs ++ locations_of r (i + length xs) ys
unfolding locations_of
locations_of-append r i [] ys = rw (let e : i + 0 ≡ i = omega arith in e) refl
locations_of-append r i (x ∷ xs) ys =
    let e : i + suc (length xs) ≡ suc i + length xs = omega arith in
    elim (Bool-cases (x == r)) [
      | inl b ↦ rw (b, e) (ap (λ l. i ∷ l) (locations_of-append r (suc i) xs ys))
      | inr b ↦ rw (b, e) (locations_of-append r (suc i) xs ys)
    ]

Appends-append :
    (i j : ℕ) (xs ys : List ℕ) (a b c : RecIdx)
    → j ≡ i + length xs
    → Appends i xs a b
    → Appends j ys b c
    → Appends i (xs ++ ys) a c
Appends-append i j xs ys a b c e f g r =
    g r
    ∙ ap₂ (λ l k. l ++ locations_of r k ys) (f r) e
    ∙ append_assoc (vector_of r a) (locations_of r i xs) (locations_of r (i + length xs) ys)
    ∙ ap (λ l. vector_of r a ++ l) (sym (locations_of-append r i xs ys))

Appends-nil : (i : ℕ) (a : RecIdx) → Appends i [] a a
unfolding locations_of
Appends-nil i a r = sym (append-nil (vector_of r a))

vector_of-modify :
    (r k : ℕ) (f : List ℕ → List ℕ) (recidx : RecIdx)
    → vector_of r (modify k [] f recidx)
      ≡ (if k == r then f (vector_of r recidx) else vector_of r recidx)
vector_of-modify r k f recidx = elim (Bool-cases (k == r)) [
  | inl b ↦
      let e : k ≡ r = (==_iff k r).0 b in
      rw b (
        subst (λ x. vector_of x (modify k [] f recidx) ≡ f (vector_of x recidx)) e
          (ap (or_else []) (lookup-modify k [] f recidx)))
  | inr b ↦
      let n : (k ≡ r → ⊥) = λ e. cc (b, (==_iff k r).1 e) in
      rw b (ap (or_else []) (lookup-modify_ne k r [] f recidx n))
]

-- A location more.
push_back-Appends : (i q : ℕ) (recidx : RecIdx) → Appends i (q ∷ []) recidx (push_back q i recidx)
unfolding locations_of
push_back-Appends i q recidx r =
    vector_of-modify r q (λ xs. xs ++ i ∷ []) recidx ∙ elim (Bool-cases (q == r)) [
      | inl b ↦ rw b refl
      | inr b ↦ rw b (sym (append-nil (vector_of r recidx)))
    ]

start-Appends :
    (i q : ℕ) (recidx : RecIdx) → Appends i [] recidx (modify q [] (λ locs. locs) recidx)
unfolding locations_of
start-Appends i q recidx r =
    vector_of-modify r q (λ locs. locs) recidx ∙ elim (Bool-cases (q == r)) [
      | inl b ↦ rw b (sym (append-nil (vector_of r recidx)))
      | inr b ↦ rw b (sym (append-nil (vector_of r recidx)))
    ]

-- The numbers that the loop appends for a record, and for several.
abbrev pub level_locs : ℕ → ℕ → ℕ → List ℕ
level_locs nlevs upper_locs rec = iota (upper_locs + rec * nlevs) nlevs

abbrev pub new_locs : ℕ → ℕ → List ℕ → List ℕ
new_locs nlevs upper_locs recs = concat (map (level_locs nlevs upper_locs) recs)

abbrev pub new_recs : ℕ → ℕ → List ℕ → List ℕ
new_recs nlevs upper_recs recs = concat (map (λ rec. replicate nlevs (upper_recs + rec)) recs)

-- The numbers of a record fit into std::size_t.
abbrev pub Fits : ℕ → ℕ → ℕ → ℕ → Type 0
Fits nlevs upper_locs upper_recs rec =
    (upper_locs + (rec * nlevs + nlevs) ≤ size_mod) × (upper_recs + rec < size_mod)

module _ {S : Type 0} (k : ReplicaDist S) (nlevs num_original_locs upper_locs upper_recs : ℕ)
    (mine : ℕ → Bool)
    (assigned : (rec loc : ℕ) (s : S)
      → mine rec ≡ true
      → k.is_replica_record (k.assign_replica_record rec loc s) rec ≡ true) where
  extend_level-Appends :
      (rec ilev : ℕ) (e : Extension S)
      → Fits nlevs upper_locs upper_recs rec
      → mine rec ≡ true
      → ilev < nlevs
      → (e' : Extension S) × (extend_level k nlevs num_original_locs upper_locs upper_recs rec ilev
            e
          ≡ ok e')
        × Appends (num_original_locs + e.companion_loc) ((upper_recs + rec) ∷ []) e.recidx e'.recidx
        × (e'.recnums ≡ e.recnums ++ (upper_recs + rec) ∷ [])
        × (e'.indx ≡ e.indx ++ (upper_locs + rec * nlevs + ilev) ∷ [])
        × (e'.companion_loc ≡ e.companion_loc + 1)
        × (e'.nrecs ≡ e.nrecs)
  unfolding extend_level
  extend_level-Appends rec ilev e f m l =
      let g : wrap (upper_recs + rec) ≡ upper_recs + rec = mod-eq_of_lt f.1 in
      let c : wrap (rec * nlevs + ilev) ≡ rec * nlevs + ilev = mod-eq_of_lt (omega (arith, f.0)) in
      let d : wrap (upper_locs + (rec * nlevs + ilev)) ≡ upper_locs + rec * nlevs + ilev =
        mod-eq_of_lt (omega (arith, f.0)) ∙ omega arith in
      let q = upper_recs + rec in
      (
        record e {
          recnums = e.recnums ++ q ∷ [];
          indx = e.indx ++ (upper_locs + rec * nlevs + ilev) ∷ [];
          recidx = push_back q (num_original_locs + e.companion_loc) e.recidx;
          companion_loc = e.companion_loc + 1;
          replica = k.assign_replica_record rec (wrap (rec * nlevs + ilev)) e.replica;
        },
        rw (assigned rec (wrap (rec * nlevs + ilev)) e.replica m) (rw (g, c, d) refl),
        push_back-Appends (num_original_locs + e.companion_loc) q e.recidx,
        refl,
        refl,
        refl,
        refl,
      )

  -- `left` levels from ilev on.
  extend_levels-Appends :
      (rec ilev left : ℕ) (e : Extension S)
      → Fits nlevs upper_locs upper_recs rec
      → mine rec ≡ true
      → ilev + left ≤ nlevs
      → (e' : Extension S) × (extend_levels k nlevs num_original_locs upper_locs upper_recs rec ilev
            left e
          ≡ ok e')
        × Appends
            (num_original_locs + e.companion_loc)
            (replicate left (upper_recs + rec))
            e.recidx
            e'.recidx
        × (e'.recnums ≡ e.recnums ++ replicate left (upper_recs + rec))
        × (e'.indx ≡ e.indx ++ iota (upper_locs + rec * nlevs + ilev) left)
        × (e'.companion_loc ≡ e.companion_loc + left)
        × (e'.nrecs ≡ e.nrecs)
  unfolding extend_levels
  extend_levels-Appends rec ilev zero e f m l = (
    e,
    refl,
    Appends-nil (num_original_locs + e.companion_loc) e.recidx,
    sym (append-nil e.recnums),
    sym (append-nil e.indx),
    omega arith,
    refl,
  )
  extend_levels-Appends rec ilev (suc left) e f m l =
      let (a, ea, wa, ra, ia, ca, na) = extend_level-Appends rec ilev e f m (omega arith) in
      let (b, eb, wb, rb, ib, cb, nb) =
        extend_levels-Appends rec (suc ilev) left a f m (omega (arith, l)) in
      let q = upper_recs + rec in
      let g = upper_locs + rec * nlevs + ilev in
      let g' : upper_locs + rec * nlevs + suc ilev ≡ suc g = omega arith in
      let i = num_original_locs + e.companion_loc in
      (
        b,
        rw ea eb,
        Appends-append i (num_original_locs + a.companion_loc) (q ∷ []) (replicate left q) e.recidx
            a.recidx b.recidx (omega (arith, ca)) wa wb,
        rb
            ∙ ap (λ x. x ++ replicate left q) ra
            ∙ append_assoc e.recnums (q ∷ []) (replicate left q),
        ib ∙ ap₂ (λ x y. x ++ iota y left) ia g' ∙ append_assoc e.indx (g ∷ []) (iota (suc g) left),
        omega (arith, ca, cb),
        nb ∙ na,
      )

  -- The loop over original records, all of which dist_ has on the rank and whose numbers fit into
  -- std::size_t, with a replica distribution that has those of its records that it is given, throws no
  -- exception, whatever is in recidx_ before. For each record in their order, and each of nlevs levels,
  -- it appends one location, with the record number moved by upper_recs and the global index
  -- upper_locs + rec * nlevs + ilev. recidx_ gets, behind what it has for each record number, the local
  -- places of the new locations with that number, counted from num_original_locs + companion_loc on.
  pub extend_records-Appends :
      (recs : List ℕ) (e : Extension S)
      → All (λ rec. mine rec ≡ true) recs
      → All (Fits nlevs upper_locs upper_recs) recs
      → (e' : Extension S) × (extend_records k nlevs num_original_locs upper_locs upper_recs mine
            recs e
          ≡ ok e')
        × Appends
            (num_original_locs + e.companion_loc)
            (new_recs nlevs upper_recs recs)
            e.recidx
            e'.recidx
        × (e'.recnums ≡ e.recnums ++ new_recs nlevs upper_recs recs)
        × (e'.indx ≡ e.indx ++ new_locs nlevs upper_locs recs)
        × (e'.companion_loc ≡ e.companion_loc + length recs * nlevs)
        × (e'.nrecs ≡ e.nrecs + length recs)
  unfolding extend_records start_record
  extend_records-Appends [] e m f = (
    e,
    refl,
    Appends-nil (num_original_locs + e.companion_loc) e.recidx,
    sym (append-nil e.recnums),
    sym (append-nil e.indx),
    omega arith,
    omega arith,
  )
  extend_records-Appends (rec ∷ recs) e m f =
      let q = wrap (upper_recs + rec) in
      let s = start_record k nlevs num_original_locs upper_locs upper_recs rec e in
      let (a, ea, wa, ra, ia, ca, na) = extend_levels-Appends rec 0 nlevs s f.0 m.0 (omega arith) in
      let (b, eb, wb, rb, ib, cb, nb) = extend_records-Appends recs a m.1 f.1 in
      let g : upper_locs + rec * nlevs + 0 ≡ upper_locs + rec * nlevs = omega arith in
      let i = num_original_locs + e.companion_loc in
      let news = replicate nlevs (upper_recs + rec) in
      let len = length-replicate nlevs (upper_recs + rec) in
      let wa' =
        Appends-append i i [] news e.recidx s.recidx a.recidx (omega arith)
          (start-Appends i q e.recidx) wa in
      (
        b,
        rw m.0 (rw ea eb),
        Appends-append i (num_original_locs + a.companion_loc) news (new_recs nlevs upper_recs recs)
            e.recidx a.recidx b.recidx (omega (arith, ca, len)) wa' wb,
        rb
            ∙ ap (λ x. x ++ new_recs nlevs upper_recs recs) ra
            ∙ append_assoc e.recnums news (new_recs nlevs upper_recs recs),
        ib
            ∙ ap (λ x. x ++ new_locs nlevs upper_locs recs)
                (ia ∙ ap (λ y. e.indx ++ iota y nlevs) g)
            ∙ append_assoc e.indx (level_locs nlevs upper_locs rec)
                (new_locs nlevs upper_locs recs),
        omega (arith, ca, cb),
        omega (arith, na, nb),
      )
