-- ===== src/ObsSpace/Extend/Rising.antt =====
-- The global indices and record numbers that ObsSpace::extendObsSpace gives to companion locations.
use native.Mathlib.Nat.{mul-le-mul_right}
use ioda.Prelude.{
  ℕ, zero, suc, ◌+◌, ◌*◌, ◌<◌, ◌≤◌, ◌≡◌, sym, subst, Bool, true, List, [], ◌∷◌, ◌++◌, iota-All,
  iota-Rising, replicate, All, Rising, ok, arith,
}
use ioda.ObsSpace.Extend.{ReplicaDist, Extension, extend_records}
use ioda.ObsSpace.Extend.Index.{Fits, new_locs, new_recs, level_locs, extend_records-Appends}

pub All-imp : (P Q : ℕ → Type 0) → ((x : ℕ) → P x → Q x) → (xs : List ℕ) → All P xs → All Q xs
All-imp P Q f [] h = tt
All-imp P Q f (x ∷ xs) h = (f x h.0, All-imp P Q f xs h.1)

pub All-append : (P : ℕ → Type 0) (xs ys : List ℕ) → All P xs → All P ys → All P (xs ++ ys)
All-append P [] ys h g = g
All-append P (x ∷ xs) ys h g = (h.0, All-append P xs ys h.1 g)

Rising-append :
    (m : ℕ) (xs ys : List ℕ)
    → Rising xs
    → Rising ys
    → All (λ x. x < m) xs
    → All (λ y. m ≤ y) ys
    → Rising (xs ++ ys)
Rising-append m [] ys r s h g = s
Rising-append m (x ∷ xs) ys r s h g = (
  All-append (λ y. x < y) xs ys r.0
      (All-imp (λ y. m ≤ y) (λ y. x < y) (λ y l. omega (arith, h.0, l)) ys g),
  Rising-append m xs ys r.1 s h.1 g,
)

-- Records from `rec` on have indices from upper_locs + rec * nlevs on.
new_locs-above :
    (nlevs upper_locs rec : ℕ) (recs : List ℕ)
    → All (λ r. rec ≤ r) recs
    → All (λ g. upper_locs + rec * nlevs ≤ g) (new_locs nlevs upper_locs recs)
new_locs-above nlevs upper_locs rec [] h = tt
new_locs-above nlevs upper_locs rec (r ∷ recs) h =
    All-append (λ g. upper_locs + rec * nlevs ≤ g) (level_locs nlevs upper_locs r)
      (new_locs nlevs upper_locs recs)
      (iota-All (λ g. upper_locs + rec * nlevs ≤ g) (upper_locs + r * nlevs) nlevs
        (λ i a b. omega (arith, a, mul-le-mul_right nlevs h.0)))
      (new_locs-above nlevs upper_locs rec recs h.1)

pub new_locs-Rising :
    (nlevs upper_locs : ℕ) (recs : List ℕ) → Rising recs → Rising (new_locs nlevs upper_locs recs)
new_locs-Rising nlevs upper_locs [] h = tt
new_locs-Rising nlevs upper_locs (rec ∷ recs) h =
    Rising-append (upper_locs + suc rec * nlevs) (level_locs nlevs upper_locs rec)
      (new_locs nlevs upper_locs recs) (iota-Rising (upper_locs + rec * nlevs) nlevs)
      (new_locs-Rising nlevs upper_locs recs h.1)
      (iota-All (λ g. g < upper_locs + suc rec * nlevs) (upper_locs + rec * nlevs) nlevs
        (λ i a b. omega (arith, b)))
      (new_locs-above nlevs upper_locs (suc rec) recs
        (All-imp (λ r. rec < r) (λ r. suc rec ≤ r) (λ r l. l) recs h.0))

pub new_locs-below :
    (nlevs upper_locs upper_recs : ℕ) (recs : List ℕ)
    → All (λ r. r < upper_recs) recs
    → All (λ g. g < upper_locs + upper_recs * nlevs) (new_locs nlevs upper_locs recs)
new_locs-below nlevs upper_locs upper_recs [] h = tt
new_locs-below nlevs upper_locs upper_recs (r ∷ recs) h =
    All-append (λ g. g < upper_locs + upper_recs * nlevs) (level_locs nlevs upper_locs r)
      (new_locs nlevs upper_locs recs)
      (iota-All (λ g. g < upper_locs + upper_recs * nlevs) (upper_locs + r * nlevs) nlevs
        (λ i a b. omega (arith, b, mul-le-mul_right nlevs h.0)))
      (new_locs-below nlevs upper_locs upper_recs recs h.1)

replicate-All : (P : ℕ → Type 0) (n x : ℕ) → P x → All P (replicate n x)
replicate-All P zero x h = tt
replicate-All P (suc n) x h = (h, replicate-All P n x h)

new_recs-between :
    (nlevs upper_recs : ℕ) (recs : List ℕ)
    → All (λ r. r < upper_recs) recs
    → All (λ q. (upper_recs ≤ q) × (q < upper_recs + upper_recs)) (new_recs nlevs upper_recs recs)
new_recs-between nlevs upper_recs [] h = tt
new_recs-between nlevs upper_recs (r ∷ recs) h =
    All-append (λ q. (upper_recs ≤ q) × (q < upper_recs + upper_recs))
      (replicate nlevs (upper_recs + r)) (new_recs nlevs upper_recs recs)
      (replicate-All (λ q. (upper_recs ≤ q) × (q < upper_recs + upper_recs)) nlevs (upper_recs + r)
        (omega arith, omega (arith, h.0)))
      (new_recs-between nlevs upper_recs recs h.1)

-- The loop of extendObsSpace over rising record numbers below upper_recs, all of which dist_ has on the
-- rank and whose numbers fit into std::size_t, with a replica distribution that has those of its records
-- that it is given, from rising global indices below upper_locs and record numbers below upper_recs,
-- throws no exception. Afterwards the global indices still rise, so none occurs twice, and are below
-- upper_locs + upper_recs * nlevs, and the record numbers are below 2 * upper_recs.
pub extend_records-bounds :
    {S : Type 0} (k : ReplicaDist S) (nlevs num_original_locs upper_locs upper_recs : ℕ)
    (mine : ℕ → Bool)
    (assigned : (rec loc : ℕ) (s : S)
      → mine rec ≡ true
      → k.is_replica_record (k.assign_replica_record rec loc s) rec ≡ true)
    (recs : List ℕ) (e : Extension S)
    → All (λ rec. mine rec ≡ true) recs
    → All (Fits nlevs upper_locs upper_recs) recs
    → Rising recs
    → All (λ rec. rec < upper_recs) recs
    → Rising e.indx
    → All (λ g. g < upper_locs) e.indx
    → All (λ r. r < upper_recs) e.recnums
    → (e' : Extension S) × (extend_records k nlevs num_original_locs upper_locs upper_recs mine recs
          e
        ≡ ok e')
      × Rising e'.indx
      × All (λ g. g < upper_locs + upper_recs * nlevs) e'.indx
      × All (λ r. r < upper_recs + upper_recs) e'.recnums
extend_records-bounds k nlevs num_original_locs upper_locs upper_recs mine assigned recs e m f rr rb
      ir ib eb =
    let (a, ea, wa, ra, ia, ca, na) =
      extend_records-Appends k nlevs num_original_locs upper_locs upper_recs mine assigned recs e m
        f in
    let news = new_locs nlevs upper_locs recs in
    let above = new_locs-above nlevs upper_locs 0 recs (all_zero recs) in
    (
      a,
      ea,
      subst Rising (sym ia) (
          Rising-append upper_locs e.indx news ir (new_locs-Rising nlevs upper_locs recs rr) ib (
            All-imp (λ g. upper_locs + 0 * nlevs ≤ g) (λ g. upper_locs ≤ g)
              (λ g l. omega (arith, l)) news above)),
      subst (All (λ g. g < upper_locs + upper_recs * nlevs)) (sym ia) (
          All-append (λ g. g < upper_locs + upper_recs * nlevs) e.indx news
            (All-imp (λ g. g < upper_locs) (λ g. g < upper_locs + upper_recs * nlevs)
              (λ g l. omega (arith, l)) e.indx ib)
            (new_locs-below nlevs upper_locs upper_recs recs rb)),
      subst (All (λ r. r < upper_recs + upper_recs)) (sym ra) (
          All-append (λ r. r < upper_recs + upper_recs) e.recnums (new_recs nlevs upper_recs recs)
            (All-imp (λ r. r < upper_recs) (λ r. r < upper_recs + upper_recs)
              (λ r l. omega (arith, l)) e.recnums eb)
            (All-imp (λ q. (upper_recs ≤ q) × (q < upper_recs + upper_recs))
              (λ r. r < upper_recs + upper_recs) (λ r l. l.1) (new_recs nlevs upper_recs recs)
              (new_recs-between nlevs upper_recs recs rb))),
    )
  where
    all_zero : (xs : List ℕ) → All (λ r. 0 ≤ r) xs
    all_zero [] = tt
    all_zero (x ∷ xs) = (omega arith, all_zero xs)
