-- ===== src/Distribution/Replica/Consecutive.antt =====
-- ReplicaOfGeneralDistribution::computePatchLocs: the global indices it finds.
use ioda.Prelude.{
  ℕ, suc, ◌+◌, ◌≤◌, ◌<◌, ◌≡◌, ◌≢◌, refl, ap, sym, subst, ◌∙◌, inl, inr, Bool, true, false, List, [],
  ◌∷◌, ◌++◌, map, ◌==◌, ==_iff, ==_ne, Bool-cases, contains, if◌then◌else◌, length, get_elem?,
  get_elem?_inside, get_elem?-set_self, get_elem?-set_ne, length-set, length-replicate, get_or, set,
  replicate, concat, All, Distinct, Rising, Option, some, none, ok, wrap, mod-eq_of_lt, arith,
}
use ioda.Distribution.{Comm}
use ioda.Distribution.Replica.{
  Replica, next_global_loc, at_patch, unassigned, assign_consecutive, local_indices, finish_all,
  patch_locs, compute_replica_locs,
}

-- Where a number first stands in a list.
unfoldable pub position : ℕ → List ℕ → Option ℕ
position g [] = none
position g (x ∷ xs) =
    let rest = position g xs in
    if x == g then some 0 else elim rest [ none ↦ none | some p ↦ some (suc p) ]

abbrev pub place_of : ℕ → List ℕ → ℕ
place_of g xs = elim (position g xs) [ none ↦ 0 | some p ↦ p ]

pub position_absent : (g : ℕ) (xs : List ℕ) → All (λ x. g ≢ x) xs → position g xs ≡ none
unfolding position
position_absent g [] h = refl
position_absent g (x ∷ xs) h = rw (==_ne x g (λ e. h.0 (sym e)), position_absent g xs h.1) refl

pub contains-position :
    (g : ℕ) (xs : List ℕ)
    → contains g xs ≡ true
    → (p : ℕ) × (position g xs ≡ some p) × (p < length xs) × (get_elem? xs p ≡ some g)
unfolding position
contains-position g [] h = cc
contains-position g (x ∷ xs) h = elim (Bool-cases (x == g)) [
  | inl b ↦ (0, rw b refl, omega arith, ap some ((==_iff x g).0 b))
  | inr b ↦
      let n : (g == x) ≡ false = ==_ne g x (λ e. cc (b, (==_iff x g).1 (sym e))) in
      let (p, e, l, f) = contains-position g xs (rw n at h) in
      (suc p, rw (b, e) refl, omega (arith, l), f)
]

-- The entry of a location, found first in `locs` or as it was.
abbrev pub entry_after : Option ℕ → ℕ → Option ℕ → Option ℕ
entry_after none i old = old
entry_after (some p) i old = some (i + p)

assign_consecutive-position :
    (locs : List ℕ) (i : ℕ) (indices : List ℕ)
    → All (λ g. g < length indices) locs
    → Distinct locs
    → (out : List ℕ) × (length out ≡ length indices)
      × (assign_consecutive locs i indices ≡ ok out)
      × ((g : ℕ) → get_elem? out g ≡ entry_after (position g locs) i (get_elem? indices g))
unfolding assign_consecutive position
assign_consecutive-position [] i indices b d = (indices, refl, refl, λ g. refl)
assign_consecutive-position (x ∷ locs) i indices b d =
    let below = subst (λ n. All (λ g. g < n) locs) (sym (length-set indices x i)) b.1 in
    let (out, same, e, f) = assign_consecutive-position locs (suc i) (set indices x i) below d.1 in
    let (old, o) = get_elem?_inside indices x b.0 in
    (
      out,
      same ∙ length-set indices x i,
      rw o e,
      λ g. f g ∙ elim (Bool-cases (x == g)) [
        | inl q ↦
            let w : x ≡ g = (==_iff x g).0 q in
            let n = ap (λ y. position y locs) (sym w) ∙ position_absent x locs d.0 in
            let s =
              ap (λ y. get_elem? (set indices x i) y) (sym w)
              ∙ get_elem?-set_self indices x i b.0 in
            rw (n, q) (s ∙ ap some (omega arith))
        | inr q ↦
            let w : (x ≡ g → ⊥) = λ z. cc (q, (==_iff x g).1 z) in
            rw q (later (position g locs) (get_elem?-set_ne indices x g i w))
      ],
    )
  where
    later :
        (o : Option ℕ) {old new : Option ℕ}
        → new ≡ old
        → entry_after o (suc i) new
          ≡ entry_after (elim o [ none ↦ none | some p ↦ some (suc p) ]) i old
    later none e = e
    later (some p) e = ap some (omega arith)

local_indices-map :
    (indices locs : List ℕ) (f : ℕ → ℕ)
    → All (λ g. (get_elem? indices g ≡ some (f g)) × (f g < unassigned)) locs
    → local_indices indices locs ≡ ok (map f locs)
unfolding local_indices
local_indices-map indices [] f h = refl
local_indices-map indices (g ∷ locs) f h = rw (h.0.0) (
    rw (local_indices-map indices locs f h.1, ==_ne (f g) unassigned (λ e. omega (arith, h.0.1, e)))
      refl)

All-below : (m n : ℕ) (xs : List ℕ) → m ≤ n → All (λ g. g < m) xs → All (λ g. g < n) xs
All-below m n [] l h = tt
All-below m n (x ∷ xs) l h = (omega arith, All-below m n xs l h.1)

next_global_loc-lt :
    (xs : List ℕ) → Rising xs → All (λ g. g < unassigned) xs → All (λ g. g < next_global_loc xs) xs
unfolding next_global_loc
next_global_loc-lt [] r b = tt
next_global_loc-lt (x ∷ []) r b =
    let e : wrap (x + 1) ≡ x + 1 = mod-eq_of_lt (omega (arith, b.0)) in (omega (arith, e), tt)
next_global_loc-lt (x ∷ y ∷ xs) r b =
    let ih = next_global_loc-lt (y ∷ xs) r.1 b.1 in (omega (arith, ih.0, r.0.0), ih)

at_patch-All {ℓ} :
    (P : ℕ → Type ℓ) (xs : List ℕ) (patch : List Bool) → All P xs → All P (at_patch xs patch)
unfolding at_patch
at_patch-All P [] patch h = tt
at_patch-All P (x ∷ xs) [] h = tt
at_patch-All P (x ∷ xs) (true ∷ patch) h = (h.0, at_patch-All P xs patch h.1)
at_patch-All P (x ∷ xs) (false ∷ patch) h = at_patch-All P xs patch h.1

All-append {ℓ} : (P : ℕ → Type ℓ) (xs ys : List ℕ) → All P xs → All P ys → All P (xs ++ ys)
All-append P [] ys h g = g
All-append P (x ∷ xs) ys h g = (h.0, All-append P xs ys h.1 g)

pub gather-concat : (c : Comm) (xss : List (List ℕ)) → c.all_gatherv xss ≡ concat xss
gather-concat c [] = c.all_gatherv-nil
gather-concat c (xs ∷ xss) = c.all_gatherv-cons xs xss ∙ ap (λ l. xs ++ l) (gather-concat c xss)

abbrev pub gathered_locs : List Replica → List ℕ
gathered_locs ps = concat (map patch_locs ps)

-- The state of a rank after assignRecord: the global locations rise, and each has its mark.
abbrev pub IsReplica : Replica → Type 0
IsReplica p =
    (length p.is_my_patch_obs ≡ length p.my_global_locs)
    × Rising p.my_global_locs
    × All (λ g. g < unassigned) p.my_global_locs

pub held_locs-lt :
    (ps : List Replica) (n : ℕ)
    → All IsReplica ps
    → ((r : ℕ)
        → r < length (map (λ p. next_global_loc p.my_global_locs) ps)
        → get_or (map (λ p. next_global_loc p.my_global_locs) ps) r 0 ≤ n)
    → All (λ p. All (λ g. g < n) p.my_global_locs) ps
held_locs-lt [] n w h = tt
held_locs-lt (p ∷ ps) n w h = (
  All-below (next_global_loc p.my_global_locs) n p.my_global_locs (h 0 (omega arith))
      (next_global_loc-lt p.my_global_locs w.0.1 w.0.2),
  held_locs-lt ps n w.1 (λ r l. h (suc r) (omega arith)),
)

patch_locs-lt :
    (ps : List Replica) (n : ℕ)
    → All (λ p. All (λ g. g < n) p.my_global_locs) ps
    → All (λ g. g < n) (concat (map patch_locs ps))
patch_locs-lt [] n h = tt
patch_locs-lt (p ∷ ps) n h =
    All-append (λ g. g < n) (patch_locs p) (concat (map patch_locs ps))
      (at_patch-All (λ g. g < n) p.my_global_locs p.is_my_patch_obs h.0) (patch_locs-lt ps n h.1)

-- A rank after computePatchLocs, `f` being the index of a global location.
abbrev pub finished : (ℕ → ℕ) → Replica → Replica
finished f p = record p {
  global_unique_consecutive_loc_indices = map f p.my_global_locs;
  master_patch_records = [];
  my_global_locs = [];
}

finish_all-map :
    (indices : List ℕ) (ps : List Replica) (f : ℕ → ℕ)
    → All
        (λ p. All (λ g. (get_elem? indices g ≡ some (f g)) × (f g < unassigned)) p.my_global_locs)
        ps
    → finish_all indices ps ≡ ok (map (finished f) ps)
unfolding finish_all
finish_all-map indices [] f h = refl
finish_all-map indices (p ∷ ps) f h =
    rw (local_indices-map indices p.my_global_locs f h.0, finish_all-map indices ps f h.1) refl

-- The entry of a location is its place among `gs`.
abbrev IsFound : List ℕ → List ℕ → ℕ → Type 0
IsFound gs out g = (get_elem? out g ≡ some (place_of g gs)) × (place_of g gs < unassigned)

module _ (gs start out : List ℕ)
    (f : (g : ℕ) → get_elem? out g ≡ entry_after (position g gs) 0 (get_elem? start g))
    (l : length gs < unassigned) where
  contains-IsFound : (g : ℕ) → contains g gs ≡ true → IsFound gs out g
  contains-IsFound g h =
      let (p, e, b, q) = contains-position g gs h in
      let w : place_of g gs ≡ p = ap (λ o. elim o [ none ↦ 0 | some i ↦ i ]) e in
      (
        f g ∙ ap (λ o. entry_after o 0 (get_elem? start g)) e ∙ ap some (omega (arith, w)),
        omega (arith, w, b, l),
      )

  All-contained : (locs : List ℕ) → All (λ g. contains g gs ≡ true) locs → All (IsFound gs out) locs
  All-contained [] h = tt
  All-contained (g ∷ locs) h = (contains-IsFound g h.0, All-contained locs h.1)

  All-IsFound :
      (qs : List Replica)
      → All (λ q. All (λ g. contains g gs ≡ true) q.my_global_locs) qs
      → All (λ q. All (IsFound gs out) q.my_global_locs) qs
  All-IsFound [] h = tt
  All-IsFound (q ∷ qs) h = (All-contained q.my_global_locs h.0, All-IsFound qs h.1)

-- The table of computePatchLocs, from one that has room for all locations held.
pub assigned_from :
    (n : ℕ) (ps : List Replica)
    → All (λ p. All (λ g. g < n) p.my_global_locs) ps
    → Distinct (gathered_locs ps)
    → (out : List ℕ) × (length out ≡ n)
      × (assign_consecutive (gathered_locs ps) 0 (replicate n unassigned) ≡ ok out)
      × ((g : ℕ)
          → get_elem? out g
            ≡ entry_after (position g (gathered_locs ps)) 0 (get_elem? (replicate n unassigned) g))
assigned_from n ps below d =
    let start = replicate n unassigned in
    let room = sym (length-replicate n unassigned) in
    let below' = subst (λ m. All (λ g. g < m) (gathered_locs ps)) room (patch_locs-lt ps n below) in
    let (out, same, e, f) = assign_consecutive-position (gathered_locs ps) 0 start below' d in
    (out, same ∙ length-replicate n unassigned, e, f)

-- All global locations that a rank holds are in the list.
abbrev pub Covered : List ℕ → Replica → Type 0
Covered gathered p = All (λ g. contains g gathered ≡ true) p.my_global_locs

-- computePatchLocs on all ranks, each with rising global locations: if no location is in the patch of
-- two ranks and each location that a rank holds is in the patch of some rank, it throws nothing, and
-- the index of every location held is the place of its global location among the patch locations of
-- all ranks in their order.
pub compute_replica_locs-indices :
    (c : Comm) (ps : List Replica)
    → All IsReplica ps
    → Distinct (gathered_locs ps)
    → length (gathered_locs ps) < unassigned
    → All (Covered (gathered_locs ps)) ps
    → compute_replica_locs c ps ≡ ok (map (finished (λ g. place_of g (gathered_locs ps))) ps)
unfolding compute_replica_locs
compute_replica_locs-indices c ps w d l h =
    let nexts = map (λ (p : Replica). next_global_loc p.my_global_locs) ps in
    let n = c.all_reduce_max nexts in
    let below = held_locs-lt ps n w (c.le-all_reduce_max nexts) in
    let start = replicate n unassigned in
    let (out, length-out, e, f) = assigned_from n ps below d in
    rw (gather-concat c (map patch_locs ps)) (
      rw e (
        finish_all-map out ps (λ g. place_of g (gathered_locs ps))
          (All-IsFound (gathered_locs ps) start out f l ps h)))
