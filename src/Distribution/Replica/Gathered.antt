-- ===== src/Distribution/Replica/Gathered.antt =====
-- ReplicaOfGeneralDistribution after computePatchLocs: allGatherv, the global indices and the sums.
use mathlib.Core.List.{append_assoc}
use mathlib.Core.Option.{some-injective}
use ioda.Prelude.{
  ℕ, zero, suc, ◌+◌, ◌<◌, ◌≡◌, refl, ap, ap₂, sym, subst, ◌∙◌, Bool, true, false, List, [], ◌∷◌,
  ◌++◌, map, ==_iff, contains, if◌then◌else◌, length, get_elem?, get_or, length-map, length-snoc,
  concat, sum, sum-append, All, Distinct, some, none, ok, at-middle, wrap, arith,
}
use ioda.Distribution.{Comm, Term}
use ioda.Distribution.Replica.{
  Replica, unassigned, at_patch, patch_locs, replica_sizes_match, gather_patches,
  replica_of_general, compute_replica_locs, general_terms, add_patch_terms, replica_index,
}
use ioda.Distribution.Replica.Consecutive.{
  IsReplica, gathered_locs, finished, place_of, contains-position, gather-concat, Covered,
  compute_replica_locs-indices,
}

-- The vectors of all ranks that hold f of each global location.
abbrev pub values_at : (ℕ → ℕ) → List Replica → List (List ℕ)
values_at f ps = map (λ p. map f p.my_global_locs) ps

at_patch-map :
    (f : ℕ → ℕ) (xs : List ℕ) (patch : List Bool)
    → at_patch (map f xs) patch ≡ map f (at_patch xs patch)
unfolding at_patch
at_patch-map f [] patch = refl
at_patch-map f (x ∷ xs) [] = refl
at_patch-map f (x ∷ xs) (true ∷ patch) = ap (λ l. f x ∷ l) (at_patch-map f xs patch)
at_patch-map f (x ∷ xs) (false ∷ patch) = at_patch-map f xs patch

map-append : (f : ℕ → ℕ) (xs ys : List ℕ) → map f (xs ++ ys) ≡ map f xs ++ map f ys
map-append f [] ys = refl
map-append f (x ∷ xs) ys = ap (λ l. f x ∷ l) (map-append f xs ys)

gather_patches-values :
    (f h : ℕ → ℕ) (ps : List Replica)
    → concat (gather_patches (map (finished h) ps) (values_at f ps)) ≡ map f (gathered_locs ps)
unfolding gather_patches
gather_patches-values f h [] = refl
gather_patches-values f h (p ∷ ps) =
    ap₂ ◌++◌ (at_patch-map f p.my_global_locs p.is_my_patch_obs) (gather_patches-values f h ps)
    ∙ sym (map-append f (patch_locs p) (gathered_locs ps))

sizes_match-values :
    (f h : ℕ → ℕ) (ps : List Replica)
    → All IsReplica ps
    → replica_sizes_match (map (finished h) ps) (values_at f ps) ≡ true
unfolding replica_sizes_match
sizes_match-values f h [] w = refl
sizes_match-values f h (p ∷ ps) w =
    let e = length-map f p.my_global_locs ∙ sym w.0.0 in
    rw ((==_iff (length (map f p.my_global_locs)) (length p.is_my_patch_obs)).1 e)
      (sizes_match-values f h ps w.1)

replica_index-finished :
    (h : ℕ → ℕ) (past_end : ℕ) (ps : List Replica) (r loc g : ℕ) (p : Replica)
    → get_elem? ps r ≡ some p
    → get_elem? p.my_global_locs loc ≡ some g
    → replica_index past_end (map (finished h) ps) r loc ≡ h g
replica_index-finished h past_end [] r loc g p e q = cc
replica_index-finished h past_end (x ∷ ps) zero loc g p e q =
    let w : x ≡ p = ap (λ o. elim o [ none ↦ x | some y ↦ y ]) e in
    ap (λ y. get_or (map h y.my_global_locs) loc past_end) w ∙ mapped p.my_global_locs loc q
  where
    mapped : (xs : List ℕ) (i : ℕ) → get_elem? xs i ≡ some g → get_or (map h xs) i past_end ≡ h g
    mapped [] i q = cc
    mapped (y ∷ ys) zero q = ap (λ o. elim o [ none ↦ h g | some z ↦ h z ]) q
    mapped (y ∷ ys) (suc i) q = mapped ys i q
replica_index-finished h past_end (x ∷ ps) (suc r) loc g p e q =
    replica_index-finished h past_end ps r loc g p e q

pub All-at {ℓ κ} :
    {A : Type ℓ} (P : A → Type κ) (xs : List A) (i : ℕ) (a : A)
    → All P xs
    → get_elem? xs i ≡ some a
    → P a
All-at P [] i a h e = cc
All-at P (x ∷ xs) zero a h e = subst P (some-injective x a e) h.0
All-at P (x ∷ xs) (suc i) a h e = All-at P xs i a h.1 e

get_elem?-map :
    (f : ℕ → ℕ) (xs : List ℕ) (i g : ℕ)
    → get_elem? xs i ≡ some g
    → get_elem? (map f xs) i ≡ some (f g)
get_elem?-map f [] i g e = cc
get_elem?-map f (x ∷ xs) zero g e = ap (λ o. elim o [ none ↦ none | some z ↦ some (f z) ]) e
get_elem?-map f (x ∷ xs) (suc i) g e = get_elem?-map f xs i g e

-- On ranks whose global locations rise, are below 2 ^ 64 - 1 and have a mark each, where no location is
-- in the patch of two ranks, each location held is in the patch of some rank, and fewer than 2 ^ 64 - 1
-- locations are in a patch, computePatchLocs throws nothing. After it, when every rank passes f of
-- each global location that it holds to allGatherv, all ranks receive one vector, with f of each patch
-- location once in it, and at the global index of any location of any rank that vector has f of that
-- location.
pub replica_all_gatherv-index :
    (c : Comm) (past_end : ℕ) (ps : List Replica) (f : ℕ → ℕ) (r loc g : ℕ) (p : Replica)
    → All IsReplica ps
    → Distinct (gathered_locs ps)
    → length (gathered_locs ps) < unassigned
    → All (Covered (gathered_locs ps)) ps
    → get_elem? ps r ≡ some p
    → get_elem? p.my_global_locs loc ≡ some g
    → (qs : List Replica) × (compute_replica_locs c ps ≡ ok qs)
      × ((replica_of_general c past_end qs).all_gatherv (values_at f ps)
          ≡ ok (map (λ _. map f (gathered_locs ps)) (values_at f ps)))
      × (get_elem?
            (map f (gathered_locs ps))
            ((replica_of_general c past_end qs).global_unique_consecutive_location_index r loc)
          ≡ some (f g))
unfolding replica_of_general
replica_all_gatherv-index c past_end ps f r loc g p w d l h e q =
    let index : ℕ → ℕ = λ y. place_of y (gathered_locs ps) in
    let qs = map (finished index) ps in
    let covered =
      All-at (λ y. contains y (gathered_locs ps) ≡ true) p.my_global_locs loc g
        (All-at (Covered (gathered_locs ps)) ps r p h e) q in
    let (place, at_place, below, there) = contains-position g (gathered_locs ps) covered in
    (
      qs,
      compute_replica_locs-indices c ps w d l h,
      rw (sizes_match-values f index ps w) (
          ap (λ v. ok (map (λ _. v) (values_at f ps)))
            (gather-concat c (gather_patches qs (values_at f ps))
              ∙ gather_patches-values f index ps)),
      ap (get_elem? (map f (gathered_locs ps))) (
            replica_index-finished index past_end ps r loc g p e q
            ∙ ap (λ o. elim o [ none ↦ 0 | some i ↦ i ]) at_place)
          ∙ get_elem?-map f (gathered_locs ps) place g there,
    )

-- A term for each location of a rank, in their order.
abbrev pub terms_from : ℕ → List ℕ → List Term
terms_from loc [] = []
terms_from loc (x ∷ xs) = (loc, x) ∷ terms_from (suc loc) xs

abbrev pub all_terms : (ℕ → ℕ) → List Replica → List (List Term)
all_terms f ps = map (λ p. terms_from 0 (map f p.my_global_locs)) ps

add_patch_terms-at_patch :
    (done rest : List Bool) (acc : ℕ) (xs : List ℕ)
    → length rest ≡ length xs
    → (own : ℕ) × (add_patch_terms (done ++ rest) acc (terms_from (length done) xs) ≡ ok own)
      × (wrap own ≡ wrap (acc + sum (at_patch xs rest)))
unfolding add_patch_terms at_patch
add_patch_terms-at_patch done rest acc [] h = (acc, refl, ap wrap (omega arith))
add_patch_terms-at_patch done [] acc (x ∷ xs) h = absurd (omega (arith, h))
add_patch_terms-at_patch done (b ∷ rest) acc (x ∷ xs) h =
    let next = if b then wrap (acc + x) else acc in
    let (own, e, f) = add_patch_terms-at_patch (done ++ b ∷ []) rest next xs (omega (arith, h)) in
    let e' = rw (append_assoc done (b ∷ []) rest, length-snoc done b) at e in
    (own, rw (at-middle done b rest) e', f ∙ one b)
  where
    one :
        (b : Bool)
        → wrap ((if b then wrap (acc + x) else acc) + sum (at_patch xs rest))
          ≡ wrap (acc + sum (if b then x ∷ at_patch xs rest else at_patch xs rest))
    one true = omega arith
    one false = refl

sum-general_terms :
    (f h : ℕ → ℕ) (ps : List Replica)
    → All IsReplica ps
    → (own : List ℕ) × (general_terms (map (finished h) ps) (all_terms f ps) ≡ ok own)
      × (wrap (sum own) ≡ wrap (sum (map f (gathered_locs ps))))
unfolding general_terms
sum-general_terms f h [] w = ([], refl, refl)
sum-general_terms f h (p ∷ ps) w =
    let (own, e, s) =
      add_patch_terms-at_patch [] p.is_my_patch_obs 0 (map f p.my_global_locs)
        (w.0.0 ∙ sym (length-map f p.my_global_locs)) in
    let (rest, e', s') = sum-general_terms f h ps w.1 in
    let patch = ap sum (at_patch-map f p.my_global_locs p.is_my_patch_obs) in
    let split =
      ap sum (map-append f (patch_locs p) (gathered_locs ps))
      ∙ sum-append (map f (patch_locs p)) (map f (gathered_locs ps)) in
    (own ∷ rest, rw (e, e') refl, omega (arith, s, s', patch, split))

-- On ranks whose global locations rise, are below 2 ^ 64 - 1 and have a mark each, where no location is
-- in the patch of two ranks, each location held is in the patch of some rank, and fewer than 2 ^ 64 - 1
-- locations are in a patch, computePatchLocs throws nothing. After it, when every rank adds f of each
-- global location that it holds to an accumulator, all ranks get the sum modulo 2 ^ 64 of f over the
-- patch locations of all ranks, so a location held by several ranks counts once.
pub replica_accumulate-once :
    (c : Comm) (past_end : ℕ) (ps : List Replica) (f : ℕ → ℕ)
    → All IsReplica ps
    → Distinct (gathered_locs ps)
    → length (gathered_locs ps) < unassigned
    → All (Covered (gathered_locs ps)) ps
    → (qs : List Replica) × (compute_replica_locs c ps ≡ ok qs)
      × ((replica_of_general c past_end qs).accumulate (all_terms f ps)
          ≡ ok (map (λ _. wrap (sum (map f (gathered_locs ps)))) (all_terms f ps)))
unfolding replica_of_general
replica_accumulate-once c past_end ps f w d l h =
    let index : ℕ → ℕ = λ y. place_of y (gathered_locs ps) in
    let qs = map (finished index) ps in
    let (own, e, s) = sum-general_terms f index ps w in
    (
      qs,
      compute_replica_locs-indices c ps w d l h,
      rw e (ap (λ v. ok (map (λ _. v) (all_terms f ps))) (c.all_reduce_sum_lem own ∙ s)),
    )
