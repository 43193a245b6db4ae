-- ===== src/Distribution/Replica.antt =====
-- class ReplicaOfGeneralDistribution and GeneralDistributionAccumulator: records go where the master
-- distribution has them, and each location counts on the ranks where its record is in the patch. The
-- unordered sets are kept as lists.
pub mod Consecutive
pub mod Gathered
pub mod Uncovered
use ioda.Prelude.{
  ℕ, zero, suc, ◌+◌, ◌-◌, ◌^◌, Bool, true, false, List, [], ◌∷◌, ◌++◌, map, ltb, ◌==◌, contains,
  if◌then◌else◌, length, get_elem?, get_or, set, replicate, at, Option, some, none, Result, ok, err,
  undefined, exception, ◌>>=◌, wrap, size_mod,
}
use ioda.Distribution.{Comm, Term, Distribution}

-- The data members on one rank; masterDist_ and comm_ are arguments.
pub record Replica : Type 0 where
  pub master_patch_records : List ℕ
  pub my_records : List ℕ
  pub my_global_locs : List ℕ
  pub is_my_patch_obs : List Bool
  pub global_unique_consecutive_loc_indices : List ℕ

-- The loop of the constructor over the locations of the master.
unfoldable pub patch_records : List Bool → List ℕ → Result (List ℕ)
patch_records patch [] = ok []
patch_records [] (rec ∷ recs) = err undefined
patch_records (b ∷ patch) (rec ∷ recs) =
    patch_records patch recs >>= λ rest. ok (if b then rec ∷ rest else rest)

-- The constructor on a rank; `recs` is masterRecordNumbers.
unfoldable pub new_replica : Distribution → ℕ → List ℕ → Result Replica
unfolding patch_records
new_replica master r recs = do
  patch ← master.patch_obs r (replicate (length recs) false)
  patch_recs ← patch_records patch recs
  ok (record {
    master_patch_records = patch_recs;
    my_records = [];
    my_global_locs = [];
    is_my_patch_obs = [];
    global_unique_consecutive_loc_indices = [];
  })

-- assignRecord on a rank, `mine` being masterDist_->isMyRecord(RecNum).
unfoldable pub assign_replica : Bool → ℕ → ℕ → Replica → Replica
assign_replica mine rec_num loc_num p =
    if mine
    then record p {
      my_records = rec_num ∷ p.my_records;
      my_global_locs = p.my_global_locs ++ loc_num ∷ [];
      is_my_patch_obs = p.is_my_patch_obs ++ contains rec_num p.master_patch_records ∷ [];
    }
    else p

-- isMyRecord
unfoldable pub is_my_replica_record : Replica → ℕ → Bool
is_my_replica_record p rec_num = contains rec_num p.my_records

-- myGlobalLocs_.back() + 1, or 0 if there is none.
unfoldable pub next_global_loc : List ℕ → ℕ
next_global_loc [] = 0
next_global_loc (x ∷ []) = wrap (x + 1)
next_global_loc (x ∷ y ∷ xs) = next_global_loc (y ∷ xs)

-- The values at the patch locations.
unfoldable pub at_patch {ℓ} : {A : Type ℓ} → List A → List Bool → List A
at_patch [] patch = []
at_patch (x ∷ xs) [] = []
at_patch (x ∷ xs) (b ∷ patch) = let rest = at_patch xs patch in if b then x ∷ rest else rest

abbrev pub unassigned : ℕ
unassigned = 2 ^ 64 - 1

abbrev pub or_throw : Option ℕ → Result ℕ
or_throw none = err exception
or_throw (some x) = ok x

-- consecutiveLocIndices.at(patchObsGlobalLocs[i]) = i, from i on; at() throws past the end.
unfoldable pub assign_consecutive : List ℕ → ℕ → List ℕ → Result (List ℕ)
assign_consecutive [] i indices = ok indices
assign_consecutive (loc ∷ locs) i indices =
    or_throw (get_elem? indices loc) >>= λ old. assign_consecutive locs (suc i) (set indices loc i)

-- The last loop of computePatchLocs on a rank.
unfoldable pub local_indices : List ℕ → List ℕ → Result (List ℕ)
local_indices indices [] = ok []
local_indices indices (loc ∷ locs) = do
  i ← at indices loc
  rest ← local_indices indices locs
  if i == unassigned then err exception else ok (i ∷ rest)

unfoldable pub finish_all : List ℕ → List Replica → Result (List Replica)
unfolding local_indices
finish_all indices [] = ok []
finish_all indices (p ∷ ps) = do
  own ← local_indices indices p.my_global_locs
  rest ← finish_all indices ps
  ok (
      record p {
        global_unique_consecutive_loc_indices = own;
        master_patch_records = [];
        my_global_locs = [];
      }
      ∷ rest)

abbrev pub patch_locs : Replica → List ℕ
patch_locs p = at_patch p.my_global_locs p.is_my_patch_obs

-- computePatchLocs on all ranks.
unfoldable pub compute_replica_locs : Comm → List Replica → Result (List Replica)
unfolding assign_consecutive finish_all next_global_loc at_patch
compute_replica_locs c ps = do
  indices ←
      assign_consecutive (c.all_gatherv (map patch_locs ps)) 0
        (replicate (c.all_reduce_max (map (λ p. next_global_loc p.my_global_locs) ps)) unassigned)
  finish_all indices ps

-- ASSERT(x.size() == isMyPatchObs_.size()) on every rank.
unfoldable pub replica_sizes_match : List Replica → List (List ℕ) → Bool
replica_sizes_match [] xs = true
replica_sizes_match (p ∷ ps) [] = true
replica_sizes_match (p ∷ ps) (x ∷ xs) =
    if length x == length p.is_my_patch_obs then replica_sizes_match ps xs else false

unfoldable pub gather_patches : List Replica → List (List ℕ) → List (List ℕ)
gather_patches [] xs = []
gather_patches (p ∷ ps) [] = []
gather_patches (p ∷ ps) (x ∷ xs) = at_patch x p.is_my_patch_obs ∷ gather_patches ps xs

abbrev pub replica_all_gatherv : Comm → List Replica → List (List ℕ) → Result (List (List ℕ))
replica_all_gatherv c ps xs =
    if replica_sizes_match ps xs
    then ok (map (λ _. c.all_gatherv (gather_patches ps xs)) xs)
    else err exception

-- class GeneralDistributionAccumulator: localResult_ after the terms, of every rank, then the sum.
unfoldable pub add_patch_terms : List Bool → ℕ → List Term → Result ℕ
add_patch_terms patch result [] = ok result
add_patch_terms patch result ((loc, term) ∷ terms) = at patch loc >>= λ mine.
    add_patch_terms patch (if mine then wrap (result + term) else result) terms

unfoldable pub general_terms : List Replica → List (List Term) → Result (List ℕ)
unfolding add_patch_terms
general_terms [] ts = ok []
general_terms (p ∷ ps) [] = ok []
general_terms (p ∷ ps) (t ∷ ts) = do
  own ← add_patch_terms p.is_my_patch_obs 0 t
  rest ← general_terms ps ts
  ok (own ∷ rest)

abbrev pub replica_accumulate : Comm → List Replica → List (List Term) → Result (List ℕ)
replica_accumulate c ps ts = general_terms ps ts >>= λ own. ok (map (λ _. c.all_reduce_sum own) ts)

unfoldable pub replica_record : List Replica → ℕ → ℕ → Bool
replica_record [] r rec = false
replica_record (p ∷ ps) zero rec = is_my_replica_record p rec
replica_record (p ∷ ps) (suc r) rec = replica_record ps r rec

abbrev pub replica_patch : List Replica → ℕ → List Bool
replica_patch ps r = get_or (map (λ p. p.is_my_patch_obs) ps) r []

-- globalUniqueConsecutiveLocationIndex; `past_end` stands for whatever a read past the end gives, which
-- the language leaves open.
abbrev pub replica_index : ℕ → List Replica → ℕ → ℕ → ℕ
replica_index past_end ps r loc =
    get_or (get_or (map (λ p. p.global_unique_consecutive_loc_indices) ps) r []) loc past_end

-- class ReplicaOfGeneralDistribution, over the states of all ranks.
unfoldable pub replica_of_general : Comm → ℕ → List Replica → Distribution
unfolding is_my_replica_record gather_patches replica_sizes_match general_terms
replica_of_general c past_end ps = record {
  is_identity = false;
  is_nonoverlapping = false;
  is_my_record = replica_record ps;
  patch_obs = λ r v. ok (replica_patch ps r);
  min = λ xs. map (λ _. c.all_reduce_min xs) xs;
  max = λ xs. map (λ _. c.all_reduce_max xs) xs;
  accumulate = replica_accumulate c ps;
  all_gatherv = replica_all_gatherv c ps;
  global_unique_consecutive_location_index = replica_index past_end ps;
}
