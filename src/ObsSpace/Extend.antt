-- ===== src/ObsSpace/Extend.antt =====
-- ObsSpace::extendObsSpace: companion records behind the original ones. The variables that it resizes
-- and fills are not part of this model.
pub mod Index
pub mod Rising
pub mod Companions
use ioda.Prelude.{
  ℕ, zero, suc, ◌+◌, ◌*◌, Bool, true, false, List, [], ◌∷◌, ◌++◌, length, if◌then◌else◌, Result, ok,
  err, exception, ◌>>=◌, wrap,
}
use ioda.ObsStore.Translate.{insert}
use ioda.ObsSpace.OrderedMap.{modify, push_back}
use ioda.ObsSpace.RecIdx.{RecIdx}

-- replicaDist on one rank: assignRecord(RecNum, LocNum) and isMyRecord(RecNum).
pub record ReplicaDist (S : Type 0) : Type 0 where
  pub assign_replica_record : ℕ → ℕ → S → S
  pub is_replica_record : S → ℕ → Bool

-- What the loop changes: members of ObsSpace, companionLoc and the state of replicaDist.
pub record Extension (S : Type 0) : Type 0 where
  pub nrecs : ℕ
  pub recidx : RecIdx
  pub recnums : List ℕ
  pub indx : List ℕ
  pub companion_loc : ℕ
  pub replica : S

-- std::set<size_t> of the record numbers.
unfoldable pub unique_recs : List ℕ → List ℕ
unfolding insert
unique_recs [] = []
unique_recs (r ∷ recnums) = insert r (unique_recs recnums)

module _ {S : Type 0} (k : ReplicaDist S) (nlevs num_original_locs upper_locs upper_recs : ℕ) where
  -- One round of the loop over the levels of a record.
  unfoldable pub extend_level : ℕ → ℕ → Extension S → Result (Extension S)
  extend_level rec ilev e =
      let extended_rec = wrap (upper_recs + rec) in
      let global_companion_loc = wrap (rec * nlevs + ilev) in
      let replica = k.assign_replica_record rec global_companion_loc e.replica in
      if k.is_replica_record replica rec
      then ok (record e {
        recnums = e.recnums ++ extended_rec ∷ [];
        indx = e.indx ++ wrap (upper_locs + global_companion_loc) ∷ [];
        recidx = push_back extended_rec (num_original_locs + e.companion_loc) e.recidx;
        companion_loc = e.companion_loc + 1;
        replica = replica;
      })
      else err exception

  -- `left` levels from ilev on.
  unfoldable pub extend_levels : ℕ → ℕ → ℕ → Extension S → Result (Extension S)
  unfolding extend_level
  extend_levels rec ilev zero e = ok e
  extend_levels rec ilev (suc left) e =
      extend_level rec ilev e >>= λ e'. extend_levels rec (suc ilev) left e'

  -- recidx_[extendedRec] makes the entry, nrecs_++.
  unfoldable pub start_record : ℕ → Extension S → Extension S
  unfolding modify
  start_record rec e = record e {
    nrecs = e.nrecs + 1;
    recidx = modify (wrap (upper_recs + rec)) [] (λ locs. locs) e.recidx;
  }

  -- The loop over the original records, `mine` being dist_->isMyRecord.
  unfoldable pub extend_records : (ℕ → Bool) → List ℕ → Extension S → Result (Extension S)
  unfolding extend_levels start_record
  extend_records mine [] e = ok e
  extend_records mine (rec ∷ recs) e =
      (if mine rec then ok (start_record rec e) else err exception)
      >>= (λ e'. extend_levels rec 0 nlevs e' >>= (λ e''. extend_records mine recs e''))
