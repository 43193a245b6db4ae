-- ===== src/ObsSpace/Extend/Companions.antt =====
-- extendObsSpace with a ReplicaOfGeneralDistribution: what the loop leaves for computePatchLocs.
use mathlib.Core.List.{append_assoc, append-nil}
use ioda.Prelude.{
  ℕ, zero, suc, ◌+◌, ◌*◌, ◌<◌, ◌≤◌, ◌≡◌, refl, ap, ap₂, sym, subst, ◌∙◌, inl, inr, Bool, true, List,
  [], ◌∷◌, ◌++◌, map, contains, ==_iff, length, length-append, length-replicate, length-iota,
  concat, iota, replicate, All, Rising, Bool-cases, ok, err, exception, >>=-eq-ok, wrap, size_mod,
  mod-eq_of_lt, arith,
}
use ioda.Distribution.Replica.{Replica, assign_replica, is_my_replica_record, unassigned}
use ioda.Distribution.Replica.Consecutive.{IsReplica}
use ioda.ObsSpace.Extend.{
  ReplicaDist, Extension, extend_level, extend_levels, start_record, extend_records,
}
use ioda.ObsSpace.Extend.Index.{Fits, new_locs, level_locs, extend_records-Appends}
use ioda.ObsSpace.Extend.Rising.{All-imp, new_locs-Rising, new_locs-below}

-- The replica as the loop sees it, `mine` being masterDist_->isMyRecord.
unfoldable pub general_replica : (ℕ → Bool) → ReplicaDist Replica
unfolding assign_replica is_my_replica_record
general_replica mine = record {
  assign_replica_record = λ rec loc p. assign_replica (mine rec) rec loc p;
  is_replica_record = λ p rec. is_my_replica_record p rec;
}

general-assigned :
    (mine : ℕ → Bool) (rec loc : ℕ) (p : Replica)
    → mine rec ≡ true
    → (general_replica mine).is_replica_record
        ((general_replica mine).assign_replica_record rec loc p)
        rec
      ≡ true
unfolding general_replica assign_replica is_my_replica_record
general-assigned mine rec loc p m = rw m (rw ((==_iff rec rec).1 refl) refl)

module _ {S : Type 0} (k : ReplicaDist S) (nlevs : ℕ) where
  -- The calls of assignRecord alone.
  assign_levels : ℕ → ℕ → ℕ → S → S
  assign_levels rec ilev zero s = s
  assign_levels rec ilev (suc left) s =
      assign_levels rec (suc ilev) left (k.assign_replica_record rec (wrap (rec * nlevs + ilev)) s)

  assign_recs : List ℕ → S → S
  assign_recs [] s = s
  assign_recs (rec ∷ recs) s = assign_recs recs (assign_levels rec 0 nlevs s)

module _ {S : Type 0} (k : ReplicaDist S) (nlevs num_original_locs upper_locs upper_recs : ℕ) where
  extend_level-replica :
      (rec ilev : ℕ) (e e' : Extension S)
      → extend_level k nlevs num_original_locs upper_locs upper_recs rec ilev e ≡ ok e'
      → e'.replica ≡ k.assign_replica_record rec (wrap (rec * nlevs + ilev)) e.replica
  unfolding extend_level
  extend_level-replica rec ilev e e' h =
      let s = k.assign_replica_record rec (wrap (rec * nlevs + ilev)) e.replica in
      elim (Bool-cases (k.is_replica_record s rec)) [
        | inl b ↦ sym (ap (λ r. elim r as (λ _. S) [ err f ↦ s | ok x ↦ x.replica ]) (rw b at h))
        | inr b ↦ let q : err exception ≡ ok e' = rw b at h in absurd (cc q)
      ]

  extend_levels-replica :
      (rec ilev left : ℕ) (e e' : Extension S)
      → extend_levels k nlevs num_original_locs upper_locs upper_recs rec ilev left e ≡ ok e'
      → e'.replica ≡ assign_levels k nlevs rec ilev left e.replica
  unfolding extend_levels assign_levels
  extend_levels-replica rec ilev zero e e' h =
      sym (ap (λ r. elim r as (λ _. S) [ err f ↦ e.replica | ok x ↦ x.replica ]) h)
  extend_levels-replica rec ilev (suc left) e e' h =
      let (a, ea, er) =
        >>=-eq-ok (extend_level k nlevs num_original_locs upper_locs upper_recs rec ilev e) _ h in
      extend_levels-replica rec (suc ilev) left a e' er
      ∙ ap (assign_levels k nlevs rec (suc ilev) left) (extend_level-replica rec ilev e a ea)

  extend_records-assigns :
      (mine : ℕ → Bool) (recs : List ℕ) (e e' : Extension S)
      → extend_records k nlevs num_original_locs upper_locs upper_recs mine recs e ≡ ok e'
      → e'.replica ≡ assign_recs k nlevs recs e.replica
  unfolding extend_records assign_recs start_record
  extend_records-assigns mine [] e e' h =
      sym (ap (λ r. elim r as (λ _. S) [ err f ↦ e.replica | ok x ↦ x.replica ]) h)
  extend_records-assigns mine (rec ∷ recs) e e' h = elim (Bool-cases (mine rec)) [
    | inl b ↦
        let (a, ea, er) =
          >>=-eq-ok
            (extend_levels k nlevs num_original_locs upper_locs upper_recs rec 0 nlevs
              (start_record k nlevs num_original_locs upper_locs upper_recs rec e))
            _ (rw b at h) in
        extend_records-assigns mine recs a e' er
        ∙ ap (assign_recs k nlevs recs) (extend_levels-replica rec 0 nlevs _ a ea)
    | inr b ↦ let q : err exception ≡ ok e' = rw b at h in absurd (cc q)
  ]

-- The marks of companion locations, `patch` being the records in the patch of the master.
abbrev pub marks : ℕ → List ℕ → List ℕ → List Bool
marks nlevs patch recs = concat (map (λ rec. replicate nlevs (contains rec patch)) recs)

-- The replica after locations `locs` with their marks were added to p.
abbrev pub Added : Replica → List ℕ → List Bool → Replica → Type 0
Added p locs patch q =
    (q.my_global_locs ≡ p.my_global_locs ++ locs)
    × (q.is_my_patch_obs ≡ p.is_my_patch_obs ++ patch)
    × (q.master_patch_records ≡ p.master_patch_records)

module _ (mine : ℕ → Bool) (nlevs : ℕ) where
  general_levels :
      (rec ilev left : ℕ) (p : Replica)
      → mine rec ≡ true
      → rec * nlevs + nlevs ≤ size_mod
      → ilev + left ≤ nlevs
      → Added p
          (iota (rec * nlevs + ilev) left)
          (replicate left (contains rec p.master_patch_records))
          (assign_levels (general_replica mine) nlevs rec ilev left p)
  unfolding assign_levels general_replica assign_replica
  general_levels rec ilev zero p m b l =
      (sym (append-nil p.my_global_locs), sym (append-nil p.is_my_patch_obs), refl)
  general_levels rec ilev (suc left) p m b l =
      let g = rec * nlevs + ilev in
      let mark = contains rec p.master_patch_records in
      let w : wrap g ≡ g = mod-eq_of_lt (omega (arith, b, l)) in
      let p' : Replica = record p {
        my_records = rec ∷ p.my_records;
        my_global_locs = p.my_global_locs ++ g ∷ [];
        is_my_patch_obs = p.is_my_patch_obs ++ mark ∷ [];
      } in
      let (a, c, d) = general_levels rec (suc ilev) left p' m b (omega (arith, l)) in
      let g' : rec * nlevs + suc ilev ≡ suc g = omega arith in
      let same : assign_replica (mine rec) rec (wrap g) p ≡ p' = rw (m, w) refl in
      subst
        (λ x.
          Added p (iota g (suc left)) (replicate (suc left) mark)
            (assign_levels (general_replica mine) nlevs rec (suc ilev) left x))
        (sym same)
        (
          a
              ∙ ap (λ y. (p.my_global_locs ++ g ∷ []) ++ iota y left) g'
              ∙ append_assoc p.my_global_locs (g ∷ []) (iota (suc g) left),
          c ∙ append_assoc p.is_my_patch_obs (mark ∷ []) (replicate left mark),
          d,
        )

  general_recs :
      (recs : List ℕ) (p : Replica)
      → All (λ rec. mine rec ≡ true) recs
      → All (λ rec. rec * nlevs + nlevs ≤ size_mod) recs
      → Added p
          (new_locs nlevs 0 recs)
          (marks nlevs p.master_patch_records recs)
          (assign_recs (general_replica mine) nlevs recs p)
  unfolding assign_recs
  general_recs [] p m b =
      (sym (append-nil p.my_global_locs), sym (append-nil p.is_my_patch_obs), refl)
  general_recs (rec ∷ recs) p m b =
      let q = assign_levels (general_replica mine) nlevs rec 0 nlevs p in
      let (a, c, d) = general_levels rec 0 nlevs p m.0 b.0 (omega arith) in
      let (a', c', d') = general_recs recs q m.1 b.1 in
      let z : rec * nlevs + 0 ≡ 0 + rec * nlevs = omega arith in
      (
        a'
            ∙ ap (λ x. x ++ new_locs nlevs 0 recs)
                (a ∙ ap (λ y. p.my_global_locs ++ iota y nlevs) z)
            ∙ append_assoc p.my_global_locs (level_locs nlevs 0 rec) (new_locs nlevs 0 recs),
        c'
            ∙ ap₂ (λ x y. x ++ marks nlevs y recs) c d
            ∙ append_assoc p.is_my_patch_obs (replicate nlevs (contains rec p.master_patch_records))
                (marks nlevs p.master_patch_records recs),
        d' ∙ d,
      )

length-marks :
    (nlevs : ℕ) (patch recs : List ℕ)
    → length (marks nlevs patch recs) ≡ length (new_locs nlevs 0 recs)
length-marks nlevs patch [] = refl
length-marks nlevs patch (rec ∷ recs) = omega (
  arith,
  length-append (replicate nlevs (contains rec patch)) (marks nlevs patch recs),
  length-append (level_locs nlevs 0 rec) (new_locs nlevs 0 recs),
  length-replicate nlevs (contains rec patch),
  length-iota (0 + rec * nlevs) nlevs,
  length-marks nlevs patch recs,
)

-- The loop of extendObsSpace on a rank, over rising record numbers below upper_recs that dist_ has
-- there and whose numbers fit into std::size_t, with upper_recs * nlevs below 2 ^ 64 and a
-- ReplicaOfGeneralDistribution of dist_ that has no locations yet, throws no exception. It leaves the
-- replica with the companion locations rec * nlevs + ilev, which rise, each marked by whether its record
-- is in the patch of dist_ on the rank: the state that computePatchLocs needs.
pub extend_records-replica :
    (mine : ℕ → Bool) (nlevs num_original_locs upper_locs upper_recs : ℕ) (recs : List ℕ)
    (e : Extension Replica)
    → All (λ rec. mine rec ≡ true) recs
    → All (Fits nlevs upper_locs upper_recs) recs
    → Rising recs
    → All (λ rec. rec < upper_recs) recs
    → upper_recs * nlevs < size_mod
    → e.replica.my_global_locs ≡ []
    → e.replica.is_my_patch_obs ≡ []
    → (e' : Extension Replica) × (extend_records
          (general_replica mine)
          nlevs
          num_original_locs
          upper_locs
          upper_recs
          mine
          recs
          e
        ≡ ok e')
      × (e'.replica.my_global_locs ≡ new_locs nlevs 0 recs)
      × (e'.replica.is_my_patch_obs ≡ marks nlevs e.replica.master_patch_records recs)
      × IsReplica e'.replica
extend_records-replica mine nlevs num_original_locs upper_locs upper_recs recs e m f rise below b
      no_locs no_marks =
    let k = general_replica mine in
    let (a, ea, wa, ra, ia, ca, na) =
      extend_records-Appends k nlevs num_original_locs upper_locs upper_recs mine
        (general-assigned mine) recs e m f in
    let fits = all_fit recs f in
    let (locs, patch, master) = general_recs mine nlevs recs e.replica m fits in
    let s =
      extend_records-assigns k nlevs num_original_locs upper_locs upper_recs mine recs e a ea in
    let locs' : a.replica.my_global_locs ≡ new_locs nlevs 0 recs =
      ap (λ p. p.my_global_locs) s ∙ locs ∙ ap (λ x. x ++ new_locs nlevs 0 recs) no_locs in
    let news = marks nlevs e.replica.master_patch_records recs in
    let patch' : a.replica.is_my_patch_obs ≡ news =
      ap (λ p. p.is_my_patch_obs) s ∙ patch ∙ ap (λ x. x ++ news) no_marks in
    (
      a,
      ea,
      locs',
      patch',
      (
        ap length patch'
            ∙ length-marks nlevs e.replica.master_patch_records recs
            ∙ sym (ap length locs'),
        subst Rising (sym locs') (new_locs-Rising nlevs 0 recs rise),
        subst (All (λ g. g < unassigned)) (sym locs') (
            All-imp (λ g. g < 0 + upper_recs * nlevs) (λ g. g < unassigned)
              (λ g l. omega (arith, l, b)) (new_locs nlevs 0 recs)
              (new_locs-below nlevs 0 upper_recs recs below)),
      ),
    )
  where
    all_fit :
        (xs : List ℕ)
        → All (Fits nlevs upper_locs upper_recs) xs
        → All (λ rec. rec * nlevs + nlevs ≤ size_mod) xs
    all_fit [] h = tt
    all_fit (x ∷ xs) h = (omega (arith, h.0.0), all_fit xs h.1)
