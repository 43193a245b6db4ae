-- ===== src/IoPool/SingleFile.antt =====
-- IoPoolBase::collectSingleFileInfo over the groups of WriterPool: the
-- rows that each rank of the pool gets in the single output file.

use ioda.Prelude.{
  ℕ, ◌+◌, ◌<◌, ◌≡◌, refl, ap, sym, ◌∙◌, List, [], ◌∷◌, length, map, sum, arith, ok, wrap, size_mod,
  mod-eq_of_lt,
}
use ioda.IoPool.{
  IoPoolGroupMap, Comm, collect_loop, SingleFileInfo, writer_pool, set_target_pool_size,
}
use ioda.IoPool.Groups.{Tiles, group_ranks-Tiles, set_target_pool_size_bounds}
use ioda.IoPool.Totals.{
  range_sum, range_sum-add, range_sum_all, tile_totals, tile_colors, split_colors-Tiles,
  length-tile_colors, pool_totals-direct, gather-Tiles,
}
use ioda.IoPool.Assign.{Small, assign_ranks-Assigned}

-- Running sums.
abbrev starts_from : ℕ → List ℕ → List ℕ
starts_from start [] = []
starts_from start (t ∷ totals) = start ∷ starts_from (start + t) totals

collect_loop_lem :
    (global start : ℕ) (totals : List ℕ)
    → global + sum totals < size_mod
    → start + sum totals < size_mod
    → collect_loop global start totals ≡ (global + sum totals, starts_from start totals)
unfolding collect_loop
collect_loop_lem global start [] h l = ground arith
collect_loop_lem global start (t ∷ totals) h l =
    let g : wrap (global + t) ≡ global + t = mod-eq_of_lt (omega (arith, h)) in
    let s : wrap (start + t) ≡ start + t = mod-eq_of_lt (omega (arith, l)) in
    rw
      (g, s, collect_loop_lem (global + t) (start + t) totals (omega (arith, h)) (omega (arith, l)))
      (ground arith)

tile_sum :
    (nlocs : List ℕ) (s p k : ℕ)
    → p ≡ s
    → range_sum nlocs 0 s + range_sum nlocs p (1 + k) ≡ range_sum nlocs 0 (s + 1 + k)
tile_sum nlocs s p k e =
    let z : s + 1 + k ≡ s + (1 + k) = omega arith in
    let z' : 0 + s ≡ s = omega arith in
    let whole : range_sum nlocs 0 (s + (1 + k)) ≡ range_sum nlocs 0 s + range_sum nlocs s (1 + k) =
      range_sum-add nlocs 0 s (1 + k)
      ∙ ap (λ q. range_sum nlocs 0 s + range_sum nlocs q (1 + k)) z' in
    rw (z, e) (sym whole)

starts-Tiles :
    (nlocs : List ℕ) (s n : ℕ) (groups : IoPoolGroupMap)
    → Tiles s groups n
    → (starts_from (range_sum nlocs 0 s) (tile_totals nlocs groups)
        ≡ map (λ g. range_sum nlocs 0 g.0) groups)
      × (range_sum nlocs 0 s + sum (tile_totals nlocs groups) ≡ range_sum nlocs 0 n)
starts-Tiles nlocs s n [] t = (refl, rw t (omega arith))
starts-Tiles nlocs s n ((p, g) ∷ groups) t =
    let rest = starts-Tiles nlocs (s + 1 + length g) n groups t.2 in
    let e : range_sum nlocs 0 s + range_sum nlocs p (1 + length g)
        ≡ range_sum nlocs 0 (s + 1 + length g) =
      tile_sum nlocs s p (length g) t.0 in
    (rw (e, t.0) (ap (λ l. range_sum nlocs 0 s ∷ l) rest.0), omega (arith, e, rest.1))

-- For at least one rank, numbers of locations below 2 ^ 31, and a sum of them below 2 ^ 64, the
-- constructor of WriterPool gets through collectSingleFileInfo. The groups are tiles of all the ranks,
-- as many as the target pool size. Each rank of the pool then has the locations of its own tile, its
-- rows in the single file start behind those of all lower ranks, and the file has a row for every
-- location.
pub writer_pool-rows :
    (c : Comm) (max : ℕ) (nlocs : List ℕ)
    → 0 < length nlocs
    → Small nlocs
    → sum nlocs < size_mod
    → (groups : IoPoolGroupMap) × (info : SingleFileInfo) × (writer_pool c max nlocs
        ≡ ok (groups, info))
      × Tiles 0 groups (length nlocs)
      × (length groups ≡ set_target_pool_size max (length nlocs))
      × (info.total_nlocs ≡ map (λ g. range_sum nlocs g.0 (1 + length g.1)) groups)
      × (info.nlocs_starts ≡ map (λ g. range_sum nlocs 0 g.0) groups)
      × (info.global_nlocs ≡ sum nlocs)
unfolding writer_pool
writer_pool-rows c max nlocs h sm b =
    let target = set_target_pool_size_bounds max (length nlocs) h in
    let (groups, e, lg, t, even) = group_ranks-Tiles (length nlocs) _ target.0 target.1 in
    let (a, f, d) = assign_ranks-Assigned nlocs groups sm t in
    let col = split_colors-Tiles groups [] 0 (length nlocs) (length nlocs) t refl (omega arith) in
    let g = gather-Tiles c nlocs a groups 0 b t d in
    let lc = length-tile_colors groups 0 (length nlocs) t in
    let p = pool_totals-direct c a (tile_colors groups) 0 nlocs (omega (arith, lc)) in
    let s = starts-Tiles nlocs 0 (length nlocs) groups t in
    let below : 0 + sum (tile_totals nlocs groups) < size_mod =
      omega (arith, s.1, range_sum_all nlocs, b) in
    (
      groups,
      record {
        global_nlocs = 0 + sum (tile_totals nlocs groups);
        nlocs_starts = starts_from 0 (tile_totals nlocs groups);
        total_nlocs = tile_totals nlocs groups;
      },
      rw (
        c.all_gather_lem nlocs,
        e,
        f,
        col,
        p,
        g,
        c.gather_lem (tile_totals nlocs groups),
        collect_loop_lem 0 0 (tile_totals nlocs groups) below below,
      ),
      t,
      lg,
      refl,
      s.0,
      s.1 ∙ range_sum_all nlocs,
    )
