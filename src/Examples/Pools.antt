-- ===== src/Examples/Pools.antt =====
-- The writer pool at a concrete number of ranks, with collective calls that hand on what they are given.
use ioda.Prelude.{◌+◌, ◌-◌, ◌^◌, ◌≡◌, refl, [], ◌∷◌, length, map, take, get_elem?, ok, arith}
use ioda.IoPool.{
  Comm, IoPoolGroupMap, SingleFileInfo, group_ranks, through_int, writer_pool, set_target_pool_size,
}
use ioda.IoPool.Groups.{Tiles, Even, group_ranks-Tiles}
use ioda.IoPool.Totals.{range_sum}
use ioda.IoPool.SingleFile.{writer_pool-rows}

abbrev direct_comm : Comm
direct_comm = record {
  all_gather = λ xs. xs;
  gather = λ xs. xs;
  scatter = get_elem?;
  receive = λ xs n. take n xs;
  all_gather_lem = λ xs. refl;
  gather_lem = λ xs. refl;
  scatter_lem = λ xs r. refl;
  receive_lem = λ xs n. refl;
}

group_ranks-Tiles_example :
    (groups : IoPoolGroupMap) × (group_ranks 7 3 ≡ ok groups)
    × (length groups ≡ 3)
    × Tiles 0 groups 7
    × Even 2 groups
group_ranks-Tiles_example = group_ranks-Tiles 7 3 (omega arith) (omega arith)

-- Five ranks and a pool of two.
writer_pool-rows_example :
    (groups : IoPoolGroupMap) × (info : SingleFileInfo) × (writer_pool direct_comm 2
        (4 ∷ 0 ∷ 3 ∷ 1 ∷ 2 ∷ [])
      ≡ ok (groups, info))
    × Tiles 0 groups 5
    × (length groups ≡ set_target_pool_size 2 5)
    × (info.total_nlocs ≡ map (λ g. range_sum (4 ∷ 0 ∷ 3 ∷ 1 ∷ 2 ∷ []) g.0 (1 + length g.1)) groups)
    × (info.nlocs_starts ≡ map (λ g. range_sum (4 ∷ 0 ∷ 3 ∷ 1 ∷ 2 ∷ []) 0 g.0) groups)
    × (info.global_nlocs ≡ 10)
writer_pool-rows_example =
    writer_pool-rows direct_comm 2 (4 ∷ 0 ∷ 3 ∷ 1 ∷ 2 ∷ []) (omega arith) (ground arith)
      (omega arith)

-- The first number that an int does not hold.
through_int_past : through_int (2 ^ 31) ≡ 2 ^ 64 - 2 ^ 31
unfolding through_int
through_int_past = refl
