-- ===== src/IoPool.antt =====
-- The pool of ranks that write the output: IoPoolBase.cpp and WriterPool.cpp (src/engines/ioda/src/ioda).
-- What the code does on every rank of comm_all_ is put together here. The MPI calls, which are not
-- part of the repository, are the parameter `Comm`.
pub mod Groups
pub mod Assign
pub mod Totals
pub mod SingleFile
use ioda.Prelude.{
  ℕ, zero, suc, ◌+◌, ◌-◌, ◌/◌, ◌%◌, Bool, true, false, List, [], ◌∷◌, ◌==◌, ltb, leb, if◌then◌else◌,
  length, map, set, replicate, take, iota, sum, Option, none, some, Result, ok, err, undefined,
  exception, ◌>>=◌, at, ◌≡◌, get_elem?, or_undefined, wrap, ◌^◌, ◌*◌,
}

abbrev pub default_max_pool_size : ℕ
default_max_pool_size = 10

-- IoPoolBase::setTargetPoolSize, with the parameter maxPoolSize; 0 stands for all values that are
-- not positive.
unfoldable pub set_target_pool_size : ℕ → ℕ → ℕ
set_target_pool_size max size_all =
    let max_pool_size = if ltb 0 max then max else default_max_pool_size in
    if leb size_all max_pool_size then size_all else max_pool_size

-- std::map<int, std::vector<int>>, in the order of its keys; insert keeps an entry that is there.
abbrev pub IoPoolGroupMap : Type 0
IoPoolGroupMap = List (ℕ × List ℕ)

unfoldable pub insert_group : ℕ → List ℕ → IoPoolGroupMap → IoPoolGroupMap
insert_group k g [] = (k, g) ∷ []
insert_group k g ((j, h) ∷ groups) =
    if ltb k j
    then (k, g) ∷ (j, h) ∷ groups
    else if k == j
    then (j, h) ∷ groups
    else (j, h) ∷ insert_group k g groups

-- The loop of groupRanks: `left` groups from number i on. A vector of size -1 throws.
unfoldable pub group_loop : ℕ → ℕ → ℕ → ℕ → ℕ → IoPoolGroupMap → Result IoPoolGroupMap
group_loop base rem start i zero groups = ok groups
group_loop base rem start i (suc left) groups =
    let count = if ltb i rem then base + 1 else base in
    let rest =
      group_loop base rem (start + count) (i + 1) left
        (insert_group start (iota (start + 1) (count - 1)) groups) in
    if count == 0 then err exception else rest

-- WriterPool::groupRanks on rank 0. A division by zero is undefined.
unfoldable pub group_ranks : ℕ → ℕ → Result IoPoolGroupMap
group_ranks size_all zero = err undefined
group_ranks size_all (suc target) =
    group_loop (size_all / suc target) (size_all % suc target) 0 0 (suc target) []

-- The number of locations in a pair is an int. It stands here as the std::size_t that it is converted
-- to where it is read: the lower 32 bits, with the sign extended.
unfoldable pub through_int : ℕ → ℕ
through_int n = let low = n % 2 ^ 32 in if ltb low (2 ^ 31) then low else low + (2 ^ 64 - 2 ^ 32)

abbrev pub Assignment : Type 0
Assignment = List (ℕ × ℕ)

pub record RankAssignments : Type 0 where
  pub ranks : List Assignment
  pub sizes : List ℕ

-- v[i] = x
abbrev pub put {ℓ} : {A : Type ℓ} → List A → ℕ → A → Result (List A)
put xs i x = at xs i >>= λ _. ok (set xs i x)

-- The loop over the ranks of a group that are not in the pool; the first result is rankGroupPairs.
unfoldable pub assign_members :
    List ℕ → ℕ → List ℕ → RankAssignments → Result (Assignment × RankAssignments)
unfolding through_int
assign_members all_nlocs pool_rank [] a = ok ([], a)
assign_members all_nlocs pool_rank (r ∷ group) a = at all_nlocs r >>= λ n.
    put a.ranks r ((pool_rank, through_int n) ∷ []) >>= λ ranks. put a.sizes r 1 >>= λ sizes.
    assign_members all_nlocs pool_rank group (record { ranks = ranks; sizes = sizes }) >>= λ rest.
    ok ((r, through_int n) ∷ rest.0, rest.1)

unfoldable pub assign_groups : List ℕ → IoPoolGroupMap → RankAssignments → Result RankAssignments
assign_groups all_nlocs [] a = ok a
assign_groups all_nlocs ((pool_rank, group) ∷ groups) a =
    assign_members all_nlocs pool_rank group a >>= λ m. put m.1.ranks pool_rank m.0 >>= λ ranks.
    put m.1.sizes pool_rank (length m.0) >>= λ sizes.
    assign_groups all_nlocs groups (record { ranks = ranks; sizes = sizes })

-- WriterPool::assignRanksToIoPool on rank 0.
unfoldable pub assign_ranks : ℕ → List ℕ → IoPoolGroupMap → Result RankAssignments
assign_ranks size_all all_nlocs groups =
    assign_groups all_nlocs groups
      (record { ranks = replicate size_all []; sizes = replicate size_all 0 })

-- The collective calls of eckit::mpi::Comm, as what each rank receives. A gather (on comm_all_, and on
-- the pool that the split makes) has the entries in the order of the ranks, a scatter hands rank r
-- entry r, and a receive gives the first `count` elements that were sent.
pub record Comm : Type 0 where
  pub all_gather : List ℕ → List ℕ
  pub gather : List ℕ → List ℕ
  pub scatter : List ℕ → ℕ → Option ℕ
  pub receive : Assignment → ℕ → Assignment
  pub all_gather_lem : (xs : List ℕ) → all_gather xs ≡ xs
  pub gather_lem : (xs : List ℕ) → gather xs ≡ xs
  pub scatter_lem : (xs : List ℕ) (r : ℕ) → scatter xs r ≡ get_elem? xs r
  pub receive_lem : (xs : Assignment) (count : ℕ) → receive xs count ≡ take count xs

-- rank_assignment_ of a rank: rank 0 copies its own, the others receive as many pairs as the
-- scattered size says, if it is positive.
unfoldable pub rank_assignment : Comm → RankAssignments → ℕ → Result Assignment
rank_assignment c a zero = at a.ranks 0
rank_assignment c a (suc r) = do
  n ← or_undefined (c.scatter a.sizes (suc r))
  sent ← at a.ranks (suc r)
  ok (if ltb 0 n then c.receive sent n else [])

abbrev pub pool_color : ℕ
pool_color = 1

abbrev pub non_pool_color : ℕ
non_pool_color = 2

-- IoPoolBase::createIoPool: the colours that rank 0 scatters.
unfoldable pub split_colors : IoPoolGroupMap → List ℕ → Result (List ℕ)
split_colors [] colors = ok colors
split_colors ((pool_rank, group) ∷ groups) colors =
    put colors pool_rank pool_color >>= λ colors'. split_colors groups colors'

-- The second components of the pairs, as the loop of setTotalNlocs adds them up.
unfoldable pub add_nlocs : ℕ → Assignment → ℕ
add_nlocs total [] = total
add_nlocs total ((r, n) ∷ pairs) = add_nlocs (wrap (total + n)) pairs

-- IoPoolBase::setTotalNlocs
unfoldable pub set_total_nlocs : Bool → ℕ → Assignment → ℕ
unfolding add_nlocs
set_total_nlocs in_pool nlocs pairs = if in_pool then add_nlocs nlocs pairs else 0

-- The total_nlocs_ of the ranks in the pool from rank r on. A rank is in the pool unless it received
-- the other colour.
unfoldable pub pool_totals : Comm → RankAssignments → List ℕ → ℕ → List ℕ → Result (List ℕ)
pool_totals c a colors r [] = ok []
pool_totals c a colors r (n ∷ nlocs) = or_undefined (c.scatter colors r) >>= λ color.
    rank_assignment c a r >>= λ pairs. pool_totals c a colors (suc r) nlocs >>= λ rest.
    ok (if color == non_pool_color then rest else set_total_nlocs true n pairs ∷ rest)

-- The loop of collectSingleFileInfo on the root: global_nlocs_ and the starting points.
unfoldable pub collect_loop : ℕ → ℕ → List ℕ → ℕ × List ℕ
collect_loop global start [] = (global, [])
collect_loop global start (t ∷ totals) =
    let (g, starts) = collect_loop (wrap (global + t)) (wrap (start + t)) totals in
    (g, start ∷ starts)

pub record SingleFileInfo : Type 0 where
  pub global_nlocs : ℕ
  pub nlocs_starts : List ℕ
  pub total_nlocs : List ℕ

-- The constructor of WriterPool, up to collectSingleFileInfo, over all ranks.
pub writer_pool : Comm → ℕ → List ℕ → Result (IoPoolGroupMap × SingleFileInfo)
writer_pool c max patch_nlocs = do
  groups ← group_ranks (length patch_nlocs) (set_target_pool_size max (length patch_nlocs))
  assignments ← assign_ranks (length patch_nlocs) (c.all_gather patch_nlocs) groups
  colors ← split_colors groups (replicate (length patch_nlocs) non_pool_color)
  totals ← pool_totals c assignments colors 0 patch_nlocs
  let (global, starts) = collect_loop 0 0 (c.gather totals)
  ok (groups, record { global_nlocs = global; nlocs_starts = starts; total_nlocs = totals })
