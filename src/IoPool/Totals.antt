-- ===== src/IoPool/Totals.antt =====
-- IoPoolBase::createIoPool and setTotalNlocs over the groups of WriterPool: the total_nlocs_ of each
-- rank of the pool.
use mathlib.Core.List.{append_assoc}
use ioda.Prelude.{
  ℕ, zero, suc, ◌+◌, ◌-◌, ◌≤◌, ◌<◌, ◌≡◌, refl, ap, sym, ◌∙◌, true, List, [], ◌∷◌, ◌++◌,
  if◌then◌else◌, length, length-append, length-replicate, map, iota, sum, arith, some, Result, ok,
  ◌>>=◌, err, lt→ltb, length-map, get_elem?, set-append, replicate, replicate-add, take_all, drop,
  drop_at, drop_past, wrap, size_mod, mod-eq_of_lt, get_elem?-eq-get_or, ◌==◌,
}
use ioda.IoPool.{
  IoPoolGroupMap, Assignment, RankAssignments, split_colors, rank_assignment, add_nlocs,
  set_total_nlocs, pool_totals, Comm, pool_color, non_pool_color,
}
use ioda.IoPool.Groups.{Tiles}
use ioda.IoPool.Assign.{nlocs_of, pairs_of, Assigned, put_inside, Tiles-le}

-- The locations of the ranks s, ..., s + n - 1.
abbrev pub range_sum : List ℕ → ℕ → ℕ → ℕ
range_sum nlocs s n = sum (map (nlocs_of nlocs) (iota s n))

pub range_sum-add :
    (nlocs : List ℕ) (s m n : ℕ)
    → range_sum nlocs s (m + n) ≡ range_sum nlocs s m + range_sum nlocs (s + m) n
range_sum-add nlocs s zero n =
    let e : 0 + n ≡ n = omega arith in
    let f : s + 0 ≡ s = omega arith in
    let g : 0 + range_sum nlocs s n ≡ range_sum nlocs s n = omega arith in rw (e, f, g)
range_sum-add nlocs s (suc m) n =
    let e : suc m + n ≡ suc (m + n) = omega arith in
    let f : s + suc m ≡ suc s + m = omega arith in
    rw (e, f) (omega (arith, range_sum-add nlocs (suc s) m n))

range_sum-cons :
    (x : ℕ) (nlocs : List ℕ) (s n : ℕ) → range_sum (x ∷ nlocs) (suc s) n ≡ range_sum nlocs s n
range_sum-cons x nlocs s zero = refl
range_sum-cons x nlocs s (suc n) = ap (λ k. nlocs_of nlocs s + k) (range_sum-cons x nlocs (suc s) n)

pub range_sum_all : (nlocs : List ℕ) → range_sum nlocs 0 (length nlocs) ≡ sum nlocs
range_sum_all [] = refl
range_sum_all (x ∷ nlocs) =
    ap (λ k. x + k) (range_sum-cons x nlocs 0 (length nlocs) ∙ range_sum_all nlocs)

range_sum-le : (nlocs : List ℕ) (s n : ℕ) → s + n ≤ length nlocs → range_sum nlocs s n ≤ sum nlocs
range_sum-le nlocs s n h =
    let k : ℕ = length nlocs - (s + n) in
    let e : length nlocs ≡ s + n + k = omega arith in
    let z : 0 + s ≡ s = omega arith in
    let whole : range_sum nlocs 0 (s + n + k) ≡ sum nlocs =
      ap (range_sum nlocs 0) (sym e) ∙ range_sum_all nlocs in
    let first : range_sum nlocs 0 (s + n) ≡ range_sum nlocs 0 s + range_sum nlocs s n =
      range_sum-add nlocs 0 s n ∙ ap (λ q. range_sum nlocs 0 s + range_sum nlocs q n) z in
    omega (arith, whole, range_sum-add nlocs 0 (s + n) k, first)

-- The colours of the ranks, tile by tile.
pub tile_colors : IoPoolGroupMap → List ℕ
tile_colors [] = []
tile_colors ((p, g) ∷ groups) =
    pool_color ∷ replicate (length g) non_pool_color ++ tile_colors groups

pub split_colors-Tiles :
    (groups : IoPoolGroupMap) (done : List ℕ) (s n m : ℕ)
    → Tiles s groups n
    → length done ≡ s
    → s + m ≡ n
    → split_colors groups (done ++ replicate m non_pool_color) ≡ ok (done ++ tile_colors groups)
unfolding split_colors tile_colors
split_colors-Tiles [] done s n m t l e = let z : m ≡ 0 = omega arith in rw z
split_colors-Tiles ((p, g) ∷ groups) done s n m t l e =
    let le = Tiles-le (s + 1 + length g) n groups t.2 in
    let k : ℕ = m - 1 - length g in
    let z : m ≡ suc (length g + k) = omega arith in
    let q : p ≡ length done = omega (arith, t.0) in
    let rest =
      split_colors-Tiles groups (done ++ pool_color ∷ replicate (length g) non_pool_color)
        (s + 1 + length g) n k t.2
        (omega (
          arith,
          length-append done (pool_color ∷ replicate (length g) non_pool_color),
          length-replicate (length g) non_pool_color,
        ))
        (omega arith) in
    rw
      (
        z,
        q,
        put_inside (done ++ non_pool_color ∷ replicate (length g + k) non_pool_color) (length done)
            pool_color
            (omega (
              arith,
              length-append done (non_pool_color ∷ replicate (length g + k) non_pool_color),
            )),
        set-append done (replicate (length g + k) non_pool_color) non_pool_color pool_color,
        replicate-add (length g) k non_pool_color,
      )
      (rw
        (
          append_assoc done (pool_color ∷ replicate (length g) non_pool_color)
              (replicate k non_pool_color),
          append_assoc done (pool_color ∷ replicate (length g) non_pool_color) (tile_colors groups),
        )
        at rest)

pub length-tile_colors :
    (groups : IoPoolGroupMap) (s n : ℕ) → Tiles s groups n → s + length (tile_colors groups) ≡ n
unfolding tile_colors
length-tile_colors [] s n t = omega arith
length-tile_colors ((p, g) ∷ groups) s n t = omega (
  arith,
  length-append (replicate (length g) non_pool_color) (tile_colors groups),
  length-replicate (length g) non_pool_color,
  length-tile_colors groups (s + 1 + length g) n t.2,
)

received :
    (c : Comm) (a : RankAssignments) (r : ℕ) (l : Assignment)
    → get_elem? a.ranks r ≡ some l
    → get_elem? a.sizes r ≡ some (length l)
    → rank_assignment c a r ≡ ok l
unfolding rank_assignment
received c a zero l e f = rw e
received c a (suc r) [] e f = rw (c.scatter_lem a.sizes (suc r), f, e)
received c a (suc r) (x ∷ l) e f =
    rw
      (
        c.scatter_lem a.sizes (suc r),
        f,
        e,
        lt→ltb 0 (suc (length l)) (omega arith),
        c.receive_lem (x ∷ l) (suc (length l)),
      )
      (ap ok (take_all (x ∷ l)))

add_nlocs-pairs :
    (nlocs : List ℕ) (n : ℕ) (g : List ℕ)
    → n + sum (map (nlocs_of nlocs) g) < size_mod
    → add_nlocs n (pairs_of nlocs g) ≡ n + sum (map (nlocs_of nlocs) g)
unfolding add_nlocs
add_nlocs-pairs nlocs n [] h = omega arith
add_nlocs-pairs nlocs n (r ∷ g) h =
    let w : wrap (n + nlocs_of nlocs r) ≡ n + nlocs_of nlocs r = mod-eq_of_lt (omega (arith, h)) in
    ap (λ q. add_nlocs q (pairs_of nlocs g)) w
    ∙ omega (arith, add_nlocs-pairs nlocs (n + nlocs_of nlocs r) g (omega (arith, h)))

ok-bind {ℓ} : {A : Type ℓ} (m : Result A) → (m >>= λ a. ok a) ≡ m
ok-bind (ok a) = refl
ok-bind (err e) = refl

-- The totals with the colours read one after the other.
pub gather_direct : Comm → RankAssignments → ℕ → List ℕ → List ℕ → Result (List ℕ)
gather_direct c a r [] colors = ok []
gather_direct c a r (n ∷ nlocs) [] = ok []
gather_direct c a r (n ∷ nlocs) (color ∷ colors) = rank_assignment c a r >>= λ pairs.
    gather_direct c a (suc r) nlocs colors >>= λ rest.
    ok (if color == non_pool_color then rest else set_total_nlocs true n pairs ∷ rest)

pub pool_totals-direct :
    (c : Comm) (a : RankAssignments) (colors : List ℕ) (r : ℕ) (nlocs : List ℕ)
    → r + length nlocs ≤ length colors
    → pool_totals c a colors r nlocs ≡ gather_direct c a r nlocs (drop r colors)
unfolding pool_totals gather_direct
pool_totals-direct c a colors r [] h = refl
pool_totals-direct c a colors r (n ∷ nlocs) h = rw (
  c.scatter_lem colors r,
  get_elem?-eq-get_or colors r 0 (omega arith),
  drop_at colors r 0 (omega arith),
  pool_totals-direct c a colors (suc r) nlocs (omega arith),
)

-- The ranks outside of the pool add nothing to the gathered numbers.
gather-outside :
    (c : Comm) (nlocs : List ℕ) (a : RankAssignments) (colors : List ℕ) (s k : ℕ)
    → s + k ≤ length nlocs
    → ((r : ℕ) → s ≤ r → r < s + k → (l : Assignment) × (rank_assignment c a r ≡ ok l))
    → gather_direct c a s (drop s nlocs) (replicate k non_pool_color ++ colors)
      ≡ gather_direct c a (s + k) (drop (s + k) nlocs) colors
unfolding gather_direct
gather-outside c nlocs a colors s zero h r = let e : s + 0 ≡ s = omega arith in rw e
gather-outside c nlocs a colors s (suc k) h r =
    let e : s + suc k ≡ suc s + k = omega arith in
    let (l, f) = r s (omega arith) (omega arith) in
    rw (drop_at nlocs s 0 (omega arith), f, e)
      (ok-bind
          (gather_direct c a (suc s) (drop (suc s) nlocs) (replicate k non_pool_color ++ colors))
        ∙ gather-outside c nlocs a colors (suc s) k (omega arith)
            (λ q u v. r q (omega arith) (omega arith)))

abbrev pub tile_totals : List ℕ → IoPoolGroupMap → List ℕ
tile_totals nlocs groups = map (λ g. range_sum nlocs g.0 (1 + length g.1)) groups

tile_head :
    (nlocs : List ℕ) (p s : ℕ) (g : List ℕ)
    → p ≡ s
    → g ≡ iota (s + 1) (length g)
    → s + (1 + length g) ≤ length nlocs
    → sum nlocs < size_mod
    → add_nlocs (nlocs_of nlocs s) (pairs_of nlocs g) ≡ range_sum nlocs p (1 + length g)
tile_head nlocs p s g e f l h =
    let below = range_sum-le nlocs s (1 + length g) l in
    let one : 1 + length g ≡ suc (length g) = omega arith in
    let next : s + 1 ≡ suc s = omega arith in
    let same : nlocs_of nlocs s + sum (map (nlocs_of nlocs) g) ≡ range_sum nlocs s (1 + length g) =
      ap (λ l. nlocs_of nlocs s + sum (map (nlocs_of nlocs) l))
        (f ∙ ap (λ q. iota q (length g)) next)
      ∙ rw one refl in
    add_nlocs-pairs nlocs (nlocs_of nlocs s) g (omega (arith, same, below, h))
    ∙ ap (λ l. nlocs_of nlocs s + sum (map (nlocs_of nlocs) l))
        (f ∙ ap (λ q. iota q (length g)) next)
    ∙ rw (e, one)

pub gather-Tiles :
    (c : Comm) (nlocs : List ℕ) (a : RankAssignments) (groups : IoPoolGroupMap) (s : ℕ)
    → sum nlocs < size_mod
    → Tiles s groups (length nlocs)
    → Assigned nlocs groups a
    → gather_direct c a s (drop s nlocs) (tile_colors groups) ≡ ok (tile_totals nlocs groups)
unfolding gather_direct tile_colors set_total_nlocs
gather-Tiles c nlocs a [] s h t d = rw (t, drop_past nlocs (length nlocs) (omega arith))
gather-Tiles c nlocs a ((p, g) ∷ groups) s h t d =
    let le = Tiles-le (s + 1 + length g) (length nlocs) groups t.2 in
    let lg = length-map (λ r. (r, nlocs_of nlocs r)) g in
    let own = received c a p (pairs_of nlocs g) d.0 (d.1 ∙ ap some (sym lg)) in
    let others = λ (r : ℕ) (u : suc s ≤ r) (v : r < suc s + length g).
      let x = d.2 r (omega (arith, t.0)) (omega (arith, t.0)) in
      let y : (l : Assignment) × (rank_assignment c a r ≡ ok l) =
        ((p, nlocs_of nlocs r) ∷ [], received c a r ((p, nlocs_of nlocs r) ∷ []) x.0 x.1) in
      y in
    let own' : rank_assignment c a s ≡ ok (pairs_of nlocs g) = rw t.0 at own in
    let next : suc s + length g ≡ s + 1 + length g = omega arith in
    rw
      (
        drop_at nlocs s 0 (omega arith),
        own',
        gather-outside c nlocs a (tile_colors groups) (suc s) (length g) (omega arith) others,
        next,
        gather-Tiles c nlocs a groups (s + 1 + length g) h t.2 d.3,
      )
      (ap (λ n. ok (n ∷ tile_totals nlocs groups)) (tile_head nlocs p s g t.0 t.1 (omega arith) h))
