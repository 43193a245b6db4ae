-- ===== src/IoPool/Assign.antt =====
-- WriterPool::assignRanksToIoPool: what each rank gets to know.
use native.Mathlib.Decide.{dec_lt}
use ioda.Prelude.{
  ℕ, zero, suc, ◌+◌, ◌≤◌, ◌<◌, ◌≡◌, refl, ap, ◌∙◌, List, [], ◌∷◌, length, length-set,
  length-replicate, length-map, map, iota, arith, some, ok, get_elem?, get_elem?_inside,
  get_elem?-set_self, get_elem?-set_ne, get_or, at-eq-get_or, set, replicate, All, ◌^◌,
}
use ioda.IoPool.{
  IoPoolGroupMap, Assignment, RankAssignments, put, through_int, assign_members, assign_groups,
  assign_ranks,
}
use ioda.IoPool.Groups.{Tiles}

-- The number of locations of a rank.
abbrev pub nlocs_of : List ℕ → ℕ → ℕ
nlocs_of nlocs r = get_or nlocs r 0

-- The pairs of a pool rank: each rank of its group with that rank's number of locations.
abbrev pub pairs_of : List ℕ → List ℕ → Assignment
pairs_of nlocs group = map (λ r. (r, nlocs_of nlocs r)) group

-- Numbers of locations that an int can hold.
abbrev pub Small : List ℕ → Type 0
Small nlocs = All (λ n. n < 2 ^ 31) nlocs

through_int-nlocs_of :
    (nlocs : List ℕ) (r : ℕ) → Small nlocs → through_int (nlocs_of nlocs r) ≡ nlocs_of nlocs r
unfolding through_int
through_int-nlocs_of [] r h = refl
through_int-nlocs_of (n ∷ nlocs) zero h = ground (arith, h.0)
through_int-nlocs_of (n ∷ nlocs) (suc r) h = through_int-nlocs_of nlocs r h.1

-- What the loop over a tile leaves: outside of it nothing changes.
record Members (nlocs : List ℕ) (pool_rank s n : ℕ) (a a' : RankAssignments) : Type 0 where
  ranks_length : length a'.ranks ≡ length a.ranks
  sizes_length : length a'.sizes ≡ length a.sizes
  below : (r : ℕ) → r < s → get_elem? a'.ranks r ≡ get_elem? a.ranks r
  below_sizes : (r : ℕ) → r < s → get_elem? a'.sizes r ≡ get_elem? a.sizes r
  inside :
      (r : ℕ) → s ≤ r → r < s + n → get_elem? a'.ranks r ≡ some ((pool_rank, nlocs_of nlocs r) ∷ [])
  inside_sizes : (r : ℕ) → s ≤ r → r < s + n → get_elem? a'.sizes r ≡ some 1

pub put_inside {ℓ} :
    {A : Type ℓ} (xs : List A) (i : ℕ) (x : A) → i < length xs → put xs i x ≡ ok (set xs i x)
put_inside xs i x h = let (y, e) = get_elem?_inside xs i h in rw e

assign_members-Members :
    (nlocs : List ℕ) (pool_rank s n : ℕ) (a : RankAssignments)
    → Small nlocs
    → s + n ≤ length nlocs
    → s + n ≤ length a.ranks
    → s + n ≤ length a.sizes
    → (a' : RankAssignments) × (assign_members nlocs pool_rank (iota s n) a
        ≡ ok (pairs_of nlocs (iota s n), a'))
      × Members nlocs pool_rank s n a a'
unfolding assign_members
assign_members-Members nlocs p s zero a sm hn hr hs = (
  a,
  refl,
  record {
    ranks_length = refl;
    sizes_length = refl;
    below = λ r h. refl;
    below_sizes = λ r h. refl;
    inside = λ r h h'. absurd (omega arith);
    inside_sizes = λ r h h'. absurd (omega arith);
  },
)
assign_members-Members nlocs p s (suc n) a sm hn hr hs =
    let x : Assignment = (p, nlocs_of nlocs s) ∷ [] in
    let b : RankAssignments = record { ranks = set a.ranks s x; sizes = set a.sizes s 1 } in
    let lr = length-set a.ranks s x in
    let ls = length-set a.sizes s 1 in
    let (a', e, m) =
      assign_members-Members nlocs p (suc s) n b sm (omega arith) (omega (arith, lr))
        (omega (arith, ls)) in
    (
      a',
      rw (
        at-eq-get_or nlocs s 0 (omega arith),
        through_int-nlocs_of nlocs s sm,
        put_inside a.ranks s x (omega arith),
        put_inside a.sizes s 1 (omega arith),
        e,
      ),
      record {
        ranks_length = m.ranks_length ∙ lr;
        sizes_length = m.sizes_length ∙ ls;
        below = λ r h. m.below r (omega arith) ∙ get_elem?-set_ne a.ranks s r x (λ q. omega arith);
        below_sizes = λ r h.
            m.below_sizes r (omega arith) ∙ get_elem?-set_ne a.sizes s r 1 (λ q. omega arith);
        inside = λ r h h'. elim (dec_lt s r) [
          | yes q ↦ m.inside r q (omega arith)
          | no q ↦
              let e' : r ≡ s = omega arith in
              rw e' (m.below s (omega arith) ∙ get_elem?-set_self a.ranks s x (omega arith))
        ];
        inside_sizes = λ r h h'. elim (dec_lt s r) [
          | yes q ↦ m.inside_sizes r q (omega arith)
          | no q ↦
              let e' : r ≡ s = omega arith in
              rw e' (m.below_sizes s (omega arith) ∙ get_elem?-set_self a.sizes s 1 (omega arith))
        ];
      },
    )

Members-of :
    (nlocs : List ℕ) (pool_rank s n : ℕ) (g : List ℕ) (a : RankAssignments)
    → Small nlocs
    → g ≡ iota s n
    → s + n ≤ length nlocs
    → s + n ≤ length a.ranks
    → s + n ≤ length a.sizes
    → (a' : RankAssignments) × (assign_members nlocs pool_rank g a ≡ ok (pairs_of nlocs g, a'))
      × Members nlocs pool_rank s n a a'
Members-of nlocs p s n g a sm e hn hr hs = rw e (assign_members-Members nlocs p s n a sm hn hr hs)

-- Each pool rank has the pairs of its group, and each other rank the pair of its pool rank with its
-- own number of locations; the sizes are the lengths.
abbrev pub Assigned : List ℕ → IoPoolGroupMap → RankAssignments → Type 0
Assigned nlocs [] a = Unit {0}
Assigned nlocs ((p, g) ∷ groups) a =
    (get_elem? a.ranks p ≡ some (pairs_of nlocs g))
    × (get_elem? a.sizes p ≡ some (length g))
    × ((r : ℕ)
        → p < r
        → r < p + 1 + length g
        → (get_elem? a.ranks r ≡ some ((p, nlocs_of nlocs r) ∷ []))
          × (get_elem? a.sizes r ≡ some 1))
    × Assigned nlocs groups a

record Groups (nlocs : List ℕ) (s : ℕ) (groups : IoPoolGroupMap) (a a' : RankAssignments)
    : Type 0 where
  ranks_length : length a'.ranks ≡ length a.ranks
  sizes_length : length a'.sizes ≡ length a.sizes
  below : (r : ℕ) → r < s → get_elem? a'.ranks r ≡ get_elem? a.ranks r
  below_sizes : (r : ℕ) → r < s → get_elem? a'.sizes r ≡ get_elem? a.sizes r
  assigned : Assigned nlocs groups a'

pub Tiles-le : (s n : ℕ) (groups : IoPoolGroupMap) → Tiles s groups n → s ≤ n
Tiles-le s n [] t = omega arith
Tiles-le s n ((p, g) ∷ groups) t = let h = Tiles-le (s + 1 + length g) n groups t.2 in omega arith

assign_groups-Groups :
    (nlocs : List ℕ) (s n : ℕ) (groups : IoPoolGroupMap) (a : RankAssignments)
    → Small nlocs
    → Tiles s groups n
    → n ≤ length nlocs
    → n ≤ length a.ranks
    → n ≤ length a.sizes
    → (a' : RankAssignments) × (assign_groups nlocs groups a ≡ ok a') × Groups nlocs s groups a a'
unfolding assign_groups
assign_groups-Groups nlocs s n [] a sm t hn hr hs = (
  a,
  refl,
  record {
    ranks_length = refl;
    sizes_length = refl;
    below = λ r h. refl;
    below_sizes = λ r h. refl;
    assigned = tt;
  },
)
assign_groups-Groups nlocs s n ((p, g) ∷ groups) a sm t hn hr hs =
    let le = Tiles-le (s + 1 + length g) n groups t.2 in
    let (b, e, m) =
      Members-of nlocs p (s + 1) (length g) g a sm t.1 (omega arith) (omega arith) (omega arith) in
    let pairs : Assignment = pairs_of nlocs g in
    let lp : length pairs ≡ length g = length-map (λ r. (r, nlocs_of nlocs r)) g in
    let c : RankAssignments = record {
      ranks = set b.ranks p pairs;
      sizes = set b.sizes p (length pairs);
    } in
    let lr = length-set b.ranks p pairs in
    let ls = length-set b.sizes p (length pairs) in
    let (d, f, r) =
      assign_groups-Groups nlocs (s + 1 + length g) n groups c sm t.2 hn
        (omega (arith, lr, m.ranks_length)) (omega (arith, ls, m.sizes_length)) in
    (
      d,
      rw (
        e,
        put_inside b.ranks p pairs (omega (arith, m.ranks_length, t.0)),
        put_inside b.sizes p (length pairs) (omega (arith, m.sizes_length, t.0)),
        f,
      ),
      record {
        ranks_length = r.ranks_length ∙ lr ∙ m.ranks_length;
        sizes_length = r.sizes_length ∙ ls ∙ m.sizes_length;
        below = λ q h.
            r.below q (omega arith)
            ∙ get_elem?-set_ne b.ranks p q pairs (λ z. omega (arith, t.0))
            ∙ m.below q (omega arith);
        below_sizes = λ q h.
            r.below_sizes q (omega arith)
            ∙ get_elem?-set_ne b.sizes p q (length pairs) (λ z. omega (arith, t.0))
            ∙ m.below_sizes q (omega arith);
        assigned = (
          r.below p (omega (arith, t.0))
              ∙ get_elem?-set_self b.ranks p pairs (omega (arith, m.ranks_length, t.0)),
          r.below_sizes p (omega (arith, t.0))
              ∙ get_elem?-set_self b.sizes p (length pairs) (omega (arith, m.sizes_length, t.0))
              ∙ ap some lp,
          λ q h h'. (
            r.below q (omega (arith, t.0))
                ∙ get_elem?-set_ne b.ranks p q pairs (λ z. omega (arith, t.0))
                ∙ m.inside q (omega (arith, t.0)) (omega (arith, t.0)),
            r.below_sizes q (omega (arith, t.0))
                ∙ get_elem?-set_ne b.sizes p q (length pairs) (λ z. omega (arith, t.0))
                ∙ m.inside_sizes q (omega (arith, t.0)) (omega (arith, t.0)),
          ),
          r.assigned,
        );
      },
    )

-- For tiles of all the ranks, and numbers of locations that fit into an int, the assignment succeeds, and gives each rank of the pool its group's
-- ranks with their numbers of locations, and each other rank its pool rank.
pub assign_ranks-Assigned :
    (nlocs : List ℕ) (groups : IoPoolGroupMap)
    → Small nlocs
    → Tiles 0 groups (length nlocs)
    → (a : RankAssignments) × (assign_ranks (length nlocs) nlocs groups ≡ ok a)
      × Assigned nlocs groups a
unfolding assign_ranks
assign_ranks-Assigned nlocs groups sm t =
    let zr = length-replicate (length nlocs) (let e : Assignment = [] in e) in
    let zs = length-replicate {A = ℕ} (length nlocs) 0 in
    let (a, e, g) =
      assign_groups-Groups nlocs 0 (length nlocs) groups
        (record { ranks = replicate (length nlocs) []; sizes = replicate (length nlocs) 0 }) sm t
        (omega arith) (omega (arith, zr)) (omega (arith, zs)) in
    (a, e, g.assigned)
