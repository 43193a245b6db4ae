-- ===== src/IoPool/Groups.antt =====
-- WriterPool::groupRanks: the groups are consecutive tiles of the ranks.
use native.Mathlib.Nat.{div-add-mod', mod-lt, mul_comm}
use mathlib.Core.List.{append-nil, append_assoc}
use ioda.Prelude.{
  ℕ, zero, suc, ◌+◌, ◌-◌, ◌*◌, ◌/◌, ◌%◌, ◌≤◌, ◌<◌, ◌≡◌, refl, ap, ◌⊎◌, min, List, [], ◌∷◌, ◌++◌,
  ltb, if◌then◌else◌, length, length-iota, iota, All, arith, ok, ==_ne,
}
use ioda.IoPool.{IoPoolGroupMap, set_target_pool_size, insert_group, group_loop, group_ranks}

-- The ranks from s to n - 1 in consecutive groups: the pool rank first, the others behind it.
abbrev pub Tiles : ℕ → IoPoolGroupMap → ℕ → Type 0
Tiles s [] n = s ≡ n
Tiles s ((p, g) ∷ groups) n =
    (p ≡ s) × (g ≡ iota (s + 1) (length g)) × Tiles (s + 1 + length g) groups n

-- Every group has as many ranks as another, or one more or less.
abbrev pub Even : ℕ → IoPoolGroupMap → Type 0
Even base groups = All (λ g. (length g.1 + 1 ≡ base) ⊎ (length g.1 + 1 ≡ base + 1)) groups

abbrev KeysBelow : ℕ → IoPoolGroupMap → Type 0
KeysBelow k groups = All (λ g. g.0 < k) groups

insert_group-last :
    (k : ℕ) (g : List ℕ) (groups : IoPoolGroupMap)
    → KeysBelow k groups
    → insert_group k g groups ≡ groups ++ (k, g) ∷ []
unfolding insert_group
insert_group-last k g [] h = refl
insert_group-last k g ((j, x) ∷ groups) h = ground (arith, insert_group-last k g groups h.1)

KeysBelow-append :
    (k k' : ℕ) (g : List ℕ) (groups : IoPoolGroupMap)
    → k < k'
    → KeysBelow k groups
    → KeysBelow k' (groups ++ (k, g) ∷ [])
KeysBelow-append k k' g [] h b = (h, tt)
KeysBelow-append k k' g (x ∷ groups) h b =
    (omega (arith, b.0), KeysBelow-append k k' g groups h b.1)

abbrev count_of : ℕ → ℕ → ℕ → ℕ
count_of base rem i = if ltb i rem then base + 1 else base

-- The groups that the loop adds.
tiles_loop : ℕ → ℕ → ℕ → ℕ → ℕ → IoPoolGroupMap
tiles_loop base rem start i zero = []
tiles_loop base rem start i (suc left) =
    (start, iota (start + 1) (count_of base rem i - 1))
    ∷ tiles_loop base rem (start + count_of base rem i) (i + 1) left

group_loop-tiles :
    (base rem start i left : ℕ) (groups : IoPoolGroupMap)
    → 0 < base
    → KeysBelow start groups
    → group_loop base rem start i left groups ≡ ok (groups ++ tiles_loop base rem start i left)
unfolding group_loop tiles_loop
group_loop-tiles base rem start i zero groups b k = rw append-nil
group_loop-tiles base rem start i (suc left) groups b k =
    let pos : 0 < count_of base rem i = ground arith in
    rw
      (
        ==_ne (count_of base rem i) 0 (λ e. omega arith),
        insert_group-last start (iota (start + 1) (count_of base rem i - 1)) groups k,
        group_loop-tiles base rem (start + count_of base rem i) (i + 1) left
            (groups ++ (start, iota (start + 1) (count_of base rem i - 1)) ∷ []) b
            (KeysBelow-append start _ _ groups (omega arith) k),
      )
      (ap ok (append_assoc groups _ _))

tiles_loop-Tiles :
    (base rem start i left n : ℕ)
    → 0 < base
    → start + left * base + (min (i + left) rem - min i rem) ≡ n
    → Tiles start (tiles_loop base rem start i left) n
unfolding tiles_loop
tiles_loop-Tiles base rem start i zero n b e =
    let z : i + 0 ≡ i = omega arith in omega (arith, ap (λ k. min k rem) z)
tiles_loop-Tiles base rem start i (suc left) n b e =
    let pos : 0 < count_of base rem i = ground arith in
    let c : count_of base rem i ≡ base + (min (i + 1) rem - min i rem) = ground arith in
    let l = length-iota (start + 1) (count_of base rem i - 1) in
    let next : start + 1 + length (iota (start + 1) (count_of base rem i - 1))
        ≡ start + count_of base rem i =
      omega (arith, l) in
    (
      refl,
      rw l,
      rw next
          (tiles_loop-Tiles base rem (start + count_of base rem i) (i + 1) left n b (omega arith)),
    )

tiles_loop-Even :
    (base rem start i left : ℕ) → 0 < base → Even base (tiles_loop base rem start i left)
unfolding tiles_loop
tiles_loop-Even base rem start i zero b = tt
tiles_loop-Even base rem start i (suc left) b =
    let l = length-iota (start + 1) (count_of base rem i - 1) in
    let c : (count_of base rem i ≡ base) ⊎ (count_of base rem i ≡ base + 1) = ground arith in
    (omega (arith, l, c), tiles_loop-Even base rem (start + count_of base rem i) (i + 1) left b)

length-tiles_loop : (base rem start i left : ℕ) → length (tiles_loop base rem start i left) ≡ left
unfolding tiles_loop
length-tiles_loop base rem start i zero = refl
length-tiles_loop base rem start i (suc left) =
    ap suc (length-tiles_loop base rem (start + count_of base rem i) (i + 1) left)

quotient_pos : (q t r n : ℕ) → q * t + r ≡ n → r < t → t ≤ n → 0 < q
quotient_pos zero t r n e h l = absurd (omega arith)
quotient_pos (suc q) t r n e h l = omega arith

-- With no more groups than ranks, and at least one: the groups are as many as asked for, they are
-- consecutive tiles of all the ranks, and their sizes differ by at most one.
pub group_ranks-Tiles :
    (size_all target : ℕ)
    → 0 < target
    → target ≤ size_all
    → (groups : IoPoolGroupMap) × (group_ranks size_all target ≡ ok groups)
      × (length groups ≡ target)
      × Tiles 0 groups size_all
      × Even (size_all / target) groups
unfolding group_ranks
group_ranks-Tiles size_all zero h l = absurd (omega arith)
group_ranks-Tiles size_all (suc t) h l =
    let base = size_all / suc t in
    let rem = size_all % suc t in
    let whole : size_all / suc t * suc t + size_all % suc t ≡ size_all =
      div-add-mod' size_all (suc t) in
    let small : size_all % suc t < suc t = mod-lt size_all h in
    let pos : 0 < size_all / suc t =
      quotient_pos (size_all / suc t) (suc t) (size_all % suc t) size_all whole small l in
    (
      tiles_loop base rem 0 0 (suc t),
      group_loop-tiles base rem 0 0 (suc t) [] pos tt,
      length-tiles_loop base rem 0 0 (suc t),
      tiles_loop-Tiles base rem 0 0 (suc t) size_all pos
          (omega (arith, whole, mul_comm (size_all / suc t) (suc t))),
      tiles_loop-Even base rem 0 0 (suc t) pos,
    )

-- With at least one rank, the target lies between 1 and the number of ranks.
pub set_target_pool_size_bounds :
    (max size_all : ℕ)
    → 0 < size_all
    → (0 < set_target_pool_size max size_all) × (set_target_pool_size max size_all ≤ size_all)
unfolding set_target_pool_size
set_target_pool_size_bounds max size_all h = ground arith
