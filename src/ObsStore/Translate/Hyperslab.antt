-- ===== src/ObsStore/Translate/Hyperslab.antt =====
-- genDimSelects for a hyperslab: which positions it selects.
use mathlib.Core.Option.{some-injective}
use ioda.Prelude.{
  ℕ, zero, suc, ◌+◌, ◌*◌, ◌≤◌, ◌<◌, ◌≡◌, refl, ap, ◌∙◌, ◌⊎◌, inl, inr, List, [], ◌∷◌, length,
  length-append, get_elem?, get_elem?_inside, get_elem?-append_left, get_elem?-append_right, some,
  arith, ok, at, wrap, size_mod, mod-eq_of_lt,
}
use ioda.ObsStore.Translate.{
  SingleSelection, at_or_one, push_block, push_blocks, hyperslab_from, gen_hyperslab_selects,
}

length-push_block : (s j n : ℕ) → length (push_block s j n) ≡ n
length-push_block s j zero = refl
length-push_block s j (suc n) = ap suc (length-push_block s (suc j) n)

length-push_blocks : (s t b i n : ℕ) → length (push_blocks s t b i n) ≡ n * b
unfolding push_blocks
length-push_blocks s t b i zero = omega arith
length-push_blocks s t b i (suc n) =
    let first = wrap (s + wrap (i * t)) in
    omega (
      arith,
      length-append (push_block first 0 b) (push_blocks s t b (suc i) n),
      length-push_block first 0 b,
      length-push_blocks s t b (suc i) n,
    )

get_elem?-push_block :
    (s j n k : ℕ) → k < n → get_elem? (push_block s j n) k ≡ some (wrap (s + (j + k)))
get_elem?-push_block s j zero k h = absurd (omega arith)
get_elem?-push_block s j (suc n) zero h = let e : j + 0 ≡ j = omega arith in rw e
get_elem?-push_block s j (suc n) (suc k) h =
    let e : j + suc k ≡ suc j + k = omega arith in
    rw e (get_elem?-push_block s (suc j) n k (omega arith))

get_elem?-push_blocks :
    (s t b i n k j : ℕ)
    → k < n
    → j < b
    → get_elem? (push_blocks s t b i n) (k * b + j)
      ≡ some (wrap (wrap (s + wrap ((i + k) * t)) + j))
unfolding push_blocks
get_elem?-push_blocks s t b i zero k j h l = absurd (omega arith)
get_elem?-push_blocks s t b i (suc n) zero j h l =
    let e : 0 * b + j ≡ j = omega arith in
    let f : i + 0 ≡ i = omega arith in
    let first = wrap (s + wrap (i * t)) in
    let z : 0 + j ≡ j = omega arith in
    rw (e, f)
      (get_elem?-append_left (push_block first 0 b) (push_blocks s t b (suc i) n) j
          (omega (arith, length-push_block first 0 b))
        ∙ get_elem?-push_block first 0 b j l
        ∙ ap (λ r. some (wrap (first + r))) z)
get_elem?-push_blocks s t b i (suc n) (suc k) j h l =
    let first = wrap (s + wrap (i * t)) in
    let e : suc k * b + j ≡ length (push_block first 0 b) + (k * b + j) =
      omega (arith, length-push_block first 0 b) in
    let f : i + suc k ≡ suc i + k = omega arith in
    rw (e, f)
      (get_elem?-append_right (push_block first 0 b) (push_blocks s t b (suc i) n) (k * b + j)
        ∙ get_elem?-push_blocks s t b (suc i) n k j (omega arith) l)

-- Every dimension of `start` has its parameters.
abbrev HasParams : List ℕ → ℕ → Type 0
HasParams xs n = (xs ≡ []) ⊎ (n ≤ length xs)

at_or_one_inside :
    (xs : List ℕ) (n i : ℕ) → HasParams xs n → i < n → (x : ℕ) × (at_or_one xs i ≡ ok x)
at_or_one_inside [] n i h l = (1, refl)
at_or_one_inside (x ∷ xs) n i (inl e) l = cc
at_or_one_inside (x ∷ xs) n i (inr h) l =
    let (y, e) = get_elem?_inside (x ∷ xs) i (omega arith) in (y, rw e)

-- The dimensions from number idim on, one after the other.
hyperslab_from-at :
    (start count stride block : List ℕ) (idim n d s c t b : ℕ)
    → idim + length start ≤ n
    → n ≤ length count
    → HasParams stride n
    → HasParams block n
    → get_elem? start d ≡ some s
    → at count (idim + d) ≡ ok c
    → at_or_one stride (idim + d) ≡ ok t
    → at_or_one block (idim + d) ≡ ok b
    → (selects : List (List ℕ)) × (hyperslab_from start count stride block idim ≡ ok selects)
      × (get_elem? selects d ≡ some (push_blocks s t b 0 c))
unfolding hyperslab_from
hyperslab_from-at [] count stride block idim n d s c t b l lc ls lb es ec et eb = cc
hyperslab_from-at (s' ∷ start) count stride block idim n zero s c t b l lc ls lb es ec et eb =
    let z : idim + 0 ≡ idim = omega arith in
    let (rest, e) = rest_of start (suc idim) (omega arith) in
    (
      push_blocks s' t b 0 c ∷ rest,
      rw (rw z at ec, rw z at et, rw z at eb, e),
      ap (λ x. some (push_blocks x t b 0 c)) (some-injective s' s es),
    )
  where
    rest_of :
        (start : List ℕ) (idim : ℕ)
        → idim + length start ≤ n
        → (rest : List (List ℕ)) × (hyperslab_from start count stride block idim ≡ ok rest)
    rest_of [] idim l = ([], refl)
    rest_of (s ∷ start) idim l =
        let (c, ec) = get_elem?_inside count idim (omega arith) in
        let (t, et) = at_or_one_inside stride n idim ls (omega arith) in
        let (b, eb) = at_or_one_inside block n idim lb (omega arith) in
        let (rest, e) = rest_of start (suc idim) (omega arith) in
        (push_blocks s t b 0 c ∷ rest, rw (ec, et, eb, e))
hyperslab_from-at (s' ∷ start) count stride block idim n (suc d) s c t b l lc ls lb es ec et eb =
    let z : idim + suc d ≡ suc idim + d = omega arith in
    let (c', ec') = get_elem?_inside count idim (omega arith) in
    let (t', et') = at_or_one_inside stride n idim ls (omega arith) in
    let (b', eb') = at_or_one_inside block n idim lb (omega arith) in
    let (rest, e, f) =
      hyperslab_from-at start count stride block (suc idim) n d s c t b (omega arith) lc ls lb es
        (rw z at ec) (rw z at et) (rw z at eb) in
    (push_blocks s' t' b' 0 c' ∷ rest, rw (ec', et', eb', e), f)

no_wraps :
    (s i t j : ℕ)
    → s + i * t + j < size_mod
    → wrap (wrap (s + wrap ((0 + i) * t)) + j) ≡ s + i * t + j
no_wraps s i t j h =
    let z : 0 + i ≡ i = omega arith in
    let one : wrap (i * t) ≡ i * t = mod-eq_of_lt (omega arith) in
    let two : wrap (s + i * t) ≡ s + i * t = mod-eq_of_lt (omega arith) in
    rw (z, one, two) (mod-eq_of_lt h)

-- A hyperslab whose parameters are there for every dimension of `start` is translated, and in a
-- dimension with start s, count c, stride t and block b it selects c * b positions, of which number
-- i * b + j is s + i * t + j (for i < c, j < b, and a position below 2 ^ 64). A stride or block that
-- is left out counts as 1.
pub hyperslab-position :
    (a : SingleSelection) (d s c t b i j : ℕ)
    → length a.start ≤ length a.count
    → HasParams a.stride (length a.start)
    → HasParams a.block (length a.start)
    → get_elem? a.start d ≡ some s
    → at a.count d ≡ ok c
    → at_or_one a.stride d ≡ ok t
    → at_or_one a.block d ≡ ok b
    → i < c
    → j < b
    → s + i * t + j < size_mod
    → (selects : List (List ℕ)) × (dim : List ℕ) × (gen_hyperslab_selects a ≡ ok selects)
      × (get_elem? selects d ≡ some dim)
      × (length dim ≡ c * b)
      × (get_elem? dim (i * b + j) ≡ some (s + i * t + j))
unfolding gen_hyperslab_selects
hyperslab-position a d s c t b i j lc ls lb es ec et eb hi hj h =
    let z : 0 + d ≡ d = omega arith in
    let (selects, e, f) =
      hyperslab_from-at a.start a.count a.stride a.block 0 (length a.start) d s c t b (omega arith)
        lc ls lb es (rw (← z) at ec) (rw (← z) at et) (rw (← z) at eb) in
    (
      selects,
      push_blocks s t b 0 c,
      e,
      f,
      length-push_blocks s t b 0 c,
      get_elem?-push_blocks s t b 0 c i j hi hj ∙ ap some (no_wraps s i t j h),
    )
