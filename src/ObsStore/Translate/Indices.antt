-- ===== src/ObsStore/Translate/Indices.antt =====
-- genDimSelects for indices along dimensions: the ordered set of the indices of an action.
use ioda.Prelude.{
  ℕ, zero, suc, ◌+◌, ◌<◌, ◌≡◌, refl, ap, ◌∙◌, List, [], ◌∷◌, length, All, Rising, All-lt_trans,
  contains, Bool, true, false, ◌||◌, ◌==◌, if◌then◌else◌, arith, wrap, iota, replicate, set, ok,
  ==_ne, ==_iff, at,
}
use ioda.ObsStore.Translate.{
  insert, insert_run, dim_indices, fill_unfilled, gen_index_selects, apply_actions, SingleSelection,
}

-- Is x one of idx + j, ..., idx + j + n - 1?
abbrev pub in_run : ℕ → ℕ → ℕ → ℕ → Bool
in_run x idx j zero = false
in_run x idx j (suc n) = x == wrap (idx + j) || in_run x idx (suc j) n

-- The indices of an action: each start, and with n counts each start + j for j < n.
abbrev pub selected : ℕ → List ℕ → List ℕ → Bool
selected x [] counts = false
selected x (idx ∷ starts) [] = x == idx || selected x starts []
selected x (idx ∷ starts) (c ∷ counts) =
    in_run x idx 0 (length (c ∷ counts)) || selected x starts (c ∷ counts)

contains-insert : (x y : ℕ) (ys : List ℕ) → contains x (insert y ys) ≡ (x == y || contains x ys)
unfolding insert
contains-insert x y [] = refl
contains-insert x y (z ∷ ys) = ground (arith, contains-insert x y ys)

insert-All : (x y : ℕ) (ys : List ℕ) → x < y → All (λ z. x < z) ys → All (λ z. x < z) (insert y ys)
unfolding insert
insert-All x y [] h a = (h, tt)
insert-All x y (z ∷ ys) h a = ground (arith, insert-All x y ys h a.1)

insert-Rising : (y : ℕ) (ys : List ℕ) → Rising ys → Rising (insert y ys)
unfolding insert
insert-Rising y [] r = (tt, tt)
insert-Rising y (z ∷ ys) r =
    ground (arith, insert-Rising y ys r.1, insert-All z y ys, All-lt_trans y z ys)

contains-insert_run :
    (x idx j n : ℕ) (indices : List ℕ)
    → contains x (insert_run idx j n indices) ≡ (in_run x idx j n || contains x indices)
unfolding insert_run
contains-insert_run x idx j zero indices = refl
contains-insert_run x idx j (suc n) indices = ground (
  arith,
  contains-insert_run x idx (suc j) n (insert (wrap (idx + j)) indices),
  contains-insert x (wrap (idx + j)) indices,
)

insert_run-Rising :
    (idx j n : ℕ) (indices : List ℕ) → Rising indices → Rising (insert_run idx j n indices)
unfolding insert_run
insert_run-Rising idx j zero indices r = r
insert_run-Rising idx j (suc n) indices r =
    insert_run-Rising idx (suc j) n (insert (wrap (idx + j)) indices)
      (insert-Rising (wrap (idx + j)) indices r)

contains-dim_indices :
    (x : ℕ) (starts counts indices : List ℕ)
    → contains x (dim_indices starts counts indices)
      ≡ (selected x starts counts || contains x indices)
unfolding dim_indices
contains-dim_indices x [] counts indices = refl
contains-dim_indices x (idx ∷ starts) [] indices =
    ground
      (arith, contains-dim_indices x starts [] (insert idx indices), contains-insert x idx indices)
contains-dim_indices x (idx ∷ starts) (c ∷ counts) indices =
    contains-dim_indices x starts (c ∷ counts) (insert_run idx 0 (length (c ∷ counts)) indices)
    ∙ ap (λ b. selected x starts (c ∷ counts) || b)
        (contains-insert_run x idx 0 (length (c ∷ counts)) indices)
    ∙ or_swap (selected x starts (c ∷ counts)) (in_run x idx 0 (length (c ∷ counts)))
        (contains x indices)
  where
    or_swap : (a b c : Bool) → (a || (b || c)) ≡ ((b || a) || c)
    or_swap a b c = ground arith

dim_indices-Rising :
    (starts counts indices : List ℕ) → Rising indices → Rising (dim_indices starts counts indices)
unfolding dim_indices
dim_indices-Rising [] counts indices r = r
dim_indices-Rising (idx ∷ starts) [] indices r =
    dim_indices-Rising starts [] (insert idx indices) (insert-Rising idx indices r)
dim_indices-Rising (idx ∷ starts) (c ∷ counts) indices r =
    dim_indices-Rising starts (c ∷ counts) _
      (insert_run-Rising idx 0 (length (c ∷ counts)) indices r)

-- The indices of an action are in rising order, each once, and they are: with no counts the
-- starts, and otherwise start + j (modulo 2 ^ 64) for each start and each j below the number of
-- counts, whatever the counts.
pub dim_indices-set :
    (x : ℕ) (starts counts : List ℕ)
    → Rising (dim_indices starts counts [])
      × (contains x (dim_indices starts counts []) ≡ selected x starts counts)
dim_indices-set x starts counts = (
  dim_indices-Rising starts counts [] tt,
  contains-dim_indices x starts counts [] ∙ or_false (selected x starts counts),
)
  where
    or_false : (b : Bool) → (b || false) ≡ b
    or_false b = ground arith

-- The selection of one dimension, all of the others being selected whole.
abbrev pub other_whole : ℕ → List ℕ → ℕ → List ℕ → List (List ℕ)
other_whole d dim e [] = []
other_whole d dim e (n ∷ sizes) =
    (if e == d then dim else iota 0 n) ∷ other_whole d dim (suc e) sizes

unfilled_all :
    (d e : ℕ) (dim : List ℕ) (sizes : List ℕ)
    → d < e
    → fill_unfilled (replicate (length sizes) []) sizes ≡ ok (other_whole d dim e sizes)
unfolding fill_unfilled
unfilled_all d e dim [] h = refl
unfilled_all d e dim (n ∷ sizes) h =
    rw (unfilled_all d (suc e) dim sizes (omega arith), ==_ne e d (λ q. omega arith))

filled_one :
    (d e k : ℕ) (x : ℕ) (dim : List ℕ) (sizes : List ℕ)
    → e + k ≡ d
    → k < length sizes
    → fill_unfilled (set (replicate (length sizes) []) k (x ∷ dim)) sizes
      ≡ ok (other_whole d (x ∷ dim) e sizes)
unfolding fill_unfilled
filled_one d e k x dim [] q h = absurd (omega arith)
filled_one d e zero x dim (n ∷ sizes) q h =
    rw (unfilled_all d (suc e) (x ∷ dim) sizes (omega arith), (==_iff e d).1 (omega arith))
filled_one d e (suc k) x dim (n ∷ sizes) q h =
    rw
      (filled_one d (suc e) k x dim sizes (omega arith) (omega arith), ==_ne e d (λ r. omega arith))

-- An action with a start selects something.
pub first_selected :
    (idx : ℕ) (starts counts : List ℕ) → (x : ℕ) × (selected x (idx ∷ starts) counts ≡ true)
first_selected idx starts [] = (idx, rw ((==_iff idx idx).1 refl))
first_selected idx starts (c ∷ counts) =
    (wrap (idx + 0), rw ((==_iff (wrap (idx + 0)) (wrap (idx + 0))).1 refl))

pub cons_of_contains :
    (x : ℕ) (ys : List ℕ) → contains x ys ≡ true → (y : ℕ) × (zs : List ℕ) × (ys ≡ y ∷ zs)
cons_of_contains x [] h = cc
cons_of_contains x (y ∷ ys) h = (y, ys, refl)

at-replicate : (n k : ℕ) → k < n → at (replicate n (let e : List ℕ = [] in e)) k ≡ ok []
at-replicate zero k h = absurd (omega arith)
at-replicate (suc n) zero h = refl
at-replicate (suc n) (suc k) h = at-replicate n k (omega arith)

-- One action with a start, along a dimension that is there, is translated to its set of indices in
-- that dimension and to all indices in every other dimension.
pub gen_index_selects-one :
    (a : SingleSelection) (idx : ℕ) (starts sizes : List ℕ)
    → a.dimension_indices_starts ≡ idx ∷ starts
    → a.dimension < length sizes
    → gen_index_selects (a ∷ []) sizes
      ≡ ok (
          other_whole a.dimension
            (dim_indices (idx ∷ starts) a.dimension_indices_counts [])
            0
            sizes)
unfolding gen_index_selects apply_actions
gen_index_selects-one a idx starts sizes e h =
    let (x, sel) = first_selected idx starts a.dimension_indices_counts in
    let set-lem = dim_indices-set x (idx ∷ starts) a.dimension_indices_counts in
    let (y, zs, c) = cons_of_contains x _ (set-lem.1 ∙ sel) in
    rw (at-replicate (length sizes) a.dimension h, e, c)
      (filled_one a.dimension 0 a.dimension y zs sizes (omega arith) h)
