-- ===== src/ObsStore/Selection/Whole.antt =====
-- The mode ALL of class Selection: what the iterator of Selection(start, npoints) goes through.
use ioda.Prelude.{
  ℕ, zero, suc, ◌+◌, ◌<◌, ◌≡◌, refl, inl, inr, true, false, [], ltb, arith, ok, err, exception,
  wrap, size_mod, mod-eq_of_lt, ◌>>=◌, iota, if◌then◌else◌, Bool-cases, leb,
}
use ioda.ObsStore.Counter.{all, new_counter}
use ioda.ObsStore.Selection.{
  Selection, select_all, init_lin_indx, next_lin_indx, end_lin_indx, indices, int_max, pred_int,
  to_size,
}

-- The selection of everything at iteration i of its walk.
abbrev at_index : ℕ → ℕ → ℕ → Selection
at_index total npoints i = record {
  mode = all;
  end = pred_int total;
  index = i;
  npoints = npoints;
  max_index = to_size (pred_int total);
  dim_selects = [];
  dim_sizes = [];
  dim_select_sizes = [];
  counter = new_counter;
}

indices-at_index :
    (m fuel total npoints i : ℕ)
    → i + m ≡ total
    → m < fuel
    → indices fuel (at_index total npoints i) ≡ ok (iota i m)
unfolding indices end_lin_indx next_lin_indx
indices-at_index m zero total npoints i e f = absurd (omega arith)
indices-at_index zero (suc fuel) zero npoints i e f = refl
indices-at_index zero (suc fuel) (suc total) npoints i e f =
    let past : ltb total i ≡ true = ground arith in rw past
indices-at_index (suc m) (suc fuel) zero npoints i e f = absurd (omega arith)
indices-at_index (suc m) (suc fuel) (suc total) npoints i e f =
    let inside : ltb total i ≡ false = ground arith in
    let i' : i + 1 ≡ suc i = omega arith in
    rw (inside, i', indices-at_index m fuel (suc total) npoints (suc i) (omega arith) (omega arith))

-- For start + npoints below 2 ^ 64, and more fuel than that: Selection(start, npoints) goes through
-- 0, 1, ... up to start + npoints - 1 if start + npoints is an int, and throws otherwise.
pub indices-all :
    (start npoints fuel : ℕ)
    → start + npoints < size_mod
    → start + npoints < fuel
    → (select_all start npoints >>= λ sel. indices fuel (init_lin_indx sel))
      ≡ (if leb (start + npoints) int_max then ok (iota 0 (start + npoints)) else err exception)
unfolding select_all init_lin_indx
indices-all start npoints fuel b f =
    let e : wrap (start + npoints) ≡ start + npoints = mod-eq_of_lt b in
    rw e (elim (Bool-cases (leb (start + npoints) int_max)) [
      | inr h ↦ rw h
      | inl h ↦
          rw h (indices-at_index (start + npoints) fuel (start + npoints) npoints 0 (omega arith) f)
    ])
