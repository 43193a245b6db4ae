-- ===== src/Distribution/RoundRobin.antt =====
-- Distributions that give each record to one rank (RoundRobin.cc): every location of the input is
-- counted by exactly one rank.
use native.Mathlib.Nat.{mod-lt}
use ioda.Prelude.{
  ℕ, zero, suc, ◌+◌, ◌%◌, ◌<◌, ◌≡◌, refl, ap₂, ◌∙◌, Bool, true, false, List, [], ◌∷◌, map, iota,
  sum, length, if◌then◌else◌, ◌==◌, ltb, arith,
}
use ioda.Distribution.{
  Nonoverlapping, new_nonoverlapping, assign_record, assign_records, round_robin_record,
}

abbrev one_if : Bool → ℕ
one_if b = if b then 1 else 0

-- How many of the records are a rank's.
owned : (ℕ → Bool) → List ℕ → ℕ
owned is_mine [] = 0
owned is_mine (rec ∷ recs) = one_if (is_mine rec) + owned is_mine recs

assign_records-owned :
    (is_mine : ℕ → Bool) (recs : List ℕ) (n : Nonoverlapping)
    → (assign_records is_mine recs n).num_locations_on_this_rank
      ≡ n.num_locations_on_this_rank + owned is_mine recs
unfolding assign_records assign_record owned
assign_records-owned is_mine [] n = omega arith
assign_records-owned is_mine (rec ∷ recs) n =
    let rest = assign_records-owned is_mine recs (assign_record (is_mine rec) n) in
    rest ∙ step (is_mine rec)
  where
    step :
        (b : Bool)
        → (assign_record b n).num_locations_on_this_rank + owned is_mine recs
          ≡ n.num_locations_on_this_rank + (one_if b + owned is_mine recs)
    step true = omega arith
    step false = omega arith

sum_zip :
    (f g : ℕ → ℕ) (ranks : List ℕ)
    → sum (map (λ r. f r + g r) ranks) ≡ sum (map f ranks) + sum (map g ranks)
sum_zip f g [] = refl
sum_zip f g (r ∷ ranks) = omega (arith, sum_zip f g ranks)

sum_zero : (f : ℕ → ℕ) (ranks : List ℕ) → ((r : ℕ) → f r ≡ 0) → sum (map f ranks) ≡ 0
sum_zero f [] h = refl
sum_zero f (r ∷ ranks) h = omega (arith, h r, sum_zero f ranks h)

-- Among the ranks s, ..., s + n - 1 there is one number k, or none.
one_owner :
    (k s n : ℕ)
    → sum (map (λ r. one_if (k == r)) (iota s n))
      ≡ (if ltb k s then 0 else if ltb k (s + n) then 1 else 0)
one_owner k s zero = ground arith
one_owner k s (suc n) = ground (arith, one_owner k (suc s) n)

sum_ext :
    {f g : ℕ → ℕ} → ((r : ℕ) → f r ≡ g r) → (ranks : List ℕ) → sum (map f ranks) ≡ sum (map g ranks)
sum_ext h [] = refl
sum_ext h (r ∷ ranks) = ap₂ ◌+◌ (h r) (sum_ext h ranks)

-- With any number of ranks but none, round robin makes the numbers of locations of the ranks add
-- up to the number of locations whose records were assigned.
pub round_robin-partition :
    (size : ℕ) (recs : List ℕ)
    → 0 < size
    → sum (
        map
          (λ r.
            (assign_records
              (round_robin_record size r)
              recs
              new_nonoverlapping).num_locations_on_this_rank)
          (iota 0 size))
      ≡ length recs
unfolding owned round_robin_record
round_robin-partition size recs p =
    sum_ext
      (λ r. assign_records-owned (round_robin_record size r) recs new_nonoverlapping ∙ omega arith)
      (iota 0 size)
    ∙ owners recs
  where
    one : (k : ℕ) → k < size → sum (map (λ r. one_if (k == r)) (iota 0 size)) ≡ 1
    one k h = one_owner k 0 size ∙ ground arith

    owners :
        (rs : List ℕ)
        → sum (map (λ r. owned (round_robin_record size r) rs) (iota 0 size)) ≡ length rs
    owners [] = sum_zero (λ r. 0) (iota 0 size) (λ r. refl)
    owners (rec ∷ rs) =
        sum_zip (λ r. one_if (rec % size == r)) (λ r. owned (round_robin_record size r) rs)
          (iota 0 size)
        ∙ ap₂ ◌+◌ (one (rec % size) (mod-lt rec p)) (owners rs)
        ∙ omega arith
