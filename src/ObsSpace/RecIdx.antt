-- ===== src/ObsSpace/RecIdx.antt =====
-- recidx_ of class ObsSpace: the locations of each record, without sorting, and the accessors.
use mathlib.Core.List.{append_assoc}
use ioda.Prelude.{
  ℕ, zero, suc, ◌+◌, ◌≡◌, refl, ap, sym, ◌∙◌, Bool, true, false, List, [], ◌∷◌, ◌++◌, map, Option,
  some, none, ◌==◌, length, at-middle, length-snoc, set, set-append, replicate, at, Result, ok, err,
  exception, ◌>>=◌, if◌then◌else◌, arith,
}
use ioda.ObsSpace.OrderedMap.{lookup, push_back, push_all, picks, pushed, lookup-push_all}

abbrev pub RecIdx : Type 0
RecIdx = List (ℕ × List ℕ)

-- recidx_has
unfoldable pub recidx_has : RecIdx → ℕ → Bool
unfolding lookup
recidx_has recidx rec_num = elim (lookup rec_num recidx) [ none ↦ false | some locs ↦ true ]

-- recidx_vector(recNum); ABORT is the exception.
unfoldable pub recidx_vector : RecIdx → ℕ → Result (List ℕ)
unfolding lookup
recidx_vector recidx rec_num = elim (lookup rec_num recidx) [
  | none ↦ err exception
  | some locs ↦ ok locs
]

-- The loop of recidx_all_recnums; RecNums[recnum] past the end is undefined.
unfoldable pub fill_recnums : RecIdx → ℕ → List ℕ → Result (List ℕ)
fill_recnums [] recnum rec_nums = ok rec_nums
fill_recnums ((r, locs) ∷ recidx) recnum rec_nums =
    at rec_nums recnum >>= λ old. fill_recnums recidx (suc recnum) (set rec_nums recnum r)

unfoldable pub recidx_all_recnums : ℕ → RecIdx → Result (List ℕ)
unfolding fill_recnums
recidx_all_recnums nrecs recidx = fill_recnums recidx 0 (replicate nrecs 0)

-- The loop of buildRecIdxUnsorted: `left` locations from iloc on.
unfoldable pub unsorted_loop : List ℕ → ℕ → ℕ → RecIdx → Result RecIdx
unsorted_loop recnums iloc zero recidx = ok recidx
unsorted_loop recnums iloc (suc left) recidx =
    at recnums iloc >>= λ r. unsorted_loop recnums (suc iloc) left (push_back r iloc recidx)

-- buildRecIdxUnsorted on an empty recidx_.
unfoldable pub build_rec_idx_unsorted : ℕ → List ℕ → Result RecIdx
unfolding unsorted_loop
build_rec_idx_unsorted nlocs recnums = unsorted_loop recnums 0 nlocs []

-- The locations of a record from location iloc on, in ascending order.
unfoldable pub locations_of : ℕ → ℕ → List ℕ → List ℕ
locations_of r iloc [] = []
locations_of r iloc (q ∷ recnums) =
    let rest = locations_of r (suc iloc) recnums in if q == r then iloc ∷ rest else rest

pub numbered : ℕ → List ℕ → List (ℕ × ℕ)
numbered iloc [] = []
numbered iloc (q ∷ recnums) = (q, iloc) ∷ numbered (suc iloc) recnums

picks-numbered :
    (r iloc : ℕ) (recnums : List ℕ) → picks r (numbered iloc recnums) ≡ locations_of r iloc recnums
unfolding picks numbered locations_of
picks-numbered r iloc [] = refl
picks-numbered r iloc (q ∷ recnums) = rw (picks-numbered r (suc iloc) recnums) refl

unsorted_loop-push_all :
    (done rest : List ℕ) (recidx : RecIdx)
    → unsorted_loop (done ++ rest) (length done) (length rest) recidx
      ≡ ok (push_all (numbered (length done) rest) recidx)
unfolding unsorted_loop push_all numbered
unsorted_loop-push_all done [] recidx = refl
unsorted_loop-push_all done (q ∷ rest) recidx =
    let ih = unsorted_loop-push_all (done ++ q ∷ []) rest (push_back q (length done) recidx) in
    rw (at-middle done q rest) (rw (append_assoc done (q ∷ []) rest, length-snoc done q) at ih)

-- The vector of a record without locations is not kept.
abbrev pub if_any : List ℕ → Option (List ℕ)
if_any [] = none
if_any (x ∷ xs) = some (x ∷ xs)

pushed-if_any : (xs : List ℕ) → pushed none xs ≡ if_any xs
unfolding pushed
pushed-if_any [] = refl
pushed-if_any (x ∷ xs) = refl

-- buildRecIdxUnsorted, with a record number for each of its locations, returns an index whose entry for
-- a record is the vector of the locations with that record number in ascending order, and that has
-- no entry for a record without locations.
pub build_rec_idx_unsorted-lookup :
    (nlocs : ℕ) (recnums : List ℕ)
    → length recnums ≡ nlocs
    → (recidx : RecIdx) × (build_rec_idx_unsorted nlocs recnums ≡ ok recidx)
      × ((r : ℕ) → lookup r recidx ≡ if_any (locations_of r 0 recnums))
unfolding build_rec_idx_unsorted lookup
build_rec_idx_unsorted-lookup nlocs recnums h = (
  push_all (numbered 0 recnums) [],
  ap (λ n. unsorted_loop recnums 0 n []) (sym h) ∙ unsorted_loop-push_all [] recnums [],
  λ r.
      lookup-push_all r (numbered 0 recnums) []
      ∙ ap (pushed none) (picks-numbered r 0 recnums)
      ∙ pushed-if_any (locations_of r 0 recnums),
)

fill_recnums-keys :
    (recidx : RecIdx) (done : List ℕ) (n : ℕ)
    → fill_recnums recidx (length done) (done ++ replicate (length recidx + n) 0)
      ≡ ok (done ++ (map (λ e. e.0) recidx ++ replicate n 0))
unfolding fill_recnums
fill_recnums-keys [] done n = ap (λ k. ok (done ++ replicate k 0)) (omega arith)
fill_recnums-keys ((r, locs) ∷ recidx) done n =
    let k : suc (length recidx) + n ≡ suc (length recidx + n) = omega arith in
    let zeros : List ℕ = replicate (length recidx + n) 0 in
    let keys : List ℕ = map (λ (e : ℕ × List ℕ). e.0) recidx ++ replicate n 0 in
    let ih = fill_recnums-keys recidx (done ++ r ∷ []) n in
    let ih' =
      rw (append_assoc done (r ∷ []) zeros, append_assoc done (r ∷ []) keys, length-snoc done r) at
        ih in
    rw k (rw (at-middle done 0 zeros) (rw (set-append done zeros 0 r) ih'))

-- With nrecs_ at least the number of entries, recidx_all_recnums returns the record numbers of all
-- entries in their order, and then a 0 for each record that nrecs_ counts and recidx_ does not have.
pub recidx_all_recnums-keys :
    (recidx : RecIdx) (lacking : ℕ)
    → recidx_all_recnums (length recidx + lacking) recidx
      ≡ ok (map (λ e. e.0) recidx ++ replicate lacking 0)
unfolding recidx_all_recnums
recidx_all_recnums-keys recidx lacking = fill_recnums-keys recidx [] lacking
