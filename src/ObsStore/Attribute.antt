-- ===== src/ObsStore/Attribute.antt =====
-- class Attribute (Attributes.cpp): a typed array that is written and read as a whole. `same_type` is ==
-- on the types of the backend.
use ioda.Prelude.{
  ℕ, ◌+◌, ◌-◌, ◌*◌, ◌<◌, ◌≡◌, refl, ap, ◌∙◌, Bool, true, List, [], ◌∷◌, if◌then◌else◌, length,
  length-append, length-replicate, length-iota, iota, iota-All-lt, iota-Distinct, take, take_past,
  replicate, leb, Result, ok, err, exception, ◌>>=◌, >>=-eq-ok, wrap, size_mod, arith,
}
use ioda.ObsStore.Selection.{Selection, init_lin_indx, select_all, int_max, indices}
use ioda.ObsStore.Selection.Whole.{indices-all}
use ioda.ObsStore.VarAttrStore.{VarAttrStore, resize, resize_vector, write, read, concat_bytes}
use ioda.ObsStore.VarAttrStore.RoundTrip.{read-write}

pub record Attribute (A T : Type 0) : Type 0 where
  pub dimensions : List ℕ
  pub dtype : T
  pub attr_data : VarAttrStore A

-- npoints *= dimensions_[idim]
unfoldable pub num_points : ℕ → List ℕ → ℕ
num_points npoints [] = npoints
num_points npoints (d ∷ dims) = num_points (wrap (npoints * d)) dims

-- The constructor; `per_point` is the number of elements that the store of the type keeps for a point.
unfoldable pub new_attribute : {A T : Type 0} → ℕ → A → T → List ℕ → Attribute A T
unfolding num_points resize
new_attribute per_point fill dtype dims = record {
  dimensions = dims;
  dtype = dtype;
  attr_data =
      resize (num_points 1 dims) fill (record { var_attr_data = []; num_elements = per_point });
}

module _ {A T : Type 0} (same_type : T → T → Bool) where
  -- Attribute::write
  unfoldable pub write_attribute : ℕ → List A → T → Attribute A T → Result (Attribute A T)
  write_attribute fuel span dtype a =
      if same_type dtype a.dtype
      then (do
        m_select ← select_all 0 (num_points 1 a.dimensions)
        f_select ← select_all 0 (num_points 1 a.dimensions)
        s ← write fuel span m_select f_select a.attr_data
        ok (record a { attr_data = s }))
      else err exception

  -- Attribute::read into a span of chars.
  unfoldable pub read_attribute :
      ℕ → (A → List ℕ) → ℕ → List ℕ → T → Attribute A T → Result (List ℕ)
  read_attribute fuel bytes size span dtype a =
      if same_type dtype a.dtype
      then (do
        m_select ← select_all 0 (num_points 1 a.dimensions)
        f_select ← select_all 0 (num_points 1 a.dimensions)
        read fuel bytes size span m_select f_select a.attr_data)
      else err exception

-- The selection of all points.
whole_selection :
    (n fuel : ℕ)
    → leb n int_max ≡ true
    → n < fuel
    → (sel : Selection) × (select_all 0 n ≡ ok sel)
      × (indices fuel (init_lin_indx sel) ≡ ok (iota 0 n))
whole_selection n fuel l f =
    let z : 0 + n ≡ n = omega arith in
    let b : 0 + n < size_mod = ground arith in
    let h = indices-all 0 n fuel b (omega (arith, f)) in
    let h' : (select_all 0 n >>= λ sel. indices fuel (init_lin_indx sel)) ≡ ok (iota 0 n) =
      h
      ∙ ap (λ k. if leb k int_max then ok (iota 0 k) else err exception) z
      ∙ ap (λ t. if t then ok (iota 0 n) else err exception) l in
    >>=-eq-ok (select_all 0 n) (λ sel. indices fuel (init_lin_indx sel)) h'

length-resized : {A : Type 0} (n : ℕ) (fill : A) → length (resize_vector n fill []) ≡ n
unfolding resize_vector
length-resized {A = A} n fill =
    let none_yet : List A = [] in
    omega (
      arith,
      length-append (take n none_yet) (replicate (n - 0) fill),
      ap length (take_past n none_yet (omega arith)),
      length-replicate (n - 0) fill,
    )

module _ {A T : Type 0} (same_type : T → T → Bool) (fuel : ℕ) where
  write_attribute_whole :
      (span : List A) (a : Attribute A T) (sel : Selection)
      → same_type a.dtype a.dtype ≡ true
      → select_all 0 (num_points 1 a.dimensions) ≡ ok sel
      → write_attribute same_type fuel span a.dtype a
        ≡ (write fuel span sel sel a.attr_data >>= λ s. ok (record a { attr_data = s }))
  unfolding write_attribute
  write_attribute_whole span a sel same e = rw same (rw e refl)

  read_attribute_whole :
      (bytes : A → List ℕ) (size : ℕ) (buffer : List ℕ) (a : Attribute A T) (sel : Selection)
      → same_type a.dtype a.dtype ≡ true
      → select_all 0 (num_points 1 a.dimensions) ≡ ok sel
      → read_attribute same_type fuel bytes size buffer a.dtype a
        ≡ read fuel bytes size buffer sel sel a.attr_data
  unfolding read_attribute
  read_attribute_whole bytes size buffer a sel same e = rw same (rw e refl)

  -- A read behind a write of the same attribute.
  read_after :
      (bytes : A → List ℕ) (size : ℕ) (buffer : List ℕ) (a : Attribute A T) (sel : Selection)
      → same_type a.dtype a.dtype ≡ true
      → select_all 0 (num_points 1 a.dimensions) ≡ ok sel
      → (written : Result (VarAttrStore A))
      → ((written >>= λ s. ok (record a { attr_data = s })) >>= λ x.
          read_attribute same_type fuel bytes size buffer a.dtype x)
        ≡ (written >>= λ s. read fuel bytes size buffer sel sel s)
  read_after bytes size buffer a sel same e (err failure) = refl
  read_after bytes size buffer a sel same e (ok s) =
      read_attribute_whole bytes size buffer (record a { attr_data = s }) sel same e

-- What is written to a new attribute with its own type is read back with that type: for an attribute of
-- at least one point and at most as many as an int holds, a span with all its elements, a
-- representation of the elements by the same number of chars, and a buffer that has room for them.
pub read_attribute-write :
    {A T : Type 0} (same_type : T → T → Bool) (bytes : A → List ℕ) (size fuel per_point : ℕ)
    (fill : A) (dtype : T) (dims : List ℕ) (span : List A) (buffer : List ℕ)
    → same_type dtype dtype ≡ true
    → ((x : A) → length (bytes x) ≡ size)
    → 0 < size
    → 0 < per_point
    → 0 < num_points 1 dims
    → leb (num_points 1 dims) int_max ≡ true
    → num_points 1 dims < fuel
    → length span ≡ num_points 1 dims * per_point
    → length buffer ≡ num_points 1 dims * (per_point * size)
    → (write_attribute same_type fuel span dtype (new_attribute per_point fill dtype dims) >>= λ a.
        read_attribute same_type fuel bytes size buffer dtype a)
      ≡ ok (concat_bytes bytes span)
unfolding new_attribute resize
read_attribute-write same_type bytes size fuel per_point fill dtype dims span buffer same sized sp
      pp np l f ls lb =
    let n = num_points 1 dims in
    let (sel, e, i) = whole_selection n fuel l f in
    let s = resize n fill (record { var_attr_data = []; num_elements = per_point }) in
    let round =
      read-write bytes size fuel n n span buffer sel sel s (iota 0 n) sized sp i i (length-iota 0 n)
        (iota-All-lt 0 n n (omega arith)) (iota-Distinct 0 n) pp np
        (length-resized (n * per_point) fill) ls lb in
    let a = new_attribute per_point fill dtype dims in
    ap (λ r. r >>= λ x. read_attribute same_type fuel bytes size buffer dtype x)
      (write_attribute_whole same_type fuel span a sel same e)
    ∙ read_after same_type fuel bytes size buffer a sel same e (write fuel span sel sel s)
    ∙ round
