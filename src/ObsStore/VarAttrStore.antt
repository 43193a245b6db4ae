-- ===== src/ObsStore/VarAttrStore.antt =====
-- class VarAttrStore (ObsStore/VarAttrStore.hpp): the vector that holds the elements of a variable or
-- an attribute, and the transfers between it and a caller's buffer. The buffer of a write is taken as
-- its elements (the reinterpret_cast to DataType), the buffer of a read as its chars. `bytes` is the
-- object representation of a DataType.
pub mod Copy
pub mod RoundTrip
use ioda.Prelude.{
  ℕ, zero, suc, ◌+◌, ◌-◌, ◌*◌, Bool, true, false, List, [], ◌∷◌, ◌++◌, if◌then◌else◌, length, take,
  replicate, set, ltb, Result, ok, err, undefined, no_fuel, ◌>>=◌, at,
}
use ioda.ObsStore.Selection.{Selection, init_lin_indx, next_lin_indx, end_lin_indx}

pub record VarAttrStore {ℓ} (A : Type ℓ) : Type ℓ where
  pub var_attr_data : List A
  pub num_elements : ℕ

-- std::vector::resize: cut off, or filled up with copies of the value.
unfoldable pub resize_vector {ℓ} : {A : Type ℓ} → ℕ → A → List A → List A
resize_vector n fill xs = take n xs ++ replicate (n - length xs) fill

-- resize(newSize, fillValue), and resize(newSize) with the value-initialised element for `fill`.
unfoldable pub resize {ℓ} : {A : Type ℓ} → ℕ → A → VarAttrStore A → VarAttrStore A
resize n fill s = record s {
  var_attr_data = resize_vector (n * s.num_elements) fill s.var_attr_data;
}

-- dst[at_dst + i] = src[at_src + i] for `n` rounds.
unfoldable pub copy_block {ℓ} : {A : Type ℓ} → ℕ → List A → ℕ → List A → ℕ → Result (List A)
copy_block zero src at_src dst at_dst = ok dst
copy_block (suc n) src at_src dst at_dst = do
  x ← at src at_src
  old ← at dst at_dst
  copy_block n src (suc at_src) (set dst at_dst x) (suc at_dst)

-- The `while` loop that write and read share: one block for each pair of indices of the selections,
-- until the first selection is finished.
unfoldable pub transfer {ℓ} :
    {A : Type ℓ} → ℕ → ℕ → List A → List A → Bool → Selection → Selection → Result (List A)
transfer zero block src dst to_store m f = err no_fuel
transfer (suc fuel) block src dst to_store m f =
    let round = next_lin_indx m >>= λ a. next_lin_indx f >>= λ b.
    (if to_store
      then copy_block block src (a.0 * block) dst (b.0 * block)
      else copy_block block src (b.0 * block) dst (a.0 * block))
    >>= λ dst'. transfer fuel block src dst' to_store a.1 b.1 in
    if end_lin_indx m then ok dst else round

-- write(data, m_select, f_select)
pub write {ℓ} :
    {A : Type ℓ} → ℕ → List A → Selection → Selection → VarAttrStore A → Result (VarAttrStore A)
write fuel span m f s =
    if ltb 0 (length span)
    then transfer fuel s.num_elements span s.var_attr_data true (init_lin_indx m) (init_lin_indx f)
      >>= (λ d. ok (record s { var_attr_data = d }))
    else ok s

abbrev pub concat_bytes {ℓ} : {A : Type ℓ} → (A → List ℕ) → List A → List ℕ
concat_bytes bytes [] = []
concat_bytes bytes (x ∷ xs) = bytes x ++ concat_bytes bytes xs

-- read(data, m_select, f_select), `size` being sizeof(DataType).
pub read {ℓ} :
    {A : Type ℓ}
    → ℕ
    → (A → List ℕ)
    → ℕ
    → List ℕ
    → Selection
    → Selection
    → VarAttrStore A
    → Result (List ℕ)
read fuel bytes size span m f s =
    if ltb 0 (length span)
    then transfer fuel (s.num_elements * size) (concat_bytes bytes s.var_attr_data) span false
        (init_lin_indx m) (init_lin_indx f)
    else ok span
