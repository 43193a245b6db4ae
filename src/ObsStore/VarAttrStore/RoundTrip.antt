-- ===== src/ObsStore/VarAttrStore/RoundTrip.antt =====
-- What write has put into the store, read gives back.
use native.Mathlib.Nat.{div-add-mod', div-lt_iff_lt-mul, mod-lt}
use ioda.Prelude.{
  ℕ, zero, suc, ◌+◌, ◌*◌, ◌/◌, ◌%◌, ◌≤◌, ◌<◌, ◌≡◌, ◌≢◌, refl, ap, ◌∙◌, List, [], ◌∷◌, length,
  get_elem?, get_elem?_inside, get_elem?-append_left, get_elem?-append_right, Option, none, some,
  All, arith, ok, ◌>>=◌, iota, length-iota, get_elem?-iota, iota-All-lt, iota-Distinct, Distinct,
  list_ext, length-append, lt→ltb,
}
use ioda.ObsStore.Selection.{Selection, init_lin_indx, indices}
use ioda.ObsStore.VarAttrStore.{VarAttrStore, write, read, concat_bytes}
use ioda.ObsStore.VarAttrStore.Copy.{
  copy_blocks-Copied, Copied, Keeps, Copied-at, transfer_to_store, transfer_from_store,
}

module _ {ℓ} {A : Type ℓ} (bytes : A → List ℕ) (size : ℕ)
    (sized : (x : A) → length (bytes x) ≡ size) where
  pub length-concat_bytes : (xs : List A) → length (concat_bytes bytes xs) ≡ length xs * size
  length-concat_bytes [] = omega arith
  length-concat_bytes (x ∷ xs) =
      omega
        (arith, length-append (bytes x) (concat_bytes bytes xs), sized x, length-concat_bytes xs)

  abbrev byte : Option A → ℕ → Option ℕ
  byte none r = none
  byte (some x) r = get_elem? (bytes x) r

  -- Byte r of element q.
  get_elem?-concat_bytes :
      (xs : List A) (q r : ℕ)
      → r < size
      → get_elem? (concat_bytes bytes xs) (q * size + r) ≡ byte (get_elem? xs q) r
  get_elem?-concat_bytes [] q r h = refl
  get_elem?-concat_bytes (x ∷ xs) zero r h =
      let e : 0 * size + r ≡ r = omega arith in
      rw e (get_elem?-append_left (bytes x) (concat_bytes bytes xs) r (omega (arith, sized x)))
  get_elem?-concat_bytes (x ∷ xs) (suc q) r h =
      let e : suc q * size + r ≡ length (bytes x) + (q * size + r) = omega (arith, sized x) in
      rw e (
        get_elem?-append_right (bytes x) (concat_bytes bytes xs) (q * size + r)
        ∙ get_elem?-concat_bytes xs q r h)

  -- Equal blocks of elements are equal blocks of bytes.
  bytes_of_block :
      (xs ys : List A) (block i j k : ℕ)
      → 0 < size
      → ((e : ℕ) → e < block → get_elem? xs (j * block + e) ≡ get_elem? ys (i * block + e))
      → k < block * size
      → get_elem? (concat_bytes bytes xs) (j * (block * size) + k)
        ≡ get_elem? (concat_bytes bytes ys) (i * (block * size) + k)
  bytes_of_block xs ys block i j k p h l =
      let q : ℕ = k / size in
      let r : ℕ = k % size in
      let s : q * size + r ≡ k = div-add-mod' k size in
      let rl : r < size = mod-lt k p in
      let ql : q < block = (div-lt_iff_lt-mul p).1 l in
      let a : (n : ℕ) → n * (block * size) + k ≡ (n * block + q) * size + r =
        λ n. omega (arith, s) in
      rw (
        a j,
        a i,
        get_elem?-concat_bytes xs (j * block + q) r rl,
        get_elem?-concat_bytes ys (i * block + q) r rl,
        h q ql,
      )

-- A write through any two selections with as many indices: it returns, the element blocks that the
-- second selection names become those that the first one names in the buffer, and every other block
-- of the store is kept.
pub write_lem {ℓ} :
    {A : Type ℓ} (fuel n room : ℕ) (values : List A) (m f : Selection) (s : VarAttrStore A)
    (is js : List ℕ)
    → indices fuel (init_lin_indx m) ≡ ok is
    → indices fuel (init_lin_indx f) ≡ ok js
    → length is ≡ length js
    → All (λ i. i < n) is
    → All (λ j. j < room) js
    → Distinct js
    → n * s.num_elements ≤ length values
    → length s.var_attr_data ≡ room * s.num_elements
    → 0 < length values
    → (d : List A) × (write fuel values m f s ≡ ok (record s { var_attr_data = d }))
      × (length d ≡ length s.var_attr_data)
      × Copied s.num_elements values d is js
      × Keeps s.num_elements js s.var_attr_data d
unfolding write
write_lem fuel n room values m f s is js hm hf e hi hj dj ld ls p =
    let (d, c, l, copied, keeps) =
      copy_blocks-Copied s.num_elements n room values s.var_attr_data is js e hi hj ld ls dj in
    (
      d,
      rw (
        lt→ltb 0 (length values) p,
        transfer_to_store fuel s.num_elements values s.var_attr_data _ _ is js hm hf e,
        c,
      ),
      l,
      copied,
      keeps,
    )

-- A write through two selections with as many indices, inside the buffer and the store, those of
-- the second one being different, succeeds, and element e of the block that the second selection
-- names at place t becomes element e of the block that the first one names there in the buffer.
pub write-block {ℓ} :
    {A : Type ℓ} (fuel n room : ℕ) (values : List A) (m f : Selection) (s : VarAttrStore A)
    (is js : List ℕ) (t i j e : ℕ)
    → indices fuel (init_lin_indx m) ≡ ok is
    → indices fuel (init_lin_indx f) ≡ ok js
    → length is ≡ length js
    → All (λ i'. i' < n) is
    → All (λ j'. j' < room) js
    → Distinct js
    → n * s.num_elements ≤ length values
    → length s.var_attr_data ≡ room * s.num_elements
    → 0 < length values
    → get_elem? is t ≡ some i
    → get_elem? js t ≡ some j
    → e < s.num_elements
    → (d : List A) × (write fuel values m f s ≡ ok (record s { var_attr_data = d }))
      × (get_elem? d (j * s.num_elements + e) ≡ get_elem? values (i * s.num_elements + e))
write-block fuel n room values m f s is js t i j e hm hf l hi hj dj lv ls p ei ej h =
    let (d, w, ld, copied, keeps) =
      write_lem fuel n room values m f s is js hm hf l hi hj dj lv ls p in
    (d, w, Copied-at s.num_elements values d is js t i j e copied ei ej h)

-- A write through two selections with as many indices, inside the buffer and the store, those of
-- the second one being different, succeeds, and keeps the length of the store and every element of
-- every block that the second selection does not name.
pub write_keeps {ℓ} :
    {A : Type ℓ} (fuel n room : ℕ) (values : List A) (m f : Selection) (s : VarAttrStore A)
    (is js : List ℕ) (j e : ℕ)
    → indices fuel (init_lin_indx m) ≡ ok is
    → indices fuel (init_lin_indx f) ≡ ok js
    → length is ≡ length js
    → All (λ i'. i' < n) is
    → All (λ j'. j' < room) js
    → Distinct js
    → n * s.num_elements ≤ length values
    → length s.var_attr_data ≡ room * s.num_elements
    → 0 < length values
    → All (λ j'. j ≢ j') js
    → e < s.num_elements
    → (d : List A) × (write fuel values m f s ≡ ok (record s { var_attr_data = d }))
      × (length d ≡ length s.var_attr_data)
      × (get_elem? d (j * s.num_elements + e) ≡ get_elem? s.var_attr_data (j * s.num_elements + e))
write_keeps fuel n room values m f s is js j e hm hf l hi hj dj lv ls p out h =
    let (d, w, ld, copied, keeps) =
      write_lem fuel n room values m f s is js hm hf l hi hj dj lv ls p in
    (d, w, ld, keeps j e out h)

module _ {ℓ} {A : Type ℓ} (bytes : A → List ℕ) (size : ℕ)
    (sized : (x : A) → length (bytes x) ≡ size) (block n : ℕ) (sp : 0 < size) (bp : 0 < block)
    (values d : List A) (js : List ℕ) (out : List ℕ) (lv : length values ≡ n * block)
    (lo : length out ≡ n * (block * size)) (lj : length js ≡ n)
    (stored : Copied block values d (iota 0 n) js)
    (loaded : Copied (block * size) (concat_bytes bytes d) out js (iota 0 n)) where
  -- The block that went out and came back.
  returned :
      (t k : ℕ)
      → t < n
      → k < block * size
      → get_elem? out (t * (block * size) + k)
        ≡ get_elem? (concat_bytes bytes values) (t * (block * size) + k)
  returned t k h l =
      let (j, e) = get_elem?_inside js t (omega arith) in
      Copied-at (block * size) (concat_bytes bytes d) out js (iota 0 n) t j t k loaded e
        (get_elem?-iota 0 n t h ∙ ap some (omega arith)) l
      ∙ bytes_of_block bytes size sized d values block t j k sp
          (λ e' h'.
            Copied-at block values d (iota 0 n) js t t j e' stored
              (get_elem?-iota 0 n t h ∙ ap some (omega arith)) e h')
          l

  all_returned : out ≡ concat_bytes bytes values
  all_returned =
      list_ext out (concat_bytes bytes values)
        (omega
          (arith, length-concat_bytes bytes size sized values, ap (λ (l : ℕ). l * size) lv, assoc))
        λ p h.
          let q : ℕ = p / (block * size) in
          let e : q * (block * size) + p % (block * size) ≡ p = div-add-mod' p (block * size) in
          rw (← e) (
            returned q (p % (block * size)) ((div-lt_iff_lt-mul pos).1 (omega arith))
              (mod-lt p pos))
    where
      pos : 0 < block * size
      pos = grind arith

      assoc : n * block * size ≡ n * (block * size)
      assoc = omega arith

-- A buffer of n blocks, n not 0, written through a selection of everything in memory and through
-- any selection of n different blocks inside the store, is read back byte for byte through the same
-- two selections into a buffer of that size, each element having a fixed number of bytes that is
-- not 0.
pub read-write {ℓ} :
    {A : Type ℓ} (bytes : A → List ℕ) (size fuel n room : ℕ) (values : List A) (buffer : List ℕ)
    (m f : Selection) (s : VarAttrStore A) (js : List ℕ)
    → ((x : A) → length (bytes x) ≡ size)
    → 0 < size
    → indices fuel (init_lin_indx m) ≡ ok (iota 0 n)
    → indices fuel (init_lin_indx f) ≡ ok js
    → length js ≡ n
    → All (λ j. j < room) js
    → Distinct js
    → 0 < s.num_elements
    → 0 < n
    → length s.var_attr_data ≡ room * s.num_elements
    → length values ≡ n * s.num_elements
    → length buffer ≡ n * (s.num_elements * size)
    → (write fuel values m f s >>= λ s'. read fuel bytes size buffer m f s')
      ≡ ok (concat_bytes bytes values)
unfolding read
read-write bytes size fuel n room values buffer m f s js sized sp hm hf lj aj dj bp np ls lv lb =
    let block = s.num_elements in
    let pos : 0 < n * block = grind arith in
    let pos' : 0 < n * (block * size) = grind arith in
    let li = length-iota 0 n in
    let (d, w, ld, stored, _) =
      write_lem fuel n room values m f s (iota 0 n) js hm hf (omega arith)
        (iota-All-lt 0 n n (omega arith)) aj dj (omega arith) ls (omega arith) in
    let ldc = length-concat_bytes bytes size sized d in
    let (out, c, lo, loaded, _) =
      copy_blocks-Copied (block * size) room n (concat_bytes bytes d) buffer js (iota 0 n)
        (omega arith) aj (iota-All-lt 0 n n (omega arith))
        (omega (arith, ldc, ap (λ (l : ℕ). l * size) (ld ∙ ls))) lb (iota-Distinct 0 n) in
    rw
      (
        w,
        lt→ltb 0 (length buffer) (omega arith),
        transfer_from_store fuel (block * size) (concat_bytes bytes d) buffer _ _ (iota 0 n) js hm
            hf (omega arith),
        c,
      )
      (ap ok
        (all_returned bytes size sized block n sp bp values d js out lv (lo ∙ lb) lj stored loaded))
