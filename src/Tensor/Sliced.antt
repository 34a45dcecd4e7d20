-- ===== src/Tensor/Sliced.antt =====
-- src/value.c: a slice of a tensor is a tensor, and its elements are those of the tensor.
use prefix.Base.{
  ℕ, zero, suc, ◌+◌, ◌<◌, true, false, List, [], ◌∷◌, none, some, ◌≡◌, refl, sym, ◌∙◌, ap, subst,
  arith, if◌then◌else◌, if_cases, ltb, ◌==◌, ==_iff, length, get_or, replicate, get_or-replicate,
}
use prefix.Base.Int.{ℤ}
use prefix.Tensor.Get.{
  row_major, value_tensor_get-indexed, collect, length-collect, get_or-collect, filled-collect,
  get_elem?-get_or,
}
use prefix.Tensor.Index.{
  Tensor, TensorResult, element, part, outside, value_tensor_new, read_element, filled,
  value_tensor_get, value_tensor_from_values, copied, compute_strides,
}
use prefix.Tensor.Part.{
  IsPositive, AllWithin, ranges-AllWithin, widened, lengths, in_range-widened, length-widened,
  fixed_sum, rank-widened, new_shape-kept, fixed_offset-fixed_sum, unrank, src_rounds-moved_sum,
}
use prefix.Tensor.Positions.{lengths-Fits, length-unrank, in_range-unrank, unrank-rank, rank_below}
use prefix.Tensor.Shape.{
  product, Fits, Fits-lt, row_strides, IsTensor, in_range, rank, value_tensor_new-IsTensor,
  value_tensor_from_values-IsTensor, compute_strides_lem,
}
use prefix.Tensor.Slice.{
  Range, ranges, kept, fixed_offset, new_shape, src_rounds, value_tensor_slice,
}
use prefix.Value.{Value, null}
use prefix.Value.Types.{DeclType}

-- One element of a slice: where it is read.
src-widened :
    (ds : List ℕ) (rs : List Range) (k : ℕ)
    → AllWithin ds rs
    → Fits ds
    → k < product (lengths rs)
    → src_rounds
        (kept rs (row_strides ds))
        (row_strides (lengths rs))
        (fixed_offset rs (row_strides ds) 0)
        k
      ≡ rank ds (widened rs (unrank (lengths rs) k))
src-widened ds rs k a f h =
    let is = unrank (lengths rs) k in
    let sum = rank-widened ds rs is a in
    let below = rank_below ds (widened rs is) (length-widened ds rs is a) (
      in_range-widened ds rs is a (in_range-unrank (lengths rs) k h)
        (length-unrank (lengths rs) k)) in
    let small = Fits-lt ds f in
    ap (λ o. src_rounds (kept rs (row_strides ds)) (row_strides (lengths rs)) o k)
      (fixed_offset-fixed_sum ds rs 0 (omega (arith, sum, below, small)))
    ∙ src_rounds-moved_sum ds rs (0 + fixed_sum ds rs) k a (omega (arith, sum, below, small))
    ∙ omega (arith, sum)

-- All indices of a tensor, each in its dimension.
pub indexed-full :
    (t : Tensor) (is : List ℕ)
    → IsTensor t
    → length is ≡ length t.shape
    → in_range t.shape is ≡ true
    → value_tensor_get t is ≡ element (get_or t.cells (rank t.shape is) null)
indexed-full t is v l h =
    value_tensor_get-indexed t is v
    ∙ rw (ltb_self (length t.shape) (length is) l, h, (==_iff (length is) (length t.shape)).1 l)
        refl
  where
    ltb_self : (a b : ℕ) → b ≡ a → ltb a b ≡ false
    ltb_self a b e = ground arith

-- A slice: where every dimension is fixed, so that no lengths are left, the element there, and
-- else, where some are left, a tensor.
abbrev pub IsSlice : Tensor → List Range → TensorResult → Type 0
IsSlice t rs (element v) =
    (length (lengths rs) ≡ 0) × (value_tensor_get t (widened rs []) ≡ element v)
IsSlice t rs (part u) =
    (0 < length (lengths rs))
    × IsTensor u
    × (u.shape ≡ lengths rs)
    × ((is : List ℕ)
        → length is ≡ length u.shape
        → in_range u.shape is ≡ true
        → value_tensor_get u is ≡ value_tensor_get t (widened rs is))
IsSlice t rs _ = ⊥

-- `value_tensor_slice` on ranges and strides.
abbrev by_ranges : Tensor → List Range → List ℕ → TensorResult
by_ranges t rs strides =
    let ks = kept rs strides in
    let offset = fixed_offset rs strides 0 in
    let out = value_tensor_new t.elem_type (new_shape ks) in
    if length ks == 0
    then read_element t.cells offset
    else filled t.elem_type (new_shape ks) (λ out_idx. src_rounds ks out.strides offset out_idx)
        t.cells

src_rounds-none :
    (ks : List (Range × ℕ)) (outs : List ℕ) (o k : ℕ) → length ks ≡ 0 → src_rounds ks outs o k ≡ o
unfolding src_rounds
src_rounds-none [] outs o k h = refl
src_rounds-none (x ∷ ks) outs o k h = absurd (omega arith)

length-new_shape : (ks : List (Range × ℕ)) → length (new_shape ks) ≡ length ks
length-new_shape [] = refl
length-new_shape (x ∷ ks) = ap suc (length-new_shape ks)

length-nil : (ds : List ℕ) → length ds ≡ 0 → ds ≡ []
length-nil [] h = refl
length-nil (d ∷ ds) h = absurd (omega arith)

length-lengths :
    (t : Tensor) (rs : List Range)
    → AllWithin t.shape rs
    → length (lengths rs) ≡ length (kept rs (row_strides t.shape))
length-lengths t rs a =
    ap length (sym (new_shape-kept t.shape rs a)) ∙ length-new_shape (kept rs (row_strides t.shape))

all_fixed-IsSlice :
    (t : Tensor) (rs : List Range)
    → IsTensor t
    → AllWithin t.shape rs
    → length (kept rs (row_strides t.shape)) ≡ 0
    → IsSlice t rs (read_element t.cells (fixed_offset rs (row_strides t.shape) 0))
all_fixed-IsSlice t rs v a h =
    let ks = kept rs (row_strides t.shape) in
    let none_left : lengths rs ≡ [] = length-nil (lengths rs) (length-lengths t rs a ∙ h) in
    let in_all : in_range t.shape (widened rs []) ≡ true =
      in_range-widened t.shape rs [] a (ap (λ l. in_range l []) none_left)
        (sym (ap length none_left)) in
    let in_length = length-widened t.shape rs [] a in
    let there : fixed_offset rs (row_strides t.shape) 0 ≡ rank t.shape (widened rs []) =
      sym (
        src_rounds-none ks (row_strides (lengths rs)) (fixed_offset rs (row_strides t.shape) 0) 0 h)
      ∙ src-widened t.shape rs 0 a v.fits (subst (λ l. 0 < product l) (sym none_left) (omega arith))
      ∙ ap (λ l. rank t.shape (widened rs (unrank l 0))) none_left in
    let found = indexed-full t (widened rs []) v in_length in_all in
    subst (IsSlice t rs)
      (sym (
        ap (read_element t.cells) there
        ∙ ap (λ o. elim o as (λ _. TensorResult) [ none ↦ outside | some x ↦ element x ])
            (get_elem?-get_or t.cells (rank t.shape (widened rs []))
              (omega (arith, rank_below t.shape (widened rs []) in_length in_all, v.whole)))))
      (ap length none_left, found)

abbrev slice_source : Tensor → List Range → ℕ → ℕ
slice_source t rs =
    src_rounds (kept rs (row_strides t.shape)) (row_strides (lengths rs))
      (fixed_offset rs (row_strides t.shape) 0)

abbrev slice_of : Tensor → List Range → Tensor
slice_of t rs =
    row_major t.elem_type (lengths rs)
      (collect (slice_source t rs) t.cells 0 (product (lengths rs)))

slice_source-lt :
    (t : Tensor) (rs : List Range) (k : ℕ)
    → IsTensor t
    → AllWithin t.shape rs
    → k < product (lengths rs)
    → slice_source t rs k < length t.cells
slice_source-lt t rs k v a lt =
    let is = unrank (lengths rs) k in
    subst (λ n. n < length t.cells) (sym (src-widened t.shape rs k a v.fits lt))
      (omega (
        arith,
        v.whole,
        rank_below t.shape (widened rs is) (length-widened t.shape rs is a) (
            in_range-widened t.shape rs is a (in_range-unrank (lengths rs) k lt)
              (length-unrank (lengths rs) k)),
      ))

slice_of-IsSlice :
    (t : Tensor) (rs : List Range)
    → IsTensor t
    → IsPositive t.shape
    → AllWithin t.shape rs
    → 0 < length (lengths rs)
    → IsSlice t rs (part (slice_of t rs))
slice_of-IsSlice t rs v p a some_left =
    let ls = lengths rs in
    let u-IsTensor : IsTensor (slice_of t rs) = record {
      fits = lengths-Fits t.shape rs p a v.fits;
      rows = refl;
      whole = length-collect (slice_source t rs) t.cells 0 (product ls);
    } in
    (
      some_left,
      u-IsTensor,
      refl,
      λ is l h.
          let below = rank_below ls is l h in
          indexed-full (slice_of t rs) is u-IsTensor l h
          ∙ ap element (
              get_or-collect (slice_source t rs) t.cells 0 (product ls) (rank ls is) below
              ∙ ap (λ n. get_or t.cells n null)
                  (src-widened t.shape rs (0 + rank ls is) a v.fits (omega (arith, below))
                    ∙ ap (λ k. rank t.shape (widened rs (unrank ls k))) {y = rank ls is}
                        (omega arith)
                    ∙ ap (λ js. rank t.shape (widened rs js)) (unrank-rank ls is l h)))
          ∙ sym (
              indexed-full t (widened rs is) v (length-widened t.shape rs is a)
                (in_range-widened t.shape rs is a h l)),
    )

kept-IsSlice :
    (t : Tensor) (rs : List Range)
    → IsTensor t
    → IsPositive t.shape
    → AllWithin t.shape rs
    → 0 < length (lengths rs)
    → (let ks = kept rs (row_strides t.shape) in
        let out = value_tensor_new t.elem_type (new_shape ks) in
        IsSlice t rs (
          filled t.elem_type
            (new_shape ks)
            (λ k. src_rounds ks out.strides (fixed_offset rs (row_strides t.shape) 0) k)
            t.cells))
unfolding value_tensor_new src_rounds
kept-IsSlice t rs v p a some_left =
    let ks = kept rs (row_strides t.shape) in
    let ls = lengths rs in
    let offset = fixed_offset rs (row_strides t.shape) 0 in
    let fits = lengths-Fits t.shape rs p a v.fits in
    let filled_by : List ℕ → List ℕ → TensorResult =
      λ shape st. filled t.elem_type shape (src_rounds ks st offset) t.cells in
    subst (λ shape. IsSlice t rs (filled_by shape (value_tensor_new t.elem_type shape).strides))
      (sym (new_shape-kept t.shape rs a))
      (subst (λ st. IsSlice t rs (filled_by ls st))
        (sym (value_tensor_new-IsTensor t.elem_type ls fits).rows)
        (subst (IsSlice t rs)
          (sym (
            filled-collect t.elem_type ls (slice_source t rs) t.cells fits
              (λ k. slice_source-lt t rs k v a)))
          (slice_of-IsSlice t rs v p a some_left)))

-- A slice of a tensor with no empty dimension, whose size fits, stays within its data. Where all
-- dimensions are fixed, and only there, it is the element at the starts of the ranges; where some
-- are not fixed it is a tensor whose shape has the lengths of the ranges with more than one index,
-- and each of its elements is the one of the tensor at the indices moved by the starts.
pub value_tensor_slice-IsSlice :
    (t : Tensor) (bounds : List (ℤ × ℤ))
    → IsTensor t
    → IsPositive t.shape
    → IsSlice t (ranges t.shape bounds) (value_tensor_slice t bounds)
unfolding value_tensor_slice
value_tensor_slice-IsSlice t bounds v p =
    let rs = ranges t.shape bounds in
    let a = ranges-AllWithin t.shape bounds p in
    subst (λ st. IsSlice t rs (by_ranges t rs st)) (sym v.rows)
      (if_cases (IsSlice t rs) (length (kept rs (row_strides t.shape)) == 0)
        (λ e. all_fixed-IsSlice t rs v a ((==_iff _ 0).0 e))
        (λ more. kept-IsSlice t rs v p a (let e = length-lengths t rs a in ground arith)))

get_or-copied :
    (items : List Value) (n k : ℕ)
    → k < n
    → get_or (copied items (replicate n null)) k null ≡ get_or items k null
get_or-copied [] n k h = get_or-replicate n k null
get_or-copied (v ∷ items) zero k h = absurd (omega arith)
get_or-copied (v ∷ items) (suc n) zero h = refl
get_or-copied (v ∷ items) (suc n) (suc k) h = get_or-copied items n k (omega arith)

-- An element of a tensor that is made from items, read by all its indices, is the item at its
-- position in row-major order, and null where there are not as many items.
pub value_tensor_get-value_tensor_from_values :
    (elem_type : DeclType) (shape : List ℕ) (items : List Value) (is : List ℕ)
    → Fits shape
    → length is ≡ length shape
    → in_range shape is ≡ true
    → value_tensor_get (value_tensor_from_values elem_type shape items) is
      ≡ element (get_or items (rank shape is) null)
unfolding value_tensor_from_values value_tensor_new
value_tensor_get-value_tensor_from_values elem_type shape items is f l h =
    indexed-full (value_tensor_from_values elem_type shape items) is
      (value_tensor_from_values-IsTensor elem_type shape items f) l h
    ∙ ap element (
        get_or-copied items (compute_strides shape).0 (rank shape is)
          (omega (arith, rank_below shape is l h, ap (λ p. p.0) (compute_strides_lem shape f))))
