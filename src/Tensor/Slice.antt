-- ===== src/Tensor/Slice.antt =====
-- src/value.c: `value_tensor_slice`.
use prefix.Base.{
  ℕ, ◌+◌, ◌-◌, ◌*◌, ◌/◌, ◌%◌, Bool, List, [], ◌∷◌, if◌then◌else◌, ltb, leb, ◌==◌, length,
}
use prefix.Base.Int.{ℤ, pos, negsuc}
use prefix.Tensor.Index.{Tensor, TensorResult, wrap, value_tensor_new, read_element, filled}

-- An entry of `nstarts` and of `nends`.
pub record Range : Type 0 where
  pub start : ℕ
  pub stop : ℕ

-- A negative bound is counted from the end, `dim + n + 1`. What would be below 0 is 0 here, which
-- makes no difference: a start below 1 is raised to 1, and an end below 1 leaves the range empty.
abbrev pub from_end : ℕ → ℤ → ℕ
from_end dim (pos n) = n
from_end dim (negsuc n) = dim - n

unfoldable pub normalized : ℕ → ℤ → ℤ → Range
normalized dim start stop =
    let s = if ltb (from_end dim start) 1 then 1 else from_end dim start in
    let e = if ltb dim (from_end dim stop) then dim else from_end dim stop in
    if ltb e s then record { start = 1; stop = 0 } else record { start = s; stop = e }

-- A dimension without bounds is taken whole.
abbrev pub ranges : List ℕ → List (ℤ × ℤ) → List Range
ranges [] bounds = []
ranges (dim ∷ shape) [] = (record { start = 1; stop = dim }) ∷ ranges shape []
ranges (dim ∷ shape) ((s, e) ∷ bounds) = normalized dim s e ∷ ranges shape bounds

unfoldable pub range_length : Range → ℕ
range_length r = if leb r.start r.stop then r.stop - r.start + 1 else 0

-- The position in a dimension that is fixed.
unfoldable pub fixed_position : Range → ℕ
fixed_position r = if leb r.start r.stop then r.start - 1 else 0

-- The dimension stays one of the result.
abbrev pub is_kept : Range → Bool
is_kept r = ltb 1 (range_length r)

abbrev pub kept : List Range → List ℕ → List (Range × ℕ)
kept (r ∷ rs) (stride ∷ strides) =
    if is_kept r then (r, stride) ∷ kept rs strides else kept rs strides
kept _ _ = []

unfoldable pub fixed_offset : List Range → List ℕ → ℕ → ℕ
fixed_offset (r ∷ rs) (stride ∷ strides) offset =
    if is_kept r
    then fixed_offset rs strides offset
    else fixed_offset rs strides (wrap (offset + fixed_position r * stride))
fixed_offset _ _ offset = offset

abbrev pub new_shape : List (Range × ℕ) → List ℕ
new_shape [] = []
new_shape ((r, _) ∷ ks) = range_length r ∷ new_shape ks

-- The loop over the dimensions of the result, from the strides of the result.
unfoldable pub src_rounds : List (Range × ℕ) → List ℕ → ℕ → ℕ → ℕ
src_rounds ((r, stride) ∷ ks) (out ∷ outs) offset rem =
    src_rounds ks outs (wrap (offset + (rem / out + (r.start - 1)) * stride)) (rem % out)
src_rounds _ _ offset rem = offset

unfoldable pub value_tensor_slice : Tensor → List (ℤ × ℤ) → TensorResult
value_tensor_slice t bounds =
    let rs = ranges t.shape bounds in
    let ks = kept rs t.strides in
    let offset = fixed_offset rs t.strides 0 in
    let out = value_tensor_new t.elem_type (new_shape ks) in
    if length ks == 0
    then read_element t.cells offset
    else filled t.elem_type (new_shape ks) (λ out_idx. src_rounds ks out.strides offset out_idx)
        t.cells
