-- ===== src/Tensor/Tests.antt =====
-- src/value.c: runs of the operations on tensors, and the theorems about them at a concrete input.
use prefix.Base.{true, ◌≢◌, ◌<◌, length, set, ℕ, List, [], ◌∷◌, some, ◌≡◌, refl, arith}
use prefix.Base.Int.{pos, negsuc}
use prefix.Tensor.Get.{indexed, value_tensor_get-indexed}
use prefix.Tensor.Index.{
  Tensor, value_tensor_new, value_tensor_from_values, value_tensor_get, value_tensor_get_ptr,
  compute_strides, element, part, outside, offset_rounds, read_all,
}
use prefix.Tensor.Pointer.{value_tensor_get-value_tensor_get_ptr}
use prefix.Tensor.Shape.{in_range, IsTensor, value_tensor_from_values-IsTensor}
use prefix.Tensor.Slice.{
  value_tensor_slice, ranges, normalized, range_length, fixed_position, fixed_offset, src_rounds,
}
use prefix.Tensor.Sliced.{
  IsSlice, value_tensor_slice-IsSlice, value_tensor_get-value_tensor_from_values,
}
use prefix.Value.{Value, int}
use prefix.Value.Types.{type_int}

abbrev item : ℕ → Value
item n = int n 10

abbrev items : List Value
items = item 1 ∷ item 2 ∷ item 3 ∷ item 4 ∷ item 5 ∷ item 6 ∷ []

abbrev two_rows : Tensor
two_rows = value_tensor_from_values type_int (2 ∷ 3 ∷ []) items

tensor_run : Unit {0}
unfolding value_tensor_new value_tensor_from_values value_tensor_get value_tensor_get_ptr
    value_tensor_slice compute_strides offset_rounds read_all normalized range_length fixed_position
    fixed_offset src_rounds
tensor_run = tt

second_row :
    value_tensor_get two_rows (1 ∷ [])
    ≡ part (value_tensor_from_values type_int (3 ∷ []) (item 4 ∷ item 5 ∷ item 6 ∷ []))
unfolding tensor_run
second_row = refl

last_cell : value_tensor_get_ptr two_rows (1 ∷ 2 ∷ []) ≡ some 5
unfolding tensor_run
last_cell = refl

-- The last two columns.
columns :
    value_tensor_slice two_rows ((pos 1, pos 2) ∷ (negsuc 1, negsuc 0) ∷ [])
    ≡ part (value_tensor_from_values type_int (2 ∷ 2 ∷ []) (item 2 ∷ item 3 ∷ item 5 ∷ item 6 ∷ []))
unfolding tensor_run
columns = refl

-- A fixed index beyond its dimension gives the first element.
beyond : value_tensor_slice two_rows ((pos 7, pos 7) ∷ (pos 1, pos 1) ∷ []) ≡ element (item 1)
unfolding tensor_run
beyond = refl

-- A slice of an empty tensor reads an element.
empty_slice : value_tensor_slice (value_tensor_new type_int (0 ∷ [])) [] ≡ outside
unfolding tensor_run
empty_slice = refl

two_rows-IsTensor : IsTensor two_rows
two_rows-IsTensor =
    value_tensor_from_values-IsTensor type_int (2 ∷ 3 ∷ []) items (omega arith, (omega arith, tt))

value_tensor_get-indexed_example : value_tensor_get two_rows (1 ∷ []) ≡ indexed two_rows (1 ∷ [])
value_tensor_get-indexed_example = value_tensor_get-indexed two_rows (1 ∷ []) two_rows-IsTensor

value_tensor_slice-IsSlice_example :
    IsSlice two_rows
      (ranges (2 ∷ 3 ∷ []) ((pos 1, pos 2) ∷ (negsuc 1, negsuc 0) ∷ []))
      (value_tensor_slice two_rows ((pos 1, pos 2) ∷ (negsuc 1, negsuc 0) ∷ []))
unfolding tensor_run
value_tensor_slice-IsSlice_example =
    value_tensor_slice-IsSlice two_rows ((pos 1, pos 2) ∷ (negsuc 1, negsuc 0) ∷ [])
      two_rows-IsTensor (omega arith, (omega arith, tt))

value_tensor_get-value_tensor_from_values_example :
    value_tensor_get two_rows (1 ∷ 1 ∷ []) ≡ element (item 5)
value_tensor_get-value_tensor_from_values_example =
    value_tensor_get-value_tensor_from_values type_int (2 ∷ 3 ∷ []) items (1 ∷ 1 ∷ [])
      (omega arith, (omega arith, tt)) refl refl

value_tensor_get-value_tensor_get_ptr_example :
    (let u = record two_rows { cells = set two_rows.cells 5 (item 9) } in
      (5 < length two_rows.cells)
      × (value_tensor_get u (1 ∷ 2 ∷ []) ≡ element (item 9))
      × ((js : List ℕ)
          → length js ≡ 2
          → in_range (2 ∷ 3 ∷ []) js ≡ true
          → js ≢ 1 ∷ 2 ∷ []
          → value_tensor_get u js ≡ value_tensor_get two_rows js))
unfolding tensor_run
value_tensor_get-value_tensor_get_ptr_example =
    value_tensor_get-value_tensor_get_ptr two_rows (1 ∷ 2 ∷ []) 5 (item 9) two_rows-IsTensor refl
