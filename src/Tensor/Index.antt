-- ===== src/Tensor/Index.antt =====
-- src/value.h, src/value.c: tensors, their creation, and their elements and parts by indices.
use prefix.Base.{
  ℕ, zero, suc, ◌+◌, ◌*◌, ◌^◌, ◌%◌, Option, none, some, List, [], ◌∷◌, if◌then◌else◌, ltb, ◌==◌,
  length, get_elem?, replicate, drop,
}
use prefix.Value.{Value, null}
use prefix.Value.Types.{DeclType}

-- `length` is that of `data`, here `cells`.
pub record Tensor : Type 0 where
  pub elem_type : DeclType
  pub shape : List ℕ
  pub strides : List ℕ
  pub cells : List Value

-- A `size_t`.
abbrev pub wrap : ℕ → ℕ
wrap n = n % 2 ^ 64

-- The length and the strides.
unfoldable pub compute_strides : List ℕ → ℕ × List ℕ
compute_strides [] = (1, [])
compute_strides (d ∷ ds) =
    let (len, strides) = compute_strides ds in (wrap (len * d), len ∷ strides)

unfoldable pub value_tensor_new : DeclType → List ℕ → Tensor
value_tensor_new elem_type shape =
    let (len, strides) = compute_strides shape in
    record { elem_type = elem_type; shape = shape; strides = strides; cells = replicate len null }

-- As many of the items as there is place for, over the start of the data.
abbrev pub copied : List Value → List Value → List Value
copied (v ∷ vs) (_ ∷ cells) = v ∷ copied vs cells
copied _ cells = cells

unfoldable pub value_tensor_from_values : DeclType → List ℕ → List Value → Tensor
unfolding value_tensor_new
value_tensor_from_values elem_type shape items =
    let t = value_tensor_new elem_type shape in record t { cells = copied items t.cells }

-- What a read of a tensor gives. `outside` is a read beyond the data, which the code does not guard.
pub data TensorResult : Type 0 where
  null_value : TensorResult
  element : Value → TensorResult
  part : Tensor → TensorResult
  aborted : TensorResult
  outside : TensorResult

-- The loop over the indices, from `offset`; `none` is its return.
unfoldable pub offset_rounds : List ℕ → List ℕ → List ℕ → ℕ → Option ℕ
offset_rounds (d ∷ shape) (stride ∷ strides) (idx ∷ idxs) offset =
    let rest = offset_rounds shape strides idxs (wrap (offset + idx * stride)) in
    if ltb idx d then rest else none
offset_rounds _ _ _ offset = some offset

-- The elements at `src i`, of the `n` positions from `i`.
unfoldable pub read_all : (ℕ → ℕ) → List Value → ℕ → ℕ → Option (List Value)
read_all src cells i zero = some []
read_all src cells i (suc n) =
    let rest = read_all src cells (suc i) n in
    elim (get_elem? cells (src i)) as (λ _. Option (List Value)) [
      | none ↦ none
      | some v ↦ elim rest as (λ _. Option (List Value)) [ none ↦ none | some vs ↦ some (v ∷ vs) ]
    ]

abbrev pub read_element : List Value → ℕ → TensorResult
read_element cells offset = elim (get_elem? cells offset) as (λ _. TensorResult) [
  | none ↦ outside
  | some v ↦ element v
]

abbrev pub filled_with : Tensor → Option (List Value) → TensorResult
filled_with out none = outside
filled_with out (some vs) = part (record out { cells = vs })

-- A new tensor, filled with what its positions stand for in `cells`.
abbrev pub filled : DeclType → List ℕ → (ℕ → ℕ) → List Value → TensorResult
filled elem_type shape src cells =
    let out = value_tensor_new elem_type shape in
    filled_with out (read_all src cells 0 (length out.cells))

-- What follows the loop over the indices.
abbrev pub located : Tensor → List ℕ → Option ℕ → TensorResult
located t idxs none = null_value
located t idxs (some offset) =
    if length idxs == length t.shape
    then read_element t.cells offset
    else filled t.elem_type (drop (length idxs) t.shape) (λ i. wrap (offset + i)) t.cells

unfoldable pub value_tensor_get : Tensor → List ℕ → TensorResult
value_tensor_get t idxs =
    if ltb (length t.shape) (length idxs)
    then aborted
    else located t idxs (offset_rounds t.shape t.strides idxs 0)

-- The position in the data that the pointer points to.
unfoldable pub value_tensor_get_ptr : Tensor → List ℕ → Option ℕ
value_tensor_get_ptr t idxs =
    if length idxs == length t.shape then offset_rounds t.shape t.strides idxs 0 else none
