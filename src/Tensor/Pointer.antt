-- ===== src/Tensor/Pointer.antt =====
-- src/value.c: a write through the pointer to an element.
use prefix.Base.{
  ℕ, ◌+◌, ◌<◌, Bool, true, false, none, some, List, ◌≡◌, ◌≢◌, refl, sym, ◌∙◌, ap, arith,
  if◌then◌else◌, ◌==◌, ==_iff, length, get_or, set, length-set, get_or-set_self, get_or-set_ne,
}
use prefix.Tensor.Index.{Tensor, element, offset_rounds, value_tensor_get, value_tensor_get_ptr}
use prefix.Tensor.Positions.{rank_below, unrank-rank}
use prefix.Tensor.Part.{unrank}
use prefix.Tensor.Shape.{IsTensor, Fits-lt, in_range, rank, offset_rounds_lem}
use prefix.Tensor.Sliced.{indexed-full}
use prefix.Value.{Value, null}

-- What the pointer tells of the indices.
record Points (t : Tensor) (is : List ℕ) (k : ℕ) : Type 0 where
  full : length is ≡ length t.shape
  inside : in_range t.shape is ≡ true
  at : rank t.shape is ≡ k

value_tensor_get_ptr-Points :
    (t : Tensor) (is : List ℕ) (k : ℕ)
    → IsTensor t
    → value_tensor_get_ptr t is ≡ some k
    → Points t is k
unfolding value_tensor_get_ptr
value_tensor_get_ptr-Points t is k v h = by_length (length is == length t.shape) refl h
  where
    found :
        offset_rounds t.shape t.strides is 0
        ≡ (if in_range t.shape is then some (0 + rank t.shape is) else none)
    found =
        ap (λ st. offset_rounds t.shape st is 0) v.rows
        ∙ offset_rounds_lem t.shape is 0 v.fits (omega (arith, Fits-lt t.shape v.fits))

    by_range :
        (b : Bool)
        → in_range t.shape is ≡ b
        → (if b then some (0 + rank t.shape is) else none) ≡ some k
        → length is ≡ length t.shape
        → Points t is k
    by_range true inside e full =
        let same : 0 + rank t.shape is ≡ k = cc in
        record { full = full; inside = inside; at = omega (arith, same) }
    by_range false inside e full = cc

    by_length :
        (b : Bool)
        → (length is == length t.shape) ≡ b
        → (if b then offset_rounds t.shape t.strides is 0 else none) ≡ some k
        → Points t is k
    by_length true full e =
        by_range (in_range t.shape is) refl (sym found ∙ e)
          ((==_iff (length is) (length t.shape)).0 full)
    by_length false full e = cc

-- Where `value_tensor_get_ptr` gives a pointer for indices of a tensor whose size fits, it points
-- into the data. Behind a write through it, these indices give the value written, and all other
-- indices in range give what they gave before.
pub value_tensor_get-value_tensor_get_ptr :
    (t : Tensor) (is : List ℕ) (k : ℕ) (v : Value)
    → IsTensor t
    → value_tensor_get_ptr t is ≡ some k
    → (let u = record t { cells = set t.cells k v } in
        (k < length t.cells)
        × (value_tensor_get u is ≡ element v)
        × ((js : List ℕ)
            → length js ≡ length t.shape
            → in_range t.shape js ≡ true
            → js ≢ is
            → value_tensor_get u js ≡ value_tensor_get t js))
value_tensor_get-value_tensor_get_ptr t is k v good h =
    let p = value_tensor_get_ptr-Points t is k good h in
    let below : k < length t.cells =
      omega (arith, rank_below t.shape is p.full p.inside, p.at, good.whole) in
    let u-IsTensor : IsTensor (record t { cells = set t.cells k v }) = record {
      fits = good.fits;
      rows = good.rows;
      whole = length-set t.cells k v ∙ good.whole;
    } in
    (
      below,
      indexed-full _ is u-IsTensor p.full p.inside
          ∙ ap element (
              ap (λ n. get_or (set t.cells k v) n null) p.at
              ∙ get_or-set_self t.cells k v null below),
      λ js l r ne.
          indexed-full _ js u-IsTensor l r
          ∙ ap element (
              get_or-set_ne t.cells k (rank t.shape js) v null (λ e. ne (
                sym (unrank-rank t.shape js l r)
                ∙ ap (unrank t.shape) (sym e ∙ sym p.at)
                ∙ unrank-rank t.shape is p.full p.inside)))
          ∙ sym (indexed-full t js good l r),
    )
