-- ===== src/Tensor/Get.antt =====
-- src/value.c: the elements and parts of a tensor by their indices.
use native.Mathlib.Nat.{mod-eq_of_lt}
use prefix.Base.{
  ℕ, zero, suc, ◌+◌, ◌^◌, ◌<◌, ◌≤◌, Bool, true, false, none, some, List, [], ◌∷◌, ◌≡◌, refl, sym,
  ◌∙◌, ap, subst, arith, if_cong, if◌then◌else◌, ltb, length, drop, take, get_elem?, get_or, ◌==◌,
  ==_iff,
}
use prefix.Tensor.Index.{
  Tensor, TensorResult, null_value, element, part, aborted, outside, wrap, value_tensor_new,
  offset_rounds, read_all, read_element, filled, filled_with, located, value_tensor_get,
}
use prefix.Tensor.Shape.{
  product, Fits, Fits-lt, Fits-drop, row_strides, IsTensor, value_tensor_new-IsTensor, in_range,
  rank, rank-bound, offset_rounds_lem,
}
use prefix.Value.{Value, null}
use prefix.Value.Types.{DeclType}

pub get_elem?-get_or :
    (cells : List Value) (i : ℕ) → i < length cells → get_elem? cells i ≡ some (get_or cells i null)
get_elem?-get_or [] i h = absurd (omega arith)
get_elem?-get_or (v ∷ cells) zero h = refl
get_elem?-get_or (v ∷ cells) (suc i) h = get_elem?-get_or cells i (omega arith)

-- The elements at `src i`, of the `n` positions from `i`.
abbrev pub collect : (ℕ → ℕ) → List Value → ℕ → ℕ → List Value
collect src cells i zero = []
collect src cells i (suc n) = get_or cells (src i) null ∷ collect src cells (suc i) n

pub length-collect :
    (src : ℕ → ℕ) (cells : List Value) (i n : ℕ) → length (collect src cells i n) ≡ n
length-collect src cells i zero = refl
length-collect src cells i (suc n) = ap suc (length-collect src cells (suc i) n)

pub get_or-collect :
    (src : ℕ → ℕ) (cells : List Value) (i n k : ℕ)
    → k < n
    → get_or (collect src cells i n) k null ≡ get_or cells (src (i + k)) null
get_or-collect src cells i zero k h = absurd (omega arith)
get_or-collect src cells i (suc n) zero h = ap (λ j. get_or cells (src j) null) (omega arith)
get_or-collect src cells i (suc n) (suc k) h =
    get_or-collect src cells (suc i) n k (omega arith)
    ∙ ap (λ j. get_or cells (src j) null) (omega arith)

pub read_all-collect :
    (src : ℕ → ℕ) (cells : List Value) (i n : ℕ)
    → ((k : ℕ) → k < n → src (i + k) < length cells)
    → read_all src cells i n ≡ some (collect src cells i n)
unfolding read_all
read_all-collect src cells i zero h = refl
read_all-collect src cells i (suc n) h =
    let at_i : src i < length cells =
      subst (λ j. src j < length cells) (omega arith) (h 0 (omega arith)) in
    let rest =
      read_all-collect src cells (suc i) n
        (λ k lt. subst (λ j. src j < length cells) (omega arith) (h (suc k) (omega arith))) in
    rw (get_elem?-get_or cells (src i) at_i, read_all) (rw (rest, read_all) refl)

take-drop :
    (cells : List Value) (m n : ℕ)
    → m < length cells
    → take (suc n) (drop m cells) ≡ get_or cells m null ∷ take n (drop (suc m) cells)
take-drop [] m n h = absurd (omega arith)
take-drop (v ∷ cells) zero n h = refl
take-drop (v ∷ cells) (suc m) n h = take-drop cells m n (omega arith)

collect-take :
    (cells : List Value) (offset i n : ℕ)
    → offset + i + n ≤ length cells
    → length cells < 2 ^ 64
    → collect (λ j. wrap (offset + j)) cells i n ≡ take n (drop (offset + i) cells)
collect-take cells offset i zero h fits = refl
collect-take cells offset i (suc n) h fits =
    ap (λ j. get_or cells j null ∷ collect (λ j. wrap (offset + j)) cells (suc i) n)
      (mod-eq_of_lt {n = offset + i} {m = 2 ^ 64} (omega arith))
    ∙ ap (λ vs. get_or cells (offset + i) null ∷ vs)
        (collect-take cells offset (suc i) n (omega arith) fits
          ∙ ap (λ j. take n (drop j cells)) {y = suc (offset + i)} (omega arith))
    ∙ sym (take-drop cells (offset + i) n (omega arith))

-- A tensor in which the elements stand in the order of their indices.
abbrev pub row_major : DeclType → List ℕ → List Value → Tensor
row_major elem_type shape cells = record {
  elem_type = elem_type;
  shape = shape;
  strides = row_strides shape;
  cells = cells;
}

pub filled-collect :
    (elem_type : DeclType) (shape : List ℕ) (src : ℕ → ℕ) (cells : List Value)
    → Fits shape
    → ((k : ℕ) → k < product shape → src k < length cells)
    → filled elem_type shape src cells
      ≡ part (row_major elem_type shape (collect src cells 0 (product shape)))
unfolding value_tensor_new
filled-collect elem_type shape src cells f h =
    let new = value_tensor_new-IsTensor elem_type shape f in
    ap (λ n. filled_with (value_tensor_new elem_type shape) (read_all src cells 0 n)) new.whole
    ∙ ap (filled_with (value_tensor_new elem_type shape)) (
        read_all-collect src cells 0 (product shape)
          (λ k lt. subst (λ j. src j < length cells) (omega arith) (h k lt)))
    ∙ ap
        (λ st. part (record {
          elem_type = elem_type;
          shape = shape;
          strides = st;
          cells = collect src cells 0 (product shape);
        }))
        new.rows

-- The reference: the elements with these first indices stand together, in order.
abbrev pub indexed : Tensor → List ℕ → TensorResult
indexed t is =
    if ltb (length t.shape) (length is)
    then aborted
    else if in_range t.shape is
    then if length is == length t.shape
      then element (get_or t.cells (rank t.shape is) null)
      else (let rest = drop (length is) t.shape in
          part (row_major t.elem_type rest (take (product rest) (drop (rank t.shape is) t.cells))))
    else null_value

pub drop_all : (ds : List ℕ) (n : ℕ) → n ≡ length ds → drop n ds ≡ []
drop_all [] zero h = refl
drop_all [] (suc n) h = refl
drop_all (d ∷ ds) zero h = absurd (omega arith)
drop_all (d ∷ ds) (suc n) h = drop_all ds n (omega arith)

located-indexed :
    (t : Tensor) (is : List ℕ)
    → IsTensor t
    → in_range t.shape is ≡ true
    → located t is (some (0 + rank t.shape is)) ≡ (
        if length is == length t.shape
        then element (get_or t.cells (rank t.shape is) null)
        else (let rest = drop (length is) t.shape in
            part
              (row_major t.elem_type rest (take (product rest) (drop (rank t.shape is) t.cells)))))
located-indexed t is v h =
    let bound = rank-bound t.shape is h in
    let small = Fits-lt t.shape v.fits in
    let rest = drop (length is) t.shape in
    if_cong (length is == length t.shape)
      (λ full.
        let one : product rest ≡ 1 =
          ap product
            (drop_all t.shape (length is) ((==_iff (length is) (length t.shape)).0 full)) in
        ap (read_element t.cells) (omega arith)
        ∙ ap (λ o. elim o as (λ _. TensorResult) [ none ↦ outside | some v ↦ element v ])
            (get_elem?-get_or t.cells (rank t.shape is) (omega (arith, bound, one, v.whole))))
      (λ _.
        filled-collect t.elem_type rest (λ i. wrap (0 + rank t.shape is + i)) t.cells
          (Fits-drop (length is) t.shape v.fits) (λ k lt. omega (arith, bound, small, v.whole))
        ∙ ap (λ vs. part (row_major t.elem_type rest vs))
            (collect-take t.cells (0 + rank t.shape is) 0 (product rest)
                (omega (arith, bound, v.whole)) (omega (arith, small, v.whole))
              ∙ ap (λ j. take (product rest) (drop j t.cells)) (omega arith)))

pub value_tensor_get-indexed :
    (t : Tensor) (is : List ℕ) → IsTensor t → value_tensor_get t is ≡ indexed t is
unfolding value_tensor_get
value_tensor_get-indexed t is v =
    if_cong (ltb (length t.shape) (length is)) (λ _. refl)
      (λ _.
        ap (λ st. located t is (offset_rounds t.shape st is 0)) v.rows
        ∙ ap (located t is)
            (offset_rounds_lem t.shape is 0 v.fits (omega (arith, Fits-lt t.shape v.fits)))
        ∙ by_test (in_range t.shape is) refl)
  where
    by_test :
        (b : Bool)
        → in_range t.shape is ≡ b
        → located t is (if b then some (0 + rank t.shape is) else none) ≡ (
            if b
            then if length is == length t.shape
              then element (get_or t.cells (rank t.shape is) null)
              else (let rest = drop (length is) t.shape in
                  part (
                    row_major t.elem_type rest
                      (take (product rest) (drop (rank t.shape is) t.cells))))
            else null_value)
    by_test true e = located-indexed t is v e
    by_test false e = refl
