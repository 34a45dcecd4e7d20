-- ===== src/Tensor/Shape.antt =====
-- src/value.c: shapes, strides and the order of the elements.
use native.Mathlib.Nat.{mod-eq_of_lt, mul-le-mul_left}
use prefix.Base.{
  ℕ, zero, suc, ◌+◌, ◌*◌, ◌^◌, ◌<◌, ◌≤◌, Bool, true, false, ◌&&◌, none, some, List, [], ◌∷◌, ◌≡◌,
  refl, ◌∙◌, ap, arith, if◌then◌else◌, ltb, ltb→lt, length, drop, length-replicate,
}
use prefix.Tensor.Index.{
  Tensor, wrap, compute_strides, value_tensor_new, offset_rounds, copied, value_tensor_from_values,
}
use prefix.Value.{Value, null}
use prefix.Value.Types.{DeclType}

abbrev pub product : List ℕ → ℕ
product [] = 1
product (d ∷ ds) = product ds * d

-- The elements of every part fit into a `size_t`.
abbrev pub Fits : List ℕ → Type 0
Fits [] = Unit {0}
Fits (d ∷ ds) = (product (d ∷ ds) < 2 ^ 64) × Fits ds

abbrev pub row_strides : List ℕ → List ℕ
row_strides [] = []
row_strides (d ∷ ds) = product ds ∷ row_strides ds

pub record IsTensor (t : Tensor) : Type 0 where
  pub fits : Fits t.shape
  pub rows : t.strides ≡ row_strides t.shape
  pub whole : length t.cells ≡ product t.shape

pub Fits-lt : (ds : List ℕ) → Fits ds → product ds < 2 ^ 64
Fits-lt [] f = omega arith
Fits-lt (d ∷ ds) f = f.0

pub Fits-drop : (n : ℕ) (ds : List ℕ) → Fits ds → Fits (drop n ds)
Fits-drop zero ds f = f
Fits-drop (suc n) [] f = tt
Fits-drop (suc n) (d ∷ ds) f = Fits-drop n ds f.1

pub compute_strides_lem :
    (ds : List ℕ) → Fits ds → compute_strides ds ≡ (product ds, row_strides ds)
unfolding compute_strides
compute_strides_lem [] f = refl
compute_strides_lem (d ∷ ds) f =
    ap (λ p. (wrap (p.0 * d), p.0 ∷ p.1)) (compute_strides_lem ds f.1)
    ∙ ap (λ l. (l, product ds ∷ row_strides ds)) (mod-eq_of_lt f.0)

pub value_tensor_new-IsTensor :
    (elem_type : DeclType) (shape : List ℕ)
    → Fits shape
    → IsTensor (value_tensor_new elem_type shape)
unfolding value_tensor_new
value_tensor_new-IsTensor elem_type shape f = record {
  fits = f;
  rows = ap (λ p. p.1) (compute_strides_lem shape f);
  whole =
      length-replicate (compute_strides shape).0 null ∙ ap (λ p. p.0) (compute_strides_lem shape f);
}

length-copied : (vs cells : List Value) → length (copied vs cells) ≡ length cells
length-copied [] cells = refl
length-copied (v ∷ vs) [] = refl
length-copied (v ∷ vs) (_ ∷ cells) = ap suc (length-copied vs cells)

pub value_tensor_from_values-IsTensor :
    (elem_type : DeclType) (shape : List ℕ) (items : List Value)
    → Fits shape
    → IsTensor (value_tensor_from_values elem_type shape items)
unfolding value_tensor_from_values
value_tensor_from_values-IsTensor elem_type shape items f =
    let new = value_tensor_new-IsTensor elem_type shape f in
    record {
      fits = new.fits;
      rows = new.rows;
      whole = length-copied items (value_tensor_new elem_type shape).cells ∙ new.whole;
    }

-- Indices of the first dimensions, each in its dimension.
abbrev pub in_range : List ℕ → List ℕ → Bool
in_range (d ∷ ds) (i ∷ is) = ltb i d && in_range ds is
in_range _ _ = true

-- The position of the first element with these indices.
abbrev pub rank : List ℕ → List ℕ → ℕ
rank (d ∷ ds) (i ∷ is) = i * product ds + rank ds is
rank _ _ = 0

pub row_below : (p d i : ℕ) → i < d → i * p + p ≤ p * d
row_below p d i h = grind (arith, mul-le-mul_left {m = suc i} {n = d} p (omega arith))

pub and_left : (a b : Bool) → (a && b) ≡ true → a ≡ true
and_left true b h = refl
and_left false b h = cc

pub and_right : (a b : Bool) → (a && b) ≡ true → b ≡ true
and_right true b h = h
and_right false b h = cc

pub rank-bound :
    (ds is : List ℕ)
    → in_range ds is ≡ true
    → rank ds is + product (drop (length is) ds) ≤ product ds
rank-bound [] [] h = omega arith
rank-bound [] (i ∷ is) h = omega arith
rank-bound (d ∷ ds) [] h = omega arith
rank-bound (d ∷ ds) (i ∷ is) h =
    let below : rank ds is + product (drop (length is) ds) ≤ product ds =
      rank-bound ds is (and_right (ltb i d) _ h) in
    omega (arith, row_below (product ds) d i (ltb→lt i d (and_left (ltb i d) _ h)), below)

pub offset_rounds_lem :
    (ds is : List ℕ) (offset : ℕ)
    → Fits ds
    → offset + product ds < 2 ^ 64
    → offset_rounds ds (row_strides ds) is offset
      ≡ (if in_range ds is then some (offset + rank ds is) else none)
unfolding offset_rounds
offset_rounds_lem [] [] offset f h = ap some (omega arith)
offset_rounds_lem [] (i ∷ is) offset f h = ap some (omega arith)
offset_rounds_lem (d ∷ ds) [] offset f h = ap some (omega arith)
offset_rounds_lem (d ∷ ds) (i ∷ is) offset f h =
    by_test (ltb i d) refl (λ n. offset_rounds_lem ds is n f.1)
  where
    by_test :
        (b : Bool)
        → ltb i d ≡ b
        → ((n : ℕ)
            → n + product ds < 2 ^ 64
            → offset_rounds ds (row_strides ds) is n
              ≡ (if in_range ds is then some (n + rank ds is) else none))
        → (if b
            then offset_rounds ds (row_strides ds) is (wrap (offset + i * product ds))
            else none)
          ≡ (if b && in_range ds is then some (offset + (i * product ds + rank ds is)) else none)
    by_test false e ih = refl
    by_test true e ih =
        let below : i * product ds + product ds ≤ product ds * d =
          row_below (product ds) d i (ltb→lt i d e) in
        ap (offset_rounds ds (row_strides ds) is)
          (mod-eq_of_lt {n = offset + i * product ds} {m = 2 ^ 64} (omega (arith, below)))
        ∙ ih (offset + i * product ds) (omega (arith, below))
        ∙ ap (λ n. if in_range ds is then some n else none) (omega arith)
