-- ===== src/Tensor/Positions.antt =====
-- src/value.c: positions in a tensor and the indices that they stand for.
use native.Mathlib.Nat.{
  mod-lt, div-add-mod', div-lt_iff_lt-mul, mul-le-mul, mul-le-mul_left, mul-add-div_right,
  div-eq_of_lt,
}
use prefix.Base.{
  ℕ, zero, suc, ◌+◌, ◌*◌, ◌/◌, ◌%◌, ◌<◌, ◌≤◌, true, List, [], ◌∷◌, ◌≡◌, refl, ◌∙◌, ap, arith,
  if◌then◌else◌, test_cases, ltb, length, drop,
}
use prefix.Tensor.Get.{drop_all}
use prefix.Tensor.Part.{IsPositive, AllWithin, lengths, unrank, and_intro, lt→ltb}
use prefix.Tensor.Shape.{product, Fits, in_range, rank, and_right, rank-bound}
use prefix.Tensor.Slice.{Range, range_length, is_kept}

product-lengths :
    (ds : List ℕ) (rs : List Range)
    → IsPositive ds
    → AllWithin ds rs
    → product (lengths rs) ≤ product ds
product-lengths [] [] p a = omega arith
product-lengths [] (r ∷ rs) p a = elim a [ ]
product-lengths (d ∷ ds) [] p a = elim a [ ]
product-lengths (d ∷ ds) (r ∷ rs) (p, ps) (w, a) =
    test_cases
      (λ b. product (if b then range_length r ∷ lengths rs else lengths rs) ≤ product (d ∷ ds))
      (is_kept r) (λ keep. mul-le-mul (product-lengths ds rs ps a) (omega (arith, w.moved keep)))
      (λ _. omega (
        arith,
        product-lengths ds rs ps a,
        mul-le-mul_left {m = 1} {n = d} (product ds) (omega arith),
      ))

pub lengths-Fits :
    (ds : List ℕ) (rs : List Range) → IsPositive ds → AllWithin ds rs → Fits ds → Fits (lengths rs)
lengths-Fits [] [] p a f = tt
lengths-Fits [] (r ∷ rs) p a f = elim a [ ]
lengths-Fits (d ∷ ds) [] p a f = elim a [ ]
lengths-Fits (d ∷ ds) (r ∷ rs) (p, ps) (w, a) f =
    test_cases
      (λ b.
        product (if b then range_length r ∷ lengths rs else lengths rs) ≤ product (d ∷ ds)
        → Fits (if b then range_length r ∷ lengths rs else lengths rs))
      (is_kept r) (λ _ le. (omega (arith, f.0), lengths-Fits ds rs ps a f.1))
      (λ _ le. lengths-Fits ds rs ps a f.1) (product-lengths (d ∷ ds) (r ∷ rs) (p, ps) (w, a))

pub length-unrank : (ds : List ℕ) (k : ℕ) → length (unrank ds k) ≡ length ds
length-unrank [] k = refl
length-unrank (d ∷ ds) k = ap suc (length-unrank ds (k % product ds))

positive-factor : (p d k : ℕ) → k < p * d → 0 < p
positive-factor zero d k h = absurd (omega arith)
positive-factor (suc p) d k h = omega arith

pub in_range-unrank : (ds : List ℕ) (k : ℕ) → k < product ds → in_range ds (unrank ds k) ≡ true
in_range-unrank [] k h = refl
in_range-unrank (d ∷ ds) k h =
    let positive = positive-factor (product ds) d k h in
    let below : k / product ds < d = (div-lt_iff_lt-mul positive).1 (omega arith) in
    and_intro (lt→ltb (k / product ds) d below)
      (in_range-unrank ds (k % product ds) (mod-lt k positive))

pub rank_below :
    (ds is : List ℕ) → length is ≡ length ds → in_range ds is ≡ true → rank ds is < product ds
rank_below ds is l h =
    let one : product (drop (length is) ds) ≡ 1 = ap product (drop_all ds (length is) l) in
    omega (arith, rank-bound ds is h, one)

-- A position is that of its indices.
pub unrank-rank :
    (ds is : List ℕ) → length is ≡ length ds → in_range ds is ≡ true → unrank ds (rank ds is) ≡ is
unrank-rank [] [] l h = refl
unrank-rank [] (i ∷ is) l h = absurd (omega arith)
unrank-rank (d ∷ ds) [] l h = absurd (omega arith)
unrank-rank (d ∷ ds) (i ∷ is) l h =
    let inner = and_right (ltb i d) _ h in
    let below = rank_below ds is (omega arith) inner in
    let quotient : (i * product ds + rank ds is) / product ds ≡ i =
      mul-add-div_right (omega (arith, below)) i (rank ds is)
      ∙ ap (λ q. i + q) (div-eq_of_lt below)
      ∙ omega arith in
    let rest : (i * product ds + rank ds is) % product ds ≡ rank ds is = omega (
      arith,
      div-add-mod' (i * product ds + rank ds is) (product ds),
      ap (λ q. q * product ds) quotient,
    ) in
    ap (λ q. q ∷ unrank ds ((i * product ds + rank ds is) % product ds)) quotient
    ∙ ap (λ j. i ∷ unrank ds j) rest
    ∙ ap (λ js. i ∷ js) (unrank-rank ds is (omega arith) inner)
