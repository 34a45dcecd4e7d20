-- ===== src/Tensor/Part.antt =====
-- src/value.c: the elements of a slice against those of the tensor.
use native.Mathlib.Nat.{mod-eq_of_lt}
use prefix.Base.{
  ℕ, suc, ◌+◌, ◌-◌, ◌*◌, ◌/◌, ◌%◌, ◌^◌, ◌<◌, ◌≤◌, Bool, true, ◌&&◌, List, [], ◌∷◌, ◌≡◌, refl, ◌∙◌,
  ap, arith, if◌then◌else◌, if_both, test_cases, ltb, length, get_or, drop, ltb→lt,
}
use prefix.Base.Int.{ℤ}
use prefix.Tensor.Index.{wrap}
use prefix.Tensor.Shape.{product, row_strides, in_range, rank, and_left, and_right}
use prefix.Tensor.Slice.{
  Range, normalized, ranges, range_length, fixed_position, is_kept, kept, fixed_offset, new_shape,
  src_rounds,
}

-- A range within a dimension.
pub record IsWithin (d : ℕ) (r : Range) : Type 0 where
  pub fixed : fixed_position r < d
  pub moved : is_kept r ≡ true → r.start - 1 + range_length r ≤ d

pub normalized-IsWithin : (d : ℕ) (s e : ℤ) → 0 < d → IsWithin d (normalized d s e)
unfolding normalized range_length fixed_position
normalized-IsWithin d s e h = record { fixed = ground arith; moved = λ k. ground arith }

pub whole-IsWithin : (d : ℕ) → 0 < d → IsWithin d (record { start = 1; stop = d })
unfolding range_length fixed_position
whole-IsWithin d h = record { fixed = ground arith; moved = λ k. ground arith }

-- No dimension is empty.
abbrev pub IsPositive : List ℕ → Type 0
IsPositive [] = Unit {0}
IsPositive (d ∷ ds) = (0 < d) × IsPositive ds

abbrev pub AllWithin : List ℕ → List Range → Type 0
AllWithin [] [] = Unit {0}
AllWithin (d ∷ ds) (r ∷ rs) = IsWithin d r × AllWithin ds rs
AllWithin _ _ = ⊥

pub ranges-AllWithin :
    (ds : List ℕ) (bounds : List (ℤ × ℤ)) → IsPositive ds → AllWithin ds (ranges ds bounds)
ranges-AllWithin [] bounds h = tt
ranges-AllWithin (d ∷ ds) [] (h, hs) = (whole-IsWithin d h, ranges-AllWithin ds [] hs)
ranges-AllWithin (d ∷ ds) ((s, e) ∷ bounds) (h, hs) =
    (normalized-IsWithin d s e h, ranges-AllWithin ds bounds hs)

-- The indices of the tensor that indices of the slice stand for.
abbrev pub widened : List Range → List ℕ → List ℕ
widened [] is = []
widened (r ∷ rs) is =
    if is_kept r
    then (get_or is 0 0 + (r.start - 1)) ∷ widened rs (drop 1 is)
    else fixed_position r ∷ widened rs is

-- The lengths of the dimensions that are kept.
abbrev pub lengths : List Range → List ℕ
lengths [] = []
lengths (r ∷ rs) = if is_kept r then range_length r ∷ lengths rs else lengths rs

pub and_intro : {a b : Bool} → a ≡ true → b ≡ true → (a && b) ≡ true
and_intro p q = rw (p, q) refl

pub lt→ltb : (a b : ℕ) → a < b → ltb a b ≡ true
lt→ltb a b h = ground arith

pub in_range-widened :
    (ds : List ℕ) (rs : List Range) (is : List ℕ)
    → AllWithin ds rs
    → in_range (lengths rs) is ≡ true
    → length is ≡ length (lengths rs)
    → in_range ds (widened rs is) ≡ true
in_range-widened [] [] is a h l = refl
in_range-widened [] (r ∷ rs) is a h l = elim a [ ]
in_range-widened (d ∷ ds) [] is a h l = elim a [ ]
in_range-widened (d ∷ ds) (r ∷ rs) is (w, a) h l =
    test_cases
      (λ b.
        in_range (if b then range_length r ∷ lengths rs else lengths rs) is ≡ true
        → length is ≡ length (if b then range_length r ∷ lengths rs else lengths rs)
        → in_range (d ∷ ds) (
            if b
            then (get_or is 0 0 + (r.start - 1)) ∷ widened rs (drop 1 is)
            else fixed_position r ∷ widened rs is)
          ≡ true)
      (is_kept r) (λ keep. moved_in_range is (w.moved keep) (in_range-widened ds rs (drop 1 is) a))
      (λ _ h' l'.
        and_intro (lt→ltb (fixed_position r) d w.fixed) (in_range-widened ds rs is a h' l'))
      h l
  where
    moved_in_range :
        (is : List ℕ)
        → r.start - 1 + range_length r ≤ d
        → (in_range (lengths rs) (drop 1 is) ≡ true
            → length (drop 1 is) ≡ length (lengths rs)
            → in_range ds (widened rs (drop 1 is)) ≡ true)
        → in_range (range_length r ∷ lengths rs) is ≡ true
        → length is ≡ suc (length (lengths rs))
        → in_range (d ∷ ds) ((get_or is 0 0 + (r.start - 1)) ∷ widened rs (drop 1 is)) ≡ true
    moved_in_range [] m rest h' l' = absurd (omega arith)
    moved_in_range (i ∷ is) m rest h' l' =
        let below : i < range_length r =
          ltb→lt i (range_length r) (and_left (ltb i (range_length r)) _ h') in
        and_intro (lt→ltb (i + (r.start - 1)) d (omega arith))
          (rest (and_right (ltb i (range_length r)) _ h') (omega arith))

pub length-widened :
    (ds : List ℕ) (rs : List Range) (is : List ℕ)
    → AllWithin ds rs
    → length (widened rs is) ≡ length ds
length-widened [] [] is a = refl
length-widened [] (r ∷ rs) is a = elim a [ ]
length-widened (d ∷ ds) [] is a = elim a [ ]
length-widened (d ∷ ds) (r ∷ rs) is (w, a) =
    if_both (λ l. length l ≡ length (d ∷ ds)) (is_kept r)
      (ap suc (length-widened ds rs (drop 1 is) a)) (ap suc (length-widened ds rs is a))

-- What the dimensions that are fixed add to a position.
abbrev pub fixed_sum : List ℕ → List Range → ℕ
fixed_sum (d ∷ ds) (r ∷ rs) =
    if is_kept r then fixed_sum ds rs else fixed_position r * product ds + fixed_sum ds rs
fixed_sum _ _ = 0

-- What the others add.
abbrev pub moved_sum : List ℕ → List Range → List ℕ → ℕ
moved_sum (d ∷ ds) (r ∷ rs) is =
    if is_kept r
    then (get_or is 0 0 + (r.start - 1)) * product ds + moved_sum ds rs (drop 1 is)
    else moved_sum ds rs is
moved_sum _ _ _ = 0

pub rank-widened :
    (ds : List ℕ) (rs : List Range) (is : List ℕ)
    → AllWithin ds rs
    → rank ds (widened rs is) ≡ fixed_sum ds rs + moved_sum ds rs is
rank-widened [] rs is a = refl
rank-widened (d ∷ ds) [] is a = refl
rank-widened (d ∷ ds) (r ∷ rs) is (w, a) =
    test_cases
      (λ b.
        rank (d ∷ ds) (
          if b
          then (get_or is 0 0 + (r.start - 1)) ∷ widened rs (drop 1 is)
          else fixed_position r ∷ widened rs is)
        ≡ (if b then fixed_sum ds rs else fixed_position r * product ds + fixed_sum ds rs)
          + (if b
              then (get_or is 0 0 + (r.start - 1)) * product ds + moved_sum ds rs (drop 1 is)
              else moved_sum ds rs is))
      (is_kept r) (λ _. omega (arith, rank-widened ds rs (drop 1 is) a))
      (λ _. omega (arith, rank-widened ds rs is a))

pub new_shape-kept :
    (ds : List ℕ) (rs : List Range)
    → AllWithin ds rs
    → new_shape (kept rs (row_strides ds)) ≡ lengths rs
new_shape-kept [] [] a = refl
new_shape-kept [] (r ∷ rs) a = elim a [ ]
new_shape-kept (d ∷ ds) [] a = refl
new_shape-kept (d ∷ ds) (r ∷ rs) (w, a) =
    test_cases
      (λ b.
        new_shape
          (if b then (r, product ds) ∷ kept rs (row_strides ds) else kept rs (row_strides ds))
        ≡ (if b then range_length r ∷ lengths rs else lengths rs))
      (is_kept r) (λ _. ap (λ l. range_length r ∷ l) (new_shape-kept ds rs a))
      (λ _. new_shape-kept ds rs a)

pub fixed_offset-fixed_sum :
    (ds : List ℕ) (rs : List Range) (o : ℕ)
    → o + fixed_sum ds rs < 2 ^ 64
    → fixed_offset rs (row_strides ds) o ≡ o + fixed_sum ds rs
unfolding fixed_offset
fixed_offset-fixed_sum [] [] o h = omega arith
fixed_offset-fixed_sum [] (r ∷ rs) o h = omega arith
fixed_offset-fixed_sum (d ∷ ds) [] o h = omega arith
fixed_offset-fixed_sum (d ∷ ds) (r ∷ rs) o h =
    test_cases
      (λ b.
        o + (if b then fixed_sum ds rs else fixed_position r * product ds + fixed_sum ds rs)
          < 2 ^ 64
        → (if b
            then fixed_offset rs (row_strides ds) o
            else fixed_offset rs (row_strides ds) (wrap (o + fixed_position r * product ds)))
          ≡ o + (if b then fixed_sum ds rs else fixed_position r * product ds + fixed_sum ds rs))
      (is_kept r) (λ _ h'. fixed_offset-fixed_sum ds rs o h')
      (λ _ h'.
        ap (fixed_offset rs (row_strides ds))
          (mod-eq_of_lt {n = o + fixed_position r * product ds} {m = 2 ^ 64} (omega arith))
        ∙ fixed_offset-fixed_sum ds rs (o + fixed_position r * product ds) (omega arith)
        ∙ omega arith)
      h

-- The indices of the element at a position.
abbrev pub unrank : List ℕ → ℕ → List ℕ
unrank [] k = []
unrank (d ∷ ds) k = (k / product ds) ∷ unrank ds (k % product ds)

pub src_rounds-moved_sum :
    (ds : List ℕ) (rs : List Range) (o k : ℕ)
    → AllWithin ds rs
    → o + moved_sum ds rs (unrank (lengths rs) k) < 2 ^ 64
    → src_rounds (kept rs (row_strides ds)) (row_strides (lengths rs)) o k
      ≡ o + moved_sum ds rs (unrank (lengths rs) k)
unfolding src_rounds
src_rounds-moved_sum [] [] o k a h = omega arith
src_rounds-moved_sum [] (r ∷ rs) o k a h = elim a [ ]
src_rounds-moved_sum (d ∷ ds) [] o k a h = elim a [ ]
src_rounds-moved_sum (d ∷ ds) (r ∷ rs) o k (w, a) h =
    test_cases
      (λ b.
        let ls = if b then range_length r ∷ lengths rs else lengths rs in
        let is = unrank ls k in
        let sum =
          if b
          then (get_or is 0 0 + (r.start - 1)) * product ds + moved_sum ds rs (drop 1 is)
          else moved_sum ds rs is in
        o + sum < 2 ^ 64
        → src_rounds
            (if b then (r, product ds) ∷ kept rs (row_strides ds) else kept rs (row_strides ds))
            (row_strides ls) o k
          ≡ o + sum)
      (is_kept r)
      (λ _ h'.
        let q = k / product (lengths rs) + (r.start - 1) in
        ap
          (λ n.
            src_rounds (kept rs (row_strides ds)) (row_strides (lengths rs)) n
              (k % product (lengths rs)))
          (mod-eq_of_lt {n = o + q * product ds} {m = 2 ^ 64} (omega arith))
        ∙ src_rounds-moved_sum ds rs (o + q * product ds) (k % product (lengths rs)) a (omega arith)
        ∙ omega arith)
      (λ _ h'. src_rounds-moved_sum ds rs o k a h') h
