-- ===== src/Number/Digits.antt =====
-- src/builtins.c, src/parser.c: printing the digits of a number, and reading them.
use native.Mathlib.Nat.{
  mod-lt, div-add-mod', le-div_iff_mul-le, div-lt_iff_lt-mul, mul-le-mul_left, div-le_self,
}
use prefix.Base.{
  ℕ, zero, suc, ◌-◌, ◌*◌, ◌/◌, ◌%◌, ◌<◌, ◌≤◌, Bool, true, false, ◌&&◌, Option, none, some, ◌∷◌, ◌≡◌,
  refl, ◌∙◌, ap, arith, ltb, ◌==◌, ==_iff, get_or, Bytes, contains, Bool-cases, inl, inr, not,
  if_both,
}
use prefix.Number.Text.{
  k_digits64, k_digits58, k_digit64_tbl, k_digit58_tbl, entry_at, digit_value_for_base, alphabet,
  digit_rounds, int64_max, parse_digits,
}

-- One step of the reader on the last digit of `v`, which does not overflow.
step_fits : (base v : ℕ) → 0 < base → v ≤ int64_max → v / base ≤ (int64_max - v % base) / base
step_fits base v positive le = (le-div_iff_mul-le positive).1 (omega (arith, div-add-mod' v base))

-- A test of all numbers below a bound.
every : ℕ → (ℕ → Bool) → Bool
every zero test = true
every (suc n) test = test n && every n test

every-lt : (n : ℕ) (test : ℕ → Bool) (d : ℕ) → every n test ≡ true → d < n → test d ≡ true
unfolding every
every-lt zero test d h lt = absurd (omega arith)
every-lt (suc n) test d h lt = elim (Bool-cases (d == n)) [
  | inl at ↦ ap test ((==_iff d n).0 at) ∙ ground arith
  | inr below ↦ every-lt n test d (ground arith) (ground arith)
]

is_some : ℕ → Option ℕ → Bool
is_some d none = false
is_some d (some v) = v == d

is_some_lem : (d : ℕ) (o : Option ℕ) → is_some d o ≡ true → o ≡ some d
unfolding is_some
is_some_lem d none h = cc
is_some_lem d (some v) h = ap some ((==_iff v d).0 h)

reads : Bytes → Bytes → ℕ → Bool
reads tbl letters d =
    is_some d (entry_at tbl 0 (get_or letters d 0)) && not (get_or letters d 0 == b'.')

all_64 : every 64 (reads k_digit64_tbl k_digits64) ≡ true
unfolding every reads is_some entry_at k_digit64_tbl k_digits64
all_64 = refl

all_58 : every 58 (reads k_digit58_tbl k_digits58) ≡ true
unfolding every reads is_some entry_at k_digit58_tbl k_digits58
all_58 = refl

-- A digit under the base is printed as a letter that is read as this digit, and is no dot.
letter_lem :
    (base d : ℕ)
    → base ≤ 64
    → d < base
    → (digit_value_for_base base (get_or (alphabet base) d 0) ≡ some d)
      × ((get_or (alphabet base) d 0 == b'.') ≡ false)
unfolding digit_value_for_base alphabet reads
letter_lem base d le lt = elim (Bool-cases (base == 58)) [
  | inl at ↦
      let h = every-lt 58 (reads k_digit58_tbl k_digits58) d all_58 (ground arith) in
      rw at (is_some_lem d _ (ground arith), ground arith)
  | inr other ↦
      let h = every-lt 64 (reads k_digit64_tbl k_digits64) d all_64 (omega arith) in
      rw other (is_some_lem d _ (ground arith), ground arith)
]

unfoldable pub dbl : ℕ → ℕ
dbl zero = 1
dbl (suc n) = dbl n * 2

module _ (base : ℕ) (low : 2 ≤ base) (high : base ≤ 64) where
  parse_digit :
      (v : ℕ) (rest : Bytes)
      → v ≤ int64_max
      → parse_digits base (v / base) (get_or (alphabet base) (v % base) 0 ∷ rest)
        ≡ parse_digits base v rest
  unfolding parse_digits
  parse_digit v rest le =
      let lt : v % base < base = mod-lt v (omega arith) in
      let fits = step_fits base v (omega arith) le in
      rw (parse_digits, (letter_lem base (v % base) high lt).0, div-add-mod' v base) (ground arith)

  pub parse_digits-digit_rounds :
      (n v : ℕ) (rest : Bytes)
      → v < dbl n
      → v ≤ int64_max
      → parse_digits base 0 (digit_rounds n (alphabet base) base v rest) ≡ parse_digits base v rest
  unfolding digit_rounds dbl
  parse_digits-digit_rounds zero v rest lt le = ap (λ a. parse_digits base a rest) (omega arith)
  parse_digits-digit_rounds (suc n) v rest lt le = elim (Bool-cases (ltb 0 v)) [
    | inl more ↦
        rw (digit_rounds, more)
          (parse_digits-digit_rounds n (v / base) (get_or (alphabet base) (v % base) 0 ∷ rest)
              ((div-lt_iff_lt-mul (omega arith)).1 (omega (arith, mul-le-mul_left (dbl n) low)))
              (omega (arith, div-le_self v base))
            ∙ parse_digit v rest le)
    | inr done ↦ rw (digit_rounds, done) (ap (λ a. parse_digits base a rest) (ground arith))
  ]

  pub contains-digit_rounds :
      (n v : ℕ) (rest : Bytes)
      → contains rest b'.' ≡ false
      → contains (digit_rounds n (alphabet base) base v rest) b'.' ≡ false
  unfolding digit_rounds contains
  contains-digit_rounds zero v rest h = h
  contains-digit_rounds (suc n) v rest h =
      let lt : v % base < base = mod-lt v (omega arith) in
      let letter = get_or (alphabet base) (v % base) 0 in
      let no_dot = (letter_lem base (v % base) high lt).1 in
      if_both (λ ds. contains ds b'.' ≡ false) (ltb 0 v)
        (contains-digit_rounds n (v / base) (letter ∷ rest) (rw no_dot h)) h
