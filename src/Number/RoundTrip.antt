-- ===== src/Number/RoundTrip.antt =====
-- src/builtins.c: printing an integer in a base, and reading it.
use native.Mathlib.Numerals.{add-one}
use prefix.Base.{
  ℕ, zero, suc, ◌+◌, ◌-◌, ◌*◌, ◌/◌, ◌%◌, ◌<◌, ◌≤◌, Bool, true, false, Option, some, [], ◌∷◌, ◌++◌,
  ◌≡◌, refl, sym, ◌∙◌, ap, arith, ltb, ◌==◌, ==_iff, get_or, Bytes, contains, ltb→lt, if_both,
  if_cases, isdigit,
}
use prefix.Base.Int.{ℤ, pos, negsuc}
use prefix.Number.Text.{
  k_digit64_tbl, entry_at, digit_value_for_base, alphabet, digit_rounds, int64_max, parse_digits,
  magnitude, parse_numeric_prefix, base_prefix_str, is_valid_numeric_base, parse_unsigned, signed,
  parse_prefixed_int_string, int_to_base_prefixed_str,
}
use prefix.Number.Digits.{dbl, parse_digits-digit_rounds, contains-digit_rounds}

not_empty : Bytes → Bool
not_empty [] = false
not_empty (_ ∷ _) = true

not_empty-digit_rounds :
    (n : ℕ) (letters : Bytes) (base v : ℕ) (rest : Bytes)
    → not_empty rest ≡ true
    → not_empty (digit_rounds n letters base v rest) ≡ true
unfolding digit_rounds not_empty
not_empty-digit_rounds zero letters base v rest h = h
not_empty-digit_rounds (suc n) letters base v rest h =
    if_both (λ ds. not_empty ds ≡ true) (ltb 0 v)
      (not_empty-digit_rounds n letters base (v / base) (get_or letters (v % base) 0 ∷ rest) refl) h

not_empty-positive :
    (n : ℕ) (letters : Bytes) (base v : ℕ)
    → ltb 0 v ≡ true
    → not_empty (digit_rounds (suc n) letters base v []) ≡ true
unfolding digit_rounds not_empty
not_empty-positive n letters base v h =
    rw (digit_rounds, h)
      (not_empty-digit_rounds n letters base (v / base) (get_or letters (v % base) 0 ∷ []) refl)

bound : int64_max < dbl 159
unfolding dbl
bound = ltb→lt int64_max (dbl 159) refl

zero_value : (base : ℕ) → 2 ≤ base → (base == 58) ≡ false → parse_digits base 0 (b'0' ∷ []) ≡ some 0
unfolding parse_digits digit_value_for_base entry_at k_digit64_tbl
zero_value base low other = rw (parse_digits, digit_value_for_base, other) (ground arith)

-- The text of a number is read as this number, but for 0 in base 58, whose alphabet has no `0`.
record IsRead (base v : ℕ) (ds : Bytes) : Type 0 where
  some_digit : not_empty ds ≡ true
  no_dot : contains ds b'.' ≡ false
  value : parse_digits base 0 ds ≡ some v

magnitude-IsRead :
    (base v : ℕ)
    → 2 ≤ base
    → base ≤ 64
    → v ≤ int64_max
    → (base ≡ 58 → 0 < v)
    → IsRead base v (magnitude v base)
unfolding magnitude contains not_empty parse_digits
magnitude-IsRead base v low high le apart =
    if_cases (IsRead base v) (v == 0)
      (λ is_zero.
        let at : v ≡ 0 = (==_iff v 0).0 is_zero in
        let other : (base == 58) ≡ false = ground arith in
        record {
          some_digit = refl;
          no_dot = refl;
          value = zero_value base low other ∙ ap some (sym at);
        })
      (λ some_there. record {
        some_digit = not_empty-positive 158 (alphabet base) base v (ground arith);
        no_dot = contains-digit_rounds base low high 159 v [] refl;
        value = parse_digits-digit_rounds base low high 159 v [] (omega (arith, bound, le)) le;
      })

numbered_lem :
    (base : ℕ) (digits : Bytes)
    → 2 ≤ base
    → base ≤ 64
    → parse_numeric_prefix (b'0' ∷ b'r' ∷ (b'0' + base / 10) ∷ (b'0' + base % 10) ∷ digits)
      ≡ some (base, digits)
unfolding parse_numeric_prefix is_valid_numeric_base
numbered_lem base digits low high =
    let tens : isdigit (b'0' + base / 10) ≡ true = ground arith in
    let ones : isdigit (b'0' + base % 10) ≡ true = ground arith in
    let number : (b'0' + base / 10 - b'0') * 10 + (b'0' + base % 10 - b'0') ≡ base = omega arith in
    let valid : is_valid_numeric_base base ≡ true = ground arith in
    rw (tens, ones, number, valid) refl

-- The prefix of a base is read as this base.
parse_numeric_prefix-base_prefix_str :
    (base : ℕ) (digits : Bytes)
    → 2 ≤ base
    → base ≤ 64
    → parse_numeric_prefix (base_prefix_str base ++ digits) ≡ some (base, digits)
unfolding parse_numeric_prefix base_prefix_str is_valid_numeric_base
parse_numeric_prefix-base_prefix_str base digits low high =
    let P = λ (prefix : Bytes). parse_numeric_prefix (prefix ++ digits) ≡ some (base, digits) in
    let pair : ℕ → Option (ℕ × Bytes) = λ c. some (c, digits) in
    let letter = λ (b : ℕ) (e : (base == b) ≡ true). ap pair (sym ((==_iff base b).0 e)) in
    if_cases P (base == 2) (letter 2) (λ _. if_cases P (base == 8) (letter 8) (λ _.
      if_cases P (base == 10) (letter 10) (λ _. if_cases P (base == 16) (letter 16) (λ _.
        if_cases P (base == 32) (letter 32) (λ _.
          if_cases P (base == 58) (letter 58)
            (λ _. if_cases P (base == 64) (letter 64) (λ _. numbered_lem base digits low high)))))))

prefix_head : (base : ℕ) → (t : Bytes) × (base_prefix_str base ≡ b'0' ∷ t)
unfolding base_prefix_str
prefix_head base =
    let P = λ (prefix : Bytes). (t : Bytes) × (prefix ≡ b'0' ∷ t) in
    if_both P (base == 2) (_, refl)
      (if_both P (base == 8) (_, refl)
        (if_both P (base == 10) (_, refl)
          (if_both P (base == 16) (_, refl)
            (if_both P (base == 32) (_, refl)
              (if_both P (base == 58) (_, refl) (if_both P (base == 64) (_, refl) (_, refl)))))))

parse_unsigned_lem :
    (neg : Bool) (s : Bytes) (base v : ℕ) (ds : Bytes)
    → parse_numeric_prefix s ≡ some (base, ds)
    → IsRead base v ds
    → parse_unsigned neg s ≡ some (signed neg v, base)
unfolding parse_unsigned not_empty
parse_unsigned_lem neg s base v [] h r = cc (r.some_digit)
parse_unsigned_lem neg s base v (c ∷ ds) h r = rw (h, parse_unsigned, r.no_dot, r.value) refl

abbrev pub magnitude_of : ℤ → ℕ
magnitude_of (pos n) = n
magnitude_of (negsuc n) = n + 1

-- An integer of 64 bits but the least is read back from its text in each base from 2 to 64, with
-- the base; but not 0 in base 58, whose text holds a `0` that is no digit of this base.
pub parse_prefixed_int_string-int_to_base_prefixed_str :
    (val : ℤ) (base : ℕ)
    → 2 ≤ base
    → base ≤ 64
    → magnitude_of val ≤ int64_max
    → (base ≡ 58 → 0 < magnitude_of val)
    → parse_prefixed_int_string (int_to_base_prefixed_str val base) ≡ some (val, base)
unfolding parse_prefixed_int_string int_to_base_prefixed_str is_valid_numeric_base
parse_prefixed_int_string-int_to_base_prefixed_str (pos n) base low high le apart =
    let valid : is_valid_numeric_base base ≡ true = ground arith in
    let (t, head) = prefix_head base in
    let ds = magnitude n base in
    let read =
      parse_unsigned_lem false (base_prefix_str base ++ ds) base n ds
        (parse_numeric_prefix-base_prefix_str base ds low high)
        (magnitude-IsRead base n low high le apart) in
    rw (valid, head) (rw head at read)
parse_prefixed_int_string-int_to_base_prefixed_str (negsuc n) base low high le apart =
    let valid : is_valid_numeric_base base ≡ true = ground arith in
    let ds = magnitude (n + 1) base in
    let read =
      parse_unsigned_lem true (base_prefix_str base ++ ds) base (n + 1) ds
        (parse_numeric_prefix-base_prefix_str base ds low high)
        (magnitude-IsRead base (n + 1) low high le apart) in
    rw valid (read ∙ rw (add-one n) refl)
