-- ===== src/Number/Text.antt =====
-- src/builtins.c, src/parser.c: integers as text with the prefix of a base.
use prefix.Base.{
  ℕ, zero, suc, ◌+◌, ◌-◌, ◌*◌, ◌/◌, ◌%◌, ◌^◌, Bool, true, false, ◌&&◌, Option, none, some, [], ◌∷◌,
  ◌++◌, ltb, leb, ◌==◌, if◌then◌else◌, get_or, Bytes, codes, contains, isdigit, not,
}
use prefix.Base.Int.{ℤ, pos, negsuc}

unfoldable pub k_digits64 : Bytes
k_digits64 = codes "0123456789ABCDEFGHIJKLMNOPQRSTUVWXYZabcdefghijklmnopqrstuvwxyz+_"

unfoldable pub k_digits58 : Bytes
k_digits58 = codes "123456789ABCDEFGHJKLMNPQRSTUVWXYZabcdefghijkmnopqrstuvwxyz"

-- The characters whose entries are not 0xFF, in the order of their values 0, 1, 2, ...
unfoldable pub k_digit64_tbl : Bytes
k_digit64_tbl = codes "0123456789ABCDEFGHIJKLMNOPQRSTUVWXYZabcdefghijklmnopqrstuvwxyz+_"

unfoldable pub k_digit58_tbl : Bytes
k_digit58_tbl = codes "123456789ABCDEFGHJKLMNPQRSTUVWXYZabcdefghijkmnopqrstuvwxyz"

unfoldable pub entry_at : Bytes → ℕ → ℕ → Option ℕ
entry_at [] i c = none
entry_at (x ∷ tbl) i c = let rest = entry_at tbl (i + 1) c in if x == c then some i else rest

unfoldable pub digit_value_for_base : ℕ → ℕ → Option ℕ
digit_value_for_base base c =
    if base == 58 then entry_at k_digit58_tbl 0 c else entry_at k_digit64_tbl 0 c

unfoldable pub is_valid_numeric_base : ℕ → Bool
is_valid_numeric_base base = leb 2 base && leb base 64

unfoldable pub base_prefix_str : ℕ → Bytes
base_prefix_str base =
    if base == 2
    then codes "0b"
    else if base == 8
    then codes "0o"
    else if base == 10
    then codes "0d"
    else if base == 16
    then codes "0x"
    else if base == 32
    then codes "0t"
    else if base == 58
    then codes "0c"
    else if base == 64
    then codes "0s"
    else b'0' ∷ b'r' ∷ (b'0' + base / 10) ∷ (b'0' + base % 10) ∷ []

unfoldable pub alphabet : ℕ → Bytes
alphabet base = if base == 58 then k_digits58 else k_digits64

-- `while (uval > 0 && dpos >= 0)`, where `n` characters of the buffer are left.
unfoldable pub digit_rounds : ℕ → Bytes → ℕ → ℕ → Bytes → Bytes
digit_rounds zero letters base uval digits = digits
digit_rounds (suc n) letters base uval digits =
    let more =
      digit_rounds n letters base (uval / base) (get_or letters (uval % base) 0 ∷ digits) in
    if ltb 0 uval then more else digits

-- `digits_buf` holds 160 bytes, with the terminating NUL.
unfoldable pub magnitude : ℕ → ℕ → Bytes
magnitude uval base = if uval == 0 then b'0' ∷ [] else digit_rounds 159 (alphabet base) base uval []

unfoldable pub int_to_base_prefixed_str : ℤ → ℕ → Bytes
int_to_base_prefixed_str val given =
    let base = if is_valid_numeric_base given then given else 2 in
    elim val as (λ _. Bytes) [
      | pos n ↦ base_prefix_str base ++ magnitude n base
      | negsuc n ↦ b'-' ∷ (base_prefix_str base ++ magnitude (n + 1) base)
    ]

-- The base of a letter other than `r`.
abbrev pub letter_base : ℕ → Option ℕ
letter_base c =
    if c == b'b'
    then some 2
    else if c == b'o'
    then some 8
    else if c == b'd'
    then some 10
    else if c == b'x'
    then some 16
    else if c == b't'
    then some 32
    else if c == b'c'
    then some 58
    else if c == b's'
    then some 64
    else none

abbrev pub valid_prefix : ℕ → Bytes → Option (ℕ × Bytes)
valid_prefix base digits = if is_valid_numeric_base base then some (base, digits) else none

-- The base and the digits behind the prefix.
abbrev pub numbered_prefix : Bytes → Option (ℕ × Bytes)
numbered_prefix (a ∷ b ∷ digits) =
    if isdigit a && isdigit b then valid_prefix ((a - b'0') * 10 + (b - b'0')) digits else none
numbered_prefix _ = none

abbrev pub lettered_prefix : Bytes → Option ℕ → Option (ℕ × Bytes)
lettered_prefix digits none = none
lettered_prefix digits (some base) = valid_prefix base digits

unfoldable pub parse_numeric_prefix : Bytes → Option (ℕ × Bytes)
unfolding is_valid_numeric_base
parse_numeric_prefix (z ∷ c ∷ s) =
    if not (z == b'0')
    then none
    else if c == b'r'
    then numbered_prefix s
    else lettered_prefix s (letter_base c)
parse_numeric_prefix _ = none

abbrev pub int64_max : ℕ
int64_max = 2 ^ 63 - 1

-- The loop of `parse_prefixed_int_string` over the digits.
unfoldable pub parse_digits : ℕ → ℕ → Bytes → Option ℕ
parse_digits base acc [] = some acc
parse_digits base acc (c ∷ s) = elim (digit_value_for_base base c) as (λ _. Option ℕ) [
  | none ↦ none
  | some dv ↦
      let rest = parse_digits base (acc * base + dv) s in
      if leb base dv then none else if ltb ((int64_max - dv) / base) acc then none else rest
]

-- `neg ? -acc : acc`
abbrev pub signed : Bool → ℕ → ℤ
signed false acc = pos acc
signed true zero = pos 0
signed true (suc n) = negsuc n

unfoldable pub parse_unsigned : Bool → Bytes → Option (ℤ × ℕ)
parse_unsigned neg s = elim (parse_numeric_prefix s) as (λ _. Option (ℤ × ℕ)) [
  | none ↦ none
  | some r ↦
      let (base, digits) = r in
      elim digits as (λ _. Option (ℤ × ℕ)) [
        | [] ↦ none
        | _ ∷ _ ↦
            if contains digits b'.'
            then none
            else elim (parse_digits base 0 digits) as (λ _. Option (ℤ × ℕ)) [
              | none ↦ none
              | some acc ↦ some (signed neg acc, base)
            ]
      ]
]

unfoldable pub parse_prefixed_int_string : Bytes → Option (ℤ × ℕ)
parse_prefixed_int_string [] = none
parse_prefixed_int_string (c ∷ s) =
    if c == b'-' then parse_unsigned true s else parse_unsigned false (c ∷ s)
