-- ===== src/Number/Literal.antt =====
-- src/parser.c: integers as literals of a source.
use prefix.Base.{
  ℕ, ◌+◌, ◌-◌, ◌*◌, Bool, true, false, ◌&&◌, Option, none, some, [], ◌∷◌, ◌==◌, if◌then◌else◌,
  Bytes, contains, isdigit, not, drop, ◌≡◌, refl, sym, ◌∙◌, ap, Option-cases, inl, inr, subst,
  ==_iff, get_or, arith,
}
use prefix.Base.Int.{ℤ}
use prefix.Number.Text.{
  is_valid_numeric_base, parse_digits, signed, parse_numeric_prefix, parse_unsigned,
  parse_prefixed_int_string, letter_base, valid_prefix, numbered_prefix, lettered_prefix,
}

-- The rows of `k_table`.
abbrev table_base : ℕ → Option ℕ
table_base c =
    if c == b'b'
    then some 2
    else if c == b'o'
    then some 8
    else if c == b'd'
    then some 10
    else if c == b'x'
    then some 16
    else if c == b't'
    then some 32
    else if c == b'c'
    then some 58
    else if c == b's'
    then some 64
    else none

abbrev numbered_base : Bytes → Option (ℕ × ℕ)
numbered_base (a ∷ b ∷ _) =
    if isdigit a && isdigit b then some ((a - b'0') * 10 + (b - b'0'), 4) else none
numbered_base _ = none

-- The base and the length of the prefix; `none` is -1.
unfoldable pub base_from_literal_prefix : Bytes → Option (ℕ × ℕ)
base_from_literal_prefix (z ∷ p ∷ s) =
    if not (z == b'0') then none else elim (table_base p) as (λ _. Option (ℕ × ℕ)) [
      | some base ↦ some (base, 2)
      | none ↦ if p == b'r' then numbered_base s else none
    ]
base_from_literal_prefix _ = none

-- Base 0 is no base; `digits` is empty then.
pub record LiteralPrefix : Type 0 where
  pub base : ℕ
  pub digits : Bytes
  pub neg : Bool

-- A base that is out of range leaves the record as it was.
abbrev checked_prefix : Bool → ℕ → Bytes → LiteralPrefix
checked_prefix neg base digits =
    if is_valid_numeric_base base
    then record { base = base; digits = digits; neg = neg }
    else record { base = 0; digits = []; neg = neg }

abbrev found_prefix : Bool → Bytes → Option (ℕ × ℕ) → LiteralPrefix
found_prefix neg s (some (base, prefix_len)) = checked_prefix neg base (drop prefix_len s)
found_prefix neg s none =
    if isdigit (get_or s 0 0)
    then checked_prefix neg 10 s
    else record { base = 0; digits = []; neg = neg }

abbrev unsigned_prefix : Bool → Bytes → LiteralPrefix
unsigned_prefix neg s = found_prefix neg s (base_from_literal_prefix s)

unfoldable pub parse_literal_prefix : Bytes → LiteralPrefix
unfolding is_valid_numeric_base base_from_literal_prefix
parse_literal_prefix [] = unsigned_prefix false []
parse_literal_prefix (c ∷ s) =
    if c == b'-' then unsigned_prefix true s else unsigned_prefix false (c ∷ s)

-- The loop over the digits is, word for word, the one of `parse_prefixed_int_string`.
abbrev read_literal : LiteralPrefix → Option (ℤ × ℕ)
read_literal lp = if lp.base == 0 then none else elim lp.digits as (λ _. Option (ℤ × ℕ)) [
  | [] ↦ none
  | _ ∷ _ ↦
      if contains lp.digits b'.'
      then none
      else elim (parse_digits lp.base 0 lp.digits) as (λ _. Option (ℤ × ℕ)) [
        | none ↦ none
        | some acc ↦ some (signed lp.neg acc, lp.base)
      ]
]

unfoldable pub parse_prefixed_int_literal : Bytes → Option (ℤ × ℕ)
unfolding parse_literal_prefix parse_digits
parse_prefixed_int_literal lit = read_literal (parse_literal_prefix lit)

abbrev Agrees : Bool → LiteralPrefix → ℕ → Bytes → Type 0
Agrees neg lp base ds =
    (lp ≡ record { base = base; digits = ds; neg = neg }) × ((base == 0) ≡ false)

valid_prefix-Agrees :
    (neg : Bool) (n : ℕ) (digits : Bytes) (base : ℕ) (ds : Bytes)
    → valid_prefix n digits ≡ some (base, ds)
    → Agrees neg (checked_prefix neg n digits) base ds
unfolding is_valid_numeric_base
valid_prefix-Agrees neg n digits base ds h = by_test (is_valid_numeric_base n) refl h
  where
    found : Option (ℕ × Bytes)
    found = some (n, digits)

    by_test :
        (b : Bool)
        → is_valid_numeric_base n ≡ b
        → (if b then found else none) ≡ some (base, ds)
        → Agrees neg
            (if b
              then record { base = n; digits = digits; neg = neg }
              else record { base = 0; digits = []; neg = neg })
            base
            ds
    by_test true valid e =
        let same_base : n ≡ base = cc in
        let same_digits : digits ≡ ds = cc in
        (
          ap (λ k. record { base = k; digits = digits; neg = neg }) same_base
              ∙ ap (λ l. record { base = base; digits = l; neg = neg }) same_digits,
          rw (← same_base) (ground arith),
        )
    by_test false valid e = cc

numbered_prefix-Agrees :
    (neg : Bool) (z : ℕ) (s : Bytes) (base : ℕ) (ds : Bytes)
    → numbered_prefix s ≡ some (base, ds)
    → Agrees neg (found_prefix neg (z ∷ b'r' ∷ s) (numbered_base s)) base ds
numbered_prefix-Agrees neg z [] base ds h = cc
numbered_prefix-Agrees neg z (a ∷ []) base ds h = cc
numbered_prefix-Agrees neg z (a ∷ b ∷ s) base ds h = by_test (isdigit a && isdigit b) h
  where
    by_test :
        (t : Bool)
        → (if t then valid_prefix ((a - b'0') * 10 + (b - b'0')) s else none) ≡ some (base, ds)
        → Agrees neg
            (found_prefix neg
              (z ∷ b'r' ∷ a ∷ b ∷ s)
              (if t then some ((a - b'0') * 10 + (b - b'0'), 4) else none))
            base
            ds
    by_test true e = valid_prefix-Agrees neg _ s base ds e
    by_test false e = cc

lettered_prefix-Agrees :
    (neg : Bool) (z c : ℕ) (s : Bytes) (base : ℕ) (ds : Bytes) (o : Option ℕ)
    (other : Option (ℕ × ℕ))
    → lettered_prefix s o ≡ some (base, ds)
    → Agrees neg
        (found_prefix neg
          (z ∷ c ∷ s)
          (elim o as (λ _. Option (ℕ × ℕ)) [ some b ↦ some (b, 2) | none ↦ other ]))
        base
        ds
lettered_prefix-Agrees neg z c s base ds none other h = cc
lettered_prefix-Agrees neg z c s base ds (some b) other h = valid_prefix-Agrees neg b s base ds h

-- A prefix that the builtin functions read is the same one in a literal.
unsigned_prefix-Agrees :
    (neg : Bool) (s : Bytes) (base : ℕ) (ds : Bytes)
    → parse_numeric_prefix s ≡ some (base, ds)
    → Agrees neg (unsigned_prefix neg s) base ds
unfolding parse_numeric_prefix base_from_literal_prefix
unsigned_prefix-Agrees neg [] base ds h = cc
unsigned_prefix-Agrees neg (z ∷ []) base ds h = cc
unsigned_prefix-Agrees neg (z ∷ c ∷ s) base ds h = by_zero (z == b'0') h
  where
    two : Option (ℕ × ℕ)
    two = elim (table_base c) as (λ _. Option (ℕ × ℕ)) [
      | some base ↦ some (base, 2)
      | none ↦ if c == b'r' then numbered_base s else none
    ]

    by_r :
        (t : Bool)
        → (c == b'r') ≡ t
        → (if t then numbered_prefix s else lettered_prefix s (letter_base c)) ≡ some (base, ds)
        → Agrees neg (found_prefix neg (z ∷ c ∷ s) two) base ds
    by_r false other e = lettered_prefix-Agrees neg z c s base ds (table_base c) _ e
    by_r true at_r e =
        subst
          (λ k.
            Agrees neg
              (found_prefix neg (z ∷ k ∷ s) (elim (table_base k) as (λ _. Option (ℕ × ℕ)) [
                | some base ↦ some (base, 2)
                | none ↦ if k == b'r' then numbered_base s else none
              ]))
              base ds)
          (sym ((==_iff c b'r').0 at_r)) (numbered_prefix-Agrees neg z s base ds e)

    by_zero :
        (t : Bool)
        → (if not t
            then none
            else if c == b'r'
            then numbered_prefix s
            else lettered_prefix s (letter_base c))
          ≡ some (base, ds)
        → Agrees neg (found_prefix neg (z ∷ c ∷ s) (if not t then none else two)) base ds
    by_zero true e = by_r (c == b'r') refl e
    by_zero false e = cc

abbrev with_digits : Bool → ℕ → Bytes → Option (ℤ × ℕ)
with_digits neg base ds = elim ds as (λ _. Option (ℤ × ℕ)) [
  | [] ↦ none
  | _ ∷ _ ↦
      if contains ds b'.' then none else elim (parse_digits base 0 ds) as (λ _. Option (ℤ × ℕ)) [
        | none ↦ none
        | some acc ↦ some (signed neg acc, base)
      ]
]

unsigned_literal :
    (neg : Bool) (s : Bytes) (r : ℤ × ℕ)
    → parse_unsigned neg s ≡ some r
    → read_literal (unsigned_prefix neg s) ≡ some r
unfolding parse_unsigned
unsigned_literal neg s r h = elim (Option-cases (parse_numeric_prefix s)) [
  | inl e ↦ cc (rw (e, parse_unsigned) at h)
  | inr ((base, ds), e) ↦
      let (same, apart) = unsigned_prefix-Agrees neg s base ds e in
      ap read_literal same
      ∙ ap (λ b. if b then none else with_digits neg base ds) apart
      ∙ rw (e, parse_unsigned) at h
]

-- Whatever text the builtin functions read as an integer is a literal of this integer and base for
-- the parser.
pub parse_prefixed_int_literal-parse_prefixed_int_string :
    (s : Bytes) (r : ℤ × ℕ)
    → parse_prefixed_int_string s ≡ some r
    → parse_prefixed_int_literal s ≡ some r
unfolding parse_prefixed_int_string parse_prefixed_int_literal parse_literal_prefix
parse_prefixed_int_literal-parse_prefixed_int_string [] r h = cc
parse_prefixed_int_literal-parse_prefixed_int_string (c ∷ s) r h = by_sign (c == b'-') h
  where
    by_sign :
        (b : Bool)
        → (if b then parse_unsigned true s else parse_unsigned false (c ∷ s)) ≡ some r
        → read_literal (if b then unsigned_prefix true s else unsigned_prefix false (c ∷ s))
          ≡ some r
    by_sign true e = unsigned_literal true s r e
    by_sign false e = unsigned_literal false (c ∷ s) r e
