-- ===== src/Number/Float.antt =====
-- src/parser.c: floats as literals of a source.
use prefix.Base.{ℕ, Option, none, some, [], ◌∷◌, ◌==◌, leb, if◌then◌else◌, Bytes}
use prefix.Number.Literal.{LiteralPrefix, parse_literal_prefix}
use prefix.Number.Text.{digit_value_for_base}

-- The arithmetic of the machine on doubles, each given by its 64 bits.
pub record Doubles : Type 0 where
  pub of_int : ℕ → ℕ
  pub plus : ℕ → ℕ → ℕ
  pub times : ℕ → ℕ → ℕ
  pub divide : ℕ → ℕ → ℕ
  pub negate : ℕ → ℕ
  pub infinity : ℕ
  pub nan : ℕ

-- What stands before the first `.` and what behind it; `none` where there is no `.`.
unfoldable pub split_dot : Bytes → Option (Bytes × Bytes)
split_dot [] = none
split_dot (c ∷ s) =
    if c == b'.'
    then some ([], s)
    else elim (split_dot s) [ none ↦ none | some (before, after) ↦ some (c ∷ before, after) ]

-- The value of a digit below the base.
abbrev digit_of : ℕ → ℕ → Option ℕ
digit_of base c = elim (digit_value_for_base base c) as (λ _. Option ℕ) [
  | none ↦ none
  | some dv ↦ if leb base dv then none else some dv
]

module _ (d : Doubles) where
  unfoldable pub int_part : ℕ → ℕ → Bytes → Option ℕ
  unfolding digit_value_for_base
  int_part base acc [] = some acc
  int_part base acc (c ∷ s) = elim (digit_of base c) as (λ _. Option ℕ) [
    | none ↦ none
    | some dv ↦ int_part base (d.plus (d.times acc (d.of_int base)) (d.of_int dv)) s
  ]

  unfoldable pub frac_part : ℕ → ℕ → ℕ → Bytes → Option ℕ
  unfolding digit_value_for_base
  frac_part base acc weight [] = some acc
  frac_part base acc weight (c ∷ s) = elim (digit_of base c) as (λ _. Option ℕ) [
    | none ↦ none
    | some dv ↦
        frac_part base (d.plus acc (d.times (d.of_int dv) weight)) (d.divide weight (d.of_int base))
          s
  ]

  abbrev float_value : LiteralPrefix → Bytes → Bytes → Option (ℕ × ℕ)
  float_value lp before after =
      let base = lp.base in
      elim (int_part base (d.of_int 0) before) as (λ _. Option (ℕ × ℕ)) [
        | none ↦ none
        | some i ↦
            elim (frac_part base (d.of_int 0) (d.divide (d.of_int 1) (d.of_int base)) after)
              as (λ _. Option (ℕ × ℕ)) [
                | none ↦ none
                | some f ↦ some (if lp.neg then d.negate (d.plus i f) else d.plus i f, base)
              ]
      ]

  abbrev both_parts : LiteralPrefix → Bytes → Bytes → Option (ℕ × ℕ)
  both_parts lp (b ∷ before) (a ∷ after) = float_value lp (b ∷ before) (a ∷ after)
  both_parts lp _ _ = none

  abbrev read_float : LiteralPrefix → Option (ℕ × ℕ)
  read_float lp =
      if lp.base == 0 then none else elim (split_dot lp.digits) as (λ _. Option (ℕ × ℕ)) [
        | none ↦ none
        | some (before, after) ↦ both_parts lp before after
      ]

  unfoldable pub parse_prefixed_float_literal : Bytes → Option (ℕ × ℕ)
  unfolding parse_literal_prefix split_dot int_part frac_part
  parse_prefixed_float_literal lit = read_float (parse_literal_prefix lit)
