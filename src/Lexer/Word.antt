-- ===== src/Lexer/Word.antt =====
-- src/lexer.c: line continuations, `identifier_token` and `number_token`.
use prefix.Base.{
  ℕ, zero, suc, ◌+◌, ◌-◌, Bool, true, false, not, ◌&&◌, ◌||◌, Option, none, some, [], ◌∷◌, ltb,
  ◌==◌, if◌then◌else◌, Bytes, codes, isdigit, drop,
}
use prefix.Base.Int.{ℤ}
use prefix.Lexer.Buffer.{Buffer, reserve, put, append, fresh}
use prefix.Lexer.Chars.{
  check_keyword, is_base_prefix_char, is_number_body_char, is_identifier_body_char,
}
use prefix.Lexer.State.{
  Lexer, source_len, byte_at, is_at_end, peek, peek_next, advance, error_token,
}
use prefix.Token.{token_number, token_float, literal_heap, Token}
use prefix.Base.{length}

-- `while (!is_at_end(lexer) && peek(lexer) != '\n') advance(lexer);`
unfoldable pub skip_line : ℕ → Lexer → Lexer
skip_line zero lx = lx
skip_line (suc n) lx = if is_at_end lx || peek lx == b'\n' then lx else skip_line n (advance lx)

abbrev pub skip_to_newline : Lexer → Lexer
skip_to_newline lx = skip_line (source_len lx - lx.current) lx

unfoldable pub consume_line_continuation : Lexer → Lexer
consume_line_continuation lx =
    let on = advance lx in
    let next = peek on in
    if next == b'\n'
    then advance on
    else if next == b'\r'
    then (let cr = advance on in if peek cr == b'\n' then advance cr else cr)
    else if next == b'!'
    then (let rest = skip_to_newline on in if is_at_end rest then rest else advance rest)
    else on

-- The test before a continuation: a newline or a comment follows the `^`.
unfoldable pub continues : Lexer → Bool
continues lx =
    ltb (lx.current + 1) (source_len lx)
    && (let next = byte_at lx (lx.current + 1) in next == b'\n' || next == b'\r' || next == b'!')

-- Past the end of a word there is its text, or the error.
pub data Word : Type 0 where
  word : Buffer → Lexer → Word
  bad_continuation : Lexer → Word

unfoldable pub identifier_rounds : ℕ → Buffer → Lexer → Word
identifier_rounds zero value lx = word value lx
identifier_rounds (suc n) value lx =
    let more = identifier_rounds n (append (peek lx) value) (advance lx) in
    let joined = identifier_rounds n value (consume_line_continuation lx) in
    if is_at_end lx
    then word value lx
    else if is_identifier_body_char (peek lx)
    then more
    else if peek lx == b'^'
    then (if continues lx then joined else bad_continuation (advance lx))
    else word value lx

unfoldable pub identifier_end : Lexer → Word → Token × Lexer
identifier_end start (bad_continuation lx) =
    (error_token lx (codes "Invalid line continuation"), lx)
identifier_end start (word value lx) = (
  record {
    type = check_keyword value.bytes;
    literal = some value.bytes;
    literal_kind = literal_heap;
    line = start.line;
    column = ℤ.pos start.column;
  },
  lx,
)

unfoldable pub identifier_token : Lexer → Token × Lexer
unfolding identifier_rounds identifier_end
identifier_token lx = identifier_end lx (identifier_rounds (source_len lx - lx.current) fresh lx)

-- The variables of `number_token`'s loop.
pub record Digits : Type 0 where
  pub value : Buffer
  pub has_any : Bool
  pub has_dot : Bool
  pub has_frac : Bool

abbrev pub no_digits : Buffer → Digits
no_digits value = record { value = value; has_any = false; has_dot = false; has_frac = false }

pub data Number : Type 0 where
  number : Digits → Lexer → Number
  bad_continuation : Lexer → Number

unfoldable pub number_rounds : ℕ → Digits → Lexer → Number
unfolding append
number_rounds zero d lx = number d lx
number_rounds (suc n) d lx =
    let joined = number_rounds n d (consume_line_continuation lx) in
    let dotted =
      number_rounds n (record d { value = append (peek lx) d.value; has_dot = true })
        (advance lx) in
    let more =
      number_rounds n
        (record d {
          value = append (peek lx) d.value;
          has_any = true;
          has_frac = d.has_frac || d.has_dot;
        })
        (advance lx) in
    if is_at_end lx
    then number d lx
    else if peek lx == b'^'
    then (if continues lx then joined else Number.bad_continuation (advance lx))
    else if peek lx == b'.' && not d.has_dot
    then dotted
    else if is_number_body_char (peek lx)
    then more
    else number d lx

-- A `0` with a base prefix behind it among the digits of a literal that has none.
unfoldable pub has_inner_prefix : Bytes → Bool
has_inner_prefix [] = false
has_inner_prefix (c ∷ []) = false
has_inner_prefix (c ∷ (p ∷ rest)) =
    (c == b'0' && is_base_prefix_char p) || has_inner_prefix (p ∷ rest)

unfoldable pub all_decimal : Bytes → Bool
all_decimal [] = true
all_decimal (c ∷ rest) = (c == b'.' || isdigit c) && all_decimal rest

-- The checks behind the loop, in their order: `none` where the literal is good.
unfoldable pub number_fault : Bool → ℕ → Digits → Option Bytes
unfolding has_inner_prefix all_decimal
number_fault prefixed digits_start d =
    if not d.has_any
    then some (codes "Numeric literal requires digits after base prefix")
    else if d.has_dot && not d.has_frac
    then some (codes "Float literal requires fractional digits")
    else if not prefixed && has_inner_prefix (drop digits_start d.value.bytes)
    then some (codes "Numeric literal beginning with a digit must not include a base prefix")
    else if not prefixed && not (all_decimal (drop digits_start d.value.bytes))
    then some (codes "Invalid digit in decimal literal")
    else none

unfoldable pub good_number : Lexer → Digits → Token
good_number start d = record {
  type = if d.has_dot then token_float else token_number;
  literal = some d.value.bytes;
  literal_kind = literal_heap;
  line = start.line;
  column = ℤ.pos start.column;
}

unfoldable pub number_end : Lexer → Bool → ℕ → Number → Token × Lexer
number_end start prefixed digits_start (Number.bad_continuation lx) =
    (error_token lx (codes "Invalid line continuation"), lx)
number_end start prefixed digits_start (number d lx) =
    elim (number_fault prefixed digits_start d) as (λ _. Token × Lexer) [
      | some msg ↦ (error_token lx msg, lx)
      | none ↦ (good_number start d, lx)
    ]

unfoldable pub number_body : Lexer → Bool → Buffer → Lexer → Token × Lexer
unfolding number_rounds number_end
number_body start prefixed value lx =
    number_end start prefixed (length value.bytes)
      (number_rounds (source_len lx - lx.current) (no_digits value) lx)

-- Behind a base prefix; the base of `0r` has two decimal digits.
unfoldable pub prefixed_number : Lexer → ℕ → Buffer → Lexer → Token × Lexer
unfolding reserve put
prefixed_number start pref two after =
    if not (pref == b'r')
    then number_body start true two after
    else if not (isdigit (peek after)) || not (isdigit (peek_next after))
    then (error_token after (codes "0r literals require two decimal base digits"), after)
    else number_body start true (put (peek (advance after)) (put (peek after) (reserve 2 two)))
        (advance (advance after))

unfoldable pub number_token : Bool → Lexer → Token × Lexer
unfolding number_body prefixed_number put append
number_token is_negative_start lx =
    let sign = if is_negative_start then put b'-' fresh else fresh in
    let prefixed = peek lx == b'0' && is_base_prefix_char (peek_next lx) in
    let zero_read = advance lx in
    let pref = peek zero_read in
    if is_negative_start && not prefixed
    then (error_token lx (codes "Invalid numeric literal; expected base prefix"), lx)
    else if not prefixed
    then number_body lx false sign lx
    else prefixed_number lx pref (append pref (append b'0' sign)) (advance zero_read)
