-- ===== src/Lexer/Goes/Word.antt =====
-- Continuations, identifiers and numbers go forward, keeping line and column with the position.
use prefix.Base.{
  ℕ, zero, suc, ◌+◌, ◌-◌, ◌≤◌, ◌<◌, Bool, true, false, ◌≡◌, refl, arith, ◌==◌, none, some, if_both,
  not, ◌&&◌, ◌||◌, isdigit, length,
}
use prefix.Lexer.Buffer.{Buffer, fresh}
use prefix.Lexer.Chars.{is_identifier_body_char, is_number_body_char, is_base_prefix_char}
use prefix.Lexer.Goes.{Goes, Goes-refl, Goes-trans, advance-Goes, advance_on}
use prefix.Token.{Token}
use prefix.Lexer.State.{error_token, Lexer, source_len, is_at_end, peek, peek_next, advance}
use prefix.Lexer.Word.{
  skip_line, skip_to_newline, consume_line_continuation, continues, Word, word, bad_continuation,
  identifier_rounds, identifier_end, identifier_token, Digits, Number, number, number_rounds,
  number_fault, number_end, good_number, no_digits, number_body, prefixed_number, number_token,
}

abbrev TokenGoes : ℕ → Lexer → Token × Lexer → Type 0
TokenGoes k lx r = Goes k lx r.1

pub skip_line-Goes : (n : ℕ) (lx : Lexer) → Goes 0 lx (skip_line n lx)
unfolding skip_line
skip_line-Goes zero lx = Goes-refl lx
skip_line-Goes (suc n) lx =
    if_both (Goes 0 lx) (is_at_end lx || peek lx == b'\n') (Goes-refl lx)
      (Goes-trans 0 (advance-Goes lx) (skip_line-Goes n (advance lx)) (omega arith))

pub consume_line_continuation-Goes : (lx : Lexer) → Goes 1 lx (consume_line_continuation lx)
unfolding consume_line_continuation
consume_line_continuation-Goes lx =
    let on = advance lx in
    let g = advance-Goes lx in
    let rest = skip_to_newline on in
    let h = Goes-trans 1 g (skip_line-Goes (source_len on - on.current) on) (omega arith) in
    if_both (Goes 1 lx) (peek on == b'\n') (advance_on g) (
      if_both (Goes 1 lx) (peek on == b'\r')
        (if_both (Goes 1 lx) (peek (advance on) == b'\n') (advance_on (advance_on g))
          (advance_on g))
        (if_both (Goes 1 lx) (peek on == b'!')
          (if_both (Goes 1 lx) (is_at_end rest) h (advance_on h)) g))

data WordGoes (k : ℕ) (lx : Lexer) : Word → Type 0 where
  word_goes : {value : Buffer} {b : Lexer} → Goes k lx b → WordGoes k lx (word value b)
  bad_goes : {b : Lexer} → Goes k lx b → WordGoes k lx (bad_continuation b)

WordGoes-after :
    {i j k : ℕ} {a b : Lexer} {w : Word} → Goes j a b → WordGoes k b w → i ≤ j + k → WordGoes i a w
WordGoes-after g (word_goes h) le = word_goes (Goes-trans _ g h le)
WordGoes-after g (bad_goes h) le = bad_goes (Goes-trans _ g h le)

identifier_rounds-WordGoes :
    (n : ℕ) (value : Buffer) (lx : Lexer) → WordGoes 0 lx (identifier_rounds n value lx)
unfolding identifier_rounds
identifier_rounds-WordGoes zero value lx = word_goes (Goes-refl lx)
identifier_rounds-WordGoes (suc n) value lx =
    let stop = word_goes {value = value} (Goes-refl lx) in
    let next = Goes-trans 0 (advance-Goes lx) (Goes-refl _) (omega arith) in
    if_both (WordGoes 0 lx) (is_at_end lx) stop (
      if_both (WordGoes 0 lx) (is_identifier_body_char (peek lx))
        (WordGoes-after (advance-Goes lx) (identifier_rounds-WordGoes n _ _) (omega arith))
        (if_both (WordGoes 0 lx) (peek lx == b'^')
          (if_both (WordGoes 0 lx) (continues lx)
            (WordGoes-after (consume_line_continuation-Goes lx) (identifier_rounds-WordGoes n _ _)
              (omega arith))
            (bad_goes next))
          stop))

identifier_end-Goes :
    {k : ℕ} {lx : Lexer} (start : Lexer) (w : Word)
    → WordGoes k lx w
    → Goes k lx (identifier_end start w).1
unfolding identifier_end
identifier_end-Goes start (word _ _) (word_goes g) = g
identifier_end-Goes start (bad_continuation _) (bad_goes g) = g

-- A first character that belongs to an identifier is passed over.
pub identifier_token-Goes :
    (lx : Lexer)
    → lx.current < source_len lx
    → is_identifier_body_char (peek lx) ≡ true
    → Goes 1 lx (identifier_token lx).1
unfolding identifier_token
identifier_token-Goes lx inside body =
    identifier_end-Goes lx _ (first (source_len lx - lx.current) refl)
  where
    first : (n : ℕ) → source_len lx - lx.current ≡ n → WordGoes 1 lx (identifier_rounds n fresh lx)
    first zero e = absurd (omega arith)
    first (suc n) e =
        let going : is_at_end lx ≡ false = ground arith in
        rw (going, body)
          (WordGoes-after (advance-Goes lx) (identifier_rounds-WordGoes n _ _) (omega arith))

data NumberGoes (k : ℕ) (lx : Lexer) : Number → Type 0 where
  number_goes : {d : Digits} {b : Lexer} → Goes k lx b → NumberGoes k lx (number d b)
  bad_goes : {b : Lexer} → Goes k lx b → NumberGoes k lx (Number.bad_continuation b)

NumberGoes-after :
    {i j k : ℕ} {a b : Lexer} {w : Number}
    → Goes j a b
    → NumberGoes k b w
    → i ≤ j + k
    → NumberGoes i a w
NumberGoes-after g (number_goes h) le = number_goes (Goes-trans _ g h le)
NumberGoes-after g (NumberGoes.bad_goes h) le = NumberGoes.bad_goes (Goes-trans _ g h le)

number_rounds-NumberGoes :
    (n : ℕ) (d : Digits) (lx : Lexer) → NumberGoes 0 lx (number_rounds n d lx)
unfolding number_rounds
number_rounds-NumberGoes zero d lx = number_goes (Goes-refl lx)
number_rounds-NumberGoes (suc n) d lx =
    let stop = number_goes {d = d} (Goes-refl lx) in
    let next = Goes-trans 0 (advance-Goes lx) (Goes-refl _) (omega arith) in
    if_both (NumberGoes 0 lx) (is_at_end lx) stop (
      if_both (NumberGoes 0 lx) (peek lx == b'^')
        (if_both (NumberGoes 0 lx) (continues lx)
          (NumberGoes-after (consume_line_continuation-Goes lx) (number_rounds-NumberGoes n _ _)
            (omega arith))
          (NumberGoes.bad_goes next))
        (if_both (NumberGoes 0 lx) (peek lx == b'.' && not d.has_dot)
          (NumberGoes-after (advance-Goes lx) (number_rounds-NumberGoes n _ _) (omega arith))
          (if_both (NumberGoes 0 lx) (is_number_body_char (peek lx))
            (NumberGoes-after (advance-Goes lx) (number_rounds-NumberGoes n _ _) (omega arith))
            stop)))

number_end-Goes :
    {k : ℕ} {lx : Lexer} (start : Lexer) (prefixed : Bool) (from : ℕ) (w : Number)
    → NumberGoes k lx w
    → Goes k lx (number_end start prefixed from w).1
unfolding number_end
number_end-Goes start prefixed from (Number.bad_continuation _) (NumberGoes.bad_goes g) = g
number_end-Goes {k} {lx} start prefixed from (number d b) (number_goes g) =
    elim (number_fault prefixed from d)
      as (λ o.
        Goes k lx
          (elim o as (λ _. Token × Lexer) [
            | some msg ↦ (error_token b msg, b)
            | none ↦ (good_number start d, b)
          ]).1) [ some _ ↦ g | none ↦ g ]

number_body-Goes :
    {k : ℕ} {a : Lexer} (start : Lexer) (prefixed : Bool) (value : Buffer) (lx : Lexer)
    → Goes k a lx
    → Goes k a (number_body start prefixed value lx).1
unfolding number_body
number_body-Goes start prefixed value lx g = number_end-Goes start prefixed (length value.bytes) _ (
    NumberGoes-after g (number_rounds-NumberGoes (source_len lx - lx.current) (no_digits value) lx)
      (omega arith))

-- A first character that is a digit is passed over.
digit-body : (c : ℕ) → isdigit c ≡ true → is_number_body_char c ≡ true
unfolding is_number_body_char
digit-body c h = ground arith

number_body_digit :
    (start lx : Lexer) (value : Buffer)
    → lx.current < source_len lx
    → isdigit (peek lx) ≡ true
    → Goes 1 lx (number_body start false value lx).1
unfolding number_body
number_body_digit start lx value inside digit =
    number_end-Goes start false (length value.bytes) _ (first (source_len lx - lx.current) refl)
  where
    first :
        (n : ℕ)
        → source_len lx - lx.current ≡ n
        → NumberGoes 1 lx (number_rounds n (no_digits value) lx)
    first zero e = absurd (omega arith)
    first (suc n) e =
        let going : is_at_end lx ≡ false = ground arith in
        let no_caret : (peek lx == b'^') ≡ false = ground arith in
        let no_dot : (peek lx == b'.') ≡ false = ground arith in
        rw (going, no_caret, no_dot, digit-body _ digit)
          (NumberGoes-after (advance-Goes lx) (number_rounds-NumberGoes n _ _) (omega arith))

prefixed_number-Goes :
    (start lx : Lexer) (pref : ℕ) (two : Buffer)
    → Goes 1 lx (prefixed_number start pref two (advance (advance lx))).1
unfolding prefixed_number
prefixed_number-Goes start lx pref two =
    let after = advance (advance lx) in
    let g = advance_on (advance-Goes lx) in
    if_both (TokenGoes 1 lx) (not (pref == b'r')) (number_body-Goes start true _ after g) (
      if_both (TokenGoes 1 lx) (not (isdigit (peek after)) || not (isdigit (peek_next after))) g
        (number_body-Goes start true _ _ (advance_on (advance_on g))))

pub number_token-Goes : (negative : Bool) (lx : Lexer) → Goes 0 lx (number_token negative lx).1
unfolding number_token
number_token-Goes negative lx =
    let prefixed = peek lx == b'0' && is_base_prefix_char (peek_next lx) in
    if_both (TokenGoes 0 lx) (negative && not prefixed) (Goes-refl lx) (
      if_both (TokenGoes 0 lx) (not prefixed) (number_body-Goes lx false _ lx (Goes-refl lx))
        (Goes-trans 0 (prefixed_number-Goes lx lx _ _) (Goes-refl _) (omega arith)))

pub number_token_digit :
    (lx : Lexer)
    → lx.current < source_len lx
    → isdigit (peek lx) ≡ true
    → Goes 1 lx (number_token false lx).1
unfolding number_token
number_token_digit lx inside digit =
    if_both (TokenGoes 1 lx) (not (peek lx == b'0' && is_base_prefix_char (peek_next lx)))
      (number_body_digit lx lx fresh inside digit) (prefixed_number-Goes lx lx _ _)
