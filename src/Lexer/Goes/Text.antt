-- ===== src/Lexer/Goes/Text.antt =====
-- The scanner of string texts goes forward, keeps line and column with the position, and ends.
use prefix.Base.{
  Bool-cases, inl, inr, not, ◌&&◌, ◌||◌, ◌∙◌, ℕ, zero, suc, ◌+◌, ◌-◌, ◌*◌, ◌%◌, ◌^◌, ◌<◌, Bool,
  true, false, ◌≡◌, refl, arith, ◌==◌, Bytes, Option, none, some, if_both, ltb,
}
use prefix.Lexer.Chars.{hex_digit}
use prefix.Lexer.Escape.{escape_char, hex_digits, hex_pair, append_codepoint}
use prefix.Lexer.Goes.{
  Goes, Goes-stay, Goes-refl, Goes-trans, advance-Goes, advance_on, Given, Given-end, Given-begin,
  Given-trans,
}
use prefix.Lexer.State.{
  Lexer, source_len, is_at_end, peek, advance, fmt_buffer_append, flush_fmt_buffer, fmt_error,
}
use prefix.Lexer.Text.{
  Round, give, again, take_char, after_digits, raw_escape, other_escape, plain_escape, backslash,
  close_string, open_expression, text_round, scan_rounds, scan_fmt_string_text, string_token,
}
use prefix.Token.{Token}

append-Goes : {k : ℕ} {a b : Lexer} (c : ℕ) → Goes k a b → Goes k a (fmt_buffer_append b c)
unfolding fmt_buffer_append
append-Goes c g = Goes-stay _ g (refl, refl, refl, refl, refl, refl)

hex_digits-Goes : (n acc : ℕ) (lx : Lexer) → Goes 0 lx (hex_digits n acc lx).1
unfolding hex_digits
hex_digits-Goes zero acc lx = Goes-refl lx
hex_digits-Goes (suc n) acc lx = go (hex_digit (peek lx)) (λ d. hex_digits-Goes n _ (advance lx))
  where
    go :
        (o : Option ℕ)
        → ((d : ℕ) → Goes 0 (advance lx) (hex_digits n ((acc * 16 + d) % 2 ^ 32) (advance lx)).1)
        → Goes 0 lx
            (elim o as (λ _. Option ℕ × Lexer) [
              | none ↦ (none, advance lx)
              | some d ↦ hex_digits n ((acc * 16 + d) % 2 ^ 32) (advance lx)
            ]).1
    go none ih = Goes-trans 0 (Goes-refl lx) (advance-Goes lx) (omega arith)
    go (some d) ih = Goes-trans 0 (advance-Goes lx) (ih d) (omega arith)

hex_pair-Goes : (lx : Lexer) → Goes 0 lx (hex_pair lx).1
unfolding hex_pair
hex_pair-Goes lx = Goes-trans 0 (advance-Goes lx) (advance-Goes _) (omega arith)

append_codepoint-Goes : {a b : Lexer} (cp : ℕ) → Goes 1 a b → Goes 1 a (append_codepoint cp b)
unfolding append_codepoint
append_codepoint-Goes {a} cp g = if_both (Goes 1 a) _ (append-Goes _ g) (
    if_both (Goes 1 a) _ (append-Goes _ (append-Goes _ g)) (
      if_both (Goes 1 a) _ (append-Goes _ (append-Goes _ (append-Goes _ g)))
        (append-Goes _ (append-Goes _ (append-Goes _ (append-Goes _ g))))))

flush-Goes : {k : ℕ} {a b : Lexer} → Goes k a b → Goes k a (flush_fmt_buffer b).1
unfolding flush_fmt_buffer
flush-Goes g = Goes-stay _ g (refl, refl, refl, refl, refl, refl)

-- What ends the string, or opens an embedded expression at the brace passed over.
fmt_error-Given :
    {k : ℕ} {a b : Lexer} (msg : Bytes)
    → Goes k a b
    → a.in_fmt_string ≡ true
    → Given a (fmt_error b msg).1
unfolding fmt_error
fmt_error-Given msg g opened = Given-end _ g (refl, refl, refl, refl, refl, refl) opened refl

close_string-Given : (lx : Lexer) → lx.in_fmt_string ≡ true → Given lx (close_string lx).1
unfolding close_string
close_string-Given lx opened =
    Given-end _ (flush-Goes (advance-Goes lx)) (refl, refl, refl, refl, refl, refl) opened refl

open_expression-Given : (lx : Lexer) → lx.current < source_len lx → Given lx (open_expression lx).1
unfolding open_expression
open_expression-Given lx h =
    let g = flush-Goes (advance-Goes lx) in
    record {
      source = g.source;
      forward = omega arith;
      placed = g.placed;
      spent = rw (g.source, g.in_fmt_string) (ground (arith, g.forward));
    }

-- A round of the loop over a string's text.
data RoundGoes (lx : Lexer) : Round → Type 0 where
  given : {t : Token} {b : Lexer} → Given lx b → RoundGoes lx (give (t, b))
  goes : {raw : Bool} {b : Lexer} → Goes 1 lx b → RoundGoes lx (again raw b)

module _ (lx : Lexer) (opened : lx.in_fmt_string ≡ true) where
  raw_escape-RoundGoes : {b : Lexer} (next : ℕ) → Goes 1 lx b → RoundGoes lx (raw_escape next b)
  unfolding raw_escape
  raw_escape-RoundGoes next g = if_both (RoundGoes lx) (next == b'R') (goes (advance_on g)) (
      if_both (RoundGoes lx) (next == b'F')
        (goes (Goes-stay _ (advance_on g) (refl, refl, refl, refl, refl, refl)))
        (goes (append-Goes _ (advance_on (append-Goes _ g)))))

  after_digits-RoundGoes :
      (msg : Bytes) (r : Option ℕ × Lexer) → Goes 1 lx r.1 → RoundGoes lx (after_digits msg r)
  unfolding after_digits take_char
  after_digits-RoundGoes msg (none, b) g = given (fmt_error-Given msg g opened)
  after_digits-RoundGoes msg (some cp, b) g =
      if_both (RoundGoes lx) (cp == 2 ^ 32 - 1) (goes (append-Goes _ (advance_on g)))
        (goes (append_codepoint-Goes cp g))

  other_escape-RoundGoes : (b : Lexer) (next : ℕ) → Goes 1 lx b → RoundGoes lx (other_escape next b)
  unfolding other_escape
  other_escape-RoundGoes b next g =
      let hex = λ (r : Option ℕ × Lexer) (msg : Bytes) (h : Goes 0 (advance b) r.1).
        after_digits-RoundGoes msg r (Goes-trans 1 (advance_on g) h (omega arith)) in
      if_both (RoundGoes lx) (next == b'x') (hex (hex_pair (advance b)) _ (hex_pair-Goes _)) (
        if_both (RoundGoes lx) (next == b'u')
          (hex (hex_digits 4 0 (advance b)) _ (hex_digits-Goes 4 0 _))
          (if_both (RoundGoes lx) (next == b'U')
            (hex (hex_digits 8 0 (advance b)) _ (hex_digits-Goes 8 0 _))
            (given (fmt_error-Given _ g opened))))

  plain_escape-RoundGoes : (b : Lexer) (next : ℕ) → Goes 1 lx b → RoundGoes lx (plain_escape next b)
  unfolding plain_escape
  plain_escape-RoundGoes b next g = if_both (RoundGoes lx) (next == b'R') (goes (advance_on g)) (
      if_both (RoundGoes lx) (next == b'F')
        (goes (Goes-stay _ (advance_on g) (refl, refl, refl, refl, refl, refl)))
        (known (escape_char next)))
    where
      known :
          (o : Option ℕ)
          → RoundGoes lx (elim o as (λ _. Round) [
            | some c ↦ again false (fmt_buffer_append (advance b) c)
            | none ↦ other_escape next b
          ])
      known (some c) = goes (append-Goes c (advance_on g))
      known none = other_escape-RoundGoes b next g

  backslash-RoundGoes : (raw : Bool) → RoundGoes lx (backslash raw lx)
  unfolding backslash
  backslash-RoundGoes raw =
      let b = advance lx in
      if_both (RoundGoes lx) (is_at_end b) (given (fmt_error-Given _ (advance-Goes lx) opened)) (
        if_both (RoundGoes lx) raw (raw_escape-RoundGoes (peek b) (advance-Goes lx))
          (plain_escape-RoundGoes b (peek b) (advance-Goes lx)))

  text_round-RoundGoes :
      (c quote : ℕ) (raw : Bool)
      → lx.current < source_len lx
      → RoundGoes lx (text_round c quote raw lx)
  unfolding text_round take_char
  text_round-RoundGoes c quote raw inside =
      if_both (RoundGoes lx) (ltb 0x7F c) (given (fmt_error-Given _ (Goes-refl lx) opened)) (
        if_both (RoundGoes lx) (c == quote) (given (close_string-Given lx opened)) (
          if_both (RoundGoes lx) (c == b'\n' || c == b'\r')
            (given (fmt_error-Given _ (Goes-refl lx) opened))
            (if_both (RoundGoes lx) (c == b'\\') (backslash-RoundGoes raw) (
              if_both (RoundGoes lx) (c == b'{' && (lx.fmt_mode && (not raw && lx.fmt_depth == 0)))
                (given (open_expression-Given lx inside))
                (goes (append-Goes c (advance-Goes lx)))))))

scan_rounds-Given :
    (n quote : ℕ) (raw : Bool) (lx : Lexer)
    → lx.in_fmt_string ≡ true
    → Given lx (scan_rounds n quote raw lx).1
unfolding scan_rounds
scan_rounds-Given zero quote raw lx opened = fmt_error-Given _ (Goes-refl lx) opened
scan_rounds-Given (suc n) quote raw lx opened = elim (Bool-cases (is_at_end lx)) [
  | inl e ↦ rw e (fmt_error-Given _ (Goes-refl lx) opened)
  | inr e ↦ rw e (
      go (text_round (peek lx) quote raw lx)
        (text_round-RoundGoes lx opened (peek lx) quote raw (ground arith))
        (λ raw' b g. scan_rounds-Given n quote raw' b (g.in_fmt_string ∙ opened)))
]
  where
    go :
        (r : Round)
        → RoundGoes lx r
        → ((raw' : Bool) (b : Lexer) → Goes 1 lx b → Given b (scan_rounds n quote raw' b).1)
        → Given lx
            (elim r as (λ _. Token × Lexer) [
              | give result ↦ result
              | again raw' lx' ↦ scan_rounds n quote raw' lx'
            ]).1
    go (give _) (given g) later = g
    go (again raw' b) (goes g) later = Given-trans g (later raw' b g)

pub scan_fmt_string_text-Given :
    (quote : ℕ) (lx : Lexer) → lx.in_fmt_string ≡ true → Given lx (scan_fmt_string_text quote lx).1
unfolding scan_fmt_string_text
scan_fmt_string_text-Given quote lx opened = scan_rounds-Given _ quote false lx opened

pub string_token-Given :
    (quote : ℕ) (lx : Lexer) → lx.current < source_len lx → Given lx (string_token quote lx).1
unfolding string_token
string_token-Given quote lx inside =
    Given-begin (advance-Goes lx) inside (refl, refl, refl, refl, refl, refl) refl
      (scan_fmt_string_text-Given quote _ refl)
