-- ===== src/Lexer/Goes/Token.antt =====
-- Every call of `lexer_next_token` leaves less to do, or is at the end and returns the EOF token.
use prefix.Base.{
  ℕ, zero, suc, ◌+◌, ◌-◌, ◌≤◌, ◌<◌, Bool, true, false, ◌≡◌, refl, arith, ◌==◌, Option, none, some,
  if◌then◌else◌, if_both, if_cases, ltb, not, ◌&&◌, ◌||◌, isdigit, length, ap, ◌∙◌, codes, ◌⊎◌, inl,
  inr, Bool-cases, [], ◌∷◌,
}
use prefix.Lexer.Chars.{is_base_prefix_char, is_identifier_body_char, is_identifier_start_char}
use prefix.Lexer.Goes.{
  IsPlaced, Goes, Goes-refl, Goes-stay, Goes-trans, advance-Goes, Given, Given-of_Goes, Given-stay,
  Given-trans, energy,
}
use prefix.Lexer.Goes.Text.{scan_fmt_string_text-Given, string_token-Given}
use prefix.Lexer.Goes.Word.{
  skip_line-Goes, consume_line_continuation-Goes, identifier_token-Goes, number_token-Goes,
  number_token_digit,
}
use prefix.Lexer.Next.{
  skip_blanks, advance_by, dash_token, matches_reserved_signed_special, symbol, open_brace,
  close_brace, quote_token, word_token, char_token, Round, give, skip, token_round, eof_token,
  token_rounds, lexer_next_token,
}
use prefix.Lexer.State.{Lexer, source_len, byte_at, is_at_end, peek, peek_next, advance, make_token}
use prefix.Lexer.Word.{skip_line, skip_to_newline, continues}
use prefix.Token.{token_eof, Token, TokenType}

abbrev TokenGoes : Lexer → Token × Lexer → Type 0
TokenGoes lx r = Goes 1 lx r.1

abbrev TokenGiven : Lexer → Token × Lexer → Type 0
TokenGiven lx r = Given lx r.1

-- Every number under `k` passes the test: a table of the bytes that the lexer lets through.
passes_up_to : (ℕ → Bool) → ℕ → Bool
passes_up_to test zero = true
passes_up_to test (suc k) = if test k then passes_up_to test k else false

passes_up_to-lt : (test : ℕ → Bool) (c k : ℕ) → c < k → passes_up_to test k ≡ true → test c ≡ true
unfolding passes_up_to
passes_up_to-lt test c zero below all = elim below [ ]
passes_up_to-lt test c (suc k) below all =
    grind (arith, λ (less : c < k). passes_up_to-lt test c k less)

start_body_table :
    passes_up_to (λ c. not (is_identifier_start_char c) || is_identifier_body_char c) 128 ≡ true
unfolding passes_up_to is_identifier_start_char is_identifier_body_char
start_body_table = refl

start-body :
    (c : ℕ)
    → ltb 0x7F c ≡ false
    → is_identifier_start_char c ≡ true
    → is_identifier_body_char c ≡ true
start-body c ascii start =
    let checked = passes_up_to-lt _ c 128 (ground arith) start_body_table in ground (arith, checked)

dash-body : (c : ℕ) → (c == b'-') ≡ true → is_identifier_body_char c ≡ true
unfolding is_identifier_body_char
dash-body c h = rw (let e : c ≡ b'-' = ground arith in e)

advance_by-Goes : (n : ℕ) (lx : Lexer) → Goes 0 lx (advance_by n lx)
unfolding advance_by
advance_by-Goes zero lx = Goes-refl lx
advance_by-Goes (suc n) lx = Goes-trans 0 (advance-Goes lx) (advance_by-Goes n _) (omega arith)

module _ (lx : Lexer) (inside : lx.current < source_len lx) where
  dash_token-Goes : (peek lx == b'-') ≡ true → Goes 1 lx (dash_token lx).1
  unfolding dash_token
  dash_token-Goes h =
      let lookahead = skip_blanks (source_len lx - (lx.current + 1)) lx (lx.current + 1) in
      let dash = advance lx in
      if_both (TokenGoes lx)
        (ltb (lookahead + 1) (source_len lx)
          && (byte_at lx lookahead == b'0' && is_base_prefix_char (byte_at lx (lookahead + 1))))
        (Goes-trans 1
          (Goes-trans 1 (advance-Goes lx) (advance_by-Goes (lookahead - dash.current) dash)
            (omega arith))
          (number_token-Goes true _) (omega arith))
        (if_both (TokenGoes lx)
          (isdigit (peek_next lx)
            || (matches_reserved_signed_special lx lookahead (codes "INF")
                || matches_reserved_signed_special lx lookahead (codes "NaN")))
          (advance-Goes lx) (identifier_token-Goes lx inside (dash-body _ h)))

  word_token-Goes : ltb 0x7F (peek lx) ≡ false → Goes 1 lx (word_token (peek lx) lx).1
  unfolding word_token
  word_token-Goes ascii = elim (Bool-cases (peek lx == b'-')) [
    | inl dash ↦ rw dash (dash_token-Goes dash)
    | inr no_dash ↦ rw no_dash (elim (Bool-cases (isdigit (peek lx))) [
      | inl digit ↦ rw digit (number_token_digit lx inside digit)
      | inr no_digit ↦ rw no_digit (elim (Bool-cases (is_identifier_start_char (peek lx))) [
        | inl start ↦ rw start (identifier_token-Goes lx inside (start-body _ ascii start))
        | inr other ↦ rw other (advance-Goes lx)
      ])
    ])
  ]

  open_brace-Goes : Goes 1 lx (open_brace lx).1
  unfolding open_brace
  open_brace-Goes =
      if_both (Goes 1 lx) (lx.in_fmt_string && ltb 0 lx.fmt_depth)
        (Goes-stay _ (advance-Goes lx) (refl, refl, refl, refl, refl, refl)) (advance-Goes lx)

  close_brace-Goes : Goes 1 lx (close_brace lx).1
  unfolding close_brace
  close_brace-Goes =
      let stays = λ (b : Lexer). Goes-stay b (advance-Goes lx) in
      if_both (TokenGoes lx) (lx.in_fmt_string && lx.fmt_depth == 1)
        (Goes-stay _ (advance-Goes lx) (refl, refl, refl, refl, refl, refl))
        (if_both (TokenGoes lx) (lx.in_fmt_string && ltb 1 lx.fmt_depth)
          (Goes-stay _ (advance-Goes lx) (refl, refl, refl, refl, refl, refl)) (advance-Goes lx))

  quote_token-Given : (c : ℕ) → Given lx (quote_token c lx).1
  unfolding quote_token
  quote_token-Given c =
      let g = string_token-Given c lx inside in
      if_both (TokenGiven lx) (lx.in_fmt_string && ltb 0 lx.fmt_depth)
        (Given-stay _ g (refl, refl, refl, refl, refl, refl)) g

  symbol_or_word :
      (o : Option TokenType)
      → ltb 0x7F (peek lx) ≡ false
      → Goes 1 lx
          (elim o as (λ _. Token × Lexer) [
            | some type ↦ (make_token (advance lx) type (some (peek lx ∷ [])), advance lx)
            | none ↦ word_token (peek lx) lx
          ]).1
  symbol_or_word (some type) ascii = advance-Goes lx
  symbol_or_word none ascii = word_token-Goes ascii

  char_token-Given : ltb 0x7F (peek lx) ≡ false → Given lx (char_token (peek lx) lx).1
  unfolding char_token
  char_token-Given ascii =
      let c = peek lx in
      let one = Given-of_Goes (advance-Goes lx) inside in
      if_both (TokenGiven lx) (c == b'\n') one (
        if_both (TokenGiven lx) (c == b';') one (
          if_both (TokenGiven lx) (c == b'{') (Given-of_Goes open_brace-Goes inside) (
            if_both (TokenGiven lx) (c == b'}') (Given-of_Goes close_brace-Goes inside) (
              if_both (TokenGiven lx) (c == b'"' || c == b'\'') (quote_token-Given c)
                (Given-of_Goes (symbol_or_word (symbol c) ascii) inside)))))

  skip_to_newline-Goes : (peek lx == b'\n') ≡ false → Goes 1 lx (skip_to_newline lx)
  skip_to_newline-Goes h = first (source_len lx - lx.current) refl
    where
      first : (n : ℕ) → source_len lx - lx.current ≡ n → Goes 1 lx (skip_line n lx)
      first zero e = absurd (omega arith)
      first (suc n) e =
          let going : is_at_end lx ≡ false = ground arith in
          unfold skip_line in
          rw (going, h) (Goes-trans 1 (advance-Goes lx) (skip_line-Goes n _) (omega arith))

-- What separates tokens is passed over.
data RoundGoes (lx : Lexer) : Round → Type 0 where
  given : {t : Token} {b : Lexer} → Given lx b → RoundGoes lx (give (t, b))
  goes : {b : Lexer} → Goes 1 lx b → RoundGoes lx (skip b)

Given-pair : {lx : Lexer} {r : Token × Lexer} → Given lx r.1 → RoundGoes lx (give r)
Given-pair g = given g

token_round-RoundGoes :
    (lx : Lexer) → lx.current < source_len lx → RoundGoes lx (token_round (peek lx) lx)
unfolding token_round
token_round-RoundGoes lx inside =
    let c = peek lx in
    let one = Given-of_Goes (advance-Goes lx) inside in
    elim (Bool-cases (ltb 0x7F c)) [
      | inl high ↦ rw high (given one)
      | inr ascii ↦ rw ascii (
          if_both (RoundGoes lx) (c == b' ' || c == b'\t' || c == b'\r') (goes (advance-Goes lx)) (
            if_both (RoundGoes lx) (c == b'^')
              (if_both (RoundGoes lx) (continues lx) (goes (consume_line_continuation-Goes lx))
                (given one))
              (elim (Bool-cases (c == b'!')) [
                | inl comment ↦ rw comment (goes (skip_to_newline-Goes lx inside (ground arith)))
                | inr other ↦ rw other (Given-pair (char_token-Given lx inside ascii))
              ])))
    ]

-- The lexer is at the end of the source, and says so.
pub record Ends (lx : Lexer) (r : Token × Lexer) : Type 0 where
  pub source : r.1.source ≡ lx.source
  pub forward : lx.current ≤ r.1.current
  pub placed : IsPlaced lx → IsPlaced r.1
  pub at_end : source_len r.1 ≤ r.1.current
  pub eof : r.0 ≡ eof_token r.1

Ends-after : {k : ℕ} {a b : Lexer} {r : Token × Lexer} → Goes k a b → Ends b r → Ends a r
Ends-after g e = record {
  source = e.source ∙ g.source;
  forward = omega (arith, g.forward, e.forward);
  placed = λ p. e.placed (g.placed p);
  at_end = e.at_end;
  eof = e.eof;
}

Ends-here : (lx : Lexer) → source_len lx ≤ lx.current → Ends lx (eof_token lx, lx)
Ends-here lx h = record {
  source = refl;
  forward = omega arith;
  placed = λ p. p;
  at_end = h;
  eof = refl;
}

token_rounds-Given :
    (n : ℕ) (lx : Lexer)
    → source_len lx - lx.current ≤ n
    → Given lx (token_rounds n lx).1 ⊎ Ends lx (token_rounds n lx)
unfolding token_rounds
token_rounds-Given zero lx h = inr (Ends-here lx (omega arith))
token_rounds-Given (suc n) lx h = elim (Bool-cases (is_at_end lx)) [
  | inl e ↦ rw e (inr (Ends-here lx (ground arith)))
  | inr e ↦ rw e (
      go (token_round (peek lx) lx) (token_round-RoundGoes lx (ground arith))
        (λ b g. token_rounds-Given n b (rw g.source (omega (arith, g.forward)))))
]
  where
    go :
        (r : Round)
        → RoundGoes lx r
        → ((b : Lexer) → Goes 1 lx b → Given b (token_rounds n b).1 ⊎ Ends b (token_rounds n b))
        → Given lx
            (elim r as (λ _. Token × Lexer) [ give result ↦ result | skip b ↦ token_rounds n b ]).1
          ⊎ Ends lx
              (elim r as (λ _. Token × Lexer) [ give result ↦ result | skip b ↦ token_rounds n b ])
    go (give _) (given g) later = inl g
    go (skip b) (goes g) later = elim (later b g) [
      | inl more ↦ inl (Given-trans g more)
      | inr end ↦ inr (Ends-after g end)
    ]

abbrev pub Progresses : Lexer → Token × Lexer → Type 0
Progresses lx r = Given lx r.1 ⊎ Ends lx r

pending-Given :
    (lx : Lexer) (t : Token)
    → lx.has_pending ≡ true
    → Given lx (record lx { has_pending = false; pending_token = t })
pending-Given lx t pending = record {
  source = refl;
  forward = omega arith;
  placed = λ p. p;
  spent = ground arith;
}

-- A call leaves less to do, or the lexer is at the end and returns the EOF token.
pub lexer_next_token-Given :
    (lx : Lexer) → Given lx (lexer_next_token lx).1 ⊎ Ends lx (lexer_next_token lx)
unfolding lexer_next_token
lexer_next_token-Given lx =
    if_cases (Progresses lx) lx.has_pending (λ pending. inl (pending-Given lx _ pending))
      (λ _.
        if_cases (Progresses lx) (lx.in_fmt_string && lx.fmt_depth == 0)
          (λ text. inl (scan_fmt_string_text-Given lx.fmt_quote lx (ground arith)))
          (λ _. token_rounds-Given _ lx (omega arith)))

-- The state after `n` tokens.
abbrev pub after_tokens : ℕ → Lexer → Lexer
after_tokens zero lx = lx
after_tokens (suc n) lx = after_tokens n (lexer_next_token lx).1

-- The token at the end of the source, with nothing behind it.
abbrev pub AtEnd : Lexer → Type 0
AtEnd lx =
    ((lexer_next_token lx).0.type ≡ token_eof) × (source_len lx ≤ (lexer_next_token lx).1.current)

pub eof_within :
    (k : ℕ) (lx : Lexer) → energy lx < k → (n : ℕ) × (n < k) × AtEnd (after_tokens n lx)
unfolding eof_token
eof_within zero lx h = absurd (omega arith)
eof_within (suc k) lx h = split (lexer_next_token-Given lx) (eof_within k (lexer_next_token lx).1)
  where
    split :
        Progresses lx (lexer_next_token lx)
        → (energy (lexer_next_token lx).1 < k
            → (n : ℕ) × (n < k) × AtEnd (after_tokens n (lexer_next_token lx).1))
        → (n : ℕ) × (n < suc k) × AtEnd (after_tokens n lx)
    split (inl g) later = let (n, le, e) = later (omega (arith, g.spent)) in (suc n, omega arith, e)
    split (inr e) later =
        (0, omega arith, (ap (λ t. t.type) e.eof, omega (arith, ap length e.source, e.at_end)))
