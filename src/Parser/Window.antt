-- ===== src/Parser/Window.antt =====
-- src/parser.c: the parser's tokens against the tokens of the source.
use prefix.Base.{
  ℕ, zero, suc, ◌+◌, ◌*◌, ◌≤◌, ◌<◌, Bool, true, false, ◌||◌, ◌≡◌, refl, sym, ◌∙◌, ap, arith,
  if_both, if_cases, Bytes, length, Bool-cases, inl, inr, ◌==◌, ==_iff, ◌-◌, ltb, ltb→lt, ltb-false,
}
use prefix.Lexer.Goes.{energy}
use prefix.Lexer.Goes.Token.{after_tokens, eof_within}
use prefix.Lexer.Next.{lexer_next_token}
use prefix.Lexer.State.{Lexer, source_len, lexer_init}
use prefix.Lexer.Stream.{after_tokens-lexer_init}
use prefix.Parser.Cursor.{
  Parser, report_error, parser_init, shift_tokens, is_error, is_newline, shift_error, error_rounds,
  token_bound, advance, newline_rounds, skip_newlines,
}
use prefix.Token.{Token, TokenType, token_eof}

-- The tokens of a source in order; behind the last there is EOF, again and again.
abbrev pub token_at : Bytes → ℕ → Token
token_at source n = (lexer_next_token (after_tokens n (lexer_init source))).0

-- The parser stands at a token, with the two behind it read in advance.
abbrev pub IsWindow : Bytes → ℕ → Parser → Type 0
IsWindow source n p =
    (p.current_token ≡ token_at source n)
    × (p.next_token ≡ token_at source (n + 1))
    × (p.lookahead2_token ≡ token_at source (n + 2))
    × (p.lexer ≡ after_tokens (n + 3) (lexer_init source))

tokens_same : (lx : Lexer) (a b : ℕ) → a ≡ b → after_tokens a lx ≡ after_tokens b lx
tokens_same lx a b e = ap (λ k. after_tokens k lx) e

token_same : (source : Bytes) (a b : ℕ) → a ≡ b → token_at source a ≡ token_at source b
token_same source a b e = ap (token_at source) e

after_tokens-suc :
    (n : ℕ) (lx : Lexer) → after_tokens (n + 1) lx ≡ (lexer_next_token (after_tokens n lx)).1
after_tokens-suc zero lx = refl
after_tokens-suc (suc n) lx =
    tokens_same lx (suc n + 1) (suc (n + 1)) (omega arith)
    ∙ after_tokens-suc n (lexer_next_token lx).1

after_tokens-add :
    (n k : ℕ) (lx : Lexer) → after_tokens k (after_tokens n lx) ≡ after_tokens (n + k) lx
after_tokens-add zero k lx = tokens_same lx k (0 + k) (omega arith)
after_tokens-add (suc n) k lx =
    after_tokens-add n k (lexer_next_token lx).1
    ∙ tokens_same lx (suc (n + k)) (suc n + k) (omega arith)

pub shift_tokens-IsWindow :
    (source : Bytes) (n : ℕ) (p : Parser)
    → IsWindow source n p
    → IsWindow source (n + 1) (shift_tokens p)
unfolding shift_tokens
shift_tokens-IsWindow source n p (c, x, l, lx) = (
  x,
  l ∙ token_same source (n + 2) (n + 1 + 1) (omega arith),
  ap (λ s. (lexer_next_token s).0) lx ∙ token_same source (n + 3) (n + 1 + 2) (omega arith),
  ap (λ s. (lexer_next_token s).1) lx
      ∙ sym (after_tokens-suc (n + 3) (lexer_init source))
      ∙ tokens_same (lexer_init source) (n + 3 + 1) (n + 1 + 3) (omega arith),
)

pub parser_init-IsWindow :
    (source : Bytes) (previous : Token)
    → IsWindow source 0 (parser_init previous (lexer_init source))
unfolding parser_init
parser_init-IsWindow source previous = (refl, refl, refl, refl)

abbrev bound : Bytes → ℕ
bound source = 3 * source_len (lexer_init source) + 3

energy-lt : (lx : Lexer) → energy lx < 3 * source_len lx + 3
energy-lt lx = ground arith

-- From any token of a source an EOF token is not far.
pub eof_near :
    (source : Bytes) (n : ℕ)
    → (m : ℕ) × (m < bound source) × ((token_at source (n + m)).type ≡ token_eof)
eof_near source n =
    let lx = after_tokens n (lexer_init source) in
    let same : source_len lx ≡ source_len (lexer_init source) =
      ap length (after_tokens-lexer_init source n).0 in
    let (m, le, e) = eof_within (bound source) lx (omega (arith, energy-lt lx, same)) in
    (
      m,
      le,
      ap (λ s. (lexer_next_token s).0.type) (sym (after_tokens-add n m (lexer_init source))) ∙ e.0,
    )

-- The first token from `n` that is no error, with errors only before it.
pub record Moved (source : Bytes) (n : ℕ) (p : Parser) : Type 0 where
  pub to : ℕ
  pub forward : n ≤ to
  pub window : IsWindow source to p
  pub sound : is_error (token_at source to).type ≡ false
  pub errors : (j : ℕ) → n ≤ j → j < to → is_error (token_at source j).type ≡ true

shift_error-IsWindow :
    (source : Bytes) (n : ℕ) (p : Parser)
    → IsWindow source n p
    → IsWindow source (n + 1) (shift_error p)
unfolding report_error
shift_error-IsWindow source n p w =
    shift_tokens-IsWindow source n _
      (if_both (λ q. IsWindow source n (record q { panic_mode = false })) p.panic_mode w w)

eof_no_error : (t : TokenType) → t ≡ token_eof → is_error t ≡ false
eof_no_error t e = ap is_error e

eof_no_newline : (t : TokenType) → t ≡ token_eof → is_newline t ≡ false
eof_no_newline t e = ap is_newline e

one_more :
    (source : Bytes) (n : ℕ) (p : Parser)
    → is_error (token_at source n).type ≡ true
    → Moved source (n + 1) p
    → Moved source n p
one_more source n p bad m = record {
  to = m.to;
  forward = omega (arith, m.forward);
  window = m.window;
  sound = m.sound;
  errors = λ j a b. elim (Bool-cases (n == j)) [
    | inl here ↦ ap (λ k. is_error (token_at source k).type) (sym ((==_iff n j).0 here)) ∙ bad
    | inr behind ↦ m.errors j (ground arith) b
  ];
}

error_rounds-Moved :
    (source : Bytes) (fuel n m : ℕ) (p : Parser)
    → IsWindow source n p
    → (token_at source (n + m)).type ≡ token_eof
    → m < fuel
    → Moved source n (error_rounds fuel p)
unfolding error_rounds
error_rounds-Moved source zero n m p w e h = absurd (omega arith)
error_rounds-Moved source (suc fuel) n m p w e h =
    let rest =
      error_rounds-Moved source fuel (n + 1) (m - 1) (shift_error p)
        (shift_error-IsWindow source n p w) in
    if_cases (Moved source n) (is_error p.current_token.type)
      (λ bad.
        let bad_n : is_error (token_at source n).type ≡ true =
          ap (λ t. is_error t.type) (sym w.0) ∙ bad in
        let later : 0 < m = not_there m bad_n e in
        one_more source n _ bad_n (
          rest (ap (λ t. t.type) (token_same source (n + 1 + (m - 1)) (n + m) (omega arith)) ∙ e)
            (omega arith)))
      (λ good. record {
        to = n;
        forward = omega arith;
        window = w;
        sound = ap (λ t. is_error t.type) (sym w.0) ∙ good;
        errors = λ j a b. absurd (omega arith);
      })
  where
    not_there :
        (m : ℕ)
        → is_error (token_at source n).type ≡ true
        → (token_at source (n + m)).type ≡ token_eof
        → 0 < m
    not_there zero bad e =
        cc (bad, eof_no_error _ (ap (λ t. t.type) (token_same source n (n + 0) (omega arith)) ∙ e))
    not_there (suc m) bad e = omega arith

-- Where the parser stands at a token of the source, `advance` ends, and takes it to the next one
-- that is no error, past nothing but errors.
pub advance-Moved :
    (source : Bytes) (n : ℕ) (p : Parser) → IsWindow source n p → Moved source (n + 1) (advance p)
unfolding advance
advance-Moved source n p w =
    let (m, le, e) = eof_near source (n + 1) in
    let same : source_len p.lexer ≡ source_len (lexer_init source) =
      ap source_len w.3 ∙ ap length (after_tokens-lexer_init source (n + 3)).0 in
    error_rounds-Moved source (token_bound p) (n + 1) m (shift_tokens p)
      (shift_tokens-IsWindow source n p w) e (omega (arith, le, same))

-- The first token from `n` that is no newline, with newlines and errors only before it.
pub record Skipped (source : Bytes) (n : ℕ) (p : Parser) : Type 0 where
  pub to : ℕ
  pub forward : n ≤ to
  pub window : IsWindow source to p
  pub sound : is_newline (token_at source to).type ≡ false
  pub passed :
      (j : ℕ)
      → n ≤ j
      → j < to
      → (is_error (token_at source j).type || is_newline (token_at source j).type) ≡ true

or_left : (a b : Bool) → a ≡ true → (a || b) ≡ true
or_left true b h = refl
or_left false b h = cc

or_right : (a b : Bool) → b ≡ true → (a || b) ≡ true
or_right true b h = refl
or_right false b h = h

over_newline :
    (source : Bytes) (n : ℕ) (p q : Parser)
    → is_newline (token_at source n).type ≡ true
    → (m : Moved source (n + 1) p) → Skipped source m.to q
    → Skipped source n q
over_newline source n p q nl m k = record {
  to = k.to;
  forward = omega (arith, m.forward, k.forward);
  window = k.window;
  sound = k.sound;
  passed = λ j a b. elim (Bool-cases (n == j)) [
    | inl here ↦
        or_right (is_error (token_at source j).type) _
          (ap (λ i. is_newline (token_at source i).type) (sym ((==_iff n j).0 here)) ∙ nl)
    | inr behind ↦ elim (Bool-cases (ltb j m.to)) [
      | inl early ↦ or_left _ _ (m.errors j (ground arith) (ltb→lt j m.to early))
      | inr late ↦ k.passed j (ltb-false j m.to late) b
    ]
  ];
}

-- Where `advance` leaves a newline, it does not go past the EOF token.
before_eof :
    (source : Bytes) (n m : ℕ) (p : Parser)
    → is_newline (token_at source n).type ≡ true
    → (token_at source (n + m)).type ≡ token_eof
    → (a : Moved source (n + 1) p) → a.to ≤ n + m
before_eof source n zero p nl e a =
    cc (nl, eof_no_newline _ (ap (λ t. t.type) (token_same source n (n + 0) (omega arith)) ∙ e))
before_eof source n (suc m) p nl e a = elim (Bool-cases (ltb (n + suc m) a.to)) [
  | inl over ↦ cc (a.errors (n + suc m) (omega arith) (ltb→lt _ _ over), eof_no_error _ e)
  | inr within ↦ ltb-false (n + suc m) a.to within
]

newline_rounds-Skipped :
    (source : Bytes) (fuel n m : ℕ) (p : Parser)
    → IsWindow source n p
    → (token_at source (n + m)).type ≡ token_eof
    → m < fuel
    → Skipped source n (newline_rounds fuel p)
unfolding newline_rounds
newline_rounds-Skipped source zero n m p w e h = absurd (omega arith)
newline_rounds-Skipped source (suc fuel) n m p w e h =
    let a = advance-Moved source n p w in
    let rest = newline_rounds-Skipped source fuel a.to (n + m - a.to) (advance p) a.window in
    if_cases (Skipped source n) (is_newline p.current_token.type)
      (λ nl.
        let nl_n : is_newline (token_at source n).type ≡ true =
          ap (λ t. is_newline t.type) (sym w.0) ∙ nl in
        let within : a.to ≤ n + m = before_eof source n m (advance p) nl_n e a in
        over_newline source n _ _ nl_n a (
          rest
            (ap (λ t. t.type) (token_same source (a.to + (n + m - a.to)) (n + m) (omega arith)) ∙ e)
            (omega (arith, a.forward))))
      (λ other. record {
        to = n;
        forward = omega arith;
        window = w;
        sound = ap (λ t. is_newline t.type) (sym w.0) ∙ other;
        passed = λ j b c. absurd (omega arith);
      })

-- Where the parser stands at a token of the source, `skip_newlines` takes it to the first one from
-- there that is no newline, and passes nothing but newlines and errors, which `advance` reports.
pub skip_newlines-Skipped :
    (source : Bytes) (n : ℕ) (p : Parser) → IsWindow source n p → Skipped source n (skip_newlines p)
unfolding skip_newlines
skip_newlines-Skipped source n p w =
    let (m, le, e) = eof_near source n in
    let same : source_len p.lexer ≡ source_len (lexer_init source) =
      ap source_len w.3 ∙ ap length (after_tokens-lexer_init source (n + 3)).0 in
    newline_rounds-Skipped source (token_bound p) n m p w e (omega (arith, le, same))
