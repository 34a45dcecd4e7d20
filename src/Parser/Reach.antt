-- ===== src/Parser/Reach.antt =====
-- src/parser.c: how far a parse function goes in the tokens of a source, and what it records.
use prefix.Base.{
  ℕ, zero, suc, ◌+◌, ◌*◌, ◌≤◌, ◌<◌, Bool, true, false, Option, none, some, ◌≡◌, refl, sym, ◌∙◌, ap,
  arith, if_cases, if_both, Bytes, Bool-cases, ◌⊎◌, inl, inr, ltb, ltb→lt, ltb-false,
}
use prefix.Lexer.State.{source_len, lexer_init}
use prefix.Parser.Cursor.{
  Parser, report_error, shift_tokens, is_error, shift_error, error_rounds, advance, token_bound,
}
use prefix.Parser.Kinds.{is}
use prefix.Parser.Outcome.{Outcome, made, null}
use prefix.Parser.Window.{token_at, IsWindow, Moved, advance-Moved}
use prefix.Token.{TokenType, token_eof, token_error}

-- A source, and the number of the first EOF token in it.
pub record Text : Type 0 where
  pub source : Bytes
  pub last : ℕ
  pub at_last : (token_at source last).type ≡ token_eof
  pub first : (j : ℕ) → j < last → is token_eof (token_at source j).type ≡ false
  pub near : last < 3 * source_len (lexer_init source) + 8

abbrev pub is_message : Option Bytes → Bool
is_message (some _) = true
is_message none = false

abbrev pub has_message : Parser → Bool
has_message p = is_message p.error_msg

-- An error is recorded exactly where there is a message, and panic only with an error.
pub record Recorded (p : Parser) : Type 0 where
  pub message : p.had_error ≡ has_message p
  pub panics : p.panic_mode ≡ true → p.had_error ≡ true

-- The parser stands at the token `n`, not behind the EOF token.
pub record At (t : Text) (n : ℕ) (p : Parser) : Type 0 where
  pub window : IsWindow t.source n p
  pub within : n ≤ t.last
  pub recorded : Recorded p

-- It stands at the token `n` or behind it.
pub record Reached (t : Text) (n : ℕ) (p : Parser) : Type 0 where
  pub to : ℕ
  pub forward : n ≤ to
  pub there : At t to p

-- A result is reached at `hi` or behind it, NULL at `lo` or behind it and with an error recorded;
-- the fuel is enough.
pub data Post {ℓ} (t : Text) (lo hi : ℕ) {A : Type ℓ} : Outcome A × Parser → Type ℓ where
  makes : {a : A} {p : Parser} → Reached t hi p → Post t lo hi (made a, p)
  nulls : {p : Parser} → Reached t lo p → p.had_error ≡ true → Post t lo hi (null, p)

-- The record behind a reported error.
abbrev reported : Bytes → Parser → Parser
reported message p = record p {
  panic_mode = true;
  had_error = true;
  error_msg = some message;
  error_line = p.current_token.line;
  error_col = p.current_token.column;
}

report_error-Recorded :
    (message : Bytes) (p : Parser) → Recorded p → Recorded (report_error message p)
unfolding report_error
report_error-Recorded message p r =
    if_both Recorded p.panic_mode {y = reported message p} r
      (record { message = refl; panics = λ _. refl })

pub report_error-had_error :
    (message : Bytes) (p : Parser) → Recorded p → (report_error message p).had_error ≡ true
unfolding report_error
report_error-had_error message p r =
    if_cases (λ (q : Parser). q.had_error ≡ true) p.panic_mode (λ panic. r.panics panic) (λ _. refl)

pub report_error-At :
    {t : Text} {n : ℕ} {p : Parser} (message : Bytes) → At t n p → At t n (report_error message p)
unfolding report_error
report_error-At {t} {n} {p} message a = record {
  window = if_both (IsWindow t.source n) p.panic_mode a.window a.window;
  within = a.within;
  recorded = report_error-Recorded message p a.recorded;
}

-- A recorded error stays where `advance` shifts over error tokens.
Kept : Parser → Parser → Type 0
Kept p q = Recorded q × (p.had_error ≡ true → q.had_error ≡ true)

shift_error-Kept : (p : Parser) → Recorded p → Kept p (shift_error p)
unfolding Kept shift_tokens report_error
shift_error-Kept p r =
    if_cases (λ q. Kept p (shift_tokens (record q { panic_mode = false }))) p.panic_mode
      (λ panic. (record { message = r.message; panics = λ h. cc }, λ h. h))
      (λ _. (record { message = refl; panics = λ h. refl }, λ h. refl))

error_rounds-Kept : (n : ℕ) (p : Parser) → Recorded p → Kept p (error_rounds n p)
unfolding Kept error_rounds
error_rounds-Kept zero p r = (r, λ h. h)
error_rounds-Kept (suc n) p r =
    let (r', k) = shift_error-Kept p r in
    let (r'', k') = error_rounds-Kept n (shift_error p) r' in
    if_both (λ (q : Parser). Recorded q × (p.had_error ≡ true → q.had_error ≡ true))
      (is_error p.current_token.type) (r'', λ h. k' (k h)) (r, λ h. h)

advance-Kept : (p : Parser) → Recorded p → Kept p (advance p)
unfolding Kept advance shift_tokens
advance-Kept p r =
    error_rounds-Kept (token_bound p) (shift_tokens p)
      (record { message = r.message; panics = r.panics })

pub advance-had_error :
    (p : Parser) → Recorded p → p.had_error ≡ true → (advance p).had_error ≡ true
unfolding Kept
advance-had_error p r h = (advance-Kept p r).1 h

Moved-within :
    (t : Text) (n : ℕ) (p : Parser) → n < t.last → (m : Moved t.source (n + 1) p) → m.to ≤ t.last
Moved-within t n p lt m = elim (Bool-cases (ltb t.last m.to)) [
  | inl over ↦ cc (m.errors t.last (omega arith) (ltb→lt t.last m.to over), ap is_error t.at_last)
  | inr within ↦ ltb-false t.last m.to within
]

module _ {t : Text} {n : ℕ} {p : Parser} where
  -- Where the token passes a test that EOF does not, there are tokens left.
  pub not_last :
      At t n p
      → (test : TokenType → Bool) → test token_eof ≡ false
      → test p.current_token.type ≡ true
      → n < t.last
  not_last a test no_eof passes = elim (Bool-cases (ltb n t.last)) [
    | inl lt ↦ ltb→lt n t.last lt
    | inr over ↦
        let same : t.last ≡ n = omega (arith, a.within, ltb-false n t.last over) in
        cc (
          no_eof,
          sym passes
              ∙ ap (λ s. test s.type) a.window.0
              ∙ ap (λ k. test (token_at t.source k).type) (sym same)
              ∙ ap test t.at_last,
        )
  ]

  pub advance-At :
      At t n p
      → (test : TokenType → Bool) → test token_eof ≡ false
      → test p.current_token.type ≡ true
      → Reached t (suc n) (advance p)
  unfolding Kept
  advance-At a test no_eof passes =
      let m = advance-Moved t.source n p a.window in
      record {
        to = m.to;
        forward = omega (arith, m.forward);
        there = record {
          window = m.window;
          within = Moved-within t n (advance p) (not_last a test no_eof passes) m;
          recorded = (advance-Kept p a.recorded).0;
        };
      }

error_only : (type : TokenType) → is_error type ≡ true → type ≡ token_error
error_only token_error h = refl
error_only _ h = cc

-- A next token that is no error is the one that `advance` goes to.
pub advance-next :
    {t : Text} {n : ℕ} {p : Parser}
    → At t n p
    → (test : TokenType → Bool) → test token_error ≡ false
    → test p.next_token.type ≡ true
    → test (advance p).current_token.type ≡ true
advance-next {t} {n} {p} a test no_error passes =
    let m = advance-Moved t.source n p a.window in
    let arrives : m.to ≡ n + 1 = by_cases m (Bool-cases (ltb (n + 1) m.to)) in
    ap (λ s. test s.type) m.window.0
    ∙ ap (λ k. test (token_at t.source k).type) arrives
    ∙ ap (λ s. test s.type) (sym a.window.1)
    ∙ passes
  where
    by_cases :
        (m : Moved t.source (n + 1) (advance p))
        → (ltb (n + 1) m.to ≡ true) ⊎ (ltb (n + 1) m.to ≡ false)
        → m.to ≡ n + 1
    by_cases m (inl over) =
        let bad = m.errors (n + 1) (omega arith) (ltb→lt _ _ over) in
        let error : p.next_token.type ≡ token_error =
          ap (λ s. s.type) a.window.1 ∙ error_only _ bad in
        cc (sym passes ∙ ap test error ∙ no_error)
    by_cases m (inr near) = omega (arith, m.forward, ltb-false _ _ near)
