-- ===== src/Parser/Ends/Skips.antt =====
-- src/parser.c: how far the loops that only advance go.
use prefix.Base.{
  ℕ, zero, suc, ◌+◌, ◌≤◌, ◌<◌, Bool, true, false, ◌≡◌, refl, sym, ◌∙◌, ap, subst, arith, if_cases,
  if◌then◌else◌, Bytes, length,
}
use prefix.Lexer.State.{source_len, lexer_init}
use prefix.Lexer.Stream.{after_tokens-lexer_init}
use prefix.Parser.Control.{skip_rounds, skip_while}
use prefix.Parser.Cursor.{Parser, advance, token_bound, is_newline, newline_rounds, skip_newlines}
use prefix.Parser.Ends.Steps.{reached}
use prefix.Parser.Outcome.{Parse, ◌>>◌, note, returns_null, skip_lines}
use prefix.Parser.Reach.{
  Text, At, Post, makes, nulls, advance-At, report_error-At, report_error-had_error,
  advance-had_error,
}
use prefix.Token.{TokenType, token_eof}

-- The parser has a round for each token of the text.
pub within_bound : {t : Text} {n : ℕ} {p : Parser} → At t n p → t.last < token_bound p
within_bound {t} {n} {p} a =
    let same : source_len p.lexer ≡ source_len (lexer_init t.source) =
      ap source_len a.window.3 ∙ ap length (after_tokens-lexer_init t.source (n + 3)).0 in
    omega (arith, t.near, same)

-- A loop over tokens ends before a token that fails the test.
pub record Skips (t : Text) (n : ℕ) (test : TokenType → Bool) (p q : Parser) : Type 0 where
  pub to : ℕ
  pub forward : n ≤ to
  pub there : At t to q
  pub stopped : test q.current_token.type ≡ false
  pub moved : test p.current_token.type ≡ true → n < to
  pub stays : test p.current_token.type ≡ false → q ≡ p
  pub errors : p.had_error ≡ true → q.had_error ≡ true

skip_rounds-Skips :
    {t : Text} (fuel : ℕ) (test : TokenType → Bool) {n : ℕ} {p : Parser}
    → At t n p
    → test token_eof ≡ false
    → t.last < n + fuel
    → Skips t n test p (skip_rounds fuel test p)
unfolding skip_rounds
skip_rounds-Skips zero test a no_eof h = absurd (omega (arith, a.within))
skip_rounds-Skips {t} (suc fuel) test {n} {p} a no_eof h =
    if_cases (λ q. Skips t n test p q) (test p.current_token.type)
      (λ e.
        let r = advance-At a test no_eof e in
        let s = skip_rounds-Skips fuel test r.there no_eof (omega (arith, r.forward)) in
        record {
          to = s.to;
          forward = omega (arith, r.forward, s.forward);
          there = s.there;
          stopped = s.stopped;
          moved = λ _. omega (arith, r.forward, s.forward);
          stays = λ e'. cc;
          errors = λ h. s.errors (advance-had_error p a.recorded h);
        })
      (λ e. record {
        to = n;
        forward = omega arith;
        there = a;
        stopped = e;
        moved = λ e'. cc;
        stays = λ _. refl;
        errors = λ h. h;
      })

newline_rounds-skip_rounds : (n : ℕ) (p : Parser) → newline_rounds n p ≡ skip_rounds n is_newline p
unfolding newline_rounds skip_rounds
newline_rounds-skip_rounds zero p = refl
newline_rounds-skip_rounds (suc n) p =
    ap (λ q. if is_newline p.current_token.type then q else p)
      (newline_rounds-skip_rounds n (advance p))

module _ {t : Text} where
  pub skip_then {ℓ} :
      {B : Type ℓ} {lo hi n : ℕ} {p : Parser} (test : TokenType → Bool) (f : Parse B)
      → At t n p
      → test token_eof ≡ false
      → ((q : Parser) → Skips t n test p q → Post t lo hi (f q))
      → Post t lo hi ((skip_while test >> f) p)
  unfolding ◌>>◌ skip_while
  skip_then test f a no_eof k =
      k _ (skip_rounds-Skips _ test a no_eof (omega (arith, within_bound a)))

  pub lines_then {ℓ} :
      {B : Type ℓ} {lo hi n : ℕ} {p : Parser} (f : Parse B)
      → At t n p
      → ((q : Parser) → Skips t n is_newline p q → Post t lo hi (f q))
      → Post t lo hi ((skip_lines >> f) p)
  unfolding ◌>>◌ skip_lines skip_newlines
  lines_then {lo = lo} {hi} {p = p} f a k =
      subst (λ q. Post t lo hi (f q)) (sym (newline_rounds-skip_rounds (token_bound p) p))
        (k _ (skip_rounds-Skips _ is_newline a refl (omega (arith, within_bound a))))

  lines_lem :
      {lo hi n : ℕ} (p : Parser)
      → At t n p
      → ((q : Parser) (s : Skips t n is_newline p q) → hi ≤ s.to)
      → Post t lo hi (skip_lines p)
  unfolding skip_lines skip_newlines
  lines_lem {n = n} p a k =
      let s =
        subst (λ q. Skips t n is_newline p q) (sym (newline_rounds-skip_rounds (token_bound p) p))
          (skip_rounds-Skips _ is_newline a refl (omega (arith, within_bound a))) in
      makes (reached s.there (k _ s))

  pub skip_lines-Post :
      {lo hi n : ℕ} {p : Parser}
      → At t n p
      → ((q : Parser) (s : Skips t n is_newline p q) → hi ≤ s.to)
      → Post t lo hi (skip_lines p)
  skip_lines-Post a k = lines_lem _ a k

  pub note_then {ℓ} :
      {B : Type ℓ} {lo hi n : ℕ} {p : Parser} (message : Bytes) (f : Parse B)
      → At t n p
      → ((q : Parser) → At t n q → q.had_error ≡ true → Post t lo hi (f q))
      → Post t lo hi ((note message >> f) p)
  unfolding ◌>>◌ note
  note_then {p = p} message f a k =
      k _ (report_error-At message a) (report_error-had_error message p a.recorded)

  pub skip_while-Post :
      {n : ℕ} {p : Parser} (test : TokenType → Bool)
      → At t n p
      → test token_eof ≡ false
      → Post t n n (skip_while test p)
  unfolding skip_while
  skip_while-Post test a no_eof =
      let s = skip_rounds-Skips _ test a no_eof (omega (arith, within_bound a)) in
      makes (reached s.there s.forward)

  pub note-Post : {n : ℕ} {p : Parser} (message : Bytes) → At t n p → Post t n n (note message p)
  unfolding note
  note-Post message a = makes (reached (report_error-At message a) (omega arith))

  pub returns_null-Post {ℓ} :
      {A : Type ℓ} {lo hi n : ℕ} {p : Parser}
      → At t n p
      → p.had_error ≡ true
      → lo ≤ n
      → Post t lo hi {A = A} (returns_null p)
  unfolding returns_null
  returns_null-Post a e le = nulls (reached a le) e
