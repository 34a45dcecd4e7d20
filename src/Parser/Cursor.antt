-- ===== src/Parser/Cursor.antt =====
-- src/parser.h, src/parser.c: the parser's record, its tokens and its errors.
use prefix.Base.{
  ℕ, zero, suc, ◌+◌, ◌*◌, Bool, true, false, Option, none, some, [], if◌then◌else◌, Bytes,
}
use prefix.Base.Int.{ℤ, pos}
use prefix.Lexer.Next.{lexer_next_token}
use prefix.Lexer.State.{Lexer, source_len}
use prefix.Token.{Token, TokenType, token_error, token_newline}

pub record Parser : Type 0 where
  pub lexer : Lexer
  pub current_token : Token
  pub previous_token : Token
  pub next_token : Token
  pub lookahead2_token : Token
  pub panic_mode : Bool
  pub had_error : Bool
  pub error_msg : Option Bytes
  pub error_line : ℕ
  pub error_col : ℤ

-- The message that is also printed is left out.
unfoldable pub report_error : Bytes → Parser → Parser
report_error message p = if p.panic_mode then p else record p {
  panic_mode = true;
  had_error = true;
  error_msg = some message;
  error_line = p.current_token.line;
  error_col = p.current_token.column;
}

-- `previous` is what stands in the record before.
unfoldable pub parser_init : Token → Lexer → Parser
parser_init previous lexer =
    let (first, lx) = lexer_next_token lexer in
    let (second, lx') = lexer_next_token lx in
    let (third, lx'') = lexer_next_token lx' in
    record {
      lexer = lx'';
      current_token = first;
      previous_token = previous;
      next_token = second;
      lookahead2_token = third;
      panic_mode = false;
      had_error = false;
      error_msg = none;
      error_line = 0;
      error_col = pos 0;
    }

unfoldable pub shift_tokens : Parser → Parser
shift_tokens p =
    let (token, lexer) = lexer_next_token p.lexer in
    record p {
      lexer = lexer;
      current_token = p.next_token;
      previous_token = p.current_token;
      next_token = p.lookahead2_token;
      lookahead2_token = token;
    }

abbrev pub is_error : TokenType → Bool
is_error token_error = true
is_error _ = false

abbrev pub is_newline : TokenType → Bool
is_newline token_newline = true
is_newline _ = false

abbrev pub literal_or_empty : Token → Bytes
literal_or_empty t = elim t.literal as (λ _. Bytes) [ none ↦ [] | some text ↦ text ]

-- The body of the loop of `advance`.
abbrev pub shift_error : Parser → Parser
shift_error p =
    shift_tokens (record (report_error (literal_or_empty p.current_token) p) { panic_mode = false })

-- The loop of `advance`, in at most `n` rounds.
unfoldable pub error_rounds : ℕ → Parser → Parser
error_rounds zero p = p
error_rounds (suc n) p =
    let rest = error_rounds n (shift_error p) in if is_error p.current_token.type then rest else p

-- More rounds than there are tokens left in a source.
abbrev pub token_bound : Parser → ℕ
token_bound p = 3 * source_len p.lexer + 8

unfoldable pub advance : Parser → Parser
advance p = error_rounds (token_bound p) (shift_tokens p)

abbrev pub match : (TokenType → Bool) → Parser → Bool × Parser
match is_type p = if is_type p.current_token.type then (true, advance p) else (false, p)

abbrev pub consume : (TokenType → Bool) → Bytes → Parser → Bool × Parser
consume is_type message p =
    if is_type p.current_token.type then (true, advance p) else (false, report_error message p)

-- The loop of `skip_newlines`, in at most `n` rounds.
unfoldable pub newline_rounds : ℕ → Parser → Parser
newline_rounds zero p = p
newline_rounds (suc n) p =
    let rest = newline_rounds n (advance p) in if is_newline p.current_token.type then rest else p

unfoldable pub skip_newlines : Parser → Parser
skip_newlines p = newline_rounds (token_bound p) p
