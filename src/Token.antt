-- ===== src/Token.antt =====
-- src/token.h: the kinds of tokens and the token record. `token_free` of src/lexer.c.
use prefix.Base.{ℕ, Option, none, Bytes}
use prefix.Base.Int.{ℤ}

pub data TokenType : Type 0 where
  token_eof token_error token_newline : TokenType
  token_ident token_number token_float token_string token_fstring : TokenType
  token_fmt_open token_fmt_close : TokenType
  token_lparen token_rparen token_lbrace token_rbrace token_lbracket token_rbracket : TokenType
  token_langle token_rangle token_comma token_equals token_colon token_at token_tilde : TokenType
  token_hash token_dot token_dash : TokenType
  token_try token_catch token_if token_elseif token_else token_while token_for : TokenType
  token_parfor token_thread token_func token_lambda token_async token_return token_pop : TokenType
  token_break token_continue token_goto token_gotopoint : TokenType

pub data LiteralKind : Type 0 where
  literal_null literal_static literal_heap : LiteralKind

-- `literal` is `none` for a NULL pointer. The column is an `int`, and the lexer's subtractions can
-- take it below zero.
pub record Token : Type 0 where
  pub type : TokenType
  pub literal : Option Bytes
  pub literal_kind : LiteralKind
  pub line : ℕ
  pub column : ℤ

-- The heap block that `token_free` releases, and the token that it leaves.
unfoldable pub token_free : Token → Option Bytes × Token
token_free t =
    let cleared : Token = record t { literal = none; literal_kind = literal_null } in
    elim t.literal_kind [
      | literal_heap ↦ (t.literal, cleared)
      | literal_static ↦ (none, cleared)
      | literal_null ↦ (none, cleared)
    ]
