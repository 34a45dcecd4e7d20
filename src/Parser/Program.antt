-- ===== src/Parser/Program.antt =====
-- src/parser.c: blocks and programs.
use prefix.Ast.{
  Expr, exprs, call, no_exprs, no_kw, expr, expr_str, expr_ident, Stmt, stmt, StmtNode, expr_stmt,
  assign, StmtList, no_stmts, stmt_list_add, stmt_expr, stmt_set_src, line_of_stmt,
}
use prefix.Base.{
  ℕ, zero, suc, Bool, true, false, ◌&&◌, ◌||◌, not, Option, none, some, if◌then◌else◌, Bytes, codes,
}
use prefix.Lexer.Line.{lexer_get_line}
use prefix.Number.Float.{Doubles}
use prefix.Parser.Control.{skip_while}
use prefix.Parser.Cursor.{Parser, is_newline, token_bound}
use prefix.Parser.Kinds.{is}
use prefix.Parser.Outcome.{
  Outcome, Parse, made, stuck, ◌>>=◌, ◌>>◌, pure, here, note, expect, attempt, skip_lines,
}
use prefix.Parser.Primary.{parse_call}
use prefix.Parser.Statement.{parse_statement}
use prefix.Token.{TokenType, token_eof, token_lbrace, token_rbrace}

-- A call of `throw` with the recorded message.
abbrev throw_stmt : Bytes → Parser → Stmt
throw_stmt message p =
    let line = p.error_line in
    let column = p.error_col in
    let callee = expr_ident (some (codes "throw")) line column in
    let args = exprs (expr_str (some message) line column) no_exprs in
    stmt_expr (expr line column (call callee args no_kw)) line column

unfoldable pub append_parse_error_throw_stmt : StmtList → Parse StmtList
unfolding stmt_list_add
append_parse_error_throw_stmt block p = elim p.error_msg as (λ _. Outcome StmtList × Parser) [
  | none ↦ (made block, p)
  | some message ↦ (
    made (stmt_list_add block (throw_stmt message p)),
    record p { error_msg = none; had_error = false; panic_mode = false },
  )
]

-- The statement with the text of its line.
unfoldable pub with_src : Stmt → Parse Stmt
unfolding stmt_set_src lexer_get_line
with_src s = do
  p ← here
  pure (stmt_set_src s (some (lexer_get_line p.lexer.source (line_of_stmt s))))

-- From an error to the token that `stop` names.
unfoldable pub synchronize : (TokenType → Bool) → Parse (Unit {0})
unfolding skip_while
synchronize stop = skip_while (λ type. not (stop type)) >> skip_lines

abbrev pub ends_block : TokenType → Bool
ends_block type = is token_rbrace type || is token_eof type

abbrev pub stops_block : TokenType → Bool
stops_block type = is_newline type || (is token_eof type || is token_rbrace type)

abbrev pub stops_program : TokenType → Bool
stops_program type = is_newline type || is token_eof type

abbrev pub block_error : StmtList → Parse StmtList
block_error list = do more ← append_parse_error_throw_stmt list; synchronize stops_block; pure more

abbrev pub add_stmt : StmtList → Stmt → Parse StmtList
add_stmt list s = do t ← with_src s; skip_lines; pure (stmt_list_add list t)

-- What a round of `parse_block` does behind `parse_statement`; true where the loop goes on.
abbrev pub after_stmt : StmtList → Option Stmt → Parse (StmtList × Bool)
after_stmt list (some s) p = (add_stmt list s >>= λ more. pure (more, true)) p
after_stmt list none p = elim p.error_msg as (λ _. Outcome (StmtList × Bool) × Parser) [
  | none ↦ (made (list, false), p)
  | some _ ↦ (block_error list >>= λ more. pure (more, true)) p
]

abbrev pub own_line : Stmt → Bool
own_line (stmt _ _ _ (expr_stmt _)) = true
own_line (stmt _ _ _ (assign _ _ _ _ _ _ _)) = true
own_line _ = false

abbrev pub program_error : StmtList → Parse StmtList
program_error list = do
  more ← append_parse_error_throw_stmt list
  synchronize stops_program
  pure more

abbrev pub after_top : StmtList → Option Stmt → Parse StmtList
after_top list (some s) p =
    (if own_line s && not (stops_program p.current_token.type)
        then note (codes "Expression statement or assignment must occupy its own logical line")
          >> program_error list
        else add_stmt list s)
      p
after_top list none p = program_error list p

module _ (statement : Parse Stmt) where
  -- The loop of `parse_block`, in at most `n` rounds.
  unfoldable pub block_rounds : ℕ → StmtList → Parse StmtList
  unfolding stmt_list_add append_parse_error_throw_stmt with_src synchronize
  block_rounds zero list p = (stuck, p)
  block_rounds (suc n) list p =
      (if ends_block p.current_token.type
          then pure list
          else attempt statement >>= λ s. after_stmt list s >>= λ (more, again).
              if again then block_rounds n more else pure more)
        p

  unfoldable pub parse_block : ℕ → Parse Stmt
  unfolding block_rounds
  parse_block rounds = do
    p ← here
    expect token_lbrace (codes "Expected '{'")
    skip_lines
    list ← block_rounds rounds no_stmts
    expect token_rbrace (codes "Expected '}' after block")
    pure (stmt p.current_token.line p.current_token.column none (StmtNode.block list))

  -- The loop of `parser_parse`, in at most `n` rounds.
  unfoldable pub program_rounds : ℕ → StmtList → Parse StmtList
  unfolding stmt_list_add append_parse_error_throw_stmt with_src synchronize
  program_rounds zero list p = (stuck, p)
  program_rounds (suc n) list p =
      (if is token_eof p.current_token.type
          then pure list
          else attempt statement >>= λ s. after_top list s >>= λ more. program_rounds n more)
        p

module _ (d : Doubles) (rounds : ℕ) where
  -- `parse_expression` and `parse_block`, which call each other.
  pub record Grammar : Type 0 where
    pub expression : Parse Expr
    pub block : Parse Stmt

  abbrev pub statement_of : Grammar → Parse Stmt
  statement_of g = parse_statement rounds (parse_call d rounds g.expression g.block) g.block

  -- The functions, calling each other to the depth `n`.
  unfoldable pub grammar : ℕ → Grammar
  unfolding parse_call parse_block parse_statement
  grammar zero = record { expression = λ p. (stuck, p); block = λ p. (stuck, p) }
  grammar (suc n) =
      let g = grammar n in
      record {
        expression = parse_call d rounds g.expression g.block;
        block = parse_block (statement_of g) rounds;
      }

  unfoldable pub program_of : ℕ → Parse Stmt
  unfolding program_rounds grammar parse_call parse_statement
  program_of n = do
    p ← here
    skip_lines
    list ← program_rounds (statement_of (grammar n)) rounds no_stmts
    pure (stmt p.current_token.line p.current_token.column none (StmtNode.block list))

-- Rounds and depth are bounded by the tokens that are left.
unfoldable pub parser_parse : Doubles → Parse Stmt
unfolding program_of
parser_parse d p = program_of d (token_bound p) (token_bound p) p
