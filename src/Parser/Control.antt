-- ===== src/Parser/Control.antt =====
-- src/parser.c: `if`, loops and `try`.
use prefix.Ast.{
  Expr, ExprList, no_exprs, expr_list_add, Stmt, stmt, if_stmt, StmtList, no_stmts, stmt_list_add,
  SomeStmt, no_stmt, a_stmt, stmt_while, stmt_for, stmt_parfor, stmt_try,
}
use prefix.Base.{ℕ, zero, suc, Bool, ◌&&◌, not, Option, none, if◌then◌else◌, Bytes, codes}
use prefix.Parser.Cursor.{Parser, advance, token_bound}
use prefix.Parser.Kinds.{is}
use prefix.Parser.Outcome.{
  Parse, made, stuck, ◌>>=◌, ◌>>◌, pure, here, fail, note, next, expect, on, returns_null,
}
use prefix.Token.{
  Token, TokenType, token_eof, token_ident, token_lparen, token_rparen, token_rbrace, token_comma,
  token_try, token_catch, token_if, token_elseif, token_else, token_while, token_for, token_parfor,
}

-- A loop that advances over tokens, in at most `n` rounds.
unfoldable pub skip_rounds : ℕ → (TokenType → Bool) → Parser → Parser
skip_rounds zero test p = p
skip_rounds (suc n) test p =
    let rest = skip_rounds n test (advance p) in if test p.current_token.type then rest else p

unfoldable pub skip_while : (TokenType → Bool) → Parse (Unit {0})
unfolding skip_rounds
skip_while test p = (made tt, skip_rounds (token_bound p) test p)

abbrev pub before_rbrace : TokenType → Bool
before_rbrace type = not (is token_eof type) && not (is token_rbrace type)

abbrev pub no_catch : Parse Stmt
no_catch = note (codes "Expected 'catch' after try") >> (skip_while before_rbrace >> returns_null)

abbrev pub name_in_catch : Parse (Option Bytes)
name_in_catch = do
  p ← here
  on token_ident (pure p.current_token.literal)
      (note (codes "Expected identifier in catch") >> pure none)

abbrev pub catch_parens : Parse (Option Bytes)
catch_parens = do
  name ← name_in_catch
  expect token_rparen (codes "Expected ')' after catch")
  pure name

module _ (rounds : ℕ) (expression : Parse Expr) (block : Parse Stmt) where
  -- The condition in parentheses, and the block behind it.
  abbrev pub condition : Bytes → Bytes → Parse (Expr × Stmt)
  condition open_msg close_msg = do
    expect token_lparen open_msg
    cond ← expression
    expect token_rparen close_msg
    body ← block
    pure (cond, body)

  -- The loop over the `elseif` branches, in at most `n` rounds.
  unfoldable pub elif_rounds : ℕ → ExprList → StmtList → Parse (ExprList × StmtList)
  unfolding expr_list_add stmt_list_add
  elif_rounds zero conds blocks p = (stuck, p)
  elif_rounds (suc n) conds blocks p =
      on token_elseif
        (condition (codes "Expected '(' after elseif") (codes "Expected ')' after condition")
          >>= λ (cond, body). elif_rounds n (expr_list_add conds cond) (stmt_list_add blocks body))
        (pure (conds, blocks)) p

  abbrev pub else_branch : Parse SomeStmt
  else_branch = on token_else (block >>= λ body. pure (a_stmt body)) (pure no_stmt)

  unfoldable pub parse_if : Parse Stmt
  unfolding elif_rounds
  parse_if = do
    p ← here
    expect token_if (codes "Expected 'if'")
    (cond, then_block) ←
        condition (codes "Expected '(' after if") (codes "Expected ')' after condition")
    (conds, blocks) ← elif_rounds rounds no_exprs no_stmts
    last ← else_branch
    pure (
        stmt p.current_token.line p.current_token.column none
          (if_stmt cond then_block conds blocks last))

  unfoldable pub parse_while : Parse Stmt
  parse_while = do
    p ← here
    expect token_while (codes "Expected 'while'")
    (cond, body) ←
        condition (codes "Expected '(' after while") (codes "Expected ')' after condition")
    pure (stmt_while cond body p.current_token.line p.current_token.column)

  -- The counter, the target and the body of `for` and `parfor`.
  abbrev pub for_named : Option Bytes → Bytes → Parse (Option Bytes × Expr × Stmt)
  for_named counter close_msg = do
    next
    expect token_comma (codes "Expected ',' after counter")
    target ← expression
    expect token_rparen close_msg
    body ← block
    pure (counter, target, body)

  abbrev pub for_parts : Bytes → Bytes → Parse (Option Bytes × Expr × Stmt)
  for_parts open_msg close_msg = do
    expect token_lparen open_msg
    p ← here
    if is token_ident p.current_token.type
        then for_named p.current_token.literal close_msg
        else fail (codes "Expected counter identifier")

  unfoldable pub parse_for : Parse Stmt
  parse_for = do
    p ← here
    expect token_for (codes "Expected 'for'")
    (counter, target, body) ←
        for_parts (codes "Expected '(' after for") (codes "Expected ')' after for")
    pure (stmt_for counter target body p.current_token.line p.current_token.column)

  unfoldable pub parse_parfor : Parse Stmt
  parse_parfor = do
    p ← here
    expect token_parfor (codes "Expected 'parfor'")
    (counter, target, body) ←
        for_parts (codes "Expected '(' after parfor") (codes "Expected ')' after parfor")
    pure (stmt_parfor counter target body p.current_token.line p.current_token.column)

  abbrev pub catch_tail : Token → Stmt → Parse Stmt
  catch_tail tok try_block = do
    name ← on token_lparen catch_parens (pure none)
    catch_block ← block
    pure (stmt_try try_block name catch_block tok.line tok.column)

  unfoldable pub parse_try : Parse Stmt
  unfolding skip_while
  parse_try = do
    p ← here
    expect token_try (codes "Expected 'try'")
    try_block ← block
    on token_catch (catch_tail p.current_token try_block) no_catch
