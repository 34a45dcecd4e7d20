-- ===== src/Parser/Statement.antt =====
-- src/parser.c: statements.
use prefix.Ast.{
  Expr, no_expr, an_expr, expr_ident, expr_line, expr_column, Stmt, stmt, func_stmt, stmt_assign,
  stmt_decl, stmt_return, stmt_pop, stmt_break, stmt_continue, stmt_thread, stmt_async, stmt_goto,
  stmt_gotopoint, stmt_expr,
}
use prefix.Base.{ℕ, Bool, true, false, ◌&&◌, ◌||◌, not, Option, none, if◌then◌else◌, Bytes, codes}
use prefix.Base.Int.{ℤ}
use prefix.Parser.Annotation.{
  TypeAnnotation, require_space_only_gap, parse_type_annotation, typed_name, parse_param_list,
}
use prefix.Parser.Control.{skip_while, parse_if, parse_while, parse_for, parse_parfor, parse_try}
use prefix.Parser.Cursor.{Parser}
use prefix.Parser.Kinds.{
  is, is_type_token, starts_named_type_annotation, looks_like_func_definition,
}
use prefix.Parser.Outcome.{Parse, ◌>>=◌, ◌>>◌, pure, here, fail, note, next, expect, on, skip_lines}
use prefix.Parser.Suffix.{parse_index_suffix}
use prefix.Token.{
  Token, TokenType, token_eof, token_ident, token_number, token_float, token_string, token_lparen,
  token_rparen, token_lbracket, token_langle, token_equals, token_at, token_dash, token_try,
  token_if, token_while, token_for, token_parfor, token_thread, token_func, token_lambda,
  token_async, token_return, token_pop, token_break, token_continue, token_goto, token_gotopoint,
}
use prefix.Value.Types.{type_unknown}

abbrev pub opens_index : TokenType → Bool
opens_index type = is token_lbracket type || is token_langle type

unfoldable pub looks_like_expr : TokenType → Bool
looks_like_expr t =
    is token_number t
    || is token_float t
    || is token_string t
    || is token_ident t
    || is token_at t
    || is token_lparen t
    || is token_lbracket t
    || is token_langle t
    || is token_async t
    || is token_lambda t
    || is token_dash t

abbrev pub before_rparen : TokenType → Bool
before_rparen type = not (is token_rparen type) && not (is token_eof type)

abbrev pub no_arguments_taken : Parse (Unit {0})
no_arguments_taken = do
  p ← here
  if looks_like_expr p.current_token.type
      then note (codes "continue does not accept arguments") >> skip_while before_rparen
      else pure tt

abbrev pub continue_parens : Parse (Unit {0})
continue_parens = do no_arguments_taken; expect token_rparen (codes "Expected ')' after continue")

unfoldable pub continue_statement : Parse Stmt
unfolding looks_like_expr skip_while
continue_statement = do
  p ← here
  next
  on token_lparen continue_parens (note (codes "Expected '(' after continue"))
  pure (stmt_continue p.current_token.line p.current_token.column)

abbrev pub is_assignment : Parser → Bool
is_assignment p = is token_ident p.current_token.type && is token_equals p.next_token.type

module _ (rounds : ℕ) (expression : Parse Expr) (block : Parse Stmt) where
  abbrev pub func_tail : Token → Parse Stmt
  func_tail tok = do
    (ret, name) ← typed_name expression
    expect token_lparen (codes "Expected '(' after function name")
    ps ← parse_param_list expression rounds
    expect token_rparen (codes "Expected ')' after parameters")
    body ← block
    pure (stmt tok.line tok.column none (func_stmt name ps ret.type ret.base ret.schema_expr body))

  unfoldable pub parse_func : Parse Stmt
  unfolding is_type_token typed_name parse_param_list
  parse_func = do
    p ← here
    expect token_func (codes "Expected 'func'")
    q ← here
    if is_type_token q.current_token.type
        then func_tail p.current_token
        else fail (codes "Expected return type after func")

  -- Behind the name of a declaration.
  abbrev pub declared : Token → TypeAnnotation → Option Bytes → Parse Stmt
  declared type_tok ta name =
      on token_equals
        (expression >>= λ e. pure (
          stmt_assign true ta.type ta.base name no_expr e ta.schema_expr type_tok.line
            type_tok.column))
        (pure (stmt_decl ta.type ta.base name ta.schema_expr type_tok.line type_tok.column))

  unfoldable pub parse_simple_typed_declaration : Token → TypeAnnotation → Parse Stmt
  unfolding require_space_only_gap
  parse_simple_typed_declaration type_tok ta = do
    require_space_only_gap ta.end_tok
    p ← here
    next
    declared type_tok ta p.current_token.literal

  unfoldable pub parse_paren_expr_stmt : (Expr → ℕ → ℤ → Stmt) → Bytes → Bytes → Parse Stmt
  parse_paren_expr_stmt builder open_msg close_msg = do
    p ← here
    next
    expect token_lparen open_msg
    e ← expression
    expect token_rparen close_msg
    pure (builder e p.current_token.line p.current_token.column)

  -- Behind the type and the name, at the bracket of an index.
  abbrev pub indexed_target : Token → TypeAnnotation → Option Bytes → Parse Stmt
  indexed_target type_tok ta name = do
    base ← parse_index_suffix expression rounds (expr_ident name type_tok.line type_tok.column)
    on token_equals
        (expression >>= λ e. pure (
          stmt_assign true ta.type ta.base none (an_expr base) e ta.schema_expr type_tok.line
            type_tok.column))
        (fail (codes "Expected '=' after typed indexed target"))

  -- The statement that starts with a type.
  unfoldable pub typed_statement : Parse Stmt
  unfolding typed_name parse_index_suffix
  typed_statement = do
    p ← here
    (ta, name) ← typed_name expression
    q ← here
    if opens_index q.current_token.type
        then indexed_target p.current_token ta name
        else declared p.current_token ta name

  abbrev pub thread_body : Token → Option Bytes → Parse Stmt
  thread_body tok name = do
    next
    expect token_rparen (codes "Expected ')' after thread identifier")
    body ← block
    pure (stmt_thread name body tok.line tok.column)

  unfoldable pub thread_statement : Parse Stmt
  thread_statement = do
    p ← here
    next
    expect token_lparen (codes "Expected '(' after thread")
    q ← here
    if is token_ident q.current_token.type
        then thread_body p.current_token q.current_token.literal
        else fail (codes "Expected identifier after thread(")

  unfoldable pub async_statement : Parse Stmt
  async_statement = do
    p ← here
    next
    body ← block
    pure (stmt_async body p.current_token.line p.current_token.column)

  abbrev pub name_assignment : Parse Stmt
  name_assignment = do
    p ← here
    next
    expect token_equals (codes "Expected '=' after identifier")
    e ← expression
    pure (
        stmt_assign false type_unknown 0 p.current_token.literal no_expr e no_expr
          p.current_token.line p.current_token.column)

  abbrev pub expression_statement : Parse Stmt
  expression_statement = do
    e ← expression
    on token_equals
        (expression >>= λ rhs. pure (
          stmt_assign false type_unknown 0 none (an_expr e) rhs no_expr (expr_line e)
            (expr_column e)))
        (pure (stmt_expr e (expr_line e) (expr_column e)))

  abbrev pub late_declaration : Parse Stmt
  late_declaration = do
    p ← here
    ta ← parse_type_annotation expression
    parse_simple_typed_declaration p.current_token ta

  -- Behind the `switch`.
  unfoldable pub other_statement : Parse Stmt
  unfolding starts_named_type_annotation parse_type_annotation parse_simple_typed_declaration
  other_statement p =
      (if starts_named_type_annotation p
          then late_declaration
          else if is_assignment p
          then name_assignment
          else expression_statement)
        p

  -- The `switch`.
  unfoldable pub keyword_statement : Parse Stmt
  unfolding parse_if parse_while parse_for parse_parfor parse_try parse_func parse_paren_expr_stmt
      thread_statement async_statement continue_statement other_statement
  keyword_statement p =
      let type = p.current_token.type in
      (if is token_if type
          then parse_if rounds expression block
          else if is token_while type
          then parse_while rounds expression block
          else if is token_for type
          then parse_for rounds expression block
          else if is token_parfor type
          then parse_parfor rounds expression block
          else if is token_try type
          then parse_try rounds expression block
          else if is token_func type
          then parse_func
          else if is token_return type
          then parse_paren_expr_stmt stmt_return (codes "Expected '(' after return")
              (codes "Expected ')' after return value")
          else if is token_pop type
          then parse_paren_expr_stmt stmt_pop (codes "Expected '(' after pop")
              (codes "Expected ')' after pop expression")
          else if is token_break type
          then parse_paren_expr_stmt stmt_break (codes "Expected '(' after break")
              (codes "Expected ')' after break value")
          else if is token_thread type
          then thread_statement
          else if is token_async type
          then async_statement
          else if is token_continue type
          then continue_statement
          else if is token_goto type
          then parse_paren_expr_stmt stmt_goto (codes "Expected '(' after goto")
              (codes "Expected ')' after goto")
          else if is token_gotopoint type
          then parse_paren_expr_stmt stmt_gotopoint (codes "Expected '(' after gotopoint")
              (codes "Expected ')' after gotopoint target")
          else other_statement)
        p

  abbrev pub statement_here : Parse Stmt
  statement_here p =
      (if looks_like_func_definition p
          then parse_func
          else if starts_named_type_annotation p
          then typed_statement
          else keyword_statement)
        p

  unfoldable pub parse_statement : Parse Stmt
  unfolding looks_like_func_definition starts_named_type_annotation parse_func typed_statement
      keyword_statement
  parse_statement = skip_lines >> statement_here
