-- ===== src/Parser/Suffix.antt =====
-- src/parser.c: indices and arguments behind an expression.
use prefix.Ast.{
  Expr, expr, index, call, ident, ExprList, no_exprs, expr_list_add, KwArgs, no_kw, kw_add,
  expr_range, expr_wildcard, expr_line, expr_column,
}
use prefix.Base.{
  ℕ, zero, suc, Bool, true, false, ◌&&◌, ◌||◌, not, some, if◌then◌else◌, Bytes, codes, bytes_eq,
}
use prefix.Parser.Annotation.{parse_typed_ident_expr}
use prefix.Parser.Cursor.{Parser}
use prefix.Parser.Kinds.{is, is_type_token}
use prefix.Parser.Outcome.{Parse, ◌>>=◌, ◌>>◌, pure, here, fail, next, expect, on, stuck}
use prefix.Token.{
  TokenType, token_eof, token_ident, token_lbrace, token_lbracket, token_rbracket, token_langle,
  token_rangle, token_lparen, token_rparen, token_comma, token_equals, token_colon, token_hash,
}

abbrev pub wildcard_index : Parse Expr
wildcard_index = do
  next
  p ← here
  pure (expr_wildcard p.previous_token.line p.previous_token.column)

abbrev pub not_closed : TokenType → TokenType → Bool
not_closed close type = not (is close type) && not (is token_eof type)

-- A loop over the indices up to the closing token, in at most `n` rounds.
unfoldable pub index_rounds : ℕ → TokenType → Parse Expr → ExprList → Parse ExprList
unfolding expr_list_add
index_rounds zero close item indices p = (stuck, p)
index_rounds (suc n) close item indices p =
    (if not_closed close p.current_token.type
        then (item >>= λ e.
            on token_comma (index_rounds n close item (expr_list_add indices e))
              (pure (expr_list_add indices e)))
        else pure indices)
      p

-- Whether `callee` is the name `assign`.
abbrev pub is_assign : Expr → Bool
is_assign (expr _ _ (ident (some name))) = bytes_eq name (codes "assign")
is_assign _ = false

abbrev pub no_arguments : ExprList → KwArgs → Bool
no_arguments no_exprs no_kw = true
no_arguments _ _ = false

unfoldable pub is_typed_assign_target : Expr → ExprList → KwArgs → Parser → Bool
unfolding bytes_eq is_type_token
is_typed_assign_target callee args kws p =
    is_type_token p.current_token.type
    && (is_assign callee
        && (no_arguments args kws
            && (is token_ident p.next_token.type
                || (is token_colon p.next_token.type || is token_lbrace p.next_token.type))))

abbrev pub is_keyword : Parser → Bool
is_keyword p = is token_ident p.current_token.type && is token_equals p.next_token.type

-- The arguments so far, and whether one had a keyword.
abbrev pub Arguments : Type 0
Arguments = ExprList × KwArgs × Bool

module _ (expression : Parse Expr) where
  -- Behind the first expression of an index.
  abbrev pub range_from : Expr → Parse Expr
  range_from start =
      on token_colon
        (expression >>= λ end. pure (expr_range start end (expr_line start) (expr_column start)))
        (pure start)

  unfoldable pub one_index : Parse Expr
  one_index p =
      (if is token_hash p.current_token.type then wildcard_index else expression >>= range_from) p

  abbrev pub indices_in : ℕ → TokenType → Parse Expr → Parse ExprList
  indices_in rounds close item = do
    p ← here
    if is close p.current_token.type
        then fail (codes "Empty index list")
        else index_rounds rounds close item no_exprs

  -- From the opening token on: the expression with its indices.
  abbrev pub index_in : ℕ → TokenType → Bytes → Parse Expr → Bool → Expr → Parse Expr
  index_in rounds close message item is_map base = do
    p ← here
    next
    indices ← indices_in rounds close item
    expect close message
    pure (expr p.current_token.line p.current_token.column (index base indices is_map))

  abbrev pub bracket_index : ℕ → Expr → Parse Expr
  bracket_index rounds base =
      index_in rounds token_rbracket (codes "Expected ']' after index list") one_index false base

  abbrev pub angle_index : ℕ → Expr → Parse Expr
  angle_index rounds base =
      index_in rounds token_rangle (codes "Expected '>' after index list") expression true base

  -- The loop of `parse_index_suffix`, in at most `n` rounds.
  unfoldable pub suffix_rounds : ℕ → ℕ → Expr → Parse Expr
  unfolding one_index index_rounds
  suffix_rounds rounds zero base p = (stuck, p)
  suffix_rounds rounds (suc n) base p =
      (if is token_lbracket p.current_token.type
          then (bracket_index rounds base >>= λ e. suffix_rounds rounds n e)
          else if is token_langle p.current_token.type
          then (angle_index rounds base >>= λ e. suffix_rounds rounds n e)
          else pure base)
        p

  unfoldable pub parse_index_suffix : ℕ → Expr → Parse Expr
  unfolding suffix_rounds
  parse_index_suffix rounds base = suffix_rounds rounds rounds base

  abbrev pub keyword_arg : ExprList → KwArgs → Parse Arguments
  keyword_arg args kws = do
    p ← here
    next
    expect token_equals (codes "Expected '=' after keyword name")
    value ← expression
    pure (args, kw_add kws p.current_token.literal value, true)

  abbrev pub positional_arg : ExprList → KwArgs → Bool → Parse Arguments
  positional_arg args kws seen_kw =
      if seen_kw
      then fail (codes "Positional arguments cannot follow keyword arguments")
      else expression >>= λ e. pure (expr_list_add args e, kws, seen_kw)

  unfoldable pub one_arg : Expr → ExprList → KwArgs → Bool → Parse Arguments
  unfolding is_typed_assign_target parse_typed_ident_expr expr_list_add kw_add
  one_arg callee args kws seen_kw p =
      (if is_typed_assign_target callee args kws p
          then (parse_typed_ident_expr expression >>= λ e.
              pure (expr_list_add args e, kws, seen_kw))
          else if is_keyword p
          then keyword_arg args kws
          else positional_arg args kws seen_kw)
        p

  -- The loop over the arguments, in at most `n` rounds.
  unfoldable pub arg_rounds : ℕ → Expr → ExprList → KwArgs → Bool → Parse (ExprList × KwArgs)
  unfolding one_arg
  arg_rounds zero callee args kws seen_kw p = (stuck, p)
  arg_rounds (suc n) callee args kws seen_kw p =
      (one_arg callee args kws seen_kw >>= λ (more, ks, seen).
      on token_comma (arg_rounds n callee more ks seen) (pure (more, ks)))
        p

  abbrev pub arguments : ℕ → Expr → Parse (ExprList × KwArgs)
  arguments rounds callee = do
    p ← here
    if is token_rparen p.current_token.type
        then pure (no_exprs, no_kw)
        else arg_rounds rounds callee no_exprs no_kw false

  abbrev pub called : ℕ → Expr → Parse Expr
  called rounds callee = do
    p ← here
    next
    (args, kws) ← arguments rounds callee
    expect token_rparen (codes "Expected ')' after arguments")
    pure (expr p.current_token.line p.current_token.column (call callee args kws))

  -- The loop of `parse_call`, in at most `n` rounds.
  unfoldable pub call_rounds : ℕ → ℕ → Expr → Parse Expr
  unfolding arg_rounds parse_index_suffix
  call_rounds rounds zero e p = (stuck, p)
  call_rounds rounds (suc n) e p =
      (if is token_lparen p.current_token.type
          then (called rounds e >>= λ d. call_rounds rounds n d)
          else if is token_lbracket p.current_token.type || is token_langle p.current_token.type
          then (parse_index_suffix rounds e >>= λ d. call_rounds rounds n d)
          else pure e)
        p
