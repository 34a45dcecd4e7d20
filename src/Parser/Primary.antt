-- ===== src/Parser/Primary.antt =====
-- src/parser.c: primary expressions and calls.
use prefix.Ast.{
  Expr, expr, tns_items, map_items, ExprList, no_exprs, expr_list_add, Stmt, expr_bool, expr_int,
  expr_float, expr_str, expr_ptr, expr_ident, expr_async, expr_map, expr_lambda, expr_fmt_str,
}
use prefix.Base.{
  ℕ, zero, suc, Bool, true, false, ◌&&◌, Option, none, some, [], ◌∷◌, ◌++◌, if◌then◌else◌, Bytes,
  codes, bytes_eq,
}
use prefix.Number.Float.{Doubles, parse_prefixed_float_literal}
use prefix.Number.Literal.{parse_prefixed_int_literal}
use prefix.Parser.Annotation.{require_space_only_gap, parse_type_annotation, parse_param_list}
use prefix.Parser.Cursor.{Parser, literal_or_empty}
use prefix.Parser.Kinds.{is, is_type_token}
use prefix.Parser.Outcome.{
  Parse, ◌>>=◌, ◌>>◌, pure, here, fail, next, expect, require, on, attempt, give_back, stuck,
}
use prefix.Parser.Suffix.{call_rounds}
use prefix.Token.{
  Token, token_ident, token_number, token_float, token_string, token_fstring, token_fmt_open,
  token_fmt_close, token_lparen, token_rparen, token_lbracket, token_rbracket, token_langle,
  token_rangle, token_comma, token_equals, token_at, token_dot, token_dash, token_async,
  token_lambda,
}

-- The identifier with this text.
unfoldable pub names : Bytes → Token → Bool
unfolding bytes_eq
names text t = is token_ident t.type && bytes_eq (literal_or_empty t) text

-- A dash with this identifier behind it.
unfoldable pub dash_names : Bytes → Parser → Bool
unfolding names
dash_names text p = is token_dash p.current_token.type && names text p.next_token

abbrev pub dotted : Parser → Bool
dotted p = is token_dot p.current_token.type && is token_ident p.next_token.type

-- The loop of `build_dotted_ident`, in at most `n` rounds.
unfoldable pub dotted_rounds : ℕ → Bytes → Parse Bytes
dotted_rounds zero name p = (stuck, p)
dotted_rounds (suc n) name p =
    (if dotted p
        then (next
            >> (here >>= λ q.
                next >> dotted_rounds n (name ++ b'.' ∷ literal_or_empty q.current_token)))
        else pure name)
      p

unfoldable pub build_dotted_ident : ℕ → Token → Parse Bytes
unfolding dotted_rounds
build_dotted_ident rounds first = dotted_rounds rounds (literal_or_empty first)

-- Passes the token, and returns an expression that is read off it.
abbrev pub token_taken : (Token → Expr) → Parse Expr
token_taken f = do p ← here; next; pure (f p.current_token)

-- Passes the token, and returns what is read off it, or reports an error.
abbrev pub taken_if : (Token → Option Expr) → Bytes → Parse Expr
taken_if f message = do
  p ← here
  next
  elim (f p.current_token) as (λ _. Parse Expr) [ some e ↦ pure e | none ↦ fail message ]

abbrev pub int_literal : Token → Option Expr
int_literal t = elim (parse_prefixed_int_literal (literal_or_empty t)) as (λ _. Option Expr) [
  | some (iv, base) ↦ some (expr_int iv base t.line t.column)
  | none ↦ none
]

module _ (d : Doubles) where
  abbrev pub float_literal : Token → Option Expr
  float_literal t =
      elim (parse_prefixed_float_literal d (literal_or_empty t)) as (λ _. Option Expr) [
        | some (fv, base) ↦ some (expr_float fv base false t.line t.column)
        | none ↦ none
      ]

  abbrev pub negative_infinity : Parse Expr
  negative_infinity = do
    p ← here
    next
    next
    pure (expr_float (d.negate d.infinity) 0 true p.current_token.line p.current_token.column)

module _ (rounds : ℕ) (expression : Parse Expr) (block : Parse Stmt) where
  abbrev pub async_expr : Parse Expr
  async_expr = do
    p ← here
    next
    body ← block
    pure (expr_async body p.current_token.line p.current_token.column)

  -- The text behind an embedded expression. `previous_token` is what `advance` leaves there.
  abbrev pub fmt_text : Parse Expr
  fmt_text = do
    p ← here
    if is token_fstring p.current_token.type
        then (next
            >> (here >>= λ q.
                pure (
                  expr_str q.previous_token.literal q.previous_token.line q.previous_token.column)))
        else pure (expr_str (some []) p.current_token.line p.current_token.column)

  -- The loop over the embedded expressions, in at most `n` rounds.
  unfoldable pub fmt_rounds : ℕ → ExprList → Parse ExprList
  unfolding expr_list_add
  fmt_rounds zero parts p = (stuck, p)
  fmt_rounds (suc n) parts p =
      on token_fmt_open
        (expression >>= λ e.
          require token_fmt_close (codes "Expected '}' in formatted string")
          >> (fmt_text >>= λ text. fmt_rounds n (expr_list_add (expr_list_add parts e) text)))
        (pure parts) p

  abbrev pub fmt_expr : Parse Expr
  fmt_expr = do
    p ← here
    next
    parts ← fmt_rounds rounds (
        expr_list_add no_exprs
          (expr_str p.current_token.literal p.current_token.line p.current_token.column))
    pure (expr_fmt_str parts p.current_token.line p.current_token.column)

  abbrev pub pointer_name : Parse Expr
  pointer_name = do
    p ← here
    if is token_ident p.current_token.type
        then (token_taken λ id. expr_ptr id.literal id.line id.column)
        else fail (codes "Expected identifier after '@'")

  abbrev pub lambda_tail : Token → Parse Expr
  lambda_tail lambda_tok = do
    ret ← parse_type_annotation expression
    require_space_only_gap ret.end_tok
    expect token_lparen (codes "Expected '(' after LAMBDA parameter list")
    ps ← parse_param_list expression rounds
    expect token_rparen (codes "Expected ')' after parameters")
    body ← block
    pure (expr_lambda ps ret.type ret.base ret.schema_expr body lambda_tok.line lambda_tok.column)

  abbrev pub lambda_expr : Parse Expr
  lambda_expr = do
    p ← here
    next
    q ← here
    if is_type_token q.current_token.type
        then lambda_tail p.current_token
        else fail (codes "Expected return type after LAMBDA")

  abbrev pub name_expr : Parse Expr
  name_expr = do
    p ← here
    next
    name ← build_dotted_ident rounds p.current_token
    pure (expr_ident (some name) p.current_token.line p.current_token.column)

  -- A NULL expression is returned behind the closing parenthesis.
  abbrev pub paren_expr : Parse Expr
  paren_expr = do
    next
    e ← attempt expression
    expect token_rparen (codes "Expected ')' after expression")
    give_back e

  -- The loop over the items of a tensor, in at most `n` rounds.
  unfoldable pub item_rounds : ℕ → ExprList → Parse ExprList
  unfolding expr_list_add
  item_rounds zero items p = (stuck, p)
  item_rounds (suc n) items p =
      (expression >>= λ e.
      on token_comma (item_rounds n (expr_list_add items e)) (pure (expr_list_add items e)))
        p

  abbrev pub tensor_items : Parse ExprList
  tensor_items = do
    p ← here
    if is token_rbracket p.current_token.type
        then fail (codes "Empty tensor literal is not allowed")
        else item_rounds rounds no_exprs

  abbrev pub tensor_expr : Parse Expr
  tensor_expr = do
    next
    p ← here
    items ← tensor_items
    expect token_rbracket (codes "Expected ']' after tensor literal")
    pure (expr p.previous_token.line p.previous_token.column (tns_items items))

  -- The loop over the pairs of a map, in at most `n` rounds.
  unfoldable pub pair_rounds : ℕ → ExprList → ExprList → Parse (ExprList × ExprList)
  unfolding expr_list_add
  pair_rounds zero keys values p = (stuck, p)
  pair_rounds (suc n) keys values p =
      (expression >>= λ key.
      require token_equals (codes "Expected '=' in map literal")
      >> (expression >>= λ value.
          on token_comma (pair_rounds n (expr_list_add keys key) (expr_list_add values value))
            (pure (expr_list_add keys key, expr_list_add values value))))
        p

  abbrev pub map_tail : Token → Parse Expr
  map_tail lb = do
    (keys, values) ← pair_rounds rounds no_exprs no_exprs
    expect token_rangle (codes "Expected '>' after map literal")
    pure (expr lb.line lb.column (map_items keys values))

  abbrev pub map_expr : Parse Expr
  map_expr = do
    next
    p ← here
    on token_rangle (pure (expr_map p.previous_token.line p.previous_token.column))
        (map_tail p.previous_token)

module _ (d : Doubles) (rounds : ℕ) (expression : Parse Expr) (block : Parse Stmt) where
  -- From the number on.
  unfoldable pub parse_operand : Parse Expr
  unfolding parse_prefixed_int_literal parse_prefixed_float_literal fmt_rounds is_type_token
      parse_type_annotation require_space_only_gap parse_param_list build_dotted_ident item_rounds
      pair_rounds
  parse_operand p =
      let type = p.current_token.type in
      (if is token_number type
          then taken_if int_literal (codes "Invalid int literal")
          else if is token_float type
          then taken_if (float_literal d) (codes "Invalid float literal")
          else if is token_string type
          then (token_taken λ t. expr_str t.literal t.line t.column)
          else if is token_fstring type
          then fmt_expr rounds expression block
          else if is token_at type
          then next >> pointer_name rounds expression block
          else if is token_lambda type
          then lambda_expr rounds expression block
          else if is token_ident type
          then name_expr rounds expression block
          else if is token_lparen type
          then paren_expr rounds expression block
          else if is token_lbracket type
          then tensor_expr rounds expression block
          else if is token_langle type
          then map_expr rounds expression block
          else fail (codes "Expected expression"))
        p

  unfoldable pub parse_primary : Parse Expr
  unfolding names dash_names parse_operand
  parse_primary p =
      (if names (codes "true") p.current_token
          then (token_taken λ t. expr_bool true t.line t.column)
          else if names (codes "false") p.current_token
          then (token_taken λ t. expr_bool false t.line t.column)
          else if names (codes "INF") p.current_token
          then (token_taken λ t. expr_float d.infinity 0 true t.line t.column)
          else if names (codes "NaN") p.current_token
          then (token_taken λ t. expr_float d.nan 0 true t.line t.column)
          else if dash_names (codes "INF") p
          then negative_infinity d
          else if dash_names (codes "NaN") p
          then fail (codes "NaN must not be negative")
          else if is token_async p.current_token.type
          then async_expr rounds expression block
          else parse_operand)
        p

  unfoldable pub parse_call : Parse Expr
  unfolding parse_primary call_rounds
  parse_call = do e ← parse_primary; call_rounds expression rounds rounds e

  -- `parse_expression` with its recursive calls open.
  abbrev pub parse_expression : Parse Expr
  parse_expression = parse_call
