-- ===== src/Parser/Annotation.antt =====
-- src/parser.c: type annotations, typed names and parameters.
use prefix.Ast.{
  Expr, SomeExpr, no_expr, an_expr, Param, param, ParamList, no_params, param_list_add,
  expr_typed_ident,
}
use prefix.Base.{
  ℕ, zero, suc, Bool, true, false, ◌&&◌, Option, none, some, leb, if◌then◌else◌, Bytes, codes,
}
use prefix.Base.Int.{ℤ, pos, negsuc}
use prefix.Number.Literal.{parse_prefixed_int_literal}
use prefix.Parser.Cursor.{literal_or_empty}
use prefix.Parser.Gap.{gap_holds}
use prefix.Parser.Kinds.{is, is_type_token, parse_type_name}
use prefix.Parser.Outcome.{
  Parse, ◌>>=◌, ◌>>◌, pure, here, fail, next, require, on, returns_null, stuck,
}
use prefix.Token.{
  Token, token_number, token_lbrace, token_rbrace, token_rparen, token_comma, token_equals,
  token_tilde,
}
use prefix.Value.Types.{DeclType, type_map, type_unknown, same_type, is_number}

pub record TypeAnnotation : Type 0 where
  pub type : DeclType
  pub base : ℕ
  pub schema_expr : SomeExpr
  pub end_tok : Token

abbrev pub k_type_name_gap_error : Bytes
k_type_name_gap_error = codes "Type annotations require one or more spaces between type and name"

unfoldable pub require_space_only_gap : Token → Parse (Unit {0})
unfolding gap_holds
require_space_only_gap left = do
  p ← here
  if gap_holds p.lexer.source left p.current_token then pure tt else fail k_type_name_gap_error

abbrev pub base_of : ℤ → Option ℕ
base_of (pos b) = if leb 2 b && leb b 64 then some b else none
base_of (negsuc _) = none

-- The closing brace ends the annotation.
abbrev pub close_base : DeclType → ℕ → Parse TypeAnnotation
close_base type base = do
  p ← here
  require token_rbrace (codes "Expected '}' after base")
  pure (record { type = type; base = base; schema_expr = no_expr; end_tok = p.current_token })

abbrev pub with_base : DeclType → Option ℕ → Parse TypeAnnotation
with_base type (some base) = next >> close_base type base
with_base type none = fail (codes "Base must be between 2 and 64")

abbrev pub no_base : Token → Parse TypeAnnotation
no_base lit =
    if is token_rbrace lit.type
    then fail (codes "int{} requires a base number inside braces")
    else fail (codes "Expected int literal for base")

abbrev pub read_base : DeclType → Token → Option (ℤ × ℕ) → Parse TypeAnnotation
read_base type lit (some (value, _)) = with_base type (base_of value)
read_base type lit none = no_base lit

unfoldable pub base_annotation : DeclType → Parse TypeAnnotation
unfolding parse_prefixed_int_literal
base_annotation type = do
  p ← here
  if is token_number p.current_token.type
      then read_base type p.current_token
          (parse_prefixed_int_literal (literal_or_empty p.current_token))
      else no_base p.current_token

module _ (expression : Parse Expr) where
  abbrev pub closed_schema : Parse TypeAnnotation
  closed_schema = do
    schema ← expression
    require token_rbrace (codes "Expected '}' after map schema")
    p ← here
    pure (record {
      type = type_map;
      base = 0;
      schema_expr = an_expr schema;
      end_tok = p.previous_token;
    })

  unfoldable pub schema_annotation : Parse TypeAnnotation
  schema_annotation = do
    p ← here
    if is token_rbrace p.current_token.type
        then fail (codes "map{} requires a schema expression; use map without braces for bare map")
        else closed_schema

  -- Behind the name of the type.
  unfoldable pub annotation_tail : DeclType → Token → Parse TypeAnnotation
  unfolding same_type schema_annotation base_annotation
  annotation_tail type name =
      let bare : Parse TypeAnnotation =
        pure (record { type = type; base = 0; schema_expr = no_expr; end_tok = name }) in
      if is_number type
      then on token_lbrace (base_annotation type) bare
      else if same_type type type_map
      then on token_lbrace schema_annotation bare
      else on token_lbrace (fail (codes "Base annotation is only valid for int and float")) bare

  abbrev pub annotation_of : DeclType → Token → Parse TypeAnnotation
  annotation_of type name =
      if same_type type type_unknown
      then fail (codes "Unknown type name")
      else next >> annotation_tail type name

  unfoldable pub parse_type_annotation : Parse TypeAnnotation
  unfolding is_type_token parse_type_name same_type annotation_tail
  parse_type_annotation p =
      (if is_type_token p.current_token.type
          then annotation_of (parse_type_name (literal_or_empty p.current_token)) p.current_token
          else returns_null)
        p

  -- An annotation, the gap behind it, and the name, which is passed over.
  unfoldable pub typed_name : Parse (TypeAnnotation × Option Bytes)
  unfolding parse_type_annotation require_space_only_gap
  typed_name = do
    ta ← parse_type_annotation
    require_space_only_gap ta.end_tok
    p ← here
    next
    pure (ta, p.current_token.literal)

  unfoldable pub parse_typed_ident_expr : Parse Expr
  unfolding typed_name
  parse_typed_ident_expr = do
    p ← here
    (ta, name) ← typed_name
    pure (
        expr_typed_ident ta.type ta.base name ta.schema_expr p.current_token.line
          p.current_token.column)

  -- Behind the name of a parameter.
  abbrev pub param_default : Bool → TypeAnnotation → Option Bytes → Parse Param
  param_default coerced ta name =
      on token_equals
        (expression >>= λ value.
          pure (param ta.type ta.base name coerced (an_expr value) ta.schema_expr))
        (pure (param ta.type ta.base name coerced no_expr ta.schema_expr))

  abbrev pub named_param : Bool → Parse Param
  named_param coerced = do (ta, name) ← typed_name; param_default coerced ta name

  -- Behind the optional `~`.
  unfoldable pub typed_param : Bool → Parse Param
  unfolding is_type_token typed_name
  typed_param coerced = do
    p ← here
    if is_type_token p.current_token.type
        then named_param coerced
        else if coerced
        then fail (codes "Expected parameter type after '~'")
        else fail (codes "Expected parameter type")

  unfoldable pub parse_one_param : Parse Param
  unfolding typed_param
  parse_one_param = on token_tilde (typed_param true) (typed_param false)

  -- The loop of `parse_param_list`, in at most `n` rounds.
  unfoldable pub param_rounds : ℕ → ParamList → Parse ParamList
  unfolding parse_one_param param_list_add
  param_rounds zero ps p = (stuck, p)
  param_rounds (suc n) ps p =
      (parse_one_param >>= λ q.
      on token_comma (param_rounds n (param_list_add ps q)) (pure (param_list_add ps q)))
        p

  unfoldable pub parse_param_list : ℕ → Parse ParamList
  unfolding param_rounds
  parse_param_list rounds = do
    p ← here
    if is token_rparen p.current_token.type then pure no_params else param_rounds rounds no_params
