-- ===== src/Parser/Kinds.antt =====
-- src/parser.c, src/token.h: tests of a token's kind.
use prefix.Base.{ℕ, Bool, ◌==◌, ◌||◌, ◌&&◌, true, false, Bytes, codes, bytes_eq, if◌then◌else◌}
use prefix.Token.{
  TokenType, token_eof, token_error, token_newline, token_ident, token_number, token_float,
  token_string, token_fstring, token_fmt_open, token_fmt_close, token_lparen, token_rparen,
  token_lbrace, token_rbrace, token_lbracket, token_rbracket, token_langle, token_rangle,
  token_comma, token_equals, token_colon, token_at, token_tilde, token_hash, token_dot, token_dash,
  token_try, token_catch, token_if, token_elseif, token_else, token_while, token_for, token_parfor,
  token_thread, token_func, token_lambda, token_async, token_return, token_pop, token_break,
  token_continue, token_goto, token_gotopoint,
}
use prefix.Value.Types.{
  DeclType, type_bool, type_int, type_float, type_str, type_tensor, type_map, type_func,
  type_thread, type_unknown,
}
use prefix.Parser.Cursor.{Parser, literal_or_empty}

-- The kind_number of an enumerator.
abbrev kind_number : TokenType → ℕ
kind_number token_eof = 0
kind_number token_error = 1
kind_number token_newline = 2
kind_number token_ident = 3
kind_number token_number = 4
kind_number token_float = 5
kind_number token_string = 6
kind_number token_fstring = 7
kind_number token_fmt_open = 8
kind_number token_fmt_close = 9
kind_number token_lparen = 10
kind_number token_rparen = 11
kind_number token_lbrace = 12
kind_number token_rbrace = 13
kind_number token_lbracket = 14
kind_number token_rbracket = 15
kind_number token_langle = 16
kind_number token_rangle = 17
kind_number token_comma = 18
kind_number token_equals = 19
kind_number token_colon = 20
kind_number token_at = 21
kind_number token_tilde = 22
kind_number token_hash = 23
kind_number token_dot = 24
kind_number token_dash = 25
kind_number token_try = 26
kind_number token_catch = 27
kind_number token_if = 28
kind_number token_elseif = 29
kind_number token_else = 30
kind_number token_while = 31
kind_number token_for = 32
kind_number token_parfor = 33
kind_number token_thread = 34
kind_number token_func = 35
kind_number token_lambda = 36
kind_number token_async = 37
kind_number token_return = 38
kind_number token_pop = 39
kind_number token_break = 40
kind_number token_continue = 41
kind_number token_goto = 42
kind_number token_gotopoint = 43

abbrev pub is : TokenType → TokenType → Bool
is a b = kind_number a == kind_number b

unfoldable pub is_type_token : TokenType → Bool
is_type_token type = is token_ident type || (is token_func type || is token_thread type)

-- `k_types` in order; a NULL name is none of them.
unfoldable pub parse_type_name : Bytes → DeclType
unfolding bytes_eq
parse_type_name name =
    if bytes_eq name (codes "bool")
    then type_bool
    else if bytes_eq name (codes "int")
    then type_int
    else if bytes_eq name (codes "float")
    then type_float
    else if bytes_eq name (codes "str")
    then type_str
    else if bytes_eq name (codes "map")
    then type_map
    else if bytes_eq name (codes "func")
    then type_func
    else if bytes_eq name (codes "thread")
    then type_thread
    else if bytes_eq name (codes "tensor")
    then type_tensor
    else type_unknown

-- The types with an annotation in braces.
abbrev takes_braces : DeclType → Bool
takes_braces type_int = true
takes_braces type_float = true
takes_braces type_map = true
takes_braces _ = false

abbrev names_follow : TokenType → Bool
names_follow type = is token_ident type || is token_colon type

unfoldable pub starts_named_type_annotation : Parser → Bool
unfolding is_type_token parse_type_name
starts_named_type_annotation p =
    is_type_token p.current_token.type
    && (names_follow p.next_token.type
        || is token_lbrace p.next_token.type
          && takes_braces (parse_type_name (literal_or_empty p.current_token)))

unfoldable pub looks_like_func_definition : Parser → Bool
unfolding is_type_token parse_type_name
looks_like_func_definition p =
    is token_func p.current_token.type
    && (is_type_token p.next_token.type
        && (names_follow p.lookahead2_token.type
            || is token_lbrace p.lookahead2_token.type
              && takes_braces (parse_type_name (literal_or_empty p.next_token))))
