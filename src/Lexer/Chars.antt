-- ===== src/Lexer/Chars.antt =====
-- src/lexer.c: the classifiers of characters, and the keywords.
use prefix.Base.{
  ℕ, ◌+◌, ◌-◌, Bool, true, ◌||◌, Option, none, some, List, [], ◌∷◌, ◌==◌, if◌then◌else◌, Bytes,
  codes, bytes_eq, contains, within,
}
use prefix.Token.{
  TokenType, token_ident, token_try, token_catch, token_if, token_elseif, token_else, token_while,
  token_for, token_parfor, token_thread, token_func, token_lambda, token_async, token_return,
  token_pop, token_break, token_continue, token_goto, token_gotopoint,
}

-- The `KEYWORD` lines, in their order.
abbrev pub keywords : List (Bytes × TokenType)
keywords =
    (codes "try", token_try)
    ∷ (codes "catch", token_catch)
    ∷ (codes "if", token_if)
    ∷ (codes "elseif", token_elseif)
    ∷ (codes "else", token_else)
    ∷ (codes "while", token_while)
    ∷ (codes "for", token_for)
    ∷ (codes "parfor", token_parfor)
    ∷ (codes "thread", token_thread)
    ∷ (codes "func", token_func)
    ∷ (codes "LAMBDA", token_lambda)
    ∷ (codes "async", token_async)
    ∷ (codes "return", token_return)
    ∷ (codes "pop", token_pop)
    ∷ (codes "break", token_break)
    ∷ (codes "continue", token_continue)
    ∷ (codes "goto", token_goto)
    ∷ (codes "gotopoint", token_gotopoint)
    ∷ []

find_keyword : List (Bytes × TokenType) → Bytes → TokenType
find_keyword [] text = token_ident
find_keyword ((word, type) ∷ rest) text =
    if bytes_eq text word then type else find_keyword rest text

unfoldable pub check_keyword : Bytes → TokenType
unfolding find_keyword bytes_eq
check_keyword = find_keyword keywords

-- `none` stands for -1.
unfoldable pub hex_digit : ℕ → Option ℕ
hex_digit c =
    if within b'0' b'9' c
    then some (c - b'0')
    else if within b'a' b'f' c
    then some (c - b'a' + 10)
    else if within b'A' b'F' c
    then some (c - b'A' + 10)
    else none

unfoldable pub is_base_prefix_char : ℕ → Bool
is_base_prefix_char c =
    c == b'b'
    || c == b'o'
    || c == b'd'
    || c == b'x'
    || c == b't'
    || c == b'c'
    || c == b's'
    || c == b'r'

unfoldable pub is_number_body_char : ℕ → Bool
is_number_body_char c =
    if within b'0' b'9' c
    then true
    else if within b'A' b'Z' c
    then true
    else if within b'a' b'z' c
    then true
    else c == b'+' || c == b'_'

-- `strchr` finds the terminating NUL too.
unfoldable pub is_identifier_start_char : ℕ → Bool
unfolding contains
is_identifier_start_char c =
    c == 0 || contains (codes "abcdefghijklmnopqrstuvwxyz/ABCDEFGHIJKLMNOPQRSTUVWXYZ$%&_+|?*") c

unfoldable pub is_identifier_body_char : ℕ → Bool
unfolding contains
is_identifier_body_char c =
    c == 0
    || contains (codes "abcdefghijklmnopqrstuvwxyz1234567890/ABCDEFGHIJKLMNOPQRSTUVWXYZ$%&_+|?*-") c
