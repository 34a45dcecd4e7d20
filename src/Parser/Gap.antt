-- ===== src/Parser/Gap.antt =====
-- src/parser.c: the gap between a type and the name behind it.
use prefix.Base.{
  ℕ, zero, suc, ◌+◌, ◌-◌, Bool, true, false, ◌&&◌, ◌||◌, not, none, some, Option, ◌==◌, ltb, leb,
  if◌then◌else◌, Bytes, length, get_or, drop,
}
use prefix.Base.Int.{ℤ, pos, negsuc, sub_ℕ}
use prefix.Lexer.Line.{line_scan, line_text, lexer_get_line}
use prefix.Parser.Kinds.{is}
use prefix.Token.{Token, token_ident, token_lparen, token_func, token_thread}

unfoldable pub token_source_width : Token → ℕ
token_source_width t = elim t.literal as (λ _. ℕ) [
  | some text ↦ length text
  | none ↦ if is token_func t.type then 4 else if is token_thread t.type then 3 else 0
]

unfoldable pub advance_past_line_terminator : Bytes → ℕ → ℕ
advance_past_line_terminator src at =
    let c = get_or src at 0 in
    if ltb at (length src) && c == b'\r'
    then if ltb (at + 1) (length src) && get_or src (at + 1) 0 == b'\n' then at + 2 else at + 1
    else if ltb at (length src) && c == b'\n'
    then at + 1
    else at

-- The position behind a caret at `at` and what it continues over; `none` where nothing may follow.
abbrev pub past_caret : Bytes → ℕ → Option ℕ
past_caret src at =
    let next = get_or src (at + 1) 0 in
    if leb (length src) (at + 1)
    then none
    else if next == b'\n'
    then some (at + 2)
    else if next == b'\r'
    then some
        (if ltb (at + 2) (length src) && get_or src (at + 2) 0 == b'\n' then at + 3 else at + 2)
    else if next == b'!'
    then some (advance_past_line_terminator src (at + 2 + length (line_text (drop (at + 2) src))))
    else none

-- `n` rounds of the loop of `scan_gap_characters`: whether the gap is accepted, or `none` where the
-- loop is not at its end by then.
unfoldable pub gap_rounds : ℕ → Bytes → ℕ → ℕ → Option Bool
unfolding line_text advance_past_line_terminator
gap_rounds zero src at right_start_offset = if leb right_start_offset at then some true else none
gap_rounds (suc n) src at right_start_offset =
    let after_space = gap_rounds n src (at + 1) right_start_offset in
    let after_caret = elim (past_caret src at) as (λ _. Option Bool) [
      | some next ↦ gap_rounds n src next right_start_offset
      | none ↦ some false
    ] in
    let ch = get_or src at 0 in
    if leb right_start_offset at
    then some true
    else if ch == b' '
    then after_space
    else if ch == b'^'
    then after_caret
    else some false

abbrev pub accepted : Option Bool → Bool
accepted none = false
accepted (some b) = b

-- As many rounds as there are bytes up to the name.
unfoldable pub scan_gap_characters : Bytes → ℕ → ℕ → Bool
unfolding gap_rounds
scan_gap_characters src left_end_offset right_start_offset =
    accepted
      (gap_rounds (right_start_offset - left_end_offset) src left_end_offset right_start_offset)

-- `(column > 0) ? (column - 1) : 0`
abbrev pub column_offset : ℤ → ℕ
column_offset (pos c) = c - 1
column_offset (negsuc _) = 0

abbrev pub add_width : ℤ → ℕ → ℤ
add_width (pos c) width = pos (c + width)
add_width (negsuc c) width = sub_ℕ width (c + 1)

-- The tokens stand on different lines.
abbrev pub lines_gap : Bytes → Token → Token → Bool
lines_gap source left right =
    let width = token_source_width left in
    let (left_line_start, left_line) = line_scan source 0 1 left.line in
    let (right_line_start, right_line) = line_scan source 0 1 right.line in
    let left_end_offset = left_line_start + column_offset left.column + width in
    let right_start_offset = right_line_start + column_offset right.column in
    not (width == 0)
    && (left_line == left.line
        && (right_line == right.line
            && (ltb left_end_offset right_start_offset
                && scan_gap_characters source left_end_offset right_start_offset)))

-- The bytes at `line_text[i]` and the next `n - 1` are spaces.
unfoldable pub all_spaces : Bytes → ℕ → ℕ → Bool
all_spaces text i zero = true
all_spaces text i (suc n) = get_or text i 0 == b' ' && all_spaces text (i + 1) n

-- The columns from `start` up to the one before `end`. One below 1 is out of the line, where the
-- source would read before its first byte.
abbrev pub columns_gap : Bytes → ℤ → ℤ → Bool
columns_gap text (pos (suc start)) (pos (suc end)) =
    ltb start end && (leb end (length text) && all_spaces text start (end - start))
columns_gap text _ _ = false

-- Whether the gap is accepted; where it is not, the caller reports the message.
unfoldable pub gap_holds : Bytes → Token → Token → Bool
unfolding token_source_width line_scan scan_gap_characters lexer_get_line all_spaces
gap_holds source left right =
    (is token_ident right.type || is token_lparen right.type)
    && (if not (left.line == right.line)
        then lines_gap source left right
        else not (token_source_width left == 0)
          && columns_gap (lexer_get_line source left.line)
              (add_width left.column (token_source_width left)) right.column)
