-- ===== src/Lexer/Line.antt =====
-- src/lexer.c: the text of a line, `lexer_get_line`.
use prefix.Base.{
  ℕ, ◌+◌, Bool, ◌&&◌, ◌||◌, [], ◌∷◌, ◌==◌, ltb, if◌then◌else◌, not, Bytes, drop, length, leb,
}

-- From the position `idx` in the line `cur_line`: the first position in the line `line_num`, or the
-- end, with the line that is reached.
unfoldable pub line_scan : Bytes → ℕ → ℕ → ℕ → ℕ × ℕ
line_scan [] idx cur_line line_num = (idx, cur_line)
line_scan (c ∷ s) idx cur_line line_num =
    let rest = line_scan s (idx + 1) (if c == b'\n' then cur_line + 1 else cur_line) line_num in
    if ltb cur_line line_num then rest else (idx, cur_line)

-- The bytes up to a line terminator.
unfoldable pub line_text : Bytes → Bytes
line_text [] = []
line_text (c ∷ s) = if not (c == b'\n') && not (c == b'\r') then c ∷ line_text s else []

is_blank : ℕ → Bool
is_blank c = c == b' ' || (c == b'\t' || (c == b'\r' || c == b'\n'))

unfoldable pub trim_end : Bytes → Bytes
unfolding is_blank
trim_end [] = []
trim_end (c ∷ s) = elim (trim_end s) as (λ _. Bytes) [
  | [] ↦ if is_blank c then [] else c ∷ []
  | d ∷ t ↦ c ∷ d ∷ t
]

unfoldable pub lexer_get_line : Bytes → ℕ → Bytes
unfolding line_scan line_text trim_end
lexer_get_line source line_num =
    let (idx, cur_line) = line_scan source 0 1 line_num in
    if line_num == 0 || (not (cur_line == line_num) || leb (length source) idx)
    then []
    else trim_end (line_text (drop idx source))
