-- ===== src/Parser/Spaces.antt =====
-- src/parser.c: the scan of the gap between a type and a name on different lines.
use prefix.Base.{
  ℕ, zero, suc, ◌+◌, ◌-◌, ◌≤◌, ◌<◌, Bool, true, false, ◌&&◌, Option, none, some, ◌≡◌, refl, arith,
  ◌==◌, ltb, leb, if_both, Bytes, length, get_or, drop, if◌then◌else◌,
}
use prefix.Lexer.Line.{line_text}
use prefix.Parser.Gap.{
  advance_past_line_terminator, past_caret, gap_rounds, accepted, scan_gap_characters,
}

advance_past_line_terminator-le : (src : Bytes) (at : ℕ) → at ≤ advance_past_line_terminator src at
unfolding advance_past_line_terminator
advance_past_line_terminator-le src at =
    let two : at ≤ at + 2 = omega arith in
    let one : at ≤ at + 1 = omega arith in
    let none_more : at ≤ at = omega arith in
    if_both (λ n. at ≤ n) (ltb at (length src) && get_or src at 0 == b'\r')
      (if_both (λ n. at ≤ n) (ltb (at + 1) (length src) && get_or src (at + 1) 0 == b'\n') two one)
      (if_both (λ n. at ≤ n) (ltb at (length src) && get_or src at 0 == b'\n') one none_more)

-- A position behind `at`, where there is one.
Behind : ℕ → Option ℕ → Type 0
Behind at o = (next : ℕ) → o ≡ some next → at < next

some-Behind : (at n : ℕ) → at < n → Behind at (some n)
unfolding Behind
some-Behind at n lt next e = let same : n ≡ next = cc in omega (arith, lt, same)

none-Behind : (at : ℕ) → Behind at none
unfolding Behind
none-Behind at next e = cc

-- A round goes on by one byte at least.
past_caret-Behind : (src : Bytes) (at : ℕ) → Behind at (past_caret src at)
past_caret-Behind src at =
    let next = get_or src (at + 1) 0 in
    let comment_end = at + 2 + length (line_text (drop (at + 2) src)) in
    let return_end : ℕ =
      if ltb (at + 2) (length src) && get_or src (at + 2) 0 == b'\n' then at + 3 else at + 2 in
    let return_lt : at < return_end =
      if_both (λ n. at < n) (ltb (at + 2) (length src) && get_or src (at + 2) 0 == b'\n')
        (omega arith) (omega arith) in
    if_both (Behind at) (leb (length src) (at + 1)) (none-Behind at) (
      if_both (Behind at) (next == b'\n') (some-Behind at (at + 2) (omega arith)) (
        if_both (Behind at) (next == b'\r') (some-Behind at return_end return_lt) (
          if_both (Behind at) (next == b'!')
            (some-Behind at (advance_past_line_terminator src comment_end)
              (omega (arith, advance_past_line_terminator-le src comment_end)))
            (none-Behind at))))

-- So many rounds come to the end.
gap_rounds-ends :
    (n : ℕ) (src : Bytes) (at end : ℕ)
    → end ≤ at + n
    → gap_rounds n src at end ≡ some (accepted (gap_rounds n src at end))
unfolding gap_rounds Behind
gap_rounds-ends zero src at end h = let past : leb end at ≡ true = ground arith in rw past refl
gap_rounds-ends (suc n) src at end h =
    let Ended : Option Bool → Type 0 = λ o. o ≡ some (accepted o) in
    let more : (next : ℕ) → at < next → Ended (gap_rounds n src next end) =
      λ next lt. gap_rounds-ends n src next end (omega arith) in
    if_both Ended (leb end at) refl (
      if_both Ended (get_or src at 0 == b' ') (more (at + 1) (omega arith)) (
        if_both Ended (get_or src at 0 == b'^')
          (by_caret (past_caret src at) (past_caret-Behind src at) more) refl))
  where
    rounds_from : Option ℕ → Option Bool
    rounds_from o = elim o as (λ _. Option Bool) [
      | some next ↦ gap_rounds n src next end
      | none ↦ some false
    ]

    by_caret :
        (o : Option ℕ)
        → Behind at o
        → ((next : ℕ)
            → at < next
            → gap_rounds n src next end ≡ some (accepted (gap_rounds n src next end)))
        → rounds_from o ≡ some (accepted (rounds_from o))
    by_caret none behind more = refl
    by_caret (some next) behind more = more next (behind next refl)

-- The scan of a gap over several lines ends on every source and between all positions: its loop is
-- at its end within as many rounds as there are bytes up to the name, and its answer then is the one
-- of `scan_gap_characters`.
pub scan_gap_characters-ends :
    (src : Bytes) (left_end_offset right_start_offset : ℕ)
    → gap_rounds (right_start_offset - left_end_offset) src left_end_offset right_start_offset
      ≡ some (scan_gap_characters src left_end_offset right_start_offset)
unfolding scan_gap_characters
scan_gap_characters-ends src left_end_offset right_start_offset =
    gap_rounds-ends (right_start_offset - left_end_offset) src left_end_offset right_start_offset
      (omega arith)
