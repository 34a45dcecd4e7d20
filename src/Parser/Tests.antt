-- ===== src/Parser/Tests.antt =====
-- src/parser.c: the tokens of a concrete source.
use prefix.Base.{◌≡◌, some, none, Bytes, codes, ◌∷◌, ◌++◌}
use prefix.Base.Int.{pos}
use prefix.Lexer.State.{lexer_init}
use prefix.Parser.Cursor.{Parser, parser_init, advance, skip_newlines}
use prefix.Parser.Ends.Grammar.{
  Parsed, parser_parse-Parsed, parse_statement-Ends, parse_block-Makes, Makes, size, text_of,
  begun-At,
}
use prefix.Parser.Program.{parser_parse, parse_block, statement_of, grammar}
use prefix.Parser.Reach.{Post}
use prefix.Parser.Gap.{gap_rounds, scan_gap_characters}
use prefix.Parser.Runs.{no_floats}
use prefix.Parser.Spaces.{scan_gap_characters-ends}
use prefix.Parser.Window.{
  Moved, Skipped, advance-Moved, skip_newlines-Skipped, parser_init-IsWindow,
}
use prefix.Token.{Token, token_eof, literal_null}

-- A newline, a byte that is no token, and a name.
abbrev source : Bytes
source = b'\n' ∷ codes "` x"

abbrev blank : Token
blank = record {
  type = token_eof;
  literal = none;
  literal_kind = literal_null;
  line = 0;
  column = pos 0;
}

abbrev begun : Parser
begun = parser_init blank (lexer_init source)

advance-Moved_example : Moved source 1 (advance begun)
advance-Moved_example = advance-Moved source 0 begun (parser_init-IsWindow source blank)

skip_newlines-Skipped_example : Skipped source 0 (skip_newlines begun)
skip_newlines-Skipped_example =
    skip_newlines-Skipped source 0 begun (parser_init-IsWindow source blank)

-- An assignment behind a block.
abbrev block_source : Bytes
block_source = codes "{x = 1}" ++ b'\n' ∷ codes "y = 2"

parser_parse-Parsed_example :
    Parsed (parser_parse no_floats (parser_init blank (lexer_init block_source)))
parser_parse-Parsed_example = parser_parse-Parsed no_floats block_source blank

parse_statement-Ends_example :
    Post
      (text_of source)
      0
      1
      (statement_of no_floats (size source) (grammar no_floats (size source) (size source)) begun)
parse_statement-Ends_example = parse_statement-Ends no_floats source 0 begun (begun-At source blank)

parse_block-Makes_example : Makes (
    parse_block
      (statement_of no_floats
        (size block_source)
        (grammar no_floats (size block_source) (size block_source)))
      (size block_source)
      (parser_init blank (lexer_init block_source)))
parse_block-Makes_example =
    parse_block-Makes no_floats block_source 0 (parser_init blank (lexer_init block_source))
      (begun-At block_source blank)

-- A caret and a line end between the third byte and the seventh.
scan_gap_characters-ends_example :
    gap_rounds 4 (codes "int ^\n  x") 3 7 ≡ some (scan_gap_characters (codes "int ^\n  x") 3 7)
scan_gap_characters-ends_example = scan_gap_characters-ends (codes "int ^\n  x") 3 7
