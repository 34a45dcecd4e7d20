-- ===== src/Lexer/State.antt =====
-- src/lexer.h and src/lexer.c: the lexer's state, and the primitives that read and advance it.
use prefix.Base.{
  ℕ, ◌+◌, Bool, false, ◌&&◌, ◌||◌, Option, none, some, ltb, leb, ◌==◌, if◌then◌else◌, Bytes,
  until_nul, length, get_or, drop,
}
use prefix.Base.Int.{ℤ, sub_ℕ}
use prefix.Lexer.Buffer.{Buffer, append, clear, no_buffer}
use prefix.Token.{
  TokenType, token_eof, token_error, token_fstring, literal_null, literal_static, literal_heap,
  Token,
}

-- `overread` is no field of the source: it records that a byte behind the terminating NUL was read.
pub record Lexer : Type 0 where
  pub source : Bytes
  pub current : ℕ
  pub line : ℕ
  pub column : ℕ
  pub pending_token : Token
  pub has_pending : Bool
  pub in_fmt_string : Bool
  pub fmt_mode : Bool
  pub fmt_depth : ℕ
  pub fmt_quote : ℕ
  pub fmt_buffer : Buffer
  pub overread : Bool

abbrev pub source_len : Lexer → ℕ
source_len lx = length lx.source

-- `source[i]`; the terminating NUL stands behind the last byte.
abbrev pub byte_at : Lexer → ℕ → ℕ
byte_at lx i = get_or lx.source i 0

-- The byte order mark EF BB BF is skipped.
strip_bom : Bytes → Bytes
strip_bom s =
    if leb 3 (length s) && (get_or s 0 0 == 0xEF && get_or s 1 0 == 0xBB && get_or s 2 0 == 0xBF)
    then drop 3 s
    else s

unfoldable pub lexer_init : Bytes → Lexer
unfolding strip_bom
lexer_init source = record {
  source = strip_bom source;
  current = 0;
  line = 1;
  column = 1;
  pending_token = record {
    type = token_eof;
    literal = none;
    literal_kind = literal_null;
    line = 0;
    column = ℤ.pos 0;
  };
  has_pending = false;
  in_fmt_string = false;
  fmt_mode = false;
  fmt_depth = 0;
  fmt_quote = 0;
  fmt_buffer = no_buffer;
  overread = false;
}

abbrev pub is_at_end : Lexer → Bool
is_at_end lx = leb (source_len lx) lx.current

-- The line and the column behind a byte.
abbrev pub line_after : ℕ → ℕ → ℕ
line_after c line = if c == b'\n' then line + 1 else line

abbrev pub column_after : ℕ → ℕ → ℕ
column_after c column = if c == b'\n' then 1 else column + 1

-- The byte read is `byte_at lx lx.current`.
unfoldable pub advance : Lexer → Lexer
advance lx =
    let c = byte_at lx lx.current in
    record lx {
      current = lx.current + 1;
      line = line_after c lx.line;
      column = column_after c lx.column;
      overread = lx.overread || ltb (source_len lx) lx.current;
    }

-- Both tests return NUL past the end, which is what `byte_at` does.
unfoldable pub peek : Lexer → ℕ
peek lx = if is_at_end lx then 0 else byte_at lx lx.current

unfoldable pub peek_next : Lexer → ℕ
peek_next lx = if leb (source_len lx) (lx.current + 1) then 0 else byte_at lx (lx.current + 1)

-- The cases of `make_token`: an empty text is duplicated as it stands, a text of one byte is
-- taken from the static pool, any other is copied; a NULL start gives a NULL literal.
unfoldable pub make_token : Lexer → TokenType → Option Bytes → Token
make_token lx type none = record {
  type = type;
  literal = none;
  literal_kind = literal_null;
  line = lx.line;
  column = sub_ℕ lx.column 0;
}
make_token lx type (some text) = record {
  type = type;
  literal = some text;
  literal_kind = if length text == 1 then literal_static else literal_heap;
  line = lx.line;
  column = sub_ℕ lx.column (length text);
}

unfoldable pub error_token : Lexer → Bytes → Token
error_token lx message = record {
  type = token_error;
  literal = some message;
  literal_kind = literal_heap;
  line = lx.line;
  column = ℤ.pos lx.column;
}

unfoldable pub fmt_buffer_append : Lexer → ℕ → Lexer
unfolding append
fmt_buffer_append lx c = record lx { fmt_buffer = append c lx.fmt_buffer }

-- The literal is a `strdup` of the buffer, which a NUL in it cuts; the column counts all its bytes.
unfoldable pub flush_fmt_buffer : Lexer → Token × Lexer
unfolding clear until_nul
flush_fmt_buffer lx = (
  record {
    type = token_fstring;
    literal = some (until_nul lx.fmt_buffer.bytes);
    literal_kind = literal_heap;
    line = lx.line;
    column = sub_ℕ lx.column (length lx.fmt_buffer.bytes);
  },
  record lx { fmt_buffer = clear lx.fmt_buffer },
)

unfoldable pub fmt_error : Lexer → Bytes → Token × Lexer
unfolding error_token
fmt_error lx msg = (error_token lx msg, record lx { in_fmt_string = false })
