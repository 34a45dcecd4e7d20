-- ===== src/Lexer/Buffer.antt =====
-- The growing character buffers of src/lexer.c: `fmt_buffer` of the lexer, and the local buffer
-- `value` of `identifier_token` and `number_token`, each a block of `cap` bytes.
use prefix.Base.{
  ℕ, ◌+◌, ◌*◌, ◌<◌, ◌≡◌, [], ◌∷◌, ◌++◌, arith, leb, ◌==◌, if◌then◌else◌, Bytes, length,
  length-append,
}

-- The first `length bytes` cells are written; `fmt_buffer` is NULL while `cap` is 0.
pub record Buffer : Type 0 where
  pub bytes : Bytes
  pub cap : ℕ

-- `if (len + n >= cap)` the block is reallocated at double its size; `fmt_buffer` starts with 16.
unfoldable pub reserve : ℕ → Buffer → Buffer
reserve n b =
    if leb b.cap (length b.bytes + n)
    then record b { cap = if b.cap == 0 then 16 else b.cap * 2 }
    else b

-- `value[len++] = c`
unfoldable pub put : ℕ → Buffer → Buffer
put c b = record b { bytes = b.bytes ++ c ∷ [] }

unfoldable pub append : ℕ → Buffer → Buffer
unfolding reserve put
append c b = put c (reserve 1 b)

-- `fmt_buffer_len = 0`
unfoldable pub clear : Buffer → Buffer
clear b = record b { bytes = [] }

-- `capacity = 32; value = malloc(capacity); len = 0`
abbrev pub fresh : Buffer
fresh = record { bytes = []; cap = 32 }

abbrev pub no_buffer : Buffer
no_buffer = record { bytes = []; cap = 0 }

-- All that is written, with a NUL behind it, fits the block, unless there is no block yet.
abbrev pub Fits : Buffer → Type 0
Fits b = 0 < b.cap → length b.bytes < b.cap

-- Appending one character leaves room for it and for the NUL behind it.
pub append-Fits :
    (c : ℕ) (b : Buffer)
    → (0 < b.cap → length b.bytes < b.cap)
    → (b.cap ≡ 0 → b.bytes ≡ [])
    → (length (append c b).bytes < (append c b).cap) × ((append c b).bytes ≡ b.bytes ++ c ∷ [])
unfolding append
append-Fits c b fits null = rw length-append (ground (arith))
