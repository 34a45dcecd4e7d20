-- ===== src/Lib.antt =====
-- Prefix, an interpreter of the Prefix language written in C: a model of its core.
--
-- The program. `src/lexer.c` cuts a source into tokens, `src/parser.c` builds the syntax trees of
-- `src/ast.c` from them, and `src/interpreter.c` runs these, with the operators of
-- `src/builtins.c`. Names stand for values in the environments of `src/env.c`; writes to them may
-- go through a buffer that a thread drains (`src/ns_buffer.c`). Values, among them maps, tensors and
-- threads, are in `src/value.c`.
--
-- The files. A definition has the name of the C function or type that it models; a helper with
-- another name models a loop or a branch of the function below it.
--   Base      what the other files share: Boolean tests, lists over the native numbers, bytes of C
--             strings, signed integers
--   Token     `src/token.h`: the tokens
--   Ast       `src/ast.h`, `src/ast.c`: the syntax trees and the functions that build them
--   Lexer     `src/lexer.c`: Buffer (the growing text buffer), Chars (classes of bytes, keywords),
--             State (the lexer's record and its steps), Line (`lexer_get_line`), Escape and Text (string literals and
--             formatted strings), Word (names, numbers, comments, line continuations), Next
--             (`lexer_next_token`), Goes (how far each of these moves the lexer), Stream (the tokens
--             of a source), Tests
--   Value     `src/value.h`: the tagged value; Types: declared types, of `src/ast.h` and
--             `src/value.c`
--   Map       `src/value.c`: Key (hash and equality of keys), Table (the ordered hash table and its
--             operations), Links (chains and their rebuild), Find, Valid (the invariant), Append,
--             Methods (set and get), Delete, Schema (`value_map_matches`), Tests
--   Tensor    `src/value.c`: Index (tensors, their creation, reads by indices), Slice
--             (`value_tensor_slice`), Shape (sizes, strides and positions), Get (reads against a
--             reference), Part (the ranges of a slice), Positions (positions and their indices),
--             Sliced (the elements of a slice), Pointer (writes to elements), Tests
--   Env       `src/env.c`: Table (the entries and the hash table of one environment), Store (the
--             parents, aliases and reads), Write (the direct writes), Places (where entries stand),
--             Closed (what each write leaves), History (sequences of writes), Commands (the same with
--             the freezing calls), Update (lookups behind a write), Readback (reads behind an
--             assignment and behind the freezing calls), Slots (the free slots of the hash table),
--             Find (the table against a linear scan), Entries and Typed (declared types), Tests
--   NsBuffer  `src/ns_buffer.c`: Op (an operation and its execution), System (the buffer, its prepare
--             thread, the writers and the readers, and their steps), Refinement (any interleaving
--             against one write after the other), Locks (`env_mtx`), Program (the writes that go
--             past the buffer), Pending (the symbol threads), Progress (the prepare thread on its
--             own), Route (the public writes of `src/env.c`), Tests
--   Parser    `src/parser.c`: Cursor (the parser's record, its tokens and errors), Kinds (tests of a
--             token's kind), Gap (what may stand between a type and a name), Outcome (what a parse
--             function returns, and the order of its steps), Annotation (types and parameters),
--             Suffix (indices and calls), Primary (expressions), Control (`if`, loops, `try`),
--             Statement, Program (blocks and programs), Window (the parser's tokens against those of
--             the source), Spaces (the scan of a gap to its end), Reach (positions in a source and the
--             record of errors), Ends (one file for each of Annotation to Program on how far it goes,
--             Steps and Skips for what they share, Grammar for the whole), Runs, Tests
--   Number    `src/builtins.c`, `src/parser.c`: Text (integers as text with the prefix of a base, the
--             tables of digits), Digits, RoundTrip, Literal and Float (literals), Tests
--
-- How the code is modelled.
--   Bytes are numbers, a C string is the list of its bytes. A `char *` that may be NULL is an Option.
--   The codepoint of an escape is an `int` of 32 bits that wraps. A 64-bit hash wraps as well. An
--   `int64_t` and a double are their 64 bits. Lines, columns, lengths and capacities are numbers
--   with no bound, but where the code computes with them on the way to a size (`map_rehash` and its
--   callers) the wrap at 2 ^ 64 is written out.
--   The text of a formatted string is cut at the first NUL that an escape puts into it, as by
--   `strdup`. The scan of a gap over several lines runs for as many rounds as there are bytes in it;
--   `gap_rounds` is `none` where these are not enough.
--   The lexer is a record that each step takes and returns. Its loops run on the bytes that are left,
--   and each round but the last moves on by one byte at least, so these are enough. The flag
--   `overread` records a read behind the terminating NUL, which the code does not guard.
--   A container, a function and a thread in a value is the address of its block. `value_map_set` and
--   `env_assign_direct` store copies of what they are given: in the model these copies are their
--   arguments. Index -1 and NULL in the chains of a map are `none`.
--   `map_find_index` cuts the index that it gives to an `int`, as the code does, and every caller
--   takes a negative one for a missing key. Beyond 2 ^ 31 items this goes wrong in the code, so the
--   theorems on maps have a bound on the number of items.
--   A map's search along a chain runs for as many rounds as there are items: in a valid map the
--   indices fall along a chain. `long_index` is `none` where these are not enough. A capacity doubles in 64 rounds at most.
--   `parser_init` leaves the parser's previous token as it was, so it is an argument. The loops of
--   `advance` and `skip_newlines` run for three rounds per byte of the source and a few more, since the
--   lexer gives EOF within as many tokens. A test for a kind of token in `match` and `consume` is a
--   predicate.
--   A node of a syntax tree is built when its parts are known, where the code builds it first and
--   fills it in. A parse function takes the parser and returns an outcome with the parser: a result,
--   NULL (also for false and TYPE_UNKNOWN, which every caller takes in the same way), or `stuck`
--   where the fuel is used up, which the code has not. `parse_expression` and `parse_block`, through
--   which the functions call each other, are arguments of the others; `grammar` gives them to a
--   depth. The loops and the depth are bounded by the same number as those of `advance`: each round
--   and each call through the two passes a token. `report_error` leaves out what it prints. A name
--   that the code takes from a token's literal without a test is the empty one where the literal
--   is NULL. The arithmetic on doubles in a float literal is an argument, the record Doubles.
--   An integer that is printed is a ℤ. The loop that prints its digits has the 159 characters that
--   the code's buffer has. The digit tables are the texts of their characters in the order of the
--   values.
--   The data of a tensor is a list; a read beyond it, which the code does not guard, is a result of
--   its own, and so is a failing `assert`. Offsets wrap at 2 ^ 64.
--   An environment is a number into a store, where a parent comes before its children, so that a
--   walk along the parents has as many rounds as there are environments. An `EnvEntry *` is the
--   number of an environment, an index and the entry read there. The slots of the hash table hold
--   indices; its loops run for as many rounds as there are slots. Where these are not enough, in a
--   table with no free slot and no entry of the name, the code loops for ever: `env_ht_probe` is
--   `none` there, and `env_ht_find` finds nothing. The capacity, a power of 2,
--   makes `& mask` the same as `% ht_capacity`. Alias chains are followed 257 times, the code's own
--   bound. `env_set_alias_direct` reads the final target before it creates an entry, where the code
--   reads it again through a pointer that the creation may have made stale.
--   The threads around the buffer of pending writes take turns: what a thread does between locking
--   and unlocking a mutex is one step, and the steps come in any order. `env_mtx`, which is held
--   across steps, has a holder. The steps of NsBuffer/System are those of the buffer's own threads
--   alone. NsBuffer/Program adds what goes past the buffer: `env_set_alias_cross`, which any thread
--   runs with no mutex, and the direct writes once the buffer no longer runs. No steps are the making
--   and the release of environments, and `deser_env` of `src/builtins.c`, which fills in the
--   environments that it makes. A thread that waits for a condition makes no step until it holds, so
--   no wakeup is lost in the model. The numbers of the readers and of the operations have no bound.
--   `assign_index_chain` of `src/interpreter.c` is any function of its arguments and the store.
--
-- What is not modelled: failing allocations, other locks, reference counts and frees, those of
-- `src/ast.c` among them; threads and copies of `src/value.c`; the public reads of `src/env.c` and
-- their snapshots; `ns_buffer_assign_index` and the end of `ns_buffer_shutdown`;
-- `src/interpreter.c`, and all else of `src/builtins.c`; the loader of extensions
-- (`src/extensions.c`), the command line (`src/main.c`), the Windows shim, and the libraries under
-- `lib/` and `ext/`, which are calls of the host.
pub mod Base
pub mod Token
pub mod Ast
pub mod Lexer
pub mod Value
pub mod Map
pub mod Tensor
pub mod Env
pub mod Parser
pub mod NsBuffer
pub mod Number
