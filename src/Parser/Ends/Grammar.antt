-- ===== src/Parser/Ends/Grammar.antt =====
-- src/parser.c: the parser ends on every source.
use prefix.Ast.{Stmt}
use prefix.Base.{
  ℕ, zero, suc, ◌+◌, ◌*◌, ◌<◌, Bool, true, false, ◌≡◌, refl, ◌∙◌, ap, arith, ◌⊎◌, inl, inr,
  Bool-cases, Bytes, ◌==◌, ==_iff,
}
use prefix.Lexer.State.{source_len, lexer_init}
use prefix.Number.Float.{Doubles}
use prefix.Parser.Cursor.{Parser, parser_init}
use prefix.Parser.Ends.Annotation.{Consumes, Runs}
use prefix.Parser.Ends.Skips.{lines_then, within_bound}
use prefix.Parser.Ends.Primary.{parse_call-Post}
use prefix.Parser.Ends.Program.{parse_block-Post, program_rounds-Post}
use prefix.Parser.Ends.Statement.{parse_statement-Post}
use prefix.Parser.Ends.Steps.{bind-Post, here_then, pure-Post}
use prefix.Parser.Kinds.{is}
use prefix.Parser.Outcome.{Outcome, made}
use prefix.Parser.Program.{parse_block, statement_of, grammar, program_of, parser_parse}
use prefix.Parser.Reach.{Text, Recorded, At, Post, makes, nulls}
use prefix.Parser.Window.{token_at, eof_near, parser_init-IsWindow}
use prefix.Token.{Token, TokenType, token_eof}

module _ {t : Text} (d : Doubles) {rounds : ℕ} (enough : t.last < rounds) where
  -- At a token with fewer tokens behind it than the depth, the functions need no more.
  grammar-Ends :
      (depth lo : ℕ)
      → t.last < lo + depth
      → Consumes t lo (grammar d rounds depth).expression × Runs t lo (grammar d rounds depth).block
  unfolding grammar
  grammar-Ends zero lo h =
      (λ n p le a. absurd (omega (arith, a.within)), λ n p le a. absurd (omega (arith, a.within)))
  grammar-Ends (suc depth) lo h = (
    λ n p le a.
        let (ex, bl) = grammar-Ends depth (suc n) (omega arith) in
        parse_call-Post ex bl enough d a (omega arith),
    λ n p le a.
        parse_block-Post {lo = n}
          (λ k q le' b.
            parse_statement-Post
              (λ j r le'' c.
                let (ex, bl) = grammar-Ends depth (suc j) (omega arith) in
                parse_call-Post ex bl enough d c (omega arith))
              (grammar-Ends depth (suc k) (omega arith)).1 enough b)
          rounds a (omega arith) enough,
  )

  statement_of-Consumes :
      (depth lo : ℕ)
      → t.last < lo + depth
      → Consumes t lo (statement_of d rounds (grammar d rounds depth))
  statement_of-Consumes depth lo h n p le a =
      parse_statement-Post
        (λ j r le' b.
          let (ex, bl) = grammar-Ends depth (suc j) (omega arith) in
          parse_call-Post ex bl enough d b (omega arith))
        (grammar-Ends depth (suc n) (omega arith)).1 enough a

  program_of-Post :
      (depth : ℕ) {n : ℕ} {p : Parser}
      → At t n p
      → t.last < depth
      → Post t (suc t.last) t.last (program_of d rounds depth p)
  unfolding program_of
  program_of-Post depth a h = here_then _ (
      lines_then _ a (λ q s.
        bind-Post {lo' = suc t.last} {hi' = t.last} _ _
          (program_rounds-Post (statement_of-Consumes depth zero (omega arith)) rounds _ s.there
            (omega arith) (omega arith))
          (omega arith) (λ list k q' le b. pure-Post _ b le)))

-- The least number at which a test holds, below a bound.
search :
    (test : ℕ → Bool) (n : ℕ)
    → ((m : ℕ) × (m < n) × (test m ≡ true) × ((j : ℕ) → j < m → test j ≡ false))
      ⊎ ((j : ℕ) → j < n → test j ≡ false)
search test zero = inr (λ j lt. absurd (omega arith))
search test (suc n) = elim (search test n) [
  | inl (m, lt, holds, first) ↦ inl (m, omega arith, holds, first)
  | inr none_below ↦ elim (Bool-cases (test n)) [
    | inl here ↦ inl (n, omega arith, here, none_below)
    | inr fails ↦ inr (λ j lt. elim (Bool-cases (j == n)) [
      | inl last ↦ ap test ((==_iff j n).0 last) ∙ fails
      | inr other ↦ none_below j (ground arith)
    ])
  ]
]

pub eof_only : (type : TokenType) → is token_eof type ≡ true → type ≡ token_eof
eof_only token_eof h = refl
eof_only _ h = cc

-- The first EOF token of a source.
pub first_eof :
    (source : Bytes)
    → (m : ℕ) × (m < 3 * source_len (lexer_init source) + 8)
      × (is token_eof (token_at source m).type ≡ true)
      × ((j : ℕ) → j < m → is token_eof (token_at source j).type ≡ false)
first_eof source =
    elim (search (λ n. is token_eof (token_at source n).type)
      (3 * source_len (lexer_init source) + 8)) [
        | inl found ↦ found
        | inr nowhere ↦
            let (m, lt, e) = eof_near source 0 in
            let there : is token_eof (token_at source (0 + m)).type ≡ true = ap (is token_eof) e in
            absurd (cc (nowhere (0 + m) (omega (arith, lt)), there))
      ]

abbrev pub text_of : Bytes → Text
text_of source =
    let (m, lt, holds, first) = first_eof source in
    record { source = source; last = m; at_last = eof_only _ holds; first = first; near = lt }

-- A whole program was parsed: a tree was made, the parser is at EOF, and its record of errors is
-- consistent.
pub record Parsed (r : Outcome Stmt × Parser) : Type 0 where
  pub tree : Stmt
  pub result : r.0 ≡ made tree
  pub at_eof : r.1.current_token.type ≡ token_eof
  pub recorded : Recorded r.1

abbrev pub begun : Bytes → Token → Parser
begun source previous = parser_init previous (lexer_init source)

pub begun-At : (source : Bytes) (previous : Token) → At (text_of source) 0 (begun source previous)
unfolding parser_init
begun-At source previous = record {
  window = parser_init-IsWindow source previous;
  within = omega arith;
  recorded = record { message = refl; panics = λ h. cc };
}

Post-Parsed : {t : Text} {r : Outcome Stmt × Parser} → Post t (suc t.last) t.last r → Parsed r
Post-Parsed {t} (makes {a} {p} h) = record {
  tree = a;
  result = refl;
  at_eof =
      ap (λ s. s.type) h.there.window.0
      ∙ ap (λ n. (token_at t.source n).type)
          (let last : h.to ≡ t.last = omega (arith, h.forward, h.there.within) in last)
      ∙ t.at_last;
  recorded = h.there.recorded;
}
Post-Parsed (nulls h e) = absurd (omega (arith, h.forward, h.there.within))

-- `parser_parse` ends on every source, makes a tree, and leaves the parser at an EOF token, with an
-- error recorded exactly where there is a message, and panic only with an error.
pub parser_parse-Parsed :
    (d : Doubles) (source : Bytes) (previous : Token)
    → Parsed (parser_parse d (parser_init previous (lexer_init source)))
unfolding parser_parse
parser_parse-Parsed d source previous =
    let a = begun-At source previous in
    Post-Parsed (program_of-Post d (within_bound a) _ a (within_bound a))

-- As many rounds, and as great a depth, as the parser allows at the tokens of a source.
abbrev pub size : Bytes → ℕ
size source = 3 * source_len (lexer_init source) + 8

-- Where the parser stands at a token of a source, not behind the first EOF, `parse_statement` ends:
-- where it makes a statement it has passed one token at least, and where it returns NULL an error is
-- recorded.
pub parse_statement-Ends :
    (d : Doubles) (source : Bytes) (n : ℕ) (p : Parser)
    → At (text_of source) n p
    → Post
        (text_of source)
        n
        (suc n)
        (statement_of d (size source) (grammar d (size source) (size source)) p)
parse_statement-Ends d source n p a =
    statement_of-Consumes d (text_of source).near (size source) n
      (omega (arith, (text_of source).near)) n p (omega arith) a

-- A tree was made.
abbrev pub Makes : Outcome Stmt × Parser → Type 0
Makes r = (tree : Stmt) × (r.0 ≡ made tree)

Post-Makes : {t : Text} {n : ℕ} {r : Outcome Stmt × Parser} → Post t (suc t.last) n r → Makes r
Post-Makes (makes {a} h) = (a, refl)
Post-Makes (nulls h e) = absurd (omega (arith, h.forward, h.there.within))

-- Where the parser stands at a token of a source, not behind the first EOF, `parse_block` ends, and
-- never returns NULL.
pub parse_block-Makes :
    (d : Doubles) (source : Bytes) (n : ℕ) (p : Parser)
    → At (text_of source) n p
    → Makes (
        parse_block
          (statement_of d (size source) (grammar d (size source) (size source)))
          (size source)
          p)
parse_block-Makes d source n p a = Post-Makes (
    parse_block-Post
      (statement_of-Consumes d (text_of source).near (size source) n
        (omega (arith, (text_of source).near)))
      (size source) a (omega arith) (text_of source).near)
