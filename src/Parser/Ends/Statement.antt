-- ===== src/Parser/Ends/Statement.antt =====
-- src/parser.c: how far statements go.
use prefix.Ast.{Expr, Stmt}
use prefix.Base.{ℕ, suc, ◌≤◌, ◌<◌, true, false, Option, ◌≡◌, refl, arith, Bytes}
use prefix.Base.Int.{ℤ}
use prefix.Parser.Annotation.{TypeAnnotation}
use prefix.Parser.Cursor.{Parser}
use prefix.Parser.Ends.Annotation.{
  Consumes, Runs, and_left, gap_open, behind_gap, parse_type_annotation-Post, typed_name-Post,
  parse_param_list-Post,
}
use prefix.Parser.Ends.Control.{
  parse_if-Post, parse_while-Post, parse_for-Post, parse_parfor-Post, parse_try-Post,
}
use prefix.Parser.Ends.Skips.{skip_while-Post, note-Post, lines_then, note_then}
use prefix.Parser.Ends.Steps.{
  bind-Post, then-Post, here_then, next_then, expect_then, expect_take, fail-Post, pure-Post,
  if-Post, on-Post, expect-Post, Post-weaken,
}
use prefix.Parser.Ends.Suffix.{parse_index_suffix-Post}
use prefix.Parser.Kinds.{
  is, is_type_token, starts_named_type_annotation, looks_like_func_definition,
}
use prefix.Parser.Outcome.{Parse, on, note}
use prefix.Parser.Reach.{Text, At, Post}
use prefix.Parser.Statement.{
  func_tail, parse_func, declared, parse_simple_typed_declaration, parse_paren_expr_stmt,
  indexed_target, opens_index, typed_statement, thread_body, thread_statement, async_statement,
  looks_like_expr, no_arguments_taken, continue_parens, continue_statement, is_assignment,
  name_assignment, expression_statement, late_declaration, other_statement, keyword_statement,
  statement_here, parse_statement,
}
use prefix.Token.{
  Token, TokenType, token_eof, token_ident, token_lparen, token_if, token_while, token_for,
  token_parfor, token_try, token_func, token_return, token_pop, token_break, token_thread,
  token_async, token_continue, token_goto, token_gotopoint,
}

module _ {t : Text} where
  no_arguments_taken-Post : {n : ℕ} {p : Parser} → At t n p → Post t n n (no_arguments_taken p)
  no_arguments_taken-Post {p = p} a = here_then _ (
      if-Post (looks_like_expr p.current_token.type) _ _
        (λ _. note_then _ _ a (λ q b bad. skip_while-Post _ b refl))
        (λ _. pure-Post _ a (omega arith)))

  continue_parens-Post : {n : ℕ} {p : Parser} → At t n p → Post t n n (continue_parens p)
  continue_parens-Post a =
      then-Post _ _ (no_arguments_taken-Post a) (omega arith)
        (λ k q lt b. Post-weaken (expect-Post _ _ b refl) lt lt)

  on_parens-Post :
      {n : ℕ} {p : Parser} (message : Bytes)
      → At t n p
      → Post t n n (on token_lparen continue_parens (note message) p)
  on_parens-Post message a =
      on-Post _ _ _ a refl
        (λ k lt b. Post-weaken (continue_parens-Post b) (omega arith) (omega arith))
        (note-Post message a)

  continue_statement-Post :
      {n : ℕ} {p : Parser}
      → At t n p
      → is token_continue p.current_token.type ≡ true
      → Post t n (suc n) (continue_statement p)
  unfolding continue_statement
  continue_statement-Post a e = here_then _ (
      next_then _ a (is token_continue) refl e (λ k lt b.
        then-Post _ _ (on_parens-Post _ b) (omega arith)
          (λ k1 q1 lt1 b1. pure-Post _ b1 (omega arith))))

module _ {t : Text} {lo rounds : ℕ} {expression : Parse Expr} {block : Parse Stmt}
    (ex : Consumes t lo expression) (bl : Runs t lo block) (enough : t.last < rounds) where
  func_tail-Post :
      {n : ℕ} {p : Parser} (tok : Token)
      → At t n p
      → lo ≤ n
      → is_type_token p.current_token.type ≡ true
      → Post t n n (func_tail rounds expression block tok p)
  func_tail-Post tok a le e =
      bind-Post _ _ (typed_name-Post ex a (omega arith) e) (omega arith) (λ r k q lt b.
        expect_then _ _ _ b refl (λ k1 q1 lt1 b1.
          bind-Post _ _ (parse_param_list-Post ex rounds b1 (omega arith) enough) (omega arith)
            (λ ps k2 q2 lt2 b2. expect_then _ _ _ b2 refl (λ k3 q3 lt3 b3.
              bind-Post _ _ (bl k3 q3 (omega arith) b3) (omega arith)
                (λ body k4 q4 lt4 b4. pure-Post _ b4 (omega arith))))))

  parse_func-Post :
      {n : ℕ} {p : Parser}
      → At t n p
      → lo ≤ suc n
      → is token_func p.current_token.type ≡ true
      → Post t n (suc n) (parse_func rounds expression block p)
  unfolding parse_func
  parse_func-Post {p = p} a le e = here_then _ (
      expect_take _ _ _ a refl e (λ k q lt b. here_then _ (
        if-Post (is_type_token q.current_token.type) _ _
          (λ e'.
            Post-weaken (func_tail-Post p.current_token b (omega arith) e') (omega arith)
              (omega arith))
          (λ _. fail-Post _ b (omega arith)))))

  declared-Post :
      {n : ℕ} {p : Parser} (type_tok : Token) (ta : TypeAnnotation) (name : Option Bytes)
      → At t n p
      → lo ≤ n
      → Post t n n (declared rounds expression block type_tok ta name p)
  declared-Post type_tok ta name a le =
      on-Post _ _ _ a refl
        (λ k lt b.
          bind-Post _ _ (ex k _ (omega arith) b) (omega arith)
            (λ e k1 q1 lt1 b1. pure-Post _ b1 (omega arith)))
        (pure-Post _ a (omega arith))

  parse_simple_typed_declaration-Post :
      {n : ℕ} {p : Parser} (type_tok : Token) (ta : TypeAnnotation)
      → At t n p
      → lo ≤ n
      → Post t n n (parse_simple_typed_declaration rounds expression block type_tok ta p)
  unfolding parse_simple_typed_declaration
  parse_simple_typed_declaration-Post {p = p} type_tok ta a le =
      gap_open p ta.end_tok _ a (omega arith) (λ name. here_then _ (
        next_then _ a behind_gap refl name (λ k lt b.
          Post-weaken (declared-Post type_tok ta p.current_token.literal b (omega arith))
            (omega arith) (omega arith))))

  paren_stmt-Post :
      {n : ℕ} {p : Parser} (builder : Expr → ℕ → ℤ → Stmt) (open_msg close_msg : Bytes)
      (type : TokenType)
      → At t n p
      → lo ≤ suc n
      → is type token_eof ≡ false
      → is type p.current_token.type ≡ true
      → Post t n
          (suc n)
          (parse_paren_expr_stmt rounds expression block builder open_msg close_msg p)
  unfolding parse_paren_expr_stmt
  paren_stmt-Post builder open_msg close_msg type a le no_eof e = here_then _ (
      next_then _ a (is type) no_eof e (λ k lt b. expect_then _ _ _ b refl (λ k1 q1 lt1 b1.
        bind-Post _ _ (ex k1 q1 (omega arith) b1) (omega arith) (λ x k2 q2 lt2 b2.
          expect_then _ _ _ b2 refl (λ k3 q3 lt3 b3. pure-Post _ b3 (omega arith))))))

  indexed_target-Post :
      {n : ℕ} {p : Parser} (type_tok : Token) (ta : TypeAnnotation) (name : Option Bytes)
      → At t n p
      → lo ≤ n
      → Post t n n (indexed_target rounds expression block type_tok ta name p)
  indexed_target-Post type_tok ta name a le =
      bind-Post _ _ (parse_index_suffix-Post ex rounds enough _ a (omega arith)) (omega arith)
        (λ base k q lt b.
          on-Post _ _ _ b refl
            (λ k1 lt1 b1.
              bind-Post _ _ (ex k1 _ (omega arith) b1) (omega arith)
                (λ e k2 q2 lt2 b2. pure-Post _ b2 (omega arith)))
            (fail-Post _ b (omega arith)))

  typed_statement-Post :
      {n : ℕ} {p : Parser}
      → At t n p
      → lo ≤ suc n
      → is_type_token p.current_token.type ≡ true
      → Post t n (suc n) (typed_statement rounds expression block p)
  unfolding typed_statement
  typed_statement-Post {p = p} a le e = here_then _ (
      bind-Post _ _ (typed_name-Post ex a le e) (omega arith) (λ r k q lt b. here_then _ (
        if-Post (opens_index q.current_token.type) _ _
          (λ _.
            Post-weaken (indexed_target-Post p.current_token r.0 r.1 b (omega arith)) (omega arith)
              (omega arith))
          (λ _.
            Post-weaken (declared-Post p.current_token r.0 r.1 b (omega arith)) (omega arith)
              (omega arith)))))

  thread_body-Post :
      {n : ℕ} {p : Parser} (tok : Token) (name : Option Bytes)
      → At t n p
      → lo ≤ n
      → is token_ident p.current_token.type ≡ true
      → Post t n n (thread_body rounds expression block tok name p)
  thread_body-Post tok name a le e = next_then _ a (is token_ident) refl e (λ k lt b.
      expect_then _ _ _ b refl (λ k1 q1 lt1 b1.
        bind-Post _ _ (bl k1 q1 (omega arith) b1) (omega arith)
          (λ body k2 q2 lt2 b2. pure-Post _ b2 (omega arith))))

  thread_statement-Post :
      {n : ℕ} {p : Parser}
      → At t n p
      → lo ≤ suc n
      → is token_thread p.current_token.type ≡ true
      → Post t n (suc n) (thread_statement rounds expression block p)
  unfolding thread_statement
  thread_statement-Post {p = p} a le e = here_then _ (
      next_then _ a (is token_thread) refl e (λ k lt b. expect_then _ _ _ b refl (λ k1 q1 lt1 b1.
        here_then _ (
          if-Post (is token_ident q1.current_token.type) _ _
            (λ e'.
              Post-weaken
                (thread_body-Post p.current_token q1.current_token.literal b1 (omega arith) e')
                (omega arith) (omega arith))
            (λ _. fail-Post _ b1 (omega arith))))))

  async_statement-Post :
      {n : ℕ} {p : Parser}
      → At t n p
      → lo ≤ suc n
      → is token_async p.current_token.type ≡ true
      → Post t n (suc n) (async_statement rounds expression block p)
  unfolding async_statement
  async_statement-Post a le e = here_then _ (
      next_then _ a (is token_async) refl e (λ k lt b.
        bind-Post _ _ (bl k _ (omega arith) b) (omega arith)
          (λ body k1 q1 lt1 b1. pure-Post _ b1 (omega arith))))

  name_assignment-Post :
      {n : ℕ} {p : Parser}
      → At t n p
      → lo ≤ suc n
      → is token_ident p.current_token.type ≡ true
      → Post t n (suc n) (name_assignment rounds expression block p)
  name_assignment-Post a le e = here_then _ (
      next_then _ a (is token_ident) refl e (λ k lt b. expect_then _ _ _ b refl (λ k1 q1 lt1 b1.
        bind-Post _ _ (ex k1 q1 (omega arith) b1) (omega arith)
          (λ x k2 q2 lt2 b2. pure-Post _ b2 (omega arith)))))

  -- The one statement that starts with an expression.
  expression_statement-Post :
      {n : ℕ} {p : Parser}
      → Consumes t n expression
      → At t n p
      → Post t n (suc n) (expression_statement rounds expression block p)
  expression_statement-Post {n} {p} ex_here a =
      bind-Post _ _ (ex_here n p (omega arith) a) (omega arith) (λ e k q lt b.
        on-Post _ _ _ b refl
          (λ k1 lt1 b1.
            bind-Post _ _ (ex_here k1 _ (omega arith) b1) (omega arith)
              (λ rhs k2 q2 lt2 b2. pure-Post _ b2 (omega arith)))
          (pure-Post _ b (omega arith)))

  late_declaration-Post :
      {n : ℕ} {p : Parser}
      → At t n p
      → lo ≤ suc n
      → is_type_token p.current_token.type ≡ true
      → Post t n (suc n) (late_declaration rounds expression block p)
  late_declaration-Post {p = p} a le e = here_then _ (
      bind-Post _ _ (parse_type_annotation-Post ex a le e) (omega arith) (λ ta k q lt b.
        Post-weaken (parse_simple_typed_declaration-Post p.current_token ta b (omega arith))
          (omega arith) (omega arith)))

  other_statement-Post :
      {n : ℕ} {p : Parser}
      → Consumes t n expression
      → At t n p
      → lo ≤ suc n
      → Post t n (suc n) (other_statement rounds expression block p)
  unfolding other_statement starts_named_type_annotation
  other_statement-Post {p = p} ex_here a le =
      if-Post (starts_named_type_annotation p) _ _
        (λ e. late_declaration-Post a le (and_left _ _ e))
        (λ _.
          if-Post (is_assignment p) _ _ (λ e. name_assignment-Post a le (and_left _ _ e))
            (λ _. expression_statement-Post ex_here a))

  keyword_statement-Post :
      {n : ℕ} {p : Parser}
      → Consumes t n expression
      → At t n p
      → lo ≤ suc n
      → Post t n (suc n) (keyword_statement rounds expression block p)
  unfolding keyword_statement
  keyword_statement-Post {p = p} ex_here a le =
      let type = p.current_token.type in
      if-Post (is token_if type) _ _ (λ e. parse_if-Post ex bl enough a le e)
        (λ _.
          if-Post (is token_while type) _ _ (λ e. parse_while-Post ex bl enough a le e)
            (λ _.
              if-Post (is token_for type) _ _ (λ e. parse_for-Post ex bl enough a le e)
                (λ _.
                  if-Post (is token_parfor type) _ _ (λ e. parse_parfor-Post ex bl enough a le e)
                    (λ _.
                      if-Post (is token_try type) _ _ (λ e. parse_try-Post ex bl enough a le e)
                        (λ _.
                          if-Post (is token_func type) _ _ (λ e. parse_func-Post a le e)
                            (λ _.
                              if-Post (is token_return type) _ _
                                (λ e. paren_stmt-Post _ _ _ token_return a le refl e)
                                (λ _.
                                  if-Post (is token_pop type) _ _
                                    (λ e. paren_stmt-Post _ _ _ token_pop a le refl e)
                                    (λ _.
                                      if-Post (is token_break type) _ _
                                        (λ e. paren_stmt-Post _ _ _ token_break a le refl e)
                                        (λ _.
                                          if-Post (is token_thread type) _ _
                                            (λ e. thread_statement-Post a le e)
                                            (λ _.
                                              if-Post (is token_async type) _ _
                                                (λ e. async_statement-Post a le e)
                                                (λ _.
                                                  if-Post (is token_continue type) _ _
                                                    (λ e. continue_statement-Post a e)
                                                    (λ _.
                                                      if-Post (is token_goto type) _ _
                                                        (λ e.
                                                          paren_stmt-Post _ _ _ token_goto a le refl
                                                            e)
                                                        (λ _.
                                                          if-Post (is token_gotopoint type) _ _
                                                            (λ e.
                                                            paren_stmt-Post _ _ _ token_gotopoint a
                                                            le refl e)
                                                            (λ _.
                                                            other_statement-Post ex_here a
                                                            le))))))))))))))

  func_first :
      (p : Parser) → looks_like_func_definition p ≡ true → is token_func p.current_token.type ≡ true
  unfolding looks_like_func_definition
  func_first p e = and_left _ _ e

  type_first :
      (p : Parser)
      → starts_named_type_annotation p ≡ true
      → is_type_token p.current_token.type ≡ true
  unfolding starts_named_type_annotation
  type_first p e = and_left _ _ e

  statement_here-Post :
      {n : ℕ} {p : Parser}
      → Consumes t n expression
      → At t n p
      → lo ≤ suc n
      → Post t n (suc n) (statement_here rounds expression block p)
  statement_here-Post {p = p} ex_here a le =
      if-Post (looks_like_func_definition p) _ _ (λ e. parse_func-Post a le (func_first p e))
        (λ _.
          if-Post (starts_named_type_annotation p) _ _
            (λ e. typed_statement-Post a le (type_first p e))
            (λ _. keyword_statement-Post ex_here a le))

-- `parse_statement` passes a token where it makes a statement; a NULL comes with an error.
pub parse_statement-Post :
    {t : Text} {rounds n : ℕ} {expression : Parse Expr} {block : Parse Stmt} {p : Parser}
    → Consumes t n expression
    → Runs t (suc n) block
    → t.last < rounds
    → At t n p
    → Post t n (suc n) (parse_statement rounds expression block p)
unfolding parse_statement
parse_statement-Post ex bl enough a = lines_then _ a (λ q s.
    Post-weaken
      (statement_here-Post {lo = suc s.to} (λ k r le b. ex k r (omega (arith, s.forward)) b)
        (λ k r le b. bl k r (omega (arith, s.forward)) b) enough
        (λ k r le b. ex k r (omega (arith, s.forward)) b) s.there (omega arith))
      s.forward (omega (arith, s.forward)))
