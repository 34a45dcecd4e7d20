-- ===== src/Parser/Ends/Primary.antt =====
-- src/parser.c: how far expressions go.
use prefix.Ast.{Expr, ExprList, no_exprs, Stmt}
use prefix.Base.{
  ℕ, zero, suc, ◌+◌, ◌≤◌, ◌<◌, Bool, true, false, Option, none, some, ◌≡◌, refl, arith, Bytes,
  codes,
}
use prefix.Number.Float.{Doubles}
use prefix.Parser.Ends.Annotation.{
  Consumes, Runs, and_left, and_right, gap_open, parse_type_annotation-Post, parse_param_list-Post,
}
use prefix.Parser.Cursor.{Parser, advance, literal_or_empty}
use prefix.Parser.Kinds.{is, is_type_token}
use prefix.Parser.Outcome.{Parse, pure, fail, next, ◌>>◌}
use prefix.Parser.Primary.{
  names, dash_names, dotted, dotted_rounds, build_dotted_ident, token_taken, taken_if,
  negative_infinity, async_expr, fmt_text, fmt_rounds, fmt_expr, pointer_name, lambda_tail,
  lambda_expr, name_expr, paren_expr, item_rounds, tensor_items, tensor_expr, pair_rounds, map_expr,
  parse_operand, parse_primary, parse_call,
}
use prefix.Parser.Reach.{Text, At, Post, advance-next}
use prefix.Parser.Ends.Steps.{
  bind-Post, then-Post, here_then, next_then, expect_then, fail-Post, pure-Post, if-Post, on-Post,
  Post-weaken, require-Post, attempt_then, null_behind, give_back-Post,
}
use prefix.Parser.Ends.Suffix.{call_rounds-Post}
use prefix.Token.{
  Token, TokenType, token_eof, token_ident, token_number, token_float, token_string, token_fstring,
  token_lparen, token_lbracket, token_rbracket, token_langle, token_at, token_dot, token_dash,
  token_async, token_lambda,
}

module _ {t : Text} where
  dotted_rounds-Post :
      (fuel : ℕ) {n : ℕ} {p : Parser} (name : Bytes)
      → At t n p
      → t.last < n + fuel
      → Post t n n (dotted_rounds fuel name p)
  unfolding dotted_rounds
  dotted_rounds-Post zero name a h = absurd (omega (arith, a.within))
  dotted_rounds-Post (suc fuel) {n} {p} name a h =
      if-Post (dotted p) _ _
        (λ e. next_then _ a (is token_dot) refl (and_left _ _ e) (λ k lt b. here_then _ (
          next_then _ b (is token_ident) refl
            (advance-next a (is token_ident) refl
              (and_right (is token_dot p.current_token.type) _ e))
            (λ k' lt' b'.
              Post-weaken (dotted_rounds-Post fuel _ b' (omega arith)) (omega arith)
                (omega arith)))))
        (λ _. pure-Post _ a (omega arith))

  token_taken-Post :
      {n : ℕ} {p : Parser} (f : Token → Expr) (test : TokenType → Bool)
      → At t n p
      → test token_eof ≡ false
      → test p.current_token.type ≡ true
      → Post t n (suc n) (token_taken f p)
  token_taken-Post f test a no_eof e =
      here_then _ (next_then _ a test no_eof e (λ k lt b. pure-Post _ b (omega arith)))

  option-Post :
      {n lo hi : ℕ} {p : Parser} (o : Option Expr) (message : Bytes)
      → At t n p
      → lo ≤ n
      → hi ≤ n
      → Post t lo hi ((elim o as (λ _. Parse Expr) [ some e ↦ pure e | none ↦ fail message ]) p)
  option-Post (some e) message a le le' = pure-Post _ a le'
  option-Post none message a le le' = fail-Post _ a le

  taken_if-Post :
      {n : ℕ} {p : Parser} (f : Token → Option Expr) (message : Bytes) (test : TokenType → Bool)
      → At t n p
      → test token_eof ≡ false
      → test p.current_token.type ≡ true
      → Post t n (suc n) (taken_if f message p)
  taken_if-Post {p = p} f message test a no_eof e = here_then _ (
      next_then _ a test no_eof e
        (λ k lt b. option-Post (f p.current_token) message b (omega arith) (omega arith)))

  negative_infinity-Post :
      (d : Doubles) {n : ℕ} {p : Parser}
      → At t n p
      → is token_dash p.current_token.type ≡ true
      → is token_ident p.next_token.type ≡ true
      → Post t n (suc n) (negative_infinity d p)
  negative_infinity-Post d a e e' = here_then _ (
      next_then _ a (is token_dash) refl e (λ k lt b.
        next_then _ b (is token_ident) refl (advance-next a (is token_ident) refl e')
          (λ k' lt' b'. pure-Post _ b' (omega arith))))

module _ {t : Text} {lo rounds : ℕ} {expression : Parse Expr} {block : Parse Stmt}
    (ex : Consumes t lo expression) (bl : Runs t lo block) (enough : t.last < rounds) where
  fmt_text-Post : {n : ℕ} {p : Parser} → At t n p → Post t n n (fmt_text rounds expression block p)
  fmt_text-Post {p = p} a = here_then _ (
      if-Post (is token_fstring p.current_token.type) _ _
        (λ e.
          next_then _ a (is token_fstring) refl e
            (λ k lt b. here_then _ (pure-Post _ b (omega arith))))
        (λ _. pure-Post _ a (omega arith)))

  fmt_rounds-Post :
      (fuel : ℕ) {n : ℕ} {p : Parser} (parts : ExprList)
      → At t n p
      → lo ≤ suc n
      → t.last < n + fuel
      → Post t n n (fmt_rounds rounds expression block fuel parts p)
  unfolding fmt_rounds
  fmt_rounds-Post zero parts a le h = absurd (omega (arith, a.within))
  fmt_rounds-Post (suc fuel) parts a le h =
      on-Post _ _ _ a refl
        (λ k lt b. bind-Post _ _ (ex k _ (omega arith) b) (omega arith) (λ e k1 q1 lt1 b1.
          then-Post _ _ (require-Post _ _ b1 refl) (omega arith) (λ k2 q2 lt2 b2.
            bind-Post _ _ (fmt_text-Post b2) (omega arith) (λ text k3 q3 lt3 b3.
              Post-weaken (fmt_rounds-Post fuel _ b3 (omega arith) (omega arith)) (omega arith)
                (omega arith)))))
        (pure-Post _ a (omega arith))

  lambda_tail-Post :
      {n : ℕ} {p : Parser} (tok : Token)
      → At t n p
      → lo ≤ n
      → is_type_token p.current_token.type ≡ true
      → Post t n n (lambda_tail rounds expression block tok p)
  lambda_tail-Post tok a le e =
      bind-Post _ _ (parse_type_annotation-Post ex a (omega arith) e) (omega arith) (λ ret k q lt b.
        gap_open q ret.end_tok _ b (omega arith) (λ _. expect_then _ _ _ b refl (λ k1 q1 lt1 b1.
          bind-Post _ _ (parse_param_list-Post ex rounds b1 (omega arith) enough) (omega arith)
            (λ ps k2 q2 lt2 b2. expect_then _ _ _ b2 refl (λ k3 q3 lt3 b3.
              bind-Post _ _ (bl k3 q3 (omega arith) b3) (omega arith)
                (λ body k4 q4 lt4 b4. pure-Post _ b4 (omega arith)))))))

  lambda_expr-Post :
      {n : ℕ} {p : Parser}
      → At t n p
      → lo ≤ suc n
      → is token_lambda p.current_token.type ≡ true
      → Post t n (suc n) (lambda_expr rounds expression block p)
  lambda_expr-Post {n} {p} a le e = here_then _ (
      next_then _ a (is token_lambda) refl e (λ k lt b. here_then _ (
        if-Post (is_type_token (advance p).current_token.type) _ _
          (λ e'.
            Post-weaken (lambda_tail-Post p.current_token b (omega arith) e') (omega arith)
              (omega arith))
          (λ _. fail-Post _ b (omega arith)))))

  paren_expr-Post :
      {n : ℕ} {p : Parser}
      → At t n p
      → lo ≤ suc n
      → is token_lparen p.current_token.type ≡ true
      → Post t n (suc n) (paren_expr rounds expression block p)
  paren_expr-Post a le e = next_then _ a (is token_lparen) refl e (λ k lt b.
      attempt_then _ _ (ex k _ (omega arith) b)
        (λ x k1 q1 lt1 b1.
          expect_then _ _ _ b1 refl (λ k2 q2 lt2 b2. give_back-Post _ b2 (omega arith)))
        (λ k1 q1 lt1 b1 bad. null_behind _ _ b1 refl bad (omega arith)))

  item_rounds-Post :
      (fuel : ℕ) {n : ℕ} {p : Parser} (items : ExprList)
      → At t n p
      → lo ≤ n
      → t.last < n + fuel
      → Post t n n (item_rounds rounds expression block fuel items p)
  unfolding item_rounds
  item_rounds-Post zero items a le h = absurd (omega (arith, a.within))
  item_rounds-Post (suc fuel) {n} {p} items a le h =
      bind-Post _ _ (ex n p le a) (omega arith) (λ e k q lt b.
        on-Post _ _ _ b refl
          (λ k1 lt1 b1.
            Post-weaken (item_rounds-Post fuel _ b1 (omega arith) (omega arith)) (omega arith)
              (omega arith))
          (pure-Post _ b (omega arith)))

  tensor_items-Post :
      {n : ℕ} {p : Parser} → At t n p → lo ≤ n → Post t n n (tensor_items rounds expression block p)
  tensor_items-Post {n} {p} a le = here_then _ (
      if-Post (is token_rbracket p.current_token.type) _ _ (λ _. fail-Post _ a (omega arith))
        (λ _. item_rounds-Post rounds no_exprs a le (omega arith)))

  tensor_expr-Post :
      {n : ℕ} {p : Parser}
      → At t n p
      → lo ≤ suc n
      → is token_lbracket p.current_token.type ≡ true
      → Post t n (suc n) (tensor_expr rounds expression block p)
  tensor_expr-Post a le e = next_then _ a (is token_lbracket) refl e (λ k lt b. here_then _ (
      bind-Post _ _ (tensor_items-Post b (omega arith)) (omega arith) (λ items k1 q1 lt1 b1.
        expect_then _ _ _ b1 refl (λ k2 q2 lt2 b2. pure-Post _ b2 (omega arith)))))

  pair_rounds-Post :
      (fuel : ℕ) {n : ℕ} {p : Parser} (keys values : ExprList)
      → At t n p
      → lo ≤ n
      → t.last < n + fuel
      → Post t n n (pair_rounds rounds expression block fuel keys values p)
  unfolding pair_rounds
  pair_rounds-Post zero keys values a le h = absurd (omega (arith, a.within))
  pair_rounds-Post (suc fuel) {n} {p} keys values a le h =
      bind-Post _ _ (ex n p le a) (omega arith) (λ key k q lt b.
        then-Post _ _ (require-Post _ _ b refl) (omega arith) (λ k1 q1 lt1 b1.
          bind-Post _ _ (ex k1 q1 (omega arith) b1) (omega arith) (λ value k2 q2 lt2 b2.
            on-Post _ _ _ b2 refl
              (λ k3 lt3 b3.
                Post-weaken (pair_rounds-Post fuel _ _ b3 (omega arith) (omega arith)) (omega arith)
                  (omega arith))
              (pure-Post _ b2 (omega arith)))))

  map_expr-Post :
      {n : ℕ} {p : Parser}
      → At t n p
      → lo ≤ suc n
      → is token_langle p.current_token.type ≡ true
      → Post t n (suc n) (map_expr rounds expression block p)
  map_expr-Post a le e = next_then _ a (is token_langle) refl e (λ k lt b. here_then _ (
      on-Post _ _ _ b refl (λ k1 lt1 b1. pure-Post _ b1 (omega arith))
        (bind-Post _ _ (pair_rounds-Post rounds no_exprs no_exprs b (omega arith) (omega arith))
          (omega arith)
          (λ pairs k1 q1 lt1 b1.
            expect_then _ _ _ b1 refl (λ k2 q2 lt2 b2. pure-Post _ b2 (omega arith))))))

  fmt_expr-Post :
      {n : ℕ} {p : Parser}
      → At t n p
      → lo ≤ suc n
      → is token_fstring p.current_token.type ≡ true
      → Post t n (suc n) (fmt_expr rounds expression block p)
  fmt_expr-Post a le e = here_then _ (
      next_then _ a (is token_fstring) refl e (λ k lt b.
        bind-Post _ _ (fmt_rounds-Post rounds _ b (omega arith) (omega arith)) (omega arith)
          (λ parts k1 q1 lt1 b1. pure-Post _ b1 (omega arith))))

  pointer-Post :
      {n : ℕ} {p : Parser}
      → At t n p
      → is token_at p.current_token.type ≡ true
      → Post t n (suc n) ((next >> pointer_name rounds expression block) p)
  pointer-Post {n} {p} a e = next_then _ a (is token_at) refl e (λ k lt b. here_then _ (
      if-Post (is token_ident (advance p).current_token.type) _ _
        (λ e'.
          Post-weaken (token_taken-Post _ (is token_ident) b refl e') (omega arith) (omega arith))
        (λ _. fail-Post _ b (omega arith))))

  name_expr-Post :
      {n : ℕ} {p : Parser}
      → At t n p
      → is token_ident p.current_token.type ≡ true
      → Post t n (suc n) (name_expr rounds expression block p)
  unfolding build_dotted_ident
  name_expr-Post {p = p} a e = here_then _ (
      next_then _ a (is token_ident) refl e (λ k lt b.
        bind-Post _ _ (dotted_rounds-Post rounds (literal_or_empty p.current_token) b (omega arith))
          (omega arith) (λ name k1 q1 lt1 b1. pure-Post _ b1 (omega arith))))

  async_expr-Post :
      {n : ℕ} {p : Parser}
      → At t n p
      → lo ≤ suc n
      → is token_async p.current_token.type ≡ true
      → Post t n (suc n) (async_expr rounds expression block p)
  async_expr-Post a le e = here_then _ (
      next_then _ a (is token_async) refl e (λ k lt b.
        bind-Post _ _ (bl k _ (omega arith) b) (omega arith)
          (λ body k1 q1 lt1 b1. pure-Post _ b1 (omega arith))))

  parse_operand-Post :
      (d : Doubles) {n : ℕ} {p : Parser}
      → At t n p
      → lo ≤ suc n
      → Post t n (suc n) (parse_operand d rounds expression block p)
  unfolding parse_operand
  parse_operand-Post d {n} {p} a le =
      let type = p.current_token.type in
      if-Post (is token_number type) _ _ (λ e. taken_if-Post _ _ (is token_number) a refl e)
        (λ _.
          if-Post (is token_float type) _ _ (λ e. taken_if-Post _ _ (is token_float) a refl e)
            (λ _.
              if-Post (is token_string type) _ _
                (λ e. token_taken-Post _ (is token_string) a refl e)
                (λ _.
                  if-Post (is token_fstring type) _ _ (λ e. fmt_expr-Post a le e)
                    (λ _.
                      if-Post (is token_at type) _ _ (λ e. pointer-Post a e)
                        (λ _.
                          if-Post (is token_lambda type) _ _ (λ e. lambda_expr-Post a le e)
                            (λ _.
                              if-Post (is token_ident type) _ _ (λ e. name_expr-Post a e)
                                (λ _.
                                  if-Post (is token_lparen type) _ _ (λ e. paren_expr-Post a le e)
                                    (λ _.
                                      if-Post (is token_lbracket type) _ _
                                        (λ e. tensor_expr-Post a le e)
                                        (λ _.
                                          if-Post (is token_langle type) _ _
                                            (λ e. map_expr-Post a le e)
                                            (λ _. fail-Post _ a (omega arith)))))))))))

  name-taken :
      {n : ℕ} {p : Parser} (text : Bytes) (f : Token → Expr)
      → At t n p
      → names text p.current_token ≡ true
      → Post t n (suc n) (token_taken f p)
  unfolding names
  name-taken text f a e = token_taken-Post f (is token_ident) a refl (and_left _ _ e)

  infinity-taken :
      (d : Doubles) {n : ℕ} {p : Parser} (text : Bytes)
      → At t n p
      → dash_names text p ≡ true
      → Post t n (suc n) (negative_infinity d p)
  unfolding names dash_names
  infinity-taken d {p = p} text a e =
      negative_infinity-Post d a (and_left _ _ e)
        (and_left _ _ (and_right (is token_dash p.current_token.type) _ e))

  parse_primary-Post :
      (d : Doubles) {n : ℕ} {p : Parser}
      → At t n p
      → lo ≤ suc n
      → Post t n (suc n) (parse_primary d rounds expression block p)
  unfolding parse_primary
  parse_primary-Post d {n} {p} a le =
      let token = p.current_token in
      if-Post (names (codes "true") token) _ _ (λ e. name-taken _ _ a e)
        (λ _.
          if-Post (names (codes "false") token) _ _ (λ e. name-taken _ _ a e)
            (λ _.
              if-Post (names (codes "INF") token) _ _ (λ e. name-taken _ _ a e)
                (λ _.
                  if-Post (names (codes "NaN") token) _ _ (λ e. name-taken _ _ a e)
                    (λ _.
                      if-Post (dash_names (codes "INF") p) _ _ (λ e. infinity-taken d _ a e)
                        (λ _.
                          if-Post (dash_names (codes "NaN") p) _ _
                            (λ e. fail-Post _ a (omega arith))
                            (λ _.
                              if-Post (is token_async token.type) _ _ (λ e. async_expr-Post a le e)
                                (λ _. parse_operand-Post d a le)))))))

  -- `parse_expression` passes a token where it makes an expression, if the calls in it do.
  pub parse_call-Post :
      (d : Doubles) {n : ℕ} {p : Parser}
      → At t n p
      → lo ≤ suc n
      → Post t n (suc n) (parse_call d rounds expression block p)
  unfolding parse_call
  parse_call-Post d a le = bind-Post _ _ (parse_primary-Post d a le) (omega arith) (λ e k q lt b.
      Post-weaken (call_rounds-Post ex rounds enough rounds e b (omega arith) (omega arith))
        (omega arith) (omega arith))
