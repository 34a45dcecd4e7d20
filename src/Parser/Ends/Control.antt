-- ===== src/Parser/Ends/Control.antt =====
-- src/parser.c: how far `if`, loops and `try` go.
use prefix.Parser.Ends.Skips.{skip_then, note_then, returns_null-Post}
use prefix.Ast.{Expr, ExprList, Stmt, StmtList}
use prefix.Base.{ℕ, zero, suc, ◌+◌, ◌≤◌, ◌<◌, true, Option, none, ◌≡◌, refl, arith, Bytes}
use prefix.Parser.Control.{
  condition, elif_rounds, else_branch, parse_if, parse_while, for_named, for_parts, parse_for,
  parse_parfor, no_catch, name_in_catch, catch_parens, catch_tail, parse_try,
}
use prefix.Parser.Cursor.{Parser}
use prefix.Parser.Ends.Annotation.{Consumes, Runs}
use prefix.Parser.Ends.Steps.{
  bind-Post, here_then, next_then, expect_then, expect_take, fail-Post, pure-Post, if-Post, on-Post,
  Post-weaken,
}
use prefix.Parser.Kinds.{is}
use prefix.Parser.Outcome.{Parse, pure, on}
use prefix.Parser.Reach.{Text, At, Post}
use prefix.Token.{
  Token, token_ident, token_if, token_while, token_for, token_parfor, token_try, token_lparen,
}

module _ {t : Text} {lo rounds : ℕ} {expression : Parse Expr} {block : Parse Stmt}
    (ex : Consumes t lo expression) (bl : Runs t lo block) (enough : t.last < rounds) where
  condition-Post :
      {n : ℕ} {p : Parser} (open_msg close_msg : Bytes)
      → At t n p
      → lo ≤ n
      → Post t n (suc n) (condition rounds expression block open_msg close_msg p)
  condition-Post open_msg close_msg a le = expect_then _ _ _ a refl (λ k q lt b.
      bind-Post _ _ (ex k q (omega arith) b) (omega arith) (λ cond k1 q1 lt1 b1.
        expect_then _ _ _ b1 refl (λ k2 q2 lt2 b2.
          bind-Post _ _ (bl k2 q2 (omega arith) b2) (omega arith)
            (λ body k3 q3 lt3 b3. pure-Post _ b3 (omega arith)))))

  elif_rounds-Post :
      (fuel : ℕ) {n : ℕ} {p : Parser} (conds : ExprList) (blocks : StmtList)
      → At t n p
      → lo ≤ n
      → t.last < n + fuel
      → Post t n n (elif_rounds rounds expression block fuel conds blocks p)
  unfolding elif_rounds
  elif_rounds-Post zero conds blocks a le h = absurd (omega (arith, a.within))
  elif_rounds-Post (suc fuel) conds blocks a le h =
      on-Post _ _ _ a refl
        (λ k lt b.
          bind-Post _ _ (condition-Post _ _ b (omega arith)) (omega arith) (λ r k1 q1 lt1 b1.
            Post-weaken (elif_rounds-Post fuel _ _ b1 (omega arith) (omega arith)) (omega arith)
              (omega arith)))
        (pure-Post _ a (omega arith))

  else_branch-Post :
      {n : ℕ} {p : Parser} → At t n p → lo ≤ n → Post t n n (else_branch rounds expression block p)
  else_branch-Post a le =
      on-Post _ _ _ a refl
        (λ k lt b.
          bind-Post _ _ (bl k _ (omega arith) b) (omega arith)
            (λ body k1 q1 lt1 b1. pure-Post _ b1 (omega arith)))
        (pure-Post _ a (omega arith))

  pub parse_if-Post :
      {n : ℕ} {p : Parser}
      → At t n p
      → lo ≤ suc n
      → is token_if p.current_token.type ≡ true
      → Post t n (suc n) (parse_if rounds expression block p)
  unfolding parse_if
  parse_if-Post a le e = here_then _ (
      expect_take _ _ _ a refl e (λ k q lt b.
        bind-Post _ _ (condition-Post _ _ b (omega arith)) (omega arith) (λ r k1 q1 lt1 b1.
          bind-Post _ _ (elif_rounds-Post rounds _ _ b1 (omega arith) (omega arith)) (omega arith)
            (λ s k2 q2 lt2 b2.
              bind-Post _ _ (else_branch-Post b2 (omega arith)) (omega arith)
                (λ last k3 q3 lt3 b3. pure-Post _ b3 (omega arith))))))

  pub parse_while-Post :
      {n : ℕ} {p : Parser}
      → At t n p
      → lo ≤ suc n
      → is token_while p.current_token.type ≡ true
      → Post t n (suc n) (parse_while rounds expression block p)
  unfolding parse_while
  parse_while-Post a le e = here_then _ (
      expect_take _ _ _ a refl e (λ k q lt b.
        bind-Post _ _ (condition-Post _ _ b (omega arith)) (omega arith)
          (λ r k1 q1 lt1 b1. pure-Post _ b1 (omega arith))))

  for_named-Post :
      {n : ℕ} {p : Parser} (counter : Option Bytes) (close_msg : Bytes)
      → At t n p
      → lo ≤ n
      → is token_ident p.current_token.type ≡ true
      → Post t n n (for_named rounds expression block counter close_msg p)
  for_named-Post counter close_msg a le e = next_then _ a (is token_ident) refl e (λ k lt b.
      expect_then _ _ _ b refl (λ k1 q1 lt1 b1.
        bind-Post _ _ (ex k1 q1 (omega arith) b1) (omega arith) (λ target k2 q2 lt2 b2.
          expect_then _ _ _ b2 refl (λ k3 q3 lt3 b3.
            bind-Post _ _ (bl k3 q3 (omega arith) b3) (omega arith)
              (λ body k4 q4 lt4 b4. pure-Post _ b4 (omega arith))))))

  for_parts-Post :
      {n : ℕ} {p : Parser} (open_msg close_msg : Bytes)
      → At t n p
      → lo ≤ n
      → Post t n n (for_parts rounds expression block open_msg close_msg p)
  for_parts-Post open_msg close_msg a le = expect_then _ _ _ a refl (λ k q lt b. here_then _ (
      if-Post (is token_ident q.current_token.type) _ _
        (λ e.
          Post-weaken (for_named-Post q.current_token.literal close_msg b (omega arith) e)
            (omega arith) (omega arith))
        (λ _. fail-Post _ b (omega arith))))

  pub parse_for-Post :
      {n : ℕ} {p : Parser}
      → At t n p
      → lo ≤ suc n
      → is token_for p.current_token.type ≡ true
      → Post t n (suc n) (parse_for rounds expression block p)
  unfolding parse_for
  parse_for-Post a le e = here_then _ (
      expect_take _ _ _ a refl e (λ k q lt b.
        bind-Post _ _ (for_parts-Post _ _ b (omega arith)) (omega arith)
          (λ r k1 q1 lt1 b1. pure-Post _ b1 (omega arith))))

  pub parse_parfor-Post :
      {n : ℕ} {p : Parser}
      → At t n p
      → lo ≤ suc n
      → is token_parfor p.current_token.type ≡ true
      → Post t n (suc n) (parse_parfor rounds expression block p)
  unfolding parse_parfor
  parse_parfor-Post a le e = here_then _ (
      expect_take _ _ _ a refl e (λ k q lt b.
        bind-Post _ _ (for_parts-Post _ _ b (omega arith)) (omega arith)
          (λ r k1 q1 lt1 b1. pure-Post _ b1 (omega arith))))

  no_catch-Post : {n : ℕ} {p : Parser} → At t n p → Post t n (suc n) (no_catch p)
  no_catch-Post a = note_then _ _ a (λ q b bad.
      skip_then _ _ b refl
        (λ q' s. returns_null-Post s.there (s.errors bad) (omega (arith, s.forward))))

  name_in_catch-Post : {n : ℕ} {p : Parser} → At t n p → Post t n n (name_in_catch p)
  name_in_catch-Post a = here_then _ (
      on-Post _ _ _ a refl (λ k lt b. pure-Post _ b (omega arith))
        (note_then _ _ a (λ q b bad. pure-Post _ b (omega arith))))

  catch_parens-Post : {n : ℕ} {p : Parser} → At t n p → Post t n n (catch_parens p)
  catch_parens-Post a =
      bind-Post _ _ (name_in_catch-Post a) (omega arith)
        (λ name k q lt b. expect_then _ _ _ b refl (λ k1 q1 lt1 b1. pure-Post _ b1 (omega arith)))

  catch_name-Post :
      {n : ℕ} {p : Parser} → At t n p → Post t n n (on token_lparen catch_parens (pure none) p)
  catch_name-Post a =
      on-Post _ _ _ a refl (λ k lt b. Post-weaken (catch_parens-Post b) (omega arith) (omega arith))
        (pure-Post _ a (omega arith))

  catch_tail-Post :
      {n : ℕ} {p : Parser} (tok : Token) (try_block : Stmt)
      → At t n p
      → lo ≤ n
      → Post t n n (catch_tail rounds expression block tok try_block p)
  catch_tail-Post tok try_block a le =
      bind-Post _ _ (catch_name-Post a) (omega arith) (λ name k q lt b.
        bind-Post _ _ (bl k q (omega arith) b) (omega arith)
          (λ body k1 q1 lt1 b1. pure-Post _ b1 (omega arith)))

  pub parse_try-Post :
      {n : ℕ} {p : Parser}
      → At t n p
      → lo ≤ suc n
      → is token_try p.current_token.type ≡ true
      → Post t n (suc n) (parse_try rounds expression block p)
  unfolding parse_try
  parse_try-Post {p = p} a le e = here_then _ (
      expect_take _ _ _ a refl e (λ k q lt b.
        bind-Post _ _ (bl k q (omega arith) b) (omega arith) (λ try_block k1 q1 lt1 b1.
          on-Post _ _ _ b1 refl
            (λ k2 lt2 b2.
              Post-weaken (catch_tail-Post p.current_token try_block b2 (omega arith)) (omega arith)
                (omega arith))
            (Post-weaken (no_catch-Post b1) (omega arith) (omega arith)))))
