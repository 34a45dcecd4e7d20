-- ===== src/Parser/Ends/Suffix.antt =====
-- src/parser.c: how far indices and arguments go.
use prefix.Ast.{Expr, ExprList, KwArgs, expr_list_add, no_exprs, no_kw}
use prefix.Base.{ℕ, zero, suc, ◌+◌, ◌≤◌, ◌<◌, Bool, true, false, ◌||◌, ◌≡◌, refl, arith, Bytes}
use prefix.Parser.Ends.Annotation.{Consumes, and_left, parse_typed_ident_expr-Post}
use prefix.Parser.Cursor.{Parser}
use prefix.Parser.Kinds.{is}
use prefix.Parser.Outcome.{Parse}
use prefix.Parser.Reach.{Text, At, Post}
use prefix.Parser.Ends.Steps.{
  bind-Post, here_then, next_then, expect_then, fail-Post, pure-Post, if-Post, on-Post, Post-weaken,
}
use prefix.Parser.Suffix.{
  one_index, not_closed, index_rounds, indices_in, index_in, suffix_rounds, parse_index_suffix,
  is_typed_assign_target, is_keyword, one_arg, arg_rounds, arguments, called, call_rounds,
}
use prefix.Token.{
  TokenType, token_eof, token_ident, token_hash, token_lbracket, token_rbracket, token_langle,
  token_rangle, token_lparen, token_rparen,
}

module _ {t : Text} {lo : ℕ} {expression : Parse Expr} (ex : Consumes t lo expression) where
  one_index-Post : Consumes t lo (one_index expression)
  unfolding one_index
  one_index-Post n p le a =
      if-Post (is token_hash p.current_token.type) _ _
        (λ e.
          next_then _ a (is token_hash) refl e
            (λ k lt b. here_then _ (pure-Post _ b (omega arith))))
        (λ _. bind-Post _ _ (ex n p le a) (omega arith) (λ start k q lt b.
          on-Post _ _ _ b refl
            (λ k' lt' b'.
              bind-Post _ _ (ex k' _ (omega arith) b') (omega arith)
                (λ end k'' q'' lt'' b''. pure-Post _ b'' (omega arith)))
            (pure-Post _ b (omega arith))))

  index_rounds-Post :
      (fuel : ℕ) (close : TokenType) {item : Parse Expr}
      → Consumes t lo item
      → (n : ℕ) (p : Parser) (indices : ExprList) → At t n p
      → lo ≤ n
      → t.last < n + fuel
      → Post t n n (index_rounds fuel close item indices p)
  unfolding index_rounds
  index_rounds-Post zero close it n p indices a le h = absurd (omega (arith, a.within))
  index_rounds-Post (suc fuel) close it n p indices a le h =
      if-Post (not_closed close p.current_token.type) _ _
        (λ _. bind-Post _ _ (it n p le a) (omega arith) (λ e k q lt b.
          on-Post _ _ _ b refl
            (λ k' lt' b'.
              Post-weaken
                (index_rounds-Post fuel close it k' _ (expr_list_add indices e) b' (omega arith)
                  (omega arith))
                (omega arith) (omega arith))
            (pure-Post _ b (omega arith))))
        (λ _. pure-Post _ a (omega arith))

  module _ (rounds : ℕ) (enough : t.last < rounds) where
    indices_in-Post :
        {n : ℕ} {p : Parser} (close : TokenType) {item : Parse Expr}
        → Consumes t lo item
        → At t n p
        → lo ≤ n
        → Post t n n (indices_in expression rounds close item p)
    indices_in-Post {n} {p} close it a le = here_then _ (
        if-Post (is close p.current_token.type) _ _ (λ _. fail-Post _ a (omega arith))
          (λ _. index_rounds-Post rounds close it n p no_exprs a (omega arith) (omega arith)))

    index_in-Post :
        {n : ℕ} {p : Parser} (opening close : TokenType) (message : Bytes) {item : Parse Expr}
        (is_map : Bool) (base : Expr)
        → Consumes t lo item
        → At t n p
        → lo ≤ suc n
        → is opening token_eof ≡ false
        → is opening p.current_token.type ≡ true
        → is close token_eof ≡ false
        → Post t n (suc n) (index_in expression rounds close message item is_map base p)
    index_in-Post opening close message is_map base it a le no_eof e no_eof' = here_then _ (
        next_then _ a (is opening) no_eof e (λ k lt b.
          bind-Post _ _ (indices_in-Post close it b (omega arith)) (omega arith)
            (λ indices k' q lt' b'.
              expect_then _ _ _ b' no_eof' (λ k'' q'' lt'' b''. pure-Post _ b'' (omega arith)))))

    -- Behind no opening token the bound of the result is the start.
    suffix_rounds-Post :
        (fuel : ℕ) {n hi : ℕ} {p : Parser} (base : Expr)
        → At t n p
        → lo ≤ suc n
        → t.last < n + fuel
        → hi ≤ suc n
        → (is token_lbracket p.current_token.type ≡ false
            → is token_langle p.current_token.type ≡ false
            → hi ≤ n)
        → Post t n hi (suffix_rounds expression rounds fuel base p)
    unfolding suffix_rounds
    suffix_rounds-Post zero base a le h high bare = absurd (omega (arith, a.within))
    suffix_rounds-Post (suc fuel) {n} {hi} {p} base a le h high bare =
        let more : (d : Expr) (k : ℕ) (q : Parser)
            → suc n ≤ k
            → At t k q
            → Post t n hi (suffix_rounds expression rounds fuel d q) =
          λ d k q lt b.
            Post-weaken
              (suffix_rounds-Post fuel {hi = k} d b (omega arith) (omega arith) (omega arith)
                (λ _ _. omega arith))
              (omega arith) (omega arith) in
        if-Post (is token_lbracket p.current_token.type) _ _
          (λ e.
            bind-Post _ _
              (index_in-Post token_lbracket token_rbracket _ false base one_index-Post a le refl e
                refl)
              (omega arith) more)
          (λ no_bracket.
            if-Post (is token_langle p.current_token.type) _ _
              (λ e.
                bind-Post _ _
                  (index_in-Post token_langle token_rangle _ true base ex a le refl e refl)
                  (omega arith) more)
              (λ no_angle. pure-Post _ a (bare no_bracket no_angle)))

    pub parse_index_suffix-Post :
        {n : ℕ} {p : Parser} (base : Expr)
        → At t n p
        → lo ≤ suc n
        → Post t n n (parse_index_suffix expression rounds base p)
    unfolding parse_index_suffix
    parse_index_suffix-Post base a le =
        suffix_rounds-Post rounds base a le (omega arith) (omega arith) (λ _ _. omega arith)

    parse_index_suffix-strict :
        {n : ℕ} {p : Parser} (base : Expr)
        → At t n p
        → lo ≤ suc n
        → (is token_lbracket p.current_token.type || is token_langle p.current_token.type) ≡ true
        → Post t n (suc n) (parse_index_suffix expression rounds base p)
    unfolding parse_index_suffix
    parse_index_suffix-strict {p = p} base a le e =
        suffix_rounds-Post rounds base a le (omega arith) (omega arith)
          (λ no_bracket no_angle. absurd (neither _ _ no_bracket no_angle e))
      where
        neither : (a b : Bool) → a ≡ false → b ≡ false → (a || b) ≡ true → ⊥
        neither true b x y z = cc
        neither false b x y z = cc

    one_arg-Post :
        {n : ℕ} {p : Parser} (callee : Expr) (args : ExprList) (kws : KwArgs) (seen_kw : Bool)
        → At t n p
        → lo ≤ n
        → Post t n (suc n) (one_arg expression callee args kws seen_kw p)
    unfolding one_arg is_typed_assign_target
    one_arg-Post {n} {p} callee args kws seen_kw a le =
        if-Post (is_typed_assign_target callee args kws p) _ _
          (λ e.
            bind-Post _ _ (parse_typed_ident_expr-Post ex a (omega arith) (and_left _ _ e))
              (omega arith) (λ d k q lt b. pure-Post _ b (omega arith)))
          (λ _.
            if-Post (is_keyword p) _ _
              (λ e. here_then _ (
                next_then _ a (is token_ident) refl (and_left _ _ e) (λ k lt b.
                  expect_then _ _ _ b refl (λ k' q' lt' b'.
                    bind-Post _ _ (ex k' q' (omega arith) b') (omega arith)
                      (λ d k'' q'' lt'' b''. pure-Post _ b'' (omega arith))))))
              (λ _.
                if-Post seen_kw _ _ (λ _. fail-Post _ a (omega arith))
                  (λ _.
                    bind-Post _ _ (ex n p le a) (omega arith)
                      (λ d k q lt b. pure-Post _ b (omega arith)))))

    arg_rounds-Post :
        (fuel : ℕ) {n : ℕ} {p : Parser} (callee : Expr) (args : ExprList) (kws : KwArgs)
        (seen_kw : Bool)
        → At t n p
        → lo ≤ n
        → t.last < n + fuel
        → Post t n n (arg_rounds expression fuel callee args kws seen_kw p)
    unfolding arg_rounds
    arg_rounds-Post zero callee args kws seen_kw a le h = absurd (omega (arith, a.within))
    arg_rounds-Post (suc fuel) callee args kws seen_kw a le h =
        bind-Post _ _ (one_arg-Post callee args kws seen_kw a le) (omega arith) (λ r k q lt b.
          on-Post _ _ _ b refl
            (λ k' lt' b'.
              Post-weaken (arg_rounds-Post fuel callee r.0 r.1 r.2 b' (omega arith) (omega arith))
                (omega arith) (omega arith))
            (pure-Post _ b (omega arith)))

    arguments-Post :
        {n : ℕ} {p : Parser} (callee : Expr)
        → At t n p
        → lo ≤ n
        → Post t n n (arguments expression rounds callee p)
    arguments-Post {p = p} callee a le = here_then _ (
        if-Post (is token_rparen p.current_token.type) _ _ (λ _. pure-Post _ a (omega arith))
          (λ _. arg_rounds-Post rounds callee no_exprs no_kw false a (omega arith) (omega arith)))

    called-Post :
        {n : ℕ} {p : Parser} (callee : Expr)
        → At t n p
        → lo ≤ suc n
        → is token_lparen p.current_token.type ≡ true
        → Post t n (suc n) (called expression rounds callee p)
    called-Post callee a le e = here_then _ (
        next_then _ a (is token_lparen) refl e (λ k lt b.
          bind-Post _ _ (arguments-Post callee b (omega arith)) (omega arith) (λ r k' q lt' b'.
            expect_then _ _ _ b' refl (λ k'' q'' lt'' b''. pure-Post _ b'' (omega arith)))))

    pub call_rounds-Post :
        (fuel : ℕ) {n : ℕ} {p : Parser} (e : Expr)
        → At t n p
        → lo ≤ suc n
        → t.last < n + fuel
        → Post t n n (call_rounds expression rounds fuel e p)
    unfolding call_rounds
    call_rounds-Post zero e a le h = absurd (omega (arith, a.within))
    call_rounds-Post (suc fuel) {n} {p} e a le h =
        let more : (d : Expr) (k : ℕ) (q : Parser)
            → suc n ≤ k
            → At t k q
            → Post t n n (call_rounds expression rounds fuel d q) =
          λ d k q lt b.
            Post-weaken (call_rounds-Post fuel d b (omega arith) (omega arith)) (omega arith)
              (omega arith) in
        if-Post (is token_lparen p.current_token.type) _ _
          (λ t. bind-Post _ _ (called-Post e a le t) (omega arith) more)
          (λ _.
            if-Post (is token_lbracket p.current_token.type || is token_langle p.current_token.type)
              _ _ (λ t. bind-Post _ _ (parse_index_suffix-strict e a le t) (omega arith) more)
              (λ _. pure-Post _ a (omega arith)))
