-- ===== src/Parser/Ends/Program.antt =====
-- src/parser.c: blocks and programs end.
use prefix.Ast.{Stmt, StmtList}
use prefix.Base.{
  ℕ, zero, suc, ◌+◌, ◌≤◌, ◌<◌, Bool, true, false, not, ◌&&◌, ◌||◌, none, some, ◌≡◌, refl, sym, ◌∙◌,
  ap, arith, elim_cases, if◌then◌else◌, Bool-cases, inl, inr, ltb, ltb→lt, ltb-false,
}
use prefix.Parser.Cursor.{Parser, is_newline}
use prefix.Parser.Ends.Annotation.{Consumes}
use prefix.Parser.Ends.Skips.{Skips, skip_then, lines_then, skip_lines-Post, note_then}
use prefix.Parser.Ends.Steps.{
  bind-Post, then-Post, here_then, expect_then, attempt_then, pure-Post, if-Post, Post-weaken,
}
use prefix.Parser.Kinds.{is}
use prefix.Parser.Outcome.{Outcome, Parse, ◌>>=◌, ◌>>◌, bind, pure}
use prefix.Parser.Program.{
  append_parse_error_throw_stmt, with_src, synchronize, ends_block, stops_block, stops_program,
  add_stmt, after_stmt, block_rounds, parse_block, own_line, after_top, program_rounds,
}
use prefix.Parser.Reach.{Text, is_message, At, Post}
use prefix.Parser.Window.{token_at}
use prefix.Token.{TokenType, token_eof, token_rbrace}

-- What neither ends the block nor is a newline does not stop the skip.
only_newline : (a b c : Bool) → (b || c) ≡ false → (a || (c || b)) ≡ true → a ≡ true
only_newline true b c h e = refl
only_newline false true c h e = cc
only_newline false false true h e = cc
only_newline false false false h e = cc

newline_stops : (a c : Bool) → c ≡ false → (a || c) ≡ true → a ≡ true
newline_stops true c h e = refl
newline_stops false c h e = cc (h, e)

module _ {t : Text} where
  -- Two parsers at one token of a text.
  same_type :
      {n : ℕ} {p q : Parser} → At t n p → At t n q → q.current_token.type ≡ p.current_token.type
  same_type a b = ap (λ s. s.type) (b.window.0 ∙ sym a.window.0)

  -- `append_parse_error_throw_stmt` leaves the parser at its token.
  append_then {ℓ} :
      {B : Type ℓ} {lo hi n : ℕ} {p : Parser} (list : StmtList) (f : StmtList → Parse B)
      → At t n p
      → ((more : StmtList) (q : Parser) → At t n q → Post t lo hi (f more q))
      → Post t lo hi ((append_parse_error_throw_stmt list >>= f) p)
  unfolding ◌>>=◌ append_parse_error_throw_stmt
  append_then {lo = lo} {hi} {p = p} list f a k =
      elim_cases (λ (r : Outcome StmtList × Parser). Post t lo hi (bind r f)) p.error_msg
        (λ _. k list p a)
        (λ message _. k _ _ (record {
          window = a.window;
          within = a.within;
          recorded = record { message = refl; panics = λ h. cc };
        }))

  -- The skip passes a token where the first one does not stop it, or is a newline.
  synchronize-Post :
      {lo hi n : ℕ} {p : Parser} (stop : TokenType → Bool)
      → At t n p
      → stop token_eof ≡ true
      → hi ≤ suc n
      → (n < hi → stop p.current_token.type ≡ true → is_newline p.current_token.type ≡ true)
      → Post t lo hi (synchronize stop p)
  unfolding synchronize
  synchronize-Post {hi = hi} {n} {p} stop a stops high clear =
      skip_then (λ type. not (stop type)) _ a (ap not stops)
        (λ q s. skip_lines-Post s.there (λ q' s'. far q s q' s'))
    where
      far :
          (q : Parser) (s : Skips t n (λ type. not (stop type)) p q) (q' : Parser)
          (s' : Skips t s.to is_newline q q')
          → hi ≤ s'.to
      far q s q' s' = elim (Bool-cases (ltb n hi)) [
        | inr low ↦ omega (arith, ltb-false n hi low, s.forward, s'.forward)
        | inl high' ↦ elim (Bool-cases (stop p.current_token.type)) [
          | inr goes ↦ omega (arith, s.moved (ap not goes), s'.forward)
          | inl halts ↦
              let same : q ≡ p = s.stays (ap not halts) in
              omega (
                arith,
                s'.moved (
                    ap (λ (r : Parser). is_newline r.current_token.type) same
                    ∙ clear (ltb→lt n hi high') halts),
                s.forward,
              )
        ]
      ]

  add_stmt-Post :
      {lo hi n : ℕ} {p : Parser} (list : StmtList) (s : Stmt)
      → At t n p
      → hi ≤ n
      → Post t lo hi (add_stmt list s p)
  unfolding with_src
  add_stmt-Post {lo} {hi} {n} list s a le =
      bind-Post {lo' = lo} {hi' = n} _ _ (here_then _ (pure-Post _ a (omega arith))) (omega arith)
        (λ x k q lt b. lines_then _ b (λ q' s'. pure-Post _ s'.there (omega (arith, s'.forward))))

  error-Post :
      {lo hi n : ℕ} {p : Parser} (stop : TokenType → Bool) (list : StmtList)
      → At t n p
      → stop token_eof ≡ true
      → hi ≤ suc n
      → (n < hi → stop p.current_token.type ≡ true → is_newline p.current_token.type ≡ true)
      → Post t lo hi
          ((append_parse_error_throw_stmt list >>= λ more. synchronize stop >> pure more) p)
  error-Post {lo} {hi} {n} {p} stop list a stops high clear = append_then list _ a (λ more q b.
      then-Post {lo' = lo} {hi' = hi} _ _
        (synchronize-Post stop b stops high (λ lt halts.
          ap is_newline (same_type a b) ∙ clear lt (ap stop (sym (same_type a b)) ∙ halts)))
        (omega arith) (λ k q' le c. pure-Post _ c le))

  -- At a NULL the error is recorded, so the loop of `parse_block` goes on.
  after_null-Post :
      {lo hi n : ℕ} {p : Parser} (list : StmtList)
      → At t n p
      → p.had_error ≡ true
      → hi ≤ suc n
      → (n < hi → stops_block p.current_token.type ≡ true → is_newline p.current_token.type ≡ true)
      → Post t lo hi (after_stmt list none p)
  after_null-Post {lo} {hi} {n} {p} list a bad high clear =
      elim_cases (λ (r : Outcome (StmtList × Bool) × Parser). Post t lo hi r) p.error_msg
        (λ e. let no_message : true ≡ false = sym bad ∙ a.recorded.message ∙ ap is_message e in cc)
        (λ message _.
          bind-Post {lo' = lo} {hi' = hi} _ _ (error-Post stops_block list a refl high clear)
            (omega arith) (λ more k q le c. pure-Post _ c le))

  after_some-Post :
      {lo hi n : ℕ} {p : Parser} (list : StmtList) (s : Stmt)
      → At t n p
      → hi ≤ n
      → Post t lo hi (after_stmt list (some s) p)
  after_some-Post {lo} {hi} list s a le =
      bind-Post {lo' = lo} {hi' = hi} _ _ (add_stmt-Post list s a le) (omega arith)
        (λ more k q le' c. pure-Post _ c le')

  At-end : {n : ℕ} {p : Parser} → At t n p → is token_eof p.current_token.type ≡ true → t.last ≤ n
  At-end {n} a e = elim (Bool-cases (ltb n t.last)) [
    | inr over ↦ ltb-false n t.last over
    | inl under ↦
        cc (sym e ∙ ap (λ s. is token_eof s.type) a.window.0, t.first n (ltb→lt n t.last under))
  ]

  -- A NULL at the token where the statement was to start.
  null_clear :
      {n k : ℕ} {p q : Parser} (stop : TokenType → Bool)
      → At t n p
      → At t k q
      → n ≤ k
      → (stop p.current_token.type ≡ true → is_newline p.current_token.type ≡ true)
      → k < suc n
      → stop q.current_token.type ≡ true
      → is_newline q.current_token.type ≡ true
  null_clear {n} {k} {p} {q} stop a b le clear lt halts =
      let here : k ≡ n = omega (arith, le, lt) in
      let same : q.current_token.type ≡ p.current_token.type =
        ap (λ s. s.type) b.window.0
        ∙ ap (λ i. (token_at t.source i).type) here
        ∙ sym (ap (λ s. s.type) a.window.0) in
      ap is_newline same ∙ clear (ap stop (sym same) ∙ halts)

module _ {t : Text} {lo : ℕ} {statement : Parse Stmt} (st : Consumes t lo statement) where
  block_rounds-Post :
      (fuel : ℕ) {null n : ℕ} {p : Parser} (list : StmtList)
      → At t n p
      → lo ≤ n
      → t.last < n + fuel
      → Post t null n (block_rounds statement fuel list p)
  unfolding block_rounds
  block_rounds-Post zero list a le h = absurd (omega (arith, a.within))
  block_rounds-Post (suc fuel) {null} {n} {p} list a le h =
      let more : (k : ℕ) (q : Parser) (r : StmtList × Bool)
          → suc n ≤ k
          → At t k q
          → Post t null n ((if r.1 then block_rounds statement fuel r.0 else pure r.0) q) =
        λ k q r lt b.
          if-Post r.1 _ _
            (λ _.
              Post-weaken {lo' = null}
                (block_rounds-Post fuel r.0 b (omega (arith, lt)) (omega (arith, lt))) (omega arith)
                (omega (arith, lt)))
            (λ _. pure-Post _ b (omega (arith, lt))) in
      if-Post (ends_block p.current_token.type) _ _ (λ _. pure-Post _ a (omega arith))
        (λ goes.
          attempt_then _ _ (st n p le a)
            (λ x k q lt b.
              bind-Post {lo' = null} {hi' = k} _ _ (after_some-Post list x b (omega arith))
                (omega arith) (λ r k' q' lt' b'. more k' q' r (omega (arith, lt, lt')) b'))
            (λ k q le' b bad.
              bind-Post {lo' = null} {hi' = suc n} _ _
                (after_null-Post list b bad (omega (arith, le')) (λ lt.
                  null_clear stops_block a b le'
                    (only_newline _ (is token_rbrace p.current_token.type) _ goes) lt))
                (omega arith) (λ r k' q' lt' b'. more k' q' r lt' b')))

  pub parse_block-Post :
      {null n : ℕ} {p : Parser} (rounds : ℕ)
      → At t n p
      → lo ≤ n
      → t.last < rounds
      → Post t null n (parse_block statement rounds p)
  unfolding parse_block
  parse_block-Post {null} rounds a le enough = here_then _ (
      expect_then _ _ _ a refl (λ k q lt b. lines_then _ b (λ q' s.
        bind-Post {lo' = null} _ _
          (block_rounds-Post rounds _ s.there (omega (arith, s.forward)) (omega (arith, s.forward)))
          (omega arith)
          (λ list k1 q1 lt1 b1.
            expect_then _ _ _ b1 refl
              (λ k2 q2 lt2 b2. pure-Post _ b2 (omega (arith, s.forward, lt1, lt2)))))))

  -- The own-line error, or the statement.
  after_top-Post :
      {null n : ℕ} {p : Parser} (list : StmtList) (s : Stmt)
      → At t n p
      → Post t null n (after_top list (some s) p)
  after_top-Post {null} {n} {p} list s a =
      if-Post (own_line s && not (stops_program p.current_token.type)) _ _
        (λ _. note_then _ _ a (λ q b bad.
          error-Post stops_program list b refl (omega arith) (λ lt halts. absurd (omega arith))))
        (λ _. add_stmt-Post list s a (omega arith))

  -- The loop of `parser_parse` makes a list, and ends at the first EOF token.
  pub program_rounds-Post :
      (fuel : ℕ) {null n : ℕ} {p : Parser} (list : StmtList)
      → At t n p
      → lo ≤ n
      → t.last < n + fuel
      → Post t null t.last (program_rounds statement fuel list p)
  unfolding program_rounds
  program_rounds-Post zero list a le h = absurd (omega (arith, a.within))
  program_rounds-Post (suc fuel) {null} {n} {p} list a le h =
      let more : (k : ℕ) (q : Parser) (r : StmtList)
          → suc n ≤ k
          → At t k q
          → Post t null t.last (program_rounds statement fuel r q) =
        λ k q r lt b. program_rounds-Post fuel r b (omega (arith, lt)) (omega (arith, lt)) in
      if-Post (is token_eof p.current_token.type) _ _ (λ e. pure-Post _ a (At-end a e))
        (λ goes.
          attempt_then _ _ (st n p le a)
            (λ x k q lt b.
              bind-Post {lo' = null} {hi' = k} _ _ (after_top-Post list x b) (omega arith)
                (λ r k' q' lt' b'. more k' q' r (omega (arith, lt, lt')) b'))
            (λ k q le' b bad.
              bind-Post {lo' = null} {hi' = suc n} _ _
                (error-Post stops_program list b refl (omega (arith, le'))
                  (λ lt. null_clear stops_program a b le' (newline_stops _ _ goes) lt))
                (omega arith) (λ r k' q' lt' b'. more k' q' r lt' b')))
