-- ===== src/Parser/Ends/Annotation.antt =====
-- src/parser.c: how far type annotations, typed names and parameters go.
use prefix.Ast.{Expr, ParamList, param_list_add}
use prefix.Base.{
  ℕ, zero, suc, ◌+◌, ◌≤◌, ◌<◌, Bool, true, false, ◌&&◌, ◌||◌, Option, none, some, ◌≡◌, refl, arith,
  if_cases,
}
use prefix.Base.Int.{ℤ}
use prefix.Number.Literal.{parse_prefixed_int_literal}
use prefix.Parser.Annotation.{
  k_type_name_gap_error, require_space_only_gap, base_of, close_base, with_base, no_base, read_base,
  base_annotation, schema_annotation, annotation_tail, annotation_of, parse_type_annotation,
  typed_name, parse_typed_ident_expr, typed_param, parse_one_param, param_rounds, parse_param_list,
}
use prefix.Parser.Cursor.{Parser, literal_or_empty}
use prefix.Parser.Gap.{gap_holds}
use prefix.Parser.Kinds.{is, is_type_token, parse_type_name}
use prefix.Parser.Outcome.{Parse, bind, ◌>>=◌, ◌>>◌, pure, here, fail}
use prefix.Parser.Reach.{Text, At, Post, nulls, report_error-At, report_error-had_error}
use prefix.Parser.Ends.Steps.{
  bind-Post, then-Post, here_then, next_then, fail-Post, pure-Post, require-Post, if-Post, on-Post,
  Post-weaken, reached,
}
use prefix.Token.{
  Token, TokenType, token_ident, token_number, token_lparen, token_eof, token_rbrace, token_rparen,
}
use prefix.Value.Types.{DeclType, same_type, type_map, type_unknown, is_number}

-- Wherever it starts from `lo` on, it passes a token where it makes something.
abbrev pub Consumes {ℓ} : Text → ℕ → {A : Type ℓ} → Parse A → Type ℓ
Consumes t lo m = (n : ℕ) (p : Parser) → lo ≤ n → At t n p → Post t n (suc n) (m p)

-- Wherever it starts from `lo` on, it ends.
abbrev pub Runs {ℓ} : Text → ℕ → {A : Type ℓ} → Parse A → Type ℓ
Runs t lo m = (n : ℕ) (p : Parser) → lo ≤ n → At t n p → Post t n n (m p)

pub and_left : (a b : Bool) → (a && b) ≡ true → a ≡ true
and_left true b h = refl
and_left false b h = h

pub and_right : (a b : Bool) → (a && b) ≡ true → b ≡ true
and_right true b h = h
and_right false b h = cc

-- The kinds of token that may stand behind a gap.
abbrev pub behind_gap : TokenType → Bool
behind_gap type = is token_ident type || is token_lparen type

module _ {t : Text} where
  pub gap_open {ℓ} :
      {B : Type ℓ} {lo hi n : ℕ} (p : Parser) (left : Token) (f : Parse B)
      → At t n p
      → lo ≤ n
      → (behind_gap p.current_token.type ≡ true → Post t lo hi (f p))
      → Post t lo hi ((require_space_only_gap left >> f) p)
  unfolding ◌>>◌ ◌>>=◌ here pure fail require_space_only_gap gap_holds
  gap_open {lo = lo} {hi} p left f a le k =
      if_cases (λ (m : Parse (Unit {0})). Post t lo hi (bind (m p) (λ _. f)))
        (gap_holds p.lexer.source left p.current_token) (λ e. k (and_left _ _ e))
        (λ _.
          nulls (reached (report_error-At k_type_name_gap_error a) le)
            (report_error-had_error k_type_name_gap_error p a.recorded))

  base_annotation-Post :
      {n : ℕ} {p : Parser} (type : DeclType) → At t n p → Post t n n (base_annotation type p)
  unfolding base_annotation
  base_annotation-Post {n} {p} type a = here_then _ (
      if-Post (is token_number p.current_token.type) _ _
        (λ e. read type (parse_prefixed_int_literal (literal_or_empty p.current_token)) e)
        (λ _. no_number))
    where
      no_number : Post t n n (no_base p.current_token p)
      no_number =
          if-Post (is token_rbrace p.current_token.type) _ _ (λ _. fail-Post _ a (omega arith))
            (λ _. fail-Post _ a (omega arith))

      close :
          (type : DeclType) (base k : ℕ) (q : Parser)
          → n ≤ k
          → At t k q
          → Post t n n (close_base type base q)
      close type base k q le b = here_then _ (
          then-Post _ _ (require-Post _ _ b refl) le (λ k' q' le' b'. pure-Post _ b' (omega arith)))

      with :
          (type : DeclType) (o : Option ℕ)
          → is token_number p.current_token.type ≡ true
          → Post t n n (with_base type o p)
      with type (some base) e =
          next_then _ a (is token_number) refl e (λ k lt b. close type base k _ (omega arith) b)
      with type none e = fail-Post _ a (omega arith)

      read :
          (type : DeclType) (o : Option (ℤ × ℕ))
          → is token_number p.current_token.type ≡ true
          → Post t n n (read_base type p.current_token o p)
      read type (some (value, base)) e = with type (base_of value) e
      read type none e = no_number

pub not_eof : is_type_token token_eof ≡ false
unfolding is_type_token
not_eof = refl

module _ {t : Text} {lo : ℕ} {expression : Parse Expr} (ex : Consumes t lo expression) where
  schema_annotation-Post :
      {n : ℕ} {p : Parser} → At t n p → lo ≤ n → Post t n n (schema_annotation expression p)
  unfolding schema_annotation
  schema_annotation-Post {n} {p} a le = here_then _ (
      if-Post (is token_rbrace p.current_token.type) _ _ (λ _. fail-Post _ a (omega arith))
        (λ _. bind-Post _ _ (ex n p le a) (omega arith) (λ schema k q lt b.
          then-Post _ _ (require-Post _ _ b refl) (omega arith)
            (λ k' q' le' b'. here_then _ (pure-Post _ b' (omega arith))))))

  annotation_tail-Post :
      {n : ℕ} {p : Parser} (type : DeclType) (name : Token)
      → At t n p
      → lo ≤ n
      → Post t n n (annotation_tail expression type name p)
  unfolding annotation_tail
  annotation_tail-Post {n} {p} type name a le =
      if-Post (is_number type) _ _
        (λ _.
          on-Post _ _ _ a refl
            (λ k lt b. Post-weaken (base_annotation-Post type b) (omega arith) (omega arith))
            (pure-Post _ a (omega arith)))
        (λ _.
          if-Post (same_type type type_map) _ _
            (λ _.
              on-Post _ _ _ a refl
                (λ k lt b.
                  Post-weaken (schema_annotation-Post b (omega arith)) (omega arith) (omega arith))
                (pure-Post _ a (omega arith)))
            (λ _.
              on-Post _ _ _ a refl (λ k lt b. fail-Post _ b (omega arith))
                (pure-Post _ a (omega arith))))

  pub parse_type_annotation-Post :
      {n : ℕ} {p : Parser}
      → At t n p
      → lo ≤ suc n
      → is_type_token p.current_token.type ≡ true
      → Post t n (suc n) (parse_type_annotation expression p)
  unfolding parse_type_annotation
  parse_type_annotation-Post {n} {p} a le e =
      if-Post (is_type_token p.current_token.type) _ _
        (λ _. typed (parse_type_name (literal_or_empty p.current_token))) (λ f. cc)
    where
      typed : (type : DeclType) → Post t n (suc n) (annotation_of expression type p.current_token p)
      typed type =
          if-Post (same_type type type_unknown) _ _ (λ _. fail-Post _ a (omega arith))
            (λ _. next_then _ a is_type_token not_eof e (λ k lt b.
              Post-weaken (annotation_tail-Post type p.current_token b (omega arith)) (omega arith)
                (omega arith)))

  pub typed_name-Post :
      {n : ℕ} {p : Parser}
      → At t n p
      → lo ≤ suc n
      → is_type_token p.current_token.type ≡ true
      → Post t n (suc n) (typed_name expression p)
  unfolding typed_name
  typed_name-Post a le e =
      bind-Post _ _ (parse_type_annotation-Post a le e) (omega arith) (λ ta k q lt b.
        gap_open q ta.end_tok _ b (omega arith) (λ name.
          here_then _
            (next_then _ b behind_gap refl name (λ k' lt' b'. pure-Post _ b' (omega arith)))))

  pub parse_typed_ident_expr-Post :
      {n : ℕ} {p : Parser}
      → At t n p
      → lo ≤ suc n
      → is_type_token p.current_token.type ≡ true
      → Post t n (suc n) (parse_typed_ident_expr expression p)
  unfolding parse_typed_ident_expr
  parse_typed_ident_expr-Post a le e = here_then _ (
      bind-Post _ _ (typed_name-Post a le e) (omega arith)
        (λ ta k q lt b. pure-Post _ b (omega arith)))

  typed_param-Post :
      {n : ℕ} {p : Parser} (coerced : Bool)
      → At t n p
      → lo ≤ suc n
      → Post t n (suc n) (typed_param expression coerced p)
  unfolding typed_param
  typed_param-Post {n} {p} coerced a le = here_then _ (
      if-Post (is_type_token p.current_token.type) _ _
        (λ e. bind-Post _ _ (typed_name-Post a le e) (omega arith) (λ ta k q lt b.
          on-Post _ _ _ b refl
            (λ k' lt' b'.
              bind-Post _ _ (ex k' _ (omega arith) b') (omega arith)
                (λ value k'' q'' lt'' b''. pure-Post _ b'' (omega arith)))
            (pure-Post _ b (omega arith))))
        (λ _.
          if-Post coerced _ _ (λ _. fail-Post _ a (omega arith))
            (λ _. fail-Post _ a (omega arith))))

  parse_one_param-Post :
      {n : ℕ} {p : Parser} → At t n p → lo ≤ suc n → Post t n (suc n) (parse_one_param expression p)
  unfolding parse_one_param
  parse_one_param-Post a le =
      on-Post _ _ _ a refl
        (λ k lt b. Post-weaken (typed_param-Post true b (omega arith)) (omega arith) (omega arith))
        (typed_param-Post false a le)

  param_rounds-Post :
      (fuel : ℕ) {n : ℕ} {p : Parser} (ps : ParamList)
      → At t n p
      → lo ≤ suc n
      → t.last < n + fuel
      → Post t n n (param_rounds expression fuel ps p)
  unfolding param_rounds
  param_rounds-Post zero ps a le h = absurd (omega (arith, a.within))
  param_rounds-Post (suc fuel) ps a le h =
      bind-Post _ _ (parse_one_param-Post a le) (omega arith) (λ q k r lt b.
        on-Post _ _ _ b refl
          (λ k' lt' b'.
            Post-weaken
              (param_rounds-Post fuel (param_list_add ps q) b' (omega arith) (omega arith))
              (omega arith) (omega arith))
          (pure-Post _ b (omega arith)))

  pub parse_param_list-Post :
      {n : ℕ} {p : Parser} (rounds : ℕ)
      → At t n p
      → lo ≤ n
      → t.last < rounds
      → Post t n n (parse_param_list expression rounds p)
  unfolding parse_param_list
  parse_param_list-Post {n} {p} rounds a le h = here_then _ (
      if-Post (is token_rparen p.current_token.type) _ _ (λ _. pure-Post _ a (omega arith))
        (λ _. param_rounds-Post rounds _ a (omega arith) (omega arith)))
