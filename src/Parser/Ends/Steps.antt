-- ===== src/Parser/Ends/Steps.antt =====
-- src/parser.c: the steps of a parse function, and how far they go.
use prefix.Base.{
  ℕ, suc, ◌≤◌, ◌<◌, Bool, true, false, Option, none, some, ◌≡◌, refl, arith, if_cases,
  if◌then◌else◌, Bytes,
}
use prefix.Parser.Cursor.{Parser, advance, consume}
use prefix.Parser.Kinds.{is}
use prefix.Parser.Outcome.{
  Outcome, Parse, bind, ◌>>=◌, ◌>>◌, pure, here, fail, next, expect, on, returned, attempt, require,
  give_back,
}
use prefix.Parser.Reach.{
  Text, At, Reached, Post, makes, nulls, report_error-At, report_error-had_error, advance-At,
  advance-had_error,
}
use prefix.Token.{TokenType, token_eof}

-- A function that passes one token at least where it makes something, and one that may pass none.
abbrev pub Strict {ℓ} : Text → ℕ → {A : Type ℓ} → Parse A → Type ℓ
Strict t n m = (p : Parser) → At t n p → Post t n (suc n) (m p)

abbrev pub Lax {ℓ} : Text → ℕ → {A : Type ℓ} → Parse A → Type ℓ
Lax t n m = (p : Parser) → At t n p → Post t n n (m p)

module _ {t : Text} where
  pub reached : {lo n : ℕ} {p : Parser} → At t n p → lo ≤ n → Reached t lo p
  reached a le = record { to = _; forward = le; there = a }

  pub Reached-weaken : {lo lo' : ℕ} {p : Parser} → Reached t lo' p → lo ≤ lo' → Reached t lo p
  Reached-weaken r le = record {
    to = r.to;
    forward = omega (arith, r.forward, le);
    there = r.there;
  }

  pub Post-weaken {ℓ} :
      {A : Type ℓ} {lo lo' hi hi' : ℕ} {r : Outcome A × Parser}
      → Post t lo' hi' r
      → lo ≤ lo'
      → hi ≤ hi'
      → Post t lo hi r
  Post-weaken (makes h) le le' = makes (Reached-weaken h le')
  Post-weaken (nulls h e) le le' = nulls (Reached-weaken h le) e

  expect-taken :
      {n : ℕ} {p : Parser} (type : TokenType) (message : Bytes)
      → At t n p
      → is type token_eof ≡ false
      → is type p.current_token.type ≡ true
      → Reached t (suc n) (consume (is type) message p).1
  expect-taken {n} {p} type message a no_eof passes =
      if_cases (λ (r : Bool × Parser). Reached t (suc n) r.1) (is type p.current_token.type)
        (λ e. advance-At a (is type) no_eof e) (λ e. cc)

  expect-Reached :
      {n : ℕ} {p : Parser} (type : TokenType) (message : Bytes)
      → At t n p
      → is type token_eof ≡ false
      → Reached t n (consume (is type) message p).1
  expect-Reached {n} {p} type message a no_eof =
      if_cases (λ (r : Bool × Parser). Reached t n r.1) (is type p.current_token.type)
        (λ e. Reached-weaken (advance-At a (is type) no_eof e) (omega arith))
        (λ e. reached (report_error-At message a) (omega arith))

  bound {ℓ κ} :
      {A : Type ℓ} {B : Type κ} {lo hi lo' hi' : ℕ} (r : Outcome A × Parser) (f : A → Parse B)
      → Post t lo' hi' r
      → lo ≤ lo'
      → ((a : A) (k : ℕ) (q : Parser) → hi' ≤ k → At t k q → Post t lo hi (f a q))
      → Post t lo hi (bind r f)
  bound r f (makes {a} h) le k = k a h.to _ h.forward h.there
  bound r f (nulls h e) le k = nulls (Reached-weaken h le) e

  bind_lem {ℓ κ} :
      {A : Type ℓ} {B : Type κ} {lo hi : ℕ} (p : Parser) (m : Parse A) (f : A → Parse B)
      → Post t lo hi (bind (m p) f)
      → Post t lo hi ((m >>= f) p)
  unfolding ◌>>=◌
  bind_lem p m f h = h

  then_lem {ℓ κ} :
      {A : Type ℓ} {B : Type κ} {lo hi : ℕ} (p : Parser) (m : Parse A) (f : Parse B)
      → Post t lo hi (bind (m p) (λ _. f))
      → Post t lo hi ((m >> f) p)
  unfolding ◌>>◌
  then_lem p m f h = h

  here_lem {ℓ} :
      {B : Type ℓ} {lo hi : ℕ} (p : Parser) (f : Parser → Parse B)
      → Post t lo hi (f p p)
      → Post t lo hi (bind (here p) f)
  unfolding here
  here_lem p f h = h

  next_lem {ℓ} :
      {B : Type ℓ} {lo hi : ℕ} (p : Parser) (f : Unit {0} → Parse B)
      → Post t lo hi (f tt (advance p))
      → Post t lo hi (bind (next p) f)
  unfolding next
  next_lem p f h = h

  expect_lem {ℓ} :
      {B : Type ℓ} {lo hi : ℕ} (p : Parser) (type : TokenType) (message : Bytes)
      (f : Unit {0} → Parse B)
      → Post t lo hi (f tt (consume (is type) message p).1)
      → Post t lo hi (bind (expect type message p) f)
  unfolding expect
  expect_lem p type message f h = h

  pub bind-Post {ℓ κ} :
      {A : Type ℓ} {B : Type κ} {lo hi lo' hi' : ℕ} {p : Parser} (m : Parse A) (f : A → Parse B)
      → Post t lo' hi' (m p)
      → lo ≤ lo'
      → ((a : A) (k : ℕ) (q : Parser) → hi' ≤ k → At t k q → Post t lo hi (f a q))
      → Post t lo hi ((m >>= f) p)
  bind-Post {p = p} m f h le k = bind_lem p m f (bound (m p) f h le k)

  pub then-Post {ℓ κ} :
      {A : Type ℓ} {B : Type κ} {lo hi lo' hi' : ℕ} {p : Parser} (m : Parse A) (f : Parse B)
      → Post t lo' hi' (m p)
      → lo ≤ lo'
      → ((k : ℕ) (q : Parser) → hi' ≤ k → At t k q → Post t lo hi (f q))
      → Post t lo hi ((m >> f) p)
  then-Post {p = p} m f h le k = then_lem p m f (bound (m p) (λ _. f) h le (λ _. k))

  pub here_then {ℓ} :
      {B : Type ℓ} {lo hi : ℕ} {p : Parser} (f : Parser → Parse B)
      → Post t lo hi (f p p)
      → Post t lo hi ((here >>= f) p)
  here_then {p = p} f h = bind_lem p here f (here_lem p f h)

  -- The token in front passes a test that EOF does not.
  pub next_then {ℓ} :
      {B : Type ℓ} {lo hi n : ℕ} {p : Parser} (f : Parse B)
      → At t n p
      → (test : TokenType → Bool) → test token_eof ≡ false
      → test p.current_token.type ≡ true
      → ((k : ℕ) → n < k → At t k (advance p) → Post t lo hi (f (advance p)))
      → Post t lo hi ((next >> f) p)
  next_then {p = p} f a test no_eof passes k =
      let r = advance-At a test no_eof passes in
      then_lem p next f (next_lem p (λ _. f) (k r.to r.forward r.there))

  -- Where the token is the one that is expected, one token is passed at least.
  pub expect_take {ℓ} :
      {B : Type ℓ} {lo hi n : ℕ} {p : Parser} (type : TokenType) (message : Bytes) (f : Parse B)
      → At t n p
      → is type token_eof ≡ false
      → is type p.current_token.type ≡ true
      → ((k : ℕ) (q : Parser) → n < k → At t k q → Post t lo hi (f q))
      → Post t lo hi ((expect type message >> f) p)
  expect_take {p = p} type message f a no_eof passes k =
      let r = expect-taken type message a no_eof passes in
      then_lem p (expect type message) f
        (expect_lem p type message (λ _. f) (k r.to _ r.forward r.there))

  pub expect_then {ℓ} :
      {B : Type ℓ} {lo hi n : ℕ} {p : Parser} (type : TokenType) (message : Bytes) (f : Parse B)
      → At t n p
      → is type token_eof ≡ false
      → ((k : ℕ) (q : Parser) → n ≤ k → At t k q → Post t lo hi (f q))
      → Post t lo hi ((expect type message >> f) p)
  expect_then {p = p} type message f a no_eof k =
      let r = expect-Reached type message a no_eof in
      then_lem p (expect type message) f
        (expect_lem p type message (λ _. f) (k r.to _ r.forward r.there))

  pub expect-Post :
      {n : ℕ} {p : Parser} (type : TokenType) (message : Bytes)
      → At t n p
      → is type token_eof ≡ false
      → Post t n n (expect type message p)
  unfolding expect
  expect-Post type message a no_eof = makes (expect-Reached type message a no_eof)

  fail_lem {ℓ} :
      {A : Type ℓ} {lo hi n : ℕ} (p : Parser) (message : Bytes)
      → At t n p
      → lo ≤ n
      → Post t lo hi {A = A} (fail message p)
  unfolding fail
  fail_lem p message a le =
      nulls (reached (report_error-At message a) le) (report_error-had_error message p a.recorded)

  pub fail-Post {ℓ} :
      {A : Type ℓ} {lo hi n : ℕ} {p : Parser} (message : Bytes)
      → At t n p
      → lo ≤ n
      → Post t lo hi {A = A} (fail message p)
  fail-Post message a le = fail_lem _ message a le

  pure_lem {ℓ} :
      {A : Type ℓ} {lo hi n : ℕ} (p : Parser) (x : A) → At t n p → hi ≤ n → Post t lo hi (pure x p)
  unfolding pure
  pure_lem p x a le = makes (reached a le)

  pub pure-Post {ℓ} :
      {A : Type ℓ} {lo hi n : ℕ} {p : Parser} (x : A) → At t n p → hi ≤ n → Post t lo hi (pure x p)
  pure-Post x a le = pure_lem _ x a le

  require_lem :
      {n : ℕ} (p : Parser) (type : TokenType) (message : Bytes)
      → At t n p
      → is type token_eof ≡ false
      → Post t n n (require type message p)
  unfolding require next
  require_lem {n} p type message a no_eof =
      if_cases (λ (r : Outcome (Unit {0}) × Parser). Post t n n r) (is type p.current_token.type)
        (λ e. makes (Reached-weaken (advance-At a (is type) no_eof e) (omega arith)))
        (λ e. fail-Post message a (omega arith))

  pub require-Post :
      {n : ℕ} {p : Parser} (type : TokenType) (message : Bytes)
      → At t n p
      → is type token_eof ≡ false
      → Post t n n (require type message p)
  require-Post type message a no_eof = require_lem _ type message a no_eof

  pub if-Post {ℓ} :
      {A : Type ℓ} {lo hi : ℕ} {p : Parser} (b : Bool) (m other : Parse A)
      → (b ≡ true → Post t lo hi (m p))
      → (b ≡ false → Post t lo hi (other p))
      → Post t lo hi ((if b then m else other) p)
  if-Post true m other x y = x refl
  if-Post false m other x y = y refl

  on_lem {ℓ} :
      {A : Type ℓ} {lo hi : ℕ} (p : Parser) (type : TokenType) (m other : Parse A)
      → (is type p.current_token.type ≡ true → Post t lo hi ((next >> m) p))
      → (is type p.current_token.type ≡ false → Post t lo hi (other p))
      → Post t lo hi (on type m other p)
  unfolding on
  on_lem p type m other x y = if-Post (is type p.current_token.type) (next >> m) other x y

  pub on-Post {ℓ} :
      {A : Type ℓ} {lo hi n : ℕ} {p : Parser} (type : TokenType) (m other : Parse A)
      → At t n p
      → is type token_eof ≡ false
      → ((k : ℕ) → n < k → At t k (advance p) → Post t lo hi (m (advance p)))
      → Post t lo hi (other p)
      → Post t lo hi (on type m other p)
  on-Post {p = p} type m other a no_eof there absent =
      on_lem p type m other (λ e. next_then m a (is type) no_eof e there) (λ _. absent)

  attempt_lem {ℓ κ} :
      {A : Type ℓ} {B : Type κ} {lo hi lo' hi' : ℕ} (r : Outcome A × Parser)
      (f : Option A → Parse B)
      → Post t lo' hi' r
      → ((x : A) (k : ℕ) (q : Parser) → hi' ≤ k → At t k q → Post t lo hi (f (some x) q))
      → ((k : ℕ) (q : Parser) → lo' ≤ k → At t k q → q.had_error ≡ true → Post t lo hi (f none q))
      → Post t lo hi (bind (returned r) f)
  attempt_lem r f (makes {a} h) good bad = good a h.to _ h.forward h.there
  attempt_lem r f (nulls h e) good bad = bad h.to _ h.forward h.there e

  attempt_open {ℓ κ} :
      {A : Type ℓ} {B : Type κ} {lo hi : ℕ} (p : Parser) (m : Parse A) (f : Option A → Parse B)
      → Post t lo hi (bind (returned (m p)) f)
      → Post t lo hi ((attempt m >>= f) p)
  unfolding ◌>>=◌ attempt
  attempt_open p m f h = h

  pub attempt_then {ℓ κ} :
      {A : Type ℓ} {B : Type κ} {lo hi lo' hi' : ℕ} {p : Parser} (m : Parse A)
      (f : Option A → Parse B)
      → Post t lo' hi' (m p)
      → ((x : A) (k : ℕ) (q : Parser) → hi' ≤ k → At t k q → Post t lo hi (f (some x) q))
      → ((k : ℕ) (q : Parser) → lo' ≤ k → At t k q → q.had_error ≡ true → Post t lo hi (f none q))
      → Post t lo hi ((attempt m >>= f) p)
  attempt_then {p = p} m f h good bad = attempt_open p m f (attempt_lem (m p) f h good bad)

  expect-had_error :
      {n : ℕ} (p : Parser) (type : TokenType) (message : Bytes)
      → At t n p
      → p.had_error ≡ true
      → (consume (is type) message p).1.had_error ≡ true
  expect-had_error p type message a h =
      if_cases (λ (r : Bool × Parser). r.1.had_error ≡ true) (is type p.current_token.type)
        (λ _. advance-had_error p a.recorded h) (λ _. report_error-had_error message p a.recorded)

  -- NULL behind a token that is expected.
  pub null_behind {ℓ} :
      {A : Type ℓ} {lo hi n : ℕ} {p : Parser} (type : TokenType) (message : Bytes)
      → At t n p
      → is type token_eof ≡ false
      → p.had_error ≡ true
      → lo ≤ n
      → Post t lo hi {A = A} ((expect type message >> give_back none) p)
  unfolding ◌>>◌ expect give_back
  null_behind {p = p} type message a no_eof h le =
      nulls (Reached-weaken (expect-Reached type message a no_eof) le)
        (expect-had_error p type message a h)

  pub give_back-Post {ℓ} :
      {A : Type ℓ} {lo hi n : ℕ} {p : Parser} (x : A)
      → At t n p
      → hi ≤ n
      → Post t lo hi (give_back (some x) p)
  unfolding give_back
  give_back-Post x a le = makes (reached a le)
