-- ===== src/Parser/Outcome.antt =====
-- src/parser.c: what a parse function returns, and the order of its steps.
use prefix.Base.{Option, none, some, if◌then◌else◌, Bytes}
use prefix.Parser.Cursor.{Parser, report_error, advance, consume, skip_newlines}
use prefix.Parser.Kinds.{is}
use prefix.Token.{TokenType}

-- `null` is a NULL pointer, false or TYPE_UNKNOWN; `stuck` has no counterpart in the source: the
-- fuel is used up.
pub data Outcome {ℓ} (A : Type ℓ) : Type ℓ where
  made : A → Outcome A
  null stuck : Outcome A

abbrev pub Parse {ℓ} : Type ℓ → Type ℓ
Parse A = Parser → Outcome A × Parser

abbrev pub bind {ℓ κ} :
    {A : Type ℓ} {B : Type κ} → Outcome A × Parser → (A → Parse B) → Outcome B × Parser
bind (made a, p) f = f a p
bind (null, p) f = (null, p)
bind (stuck, p) f = (stuck, p)

module _ {ℓ κ} {A : Type ℓ} {B : Type κ} where
  infixl 2 ◌>>=◌ ◌>>◌
  unfoldable pub ◌>>=◌ : Parse A → (A → Parse B) → Parse B
  m >>= f = λ p. bind (m p) f

  unfoldable pub ◌>>◌ : Parse A → Parse B → Parse B
  m >> q = λ p. bind (m p) λ _. q

unfoldable pub pure {ℓ} : {A : Type ℓ} → A → Parse A
pure a p = (made a, p)

-- The parser as it stands.
unfoldable pub here : Parse Parser
here p = (made p, p)

-- Reports an error and returns NULL.
unfoldable pub fail {ℓ} : {A : Type ℓ} → Bytes → Parse A
fail message p = (null, report_error message p)

unfoldable pub note : Bytes → Parse (Unit {0})
note message p = (made tt, report_error message p)

unfoldable pub next : Parse (Unit {0})
next p = (made tt, advance p)

-- A `consume` whose result is not used.
unfoldable pub expect : TokenType → Bytes → Parse (Unit {0})
expect type message p = (made tt, (consume (is type) message p).1)

-- A `consume` without which the function returns NULL.
unfoldable pub require : TokenType → Bytes → Parse (Unit {0})
require type message p = if is type p.current_token.type then next p else fail message p

-- A `match`: what is done behind the token, and what where it is not there.
unfoldable pub on {ℓ} : {A : Type ℓ} → TokenType → Parse A → Parse A → Parse A
on type m other p = (if is type p.current_token.type then next >> m else other) p

abbrev pub returned {ℓ} : {A : Type ℓ} → Outcome A × Parser → Outcome (Option A) × Parser
returned (made a, p) = (made (some a), p)
returned (null, p) = (made none, p)
returned (stuck, p) = (stuck, p)

-- What is returned, NULL included.
unfoldable pub attempt {ℓ} : {A : Type ℓ} → Parse A → Parse (Option A)
attempt m p = returned (m p)

unfoldable pub give_back {ℓ} : {A : Type ℓ} → Option A → Parse A
give_back (some a) p = (made a, p)
give_back none p = (null, p)

unfoldable pub skip_lines : Parse (Unit {0})
skip_lines p = (made tt, skip_newlines p)

-- Returns NULL without an error of its own.
unfoldable pub returns_null {ℓ} : {A : Type ℓ} → Parse A
returns_null p = (null, p)
