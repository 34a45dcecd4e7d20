-- ===== src/Lexer/Goes.antt =====
-- The lexer's line and column are those of its position, and it only goes forward.
pub mod Text
pub mod Word
pub mod Token
use native.Mathlib.Numerals.{add-one}
use prefix.Base.{
  ◌*◌, ◌<◌, length, ap, ℕ, zero, suc, ◌+◌, ◌-◌, ◌≤◌, Bool, true, false, ◌≡◌, refl, ◌∙◌, arith, ◌==◌,
  if◌then◌else◌, Bytes, get_or, Option, none, some, if_both,
}
use prefix.Lexer.Chars.{hex_digit}
use prefix.Lexer.Escape.{escape_char, hex_digits, hex_pair, append_codepoint}
use prefix.Lexer.State.{
  Lexer, source_len, byte_at, is_at_end, peek, advance, fmt_buffer_append, flush_fmt_buffer,
  fmt_error,
}

-- The newlines among the first `n` bytes, and the bytes since the last of them.
unfoldable pub newlines : Bytes → ℕ → ℕ
newlines s zero = 0
newlines s (suc n) = newlines s n + (if get_or s n 0 == b'\n' then 1 else 0)

unfoldable pub since_newline : Bytes → ℕ → ℕ
since_newline s zero = 0
since_newline s (suc n) = if get_or s n 0 == b'\n' then 0 else since_newline s n + 1

abbrev pub IsPlaced : Lexer → Type 0
IsPlaced lx =
    (lx.line ≡ 1 + newlines lx.source lx.current)
    × (lx.column ≡ 1 + since_newline lx.source lx.current)

-- The source and the flags that `lexer_next_token` tests first stay, the position goes forward by
-- `k` at least, and line and column keep up.
pub record Goes (k : ℕ) (lx lx' : Lexer) : Type 0 where
  pub source : lx'.source ≡ lx.source
  pub forward : lx.current + k ≤ lx'.current
  pub placed : IsPlaced lx → IsPlaced lx'
  pub in_fmt_string : lx'.in_fmt_string ≡ lx.in_fmt_string
  pub has_pending : lx'.has_pending ≡ lx.has_pending

-- Nothing that `Goes` speaks of is changed.
abbrev pub Stays : Lexer → Lexer → Type 0
Stays lx lx' =
    (lx'.source ≡ lx.source)
    × (lx'.current ≡ lx.current)
    × (lx'.line ≡ lx.line)
    × (lx'.column ≡ lx.column)
    × (lx'.in_fmt_string ≡ lx.in_fmt_string)
    × (lx'.has_pending ≡ lx.has_pending)

pub Goes-stay : {k : ℕ} {a b : Lexer} (c : Lexer) → Goes k a b → Stays b c → Goes k a c
Goes-stay c g (s, i, l, m, f, h) = record {
  source = s ∙ g.source;
  forward = omega arith;
  placed = λ p. rw (s, i, l, m) (g.placed p);
  in_fmt_string = f ∙ g.in_fmt_string;
  has_pending = h ∙ g.has_pending;
}

pub Goes-refl : (lx : Lexer) → Goes 0 lx lx
Goes-refl lx = record {
  source = refl;
  forward = omega arith;
  placed = λ p. p;
  in_fmt_string = refl;
  has_pending = refl;
}

pub Goes-trans :
    {j k : ℕ} {a b c : Lexer} (i : ℕ) → Goes j a b → Goes k b c → i ≤ j + k → Goes i a c
Goes-trans i g h le = record {
  source = h.source ∙ g.source;
  forward = omega arith;
  placed = λ p. h.placed (g.placed p);
  in_fmt_string = h.in_fmt_string ∙ g.in_fmt_string;
  has_pending = h.has_pending ∙ g.has_pending;
}

pub advance-Goes : (lx : Lexer) → Goes 1 lx (advance lx)
unfolding advance newlines since_newline
advance-Goes lx = record {
  source = refl;
  forward = omega arith;
  placed = λ p. ground (arith, add-one lx.current, p.0, p.1);
  in_fmt_string = refl;
  has_pending = refl;
}

-- One character more.
pub advance_on : {k : ℕ} {a b : Lexer} → Goes k a b → Goes 1 a (advance b)
advance_on g = Goes-trans 1 g (advance-Goes _) (omega arith)

abbrev flag : Bool → ℕ
flag true = 1
flag false = 0

-- What is left to do: three for each byte, one for a pending token, one for an open string.
abbrev pub energy : Lexer → ℕ
energy lx = 3 * (source_len lx - lx.current) + (flag lx.has_pending + flag lx.in_fmt_string)

-- The state behind a token: there is less left to do.
pub record Given (lx lx' : Lexer) : Type 0 where
  pub source : lx'.source ≡ lx.source
  pub forward : lx.current ≤ lx'.current
  pub placed : IsPlaced lx → IsPlaced lx'
  pub spent : energy lx' < energy lx

pub Given-of_Goes : {a b : Lexer} → Goes 1 a b → a.current < source_len a → Given a b
Given-of_Goes g h = record {
  source = g.source;
  forward = omega arith;
  placed = g.placed;
  spent = rw (g.source, g.in_fmt_string, g.has_pending) (ground arith);
}

-- The string is over.
pub Given-end :
    {k : ℕ} {a b : Lexer} (c : Lexer)
    → Goes k a b
    → Stays b (record c { in_fmt_string = b.in_fmt_string })
    → a.in_fmt_string ≡ true
    → c.in_fmt_string ≡ false
    → Given a c
Given-end c g (s, i, l, m, _, h) opened shut = record {
  source = s ∙ g.source;
  forward = omega arith;
  placed = λ p. rw (s, i, l, m) (g.placed p);
  spent = rw (s, i, h, opened, shut, g.source, g.has_pending) (ground (arith, g.forward));
}

energy-le : {k : ℕ} {a b : Lexer} → Goes k a b → energy b ≤ energy a
energy-le g = rw (g.source, g.in_fmt_string, g.has_pending) (omega (arith, g.forward))

pub Given-trans : {k : ℕ} {a b c : Lexer} → Goes k a b → Given b c → Given a c
Given-trans {a} {b} {c} g h = record {
  source = h.source ∙ g.source;
  forward = omega arith;
  placed = λ p. h.placed (g.placed p);
  spent = omega (arith, energy-le g);
}

-- A string is begun behind the quote passed over, and scanned from there.
pub Given-begin :
    {a b c d : Lexer}
    → Goes 1 a b
    → a.current < source_len a
    → Stays b (record c { in_fmt_string = b.in_fmt_string })
    → c.in_fmt_string ≡ true
    → Given c d
    → Given a d
Given-begin {a} {b} {c} g inside (s, i, l, m, _, h) opened t = record {
  source = t.source ∙ s ∙ g.source;
  forward = omega (arith, g.forward, t.forward);
  placed = λ p. t.placed (rw (s, i, l, m) (g.placed p));
  spent =
      let begun : energy c < energy a =
        rw (s, i, h, opened, g.source, g.has_pending) (ground (arith, g.forward)) in
      omega (arith, t.spent);
}

pub Given-stay : {a b : Lexer} (c : Lexer) → Given a b → Stays b c → Given a c
Given-stay c g (s, i, l, m, f, h) = record {
  source = s ∙ g.source;
  forward = omega (arith, g.forward);
  placed = λ p. rw (s, i, l, m) (g.placed p);
  spent = rw (s, i, f, h) g.spent;
}
