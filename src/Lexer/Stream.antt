-- ===== src/Lexer/Stream.antt =====
-- The stream of tokens that the calls of `lexer_next_token` on one source give.
use prefix.Base.{ℕ, zero, suc, ◌+◌, ◌≤◌, ◌≡◌, refl, arith, Bytes, inl, inr, ◌∙◌}
use prefix.Lexer.Goes.{IsPlaced, newlines, since_newline}
use prefix.Lexer.Goes.Token.{after_tokens, Progresses, lexer_next_token-Given}
use prefix.Lexer.Next.{lexer_next_token}
use prefix.Lexer.State.{Lexer, lexer_init}

-- Where the lexer stands, and that its line and column are those of that place.
abbrev pub Stands : Bytes → ℕ → Lexer → Type 0
Stands source from lx = (lx.source ≡ source) × (from ≤ lx.current) × IsPlaced lx

after_tokens-Stands :
    (n : ℕ) (lx : Lexer) → IsPlaced lx → Stands lx.source lx.current (after_tokens n lx)
after_tokens-Stands zero lx p = (refl, omega arith, p)
after_tokens-Stands (suc n) lx p =
    one (lexer_next_token-Given lx) (after_tokens-Stands n (lexer_next_token lx).1)
  where
    one :
        Progresses lx (lexer_next_token lx)
        → (IsPlaced (lexer_next_token lx).1
            → Stands
                (lexer_next_token lx).1.source
                (lexer_next_token lx).1.current
                (after_tokens n (lexer_next_token lx).1))
        → Stands lx.source lx.current (after_tokens n (lexer_next_token lx).1)
    one (inl g) later =
        let (s, le, q) = later (g.placed p) in (s ∙ g.source, omega (arith, g.forward), q)
    one (inr e) later =
        let (s, le, q) = later (e.placed p) in (s ∙ e.source, omega (arith, e.forward), q)

-- After any number of tokens of a source, the lexer's line is one more than the newlines among the
-- bytes passed over, its column one more than the bytes since the last of these newlines, and the
-- source is as `lexer_init` left it.
pub after_tokens-lexer_init :
    (source : Bytes) (n : ℕ)
    → (let lx = after_tokens n (lexer_init source) in
        (lx.source ≡ (lexer_init source).source)
        × (lx.line ≡ 1 + newlines lx.source lx.current)
        × (lx.column ≡ 1 + since_newline lx.source lx.current))
unfolding lexer_init newlines since_newline
after_tokens-lexer_init source n =
    let (s, _, p) = after_tokens-Stands n (lexer_init source) (refl, refl) in (s, p.0, p.1)
