-- ===== src/Value/Defs.antt =====
-- src/value.h: the tagged value. A container, a function and a thread is the address of its block.
use prefix.Base.{ℕ, Bool, Bytes}

-- An `int64_t` is its 64 bits, and so is a double; both carry the base that they print in.
pub data Value : Type 0 where
  null : Value
  bool : Bool → Value
  int : ℕ → ℕ → Value
  float : ℕ → ℕ → Bool → Value
  str : Bytes → Value
  tensor : ℕ → Value
  map : ℕ → Value
  func : ℕ → Value
  thread : ℕ → Value
