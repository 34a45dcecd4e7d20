-- ===== src/Map/Key.antt =====
-- src/value.c: hashing and equality of map keys.
use prefix.Base.{
  ℕ, ◌*◌, ◌/◌, ◌%◌, ◌^◌, bit_xor, Bool, true, false, ◌&&◌, ◌||◌, not, ◌≡◌, arith, ltb, ◌==◌,
  if◌then◌else◌, Bytes, bytes_eq, bytes_eq_iff, [], ◌∷◌,
}
use prefix.Value.{Value, int, float, str}

abbrev pub u64 : ℕ
u64 = 2 ^ 64

pub map_hash_mix : ℕ → ℕ
map_hash_mix x =
    let a = bit_xor x (x / 2 ^ 33) in
    let b = a * 0xff51afd7ed558ccd % u64 in
    let c = bit_xor b (b / 2 ^ 33) in let d = c * 0xc4ceb9fe1a85ec53 % u64 in bit_xor d (d / 2 ^ 33)

-- The loop of `map_hash_string` (FNV-1a).
fnv : ℕ → Bytes → ℕ
fnv h [] = h
fnv h (c ∷ s) = fnv (bit_xor h c * 1099511628211 % u64) s

pub map_hash_string : Bytes → ℕ
map_hash_string s = map_hash_mix (fnv 1469598103934665603 s)

-- Of a double by its bits (IEEE 754): a zero of either sign, and a NaN.
pub is_zero : ℕ → Bool
is_zero bits = bits == 0 || bits == 2 ^ 63

pub is_nan : ℕ → Bool
is_nan bits = ltb 0x7ff0000000000000 (bits % 2 ^ 63)

-- `a == b` of two doubles.
pub float_eq : ℕ → ℕ → Bool
unfolding is_zero is_nan
float_eq a b = not (is_nan a) && (not (is_nan b) && ((is_zero a && is_zero b) || a == b))

unfoldable pub map_hash_key : Value → ℕ
unfolding map_hash_mix map_hash_string fnv is_zero
map_hash_key (int i base) = map_hash_mix (bit_xor i 0x9e3779b97f4a7c15)
map_hash_key (float bits base nan) =
    map_hash_mix (bit_xor (if is_zero bits then 0 else bits) 0x243f6a8885a308d3)
map_hash_key (str s) = map_hash_string s
map_hash_key _ = 0

unfoldable pub map_key_equals : Value → Value → Bool
unfolding float_eq bytes_eq
map_key_equals (int i _) (int j _) = i == j
map_key_equals (float a _ _) (float b _ _) = float_eq a b
map_key_equals (str s) (str t) = bytes_eq s t
map_key_equals _ _ = false

-- Equal keys have one hash, the zeros of both signs included.
pub map_hash_key-map_key_equals :
    (a b : Value) → map_key_equals a b ≡ true → map_hash_key a ≡ map_hash_key b
unfolding map_hash_key map_key_equals float_eq is_zero is_nan
map_hash_key-map_key_equals (int i _) (int j _) h = ground arith
map_hash_key-map_key_equals (float a _ _) (float b _ _) h = ground arith
map_hash_key-map_key_equals (str s) (str t) h = ground (arith, bytes_eq_iff s t)
map_hash_key-map_key_equals _ _ h = ground arith

-- A key that is equal to two keys makes them equal.
pub map_key_equals_join :
    (a b c : Value)
    → map_key_equals a b ≡ true
    → map_key_equals a c ≡ true
    → map_key_equals b c ≡ true
unfolding map_key_equals float_eq
map_key_equals_join (int i _) (int j _) (int k _) h g = ground arith
map_key_equals_join (float a _ _) (float b _ _) (float c _ _) h g = ground arith
map_key_equals_join (str s) (str t) (str u) h g =
    ground (arith, bytes_eq_iff s t, bytes_eq_iff s u, bytes_eq_iff t u)
map_key_equals_join _ _ _ h g = ground arith

pub map_key_equals_symm : (a b : Value) → map_key_equals a b ≡ map_key_equals b a
unfolding map_key_equals float_eq
map_key_equals_symm (int i _) (int j _) = ground arith
map_key_equals_symm (float a _ _) (float b _ _) = ground arith
map_key_equals_symm (str s) (str t) = ground (arith, bytes_eq_iff s t, bytes_eq_iff t s)
map_key_equals_symm _ _ = ground arith
