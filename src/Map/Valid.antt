-- ===== src/Map/Valid.antt =====
-- src/value.c: the invariant of a map, and `map_find_index` under it.
use native.Mathlib.Nat.{mod-lt}
use prefix.Base.{
  ended, ℕ, zero, suc, ◌<◌, ◌≤◌, ◌%◌, ◌^◌, true, Option, none, some, ltb, ◌≡◌, refl, ◌∙◌, ap, arith,
  ◌==◌, length, Bool-cases, inl, inr,
}
use prefix.Map.Find.{last_index, last_index-some, chain_index-last_index}
use prefix.Map.Key.{map_hash_key, map_key_equals}
use prefix.Map.Links.{last_in, IsLinked}
use prefix.Map.Table.{Map, key_at, chain_index, int_index, long_index, map_find_index}
use prefix.Value.{Value}

pub last_in_congr :
    (f g : ℕ → ℕ) (n b : ℕ) → ((j : ℕ) → j < n → f j ≡ g j) → last_in f n b ≡ last_in g n b
unfolding last_in
last_in_congr f g zero b h = refl
last_in_congr f g (suc n) b h =
    rw (h n (omega arith), last_in_congr f g n b (λ j lt. h j (omega arith)))

-- The items of a map whose indices are all an `int`.
abbrev pub int_items : ℕ
int_items = 2 ^ 31

int_index-same : (o : Option ℕ) → ((i : ℕ) → o ≡ some i → i < int_items) → int_index o ≡ o
unfolding int_index
int_index-same none h = refl
int_index-same (some i) h =
    let lt = h i refl in
    let low : i % 2 ^ 32 ≡ i = omega (arith, lt) in
    let is_int : ltb (i % 2 ^ 32) (2 ^ 31) ≡ true = ground (arith, lt, low) in
    rw is_int (ap some low)

module _ {V : Type 0} where
  -- With no buckets there are no items; otherwise the chains are in order. No two keys are equal.
  pub record IsValid (m : Map V) : Type 0 where
    pub bare : length m.buckets ≡ 0 → length m.items ≡ 0
    pub linked :
        0 < length m.buckets → IsLinked (length m.buckets) (length m.items) m.items m.buckets
    pub unique :
        (i j : ℕ)
        → i < length m.items
        → j < length m.items
        → map_key_equals (key_at m.items i) (key_at m.items j) ≡ true
        → i ≡ j

  long_index-last_index :
      (m : Map V) (key : Value)
      → IsValid m
      → long_index m key ≡ some (last_index m.items key (length m.items))
  unfolding long_index last_index
  long_index-last_index m key v = elim (Bool-cases (length m.items == 0)) [
    | inl none_there ↦
        rw none_there (
          ap (λ n. some (last_index m.items key n))
            (let e : 0 ≡ length m.items = ground arith in e))
    | inr some_there ↦ rw some_there (elim (Bool-cases (length m.buckets == 0)) [
      | inl bare ↦ let e = v.bare (ground arith) in absurd (ground arith)
      | inr filled ↦ rw filled (
          let pos : 0 < length m.buckets = ground arith in
          let linked = v.linked pos in
          ap (λ o. chain_index (length m.items) m.items o key)
            (linked.heads _ (mod-lt (map_hash_key key) pos))
          ∙ chain_index-last_index _ _ m.items m.buckets key linked _ _ (omega arith) (omega arith))
    ])
  ]

  -- What `map_find_index` gives where every index is an `int`.
  pub map_find_index_int :
      (m : Map V) (key : Value)
      → IsValid m
      → length m.items ≤ int_items
      → map_find_index m key ≡ last_index m.items key (length m.items)
  unfolding map_find_index
  map_find_index_int m key v small =
      ap (λ o. int_index (ended o)) (long_index-last_index m key v)
      ∙ int_index-same (last_index m.items key (length m.items)) (λ i e.
        let lt = (last_index-some m.items key (length m.items) i e).0 in omega (arith, lt, small))

  -- In a valid map of up to 2 ^ 31 items, so that each index is an `int`, the search along a chain
  -- comes to its end within as many rounds as there are items, and `map_find_index` gives the last
  -- index at which a search of all its items finds the key.
  pub map_find_index-last_index :
      (m : Map V) (key : Value)
      → IsValid m
      → length m.items ≤ int_items
      → (long_index m key ≡ some (last_index m.items key (length m.items)))
        × (map_find_index m key ≡ last_index m.items key (length m.items))
  map_find_index-last_index m key v small =
      (long_index-last_index m key v, map_find_index_int m key v small)
