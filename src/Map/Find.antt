-- ===== src/Map/Find.antt =====
-- src/value.c: the search along a chain of a map, and the search of all its items.
use prefix.Base.{
  ℕ, zero, suc, ◌%◌, ◌≤◌, ◌<◌, true, false, Option, none, some, List, ◌≡◌, refl, ◌∙◌, ap, arith,
  ◌==◌, ==_iff, if◌then◌else◌, Bool-cases, inl, inr,
}
use prefix.Map.Key.{map_key_equals, map_hash_key-map_key_equals}
use prefix.Map.Links.{last_in, home_of, IsLinked}
use prefix.Map.Table.{MapEntry, key_at, bucket_of, chain_index}
use prefix.Value.{Value}

module _ {V : Type 0} where
  -- The greatest index under `n` of an item whose key is equal to `key`.
  unfoldable pub last_index : List (MapEntry V) → Value → ℕ → Option ℕ
  last_index items key zero = none
  last_index items key (suc n) =
      if map_key_equals (key_at items n) key then some n else last_index items key n

  pub chain_index-last_index :
      (bc count : ℕ) (items : List (MapEntry V)) (buckets : List (Option ℕ)) (key : Value)
      → IsLinked bc count items buckets
      → (n fuel : ℕ) → n ≤ count
      → n ≤ fuel
      → chain_index fuel items (last_in (home_of bc items) n (bucket_of bc key)) key
        ≡ some (last_index items key n)
  unfolding last_index last_in chain_index
  chain_index-last_index bc count items buckets key linked zero fuel le enough = refl
  chain_index-last_index bc count items buckets key linked (suc n) zero le enough =
      absurd (omega arith)
  chain_index-last_index bc count items buckets key linked (suc n) (suc fuel) le enough =
      let home = home_of bc items in
      let b = bucket_of bc key in
      elim (Bool-cases (home n == b)) [
        | inl same ↦ rw same (elim (Bool-cases (map_key_equals (key_at items n) key)) [
          | inl hit ↦ rw hit
          | inr miss ↦ rw miss (
              ap (λ o. chain_index fuel items o key)
                (linked.nexts n (omega arith) ∙ ap (last_in home n) ((==_iff _ _).0 same))
              ∙ chain_index-last_index bc count items buckets key linked n fuel (omega arith)
                  (omega arith))
        ])
        | inr other ↦
            let miss : map_key_equals (key_at items n) key ≡ false =
              elim (Bool-cases (map_key_equals (key_at items n) key)) [
                | inl hit ↦
                    let e : home n ≡ b = ap (λ h. h % bc) (map_hash_key-map_key_equals _ _ hit) in
                    cc (other, (==_iff (home n) b).1 e)
                | inr miss ↦ miss
              ] in
            rw (other, miss)
              (chain_index-last_index bc count items buckets key linked n (suc fuel) (omega arith)
                (omega arith))
      ]

  -- A key that is found stands at the index, and one that is not found stands nowhere.
  pub last_index-some :
      (items : List (MapEntry V)) (key : Value) (n i : ℕ)
      → last_index items key n ≡ some i
      → (i < n) × (map_key_equals (key_at items i) key ≡ true)
  unfolding last_index
  last_index-some items key zero i h = cc
  last_index-some items key (suc n) i h = elim (Bool-cases (map_key_equals (key_at items n) key)) [
    | inl hit ↦ let e : n ≡ i = ground arith in (omega arith, rw (← e) hit)
    | inr miss ↦ let (lt, eq) = last_index-some items key n i (rw miss at h) in (omega arith, eq)
  ]

  pub last_index-none :
      (items : List (MapEntry V)) (key : Value) (n i : ℕ)
      → last_index items key n ≡ none
      → i < n
      → map_key_equals (key_at items i) key ≡ false
  unfolding last_index
  last_index-none items key zero i h lt = absurd (omega arith)
  last_index-none items key (suc n) i h lt =
      elim (Bool-cases (map_key_equals (key_at items n) key)) [
        | inl hit ↦ cc (rw hit at h)
        | inr miss ↦ elim (Bool-cases (i == n)) [
          | inl here ↦ rw ((==_iff i n).0 here) miss
          | inr below ↦ last_index-none items key n i (rw miss at h) (ground arith)
        ]
      ]
