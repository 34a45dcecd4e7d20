-- ===== src/Map/Delete.antt =====
-- `value_map_delete` against a map as a function from keys.
use prefix.Base.{
  ℕ, zero, suc, ◌≤◌, ◌<◌, true, false, Option, none, some, List, [], ◌∷◌, ◌≡◌, refl, sym, ◌∙◌, ap,
  arith, ◌==◌, ltb, if◌then◌else◌, length, Bool-cases, inl, inr, if_cases, elim_cases, subst,
}
use prefix.Map.Append.{map_recommended_bucket_count-pos}
use prefix.Map.Find.{last_index, last_index-some, last_index-none}
use prefix.Map.Key.{map_key_equals, map_key_equals_join, map_key_equals_symm}
use prefix.Map.Links.{rehash-IsLinked, IsLinked, SameItems}
use prefix.Map.Methods.{lookup, lookup_congr, value_map_get-lookup}
use prefix.Map.Table.{
  MapEntry, Map, key_at, value_at, map_rehash, map_recommended_bucket_count, remove_at,
  value_map_get, value_map_delete,
}
use prefix.Map.Valid.{IsValid, int_items, map_find_index_int}
use prefix.Value.{Value}

module _ {V : Type 0} where
  -- Below `i` all stays, and from `i` on all moves up by one.
  remove_at-at :
      (es : List (MapEntry V)) (i : ℕ)
      → i < length es
      → (suc (length (remove_at es i)) ≡ length es)
        × ((j : ℕ) → j < i → key_at (remove_at es i) j ≡ key_at es j)
        × ((j : ℕ) → j < i → value_at (remove_at es i) j ≡ value_at es j)
        × ((j : ℕ) → i ≤ j → key_at (remove_at es i) j ≡ key_at es (suc j))
        × ((j : ℕ) → i ≤ j → value_at (remove_at es i) j ≡ value_at es (suc j))
  unfolding remove_at key_at value_at
  remove_at-at [] i h = absurd (omega arith)
  remove_at-at (e ∷ es) zero h =
      (refl, λ j lt. absurd (omega arith), λ j lt. absurd (omega arith), λ j _. refl, λ j _. refl)
  remove_at-at (e ∷ es) (suc i) h =
      let (len, keys, values, keys', values') = remove_at-at es i (omega arith) in
      (
        ap suc len,
        elim [ zero ↦ λ _. refl | suc j ↦ λ lt. keys j (omega arith) ],
        elim [ zero ↦ λ _. refl | suc j ↦ λ lt. values j (omega arith) ],
        elim [ zero ↦ λ le. absurd (omega arith) | suc j ↦ λ le. keys' j (omega arith) ],
        elim [ zero ↦ λ le. absurd (omega arith) | suc j ↦ λ le. values' j (omega arith) ],
      )

  lookup-none :
      (es : List (MapEntry V)) (q : Value) (n : ℕ)
      → ((j : ℕ) → j < n → map_key_equals (key_at es j) q ≡ false)
      → lookup es q n ≡ none
  unfolding lookup
  lookup-none es q zero h = refl
  lookup-none es q (suc n) h =
      rw (h n (omega arith)) (lookup-none es q n (λ j lt. h j (omega arith)))

  abbrev Unique : List (MapEntry V) → Type 0
  Unique es =
      (j k : ℕ)
      → j < length es
      → k < length es
      → map_key_equals (key_at es j) (key_at es k) ≡ true
      → j ≡ k

  -- Removing the last item that is found under `key` leaves nothing under `key`, and all else.
  lookup-remove_last :
      (es : List (MapEntry V)) (key q : Value) (n : ℕ)
      → n < length es
      → Unique es
      → map_key_equals (key_at es n) key ≡ true
      → lookup (remove_at es n) q n ≡ (if map_key_equals key q then none else lookup es q (suc n))
  unfolding lookup
  lookup-remove_last es key q n lt unique hit =
      let (_, keys, values, _, _) = remove_at-at es n lt in
      let below = lookup_congr es (remove_at es n) q n keys values in
      elim (Bool-cases (map_key_equals key q)) [
        | inl same ↦
            rw (below, same)
              (lookup-none es q n (λ j below_n. elim (Bool-cases (map_key_equals (key_at es j) q)) [
                | inl other ↦
                    let q_n : map_key_equals q (key_at es n) ≡ true =
                      map_key_equals_join key q (key_at es n) same
                        (map_key_equals_symm key (key_at es n) ∙ hit) in
                    let e = unique j n (omega arith) lt (
                      map_key_equals_join q (key_at es j) (key_at es n)
                        (map_key_equals_symm q (key_at es j) ∙ other) q_n) in
                    absurd (omega arith)
                | inr none_there ↦ none_there
              ]))
        | inr apart ↦
            rw (below, apart) (ground (arith, map_key_equals_join (key_at es n) key q hit))
      ]

  lookup-remove_at :
      (es : List (MapEntry V)) (key q : Value) (i n : ℕ)
      → i < length es
      → n < length es
      → Unique es
      → last_index es key (suc n) ≡ some i
      → lookup (remove_at es i) q n ≡ (if map_key_equals key q then none else lookup es q (suc n))
  unfolding lookup last_index
  lookup-remove_at es key q i zero inside lt unique h =
      elim (Bool-cases (map_key_equals (key_at es 0) key)) [
        | inl hit ↦
            let e : 0 ≡ i = ground arith in
            subst
              (λ k.
                lookup (remove_at es k) q 0
                ≡ (if map_key_equals key q then none else lookup es q (suc 0)))
              e (lookup-remove_last es key q 0 lt unique hit)
        | inr miss ↦ cc (rw miss at h)
      ]
  lookup-remove_at es key q i (suc n) inside lt unique h =
      elim (Bool-cases (map_key_equals (key_at es (suc n)) key)) [
        | inl hit ↦
            let e : suc n ≡ i = ground arith in
            subst
              (λ k.
                lookup (remove_at es k) q (suc n)
                ≡ (if map_key_equals key q then none else lookup es q (suc (suc n))))
              e (lookup-remove_last es key q (suc n) lt unique hit)
        | inr miss ↦
            let found = rw miss at h in
            let le : i ≤ n = omega (arith, (last_index-some es key (suc n) i found).0) in
            let (_, _, _, keys, values) = remove_at-at es i inside in
            let ih = lookup-remove_at es key q i n inside (omega arith) unique found in
            rw (keys n le, values n le, ih)
              (ground (
                arith,
                map_key_equals_join q (key_at es (suc n)) key,
                map_key_equals_symm (key_at es (suc n)) q,
                map_key_equals_symm key q,
              ))
      ]

  remove_at-Unique :
      (es : List (MapEntry V)) (i : ℕ) → i < length es → Unique es → Unique (remove_at es i)
  remove_at-Unique es i inside unique j k lt lt' h =
      let (len, keys, _, keys', _) = remove_at-at es i inside in
      elim (Bool-cases (ltb j i)) [
        | inl j_low ↦ elim (Bool-cases (ltb k i)) [
          | inl k_low ↦
              unique j k (omega arith) (omega arith)
                (rw (keys j (ground arith), keys k (ground arith)) at h)
          | inr k_high ↦
              let e =
                unique j (suc k) (omega arith) (omega arith)
                  (rw (keys j (ground arith), keys' k (ground arith)) at h) in
              absurd (ground arith)
        ]
        | inr j_high ↦ elim (Bool-cases (ltb k i)) [
          | inl k_low ↦
              let e =
                unique (suc j) k (omega arith) (omega arith)
                  (rw (keys' j (ground arith), keys k (ground arith)) at h) in
              absurd (ground arith)
          | inr k_high ↦
              let e =
                unique (suc j) (suc k) (omega arith) (omega arith)
                  (rw (keys' j (ground arith), keys' k (ground arith)) at h) in
              omega arith
        ]
      ]

  -- What is left of a valid map with buckets.
  abbrev rest_of : Map V → ℕ → Map V
  rest_of m i =
      let shorter : Map V = record m { items = remove_at m.items i } in
      if length m.buckets == 0
      then shorter
      else map_rehash shorter (map_recommended_bucket_count (length shorter.items))

  Removes : Map V → ℕ → Map V → Type 0
  Removes m i r =
      (0 < length r.buckets)
      × IsLinked (length r.buckets) (length r.items) r.items r.buckets
      × SameItems (remove_at m.items i) r.items

  rest_of-Removes : (m : Map V) (i : ℕ) → IsValid m → i < length m.items → Removes m i (rest_of m i)
  unfolding Removes
  rest_of-Removes m i valid inside =
      let shorter : Map V = record m { items = remove_at m.items i } in
      let n = map_recommended_bucket_count (length shorter.items) in
      let pos = map_recommended_bucket_count-pos (length shorter.items) in
      let (len, linked, same) = rehash-IsLinked shorter n pos in
      if_cases (Removes m i) (length m.buckets == 0)
        (λ none_there. let e = valid.bare (ground arith) in absurd (omega arith))
        (λ _. (omega arith, rw (len, same.same_length) linked, same))

  rest_of-IsValid : (m : Map V) (i : ℕ) → IsValid m → i < length m.items → IsValid (rest_of m i)
  unfolding Removes
  rest_of-IsValid m i valid inside =
      let (pos, linked, same) = rest_of-Removes m i valid inside in
      record {
        bare = λ e. absurd (omega arith);
        linked = λ _. linked;
        unique = λ j k lt lt' h.
            remove_at-Unique m.items i inside valid.unique j k (rw (← same.same_length) lt)
              (rw (← same.same_length) lt') (rw (← same.same_key j, ← same.same_key k) h);
      }

  -- A map of up to 2 ^ 31 items stays valid under `value_map_delete`: its chains hold the items of
  -- their hash in order, and no two keys are equal.
  pub value_map_delete-IsValid :
      (m : Map V) (key : Value)
      → IsValid m
      → length m.items ≤ int_items
      → IsValid (value_map_delete m key)
  unfolding value_map_delete
  value_map_delete-IsValid m key valid small =
      rw (value_map_delete, map_find_index_int m key valid small)
        (go (last_index m.items key (length m.items)) refl)
    where
      go :
          (o : Option ℕ)
          → last_index m.items key (length m.items) ≡ o
          → IsValid (elim o as (λ _. Map V) [ some i ↦ rest_of m i | none ↦ m ])
      go (some i) e = rest_of-IsValid m i valid (last_index-some m.items key _ i e).0
      go none e = valid

  lookup-rest_of :
      (m : Map V) (key q : Value) (i : ℕ)
      → IsValid m
      → last_index m.items key (length m.items) ≡ some i
      → lookup (rest_of m i).items q (length (rest_of m i).items)
        ≡ (if map_key_equals key q then none else lookup m.items q (length m.items))
  unfolding Removes
  lookup-rest_of m key q i valid found =
      let inside = (last_index-some m.items key _ i found).0 in
      let (_, _, same) = rest_of-Removes m i valid inside in
      let n = length (remove_at m.items i) in
      let len : length m.items ≡ suc n = sym (remove_at-at m.items i inside).0 in
      rw
        (
          same.same_length,
          lookup_congr (remove_at m.items i) (rest_of m i).items q n (λ j _. same.same_key j)
              (λ j _. same.same_value j),
          len,
        )
        (lookup-remove_at m.items key q i n inside (omega arith) valid.unique (rw len at found))

  -- No more items.
  length-value_map_delete :
      (m : Map V) (key : Value)
      → IsValid m
      → length m.items ≤ int_items
      → length (value_map_delete m key).items ≤ length m.items
  unfolding value_map_delete Removes
  length-value_map_delete m key valid small =
      rw (value_map_delete, map_find_index_int m key valid small)
        (elim_cases (λ (r : Map V). length r.items ≤ length m.items)
          (last_index m.items key (length m.items)) (λ _. omega arith)
          (λ i e.
            let inside = (last_index-some m.items key _ i e).0 in
            let (_, _, same) = rest_of-Removes m i valid inside in
            omega (arith, same.same_length, (remove_at-at m.items i inside).0)))

  -- In a valid map of up to 2 ^ 31 items, `value_map_get` behind `value_map_delete` finds nothing
  -- under a key that is equal to the one deleted, and under any other key what it found before.
  pub value_map_get-value_map_delete :
      (m : Map V) (key q : Value)
      → IsValid m
      → length m.items ≤ int_items
      → value_map_get (value_map_delete m key) q
        ≡ (if map_key_equals key q then none else value_map_get m q)
  unfolding value_map_delete
  value_map_get-value_map_delete m key q valid small =
      rw
        (
          value_map_get-lookup (value_map_delete m key) q
              (value_map_delete-IsValid m key valid small)
              (omega (arith, small, length-value_map_delete m key valid small)),
          value_map_get-lookup m q valid small,
          value_map_delete,
          map_find_index_int m key valid small,
        )
        (go (last_index m.items key (length m.items)) refl)
    where
      go :
          (o : Option ℕ)
          → last_index m.items key (length m.items) ≡ o
          → (let r = elim o as (λ _. Map V) [ some i ↦ rest_of m i | none ↦ m ] in
              lookup r.items q (length r.items)
              ≡ (if map_key_equals key q then none else lookup m.items q (length m.items)))
      go (some i) e = lookup-rest_of m key q i valid e
      go none e = elim (Bool-cases (map_key_equals key q)) [
        | inl same ↦ rw same (
            lookup-none m.items q (length m.items) (λ j lt. ground (
              arith,
              last_index-none m.items key (length m.items) j e lt,
              map_key_equals_join q (key_at m.items j) key,
              map_key_equals_symm q (key_at m.items j),
              map_key_equals_symm q key,
            )))
        | inr apart ↦ rw apart refl
      ]
