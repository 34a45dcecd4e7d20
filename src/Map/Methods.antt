-- ===== src/Map/Methods.antt =====
-- `value_map_set` and `value_map_get` against a map as a function from keys.
use native.Mathlib.Numerals.{add-one}
use prefix.Base.{
  ℕ, zero, suc, ◌+◌, ◌≤◌, ◌<◌, true, Option, none, some, List, [], ◌∷◌, ◌≡◌, refl, sym, ◌∙◌, ap,
  arith, ◌==◌, ==_iff, if◌then◌else◌, length, Bool-cases, inl, inr, length-append, ◌≢◌, elim_cases,
}
use prefix.Map.Append.{map_append_entry-Appended, key_at-append, key_at-last}
use prefix.Map.Find.{last_index, last_index-some, last_index-none}
use prefix.Map.Key.{map_key_equals, map_key_equals_join, map_key_equals_symm}
use prefix.Map.Links.{home_of, last_in}
use prefix.Map.Table.{
  bucket_of, MapEntry, Map, key_at, next_at, value_at, map_append_entry, store_value, value_map_set,
  value_map_get,
}
use prefix.Map.Valid.{IsValid, int_items, map_find_index_int, last_in_congr}
use prefix.Value.{Value}

module _ {V : Type 0} where
  -- The value under a key among the first `n` items.
  unfoldable pub lookup : List (MapEntry V) → Value → ℕ → Option V
  lookup items key zero = none
  lookup items key (suc n) =
      if map_key_equals (key_at items n) key then value_at items n else lookup items key n

  lookup-last_index :
      (items : List (MapEntry V)) (key : Value) (n : ℕ)
      → (elim (last_index items key n) as (λ _. Option V) [
        | some i ↦ value_at items i
        | none ↦ none
      ])
        ≡ lookup items key n
  unfolding lookup last_index
  lookup-last_index items key zero = refl
  lookup-last_index items key (suc n) = elim (Bool-cases (map_key_equals (key_at items n) key)) [
    | inl hit ↦ rw hit
    | inr miss ↦ rw miss (lookup-last_index items key n)
  ]

  pub value_map_get-lookup :
      (m : Map V) (key : Value)
      → IsValid m
      → length m.items ≤ int_items
      → value_map_get m key ≡ lookup m.items key (length m.items)
  unfolding value_map_get
  value_map_get-lookup m key valid small =
      rw (value_map_get, map_find_index_int m key valid small)
        (lookup-last_index m.items key (length m.items))

  pub lookup_congr :
      (es fs : List (MapEntry V)) (key : Value) (n : ℕ)
      → ((i : ℕ) → i < n → key_at fs i ≡ key_at es i)
      → ((i : ℕ) → i < n → value_at fs i ≡ value_at es i)
      → lookup fs key n ≡ lookup es key n
  unfolding lookup
  lookup_congr es fs key zero k v = refl
  lookup_congr es fs key (suc n) k v = rw (
    k n (omega arith),
    v n (omega arith),
    lookup_congr es fs key n (λ i lt. k i (omega arith)) (λ i lt. v i (omega arith)),
  )

  store_value-at :
      (es : List (MapEntry V)) (i : ℕ) (v : V)
      → (length (store_value es i v) ≡ length es)
        × ((j : ℕ) → key_at (store_value es i v) j ≡ key_at es j)
        × ((j : ℕ) → next_at (store_value es i v) j ≡ next_at es j)
        × ((j : ℕ) → j ≢ i → value_at (store_value es i v) j ≡ value_at es j)
        × (i < length es → value_at (store_value es i v) i ≡ some v)
  unfolding store_value key_at next_at value_at
  store_value-at [] i v = (refl, λ _. refl, λ _. refl, λ _ _. refl, λ h. absurd (omega arith))
  store_value-at (e ∷ es) zero v = (
    refl,
    elim [ zero ↦ refl | suc j ↦ refl ],
    elim [ zero ↦ refl | suc j ↦ refl ],
    elim [ zero ↦ λ ne. absurd (ne refl) | suc j ↦ λ _. refl ],
    λ _. refl,
  )
  store_value-at (e ∷ es) (suc i) v =
      let (len, keys, nexts, others, here) = store_value-at es i v in
      (
        ap suc len,
        elim [ zero ↦ refl | suc j ↦ keys j ],
        elim [ zero ↦ refl | suc j ↦ nexts j ],
        elim [ zero ↦ λ _. refl | suc j ↦ λ ne. others j (λ e. ne (ap suc e)) ],
        λ lt. here (omega arith),
      )

  -- Writing at the index at which `key` is found changes what is found under `key`, and no more.
  lookup-store_value :
      (es : List (MapEntry V)) (key q : Value) (v : V) (i n : ℕ)
      → n ≤ length es
      → last_index es key n ≡ some i
      → lookup (store_value es i v) q n ≡ (if map_key_equals key q then some v else lookup es q n)
  unfolding lookup last_index
  lookup-store_value es key q v i zero le h = cc
  lookup-store_value es key q v i (suc n) le h =
      let (len, keys, nexts, others, here) = store_value-at es i v in
      elim (Bool-cases (map_key_equals (key_at es n) key)) [
        | inl hit ↦
            let e : n ≡ i = ground arith in
            let at : value_at (store_value es i v) n ≡ some v = rw e (here (omega arith)) in
            let below =
              lookup_congr es (store_value es i v) q n (λ j _. keys j)
                (λ j lt. others j (omega arith)) in
            rw (keys n, at, below)
              (ground (
                arith,
                map_key_equals_join (key_at es n) key q hit,
                map_key_equals_join key (key_at es n) q,
                map_key_equals_symm (key_at es n) key,
              ))
        | inr miss ↦
            let found = rw miss at h in
            let below = (last_index-some es key n i found).0 in
            let apart : n ≢ i = omega arith in
            rw (keys n, others n apart, lookup-store_value es key q v i n (omega arith) found)
              (ground (
                arith,
                map_key_equals_join q (key_at es n) key,
                map_key_equals_symm (key_at es n) q,
                map_key_equals_symm key q,
              ))
      ]

  -- A write of a value leaves the chains in order.
  store_value-IsValid :
      (m : Map V) (i : ℕ) (v : V)
      → IsValid m
      → IsValid (record m { items = store_value m.items i v })
  store_value-IsValid m i v valid =
      let (len, keys, nexts, _, _) = store_value-at m.items i v in
      let bc = length m.buckets in
      let old = home_of bc m.items in
      let new = home_of bc (store_value m.items i v) in
      let agree : (j : ℕ) → old j ≡ new j = λ j. ap (bucket_of bc) (sym (keys j)) in
      record {
        bare = λ e. len ∙ valid.bare e;
        linked = λ pos.
            let linked = valid.linked pos in
            record {
              heads = λ b lt.
                  linked.heads b lt
                  ∙ last_in_congr old new (length m.items) b (λ j _. agree j)
                  ∙ ap (λ n. last_in new n b) (sym len);
              nexts = λ j lt.
                  nexts j
                  ∙ linked.nexts j (omega arith)
                  ∙ last_in_congr old new j (old j) (λ k _. agree k)
                  ∙ ap (last_in new j) (agree j);
            };
        unique = λ j k lt lt' h.
            valid.unique j k (omega arith) (omega arith) (rw (← keys j, ← keys k) h);
      }

  append-IsValid :
      (m : Map V) (key : Value) (value : V)
      → IsValid m
      → last_index m.items key (length m.items) ≡ none
      → IsValid (map_append_entry m key value).0
  append-IsValid m key value valid absent =
      let a = map_append_entry-Appended m valid key value in
      let e : MapEntry V = record { key = key; value = value; next_hash = none } in
      let n = length m.items in
      let count : length (map_append_entry m key value).0.items ≡ n + 1 =
        a.same.same_length ∙ length-append m.items (e ∷ []) in
      let old : (i : ℕ)
          → i < n
          → key_at (map_append_entry m key value).0.items i ≡ key_at m.items i =
        λ i lt. a.same.same_key i ∙ (key_at-append m.items e i lt).0 in
      let last : key_at (map_append_entry m key value).0.items n ≡ key =
        a.same.same_key n ∙ (key_at-last m.items e).0 in
      record {
        bare = λ h. absurd (omega (arith, a.filled));
        linked = λ _. rw count a.linked;
        unique = λ i j lt lt' h. elim (Bool-cases (i == n)) [
          | inl i_last ↦ elim (Bool-cases (j == n)) [
            | inl j_last ↦ (==_iff i n).0 i_last ∙ sym ((==_iff j n).0 j_last)
            | inr j_old ↦
                let e' = last_index-none m.items key n j absent (ground arith) in
                let h' : map_key_equals key (key_at m.items j) ≡ true =
                  rw (← last, ← old j (ground arith), ← (==_iff i n).0 i_last) h in
                cc (e', map_key_equals_symm key (key_at m.items j), h')
          ]
          | inr i_old ↦ elim (Bool-cases (j == n)) [
            | inl j_last ↦
                let e' = last_index-none m.items key n i absent (ground arith) in
                let h' : map_key_equals (key_at m.items i) key ≡ true =
                  rw (← last, ← old i (ground arith), ← (==_iff j n).0 j_last) h in
                cc (e', h')
            | inr j_old ↦
                valid.unique i j (ground arith) (ground arith)
                  (rw (← old i (ground arith), ← old j (ground arith)) h)
          ]
        ];
      }

  lookup-append :
      (m : Map V) (key q : Value) (value : V)
      → IsValid m
      → (let r = (map_append_entry m key value).0 in
          lookup r.items q (length r.items)
          ≡ (if map_key_equals key q then some value else lookup m.items q (length m.items)))
  unfolding lookup
  lookup-append m key q value valid =
      let a = map_append_entry-Appended m valid key value in
      let e : MapEntry V = record { key = key; value = value; next_hash = none } in
      let n = length m.items in
      let last = key_at-last m.items e in
      let count : length (map_append_entry m key value).0.items ≡ suc n =
        a.same.same_length ∙ length-append m.items (e ∷ []) ∙ add-one n in
      rw (
        count,
        a.same.same_key n,
        a.same.same_value n,
        last.0,
        last.2,
        lookup_congr m.items (map_append_entry m key value).0.items q n
            (λ i lt. a.same.same_key i ∙ (key_at-append m.items e i lt).0)
            (λ i lt. a.same.same_value i ∙ (key_at-append m.items e i lt).2),
      )

  -- A map of up to 2 ^ 31 items stays valid under `value_map_set`: its chains hold the items of
  -- their hash in order, and no two keys are equal.
  pub value_map_set-IsValid :
      (m : Map V) (key : Value) (value : V)
      → IsValid m
      → length m.items ≤ int_items
      → IsValid (value_map_set m key value)
  unfolding value_map_set
  value_map_set-IsValid m key value valid small =
      rw (value_map_set, map_find_index_int m key valid small)
        (go (last_index m.items key (length m.items)) refl)
    where
      go :
          (o : Option ℕ)
          → last_index m.items key (length m.items) ≡ o
          → IsValid (elim o as (λ _. Map V) [
            | some i ↦ record m { items = store_value m.items i value }
            | none ↦ (map_append_entry m key value).0
          ])
      go (some i) e = store_value-IsValid m i value valid
      go none e = append-IsValid m key value valid e

  -- At most one item more.
  length-value_map_set :
      (m : Map V) (key : Value) (value : V)
      → IsValid m
      → length m.items ≤ int_items
      → length (value_map_set m key value).items ≤ length m.items + 1
  unfolding value_map_set
  length-value_map_set m key value valid small =
      rw (value_map_set, map_find_index_int m key valid small)
        (elim_cases (λ (r : Map V). length r.items ≤ length m.items + 1)
          (last_index m.items key (length m.items))
          (λ _.
            let a = map_append_entry-Appended m valid key value in
            let e : MapEntry V = record { key = key; value = value; next_hash = none } in
            omega (arith, a.same.same_length ∙ length-append m.items (e ∷ [])))
          (λ i _. omega (arith, (store_value-at m.items i value).0)))

  -- In a valid map of fewer than 2 ^ 31 items, `value_map_get` behind `value_map_set` finds the new
  -- value under every key that is equal to the one written, and under any other key what it found
  -- before.
  pub value_map_get-value_map_set :
      (m : Map V) (key q : Value) (value : V)
      → IsValid m
      → length m.items < int_items
      → value_map_get (value_map_set m key value) q
        ≡ (if map_key_equals key q then some value else value_map_get m q)
  unfolding value_map_set
  value_map_get-value_map_set m key q value valid small =
      rw
        (
          value_map_get-lookup (value_map_set m key value) q
              (value_map_set-IsValid m key value valid (omega (arith, small)))
              (omega (arith, small, length-value_map_set m key value valid (omega (arith, small)))),
          value_map_get-lookup m q valid (omega (arith, small)),
          value_map_set,
          map_find_index_int m key valid (omega (arith, small)),
        )
        (go (last_index m.items key (length m.items)) refl)
    where
      go :
          (o : Option ℕ)
          → last_index m.items key (length m.items) ≡ o
          → (let r = elim o as (λ _. Map V) [
            | some i ↦ record m { items = store_value m.items i value }
            | none ↦ (map_append_entry m key value).0
          ] in
              lookup r.items q (length r.items)
              ≡ (if map_key_equals key q then some value else lookup m.items q (length m.items)))
      go (some i) e =
          rw (store_value-at m.items i value).0
            (lookup-store_value m.items key q value i (length m.items) (omega arith) e)
      go none e = lookup-append m key q value valid
