-- ===== src/Map/Table.antt =====
-- src/value.c: the operations of the ordered hash table. `value_map_set` and its like copy the key
-- and the value first (`value_copy`); here these copies are their arguments, and `V` stands for the
-- stored value. -1 is `none`, in a bucket and in `next_hash`.
use prefix.Base.{
  ended, ℕ, zero, suc, ◌+◌, ◌-◌, ◌*◌, ◌/◌, ◌%◌, ◌^◌, ◌&&◌, Option, none, some, List, [], ◌∷◌, ◌++◌,
  ltb, leb, ◌==◌, if◌then◌else◌, length, get_or, set, replicate,
}
use prefix.Map.Key.{u64, map_hash_key, map_key_equals}
use prefix.Value.{Value, null}

pub record MapEntry (V : Type 0) : Type 0 where
  pub key : Value
  pub value : V
  pub next_hash : Option ℕ

-- `count` is the length of `items`, and `bucket_count` that of `buckets`, empty for NULL.
pub record Map (V : Type 0) : Type 0 where
  pub items : List (MapEntry V)
  pub capacity : ℕ
  pub buckets : List (Option ℕ)

abbrev pub half_size_max : ℕ
half_size_max = (u64 - 1) / 2

-- `while (bc < needed && bc <= SIZE_MAX / 2) bc <<= 1;` ends in fewer than 64 rounds.
unfoldable pub doubled : ℕ → ℕ → ℕ → ℕ
doubled zero needed bc = bc
doubled (suc n) needed bc =
    let more = doubled n needed (bc * 2) in
    if ltb bc needed && leb bc half_size_max then more else bc

unfoldable pub map_recommended_bucket_count : ℕ → ℕ
unfolding doubled
map_recommended_bucket_count entries =
    doubled 64 (if ltb entries 8 then 16 else entries * 2 % u64) 16

abbrev pub bucket_of : ℕ → Value → ℕ
bucket_of bucket_count key = map_hash_key key % bucket_count

-- `(int)i`: the lowest 32 bits. Where their sign bit is set the `int` is negative, which every caller
-- of `map_find_index` takes for a key that is not there, as it takes -1.
unfoldable pub int_index : Option ℕ → Option ℕ
int_index none = none
int_index (some i) = let low = i % 2 ^ 32 in if ltb low (2 ^ 31) then some low else none

module _ {V : Type 0} where
  unfoldable pub key_at : List (MapEntry V) → ℕ → Value
  key_at [] i = null
  key_at (e ∷ es) zero = e.key
  key_at (e ∷ es) (suc i) = key_at es i

  unfoldable pub next_at : List (MapEntry V) → ℕ → Option ℕ
  next_at [] i = none
  next_at (e ∷ es) zero = e.next_hash
  next_at (e ∷ es) (suc i) = next_at es i

  unfoldable pub value_at : List (MapEntry V) → ℕ → Option V
  value_at [] i = none
  value_at (e ∷ es) zero = some e.value
  value_at (e ∷ es) (suc i) = value_at es i

  -- The loop of `map_rehash` over the items from index `i` on: each is put in front of its chain.
  unfoldable pub link :
      ℕ → ℕ → List (MapEntry V) → List (Option ℕ) → List (MapEntry V) × List (Option ℕ)
  link bucket_count i [] buckets = ([], buckets)
  link bucket_count i (e ∷ es) buckets =
      let b = bucket_of bucket_count e.key in
      let (linked, filled) = link bucket_count (i + 1) es (set buckets b (some i)) in
      (record e { next_hash = get_or buckets b none } ∷ linked, filled)

  unfoldable pub map_rehash : Map V → ℕ → Map V
  unfolding link
  map_rehash m bucket_count =
      let n =
        if bucket_count == 0 then map_recommended_bucket_count (length m.items) else bucket_count in
      let (linked, filled) = link n 0 m.items (replicate n none) in
      record m { items = linked; buckets = filled }

  unfoldable pub map_ensure_entry_capacity : Map V → ℕ → Map V
  unfolding doubled
  map_ensure_entry_capacity m need = if leb need m.capacity then m else record m {
    capacity = doubled 64 need (if m.capacity == 0 then 8 else m.capacity * 2 % u64);
  }

  -- `none` where nothing was rehashed.
  unfoldable pub map_maybe_rehash_for_insert : Map V → ℕ → Option (Map V)
  map_maybe_rehash_for_insert m post_insert_count =
      let n = length m.buckets in
      if n == 0
      then some (map_rehash m (map_recommended_bucket_count post_insert_count))
      else if ltb (n * 3 % u64) (post_insert_count * 4 % u64)
      then some (map_rehash m (if leb n half_size_max then n * 2 else n))
      else none

  -- The loop over the items of a map with no buckets.
  unfoldable pub first_index : List (MapEntry V) → ℕ → Value → Option ℕ
  first_index [] i key = none
  first_index (e ∷ es) i key =
      let rest = first_index es (i + 1) key in if map_key_equals e.key key then some i else rest

  -- `n` rounds of the loop over a chain: its result, or `none` where it is not at its end by then.
  unfoldable pub chain_index : ℕ → List (MapEntry V) → Option ℕ → Value → Option (Option ℕ)
  chain_index n items none key = some none
  chain_index zero items (some i) key = none
  chain_index (suc n) items (some i) key =
      let rest = chain_index n items (next_at items i) key in
      if map_key_equals (key_at items i) key then some (some i) else rest

  -- The index before `return (int)`, and `none` where the search does not end. The indices of a chain
  -- fall, so as many rounds as there are items are enough where all is in order.
  unfoldable pub long_index : Map V → Value → Option (Option ℕ)
  unfolding first_index chain_index
  long_index m key =
      if length m.items == 0
      then some none
      else if length m.buckets == 0
      then some (first_index m.items 0 key)
      else chain_index (length m.items) m.items
          (get_or m.buckets (bucket_of (length m.buckets) key) none) key

  unfoldable pub map_find_index : Map V → Value → Option ℕ
  unfolding long_index int_index
  map_find_index m key = int_index (ended (long_index m key))

  -- The link of the last item, where no rehash has made it.
  unfoldable pub link_last : Map V → Value → V → Map V
  link_last m key value =
      let b = bucket_of (length m.buckets) key in
      record m {
        items =
            m.items
            ++ (record { key = key; value = value; next_hash = get_or m.buckets b none }) ∷ [];
        buckets = set m.buckets b (some (length m.items));
      }

  -- The state, and the index of the new entry.
  unfoldable pub map_append_entry : Map V → Value → V → Map V × ℕ
  unfolding map_ensure_entry_capacity link_last
  map_append_entry m key value =
      let idx = length m.items in
      let roomy = map_ensure_entry_capacity m (idx + 1) in
      let appended : Map V = record roomy {
        items = roomy.items ++ (record { key = key; value = value; next_hash = none }) ∷ [];
      } in
      elim (map_maybe_rehash_for_insert appended (idx + 1)) as (λ _. Map V × ℕ) [
        | some rehashed ↦ (rehashed, idx)
        | none ↦ (if length m.buckets == 0 then appended else link_last roomy key value, idx)
      ]

  unfoldable pub value_map_new : Map V
  value_map_new = record { items = []; capacity = 0; buckets = [] }

  unfoldable pub store_value : List (MapEntry V) → ℕ → V → List (MapEntry V)
  store_value [] i v = []
  store_value (e ∷ es) zero v = record e { value = v } ∷ es
  store_value (e ∷ es) (suc i) v = e ∷ store_value es i v

  unfoldable pub value_map_set : Map V → Value → V → Map V
  unfolding store_value
  value_map_set m key value = elim (map_find_index m key) as (λ _. Map V) [
    | some i ↦ record m { items = store_value m.items i value }
    | none ↦ (map_append_entry m key value).0
  ]

  unfoldable pub value_map_get : Map V → Value → Option V
  value_map_get m key = elim (map_find_index m key) as (λ _. Option V) [
    | some i ↦ value_at m.items i
    | none ↦ none
  ]

  unfoldable pub remove_at : List (MapEntry V) → ℕ → List (MapEntry V)
  remove_at [] i = []
  remove_at (e ∷ es) zero = es
  remove_at (e ∷ es) (suc i) = e ∷ remove_at es i

  unfoldable pub value_map_delete : Map V → Value → Map V
  unfolding remove_at
  value_map_delete m key = elim (map_find_index m key) as (λ _. Map V) [
    | some i ↦
        let shorter : Map V = record m { items = remove_at m.items i } in
        if length m.buckets == 0
        then shorter
        else map_rehash shorter (map_recommended_bucket_count (length shorter.items))
    | none ↦ m
  ]
