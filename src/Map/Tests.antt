-- ===== src/Map/Tests.antt =====
-- Runs of the ordered hash table, and the theorems about it at a concrete input.
use prefix.Base.{ℕ, ◌^◌, ◌≡◌, refl, arith, false, none, some, codes, if◌then◌else◌, length}
use prefix.Map.Delete.{value_map_delete-IsValid, value_map_get-value_map_delete}
use prefix.Map.Find.{last_index}
use prefix.Map.Key.{map_hash_key, map_key_equals, map_hash_key-map_key_equals}
use prefix.Map.Methods.{value_map_set-IsValid, value_map_get-value_map_set}
use prefix.Map.Table.{
  Map, value_map_new, value_map_set, value_map_get, value_map_delete, map_find_index, long_index,
  int_index, map_append_entry, map_ensure_entry_capacity, map_maybe_rehash_for_insert, map_rehash,
  map_recommended_bucket_count, doubled, link, link_last, first_index, chain_index, key_at, next_at,
  store_value,
}
use prefix.Map.Valid.{IsValid, map_find_index-last_index}
use prefix.Value.{int, float, str}

new-IsValid : IsValid {V = ℕ} value_map_new
unfolding value_map_new
new-IsValid = record {
  bare = λ _. refl;
  linked = λ h. absurd (omega arith);
  unique = λ i j h h' e. absurd (omega arith);
}

length-new : length (value_map_new {V = ℕ}).items ≡ 0
unfolding value_map_new
length-new = refl

abbrev one : Map ℕ
one = value_map_set value_map_new (int 1 10) 7

-- The keys 1 and "a" with the values 7 and 8.
abbrev sample : Map ℕ
sample = value_map_set one (str (codes "a")) 8

length-one : length one.items ≡ 1
unfolding value_map_set value_map_new map_find_index long_index int_index map_append_entry
    map_ensure_entry_capacity map_maybe_rehash_for_insert map_rehash map_recommended_bucket_count
    doubled link link_last first_index chain_index map_hash_key map_key_equals key_at next_at
    store_value
length-one = refl

length-sample : length sample.items ≡ 2
unfolding length-one
length-sample = refl

one-IsValid : IsValid one
one-IsValid =
    value_map_set-IsValid value_map_new (int 1 10) 7 new-IsValid (omega (arith, length-new))

sample-IsValid : IsValid sample
sample-IsValid =
    value_map_set-IsValid one (str (codes "a")) 8 one-IsValid (omega (arith, length-one))

-- The two zeros are one key.
map_hash_key-map_key_equals_example :
    map_hash_key (float 0 10 false) ≡ map_hash_key (float (2 ^ 63) 2 false)
unfolding map_key_equals
map_hash_key-map_key_equals_example =
    map_hash_key-map_key_equals (float 0 10 false) (float (2 ^ 63) 2 false) refl

map_find_index-last_index_example :
    (long_index sample (int 1 2) ≡ some (last_index sample.items (int 1 2) (length sample.items)))
    × (map_find_index sample (int 1 2) ≡ last_index sample.items (int 1 2) (length sample.items))
map_find_index-last_index_example =
    map_find_index-last_index sample (int 1 2) sample-IsValid (omega (arith, length-sample))

value_map_set-IsValid_example : IsValid (value_map_set sample (int 1 2) 9)
value_map_set-IsValid_example =
    value_map_set-IsValid sample (int 1 2) 9 sample-IsValid (omega (arith, length-sample))

value_map_get-value_map_set_example :
    value_map_get (value_map_set sample (int 1 2) 9) (int 1 16)
    ≡ (if map_key_equals (int 1 2) (int 1 16) then some 9 else value_map_get sample (int 1 16))
value_map_get-value_map_set_example =
    value_map_get-value_map_set sample (int 1 2) (int 1 16) 9 sample-IsValid
      (omega (arith, length-sample))

value_map_delete-IsValid_example : IsValid (value_map_delete sample (int 1 2))
value_map_delete-IsValid_example =
    value_map_delete-IsValid sample (int 1 2) sample-IsValid (omega (arith, length-sample))

value_map_get-value_map_delete_example :
    value_map_get (value_map_delete sample (int 1 2)) (str (codes "a")) ≡ (
      if map_key_equals (int 1 2) (str (codes "a"))
      then none
      else value_map_get sample (str (codes "a")))
value_map_get-value_map_delete_example =
    value_map_get-value_map_delete sample (int 1 2) (str (codes "a")) sample-IsValid
      (omega (arith, length-sample))

-- The least index that is no `int`, and the least that is cut to another one.
beyond_int : (int_index (some (2 ^ 31)) ≡ none) × (int_index (some (2 ^ 32)) ≡ some 0)
unfolding int_index
beyond_int = (refl, refl)
