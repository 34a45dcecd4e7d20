-- ===== src/Map/Append.antt =====
-- src/value.c: the chains of a map behind `map_append_entry`.
use native.Mathlib.Nat.{mod-lt}
use prefix.Base.{
  subst, ℕ, zero, suc, ◌+◌, ◌*◌, ◌%◌, ◌<◌, false, ◌&&◌, Option, none, some, List, [], ◌∷◌, ◌++◌,
  ◌≡◌, refl, sym, ◌∙◌, ap, arith, ◌==◌, ==_iff, ltb, leb, if◌then◌else◌, if_both, if_cases, length,
  get_or, Bool-cases, inl, inr, length-append, length-set,
}
use prefix.Map.Key.{u64, map_hash_key}
use prefix.Map.Links.{last_in, home_of, IsLinked, SameItems, set_head, rehash-IsLinked}
use prefix.Map.Table.{
  MapEntry, Map, key_at, next_at, value_at, bucket_of, doubled, map_recommended_bucket_count,
  map_ensure_entry_capacity, map_maybe_rehash_for_insert, link_last, map_append_entry,
  half_size_max, map_rehash,
}
use prefix.Map.Valid.{IsValid, last_in_congr}
use prefix.Value.{Value}

module _ {V : Type 0} where
  pub key_at-append :
      (es : List (MapEntry V)) (e : MapEntry V) (i : ℕ)
      → i < length es
      → (key_at (es ++ e ∷ []) i ≡ key_at es i)
        × (next_at (es ++ e ∷ []) i ≡ next_at es i)
        × (value_at (es ++ e ∷ []) i ≡ value_at es i)
  unfolding key_at next_at value_at
  key_at-append [] e i h = absurd (omega arith)
  key_at-append (x ∷ es) e zero h = (refl, refl, refl)
  key_at-append (x ∷ es) e (suc i) h = key_at-append es e i (omega arith)

  pub key_at-last :
      (es : List (MapEntry V)) (e : MapEntry V)
      → (key_at (es ++ e ∷ []) (length es) ≡ e.key)
        × (next_at (es ++ e ∷ []) (length es) ≡ e.next_hash)
        × (value_at (es ++ e ∷ []) (length es) ≡ some e.value)
  unfolding key_at next_at value_at
  key_at-last [] e = (refl, refl, refl)
  key_at-last (x ∷ es) e = key_at-last es e

  link_last-IsLinked :
      (m : Map V) (key : Value) (value : V)
      → 0 < length m.buckets
      → IsLinked (length m.buckets) (length m.items) m.items m.buckets
      → IsLinked
          (length (link_last m key value).buckets)
          (length m.items + 1)
          (link_last m key value).items
          (link_last m key value).buckets
  unfolding link_last
  link_last-IsLinked m key value pos linked =
      let bc = length m.buckets in
      let b0 = bucket_of bc key in
      let e : MapEntry V = record {
        key = key;
        value = value;
        next_hash = get_or m.buckets b0 none;
      } in
      let old = home_of bc m.items in
      let new = home_of bc (m.items ++ e ∷ []) in
      let agree : (j : ℕ) → j < length m.items → old j ≡ new j =
        λ j lt. ap (bucket_of bc) (sym (key_at-append m.items e j lt).0) in
      let last = key_at-last m.items e in
      let here : b0 ≡ new (length m.items) = ap (bucket_of bc) (sym last.0) in
      let inside = mod-lt (map_hash_key key) pos in
      let before = λ (b : ℕ) (lt : b < bc).
        linked.heads b lt ∙ last_in_congr old new (length m.items) b agree in
      rw (length-set) (record {
        heads = set_head new (length m.items) m.buckets b0 inside here before;
        nexts = λ i lt. elim (Bool-cases (i == length m.items)) [
          | inl at ↦
              rw ((==_iff _ _).0 at)
                (last.1 ∙ before b0 inside ∙ ap (last_in new (length m.items)) here)
          | inr other ↦
              let below : i < length m.items = ground arith in
              (key_at-append m.items e i below).1
              ∙ linked.nexts i below
              ∙ last_in_congr old new i _ (λ j h. agree j (omega arith))
              ∙ ap (last_in new i) (agree i below)
        ];
      })

doubled-pos : (n needed bc : ℕ) → 0 < bc → 0 < doubled n needed bc
unfolding doubled
doubled-pos zero needed bc pos = pos
doubled-pos (suc n) needed bc pos =
    if_both (λ k. 0 < k) (ltb bc needed && leb bc half_size_max)
      (doubled-pos n needed (bc * 2) (omega arith)) pos

pub map_recommended_bucket_count-pos : (entries : ℕ) → 0 < map_recommended_bucket_count entries
unfolding map_recommended_bucket_count
map_recommended_bucket_count-pos entries =
    doubled-pos 64 (if ltb entries 8 then 16 else entries * 2 % u64) 16 (omega arith)

-- What is appended, and where.
pub record Appended {V : Type 0} (es : List (MapEntry V)) (key : Value) (value : V) (r : Map V × ℕ)
    : Type 0 where
  pub index : r.1 ≡ length es
  pub filled : 0 < length r.0.buckets
  pub linked : IsLinked (length r.0.buckets) (length es + 1) r.0.items r.0.buckets
  pub same :
      SameItems (es ++ (record { key = key; value = value; next_hash = none }) ∷ []) r.0.items

module _ {V : Type 0} (m : Map V) (key : Value) (value : V) where
  abbrev new_entry : MapEntry V
  new_entry = record { key = key; value = value; next_hash = none }

  rehash-Appended :
      (roomy : Map V) (n : ℕ)
      → 0 < n
      → roomy.items ≡ m.items ++ new_entry ∷ []
      → Appended m.items key value (map_rehash roomy n, length m.items)
  rehash-Appended roomy n pos items =
      let (len, linked, same) = rehash-IsLinked roomy n pos in
      let count : length roomy.items ≡ length m.items + 1 =
        rw items (length-append m.items (new_entry ∷ [])) in
      record {
        index = refl;
        filled = omega arith;
        linked = rw (len, ← count) linked;
        same = rw (← items) same;
      }

  last-SameItems :
      (es : List (MapEntry V)) (next : Option ℕ)
      → SameItems (es ++ new_entry ∷ []) (es ++ (record new_entry { next_hash = next }) ∷ [])
  unfolding key_at value_at
  last-SameItems [] next = record {
    same_length = refl;
    same_key = elim [ zero ↦ refl | suc i ↦ refl ];
    same_value = elim [ zero ↦ refl | suc i ↦ refl ];
  }
  last-SameItems (x ∷ es) next =
      let ih = last-SameItems es next in
      record {
        same_length = ap suc ih.same_length;
        same_key = elim [ zero ↦ refl | suc i ↦ ih.same_key i ];
        same_value = elim [ zero ↦ refl | suc i ↦ ih.same_value i ];
      }

ensure_keeps :
    {V : Type 0} (m : Map V) (need : ℕ)
    → ((map_ensure_entry_capacity m need).items ≡ m.items)
      × ((map_ensure_entry_capacity m need).buckets ≡ m.buckets)
unfolding map_ensure_entry_capacity
ensure_keeps {V} m need =
    if_both {A = Map V} (λ r. (r.items ≡ m.items) × (r.buckets ≡ m.buckets)) (leb need m.capacity)
      (refl, refl) (refl, refl)

link_last-Appended :
    {V : Type 0} (m : Map V) (key : Value) (value : V)
    → 0 < length m.buckets
    → IsLinked (length m.buckets) (length m.items) m.items m.buckets
    → Appended m.items key value (link_last m key value, length m.items)
unfolding link_last
link_last-Appended m key value pos linked = record {
  index = refl;
  filled = rw length-set pos;
  linked = link_last-IsLinked m key value pos linked;
  same = last-SameItems m key value m.items _;
}

-- A rehash for an insertion has some buckets; without one there were some.
module _ {V : Type 0} (m : Map V) (count : ℕ) where
  abbrev Rehashes : Option (Map V) → Type 0
  Rehashes none = 0 < length m.buckets
  Rehashes (some r) = (n : ℕ) × (0 < n) × (r ≡ map_rehash m n)

  maybe-Rehashes : Rehashes (map_maybe_rehash_for_insert m count)
  unfolding map_maybe_rehash_for_insert
  maybe-Rehashes =
      if_cases Rehashes (length m.buckets == 0)
        (λ _. (_, map_recommended_bucket_count-pos count, refl))
        (λ filled.
          if_both Rehashes (ltb (length m.buckets * 3 % u64) (count * 4 % u64))
            (
              _,
              if_both (λ k. 0 < k) (leb (length m.buckets) half_size_max) (ground arith)
                  (ground arith),
              refl,
            )
            (ground arith))

module _ {V : Type 0} (m : Map V) (valid : IsValid m) (key : Value) (value : V) where
  -- The new entry stands last, whether or not it was linked by a rehash.
  pub map_append_entry-Appended : Appended m.items key value (map_append_entry m key value)
  unfolding map_append_entry
  map_append_entry-Appended =
      let roomy = map_ensure_entry_capacity m (length m.items + 1) in
      go roomy (ensure_keeps m (length m.items + 1)).0 (ensure_keeps m (length m.items + 1)).1 _ (
        maybe-Rehashes (record roomy { items = roomy.items ++ new_entry m key value ∷ [] })
          (length m.items + 1))
    where
      go :
          (roomy : Map V)
          → roomy.items ≡ m.items
          → roomy.buckets ≡ m.buckets
          → (o : Option (Map V))
          → Rehashes
              (record roomy { items = roomy.items ++ new_entry m key value ∷ [] })
              (length m.items + 1)
              o
          → Appended m.items key value (elim o as (λ _. Map V × ℕ) [
            | some rehashed ↦ (rehashed, length m.items)
            | none ↦ (
              if length m.buckets == 0
                  then record roomy { items = roomy.items ++ new_entry m key value ∷ [] }
                  else link_last roomy key value,
              length m.items,
            )
          ])
      go roomy items buckets (some r) (n, pos, e) =
          rw e (
            rehash-Appended m key value _ n pos (ap (λ es. es ++ new_entry m key value ∷ []) items))
      go roomy items buckets none filled =
          let pos : 0 < length m.buckets = rw (← buckets) filled in
          rw (let e : (length m.buckets == 0) ≡ false = ground arith in e) (
            subst (λ es. Appended es key value (link_last roomy key value, length es)) items
              (link_last-Appended roomy key value filled (rw (items, buckets) (valid.linked pos))))
