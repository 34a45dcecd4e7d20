-- ===== src/Env/Slots.antt =====
-- src/env.c: the free slots of the open-addressing table, and the loops over its slots.
use prefix.Base.{
  ended, ℕ, zero, suc, ◌+◌, ◌*◌, ◌/◌, ◌%◌, ◌<◌, ◌≤◌, false, Option, none, some, List, [], ◌∷◌, ◌++◌,
  ◌≡◌, refl, ◌∙◌, ap, arith, ◌==◌, ltb, if◌then◌else◌, length, get_or, set, replicate, Bytes,
  Option-cases, Bool-cases, ltb→lt, ltb-false, if_cases, inl, inr, length-set, length-replicate,
  length-append,
}
use native.Mathlib.Nat.{mod-lt, mod-eq_of_lt, mod_self}
use prefix.Env.Table.{
  EnvEntry, Env, free_slot, put_slot, put_all, env_hash_name, env_ht_rebuild, room, env_ht_insert,
  is_named, probe, env_ht_probe, env_ht_find, grown, add_entry,
}

-- How many slots are taken.
unfoldable pub taken : List (Option ℕ) → ℕ
taken [] = 0
taken (none ∷ s) = taken s
taken (some _ ∷ s) = taken s + 1

taken-replicate : (n : ℕ) → taken (replicate n none) ≡ 0
unfolding taken
taken-replicate zero = refl
taken-replicate (suc n) = taken-replicate n

taken-set : (s : List (Option ℕ)) (i k : ℕ) → taken (set s i (some k)) ≤ taken s + 1
unfolding taken
taken-set [] i k = omega arith
taken-set (none ∷ s) zero k = omega arith
taken-set (some x ∷ s) zero k = omega arith
taken-set (none ∷ s) (suc i) k = taken-set s i k
taken-set (some x ∷ s) (suc i) k = omega (arith, taken-set s i k)

-- A table that is not full has a free slot.
free :
    (s : List (Option ℕ)) → taken s < length s → (p : ℕ) × (p < length s) × (get_or s p none ≡ none)
unfolding taken
free [] h = absurd (omega arith)
free (none ∷ s) h = (0, omega arith, refl)
free (some x ∷ s) h = let (p, lt, e) = free s (omega arith) in (suc p, omega arith, e)

-- The rounds from `idx` to `p`, where the indices run in a circle of `size`.
abbrev Reaches : ℕ → ℕ → ℕ → ℕ → Type 0
Reaches n size idx p = (idx ≤ p → p < idx + n) × (p < idx → p + size < idx + n)

reach_next :
    (n size idx p : ℕ)
    → idx < size
    → p < size
    → (idx ≡ p → ⊥)
    → Reaches (suc n) size idx p
    → ((idx + 1) % size < size) × Reaches n size ((idx + 1) % size) p
reach_next n size idx p lt lp ne (right, left) = elim (Bool-cases (ltb (idx + 1) size)) [
  | inl inner ↦
      let e : (idx + 1) % size ≡ idx + 1 = mod-eq_of_lt (ltb→lt _ _ inner) in
      rw e (ground arith, ((λ le. omega arith), (λ lt'. ground arith)))
  | inr outer ↦
      let at_end : idx + 1 ≡ size = ground arith in
      let e : (idx + 1) % size ≡ 0 = rw at_end (mod_self size) in
      rw e (omega arith, ((λ le. ground arith), (λ lt'. omega arith)))
]

module _ (s : List (Option ℕ)) (p : ℕ) (lp : p < length s) (is_free : get_or s p none ≡ none) where
  free_slot-free :
      (n idx : ℕ)
      → idx < length s
      → Reaches n (length s) idx p
      → get_or s (free_slot n s idx) none ≡ none
  unfolding free_slot
  free_slot-free zero idx lt (right, left) = absurd (ground arith)
  free_slot-free (suc n) idx lt reach = elim (Option-cases (get_or s idx none)) [
    | inl e ↦ rw (e, free_slot) e
    | inr (k, e) ↦
        let (lt', reach') =
          reach_next n (length s) idx p lt lp
            (λ same. cc (ap (λ j. get_or s j none) same, e, is_free)) reach in
        rw (e, free_slot) (free_slot-free n ((idx + 1) % length s) lt' reach')
  ]

  -- Rounds behind the first free slot are not made.
  probe-enough :
      (entries : List EnvEntry) (name : Bytes) (n m idx : ℕ)
      → idx < length s
      → Reaches n (length s) idx p
      → n ≤ m
      → probe m s entries name idx ≡ probe n s entries name idx
  unfolding probe
  probe-enough entries name zero m idx lt (right, left) le = absurd (ground arith)
  probe-enough entries name (suc n) zero idx lt reach le = absurd (omega arith)
  probe-enough entries name (suc n) (suc m) idx lt reach le =
      elim (Option-cases (get_or s idx none)) [
        | inl e ↦ rw (e, probe) refl
        | inr (k, e) ↦
            let (lt', reach') =
              reach_next n (length s) idx p lt lp
                (λ same. cc (ap (λ j. get_or s j none) same, e, is_free)) reach in
            rw
              (
                e,
                probe,
                probe-enough entries name n m ((idx + 1) % length s) lt' reach' (omega arith),
              )
              refl
      ]

  -- So many rounds come to the end.
  probe-ends :
      (entries : List EnvEntry) (name : Bytes) (n idx : ℕ)
      → idx < length s
      → Reaches n (length s) idx p
      → probe n s entries name idx ≡ some (ended (probe n s entries name idx))
  unfolding probe
  probe-ends entries name zero idx lt (right, left) = absurd (ground arith)
  probe-ends entries name (suc n) idx lt reach = elim (Option-cases (get_or s idx none)) [
    | inl e ↦ rw (e, probe) refl
    | inr (k, e) ↦
        let (lt', reach') =
          reach_next n (length s) idx p lt lp
            (λ same. cc (ap (λ j. get_or s j none) same, e, is_free)) reach in
        let rest = probe-ends entries name n ((idx + 1) % length s) lt' reach' in
        rw (e, probe)
          (if_cases (λ (o : Option (Option ℕ)). o ≡ some (ended o)) (is_named entries k name)
            (λ _. refl) (λ _. rest))
  ]

taken-put_slot :
    (s : List (Option ℕ)) (name : Bytes) (i : ℕ) → taken (put_slot s name i) ≤ taken s + 1
unfolding put_slot
taken-put_slot s name i = taken-set s _ i

length-put_slot :
    (s : List (Option ℕ)) (name : Bytes) (i : ℕ) → length (put_slot s name i) ≡ length s
unfolding put_slot
length-put_slot s name i = length-set s _ _

put_all-size :
    (s : List (Option ℕ)) (i : ℕ) (es : List EnvEntry)
    → (length (put_all s i es) ≡ length s) × (taken (put_all s i es) ≤ taken s + length es)
unfolding put_all
put_all-size s i [] = (refl, omega arith)
put_all-size s i (e ∷ es) =
    let (len, le) = put_all-size (put_slot s e.name i) (i + 1) es in
    (len ∙ length-put_slot s e.name i, omega (arith, taken-put_slot s e.name i))

-- The table is empty with no room for entries, or it has a free slot. It is as large as the block
-- of entries at least.
pub record IsRoomy (env : Env) : Type 0 where
  pub within : length env.entries ≤ env.capacity
  pub larger : env.capacity ≤ length env.ht_slots
  pub counted : taken env.ht_slots ≤ env.ht_count
  pub spare :
      0 < length env.ht_slots → (env.ht_count < length env.ht_slots) × (8 ≤ length env.ht_slots)

rebuild-IsRoomy :
    (env : Env) (n : ℕ)
    → n ≡ (if length env.ht_slots == 0 then 8 else length env.ht_slots * 2)
    → length env.entries ≤ env.capacity
    → env.capacity ≤ n
    → length env.entries < n
    → 8 ≤ n
    → IsRoomy (env_ht_rebuild env) × (length (env_ht_rebuild env).ht_slots ≡ n)
unfolding env_ht_rebuild
rebuild-IsRoomy env n size within larger spare eight =
    let (len, le) = put_all-size (replicate n none) 0 env.entries in
    let len' = len ∙ length-replicate n none in
    rw (← size) (
      record {
        within = within;
        larger = omega arith;
        counted = omega (arith, taken-replicate n);
        spare = λ pos. (omega arith, omega arith);
      },
      len',
    )

grown-IsRoomy :
    (env : Env)
    → IsRoomy env
    → IsRoomy (grown env) × (length (grown env).entries + 1 ≤ (grown env).capacity)
unfolding grown env_ht_rebuild
grown-IsRoomy env roomy =
    if_cases (λ (r : Env). IsRoomy r × (length r.entries + 1 ≤ r.capacity))
      (ltb env.capacity (length env.entries + 1))
      (λ full.
        let n = if length env.ht_slots == 0 then 8 else length env.ht_slots * 2 in
        let more : Env = record env {
          capacity = if env.capacity == 0 then 8 else env.capacity * 2;
        } in
        let lt : length env.entries + 1 ≤ more.capacity = ground (arith, roomy.within) in
        let within = roomy.within in
        let larger = roomy.larger in
        let le : more.capacity ≤ n = ground arith in
        let eight : 8 ≤ n =
          if_cases (λ k. 8 ≤ k) (length env.ht_slots == 0) (λ _. omega arith)
            (λ filled. let (_, e) = roomy.spare (ground arith) in omega arith) in
        ((rebuild-IsRoomy more n refl (omega arith) le (omega arith) eight).0, lt))
      (λ fits. (roomy, ground arith))

rebuild-ht_count : (env : Env) → (env_ht_rebuild env).ht_count ≡ length env.entries
unfolding env_ht_rebuild
rebuild-ht_count env = refl

-- Room for one more slot.
record HasRoom (env : Env) : Type 0 where
  roomy : IsRoomy env
  more : env.ht_count + 1 < length env.ht_slots

room-HasRoom : (env : Env) → IsRoomy env → 0 < length env.ht_slots → HasRoom (room env)
unfolding room
room-HasRoom env roomy pos =
    let (spare, eight) = roomy.spare pos in
    let n = length env.ht_slots in
    if_cases HasRoom (n == 0) (λ empty. absurd (ground arith))
      (λ filled.
        if_cases HasRoom (ltb (n * 7 / 10) (env.ht_count + 1))
          (λ full.
            let size : n * 2 ≡ (if n == 0 then 8 else n * 2) = ground arith in
            let (again, len) =
              rebuild-IsRoomy env (n * 2) size roomy.within (omega (arith, roomy.larger))
                (omega (arith, roomy.within, roomy.larger)) (omega arith) in
            record {
              roomy = again;
              more = omega (arith, len, rebuild-ht_count env, roomy.within, roomy.larger);
            })
          (λ fits. record { roomy = roomy; more = omega (arith, ltb-false _ _ fits) }))

insert-IsRoomy :
    (env : Env) (name : Bytes) (i : ℕ)
    → IsRoomy env
    → 0 < length env.ht_slots
    → IsRoomy (env_ht_insert env name i)
unfolding env_ht_insert
insert-IsRoomy env name i roomy pos =
    let r = room-HasRoom env roomy pos in
    let len = length-put_slot (room env).ht_slots name i in
    record {
      within = r.roomy.within;
      larger = rw len r.roomy.larger;
      counted = omega (arith, taken-put_slot (room env).ht_slots name i, r.roomy.counted);
      spare = λ _.
          let (_, eight) = r.roomy.spare (omega (arith, r.more)) in
          (omega (arith, r.more, len), omega (arith, len));
    }

-- Where `env_define_direct` adds an entry, through every growth and rebuild, the hash table still
-- has a free slot, and is as large as the block of entries at least.
pub add_entry-IsRoomy : (env : Env) (e : EnvEntry) → IsRoomy env → IsRoomy (add_entry env e)
unfolding add_entry
add_entry-IsRoomy env e roomy =
    let (again, lt) = grown-IsRoomy env roomy in
    let big : Env = record (grown env) { entries = (grown env).entries ++ e ∷ [] } in
    insert-IsRoomy big e.name (length (grown env).entries)
      (record {
        within = omega (arith, length-append (grown env).entries (e ∷ []));
        larger = again.larger;
        counted = again.counted;
        spare = again.spare;
      })
      (omega (arith, again.larger))

-- In a table with a free slot, the loop of `env_ht_find` comes to its end within as many rounds as
-- there are slots, with what `env_ht_find` gives. The slot that an insertion takes is free.
pub env_ht_find-IsRoomy :
    (env : Env) (name : Bytes) (m : ℕ)
    → IsRoomy env
    → 0 < length env.ht_slots
    → length env.ht_slots ≤ m
    → (probe m env.ht_slots env.entries name (env_hash_name name % length env.ht_slots)
        ≡ some (env_ht_find env name))
      × (get_or env.ht_slots
            (free_slot
              (length env.ht_slots)
              env.ht_slots
              (env_hash_name name % length env.ht_slots))
            none
          ≡ none)
unfolding env_ht_find env_ht_probe
env_ht_find-IsRoomy env name m roomy pos le =
    let s = env.ht_slots in
    let n = length s in
    let (p, lp, is_free) = free s (omega (arith, roomy.counted, (roomy.spare pos).0)) in
    let lt : env_hash_name name % n < n = mod-lt (env_hash_name name) pos in
    let reach : Reaches n n (env_hash_name name % n) p = (λ le. omega arith, λ lt'. omega arith) in
    (
      rw (let e : (n == 0) ≡ false = ground arith in e) (
          probe-enough s p lp is_free env.entries name n m (env_hash_name name % n) lt reach le
          ∙ probe-ends s p lp is_free env.entries name n (env_hash_name name % n) lt reach),
      free_slot-free s p lp is_free n (env_hash_name name % n) lt reach,
    )

-- In a roomy table `env_ht_find` comes to its end.
pub env_ht_probe-IsRoomy :
    (env : Env) (name : Bytes) → IsRoomy env → env_ht_probe env name ≡ some (env_ht_find env name)
unfolding env_ht_probe env_ht_find
env_ht_probe-IsRoomy env name roomy = elim (Bool-cases (length env.ht_slots == 0)) [
  | inl empty ↦ rw empty refl
  | inr filled ↦ rw (filled) (
      rw (filled, env_ht_find, env_ht_probe) at
        (env_ht_find-IsRoomy env name (length env.ht_slots) roomy (ground arith) (omega arith)).0)
]
