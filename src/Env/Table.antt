-- ===== src/Env/Table.antt =====
-- src/env.c: the entries of one environment, and the open-addressing table over their names.
-- A slot holds the index of its entry, `none` for NULL. `count` is the length of `entries`, and
-- `ht_capacity` that of `ht_slots`: 0, or a power of 2, so that `& mask` is `% ht_capacity`.
use prefix.Base.{
  ended, ℕ, zero, suc, ◌+◌, ◌*◌, ◌/◌, ◌%◌, ◌^◌, bit_xor, Bool, false, Option, none, some, List, [],
  ◌∷◌, ◌++◌, ltb, ◌==◌, if◌then◌else◌, length, get_or, get_elem?, set, replicate, Bytes, bytes_eq,
}
use prefix.Value.{Value, null}
use prefix.Value.Types.{DeclType}

pub record EnvEntry : Type 0 where
  pub name : Bytes
  pub decl_type : DeclType
  pub decl_base : ℕ
  pub schema : Value
  pub value : Value
  pub initialized : Bool
  pub frozen : Bool
  pub permafrozen : Bool
  pub alias_target : Option Bytes
  pub alias_target_env : Option ℕ

-- `parent` is the number of an environment in the store.
pub record Env : Type 0 where
  pub parent : Option ℕ
  pub entries : List EnvEntry
  pub capacity : ℕ
  pub ht_slots : List (Option ℕ)
  pub ht_count : ℕ

abbrev size : ℕ
size = 2 ^ 64

-- The loop of `env_hash_name`.
hash_rounds : ℕ → Bytes → ℕ
hash_rounds h [] = h
hash_rounds h (c ∷ name) = hash_rounds (bit_xor ((h * 32 + h) % size) c) name

unfoldable pub env_hash_name : Bytes → ℕ
unfolding hash_rounds
env_hash_name name = hash_rounds 5381 name

-- `while (env->ht_slots[idx] != NULL) idx = (idx + 1) & mask;` in at most `n` rounds. As many as
-- there are slots reach a free one, if there is any.
unfoldable pub free_slot : ℕ → List (Option ℕ) → ℕ → ℕ
free_slot zero slots idx = idx
free_slot (suc n) slots idx =
    let rest = free_slot n slots ((idx + 1) % length slots) in
    elim (get_or slots idx none) as (λ _. ℕ) [ none ↦ idx | some _ ↦ rest ]

-- An entry into the first free slot from its hash on.
unfoldable pub put_slot : List (Option ℕ) → Bytes → ℕ → List (Option ℕ)
put_slot slots name i =
    set slots (free_slot (length slots) slots (env_hash_name name % length slots)) (some i)

-- The loop of `env_ht_rebuild` over the entries from index `i` on.
unfoldable pub put_all : List (Option ℕ) → ℕ → List EnvEntry → List (Option ℕ)
put_all slots i [] = slots
put_all slots i (e ∷ es) = put_all (put_slot slots e.name i) (i + 1) es

unfoldable pub env_ht_rebuild : Env → Env
env_ht_rebuild env =
    let old_cap = length env.ht_slots in
    let new_cap = if old_cap == 0 then 8 else old_cap * 2 in
    record env {
      ht_slots = put_all (replicate new_cap none) 0 env.entries;
      ht_count = length env.entries;
    }

-- Room for one more entry in the table.
unfoldable pub room : Env → Env
room env =
    let cap = length env.ht_slots in
    if cap == 0
    then record env { ht_slots = replicate 8 none; ht_count = 0 }
    else if ltb (cap * 7 / 10) (env.ht_count + 1)
    then env_ht_rebuild env
    else env

unfoldable pub env_ht_insert : Env → Bytes → ℕ → Env
env_ht_insert env name i =
    let roomy = room env in
    record roomy { ht_slots = put_slot roomy.ht_slots name i; ht_count = roomy.ht_count + 1 }

abbrev pub has_name : Bytes → Option EnvEntry → Bool
has_name name none = false
has_name name (some e) = bytes_eq e.name name

abbrev pub is_named : List EnvEntry → ℕ → Bytes → Bool
is_named entries i name = has_name name (get_elem? entries i)

-- `n` rounds of the loop of `env_ht_find`: its result, or `none` where it is not at its end by then.
unfoldable pub probe : ℕ → List (Option ℕ) → List EnvEntry → Bytes → ℕ → Option (Option ℕ)
unfolding bytes_eq
probe zero slots entries name idx = none
probe (suc n) slots entries name idx =
    let rest = probe n slots entries name ((idx + 1) % length slots) in
    elim (get_or slots idx none) as (λ _. Option (Option ℕ)) [
      | none ↦ some none
      | some i ↦ if is_named entries i name then some (some i) else rest
    ]

-- `none` where `env_ht_find` does not come to an end: a table with no free slot, and no such name.
unfoldable pub env_ht_probe : Env → Bytes → Option (Option ℕ)
env_ht_probe env name =
    let cap = length env.ht_slots in
    if cap == 0
    then some none
    else probe cap env.ht_slots env.entries name (env_hash_name name % cap)

-- The index that is found, where it comes to an end.
unfoldable pub env_ht_find : Env → Bytes → Option ℕ
unfolding env_ht_probe
env_ht_find env name = ended (env_ht_probe env name)

-- The linear scan of `env_find_local`.
unfoldable pub scan : List EnvEntry → ℕ → Bytes → Option ℕ
scan [] i name = none
scan (e ∷ es) i name =
    let rest = scan es (i + 1) name in if bytes_eq e.name name then some i else rest

-- The index of the entry of a name.
unfoldable pub env_find_local : Env → Bytes → Option ℕ
env_find_local env name = elim (env_ht_find env name) as (λ _. Option ℕ) [
  | some i ↦ some i
  | none ↦ scan env.entries 0 name
]

abbrev pub new_entry : Bytes → DeclType → ℕ → Value → EnvEntry
new_entry name type base schema = record {
  name = name;
  decl_type = type;
  decl_base = base;
  schema = schema;
  value = null;
  initialized = false;
  frozen = false;
  permafrozen = false;
  alias_target = none;
  alias_target_env = none;
}

-- `realloc` moves the entries, so the table is built again.
unfoldable pub grown : Env → Env
grown env =
    if ltb env.capacity (length env.entries + 1)
    then env_ht_rebuild
        (record env { capacity = if env.capacity == 0 then 8 else env.capacity * 2 })
    else env

-- An entry that stands nowhere yet.
unfoldable pub add_entry : Env → EnvEntry → Env
add_entry env e =
    let roomy = grown env in
    env_ht_insert (record roomy { entries = roomy.entries ++ e ∷ [] }) e.name (length roomy.entries)
