-- ===== src/Env/Write.antt =====
-- src/env.c: the direct writes. Each returns the C function's result and the store behind it.
-- The value that `env_assign_direct` stores is a copy (`value_copy`): here it is its argument.
use prefix.Base.{
  ℕ, zero, suc, Bool, true, false, not, ◌&&◌, ◌||◌, Option, none, some, List, [], ◌∷◌, ◌++◌,
  if◌then◌else◌, length, get_elem?, Bytes, bytes_eq,
}
use prefix.Env.Store.{Store, Place, at_index, env_get_entry_raw_with_env, final_target}
use prefix.Env.Table.{EnvEntry, Env, env_find_local, new_entry, add_entry}
use prefix.Map.Schema.{Maps, value_map_matches}
use prefix.Value.{Value, null, map}
use prefix.Value.Types.{
  DeclType, type_unknown, type_map, same_type, decl_type_equal, decl_type_accepts_value,
}

abbrev pub modify {ℓ} : {A : Type ℓ} → List A → ℕ → (A → A) → List A
modify [] i f = []
modify (x ∷ xs) zero f = f x ∷ xs
modify (x ∷ xs) (suc i) f = x ∷ modify xs i f

-- A write through an `EnvEntry *`.
abbrev pub write_entry : Store → Place → (EnvEntry → EnvEntry) → Store
write_entry store p f = modify store p.env (λ e. record e { entries = modify e.entries p.index f })

unfoldable pub env_create : Store → Option ℕ → ℕ × Store
env_create store parent = (
  length store,
  store
      ++ (record { parent = parent; entries = []; capacity = 0; ht_slots = []; ht_count = 0 }) ∷ [],
)

abbrev pub place_in : ℕ → Bytes → Option Env → Option Place
place_in id name none = none
place_in id name (some e) = at_index id e (env_find_local e name)

abbrev pub find_place : Store → ℕ → Bytes → Option Place
find_place store id name = place_in id name (get_elem? store id)

unfoldable pub env_define_direct : Store → ℕ → Bytes → DeclType → ℕ → Value → Bool × Store
env_define_direct store id name type base schema =
    elim (find_place store id name) as (λ _. Bool × Store) [
      | some _ ↦ (false, store)
      | none ↦ (true, modify store id (λ e. add_entry e (new_entry name type base schema)))
    ]

abbrev pub is_closed : EnvEntry → Bool
is_closed e = e.frozen || e.permafrozen

abbrev pub set_value : Value → EnvEntry → EnvEntry
set_value value e = record e { value = value; initialized = true }

abbrev is_map : Value → Bool
is_map (map _) = true
is_map _ = false

-- TYPE_MAP, VAL_MAP and VAL_MAP, and the schema does not match.
bad_schema : Maps → EnvEntry → Value → Bool
bad_schema maps e value =
    same_type e.decl_type type_map
    && (is_map e.schema && (is_map value && not (value_map_matches maps value e.schema)))

-- The type tests of `env_assign_direct` on the entry that is to hold the value.
unfoldable pub refuses : Maps → EnvEntry → Value → DeclType → ℕ → Bool
unfolding bad_schema
refuses maps e value type base =
    (not (same_type type type_unknown) && not (decl_type_equal e.decl_type e.decl_base type base))
    || ((not (same_type e.decl_type type_unknown)
          && not (decl_type_accepts_value e.decl_type e.decl_base value))
        || bad_schema maps e value)

-- `env_assign_direct` on the entry that the name stands for: one alias is followed.
unfoldable pub assign_at : Maps → Store → Place → Value → DeclType → ℕ → Bool × Store
assign_at maps store p value type base = elim p.entry.alias_target as (λ _. Bool × Store) [
  | some target ↦
      let env = elim p.entry.alias_target_env as (λ _. ℕ) [ none ↦ p.env | some e ↦ e ] in
      elim (env_get_entry_raw_with_env store env target) as (λ _. Bool × Store) [
        | none ↦ (false, store)
        | some t ↦
            if refuses maps t.entry value type base
            then (false, store)
            else if is_closed t.entry
            then (false, store)
            else (true, write_entry store t (set_value value))
      ]
  | none ↦
      if is_closed p.entry
      then (false, store)
      else if refuses maps p.entry value type base
      then (false, store)
      else (true, write_entry store p (set_value value))
]

-- A write that an entry which is frozen refuses.
abbrev pub write_open : (EnvEntry → EnvEntry) → Place → Store → Bool × Store
write_open f p s = if is_closed p.entry then (false, s) else (true, write_entry s p f)

abbrev pub write_always : (EnvEntry → EnvEntry) → Place → Store → Bool × Store
write_always f p s = (true, write_entry s p f)

-- What follows `env_define_direct`: nothing where it or `env_find_local` fails, else a write.
abbrev pub on_new : ℕ → Bytes → (Place → Store → Bool × Store) → Bool × Store → Bool × Store
on_new id name write (false, made) = (false, made)
on_new id name write (true, made) = elim (find_place made id name) as (λ _. Bool × Store) [
  | none ↦ (false, made)
  | some p ↦ write p made
]

unfoldable pub declare : Store → ℕ → Bytes → Value → DeclType → ℕ → Bool × Store
declare store id name value type base =
    if same_type type type_unknown
    then (false, store)
    else if not (decl_type_accepts_value type base value)
    then (false, store)
    else on_new id name (write_always (set_value value))
        (env_define_direct store id name type base null)

unfoldable pub env_assign_direct :
    Maps → Store → ℕ → Bytes → Value → DeclType → ℕ → Bool → Bool × Store
env_assign_direct maps store id name value type base declare_if_missing =
    elim (env_get_entry_raw_with_env store id name) as (λ _. Bool × Store) [
      | some p ↦ assign_at maps store p value type base
      | none ↦
          if not declare_if_missing then (false, store) else declare store id name value type base
    ]

abbrev pub deleted : EnvEntry → EnvEntry
deleted e = record e {
  alias_target = none;
  alias_target_env = elim e.alias_target as (λ _. Option ℕ) [
    | none ↦ e.alias_target_env
    | some _ ↦ none
  ];
  schema = null;
  initialized = false;
  value = null;
}

unfoldable pub env_delete_direct : Store → ℕ → Bytes → Bool × Store
env_delete_direct store id name =
    elim (env_get_entry_raw_with_env store id name) as (λ _. Bool × Store) [
      | none ↦ (false, store)
      | some p ↦ if is_closed p.entry then (false, store) else (true, write_entry store p deleted)
    ]

abbrev pub linked_to : Place → EnvEntry → EnvEntry
linked_to cur e = record e {
  decl_type = cur.entry.decl_type;
  decl_base = cur.entry.decl_base;
  schema = null;
  value = if e.initialized then null else e.value;
  alias_target = some cur.entry.name;
  alias_target_env = some cur.env;
  initialized = true;
}

-- What `env_set_alias_direct` and `env_set_alias_cross` do with the final target. `cur` is read as
-- it was before the entry was created.
unfoldable pub alias_to : Store → ℕ → Bytes → Place → DeclType → ℕ → Bool → Bool × Store
alias_to store id name cur type base declare_if_missing =
    let link = write_open (linked_to cur) in
    elim (find_place store id name) as (λ _. Bool × Store) [
      | some p ↦ link p store
      | none ↦
          if not declare_if_missing
          then (false, store)
          else on_new id name link (env_define_direct store id name type base null)
    ]

unfoldable pub env_set_alias_cross :
    Store → ℕ → Bytes → ℕ → Bytes → DeclType → ℕ → Bool → Bool × Store
env_set_alias_cross store id name target_env target_name type base declare_if_missing =
    elim (env_get_entry_raw_with_env store target_env target_name) as (λ _. Bool × Store) [
      | none ↦ (false, store)
      | some target ↦
          elim (final_target (λ t. bytes_eq t name) store target) as (λ _. Bool × Store) [
            | none ↦ (false, store)
            | some cur ↦
                if is_closed cur.entry
                then (false, store)
                else if not (same_type type type_unknown)
                    && not (decl_type_equal type base cur.entry.decl_type cur.entry.decl_base)
                then (false, store)
                else alias_to store id name cur type base declare_if_missing
          ]
    ]

-- The same text but for the environment of the target.
unfoldable pub env_set_alias_direct : Store → ℕ → Bytes → Bytes → DeclType → ℕ → Bool → Bool × Store
env_set_alias_direct store id name target_name type base declare_if_missing =
    env_set_alias_cross store id name id target_name type base declare_if_missing

abbrev pub restored : Value → DeclType → ℕ → Bool → EnvEntry → EnvEntry
restored value type base initialized e = record e {
  decl_type = type;
  decl_base = base;
  alias_target = none;
  alias_target_env = elim e.alias_target as (λ _. Option ℕ) [
    | none ↦ e.alias_target_env
    | some _ ↦ none
  ];
  schema = null;
  value = if initialized then value else null;
  initialized = initialized;
}

unfoldable pub env_restore_local_direct :
    Store → ℕ → Bytes → Value → DeclType → ℕ → Bool → Bool × Store
env_restore_local_direct store id name value type base initialized =
    let write = write_open (restored value type base initialized) in
    elim (find_place store id name) as (λ _. Bool × Store) [
      | some p ↦ write p store
      | none ↦ on_new id name write (env_define_direct store id name type base null)
    ]

-- 0, -1 and -2 of the freezing calls.
pub data FreezeResult : Type 0 where
  done : FreezeResult
  not_found : FreezeResult
  permanent : FreezeResult

unfoldable pub env_freeze_direct : Store → ℕ → Bytes → FreezeResult × Store
env_freeze_direct store id name =
    elim (env_get_entry_raw_with_env store id name) as (λ _. FreezeResult × Store) [
      | none ↦ (not_found, store)
      | some p ↦ (done, write_entry store p (λ e. record e { frozen = true }))
    ]

unfoldable pub env_thaw_direct : Store → ℕ → Bytes → FreezeResult × Store
env_thaw_direct store id name =
    elim (env_get_entry_raw_with_env store id name) as (λ _. FreezeResult × Store) [
      | none ↦ (not_found, store)
      | some p ↦
          if p.entry.permafrozen
          then (permanent, store)
          else (done, write_entry store p (λ e. record e { frozen = false }))
    ]

unfoldable pub env_permafreeze_direct : Store → ℕ → Bytes → FreezeResult × Store
env_permafreeze_direct store id name =
    elim (env_get_entry_raw_with_env store id name) as (λ _. FreezeResult × Store) [
      | none ↦ (not_found, store)
      | some p ↦ (done, write_entry store p (λ e. record e { permafrozen = true; frozen = true }))
    ]
