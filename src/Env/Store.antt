-- ===== src/Env/Store.antt =====
-- src/env.c: environments that name their parents, and the reads of names through them and along
-- aliases.
use prefix.Base.{
  ℕ, zero, suc, Bool, true, false, Option, none, some, List, if◌then◌else◌, length, get_elem?,
  Bytes,
}
use prefix.Env.Table.{EnvEntry, Env, env_find_local}
use prefix.Value.{Value}
use prefix.Value.Types.{DeclType}

-- The environments by their number; one is created behind its parent.
abbrev pub Store : Type 0
Store = List Env

-- `EnvEntry *`: an entry by its index, with the environment it is in.
pub record Place : Type 0 where
  pub env : ℕ
  pub index : ℕ
  pub entry : EnvEntry

abbrev pub at_entry : ℕ → ℕ → Option EnvEntry → Option Place
at_entry id i none = none
at_entry id i (some e) = some (record { env = id; index = i; entry = e })

-- The entry that an index of an environment stands for.
abbrev pub at_index : ℕ → Env → Option ℕ → Option Place
at_index id env none = none
at_index id env (some i) = at_entry id i (get_elem? env.entries i)

-- `for (Env *e = env; e != NULL; e = e->parent)`, in at most `n` rounds. A parent has a smaller
-- number, so as many as there are environments are enough.
unfoldable pub entry_rounds : ℕ → Store → Option ℕ → Bytes → Option Place
entry_rounds n store none name = none
entry_rounds zero store (some id) name = none
entry_rounds (suc n) store (some id) name = elim (get_elem? store id) as (λ _. Option Place) [
  | none ↦ none
  | some e ↦
      let rest = entry_rounds n store e.parent name in
      elim (at_index id e (env_find_local e name)) as (λ _. Option Place) [
        | some p ↦ some p
        | none ↦ rest
      ]
]

unfoldable pub env_get_entry_raw_with_env : Store → ℕ → Bytes → Option Place
env_get_entry_raw_with_env store env name = entry_rounds (length store) store (some env) name

-- `while (cur && cur->alias_target)`, in at most `n` rounds; `cycle` is the test of
-- `env_set_alias_direct` on the alias's target. `none` is each `return false`.
unfoldable pub alias_rounds : ℕ → (Bytes → Bool) → Store → Place → Option Place
alias_rounds zero cycle store p = elim p.entry.alias_target as (λ _. Option Place) [
  | none ↦ some p
  | some _ ↦ none
]
alias_rounds (suc n) cycle store p =
    let follow : Bytes → Option Place = λ target.
      let env = elim p.entry.alias_target_env as (λ _. ℕ) [ none ↦ p.env | some e ↦ e ] in
      elim (env_get_entry_raw_with_env store env target) as (λ _. Option Place) [
        | none ↦ none
        | some q ↦ alias_rounds n cycle store q
      ] in
    elim p.entry.alias_target as (λ _. Option Place) [
      | none ↦ some p
      | some target ↦ elim (cycle target) [ true ↦ none | false ↦ follow target ]
    ]

-- `if (depth++ > 256) return false;`
abbrev pub max_depth : ℕ
max_depth = 257

unfoldable pub final_target : (Bytes → Bool) → Store → Place → Option Place
final_target = alias_rounds max_depth

-- What `env_get_raw` writes through its pointers.
pub record Binding : Type 0 where
  pub value : Value
  pub decl_type : DeclType
  pub decl_base : ℕ
  pub initialized : Bool

unfoldable pub env_get_raw : Store → ℕ → Bytes → Option Binding
env_get_raw store env name =
    elim (env_get_entry_raw_with_env store env name) as (λ _. Option Binding) [
      | none ↦ none
      | some p ↦ elim (final_target (λ _. false) store p) as (λ _. Option Binding) [
        | none ↦ none
        | some q ↦ some (record {
          value = q.entry.value;
          decl_type = q.entry.decl_type;
          decl_base = q.entry.decl_base;
          initialized = q.entry.initialized;
        })
      ]
    ]

-- The loop of `env_exists_raw`.
unfoldable pub exists_rounds : ℕ → Store → Option ℕ → Bytes → Bool
exists_rounds n store none name = false
exists_rounds zero store (some id) name = false
exists_rounds (suc n) store (some id) name = elim (get_elem? store id) as (λ _. Bool) [
  | none ↦ false
  | some e ↦
      let rest = exists_rounds n store e.parent name in
      elim (at_index id e (env_find_local e name)) as (λ _. Bool) [
        | some p ↦ if p.entry.initialized then true else rest
        | none ↦ rest
      ]
]

unfoldable pub env_exists_raw : Store → ℕ → Bytes → Bool
env_exists_raw store env name = exists_rounds (length store) store (some env) name

-- 0, 1 and -1 of `env_frozen_state_raw`.
pub data FrozenState : Type 0 where
  not_frozen : FrozenState
  is_frozen : FrozenState
  is_permafrozen : FrozenState

abbrev pub state_of : EnvEntry → FrozenState
state_of e = if e.permafrozen then is_permafrozen else if e.frozen then is_frozen else not_frozen

unfoldable pub env_frozen_state_raw : Store → ℕ → Bytes → FrozenState
env_frozen_state_raw store env name =
    elim (env_get_entry_raw_with_env store env name) as (λ _. FrozenState) [
      | none ↦ not_frozen
      | some p ↦ state_of p.entry
    ]

unfoldable pub env_permafrozen_raw : Store → ℕ → Bytes → Bool
env_permafrozen_raw store env name =
    elim (env_get_entry_raw_with_env store env name) as (λ _. Bool) [
      | none ↦ false
      | some p ↦ p.entry.permafrozen
    ]
