-- ===== src/Env/Tests.antt =====
-- Runs of the environments, and the theorems about them at a concrete input.
use prefix.Base.{
  zero, suc, ◌%◌, ◌≡◌, refl, arith, true, false, Option, none, some, List, [], ◌∷◌, codes, length,
  get_or, Bytes, bytes_eq,
}
use prefix.Env.Entries.{AllTyped}
use prefix.Env.Typed.{obey_all-AllTyped}
use prefix.Env.Find.{IsUnique, env_find_local-scan, add_entry-IsUnique}
use prefix.Env.Commands.{Command, obey_all, obey_all-IsPermafrozen}
use prefix.Env.Readback.{env_get_raw-env_assign_direct, env_frozen_state_raw-env_thaw_direct}
use prefix.Env.History.{Write, run, run_all, run_all-is_closed, run-fails}
use prefix.Env.Places.{entry_at}
use prefix.Env.Slots.{IsRoomy, add_entry-IsRoomy, env_ht_find-IsRoomy, taken}
use prefix.Env.Store.{
  env_frozen_state_raw, is_frozen, not_frozen, is_permafrozen, Store, Place, env_get_raw,
  entry_rounds, env_get_entry_raw_with_env, alias_rounds, final_target,
}
use prefix.Env.Table.{
  EnvEntry, Env, new_entry, add_entry, env_find_local, scan, probe, env_ht_probe, free_slot,
  env_hash_name, env_ht_find, env_ht_insert, env_ht_rebuild, room, put_slot, put_all, grown,
}
use prefix.Env.Write.{
  env_freeze_direct, env_thaw_direct, env_permafreeze_direct, done, env_assign_direct,
  env_define_direct, env_set_alias_cross, env_set_alias_direct, assign_at, declare, alias_to,
  refuses,
}
use prefix.Map.Schema.{Maps}
use prefix.Map.Table.{value_map_new}
use prefix.Value.{Value, null, int}
use prefix.Value.Types.{
  type_int, type_unknown, same_type, decl_type_equal, decl_type_accepts_value, value_to_decl_type,
  value_num_base,
}

abbrev no_maps : Maps
no_maps _ = value_map_new

abbrev empty : Env
empty = record { parent = none; entries = []; capacity = 0; ht_slots = []; ht_count = 0 }

abbrev entry : Bytes → EnvEntry
entry name = new_entry name type_int 0 null

-- An environment in which `x` is declared.
abbrev one : Env
one = add_entry empty (entry (codes "x"))

empty-IsUnique : IsUnique empty
unfolding IsUnique
empty-IsUnique i j name h h' = cc

empty-IsRoomy : IsRoomy empty
unfolding taken
empty-IsRoomy = record {
  within = omega arith;
  larger = omega arith;
  counted = omega arith;
  spare = λ h. absurd (omega arith);
}

one-IsUnique : IsUnique one
unfolding env_find_local env_ht_find env_ht_probe scan
one-IsUnique = add_entry-IsUnique empty (entry (codes "x")) empty-IsUnique refl

env_run : Unit {0}
unfolding env_get_raw entry_rounds env_get_entry_raw_with_env alias_rounds final_target
    env_find_local scan probe free_slot env_hash_name env_ht_find env_ht_probe env_ht_insert
    env_ht_rebuild room put_slot put_all grown add_entry env_assign_direct env_define_direct
    env_set_alias_cross env_set_alias_direct assign_at declare alias_to refuses same_type
    decl_type_equal decl_type_accepts_value value_to_decl_type value_num_base bytes_eq
env_run = tt

add_entry-IsUnique_example : IsUnique (add_entry one (entry (codes "y")))
unfolding env_run
add_entry-IsUnique_example = add_entry-IsUnique one (entry (codes "y")) one-IsUnique refl

one-IsRoomy : IsRoomy one
one-IsRoomy = add_entry-IsRoomy empty (entry (codes "x")) empty-IsRoomy

env_find_local-scan_example :
    (env_ht_probe one (codes "x") ≡ some (env_ht_find one (codes "x")))
    × (env_find_local one (codes "x") ≡ scan one.entries 0 (codes "x"))
env_find_local-scan_example = env_find_local-scan one (codes "x") one-IsUnique one-IsRoomy

add_entry-IsRoomy_example : IsRoomy (add_entry one (entry (codes "y")))
add_entry-IsRoomy_example = add_entry-IsRoomy one (entry (codes "y")) one-IsRoomy

env_ht_find-IsRoomy_example :
    (probe 9 one.ht_slots one.entries (codes "z") (env_hash_name (codes "z") % length one.ht_slots)
      ≡ some (env_ht_find one (codes "z")))
    × (get_or one.ht_slots
          (free_slot
            (length one.ht_slots)
            one.ht_slots
            (env_hash_name (codes "z") % length one.ht_slots))
          none
        ≡ none)
unfolding env_run
env_ht_find-IsRoomy_example =
    env_ht_find-IsRoomy one (codes "z") 9 one-IsRoomy (omega arith) (omega arith)

-- With no free slot, the search of a name that is not there does not end.
endless : env_ht_probe (record one { ht_slots = some 0 ∷ some 0 ∷ [] }) (codes "y") ≡ none
unfolding env_run
endless = refl

-- `x` is declared as an int and frozen; `y` is an int as well.
abbrev frozen_x : EnvEntry
frozen_x = record (entry (codes "x")) { value = int 1 10; initialized = true; frozen = true }

abbrev two : Store
two =
    (record empty {
      entries = frozen_x ∷ entry (codes "y") ∷ [];
      capacity = 8;
      ht_slots = none ∷ [];
    })
    ∷ []

abbrev writes : List Write
writes =
    Write.assign 0 (codes "x") (int 2 10) type_unknown 0 false
    ∷ Write.delete 0 (codes "x")
    ∷ Write.set_alias 0 (codes "x") (codes "y") type_unknown 0 false
    ∷ Write.restore_local 0 (codes "x") (int 3 10) type_int 0 true
    ∷ Write.assign 0 (codes "y") (int 4 10) type_unknown 0 false
    ∷ []

run_all-is_closed_example : entry_at (run_all no_maps writes two) 0 0 ≡ some frozen_x
run_all-is_closed_example = run_all-is_closed no_maps writes two 0 0 frozen_x refl refl

run-fails_example :
    (run no_maps (Write.assign 0 (codes "x") (int 2 10) type_unknown 0 false) two).1 ≡ two
unfolding env_run
run-fails_example =
    run-fails no_maps (Write.assign 0 (codes "x") (int 2 10) type_unknown 0 false) two refl

-- `b` is an alias of `a`, and then `a` is made an alias of `c`. An assignment to `b` is stored in
-- `a`, but a read of `b` goes on to `c`.
abbrev chain : Store
chain =
    run_all no_maps
      (Write.set_alias 0 (codes "b") (codes "a") type_unknown 0 true
        ∷ Write.set_alias 0 (codes "a") (codes "c") type_unknown 0 false
        ∷ Write.assign 0 (codes "b") (int 5 10) type_unknown 0 false
        ∷ [])
      ((record empty {
        entries = entry (codes "a") ∷ entry (codes "c") ∷ [];
        capacity = 8;
        ht_slots = none ∷ none ∷ none ∷ none ∷ [];
      })
        ∷ [])

value_read : Store → Bytes → Option Value
value_read store name = elim (env_get_raw store 0 name) as (λ _. Option Value) [
  | none ↦ none
  | some b ↦ some b.value
]

stored_value : Option EnvEntry → Option Value
stored_value none = none
stored_value (some e) = some e.value

assign_through_alias :
    ◌≡◌ {A = Option Value × Option Value}
      (value_read chain (codes "b"), stored_value (entry_at chain 0 0))
      (some null, some (int 5 10))
unfolding env_run value_read stored_value
assign_through_alias = refl

abbrev place_y : Place
place_y = record { env = 0; index = 1; entry = entry (codes "y") }

env_get_raw-env_assign_direct_example :
    env_get_raw
      (env_assign_direct no_maps two 0 (codes "y") (int 4 10) type_int 0 false).1
      0
      (codes "y")
    ≡ some (record { value = int 4 10; decl_type = type_int; decl_base = 0; initialized = true })
unfolding env_run
env_get_raw-env_assign_direct_example =
    env_get_raw-env_assign_direct no_maps two 0 (codes "y") (int 4 10) type_int 0 false place_y refl
      refl refl

env_frozen_state_raw-env_thaw_direct_example :
    (env_frozen_state_raw (env_freeze_direct two 0 (codes "y")).1 0 (codes "y") ≡ is_frozen)
    × (env_frozen_state_raw (env_thaw_direct two 0 (codes "y")).1 0 (codes "y") ≡ not_frozen)
    × ((env_thaw_direct two 0 (codes "y")).0 ≡ done)
    × (env_frozen_state_raw (env_permafreeze_direct two 0 (codes "y")).1 0 (codes "y")
        ≡ is_permafrozen)
unfolding env_run
env_frozen_state_raw-env_thaw_direct_example =
    env_frozen_state_raw-env_thaw_direct two 0 (codes "y") place_y refl

-- `x` as `env_permafreeze_direct` leaves it.
abbrev permafrozen_x : EnvEntry
permafrozen_x = record frozen_x { permafrozen = true }

abbrev permanent_store : Store
permanent_store =
    (record empty { entries = permafrozen_x ∷ []; capacity = 8; ht_slots = none ∷ [] }) ∷ []

abbrev commands : List Command
commands =
    Command.thaw 0 (codes "x")
    ∷ Command.write (Write.delete 0 (codes "x"))
    ∷ Command.freeze 0 (codes "x")
    ∷ []

obey_all-IsPermafrozen_example :
    entry_at (obey_all no_maps commands permanent_store) 0 0 ≡ some permafrozen_x
obey_all-IsPermafrozen_example =
    obey_all-IsPermafrozen no_maps commands permanent_store 0 0 permafrozen_x refl (refl, refl)

abbrev typed_commands : List Command
typed_commands =
    Command.write (Write.assign 0 (codes "x") (int 5 10) type_int 10 true)
    ∷ Command.freeze 0 (codes "x")
    ∷ Command.write (Write.restore_local 0 (codes "y") (int 7 10) type_int 0 true)
    ∷ []

empty-AllTyped : AllTyped (empty ∷ [])
empty-AllTyped zero i e at = cc
empty-AllTyped (suc id) i e at = cc

obey_all-AllTyped_example : AllTyped (obey_all no_maps typed_commands (empty ∷ []))
unfolding env_run
obey_all-AllTyped_example =
    obey_all-AllTyped no_maps typed_commands (empty ∷ []) (tt, (tt, (λ _ _. refl, tt)))
      empty-AllTyped
