-- ===== src/NsBuffer/Tests.antt =====
-- src/ns_buffer.c: a run of the threads, and the theorems about them at it.
use prefix.Base.{
  ◌++◌, ℕ, zero, suc, true, false, none, some, List, [], ◌∷◌, ◌≡◌, refl, codes, Bytes, bytes_eq,
  elim_cases, ◌⊎◌,
}
use prefix.Env.Store.{Store}
use prefix.Env.Table.{new_entry, add_entry}
use prefix.Map.Schema.{Maps}
use prefix.Map.Table.{value_map_new}
use prefix.NsBuffer.Op.{AssignIndexChain, NsOp, make_op, ns_buffer_assign, ns_buffer_freeze}
use prefix.NsBuffer.Pending.{pending, due, Reach-pending}
use prefix.NsBuffer.Program.{
  CrossAlias, aliased, ProgramStep, by_cross, onwards, Reach-ProgramReach, read_lock-excludes,
}
use prefix.NsBuffer.Progress.{Works, all_completed}
use prefix.NsBuffer.Refinement.{Explains, Reach-Explains, results, final}
use prefix.Env.Commands.{Command}
use prefix.Env.History.{Write}
use prefix.NsBuffer.Op.{ns_buffer_delete}
use prefix.NsBuffer.Route.{route, buffered, direct, routed_write}
use prefix.NsBuffer.System.{
  System, prepare_step, enqueue, work, read_ask, read_drained, read_lock, Reach, start, later,
  ns_buffer_init, enqueue_op, find_symbol_thread, find_or_create_symbol_thread, change_symbol,
  inside, passed, draining, update, reader,
}
use prefix.Value.{int, null}
use prefix.Value.Types.{type_int}

abbrev no_maps : Maps
no_maps _ = value_map_new

abbrev no_index : AssignIndexChain
no_index _ _ _ _ _ s = (record { is_ok = true; error = none; line = 0; column = 0 }, s)

abbrev x_name : Bytes
x_name = codes "x"

-- An environment in which `x` is declared.
abbrev one_env : Store
one_env =
    add_entry (record { parent = none; entries = []; capacity = 0; ht_slots = []; ht_count = 0 })
      (new_entry x_name type_int 0 null)
    ∷ []

abbrev first_op : NsOp
first_op = ns_buffer_assign 1 0 x_name (int 5 10) type_int 10 false

abbrev second_op : NsOp
second_op = ns_buffer_freeze 2 0 x_name

-- So many steps of the prepare thread, as long as it can make them.
abbrev prepare_steps : ℕ → System → System
prepare_steps zero s = s
prepare_steps (suc n) s =
    prepare_steps n
      (elim (prepare_step no_maps no_index s.pc s) as (λ _. System) [ none ↦ s | some t ↦ t ])

Reach-prepare_steps :
    {log : List NsOp} (n : ℕ) (s : System)
    → Reach no_maps no_index one_env log s
    → Reach no_maps no_index one_env log (prepare_steps n s)
Reach-prepare_steps zero s r = r
Reach-prepare_steps (suc n) s r = Reach-prepare_steps n _ (
    elim_cases (Reach no_maps no_index one_env _) (prepare_step no_maps no_index s.pc s) (λ _. r)
      (λ t e. later r (work e)))

-- Two writes, of which the first has been executed, and is not yet removed.
abbrev busy : System
busy = prepare_steps 6 (enqueue_op second_op (enqueue_op first_op (ns_buffer_init one_env)))

abbrev log : List NsOp
log = first_op ∷ second_op ∷ []

Reach-busy : Reach no_maps no_index one_env log busy
Reach-busy = Reach-prepare_steps 6 _ (later (later start (enqueue first_op)) (enqueue second_op))

Reach-Explains_example : Explains no_maps no_index one_env log busy.pc busy
Reach-Explains_example = Reach-Explains no_maps no_index one_env log busy Reach-busy

Reach-pending_example : pending busy.symbols x_name ≡ due busy.pc x_name
Reach-pending_example = Reach-pending no_maps no_index one_env log busy x_name Reach-busy

busy_due : due busy.pc x_name ≡ (first_op ∷ [], 1)
unfolding make_op ns_buffer_assign ns_buffer_freeze ns_buffer_init enqueue_op prepare_step bytes_eq
busy_due = refl

all_completed_example :
    (t : System) × Works no_maps no_index busy t
    × (t.completed ≡ results no_maps no_index log one_env)
    × (t.store ≡ final no_maps no_index log one_env)
unfolding ns_buffer_init enqueue_op prepare_step
all_completed_example = all_completed no_maps no_index one_env log busy Reach-busy refl (λ _. refl)

-- Both writes are completed; a reader of `x` finds none pending and takes the lock.
abbrev settled : System
settled = prepare_steps 20 busy

abbrev reading : System
reading = record settled {
  readers = update (update (update settled.readers 0 (draining x_name)) 0 passed) 0 inside;
  env_mtx = reader 0;
}

Reach-reading : Reach no_maps no_index one_env log reading
unfolding ns_buffer_init enqueue_op prepare_step find_symbol_thread find_or_create_symbol_thread
    change_symbol bytes_eq make_op ns_buffer_assign ns_buffer_freeze
Reach-reading =
    later
      (later (later (Reach-prepare_steps 20 busy Reach-busy) (read_ask 0 x_name refl refl)) (
        read_drained 0 x_name (record { name = x_name; ops = []; pending_count = 0 }) refl refl
          refl))
      (read_lock 0 refl refl)

-- Then `y` is made an alias of `x` past the buffer.
abbrev alias_y : CrossAlias
alias_y = record {
  env = 0;
  name = codes "y";
  target_env = 0;
  target_name = codes "x";
  type = type_int;
  base = 0;
  declare_if_missing = true;
}

abbrev crossed : System
crossed = record reading { store = aliased alias_y reading.store }

read_lock-excludes_example :
    ((j : ℕ) → crossed.readers j ≡ inside → 0 ≡ j)
    × ((log' : List NsOp) (t : System)
        → ProgramStep no_maps no_index log crossed log' t
        → (t.store ≡ crossed.store) ⊎ ((a : CrossAlias) × (t.store ≡ aliased a crossed.store)))
unfolding ns_buffer_init enqueue_op prepare_step
read_lock-excludes_example =
    read_lock-excludes no_maps no_index one_env log crossed 0
      (onwards (Reach-ProgramReach no_maps no_index Reach-reading) (by_cross alias_y)) refl refl

routed_write_example :
    (t : System) × Works no_maps no_index (enqueue_op (ns_buffer_delete 3 0 x_name) busy) t
    × (t.completed
        ≡ results no_maps no_index log one_env
          ++ (
            ns_buffer_delete 3 0 x_name,
            (direct no_maps no_index
                (Command.write (Write.delete 0 x_name))
                (final no_maps no_index log one_env)).0,
          )
            ∷ [])
    × (t.store
        ≡ (direct no_maps no_index
            (Command.write (Write.delete 0 x_name))
            (final no_maps no_index log one_env)).1)
unfolding ns_buffer_init enqueue_op prepare_step route buffered
routed_write_example =
    routed_write no_maps no_index one_env log busy true false 3
      (Command.write (Write.delete 0 x_name)) (ns_buffer_delete 3 0 x_name) Reach-busy refl
      (λ _. refl) refl
