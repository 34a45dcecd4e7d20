-- ===== src/NsBuffer/Route.antt =====
-- src/env.c: the public writes, which go through the buffer where it is active.
use prefix.Base.{
  ℕ, Bool, true, false, ◌&&◌, not, Option, none, some, List, [], ◌∷◌, ◌++◌, ◌≡◌, refl, ◌∙◌, ap,
  subst, if◌then◌else◌,
}
use prefix.Env.Commands.{Command, write, freeze, thaw, permafreeze}
use prefix.Env.History.{define, assign, delete, set_alias, set_alias_cross, restore_local, run}
use prefix.Env.Store.{Store}
use prefix.Env.Write.{env_freeze_direct, env_thaw_direct, env_permafreeze_direct}
use prefix.Map.Schema.{Maps}
use prefix.NsBuffer.Locks.{is_locked}
use prefix.NsBuffer.Op.{
  NsOp, OpResult, AssignIndexChain, execute_op, ok_result, int_result, make_op, ns_buffer_define,
  ns_buffer_assign, ns_buffer_delete, ns_buffer_set_alias, ns_buffer_restore_local,
  ns_buffer_freeze, ns_buffer_thaw, ns_buffer_permafreeze,
}
use prefix.NsBuffer.Progress.{Works, all_completed, is_stopped}
use prefix.NsBuffer.Refinement.{results, final, results-append, final-append}
use prefix.NsBuffer.System.{System, enqueue, Reach, later, enqueue_op, nobody}

-- The operation that a public write puts into the buffer, with the address `id`.
-- `env_set_alias_cross` never does.
unfoldable pub buffered : ℕ → Command → Option NsOp
buffered id (write (define env name type base schema)) =
    some (ns_buffer_define id env name type base schema)
buffered id (write (assign env name value type base missing)) =
    some (ns_buffer_assign id env name value type base missing)
buffered id (write (delete env name)) = some (ns_buffer_delete id env name)
buffered id (write (set_alias env name target type base missing)) =
    some (ns_buffer_set_alias id env name target type base missing)
buffered id (write (set_alias_cross env name target_env target type base missing)) = none
buffered id (write (restore_local env name value type base initialized)) =
    some (ns_buffer_restore_local id env name value type base initialized)
buffered id (freeze env name) = some (ns_buffer_freeze id env name)
buffered id (thaw env name) = some (ns_buffer_thaw id env name)
buffered id (permafreeze env name) = some (ns_buffer_permafreeze id env name)

-- `none` where the write is made directly. `active` is `ns_buffer_active()`, and `on_prepare` is
-- `ns_buffer_is_prepare_thread()`.
unfoldable pub route : Bool → Bool → ℕ → Command → Option NsOp
unfolding buffered
route active on_prepare id c = if active && not on_prepare then buffered id c else none

module _ (maps : Maps) (index : AssignIndexChain) where
  -- The direct write.
  abbrev pub direct : Command → Store → OpResult × Store
  direct (write w) s = ok_result (run maps w s)
  direct (freeze env name) s = int_result (env_freeze_direct s env name)
  direct (thaw env name) s = int_result (env_thaw_direct s env name)
  direct (permafreeze env name) s = int_result (env_permafreeze_direct s env name)

  abbrev Executes : Command → Store → Option NsOp → Type 0
  Executes c s none = Unit {0}
  Executes c s (some op) = execute_op maps index op s ≡ direct c s

  buffered-Executes : (id : ℕ) (c : Command) (s : Store) → Executes c s (buffered id c)
  unfolding buffered execute_op make_op ns_buffer_define ns_buffer_assign ns_buffer_delete
      ns_buffer_set_alias ns_buffer_restore_local ns_buffer_freeze ns_buffer_thaw
      ns_buffer_permafreeze
  buffered-Executes id (write (define env name type base schema)) s = refl
  buffered-Executes id (write (assign env name value type base missing)) s = refl
  buffered-Executes id (write (delete env name)) s = refl
  buffered-Executes id (write (set_alias env name target type base missing)) s = refl
  buffered-Executes id (write (set_alias_cross env name target_env target type base missing)) s = tt
  buffered-Executes id (write (restore_local env name value type base initialized)) s = refl
  buffered-Executes id (freeze env name) s = refl
  buffered-Executes id (thaw env name) s = refl
  buffered-Executes id (permafreeze env name) s = refl

  route-Executes :
      (active on_prepare : Bool) (id : ℕ) (c : Command) (s : Store)
      → Executes c s (route active on_prepare id c)
  unfolding route
  route-Executes active on_prepare id c s =
      by_test (active && not on_prepare) (buffered-Executes id c s)
    where
      by_test :
          (b : Bool)
          → Executes c s (buffered id c)
          → Executes c s (if b then buffered id c else none)
      by_test true e = e
      by_test false e = tt

  -- A public write that goes through the buffer, in any state that the threads can reach where the
  -- prepare thread has not stopped and `env_mtx` is free or held by it for an execution: steps of
  -- the prepare thread complete it, behind all operations that were put into the queue before it,
  -- with the result and the store that the direct write gives on the store behind these.
  pub routed_write :
      (store : Store) (log : List NsOp) (s : System) (active on_prepare : Bool) (id : ℕ)
      (c : Command) (op : NsOp)
      → Reach maps index store log s
      → is_stopped s.pc ≡ false
      → (is_locked s.pc ≡ false → s.env_mtx ≡ nobody)
      → route active on_prepare id c ≡ some op
      → (t : System) × Works maps index (enqueue_op op s) t
        × (t.completed
            ≡ results maps index log store ++ (op, (direct c (final maps index log store)).0) ∷ [])
        × (t.store ≡ (direct c (final maps index log store)).1)
  unfolding enqueue_op
  routed_write store log s active on_prepare id c op r e free routed =
      let before = final maps index log store in
      let same : execute_op maps index op before ≡ direct c before =
        subst (Executes c before) routed (route-Executes active on_prepare id c before) in
      let (t, works, told, stored) =
        all_completed maps index store (log ++ op ∷ []) (enqueue_op op s) (later r (enqueue op)) e
          free in
      (
        t,
        works,
        told
            ∙ results-append maps index log op store
            ∙ ap (λ p. results maps index log store ++ (op, p.0) ∷ []) same,
        stored ∙ final-append maps index log op store ∙ ap (λ p. p.1) same,
      )
