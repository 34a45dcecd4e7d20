-- ===== src/NsBuffer/Progress.antt =====
-- src/ns_buffer.c: the prepare thread, where the other threads make no step.
use prefix.Base.{
  Bool, true, false, some, List, [], ◌∷◌, ◌++◌, append-nil, ◌≡◌, refl, sym, ◌∙◌, ap, subst,
  if◌then◌else◌, if_both,
}
use prefix.Env.Store.{Store}
use prefix.Map.Schema.{Maps}
use prefix.NsBuffer.Locks.{is_locked}
use prefix.NsBuffer.Op.{NsOp, OpResult, AssignIndexChain, execute_op}
use prefix.NsBuffer.Refinement.{in_flight, unsaid, results, final, Reach-Explains}
use prefix.NsBuffer.System.{
  System, Pc, waiting, taken, found, ready, locked, executed, retired, next_round, stopping_round,
  stopped, prepare_step, work, Reach, later, nobody, prepare, SymbolThread, change_symbol, dispatch,
  retire, retire_late, find_or_create_symbol_thread,
}

abbrev pub is_stopped : Pc → Bool
is_stopped stopped = true
is_stopped _ = false

module _ (maps : Maps) (index : AssignIndexChain) where
  -- Steps of the prepare thread only.
  pub data Works : System → System → Type 0 where
    stay : {s : System} → Works s s
    go : {s t u : System} → prepare_step maps index s.pc s ≡ some t → Works t u → Works s u

  -- The prepare thread comes to where nothing is left to do.
  pub record Completes (s : System) : Type 0 where
    pub end : System
    pub works : Works s end
    pub no_queue : end.queue ≡ []
    pub no_flight : in_flight end.pc ≡ []
    pub no_unsaid : unsaid end.pc ≡ []

  from_next : {s t : System} → prepare_step maps index s.pc s ≡ some t → Completes t → Completes s
  from_next h c = record {
    end = c.end;
    works = go h c.works;
    no_queue = c.no_queue;
    no_flight = c.no_flight;
    no_unsaid = c.no_unsaid;
  }

  abbrev at : Pc → List NsOp → System → System
  at pc q s = record s { pc = pc; queue = q; env_mtx = nobody }

  abbrev Rounds : List NsOp → Type 0
  Rounds q =
      (stopping : Bool) (s : System)
      → Completes (at (if stopping then stopping_round else next_round) q s)

  from_retired :
      (q : List NsOp) (stopping : Bool) (op : NsOp) (r : OpResult) (s : System)
      → Rounds q
      → Completes (at (retired stopping op r) q s)
  unfolding prepare_step
  from_retired q stopping op r s rounds =
      from_next refl (rounds stopping (record s { completed = s.completed ++ (op, r) ∷ [] }))

  from_executed :
      (q : List NsOp) (stopping : Bool) (op : NsOp) (r : OpResult) (s : System)
      → Rounds q
      → Completes (at (executed stopping op r) q s)
  unfolding prepare_step
  from_executed q stopping op r s rounds =
      let change : SymbolThread → SymbolThread = if stopping then retire_late else retire in
      from_next refl (
        from_retired q stopping op r (record s { symbols = change_symbol change s.symbols op.name })
          rounds)

  from_locked :
      (q : List NsOp) (stopping : Bool) (op : NsOp) (s : System)
      → Rounds q
      → Completes (record s { pc = locked stopping op; queue = q })
  unfolding prepare_step
  from_locked q stopping op s rounds =
      let r = execute_op maps index op s.store in
      from_next refl (from_executed q stopping op r.0 (record s { store = r.1 }) rounds)

  from_ready :
      (q : List NsOp) (stopping : Bool) (op : NsOp) (s : System)
      → Rounds q
      → Completes (at (ready stopping op) q s)
  unfolding prepare_step
  from_ready q stopping op s rounds =
      from_next refl (from_locked q stopping op (record s { env_mtx = prepare }) rounds)

  from_found : (q : List NsOp) (op : NsOp) (s : System) → Rounds q → Completes (at (found op) q s)
  unfolding prepare_step
  from_found q op s rounds = from_next refl (
      from_ready q false op (record s { symbols = change_symbol (dispatch op) s.symbols op.name })
        rounds)

  from_taken :
      (q : List NsOp) (stopping : Bool) (op : NsOp) (s : System)
      → Rounds q
      → Completes (at (taken stopping op) q s)
  unfolding prepare_step
  from_taken q true op s rounds = from_next refl (
      from_ready q true op (record s { symbols = find_or_create_symbol_thread s.symbols op.name })
        rounds)
  from_taken q false op s rounds = from_next refl (
      from_found q op (record s { symbols = find_or_create_symbol_thread s.symbols op.name })
        rounds)

  from_waiting :
      (op : NsOp) (q : List NsOp) (s : System) → Rounds q → Completes (at waiting (op ∷ q) s)
  unfolding prepare_step
  from_waiting op q s rounds = from_next refl (from_taken q false op s rounds)

  from_stopping_round :
      (op : NsOp) (q : List NsOp) (s : System) → Rounds q → Completes (at stopping_round (op ∷ q) s)
  unfolding prepare_step
  from_stopping_round op q s rounds = from_next refl (from_taken q true op s rounds)

  from_round : (q : List NsOp) → Rounds q
  unfolding prepare_step
  from_round [] stopping s = record {
    end = at (if stopping then stopping_round else next_round) [] s;
    works = stay;
    no_queue = refl;
    no_flight = if_both (λ pc. in_flight pc ≡ []) stopping refl refl;
    no_unsaid = if_both (λ pc. unsaid pc ≡ []) stopping refl refl;
  }
  from_round (op ∷ q) true s = from_stopping_round op q s (from_round q)
  from_round (op ∷ q) false s = from_next refl (
      if_both (λ pc. Completes (at pc (op ∷ q) s)) s.running (from_waiting op q s (from_round q))
        (from_stopping_round op q s (from_round q)))

  from_anywhere :
      (pc : Pc) (q : List NsOp) (s : System)
      → is_stopped pc ≡ false
      → is_locked pc ≡ false
      → Completes (at pc q s)
  from_anywhere waiting [] s e l = record {
    end = at waiting [] s;
    works = stay;
    no_queue = refl;
    no_flight = refl;
    no_unsaid = refl;
  }
  from_anywhere waiting (op ∷ q) s e l = from_waiting op q s (from_round q)
  from_anywhere (taken stopping op) q s e l = from_taken q stopping op s (from_round q)
  from_anywhere (found op) q s e l = from_found q op s (from_round q)
  from_anywhere (ready stopping op) q s e l = from_ready q stopping op s (from_round q)
  from_anywhere (locked stopping op) q s e l = cc
  from_anywhere (executed stopping op r) q s e l = from_executed q stopping op r s (from_round q)
  from_anywhere (retired stopping op r) q s e l = from_retired q stopping op r s (from_round q)
  from_anywhere next_round q s e l = from_round q false s
  from_anywhere stopping_round q s e l = from_round q true s
  from_anywhere stopped q s e l = cc

  System-Completes :
      (s : System)
      → is_stopped s.pc ≡ false
      → (is_locked s.pc ≡ false → s.env_mtx ≡ nobody)
      → Completes s
  System-Completes s e free = by_pc s.pc refl
    where
      unlocked : is_locked s.pc ≡ false → Completes s
      unlocked l =
          subst (λ m. Completes (record s { env_mtx = m })) (sym (free l))
            (from_anywhere s.pc s.queue s e l)

      by_pc : (pc : Pc) → s.pc ≡ pc → Completes s
      by_pc (locked stopping op) eq =
          subst (λ pc. Completes (record s { pc = pc })) (sym eq)
            (from_locked s.queue stopping op s (from_round s.queue))
      by_pc waiting eq = unlocked (ap is_locked eq)
      by_pc (taken b op) eq = unlocked (ap is_locked eq)
      by_pc (found op) eq = unlocked (ap is_locked eq)
      by_pc (ready b op) eq = unlocked (ap is_locked eq)
      by_pc (executed b op r) eq = unlocked (ap is_locked eq)
      by_pc (retired b op r) eq = unlocked (ap is_locked eq)
      by_pc next_round eq = unlocked (ap is_locked eq)
      by_pc stopping_round eq = unlocked (ap is_locked eq)
      by_pc stopped eq = unlocked (ap is_locked eq)

  Reach-Works :
      {store : Store} {log : List NsOp} {s t : System}
      → Reach maps index store log s
      → Works s t
      → Reach maps index store log t
  Reach-Works r stay = r
  Reach-Works r (go h w) = Reach-Works (later r (work h)) w

  -- From every state that the threads can reach where the prepare thread has not stopped and
  -- `env_mtx` is free or held by it for an execution, it comes by steps of its own to a state where
  -- each operation that was put into the queue is completed, with the results and the store of
  -- executing them one after the other in the order of the queue.
  pub all_completed :
      (store : Store) (log : List NsOp) (s : System)
      → Reach maps index store log s
      → is_stopped s.pc ≡ false
      → (is_locked s.pc ≡ false → s.env_mtx ≡ nobody)
      → (t : System) × Works s t
        × (t.completed ≡ results maps index log store)
        × (t.store ≡ final maps index log store)
  all_completed store log s r e free =
      let c = System-Completes s e free in
      let x = Reach-Explains maps index store log c.end (Reach-Works r c.works) in
      let all : log ≡ x.executed_ops =
        x.whole
        ∙ ap (λ l. x.executed_ops ++ (l ++ c.end.queue)) c.no_flight
        ∙ ap (λ l. x.executed_ops ++ l) c.no_queue
        ∙ append-nil x.executed_ops in
      (
        c.end,
        c.works,
        sym (append-nil c.end.completed)
            ∙ ap (λ l. c.end.completed ++ l) (sym c.no_unsaid)
            ∙ x.told
            ∙ ap (λ l. results maps index l store) (sym all),
        x.stored ∙ ap (λ l. final maps index l store) (sym all),
      )
