-- ===== src/NsBuffer/Refinement.antt =====
-- src/ns_buffer.c: the interleaved writes against the same writes one after the other.
use prefix.Base.{
  Bool, true, false, Option, none, some, List, [], ◌∷◌, ◌++◌, append-nil, append_assoc, ◌≡◌, refl,
  sym, ◌∙◌, ap, subst, if◌then◌else◌, if_both,
}
use prefix.Env.Store.{Store}
use prefix.Map.Schema.{Maps}
use prefix.NsBuffer.Op.{NsOp, OpResult, AssignIndexChain, execute_op}
use prefix.NsBuffer.System.{
  System, Pc, waiting, taken, found, ready, locked, executed, retired, next_round, stopping_round,
  stopped, prepare_step, Step, enqueue, work, shutdown, read_ask, read_skip, read_drained,
  read_lock, read_unlock, Reach, start, later, dequeue, Holder, nobody, prepare, reader,
  ns_buffer_init, enqueue_op,
}

-- The operation that is taken from the queue and not yet executed.
abbrev pub in_flight : Pc → List NsOp
in_flight (taken _ op) = op ∷ []
in_flight (found op) = op ∷ []
in_flight (ready _ op) = op ∷ []
in_flight (locked _ op) = op ∷ []
in_flight _ = []

-- The operation that is executed and not yet completed, with its result.
abbrev pub unsaid : Pc → List (NsOp × OpResult)
unsaid (executed _ op r) = (op, r) ∷ []
unsaid (retired _ op r) = (op, r) ∷ []
unsaid _ = []

module _ (maps : Maps) (index : AssignIndexChain) where
  -- The operations one after the other: their results, and the store behind them.
  abbrev pub results : List NsOp → Store → List (NsOp × OpResult)
  results [] s = []
  results (op ∷ ops) s = let r = execute_op maps index op s in (op, r.0) ∷ results ops r.1

  abbrev pub final : List NsOp → Store → Store
  final [] s = s
  final (op ∷ ops) s = final ops (execute_op maps index op s).1

  pub results-append :
      (ops : List NsOp) (op : NsOp) (s : Store)
      → results (ops ++ op ∷ []) s
        ≡ results ops s ++ (op, (execute_op maps index op (final ops s)).0) ∷ []
  results-append [] op s = refl
  results-append (o ∷ ops) op s =
      ap (λ rs. (o, (execute_op maps index o s).0) ∷ rs)
        (results-append ops op (execute_op maps index o s).1)

  pub final-append :
      (ops : List NsOp) (op : NsOp) (s : Store)
      → final (ops ++ op ∷ []) s ≡ (execute_op maps index op (final ops s)).1
  final-append [] op s = refl
  final-append (o ∷ ops) op s = final-append ops op (execute_op maps index o s).1

  -- The operations that were put into the queue are those executed, in this order, the one in
  -- flight, and those in the queue.
  pub record Explains (store : Store) (log : List NsOp) (pc : Pc) (s : System) : Type 0 where
    pub executed_ops : List NsOp
    pub whole : log ≡ executed_ops ++ (in_flight pc ++ s.queue)
    pub stored : s.store ≡ final executed_ops store
    pub told : s.completed ++ unsaid pc ≡ results executed_ops store

  -- A step that changes none of this.
  same :
      (store : Store) (log : List NsOp) (pc pc' : Pc) (s t : System)
      → in_flight pc' ++ t.queue ≡ in_flight pc ++ s.queue
      → t.store ≡ s.store
      → t.completed ++ unsaid pc' ≡ s.completed ++ unsaid pc
      → Explains store log pc s
      → Explains store log pc' t
  same store log pc pc' s t q st c e = record {
    executed_ops = e.executed_ops;
    whole = e.whole ∙ ap (λ r. e.executed_ops ++ r) (sym q);
    stored = st ∙ e.stored;
    told = c ∙ e.told;
  }

  -- A step of the prepare thread, if it makes one.
  abbrev Stays : Store → List NsOp → Option System → Type 0
  Stays store log none = Unit {0}
  Stays store log (some t) = Explains store log t.pc t

  dequeue-Explains :
      (store : Store) (log : List NsOp) (without pc : Pc) (stopping : Bool) (s : System)
      (q : List NsOp)
      → s.queue ≡ q
      → in_flight pc ≡ []
      → unsaid pc ≡ []
      → in_flight without ≡ []
      → unsaid without ≡ []
      → Explains store log pc s
      → (let t = dequeue without (taken stopping) q s in Explains store log t.pc t)
  dequeue-Explains store log without pc stopping s [] eq fl un fl' un' e =
      same store log pc without s (record s { pc = without })
        (ap (λ l. l ++ s.queue) (fl' ∙ sym fl)) refl (ap (λ l. s.completed ++ l) (un' ∙ sym un)) e
  dequeue-Explains store log without pc stopping s (op ∷ ops) eq fl un fl' un' e =
      same store log pc (taken stopping op) s (record s { queue = ops; pc = taken stopping op })
        (sym eq ∙ ap (λ l. l ++ s.queue) (sym fl)) refl (ap (λ l. s.completed ++ l) (sym un)) e

  locked-Explains :
      (store : Store) (log : List NsOp) (stopping : Bool) (op : NsOp) (s : System)
      → Explains store log (locked stopping op) s
      → (let r = execute_op maps index op s.store in
          Explains store log
            (executed stopping op r.0)
            (record s { store = r.1; env_mtx = nobody; pc = executed stopping op r.0 }))
  locked-Explains store log stopping op s e = record {
    executed_ops = e.executed_ops ++ op ∷ [];
    whole = e.whole ∙ sym (append_assoc e.executed_ops (op ∷ []) s.queue);
    stored =
        ap (λ st. (execute_op maps index op st).1) e.stored
        ∙ sym (final-append e.executed_ops op store);
    told =
        ap (λ l. l ++ (op, (execute_op maps index op s.store).0) ∷ [])
          (sym (append-nil s.completed) ∙ e.told)
        ∙ ap (λ st. results e.executed_ops store ++ (op, (execute_op maps index op st).0) ∷ [])
            e.stored
        ∙ sym (results-append e.executed_ops op store);
  }

  prepare_step-Explains :
      (store : Store) (log : List NsOp) (pc : Pc) (s : System)
      → Explains store log pc s
      → Stays store log (prepare_step maps index pc s)
  unfolding prepare_step
  prepare_step-Explains store log waiting s e = wait s.queue refl
    where
      stop : Explains store log stopping_round (record s { pc = stopping_round })
      stop =
          same store log waiting stopping_round s (record s { pc = stopping_round }) refl refl refl
            e

      wait :
          (q : List NsOp)
          → s.queue ≡ q
          → Stays store log (elim q as (λ _. Option System) [
            | [] ↦ if s.running then none else some (record s { pc = stopping_round })
            | op ∷ ops ↦ some (record s { queue = ops; pc = taken false op })
          ])
      wait [] eq = if_both (Stays store log) s.running tt stop
      wait (op ∷ ops) eq =
          dequeue-Explains store log waiting waiting false s (op ∷ ops) eq refl refl refl refl e
  prepare_step-Explains store log stopping_round s e =
      dequeue-Explains store log stopped stopping_round true s s.queue refl refl refl refl refl e
  prepare_step-Explains store log next_round s e =
      if_both (λ pc. Explains store log pc (record s { pc = pc })) s.running
        (same store log next_round waiting s (record s { pc = waiting }) refl refl refl e)
        (same store log next_round stopping_round s (record s { pc = stopping_round }) refl refl
          refl e)
  prepare_step-Explains store log (taken true op) s e = same _ _ _ _ s _ refl refl refl e
  prepare_step-Explains store log (taken false op) s e = same _ _ _ _ s _ refl refl refl e
  prepare_step-Explains store log (found op) s e = same _ _ _ _ s _ refl refl refl e
  prepare_step-Explains store log (ready stopping op) s e = take_lock s.env_mtx
    where
      take_lock :
          (h : Holder)
          → Stays store log (elim h as (λ _. Option System) [
            | nobody ↦ some (record s { env_mtx = prepare; pc = locked stopping op })
            | _ ↦ none
          ])
      take_lock nobody =
          same store log (ready stopping op) (locked stopping op) s
            (record s { env_mtx = prepare; pc = locked stopping op }) refl refl refl e
      take_lock prepare = tt
      take_lock (reader i) = tt
  prepare_step-Explains store log (locked stopping op) s e =
      locked-Explains store log stopping op s e
  prepare_step-Explains store log (executed stopping op r) s e = same _ _ _ _ s _ refl refl refl e
  prepare_step-Explains store log (retired stopping op r) s e = record {
    executed_ops = e.executed_ops;
    whole =
        if_both (λ pc. log ≡ e.executed_ops ++ (in_flight pc ++ s.queue)) stopping e.whole e.whole;
    stored = e.stored;
    told =
        if_both (λ pc. (s.completed ++ (op, r) ∷ []) ++ unsaid pc ≡ results e.executed_ops store)
          stopping (append-nil (s.completed ++ (op, r) ∷ []) ∙ e.told)
          (append-nil (s.completed ++ (op, r) ∷ []) ∙ e.told);
  }
  prepare_step-Explains store log stopped s e = tt

  Step-Explains :
      (store : Store) (log log' : List NsOp) (s t : System)
      → Step maps index log s log' t
      → Explains store log s.pc s
      → Explains store log' t.pc t
  unfolding enqueue_op
  Step-Explains store log log' s t (enqueue op) e = record {
    executed_ops = e.executed_ops;
    whole =
        ap (λ l. l ++ op ∷ []) e.whole
        ∙ append_assoc e.executed_ops (in_flight s.pc ++ s.queue) (op ∷ [])
        ∙ ap (λ l. e.executed_ops ++ l) (append_assoc (in_flight s.pc) s.queue (op ∷ []));
    stored = e.stored;
    told = e.told;
  }
  Step-Explains store log log' s t (work h) e =
      subst (Stays store log) h (prepare_step-Explains store log s.pc s e)
  Step-Explains store log log' s t shutdown e = same _ _ _ _ s _ refl refl refl e
  Step-Explains store log log' s t (read_ask i name h r) e = same _ _ _ _ s _ refl refl refl e
  Step-Explains store log log' s t (read_skip i h r) e = same _ _ _ _ s _ refl refl refl e
  Step-Explains store log log' s t (read_drained i name st h f z) e =
      same _ _ _ _ s _ refl refl refl e
  Step-Explains store log log' s t (read_lock i h l) e = same _ _ _ _ s _ refl refl refl e
  Step-Explains store log log' s t (read_unlock i h) e = same _ _ _ _ s _ refl refl refl e

  -- In every state that the threads can reach, by steps in any order, the operations executed so
  -- far are the first ones that were put into the queue, in that order. The store and the results
  -- are those of executing these one after the other on the store at the start, and every
  -- operation that was put into the queue is executed, in flight or in the queue.
  pub Reach-Explains :
      (store : Store) (log : List NsOp) (s : System)
      → Reach maps index store log s
      → Explains store log s.pc s
  unfolding ns_buffer_init
  Reach-Explains store log s start = record {
    executed_ops = [];
    whole = refl;
    stored = refl;
    told = refl;
  }
  Reach-Explains store log' t (later {log} {s} r st) =
      Step-Explains store log log' s t st (Reach-Explains store log s r)
