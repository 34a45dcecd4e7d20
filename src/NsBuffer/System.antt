-- ===== src/NsBuffer/System.antt =====
-- src/ns_buffer.c: the buffer, its prepare thread, and the threads that write and read. A section
-- between the locking and the unlocking of a mutex is one step. The steps of all threads come in any
-- order.
use prefix.Base.{
  ℕ, ◌+◌, ◌-◌, Bool, true, false, Option, none, some, List, [], ◌∷◌, ◌++◌, ◌≡◌, ◌==◌, ltb,
  if◌then◌else◌, Bytes, bytes_eq,
}
use prefix.Env.Store.{Store}
use prefix.NsBuffer.Op.{NsOp, OpResult, AssignIndexChain, execute_op}
use prefix.Map.Schema.{Maps}

-- `ops` is the list from `head` to `tail`.
pub record SymbolThread : Type 0 where
  pub name : Bytes
  pub ops : List NsOp
  pub pending_count : ℕ

unfoldable pub find_symbol_thread : List SymbolThread → Bytes → Option SymbolThread
find_symbol_thread [] name = none
find_symbol_thread (st ∷ sts) name =
    let rest = find_symbol_thread sts name in if bytes_eq st.name name then some st else rest

unfoldable pub find_or_create_symbol_thread : List SymbolThread → Bytes → List SymbolThread
find_or_create_symbol_thread sts name =
    elim (find_symbol_thread sts name) as (λ _. List SymbolThread) [
      | some _ ↦ sts
      | none ↦ (record { name = name; ops = []; pending_count = 0 }) ∷ sts
    ]

-- A write through the `SymbolThread *` of a name.
unfoldable pub change_symbol :
    (SymbolThread → SymbolThread) → List SymbolThread → Bytes → List SymbolThread
change_symbol f [] name = []
change_symbol f (st ∷ sts) name =
    let rest = change_symbol f sts name in if bytes_eq st.name name then f st ∷ sts else st ∷ rest

-- Phase 2: the operation behind the tail.
abbrev pub dispatch : NsOp → SymbolThread → SymbolThread
dispatch op st = record st { ops = st.ops ++ op ∷ []; pending_count = st.pending_count + 1 }

-- Phase 4. `st->head = op->next`, which is what is behind the operation, the only one.
abbrev pub behind : List NsOp → List NsOp
behind [] = []
behind (_ ∷ ops) = ops

abbrev pub retire : SymbolThread → SymbolThread
retire st = record st { ops = behind st.ops; pending_count = st.pending_count - 1 }

-- The same when the thread is stopping, where the operation was never put into the list.
abbrev pub retire_late : SymbolThread → SymbolThread
retire_late st = record st {
  pending_count = if ltb 0 st.pending_count then st.pending_count - 1 else st.pending_count;
}

-- Where the prepare thread stands, with its local variables. `stopping` tells the loop behind the
-- end of the main loop from the main loop.
pub data Pc : Type 0 where
  waiting : Pc  -- phase 1
  taken : (stopping : Bool) → NsOp → Pc  -- before `find_or_create_symbol_thread`
  found : NsOp → Pc  -- before the append to the symbol's list
  ready : (stopping : Bool) → NsOp → Pc  -- before the lock of `env_mtx`
  locked : (stopping : Bool) → NsOp → Pc  -- before `execute_op`
  executed : (stopping : Bool) → NsOp → OpResult → Pc  -- before phase 4
  retired : (stopping : Bool) → NsOp → OpResult → Pc  -- before phase 5
  next_round : Pc  -- the test of the main loop
  stopping_round : Pc  -- the loop that drains
  stopped : Pc

-- Who holds `env_mtx`.
pub data Holder : Type 0 where
  nobody : Holder
  prepare : Holder
  reader : ℕ → Holder

-- A thread in `ns_buffer_read_lock`.
pub data ReaderPc : Type 0 where
  away : ReaderPc
  draining : Bytes → ReaderPc  -- before a test of `pending_count`
  passed : ReaderPc  -- before the lock of `env_mtx`
  inside : ReaderPc

-- `completed` holds the blocks whose `completed` is set, with what was filled in.
pub record System : Type 0 where
  pub queue : List NsOp
  pub symbols : List SymbolThread
  pub running : Bool
  pub env_mtx : Holder
  pub pc : Pc
  pub readers : ℕ → ReaderPc
  pub store : Store
  pub completed : List (NsOp × OpResult)

-- `ns_buffer_init`
unfoldable pub ns_buffer_init : Store → System
ns_buffer_init store = record {
  queue = [];
  symbols = [];
  running = true;
  env_mtx = nobody;
  pc = next_round;
  readers = λ _. away;
  store = store;
  completed = [];
}

unfoldable pub enqueue_op : NsOp → System → System
enqueue_op op s = record s { queue = s.queue ++ op ∷ [] }

-- The oldest operation, or where to go without one.
abbrev pub dequeue : Pc → (NsOp → Pc) → List NsOp → System → System
dequeue without with_op [] s = record s { pc = without }
dequeue without with_op (op ∷ ops) s = record s { queue = ops; pc = with_op op }

module _ (maps : Maps) (assign_index_chain : AssignIndexChain) where
  abbrev run_op : Bool → NsOp → System → System
  run_op stopping op s =
      let (r, store) = execute_op maps assign_index_chain op s.store in
      record s { store = store; env_mtx = nobody; pc = executed stopping op r }

  -- A step of the prepare thread, `none` where it waits. `cnd_wait` returns when there is an
  -- operation, or when the buffer no longer runs.
  unfoldable pub prepare_step : Pc → System → Option System
  prepare_step next_round s = some (record s { pc = if s.running then waiting else stopping_round })
  prepare_step waiting s = elim s.queue as (λ _. Option System) [
    | [] ↦ if s.running then none else some (record s { pc = stopping_round })
    | op ∷ ops ↦ some (record s { queue = ops; pc = taken false op })
  ]
  prepare_step stopping_round s = some (dequeue stopped (taken true) s.queue s)
  prepare_step (taken stopping op) s = some (record s {
    symbols = find_or_create_symbol_thread s.symbols op.name;
    pc = if stopping then ready true op else found op;
  })
  prepare_step (found op) s =
      some
        (record s { symbols = change_symbol (dispatch op) s.symbols op.name; pc = ready false op })
  prepare_step (ready stopping op) s = elim s.env_mtx as (λ _. Option System) [
    | nobody ↦ some (record s { env_mtx = prepare; pc = locked stopping op })
    | _ ↦ none
  ]
  prepare_step (locked stopping op) s = some (run_op stopping op s)
  prepare_step (executed stopping op r) s = some (record s {
    symbols = change_symbol (if stopping then retire_late else retire) s.symbols op.name;
    pc = retired stopping op r;
  })
  prepare_step (retired stopping op r) s = some (record s {
    completed = s.completed ++ (op, r) ∷ [];
    pc = if stopping then stopping_round else next_round;
  })
  prepare_step stopped s = none

abbrev pub update : (ℕ → ReaderPc) → ℕ → ReaderPc → ℕ → ReaderPc
update f i p j = if i == j then p else f j

-- Where a reader goes from the look at the registry.
abbrev pub asked : List SymbolThread → Bytes → ReaderPc
asked sts name = elim (find_symbol_thread sts name) as (λ _. ReaderPc) [
  | none ↦ passed
  | some _ ↦ draining name
]

-- A step of any thread. Where the buffer no longer runs, `ns_buffer_read_lock` returns at once, and
-- `ns_buffer_read_unlock` unlocks all the same. The index is the list of the operations that have been put into the queue.
pub data Step (maps : Maps) (index : AssignIndexChain) (log : List NsOp) (s : System)
    : List NsOp → System → Type 0 where
  enqueue : (op : NsOp) → Step maps index log s (log ++ op ∷ []) (enqueue_op op s)
  work : {t : System} → prepare_step maps index s.pc s ≡ some t → Step maps index log s log t
  shutdown : Step maps index log s log (record s { running = false })
  read_ask :
      (i : ℕ) (name : Bytes)
      → s.readers i ≡ away
      → s.running ≡ true
      → Step maps index log s log (record s { readers = update s.readers i (asked s.symbols name) })
  read_skip :
      (i : ℕ)
      → s.readers i ≡ away
      → s.running ≡ false
      → Step maps index log s log (record s { readers = update s.readers i inside })
  read_drained :
      (i : ℕ) (name : Bytes) (st : SymbolThread)
      → s.readers i ≡ draining name
      → find_symbol_thread s.symbols name ≡ some st
      → st.pending_count ≡ 0
      → Step maps index log s log (record s { readers = update s.readers i passed })
  read_lock :
      (i : ℕ)
      → s.readers i ≡ passed
      → s.env_mtx ≡ nobody
      → Step maps index log s log
          (record s { readers = update s.readers i inside; env_mtx = reader i })
  read_unlock :
      (i : ℕ)
      → s.readers i ≡ inside
      → Step maps index log s log (record s { readers = update s.readers i away; env_mtx = nobody })

pub data Reach (maps : Maps) (index : AssignIndexChain) (store : Store)
    : List NsOp → System → Type 0 where
  start : Reach maps index store [] (ns_buffer_init store)
  later :
      {log log' : List NsOp} {s t : System}
      → Reach maps index store log s
      → Step maps index log s log' t
      → Reach maps index store log' t
