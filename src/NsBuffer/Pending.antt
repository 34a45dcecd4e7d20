-- ===== src/NsBuffer/Pending.antt =====
-- src/ns_buffer.c: the registry of the symbol threads, and the writes that a read waits for.
use prefix.Base.{
  ℕ, ◌-◌, ◌+◌, Bool, true, false, Option, none, some, List, [], ◌∷◌, ◌++◌, ◌≡◌, refl, sym, ◌∙◌, ap,
  subst, if◌then◌else◌, if_both, if_cases, elim_cases, Bytes, bytes_eq, bytes_eq_iff, ltb,
}
use prefix.Env.Store.{Store}
use prefix.Map.Schema.{Maps}
use prefix.NsBuffer.Op.{NsOp, AssignIndexChain}
use prefix.NsBuffer.System.{
  System, Pc, waiting, taken, found, ready, locked, executed, retired, next_round, stopping_round,
  stopped, prepare_step, Step, enqueue, work, shutdown, read_ask, read_skip, read_drained,
  read_lock, read_unlock, Reach, start, later, dequeue, Holder, nobody, prepare, reader,
  ns_buffer_init, enqueue_op, SymbolThread, find_symbol_thread, find_or_create_symbol_thread,
  change_symbol, dispatch, retire, retire_late, behind,
}

-- The list and the counter of a name, as a read finds them.
abbrev pub pending_of : Option SymbolThread → List NsOp × ℕ
pending_of none = ([], 0)
pending_of (some st) = (st.ops, st.pending_count)

abbrev pub pending : List SymbolThread → Bytes → List NsOp × ℕ
pending sts name = pending_of (find_symbol_thread sts name)

abbrev only : NsOp → Bytes → List NsOp × ℕ
only op name = if bytes_eq op.name name then (op ∷ [], 1) else ([], 0)

-- What it is, by where the prepare thread stands.
abbrev pub due : Pc → Bytes → List NsOp × ℕ
due (ready false op) name = only op name
due (locked false op) name = only op name
due (executed false op r) name = only op name
due _ name = ([], 0)

find-create :
    (sts : List SymbolThread) (name m : Bytes)
    → pending (find_or_create_symbol_thread sts name) m ≡ pending sts m
unfolding find_or_create_symbol_thread find_symbol_thread
find-create sts name m =
    elim_cases (λ l. pending l m ≡ pending sts m) (find_symbol_thread sts name)
      (λ e.
        if_cases (λ f. pending_of f ≡ pending sts m) (bytes_eq name m)
          (λ eq. ap pending_of (sym e) ∙ ap (pending sts) ((bytes_eq_iff name m).0 eq)) (λ _. refl))
      (λ st e. refl)

abbrev IsFound : Option SymbolThread → Type 0
IsFound o = (st : SymbolThread) × (o ≡ some st)

create-IsFound :
    (sts : List SymbolThread) (name : Bytes)
    → IsFound (find_symbol_thread (find_or_create_symbol_thread sts name) name)
unfolding find_or_create_symbol_thread find_symbol_thread
create-IsFound sts name =
    elim_cases (λ l. IsFound (find_symbol_thread l name)) (find_symbol_thread sts name)
      (λ e.
        if_cases IsFound (bytes_eq name name) (λ _. (_, refl))
          (λ ne. cc (ne, (bytes_eq_iff name name).1 refl)))
      (λ st e. (st, e))

abbrev map_option : (SymbolThread → SymbolThread) → Option SymbolThread → Option SymbolThread
map_option f none = none
map_option f (some st) = some (f st)

find-change :
    (f : SymbolThread → SymbolThread)
    → ((st : SymbolThread) → (f st).name ≡ st.name)
    → (sts : List SymbolThread) (name m : Bytes)
    → find_symbol_thread (change_symbol f sts name) m ≡ (
        if bytes_eq name m
        then map_option f (find_symbol_thread sts m)
        else find_symbol_thread sts m)
unfolding find_symbol_thread change_symbol
find-change f keeps [] name m =
    if_both {A = Option SymbolThread} (λ o. none ≡ o) (bytes_eq name m) refl refl
find-change f keeps (st ∷ sts) name m =
    if_cases (λ l. find_symbol_thread l m ≡ (if bytes_eq name m then map_option f here else here))
      (bytes_eq st.name name)
      (λ e.
        let same : st.name ≡ name = (bytes_eq_iff st.name name).0 e in
        ap (λ n. if bytes_eq n m then some (f st) else find_symbol_thread sts m) (keeps st ∙ same)
        ∙ at_head (bytes_eq name m)
        ∙ ap
            (λ n.
              let o = if bytes_eq n m then some st else find_symbol_thread sts m in
              if bytes_eq name m then map_option f o else o)
            (sym same))
      (λ ne.
        behind_head (bytes_eq st.name m) (bytes_eq name m)
          (λ e e'. cc (
            ne,
            (bytes_eq_iff st.name name).1
                ((bytes_eq_iff st.name m).0 e ∙ sym ((bytes_eq_iff name m).0 e')),
          ))
          (find-change f keeps sts name m))
  where
    here : Option SymbolThread
    here = if bytes_eq st.name m then some st else find_symbol_thread sts m

    at_head :
        (b : Bool)
        → (if b then some (f st) else find_symbol_thread sts m) ≡ (
            let o = if b then some st else find_symbol_thread sts m in
            if b then map_option f o else o)
    at_head true = refl
    at_head false = refl

    behind_head :
        (b c : Bool)
        → (b ≡ true → c ≡ true → true ≡ false)
        → find_symbol_thread (change_symbol f sts name) m
          ≡ (if c then map_option f (find_symbol_thread sts m) else find_symbol_thread sts m)
        → (if b then some st else find_symbol_thread (change_symbol f sts name) m) ≡ (
            let o = if b then some st else find_symbol_thread sts m in
            if c then map_option f o else o)
    behind_head true true apart ih = cc (apart refl refl)
    behind_head true false apart ih = refl
    behind_head false c apart ih = ih

-- The registry where the prepare thread stands at `pc`.
abbrev Tracks : Pc → List SymbolThread → Type 0
Tracks (found op) sts =
    ((m : Bytes) → pending sts m ≡ ([], 0)) × IsFound (find_symbol_thread sts op.name)
Tracks pc sts = (m : Bytes) → pending sts m ≡ due pc m

changed :
    (f : SymbolThread → SymbolThread) (keeps : (st : SymbolThread) → (f st).name ≡ st.name)
    (sts : List SymbolThread) (name m : Bytes) (before after : List NsOp × ℕ)
    → ((st : SymbolThread) → pending_of (some st) ≡ before → pending_of (some (f st)) ≡ after)
    → IsFound (find_symbol_thread sts name)
    → pending sts m ≡ (if bytes_eq name m then before else ([], 0))
    → pending (change_symbol f sts name) m ≡ (if bytes_eq name m then after else ([], 0))
changed f keeps sts name m before after step (st, is_found) tracked =
    ap pending_of (find-change f keeps sts name m) ∙ by_name (bytes_eq name m) refl tracked
  where
    by_name :
        (b : Bool)
        → bytes_eq name m ≡ b
        → pending sts m ≡ (if b then before else ([], 0))
        → pending_of
            (if b then map_option f (find_symbol_thread sts m) else find_symbol_thread sts m)
          ≡ (if b then after else ([], 0))
    by_name true same t =
        let at_m : find_symbol_thread sts m ≡ some st =
          ap (find_symbol_thread sts) (sym ((bytes_eq_iff name m).0 same)) ∙ is_found in
        ap (λ o. pending_of (map_option f o)) at_m ∙ step st (ap pending_of (sym at_m) ∙ t)
    by_name false other t = t

-- A name that is in no operation at work.
dispatch-due :
    (op : NsOp) (st : SymbolThread)
    → pending_of (some st) ≡ ([], 0)
    → pending_of (some (dispatch op st)) ≡ (op ∷ [], 1)
dispatch-due op st e = ap (λ p. (p.0 ++ op ∷ [], p.1 + 1)) e

retire-due :
    (op : NsOp) (st : SymbolThread)
    → pending_of (some st) ≡ (op ∷ [], 1)
    → pending_of (some (retire st)) ≡ ([], 0)
retire-due op st e = ap (λ p. (behind p.0, p.1 - 1)) e

retire_late-due :
    (st : SymbolThread)
    → pending_of (some st) ≡ ([], 0)
    → pending_of (some (retire_late st)) ≡ ([], 0)
retire_late-due st e = ap (λ p. (p.0, if ltb 0 p.1 then p.1 - 1 else p.1)) e

only-IsFound :
    (op : NsOp) (sts : List SymbolThread)
    → pending sts op.name ≡ only op op.name
    → IsFound (find_symbol_thread sts op.name)
only-IsFound op sts e =
    by_lookup (find_symbol_thread sts op.name)
      (e ∙ ap (λ b. if b then (op ∷ [], 1) else ([], 0)) ((bytes_eq_iff op.name op.name).1 refl))
  where
    by_lookup : (o : Option SymbolThread) → pending_of o ≡ (op ∷ [], 1) → IsFound o
    by_lookup none eq = cc
    by_lookup (some st) eq = (st, refl)

module _ (maps : Maps) (index : AssignIndexChain) where
  abbrev Stays : Option System → Type 0
  Stays none = Unit {0}
  Stays (some t) = Tracks t.pc t.symbols

  prepare_step-Tracks :
      (pc : Pc) (s : System) → Tracks pc s.symbols → Stays (prepare_step maps index pc s)
  unfolding prepare_step
  prepare_step-Tracks waiting s e = wait s.queue
    where
      wait :
          (q : List NsOp)
          → Stays (elim q as (λ _. Option System) [
            | [] ↦ if s.running then none else some (record s { pc = stopping_round })
            | op ∷ ops ↦ some (record s { queue = ops; pc = taken false op })
          ])
      wait [] = if_both Stays s.running tt e
      wait (op ∷ ops) = e
  prepare_step-Tracks stopping_round s e = drain s.queue
    where
      drain : (q : List NsOp) → (let t = dequeue stopped (taken true) q s in Tracks t.pc t.symbols)
      drain [] = e
      drain (op ∷ ops) = e
  prepare_step-Tracks next_round s e = if_both (λ pc. Tracks pc s.symbols) s.running e e
  prepare_step-Tracks (taken true op) s e = λ m. find-create s.symbols op.name m ∙ e m
  prepare_step-Tracks (taken false op) s e =
      (λ m. find-create s.symbols op.name m ∙ e m, create-IsFound s.symbols op.name)
  prepare_step-Tracks (found op) s (e, is_found) = λ m.
      changed (dispatch op) (λ _. refl) s.symbols op.name m ([], 0) (op ∷ [], 1) (dispatch-due op)
        is_found (e m ∙ if_both (λ p. ([], 0) ≡ p) (bytes_eq op.name m) refl refl)
  prepare_step-Tracks (ready stopping op) s e = take_lock stopping s.env_mtx e
    where
      take_lock :
          (stopping : Bool) (h : Holder)
          → Tracks (ready stopping op) s.symbols
          → Stays (elim h as (λ _. Option System) [
            | nobody ↦ some (record s { env_mtx = prepare; pc = locked stopping op })
            | _ ↦ none
          ])
      take_lock true nobody e = e
      take_lock false nobody e = e
      take_lock _ prepare e = tt
      take_lock _ (reader i) e = tt
  prepare_step-Tracks (locked true op) s e = e
  prepare_step-Tracks (locked false op) s e = e
  prepare_step-Tracks (executed true op r) s e = λ m.
      ap pending_of (find-change retire_late (λ _. refl) s.symbols op.name m)
      ∙ if_both (λ o. pending_of o ≡ ([], 0)) (bytes_eq op.name m)
          (late (find_symbol_thread s.symbols m) (e m)) (e m)
    where
      late :
          (o : Option SymbolThread)
          → pending_of o ≡ ([], 0)
          → pending_of (map_option retire_late o) ≡ ([], 0)
      late none eq = refl
      late (some st) eq = retire_late-due st eq
  prepare_step-Tracks (executed false op r) s e = λ m.
      changed retire (λ _. refl) s.symbols op.name m (op ∷ [], 1) ([], 0) (retire-due op)
        (only-IsFound op s.symbols (e op.name)) (e m)
      ∙ if_both (λ p. p ≡ ([], 0)) (bytes_eq op.name m) refl refl
  prepare_step-Tracks (retired stopping op r) s e = if_both (λ pc. Tracks pc s.symbols) stopping e e
  prepare_step-Tracks stopped s e = tt

  Step-Tracks :
      {log log' : List NsOp} {s t : System}
      → Step maps index log s log' t
      → Tracks s.pc s.symbols
      → Tracks t.pc t.symbols
  unfolding enqueue_op
  Step-Tracks (enqueue op) e = e
  Step-Tracks {s = s} (work h) e = subst Stays h (prepare_step-Tracks s.pc s e)
  Step-Tracks shutdown e = e
  Step-Tracks (read_ask i name h r) e = e
  Step-Tracks (read_skip i h r) e = e
  Step-Tracks (read_drained i name st h f z) e = e
  Step-Tracks (read_lock i h l) e = e
  Step-Tracks (read_unlock i h) e = e

  Reach-Tracks :
      (store : Store) (log : List NsOp) (s : System)
      → Reach maps index store log s
      → Tracks s.pc s.symbols
  unfolding ns_buffer_init find_symbol_thread
  Reach-Tracks store log s start = λ m. refl
  Reach-Tracks store log' t (later {log} {s} r st) = Step-Tracks st (Reach-Tracks store log s r)

  -- In every state that the threads can reach, the symbol thread of a name holds no operation and
  -- counts none, except while the prepare thread of the running loop is between the dispatch and
  -- the removal of an operation on that name: then it holds this one and counts one. So the
  -- operations still in the queue are not among those that a read of the name waits for.
  pub Reach-pending :
      (store : Store) (log : List NsOp) (s : System) (name : Bytes)
      → Reach maps index store log s
      → pending s.symbols name ≡ due s.pc name
  Reach-pending store log s name r = by_pc s.pc (Reach-Tracks store log s r)
    where
      by_pc : (pc : Pc) → Tracks pc s.symbols → pending s.symbols name ≡ due pc name
      by_pc (found op) (e, _) = e name
      by_pc waiting e = e name
      by_pc (taken b op) e = e name
      by_pc (ready b op) e = e name
      by_pc (locked b op) e = e name
      by_pc (executed b op r) e = e name
      by_pc (retired b op r) e = e name
      by_pc next_round e = e name
      by_pc stopping_round e = e name
      by_pc stopped e = e name
