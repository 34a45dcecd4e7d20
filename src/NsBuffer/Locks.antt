-- ===== src/NsBuffer/Locks.antt =====
-- src/ns_buffer.c: who holds `env_mtx`, and who touches the environments.
use prefix.Base.{
  ℕ, Bool, true, false, Option, none, some, List, [], ◌∷◌, ◌≡◌, refl, sym, ◌∙◌, ap, subst, ◌==◌,
  ==_iff, if◌then◌else◌, if_both, if_cases, elim_cases,
}
use prefix.Env.Store.{Store}
use prefix.Map.Schema.{Maps}
use prefix.NsBuffer.Op.{NsOp, AssignIndexChain}
use prefix.NsBuffer.System.{
  System, Pc, waiting, taken, found, ready, locked, executed, retired, next_round, stopping_round,
  stopped, prepare_step, Step, enqueue, work, shutdown, read_ask, read_skip, read_drained,
  read_lock, read_unlock, dequeue, Holder, nobody, prepare, reader, ReaderPc, passed, inside,
  update, asked, ns_buffer_init, enqueue_op, find_symbol_thread,
}

abbrev pub is_locked : Pc → Bool
is_locked (locked _ _) = true
is_locked _ = false

abbrev pub holds : Holder → ℕ → Bool
holds (reader j) i = j == i
holds _ i = false

abbrev is_prepare : Holder → Bool
is_prepare prepare = true
is_prepare _ = false

abbrev pub is_inside : ReaderPc → Bool
is_inside inside = true
is_inside _ = false

pub held_not_prepare : (h : Holder) (i : ℕ) → holds h i ≡ true → is_prepare h ≡ false
held_not_prepare nobody i e = cc
held_not_prepare prepare i e = cc
held_not_prepare (reader j) i e = refl

pub held_by_both : (h : Holder) (i j : ℕ) → holds h i ≡ true → holds h j ≡ true → i ≡ j
held_by_both nobody i j e f = cc
held_by_both prepare i j e f = cc
held_by_both (reader r) i j e f = sym ((==_iff r i).0 e) ∙ (==_iff r j).0 f

held_by_one : (h : Holder) (i j : ℕ) → holds h i ≡ true → (i == j) ≡ false → holds h j ≡ false
held_by_one nobody i j e other = refl
held_by_one prepare i j e other = refl
held_by_one (reader r) i j e other = ap (λ k. k == j) ((==_iff r i).0 e) ∙ other

-- Who holds the mutex, by where the threads stand.
abbrev IsLocked : Pc → Holder → (ℕ → ReaderPc) → Type 0
IsLocked pc mtx readers =
    (is_prepare mtx ≡ is_locked pc) × ((i : ℕ) → holds mtx i ≡ is_inside (readers i))

abbrev pub Kept : System → Type 0
Kept s = s.running ≡ true → IsLocked s.pc s.env_mtx s.readers

dequeue-Kept :
    (s : System) (without : Pc) (stopping : Bool) (q : List NsOp)
    → is_locked without ≡ false
    → (s.running ≡ true → IsLocked next_round s.env_mtx s.readers)
    → Kept (dequeue without (taken stopping) q s)
dequeue-Kept s without stopping [] free e = λ r. rw free (e r)
dequeue-Kept s without stopping (op ∷ ops) free e = e

-- While the buffer runs, the mutex is held by the prepare thread exactly where this is about to
-- execute an operation, and by a reader exactly where this is inside.
pub ns_buffer_init-Kept : (store : Store) → Kept (ns_buffer_init store)
unfolding ns_buffer_init
ns_buffer_init-Kept store = λ _. (refl, λ _. refl)

module _ (maps : Maps) (index : AssignIndexChain) where
  abbrev Stays : Option System → Type 0
  Stays none = Unit {0}
  Stays (some t) = Kept t

  abbrev Same : Store → Option System → Type 0
  Same store none = Unit {0}
  Same store (some t) = t.store ≡ store

  prepare_step-IsLocked :
      (pc : Pc) (s : System)
      → (s.running ≡ true → IsLocked pc s.env_mtx s.readers)
      → Stays (prepare_step maps index pc s)
  unfolding prepare_step
  prepare_step-IsLocked waiting s e = wait s.queue
    where
      wait :
          (q : List NsOp)
          → Stays (elim q as (λ _. Option System) [
            | [] ↦ if s.running then none else some (record s { pc = stopping_round })
            | op ∷ ops ↦ some (record s { queue = ops; pc = taken false op })
          ])
      wait [] = if_both Stays s.running tt e
      wait (op ∷ ops) = e
  prepare_step-IsLocked stopping_round s e = dequeue-Kept s stopped true s.queue refl e
  prepare_step-IsLocked next_round s e = if_both (λ pc. Kept (record s { pc = pc })) s.running e e
  prepare_step-IsLocked (taken true op) s e = e
  prepare_step-IsLocked (taken false op) s e = e
  prepare_step-IsLocked (found op) s e = e
  prepare_step-IsLocked (ready stopping op) s e = take_lock s.env_mtx refl
    where
      take_lock :
          (h : Holder)
          → s.env_mtx ≡ h
          → Stays (elim h as (λ _. Option System) [
            | nobody ↦ some (record s { env_mtx = prepare; pc = locked stopping op })
            | _ ↦ none
          ])
      take_lock nobody eq = λ r. (refl, λ i. ap (λ m. holds m i) (sym eq) ∙ (e r).1 i)
      take_lock prepare eq = tt
      take_lock (reader i) eq = tt
  prepare_step-IsLocked (locked stopping op) s e =
      λ r. (refl, λ i. sym (not_reader s.env_mtx (e r).0 i) ∙ (e r).1 i)
    where
      not_reader : (h : Holder) → is_prepare h ≡ true → (i : ℕ) → holds h i ≡ false
      not_reader nobody eq i = cc
      not_reader prepare eq i = refl
      not_reader (reader j) eq i = cc
  prepare_step-IsLocked (executed stopping op r) s e = e
  prepare_step-IsLocked (retired true op r) s e = e
  prepare_step-IsLocked (retired false op r) s e = e
  prepare_step-IsLocked stopped s e = tt

  update-IsLocked :
      (pc : Pc) (mtx : Holder) (readers : ℕ → ReaderPc) (i : ℕ) (p : ReaderPc)
      → is_inside p ≡ false
      → is_inside (readers i) ≡ false
      → IsLocked pc mtx readers
      → IsLocked pc mtx (update readers i p)
  update-IsLocked pc mtx readers i p out before (by_prepare, by_reader) = (
    by_prepare,
    λ j.
        if_cases (λ q. holds mtx j ≡ is_inside q) (i == j)
          (λ at.
            by_reader j
            ∙ ap (λ k. is_inside (readers k)) (sym ((==_iff i j).0 at))
            ∙ before
            ∙ sym out)
          (λ _. by_reader j),
  )

  pub Step-Kept :
      {log log' : List NsOp} {s t : System} → Step maps index log s log' t → Kept s → Kept t
  unfolding enqueue_op
  Step-Kept (enqueue op) k = k
  Step-Kept {s = s} (work h) k = subst Stays h (prepare_step-IsLocked s.pc s k)
  Step-Kept shutdown k = λ r. cc
  Step-Kept {s = s} (read_ask i name h r) k = λ r'.
      update-IsLocked s.pc s.env_mtx s.readers i (asked s.symbols name)
        (elim_cases (λ p. is_inside p ≡ false) (find_symbol_thread s.symbols name) (λ _. refl)
          (λ st _. refl))
        (ap is_inside h) (k r')
  Step-Kept (read_skip i h r) k = λ r'. cc (r, r')
  Step-Kept {s = s} (read_drained i name st h f z) k =
      λ r. update-IsLocked s.pc s.env_mtx s.readers i passed refl (ap is_inside h) (k r)
  Step-Kept {s = s} (read_lock i h l) k = λ r. (
    ap is_prepare (sym l) ∙ (k r).0,
    λ j.
        if_cases (λ q. (i == j) ≡ is_inside q) (i == j) (λ at. at)
          (λ other. other ∙ ap (λ m. holds m j) (sym l) ∙ (k r).1 j),
  )
  Step-Kept {s = s} (read_unlock i h) k = λ r.
      let held : holds s.env_mtx i ≡ true = (k r).1 i ∙ ap is_inside h in
      (
        sym (held_not_prepare s.env_mtx i held) ∙ (k r).0,
        λ j.
            if_cases (λ p. false ≡ is_inside p) (i == j) (λ _. refl)
              (λ other. sym (held_by_one s.env_mtx i j held other) ∙ (k r).1 j),
      )

  -- Only the execution of an operation changes the store.
  prepare_step-store :
      (pc : Pc) (s : System) → is_locked pc ≡ false → Same s.store (prepare_step maps index pc s)
  unfolding prepare_step
  prepare_step-store waiting s e = wait s.queue
    where
      wait :
          (q : List NsOp)
          → Same s.store (elim q as (λ _. Option System) [
            | [] ↦ if s.running then none else some (record s { pc = stopping_round })
            | op ∷ ops ↦ some (record s { queue = ops; pc = taken false op })
          ])
      wait [] = if_both (Same s.store) s.running tt refl
      wait (op ∷ ops) = refl
  prepare_step-store stopping_round s e = drain s.queue
    where
      drain : (q : List NsOp) → (dequeue stopped (taken true) q s).store ≡ s.store
      drain [] = refl
      drain (op ∷ ops) = refl
  prepare_step-store next_round s e = refl
  prepare_step-store (taken stopping op) s e = refl
  prepare_step-store (found op) s e = refl
  prepare_step-store (ready stopping op) s e = take_lock s.env_mtx
    where
      take_lock :
          (h : Holder)
          → Same s.store (elim h as (λ _. Option System) [
            | nobody ↦ some (record s { env_mtx = prepare; pc = locked stopping op })
            | _ ↦ none
          ])
      take_lock nobody = refl
      take_lock prepare = tt
      take_lock (reader i) = tt
  prepare_step-store (locked stopping op) s e = cc
  prepare_step-store (executed stopping op r) s e = refl
  prepare_step-store (retired stopping op r) s e = refl
  prepare_step-store stopped s e = tt

  pub Step-store :
      {log log' : List NsOp} {s t : System}
      → Step maps index log s log' t
      → is_locked s.pc ≡ false
      → t.store ≡ s.store
  unfolding enqueue_op
  Step-store (enqueue op) e = refl
  Step-store {s = s} (work h) e = subst (Same s.store) h (prepare_step-store s.pc s e)
  Step-store shutdown e = refl
  Step-store (read_ask i name h r) e = refl
  Step-store (read_skip i h r) e = refl
  Step-store (read_drained i name st h f z) e = refl
  Step-store (read_lock i h l) e = refl
  Step-store (read_unlock i h) e = refl
