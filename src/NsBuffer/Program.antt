-- ===== src/NsBuffer/Program.antt =====
-- src/ns_buffer.c and src/env.c: the buffer's threads together with the writes of the environments
-- that go past the buffer. `env_set_alias_cross` is never put into the queue: any thread runs it at
-- any time, with no mutex. The public writes of `env.c` are made directly once the buffer no longer
-- runs. No steps are the making and the release of environments.
use prefix.Base.{ℕ, Bool, true, false, List, [], ◌≡◌, refl, sym, ◌∙◌, ap, Bytes, ◌⊎◌, inl, inr}
use prefix.Env.Commands.{Command, obey}
use prefix.Env.Store.{Store}
use prefix.Env.Write.{env_set_alias_cross}
use prefix.Map.Schema.{Maps}
use prefix.NsBuffer.Locks.{
  is_locked, Kept, ns_buffer_init-Kept, Step-Kept, Step-store, held_by_both, held_not_prepare,
  holds, is_inside,
}
use prefix.NsBuffer.Op.{NsOp, AssignIndexChain}
use prefix.NsBuffer.System.{System, Step, Reach, start, later, ns_buffer_init, inside}
use prefix.Value.Types.{DeclType}

-- The arguments of a call of `env_set_alias_cross`.
pub record CrossAlias : Type 0 where
  pub env : ℕ
  pub name : Bytes
  pub target_env : ℕ
  pub target_name : Bytes
  pub type : DeclType
  pub base : ℕ
  pub declare_if_missing : Bool

abbrev pub aliased : CrossAlias → Store → Store
aliased a store =
    (env_set_alias_cross store a.env a.name a.target_env a.target_name a.type a.base
      a.declare_if_missing).1

-- A step of the buffer's threads, a call of `env_set_alias_cross`, or a direct write once the buffer
-- no longer runs.
pub data ProgramStep (maps : Maps) (index : AssignIndexChain) (log : List NsOp) (s : System)
    : List NsOp → System → Type 0 where
  by_buffer :
      {log' : List NsOp} {t : System}
      → Step maps index log s log' t
      → ProgramStep maps index log s log' t
  by_cross :
      (a : CrossAlias) → ProgramStep maps index log s log (record s { store = aliased a s.store })
  directly :
      (c : Command)
      → s.running ≡ false
      → ProgramStep maps index log s log (record s { store = obey maps c s.store })

pub data ProgramReach (maps : Maps) (index : AssignIndexChain) (store : Store)
    : List NsOp → System → Type 0 where
  at_start : ProgramReach maps index store [] (ns_buffer_init store)
  onwards :
      {log log' : List NsOp} {s t : System}
      → ProgramReach maps index store log s
      → ProgramStep maps index log s log' t
      → ProgramReach maps index store log' t

module _ (maps : Maps) (index : AssignIndexChain) where
  pub Reach-ProgramReach :
      {store : Store} {log : List NsOp} {s : System}
      → Reach maps index store log s
      → ProgramReach maps index store log s
  Reach-ProgramReach start = at_start
  Reach-ProgramReach (later r st) = onwards (Reach-ProgramReach r) (by_buffer st)

  ProgramStep-Kept :
      {log log' : List NsOp} {s t : System} → ProgramStep maps index log s log' t → Kept s → Kept t
  ProgramStep-Kept (by_buffer st) k = Step-Kept maps index st k
  ProgramStep-Kept (by_cross a) k = k
  ProgramStep-Kept (directly c stopping) k = k

  ProgramReach-Kept :
      (store : Store) (log : List NsOp) (s : System) → ProgramReach maps index store log s → Kept s
  ProgramReach-Kept store log s at_start = ns_buffer_init-Kept store
  ProgramReach-Kept store log' t (onwards {log} {s} r st) =
      ProgramStep-Kept st (ProgramReach-Kept store log s r)

  -- Whatever calls of `env_set_alias_cross` and direct writes behind the shutdown run between the
  -- steps of the buffer's threads: while the buffer runs and a reader is between
  -- `ns_buffer_read_lock` and `ns_buffer_read_unlock`, no other reader is there, and a step that
  -- changes the environments is a call of `env_set_alias_cross`; all others leave them as they are.
  pub read_lock-excludes :
      (store : Store) (log : List NsOp) (s : System) (i : ℕ)
      → ProgramReach maps index store log s
      → s.running ≡ true
      → s.readers i ≡ inside
      → ((j : ℕ) → s.readers j ≡ inside → i ≡ j)
        × ((log' : List NsOp) (t : System)
            → ProgramStep maps index log s log' t
            → (t.store ≡ s.store) ⊎ ((a : CrossAlias) × (t.store ≡ aliased a s.store)))
  read_lock-excludes store log s i r running at_i =
      let (by_prepare, by_reader) = ProgramReach-Kept store log s r running in
      let held : holds s.env_mtx i ≡ true = by_reader i ∙ ap is_inside at_i in
      (
        λ j at_j. held_by_both s.env_mtx i j held (by_reader j ∙ ap is_inside at_j),
        λ log' t st. by_kind log' t st (sym by_prepare ∙ held_not_prepare s.env_mtx i held) running,
      )
    where
      by_kind :
          (log' : List NsOp) (t : System)
          → ProgramStep maps index log s log' t
          → is_locked s.pc ≡ false
          → s.running ≡ true
          → (t.store ≡ s.store) ⊎ ((a : CrossAlias) × (t.store ≡ aliased a s.store))
      by_kind log' t (by_buffer st) free running = inl (Step-store maps index st free)
      by_kind log' t (by_cross a) free running = inr (a, refl)
      by_kind log' t (directly c stopping) free running = cc (running, stopping)
