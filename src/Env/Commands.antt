-- ===== src/Env/Commands.antt =====
-- src/env.c: sequences of direct writes and of freezing calls.
use prefix.Base.{
  ℕ, true, some, List, [], ◌∷◌, ◌≡◌, sym, ◌∙◌, ap, subst, arith, if_cases, elim_cases, Bytes,
}
use prefix.Env.Closed.{Keeps, entry_at-write_entry}
use prefix.Env.History.{Write, run, run-IsSafe}
use prefix.Env.Places.{entry_at, IsPlace, env_get_entry_raw_with_env-IsPlace}
use prefix.Env.Store.{Store, env_get_entry_raw_with_env}
use prefix.Env.Table.{EnvEntry}
use prefix.Env.Write.{FreezeResult, env_freeze_direct, env_thaw_direct, env_permafreeze_direct}
use prefix.Map.Schema.{Maps}

pub data Command : Type 0 where
  write : Write → Command
  freeze : ℕ → Bytes → Command
  thaw : ℕ → Bytes → Command
  permafreeze : ℕ → Bytes → Command

abbrev pub obey : Maps → Command → Store → Store
obey maps (write w) s = (run maps w s).1
obey maps (freeze id name) s = (env_freeze_direct s id name).1
obey maps (thaw id name) s = (env_thaw_direct s id name).1
obey maps (permafreeze id name) s = (env_permafreeze_direct s id name).1

abbrev pub obey_all : Maps → List Command → Store → Store
obey_all maps [] s = s
obey_all maps (c ∷ cs) s = obey_all maps cs (obey maps c s)

-- An entry as `env_permafreeze_direct` leaves it.
abbrev pub IsPermafrozen : EnvEntry → Type 0
IsPermafrozen e = (e.permafrozen ≡ true) × (e.frozen ≡ true)

module _ (s : Store) (id i : ℕ) (e : EnvEntry) (at : entry_at s id i ≡ some e)
    (perma : IsPermafrozen e) where
  env_freeze_direct-IsPermafrozen :
      (env : ℕ) (name : Bytes) → entry_at (env_freeze_direct s env name).1 id i ≡ some e
  unfolding env_freeze_direct
  env_freeze_direct-IsPermafrozen env name =
      elim_cases (λ (r : FreezeResult × Store). entry_at r.1 id i ≡ some e)
        (env_get_entry_raw_with_env s env name) (λ _. at)
        (λ p there.
          entry_at-write_entry s p _ id i e
            (subst (IsPlace s) there (env_get_entry_raw_with_env-IsPlace s env name)) at
            (λ _. ap (λ b. record e { frozen = b }) (sym perma.1)))

  env_thaw_direct-IsPermafrozen :
      (env : ℕ) (name : Bytes) → entry_at (env_thaw_direct s env name).1 id i ≡ some e
  unfolding env_thaw_direct
  env_thaw_direct-IsPermafrozen env name =
      elim_cases (λ (r : FreezeResult × Store). entry_at r.1 id i ≡ some e)
        (env_get_entry_raw_with_env s env name) (λ _. at)
        (λ p there.
          if_cases (λ (r : FreezeResult × Store). entry_at r.1 id i ≡ some e) p.entry.permafrozen
            (λ _. at)
            (λ thawable.
              entry_at-write_entry s p _ id i e
                (subst (IsPlace s) there (env_get_entry_raw_with_env-IsPlace s env name)) at
                (λ same. cc (ap (λ x. x.permafrozen) same, perma.0))))

  env_permafreeze_direct-IsPermafrozen :
      (env : ℕ) (name : Bytes) → entry_at (env_permafreeze_direct s env name).1 id i ≡ some e
  unfolding env_permafreeze_direct
  env_permafreeze_direct-IsPermafrozen env name =
      elim_cases (λ (r : FreezeResult × Store). entry_at r.1 id i ≡ some e)
        (env_get_entry_raw_with_env s env name) (λ _. at)
        (λ p there.
          entry_at-write_entry s p _ id i e
            (subst (IsPlace s) there (env_get_entry_raw_with_env-IsPlace s env name)) at
            (λ _.
              ap (λ b. record e { permafrozen = b; frozen = true }) (sym perma.0)
              ∙ ap (λ b. record e { frozen = b }) (sym perma.1)))

obey-IsPermafrozen :
    (maps : Maps) (c : Command) (s : Store) (id i : ℕ) (e : EnvEntry)
    → entry_at s id i ≡ some e
    → IsPermafrozen e
    → entry_at (obey maps c s) id i ≡ some e
unfolding Keeps
obey-IsPermafrozen maps (write w) s id i e at perma =
    (run-IsSafe maps w s).kept id i e at (ground (arith, perma.1))
obey-IsPermafrozen maps (freeze env name) s id i e at perma =
    env_freeze_direct-IsPermafrozen s id i e at perma env name
obey-IsPermafrozen maps (thaw env name) s id i e at perma =
    env_thaw_direct-IsPermafrozen s id i e at perma env name
obey-IsPermafrozen maps (permafreeze env name) s id i e at perma =
    env_permafreeze_direct-IsPermafrozen s id i e at perma env name

-- An entry that is permanently frozen is never changed again, by no sequence of writes, freezings,
-- thawings and permanent freezings of any names.
pub obey_all-IsPermafrozen :
    (maps : Maps) (cs : List Command) (s : Store) (id i : ℕ) (e : EnvEntry)
    → entry_at s id i ≡ some e
    → IsPermafrozen e
    → entry_at (obey_all maps cs s) id i ≡ some e
obey_all-IsPermafrozen maps [] s id i e at perma = at
obey_all-IsPermafrozen maps (c ∷ cs) s id i e at perma =
    obey_all-IsPermafrozen maps cs (obey maps c s) id i e
      (obey-IsPermafrozen maps c s id i e at perma) perma
