-- ===== src/Env/History.antt =====
-- src/env.c: any sequence of direct writes.
use prefix.Base.{
  ℕ, zero, suc, Bool, true, false, not, ◌&&◌, Option, none, some, List, [], ◌∷◌, ◌≡◌, refl, subst,
  arith, if_cases, elim_cases, length, get_elem?, Bytes, bytes_eq, Option-cases, inl, inr,
}
use prefix.Env.Closed.{
  Keeps, IsSafe, refused, define-IsSafe, delete-IsSafe, restore_local-IsSafe, declare-IsSafe,
  alias_to-IsSafe, assign_at-IsSafe,
}
use prefix.Env.Places.{IsPlace, entry_at, env_get_entry_raw_with_env-IsPlace}
use prefix.Env.Store.{Store, at_index, entry_rounds, env_get_entry_raw_with_env, final_target}
use prefix.Env.Table.{EnvEntry, Env, env_find_local}
use prefix.Env.Write.{
  place_in, find_place, env_define_direct, is_closed, env_assign_direct, env_delete_direct,
  env_set_alias_cross, env_set_alias_direct, env_restore_local_direct,
}
use prefix.Map.Schema.{Maps}
use prefix.Value.{Value}
use prefix.Value.Types.{DeclType, type_unknown, same_type, decl_type_equal}

-- A call of one of the direct writes, with the environment first.
pub data Write : Type 0 where
  define : ℕ → Bytes → DeclType → ℕ → Value → Write
  assign : ℕ → Bytes → Value → DeclType → ℕ → Bool → Write
  delete : ℕ → Bytes → Write
  set_alias : ℕ → Bytes → Bytes → DeclType → ℕ → Bool → Write
  set_alias_cross : ℕ → Bytes → ℕ → Bytes → DeclType → ℕ → Bool → Write
  restore_local : ℕ → Bytes → Value → DeclType → ℕ → Bool → Write

abbrev pub run : Maps → Write → Store → Bool × Store
run maps (define id name type base schema) s = env_define_direct s id name type base schema
run maps (assign id name value type base missing) s =
    env_assign_direct maps s id name value type base missing
run maps (delete id name) s = env_delete_direct s id name
run maps (set_alias id name target type base missing) s =
    env_set_alias_direct s id name target type base missing
run maps (set_alias_cross id name env target type base missing) s =
    env_set_alias_cross s id name env target type base missing
run maps (restore_local id name value type base initialized) s =
    env_restore_local_direct s id name value type base initialized

abbrev pub run_all : Maps → List Write → Store → Store
run_all maps [] s = s
run_all maps (w ∷ ws) s = run_all maps ws (run maps w s).1

length-zero : (s : Store) (id : ℕ) → length s ≡ 0 → get_elem? s id ≡ none
length-zero [] id h = refl
length-zero (e ∷ s) id h = absurd (omega arith)

module _ (s : Store) (id : ℕ) (name : Bytes) where
  -- A name that no environment of the chain has is not in the first one.
  pub env_get_entry_raw_with_env-none :
      env_get_entry_raw_with_env s id name ≡ none → find_place s id name ≡ none
  unfolding env_get_entry_raw_with_env entry_rounds
  env_get_entry_raw_with_env-none h = go (length s) (get_elem? s id) refl h (length-zero s id)
    where
      go :
          (n : ℕ) (o : Option Env)
          → get_elem? s id ≡ o
          → entry_rounds n s (some id) name ≡ none
          → (n ≡ 0 → o ≡ none)
          → place_in id name o ≡ none
      go n none e h pos = refl
      go zero (some env) e h pos = cc (pos refl)
      go (suc n) (some env) e h pos =
          elim (Option-cases (at_index id env (env_find_local env name))) [
            | inl absent ↦ absent
            | inr (p, there) ↦ cc (rw (e, there, entry_rounds) at h)
          ]

  assign-IsSafe :
      (maps : Maps) (value : Value) (type : DeclType) (base : ℕ) (missing : Bool)
      → IsSafe s (env_assign_direct maps s id name value type base missing)
  unfolding env_assign_direct
  assign-IsSafe maps value type base missing =
      elim_cases (IsSafe s) (env_get_entry_raw_with_env s id name)
        (λ absent.
          if_cases (IsSafe s) (not missing) (λ _. refused s)
            (λ _.
              declare-IsSafe s id name value type base (env_get_entry_raw_with_env-none absent)))
        (λ p there.
          assign_at-IsSafe s maps p value type base
            (subst (IsPlace s) there (env_get_entry_raw_with_env-IsPlace s id name)))

  set_alias-IsSafe :
      (env : ℕ) (target : Bytes) (type : DeclType) (base : ℕ) (missing : Bool)
      → IsSafe s (env_set_alias_cross s id name env target type base missing)
  unfolding env_set_alias_cross
  set_alias-IsSafe env target type base missing =
      elim_cases (IsSafe s) (env_get_entry_raw_with_env s env target) (λ _. refused s)
        (λ p _.
          elim_cases (IsSafe s) (final_target (λ t. bytes_eq t name) s p) (λ _. refused s)
            (λ cur _.
              if_cases (IsSafe s) (is_closed cur.entry) (λ _. refused s)
                (λ _.
                  if_cases (IsSafe s)
                    (not (same_type type type_unknown)
                      && not (decl_type_equal type base cur.entry.decl_type cur.entry.decl_base))
                    (λ _. refused s) (λ _. alias_to-IsSafe s id name cur type base missing))))

pub run-IsSafe : (maps : Maps) (w : Write) (s : Store) → IsSafe s (run maps w s)
unfolding env_set_alias_direct
run-IsSafe maps (define id name type base schema) s = define-IsSafe s id name type base schema
run-IsSafe maps (assign id name value type base missing) s =
    assign-IsSafe s id name maps value type base missing
run-IsSafe maps (delete id name) s = delete-IsSafe s id name
run-IsSafe maps (set_alias id name target type base missing) s =
    set_alias-IsSafe s id name id target type base missing
run-IsSafe maps (set_alias_cross id name env target type base missing) s =
    set_alias-IsSafe s id name env target type base missing
run-IsSafe maps (restore_local id name value type base initialized) s =
    restore_local-IsSafe s id name value type base initialized

-- No sequence of definitions, assignments, deletions, aliasings and restorations, in any
-- environments and under any names, changes an entry that is frozen or permanently frozen.
pub run_all-is_closed :
    (maps : Maps) (ws : List Write) (s : Store) (id i : ℕ) (e : EnvEntry)
    → entry_at s id i ≡ some e
    → is_closed e ≡ true
    → entry_at (run_all maps ws s) id i ≡ some e
unfolding Keeps
run_all-is_closed maps [] s id i e at closed = at
run_all-is_closed maps (w ∷ ws) s id i e at closed =
    run_all-is_closed maps ws (run maps w s).1 id i e ((run-IsSafe maps w s).kept id i e at closed)
      closed

-- A definition, an assignment, a deletion, an aliasing or a restoration that returns false leaves
-- every environment as it was.
pub run-fails :
    (maps : Maps) (w : Write) (s : Store) → (run maps w s).0 ≡ false → (run maps w s).1 ≡ s
run-fails maps w s = (run-IsSafe maps w s).failed
