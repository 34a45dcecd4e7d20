-- ===== src/Env/Typed.antt =====
-- src/env.c: the declared type of an entry and its value.
use prefix.Base.{
  ℕ, Bool, true, false, not, ◌&&◌, some, List, [], ◌∷◌, ◌≡◌, refl, subst, if_cases, elim_cases,
  Bytes, bytes_eq,
}
use prefix.Env.Commands.{Command, write, freeze, thaw, permafreeze, obey, obey_all}
use prefix.Env.Entries.{
  Fits, IsTyped, AllTyped, write_entry-AllTyped, deleted-IsTyped, linked_to-IsTyped,
  restored-IsTyped, assign_at-AllTyped, made-AllTyped, on_new-AllTyped,
}
use prefix.Env.History.{
  define, assign, delete, set_alias, set_alias_cross, restore_local,
  env_get_entry_raw_with_env-none,
}
use prefix.Env.Places.{IsPlace, find_place-IsPlace, env_get_entry_raw_with_env-IsPlace}
use prefix.Env.Store.{Store, Place, env_get_entry_raw_with_env, final_target}
use prefix.Env.Table.{EnvEntry, new_entry}
use prefix.Env.Write.{
  write_entry, find_place, env_define_direct, is_closed, set_value, write_open, write_always,
  declare, deleted, env_delete_direct, linked_to, alias_to, restored, env_restore_local_direct,
  env_assign_direct, env_set_alias_cross, env_set_alias_direct, FreezeResult, env_freeze_direct,
  env_thaw_direct, env_permafreeze_direct,
}
use prefix.Map.Schema.{Maps}
use prefix.Value.{Value, null}
use prefix.Value.Types.{DeclType, type_unknown, same_type, decl_type_equal, decl_type_accepts_value}

module _ (s : Store) (typed : AllTyped s) where
  abbrev After : Bool × Store → Type 0
  After r = AllTyped r.1

  -- A write to an entry that is found, or to a new one.
  guarded-AllTyped :
      (p : Place) (f : EnvEntry → EnvEntry)
      → IsPlace s (some p)
      → IsTyped (f p.entry)
      → AllTyped (write_open f p s).1
  guarded-AllTyped p f place new =
      if_cases After (is_closed p.entry) (λ _. typed)
        (λ _. write_entry-AllTyped s p f typed place new)

  open_write :
      (f : EnvEntry → EnvEntry) (p : Place) (t : Store)
      → AllTyped t
      → AllTyped (write_entry t p f)
      → AllTyped (write_open f p t).1
  open_write f p t before after =
      if_cases (λ (r : Bool × Store). AllTyped r.1) (is_closed p.entry) (λ _. before) (λ _. after)

  env_define_direct-AllTyped :
      (id : ℕ) (name : Bytes) (type : DeclType) (base : ℕ) (schema : Value)
      → AllTyped (env_define_direct s id name type base schema).1
  unfolding env_define_direct
  env_define_direct-AllTyped id name type base schema =
      elim_cases After (find_place s id name) (λ _. made-AllTyped s typed id name type base schema)
        (λ p there. typed)

  env_assign_direct-AllTyped :
      (maps : Maps) (id : ℕ) (name : Bytes) (value : Value) (type : DeclType) (base : ℕ)
      (missing : Bool)
      → AllTyped (env_assign_direct maps s id name value type base missing).1
  unfolding env_assign_direct declare
  env_assign_direct-AllTyped maps id name value type base missing =
      elim_cases After (env_get_entry_raw_with_env s id name)
        (λ absent.
          if_cases After (not missing) (λ _. typed)
            (λ _.
              if_cases After (same_type type type_unknown) (λ _. typed)
                (λ _.
                  if_cases After (not (decl_type_accepts_value type base value)) (λ _. typed)
                    (λ fits.
                      on_new-AllTyped s typed id name type base (set_value value)
                        (env_get_entry_raw_with_env-none s id name absent)
                        (λ _ _ _. not_false _ fits) (write_always (set_value value))
                        (λ p t before after. after)))))
        (λ p there.
          assign_at-AllTyped s typed maps p value type base
            (subst (IsPlace s) there (env_get_entry_raw_with_env-IsPlace s id name)))
    where
      not_false : (b : Bool) → not b ≡ false → b ≡ true
      not_false true h = refl
      not_false false h = cc

  env_delete_direct-AllTyped : (id : ℕ) (name : Bytes) → AllTyped (env_delete_direct s id name).1
  unfolding env_delete_direct
  env_delete_direct-AllTyped id name =
      elim_cases After (env_get_entry_raw_with_env s id name) (λ _. typed)
        (λ p there.
          guarded-AllTyped p deleted
            (subst (IsPlace s) there (env_get_entry_raw_with_env-IsPlace s id name))
            (deleted-IsTyped p.entry))

  env_restore_local_direct-AllTyped :
      (id : ℕ) (name : Bytes) (value : Value) (type : DeclType) (base : ℕ) (initialized : Bool)
      → Fits type base initialized value
      → AllTyped (env_restore_local_direct s id name value type base initialized).1
  unfolding env_restore_local_direct
  env_restore_local_direct-AllTyped id name value type base initialized fits =
      let f = restored value type base initialized in
      elim_cases After (find_place s id name)
        (λ absent.
          on_new-AllTyped s typed id name type base f absent
            (restored-IsTyped value type base initialized (new_entry name type base null) fits)
            (write_open f) (open_write f))
        (λ p there.
          guarded-AllTyped p f (subst (IsPlace s) there (find_place-IsPlace s id name))
            (restored-IsTyped value type base initialized p.entry fits))

  alias_to-AllTyped :
      (id : ℕ) (name : Bytes) (cur : Place) (type : DeclType) (base : ℕ) (missing : Bool)
      → AllTyped (alias_to s id name cur type base missing).1
  unfolding alias_to
  alias_to-AllTyped id name cur type base missing =
      let f = linked_to cur in
      elim_cases After (find_place s id name)
        (λ absent.
          if_cases After (not missing) (λ _. typed)
            (λ _.
              on_new-AllTyped s typed id name type base f absent
                (linked_to-IsTyped cur (new_entry name type base null)) (write_open f)
                (open_write f)))
        (λ p there.
          guarded-AllTyped p f (subst (IsPlace s) there (find_place-IsPlace s id name))
            (linked_to-IsTyped cur p.entry))

  env_set_alias_cross-AllTyped :
      (id : ℕ) (name : Bytes) (env : ℕ) (target : Bytes) (type : DeclType) (base : ℕ)
      (missing : Bool)
      → AllTyped (env_set_alias_cross s id name env target type base missing).1
  unfolding env_set_alias_cross
  env_set_alias_cross-AllTyped id name env target type base missing =
      elim_cases After (env_get_entry_raw_with_env s env target) (λ _. typed)
        (λ p _.
          elim_cases After (final_target (λ t. bytes_eq t name) s p) (λ _. typed)
            (λ cur _.
              if_cases After (is_closed cur.entry) (λ _. typed)
                (λ _.
                  if_cases After
                    (not (same_type type type_unknown)
                      && not (decl_type_equal type base cur.entry.decl_type cur.entry.decl_base))
                    (λ _. typed) (λ _. alias_to-AllTyped id name cur type base missing))))

  write-AllTyped :
      (p : Place) (f : EnvEntry → EnvEntry)
      → IsPlace s (some p)
      → (IsTyped p.entry → IsTyped (f p.entry))
      → AllTyped (write_entry s p f)
  write-AllTyped p f place keeps =
      write_entry-AllTyped s p f typed place (keeps (typed p.env p.index p.entry place))

-- A restoration gives a value that fits the type that it gives.
abbrev pub IsSound : Command → Type 0
IsSound (write (restore_local _ _ value type base initialized)) = Fits type base initialized value
IsSound _ = Unit {0}

abbrev pub AllSound : List Command → Type 0
AllSound [] = Unit {0}
AllSound (c ∷ cs) = IsSound c × AllSound cs

obey-AllTyped :
    (maps : Maps) (c : Command) (s : Store) → IsSound c → AllTyped s → AllTyped (obey maps c s)
unfolding env_set_alias_direct env_freeze_direct env_thaw_direct env_permafreeze_direct
obey-AllTyped maps (write (define id name type base schema)) s sound typed =
    env_define_direct-AllTyped s typed id name type base schema
obey-AllTyped maps (write (assign id name value type base missing)) s sound typed =
    env_assign_direct-AllTyped s typed maps id name value type base missing
obey-AllTyped maps (write (delete id name)) s sound typed =
    env_delete_direct-AllTyped s typed id name
obey-AllTyped maps (write (set_alias id name target type base missing)) s sound typed =
    env_set_alias_cross-AllTyped s typed id name id target type base missing
obey-AllTyped maps (write (set_alias_cross id name env target type base missing)) s sound typed =
    env_set_alias_cross-AllTyped s typed id name env target type base missing
obey-AllTyped maps (write (restore_local id name value type base initialized)) s sound typed =
    env_restore_local_direct-AllTyped s typed id name value type base initialized sound
obey-AllTyped maps (freeze id name) s sound typed =
    elim_cases (λ (r : FreezeResult × Store). AllTyped r.1) (env_get_entry_raw_with_env s id name)
      (λ _. typed)
      (λ p there.
        write-AllTyped s typed p (λ e. record e { frozen = true })
          (subst (IsPlace s) there (env_get_entry_raw_with_env-IsPlace s id name)) (λ t. t))
obey-AllTyped maps (thaw id name) s sound typed =
    elim_cases (λ (r : FreezeResult × Store). AllTyped r.1) (env_get_entry_raw_with_env s id name)
      (λ _. typed)
      (λ p there.
        if_cases (λ (r : FreezeResult × Store). AllTyped r.1) p.entry.permafrozen (λ _. typed)
          (λ _.
            write-AllTyped s typed p (λ e. record e { frozen = false })
              (subst (IsPlace s) there (env_get_entry_raw_with_env-IsPlace s id name)) (λ t. t)))
obey-AllTyped maps (permafreeze id name) s sound typed =
    elim_cases (λ (r : FreezeResult × Store). AllTyped r.1) (env_get_entry_raw_with_env s id name)
      (λ _. typed)
      (λ p there.
        write-AllTyped s typed p (λ e. record e { permafrozen = true; frozen = true })
          (subst (IsPlace s) there (env_get_entry_raw_with_env-IsPlace s id name)) (λ t. t))

-- Where every entry that is no alias and has a declared type and a value holds a value of this
-- type, this stays so under any sequence of writes and freezing calls whose restorations give
-- values of the types that they give.
pub obey_all-AllTyped :
    (maps : Maps) (cs : List Command) (s : Store)
    → AllSound cs
    → AllTyped s
    → AllTyped (obey_all maps cs s)
obey_all-AllTyped maps [] s sound typed = typed
obey_all-AllTyped maps (c ∷ cs) s (sound, rest) typed =
    obey_all-AllTyped maps cs (obey maps c s) rest (obey-AllTyped maps c s sound typed)
