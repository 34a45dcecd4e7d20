-- ===== src/Env/Closed.antt =====
-- src/env.c: what the direct writes leave as it was.
use prefix.Base.{
  ℕ, Bool, true, false, not, none, some, [], ◌∷◌, ◌≡◌, refl, sym, ◌∙◌, ap, subst, ◌==◌, ==_iff,
  if◌then◌else◌, if_cases, elim_cases, length, get_elem?, Bytes, bytes_eq, bytes_eq_iff, Bool-cases,
  Option-cases, inl, inr,
}
use prefix.Env.Places.{
  entry_of, entry_at, IsPlace, get_elem?-modify_self, get_elem?-modify-none, get_elem?-modify_ne,
  get_elem?-append_left, get_elem?-append_one, get_elem?-append_last, at_index-some, at_index-none,
  env_find_local-none, find_place-IsPlace, env_get_entry_raw_with_env-IsPlace, add_entry-entries,
}
use prefix.Env.Store.{Store, Place, env_get_entry_raw_with_env}
use prefix.Env.Table.{EnvEntry, Env, new_entry, add_entry}
use prefix.Env.Write.{
  modify, write_entry, place_in, find_place, env_define_direct, is_closed, set_value, refuses,
  assign_at, on_new, write_open, write_always, declare, deleted, env_delete_direct, linked_to,
  alias_to, restored, env_restore_local_direct,
}
use prefix.Map.Schema.{Maps}
use prefix.Value.{Value, null}
use prefix.Value.Types.{DeclType, type_unknown, same_type, decl_type_accepts_value}

-- Every entry that is frozen stands where it stood, as it was.
unfoldable pub Keeps : Store → Store → Type 0
Keeps s t =
    (id i : ℕ) (e : EnvEntry)
    → entry_at s id i ≡ some e
    → is_closed e ≡ true
    → entry_at t id i ≡ some e

-- A write that keeps what is frozen, and changes nothing where it fails.
pub record IsSafe (s : Store) (r : Bool × Store) : Type 0 where
  pub kept : Keeps s r.1
  pub failed : r.0 ≡ false → r.1 ≡ s

pub refused : (s : Store) → IsSafe s (false, s)
unfolding Keeps
refused s = record { kept = λ id i e at h. at; failed = λ _. refl }

-- An entry that a change of its environment keeps.
pub entry_at-modify :
    (s : Store) (k : ℕ) (f : Env → Env) (id i : ℕ) (e : EnvEntry)
    → entry_at s id i ≡ some e
    → ((env : Env)
        → get_elem? s k ≡ some env
        → get_elem? env.entries i ≡ some e
        → get_elem? (f env).entries i ≡ some e)
    → entry_at (modify s k f) id i ≡ some e
entry_at-modify s k f id i e at step = elim (Bool-cases (k == id)) [
  | inr other ↦ ap (λ o. entry_of o i) (get_elem?-modify_ne s k id f other) ∙ at
  | inl here ↦ elim (Option-cases (get_elem? s id)) [
    | inl none_there ↦ cc (rw none_there at at)
    | inr (env, there) ↦
        let same : k ≡ id = (==_iff k id).0 here in
        let found : get_elem? s k ≡ some env = rw same there in
        let old = ap (λ o. entry_of o i) (sym there) ∙ at in
        ap (λ j. entry_of (get_elem? (modify s k f) j) i) (sym same)
        ∙ ap (λ o. entry_of o i) (get_elem?-modify_self s k f env found)
        ∙ step env found old
  ]
]

modify-Keeps :
    (s : Store) (k : ℕ) (f : Env → Env)
    → ((env : Env) (i : ℕ) (e : EnvEntry)
        → get_elem? s k ≡ some env
        → get_elem? env.entries i ≡ some e
        → is_closed e ≡ true
        → get_elem? (f env).entries i ≡ some e)
    → Keeps s (modify s k f)
unfolding Keeps
modify-Keeps s k f step id i e at closed =
    entry_at-modify s k f id i e at (λ env found old. step env i e found old closed)

-- An entry that a write keeps, if the write is to that entry at all.
pub entry_at-write_entry :
    (s : Store) (p : Place) (f : EnvEntry → EnvEntry) (id i : ℕ) (e : EnvEntry)
    → IsPlace s (some p)
    → entry_at s id i ≡ some e
    → (p.entry ≡ e → f e ≡ e)
    → entry_at (write_entry s p f) id i ≡ some e
entry_at-write_entry s p f id i e place at same_entry =
    entry_at-modify s p.env _ id i e at (λ env found old. elim (Bool-cases (p.index == i)) [
      | inr other ↦ get_elem?-modify_ne env.entries p.index i f other ∙ old
      | inl here ↦
          let same = (==_iff p.index i).0 here in
          let here_entry : get_elem? env.entries p.index ≡ some p.entry =
            ap (λ o. entry_of o p.index) (sym found) ∙ place in
          let e1 : get_elem? env.entries i ≡ some p.entry =
            ap (get_elem? env.entries) (sym same) ∙ here_entry in
          let e2 : p.entry ≡ e = cc in
          ap (λ j. get_elem? (modify env.entries j f) i) same
          ∙ get_elem?-modify_self env.entries i f e old
          ∙ ap some (same_entry e2)
    ])

write-IsSafe :
    (s : Store) (p : Place) (f : EnvEntry → EnvEntry)
    → IsPlace s (some p)
    → is_closed p.entry ≡ false
    → Keeps s (write_entry s p f)
unfolding Keeps
write-IsSafe s p f place open_there id i e at closed =
    entry_at-write_entry s p f id i e place at (λ same. cc (ap is_closed same))

-- A write that fails where the entry is closed.
guarded-IsSafe :
    (s : Store) (p : Place) (f : EnvEntry → EnvEntry)
    → IsPlace s (some p)
    → IsSafe s (if is_closed p.entry then (false, s) else (true, write_entry s p f))
guarded-IsSafe s p f place =
    if_cases (IsSafe s) (is_closed p.entry) (λ _. refused s)
      (λ free. record { kept = write-IsSafe s p f place free; failed = λ e. cc })

Keeps-trans : (r s t : Store) → Keeps r s → Keeps s t → Keeps r t
unfolding Keeps
Keeps-trans r s t p q id i e at h = q id i e (p id i e at h) h

module _ (s : Store) (id : ℕ) (name : Bytes) (type : DeclType) (base : ℕ) (schema : Value) where
  abbrev pub made : Store
  made = modify s id (λ e. add_entry e (new_entry name type base schema))

  made-Keeps : Keeps s made
  made-Keeps = modify-Keeps s id _ (λ env i e found at closed.
      rw (add_entry-entries env (new_entry name type base schema))
        (get_elem?-append_left env.entries (new_entry name type base schema ∷ []) i e at))

  -- The entry that is found by a name just defined is the new one.
  pub made-entry :
      (Q : EnvEntry → Type 0) (p : Place)
      → find_place s id name ≡ none
      → find_place made id name ≡ some p
      → Q (new_entry name type base schema)
      → Q p.entry
  made-entry Q p absent there new = elim (Option-cases (get_elem? s id)) [
    | inl none_there ↦ cc (
      absent,
      ap (λ t. find_place t id name) (sym (get_elem?-modify-none s id _ none_there)) ∙ there,
    )
    | inr (env, e) ↦
        let env' = add_entry env (new_entry name type base schema) in
        let at_new = sym (ap (place_in id name) (get_elem?-modify_self s id _ env e)) ∙ there in
        let (i, at, named) = at_index-some id env' name p at_new in
        let missing = at_index-none id env name (sym (ap (place_in id name) e) ∙ absent) in
        get_elem?-append_one (λ x. bytes_eq x.name name ≡ true → Q x) env.entries
          (new_entry name type base schema) i p.entry
          (rw (add_entry-entries env (new_entry name type base schema)) at at)
          (λ j z found same. cc (env_find_local-none env name missing j z found, same)) (λ _. new)
          named
  ]

  made-open :
      (p : Place)
      → find_place s id name ≡ none
      → find_place made id name ≡ some p
      → is_closed p.entry ≡ false
  made-open p absent there = made-entry (λ x. is_closed x ≡ false) p absent there refl

  made-found : find_place made id name ≡ none → made ≡ s
  made-found there = elim (Option-cases (get_elem? s id)) [
    | inl none_there ↦ get_elem?-modify-none s id _ none_there
    | inr (env, e) ↦
        let new = new_entry name type base schema in
        let env' = add_entry env new in
        let missing =
          at_index-none id env' name
            (sym (ap (place_in id name) (get_elem?-modify_self s id _ env e)) ∙ there) in
        let at : get_elem? env'.entries (length env.entries) ≡ some new =
          rw (add_entry-entries env new) (get_elem?-append_last env.entries new) in
        cc (
          env_find_local-none env' name missing (length env.entries) new at,
          (bytes_eq_iff name name).1 refl,
        )
  ]

  -- A write to an entry just defined.
  made-IsSafe :
      (f : EnvEntry → EnvEntry)
      → find_place s id name ≡ none
      → (g : Place → Store → Bool × Store)
      → ((p : Place) → is_closed p.entry ≡ false → g p made ≡ (true, write_entry made p f))
      → IsSafe s (on_new id name g (true, made))
  made-IsSafe f absent g open_write =
      elim_cases (IsSafe s) (find_place made id name)
        (λ e. record { kept = made-Keeps; failed = λ _. made-found e })
        (λ p e.
          let free = made-open p absent e in
          let place = subst (IsPlace made) e (find_place-IsPlace made id name) in
          rw (open_write p free) (record {
            kept =
                Keeps-trans s made (write_entry made p f) made-Keeps
                  (write-IsSafe made p f place free);
            failed = λ h. cc;
          }))

module _ (s : Store) (id : ℕ) (name : Bytes) where
  pub define-IsSafe :
      (type : DeclType) (base : ℕ) (schema : Value)
      → IsSafe s (env_define_direct s id name type base schema)
  unfolding env_define_direct
  define-IsSafe type base schema =
      elim_cases (IsSafe s) (find_place s id name)
        (λ absent. record { kept = made-Keeps s id name type base schema; failed = λ h. cc })
        (λ p there. refused s)

  pub delete-IsSafe : IsSafe s (env_delete_direct s id name)
  unfolding env_delete_direct
  delete-IsSafe =
      elim_cases (IsSafe s) (env_get_entry_raw_with_env s id name) (λ absent. refused s)
        (λ p there.
          guarded-IsSafe s p deleted
            (subst (IsPlace s) there (env_get_entry_raw_with_env-IsPlace s id name)))

  pub define-fresh :
      (type : DeclType) (base : ℕ) (schema : Value)
      → find_place s id name ≡ none
      → env_define_direct s id name type base schema ≡ (true, made s id name type base schema)
  unfolding env_define_direct
  define-fresh type base schema absent = rw (absent, env_define_direct) refl

  pub restore_local-IsSafe :
      (value : Value) (type : DeclType) (base : ℕ) (initialized : Bool)
      → IsSafe s (env_restore_local_direct s id name value type base initialized)
  unfolding env_restore_local_direct
  restore_local-IsSafe value type base initialized =
      elim_cases (IsSafe s) (find_place s id name)
        (λ absent. rw (define-fresh type base null absent) (
          made-IsSafe s id name type base null (restored value type base initialized) absent
            (write_open (restored value type base initialized)) (λ p free. rw free refl)))
        (λ p there. guarded-IsSafe s p _ (subst (IsPlace s) there (find_place-IsPlace s id name)))

  pub declare-IsSafe :
      (value : Value) (type : DeclType) (base : ℕ)
      → find_place s id name ≡ none
      → IsSafe s (declare s id name value type base)
  unfolding declare
  declare-IsSafe value type base absent =
      if_cases (IsSafe s) (same_type type type_unknown) (λ _. refused s)
        (λ _.
          if_cases (IsSafe s) (not (decl_type_accepts_value type base value)) (λ _. refused s)
            (λ _. rw (define-fresh type base null absent) (
              made-IsSafe s id name type base null (set_value value) absent
                (write_always (set_value value)) (λ p free. refl))))

  pub alias_to-IsSafe :
      (cur : Place) (type : DeclType) (base : ℕ) (declare_if_missing : Bool)
      → IsSafe s (alias_to s id name cur type base declare_if_missing)
  unfolding alias_to
  alias_to-IsSafe cur type base declare_if_missing =
      elim_cases (IsSafe s) (find_place s id name)
        (λ absent.
          if_cases (IsSafe s) (not declare_if_missing) (λ _. refused s)
            (λ _. rw (define-fresh type base null absent) (
              made-IsSafe s id name type base null (linked_to cur) absent
                (write_open (linked_to cur)) (λ p free. rw free refl))))
        (λ p there. guarded-IsSafe s p _ (subst (IsPlace s) there (find_place-IsPlace s id name)))

pub assign_at-IsSafe :
    (s : Store) (maps : Maps) (p : Place) (value : Value) (type : DeclType) (base : ℕ)
    → IsPlace s (some p)
    → IsSafe s (assign_at maps s p value type base)
unfolding assign_at
assign_at-IsSafe s maps p value type base place =
    elim_cases (IsSafe s) p.entry.alias_target
      (λ _.
        if_cases (IsSafe s) (is_closed p.entry) (λ _. refused s)
          (λ free.
            if_cases (IsSafe s) (refuses maps p.entry value type base) (λ _. refused s)
              (λ _. record {
                kept = write-IsSafe s p (set_value value) place free;
                failed = λ h. cc;
              })))
      (λ target _.
        elim_cases (IsSafe s) (env_get_entry_raw_with_env s _ target) (λ _. refused s)
          (λ t there.
            if_cases (IsSafe s) (refuses maps t.entry value type base) (λ _. refused s)
              (λ _.
                guarded-IsSafe s t (set_value value)
                  (subst (IsPlace s) there (env_get_entry_raw_with_env-IsPlace s _ target)))))
