-- ===== src/Env/Entries.antt =====
-- src/env.c: the declared type of one entry and its value.
use prefix.Base.{
  ℕ, zero, suc, Bool, true, false, not, ◌&&◌, ◌||◌, none, some, List, [], ◌∷◌, ◌≡◌, refl, sym, ◌∙◌,
  ap, subst, if_cases, elim_cases, get_elem?, Bytes, Option-cases, inl, inr,
}
use prefix.Env.Closed.{made, made-entry, define-fresh}
use prefix.Env.Places.{
  entry_of, entry_at, IsPlace, get_elem?-append_one, find_place-IsPlace,
  env_get_entry_raw_with_env-IsPlace, add_entry-entries,
}
use prefix.Env.Store.{Store, Place, env_get_entry_raw_with_env}
use prefix.Env.Table.{EnvEntry, Env, new_entry, add_entry}
use prefix.Env.Write.{
  modify, write_entry, find_place, env_define_direct, is_closed, set_value, refuses, assign_at,
  on_new, deleted, linked_to, restored,
}
use prefix.Map.Schema.{Maps}
use prefix.Value.{Value, null}
use prefix.Value.Types.{DeclType, type_unknown, same_type, decl_type_accepts_value}

-- The value fits the type, or there is none.
abbrev pub Fits : DeclType → ℕ → Bool → Value → Type 0
Fits type base initialized value =
    initialized ≡ true
    → same_type type type_unknown ≡ false
    → decl_type_accepts_value type base value ≡ true

-- An entry that is no alias holds a value of its declared type, where it has a type and a value.
abbrev pub IsTyped : EnvEntry → Type 0
IsTyped e = e.alias_target ≡ none → Fits e.decl_type e.decl_base e.initialized e.value

abbrev pub AllTyped : Store → Type 0
AllTyped s = (id i : ℕ) (e : EnvEntry) → entry_at s id i ≡ some e → IsTyped e

-- What stands in a list behind a change: an old element, or the changed one.
pub get_elem?-modify {ℓ} :
    {A : Type ℓ} (P : A → Type 0) (xs : List A) (k i : ℕ) (f : A → A) (y : A)
    → get_elem? (modify xs k f) i ≡ some y
    → ((z : A) → get_elem? xs i ≡ some z → P z)
    → ((z : A) → get_elem? xs k ≡ some z → k ≡ i → P (f z))
    → P y
get_elem?-modify P [] k i f y h old new = cc
get_elem?-modify P (x ∷ xs) zero zero f y h old new =
    rw (let e : y ≡ f x = cc in e) (new x refl refl)
get_elem?-modify P (x ∷ xs) zero (suc i) f y h old new = old y h
get_elem?-modify P (x ∷ xs) (suc k) zero f y h old new = old y h
get_elem?-modify P (x ∷ xs) (suc k) (suc i) f y h old new =
    get_elem?-modify P xs k i f y h old (λ z at same. new z at (ap suc same))

pub modify-AllTyped :
    (s : Store) (k : ℕ) (f : Env → Env)
    → AllTyped s
    → ((env : Env) (i : ℕ) (e : EnvEntry)
        → get_elem? s k ≡ some env
        → get_elem? (f env).entries i ≡ some e
        → IsTyped e)
    → AllTyped (modify s k f)
modify-AllTyped s k f typed step id i e at = elim (Option-cases (get_elem? (modify s k f) id)) [
  | inl absent ↦ cc (ap (λ o. entry_of o i) absent, at)
  | inr (env, there) ↦
      get_elem?-modify (λ env. get_elem? env.entries i ≡ some e → IsTyped e) s k id f env there
        (λ old found at'. typed id i e (ap (λ o. entry_of o i) found ∙ at'))
        (λ old found same at'. step old i e found at') (sym (ap (λ o. entry_of o i) there) ∙ at)
]

pub write_entry-AllTyped :
    (s : Store) (p : Place) (f : EnvEntry → EnvEntry)
    → AllTyped s
    → IsPlace s (some p)
    → IsTyped (f p.entry)
    → AllTyped (write_entry s p f)
write_entry-AllTyped s p f typed place new = modify-AllTyped s p.env _ typed (λ env i e found at.
    get_elem?-modify IsTyped env.entries p.index i f e at
      (λ z old. typed p.env i z (ap (λ o. entry_of o i) found ∙ old))
      (λ z old same.
        let e1 : some z ≡ some p.entry =
          sym old ∙ ap (λ o. entry_of o p.index) (sym found) ∙ place in
        let e2 : z ≡ p.entry = cc in rw e2 new))

pub new-IsTyped :
    (name : Bytes) (type : DeclType) (base : ℕ) (schema : Value)
    → IsTyped (new_entry name type base schema)
new-IsTyped name type base schema = λ _ h _. cc

pub deleted-IsTyped : (e : EnvEntry) → IsTyped (deleted e)
deleted-IsTyped e = λ _ h _. cc

pub linked_to-IsTyped : (cur : Place) (e : EnvEntry) → IsTyped (linked_to cur e)
linked_to-IsTyped cur e = λ h _ _. cc

pub restored-IsTyped :
    (value : Value) (type : DeclType) (base : ℕ) (initialized : Bool) (e : EnvEntry)
    → Fits type base initialized value
    → IsTyped (restored value type base initialized e)
restored-IsTyped value type base true e fits = λ _. fits
restored-IsTyped value type base false e fits = λ _ h _. cc

no_refusal :
    (mismatch unknown fits bad : Bool)
    → (mismatch || ((not unknown && not fits) || bad)) ≡ false
    → unknown ≡ false
    → fits ≡ true
no_refusal true unknown fits bad h u = cc
no_refusal false true fits bad h u = cc
no_refusal false false true bad h u = refl
no_refusal false false false bad h u = cc

pub set_value-IsTyped :
    (maps : Maps) (e : EnvEntry) (value : Value) (type : DeclType) (base : ℕ)
    → refuses maps e value type base ≡ false
    → IsTyped (set_value value e)
unfolding refuses
set_value-IsTyped maps e value type base h = λ _ _ known. no_refusal _ _ _ _ h known

module _ (s : Store) (typed : AllTyped s) where
  abbrev After : Bool × Store → Type 0
  After r = AllTyped r.1

  pub set_value-AllTyped :
      (maps : Maps) (p : Place) (value : Value) (type : DeclType) (base : ℕ)
      → IsPlace s (some p)
      → refuses maps p.entry value type base ≡ false
      → AllTyped (write_entry s p (set_value value))
  set_value-AllTyped maps p value type base place h =
      write_entry-AllTyped s p (set_value value) typed place
        (set_value-IsTyped maps p.entry value type base h)

  pub assign_at-AllTyped :
      (maps : Maps) (p : Place) (value : Value) (type : DeclType) (base : ℕ)
      → IsPlace s (some p)
      → AllTyped (assign_at maps s p value type base).1
  unfolding assign_at
  assign_at-AllTyped maps p value type base place =
      elim_cases After p.entry.alias_target
        (λ _.
          if_cases After (is_closed p.entry) (λ _. typed)
            (λ _.
              if_cases After (refuses maps p.entry value type base) (λ _. typed)
                (λ ok. set_value-AllTyped maps p value type base place ok)))
        (λ target _.
          elim_cases After (env_get_entry_raw_with_env s _ target) (λ _. typed)
            (λ t there.
              if_cases After (refuses maps t.entry value type base) (λ _. typed)
                (λ ok.
                  if_cases After (is_closed t.entry) (λ _. typed)
                    (λ _.
                      set_value-AllTyped maps t value type base
                        (subst (IsPlace s) there (env_get_entry_raw_with_env-IsPlace s _ target))
                        ok))))

  pub made-AllTyped :
      (id : ℕ) (name : Bytes) (type : DeclType) (base : ℕ) (schema : Value)
      → AllTyped (made s id name type base schema)
  made-AllTyped id name type base schema =
      let new = new_entry name type base schema in
      modify-AllTyped s id (λ env. add_entry env new) typed
        (λ env i e found at.
          get_elem?-append_one IsTyped env.entries new i e
            (ap (λ es. get_elem? es i) (sym (add_entry-entries env new)) ∙ at)
            (λ j z old. typed id j z (ap (λ o. entry_of o j) found ∙ old))
            (new-IsTyped name type base schema))

  -- A write to the entry that a definition has made.
  pub on_new-AllTyped :
      (id : ℕ) (name : Bytes) (type : DeclType) (base : ℕ) (f : EnvEntry → EnvEntry)
      → find_place s id name ≡ none
      → IsTyped (f (new_entry name type base null))
      → (g : Place → Store → Bool × Store)
      → ((p : Place) (t : Store) → AllTyped t → AllTyped (write_entry t p f) → AllTyped (g p t).1)
      → AllTyped (on_new id name g (env_define_direct s id name type base null)).1
  on_new-AllTyped id name type base f absent new g after =
      let t = made s id name type base null in
      let t-AllTyped = made-AllTyped id name type base null in
      rw (define-fresh s id name type base null absent) (
        elim_cases (λ (r : Bool × Store). AllTyped r.1) (find_place t id name) (λ _. t-AllTyped)
          (λ p there. after p t t-AllTyped (
            write_entry-AllTyped t p f t-AllTyped
              (subst (IsPlace t) there (find_place-IsPlace t id name))
              (made-entry s id name type base null (λ x. IsTyped (f x)) p absent there new))))
