-- ===== src/Env/Readback.antt =====
-- src/env.c: reads behind an assignment, and behind the freezing calls.
use mathlib.Core.Option
use prefix.Base.{
  ℕ, zero, suc, Bool, true, false, none, some, List, [], ◌∷◌, ◌≡◌, refl, sym, ◌∙◌, ap, ◌==◌, ==_iff,
  if◌then◌else◌, length, Bytes, elim_cases, if_cases, subst,
}
use prefix.Env.Store.{
  Store, Place, Binding, entry_rounds, env_get_entry_raw_with_env, alias_rounds, final_target,
  env_get_raw, env_frozen_state_raw, state_of, is_permafrozen, is_frozen, not_frozen, max_depth,
}
use prefix.Env.Table.{EnvEntry}
use prefix.Env.Update.{after, entry_rounds-after}
use prefix.Env.Write.{
  modify, write_entry, is_closed, set_value, refuses, assign_at, env_assign_direct,
  env_freeze_direct, env_thaw_direct, env_permafreeze_direct, FreezeResult, done, permanent,
}
use prefix.Map.Schema.{Maps}
use prefix.Value.{Value}
use prefix.Value.Types.{DeclType}

length-modify {ℓ} :
    {A : Type ℓ} (xs : List A) (i : ℕ) (f : A → A) → length (modify xs i f) ≡ length xs
length-modify [] i f = refl
length-modify (x ∷ xs) zero f = refl
length-modify (x ∷ xs) (suc i) f = ap suc (length-modify xs i f)

-- A lookup behind a write that keeps names.
raw-after :
    (f : EnvEntry → EnvEntry)
    → ((e : EnvEntry) → (f e).name ≡ e.name)
    → (s : Store) (p : Place) (id : ℕ) (name : Bytes)
    → env_get_entry_raw_with_env (write_entry s p f) id name
      ≡ Option.map (after f p) (env_get_entry_raw_with_env s id name)
unfolding env_get_entry_raw_with_env
raw-after f keeps s p id name =
    ap (λ n. entry_rounds n (write_entry s p f) (some id) name) (length-modify s p.env _)
    ∙ entry_rounds-after f keeps s p (length s) (some id) name

after_self : (f : EnvEntry → EnvEntry) (p : Place) → after f p p ≡ record p { entry = f p.entry }
after_self f p =
    let e : (p.env == p.env) ≡ true = (==_iff p.env p.env).1 refl in
    let i : (p.index == p.index) ≡ true = (==_iff p.index p.index).1 refl in rw (e, i) refl

raw_self :
    (f : EnvEntry → EnvEntry)
    → ((e : EnvEntry) → (f e).name ≡ e.name)
    → (s : Store) (p : Place) (id : ℕ) (name : Bytes)
    → env_get_entry_raw_with_env s id name ≡ some p
    → env_get_entry_raw_with_env (write_entry s p f) id name ≡ some (record p { entry = f p.entry })
raw_self f keeps s p id name h =
    raw-after f keeps s p id name ∙ ap (Option.map (after f p)) h ∙ ap some (after_self f p)

alias_rounds-none :
    (n : ℕ) (cycle : Bytes → Bool) (s : Store) (p : Place)
    → p.entry.alias_target ≡ none
    → alias_rounds n cycle s p ≡ some p
unfolding alias_rounds
alias_rounds-none zero cycle s p h =
    elim_cases (λ r. r ≡ some p) p.entry.alias_target (λ _. refl) (λ t e. cc)
alias_rounds-none (suc n) cycle s p h =
    elim_cases (λ r. r ≡ some p) p.entry.alias_target (λ _. refl) (λ t e. cc)

abbrev binding : EnvEntry → Binding
binding e = record {
  value = e.value;
  decl_type = e.decl_type;
  decl_base = e.decl_base;
  initialized = e.initialized;
}

get-direct :
    (s : Store) (p : Place) (id : ℕ) (name : Bytes)
    → env_get_entry_raw_with_env s id name ≡ some p
    → p.entry.alias_target ≡ none
    → env_get_raw s id name ≡ some (binding p.entry)
unfolding env_get_raw final_target
get-direct s p id name h direct =
    rw (h, env_get_raw, alias_rounds-none max_depth (λ _. false) s p direct) refl

-- What a read of the name gives behind a successful write of the value.
ReadsBack : ℕ → Bytes → Value → EnvEntry → Bool × Store → Type 0
ReadsBack id name value e r =
    r.0 ≡ true → env_get_raw r.1 id name ≡ some (binding (set_value value e))

assign_at-ReadsBack :
    (maps : Maps) (s : Store) (id : ℕ) (name : Bytes) (value : Value) (type : DeclType) (base : ℕ)
    (p : Place)
    → env_get_entry_raw_with_env s id name ≡ some p
    → p.entry.alias_target ≡ none
    → ReadsBack id name value p.entry (assign_at maps s p value type base)
unfolding assign_at ReadsBack
assign_at-ReadsBack maps s id name value type base p h direct =
    let Q = ReadsBack id name value p.entry in
    elim_cases Q p.entry.alias_target
      (λ _.
        if_cases Q (is_closed p.entry) (λ _ ok. cc)
          (λ _.
            if_cases Q (refuses maps p.entry value type base) (λ _ ok. cc)
              (λ _ ok.
                get-direct (write_entry s p (set_value value))
                  (record p { entry = set_value value p.entry }) id name
                  (raw_self (set_value value) (λ e. refl) s p id name h) direct)))
      (λ t e. cc)

-- An assignment that succeeds to a name that is declared in the chain of environments, and is no
-- alias, is what a read of the name then gives, with the declared type as it was.
pub env_get_raw-env_assign_direct :
    (maps : Maps) (s : Store) (id : ℕ) (name : Bytes) (value : Value) (type : DeclType) (base : ℕ)
    (missing : Bool) (p : Place)
    → env_get_entry_raw_with_env s id name ≡ some p
    → p.entry.alias_target ≡ none
    → (env_assign_direct maps s id name value type base missing).0 ≡ true
    → env_get_raw (env_assign_direct maps s id name value type base missing).1 id name
      ≡ some (record {
        value = value;
        decl_type = p.entry.decl_type;
        decl_base = p.entry.decl_base;
        initialized = true;
      })
unfolding env_assign_direct ReadsBack
env_get_raw-env_assign_direct maps s id name value type base missing p h direct ok =
    let assigned : env_assign_direct maps s id name value type base missing
        ≡ assign_at maps s p value type base =
      rw (h, env_assign_direct) refl in
    subst (ReadsBack id name value p.entry) (sym assigned)
      (assign_at-ReadsBack maps s id name value type base p h direct) ok

state-after :
    (f : EnvEntry → EnvEntry)
    → ((e : EnvEntry) → (f e).name ≡ e.name)
    → (s : Store) (p : Place) (id : ℕ) (name : Bytes)
    → env_get_entry_raw_with_env s id name ≡ some p
    → env_frozen_state_raw (write_entry s p f) id name ≡ state_of (f p.entry)
unfolding env_frozen_state_raw
state-after f keeps s p id name h = rw (raw_self f keeps s p id name h, env_frozen_state_raw) refl

first_of :
    (b : Bool) (s t : Store)
    → (let r : FreezeResult × Store = if b then (permanent, s) else (done, t) in
        r.0 ≡ (if b then permanent else done))
first_of true s t = refl
first_of false s t = refl

thaw-state :
    (s : Store) (id : ℕ) (name : Bytes) (p : Place)
    → env_get_entry_raw_with_env s id name ≡ some p
    → (b : Bool) → p.entry.permafrozen ≡ b
    → (let r : FreezeResult × Store =
          if b
          then (permanent, s)
          else (done, write_entry s p (λ e. record e { frozen = false })) in
        env_frozen_state_raw r.1 id name ≡ (if b then is_permafrozen else not_frozen))
unfolding env_frozen_state_raw
thaw-state s id name p h true eq =
    (rw (h, env_frozen_state_raw) refl)
    ∙ ap (λ b. if b then is_permafrozen else if p.entry.frozen then is_frozen else not_frozen) eq
thaw-state s id name p h false eq =
    state-after (λ e. record e { frozen = false }) (λ e. refl) s p id name h
    ∙ ap (λ b. if b then is_permafrozen else not_frozen) eq

-- Of a name that is found: freezing leaves it frozen and thawing not frozen, but a permanently
-- frozen one stays so, and then thawing says so; freezing it permanently leaves it permanently frozen.
pub env_frozen_state_raw-env_thaw_direct :
    (s : Store) (id : ℕ) (name : Bytes) (p : Place)
    → env_get_entry_raw_with_env s id name ≡ some p
    → (env_frozen_state_raw (env_freeze_direct s id name).1 id name
        ≡ (if p.entry.permafrozen then is_permafrozen else is_frozen))
      × (env_frozen_state_raw (env_thaw_direct s id name).1 id name
          ≡ (if p.entry.permafrozen then is_permafrozen else not_frozen))
      × ((env_thaw_direct s id name).0 ≡ (if p.entry.permafrozen then permanent else done))
      × (env_frozen_state_raw (env_permafreeze_direct s id name).1 id name ≡ is_permafrozen)
unfolding env_freeze_direct env_thaw_direct env_permafreeze_direct
env_frozen_state_raw-env_thaw_direct s id name p h =
    let frozen_now : env_freeze_direct s id name
        ≡ (done, write_entry s p (λ e. record e { frozen = true })) =
      rw (h, env_freeze_direct) refl in
    let thawed : env_thaw_direct s id name ≡ (
        if p.entry.permafrozen
        then (permanent, s)
        else (done, write_entry s p (λ e. record e { frozen = false }))) =
      rw (h, env_thaw_direct) refl in
    let kept : env_permafreeze_direct s id name
        ≡ (done, write_entry s p (λ e. record e { permafrozen = true; frozen = true })) =
      rw (h, env_permafreeze_direct) refl in
    (
      ap (λ r. env_frozen_state_raw r.1 id name) frozen_now
          ∙ state-after (λ e. record e { frozen = true }) (λ e. refl) s p id name h,
      ap (λ r. env_frozen_state_raw r.1 id name) thawed
          ∙ thaw-state s id name p h p.entry.permafrozen refl,
      ap (λ r. r.0) thawed
          ∙ first_of p.entry.permafrozen s (write_entry s p (λ e. record e { frozen = false })),
      ap (λ r. env_frozen_state_raw r.1 id name) kept
          ∙ state-after (λ e. record e { permafrozen = true; frozen = true }) (λ e. refl) s p id
              name h,
    )
