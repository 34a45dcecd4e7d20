-- ===== src/Env/Update.antt =====
-- src/env.c: lookups behind a write to one entry that keeps its name.
use mathlib.Core.Option
use prefix.Base.{
  ended, ℕ, zero, suc, ◌+◌, ◌%◌, Bool, true, false, ◌&&◌, Option, none, some, List, [], ◌∷◌, ◌≡◌,
  refl, sym, ◌∙◌, ap, ◌==◌, ==_iff, if◌then◌else◌, length, get_elem?, get_or, Bytes, bytes_eq,
  Bool-cases, Option-cases, inl, inr,
}
use prefix.Env.Places.{get_elem?-modify_self, get_elem?-modify-none, get_elem?-modify_ne}
use prefix.Env.Store.{Store, Place, at_entry, at_index, entry_rounds}
use prefix.Env.Table.{
  EnvEntry, Env, is_named, probe, scan, env_ht_find, env_ht_probe, env_find_local, env_hash_name,
}
use prefix.Env.Write.{modify, write_entry}

abbrev or_else : Option ℕ → Option ℕ → Option ℕ
or_else o r = elim o as (λ _. Option ℕ) [ some i ↦ some i | none ↦ r ]

-- A choice that is the same for every element.
map-if {ℓ} :
    {A : Type ℓ} (b c : Bool) (f : A → A) (o : Option A)
    → b ≡ c
    → Option.map (λ x. if b then f x else x) o ≡ (if c then Option.map f o else o)
map-if b true f none h = refl
map-if b false f none h = refl
map-if b true f (some x) h = rw h refl
map-if b false f (some x) h = rw h refl

get_elem?-modify {ℓ} :
    {A : Type ℓ} (xs : List A) (i j : ℕ) (f : A → A)
    → get_elem? (modify xs i f) j ≡ Option.map (λ x. if i == j then f x else x) (get_elem? xs j)
get_elem?-modify xs i j f = elim (Bool-cases (i == j)) [
  | inr other ↦
      get_elem?-modify_ne xs i j f other ∙ sym (map-if (i == j) false f (get_elem? xs j) other)
  | inl same ↦
      let at = (==_iff i j).0 same in
      let there = map-if (i == j) true f (get_elem? xs j) same in
      elim (Option-cases (get_elem? xs i)) [
        | inl e ↦
            ap (λ k. get_elem? (modify xs i f) k) (sym at)
            ∙ ap (λ ys. get_elem? ys i) (get_elem?-modify-none xs i f e)
            ∙ e
            ∙ ap (Option.map f) (sym (ap (get_elem? xs) (sym at) ∙ e))
            ∙ sym there
        | inr (x, e) ↦
            ap (λ k. get_elem? (modify xs i f) k) (sym at)
            ∙ get_elem?-modify_self xs i f x e
            ∙ ap (Option.map f) (sym (ap (get_elem? xs) (sym at) ∙ e))
            ∙ sym there
      ]
]

-- Where an entry is written: the place as it is then.
abbrev pub after : (EnvEntry → EnvEntry) → Place → Place → Place
after f p q = if (p.env == q.env) && (p.index == q.index) then record q { entry = f q.entry } else q

module _ (f : EnvEntry → EnvEntry) (keeps : (e : EnvEntry) → (f e).name ≡ e.name) where
  is_named-modify :
      (es : List EnvEntry) (i j : ℕ) (name : Bytes)
      → is_named (modify es i f) j name ≡ is_named es j name
  is_named-modify [] i j name = refl
  is_named-modify (e ∷ es) zero zero name = ap (λ n. bytes_eq n name) (keeps e)
  is_named-modify (e ∷ es) zero (suc j) name = refl
  is_named-modify (e ∷ es) (suc i) zero name = refl
  is_named-modify (e ∷ es) (suc i) (suc j) name = is_named-modify es i j name

  probe-modify :
      (n : ℕ) (slots : List (Option ℕ)) (es : List EnvEntry) (i : ℕ) (name : Bytes) (idx : ℕ)
      → probe n slots (modify es i f) name idx ≡ probe n slots es name idx
  unfolding probe
  probe-modify zero slots es i name idx = refl
  probe-modify (suc n) slots es i name idx = elim (Option-cases (get_or slots idx none)) [
    | inl e ↦ rw (e, probe) refl
    | inr (k, e) ↦
        rw
          (
            e,
            probe,
            is_named-modify es i k name,
            probe-modify n slots es i name ((idx + 1) % length slots),
          )
          refl
  ]

  scan-modify :
      (es : List EnvEntry) (i k : ℕ) (name : Bytes) → scan (modify es i f) k name ≡ scan es k name
  unfolding scan
  scan-modify [] i k name = refl
  scan-modify (e ∷ es) zero k name = rw (keeps e) refl
  scan-modify (e ∷ es) (suc i) k name = rw (scan-modify es i (k + 1) name) refl

  abbrev updated : ℕ → Env → Env
  updated i e = record e { entries = modify e.entries i f }

  env_find_local-modify :
      (e : Env) (i : ℕ) (name : Bytes) → env_find_local (updated i e) name ≡ env_find_local e name
  unfolding env_find_local env_ht_find env_ht_probe
  env_find_local-modify e i name =
      let size = length e.ht_slots in
      let by_hash : env_ht_find (updated i e) name ≡ env_ht_find e name =
        ap (λ o. ended (if size == 0 then some none else o))
          (probe-modify size e.ht_slots e.entries i name (env_hash_name name % size)) in
      ap (λ o. or_else o (scan (modify e.entries i f) 0 name)) by_hash
      ∙ ap (or_else (env_ht_find e name)) (scan-modify e.entries i 0 name)

  at_entry-after :
      (p : Place) (id i : ℕ) (o : Option EnvEntry)
      → (p.env == id) ≡ true
      → at_entry id i (Option.map (λ x. if p.index == i then f x else x) o)
        ≡ Option.map (after f p) (at_entry id i o)
  at_entry-after p id i none here = refl
  at_entry-after p id i (some x) here = elim (Bool-cases (p.index == i)) [
    | inl e ↦ rw (here, e) refl
    | inr e ↦ rw (here, e) refl
  ]

  at_index-after :
      (p : Place) (id : ℕ) (env : Env) (o : Option ℕ)
      → (p.env == id) ≡ true
      → at_index id (updated p.index env) o ≡ Option.map (after f p) (at_index id env o)
  at_index-after p id env none here = refl
  at_index-after p id env (some i) here =
      ap (at_entry id i) (get_elem?-modify env.entries p.index i f)
      ∙ at_entry-after p id i (get_elem? env.entries i) here

  at_entry-apart :
      (p : Place) (id i : ℕ) (o : Option EnvEntry)
      → (p.env == id) ≡ false
      → Option.map (after f p) (at_entry id i o) ≡ at_entry id i o
  at_entry-apart p id i none apart = refl
  at_entry-apart p id i (some x) apart = rw apart refl

  at_index-apart :
      (p : Place) (id : ℕ) (env : Env) (o : Option ℕ)
      → (p.env == id) ≡ false
      → Option.map (after f p) (at_index id env o) ≡ at_index id env o
  at_index-apart p id env none apart = refl
  at_index-apart p id env (some i) apart = at_entry-apart p id i (get_elem? env.entries i) apart

  -- The same lookup behind the write.
  abbrev pub Follows : Store → Place → ℕ → Option ℕ → Bytes → Type 0
  Follows s p n id name =
      entry_rounds n (write_entry s p f) id name ≡ Option.map (after f p) (entry_rounds n s id name)

  -- One round, from what the next rounds find.
  round :
      (p : Place) (id : ℕ) (env new : Env) (name : Bytes) (rest rest' : Option Place)
      → at_index id new (env_find_local new name)
        ≡ Option.map (after f p) (at_index id env (env_find_local env name))
      → rest' ≡ Option.map (after f p) rest
      → (elim (at_index id new (env_find_local new name)) as (λ _. Option Place) [
        | some q ↦ some q
        | none ↦ rest'
      ])
        ≡ Option.map
            (after f p)
            (elim (at_index id env (env_find_local env name)) as (λ _. Option Place) [
              | some q ↦ some q
              | none ↦ rest
            ])
  round p id env new name rest rest' here later =
      elim (Option-cases (at_index id env (env_find_local env name))) [
        | inl e ↦ rw (here, e) later
        | inr (q, e) ↦ rw (here, e) refl
      ]

  pub entry_rounds-after :
      (s : Store) (p : Place) (n : ℕ) (id : Option ℕ) (name : Bytes) → Follows s p n id name
  unfolding entry_rounds
  entry_rounds-after s p zero none name = refl
  entry_rounds-after s p (suc n) none name = refl
  entry_rounds-after s p zero (some id) name = refl
  entry_rounds-after s p (suc n) (some id) name =
      let written = λ (x : Env). if p.env == id then updated p.index x else x in
      let new = get_elem?-modify s p.env id (updated p.index) in
      elim (Option-cases (get_elem? s id)) [
        | inl e ↦ rw (new ∙ ap (Option.map written) e, e, entry_rounds) refl
        | inr (env, e) ↦ elim (Bool-cases (p.env == id)) [
          | inl same ↦
              let e' : get_elem? (write_entry s p f) id ≡ some (updated p.index env) =
                new ∙ ap (Option.map written) e ∙ ap some (rw same refl) in
              rw (e', e, entry_rounds)
                (round p id env (updated p.index env) name _ _
                  (ap (at_index id (updated p.index env)) (env_find_local-modify env p.index name)
                    ∙ at_index-after p id env (env_find_local env name) same)
                  (entry_rounds-after s p n env.parent name))
          | inr apart ↦
              let e' : get_elem? (write_entry s p f) id ≡ some env =
                get_elem?-modify_ne s p.env id (updated p.index) apart ∙ e in
              rw (e', e, entry_rounds)
                (round p id env env name _ _
                  (sym (at_index-apart p id env (env_find_local env name) apart))
                  (entry_rounds-after s p n env.parent name))
        ]
      ]
