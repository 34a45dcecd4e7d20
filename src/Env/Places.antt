-- ===== src/Env/Places.antt =====
-- src/env.c: where the entries of a store stand, and what finds them.
use prefix.Base.{
  ended, ℕ, zero, suc, ◌+◌, ◌%◌, true, false, Option, none, some, List, [], ◌∷◌, ◌++◌, ◌≡◌, refl,
  sym, ◌∙◌, ap, arith, ◌==◌, length, get_elem?, get_or, Bytes, bytes_eq, Bool-cases, Option-cases,
  inl, inr,
}
use prefix.Env.Store.{Store, Place, at_entry, at_index, entry_rounds, env_get_entry_raw_with_env}
use prefix.Env.Table.{
  EnvEntry, Env, has_name, is_named, probe, env_ht_probe, env_ht_find, scan, env_find_local,
  env_ht_rebuild, room, env_ht_insert, grown, add_entry,
}
use prefix.Env.Write.{modify, find_place}

-- The entry with an index in an environment.
abbrev pub entry_of : Option Env → ℕ → Option EnvEntry
entry_of none i = none
entry_of (some e) i = get_elem? e.entries i

abbrev pub entry_at : Store → ℕ → ℕ → Option EnvEntry
entry_at store id i = entry_of (get_elem? store id) i

-- A place tells the truth about the store.
abbrev pub IsPlace : Store → Option Place → Type 0
IsPlace store none = Unit {0}
IsPlace store (some p) = entry_at store p.env p.index ≡ some p.entry

pub get_elem?-modify_self {ℓ} :
    {A : Type ℓ} (xs : List A) (i : ℕ) (f : A → A) (x : A)
    → get_elem? xs i ≡ some x
    → get_elem? (modify xs i f) i ≡ some (f x)
get_elem?-modify_self [] i f x h = cc
get_elem?-modify_self (y ∷ xs) zero f x h = cc
get_elem?-modify_self (y ∷ xs) (suc i) f x h = get_elem?-modify_self xs i f x h

pub get_elem?-modify-none {ℓ} :
    {A : Type ℓ} (xs : List A) (i : ℕ) (f : A → A) → get_elem? xs i ≡ none → modify xs i f ≡ xs
get_elem?-modify-none [] i f h = refl
get_elem?-modify-none (y ∷ xs) zero f h = cc
get_elem?-modify-none (y ∷ xs) (suc i) f h = ap (λ r. y ∷ r) (get_elem?-modify-none xs i f h)

pub get_elem?-modify_ne {ℓ} :
    {A : Type ℓ} (xs : List A) (i j : ℕ) (f : A → A)
    → (i == j) ≡ false
    → get_elem? (modify xs i f) j ≡ get_elem? xs j
get_elem?-modify_ne [] i j f h = refl
get_elem?-modify_ne (y ∷ xs) zero zero f h = ground arith
get_elem?-modify_ne (y ∷ xs) zero (suc j) f h = refl
get_elem?-modify_ne (y ∷ xs) (suc i) zero f h = refl
get_elem?-modify_ne (y ∷ xs) (suc i) (suc j) f h = get_elem?-modify_ne xs i j f (ground arith)

pub get_elem?-append_left {ℓ} :
    {A : Type ℓ} (xs ys : List A) (i : ℕ) (x : A)
    → get_elem? xs i ≡ some x
    → get_elem? (xs ++ ys) i ≡ some x
get_elem?-append_left [] ys i x h = cc
get_elem?-append_left (y ∷ xs) ys zero x h = h
get_elem?-append_left (y ∷ xs) ys (suc i) x h = get_elem?-append_left xs ys i x h

-- What stands behind an appended element: an old one, or the new one.
pub get_elem?-append_one {ℓ} :
    {A : Type ℓ} (P : A → Type 0) (xs : List A) (y : A) (i : ℕ) (x : A)
    → get_elem? (xs ++ y ∷ []) i ≡ some x
    → ((j : ℕ) (z : A) → get_elem? xs j ≡ some z → P z)
    → P y
    → P x
get_elem?-append_one P [] y zero x h old new = rw (let e : x ≡ y = cc in e) new
get_elem?-append_one P [] y (suc i) x h old new = cc
get_elem?-append_one P (z ∷ xs) y zero x h old new = old 0 x h
get_elem?-append_one P (z ∷ xs) y (suc i) x h old new =
    get_elem?-append_one P xs y i x h (λ j w e. old (suc j) w e) new

pub get_elem?-append_last {ℓ} :
    {A : Type ℓ} (xs : List A) (y : A) → get_elem? (xs ++ y ∷ []) (length xs) ≡ some y
get_elem?-append_last [] y = refl
get_elem?-append_last (x ∷ xs) y = get_elem?-append_last xs y

probe-is_named :
    (n : ℕ) (slots : List (Option ℕ)) (entries : List EnvEntry) (name : Bytes) (idx i : ℕ)
    → probe n slots entries name idx ≡ some (some i)
    → is_named entries i name ≡ true
unfolding probe
probe-is_named zero slots entries name idx i h = cc
probe-is_named (suc n) slots entries name idx i h = elim (Option-cases (get_or slots idx none)) [
  | inl free ↦ cc (rw (free, probe) at h)
  | inr (k, e) ↦ elim (Bool-cases (is_named entries k name)) [
    | inl hit ↦ let same : k ≡ i = ground arith in rw (← same) hit
    | inr miss ↦
        probe-is_named n slots entries name ((idx + 1) % length slots) i (rw (e, miss, probe) at h)
  ]
]

-- A scan that ends at `i + k` stands at an entry of the name; one that fails has met none.
pub scan-some :
    (entries : List EnvEntry) (i : ℕ) (name : Bytes) (r : ℕ)
    → scan entries i name ≡ some r
    → (k : ℕ) × (r ≡ i + k) × (is_named entries k name ≡ true)
unfolding scan
scan-some [] i name r h = cc
scan-some (e ∷ es) i name r h = elim (Bool-cases (bytes_eq e.name name)) [
  | inl hit ↦ (0, ground arith, hit)
  | inr miss ↦
      let (k, eq, there) = scan-some es (i + 1) name r (rw miss at h) in (suc k, omega arith, there)
]

pub scan-none :
    (entries : List EnvEntry) (i : ℕ) (name : Bytes)
    → scan entries i name ≡ none
    → (k : ℕ) (e : EnvEntry) → get_elem? entries k ≡ some e
    → bytes_eq e.name name ≡ false
unfolding scan
scan-none [] i name h k e at = cc
scan-none (x ∷ es) i name h zero e at = elim (Bool-cases (bytes_eq x.name name)) [
  | inl hit ↦ cc (rw hit at h)
  | inr miss ↦ let same : x ≡ e = cc in rw (← same) miss
]
scan-none (x ∷ es) i name h (suc k) e at = elim (Bool-cases (bytes_eq x.name name)) [
  | inl hit ↦ cc (rw hit at h)
  | inr miss ↦ scan-none es (i + 1) name (rw miss at h) k e at
]

ended-some : (o : Option (Option ℕ)) (i : ℕ) → ended o ≡ some i → o ≡ some (some i)
ended-some none i h = cc
ended-some (some r) i h = ap some h

-- What `env_find_local` finds has the name; where it finds nothing, no entry has.
pub env_find_local-is_named :
    (env : Env) (name : Bytes) (i : ℕ)
    → env_find_local env name ≡ some i
    → is_named env.entries i name ≡ true
unfolding env_find_local env_ht_find env_ht_probe
env_find_local-is_named env name i h = elim (Option-cases (env_ht_find env name)) [
  | inl e ↦
      let (k, eq, there) = scan-some env.entries 0 name i (rw (e, env_find_local) at h) in
      let same : i ≡ k = omega arith in rw same there
  | inr (k, e) ↦ elim (Bool-cases (length env.ht_slots == 0)) [
    | inl empty ↦ cc (rw (empty, env_ht_find, env_ht_probe) at e)
    | inr filled ↦
        let same : k ≡ i = ground arith in
        probe-is_named _ env.ht_slots env.entries name _ i
          (ended-some _ i (rw (filled, same, env_ht_find, env_ht_probe) at e))
  ]
]

pub env_find_local-none :
    (env : Env) (name : Bytes)
    → env_find_local env name ≡ none
    → (k : ℕ) (e : EnvEntry) → get_elem? env.entries k ≡ some e
    → bytes_eq e.name name ≡ false
unfolding env_find_local
env_find_local-none env name h = elim (Option-cases (env_ht_find env name)) [
  | inl e ↦ scan-none env.entries 0 name (rw (e, env_find_local) at h)
  | inr (k, e) ↦ cc (rw (e, env_find_local) at h)
]

-- The entry of the name in one environment.
pub find_local-IsPlace :
    (store : Store) (id : ℕ) (env : Env) (name : Bytes)
    → get_elem? store id ≡ some env
    → IsPlace store (at_index id env (env_find_local env name))
find_local-IsPlace store id env name h = go (env_find_local env name)
  where
    inner :
        (i : ℕ) (o : Option EnvEntry)
        → get_elem? env.entries i ≡ o
        → IsPlace store (at_entry id i o)
    inner i none e = tt
    inner i (some x) e = ap (λ o. entry_of o i) h ∙ e

    go : (o : Option ℕ) → IsPlace store (at_index id env o)
    go none = tt
    go (some i) = inner i (get_elem? env.entries i) refl

abbrev entry_or : EnvEntry → Option Place → EnvEntry
entry_or x none = x
entry_or x (some p) = p.entry

-- The place of an entry that is found has the name, and there is one unless none is found.
pub at_index-some :
    (id : ℕ) (env : Env) (name : Bytes) (p : Place)
    → at_index id env (env_find_local env name) ≡ some p
    → (i : ℕ) × (get_elem? env.entries i ≡ some p.entry) × (bytes_eq p.entry.name name ≡ true)
at_index-some id env name p h = elim (Option-cases (env_find_local env name)) [
  | inl e ↦ cc (ap (at_index id env) e, h)
  | inr (i, e) ↦ elim (Option-cases (get_elem? env.entries i)) [
    | inl e' ↦ cc (ap (at_index id env) e, ap (at_entry id i) e', h)
    | inr (x, e') ↦
        let there = sym (ap (at_index id env) e ∙ ap (at_entry id i) e') ∙ h in
        let same : x ≡ p.entry = ap (entry_or x) there in
        (
          i,
          e' ∙ ap some same,
          ap (λ y. bytes_eq y.name name) (sym same)
              ∙ sym (ap (has_name name) e')
              ∙ env_find_local-is_named env name i e,
        )
  ]
]

pub at_index-none :
    (id : ℕ) (env : Env) (name : Bytes)
    → at_index id env (env_find_local env name) ≡ none
    → env_find_local env name ≡ none
at_index-none id env name h = elim (Option-cases (env_find_local env name)) [
  | inl e ↦ e
  | inr (i, e) ↦ elim (Option-cases (get_elem? env.entries i)) [
    | inl e' ↦ cc (ap (has_name name) e', env_find_local-is_named env name i e)
    | inr (x, e') ↦ cc (ap (at_index id env) e, ap (at_entry id i) e', h)
  ]
]

pub find_place-IsPlace :
    (store : Store) (id : ℕ) (name : Bytes) → IsPlace store (find_place store id name)
find_place-IsPlace store id name = elim (Option-cases (get_elem? store id)) [
  | inl e ↦ rw (e, IsPlace) tt
  | inr (env, e) ↦ rw (e, IsPlace) (find_local-IsPlace store id env name e)
]

entry_rounds-IsPlace :
    (n : ℕ) (store : Store) (id : Option ℕ) (name : Bytes)
    → IsPlace store (entry_rounds n store id name)
unfolding entry_rounds
entry_rounds-IsPlace zero store none name = tt
entry_rounds-IsPlace (suc n) store none name = tt
entry_rounds-IsPlace zero store (some id) name = tt
entry_rounds-IsPlace (suc n) store (some id) name = elim (Option-cases (get_elem? store id)) [
  | inl e ↦ rw (e, IsPlace) tt
  | inr (env, e) ↦ elim (Option-cases (at_index id env (env_find_local env name))) [
    | inl here ↦ rw (e, here, IsPlace) (entry_rounds-IsPlace n store env.parent name)
    | inr (p, here) ↦ rw (e, here, IsPlace) (rw here at (find_local-IsPlace store id env name e))
  ]
]

pub env_get_entry_raw_with_env-IsPlace :
    (store : Store) (id : ℕ) (name : Bytes)
    → IsPlace store (env_get_entry_raw_with_env store id name)
unfolding env_get_entry_raw_with_env
env_get_entry_raw_with_env-IsPlace store id name =
    entry_rounds-IsPlace (length store) store (some id) name

room-entries : (env : Env) → (room env).entries ≡ env.entries
unfolding room env_ht_rebuild
room-entries env = ground arith

grown-entries : (env : Env) → (grown env).entries ≡ env.entries
unfolding grown env_ht_rebuild
grown-entries env = ground arith

-- The entries behind a definition.
pub add_entry-entries :
    (env : Env) (e : EnvEntry) → (add_entry env e).entries ≡ env.entries ++ e ∷ []
unfolding add_entry env_ht_insert
add_entry-entries env e =
    room-entries (record (grown env) { entries = (grown env).entries ++ e ∷ [] })
    ∙ ap (λ es. es ++ e ∷ []) (grown-entries env)
