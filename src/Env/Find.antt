-- ===== src/Env/Find.antt =====
-- src/env.c: the hash table and the linear scan of one environment.
use prefix.Base.{
  ℕ, zero, suc, true, false, none, some, List, [], ◌∷◌, ◌++◌, ◌≡◌, refl, sym, ◌∙◌, ap, arith,
  length, get_elem?, Bytes, bytes_eq, bytes_eq_iff, Option-cases, ◌⊎◌, inl, inr,
}
use prefix.Env.Places.{
  add_entry-entries, env_find_local-is_named, env_find_local-none, scan-some, scan-none,
}
use prefix.Env.Slots.{IsRoomy, env_ht_probe-IsRoomy}
use prefix.Env.Table.{
  EnvEntry, Env, has_name, is_named, scan, env_ht_probe, env_ht_find, env_find_local, add_entry,
}

-- No name is declared twice.
unfoldable pub IsUnique : Env → Type 0
IsUnique env =
    (i j : ℕ) (name : Bytes)
    → is_named env.entries i name ≡ true
    → is_named env.entries j name ≡ true
    → i ≡ j

not_named :
    (entries : List EnvEntry) (name : Bytes) (i : ℕ)
    → ((k : ℕ) (e : EnvEntry) → get_elem? entries k ≡ some e → bytes_eq e.name name ≡ false)
    → is_named entries i name ≡ false
not_named entries name i h = elim (Option-cases (get_elem? entries i)) [
  | inl e ↦ ap (has_name name) e
  | inr (x, e) ↦ ap (has_name name) e ∙ h i x e
]

-- An entry of the name behind an addition is an old one, or the last.
is_named-append :
    (es : List EnvEntry) (e : EnvEntry) (i : ℕ) (name : Bytes)
    → is_named (es ++ e ∷ []) i name ≡ true
    → (is_named es i name ≡ true) ⊎ ((i ≡ length es) × (bytes_eq e.name name ≡ true))
is_named-append [] e zero name h = inr (refl, h)
is_named-append [] e (suc i) name h = cc
is_named-append (x ∷ es) e zero name h = inl h
is_named-append (x ∷ es) e (suc i) name h = elim (is_named-append es e i name h) [
  | inl old ↦ inl old
  | inr (at, named) ↦ inr (ap suc at, named)
]

-- A name that `env_define_direct` finds undeclared is declared once.
pub add_entry-IsUnique :
    (env : Env) (e : EnvEntry)
    → IsUnique env
    → env_find_local env e.name ≡ none
    → IsUnique (add_entry env e)
unfolding IsUnique
add_entry-IsUnique env e unique absent i j name at_i at_j =
    let missing = not_named env.entries e.name in
    let clash : (k : ℕ) → is_named env.entries k name ≡ true → bytes_eq e.name name ≡ true → i ≡ j =
      λ k old same.
        let eq : e.name ≡ name = (bytes_eq_iff e.name name).0 same in
        let old' : is_named env.entries k e.name ≡ true = ap (is_named env.entries k) eq ∙ old in
        cc (old', missing k (env_find_local-none env e.name absent)) in
    elim (is_named-append env.entries e i name
      (ap (λ es. is_named es i name) (sym (add_entry-entries env e)) ∙ at_i)) [
        | inl old_i ↦
            elim (is_named-append env.entries e j name
              (ap (λ es. is_named es j name) (sym (add_entry-entries env e)) ∙ at_j)) [
                | inl old_j ↦ unique i j name old_i old_j
                | inr (_, new_j) ↦ clash i old_i new_j
              ]
        | inr (last_i, new_i) ↦
            elim (is_named-append env.entries e j name
              (ap (λ es. is_named es j name) (sym (add_entry-entries env e)) ∙ at_j)) [
                | inl old_j ↦ clash j old_j new_i
                | inr (last_j, _) ↦ last_i ∙ sym last_j
              ]
      ]

same_as_scan :
    (env : Env) (name : Bytes) → IsUnique env → env_find_local env name ≡ scan env.entries 0 name
unfolding IsUnique
same_as_scan env name unique = elim (Option-cases (env_find_local env name)) [
  | inl e ↦ elim (Option-cases (scan env.entries 0 name)) [
    | inl e' ↦ e ∙ sym e'
    | inr (k, e') ↦
        let (j, at, there) = scan-some env.entries 0 name k e' in
        cc (there, not_named env.entries name j (env_find_local-none env name e))
  ]
  | inr (i, e) ↦ elim (Option-cases (scan env.entries 0 name)) [
    | inl e' ↦ cc (
      env_find_local-is_named env name i e,
      not_named env.entries name i (scan-none env.entries 0 name e'),
    )
    | inr (k, e') ↦
        let (j, at, there) = scan-some env.entries 0 name k e' in
        let same = unique i j name (env_find_local-is_named env name i e) there in
        e ∙ ap some (omega arith) ∙ sym e'
  ]
]

-- Where no name is declared twice, and the table has a free slot or no slots, the loop of
-- `env_ht_find` comes to its end, and `env_find_local` then finds what a linear scan of the entries
-- finds, whatever the other slots hold.
pub env_find_local-scan :
    (env : Env) (name : Bytes)
    → IsUnique env
    → IsRoomy env
    → (env_ht_probe env name ≡ some (env_ht_find env name))
      × (env_find_local env name ≡ scan env.entries 0 name)
env_find_local-scan env name unique roomy =
    (env_ht_probe-IsRoomy env name roomy, same_as_scan env name unique)
