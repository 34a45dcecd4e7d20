-- ===== src/Map/Schema.antt =====
-- src/value.c: a map against a map schema.
use prefix.Base.{
  ℕ, Bool, true, false, not, none, some, List, [], ◌∷◌, if◌then◌else◌, bytes_eq, codes,
}
use prefix.Map.Table.{MapEntry, Map, map_find_index}
use prefix.Value.{Value, str, map}

-- The maps by their address.
abbrev pub Maps : Type 0
Maps = ℕ → Map Value

-- `value_map_get_locked` sets `*found`.
is_found : Map Value → Value → Bool
is_found m key = elim (map_find_index m key) as (λ _. Bool) [ some _ ↦ true | none ↦ false ]

-- An item "validate" of the schema that holds a map is no key of the values.
is_validate : Value → Value → Bool
is_validate (str s) (map _) = bytes_eq s (codes "validate")
is_validate _ _ = false

has_keys : Map Value → List (MapEntry Value) → Bool
unfolding is_found is_validate
has_keys m [] = true
has_keys m (e ∷ es) =
    let rest = has_keys m es in
    if is_validate e.key e.value then rest else if not (is_found m e.key) then false else rest

unfoldable pub value_map_matches : Maps → Value → Value → Bool
unfolding has_keys
value_map_matches maps (map m) (map templ) = has_keys (maps m) (maps templ).items
value_map_matches maps _ _ = false
