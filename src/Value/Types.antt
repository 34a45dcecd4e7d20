-- ===== src/Value/Types.antt =====
-- src/ast.h, src/value.c: declared types, and whether a value has one.
use prefix.Base.{ℕ, Bool, true, false, ◌&&◌, not, ◌==◌, if◌then◌else◌}
use prefix.Value.Defs.{Value, null, bool, int, float, str, tensor, map, func, thread}

pub data DeclType : Type 0 where
  type_bool : DeclType
  type_int : DeclType
  type_float : DeclType
  type_str : DeclType
  type_tensor : DeclType
  type_map : DeclType
  type_func : DeclType
  type_thread : DeclType
  type_unknown : DeclType

-- The number of an enumerator.
abbrev number : DeclType → ℕ
number type_bool = 0
number type_int = 1
number type_float = 2
number type_str = 3
number type_tensor = 4
number type_map = 5
number type_func = 6
number type_thread = 7
number type_unknown = 8

unfoldable pub same_type : DeclType → DeclType → Bool
same_type a b = number a == number b

-- TYPE_INT and TYPE_FLOAT
abbrev pub is_number : DeclType → Bool
is_number type_int = true
is_number type_float = true
is_number _ = false

unfoldable pub value_num_base : Value → ℕ
value_num_base (int _ base) = base
value_num_base (float _ base _) = base
value_num_base _ = 0

unfoldable pub value_to_decl_type : Value → DeclType
value_to_decl_type (bool _) = type_bool
value_to_decl_type (int _ _) = type_int
value_to_decl_type (float _ _ _) = type_float
value_to_decl_type (str _) = type_str
value_to_decl_type (tensor _) = type_tensor
value_to_decl_type (map _) = type_map
value_to_decl_type (func _) = type_func
value_to_decl_type (thread _) = type_thread
value_to_decl_type null = type_unknown

-- The bases of two numbers clash.
abbrev clash : ℕ → ℕ → Bool
clash a b = not (a == 0) && (not (b == 0) && not (a == b))

unfoldable pub decl_type_equal : DeclType → ℕ → DeclType → ℕ → Bool
unfolding same_type
decl_type_equal a base_a b base_b =
    if not (same_type a b)
    then false
    else if is_number a && clash base_a base_b
    then false
    else true

unfoldable pub decl_type_accepts_value : DeclType → ℕ → Value → Bool
unfolding same_type
decl_type_accepts_value expected expected_base value =
    let actual = value_to_decl_type value in
    if not (same_type expected actual)
    then false
    else if is_number expected && clash expected_base (value_num_base value)
    then false
    else true
