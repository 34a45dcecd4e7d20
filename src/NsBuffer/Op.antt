-- ===== src/NsBuffer/Op.antt =====
-- src/ns_buffer.h, src/ns_buffer.c: an operation in the buffer of pending writes, and its execution.
use prefix.Base.{ℕ, Bool, true, false, Option, none, some, [], Bytes}
use prefix.Env.Store.{Store}
use prefix.Env.Write.{
  env_define_direct, env_assign_direct, env_delete_direct, env_set_alias_direct,
  env_restore_local_direct, env_freeze_direct, env_thaw_direct, env_permafreeze_direct,
  FreezeResult, done,
}
use prefix.Map.Schema.{Maps}
use prefix.Value.{Value, null}
use prefix.Value.Types.{DeclType, type_bool}

pub data NsOpType : Type 0 where
  ns_op_define : NsOpType
  ns_op_assign : NsOpType
  ns_op_index_assign : NsOpType
  ns_op_delete : NsOpType
  ns_op_alias : NsOpType
  ns_op_restore : NsOpType
  ns_op_freeze : NsOpType
  ns_op_thaw : NsOpType
  ns_op_permafreeze : NsOpType

-- `id` stands for the address of the block. The expression of an indexed assignment is the address
-- of its node.
pub record NsOp : Type 0 where
  pub id : ℕ
  pub op : NsOpType
  pub env : ℕ
  pub name : Bytes
  pub value : Value
  pub decl_type : DeclType
  pub decl_base : ℕ
  pub declare_if_missing : Bool
  pub target_name : Bytes
  pub index_expr : ℕ
  pub stmt_line : ℕ
  pub stmt_col : ℕ
  pub schema : Value

-- The fields that `execute_op` fills in.
pub record OpResult : Type 0 where
  pub result_ok : Bool
  pub result_int : FreezeResult
  pub error_message : Option Bytes
  pub error_line : ℕ
  pub error_col : ℕ

-- What `assign_index_chain` of src/interpreter.c returns, here for any such function.
pub record IndexResult : Type 0 where
  pub is_ok : Bool
  pub error : Option Bytes
  pub line : ℕ
  pub column : ℕ

abbrev pub AssignIndexChain : Type 0
AssignIndexChain = ℕ → ℕ → Value → ℕ → ℕ → Store → IndexResult × Store

-- `ns_alloc` clears the block.
abbrev pub no_result : OpResult
no_result = record {
  result_ok = false;
  result_int = done;
  error_message = none;
  error_line = 0;
  error_col = 0;
}

abbrev pub ok_result : Bool × Store → OpResult × Store
ok_result (b, s) = (record no_result { result_ok = b }, s)

abbrev pub int_result : FreezeResult × Store → OpResult × Store
int_result (r, s) = (record no_result { result_int = r }, s)

-- The message and its place are taken over where there is a message of a failure.
abbrev pub index_result : IndexResult × Store → OpResult × Store
index_result (r, s) = (
  elim r.is_ok as (λ _. OpResult) [
    | true ↦ record no_result { result_ok = true }
    | false ↦ elim r.error as (λ _. OpResult) [
      | none ↦ no_result
      | some text ↦ record no_result {
        error_message = some text;
        error_line = r.line;
        error_col = r.column;
      }
    ]
  ],
  s,
)

module _ (maps : Maps) (assign_index_chain : AssignIndexChain) where
  execute : NsOpType → NsOp → Store → OpResult × Store
  execute ns_op_define op s =
      ok_result (env_define_direct s op.env op.name op.decl_type op.decl_base op.schema)
  execute ns_op_assign op s = ok_result (
      env_assign_direct maps s op.env op.name op.value op.decl_type op.decl_base
        op.declare_if_missing)
  execute ns_op_index_assign op s =
      index_result (assign_index_chain op.env op.index_expr op.value op.stmt_line op.stmt_col s)
  execute ns_op_delete op s = ok_result (env_delete_direct s op.env op.name)
  execute ns_op_alias op s = ok_result (
      env_set_alias_direct s op.env op.name op.target_name op.decl_type op.decl_base
        op.declare_if_missing)
  execute ns_op_restore op s = ok_result (
      env_restore_local_direct s op.env op.name op.value op.decl_type op.decl_base
        op.declare_if_missing)
  execute ns_op_freeze op s = int_result (env_freeze_direct s op.env op.name)
  execute ns_op_thaw op s = int_result (env_thaw_direct s op.env op.name)
  execute ns_op_permafreeze op s = int_result (env_permafreeze_direct s op.env op.name)

  unfoldable pub execute_op : NsOp → Store → OpResult × Store
  unfolding execute
  execute_op op s = execute op.op op s

-- A cleared block with the address `id`.
unfoldable pub make_op : ℕ → NsOpType → ℕ → Bytes → NsOp
make_op id type env name = record {
  id = id;
  op = type;
  env = env;
  name = name;
  value = null;
  decl_type = type_bool;
  decl_base = 0;
  declare_if_missing = false;
  target_name = [];
  index_expr = 0;
  stmt_line = 0;
  stmt_col = 0;
  schema = null;
}

-- The operations that the entry points put into the queue.
module _ (id env : ℕ) (name : Bytes) where
  unfoldable pub ns_buffer_define : DeclType → ℕ → Value → NsOp
  unfolding make_op
  ns_buffer_define type base schema = record (make_op id ns_op_define env name) {
    decl_type = type;
    decl_base = base;
    schema = schema;
  }

  unfoldable pub ns_buffer_assign : Value → DeclType → ℕ → Bool → NsOp
  unfolding make_op
  ns_buffer_assign value type type_base declare_if_missing =
      record (make_op id ns_op_assign env name) {
        value = value;
        decl_type = type;
        decl_base = type_base;
        declare_if_missing = declare_if_missing;
      }

  unfoldable pub ns_buffer_delete : NsOp
  unfolding make_op
  ns_buffer_delete = make_op id ns_op_delete env name

  unfoldable pub ns_buffer_set_alias : Bytes → DeclType → ℕ → Bool → NsOp
  unfolding make_op
  ns_buffer_set_alias target_name type type_base declare_if_missing =
      record (make_op id ns_op_alias env name) {
        target_name = target_name;
        decl_type = type;
        decl_base = type_base;
        declare_if_missing = declare_if_missing;
      }

  -- `initialized` travels in `declare_if_missing`.
  unfoldable pub ns_buffer_restore_local : Value → DeclType → ℕ → Bool → NsOp
  unfolding make_op
  ns_buffer_restore_local value type type_base initialized =
      record (make_op id ns_op_restore env name) {
        value = value;
        decl_type = type;
        decl_base = type_base;
        declare_if_missing = initialized;
      }

  unfoldable pub ns_buffer_freeze : NsOp
  unfolding make_op
  ns_buffer_freeze = make_op id ns_op_freeze env name

  unfoldable pub ns_buffer_thaw : NsOp
  unfolding make_op
  ns_buffer_thaw = make_op id ns_op_thaw env name

  unfoldable pub ns_buffer_permafreeze : NsOp
  unfolding make_op
  ns_buffer_permafreeze = make_op id ns_op_permafreeze env name
