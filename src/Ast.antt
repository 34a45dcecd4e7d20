-- ===== src/Ast.antt =====
-- src/ast.h, src/ast.c: syntax trees and the functions that build them.
use prefix.Base.{ℕ, Bool, Option, none, Bytes}
use prefix.Base.Int.{ℤ}
use prefix.Value.Types.{DeclType}

-- A pointer that may be NULL is an option. A list is grown at its end. A float is its 64 bits.
mutual
  pub data Expr : Type 0 where
    expr : ℕ → ℤ → ExprNode → Expr

  pub data ExprNode : Type 0 where
    bool_value : Bool → ExprNode
    int_value : ℤ → ℕ → ExprNode
    flt_value : ℕ → ℕ → Bool → ExprNode
    str_value : Option Bytes → ExprNode
    ptr_name : Option Bytes → ExprNode
    ident : Option Bytes → ExprNode
    typed_ident : DeclType → ℕ → Option Bytes → SomeExpr → ExprNode
    call : Expr → ExprList → KwArgs → ExprNode
    async_block : Stmt → ExprNode
    tns_items : ExprList → ExprNode
    map_items : ExprList → ExprList → ExprNode
    index : Expr → ExprList → Bool → ExprNode
    range : Expr → Expr → ExprNode
    wildcard : ExprNode
    lambda : ParamList → DeclType → ℕ → SomeExpr → Stmt → ExprNode
    fmt_str : ExprList → ExprNode

  pub data SomeExpr : Type 0 where
    no_expr : SomeExpr
    an_expr : Expr → SomeExpr

  pub data ExprList : Type 0 where
    no_exprs : ExprList
    exprs : Expr → ExprList → ExprList

  -- `kw_names` with `kw_args`
  pub data KwArgs : Type 0 where
    no_kw : KwArgs
    kw_arg : Option Bytes → Expr → KwArgs → KwArgs

  -- type, num_base, name, coerced, default_value, schema_expr
  pub data Param : Type 0 where
    param : DeclType → ℕ → Option Bytes → Bool → SomeExpr → SomeExpr → Param

  pub data ParamList : Type 0 where
    no_params : ParamList
    params : Param → ParamList → ParamList

  -- line, column, src_text
  pub data Stmt : Type 0 where
    stmt : ℕ → ℤ → Option Bytes → StmtNode → Stmt

  pub data StmtNode : Type 0 where
    block : StmtList → StmtNode
    async_stmt : Stmt → StmtNode
    expr_stmt : Expr → StmtNode
    assign : Bool → DeclType → ℕ → Option Bytes → SomeExpr → Expr → SomeExpr → StmtNode
    decl : DeclType → ℕ → Option Bytes → SomeExpr → StmtNode
    if_stmt : Expr → Stmt → ExprList → StmtList → SomeStmt → StmtNode
    while_stmt : Expr → Stmt → StmtNode
    for_stmt : Option Bytes → Expr → Stmt → StmtNode
    parfor_stmt : Option Bytes → Expr → Stmt → StmtNode
    func_stmt : Option Bytes → ParamList → DeclType → ℕ → SomeExpr → Stmt → StmtNode
    return_stmt : Expr → StmtNode
    break_stmt : Expr → StmtNode
    continue_stmt : StmtNode
    thread_stmt : Option Bytes → Stmt → StmtNode
    pop_stmt : Expr → StmtNode
    try_stmt : Stmt → Option Bytes → Stmt → StmtNode
    goto_stmt : Expr → StmtNode
    gotopoint_stmt : Expr → StmtNode

  pub data SomeStmt : Type 0 where
    no_stmt : SomeStmt
    a_stmt : Stmt → SomeStmt

  pub data StmtList : Type 0 where
    no_stmts : StmtList
    stmts : Stmt → StmtList → StmtList

abbrev pub expr_bool : Bool → ℕ → ℤ → Expr
expr_bool value line column = expr line column (bool_value value)

abbrev pub expr_int : ℤ → ℕ → ℕ → ℤ → Expr
expr_int value base line column = expr line column (int_value value base)

abbrev pub expr_float : ℕ → ℕ → Bool → ℕ → ℤ → Expr
expr_float value base base_is_nan line column = expr line column (flt_value value base base_is_nan)

abbrev pub expr_str : Option Bytes → ℕ → ℤ → Expr
expr_str value line column = expr line column (str_value value)

abbrev pub expr_ptr : Option Bytes → ℕ → ℤ → Expr
expr_ptr name line column = expr line column (ptr_name name)

abbrev pub expr_ident : Option Bytes → ℕ → ℤ → Expr
expr_ident name line column = expr line column (ident name)

abbrev pub expr_typed_ident : DeclType → ℕ → Option Bytes → SomeExpr → ℕ → ℤ → Expr
expr_typed_ident decl_type decl_base name schema line column =
    expr line column (typed_ident decl_type decl_base name schema)

abbrev pub expr_call : Expr → ℕ → ℤ → Expr
expr_call callee line column = expr line column (call callee no_exprs no_kw)

abbrev pub expr_async : Stmt → ℕ → ℤ → Expr
expr_async body line column = expr line column (async_block body)

abbrev pub expr_tensor : ℕ → ℤ → Expr
expr_tensor line column = expr line column (tns_items no_exprs)

abbrev pub expr_map : ℕ → ℤ → Expr
expr_map line column = expr line column (map_items no_exprs no_exprs)

abbrev pub expr_index : Expr → ℕ → ℤ → Bool → Expr
expr_index target line column is_map = expr line column (index target no_exprs is_map)

abbrev pub expr_range : Expr → Expr → ℕ → ℤ → Expr
expr_range start end line column = expr line column (range start end)

abbrev pub expr_wildcard : ℕ → ℤ → Expr
expr_wildcard line column = expr line column wildcard

abbrev pub expr_lambda : ParamList → DeclType → ℕ → SomeExpr → Stmt → ℕ → ℤ → Expr
expr_lambda ps return_type return_base schema body line column =
    expr line column (lambda ps return_type return_base schema body)

abbrev pub expr_fmt_str : ExprList → ℕ → ℤ → Expr
expr_fmt_str parts line column = expr line column (fmt_str parts)

abbrev pub stmt_block : ℕ → ℤ → Stmt
stmt_block line column = stmt line column none (block no_stmts)

abbrev pub stmt_async : Stmt → ℕ → ℤ → Stmt
stmt_async body line column = stmt line column none (async_stmt body)

abbrev pub stmt_expr : Expr → ℕ → ℤ → Stmt
stmt_expr e line column = stmt line column none (expr_stmt e)

abbrev pub stmt_assign :
    Bool → DeclType → ℕ → Option Bytes → SomeExpr → Expr → SomeExpr → ℕ → ℤ → Stmt
stmt_assign has_type decl_type decl_base name target value schema line column =
    stmt line column none (assign has_type decl_type decl_base name target value schema)

abbrev pub stmt_decl : DeclType → ℕ → Option Bytes → SomeExpr → ℕ → ℤ → Stmt
stmt_decl decl_type decl_base name schema line column =
    stmt line column none (decl decl_type decl_base name schema)

abbrev pub stmt_if : Expr → Stmt → ℕ → ℤ → Stmt
stmt_if cond then_branch line column =
    stmt line column none (if_stmt cond then_branch no_exprs no_stmts no_stmt)

abbrev pub stmt_while : Expr → Stmt → ℕ → ℤ → Stmt
stmt_while cond body line column = stmt line column none (while_stmt cond body)

abbrev pub stmt_for : Option Bytes → Expr → Stmt → ℕ → ℤ → Stmt
stmt_for counter target body line column = stmt line column none (for_stmt counter target body)

abbrev pub stmt_parfor : Option Bytes → Expr → Stmt → ℕ → ℤ → Stmt
stmt_parfor counter target body line column =
    stmt line column none (parfor_stmt counter target body)

abbrev pub stmt_func : Option Bytes → DeclType → ℕ → SomeExpr → Stmt → ℕ → ℤ → Stmt
stmt_func name ret return_base schema body line column =
    stmt line column none (func_stmt name no_params ret return_base schema body)

abbrev pub stmt_return : Expr → ℕ → ℤ → Stmt
stmt_return value line column = stmt line column none (return_stmt value)

abbrev pub stmt_pop : Expr → ℕ → ℤ → Stmt
stmt_pop e line column = stmt line column none (pop_stmt e)

abbrev pub stmt_break : Expr → ℕ → ℤ → Stmt
stmt_break value line column = stmt line column none (break_stmt value)

abbrev pub stmt_continue : ℕ → ℤ → Stmt
stmt_continue line column = stmt line column none continue_stmt

abbrev pub stmt_thread : Option Bytes → Stmt → ℕ → ℤ → Stmt
stmt_thread name body line column = stmt line column none (thread_stmt name body)

abbrev pub stmt_try : Stmt → Option Bytes → Stmt → ℕ → ℤ → Stmt
stmt_try try_block catch_name catch_block line column =
    stmt line column none (try_stmt try_block catch_name catch_block)

abbrev pub stmt_goto : Expr → ℕ → ℤ → Stmt
stmt_goto target line column = stmt line column none (goto_stmt target)

abbrev pub stmt_gotopoint : Expr → ℕ → ℤ → Stmt
stmt_gotopoint target line column = stmt line column none (gotopoint_stmt target)

unfoldable pub expr_list_add : ExprList → Expr → ExprList
expr_list_add no_exprs e = exprs e no_exprs
expr_list_add (exprs d rest) e = exprs d (expr_list_add rest e)

unfoldable pub stmt_list_add : StmtList → Stmt → StmtList
stmt_list_add no_stmts s = stmts s no_stmts
stmt_list_add (stmts t rest) s = stmts t (stmt_list_add rest s)

unfoldable pub param_list_add : ParamList → Param → ParamList
param_list_add no_params p = params p no_params
param_list_add (params q rest) p = params q (param_list_add rest p)

unfoldable pub kw_add : KwArgs → Option Bytes → Expr → KwArgs
kw_add no_kw name value = kw_arg name value no_kw
kw_add (kw_arg n v rest) name value = kw_arg n v (kw_add rest name value)

unfoldable pub stmt_set_src : Stmt → Option Bytes → Stmt
stmt_set_src (stmt line column _ node) src = stmt line column src node

abbrev pub expr_line : Expr → ℕ
expr_line (expr line _ _) = line

abbrev pub expr_column : Expr → ℤ
expr_column (expr _ column _) = column

abbrev pub line_of_stmt : Stmt → ℕ
line_of_stmt (stmt line _ _ _) = line
