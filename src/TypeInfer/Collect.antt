-- ===== src/TypeInfer/Collect.antt =====
-- src/typeinfer.rs: `set_type` and `collect_stmts`, which fill the scope of a function from its body.
use fly_lang.Ast.{Expr, Exprs, Maybe, Stmt, Stmts, Elifs, Handlers}
use fly_lang.Prelude.{◌==◌, bytes_eq, if◌then◌else◌, Bytes, utf8, [], ◌∷◌, Option, none, some}
use fly_lang.TypeInfer.Map.{Map, get, insert, get_or}
use fly_lang.TypeInfer.Types.{Ty, merge_type, Tables, expr_type, bin_op_type, iter_elem_type}

abbrev pub set_over : Bytes → Ty → Map Ty → Option Ty → Map Ty
set_over name ty m (some cur) = insert name (merge_type cur ty) m
set_over name ty m none = insert name ty m

unfoldable pub set_type : Map Ty → Bytes → Ty → Map Ty
set_type m name ty = set_over name ty m (get m name)

-- The operator of an assignment, without its last byte where that is `=` and there is another.
unfoldable pub trim_aug : Bytes → Bytes
trim_aug [] = []
trim_aug (c ∷ []) = c ∷ []
trim_aug (c ∷ d ∷ []) = if d == b'=' then c ∷ [] else c ∷ d ∷ []
trim_aug (c ∷ d ∷ e ∷ cs) = c ∷ trim_aug (d ∷ e ∷ cs)

-- The tables, of which only `ret_types` changes here, and the scope that is filled.
pub record Scan : Type 0 where
  pub tables : Tables
  pub scope : Map Ty

abbrev typed : Bytes → Scan → Expr → Ty
typed fn_name s e = expr_type s.tables (some s.scope) fn_name e

abbrev pub set_in : Bytes → Ty → Scan → Scan
set_in name ty s = record s { scope = set_type s.scope name ty }

-- The type that an assignment gives to a variable.
abbrev assigned : Bytes → Bytes → Bytes → Expr → Scan → Ty
assigned fn_name name op right s =
    let rt = typed fn_name s right in
    if bytes_eq op (utf8 "=")
    then rt
    else bin_op_type (trim_aug op) (get_or Ty.unknown (get s.scope name)) rt

abbrev pub collect_assign : Bytes → Exprs → Bytes → Expr → Scan → Scan
collect_assign fn_name (Exprs.cons (Expr.name _ name) Exprs.nil) op right s =
    set_in name (assigned fn_name name op right s) s
collect_assign fn_name _ op right s = s

abbrev pub collect_target : Bytes → Expr → Expr → Scan → Scan
collect_target fn_name (Expr.name _ name) it s =
    set_in name (iter_elem_type s.tables (some s.scope) fn_name it) s
collect_target fn_name _ it s = s

-- `set_type` of the function's result.
abbrev pub collect_return : Bytes → Maybe → Scan → Scan
collect_return fn_name Maybe.absent s = s
collect_return fn_name (Maybe.present v) s = record s {
  tables = record s.tables { ret_types = set_type s.tables.ret_types fn_name (typed fn_name s v) };
}

-- An empty `else` or `finally` changes nothing, so it is not told apart.
unfoldable mutual
  pub collect_stmt : Bytes → Stmt → Scan → Scan
  collect_stmt fn_name (Stmt.assign _ left op right) s = collect_assign fn_name left op right s
  collect_stmt fn_name (Stmt.for _ target it body els) s =
      collect_stmts fn_name els (collect_stmts fn_name body (collect_target fn_name target it s))
  collect_stmt fn_name (Stmt.while _ c body els) s =
      collect_stmts fn_name els (collect_stmts fn_name body s)
  collect_stmt fn_name (Stmt.if_ _ c then_ elifs els) s =
      collect_stmts fn_name els (collect_stmts fn_name then_ (collect_elifs fn_name elifs s))
  collect_stmt fn_name (Stmt.try _ body handlers els finally) s =
      collect_stmts fn_name finally (
        collect_stmts fn_name els
          (collect_handlers fn_name handlers (collect_stmts fn_name body s)))
  collect_stmt fn_name (Stmt.return _ value) s = collect_return fn_name value s
  collect_stmt fn_name _ s = s

  pub collect_stmts : Bytes → Stmts → Scan → Scan
  collect_stmts fn_name Stmts.done s = s
  collect_stmts fn_name (Stmts.stmt st sts) s =
      collect_stmts fn_name sts (collect_stmt fn_name st s)

  pub collect_elifs : Bytes → Elifs → Scan → Scan
  collect_elifs fn_name Elifs.no_elifs s = s
  collect_elifs fn_name (Elifs.elif_clause _ c body elifs) s =
      collect_elifs fn_name elifs (collect_stmts fn_name body s)

  pub collect_handlers : Bytes → Handlers → Scan → Scan
  collect_handlers fn_name Handlers.no_handlers s = s
  collect_handlers fn_name (Handlers.handler _ ty n body hs) s =
      collect_handlers fn_name hs (collect_stmts fn_name body s)
