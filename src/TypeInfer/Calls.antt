-- ===== src/TypeInfer/Calls.antt =====
-- src/typeinfer.rs: `collect_calls` and `collect_calls_stmt`, which gather the types of the arguments
-- that each function of the module is called with.
use fly_lang.Ast.{Expr, Exprs, Maybe, Clauses, Stmt, Stmts, Elifs, Handlers}
use fly_lang.Prelude.{
  Bool, true, false, not, ◌&&◌, if◌then◌else◌, Bytes, List, [], ◌∷◌, Option, none, some,
}
use fly_lang.TypeInfer.Map.{Map, get, insert, get_or, is_some}
use fly_lang.TypeInfer.Types.{Ty, is, merge_type, Tables, expr_type}

-- The fields of `TypeInfer` that are written here. The types of expressions do not read them.
pub record Calls : Type 0 where
  pub param_types : Map (List Ty)
  pub arg_set : Map Bool

-- What is read: the tables, the scope and the name of the function that the calls stand in.
pub record Site : Type 0 where
  pub tables : Tables
  pub scope : Option (Map Ty)
  pub fn_name : Bytes

abbrev arg_type : Site → Expr → Ty
arg_type s e = expr_type s.tables s.scope s.fn_name e

-- The loop over the arguments, with the entry of `arg_set`; a list that is too short has `unknown` at
-- its end, as the loop that pushes writes it.
unfoldable pub merge_args : Site → Exprs → List Ty → Bool → List Ty × Bool
merge_args s Exprs.nil cur seen = (cur, seen)
merge_args s (Exprs.cons a args) cur seen =
    let first = get_or Ty.unknown (head? cur) in
    let at = arg_type s a in
    let fresh = is first Ty.unknown && not seen in
    let (rest, seen') = merge_args s args (tail cur) (if fresh then true else seen) in
    ((if fresh then at else merge_type first at) ∷ rest, seen')
  where
    head? : List Ty → Option Ty
    head? [] = none
    head? (t ∷ ts) = some t

    tail : List Ty → List Ty
    tail [] = []
    tail (t ∷ ts) = ts

abbrev mark_set : Bytes → Bool → Map Bool → Map Bool
mark_set name true m = insert name true m
mark_set name false m = m

-- A call of a function of the module, by its name.
unfoldable pub record_call : Site → Expr → Exprs → Calls → Calls
record_call s (Expr.name _ name) args c =
    if is_some (get s.tables.fn_defs name)
    then (let (types, seen) =
          merge_args s args (get_or [] (get c.param_types name))
            (get_or false (get c.arg_set name)) in
        record {
          param_types = insert name types c.param_types;
          arg_set = mark_set name seen c.arg_set;
        })
    else c
record_call s _ args c = c

-- What gathering from each of a list of expressions does, in their order.
abbrev pub Actions : Type 0
Actions = List (Calls → Calls)

unfoldable pub run_all : Actions → Calls → Calls
run_all [] c = c
run_all (f ∷ fs) c = run_all fs (f c)

-- Each key with its value behind it; a key may have none.
unfoldable pub weave : Actions → Actions → Actions
weave [] vals = []
weave (k ∷ keys) [] = k ∷ weave keys []
weave (k ∷ keys) (v ∷ vals) = k ∷ v ∷ weave keys vals

unfoldable mutual
  pub collect_calls : Site → Expr → Calls → Calls
  collect_calls s (Expr.call _ f args _ _ _) c = run_all (each_call s args) (record_call s f args c)
  collect_calls s (Expr.bin_op _ _ x y) c = collect_calls s y (collect_calls s x c)
  collect_calls s (Expr.unary_op _ _ x) c = collect_calls s x c
  collect_calls s (Expr.bool_op _ _ x y) c = collect_calls s y (collect_calls s x c)
  collect_calls s (Expr.cond _ t x y) c =
      collect_calls s y (collect_calls s x (collect_calls s t c))
  collect_calls s (Expr.attr _ x _) c = collect_calls s x c
  collect_calls s (Expr.subscript _ x index) c = collect_calls s index (collect_calls s x c)
  collect_calls s (Expr.slice _ lo hi step) c =
      maybe_call s step (maybe_call s hi (maybe_call s lo c))
  collect_calls s (Expr.list_lit _ elems) c = run_all (each_call s elems) c
  collect_calls s (Expr.dict_lit _ keys vals) c =
      run_all (weave (each_call s keys) (each_call s vals)) c
  collect_calls s (Expr.set_lit _ elems) c = run_all (each_call s elems) c
  collect_calls s (Expr.list_comp _ elem clauses) c =
      clause_calls s clauses (collect_calls s elem c)
  collect_calls s (Expr.tuple_lit _ elems _) c = run_all (each_call s elems) c
  collect_calls s _ c = c

  pub each_call : Site → Exprs → Actions
  each_call s Exprs.nil = []
  each_call s (Exprs.cons e es) = collect_calls s e ∷ each_call s es

  pub maybe_call : Site → Maybe → Calls → Calls
  maybe_call s Maybe.absent c = c
  maybe_call s (Maybe.present e) c = collect_calls s e c

  pub clause_calls : Site → Clauses → Calls → Calls
  clause_calls s Clauses.no_clauses c = c
  clause_calls s (Clauses.clause _ it ifs clauses) c =
      clause_calls s clauses (run_all (each_call s ifs) (collect_calls s it c))

-- `collect_calls_stmt`. The `else` of a loop is not visited, nor are the `else` and the `finally` of a
-- `try`.
unfoldable mutual
  pub stmt_calls : Site → Stmt → Calls → Calls
  stmt_calls s (Stmt.expr_stmt _ x) c = collect_calls s x c
  stmt_calls s (Stmt.assign _ left _ right) c = run_all (each_call s left) (collect_calls s right c)
  stmt_calls s (Stmt.return _ value) c = maybe_call s value c
  stmt_calls s (Stmt.if_ _ t then_ elifs els) c =
      stmts_calls s els (stmts_calls s then_ (collect_calls s t (elifs_calls s elifs c)))
  stmt_calls s (Stmt.for _ _ it body _) c = stmts_calls s body (collect_calls s it c)
  stmt_calls s (Stmt.while _ t body _) c = stmts_calls s body (collect_calls s t c)
  stmt_calls s (Stmt.try _ body handlers _ _) c = handlers_calls s handlers (stmts_calls s body c)
  stmt_calls s _ c = c

  pub stmts_calls : Site → Stmts → Calls → Calls
  stmts_calls s Stmts.done c = c
  stmts_calls s (Stmts.stmt st sts) c = stmts_calls s sts (stmt_calls s st c)

  pub elifs_calls : Site → Elifs → Calls → Calls
  elifs_calls s Elifs.no_elifs c = c
  elifs_calls s (Elifs.elif_clause _ t body elifs) c =
      elifs_calls s elifs (stmts_calls s body (collect_calls s t c))

  pub handlers_calls : Site → Handlers → Calls → Calls
  handlers_calls s Handlers.no_handlers c = c
  handlers_calls s (Handlers.handler _ _ _ body hs) c = handlers_calls s hs (stmts_calls s body c)
