-- ===== src/TypeInfer/Rounds.antt =====
-- src/typeinfer.rs: `TypeInfer::new`, `run` and `run_round`.
use fly_lang.Ast.{Stmt, Stmts, Param}
use fly_lang.Prelude.{
  ℕ, zero, suc, Bool, true, false, ◌==◌, ltb, if◌then◌else◌, Bytes, List, [], ◌∷◌, none, some,
}
use fly_lang.TypeInfer.Calls.{Calls, Site, stmts_calls}
use fly_lang.TypeInfer.Collect.{Scan, collect_stmts}
use fly_lang.TypeInfer.Map.{Map, get, insert, get_or}
use fly_lang.TypeInfer.Types.{Ty, is, merge_type, FnDef, Tables}

-- `TypeInfer` of the source, with the fields that types of expressions read in `tables` and those that
-- gathering calls writes in `calls`.
pub record TypeInfer : Type 0 where
  pub stmts : Stmts
  pub tables : Tables
  pub calls : Calls

-- The functions of the module and of its classes; a later one of the same name takes the place.
unfoldable mutual
  pub walk : Stmts → Map FnDef → Map FnDef
  walk Stmts.done m = m
  walk (Stmts.stmt s ss) m = walk ss (walk_stmt s m)

  pub walk_stmt : Stmt → Map FnDef → Map FnDef
  walk_stmt (Stmt.func_def _ name params _ body _) m = insert name (params, body) m
  walk_stmt (Stmt.class_def _ _ _ body _ _) m = walk body m
  walk_stmt _ m = m

unfoldable pub new : Stmts → TypeInfer
new stmts = record {
  stmts = stmts;
  tables = record { module_vars = []; fn_vars = []; ret_types = []; fn_defs = walk stmts [] };
  calls = record { param_types = []; arg_set = [] };
}

-- The entries that are `unknown`.
unfoldable pub kept : Map Ty → Map Ty
kept [] = []
kept ((k, v) ∷ m) = let rest = kept m in if is v Ty.unknown then (k, v) ∷ rest else rest

-- Where a round starts on the statements of the module: its variables are taken out of the tables.
abbrev pub module_start : TypeInfer → Scan
module_start ti = record {
  tables = record ti.tables { module_vars = [] };
  scope = kept ti.tables.module_vars;
}

-- The half of a round that reads the statements of the module.
unfoldable pub module_round : TypeInfer → TypeInfer
module_round ti =
    let after = collect_stmts [] ti.stmts (module_start ti) in
    let site : Site = record { tables = after.tables; scope = some after.scope; fn_name = [] } in
    record ti {
      tables = record after.tables { module_vars = after.scope };
      calls = stmts_calls site ti.stmts ti.calls;
    }

-- The parameters that have a name and a type.
unfoldable pub bind_params : List Param → List Ty → Map Ty → Map Ty
bind_params [] ts m = m
bind_params (p ∷ ps) [] m = m
bind_params (p ∷ ps) (t ∷ ts) m =
    bind_params ps ts (elim p.name [ [] ↦ m | c ∷ cs ↦ insert (c ∷ cs) t m ])

-- Each type, merged with the one of the round before.
unfoldable pub merge_scope : Map Ty → Map Ty → Map Ty
merge_scope prev [] = []
merge_scope prev ((k, v) ∷ m) =
    (k, elim (get prev k) [ none ↦ v | some pv ↦ merge_type pv v ]) ∷ merge_scope prev m

-- What a round does with one function.
unfoldable pub fn_round : Bytes → FnDef → TypeInfer → TypeInfer
fn_round name f ti =
    let params = get_or [] (get ti.calls.param_types name) in
    let prev = get_or [] (get ti.tables.fn_vars name) in
    let before : Scan = record {
      tables = record ti.tables { fn_vars = insert name (kept prev) ti.tables.fn_vars };
      scope = bind_params f.0 params [];
    } in
    let after = collect_stmts name f.1 before in
    let merged = merge_scope prev after.scope in
    let tables = record after.tables { fn_vars = insert name merged after.tables.fn_vars } in
    let site : Site = record { tables = tables; scope = some merged; fn_name = name } in
    record ti { tables = tables; calls = stmts_calls site f.1 ti.calls }

-- The order of strings, by their bytes.
unfoldable pub bytes_lt : Bytes → Bytes → Bool
bytes_lt [] [] = false
bytes_lt [] (y ∷ ys) = true
bytes_lt (x ∷ xs) [] = false
bytes_lt (x ∷ xs) (y ∷ ys) = let rest = bytes_lt xs ys in if x == y then rest else ltb x y

abbrev place : (Bytes × FnDef) → Map FnDef → Map FnDef
place f [] = f ∷ []
place f (g ∷ gs) = let rest = place f gs in if bytes_lt g.0 f.0 then g ∷ rest else f ∷ g ∷ gs

-- `names.sort()`, of the functions with their names.
unfoldable pub by_name : Map FnDef → Map FnDef
by_name [] = []
by_name (f ∷ fs) = place f (by_name fs)

unfoldable pub fn_rounds : Map FnDef → TypeInfer → TypeInfer
fn_rounds [] ti = ti
fn_rounds ((name, f) ∷ fs) ti = fn_rounds fs (fn_round name f ti)

unfoldable pub run_round : TypeInfer → TypeInfer
run_round ti = fn_rounds (by_name ti.tables.fn_defs) (module_round ti)

unfoldable pub rounds : ℕ → TypeInfer → TypeInfer
rounds zero ti = ti
rounds (suc n) ti = rounds n (run_round ti)

unfoldable pub run : TypeInfer → TypeInfer
run ti = rounds 5 ti
