-- ===== src/Tests/Inference.antt =====
-- Runs of the type inference and of the measures.
use fly_lang.Analyze.Counts.{analyze-counts, func_def-measured}
use fly_lang.Analyze.Points.{in_stmts, in_defaults, all_deepest, max2}
use fly_lang.Analyze.Visit.{FuncMetric, default}
use fly_lang.Analyze.Walk.{analyze, stmt}
use fly_lang.Ast.{Expr, Exprs, Maybe, Stmt, Stmts, Elifs}
use fly_lang.Diagnostic.{Position}
use fly_lang.Prelude.{
  ◌+◌, ◌-◌, true, Bytes, utf8, bytes_eq, List, [], ◌∷◌, ◌++◌, none, some, ◌≡◌, refl,
}
use fly_lang.TypeInfer.Collect.{Scan, collect_stmts, collect_stmt, set_type}
use fly_lang.TypeInfer.Falls.{Falls, collect_stmts-scope, collect_stmts-ret_types}
use fly_lang.TypeInfer.Guards.{arithmetic, plain_bin_op-result}
use fly_lang.TypeInfer.Map.{get, insert}
use fly_lang.TypeInfer.Plain.{plain_bin_op, plain_attr, plain_op}
use fly_lang.TypeInfer.Rounds.{TypeInfer, rounds}
use fly_lang.TypeInfer.Types.{Ty, rank, Tables, expr_type, merge_type, one_of, name_type}
use fly_lang.TypeInfer.Unknown.{rounds-unknown}

abbrev here : Position
here = record { line = 1; col = 1 }

abbrev int_of : Bytes → Expr
int_of n = Expr.int_lit here n

abbrev named : Bytes → Expr
named n = Expr.name here n

abbrev gives : Bytes → Expr → Stmt
gives n e = Stmt.assign here (Exprs.cons (named n) Exprs.nil) (utf8 "=") e

-- `if x: y = "a"` and then `return 1`
abbrev program : Stmts
program =
    Stmts.stmt
      (Stmt.if_ here (named (utf8 "x"))
        (Stmts.stmt (gives (utf8 "y") (Expr.string_lit here (utf8 "a"))) Stmts.done) Elifs.no_elifs
        Stmts.done)
      (Stmts.stmt (Stmt.return here (Maybe.present (int_of (utf8 "1")))) Stmts.done)

abbrev no_tables : Tables
no_tables = record { module_vars = []; fn_vars = []; ret_types = []; fn_defs = [] }

-- A scope in which `y` is an integer, of a function that returns a string.
abbrev scan : Scan
scan = record {
  tables = record no_tables { ret_types = (utf8 "f", Ty.str) ∷ [] };
  scope = (utf8 "y", Ty.int) ∷ [];
}

conflict : get (collect_stmts (utf8 "f") program scan).scope (utf8 "y") ≡ some Ty.unknown
unfolding collect_stmts collect_stmt set_type get insert merge_type rank bytes_eq expr_type
conflict = refl

int_y : get scan.scope (utf8 "y") ≡ some Ty.int
unfolding get bytes_eq
int_y = refl

str_f : get scan.tables.ret_types (utf8 "f") ≡ some Ty.str
unfolding get bytes_eq
str_f = refl

collect_stmts-scope_example :
    (t' : Ty) × (get (collect_stmts (utf8 "f") program scan).scope (utf8 "y") ≡ some t')
    × Falls Ty.int t'
collect_stmts-scope_example = collect_stmts-scope (utf8 "f") program scan (utf8 "y") Ty.int int_y

collect_stmts-ret_types_example :
    (t' : Ty) × (get (collect_stmts (utf8 "f") program scan).tables.ret_types (utf8 "f") ≡ some t')
    × Falls Ty.str t'
collect_stmts-ret_types_example =
    collect_stmts-ret_types (utf8 "f") program scan (utf8 "f") Ty.str str_f

abbrev inference : TypeInfer
inference = record {
  stmts = program;
  tables = record no_tables { module_vars = (utf8 "y", Ty.unknown) ∷ [] };
  calls = record { param_types = []; arg_set = [] };
}

unknown_y : get inference.tables.module_vars (utf8 "y") ≡ some Ty.unknown
unfolding get bytes_eq
unknown_y = refl

rounds-unknown_example : get (rounds 5 inference).tables.module_vars (utf8 "y") ≡ some Ty.unknown
rounds-unknown_example = rounds-unknown 5 inference (utf8 "y") unknown_y

-- `import os as x` does not write the type of `x`, which an assignment made an integer.
abbrev rebound : Stmts
rebound =
    Stmts.stmt (gives (utf8 "x") (int_of (utf8 "1"))) (
      Stmts.stmt (Stmt.import here (record { name = utf8 "os"; alias = utf8 "x" } ∷ [])) Stmts.done)

module_attr_unguarded :
    plain_attr
      (record no_tables {
        module_vars = (collect_stmts [] rebound (record { tables = no_tables; scope = [] })).scope;
      })
      (named (utf8 "x"))
      (utf8 "system")
      []
    ≡ true
unfolding plain_attr collect_stmts collect_stmt set_type get insert rank bytes_eq expr_type
    name_type one_of
module_attr_unguarded = refl

plain_sum : plain_bin_op no_tables (utf8 "+") (int_of (utf8 "1")) (int_of (utf8 "2")) [] ≡ true
unfolding plain_bin_op plain_op expr_type rank bytes_eq one_of
plain_sum = refl

sum_arithmetic : one_of arithmetic (utf8 "+") ≡ true
unfolding one_of bytes_eq
sum_arithmetic = refl

plain_bin_op-result_example :
    expr_type no_tables none []
      (Expr.bin_op here (utf8 "+") (int_of (utf8 "1")) (int_of (utf8 "2")))
    ≡ expr_type no_tables none [] (int_of (utf8 "1"))
plain_bin_op-result_example =
    plain_bin_op-result no_tables (utf8 "+") (int_of (utf8 "1")) (int_of (utf8 "2")) [] here
      plain_sum sum_arithmetic

analyze-counts_example :
    ((analyze program).cyclomatic ≡ in_stmts program + 1)
    × ((analyze program).max_nest ≡ all_deepest 0 program)
analyze-counts_example = analyze-counts program

func_def-measured_example :
    (m : FuncMetric) × (before : List FuncMetric) × ((stmt 0
        (Stmt.func_def here (utf8 "f") [] Maybe.absent program Exprs.nil)
        default).fns
      ≡ before ++ (m ∷ []))
    × (m.cyclo ≡ in_defaults [] + in_stmts program)
    × (m.nest ≡ all_deepest 1 program - max2 0 1)
func_def-measured_example =
    func_def-measured 0 here (utf8 "f") [] Maybe.absent program Exprs.nil default
