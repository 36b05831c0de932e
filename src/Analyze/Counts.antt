-- ===== src/Analyze/Counts.antt =====
-- src/analyze.rs: the counts of `analyze` are those of the tree.
use fly_lang.Ast.{Exprs, Maybe, Stmt, Stmts, Param}
use fly_lang.Diagnostic.{Position}
use fly_lang.Prelude.{ℕ, suc, ◌+◌, ◌-◌, List, [], ◌∷◌, ◌++◌, length, Bytes, ◌≡◌, refl, arith}
use fly_lang.Analyze.Adds.{none_added, defaults-Adds}
use fly_lang.Analyze.Points.{in_defaults, in_stmts, max2, all_deepest}
use fly_lang.Analyze.Visit.{
  Analyzer, default, weigh, func_metric, FuncMetric, enter, defaults, stmt_pos,
}
use fly_lang.Analyze.Walk.{arm, stmt, stmts, analyze}
use fly_lang.Analyze.Depth.{entered, stmts-Deepens}

-- The cyclomatic number of a program is one more than its decision points, and its depth is the level of
-- its deepest statement.
pub analyze-counts :
    (ss : Stmts)
    → ((analyze ss).cyclomatic ≡ in_stmts ss + 1) × ((analyze ss).max_nest ≡ all_deepest 0 ss)
unfolding analyze
analyze-counts ss =
    let walked = stmts-Deepens 0 ss default in
    (omega (arith, walked.cyclo), omega (arith, walked.max))

-- The measures of a function are pushed last: its branches are those of its defaults and its body, and
-- its nesting is how far its body goes below the deepest level that was visited before it.
pub func_def-measured :
    (d : ℕ) (pos : Position) (name : Bytes) (ps : List Param) (ret : Maybe) (body : Stmts)
    (decos : Exprs) (a : Analyzer)
    → (m : FuncMetric) × (before : List FuncMetric) × ((stmt d
          (Stmt.func_def pos name ps ret body decos)
          a).fns
        ≡ before ++ (m ∷ []))
      × (m.cyclo ≡ in_defaults ps + in_stmts body)
      × (m.nest ≡ all_deepest (suc d) body - max2 a.max (suc d))
unfolding arm enter func_metric stmt_pos
func_def-measured d pos name ps ret body decos a =
    let start = weigh d (enter d pos a) in
    let visited = defaults-Adds (suc d) ps start in
    let walked = stmts-Deepens (suc d) body (defaults (suc d) ps start) in
    let m =
      func_metric pos name (length ps) start (stmts (suc d) body (defaults (suc d) ps start)) in
    let entered_at : start.max ≡ max2 a.max (suc d) = (entered d pos a (none_added _)).max in
    (
      m,
      _,
      refl,
      omega (arith, visited.cyclo, walked.cyclo),
      omega (arith, visited.max, walked.max, entered_at),
    )
