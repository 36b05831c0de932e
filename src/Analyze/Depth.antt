-- ===== src/Analyze/Depth.antt =====
-- src/analyze.rs: the walk over statements counts the decision points of the tree and finds its deepest
-- level.
use fly_lang.Ast.{Exprs, Stmt, Stmts, Elifs, Handlers}
use fly_lang.Diagnostic.{Position}
use fly_lang.Prelude.{ℕ, suc, ◌+◌, if◌then◌else◌, ◌≡◌, refl, arith}
use fly_lang.Analyze.Adds.{
  Adds, both, none_added, branch-Adds, expr-Adds, each-AllAdd, maybe-Adds, run-Adds, defaults-Adds,
}
use fly_lang.Analyze.Points.{
  sum, in_each, in_stmt, in_stmts, in_elifs, in_handlers, max2, deepest, all_deepest, elifs_deepest,
  handlers_deepest,
}
use fly_lang.Analyze.Visit.{
  Analyzer, run, branch, weigh, add_metric, FuncMetric, each, enter, stmt_pos,
}
use fly_lang.Analyze.Walk.{arm, stmts, elifs, handlers}

-- Visiting statements adds `n` branches and raises the depth to `k` where it was below.
pub record Deepens (n k : ℕ) (a a' : Analyzer) : Type 0 where
  pub cyclo : a'.cyclo ≡ a.cyclo + n
  pub max : a'.max ≡ max2 a.max k

infixl 60 ◌then◌
◌then◌ :
    {n m k l : ℕ} {a b c : Analyzer}
    → Deepens n k a b
    → Deepens m l b c
    → Deepens (n + m) (max2 k l) a c
◌then◌ {n} {m} {k} {l} {a} {b} {c} f g = record {
  cyclo = omega (arith, f.cyclo, g.cyclo);
  max = omega (arith, f.max, g.max);
}

-- What visits expressions only.
flat : {n : ℕ} {a b : Analyzer} → Adds n a b → Deepens n 0 a b
flat {n} {a} {b} f = record { cyclo = f.cyclo; max = omega (arith, f.max) }

exprs-Adds : (d : ℕ) (es : Exprs) (a : Analyzer) → Adds (sum (in_each es)) a (run (each d es) a)
exprs-Adds d es a = run-Adds (each d es) (in_each es) a (each-AllAdd d es)

guard-Adds : (a : Analyzer) → Adds 1 a (record a { cyclo = a.cyclo + 1 })
guard-Adds a = record { cyclo = refl; max = refl }

raise-Adds : (a : Analyzer) → Adds 0 a (record a { raise = a.raise + 1 })
raise-Adds a = record { cyclo = omega arith; max = refl }

weigh-Adds : (d : ℕ) (a : Analyzer) → Adds 0 a (weigh d a)
weigh-Adds d a = record { cyclo = omega arith; max = refl }

try-Adds : (d : ℕ) (a : Analyzer) → Adds 1 a (record (branch d a) { try_ = a.try_ + 1 })
try-Adds d a = record { cyclo = refl; max = refl }

-- Entering a statement, and then visiting its expressions.
pub entered :
    {n : ℕ} {b : Analyzer} (d : ℕ) (pos : Position) (a : Analyzer)
    → Adds n (enter d pos a) b
    → Deepens n (suc d) a b
unfolding enter
entered {n} {b} d pos a f = record { cyclo = f.cyclo; max = ground (arith, f.max) }

-- Pushing the measures of a function leaves the branches and the depth as they are.
metric-Deepens :
    {n k : ℕ} {a b : Analyzer} (m : FuncMetric) (line : ℕ)
    → Deepens n k a b
    → Deepens n k a (add_metric m line b)
metric-Deepens {n} {k} {a} {b} m line f = record { cyclo = f.cyclo; max = f.max }

-- A count of nothing in front is left out.
without : {n : ℕ} {a b : Analyzer} → Adds (0 + n) a b → Adds n a b
without {n} {a} {b} f = record { cyclo = omega (arith, f.cyclo); max = f.max }

preceded : {n m k : ℕ} {a b c : Analyzer} → Adds n a b → Deepens m k b c → Deepens (n + m) k a c
preceded {n} {m} {k} {a} {b} {c} f g = record {
  cyclo = omega (arith, f.cyclo, g.cyclo);
  max = omega (arith, f.max, g.max);
}

of_body :
    {n k : ℕ} {b c : Analyzer} (d : ℕ) (pos : Position) (a : Analyzer)
    → Adds 0 (enter d pos a) b
    → Deepens n k b c
    → Deepens n (max2 (suc d) k) a c
of_body {n} {k} {b} {c} d pos a f g =
    let h = entered d pos a f in
    record { cyclo = omega (arith, h.cyclo, g.cyclo); max = omega (arith, h.max, g.max) }

mutual
  unfolding arm stmts elifs handlers in_stmt in_stmts in_elifs in_handlers deepest all_deepest
      elifs_deepest handlers_deepest

  arm-Deepens :
      (d : ℕ) (s : Stmt) (pos : Position) (a : Analyzer)
      → Deepens (in_stmt s) (deepest d s) a (arm d s (enter d pos a))
  arm-Deepens d (Stmt.func_def _ _ ps _ body _) p a = metric-Deepens _ _ (
      entered d p a (without (both (weigh-Adds d _) (defaults-Adds (suc d) ps _)))
      then stmts-Deepens (suc d) body _)
  arm-Deepens d (Stmt.if_ _ c then_ es els) p a =
      entered d p a (both (branch-Adds d _) (expr-Adds (suc d) c _))
      then stmts-Deepens (suc d) then_ _
      then elifs-Deepens d es _
      then stmts-Deepens (suc d) els _
  arm-Deepens d (Stmt.for _ target it body els) p a =
      entered d p a
        (both (both (branch-Adds d _) (expr-Adds (suc d) target _)) (expr-Adds (suc d) it _))
      then stmts-Deepens (suc d) body _
      then stmts-Deepens (suc d) els _
  arm-Deepens d (Stmt.while _ c body els) p a =
      entered d p a (both (branch-Adds d _) (expr-Adds (suc d) c _))
      then stmts-Deepens (suc d) body _
      then stmts-Deepens (suc d) els _
  arm-Deepens d (Stmt.try _ body hs els finally) p a =
      entered d p a (try-Adds d _)
      then stmts-Deepens (suc d) body _
      then handlers-Deepens d hs _
      then stmts-Deepens (suc d) els _
      then stmts-Deepens (suc d) finally _
  arm-Deepens d (Stmt.raise _ exc from) p a =
      entered d p a (
        without (both (raise-Adds _) (both (maybe-Adds (suc d) exc _) (maybe-Adds (suc d) from _))))
  arm-Deepens d (Stmt.assign _ left _ right) p a =
      entered d p a (both (exprs-Adds (suc d) left _) (expr-Adds (suc d) right _))
  arm-Deepens d (Stmt.expr_stmt _ x) p a = entered d p a (expr-Adds (suc d) x _)
  arm-Deepens d (Stmt.guard _ _ _ conds) p a =
      entered d p a (both (guard-Adds _) (exprs-Adds (suc d) conds _))
  arm-Deepens d (Stmt.class_def _ _ _ body _ _) p a =
      of_body d p a (weigh-Adds d _) (stmts-Deepens (suc d) body _)
  arm-Deepens d (Stmt.lock _ _ value) p a = entered d p a (maybe-Adds (suc d) value _)
  arm-Deepens d (Stmt.return _ value) p a = entered d p a (maybe-Adds (suc d) value _)
  arm-Deepens d (Stmt.delete _ targets) p a = entered d p a (exprs-Adds (suc d) targets _)
  arm-Deepens d (Stmt.only _ _ body) p a =
      of_body d p a (none_added _) (stmts-Deepens (suc d) body _)
  arm-Deepens d (Stmt.trace _ _ _ _ body) p a =
      of_body d p a (none_added _) (stmts-Deepens (suc d) body _)
  arm-Deepens d (Stmt.cage _ _ _ _ _ body) p a =
      of_body d p a (none_added _) (stmts-Deepens (suc d) body _)
  arm-Deepens d (Stmt.import _ _) p a = entered d p a (none_added _)
  arm-Deepens d (Stmt.from_import _ _ _) p a = entered d p a (none_added _)
  arm-Deepens d (Stmt.safe _ _) p a = entered d p a (none_added _)
  arm-Deepens d (Stmt.mask _ _) p a = entered d p a (none_added _)
  arm-Deepens d (Stmt.pass _) p a = entered d p a (none_added _)
  arm-Deepens d (Stmt.break _) p a = entered d p a (none_added _)
  arm-Deepens d (Stmt.continue _) p a = entered d p a (none_added _)

  pub stmts-Deepens :
      (d : ℕ) (ss : Stmts) (a : Analyzer)
      → Deepens (in_stmts ss) (all_deepest d ss) a (stmts d ss a)
  stmts-Deepens d Stmts.done a = flat (none_added a)
  stmts-Deepens d (Stmts.stmt s ss) a = arm-Deepens d s (stmt_pos s) a then stmts-Deepens d ss _

  elifs-Deepens :
      (d : ℕ) (es : Elifs) (a : Analyzer)
      → Deepens (in_elifs es) (elifs_deepest d es) a (elifs d es a)
  elifs-Deepens d Elifs.no_elifs a = flat (none_added a)
  elifs-Deepens d (Elifs.elif_clause _ c body es) a =
      preceded (both (branch-Adds d a) (expr-Adds (suc d) c _)) (stmts-Deepens (suc d) body _)
      then elifs-Deepens d es _

  handlers-Deepens :
      (d : ℕ) (hs : Handlers) (a : Analyzer)
      → Deepens (in_handlers hs) (handlers_deepest d hs) a (handlers d hs a)
  handlers-Deepens d Handlers.no_handlers a = flat (none_added a)
  handlers-Deepens d (Handlers.handler _ _ _ body hs) a =
      preceded (branch-Adds d a) (stmts-Deepens (suc d) body _) then handlers-Deepens d hs _
