-- ===== src/Analyze/Walk.antt =====
-- src/analyze.rs: `Analyzer::stmt` and the counts of `analyze`.
use fly_lang.Ast.{Stmt, Stmts, Elifs, Handlers}
use fly_lang.Prelude.{ℕ, suc, ◌+◌, ltb, if◌then◌else◌, List, [], ◌∷◌, length}
use fly_lang.Analyze.Visit.{
  FuncMetric, Analyzer, default, stmt_pos, weigh, branch, run, expr, each, maybe, enter, defaults,
  func_metric, add_metric,
}

unfoldable mutual
  -- The `match` of `stmt`.
  pub arm : ℕ → Stmt → Analyzer → Analyzer
  arm depth (Stmt.func_def pos name params _ body _) a =
      let before = weigh depth a in
      let after = stmts (suc depth) body (defaults (suc depth) params before) in
      add_metric (func_metric pos name (length params) before after) a.cur_max_line after
  arm depth (Stmt.if_ _ c then_ es els) a =
      stmts (suc depth) els
        (elifs depth es (stmts (suc depth) then_ (expr (suc depth) c (branch depth a))))
  arm depth (Stmt.for _ target it body els) a =
      stmts (suc depth) els
        (stmts (suc depth) body (expr (suc depth) it (expr (suc depth) target (branch depth a))))
  arm depth (Stmt.while _ c body els) a =
      stmts (suc depth) els (stmts (suc depth) body (expr (suc depth) c (branch depth a)))
  arm depth (Stmt.try _ body hs els finally) a =
      let a' = branch depth a in
      stmts (suc depth) finally (
        stmts (suc depth) els
          (handlers depth hs (stmts (suc depth) body (record a' { try_ = a.try_ + 1 }))))
  arm depth (Stmt.raise _ exc from) a =
      maybe (suc depth) from (maybe (suc depth) exc (record a { raise = a.raise + 1 }))
  arm depth (Stmt.assign _ left _ right) a = expr (suc depth) right (run (each (suc depth) left) a)
  arm depth (Stmt.expr_stmt _ x) a = expr (suc depth) x a
  arm depth (Stmt.guard _ _ _ conds) a =
      run (each (suc depth) conds) (record a { cyclo = a.cyclo + 1 })
  arm depth (Stmt.class_def _ _ _ body _ _) a = stmts (suc depth) body (weigh depth a)
  arm depth (Stmt.lock _ _ value) a = maybe (suc depth) value a
  arm depth (Stmt.return _ value) a = maybe (suc depth) value a
  arm depth (Stmt.delete _ targets) a = run (each (suc depth) targets) a
  arm depth (Stmt.only _ _ body) a = stmts (suc depth) body a
  arm depth (Stmt.trace _ _ _ _ body) a = stmts (suc depth) body a
  arm depth (Stmt.cage _ _ _ _ _ body) a = stmts (suc depth) body a
  arm depth _ a = a

  pub stmts : ℕ → Stmts → Analyzer → Analyzer
  stmts depth Stmts.done a = a
  stmts depth (Stmts.stmt s ss) a = stmts depth ss (arm depth s (enter depth (stmt_pos s) a))

  pub elifs : ℕ → Elifs → Analyzer → Analyzer
  elifs depth Elifs.no_elifs a = a
  elifs depth (Elifs.elif_clause _ c body es) a =
      elifs depth es (stmts (suc depth) body (expr (suc depth) c (branch depth a)))

  pub handlers : ℕ → Handlers → Analyzer → Analyzer
  handlers depth Handlers.no_handlers a = a
  handlers depth (Handlers.handler _ _ _ body hs) a =
      handlers depth hs (stmts (suc depth) body (branch depth a))

abbrev pub stmt : ℕ → Stmt → Analyzer → Analyzer
stmt depth s a = arm depth s (enter depth (stmt_pos s) a)

-- The counts of `Metrics` that come from the tree.
pub record Metrics : Type 0 where
  pub cyclomatic : ℕ
  pub cognitive : ℕ
  pub max_nest : ℕ
  pub func_count : ℕ
  pub max_func_len : ℕ
  pub max_params : ℕ
  pub try_count : ℕ
  pub raise_count : ℕ
  pub functions : List FuncMetric

abbrev larger : ℕ → ℕ → ℕ
larger a b = if ltb a b then b else a

abbrev longest : List FuncMetric → ℕ → ℕ
longest [] n = n
longest (f ∷ fs) n = longest fs (larger n f.length)

abbrev most_params : List FuncMetric → ℕ → ℕ
most_params [] n = n
most_params (f ∷ fs) n = most_params fs (larger n f.params)

-- The part of `analyze` behind the parser.
unfoldable pub analyze : Stmts → Metrics
analyze ss =
    let a = stmts 0 ss default in
    record {
      cyclomatic = a.cyclo + 1;
      cognitive = a.cog;
      max_nest = a.max;
      func_count = length a.fns;
      max_func_len = longest a.fns 0;
      max_params = most_params a.fns 0;
      try_count = a.try_;
      raise_count = a.raise;
      functions = a.fns;
    }
