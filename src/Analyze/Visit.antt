-- ===== src/Analyze/Visit.antt =====
-- src/analyze.rs: `Analyzer`, its walks over statements and expressions, and the measures of a
-- function. The counts of the source are `i64`, which no program fills; none goes below zero.
use fly_lang.Ast.{Expr, Exprs, Maybe, KwArgs, Clauses, Param, Stmt}
use fly_lang.Diagnostic.{Position}
use fly_lang.Prelude.{
  ℕ, ◌+◌, ◌-◌, Bool, ◌||◌, ltb, bytes_eq, if◌then◌else◌, Bytes, utf8, List, [], ◌∷◌, ◌++◌,
}

pub record FuncMetric : Type 0 where
  pub name : Bytes
  pub line : ℕ
  pub length : ℕ
  pub params : ℕ
  pub cyclo : ℕ
  pub cognit : ℕ
  pub nest : ℕ
  pub complex : Bool

pub record Analyzer : Type 0 where
  pub cyclo : ℕ
  pub cog : ℕ
  pub max : ℕ
  pub fns : List FuncMetric
  pub try_ : ℕ
  pub raise : ℕ
  pub cur_max_line : ℕ

-- `Analyzer::default()`
abbrev pub default : Analyzer
default = record { cyclo = 0; cog = 0; max = 0; fns = []; try_ = 0; raise = 0; cur_max_line = 0 }

unfoldable pub stmt_pos : Stmt → Position
stmt_pos (Stmt.import pos _) = pos
stmt_pos (Stmt.from_import pos _ _) = pos
stmt_pos (Stmt.lock pos _ _) = pos
stmt_pos (Stmt.safe pos _) = pos
stmt_pos (Stmt.mask pos _) = pos
stmt_pos (Stmt.guard pos _ _ _) = pos
stmt_pos (Stmt.assign pos _ _ _) = pos
stmt_pos (Stmt.expr_stmt pos _) = pos
stmt_pos (Stmt.func_def pos _ _ _ _ _) = pos
stmt_pos (Stmt.class_def pos _ _ _ _ _) = pos
stmt_pos (Stmt.only pos _ _) = pos
stmt_pos (Stmt.trace pos _ _ _ _) = pos
stmt_pos (Stmt.cage pos _ _ _ _ _) = pos
stmt_pos (Stmt.if_ pos _ _ _ _) = pos
stmt_pos (Stmt.for pos _ _ _ _) = pos
stmt_pos (Stmt.while pos _ _ _) = pos
stmt_pos (Stmt.return pos _) = pos
stmt_pos (Stmt.raise pos _ _) = pos
stmt_pos (Stmt.try pos _ _ _ _) = pos
stmt_pos (Stmt.pass pos) = pos
stmt_pos (Stmt.break pos) = pos
stmt_pos (Stmt.continue pos) = pos
stmt_pos (Stmt.delete pos _) = pos

-- `self.cog += 1 + depth`
abbrev pub weigh : ℕ → Analyzer → Analyzer
weigh depth a = record a { cog = a.cog + (1 + depth) }

-- `self.cyclo += 1; self.cog += 1 + depth`
abbrev pub branch : ℕ → Analyzer → Analyzer
branch depth a = record a { cyclo = a.cyclo + 1; cog = a.cog + (1 + depth) }

-- What visiting each of a list of expressions does.
abbrev pub Visits : Type 0
Visits = List (Analyzer → Analyzer)

unfoldable pub run : Visits → Analyzer → Analyzer
run [] a = a
run (f ∷ fs) a = run fs (f a)

-- `keys.iter().zip(vals.iter())`
unfoldable pub zip : Visits → Visits → Visits
zip (k ∷ keys) (v ∷ vals) = k ∷ v ∷ zip keys vals
zip _ _ = []

abbrev pub bool_branch : ℕ → Bytes → Analyzer → Analyzer
bool_branch depth op a =
    if bytes_eq op (utf8 "and") || bytes_eq op (utf8 "or") then branch depth a else a

unfoldable mutual
  pub expr : ℕ → Expr → Analyzer → Analyzer
  expr depth (Expr.call _ f args kwargs star dbl_star) a =
      keywords depth kwargs
        (maybe depth dbl_star (maybe depth star (run (each depth args) (expr depth f a))))
  expr depth (Expr.attr _ x _) a = expr depth x a
  expr depth (Expr.subscript _ x index) a = expr depth index (expr depth x a)
  expr depth (Expr.slice _ lo hi step) a = maybe depth step (maybe depth hi (maybe depth lo a))
  expr depth (Expr.bin_op _ _ x y) a = expr depth y (expr depth x a)
  expr depth (Expr.unary_op _ _ x) a = expr depth x a
  expr depth (Expr.bool_op _ op x y) a = expr depth y (expr depth x (bool_branch depth op a))
  expr depth (Expr.compare _ x _ ys) a = run (each depth ys) (expr depth x a)
  expr depth (Expr.cond _ c x y) a = expr depth y (expr depth x (expr depth c (branch depth a)))
  expr depth (Expr.list_lit _ elems) a = run (each depth elems) a
  expr depth (Expr.tuple_lit _ elems _) a = run (each depth elems) a
  expr depth (Expr.set_lit _ elems) a = run (each depth elems) a
  expr depth (Expr.dict_lit _ keys vals) a = run (zip (each depth keys) (each depth vals)) a
  expr depth (Expr.list_comp _ elem cs) a = clauses depth cs (expr depth elem a)
  expr depth _ a = a

  pub each : ℕ → Exprs → Visits
  each depth Exprs.nil = []
  each depth (Exprs.cons e es) = expr depth e ∷ each depth es

  -- The tests of a clause count as branches.
  pub tests : ℕ → Exprs → Visits
  tests depth Exprs.nil = []
  tests depth (Exprs.cons e es) = branch depth ∷ expr depth e ∷ tests depth es

  pub maybe : ℕ → Maybe → Analyzer → Analyzer
  maybe depth Maybe.absent a = a
  maybe depth (Maybe.present e) a = expr depth e a

  pub keywords : ℕ → KwArgs → Analyzer → Analyzer
  keywords depth KwArgs.no_kwargs a = a
  keywords depth (KwArgs.kwarg _ _ e kws) a = keywords depth kws (expr depth e a)

  pub clauses : ℕ → Clauses → Analyzer → Analyzer
  clauses depth Clauses.no_clauses a = a
  clauses depth (Clauses.clause _ it ifs cs) a =
      clauses depth cs (run (tests depth ifs) (expr depth it (branch depth a)))

-- What `stmt` does before its `match`.
unfoldable pub enter : ℕ → Position → Analyzer → Analyzer
enter depth pos a = record a {
  max = if ltb a.max (depth + 1) then depth + 1 else a.max;
  cur_max_line = if ltb a.cur_max_line pos.line then pos.line else a.cur_max_line;
}

abbrev pub defaults : ℕ → List Param → Analyzer → Analyzer
defaults depth [] a = a
defaults depth (p ∷ ps) a = defaults depth ps (maybe depth p.default a)

-- The measures of a function, from the counts before its body and behind it.
unfoldable pub func_metric : Position → Bytes → ℕ → Analyzer → Analyzer → FuncMetric
func_metric pos name params before after =
    let cyclo = after.cyclo - before.cyclo in
    let cognit = after.cog - before.cog in
    let nest = after.max - before.max in
    record {
      name = name;
      line = pos.line;
      length = after.cur_max_line - pos.line + 1;
      params = params;
      cyclo = cyclo;
      cognit = cognit;
      nest = nest;
      complex = ltb 10 cyclo || ltb 15 cognit || ltb 4 nest;
    }

abbrev pub add_metric : FuncMetric → ℕ → Analyzer → Analyzer
add_metric m line a = record a { fns = a.fns ++ (m ∷ []); cur_max_line = line }
