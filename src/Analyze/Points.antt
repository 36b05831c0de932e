-- ===== src/Analyze/Points.antt =====
-- The decision points of a program of src/analyze.rs, counted on the tree alone, and how deep its
-- statements nest.
use fly_lang.Ast.{Expr, Exprs, Maybe, KwArgs, Clauses, Param, Stmt, Stmts, Elifs, Handlers}
use fly_lang.Prelude.{ℕ, suc, ◌+◌, ◌-◌, ◌||◌, bytes_eq, Bytes, if◌then◌else◌, utf8, List, [], ◌∷◌}

-- The sum of the first numbers of each list, as many as both have.
unfoldable pub zip_sum : List ℕ → List ℕ → ℕ
zip_sum (k ∷ ks) (v ∷ vs) = k + v + zip_sum ks vs
zip_sum _ _ = 0

unfoldable pub sum : List ℕ → ℕ
sum [] = 0
sum (n ∷ ns) = n + sum ns

abbrev pub in_bool : Bytes → ℕ
in_bool op = if bytes_eq op (utf8 "and") || bytes_eq op (utf8 "or") then 1 else 0

unfoldable mutual
  pub in_expr : Expr → ℕ
  in_expr (Expr.call _ f args kwargs star dbl_star) =
      in_expr f + sum (in_each args) + in_maybe star + in_maybe dbl_star + in_keywords kwargs
  in_expr (Expr.attr _ x _) = in_expr x
  in_expr (Expr.subscript _ x index) = in_expr x + in_expr index
  in_expr (Expr.slice _ lo hi step) = in_maybe lo + in_maybe hi + in_maybe step
  in_expr (Expr.bin_op _ _ x y) = in_expr x + in_expr y
  in_expr (Expr.unary_op _ _ x) = in_expr x
  in_expr (Expr.bool_op _ op x y) = in_bool op + (in_expr x + in_expr y)
  in_expr (Expr.compare _ x _ ys) = in_expr x + sum (in_each ys)
  in_expr (Expr.cond _ c x y) = 1 + in_expr c + in_expr x + in_expr y
  in_expr (Expr.list_lit _ elems) = sum (in_each elems)
  in_expr (Expr.tuple_lit _ elems _) = sum (in_each elems)
  in_expr (Expr.set_lit _ elems) = sum (in_each elems)
  in_expr (Expr.dict_lit _ keys vals) = zip_sum (in_each keys) (in_each vals)
  in_expr (Expr.list_comp _ elem cs) = in_expr elem + in_clauses cs
  in_expr _ = 0

  pub in_each : Exprs → List ℕ
  in_each Exprs.nil = []
  in_each (Exprs.cons e es) = in_expr e ∷ in_each es

  pub in_tests : Exprs → ℕ
  in_tests Exprs.nil = 0
  in_tests (Exprs.cons e es) = 1 + in_expr e + in_tests es

  pub in_maybe : Maybe → ℕ
  in_maybe Maybe.absent = 0
  in_maybe (Maybe.present e) = in_expr e

  pub in_keywords : KwArgs → ℕ
  in_keywords KwArgs.no_kwargs = 0
  in_keywords (KwArgs.kwarg _ _ e kws) = in_expr e + in_keywords kws

  pub in_clauses : Clauses → ℕ
  in_clauses Clauses.no_clauses = 0
  in_clauses (Clauses.clause _ it ifs cs) = 1 + in_expr it + in_tests ifs + in_clauses cs

unfoldable pub in_defaults : List Param → ℕ
in_defaults [] = 0
in_defaults (p ∷ ps) = in_maybe p.default + in_defaults ps

unfoldable mutual
  pub in_stmt : Stmt → ℕ
  in_stmt (Stmt.func_def _ _ params _ body _) = in_defaults params + in_stmts body
  in_stmt (Stmt.if_ _ c then_ es els) = 1 + in_expr c + in_stmts then_ + in_elifs es + in_stmts els
  in_stmt (Stmt.for _ target it body els) =
      1 + in_expr target + in_expr it + in_stmts body + in_stmts els
  in_stmt (Stmt.while _ c body els) = 1 + in_expr c + in_stmts body + in_stmts els
  in_stmt (Stmt.try _ body hs els finally) =
      1 + in_stmts body + in_handlers hs + in_stmts els + in_stmts finally
  in_stmt (Stmt.raise _ exc from) = in_maybe exc + in_maybe from
  in_stmt (Stmt.assign _ left _ right) = sum (in_each left) + in_expr right
  in_stmt (Stmt.expr_stmt _ x) = in_expr x
  in_stmt (Stmt.guard _ _ _ conds) = 1 + sum (in_each conds)
  in_stmt (Stmt.class_def _ _ _ body _ _) = in_stmts body
  in_stmt (Stmt.lock _ _ value) = in_maybe value
  in_stmt (Stmt.return _ value) = in_maybe value
  in_stmt (Stmt.delete _ targets) = sum (in_each targets)
  in_stmt (Stmt.only _ _ body) = in_stmts body
  in_stmt (Stmt.trace _ _ _ _ body) = in_stmts body
  in_stmt (Stmt.cage _ _ _ _ _ body) = in_stmts body
  in_stmt _ = 0

  pub in_stmts : Stmts → ℕ
  in_stmts Stmts.done = 0
  in_stmts (Stmts.stmt s ss) = in_stmt s + in_stmts ss

  pub in_elifs : Elifs → ℕ
  in_elifs Elifs.no_elifs = 0
  in_elifs (Elifs.elif_clause _ c body es) = 1 + in_expr c + in_stmts body + in_elifs es

  pub in_handlers : Handlers → ℕ
  in_handlers Handlers.no_handlers = 0
  in_handlers (Handlers.handler _ _ _ body hs) = 1 + in_stmts body + in_handlers hs

-- The larger of two numbers.
abbrev pub max2 : ℕ → ℕ → ℕ
max2 a b = a + (b - a)

-- The deepest level on which a statement stands, of a statement on level `d + 1`; 0 for none.
unfoldable mutual
  pub deepest : ℕ → Stmt → ℕ
  deepest d (Stmt.func_def _ _ _ _ body _) = max2 (suc d) (all_deepest (suc d) body)
  deepest d (Stmt.if_ _ _ then_ es els) =
      max2 (max2 (max2 (suc d) (all_deepest (suc d) then_)) (elifs_deepest d es))
        (all_deepest (suc d) els)
  deepest d (Stmt.for _ _ _ body els) =
      max2 (max2 (suc d) (all_deepest (suc d) body)) (all_deepest (suc d) els)
  deepest d (Stmt.while _ _ body els) =
      max2 (max2 (suc d) (all_deepest (suc d) body)) (all_deepest (suc d) els)
  deepest d (Stmt.try _ body hs els finally) =
      max2
        (max2 (max2 (max2 (suc d) (all_deepest (suc d) body)) (handlers_deepest d hs))
          (all_deepest (suc d) els))
        (all_deepest (suc d) finally)
  deepest d (Stmt.class_def _ _ _ body _ _) = max2 (suc d) (all_deepest (suc d) body)
  deepest d (Stmt.only _ _ body) = max2 (suc d) (all_deepest (suc d) body)
  deepest d (Stmt.trace _ _ _ _ body) = max2 (suc d) (all_deepest (suc d) body)
  deepest d (Stmt.cage _ _ _ _ _ body) = max2 (suc d) (all_deepest (suc d) body)
  deepest d _ = suc d

  pub all_deepest : ℕ → Stmts → ℕ
  all_deepest d Stmts.done = 0
  all_deepest d (Stmts.stmt s ss) = max2 (deepest d s) (all_deepest d ss)

  pub elifs_deepest : ℕ → Elifs → ℕ
  elifs_deepest d Elifs.no_elifs = 0
  elifs_deepest d (Elifs.elif_clause _ _ body es) =
      max2 (all_deepest (suc d) body) (elifs_deepest d es)

  pub handlers_deepest : ℕ → Handlers → ℕ
  handlers_deepest d Handlers.no_handlers = 0
  handlers_deepest d (Handlers.handler _ _ _ body hs) =
      max2 (all_deepest (suc d) body) (handlers_deepest d hs)
