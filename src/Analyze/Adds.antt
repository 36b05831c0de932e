-- ===== src/Analyze/Adds.antt =====
-- src/analyze.rs: what the walks count is what stands in the tree.
use fly_lang.Ast.{Expr, Exprs, Maybe, KwArgs, Clauses, Param}
use fly_lang.Prelude.{
  ℕ, ◌+◌, Bool, true, false, ◌||◌, bytes_eq, Bytes, if◌then◌else◌, utf8, List, [], ◌∷◌, ◌≡◌, refl,
  ◌∙◌, arith,
}
use fly_lang.Analyze.Points.{
  zip_sum, sum, in_expr, in_each, in_tests, in_maybe, in_keywords, in_clauses, in_defaults, in_bool,
}
use fly_lang.Analyze.Visit.{
  Analyzer, Visits, run, zip, bool_branch, branch, expr, each, tests, maybe, keywords, clauses,
  defaults,
}

-- Visiting an expression adds `n` branches and leaves the depth as it is.
pub record Adds (n : ℕ) (a a' : Analyzer) : Type 0 where
  pub cyclo : a'.cyclo ≡ a.cyclo + n
  pub max : a'.max ≡ a.max

-- Each of the visits adds the number that stands in its place.
abbrev pub AllAdd : Visits → List ℕ → Type 0
AllAdd [] [] = Unit
AllAdd (f ∷ fs) (n ∷ ns) = ((a : Analyzer) → Adds n a (f a)) × AllAdd fs ns
AllAdd _ _ = ⊥

pub both : {m n : ℕ} {a b c : Analyzer} → Adds m a b → Adds n b c → Adds (m + n) a c
both {m} {n} {a} {b} {c} f g = record {
  cyclo = omega (arith, f.cyclo, g.cyclo);
  max = g.max ∙ f.max;
}

pub none_added : (a : Analyzer) → Adds 0 a a
none_added a = record { cyclo = omega arith; max = refl }

pub resized : {m : ℕ} {a b : Analyzer} (n : ℕ) → Adds m a b → m ≡ n → Adds n a b
resized {m} {a} {b} n f e = record { cyclo = omega (arith, f.cyclo, e); max = f.max }

pub run-Adds :
    (fs : Visits) (ns : List ℕ) (a : Analyzer) → AllAdd fs ns → Adds (sum ns) a (run fs a)
unfolding run sum
run-Adds [] [] a h = none_added a
run-Adds (f ∷ fs) (n ∷ ns) a (h, hs) = both (h a) (run-Adds fs ns (f a) hs)
run-Adds [] (n ∷ ns) a h = absurd h
run-Adds (f ∷ fs) [] a h = absurd h

zip-Adds :
    (ks vs : Visits) (ms ns : List ℕ) (a : Analyzer)
    → AllAdd ks ms
    → AllAdd vs ns
    → Adds (zip_sum ms ns) a (run (zip ks vs) a)
unfolding run zip zip_sum
zip-Adds (k ∷ ks) (v ∷ vs) (m ∷ ms) (n ∷ ns) a (h, hs) (g, gs) =
    both (both (h a) (g (k a))) (zip-Adds ks vs ms ns (v (k a)) hs gs)
zip-Adds [] vs [] ns a h g = none_added a
zip-Adds (k ∷ ks) [] (m ∷ ms) [] a h g = none_added a
zip-Adds [] vs (m ∷ ms) ns a h g = absurd h
zip-Adds (k ∷ ks) vs [] ns a h g = absurd h
zip-Adds (k ∷ ks) [] (m ∷ ms) (n ∷ ns) a h g = absurd g
zip-Adds (k ∷ ks) (v ∷ vs) (m ∷ ms) [] a h g = absurd g

pub branch-Adds : (depth : ℕ) (a : Analyzer) → Adds 1 a (branch depth a)
branch-Adds depth a = record { cyclo = refl; max = refl }

bool_branch-Adds :
    (depth : ℕ) (op : Bytes) (a : Analyzer) → Adds (in_bool op) a (bool_branch depth op a)
bool_branch-Adds depth op a =
    elim (bytes_eq op (utf8 "and") || bytes_eq op (utf8 "or"))
      as (λ (b : Bool). Adds (if b then 1 else 0) a (if b then branch depth a else a)) [
        | true ↦ branch-Adds depth a
        | false ↦ none_added a
      ]

mutual
  unfolding expr each tests maybe keywords clauses in_expr in_each in_tests in_maybe in_keywords
      in_clauses sum run

  pub expr-Adds : (depth : ℕ) (e : Expr) (a : Analyzer) → Adds (in_expr e) a (expr depth e a)
  expr-Adds d (Expr.call _ f args kws star dbl) a =
      resized _
        (both
          (both
            (both
              (both (expr-Adds d f a)
                (run-Adds (each d args) (in_each args) _ (each-AllAdd d args)))
              (maybe-Adds d star _))
            (maybe-Adds d dbl _))
          (keywords-Adds d kws _))
        (omega arith)
  expr-Adds d (Expr.attr _ x _) a = expr-Adds d x a
  expr-Adds d (Expr.subscript _ x index) a = both (expr-Adds d x a) (expr-Adds d index _)
  expr-Adds d (Expr.slice _ lo hi step) a =
      both (both (maybe-Adds d lo a) (maybe-Adds d hi _)) (maybe-Adds d step _)
  expr-Adds d (Expr.bin_op _ _ x y) a = both (expr-Adds d x a) (expr-Adds d y _)
  expr-Adds d (Expr.unary_op _ _ x) a = expr-Adds d x a
  expr-Adds d (Expr.bool_op _ op x y) a =
      both (bool_branch-Adds d op a) (both (expr-Adds d x _) (expr-Adds d y _))
  expr-Adds d (Expr.compare _ x _ ys) a =
      both (expr-Adds d x a) (run-Adds (each d ys) (in_each ys) _ (each-AllAdd d ys))
  expr-Adds d (Expr.cond _ c x y) a =
      both (both (both (branch-Adds d a) (expr-Adds d c _)) (expr-Adds d x _)) (expr-Adds d y _)
  expr-Adds d (Expr.list_lit _ es) a = run-Adds (each d es) (in_each es) a (each-AllAdd d es)
  expr-Adds d (Expr.tuple_lit _ es _) a = run-Adds (each d es) (in_each es) a (each-AllAdd d es)
  expr-Adds d (Expr.set_lit _ es) a = run-Adds (each d es) (in_each es) a (each-AllAdd d es)
  expr-Adds d (Expr.dict_lit _ ks vs) a =
      zip-Adds (each d ks) (each d vs) (in_each ks) (in_each vs) a (each-AllAdd d ks)
        (each-AllAdd d vs)
  expr-Adds d (Expr.list_comp _ elem cs) a = both (expr-Adds d elem a) (clauses-Adds d cs _)
  expr-Adds d (Expr.name _ _) a = none_added a
  expr-Adds d (Expr.int_lit _ _) a = none_added a
  expr-Adds d (Expr.float_lit _ _) a = none_added a
  expr-Adds d (Expr.string_lit _ _) a = none_added a
  expr-Adds d (Expr.ellipsis_lit _) a = none_added a

  pub each-AllAdd : (depth : ℕ) (es : Exprs) → AllAdd (each depth es) (in_each es)
  each-AllAdd d Exprs.nil = tt
  each-AllAdd d (Exprs.cons e es) = (λ a. expr-Adds d e a, each-AllAdd d es)

  tests-Adds :
      (depth : ℕ) (es : Exprs) (a : Analyzer) → Adds (in_tests es) a (run (tests depth es) a)
  tests-Adds d Exprs.nil a = none_added a
  tests-Adds d (Exprs.cons e es) a =
      both (both (branch-Adds d a) (expr-Adds d e _)) (tests-Adds d es _)

  pub maybe-Adds : (depth : ℕ) (m : Maybe) (a : Analyzer) → Adds (in_maybe m) a (maybe depth m a)
  maybe-Adds d Maybe.absent a = none_added a
  maybe-Adds d (Maybe.present e) a = expr-Adds d e a

  keywords-Adds :
      (depth : ℕ) (k : KwArgs) (a : Analyzer) → Adds (in_keywords k) a (keywords depth k a)
  keywords-Adds d KwArgs.no_kwargs a = none_added a
  keywords-Adds d (KwArgs.kwarg _ _ e kws) a = both (expr-Adds d e a) (keywords-Adds d kws _)

  clauses-Adds :
      (depth : ℕ) (c : Clauses) (a : Analyzer) → Adds (in_clauses c) a (clauses depth c a)
  clauses-Adds d Clauses.no_clauses a = none_added a
  clauses-Adds d (Clauses.clause _ it ifs cs) a =
      both (both (both (branch-Adds d a) (expr-Adds d it _)) (tests-Adds d ifs _))
        (clauses-Adds d cs _)

pub defaults-Adds :
    (depth : ℕ) (ps : List Param) (a : Analyzer) → Adds (in_defaults ps) a (defaults depth ps a)
unfolding in_defaults
defaults-Adds d [] a = none_added a
defaults-Adds d (p ∷ ps) a = both (maybe-Adds d p.default a) (defaults-Adds d ps _)
