-- ===== src/TypeInfer/Falls.antt =====
-- src/typeinfer.rs: types only fall, from a known one to `unknown`.
use fly_lang.Ast.{Expr, Exprs, Maybe, Stmt, Stmts, Elifs, Handlers}
use fly_lang.Prelude.{
  Bool-cases, if_rule, bytes_eq, bytes_eq_iff, Bytes, Option-cases, some, ◌≡◌, ◌⊎◌, inl, inr, refl,
  sym, ap, ◌∙◌, subst,
}
use fly_lang.TypeInfer.Collect.{
  Scan, set_over, set_type, set_in, collect_assign, collect_target, collect_return, collect_stmt,
  collect_stmts, collect_elifs, collect_handlers,
}
use fly_lang.TypeInfer.Map.{Map, get, insert, get-insert, get-insert_other}
use fly_lang.TypeInfer.Types.{Ty, merge_type}

abbrev pub Falls : Ty → Ty → Type 0
Falls a b = (b ≡ a) ⊎ (b ≡ Ty.unknown)

Falls-trans : (a b c : Ty) → Falls a b → Falls b c → Falls a c
Falls-trans a b c (inl e) (inl e') = inl (e' ∙ e)
Falls-trans a b c (inr e) (inl e') = inr (e' ∙ e)
Falls-trans a b c f (inr e) = inr e

-- Each name of the first table has a type in the second, the same or `unknown`.
abbrev pub MapFalls : Map Ty → Map Ty → Type 0
MapFalls m m' =
    (name : Bytes) (t : Ty) → get m name ≡ some t → (t' : Ty) × (get m' name ≡ some t') × Falls t t'

pub MapFalls-refl : (m : Map Ty) → MapFalls m m
MapFalls-refl m name t e = (t, e, inl refl)

pub MapFalls-trans : (m m' m'' : Map Ty) → MapFalls m m' → MapFalls m' m'' → MapFalls m m''
MapFalls-trans m m' m'' f g name t e =
    let (t', e', falls) = f name t e in
    let (t'', e'', falls') = g name t' e' in (t'', e'', Falls-trans t t' t'' falls falls')

merge_type-Falls : (a b : Ty) → Falls a (merge_type a b)
unfolding merge_type
merge_type-Falls a b = if_rule (λ (t : Ty). Falls a t) _ (λ h. inr refl) (λ h. inl refl)

insert-Falls :
    (m : Map Ty) (name : Bytes) (x : Ty)
    → ((t : Ty) → get m name ≡ some t → Falls t x)
    → MapFalls m (insert name x m)
insert-Falls m name x f other t e = elim (Bool-cases (bytes_eq name other)) [
  | inl h ↦
      let same : name ≡ other = (bytes_eq_iff name other).0 h in
      (x, ap (get (insert name x m)) (sym same) ∙ get-insert name x m, f t (ap (get m) same ∙ e))
  | inr h ↦ (t, get-insert_other name other x m h ∙ e, inl refl)
]

-- What `set_type` writes.
pub set_type-insert :
    (m : Map Ty) (name : Bytes) (ty : Ty)
    → (x : Ty) × (set_type m name ty ≡ insert name x m)
      × ((t : Ty) → get m name ≡ some t → Falls t x)
unfolding set_type
set_type-insert m name ty = elim (Option-cases (get m name)) [
  | inl h ↦ (ty, ap (set_over name ty m) h, λ (t : Ty) e. cc (h, e))
  | inr (cur, h) ↦ (
    merge_type cur ty,
    ap (set_over name ty m) h,
    λ (t : Ty) e.
        let same : cur ≡ t = cc (h, e) in
        subst (λ (u : Ty). Falls u (merge_type cur ty)) same (merge_type-Falls cur ty),
  )
]

set_type-Falls : (m : Map Ty) (name : Bytes) (ty : Ty) → MapFalls m (set_type m name ty)
set_type-Falls m name ty =
    let (x, e, falls) = set_type-insert m name ty in
    subst (λ (m' : Map Ty). MapFalls m m') (sym e) (insert-Falls m name x falls)

-- What reading statements does to a scope and the tables: types fall, and of the tables only
-- `ret_types` changes.
pub record ScanFalls (s s' : Scan) : Type 0 where
  pub scope : MapFalls s.scope s'.scope
  pub ret_types : MapFalls s.tables.ret_types s'.tables.ret_types
  pub module_vars : s'.tables.module_vars ≡ s.tables.module_vars
  pub fn_vars : s'.tables.fn_vars ≡ s.tables.fn_vars
  pub fn_defs : s'.tables.fn_defs ≡ s.tables.fn_defs

ScanFalls-refl : (s : Scan) → ScanFalls s s
ScanFalls-refl s = record {
  scope = MapFalls-refl s.scope;
  ret_types = MapFalls-refl s.tables.ret_types;
  module_vars = refl;
  fn_vars = refl;
  fn_defs = refl;
}

infixr 60 ◌then◌
◌then◌ : {a b c : Scan} → ScanFalls a b → ScanFalls b c → ScanFalls a c
◌then◌ {a} {b} {c} f g = record {
  scope = MapFalls-trans a.scope b.scope c.scope f.scope g.scope;
  ret_types =
      MapFalls-trans a.tables.ret_types b.tables.ret_types c.tables.ret_types f.ret_types
        g.ret_types;
  module_vars = g.module_vars ∙ f.module_vars;
  fn_vars = g.fn_vars ∙ f.fn_vars;
  fn_defs = g.fn_defs ∙ f.fn_defs;
}

set_in-ScanFalls : (name : Bytes) (ty : Ty) (s : Scan) → ScanFalls s (set_in name ty s)
set_in-ScanFalls name ty s = record {
  scope = set_type-Falls s.scope name ty;
  ret_types = MapFalls-refl s.tables.ret_types;
  module_vars = refl;
  fn_vars = refl;
  fn_defs = refl;
}

collect_assign-ScanFalls :
    (fn_name : Bytes) (left : Exprs) (op : Bytes) (right : Expr) (s : Scan)
    → ScanFalls s (collect_assign fn_name left op right s)
collect_assign-ScanFalls fn_name (Exprs.cons (Expr.name _ name) Exprs.nil) op right s =
    set_in-ScanFalls name _ s
collect_assign-ScanFalls fn_name _ op right s = ScanFalls-refl s

collect_target-ScanFalls :
    (fn_name : Bytes) (target it : Expr) (s : Scan)
    → ScanFalls s (collect_target fn_name target it s)
collect_target-ScanFalls fn_name (Expr.name _ name) it s = set_in-ScanFalls name _ s
collect_target-ScanFalls fn_name _ it s = ScanFalls-refl s

collect_return-ScanFalls :
    (fn_name : Bytes) (value : Maybe) (s : Scan) → ScanFalls s (collect_return fn_name value s)
collect_return-ScanFalls fn_name Maybe.absent s = ScanFalls-refl s
collect_return-ScanFalls fn_name (Maybe.present v) s = record {
  scope = MapFalls-refl s.scope;
  ret_types = set_type-Falls s.tables.ret_types fn_name _;
  module_vars = refl;
  fn_vars = refl;
  fn_defs = refl;
}

mutual
  unfolding collect_stmt collect_stmts collect_elifs collect_handlers

  stmt-ScanFalls : (fn : Bytes) (st : Stmt) (s : Scan) → ScanFalls s (collect_stmt fn st s)
  stmt-ScanFalls fn (Stmt.assign _ left op right) s = collect_assign-ScanFalls fn left op right s
  stmt-ScanFalls fn (Stmt.for _ target it body els) s =
      (collect_target-ScanFalls fn target it s then stmts-ScanFalls fn body _)
      then stmts-ScanFalls fn els _
  stmt-ScanFalls fn (Stmt.while _ c body els) s =
      stmts-ScanFalls fn body s then stmts-ScanFalls fn els _
  stmt-ScanFalls fn (Stmt.if_ _ c then_ elifs els) s =
      (elifs-ScanFalls fn elifs s then stmts-ScanFalls fn then_ _) then stmts-ScanFalls fn els _
  stmt-ScanFalls fn (Stmt.try _ body handlers els finally) s =
      ((stmts-ScanFalls fn body s then handlers-ScanFalls fn handlers _)
        then stmts-ScanFalls fn els _)
      then stmts-ScanFalls fn finally _
  stmt-ScanFalls fn (Stmt.return _ value) s = collect_return-ScanFalls fn value s
  stmt-ScanFalls fn _ s = ScanFalls-refl s

  stmts-ScanFalls : (fn : Bytes) (sts : Stmts) (s : Scan) → ScanFalls s (collect_stmts fn sts s)
  stmts-ScanFalls fn Stmts.done s = ScanFalls-refl s
  stmts-ScanFalls fn (Stmts.stmt st sts) s = stmt-ScanFalls fn st s then stmts-ScanFalls fn sts _

  elifs-ScanFalls : (fn : Bytes) (es : Elifs) (s : Scan) → ScanFalls s (collect_elifs fn es s)
  elifs-ScanFalls fn Elifs.no_elifs s = ScanFalls-refl s
  elifs-ScanFalls fn (Elifs.elif_clause _ c body es) s =
      stmts-ScanFalls fn body s then elifs-ScanFalls fn es _

  handlers-ScanFalls :
      (fn : Bytes) (hs : Handlers) (s : Scan) → ScanFalls s (collect_handlers fn hs s)
  handlers-ScanFalls fn Handlers.no_handlers s = ScanFalls-refl s
  handlers-ScanFalls fn (Handlers.handler _ ty n body hs) s =
      stmts-ScanFalls fn body s then handlers-ScanFalls fn hs _

pub collect_stmts-ScanFalls :
    (fn_name : Bytes) (sts : Stmts) (s : Scan) → ScanFalls s (collect_stmts fn_name sts s)
collect_stmts-ScanFalls fn_name sts s = stmts-ScanFalls fn_name sts s

-- Reading the statements of a body, a name of the scope keeps its type or becomes `unknown`.
pub collect_stmts-scope :
    (fn_name : Bytes) (sts : Stmts) (s : Scan) (name : Bytes) (t : Ty)
    → get s.scope name ≡ some t
    → (t' : Ty) × (get (collect_stmts fn_name sts s).scope name ≡ some t') × Falls t t'
collect_stmts-scope fn_name sts s = (collect_stmts-ScanFalls fn_name sts s).scope

-- Reading the statements of a body, a known type of a function's result stays or becomes `unknown`.
pub collect_stmts-ret_types :
    (fn_name : Bytes) (sts : Stmts) (s : Scan) (name : Bytes) (t : Ty)
    → get s.tables.ret_types name ≡ some t
    → (t' : Ty) × (get (collect_stmts fn_name sts s).tables.ret_types name ≡ some t') × Falls t t'
collect_stmts-ret_types fn_name sts s = (collect_stmts-ScanFalls fn_name sts s).ret_types
