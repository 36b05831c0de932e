-- ===== src/Ast.antt =====
-- src/ast.rs: the syntax tree. `Vec<Expr>`, `Option<Box<Expr>>` and `Vec<Stmt>` are types of the
-- blocks of `Expr` and `Stmt`.
use fly_lang.Diagnostic.{Position}
use fly_lang.Prelude.{ℕ, Bool, Bytes, List, [], ◌∷◌, ◌==◌, if◌then◌else◌}

-- `s[..i]` where `i` is the first dot of `s`, or the whole of `s`.
unfoldable pub before_dot : Bytes → Bytes
before_dot [] = []
before_dot (c ∷ cs) = let rest = before_dot cs in if c == b'.' then [] else c ∷ rest

pub record ImportItem : Type 0 where
  pub name : Bytes
  pub alias : Bytes

abbrev pub module_ : ImportItem → Bytes
module_ it = before_dot it.name

abbrev bound_path : ImportItem → Bytes
bound_path it = elim it.alias [ [] ↦ it.name | _ ∷ _ ↦ it.alias ]

abbrev pub top_name : ImportItem → Bytes
top_name it = before_dot (bound_path it)

mutual
  pub data Expr : Type 0 where
    name : Position → Bytes → Expr
    int_lit : Position → Bytes → Expr
    float_lit : Position → Bytes → Expr
    string_lit : Position → Bytes → Expr
    ellipsis_lit : Position → Expr
    list_lit : Position → Exprs → Expr
    tuple_lit : Position → Exprs → Bool → Expr
    dict_lit : Position → Exprs → Exprs → Expr
    set_lit : Position → Exprs → Expr
    call : Position → Expr → Exprs → KwArgs → Maybe → Maybe → Expr
    attr : Position → Expr → Bytes → Expr
    slice : Position → Maybe → Maybe → Maybe → Expr
    subscript : Position → Expr → Expr → Expr
    bin_op : Position → Bytes → Expr → Expr → Expr
    unary_op : Position → Bytes → Expr → Expr
    bool_op : Position → Bytes → Expr → Expr → Expr
    compare : Position → Expr → List Bytes → Exprs → Expr
    cond : Position → Expr → Expr → Expr → Expr
    list_comp : Position → Expr → Clauses → Expr

  pub data Exprs : Type 0 where
    nil : Exprs
    cons : Expr → Exprs → Exprs

  pub data Maybe : Type 0 where
    absent : Maybe
    present : Expr → Maybe

  pub data KwArgs : Type 0 where
    no_kwargs : KwArgs
    kwarg : Position → Bytes → Expr → KwArgs → KwArgs

  -- A clause of a comprehension has a target, what it iterates and its tests.
  pub data Clauses : Type 0 where
    no_clauses : Clauses
    clause : Expr → Expr → Exprs → Clauses → Clauses

-- `Expr::pos`
unfoldable pub expr_pos : Expr → Position
expr_pos (Expr.name at _) = at
expr_pos (Expr.int_lit at _) = at
expr_pos (Expr.float_lit at _) = at
expr_pos (Expr.string_lit at _) = at
expr_pos (Expr.ellipsis_lit at) = at
expr_pos (Expr.list_lit at _) = at
expr_pos (Expr.tuple_lit at _ _) = at
expr_pos (Expr.dict_lit at _ _) = at
expr_pos (Expr.set_lit at _) = at
expr_pos (Expr.call at _ _ _ _ _) = at
expr_pos (Expr.attr at _ _) = at
expr_pos (Expr.slice at _ _ _) = at
expr_pos (Expr.subscript at _ _) = at
expr_pos (Expr.bin_op at _ _ _) = at
expr_pos (Expr.unary_op at _ _) = at
expr_pos (Expr.bool_op at _ _ _) = at
expr_pos (Expr.compare at _ _ _) = at
expr_pos (Expr.cond at _ _ _) = at
expr_pos (Expr.list_comp at _ _) = at

pub record Param : Type 0 where
  pub name : Bytes
  pub anno : Maybe
  pub default : Maybe
  pub star : Bool
  pub dbl_star : Bool

mutual
  pub data Stmt : Type 0 where
    import : Position → List ImportItem → Stmt
    from_import : Position → Bytes → List ImportItem → Stmt
    lock : Position → Bytes → Maybe → Stmt
    safe : Position → List Bytes → Stmt
    mask : Position → List Bytes → Stmt
    guard : Position → Bytes → Maybe → Exprs → Stmt
    assign : Position → Exprs → Bytes → Expr → Stmt
    expr_stmt : Position → Expr → Stmt
    func_def : Position → Bytes → List Param → Maybe → Stmts → Exprs → Stmt
    class_def : Position → Bytes → Exprs → Stmts → Exprs → Bool → Stmt
    only : Position → List Bytes → Stmts → Stmt
    trace : Position → Bytes → Bool → Bool → Stmts → Stmt
    -- The limit of time is the pattern of an `f64`, that of memory the pattern of an `i64`.
    cage : Position → Bool → ℕ → Bool → ℕ → Stmts → Stmt
    if_ : Position → Expr → Stmts → Elifs → Stmts → Stmt
    for : Position → Expr → Expr → Stmts → Stmts → Stmt
    while : Position → Expr → Stmts → Stmts → Stmt
    return : Position → Maybe → Stmt
    raise : Position → Maybe → Maybe → Stmt
    try : Position → Stmts → Handlers → Stmts → Stmts → Stmt
    pass : Position → Stmt
    break : Position → Stmt
    continue : Position → Stmt
    delete : Position → Exprs → Stmt

  pub data Stmts : Type 0 where
    done : Stmts
    stmt : Stmt → Stmts → Stmts

  pub data Elifs : Type 0 where
    no_elifs : Elifs
    elif_clause : Position → Expr → Stmts → Elifs → Elifs

  pub data Handlers : Type 0 where
    no_handlers : Handlers
    handler : Position → Maybe → Bytes → Stmts → Handlers → Handlers

pub record Module : Type 0 where
  pub pos : Position
  pub stmts : Stmts
