-- ===== src/Gen/Occurs.antt =====
-- Statements anywhere in a tree, as a relation on the syntax of src/ast.rs.
use fly_lang.Ast.{Expr, Exprs, Maybe, Param, Stmt, Stmts, Elifs, Handlers, stmt}
use fly_lang.Diagnostic.{Position}
use fly_lang.Prelude.{ℕ, Bool, true, Bytes, List, ◌≡◌}

-- A body of an `elif` clause.
pub data ElifBody : Stmts → Elifs → Type 0 where
  this_elif :
      {at : Position} {c : Expr} {b : Stmts} {es : Elifs} → ElifBody b (Elifs.elif_clause at c b es)
  later_elif :
      {at : Position} {c : Expr} {b x : Stmts} {es : Elifs}
      → ElifBody x es
      → ElifBody x (Elifs.elif_clause at c b es)

-- A body of an `except` clause.
pub data HandlerBody : Stmts → Handlers → Type 0 where
  this_handler :
      {at : Position} {ty : Maybe} {n : Bytes} {b : Stmts} {hs : Handlers}
      → HandlerBody b (Handlers.handler at ty n b hs)
  later_handler :
      {at : Position} {ty : Maybe} {n : Bytes} {b x : Stmts} {hs : Handlers}
      → HandlerBody x hs
      → HandlerBody x (Handlers.handler at ty n b hs)

-- A body of a statement.
pub data BodyOf : Stmts → Stmt → Type 0 where
  of_func :
      {at : Position} {n : Bytes} {ps : List Param} {r : Maybe} {b : Stmts} {ds : Exprs}
      → BodyOf b (Stmt.func_def at n ps r b ds)
  of_class :
      {at : Position} {n : Bytes} {bs : Exprs} {b : Stmts} {ds : Exprs} {seal : Bool}
      → BodyOf b (Stmt.class_def at n bs b ds seal)
  of_then :
      {at : Position} {c : Expr} {b : Stmts} {es : Elifs} {els : Stmts}
      → BodyOf b (Stmt.if_ at c b es els)
  of_if_else :
      {at : Position} {c : Expr} {b : Stmts} {es : Elifs} {els : Stmts}
      → BodyOf els (Stmt.if_ at c b es els)
  of_elif :
      {at : Position} {c : Expr} {b : Stmts} {es : Elifs} {els x : Stmts}
      → ElifBody x es
      → BodyOf x (Stmt.if_ at c b es els)
  of_for : {at : Position} {t i : Expr} {b els : Stmts} → BodyOf b (Stmt.for at t i b els)
  of_for_else : {at : Position} {t i : Expr} {b els : Stmts} → BodyOf els (Stmt.for at t i b els)
  of_while : {at : Position} {c : Expr} {b els : Stmts} → BodyOf b (Stmt.while at c b els)
  of_while_else : {at : Position} {c : Expr} {b els : Stmts} → BodyOf els (Stmt.while at c b els)
  of_try :
      {at : Position} {b : Stmts} {hs : Handlers} {els fin : Stmts}
      → BodyOf b (Stmt.try at b hs els fin)
  of_try_else :
      {at : Position} {b : Stmts} {hs : Handlers} {els fin : Stmts}
      → BodyOf els (Stmt.try at b hs els fin)
  of_finally :
      {at : Position} {b : Stmts} {hs : Handlers} {els fin : Stmts}
      → BodyOf fin (Stmt.try at b hs els fin)
  of_handler :
      {at : Position} {b : Stmts} {hs : Handlers} {els fin x : Stmts}
      → HandlerBody x hs
      → BodyOf x (Stmt.try at b hs els fin)
  of_only : {at : Position} {ms : List Bytes} {b : Stmts} → BodyOf b (Stmt.only at ms b)
  of_trace : {at : Position} {l : Bytes} {a r : Bool} {b : Stmts} → BodyOf b (Stmt.trace at l a r b)
  of_cage :
      {at : Position} {ht : Bool} {t : ℕ} {hm : Bool} {m : ℕ} {b : Stmts}
      → BodyOf b (Stmt.cage at ht t hm m b)

-- A statement that passes the test stands among the statements, or in a body of one, at any depth.
pub data Occurs (test : Stmt → Bool) : Stmts → Type 0 where
  here : {s : Stmt} {ss : Stmts} → test s ≡ true → Occurs test (stmt s ss)
  inside : {s : Stmt} {b ss : Stmts} → BodyOf b s → Occurs test b → Occurs test (stmt s ss)
  later : {s : Stmt} {ss : Stmts} → Occurs test ss → Occurs test (stmt s ss)
