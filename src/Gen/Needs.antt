-- ===== src/Gen/Needs.antt =====
-- src/gen.rs: which run time a program needs, `needs_guard`, `needs_only`, `needs_trace` and `needs_cage`.
use fly_lang.Ast.{Stmt, Stmts, Elifs, Handlers, done, stmt}
use fly_lang.Prelude.{Bool, true, false, ◌||◌}

abbrev pub is_only : Stmt → Bool
is_only (Stmt.only _ _ _) = true
is_only _ = false

abbrev pub is_trace : Stmt → Bool
is_trace (Stmt.trace _ _ _ _ _) = true
is_trace _ = false

abbrev pub is_cage : Stmt → Bool
is_cage (Stmt.cage _ _ _ _ _ _) = true
is_cage _ = false

-- `needs_only`, `needs_trace` and `needs_cage` differ in the statement that they look for.
unfoldable mutual
  pub needs : (Stmt → Bool) → Stmts → Bool
  needs test done = false
  needs test (stmt s ss) = test s || (need_stmt test s || needs test ss)

  -- The bodies of a statement.
  pub need_stmt : (Stmt → Bool) → Stmt → Bool
  need_stmt test (Stmt.func_def _ _ _ _ body _) = needs test body
  need_stmt test (Stmt.class_def _ _ _ body _ _) = needs test body
  need_stmt test (Stmt.if_ _ _ body elifs els) =
      (needs test body || needs test els) || need_elifs test elifs
  need_stmt test (Stmt.for _ _ _ body els) = needs test body || needs test els
  need_stmt test (Stmt.while _ _ body els) = needs test body || needs test els
  need_stmt test (Stmt.try _ body handlers els finally) =
      (needs test body || (needs test els || needs test finally)) || need_handlers test handlers
  need_stmt test (Stmt.only _ _ body) = needs test body
  need_stmt test (Stmt.trace _ _ _ _ body) = needs test body
  need_stmt test (Stmt.cage _ _ _ _ _ body) = needs test body
  need_stmt test _ = false

  pub need_elifs : (Stmt → Bool) → Elifs → Bool
  need_elifs test Elifs.no_elifs = false
  need_elifs test (Elifs.elif_clause _ _ body es) = needs test body || need_elifs test es

  pub need_handlers : (Stmt → Bool) → Handlers → Bool
  need_handlers test Handlers.no_handlers = false
  need_handlers test (Handlers.handler _ _ _ body hs) = needs test body || need_handlers test hs

unfoldable pub needs_only : Stmts → Bool
needs_only ss = needs is_only ss

unfoldable pub needs_trace : Stmts → Bool
needs_trace ss = needs is_trace ss

unfoldable pub needs_cage : Stmts → Bool
needs_cage ss = needs is_cage ss

unfoldable mutual
  pub needs_guard : Stmts → Bool
  needs_guard done = false
  needs_guard (stmt s ss) = guard_in s || needs_guard ss

  -- A turn of the loop over statements.
  pub guard_in : Stmt → Bool
  guard_in (Stmt.guard _ _ _ _) = true
  guard_in (Stmt.func_def _ _ _ _ body _) = needs_guard body
  guard_in (Stmt.class_def _ _ _ body _ _) = needs_guard body
  guard_in (Stmt.if_ _ _ body elifs els) =
      (needs_guard body || needs_guard els) || guard_in_elifs elifs
  guard_in (Stmt.for _ _ _ body els) = needs_guard body || needs_guard els
  guard_in (Stmt.while _ _ body els) = needs_guard body || needs_guard els
  guard_in (Stmt.try _ body handlers els finally) =
      (needs_guard body || (needs_guard els || needs_guard finally)) || guard_in_handlers handlers
  guard_in (Stmt.only _ _ body) = needs_guard body || needs is_only body
  guard_in (Stmt.trace _ _ _ _ body) = needs_guard body || needs is_trace body
  guard_in (Stmt.cage _ _ _ _ _ body) = needs_guard body || needs is_cage body
  guard_in _ = false

  pub guard_in_elifs : Elifs → Bool
  guard_in_elifs Elifs.no_elifs = false
  guard_in_elifs (Elifs.elif_clause _ _ body es) = needs_guard body || guard_in_elifs es

  pub guard_in_handlers : Handlers → Bool
  guard_in_handlers Handlers.no_handlers = false
  guard_in_handlers (Handlers.handler _ _ _ body hs) = needs_guard body || guard_in_handlers hs
