-- ===== src/Gen/Found.antt =====
-- What `needs_only` and its like in src/gen.rs find is what stands in the tree.
use fly_lang.Ast.{Stmt, Stmts, Elifs, Handlers, done, stmt}
use fly_lang.Gen.Needs.{
  is_only, is_trace, is_cage, needs, need_stmt, need_elifs, need_handlers, needs_only, needs_trace,
  needs_cage, needs_guard, guard_in, guard_in_elifs, guard_in_handlers,
}
use fly_lang.Gen.Occurs.{
  ElifBody, this_elif, later_elif, HandlerBody, this_handler, later_handler, BodyOf, of_func,
  of_class, of_then, of_if_else, of_elif, of_for, of_for_else, of_while, of_while_else, of_try,
  of_try_else, of_finally, of_handler, of_only, of_trace, of_cage, Occurs, here, inside, later,
}
use fly_lang.Prelude.{Bool, true, false, ◌||◌, ◌≡◌, ◌↔◌, ◌⊎◌, inl, inr, refl}

or_left : (a b : Bool) → a ≡ true → (a || b) ≡ true
or_left true b h = refl
or_left false b h = cc

or_right : (a b : Bool) → b ≡ true → (a || b) ≡ true
or_right true b h = refl
or_right false b h = h

or_cases : (a b : Bool) → (a || b) ≡ true → (a ≡ true) ⊎ (b ≡ true)
or_cases true b h = inl refl
or_cases false b h = inr h

need_elifs-BodyOf :
    (t : Stmt → Bool) {b : Stmts} {es : Elifs}
    → ElifBody b es
    → needs t b ≡ true
    → need_elifs t es ≡ true
unfolding need_elifs
need_elifs-BodyOf t this_elif h = or_left _ _ h
need_elifs-BodyOf t (later_elif e) h = or_right _ _ (need_elifs-BodyOf t e h)

need_handlers-BodyOf :
    (t : Stmt → Bool) {b : Stmts} {hs : Handlers}
    → HandlerBody b hs
    → needs t b ≡ true
    → need_handlers t hs ≡ true
unfolding need_handlers
need_handlers-BodyOf t this_handler h = or_left _ _ h
need_handlers-BodyOf t (later_handler e) h = or_right _ _ (need_handlers-BodyOf t e h)

need_stmt-BodyOf :
    (t : Stmt → Bool) {b : Stmts} {s : Stmt} → BodyOf b s → needs t b ≡ true → need_stmt t s ≡ true
unfolding need_stmt
need_stmt-BodyOf t of_func h = h
need_stmt-BodyOf t of_class h = h
need_stmt-BodyOf t of_then h = or_left _ _ (or_left _ _ h)
need_stmt-BodyOf t of_if_else h = or_left _ _ (or_right _ _ h)
need_stmt-BodyOf t (of_elif e) h = or_right _ _ (need_elifs-BodyOf t e h)
need_stmt-BodyOf t of_for h = or_left _ _ h
need_stmt-BodyOf t of_for_else h = or_right _ _ h
need_stmt-BodyOf t of_while h = or_left _ _ h
need_stmt-BodyOf t of_while_else h = or_right _ _ h
need_stmt-BodyOf t of_try h = or_left _ _ (or_left _ _ h)
need_stmt-BodyOf t of_try_else h = or_left _ _ (or_right _ _ (or_left _ _ h))
need_stmt-BodyOf t of_finally h = or_left _ _ (or_right _ _ (or_right _ _ h))
need_stmt-BodyOf t (of_handler e) h = or_right _ _ (need_handlers-BodyOf t e h)
need_stmt-BodyOf t of_only h = h
need_stmt-BodyOf t of_trace h = h
need_stmt-BodyOf t of_cage h = h

needs-Occurs : (t : Stmt → Bool) {ss : Stmts} → Occurs t ss → needs t ss ≡ true
unfolding needs
needs-Occurs t (here h) = or_left _ _ h
needs-Occurs t (inside e o) = or_right _ _ (or_left _ _ (need_stmt-BodyOf t e (needs-Occurs t o)))
needs-Occurs t (later o) = or_right _ _ (or_right _ _ (needs-Occurs t o))

-- Some body of a statement holds one.
abbrev Holds : (Stmt → Bool) → Stmt → Type 0
Holds t s = (b : Stmts) × BodyOf b s × Occurs t b

mutual
  unfolding needs need_stmt need_elifs need_handlers

  Occurs-needs : (t : Stmt → Bool) (ss : Stmts) → needs t ss ≡ true → Occurs t ss
  Occurs-needs t done h = cc
  Occurs-needs t (stmt s ss) h = elim (or_cases (t s) _ h) [
    | inl e ↦ here e
    | inr e ↦ elim (or_cases (need_stmt t s) _ e) [
      | inl i ↦ let (b, at, o) = Holds-need_stmt t s i in inside at o
      | inr i ↦ later (Occurs-needs t ss i)
    ]
  ]

  Holds-need_stmt : (t : Stmt → Bool) (s : Stmt) → need_stmt t s ≡ true → Holds t s
  Holds-need_stmt t (Stmt.func_def _ _ _ _ b _) h = (b, of_func, Occurs-needs t b h)
  Holds-need_stmt t (Stmt.class_def _ _ _ b _ _) h = (b, of_class, Occurs-needs t b h)
  Holds-need_stmt t (Stmt.if_ _ _ b es els) h = elim (or_cases _ (need_elifs t es) h) [
    | inl e ↦ elim (or_cases (needs t b) (needs t els) e) [
      | inl i ↦ (b, of_then, Occurs-needs t b i)
      | inr i ↦ (els, of_if_else, Occurs-needs t els i)
    ]
    | inr e ↦ let (x, at, o) = Holds-need_elifs t es e in (x, of_elif at, o)
  ]
  Holds-need_stmt t (Stmt.for _ _ _ b els) h = elim (or_cases (needs t b) (needs t els) h) [
    | inl i ↦ (b, of_for, Occurs-needs t b i)
    | inr i ↦ (els, of_for_else, Occurs-needs t els i)
  ]
  Holds-need_stmt t (Stmt.while _ _ b els) h = elim (or_cases (needs t b) (needs t els) h) [
    | inl i ↦ (b, of_while, Occurs-needs t b i)
    | inr i ↦ (els, of_while_else, Occurs-needs t els i)
  ]
  Holds-need_stmt t (Stmt.try _ b hs els fin) h = elim (or_cases _ (need_handlers t hs) h) [
    | inl e ↦ elim (or_cases (needs t b) _ e) [
      | inl i ↦ (b, of_try, Occurs-needs t b i)
      | inr i ↦ elim (or_cases (needs t els) (needs t fin) i) [
        | inl j ↦ (els, of_try_else, Occurs-needs t els j)
        | inr j ↦ (fin, of_finally, Occurs-needs t fin j)
      ]
    ]
    | inr e ↦ let (x, at, o) = Holds-need_handlers t hs e in (x, of_handler at, o)
  ]
  Holds-need_stmt t (Stmt.only _ _ b) h = (b, of_only, Occurs-needs t b h)
  Holds-need_stmt t (Stmt.trace _ _ _ _ b) h = (b, of_trace, Occurs-needs t b h)
  Holds-need_stmt t (Stmt.cage _ _ _ _ _ b) h = (b, of_cage, Occurs-needs t b h)
  Holds-need_stmt t _ h = cc

  Holds-need_elifs :
      (t : Stmt → Bool) (es : Elifs)
      → need_elifs t es ≡ true
      → (b : Stmts) × ElifBody b es × Occurs t b
  Holds-need_elifs t Elifs.no_elifs h = cc
  Holds-need_elifs t (Elifs.elif_clause _ _ b es) h = elim (or_cases (needs t b) _ h) [
    | inl i ↦ (b, this_elif, Occurs-needs t b i)
    | inr i ↦ let (x, at, o) = Holds-need_elifs t es i in (x, later_elif at, o)
  ]

  Holds-need_handlers :
      (t : Stmt → Bool) (hs : Handlers)
      → need_handlers t hs ≡ true
      → (b : Stmts) × HandlerBody b hs × Occurs t b
  Holds-need_handlers t Handlers.no_handlers h = cc
  Holds-need_handlers t (Handlers.handler _ _ _ b hs) h = elim (or_cases (needs t b) _ h) [
    | inl i ↦ (b, this_handler, Occurs-needs t b i)
    | inr i ↦ let (x, at, o) = Holds-need_handlers t hs i in (x, later_handler at, o)
  ]

-- The run time of `only` is asked for exactly where an `only` stands in the program, at any depth; and so those of
-- `trace` and of `cage`.
pub needs_iff :
    (ss : Stmts)
    → ((needs_only ss ≡ true) ↔ Occurs is_only ss)
      × (((needs_trace ss ≡ true) ↔ Occurs is_trace ss)
          × ((needs_cage ss ≡ true) ↔ Occurs is_cage ss))
unfolding needs_only needs_trace needs_cage
needs_iff ss = (
  (Occurs-needs is_only ss, needs-Occurs is_only),
  (
    (Occurs-needs is_trace ss, needs-Occurs is_trace),
    (Occurs-needs is_cage ss, needs-Occurs is_cage),
  ),
)

abbrev pub is_guard : Stmt → Bool
is_guard (Stmt.guard _ _ _ _) = true
is_guard _ = false

guard_in-is_guard : (s : Stmt) → is_guard s ≡ true → guard_in s ≡ true
unfolding guard_in
guard_in-is_guard (Stmt.guard _ _ _ _) h = refl
guard_in-is_guard _ h = cc

guard_in_elifs-BodyOf :
    {b : Stmts} {es : Elifs} → ElifBody b es → needs_guard b ≡ true → guard_in_elifs es ≡ true
unfolding guard_in_elifs
guard_in_elifs-BodyOf this_elif h = or_left _ _ h
guard_in_elifs-BodyOf (later_elif e) h = or_right _ _ (guard_in_elifs-BodyOf e h)

guard_in_handlers-BodyOf :
    {b : Stmts} {hs : Handlers}
    → HandlerBody b hs
    → needs_guard b ≡ true
    → guard_in_handlers hs ≡ true
unfolding guard_in_handlers
guard_in_handlers-BodyOf this_handler h = or_left _ _ h
guard_in_handlers-BodyOf (later_handler e) h = or_right _ _ (guard_in_handlers-BodyOf e h)

guard_in-BodyOf : {b : Stmts} {s : Stmt} → BodyOf b s → needs_guard b ≡ true → guard_in s ≡ true
unfolding guard_in
guard_in-BodyOf of_func h = h
guard_in-BodyOf of_class h = h
guard_in-BodyOf of_then h = or_left _ _ (or_left _ _ h)
guard_in-BodyOf of_if_else h = or_left _ _ (or_right _ _ h)
guard_in-BodyOf (of_elif e) h = or_right _ _ (guard_in_elifs-BodyOf e h)
guard_in-BodyOf of_for h = or_left _ _ h
guard_in-BodyOf of_for_else h = or_right _ _ h
guard_in-BodyOf of_while h = or_left _ _ h
guard_in-BodyOf of_while_else h = or_right _ _ h
guard_in-BodyOf of_try h = or_left _ _ (or_left _ _ h)
guard_in-BodyOf of_try_else h = or_left _ _ (or_right _ _ (or_left _ _ h))
guard_in-BodyOf of_finally h = or_left _ _ (or_right _ _ (or_right _ _ h))
guard_in-BodyOf (of_handler e) h = or_right _ _ (guard_in_handlers-BodyOf e h)
guard_in-BodyOf of_only h = or_left _ _ h
guard_in-BodyOf of_trace h = or_left _ _ h
guard_in-BodyOf of_cage h = or_left _ _ h

-- Where a `guard` stands in the program, at any depth, its run time is asked for.
pub needs_guard-Occurs : {ss : Stmts} → Occurs is_guard ss → needs_guard ss ≡ true
unfolding needs_guard
needs_guard-Occurs (here {s} h) = or_left _ _ (guard_in-is_guard s h)
needs_guard-Occurs (inside e o) = or_left _ _ (guard_in-BodyOf e (needs_guard-Occurs o))
needs_guard-Occurs (later o) = or_right _ _ (needs_guard-Occurs o)
