-- ===== src/Parser/Shapes.antt =====
-- What the methods of src/parser.rs share: the calls by which they recur, `push` on a `Vec`, and the loops over
-- commas.
use fly_lang.Ast.{
  Expr, Exprs, nil, cons, Maybe, KwArgs, Clauses, Stmt, Stmts, Elifs, Handlers, absent, present,
}
use fly_lang.Diagnostic.{Position}
use fly_lang.Parser.Monad.{P, pure, ◌>>=◌, when_tok, case_tok, is_token, Go, more, stop, repeat}
use fly_lang.Prelude.{Bool, false, ◌||◌, Bytes, List, [], ◌∷◌, ◌++◌}
use fly_lang.Token.{TokenType, Token, ty_eq}

-- The methods that are called again, behind a token, by the methods that they call.
pub record Rec : Type 0 where
  pub test : P Expr
  pub test_list : P Expr
  pub expr_list : P Expr
  pub or_test : P Expr
  pub not_test : P Expr
  pub factor : P Expr
  pub suite : P Stmts

-- `matches!` on token types.
unfoldable pub one_of : List TokenType → TokenType → Bool
one_of [] t = false
one_of (u ∷ us) t = ty_eq t u || one_of us t

-- `at_end`
abbrev pub at_end : TokenType → Bool
at_end = one_of (TokenType.newline ∷ TokenType.eof ∷ TokenType.semicolon ∷ [])

unfoldable pub push : {A : Type 0} → List A → A → List A
push [] y = y ∷ []
push (x ∷ xs) y = x ∷ push xs y

unfoldable pub push_expr : Exprs → Expr → Exprs
push_expr nil y = cons y nil
push_expr (cons x xs) y = cons x (push_expr xs y)

unfoldable pub push_kwarg : KwArgs → Position → Bytes → Expr → KwArgs
push_kwarg KwArgs.no_kwargs at name e = KwArgs.kwarg at name e KwArgs.no_kwargs
push_kwarg (KwArgs.kwarg at' name' e' ks) at name e =
    KwArgs.kwarg at' name' e' (push_kwarg ks at name e)

unfoldable pub push_clause : Clauses → Expr → Expr → Exprs → Clauses
push_clause Clauses.no_clauses x i ifs = Clauses.clause x i ifs Clauses.no_clauses
push_clause (Clauses.clause x' i' ifs' cs) x i ifs =
    Clauses.clause x' i' ifs' (push_clause cs x i ifs)

unfoldable pub push_stmt : Stmts → Stmt → Stmts
push_stmt Stmts.done s = Stmts.stmt s Stmts.done
push_stmt (Stmts.stmt x xs) s = Stmts.stmt x (push_stmt xs s)

unfoldable pub push_elif : Elifs → Position → Expr → Stmts → Elifs
push_elif Elifs.no_elifs at c body = Elifs.elif_clause at c body Elifs.no_elifs
push_elif (Elifs.elif_clause at' c' body' es) at c body =
    Elifs.elif_clause at' c' body' (push_elif es at c body)

unfoldable pub push_handler : Handlers → Position → Maybe → Bytes → Stmts → Handlers
push_handler Handlers.no_handlers at ty name body =
    Handlers.handler at ty name body Handlers.no_handlers
push_handler (Handlers.handler at' ty' name' body' hs) at ty name body =
    Handlers.handler at' ty' name' body' (push_handler hs at ty name body)

-- `parts.join(sep)`
unfoldable pub join : Bytes → List Bytes → Bytes
join sep [] = []
join sep (part ∷ []) = part
join sep (part ∷ rest ∷ parts) = part ++ (sep ++ join sep (rest ∷ parts))

-- An expression unless the current token says that there is none.
unfoldable pub unless : (TokenType → Bool) → P Expr → P Maybe
unless test m = when_tok test (pure absent) (do e ← m; pure (present e))

-- `if self.tok.ty != TokenType::Comma { break; } self.next();`
unfoldable pub at_comma : {S : Type 0} → S → P (Go S)
at_comma s = case_tok (is_token TokenType.comma) (λ _. pure (more s)) (pure (stop s))

-- Elements behind commas; a comma may stand last.
unfoldable pub comma_loop : (TokenType → Bool) → P Expr → Exprs → P Exprs
comma_loop test item elems =
    repeat
      (λ es.
        case_tok (is_token TokenType.comma)
          (λ _. when_tok test (pure (stop es)) (do e ← item; pure (more (push_expr es e))))
          (pure (stop es)))
      elems

-- An operator's left operand and what stands behind it.
unfoldable pub left_assoc : (TokenType → Bool) → (Token → Expr → Expr → Expr) → P Expr → P Expr
left_assoc test f operand = do
  x ← operand
  repeat (λ x. case_tok test (λ t. do y ← operand; pure (more (f t x y))) (pure (stop x))) x
