-- ===== src/Tests/Output.antt =====
-- The generator's parts: runs and instances.
use fly_lang.Ast
use fly_lang.Ast.{Stmt, Stmts, done, stmt, nil, absent}
use fly_lang.Diagnostic.{Position}
use fly_lang.Gen.Found.{needs_iff, needs_guard-Occurs}
use fly_lang.Gen.Literal.{py_literal, py_literal-py_quote}
use fly_lang.Gen.Needs.{
  is_only, is_trace, is_cage, needs, need_stmt, needs_only, needs_trace, needs_cage, needs_guard,
  guard_in,
}
use fly_lang.Gen.Occurs.{Occurs, here, inside, of_while_else, of_only}
use fly_lang.Gen.Quote.{Chars, quote_char, quote_chars, py_quote, join_on, quote_tuple, mods_lit}
use fly_lang.Prelude.{suc, true, false, ◌∷◌, [], ◌++◌, length, utf8, some, ◌≡◌, ◌↔◌, refl}

abbrev at : Position
at = record { line = 1; col = 1 }

abbrev deep : Stmts
deep =
    stmt
      (Stmt.while at (Ast.Expr.ellipsis_lit at) done
        (stmt (Stmt.only at [] (stmt (Stmt.guard at [] absent nil) done)) done))
      done

needs_iff_example :
    ((needs_only deep ≡ true) ↔ Occurs is_only deep)
    × (((needs_trace deep ≡ true) ↔ Occurs is_trace deep)
        × ((needs_cage deep ≡ true) ↔ Occurs is_cage deep))
needs_iff_example = needs_iff deep

deep-needs : (needs_only deep ≡ true) × ((needs_trace deep ≡ false) × (needs_guard deep ≡ true))
unfolding needs_only needs_trace needs need_stmt needs_guard guard_in
deep-needs = (refl, (refl, refl))

needs_guard-Occurs_example : needs_guard deep ≡ true
needs_guard-Occurs_example = needs_guard-Occurs (inside of_while_else (inside of_only (here refl)))

-- An `only` in an `only` asks for the run time of `guard`, with no guard in the program.
no_guard : needs_guard (stmt (Stmt.only at [] (stmt (Stmt.only at [] done) done)) done) ≡ true
unfolding needs_guard guard_in needs
no_guard = refl

-- A quote, a bell and a line break.
abbrev text : Chars
text = b'"' ∷ 7 ∷ b'\n' ∷ 0x2028 ∷ []

text_quoted : py_quote text ≡ utf8 "\"\\\"\\a\\n\\u2028\""
unfolding quote_char quote_chars py_quote
text_quoted = refl

py_literal-py_quote_example :
    py_literal (suc (length text)) (py_quote text ++ utf8 ")\n") ≡ some (text, utf8 ")\n")
py_literal-py_quote_example = py_literal-py_quote text (utf8 ")\n")

tuples :
    (mods_lit (utf8 "os" ∷ []) ≡ utf8 "('os',)")
    × (mods_lit (utf8 "os" ∷ utf8 "re" ∷ []) ≡ utf8 "('os', 're')")
unfolding mods_lit quote_tuple join_on
tuples = (refl, refl)
