-- ===== src/Tests/Parsing.antt =====
-- Runs of the parser.
use fly_lang.Lexer.Cursor.{
  start, advance_on, advance, advance_by, byte_at, peek, is_empty, at_end, slice, advance_while,
  skip_line, is_ident_start, is_ident_part,
}
use fly_lang.Lexer.Layout.{
  top, touch_last, pop_pending, close_all, close_above, settle, bad_level, check_level, indent,
  dedent_to, indent_to, front_or_eof, close_blocks, bad_tab, byte_at_start, after_spaces, line_turn,
  line_start,
}
use fly_lang.Lexer.Loop.{loop}
use fly_lang.Lexer.Next.{
  token_here, lex_token, end_of_input, end_of_line, byte_in_line, in_line, next_turn, next_on,
  next_after, next, lex_loop, lex_all,
}
use fly_lang.Lexer.Numbers.{
  is_digit, is_digit_part, is_hex_part, has_radix, digits, exponent, fraction, decimal, number_at,
  finish_number, scan_number,
}
use fly_lang.Lexer.Operators.{op_at, bracket, op_here, scan_op}
use fly_lang.Lexer.State.{
  index, index_on, new, errorf, push_pending, inc32, dec32, is_pos32, is_neg32, Lexer,
}
use fly_lang.Lexer.Words.{
  scan_ident, lower, prefix_index, is_seen, prefix_loop, is_string_prefix, string_loop, past_quotes,
  is_triple, finish_string, scan_string, scan_string_prefix,
}
use fly_lang.Token.{select, keyword, keyword_name, symbol_name, ty_eq, discriminant, Token}
use fly_lang.Ast.{Expr, nil, cons, Stmt, Stmts, Module, expr_pos}
use fly_lang.Diagnostic.{Diagnostic, Position, error_code, code_in}
use fly_lang.Diagnostic.Format.{format_msg, fill, find_verb}
use fly_lang.Parser.Limits.{mb, unquote_str-quoted, parse_mem_spec-product}
use fly_lang.Parser.Monad.{
  Parser, size, ◌>>=◌, take, peek as parser_peek, report, errorf as parser_errorf, this, is_token,
  when_tok, branch, case_tok, expect, repeat_on, repeat, until_on, until,
}
use fly_lang.Parser.Shapes.{
  one_of, push, push_expr, push_kwarg, push_clause, push_stmt, push_elif, push_handler, join,
  unless, at_comma, comma_loop, left_assoc,
}
use fly_lang.Parser.Atoms.{
  strings, paren_atom, comp_ifs, comp_clauses, list_comp, list_elems, list_atom, dict_unpack,
  skip_comp, dict_items, set_elems, dict_or_set, dict_set_atom, no_atom, word_atom, parse_atom,
}
use fly_lang.Parser.Postfix.{
  keyword_arg, plain_arg, arg_turn, call_args, slice as parser_slice, index_or_name,
  parse_subscript_index, subscript, postfix_turn, parse_atom_expr,
}
use fly_lang.Parser.Operators.{
  parse_power, parse_factor, parse_term, parse_arith, parse_shift, parse_bit_and, parse_bit_xor,
  parse_bit_or, is_comp_op, comp_op, comp_turn, parse_comparison, parse_not_test, parse_and_test,
  parse_or_test, conditional, parse_test, item, item_list, parse_test_list, parse_expr_list,
}
use fly_lang.Parser.Specs.{
  F64, unquote_str, span, time_spec, parse_time_spec, digits_value, i64_from_str, mem_spec,
  parse_mem_spec,
}
use fly_lang.Parser.Simple.{
  skip_semicolons, stmt_end, ended, is_aug_assign, check_target, check_targets, need_target,
  chain_turn, assign_from, assignment, line_turn as parser_line_turn,
  end_of_line as parser_end_of_line, after_line, simple_stmt,
}
use fly_lang.Parser.Lines.{
  return_stmt, raise_stmt, del_stmt, need_name, lock_stmt, taint_decl_stmt, guard_conds,
  typed_guard, plain_guard, guard_stmt, dotted_name, as_name, import_turn, import_stmt,
  from_import_turn, from_module, from_import_stmt,
}
use fly_lang.Parser.Heads.{
  param_name, test_behind, param_turn, params, bases, only_modules, refuse, option_turn,
  trace_level, trace_flag, trace_arg, trace_turn, trace_args, max_time, max_memory, cage_arg,
  cage_turn, cage_limits,
}
use fly_lang.Parser.Blocks.{
  func_def, only_stmt, class_def, give_up, seal_stmt, trace_body, trace_stmt, cage_body, cage_stmt,
  suite_behind, elif_turn, if_stmt, for_stmt, while_stmt, except_head, except_turn, try_stmt,
  decorator, decorator_turn, decorated_stmt, refuse_keyword, line_stmt, block_stmt, statement,
  push_some, stmt_turn, block, inline_turn, suite,
}
use fly_lang.Parser.Module.{
  level, new as parser_new, statements, parse_module, outcome, parse_state, parse,
}
use fly_lang.Parser.Module.{at_start}
use fly_lang.Parser.Visits.{visits, seen, visits-lex_all}
use fly_lang.Parser.Whole.{
  parse_total, parse-ReadsAll, ReadsAll, parse_lex_error, statement_progress, statement_first_error,
}
use fly_lang.Prelude.{
  true, ◌∷◌, length, ℕ, suc, ◌*◌, ◌≤◌, ◌<◌, Bytes, utf8, bytes_eq, List, [], Option, none, some,
  ◌≡◌, ◌≢◌, ◌⊎◌, inr, ◌^◌, false, refl, arith,
}
use fly_lang.Lexer.Invariant.{IsSound}
use fly_lang.Token.{pos, name}

abbrev tokens_of : Option (List Token × Lexer) → List Token
tokens_of none = []
tokens_of (some (ts, l)) = ts

abbrev lexer_of : Option (List Token × Lexer) → Lexer
lexer_of none = new []
lexer_of (some (ts, l)) = l

-- An arithmetic that reads every number as 5.0.
abbrev five : F64
five = record { from_str = λ s. some 0x4014000000000000; mul = λ a b. a; is_le_zero = λ a. false }

abbrev at : ℕ → ℕ → Position
at l c = record { line = l; col = c }

abbrev one : Bytes
one = utf8 "x = 1\n"

abbrev one_module : Module
one_module = record {
  pos = at 2 1;
  stmts =
      Stmts.stmt
        (Stmt.assign (at 1 1) (cons (Expr.name (at 1 1) (utf8 "x")) nil) (utf8 "=")
          (Expr.int_lit (at 1 5) (utf8 "1")))
        Stmts.done;
}

one-parse : parse five one ≡ some (some one_module, none)
unfolding start advance_on advance advance_by byte_at peek is_empty at_end slice advance_while
    skip_line is_ident_start is_ident_part top touch_last pop_pending close_all close_above settle
    bad_level check_level indent dedent_to indent_to front_or_eof close_blocks bad_tab byte_at_start
    after_spaces line_turn line_start loop token_here lex_token end_of_input end_of_line
    byte_in_line in_line next_turn next_on next_after next lex_loop lex_all is_digit is_digit_part
    is_hex_part has_radix digits exponent fraction decimal number_at finish_number scan_number op_at
    bracket op_here index index_on scan_op new errorf push_pending inc32 dec32 is_pos32 is_neg32
    scan_ident lower prefix_index is_seen prefix_loop is_string_prefix string_loop past_quotes
    is_triple finish_string scan_string scan_string_prefix select keyword keyword_name symbol_name
    ty_eq discriminant bytes_eq ◌>>=◌ take parser_peek report parser_errorf this is_token when_tok
    branch case_tok expect repeat_on repeat until_on until one_of push push_expr push_kwarg
    push_clause push_stmt push_elif push_handler join unless at_comma comma_loop left_assoc strings
    paren_atom comp_ifs comp_clauses list_comp list_elems list_atom dict_unpack skip_comp dict_items
    set_elems dict_or_set dict_set_atom no_atom word_atom parse_atom keyword_arg plain_arg arg_turn
    call_args parser_slice index_or_name parse_subscript_index subscript postfix_turn
    parse_atom_expr parse_power parse_factor parse_term parse_arith parse_shift parse_bit_and
    parse_bit_xor parse_bit_or is_comp_op comp_op comp_turn parse_comparison parse_not_test
    parse_and_test parse_or_test conditional parse_test item item_list parse_test_list
    parse_expr_list unquote_str span time_spec parse_time_spec digits_value i64_from_str mem_spec
    parse_mem_spec skip_semicolons stmt_end ended is_aug_assign check_target check_targets
    need_target chain_turn assign_from assignment parser_line_turn parser_end_of_line after_line
    simple_stmt return_stmt raise_stmt del_stmt need_name lock_stmt taint_decl_stmt guard_conds
    typed_guard plain_guard guard_stmt dotted_name as_name import_turn import_stmt from_import_turn
    from_module from_import_stmt param_name test_behind param_turn params bases only_modules refuse
    option_turn trace_level trace_flag trace_arg trace_turn trace_args max_time max_memory cage_arg
    cage_turn cage_limits func_def only_stmt class_def give_up seal_stmt trace_body trace_stmt
    cage_body cage_stmt suite_behind elif_turn if_stmt for_stmt while_stmt except_head except_turn
    try_stmt decorator decorator_turn decorated_stmt refuse_keyword line_stmt block_stmt statement
    push_some stmt_turn block inline_turn suite level parser_new statements parse_module outcome
    parse_state parse pos expr_pos error_code code_in format_msg fill find_verb name
one-parse = refl

abbrev five_int : Expr
five_int = Expr.int_lit (at 1 5) (utf8 "5")

-- The error that is reported, by its code.
abbrev code_of : Option (Option Module × Option Diagnostic) → Bytes
code_of (some (m, some d)) = d.code
code_of _ = []

abbrev code : Bytes → Bytes
code src = code_of (parse five src)

abbrev body_of : Option Module → Stmts
body_of none = Stmts.done
body_of (some m) = m.stmts

abbrev stmts_of : Option (Option Module × Option Diagnostic) → Stmts
stmts_of (some (m, none)) = body_of m
stmts_of _ = Stmts.done

abbrev count : Stmts → ℕ
count Stmts.done = 0
count (Stmts.stmt s ss) = suc (count ss)

-- The statements of a source that is parsed with no error.
abbrev statements_in : Bytes → ℕ
statements_in src = count (stmts_of (parse five src))

-- Programs that are parsed, by the number of their statements.
programs :
    (statements_in (utf8 "def f(a, b: int = 1, *args, **kw):\n    return a\n") ≡ 1)
    × (statements_in (utf8 "if a:\n    pass\nelif b:\n    pass\nelse:\n    pass\n") ≡ 1)
    × (statements_in (utf8 "f(a, x=1, *xs, **kw)\na[1:2], b[1, 2], c[:]\n") ≡ 2)
    × (statements_in (utf8 "xs = [x for x in range(10) if x > 2]\n") ≡ 1)
    × (statements_in (utf8 "lock x\nsafe a, b\nmask c\nguard x: int\nonly (math):\n    pass\n") ≡ 5)
    × (statements_in (utf8 "trace(level=\"INFO\", args=False):\n    pass\n") ≡ 1)
    × (statements_in (utf8 "cage(max_time=\"5s\", max_memory=\"100MB\"):\n    pass\n") ≡ 1)
    × (statements_in (utf8 "from ..a.b import c as d, *\n@p\nclass A(B):\n  x = y\n") ≡ 2)
unfolding start advance_on advance advance_by byte_at peek is_empty at_end slice advance_while
    skip_line is_ident_start is_ident_part top touch_last pop_pending close_all close_above settle
    bad_level check_level indent dedent_to indent_to front_or_eof close_blocks bad_tab byte_at_start
    after_spaces line_turn line_start loop token_here lex_token end_of_input end_of_line
    byte_in_line in_line next_turn next_on next_after next lex_loop lex_all is_digit is_digit_part
    is_hex_part has_radix digits exponent fraction decimal number_at finish_number scan_number op_at
    bracket op_here index index_on scan_op new errorf push_pending inc32 dec32 is_pos32 is_neg32
    scan_ident lower prefix_index is_seen prefix_loop is_string_prefix string_loop past_quotes
    is_triple finish_string scan_string scan_string_prefix select keyword keyword_name symbol_name
    ty_eq discriminant bytes_eq ◌>>=◌ take parser_peek report parser_errorf this is_token when_tok
    branch case_tok expect repeat_on repeat until_on until one_of push push_expr push_kwarg
    push_clause push_stmt push_elif push_handler join unless at_comma comma_loop left_assoc strings
    paren_atom comp_ifs comp_clauses list_comp list_elems list_atom dict_unpack skip_comp dict_items
    set_elems dict_or_set dict_set_atom no_atom word_atom parse_atom keyword_arg plain_arg arg_turn
    call_args parser_slice index_or_name parse_subscript_index subscript postfix_turn
    parse_atom_expr parse_power parse_factor parse_term parse_arith parse_shift parse_bit_and
    parse_bit_xor parse_bit_or is_comp_op comp_op comp_turn parse_comparison parse_not_test
    parse_and_test parse_or_test conditional parse_test item item_list parse_test_list
    parse_expr_list unquote_str span time_spec parse_time_spec digits_value i64_from_str mem_spec
    parse_mem_spec skip_semicolons stmt_end ended is_aug_assign check_target check_targets
    need_target chain_turn assign_from assignment parser_line_turn parser_end_of_line after_line
    simple_stmt return_stmt raise_stmt del_stmt need_name lock_stmt taint_decl_stmt guard_conds
    typed_guard plain_guard guard_stmt dotted_name as_name import_turn import_stmt from_import_turn
    from_module from_import_stmt param_name test_behind param_turn params bases only_modules refuse
    option_turn trace_level trace_flag trace_arg trace_turn trace_args max_time max_memory cage_arg
    cage_turn cage_limits func_def only_stmt class_def give_up seal_stmt trace_body trace_stmt
    cage_body cage_stmt suite_behind elif_turn if_stmt for_stmt while_stmt except_head except_turn
    try_stmt decorator decorator_turn decorated_stmt refuse_keyword line_stmt block_stmt statement
    push_some stmt_turn block inline_turn suite level parser_new statements parse_module outcome
    parse_state parse pos expr_pos error_code code_in format_msg fill find_verb name
programs = (refl, refl, refl, refl, refl, refl, refl, refl)

-- The second statement of a line is read and is not in the tree.
second_of_line : statements_in (utf8 "a = 1; b = 2\n") ≡ 1
unfolding start advance_on advance advance_by byte_at peek is_empty at_end slice advance_while
    skip_line is_ident_start is_ident_part top touch_last pop_pending close_all close_above settle
    bad_level check_level indent dedent_to indent_to front_or_eof close_blocks bad_tab byte_at_start
    after_spaces line_turn line_start loop token_here lex_token end_of_input end_of_line
    byte_in_line in_line next_turn next_on next_after next lex_loop lex_all is_digit is_digit_part
    is_hex_part has_radix digits exponent fraction decimal number_at finish_number scan_number op_at
    bracket op_here index index_on scan_op new errorf push_pending inc32 dec32 is_pos32 is_neg32
    scan_ident lower prefix_index is_seen prefix_loop is_string_prefix string_loop past_quotes
    is_triple finish_string scan_string scan_string_prefix select keyword keyword_name symbol_name
    ty_eq discriminant bytes_eq ◌>>=◌ take parser_peek report parser_errorf this is_token when_tok
    branch case_tok expect repeat_on repeat until_on until one_of push push_expr push_kwarg
    push_clause push_stmt push_elif push_handler join unless at_comma comma_loop left_assoc strings
    paren_atom comp_ifs comp_clauses list_comp list_elems list_atom dict_unpack skip_comp dict_items
    set_elems dict_or_set dict_set_atom no_atom word_atom parse_atom keyword_arg plain_arg arg_turn
    call_args parser_slice index_or_name parse_subscript_index subscript postfix_turn
    parse_atom_expr parse_power parse_factor parse_term parse_arith parse_shift parse_bit_and
    parse_bit_xor parse_bit_or is_comp_op comp_op comp_turn parse_comparison parse_not_test
    parse_and_test parse_or_test conditional parse_test item item_list parse_test_list
    parse_expr_list unquote_str span time_spec parse_time_spec digits_value i64_from_str mem_spec
    parse_mem_spec skip_semicolons stmt_end ended is_aug_assign check_target check_targets
    need_target chain_turn assign_from assignment parser_line_turn parser_end_of_line after_line
    simple_stmt return_stmt raise_stmt del_stmt need_name lock_stmt taint_decl_stmt guard_conds
    typed_guard plain_guard guard_stmt dotted_name as_name import_turn import_stmt from_import_turn
    from_module from_import_stmt param_name test_behind param_turn params bases only_modules refuse
    option_turn trace_level trace_flag trace_arg trace_turn trace_args max_time max_memory cage_arg
    cage_turn cage_limits func_def only_stmt class_def give_up seal_stmt trace_body trace_stmt
    cage_body cage_stmt suite_behind elif_turn if_stmt for_stmt while_stmt except_head except_turn
    try_stmt decorator decorator_turn decorated_stmt refuse_keyword line_stmt block_stmt statement
    push_some stmt_turn block inline_turn suite level parser_new statements parse_module outcome
    parse_state parse pos expr_pos error_code code_in format_msg fill find_verb name
second_of_line = refl

-- Programs that are refused, by the code of the error.
errors :
    (code (utf8 "x = (1 +\n") ≡ utf8 "E0002")
    × (code (utf8 "assert True\n") ≡ utf8 "E0004")
    × (code (utf8 "f(1=2)\n") ≡ utf8 "E0005")
    × (code (utf8 "a + b = c\n") ≡ utf8 "E0006")
    × (code (utf8 "cage():\n  pass\n") ≡ utf8 "E0020")
    × (code (utf8 "x = \"a\n") ≡ utf8 "E0002")
unfolding start advance_on advance advance_by byte_at peek is_empty at_end slice advance_while
    skip_line is_ident_start is_ident_part top touch_last pop_pending close_all close_above settle
    bad_level check_level indent dedent_to indent_to front_or_eof close_blocks bad_tab byte_at_start
    after_spaces line_turn line_start loop token_here lex_token end_of_input end_of_line
    byte_in_line in_line next_turn next_on next_after next lex_loop lex_all is_digit is_digit_part
    is_hex_part has_radix digits exponent fraction decimal number_at finish_number scan_number op_at
    bracket op_here index index_on scan_op new errorf push_pending inc32 dec32 is_pos32 is_neg32
    scan_ident lower prefix_index is_seen prefix_loop is_string_prefix string_loop past_quotes
    is_triple finish_string scan_string scan_string_prefix select keyword keyword_name symbol_name
    ty_eq discriminant bytes_eq ◌>>=◌ take parser_peek report parser_errorf this is_token when_tok
    branch case_tok expect repeat_on repeat until_on until one_of push push_expr push_kwarg
    push_clause push_stmt push_elif push_handler join unless at_comma comma_loop left_assoc strings
    paren_atom comp_ifs comp_clauses list_comp list_elems list_atom dict_unpack skip_comp dict_items
    set_elems dict_or_set dict_set_atom no_atom word_atom parse_atom keyword_arg plain_arg arg_turn
    call_args parser_slice index_or_name parse_subscript_index subscript postfix_turn
    parse_atom_expr parse_power parse_factor parse_term parse_arith parse_shift parse_bit_and
    parse_bit_xor parse_bit_or is_comp_op comp_op comp_turn parse_comparison parse_not_test
    parse_and_test parse_or_test conditional parse_test item item_list parse_test_list
    parse_expr_list unquote_str span time_spec parse_time_spec digits_value i64_from_str mem_spec
    parse_mem_spec skip_semicolons stmt_end ended is_aug_assign check_target check_targets
    need_target chain_turn assign_from assignment parser_line_turn parser_end_of_line after_line
    simple_stmt return_stmt raise_stmt del_stmt need_name lock_stmt taint_decl_stmt guard_conds
    typed_guard plain_guard guard_stmt dotted_name as_name import_turn import_stmt from_import_turn
    from_module from_import_stmt param_name test_behind param_turn params bases only_modules refuse
    option_turn trace_level trace_flag trace_arg trace_turn trace_args max_time max_memory cage_arg
    cage_turn cage_limits func_def only_stmt class_def give_up seal_stmt trace_body trace_stmt
    cage_body cage_stmt suite_behind elif_turn if_stmt for_stmt while_stmt except_head except_turn
    try_stmt decorator decorator_turn decorated_stmt refuse_keyword line_stmt block_stmt statement
    push_some stmt_turn block inline_turn suite level parser_new statements parse_module outcome
    parse_state parse pos expr_pos error_code code_in format_msg fill find_verb name
errors = (refl, refl, refl, refl, refl, refl)

-- The product of a limit wraps: 2^34 GB are no bytes at all.
wrapped_limit : parse_mem_spec (utf8 "17179869184GB") ≡ some 0
unfolding parse_mem_spec span mem_spec i64_from_str digits_value select bytes_eq
wrapped_limit = refl

limits :
    (parse_mem_spec (utf8 "64KB") ≡ some (64 * 2 ^ 10))
    × (parse_mem_spec (utf8 "2GB") ≡ some (2 * 2 ^ 30))
    × (parse_mem_spec (utf8 "xyz") ≡ none)
    × (parse_time_spec five (utf8 "5s") ≡ some 0x4014000000000000)
    × (parse_time_spec five (utf8 "abc") ≡ none)
unfolding parse_mem_spec span mem_spec i64_from_str digits_value select bytes_eq parse_time_spec
    time_spec
limits = (refl, refl, refl, refl, refl)

parse_total_example :
    (m : Option Module) × (e : Option Diagnostic) × (parse five one ≡ some (m, e))
    × ((m ≢ none) ⊎ (e ≢ none))
parse_total_example = parse_total five one

parse-ReadsAll_example : ReadsAll one (some one_module)
parse-ReadsAll_example = parse-ReadsAll five one (some one_module) one-parse

-- A string that is not closed.
abbrev open_string : Bytes
open_string = utf8 "\"a"

open_string-lexed :
    (lex_all open_string ≡ some (tokens_of (lex_all open_string), lexer_of (lex_all open_string)))
    × ((lexer_of (lex_all open_string)).err ≢ none)
unfolding start advance_on advance advance_by byte_at peek is_empty at_end slice advance_while
    skip_line is_ident_start is_ident_part top touch_last pop_pending close_all close_above settle
    bad_level check_level indent dedent_to indent_to front_or_eof close_blocks bad_tab byte_at_start
    after_spaces line_turn line_start loop token_here lex_token end_of_input end_of_line
    byte_in_line in_line next_turn next_on next_after next lex_loop lex_all is_digit is_digit_part
    is_hex_part has_radix digits exponent fraction decimal number_at finish_number scan_number op_at
    bracket op_here index index_on scan_op new errorf push_pending inc32 dec32 is_pos32 is_neg32
    scan_ident lower prefix_index is_seen prefix_loop is_string_prefix string_loop past_quotes
    is_triple finish_string scan_string scan_string_prefix select keyword keyword_name symbol_name
    ty_eq discriminant bytes_eq
open_string-lexed = (refl, λ e. cc)

open_string-long : length (true ∷ false ∷ []) ≤ length (tokens_of (lex_all open_string))
unfolding start advance_on advance advance_by byte_at peek is_empty at_end slice advance_while
    skip_line is_ident_start is_ident_part top touch_last pop_pending close_all close_above settle
    bad_level check_level indent dedent_to indent_to front_or_eof close_blocks bad_tab byte_at_start
    after_spaces line_turn line_start loop token_here lex_token end_of_input end_of_line
    byte_in_line in_line next_turn next_on next_after next lex_loop lex_all is_digit is_digit_part
    is_hex_part has_radix digits exponent fraction decimal number_at finish_number scan_number op_at
    bracket op_here index index_on scan_op new errorf push_pending inc32 dec32 is_pos32 is_neg32
    scan_ident lower prefix_index is_seen prefix_loop is_string_prefix string_loop past_quotes
    is_triple finish_string scan_string scan_string_prefix select keyword keyword_name symbol_name
    ty_eq discriminant bytes_eq
open_string-long = omega arith

parse_lex_error_example :
    (m : Option Module) × (d : Diagnostic) × (parse five open_string ≡ some (m, some d))
parse_lex_error_example =
    parse_lex_error five open_string (tokens_of (lex_all open_string))
      (lexer_of (lex_all open_string)) open_string-lexed.0 open_string-lexed.1

abbrev opened : Parser
opened = at_start one

sound : IsSound opened.lex
unfolding new
sound = record { stack = refl; queue = tt }

small : size opened ≤ 30
unfolding new start
small = omega arith

statement_progress_example :
    (o : Option Stmt) × (p : Parser) × (statement five (level five 30) opened ≡ some (o, p))
    × ((size p < size opened) ⊎ (p.err ≢ none))
statement_progress_example = statement_progress five 30 opened sound small

abbrev failed : Diagnostic
failed = record { pos = at 1 1; code = utf8 "E0001"; msg = [] }

statement_first_error_example :
    (o : Option Stmt) × (p : Parser) × (statement five
        (level five 30)
        (record opened { err = some failed })
      ≡ some (o, p))
    × (p.err ≡ some failed)
statement_first_error_example =
    statement_first_error five 30 (record opened { err = some failed }) failed sound small refl

visits-lex_all_example :
    (p : Parser) × (visits (true ∷ false ∷ []) (at_start open_string)
      ≡ some (seen (true ∷ false ∷ []) (tokens_of (lex_all open_string)), p))
visits-lex_all_example =
    visits-lex_all open_string (tokens_of (lex_all open_string)) (lexer_of (lex_all open_string))
      (true ∷ false ∷ []) open_string-lexed.0 open_string-long

unquote_str-quoted_example : unquote_str (utf8 "'a\"'") ≡ utf8 "a\""
unquote_str-quoted_example = unquote_str-quoted b'\'' (utf8 "a\"") (inr refl)

parse_mem_spec-product_example : parse_mem_spec (utf8 "100MB") ≡ some (100 * 2 ^ 20)
unfolding digits_value select bytes_eq
parse_mem_spec-product_example =
    parse_mem_spec-product b'1' (utf8 "00") (utf8 "MB") 2 (refl, (refl, (refl, tt))) mb
      (omega arith) (omega arith)
