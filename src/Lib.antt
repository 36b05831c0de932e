-- ===== src/Lib.antt =====
-- Verification library of the PyFly transpiler, for the Rust code of the repository.
--
-- A program goes through `Lexer::next` (src/lexer/lexer.rs), the parser
-- (src/parser.rs), the type inference (src/typeinfer.rs) and the generator; `fly analyze` measures its tree (src/analyze.rs), and
-- fly-sandboxd runs the result under a seccomp filter (fly-sandboxd/src/main.rs).
--
-- - Prelude and its children: Boolean tests, lists and text over the native numbers. A string of the
--   source is the list of its UTF-8 bytes.
-- - Diagnostic (src/diagnostic.rs): positions, diagnostics, the table of codes, `error_code`.
--   Diagnostic.Format: `format_msg` of src/lexer/lexer.rs.
-- - Token (src/lexer/token.rs): the token types, the keywords and the names of tokens. A constructor
--   that would be a reserved word or a library name ends in `_`.
-- - Lexer (src/lexer/lexer.rs). Cursor: `src` and `off` are kept as the bytes that are left and their
--   offset; `panicked` is set where the source would index out of range, by `advance` and by `index`, the
--   plain read `self.src[self.off]`. State: the fields of `Lexer`;
--   the stack `indents` has its top first, and `depth` is the pattern of an `i32`. Words, Numbers and
--   Operators: the scanners. Layout: `line_start`. Next: `next`, `lex_token`, and `lex_all` of
--   src/fmt.rs. A `loop` of the source is a function from a state to the next turn or a result
--   (Loop), run on fuel: `line_start` and `next` take one more than the bytes that are left, and
--   `lex_all` takes `3 * n + 4` for a source of `n` bytes, a bound on the calls of `next`.
--   Moves, Positions, Scans, Invariant, Stream and Munch hold the lemmas on them.
-- - Ast (src/ast.rs): the syntax tree. A `Vec` or an `Option` of the tree's own types is a type of the
--   same block.
-- - Parser (src/parser.rs). Monad: the record `Parser`, a method as a function from a state to a result
--   and a state, `next`, `peek`, `errorf`, `expect`, and the two kinds of loop, `repeat` (a turn reads a
--   token if it goes on) and `until` (it ends at a token or at an error). `self.next()` stands with the
--   test that allows it, as `case_tok`. Atoms, Postfix and Operators: expressions; Specs: the texts of
--   limits, where `F64` is the arithmetic of `f64`, a parameter; Simple, Lines, Heads and Blocks:
--   statements; Module: `parse`. The methods that call themselves again behind a token do so through a
--   record `Rec`, and `level` builds it to a depth; `parse` takes one level for each token that may be
--   left (`size`), since every such call has read a token. A loop takes one or two turns more than
--   `size`. Acts, Tokens, Loops and Rules: what a method does to the state, and a rule for each way to
--   compose methods; Total shows it of each method, one file for a file of definitions. Stream, Visits,
--   Whole and Limits hold the results.
-- - TypeInfer (src/typeinfer.rs). Map: the hash maps, as lists with one entry for each key. Types: the
--   types and `expr_type`. Plain: `plain_bin_op` and its like. Collect: `collect_stmts`. Calls:
--   `collect_calls` and `collect_calls_stmt`. Rounds: `new`, `run_round` and `run`; the fields of
--   `TypeInfer` are split into those that types of expressions read and those that gathering calls
--   writes. A function stands in `fn_defs` with its parameters and its body, which is all of it that
--   is read. Falls, Unknown and Guards hold the lemmas.
-- - Analyze (src/analyze.rs). Visit: `Analyzer`, `expr` and the measures of a function. Walk: `stmt`
--   and the counts of `analyze`. Points: the decision points and the deepest level of a tree, counted
--   on the tree alone. Adds, Depth and Counts hold the lemmas. The rates and the score, in `f64`, are left
--   out.
-- - Sandbox (fly-sandboxd/src/main.rs). Bpf: the constants and `build_bpf`, for any whitelist; a jump
--   is a byte, so its offset is taken `% 2 ^ 8`. Machine: the kernel that runs a filter is a parameter,
--   with one law for each kind of instruction. Verdict: the policy and the lemmas.
-- - Http (src/http.rs). Redirect: `parse_url` and `resolve_redirect`. Chunks: the loop of
--   `parse_http_response` over a chunked body, whose fuel is one more than the bytes; an outcome of its
--   own stands for the slice that panics. Places, Secure and Framing hold the lemmas.
-- - Checkd (src/checkd.rs). Response: `parse_response` and `read_str`, over the bytes from `off` on; an
--   outcome of its own stands for the slice that panics. Framing: the frame of a response, as
--   cmd/fly-checkd/main.go writes it, and the lemmas.
-- - Gen (src/gen.rs). Needs: `needs_guard`, `needs_only`, `needs_trace`, `needs_cage`; the last three are
--   one function of a test. Quote: `py_quote`, `quote_tuple`, `mods_lit`, over lists of characters. Occurs:
--   a statement anywhere in a tree, as a relation. Literal: how Python reads a string literal. Found and
--   Literal hold the lemmas.
-- - Lsp (src/lsp.rs), on bytes. Uri: `uri_to_path`. Lossy: `String::from_utf8_lossy`, which it calls. Token: `token_at`; its second loop takes the line's length as fuel, which Words shows to
--   be enough. A slice that panics is a result of its own. Text, Paths and Words hold the lemmas.
-- - Json (src/json.rs), over lists of characters: what stands behind `i` is the list that is left. An
--   `f64` is its 64 bits; reading one and `{}` of one are a parameter, `Numbers`. Number: the arm of
--   `write_to` for numbers, with its conversion to an `i64`. Write: `encode`. Read: `parse`; the calls of
--   `value`, `array` and `object` by each other go through a record `Calls`, which `calls` builds to a
--   depth, and `parse` takes twice the text's length and two. Strings, Numerals, Items and RoundTrip hold
--   the round trip, Ends and Total the end of reading.
-- - Tests: runs at concrete inputs.
--
-- Not modelled: the rest of the generator (src/gen.rs) and of src/fmt.rs,
-- the rest of src/http.rs, of src/checkd.rs and of src/lsp.rs, src/update.rs and src/format.rs;
-- src/main.rs, src/help.rs and the calls of the system in fly-sandboxd, which are input and
-- output; src/errorinfo.rs, which is generated; and the parts in Go, Python and TypeScript.
pub mod Prelude
pub mod Diagnostic
pub mod Token
pub mod Lexer
pub mod Ast
pub mod Parser
pub mod TypeInfer
pub mod Analyze
pub mod Sandbox
pub mod Http
pub mod Checkd
pub mod Json
pub mod Gen
pub mod Lsp
mod Tests
