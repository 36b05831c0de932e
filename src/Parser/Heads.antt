-- ===== src/Parser/Heads.antt =====
-- src/parser.rs: what stands before the body of a statement: parameters, bases, and the options of `trace`
-- and `cage`.
use fly_lang.Ast.{Exprs, nil, Maybe, absent, present, Param}
use fly_lang.Parser.Monad.{
  P, pure, ◌>>=◌, ◌>>◌, this, errorf, branch, when_tok, case_tok, is_token, expect, Go, more, stop,
  repeat,
}
use fly_lang.Parser.Operators.{parse_test}
use fly_lang.Parser.Shapes.{Rec, one_of, push, push_expr, at_comma}
use fly_lang.Parser.Specs.{F64, unquote_str, parse_time_spec, parse_mem_spec}
use fly_lang.Prelude.{
  ℕ, Bool, true, false, Bytes, utf8, bytes_eq, List, [], ◌∷◌, Option, none, some,
}
use fly_lang.Token.{TokenType, pos}

abbrev param_of : Bytes → Bool → Bool → Param
param_of name star dbl_star = record {
  name = name;
  anno = absent;
  default = absent;
  star = star;
  dbl_star = dbl_star;
}

unfoldable pub param_name : P Param
param_name =
    case_tok (is_token TokenType.star)
      (λ _.
        case_tok (is_token TokenType.ident) (λ t. pure (param_of t.lit true false))
          (pure (param_of [] true false)))
      (case_tok (is_token TokenType.double_star)
        (λ _. do t ← expect TokenType.ident; pure (param_of t.lit false true))
        (do t ← expect TokenType.ident; pure (param_of t.lit false false)))

-- A test behind a token of a type.
unfoldable pub test_behind : TokenType → Rec → P Maybe
test_behind ty r = case_tok (is_token ty) (λ _. do e ← parse_test r; pure (present e)) (pure absent)

unfoldable pub param_turn : Rec → List Param → P (Go (List Param))
param_turn r ps = do
  prm ← param_name
  anno ← test_behind TokenType.colon r
  default ← test_behind TokenType.assign r
  let ps' = push ps (record prm { anno = anno; default = default })
  case_tok (is_token TokenType.comma)
      (λ _. when_tok (is_token TokenType.rparen) (pure (stop ps')) (pure (more ps')))
      (pure (stop ps'))

unfoldable pub params : Rec → P (List Param)
params r = when_tok (is_token TokenType.rparen) (pure []) (repeat (param_turn r) [])

unfoldable pub bases : Rec → P Exprs
bases r =
    case_tok (is_token TokenType.lparen)
      (λ _. do
        bs ←
            when_tok (is_token TokenType.rparen) (pure nil)
              (repeat (λ bs. do b ← parse_test r; at_comma (push_expr bs b)) nil)
        expect TokenType.rparen
        pure bs)
      (pure nil)

unfoldable pub only_modules : P (List Bytes)
only_modules =
    repeat
      (λ ms.
        when_tok (is_token TokenType.rparen) (pure (stop ms))
          (do t ← expect TokenType.ident; at_comma (push ms t.lit)))
      []

-- Options that are read so far, or one that is refused, for which the statement is given up.
pub data Options (S : Type 0) : Type 0 where
  given : S → Options S
  refused : Options S

unfoldable pub refuse : {S : Type 0} → Bytes → List Bytes → P (Go (Options S))
refuse format args = do t ← this; errorf (pos t) format args; pure (stop refused)

-- The loop over options ends where one is refused.
unfoldable pub option_turn :
    {S : Type 0} → (S → P (Go (Options S))) → Options S → P (Go (Options S))
option_turn turn refused = pure (stop refused)
option_turn turn (given s) = when_tok (is_token TokenType.rparen) (pure (stop (given s))) (turn s)

pub record TraceArgs : Type 0 where
  pub level : Bytes
  pub args : Bool
  pub ret : Bool

unfoldable pub trace_level : TraceArgs → P (Go (Options TraceArgs))
trace_level s =
    case_tok (is_token TokenType.string)
      (λ t. at_comma (given (record s { level = unquote_str t.lit })))
      (refuse (utf8 "level 必须是字符串（如 \"WARN\"）") [])

unfoldable pub trace_flag : Bytes → (Bool → TraceArgs) → P (Go (Options TraceArgs))
trace_flag format set =
    case_tok (one_of (TokenType.true_ ∷ TokenType.false_ ∷ []))
      (λ t. at_comma (given (set (is_token TokenType.true_ t.ty)))) (refuse format [])

unfoldable pub trace_arg : TraceArgs → Bytes → P (Go (Options TraceArgs))
trace_arg s name = branch (bytes_eq name (utf8 "level")) (trace_level s) (
    branch (bytes_eq name (utf8 "args"))
      (trace_flag (utf8 "args 必须是 True 或 False") (λ b. record s { args = b }))
      (branch (bytes_eq name (utf8 "ret"))
        (trace_flag (utf8 "ret 必须是 True 或 False") (λ b. record s { ret = b }))
        (refuse (utf8 "trace 参数 %s 未知（支持 level/args/ret）") (name ∷ []))))

unfoldable pub trace_turn : TraceArgs → P (Go (Options TraceArgs))
trace_turn s = do name ← expect TokenType.ident; expect TokenType.assign; trace_arg s name.lit

unfoldable pub trace_args : P (Options TraceArgs)
trace_args =
    repeat (option_turn trace_turn)
      (given (record { level = utf8 "WARNING"; args = true; ret = true }))

pub record Limits : Type 0 where
  pub has_time : Bool
  pub max_time : ℕ
  pub has_mem : Bool
  pub max_memory : ℕ

unfoldable pub max_time : Limits → Bytes → Option ℕ → P (Go (Options Limits))
max_time s val (some secs) = at_comma (given (record s { has_time = true; max_time = secs }))
max_time s val none = refuse (utf8 "max_time 格式非法：%q（支持 500ms/5s/2m/1h）") (val ∷ [])

unfoldable pub max_memory : Limits → Bytes → Option ℕ → P (Go (Options Limits))
max_memory s val (some bytes) = at_comma (given (record s { has_mem = true; max_memory = bytes }))
max_memory s val none = refuse (utf8 "max_memory 格式非法：%q（支持 64KB/100MB/2GB）") (val ∷ [])

unfoldable pub cage_arg : F64 → Limits → Bytes → Bytes → P (Go (Options Limits))
cage_arg f s name val =
    branch (bytes_eq name (utf8 "max_time")) (max_time s val (parse_time_spec f val)) (
      branch (bytes_eq name (utf8 "max_memory")) (max_memory s val (parse_mem_spec val))
        (refuse (utf8 "cage 参数 %s 未知（支持 max_time/max_memory）") (name ∷ [])))

unfoldable pub cage_turn : F64 → Limits → P (Go (Options Limits))
cage_turn f s = do
  name ← expect TokenType.ident
  expect TokenType.assign
  case_tok (is_token TokenType.string) (λ t. cage_arg f s name.lit (unquote_str t.lit))
      (refuse (utf8 "cage 参数 %s 必须是字符串（如 max_time=\"5s\"）") (name.lit ∷ []))

unfoldable pub cage_limits : F64 → P (Options Limits)
cage_limits f =
    repeat (option_turn (cage_turn f))
      (given (record { has_time = false; max_time = 0; has_mem = false; max_memory = 0 }))
