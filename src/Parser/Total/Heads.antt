-- ===== src/Parser/Total/Heads.antt =====
-- src/parser.rs: parameters, bases and options return.
use fly_lang.Ast.{Param}
use fly_lang.Parser.Acts.{weaken-Acts, still, Acts, Turns}
use fly_lang.Parser.Heads.{
  param_name, test_behind, param_turn, params, bases, only_modules, Options, given, refused, refuse,
  option_turn, TraceArgs, trace_level, trace_flag, trace_arg, trace_turn, trace_args, Limits,
  max_time, max_memory, cage_arg, cage_turn, cage_limits,
}
use fly_lang.Parser.Monad.{P, is_token, Go}
use fly_lang.Parser.Rules.{acts_rules}
use fly_lang.Parser.Shapes.{Rec, one_of}
use fly_lang.Parser.Specs.{F64}
use fly_lang.Parser.Tokens.{IsReal}
use fly_lang.Parser.Total.{Good}
use fly_lang.Parser.Total.Operators.{parse_test-below}
use fly_lang.Parser.Total.Postfix.{at_comma-Acts, at_comma-Turns}
use fly_lang.Prelude.{ℕ, Bool, Bytes, List, Option, none, some}
use fly_lang.Token.{TokenType, ty_eq, discriminant}

ruleset head_rules = (acts_rules, parse_test-below, at_comma-Acts, at_comma-Turns)

module _ {n : ℕ} where
  param_name-Acts : Acts still n param_name
  unfolding param_name is_token one_of ty_eq discriminant
  param_name-Acts = search head_rules depth 40 fits 4000

  pub only_modules-Acts : Acts still n only_modules
  unfolding only_modules is_token one_of ty_eq discriminant
  only_modules-Acts = search head_rules depth 40 fits 4000

  refuse-Turns :
      {S : Type 0} (format : Bytes) (args : List Bytes) → Turns n (refuse {S = S} format args)
  unfolding refuse
  refuse-Turns format args = search head_rules depth 40 fits 4000

  option_turn-Turns :
      {S : Type 0} {turn : S → P (Go (Options S))} (o : Options S)
      → ((s : S) → Turns n (turn s))
      → Turns n (option_turn turn o)
  unfolding option_turn
  option_turn-Turns refused h = search head_rules depth 40 fits 4000
  option_turn-Turns (given s) h = search head_rules depth 40 fits 4000

  ruleset option_rules = (head_rules, refuse-Turns, option_turn-Turns)

  trace_level-Turns : (s : TraceArgs) → Turns n (trace_level s)
  unfolding trace_level is_token one_of ty_eq discriminant
  trace_level-Turns s = search option_rules depth 40 fits 4000

  trace_flag-Turns : (format : Bytes) (set : Bool → TraceArgs) → Turns n (trace_flag format set)
  unfolding trace_flag is_token one_of ty_eq discriminant
  trace_flag-Turns format set = search option_rules depth 40 fits 4000

  trace_arg-Turns : (s : TraceArgs) (name : Bytes) → Turns n (trace_arg s name)
  unfolding trace_arg
  trace_arg-Turns s name =
      search (option_rules, trace_level-Turns, trace_flag-Turns) depth 40 fits 4000

  trace_turn-Turns : (s : TraceArgs) → Turns n (trace_turn s)
  unfolding trace_turn is_token one_of ty_eq discriminant
  trace_turn-Turns s = search (option_rules, trace_arg-Turns) depth 40 fits 4000

  pub trace_args-Acts : Acts still n trace_args
  unfolding trace_args
  trace_args-Acts = search (option_rules, trace_turn-Turns) depth 40 fits 4000

  max_time-Turns : (s : Limits) (val : Bytes) (o : Option ℕ) → Turns n (max_time s val o)
  unfolding max_time
  max_time-Turns s val none = search option_rules depth 40 fits 4000
  max_time-Turns s val (some secs) = search option_rules depth 40 fits 4000

  max_memory-Turns : (s : Limits) (val : Bytes) (o : Option ℕ) → Turns n (max_memory s val o)
  unfolding max_memory
  max_memory-Turns s val none = search option_rules depth 40 fits 4000
  max_memory-Turns s val (some bytes) = search option_rules depth 40 fits 4000

  cage_arg-Turns : (f : F64) (s : Limits) (name val : Bytes) → Turns n (cage_arg f s name val)
  unfolding cage_arg
  cage_arg-Turns f s name val =
      search (option_rules, max_time-Turns, max_memory-Turns) depth 40 fits 4000

  cage_arg-Acts : (f : F64) (s : Limits) (name val : Bytes) → Acts still n (cage_arg f s name val)
  cage_arg-Acts f s name val = weaken-Acts (cage_arg-Turns f s name val)

  cage_turn-Turns : (f : F64) (s : Limits) → Turns n (cage_turn f s)
  unfolding cage_turn is_token one_of ty_eq discriminant
  cage_turn-Turns f s = search (option_rules, cage_arg-Acts) depth 40 fits 4000

  pub cage_limits-Acts : (f : F64) → Acts still n (cage_limits f)
  unfolding cage_limits
  cage_limits-Acts f = search (option_rules, cage_turn-Turns) depth 40 fits 4000

module _ {r : Rec} {n : ℕ} where
  pub test_behind-Acts :
      (ty : TokenType) → IsReal (is_token ty) → Good r n → Acts still n (test_behind ty r)
  unfolding test_behind
  test_behind-Acts ty e g = search head_rules depth 40 fits 4000

  param_turn-Turns : Good r n → (ps : List Param) → Turns n (param_turn r ps)
  unfolding param_turn is_token one_of ty_eq discriminant
  param_turn-Turns g ps = search (head_rules, param_name-Acts, test_behind-Acts) depth 40 fits 4000

  pub params-Acts : Good r n → Acts still n (params r)
  unfolding params is_token one_of ty_eq discriminant
  params-Acts g = search (head_rules, param_turn-Turns) depth 40 fits 4000

  pub bases-Acts : Good r n → Acts still n (bases r)
  unfolding bases is_token one_of ty_eq discriminant
  bases-Acts g = search head_rules depth 40 fits 4000
