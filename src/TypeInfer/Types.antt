-- ===== src/TypeInfer/Types.antt =====
-- src/typeinfer.rs: the types, the tables and the type of an expression.
use fly_lang.Ast.{Expr, Stmts, Param}
use fly_lang.Prelude.{
  ℕ, zero, suc, Bool, true, false, not, ◌&&◌, ◌||◌, ◌==◌, bytes_eq, if◌then◌else◌, Bytes, utf8,
  List, [], ◌∷◌, Option, none, some, ◌≡◌, refl, sym, ap, ◌∙◌, ==→eq,
}
use fly_lang.Token.{select}
use fly_lang.TypeInfer.Map.{Map, get, get_or, is_some}

pub data Ty : Type 0 where
  unknown : Ty
  int : Ty
  float : Ty
  str : Ty
  bool : Ty
  none_ : Ty
  list : Ty
  dict : Ty
  set : Ty
  tuple : Ty

unfoldable pub rank : Ty → ℕ
rank unknown = 0
rank int = 1
rank float = 2
rank str = 3
rank bool = 4
rank none_ = 5
rank list = 6
rank dict = 7
rank set = 8
rank tuple = 9

-- `==` of the derived `PartialEq`.
abbrev pub is : Ty → Ty → Bool
is a b = rank a == rank b

abbrev of_rank : ℕ → Ty
of_rank zero = unknown
of_rank (suc zero) = int
of_rank (suc (suc zero)) = float
of_rank (suc (suc (suc zero))) = str
of_rank (suc (suc (suc (suc zero)))) = bool
of_rank (suc (suc (suc (suc (suc zero))))) = none_
of_rank (suc (suc (suc (suc (suc (suc zero)))))) = list
of_rank (suc (suc (suc (suc (suc (suc (suc zero))))))) = dict
of_rank (suc (suc (suc (suc (suc (suc (suc (suc zero)))))))) = set
of_rank _ = tuple

of_rank-rank : (a : Ty) → of_rank (rank a) ≡ a
unfolding rank
of_rank-rank unknown = refl
of_rank-rank int = refl
of_rank-rank float = refl
of_rank-rank str = refl
of_rank-rank bool = refl
of_rank-rank none_ = refl
of_rank-rank list = refl
of_rank-rank dict = refl
of_rank-rank set = refl
of_rank-rank tuple = refl

pub is→eq : (a b : Ty) → is a b ≡ true → a ≡ b
is→eq a b h = sym (of_rank-rank a) ∙ ap of_rank (==→eq (rank a) (rank b) h) ∙ of_rank-rank b

-- A function has its parameters and its body.
abbrev pub FnDef : Type 0
FnDef = List Param × Stmts

-- The fields of `TypeInfer` that the type of an expression reads.
pub record Tables : Type 0 where
  pub module_vars : Map Ty
  pub fn_vars : Map (Map Ty)
  pub ret_types : Map Ty
  pub fn_defs : Map FnDef

-- `name` is one of `names`.
unfoldable pub one_of : List Bytes → Bytes → Bool
one_of [] name = false
one_of (n ∷ names) name = bytes_eq name n || one_of names name

abbrev pub fly_sb_reflect : List Bytes
fly_sb_reflect =
    utf8 "__class__"
    ∷ utf8 "__bases__"
    ∷ utf8 "__base__"
    ∷ utf8 "__mro__"
    ∷ utf8 "__subclasses__"
    ∷ utf8 "__globals__"
    ∷ utf8 "__code__"
    ∷ utf8 "__closure__"
    ∷ utf8 "__dict__"
    ∷ utf8 "__reduce__"
    ∷ utf8 "__reduce_ex__"
    ∷ utf8 "__getattribute__"
    ∷ utf8 "__setattr__"
    ∷ utf8 "__delattr__"
    ∷ utf8 "__init_subclass__"
    ∷ utf8 "__prepare__"
    ∷ utf8 "__builtins__"
    ∷ utf8 "__traceback__"
    ∷ utf8 "gi_frame"
    ∷ utf8 "ag_frame"
    ∷ utf8 "cr_frame"
    ∷ utf8 "f_globals"
    ∷ utf8 "f_locals"
    ∷ utf8 "__loader__"
    ∷ []

unfoldable pub merge_type : Ty → Ty → Ty
merge_type a b = if is a unknown || is b unknown || not (is a b) then unknown else a

abbrev callable_arms : List (Bytes × Ty)
callable_arms =
    (utf8 "int", int)
    ∷ (utf8 "len", int)
    ∷ (utf8 "hash", int)
    ∷ (utf8 "ord", int)
    ∷ (utf8 "abs", int)
    ∷ (utf8 "sum", int)
    ∷ (utf8 "round", int)
    ∷ (utf8 "pow", int)
    ∷ (utf8 "str", str)
    ∷ (utf8 "repr", str)
    ∷ (utf8 "chr", str)
    ∷ (utf8 "format", str)
    ∷ (utf8 "hex", str)
    ∷ (utf8 "oct", str)
    ∷ (utf8 "bin", str)
    ∷ (utf8 "float", float)
    ∷ (utf8 "bool", bool)
    ∷ (utf8 "isinstance", bool)
    ∷ (utf8 "callable", bool)
    ∷ (utf8 "hasattr", bool)
    ∷ (utf8 "issubclass", bool)
    ∷ (utf8 "input", str)
    ∷ (utf8 "range", int)
    ∷ (utf8 "list", list)
    ∷ (utf8 "sorted", list)
    ∷ (utf8 "reversed", list)
    ∷ (utf8 "filter", list)
    ∷ (utf8 "map", list)
    ∷ (utf8 "zip", list)
    ∷ (utf8 "dict", dict)
    ∷ (utf8 "enumerate", dict)
    ∷ (utf8 "set", set)
    ∷ (utf8 "frozenset", set)
    ∷ (utf8 "tuple", tuple)
    ∷ []

unfoldable pub callable_ret : Bytes → Ty
callable_ret name = get_or unknown (select callable_arms name)

-- The operands of `+` that keep their type: two integers or two strings.
abbrev pub is_plus : Ty → Ty → Bool
is_plus a b = (is a int && is b int) || (is a str && is b str)

abbrev int_ops : List Bytes
int_ops =
    utf8 "-"
    ∷ utf8 "*"
    ∷ utf8 "//"
    ∷ utf8 "%"
    ∷ utf8 "<<"
    ∷ utf8 ">>"
    ∷ utf8 "&"
    ∷ utf8 "|"
    ∷ utf8 "^"
    ∷ []

-- The arm of a binary operator, from the types of its operands.
unfoldable pub op_type : Bytes → Ty → Ty → Ty
op_type op a b =
    if bytes_eq op (utf8 "+")
    then (if is_plus a b then a else unknown)
    else if one_of int_ops op
    then (if is a int && is b int then int else unknown)
    else if bytes_eq op (utf8 "/")
    then float
    else if bytes_eq op (utf8 "**")
    then (if is a int && is b int then int else unknown)
    else unknown

abbrev look_in : Map Ty → Bytes → Ty → Ty
look_in m name other = get_or other (get m name)

abbrev in_scope : Option (Map Ty) → Bytes → Ty → Ty
in_scope none name other = other
in_scope (some vars) name other = look_in vars name other

-- No table stands under the empty name of a function.
abbrev table_of : Map (Map Ty) → Bytes → Option (Map Ty)
table_of tables [] = none
table_of tables (c ∷ cs) = get tables (c ∷ cs)

-- The scope that is being filled is read first, then the table of the function, then the module's.
unfoldable pub name_type : Tables → Option (Map Ty) → Bytes → Bytes → Ty
name_type ts scope fn_name name =
    in_scope scope name
      (in_scope (table_of ts.fn_vars fn_name) name (look_in ts.module_vars name unknown))

-- The type of a call of the function named `name`.
abbrev pub named_call : Tables → Bytes → Ty
named_call ts name =
    if is_some (get ts.fn_defs name)
    then get_or unknown (get ts.ret_types name)
    else callable_ret name

abbrev pub call_type : Tables → Expr → Ty
call_type ts (Expr.name _ f) = named_call ts f
call_type ts _ = unknown

abbrev unary_type : Bytes → Ty → Ty
unary_type op x =
    if bytes_eq op (utf8 "not")
    then bool
    else if is x int
    then int
    else if is x float
    then float
    else unknown

unfoldable pub expr_type : Tables → Option (Map Ty) → Bytes → Expr → Ty
expr_type ts scope fn_name (Expr.int_lit _ _) = int
expr_type ts scope fn_name (Expr.float_lit _ _) = float
expr_type ts scope fn_name (Expr.string_lit _ _) = str
expr_type ts scope fn_name (Expr.name _ n) = name_type ts scope fn_name n
expr_type ts scope fn_name (Expr.list_lit _ _) = list
expr_type ts scope fn_name (Expr.dict_lit _ _ _) = dict
expr_type ts scope fn_name (Expr.set_lit _ _) = set
expr_type ts scope fn_name (Expr.bin_op _ op x y) =
    op_type op (expr_type ts scope fn_name x) (expr_type ts scope fn_name y)
expr_type ts scope fn_name (Expr.unary_op _ op x) = unary_type op (expr_type ts scope fn_name x)
expr_type ts scope fn_name (Expr.bool_op _ op x y) =
    merge_type (expr_type ts scope fn_name x) (expr_type ts scope fn_name y)
expr_type ts scope fn_name (Expr.cond _ c x y) =
    merge_type (expr_type ts scope fn_name x) (expr_type ts scope fn_name y)
expr_type ts scope fn_name (Expr.call _ f _ _ _ _) = call_type ts f
expr_type ts scope fn_name (Expr.list_comp _ _ _) = list
expr_type ts scope fn_name _ = unknown

unfoldable pub bin_op_type : Bytes → Ty → Ty → Ty
bin_op_type op a b =
    if bytes_eq op (utf8 "+")
    then (if is_plus a b then a else unknown)
    else if one_of (utf8 "-" ∷ utf8 "*" ∷ utf8 "//" ∷ utf8 "%" ∷ []) op
    then (if is a int && is b int then int else unknown)
    else unknown

abbrev pub is_range_call : Expr → Bool
is_range_call (Expr.call _ (Expr.name _ f) _ _ _ _) = bytes_eq f (utf8 "range")
is_range_call _ = false

abbrev pub iter_elem_type : Tables → Option (Map Ty) → Bytes → Expr → Ty
iter_elem_type ts scope fn_name it = if is_range_call it then int else expr_type ts scope fn_name it
