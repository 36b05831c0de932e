-- ===== src/TypeInfer/Plain.antt =====
-- src/typeinfer.rs: `plain_bin_op`, `plain_attr`, `plain_subscr` and `plain_iter`, which say where the
-- generated code may leave out a guard of the run time.
use fly_lang.Ast.{Expr}
use fly_lang.Prelude.{
  Bool, true, false, not, ◌&&◌, ◌||◌, bytes_eq, if◌then◌else◌, Bytes, utf8, [], ◌∷◌, none,
}
use fly_lang.TypeInfer.Types.{Ty, is, Tables, one_of, fly_sb_reflect, expr_type, is_range_call}

abbrev is_plain : Ty → Ty → Bool
is_plain a b = is a b && (is a Ty.int || is a Ty.str)

unfoldable pub plain_op : Bytes → Ty → Ty → Bool
plain_op op a b =
    if is a Ty.unknown || is b Ty.unknown
    then false
    else if bytes_eq op (utf8 "+")
    then is_plain a b
    else if one_of (utf8 "-" ∷ utf8 "*" ∷ utf8 "//" ∷ utf8 "%" ∷ []) op
    then is a Ty.int && is b Ty.int
    else if one_of (utf8 "<" ∷ utf8 "<=" ∷ utf8 ">" ∷ utf8 ">=" ∷ []) op
    then is_plain a b
    else false

unfoldable pub plain_bin_op : Tables → Bytes → Expr → Expr → Bytes → Bool
plain_bin_op ts op x y fn_name =
    plain_op op (expr_type ts none fn_name x) (expr_type ts none fn_name y)

unfoldable pub plain_attr : Tables → Expr → Bytes → Bytes → Bool
plain_attr ts x name fn_name =
    not (is (expr_type ts none fn_name x) Ty.unknown) && not (one_of fly_sb_reflect name)

unfoldable pub plain_subscr : Tables → Expr → Expr → Bytes → Bool
plain_subscr ts x index fn_name =
    let kt = expr_type ts none fn_name index in not (is kt Ty.unknown) && not (is kt Ty.str)

abbrev is_container : Ty → Bool
is_container Ty.list = true
is_container Ty.dict = true
is_container Ty.set = true
is_container Ty.tuple = true
is_container Ty.str = true
is_container _ = false

unfoldable pub plain_iter : Tables → Expr → Bytes → Bool
plain_iter ts it fn_name = is_container (expr_type ts none fn_name it) || is_range_call it
