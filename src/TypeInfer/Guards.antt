-- ===== src/TypeInfer/Guards.antt =====
-- src/typeinfer.rs: what the inferred types say where `plain_bin_op` lets the guard be left out.
use fly_lang.Ast.{Expr}
use fly_lang.Diagnostic.{Position}
use fly_lang.Prelude.{true, Bytes, utf8, List, [], ◌∷◌, none, ◌≡◌, ◌⊎◌, inl, inr, sym, ◌∙◌, arith}
use fly_lang.TypeInfer.Plain.{plain_op, plain_bin_op}
use fly_lang.TypeInfer.Types.{Ty, rank, Tables, one_of, op_type, expr_type}

plain_op-same :
    (op : Bytes) (a b : Ty) → plain_op op a b ≡ true → (a ≡ b) × ((a ≡ Ty.int) ⊎ (a ≡ Ty.str))
unfolding plain_op rank one_of
plain_op-same op a b h = ground arith

abbrev pub arithmetic : List Bytes
arithmetic = utf8 "+" ∷ utf8 "-" ∷ utf8 "*" ∷ utf8 "//" ∷ utf8 "%" ∷ []

int-op_type : (op : Bytes) → one_of arithmetic op ≡ true → op_type op Ty.int Ty.int ≡ Ty.int
unfolding rank one_of op_type
int-op_type op h = ground arith

str-op_type :
    (op : Bytes)
    → one_of arithmetic op ≡ true
    → plain_op op Ty.str Ty.str ≡ true
    → op_type op Ty.str Ty.str ≡ Ty.str
unfolding plain_op rank one_of op_type
str-op_type op h e = ground arith

plain_op-op_type :
    (op : Bytes) (a b : Ty)
    → plain_op op a b ≡ true
    → one_of arithmetic op ≡ true
    → op_type op a b ≡ a
plain_op-op_type op a b h e =
    let (same, kind) = plain_op-same op a b h in
    elim kind [
      | inl ints ↦ let ints' : b ≡ Ty.int = sym same ∙ ints in simp (ints, ints', int-op_type op e)
      | inr strs ↦
          let strs' : b ≡ Ty.str = sym same ∙ strs in
          let plain : plain_op op Ty.str Ty.str ≡ true = cc (h, strs, strs') in
          simp (strs, strs', str-op_type op e plain)
    ]

-- Where the guard of an arithmetic operator (`+`, `-`, `*`, `//` or `%`) is left out, the operation has
-- the inferred type of its operands.
pub plain_bin_op-result :
    (ts : Tables) (op : Bytes) (x y : Expr) (fn_name : Bytes) (at : Position)
    → plain_bin_op ts op x y fn_name ≡ true
    → one_of arithmetic op ≡ true
    → expr_type ts none fn_name (Expr.bin_op at op x y) ≡ expr_type ts none fn_name x
unfolding plain_bin_op expr_type
plain_bin_op-result ts op x y fn_name at h e = plain_op-op_type op _ _ h e
