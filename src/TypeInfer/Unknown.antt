-- ===== src/TypeInfer/Unknown.antt =====
-- src/typeinfer.rs: over the rounds, a variable of the module that is `unknown` stays so.
use fly_lang.Prelude.{
  ℕ, zero, suc, Bool-cases, if_rule, bytes_eq, Bytes, [], ◌∷◌, some, ◌≡◌, inl, inr, refl, sym, ap,
  ◌∙◌, subst,
}
use fly_lang.TypeInfer.Falls.{collect_stmts-ScanFalls}
use fly_lang.TypeInfer.Map.{Map, get}
use fly_lang.TypeInfer.Rounds.{
  TypeInfer, kept, module_start, module_round, fn_round, fn_rounds, run_round, rounds, by_name,
}
use fly_lang.TypeInfer.Types.{Ty, rank, is, FnDef}

get-kept :
    (m : Map Ty) (name : Bytes) → get m name ≡ some Ty.unknown → get (kept m) name ≡ some Ty.unknown
unfolding get kept rank
get-kept [] name e = e
get-kept ((k, v) ∷ m) name e = elim (Bool-cases (bytes_eq k name)) [
  | inl h ↦
      let v_unknown : v ≡ Ty.unknown =
        (let here : get ((k, v) ∷ m) name ≡ some v = simp h in cc (here, e)) in
      subst (λ (w : Ty). get (kept ((k, w) ∷ m)) name ≡ some Ty.unknown) (sym v_unknown) (simp h)
  | inr h ↦
      let before : get m name ≡ get ((k, v) ∷ m) name = simp h in
      let later = get-kept m name (before ∙ e) in
      if_rule (λ (n : Map Ty). get n name ≡ some Ty.unknown) (is v Ty.unknown)
        (λ u. let skip : get ((k, v) ∷ kept m) name ≡ get (kept m) name = simp h in skip ∙ later)
        (λ u. later)
]

fn_rounds-module_vars :
    (fs : Map FnDef) (ti : TypeInfer) → (fn_rounds fs ti).tables.module_vars ≡ ti.tables.module_vars
unfolding fn_rounds fn_round
fn_rounds-module_vars [] ti = refl
fn_rounds-module_vars ((name, f) ∷ fs) ti =
    fn_rounds-module_vars fs (fn_round name f ti) ∙ (collect_stmts-ScanFalls name f.1 _).module_vars

module_round-unknown :
    (ti : TypeInfer) (name : Bytes)
    → get ti.tables.module_vars name ≡ some Ty.unknown
    → get (module_round ti).tables.module_vars name ≡ some Ty.unknown
unfolding module_round
module_round-unknown ti name e =
    let (t, e', falls) =
      (collect_stmts-ScanFalls [] ti.stmts (module_start ti)).scope name Ty.unknown
        (get-kept ti.tables.module_vars name e) in
    elim falls [ inl same ↦ e' ∙ ap some same | inr same ↦ e' ∙ ap some same ]

-- A variable of the module that is `unknown` after some rounds is `unknown` after all later ones.
pub rounds-unknown :
    (n : ℕ) (ti : TypeInfer) (name : Bytes)
    → get ti.tables.module_vars name ≡ some Ty.unknown
    → get (rounds n ti).tables.module_vars name ≡ some Ty.unknown
unfolding rounds run_round
rounds-unknown zero ti name e = e
rounds-unknown (suc n) ti name e = rounds-unknown n (run_round ti) name (
    ap (λ (m : Map Ty). get m name)
      (fn_rounds-module_vars (by_name ti.tables.fn_defs) (module_round ti))
    ∙ module_round-unknown ti name e)
