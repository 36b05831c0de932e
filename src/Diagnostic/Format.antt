-- ===== src/Diagnostic/Format.antt =====
-- src/lexer/lexer.rs, `format_msg`: the first `%s` of what is left of the format takes an argument,
-- a `%q` only where no `%s` is left; and what the loop makes of a format with `%s` alone.
use fly_lang.Prelude.{
  ℕ, true, false, ◌&&◌, ◌==◌, Bytes, utf8, List, [], ◌∷◌, ◌++◌, ◌≡◌, ◌≢◌, refl, Option, none, some,
  arith, map,
}

-- `rest.find("%k")`: what stands before the first such pair, and what stands behind it.
unfoldable pub find_verb : ℕ → Bytes → Option (Bytes × Bytes)
find_verb k [] = none
find_verb k (a ∷ []) = none
find_verb k (a ∷ b ∷ rest) = elim (a == b'%' && b == k) [
  | true ↦ some ([], rest)
  | false ↦ elim (find_verb k (b ∷ rest)) [
    | none ↦ none
    | some (before, after) ↦ some (a ∷ before, after)
  ]
]

abbrev pub quoted : Bytes → Bytes
quoted a = b'\'' ∷ (a ++ b'\'' ∷ [])

-- The loop over the arguments, with the text that is left of the format.
unfoldable pub fill : Bytes → List Bytes → Bytes
fill rest [] = rest
fill rest (a ∷ args) = elim (find_verb b's' rest) [
  | some (before, after) ↦ before ++ (a ++ fill after args)
  | none ↦ elim (find_verb b'q' rest) [
    | some (before, after) ↦ before ++ (quoted a ++ fill after args)
    | none ↦ rest
  ]
]

unfoldable pub format_msg : Bytes → List Bytes → Bytes
unfolding fill
format_msg format [] = format
format_msg format (a ∷ args) = fill format (a ∷ args)

-- A text with no `%`.
abbrev pub IsPlain : Bytes → Type 0
IsPlain [] = Unit
IsPlain (c ∷ cs) = (c ≢ b'%') × IsPlain cs

-- Pieces of text, each with what a place takes behind it, and a last piece.
abbrev pub weave : List (Bytes × Bytes) → Bytes → Bytes
weave [] last = last
weave ((p, x) ∷ ps) last = p ++ (x ++ weave ps last)

abbrev pub ArePlain : List (Bytes × Bytes) → Type 0
ArePlain [] = Unit
ArePlain ((p, x) ∷ ps) = IsPlain p × ArePlain ps

abbrev pub with_verb : Bytes × Bytes → Bytes × Bytes
with_verb (p, x) = (p, utf8 "%s")

abbrev pub args_of : List (Bytes × Bytes) → List Bytes
args_of = map (λ (x : Bytes × Bytes). x.1)

find_verb-IsPlain :
    (k : ℕ) (p rest : Bytes) → IsPlain p → find_verb k (p ++ b'%' ∷ k ∷ rest) ≡ some (p, rest)
unfolding find_verb
find_verb-IsPlain k [] rest h = ground arith
find_verb-IsPlain k (a ∷ []) rest h = ground (arith, find_verb-IsPlain k [] rest tt)
find_verb-IsPlain k (a ∷ b ∷ p) rest h = ground (arith, find_verb-IsPlain k (b ∷ p) rest h.1)

fill-weave :
    (ps : List (Bytes × Bytes)) (last : Bytes)
    → ArePlain ps
    → fill (weave (map with_verb ps) last) (args_of ps) ≡ weave ps last
unfolding fill
fill-weave [] last h = refl
fill-weave ((p, x) ∷ ps) last h =
    rw (find_verb-IsPlain b's' p (weave (map with_verb ps) last) h.0, fill, fill-weave ps last h.1)

-- Where the pieces between the verbs hold no `%`, each `%s` of the format takes the argument in its
-- place, whatever bytes the arguments hold, and all else stays.
pub format_msg-weave :
    (ps : List (Bytes × Bytes)) (last : Bytes)
    → ArePlain ps
    → format_msg (weave (map with_verb ps) last) (args_of ps) ≡ weave ps last
unfolding format_msg
format_msg-weave [] last h = refl
format_msg-weave (p ∷ ps) last h = fill-weave (p ∷ ps) last h
