-- ===== src/Lsp/Words.antt =====
-- The word that `token_at` of src/lsp.rs takes from a line.
use fly_lang.Lsp.Token.{is_ident_char, ident_at, boundary_at, start_of, end_of, cut, token_at}
use fly_lang.Lsp.Uri.{is_continuation}
use fly_lang.Prelude.{
  ℕ, zero, suc, ◌+◌, ◌-◌, ◌≤◌, ◌<◌, true, false, ltb, leb, ◌==◌, Bool-cases, Bytes, length, take,
  drop, [], ◌∷◌, some, ◌≡◌, refl, ap, ◌∙◌, arith, ==→eq, ltb→lt, leb→le, inl, inr,
}

-- Characters of a word stand from `start` up to `end`.
abbrev pub AllIdent : Bytes → ℕ → ℕ → Type 0
AllIdent line start end = (i : ℕ) → start ≤ i → i < end → ident_at line i ≡ true

-- Before `start` the line begins, or no character of a word stands.
abbrev pub StopsBefore : Bytes → ℕ → Type 0
StopsBefore line zero = Unit
StopsBefore line (suc i) = ident_at line i ≡ false

-- UTF-8: behind a character of one byte another character begins.
abbrev pub IsText : Bytes → Type 0
IsText line = (i : ℕ) → ident_at line i ≡ true → boundary_at line (suc i) ≡ true

-- The longest run of characters of a word that reaches `char` from both sides.
pub record WordAt (line : Bytes) (char start end : ℕ) : Type 0 where
  starts : start ≤ char
  ends : char ≤ end
  all : AllIdent line start end
  first : StopsBefore line start
  last : ident_at line end ≡ false

start_of_le : (line : Bytes) (i : ℕ) → start_of line i ≤ i
unfolding start_of
start_of_le line zero = omega arith
start_of_le line (suc i) =
    let before = start_of_le line i in
    elim (Bool-cases (ident_at line i)) [
      | inl e ↦ rw e (omega (arith, before))
      | inr e ↦ rw e (omega arith)
    ]

start_of-StopsBefore : (line : Bytes) (i : ℕ) → StopsBefore line (start_of line i)
unfolding start_of
start_of-StopsBefore line zero = tt
start_of-StopsBefore line (suc i) = elim (Bool-cases (ident_at line i)) [
  | inl e ↦ rw e (start_of-StopsBefore line i)
  | inr e ↦ rw e e
]

AllIdent-suc :
    (line : Bytes) (start end : ℕ)
    → ident_at line end ≡ true
    → AllIdent line start end
    → AllIdent line start (suc end)
AllIdent-suc line start end e h i a b = elim (Bool-cases (i == end)) [
  | inl same ↦ ap (ident_at line) (==→eq i end same) ∙ e
  | inr other ↦ h i a (ground arith)
]

start_of-AllIdent : (line : Bytes) (i : ℕ) → AllIdent line (start_of line i) i
unfolding start_of
start_of-AllIdent line zero = λ j a b. ground arith
start_of-AllIdent line (suc i) = elim (Bool-cases (ident_at line i)) [
  | inl e ↦ rw e (AllIdent-suc line (start_of line i) i e (start_of-AllIdent line i))
  | inr e ↦ rw e (λ j a b. ground arith)
]

end_of_ge : (n : ℕ) (line : Bytes) (i : ℕ) → i ≤ end_of n line i
unfolding end_of
end_of_ge zero line i = omega arith
end_of_ge (suc n) line i =
    let after = end_of_ge n line (suc i) in
    elim (Bool-cases (ident_at line i)) [
      | inl e ↦ rw e (omega (arith, after))
      | inr e ↦ rw e (omega arith)
    ]

ident_at-outside : (line : Bytes) (i : ℕ) → length line ≤ i → ident_at line i ≡ false
unfolding ident_at
ident_at-outside [] i h = refl
ident_at-outside (c ∷ cs) zero h = ground arith
ident_at-outside (c ∷ cs) (suc i) h = ident_at-outside cs i (omega (arith, h))

-- As many steps as the line is long are enough.
end_of-last :
    (n : ℕ) (line : Bytes) (i : ℕ) → length line ≤ n + i → ident_at line (end_of n line i) ≡ false
unfolding end_of
end_of-last zero line i h = ident_at-outside line i (omega (arith, h))
end_of-last (suc n) line i h = elim (Bool-cases (ident_at line i)) [
  | inl e ↦ rw e (end_of-last n line (suc i) (omega (arith, h)))
  | inr e ↦ rw e e
]

AllIdent-join :
    (line : Bytes) (a b c : ℕ) → AllIdent line a b → AllIdent line b c → AllIdent line a c
AllIdent-join line a b c f g i x y = elim (Bool-cases (ltb i b)) [
  | inl e ↦ f i x (ltb→lt i b e)
  | inr e ↦ g i (ground arith) y
]

AllIdent-one : (line : Bytes) (i : ℕ) → ident_at line i ≡ true → AllIdent line i (suc i)
AllIdent-one line i e j a b = let same : j ≡ i = omega (arith, a, b) in ap (ident_at line) same ∙ e

end_of-AllIdent : (n : ℕ) (line : Bytes) (i : ℕ) → AllIdent line i (end_of n line i)
unfolding end_of
end_of-AllIdent zero line i = λ j a b. ground arith
end_of-AllIdent (suc n) line i = elim (Bool-cases (ident_at line i)) [
  | inl e ↦
      rw e (AllIdent-join line i (suc i) _ (AllIdent-one line i e) (end_of-AllIdent n line (suc i)))
  | inr e ↦ rw e (λ j a b. ground arith)
]

word_at :
    (line : Bytes) (char : ℕ)
    → WordAt line char (start_of line char) (end_of (length line) line char)
word_at line char = record {
  starts = start_of_le line char;
  ends = end_of_ge (length line) line char;
  all =
      AllIdent-join line _ char _ (start_of-AllIdent line char)
        (end_of-AllIdent (length line) line char);
  first = start_of-StopsBefore line char;
  last = end_of-last (length line) line char (omega arith);
}

-- A character of a word is one byte, so that a character begins there.
ident-boundary : (line : Bytes) (i : ℕ) → ident_at line i ≡ true → boundary_at line i ≡ true
unfolding ident_at boundary_at is_ident_char is_continuation
ident-boundary [] i h = refl
ident-boundary (c ∷ cs) zero h = ground arith
ident-boundary (c ∷ cs) (suc i) h = ident-boundary cs i h

start-boundary :
    (line : Bytes) (s char : ℕ)
    → s ≤ char
    → AllIdent line s char
    → boundary_at line char ≡ true
    → boundary_at line s ≡ true
start-boundary line s char h all b = elim (Bool-cases (ltb s char)) [
  | inl e ↦ ident-boundary line s (all s (omega arith) (ltb→lt s char e))
  | inr e ↦ let same : s ≡ char = ground arith in ap (boundary_at line) same ∙ b
]

end-boundary :
    (line : Bytes) (char e : ℕ)
    → IsText line
    → AllIdent line char e
    → char ≤ e
    → boundary_at line char ≡ true
    → boundary_at line e ≡ true
end-boundary line char zero t all h b =
    let same : zero ≡ char = omega (arith, h) in ap (boundary_at line) same ∙ b
end-boundary line char (suc e) t all h b = elim (Bool-cases (leb char e)) [
  | inl x ↦ t e (all e (leb→le char e x) (omega arith))
  | inr x ↦ let same : suc e ≡ char = ground arith in ap (boundary_at line) same ∙ b
]

-- In a line of UTF-8, at a place up to its end where a character begins, token_at panics on no slice and returns the longest run of
-- characters of a word that reaches the place from both sides.
pub token_at-WordAt :
    (line : Bytes) (char : ℕ)
    → IsText line
    → char ≤ length line
    → boundary_at line char ≡ true
    → (start : ℕ) × ((end : ℕ) × (WordAt line char start end
          × (token_at line char ≡ some (take (end - start) (drop start line)))))
unfolding token_at cut
token_at-WordAt line char t h b =
    let word = word_at line char in
    let before = start-boundary line _ char word.starts (start_of-AllIdent line char) b in
    let behind = end-boundary line char _ t (end_of-AllIdent (length line) line char) word.ends b in
    let inside : ltb (length line) char ≡ false = ground arith in
    (_, (_, (word, rw (inside, before, behind) refl)))
