-- ===== src/Lexer/Scans/Words.antt =====
-- `scan_ident`, `scan_string` and `scan_string_prefix` of src/lexer/lexer.rs as scanners.
use fly_lang.Lexer.Cursor.{
  Cursor, advance, advance_by, byte_at, advance_while, peek, slice, is_ident_start, is_ident_part,
}
use fly_lang.Lexer.Moves.{
  Moves, Moves-refl, Moves-trans, Moves-weaken, Moves-advance, Moves-advance_while,
  Moves-advance_while_first, lt-length_peek, length-Moves, rest-advance,
}
use fly_lang.Lexer.State.{Lexer}
use fly_lang.Lexer.Words.{
  scan_ident, Close, closed, unclosed, string_loop, is_triple, past_quotes, finish_string,
  scan_string, scan_string_prefix, lower, is_string_prefix, prefix_loop, prefix_index,
}
use fly_lang.Prelude.{
  ℕ, ◌+◌, ◌≤◌, ◌<◌, Bool, true, false, ◌&&◌, ◌||◌, ◌==◌, if◌then◌else◌, Bytes, length, map, List,
  [], ◌∷◌, ◌≡◌, ◌≢◌, ◌⊎◌, refl, sym, ap, ◌∙◌, arith, inl, inr, Bool-cases, Option-cases, if_rule,
  drop, some,
}
use fly_lang.Token.Keywords.{keyword_iff}
use fly_lang.Token.{TokenType, keyword, keyword_name}
use fly_lang.Lexer.Scans.{Scans, slice-HasText, is_layout, Scans-token, Scans-error}

-- No keyword stands for layout.
keyword-lexical : (k : Bytes) (kw : TokenType) → keyword k ≡ some kw → is_layout kw ≡ false
unfolding keyword_name
keyword-lexical k kw h = lexical kw ((keyword_iff k kw).0 h)
  where
    lexical : (t : TokenType) → keyword_name t ≡ some k → is_layout t ≡ false
    lexical TokenType.eof e = cc
    lexical TokenType.newline e = cc
    lexical TokenType.indent e = cc
    lexical TokenType.dedent e = cc
    lexical _ e = refl

scan_ident-start : (b : ℕ) → is_ident_start b ≡ true → (is_ident_part b ≡ true) × (b ≢ 0)
unfolding is_ident_part
scan_ident-start b h = ground arith

pub scan_ident-Scans : (l : Lexer) → is_ident_start (peek l.cur 0) ≡ true → Scans l (scan_ident l)
unfolding scan_ident
scan_ident-Scans l h =
    let (part, there) = scan_ident-start (peek l.cur 0) h in
    let moved = Moves-advance_while_first is_ident_part l.cur (lt-length_peek l.cur 0 there) part in
    let e = advance_while is_ident_part l.cur.rest l.cur in
    elim (Option-cases (keyword (slice l.cur e))) [
      | inl other ↦
          rw (other, scan_ident)
            (Scans-token l TokenType.ident (slice l.cur e) e moved refl
              (slice-HasText l.cur e TokenType.ident))
      | inr (kw, known) ↦
          rw (known, scan_ident)
            (Scans-token l kw (slice l.cur e) e moved (keyword-lexical _ kw known)
              (slice-HasText l.cur e kw))
    ]

abbrev quote_count : Bool → ℕ
quote_count triple = if triple then 3 else 1

abbrev CloseMoves : Bool → Cursor → Close → Type 0
CloseMoves triple c (closed e) = Moves 0 c e × (quote_count triple ≤ length e.rest)
CloseMoves triple c (unclosed e) = Moves 0 c e

CloseMoves-after :
    (triple : Bool) {c d : Cursor} (r : Close)
    → Moves 1 c d
    → CloseMoves triple d r
    → CloseMoves triple c r
CloseMoves-after triple (closed e) m h = (Moves-weaken (omega arith) (Moves-trans m h.0), h.1)
CloseMoves-after triple (unclosed e) m h = Moves-weaken (omega arith) (Moves-trans m h)

module _ (q : ℕ) (triple : Bool) (quote : q ≢ 0) where
  close-CloseMoves :
      (c : Cursor)
      → 0 < length c.rest
      → triple ≡ false ⊎ ((peek c 1 == q && peek c 2 == q) ≡ true)
      → CloseMoves triple c (closed c)
  close-CloseMoves c n (inl single) = (Moves-refl c, ground arith)
  close-CloseMoves c n (inr three) = (Moves-refl c, ground (arith, lt-length_peek c 2))

  string_loop-CloseMoves :
      (bs : Bytes) (c : Cursor) → bs ≡ c.rest → CloseMoves triple c (string_loop q triple bs c)
  unfolding string_loop
  string_loop-CloseMoves [] c e = Moves-refl c
  string_loop-CloseMoves (b ∷ []) c e =
      let P = CloseMoves triple c in
      let n : 0 < length c.rest = rw (← e) (omega arith) in
      let on : P (unclosed (advance c)) = Moves-weaken (omega arith) (Moves-advance c n) in
      if_rule P (b == b'\\') (λ _. on)
        λ _.
          if_rule P (b == q) (λ _. if_rule P triple (λ _. on) (λ s. close-CloseMoves c n (inl s)))
            (λ _.
              if_rule P (b == b'\n') (λ _. if_rule P triple (λ _. on) (λ _. Moves-refl c))
                (λ _. on))
  string_loop-CloseMoves (b ∷ b₁ ∷ bs) c e =
      let P = CloseMoves triple c in
      let n : 0 < length c.rest = rw (← e) (omega arith) in
      let e₁ : b₁ ∷ bs ≡ (advance c).rest = sym (rest-advance c ∙ ap (drop 1) (sym e)) in
      let e₂ : bs ≡ (advance (advance c)).rest =
        sym (rest-advance (advance c) ∙ ap (drop 1) (sym e₁)) in
      let step = Moves-advance c n in
      let steps = Moves-trans step (Moves-advance (advance c) (rw (← e₁) (omega arith))) in
      let one : P (string_loop q triple (b₁ ∷ bs) (advance c)) =
        CloseMoves-after triple _ step (string_loop-CloseMoves (b₁ ∷ bs) (advance c) e₁) in
      let two : P (string_loop q triple bs (advance (advance c))) =
        CloseMoves-after triple _ (Moves-weaken (omega arith) steps)
          (string_loop-CloseMoves bs (advance (advance c)) e₂) in
      if_rule P (b == b'\\') (λ _. two)
        λ _.
          if_rule P (b == q)
            (λ _.
              if_rule P triple
                (λ _.
                  if_rule P (peek c 1 == q && peek c 2 == q) (λ t. close-CloseMoves c n (inr t))
                    (λ _. one))
                (λ s. close-CloseMoves c n (inl s)))
            (λ _.
              if_rule P (b == b'\n') (λ _. if_rule P triple (λ _. one) (λ _. Moves-refl c))
                (λ _. one))

abbrev pub is_quote : ℕ → Bool
is_quote c = c == b'\'' || c == b'"'

past_quotes-Moves :
    (triple : Bool) (c : Cursor)
    → quote_count triple ≤ length c.rest
    → Moves 1 c (past_quotes triple c)
unfolding past_quotes advance_by
past_quotes-Moves true c h = record { count = 3; least = omega arith; fits = h; reaches = refl }
past_quotes-Moves false c h = record { count = 1; least = omega arith; fits = h; reaches = refl }

finish_string-Scans :
    (prefix : Bytes) (q : ℕ) (triple : Bool) (l : Lexer) (begin : Cursor) (r : Close)
    → Moves 0 l.cur begin
    → CloseMoves triple begin r
    → Scans l (finish_string prefix q triple l begin r)
unfolding finish_string
finish_string-Scans prefix q triple l begin (closed e) m h =
    Scans-token l _ _ (past_quotes triple e)
      (Moves-trans (Moves-trans m h.0) (past_quotes-Moves triple e h.1)) refl (λ h. cc)
finish_string-Scans prefix q triple l begin (unclosed e) m h =
    Scans-error l [] e _ [] (Moves-trans m h)

begin-Moves :
    (q : ℕ) (c : Cursor) → q ≢ 0 → Moves 0 c (if is_triple q c then advance (advance c) else c)
unfolding is_triple advance_by
begin-Moves q c h =
    if_rule (Moves 0 c) (peek c 0 == q && peek c 1 == q)
      (λ t. record {
        count = 2;
        least = omega arith;
        fits = ground (arith, lt-length_peek c 1);
        reaches = refl;
      })
      (λ _. Moves-refl c)

pub scan_string-Scans :
    (prefix : Bytes) (l : Lexer) → is_quote (peek l.cur 0) ≡ true → Scans l (scan_string prefix l)
unfolding scan_string
scan_string-Scans prefix l h =
    let q = peek l.cur 0 in
    let quote : q ≢ 0 = ground arith in
    let opened = Moves-advance l.cur (lt-length_peek l.cur 0 quote) in
    let begun =
      Moves-weaken (omega arith) (Moves-trans opened (begin-Moves q (advance l.cur) quote)) in
    finish_string-Scans prefix q (is_triple q (advance l.cur)) l _ _ begun
      (string_loop-CloseMoves q _ quote _ _ refl)

-- A byte in front of the quote is a letter, and the loop goes on behind it.
prefix_letter :
    (b : ℕ) (bs : Bytes) (k : ℕ) (seen : List ℕ)
    → is_quote b ≡ false
    → prefix_loop (b ∷ bs) k seen ≡ true
    → (j : ℕ) × (is_ident_part b ≡ true) × (prefix_loop bs (k + 1) (j ∷ seen) ≡ true)
unfolding prefix_loop is_ident_part
prefix_letter b bs k seen n h = elim (Option-cases (prefix_index (lower b))) [
  | inl e ↦ (0, ground arith, ground arith)
  | inr (j, e) ↦ (j, ground arith, ground arith)
]

-- Where `is_string_prefix` holds, a quote stands behind the letters.
prefix_loop-quote :
    (bs : Bytes) (k : ℕ) (seen : List ℕ) (c : Cursor)
    → bs ≡ c.rest
    → prefix_loop bs k seen ≡ true
    → is_quote (peek (advance_while is_ident_part bs c) 0) ≡ true
unfolding advance_while prefix_loop
prefix_loop-quote [] k seen c e h = cc
prefix_loop-quote (b ∷ bs) k seen c e h = elim (Bool-cases (is_quote b)) [
  | inl q ↦
      let here : peek c 0 ≡ b = unfold peek byte_at in rw (← e) in
      let stops : is_ident_part b ≡ false = unfold is_ident_part in ground arith in
      rw (stops, advance_while, here) q
  | inr n ↦
      let (j, part, more) = prefix_letter b bs k seen n h in
      let e' : bs ≡ (advance c).rest = sym (rest-advance c ∙ ap (drop 1) (sym e)) in
      rw (part, advance_while) (prefix_loop-quote bs (k + 1) (j ∷ seen) (advance c) e' more)
]

pub scan_string_prefix-Scans :
    (l : Lexer) → is_string_prefix l.cur ≡ true → Scans l (scan_string_prefix l)
unfolding scan_string_prefix
scan_string_prefix-Scans l h =
    let m = Moves-advance_while is_ident_part l.cur in
    let e = advance_while is_ident_part l.cur.rest l.cur in
    let quote = prefix_loop-quote l.cur.rest 0 [] l.cur refl (unfold is_string_prefix in h) in
    let inner = scan_string-Scans (map lower (slice l.cur e)) (record l { cur = e }) quote in
    record {
      moves = Moves-trans m inner.moves;
      lexical = inner.lexical;
      progress = elim inner.progress [
        | inl less ↦ inl (omega (arith, less, length-Moves m))
        | inr failed ↦ inr failed
      ];
      at = inner.at;
      reached = Moves-trans m inner.reached;
      left = inner.left;
      only_prefix = inr h;
      text = inner.text;
      line_is = inner.line_is;
      col_is = inner.col_is;
      keeps = record {
        indents_same = inner.keeps.indents_same;
        pending_same = inner.keeps.pending_same;
        start_same = inner.keeps.start_same;
        line_tok_same = inner.keeps.line_tok_same;
      };
    }
