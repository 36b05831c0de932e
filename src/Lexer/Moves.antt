-- ===== src/Lexer/Moves.antt =====
-- What the scanners do to a cursor: they advance it by a number of bytes that are there, so that the
-- program does not panic, and nothing else.
use native.Mathlib.Nat.{zero-add}
use fly_lang.Lexer.Cursor.{
  Cursor, advance, advance_on, advance_by, advance_while, peek, byte_at, at_end, slice,
}
use fly_lang.Prelude.{
  length-drop, ℕ, zero, suc, ◌+◌, ◌-◌, ◌≤◌, ◌<◌, Bool, true, false, Bytes, length, take, drop, [],
  ◌∷◌, ◌≡◌, ◌≢◌, refl, sym, ap, ◌∙◌, arith, inl, inr, Bool-cases,
}

rest-advance_on : (bs : Bytes) (c : Cursor) → bs ≡ c.rest → (advance_on bs c).rest ≡ drop 1 bs
unfolding advance_on
rest-advance_on [] c e = sym e
rest-advance_on (b ∷ bs) c e = ground arith

pub rest-advance : (c : Cursor) → (advance c).rest ≡ drop 1 c.rest
unfolding advance
rest-advance c = rest-advance_on c.rest c refl

drop-drop : (n : ℕ) (xs : Bytes) → drop n (drop 1 xs) ≡ drop (suc n) xs
drop-drop zero [] = refl
drop-drop (suc n) [] = refl
drop-drop n (x ∷ xs) = refl

pub rest-advance_by : (n : ℕ) (c : Cursor) → (advance_by n c).rest ≡ drop n c.rest
unfolding advance_by
rest-advance_by zero c = refl
rest-advance_by (suc n) c = rest-advance_by n (advance c) ∙ rw rest-advance (drop-drop n c.rest)

pub length-advance_by : (n : ℕ) (c : Cursor) → length (advance_by n c).rest ≡ length c.rest - n
length-advance_by n c = rw rest-advance_by (length-drop n c.rest)

off-advance_on :
    (bs : Bytes) (c : Cursor)
    → 0 < length bs
    → ((advance_on bs c).off ≡ c.off + 1) × ((advance_on bs c).panicked ≡ c.panicked)
unfolding advance_on
off-advance_on [] c h = absurd (omega arith)
off-advance_on (b ∷ bs) c h = ground arith

pub off-advance_by :
    (n : ℕ) (c : Cursor)
    → n ≤ length c.rest
    → ((advance_by n c).off ≡ c.off + n) × ((advance_by n c).panicked ≡ c.panicked)
unfolding advance_by advance
off-advance_by zero c h = (omega arith, refl)
off-advance_by (suc n) c h =
    let here = off-advance_on c.rest c (omega arith) in
    let there =
      off-advance_by n (advance c) (rw rest-advance (omega (arith, length-drop 1 c.rest))) in
    (omega (arith, there.0, here.0), there.1 ∙ here.1)

pub advance_by-add : (m n : ℕ) (c : Cursor) → advance_by n (advance_by m c) ≡ advance_by (m + n) c
unfolding advance_by
advance_by-add zero n c = rw zero-add
advance_by-add (suc m) n c =
    advance_by-add m n (advance c)
    ∙ ap (λ (k : ℕ). advance_by k c) (let e : suc (m + n) ≡ suc m + n = omega arith in e)

-- The cursor goes from `c` to `c'` over `count` bytes, at least `k`, all of which are there.
pub record Moves (k : ℕ) (c c' : Cursor) : Type 0 where
  pub count : ℕ
  pub least : k ≤ count
  pub fits : count ≤ length c.rest
  pub reaches : c' ≡ advance_by count c

pub Moves-refl : (c : Cursor) → Moves 0 c c
unfolding advance_by
Moves-refl c = record { count = 0; least = omega arith; fits = omega arith; reaches = refl }

pub Moves-trans : {j k : ℕ} {c d e : Cursor} → Moves j c d → Moves k d e → Moves (j + k) c e
Moves-trans {c} m n = record {
  count = m.count + n.count;
  least = omega arith;
  fits =
      omega
        (arith, n.fits, ap (λ (x : Cursor). length x.rest) m.reaches, length-advance_by m.count c);
  reaches = n.reaches ∙ rw m.reaches (advance_by-add m.count n.count c);
}

pub Moves-weaken : {j k : ℕ} {c d : Cursor} → j ≤ k → Moves k c d → Moves j c d
Moves-weaken h m = record {
  count = m.count;
  least = omega (arith, m.least);
  fits = m.fits;
  reaches = m.reaches;
}

pub Moves-advance : (c : Cursor) → 0 < length c.rest → Moves 1 c (advance c)
unfolding advance_by
Moves-advance c h = record { count = 1; least = omega arith; fits = h; reaches = refl }

pub Moves-advance_twice : (c : Cursor) → 1 < length c.rest → Moves 2 c (advance (advance c))
unfolding advance_by
Moves-advance_twice c h = record { count = 2; least = omega arith; fits = h; reaches = refl }

pub Moves-advance_thrice :
    (c : Cursor) → 2 < length c.rest → Moves 3 c (advance (advance (advance c)))
unfolding advance_by
Moves-advance_thrice c h = record { count = 3; least = omega arith; fits = h; reaches = refl }

pub Moves-advance_by : (n : ℕ) (c : Cursor) → n ≤ length c.rest → Moves n c (advance_by n c)
Moves-advance_by n c h = record { count = n; least = omega arith; fits = h; reaches = refl }

pub length-Moves : {k : ℕ} {c d : Cursor} → Moves k c d → length d.rest + k ≤ length c.rest
length-Moves {c} m = omega (
  arith,
  m.least,
  m.fits,
  ap (λ (x : Cursor). length x.rest) m.reaches,
  length-advance_by m.count c,
)

pub length-count :
    {k : ℕ} {c d : Cursor} (m : Moves k c d) → length d.rest + m.count ≡ length c.rest
length-count {c} m =
    omega (arith, m.fits, ap (λ (x : Cursor). length x.rest) m.reaches, length-advance_by m.count c)

pub panicked-Moves : {k : ℕ} {c d : Cursor} → Moves k c d → d.panicked ≡ c.panicked
panicked-Moves {c} m =
    ap (λ (x : Cursor). x.panicked) m.reaches ∙ (off-advance_by m.count c m.fits).1

pub off-Moves : {k : ℕ} {c d : Cursor} (m : Moves k c d) → d.off - c.off ≡ m.count
off-Moves {c} {d} m =
    omega (arith, ap (λ (x : Cursor). x.off) m.reaches, (off-advance_by m.count c m.fits).0)

-- The slice from where the move began is what it moved over.
pub slice-Moves : {k : ℕ} {c d : Cursor} (m : Moves k c d) → slice c d ≡ take m.count c.rest
unfolding slice
slice-Moves {c} {d} m =
    ap (λ (n : ℕ). take n c.rest)
      (let e : d.off - c.off ≡ m.count =
          omega
            (arith, ap (λ (x : Cursor). x.off) m.reaches, (off-advance_by m.count c m.fits).0) in
        e)

advance_while-Moves :
    (test : ℕ → Bool) (bs : Bytes) (c : Cursor) → bs ≡ c.rest → Moves 0 c (advance_while test bs c)
unfolding advance_while
advance_while-Moves test [] c e = Moves-refl c
advance_while-Moves test (b ∷ bs) c e = elim (Bool-cases (test b)) [
  | inl passes ↦
      rw (passes, advance_while)
        (Moves-weaken (omega arith) (
          Moves-trans (Moves-advance c (rw (← e) (omega arith)))
            (advance_while-Moves test bs (advance c) (sym (rest-advance c ∙ ap (drop 1) (sym e))))))
  | inr fails ↦ rw (fails, advance_while) (Moves-refl c)
]

pub Moves-advance_while : (test : ℕ → Bool) (c : Cursor) → Moves 0 c (advance_while test c.rest c)
Moves-advance_while test c = advance_while-Moves test c.rest c refl

first-Moves :
    (test : ℕ → Bool) (bs : Bytes) (c : Cursor)
    → bs ≡ c.rest
    → 0 < length bs
    → test (byte_at bs 0) ≡ true
    → Moves 1 c (advance_while test bs c)
unfolding advance_while byte_at
first-Moves test [] c e n h = absurd (omega arith)
first-Moves test (b ∷ bs) c e n h =
    rw (h, advance_while)
      (Moves-trans (Moves-advance c (rw (← e) (omega arith)))
        (advance_while-Moves test bs (advance c) (sym (rest-advance c ∙ ap (drop 1) (sym e)))))

-- A loop takes the first byte if that passes its test.
pub Moves-advance_while_first :
    (test : ℕ → Bool) (c : Cursor)
    → 0 < length c.rest
    → test (peek c 0) ≡ true
    → Moves 1 c (advance_while test c.rest c)
unfolding peek
Moves-advance_while_first test c n h = first-Moves test c.rest c refl n h

stop-Moves :
    (test : ℕ → Bool) (bs : Bytes) (c : Cursor)
    → test (byte_at bs 0) ≡ false
    → advance_while test bs c ≡ c
unfolding advance_while byte_at
stop-Moves test [] c h = refl
stop-Moves test (b ∷ bs) c h = rw (h, advance_while)

-- A loop stays where it is at a byte that fails its test.
pub Moves-advance_while_stop :
    (test : ℕ → Bool) (c : Cursor) → test (peek c 0) ≡ false → advance_while test c.rest c ≡ c
unfolding peek
Moves-advance_while_stop test c h = stop-Moves test c.rest c h

-- A byte that is not 0 is there.
lt-length_byte_at : (bs : Bytes) (i : ℕ) → byte_at bs i ≢ 0 → i < length bs
unfolding byte_at
lt-length_byte_at [] i h = absurd (h refl)
lt-length_byte_at (b ∷ bs) zero h = omega arith
lt-length_byte_at (b ∷ bs) (suc i) h = omega (arith, lt-length_byte_at bs i h)

pub lt-length_peek : (c : Cursor) (i : ℕ) → peek c i ≢ 0 → i < length c.rest
unfolding peek
lt-length_peek c i h = lt-length_byte_at c.rest i h

pub lt-length_at_end : (c : Cursor) → at_end c ≡ false → 0 < length c.rest
unfolding at_end
lt-length_at_end c h = ground arith
