-- ===== src/Http/Framing.antt =====
-- src/http.rs: a chunked body is read to its end, and gives back the data that was framed.
use fly_lang.Http.Chunks.{
  find_crlf, parse_size, Body, ok, after_turn, Turn, ends, goes_on, chunk_of, sized_turn,
  chunk_turn, chunk_loop, chunked_body,
}
use fly_lang.Prelude.{
  ℕ, zero, suc, ◌+◌, ◌≤◌, ◌<◌, ◌==◌, ltb, Bytes, List, [], ◌∷◌, ◌++◌, length, take, drop,
  length-append, length-drop, take-length_append, drop-append, append_assoc, append-nil, Option,
  none, false, some, ◌≡◌, ◌≢◌, refl, sym, ap, ◌∙◌, arith,
}

-- A turn that goes on leaves fewer bytes.
abbrev Shrinks : Bytes → Turn → Type 0
Shrinks rest (ends b) = Unit
Shrinks rest (goes_on rest' out') = length rest' < length rest

chunk_of-Shrinks : (rest out : Bytes) (start size : ℕ) → Shrinks rest (chunk_of rest out start size)
unfolding chunk_of
chunk_of-Shrinks rest out start size = ground (arith, length-drop (start + size + 2) rest)

chunk_turn-Shrinks : (rest out : Bytes) (e : Option ℕ) → Shrinks rest (chunk_turn rest out e)
unfolding chunk_turn sized_turn
chunk_turn-Shrinks rest out none = tt
chunk_turn-Shrinks rest out (some e) = sized_shrinks (parse_size (take e rest))
  where
    sized_shrinks : (s : Option ℕ) → Shrinks rest (sized_turn rest out e s)
    sized_shrinks none = tt
    sized_shrinks (some s) = chunk_of-Shrinks rest out (e + 2) s

after_turn-total :
    (go : Bytes → Bytes → Option Body) (rest : Bytes) (t : Turn)
    → Shrinks rest t
    → ((r o : Bytes) → length r < length rest → (b : Body) × (go r o ≡ some b))
    → (b : Body) × (after_turn go t ≡ some b)
after_turn-total go rest (ends b) s h = (b, refl)
after_turn-total go rest (goes_on r o) s h = h r o s

chunk_loop-total :
    (fuel : ℕ) (rest out : Bytes)
    → length rest < fuel
    → (b : Body) × (chunk_loop fuel rest out ≡ some b)
unfolding chunk_loop
chunk_loop-total zero rest out h = absurd (omega (arith, h))
chunk_loop-total (suc fuel) rest out h =
    after_turn-total (chunk_loop fuel) rest (chunk_turn rest out (find_crlf rest))
      (chunk_turn-Shrinks rest out (find_crlf rest))
      (λ r o s. chunk_loop-total fuel r o (omega (arith, s, h)))

-- Reading any chunked body ends, with the data, an error or a panic.
pub chunked_body-total : (rest : Bytes) → (b : Body) × (chunked_body rest ≡ some b)
unfolding chunked_body
chunked_body-total rest = chunk_loop-total (suc (length rest)) rest [] (omega arith)

-- A line of a size that the code reads as `n`, without a carriage return.
abbrev pub HasNoReturn : Bytes → Type 0
HasNoReturn [] = Unit
HasNoReturn (c ∷ cs) = (c ≢ b'\r') × HasNoReturn cs

abbrev pub IsSizeLine : Bytes → ℕ → Type 0
IsSizeLine line n = (parse_size line ≡ some n) × HasNoReturn line

-- Each chunk has the line of its size and its data.
abbrev pub AreChunks : List (Bytes × Bytes) → Type 0
AreChunks [] = Unit
AreChunks ((line, data_) ∷ cs) = IsSizeLine line (length data_) × (length data_ ≢ 0) × AreChunks cs

abbrev pub framed : List (Bytes × Bytes) → Bytes → Bytes
framed [] rest = rest
framed ((line, data_) ∷ cs) rest =
    line ++ (b'\r' ∷ b'\n' ∷ (data_ ++ (b'\r' ∷ b'\n' ∷ framed cs rest)))

abbrev pub contents : List (Bytes × Bytes) → Bytes
contents [] = []
contents ((line, data_) ∷ cs) = data_ ++ contents cs

find_crlf-line :
    (line rest : Bytes)
    → HasNoReturn line
    → find_crlf (line ++ (b'\r' ∷ b'\n' ∷ rest)) ≡ some (length line)
unfolding find_crlf
find_crlf-line [] rest h = refl
find_crlf-line (c ∷ []) rest h = ground arith
find_crlf-line (c ∷ d ∷ line) rest h =
    let ih = find_crlf-line (d ∷ line) rest h.1 in
    let other : (c == b'\r') ≡ false = ground arith in simp (other, ih)

-- One turn over a line of a size.
turn-line :
    (line rest out : Bytes) (n : ℕ)
    → IsSizeLine line n
    → chunk_turn (line ++ (b'\r' ∷ b'\n' ∷ rest)) out (find_crlf (line ++ (b'\r' ∷ b'\n' ∷ rest)))
      ≡ chunk_of (line ++ (b'\r' ∷ b'\n' ∷ rest)) out (length line + 2) n
unfolding chunk_turn sized_turn
turn-line line rest out n h =
    rw (find_crlf-line line rest h.1, take-length_append line (b'\r' ∷ b'\n' ∷ rest), h.0) refl

-- The part of a turn over a whole chunk.
chunk_of-whole :
    (line data_ more out : Bytes)
    → length data_ ≢ 0
    → chunk_of
        (line ++ (b'\r' ∷ b'\n' ∷ (data_ ++ (b'\r' ∷ b'\n' ∷ more))))
        out
        (length line + 2)
        (length data_)
      ≡ goes_on more (out ++ data_)
unfolding chunk_of
chunk_of-whole line data_ more out h =
    let behind = b'\r' ∷ b'\n' ∷ more in
    let whole = line ++ (b'\r' ∷ b'\n' ∷ (data_ ++ behind)) in
    let size : length whole ≡ length line + 2 + length data_ + 2 + length more =
      omega (
        arith,
        length-append line (b'\r' ∷ b'\n' ∷ (data_ ++ behind)),
        length-append data_ behind,
      ) in
    let some_data : (length data_ == 0) ≡ false = ground (arith, h) in
    let fits : ltb (length whole) (length line + 2 + length data_) ≡ false = ground (arith, size) in
    let ended : ltb (length whole) (length line + 2 + length data_ + 2) ≡ false =
      ground (arith, size) in
    let there : drop (length line + 2) whole ≡ data_ ++ behind =
      drop-append line (b'\r' ∷ b'\n' ∷ (data_ ++ behind)) 2 in
    let apart : length line + 2 + length data_ + 2 ≡ length line + suc (suc (length data_ + 2)) =
      omega arith in
    let past : drop (length line + 2 + length data_ + 2) whole ≡ more =
      ap (λ (n : ℕ). drop n whole) apart
      ∙ drop-append line (b'\r' ∷ b'\n' ∷ (data_ ++ behind)) (suc (suc (length data_ + 2)))
      ∙ drop-append data_ behind 2 in
    simp (some_data, fits, ended, there, past, take-length_append data_ behind)

framed-loop :
    (cs : List (Bytes × Bytes)) (last rest out : Bytes) (fuel : ℕ)
    → AreChunks cs
    → IsSizeLine last 0
    → length cs < fuel
    → chunk_loop fuel (framed cs (last ++ (b'\r' ∷ b'\n' ∷ rest))) out
      ≡ some (ok (out ++ contents cs))
unfolding chunk_loop chunk_of
framed-loop [] last rest out (suc fuel) h z f =
    ap (after_turn (chunk_loop fuel)) (turn-line last rest out 0 z)
    ∙ ap (λ (o : Bytes). some (ok o)) (sym (append-nil out))
framed-loop ((line, data_) ∷ cs) last rest out (suc fuel) (size, full, h) z f =
    ap (after_turn (chunk_loop fuel))
      (turn-line line _ out (length data_) size ∙ chunk_of-whole line data_ _ out full)
    ∙ framed-loop cs last rest (out ++ data_) fuel h z (omega (arith, f))
    ∙ ap (λ (o : Bytes). some (ok o)) (append_assoc out data_ (contents cs))
framed-loop cs last rest out zero h z f = absurd (omega (arith, f))

length-framed : (cs : List (Bytes × Bytes)) (rest : Bytes) → length cs ≤ length (framed cs rest)
length-framed [] rest = omega arith
length-framed ((line, data_) ∷ cs) rest = omega (
  arith,
  length-framed cs rest,
  length-append line (b'\r' ∷ b'\n' ∷ (data_ ++ (b'\r' ∷ b'\n' ∷ framed cs rest))),
  length-append data_ (b'\r' ∷ b'\n' ∷ framed cs rest),
)

-- Chunks of data, each behind the line of its size, and then a line of size 0, are read back as the data,
-- whatever stands behind.
pub chunked_body-framed :
    (cs : List (Bytes × Bytes)) (last rest : Bytes)
    → AreChunks cs
    → IsSizeLine last 0
    → chunked_body (framed cs (last ++ (b'\r' ∷ b'\n' ∷ rest))) ≡ some (ok (contents cs))
unfolding chunked_body
chunked_body-framed cs last rest h z =
    framed-loop cs last rest [] (suc (length (framed cs (last ++ (b'\r' ∷ b'\n' ∷ rest))))) h z
      (omega (arith, length-framed cs (last ++ (b'\r' ∷ b'\n' ∷ rest))))
