-- ===== src/Checkd/Framing.antt =====
-- src/checkd.rs: a response that the daemon frames is read back.
use fly_lang.Checkd.Response.{
  be32, le32, push_be32, is_utf8_on, Read, ok, text_of, read_str, and_then, read_diag, read_diags,
  parse_response,
}
use fly_lang.Diagnostic.{Diagnostic}
use fly_lang.Prelude.{
  ℕ, suc, ◌+◌, ◌/◌, ◌%◌, ◌^◌, ◌<◌, true, false, ltb, Bytes, List, [], ◌∷◌, ◌++◌, length, drop,
  length-append, take-length_append, drop-length_append, none, ◌≡◌, refl, ap, ◌∙◌, arith,
}

be32-push_be32 : (n : ℕ) (rest : Bytes) → n < 2 ^ 32 → be32 (push_be32 n rest) ≡ n
unfolding be32 push_be32
be32-push_be32 n rest h = omega (arith, h)

-- A number in four bytes, the lowest first, in front of what stands behind it.
abbrev pub put_le32 : ℕ → Bytes → Bytes
put_le32 n rest = n % 2 ^ 8 ∷ n / 2 ^ 8 % 2 ^ 8 ∷ n / 2 ^ 16 % 2 ^ 8 ∷ n / 2 ^ 24 % 2 ^ 8 ∷ rest

le32-put_le32 : (n : ℕ) (rest : Bytes) → n < 2 ^ 32 → le32 (put_le32 n rest) ≡ n
unfolding le32
le32-put_le32 n rest h = omega (arith, h)

-- A text behind its length, in front of what stands behind it.
abbrev pub put_text : Bytes → Bytes → Bytes
put_text s rest = push_be32 (length s) (s ++ rest)

abbrev pub put_diag : Diagnostic → Bytes → Bytes
put_diag d rest = put_text d.code (put_le32 d.pos.line (put_le32 d.pos.col (put_text d.msg rest)))

abbrev pub put_diags : List Diagnostic → Bytes → Bytes
put_diags [] rest = rest
put_diags (d ∷ ds) rest = put_diag d (put_diags ds rest)

-- The response of a check without an error of the daemon.
abbrev pub framed : List Diagnostic → Bytes
framed ds = 0 ∷ push_be32 (length ds) (put_diags ds [])

-- A text that a frame holds.
abbrev pub IsText : Bytes → Type 0
IsText s = (length s < 2 ^ 32) × (is_utf8_on 0 s ≡ true)

abbrev pub AreSent : List Diagnostic → Type 0
AreSent [] = Unit
AreSent (d ∷ ds) =
    IsText d.code × IsText d.msg × (d.pos.line < 2 ^ 32) × (d.pos.col < 2 ^ 32) × AreSent ds

text_of-append : (s rest : Bytes) → IsText s → text_of (length s) (s ++ rest) ≡ ok s
unfolding text_of
text_of-append s rest h =
    let fits : ltb (length (s ++ rest)) (length s) ≡ false = ground (arith, length-append s rest) in
    simp (fits, take-length_append s rest, h.1)

read_str-put_text : (s rest : Bytes) → IsText s → read_str (put_text s rest) ≡ ok s
unfolding read_str push_be32
read_str-put_text s rest h =
    let long : ltb (length (put_text s rest)) 4 ≡ false = ground arith in
    simp (long, be32-push_be32 (length s) (s ++ rest) h.0, text_of-append s rest h)

drop-put_text : (s rest : Bytes) → drop (4 + length s) (put_text s rest) ≡ rest
unfolding push_be32
drop-put_text s rest =
    let next : 4 + length s ≡ suc (suc (suc (suc (length s)))) = omega arith in
    ap (λ (n : ℕ). drop n (put_text s rest)) next ∙ drop-length_append s rest

-- A turn over the frame of a diagnostic, in front of the turns over the rest.
read_diag-put_diag :
    (go : Bytes → Read (List Diagnostic)) (d : Diagnostic) (rest : Bytes)
    → IsText d.code
    → IsText d.msg
    → d.pos.line < 2 ^ 32
    → d.pos.col < 2 ^ 32
    → read_diag go (put_diag d rest) ≡ and_then (go rest) (λ (ds : List Diagnostic). ok (d ∷ ds))
unfolding read_diag
read_diag-put_diag go d rest code msg line col =
    let tail = put_text d.msg rest in
    let fields = put_le32 d.pos.line (put_le32 d.pos.col tail) in
    let long : ltb (length fields) 8 ≡ false = ground arith in
    simp (
      read_str-put_text d.code fields code,
      drop-put_text d.code fields,
      long,
      read_str-put_text d.msg rest msg,
      drop-put_text d.msg rest,
      le32-put_le32 d.pos.line (put_le32 d.pos.col tail) line,
      le32-put_le32 d.pos.col tail col,
    )

read_diags-put_diags :
    (ds : List Diagnostic) (rest : Bytes)
    → AreSent ds
    → read_diags (length ds) (put_diags ds rest) ≡ ok ds
unfolding read_diags
read_diags-put_diags [] rest h = refl
read_diags-put_diags (d ∷ ds) rest (code, msg, line, col, h) =
    read_diag-put_diag (read_diags (length ds)) d (put_diags ds rest) code msg line col
    ∙ ap (λ (r : Read (List Diagnostic)). and_then r (λ (es : List Diagnostic). ok (d ∷ es)))
        (read_diags-put_diags ds rest h)

-- The diagnostics of a response are read back, where there are fewer than `2 ^ 32` of them, their
-- numbers are `u32` and their texts are UTF-8 of fewer than `2 ^ 32` bytes.
pub parse_response-framed :
    (ds : List Diagnostic)
    → length ds < 2 ^ 32
    → AreSent ds
    → parse_response (framed ds) ≡ ok (record { diags = ds; server_error = none })
unfolding parse_response push_be32
parse_response-framed ds few sent =
    let body = put_diags ds [] in
    let long : ltb (length (push_be32 (length ds) body)) 4 ≡ false = ground arith in
    simp (long, be32-push_be32 (length ds) body few, read_diags-put_diags ds [] sent)
