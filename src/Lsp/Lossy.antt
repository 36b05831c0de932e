-- ===== src/Lsp/Lossy.antt =====
-- `String::from_utf8_lossy` of the standard library, which src/lsp.rs calls at the end of `uri_to_path`: each longest
-- start of a character that breaks off gives one U+FFFD.
use fly_lang.Prelude.{ℕ, zero, suc, ltb, within, ◌==◌, if◌then◌else◌, Bytes, [], ◌∷◌, ◌++◌}

-- What a first byte begins: a character of one byte, nothing, or a character with a byte to come from `lo` to `hi`
-- and so many behind that.
pub data Lead : Type 0 where
  single : Lead
  refused : Lead
  wait : ℕ → ℕ → ℕ → Lead

unfoldable pub lead : ℕ → Lead
lead b =
    if ltb b 0x80
    then Lead.single
    else if within 0xC2 0xDF b
    then Lead.wait 0 0x80 0xBF
    else if b == 0xE0
    then Lead.wait 1 0xA0 0xBF
    else if b == 0xED
    then Lead.wait 1 0x80 0x9F
    else if within 0xE1 0xEF b
    then Lead.wait 1 0x80 0xBF
    else if b == 0xF0
    then Lead.wait 2 0x90 0xBF
    else if within 0xF1 0xF3 b
    then Lead.wait 2 0x80 0xBF
    else if b == 0xF4
    then Lead.wait 2 0x80 0x8F
    else Lead.refused

-- Between two characters, or behind the bytes of one.
pub data Partial : Type 0 where
  idle : Partial
  inside : Bytes → ℕ → ℕ → ℕ → Partial

abbrev pub replacement : Bytes
replacement = 0xEF ∷ 0xBF ∷ 0xBD ∷ []

-- The state behind a byte, and what is put out.
abbrev pub begin_with : ℕ → Lead → Partial × Bytes
begin_with b Lead.single = (Partial.idle, b ∷ [])
begin_with b Lead.refused = (Partial.idle, replacement)
begin_with b (Lead.wait more lo hi) = (Partial.inside (b ∷ []) more lo hi, [])

abbrev pub take_byte : Bytes → ℕ → Partial × Bytes
take_byte bytes zero = (Partial.idle, bytes)
take_byte bytes (suc more) = (Partial.inside bytes more 0x80 0xBF, [])

abbrev pub broken : Partial × Bytes → Partial × Bytes
broken (s, out) = (s, replacement ++ out)

unfoldable pub lossy_step : Partial → ℕ → Partial × Bytes
unfolding lead
lossy_step Partial.idle b = begin_with b (lead b)
lossy_step (Partial.inside bytes more lo hi) b =
    if within lo hi b then take_byte (bytes ++ b ∷ []) more else broken (begin_with b (lead b))

unfoldable pub lossy_on : Partial → Bytes → Bytes
unfolding lossy_step
lossy_on Partial.idle [] = []
lossy_on (Partial.inside bytes more lo hi) [] = replacement
lossy_on s (b ∷ bs) = let (s', out) = lossy_step s b in out ++ lossy_on s' bs

unfoldable pub from_utf8_lossy : Bytes → Bytes
unfolding lossy_on
from_utf8_lossy bs = lossy_on Partial.idle bs
