-- ===== src/Tests/Server.antt =====
-- The language server's helpers: runs and instances.
use fly_lang.Lsp.Lossy.{lead, lossy_step, lossy_on, from_utf8_lossy}
use fly_lang.Lsp.Text.{AreChars, text_of}
use fly_lang.Lsp.Paths.{path_to_uri, uri_to_path-path_to_uri}
use fly_lang.Lsp.Token.{is_ident_char, ident_at, boundary_at, start_of, end_of, cut, token_at}
use fly_lang.Lsp.Uri.{is_continuation, is_boundary, digit16, from_hex, decode, uri_to_path}
use fly_lang.Lsp.Words.{IsText, WordAt, token_at-WordAt}
use fly_lang.Http.Redirect.{strip_prefix}
use fly_lang.Prelude.{
  List, ℕ, zero, suc, ◌-◌, Bytes, utf8, [], ◌∷◌, take, drop, none, some, ◌≡◌, refl, arith, true,
  ◌++◌, ◌<◌,
}

-- `/a é%中.fly`
abbrev path : List ℕ
path = b'/' ∷ b'a' ∷ b' ' ∷ 0xE9 ∷ b'%' ∷ 0x4E2D ∷ b'.' ∷ b'f' ∷ b'l' ∷ b'y' ∷ []

path-AreChars : AreChars path
path-AreChars = (refl, (refl, (refl, (refl, (refl, (refl, (refl, (refl, (refl, (refl, tt))))))))))

uri_to_path-path_to_uri_example : uri_to_path (path_to_uri (text_of path)) ≡ some (text_of path)
uri_to_path-path_to_uri_example = uri_to_path-path_to_uri path path-AreChars

-- A byte that begins no character, and a character that breaks off.
repaired : from_utf8_lossy (0xFF ∷ 0xE4 ∷ 0xB8 ∷ b'a' ∷ []) ≡ utf8 "��a"
unfolding from_utf8_lossy lossy_on lossy_step lead
repaired = refl

-- The slice behind a per cent sign ends inside a character of three bytes.
panic : uri_to_path (utf8 "file:///%中.fly") ≡ none
unfolding uri_to_path strip_prefix decode is_boundary is_continuation
panic = refl

-- A sign stands before a digit.
signed : uri_to_path (utf8 "file:///%+5") ≡ some (utf8 "/" ++ 5 ∷ [])
unfolding uri_to_path strip_prefix decode is_boundary is_continuation from_hex digit16
    from_utf8_lossy lossy_on lossy_step lead
signed = refl

abbrev line : Bytes
line = utf8 "x = ab_1"

abbrev AreAscii : Bytes → Type 0
AreAscii [] = Unit
AreAscii (c ∷ cs) = (c < 128) × AreAscii cs

ascii-boundary : (s : Bytes) (i : ℕ) → AreAscii s → boundary_at s i ≡ true
unfolding boundary_at is_continuation
ascii-boundary [] i h = refl
ascii-boundary (c ∷ cs) zero (h, hs) = ground arith
ascii-boundary (c ∷ cs) (suc i) (h, hs) = ascii-boundary cs i hs

line-AreAscii : AreAscii line
line-AreAscii = ground arith

line-IsText : IsText line
line-IsText i h = ascii-boundary line (suc i) line-AreAscii

token_at-WordAt_example :
    (start : ℕ) × ((end : ℕ) × (WordAt line 5 start end
        × (token_at line 5 ≡ some (take (end - start) (drop start line)))))
token_at-WordAt_example =
    token_at-WordAt line 5 line-IsText (ground arith) (ascii-boundary line 5 line-AreAscii)

-- The editor counts characters, the code bytes: a place inside a character.
inside_character : token_at (utf8 "é") 1 ≡ none
unfolding token_at cut start_of end_of ident_at boundary_at is_continuation is_ident_char
inside_character = refl

word : token_at line 5 ≡ some (utf8 "ab_1")
unfolding token_at cut start_of end_of ident_at boundary_at is_continuation is_ident_char
word = refl
