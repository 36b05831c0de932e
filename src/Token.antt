-- ===== src/Token.antt =====
-- src/lexer/token.rs: token types, the keyword table and the tokens. A constructor that would be
-- spelled like a name in common use has a trailing `_`.
pub mod Keywords
use fly_lang.Diagnostic.{Position}
use fly_lang.Prelude.{
  ℕ, Bool, Bytes, utf8, bytes_eq, ◌==◌, if◌then◌else◌, Option, none, some, List, [], ◌∷◌,
}

pub data TokenType : Type 0 where
  illegal eof ident int float string newline indent dedent def : TokenType
  class if_ elif else_ for while return raise try except : TokenType
  finally pass break continue import from as_ in_ not_ and_ : TokenType
  or_ is none_ true_ false_ del assert with yield global : TokenType
  nonlocal lambda async await safe only lock mask cage guard : TokenType
  seal trace plus minus star slash percent double_star floor_div shl : TokenType
  shr amp pipe caret tilde lt gt le ge eq_eq : TokenType
  ne assign plus_assign minus_assign star_assign slash_assign percent_assign double_star_assign
        floor_div_assign shl_assign :
      TokenType
  shr_assign amp_assign pipe_assign caret_assign colon comma dot semicolon arrow lparen : TokenType
  rparen lbracket rbracket lbrace rbrace at ellipsis : TokenType

-- The discriminant, by which the derived `==` compares.
unfoldable pub discriminant : TokenType → ℕ
discriminant illegal = 0
discriminant eof = 1
discriminant ident = 2
discriminant int = 3
discriminant float = 4
discriminant string = 5
discriminant newline = 6
discriminant indent = 7
discriminant dedent = 8
discriminant def = 9
discriminant class = 10
discriminant if_ = 11
discriminant elif = 12
discriminant else_ = 13
discriminant for = 14
discriminant while = 15
discriminant return = 16
discriminant raise = 17
discriminant try = 18
discriminant except = 19
discriminant finally = 20
discriminant pass = 21
discriminant break = 22
discriminant continue = 23
discriminant import = 24
discriminant from = 25
discriminant as_ = 26
discriminant in_ = 27
discriminant not_ = 28
discriminant and_ = 29
discriminant or_ = 30
discriminant is = 31
discriminant none_ = 32
discriminant true_ = 33
discriminant false_ = 34
discriminant del = 35
discriminant assert = 36
discriminant with = 37
discriminant yield = 38
discriminant global = 39
discriminant nonlocal = 40
discriminant lambda = 41
discriminant async = 42
discriminant await = 43
discriminant safe = 44
discriminant only = 45
discriminant lock = 46
discriminant mask = 47
discriminant cage = 48
discriminant guard = 49
discriminant seal = 50
discriminant trace = 51
discriminant plus = 52
discriminant minus = 53
discriminant star = 54
discriminant slash = 55
discriminant percent = 56
discriminant double_star = 57
discriminant floor_div = 58
discriminant shl = 59
discriminant shr = 60
discriminant amp = 61
discriminant pipe = 62
discriminant caret = 63
discriminant tilde = 64
discriminant lt = 65
discriminant gt = 66
discriminant le = 67
discriminant ge = 68
discriminant eq_eq = 69
discriminant ne = 70
discriminant assign = 71
discriminant plus_assign = 72
discriminant minus_assign = 73
discriminant star_assign = 74
discriminant slash_assign = 75
discriminant percent_assign = 76
discriminant double_star_assign = 77
discriminant floor_div_assign = 78
discriminant shl_assign = 79
discriminant shr_assign = 80
discriminant amp_assign = 81
discriminant pipe_assign = 82
discriminant caret_assign = 83
discriminant colon = 84
discriminant comma = 85
discriminant dot = 86
discriminant semicolon = 87
discriminant arrow = 88
discriminant lparen = 89
discriminant rparen = 90
discriminant lbracket = 91
discriminant rbracket = 92
discriminant lbrace = 93
discriminant rbrace = 94
discriminant at = 95
discriminant ellipsis = 96

unfoldable pub ty_eq : TokenType → TokenType → Bool
ty_eq a b = discriminant a == discriminant b

-- The arms of a `match` on a string, tried in order.
unfoldable pub select {ℓ} : {A : Type ℓ} → List (Bytes × A) → Bytes → Option A
select [] name = none
select ((k, v) ∷ arms) name = if bytes_eq k name then some v else select arms name

abbrev pub keyword_arms : List (Bytes × TokenType)
keyword_arms =
    (utf8 "def", def)
    ∷ (utf8 "class", class)
    ∷ (utf8 "if", if_)
    ∷ (utf8 "elif", elif)
    ∷ (utf8 "else", else_)
    ∷ (utf8 "for", for)
    ∷ (utf8 "while", while)
    ∷ (utf8 "return", return)
    ∷ (utf8 "raise", raise)
    ∷ (utf8 "try", try)
    ∷ (utf8 "except", except)
    ∷ (utf8 "finally", finally)
    ∷ (utf8 "pass", pass)
    ∷ (utf8 "break", break)
    ∷ (utf8 "continue", continue)
    ∷ (utf8 "import", import)
    ∷ (utf8 "from", from)
    ∷ (utf8 "as", as_)
    ∷ (utf8 "in", in_)
    ∷ (utf8 "not", not_)
    ∷ (utf8 "and", and_)
    ∷ (utf8 "or", or_)
    ∷ (utf8 "is", is)
    ∷ (utf8 "None", none_)
    ∷ (utf8 "True", true_)
    ∷ (utf8 "False", false_)
    ∷ (utf8 "del", del)
    ∷ (utf8 "assert", assert)
    ∷ (utf8 "with", with)
    ∷ (utf8 "yield", yield)
    ∷ (utf8 "global", global)
    ∷ (utf8 "nonlocal", nonlocal)
    ∷ (utf8 "lambda", lambda)
    ∷ (utf8 "async", async)
    ∷ (utf8 "await", await)
    ∷ (utf8 "safe", safe)
    ∷ (utf8 "only", only)
    ∷ (utf8 "lock", lock)
    ∷ (utf8 "mask", mask)
    ∷ (utf8 "cage", cage)
    ∷ (utf8 "guard", guard)
    ∷ (utf8 "seal", seal)
    ∷ (utf8 "trace", trace)
    ∷ []

unfoldable pub keyword : Bytes → Option TokenType
keyword = select keyword_arms

unfoldable pub keyword_name : TokenType → Option Bytes
keyword_name def = some (utf8 "def")
keyword_name class = some (utf8 "class")
keyword_name if_ = some (utf8 "if")
keyword_name elif = some (utf8 "elif")
keyword_name else_ = some (utf8 "else")
keyword_name for = some (utf8 "for")
keyword_name while = some (utf8 "while")
keyword_name return = some (utf8 "return")
keyword_name raise = some (utf8 "raise")
keyword_name try = some (utf8 "try")
keyword_name except = some (utf8 "except")
keyword_name finally = some (utf8 "finally")
keyword_name pass = some (utf8 "pass")
keyword_name break = some (utf8 "break")
keyword_name continue = some (utf8 "continue")
keyword_name import = some (utf8 "import")
keyword_name from = some (utf8 "from")
keyword_name as_ = some (utf8 "as")
keyword_name in_ = some (utf8 "in")
keyword_name not_ = some (utf8 "not")
keyword_name and_ = some (utf8 "and")
keyword_name or_ = some (utf8 "or")
keyword_name is = some (utf8 "is")
keyword_name none_ = some (utf8 "None")
keyword_name true_ = some (utf8 "True")
keyword_name false_ = some (utf8 "False")
keyword_name del = some (utf8 "del")
keyword_name assert = some (utf8 "assert")
keyword_name with = some (utf8 "with")
keyword_name yield = some (utf8 "yield")
keyword_name global = some (utf8 "global")
keyword_name nonlocal = some (utf8 "nonlocal")
keyword_name lambda = some (utf8 "lambda")
keyword_name async = some (utf8 "async")
keyword_name await = some (utf8 "await")
keyword_name safe = some (utf8 "safe")
keyword_name only = some (utf8 "only")
keyword_name lock = some (utf8 "lock")
keyword_name mask = some (utf8 "mask")
keyword_name cage = some (utf8 "cage")
keyword_name guard = some (utf8 "guard")
keyword_name seal = some (utf8 "seal")
keyword_name trace = some (utf8 "trace")
keyword_name _ = none

-- The symbol or the category of a token type that is no keyword.
unfoldable pub symbol_name : TokenType → Bytes
symbol_name illegal = utf8 "非法token"
symbol_name eof = utf8 "EOF"
symbol_name ident = utf8 "标识符"
symbol_name int = utf8 "整数"
symbol_name float = utf8 "浮点数"
symbol_name string = utf8 "字符串"
symbol_name newline = utf8 "换行"
symbol_name indent = utf8 "缩进"
symbol_name dedent = utf8 "取消缩进"
symbol_name plus = utf8 "+"
symbol_name minus = utf8 "-"
symbol_name star = utf8 "*"
symbol_name slash = utf8 "/"
symbol_name percent = utf8 "%"
symbol_name double_star = utf8 "**"
symbol_name floor_div = utf8 "//"
symbol_name shl = utf8 "<<"
symbol_name shr = utf8 ">>"
symbol_name amp = utf8 "&"
symbol_name pipe = utf8 "|"
symbol_name caret = utf8 "^"
symbol_name tilde = utf8 "~"
symbol_name lt = utf8 "<"
symbol_name gt = utf8 ">"
symbol_name le = utf8 "<="
symbol_name ge = utf8 ">="
symbol_name eq_eq = utf8 "=="
symbol_name ne = utf8 "!="
symbol_name assign = utf8 "="
symbol_name plus_assign = utf8 "+="
symbol_name minus_assign = utf8 "-="
symbol_name star_assign = utf8 "*="
symbol_name slash_assign = utf8 "/="
symbol_name percent_assign = utf8 "%="
symbol_name double_star_assign = utf8 "**="
symbol_name floor_div_assign = utf8 "//="
symbol_name shl_assign = utf8 "<<="
symbol_name shr_assign = utf8 ">>="
symbol_name amp_assign = utf8 "&="
symbol_name pipe_assign = utf8 "|="
symbol_name caret_assign = utf8 "^="
symbol_name colon = utf8 ":"
symbol_name comma = utf8 ","
symbol_name dot = utf8 "."
symbol_name semicolon = utf8 ";"
symbol_name arrow = utf8 "->"
symbol_name lparen = utf8 "("
symbol_name rparen = utf8 ")"
symbol_name lbracket = utf8 "["
symbol_name rbracket = utf8 "]"
symbol_name lbrace = utf8 "{"
symbol_name rbrace = utf8 "}"
symbol_name at = utf8 "@"
symbol_name ellipsis = utf8 "..."
symbol_name _ = utf8 "未知"

unfoldable pub name : TokenType → Bytes
name tt = elim (keyword_name tt) [ some k ↦ k | none ↦ symbol_name tt ]

pub record Token : Type 0 where
  pub ty : TokenType
  pub lit : Bytes
  pub line : ℕ
  pub col : ℕ

unfoldable pub pos : Token → Position
pos t = record { line = t.line; col = t.col }
