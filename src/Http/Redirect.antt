-- ===== src/Http/Redirect.antt =====
-- src/http.rs: `parse_url` and `resolve_redirect`.
use fly_lang.Prelude.{
  ℕ, zero, suc, ◌+◌, ◌-◌, ◌*◌, ◌/◌, ◌%◌, ◌^◌, Bool, true, false, ◌&&◌, ◌==◌, ltb, within,
  if◌then◌else◌, Bytes, utf8, [], ◌∷◌, ◌++◌, Option, none, some,
}

unfoldable pub starts_with : Bytes → Bytes → Bool
starts_with [] s = true
starts_with (p ∷ ps) [] = false
starts_with (p ∷ ps) (c ∷ cs) = p == c && starts_with ps cs

-- What is left of `s` behind the prefix.
unfoldable pub strip_prefix : Bytes → Bytes → Option Bytes
strip_prefix [] s = some s
strip_prefix (p ∷ ps) [] = none
strip_prefix (p ∷ ps) (c ∷ cs) = let rest = strip_prefix ps cs in if p == c then rest else none

-- `s[..i]` and `s[i..]` where `i` is the first place of `b`.
unfoldable pub split_at : ℕ → Bytes → Option (Bytes × Bytes)
split_at b [] = none
split_at b (c ∷ cs) =
    let rest = split_at b cs in
    if c == b then some ([], c ∷ cs) else elim rest [ none ↦ none | some (x, y) ↦ some (c ∷ x, y) ]

-- The two sides of the last place of `b`.
unfoldable pub rsplit_once : ℕ → Bytes → Option (Bytes × Bytes)
rsplit_once b [] = none
rsplit_once b (c ∷ cs) = elim (rsplit_once b cs) [
  | some (x, y) ↦ some (c ∷ x, y)
  | none ↦ if c == b then some ([], cs) else none
]

unfoldable pub all_digits : Bytes → Bool
all_digits [] = true
all_digits (c ∷ cs) = within b'0' b'9' c && all_digits cs

abbrev pub value_on : ℕ → Bytes → ℕ
value_on n [] = n
value_on n (c ∷ cs) = value_on (10 * n + (c - b'0')) cs

-- `p.parse::<u16>().unwrap_or(443)`, of digits.
unfoldable pub port_of : Bytes → ℕ
port_of [] = 443
port_of (c ∷ cs) = let n = value_on 0 (c ∷ cs) in if ltb n (2 ^ 16) then n else 443

-- The digits of a number below `10 ^ k`, with none for zero.
abbrev pub digits_on : ℕ → ℕ → Bytes → Bytes
digits_on zero n out = out
digits_on (suc k) n out =
    let rest = digits_on k (n / 10) ((b'0' + n % 10) ∷ out) in if n == 0 then out else rest

-- `{}` of a `u16`.
unfoldable pub show_port : ℕ → Bytes
show_port n = if n == 0 then utf8 "0" else digits_on 5 n []

pub record Url : Type 0 where
  pub host : Bytes
  pub port : ℕ
  pub path : Bytes

abbrev pub host_and_port : Bytes → Bytes × ℕ
host_and_port hostport = elim (rsplit_once b':' hostport) [
  | some (h, p) ↦ if all_digits p then (h, port_of p) else (hostport, 443)
  | none ↦ (hostport, 443)
]

abbrev pub host_and_path : Bytes → Bytes × Bytes
host_and_path rest = elim (split_at b'/' rest) [ some (x, y) ↦ (x, y) | none ↦ (rest, utf8 "/") ]

abbrev pub url_of : Bytes → Url
url_of rest =
    let (hostport, path) = host_and_path rest in
    let (host, port) = host_and_port hostport in record { host = host; port = port; path = path }

-- `parse_url`, without the address that it gives back as it was; `none` is the panic of `expect`.
unfoldable pub parse_url : Bytes → Option Url
parse_url url = elim (strip_prefix (utf8 "https://") url) [
  | none ↦ none
  | some rest ↦ some (url_of rest)
]

pub data Redirect : Type 0 where
  to : Bytes → Redirect
  refused : Redirect
  panics : Redirect

abbrev pub dir_of : Bytes → Bytes
dir_of path = elim (rsplit_once b'/' path) [ some (d, x) ↦ d | none ↦ [] ]

abbrev pub origin : Url → Bytes
origin u = utf8 "https://" ++ (u.host ++ (b':' ∷ show_port u.port))

-- A place on the server of the page, from the parts of the page's address.
abbrev pub within_origin : Option Url → Bytes → Redirect
within_origin none loc = Redirect.panics
within_origin (some u) loc =
    if starts_with (utf8 "/") loc
    then Redirect.to (origin u ++ loc)
    else Redirect.to (origin u ++ (dir_of u.path ++ (b'/' ∷ loc)))

unfoldable pub resolve_redirect : Bytes → Bytes → Redirect
resolve_redirect cur loc =
    if starts_with (utf8 "https://") loc
    then Redirect.to loc
    else if starts_with (utf8 "http://") loc
    then Redirect.refused
    else within_origin (parse_url cur) loc
