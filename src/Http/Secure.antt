-- ===== src/Http/Secure.antt =====
-- src/http.rs: where a redirect leads to.
use fly_lang.Http.Places.{
  Lacks, Lacks-append, Lacks-left, split_at-append, SplitsAt, split_at-SplitsAt, rsplit_once-append,
  rsplit_once-joins, all_digits-show_port, all_digits-Lacks, port_of-show_port, port_of_lt,
}
use fly_lang.Http.Redirect.{
  Redirect, starts_with, strip_prefix, split_at, rsplit_once, all_digits, port_of, show_port,
  host_and_port, host_and_path, url_of, dir_of, origin, parse_url, within_origin, resolve_redirect,
  Url,
}
use fly_lang.Prelude.{
  ℕ, ◌^◌, ◌<◌, true, false, if◌then◌else◌, if_rule, Bool-cases, Option-cases, Bytes, utf8, [], ◌∷◌,
  ◌++◌, Option, none, some, ◌≡◌, ◌⊎◌, inl, inr, refl, sym, ap, subst, ◌∙◌, arith,
}

-- A path begins with a slash.
abbrev Rooted : Bytes → Type 0
Rooted p = (q : Bytes) × (p ≡ b'/' ∷ q)

-- What `parse_url` gives: a host with no slash, a port of 16 bits and a path from a slash on.
record IsPlace (u : Url) : Type 0 where
  host : Lacks b'/' u.host
  port : u.port < 2 ^ 16
  path : Rooted u.path

host_and_path-Parts : (s : Bytes) → Lacks b'/' (host_and_path s).0 × Rooted (host_and_path s).1
host_and_path-Parts s = go (split_at b'/' s) (split_at-SplitsAt b'/' s)
  where
    go :
        (o : Option (Bytes × Bytes))
        → SplitsAt b'/' s o
        → let r : Bytes × Bytes = elim o [ some (x, y) ↦ (x, y) | none ↦ (s, utf8 "/") ] in
          Lacks b'/' r.0 × Rooted r.1
    go none a = (a, ([], refl))
    go (some (x, y)) (a, q, e) = (a, (q, e))

host_and_port-Parts :
    (s : Bytes) → Lacks b'/' s → Lacks b'/' (host_and_port s).0 × ((host_and_port s).1 < 2 ^ 16)
host_and_port-Parts s a = go (rsplit_once b':' s) refl
  where
    go :
        (o : Option (Bytes × Bytes))
        → rsplit_once b':' s ≡ o
        → let r : Bytes × ℕ = elim o [
          | some (h, p) ↦ if all_digits p then (h, port_of p) else (s, 443)
          | none ↦ (s, 443)
        ] in
          Lacks b'/' r.0 × (r.1 < 2 ^ 16)
    go none e = (a, omega arith)
    go (some (h, p)) e =
        if_rule (λ (r : Bytes × ℕ). Lacks b'/' r.0 × (r.1 < 2 ^ 16)) (all_digits p)
          (λ _. (
            Lacks-left b'/' h (b':' ∷ p) (subst (Lacks b'/') (rsplit_once-joins b':' s h p e) a),
            port_of_lt p,
          ))
          (λ _. (a, omega arith))

url_of-IsPlace : (s : Bytes) → IsPlace (url_of s)
url_of-IsPlace s =
    let (free, rooted) = host_and_path-Parts s in
    let (host_free, small) = host_and_port-Parts (host_and_path s).0 free in
    record { host = host_free; port = small; path = rooted }

parse_url-IsPlace : (cur : Bytes) (u : Url) → parse_url cur ≡ some u → IsPlace u
unfolding parse_url
parse_url-IsPlace cur u h = elim (Option-cases (strip_prefix (utf8 "https://") cur)) [
  | inl e ↦ absurd (let i : parse_url cur ≡ none = rw (e, parse_url) refl in cc (i, h))
  | inr (rest, e) ↦
      let i : parse_url cur ≡ some (url_of rest) = rw (e, parse_url) refl in
      let same : url_of rest ≡ u = cc (i, h) in subst IsPlace same (url_of-IsPlace rest)
]

abbrev on_server : Url → Bytes → Url
on_server u path = record { host = u.host; port = u.port; path = path }

colon_free : (n : ℕ) → Lacks b':' (show_port n)
colon_free n = all_digits-Lacks b':' (show_port n) refl (all_digits-show_port n)

slash_free : (n : ℕ) → Lacks b'/' (b':' ∷ show_port n)
slash_free n = (refl, all_digits-Lacks b'/' (show_port n) refl (all_digits-show_port n))

host_and_port-origin :
    (host : Bytes) (n : ℕ) → n < 2 ^ 16 → host_and_port (host ++ b':' ∷ show_port n) ≡ (host, n)
host_and_port-origin host n h =
    rw (rsplit_once-append b':' host (show_port n) (colon_free n), host_and_port)
      (rw (all_digits-show_port n) (ap (λ (p : ℕ). (host, p)) (port_of-show_port n h)))

-- The parts of an address, from the two sides of its first slash.
abbrev parts_of : Bytes × Bytes → Url
parts_of r = record { host = (host_and_port r.0).0; port = (host_and_port r.0).1; path = r.1 }

host_and_path-append : (x q : Bytes) → Lacks b'/' x → host_and_path (x ++ b'/' ∷ q) ≡ (x, b'/' ∷ q)
host_and_path-append x q a = rw (split_at-append b'/' x q a, host_and_path) refl

url_of-origin :
    (u : Url) (q : Bytes)
    → IsPlace u
    → url_of ((u.host ++ b':' ∷ show_port u.port) ++ b'/' ∷ q) ≡ on_server u (b'/' ∷ q)
url_of-origin u q p =
    let free = Lacks-append b'/' u.host (b':' ∷ show_port u.port) p.host (slash_free u.port) in
    ap parts_of (host_and_path-append (u.host ++ b':' ∷ show_port u.port) q free)
    ∙ ap (λ (r : Bytes × ℕ). record { host = r.0; port = r.1; path = b'/' ∷ q })
        (host_and_port-origin u.host u.port p.port)

-- An address that is put together from the parts of another is read as those parts.
parse_url-origin :
    (u : Url) (path : Bytes)
    → IsPlace u
    → Rooted path
    → parse_url (origin u ++ path) ≡ some (on_server u path)
unfolding parse_url strip_prefix
parse_url-origin u path p (q, e) =
    subst (λ (x : Bytes). parse_url (origin u ++ x) ≡ some (on_server u x)) (sym e)
      (ap some (url_of-origin u q p))

starts_rooted : (loc : Bytes) → starts_with (utf8 "/") loc ≡ true → Rooted loc
unfolding starts_with
starts_rooted [] h = cc
starts_rooted (c ∷ cs) h = (cs, let slash : c ≡ b'/' = ground arith in ap (λ (x : ℕ). x ∷ cs) slash)

-- What stands in front of the last slash of a path, with a slash and a name behind it, begins with a slash.
dir_of-Rooted : (path loc : Bytes) → Rooted path → Rooted (dir_of path ++ b'/' ∷ loc)
dir_of-Rooted path loc (q, e) = go (rsplit_once b'/' path) refl
  where
    go :
        (o : Option (Bytes × Bytes))
        → rsplit_once b'/' path ≡ o
        → Rooted ((elim o [ some (d, x) ↦ d | none ↦ [] ]) ++ b'/' ∷ loc)
    go none i = (loc, refl)
    go (some ([], x)) i = (loc, refl)
    go (some (c ∷ d, x)) i =
        let joined = rsplit_once-joins b'/' path (c ∷ d) x i in
        let slash : c ≡ b'/' = cc (joined, e) in
        (d ++ b'/' ∷ loc, ap (λ (y : ℕ). y ∷ (d ++ b'/' ∷ loc)) slash)

-- The address that a redirect leads to is on the server of `u`, with its path.
Stays : Url → Redirect → Type 0
Stays u r =
    (v : Bytes) × (path : Bytes) × (r ≡ Redirect.to v) × (parse_url v ≡ some (on_server u path))

within_origin-Stays : (u : Url) (loc : Bytes) → IsPlace u → Stays u (within_origin (some u) loc)
unfolding Stays
within_origin-Stays u loc p =
    if_rule (Stays u) (starts_with (utf8 "/") loc)
      (λ h. (_, loc, refl, parse_url-origin u loc p (starts_rooted loc h)))
      (λ h.
        let rooted = dir_of-Rooted u.path loc p.path in
        (
          _,
          dir_of u.path ++ b'/' ∷ loc,
          refl,
          parse_url-origin u (dir_of u.path ++ b'/' ∷ loc) p rooted,
        ))

-- From an address that parse_url reads, a redirect whose location is no address of https is refused where it is one of
-- http, and otherwise leads to an address that parse_url reads with the same host and the same port.
pub resolve_redirect-server :
    (cur loc : Bytes) (u : Url)
    → parse_url cur ≡ some u
    → starts_with (utf8 "https://") loc ≡ false
    → ((starts_with (utf8 "http://") loc ≡ true) × (resolve_redirect cur loc ≡ Redirect.refused))
      ⊎ ((starts_with (utf8 "http://") loc ≡ false)
          × (v : Bytes) × (w : Url) × (resolve_redirect cur loc ≡ Redirect.to v)
          × (parse_url v ≡ some w)
          × (w.host ≡ u.host)
          × (w.port ≡ u.port))
unfolding resolve_redirect Stays
resolve_redirect-server cur loc u h e = elim (Bool-cases (starts_with (utf8 "http://") loc)) [
  | inl f ↦ inl (f, rw (e, f) refl)
  | inr f ↦
      let (v, path, i, j) = within_origin-Stays u loc (parse_url-IsPlace cur u h) in
      inr (f, v, on_server u path, rw (e, f, h) i, j, refl, refl)
]
