-- ===== src/Tests/Web.antt =====
-- Redirects, chunked bodies and frames at concrete inputs.
use fly_lang.Checkd.Framing
use fly_lang.Checkd.Framing.{AreSent, parse_response-framed}
use fly_lang.Checkd.Response.{Read, Fault, is_utf8_on, char_len, parse_response}
use fly_lang.Diagnostic.{Diagnostic}
use fly_lang.Http.Chunks.{
  Body, ok, panics, chunked_body, chunk_loop, chunk_turn, sized_turn, chunk_of, parse_size,
  from_str_radix, radix_on, hex_value, trim, skip_space, space_of, find_crlf,
}
use fly_lang.Http.Framing.{
  AreChunks, IsSizeLine, framed, contents, chunked_body-total, chunked_body-framed,
}
use fly_lang.Http.Redirect.{
  Url, Redirect, resolve_redirect, starts_with, parse_url, strip_prefix, split_at, rsplit_once,
  all_digits, port_of, show_port,
}
use fly_lang.Http.Secure.{resolve_redirect-server}
use fly_lang.Prelude.{
  ◌⊎◌, false, none, Bytes, utf8, List, [], ◌∷◌, ◌++◌, some, true, ◌≡◌, refl, arith,
}

page :
    resolve_redirect (utf8 "https://a.b:8443/x/y") (utf8 "z")
    ≡ Redirect.to (utf8 "https://a.b:8443/x/z")
unfolding resolve_redirect starts_with parse_url strip_prefix split_at rsplit_once all_digits
    port_of show_port
page = refl

abbrev place : Url
place = record { host = utf8 "a.b"; port = 8443; path = utf8 "/x/y" }

place_read : parse_url (utf8 "https://a.b:8443/x/y") ≡ some place
unfolding parse_url strip_prefix split_at rsplit_once all_digits port_of
place_read = refl

relative : starts_with (utf8 "https://") (utf8 "z") ≡ false
unfolding starts_with
relative = refl

resolve_redirect-server_example :
    ((starts_with (utf8 "http://") (utf8 "z") ≡ true)
      × (resolve_redirect (utf8 "https://a.b:8443/x/y") (utf8 "z") ≡ Redirect.refused))
    ⊎ ((starts_with (utf8 "http://") (utf8 "z") ≡ false)
        × (v : Bytes) × (w : Url) × (resolve_redirect (utf8 "https://a.b:8443/x/y") (utf8 "z")
            ≡ Redirect.to v)
        × (parse_url v ≡ some w)
        × (w.host ≡ place.host)
        × (w.port ≡ place.port))
resolve_redirect-server_example =
    resolve_redirect-server (utf8 "https://a.b:8443/x/y") (utf8 "z") place place_read relative

abbrev two_chunks : List (Bytes × Bytes)
two_chunks = (utf8 "0a", utf8 "0123456789") ∷ (utf8 " 2 ", utf8 "\r\n") ∷ []

two_chunks-AreChunks : AreChunks two_chunks
unfolding parse_size from_str_radix radix_on hex_value trim skip_space space_of
two_chunks-AreChunks = ((refl, omega arith), omega arith, ((refl, omega arith), omega arith, tt))

last-IsSizeLine : IsSizeLine (utf8 "0") 0
unfolding parse_size from_str_radix radix_on hex_value trim skip_space space_of
last-IsSizeLine = (refl, omega arith)

chunked_body-framed_example :
    chunked_body (framed two_chunks (utf8 "0" ++ (b'\r' ∷ b'\n' ∷ utf8 "\r\n")))
    ≡ some (ok (contents two_chunks))
chunked_body-framed_example =
    chunked_body-framed two_chunks (utf8 "0") (utf8 "\r\n") two_chunks-AreChunks last-IsSizeLine

chunked_body-total_example : (b : Body) × (chunked_body (utf8 "3\r\nabc") ≡ some b)
chunked_body-total_example = chunked_body-total (utf8 "3\r\nabc")

-- A body that is cut off behind the data of a chunk.
cut_off : chunked_body (utf8 "3\r\nabc") ≡ some panics
unfolding chunked_body chunk_loop chunk_turn sized_turn chunk_of find_crlf parse_size from_str_radix
    radix_on hex_value trim skip_space space_of
cut_off = refl

abbrev report : Diagnostic
report = record { pos = record { line = 3; col = 300 }; code = utf8 "E0052"; msg = utf8 "未定义的名字 x" }

report-AreSent : AreSent (report ∷ [])
unfolding is_utf8_on char_len
report-AreSent = ((omega arith, refl), (omega arith, refl), omega arith, omega arith, tt)

parse_response-framed_example :
    parse_response (Framing.framed (report ∷ []))
    ≡ Read.ok (record { diags = report ∷ []; server_error = none })
parse_response-framed_example = parse_response-framed (report ∷ []) (omega arith) report-AreSent

-- A response of a status and nothing else.
only_status : parse_response (0 ∷ []) ≡ Read.fails Fault.panics
unfolding parse_response
only_status = refl
