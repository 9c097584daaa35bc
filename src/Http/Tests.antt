-- ===== src/Http/Tests.antt =====
-- Runs of the HTTP model at fixed inputs.
use llmbridge.Base.{◌≡◌, refl, true, some, none}
use llmbridge.Base.Bytes.{Bytes, codes, find, starts_with}
use llmbridge.Http.Text.{parse_strict_length, has_token}
use llmbridge.Http.Fields.{classify}
use llmbridge.Http.Lines.{find_header, walk_headers, line_end, line_ok}
use llmbridge.Http.Request.{complete, new_message, parse_request, on_request_line}
use llmbridge.Http.Chunked.{new_decoder, feed}

abbrev post : Bytes
post =
    codes "POST /v1/x HTTP/1.1\r\nHost: a\r\nContent-Length: 3\r\nConnection: close\r\n\r\nabcGET"

post-parse : (parse_request {0} (λ s h. (s, true)) tt new_message post).0 ≡ complete
unfolding parse_request walk_headers find on_request_line starts_with classify line_end line_ok
post-parse = refl

post-total : (parse_request {0} (λ s h. (s, true)) tt new_message post).1.total_len ≡ 73
unfolding parse_request walk_headers find on_request_line starts_with classify line_end line_ok
post-total = refl

length_ok : parse_strict_length (codes " 42 \t") ≡ some 42
unfolding parse_strict_length
length_ok = refl

length_overflow : parse_strict_length (codes "18446744073709551616") ≡ none
unfolding parse_strict_length
length_overflow = refl

tokens_ok : has_token (codes "a, Keep-Alive") (codes "keep-alive") ≡ true
unfolding has_token
tokens_ok = refl

header_found : find_header (codes "GET / X\r\nHost:  b\r\n") (codes "host:") ≡ codes "b"
unfolding find_header starts_with
header_found = refl

chunks_ok : (feed new_decoder (codes "3\r\nabc\r\n2;x=1\r\nde\r\n0\r\n\r\nHTTP")).1 ≡ codes "abcde"
unfolding feed
chunks_ok = refl

chunks_consumed :
    (feed new_decoder (codes "3\r\nabc\r\n2;x=1\r\nde\r\n0\r\n\r\nHTTP")).0.consumed ≡ 24
unfolding feed
chunks_consumed = refl
