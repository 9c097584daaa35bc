-- ===== src/Http/Witnesses.antt =====
-- The theorems on HTTP framing at inputs that meet their hypotheses.
use mathlib.Core.List.{flatten}
use llmbridge.Base.{◌+◌, ◌<◌, ◌≤◌, ◌≡◌, refl, Bool, List, [], ◌∷◌, ◌++◌, true, length, arith}
use llmbridge.Base.Bytes.{Bytes, codes, find, starts_with, no_crlf}
use llmbridge.Http.Fields.{classify}
use llmbridge.Http.Lines.{HeaderLine, walk_headers, line_end, line_ok}
use llmbridge.Http.Lines.Split.{
  join, visit_lines, AreLines, walk_headers-join, walk_headers-AreLines,
}
use llmbridge.Http.Request.{
  complete, error, need_more, new_message, parse_request, on_request_line, max_header_len,
  max_body_len,
}
use llmbridge.Http.Request.Stable.{
  parse_request-complete, parse_request-error, parse_request-need_more,
}
use llmbridge.Http.Request.Sound.{IsFramed, parse_request-IsFramed}
use llmbridge.Http.Chunked.{St, new_decoder, feed}
use llmbridge.Http.Chunked.Split.{feed_reads, SameFeed, feed_reads-flatten}
use llmbridge.Http.Chunked.Sizes.{IsSize, digit, units, decimal, semicolon, absent, space}
use llmbridge.Http.Chunked.Decode.{Chunk, encode, payloads, feed-encode}
use llmbridge.Http.Chunked.Bounds.{IsBounded, feed-IsBounded}

abbrev reads : List Bytes
reads = codes "3\r" ∷ codes "\nab" ∷ codes "c\r\n0\r\n" ∷ codes "\r\nHT" ∷ []

feed_reads-flatten_example :
    SameFeed (feed new_decoder (flatten reads)) (feed_reads new_decoder reads)
feed_reads-flatten_example = feed_reads-flatten reads new_decoder (λ m. cc)

abbrev chunks : List Chunk
chunks =
    record { size_text = codes "3;x=1"; first = b'a'; others = codes "bc" }
    ∷ record { size_text = codes "02"; first = b'd'; others = codes "e" }
    ∷ []

IsSize-three : IsSize (codes "3;x=1") 3
IsSize-three = record {
  first = b'3';
  others = [];
  extension = codes ";x=1";
  spelled = refl;
  number = digit (decimal 3 (omega arith)) units;
  behind = semicolon refl;
  fits = omega arith;
}

IsSize-two : IsSize (codes "02") 2
IsSize-two = record {
  first = b'0';
  others = codes "2";
  extension = [];
  spelled = refl;
  number = digit (decimal 0 (omega arith)) (digit (decimal 2 (omega arith)) units);
  behind = absent;
  fits = omega arith;
}

IsSize-zero : IsSize (codes "0 ") 0
IsSize-zero = record {
  first = b'0';
  others = [];
  extension = codes " ";
  spelled = refl;
  number = digit (decimal 0 (omega arith)) units;
  behind = space absent;
  fits = omega arith;
}

feed-encode_example :
    feed new_decoder (encode chunks (codes "0 ") (codes "A: b" ∷ []) [] ++ codes "HTTP")
    ≡ (record new_decoder { st = St.done; consumed = 32 }, payloads chunks, true)
feed-encode_example =
    feed-encode chunks (codes "0 ") (codes "A: b" ∷ []) (codes "HTTP")
      ((IsSize-three, omega arith), ((IsSize-two, omega arith), tt)) IsSize-zero (omega arith)
      ((refl, omega arith, omega arith), tt)

new_decoder-IsBounded : IsBounded new_decoder
new_decoder-IsBounded = record {
  remaining_le = omega arith;
  line_le = omega arith;
  ready = λ m. cc;
}

feed-IsBounded_example :
    IsBounded (feed new_decoder (codes "fffffff\r\n")).0
    × (length (feed new_decoder (codes "fffffff\r\n")).1 ≤ length (codes "fffffff\r\n"))
    × ((feed new_decoder (codes "fffffff\r\n")).0.consumed ≤ 0 + length (codes "fffffff\r\n"))
feed-IsBounded_example = feed-IsBounded new_decoder (codes "fffffff\r\n") new_decoder-IsBounded

-- A tool that only watches the header lines.
abbrev watch : List HeaderLine → HeaderLine → List HeaderLine × Bool
watch s h = (h ∷ s, true)

abbrev post : Bytes
post = codes "POST / HTTP/1.1\r\nContent-Length: 3\r\n\r\nabc"

post_complete : (parse_request watch [] new_message post).0 ≡ complete
unfolding parse_request walk_headers find on_request_line starts_with classify line_end line_ok
post_complete = refl

parse_request-complete_example :
    parse_request watch [] new_message (post ++ codes "GET")
    ≡ parse_request watch [] new_message post
parse_request-complete_example =
    parse_request-complete watch [] new_message post (codes "GET") post_complete

abbrev smuggled : Bytes
smuggled = codes "POST / HTTP/1.1\r\nContent-Length: 3\r\nTransfer-Encoding: chunked\r\n\r\n"

smuggled_error : (parse_request watch [] new_message smuggled).0 ≡ error
unfolding parse_request walk_headers find on_request_line starts_with classify line_end line_ok
smuggled_error = refl

parse_request-error_example :
    (parse_request watch [] new_message (smuggled ++ codes "0\r\n")).0 ≡ error
parse_request-error_example =
    parse_request-error watch [] new_message smuggled (codes "0\r\n") smuggled_error

abbrev partial : Bytes
partial = codes "POST / HTTP/1.1\r\nContent-Length: 3\r\n\r\nab"

partial_need_more : (parse_request watch [] new_message partial).0 ≡ need_more
unfolding parse_request walk_headers find on_request_line starts_with classify line_end line_ok
partial_need_more = refl

parse_request-need_more_example : length partial < max_header_len + max_body_len
parse_request-need_more_example =
    parse_request-need_more watch [] new_message partial partial_need_more

parse_request-IsFramed_example : IsFramed post (parse_request watch [] new_message post).1
parse_request-IsFramed_example = parse_request-IsFramed watch [] new_message post post_complete

abbrev lines : List Bytes
lines = codes "Host: a" ∷ codes "Accept: b" ∷ []

walk_headers-join_example :
    walk_headers watch [] (join (codes "GET / HTTP/1.1") lines) ≡ visit_lines watch [] 16 lines
walk_headers-join_example =
    walk_headers-join watch [] (codes "GET / HTTP/1.1") lines refl (refl, (refl, tt))

head_read : (walk_headers watch [] (codes "GET / HTTP/1.1\r\nHost: a")).1 ≡ true
unfolding walk_headers classify line_end line_ok
head_read = refl

walk_headers-AreLines_example :
    (l : Bytes) × (ls : List Bytes) × (codes "GET / HTTP/1.1\r\nHost: a" ≡ join l ls)
    × (no_crlf l ≡ true)
    × AreLines ls
    × (walk_headers watch [] (codes "GET / HTTP/1.1\r\nHost: a")
        ≡ visit_lines watch [] (length l + 2) ls)
walk_headers-AreLines_example =
    walk_headers-AreLines watch [] (codes "GET / HTTP/1.1\r\nHost: a") head_read
