-- ===== src/Http/Write.antt =====
-- The heads that the gateway writes: net/include/net/http_write.hpp.
use llmbridge.Base.{
  ℕ, zero, suc, ◌+◌, ◌/◌, ◌%◌, Bool, true, false, ◌&&◌, ◌||◌, not, [], ◌∷◌, ◌++◌, ltb, leb, ◌==◌,
  if◌then◌else◌, length, take,
}
use llmbridge.Base.Bytes.{Bytes, codes, crlf}
use llmbridge.Http.Text.{same_ci}
use llmbridge.Http.Fields.{Field}
use llmbridge.Http.Lines.{HeaderLine, walk_headers}

unfoldable pub reason : ℕ → Bytes
reason status =
    if status == 200
    then codes "OK"
    else if status == 201
    then codes "Created"
    else if status == 202
    then codes "Accepted"
    else if status == 204
    then codes "No Content"
    else if status == 206
    then codes "Partial Content"
    else if status == 304
    then codes "Not Modified"
    else if status == 400
    then codes "Bad Request"
    else if status == 401
    then codes "Unauthorized"
    else if status == 402
    then codes "Payment Required"
    else if status == 403
    then codes "Forbidden"
    else if status == 404
    then codes "Not Found"
    else if status == 405
    then codes "Method Not Allowed"
    else if status == 408
    then codes "Request Timeout"
    else if status == 409
    then codes "Conflict"
    else if status == 413
    then codes "Content Too Large"
    else if status == 415
    then codes "Unsupported Media Type"
    else if status == 422
    then codes "Unprocessable Content"
    else if status == 429
    then codes "Too Many Requests"
    else if status == 451
    then codes "Unavailable For Legal Reasons"
    else if status == 500
    then codes "Internal Server Error"
    else if status == 501
    then codes "Not Implemented"
    else if status == 502
    then codes "Bad Gateway"
    else if status == 503
    then codes "Service Unavailable"
    else if status == 504
    then codes "Gateway Timeout"
    else if status == 529
    then codes "Overloaded"
    else if ltb status 200
    then codes "Informational"
    else if ltb status 300
    then codes "OK"
    else if ltb status 400
    then codes "Redirection"
    else if ltb status 500
    then codes "Client Error"
    else codes "Server Error"

-- `std::to_chars` in base ten, the digits of `n` in front of `rest`. Each round shortens `n`, and
-- the fuel is one more than `n`.
unfoldable pub decimal_onto : ℕ → ℕ → Bytes → Bytes
decimal_onto zero n rest = rest
decimal_onto (suc fuel) n rest =
    let more = decimal_onto fuel (n / 10) ((b'0' + n % 10) ∷ rest) in
    if ltb n 10 then (b'0' + n) ∷ rest else more

unfoldable pub append_decimal : Bytes → ℕ → Bytes
unfolding decimal_onto
append_decimal out n = out ++ decimal_onto (suc n) n []

unfoldable pub append_status_line : Bytes → ℕ → Bytes
unfolding append_decimal reason
append_status_line out status =
    append_decimal (out ++ codes "HTTP/1.1 ") status ++ b' ' ∷ (reason status ++ crlf)

unfoldable pub append_content_length : Bytes → ℕ → Bytes
unfolding append_decimal
append_content_length out n = append_decimal (out ++ codes "Content-Length: ") n ++ crlf

unfoldable pub starts_ci : Bytes → Bytes → Bool
unfolding same_ci
starts_ci s lower = leb (length lower) (length s) && same_ci (take (length lower) s) lower

abbrev relayed_field : Field → Bytes → Bool
relayed_field Field.retry_after name = true
relayed_field Field.request_id name = true
relayed_field Field.requests_remaining name = true
relayed_field Field.input_tokens_remaining name = true
relayed_field Field.output_tokens_remaining name = true
relayed_field Field.tokens_remaining name = true
relayed_field Field.other name =
    same_ci name (codes "retry-after-ms")
    || starts_ci name (codes "x-ratelimit-")
    || starts_ci name (codes "anthropic-ratelimit-")
    || starts_ci name (codes "ratelimit")
relayed_field _ name = false

unfoldable pub relayed : HeaderLine → Bool
unfolding starts_ci
relayed h = relayed_field h.field h.name

-- No control byte but the tab, and no DEL.
unfoldable pub value_clean : Bytes → Bool
value_clean [] = true
value_clean (c ∷ s) = not ((ltb c 0x20 && not (c == b'\t')) || c == 0x7f) && value_clean s

abbrev is_content_type : Field → Bool
is_content_type Field.content_type = true
is_content_type _ = false

abbrev is_content_encoding : Field → Bool
is_content_encoding Field.content_encoding = true
is_content_encoding _ = false

-- What the lambda of `append_relayed` captures. `name` to the end of `value` is the line.
pub record Relay : Type 0 where
  pub out : Bytes
  pub typed : Bool

unfoldable pub relay_line : Bool → Relay → HeaderLine → Relay × Bool
unfolding relayed value_clean
relay_line own_body w h =
    let own = own_body && (is_content_type h.field || is_content_encoding h.field) in
    (
      if not own && not (relayed h) then w else if not (value_clean h.value) then w else record {
        out = w.out ++ (h.name ++ b':' ∷ (h.value ++ crlf));
        typed = w.typed || is_content_type h.field;
      },
      true,
    )

unfoldable pub append_relayed : Bytes → Bytes → Bool → Bytes × Bool
unfolding relay_line walk_headers
append_relayed out head own_body =
    let (w, _) = walk_headers (relay_line own_body) (record { out = out; typed = false }) head in
    (w.out, w.typed)
