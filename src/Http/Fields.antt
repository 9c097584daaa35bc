-- ===== src/Http/Fields.antt =====
-- `http::Field`, `hop_by_hop` and `classify` (net/include/net/http.hpp).
use llmbridge.Base.{ℕ, Bool, ◌&&◌, ◌∷◌, [], leb, ◌==◌, if◌then◌else◌, length}
use llmbridge.Base.Bytes.{Bytes, codes}
use llmbridge.Http.Text.{lc, same_ci}

pub data Field : Type 0 where
  other content_length transfer_encoding content_encoding content_type : Field
  connection keep_alive proxy_connection te trailer upgrade : Field
  host expect accept_encoding authorization x_api_key api_key x_goog_api_key : Field
  anthropic_version retry_after request_id requests_remaining input_tokens_remaining : Field
  output_tokens_remaining tokens_remaining anthropic_beta : Field

-- The enumerator's value.
unfoldable pub field_value : Field → ℕ
field_value Field.other = 0
field_value Field.content_length = 1
field_value Field.transfer_encoding = 2
field_value Field.content_encoding = 3
field_value Field.content_type = 4
field_value Field.connection = 5
field_value Field.keep_alive = 6
field_value Field.proxy_connection = 7
field_value Field.te = 8
field_value Field.trailer = 9
field_value Field.upgrade = 10
field_value Field.host = 11
field_value Field.expect = 12
field_value Field.accept_encoding = 13
field_value Field.authorization = 14
field_value Field.x_api_key = 15
field_value Field.api_key = 16
field_value Field.x_goog_api_key = 17
field_value Field.anthropic_version = 18
field_value Field.retry_after = 19
field_value Field.request_id = 20
field_value Field.requests_remaining = 21
field_value Field.input_tokens_remaining = 22
field_value Field.output_tokens_remaining = 23
field_value Field.tokens_remaining = 24
field_value Field.anthropic_beta = 25

unfoldable pub hop_by_hop : Field → Bool
unfolding field_value
hop_by_hop f =
    leb (field_value Field.connection) (field_value f)
    && leb (field_value f) (field_value Field.upgrade)

abbrev is : Bytes → Bytes → Field → Field
is n lower f = if same_ci n lower then f else Field.other

-- The `switch` on the size; `c` is the first letter, lower-cased.
classify_sized : ℕ → ℕ → Bytes → Field
classify_sized size c n =
    if size == 2
    then is n (codes "te") Field.te
    else if size == 4
    then is n (codes "host") Field.host
    else if size == 6
    then is n (codes "expect") Field.expect
    else if size == 7
    then (if c == b'a'
        then is n (codes "api-key") Field.api_key
        else if c == b't'
        then is n (codes "trailer") Field.trailer
        else is n (codes "upgrade") Field.upgrade)
    else if size == 9
    then is n (codes "x-api-key") Field.x_api_key
    else if size == 10
    then (if c == b'c'
        then is n (codes "connection") Field.connection
        else if c == b'k'
        then is n (codes "keep-alive") Field.keep_alive
        else is n (codes "request-id") Field.request_id)
    else if size == 11
    then is n (codes "retry-after") Field.retry_after
    else if size == 12
    then (if c == b'c'
        then is n (codes "content-type") Field.content_type
        else is n (codes "x-request-id") Field.request_id)
    else if size == 13
    then is n (codes "authorization") Field.authorization
    else if size == 14
    then (if c == b'c'
        then is n (codes "content-length") Field.content_length
        else if c == b'a'
        then is n (codes "anthropic-beta") Field.anthropic_beta
        else is n (codes "x-goog-api-key") Field.x_goog_api_key)
    else if size == 15
    then is n (codes "accept-encoding") Field.accept_encoding
    else if size == 16
    then (if c == b'c'
        then is n (codes "content-encoding") Field.content_encoding
        else if c == b'p'
        then is n (codes "proxy-connection") Field.proxy_connection
        else is n (codes "x-amzn-requestid") Field.request_id)
    else if size == 17
    then (if c == b'a'
        then is n (codes "anthropic-version") Field.anthropic_version
        else is n (codes "transfer-encoding") Field.transfer_encoding)
    else if size == 28
    then is n (codes "x-ratelimit-remaining-tokens") Field.tokens_remaining
    else if size == 30
    then is n (codes "x-ratelimit-remaining-requests") Field.requests_remaining
    else if size == 38
    then is n (codes "anthropic-ratelimit-requests-remaining") Field.requests_remaining
    else if size == 42
    then is n (codes "anthropic-ratelimit-input-tokens-remaining") Field.input_tokens_remaining
    else if size == 43
    then is n (codes "anthropic-ratelimit-output-tokens-remaining") Field.output_tokens_remaining
    else Field.other

unfoldable pub classify : Bytes → Field
unfolding classify_sized lc same_ci
classify [] = Field.other
classify (h ∷ t) = classify_sized (length (h ∷ t)) (lc h) (h ∷ t)
