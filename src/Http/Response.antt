-- ===== src/Http/Response.antt =====
-- `Body`, `ResponseHead` and `parse_response_head` (net/include/net/http.hpp).
use llmbridge.Base.{
  ℕ, ◌+◌, ◌-◌, ◌*◌, ◌%◌, Bool, true, false, ◌&&◌, ◌||◌, not, Option, none, some, ltb, ◌==◌,
  if◌then◌else◌, length, get_or, take,
}
use llmbridge.Base.Bytes.{Bytes, codes, same, find}
use llmbridge.Http.Text.{
  is_digit, ltrim, trim_ows, same_ci, contains_ci, parse_strict_length, is_zero_count, has_token,
}
use llmbridge.Http.Fields.{Field}
use llmbridge.Http.Lines.{HeaderLine, walk_headers}
use llmbridge.Http.Request.{
  FrameStatus, need_more, complete, error, max_header_len, max_body_len, is_encoded,
}

pub data Body : Type 0 where
  no_body by_length chunked_body until_close : Body

pub data Quota : Type 0 where
  no_quota requests input_tokens output_tokens tokens : Quota

pub record ResponseHead : Type 0 where
  pub header_len : ℕ
  pub status : ℕ
  pub body : Body
  pub keep_alive : Bool
  pub chunked : Bool
  pub event_stream : Bool
  pub has_content_length : Bool
  pub encoded : Bool
  pub bedrock_tier_at : ℕ
  pub bedrock_latency_at : ℕ
  pub bedrock_tier_len : ℕ
  pub bedrock_latency_len : ℕ
  pub content_length : ℕ
  pub quota_exhausted : Quota
  pub retry_after_s : ℕ

abbrev pub new_head : ResponseHead
new_head = record {
  header_len = 0;
  status = 0;
  body = no_body;
  keep_alive = true;
  chunked = false;
  event_stream = false;
  has_content_length = false;
  encoded = false;
  bedrock_tier_at = 0;
  bedrock_latency_at = 0;
  bedrock_tier_len = 0;
  bedrock_latency_len = 0;
  content_length = 0;
  quota_exhausted = no_quota;
  retry_after_s = 0;
}

-- "HTTP/1.x SP" at the front.
unfoldable pub version_ok : Bytes → Bool
unfolding same
version_ok head =
    not (ltb (length head) 9)
    && same (take 7 head) (codes "HTTP/1.")
    && (get_or head 7 0 == b'0' || get_or head 7 0 == b'1')
    && get_or head 8 0 == b' '

abbrev digit : Bytes → ℕ → Bool
digit head i = ltb i (length head) && is_digit (get_or head i 0)

-- Three digits, then a space, a CR or the end.
unfoldable pub status_ok : Bytes → Bool
status_ok head =
    digit head 9
    && digit head 10
    && digit head 11
    && not (ltb 12 (length head) && not (get_or head 12 0 == b' ') && not (get_or head 12 0 == 13))

abbrev pub digit_of : Bytes → ℕ → ℕ
digit_of head i = get_or head i 0 - b'0'

abbrev pub status_of : Bytes → ℕ
status_of head = digit_of head 9 * 100 + digit_of head 10 * 10 + digit_of head 11

-- What the lambda of `parse_response_head` captures.
pub record ResponseWalk : Type 0 where
  pub out : ResponseHead
  pub close : Bool
  pub keep : Bool

abbrev set_length : ResponseWalk → Option ℕ → ResponseWalk × Bool
set_length w none = (w, false)
set_length w (some n) =
    if w.out.has_content_length && not (n == w.out.content_length)
    then (w, false)
    else (record w { out = record (w.out) { content_length = n; has_content_length = true } }, true)

abbrev quota : ResponseWalk → Bytes → Quota → ResponseWalk × Bool
quota w v q =
    (if is_zero_count v then record w { out = record (w.out) { quota_exhausted = q } } else w, true)

abbrev retry_after : ResponseWalk → Option ℕ → ResponseWalk × Bool
retry_after w none = (w, true)
retry_after w (some n) = (
  record w { out = record (w.out) { retry_after_s = if ltb 65535 n then 65535 else n % 65536 } },
  true,
)

-- Where the trimmed value starts: past the blanks before it, or at the value's end where it is
-- blank throughout.
abbrev trimmed_at : HeaderLine → ℕ
trimmed_at h = h.value_at + (length h.value - length (ltrim h.value))

-- The `switch` on the field of a response line.
unfoldable pub on_response_field : Field → ResponseWalk → HeaderLine → ResponseWalk × Bool
unfolding is_encoded parse_strict_length is_zero_count contains_ci has_token same_ci trim_ows
on_response_field Field.content_length w h = set_length w (parse_strict_length h.value)
on_response_field Field.retry_after w h = retry_after w (parse_strict_length h.value)
on_response_field Field.requests_remaining w h = quota w h.value requests
on_response_field Field.input_tokens_remaining w h = quota w h.value input_tokens
on_response_field Field.output_tokens_remaining w h = quota w h.value output_tokens
on_response_field Field.tokens_remaining w h = quota w h.value tokens
on_response_field Field.transfer_encoding w h = (
  if contains_ci h.value (codes "chunked")
      then record w { out = record (w.out) { chunked = true } }
      else w,
  true,
)
on_response_field Field.content_encoding w h =
    (record w { out = record (w.out) { encoded = is_encoded h.value } }, true)
on_response_field Field.content_type w h = (
  if contains_ci h.value (codes "text/event-stream")
      then record w { out = record (w.out) { event_stream = true } }
      else w,
  true,
)
on_response_field Field.connection w h = (
  record w {
    close = w.close || has_token h.value (codes "close");
    keep = w.keep || has_token h.value (codes "keep-alive");
  },
  true,
)
on_response_field Field.other w h =
    let len = length (trim_ows h.value) in
    (
      if same_ci h.name (codes "x-amzn-bedrock-service-tier")
          then (if ltb 255 len then w else record w {
            out = record (w.out) {
              bedrock_tier_at = trimmed_at h % 65536;
              bedrock_tier_len = len % 256;
            };
          })
          else if same_ci h.name (codes "x-amzn-bedrock-performanceconfig-latency")
          then (if ltb 255 len then w else record w {
            out = record (w.out) {
              bedrock_latency_at = trimmed_at h % 65536;
              bedrock_latency_len = len % 256;
            };
          })
          else w,
      true,
    )
on_response_field _ w h = (w, true)

abbrev pub on_response_line : ResponseWalk → HeaderLine → ResponseWalk × Bool
on_response_line w h = on_response_field h.field w h

-- HEAD, 1xx, 204 and 304 end at the head whatever their headers say.
unfoldable pub body_kind : Bool → ResponseHead → Body
body_kind head_request out =
    if head_request || ltb out.status 200 || out.status == 204 || out.status == 304
    then no_body
    else if out.chunked
    then chunked_body
    else if out.has_content_length
    then by_length
    else until_close

abbrev is_by_length : Body → Bool
is_by_length by_length = true
is_by_length _ = false

-- From the end of the walk on.
unfoldable pub close_response : Bool → ResponseWalk × Bool → FrameStatus × ResponseHead
unfolding body_kind
close_response head_request (w, ok) =
    let alive = if w.close || w.keep then not w.close else w.out.keep_alive in
    let out = record (w.out) { keep_alive = alive } in
    if not ok
    then (error, w.out)
    else if out.chunked && out.has_content_length
    then (error, out)
    else let done = record out { body = body_kind head_request out } in
      (
        if is_by_length done.body && ltb max_body_len done.content_length then error else complete,
        done,
      )

unfoldable pub parse_response_head : Bytes → ResponseHead → Bool → FrameStatus × ResponseHead
unfolding close_response
parse_response_head buf out head_request = elim (find (codes "\r\n\r\n") buf) [
  | none ↦ (if ltb max_header_len (length buf) then error else need_more, out)
  | some hdr_end ↦
      let head = take hdr_end buf in
      let sized = record out { header_len = hdr_end + 4 } in
      if ltb max_header_len (hdr_end + 4)
      then (error, sized)
      else if not (version_ok head)
      then (error, sized)
      else if not (status_ok head)
      then (error, sized)
      else close_response head_request (
          walk_headers on_response_line
            (record {
              out = record sized { status = status_of head; keep_alive = get_or head 7 0 == b'1' };
              close = false;
              keep = false;
            })
            head)
]
