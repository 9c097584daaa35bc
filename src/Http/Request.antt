-- ===== src/Http/Request.antt =====
-- `Message`, `FrameStatus`, `request_line_ok` and `parse_request` (net/include/net/http.hpp).
pub mod Stable
pub mod Sound
use llmbridge.Base.{
  ℕ, zero, suc, ◌+◌, ◌-◌, ◌*◌, Bool, true, false, ◌&&◌, ◌||◌, not, List, [], ◌∷◌, Option, none,
  some, ltb, leb, ◌==◌, if◌then◌else◌, length, take, drop,
}
use llmbridge.Base.Bytes.{Bytes, codes, crlf, same, find, find_byte, rfind_byte, until, slice}
use llmbridge.Http.Text.{is_digit, ltrim, contains_ci, parse_strict_length, has_token}
use llmbridge.Http.Fields.{Field}
use llmbridge.Http.Lines.{HeaderLine, walk_headers}

pub data FrameStatus : Type 0 where
  need_more complete error : FrameStatus

pub record Message : Type 0 where
  pub header_len : ℕ
  pub body_len : ℕ
  pub total_len : ℕ
  pub keep_alive : Bool
  pub encoded : Bool
  pub http_1_1 : Bool
  pub head : Bool

abbrev pub new_message : Message
new_message = record {
  header_len = 0;
  body_len = 0;
  total_len = 0;
  keep_alive = true;
  encoded = false;
  http_1_1 = true;
  head = false;
}

abbrev pub max_header_len : ℕ
max_header_len = 32768

abbrev pub max_body_len : ℕ
max_body_len = 16777216

abbrev is_token_byte : ℕ → Bool
is_token_byte c =
    (leb b'a' c && leb c b'z')
    || (leb b'A' c && leb c b'Z')
    || is_digit c
    || elim (find_byte c (codes "!#$%&'*+-.^_`|~")) [ none ↦ false | some _ ↦ true ]

unfoldable pub all_token : Bytes → Bool
unfolding find_byte
all_token [] = true
all_token (c ∷ s) = is_token_byte c && all_token s

-- Above the space, and not DEL.
unfoldable pub all_visible : Bytes → Bool
all_visible [] = true
all_visible (c ∷ s) = not (leb c b' ' || c == 0x7f) && all_visible s

-- With the positions of the first and of the last space.
unfoldable pub line_parts_ok : ℕ → ℕ → Bytes → Bool
unfolding all_token all_visible same
line_parts_ok sp1 sp2 rl =
    if sp1 == 0 || leb sp2 (sp1 + 1)
    then false
    else (same (drop (sp2 + 1) rl) (codes "HTTP/1.1")
        || same (drop (sp2 + 1) rl) (codes "HTTP/1.0"))
      && all_token (take sp1 rl)
      && all_visible (slice (sp1 + 1) (sp2 - sp1 - 1) rl)

unfoldable pub request_line_ok : Bytes → Bool
unfolding line_parts_ok find find_byte rfind_byte
request_line_ok buf = elim (find crlf buf) [
  | none ↦ false
  | some eol ↦
      let rl = take eol buf in
      elim (find_byte b' ' rl) [
        | none ↦ false
        | some sp1 ↦ elim (rfind_byte b' ' rl) [
          | none ↦ false
          | some sp2 ↦ line_parts_ok sp1 sp2 rl
        ]
      ]
]

-- What the lambda of `parse_request` captures: `out`, the three locals, and the state of `also`.
pub record RequestWalk {ℓ} (S : Type ℓ) : Type ℓ where
  pub out : Message
  pub have_cl : Bool
  pub close : Bool
  pub keep : Bool
  pub seen : S

-- `Content-Encoding` present, and not identity.
unfoldable pub is_encoded : Bytes → Bool
unfolding ltrim contains_ci
is_encoded value = elim (ltrim value) [
  | [] ↦ false
  | c ∷ s ↦ not (contains_ci (c ∷ s) (codes "identity"))
]

-- `ver`: what follows the last space of the request line, or nothing.
abbrev version_of : Bytes → Bytes
version_of rl = elim (rfind_byte b' ' rl) [ none ↦ [] | some sp ↦ drop (sp + 1) rl ]

-- The fields that `parse_request` writes before it walks the header lines.
unfoldable pub start_line : Message → ℕ → Bytes → Message
unfolding rfind_byte find_byte find same
start_line out hdr_end head =
    let rl = until (find crlf head) head in
    let ver = version_of rl in
    record out {
      header_len = hdr_end + 4;
      body_len = 0;
      keep_alive = not (same ver (codes "HTTP/1.0"));
      http_1_1 = same ver (codes "HTTP/1.1");
      head = same (until (find_byte b' ' rl) rl) (codes "HEAD");
    }

module _ {ℓ} {S : Type ℓ} (also : S → HeaderLine → S × Bool) where
  -- `return also(h)`
  abbrev pass_on : RequestWalk S → HeaderLine → RequestWalk S × Bool
  pass_on w h = let (s, go) = also w.seen h in (record w { seen = s }, go)

  on_length : RequestWalk S → HeaderLine → Option ℕ → RequestWalk S × Bool
  on_length w h none = (w, false)
  on_length w h (some n) =
      if w.have_cl && not (n == w.out.body_len)
      then (w, false)
      else pass_on (record w { out = record (w.out) { body_len = n }; have_cl = true }) h

  -- The `switch` on the field of the line.
  on_field : Field → RequestWalk S → HeaderLine → RequestWalk S × Bool
  on_field Field.content_length w h = on_length w h (parse_strict_length h.value)
  on_field Field.transfer_encoding w h = (w, false)
  on_field Field.content_encoding w h =
      pass_on (record w { out = record (w.out) { encoded = is_encoded h.value } }) h
  on_field Field.connection w h =
      pass_on
        (record w {
          close = w.close || has_token h.value (codes "close");
          keep = w.keep || has_token h.value (codes "keep-alive");
        })
        h
  on_field _ w h = pass_on w h

  unfoldable pub on_request_line : RequestWalk S → HeaderLine → RequestWalk S × Bool
  unfolding on_field on_length is_encoded parse_strict_length has_token
  on_request_line w h = on_field h.field w h

  -- From the end of the walk on; `size` is `buf.size()`.
  unfoldable pub close_request : ℕ → RequestWalk S × Bool → FrameStatus × Message × S
  close_request size (w, ok) =
      if not ok || ltb max_body_len w.out.body_len
      then (error, w.out, w.seen)
      else let total = w.out.header_len + w.out.body_len in
        let alive = if w.close || w.keep then not w.close else w.out.keep_alive in
        let out = record (w.out) { keep_alive = alive; total_len = total } in
        (if ltb size total then need_more else complete, out, w.seen)

  unfoldable pub parse_request : S → Message → Bytes → FrameStatus × Message × S
  unfolding close_request start_line
  parse_request s out buf = elim (find (codes "\r\n\r\n") buf) [
    | none ↦ (if ltb max_header_len (length buf) then error else need_more, out, s)
    | some hdr_end ↦
        if ltb max_header_len (hdr_end + 4)
        then (error, record out { header_len = hdr_end + 4 }, s)
        else let head = take hdr_end buf in
          close_request (length buf) (
            walk_headers on_request_line
              (record {
                out = start_line out hdr_end head;
                have_cl = false;
                close = false;
                keep = false;
                seen = s;
              })
              head)
  ]
