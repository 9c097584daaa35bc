-- ===== src/Http/Framer.antt =====
-- `ParsedResponse`, `ResponseDecoder`, `frame_response_body`, `parse_response` and
-- `ResponseFramer` (net/include/net/http.hpp).
use llmbridge.Base.{
  ℕ, ◌+◌, ◌%◌, ◌^◌, Bool, true, false, ◌&&◌, ◌||◌, not, [], ◌++◌, ltb, if◌then◌else◌, length, drop,
}
use llmbridge.Base.Bytes.{Bytes, slice}
use llmbridge.Http.Request.{FrameStatus, need_more, complete, error, max_body_len}
use llmbridge.Http.Response.{
  Body, no_body, by_length, chunked_body, until_close, ResponseHead, new_head, parse_response_head,
}
use llmbridge.Http.Chunked.{ChunkDecoder, new_decoder, is_done, feed}

-- `body` is empty unless the status is complete.
pub record ParsedResponse : Type 0 where
  pub status : FrameStatus
  pub head : ResponseHead
  pub body : Bytes
  pub total_len : ℕ

abbrev pub new_response : ParsedResponse
new_response = record { status = need_more; head = new_head; body = []; total_len = 0 }

pub record ResponseDecoder : Type 0 where
  pub dec : ChunkDecoder
  pub body : Bytes
  pub fed : ℕ

abbrev pub reset_decoder : ResponseDecoder
reset_decoder = record { dec = new_decoder; body = []; fed = 0 }

-- The bytes that arrived since the last call go to the decoder. The flag is false where `feed`
-- refused them.
unfoldable pub feed_new : ResponseDecoder → Bytes → ResponseDecoder × Bool
unfolding feed is_done
feed_new st after =
    let (dec, out, fed_ok) = feed st.dec (drop st.fed after) in
    if not (is_done st.dec.st) && ltb st.fed (length after)
    then (
      record { dec = dec; body = st.body ++ out; fed = if fed_ok then dec.consumed else st.fed },
      fed_ok,
    )
    else (st, true)

-- The last lines of `frame_response_body`: chunked, with the new bytes fed.
abbrev frame_fed : ParsedResponse → ResponseDecoder × Bool → ParsedResponse × ResponseDecoder
frame_fed r (st, fed_ok) =
    if not fed_ok || ltb max_body_len (length st.body)
    then (record r { status = error }, st)
    else if not (is_done st.dec.st)
    then (r, st)
    else (
      record r {
        body = st.body;
        total_len = r.head.header_len + st.dec.consumed;
        status = complete;
      },
      st,
    )

-- By a length that the head gives.
abbrev frame_sized : ParsedResponse → Bytes → ℕ → ParsedResponse
frame_sized r buf len =
    let need = r.head.header_len + len in
    if ltb (length buf) need
    then r
    else record r { body = slice r.head.header_len len buf; total_len = need; status = complete }

unfoldable pub frame_as :
    Body → Bytes → ResponseDecoder → ParsedResponse → ParsedResponse × ResponseDecoder
unfolding feed_new
frame_as until_close buf st r = (record r { status = error }, st)
frame_as no_body buf st r = (frame_sized r buf 0, st)
frame_as by_length buf st r = (frame_sized r buf r.head.content_length, st)
frame_as chunked_body buf st r = frame_fed r (feed_new st (drop r.head.header_len buf))

unfoldable pub frame_response_body :
    Bytes → ResponseDecoder → ParsedResponse → ParsedResponse × ResponseDecoder
unfolding frame_as
frame_response_body buf st r =
    if ltb r.head.status 200
    then (record r { status = error }, st)
    else frame_as r.head.body buf st r

abbrev framed :
    Bytes → ResponseDecoder → FrameStatus → ParsedResponse → ParsedResponse × ResponseDecoder
framed buf st need_more r = (r, st)
framed buf st error r = (record r { status = error }, st)
framed buf st complete r = frame_response_body buf st r

unfoldable pub parse_response : Bytes → ResponseDecoder → Bool → ParsedResponse × ResponseDecoder
unfolding frame_response_body parse_response_head
parse_response buf st head_request =
    let (hs, h) = parse_response_head buf new_head head_request in
    framed buf st hs (record new_response { head = h })

pub record ResponseFramer : Type 0 where
  pub r : ParsedResponse
  pub dec : ResponseDecoder
  pub head_parses : ℕ
  pub have_head : Bool

abbrev pub new_framer : ResponseFramer
new_framer = record { r = new_response; dec = reset_decoder; head_parses = 0; have_head = false }

abbrev is_complete : FrameStatus → Bool
is_complete complete = true
is_complete _ = false

-- `ResponseFramer::head`
unfoldable pub framer_head : ResponseFramer → Bytes → Bool → FrameStatus × ResponseFramer
unfolding parse_response_head
framer_head f buf head_request =
    let (s, h) = parse_response_head buf f.r.head head_request in
    if f.have_head then (complete, f) else (
      s,
      record f {
        r = record (f.r) { head = h };
        head_parses = (f.head_parses + 1) % 2 ^ 64;
        have_head = is_complete s;
      },
    )

-- `ResponseFramer::message`
unfoldable pub framer_message : ResponseFramer → Bytes → ParsedResponse × ResponseFramer
unfolding frame_response_body
framer_message f buf =
    let (r, dec) = frame_response_body buf f.dec (record new_response { head = f.r.head }) in
    (r, record f { dec = dec })

-- `ResponseFramer::reset`
unfoldable pub framer_reset : ResponseFramer → ResponseFramer
framer_reset f = record f { r = new_response; have_head = false; dec = reset_decoder }
