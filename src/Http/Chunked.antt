-- ===== src/Http/Chunked.antt =====
-- `ChunkDecoder` (net/include/net/http.hpp): the incremental decoder of chunked bodies.
pub mod Machine
mod Rounds
pub mod Split
mod Pieces
pub mod Sizes
pub mod Decode
pub mod Bounds
use llmbridge.Base.{
  ℕ, zero, suc, ◌+◌, ◌-◌, ◌*◌, ◌^◌, Bool, true, false, ◌&&◌, ◌||◌, not, List, [], ◌∷◌, ◌++◌, Option,
  none, some, ltb, leb, ◌==◌, if◌then◌else◌, length, get_or, take, drop, min,
}
use llmbridge.Base.Bytes.{Bytes, cr, lf, crlf, same, no_crlf}
use llmbridge.Http.Text.{is_digit, is_blank}
use llmbridge.Http.Request.{max_header_len, max_body_len}

pub data St : Type 0 where
  size part part_crlf trailer done failed : St

pub record ChunkDecoder : Type 0 where
  pub st : St
  pub remaining : ℕ
  pub consumed : ℕ
  pub line : Bytes

abbrev pub new_decoder : ChunkDecoder
new_decoder = record { st = size; remaining = 0; consumed = 0; line = [] }

-- The digit's value, if the byte is a hexadecimal digit.
unfoldable pub hex_value : ℕ → Option ℕ
hex_value h =
    if is_digit h
    then some (h - b'0')
    else if leb b'a' h && leb h b'f'
    then some (h - b'a' + 10)
    else if leb b'A' h && leb h b'F'
    then some (h - b'A' + 10)
    else none

abbrev skip_blanks : Bytes → Bytes
skip_blanks [] = []
skip_blanks (c ∷ s) = if is_blank c then skip_blanks s else c ∷ s

-- Behind the digits: blanks, then a chunk extension or nothing.
abbrev extension_ok : Bytes → Bool
extension_ok [] = true
extension_ok (c ∷ s) = c == b';' && no_crlf (c ∷ s)

-- The loop over the digits of `size_line`; `some_digit` is `i != 0` behind it, and `none` is the
-- result `false`. A sum passes `max_body_len` before it could pass the width of `size_t`.
unfoldable pub size_digits : Bool → ℕ → Bytes → Option ℕ
unfolding hex_value
size_digits some_digit sz [] = if some_digit then some sz else none
size_digits some_digit sz (h ∷ s) = elim (hex_value h) [
  | none ↦ if some_digit && extension_ok (skip_blanks (h ∷ s)) then some sz else none
  | some d ↦ elim (ltb max_body_len (sz * 16 + d)) [
    | true ↦ none
    | false ↦ size_digits true (sz * 16 + d) s
  ]
]

unfoldable pub size_line : Bytes → Option ℕ
unfolding size_digits
size_line line = size_digits false 0 line

abbrev pub fail : ChunkDecoder → ChunkDecoder
fail d = record d { st = failed }

-- `_line` ends in CRLF.
unfoldable pub ends_crlf : Bytes → Bool
ends_crlf line =
    leb 2 (length line)
    && get_or line (length line - 2) 0 == cr
    && get_or line (length line - 1) 0 == lf

-- A state, what is left of the input, and the bytes appended to `out`.
abbrev pub Fed : Type 0
Fed = ChunkDecoder × Bytes × Bytes

-- The parsed size line closes the state `Size`.
abbrev pub size_done : ChunkDecoder → Option ℕ → ChunkDecoder
size_done d none = fail (record d { line = [] })
size_done d (some sz) = record d {
  line = [];
  remaining = sz;
  st = if sz == 0 then trailer else part;
}

-- `case St::Size`: bytes are taken until the line is whole.
unfoldable pub read_size : ChunkDecoder → Bytes → ChunkDecoder × Bytes
unfolding ends_crlf size_line
read_size d [] = (d, [])
read_size d (c ∷ s) =
    let line = d.line ++ c ∷ [] in
    let rest = read_size (record d { line = line }) s in
    if ltb 64 (length line)
    then (fail (record d { line = line }), s)
    else if ends_crlf line
    then (size_done (record d { line = line }) (size_line (take (length line - 2) line)), s)
    else rest

-- `case St::DataCRLF`
unfoldable pub read_crlf : ChunkDecoder → Bytes → ChunkDecoder × Bytes
unfolding same
read_crlf d [] = (d, [])
read_crlf d (c ∷ s) =
    let line = d.line ++ c ∷ [] in
    let rest = read_crlf (record d { line = line }) s in
    if length line == 2
    then (if same line crlf
        then (record d { line = []; st = size }, s)
        else (fail (record d { line = line }), s))
    else rest

-- `case St::Trailer`
unfoldable pub read_trailer : ChunkDecoder → Bytes → ChunkDecoder × Bytes
unfolding ends_crlf
read_trailer d [] = (d, [])
read_trailer d (c ∷ s) =
    let line = d.line ++ c ∷ [] in
    let rest = read_trailer (record d { line = line }) s in
    let next = read_trailer (record d { line = [] }) s in
    if ltb max_header_len (length line)
    then (fail (record d { line = line }), s)
    else if ends_crlf line
    then (if length line == 2 then (record d { line = []; st = done }, s) else next)
    else rest

-- `case St::Data`
unfoldable pub read_part : ChunkDecoder → Bytes → Fed
read_part d input =
    let n = min d.remaining (length input) in
    let left = d.remaining - n in
    (
      record d { remaining = left; st = if left == 0 then part_crlf else part },
      drop n input,
      take n input,
    )

abbrev no_output : ChunkDecoder × Bytes → Fed
no_output (d, rest) = (d, rest, [])

unfoldable pub feed_state : St → ChunkDecoder → Bytes → Fed
unfolding read_size read_part read_crlf read_trailer
feed_state size d s = no_output (read_size d s)
feed_state part d s = read_part d s
feed_state part_crlf d s = no_output (read_crlf d s)
feed_state trailer d s = no_output (read_trailer d s)
feed_state _ d s = (d, s, [])

unfoldable pub is_ended : St → Bool
is_ended done = true
is_ended failed = true
is_ended _ = false

-- `done()`
unfoldable pub is_done : St → Bool
is_done done = true
is_done _ = false

-- The outer `while` of `feed`, one state to a round.
unfoldable pub feed_loop : ℕ → ChunkDecoder → Bytes → Fed
unfolding feed_state is_ended
feed_loop zero d s = (d, s, [])
feed_loop (suc fuel) d [] = (d, [], [])
feed_loop (suc fuel) d (c ∷ s) = elim (is_ended d.st) [
  | true ↦ (d, c ∷ s, [])
  | false ↦
      let (d', rest, out) = feed_state d.st d (c ∷ s) in
      let (last, left, more) = feed_loop fuel d' rest in (last, left, out ++ more)
]

unfoldable pub is_failed : St → Bool
is_failed failed = true
is_failed _ = false

-- The decoder afterwards, the bytes appended to `out`, and the result. `return fail()` leaves
-- `_consumed` as it was. Every round takes a byte, but for one in the state `part` with nothing
-- remaining, so the rounds are at most one more than the bytes.
unfoldable pub feed : ChunkDecoder → Bytes → ChunkDecoder × Bytes × Bool
unfolding feed_loop is_failed
feed d input =
    let (d', left, out) = feed_loop (suc (length input)) d input in
    (
      record d' {
        consumed =
            if is_failed d'.st then d.consumed else d.consumed + (length input - length left);
      },
      out,
      not (is_failed d'.st),
    )
