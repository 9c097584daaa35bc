-- ===== src/Provider/Json/Escape.antt =====
-- `unescape_append` and `append_escaped` of provider/include/provider/json.hpp. A run of plain bytes
-- that the source copies in one call is its bytes one after the other.
pub mod Inverse
use llmbridge.Base.{
  ℕ, zero, suc, ◌+◌, ◌-◌, ◌*◌, ◌/◌, ◌%◌, Bool, true, false, not, ◌&&◌, ◌||◌, List, [], ◌∷◌, ◌++◌,
  Option, none, some, ltb, leb, ◌==◌, if◌then◌else◌, get_or, drop,
}
use llmbridge.Base.Bytes.{Bytes, codes}
use llmbridge.Http.Text.{is_digit}

-- The value of a hexadecimal digit, as the loops over `\u` read it.
unfoldable pub hex_digit : ℕ → Option ℕ
hex_digit h =
    if is_digit h
    then some (h - b'0')
    else if leb b'a' h && leb h b'f'
    then some (h - b'a' + 10)
    else if leb b'A' h && leb h b'F'
    then some (h - b'A' + 10)
    else none

-- `n` more hexadecimal digits behind those of `cp`; `none` where the text or the digits end.
unfoldable pub read_hex : ℕ → ℕ → Bytes → Option ℕ
unfolding hex_digit
read_hex zero cp s = some cp
read_hex (suc n) cp [] = none
read_hex (suc n) cp (h ∷ s) = elim (hex_digit h) [
  | none ↦ none
  | some d ↦ read_hex n (cp * 16 + d) s
]

-- The second half of a surrogate pair, `\uDC00` to `\uDFFF`.
unfoldable pub low_half : Bytes → Option ℕ
unfolding read_hex
low_half (c ∷ u ∷ s) =
    if c == b'\\' && u == b'u'
    then (elim (read_hex 4 0 s) [
      | none ↦ none
      | some lo ↦ if leb 0xDC00 lo && leb lo 0xDFFF then some lo else none
    ])
    else none
low_half _ = none

-- The code point, and how many bytes behind the `u` it took.
unfoldable pub code_point : ℕ → Bytes → ℕ × ℕ
unfolding low_half
code_point cp behind =
    if leb 0xD800 cp && leb cp 0xDBFF
    then (elim (low_half behind) [
      | none ↦ (cp, 4)
      | some lo ↦ (0x10000 + (cp - 0xD800) * 1024 + (lo - 0xDC00), 10)
    ])
    else (cp, 4)

abbrev pub replace_lone : ℕ → ℕ
replace_lone cp = if leb 0xD800 cp && leb cp 0xDFFF then 0xFFFD else cp

-- The bits that the source joins by `|` do not overlap, so their sum is meant.
unfoldable pub utf8 : ℕ → Bytes
utf8 cp =
    if ltb cp 0x80
    then cp ∷ []
    else if ltb cp 0x800
    then (0xC0 + cp / 64) ∷ (0x80 + cp % 64) ∷ []
    else if ltb cp 0x10000
    then (0xE0 + cp / 4096) ∷ (0x80 + cp / 64 % 64) ∷ (0x80 + cp % 64) ∷ []
    else (0xF0 + cp / 262144)
      ∷ (0x80 + cp / 4096 % 64)
      ∷ (0x80 + cp / 64 % 64)
      ∷ (0x80 + cp % 64)
      ∷ []

-- The byte that a two-byte escape stands for.
unfoldable pub simple_escape : ℕ → ℕ
simple_escape e =
    if e == b'n'
    then 10
    else if e == b'r'
    then 13
    else if e == b't'
    then 9
    else if e == b'b'
    then 8
    else if e == b'f'
    then 12
    else e

-- What a round of the loop appends, and how many bytes it takes behind its own.
pub data Round : Type 0 where
  ended : Round
  decoded : Bytes → ℕ → Round

-- The escape `\u`, with the text behind the `u`.
unfoldable pub unicode_round : Bytes → Round
unfolding read_hex code_point utf8
unicode_round s = elim (read_hex 4 0 s) [
  | none ↦ ended
  | some cp ↦
      let (point, taken) = code_point cp (drop 4 s) in
      decoded (utf8 (replace_lone point)) (taken + 1)
]

-- The byte `c`, with the text behind it.
unfoldable pub unescape_round : ℕ → Bytes → Round
unfolding unicode_round simple_escape
unescape_round c [] = decoded (c ∷ []) 0
unescape_round c (e ∷ s) =
    if not (c == b'\\')
    then decoded (c ∷ []) 0
    else if e == b'u'
    then unicode_round s
    else decoded (simple_escape e ∷ []) 1

-- The loop of `unescape_append`, where `skip` bytes were taken by the round before.
unfoldable pub unescape_append : Bytes → ℕ → Bytes → Bytes
unfolding unescape_round
unescape_append out skip [] = out
unescape_append out (suc skip) (c ∷ s) = unescape_append out skip s
unescape_append out zero (c ∷ s) = elim (unescape_round c s) [
  | ended ↦ out
  | decoded bytes skip ↦ unescape_append (out ++ bytes) skip s
]

unfoldable pub unescape_string : Bytes → Bytes
unfolding unescape_append
unescape_string raw = unescape_append [] 0 raw

abbrev pub hex_char : ℕ → ℕ
hex_char d = get_or (codes "0123456789abcdef") d 0

-- The `switch` of `append_escaped`.
unfoldable pub escape_byte : ℕ → Bytes
escape_byte c =
    if c == b'"'
    then codes "\\\""
    else if c == b'\\'
    then codes "\\\\"
    else if c == 10
    then codes "\\n"
    else if c == 9
    then codes "\\t"
    else if c == 13
    then codes "\\r"
    else if c == 8
    then codes "\\b"
    else if c == 12
    then codes "\\f"
    else codes "\\u00" ++ hex_char (c / 16 % 16) ∷ hex_char (c % 16) ∷ []

abbrev pub is_plain : ℕ → Bool
is_plain c = not (c == b'"') && not (c == b'\\') && leb 0x20 c

-- The loop of `append_escaped`; `run` is the plain run from `start` on.
unfoldable pub escape_loop : Bytes → Bytes → Bytes → Bytes
unfolding escape_byte
escape_loop out run [] = out ++ run
escape_loop out run (c ∷ s) =
    let plain = escape_loop out (run ++ c ∷ []) s in
    let escaped = escape_loop ((out ++ run) ++ escape_byte c) [] s in
    if is_plain c then plain else escaped

unfoldable pub append_escaped : Bytes → Bytes → Bytes
unfolding escape_loop
append_escaped out raw = escape_loop (out ++ b'"' ∷ []) [] raw ++ b'"' ∷ []

unfoldable pub append_raw_string : Bytes → Bytes → Bytes
append_raw_string out raw = ((out ++ b'"' ∷ []) ++ raw) ++ b'"' ∷ []
