-- ===== src/Provider/BodyScan/Bytewise.antt =====
-- `step` of provider/src/body_scan.cpp in every state but `Str`, which takes one byte or rereads it.
use llmbridge.Base.{
  ℕ, zero, suc, ◌+◌, ◌-◌, ◌*◌, ◌/◌, ◌%◌, Bool, true, false, not, ◌&&◌, ◌||◌, ltb, leb, ◌==◌,
  if◌then◌else◌, length, get_or, min,
}
use llmbridge.Base.Bytes.{Bytes, codes}
use llmbridge.Http.Text.{is_digit}
use llmbridge.Provider.BodyScan.{
  BodyScan, St, value, arr_first, obj_first, obj_key, colon, obj_next, arr_next, in_str, str_esc,
  str_hex, num_sign, num_zero, num_int, num_dot, num_frac, num_e, num_esign, num_exp, lit, Stepped,
  refuse_with, max_depth, with_bit,
}
use llmbridge.Provider.BodyScan.Keys.{value_done}

abbrev pub is_ws : ℕ → Bool
is_ws c = c == b' ' || c == b'\t' || c == b'\n' || c == b'\r'

abbrev is_hex : ℕ → Bool
is_hex c = is_digit c || (leb b'a' c && leb c b'f') || (leb b'A' c && leb c b'F')

-- The escapes of two bytes.
abbrev pub is_short_escape : ℕ → Bool
is_short_escape e =
    e == b'"'
    || e == b'\\'
    || e == b'/'
    || e == b'b'
    || e == b'f'
    || e == b'n'
    || e == b'r'
    || e == b't'

abbrev literal : ℕ → Bytes
literal zero = codes "true"
literal (suc zero) = codes "false"
literal (suc (suc n)) = codes "null"

-- The state, the result, and whether the byte was taken.
abbrev pub ByteStep : Type 0
ByteStep = BodyScan × Bool × Bool

-- The byte is taken.
abbrev pub took : Stepped → ByteStep
took (s, ok) = (s, ok, true)

-- The byte ended a number, and is reread by the container.
abbrev reread : Stepped → ByteStep
reread (s, ok) = (s, ok, false)

abbrev goes : BodyScan → St → Bool → ByteStep
goes s st ok = (record s { st = st }, ok, true)

unfoldable pub literal_step : BodyScan → ℕ → ℕ → ByteStep
literal_step s i c =
    let word = literal (s.lit_at / 8) in
    let next = record s { lit_at = (s.lit_at + 1) % 256 } in
    if not (c == get_or word (s.lit_at % 8) 0)
    then (s, false, false)
    else if next.lit_at % 8 == length word
    then took (value_done next (i + 1))
    else (next, true, true)

-- The number states.
unfoldable pub number_step : BodyScan → ℕ → ℕ → ByteStep
number_step s i c =
    if c == b'.'
    then goes s num_dot true
    else if c == b'e' || c == b'E'
    then goes s num_e true
    else reread (value_done s i)

abbrev exponent_or_done : BodyScan → ℕ → ℕ → ByteStep
exponent_or_done s i c =
    if c == b'e' || c == b'E' then goes s num_e true else reread (value_done s i)

-- A container closed.
unfoldable pub close_container : BodyScan → ℕ → ByteStep
close_container s i =
    let depth = s.depth - 1 in
    took (
      value_done
        (record s {
          depth = depth;
          options_depth = if ltb depth s.options_depth then 0 else s.options_depth;
        })
        (i + 1))

-- A container opens.
unfoldable pub open_container : BodyScan → Bool → ℕ → Bool → ByteStep
open_container s options i is_object =
    if s.depth == max_depth
    then took (refuse_with s "body nests too deep")
    else let depth = s.depth + 1 in
      let held = not (s.members == 0) && depth == 1 in
      (
        record s {
          kinds = with_bit s.kinds s.depth is_object;
          depth = depth;
          open_at = if held then i + 1 else s.open_at;
          hold = if held then i + 1 else s.hold;
          options_depth = if is_object && options && depth == 2 then 2 else s.options_depth;
          st = if is_object then obj_first else arr_first;
        },
        true,
        true,
      )

-- The first byte of a value, behind the checks of what it may be.
unfoldable pub value_opens : BodyScan → Bool → ℕ → ℕ → ByteStep
value_opens s options i c =
    if c == b'"'
    then (record s { key = false; st = in_str }, true, true)
    else if c == b'{' || c == b'['
    then open_container s options i (c == b'{')
    else if c == b't' || c == b'f' || c == b'n'
    then (
      record s { lit_at = (if c == b't' then 0 else if c == b'f' then 1 else 2) * 8 + 1; st = lit },
      true,
      true,
    )
    else if c == b'-'
    then goes s num_sign true
    else if c == b'0'
    then goes s num_zero true
    else if is_digit c
    then goes s num_int true
    else (s, false, true)

-- A value starts.
unfoldable pub value_step : BodyScan → ℕ → ℕ → ByteStep
value_step s i c =
    let plain = record s { options_next = false } in
    let held =
      if s.model_next
      then record plain { model_next = false; model_open = true; model_at = i; hold = i }
      else plain in
    if not (s.members == 0) && s.depth == 0 && not (c == b'{')
    then took (refuse_with held "body is not a JSON object")
    else if not (s.members == 0) && s.member_next && not (c == b'"')
    then took
        (refuse_with (record held { member_next = false }) "top-level override value not a string")
    else if not (s.members == 0) && s.member_next
    then value_opens (record held { member_next = false; member_open = true; member_value = i })
        s.options_next i c
    else value_opens held s.options_next i c

-- A key starts.
unfoldable pub key_step : BodyScan → ℕ → ℕ → ByteStep
key_step s i c =
    let tracked = s.depth == 1 || (not (s.options_depth == 0) && s.depth == s.options_depth) in
    if not (c == b'"') then (s, false, true) else (
      record s {
        key = true;
        tracked = tracked;
        hold = if tracked then min s.hold i else s.hold;
        str = i + 1;
        st = in_str;
      },
      true,
      true,
    )

-- The states between tokens, where whitespace was skipped.
unfoldable pub token_step : St → BodyScan → ℕ → ℕ → ByteStep
token_step colon s i c = goes s value (c == b':')
token_step obj_first s i c = if c == b'}' then close_container s i else key_step s i c
token_step obj_key s i c = key_step s i c
token_step obj_next s i c =
    if c == b','
    then (
      record s { hold = if not (s.members == 0) && s.depth == 1 then i else s.hold; st = obj_key },
      true,
      true,
    )
    else if not (c == b'}')
    then (s, false, true)
    else close_container s i
token_step arr_next s i c =
    if c == b','
    then goes s value true
    else if not (c == b']')
    then (s, false, true)
    else close_container s i
token_step arr_first s i c = if c == b']' then close_container s i else value_step s i c
token_step value s i c = value_step s i c
token_step _ s i c = took (refuse_with s "content after the body")

-- One byte `c` at the position `i`, in a state that is not `Str`.
unfoldable pub byte_step : St → BodyScan → ℕ → ℕ → ByteStep
byte_step str_esc s i c =
    if c == b'u'
    then (record s { st = str_hex; hex = 0 }, true, true)
    else goes s in_str (is_short_escape c)
byte_step str_hex s i c =
    (record s { hex = s.hex + 1; st = if s.hex + 1 == 4 then in_str else str_hex }, is_hex c, true)
byte_step lit s i c = literal_step s i c
byte_step num_sign s i c = goes s (if c == b'0' then num_zero else num_int) (is_digit c)
byte_step num_zero s i c = if is_digit c then (s, false, true) else number_step s i c
byte_step num_int s i c = if is_digit c then (s, true, true) else number_step s i c
byte_step num_dot s i c = goes s num_frac (is_digit c)
byte_step num_frac s i c = if is_digit c then (s, true, true) else exponent_or_done s i c
byte_step num_e s i c =
    if c == b'+' || c == b'-' then goes s num_esign true else goes s num_exp (is_digit c)
byte_step num_esign s i c = goes s num_exp (is_digit c)
byte_step num_exp s i c = if is_digit c then (s, true, true) else reread (value_done s i)
byte_step st s i c = if is_ws c then (s, true, true) else token_step st s i c
