-- ===== src/Provider/Json/Tokens.antt =====
-- The parts of `json::Parser` (provider/include/provider/json.hpp) that call no other value's parser:
-- white space, strings, numbers and the names. A position is the text from it on.
pub mod Strings
pub mod Moves
pub mod Raw
pub mod Backslash
use llmbridge.Base.{
  ℕ, zero, suc, ◌+◌, ◌-◌, ◌^◌, Bool, true, false, not, ◌&&◌, ◌||◌, List, [], ◌∷◌, ltb, leb, ◌==◌,
  if◌then◌else◌, length, take, drop,
}
use llmbridge.Base.Bytes.{Bytes, codes, same}
use llmbridge.Http.Text.{is_digit}

-- `Parser`: what `i` points at, and the fields that a document's limits count.
pub record Parser : Type 0 where
  pub rest : Bytes
  pub nodes : ℕ
  pub ok : Bool
  pub escapes : ℕ
  pub depth : ℕ

abbrev pub max_nodes : ℕ
max_nodes = 2 ^ 20

abbrev pub max_depth : ℕ
max_depth = 64

-- `Value`: the members of an object and the elements of an array in their order. `sv` is the raw
-- text of a number, between the quotes of a string, and with its brackets of a container.
mutual
  pub data Value : Type 0 where
    null : Value
    boolean : Bool → Value
    number : Bytes → Value
    string : Bytes → Value
    array : Bytes → Values → Value
    object : Bytes → Members → Value

  pub data Values : Type 0 where
    no_values : Values
    element : Value → Values → Values

  pub data Members : Type 0 where
    no_members : Members
    member : Bytes → Value → Members → Members

-- `ok = false`
abbrev pub fail : Parser → Parser
fail p = record p { ok = false }

-- `i` moved on to `rest`.
abbrev pub at : Bytes → Parser → Parser
at rest p = record p { rest = rest }

abbrev is_ws : ℕ → Bool
is_ws c = c == b' ' || c == b'\t' || c == b'\n' || c == b'\r'

unfoldable pub skip_ws : Bytes → Bytes
skip_ws [] = []
skip_ws (c ∷ s) = if is_ws c then skip_ws s else c ∷ s

unfoldable pub ws : Parser → Parser
unfolding skip_ws
ws p = at (skip_ws p.rest) p

-- `i < s.size() && s[i] == c`
abbrev pub starts : ℕ → Bytes → Bool
starts c [] = false
starts c (d ∷ s) = d == c

-- `++i`
abbrev pub tail : Bytes → Bytes
tail [] = []
tail (c ∷ s) = s

-- `s.substr(start, i - start)`
abbrev pub between : Bytes → Bytes → Bytes
between start rest = take (length start - length rest) start

abbrev pub is_hex : ℕ → Bool
is_hex c = is_digit c || (leb b'a' c && leb c b'f') || (leb b'A' c && leb c b'F')

-- The characters that may follow a backslash, but `u`.
abbrev pub is_short_escape : ℕ → Bool
is_short_escape c =
    c == b'"'
    || c == b'\\'
    || c == b'/'
    || c == b'b'
    || c == b'f'
    || c == b'n'
    || c == b'r'
    || c == b't'

abbrev pub four_hex : Bytes → Bool
four_hex (a ∷ b ∷ c ∷ d ∷ s) = is_hex a && is_hex b && is_hex c && is_hex d
four_hex _ = false

-- How many bytes the escape takes behind its backslash; none where it is refused.
unfoldable pub escape_length : Bytes → ℕ
escape_length [] = 0
escape_length (e ∷ s) =
    if e == b'u' then (if four_hex s then 5 else 0) else if is_short_escape e then 1 else 0

-- Where a string's scan stopped: at its closing quote, or at what it refused.
pub record Scanned : Type 0 where
  pub closed : Bool
  pub left : Bytes
  pub escapes : ℕ

-- The `while` of `parse_string`, with the runs of `string_stop` byte by byte; `skip` bytes were
-- taken by an escape.
unfoldable pub scan_string : ℕ → ℕ → Bytes → Scanned
unfolding escape_length
scan_string skip escapes [] = record { closed = false; left = []; escapes = escapes }
scan_string (suc skip) escapes (c ∷ s) = scan_string skip escapes s
scan_string zero escapes (c ∷ s) =
    let plain = scan_string 0 escapes s in
    let escaped = scan_string (escape_length s) (escapes + 1) s in
    if c == b'"'
    then record { closed = true; left = c ∷ s; escapes = escapes }
    else if ltb c 0x20
    then record { closed = false; left = c ∷ s; escapes = escapes }
    else if not (c == b'\\')
    then plain
    else if escape_length s == 0
    then record { closed = false; left = c ∷ s; escapes = escapes + 1 }
    else escaped

abbrev string_read : Parser → Bytes → Scanned → Bytes × Parser
string_read p start r =
    if r.closed
    then (between start r.left, record p { rest = tail r.left; escapes = r.escapes })
    else (start, record p { rest = r.left; ok = false; escapes = r.escapes })

-- At an opening quote.
unfoldable pub parse_string : Parser → Bytes × Parser
parse_string p = string_read p (tail p.rest) (scan_string 0 p.escapes (tail p.rest))

unfoldable pub skip_digits : Bytes → Bytes
skip_digits [] = []
skip_digits (c ∷ s) = if is_digit c then skip_digits s else c ∷ s

abbrev pub starts_digit : Bytes → Bool
starts_digit [] = false
starts_digit (c ∷ s) = is_digit c

-- Where the walk over a number stopped, and whether it is a number.
abbrev Walked : Type 0
Walked = Bool × Bytes

-- `digits()`
abbrev pub digits : Bytes → Walked
digits s = (starts_digit s, skip_digits s)

abbrev pub skip_sign : Bytes → Bytes
skip_sign s = if starts b'+' s || starts b'-' s then tail s else s

unfoldable pub number_exponent : Bytes → Walked
unfolding skip_digits
number_exponent s =
    if starts b'e' s || starts b'E' s then digits (skip_sign (tail s)) else (true, s)

unfoldable pub number_fraction : Bytes → Walked
unfolding skip_digits number_exponent
number_fraction s =
    if not (starts b'.' s)
    then number_exponent s
    else if not (starts_digit (tail s))
    then (false, tail s)
    else number_exponent (skip_digits (tail s))

-- Behind the sign.
unfoldable pub unsigned_end : Bytes → Walked
unfolding skip_digits number_fraction
unsigned_end s =
    if not (starts_digit s)
    then (false, s)
    else if starts b'0' s
    then number_fraction (tail s)
    else number_fraction (skip_digits s)

unfoldable pub number_end : Bytes → Walked
unfolding unsigned_end
number_end s = if starts b'-' s then unsigned_end (tail s) else unsigned_end s

unfoldable pub parse_number : Parser → Value × Parser
parse_number p =
    let (good, left) = number_end p.rest in
    if good then (number (between p.rest left), at left p) else (null, fail (at left p))

-- `s.compare(i, n, name) == 0`
abbrev is_name : Bytes → Bytes → Bool
is_name name s = same (take (length name) s) name

unfoldable pub parse_bool : Parser → Value × Parser
parse_bool p =
    if is_name (codes "true") p.rest
    then (boolean true, at (drop 4 p.rest) p)
    else if is_name (codes "false") p.rest
    then (boolean false, at (drop 5 p.rest) p)
    else (boolean false, fail p)

unfoldable pub parse_null : Parser → Value × Parser
parse_null p =
    if is_name (codes "null") p.rest then (null, at (drop 4 p.rest) p) else (null, fail p)

-- At the byte `c`.
unfoldable pub parse_value_scalar : ℕ → Parser → Value × Parser
parse_value_scalar c p =
    if c == b't' || c == b'f'
    then parse_bool p
    else if c == b'n'
    then parse_null p
    else parse_number p
