-- ===== src/Provider/JsonScan.antt =====
-- The readers of JSON text without a document model (provider/src/json_scan.hpp). A position is an
-- index; `kNpos` is `none`.
pub mod Bounds
pub mod Rounds
pub mod Scans
pub mod Digits
use llmbridge.Base.{
  ℕ, zero, suc, ◌+◌, ◌-◌, ◌*◌, ◌%◌, Bool, true, false, not, ◌&&◌, ◌||◌, List, [], ◌∷◌, Option, none,
  some, ltb, leb, ◌==◌, if◌then◌else◌, length, get_or, drop,
}
use llmbridge.Base.Bytes.{Bytes, find, find_byte, same, slice, starts_with}
use llmbridge.Http.Text.{is_digit}

abbrev pub is_ws : ℕ → Bool
is_ws c = c == b' ' || c == b'\t' || c == b'\n' || c == b'\r'

-- The rounds of a `while` over the bytes from a position on: how many of them a test accepts.
unfoldable pub prefix : (ℕ → Bool) → Bytes → ℕ
prefix test [] = 0
prefix test (c ∷ s) = let n = prefix test s in if test c then suc n else 0

unfoldable pub skip_ws : Bytes → ℕ → ℕ
skip_ws b i = i + prefix is_ws (drop i b)

-- The backslashes right before `at`, `n` bytes back at most: `at - k`.
unfoldable pub backslashes : Bytes → ℕ → ℕ → ℕ
backslashes b at zero = 0
backslashes b at (suc n) =
    let more = backslashes b (at - 1) n in if get_or b (at - 1) 0 == b'\\' then suc more else 0

-- The `for` of `string_close`; `from` grows in each round.
unfoldable pub close_loop : ℕ → Bytes → ℕ → ℕ → Option ℕ
unfolding find_byte backslashes
close_loop zero b i from = none
close_loop (suc fuel) b i from = elim (find_byte b'"' (drop from b)) [
  | none ↦ none
  | some n ↦
      let at = from + n in
      let later = close_loop fuel b i (at + 1) in
      if backslashes b at (at - i) % 2 == 0 then some at else later
]

unfoldable pub string_close : Bytes → ℕ → Option ℕ
unfolding close_loop
string_close b i = close_loop (length b) b i i

abbrev opens : ℕ → Bool
opens c = c == b'{' || c == b'['

abbrev closes : ℕ → Bool
closes c = c == b'}' || c == b']'

-- The `while` over an object or an array; `i` grows in each round.
unfoldable pub container_loop : ℕ → ℕ → Bytes → ℕ → Option ℕ
container_loop zero depth b i = none
container_loop (suc fuel) depth b i =
    let c = get_or b i 0 in
    let deeper = container_loop fuel (depth + 1) b (i + 1) in
    let shallower = container_loop fuel (depth - 1) b (i + 1) in
    let on = container_loop fuel depth b (i + 1) in
    let behind : Option ℕ = elim (string_close b (i + 1)) [
      | none ↦ none
      | some close ↦ container_loop fuel depth b (close + 1)
    ] in
    if leb (length b) i
    then none
    else if c == b'"'
    then behind
    else if opens c
    then deeper
    else if not (closes c)
    then on
    else if depth == 1
    then some (i + 1)
    else shallower

-- A byte of a literal or a number.
abbrev pub is_plain : ℕ → Bool
is_plain c = not (c == b',' || closes c || is_ws c)

abbrev behind_quote : Option ℕ → Option ℕ
behind_quote none = none
behind_quote (some close) = some (close + 1)

unfoldable pub skip_value : Bytes → ℕ → Option ℕ
skip_value b i =
    let c = get_or b i 0 in
    let n = prefix is_plain (drop i b) in
    if leb (length b) i
    then none
    else if c == b'"'
    then behind_quote (string_close b (i + 1))
    else if opens c
    then container_loop (length b) 0 b i
    else if n == 0
    then none
    else some (i + n)

-- Whether the byte at `i` is there, and is `c`.
abbrev pub is_at : Bytes → ℕ → ℕ → Bool
is_at b i c = ltb i (length b) && get_or b i 0 == c

-- A member: its key, its value, and where the value ends.
abbrev pub Read : Type 0
Read = Bytes × Bytes × ℕ

abbrev pub read_value : Bytes → Bytes → ℕ → Option Read
read_value b key at = elim (skip_value b at) [
  | none ↦ none
  | some i ↦ some (key, slice at (i - at) b, i)
]

-- The part of a round of `for_each_member` before the call of `f`.
unfoldable pub read_member : Bytes → ℕ → Option Read
read_member b i = elim (string_close b (i + 1)) [
  | none ↦ none
  | some close ↦
      let colon = skip_ws b (close + 1) in
      if not (is_at b i b'"')
      then none
      else if not (is_at b colon b':')
      then none
      else read_value b (slice (i + 1) (close - (i + 1)) b) (skip_ws b (colon + 1))
]

module _ {ℓ} {S : Type ℓ} where
  -- The end of a round: what follows a value that ended at `i`.
  abbrev pub next_round : Bytes → ℕ → ℕ → S → (ℕ → S × Bool) → S × Bool
  next_round b i close s rest =
      let at = skip_ws b i in
      if is_at b at close
      then (s, true)
      else if not (is_at b at b',')
      then (s, false)
      else rest (skip_ws b (at + 1))

  -- The loop of `for_each_member`; a callback is a function on the state that it captures.
  unfoldable pub members_loop : ℕ → (S → Bytes → Bytes → S × Bool) → S → Bytes → ℕ → S × Bool
  members_loop zero f s b i = (s, false)
  members_loop (suc fuel) f s b i = elim (read_member b i) [
    | none ↦ (s, false)
    | some (key, value, at) ↦
        let (s', go) = f s key value in
        if go then next_round b at b'}' s' (members_loop fuel f s' b) else (s', true)
  ]

  unfoldable pub for_each_member : (S → Bytes → Bytes → S × Bool) → S → Bytes → S × Bool
  for_each_member f s b =
      let i = skip_ws b 0 in
      let first = skip_ws b (i + 1) in
      if not (is_at b i b'{')
      then (s, false)
      else if is_at b first b'}'
      then (s, true)
      else members_loop (length b) f s b first

  -- The loop of `for_each_element`.
  unfoldable pub elements_loop : ℕ → (S → Bytes → S × Bool) → S → Bytes → ℕ → S × Bool
  elements_loop zero f s b i = (s, false)
  elements_loop (suc fuel) f s b i = elim (skip_value b i) [
    | none ↦ (s, false)
    | some at ↦
        let (s', go) = f s (slice i (at - i) b) in
        if go then next_round b at b']' s' (elements_loop fuel f s' b) else (s', true)
  ]

  unfoldable pub for_each_element : (S → Bytes → S × Bool) → S → Bytes → S × Bool
  for_each_element f s b =
      let i = skip_ws b 0 in
      let first = skip_ws b (i + 1) in
      if not (is_at b i b'[')
      then (s, false)
      else if is_at b first b']'
      then (s, true)
      else elements_loop (length b) f s b first

-- The view is empty where no member has the key.
unfoldable pub first_member : Bytes → Bytes → Bytes
first_member body key =
    (for_each_member (λ out k v. if same k key then (v, false) else (out, true)) [] body).0

-- A string value without escapes, unquoted.
unfoldable pub plain_string : Bytes → Bytes
plain_string raw =
    let inner = slice 1 (length raw - 2) raw in
    if ltb (length raw) 2
      || not (get_or raw 0 0 == b'"')
      || not (get_or raw (length raw - 1) 0 == b'"')
    then []
    else elim (find_byte b'\\' inner) [ none ↦ inner | some _ ↦ [] ]

unfoldable pub count_loop : ℕ → Bytes → Option ℕ
count_loop v [] = some v
count_loop v (c ∷ s) = elim (is_digit c) [
  | true ↦ count_loop (v * 10 + (c - b'0')) s
  | false ↦ none
]

-- `none` is the result -1.
unfoldable pub count : Bytes → Option ℕ
count raw = if length raw == 0 || ltb 18 (length raw) then none else count_loop 0 raw
