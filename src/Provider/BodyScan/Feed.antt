-- ===== src/Provider/BodyScan/Feed.antt =====
-- `step` and `feed` of provider/src/body_scan.cpp. A position in the body is its index, with the
-- bytes from it on.
pub mod Machine
pub mod Rounds
use llmbridge.Base.{
  ℕ, zero, suc, ◌+◌, ◌-◌, ◌*◌, Bool, true, false, not, ◌&&◌, ◌||◌, List, [], ◌∷◌, Option, none,
  some, ltb, ◌==◌, if◌then◌else◌, length, drop,
}
use llmbridge.Base.Bytes.{Bytes}
use llmbridge.Provider.BodyScan.{
  BodyScan, St, in_str, str_esc, colon, num_zero, num_int, num_frac, num_exp, end, Verdict, more,
  done, refused, Stepped, refuse_with,
}
use llmbridge.Provider.BodyScan.Keys.{value_done, key_done}
use llmbridge.Provider.BodyScan.Bytewise.{is_short_escape, byte_step}

-- A byte at which `json::detail::string_stop` stops.
abbrev pub is_stop : ℕ → Bool
is_stop c = c == b'"' || c == b'\\' || ltb c 0x20

-- Where the run of plain bytes and two-byte escapes inside a string ends.
pub data Run : Type 0 where
  stopped : ℕ → Bytes → Run
  bad_escape : Run

-- `string_stop`, and the `for` of the state `Str` around it.
unfoldable pub str_run : ℕ → Bytes → Run
str_run i [] = stopped i []
str_run i (c ∷ []) = if is_stop c then stopped i (c ∷ []) else stopped (i + 1) []
str_run i (c ∷ e ∷ s) =
    let plain = str_run (i + 1) (e ∷ s) in
    let escaped = str_run (i + 2) s in
    if not (is_stop c)
    then plain
    else if not (c == b'\\')
    then stopped i (c ∷ e ∷ s)
    else if e == b'u'
    then stopped i (c ∷ e ∷ s)
    else if is_short_escape e
    then escaped
    else bad_escape

-- What a call of `step` does: it refuses, or goes on at a position.
pub data Outcome : Type 0 where
  stop : BodyScan → Outcome
  next : BodyScan → ℕ → Bytes → Outcome

abbrev pub outcome : Stepped → ℕ → Bytes → Outcome
outcome (s, ok) i rest = if ok then next s i rest else stop s

-- The byte `d` that ended the run, at `i`.
unfoldable pub str_end : BodyScan → Bytes → ℕ → ℕ → Stepped
str_end s body i d =
    if d == b'\\'
    then (record s { st = str_esc }, true)
    else if not (d == b'"')
    then refuse_with s "control byte in a string"
    else if not s.key
    then value_done s (i + 1)
    else key_done (record s { st = colon }) body i

unfoldable pub str_step : BodyScan → Bytes → Run → Outcome
str_step s body bad_escape = stop s
str_step s body (stopped i []) = next s i []
str_step s body (stopped i (d ∷ rest)) = outcome (str_end s body i d) (i + 1) rest

abbrev pub is_str : St → Bool
is_str in_str = true
is_str _ = false

unfoldable pub step : BodyScan → Bytes → ℕ → ℕ → Bytes → Outcome
step s body i c rest =
    let (s', ok, taken) = byte_step s.st s i c in
    if is_str s.st
    then str_step s body (str_run i (c ∷ rest))
    else if taken
    then outcome (s', ok) (i + 1) rest
    else outcome (s', ok) i (c ∷ rest)

-- The `while` of `feed`. Each byte takes two rounds at most, so twice their number is enough fuel.
unfoldable pub scan_loop : ℕ → BodyScan → Bytes → ℕ → Bytes → Stepped
scan_loop zero s body i rest = (s, true)
scan_loop (suc fuel) s body i [] = (s, true)
scan_loop (suc fuel) s body i (c ∷ rest) = elim (step s body i c rest) [
  | stop s' ↦ (s', false)
  | next s' i' rest' ↦ scan_loop fuel s' body i' rest'
]

-- A number at the root ends with the body.
abbrev ends_number : BodyScan → Bool
ends_number s =
    s.depth == 0
    && elim s.st [ num_zero ↦ true | num_int ↦ true | num_frac ↦ true | num_exp ↦ true | _ ↦ false ]

abbrev is_end : St → Bool
is_end end = true
is_end _ = false

-- From the end of the loop on.
unfoldable pub finish : BodyScan → Bytes → Bool → BodyScan
finish s body last =
    let read = record s { pos = if ltb (length body) s.pos then s.pos else length body } in
    let closed = if ends_number s then record read { st = end } else read in
    if not last
    then read
    else if is_end closed.st
    then record closed { verdict = done }
    else record closed { why = some "body ends inside a value"; verdict = refused }

-- `refuse(_why ? _why : "body is not valid JSON")`
unfoldable pub refuse : BodyScan → BodyScan
refuse s = record s {
  why = elim s.why [ none ↦ some "body is not valid JSON" | some w ↦ some w ];
  verdict = refused;
}

abbrev pub is_more : Verdict → Bool
is_more more = true
is_more _ = false

-- The verdict of a call is that of the state that it leaves.
unfoldable pub feed : BodyScan → Bytes → Bool → BodyScan
feed s body last =
    let rest = drop s.pos body in
    let (s', ok) = scan_loop (2 * length rest + 1) s body s.pos rest in
    if not (is_more s.verdict) then s else if ok then finish s' body last else refuse s'
