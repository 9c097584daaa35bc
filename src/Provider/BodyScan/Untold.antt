-- ===== src/Provider/BodyScan/Untold.antt =====
-- What `BodyScan::step` leaves as it is in every state but `Str`: the keys told so far and the
-- verdict.
use llmbridge.Base.{ℕ, ◌≡◌, Bool, ◌==◌, arith}
use llmbridge.Provider.BodyScan.{
  BodyScan, St, value, arr_first, obj_first, obj_key, colon, obj_next, arr_next, in_str, lit, end,
}
use llmbridge.Provider.BodyScan.Keys.{value_done}
use llmbridge.Provider.BodyScan.Bytewise.{
  byte_step, token_step, number_step, literal_step, close_container, open_container, value_opens,
  value_step, key_step,
}

abbrev pub SameKeys : BodyScan → BodyScan → Type 0
SameKeys s s' = (s'.top ≡ s.top) × (s'.options ≡ s.options) × (s'.verdict ≡ s.verdict)

pub value_done-SameKeys : (s : BodyScan) (e : ℕ) → SameKeys s (value_done s e).0
unfolding value_done
value_done-SameKeys s e = (ground arith, ground arith, ground arith)

literal_step-SameKeys : (s : BodyScan) (i c : ℕ) → SameKeys s (literal_step s i c).0
unfolding literal_step value_done
literal_step-SameKeys s i c = (ground arith, ground arith, ground arith)

number_step-SameKeys : (s : BodyScan) (i c : ℕ) → SameKeys s (number_step s i c).0
unfolding number_step
number_step-SameKeys s i c =
    let h = value_done-SameKeys s i in (ground (arith, h), ground (arith, h), ground (arith, h))

close_container-SameKeys : (s : BodyScan) (i : ℕ) → SameKeys s (close_container s i).0
unfolding close_container value_done
close_container-SameKeys s i = (ground arith, ground arith, ground arith)

open_container-SameKeys :
    (s : BodyScan) (options : Bool) (i : ℕ) (o : Bool) → SameKeys s (open_container s options i o).0
unfolding open_container
open_container-SameKeys s options i o = (ground arith, ground arith, ground arith)

value_opens-SameKeys :
    (s : BodyScan) (options : Bool) (i c : ℕ) → SameKeys s (value_opens s options i c).0
unfolding value_opens
value_opens-SameKeys s options i c =
    let h = open_container-SameKeys s options i (c == b'{') in
    (ground (arith, h), ground (arith, h), ground (arith, h))

value_step-SameKeys : (s : BodyScan) (i c : ℕ) → SameKeys s (value_step s i c).0
unfolding value_step
value_step-SameKeys s i c = (
  grind (arith, value_opens-SameKeys),
  grind (arith, value_opens-SameKeys),
  grind (arith, value_opens-SameKeys),
)

key_step-SameKeys : (s : BodyScan) (i c : ℕ) → SameKeys s (key_step s i c).0
unfolding key_step
key_step-SameKeys s i c = (ground arith, ground arith, ground arith)

token_step-SameKeys : (st : St) (s : BodyScan) (i c : ℕ) → SameKeys s (token_step st s i c).0
unfolding token_step
token_step-SameKeys _ s i c =
    let v = value_step-SameKeys s i c in
    let k = key_step-SameKeys s i c in
    let e = close_container-SameKeys s i in
    (ground (arith, v, k, e), ground (arith, v, k, e), ground (arith, v, k, e))

pub byte_step-SameKeys : (st : St) (s : BodyScan) (i c : ℕ) → SameKeys s (byte_step st s i c).0
unfolding byte_step
byte_step-SameKeys lit s i c = literal_step-SameKeys s i c
byte_step-SameKeys value s i c =
    let t = token_step-SameKeys value s i c in
    (ground (arith, t), ground (arith, t), ground (arith, t))
byte_step-SameKeys arr_first s i c =
    let t = token_step-SameKeys arr_first s i c in
    (ground (arith, t), ground (arith, t), ground (arith, t))
byte_step-SameKeys obj_first s i c =
    let t = token_step-SameKeys obj_first s i c in
    (ground (arith, t), ground (arith, t), ground (arith, t))
byte_step-SameKeys obj_key s i c =
    let t = token_step-SameKeys obj_key s i c in
    (ground (arith, t), ground (arith, t), ground (arith, t))
byte_step-SameKeys colon s i c =
    let t = token_step-SameKeys colon s i c in
    (ground (arith, t), ground (arith, t), ground (arith, t))
byte_step-SameKeys obj_next s i c =
    let t = token_step-SameKeys obj_next s i c in
    (ground (arith, t), ground (arith, t), ground (arith, t))
byte_step-SameKeys arr_next s i c =
    let t = token_step-SameKeys arr_next s i c in
    (ground (arith, t), ground (arith, t), ground (arith, t))
byte_step-SameKeys in_str s i c =
    let t = token_step-SameKeys in_str s i c in
    (ground (arith, t), ground (arith, t), ground (arith, t))
byte_step-SameKeys end s i c =
    let t = token_step-SameKeys end s i c in
    (ground (arith, t), ground (arith, t), ground (arith, t))
byte_step-SameKeys _ s i c =
    let n = number_step-SameKeys s i c in
    let v = value_done-SameKeys s i in
    (ground (arith, n, v), ground (arith, n, v), ground (arith, n, v))
