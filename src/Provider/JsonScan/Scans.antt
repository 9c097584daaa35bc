-- ===== src/Provider/JsonScan/Scans.antt =====
-- The readers of provider/src/json_scan.hpp that are anchored at a key, and the reader of a price.
use llmbridge.Base.{
  ℕ, zero, suc, ◌+◌, ◌-◌, ◌*◌, ◌/◌, Bool, true, false, not, ◌&&◌, ◌||◌, [], ◌∷◌, Option, none, some,
  ltb, ◌==◌, if◌then◌else◌, length, get_or, drop,
}
use llmbridge.Base.Bytes.{Bytes, find}
use llmbridge.Http.Text.{is_digit}
use llmbridge.Provider.JsonScan.{is_ws, is_at, skip_ws}

-- The `while` that goes back over whitespace.
unfoldable pub back_ws : Bytes → ℕ → ℕ
back_ws b zero = 0
back_ws b (suc p) = let before = back_ws b p in if is_ws (get_or b p 0) then before else suc p

-- Where the value of the key `"name"`, found at `at`, begins.
unfoldable pub key_value_at : Bytes → ℕ → ℕ → Option ℕ
key_value_at b at len =
    let p = back_ws b at in
    let colon = skip_ws b (at + len) in
    let value = skip_ws b (colon + 1) in
    if p == 0 || not (get_or b (p - 1) 0 == b'{' || get_or b (p - 1) 0 == b',')
    then none
    else if not (is_at b colon b':')
    then none
    else if ltb value (length b)
    then some value
    else none

-- A call of `f` with a position that was found, and whether the scan goes on.
abbrev call_at {ℓ} : {S : Type ℓ} → (S → ℕ → S × Bool) → S → Option ℕ → S × Bool
call_at f s none = (s, true)
call_at f s (some value) = f s value

module _ {ℓ} {S : Type ℓ} where
  -- `from` grows in each round.
  unfoldable pub keys_loop : ℕ → (S → ℕ → S × Bool) → S → Bytes → Bytes → ℕ → S
  unfolding find
  keys_loop zero f s b quoted from = s
  keys_loop (suc fuel) f s b quoted from =
      if ltb (length b) (from + length quoted) then s else elim (find quoted (drop from b)) [
        | none ↦ s
        | some n ↦
            let at = from + n in
            let (s', go) = call_at f s (key_value_at b at (length quoted)) in
            let rest = keys_loop fuel f s' b quoted (at + 1) in if go then rest else s'
      ]

  unfoldable pub each_key : (S → ℕ → S × Bool) → S → Bytes → Bytes → S
  unfolding keys_loop
  each_key f s b quoted = keys_loop (length b + 1) f s b quoted 0

-- The locals of `picodollars`; `exp10` is `up - down`.
pub record Price : Type 0 where
  pub m : ℕ
  pub digits : ℕ
  pub up : ℕ
  pub down : ℕ
  pub any : Bool
  pub point : Bool

abbrev one_if : Bool → ℕ
one_if b = if b then 1 else 0

-- A round of the first loop at the digit `c`.
unfoldable pub digit_read : Price → ℕ → Price
digit_read p c =
    let seen = record p { any = true } in
    if p.m == 0 && c == b'0'
    then record seen { down = p.down + one_if p.point }
    else if ltb p.digits 18
    then (record seen {
      m = p.m * 10 + (c - b'0');
      digits = p.digits + 1;
      down = p.down + one_if p.point;
    })
    else record seen { up = p.up + one_if (not p.point) }

-- The first loop, and the text from where it stops.
unfoldable pub mantissa : Price → Bytes → Price × Bytes
unfolding digit_read
mantissa p [] = (p, [])
mantissa p (c ∷ s) =
    let point = mantissa (record p { point = true }) s in
    let digit = mantissa (digit_read p c) s in
    if c == b'.' && not p.point then point else if is_digit c then digit else (p, c ∷ s)

-- The digits of the exponent, to the end of the text; `none` where anything else follows.
unfoldable pub exponent : ℕ → Bytes → Option ℕ
exponent e [] = some e
exponent e (c ∷ s) =
    let rest = exponent (if ltb e 400 then e * 10 + (c - b'0') else e) s in
    if is_digit c then rest else none

-- What follows the sign, which no exponent may lack.
abbrev some_exponent : Bytes → Option ℕ
some_exponent [] = none
some_exponent (c ∷ s) = exponent 0 (c ∷ s)

abbrev lowered : Price → Option ℕ → Option Price
lowered p none = none
lowered p (some e) = some (record p { down = p.down + e })

abbrev raised : Price → Option ℕ → Option Price
raised p none = none
raised p (some e) = some (record p { up = p.up + e })

abbrev signed : Price → Bytes → Option Price
signed p [] = none
signed p (c ∷ s) =
    if c == b'-'
    then lowered p (some_exponent s)
    else if c == b'+'
    then raised p (some_exponent s)
    else raised p (some_exponent (c ∷ s))

unfoldable pub with_exponent : Price → Bytes → Option Price
unfolding exponent
with_exponent p [] = some p
with_exponent p (c ∷ s) = if c == b'e' || c == b'E' then signed p s else none

-- The loop for `exp10 > 0`.
unfoldable pub grow : ℕ → ℕ → Option ℕ
grow zero m = some m
grow (suc n) m = let rest = grow n (m * 10) in if ltb 922337203685477580 m then none else rest

-- The loop for `exp10 < 0`: its last round rounds.
unfoldable pub shrink : ℕ → ℕ → ℕ
shrink zero m = m
shrink (suc zero) m = if m == 0 then 0 else (m + 5) / 10
shrink (suc (suc n)) m = if m == 0 then 0 else shrink (suc n) (m / 10)

abbrev in_range : ℕ → Option ℕ
in_range m = if ltb 9223372036854775807 m then none else some m

abbrev scaled : Price → Option ℕ
scaled p = elim (grow (p.up - p.down) p.m) [
  | none ↦ none
  | some m ↦ in_range (shrink (p.down - p.up) m)
]

-- `none` is the result -1.
unfoldable pub picodollars : Bytes → Option ℕ
unfolding mantissa with_exponent grow shrink
picodollars raw =
    let (p, rest) =
      mantissa (record { m = 0; digits = 0; up = 12; down = 0; any = false; point = false }) raw in
    if not p.any then none else elim (with_exponent p rest) [ none ↦ none | some q ↦ scaled q ]
