-- ===== src/Provider/Json/Parse/Same.antt =====
-- Steps of the parser that keep a failure, and parsers that are the same unless both have failed.
use llmbridge.Base.{
  ℕ, ◌≡◌, Bool, false, List, Option, none, some, if◌then◌else◌, Bool-cases, ◌⊎◌, inl, inr, arith,
}
use llmbridge.Base.Bytes.{Bytes}
use llmbridge.Provider.Json.Tokens.{
  Parser, ws, parse_string, parse_value_scalar, parse_bool, parse_null, parse_number,
}
use llmbridge.Provider.Json.Parse.{enter, close_keys}

-- The parser that goes on, unless it has failed.
abbrev pub final : Parser → Option Parser
final p = if p.ok then some p else none

abbrev pub Same : Parser → Parser → Type 0
Same p p' = final p ≡ final p'

-- A step that fails where the parser had failed before.
abbrev pub IsStrict : (Parser → Parser) → Type 0
IsStrict k = (p : Parser) → p.ok ≡ false → (k p).ok ≡ false

pub Same-cases : (p p' : Parser) → Same p p' → (p ≡ p') ⊎ ((p.ok ≡ false) × (p'.ok ≡ false))
Same-cases p p' h = elim (Bool-cases p.ok) [
  | inl e ↦ elim (Bool-cases p'.ok) [
    | inl d ↦ inl (ground (arith, h, e, d))
    | inr d ↦ absurd (ground (arith, h, e, d))
  ]
  | inr e ↦ elim (Bool-cases p'.ok) [
    | inl d ↦ absurd (ground (arith, h, e, d))
    | inr d ↦ inr (e, d)
  ]
]

pub failed : (p p' : Parser) → p.ok ≡ false → p'.ok ≡ false → Same p p'
failed p p' h k = ground (arith, h, k)

-- Steps that agree everywhere agree behind parsers that agree.
pub Same-step :
    (k k' : Parser → Parser) (p p' : Parser)
    → IsStrict k
    → IsStrict k'
    → ((q : Parser) → Same (k q) (k' q))
    → Same p p'
    → Same (k p) (k' p')
Same-step k k' p p' s s' e h = elim (Same-cases p p' h) [
  | inl d ↦ rw d (e p')
  | inr (a, b) ↦ failed (k p) (k' p') (s p a) (s' p' b)
]

pub ws-IsStrict : IsStrict ws
unfolding ws
ws-IsStrict p h = h

pub parse_string-IsStrict : IsStrict (λ p. (parse_string p).1)
unfolding parse_string
parse_string-IsStrict p h = ground (arith, h)

pub parse_bool-IsStrict : IsStrict (λ p. (parse_bool p).1)
unfolding parse_bool
parse_bool-IsStrict p h = ground (arith, h)

pub parse_null-IsStrict : IsStrict (λ p. (parse_null p).1)
unfolding parse_null
parse_null-IsStrict p h = ground (arith, h)

pub parse_number-IsStrict : IsStrict (λ p. (parse_number p).1)
unfolding parse_number
parse_number-IsStrict p h = ground (arith, h)

pub parse_value_scalar-IsStrict : (c : ℕ) → IsStrict (λ p. (parse_value_scalar c p).1)
unfolding parse_value_scalar
parse_value_scalar-IsStrict c p h =
    let a = parse_bool-IsStrict p h in
    let b = parse_null-IsStrict p h in let d = parse_number-IsStrict p h in ground (arith, a, b, d)

pub close_keys-IsStrict :
    (unique : Bool) (before : ℕ) (ks : List Bytes) → IsStrict (close_keys unique before ks)
unfolding close_keys
close_keys-IsStrict unique before ks p h = ground (arith, h)

pub enter-IsStrict : IsStrict enter
unfolding enter ws
enter-IsStrict p h = h
