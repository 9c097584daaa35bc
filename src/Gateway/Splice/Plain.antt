-- ===== src/Gateway/Splice/Plain.antt =====
-- A plain value of `MemberSplice` between quotes, as the parser of JSON strings reads it.
use llmbridge.Base.{◌+◌, ◌≡◌, refl, ap, sym, ◌∙◌, true, [], ◌∷◌, ◌++◌, arith}
use llmbridge.Base.Bytes.{Bytes}
use llmbridge.Provider.Json.Escape.Inverse.{escaped}
use llmbridge.Provider.Json.Tokens.{Parser, parse_string}
use llmbridge.Provider.Json.Tokens.Strings.{escapes_of, parse_string-escaped}
use llmbridge.Gateway.Splice.{plain_value}

escaped-plain_value : (v : Bytes) → plain_value v ≡ true → (escaped v ≡ v) × (escapes_of v ≡ 0)
unfolding plain_value escaped escapes_of
escaped-plain_value [] h = (refl, refl)
escaped-plain_value (u ∷ s) h =
    let (e, n) = escaped-plain_value s (ground (arith, h)) in
    (ground (arith, h, e), ground (arith, h, n))

-- A value that `plain` lets pass goes between quotes as it is: the parser of JSON strings reads it
-- as one string with these bytes, counts no escape, and stops behind the closing quote without
-- failing.
pub parse_string-plain_value :
    (v rest : Bytes) (p : Parser)
    → plain_value v ≡ true
    → p.rest ≡ b'"' ∷ (v ++ b'"' ∷ rest)
    → parse_string p ≡ (v, record p { rest = rest })
parse_string-plain_value v rest p h e =
    let (same_text, none) = escaped-plain_value v h in
    let front : p.rest ≡ b'"' ∷ (escaped v ++ b'"' ∷ rest) =
      e ∙ ap (λ x. b'"' ∷ (x ++ b'"' ∷ rest)) (sym same_text) in
    let n : p.escapes + escapes_of v ≡ p.escapes = omega (arith, none) in
    let r = parse_string-escaped v rest p front in ground (arith, r, same_text, n)
