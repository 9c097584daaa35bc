-- ===== src/Provider/Json/Tokens/Raw.antt =====
-- The text of a value, as its `sv` has it, is the text that it was read from.
use llmbridge.Base.{
  ℕ, zero, suc, ◌+◌, ◌≡◌, refl, ap, sym, ◌∙◌, true, false, [], ◌∷◌, ◌++◌, append_assoc, length,
  take, drop, take-append-drop, arith,
}
use llmbridge.Base.Bytes.{Bytes, codes, same}
use llmbridge.Provider.Json.Tokens.{
  Parser, Value, null, boolean, number, string, array, object, tail, between, scan_string,
  parse_string, escape_length, number_end, parse_number, parse_bool, parse_null, parse_value_scalar,
}
use llmbridge.Provider.Json.Tokens.Moves.{Suffix-between, scan_string-Suffix, number_end-Suffix}

-- A value's text.
abbrev pub raw : Value → Bytes
raw null = codes "null"
raw (boolean true) = codes "true"
raw (boolean false) = codes "false"
raw (number sv) = sv
raw (string sv) = b'"' ∷ (sv ++ b'"' ∷ [])
raw (array sv vs) = sv
raw (object sv ms) = sv

same-eq : (s t : Bytes) → same s t ≡ true → s ≡ t
unfolding same
same-eq [] [] h = refl
same-eq [] (d ∷ t) h = cc
same-eq (c ∷ s) [] h = cc
same-eq (c ∷ s) (d ∷ t) h =
    let e : c ≡ d = ground (arith, h) in
    let k : same s t ≡ true = ground (arith, h) in rw (e, same-eq s t k) refl

scan_string-closed :
    (skip escapes : ℕ) (s : Bytes)
    → (scan_string skip escapes s).closed ≡ true
    → (scan_string skip escapes s).left ≡ b'"' ∷ tail (scan_string skip escapes s).left
unfolding scan_string
scan_string-closed skip escapes [] h = cc
scan_string-closed (suc skip) escapes (c ∷ s) h = scan_string-closed skip escapes s h
scan_string-closed zero escapes (c ∷ s) h =
    let n = escape_length s in
    let a = scan_string-closed 0 escapes s in
    let b = scan_string-closed n (escapes + 1) s in ground (arith, h, a, b)

-- From an opening quote, where the parser has not failed.
pub parse_string-raw :
    (q : Parser) (s : Bytes)
    → q.rest ≡ b'"' ∷ s
    → (parse_string q).1.ok ≡ true
    → q.rest ≡ (b'"' ∷ ((parse_string q).0 ++ b'"' ∷ [])) ++ (parse_string q).1.rest
unfolding parse_string
parse_string-raw q s e h =
    let t : tail q.rest ≡ s = ap tail e in
    let r = scan_string 0 q.escapes (tail q.rest) in
    let closed : r.closed ≡ true = ground (arith, h) in
    let quote = scan_string-closed 0 q.escapes (tail q.rest) closed in
    let b = Suffix-between r.left (tail q.rest) (scan_string-Suffix 0 q.escapes (tail q.rest)) in
    let all : tail q.rest ≡ between (tail q.rest) r.left ++ (b'"' ∷ tail r.left) =
      b ∙ ap (λ x. between (tail q.rest) r.left ++ x) quote in
    let key : (parse_string q).0 ≡ between (tail q.rest) r.left = ground (arith, closed) in
    let left : (parse_string q).1.rest ≡ tail r.left = ground (arith, closed) in
    let body = between (tail q.rest) r.left in
    let whole : q.rest ≡ b'"' ∷ tail q.rest = e ∙ ap (λ x. b'"' ∷ x) (sym t) in
    whole
    ∙ ap (λ x. b'"' ∷ x) (all ∙ sym (append_assoc body (b'"' ∷ []) (tail r.left)))
    ∙ ap (λ k. (b'"' ∷ (k ++ b'"' ∷ [])) ++ tail r.left) (sym key)
    ∙ ap (λ l. (b'"' ∷ ((parse_string q).0 ++ b'"' ∷ [])) ++ l) (sym left)

parse_number-raw :
    (q : Parser)
    → (parse_number q).1.ok ≡ true
    → q.rest ≡ raw (parse_number q).0 ++ (parse_number q).1.rest
unfolding parse_number
parse_number-raw q h =
    let b = Suffix-between (number_end q.rest).1 q.rest (number_end-Suffix q.rest) in
    ground (arith, h, b)

name-raw :
    (name s : Bytes) → same (take (length name) s) name ≡ true → s ≡ name ++ drop (length name) s
name-raw name s h =
    sym (take-append-drop (length name) s)
    ∙ ap (λ x. x ++ drop (length name) s) (same-eq (take (length name) s) name h)

parse_bool-raw :
    (q : Parser)
    → (parse_bool q).1.ok ≡ true
    → q.rest ≡ raw (parse_bool q).0 ++ (parse_bool q).1.rest
unfolding parse_bool
parse_bool-raw q h =
    let a = name-raw (codes "true") q.rest in
    let b = name-raw (codes "false") q.rest in ground (arith, h, a, b)

parse_null-raw :
    (q : Parser)
    → (parse_null q).1.ok ≡ true
    → q.rest ≡ raw (parse_null q).0 ++ (parse_null q).1.rest
unfolding parse_null
parse_null-raw q h = let a = name-raw (codes "null") q.rest in ground (arith, h, a)

pub parse_value_scalar-raw :
    (c : ℕ) (q : Parser)
    → (parse_value_scalar c q).1.ok ≡ true
    → q.rest ≡ raw (parse_value_scalar c q).0 ++ (parse_value_scalar c q).1.rest
unfolding parse_value_scalar
parse_value_scalar-raw c q h =
    let a = parse_bool-raw q in
    let b = parse_null-raw q in let d = parse_number-raw q in ground (arith, h, a, b, d)
