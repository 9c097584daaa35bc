-- ===== src/Provider/Json/Tokens/Strings.antt =====
-- What the escaper of strings writes, the parser of strings reads.
use llmbridge.Base.{
  ℕ, suc, ◌+◌, ◌-◌, ◌/◌, ◌%◌, ◌<◌, ◌≡◌, refl, ap, ◌∙◌, true, false, [], ◌∷◌, ◌++◌, append_assoc,
  if◌then◌else◌, Bool-cases, inl, inr, each_below, each_below-at, length, length-append, take,
  take-length_append, arith,
}
use llmbridge.Base.Bytes.{Bytes, codes}
use llmbridge.Provider.Json.Escape.{
  is_plain, escape_byte, hex_char, append_escaped, unescape_string,
}
use llmbridge.Provider.Json.Escape.Inverse.{
  escaped, is_special, is_special-cases, escape_byte-control, append_escaped-escaped,
  unescape_string-escaped,
}
use llmbridge.Provider.Json.Tokens.{
  Parser, scan_string, parse_string, escape_length, is_hex, between, tail,
}

hex_table : each_below (λ d. is_hex (hex_char d)) 16 ≡ true
hex_table = refl

escape_length-control :
    (c : ℕ) (s : Bytes)
    → c < 32
    → escape_length (b'u' ∷ b'0' ∷ b'0' ∷ hex_char (c / 16 % 16) ∷ hex_char (c % 16) ∷ s) ≡ 5
unfolding escape_length
escape_length-control c s h =
    let t = λ (d : ℕ) (k : d < 16). each_below-at (λ d. is_hex (hex_char d)) 16 d hex_table k in
    let a = t (c / 16 % 16) (omega arith) in let b = t (c % 16) (omega arith) in rw (a, b) refl

scan_special :
    (c escapes : ℕ) (s : Bytes)
    → is_special c ≡ true
    → scan_string 0 escapes (escape_byte c ++ s) ≡ scan_string 0 (escapes + 1) s
unfolding scan_string escape_byte
scan_special c escapes s h =
    is_special-cases
      (λ c. scan_string 0 escapes (escape_byte c ++ s) ≡ scan_string 0 (escapes + 1) s) c h refl
      refl refl refl refl refl refl

scan_escape :
    (escapes n : ℕ) (s : Bytes)
    → escape_length s ≡ suc n
    → scan_string 0 escapes (b'\\' ∷ s) ≡ scan_string (suc n) (escapes + 1) s
unfolding scan_string
scan_escape escapes n s h = ground (arith, h)

scan_byte :
    (c escapes : ℕ) (s : Bytes)
    → is_plain c ≡ false
    → scan_string 0 escapes (escape_byte c ++ s) ≡ scan_string 0 (escapes + 1) s
scan_byte c escapes s h = elim (Bool-cases (is_special c)) [
  | inl e ↦ scan_special c escapes s e
  | inr e ↦
      let low : c < 32 = ground arith in
      let written = hex_char (c / 16 % 16) ∷ hex_char (c % 16) ∷ s in
      ap (λ x. scan_string 0 escapes (x ++ s)) (escape_byte-control c e)
      ∙ scan_escape escapes 4 (codes "u00" ++ written) (escape_length-control c s low)
      ∙ unfold scan_string in refl
]

scan_plain :
    (c escapes : ℕ) (s : Bytes)
    → is_plain c ≡ true
    → scan_string 0 escapes (c ∷ s) ≡ scan_string 0 escapes s
unfolding scan_string
scan_plain c escapes s h = ground (arith, h)

-- How many bytes of a text are escaped.
unfoldable pub escapes_of : Bytes → ℕ
escapes_of [] = 0
escapes_of (c ∷ s) = if is_plain c then escapes_of s else suc (escapes_of s)

scan_string-escaped :
    (s rest : Bytes) (escapes : ℕ)
    → scan_string 0 escapes (escaped s ++ b'"' ∷ rest)
      ≡ record { closed = true; left = b'"' ∷ rest; escapes = escapes + escapes_of s }
unfolding escaped escapes_of
scan_string-escaped [] rest escapes =
    let e : escapes + 0 ≡ escapes = omega arith in unfold scan_string in rw e refl
scan_string-escaped (c ∷ s) rest escapes = elim (Bool-cases (is_plain c)) [
  | inl e ↦
      rw e (scan_plain c escapes (escaped s ++ b'"' ∷ rest) e ∙ scan_string-escaped s rest escapes)
  | inr e ↦
      let n : (escapes + 1) + escapes_of s ≡ escapes + suc (escapes_of s) = omega arith in
      rw e (
        ap (scan_string 0 escapes) (append_assoc (escape_byte c) (escaped s) (b'"' ∷ rest))
        ∙ scan_byte c escapes (escaped s ++ b'"' ∷ rest) e
        ∙ scan_string-escaped s rest (escapes + 1)
        ∙ ap (λ k. record { closed = true; left = b'"' ∷ rest; escapes = k }) n)
]

between-append : (x t : Bytes) → between (x ++ t) t ≡ x
between-append x t =
    let n : length (x ++ t) - length t ≡ length x = omega (arith, length-append x t) in
    ap (λ k. take k (x ++ t)) n ∙ take-length_append x t

pub parse_string-escaped :
    (s rest : Bytes) (p : Parser)
    → p.rest ≡ b'"' ∷ (escaped s ++ b'"' ∷ rest)
    → parse_string p ≡ (escaped s, record p { rest = rest; escapes = p.escapes + escapes_of s })
unfolding parse_string
parse_string-escaped s rest p h =
    let t : tail p.rest ≡ escaped s ++ b'"' ∷ rest = ap tail h in
    let e = scan_string-escaped s rest p.escapes in
    let b = between-append (escaped s) (b'"' ∷ rest) in rw (t, e, b) refl

-- Whatever bytes `append_escaped` was given, and whatever follows: the parser of strings, at what it
-- wrote, stops behind it without failing and has counted each escaped byte, and what it has read
-- decodes to the bytes.
pub parse_string-append_escaped :
    (s rest : Bytes) (p : Parser)
    → p.rest ≡ append_escaped [] s ++ rest
    → (unescape_string (parse_string p).0 ≡ s)
      × ((parse_string p).1 ≡ record p { rest = rest; escapes = p.escapes + escapes_of s })
parse_string-append_escaped s rest p h =
    let front : append_escaped [] s ++ rest ≡ b'"' ∷ (escaped s ++ b'"' ∷ rest) =
      ap (λ x. x ++ rest) (append_escaped-escaped [] s)
      ∙ ap (λ x. b'"' ∷ x) (append_assoc (escaped s) (b'"' ∷ []) rest) in
    let e = parse_string-escaped s rest p (h ∙ front) in
    (ap (λ r. unescape_string r.0) e ∙ unescape_string-escaped s, ap (λ r. r.1) e)
