-- ===== src/Provider/Json/Escape/Inverse.antt =====
-- The escaper and the decoder of JSON strings undo each other.
use llmbridge.Base.{
  ℕ, ◌+◌, ◌*◌, ◌/◌, ◌%◌, ◌<◌, ◌≡◌, refl, ap, sym, subst, ◌∙◌, Bool, true, false, ◌||◌, [], ◌∷◌,
  ◌++◌, append-nil, append_assoc, ◌==◌, if◌then◌else◌, Bool-cases, inl, inr, none, some,
  Option-cases, each_below, each_below-at, ==_iff, arith,
}
use llmbridge.Base.Bytes.{Bytes, codes}
use llmbridge.Provider.Json.Escape.{
  decoded, unescape_append, unescape_round, unicode_round, unescape_string, escape_byte,
  escape_loop, append_escaped, is_plain, hex_char, utf8, simple_escape, read_hex, hex_digit,
  code_point,
}

-- A text with each byte escaped where it has to be: what stands between the quotes.
unfoldable pub escaped : Bytes → Bytes
escaped [] = []
escaped (c ∷ s) = (if is_plain c then c ∷ [] else escape_byte c) ++ escaped s

escape_loop-escaped : (s out run : Bytes) → escape_loop out run s ≡ (out ++ run) ++ escaped s
unfolding escape_loop escaped
escape_loop-escaped [] out run = sym (append-nil (out ++ run))
escape_loop-escaped (c ∷ s) out run = elim (Bool-cases (is_plain c)) [
  | inl e ↦ rw e (escape_loop-escaped s out (run ++ c ∷ []) ∙ simp append_assoc)
  | inr e ↦
      rw e
        (escape_loop-escaped s ((out ++ run) ++ escape_byte c) [] ∙ simp (append_assoc, append-nil))
]

-- `append_escaped` appends the escaped text, between quotes.
pub append_escaped-escaped :
    (out s : Bytes) → append_escaped out s ≡ out ++ b'"' ∷ (escaped s ++ b'"' ∷ [])
unfolding append_escaped
append_escaped-escaped out s =
    rw (escape_loop-escaped s (out ++ b'"' ∷ []) []) (simp (append_assoc, append-nil))

abbrev reads_back : ℕ → Bool
reads_back d = elim (hex_digit (hex_char d)) [ none ↦ false | some e ↦ e == d ]

hex_table : each_below reads_back 16 ≡ true
unfolding hex_digit
hex_table = refl

hex_digit-hex_char : (d : ℕ) → d < 16 → hex_digit (hex_char d) ≡ some d
hex_digit-hex_char d h =
    let t = each_below-at reads_back 16 d hex_table h in
    elim (Option-cases (hex_digit (hex_char d))) [
      | inl e ↦ cc (ap (λ o. elim o as (λ x. Bool) [ none ↦ false | some v ↦ v == d ]) e, t)
      | inr (v, e) ↦
          e
          ∙ ap some (
              (==_iff v d).0
                (ap (λ o. elim o as (λ x. Bool) [ none ↦ false | some w ↦ w == d ]) (sym e) ∙ t))
    ]

-- The code point of a byte that has no escape of two bytes.
read_hex-control :
    (c : ℕ) (s : Bytes)
    → c < 32
    → read_hex 4 0 (b'0' ∷ b'0' ∷ hex_char (c / 16 % 16) ∷ hex_char (c % 16) ∷ s) ≡ some c
unfolding read_hex
read_hex-control c s h =
    let z : hex_digit b'0' ≡ some 0 = hex_digit-hex_char 0 (omega arith) in
    let a = hex_digit-hex_char (c / 16 % 16) (omega arith) in
    let b = hex_digit-hex_char (c % 16) (omega arith) in
    let v : ((0 * 16 + 0) * 16 + 0 + 0) * 16 + c / 16 % 16 ≡ c / 16 = omega arith in
    ground (arith, z, a, b)

unicode_round-control :
    (c : ℕ) (s : Bytes)
    → c < 32
    → unicode_round (b'0' ∷ b'0' ∷ hex_char (c / 16 % 16) ∷ hex_char (c % 16) ∷ s)
      ≡ decoded (c ∷ []) 5
unfolding unicode_round code_point utf8
unicode_round-control c s h = let e = read_hex-control c s h in ground (arith, e)

-- The bytes with an escape of two bytes.
abbrev pub is_special : ℕ → Bool
is_special c = c == b'"' || c == b'\\' || c == 10 || c == 9 || c == 13 || c == 8 || c == 12

-- What holds of the seven holds of each of them.
pub is_special-cases {ℓ} :
    (P : ℕ → Type ℓ) (c : ℕ)
    → is_special c ≡ true
    → P b'"'
    → P b'\\'
    → P 10
    → P 9
    → P 13
    → P 8
    → P 12
    → P c
is_special-cases P c h quote slash n t r b f =
    let at = λ (k : ℕ) (e : (c == k) ≡ true) (p : P k). subst P (sym ((==_iff c k).0 e)) p in
    elim (Bool-cases (c == b'"')) [
      | inl e ↦ at b'"' e quote
      | inr e1 ↦ elim (Bool-cases (c == b'\\')) [
        | inl e ↦ at b'\\' e slash
        | inr e2 ↦ elim (Bool-cases (c == 10)) [
          | inl e ↦ at 10 e n
          | inr e3 ↦ elim (Bool-cases (c == 9)) [
            | inl e ↦ at 9 e t
            | inr e4 ↦ elim (Bool-cases (c == 13)) [
              | inl e ↦ at 13 e r
              | inr e5 ↦ elim (Bool-cases (c == 8)) [
                | inl e ↦ at 8 e b
                | inr e6 ↦ at 12 (rw (e1, e2, e3, e4, e5, e6) at h) f
              ]
            ]
          ]
        ]
      ]
    ]

special_byte :
    (c : ℕ) (out rest : Bytes)
    → is_special c ≡ true
    → unescape_append out 0 (escape_byte c ++ rest) ≡ unescape_append (out ++ c ∷ []) 0 rest
unfolding unescape_append escape_byte unescape_round simple_escape
special_byte c out rest h =
    is_special-cases
      (λ c. unescape_append out 0 (escape_byte c ++ rest) ≡ unescape_append (out ++ c ∷ []) 0 rest)
      c h refl refl refl refl refl refl refl

round_lem :
    (c n : ℕ) (out bytes s : Bytes)
    → unescape_round c s ≡ decoded bytes n
    → unescape_append out 0 (c ∷ s) ≡ unescape_append (out ++ bytes) n s
unfolding unescape_append
round_lem c n out bytes s e = ground (arith, e)

pub escape_byte-control :
    (c : ℕ)
    → is_special c ≡ false
    → escape_byte c ≡ codes "\\u00" ++ hex_char (c / 16 % 16) ∷ hex_char (c % 16) ∷ []
unfolding escape_byte
escape_byte-control c h = ground arith

-- The decoder reads an escaped byte as the byte.
unescape_append-byte :
    (c : ℕ) (out rest : Bytes)
    → is_plain c ≡ false
    → unescape_append out 0 (escape_byte c ++ rest) ≡ unescape_append (out ++ c ∷ []) 0 rest
unescape_append-byte c out rest h = elim (Bool-cases (is_special c)) [
  | inl e ↦ special_byte c out rest e
  | inr e ↦
      let low : c < 32 = ground arith in
      ap (λ x. unescape_append out 0 (x ++ rest)) (escape_byte-control c e)
      ∙ round_lem b'\\' 5 out (c ∷ [])
          (codes "u00" ++ hex_char (c / 16 % 16) ∷ hex_char (c % 16) ∷ rest)
          (unfold unescape_round in unicode_round-control c rest low)
      ∙ unfold unescape_append in refl
]

unescape_append-plain :
    (c : ℕ) (out s : Bytes)
    → is_plain c ≡ true
    → unescape_append out 0 (c ∷ s) ≡ unescape_append (out ++ c ∷ []) 0 s
unfolding unescape_append unescape_round
unescape_append-plain c out [] h = refl
unescape_append-plain c out (e ∷ s) h = ground arith

unescape_append-escaped : (s out : Bytes) → unescape_append out 0 (escaped s) ≡ out ++ s
unfolding escaped
unescape_append-escaped [] out = unfold unescape_append in sym (append-nil out)
unescape_append-escaped (c ∷ s) out =
    let ih = unescape_append-escaped s (out ++ c ∷ []) ∙ append_assoc out (c ∷ []) s in
    elim (Bool-cases (is_plain c)) [
      | inl e ↦ rw e (unescape_append-plain c out (escaped s) e ∙ ih)
      | inr e ↦ rw e (unescape_append-byte c out (escaped s) e ∙ ih)
    ]

-- Every byte string is what the decoder makes of what the escaper makes of it, between the quotes.
pub unescape_string-escaped : (s : Bytes) → unescape_string (escaped s) ≡ s
unfolding unescape_string
unescape_string-escaped s = unescape_append-escaped s []
