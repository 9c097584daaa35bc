-- ===== src/Provider/Json/Tokens/Backslash.antt =====
-- A string that holds a backslash has counted an escape.
use llmbridge.Base.{
  ℕ, suc, ◌+◌, ◌-◌, ◌≤◌, ◌<◌, ◌≡◌, refl, ap, true, false, [], ◌∷◌, ◌==◌, length, take, arith,
}
use llmbridge.Base.Bytes.{Bytes, find_byte}
use llmbridge.Provider.Json.Tokens.{Parser, scan_string, parse_string, between, tail, escape_length}
use llmbridge.Provider.Json.Tokens.Moves.{Suffix-length, scan_string-Suffix, scan_string-escapes}
use llmbridge.Provider.Json.Keys.{has_backslash}

has_backslash-cons :
    (c : ℕ) (s : Bytes) → (c == b'\\') ≡ false → has_backslash (c ∷ s) ≡ has_backslash s
unfolding has_backslash find_byte
has_backslash-cons c s h = ground (arith, h)

between-cons : (c : ℕ) (s t : Bytes) → length t ≤ length s → between (c ∷ s) t ≡ c ∷ between s t
between-cons c s t h =
    let n : length (c ∷ s) - length t ≡ suc (length s - length t) = omega (arith, h) in
    ap (λ k. take k (c ∷ s)) n

between-same : (s : Bytes) → between s s ≡ []
between-same s = let n : length s - length s ≡ 0 = omega arith in ap (λ k. take k s) n

scan_string-plain :
    (escapes : ℕ) (s : Bytes)
    → (scan_string 0 escapes s).closed ≡ true
    → (scan_string 0 escapes s).escapes ≡ escapes
    → has_backslash (between s (scan_string 0 escapes s).left) ≡ false
unfolding scan_string
scan_string-plain escapes [] h e = cc
scan_string-plain escapes (c ∷ s) h e =
    let r = scan_string 0 escapes s in
    let ih = scan_string-plain escapes s in
    let shorter = Suffix-length r.left s (scan_string-Suffix 0 escapes s) in
    let longer = between-cons c s r.left shorter in
    let cons = has_backslash-cons c (between s r.left) in
    let nothing = between-same (c ∷ s) in
    let empty : has_backslash [] ≡ false = unfold has_backslash find_byte in refl in
    let more = scan_string-escapes (escape_length s) (escapes + 1) s in
    ground (arith, h, e, ih, longer, cons, nothing, empty, more)

pub parse_string-escapes :
    (p : Parser)
    → (parse_string p).1.ok ≡ true
    → has_backslash (parse_string p).0 ≡ true
    → p.escapes < (parse_string p).1.escapes
unfolding parse_string
parse_string-escapes p h b =
    let s = tail p.rest in
    let plain = scan_string-plain p.escapes s in
    let more = scan_string-escapes 0 p.escapes s in ground (arith, h, b, plain, more)
