-- ===== src/Http/Chunked/Sizes.antt =====
-- Size lines as RFC 9112 writes them: hexadecimal digits, then an extension.
use llmbridge.Base.{
  ℕ, ◌+◌, ◌*◌, ◌≤◌, ◌<◌, ◌≡◌, refl, ap, ◌∙◌, Bool, true, false, [], ◌∷◌, ◌++◌, some, arith,
}
use llmbridge.Base.Bytes.{Bytes, no_crlf}
use llmbridge.Http.Request.{max_body_len}
use llmbridge.Http.Chunked.{hex_value, skip_blanks, extension_ok, size_digits, size_line}

-- The bytes that spell a digit, and the number below 16 that it stands for.
pub data IsHex : ℕ → ℕ → Type 0 where
  decimal : (d : ℕ) → d < 10 → IsHex (b'0' + d) d
  lower : (d : ℕ) → d < 6 → IsHex (b'a' + d) (10 + d)
  upper : (d : ℕ) → d < 6 → IsHex (b'A' + d) (10 + d)

-- The number that digits spell behind those of `n`, the most significant first.
pub data IsNumber : ℕ → Bytes → ℕ → Type 0 where
  units : {n : ℕ} → IsNumber n [] n
  digit : {n c d m : ℕ} {s : Bytes} → IsHex c d → IsNumber (n * 16 + d) s m → IsNumber n (c ∷ s) m

-- What stands behind the digits: blanks, and an extension or none.
pub data IsExtension : Bytes → Type 0 where
  absent : IsExtension []
  space : {s : Bytes} → IsExtension s → IsExtension (32 ∷ s)
  tab : {s : Bytes} → IsExtension s → IsExtension (9 ∷ s)
  semicolon : {s : Bytes} → no_crlf s ≡ true → IsExtension (b';' ∷ s)

-- `line` is the size line of a chunk of `n` bytes.
pub record IsSize (line : Bytes) (n : ℕ) : Type 0 where
  pub first : ℕ
  pub others : Bytes
  pub extension : Bytes
  pub spelled : line ≡ (first ∷ others) ++ extension
  pub number : IsNumber 0 (first ∷ others) n
  pub behind : IsExtension extension
  pub fits : n ≤ max_body_len

hex_value-IsHex : (c d : ℕ) → IsHex c d → hex_value c ≡ some d
unfolding hex_value
hex_value-IsHex _ _ (decimal d h) = ground (arith, h)
hex_value-IsHex _ _ (lower d h) = ground (arith, h)
hex_value-IsHex _ _ (upper d h) = ground (arith, h)

IsNumber-le : (n m : ℕ) (s : Bytes) → IsNumber n s m → n ≤ m
IsNumber-le n _ _ units = omega arith
IsNumber-le n m _ (digit {d} {s} x k) = let l = IsNumber-le (n * 16 + d) m s k in omega (arith, l)

extension_ok-IsExtension : (s : Bytes) → IsExtension s → extension_ok (skip_blanks s) ≡ true
extension_ok-IsExtension _ absent = refl
extension_ok-IsExtension _ (space {s} e) = extension_ok-IsExtension s e
extension_ok-IsExtension _ (tab {s} e) = extension_ok-IsExtension s e
extension_ok-IsExtension _ (semicolon {s} h) = h

size_digits-IsExtension : (n : ℕ) (s : Bytes) → IsExtension s → size_digits true n s ≡ some n
unfolding size_digits hex_value
size_digits-IsExtension n _ absent = refl
size_digits-IsExtension n _ (space {s} e) = rw (extension_ok-IsExtension s e) refl
size_digits-IsExtension n _ (tab {s} e) = rw (extension_ok-IsExtension s e) refl
size_digits-IsExtension n _ (semicolon {s} h) = rw h refl

size_digits-digit :
    (b : Bool) (n c d : ℕ) (s : Bytes)
    → hex_value c ≡ some d
    → n * 16 + d ≤ max_body_len
    → size_digits b n (c ∷ s) ≡ size_digits true (n * 16 + d) s
unfolding size_digits
size_digits-digit b n c d s e h = ground (arith, e, h)

size_digits-IsNumber :
    (n m : ℕ) (s ext : Bytes)
    → IsNumber n s m
    → m ≤ max_body_len
    → IsExtension ext
    → size_digits true n (s ++ ext) ≡ some m
size_digits-IsNumber n _ _ ext units h e = size_digits-IsExtension n ext e
size_digits-IsNumber n m _ ext (digit {c} {d} {s} x k) h e =
    let l = IsNumber-le (n * 16 + d) m s k in
    size_digits-digit true n c d (s ++ ext) (hex_value-IsHex c d x) (omega (arith, l, h))
    ∙ size_digits-IsNumber (n * 16 + d) m s ext k h e

-- Every size line of these is read as the number that it spells.
pub size_line-IsSize : (line : Bytes) (n : ℕ) → IsSize line n → size_line line ≡ some n
unfolding size_line
size_line-IsSize line n z =
    ap (size_digits false 0) z.spelled ∙ spelled_out z.first z.others z.number
  where
    spelled_out :
        (c : ℕ) (s : Bytes)
        → IsNumber 0 (c ∷ s) n
        → size_digits false 0 ((c ∷ s) ++ z.extension) ≡ some n
    spelled_out _ _ (digit {c} {d} {s} x k) =
        let l = IsNumber-le (0 * 16 + d) n s k in
        size_digits-digit false 0 c d (s ++ z.extension) (hex_value-IsHex c d x)
          (omega (arith, l, z.fits))
        ∙ size_digits-IsNumber (0 * 16 + d) n s z.extension k z.fits z.behind
