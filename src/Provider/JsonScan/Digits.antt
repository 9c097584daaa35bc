-- ===== src/Provider/JsonScan/Digits.antt =====
-- `count` (provider/src/json_scan.hpp) on what `append_decimal` (net/include/net/http_write.hpp) wrote.
use native.Mathlib.Nat.{pow-suc}
use llmbridge.Base.{
  ℕ, zero, suc, ◌+◌, ◌*◌, ◌/◌, ◌%◌, ◌^◌, ◌≤◌, ◌<◌, ◌≡◌, refl, [], ◌∷◌, some, ltb, Bool-cases, inl,
  inr, length, arith,
}
use llmbridge.Base.Bytes.{Bytes}
use llmbridge.Http.Write.{decimal_onto, append_decimal}
use llmbridge.Provider.JsonScan.{count_loop, count}

count_loop-digit :
    (v d : ℕ) (rest : Bytes)
    → d < 10
    → count_loop v ((b'0' + d) ∷ rest) ≡ count_loop (v * 10 + d) rest
unfolding count_loop
count_loop-digit v d rest h = ground arith

count_loop-decimal_onto :
    (fuel n : ℕ) (rest : Bytes)
    → n < fuel
    → count_loop 0 (decimal_onto fuel n rest) ≡ count_loop n rest
unfolding decimal_onto
count_loop-decimal_onto zero n rest h = absurd (omega arith)
count_loop-decimal_onto (suc fuel) n rest h = elim (Bool-cases (ltb n 10)) [
  | inl e ↦ let d = count_loop-digit 0 n rest (ground arith) in ground (arith, e, d)
  | inr e ↦
      let big : 10 ≤ n = ground arith in
      let r = (b'0' + n % 10) ∷ rest in
      let ih = count_loop-decimal_onto fuel (n / 10) r (omega arith) in
      let d = count_loop-digit (n / 10) (n % 10) rest (omega arith) in
      let back : n / 10 * 10 + n % 10 ≡ n = omega arith in ground (arith, e, ih, d, back)
]

tenth : (k n : ℕ) → n < 10 ^ suc (suc k) → n / 10 < 10 ^ suc k
tenth k n h = let e : 10 ^ suc (suc k) ≡ 10 ^ suc k * 10 = pow-suc 10 (suc k) in omega (arith, e)

length-decimal_onto :
    (k fuel n : ℕ) (rest : Bytes)
    → n < fuel
    → n < 10 ^ suc k
    → (length (decimal_onto fuel n rest) ≤ suc k + length rest)
      × (length rest < length (decimal_onto fuel n rest))
unfolding decimal_onto
length-decimal_onto k zero n rest h l = absurd (omega arith)
length-decimal_onto zero (suc fuel) n rest h l = (ground arith, ground arith)
length-decimal_onto (suc k) (suc fuel) n rest h l = elim (Bool-cases (ltb n 10)) [
  | inl e ↦ (ground (arith, e), ground (arith, e))
  | inr e ↦
      let big : 10 ≤ n = ground arith in
      let r = (b'0' + n % 10) ∷ rest in
      let ih = length-decimal_onto k fuel (n / 10) r (omega arith) (tenth k n l) in
      (ground (arith, e, ih), ground (arith, e, ih))
]

-- Every number of at most 18 digits is read back as it was written.
pub count-append_decimal : (n : ℕ) → n < 10 ^ 18 → count (append_decimal [] n) ≡ some n
unfolding count append_decimal
count-append_decimal n h =
    let l = length-decimal_onto 17 (suc n) n [] (omega arith) h in
    let e = count_loop-decimal_onto (suc n) n [] (omega arith) in
    let s : count_loop n [] ≡ some n = unfold count_loop in refl in ground (arith, l, e, s)
