-- ===== src/Provider/JsonScan/Bounds.antt =====
-- Where the readers of provider/src/json_scan.hpp stop: behind where they start, within the text.
use llmbridge.Base.{
  ℕ, zero, suc, ◌+◌, ◌-◌, ◌≤◌, ◌<◌, ◌≡◌, Bool, [], ◌∷◌, some, Option-cases, inl, inr, length, drop,
  length-drop, arith,
}
use llmbridge.Base.Bytes.{Bytes, find_byte}
use llmbridge.Provider.JsonScan.{
  is_plain, prefix, close_loop, string_close, container_loop, skip_value,
}

find_byte-length : (c : ℕ) (s : Bytes) (n : ℕ) → find_byte c s ≡ some n → n < length s
unfolding find_byte
find_byte-length c [] n h = cc
find_byte-length c (x ∷ s) n h = elim (Option-cases (find_byte c s)) [
  | inl e ↦ ground (arith, e)
  | inr (m, e) ↦ let l = find_byte-length c s m e in ground (arith, e, l)
]

prefix-length : (test : ℕ → Bool) (s : Bytes) → prefix test s ≤ length s
unfolding prefix
prefix-length test [] = omega arith
prefix-length test (c ∷ s) = ground (arith, prefix-length test s)

close_loop-within :
    (fuel : ℕ) (b : Bytes) (i from at : ℕ)
    → close_loop fuel b i from ≡ some at
    → (from ≤ at) × (at < length b)
unfolding close_loop
close_loop-within zero b i from at h = cc
close_loop-within (suc fuel) b i from at h = elim (Option-cases (find_byte b'"' (drop from b))) [
  | inl e ↦ ground (arith, e)
  | inr (n, e) ↦
      let l = find_byte-length b'"' (drop from b) n e in
      let d = length-drop from b in
      let r = close_loop-within fuel b i (from + n + 1) at in
      (ground (arith, e, l, d, r), ground (arith, e, l, d, r))
]

pub string_close-within :
    (b : Bytes) (i at : ℕ) → string_close b i ≡ some at → (i ≤ at) × (at < length b)
unfolding string_close
string_close-within b i at h = close_loop-within (length b) b i i at h

container_loop-within :
    (fuel depth : ℕ) (b : Bytes) (i at : ℕ)
    → container_loop fuel depth b i ≡ some at
    → (i < at) × (at ≤ length b)
unfolding container_loop
container_loop-within zero depth b i at h = cc
container_loop-within (suc fuel) depth b i at h =
    let r = container_loop-within fuel (depth + 1) b (i + 1) at in
    let q = container_loop-within fuel (depth - 1) b (i + 1) at in
    let t = container_loop-within fuel depth b (i + 1) at in
    elim (Option-cases (string_close b (i + 1))) [
      | inl e ↦ (ground (arith, e, r, q, t), ground (arith, e, r, q, t))
      | inr (n, e) ↦
          let l = string_close-within b (i + 1) n e in
          let u = container_loop-within fuel depth b (n + 1) at in
          (ground (arith, e, r, q, t, l, u), ground (arith, e, r, q, t, l, u))
    ]

-- A value that the reader gets past ends behind where it begins, and within the text: the loops over
-- members and elements advance in each of their rounds.
pub skip_value-within :
    (b : Bytes) (i at : ℕ) → skip_value b i ≡ some at → (i < at) × (at ≤ length b)
unfolding skip_value
skip_value-within b i at h =
    let l = prefix-length is_plain (drop i b) in
    let d = length-drop i b in
    let c = container_loop-within (length b) 0 b i at in
    elim (Option-cases (string_close b (i + 1))) [
      | inl e ↦ (ground (arith, e, l, d, c), ground (arith, e, l, d, c))
      | inr (n, e) ↦
          let q = string_close-within b (i + 1) n e in
          (ground (arith, e, l, d, c, q), ground (arith, e, l, d, c, q))
    ]
