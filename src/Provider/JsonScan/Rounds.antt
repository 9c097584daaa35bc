-- ===== src/Provider/JsonScan/Rounds.antt =====
-- The loops of `for_each_member` and `for_each_element` end: their fuel is never used up.
use llmbridge.Base.{
  ℕ, zero, suc, ◌+◌, ◌-◌, ◌≤◌, ◌<◌, ◌≡◌, refl, Bool, none, some, Option-cases, inl, inr, length,
  arith, Bool-cases,
}
use llmbridge.Base.Bytes.{Bytes, slice}
use llmbridge.Provider.JsonScan.{
  skip_ws, string_close, skip_value, read_member, is_at, next_round, members_loop, elements_loop,
}
use llmbridge.Provider.JsonScan.Bounds.{string_close-within, skip_value-within}

skip_ws-le : (b : Bytes) (i : ℕ) → i ≤ skip_ws b i
unfolding skip_ws
skip_ws-le b i = omega arith

-- `none` where there is no member; the value ends behind the member's start.
read_member-within :
    (b key value : Bytes) (i at : ℕ)
    → read_member b i ≡ some (key, value, at)
    → (i < at) × (at ≤ length b)
unfolding read_member
read_member-within b key value i at h = elim (Option-cases (string_close b (i + 1))) [
  | inl e ↦ ground (arith, e)
  | inr (close, e) ↦
      let c = string_close-within b (i + 1) close e in
      let colon = skip_ws b (close + 1) in
      let one = skip_ws-le b (close + 1) in
      let two = skip_ws-le b (colon + 1) in
      elim (Option-cases (skip_value b (skip_ws b (colon + 1)))) [
        | inl g ↦ ground (arith, e, g)
        | inr (n, g) ↦
            let w = skip_value-within b (skip_ws b (colon + 1)) n g in
            (ground (arith, e, g, c, one, two, w), ground (arith, e, g, c, one, two, w))
      ]
]

read_member-none : (b : Bytes) (i : ℕ) → length b < i → read_member b i ≡ none
read_member-none b i h = elim (Option-cases (read_member b i)) [
  | inl e ↦ e
  | inr ((key, value, at), e) ↦
      let w = read_member-within b key value i at e in absurd (omega arith)
]

skip_value-none : (b : Bytes) (i : ℕ) → length b < i → skip_value b i ≡ none
skip_value-none b i h = elim (Option-cases (skip_value b i)) [
  | inl e ↦ e
  | inr (at, e) ↦ let w = skip_value-within b i at e in absurd (omega arith)
]

module _ {ℓ} {S : Type ℓ} where
  -- A round's end calls the later rounds at a position behind the value's end only.
  next_round-cong :
      (b : Bytes) (i close : ℕ) (s : S) (f g : ℕ → S × Bool)
      → f (skip_ws b (skip_ws b i + 1)) ≡ g (skip_ws b (skip_ws b i + 1))
      → next_round b i close s f ≡ next_round b i close s g
  next_round-cong b i close s f g h = elim (Bool-cases (is_at b (skip_ws b i) close)) [
    | inl e ↦ ground (arith, e)
    | inr e ↦ elim (Bool-cases (is_at b (skip_ws b i) b',')) [
      | inl d ↦ rw (e, d) h
      | inr d ↦ rw (e, d) refl
    ]
  ]

  -- Two amounts of fuel that both exceed the bytes from `i` on give one walk over the members.
  pub members_loop-enough :
      (m n : ℕ) (f : S → Bytes → Bytes → S × Bool) (s : S) (b : Bytes) (i : ℕ)
      → length b < m + i
      → length b < n + i
      → members_loop m f s b i ≡ members_loop n f s b i
  unfolding members_loop
  members_loop-enough zero zero f s b i h k = refl
  members_loop-enough zero (suc n) f s b i h k =
      let e = read_member-none b i (omega arith) in ground (arith, e)
  members_loop-enough (suc m) zero f s b i h k =
      let e = read_member-none b i (omega arith) in ground (arith, e)
  members_loop-enough (suc m) (suc n) f s b i h k = elim (Option-cases (read_member b i)) [
    | inl e ↦ ground (arith, e)
    | inr ((key, value, at), e) ↦
        let (w, _) = read_member-within b key value i at e in
        let t = f s key value in
        let j = skip_ws b (skip_ws b at + 1) in
        let one = skip_ws-le b at in
        let two = skip_ws-le b (skip_ws b at + 1) in
        let later = members_loop-enough m n f t.0 b j (omega arith) (omega arith) in
        elim (Bool-cases t.1) [
          | inl d ↦
              let same =
                next_round-cong b at b'}' t.0 (members_loop m f t.0 b) (members_loop n f t.0 b)
                  later in
              ground (arith, e, d, same)
          | inr d ↦ ground (arith, e, d)
        ]
  ]

  -- Two amounts of fuel that both exceed the bytes from `i` on give one walk over the elements.
  pub elements_loop-enough :
      (m n : ℕ) (f : S → Bytes → S × Bool) (s : S) (b : Bytes) (i : ℕ)
      → length b < m + i
      → length b < n + i
      → elements_loop m f s b i ≡ elements_loop n f s b i
  unfolding elements_loop
  elements_loop-enough zero zero f s b i h k = refl
  elements_loop-enough zero (suc n) f s b i h k =
      let e = skip_value-none b i (omega arith) in ground (arith, e)
  elements_loop-enough (suc m) zero f s b i h k =
      let e = skip_value-none b i (omega arith) in ground (arith, e)
  elements_loop-enough (suc m) (suc n) f s b i h k = elim (Option-cases (skip_value b i)) [
    | inl e ↦ ground (arith, e)
    | inr (at, e) ↦
        let (w, _) = skip_value-within b i at e in
        let t = f s (slice i (at - i) b) in
        let j = skip_ws b (skip_ws b at + 1) in
        let one = skip_ws-le b at in
        let two = skip_ws-le b (skip_ws b at + 1) in
        let later = elements_loop-enough m n f t.0 b j (omega arith) (omega arith) in
        elim (Bool-cases t.1) [
          | inl d ↦
              let same =
                next_round-cong b at b']' t.0 (elements_loop m f t.0 b) (elements_loop n f t.0 b)
                  later in
              ground (arith, e, d, same)
          | inr d ↦ ground (arith, e, d)
        ]
  ]
