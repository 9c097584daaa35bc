-- ===== src/Http/Chunked/Bounds.antt =====
-- What the decoder holds is bounded, whatever a hostile venue sends.
use llmbridge.Base.{
  ℕ, ◌+◌, ◌-◌, ◌*◌, ◌≤◌, ◌≡◌, refl, Bool, true, false, [], ◌∷◌, ◌++◌, some, Option-cases, inl, inr,
  Bool-cases, ltb, take, length, length-append, arith,
}
use llmbridge.Base.Bytes.{Bytes}
use llmbridge.Http.Request.{max_header_len, max_body_len}
use llmbridge.Http.Chunked.{
  St, is_ended, ends_crlf, size_done, size, part, part_crlf, trailer, done, failed, ChunkDecoder,
  size_digits, size_line, hex_value, feed,
}
use llmbridge.Http.Chunked.Machine.{step_in, step, run, IsReady}
use llmbridge.Http.Chunked.Split.{feed-counted}

-- The longest line that a state holds between two bytes.
abbrev line_cap : St → ℕ
line_cap size = 64
line_cap part = 0
line_cap part_crlf = 1
line_cap trailer = max_header_len
line_cap done = 0
line_cap failed = max_header_len + 1

pub record IsBounded (d : ChunkDecoder) : Type 0 where
  pub remaining_le : d.remaining ≤ max_body_len
  pub line_le : length d.line ≤ line_cap d.st
  pub ready : IsReady d

-- An accepted chunk size is at most the cap on a body.
size_digits-le :
    (l : Bytes) (b : Bool) (k n : ℕ)
    → k ≤ max_body_len
    → size_digits b k l ≡ some n
    → n ≤ max_body_len
unfolding size_digits
size_digits-le [] b k n h e = ground arith
size_digits-le (c ∷ l) b k n h e = elim (Option-cases (hex_value c)) [
  | inl x ↦ ground arith
  | inr (d, x) ↦ ground (arith, size_digits-le l true (k * 16 + d) n)
]

pub size_line-le : (l : Bytes) (n : ℕ) → size_line l ≡ some n → n ≤ max_body_len
unfolding size_line
size_line-le l n h = size_digits-le l false 0 n (omega arith) h

size_done-IsBounded :
    (d : ChunkDecoder) (l : Bytes)
    → d.remaining ≤ max_body_len
    → IsBounded (size_done d (size_line l))
size_done-IsBounded d l h = elim (Option-cases (size_line l)) [
  | inl e ↦ rw e (record { remaining_le = h; line_le = omega arith; ready = λ m. cc })
  | inr (n, e) ↦ rw e (ground (arith, size_line-le l n))
]

step_in-IsBounded :
    (m : St) (d : ChunkDecoder) (c : ℕ) → d.st ≡ m → IsBounded d → IsBounded (step_in m d c).0
unfolding step_in
step_in-IsBounded size d c m v =
    let line = d.line ++ c ∷ [] in
    let n = length line - 2 in
    elim (Bool-cases (ltb 64 (length line))) [
      | inl long ↦ rw long (ground (arith, length-append d.line (c ∷ [])))
      | inr short ↦ elim (Bool-cases (ends_crlf line)) [
        | inl whole ↦
            rw (short, whole)
              (size_done-IsBounded (record d { line = line }) (take n line) v.remaining_le)
        | inr open_line ↦ rw (short, open_line) (ground arith)
      ]
    ]
step_in-IsBounded _ d c m v = ground (arith, length-append d.line (c ∷ []))

run-IsBounded : (s : Bytes) (d : ChunkDecoder) → IsBounded d → IsBounded (run d s).0
unfolding run
run-IsBounded [] d v = v
run-IsBounded (c ∷ s) d v = elim (Bool-cases (is_ended d.st)) [
  | inl e ↦ rw (e, run) v
  | inr e ↦ rw (e, run) (run-IsBounded s (step d c).0 (step_in-IsBounded d.st d c refl v))
]

length-step_in : (m : St) (d : ChunkDecoder) (c : ℕ) → length (step_in m d c).1 ≤ 1
unfolding step_in
length-step_in size d c = ground arith
length-step_in _ d c = ground arith

length-output : (s : Bytes) (d : ChunkDecoder) → length (run d s).2 + length (run d s).1 ≤ length s
unfolding run
length-output [] d = omega arith
length-output (c ∷ s) d = elim (Bool-cases (is_ended d.st)) [
  | inl e ↦ rw (e, run) (omega arith)
  | inr e ↦
      rw (e, run)
        (omega (
          arith,
          length-output s (step d c).0,
          length-step_in d.st d c,
          length-append (step d c).1 (run (step d c).0 s).2,
        ))
]

-- From a bounded decoder, whatever the input: the decoder stays bounded (at most 16 MiB of a
-- chunk still to come, at most 64 bytes of a size line and 32 KiB of a trailer held), the output
-- is no longer than the input, and the bytes counted as taken are no more than the input's.
pub feed-IsBounded :
    (d : ChunkDecoder) (s : Bytes)
    → IsBounded d
    → IsBounded (feed d s).0
      × (length (feed d s).1 ≤ length s)
      × ((feed d s).0.consumed ≤ d.consumed + length s)
feed-IsBounded d s v =
    let b = run-IsBounded s d v in
    rw (feed-counted d s v.ready) (
      record { remaining_le = b.remaining_le; line_le = b.line_le; ready = b.ready },
      omega (arith, length-output s d),
      ground (arith, length-output s d),
    )
