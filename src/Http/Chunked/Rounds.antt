-- ===== src/Http/Chunked/Rounds.antt =====
-- The rounds of `ChunkDecoder::feed`, whose inner loops take many bytes, are runs of the machine.
use llmbridge.Base.{
  ℕ, zero, suc, ◌-◌, ◌≤◌, ◌<◌, ◌≡◌, refl, ap, sym, ◌∙◌, false, [], ◌∷◌, ◌++◌, ltb, ◌==◌,
  if◌then◌else◌, Bool-cases, inl, inr, length, take, drop, min, take_all, drop_all, length-drop,
  tests, arith,
}
use llmbridge.Base.Bytes.{Bytes}
use llmbridge.Http.Chunked.{
  St, size, part, part_crlf, trailer, done, failed, ChunkDecoder, Fed, read_size, read_crlf,
  read_trailer, read_part, feed_state, is_ended, feed_loop,
}
use llmbridge.Http.Chunked.Machine.{step_in, emit, run, IsReady}

abbrev go_on : ChunkDecoder × Bytes → Fed
go_on (d, rest) = run d rest

run-size : (s : Bytes) (d : ChunkDecoder) → d.st ≡ size → run d s ≡ go_on (read_size d s)
unfolding run read_size step_in is_ended
run-size [] d m = refl
run-size (c ∷ s) d m = ground (arith, run-size s (record d { line = d.line ++ c ∷ [] }))

run-part_crlf : (s : Bytes) (d : ChunkDecoder) → d.st ≡ part_crlf → run d s ≡ go_on (read_crlf d s)
unfolding run read_crlf step_in is_ended
run-part_crlf [] d m = refl
run-part_crlf (c ∷ s) d m = ground (arith, run-part_crlf s (record d { line = d.line ++ c ∷ [] }))

run-trailer : (s : Bytes) (d : ChunkDecoder) → d.st ≡ trailer → run d s ≡ go_on (read_trailer d s)
unfolding run read_trailer step_in is_ended
run-trailer [] d m = refl
run-trailer (c ∷ s) d m = ground (
  arith,
  run-trailer s (record d { line = d.line ++ c ∷ [] }),
  run-trailer s (record d { line = [] }),
)

-- The state after `n` of the remaining bytes.
abbrev partly : ChunkDecoder → ℕ → ChunkDecoder
partly d n = record d {
  remaining = d.remaining - n;
  st = if d.remaining - n == 0 then part_crlf else part;
}

take-min : (n : ℕ) (s : Bytes) → take (min n (length s)) s ≡ take n s
take-min n s = elim (Bool-cases (ltb n (length s))) [
  | inl lt ↦ ap (λ k. take k s) (omega tests)
  | inr ge ↦
      ap (λ k. take k s) (omega tests)
      ∙ take_all (length s) s (omega arith)
      ∙ sym (take_all n s (omega tests))
]

drop-min : (n : ℕ) (s : Bytes) → drop (min n (length s)) s ≡ drop n s
drop-min n s = elim (Bool-cases (ltb n (length s))) [
  | inl lt ↦ ap (λ k. drop k s) (omega tests)
  | inr ge ↦
      ap (λ k. drop k s) (omega tests)
      ∙ drop_all (length s) s (omega arith)
      ∙ sym (drop_all n s (omega tests))
]

run-part_by :
    (s : Bytes) (r : ℕ) (d : ChunkDecoder)
    → d.st ≡ part
    → d.remaining ≡ suc r
    → run d s ≡ emit (take (suc r) s) (run (partly d (min (suc r) (length s))) (drop (suc r) s))
unfolding run step_in is_ended
run-part_by [] r d m h = ground arith
run-part_by (c ∷ s) zero d m h = ground arith
run-part_by (c ∷ s) (suc r) d m h =
    ground (arith, run-part_by s r (record d { remaining = suc r; st = part }))

length-read_size : (s : Bytes) (d : ChunkDecoder) → length (read_size d s).1 ≤ length s
unfolding read_size
length-read_size [] d = omega arith
length-read_size (c ∷ s) d =
    ground (arith, length-read_size s (record d { line = d.line ++ c ∷ [] }))

length-read_size_cons :
    (c : ℕ) (s : Bytes) (d : ChunkDecoder) → length (read_size d (c ∷ s)).1 ≤ length s
unfolding read_size
length-read_size_cons c s d =
    ground (arith, length-read_size s (record d { line = d.line ++ c ∷ [] }))

length-read_crlf : (s : Bytes) (d : ChunkDecoder) → length (read_crlf d s).1 ≤ length s
unfolding read_crlf
length-read_crlf [] d = omega arith
length-read_crlf (c ∷ s) d =
    ground (arith, length-read_crlf s (record d { line = d.line ++ c ∷ [] }))

length-read_crlf_cons :
    (c : ℕ) (s : Bytes) (d : ChunkDecoder) → length (read_crlf d (c ∷ s)).1 ≤ length s
unfolding read_crlf
length-read_crlf_cons c s d =
    ground (arith, length-read_crlf s (record d { line = d.line ++ c ∷ [] }))

length-read_trailer : (s : Bytes) (d : ChunkDecoder) → length (read_trailer d s).1 ≤ length s
unfolding read_trailer
length-read_trailer [] d = omega arith
length-read_trailer (c ∷ s) d = ground (
  arith,
  length-read_trailer s (record d { line = d.line ++ c ∷ [] }),
  length-read_trailer s (record d { line = [] }),
)

length-read_trailer_cons :
    (c : ℕ) (s : Bytes) (d : ChunkDecoder) → length (read_trailer d (c ∷ s)).1 ≤ length s
unfolding read_trailer
length-read_trailer_cons c s d = ground (
  arith,
  length-read_trailer s (record d { line = d.line ++ c ∷ [] }),
  length-read_trailer s (record d { line = [] }),
)

read_size-IsReady : (s : Bytes) (d : ChunkDecoder) → d.st ≡ size → IsReady (read_size d s).0
unfolding read_size
read_size-IsReady [] d m = ground arith
read_size-IsReady (c ∷ s) d m =
    ground (arith, read_size-IsReady s (record d { line = d.line ++ c ∷ [] }))

read_crlf-IsReady : (s : Bytes) (d : ChunkDecoder) → d.st ≡ part_crlf → IsReady (read_crlf d s).0
unfolding read_crlf
read_crlf-IsReady [] d m = ground arith
read_crlf-IsReady (c ∷ s) d m =
    ground (arith, read_crlf-IsReady s (record d { line = d.line ++ c ∷ [] }))

read_trailer-IsReady :
    (s : Bytes) (d : ChunkDecoder) → d.st ≡ trailer → IsReady (read_trailer d s).0
unfolding read_trailer
read_trailer-IsReady [] d m = ground arith
read_trailer-IsReady (c ∷ s) d m = ground (
  arith,
  read_trailer-IsReady s (record d { line = d.line ++ c ∷ [] }),
  read_trailer-IsReady s (record d { line = [] }),
)

run-part :
    (s : Bytes) (d : ChunkDecoder)
    → d.st ≡ part
    → 0 < d.remaining
    → run d s ≡ emit (read_part d s).2 (run (read_part d s).0 (read_part d s).1)
unfolding read_part
run-part s d m h =
    let e : d.remaining ≡ suc (d.remaining - 1) = omega arith in
    rw (take-min d.remaining s, drop-min d.remaining s)
      (cc (run-part_by s (d.remaining - 1) d m e, e))

-- One round of `feed` takes a byte at least, leaves a ready decoder, and is a run of the machine.
record IsRound (d : ChunkDecoder) (c : ℕ) (s : Bytes) (f : Fed) : Type 0 where
  shorter : length f.1 ≤ length s
  ready : IsReady f.0
  runs : run d (c ∷ s) ≡ emit f.2 (run f.0 f.1)

emit-nil : (f : Fed) → emit [] f ≡ f
emit-nil f = refl

feed_state-IsRound :
    (m : St) (d : ChunkDecoder) (c : ℕ) (s : Bytes)
    → d.st ≡ m
    → IsReady d
    → is_ended m ≡ false
    → IsRound d c s (feed_state m d (c ∷ s))
unfolding feed_state is_ended
feed_state-IsRound size d c s m r e = record {
  shorter = length-read_size_cons c s d;
  ready = read_size-IsReady (c ∷ s) d m;
  runs = run-size (c ∷ s) d m;
}
feed_state-IsRound part_crlf d c s m r e = record {
  shorter = length-read_crlf_cons c s d;
  ready = read_crlf-IsReady (c ∷ s) d m;
  runs = run-part_crlf (c ∷ s) d m;
}
feed_state-IsRound trailer d c s m r e = record {
  shorter = length-read_trailer_cons c s d;
  ready = read_trailer-IsReady (c ∷ s) d m;
  runs = run-trailer (c ∷ s) d m;
}
feed_state-IsRound part d c s m r e = record {
  shorter = omega (arith, r m, length-drop (min d.remaining (suc (length s))) (c ∷ s));
  ready = ground arith;
  runs = run-part (c ∷ s) d m (r m);
}
feed_state-IsRound done d c s m r e = cc
feed_state-IsRound failed d c s m r e = cc

feed_loop-run :
    (fuel : ℕ) (d : ChunkDecoder) (s : Bytes)
    → length s < fuel
    → IsReady d
    → feed_loop fuel d s ≡ run d s
unfolding feed_loop
feed_loop-run zero d s h r = elim h [ ]
feed_loop-run (suc fuel) d [] h r = unfold run in refl
feed_loop-run (suc fuel) d (c ∷ s) h r = elim (Bool-cases (is_ended d.st)) [
  | inl e ↦ unfold run in ground arith
  | inr e ↦
      let round = feed_state-IsRound d.st d c s refl r e in
      let f = feed_state d.st d (c ∷ s) in
      let ih = feed_loop-run fuel f.0 f.1 (omega (arith, round.shorter)) round.ready in
      ground (arith, ih, round.runs)
]

pub feed-run : (d : ChunkDecoder) (s : Bytes) → IsReady d → feed_loop (suc (length s)) d s ≡ run d s
feed-run d s r = feed_loop-run (suc (length s)) d s (omega arith) r
