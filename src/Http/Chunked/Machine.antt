-- ===== src/Http/Chunked/Machine.antt =====
-- `ChunkDecoder::feed` as a machine that takes one byte at a time, with no inner loops.
use llmbridge.Base.{
  ℕ, ◌-◌, ◌≤◌, ◌<◌, ◌≡◌, refl, ap, sym, ◌∙◌, true, false, [], ◌∷◌, ◌++◌, append_assoc, ltb, ◌==◌,
  if◌then◌else◌, Bool-cases, ◌⊎◌, inl, inr, length, take, arith,
}
use llmbridge.Base.Bytes.{Bytes, crlf, same}
use llmbridge.Http.Request.{max_header_len}
use llmbridge.Http.Chunked.{
  St, size, part, part_crlf, trailer, done, failed, ChunkDecoder, fail, Fed, ends_crlf, size_done,
  size_line, is_ended,
}

-- One byte in one state: the decoder behind it, and the bytes put out.
unfoldable pub step_in : St → ChunkDecoder → ℕ → ChunkDecoder × Bytes
step_in size d c =
    let line = d.line ++ c ∷ [] in
    if ltb 64 (length line)
    then (fail (record d { line = line }), [])
    else if ends_crlf line
    then (size_done (record d { line = line }) (size_line (take (length line - 2) line)), [])
    else (record d { line = line }, [])
step_in part d c = (
  record d { remaining = d.remaining - 1; st = if d.remaining == 1 then part_crlf else part },
  c ∷ [],
)
step_in part_crlf d c =
    let line = d.line ++ c ∷ [] in
    if length line == 2
    then (if same line crlf
        then (record d { line = []; st = size }, [])
        else (fail (record d { line = line }), []))
    else (record d { line = line }, [])
step_in trailer d c =
    let line = d.line ++ c ∷ [] in
    if ltb max_header_len (length line)
    then (fail (record d { line = line }), [])
    else if ends_crlf line
    then (if length line == 2
        then (record d { line = []; st = done }, [])
        else (record d { line = [] }, []))
    else (record d { line = line }, [])
step_in done d c = (d, [])
step_in failed d c = (d, [])

abbrev pub step : ChunkDecoder → ℕ → ChunkDecoder × Bytes
step d c = step_in d.st d c

abbrev pub emit : Bytes → Fed → Fed
emit o (d, left, out) = (d, left, o ++ out)

unfoldable pub run : ChunkDecoder → Bytes → Fed
run d [] = (d, [], [])
run d (c ∷ s) = elim (is_ended d.st) [
  | true ↦ (d, c ∷ s, [])
  | false ↦ let (d', o) = step d c in emit o (run d' s)
]

-- In the state `part` some byte of the chunk is still to come.
abbrev pub IsReady : ChunkDecoder → Type 0
IsReady d = d.st ≡ part → 0 < d.remaining

pub run-IsReady : (s : Bytes) (d : ChunkDecoder) → IsReady d → IsReady (run d s).0
unfolding run step_in
run-IsReady [] d r = r
run-IsReady (c ∷ s) d r = ground (arith, run-IsReady s (step d c).0)

-- What is left is left by a decoder that has ended.
pub run-is_ended :
    (s : Bytes) (d : ChunkDecoder) → ((run d s).1 ≡ []) ⊎ (is_ended (run d s).0.st ≡ true)
unfolding run
run-is_ended [] d = inl refl
run-is_ended (c ∷ s) d = ground (arith, run-is_ended s (step d c).0)

-- More bytes reach the decoder only if it took all the ones before.
abbrev pub resume : Fed → Bytes → Fed
resume (d, [], out) b = emit out (run d b)
resume (d, c ∷ s, out) b = (d, c ∷ (s ++ b), out)

resume-emit : (o : Bytes) (f : Fed) (b : Bytes) → resume (emit o f) b ≡ emit o (resume f b)
resume-emit o (d, [], out) b = ap (λ x. ((run d b).0, (run d b).1, x)) (append_assoc o out _)
resume-emit o (d, c ∷ s, out) b = refl

pub run-append : (a b : Bytes) (d : ChunkDecoder) → run d (a ++ b) ≡ resume (run d a) b
unfolding run
run-append [] b d = refl
run-append (c ∷ a) b d = elim (Bool-cases (is_ended d.st)) [
  | inl e ↦ ground arith
  | inr e ↦
      rw (e, run) (ap (emit (step d c).1) (run-append a b (step d c).0) ∙ sym (resume-emit _ _ b))
]

step_in-consumed :
    (m : St) (d : ChunkDecoder) (c k : ℕ)
    → step_in m (record d { consumed = k }) c
      ≡ (record ((step_in m d c).0) { consumed = k }, (step_in m d c).1)
unfolding step_in
step_in-consumed size d c k = ground arith
step_in-consumed _ d c k = ground arith

-- The machine neither reads nor writes the count of the bytes taken.
pub run-consumed :
    (s : Bytes) (d : ChunkDecoder) (k : ℕ)
    → run (record d { consumed = k }) s
      ≡ (record ((run d s).0) { consumed = k }, (run d s).1, (run d s).2)
unfolding run
run-consumed [] d k = refl
run-consumed (c ∷ s) d k =
    ground (arith, run-consumed s (step d c).0 k, step_in-consumed d.st d c k)

pub length-run : (s : Bytes) (d : ChunkDecoder) → length (run d s).1 ≤ length s
unfolding run
length-run [] d = omega arith
length-run (c ∷ s) d = ground (arith, length-run s (step d c).0)

pub run_ended : (s : Bytes) (d : ChunkDecoder) → is_ended d.st ≡ true → run d s ≡ (d, s, [])
unfolding run
run_ended [] d h = refl
run_ended (c ∷ s) d h = rw (h, run)
