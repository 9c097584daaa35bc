-- ===== src/Http/Chunked/Decode.antt =====
-- The decoder against the chunked encoding of RFC 9112: sizes, chunks, trailers.
use llmbridge.Base.{
  ℕ, ◌+◌, ◌-◌, ◌≤◌, ◌<◌, ◌≡◌, refl, ap, sym, ◌∙◌, true, false, List, [], ◌∷◌, ◌++◌, append_assoc,
  append-nil, some, length, length-append, arith,
}
use llmbridge.Base.Bytes.{Bytes, cr, lf, no_crlf}
use llmbridge.Http.Request.{max_header_len}
use llmbridge.Http.Chunked.{
  part, part_crlf, trailer, done, ChunkDecoder, new_decoder, Fed, size_line, is_ended, is_failed,
  feed,
}
use llmbridge.Http.Chunked.Machine.{emit, run, run_ended}
use llmbridge.Http.Chunked.Pieces.{
  run-size_line, run-payload, run-part_end, run-trailer_line, size_digits-no_crlf,
}
use llmbridge.Http.Chunked.Sizes.{IsSize, size_line-IsSize}
use llmbridge.Http.Chunked.Split.{feed-counted}

-- A chunk as a sender writes it: its size line, with any extension, and its payload.
pub record Chunk : Type 0 where
  pub size_text : Bytes
  pub first : ℕ
  pub others : Bytes

abbrev pub payload : Chunk → Bytes
payload k = k.first ∷ k.others

abbrev pub IsChunk : Chunk → Type 0
IsChunk k = IsSize k.size_text (length (payload k)) × (length k.size_text ≤ 62)

abbrev pub encode_chunk : Chunk → Bytes → Bytes
encode_chunk k rest = k.size_text ++ cr ∷ lf ∷ (payload k ++ cr ∷ lf ∷ rest)

abbrev pub encode_chunks : List Chunk → Bytes → Bytes
encode_chunks [] rest = rest
encode_chunks (k ∷ ks) rest = encode_chunk k (encode_chunks ks rest)

abbrev pub payloads : List Chunk → Bytes
payloads [] = []
payloads (k ∷ ks) = payload k ++ payloads ks

abbrev pub encode_trailers : List Bytes → Bytes → Bytes
encode_trailers [] rest = cr ∷ lf ∷ rest
encode_trailers (t ∷ ts) rest = t ++ cr ∷ lf ∷ encode_trailers ts rest

abbrev pub All {ℓ κ} : {A : Type ℓ} → (A → Type κ) → List A → Type κ
All P [] = Unit
All P (x ∷ xs) = P x × All P xs

abbrev pub IsTrailer : Bytes → Type 0
IsTrailer t = (no_crlf t ≡ true) × (length t + 2 ≤ max_header_len) × (0 < length t)

size_line-no_crlf : (l : Bytes) {n : ℕ} → size_line l ≡ some n → no_crlf l ≡ true
unfolding size_line
size_line-no_crlf l {n} h = size_digits-no_crlf l false 0 n h

run-chunk :
    (k : Chunk) (s : Bytes)
    → IsChunk k
    → run new_decoder (encode_chunk k s) ≡ emit (payload k) (run new_decoder s)
run-chunk k s h =
    let read = size_line-IsSize k.size_text (length (payload k)) h.0 in
    let sized =
      run-size_line k.size_text [] (payload k ++ cr ∷ lf ∷ s) new_decoder refl refl
        (size_line-no_crlf k.size_text read) (omega (arith, h.1)) in
    let open_part = record new_decoder { st = part; remaining = length (payload k) } in
    let closed = record new_decoder { st = part_crlf } in
    sized
    ∙ rw read (
        ground (arith, run-payload k.others (cr ∷ lf ∷ s) k.first open_part, run-part_end s closed))

emit-emit : (a b : Bytes) (f : Fed) → emit a (emit b f) ≡ emit (a ++ b) f
emit-emit a b f = ap (λ o. (f.0, f.1, o)) (sym (append_assoc a b f.2))

run-chunks :
    (ks : List Chunk) (s : Bytes)
    → All IsChunk ks
    → run new_decoder (encode_chunks ks s) ≡ emit (payloads ks) (run new_decoder s)
run-chunks [] s h = refl
run-chunks (k ∷ ks) s h =
    run-chunk k (encode_chunks ks s) h.0
    ∙ ap (emit (payload k)) (run-chunks ks s h.1)
    ∙ emit-emit (payload k) (payloads ks) (run new_decoder s)

run-trailers :
    (ts : List Bytes) (s : Bytes) (d : ChunkDecoder)
    → d.st ≡ trailer
    → d.line ≡ []
    → All IsTrailer ts
    → run d (encode_trailers ts s) ≡ run (record d { st = done; line = [] }) s
run-trailers [] s d m e h = run-trailer_line [] [] s d m e refl (omega arith)
run-trailers (t ∷ ts) s d m e h =
    run-trailer_line t [] (encode_trailers ts s) d m e h.0.0 (omega (arith, h.0.1))
    ∙ ground (arith, h.0.2, run-trailers ts s (record d { line = [] }))

-- A whole body: chunks, the last size line, trailers and the blank line.
abbrev pub encode : List Chunk → Bytes → List Bytes → Bytes → Bytes
encode ks last ts rest = encode_chunks ks (last ++ cr ∷ lf ∷ encode_trailers ts rest)

run-encode :
    (ks : List Chunk) (last : Bytes) (ts : List Bytes) (rest : Bytes)
    → All IsChunk ks
    → IsSize last 0
    → length last ≤ 62
    → All IsTrailer ts
    → run new_decoder (encode ks last ts rest)
      ≡ (record new_decoder { st = done }, rest, payloads ks)
unfolding is_ended
run-encode ks last ts rest h size b t =
    let z = size_line-IsSize last 0 size in
    let tail = encode_trailers ts rest in
    let ended = record new_decoder { st = trailer } in
    run-chunks ks (last ++ cr ∷ lf ∷ tail) h
    ∙ ap (emit (payloads ks)) (
        run-size_line last [] tail new_decoder refl refl (size_line-no_crlf last z) (omega arith)
        ∙ rw z (
            run-trailers ts rest ended refl refl t
            ∙ run_ended rest (record new_decoder { st = done }) refl))
    ∙ ap (λ o. (record new_decoder { st = done }, rest, o)) (append-nil (payloads ks))

encode_trailers-append :
    (ts : List Bytes) (a b : Bytes) → encode_trailers ts a ++ b ≡ encode_trailers ts (a ++ b)
encode_trailers-append [] a b = refl
encode_trailers-append (t ∷ ts) a b =
    append_assoc t _ b ∙ ap (λ s. t ++ cr ∷ lf ∷ s) (encode_trailers-append ts a b)

encode_chunks-append :
    (ks : List Chunk) (a b : Bytes) → encode_chunks ks a ++ b ≡ encode_chunks ks (a ++ b)
encode_chunks-append [] a b = refl
encode_chunks-append (k ∷ ks) a b =
    simp append_assoc
      (ap (λ s. k.size_text ++ cr ∷ lf ∷ (payload k ++ cr ∷ lf ∷ s)) (encode_chunks-append ks a b))

encode-append :
    (ks : List Chunk) (last : Bytes) (ts : List Bytes) (rest : Bytes)
    → encode ks last ts rest ≡ encode ks last ts [] ++ rest
encode-append ks last ts rest = sym (
    encode_chunks-append ks (last ++ cr ∷ lf ∷ encode_trailers ts []) rest
    ∙ ap (encode_chunks ks) (
        append_assoc last _ rest
        ∙ ap (λ s. last ++ cr ∷ lf ∷ s) (encode_trailers-append ts [] rest)))

-- A body in chunked encoding is decoded: chunks that are not empty, each behind a size line of
-- hexadecimal digits in either case that spell its length, at most 16 MiB, with blanks and an
-- extension behind them or none; then a size line of zero, and trailer lines. A size line has at most
-- 62 bytes, and a trailer line is not empty, has no CR or LF within, and with its CRLF at most the
-- 32 KiB of a header. The output is the payloads joined, the decoder is done, and what it took is the
-- body to its last byte and nothing of `rest`, the bytes behind.
pub feed-encode :
    (ks : List Chunk) (last : Bytes) (ts : List Bytes) (rest : Bytes)
    → All IsChunk ks
    → IsSize last 0
    → length last ≤ 62
    → All IsTrailer ts
    → feed new_decoder (encode ks last ts [] ++ rest) ≡ (
      record new_decoder { st = done; consumed = length (encode ks last ts []) },
      payloads ks,
      true,
    )
unfolding is_failed
feed-encode ks last ts rest h z b t =
    let body = encode ks last ts [] in
    let taken : 0 + (length (encode ks last ts rest) - length rest) ≡ length body =
      omega (arith, ap length (encode-append ks last ts rest), length-append body rest) in
    feed-counted new_decoder (body ++ rest) (λ m. cc)
    ∙ rw (← encode-append ks last ts rest, run-encode ks last ts rest h z b t)
        (ap (λ n. (record new_decoder { st = done; consumed = n }, payloads ks, true)) taken)
