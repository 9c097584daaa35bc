-- ===== src/Http/Chunked/Pieces.antt =====
-- Runs of the decoder's machine over one piece of a chunked body: a size line, a payload, a trailer.
use llmbridge.Base.{
  ℕ, suc, ◌+◌, ◌-◌, ◌≤◌, ◌≡◌, refl, ap, ◌∙◌, Bool, true, false, ◌||◌, [], ◌∷◌, ◌++◌, append_assoc,
  append-nil, some, Option-cases, ◌*◌, if◌then◌else◌, inl, inr, length, get_or, take,
  take-length_append, length-append, ◌==◌, arith,
}
use llmbridge.Base.Bytes.{Bytes, cr, lf, same, no_crlf}
use llmbridge.Http.Request.{max_header_len}
use llmbridge.Http.Chunked.{
  size, part, part_crlf, trailer, done, ChunkDecoder, ends_crlf, hex_value, size_digits, size_line,
  size_done, extension_ok, skip_blanks, is_ended,
}
use llmbridge.Http.Chunked.Machine.{step_in, emit, run}

get_or-last : (xs : Bytes) (c d : ℕ) → get_or (xs ++ c ∷ []) (length xs) d ≡ c
get_or-last [] c d = refl
get_or-last (x ∷ xs) c d = get_or-last xs c d

length-concat : (xs : Bytes) (c : ℕ) → length (xs ++ c ∷ []) ≡ suc (length xs)
length-concat xs c = omega (arith, length-append xs (c ∷ []))

minus_one : (n : ℕ) → suc n - 1 ≡ n
minus_one n = omega arith

minus_two : (n : ℕ) → suc (suc n) - 2 ≡ n
minus_two n = omega arith

-- A line that does not end in LF does not end in CRLF.
ends_crlf-ne : (xs : Bytes) (c : ℕ) → (c == lf) ≡ false → ends_crlf (xs ++ c ∷ []) ≡ false
unfolding ends_crlf
ends_crlf-ne xs c h = rw (length-concat xs c, minus_one, get_or-last xs c 0) (ground arith)

get_or-butlast : (xs : Bytes) (c d e : ℕ) → get_or ((xs ++ c ∷ []) ++ d ∷ []) (length xs) e ≡ c
get_or-butlast [] c d e = refl
get_or-butlast (x ∷ xs) c d e = get_or-butlast xs c d e

length-line_crlf :
    (xs : Bytes) (c d : ℕ) → length ((xs ++ c ∷ []) ++ d ∷ []) ≡ suc (suc (length xs))
length-line_crlf xs c d = length-concat (xs ++ c ∷ []) d ∙ ap suc (length-concat xs c)

get_or-end : (xs : Bytes) (c d e : ℕ) → get_or ((xs ++ c ∷ []) ++ d ∷ []) (suc (length xs)) e ≡ d
get_or-end [] c d e = refl
get_or-end (x ∷ xs) c d e = get_or-end xs c d e

ends_crlf-crlf : (xs : Bytes) → ends_crlf ((xs ++ cr ∷ []) ++ lf ∷ []) ≡ true
unfolding ends_crlf
ends_crlf-crlf xs =
    simp (length-line_crlf, minus_one, minus_two, get_or-butlast, get_or-end) (ground arith)

take-line_crlf :
    (xs : Bytes) → take (length ((xs ++ cr ∷ []) ++ lf ∷ []) - 2) ((xs ++ cr ∷ []) ++ lf ∷ []) ≡ xs
take-line_crlf xs =
    rw (length-line_crlf, minus_two, append_assoc) (take-length_append xs (cr ∷ lf ∷ []))

hex_value-no_crlf : (h d : ℕ) → hex_value h ≡ some d → (h == cr || h == lf) ≡ false
unfolding hex_value
hex_value-no_crlf h d e = ground arith

-- In the state `size` a line with no CR and no LF is kept whole until its CRLF.
pub run-size_line :
    (l p s : Bytes) (d : ChunkDecoder)
    → d.st ≡ size
    → d.line ≡ p
    → no_crlf l ≡ true
    → length p + length l ≤ 62
    → run d (l ++ cr ∷ lf ∷ s)
      ≡ run
          (size_done (record d { line = ((p ++ l) ++ cr ∷ []) ++ lf ∷ [] }) (size_line (p ++ l)))
          s
unfolding run is_ended step_in
run-size_line [] p s d m e n h = ground (
  arith,
  ends_crlf-ne p cr refl,
  ends_crlf-crlf p,
  take-line_crlf p,
  length-line_crlf p cr lf,
  length-concat p cr,
  append-nil p,
)
run-size_line (c ∷ l) p s d m e n h =
    let d' = record d { line = p ++ c ∷ [] } in
    let ih =
      run-size_line l (p ++ c ∷ []) s d' m refl (ground arith) (omega (arith, length-concat p c)) in
    let one : run d (c ∷ (l ++ cr ∷ lf ∷ s)) ≡ run d' (l ++ cr ∷ lf ∷ s) =
      ground (arith, ends_crlf-ne p c, length-concat p c) in
    one ∙ rw (append_assoc p (c ∷ []) l) at ih

-- In the state `part` the payload is put out, up to the byte before the CRLF behind it.
pub run-payload :
    (p s : Bytes) (c : ℕ) (d : ChunkDecoder)
    → d.st ≡ part
    → d.remaining ≡ length (c ∷ p)
    → run d ((c ∷ p) ++ s) ≡ emit (c ∷ p) (run (record d { st = part_crlf; remaining = 0 }) s)
unfolding run is_ended step_in
run-payload [] s c d m e = ground arith
run-payload (b ∷ p) s c d m e =
    ground (arith, run-payload p s b (record d { remaining = length (b ∷ p) }))

pub run-part_end :
    (s : Bytes) (d : ChunkDecoder)
    → d.st ≡ part_crlf
    → d.line ≡ []
    → run d (cr ∷ lf ∷ s) ≡ run (record d { st = size }) s
unfolding run is_ended step_in same
run-part_end s d m e = ground arith

-- A trailer line is dropped.
pub run-trailer_line :
    (t p s : Bytes) (d : ChunkDecoder)
    → d.st ≡ trailer
    → d.line ≡ p
    → no_crlf t ≡ true
    → length p + length t + 2 ≤ max_header_len
    → run d (t ++ cr ∷ lf ∷ s)
      ≡ run (record d { line = []; st = if length (p ++ t) == 0 then done else trailer }) s
unfolding run is_ended step_in
run-trailer_line [] p s d m e n h = ground (
  arith,
  ends_crlf-ne p cr refl,
  ends_crlf-crlf p,
  length-line_crlf p cr lf,
  length-concat p cr,
  append-nil p,
)
run-trailer_line (c ∷ t) p s d m e n h =
    let d' = record d { line = p ++ c ∷ [] } in
    let ih =
      run-trailer_line t (p ++ c ∷ []) s d' m refl (ground arith)
        (omega (arith, length-concat p c)) in
    let one : run d (c ∷ (t ++ cr ∷ lf ∷ s)) ≡ run d' (t ++ cr ∷ lf ∷ s) =
      ground (arith, ends_crlf-ne p c, length-concat p c) in
    one ∙ rw (append_assoc p (c ∷ []) t) at ih

extension-no_crlf : (l : Bytes) → extension_ok (skip_blanks l) ≡ true → no_crlf l ≡ true
extension-no_crlf [] h = refl
extension-no_crlf (c ∷ l) h = ground (arith, extension-no_crlf l)

-- A size line that is accepted holds no CR and no LF.
pub size_digits-no_crlf :
    (l : Bytes) (b : Bool) (k n : ℕ) → size_digits b k l ≡ some n → no_crlf l ≡ true
unfolding size_digits
size_digits-no_crlf [] b k n h = refl
size_digits-no_crlf (c ∷ l) b k n h = elim (Option-cases (hex_value c)) [
  | inl e ↦ extension-no_crlf (c ∷ l) (ground arith)
  | inr (d, e) ↦ ground (arith, hex_value-no_crlf c d e, size_digits-no_crlf l true (k * 16 + d) n)
]
