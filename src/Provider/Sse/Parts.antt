-- ===== src/Provider/Sse/Parts.antt =====
-- A stream of events that arrives in parts.
use mathlib.Core.List.{flatten}
use llmbridge.Base.{
  ℕ, ◌≡◌, refl, ap, sym, ◌∙◌, Bool, true, false, ◌&&◌, List, [], ◌∷◌, ◌++◌, none, some, ltb, ◌==◌,
  if◌then◌else◌, Bool-cases, inl, inr, length, arith,
}
use llmbridge.Base.Bytes.{Bytes, cr, lf}
use llmbridge.Provider.Sse.{SseFrameReader, reset, read_events, max_line}
use llmbridge.Provider.Sse.Bytewise.{
  Text, Ended, passed, dispatched, over, Reading, onto, is_end, line_end, reads, capped,
}
use llmbridge.Provider.Sse.Follows.{text_of}
use llmbridge.Provider.Sse.Rounds.{end_then, reads-end, reads-no_pair}
use llmbridge.Provider.Sse.Drain.{IsOpen, outcome, read_events-IsOpen, read_events-reads}

-- Reads one after the other, up to one that fails.
unfoldable pub read_parts : List Bytes → SseFrameReader → List Bytes × Bool × SseFrameReader
read_parts [] r = ([], true, r)
read_parts (bytes ∷ parts) r =
    let (events, good, q) = read_events bytes r in
    let (more, ok, end) = read_parts parts q in
    if good then (events ++ more, ok, end) else (events, false, q)

-- What is read of more bytes behind a reading.
unfoldable then_reads : Reading → Bytes → Reading
then_reads (events, none) s = (events, none)
then_reads (events, some t) s = (events ++ (reads t s).0, (reads t s).1)

then_reads-onto :
    (d : Bytes) (x : Reading) (s : Bytes) → then_reads (onto d x) s ≡ onto d (then_reads x s)
unfolding then_reads
then_reads-onto d (events, none) s = refl
then_reads-onto d (events, some t) s = refl

end_then-append :
    (x : Ended) (s u : Bytes)
    → ((t : Text) → reads t (s ++ u) ≡ then_reads (reads t s) u)
    → end_then x (s ++ u) ≡ then_reads (end_then x s) u
unfolding end_then
end_then-append (passed t) s u rec = rec t
end_then-append (dispatched d t) s u rec =
    ap (onto d) (rec t) ∙ sym (then_reads-onto d (reads t s) u)
end_then-append over s u rec = unfold then_reads in refl

reads-skip :
    (t : Text) (c : ℕ) (s : Bytes)
    → (t.pair && c == lf) ≡ true
    → reads t (c ∷ s) ≡ reads (record t { pair = false }) s
unfolding reads
reads-skip t c s h = ground (arith, h)

reads-byte :
    (t : Text) (c : ℕ) (s : Bytes)
    → (t.pair && c == lf) ≡ false
    → is_end c ≡ false
    → reads t (c ∷ s) ≡ reads (record t { line = t.line ++ c ∷ []; pair = false }) s
unfolding reads
reads-byte t c s h n = ground (arith, h, n)

reads-append : (t : Text) (s u : Bytes) → reads t (s ++ u) ≡ then_reads (reads t s) u
reads-append t [] u = unfold reads then_reads in refl
reads-append t (c ∷ s) u =
    let skipped = reads-append (record t { pair = false }) s u in
    let plain = reads-append (record t { line = t.line ++ c ∷ []; pair = false }) s u in
    elim (Bool-cases (t.pair && c == lf)) [
      | inl e ↦
          reads-skip t c (s ++ u) e ∙ skipped ∙ ap (λ x. then_reads x u) (sym (reads-skip t c s e))
      | inr e ↦ elim (Bool-cases (is_end c)) [
        | inr n ↦
            reads-byte t c (s ++ u) e n
            ∙ plain
            ∙ ap (λ x. then_reads x u) (sym (reads-byte t c s e n))
        | inl n ↦
            let ends = λ (w : Bytes).
              (reads-no_pair t.pair c w t.line t.so_far e ∙ reads-end c w t.line t.so_far n) in
            let rec =
              end_then-append (line_end t.line (c == cr) t.so_far) s u (λ v. reads-append v s u) in
            ends (s ++ u) ∙ rec ∙ ap (λ x. then_reads x u) (sym (ends s))
      ]
    ]

-- A reading with no line that is too long.
capped-some :
    (x : Reading) (events : List Bytes) (t : Text)
    → capped x ≡ (events, some t)
    → (x ≡ (events, some t)) × (ltb max_line (length t.line) ≡ false)
capped-some (es, none) events t h = ground (arith, h)
capped-some (es, some u) events t h = (ground (arith, h), ground (arith, h))

capped-onto_all :
    (events : List Bytes) (x : Reading)
    → capped (events ++ x.0, x.1) ≡ (events ++ (capped x).0, (capped x).1)
capped-onto_all events (es, none) = refl
capped-onto_all events (es, some t) = refl

capped-then :
    (events : List Bytes) (t : Text) (s : Bytes)
    → capped (then_reads (events, some t) s)
      ≡ (events ++ (capped (reads t s)).0, (capped (reads t s)).1)
unfolding then_reads
capped-then events t s = capped-onto_all events (reads t s)

-- The parts are read as their bytes together.
read_parts-reads :
    (parts : List Bytes) (r : SseFrameReader)
    → IsOpen r
    → ltb max_line (length (text_of r).line) ≡ false
    → (read_parts parts r).1 ≡ true
    → outcome (read_parts parts r) ≡ capped (reads (text_of r) (flatten parts))
read_parts-reads [] r o short h = unfold read_parts outcome reads flatten in rw short refl
read_parts-reads (bytes ∷ parts) r o short h =
    let p = read_events bytes r in
    let good : p.1 ≡ true = unfold read_parts in ground (arith, h) in
    let e : capped (reads (text_of r) bytes) ≡ (p.0, some (text_of (p.2))) =
      sym (read_events-reads bytes r o) ∙ unfold outcome in ground (arith, good) in
    let (read, fits) = capped-some (reads (text_of r) bytes) p.0 (text_of (p.2)) e in
    let later : (read_parts parts p.2).1 ≡ true = unfold read_parts in ground (arith, h) in
    let ih = read_parts-reads parts p.2 (read_events-IsOpen bytes r o good) fits later in
    let together : reads (text_of r) (bytes ++ flatten parts)
        ≡ then_reads (p.0, some (text_of (p.2))) (flatten parts) =
      reads-append (text_of r) bytes (flatten parts)
      ∙ ap (λ x. then_reads x (flatten parts)) read in
    let whole = ap capped together ∙ capped-then p.0 (text_of (p.2)) (flatten parts) in
    let rest : outcome (read_parts (bytes ∷ parts) r)
        ≡ (p.0 ++ (outcome (read_parts parts p.2)).0, (outcome (read_parts parts p.2)).1) =
      unfold read_parts outcome in ground (arith, good) in
    rest ∙ ap (λ x. (p.0 ++ x.0, x.1)) ih ∙ sym whole ∙ unfold flatten in refl

-- A stream of events that arrives in parts, however it is cut: if no part makes a fresh reader
-- fail, one read of the whole stream does not fail, gives the same events in the same order, and
-- keeps the same line, event and half of a pair for the next read.
pub read_parts-flatten :
    (parts : List Bytes) (r : SseFrameReader)
    → (read_parts parts (reset r)).1 ≡ true
    → outcome (read_parts parts (reset r)) ≡ outcome (read_events (flatten parts) (reset r))
read_parts-flatten parts r h =
    let o : IsOpen (reset r) = record { good = refl; going = refl } in
    read_parts-reads parts (reset r) o (unfold text_of in refl) h
    ∙ sym (read_events-reads (flatten parts) (reset r) o)
