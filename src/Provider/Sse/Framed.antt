-- ===== src/Provider/Sse/Framed.antt =====
-- Events as a writer frames them, and what the reader makes of them.
use llmbridge.Base.{
  ◌<◌, ◌≡◌, refl, ap, sym, ◌∙◌, Bool, true, false, ◌&&◌, List, [], ◌∷◌, ◌++◌, append_assoc,
  append-nil, Option, none, some, ltb, length, arith,
}
use llmbridge.Base.Bytes.{Bytes, codes, lf, no_crlf, is_empty, same}
use llmbridge.Provider.Sse.{SseFrameReader, reset, read_events, max_event, data_value}
use llmbridge.Provider.Sse.Bytewise.{Text, passed, onto, is_end, line_end, reads, capped}
use llmbridge.Provider.Sse.Rounds.{plain_byte, end_then, reads-end}
use llmbridge.Provider.Sse.Follows.{text_of}
use llmbridge.Provider.Sse.Drain.{IsOpen, outcome, read_events-reads}

-- An event of one line, and a stream of them.
abbrev pub framed : Bytes → Bytes
framed d = codes "data: " ++ (d ++ lf ∷ lf ∷ [])

unfoldable pub stream_of : List Bytes → Bytes
stream_of [] = []
stream_of (d ∷ ds) = framed d ++ stream_of ds

-- Of each, that it is one line and short enough.
unfoldable pub all_fit : List Bytes → Bool
all_fit [] = true
all_fit (d ∷ ds) = no_crlf d && ltb (length d) max_event && all_fit ds

reads-line :
    (s rest line : Bytes) (so_far : Option Bytes)
    → no_crlf s ≡ true
    → reads (record { line = line; pair = false; so_far = so_far }) (s ++ rest)
      ≡ reads (record { line = line ++ s; pair = false; so_far = so_far }) rest
reads-line [] rest line so_far h =
    ap (λ l. reads (record { line = l; pair = false; so_far = so_far }) rest)
      (sym (append-nil line))
reads-line (c ∷ s) rest line so_far h =
    let plain : is_end c ≡ false = ground (arith, h) in
    let ih = reads-line s rest (line ++ c ∷ []) so_far (ground (arith, h)) in
    plain_byte c (s ++ rest) line so_far plain
    ∙ ih
    ∙ ap (λ l. reads (record { line = l; pair = false; so_far = so_far }) rest)
        (append_assoc line (c ∷ []) s)

data_value-framed : (d : Bytes) → data_value (codes "data: " ++ d) ≡ some d
unfolding data_value same is_empty
data_value-framed d = ground arith

abbrev fresh : Text
fresh = record { line = []; pair = false; so_far = none }

reads-framed :
    (d rest : Bytes)
    → no_crlf d ≡ true
    → length d < max_event
    → reads fresh (framed d ++ rest) ≡ onto d (reads fresh rest)
reads-framed d rest h n =
    let assoc : framed d ++ rest ≡ (codes "data: " ++ d) ++ (lf ∷ lf ∷ rest) =
      ap (λ x. codes "data: " ++ x) (append_assoc d (lf ∷ lf ∷ []) rest) in
    let line = reads-line (codes "data: " ++ d) (lf ∷ lf ∷ rest) [] none h in
    let end = reads-end lf (lf ∷ rest) (codes "data: " ++ d) none refl in
    let empty = reads-end lf rest [] (some d) refl in
    let first : line_end (codes "data: " ++ d) false none
        ≡ passed (record { line = []; pair = false; so_far = some d }) =
      unfold line_end is_empty in ground (arith, data_value-framed d, n) in
    ap (reads fresh) assoc
    ∙ line
    ∙ end
    ∙ ap (λ x. end_then x (lf ∷ rest)) first
    ∙ unfold end_then in empty ∙ unfold end_then line_end is_empty in refl

reads-stream_of :
    (ds : List Bytes) → all_fit ds ≡ true → reads fresh (stream_of ds) ≡ (ds, some fresh)
unfolding all_fit stream_of
reads-stream_of [] h = unfold reads in refl
reads-stream_of (d ∷ ds) h =
    let fits : length d < max_event = ground (arith, h) in
    reads-framed d (stream_of ds) (ground (arith, h)) fits
    ∙ ap (onto d) (reads-stream_of ds (ground (arith, h)))

-- A fresh reader hands out the events of a stream that consists of events of one line, each framed
-- as `data: `, its bytes and an empty line, and keeps nothing, if each is shorter than 4 MiB.
pub read_events-stream_of :
    (ds : List Bytes) (r : SseFrameReader)
    → all_fit ds ≡ true
    → outcome (read_events (stream_of ds) (reset r)) ≡ (ds, some (text_of (reset r)))
read_events-stream_of ds r h =
    let o : IsOpen (reset r) = record { good = refl; going = refl } in
    read_events-reads (stream_of ds) (reset r) o
    ∙ unfold text_of in (ap capped (reads-stream_of ds h) ∙ refl)
