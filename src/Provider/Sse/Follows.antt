-- ===== src/Provider/Sse/Follows.antt =====
-- A round of `SseFrameReader::next` against the bytes in turn.
use llmbridge.Base.{
  ℕ, ◌≡◌, ◌⊎◌, refl, ap, sym, ◌∙◌, Bool, true, false, not, ◌||◌, [], ◌∷◌, ◌++◌, Option, none, some,
  ltb, ◌==◌, if◌then◌else◌, Option-cases, inl, inr, length, take, drop, arith,
}
use llmbridge.Base.Bytes.{Bytes, cr, is_empty}
use llmbridge.Provider.Sse.{
  SseFrameReader, event, more, fail, Round, again, returned, max_event, holds_cr, held, add_data,
  data_value, dropped, paired, pause, past_end, use_line, line_found, take_line, round,
}
use llmbridge.Provider.Sse.Bytewise.{Text, Reading, grown, onto, line_end, reads, capped}
use llmbridge.Provider.Sse.Rounds.{
  to_end, line_length-to_end, holds_cr-drop, drop-to_end, reads-plain, end_then, reads-end,
  reads-pair, reads-no_pair,
}

abbrev pub open_line : SseFrameReader → Bytes
open_line r = if r.line_owned then [] else r.line

abbrev pub open_data : SseFrameReader → Option Bytes
open_data r = if r.have then some (held r) else none

-- What the reader has read of the text that is unfinished.
unfoldable pub text_of : SseFrameReader → Text
text_of r = record { line = open_line r; pair = r.skip_lf; so_far = open_data r }

-- What the reader will have read at the end of the feed.
unfoldable pub reading : SseFrameReader → Reading
reading r = capped (reads (text_of r) r.rest)

unfoldable pub after_round : Round → Reading
after_round (again q) = reading q
after_round (returned (event d) q) = onto d (reading q)
after_round (returned more q) = ([], some (text_of q))
after_round (returned fail q) = ([], none)

capped-onto : (d : Bytes) (x : Reading) → capped (onto d x) ≡ onto d (capped x)
capped-onto d (events, none) = refl
capped-onto d (events, some t) = refl

reading-dropped : (r : SseFrameReader) → reading (dropped r) ≡ reading r
unfolding reading text_of
reading-dropped r = ground arith

-- A text is empty, or begins with a byte.
pub rest-cases : (s : Bytes) → (s ≡ []) ⊎ ((c : ℕ) × (t : Bytes) × (s ≡ c ∷ t))
rest-cases [] = inl refl
rest-cases (c ∷ t) = inr (c, t, refl)

reading-paired : (r : SseFrameReader) → r.line_owned ≡ false → reading (paired r) ≡ reading r
unfolding reading text_of
reading-paired r h = elim (rest-cases r.rest) [
  | inl e ↦ ground (arith, h, e)
  | inr (c, s, e) ↦
      let pair = reads-pair s r.line (open_data r) in
      let other = reads-no_pair r.skip_lf c s r.line (open_data r) in
      ground (arith, h, e, pair, other)
]

after-pause :
    (r : SseFrameReader) → r.line_owned ≡ false → r.rest ≡ [] → reading r ≡ after_round (pause r)
unfolding reading text_of after_round pause reads
after-pause r h e = ground (arith, h, e)

held-add_data :
    (value : Bytes) (in_place : Bool) (r : SseFrameReader)
    → held (add_data value in_place r).0 ≡ grown (open_data r) value
unfolding add_data
held-add_data value in_place r = ground arith

short-add_data :
    (value : Bytes) (in_place : Bool) (r : SseFrameReader)
    → (add_data value in_place r).1 ≡ ltb (length (grown (open_data r) value)) max_event
unfolding add_data
short-add_data value in_place r =
    ap (λ d. ltb (length d) max_event) (held-add_data value in_place r)

open_data-add_data :
    (value : Bytes) (in_place : Bool) (r : SseFrameReader)
    → open_data (add_data value in_place r).0 ≡ some (grown (open_data r) value)
open_data-add_data value in_place r =
    let e = held-add_data value in_place r in
    let h : (add_data value in_place r).0.have ≡ true = unfold add_data in ground arith in
    rw (h, e) refl

reading-add_data :
    (value : Bytes) (in_place : Bool) (r : SseFrameReader)
    → open_line r ≡ []
    → reading (add_data value in_place r).0
      ≡ capped (
          reads
            (record { line = []; pair = r.skip_lf; so_far = some (grown (open_data r) value) })
            r.rest)
unfolding reading text_of
reading-add_data value in_place r h =
    let e = open_data-add_data value in_place r in
    let l : open_line (add_data value in_place r).0 ≡ [] = unfold add_data in ground (arith, h) in
    let k : (add_data value in_place r).0.skip_lf ≡ r.skip_lf = unfold add_data in ground arith in
    let t : (add_data value in_place r).0.rest ≡ r.rest = unfold add_data in ground arith in
    cc (e, l, k, t)

-- The end of the line `line`, for a reader that holds no other part of one.
after-use_line :
    (line s : Bytes) (pair : Bool) (r : SseFrameReader)
    → open_line r ≡ []
    → ((so_far : Option Bytes)
        → reads (record { line = []; pair = pair; so_far = so_far }) s
          ≡ reads (record { line = []; pair = r.skip_lf; so_far = so_far }) r.rest)
    → capped (end_then (line_end line pair (open_data r)) s) ≡ after_round (use_line line r)
unfolding after_round reading text_of use_line line_end end_then
after-use_line line s pair r h e =
    let same_rest = e (open_data r) in
    let cleared = e none in
    let event_rest =
      capped-onto (held r) (reads (record { line = []; pair = pair; so_far = none }) s) in
    elim (Option-cases (data_value line)) [
      | inl none_there ↦ ground (arith, h, none_there, same_rest, event_rest, cleared)
      | inr (value, there) ↦
          let longer = e (some (grown (open_data r) value)) in
          let added = reading-add_data value (not r.line_owned) r h in
          let short = short-add_data value (not r.line_owned) r in
          ground (arith, h, there, same_rest, event_rest, cleared, longer, added, short)
    ]

reads-past_end :
    (c : ℕ) (s : Bytes) (r : SseFrameReader) (so_far : Option Bytes)
    → r.skip_lf ≡ false
    → reads (record { line = []; pair = c == cr; so_far = so_far }) s
      ≡ reads
          (record { line = []; pair = (past_end c s r).skip_lf; so_far = so_far })
          (past_end c s r).rest
unfolding past_end
reads-past_end c [] r so_far h = ground (arith, h)
reads-past_end c (d ∷ t) r so_far h =
    let pair = reads-pair t [] so_far in
    let other = reads-no_pair (c == cr) d t [] so_far in ground (arith, h, pair, other)

-- All but the position is as before.
past_end-keeps :
    (c : ℕ) (s : Bytes) (r : SseFrameReader)
    → ((past_end c s r).line ≡ r.line)
      × ((past_end c s r).line_owned ≡ r.line_owned)
      × (open_data (past_end c s r) ≡ open_data r)
unfolding past_end
past_end-keeps c [] r = (refl, refl, refl)
past_end-keeps c (d ∷ t) r = (ground arith, ground arith, ground arith)

after-line_found :
    (text s : Bytes) (pair : Bool) (r : SseFrameReader)
    → r.line_owned ≡ false
    → ((so_far : Option Bytes)
        → reads (record { line = []; pair = pair; so_far = so_far }) s
          ≡ reads (record { line = []; pair = r.skip_lf; so_far = so_far }) r.rest)
    → capped (end_then (line_end (r.line ++ text) pair (open_data r)) s)
      ≡ after_round (line_found text r)
unfolding line_found is_empty
after-line_found text s pair r h e = elim (rest-cases r.line) [
  | inl no_line ↦
      let clear : open_line r ≡ [] = ground (arith, h, no_line) in
      let used = after-use_line text s pair r clear e in
      let all : r.line ++ text ≡ text = ap (λ l. l ++ text) no_line in
      ground (arith, no_line, all, used)
  | inr (d, t, line) ↦
      let q : SseFrameReader = record r { line = r.line ++ text; line_owned = true } in
      let used = after-use_line (r.line ++ text) s pair q refl e in ground (arith, line, used)
]

after-take_line :
    (r : SseFrameReader)
    → r.line_owned ≡ false
    → r.skip_lf ≡ false
    → (r.has_cr || not (holds_cr r.rest)) ≡ true
    → reading r ≡ after_round (take_line r)
unfolding take_line reading text_of
after-take_line r h n c =
    let k = to_end r.rest in
    let len = line_length-to_end r.has_cr r.rest c in
    let plain = reads-plain r.rest r.line (open_data r) in
    let whole : SseFrameReader = record r { line = r.line ++ take k r.rest; rest = [] } in
    let start : reading r
        ≡ capped (
            reads (record { line = r.line ++ take k r.rest; pair = false; so_far = open_data r })
              (drop k r.rest)) =
      rw (h, n) (ap capped plain) in
    elim (rest-cases (drop k r.rest)) [
      | inl ends ↦
          let paused = after-pause whole h refl in ground (arith, h, n, len, start, ends, paused)
      | inr (d, t, there) ↦
          let end =
            reads-end d t (r.line ++ take k r.rest) (open_data r) (drop-to_end r.rest t d there) in
          let q = past_end d t r in
          let (line, owned, data_kept) = past_end-keeps d t r in
          let found =
            after-line_found (take k r.rest) t (d == cr) q (owned ∙ h)
              (λ so_far. reads-past_end d t r so_far n) in
          ground (arith, h, n, len, start, there, end, line, owned, data_kept, found)
    ]

after-pair :
    (r : SseFrameReader)
    → r.line_owned ≡ false
    → (is_empty r.rest || not r.skip_lf) ≡ true
    → (r.has_cr || not (holds_cr r.rest)) ≡ true
    → reading r ≡ after_round (if is_empty r.rest || r.skip_lf then pause r else take_line r)
unfolding is_empty
after-pair r h p c = elim (rest-cases r.rest) [
  | inl e ↦ ground (arith, e, after-pause r h e)
  | inr (d, t, e) ↦
      let n : r.skip_lf ≡ false = ground (arith, e, p) in
      ground (arith, e, n, after-take_line r h n c)
]

paired-line_owned : (r : SseFrameReader) → (paired r).line_owned ≡ r.line_owned
paired-line_owned r = elim (rest-cases r.rest) [
  | inl e ↦ ground (arith, e)
  | inr (d, t, e) ↦ ground (arith, e)
]

paired-skip_lf : (r : SseFrameReader) → (is_empty (paired r).rest || not (paired r).skip_lf) ≡ true
unfolding is_empty
paired-skip_lf r = elim (rest-cases r.rest) [
  | inl e ↦ ground (arith, e)
  | inr (d, t, e) ↦ ground (arith, e)
]

pub paired-has_cr :
    (r : SseFrameReader)
    → (r.has_cr || not (holds_cr r.rest)) ≡ true
    → ((paired r).has_cr || not (holds_cr (paired r).rest)) ≡ true
paired-has_cr r h = elim (rest-cases r.rest) [
  | inl e ↦ ground (arith, e, h)
  | inr (d, t, e) ↦ let behind = holds_cr-drop 1 r.rest in ground (arith, e, h, behind)
]

-- A round keeps what the reader will have read.
pub after-round :
    (r : SseFrameReader)
    → (r.has_cr || not (holds_cr r.rest)) ≡ true
    → reading r ≡ after_round (round r)
unfolding round
after-round r c =
    let d = dropped r in
    let owned : d.line_owned ≡ false = ground arith in
    let c' : (d.has_cr || not (holds_cr d.rest)) ≡ true = ground (arith, c) in
    sym (reading-paired d owned ∙ reading-dropped r)
    ∙ after-pair (paired d) (paired-line_owned d ∙ owned) (paired-skip_lf d) (paired-has_cr d c')
