-- ===== src/Provider/Sse/Bytewise.antt =====
-- The framing of server-sent events byte by byte: what `SseFrameReader` reads, with no position, no
-- view and no line that is kept.
use llmbridge.Base.{
  ℕ, Bool, false, not, ◌&&◌, ◌||◌, List, [], ◌∷◌, ◌++◌, Option, none, some, ltb, ◌==◌,
  if◌then◌else◌, length,
}
use llmbridge.Base.Bytes.{Bytes, cr, lf, is_empty}
use llmbridge.Provider.Sse.{max_event, max_line, data_value}

-- The line so far, whether a carriage return stands before it, and the data of the event so far.
pub record Text : Type 0 where
  pub line : Bytes
  pub pair : Bool
  pub so_far : Option Bytes

pub data Ended : Type 0 where
  passed : Text → Ended
  dispatched : Bytes → Text → Ended
  over : Ended

abbrev pub grown : Option Bytes → Bytes → Bytes
grown none value = value
grown (some d) value = (d ++ lf ∷ []) ++ value

-- At the end of a line, which a carriage return made or not.
unfoldable pub line_end : Bytes → Bool → Option Bytes → Ended
line_end line pair so_far =
    if is_empty line
    then (elim so_far [
      | none ↦ passed (record { line = []; pair = pair; so_far = none })
      | some d ↦ dispatched d (record { line = []; pair = pair; so_far = none })
    ])
    else elim (data_value line) [
      | none ↦ passed (record { line = []; pair = pair; so_far = so_far })
      | some value ↦
          if ltb (length (grown so_far value)) max_event
          then passed (record { line = []; pair = pair; so_far = some (grown so_far value) })
          else over
    ]

-- The events, and the text that is unfinished; none where an event was too long.
abbrev pub Reading : Type 0
Reading = List Bytes × Option Text

abbrev pub onto : Bytes → Reading → Reading
onto d (events, t) = (d ∷ events, t)

abbrev pub is_end : ℕ → Bool
is_end c = c == lf || c == cr

unfoldable pub reads : Text → Bytes → Reading
reads t [] = ([], some t)
reads t (c ∷ s) =
    let skipped = reads (record t { pair = false }) s in
    let plain = reads (record t { line = t.line ++ c ∷ []; pair = false }) s in
    if t.pair && c == lf
    then skipped
    else if not (is_end c)
    then plain
    else elim (line_end t.line (c == cr) t.so_far) [
      | passed u ↦ reads u s
      | dispatched d u ↦ onto d (reads u s)
      | over ↦ ([], none)
    ]

-- At the end of a feed, the limit of an unfinished line.
abbrev pub capped : Reading → Reading
capped (events, none) = (events, none)
capped (events, some t) = (events, (if ltb max_line (length t.line) then none else some t))
