-- ===== src/Provider/Sse.antt =====
-- `SseFrameReader` (provider/include/provider/sse.hpp, provider/src/sse.cpp). What `_in` holds from
-- `_at` on is `rest`, and `_data` is `kept`.
pub mod Bytewise
pub mod Rounds
pub mod Follows
pub mod Advances
pub mod Drain
pub mod Parts
pub mod Framed
pub mod Translate
mod Witnesses
use llmbridge.Base.{
  ℕ, zero, suc, ◌+◌, ◌^◌, ◌*◌, Bool, true, false, not, ◌&&◌, ◌||◌, List, [], ◌∷◌, ◌++◌, Option,
  none, some, ltb, ◌==◌, if◌then◌else◌, length, take, drop, get_or,
}
use llmbridge.Base.Bytes.{Bytes, codes, cr, lf, find_byte, same, is_empty}

pub record SseFrameReader : Type 0 where
  pub rest : Bytes
  pub line : Bytes
  pub kept : Bytes
  pub view : Bytes
  pub viewing : Bool
  pub have : Bool
  pub line_owned : Bool
  pub skip_lf : Bool
  pub has_cr : Bool
  pub stopped : Bool
  pub failed : Bool

abbrev pub max_line : ℕ
max_line = 2 ^ 20

abbrev pub max_event : ℕ
max_event = 4 * 2 ^ 20

-- `Step`, with the data of an event.
pub data Step : Type 0 where
  event : Bytes → Step
  more fail : Step

abbrev pub reset : SseFrameReader → SseFrameReader
reset r = record r {
  rest = [];
  line = [];
  kept = [];
  view = [];
  viewing = false;
  have = false;
  line_owned = false;
  skip_lf = false;
  stopped = false;
  failed = false;
}

abbrev pub stop : SseFrameReader → SseFrameReader
stop r = record r { stopped = true }

unfoldable pub holds_cr : Bytes → Bool
holds_cr s = elim (find_byte cr s) [ none ↦ false | some i ↦ true ]

unfoldable pub feed : Bytes → SseFrameReader → SseFrameReader
feed bytes r = record r { rest = bytes; has_cr = holds_cr bytes }

abbrev pub failing : SseFrameReader → SseFrameReader
failing r = record r { failed = true; line = []; kept = [] }

-- `_data`, where it was a view.
abbrev pub settle : SseFrameReader → SseFrameReader
settle r = if r.viewing then record r { kept = r.view; viewing = false } else r

-- `_viewing ? _view : _data`
abbrev pub held : SseFrameReader → Bytes
held r = if r.viewing then r.view else r.kept

abbrev joined : Bytes → SseFrameReader → SseFrameReader
joined value r = record r { kept = (r.kept ++ lf ∷ []) ++ value }

abbrev first_data : Bytes → Bool → SseFrameReader → SseFrameReader
first_data value in_place r =
    if in_place
    then record r { have = true; viewing = true; view = value }
    else record r { have = true; viewing = false; kept = value }

-- The reader, and whether the event is short enough.
unfoldable pub add_data : Bytes → Bool → SseFrameReader → SseFrameReader × Bool
add_data value in_place r =
    let q = if not r.have then first_data value in_place r else joined value (settle r) in
    (q, ltb (length (held q)) max_event)

-- The position that a search found, or `n`.
abbrev pub found_or : Option ℕ → ℕ → ℕ
found_or none n = n
found_or (some k) n = k

-- Where the line ends that begins at the text, or how long the text is.
unfoldable pub line_length : Bool → Bytes → ℕ
line_length has_cr s =
    let to_lf = found_or (find_byte lf s) (length s) in
    if has_cr then found_or (find_byte cr (take to_lf s)) to_lf else to_lf

-- The value of a `data` field without the space before it.
unfoldable pub data_value : Bytes → Option Bytes
data_value line =
    let value = drop (if ltb 4 (length line) then 5 else 4) line in
    if ltb (length line) 4
      || not (same (take 4 line) (codes "data"))
      || (ltb 4 (length line) && not (get_or line 4 0 == b':'))
    then none
    else if not (is_empty value) && get_or value 0 0 == b' '
    then some (drop 1 value)
    else some value

-- What a round of the loop of `next` does: it goes on, or it returns.
pub data Round : Type 0 where
  again : SseFrameReader → Round
  returned : Step → SseFrameReader → Round

abbrev pub dropped : SseFrameReader → SseFrameReader
dropped r = if r.line_owned then record r { line = []; line_owned = false } else r

-- The line feed of a pair that the last feed cut.
abbrev pub paired : SseFrameReader → SseFrameReader
paired r = elim (r.rest) [
  | [] ↦ r
  | c ∷ s ↦
      if r.skip_lf
      then (if c == lf
          then record r { rest = s; skip_lf = false }
          else record r { skip_lf = false })
      else r
]

-- Behind the loop.
unfoldable pub pause : SseFrameReader → Round
pause r =
    if ltb max_line (length (r.line)) then returned fail (failing r) else returned more (settle r)

-- Behind a line's end `c`, with the text behind it.
unfoldable pub past_end : ℕ → Bytes → SseFrameReader → SseFrameReader
past_end c s r = elim s [
  | [] ↦ record r { rest = []; skip_lf = r.skip_lf || c == cr }
  | d ∷ t ↦ if c == cr && d == lf then record r { rest = t } else record r { rest = d ∷ t }
]

-- The reader is behind the line.
unfoldable pub use_line : Bytes → SseFrameReader → Round
use_line line r =
    if is_empty line
    then (if not r.have then again r else returned (event (held r)) (record r { have = false }))
    else elim (data_value line) [
      | none ↦ again r
      | some value ↦
          let (q, short) = add_data value (not r.line_owned) r in
          if short then again q else returned fail (failing q)
    ]

-- A line's end was found behind `text`.
unfoldable pub line_found : Bytes → SseFrameReader → Round
line_found text r =
    if is_empty (r.line)
    then use_line text r
    else use_line (r.line ++ text) (record r { line = r.line ++ text; line_owned = true })

unfoldable pub take_line : SseFrameReader → Round
take_line r =
    let k = line_length r.has_cr r.rest in
    elim (drop k r.rest) [
      | [] ↦ pause (record r { line = r.line ++ take k r.rest; rest = [] })
      | c ∷ s ↦ line_found (take k r.rest) (past_end c s r)
    ]

unfoldable pub round : SseFrameReader → Round
round r =
    let q = paired (dropped r) in if is_empty q.rest || q.skip_lf then pause q else take_line q

-- A round takes a byte or is the last, so one more than the bytes left is fuel enough.
unfoldable pub next_loop : ℕ → SseFrameReader → Step × SseFrameReader
next_loop zero r = (fail, r)
next_loop (suc fuel) r = elim (round r) [ again q ↦ next_loop fuel q | returned step q ↦ (step, q) ]

unfoldable pub next : SseFrameReader → Step × SseFrameReader
next r =
    if r.failed
    then (fail, r)
    else if r.stopped
    then (more, r)
    else next_loop (length (r.rest) + 1) r

-- The loop of its callers: the events in turn, and whether it ended without failing.
unfoldable pub drain : ℕ → SseFrameReader → List Bytes × Bool × SseFrameReader
drain zero r = ([], false, r)
drain (suc fuel) r =
    let (step, q) = next r in
    let (events, good, end) = drain fuel q in
    elim step [ event d ↦ (d ∷ events, good, end) | more ↦ ([], true, q) | fail ↦ ([], false, q) ]

-- What the bytes of one read give.
unfoldable pub read_events : Bytes → SseFrameReader → List Bytes × Bool × SseFrameReader
read_events bytes r = drain (length bytes + 1) (feed bytes r)
