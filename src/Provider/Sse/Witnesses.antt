-- ===== src/Provider/Sse/Witnesses.antt =====
-- The theorems on the reader of server-sent events at inputs that meet their hypotheses, and its runs.
use mathlib.Core.List.{flatten}
use llmbridge.Base.{◌≡◌, refl, true, false, some, List, [], ◌∷◌, ◌++◌}
use llmbridge.Base.Bytes.{Bytes, codes, crlf, cr, lf, find_byte, same, is_empty}
use llmbridge.Provider.Sse.{
  SseFrameReader, reset, feed, holds_cr, add_data, line_length, data_value, pause, past_end,
  use_line, line_found, take_line, round, next_loop, next, drain, read_events,
}
use llmbridge.Provider.Sse.Bytewise.{reads, capped}
use llmbridge.Provider.Sse.Follows.{text_of}
use llmbridge.Provider.Sse.Drain.{outcome, read_events-reads}
use llmbridge.Provider.Sse.Parts.{read_parts, read_parts-flatten}
use llmbridge.Provider.Sse.Framed.{all_fit, stream_of, read_events-stream_of}

abbrev new_reader : SseFrameReader
new_reader = record {
  rest = [];
  line = [];
  kept = [];
  view = [];
  viewing = false;
  have = false;
  line_owned = false;
  skip_lf = false;
  has_cr = false;
  stopped = false;
  failed = false;
}

-- An event of two lines with a comment between them, cut inside a line and inside a pair.
abbrev pieces : List Bytes
pieces =
    (codes "data: a" ++ crlf ++ codes ": x" ++ cr ∷ [])
    ∷ (lf ∷ codes "dat")
    ∷ (codes "a:b" ++ lf ∷ lf ∷ codes "da")
    ∷ []

pieces_read : (read_parts pieces (reset new_reader)).0 ≡ (codes "a" ++ lf ∷ codes "b") ∷ []
unfolding read_parts read_events drain next next_loop round take_line line_found use_line past_end
    pause data_value add_data line_length feed holds_cr find_byte same is_empty
pieces_read = refl

pieces_good : (read_parts pieces (reset new_reader)).1 ≡ true
unfolding read_parts read_events drain next next_loop round take_line line_found use_line past_end
    pause data_value add_data line_length feed holds_cr find_byte same is_empty
pieces_good = refl

read_parts-flatten_example :
    outcome (read_parts pieces (reset new_reader))
    ≡ outcome (read_events (flatten pieces) (reset new_reader))
read_parts-flatten_example = read_parts-flatten pieces new_reader pieces_good

read_events-reads_example :
    outcome (read_events (flatten pieces) new_reader)
    ≡ capped (reads (text_of new_reader) (flatten pieces))
read_events-reads_example =
    read_events-reads (flatten pieces) new_reader (record { good = refl; going = refl })

abbrev two_events : List Bytes
two_events = codes "{\"type\":\"ping\"}" ∷ codes "[DONE]" ∷ []

two_events_fit : all_fit two_events ≡ true
unfolding all_fit
two_events_fit = refl

read_events-stream_of_example :
    outcome (read_events (stream_of two_events) (reset new_reader))
    ≡ (two_events, some (text_of (reset new_reader)))
read_events-stream_of_example = read_events-stream_of two_events new_reader two_events_fit
