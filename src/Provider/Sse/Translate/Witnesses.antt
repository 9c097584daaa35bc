-- ===== src/Provider/Sse/Translate/Witnesses.antt =====
-- The translator's theorems on a short reply.
use llmbridge.Base.{
  arith, if◌then◌else◌, ℕ, ◌≡◌, refl, Bool, true, false, List, [], ◌∷◌, ◌++◌, none, some,
}
use llmbridge.Base.Bytes.{Bytes, codes}
use llmbridge.Provider.Openai.{Usage, no_usage, envelope, choice, end_choice, close, finish_name}
use llmbridge.Provider.Sse
use llmbridge.Provider.Sse.Translate.{Translator, reset}
use llmbridge.Provider.Sse.Translate.{
  ensure_created, emit_head, emit_tail, emit_usage, emit_done, default_finish,
}
use llmbridge.Provider.Sse.Translate.Dispatch.{dispatch, on_event, on_message_stop, give_finish}
use llmbridge.Provider.Sse.Translate.Feed.{feed, heard, finish, feed_loop}
use llmbridge.Base.Bytes.{same, is_empty, find_byte}
use llmbridge.Provider.Json.Lookup.{find, str_or, find_member}
use llmbridge.Provider.Json.Parse.{
  parse, parse_value, skip_value, front, enter, member_value, close_keys,
}
use llmbridge.Provider.Json.Keys.{is_in, keys_fresh, no_bit_twice, key_bit}
use llmbridge.Http.Write.{append_decimal, decimal_onto}
use llmbridge.Provider.Json.Tokens.{ws, parse_string, scan_string, parse_value_scalar}
use llmbridge.Provider.Sse.{
  holds_cr, add_data, line_length, data_value, pause, past_end, use_line, line_found, take_line,
  round, next_loop, next,
}
use llmbridge.Provider.Sse.Translate.Grammar.{IsStream}
use llmbridge.Provider.Sse.Translate.Enough.{feed-enough}
use llmbridge.Provider.Sse.Translate.Whole.{feed_all, feed_all-IsStream, finish-IsWhole}

abbrev new_reader : Sse.SseFrameReader
new_reader = record {
  rest = [];
  line = [];
  kept = [];
  view = [];
  viewing = false;
  have = false;
  line_owned = false;
  skip_lf = false;
  has_cr = false;
  stopped = false;
  failed = false;
}

abbrev new_translator : Translator
new_translator = record {
  frames = new_reader;
  failed = false;
  block_tool_ord = [];
  next_tool_ord = 0;
  tool_open = false;
  id = codes "chatcmpl-llmbridge";
  model = [];
  created = [];
  created_secs = none;
  finish = none;
  role_emitted = false;
  content_started = false;
  finish_emitted = false;
  done = false;
  include_usage = false;
  usage_emitted = false;
  usage = no_usage;
}

-- No counts are read.
abbrev no_counts : Bytes → Usage
no_counts s = no_usage

abbrev stop_event : Bytes
stop_event = codes "data: {\"type\":\"message_stop\"}\n\n"

abbrev delta_event : Bytes
delta_event =
    codes
      "data: {\"type\":\"content_block_delta\",\"delta\":{\"type\":\"text_delta\",\"text\":\"hi\"}}\n\n"

abbrev finish_event : Bytes
finish_event =
    codes "data: {\"type\":\"message_delta\",\"delta\":{\"stop_reason\":\"end_turn\"}}\n\n"

-- The role, a text, the finish reason and the end, the last in two reads.
abbrev reads : List (ℕ × Bytes)
reads =
    (1, codes "data: {\"type\":\"message_start\"}\n\n" ++ delta_event)
    ∷ (2, finish_event)
    ∷ (3, codes "data: {\"type\":\"mess")
    ∷ (4, codes "age_stop\"}\n\n")
    ∷ []

abbrev short_reads : List (ℕ × Bytes)
short_reads = (3, codes "data: {\"type\":\"mess") ∷ (4, codes "age_stop\"}\n\n") ∷ []

feed_all-IsStream_example :
    let (t, out) = feed_all no_counts reads (reset (some 7) true new_translator, []) in
    IsStream true t.created t.role_emitted t.next_tool_ord t.finish_emitted t.done out
feed_all-IsStream_example = feed_all-IsStream no_counts (some 7) true new_translator reads

finish-IsWhole_example :
    let w = feed_all no_counts reads (reset (some 7) true new_translator, []) in
    let (whole, (t, out)) = finish 5 w in
    (whole ≡ true → IsStream true t.created t.role_emitted t.next_tool_ord true true out)
    × (whole ≡ false → out ≡ w.1)
finish-IsWhole_example = finish-IsWhole no_counts (some 7) true new_translator reads 5

gives_role_reason_and_end :
    let t = (feed_all no_counts reads (reset (some 7) true new_translator, [])).0 in
    let given : Bool × (Bool × Bool) = (t.role_emitted, (t.finish_emitted, t.done)) in
    given ≡ (true, (true, true))
unfolding feed_all reset feed feed_loop heard dispatch on_event on_message_stop give_finish
    emit_done emit_usage emit_head emit_tail ensure_created is_empty same str_or find find_member
    parse parse_value skip_value front enter ws parse_string scan_string parse_value_scalar Sse.feed
    holds_cr add_data line_length data_value pause past_end use_line line_found take_line round
    next_loop next find_byte member_value is_in close_keys keys_fresh append_decimal no_bit_twice
    key_bit finish_name
gives_role_reason_and_end = refl

what_the_client_reads :
    (feed_all no_counts short_reads (reset (some 7) false new_translator, [])).1
    ≡ codes
        "data: {\"id\":\"chatcmpl-llmbridge\",\"object\":\"chat.completion.chunk\",\"created\":7,\"model\":\"\",\"choices\":[{\"index\":0,\"delta\":{},\"finish_reason\":\"stop\"}]}\n\ndata: [DONE]\n\n"
unfolding feed_all reset feed feed_loop heard dispatch on_event on_message_stop give_finish
    emit_done emit_usage emit_head emit_tail ensure_created is_empty same str_or find find_member
    parse parse_value skip_value front enter ws parse_string scan_string parse_value_scalar Sse.feed
    holds_cr add_data line_length data_value pause past_end use_line line_found take_line round
    next_loop next find_byte member_value is_in close_keys keys_fresh append_decimal decimal_onto
    default_finish envelope choice end_choice close
what_the_client_reads = refl

feed-enough_example : feed no_counts 3 stop_event (new_translator, []) ≡ (
    if new_translator.failed
    then (false, (new_translator, []))
    else if new_translator.done
    then (true, (new_translator, []))
    else feed_loop no_counts 3 100
        (record new_translator { frames = Sse.feed stop_event new_translator.frames }, []))
feed-enough_example = feed-enough no_counts 3 100 stop_event new_translator [] (omega arith)
