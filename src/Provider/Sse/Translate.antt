-- ===== src/Provider/Sse/Translate.antt =====
-- The writing half of `AnthropicToOpenAiSse` (provider/include/provider/sse.hpp, provider/src/sse.cpp).
-- `created` is empty until it is stamped,
-- and a negative `created_secs` is `none`. `now` is the wall clock during a call.
pub mod Dispatch
pub mod Feed
pub mod Grammar
pub mod Writes
pub mod Live
pub mod Chunks
pub mod Ends
pub mod Events
pub mod Reads
pub mod Whole
pub mod Frames
pub mod Asked
pub mod Enough
mod Witnesses
use llmbridge.Base.{
  ℕ, zero, suc, ◌+◌, ◌-◌, ◌*◌, ◌^◌, Bool, true, false, not, ◌&&◌, ◌||◌, List, [], ◌∷◌, ◌++◌, Option,
  none, some, ltb, leb, ◌==◌, if◌then◌else◌, length, get_or,
}
use llmbridge.Base.Bytes.{Bytes, codes, same, is_empty}
use llmbridge.Http.Text.{is_digit}
use llmbridge.Http.Write.{append_decimal}
use llmbridge.Provider.Json.Tokens.{Value, null, boolean, number, string, array, object}
use llmbridge.Provider.Json.Parse.{parse}
use llmbridge.Provider.Json.Lookup.{find, str_or, num_or}
use llmbridge.Provider.Openai.{
  Usage, no_usage, chunk, Finish, stop, tool_calls, content_filter, error, finish_name,
  append_sanitized, envelope, choice, end_choice, close, stated, merge_stated,
}
use llmbridge.Provider.Openai
use llmbridge.Provider.Sse
use llmbridge.Provider.Sse.{SseFrameReader, Step, event, more, fail, next}

pub record Translator : Type 0 where
  pub frames : SseFrameReader
  pub failed : Bool
  pub block_tool_ord : List (Option ℕ)
  pub next_tool_ord : ℕ
  pub tool_open : Bool
  pub id : Bytes
  pub model : Bytes
  pub created : Bytes
  pub created_secs : Option ℕ
  pub finish : Option Bytes
  pub role_emitted : Bool
  pub content_started : Bool
  pub finish_emitted : Bool
  pub done : Bool
  pub include_usage : Bool
  pub usage_emitted : Bool
  pub usage : Usage

abbrev pub max_echo : ℕ
max_echo = 256

abbrev pub max_blocks : ℕ
max_blocks = 256

unfoldable pub reset : Option ℕ → Bool → Translator → Translator
reset created_secs include_usage t = record t {
  frames = Sse.reset t.frames;
  failed = false;
  block_tool_ord = [];
  next_tool_ord = 0;
  tool_open = false;
  id = codes "chatcmpl-llmbridge";
  model = [];
  created = [];
  created_secs = created_secs;
  finish = none;
  role_emitted = false;
  content_started = false;
  finish_emitted = false;
  done = false;
  include_usage = include_usage;
  usage_emitted = false;
  usage = no_usage;
}

-- `usage()`
abbrev pub usage_so_far : Translator → Usage
usage_so_far t = record (t.usage) {
  in_tokens = some (stated t.usage.in_tokens);
  out = some (stated t.usage.out);
  cached = some (stated t.usage.cached);
  cache_write = some (stated t.usage.cache_write);
}

abbrev pub seconds : ℕ → Option ℕ → ℕ
seconds now none = now
seconds now (some n) = n

unfoldable pub ensure_created : ℕ → Translator → Translator
unfolding is_empty
ensure_created now t =
    if is_empty t.created
    then record t { created = append_decimal [] (seconds now t.created_secs) }
    else t

-- The translator, and what was appended to `out`.
abbrev pub Writing : Type 0
Writing = Translator × Bytes

unfoldable pub emit_head : ℕ → Writing → Writing
unfolding ensure_created
emit_head now (t, out) =
    let u = ensure_created now t in
    (u, choice (envelope (out ++ codes "data: ") chunk u.id u.created u.model) chunk)

abbrev reason_or_empty : Option Bytes → Bytes
reason_or_empty none = []
reason_or_empty (some r) = r

unfoldable pub emit_tail : Option Bytes → Writing → Writing
emit_tail reason (t, out) =
    (t, close (end_choice out (reason_or_empty reason)) none t.include_usage none ++ codes "\n\n")

-- `out += s`
abbrev pub write : Bytes → Writing → Writing
write s (t, out) = (t, out ++ s)

abbrev pub write_sanitized : Bytes → Writing → Writing
write_sanitized s (t, out) = (t, append_sanitized out s)

unfoldable pub emit_usage : ℕ → Writing → Writing
unfolding ensure_created
emit_usage now (t, out) =
    let u = ensure_created now t in
    let body =
      close (envelope (out ++ codes "data: ") chunk u.id u.created u.model) (some (usage_so_far u))
        false none in
    if not t.include_usage || t.usage_emitted
    then (t, out)
    else (record u { usage_emitted = true }, body ++ codes "\n\n")

unfoldable pub emit_done : ℕ → Writing → Writing
unfolding emit_usage
emit_done now (t, out) =
    let (u, written) = emit_usage now (t, out) in
    if t.done then (t, out) else (record u { done = true }, written ++ codes "data: [DONE]\n\n")

-- `std::from_chars` on all of the text, where a negative number is `none` as well.
unfoldable pub digits_loop : ℕ → Bytes → Option ℕ
digits_loop v [] = some v
digits_loop v (c ∷ s) = if is_digit c then digits_loop (v * 10 + (c - b'0')) s else none

abbrev in_bound : ℕ → Option ℕ → Option ℕ
in_bound bound none = none
in_bound bound (some v) = if ltb v bound then some v else none

unfoldable pub block_index : Bytes → Option ℕ
unfolding digits_loop
block_index [] = none
block_index (c ∷ s) =
    if c == b'-'
    then (if is_empty s then none else in_bound 1 (digits_loop 0 s))
    else in_bound (2 ^ 63) (digits_loop 0 (c ∷ s))

abbrev pub parse_block_index : Value → Option ℕ
parse_block_index v = block_index (num_or (codes "index") [] v)

unfoldable pub default_finish : Translator → Bytes
default_finish t = if ltb 0 t.next_tool_ord then codes "tool_calls" else codes "stop"

-- `_block_tool_ord[i] = ord`, behind the `resize`.
unfoldable pub set_ord : ℕ → ℕ → List (Option ℕ) → List (Option ℕ)
set_ord zero ord [] = some ord ∷ []
set_ord zero ord (x ∷ xs) = some ord ∷ xs
set_ord (suc i) ord [] = none ∷ set_ord i ord []
set_ord (suc i) ord (x ∷ xs) = x ∷ set_ord i ord xs

unfoldable pub tool_ordinal_for : Option ℕ → Translator → Option ℕ
tool_ordinal_for none t = none
tool_ordinal_for (some i) t = if leb max_blocks i then none else get_or t.block_tool_ord i none

unfoldable pub emit_tool_open : ℕ → ℕ → Bytes → Bytes → Writing → Writing
unfolding emit_head emit_tail
emit_tool_open now ord id name w =
    let (t, out) = emit_head now w in
    let numbered = append_decimal (out ++ codes "\"tool_calls\":[{\"index\":") ord in
    let known = append_sanitized (numbered ++ codes ",\"id\":\"") id in
    let named =
      append_sanitized (known ++ codes "\",\"type\":\"function\",\"function\":{\"name\":\"") name in
    emit_tail none (t, named ++ codes "\",\"arguments\":\"\"}}]")

unfoldable pub emit_tool_args : ℕ → ℕ → Bytes → Writing → Writing
unfolding emit_head emit_tail
emit_tool_args now ord frag w =
    let (t, out) = emit_head now w in
    let numbered = append_decimal (out ++ codes "\"tool_calls\":[{\"index\":") ord in
    let known = append_sanitized (numbered ++ codes ",\"function\":{\"arguments\":\"") frag in
    let emitted = emit_tail none (t, known ++ codes "\"}}]") in if is_empty frag then w else emitted
