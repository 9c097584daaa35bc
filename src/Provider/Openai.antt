-- ===== src/Provider/Openai.antt =====
-- The writer of OpenAI's response objects (`Envelope`, `merge_stated`, `finish_name`:
-- provider/include/provider/openai.hpp, provider/src/openai.cpp; `append_sanitized`:
-- provider/src/openai_common.hpp). A count that is not stated, -1 there, is `none`.
use llmbridge.Base.{
  ℕ, ◌+◌, ◌/◌, ◌%◌, Bool, true, false, List, [], ◌∷◌, ◌++◌, Option, none, some, ltb, leb,
  if◌then◌else◌, not,
}
use llmbridge.Base.Bytes.{Bytes, codes, is_empty}
use llmbridge.Http.Write.{append_decimal}
use llmbridge.Provider.Json.Escape.{hex_char}

abbrev pub Count : Type 0
Count = Option ℕ

pub record HeldAttempt : Type 0 where
  pub in_tokens : ℕ
  pub cached : ℕ
  pub cache_write : ℕ
  pub index : ℕ

-- A `Word` is its bytes, and `prior_held` the first `prior_held_n` of its slots.
pub record Usage : Type 0 where
  pub in_tokens : Count
  pub out : Count
  pub cached : Count
  pub cache_write : Count
  pub cache_write_5m : Count
  pub cache_write_1h : Count
  pub reasoning : Count
  pub audio_in : Count
  pub audio_out : Count
  pub accepted_prediction : Count
  pub rejected_prediction : Count
  pub tool_prompt : Count
  pub image_in : Count
  pub web_search : Count
  pub web_fetch : Count
  pub code_exec : Count
  pub file_search : Count
  pub venue_cost_pdollars : Count
  pub compaction_in : Count
  pub compaction_out : Count
  pub compaction_cached : Count
  pub prior_in : Count
  pub prior_out : Count
  pub prior_cached : Count
  pub prior_cache_write : Count
  pub prior_attempts : Count
  pub prior_billed : Count
  pub prior_unverified : Count
  pub prior_model : Bytes
  pub prior_held : List HeldAttempt
  pub speed : Bytes
  pub inference_geo : Bytes

abbrev pub no_usage : Usage
no_usage = record {
  in_tokens = none;
  out = none;
  cached = none;
  cache_write = none;
  cache_write_5m = none;
  cache_write_1h = none;
  reasoning = none;
  audio_in = none;
  audio_out = none;
  accepted_prediction = none;
  rejected_prediction = none;
  tool_prompt = none;
  image_in = none;
  web_search = none;
  web_fetch = none;
  code_exec = none;
  file_search = none;
  venue_cost_pdollars = none;
  compaction_in = none;
  compaction_out = none;
  compaction_cached = none;
  prior_in = none;
  prior_out = none;
  prior_cached = none;
  prior_cache_write = none;
  prior_attempts = none;
  prior_billed = none;
  prior_unverified = none;
  prior_model = [];
  prior_held = [];
  speed = [];
  inference_geo = [];
}

pub data Shape : Type 0 where
  completion chunk : Shape

pub data Finish : Type 0 where
  stop length tool_calls content_filter error : Finish

unfoldable pub finish_name : Finish → Option Bytes
finish_name stop = some (codes "stop")
finish_name length = some (codes "length")
finish_name tool_calls = some (codes "tool_calls")
finish_name content_filter = some (codes "content_filter")
finish_name error = none

-- The loop of `append_sanitized`; `run` is the clean run from `start` on.
unfoldable pub sanitize_loop : Bytes → Bytes → Bytes → Bytes
sanitize_loop out run [] = out ++ run
sanitize_loop out run (c ∷ s) =
    let clean = sanitize_loop out (run ++ c ∷ []) s in
    let flushed =
      ((out ++ run) ++ codes "\\u00") ++ hex_char (c / 16 % 16) ∷ hex_char (c % 16) ∷ [] in
    let neutral = sanitize_loop flushed [] s in if leb 0x20 c then clean else neutral

unfoldable pub append_sanitized : Bytes → Bytes → Bytes
unfolding sanitize_loop
append_sanitized out raw = sanitize_loop out [] raw

-- `Envelope`: its constructor, its operations, and `close`.
unfoldable pub envelope : Bytes → Shape → Bytes → Bytes → Bytes → Bytes
envelope out shape id created model =
    let named = (out ++ codes "{\"id\":\"") ++ id in
    let of_shape : Bytes = elim shape [
      | chunk ↦ named ++ codes "\",\"object\":\"chat.completion.chunk\",\"created\":"
      | completion ↦ named ++ codes "\",\"object\":\"chat.completion\",\"created\":"
    ] in
    let modelled = ((of_shape ++ created) ++ codes ",\"model\":\"") ++ model in
    modelled ++ codes "\",\"choices\":["

unfoldable pub choice : Bytes → Shape → Bytes
choice out chunk = out ++ codes "{\"index\":0,\"delta\":{"
choice out completion = out ++ codes "{\"index\":0,\"message\":{"

unfoldable pub end_choice : Bytes → Bytes → Bytes
end_choice out finish =
    if is_empty finish
    then out ++ codes "},\"finish_reason\":null}"
    else ((out ++ codes "},\"finish_reason\":\"") ++ finish) ++ codes "\"}"

abbrev pub stated : Count → ℕ
stated none = 0
stated (some n) = n

-- `u->cached > 0`
unfoldable pub close_cached : Bytes → Count → Bytes
close_cached out cached =
    if ltb 0 (stated cached)
    then append_decimal (out ++ codes ",\"prompt_tokens_details\":{\"cached_tokens\":")
        (stated cached)
      ++ codes "}"
    else out

unfoldable pub close_reasoning : Bytes → Count → Bytes
close_reasoning out none = out
close_reasoning out (some n) =
    append_decimal (out ++ codes ",\"completion_tokens_details\":{\"reasoning_tokens\":") n
    ++ codes "}"

unfoldable pub close : Bytes → Option Usage → Bool → Count → Bytes
unfolding close_cached close_reasoning
close out none usage_null total =
    if usage_null
    then (out ++ codes "]") ++ codes ",\"usage\":null}"
    else (out ++ codes "]") ++ codes "}"
close out (some u) usage_null total =
    let prompt =
      append_decimal ((out ++ codes "]") ++ codes ",\"usage\":{\"prompt_tokens\":")
        (stated u.in_tokens) in
    let both = append_decimal (prompt ++ codes ",\"completion_tokens\":") (stated u.out) in
    let sum : ℕ = elim total [ none ↦ stated u.in_tokens + stated u.out | some t ↦ t ] in
    let all = append_decimal (both ++ codes ",\"total_tokens\":") sum in
    close_reasoning (close_cached all u.cached) u.reasoning ++ codes "}}"

abbrev is_stated : Count → Bool
is_stated none = false
is_stated (some n) = true

-- The larger of two counts, the first that is stated, and the last.
abbrev pub grown : Count → Count → Count
grown a none = a
grown none (some n) = some n
grown (some m) (some n) = if ltb m n then some n else some m

abbrev pub first_of : Count → Count → Count
first_of none b = b
first_of (some m) b = some m

abbrev pub last_of : Count → Count → Count
last_of a none = a
last_of a (some n) = some n

abbrev pub first_word : Bytes → Bytes → Bytes
first_word a b = if is_empty a then b else a

unfoldable pub merge_stated : Usage → Usage → Usage
unfolding is_empty
merge_stated into u =
    let merged = record into {
      in_tokens = grown into.in_tokens u.in_tokens;
      cached = grown into.cached u.cached;
      cache_write = grown into.cache_write u.cache_write;
      image_in = grown into.image_in u.image_in;
      cache_write_5m = first_of into.cache_write_5m u.cache_write_5m;
      cache_write_1h = first_of into.cache_write_1h u.cache_write_1h;
      speed = first_word into.speed u.speed;
      inference_geo = first_word into.inference_geo u.inference_geo;
      out = last_of into.out u.out;
      reasoning = last_of into.reasoning u.reasoning;
      audio_in = last_of into.audio_in u.audio_in;
      audio_out = last_of into.audio_out u.audio_out;
      accepted_prediction = last_of into.accepted_prediction u.accepted_prediction;
      rejected_prediction = last_of into.rejected_prediction u.rejected_prediction;
      tool_prompt = last_of into.tool_prompt u.tool_prompt;
      web_search = last_of into.web_search u.web_search;
      web_fetch = last_of into.web_fetch u.web_fetch;
      code_exec = last_of into.code_exec u.code_exec;
      venue_cost_pdollars = last_of into.venue_cost_pdollars u.venue_cost_pdollars;
      compaction_in = last_of into.compaction_in u.compaction_in;
      compaction_out = last_of into.compaction_out u.compaction_out;
      compaction_cached = last_of into.compaction_cached u.compaction_cached;
    } in
    if not (is_stated u.prior_attempts) then merged else record merged {
      prior_in = u.prior_in;
      prior_out = u.prior_out;
      prior_cached = u.prior_cached;
      prior_cache_write = u.prior_cache_write;
      prior_attempts = u.prior_attempts;
      prior_billed = u.prior_billed;
      prior_unverified = u.prior_unverified;
      prior_held = u.prior_held;
      prior_model = u.prior_model;
    }
