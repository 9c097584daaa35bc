-- ===== src/Provider/Sse/Translate/Dispatch.antt =====
-- `dispatch` of `AnthropicToOpenAiSse` (provider/src/sse.cpp), and `finish_of` with
-- Anthropic's stop reasons (provider/src/registry.cpp). `usage_of` (provider/src/openai.cpp), which
-- reads the counts of a usage object, is a parameter.
use llmbridge.Base.{
  ℕ, ◌+◌, Bool, true, false, not, ◌||◌, List, [], ◌∷◌, Option, none, some, ltb, leb, if◌then◌else◌,
  length,
}
use llmbridge.Base.Bytes.{Bytes, codes, same, is_empty}
use llmbridge.Provider.Json.Tokens.{Value, null, boolean, number, string, array, object}
use llmbridge.Provider.Json.Parse.{parse}
use llmbridge.Provider.Json.Lookup.{find, str_or}
use llmbridge.Provider.Openai.{
  Usage, Finish, stop, tool_calls, content_filter, error, finish_name, append_sanitized,
  merge_stated,
}
use llmbridge.Provider.Openai
use llmbridge.Provider.Sse.Translate.{
  Translator, Writing, max_echo, max_blocks, ensure_created, emit_head, emit_tail, write,
  write_sanitized, emit_done, parse_block_index, default_finish, set_ord, tool_ordinal_for,
  emit_tool_open, emit_tool_args,
}

unfoldable pub finish_rule : List (Bytes × Finish) → Finish → Bytes → Finish
finish_rule [] default reason = default
finish_rule (rule ∷ rules) default reason =
    if same rule.0 reason then rule.1 else finish_rule rules default reason

abbrev pub anthropic_finish : List (Bytes × Finish)
anthropic_finish =
    (codes "end_turn", stop)
    ∷ (codes "stop_sequence", stop)
    ∷ (codes "pause_turn", stop)
    ∷ (codes "max_tokens", Openai.length)
    ∷ (codes "model_context_window_exceeded", Openai.length)
    ∷ (codes "tool_use", tool_calls)
    ∷ (codes "refusal", content_filter)
    ∷ []

unfoldable pub finish_of : Bytes → Finish
unfolding finish_rule
finish_of reason = finish_rule anthropic_finish stop reason

abbrev pub is_object : Value → Bool
is_object (object sv ms) = true
is_object _ = false

-- `sv`
abbrev pub span_of_value : Value → Bytes
span_of_value null = []
span_of_value (boolean b) = []
span_of_value (number sv) = sv
span_of_value (string sv) = sv
span_of_value (array sv vs) = sv
span_of_value (object sv ms) = sv

abbrev pub is_type : Bytes → Value → Bool
is_type name v = same (str_or (codes "type") [] v) name

-- `_finish ? _finish : default_finish()`
abbrev pub finish_or_default : Translator → Option Bytes
finish_or_default t = elim (t.finish) [ none ↦ some (default_finish t) | some r ↦ some r ]

-- The assistant's role, once.
unfoldable pub give_role : ℕ → Writing → Writing
unfolding emit_head emit_tail
give_role now (t, out) =
    let (u, written) =
      emit_tail none (write (codes "\"role\":\"assistant\"") (emit_head now (t, out))) in
    if t.role_emitted then (t, out) else (record u { role_emitted = true }, written)

-- The chunk with the finish reason, once.
unfoldable pub give_finish : ℕ → Option Bytes → Writing → Writing
unfolding emit_head emit_tail
give_finish now reason (t, out) =
    let (u, written) = emit_tail reason (emit_head now (t, out)) in
    if t.finish_emitted then (t, out) else (record u { finish_emitted = true }, written)

-- The sentinel of OpenAI streams as an event
unfoldable pub on_done : ℕ → Writing → Writing
unfolding give_finish emit_done
on_done now (t, out) =
    if t.tool_open then (t, out) else emit_done now (give_finish now (finish_or_default t) (t, out))

abbrev pub broken : Writing → Writing
broken (t, out) = (record t { failed = true }, out)

unfoldable pub on_text : ℕ → Value → Writing → Writing
unfolding give_role
on_text now d w =
    let opened = write (codes "\"content\":\"") (emit_head now (give_role now w)) in
    let (t, out) =
      emit_tail none (write (codes "\"") (write_sanitized (str_or (codes "text") [] d) opened)) in
    (record t { content_started = true }, out)

unfoldable pub on_arguments : ℕ → Value → Value → Writing → Writing
unfolding tool_ordinal_for
on_arguments now v d (t, out) = elim (tool_ordinal_for (parse_block_index v) t) [
  | none ↦ (t, out)
  | some ord ↦ emit_tool_args now ord (str_or (codes "partial_json") [] d) (t, out)
]

unfoldable pub on_content_delta : ℕ → Value → Writing → Writing
unfolding on_text on_arguments
on_content_delta now v w = elim (find (codes "delta") v) [
  | none ↦ w
  | some d ↦
      if is_type (codes "input_json_delta") d
      then on_arguments now v d w
      else if is_type (codes "text_delta") d
      then on_text now d w
      else w
]

-- The finish that the event states, or none.
unfoldable pub stated_finish : Value → Option Finish
unfolding finish_of is_empty
stated_finish v = elim (find (codes "delta") v) [
  | none ↦ none
  | some d ↦
      let reason = str_or (codes "stop_reason") [] d in
      if is_empty reason then none else some (finish_of reason)
]

abbrev pub is_error : Option Finish → Bool
is_error (some error) = true
is_error _ = false

abbrev pub with_finish : Option Finish → Translator → Translator
with_finish none t = t
with_finish (some f) t = record t { finish = finish_name f; tool_open = false }

unfoldable pub on_message_stop : ℕ → Writing → Writing
unfolding give_finish emit_done
on_message_stop now (t, out) =
    let u = record t { tool_open = false } in
    emit_done now (give_finish now (finish_or_default u) (u, out))

-- A tool call at the block `i`.
unfoldable pub open_tool : ℕ → ℕ → Value → Writing → Writing
unfolding set_ord give_role
open_tool now i b (t, out) =
    let ord = t.next_tool_ord in
    let u = record t {
      next_tool_ord = ord + 1;
      block_tool_ord = set_ord i ord t.block_tool_ord;
      tool_open = true;
    } in
    let (s, written) =
      emit_tool_open now ord (str_or (codes "id") [] b) (str_or (codes "name") [] b)
        (give_role now (u, out)) in
    (record s { content_started = true }, written)

unfoldable pub on_block_start : ℕ → Value → Writing → Writing
unfolding open_tool
on_block_start now v (t, out) = elim (find (codes "content_block") v) [
  | none ↦ (t, out)
  | some b ↦
      if not (is_type (codes "tool_use") b)
        || is_empty (str_or (codes "name") [] b)
        || leb max_blocks t.next_tool_ord
      then (t, out)
      else elim (parse_block_index v) [
        | none ↦ (t, out)
        | some i ↦ if leb max_blocks i then (t, out) else open_tool now i b (t, out)
      ]
]

-- The id and the model are echoed into every chunk.
abbrev pub too_long : Value → Bool
too_long m =
    ltb max_echo (length (str_or (codes "id") [] m))
    || ltb max_echo (length (str_or (codes "model") [] m))

module _ (usage_of : Bytes → Usage) where
  abbrev pub merge_usage : Value → Translator → Translator
  merge_usage v t = elim (find (codes "usage") v) [
    | none ↦ t
    | some u ↦ record t { usage = merge_stated t.usage (usage_of (span_of_value u)) }
  ]

  abbrev pub named : Value → Translator → Translator
  named m t =
      let id = str_or (codes "id") [] m in
      merge_usage m (record t {
        id = if is_empty id then t.id else append_sanitized [] id;
        model = append_sanitized [] (str_or (codes "model") [] m);
      })

  unfoldable pub on_message_start : ℕ → Value → Writing → Writing
  unfolding give_role ensure_created
  on_message_start now v (t, out) = elim (find (codes "message") v) [
    | none ↦ give_role now (ensure_created now t, out)
    | some m ↦
        if too_long m then broken (t, out) else give_role now (ensure_created now (named m t), out)
  ]

  unfoldable pub on_message_delta : ℕ → Value → Writing → Writing
  unfolding give_finish stated_finish
  on_message_delta now v (t, out) =
      let u = merge_usage v (with_finish (stated_finish v) t) in
      if is_error (stated_finish v)
      then broken (t, out)
      else elim (u.finish) [ none ↦ (u, out) | some r ↦ give_finish now (some r) (u, out) ]

  unfoldable pub on_event : ℕ → Value → Writing → Writing
  unfolding on_message_start on_content_delta on_message_delta on_message_stop on_block_start
  on_event now v w =
      if is_type (codes "error") v
      then broken w
      else if is_type (codes "message_start") v
      then on_message_start now v w
      else if is_type (codes "content_block_delta") v
      then on_content_delta now v w
      else if is_type (codes "message_delta") v
      then on_message_delta now v w
      else if is_type (codes "message_stop") v
      then on_message_stop now w
      else if is_type (codes "content_block_start") v
      then on_block_start now v w
      else w

  unfoldable pub dispatch : ℕ → Bytes → Writing → Writing
  unfolding on_event on_done
  dispatch now text w =
      let (v, ok) = parse (record { unique = true; opaque = [] }) text in
      if same text (codes "[DONE]")
      then on_done now w
      else if not ok || not (is_object v)
      then w
      else on_event now v w
