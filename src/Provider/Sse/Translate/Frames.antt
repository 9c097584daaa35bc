-- ===== src/Provider/Sse/Translate/Frames.antt =====
-- The events of a read leave the reader alone, and whether the client asked for counts.
use llmbridge.Base.{
  Bool-cases, inl, inr, ℕ, ◌+◌, ◌≡◌, refl, ◌∙◌, Bool, true, false, not, ◌||◌, [], Option, none,
  some, if◌then◌else◌, leb,
}
use llmbridge.Base.Bytes.{Bytes, codes, same, is_empty}
use llmbridge.Provider.Json.Tokens.{Value}
use llmbridge.Provider.Json.Parse.{parse}
use llmbridge.Provider.Json.Lookup.{find, str_or}
use llmbridge.Provider.Openai.{Usage, Finish, merge_stated}
use llmbridge.Provider.Sse.{SseFrameReader}
use llmbridge.Provider.Sse.Translate.{
  Translator, Writing, max_blocks, ensure_created, emit_head, emit_tail, emit_usage, emit_done,
  set_ord, tool_ordinal_for, parse_block_index, emit_tool_open, emit_tool_args,
}
use llmbridge.Provider.Sse.Translate.Dispatch.{
  give_role, give_finish, finish_or_default, on_done, on_text, on_arguments, on_content_delta,
  open_tool, on_block_start, on_message_start, on_message_delta, on_message_stop, on_event,
  dispatch, stated_finish, with_finish, merge_usage, named, too_long, is_error, broken, is_type,
  is_object, span_of_value,
}

-- What no event changes.
abbrev pub kept : Translator → SseFrameReader × Bool
kept t = (t.frames, t.include_usage)

abbrev pub Keeps : Writing → Writing → Type 0
Keeps v w = kept (v.0) ≡ kept (w.0)

picked : (b : Bool) (u v w : Writing) → Keeps u w → Keeps v w → Keeps (if b then u else v) w
picked true u v w i j = i
picked false u v w i j = j

stamped-Keeps : (now : ℕ) (t : Translator) → kept (ensure_created now t) ≡ kept t
unfolding ensure_created
stamped-Keeps now t = elim (Bool-cases (is_empty t.created)) [
  | inl e ↦ rw e refl
  | inr e ↦ rw e refl
]

give_role-Keeps : (now : ℕ) (w : Writing) → Keeps (give_role now w) w
unfolding give_role emit_head emit_tail
give_role-Keeps now (t, out) = picked t.role_emitted _ _ (t, out) refl (stamped-Keeps now t)

pub give_finish-Keeps : (now : ℕ) (r : Option Bytes) (w : Writing) → Keeps (give_finish now r w) w
unfolding give_finish emit_head emit_tail
give_finish-Keeps now r (t, out) = picked t.finish_emitted _ _ (t, out) refl (stamped-Keeps now t)

pub emit_done-Keeps : (now : ℕ) (w : Writing) → Keeps (emit_done now w) w
unfolding emit_done emit_usage
emit_done-Keeps now (t, out) =
    picked t.done _ _ (t, out) refl
      (picked (not t.include_usage || t.usage_emitted) _ _ (t, out) refl (stamped-Keeps now t))

on_done-Keeps : (now : ℕ) (w : Writing) → Keeps (on_done now w) w
unfolding on_done
on_done-Keeps now (t, out) =
    let f = give_finish now (finish_or_default t) (t, out) in
    picked t.tool_open _ _ (t, out) refl
      (emit_done-Keeps now f ∙ give_finish-Keeps now (finish_or_default t) (t, out))

on_text-Keeps : (now : ℕ) (d : Value) (w : Writing) → Keeps (on_text now d w) w
unfolding on_text emit_head emit_tail
on_text-Keeps now d w = stamped-Keeps now (give_role now w).0 ∙ give_role-Keeps now w

tool_open-Keeps :
    (now ord : ℕ) (id name : Bytes) (w : Writing) → Keeps (emit_tool_open now ord id name w) w
unfolding emit_tool_open emit_head emit_tail
tool_open-Keeps now ord id name (t, out) = stamped-Keeps now t

tool_args-Keeps :
    (now ord : ℕ) (frag : Bytes) (w : Writing) → Keeps (emit_tool_args now ord frag w) w
unfolding emit_tool_args emit_head emit_tail
tool_args-Keeps now ord frag (t, out) =
    picked (is_empty frag) _ _ (t, out) refl (stamped-Keeps now t)

on_arguments-Keeps : (now : ℕ) (v d : Value) (w : Writing) → Keeps (on_arguments now v d w) w
unfolding on_arguments
on_arguments-Keeps now v d (t, out) = go (tool_ordinal_for (parse_block_index v) t)
  where
    go :
        (k : Option ℕ)
        → Keeps
            (elim k as (λ x. Writing) [
              | none ↦ (t, out)
              | some ord ↦ emit_tool_args now ord (str_or (codes "partial_json") [] d) (t, out)
            ])
            (t, out)
    go none = refl
    go (some ord) = tool_args-Keeps now ord (str_or (codes "partial_json") [] d) (t, out)

on_content_delta-Keeps : (now : ℕ) (v : Value) (w : Writing) → Keeps (on_content_delta now v w) w
unfolding on_content_delta
on_content_delta-Keeps now v w = go (find (codes "delta") v)
  where
    go :
        (k : Option Value)
        → Keeps
            (elim k as (λ x. Writing) [
              | none ↦ w
              | some d ↦
                  if is_type (codes "input_json_delta") d
                  then on_arguments now v d w
                  else if is_type (codes "text_delta") d
                  then on_text now d w
                  else w
            ])
            w
    go none = refl
    go (some d) =
        picked (is_type (codes "input_json_delta") d) _ _ w (on_arguments-Keeps now v d w)
          (picked (is_type (codes "text_delta") d) _ _ w (on_text-Keeps now d w) refl)

open_tool-Keeps : (now i : ℕ) (b : Value) (w : Writing) → Keeps (open_tool now i b w) w
unfolding open_tool
open_tool-Keeps now i b (t, out) =
    let ord = t.next_tool_ord in
    let u = record t {
      next_tool_ord = ord + 1;
      block_tool_ord = set_ord i ord t.block_tool_ord;
      tool_open = true;
    } in
    tool_open-Keeps now ord (str_or (codes "id") [] b) (str_or (codes "name") [] b)
      (give_role now (u, out))
    ∙ give_role-Keeps now (u, out)

on_block_start-Keeps : (now : ℕ) (v : Value) (w : Writing) → Keeps (on_block_start now v w) w
unfolding on_block_start
on_block_start-Keeps now v (t, out) = at_block (find (codes "content_block") v)
  where
    at_index :
        (b : Value) (k : Option ℕ)
        → Keeps
            (elim k as (λ x. Writing) [
              | none ↦ (t, out)
              | some i ↦ if leb max_blocks i then (t, out) else open_tool now i b (t, out)
            ])
            (t, out)
    at_index b none = refl
    at_index b (some k) =
        picked (leb max_blocks k) _ _ (t, out) refl (open_tool-Keeps now k b (t, out))

    at_block :
        (k : Option Value)
        → Keeps
            (elim k as (λ x. Writing) [
              | none ↦ (t, out)
              | some b ↦
                  if not (is_type (codes "tool_use") b)
                    || is_empty (str_or (codes "name") [] b)
                    || leb max_blocks t.next_tool_ord
                  then (t, out)
                  else elim (parse_block_index v) [
                    | none ↦ (t, out)
                    | some i ↦ if leb max_blocks i then (t, out) else open_tool now i b (t, out)
                  ]
            ])
            (t, out)
    at_block none = refl
    at_block (some b) = picked _ _ _ (t, out) refl (at_index b (parse_block_index v))

on_message_stop-Keeps : (now : ℕ) (w : Writing) → Keeps (on_message_stop now w) w
unfolding on_message_stop
on_message_stop-Keeps now (t, out) =
    let u = record t { tool_open = false } in
    emit_done-Keeps now (give_finish now (finish_or_default u) (u, out))
    ∙ give_finish-Keeps now (finish_or_default u) (u, out)

module _ (usage_of : Bytes → Usage) where
  merged-Keeps : (v : Value) (t : Translator) → kept (merge_usage usage_of v t) ≡ kept t
  merged-Keeps v t = go (find (codes "usage") v)
    where
      go :
          (k : Option Value)
          → kept (elim k as (λ x. Translator) [
            | none ↦ t
            | some u ↦ record t { usage = merge_stated t.usage (usage_of (span_of_value u)) }
          ])
            ≡ kept t
      go none = refl
      go (some u) = refl

  on_message_start-Keeps :
      (now : ℕ) (v : Value) (w : Writing) → Keeps (on_message_start usage_of now v w) w
  unfolding on_message_start
  on_message_start-Keeps now v (t, out) = go (find (codes "message") v)
    where
      opened :
          (u : Translator)
          → kept u ≡ kept t
          → Keeps (give_role now (ensure_created now u, out)) (t, out)
      opened u e = give_role-Keeps now (ensure_created now u, out) ∙ stamped-Keeps now u ∙ e

      go :
          (k : Option Value)
          → Keeps
              (elim k as (λ x. Writing) [
                | none ↦ give_role now (ensure_created now t, out)
                | some m ↦
                    if too_long m
                    then broken (t, out)
                    else give_role now (ensure_created now (named usage_of m t), out)
              ])
              (t, out)
      go none = opened t refl
      go (some m) =
          picked (too_long m) _ _ (t, out) refl (opened (named usage_of m t) (merged-Keeps m _))

  on_message_delta-Keeps :
      (now : ℕ) (v : Value) (w : Writing) → Keeps (on_message_delta usage_of now v w) w
  unfolding on_message_delta
  on_message_delta-Keeps now v (t, out) =
      picked (is_error (stated_finish v)) _ _ (t, out) refl (go (u.finish))
    where
      u : Translator
      u = merge_usage usage_of v (with_finish (stated_finish v) t)

      set : (f : Option Finish) → kept (with_finish f t) ≡ kept t
      set none = refl
      set (some f) = refl

      same_frames : kept u ≡ kept t
      same_frames = merged-Keeps v (with_finish (stated_finish v) t) ∙ set (stated_finish v)

      go :
          (k : Option Bytes)
          → Keeps
              (elim k as (λ x. Writing) [
                | none ↦ (u, out)
                | some r ↦ give_finish now (some r) (u, out)
              ])
              (t, out)
      go none = same_frames
      go (some r) = give_finish-Keeps now (some r) (u, out) ∙ same_frames

  on_event-Keeps : (now : ℕ) (v : Value) (w : Writing) → Keeps (on_event usage_of now v w) w
  unfolding on_event
  on_event-Keeps now v w = picked (is_type (codes "error") v) _ _ w refl (
      picked (is_type (codes "message_start") v) _ _ w (on_message_start-Keeps now v w) (
        picked (is_type (codes "content_block_delta") v) _ _ w (on_content_delta-Keeps now v w) (
          picked (is_type (codes "message_delta") v) _ _ w (on_message_delta-Keeps now v w) (
            picked (is_type (codes "message_stop") v) _ _ w (on_message_stop-Keeps now w) (
              picked (is_type (codes "content_block_start") v) _ _ w (on_block_start-Keeps now v w)
                refl)))))

  pub dispatch-Keeps :
      (now : ℕ) (text : Bytes) (w : Writing) → kept (dispatch usage_of now text w).0 ≡ kept w.0
  unfolding dispatch
  dispatch-Keeps now text w =
      let parsed = parse (record { unique = true; opaque = [] }) text in
      picked (same text (codes "[DONE]")) _ _ w (on_done-Keeps now w) (
        picked (not parsed.1 || not (is_object parsed.0)) _ _ w refl
          (on_event-Keeps now parsed.0 w))
