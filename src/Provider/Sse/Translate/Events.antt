-- ===== src/Provider/Sse/Translate/Events.antt =====
-- The events.
use llmbridge.Base.{
  ℕ, ◌≡◌, refl, subst, sym, Bool, true, not, ◌||◌, [], Option, none, some, if◌then◌else◌, inl, inr,
}
use llmbridge.Base.Bytes.{Bytes, codes, same, is_empty}
use llmbridge.Provider.Json.Tokens.{Value}
use llmbridge.Provider.Json.Lookup.{find, str_or}
use llmbridge.Provider.Json.Parse.{parse}
use llmbridge.Provider.Openai.{
  Usage, Finish, stop, tool_calls, content_filter, error, finish_name, append_sanitized,
  merge_stated,
}
use llmbridge.Provider.Openai
use llmbridge.Provider.Sse
use llmbridge.Provider.Sse.{Step, event, more, fail, next}
use llmbridge.Provider.Sse.Translate.{Translator, Writing, ensure_created}
use llmbridge.Provider.Sse.Translate.Dispatch.{
  stated_finish, is_error, with_finish, merge_usage, too_long, named, broken, give_role,
  give_finish, on_message_start, on_message_delta, on_event, dispatch, is_type, is_object,
  span_of_value,
}
use llmbridge.Provider.Sse.Translate.Grammar.{
  IsReason, is_stop, is_length, is_tool_calls, is_content_filter,
}
use llmbridge.Provider.Sse.Translate.Live.{
  IsLive, stamp_once, give_role-IsLive, give_finish-IsLive, aside,
}
use llmbridge.Provider.Sse.Translate.Chunks.{
  IsOpen, picked-IsOpen, on_content_delta-IsOpen, on_block_start-IsOpen,
}
use llmbridge.Provider.Sse.Translate.Ends.{
  IsTranslating, picked-IsTranslating, on_done-IsTranslating, on_message_stop-IsOver,
}

-- Other bytes, another read.
pub elsewhere :
    (frames : Sse.SseFrameReader) (failed : Bool) (t : Translator) (out : Bytes)
    → IsTranslating (t, out)
    → IsTranslating (record t { frames = frames; failed = failed }, out)
elsewhere frames failed t out (inl (n, l)) =
    inl (n, aside frames failed t.tool_open t.id t.model t.content_started t.usage l)
elsewhere frames failed t out (inr o) =
    inr (record { stream = o.stream; finished = o.finished; over = o.over })

name-IsReason : (f : Finish) (r : Bytes) → finish_name f ≡ some r → IsReason r
unfolding finish_name
name-IsReason stop r e = subst IsReason (cc e) is_stop
name-IsReason Openai.length r e = subst IsReason (cc e) is_length
name-IsReason tool_calls r e = subst IsReason (cc e) is_tool_calls
name-IsReason content_filter r e = subst IsReason (cc e) is_content_filter
name-IsReason error r e = cc e

with_finish-IsLive :
    (f : Option Finish) (n m : ℕ) (t : Translator) (out : Bytes)
    → IsLive n m t out
    → IsLive n m (with_finish f t) out
with_finish-IsLive none n m t out l = l
with_finish-IsLive (some f) n m t out l = record {
  stream = l.stream;
  next = l.next;
  ords = l.ords;
  few = l.few;
  reason = name-IsReason f;
  unfinished = l.unfinished;
  uncounted = l.uncounted;
}

ensure_created-IsLive :
    (now n : ℕ) (t : Translator) (out : Bytes)
    → IsLive n n t out
    → IsLive n n (ensure_created now t) out
ensure_created-IsLive now n t out l =
    let s = stamp_once now n t out l.stream in
    subst (λ k. IsLive n n k out) (sym s.same)
      (record {
        stream = s.stream;
        next = l.next;
        ords = l.ords;
        few = l.few;
        reason = l.reason;
        unfinished = l.unfinished;
        uncounted = l.uncounted;
      })

module _ (usage_of : Bytes → Usage) where
  merge_usage-IsLive :
      (v : Value) (n m : ℕ) (t : Translator) (out : Bytes)
      → IsLive n m t out
      → IsLive n m (merge_usage usage_of v t) out
  merge_usage-IsLive v n m t out l = go (find (codes "usage") v)
    where
      go :
          (k : Option Value)
          → IsLive n m
              (elim k as (λ x. Translator) [
                | none ↦ t
                | some u ↦ record t { usage = merge_stated t.usage (usage_of (span_of_value u)) }
              ])
              out
      go none = l
      go (some u) =
          aside t.frames t.failed t.tool_open t.id t.model t.content_started
            (merge_stated t.usage (usage_of (span_of_value u))) l

  on_message_start-IsOpen :
      (now : ℕ) (v : Value) (w : Writing) → IsOpen w → IsOpen (on_message_start usage_of now v w)
  unfolding on_message_start
  on_message_start-IsOpen now v (t, out) (n, l) = go (find (codes "message") v)
    where
      opened :
          (u : Translator) → IsLive n n u out → IsOpen (give_role now (ensure_created now u, out))
      opened u live = (
        n,
        (give_role-IsLive now n n (ensure_created now u) out
            (ensure_created-IsLive now n u out live)).0,
      )

      go :
          (k : Option Value)
          → IsOpen (elim k as (λ x. Writing) [
            | none ↦ give_role now (ensure_created now t, out)
            | some m ↦
                if too_long m
                then broken (t, out)
                else give_role now (ensure_created now (named usage_of m t), out)
          ])
      go none = opened t l
      go (some m) =
          let id = str_or (codes "id") [] m in
          let called =
            aside t.frames t.failed t.tool_open
              (if is_empty id then t.id else append_sanitized [] id)
              (append_sanitized [] (str_or (codes "model") [] m)) t.content_started t.usage l in
          picked-IsOpen (too_long m) _ _
            (n, aside t.frames true t.tool_open t.id t.model t.content_started t.usage l)
            (λ e. opened (named usage_of m t) (merge_usage-IsLive m n n _ out called))

  on_message_delta-IsOpen :
      (now : ℕ) (v : Value) (w : Writing) → IsOpen w → IsOpen (on_message_delta usage_of now v w)
  unfolding on_message_delta
  on_message_delta-IsOpen now v (t, out) (n, l) =
      picked-IsOpen (is_error (stated_finish v)) _ _
        (n, aside t.frames true t.tool_open t.id t.model t.content_started t.usage l)
        (λ e. go (u.finish) refl)
    where
      u : Translator
      u = merge_usage usage_of v (with_finish (stated_finish v) t)

      live : IsLive n n u out
      live =
          merge_usage-IsLive v n n (with_finish (stated_finish v) t) out
            (with_finish-IsLive (stated_finish v) n n t out l)

      go :
          (k : Option Bytes)
          → u.finish ≡ k
          → IsOpen (elim k as (λ x. Writing) [
            | none ↦ (u, out)
            | some r ↦ give_finish now (some r) (u, out)
          ])
      go none e = (n, live)
      go (some r) e = (n, (give_finish-IsLive now n n r u out live (live.reason r e)).0)

  on_event-IsTranslating :
      (now : ℕ) (v : Value) (w : Writing) → IsOpen w → IsTranslating (on_event usage_of now v w)
  unfolding on_event
  on_event-IsTranslating now v w i =
      picked-IsTranslating (is_type (codes "error") v) _ _
        (elsewhere (w.0.frames) true w.0 w.1 (inl i))
        λ e1.
          picked-IsTranslating (is_type (codes "message_start") v) _ _
            (inl (on_message_start-IsOpen now v w i))
            λ e2.
              picked-IsTranslating (is_type (codes "content_block_delta") v) _ _
                (inl (on_content_delta-IsOpen now v w i))
                λ e3.
                  picked-IsTranslating (is_type (codes "message_delta") v) _ _
                    (inl (on_message_delta-IsOpen now v w i))
                    λ e4.
                      picked-IsTranslating (is_type (codes "message_stop") v) _ _
                        (inr (on_message_stop-IsOver now w i))
                        λ e5.
                          picked-IsTranslating (is_type (codes "content_block_start") v) _ _
                            (inl (on_block_start-IsOpen now v w i)) λ e6. inl i

  pub dispatch-IsTranslating :
      (now : ℕ) (text : Bytes) (w : Writing)
      → IsOpen w
      → IsTranslating (dispatch usage_of now text w)
  unfolding dispatch
  dispatch-IsTranslating now text w i =
      let parsed = parse (record { unique = true; opaque = [] }) text in
      picked-IsTranslating (same text (codes "[DONE]")) _ _ (on_done-IsTranslating now w i) λ e1.
        picked-IsTranslating (not parsed.1 || not (is_object parsed.0)) w
          (on_event usage_of now parsed.0 w) (inl i) λ e2. on_event-IsTranslating now parsed.0 w i
