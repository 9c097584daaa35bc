-- ===== src/Provider/Sse/Translate/Feed.antt =====
-- `feed` and `finish` of `AnthropicToOpenAiSse` (provider/src/sse.cpp).
use llmbridge.Base.{
  ℕ, zero, suc, ◌+◌, Bool, true, false, not, ◌&&◌, none, some, if◌then◌else◌, length,
}
use llmbridge.Base.Bytes.{Bytes}
use llmbridge.Provider.Openai.{Usage}
use llmbridge.Provider.Sse
use llmbridge.Provider.Sse.{SseFrameReader, Step, event, more, fail, next}
use llmbridge.Provider.Sse.Translate.{Writing, emit_done}
use llmbridge.Provider.Sse.Translate.Dispatch.{broken, dispatch, give_finish}

-- Behind an event: the end of `feed`, or `rest`.
unfoldable pub heard : Writing → Bool × Writing → Bool × Writing
heard (t, out) rest =
    if t.failed
    then (false, (t, out))
    else if t.done
    then (true, (record t { frames = Sse.stop t.frames }, out))
    else rest

module _ (usage_of : Bytes → Usage) where
  -- The loop of `feed`. Each event takes a byte, so one more than the bytes is fuel enough.
  unfoldable pub feed_loop : ℕ → ℕ → Writing → Bool × Writing
  unfolding heard
  feed_loop now zero w = (false, w)
  feed_loop now (suc fuel) (t, out) =
      let u = record t { frames = (next t.frames).1 } in
      elim ((next t.frames).0) [
        | event text ↦
            let w = dispatch usage_of now text (u, out) in
            let rest = feed_loop now fuel w in heard w rest
        | more ↦ (not u.failed, (u, out))
        | fail ↦ (false, broken (u, out))
      ]

  unfoldable pub feed : ℕ → Bytes → Writing → Bool × Writing
  unfolding feed_loop
  feed now bytes (t, out) =
      if t.failed
      then (false, (t, out))
      else if t.done
      then (true, (t, out))
      else feed_loop now (length bytes + 1) (record t { frames = Sse.feed bytes t.frames }, out)

unfoldable pub finish : ℕ → Writing → Bool × Writing
unfolding give_finish emit_done
finish now (t, out) = elim (t.finish) [
  | none ↦ (not t.failed && t.done, (t, out))
  | some r ↦
      if t.failed
      then (false, (t, out))
      else if t.done
      then (true, (t, out))
      else (true, emit_done now (give_finish now (some r) (t, out)))
]
