-- ===== src/Provider/Sse/Translate/Reads.antt =====
-- The reads.
use llmbridge.Base.{
  ℕ, zero, suc, ◌+◌, ◌≡◌, refl, subst, sym, Bool, true, false, not, length, inl, inr,
}
use llmbridge.Base.Bytes.{Bytes}
use llmbridge.Provider.Openai.{Usage}
use llmbridge.Provider.Sse
use llmbridge.Provider.Sse.{Step, event, more, fail, next}
use llmbridge.Provider.Sse.Translate.{Translator, Writing}
use llmbridge.Provider.Sse.Translate.Dispatch.{dispatch}
use llmbridge.Provider.Sse.Translate.Feed.{heard, feed_loop, feed}
use llmbridge.Provider.Sse.Translate.Live.{aside}
use llmbridge.Provider.Sse.Translate.Chunks.{IsOpen}
use llmbridge.Provider.Sse.Translate.Ends.{IsTranslating, picked_answer}
use llmbridge.Provider.Sse.Translate.Events.{elsewhere, dispatch-IsTranslating}

IsOpen-of : (w : Writing) → IsTranslating w → (w.0).done ≡ false → IsOpen w
IsOpen-of w (inl i) d = i
IsOpen-of w (inr o) d = let over = o.over in cc (over, d)

heard-IsTranslating :
    (w : Writing) (rest : Bool × Writing)
    → IsTranslating w
    → ((w.0).done ≡ false → IsTranslating rest.1)
    → IsTranslating (heard w rest).1
unfolding heard
heard-IsTranslating (t, out) rest i j =
    picked_answer t.failed _ _ i
      λ f. picked_answer t.done _ _ (elsewhere (Sse.stop t.frames) t.failed t out i) j

module _ (usage_of : Bytes → Usage) where
  pub loop_event :
      (now fuel : ℕ) (text : Bytes) (t : Translator) (out : Bytes)
      → (next t.frames).0 ≡ event text
      → feed_loop usage_of now (suc fuel) (t, out)
        ≡ heard (dispatch usage_of now text (record t { frames = (next t.frames).1 }, out)) (
            feed_loop usage_of now fuel
              (dispatch usage_of now text (record t { frames = (next t.frames).1 }, out)))
  unfolding feed_loop
  loop_event now fuel text t out e = rw (e, feed_loop) refl

  pub loop_more :
      (now fuel : ℕ) (t : Translator) (out : Bytes)
      → (next t.frames).0 ≡ more
      → feed_loop usage_of now (suc fuel) (t, out)
        ≡ (not t.failed, (record t { frames = (next t.frames).1 }, out))
  unfolding feed_loop
  loop_more now fuel t out e = rw (e, feed_loop) refl

  pub loop_fail :
      (now fuel : ℕ) (t : Translator) (out : Bytes)
      → (next t.frames).0 ≡ fail
      → feed_loop usage_of now (suc fuel) (t, out)
        ≡ (false, (record t { frames = (next t.frames).1; failed = true }, out))
  unfolding feed_loop
  loop_fail now fuel t out e = rw (e, feed_loop) refl

  feed_loop-IsTranslating :
      (now fuel : ℕ) (w : Writing) → IsOpen w → IsTranslating (feed_loop usage_of now fuel w).1
  feed_loop-IsTranslating now zero w i = unfold feed_loop in inl i
  feed_loop-IsTranslating now (suc fuel) (t, out) i =
      by_step (λ w j. feed_loop-IsTranslating now fuel w j) ((next t.frames).0) refl
    where
      q : Sse.SseFrameReader
      q = (next t.frames).1

      by_step :
          ((w : Writing) → IsOpen w → IsTranslating (feed_loop usage_of now fuel w).1)
          → (k : Step) → (next t.frames).0 ≡ k
          → IsTranslating (feed_loop usage_of now (suc fuel) (t, out)).1
      by_step again (event text) e =
          let w = dispatch usage_of now text (record t { frames = q }, out) in
          let (n, l) = i in
          let d =
            dispatch-IsTranslating usage_of now text (record t { frames = q }, out)
              (n, aside q t.failed t.tool_open t.id t.model t.content_started t.usage l) in
          subst (λ (x : Bool × Writing). IsTranslating x.1) (sym (loop_event now fuel text t out e))
            (heard-IsTranslating w (feed_loop usage_of now fuel w) d
              (λ c. again w (IsOpen-of w d c)))
      by_step again more e =
          subst (λ (x : Bool × Writing). IsTranslating x.1) (sym (loop_more now fuel t out e))
            (elsewhere q t.failed t out (inl i))
      by_step again fail e =
          subst (λ (x : Bool × Writing). IsTranslating x.1) (sym (loop_fail now fuel t out e))
            (elsewhere q true t out (inl i))

  pub feed-IsTranslating :
      (now : ℕ) (bytes : Bytes) (w : Writing)
      → IsTranslating w
      → IsTranslating (feed usage_of now bytes w).1
  unfolding feed
  feed-IsTranslating now bytes (t, out) i = picked_answer t.failed _ _ i λ f.
      picked_answer t.done _ _ i λ d.
        feed_loop-IsTranslating now (length bytes + 1)
          (record t { frames = Sse.feed bytes t.frames }, out)
          (IsOpen-of (record t { frames = Sse.feed bytes t.frames }, out)
            (elsewhere (Sse.feed bytes t.frames) t.failed t out i) d)
