-- ===== src/Provider/Sse/Translate/Enough.antt =====
-- The loop of `feed` ends by itself.
use llmbridge.Base.{
  ℕ, zero, suc, ◌+◌, ◌<◌, ◌≡◌, refl, ap, sym, ◌∙◌, Bool, true, false, not, ◌||◌, if◌then◌else◌,
  length, arith,
}
use llmbridge.Base.Bytes.{Bytes}
use llmbridge.Provider.Openai.{Usage}
use llmbridge.Provider.Sse
use llmbridge.Provider.Sse.{SseFrameReader, Step, event, more, fail, next, holds_cr}
use llmbridge.Provider.Sse.Drain.{clear, next-shorter}
use llmbridge.Provider.Sse.Translate.{Translator, Writing}
use llmbridge.Provider.Sse.Translate.Dispatch.{dispatch}
use llmbridge.Provider.Sse.Translate.Feed.{heard, feed_loop, feed}
use llmbridge.Provider.Sse.Translate.Reads.{loop_event, loop_more, loop_fail}
use llmbridge.Provider.Sse.Translate.Frames.{dispatch-Keeps}

module _ (usage_of : Bytes → Usage) (now : ℕ) where
  loop_enough :
      (f g : ℕ) (w : Writing)
      → clear (w.0).frames ≡ true
      → length (w.0).frames.rest < f
      → length (w.0).frames.rest < g
      → feed_loop usage_of now f w ≡ feed_loop usage_of now g w
  loop_enough zero g w c h k = absurd (omega arith)
  loop_enough (suc f) zero w c h k = absurd (omega arith)
  loop_enough (suc f) (suc g) (t, out) c h k =
      by_step (λ w. loop_enough f g w) ((next t.frames).0) refl
    where
      u : Translator
      u = record t { frames = (next t.frames).1 }

      by_step :
          ((w : Writing)
            → clear (w.0).frames ≡ true
            → length (w.0).frames.rest < f
            → length (w.0).frames.rest < g
            → feed_loop usage_of now f w ≡ feed_loop usage_of now g w)
          → (s : Step) → (next t.frames).0 ≡ s
          → feed_loop usage_of now (suc f) (t, out) ≡ feed_loop usage_of now (suc g) (t, out)
      by_step again more e =
          loop_more usage_of now f t out e ∙ sym (loop_more usage_of now g t out e)
      by_step again fail e =
          loop_fail usage_of now f t out e ∙ sym (loop_fail usage_of now g t out e)
      by_step again (event text) e =
          let w = dispatch usage_of now text (u, out) in
          let same = ap (λ p. p.0) (dispatch-Keeps usage_of now text (u, out)) in
          let (less, still) = next-shorter t.frames text c e in
          let n : length (w.0).frames.rest ≡ length (next t.frames).1.rest =
            ap (λ (r : SseFrameReader). length r.rest) same in
          let rest =
            again w (ap clear same ∙ still) (omega (arith, n, less, h))
              (omega (arith, n, less, k)) in
          loop_event usage_of now f text t out e
          ∙ ap (heard w) rest
          ∙ sym (loop_event usage_of now g text t out e)

  -- `feed` is the same for all amounts of fuel that exceed the bytes of the read: its loop ends by
  -- itself, on an end of the text, a failure or the end of the stream.
  pub feed-enough :
      (fuel : ℕ) (bytes : Bytes) (t : Translator) (out : Bytes)
      → length bytes < fuel
      → feed usage_of now bytes (t, out) ≡ (
          if t.failed
          then (false, (t, out))
          else if t.done
          then (true, (t, out))
          else feed_loop usage_of now fuel (record t { frames = Sse.feed bytes t.frames }, out))
  unfolding feed Sse.feed
  feed-enough fuel bytes t out h =
      let u : Translator = record t { frames = Sse.feed bytes t.frames } in
      let c : clear u.frames ≡ true = either_way (holds_cr bytes) in
      let same = loop_enough (length bytes + 1) fuel (u, out) c (omega arith) h in
      ap
        (λ (x : Bool × Writing).
          if t.failed then (false, (t, out)) else if t.done then (true, (t, out)) else x)
        same
    where
      either_way : (b : Bool) → (b || not b) ≡ true
      either_way true = refl
      either_way false = refl
