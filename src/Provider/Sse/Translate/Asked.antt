-- ===== src/Provider/Sse/Translate/Asked.antt =====
-- Whether the client asked for counts is what `reset` was told, whatever follows.
use llmbridge.Base.{
  ℕ, zero, suc, ◌+◌, ◌≡◌, refl, ap, ◌∙◌, Bool, true, false, not, ◌&&◌, Option, none, some,
  if◌then◌else◌, length,
}
use llmbridge.Base.Bytes.{Bytes}
use llmbridge.Provider.Openai.{Usage}
use llmbridge.Provider.Sse
use llmbridge.Provider.Sse.{Step, event, more, fail, next}
use llmbridge.Provider.Sse.Translate.{Translator, Writing, emit_done}
use llmbridge.Provider.Sse.Translate.Dispatch.{dispatch, give_finish}
use llmbridge.Provider.Sse.Translate.Feed.{heard, feed_loop, feed, finish}
use llmbridge.Provider.Sse.Translate.Reads.{loop_event, loop_more, loop_fail}
use llmbridge.Provider.Sse.Translate.Frames.{give_finish-Keeps, emit_done-Keeps, dispatch-Keeps}

-- As `w` says.
abbrev asked : Bool × Writing → Bool
asked r = ((r.1).0).include_usage

picked :
    (c b : Bool) (u v : Bool × Writing) → asked u ≡ b → asked v ≡ b → asked (if c then u else v) ≡ b
picked true b u v i j = i
picked false b u v i j = j

asked-heard :
    (b : Bool) (w : Writing) (rest : Bool × Writing)
    → (w.0).include_usage ≡ b
    → asked rest ≡ b
    → asked (heard w rest) ≡ b
unfolding heard
asked-heard b (t, out) rest i j = picked t.failed b _ _ i (picked t.done b _ _ i j)

pub asked-finish : (now : ℕ) (w : Writing) → asked (finish now w) ≡ (w.0).include_usage
unfolding finish
asked-finish now (t, out) = go (t.finish)
  where
    go :
        (k : Option Bytes)
        → asked (elim k as (λ x. Bool × Writing) [
          | none ↦ (not t.failed && t.done, (t, out))
          | some r ↦
              if t.failed
              then (false, (t, out))
              else if t.done
              then (true, (t, out))
              else (true, emit_done now (give_finish now (some r) (t, out)))
        ])
          ≡ t.include_usage
    go none = refl
    go (some r) =
        let ended =
          emit_done-Keeps now (give_finish now (some r) (t, out))
          ∙ give_finish-Keeps now (some r) (t, out) in
        picked t.failed t.include_usage _ _ refl
          (picked t.done t.include_usage _ _ refl (ap (λ p. p.1) ended))

module _ (usage_of : Bytes → Usage) (now : ℕ) where
  asked-feed_loop : (f : ℕ) (w : Writing) → asked (feed_loop usage_of now f w) ≡ (w.0).include_usage
  asked-feed_loop zero w = unfold feed_loop in refl
  asked-feed_loop (suc f) (t, out) = by_step (λ w. asked-feed_loop f w) ((next t.frames).0) refl
    where
      u : Translator
      u = record t { frames = (next t.frames).1 }

      by_step :
          ((w : Writing) → asked (feed_loop usage_of now f w) ≡ (w.0).include_usage)
          → (s : Step) → (next t.frames).0 ≡ s
          → asked (feed_loop usage_of now (suc f) (t, out)) ≡ t.include_usage
      by_step again more e = ap asked (loop_more usage_of now f t out e)
      by_step again fail e = ap asked (loop_fail usage_of now f t out e)
      by_step again (event text) e =
          let w = dispatch usage_of now text (u, out) in
          let same = ap (λ p. p.1) (dispatch-Keeps usage_of now text (u, out)) in
          ap asked (loop_event usage_of now f text t out e)
          ∙ asked-heard t.include_usage w (feed_loop usage_of now f w) same (again w ∙ same)

  pub asked-feed :
      (bytes : Bytes) (w : Writing) → asked (feed usage_of now bytes w) ≡ (w.0).include_usage
  unfolding feed
  asked-feed bytes (t, out) = picked t.failed t.include_usage _ _ refl (
      picked t.done t.include_usage _ _ refl
        (asked-feed_loop (length bytes + 1) (record t { frames = Sse.feed bytes t.frames }, out)))
