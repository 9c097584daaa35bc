-- ===== src/Provider/Sse/Translate/Whole.antt =====
-- The translator over all reads of a reply, and the end of the upstream.
use llmbridge.Base.{
  ◌∙◌, ℕ, ◌≡◌, refl, subst, sym, Bool, true, false, List, [], ◌∷◌, Option, inl, inr, arith,
}
use llmbridge.Base.Bytes.{Bytes}
use llmbridge.Provider.Openai.{Usage}
use llmbridge.Provider.Sse.Translate.{Translator, Writing, reset}
use llmbridge.Provider.Sse.Translate.Feed.{feed, finish}
use llmbridge.Provider.Sse.Translate.Asked.{asked-finish, asked-feed}
use llmbridge.Provider.Sse.Translate.Grammar.{IsStream, nothing}
use llmbridge.Provider.Sse.Translate.Ends.{IsTranslating, finish-Answers}
use llmbridge.Provider.Sse.Translate.Reads.{feed-IsTranslating}

-- Reads in turn, each with the clock at its time.
unfoldable pub feed_all : (Bytes → Usage) → List (ℕ × Bytes) → Writing → Writing
feed_all usage_of [] w = w
feed_all usage_of (r ∷ rs) w = feed_all usage_of rs (feed usage_of r.0 r.1 w).1

reset-IsTranslating :
    (secs : Option ℕ) (include_usage : Bool) (t : Translator)
    → IsTranslating (reset secs include_usage t, [])
unfolding reset
reset-IsTranslating secs include_usage t = inl (
  0,
  record {
    stream = nothing;
    next = refl;
    ords = λ i o e. cc e;
    few = omega arith;
    reason = λ r e. cc e;
    unfinished = refl;
    uncounted = refl;
  },
)

feed_all-IsTranslating :
    (usage_of : Bytes → Usage) (rs : List (ℕ × Bytes)) (w : Writing)
    → IsTranslating w
    → IsTranslating (feed_all usage_of rs w)
unfolding feed_all
feed_all-IsTranslating usage_of [] w i = i
feed_all-IsTranslating usage_of (r ∷ rs) w i =
    feed_all-IsTranslating usage_of rs (feed usage_of r.0 r.1 w).1
      (feed-IsTranslating usage_of r.0 r.1 w i)

stream_of :
    (w : Writing)
    → IsTranslating w
    → let t = w.0 in
      IsStream t.include_usage t.created t.role_emitted t.next_tool_ord t.finish_emitted t.done w.1
stream_of (t, out) (inl (n, l)) =
    let s =
      subst (λ k. IsStream t.include_usage t.created t.role_emitted k t.finish_emitted false out)
        (sym l.next) l.stream in
    subst
      (λ d.
        IsStream t.include_usage t.created t.role_emitted t.next_tool_ord t.finish_emitted d out)
      (sym l.unfinished) s
stream_of (t, out) (inr o) =
    let s =
      subst (λ f. IsStream t.include_usage t.created t.role_emitted t.next_tool_ord f true out)
        (sym o.finished) o.stream in
    subst
      (λ d.
        IsStream t.include_usage t.created t.role_emitted t.next_tool_ord t.finish_emitted d out)
      (sym o.over) s

asked-feed_all :
    (usage_of : Bytes → Usage) (rs : List (ℕ × Bytes)) (w : Writing)
    → (feed_all usage_of rs w).0.include_usage ≡ (w.0).include_usage
unfolding feed_all
asked-feed_all usage_of [] w = refl
asked-feed_all usage_of (r ∷ rs) w =
    asked-feed_all usage_of rs (feed usage_of r.0 r.1 w).1 ∙ asked-feed usage_of r.0 r.1 w

asked-reset :
    (secs : Option ℕ) (include_usage : Bool) (old : Translator)
    → (reset secs include_usage old).include_usage ≡ include_usage
unfolding reset
asked-reset secs include_usage old = refl

-- Whatever is fed after `reset`, in whatever reads: the output is a legal stream of chunks with one
-- stamp. The role is given once at most, and before any text, tool call or arguments; the tool calls
-- are numbered from 0 on, and arguments name one that was opened before; there is one finish reason at
-- most, and it is one of OpenAI's four. More text, tool calls and arguments may follow it. The counts,
-- where they were asked for, and the sentinel come behind a finish reason, right one after the other,
-- and nothing follows them.
pub feed_all-IsStream :
    (usage_of : Bytes → Usage) (secs : Option ℕ) (include_usage : Bool) (old : Translator)
    (rs : List (ℕ × Bytes))
    → let (t, out) = feed_all usage_of rs (reset secs include_usage old, []) in
      IsStream include_usage t.created t.role_emitted t.next_tool_ord t.finish_emitted t.done out
feed_all-IsStream usage_of secs include_usage old rs =
    let (t, out) = feed_all usage_of rs (reset secs include_usage old, []) in
    let a =
      asked-feed_all usage_of rs (reset secs include_usage old, [])
      ∙ asked-reset secs include_usage old in
    subst (λ b. IsStream b t.created t.role_emitted t.next_tool_ord t.finish_emitted t.done out) a
      (stream_of (feed_all usage_of rs (reset secs include_usage old, []))
        (feed_all-IsTranslating usage_of rs _ (reset-IsTranslating secs include_usage old)))

-- The upstream ends behind any reads: where `finish` is true, the whole output is a legal stream with
-- one finish reason somewhere in it, and it ends in the sentinel, behind the counts where they were
-- asked for; where `finish` is false, it writes nothing.
pub finish-IsWhole :
    (usage_of : Bytes → Usage) (secs : Option ℕ) (include_usage : Bool) (old : Translator)
    (rs : List (ℕ × Bytes)) (now : ℕ)
    → let w = feed_all usage_of rs (reset secs include_usage old, []) in
      let (whole, (t, out)) = finish now w in
      (whole ≡ true → IsStream include_usage t.created t.role_emitted t.next_tool_ord true true out)
      × (whole ≡ false → out ≡ w.1)
finish-IsWhole usage_of secs include_usage old rs now =
    let w = feed_all usage_of rs (reset secs include_usage old, []) in
    let i = feed_all-IsTranslating usage_of rs _ (reset-IsTranslating secs include_usage old) in
    let (closed, silent) = finish-Answers now w i in
    let (t, out) = (finish now w).1 in
    let a =
      asked-finish now w
      ∙ asked-feed_all usage_of rs (reset secs include_usage old, [])
      ∙ asked-reset secs include_usage old in
    (
      λ e.
          subst (λ b. IsStream b t.created t.role_emitted t.next_tool_ord true true out) a
            (closed e).stream,
      silent,
    )
