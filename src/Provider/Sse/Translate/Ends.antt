-- ===== src/Provider/Sse/Translate/Ends.antt =====
-- The end of a stream: its finish reason, the counts and the sentinel.
use llmbridge.Base.{
  ℕ, ◌≡◌, refl, ap, subst, sym, ◌∙◌, Bool, true, false, not, ◌||◌, ◌&&◌, [], ◌++◌, append-nil,
  Option, none, some, ltb, if◌then◌else◌, Bool-cases, inl, inr, ◌⊎◌, arith,
}
use llmbridge.Base.Bytes.{Bytes, codes, is_empty}
use llmbridge.Provider.Openai.{chunk, envelope, close}
use llmbridge.Provider.Sse.Translate.{
  Translator, Writing, ensure_created, emit_usage, emit_done, usage_so_far, default_finish,
}
use llmbridge.Provider.Sse.Translate.Dispatch.{
  give_finish, on_done, on_message_stop, finish_or_default,
}
use llmbridge.Provider.Sse.Translate.Feed.{finish}
use llmbridge.Provider.Sse.Translate.Grammar.{
  usage_chunk_of, IsReason, is_stop, is_tool_calls, IsStream, role, content, tool, arguments,
  closed,
}
use llmbridge.Provider.Sse.Translate.Writes.{usage_body}
use llmbridge.Provider.Sse.Translate.Live.{IsLive, stamp_once, give_finish-IsLive, aside}
use llmbridge.Provider.Sse.Translate.Chunks.{IsOpen}

-- The stream is closed.
pub record IsOver (w : Writing) : Type 0 where
  pub stream :
      IsStream
        (w.0).include_usage
        (w.0).created
        (w.0).role_emitted
        (w.0).next_tool_ord
        true
        true
        w.1
  pub finished : (w.0).finish_emitted ≡ true
  pub over : (w.0).done ≡ true

abbrev pub IsTranslating : Writing → Type 0
IsTranslating w = IsOpen w ⊎ IsOver w

filled-IsStream :
    (w : Bool) (stamp : Bytes) {r : Bool} {n : ℕ} {f d : Bool} {b : Bytes}
    → IsStream w stamp r n f d b
    → f ≡ true
    → is_empty stamp ≡ false
filled-IsStream w stamp IsStream.nothing e = cc e
filled-IsStream w stamp (role id model s m) e = s
filled-IsStream w stamp (content id model text s m) e = s
filled-IsStream w stamp (tool id model call name s m) e = s
filled-IsStream w stamp (arguments id model ord frag s h m) e = s
filled-IsStream w stamp (IsStream.finished id model s i m) e = s
filled-IsStream w stamp (closed id model u s m) e = s

-- What `emit_usage` leaves behind.
pub record Counted (now n : ℕ) (t : Translator) (out : Bytes) : Type 0 where
  pub stamp : Bytes
  pub emitted : Bool
  pub text : Bytes
  pub same : emit_usage now (t, out) ≡ (record t { created = stamp; usage_emitted = emitted }, text)
  pub ends :
      IsStream t.include_usage stamp t.role_emitted n true true (text ++ codes "data: [DONE]\n\n")

counted :
    (now n : ℕ) (t : Translator) (out : Bytes)
    → IsLive n n t out
    → t.finish_emitted ≡ true
    → Counted now n t out
unfolding emit_usage
counted now n t out l f =
    let u = ensure_created now t in
    let body =
      close (envelope (out ++ codes "data: ") chunk u.id u.created u.model) (some (usage_so_far u))
        false none in
    let take = λ (b : Bool).
      if b then (t, out) else (record u { usage_emitted = true }, body ++ codes "\n\n") in
    let s = stamp_once now n t out l.stream in
    let bytes = λ (c : Bytes) (b : Bool).
      (out ++ (if b then usage_chunk_of t.id c t.model (usage_so_far t) else []))
      ++ codes "data: [DONE]\n\n" in
    elim (Bool-cases t.include_usage) [
      | inr e ↦
          let plain =
            subst (λ k. IsStream t.include_usage t.created t.role_emitted n k false out) f
              l.stream in
          let c =
            closed t.id t.model (usage_so_far t)
              (filled-IsStream t.include_usage t.created plain refl) plain in
          let same_bytes =
            ap (bytes t.created) e ∙ ap (λ k. k ++ codes "data: [DONE]\n\n") (append-nil out) in
          record {
            stamp = t.created;
            emitted = t.usage_emitted;
            text = out;
            same = ap take (skipped t.include_usage t.usage_emitted e);
            ends =
                subst (λ k. IsStream t.include_usage t.created t.role_emitted n true true k)
                  same_bytes c;
          }
      | inl e ↦
          let plain =
            subst (λ k. IsStream t.include_usage s.stamp t.role_emitted n k false out) f s.stream in
          let c = closed t.id t.model (usage_so_far t) s.filled plain in
          let written = usage_body out u.id u.created u.model (usage_so_far u) in
          record {
            stamp = s.stamp;
            emitted = true;
            text = out ++ usage_chunk_of t.id s.stamp t.model (usage_so_far t);
            same =
                ap take (wanted t.include_usage t.usage_emitted e l.uncounted)
                ∙ ap (λ k. (record u { usage_emitted = true }, k)) written
                ∙ ap
                    (λ (x : Translator). (
                      record x { usage_emitted = true },
                      out ++ usage_chunk_of x.id x.created x.model (usage_so_far x),
                    ))
                    s.same;
            ends =
                subst (λ k. IsStream t.include_usage s.stamp t.role_emitted n true true k)
                  (ap (bytes s.stamp) e) c;
          }
    ]
  where
    skipped : (a b : Bool) → a ≡ false → (not a || b) ≡ true
    skipped a b e = ground (arith, e)

    wanted : (a b : Bool) → a ≡ true → b ≡ false → (not a || b) ≡ false
    wanted a b e d = ground (arith, e, d)

emit_done-IsOver :
    (now : ℕ) (w : Writing) → IsOpen w → (w.0).finish_emitted ≡ true → IsOver (emit_done now w)
unfolding emit_done
emit_done-IsOver now (t, out) (n, l) f =
    let c = counted now n t out l f in
    let e = emit_usage now (t, out) in
    let ended : Writing → Writing =
      λ x. (record (x.0) { done = true }, x.1 ++ codes "data: [DONE]\n\n") in
    let open_yet : emit_done now (t, out) ≡ ended e =
      ap (λ (b : Bool). if b then (t, out) else ended e) l.unfinished in
    let m =
      subst
        (λ k.
          IsStream t.include_usage c.stamp t.role_emitted k true true
            (c.text ++ codes "data: [DONE]\n\n"))
        (sym l.next) c.ends in
    subst IsOver (sym (open_yet ∙ ap ended c.same))
      (record { stream = m; finished = f; over = refl })

default-IsReason : (t : Translator) → IsReason (default_finish t)
unfolding default_finish
default-IsReason t = elim (Bool-cases (ltb 0 t.next_tool_ord)) [
  | inl e ↦ rw e is_tool_calls
  | inr e ↦ rw e is_stop
]

-- Finish and close.
pub ended-IsOver :
    (now : ℕ) (w : Writing)
    → IsOpen w
    → IsOver (emit_done now (give_finish now (finish_or_default (w.0)) w))
ended-IsOver now (t, out) (n, l) = with_reason (t.finish) refl
  where
    given : (r : Bytes) → IsReason r → IsOver (emit_done now (give_finish now (some r) (t, out)))
    given r i =
        let (live, f) = give_finish-IsLive now n n r t out l i in
        emit_done-IsOver now (give_finish now (some r) (t, out)) (n, live) f

    with_reason :
        (k : Option Bytes)
        → t.finish ≡ k
        → IsOver (
            emit_done now (
              give_finish now
                (elim k as (λ x. Option Bytes) [ none ↦ some (default_finish t) | some r ↦ some r ])
                (t, out)))
    with_reason none e = given (default_finish t) (default-IsReason t)
    with_reason (some r) e = given r (l.reason r e)

-- A test picks one of two writings.
pub picked-IsTranslating :
    (b : Bool) (v w : Writing)
    → IsTranslating v
    → (b ≡ false → IsTranslating w)
    → IsTranslating (if b then v else w)
picked-IsTranslating true v w i j = i
picked-IsTranslating false v w i j = j refl

pub on_done-IsTranslating : (now : ℕ) (w : Writing) → IsOpen w → IsTranslating (on_done now w)
unfolding on_done
on_done-IsTranslating now (t, out) i =
    picked-IsTranslating t.tool_open (t, out) _ (inl i) (λ e. inr (ended-IsOver now (t, out) i))

pub on_message_stop-IsOver : (now : ℕ) (w : Writing) → IsOpen w → IsOver (on_message_stop now w)
unfolding on_message_stop
on_message_stop-IsOver now (t, out) (n, l) =
    ended-IsOver now (record t { tool_open = false }, out)
      (n, aside t.frames t.failed false t.id t.model t.content_started t.usage l)

pub picked_answer :
    (b : Bool) (v w : Bool × Writing)
    → IsTranslating v.1
    → (b ≡ false → IsTranslating w.1)
    → IsTranslating (if b then v else w).1
picked_answer true v w i j = i
picked_answer false v w i j = j refl

-- What an answer of `finish` says of the writing behind it, where `out` was written before.
abbrev pub Answers : Bytes → Bool × Writing → Type 0
Answers out p = (p.0 ≡ true → IsOver p.1) × (p.0 ≡ false → (p.1).1 ≡ out)

picked-Answers :
    (out : Bytes) (b : Bool) (v w : Bool × Writing)
    → (b ≡ true → Answers out v)
    → (b ≡ false → Answers out w)
    → Answers out (if b then v else w)
picked-Answers out true v w i j = i refl
picked-Answers out false v w i j = j refl

pub finish-Answers : (now : ℕ) (w : Writing) → IsTranslating w → Answers w.1 (finish now w)
unfolding finish
finish-Answers now (t, out) i = with_reason (t.finish) refl
  where
    already : t.done ≡ true → IsOver (t, out)
    already d = elim i [ inl (n, l) ↦ let c = l.unfinished in cc (c, d) | inr o ↦ o ]

    closing :
        (r : Bytes)
        → t.finish ≡ some r
        → t.done ≡ false
        → IsOver (emit_done now (give_finish now (some r) (t, out)))
    closing r e d = elim i [
      | inl (n, l) ↦
          let (live, f) = give_finish-IsLive now n n r t out l (l.reason r e) in
          emit_done-IsOver now (give_finish now (some r) (t, out)) (n, live) f
      | inr o ↦ let over = o.over in cc (over, d)
    ]

    with_reason :
        (k : Option Bytes)
        → t.finish ≡ k
        → Answers out (elim k as (λ x. Bool × Writing) [
          | none ↦ (not t.failed && t.done, (t, out))
          | some r ↦
              if t.failed
              then (false, (t, out))
              else if t.done
              then (true, (t, out))
              else (true, emit_done now (give_finish now (some r) (t, out)))
        ])
    with_reason none e = (λ h. already (ground (arith, h)), λ h. refl)
    with_reason (some r) e =
        picked-Answers out t.failed _ _ (λ f. (λ h. cc h, λ h. refl))
          λ f.
            picked-Answers out t.done _ _ (λ d. (λ h. already d, λ h. refl))
              λ d. (λ h. closing r e d, λ h. cc h)
