-- ===== src/Provider/Sse/Translate/Live.antt =====
-- A translator whose stream is still open, and what a chunk does to it.
use llmbridge.Base.{
  ℕ, zero, suc, ◌+◌, ◌/◌, ◌%◌, ◌≤◌, ◌<◌, ◌≡◌, refl, ap, subst, sym, ◌∙◌, Bool, true, false, [], ◌∷◌,
  ◌++◌, append-nil, none, some, ltb, if◌then◌else◌, get_or, Bool-cases, inl, inr,
}
use llmbridge.Base.Bytes.{Bytes, codes, is_empty}
use llmbridge.Http.Write.{decimal_onto, append_decimal}
use llmbridge.Provider.Sse.{SseFrameReader}
use llmbridge.Provider.Openai.{Usage, chunk, envelope, choice, end_choice, close}
use llmbridge.Provider.Sse.Translate.{
  Translator, Writing, max_blocks, ensure_created, emit_head, emit_tail, write, seconds,
}
use llmbridge.Provider.Sse.Translate.Dispatch.{give_role, give_finish}
use llmbridge.Provider.Sse.Translate.Grammar.{
  chunk_of, role_delta, IsReason, is_stop, is_length, is_tool_calls, is_content_filter, IsStream,
  role, finished, unstamped-IsStream,
}
use llmbridge.Provider.Sse.Translate.Writes.{null_chunk, named_chunk}

-- What was written opened `n` tool calls, and the translator counts `m` of them.
pub record IsLive (n m : ℕ) (t : Translator) (out : Bytes) : Type 0 where
  pub stream : IsStream t.include_usage t.created t.role_emitted n t.finish_emitted false out
  pub next : t.next_tool_ord ≡ m
  pub ords : (i o : ℕ) → get_or t.block_tool_ord i none ≡ some o → o < m
  pub few : m ≤ max_blocks
  pub reason : (r : Bytes) → t.finish ≡ some r → IsReason r
  pub unfinished : t.done ≡ false
  pub uncounted : t.usage_emitted ≡ false

digits-not_empty : (fuel n c : ℕ) (rest : Bytes) → is_empty (decimal_onto fuel n (c ∷ rest)) ≡ false
unfolding decimal_onto is_empty
digits-not_empty zero n c rest = refl
digits-not_empty (suc fuel) n c rest = elim (Bool-cases (ltb n 10)) [
  | inl e ↦ rw e refl
  | inr e ↦ rw e (digits-not_empty fuel (n / 10) (b'0' + n % 10) (c ∷ rest))
]

decimal-not_empty : (n : ℕ) → is_empty (append_decimal [] n) ≡ false
unfolding append_decimal decimal_onto is_empty
decimal-not_empty n = elim (Bool-cases (ltb n 10)) [
  | inl e ↦ rw e refl
  | inr e ↦ rw e (digits-not_empty n (n / 10) (b'0' + n % 10) [])
]

-- The translator with its stamp.
pub record Stamped (now n : ℕ) (t : Translator) (out : Bytes) : Type 0 where
  pub stamp : Bytes
  pub same : ensure_created now t ≡ record t { created = stamp }
  pub filled : is_empty stamp ≡ false
  pub stream : IsStream t.include_usage stamp t.role_emitted n t.finish_emitted false out

pub stamp_once :
    (now n : ℕ) (t : Translator) (out : Bytes)
    → IsStream t.include_usage t.created t.role_emitted n t.finish_emitted false out
    → Stamped now n t out
unfolding ensure_created
stamp_once now n t out s = elim (Bool-cases (is_empty t.created)) [
  | inl e ↦
      let c = append_decimal [] (seconds now t.created_secs) in
      record {
        stamp = c;
        same = rw e refl;
        filled = decimal-not_empty (seconds now t.created_secs);
        stream = unstamped-IsStream t.include_usage t.created e s c;
      }
  | inr e ↦ record { stamp = t.created; same = rw e refl; filled = e; stream = s }
]

pub emit_null :
    (now n : ℕ) (delta : Bytes) (t : Translator) (out : Bytes) (s : Stamped now n t out)
    → emit_tail none (write delta (emit_head now (t, out))) ≡ (
      record t { created = s.stamp },
      out ++ chunk_of t.include_usage t.id s.stamp t.model delta none,
    )
unfolding emit_tail emit_head
emit_null now n delta t out s =
    let u = ensure_created now t in
    let a = null_chunk u.include_usage out u.id u.created u.model delta in
    ap (λ k. (u, k)) a
    ∙ ap
        (λ (x : Translator). (x, out ++ chunk_of x.include_usage x.id x.created x.model delta none))
        s.same

emit_named :
    (now n : ℕ) (reason : Bytes) (t : Translator) (out : Bytes) (s : Stamped now n t out)
    → is_empty reason ≡ false
    → emit_tail (some reason) (emit_head now (t, out)) ≡ (
      record t { created = s.stamp },
      out ++ chunk_of t.include_usage t.id s.stamp t.model [] (some reason),
    )
unfolding emit_tail emit_head
emit_named now n reason t out s h =
    let u = ensure_created now t in
    let head = choice (envelope (out ++ codes "data: ") chunk u.id u.created u.model) chunk in
    let a = named_chunk u.include_usage out u.id u.created u.model [] reason h in
    let b =
      ap (λ k. close (end_choice k reason) none u.include_usage none ++ codes "\n\n")
        (sym (append-nil head))
      ∙ a in
    ap (λ k. (u, k)) b
    ∙ ap
        (λ (x : Translator).
          (x, out ++ chunk_of x.include_usage x.id x.created x.model [] (some reason)))
        s.same

-- `give_role` leaves a stream with the role in it, and the counts of tool calls alone.
pub give_role-IsLive :
    (now n m : ℕ) (t : Translator) (out : Bytes)
    → IsLive n m t out
    → let w = give_role now (t, out) in IsLive n m w.0 w.1 × (w.0.role_emitted ≡ true)
unfolding give_role
give_role-IsLive now n m t out l = elim (Bool-cases t.role_emitted) [
  | inl e ↦
      let w = emit_tail none (write role_delta (emit_head now (t, out))) in
      let q : give_role now (t, out) ≡ (t, out) =
        ap (λ (b : Bool). if b then (t, out) else (record (w.0) { role_emitted = true }, w.1)) e in
      subst (λ (w : Writing). IsLive n m w.0 w.1 × (w.0.role_emitted ≡ true)) (sym q) (l, e)
  | inr e ↦
      let s = stamp_once now n t out l.stream in
      let a = emit_null now n role_delta t out s in
      let g =
        subst (λ b. IsStream t.include_usage s.stamp b n t.finish_emitted false out) e s.stream in
      let w = emit_tail none (write role_delta (emit_head now (t, out))) in
      let q : give_role now (t, out) ≡ (record (w.0) { role_emitted = true }, w.1) =
        ap (λ (b : Bool). if b then (t, out) else (record (w.0) { role_emitted = true }, w.1)) e in
      let p : (record (w.0) { role_emitted = true }, w.1) ≡ (
        record t { created = s.stamp; role_emitted = true },
        out ++ chunk_of t.include_usage t.id s.stamp t.model role_delta none,
      ) =
        ap (λ (w : Writing). (record (w.0) { role_emitted = true }, w.1)) a in
      subst (λ (w : Writing). IsLive n m w.0 w.1 × (w.0.role_emitted ≡ true)) (sym (q ∙ p))
        (
          record {
            stream = role t.id t.model s.filled g;
            next = l.next;
            ords = l.ords;
            few = l.few;
            reason = l.reason;
            unfinished = l.unfinished;
            uncounted = l.uncounted;
          },
          refl,
        )
]

reason-not_empty : (r : Bytes) → IsReason r → is_empty r ≡ false
unfolding is_empty
reason-not_empty _ is_stop = refl
reason-not_empty _ is_length = refl
reason-not_empty _ is_tool_calls = refl
reason-not_empty _ is_content_filter = refl

-- `give_finish` leaves a stream with a finish reason in it.
pub give_finish-IsLive :
    (now n m : ℕ) (r : Bytes) (t : Translator) (out : Bytes)
    → IsLive n m t out
    → IsReason r
    → let w = give_finish now (some r) (t, out) in IsLive n m w.0 w.1 × (w.0.finish_emitted ≡ true)
unfolding give_finish
give_finish-IsLive now n m r t out l i = elim (Bool-cases t.finish_emitted) [
  | inl e ↦
      let w = emit_tail (some r) (emit_head now (t, out)) in
      let q : give_finish now (some r) (t, out) ≡ (t, out) =
        ap (λ (b : Bool). if b then (t, out) else (record (w.0) { finish_emitted = true }, w.1))
          e in
      subst (λ (w : Writing). IsLive n m w.0 w.1 × (w.0.finish_emitted ≡ true)) (sym q) (l, e)
  | inr e ↦
      let s = stamp_once now n t out l.stream in
      let a = emit_named now n r t out s (reason-not_empty r i) in
      let g =
        subst (λ b. IsStream t.include_usage s.stamp t.role_emitted n b false out) e s.stream in
      let w = emit_tail (some r) (emit_head now (t, out)) in
      let q : give_finish now (some r) (t, out) ≡ (record (w.0) { finish_emitted = true }, w.1) =
        ap (λ (b : Bool). if b then (t, out) else (record (w.0) { finish_emitted = true }, w.1))
          e in
      let p : (record (w.0) { finish_emitted = true }, w.1) ≡ (
        record t { created = s.stamp; finish_emitted = true },
        out ++ chunk_of t.include_usage t.id s.stamp t.model [] (some r),
      ) =
        ap (λ (w : Writing). (record (w.0) { finish_emitted = true }, w.1)) a in
      subst (λ (w : Writing). IsLive n m w.0 w.1 × (w.0.finish_emitted ≡ true)) (sym (q ∙ p))
        (
          record {
            stream = finished t.id t.model s.filled i g;
            next = l.next;
            ords = l.ords;
            few = l.few;
            reason = l.reason;
            unfinished = l.unfinished;
            uncounted = l.uncounted;
          },
          refl,
        )
]

-- A chunk that the stream takes, whatever its delta.
pub emit_null-IsLive :
    (now n n' m : ℕ) (delta : Bytes) (t : Translator) (out : Bytes)
    → IsLive n m t out
    → ((stamp : Bytes)
        → is_empty stamp ≡ false
        → IsStream t.include_usage stamp t.role_emitted n t.finish_emitted false out
        → IsStream t.include_usage stamp t.role_emitted n' t.finish_emitted false
            (out ++ chunk_of t.include_usage t.id stamp t.model delta none))
    → let w = emit_tail none (write delta (emit_head now (t, out))) in IsLive n' m w.0 w.1
emit_null-IsLive now n n' m delta t out l takes =
    let s = stamp_once now n t out l.stream in
    subst (λ (w : Writing). IsLive n' m w.0 w.1) (sym (emit_null now n delta t out s))
      (record {
        stream = takes s.stamp s.filled s.stream;
        next = l.next;
        ords = l.ords;
        few = l.few;
        reason = l.reason;
        unfinished = l.unfinished;
        uncounted = l.uncounted;
      })

-- What the stream does not depend on.
pub aside :
    (frames : SseFrameReader) (failed tool_open : Bool) (id model : Bytes) (content_started : Bool)
    (usage : Usage) {n m : ℕ} {t : Translator} {out : Bytes}
    → IsLive n m t out
    → IsLive n m
        (record t {
          frames = frames;
          failed = failed;
          tool_open = tool_open;
          id = id;
          model = model;
          content_started = content_started;
          usage = usage;
        })
        out
aside frames failed tool_open id model content_started usage l = record {
  stream = l.stream;
  next = l.next;
  ords = l.ords;
  few = l.few;
  reason = l.reason;
  unfinished = l.unfinished;
  uncounted = l.uncounted;
}
