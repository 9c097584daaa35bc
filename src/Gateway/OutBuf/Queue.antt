-- ===== src/Gateway/OutBuf/Queue.antt =====
-- `OutBuf` as a queue of bytes: what leaves on the wire is what was staged, in order.
use llmbridge.Base.{
  zero, suc, if◌then◌else◌, ℕ, ◌+◌, ◌≤◌, ◌↔◌, ◌≡◌, refl, sym, ap, ◌∙◌, true, false, not, ◌&&◌, List,
  [], ◌∷◌, ◌++◌, append-nil, append_assoc, Bool-cases, inl, inr, ◌==◌, length, length-append,
  length-drop, take, drop, drop-append, drop_all, drop-length_append, take-append-drop, take-append,
  drop-drop, arith,
}
use llmbridge.Base.Bytes.{Bytes, is_empty}
use llmbridge.Gateway.OutBuf.{
  OutBuf, new_buf, stage, wire, pin, sent, idle, unsent, take_all, adopt, clear, scrub,
}

-- What was staged and is not yet on the wire.
unfoldable pub pending : OutBuf → Bytes
pending b = drop b.off b.front ++ b.back

-- The offset is within the front, and bytes stage behind it only while it is pinned.
pub record IsValid (b : OutBuf) : Type 0 where
  pub within : b.off ≤ length b.front
  pub staged : b.pinned ≡ false → b.back ≡ []

stage-IsValid : (b : OutBuf) (x : Bytes) → IsValid b → IsValid (stage b x)
unfolding stage
stage-IsValid b x v = ground (arith, length-append b.front x)

sent-IsValid : (b : OutBuf) (n : ℕ) → IsValid b → n ≤ length (wire b) → IsValid (sent b n)
unfolding sent wire is_empty
sent-IsValid b n v h = ground (arith, length-append b.front b.back, length-drop b.off b.front)

-- Staged bytes wait behind all others.
pending-stage : (b : OutBuf) (x : Bytes) → IsValid b → pending (stage b x) ≡ pending b ++ x
unfolding stage pending
pending-stage b x v = elim (Bool-cases b.pinned) [
  | inl p ↦ rw (p, stage) (sym (append_assoc (drop b.off b.front) b.back x))
  | inr p ↦ elim (Bool-cases (not (b.off == 0) && b.off == length b.front)) [
    | inl drained ↦
        ground (arith, v.staged p, drop_all b.off b.front, append-nil x, append-nil b.front)
    | inr open_front ↦ ground (
      arith,
      v.staged p,
      drop-append b.off b.front x,
      append-nil (drop b.off b.front),
      append-nil (drop b.off (b.front ++ x)),
    )
  ]
]

-- All that the buffer holds, from the wire's place on, seen as one text.
pending-whole : (b : OutBuf) → IsValid b → pending b ≡ drop b.off (b.front ++ b.back)
unfolding pending
pending-whole b v = sym (drop-append b.off b.front b.back v.within)

is_empty-nil : (s : Bytes) → is_empty s ≡ true → s ≡ []
unfolding is_empty
is_empty-nil [] h = refl
is_empty-nil (c ∷ s) h = cc

-- Bytes leave from the front of the queue.
pending-sent :
    (b : OutBuf) (n : ℕ) → IsValid b → n ≤ length (wire b) → pending (sent b n) ≡ drop n (pending b)
pending-sent b n v h =
    rw (pending-whole b v, drop-drop b.off n (b.front ++ b.back))
      (unfold sent pending wire in
        ground (
          arith,
          is_empty-nil b.back,
          append-nil b.front,
          append-nil (drop (b.off + n) b.front),
          append-nil b.back,
          append-nil (drop (b.off + n) (b.front ++ b.back)),
          drop-length_append b.front b.back,
        ))

-- What `take` leaves for the wire: what a send still reads.
abbrev pub left : OutBuf → Bytes
left b = if b.pinned then wire b else []

-- A buffer in use, in all its operations: what was staged in it and not dropped, and what left on the
-- wire, both in order. A send that completes has taken bytes from the front of what `wire` shows.
-- `clear` and `scrub` drop what is pending, `take` all but what a send still reads, and `adopt` is for
-- an empty front.
pub data Trace : OutBuf → Bytes → Bytes → Type 0 where
  fresh : Trace new_buf [] []
  staging : {b : OutBuf} {s d : Bytes} (x : Bytes) → Trace b s d → Trace (stage b x) (s ++ x) d
  pinning : {b : OutBuf} {s d : Bytes} → Trace b s d → Trace (pin b) s d
  sending :
      {b : OutBuf} {s d : Bytes} (n : ℕ)
      → n ≤ length (wire b)
      → Trace b s d
      → Trace (sent b n) s (d ++ take n (wire b))
  taking : {b : OutBuf} {s d : Bytes} → Trace b s d → Trace (take_all b).1 (d ++ left b) d
  adopting :
      {b : OutBuf} {s d : Bytes} (x : Bytes) → b.front ≡ [] → Trace b s d → Trace (adopt b x) s d
  clearing : {b : OutBuf} {s d : Bytes} → Trace b s d → Trace (clear b) d d
  scrubbing : {b : OutBuf} {s d : Bytes} → Trace b s d → Trace (scrub b) d d

pin-IsValid : (b : OutBuf) → IsValid b → IsValid (pin b)
unfolding pin
pin-IsValid b v = record { within = v.within; staged = λ e. cc }

take_all-IsValid : (b : OutBuf) → IsValid b → IsValid (take_all b).1
unfolding take_all
take_all-IsValid b v = record { within = ground (arith, v.within); staged = λ e. ground arith }

adopt-IsValid : (b : OutBuf) (x : Bytes) → IsValid b → IsValid (adopt b x)
unfolding adopt
adopt-IsValid b x v = record { within = omega arith; staged = v.staged }

clear-IsValid : (b : OutBuf) → IsValid (clear b)
unfolding clear
clear-IsValid b = record { within = omega arith; staged = λ e. refl }

scrub-IsValid : (b : OutBuf) → IsValid (scrub b)
unfolding scrub
scrub-IsValid b = record { within = omega arith; staged = λ e. refl }

pub Trace-IsValid : {b : OutBuf} {s d : Bytes} → Trace b s d → IsValid b
Trace-IsValid fresh = record { within = omega arith; staged = λ e. refl }
Trace-IsValid (staging {b} x t) = stage-IsValid b x (Trace-IsValid t)
Trace-IsValid (pinning {b} t) = pin-IsValid b (Trace-IsValid t)
Trace-IsValid (sending {b} n h t) = sent-IsValid b n (Trace-IsValid t) h
Trace-IsValid (taking {b} t) = take_all-IsValid b (Trace-IsValid t)
Trace-IsValid (adopting {b} x h t) = adopt-IsValid b x (Trace-IsValid t)
Trace-IsValid (clearing {b} t) = clear-IsValid b
Trace-IsValid (scrubbing {b} t) = scrub-IsValid b

-- What `wire` shows is the front of the queue.
take-wire : (b : OutBuf) (n : ℕ) → n ≤ length (wire b) → take n (wire b) ≡ take n (pending b)
unfolding wire pending
take-wire b n h = sym (take-append n (drop b.off b.front) b.back h)

pending-pin : (b : OutBuf) → pending (pin b) ≡ pending b
unfolding pending pin
pending-pin b = refl

pending-take_all : (b : OutBuf) → pending (take_all b).1 ≡ left b
unfolding pending take_all wire
pending-take_all b = ground (arith, append-nil (drop b.off b.front))

pending-adopt : (b : OutBuf) (x : Bytes) → b.front ≡ [] → pending (adopt b x) ≡ pending b
unfolding pending adopt
pending-adopt b x h = rw h (drop_of_nil b.off)
  where
    drop_of_nil : (n : ℕ) → b.back ≡ drop n [] ++ b.back
    drop_of_nil zero = refl
    drop_of_nil (suc n) = refl

-- However the operations of a buffer interleave: the bytes that have left and those still pending are,
-- in this order, the bytes that were staged and not dropped. None is lost, repeated or moved.
pub Trace-staged : {b : OutBuf} {s d : Bytes} → Trace b s d → d ++ pending b ≡ s
Trace-staged fresh = unfold pending in refl
Trace-staged (staging {b} {s} {d} x t) =
    ap (λ q. d ++ q) (pending-stage b x (Trace-IsValid t))
    ∙ sym (append_assoc d (pending b) x)
    ∙ ap (λ q. q ++ x) (Trace-staged t)
Trace-staged (pinning {b} {s} {d} t) = ap (λ q. d ++ q) (pending-pin b) ∙ Trace-staged t
Trace-staged (sending {b} {s} {d} n h t) =
    append_assoc d (take n (wire b)) (pending (sent b n))
    ∙ ap (λ q. d ++ q)
        (rw (pending-sent b n (Trace-IsValid t) h, take-wire b n h)
          (take-append-drop n (pending b)))
    ∙ Trace-staged t
Trace-staged (taking {b} {s} {d} t) = ap (λ q. d ++ q) (pending-take_all b)
Trace-staged (adopting {b} {s} {d} x h t) = ap (λ q. d ++ q) (pending-adopt b x h) ∙ Trace-staged t
Trace-staged (clearing {b} {s} {d} t) = unfold pending clear in append-nil d
Trace-staged (scrubbing {b} {s} {d} t) = unfold pending scrub in append-nil d

-- While a send reads the front, staging leaves what it reads alone, and the pin.
pub wire-stage_pinned :
    (b : OutBuf) (x : Bytes)
    → b.pinned ≡ true
    → (wire (stage b x) ≡ wire b) × ((stage b x).pinned ≡ true)
unfolding wire stage
wire-stage_pinned b x p = ground arith

nil_of_length : (s : Bytes) → length s ≡ 0 → s ≡ []
nil_of_length [] h = refl
nil_of_length (c ∷ s) h = absurd (omega arith)

length-pending : (b : OutBuf) → unsent b ≡ length (pending b)
unfolding unsent pending
length-pending b =
    omega (arith, length-append (drop b.off b.front) b.back, length-drop b.off b.front)

idle_lem : (b : OutBuf) → IsValid b → (idle b ≡ true) ↔ (unsent b ≡ 0)
unfolding idle unsent is_empty
idle_lem b v = (λ e. ground arith, λ e. ground (arith, nil_of_length b.back))

-- For a valid buffer, `unsent` is the number of the bytes pending, and `idle` says exactly that
-- there are none.
pub unsent-pending :
    (b : OutBuf)
    → IsValid b
    → (unsent b ≡ length (pending b)) × ((idle b ≡ true) ↔ (pending b ≡ []))
unsent-pending b v = (
  length-pending b,
  (
    λ e. nil_of_length (pending b) (sym (length-pending b) ∙ (idle_lem b v).0 e),
    λ e. (idle_lem b v).1 (length-pending b ∙ ap length e),
  ),
)

take_all-sent : (n : ℕ) (b : OutBuf) → b.back ≡ [] → (take_all (sent (pin b) n)).0 ≡ (take_all b).0
unfolding take_all sent pin is_empty
take_all-sent n b e = ground arith

-- Sends that complete one after the other, with nothing staged between.
unfoldable pub send_all : OutBuf → List ℕ → OutBuf
send_all b [] = b
send_all b (n ∷ ns) = send_all (sent (pin b) n) ns

-- A request that was staged survives its sends, whole or partial, for a resend: as long as nothing
-- was staged behind a pin, `take` gives back what it would have given before them.
pub take_all-send_all :
    (ns : List ℕ) (b : OutBuf) → b.back ≡ [] → (take_all (send_all b ns)).0 ≡ (take_all b).0
unfolding send_all
take_all-send_all [] b e = refl
take_all-send_all (n ∷ ns) b e =
    take_all-send_all ns (sent (pin b) n) (unfold sent pin is_empty in ground arith)
    ∙ take_all-sent n b e
