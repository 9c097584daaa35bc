-- ===== src/Provider/Sse/Drain.antt =====
-- What `SseFrameReader` hands out for the bytes of a feed, against the bytes in turn.
use llmbridge.Base.{
  Bool-cases, inl, inr, ℕ, zero, suc, ◌+◌, ◌<◌, ◌≡◌, refl, ap, subst, sym, ◌∙◌, Bool, true, false,
  not, ◌||◌, List, [], ◌∷◌, none, some, if◌then◌else◌, length, arith,
}
use llmbridge.Base.Bytes.{Bytes}
use llmbridge.Provider.Sse.{
  SseFrameReader, Step, event, more, fail, Round, again, returned, holds_cr, feed, round, next_loop,
  next, drain, read_events,
}
use llmbridge.Provider.Sse.Bytewise.{Reading, onto, reads, capped}
use llmbridge.Provider.Sse.Follows.{text_of, reading, after_round, after-round}
use llmbridge.Provider.Sse.Advances.{goes_on, Leaves, round-Leaves}

-- A search for carriage returns is left out only where there are none.
abbrev pub clear : SseFrameReader → Bool
clear r = r.has_cr || not (holds_cr r.rest)

-- Of a call of `next` with the result `p`.
record Called (r : SseFrameReader) (p : Step × SseFrameReader) : Type 0 where
  read : reading r ≡ after_round (returned p.0 p.1)
  leaves : Leaves r (returned p.0 p.1)

Leaves-again :
    (r q : SseFrameReader) (x : Round)
    → clear r ≡ true
    → Leaves r (again q)
    → Leaves q x
    → Leaves r x
Leaves-again r q x c l m =
    let shorter : length q.rest < length r.rest = l.shorter refl in
    record {
      shorter = λ g. omega (arith, shorter, m.shorter g);
      keeps_cr = λ g c. m.keeps_cr g (l.keeps_cr refl c);
      keeps_stopped = m.keeps_stopped ∙ l.keeps_stopped;
      sound = λ f. let still = l.sound f in m.sound (ground (arith, still));
    }

after_its_round :
    (fuel : ℕ) (r : SseFrameReader) (x : Round)
    → round r ≡ x
    → length r.rest < suc fuel
    → clear r ≡ true
    → ((q : SseFrameReader) → length q.rest < fuel → clear q ≡ true → Called q (next_loop fuel q))
    → Called r (next_loop (suc fuel) r)
after_its_round fuel r (again q) e h c rec =
    let l = subst (Leaves r) e (round-Leaves r) in
    let n = l.shorter refl in
    let ih = rec q (omega (arith, n, h)) (l.keeps_cr refl c) in
    let goes : next_loop (suc fuel) r ≡ next_loop fuel q = unfold next_loop in ground (arith, e) in
    subst (Called r) (sym goes) (record {
      read = after-round r c ∙ ap after_round e ∙ unfold after_round in ih.read;
      leaves = Leaves-again r q (returned (next_loop fuel q).0 (next_loop fuel q).1) c l ih.leaves;
    })
after_its_round fuel r (returned step q) e h c rec =
    let goes : next_loop (suc fuel) r ≡ (step, q) = unfold next_loop in ground (arith, e) in
    subst (Called r) (sym goes) (record {
      read = after-round r c ∙ ap after_round e;
      leaves = subst (Leaves r) e (round-Leaves r);
    })

next_loop-Called :
    (fuel : ℕ) (r : SseFrameReader)
    → length r.rest < fuel
    → clear r ≡ true
    → Called r (next_loop fuel r)
next_loop-Called zero r h c = ground (arith, h)
next_loop-Called (suc fuel) r h c =
    after_its_round fuel r (round r) refl h c (λ q. next_loop-Called fuel q)

-- A reader that is neither failed nor stopped.
pub record IsOpen (r : SseFrameReader) : Type 0 where
  pub good : r.failed ≡ false
  pub going : r.stopped ≡ false

next-Called : (r : SseFrameReader) → IsOpen r → clear r ≡ true → Called r (next r)
next-Called r o c =
    let e : next r ≡ next_loop (length r.rest + 1) r =
      unfold next in ground (arith, o.good, o.going) in
    subst (Called r) (sym e) (next_loop-Called (length r.rest + 1) r (omega arith) c)

-- An event takes text.
pub next-shorter :
    (r : SseFrameReader) (d : Bytes)
    → clear r ≡ true
    → (next r).0 ≡ event d
    → (length ((next r).1).rest < length r.rest) × (clear (next r).1 ≡ true)
next-shorter r d c e = elim (Bool-cases r.failed) [
  | inl f ↦
      let x : next r ≡ (fail, r) = unfold next in ground (arith, f) in
      let y = ap (λ p. p.0) x in cc (y, e)
  | inr f ↦ elim (Bool-cases r.stopped) [
    | inl s ↦
        let x : next r ≡ (more, r) = unfold next in ground (arith, f, s) in
        let y = ap (λ p. p.0) x in cc (y, e)
    | inr s ↦
        let l = (next-Called r (record { good = f; going = s }) c).leaves in
        let g : goes_on (returned (next r).0 (next r).1) ≡ true =
          ap (λ k. goes_on (returned k (next r).1)) e in
        (l.shorter g, l.keeps_cr g c)
  ]
]

-- What was read at the end: the events, and the text that is unfinished, if it did not fail.
unfoldable pub outcome : List Bytes × Bool × SseFrameReader → Reading
outcome (events, good, q) = (events, (if good then some (text_of q) else none))

record Drained (r : SseFrameReader) (p : List Bytes × Bool × SseFrameReader) : Type 0 where
  read : reading r ≡ outcome p
  stays : p.1 ≡ true → IsOpen (p.2)

after_its_step :
    (fuel : ℕ) (r : SseFrameReader) (step : Step) (q : SseFrameReader)
    → next r ≡ (step, q)
    → length r.rest < suc fuel
    → IsOpen r
    → clear r ≡ true
    → ((q : SseFrameReader)
        → length q.rest < fuel
        → IsOpen q
        → clear q ≡ true
        → Drained q (drain fuel q))
    → Drained r (drain (suc fuel) r)
after_its_step fuel r (event d) q e h o c rec =
    let called = subst (Called r) e (next-Called r o c) in
    let l = called.leaves in
    let n = l.shorter refl in
    let still = l.sound o.good in
    let p : IsOpen q = record { good = ground (arith, still); going = l.keeps_stopped ∙ o.going } in
    let ih = rec q (omega (arith, n, h)) p (l.keeps_cr refl c) in
    let tail = drain fuel q in
    let goes : drain (suc fuel) r ≡ (d ∷ tail.0, tail.1, tail.2) =
      unfold drain in ground (arith, e) in
    subst (Drained r) (sym goes) (record {
      read = called.read ∙ unfold after_round in ap (onto d) ih.read ∙ unfold outcome in refl;
      stays = ih.stays;
    })
after_its_step fuel r more q e h o c rec =
    let called = subst (Called r) e (next-Called r o c) in
    let l = called.leaves in
    let still = l.sound o.good in
    let goes : drain (suc fuel) r ≡ ([], true, q) = unfold drain in ground (arith, e) in
    subst (Drained r) (sym goes) (record {
      read = called.read ∙ unfold after_round outcome in refl;
      stays = λ g. record { good = ground (arith, still); going = l.keeps_stopped ∙ o.going };
    })
after_its_step fuel r fail q e h o c rec =
    let called = subst (Called r) e (next-Called r o c) in
    let goes : drain (suc fuel) r ≡ ([], false, q) = unfold drain in ground (arith, e) in
    subst (Drained r) (sym goes) (record {
      read = called.read ∙ unfold after_round outcome in refl;
      stays = λ g. ground (arith, g);
    })

drain-Drained :
    (fuel : ℕ) (r : SseFrameReader)
    → length r.rest < fuel
    → IsOpen r
    → clear r ≡ true
    → Drained r (drain fuel r)
drain-Drained zero r h o c = ground (arith, h)
drain-Drained (suc fuel) r h o c =
    after_its_step fuel r (next r).0 (next r).1 refl h o c (λ q. drain-Drained fuel q)

read_events-Drained :
    (bytes : Bytes) (r : SseFrameReader) → IsOpen r → Drained (feed bytes r) (read_events bytes r)
unfolding read_events
read_events-Drained bytes r o =
    let len : length (feed bytes r).rest < length bytes + 1 = unfold feed in omega arith in
    let c : clear (feed bytes r) ≡ true = unfold feed in ground arith in
    let p : IsOpen (feed bytes r) = unfold feed in record { good = o.good; going = o.going } in
    drain-Drained (length bytes + 1) (feed bytes r) len p c

pub read_events-IsOpen :
    (bytes : Bytes) (r : SseFrameReader)
    → IsOpen r
    → (read_events bytes r).1 ≡ true
    → IsOpen (read_events bytes r).2
read_events-IsOpen bytes r o g = (read_events-Drained bytes r o).stays g

-- For a reader that is neither failed nor stopped, and the bytes of any read: the events that it
-- hands out, whether it fails, and the line, the event and the half of a pair that it keeps for the
-- next read are those of the machine that takes the bytes one by one.
pub read_events-reads :
    (bytes : Bytes) (r : SseFrameReader)
    → IsOpen r
    → outcome (read_events bytes r) ≡ capped (reads (text_of r) bytes)
read_events-reads bytes r o =
    sym (read_events-Drained bytes r o).read ∙ unfold reading text_of feed in refl
