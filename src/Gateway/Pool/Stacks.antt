-- ===== src/Gateway/Pool/Stacks.antt =====
-- The pool promises a stack of connections for each venue.
use llmbridge.Base.{
  ℕ, ◌<◌, ◌≡◌, refl, ap, subst, sym, ◌∙◌, Bool, true, false, not, ◌&&◌, List, [], ◌∷◌, Option, none,
  some, if◌then◌else◌, ltb, leb, Bool-cases, Option-cases, inl, inr, arith,
}
use llmbridge.Base.Bytes.{is_empty}
use llmbridge.Gateway.OutBuf.{OutBuf, clear, scrub}
use llmbridge.Gateway.Pool.{
  Ptr, UpstreamConn, UpstreamPool, index, is_null, remove, out_of_range, acquire, unpair, refusal,
  scrubbed, push, accepts, release,
}
use llmbridge.Gateway.Pool.Chain.{first, Chain, put_self}
use llmbridge.Gateway.Pool.Queues.{Queues, put_queue, erase, IsPool}
use llmbridge.Gateway.Pool.Queues.Removes.{without, remove-IsPool}
use llmbridge.Gateway.Pool.Queues.Pushes.{unpair-IsPool, push-IsPool, conns-pushed}
use llmbridge.Http.Framer.{new_framer, framer_reset}

-- The newest connection of a stack, and the stacks without it.
abbrev pub popped : ℕ → Queues → List ℕ → Ptr × Queues
popped v q [] = (none, q)
popped v q (u ∷ us) = (some u, put_queue q v us)

abbrev pub pop : Option ℕ → Queues → Ptr × Queues
pop none q = (none, q)
pop (some v) q = popped v q (q v)

without-first :
    (p : UpstreamPool) (q : Queues) (v u : ℕ) (us : List ℕ)
    → IsPool p q
    → q v ≡ u ∷ us
    → without p u q ≡ put_queue q v us
without-first p q v u us i e =
    let (n, c) = subst (λ k. Chain p.conns v none k none) e (i.chain v) in
    let a : without p u q
        ≡ put_queue q (index (p.conns u).venue) (erase u (q (index (p.conns u).venue))) =
      unfold without in
      ap
        (λ (b : Bool).
          if b
          then put_queue q (index (p.conns u).venue) (erase u (q (index (p.conns u).venue)))
          else q)
        n.is_pooled in
    let b = ap (λ k. put_queue q (index k) (erase u (q (index k)))) n.at_venue in
    let d : erase u (u ∷ us) ≡ us = unfold erase in ground arith in
    a ∙ b ∙ ap (λ k. put_queue q v (erase u k)) e ∙ ap (put_queue q v) d

-- Where the store holds the stacks `q`: `acquire` hands out the newest connection to the venue, or
-- none where its stack is empty or there is no such venue, and the store holds the stacks without
-- that connection.
pub acquire-pop :
    (venue : Option ℕ) (p : UpstreamPool) (q : Queues)
    → IsPool p q
    → ((acquire venue p).0 ≡ (pop venue q).0) × IsPool (acquire venue p).1 (pop venue q).1
unfolding acquire
acquire-pop none p q i = (refl, i)
acquire-pop (some v) p q i = elim (Bool-cases (leb p.venues v)) [
  | inl e ↦ let empty = i.in_range v (ground (arith, e)) in rw (e, empty) (refl, i)
  | inr e ↦ rw e (taken (q v) refl)
]
  where
    taken :
        (us : List ℕ)
        → q v ≡ us
        → ((elim ((p.lists v).newest) as (λ k. Ptr × UpstreamPool) [
          | none ↦ (none, p)
          | some u ↦ (some u, remove u p)
        ]).0
            ≡ (popped v q (q v)).0)
          × IsPool
              (elim ((p.lists v).newest) as (λ k. Ptr × UpstreamPool) [
                | none ↦ (none, p)
                | some u ↦ (some u, remove u p)
              ]).1
              (popped v q (q v)).1
    taken [] e = let n = i.newest_at v ∙ ap (λ k. first k none) e in rw (n, e) (refl, i)
    taken (u ∷ us) e =
        let n = i.newest_at v ∙ ap (λ k. first k none) e in
        rw (n, e)
          (refl, subst (IsPool (remove u p)) (without-first p q v u us i e) (remove-IsPool p q u i))

-- What `release` asks for, told at once.
abbrev pub is_reusable : UpstreamConn → Bool → Bool → Bool → UpstreamPool → Bool
is_reusable c keep_alive body_ended request_sent p =
    not c.doomed
    && not (is_null c.fd)
    && not c.pooled
    && keep_alive
    && body_ended
    && not c.peer_eof
    && is_empty c.rbuf
    && request_sent
    && ltb p.count p.cap
    && not (out_of_range c.venue p.venues)

-- No bytes in either half, and none sent.
abbrev pub IsEmptied : OutBuf → Type 0
IsEmptied b = (b.front ≡ []) × (b.back ≡ []) × (b.off ≡ 0)

-- A connection as it waits in the pool: without a peer or bytes to read, both output buffers empty
-- from their first byte on, and the framer as it was made, but for its count of parsed heads.
pub record IsClean (c : UpstreamConn) : Type 0 where
  pub no_peer : c.client ≡ none
  pub no_input : is_empty c.rbuf ≡ true
  pub no_output : IsEmptied c.out
  pub no_tls_output : IsEmptied c.tls_out
  pub new_frame : c.framer ≡ record new_framer { head_parses = c.framer.head_parses }

accepts-refusal :
    (c : UpstreamConn) (k b s : Bool) (p : UpstreamPool)
    → accepts (refusal c k b s p) ≡ is_reusable c k b s p
unfolding refusal
accepts-refusal c k b s p = ground arith

conns-unpair :
    (u : ℕ) (p : UpstreamPool) → (unpair u p).conns u ≡ record (p.conns u) { client = none }
unfolding unpair
conns-unpair u p = put_self p.conns u (record (p.conns u) { client = none })

accepts-release :
    (u : ℕ) (k b s : Bool) (now : ℕ) (p : UpstreamPool)
    → accepts (release u k b s now p).0 ≡ is_reusable (p.conns u) k b s p
unfolding release
accepts-release u k b s now p =
    let q = unpair u p in
    let r = refusal (q.conns u) k b s q in
    let a : accepts (release u k b s now p).0 ≡ accepts r = ground arith in
    let c : is_reusable (q.conns u) k b s q ≡ is_reusable (p.conns u) k b s q =
      ap (λ d. is_reusable d k b s q) (conns-unpair u p) in
    let d : is_reusable (p.conns u) k b s q ≡ is_reusable (p.conns u) k b s p =
      unfold unpair in refl in
    a ∙ accepts-refusal (q.conns u) k b s q ∙ c ∙ d

-- What a reusable connection's flags say.
record Reusable (c : UpstreamConn) (p : UpstreamPool) : Type 0 where
  v : ℕ
  at : c.venue ≡ some v
  below : v < p.venues
  idle : c.pooled ≡ false
  read_up : is_empty c.rbuf ≡ true

reusable :
    (c : UpstreamConn) (k b s : Bool) (p : UpstreamPool)
    → is_reusable c k b s p ≡ true
    → Reusable c p
reusable c k b s p h = elim (Option-cases c.venue) [
  | inl e ↦ absurd (ground (arith, h, e))
  | inr (v, e) ↦ record {
    v = v;
    at = e;
    below = ground (arith, h, e);
    idle = ground (arith, h);
    read_up = ground (arith, h);
  }
]

-- The stacks behind a release of `u` that is accepted or not.
abbrev pub pushed : Bool → ℕ → Option ℕ → Queues → Queues
pushed fits u venue q = if fits then put_queue q (index venue) (u ∷ q (index venue)) else q

-- Where the store holds the stacks `q`: `release` accepts a connection exactly where it is open, not
-- pooled yet and of a venue, its exchange ended for good with keep-alive on both sides, nothing is
-- left to read or unsent, and the pool has room. Then it is the newest of its venue's stack;
-- otherwise the stacks are as before.
pub release-push :
    (u : ℕ) (keep_alive body_ended request_sent : Bool) (now : ℕ) (p : UpstreamPool) (q : Queues)
    → IsPool p q
    → let fits = is_reusable (p.conns u) keep_alive body_ended request_sent p in
      let (refused, p') = release u keep_alive body_ended request_sent now p in
      (accepts refused ≡ fits) × IsPool p' (pushed fits u (p.conns u).venue q)
release-push u k b s now p q i =
    let fits = is_reusable (p.conns u) k b s p in
    let same = accepts-release u k b s now p in
    let j = unpair-IsPool p q u i in
    let d = unpair u p in
    let r = refusal (d.conns u) k b s d in
    let result : accepts (release u k b s now p).0 ≡ accepts r = unfold release in ground arith in
    let test : accepts r ≡ fits = sym result ∙ same in
    (
      same,
      elim (Bool-cases fits) [
        | inr e ↦
            let out : (release u k b s now p).1 ≡ d = unfold release in ground (arith, test, e) in
            rw e (subst (λ x. IsPool x q) (sym out) j)
        | inl e ↦
            let m = reusable (p.conns u) k b s p e in
            let at = ap (λ (c : UpstreamConn). c.venue) (conns-unpair u p) ∙ m.at in
            let idle = ap (λ (c : UpstreamConn). c.pooled) (conns-unpair u p) ∙ m.idle in
            let out : (release u k b s now p).1 ≡ push now u d =
              unfold release in ground (arith, test, e) in
            let n = push-IsPool d q now u m.v j at idle (unfold unpair in m.below) in
            let v = ap (λ k. put_queue q (index k) (u ∷ q (index k))) (sym m.at) in
            rw e (
              subst
                (λ x.
                  IsPool x
                    (put_queue q (index (p.conns u).venue) (u ∷ q (index (p.conns u).venue))))
                (sym out) (subst (IsPool (push now u d)) v n))
      ],
    )

IsClean-scrubbed :
    (now : ℕ) (c : UpstreamConn) (older : Ptr)
    → c.client ≡ none
    → is_empty c.rbuf ≡ true
    → IsClean (record (scrubbed now c) { pool_older = older; pool_newer = none; pooled = true })
unfolding scrubbed scrub clear framer_reset
IsClean-scrubbed now c older h e = record {
  no_peer = h;
  no_input = e;
  no_output = (refl, refl, refl);
  no_tls_output = (refl, refl, refl);
  new_frame = refl;
}

-- Where the store holds the stacks `q`: a connection that `release` accepts has no peer and no bytes
-- to read, both its output buffers are empty, and its framer is as it was made, the chunk decoder and
-- the body included, but for the count of parsed heads.
pub release-IsClean :
    (u : ℕ) (keep_alive body_ended request_sent : Bool) (now : ℕ) (p : UpstreamPool) (q : Queues)
    → IsPool p q
    → accepts (release u keep_alive body_ended request_sent now p).0 ≡ true
    → IsClean ((release u keep_alive body_ended request_sent now p).1.conns u)
release-IsClean u k b s now p q i h =
    let d = unpair u p in
    let c = d.conns u in
    let fits = sym (accepts-release u k b s now p) ∙ h in
    let m = reusable (p.conns u) k b s p fits in
    let j = unpair-IsPool p q u i in
    let at = ap (λ (c : UpstreamConn). c.venue) (conns-unpair u p) ∙ m.at in
    let idle = ap (λ (c : UpstreamConn). c.pooled) (conns-unpair u p) ∙ m.idle in
    let out : (release u k b s now p).1 ≡ push now u d = unfold release in ground (arith, h) in
    let self = conns-pushed d q now u m.v j at idle in
    let peer = ap (λ (c : UpstreamConn). c.client) (conns-unpair u p) in
    let empty = ap (λ (c : UpstreamConn). is_empty c.rbuf) (conns-unpair u p) ∙ m.read_up in
    subst IsClean (sym (ap (λ (x : UpstreamPool). x.conns u) out ∙ self))
      (IsClean-scrubbed now c (first (q m.v) none) peer empty)
