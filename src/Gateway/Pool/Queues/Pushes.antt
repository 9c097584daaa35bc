-- ===== src/Gateway/Pool/Queues/Pushes.antt =====
-- `push` puts a connection at the newest end of its venue's queue, and `unpair` moves none.
use llmbridge.Base.{
  ℕ, ◌+◌, ◌≤◌, ◌<◌, ◌≡◌, refl, ap, subst, sym, ◌∙◌, Bool, true, false, List, [], ◌∷◌, none, some,
  ◌==◌, if◌then◌else◌, Bool-cases, inl, inr, arith,
}
use llmbridge.Gateway.Pool.{
  Ptr, UpstreamConn, Conns, Ends, UpstreamPool, index, put, put_ends, is_null, set_newer, scrubbed,
  push, unpair,
}
use llmbridge.Gateway.Pool.Chain.{
  has, distinct, first, final, Chain, Chain-node, Chain-frame, put-other,
}
use llmbridge.Gateway.Pool.Links.{linked, linked-outside, linked_self, Chain-linked}
use llmbridge.Gateway.Pool.Queues.{Queues, put_queue, total, IsPool, total-put_queue}
use llmbridge.Gateway.Pool.Queues.Unlinks.{set_newer-keeps}

-- The same links, flag and venue.
record Alike (c d : UpstreamConn) : Type 0 where
  pooled_eq : c.pooled ≡ d.pooled
  venue_eq : c.venue ≡ d.venue
  newer_eq : c.pool_newer ≡ d.pool_newer
  older_eq : c.pool_older ≡ d.pool_older

Chain-Alike :
    (cs cs' : Conns) (v : ℕ) (before : Ptr) (xs : List ℕ) (after : Ptr)
    → ((x : ℕ) → Alike (cs' x) (cs x))
    → Chain cs v before xs after
    → Chain cs' v before xs after
Chain-Alike cs cs' v before [] after a c = tt
Chain-Alike cs cs' v before (x ∷ xs) after a (n, c) =
    let s = a x in
    (
      record {
        is_pooled = s.pooled_eq ∙ n.is_pooled;
        at_venue = s.venue_eq ∙ n.at_venue;
        newer_eq = s.newer_eq ∙ n.newer_eq;
        older_eq = s.older_eq ∙ n.older_eq;
      },
      Chain-Alike cs cs' v (some x) xs after a c,
    )

unpair-Alike : (u : ℕ) (p : UpstreamPool) (x : ℕ) → Alike ((unpair u p).conns x) (p.conns x)
unfolding unpair
unpair-Alike u p x = record {
  pooled_eq = ground arith;
  venue_eq = ground arith;
  newer_eq = ground arith;
  older_eq = ground arith;
}

pub unpair-IsPool : (p : UpstreamPool) (q : Queues) (u : ℕ) → IsPool p q → IsPool (unpair u p) q
unpair-IsPool p q u i =
    let a = unpair-Alike u p in
    record {
      chain = λ v. Chain-Alike p.conns (unpair u p).conns v none (q v) none a (i.chain v);
      distinct_at = i.distinct_at;
      newest_at = unfold unpair in i.newest_at;
      oldest_at = unfold unpair in i.oldest_at;
      member = λ x h.
          ap (λ k. has x (q (index k))) (a x).venue_eq ∙ i.member x (sym (a x).pooled_eq ∙ h);
      in_range = unfold unpair in i.in_range;
      counted = unfold unpair in i.counted;
    }

-- A connection that is not pooled stands in no queue.
not_pooled-out :
    (p : UpstreamPool) (q : Queues) (u w : ℕ)
    → IsPool p q
    → (p.conns u).pooled ≡ false
    → has u (q w) ≡ false
not_pooled-out p q u w i h = elim (Bool-cases (has u (q w))) [
  | inr e ↦ e
  | inl e ↦ let n = (Chain-node p.conns w none (q w) none u (i.chain w) e).0 in cc (n, h)
]

abbrev pushed_ends : ℕ → Ends → Ends
pushed_ends u l = record {
  newest = some u;
  oldest = (if is_null l.newest then record { newest = l.newest; oldest = some u } else l).oldest;
}

pushed_ends_lem :
    (u : ℕ) (l : Ends) (n : Ptr)
    → l.newest ≡ n
    → pushed_ends u l
      ≡ record { newest = some u; oldest = (if is_null n then some u else l.oldest) }
pushed_ends_lem u l n e = ground (arith, e)

module _ (p : UpstreamPool) (q : Queues) (now u v : ℕ) (i : IsPool p q)
    (at : (p.conns u).venue ≡ some v) (h : (p.conns u).pooled ≡ false) where
  abbrev cs' : Conns
  cs' = linked p.conns u (scrubbed now (p.conns u)) (q v)

  scrubbed_venue : (scrubbed now (p.conns u)).venue ≡ some v
  scrubbed_venue = unfold scrubbed in at

  conns-push : (push now u p).conns ≡ cs'
  unfolding push
  conns-push =
      let c = scrubbed now (p.conns u) in
      let make = λ (l : Ptr).
        (let cs1 = put p.conns u (record c { pool_older = l; pool_newer = none }) in
          let cs2 = set_newer l (some u) cs1 in put cs2 u (record (cs2 u) { pooled = true })) in
      ap (λ k. make (p.lists (index k)).newest) at ∙ ap make (i.newest_at v)

  abbrev new_ends : Ends
  new_ends = record {
    newest = some u;
    oldest = (if is_null (first (q v) none) then some u else (p.lists v).oldest);
  }

  lists-push : (push now u p).lists ≡ put_ends p.lists v new_ends
  unfolding push
  lists-push =
      let make = λ (l : Ends). pushed_ends u l in
      ap (λ k. put_ends p.lists (index k) (make (p.lists (index k)))) at
      ∙ ap (put_ends p.lists v) (pushed_ends_lem u (p.lists v) (first (q v) none) (i.newest_at v))

  stands_out : (w : ℕ) → has u (q w) ≡ false
  stands_out w = not_pooled-out p q u w i h

  distinct_push : distinct (u ∷ q v) ≡ true
  distinct_push = unfold distinct in ground (arith, stands_out v, i.distinct_at v)

  pub conns-pushed : (push now u p).conns u ≡ record (scrubbed now (p.conns u)) {
    pool_older = first (q v) none;
    pool_newer = none;
    pooled = true;
  }
  conns-pushed =
      ap (λ (k : Conns). k u) conns-push
      ∙ linked_self p.conns u (scrubbed now (p.conns u)) (q v) (stands_out v)

  keeps_push :
      (x : ℕ)
      → (x == u) ≡ false
      → ((cs' x).pooled ≡ (p.conns x).pooled) × ((cs' x).venue ≡ (p.conns x).venue)
  keeps_push x e =
      let c : UpstreamConn = record (scrubbed now (p.conns u)) {
        pool_older = first (q v) none;
        pool_newer = none;
      } in
      let cs1 = put p.conns u c in
      let cs2 = set_newer (first (q v) none) (some u) cs1 in
      let (a, b) = set_newer-keeps (first (q v) none) (some u) cs1 x in
      let o = put-other p.conns u x c e in
      let r = put-other cs2 u x (record (cs2 u) { pooled = true }) e in
      (
        ap (λ (k : UpstreamConn). k.pooled) r ∙ a ∙ ap (λ (k : UpstreamConn). k.pooled) o,
        ap (λ (k : UpstreamConn). k.venue) r ∙ b ∙ ap (λ (k : UpstreamConn). k.venue) o,
      )

  Chain-push : (w : ℕ) → Chain cs' w none (put_queue q v (u ∷ q v) w) none
  Chain-push w = elim (Bool-cases (w == v)) [
    | inl e ↦
        let eq : w ≡ v = ground (arith, e) in
        let c =
          Chain-linked p.conns v u (scrubbed now (p.conns u)) (q v) scrubbed_venue distinct_push
            (i.chain v) in
        rw e (subst (λ k. Chain cs' k none (u ∷ q v) none) (sym eq) c)
    | inr e ↦ rw e (
        Chain-frame p.conns cs' w none (q w) none
          (λ x k. linked-outside p.conns u (scrubbed now (p.conns u)) (q v) x (elsewhere w x e k))
          (i.chain w))
  ]
    where
      elsewhere : (w x : ℕ) → (w == v) ≡ false → has x (q w) ≡ true → has x (u ∷ q v) ≡ false
      elsewhere w x e k = elim (Bool-cases (has x (u ∷ q v))) [
        | inr o ↦ o
        | inl o ↦
            let (n, a) = Chain-node p.conns w none (q w) none x (i.chain w) k in
            let ne : (x == u) ≡ false = ground (arith, n, h) in
            let there : has x (q v) ≡ true = unfold has in ground (arith, o, ne) in
            let b = (Chain-node p.conns v none (q v) none x (i.chain v) there).1 in
            ground (arith, a, b, e)
      ]

  member_push :
      (x : ℕ) → (cs' x).pooled ≡ true → has x (put_queue q v (u ∷ q v) (index (cs' x).venue)) ≡ true
  member_push x k = elim (Bool-cases (x == u)) [
    | inl e ↦
        let eq : x ≡ u = ground (arith, e) in
        let self =
          ap cs' eq ∙ linked_self p.conns u (scrubbed now (p.conns u)) (q v) (stands_out v) in
        let a = ap (λ (c : UpstreamConn). c.venue) self ∙ scrubbed_venue in
        let same : (v == v) ≡ true = ground arith in
        let there : has x (u ∷ q v) ≡ true = unfold has in ground (arith, e) in
        ap (λ c. has x (put_queue q v (u ∷ q v) (index c))) a
        ∙ ap (λ (b : Bool). has x (if b then u ∷ q v else q v)) same
        ∙ there
    | inr e ↦
        let (a, b) = keeps_push x e in
        let there = i.member x (sym a ∙ k) in
        ap (λ c. has x (put_queue q v (u ∷ q v) (index c))) b
        ∙ grows (index (p.conns x).venue) x there
  ]
    where
      grows : (w x : ℕ) → has x (q w) ≡ true → has x (put_queue q v (u ∷ q v) w) ≡ true
      grows w x k = elim (Bool-cases (w == v)) [
        | inr e ↦ rw e k
        | inl e ↦
            let eq : w ≡ v = ground (arith, e) in
            let there : has x (q v) ≡ true = ap (λ c. has x (q c)) (sym eq) ∙ k in
            rw e (unfold has in ground (arith, there))
      ]

  newest_push :
      (w : ℕ) → (put_ends p.lists v new_ends w).newest ≡ first (put_queue q v (u ∷ q v) w) none
  newest_push w = elim (Bool-cases (w == v)) [ inr e ↦ rw e (i.newest_at w) | inl e ↦ rw e refl ]

  oldest_push :
      (w : ℕ) → (put_ends p.lists v new_ends w).oldest ≡ final none (put_queue q v (u ∷ q v) w)
  oldest_push w = elim (Bool-cases (w == v)) [
    | inr e ↦ rw e (i.oldest_at w)
    | inl e ↦ rw e (ends (q v) (i.oldest_at v))
  ]
    where
      ends :
          (xs : List ℕ)
          → (p.lists v).oldest ≡ final none xs
          → (if is_null (first xs none) then some u else (p.lists v).oldest) ≡ final (some u) xs
      ends [] o = refl
      ends (x ∷ xs) o = o

  distinct_all : (w : ℕ) → distinct (put_queue q v (u ∷ q v) w) ≡ true
  distinct_all w = elim (Bool-cases (w == v)) [
    | inr e ↦ rw e (i.distinct_at w)
    | inl e ↦ rw e distinct_push
  ]

  range_push : v < p.venues → (w : ℕ) → p.venues ≤ w → put_queue q v (u ∷ q v) w ≡ []
  range_push l w k = let e : (w == v) ≡ false = ground (arith, l, k) in rw e (i.in_range w k)

  pub push-IsPool : v < p.venues → IsPool (push now u p) (put_queue q v (u ∷ q v))
  push-IsPool l =
      let t = total-put_queue q v (u ∷ q v) p.venues l in
      let n : (push now u p).count ≡ p.count + 1 = unfold push in refl in
      let m : (push now u p).venues ≡ p.venues = unfold push in refl in
      record {
        chain = λ w.
            subst (λ k. Chain k w none (put_queue q v (u ∷ q v) w) none) (sym conns-push)
              (Chain-push w);
        distinct_at = distinct_all;
        newest_at = λ w. ap (λ k. (k w).newest) lists-push ∙ newest_push w;
        oldest_at = λ w. ap (λ k. (k w).oldest) lists-push ∙ oldest_push w;
        member =
            subst
              (λ (k : Conns).
                (x : ℕ)
                → (k x).pooled ≡ true
                → has x (put_queue q v (u ∷ q v) (index (k x).venue)) ≡ true)
              (sym conns-push) member_push;
        in_range = λ w k. range_push l w (subst (λ c. c ≤ w) m k);
        counted = n ∙ omega (arith, t, i.counted) ∙ ap (total (put_queue q v (u ∷ q v))) (sym m);
      }
