-- ===== src/Gateway/Pool/Queues/Removes.antt =====
-- `remove` takes a pooled connection out of its venue's queue.
use llmbridge.Base.{
  ℕ, ◌-◌, ◌≤◌, ◌<◌, ◌≡◌, refl, ap, subst, sym, ◌∙◌, true, false, [], ◌∷◌, ◌++◌, none, ◌==◌,
  if◌then◌else◌, Bool-cases, inl, inr, arith,
}
use llmbridge.Gateway.Pool.{Conns, UpstreamPool, index, put_ends, is_null, unlink, remove}
use llmbridge.Gateway.Pool.Chain.{
  has, distinct, first, final, IsNode, Chain, Chain-node, Chain-split, Chain-frame,
}
use llmbridge.Gateway.Pool.Links.{distinct-apart, unlinked, unlinked-outside, Chain-unlinked}
use llmbridge.Gateway.Pool.Queues.{
  Queues, put_queue, total, erase, IsPool, total-put_queue, Split, Split-at, distinct-erase,
  IsPool-range,
}
use llmbridge.Gateway.Pool.Queues.Unlinks.{
  conns-unlink, lists-unlink, last_of, new_ends, unlinked-keeps, stays_in, first-rest, final-rest,
}

-- The queues `q` without `u`, which stands between `xs` and `ys` for the venue `v`.
module _ (p : UpstreamPool) (q : Queues) (u v : ℕ) (i : IsPool p q) (s : Split u (q v)) where
  abbrev cs' : Conns
  cs' = unlinked p.conns s.before u s.behind (last_of p.conns s.before u s.behind)

  whole_distinct : distinct (s.before ++ u ∷ s.behind) ≡ true
  whole_distinct = subst (λ k. distinct k ≡ true) s.whole (i.distinct_at v)

  whole-Chain : Chain p.conns v none (s.before ++ u ∷ s.behind) none
  whole-Chain = subst (λ k. Chain p.conns v none k none) s.whole (i.chain v)

  before_out : has u s.before ≡ false
  before_out = distinct-apart s.before (u ∷ s.behind) u whole_distinct (unfold has in ground arith)

  IsNode-of : IsNode (p.conns u) v (final none s.before) (first s.behind none)
  IsNode-of = (Chain-split p.conns v none s.before (u ∷ s.behind) none whole-Chain).1.0

  Chain-at : (w : ℕ) → Chain cs' w none (put_queue q v (erase u (q v)) w) none
  Chain-at w = elim (Bool-cases (w == v)) [
    | inl e ↦
        let eq : w ≡ v = ground (arith, e) in
        let c =
          Chain-unlinked p.conns v s.before u s.behind (last_of p.conns s.before u s.behind)
            whole_distinct whole-Chain in
        let d = subst (λ k. Chain cs' v none k none) (sym s.rest) c in rw (e, eq) d
    | inr e ↦ rw e (
        Chain-frame p.conns cs' w none (q w) none
          (λ x h.
            unlinked-outside p.conns s.before u s.behind (last_of p.conns s.before u s.behind) x
              (elsewhere w x e h))
          (i.chain w))
  ]
    where
      elsewhere :
          (w x : ℕ)
          → (w == v) ≡ false
          → has x (q w) ≡ true
          → has x (s.before ++ u ∷ s.behind) ≡ false
      elsewhere w x e h = elim (Bool-cases (has x (s.before ++ u ∷ s.behind))) [
        | inr k ↦ k
        | inl k ↦
            let a = (Chain-node p.conns w none (q w) none x (i.chain w) h).1 in
            let b = (Chain-node p.conns v none (s.before ++ u ∷ s.behind) none x whole-Chain k).1 in
            ground (arith, a, b, e)
      ]

  member_at :
      (x : ℕ)
      → (cs' x).pooled ≡ true
      → has x (put_queue q v (erase u (q v)) (index (cs' x).venue)) ≡ true
  member_at x h =
      let (a, b) = unlinked-keeps p.conns s.before u s.behind x in
      let ne : (x == u) ≡ false = ground (arith, a, h) in
      let was : (p.conns x).pooled ≡ true = ground (arith, a, h) in
      let there = stays_in q u v x (index (p.conns x).venue) ne (i.member x was) in
      ap (λ k. has x (put_queue q v (erase u (q v)) (index k))) b ∙ there

  newest_of :
      (w : ℕ)
      → (put_ends p.lists v (new_ends s.before s.behind (p.lists v)) w).newest
        ≡ first (put_queue q v (erase u (q v)) w) none
  newest_of w = elim (Bool-cases (w == v)) [
    | inr e ↦ rw e (i.newest_at w)
    | inl e ↦
        let at = i.newest_at v ∙ ap (λ k. first k none) s.whole in
        let a = ap (λ k. if is_null (final none s.before) then first s.behind none else k) at in
        rw e (a ∙ first-rest s.before s.behind u ∙ ap (λ k. first k none) (sym s.rest))
  ]

  oldest_of :
      (w : ℕ)
      → (put_ends p.lists v (new_ends s.before s.behind (p.lists v)) w).oldest
        ≡ final none (put_queue q v (erase u (q v)) w)
  oldest_of w = elim (Bool-cases (w == v)) [
    | inr e ↦ rw e (i.oldest_at w)
    | inl e ↦
        let at = i.oldest_at v ∙ ap (final none) s.whole in
        let a = ap (λ k. if is_null (first s.behind none) then final none s.before else k) at in
        rw e (a ∙ final-rest s.before s.behind u ∙ ap (final none) (sym s.rest))
  ]

  distinct_of : (w : ℕ) → distinct (put_queue q v (erase u (q v)) w) ≡ true
  distinct_of w = elim (Bool-cases (w == v)) [
    | inr e ↦ rw e (i.distinct_at w)
    | inl e ↦ rw e (distinct-erase u (q v) (i.distinct_at v))
  ]

  range_of : v < p.venues → (w : ℕ) → p.venues ≤ w → put_queue q v (erase u (q v)) w ≡ []
  range_of l w h = let e : (w == v) ≡ false = ground (arith, l, h) in rw e (i.in_range w h)

  unlink-IsPool : v < p.venues → IsPool (unlink u p) (put_queue q v (erase u (q v)))
  unlink-IsPool l =
      let cs = conns-unlink p u v s.before s.behind IsNode-of before_out in
      let ls = lists-unlink p u v s.before s.behind IsNode-of before_out in
      let t = total-put_queue q v (erase u (q v)) p.venues l in
      let n : (unlink u p).count ≡ p.count - 1 = unfold unlink in refl in
      let m : (unlink u p).venues ≡ p.venues = unfold unlink in refl in
      record {
        chain = λ w.
            subst (λ k. Chain k w none (put_queue q v (erase u (q v)) w) none) (sym cs)
              (Chain-at w);
        distinct_at = distinct_of;
        newest_at = λ w. ap (λ k. (k w).newest) ls ∙ newest_of w;
        oldest_at = λ w. ap (λ k. (k w).oldest) ls ∙ oldest_of w;
        member =
            subst
              (λ (k : Conns).
                (x : ℕ)
                → (k x).pooled ≡ true
                → has x (put_queue q v (erase u (q v)) (index (k x).venue)) ≡ true)
              (sym cs) member_at;
        in_range = λ w h. range_of l w (subst (λ k. k ≤ w) m h);
        counted =
            n
            ∙ omega (arith, t, s.shorter, i.counted)
            ∙ ap (total (put_queue q v (erase u (q v)))) (sym m);
      }

-- The queues without the connection `u`.
unfoldable pub without : UpstreamPool → ℕ → Queues → Queues
without p u q =
    let v = index (p.conns u).venue in
    if (p.conns u).pooled then put_queue q v (erase u (q v)) else q

-- `remove` keeps a pool of queues, and takes the connection out of the queue that it stands in.
pub remove-IsPool :
    (p : UpstreamPool) (q : Queues) (u : ℕ) → IsPool p q → IsPool (remove u p) (without p u q)
unfolding remove without
remove-IsPool p q u i = elim (Bool-cases (p.conns u).pooled) [
  | inr e ↦ rw e i
  | inl e ↦
      let v = index (p.conns u).venue in
      let there = i.member u e in
      rw e (unlink-IsPool p q u v i (Split-at u (q v) there) (IsPool-range p q v u i there))
]
