-- ===== src/Gateway/Pool/Reap/Lists.antt =====
-- `reap` over one list.
use llmbridge.Base.{
  ℕ, zero, suc, ◌<◌, ◌≡◌, refl, ap, subst, sym, ◌∙◌, fun_ext, Bool, true, false, List, [], ◌∷◌,
  ◌++◌, Option, none, some, if◌then◌else◌, Bool-cases, inl, inr, length, length-append, arith,
}
use llmbridge.Gateway.Pool.{UpstreamPool, index, remove, unlink, reap_list}
use llmbridge.Gateway.Pool.Chain.{has, distinct, final, Chain-node, has-append}
use llmbridge.Gateway.Pool.Links.{distinct-apart}
use llmbridge.Gateway.Pool.Queues.{Queues, put_queue, erase, IsPool}
use llmbridge.Gateway.Pool.Queues.Removes.{without, remove-IsPool}
use llmbridge.Gateway.Pool.Reap.{
  live, expired, is_stale, close_all, live-snoc, expired-snoc, snoc-cases, final-snoc, erase-snoc,
  stale-remove,
}

put_queue_self : (q : Queues) (v : ℕ) → put_queue q v (q v) ≡ q
put_queue_self q v = fun_ext λ w. ground arith

put_queue-put_queue :
    (q : Queues) (v : ℕ) (us vs : List ℕ) → put_queue (put_queue q v us) v vs ≡ put_queue q v vs
put_queue-put_queue q v us vs = fun_ext λ w. ground arith

put_queue-at : (q : Queues) (v : ℕ) (us : List ℕ) → put_queue q v us v ≡ us
put_queue-at q v us = ground arith

-- The oldest connection of a queue, taken out.
without-oldest :
    (p : UpstreamPool) (q : Queues) (v : ℕ) (ys : List ℕ) (z : ℕ)
    → IsPool p q
    → q v ≡ ys ++ z ∷ []
    → without p z q ≡ put_queue q v ys
without-oldest p q v ys z i e =
    let there : has z (q v) ≡ true =
      ap (has z) e ∙ has-append z ys (z ∷ []) ∙ unfold has in ground arith in
    let (pooled, at) = Chain-node p.conns v none (q v) none z (i.chain v) there in
    let d = subst (λ k. distinct k ≡ true) e (i.distinct_at v) in
    let out = distinct-apart ys (z ∷ []) z d (unfold has in ground arith) in
    let take_out = λ (k : Option ℕ). put_queue q (index k) (erase z (q (index k))) in
    let a : without p z q ≡ take_out (p.conns z).venue =
      unfold without in ap (λ (b : Bool). if b then take_out (p.conns z).venue else q) pooled in
    a
    ∙ ap take_out at
    ∙ ap (λ k. put_queue q v (erase z k)) e
    ∙ ap (put_queue q v) (erase-snoc ys z out)

venues-remove : (u : ℕ) (p : UpstreamPool) → (remove u p).venues ≡ p.venues
unfolding remove unlink
venues-remove u p = ground arith

module _ {ℓ} {S : Type ℓ} (close : S → ℕ → S) (cutoff : ℕ) where
  -- The pool and the state of `close` behind a walk, against the queues `q'` and the closed `us`.
  pub record Reaped (p : UpstreamPool) (s : S) (q' : Queues) (us : List ℕ) (r : UpstreamPool × S)
      : Type ℓ where
    pub holds : IsPool r.0 q'
    pub closes : r.1 ≡ close_all close s us
    pub stamps : is_stale r.0 cutoff ≡ is_stale p cutoff
    pub keeps : r.0.venues ≡ p.venues

  stays :
      (p : UpstreamPool) (q : Queues) (v : ℕ) (s : S) (xs us : List ℕ)
      → IsPool p q
      → xs ≡ q v
      → us ≡ []
      → Reaped p s (put_queue q v xs) us (p, s)
  stays p q v s xs us i e n = record {
    holds = subst (IsPool p) (sym (ap (put_queue q v) e ∙ put_queue_self q v)) i;
    closes = sym (ap (close_all close s) n);
    stamps = refl;
    keeps = refl;
  }

  list_empty :
      (v fuel : ℕ) (p : UpstreamPool) (s : S)
      → (p.lists v).oldest ≡ none
      → reap_list close cutoff v (suc fuel) p s ≡ (p, s)
  unfolding reap_list
  list_empty v fuel p s o = rw (o, reap_list) refl

  list_fresh :
      (v fuel u : ℕ) (p : UpstreamPool) (s : S)
      → (p.lists v).oldest ≡ some u
      → is_stale p cutoff u ≡ false
      → reap_list close cutoff v (suc fuel) p s ≡ (p, s)
  unfolding reap_list
  list_fresh v fuel u p s o e = rw (o, e, reap_list) refl

  list_stale :
      (v fuel u : ℕ) (p : UpstreamPool) (s : S)
      → (p.lists v).oldest ≡ some u
      → is_stale p cutoff u ≡ true
      → reap_list close cutoff v (suc fuel) p s
        ≡ reap_list close cutoff v fuel (remove u p) (close s u)
  unfolding reap_list
  list_stale v fuel u p s o e = rw (o, e, reap_list) refl

  pub reap_list-Reaped :
      (v fuel : ℕ) (p : UpstreamPool) (q : Queues) (s : S)
      → IsPool p q
      → length (q v) < fuel
      → Reaped p s
          (put_queue q v (live (is_stale p cutoff) (q v)))
          (expired (is_stale p cutoff) (q v))
          (reap_list close cutoff v fuel p s)
  reap_list-Reaped v zero p q s i h = absurd (omega arith)
  reap_list-Reaped v (suc fuel) p q s i h = elim (snoc-cases (q v)) [
    | inl e ↦
        let o = i.oldest_at v ∙ ap (final none) e in
        let st = is_stale p cutoff in
        subst (Reaped p s (put_queue q v (live st (q v))) (expired st (q v)))
          (sym (list_empty v fuel p s o))
          (stays p q v s (live st (q v)) (expired st (q v)) i (unfold live in rw e refl)
            (unfold expired in rw e refl))
    | inr (ys, z, e) ↦
        let o = i.oldest_at v ∙ ap (final none) e ∙ final-snoc none ys z in
        let st = is_stale p cutoff in
        let l = ap (live st) e ∙ live-snoc st ys z in
        let x = ap (expired st) e ∙ expired-snoc st ys z in
        elim (Bool-cases (st z)) [
          | inr fresh ↦
              subst (Reaped p s (put_queue q v (live st (q v))) (expired st (q v)))
                (sym (list_fresh v fuel z p s o fresh))
                (stays p q v s (live st (q v)) (expired st (q v)) i
                  (l ∙ ap (λ (b : Bool). if b then live st ys else ys ++ z ∷ []) fresh ∙ sym e)
                  (x ∙ ap (λ (b : Bool). if b then z ∷ expired st ys else []) fresh))
          | inl stale ↦
              let p' = remove z p in
              let q' = put_queue q v ys in
              let i' : IsPool p' q' =
                subst (IsPool p') (without-oldest p q v ys z i e) (remove-IsPool p q z i) in
              let at = put_queue-at q v ys in
              let n : length (q' v) < fuel =
                rw at (omega (arith, h, ap length e, length-append ys (z ∷ []))) in
              let ih = reap_list-Reaped v fuel p' q' (close s z) i' n in
              let st' = stale-remove z cutoff p in
              let a : live (is_stale p' cutoff) (q' v) ≡ live st (q v) =
                ap (λ k. live k (q' v)) st'
                ∙ ap (live st) at
                ∙ sym (l ∙ ap (λ (b : Bool). if b then live st ys else ys ++ z ∷ []) stale) in
              let b : z ∷ expired (is_stale p' cutoff) (q' v) ≡ expired st (q v) =
                ap (λ k. z ∷ expired k (q' v)) st'
                ∙ ap (λ k. z ∷ expired st k) at
                ∙ sym (x ∙ ap (λ (b : Bool). if b then z ∷ expired st ys else []) stale) in
              subst (Reaped p s (put_queue q v (live st (q v))) (expired st (q v)))
                (sym (list_stale v fuel z p s o stale))
                (record {
                  holds =
                      subst (IsPool _) (put_queue-put_queue q v ys _ ∙ ap (put_queue q v) a)
                        ih.holds;
                  closes = ih.closes ∙ ap (close_all close s) b;
                  stamps = ih.stamps ∙ st';
                  keeps = ih.keeps ∙ venues-remove z p;
                })
        ]
  ]
