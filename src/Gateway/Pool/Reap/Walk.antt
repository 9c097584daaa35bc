-- ===== src/Gateway/Pool/Reap/Walk.antt =====
-- `reap` over all lists.
use llmbridge.Base.{
  ℕ, zero, suc, ◌+◌, ◌≤◌, ◌<◌, ◌≡◌, refl, ap, subst, sym, ◌∙◌, fun_ext, Bool, List, [], ◌∷◌, ◌++◌,
  ◌==◌, if◌then◌else◌, ltb, Bool-cases, inl, inr, length, arith,
}
use llmbridge.Gateway.Pool.{UpstreamPool, reap_list, reap_lists, reap}
use llmbridge.Gateway.Pool.Queues.{Queues, put_queue, total, IsPool}
use llmbridge.Gateway.Pool.Reap.{live, expired, is_stale, close_all}
use llmbridge.Gateway.Pool.Reap.Lists.{Reaped, reap_list-Reaped}

length-total : (q : Queues) (v n : ℕ) → v < n → length (q v) ≤ total q n
unfolding total
length-total q v zero h = absurd (omega arith)
length-total q v (suc n) h = elim (Bool-cases (v == n)) [
  | inl e ↦
      let l : length (q v) ≡ length (q n) = ap (λ k. length (q k)) (ground (arith, e)) in
      omega (arith, l)
  | inr e ↦
      let below : v < n = ground (arith, e, h) in
      let ih = length-total q v n below in omega (arith, ih)
]

-- The first `n` queues reaped, and what that closes.
unfoldable pub reaped : (ℕ → Bool) → Queues → ℕ → Queues
reaped stale q n w = if ltb w n then live stale (q w) else q w

unfoldable pub closed_of : (ℕ → Bool) → Queues → ℕ → List ℕ
closed_of stale q zero = []
closed_of stale q (suc n) = closed_of stale q n ++ expired stale (q n)

reaped-zero : (stale : ℕ → Bool) (q : Queues) → reaped stale q 0 ≡ q
unfolding reaped
reaped-zero stale q = fun_ext λ w. ground arith

reaped-at : (stale : ℕ → Bool) (q : Queues) (n : ℕ) → reaped stale q n n ≡ q n
unfolding reaped
reaped-at stale q n = ground arith

reaped-suc :
    (stale : ℕ → Bool) (q : Queues) (n : ℕ)
    → put_queue (reaped stale q n) n (live stale (q n)) ≡ reaped stale q (suc n)
unfolding reaped
reaped-suc stale q n = fun_ext λ w. elim (Bool-cases (w == n)) [
  | inl e ↦
      let l : live stale (q n) ≡ live stale (q w) =
        ap (λ k. live stale (q k)) (ground (arith, e)) in
      ground (arith, e, l)
  | inr e ↦ ground (arith, e)
]

reaped-all :
    (stale : ℕ → Bool) (q : Queues) (n : ℕ)
    → ((v : ℕ) → n ≤ v → q v ≡ [])
    → reaped stale q n ≡ (λ v. live stale (q v))
unfolding reaped live
reaped-all stale q n h = fun_ext λ w. elim (Bool-cases (ltb w n)) [
  | inl e ↦ rw e refl
  | inr e ↦ let none_there = h w (ground (arith, e)) in rw (e, none_there) refl
]

close_all-append {ℓ} :
    {S : Type ℓ} (close : S → ℕ → S) (s : S) (us vs : List ℕ)
    → close_all close s (us ++ vs) ≡ close_all close (close_all close s us) vs
close_all-append close s [] vs = refl
close_all-append close s (u ∷ us) vs = close_all-append close (close s u) us vs

module _ {ℓ} {S : Type ℓ} (close : S → ℕ → S) (cutoff : ℕ) where
  lists_suc :
      (n : ℕ) (p : UpstreamPool) (s : S)
      → reap_lists close cutoff (suc n) p s
        ≡ reap_list close cutoff n
            ((reap_lists close cutoff n p s).0.count + 1)
            (reap_lists close cutoff n p s).0
            (reap_lists close cutoff n p s).1
  unfolding reap_lists
  lists_suc n p s = refl

  reap_lists-Reaped :
      (n : ℕ) (p : UpstreamPool) (q : Queues) (s : S)
      → IsPool p q
      → n ≤ p.venues
      → Reaped close cutoff p s
          (reaped (is_stale p cutoff) q n)
          (closed_of (is_stale p cutoff) q n)
          (reap_lists close cutoff n p s)
  unfolding closed_of reap_lists
  reap_lists-Reaped zero p q s i h = record {
    holds = subst (IsPool p) (sym (reaped-zero (is_stale p cutoff) q)) i;
    closes = refl;
    stamps = refl;
    keeps = refl;
  }
  reap_lists-Reaped (suc n) p q s i h =
      let ih = reap_lists-Reaped n p q s i (omega arith) in
      let p' = (reap_lists close cutoff n p s).0 in
      let s' = (reap_lists close cutoff n p s).1 in
      let st = is_stale p cutoff in
      let q' = reaped st q n in
      let c = ih.holds.counted in
      let t = length-total q' n p'.venues (subst (λ k. n < k) (sym ih.keeps) h) in
      let r =
        reap_list-Reaped close cutoff n (p'.count + 1) p' q' s' ih.holds (omega (arith, c, t)) in
      let at = reaped-at st q n in
      let a : live (is_stale p' cutoff) (q' n) ≡ live st (q n) =
        ap (λ k. live k (q' n)) ih.stamps ∙ ap (live st) at in
      let b : expired (is_stale p' cutoff) (q' n) ≡ expired st (q n) =
        ap (λ k. expired k (q' n)) ih.stamps ∙ ap (expired st) at in
      subst (Reaped close cutoff p s (reaped st q (suc n)) (closed_of st q (suc n)))
        (sym (lists_suc n p s))
        (record {
          holds = subst (IsPool _) (ap (put_queue q' n) a ∙ reaped-suc st q n) r.holds;
          closes =
              r.closes
              ∙ ap (close_all close s') b
              ∙ ap (λ k. close_all close k (expired st (q n))) ih.closes
              ∙ sym (close_all-append close s (closed_of st q n) (expired st (q n)));
          stamps = r.stamps ∙ ih.stamps;
          keeps = r.keeps ∙ ih.keeps;
        })

  -- `reap` takes the stale connections from the old end of every queue and closes those, the oldest
  -- first and venue by venue; what is left is a pool of the remaining queues.
  pub reap-Reaped :
      (p : UpstreamPool) (q : Queues) (s : S)
      → IsPool p q
      → Reaped close cutoff p s
          (λ v. live (is_stale p cutoff) (q v))
          (closed_of (is_stale p cutoff) q p.venues)
          (reap close cutoff p s)
  unfolding reap
  reap-Reaped p q s i =
      let st = is_stale p cutoff in
      let r = reap_lists-Reaped p.venues p q s i (omega arith) in
      subst
        (λ k.
          Reaped close cutoff p s k (closed_of st q p.venues)
            (reap_lists close cutoff p.venues p s))
        (reaped-all st q p.venues i.in_range) r
