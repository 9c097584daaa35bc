-- ===== src/Gateway/Pool/Queues/Unlinks.antt =====
-- What `unlink` does to the ends of a list and to the fields of a connection.
use llmbridge.Base.{
  ℕ, ◌≡◌, refl, ap, sym, ◌∙◌, true, false, List, [], ◌∷◌, ◌++◌, append-nil, none, some, ◌==◌,
  if◌then◌else◌, Bool-cases, inl, inr, arith,
}
use llmbridge.Gateway.Pool.{
  Ptr, UpstreamConn, Conns, Ends, UpstreamPool, index, put, put_ends, is_null, set_older, set_newer,
  unlink_newer, unlink_older, unlink,
}
use llmbridge.Gateway.Pool.Chain.{has, first, final, IsNode, final-append, set_older-outside}
use llmbridge.Gateway.Pool.Links.{unlinked}
use llmbridge.Gateway.Pool.Queues.{Queues, put_queue, erase, has-erase}

-- The store that `unlink` leaves, as it reads the neighbours `n` and `o`.
abbrev pub cut : Conns → ℕ → Ptr → Ptr → Conns
cut conns u n o =
    let cs = set_older n o conns in
    let c' = cs u in
    let cs' = set_newer c'.pool_older c'.pool_newer cs in
    put cs' u (record (cs' u) { pool_newer = none; pool_older = none; pooled = false })

-- As read from the connection `c`.
abbrev pub cut_at : Conns → ℕ → UpstreamConn → Conns
cut_at cs u c =
    let cs' = set_newer c.pool_older c.pool_newer cs in
    put cs' u (record (cs' u) { pool_newer = none; pool_older = none; pooled = false })

-- The connection that `unlink` leaves at `u`.
abbrev pub last_of : Conns → List ℕ → ℕ → List ℕ → UpstreamConn
last_of conns xs u ys =
    let cs =
      set_newer (first ys none) (final none xs) (set_older (final none xs) (first ys none) conns) in
    record (cs u) { pool_newer = none; pool_older = none; pooled = false }

abbrev pub new_ends : List ℕ → List ℕ → Ends → Ends
new_ends xs ys l = record {
  newest = (if is_null (final none xs) then first ys none else l.newest);
  oldest = (if is_null (first ys none) then final none xs else l.oldest);
}

pub ends-unlink :
    (c : UpstreamConn) (xs ys : List ℕ) (l : Ends)
    → c.pool_newer ≡ final none xs
    → c.pool_older ≡ first ys none
    → unlink_older c (unlink_newer c l) ≡ new_ends xs ys l
unfolding unlink_older unlink_newer
ends-unlink c xs ys l n o = ground (arith, n, o)

module _ (p : UpstreamPool) (u v : ℕ) (xs ys : List ℕ)
    (n : IsNode (p.conns u) v (final none xs) (first ys none)) (out : has u xs ≡ false) where
  pub conns-unlink : (unlink u p).conns ≡ unlinked p.conns xs u ys (last_of p.conns xs u ys)
  unfolding unlink
  conns-unlink =
      let a = ap (λ k. cut p.conns u k (p.conns u).pool_older) n.newer_eq in
      let b = ap (λ k. cut p.conns u (final none xs) k) n.older_eq in
      let cs = set_older (final none xs) (first ys none) p.conns in
      let c = ap (cut_at cs u) (set_older-outside p.conns xs (first ys none) u out) in
      let d =
        ap
          (λ k.
            let cs' = set_newer k (p.conns u).pool_newer cs in
            put cs' u (record (cs' u) { pool_newer = none; pool_older = none; pooled = false }))
          n.older_eq in
      let e =
        ap
          (λ k.
            let cs' = set_newer (first ys none) k cs in
            put cs' u (record (cs' u) { pool_newer = none; pool_older = none; pooled = false }))
          n.newer_eq in
      a ∙ b ∙ c ∙ d ∙ e

  pub lists-unlink : (unlink u p).lists ≡ put_ends p.lists v (new_ends xs ys (p.lists v))
  unfolding unlink unlink_newer unlink_older
  lists-unlink =
      let c = p.conns u in
      let cs = set_older c.pool_newer c.pool_older p.conns in
      let same : cs u ≡ c =
        ap (λ k. set_older k c.pool_older p.conns u) n.newer_eq
        ∙ set_older-outside p.conns xs c.pool_older u out in
      let a =
        ap
          (λ k.
            put_ends p.lists (index c.venue)
              (unlink_older k (unlink_newer c (p.lists (index c.venue)))))
          same in
      let b =
        ap (λ k. put_ends p.lists (index k) (unlink_older c (unlink_newer c (p.lists (index k)))))
          n.at_venue in
      let d = ends-unlink c xs ys (p.lists v) n.newer_eq n.older_eq in
      a ∙ b ∙ ap (put_ends p.lists v) d

pub set_older-keeps :
    (n w : Ptr) (cs : Conns) (x : ℕ)
    → ((set_older n w cs x).pooled ≡ (cs x).pooled) × ((set_older n w cs x).venue ≡ (cs x).venue)
set_older-keeps none w cs x = (refl, refl)
set_older-keeps (some m) w cs x = (ground arith, ground arith)

pub set_newer-keeps :
    (n w : Ptr) (cs : Conns) (x : ℕ)
    → ((set_newer n w cs x).pooled ≡ (cs x).pooled) × ((set_newer n w cs x).venue ≡ (cs x).venue)
set_newer-keeps none w cs x = (refl, refl)
set_newer-keeps (some m) w cs x = (ground arith, ground arith)

-- Of each connection, whether it is pooled then, and for which venue.
pub unlinked-keeps :
    (cs : Conns) (xs : List ℕ) (u : ℕ) (ys : List ℕ) (x : ℕ)
    → let c = unlinked cs xs u ys (last_of cs xs u ys) x in
      (c.pooled ≡ (if x == u then false else (cs x).pooled)) × (c.venue ≡ (cs x).venue)
unlinked-keeps cs xs u ys x =
    let cs1 = set_older (final none xs) (first ys none) cs in
    let (a, b) = set_older-keeps (final none xs) (first ys none) cs x in
    let (d, e) = set_newer-keeps (first ys none) (final none xs) cs1 x in
    (ground (arith, a, d), ground (arith, b, e))

pub stays_in :
    (q : Queues) (u v x w : ℕ)
    → (x == u) ≡ false
    → has x (q w) ≡ true
    → has x (put_queue q v (erase u (q v)) w) ≡ true
stays_in q u v x w ne h = elim (Bool-cases (w == v)) [
  | inr e ↦ rw e h
  | inl e ↦
      let eq : w ≡ v = ground (arith, e) in
      rw e (has-erase u x (q v) ne ∙ ap (λ k. has x (q k)) (sym eq) ∙ h)
]

pub final-some : (x : ℕ) (xs : List ℕ) → is_null (final (some x) xs) ≡ false
final-some x [] = refl
final-some x (y ∷ xs) = final-some y xs

pub first-rest :
    (xs ys : List ℕ) (u : ℕ)
    → (if is_null (final none xs) then first ys none else first (xs ++ u ∷ ys) none)
      ≡ first (xs ++ ys) none
first-rest [] ys u = refl
first-rest (x ∷ xs) ys u = rw (final-some x xs) refl

pub final-rest :
    (xs ys : List ℕ) (u : ℕ)
    → (if is_null (first ys none) then final none xs else final none (xs ++ u ∷ ys))
      ≡ final none (xs ++ ys)
final-rest xs [] u = ap (final none) (sym (append-nil xs))
final-rest xs (y ∷ ys) u = final-append none xs (u ∷ y ∷ ys) ∙ sym (final-append none xs (y ∷ ys))
