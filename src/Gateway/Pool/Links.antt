-- ===== src/Gateway/Pool/Links.antt =====
-- Taking a connection out of a chain, and putting one at its newest end.
use llmbridge.Base.{
  ℕ, ◌≡◌, refl, ap, subst, sym, ◌∙◌, true, false, List, [], ◌∷◌, ◌++◌, none, some, ◌==◌, Bool-cases,
  inl, inr, arith,
}
use llmbridge.Gateway.Pool.{UpstreamConn, Conns, put, set_older, set_newer}
use llmbridge.Gateway.Pool.Chain.{
  has, distinct, first, final, IsNode, Chain, has-append, Chain-split, Chain-join, Chain-frame,
  Chain-set_older, Chain-set_newer, set_older-outside, set_newer-outside, distinct-cons, put_self,
  put-other, has-ne,
}

pub distinct-left : (xs ys : List ℕ) → distinct (xs ++ ys) ≡ true → distinct xs ≡ true
unfolding distinct
distinct-left [] ys d = refl
distinct-left (x ∷ xs) ys d = ground (arith, d, has-append x xs ys, distinct-left xs ys)

pub distinct-right : (xs ys : List ℕ) → distinct (xs ++ ys) ≡ true → distinct ys ≡ true
unfolding distinct
distinct-right [] ys d = d
distinct-right (x ∷ xs) ys d = distinct-right xs ys (ground (arith, d))

pub distinct-apart :
    (xs ys : List ℕ) (x : ℕ) → distinct (xs ++ ys) ≡ true → has x ys ≡ true → has x xs ≡ false
unfolding has
distinct-apart [] ys x d h = refl
distinct-apart (y ∷ xs) ys x d h =
    let (out, rest) = distinct-cons y (xs ++ ys) d in
    let ih = distinct-apart xs ys x rest h in
    let e : has y ys ≡ false = ground (arith, out, has-append y xs ys) in
    let n = has-ne y x ys h e in ground (arith, ih, n)

-- The store that `remove` leaves, where `u` stood between `xs` and `ys`.
abbrev pub unlinked : Conns → List ℕ → ℕ → List ℕ → UpstreamConn → Conns
unlinked cs xs u ys c =
    put (set_newer (first ys none) (final none xs) (set_older (final none xs) (first ys none) cs)) u
      c

pub unlinked-outside :
    (cs : Conns) (xs : List ℕ) (u : ℕ) (ys : List ℕ) (c : UpstreamConn) (x : ℕ)
    → has x (xs ++ u ∷ ys) ≡ false
    → unlinked cs xs u ys c x ≡ cs x
unfolding has
unlinked-outside cs xs u ys c x h =
    let a = has-append x xs (u ∷ ys) in
    let o : has x xs ≡ false = ground (arith, a, h) in
    let n : has x ys ≡ false = ground (arith, a, h) in
    let e : (x == u) ≡ false = ground (arith, a, h) in
    let cs1 = set_older (final none xs) (first ys none) cs in
    let cs2 = set_newer (first ys none) (final none xs) cs1 in
    put-other cs2 u x c e
    ∙ set_newer-outside cs1 ys (final none xs) x n
    ∙ set_older-outside cs xs (first ys none) x o

pub Chain-unlinked :
    (cs : Conns) (v : ℕ) (xs : List ℕ) (u : ℕ) (ys : List ℕ) (c : UpstreamConn)
    → distinct (xs ++ u ∷ ys) ≡ true
    → Chain cs v none (xs ++ u ∷ ys) none
    → Chain (unlinked cs xs u ys c) v none (xs ++ ys) none
Chain-unlinked cs v xs u ys c d h =
    let (a, rest) = Chain-split cs v none xs (u ∷ ys) none h in
    let (n, b) = rest in
    let dl = distinct-left xs (u ∷ ys) d in
    let (uy, dr) = distinct-cons u ys (distinct-right xs (u ∷ ys) d) in
    let behind = λ (x : ℕ) (k : has x ys ≡ true).
      distinct-apart xs (u ∷ ys) x d (unfold has in ground (arith, k)) in
    let before = λ (x : ℕ) (k : has x xs ≡ true). apart_front d x k in
    let ux = distinct-apart xs (u ∷ ys) u d (unfold has in ground arith) in
    let cs1 = set_older (final none xs) (first ys none) cs in
    let cs2 = set_newer (first ys none) (final none xs) cs1 in
    let a1 = Chain-set_older cs v xs (some u) (first ys none) dl a in
    let b1 =
      Chain-frame cs cs1 v (some u) ys none
        (λ x k. set_older-outside cs xs (first ys none) x (behind x k)) b in
    let a2 =
      Chain-frame cs1 cs2 v none xs (first ys none)
        (λ x k. set_newer-outside cs1 ys (final none xs) x (before x k)) a1 in
    let b2 = Chain-set_newer cs1 v (some u) (final none xs) ys dr b1 in
    let a3 =
      Chain-frame cs2 (put cs2 u c) v none xs (first ys none)
        (λ x k. put-other cs2 u x c (has-ne u x xs k ux)) a2 in
    let b3 =
      Chain-frame cs2 (put cs2 u c) v (final none xs) ys none
        (λ x k. put-other cs2 u x c (has-ne u x ys k uy)) b2 in
    Chain-join (put cs2 u c) v none xs ys none a3 b3
  where
    apart_front : distinct (xs ++ u ∷ ys) ≡ true → (x : ℕ) → has x xs ≡ true → has x ys ≡ false
    apart_front d x k = elim (Bool-cases (has x ys)) [
      | inr e ↦ e
      | inl e ↦
          let no = distinct-apart xs (u ∷ ys) x d (unfold has in ground (arith, e)) in cc (no, k)
    ]

-- The store that `push` leaves, with the connection `c` at `u`, before the list `xs`.
abbrev pub linked : Conns → ℕ → UpstreamConn → List ℕ → Conns
linked cs u c xs =
    let cs1 = put cs u (record c { pool_older = first xs none; pool_newer = none }) in
    let cs2 = set_newer (first xs none) (some u) cs1 in put cs2 u (record (cs2 u) { pooled = true })

pub linked-outside :
    (cs : Conns) (u : ℕ) (c : UpstreamConn) (xs : List ℕ) (x : ℕ)
    → has x (u ∷ xs) ≡ false
    → linked cs u c xs x ≡ cs x
unfolding has
linked-outside cs u c xs x h =
    let e : (x == u) ≡ false = ground (arith, h) in
    let n : has x xs ≡ false = ground (arith, h) in
    let c1 : UpstreamConn = record c { pool_older = first xs none; pool_newer = none } in
    let cs1 = put cs u c1 in
    let cs2 = set_newer (first xs none) (some u) cs1 in
    put-other cs2 u x (record (cs2 u) { pooled = true }) e
    ∙ set_newer-outside cs1 xs (some u) x n
    ∙ put-other cs u x c1 e

pub linked_self :
    (cs : Conns) (u : ℕ) (c : UpstreamConn) (xs : List ℕ)
    → has u xs ≡ false
    → linked cs u c xs u ≡ record c { pool_older = first xs none; pool_newer = none; pooled = true }
linked_self cs u c xs h =
    let c1 : UpstreamConn = record c { pool_older = first xs none; pool_newer = none } in
    let cs1 = put cs u c1 in
    let cs2 = set_newer (first xs none) (some u) cs1 in
    let e = set_newer-outside cs1 xs (some u) u h ∙ put_self cs u c1 in
    put_self cs2 u (record (cs2 u) { pooled = true })
    ∙ ap (λ (k : UpstreamConn). record k { pooled = true }) e

pub Chain-linked :
    (cs : Conns) (v : ℕ) (u : ℕ) (c : UpstreamConn) (xs : List ℕ)
    → c.venue ≡ some v
    → distinct (u ∷ xs) ≡ true
    → Chain cs v none xs none
    → Chain (linked cs u c xs) v none (u ∷ xs) none
Chain-linked cs v u c xs e d h =
    let (out, still) = distinct-cons u xs d in
    let c1 : UpstreamConn = record c { pool_older = first xs none; pool_newer = none } in
    let c2 : UpstreamConn = record c1 { pooled = true } in
    let cs1 = put cs u c1 in
    let cs2 = set_newer (first xs none) (some u) cs1 in
    let c3 : UpstreamConn = record (cs2 u) { pooled = true } in
    let h1 =
      Chain-frame cs cs1 v none xs none (λ x k. put-other cs u x c1 (has-ne u x xs k out)) h in
    let h2 = Chain-set_newer cs1 v none (some u) xs still h1 in
    let h3 =
      Chain-frame cs2 (put cs2 u c3) v (some u) xs none
        (λ x k. put-other cs2 u x c3 (has-ne u x xs k out)) h2 in
    let n : IsNode c2 v none (first xs none) = record {
      is_pooled = refl;
      at_venue = e;
      newer_eq = refl;
      older_eq = refl;
    } in
    (subst (λ k. IsNode k v none (first xs none)) (sym (linked_self cs u c xs out)) n, h3)
