-- ===== src/Gateway/Pool/Chain.antt =====
-- A doubly linked chain of pooled connections, as the store holds it.
use llmbridge.Base.{
  ℕ, ◌≡◌, refl, subst, sym, Bool, true, false, not, ◌&&◌, ◌||◌, List, [], ◌∷◌, ◌++◌, none, some,
  ◌==◌, Bool-cases, inl, inr, arith,
}
use llmbridge.Gateway.Pool.{Ptr, UpstreamConn, Conns, put, set_older, set_newer}

unfoldable pub has : ℕ → List ℕ → Bool
has u [] = false
has u (x ∷ xs) = u == x || has u xs

unfoldable pub distinct : List ℕ → Bool
distinct [] = true
distinct (x ∷ xs) = not (has x xs) && distinct xs

pub distinct-cons :
    (x : ℕ) (xs : List ℕ) → distinct (x ∷ xs) ≡ true → (has x xs ≡ false) × (distinct xs ≡ true)
unfolding distinct
distinct-cons x xs d = (ground (arith, d), ground (arith, d))

-- The first of a list, or what stands behind it; the last, or what stands before it.
abbrev pub first : List ℕ → Ptr → Ptr
first [] after = after
first (x ∷ xs) after = some x

abbrev pub final : Ptr → List ℕ → Ptr
final before [] = before
final before (x ∷ xs) = final (some x) xs

-- The connection `x` is pooled for the venue `v` between its two neighbours.
pub record IsNode (c : UpstreamConn) (v : ℕ) (newer older : Ptr) : Type 0 where
  pub is_pooled : c.pooled ≡ true
  pub at_venue : c.venue ≡ some v
  pub newer_eq : c.pool_newer ≡ newer
  pub older_eq : c.pool_older ≡ older

-- From the newest to the oldest.
abbrev pub Chain : Conns → ℕ → Ptr → List ℕ → Ptr → Type 0
Chain cs v before [] after = Unit
Chain cs v before (x ∷ xs) after =
    IsNode (cs x) v before (first xs after) × Chain cs v (some x) xs after

pub has-append : (u : ℕ) (xs ys : List ℕ) → has u (xs ++ ys) ≡ (has u xs || has u ys)
unfolding has
has-append u [] ys = refl
has-append u (x ∷ xs) ys = ground (arith, has-append u xs ys)

pub first-append :
    (xs ys : List ℕ) (after : Ptr) → first (xs ++ ys) after ≡ first xs (first ys after)
first-append [] ys after = refl
first-append (x ∷ xs) ys after = refl

pub final-append :
    (before : Ptr) (xs ys : List ℕ) → final before (xs ++ ys) ≡ final (final before xs) ys
final-append before [] ys = refl
final-append before (x ∷ xs) ys = final-append (some x) xs ys

pub Chain-split :
    (cs : Conns) (v : ℕ) (before : Ptr) (xs ys : List ℕ) (after : Ptr)
    → Chain cs v before (xs ++ ys) after
    → Chain cs v before xs (first ys after) × Chain cs v (final before xs) ys after
Chain-split cs v before [] ys after c = (tt, c)
Chain-split cs v before (x ∷ xs) ys after (n, c) =
    let (a, b) = Chain-split cs v (some x) xs ys after c in
    ((subst (IsNode (cs x) v before) (first-append xs ys after) n, a), b)

pub Chain-join :
    (cs : Conns) (v : ℕ) (before : Ptr) (xs ys : List ℕ) (after : Ptr)
    → Chain cs v before xs (first ys after)
    → Chain cs v (final before xs) ys after
    → Chain cs v before (xs ++ ys) after
Chain-join cs v before [] ys after a b = b
Chain-join cs v before (x ∷ xs) ys after (n, a) b = (
  subst (IsNode (cs x) v before) (sym (first-append xs ys after)) n,
  Chain-join cs v (some x) xs ys after a b,
)

-- A chain stays where its connections do.
pub Chain-frame :
    (cs cs' : Conns) (v : ℕ) (before : Ptr) (xs : List ℕ) (after : Ptr)
    → ((x : ℕ) → has x xs ≡ true → cs' x ≡ cs x)
    → Chain cs v before xs after
    → Chain cs' v before xs after
Chain-frame cs cs' v before [] after same c = tt
Chain-frame cs cs' v before (x ∷ xs) after same (n, c) =
    let here = same x (unfold has in ground arith) in
    (
      subst (λ k. IsNode k v before (first xs after)) (sym here) n,
      Chain-frame cs cs' v (some x) xs after (λ y h. same y (unfold has in ground (arith, h))) c,
    )

-- Each of the chain is pooled for the venue.
pub Chain-node :
    (cs : Conns) (v : ℕ) (before : Ptr) (xs : List ℕ) (after : Ptr) (u : ℕ)
    → Chain cs v before xs after
    → has u xs ≡ true
    → ((cs u).pooled ≡ true) × ((cs u).venue ≡ some v)
unfolding has
Chain-node cs v before [] after u c h = cc
Chain-node cs v before (x ∷ xs) after u (n, c) h = elim (Bool-cases (u == x)) [
  | inl e ↦
      let eq : x ≡ u = ground (arith, e) in
      subst (λ k. ((cs k).pooled ≡ true) × ((cs k).venue ≡ some v)) eq (n.is_pooled, n.at_venue)
  | inr e ↦ Chain-node cs v (some x) xs after u c (ground (arith, e, h))
]

pub put_self : (cs : Conns) (p : ℕ) (c : UpstreamConn) → put cs p c p ≡ c
put_self cs p c = let e : (p == p) ≡ true = ground arith in rw e refl

pub put-other : (cs : Conns) (p q : ℕ) (c : UpstreamConn) → (q == p) ≡ false → put cs p c q ≡ cs q
put-other cs p q c e = rw e refl

pub has-ne : (x y : ℕ) (xs : List ℕ) → has y xs ≡ true → has x xs ≡ false → (y == x) ≡ false
has-ne x y xs h k = elim (Bool-cases (y == x)) [
  | inl e ↦ let eq : y ≡ x = ground (arith, e) in cc (eq, h, k)
  | inr e ↦ e
]

-- What is put behind the last, or before the first, is its neighbour.
set_older-other :
    (cs : Conns) (before : Ptr) (xs : List ℕ) (w : Ptr) (x y : ℕ)
    → has x (y ∷ xs) ≡ false
    → set_older (final before (y ∷ xs)) w cs x ≡ cs x
unfolding has
set_older-other cs before [] w x y h = ground (arith, h)
set_older-other cs before (z ∷ xs) w x y h =
    set_older-other cs (some y) xs w x z (ground (arith, h))

pub set_older-outside :
    (cs : Conns) (xs : List ℕ) (w : Ptr) (x : ℕ)
    → has x xs ≡ false
    → set_older (final none xs) w cs x ≡ cs x
set_older-outside cs [] w x h = refl
set_older-outside cs (y ∷ xs) w x h = set_older-other cs none xs w x y h

pub set_newer-outside :
    (cs : Conns) (xs : List ℕ) (w : Ptr) (x : ℕ)
    → has x xs ≡ false
    → set_newer (first xs none) w cs x ≡ cs x
unfolding has
set_newer-outside cs [] w x h = refl
set_newer-outside cs (y ∷ xs) w x h = ground (arith, h)

Chain-older :
    (cs : Conns) (v : ℕ) (before : Ptr) (y : ℕ) (xs : List ℕ) (after w : Ptr)
    → distinct (y ∷ xs) ≡ true
    → Chain cs v before (y ∷ xs) after
    → Chain (set_older (final before (y ∷ xs)) w cs) v before (y ∷ xs) w
Chain-older cs v before y [] after w d (n, c) =
    let c' : UpstreamConn = record (cs y) { pool_older = w } in
    let m : IsNode c' v before w = record {
      is_pooled = n.is_pooled;
      at_venue = n.at_venue;
      newer_eq = n.newer_eq;
      older_eq = refl;
    } in
    (subst (λ k. IsNode k v before w) (sym (put_self cs y c')) m, tt)
Chain-older cs v before y (z ∷ xs) after w d (n, c) =
    let (apart, still) = distinct-cons y (z ∷ xs) d in
    let same = set_older-other cs (some y) xs w y z apart in
    (
      subst (λ k. IsNode k v before (some z)) (sym same) n,
      Chain-older cs v (some y) z xs after w still c,
    )

pub Chain-set_older :
    (cs : Conns) (v : ℕ) (xs : List ℕ) (after w : Ptr)
    → distinct xs ≡ true
    → Chain cs v none xs after
    → Chain (set_older (final none xs) w cs) v none xs w
Chain-set_older cs v [] after w d c = tt
Chain-set_older cs v (y ∷ xs) after w d c = Chain-older cs v none y xs after w d c

pub Chain-set_newer :
    (cs : Conns) (v : ℕ) (before w : Ptr) (xs : List ℕ)
    → distinct xs ≡ true
    → Chain cs v before xs none
    → Chain (set_newer (first xs none) w cs) v w xs none
unfolding distinct has
Chain-set_newer cs v before w [] d c = tt
Chain-set_newer cs v before w (x ∷ xs) d (n, c) =
    let c' : UpstreamConn = record (cs x) { pool_newer = w } in
    let m : IsNode c' v w (first xs none) = record {
      is_pooled = n.is_pooled;
      at_venue = n.at_venue;
      newer_eq = refl;
      older_eq = n.older_eq;
    } in
    (
      subst (λ k. IsNode k v w (first xs none)) (sym (put_self cs x c')) m,
      Chain-frame cs (set_newer (some x) w cs) v (some x) xs none
          (λ y h. put-other cs x y c' (has-ne x y xs h (ground (arith, d)))) c,
    )
