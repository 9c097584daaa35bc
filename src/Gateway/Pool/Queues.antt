-- ===== src/Gateway/Pool/Queues.antt =====
-- The pool as a list of connections for each venue, newest first.
pub mod Unlinks
pub mod Removes
pub mod Pushes
use llmbridge.Base.{
  ℕ, zero, suc, ◌+◌, ◌-◌, ◌≤◌, ◌<◌, ◌≡◌, refl, ap, subst, sym, ◌∙◌, Bool, true, false, not, ◌&&◌,
  ◌||◌, List, [], ◌∷◌, ◌++◌, Option, none, some, ◌==◌, ltb, if◌then◌else◌, Bool-cases, inl, inr,
  length, length-append, arith,
}
use llmbridge.Gateway.Pool.{Ptr, UpstreamConn, Conns, UpstreamPool, index}
use llmbridge.Gateway.Pool.Chain.{has, distinct, first, final, Chain, distinct-cons, has-ne}

abbrev pub Queues : Type 0
Queues = ℕ → List ℕ

abbrev pub put_queue : Queues → ℕ → List ℕ → Queues
put_queue q v us w = if w == v then us else q w

-- The first `n` queues together.
unfoldable pub total : Queues → ℕ → ℕ
total q zero = 0
total q (suc n) = total q n + length (q n)

unfoldable pub erase : ℕ → List ℕ → List ℕ
erase u [] = []
erase u (x ∷ xs) = if u == x then xs else x ∷ erase u xs

-- The store holds these queues: their chains and ends, and no other connection is pooled.
pub record IsPool (p : UpstreamPool) (q : Queues) : Type 0 where
  pub chain : (v : ℕ) → Chain p.conns v none (q v) none
  pub distinct_at : (v : ℕ) → distinct (q v) ≡ true
  pub newest_at : (v : ℕ) → (p.lists v).newest ≡ first (q v) none
  pub oldest_at : (v : ℕ) → (p.lists v).oldest ≡ final none (q v)
  pub member : (u : ℕ) → (p.conns u).pooled ≡ true → has u (q (index (p.conns u).venue)) ≡ true
  pub in_range : (v : ℕ) → p.venues ≤ v → q v ≡ []
  pub counted : p.count ≡ total q p.venues

total-beyond :
    (q : Queues) (v : ℕ) (us : List ℕ) (n : ℕ) → n ≤ v → total (put_queue q v us) n ≡ total q n
unfolding total
total-beyond q v us zero h = refl
total-beyond q v us (suc n) h =
    let ih = total-beyond q v us n (omega arith) in
    let e : (n == v) ≡ false = ground (arith, h) in rw e (ap (λ k. k + length (q n)) ih)

pub total-put_queue :
    (q : Queues) (v : ℕ) (us : List ℕ) (n : ℕ)
    → v < n
    → total (put_queue q v us) n + length (q v) ≡ total q n + length us
unfolding total
total-put_queue q v us zero h = absurd (omega arith)
total-put_queue q v us (suc n) h = elim (Bool-cases (n == v)) [
  | inl e ↦
      let eq : n ≡ v = ground (arith, e) in
      let b = total-beyond q v us n (omega (arith, eq)) in
      let l : length (q n) ≡ length (q v) = ap (λ k. length (q k)) eq in rw e (omega (arith, b, l))
  | inr e ↦
      let less : v < n = ground (arith, e, h) in
      let ih = total-put_queue q v us n less in rw e (omega (arith, ih))
]

-- A connection of a list stands between two parts of it.
pub record Split (u : ℕ) (xs : List ℕ) : Type 0 where
  pub before : List ℕ
  pub behind : List ℕ
  pub whole : xs ≡ before ++ u ∷ behind
  pub rest : erase u xs ≡ before ++ behind
  pub shorter : length xs ≡ suc (length (erase u xs))

pub Split-at : (u : ℕ) (xs : List ℕ) → has u xs ≡ true → Split u xs
unfolding has erase
Split-at u [] h = cc
Split-at u (x ∷ xs) h = elim (Bool-cases (u == x)) [
  | inl e ↦
      let eq : x ≡ u = ground (arith, e) in
      record {
        before = [];
        behind = xs;
        whole = ap (λ k. k ∷ xs) eq;
        rest = ground (arith, e);
        shorter = ground (arith, e);
      }
  | inr e ↦
      let s = Split-at u xs (ground (arith, e, h)) in
      let r = s.rest in
      let l = s.shorter in
      record {
        before = x ∷ s.before;
        behind = s.behind;
        whole = ap (λ k. x ∷ k) s.whole;
        rest = ground (arith, e, r);
        shorter = ground (arith, e, l);
      }
]

pub has-erase : (u x : ℕ) (xs : List ℕ) → (x == u) ≡ false → has x (erase u xs) ≡ has x xs
unfolding has erase
has-erase u x [] e = refl
has-erase u x (y ∷ xs) e = ground (arith, e, has-erase u x xs e)

has-erase_le : (u x : ℕ) (xs : List ℕ) → has x xs ≡ false → has x (erase u xs) ≡ false
unfolding has erase
has-erase_le u x [] h = refl
has-erase_le u x (y ∷ xs) h = ground (arith, h, has-erase_le u x xs)

pub distinct-erase : (u : ℕ) (xs : List ℕ) → distinct xs ≡ true → distinct (erase u xs) ≡ true
unfolding distinct erase
distinct-erase u [] d = refl
distinct-erase u (x ∷ xs) d = ground (arith, d, distinct-erase u xs, has-erase_le u x xs)

-- A queue that is not empty is one of a venue.
pub IsPool-range :
    (p : UpstreamPool) (q : Queues) (v u : ℕ) → IsPool p q → has u (q v) ≡ true → v < p.venues
unfolding has
IsPool-range p q v u i h = elim (Bool-cases (ltb v p.venues)) [
  | inl e ↦ ground (arith, e)
  | inr e ↦ let none_there = i.in_range v (ground (arith, e)) in cc (none_there, h)
]
