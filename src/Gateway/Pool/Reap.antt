-- ===== src/Gateway/Pool/Reap.antt =====
-- `reap` takes what is stale from the oldest end of each queue.
pub mod Lists
pub mod Walk
use llmbridge.Base.{
  ℕ, zero, suc, ◌+◌, ◌-◌, ◌≤◌, ◌<◌, ◌≡◌, refl, ap, subst, sym, ◌∙◌, fun_ext, Bool, true, false, not,
  ◌&&◌, ◌||◌, List, [], ◌∷◌, ◌++◌, append-nil, append_assoc, Option, none, some, ◌==◌,
  if◌then◌else◌, ltb, leb, Bool-cases, inl, inr, ◌⊎◌, length, length-append, arith,
}
use llmbridge.Gateway.Pool.{
  Ptr, UpstreamConn, Conns, UpstreamPool, index, put, set_older, set_newer, remove, unlink,
  reap_list, reap_lists, reap,
}
use llmbridge.Gateway.Pool.Chain.{has, distinct, final, Chain-node, final-append, has-append}
use llmbridge.Gateway.Pool.Links.{distinct-apart}
use llmbridge.Gateway.Pool.Queues.{Queues, put_queue, total, erase, IsPool}
use llmbridge.Gateway.Pool.Queues.Removes.{without, remove-IsPool}

abbrev is_nil : List ℕ → Bool
is_nil [] = true
is_nil (x ∷ xs) = false

-- A queue without the stale connections at its end, and those from the oldest on.
unfoldable pub live : (ℕ → Bool) → List ℕ → List ℕ
live stale [] = []
live stale (x ∷ xs) = let rest = live stale xs in if is_nil rest && stale x then [] else x ∷ rest

unfoldable pub expired : (ℕ → Bool) → List ℕ → List ℕ
unfolding live
expired stale [] = []
expired stale (x ∷ xs) =
    expired stale xs ++ (if is_nil (live stale xs) && stale x then x ∷ [] else [])

abbrev pub is_stale : UpstreamPool → ℕ → ℕ → Bool
is_stale p cutoff u = ltb (p.conns u).ts_pooled cutoff

-- `close` on each of a list.
abbrev pub close_all {ℓ} : {S : Type ℓ} → (S → ℕ → S) → S → List ℕ → S
close_all close s [] = s
close_all close s (u ∷ us) = close_all close (close s u) us

pub live-snoc :
    (stale : ℕ → Bool) (xs : List ℕ) (z : ℕ)
    → live stale (xs ++ z ∷ []) ≡ (if stale z then live stale xs else xs ++ z ∷ [])
unfolding live
live-snoc stale [] z = refl
live-snoc stale (x ∷ xs) z =
    let ih = live-snoc stale xs z in
    elim (Bool-cases (stale z)) [ inl e ↦ rw (ih, e) refl | inr e ↦ rw (ih, e) (snoc_kept xs) ]
  where
    snoc_kept :
        (ys : List ℕ)
        → (if is_nil (ys ++ z ∷ []) && stale x then [] else x ∷ (ys ++ z ∷ [])) ≡ x ∷ (ys ++ z ∷ [])
    snoc_kept [] = refl
    snoc_kept (y ∷ ys) = refl

pub expired-snoc :
    (stale : ℕ → Bool) (xs : List ℕ) (z : ℕ)
    → expired stale (xs ++ z ∷ []) ≡ (if stale z then z ∷ expired stale xs else [])
unfolding expired live
expired-snoc stale [] z = refl
expired-snoc stale (x ∷ xs) z =
    let ih = expired-snoc stale xs z in
    let l = live-snoc stale xs z in
    elim (Bool-cases (stale z)) [
      | inl e ↦ rw (ih, l, e) refl
      | inr e ↦ rw (ih, l, e) (snoc_none xs)
    ]
  where
    snoc_none : (ys : List ℕ) → (if is_nil (ys ++ z ∷ []) && stale x then x ∷ [] else []) ≡ []
    snoc_none [] = refl
    snoc_none (y ∷ ys) = refl

-- A list is empty or ends in an element.
pub snoc-cases : (xs : List ℕ) → (xs ≡ []) ⊎ ((ys : List ℕ) × (z : ℕ) × (xs ≡ ys ++ z ∷ []))
snoc-cases [] = inl refl
snoc-cases (x ∷ xs) = elim (snoc-cases xs) [
  | inl e ↦ inr ([], x, ap (λ k. x ∷ k) e)
  | inr (ys, z, e) ↦ inr (x ∷ ys, z, ap (λ k. x ∷ k) e)
]

pub final-snoc : (before : Ptr) (ys : List ℕ) (z : ℕ) → final before (ys ++ z ∷ []) ≡ some z
final-snoc before ys z = final-append before ys (z ∷ [])

pub erase-snoc : (ys : List ℕ) (z : ℕ) → has z ys ≡ false → erase z (ys ++ z ∷ []) ≡ ys
unfolding erase has
erase-snoc [] z h = ground arith
erase-snoc (y ∷ ys) z h = ground (arith, h, erase-snoc ys z)

set_older-stamp :
    (n w : Ptr) (cs : Conns) (x : ℕ) → (set_older n w cs x).ts_pooled ≡ (cs x).ts_pooled
set_older-stamp none w cs x = refl
set_older-stamp (some m) w cs x = ground arith

set_newer-stamp :
    (n w : Ptr) (cs : Conns) (x : ℕ) → (set_newer n w cs x).ts_pooled ≡ (cs x).ts_pooled
set_newer-stamp none w cs x = refl
set_newer-stamp (some m) w cs x = ground arith

-- `remove` moves no stamp.
stamp-remove :
    (u : ℕ) (p : UpstreamPool) (x : ℕ) → ((remove u p).conns x).ts_pooled ≡ (p.conns x).ts_pooled
unfolding remove unlink
stamp-remove u p x =
    let c = p.conns u in
    let cs = set_older c.pool_newer c.pool_older p.conns in
    let c' = cs u in
    let a = set_older-stamp c.pool_newer c.pool_older p.conns x in
    let b = set_newer-stamp c'.pool_older c'.pool_newer cs x in ground (arith, a, b)

pub stale-remove :
    (u cutoff : ℕ) (p : UpstreamPool) → is_stale (remove u p) cutoff ≡ is_stale p cutoff
stale-remove u cutoff p = fun_ext λ x. ap (λ k. ltb k cutoff) (stamp-remove u p x)
