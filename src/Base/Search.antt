-- ===== src/Base/Search.antt =====
-- Searches in a text that grows at its end.
use Prim.Native.Nat.{ℕ, zero, suc, ◌+◌, ◌≤◌, ◌<◌}
use mathlib.Core.Path.{◌≡◌, refl}
use mathlib.Core.Bool.{true}
use mathlib.Core.Option.{none, some}
use mathlib.Core.List.{[], ◌∷◌, ◌++◌}
use native.Mathlib.Omega.{arith}
use llmbridge.Base.Lists.{length}
use llmbridge.Base.Bytes.{Bytes, starts_with, find}

pub starts_with-append :
    (p s t : Bytes) → length p ≤ length s → starts_with p (s ++ t) ≡ starts_with p s
unfolding starts_with
starts_with-append [] s t h = refl
starts_with-append (b ∷ p) [] t h = absurd (omega arith)
starts_with-append (b ∷ p) (c ∷ s) t h = ground (arith, starts_with-append p s t)

pub starts_with-length : (p s : Bytes) → starts_with p s ≡ true → length p ≤ length s
unfolding starts_with
starts_with-length [] s h = omega arith
starts_with-length (b ∷ p) [] h = absurd (ground arith)
starts_with-length (b ∷ p) (c ∷ s) h = ground (arith, starts_with-length p s)

-- What is found lies in the text.
pub find-length : (p s : Bytes) (n : ℕ) → find p s ≡ some n → n + length p ≤ length s
unfolding find starts_with
find-length p [] n h = ground (arith, starts_with-length p [])
find-length p (c ∷ s) zero h = ground (arith, starts_with-length p (c ∷ s))
find-length p (c ∷ s) (suc n) h = ground (arith, find-length p s n)

-- What is found stays the first occurrence when the text grows.
pub find-append : (p s t : Bytes) (n : ℕ) → find p s ≡ some n → find p (s ++ t) ≡ some n
unfolding find starts_with
find-append [] [] [] n h = h
find-append [] [] (c ∷ t) n h = ground (arith, h)
find-append (b ∷ p) [] t n h = absurd (ground arith)
find-append p (c ∷ s) t zero h =
    ground (arith, starts_with-length p (c ∷ s), starts_with-append p (c ∷ s) t)
find-append p (c ∷ s) t (suc n) h =
    ground (arith, find-length p s n, starts_with-append p (c ∷ s) t, find-append p s t n)

-- What was not there before ends behind the old text.
pub find-grown :
    (p s t : Bytes) (n : ℕ) → find p s ≡ none → find p (s ++ t) ≡ some n → length s < n + length p
unfolding find starts_with
find-grown [] [] t n h e = absurd (ground arith)
find-grown (b ∷ p) [] t n h e = omega arith
find-grown p (c ∷ s) t zero h e = ground (arith, starts_with-append p (c ∷ s) t)
find-grown p (c ∷ s) t (suc n) h e =
    ground (arith, starts_with-append p (c ∷ s) t, find-grown p s t n)
