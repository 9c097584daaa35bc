-- ===== src/Provider/BodyScan/Spans.antt =====
-- The keys that `BodyScan` has told lie in what it has read, so what it reads of them does not change
-- when the body grows.
use llmbridge.Base.{
  ℕ, zero, suc, ◌-◌, ◌%◌, ◌^◌, ◌≤◌, ◌≡◌, refl, ap, ◌∙◌, true, false, List, [], ◌∷◌, ◌++◌, length,
  take, drop, take-append, drop-append, length-drop, length-take, arith,
}
use llmbridge.Base.Bytes.{Bytes, slice}
use llmbridge.Provider.BodyScan.{BodyScan, Span, Stepped, ◌>>=◌}
use llmbridge.Provider.BodyScan.Keys.{key_done, key_member, key_model, key_set, repeats, span_of}
use llmbridge.Provider.BodyScan.Untold.{SameKeys}

-- Each span ends at `i` at the latest.
abbrev pub Inside : ℕ → List Span → Type 0
Inside i [] = Unit
Inside i (p ∷ ps) = (p.len ≤ i - p.at) × Inside i ps

pub record IsInside (i : ℕ) (s : BodyScan) : Type 0 where
  pub top : Inside i s.top
  pub options : Inside i s.options

Inside-later : (i j : ℕ) (ps : List Span) → i ≤ j → Inside i ps → Inside j ps
Inside-later i j [] h k = tt
Inside-later i j (p ∷ ps) h (k, ks) = (omega arith, Inside-later i j ps h ks)

pub IsInside-later : (i j : ℕ) (s : BodyScan) → i ≤ j → IsInside i s → IsInside j s
IsInside-later i j s h k = record {
  top = Inside-later i j s.top h k.top;
  options = Inside-later i j s.options h k.options;
}

pub IsInside-same : (i : ℕ) (s s' : BodyScan) → SameKeys s s' → IsInside i s → IsInside i s'
IsInside-same i s s' (h, k, _) l = record { top = rw h l.top; options = rw k l.options }

Inside-snoc :
    (i : ℕ) (ps : List Span) (p : Span) → p.len ≤ i - p.at → Inside i ps → Inside i (ps ++ p ∷ [])
Inside-snoc i [] p h k = (h, tt)
Inside-snoc i (q ∷ ps) p h (k, ks) = (k, Inside-snoc i ps p h ks)

-- What lies in `a` is read as it was when `b` follows.
slice-append : (p n : ℕ) (a b : Bytes) → n ≤ length a - p → slice p n (a ++ b) ≡ slice p n a
slice-append p zero a b h = refl
slice-append p (suc n) a b h =
    ap (take (suc n)) (drop-append p a b (omega arith))
    ∙ take-append (suc n) (drop p a) b (omega (arith, length-drop p a))

repeats-append :
    (a b k : Bytes) (ps : List Span) → Inside (length a) ps → repeats (a ++ b) k ps ≡ repeats a k ps
unfolding repeats
repeats-append a b k [] h = refl
repeats-append a b k (p ∷ ps) (h, hs) =
    rw (slice-append p.at p.len a b h, repeats-append a b k ps hs) refl

key_member-SameKeys : (s : BodyScan) (k : Bytes) → SameKeys s (key_member s k).0
unfolding key_member
key_member-SameKeys s k = (ground arith, ground arith, ground arith)

key_model-SameKeys : (s : BodyScan) (k : Bytes) → SameKeys s (key_model s k).0
unfolding key_model
key_model-SameKeys s k = (ground arith, ground arith, ground arith)

key_set-append :
    (s : BodyScan) (a b k : Bytes) → IsInside (length a) s → key_set s (a ++ b) k ≡ key_set s a k
unfolding key_set
key_set-append s a b k h =
    let t = repeats-append a b k s.top h.top in
    let o = repeats-append a b k s.options h.options in ground (arith, t, o)

mod_inside : (n i p : ℕ) → n ≤ i - p → n % 2 ^ 32 ≤ i - p % 2 ^ 32
mod_inside n i p h = omega arith

key_set-IsInside :
    (s : BodyScan) (body k : Bytes) (i : ℕ)
    → length k ≤ i - s.str
    → IsInside i s
    → IsInside i (key_set s body k).0
unfolding key_set
key_set-IsInside s body k i h l =
    let p = span_of s k in
    let n : p.len ≤ i - p.at = mod_inside (length k) i s.str h in
    record {
      top = let t = Inside-snoc i s.top p n l.top in ground (arith, t, l.top);
      options = let o = Inside-snoc i s.options p n l.options in ground (arith, o, l.options);
    }

pub key_done-append :
    (s : BodyScan) (a b : Bytes) (e : ℕ)
    → e ≤ length a
    → IsInside (length a) s
    → key_done s (a ++ b) e ≡ key_done s a e
unfolding key_done
key_done-append s a b e h l =
    let k = slice s.str (e - s.str) a in
    let closed = record s { key = false } in
    let t = key_member closed k in
    let m = key_model t.0 k in
    let lt =
      IsInside-same (length a) closed t.0 (key_member-SameKeys closed k)
        (record { top = l.top; options = l.options }) in
    let lm = IsInside-same (length a) t.0 m.0 (key_model-SameKeys t.0 k) lt in
    rw (slice-append s.str (e - s.str) a b (omega arith), key_set-append m.0 a b k lm) refl

key_member-str : (s : BodyScan) (k : Bytes) → (key_member s k).0.str ≡ s.str
unfolding key_member
key_member-str s k = ground arith

key_model-str : (s : BodyScan) (k : Bytes) → (key_model s k).0.str ≡ s.str
unfolding key_model
key_model-str s k = ground arith

bind-IsInside :
    (i : ℕ) (r : Stepped) (f : BodyScan → Stepped)
    → IsInside i r.0
    → IsInside i (f r.0).0
    → IsInside i (r >>= f).0
bind-IsInside i (s, true) f h k = k
bind-IsInside i (s, false) f h k = h

keys_told : BodyScan → Bytes → Bytes → Stepped
keys_told s body k = key_member s k >>= λ a. key_model a k >>= λ b. key_set b body k

keys_told-IsInside :
    (s : BodyScan) (body k : Bytes) (i : ℕ)
    → length k ≤ i - s.str
    → IsInside i s
    → IsInside i (keys_told s body k).0
unfolding keys_told
keys_told-IsInside s body k i h l =
    let t = key_member s k in
    let m = key_model t.0 k in
    let lt = IsInside-same i s t.0 (key_member-SameKeys s k) l in
    let lm = IsInside-same i t.0 m.0 (key_model-SameKeys t.0 k) lt in
    let n : length k ≤ i - m.0.str = omega (arith, key_member-str s k, key_model-str t.0 k) in
    bind-IsInside i t (λ a. key_model a k >>= λ b. key_set b body k) lt
      (bind-IsInside i m (λ b. key_set b body k) lm (key_set-IsInside m.0 body k i n lm))

pub key_done-IsInside :
    (s : BodyScan) (body : Bytes) (e i : ℕ)
    → e ≤ i
    → IsInside i s
    → IsInside i (key_done s body e).0
unfolding key_done keys_told
key_done-IsInside s body e i h l =
    let k = slice s.str (e - s.str) body in
    let n : length k ≤ i - s.str = omega (arith, length-take (e - s.str) (drop s.str body)) in
    let closed = record s { key = false } in
    let t = keys_told-IsInside closed body k i n (record { top = l.top; options = l.options }) in
    record { top = ground (arith, l.top, t.top); options = ground (arith, l.options, t.options) }

key_set-verdict : (s : BodyScan) (body k : Bytes) → (key_set s body k).0.verdict ≡ s.verdict
unfolding key_set
key_set-verdict s body k = ground arith

keys_told-verdict : (s : BodyScan) (body k : Bytes) → (keys_told s body k).0.verdict ≡ s.verdict
unfolding keys_told
keys_told-verdict s body k =
    let t = (key_member s k).0 in
    let m = (key_model t k).0 in
    let a = key_member-SameKeys s k in
    let b = key_model-SameKeys t k in let d = key_set-verdict m body k in ground (arith, a, b, d)

pub key_done-verdict :
    (s : BodyScan) (body : Bytes) (e : ℕ) → (key_done s body e).0.verdict ≡ s.verdict
unfolding key_done keys_told
key_done-verdict s body e =
    let k = slice s.str (e - s.str) body in
    let t = keys_told-verdict (record s { key = false }) body k in ground (arith, t)
