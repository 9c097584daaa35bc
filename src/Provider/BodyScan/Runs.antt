-- ===== src/Provider/BodyScan/Runs.antt =====
-- The byte machine of `BodyScan` on a body that grows.
use llmbridge.Base.{
  ℕ, suc, ◌+◌, ◌≤◌, ◌≡◌, refl, ap, sym, ◌∙◌, false, [], ◌∷◌, ◌++◌, if◌then◌else◌, length, drop,
  drop-append, length-drop, arith,
}
use llmbridge.Base.Bytes.{Bytes}
use llmbridge.Provider.BodyScan.{BodyScan, Stepped}
use llmbridge.Provider.BodyScan.Spans.{IsInside, IsInside-later}
use llmbridge.Provider.BodyScan.Moved.{at_pos, moved}
use llmbridge.Provider.BodyScan.Grown.{
  take_byte-append, take_byte-at_pos, take_byte-verdict, take_byte-IsInside,
}
use llmbridge.Provider.BodyScan.Feed.Machine.{take_byte, run}

run-append :
    (rest : Bytes) (s : BodyScan) (a b : Bytes) (i : ℕ)
    → i + length rest ≤ length a
    → IsInside i s
    → run s (a ++ b) i rest ≡ run s a i rest
unfolding run
run-append [] s a b i h l = refl
run-append (c ∷ rest) s a b i h l =
    let t = take_byte s a i c in
    let e =
      take_byte-append s a b i c (omega arith) (IsInside-later i (length a) s (omega arith) l) in
    let r = run-append rest t.0 a b (i + 1) (omega arith) (take_byte-IsInside s a i c l) in
    ground (arith, e, r)

pub run-at_pos :
    (rest : Bytes) (p : ℕ) (s : BodyScan) (body : Bytes) (i : ℕ)
    → run (at_pos p s) body i rest ≡ moved p (run s body i rest)
unfolding run
run-at_pos [] p s body i = refl
run-at_pos (c ∷ rest) p s body i =
    let e = take_byte-at_pos p s body i c in
    let r = run-at_pos rest p (take_byte s body i c).0 body (i + 1) in ground (arith, e, r)

pub run-verdict :
    (rest : Bytes) (s : BodyScan) (body : Bytes) (i : ℕ) → (run s body i rest).0.verdict ≡ s.verdict
unfolding run
run-verdict [] s body i = refl
run-verdict (c ∷ rest) s body i =
    let e = take_byte-verdict s body i c in
    let r = run-verdict rest (take_byte s body i c).0 body (i + 1) in ground (arith, e, r)

pub run-IsInside :
    (rest : Bytes) (s : BodyScan) (body : Bytes) (i : ℕ)
    → IsInside i s
    → IsInside (i + length rest) (run s body i rest).0
unfolding run
run-IsInside [] s body i h = IsInside-later i (i + 0) s (omega arith) h
run-IsInside (c ∷ rest) s body i h =
    let t = (take_byte s body i c).0 in
    let l = take_byte-IsInside s body i c h in
    let ll = IsInside-later (i + 1) (i + suc (length rest)) t (omega arith) l in
    let r : IsInside (i + suc (length rest)) (run t body (i + 1) rest).0 =
      IsInside-later (i + 1 + length rest) (i + suc (length rest)) (run t body (i + 1) rest).0
        (omega arith) (run-IsInside rest t body (i + 1) l) in
    record { top = ground (arith, ll.top, r.top); options = ground (arith, ll.options, r.options) }

-- What follows in the body is read from where the first part left off.
unfoldable pub run_on : Stepped → Bytes → ℕ → Bytes → Stepped
run_on (s, ok) body i rest = if ok then run s body i rest else (s, false)

run-run_on :
    (xs ys : Bytes) (s : BodyScan) (body : Bytes) (i j : ℕ)
    → j ≡ i + length xs
    → run s body i (xs ++ ys) ≡ run_on (run s body i xs) body j ys
unfolding run run_on
run-run_on [] ys s body i j h = let e : j ≡ i = omega arith in rw e refl
run-run_on (c ∷ xs) ys s body i j h =
    let t = take_byte s body i c in
    let r = run-run_on xs ys t.0 body (i + 1) j (omega arith) in ground (arith, r)

pub run-pos :
    (rest : Bytes) (s : BodyScan) (body : Bytes) (i : ℕ) → (run s body i rest).0.pos ≡ s.pos
run-pos rest s body i = ap (λ r. r.0.pos) (run-at_pos rest s.pos s body i)

pub run-grown :
    (s : BodyScan) (a b : Bytes)
    → s.pos ≤ length a
    → IsInside s.pos s
    → run s (a ++ b) s.pos (drop s.pos (a ++ b))
      ≡ run_on (run s a s.pos (drop s.pos a)) (a ++ b) (length a) b
run-grown s a b h l =
    let n : s.pos + length (drop s.pos a) ≡ length a = omega (arith, length-drop s.pos a) in
    let e = run-append (drop s.pos a) s a b s.pos (omega arith) l in
    let r = run-run_on (drop s.pos a) b s (a ++ b) s.pos (length a) (sym n) in
    ap (λ x. run s (a ++ b) s.pos x) (drop-append s.pos a b h)
    ∙ r
    ∙ ap (λ x. run_on x (a ++ b) (length a) b) e
