-- ===== src/Provider/BodyScan/Resume.antt =====
-- `BodyScan::feed` on a body that arrives in parts.
use mathlib.Core.List.{flatten}
use llmbridge.Base.{
  ℕ, ◌+◌, ◌≤◌, ◌≡◌, refl, ap, sym, ◌∙◌, Bool, true, false, List, [], ◌∷◌, ◌++◌, if◌then◌else◌,
  Bool-cases, inl, inr, ◌⊎◌, length, drop, length-drop, append_assoc, length-append,
  drop-length_append, arith,
}
use llmbridge.Base.Bytes.{Bytes}
use llmbridge.Provider.BodyScan.{BodyScan, reset, Stepped, Verdict, more, done, refused}
use llmbridge.Provider.BodyScan.Spans.{IsInside, IsInside-later}
use llmbridge.Provider.BodyScan.Runs.{
  run_on, run-at_pos, run-verdict, run-IsInside, run-pos, run-grown,
}
use llmbridge.Provider.BodyScan.Moved.{at_pos, moved}
use llmbridge.Provider.BodyScan.Feed.{is_more, finish, refuse, feed}
use llmbridge.Provider.BodyScan.Feed.Machine.{run}
use llmbridge.Provider.BodyScan.Feed.Rounds.{feed_bytewise, feed-feed_bytewise}

is_more-more : (v : Verdict) → is_more v ≡ true → v ≡ more
is_more-more more h = refl
is_more-more done h = cc
is_more-more refused h = cc

ended : {v : Verdict} → is_more v ≡ false → v ≡ more → ⊥
ended h k = cc

Stepped-cases : (r : Stepped) → (r ≡ (r.0, true)) ⊎ (r ≡ (r.0, false))
Stepped-cases (s, true) = inl refl
Stepped-cases (s, false) = inr refl

feed-ended :
    (s : BodyScan) (body : Bytes) (last : Bool) → is_more s.verdict ≡ false → feed s body last ≡ s
unfolding feed_bytewise
feed-ended s body last h = let e = feed-feed_bytewise s body last in ground (arith, e)

feed-run :
    (s : BodyScan) (body : Bytes) (last : Bool) (r : Stepped)
    → is_more s.verdict ≡ true
    → run s body s.pos (drop s.pos body) ≡ r
    → feed s body last ≡ (if r.1 then finish r.0 body last else refuse r.0)
unfolding feed_bytewise
feed-run s body last r h k = let e = feed-feed_bytewise s body last in ground (arith, e)

-- The same scan: but for the position of a scan that ended, where no call reads it, the same state.
abbrev SameScan : BodyScan → BodyScan → Type 0
SameScan r r' = (at_pos 0 r ≡ at_pos 0 r') × (r'.verdict ≡ more → r ≡ r')

refuse-SameScan : (p : ℕ) (s : BodyScan) → SameScan (refuse (at_pos p s)) (refuse s)
unfolding refuse
refuse-SameScan p s = (refl, λ h. cc)

finish-at_pos :
    (p : ℕ) (s : BodyScan) (body : Bytes) (last : Bool)
    → p ≤ length body
    → s.pos ≤ length body
    → finish (at_pos p s) body last ≡ finish s body last
unfolding finish
finish-at_pos p s body last h k = ground arith

finish-part :
    (s : BodyScan) (body : Bytes)
    → s.pos ≤ length body
    → finish s body false ≡ at_pos (length body) s
unfolding finish
finish-part s body h = ground arith

-- A scan that a later call goes on with.
abbrev IsReady : ℕ → BodyScan → Type 0
IsReady n s = s.verdict ≡ more → (s.pos ≤ n) × IsInside s.pos s

-- The call for a part that refuses.
resume-refused :
    (s t : BodyScan) (a b : Bytes) (last : Bool)
    → is_more s.verdict ≡ true
    → s.pos ≤ length a
    → IsInside s.pos s
    → run s a s.pos (drop s.pos a) ≡ (t, false)
    → SameScan (feed (feed s a false) (a ++ b) last) (feed s (a ++ b) last)
unfolding run_on
resume-refused s t a b last m h l k =
    let one : feed s a false ≡ refuse t = feed-run s a false (t, false) m k in
    let two : feed (refuse t) (a ++ b) last ≡ refuse t =
      feed-ended (refuse t) (a ++ b) last (unfold refuse in refl) in
    let g = run-grown s a b h l ∙ ap (λ x. run_on x (a ++ b) (length a) b) k in
    let whole : feed s (a ++ b) last ≡ refuse t = feed-run s (a ++ b) last (t, false) m g in
    rw (one, two, whole) (refuse-SameScan t.pos t)

outcome-SameScan :
    (p : ℕ) (r : Stepped) (body : Bytes) (last : Bool)
    → p ≤ length body
    → r.0.pos ≤ length body
    → SameScan
        (if r.1 then finish (at_pos p r.0) body last else refuse (at_pos p r.0))
        (if r.1 then finish r.0 body last else refuse r.0)
outcome-SameScan p (s, true) body last h k =
    let e = finish-at_pos p s body last h k in (ap (at_pos 0) e, λ _. e)
outcome-SameScan p (s, false) body last h k = refuse-SameScan p s

resume-more :
    (s t : BodyScan) (a b : Bytes) (last : Bool)
    → is_more s.verdict ≡ true
    → s.pos ≤ length a
    → IsInside s.pos s
    → run s a s.pos (drop s.pos a) ≡ (t, true)
    → SameScan (feed (feed s a false) (a ++ b) last) (feed s (a ++ b) last)
unfolding run_on
resume-more s t a b last m h l k =
    let tp : t.pos ≡ s.pos = ap (λ r. r.0.pos) (sym k) ∙ run-pos (drop s.pos a) s a s.pos in
    let tv : t.verdict ≡ s.verdict =
      ap (λ r. r.0.verdict) (sym k) ∙ run-verdict (drop s.pos a) s a s.pos in
    let la = length-append a b in
    let r = run t (a ++ b) (length a) b in
    let rp = run-pos b t (a ++ b) (length a) in
    let one : feed s a false ≡ at_pos (length a) t =
      feed-run s a false (t, true) m k ∙ finish-part t a (omega arith) in
    let g = run-grown s a b h l ∙ ap (λ x. run_on x (a ++ b) (length a) b) k in
    let whole = feed-run s (a ++ b) last r m g in
    let two =
      feed-run (at_pos (length a) t) (a ++ b) last (moved (length a) r) (ap is_more tv ∙ m) (
        ap (run (at_pos (length a) t) (a ++ b) (length a)) (drop-length_append a b)
        ∙ run-at_pos b (length a) t (a ++ b) (length a)) in
    rw (one, two, whole) (outcome-SameScan (length a) r (a ++ b) last (omega arith) (omega arith))

feed-resume_ready :
    (s : BodyScan) (a b : Bytes) (last : Bool)
    → is_more s.verdict ≡ true
    → s.pos ≤ length a
    → IsInside s.pos s
    → SameScan (feed (feed s a false) (a ++ b) last) (feed s (a ++ b) last)
feed-resume_ready s a b last m h l = elim (Stepped-cases (run s a s.pos (drop s.pos a))) [
  | inl k ↦ resume-more s (run s a s.pos (drop s.pos a)).0 a b last m h l k
  | inr k ↦ resume-refused s (run s a s.pos (drop s.pos a)).0 a b last m h l k
]

-- A call with the part `a`, and then one with `a` and what follows it, against one call.
feed-resume :
    (s : BodyScan) (a b : Bytes) (last : Bool)
    → IsReady (length a) s
    → SameScan (feed (feed s a false) (a ++ b) last) (feed s (a ++ b) last)
feed-resume s a b last h = elim (Bool-cases (is_more s.verdict)) [
  | inl m ↦ let (k, l) = h (is_more-more s.verdict m) in feed-resume_ready s a b last m k l
  | inr m ↦
      let one = feed-ended s a false m in
      let two = feed-ended s (a ++ b) last m in rw (one, two) (refl, λ _. refl)
]

part-IsReady :
    (r : Stepped) (body : Bytes) (n : ℕ)
    → length body ≤ n
    → r.0.pos ≤ length body
    → IsInside (length body) r.0
    → IsReady n (if r.1 then finish r.0 body false else refuse r.0)
unfolding refuse
part-IsReady (s, true) body n h k l =
    rw (finish-part s body k) (λ _. (h, record { top = l.top; options = l.options }))
part-IsReady (s, false) body n h k l = λ m. cc

feed-IsReady :
    (s : BodyScan) (body : Bytes) (n : ℕ)
    → length body ≤ n
    → IsReady (length body) s
    → IsReady n (feed s body false)
feed-IsReady s body n h k = elim (Bool-cases (is_more s.verdict)) [
  | inl v ↦
      let (i, l) = k (is_more-more s.verdict v) in
      let rest = drop s.pos body in
      let r = run s body s.pos rest in
      let part = feed-run s body false r v refl in
      let p = run-pos rest s body s.pos in
      let e : s.pos + length rest ≡ length body = omega (arith, length-drop s.pos body) in
      let inside : IsInside (length body) r.0 =
        IsInside-later (s.pos + length rest) (length body) r.0 (omega arith)
          (run-IsInside rest s body s.pos l) in
      rw part (part-IsReady r body n h (omega arith) inside)
  | inr v ↦ λ m.
      (let w : s.verdict ≡ more = ap (λ t. t.verdict) (sym (feed-ended s body false v)) ∙ m in
        absurd (ended v w))
]

-- The calls of `feed` for a body that arrives in the parts `ps`, `z` the last of them, and of which
-- `before` is there already: each call has all that has arrived.
unfoldable pub feed_parts : BodyScan → Bytes → List Bytes → Bytes → BodyScan
feed_parts s before [] z = feed s (before ++ z) true
feed_parts s before (p ∷ ps) z = feed_parts (feed s (before ++ p) false) (before ++ p) ps z

feed_parts-ready :
    (ps : List Bytes) (s : BodyScan) (before z : Bytes)
    → IsReady (length before) s
    → at_pos 0 (feed_parts s before ps z) ≡ at_pos 0 (feed s (before ++ (flatten ps ++ z)) true)
unfolding feed_parts flatten
feed_parts-ready [] s before z h = refl
feed_parts-ready (p ∷ ps) s before z h =
    let la = length-append before p in
    let grown : IsReady (length (before ++ p)) s = λ m. let (i, l) = h m in (omega arith, l) in
    let later = feed-IsReady s (before ++ p) (length (before ++ p)) (omega arith) grown in
    let all : (before ++ p) ++ (flatten ps ++ z) ≡ before ++ (flatten (p ∷ ps) ++ z) =
      simp append_assoc in
    feed_parts-ready ps (feed s (before ++ p) false) (before ++ p) z later
    ∙ (feed-resume s (before ++ p) (flatten ps ++ z) true grown).0
    ∙ ap (λ b. at_pos 0 (feed s b true)) all

-- However a body is cut into parts, the calls of `feed` for them, each with all that has arrived,
-- leave the scan as one call with the whole body leaves it, but for its position: with
-- the same verdict, the same reason and the same spans held and found.
pub feed_parts-flatten :
    (all_keys track_model : Bool) (members : ℕ) (ps : List Bytes) (z : Bytes)
    → at_pos 0 (feed_parts (reset all_keys track_model members) [] ps z)
      ≡ at_pos 0 (feed (reset all_keys track_model members) (flatten ps ++ z) true)
unfolding reset
feed_parts-flatten all_keys track_model members ps z =
    feed_parts-ready ps (reset all_keys track_model members) [] z
      (λ _. (omega arith, record { top = tt; options = tt }))
