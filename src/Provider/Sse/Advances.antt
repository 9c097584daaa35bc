-- ===== src/Provider/Sse/Advances.antt =====
-- What a round of `SseFrameReader::next` leaves: less text, where it goes on or hands out an event,
-- and the flags that no round sets.
use llmbridge.Base.{
  ℕ, suc, ◌+◌, ◌-◌, ◌≤◌, ◌<◌, ◌≡◌, refl, ap, subst, sym, ◌∙◌, Bool, true, false, not, ◌||◌, [], ◌∷◌,
  ◌++◌, Bool-cases, Option-cases, inl, inr, length, take, drop, length-drop, drop-drop, arith,
}
use llmbridge.Base.Bytes.{Bytes, is_empty}
use llmbridge.Provider.Sse.{
  SseFrameReader, event, more, fail, Round, again, returned, holds_cr, add_data, data_value,
  line_length, dropped, paired, pause, past_end, use_line, line_found, take_line, round,
}
use llmbridge.Provider.Sse.Rounds.{holds_cr-drop}
use llmbridge.Provider.Sse.Follows.{rest-cases, paired-has_cr}

abbrev pub reader_of : Round → SseFrameReader
reader_of (again q) = q
reader_of (returned step q) = q

-- It did not stop for want of text, nor fail.
abbrev pub goes_on : Round → Bool
goes_on (again q) = true
goes_on (returned (event d) q) = true
goes_on (returned more q) = false
goes_on (returned fail q) = false

abbrev pub fails : Round → Bool
fails (again q) = false
fails (returned (event d) q) = false
fails (returned more q) = false
fails (returned fail q) = true

-- The same text, and the same flags.
abbrev pub Alike : SseFrameReader → SseFrameReader → Type 0
Alike q r = (q.rest ≡ r.rest) × (q.has_cr ≡ r.has_cr) × (q.stopped ≡ r.stopped)

-- Not failed, but by a round that says so.
abbrev pub is_sound : Round → Bool
is_sound x = fails x || not (reader_of x).failed

add_data-Alike : (v : Bytes) (b : Bool) (r : SseFrameReader) → Alike (add_data v b r).0 r
unfolding add_data
add_data-Alike v b r = (ground arith, ground arith, ground arith)

add_data-failed : (v : Bytes) (b : Bool) (r : SseFrameReader) → (add_data v b r).0.failed ≡ r.failed
unfolding add_data
add_data-failed v b r = ground arith

use_line-Alike : (line : Bytes) (r : SseFrameReader) → Alike (reader_of (use_line line r)) r
unfolding use_line
use_line-Alike line r = elim (Option-cases (data_value line)) [
  | inl e ↦ (ground (arith, e), ground (arith, e), ground (arith, e))
  | inr (v, e) ↦
      let (rest, has_cr, stopped) = add_data-Alike v (not r.line_owned) r in
      (ground (arith, e, rest), ground (arith, e, has_cr), ground (arith, e, stopped))
]

use_line-is_sound :
    (line : Bytes) (r : SseFrameReader) → r.failed ≡ false → is_sound (use_line line r) ≡ true
unfolding use_line
use_line-is_sound line r h = elim (Option-cases (data_value line)) [
  | inl e ↦ ground (arith, e, h)
  | inr (v, e) ↦ ground (arith, e, h, add_data-failed v (not r.line_owned) r)
]

line_found-Alike : (text : Bytes) (r : SseFrameReader) → Alike (reader_of (line_found text r)) r
unfolding line_found
line_found-Alike text r =
    let q : SseFrameReader = record r { line = r.line ++ text; line_owned = true } in
    let (rest, has_cr, stopped) = use_line-Alike text r in
    let (rest', has_cr', stopped') = use_line-Alike (r.line ++ text) q in
    (
      ground (arith, rest, rest'),
      ground (arith, has_cr, has_cr'),
      ground (arith, stopped, stopped'),
    )

line_found-is_sound :
    (text : Bytes) (r : SseFrameReader) → r.failed ≡ false → is_sound (line_found text r) ≡ true
unfolding line_found
line_found-is_sound text r h =
    let q : SseFrameReader = record r { line = r.line ++ text; line_owned = true } in
    ground (arith, use_line-is_sound text r h, use_line-is_sound (r.line ++ text) q h)

-- The flags of the reader are those of another, and its text ends in that reader's text.
pub record Within (q r : SseFrameReader) : Type 0 where
  pub shorter : length q.rest ≤ length r.rest
  pub keeps_cr :
      (r.has_cr || not (holds_cr r.rest)) ≡ true → (q.has_cr || not (holds_cr q.rest)) ≡ true
  pub keeps_stopped : q.stopped ≡ r.stopped
  pub keeps_failed : q.failed ≡ r.failed

past_end-Within :
    (c : ℕ) (s : Bytes) (r : SseFrameReader) → Within (past_end c s r) (record r { rest = s })
unfolding past_end
past_end-Within c [] r = record {
  shorter = omega arith;
  keeps_cr = λ h. h;
  keeps_stopped = refl;
  keeps_failed = refl;
}
past_end-Within c (d ∷ t) r =
    let behind = holds_cr-drop 1 (d ∷ t) in
    record {
      shorter = ground arith;
      keeps_cr = λ h. ground (arith, h, behind);
      keeps_stopped = ground arith;
      keeps_failed = ground arith;
    }

-- What a round with its result `x` leaves of the reader `r`.
pub record Leaves (r : SseFrameReader) (x : Round) : Type 0 where
  pub shorter : goes_on x ≡ true → length (reader_of x).rest < length r.rest
  pub keeps_cr :
      goes_on x ≡ true
      → (r.has_cr || not (holds_cr r.rest)) ≡ true
      → ((reader_of x).has_cr || not (holds_cr (reader_of x).rest)) ≡ true
  pub keeps_stopped : (reader_of x).stopped ≡ r.stopped
  pub sound : r.failed ≡ false → is_sound x ≡ true

pause-Leaves :
    (q r : SseFrameReader) → q.stopped ≡ r.stopped → q.failed ≡ r.failed → Leaves r (pause q)
unfolding pause
pause-Leaves q r s f =
    let stays : goes_on (pause q) ≡ false = unfold pause in ground arith in
    record {
      shorter = λ g. ground (arith, g, stays);
      keeps_cr = λ g c. ground (arith, g, stays);
      keeps_stopped = ground (arith, s);
      sound = λ h. ground (arith, f, h);
    }

found-Leaves :
    (text s : Bytes) (c : ℕ) (r : SseFrameReader)
    → length s < length r.rest
    → (holds_cr r.rest ≡ false → holds_cr s ≡ false)
    → Leaves r (line_found text (past_end c s r))
found-Leaves text s c r h k =
    let q = past_end c s r in
    let x = line_found text q in
    let w = past_end-Within c s r in
    let (rest, has_cr, stopped) = line_found-Alike text q in
    record {
      shorter = λ g. ground (arith, ap length rest, w.shorter, h);
      keeps_cr = λ g clear.
          let start : (r.has_cr || not (holds_cr s)) ≡ true = ground (arith, clear, k) in
          ground (arith, rest, has_cr, w.keeps_cr start);
      keeps_stopped = stopped ∙ w.keeps_stopped;
      sound = λ f. line_found-is_sound text q (w.keeps_failed ∙ f);
    }

take_line-Leaves : (r : SseFrameReader) → Leaves r (take_line r)
unfolding take_line
take_line-Leaves r =
    let k = line_length r.has_cr r.rest in
    elim (rest-cases (drop k r.rest)) [
      | inl e ↦
          let q : SseFrameReader = record r { line = r.line ++ take k r.rest; rest = [] } in
          let ends : take_line r ≡ pause q = ground (arith, e) in
          subst (Leaves r) (sym ends) (pause-Leaves q r refl refl)
      | inr (c, s, e) ↦
          let len : suc (length s) ≡ length r.rest - k = ap length (sym e) ∙ length-drop k r.rest in
          let behind : drop (k + 1) r.rest ≡ s = sym (drop-drop k 1 r.rest) ∙ ap (drop 1) e in
          let clear = holds_cr-drop (k + 1) r.rest in
          let clear' = λ (h : holds_cr r.rest ≡ false). (ap holds_cr (sym behind) ∙ clear h) in
          let found : take_line r ≡ line_found (take k r.rest) (past_end c s r) =
            ground (arith, e) in
          subst (Leaves r) (sym found)
            (found-Leaves (take k r.rest) s c r (omega (arith, len)) clear')
    ]

Within-Leaves : (q r : SseFrameReader) (x : Round) → Within q r → Leaves q x → Leaves r x
Within-Leaves q r x w l = record {
  shorter = λ g. omega (arith, w.shorter, l.shorter g);
  keeps_cr = λ g c. l.keeps_cr g (w.keeps_cr c);
  keeps_stopped = l.keeps_stopped ∙ w.keeps_stopped;
  sound = λ f. l.sound (w.keeps_failed ∙ f);
}

Within-trans : (a b c : SseFrameReader) → Within a b → Within b c → Within a c
Within-trans a b c v w = record {
  shorter = omega (arith, v.shorter, w.shorter);
  keeps_cr = λ h. v.keeps_cr (w.keeps_cr h);
  keeps_stopped = v.keeps_stopped ∙ w.keeps_stopped;
  keeps_failed = v.keeps_failed ∙ w.keeps_failed;
}

dropped-Within : (r : SseFrameReader) → Within (dropped r) r
dropped-Within r = record {
  shorter = ground arith;
  keeps_cr = λ h. ground (arith, h);
  keeps_stopped = ground arith;
  keeps_failed = ground arith;
}

paired-Within : (r : SseFrameReader) → Within (paired r) r
paired-Within r = elim (rest-cases r.rest) [
  | inl e ↦ record {
    shorter = ground (arith, e);
    keeps_cr = paired-has_cr r;
    keeps_stopped = ground (arith, e);
    keeps_failed = ground (arith, e);
  }
  | inr (c, s, e) ↦ record {
    shorter = ground (arith, e);
    keeps_cr = paired-has_cr r;
    keeps_stopped = ground (arith, e);
    keeps_failed = ground (arith, e);
  }
]

pub round-Leaves : (r : SseFrameReader) → Leaves r (round r)
round-Leaves r =
    let q = paired (dropped r) in
    let w = Within-trans q (dropped r) r (paired-Within (dropped r)) (dropped-Within r) in
    elim (Bool-cases (is_empty q.rest || q.skip_lf)) [
      | inl e ↦
          let paused : round r ≡ pause q = unfold round in ground (arith, e) in
          subst (Leaves r) (sym paused) (pause-Leaves q r w.keeps_stopped w.keeps_failed)
      | inr e ↦
          let taken : round r ≡ take_line q = unfold round in ground (arith, e) in
          subst (Leaves r) (sym taken) (Within-Leaves q r (take_line q) w (take_line-Leaves q))
    ]
