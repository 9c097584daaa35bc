-- ===== src/Provider/Sse/Rounds.antt =====
-- A line's end, as `SseFrameReader` searches it and as the bytes in turn give it.
use llmbridge.Base.{
  ℕ, zero, suc, ◌≡◌, refl, ap, sym, ◌∙◌, Bool, true, false, not, ◌&&◌, ◌||◌, [], ◌∷◌, ◌++◌,
  append-nil, append_assoc, Option, none, ◌==◌, if◌then◌else◌, Bool-cases, Option-cases, inl, inr,
  take, drop, arith,
}
use llmbridge.Base.Bytes.{Bytes, cr, lf, find_byte}
use llmbridge.Provider.Sse.{holds_cr, line_length}
use llmbridge.Provider.Sse.Bytewise.{
  Ended, passed, dispatched, over, Reading, onto, is_end, line_end, reads,
}

-- How many bytes stand before the first end of a line.
unfoldable pub to_end : Bytes → ℕ
to_end [] = 0
to_end (c ∷ s) = if is_end c then 0 else suc (to_end s)

line_length-cr : (s : Bytes) → line_length true s ≡ to_end s
unfolding line_length to_end find_byte
line_length-cr [] = refl
line_length-cr (c ∷ s) =
    let ih = line_length-cr s in let e1 = Option-cases (find_byte lf s) in ground (arith, ih)

line_length-lf : (s : Bytes) → holds_cr s ≡ false → line_length false s ≡ to_end s
unfolding line_length to_end find_byte holds_cr
line_length-lf [] h = refl
line_length-lf (c ∷ s) h = ground (arith, h, line_length-lf s)

pub line_length-to_end :
    (has_cr : Bool) (s : Bytes)
    → (has_cr || not (holds_cr s)) ≡ true
    → line_length has_cr s ≡ to_end s
line_length-to_end true s h = line_length-cr s
line_length-to_end false s h = line_length-lf s (ground (arith, h))

pub holds_cr-drop : (k : ℕ) (s : Bytes) → holds_cr s ≡ false → holds_cr (drop k s) ≡ false
unfolding holds_cr find_byte
holds_cr-drop zero s h = h
holds_cr-drop (suc k) [] h = h
holds_cr-drop (suc k) (c ∷ s) h = holds_cr-drop k s (ground (arith, h))

pub drop-to_end : (s t : Bytes) (c : ℕ) → drop (to_end s) s ≡ c ∷ t → is_end c ≡ true
unfolding to_end
drop-to_end [] t c h = cc
drop-to_end (d ∷ s) t c h = ground (arith, h, drop-to_end s t c)

pub plain_byte :
    (c : ℕ) (s line : Bytes) (so_far : Option Bytes)
    → is_end c ≡ false
    → reads (record { line = line; pair = false; so_far = so_far }) (c ∷ s)
      ≡ reads (record { line = line ++ c ∷ []; pair = false; so_far = so_far }) s
unfolding reads
plain_byte c s line so_far h = ground (arith, h)

-- The bytes before the end of a line join the line.
pub reads-plain :
    (s line : Bytes) (so_far : Option Bytes)
    → reads (record { line = line; pair = false; so_far = so_far }) s
      ≡ reads
          (record { line = line ++ take (to_end s) s; pair = false; so_far = so_far })
          (drop (to_end s) s)
unfolding to_end
reads-plain [] line so_far =
    ap (λ l. reads (record { line = l; pair = false; so_far = so_far }) []) (sym (append-nil line))
reads-plain (c ∷ s) line so_far = elim (Bool-cases (is_end c)) [
  | inl e ↦ rw (e, append-nil) refl
  | inr e ↦
      let ih = reads-plain s (line ++ c ∷ []) so_far in
      let join = append_assoc line (c ∷ []) (take (to_end s) s) in
      let after = λ (l : Bytes).
        reads (record { line = l; pair = false; so_far = so_far }) (drop (to_end s) s) in
      rw e (plain_byte c s line so_far e ∙ ih ∙ ap after join)
]

-- A line's end, and the events behind it.
unfoldable pub end_then : Ended → Bytes → Reading
end_then (passed u) s = reads u s
end_then (dispatched d u) s = onto d (reads u s)
end_then over s = ([], none)

pub reads-end :
    (c : ℕ) (s line : Bytes) (so_far : Option Bytes)
    → is_end c ≡ true
    → reads (record { line = line; pair = false; so_far = so_far }) (c ∷ s)
      ≡ end_then (line_end line (c == cr) so_far) s
unfolding reads end_then
reads-end c s line so_far h = ground (arith, h)

-- A line feed behind a carriage return is read with it.
pub reads-pair :
    (s : Bytes) (line : Bytes) (so_far : Option Bytes)
    → reads (record { line = line; pair = true; so_far = so_far }) (lf ∷ s)
      ≡ reads (record { line = line; pair = false; so_far = so_far }) s
unfolding reads
reads-pair s line so_far = refl

pub reads-no_pair :
    (pair : Bool) (c : ℕ) (s : Bytes) (line : Bytes) (so_far : Option Bytes)
    → (pair && c == lf) ≡ false
    → reads (record { line = line; pair = pair; so_far = so_far }) (c ∷ s)
      ≡ reads (record { line = line; pair = false; so_far = so_far }) (c ∷ s)
unfolding reads
reads-no_pair pair c s line so_far h = ground (arith, h)
