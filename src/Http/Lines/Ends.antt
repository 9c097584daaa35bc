-- ===== src/Http/Lines/Ends.antt =====
-- What `memchr` and `line_end` find.
use llmbridge.Base.{
  ℕ, zero, suc, ◌-◌, ◌≤◌, ◌<◌, ◌≡◌, refl, ap, sym, ◌∙◌, Bool, true, false, not, ◌&&◌, [], ◌∷◌, ◌++◌,
  append_assoc, none, some, Option-cases, ◌⊎◌, inl, inr, length, get_or, take, drop, take_all,
  drop_all, take-length_append, length-append, ◌==◌, arith,
}
use llmbridge.Base.Bytes.{Bytes, cr, lf, find_byte, no_crlf}
use llmbridge.Http.Lines.{line_end, no_cr}

abbrev pub absent : ℕ → Bytes → Bool
absent b [] = true
absent b (c ∷ s) = not (c == b) && absent b s

pub find_byte-absent : (b : ℕ) (s : Bytes) → absent b s ≡ true → find_byte b s ≡ none
unfolding find_byte
find_byte-absent b [] h = refl
find_byte-absent b (c ∷ s) h = ground (arith, find_byte-absent b s)

pub find_byte-here :
    (b : ℕ) (s t : Bytes) → absent b s ≡ true → find_byte b (s ++ b ∷ t) ≡ some (length s)
unfolding find_byte
find_byte-here b [] t h = ground arith
find_byte-here b (c ∷ s) t h = ground (arith, find_byte-here b s t)

pub absent-find_byte : (b : ℕ) (s : Bytes) → find_byte b s ≡ none → absent b s ≡ true
unfolding find_byte
absent-find_byte b [] h = refl
absent-find_byte b (c ∷ s) h = ground (arith, absent-find_byte b s)

-- What a search that succeeds says of the text.
pub find_byte-splits :
    (b : ℕ) (s : Bytes) (n : ℕ)
    → find_byte b s ≡ some n
    → (absent b (take n s) ≡ true) × (get_or s n 0 ≡ b) × (n < length s)
unfolding find_byte
find_byte-splits b [] n h = absurd (ground arith)
find_byte-splits b (c ∷ s) zero h = ground arith
find_byte-splits b (c ∷ s) (suc n) h =
    let ne : (c == b) ≡ false = ground arith in
    let ih = find_byte-splits b s n (ground arith) in
    (ground (arith, ih.0), ih.1, omega (arith, ih.2))

no_crlf-absent : (s : Bytes) → no_crlf s ≡ true → (absent cr s ≡ true) × (absent lf s ≡ true)
no_crlf-absent [] h = (refl, refl)
no_crlf-absent (c ∷ s) h = ground (arith, no_crlf-absent s)

absent-no_crlf : (s : Bytes) → absent cr s ≡ true → absent lf s ≡ true → no_crlf s ≡ true
absent-no_crlf [] h k = refl
absent-no_crlf (c ∷ s) h k = ground (arith, absent-no_crlf s)

pub line_end-last : (l : Bytes) → no_crlf l ≡ true → line_end l ≡ some (length l)
unfolding line_end
line_end-last l h =
    let (c, f) = no_crlf-absent l h in
    ground
      (arith, find_byte-absent lf l f, take_all (length l) l (omega arith), find_byte-absent cr l c)

get_or-here : (l s : Bytes) (c d : ℕ) → get_or (l ++ c ∷ s) (length l) d ≡ c
get_or-here [] s c d = refl
get_or-here (x ∷ l) s c d = get_or-here l s c d

absent-append : (b : ℕ) (s t : Bytes) → absent b (s ++ t) ≡ (absent b s && absent b t)
absent-append b [] t = refl
absent-append b (c ∷ s) t = ground (arith, absent-append b s t)

pub line_end-crlf : (l s : Bytes) → no_crlf l ≡ true → line_end (l ++ cr ∷ lf ∷ s) ≡ some (length l)
unfolding line_end
line_end-crlf l s h =
    let (c, f) = no_crlf-absent l h in
    let both : absent lf (l ++ cr ∷ []) ≡ true = ground (arith, absent-append lf l (cr ∷ [])) in
    let at : find_byte lf (l ++ cr ∷ lf ∷ s) ≡ some (suc (length l)) =
      rw (append_assoc l (cr ∷ []) (lf ∷ s)) at (find_byte-here lf (l ++ cr ∷ []) s both)
      ∙ ap some (omega (arith, length-append l (cr ∷ []))) in
    let e : suc (length l) - 1 ≡ length l = omega arith in
    rw (line_end, at, e, get_or-here l (lf ∷ s) cr 0)
      (ground (arith, find_byte-absent cr l c, take-length_append l (cr ∷ lf ∷ s)))

drop-get_or : (s : Bytes) (n : ℕ) → n < length s → drop n s ≡ get_or s n 0 ∷ drop (suc n) s
drop-get_or [] n h = absurd (omega arith)
drop-get_or (c ∷ s) zero h = refl
drop-get_or (c ∷ s) (suc n) h = drop-get_or s n (omega arith)

reshape : {s t : Bytes} → s ≡ cr ∷ lf ∷ t → s ≡ cr ∷ lf ∷ drop 2 s
reshape e = e ∙ ap (λ y. cr ∷ lf ∷ y) (sym (ap (drop 2) e))

absent-take-suc :
    (b : ℕ) (s : Bytes) (n : ℕ) → absent b (take (suc n) s) ≡ true → absent b (take n s) ≡ true
absent-take-suc b [] zero h = refl
absent-take-suc b [] (suc n) h = refl
absent-take-suc b (c ∷ s) zero h = refl
absent-take-suc b (c ∷ s) (suc n) h = ground (arith, absent-take-suc b s n)

abbrev pub IsEnd : Bytes → ℕ → Type 0
IsEnd b n =
    (no_crlf (take n b) ≡ true)
    × (n ≤ length b)
    × ((drop n b ≡ []) ⊎ (drop n b ≡ cr ∷ lf ∷ drop 2 (drop n b)))

IsEnd-last : (b : Bytes) (n : ℕ) → find_byte lf b ≡ none → no_cr b (length b) ≡ some n → IsEnd b n
IsEnd-last b n e h =
    let whole : n ≡ length b = ground arith in
    let none_cr : find_byte cr (take n b) ≡ none = ground arith in
    let all : take n b ≡ b = take_all n b (omega arith) in
    (
      absent-no_crlf (take n b) (absent-find_byte cr (take n b) none_cr)
          (rw all (absent-find_byte lf b e)),
      omega arith,
      inl (drop_all n b (omega arith)),
    )

IsEnd-crlf :
    (b : Bytes) (n : ℕ)
    → find_byte lf b ≡ some (suc n)
    → get_or b n 0 ≡ cr
    → find_byte cr (take n b) ≡ none
    → IsEnd b n
IsEnd-crlf b n e g h =
    let (f, at, lt) = find_byte-splits lf b (suc n) e in
    (
      absent-no_crlf (take n b) (absent-find_byte cr (take n b) h) (absent-take-suc lf b n f),
      omega arith,
      inr (
          reshape {t = drop (suc (suc n)) b} (
            drop-get_or b n (omega arith) ∙ rw g (ap (◌∷◌ cr) (drop-get_or b (suc n) lt ∙ rw at)))),
    )

-- A line ends at the end of the text or at a CRLF, and holds no CR and no LF.
pub line_end-IsEnd : (b : Bytes) (n : ℕ) → line_end b ≡ some n → IsEnd b n
unfolding line_end
line_end-IsEnd b n h = elim (Option-cases (find_byte lf b)) [
  | inl e ↦ IsEnd-last b n e (ground arith)
  | inr (m, e) ↦
      let at : m ≡ suc n = ground arith in
      IsEnd-crlf b n (e ∙ ap some at) (ground arith) (ground arith)
]
