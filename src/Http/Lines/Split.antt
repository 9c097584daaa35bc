-- ===== src/Http/Lines/Split.antt =====
-- `walk_headers` reads a head exactly as the lines that CRLF separates.
use llmbridge.Base.{
  ℕ, zero, suc, ◌+◌, ◌<◌, ◌≡◌, refl, fun_ext, ap, sym, ◌∙◌, Bool, true, List, [], ◌∷◌, ◌++◌, some,
  Option-cases, Bool-cases, ◌⊎◌, inl, inr, length, take, drop, length-append, take-length_append,
  drop-length_append, take-append-drop, append-nil, arith,
}
use llmbridge.Base.Bytes.{Bytes, cr, lf, no_crlf}
use llmbridge.Http.Lines.{
  HeaderLine, line_end, line_ok, header_line, visit, walk_loop, walk_headers,
}
use llmbridge.Http.Lines.Ends.{line_end-last, line_end-crlf, line_end-IsEnd}

-- Lines with CRLF between them: the start line, then the others.
abbrev pub join : Bytes → List Bytes → Bytes
join l [] = l
join l (m ∷ ms) = l ++ cr ∷ lf ∷ join m ms

abbrev pub AreLines : List Bytes → Type 0
AreLines [] = Unit
AreLines (l ∷ ls) = (no_crlf l ≡ true) × AreLines ls

module _ {ℓ} {S : Type ℓ} (on_line : S → HeaderLine → S × Bool) where
  -- `on_line` at each line in turn, until one is malformed or refused.
  unfoldable pub visit_lines : S → ℕ → List Bytes → S × Bool
  visit_lines s at [] = (s, true)
  visit_lines s at (l ∷ ls) = visit on_line s at l (λ s'. visit_lines s' (at + length l + 2) ls)

  line_end-join :
      (l : Bytes) (ls : List Bytes) → no_crlf l ≡ true → line_end (join l ls) ≡ some (length l)
  line_end-join l [] h = line_end-last l h
  line_end-join l (m ∷ ms) h = line_end-crlf l (join m ms) h

  -- What stands behind the first line.
  abbrev tail : List Bytes → Bytes
  tail [] = []
  tail (l ∷ ls) = cr ∷ lf ∷ join l ls

  join-tail : (l : Bytes) (ls : List Bytes) → join l ls ≡ l ++ tail ls
  join-tail l [] = sym (append-nil l)
  join-tail l (m ∷ ms) = refl

  walk_loop-tail :
      (ls : List Bytes) (fuel at : ℕ) (s : S)
      → length (tail ls) < fuel
      → AreLines ls
      → walk_loop on_line fuel s at (tail ls) ≡ visit_lines s (at + 2) ls
  unfolding walk_loop visit_lines
  walk_loop-tail [] zero at s h a = absurd (omega arith)
  walk_loop-tail [] (suc fuel) at s h a = refl
  walk_loop-tail (l ∷ ls) zero at s h a = absurd (omega arith)
  walk_loop-tail (l ∷ ls) (suc fuel) at s h a =
      let shorter : length (join l ls) ≡ length l + length (tail ls) =
        ap length (join-tail l ls) ∙ length-append l (tail ls) in
      rw (line_end-join l ls a.0, walk_loop)
        (rw (join-tail l ls, take-length_append l (tail ls), drop-length_append l (tail ls))
          (ap (visit on_line s (at + 2) l) (
            fun_ext
              λ s'. walk_loop-tail ls fuel (at + 2 + length l) s' (omega (arith, shorter)) a.1)))

  -- A head of lines with no CR and no LF is read as those lines.
  pub walk_headers-join :
      (s : S) (l : Bytes) (ls : List Bytes)
      → no_crlf l ≡ true
      → AreLines ls
      → walk_headers on_line s (join l ls) ≡ visit_lines s (length l + 2) ls
  unfolding walk_headers
  walk_headers-join s l ls h a =
      rw (line_end-join l ls h, walk_headers)
        (rw (join-tail l ls, drop-length_append l (tail ls))
          (walk_loop-tail ls (suc (length (l ++ tail ls))) (length l) s
            (omega (arith, length-append l (tail ls))) a))

  visit-true :
      (s : S) (at : ℕ) (l : Bytes) (rest : S → S × Bool)
      → (visit on_line s at l rest).1 ≡ true
      → (s' : S) × ((rest s').1 ≡ true)
  unfolding visit
  visit-true s at l rest h = elim (Option-cases (line_ok l)) [
    | inl e ↦ absurd (ground arith)
    | inr (colon, e) ↦
        let (s', go) = on_line s (header_line at l colon) in
        elim (Bool-cases go) [ inl g ↦ (s', ground arith) | inr g ↦ absurd (ground arith) ]
  ]

  starts : {c : ℕ} {d t : Bytes} → ((c ∷ d ≡ []) ⊎ (c ∷ d ≡ cr ∷ lf ∷ t)) → c ∷ d ≡ cr ∷ lf ∷ t
  starts (inl e) = cc
  starts (inr e) = e

  abbrev IsTail : Bytes → Type 0
  IsTail eol = (ls : List Bytes) × AreLines ls × (eol ≡ tail ls)

  walk_loop-IsTail :
      (fuel at : ℕ) (s : S) (eol : Bytes)
      → ((eol ≡ []) ⊎ (eol ≡ cr ∷ lf ∷ drop 2 eol))
      → (walk_loop on_line fuel s at eol).1 ≡ true
      → IsTail eol
  unfolding walk_loop
  walk_loop-IsTail zero at s eol e h = cc
  walk_loop-IsTail (suc fuel) at s [] e h = ([], tt, refl)
  walk_loop-IsTail (suc fuel) at s (c ∷ d) e h =
      let start = drop 2 (c ∷ d) in
      elim (Option-cases (line_end start)) [
        | inl none_end ↦ absurd (ground arith)
        | inr (len, found) ↦
            let (plain, fits, end) = line_end-IsEnd start len found in
            let (s', h') =
              visit-true s (at + 2) (take len start)
                (λ s'. walk_loop on_line fuel s' (at + 2 + len) (drop len start))
                (rw (found, walk_loop) at h) in
            let (ls, are, eq) = walk_loop-IsTail fuel (at + 2 + len) s' (drop len start) end h' in
            (
              take len start ∷ ls,
              (plain, are),
              starts e
                  ∙ ap (λ x. cr ∷ lf ∷ x)
                      (sym (take-append-drop len start)
                        ∙ ap (λ x. take len start ++ x) eq
                        ∙ sym (join-tail (take len start) ls)),
            )
      ]

  -- A head that is read to its end is lines with no CR and no LF, separated by CRLF.
  pub walk_headers-AreLines :
      (s : S) (head : Bytes)
      → (walk_headers on_line s head).1 ≡ true
      → (l : Bytes) × (ls : List Bytes) × (head ≡ join l ls)
        × (no_crlf l ≡ true)
        × AreLines ls
        × (walk_headers on_line s head ≡ visit_lines s (length l + 2) ls)
  walk_headers-AreLines s head h = elim (Option-cases (line_end head)) [
    | inl none_end ↦ absurd (unfold walk_headers in ground arith)
    | inr (len, found) ↦
        let (plain, fits, end) = line_end-IsEnd head len found in
        let (ls, are, eq) =
          walk_loop-IsTail (suc (length head)) len s (drop len head) end
            (unfold walk_headers in rw (found, walk_headers) at h) in
        let l = take len head in
        let joined : head ≡ join l ls =
          sym (take-append-drop len head) ∙ ap (λ x. l ++ x) eq ∙ sym (join-tail l ls) in
        (
          l,
          ls,
          joined,
          plain,
          are,
          ap (walk_headers on_line s) joined ∙ walk_headers-join s l ls plain are,
        )
  ]
