-- ===== src/Http/Lines/Keeps.antt =====
-- Invariants of `walk_headers`: what every call of `on_line` keeps, the walk keeps.
use llmbridge.Base.{
  ℕ, zero, suc, ◌+◌, Bool, [], ◌∷◌, Option-cases, Bool-cases, inl, inr, length, take, drop,
}
use llmbridge.Base.Bytes.{Bytes}
use llmbridge.Http.Lines.{
  HeaderLine, line_end, line_ok, header_line, visit, walk_loop, walk_headers,
}

module _ {ℓ κ} {S : Type ℓ} (on_line : S → HeaderLine → S × Bool) (P : S → Type κ)
    (keep : (s : S) (h : HeaderLine) → P s → P (on_line s h).0) where
  visit_keeps :
      (s : S) (at : ℕ) (l : Bytes) (rest : S → S × Bool)
      → P s
      → ((s' : S) → P s' → P (rest s').0)
      → P (visit on_line s at l rest).0
  visit_keeps s at l rest p k = elim (Option-cases (line_ok l)) [
    | inl e ↦ unfold visit in rw (e, visit) p
    | inr (colon, e) ↦
        let h = header_line at l colon in
        elim (Bool-cases (on_line s h).1) [
          | inl go ↦ unfold visit in rw (e, visit) (rw go (k (on_line s h).0 (keep s h p)))
          | inr stop ↦ unfold visit in rw (e, visit) (rw stop (keep s h p))
        ]
  ]

  walk_loop_keeps :
      (fuel at : ℕ) (s : S) (eol : Bytes) → P s → P (walk_loop on_line fuel s at eol).0
  unfolding walk_loop
  walk_loop_keeps zero at s eol p = p
  walk_loop_keeps (suc fuel) at s [] p = p
  walk_loop_keeps (suc fuel) at s (c ∷ d) p =
      let start = drop 2 (c ∷ d) in
      elim (Option-cases (line_end start)) [
        | inl e ↦ rw (e, walk_loop) p
        | inr (len, e) ↦
            rw (e, walk_loop)
              (visit_keeps s (at + 2) (take len start)
                (λ s'. walk_loop on_line fuel s' (at + 2 + len) (drop len start)) p
                (λ s'. walk_loop_keeps fuel (at + 2 + len) s' (drop len start)))
      ]

  pub walk_headers_keeps : (s : S) (head : Bytes) → P s → P (walk_headers on_line s head).0
  walk_headers_keeps s head p = elim (Option-cases (line_end head)) [
    | inl e ↦ unfold walk_headers in rw (e, walk_headers) p
    | inr (len, e) ↦
        unfold walk_headers in
        rw (e, walk_headers) (walk_loop_keeps (suc (length head)) len s (drop len head) p)
  ]
