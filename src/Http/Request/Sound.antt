-- ===== src/Http/Request/Sound.antt =====
-- What a request that `parse_request` frames looks like.
use llmbridge.Base.{
  ℕ, suc, ◌+◌, ◌≤◌, ◌≡◌, ◌≢◌, refl, sym, ap, subst, ◌∙◌, Bool, true, List, [], ◌∷◌, some,
  Option-cases, Bool-cases, inl, inr, ltb, ==_iff, length, take, drop, arith,
}
use llmbridge.Base.Bytes.{Bytes, codes, find, no_crlf}
use llmbridge.Http.Text.{parse_strict_length}
use llmbridge.Http.Fields.{Field, classify}
use llmbridge.Http.Lines.{HeaderLine, line_ok, header_line, visit}
use llmbridge.Http.Lines.Split.{join, AreLines, visit_lines, walk_headers-AreLines}
use llmbridge.Http.Request.{
  complete, Message, RequestWalk, max_header_len, max_body_len, on_length, on_field,
  on_request_line, close_request, parse_request,
}
use llmbridge.Http.Request.Stable.{walked, walked-header_len, begin}

-- A header line that fits a message with `n` bytes of body: a name and a colon, no
-- Transfer-Encoding, and a Content-Length that says `n`.
pub record Agrees (n : ℕ) (line : Bytes) : Type 0 where
  pub colon : ℕ
  pub well_formed : line_ok line ≡ some colon
  pub no_transfer_encoding : classify (take colon line) ≢ Field.transfer_encoding
  pub length_says :
      classify (take colon line) ≡ Field.content_length
      → parse_strict_length (drop (suc colon) line) ≡ some n

abbrev pub AllAgree : ℕ → List Bytes → Type 0
AllAgree n [] = Unit
AllAgree n (l ∷ ls) = Agrees n l × AllAgree n ls

-- The message `out` at the front of `buf`.
pub record IsFramed (buf : Bytes) (out : Message) : Type 0 where
  pub head_end : ℕ
  pub blank_line : find (codes "\r\n\r\n") buf ≡ some head_end
  pub start : Bytes
  pub lines : List Bytes
  pub head_lines : take head_end buf ≡ join start lines
  pub start_plain : no_crlf start ≡ true
  pub lines_plain : AreLines lines
  pub lines_agree : AllAgree out.body_len lines
  pub header_len_eq : out.header_len ≡ head_end + 4
  pub header_fits : out.header_len ≤ max_header_len
  pub body_fits : out.body_len ≤ max_body_len
  pub total_eq : out.total_len ≡ out.header_len + out.body_len
  pub total_fits : out.total_len ≤ length buf

module _ {ℓ} {S : Type ℓ} (also : S → HeaderLine → S × Bool) where
  -- One accepted line.
  record IsStep (f : Field) (w : RequestWalk S) (h : HeaderLine) (w' : RequestWalk S) : Type 0 where
    no_te : f ≢ Field.transfer_encoding
    says :
        f ≡ Field.content_length
        → (parse_strict_length h.value ≡ some w'.out.body_len) × (w'.have_cl ≡ true)
    kept : w.have_cl ≡ true → (w'.out.body_len ≡ w.out.body_len) × (w'.have_cl ≡ true)

  on_field-IsStep :
      (f : Field) (w : RequestWalk S) (h : HeaderLine)
      → (on_field also f w h).1 ≡ true
      → IsStep f w h (on_field also f w h).0
  unfolding on_field on_length
  on_field-IsStep Field.content_length w h e = elim (Option-cases (parse_strict_length h.value)) [
    | inl x ↦ absurd (ground arith)
    | inr (n, x) ↦ ground (arith, ==_iff n w.out.body_len)
  ]
  on_field-IsStep Field.transfer_encoding w h e = cc
  on_field-IsStep _ w h e = ground arith

  -- All lines accepted, from a state `w` to the state `w'`.
  record IsWalk (w : RequestWalk S) (ls : List Bytes) (w' : RequestWalk S) : Type 0 where
    agree : AllAgree w'.out.body_len ls
    kept : w.have_cl ≡ true → w'.out.body_len ≡ w.out.body_len

  IsWalk-cons :
      {w w' w'' : RequestWalk S} (at colon : ℕ) (l : Bytes) (ls : List Bytes)
      → line_ok l ≡ some colon
      → IsStep (classify (take colon l)) w (header_line at l colon) w'
      → IsWalk w' ls w''
      → IsWalk w (l ∷ ls) w''
  IsWalk-cons at colon l ls e st v = record {
    agree = (
      record {
        colon = colon;
        well_formed = e;
        no_transfer_encoding = st.no_te;
        length_says = λ f. (st.says f).0 ∙ ap some (sym (v.kept (st.says f).1));
      },
      v.agree,
    );
    kept = λ h. v.kept (st.kept h).1 ∙ (st.kept h).0;
  }

  visit_lines-IsWalk :
      (ls : List Bytes) (at : ℕ) (w : RequestWalk S)
      → (visit_lines (on_request_line also) w at ls).1 ≡ true
      → IsWalk w ls (visit_lines (on_request_line also) w at ls).0
  unfolding visit_lines visit on_request_line
  visit_lines-IsWalk [] at w e = record { agree = tt; kept = λ h. refl }
  visit_lines-IsWalk (l ∷ ls) at w e = elim (Option-cases (line_ok l)) [
    | inl x ↦ absurd (ground arith)
    | inr (colon, x) ↦
        let h = header_line at l colon in
        let r = on_request_line also w h in
        elim (Bool-cases r.1) [
          | inr stop ↦ absurd (ground arith)
          | inl go ↦
              let later = visit_lines-IsWalk ls (at + length l + 2) r.0 (ground arith) in
              rw (x, visit)
                (rw (go, visit)
                  (IsWalk-cons at colon l ls x (on_field-IsStep h.field w h go) later))
        ]
  ]

  close_request-IsComplete :
      (size : ℕ) (w : RequestWalk S × Bool)
      → (close_request also size w).0 ≡ complete
      → (w.1 ≡ true)
        × ((close_request also size w).1.body_len ≡ w.0.out.body_len)
        × ((close_request also size w).1.header_len ≡ w.0.out.header_len)
        × (w.0.out.body_len ≤ max_body_len)
        × ((close_request also size w).1.total_len ≡ w.0.out.header_len + w.0.out.body_len)
        × ((close_request also size w).1.total_len ≤ size)
  unfolding close_request
  close_request-IsComplete size w e =
      (ground arith, ground arith, ground arith, ground arith, ground arith, ground arith)

  walked-AllAgree :
      (s : S) (out : Message) (n : ℕ) (buf l : Bytes) (ls : List Bytes)
      → (walked also s out n buf).1 ≡ true
      → walked also s out n buf
        ≡ visit_lines (on_request_line also) (begin also s out n buf) (length l + 2) ls
      → AllAgree (walked also s out n buf).0.out.body_len ls
  walked-AllAgree s out n buf l ls ok eq =
      let first = begin also s out n buf in
      let v = visit_lines-IsWalk ls (length l + 2) first (sym (ap (λ r. r.1) eq) ∙ ok) in
      subst (λ r. AllAgree r.0.out.body_len ls) (sym eq) v.agree

  -- What `parse_request` calls complete: the head, up to the first blank line and at most 32 KiB, is
  -- a start line and header lines with no CR and no LF inside, which all agree on the length of the
  -- body (each names a field, none is a Transfer-Encoding, each Content-Length says that length),
  -- and a body of at most 16 MiB, whole in the buffer, ends the message.
  pub parse_request-IsFramed :
      (s : S) (out : Message) (buf : Bytes)
      → (parse_request also s out buf).0 ≡ complete
      → IsFramed buf (parse_request also s out buf).1
  unfolding parse_request
  parse_request-IsFramed s out buf e = elim (Option-cases (find (codes "\r\n\r\n") buf)) [
    | inl missing ↦ absurd (ground arith)
    | inr (n, found) ↦ elim (Bool-cases (ltb max_header_len (n + 4))) [
      | inl long ↦ absurd (ground arith)
      | inr short ↦
          let w = walked also s out n buf in
          let (ok, body, header, fits, total, whole) =
            close_request-IsComplete (length buf) w (rw (found, short, parse_request) at e) in
          let (l, ls, joined, plain, are, eq) =
            walk_headers-AreLines (on_request_line also) (begin also s out n buf) (take n buf) ok in
          let len = header ∙ walked-header_len also s out n buf in
          rw (found, parse_request)
            (rw short (record {
              head_end = n;
              blank_line = found;
              start = l;
              lines = ls;
              head_lines = joined;
              start_plain = plain;
              lines_plain = are;
              lines_agree =
                  subst (λ k. AllAgree k ls) (sym body) (walked-AllAgree s out n buf l ls ok eq);
              header_len_eq = len;
              header_fits = ground arith;
              body_fits = omega arith;
              total_eq = omega arith;
              total_fits = whole;
            }))
    ]
  ]
