-- ===== src/Http/Request/Stable.antt =====
-- `parse_request` is run again as bytes arrive: its verdicts stand, and what it waits for is bounded.
use llmbridge.Base.{
  ℕ, ◌+◌, ◌≤◌, ◌<◌, ◌≡◌, refl, Bool, false, ◌++◌, Option-cases, inl, inr, length, length-append,
  take, take-append, arith,
}
use llmbridge.Base.Bytes.{Bytes, codes, find}
use llmbridge.Base.Search.{find-append, find-grown, find-length}
use llmbridge.Http.Lines.{HeaderLine, walk_headers}
use llmbridge.Http.Lines.Keeps.{walk_headers_keeps}
use llmbridge.Http.Request.{
  need_more, complete, error, Message, RequestWalk, max_header_len, max_body_len, start_line,
  on_request_line, close_request, parse_request,
}

module _ {ℓ} {S : Type ℓ} (also : S → HeaderLine → S × Bool) where
  -- A whole message stays the message when more bytes follow.
  close_request-complete :
      (n k : ℕ) (w : RequestWalk S × Bool)
      → n ≤ k
      → (close_request also n w).0 ≡ complete
      → close_request also k w ≡ close_request also n w
  unfolding close_request
  close_request-complete n k w h e = ground arith

  close_request-error :
      (n k : ℕ) (w : RequestWalk S × Bool)
      → (close_request also n w).0 ≡ error
      → (close_request also k w).0 ≡ error
  unfolding close_request
  close_request-error n k w e = ground arith

  -- The state of the walk when it begins.
  abbrev pub begin : S → Message → ℕ → Bytes → RequestWalk S
  begin s out n buf = record {
    out = start_line out n (take n buf);
    have_cl = false;
    close = false;
    keep = false;
    seen = s;
  }

  abbrev pub walked : S → Message → ℕ → Bytes → RequestWalk S × Bool
  walked s out n buf = walk_headers (on_request_line also) (begin s out n buf) (take n buf)

  -- Once `parse_request` has found a whole request, bytes that arrive behind it change nothing: the
  -- same message, and the same state of `also`.
  pub parse_request-complete :
      (s : S) (out : Message) (buf more : Bytes)
      → (parse_request also s out buf).0 ≡ complete
      → parse_request also s out (buf ++ more) ≡ parse_request also s out buf
  unfolding parse_request
  parse_request-complete s out buf more e = elim (Option-cases (find (codes "\r\n\r\n") buf)) [
    | inl missing ↦ absurd (ground arith)
    | inr (n, found) ↦ ground (
      arith,
      length-append buf more,
      take-append n buf more (omega (arith, find-length (codes "\r\n\r\n") buf n found)),
      find-append (codes "\r\n\r\n") buf more n found,
      close_request-complete (length buf) (length (buf ++ more)) (walked s out n buf),
    )
  ]

  -- Once `parse_request` has refused, more bytes do not mend it.
  pub parse_request-error :
      (s : S) (out : Message) (buf more : Bytes)
      → (parse_request also s out buf).0 ≡ error
      → (parse_request also s out (buf ++ more)).0 ≡ error
  unfolding parse_request
  parse_request-error s out buf more e = elim (Option-cases (find (codes "\r\n\r\n") buf)) [
    | inl missing ↦ elim (Option-cases (find (codes "\r\n\r\n") (buf ++ more))) [
      | inl still ↦ ground (arith, length-append buf more)
      | inr (n, found) ↦ ground (arith, find-grown (codes "\r\n\r\n") buf more n missing found)
    ]
    | inr (n, found) ↦ ground (
      arith,
      take-append n buf more (omega (arith, find-length (codes "\r\n\r\n") buf n found)),
      find-append (codes "\r\n\r\n") buf more n found,
      close_request-error (length buf) (length (buf ++ more)) (walked s out n buf),
    )
  ]

  -- The walk leaves the header's length alone.
  on_request_line-header_len :
      (k : ℕ) (w : RequestWalk S) (h : HeaderLine)
      → w.out.header_len ≡ k
      → (on_request_line also w h).0.out.header_len ≡ k
  unfolding on_request_line
  on_request_line-header_len k w h e = ground arith

  pub walked-header_len :
      (s : S) (out : Message) (n : ℕ) (buf : Bytes) → (walked s out n buf).0.out.header_len ≡ n + 4
  unfolding start_line
  walked-header_len s out n buf =
      walk_headers_keeps (on_request_line also) (λ w. w.out.header_len ≡ n + 4)
        (on_request_line-header_len (n + 4)) (begin s out n buf) (take n buf) refl

  -- `parse_request` asks for more bytes only while it holds less than a head of 32 KiB and a body
  -- of 16 MiB: whatever a client sends, it is refused or framed by then.
  pub parse_request-need_more :
      (s : S) (out : Message) (buf : Bytes)
      → (parse_request also s out buf).0 ≡ need_more
      → length buf < max_header_len + max_body_len
  parse_request-need_more s out buf e = elim (Option-cases (find (codes "\r\n\r\n") buf)) [
    | inl missing ↦ unfold parse_request in ground arith
    | inr (n, found) ↦ unfold parse_request in ground (arith, walked-header_len s out n buf)
  ]
