-- ===== src/Provider/Sse/Translate/Writes.antt =====
-- What the writers of the translator append.
use llmbridge.Base.{
  ℕ, ◌+◌, ◌≡◌, refl, ap, sym, ◌∙◌, Bool, true, false, [], ◌∷◌, ◌++◌, append_assoc, append-nil,
  Option, none, some, ltb, leb, ◌/◌, ◌%◌, Bool-cases, inl, inr,
}
use llmbridge.Base.Bytes.{Bytes, codes, is_empty}
use llmbridge.Http.Write.{append_decimal}
use llmbridge.Provider.Json.Escape.{hex_char}
use llmbridge.Provider.Openai.{
  Usage, stated, chunk, append_sanitized, sanitize_loop, envelope, choice, end_choice, close,
  close_cached, close_reasoning,
}
use llmbridge.Provider.Sse.Translate.Grammar.{
  chunk_of, usage_chunk_of, content_delta, tool_delta, arguments_delta,
}

sanitize_loop-out : (out run s : Bytes) → sanitize_loop out run s ≡ out ++ sanitize_loop [] run s
unfolding sanitize_loop
sanitize_loop-out out run [] = refl
sanitize_loop-out out run (c ∷ s) =
    let clean = sanitize_loop-out out (run ++ c ∷ []) s in
    let n = hex_char (c / 16 % 16) ∷ hex_char (c % 16) ∷ [] in
    let a = sanitize_loop-out (((out ++ run) ++ codes "\\u00") ++ n) [] s in
    let b = sanitize_loop-out ((run ++ codes "\\u00") ++ n) [] s in
    let regroup : (((out ++ run) ++ codes "\\u00") ++ n) ++ sanitize_loop [] [] s
        ≡ out ++ (((run ++ codes "\\u00") ++ n) ++ sanitize_loop [] [] s) =
      simp append_assoc in
    elim (Bool-cases (leb 0x20 c)) [
      | inl e ↦ rw e clean
      | inr e ↦ rw e (a ∙ regroup ∙ ap (λ k. out ++ k) (sym b))
    ]

-- A chunk without a finish reason, and one with.
pub null_chunk :
    (w : Bool) (out id stamp model delta : Bytes)
    → close
          (end_choice
            (choice (envelope (out ++ codes "data: ") chunk id stamp model) chunk ++ delta)
            [])
          none
          w
          none
        ++ codes "\n\n"
      ≡ out ++ chunk_of w id stamp model delta none
unfolding chunk_of envelope choice end_choice close is_empty
null_chunk true out id stamp model delta = simp append_assoc
null_chunk false out id stamp model delta = simp append_assoc

pub named_chunk :
    (w : Bool) (out id stamp model delta reason : Bytes)
    → is_empty reason ≡ false
    → close
          (end_choice
            (choice (envelope (out ++ codes "data: ") chunk id stamp model) chunk ++ delta)
            reason)
          none
          w
          none
        ++ codes "\n\n"
      ≡ out ++ chunk_of w id stamp model delta (some reason)
unfolding chunk_of envelope choice end_choice close
named_chunk true out id stamp model delta reason h = rw h (simp append_assoc)
named_chunk false out id stamp model delta reason h = rw h (simp append_assoc)

pub sanitized-out : (out raw : Bytes) → append_sanitized out raw ≡ out ++ append_sanitized [] raw
unfolding append_sanitized
sanitized-out out raw = sanitize_loop-out out [] raw

close_cached-out : (out : Bytes) (n : Option ℕ) → close_cached out n ≡ out ++ close_cached [] n
unfolding close_cached append_decimal
close_cached-out out n = elim (Bool-cases (ltb 0 (stated n))) [
  | inl e ↦ rw e (simp append_assoc)
  | inr e ↦ rw e (sym (append-nil out))
]

close_reasoning-out :
    (out : Bytes) (n : Option ℕ) → close_reasoning out n ≡ out ++ close_reasoning [] n
unfolding close_reasoning append_decimal
close_reasoning-out out none = sym (append-nil out)
close_reasoning-out out (some n) = simp append_assoc

totals : Bytes → Usage → Bytes
totals out u =
    append_decimal
      (append_decimal
          (append_decimal ((out ++ codes "]") ++ codes ",\"usage\":{\"prompt_tokens\":")
              (stated u.in_tokens)
            ++ codes ",\"completion_tokens\":")
          (stated u.out)
        ++ codes ",\"total_tokens\":")
      (stated u.in_tokens + stated u.out)

totals-out : (out : Bytes) (u : Usage) → totals out u ≡ out ++ totals [] u
unfolding totals append_decimal
totals-out out u = simp append_assoc

close-parts :
    (out : Bytes) (u : Usage)
    → close out (some u) false none
      ≡ ((totals out u ++ close_cached [] u.cached) ++ close_reasoning [] u.reasoning) ++ codes "}}"
unfolding close totals
close-parts out u =
    let a = close_cached-out (totals out u) u.cached in
    ap (λ k. k ++ codes "}}")
      (close_reasoning-out (close_cached (totals out u) u.cached) u.reasoning
        ∙ ap (λ k. k ++ close_reasoning [] u.reasoning) a)

close-out :
    (out : Bytes) (u : Usage) → close out (some u) false none ≡ out ++ close [] (some u) false none
close-out out u =
    let parts = λ (k : Bytes).
      ((k ++ close_cached [] u.cached) ++ close_reasoning [] u.reasoning) ++ codes "}}" in
    let regroup : parts (out ++ totals [] u) ≡ out ++ parts (totals [] u) = simp append_assoc in
    close-parts out u
    ∙ ap parts (totals-out out u)
    ∙ regroup
    ∙ ap (λ k. out ++ k) (sym (close-parts [] u))

pub usage_body :
    (out id stamp model : Bytes) (u : Usage)
    → close (envelope (out ++ codes "data: ") chunk id stamp model) (some u) false none
        ++ codes "\n\n"
      ≡ out ++ usage_chunk_of id stamp model u
unfolding usage_chunk_of envelope
usage_body out id stamp model u =
    let before = envelope (out ++ codes "data: ") chunk id stamp model in
    ap (λ k. k ++ codes "\n\n") (close-out before u) ∙ simp append_assoc

pub tool_body :
    (h : Bytes) (ord : ℕ) (id name : Bytes)
    → append_sanitized
          (append_sanitized
              (append_decimal (h ++ codes "\"tool_calls\":[{\"index\":") ord ++ codes ",\"id\":\"")
              id
            ++ codes "\",\"type\":\"function\",\"function\":{\"name\":\"")
          name
        ++ codes "\",\"arguments\":\"\"}}]"
      ≡ h ++ tool_delta ord id name
unfolding tool_delta append_decimal
tool_body h ord id name =
    let numbered =
      append_decimal (h ++ codes "\"tool_calls\":[{\"index\":") ord ++ codes ",\"id\":\"" in
    let named =
      append_sanitized numbered id ++ codes "\",\"type\":\"function\",\"function\":{\"name\":\"" in
    let behind = λ (k : Bytes).
      (k ++ codes "\",\"type\":\"function\",\"function\":{\"name\":\"")
      ++ append_sanitized [] name
      ++ codes "\",\"arguments\":\"\"}}]" in
    ap (λ k. k ++ codes "\",\"arguments\":\"\"}}]") (sanitized-out named name)
    ∙ ap behind (sanitized-out numbered id)
    ∙ simp append_assoc

pub arguments_body :
    (h : Bytes) (ord : ℕ) (frag : Bytes)
    → append_sanitized
          (append_decimal (h ++ codes "\"tool_calls\":[{\"index\":") ord
            ++ codes ",\"function\":{\"arguments\":\"")
          frag
        ++ codes "\"}}]"
      ≡ h ++ arguments_delta ord frag
unfolding arguments_delta append_decimal
arguments_body h ord frag =
    let numbered =
      append_decimal (h ++ codes "\"tool_calls\":[{\"index\":") ord
      ++ codes ",\"function\":{\"arguments\":\"" in
    ap (λ k. k ++ codes "\"}}]") (sanitized-out numbered frag) ∙ simp append_assoc

pub content_body :
    (h text : Bytes)
    → append_sanitized (h ++ codes "\"content\":\"") text ++ codes "\"" ≡ h ++ content_delta text
unfolding content_delta
content_body h text =
    ap (λ k. k ++ codes "\"") (sanitized-out (h ++ codes "\"content\":\"") text) ∙ simp append_assoc
