-- ===== src/Provider/Sse/Translate/Chunks.antt =====
-- The handlers that write text and tool calls.
use llmbridge.Base.{
  ℕ, zero, suc, ◌+◌, ◌≤◌, ◌<◌, ◌≡◌, refl, ap, subst, sym, ◌∙◌, Bool, true, false, not, ◌||◌, List,
  [], ◌∷◌, Option, none, some, leb, if◌then◌else◌, get_or, Bool-cases, inl, inr, ◌⊎◌, arith,
}
use llmbridge.Base.Bytes.{Bytes, codes, is_empty}
use llmbridge.Provider.Json.Tokens.{Value}
use llmbridge.Provider.Json.Lookup.{find, str_or}
use llmbridge.Provider.Sse.Translate.{
  Writing, max_blocks, emit_head, emit_tail, write, write_sanitized, set_ord, tool_ordinal_for,
  emit_tool_open, emit_tool_args, parse_block_index,
}
use llmbridge.Provider.Sse.Translate.Dispatch.{
  give_role, on_text, on_arguments, on_content_delta, open_tool, on_block_start, is_type,
}
use llmbridge.Provider.Sse.Translate.Grammar.{
  content_delta, tool_delta, arguments_delta, IsStream, content, tool, arguments, role-IsStream,
}
use llmbridge.Provider.Sse.Translate.Writes.{content_body, tool_body, arguments_body}
use llmbridge.Provider.Sse.Translate.Live.{IsLive, give_role-IsLive, emit_null-IsLive, aside}

-- The stream is open.
abbrev pub IsOpen : Writing → Type 0
IsOpen w = (n : ℕ) × IsLive n n w.0 w.1

given_to :
    {w : Bool} {stamp : Bytes} {r : Bool} {n : ℕ} {f : Bool} {b : Bytes}
    → r ≡ true
    → IsStream w stamp r n f false b
    → IsStream w stamp true n f false b
given_to {w} {stamp} {r} {n} {f} {b} e s = subst (λ k. IsStream w stamp k n f false b) e s

given_back :
    {w : Bool} {stamp : Bytes} {r : Bool} {n : ℕ} {f : Bool} {b : Bytes}
    → r ≡ true
    → IsStream w stamp true n f false b
    → IsStream w stamp r n f false b
given_back {w} {stamp} {r} {n} {f} {b} e s = subst (λ k. IsStream w stamp k n f false b) (sym e) s

started-IsLive :
    (n m : ℕ) (w : Writing)
    → IsLive n m w.0 w.1
    → IsLive n m (record (w.0) { content_started = true }) w.1
started-IsLive n m (t, out) l = aside t.frames t.failed t.tool_open t.id t.model true t.usage l

-- A test picks one of two writings.
pub picked-IsOpen :
    (b : Bool) (v w : Writing) → IsOpen v → (b ≡ false → IsOpen w) → IsOpen (if b then v else w)
picked-IsOpen true v w i j = i
picked-IsOpen false v w i j = j refl

on_text-IsOpen : (now : ℕ) (d : Value) (w : Writing) → IsOpen w → IsOpen (on_text now d w)
unfolding on_text
on_text-IsOpen now d (t, out) (n, l) =
    let (live, given) = give_role-IsLive now n n t out l in
    let w = give_role now (t, out) in
    let text = str_or (codes "text") [] d in
    let h = emit_head now w in
    let same : emit_tail none (write (content_delta text) h)
        ≡ emit_tail none
            (write (codes "\"") (write_sanitized text (write (codes "\"content\":\"") h))) =
      ap (λ k. emit_tail none (h.0, k)) (sym (content_body h.1 text)) in
    let takes =
      λ (stamp : Bytes) (filled : is_empty stamp ≡ false)
          (s : IsStream w.0.include_usage stamp w.0.role_emitted n w.0.finish_emitted false w.1).
        given_back given (content w.0.id w.0.model text filled (given_to given s)) in
    let a = emit_null-IsLive now n n n (content_delta text) w.0 w.1 live takes in
    let b = subst (λ (x : Writing). IsLive n n x.0 x.1) same a in
    (
      n,
      started-IsLive n n
          (emit_tail none
            (write (codes "\"") (write_sanitized text (write (codes "\"content\":\"") h))))
          b,
    )

emit_tool_open-IsLive :
    (now n m : ℕ) (id name : Bytes) (w : Writing)
    → IsLive n m w.0 w.1
    → w.0.role_emitted ≡ true
    → IsLive (suc n) m (emit_tool_open now n id name w).0 (emit_tool_open now n id name w).1
unfolding emit_tool_open
emit_tool_open-IsLive now n m id name (t, out) l r =
    let h = emit_head now (t, out) in
    let same = ap (λ k. emit_tail none (h.0, k)) (sym (tool_body h.1 n id name)) in
    let a =
      emit_null-IsLive now n (suc n) m (tool_delta n id name) t out l
        (λ stamp filled s. given_back r (tool t.id t.model id name filled (given_to r s))) in
    subst (λ (x : Writing). IsLive (suc n) m x.0 x.1) same a

arguments-IsOpen :
    (now n ord : ℕ) (frag : Bytes) (w : Writing)
    → IsLive n n w.0 w.1
    → ord < n
    → IsOpen (emit_tool_args now ord frag w)
unfolding emit_tool_args
arguments-IsOpen now n ord frag (t, out) l h =
    let e = emit_head now (t, out) in
    let same = ap (λ k. emit_tail none (e.0, k)) (sym (arguments_body e.1 ord frag)) in
    let r = role-IsStream t.include_usage t.created l.stream (omega (arith, h)) in
    let a =
      emit_null-IsLive now n n n (arguments_delta ord frag) t out l (λ stamp filled s.
        given_back r (arguments t.id t.model ord frag filled h (given_to r s))) in
    let b = subst (λ (x : Writing). IsLive n n x.0 x.1) same a in
    picked-IsOpen (is_empty frag) (t, out) _ (n, l) (λ c. (n, b))

some_inj : {a b : ℕ} → some a ≡ some b → b ≡ a
some_inj e = cc e

get_or-set_ord :
    (i ord : ℕ) (xs : List (Option ℕ)) (j o : ℕ)
    → get_or (set_ord i ord xs) j none ≡ some o
    → (get_or xs j none ≡ some o) ⊎ (o ≡ ord)
unfolding set_ord
get_or-set_ord zero ord [] zero o h = inr (some_inj h)
get_or-set_ord zero ord [] (suc j) o h = inl h
get_or-set_ord zero ord (x ∷ xs) zero o h = inr (some_inj h)
get_or-set_ord zero ord (x ∷ xs) (suc j) o h = inl h
get_or-set_ord (suc i) ord [] zero o h = inl h
get_or-set_ord (suc i) ord [] (suc j) o h = get_or-set_ord i ord [] j o h
get_or-set_ord (suc i) ord (x ∷ xs) zero o h = inl h
get_or-set_ord (suc i) ord (x ∷ xs) (suc j) o h = get_or-set_ord i ord xs j o h

on_arguments-IsOpen :
    (now : ℕ) (v d : Value) (w : Writing) → IsOpen w → IsOpen (on_arguments now v d w)
unfolding on_arguments tool_ordinal_for
on_arguments-IsOpen now v d (t, out) (n, l) =
    go (tool_ordinal_for (parse_block_index v) t) (below (parse_block_index v))
  where
    below : (i : Option ℕ) (o : ℕ) → tool_ordinal_for i t ≡ some o → o < n
    below none o e = cc e
    below (some i) o e =
        let at = λ (b : Bool). if b then none else get_or t.block_tool_ord i none in
        elim (Bool-cases (leb max_blocks i)) [
          | inl c ↦ let far = sym (ap at c) ∙ e in cc far
          | inr c ↦ l.ords i o (sym (ap at c) ∙ e)
        ]

    go :
        (k : Option ℕ)
        → ((o : ℕ) → k ≡ some o → o < n)
        → IsOpen (elim k as (λ x. Writing) [
          | none ↦ (t, out)
          | some ord ↦ emit_tool_args now ord (str_or (codes "partial_json") [] d) (t, out)
        ])
    go none h = (n, l)
    go (some ord) h =
        arguments-IsOpen now n ord (str_or (codes "partial_json") [] d) (t, out) l (h ord refl)

pub on_content_delta-IsOpen :
    (now : ℕ) (v : Value) (w : Writing) → IsOpen w → IsOpen (on_content_delta now v w)
unfolding on_content_delta
on_content_delta-IsOpen now v w i = go (find (codes "delta") v)
  where
    go :
        (k : Option Value)
        → IsOpen (elim k as (λ x. Writing) [
          | none ↦ w
          | some d ↦
              if is_type (codes "input_json_delta") d
              then on_arguments now v d w
              else if is_type (codes "text_delta") d
              then on_text now d w
              else w
        ])
    go none = i
    go (some d) =
        picked-IsOpen (is_type (codes "input_json_delta") d) _ _ (on_arguments-IsOpen now v d w i)
          (λ c.
            picked-IsOpen (is_type (codes "text_delta") d) _ _ (on_text-IsOpen now d w i) (λ b. i))

open_tool-IsOpen :
    (now i : ℕ) (b : Value) (w : Writing)
    → IsOpen w
    → leb max_blocks w.0.next_tool_ord ≡ false
    → IsOpen (open_tool now i b w)
unfolding open_tool
open_tool-IsOpen now i b (t, out) (n, l) h =
    let ord = t.next_tool_ord in
    let counted = subst (λ k. IsLive k k t out) (sym l.next) l in
    let u = record t {
      next_tool_ord = ord + 1;
      block_tool_ord = set_ord i ord t.block_tool_ord;
      tool_open = true;
    } in
    let below : suc ord ≤ max_blocks = ground (arith, h) in
    let live : IsLive ord (suc ord) u out = record {
      stream = counted.stream;
      next = omega arith;
      ords = λ j o x. elim (get_or-set_ord i ord t.block_tool_ord j o x) [
        | inl y ↦ let less = counted.ords j o y in omega (arith, less)
        | inr y ↦ omega (arith, y)
      ];
      few = below;
      reason = l.reason;
      unfinished = l.unfinished;
      uncounted = l.uncounted;
    } in
    let (given, r) = give_role-IsLive now ord (suc ord) u out live in
    let a =
      emit_tool_open-IsLive now ord (suc ord) (str_or (codes "id") [] b)
        (str_or (codes "name") [] b) (give_role now (u, out)) given r in
    (
      suc ord,
      started-IsLive (suc ord) (suc ord)
          (emit_tool_open now ord (str_or (codes "id") [] b) (str_or (codes "name") [] b)
            (give_role now (u, out)))
          a,
    )

last_false : (a b c : Bool) → (a || b || c) ≡ false → c ≡ false
last_false a b c e = ground (arith, e)

pub on_block_start-IsOpen :
    (now : ℕ) (v : Value) (w : Writing) → IsOpen w → IsOpen (on_block_start now v w)
unfolding on_block_start
on_block_start-IsOpen now v (t, out) i = at_block (find (codes "content_block") v)
  where
    at_index :
        (b : Value) (k : Option ℕ)
        → leb max_blocks t.next_tool_ord ≡ false
        → IsOpen (elim k as (λ x. Writing) [
          | none ↦ (t, out)
          | some i ↦ if leb max_blocks i then (t, out) else open_tool now i b (t, out)
        ])
    at_index b none h = i
    at_index b (some k) h =
        picked-IsOpen (leb max_blocks k) (t, out) _ i (λ c. open_tool-IsOpen now k b (t, out) i h)

    at_block :
        (k : Option Value)
        → IsOpen (elim k as (λ x. Writing) [
          | none ↦ (t, out)
          | some b ↦
              if not (is_type (codes "tool_use") b)
                || is_empty (str_or (codes "name") [] b)
                || leb max_blocks t.next_tool_ord
              then (t, out)
              else elim (parse_block_index v) [
                | none ↦ (t, out)
                | some i ↦ if leb max_blocks i then (t, out) else open_tool now i b (t, out)
              ]
        ])
    at_block none = i
    at_block (some b) =
        picked-IsOpen _ (t, out) _ i
          (λ c. at_index b (parse_block_index v) (
            last_false (not (is_type (codes "tool_use") b)) (is_empty (str_or (codes "name") [] b))
              (leb max_blocks t.next_tool_ord) c))
