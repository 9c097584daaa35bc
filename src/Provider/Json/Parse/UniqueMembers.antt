-- ===== src/Provider/Json/Parse/UniqueMembers.antt =====
-- Under `Keys::Unique`, no object of an accepted document names a key twice: the members.
use mathlib.Core.List.{map}
use llmbridge.Base.{
  ℕ, zero, suc, ◌+◌, ◌*◌, ◌≤◌, ◌<◌, ◌≡◌, refl, ap, sym, ◌∙◌, Bool, true, false, not, ◌&&◌, List, [],
  ◌∷◌, ◌++◌, append_assoc, append-nil, if◌then◌else◌, Bool-cases, inl, inr, ◌==◌, length,
  and-eq-true, arith,
}
use llmbridge.Base.Bytes.{Bytes, is_empty}
use llmbridge.Provider.Json.Escape.{unescape_string}
use llmbridge.Provider.Json.Tokens.{
  Parser, Value, Members, no_members, member, fail, ws, starts, parse_string,
}
use llmbridge.Provider.Json.Tokens.Moves.{Moves-trans, ws-Moves, tail-Moves, parse_string-Moves}
use llmbridge.Provider.Json.Tokens.Backslash.{parse_string-escapes}
use llmbridge.Provider.Json.Keys.{has_backslash, any_backslash}
use llmbridge.Provider.Json.Keys.Sorted.{distinct}
use llmbridge.Provider.Json.Parse.{
  Config, front, counted, close_keys, step_on, member_value, skip_value, parse_value, parse_members,
  start, parse,
}
use llmbridge.Provider.Json.Parse.Same.{ws-IsStrict, close_keys-IsStrict}
use llmbridge.Provider.Json.Parse.Agree.{strict, member_value-IsStrict}
use llmbridge.Provider.Json.Parse.Moves.{all_move, member_value-Moves}
use llmbridge.Provider.Json.Parse.Cases.{built_lem}
use llmbridge.Provider.Json.Parse.Unique.{
  keys_of, all_unique, members_unique, members_unique-member, members_unique-nil, ok_before,
  any_backslash-append, AreUnique, closed_unique, built_unique, member_value_unique,
  elements_unique,
}

unfoldable pub members_result :
    Bool → ℕ → List Bytes → Bytes → Value → Parser → Members × Parser → Members × Parser
members_result unique before ks key v t m =
    if starts b',' t.rest
    then (member key v m.0, m.1)
    else if starts b'}' t.rest
    then (member key v no_members, close_keys unique before (ks ++ key ∷ []) (step_on t))
    else (member key v no_members, fail t)

unfoldable pub head_result : Parser → Parser → Members × Parser → Members × Parser
head_result q r x =
    if not (starts b'"' q.rest)
    then (no_members, fail q)
    else if not (starts b':' r.rest)
    then (no_members, fail r)
    else x

pub parse_members_result :
    (cfg : Config) (fuel before : ℕ) (ks : List Bytes) (p : Parser)
    → let q = ws p in
      let key = (parse_string q).0 in
      let r = ws (parse_string q).1 in
      let v =
        member_value cfg key (parse_value cfg fuel) (skip_value cfg.unique fuel) (step_on r) in
      let t = ws v.1 in
      parse_members cfg (suc fuel) before ks p
      ≡ head_result q r (
          members_result cfg.unique before ks key v.0 t
            (parse_members cfg fuel before (ks ++ key ∷ []) (step_on t)))
unfolding parse_value head_result members_result
parse_members_result cfg fuel before ks p = ground arith

abbrev all_distinct : List Bytes → Members → Bool
all_distinct ks ms = distinct (map unescape_string (ks ++ keys_of ms)) && members_unique ms

head_cases :
    (q r : Parser) (x : Members × Parser) → (head_result q r x).1.ok ≡ true → head_result q r x ≡ x
unfolding head_result
head_cases q r x h = ground (arith, h)

all_distinct-member :
    (ks : List Bytes) (key : Bytes) (v : Value) (ms : Members)
    → all_distinct ks (member key v ms) ≡ (
        distinct (map unescape_string ((ks ++ key ∷ []) ++ keys_of ms))
        && (all_unique v && members_unique ms))
unfolding keys_of
all_distinct-member ks key v ms =
    let e =
      ap (λ x. distinct (map unescape_string x)) (sym (append_assoc ks (key ∷ []) (keys_of ms))) in
    let m = members_unique-member key v ms in cc (e, m)

-- Behind the value of a member.
member_unique :
    (unique : Bool) (before : ℕ) (ks : List Bytes) (key : Bytes) (v : Value) (t : Parser)
    (m : Members × Parser)
    → unique ≡ true
    → (t.ok ≡ true
        → (all_unique v ≡ true) × ((any_backslash (ks ++ key ∷ []) && t.escapes == before) ≡ false))
    → (m.1.ok ≡ true → t.ok ≡ true)
    → (m.1.ok ≡ true → all_distinct (ks ++ key ∷ []) m.0 ≡ true)
    → (members_result unique before ks key v t m).1.ok ≡ true
    → all_distinct ks (members_result unique before ks key v t m).0 ≡ true
member_unique unique before ks key v t m u a w b h =
    let ks' = ks ++ key ∷ [] in
    elim (Bool-cases (starts b',' t.rest)) [
      | inl s ↦
          let e : members_result unique before ks key v t m ≡ (member key v m.0, m.1) =
            unfold members_result in ground (arith, s) in
          let good : m.1.ok ≡ true = ap (λ x. x.1.ok) (sym e) ∙ h in
          let one = (a (w good)).0 in
          let rest = b good in
          let whole = all_distinct-member ks key v m.0 in
          ap (λ x. all_distinct ks x.0) e ∙ whole ∙ ground (arith, one, rest)
      | inr s ↦
          let closed = close_keys unique before ks' (step_on t) in
          let e : members_result unique before ks key v t m
              ≡ (member key v no_members, (if starts b'}' t.rest then closed else fail t)) =
            unfold members_result in ground (arith, s) in
          let good : closed.ok ≡ true = let g = ap (λ x. x.1.ok) (sym e) ∙ h in ground (arith, g) in
          let (one, told) = a (
            ok_before (close_keys unique before ks') (step_on t)
              (close_keys-IsStrict unique before ks') good) in
          let rest = closed_unique unique before ks' (step_on t) u told good in
          let all : ks' ++ keys_of no_members ≡ ks' = unfold keys_of in append-nil ks' in
          let none = members_unique-nil in
          let whole = all_distinct-member ks key v no_members in
          ap (λ x. all_distinct ks x.0) e ∙ whole ∙ rw all (ground (arith, one, rest, none))
    ]

told_of_key :
    (before : ℕ) (ks : List Bytes) (key : Bytes) (escapes read escapes' : ℕ)
    → before ≤ escapes
    → (any_backslash ks && escapes == before) ≡ false
    → escapes ≤ read
    → read ≤ escapes'
    → (has_backslash key ≡ true → escapes < read)
    → (any_backslash (ks ++ key ∷ []) && escapes' == before) ≡ false
told_of_key before ks key escapes read escapes' n b l m k =
    let split = any_backslash-append ks key in
    elim (Bool-cases (has_backslash key)) [
      | inl e ↦ ground (arith, split, e, n, m, k e)
      | inr e ↦ ground (arith, split, e, n, b, l, m)
    ]

members_unique_round :
    (cfg : Config) (fuel before : ℕ) (ks : List Bytes) (p : Parser)
    → cfg.unique ≡ true
    → AreUnique cfg fuel
    → before ≤ p.escapes
    → (any_backslash ks && p.escapes == before) ≡ false
    → (parse_members cfg (suc fuel) before ks p).1.ok ≡ true
    → all_distinct ks (parse_members cfg (suc fuel) before ks p).0 ≡ true
members_unique_round cfg fuel before ks p u ih n b h =
    let q = ws p in
    let key = (parse_string q).0 in
    let q' = (parse_string q).1 in
    let r = ws q' in
    let built = parse_value cfg fuel in
    let skipped = skip_value cfg.unique fuel in
    let v = member_value cfg key built skipped (step_on r) in
    let t = ws v.1 in
    let ks' = ks ++ key ∷ [] in
    let m = parse_members cfg fuel before ks' (step_on t) in
    let x = members_result cfg.unique before ks key v.0 t m in
    let st = strict cfg fuel in
    let e = parse_members_result cfg fuel before ks p in
    let g : (head_result q r x).1.ok ≡ true = ap (λ y. y.1.ok) (sym e) ∙ h in
    let c = head_cases q r x g in
    let value_step = member_value-IsStrict cfg key built skipped st.parsed st.skipped in
    let am = all_move cfg fuel in
    let w1 = (ws-Moves p).escapes_le in
    let w2 = (Moves-trans q' r (step_on r) (ws-Moves q') (tail-Moves r)).escapes_le in
    let w3 =
      (Moves-trans (step_on r) v.1 t
        (member_value-Moves cfg key built skipped am.parsed am.skipped (step_on r))
        (ws-Moves v.1)).escapes_le in
    let w0 = (parse_string-Moves q).escapes_le in
    let split = any_backslash-append ks key in
    let parsed = λ (k : t.ok ≡ true). ok_before ws v.1 ws-IsStrict k in
    let read = λ (k : t.ok ≡ true).
      (ok_before ws q' ws-IsStrict (
        ok_before (λ z. (member_value cfg key built skipped z).1) (step_on r) value_step
          (parsed k))) in
    let told = λ (k : t.ok ≡ true).
      told_of_key before ks key p.escapes q'.escapes t.escapes n b (omega (arith, w1, w0))
        (omega (arith, w2, w3)) (λ j. omega (arith, w1, parse_string-escapes q (read k) j)) in
    let a : t.ok ≡ true
        → (all_unique v.0 ≡ true) × ((any_backslash ks' && t.escapes == before) ≡ false) =
      λ k. (member_value_unique cfg key built skipped (step_on r) ih.value (parsed k), told k) in
    let w =
      ok_before (λ z. (parse_members cfg fuel before ks' z).1) (step_on t)
        (st.parsed_members before ks') in
    let later = λ (k : m.1.ok ≡ true).
      ih.members before ks' (step_on t) (omega (arith, n, w0, w1, w2, w3)) (told (w k)) k in
    let one =
      member_unique cfg.unique before ks key v.0 t m u a w later (ap (λ y. y.1.ok) (sym c) ∙ g) in
    ap (λ y. all_distinct ks y.0) (e ∙ c) ∙ one

are_unique : (cfg : Config) (fuel : ℕ) → cfg.unique ≡ true → AreUnique cfg fuel
are_unique cfg zero u = record {
  value = λ p h. absurd (unfold parse_value in cc h);
  elements = λ p h. absurd (unfold parse_value in cc h);
  members = λ before ks p n b h. absurd (unfold parse_value in cc h);
}
are_unique cfg (suc fuel) u =
    let ih = are_unique cfg fuel u in
    record {
      value = λ p h.
          let e = built_lem cfg fuel p in
          let fr = front (ws (counted p)) in
          ap (λ r. all_unique r.0) e ∙ built_unique cfg fuel p fr ih (ap (λ r. r.1.ok) (sym e) ∙ h);
      elements = λ p h. elements_unique cfg fuel p ih h;
      members = λ before ks p n b h. members_unique_round cfg fuel before ks p u ih n b h;
    }

-- If `json::parse` under `Keys::Unique` accepts a text, whichever names are opaque, then in every
-- object of the value that it builds the keys are distinct as the strings that they decode to.
pub parse-all_unique :
    (opaque : List Bytes) (text : Bytes)
    → (parse (record { unique = true; opaque = opaque }) text).1 ≡ true
    → all_unique (parse (record { unique = true; opaque = opaque }) text).0 ≡ true
unfolding parse
parse-all_unique opaque text h =
    let cfg : Config = record { unique = true; opaque = opaque } in
    let r = parse_value cfg (2 * length text + 1) (start text) in
    let (good, done) = and-eq-true (ws r.1).ok (is_empty (ws r.1).rest) h in
    (are_unique cfg (2 * length text + 1) refl).value (start text) (unfold ws in good)
