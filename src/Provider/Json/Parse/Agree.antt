-- ===== src/Provider/Json/Parse/Agree.antt =====
-- `skip_value` and `parse_value` read the same documents.
use llmbridge.Base.{
  ℕ, zero, suc, ◌+◌, ◌*◌, length, ◌≡◌, refl, ap, sym, ◌∙◌, Bool, true, false, ltb, ◌&&◌, List, [],
  ◌∷◌, ◌++◌, Bool-cases, ◌⊎◌, inl, inr, arith,
}
use llmbridge.Base.Bytes.{Bytes, is_empty}
use llmbridge.Provider.Json.Tokens.{
  max_nodes, Parser, Value, at, ws, skip_ws, parse_string, parse_value_scalar,
}
use llmbridge.Provider.Json.Parse.{
  Config, parse, start, Front, too_many, ends, too_deep, quote, brace, bracket, other, front,
  counted, close_keys, member_value, skip_value, skip_elements, skip_members, parse_value,
  parse_elements, parse_members,
}
use llmbridge.Provider.Json.Parse.Same.{
  final, Same, IsStrict, Same-cases, Same-step, failed, ws-IsStrict, close_keys-IsStrict,
}
use llmbridge.Provider.Json.Parse.Rounds.{
  after, container, value_cases, id_step, after-IsStrict, after-Same, member_head-IsStrict,
  member_head-Same, value_cases-IsStrict, value_cases-Same, skip_value_lem, skip_elements_lem,
  skip_members_lem, parse_value_lem, parse_elements_lem, parse_members_lem,
}

pub record AreStrict (cfg : Config) (fuel : ℕ) : Type 0 where
  pub skipped : IsStrict (skip_value cfg.unique fuel)
  pub elements : IsStrict (skip_elements cfg.unique fuel)
  pub members : (before : ℕ) (ks : List Bytes) → IsStrict (skip_members cfg.unique fuel before ks)
  pub parsed : IsStrict (λ p. (parse_value cfg fuel p).1)
  pub parsed_elements : IsStrict (λ p. (parse_elements cfg fuel p).1)
  pub parsed_members :
      (before : ℕ) (ks : List Bytes) → IsStrict (λ p. (parse_members cfg fuel before ks p).1)

pub member_value-IsStrict :
    (cfg : Config) (key : Bytes) (built : Parser → Value × Parser) (skipped : Parser → Parser)
    → IsStrict (λ p. (built p).1)
    → IsStrict skipped
    → IsStrict (λ p. (member_value cfg key built skipped p).1)
unfolding member_value
member_value-IsStrict cfg key built skipped b s p h =
    let a = b p h in
    let w = ws-IsStrict p h in let c = b (ws p) w in let d = s (ws p) w in ground (arith, a, c, d)

id-IsStrict : IsStrict id_step
unfolding id_step
id-IsStrict p h = h

-- What a round over the members does behind the colon.
abbrev members_step : Config → ℕ → ℕ → List Bytes → Bytes → Parser → Parser
members_step cfg fuel before ks key r =
    after b'}' (ws (member_value cfg key (parse_value cfg fuel) (skip_value cfg.unique fuel) r).1)
      (λ q. (parse_members cfg fuel before (ks ++ key ∷ []) q).1)
      (close_keys cfg.unique before (ks ++ key ∷ []))

members_step-IsStrict :
    (cfg : Config) (fuel before : ℕ) (ks : List Bytes)
    → IsStrict (λ p. (parse_value cfg fuel p).1)
    → IsStrict (skip_value cfg.unique fuel)
    → ((before : ℕ) (ks : List Bytes) → IsStrict (λ p. (parse_members cfg fuel before ks p).1))
    → (key : Bytes) → IsStrict (members_step cfg fuel before ks key)
members_step-IsStrict cfg fuel before ks b s m key r h =
    let v =
      member_value-IsStrict cfg key (parse_value cfg fuel) (skip_value cfg.unique fuel) b s r h in
    let w = (member_value cfg key (parse_value cfg fuel) (skip_value cfg.unique fuel) r).1 in
    after-IsStrict b'}' (λ q. (parse_members cfg fuel before (ks ++ key ∷ []) q).1)
      (close_keys cfg.unique before (ks ++ key ∷ [])) (m before (ks ++ key ∷ []))
      (close_keys-IsStrict cfg.unique before (ks ++ key ∷ [])) (ws w) (ws-IsStrict w v)

pub strict : (cfg : Config) (fuel : ℕ) → AreStrict cfg fuel
strict cfg zero = record {
  skipped = λ p h. unfold skip_value in refl;
  elements = λ p h. unfold skip_value in refl;
  members = λ before ks p h. unfold skip_value in refl;
  parsed = λ p h. unfold parse_value in refl;
  parsed_elements = λ p h. unfold parse_value in refl;
  parsed_members = λ before ks p h. unfold parse_value in refl;
}
strict cfg (suc fuel) =
    let ih = strict cfg fuel in
    record {
      skipped = λ p h. rw (skip_value_lem cfg fuel p) (
          value_cases-IsStrict (λ q. skip_members cfg.unique fuel q.escapes [] q)
            (skip_elements cfg.unique fuel) (front (ws (counted p)))
            (λ q. ih.members q.escapes [] q) ih.elements p h);
      elements = λ p h. rw (skip_elements_lem cfg fuel p, h) refl;
      members = λ before ks p h. rw (skip_members_lem cfg fuel before ks p, h) refl;
      parsed = λ p h. rw (parse_value_lem cfg fuel p) (
          value_cases-IsStrict (λ q. (parse_members cfg fuel q.escapes [] q).1)
            (λ q. (parse_elements cfg fuel q).1) (front (ws (counted p)))
            (λ q. ih.parsed_members q.escapes [] q) ih.parsed_elements p h);
      parsed_elements = λ p h.
          let v = ws-IsStrict (parse_value cfg fuel p).1 (ih.parsed p h) in
          let a =
            after-IsStrict b']' (λ q. (parse_elements cfg fuel q).1) id_step ih.parsed_elements
              id-IsStrict (ws (parse_value cfg fuel p).1) v in
          rw (parse_elements_lem cfg fuel p) (ground (arith, a));
      parsed_members = λ before ks p h. rw (parse_members_lem cfg fuel before ks p) (
          member_head-IsStrict (members_step cfg fuel before ks)
            (members_step-IsStrict cfg fuel before ks ih.parsed ih.skipped ih.parsed_members) (ws p)
            (ws-IsStrict p h));
    }

pub skip_ws-skip_ws : (s : Bytes) → skip_ws (skip_ws s) ≡ skip_ws s
unfolding skip_ws
skip_ws-skip_ws [] = refl
skip_ws-skip_ws (c ∷ s) = ground (arith, skip_ws-skip_ws s)

value_cases-moved :
    (obj arr : Parser → Parser) (p p' : Parser) (fr : Front)
    → ws (counted p) ≡ ws (counted p')
    → Same (value_cases obj arr p fr) (value_cases obj arr p' fr)
unfolding value_cases
value_cases-moved obj arr p p' too_many e = refl
value_cases-moved obj arr p p' ends e = refl
value_cases-moved obj arr p p' too_deep e = refl
value_cases-moved obj arr p p' quote e = ap (λ q. final (parse_string q).1) e
value_cases-moved obj arr p p' (other c) e = ap (λ q. final (parse_value_scalar c q).1) e
value_cases-moved obj arr p p' brace e = ap (λ q. final (container b'}' obj q)) e
value_cases-moved obj arr p p' bracket e = ap (λ q. final (container b']' arr q)) e

front-empty : (q : Parser) → q.rest ≡ [] → (front q ≡ too_many) ⊎ (front q ≡ ends)
unfolding front
front-empty q h = elim (Bool-cases (ltb max_nodes q.nodes)) [
  | inl e ↦ inl (ground (arith, e))
  | inr e ↦ inr (ground (arith, e, h))
]

-- A value is skipped alike from the white space before it and from behind it.
skip_value-ws :
    (cfg : Config) (fuel : ℕ) (p : Parser)
    → Same (skip_value cfg.unique fuel (ws p)) (skip_value cfg.unique fuel p)
skip_value-ws cfg zero p = unfold skip_value in refl
skip_value-ws cfg (suc fuel) p =
    let e : ws (counted (ws p)) ≡ ws (counted p) =
      unfold ws in ap (λ r. at r (counted p)) (skip_ws-skip_ws p.rest) in
    let obj = λ (q : Parser). skip_members cfg.unique fuel q.escapes [] q in
    let m =
      value_cases-moved obj (skip_elements cfg.unique fuel) (ws p) p (front (ws (counted p))) e in
    ap final (skip_value_lem cfg fuel (ws p))
    ∙ ap (λ q. final (value_cases obj (skip_elements cfg.unique fuel) (ws p) (front q))) e
    ∙ m
    ∙ ap final (sym (skip_value_lem cfg fuel p))

skip_value-empty :
    (cfg : Config) (fuel : ℕ) (p : Parser) → p.rest ≡ [] → (skip_value cfg.unique fuel p).ok ≡ false
skip_value-empty cfg zero p h = unfold skip_value in refl
skip_value-empty cfg (suc fuel) p h =
    let none_left : (ws (counted p)).rest ≡ [] = unfold ws skip_ws in ap skip_ws h in
    elim (front-empty (ws (counted p)) none_left) [
      | inl e ↦ rw (skip_value_lem cfg fuel p, e) (unfold value_cases in refl)
      | inr e ↦ rw (skip_value_lem cfg fuel p, e) (unfold value_cases in refl)
    ]

member_value-Same :
    (cfg : Config) (fuel : ℕ) (key : Bytes) (r : Parser)
    → ((p : Parser) → Same (skip_value cfg.unique fuel p) (parse_value cfg fuel p).1)
    → Same
        (skip_value cfg.unique fuel r)
        (member_value cfg key (parse_value cfg fuel) (skip_value cfg.unique fuel) r).1
unfolding member_value
member_value-Same cfg fuel key r h =
    let a = h r in
    let b = sym (skip_value-ws cfg fuel r) in let d = b ∙ h (ws r) in ground (arith, a, b, d)

record Agrees (cfg : Config) (fuel : ℕ) : Type 0 where
  value : (p : Parser) → Same (skip_value cfg.unique fuel p) (parse_value cfg fuel p).1
  elements : (p : Parser) → Same (skip_elements cfg.unique fuel p) (parse_elements cfg fuel p).1
  members :
      (before : ℕ) (ks : List Bytes) (p : Parser)
      → Same (skip_members cfg.unique fuel before ks p) (parse_members cfg fuel before ks p).1

is_empty-nil : (s : Bytes) → is_empty s ≡ true → s ≡ []
unfolding is_empty
is_empty-nil [] h = refl
is_empty-nil (c ∷ s) h = cc

abbrev skips_step : Config → ℕ → ℕ → List Bytes → Bytes → Parser → Parser
skips_step cfg fuel before ks key r =
    after b'}' (ws (skip_value cfg.unique fuel r))
      (skip_members cfg.unique fuel before (ks ++ key ∷ []))
      (close_keys cfg.unique before (ks ++ key ∷ []))

members_step-agree :
    (cfg : Config) (fuel before : ℕ) (ks : List Bytes)
    → Agrees cfg fuel
    → (key : Bytes) (r : Parser)
    → Same (skips_step cfg fuel before ks key r) (members_step cfg fuel before ks key r)
members_step-agree cfg fuel before ks ih key r =
    let st = strict cfg fuel in
    let l = ks ++ key ∷ [] in
    let more = skip_members cfg.unique fuel before l in
    let more' = λ (q : Parser). (parse_members cfg fuel before l q).1 in
    let done = close_keys cfg.unique before l in
    let d = close_keys-IsStrict cfg.unique before l in
    Same-step (λ v. after b'}' (ws v) more done) (λ v. after b'}' (ws v) more' done)
      (skip_value cfg.unique fuel r)
      (member_value cfg key (parse_value cfg fuel) (skip_value cfg.unique fuel) r).1
      (λ v h. after-IsStrict b'}' more done (st.members before l) d (ws v) (ws-IsStrict v h))
      (λ v h.
        after-IsStrict b'}' more' done (st.parsed_members before l) d (ws v) (ws-IsStrict v h))
      (λ v. after-Same b'}' more more' done (ws v) (ih.members before l))
      (member_value-Same cfg fuel key r ih.value)

elements-agree :
    (cfg : Config) (fuel : ℕ) (p : Parser)
    → Agrees cfg fuel
    → Same (skip_elements cfg.unique (suc fuel) p) (parse_elements cfg (suc fuel) p).1
elements-agree cfg fuel p ih =
    let st = strict cfg fuel in
    let k = λ (v : Parser). after b']' (ws v) (skip_elements cfg.unique fuel) id_step in
    let k' = λ (v : Parser). after b']' (ws v) (λ q. (parse_elements cfg fuel q).1) id_step in
    let ks : IsStrict k = λ v h.
      after-IsStrict b']' (skip_elements cfg.unique fuel) id_step st.elements id-IsStrict (ws v)
        (ws-IsStrict v h) in
    let ks' : IsStrict k' = λ v h.
      after-IsStrict b']' (λ q. (parse_elements cfg fuel q).1) id_step st.parsed_elements
        id-IsStrict (ws v) (ws-IsStrict v h) in
    let one =
      Same-step k k' (skip_value cfg.unique fuel p) (parse_value cfg fuel p).1 ks ks'
        (λ v.
          after-Same b']' (skip_elements cfg.unique fuel) (λ q. (parse_elements cfg fuel q).1)
            id_step (ws v) ih.elements)
        (ih.value p) in
    let skipped = skip_elements_lem cfg fuel p in
    let parsed = parse_elements_lem cfg fuel p in
    elim (Bool-cases p.ok) [
      | inr e ↦
          failed (skip_elements cfg.unique (suc fuel) p) (parse_elements cfg (suc fuel) p).1
            ((strict cfg (suc fuel)).elements p e) ((strict cfg (suc fuel)).parsed_elements p e)
      | inl e ↦ elim (Bool-cases (is_empty p.rest)) [
        | inl d ↦
            let z =
              ks (skip_value cfg.unique fuel p)
                (skip_value-empty cfg fuel p (is_empty-nil p.rest d)) in
            ground (arith, skipped, parsed, e, d, z)
        | inr d ↦ ground (arith, skipped, parsed, e, d, one)
      ]
    ]

members-agree :
    (cfg : Config) (fuel before : ℕ) (ks : List Bytes) (p : Parser)
    → Agrees cfg fuel
    → Same
        (skip_members cfg.unique (suc fuel) before ks p)
        (parse_members cfg (suc fuel) before ks p).1
members-agree cfg fuel before ks p ih =
    let skipped = skip_members_lem cfg fuel before ks p in
    let parsed = parse_members_lem cfg fuel before ks p in
    elim (Bool-cases p.ok) [
      | inr e ↦
          failed (skip_members cfg.unique (suc fuel) before ks p)
            (parse_members cfg (suc fuel) before ks p).1
            ((strict cfg (suc fuel)).members before ks p e)
            ((strict cfg (suc fuel)).parsed_members before ks p e)
      | inl e ↦
          let one =
            member_head-Same (skips_step cfg fuel before ks) (members_step cfg fuel before ks)
              (ws p) (members_step-agree cfg fuel before ks ih) in
          ground (arith, skipped, parsed, e, one)
    ]

agree : (cfg : Config) (fuel : ℕ) → Agrees cfg fuel
agree cfg zero = record {
  value = λ p. unfold skip_value parse_value in refl;
  elements = λ p. unfold skip_value parse_value in refl;
  members = λ before ks p. unfold skip_value parse_value in refl;
}
agree cfg (suc fuel) =
    let ih = agree cfg fuel in
    record {
      value = λ p.
          rw (skip_value_lem cfg fuel p, parse_value_lem cfg fuel p)
            (value_cases-Same (λ q. skip_members cfg.unique fuel q.escapes [] q)
              (skip_elements cfg.unique fuel) (λ q. (parse_members cfg fuel q.escapes [] q).1)
              (λ q. (parse_elements cfg fuel q).1) (front (ws (counted p))) p
              (λ q. ih.members q.escapes [] q) ih.elements);
      elements = λ p. elements-agree cfg fuel p ih;
      members = λ before ks p. members-agree cfg fuel before ks p ih;
    }

-- Over every text, from every state, with any fuel and any names told to be opaque: the parser that
-- only checks a value and the parser that builds it refuse the same texts, and where they accept
-- they stop at the same place with the same counts.
pub skip_value-parse_value :
    (cfg : Config) (fuel : ℕ) (p : Parser)
    → final (skip_value cfg.unique fuel p) ≡ final (parse_value cfg fuel p).1
skip_value-parse_value cfg fuel p = (agree cfg fuel).value p

-- Whichever names are told to be opaque, at every text: the document is accepted or refused alike.
pub parse-opaque :
    (unique : Bool) (o o' : List Bytes) (text : Bytes)
    → (parse (record { unique = unique; opaque = o }) text).1
      ≡ (parse (record { unique = unique; opaque = o' }) text).1
unfolding parse
parse-opaque unique o o' text =
    let cfg : Config = record { unique = unique; opaque = o } in
    let cfg' : Config = record { unique = unique; opaque = o' } in
    let fuel = 2 * length text + 1 in
    let e =
      sym (skip_value-parse_value cfg fuel (start text))
      ∙ skip_value-parse_value cfg' fuel (start text) in
    elim (Same-cases (parse_value cfg fuel (start text)).1 (parse_value cfg' fuel (start text)).1
      e) [
        | inl d ↦ ap (λ p. (ws p).ok && is_empty (ws p).rest) d
        | inr (a, b) ↦
            let x = ws-IsStrict (parse_value cfg fuel (start text)).1 a in
            let y = ws-IsStrict (parse_value cfg' fuel (start text)).1 b in ground (arith, x, y)
      ]
