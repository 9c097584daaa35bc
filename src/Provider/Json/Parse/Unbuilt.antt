-- ===== src/Provider/Json/Parse/Unbuilt.antt =====
-- The value of a member: where its name is opaque, a container whose text `skip_value` walked over is
-- the text of the container that `parse_value` would have built there.
use llmbridge.Base.{
  ℕ, zero, suc, ◌≡◌, refl, ap, sym, subst, ◌∙◌, true, false, not, ◌||◌, if◌then◌else◌, arith,
}
use llmbridge.Base.Bytes.{Bytes}
use llmbridge.Provider.Json.Tokens.{
  Parser, Value, array, object, Values, no_values, Members, no_members, ws, skip_ws, starts,
  between,
}
use llmbridge.Provider.Json.Keys.{is_in}
use llmbridge.Provider.Json.Parse.{
  Config, Front, too_many, ends, too_deep, quote, brace, bracket, other, front, counted, enter,
  span_value, member_value, skip_value, parse_value,
}
use llmbridge.Provider.Json.Parse.Agree.{skip_ws-skip_ws, skip_value-parse_value}
use llmbridge.Provider.Json.Parse.Cases.{built_cases, built_lem}
use llmbridge.Provider.Json.Parse.Grammar.{
  Reads, unbuilt_array, unbuilt_object, IsRead, AreRead, if_holds,
}

-- The content of a container.
abbrev members_of : Value → Members
members_of (object sv ms) = ms
members_of _ = no_members

abbrev values_of : Value → Values
values_of (array sv vs) = vs
values_of _ = no_values

-- What a parser of values read at a bracket is a container with the text up to where it stopped.
record Contains (q : Parser) (x : Value × Parser) : Type 0 where
  braced : starts b'{' q.rest ≡ true → x.0 ≡ object (between q.rest x.1.rest) (members_of x.0)
  bracketed :
      starts b'{' q.rest ≡ false
      → starts b'[' q.rest ≡ true
      → x.0 ≡ array (between q.rest x.1.rest) (values_of x.0)

built_cases-Contains :
    (cfg : Config) (fuel : ℕ) (p : Parser) (fr : Front)
    → front (ws (counted p)) ≡ fr
    → (built_cases cfg fuel p fr).1.ok ≡ true
    → Contains (ws (counted p)) (built_cases cfg fuel p fr)
unfolding built_cases front
built_cases-Contains cfg fuel p too_many e h = cc
built_cases-Contains cfg fuel p ends e h = cc
built_cases-Contains cfg fuel p too_deep e h = cc
built_cases-Contains cfg fuel p quote e h = record {
  braced = λ s. ground (arith, e, s);
  bracketed = λ n s. ground (arith, e, s);
}
built_cases-Contains cfg fuel p (other c) e h = record {
  braced = λ s. ground (arith, e, s);
  bracketed = λ n s. ground (arith, e, s);
}
built_cases-Contains cfg fuel p brace e h =
    let inner = enter (ws (counted p)) in
    record {
      braced = λ s.
          if_holds
            (λ (x : Value × Parser).
              x.0 ≡ object (between (ws (counted p)).rest x.1.rest) (members_of x.0))
            (starts b'}' inner.rest) _ _ (λ _. refl) (λ _. refl);
      bracketed = λ n s. ground (arith, e, n, s);
    }
built_cases-Contains cfg fuel p bracket e h =
    let inner = enter (ws (counted p)) in
    record {
      braced = λ s. ground (arith, e, s);
      bracketed = λ n s.
          if_holds
            (λ (x : Value × Parser).
              x.0 ≡ array (between (ws (counted p)).rest x.1.rest) (values_of x.0))
            (starts b']' inner.rest) _ _ (λ _. refl) (λ _. refl);
    }

parse_value-Contains :
    (cfg : Config) (fuel : ℕ) (p : Parser)
    → (parse_value cfg fuel p).1.ok ≡ true
    → Contains (ws p) (parse_value cfg fuel p)
parse_value-Contains cfg zero p h = absurd (unfold parse_value in cc h)
parse_value-Contains cfg (suc fuel) p h =
    let e = built_lem cfg fuel p in
    let c =
      built_cases-Contains cfg fuel p (front (ws (counted p))) refl
        (ap (λ r. r.1.ok) (sym e) ∙ h) in
    let c' = subst (Contains (ws (counted p))) (sym e) c in
    record { braced = unfold ws in c'.braced; bracketed = unfold ws in c'.bracketed }

module _ (cfg : Config) (fuel : ℕ) (ih : AreRead cfg fuel) where
  -- `skip_value` stops where `parse_value` would have.
  skip_agrees :
      (q : Parser)
      → (skip_value cfg.unique fuel q).ok ≡ true
      → (parse_value cfg fuel q).1 ≡ skip_value cfg.unique fuel q
  skip_agrees q h = let a = skip_value-parse_value cfg fuel q in ground (arith, a, h)

  span_value-IsRead :
      (p : Parser)
      → (starts b'{' (ws p).rest || starts b'[' (ws p).rest) ≡ true
      → IsRead (skip_ws p.rest) (span_value (ws p) (skip_value cfg.unique fuel (ws p)))
  span_value-IsRead p f =
      let q = ws p in
      let r = skip_value cfg.unique fuel q in
      let v = parse_value cfg fuel q in
      let here : q.rest ≡ skip_ws p.rest = unfold ws in refl in
      let again : (ws q).rest ≡ q.rest = unfold ws in skip_ws-skip_ws p.rest in
      let twice : skip_ws q.rest ≡ skip_ws p.rest = unfold ws in skip_ws-skip_ws p.rest in
      let read = λ (h : r.ok ≡ true).
        subst (λ x. Reads (skip_ws p.rest) v.0 x.rest) (skip_agrees q h)
          (subst (λ s. Reads s v.0 v.1.rest) twice
            (ih.value q (ap (λ x. x.ok) (skip_agrees q h) ∙ h))) in
      let shape = λ (h : r.ok ≡ true).
        parse_value-Contains cfg fuel q (ap (λ x. x.ok) (skip_agrees q h) ∙ h) in
      let obj : Value × Parser = (object (between q.rest r.rest) no_members, r) in
      let arr : Value × Parser = (array (between q.rest r.rest) no_values, r) in
      if_holds (IsRead (skip_ws p.rest)) (starts b'{' q.rest) obj arr
        (λ s h.
          let n = (shape h).braced (ap (starts b'{') again ∙ s) in
          let n' : v.0 ≡ object (between q.rest r.rest) (members_of v.0) =
            n ∙ ap (λ x. object x (members_of v.0)) (cc (again, skip_agrees q h)) in
          unbuilt_object (subst (λ x. Reads (skip_ws p.rest) x r.rest) n' (read h)))
        (λ s h.
          let n =
            (shape h).bracketed (ap (starts b'{') again ∙ s)
              (ap (starts b'[') again ∙ ground (arith, f, s)) in
          let n' : v.0 ≡ array (between q.rest r.rest) (values_of v.0) =
            n ∙ ap (λ x. array x (values_of v.0)) (cc (again, skip_agrees q h)) in
          unbuilt_array (subst (λ x. Reads (skip_ws p.rest) x r.rest) n' (read h)))

  pub member_value-IsRead :
      (key : Bytes) (p : Parser)
      → IsRead
          (skip_ws p.rest)
          (member_value cfg key (parse_value cfg fuel) (skip_value cfg.unique fuel) p)
  unfolding member_value
  member_value-IsRead key p =
      let q = ws p in
      let P = IsRead (skip_ws p.rest) in
      let built = parse_value cfg fuel in
      let held = starts b'{' q.rest || starts b'[' q.rest in
      let span = span_value q (skip_value cfg.unique fuel q) in
      let twice : skip_ws q.rest ≡ skip_ws p.rest = unfold ws in skip_ws-skip_ws p.rest in
      if_holds P (not (is_in key cfg.opaque)) (built p) (if not held then built q else span)
        (λ _. ih.value p)
        (λ _.
          if_holds P (not held) (built q) span
            (λ _. subst (λ s. IsRead s (built q)) twice (ih.value q))
            (λ n. span_value-IsRead p (ground (arith, n))))
