-- ===== src/Provider/Json/Parse/Containers.antt =====
-- A value that `parse_value` builds is spelled by the text at its front, where the loops of its
-- elements and members read theirs.
use llmbridge.Base.{ℕ, ◌≡◌, refl, sym, subst, ◌∙◌, true, [], if◌then◌else◌, arith}
use llmbridge.Provider.Json.Tokens.{
  Parser, no_values, no_members, ws, skip_ws, starts, tail, parse_value_scalar, parse_bool,
  parse_null, parse_number,
}
use llmbridge.Provider.Json.Tokens.Raw.{parse_string-raw, parse_value_scalar-raw}
use llmbridge.Provider.Json.Tokens.Moves.{Suffix, Suffix-trans, Suffix-between, tail-Suffix}
use llmbridge.Provider.Json.Parse.{
  Config, Front, too_many, ends, too_deep, quote, brace, bracket, other, front, counted, enter,
  array_value, object_value, step_on, parse_elements, parse_members,
}
use llmbridge.Provider.Json.Parse.Moves.{all_move, enter-Suffix}
use llmbridge.Provider.Json.Parse.Cases.{built_cases, front-quote}
use llmbridge.Provider.Json.Parse.Grammar.{
  is_scalar, a_scalar, no_elements, some_elements, nothing_named, some_named, ReadsElements,
  ReadsMembers, IsRead, AreRead, if_holds, starts-eq,
}

parse_value_scalar-IsRead : (c : ℕ) (q : Parser) → IsRead q.rest (parse_value_scalar c q)
parse_value_scalar-IsRead c q h =
    let k : is_scalar (parse_value_scalar c q).0 ≡ true =
      unfold parse_value_scalar parse_bool parse_null parse_number in ground arith in
    a_scalar k (parse_value_scalar-raw c q h)

front-brace : (q : Parser) → front q ≡ brace → starts b'{' q.rest ≡ true
unfolding front
front-brace q h = ground (arith, h)

front-bracket : (q : Parser) → front q ≡ bracket → starts b'[' q.rest ≡ true
unfolding front
front-bracket q h = ground (arith, h)

enter-rest : (q : Parser) → (enter q).rest ≡ skip_ws (tail q.rest)
unfolding enter ws
enter-rest q = refl

empty_left : (q : Parser) → Suffix (step_on (enter q)).rest q.rest
empty_left q =
    Suffix-trans (tail (enter q).rest) (enter q).rest q.rest (tail-Suffix (enter q).rest)
      (enter-Suffix q)

module _ (cfg : Config) (fuel : ℕ) (ih : AreRead cfg fuel) where
  object_value-IsRead :
      (q : Parser)
      → starts b'{' q.rest ≡ true
      → let inner = enter q in
        IsRead q.rest (
          if starts b'}' inner.rest
          then object_value q (no_members, step_on inner)
          else object_value q (parse_members cfg fuel inner.escapes [] inner))
  object_value-IsRead q f =
      let inner = enter q in
      let m = parse_members cfg fuel inner.escapes [] inner in
      let opened = starts-eq b'{' q.rest f in
      if_holds (IsRead q.rest) (starts b'}' inner.rest) (object_value q (no_members, step_on inner))
        (object_value q m)
        (λ e h.
          nothing_named opened (sym (enter-rest q) ∙ starts-eq b'}' inner.rest e)
            (Suffix-between (tail inner.rest) q.rest (empty_left q)))
        (λ e h.
          some_named opened
            (subst (λ s. ReadsMembers s m.0 m.1.rest) (enter-rest q)
              (ih.members inner.escapes [] inner h))
            (Suffix-between m.1.rest q.rest (
              Suffix-trans m.1.rest inner.rest q.rest
                ((all_move cfg fuel).parsed_members inner.escapes [] inner).passed
                (enter-Suffix q))))

  array_value-IsRead :
      (q : Parser)
      → starts b'[' q.rest ≡ true
      → let inner = enter q in
        IsRead q.rest (
          if starts b']' inner.rest
          then array_value q (no_values, step_on inner)
          else array_value q (parse_elements cfg fuel inner))
  array_value-IsRead q f =
      let inner = enter q in
      let m = parse_elements cfg fuel inner in
      let opened = starts-eq b'[' q.rest f in
      if_holds (IsRead q.rest) (starts b']' inner.rest) (array_value q (no_values, step_on inner))
        (array_value q m)
        (λ e h.
          no_elements opened (sym (enter-rest q) ∙ starts-eq b']' inner.rest e)
            (Suffix-between (tail inner.rest) q.rest (empty_left q)))
        (λ e h.
          some_elements opened
            (subst (λ s. ReadsElements s m.0 m.1.rest) (enter-rest q) (ih.elements inner h))
            (Suffix-between m.1.rest q.rest (
              Suffix-trans m.1.rest inner.rest q.rest
                ((all_move cfg fuel).parsed_elements inner).passed (enter-Suffix q))))

  pub built_cases-IsRead :
      (p : Parser) (fr : Front)
      → front (ws (counted p)) ≡ fr
      → IsRead (ws (counted p)).rest (built_cases cfg fuel p fr)
  unfolding built_cases
  built_cases-IsRead p too_many e h = cc
  built_cases-IsRead p ends e h = cc
  built_cases-IsRead p too_deep e h = cc
  built_cases-IsRead p quote e h =
      let q = ws (counted p) in a_scalar refl (parse_string-raw q (tail q.rest) (front-quote q e) h)
  built_cases-IsRead p (other c) e h = parse_value_scalar-IsRead c (ws (counted p)) h
  built_cases-IsRead p brace e h =
      object_value-IsRead (ws (counted p)) (front-brace (ws (counted p)) e) h
  built_cases-IsRead p bracket e h =
      array_value-IsRead (ws (counted p)) (front-bracket (ws (counted p)) e) h
