-- ===== src/Provider/Json/Parse/Depth.antt =====
-- No document nests deeper than the limit that guards the parser's recursion.
use llmbridge.Base.{
  ℕ, zero, suc, ◌+◌, ◌*◌, ◌≤◌, ◌<◌, ◌≡◌, refl, List, [], ◌∷◌, ◌++◌, if◌then◌else◌, leb, length,
  arith,
}
use llmbridge.Base.Bytes.{Bytes}
use llmbridge.Provider.Json.Tokens.{
  Parser, Value, null, boolean, number, string, array, object, Values, no_values, element, Members,
  no_members, member, max_depth, ws, parse_string, parse_value_scalar, parse_bool, parse_null,
  parse_number,
}
use llmbridge.Provider.Json.Tokens.Moves.{Moves-trans, ws-Moves}
use llmbridge.Provider.Json.Parse.{
  Config, Front, too_many, ends, too_deep, quote, brace, bracket, other, front, counted, enter,
  step_on, member_value, skip_value, parse_value, parse_elements, parse_members, start, parse,
}
use llmbridge.Provider.Json.Parse.Moves.{all_move, member_value-Moves}
use llmbridge.Provider.Json.Parse.Cases.{built_cases, built_lem}
use llmbridge.Provider.Json.Parse.Enough.{key_at, key_at-Moves}

abbrev larger : ℕ → ℕ → ℕ
larger a b = if leb a b then b else a

-- How many containers stand around a part of the value, at most.
unfoldable mutual
  pub depth_of : Value → ℕ
  depth_of null = 0
  depth_of (boolean b) = 0
  depth_of (number sv) = 0
  depth_of (string sv) = 0
  depth_of (array sv vs) = depth_of_values vs
  depth_of (object sv ms) = depth_of_members ms

  pub depth_of_values : Values → ℕ
  depth_of_values no_values = 0
  depth_of_values (element v vs) = larger (suc (depth_of v)) (depth_of_values vs)

  pub depth_of_members : Members → ℕ
  depth_of_members no_members = 0
  depth_of_members (member k v ms) = larger (suc (depth_of v)) (depth_of_members ms)

scalar_depth : (c : ℕ) (p : Parser) → depth_of (parse_value_scalar c p).0 ≡ 0
unfolding parse_value_scalar parse_bool parse_null parse_number depth_of
scalar_depth c p = ground arith

front-lt : (q : Parser) → (front q ≡ brace) → q.depth < max_depth
unfolding front
front-lt q h = ground (arith, h)

front-lt_bracket : (q : Parser) → (front q ≡ bracket) → q.depth < max_depth
unfolding front
front-lt_bracket q h = ground (arith, h)

enter-depth : (q : Parser) → (enter q).depth ≡ q.depth + 1
unfolding enter ws
enter-depth q = refl

-- What a call at a depth builds stays within what is left of the limit.
record AreShallow (cfg : Config) (fuel : ℕ) : Type 0 where
  value :
      (p : Parser) → p.depth ≤ max_depth → depth_of (parse_value cfg fuel p).0 + p.depth ≤ max_depth
  elements :
      (p : Parser)
      → p.depth ≤ max_depth
      → depth_of_values (parse_elements cfg fuel p).0 + p.depth ≤ suc max_depth
  members :
      (before : ℕ) (ks : List Bytes) (p : Parser)
      → p.depth ≤ max_depth
      → depth_of_members (parse_members cfg fuel before ks p).0 + p.depth ≤ suc max_depth

module _ (cfg : Config) (fuel : ℕ) (ih : AreShallow cfg fuel) (p : Parser)
    (h : p.depth ≤ max_depth) where
  built_shallow :
      (fr : Front)
      → front (ws (counted p)) ≡ fr
      → depth_of (built_cases cfg fuel p fr).0 + p.depth ≤ max_depth
  unfolding built_cases depth_of
  built_shallow too_many e = omega arith
  built_shallow ends e = omega arith
  built_shallow too_deep e = omega arith
  built_shallow quote e = omega arith
  built_shallow (other c) e = omega (arith, scalar_depth c (ws (counted p)))
  built_shallow brace e =
      let q = ws (counted p) in
      let d : q.depth ≡ p.depth = (ws-Moves (counted p)).depth_eq in
      let l = front-lt q e in
      let i = enter-depth q in
      let inner = enter q in
      let m = ih.members inner.escapes [] inner (omega arith) in ground (arith, d, l, i, m)
  built_shallow bracket e =
      let q = ws (counted p) in
      let d : q.depth ≡ p.depth = (ws-Moves (counted p)).depth_eq in
      let l = front-lt_bracket q e in
      let i = enter-depth q in
      let inner = enter q in let m = ih.elements inner (omega arith) in ground (arith, d, l, i, m)

  elements_shallow : depth_of_values (parse_elements cfg (suc fuel) p).0 + p.depth ≤ suc max_depth
  unfolding parse_value depth_of
  elements_shallow =
      let v = parse_value cfg fuel p in
      let q = ws v.1 in
      let d = (Moves-trans p v.1 q ((all_move cfg fuel).parsed p) (ws-Moves v.1)).depth_eq in
      let a = ih.value p h in
      let m = ih.elements (step_on q) (omega arith) in ground (arith, d, a, m)

  member_shallow :
      (key : Bytes)
      → depth_of (member_value cfg key (parse_value cfg fuel) (skip_value cfg.unique fuel) p).0
          + p.depth
        ≤ max_depth
  unfolding member_value depth_of
  member_shallow key =
      let q = ws p in
      let d : q.depth ≡ p.depth = (ws-Moves p).depth_eq in
      let a = ih.value p h in let b = ih.value q (omega arith) in ground (arith, a, b, d, h)

module _ (cfg : Config) (fuel : ℕ) (ih : AreShallow cfg fuel) (p : Parser)
    (h : p.depth ≤ max_depth) where
  members_shallow :
      (before : ℕ) (ks : List Bytes)
      → depth_of_members (parse_members cfg (suc fuel) before ks p).0 + p.depth ≤ suc max_depth
  unfolding parse_value depth_of
  members_shallow before ks =
      let key = (parse_string (ws p)).0 in
      let r = key_at p in
      let am = all_move cfg fuel in
      let v = member_value cfg key (parse_value cfg fuel) (skip_value cfg.unique fuel) r in
      let t = ws v.1 in
      let kd = (key_at-Moves p).depth_eq in
      let d =
        (Moves-trans r v.1 t
          (member_value-Moves cfg key (parse_value cfg fuel) (skip_value cfg.unique fuel) am.parsed
            am.skipped r)
          (ws-Moves v.1)).depth_eq in
      let a = member_shallow cfg fuel ih r (omega arith) key in
      let m = ih.members before (ks ++ key ∷ []) (step_on t) (omega arith) in
      unfold key_at in ground (arith, kd, d, a, m)

shallow : (cfg : Config) (fuel : ℕ) → AreShallow cfg fuel
shallow cfg zero = record {
  value = λ p h. unfold parse_value depth_of in omega arith;
  elements = λ p h. unfold parse_value depth_of in omega arith;
  members = λ before ks p h. unfold parse_value depth_of in omega arith;
}
shallow cfg (suc fuel) =
    let ih = shallow cfg fuel in
    record {
      value = λ p h.
          rw (built_lem cfg fuel p) (built_shallow cfg fuel ih p h (front (ws (counted p))) refl);
      elements = λ p h. elements_shallow cfg fuel ih p h;
      members = λ before ks p h. members_shallow cfg fuel ih p h before ks;
    }

-- Of every text, accepted or not, a value is built in which nothing stands in more than 64
-- containers.
pub depth_of-parse : (cfg : Config) (text : Bytes) → depth_of (parse cfg text).0 ≤ max_depth
unfolding parse
depth_of-parse cfg text =
    let h = (shallow cfg (2 * length text + 1)).value (start text) (omega arith) in omega (arith, h)
