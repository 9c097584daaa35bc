-- ===== src/Provider/Json/Parse/Cases.antt =====
-- The cases of `parse_value`, by what stands at the front of the value.
use llmbridge.Base.{ℕ, suc, ◌≡◌, [], ◌∷◌, if◌then◌else◌, arith}
use llmbridge.Provider.Json.Tokens.{
  Parser, Value, no_values, no_members, null, fail, ws, starts, tail, parse_string,
  parse_value_scalar,
}
use llmbridge.Provider.Json.Parse.{
  Config, Front, too_many, ends, too_deep, quote, brace, bracket, other, front, counted, enter,
  string_value, array_value, object_value, step_on, parse_value, parse_elements, parse_members,
}

unfoldable pub built_cases : Config → ℕ → Parser → Front → Value × Parser
built_cases cfg fuel p too_many = (null, fail (counted p))
built_cases cfg fuel p ends = (null, fail (ws (counted p)))
built_cases cfg fuel p too_deep = (null, fail (ws (counted p)))
built_cases cfg fuel p quote = string_value (parse_string (ws (counted p)))
built_cases cfg fuel p (other c) = parse_value_scalar c (ws (counted p))
built_cases cfg fuel p brace =
    let q = ws (counted p) in
    let inner = enter q in
    if starts b'}' inner.rest
    then object_value q (no_members, step_on inner)
    else object_value q (parse_members cfg fuel inner.escapes [] inner)
built_cases cfg fuel p bracket =
    let q = ws (counted p) in
    let inner = enter q in
    if starts b']' inner.rest
    then array_value q (no_values, step_on inner)
    else array_value q (parse_elements cfg fuel inner)

pub built_lem :
    (cfg : Config) (fuel : ℕ) (p : Parser)
    → parse_value cfg (suc fuel) p ≡ built_cases cfg fuel p (front (ws (counted p)))
unfolding parse_value built_cases
built_lem cfg fuel p = ground arith

pub front-quote : (q : Parser) → front q ≡ quote → q.rest ≡ b'"' ∷ tail q.rest
unfolding front
front-quote q h = ground (arith, h)
