-- ===== src/Provider/Json/Parse.antt =====
-- `json::parse` (provider/include/provider/json.hpp) and the mutual recursion under it. Every call
-- costs a unit of fuel; a parser that ran out of it would fail.
pub mod Same
mod Rounds
pub mod Agree
pub mod Moves
pub mod Cases
pub mod Enough
pub mod Depth
pub mod Unique
pub mod UniqueMembers
pub mod Grammar
mod Unbuilt
mod Containers
pub mod Spelled
use llmbridge.Base.{
  ℕ, zero, suc, ◌+◌, ◌-◌, ◌*◌, Bool, true, false, not, ◌&&◌, ◌||◌, List, [], ◌∷◌, ◌++◌, Option,
  none, some, ltb, leb, ◌==◌, if◌then◌else◌, length,
}
use llmbridge.Base.Bytes.{Bytes, same, is_empty}
use llmbridge.Provider.Json.Tokens.{
  Parser, Value, null, boolean, number, string, array, object, Values, no_values, element, Members,
  no_members, member, max_nodes, max_depth, fail, at, ws, starts, tail, between, parse_string,
  parse_value_scalar,
}
use llmbridge.Provider.Json.Keys.{keys_fresh, is_in}

-- `keys == Keys::Unique`, and `opaque`.
pub record Config : Type 0 where
  pub unique : Bool
  pub opaque : List Bytes

-- What stands at the front of a value, and which checks it has failed.
pub data Front : Type 0 where
  too_many ends too_deep : Front
  quote brace bracket : Front
  other : ℕ → Front

abbrev pub front_at : ℕ → ℕ → Front
front_at depth c =
    if c == b'"'
    then quote
    else if not (c == b'{' || c == b'[')
    then other c
    else if leb max_depth depth
    then too_deep
    else if c == b'{'
    then brace
    else bracket

-- `++nodes > kMaxNodes`, `ws()`, and the tests up to the dispatch.
abbrev pub counted : Parser → Parser
counted p = record p { nodes = p.nodes + 1 }

unfoldable pub front : Parser → Front
front q =
    if ltb max_nodes q.nodes
    then too_many
    else elim q.rest [ [] ↦ ends | c ∷ s ↦ front_at q.depth c ]

-- `++depth; ++i; ws()`
unfoldable pub enter : Parser → Parser
enter q = ws (record q { depth = q.depth + 1; rest = tail q.rest })

-- `--depth`
abbrev pub leave : Parser → Parser
leave q = record q { depth = q.depth - 1 }

abbrev pub string_value : Bytes × Parser → Value × Parser
string_value (sv, q) = (string sv, q)

-- The value of a container that `parse_value` entered at `q`.
abbrev pub array_value : Parser → Values × Parser → Value × Parser
array_value q (vs, r) = (array (between q.rest r.rest) vs, leave r)

abbrev pub object_value : Parser → Members × Parser → Value × Parser
object_value q (ms, r) = (object (between q.rest r.rest) ms, leave r)

-- The test of the keys as an object closes; `before` is `escapes_before`.
unfoldable pub close_keys : Bool → ℕ → List Bytes → Parser → Parser
close_keys unique before ks p =
    if unique && not (keys_fresh (not (p.escapes == before)) ks) then fail p else p

abbrev pub step_on : Parser → Parser
step_on p = at (tail p.rest) p

-- `parse_opaque` at a container: `skip_value` stopped at `r`.
abbrev pub span_value : Parser → Parser → Value × Parser
span_value q r =
    if starts b'{' q.rest
    then (object (between q.rest r.rest) no_members, r)
    else (array (between q.rest r.rest) no_values, r)

unfoldable mutual
  pub skip_value : Bool → ℕ → Parser → Parser
  skip_value unique zero p = fail p
  skip_value unique (suc fuel) p =
      let q = ws (counted p) in
      let inner = enter q in
      elim (front q) [
        | too_many ↦ fail (counted p)
        | ends ↦ fail q
        | too_deep ↦ fail q
        | quote ↦ (parse_string q).1
        | other c ↦ (parse_value_scalar c q).1
        | brace ↦
            if starts b'}' inner.rest
            then leave (step_on inner)
            else leave (skip_members unique fuel inner.escapes [] inner)
        | bracket ↦
            if starts b']' inner.rest
            then leave (step_on inner)
            else leave (skip_elements unique fuel inner)
      ]

  -- The loop of `skip_array`.
  pub skip_elements : Bool → ℕ → Parser → Parser
  skip_elements unique zero p = fail p
  skip_elements unique (suc fuel) p =
      let q = ws (skip_value unique fuel p) in
      let more = skip_elements unique fuel (step_on q) in
      if not p.ok
      then p
      else if starts b',' q.rest
      then more
      else if starts b']' q.rest
      then step_on q
      else fail q

  -- The loop of `skip_object`; `ks` are its keys so far.
  pub skip_members : Bool → ℕ → ℕ → List Bytes → Parser → Parser
  skip_members unique zero before ks p = fail p
  skip_members unique (suc fuel) before ks p =
      let q = ws p in
      let (key, q') = parse_string q in
      let r = ws q' in
      let t = ws (skip_value unique fuel (step_on r)) in
      let more = skip_members unique fuel before (ks ++ key ∷ []) (step_on t) in
      if not p.ok
      then p
      else if not (starts b'"' q.rest)
      then fail q
      else if not (starts b':' r.rest)
      then fail r
      else if starts b',' t.rest
      then more
      else if starts b'}' t.rest
      then close_keys unique before (ks ++ key ∷ []) (step_on t)
      else fail t

-- `is_opaque(key) ? parse_opaque() : parse_value()`, with the two parsers of a value.
unfoldable pub member_value :
    Config → Bytes → (Parser → Value × Parser) → (Parser → Parser) → Parser → Value × Parser
member_value cfg key built skipped p =
    let q = ws p in
    if not (is_in key cfg.opaque)
    then built p
    else if not (starts b'{' q.rest || starts b'[' q.rest)
    then built q
    else span_value q (skipped q)

unfoldable mutual
  pub parse_value : Config → ℕ → Parser → Value × Parser
  parse_value cfg zero p = (null, fail p)
  parse_value cfg (suc fuel) p =
      let q = ws (counted p) in
      let inner = enter q in
      elim (front q) [
        | too_many ↦ (null, fail (counted p))
        | ends ↦ (null, fail q)
        | too_deep ↦ (null, fail q)
        | quote ↦ string_value (parse_string q)
        | other c ↦ parse_value_scalar c q
        | brace ↦
            if starts b'}' inner.rest
            then object_value q (no_members, step_on inner)
            else object_value q (parse_members cfg fuel inner.escapes [] inner)
        | bracket ↦
            if starts b']' inner.rest
            then array_value q (no_values, step_on inner)
            else array_value q (parse_elements cfg fuel inner)
      ]

  -- The loop of `parse_array`.
  pub parse_elements : Config → ℕ → Parser → Values × Parser
  parse_elements cfg zero p = (no_values, fail p)
  parse_elements cfg (suc fuel) p =
      let (v, p') = parse_value cfg fuel p in
      let q = ws p' in
      let (more, r) = parse_elements cfg fuel (step_on q) in
      if is_empty p.rest
      then (no_values, fail p)
      else if starts b',' q.rest
      then (element v more, r)
      else if starts b']' q.rest
      then (element v no_values, step_on q)
      else (element v no_values, fail q)

  -- The loop of `parse_object`.
  pub parse_members : Config → ℕ → ℕ → List Bytes → Parser → Members × Parser
  parse_members cfg zero before ks p = (no_members, fail p)
  parse_members cfg (suc fuel) before ks p =
      let q = ws p in
      let (key, q') = parse_string q in
      let r = ws q' in
      let (v, p') =
        member_value cfg key (parse_value cfg fuel) (skip_value cfg.unique fuel) (step_on r) in
      let t = ws p' in
      let (more, u) = parse_members cfg fuel before (ks ++ key ∷ []) (step_on t) in
      if not (starts b'"' q.rest)
      then (no_members, fail q)
      else if not (starts b':' r.rest)
      then (no_members, fail r)
      else if starts b',' t.rest
      then (member key v more, u)
      else if starts b'}' t.rest
      then (member key v no_members, close_keys cfg.unique before (ks ++ key ∷ []) (step_on t))
      else (member key v no_members, fail t)

abbrev pub start : Bytes → Parser
start text = record { rest = text; nodes = 0; ok = true; escapes = 0; depth = 0 }

-- The value, and `ok`.
unfoldable pub parse : Config → Bytes → Value × Bool
parse cfg text =
    let (v, p) = parse_value cfg (2 * length text + 1) (start text) in
    let q = ws p in (v, q.ok && is_empty q.rest)
