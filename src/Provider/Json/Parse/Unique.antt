-- ===== src/Provider/Json/Parse/Unique.antt =====
-- Under `Keys::Unique`, no object of an accepted document names a key twice: the values.
use mathlib.Core.List.{map}
use llmbridge.Base.{
  ℕ, suc, ◌≤◌, ◌≡◌, refl, ap, sym, ◌∙◌, Bool, true, false, not, ◌&&◌, ◌||◌, List, [], ◌∷◌, ◌++◌,
  if◌then◌else◌, Bool-cases, inl, inr, ◌==◌, arith,
}
use llmbridge.Base.Bytes.{Bytes, is_empty}
use llmbridge.Provider.Json.Escape.{unescape_string}
use llmbridge.Provider.Json.Tokens.{
  Parser, Value, Values, Members, array, object, no_values, element, no_members, member, fail, ws,
  starts, between, parse_value_scalar, parse_bool, parse_null, parse_number,
}
use llmbridge.Provider.Json.Keys.{has_backslash, any_backslash}
use llmbridge.Provider.Json.Keys.Sorted.{distinct}
use llmbridge.Provider.Json.Keys.Distinct.{keys_fresh-distinct}
use llmbridge.Provider.Json.Parse.{
  Config, Front, too_many, ends, too_deep, quote, brace, bracket, other, counted, enter, close_keys,
  step_on, member_value, parse_value, parse_elements, parse_members,
}
use llmbridge.Provider.Json.Parse.Same.{IsStrict, ws-IsStrict}
use llmbridge.Provider.Json.Parse.Agree.{strict}
use llmbridge.Provider.Json.Parse.Cases.{built_cases}

unfoldable pub keys_of : Members → List Bytes
keys_of no_members = []
keys_of (member key v ms) = key ∷ keys_of ms

-- In every object of the value, the keys are distinct as the strings that they decode to.
unfoldable mutual
  pub all_unique : Value → Bool
  all_unique (array sv vs) = values_unique vs
  all_unique (object sv ms) = distinct (map unescape_string (keys_of ms)) && members_unique ms
  all_unique _ = true

  pub values_unique : Values → Bool
  values_unique no_values = true
  values_unique (element v vs) = all_unique v && values_unique vs

  pub members_unique : Members → Bool
  members_unique no_members = true
  members_unique (member key v ms) = all_unique v && members_unique ms

values_unique-element :
    (v : Value) (vs : Values) → values_unique (element v vs) ≡ (all_unique v && values_unique vs)
unfolding all_unique
values_unique-element v vs = refl

pub values_unique-nil : values_unique no_values ≡ true
unfolding all_unique
values_unique-nil = refl

pub members_unique-member :
    (key : Bytes) (v : Value) (ms : Members)
    → members_unique (member key v ms) ≡ (all_unique v && members_unique ms)
unfolding all_unique
members_unique-member key v ms = refl

pub members_unique-nil : members_unique no_members ≡ true
unfolding all_unique
members_unique-nil = refl

-- A parser that has not failed had not failed before the step.
pub ok_before : (k : Parser → Parser) (p : Parser) → IsStrict k → (k p).ok ≡ true → p.ok ≡ true
ok_before k p s h = elim (Bool-cases p.ok) [ inl e ↦ e | inr e ↦ cc (h, s p e) ]

pub any_backslash-append :
    (ks : List Bytes) (k : Bytes)
    → any_backslash (ks ++ k ∷ []) ≡ (any_backslash ks || has_backslash k)
unfolding any_backslash
any_backslash-append [] k = ground arith
any_backslash-append (l ∷ ks) k = ground (arith, any_backslash-append ks k)

pub record AreUnique (cfg : Config) (fuel : ℕ) : Type 0 where
  pub value :
      (p : Parser)
      → (parse_value cfg fuel p).1.ok ≡ true
      → all_unique (parse_value cfg fuel p).0 ≡ true
  pub elements :
      (p : Parser)
      → (parse_elements cfg fuel p).1.ok ≡ true
      → values_unique (parse_elements cfg fuel p).0 ≡ true
  pub members :
      (before : ℕ) (ks : List Bytes) (p : Parser)
      → before ≤ p.escapes
      → (any_backslash ks && p.escapes == before) ≡ false
      → (parse_members cfg fuel before ks p).1.ok ≡ true
      → (distinct (map unescape_string (ks ++ keys_of (parse_members cfg fuel before ks p).0))
          && members_unique (parse_members cfg fuel before ks p).0)
        ≡ true

scalar_unique : (c : ℕ) (p : Parser) → all_unique (parse_value_scalar c p).0 ≡ true
unfolding parse_value_scalar parse_bool parse_null parse_number all_unique
scalar_unique c p = ground arith

pub closed_unique :
    (unique : Bool) (before : ℕ) (ks : List Bytes) (p : Parser)
    → unique ≡ true
    → (any_backslash ks && p.escapes == before) ≡ false
    → (close_keys unique before ks p).ok ≡ true
    → distinct (map unescape_string ks) ≡ true
unfolding close_keys
closed_unique unique before ks p u b h =
    let told : (any_backslash ks && not (not (p.escapes == before))) ≡ false = ground (arith, b) in
    let e = keys_fresh-distinct (not (p.escapes == before)) ks told in ground (arith, u, e, h)

pub built_unique :
    (cfg : Config) (fuel : ℕ) (p : Parser) (fr : Front)
    → AreUnique cfg fuel
    → (built_cases cfg fuel p fr).1.ok ≡ true
    → all_unique (built_cases cfg fuel p fr).0 ≡ true
unfolding built_cases all_unique
built_unique cfg fuel p too_many ih h = refl
built_unique cfg fuel p ends ih h = refl
built_unique cfg fuel p too_deep ih h = refl
built_unique cfg fuel p quote ih h = refl
built_unique cfg fuel p (other c) ih h = scalar_unique c (ws (counted p))
built_unique cfg fuel p brace ih h =
    let inner = enter (ws (counted p)) in
    let nothing : (any_backslash [] && inner.escapes == inner.escapes) ≡ false =
      unfold any_backslash in refl in
    let m = ih.members inner.escapes [] inner (omega arith) nothing in
    let empty : distinct (map unescape_string (keys_of no_members)) ≡ true =
      unfold distinct keys_of in refl in
    ground (arith, h, m, empty)
built_unique cfg fuel p bracket ih h =
    let inner = enter (ws (counted p)) in let m = ih.elements inner in ground (arith, h, m)

span_unique : (x : Bytes) → all_unique (object x no_members) ≡ true
unfolding all_unique distinct keys_of
span_unique x = refl

span_unique_array : (x : Bytes) → all_unique (array x no_values) ≡ true
unfolding all_unique
span_unique_array x = refl

pub member_value_unique :
    (cfg : Config) (key : Bytes) (built : Parser → Value × Parser) (skipped : Parser → Parser)
    (p : Parser)
    → ((q : Parser) → (built q).1.ok ≡ true → all_unique (built q).0 ≡ true)
    → (member_value cfg key built skipped p).1.ok ≡ true
    → all_unique (member_value cfg key built skipped p).0 ≡ true
unfolding member_value
member_value_unique cfg key built skipped p ih h =
    let a = ih p in
    let b = ih (ws p) in
    let x = between (ws p).rest (skipped (ws p)).rest in
    let o = span_unique x in let l = span_unique_array x in ground (arith, h, a, b, o, l)

unfoldable pub elements_result : Parser → Parser → Value → Values × Parser → Values × Parser
elements_result p q v m =
    if is_empty p.rest
    then (no_values, fail p)
    else if starts b',' q.rest
    then (element v m.0, m.1)
    else if starts b']' q.rest
    then (element v no_values, step_on q)
    else (element v no_values, fail q)

-- A round of the elements, on what its calls returned.
element_unique :
    (p q : Parser) (v : Value) (m : Values × Parser)
    → (q.ok ≡ true → all_unique v ≡ true)
    → (m.1.ok ≡ true → q.ok ≡ true)
    → (m.1.ok ≡ true → values_unique m.0 ≡ true)
    → (elements_result p q v m).1.ok ≡ true
    → values_unique (elements_result p q v m).0 ≡ true
unfolding elements_result
element_unique p q v m a w b h =
    let one = values_unique-element v no_values in
    let more = values_unique-element v m.0 in
    let none = values_unique-nil in ground (arith, a, w, b, h, one, more, none)

pub elements_unique :
    (cfg : Config) (fuel : ℕ) (p : Parser)
    → AreUnique cfg fuel
    → (parse_elements cfg (suc fuel) p).1.ok ≡ true
    → values_unique (parse_elements cfg (suc fuel) p).0 ≡ true
elements_unique cfg fuel p ih h =
    let v = parse_value cfg fuel p in
    let q = ws v.1 in
    let m = parse_elements cfg fuel (step_on q) in
    let e : parse_elements cfg (suc fuel) p ≡ elements_result p q v.0 m =
      unfold parse_value elements_result in refl in
    let a = λ (k : q.ok ≡ true). ih.value p (ok_before ws v.1 ws-IsStrict k) in
    let w =
      ok_before (λ r. (parse_elements cfg fuel r).1) (step_on q)
        (strict cfg fuel).parsed_elements in
    let b = ih.elements (step_on q) in
    let r = element_unique p q v.0 m a w b (ap (λ x. x.1.ok) (sym e) ∙ h) in
    ap (λ x. values_unique x.0) e ∙ r
