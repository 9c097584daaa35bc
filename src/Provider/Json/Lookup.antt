-- ===== src/Provider/Json/Lookup.antt =====
-- `Value::find`, `str_or` and `num_or` (provider/include/provider/json.hpp).
use mathlib.Core.List.{map}
use llmbridge.Base.{
  ◌≡◌, ap, sym, ◌∙◌, true, List, Option, none, some, if◌then◌else◌, Bool-cases, inl, inr, arith,
}
use llmbridge.Base.Bytes.{Bytes, same}
use llmbridge.Provider.Json.Escape.{unescape_string}
use llmbridge.Provider.Json.Tokens.{Value, number, string, object, Members, no_members, member}
use llmbridge.Provider.Json.Keys.{is_in}
use llmbridge.Provider.Json.Keys.Sorted.{distinct, same_refl, same-eq}
use llmbridge.Provider.Json.Parse.{parse}
use llmbridge.Provider.Json.Parse.Unique.{keys_of, all_unique}
use llmbridge.Provider.Json.Parse.UniqueMembers.{parse-all_unique}

-- The loop of `find`.
unfoldable pub find_member : Bytes → Members → Option Value
find_member key no_members = none
find_member key (member k v ms) = if same k key then some v else find_member key ms

unfoldable pub find : Bytes → Value → Option Value
unfolding find_member
find key (object sv ms) = find_member key ms
find key _ = none

unfoldable pub str_or : Bytes → Bytes → Value → Bytes
unfolding find
str_or key def v = elim (find key v) [ some (string sv) ↦ sv | _ ↦ def ]

unfoldable pub num_or : Bytes → Bytes → Value → Bytes
unfolding find
num_or key def v = elim (find key v) [ some (number sv) ↦ sv | _ ↦ def ]

-- The member with the key `k` and the value `v` is one of them.
pub data IsMember (k : Bytes) (v : Value) : Members → Type 0 where
  here : {ms : Members} → IsMember k v (member k v ms)
  there : {l : Bytes} {w : Value} {ms : Members} → IsMember k v ms → IsMember k v (member l w ms)

is_in-IsMember :
    (k : Bytes) (v : Value) (ms : Members)
    → IsMember k v ms
    → is_in (unescape_string k) (map unescape_string (keys_of ms)) ≡ true
unfolding is_in keys_of
is_in-IsMember k v _ (here {ms}) = ground (arith, same_refl (unescape_string k))
is_in-IsMember k v _ (there {l} {w} {ms} m) = ground (arith, is_in-IsMember k v ms m)

find_member-IsMember :
    (k : Bytes) (v : Value) (ms : Members)
    → distinct (map unescape_string (keys_of ms)) ≡ true
    → IsMember k v ms
    → find_member k ms ≡ some v
unfolding distinct keys_of find_member
find_member-IsMember k v _ d (here {ms}) = ground (arith, same_refl k)
find_member-IsMember k v _ d (there {l} {w} {ms} m) =
    let inside = is_in-IsMember k v ms m in
    elim (Bool-cases (same l k)) [
      | inl e ↦
          let one : is_in (unescape_string l) (map unescape_string (keys_of ms)) ≡ true =
            ap (λ x. is_in (unescape_string x) (map unescape_string (keys_of ms))) (same-eq l k e)
            ∙ inside in
          ground (arith, one, d)
      | inr e ↦ ground (arith, e, d, find_member-IsMember k v ms (ground (arith, d)) m)
    ]

-- In a document that `json::parse` accepts under `Keys::Unique` and that is an object, `find` gives
-- for the key of each member that member's value: no other member hides it.
pub find-parse :
    (opaque : List Bytes) (text sv k : Bytes) (ms : Members) (v : Value)
    → (parse (record { unique = true; opaque = opaque }) text).1 ≡ true
    → (parse (record { unique = true; opaque = opaque }) text).0 ≡ object sv ms
    → IsMember k v ms
    → find k (parse (record { unique = true; opaque = opaque }) text).0 ≡ some v
find-parse opaque text sv k ms v h e m =
    let u : all_unique (object sv ms) ≡ true =
      ap all_unique (sym e) ∙ parse-all_unique opaque text h in
    let d : distinct (map unescape_string (keys_of ms)) ≡ true =
      unfold all_unique in ground (arith, u) in
    ap (find k) e ∙ unfold find in find_member-IsMember k v ms d m
