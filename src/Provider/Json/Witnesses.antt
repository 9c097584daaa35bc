-- ===== src/Provider/Json/Witnesses.antt =====
-- The theorems on JSON documents at inputs that meet their hypotheses, and runs of the parser.
use mathlib.Core.List.{map}
use llmbridge.Base.{
  ◌+◌, ◌*◌, ◌≡◌, ◌≤◌, refl, ap, true, false, some, List, [], ◌∷◌, ◌++◌, length, arith,
}
use llmbridge.Base.Bytes.{Bytes, codes, find_byte, same, is_empty}
use llmbridge.Provider.Json.Escape.{append_escaped, unescape_string}
use llmbridge.Provider.Json.Tokens.{
  Parser, number, string, array, object, no_values, element, no_members, member, ws, max_depth,
  parse_string, scan_string, parse_value_scalar, parse_bool, parse_number, number_end,
}
use llmbridge.Provider.Json.Tokens.Strings.{escapes_of, parse_string-append_escaped}
use llmbridge.Provider.Json.Keys.{
  keys_fresh, no_bit_twice, key_bit, is_in, keys_unique, any_backslash, has_backslash, no_adjacent,
  sort, insert_sorted, text_le,
}
use llmbridge.Provider.Json.Keys.Sorted.{distinct}
use llmbridge.Provider.Json.Keys.Distinct.{keys_fresh-distinct}
use llmbridge.Provider.Json.Parse.{
  Config, parse, parse_value, skip_value, front, enter, member_value, close_keys, start,
}
use llmbridge.Provider.Json.Parse.Same.{final}
use llmbridge.Provider.Json.Parse.Agree.{skip_value-parse_value, parse-opaque}
use llmbridge.Provider.Json.Parse.Enough.{parse_value-enough}
use llmbridge.Provider.Json.Parse.Unique.{all_unique}
use llmbridge.Provider.Json.Parse.UniqueMembers.{parse-all_unique}
use llmbridge.Provider.Json.Lookup.{find, find_member, str_or, here, there, find-parse}
use llmbridge.Provider.Json.Parse.Depth.{depth_of, depth_of-parse}

abbrev strict : Config
strict = record { unique = true; opaque = codes "raw" ∷ [] }

abbrev nested : Bytes
nested = codes " {\"a\" : [1, -2.5e+3], \"raw\": {\"k\": [true]}}"

nested_parsed : parse strict nested ≡ (
  object (codes "{\"a\" : [1, -2.5e+3], \"raw\": {\"k\": [true]}}") (
      member
        (codes "a")
        (array
          (codes "[1, -2.5e+3]")
          (element (number (codes "1")) (element (number (codes "-2.5e+3")) no_values)))
        (member (codes "raw") (object (codes "{\"k\": [true]}") no_members) no_members)),
  true,
)
unfolding parse parse_value skip_value front enter ws parse_string scan_string parse_value_scalar
    parse_bool parse_number number_end member_value close_keys keys_fresh no_bit_twice key_bit is_in
    same is_empty
nested_parsed = refl

nested_accepted : (parse strict nested).1 ≡ true
unfolding parse parse_value skip_value front enter ws parse_string scan_string parse_value_scalar
    parse_bool parse_number number_end member_value close_keys keys_fresh no_bit_twice key_bit is_in
    same is_empty
nested_accepted = refl

repeat_refused_in_document : (parse strict (codes "{\"a\":1,\"\\u0061\":2}")).1 ≡ false
unfolding parse parse_value skip_value front enter ws parse_string scan_string parse_value_scalar
    parse_bool parse_number number_end member_value close_keys keys_fresh no_bit_twice key_bit is_in
    same keys_unique any_backslash has_backslash find_byte no_adjacent sort insert_sorted text_le
    unescape_string is_empty
repeat_refused_in_document = refl

skip_value-parse_value_example :
    final (skip_value true 99 (start nested)) ≡ final (parse_value strict 99 (start nested)).1
skip_value-parse_value_example = skip_value-parse_value strict 99 (start nested)

parse-opaque_example :
    (parse (record { unique = true; opaque = [] }) nested).1
    ≡ (parse (record { unique = true; opaque = codes "a" ∷ codes "raw" ∷ [] }) nested).1
parse-opaque_example = parse-opaque true [] (codes "a" ∷ codes "raw" ∷ []) nested

parse_value-enough_example :
    parse_value strict 200 (start nested)
    ≡ parse_value strict (2 * length nested + 1) (start nested)
parse_value-enough_example = parse_value-enough strict 200 (start nested) (omega arith)

depth_of-parse_example : depth_of (parse strict nested).0 ≤ max_depth
depth_of-parse_example = depth_of-parse strict nested

abbrev two_keys : List Bytes
two_keys = codes "a" ∷ codes "\\u0061" ∷ []

keys_fresh-distinct_example : keys_fresh true two_keys ≡ distinct (map unescape_string two_keys)
unfolding any_backslash has_backslash find_byte
keys_fresh-distinct_example = keys_fresh-distinct true two_keys refl

abbrev quoted : Bytes
quoted = codes "say \"hi\"\n"

abbrev at_quoted : Parser
at_quoted = start (append_escaped [] quoted ++ codes ", 1]")

parse_string-append_escaped_example :
    (unescape_string (parse_string at_quoted).0 ≡ quoted)
    × ((parse_string at_quoted).1
        ≡ record at_quoted { rest = codes ", 1]"; escapes = 0 + escapes_of quoted })
parse_string-append_escaped_example =
    parse_string-append_escaped quoted (codes ", 1]") at_quoted refl

parse-all_unique_example :
    all_unique (parse (record { unique = true; opaque = codes "raw" ∷ [] }) nested).0 ≡ true
parse-all_unique_example = parse-all_unique (codes "raw" ∷ []) nested nested_accepted

find-parse_example :
    find (codes "raw") (parse (record { unique = true; opaque = codes "raw" ∷ [] }) nested).0
    ≡ some (object (codes "{\"k\": [true]}") no_members)
find-parse_example =
    find-parse (codes "raw" ∷ []) nested (codes "{\"a\" : [1, -2.5e+3], \"raw\": {\"k\": [true]}}")
      (codes "raw")
      (member (codes "a")
        (array (codes "[1, -2.5e+3]")
          (element (number (codes "1")) (element (number (codes "-2.5e+3")) no_values)))
        (member (codes "raw") (object (codes "{\"k\": [true]}") no_members) no_members))
      (object (codes "{\"k\": [true]}") no_members) nested_accepted (ap (λ r. r.0) nested_parsed)
      (there here)

name_read :
    str_or (codes "a") [] (object [] (member (codes "a") (string (codes "x")) no_members))
    ≡ codes "x"
unfolding str_or find find_member same
name_read = refl
