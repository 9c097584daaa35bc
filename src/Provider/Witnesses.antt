-- ===== src/Provider/Witnesses.antt =====
-- The theorems on the provider's scanners at inputs that meet their hypotheses, and their runs.
use mathlib.Core.List.{flatten}
use llmbridge.Base.{◌<◌, ◌≤◌, ◌≡◌, refl, Bool, true, some, List, [], ◌∷◌, ◌++◌, length, arith}
use llmbridge.Base.Bytes.{Bytes, codes, find_byte}
use llmbridge.Provider.JsonScan.{
  prefix, skip_ws, backslashes, close_loop, string_close, container_loop, skip_value, read_member,
  members_loop, for_each_member,
}
use llmbridge.Http.Write.{append_decimal}
use llmbridge.Provider.JsonScan.{count}
use llmbridge.Provider.JsonScan.Digits.{count-append_decimal}
use llmbridge.Provider.JsonScan.Scans.{back_ws, key_value_at, picodollars}
use llmbridge.Provider.JsonScan.Bounds.{skip_value-within}
use llmbridge.Provider.JsonScan.Rounds.{members_loop-enough}
use llmbridge.Provider.BodyScan.{BodyScan, reset, done}
use llmbridge.Provider.BodyScan.Keys.{value_done, key_done}
use llmbridge.Provider.BodyScan.Bytewise.{
  byte_step, token_step, number_step, literal_step, close_container, open_container, value_opens,
  value_step, key_step,
}
use llmbridge.Provider.BodyScan.Feed.{
  str_run, str_end, str_step, step, scan_loop, finish, refuse, feed,
}
use llmbridge.Provider.BodyScan.Feed.Rounds.{feed_bytewise, feed-feed_bytewise}
use llmbridge.Provider.BodyScan.Moved.{at_pos}
use llmbridge.Provider.BodyScan.Resume.{feed_parts, feed_parts-flatten}

abbrev body : Bytes
body = codes "{\"model\":\"a\\n\", \"n\": [-1.5e2, null]}"

abbrev first_scan : BodyScan
first_scan = reset true true 0

whole_done : (feed first_scan body true).verdict ≡ done
unfolding feed reset byte_step token_step number_step literal_step close_container open_container
    value_opens value_step key_step value_done key_done str_run str_end str_step step scan_loop
    finish
whole_done = refl

model_found : (feed first_scan body true).model_end ≡ 14
unfolding feed reset byte_step token_step number_step literal_step close_container open_container
    value_opens value_step key_step value_done key_done str_run str_end str_step step scan_loop
    finish
model_found = refl

repeat_refused :
    (feed first_scan (codes "{\"a\":1,\"a\":2}") true).why ≡ some "repeated top-level key"
unfolding feed reset byte_step token_step number_step literal_step close_container open_container
    value_opens value_step key_step value_done key_done str_run str_end str_step step scan_loop
    finish refuse
repeat_refused = refl

feed-feed_bytewise_example : feed first_scan body true ≡ feed_bytewise first_scan body true
feed-feed_bytewise_example = feed-feed_bytewise first_scan body true

abbrev parts : List Bytes
parts = codes "{\"a\\" ∷ codes "\"\":1" ∷ []

feed_parts-flatten_example :
    at_pos 0 (feed_parts (reset true true 1) [] parts (codes "2}"))
    ≡ at_pos 0 (feed (reset true true 1) (flatten parts ++ codes "2}") true)
feed_parts-flatten_example = feed_parts-flatten true true 1 parts (codes "2}")

abbrev array : Bytes
array = codes "[1,\"]\"]x"

array_skipped : skip_value array 0 ≡ some 7
unfolding skip_value string_close close_loop container_loop backslashes find_byte prefix
array_skipped = refl

skip_value-within_example : (0 < 7) × (7 ≤ length array)
skip_value-within_example = skip_value-within array 0 7 array_skipped

-- The keys that a walk has met.
abbrev note_key : List Bytes → Bytes → Bytes → List Bytes × Bool
note_key seen key value = (key ∷ seen, true)

abbrev members : Bytes
members = codes "{\"a\": 1, \"b\": {}}"

walk_done : for_each_member note_key [] members ≡ (codes "b" ∷ codes "a" ∷ [], true)
unfolding for_each_member members_loop read_member skip_ws skip_value string_close close_loop
    container_loop backslashes find_byte prefix
walk_done = refl

members_loop-enough_example :
    members_loop 17 note_key [] members 1 ≡ members_loop 99 note_key [] members 1
members_loop-enough_example =
    members_loop-enough 17 99 note_key [] members 1 (omega arith) (omega arith)

count-append_decimal_example : count (append_decimal [] 1205) ≡ some 1205
count-append_decimal_example = count-append_decimal 1205 (omega arith)

price_read : picodollars (codes "2.68e-05") ≡ some 26800000
unfolding picodollars
price_read = refl

price_plain : picodollars (codes "0.0000268") ≡ some 26800000
unfolding picodollars
price_plain = refl

key_found : key_value_at (codes "{ \"a\" : 5}") 2 3 ≡ some 8
unfolding key_value_at back_ws skip_ws prefix
key_found = refl
