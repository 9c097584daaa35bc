-- ===== src/Gateway/Witnesses.antt =====
-- The theorems on the gateway's connections at inputs that meet their hypotheses.
use llmbridge.Gateway.Registry.{Registry, no_slot, holds, add, remove}
use llmbridge.Gateway.Registry.Slots.{IsIndexed, add-IsIndexed, remove-IsIndexed}
use llmbridge.Base.{if◌then◌else◌, ◌==◌, false, ◌↔◌, ◌≡◌, refl, [], ◌∷◌, ◌++◌, true, length, arith}
use llmbridge.Base.{ℕ, ◌+◌}
use llmbridge.Base.Bytes.{codes, is_empty}
use llmbridge.Provider.Json.Tokens.{Parser, parse_string}
use llmbridge.Provider.Json.Parse.{start}
use llmbridge.Gateway.Splice.{
  MemberSplice, entries, mask, grow, any_set, append_loop, append_members, plain_value, plain,
  length-append_members,
}
use llmbridge.Gateway.Splice.Plain.{parse_string-plain_value}
use llmbridge.Gateway.OutBuf.{OutBuf, new_buf, stage, wire, pin, sent, idle, unsent, take_all}
use llmbridge.Gateway.OutBuf.Queue.{
  Trace, fresh, staging, pinning, sending, taking, left, Trace-IsValid, Trace-staged, pending,
  unsent-pending, send_all, take_all-send_all,
}

abbrev owing : OutBuf
owing = stage (pin (stage new_buf (codes "abc"))) (codes "de")

Trace-owing : Trace owing (codes "abcde") []
Trace-owing = staging (codes "de") (pinning (staging (codes "abc") fresh))

Trace-sent : Trace (sent owing 2) (codes "abcde") (codes "ab")
unfolding stage pin sent wire
Trace-sent = sending 2 (omega arith) Trace-owing

-- A send in flight, more bytes staged behind it, and all taken for a resend.
abbrev in_flight : OutBuf
in_flight = stage (pin (sent owing 2)) (codes "fg")

Trace-taken : Trace (take_all in_flight).1 (codes "ab" ++ left in_flight) (codes "ab")
Trace-taken = taking (staging (codes "fg") (pinning Trace-sent))

Trace-staged_example : codes "ab" ++ pending (take_all in_flight).1 ≡ codes "ab" ++ left in_flight
Trace-staged_example = Trace-staged Trace-taken

left_in_flight : left in_flight ≡ codes "cde"
unfolding stage pin sent wire is_empty
left_in_flight = refl

unsent-pending_example :
    (unsent owing ≡ length (pending owing)) × ((idle owing ≡ true) ↔ (pending owing ≡ []))
unsent-pending_example = unsent-pending owing (Trace-IsValid Trace-owing)

abbrev request : OutBuf
request = record new_buf { front = codes "GET /" }

take_all-send_all_example : (take_all (send_all request (2 ∷ 3 ∷ []))).0 ≡ (take_all request).0
take_all-send_all_example = take_all-send_all (2 ∷ 3 ∷ []) request refl

abbrev two_held : Registry
two_held = record {
  items = 7 ∷ 9 ∷ [];
  slot = λ q. if q == 7 then 0 else if q == 9 then 1 else no_slot;
}

five_not_held : holds two_held 5 ≡ false
unfolding holds
five_not_held = refl

add-IsIndexed_example :
    IsIndexed (add two_held 5)
    × (holds (add two_held 5) 5 ≡ true)
    × ((q : ℕ) → (q == 5) ≡ false → holds (add two_held 5) q ≡ holds two_held q)
add-IsIndexed_example = add-IsIndexed two_held 5 (refl, (refl, tt)) (omega arith) five_not_held

remove-IsIndexed_example :
    IsIndexed (remove two_held 7)
    × (holds (remove two_held 7) 7 ≡ false)
    × ((q : ℕ) → (q == 7) ≡ false → holds (remove two_held 7) q ≡ holds two_held q)
remove-IsIndexed_example = remove-IsIndexed two_held 7 (refl, (refl, tt)) (omega arith)

abbrev flex : MemberSplice
flex = record { service_tier = codes "flex"; speed = []; inference_geo = codes "us" }

length-append_members_example :
    length (append_members (codes "{") flex) + (if any_set (entries flex) then 1 else 0)
    ≡ length (codes "{") + grow flex
length-append_members_example = length-append_members (codes "{") flex

abbrev at_flex : Parser
at_flex = start (codes "\"flex\",")

parse_string-plain_value_example :
    parse_string at_flex ≡ (codes "flex", record at_flex { rest = codes "," })
unfolding plain_value
parse_string-plain_value_example =
    parse_string-plain_value (codes "flex") (codes ",") at_flex refl refl

flex_appended :
    append_members (codes "{") flex ≡ codes "{\"service_tier\":\"flex\",\"inference_geo\":\"us\""
unfolding append_members append_loop is_empty
flex_appended = refl

flex_allowed : plain flex ≡ true
unfolding plain plain_value
flex_allowed = refl

flex_bits : mask flex ≡ 5
unfolding mask is_empty
flex_bits = refl
