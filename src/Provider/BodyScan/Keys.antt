-- ===== src/Provider/BodyScan/Keys.antt =====
-- `value_done` and `key_done` of provider/src/body_scan.cpp.
use Prim.Native.Nat.{bit_and, bit_or}
use llmbridge.Base.{
  ℕ, ◌-◌, ◌%◌, ◌^◌, Bool, true, false, not, ◌&&◌, ◌||◌, List, [], ◌∷◌, ◌++◌, none, some, ◌==◌,
  if◌then◌else◌, length,
}
use llmbridge.Base.Bytes.{Bytes, codes, same, slice, find_byte}
use llmbridge.Provider.BodyScan.{
  BodyScan, St, end, obj_next, arr_next, Span, Stepped, refuse_with, ◌>>=◌, size_max, max_keys,
  bit_at,
}

unfoldable pub member_bit : Bytes → ℕ
unfolding same
member_bit k =
    if same k (codes "service_tier")
    then 1
    else if same k (codes "speed")
    then 2
    else if same k (codes "inference_geo")
    then 4
    else 0

-- The tracked model closed.
abbrev close_model : BodyScan → ℕ → BodyScan
close_model s e =
    if s.model_open && s.depth == 1
    then record s { model_open = false; model_end = e; hold = size_max }
    else s

-- A member that the mask names closed.
abbrev close_member : BodyScan → ℕ → BodyScan
close_member s e =
    if s.member_open && s.depth == 1
    then record s {
      member_open = false;
      found =
          s.found
          ++ record { at = s.member_at; value_at = s.member_value; end = e; bit = s.member_bit }
            ∷ [];
      hold = size_max;
    }
    else s

abbrev close_root : BodyScan → BodyScan
close_root s = if s.depth == 0 && not (s.members == 0) then record s { hold = size_max } else s

abbrev next_state : BodyScan → St
next_state s =
    if s.depth == 0 then end else if bit_at s.kinds (s.depth - 1) then obj_next else arr_next

unfoldable pub value_done : BodyScan → ℕ → Stepped
value_done s e =
    let closed = close_root (close_member (close_model s e) e) in
    (record closed { st = next_state closed }, true)

-- With `members`: whether the key at depth one is one of them.
unfoldable pub key_member : BodyScan → Bytes → Stepped
unfolding member_bit
key_member s k =
    if s.depth == 1 && not (s.members == 0)
    then (let bit = bit_and (member_bit k) s.members in
        let told = record s { has_member = true } in
        if bit == 0
        then (record told { hold = size_max }, true)
        else if not (bit_and s.members_seen bit == 0)
        then refuse_with told "repeated top-level key"
        else (
          record told {
            members_seen = bit_or s.members_seen bit;
            member_bit = bit;
            member_at = s.hold;
            member_next = true;
          },
          true,
        ))
    else (record s { hold = size_max }, true)

unfoldable pub key_model : BodyScan → Bytes → Stepped
unfolding same
key_model s k =
    if s.depth == 1 && same k (codes "model")
    then (if s.model_seen
        then refuse_with s "repeated top-level key"
        else (record s { model_seen = true; model_next = s.track_model }, true))
    else (s, true)

-- Some key told before has the bytes of `k`.
unfoldable pub repeats : Bytes → Bytes → List Span → Bool
unfolding same
repeats body k [] = false
repeats body k (p ∷ ps) = same (slice p.at p.len body) k || repeats body k ps

abbrev pub span_of : BodyScan → Bytes → Span
span_of s k = record { at = s.str % 2 ^ 32; len = length k % 2 ^ 32 }

unfoldable pub key_set : BodyScan → Bytes → Bytes → Stepped
unfolding repeats same
key_set s body k =
    let set = if s.depth == 1 then s.top else s.options in
    if not s.all_keys
    then (s, true)
    else if length set == max_keys
    then refuse_with s "too many top-level keys"
    else if repeats body k set
    then refuse_with s "repeated top-level key"
    else if s.depth == 1
    then (
      record s { top = s.top ++ span_of s k ∷ []; options_next = same k (codes "stream_options") },
      true,
    )
    else (record s { options = s.options ++ span_of s k ∷ [] }, true)

abbrev has_backslash : Bytes → Bool
has_backslash k = elim (find_byte b'\\' k) [ none ↦ false | some _ ↦ true ]

-- A key closed at `e`.
unfoldable pub key_done : BodyScan → Bytes → ℕ → Stepped
unfolding key_member key_model key_set find_byte
key_done s body e =
    let k = slice s.str (e - s.str) body in
    let closed = record s { key = false } in
    if not s.tracked
    then (closed, true)
    else if has_backslash k
    then refuse_with closed "escaped top-level key"
    else do a ← key_member closed k; b ← key_model a k; key_set b body k
