-- ===== src/Gateway/Splice.antt =====
-- `MemberSplice` (gateway/src/request.hpp, gateway/src/splice.cpp): the members spliced into a body
-- that is forwarded as it arrives.
pub mod Plain
use llmbridge.Base.{
  ℕ, ◌+◌, ◌≡◌, refl, ap, sym, ◌∙◌, Bool, true, false, not, ◌&&◌, ◌||◌, List, [], ◌∷◌, ◌++◌,
  if◌then◌else◌, ltb, ◌==◌, length, length-append, Bool-cases, inl, inr, arith,
}
use llmbridge.Base.Bytes.{Bytes, codes, is_empty}

pub record MemberSplice : Type 0 where
  pub service_tier : Bytes
  pub speed : Bytes
  pub inference_geo : Bytes

-- `kMemberKeys` and `values`, side by side.
abbrev pub entries : MemberSplice → List (Bytes × Bytes)
entries m =
    (codes "service_tier", m.service_tier)
    ∷ (codes "speed", m.speed)
    ∷ (codes "inference_geo", m.inference_geo)
    ∷ []

-- The bits of the members set; `|` of different bits is their sum.
unfoldable pub mask : MemberSplice → ℕ
unfolding is_empty
mask m =
    (if is_empty m.service_tier then 0 else 1)
    + ((if is_empty m.speed then 0 else 2) + (if is_empty m.inference_geo then 0 else 4))

unfoldable pub grow_loop : List (Bytes × Bytes) → ℕ
grow_loop [] = 0
grow_loop ((k, v) ∷ es) = (if is_empty v then 0 else length k + length v + 6) + grow_loop es

unfoldable pub grow : MemberSplice → ℕ
grow m = grow_loop (entries m)

abbrev pub member_text : Bool → Bytes → Bytes → Bytes
member_text first k v =
    (if first then codes "\"" else codes ",\"") ++ (k ++ (codes "\":\"" ++ (v ++ codes "\"")))

unfoldable pub append_loop : Bytes → Bool → List (Bytes × Bytes) → Bytes
append_loop out first [] = out
append_loop out first ((k, v) ∷ es) =
    let skipped = append_loop out first es in
    let appended = append_loop (out ++ member_text first k v) false es in
    if is_empty v then skipped else appended

unfoldable pub append_members : Bytes → MemberSplice → Bytes
append_members out m = append_loop out true (entries m)

-- One value of `plain`.
unfoldable pub plain_value : Bytes → Bool
plain_value [] = true
plain_value (u ∷ s) = not (ltb u 0x20 || u == 0x7F || u == b'"' || u == b'\\') && plain_value s

unfoldable pub plain : MemberSplice → Bool
plain m = plain_value m.service_tier && plain_value m.speed && plain_value m.inference_geo

-- Whether a member is set.
unfoldable pub any_set : List (Bytes × Bytes) → Bool
any_set [] = false
any_set ((k, v) ∷ es) = not (is_empty v) || any_set es

length-member_text :
    (first : Bool) (k v : Bytes)
    → length (member_text first k v) ≡ length k + length v + (if first then 5 else 6)
length-member_text first k v =
    let a = length-append k (codes "\":\"" ++ (v ++ codes "\"")) in
    let b = length-append v (codes "\"") in ground (arith, a, b)

length-append_loop :
    (out : Bytes) (first : Bool) (es : List (Bytes × Bytes))
    → length (append_loop out first es) + (if first && any_set es then 1 else 0)
      ≡ length out + grow_loop es
unfolding append_loop grow_loop any_set
length-append_loop out first [] = ground arith
length-append_loop out first ((k, v) ∷ es) =
    let a = length-append_loop out first es in
    let b = length-append_loop (out ++ member_text first k v) false es in
    let c = length-append out (member_text first k v) in
    let d = length-member_text first k v in ground (arith, a, b, c, d)

-- The members that `append_members` writes are as long as `grow` announces, less one byte for the
-- separator behind them, which `Splice::append` adds where a member is set.
pub length-append_members :
    (out : Bytes) (m : MemberSplice)
    → length (append_members out m) + (if any_set (entries m) then 1 else 0) ≡ length out + grow m
unfolding append_members grow
length-append_members out m = length-append_loop out true (entries m)
