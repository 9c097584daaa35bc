-- ===== src/Provider/Json/Keys/Distinct.antt =====
-- The test of the keys, with its filter of bits and its sort, against the plain one.
use mathlib.Core.List.{map}
use llmbridge.Base.{
  ℕ, suc, ◌≡◌, refl, ap, sym, ◌∙◌, Bool, true, false, not, ◌&&◌, List, [], ◌∷◌, ◌++◌, append-nil,
  append_assoc, ltb, ◌==◌, Bool-cases, inl, inr, length, arith,
}
use llmbridge.Base.Bytes.{Bytes, same, find_byte}
use llmbridge.Provider.Json.Escape.{unescape_append, unescape_round, unescape_string}
use llmbridge.Provider.Json.Keys.{
  is_in, pairwise, has_backslash, any_backslash, keys_unique, key_bit, Bits, set_bit, no_bit_twice,
  keys_fresh,
}
use llmbridge.Provider.Json.Keys.Sorted.{distinct, same_sym, same-eq, no_adjacent-sort}

-- None of `before` is among `ks`.
apart : List Bytes → List Bytes → Bool
apart before [] = true
apart before (k ∷ ks) = not (is_in k before) && apart before ks

apart-nil : (ks : List Bytes) → apart [] ks ≡ true
unfolding apart is_in
apart-nil [] = refl
apart-nil (k ∷ ks) = ground (arith, apart-nil ks)

apart-cons :
    (k : Bytes) (before ks : List Bytes)
    → apart (k ∷ before) ks ≡ (not (is_in k ks) && apart before ks)
unfolding apart is_in
apart-cons k before [] = refl
apart-cons k before (l ∷ ks) = ground (arith, apart-cons k before ks, same_sym k l)

pairwise_lem : (before ks : List Bytes) → pairwise before ks ≡ (apart before ks && distinct ks)
unfolding pairwise apart distinct
pairwise_lem before [] = refl
pairwise_lem before (k ∷ ks) = ground (arith, pairwise_lem (k ∷ before) ks, apart-cons k before ks)

-- A key whose bit is set among the others refuses them.
bit_clear :
    (seen : Bits) (k : Bytes) (ks : List Bytes)
    → no_bit_twice seen ks ≡ true
    → is_in k ks ≡ true
    → seen (key_bit k) ≡ false
unfolding no_bit_twice is_in
bit_clear seen k [] h i = cc
bit_clear seen k (l ∷ ks) h i = elim (Bool-cases (same k l)) [
  | inl e ↦ let e' = same-eq k l e in rw e' (ground (arith, h))
  | inr e ↦ let ih = bit_clear (set_bit seen (key_bit l)) k ks in ground (arith, h, i, e, ih)
]

distinct-no_bit_twice :
    (seen : Bits) (ks : List Bytes) → no_bit_twice seen ks ≡ true → distinct ks ≡ true
unfolding no_bit_twice distinct
distinct-no_bit_twice seen [] h = refl
distinct-no_bit_twice seen (k ∷ ks) h =
    let after = set_bit seen (key_bit k) in
    let clear = bit_clear after k ks in
    let bit : (key_bit k == key_bit k) ≡ true = ground arith in
    ground (arith, h, distinct-no_bit_twice after ks, clear, bit)

plain_round :
    (out : Bytes) (c : ℕ) (s : Bytes)
    → (c == b'\\') ≡ false
    → unescape_append out 0 (c ∷ s) ≡ unescape_append (out ++ c ∷ []) 0 s
unfolding unescape_append unescape_round
plain_round out c [] h = refl
plain_round out c (e ∷ s) h = ground (arith, h)

unescape_append-plain_bytes :
    (out s : Bytes) → has_backslash s ≡ false → unescape_append out 0 s ≡ out ++ s
unfolding has_backslash find_byte
unescape_append-plain_bytes out [] h = unfold unescape_append in sym (append-nil out)
unescape_append-plain_bytes out (c ∷ s) h =
    let plain : has_backslash s ≡ false = ground (arith, h) in
    let ih = unescape_append-plain_bytes (out ++ c ∷ []) s plain in
    plain_round out c s (ground (arith, h)) ∙ ih ∙ append_assoc out (c ∷ []) s

map-unescape_string-plain :
    (ks : List Bytes) → any_backslash ks ≡ false → map unescape_string ks ≡ ks
unfolding any_backslash unescape_string
map-unescape_string-plain [] h = refl
map-unescape_string-plain (k ∷ ks) h =
    let e = unescape_append-plain_bytes [] k (ground (arith, h)) in
    let ih = map-unescape_string-plain ks (ground (arith, h)) in cc (e, ih)

keys_unique-distinct : (ks : List Bytes) → keys_unique ks ≡ distinct (map unescape_string ks)
unfolding keys_unique
keys_unique-distinct ks = elim (Bool-cases (any_backslash ks)) [
  | inl e ↦ rw e (no_adjacent-sort (map unescape_string ks))
  | inr e ↦
      let plain = map-unescape_string-plain ks e in
      let pairs = pairwise_lem [] ks in
      let sorts = no_adjacent-sort ks in
      let apart = apart-nil ks in rw (e, plain) (ground (arith, pairs, sorts, apart))
]

few : (ks : List Bytes) → ltb (length ks) 2 ≡ true → distinct ks ≡ true
unfolding distinct is_in
few [] h = refl
few (k ∷ []) h = refl
few (k ∷ l ∷ ks) h = ground (arith, h)

length-map : (ks : List Bytes) → length (map unescape_string ks) ≡ length ks
length-map [] = refl
length-map (k ∷ ks) = ap suc (length-map ks)

-- The test of an object's keys, with its filter of bits, its pairwise loop and its sort, refuses
-- exactly the keys of which two decode to one string, if it is told of every backslash among them.
pub keys_fresh-distinct :
    (escaped : Bool) (ks : List Bytes)
    → (any_backslash ks && not escaped) ≡ false
    → keys_fresh escaped ks ≡ distinct (map unescape_string ks)
unfolding keys_fresh
keys_fresh-distinct escaped ks h =
    let bits = distinct-no_bit_twice (λ g. false) ks in
    let plain = map-unescape_string-plain ks in
    let unique = keys_unique-distinct ks in
    let less = few (map unescape_string ks) in
    let len = length-map ks in ground (arith, h, bits, plain, unique, less, len)
