-- ===== src/Http/Text.antt =====
-- The text helpers of `http::detail` (net/include/net/http.hpp): case, trimming, strict lengths,
-- comma-separated tokens. A `char` is the number of its byte, below 256.
use llmbridge.Base.{
  ℕ, zero, suc, ◌+◌, ◌-◌, ◌*◌, ◌^◌, Bool, true, false, ◌&&◌, ◌||◌, [], ◌∷◌, Option, none, some, ltb,
  leb, ◌==◌, if◌then◌else◌, length, drop,
}
use llmbridge.Base.Bytes.{Bytes, find_byte, until}

unfoldable pub lc : ℕ → ℕ
lc c = if leb b'A' c && leb c b'Z' then c + 32 else c

-- The inner loop of `contains_ci` and of `line_is`: `needle` is a prefix of `hay`, any case.
unfoldable pub starts_lc : Bytes → Bytes → Bool
unfolding lc
starts_lc hay [] = true
starts_lc [] (n ∷ ns) = false
starts_lc (h ∷ hs) (n ∷ ns) = lc h == n && starts_lc hs ns

unfoldable pub contains_ci : Bytes → Bytes → Bool
unfolding starts_lc
contains_ci [] needle = starts_lc [] needle
contains_ci (h ∷ hs) needle = starts_lc (h ∷ hs) needle || contains_ci hs needle

unfoldable pub same_ci : Bytes → Bytes → Bool
unfolding lc
same_ci [] [] = true
same_ci (x ∷ xs) (y ∷ ys) = lc x == lc y && same_ci xs ys
same_ci _ _ = false

abbrev pub is_blank : ℕ → Bool
is_blank c = c == b' ' || c == b'\t'

unfoldable pub ltrim : Bytes → Bytes
ltrim [] = []
ltrim (c ∷ s) = if is_blank c then ltrim s else c ∷ s

abbrev all_blank : Bytes → Bool
all_blank [] = true
all_blank (c ∷ s) = is_blank c && all_blank s

-- The second loop of `trim_ows`: the bytes before the trailing blanks.
unfoldable pub rtrim : Bytes → Bytes
rtrim [] = []
rtrim (c ∷ s) = if all_blank (c ∷ s) then [] else c ∷ rtrim s

unfoldable pub trim_ows : Bytes → Bytes
unfolding ltrim rtrim
trim_ows v = rtrim (ltrim v)

abbrev pub is_digit : ℕ → Bool
is_digit c = leb b'0' c && leb c b'9'

unfoldable pub all_digits : Bytes → Bool
all_digits [] = true
all_digits (c ∷ s) = is_digit c && all_digits s

-- `std::from_chars` on digits: the value, whatever its size.
unfoldable pub digits_value : ℕ → Bytes → ℕ
digits_value n [] = n
digits_value n (c ∷ s) = digits_value (n * 10 + (c - b'0')) s

-- One past the largest `size_t`.
abbrev pub size_mod : ℕ
size_mod = 2 ^ 64

-- `none` is the result `false`, with `out` not written; `from_chars` reports a value that does
-- not fit in a `size_t`.
unfoldable pub parse_strict_length : Bytes → Option ℕ
unfolding trim_ows all_digits digits_value
parse_strict_length v = elim (trim_ows v) [
  | [] ↦ none
  | c ∷ s ↦
      if all_digits (c ∷ s)
      then (if ltb (digits_value 0 (c ∷ s)) size_mod then some (digits_value 0 (c ∷ s)) else none)
      else none
]

unfoldable pub is_zero_count : Bytes → Bool
unfolding parse_strict_length
is_zero_count v = elim (parse_strict_length v) [ none ↦ false | some n ↦ n == 0 ]

-- The `while` of `has_token`, whose rounds shorten `list`; the fuel is its length.
has_token_loop : ℕ → Bytes → Bytes → Bool
has_token_loop zero list lower = false
has_token_loop (suc fuel) [] lower = false
has_token_loop (suc fuel) (c ∷ s) lower =
    let comma = find_byte b',' (c ∷ s) in
    same_ci (trim_ows (until comma (c ∷ s))) lower
    || elim comma [ none ↦ false | some n ↦ has_token_loop fuel (drop (suc n) (c ∷ s)) lower ]

unfoldable pub has_token : Bytes → Bytes → Bool
unfolding has_token_loop find_byte same_ci trim_ows
has_token list lower = has_token_loop (length list) list lower
