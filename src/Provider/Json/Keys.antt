-- ===== src/Provider/Json/Keys.antt =====
-- `Parser::keys_fresh` and `Parser::keys_unique` (provider/include/provider/json.hpp): whether an
-- object names a key twice.
pub mod Sorted
pub mod Distinct
use mathlib.Core.List.{map}
use llmbridge.Base.{
  ℕ, zero, suc, ◌+◌, ◌-◌, ◌*◌, ◌%◌, Bool, true, false, not, ◌&&◌, ◌||◌, List, [], ◌∷◌, Option, none,
  some, ltb, leb, ◌==◌, if◌then◌else◌, length, get_or,
}
use llmbridge.Base.Bytes.{Bytes, same, find_byte}
use llmbridge.Provider.Json.Escape.{unescape_string}

-- The order of `std::string_view`, at most.
unfoldable pub text_le : Bytes → Bytes → Bool
text_le [] t = true
text_le (c ∷ s) [] = false
text_le (c ∷ s) (d ∷ t) = let rest = text_le s t in if ltb c d then true else c == d && rest

-- `std::sort`, by insertion.
unfoldable pub insert_sorted : Bytes → List Bytes → List Bytes
insert_sorted k [] = k ∷ []
insert_sorted k (l ∷ ls) = if text_le k l then k ∷ l ∷ ls else l ∷ insert_sorted k ls

unfoldable pub sort : List Bytes → List Bytes
sort [] = []
sort (k ∷ ks) = insert_sorted k (sort ks)

-- `std::adjacent_find(…) == end()`
unfoldable pub no_adjacent : List Bytes → Bool
no_adjacent [] = true
no_adjacent (k ∷ []) = true
no_adjacent (k ∷ l ∷ ls) = not (same k l) && no_adjacent (l ∷ ls)

unfoldable pub is_in : Bytes → List Bytes → Bool
is_in k [] = false
is_in k (l ∷ ls) = same k l || is_in k ls

-- The two loops over the pairs, each key against those before it.
unfoldable pub pairwise : List Bytes → List Bytes → Bool
pairwise before [] = true
pairwise before (k ∷ ks) = not (is_in k before) && pairwise (k ∷ before) ks

unfoldable pub has_backslash : Bytes → Bool
has_backslash k = elim (find_byte b'\\' k) [ none ↦ false | some _ ↦ true ]

unfoldable pub any_backslash : List Bytes → Bool
any_backslash [] = false
any_backslash (k ∷ ks) = has_backslash k || any_backslash ks

unfoldable pub keys_unique : List Bytes → Bool
keys_unique ks =
    if any_backslash ks
    then no_adjacent (sort (map unescape_string ks))
    else if leb (length ks) 16
    then pairwise [] ks
    else no_adjacent (sort ks)

-- The bit of a key, from its length and its end bytes.
unfoldable pub key_bit : Bytes → ℕ
key_bit [] = 0
key_bit (c ∷ s) = (length (c ∷ s) * 7 + (c * 3 + get_or (c ∷ s) (length s) 0)) % 64

-- `seen`, as the set of its bits.
abbrev pub Bits : Type 0
Bits = ℕ → Bool

abbrev pub set_bit : Bits → ℕ → Bits
set_bit seen h g = g == h || seen g

-- The loop of `keys_fresh`: whether no bit comes twice.
unfoldable pub no_bit_twice : Bits → List Bytes → Bool
no_bit_twice seen [] = true
no_bit_twice seen (k ∷ ks) = not (seen (key_bit k)) && no_bit_twice (set_bit seen (key_bit k)) ks

unfoldable pub keys_fresh : Bool → List Bytes → Bool
keys_fresh escaped ks =
    if ltb (length ks) 2
    then true
    else if escaped
    then keys_unique ks
    else if no_bit_twice (λ g. false) ks
    then true
    else keys_unique ks
