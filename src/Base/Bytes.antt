-- ===== src/Base/Bytes.antt =====
-- Byte strings: the operations of `std::string_view` and `memchr` that the program calls. A
-- position that was not found (`npos`, a null pointer) is `none`.
use Prim.Native.Char.{code}
use Prim.Native.String.{String}
use mathlib.Core.Option
use llmbridge.Base.Lists.{take, drop}
use llmbridge.Base.Tests.{◌==◌, if◌then◌else◌}
use Prim.Native.Nat.{ℕ, suc}
use mathlib.Core.Bool.{Bool, true, false, not, ◌&&◌, ◌||◌}
use mathlib.Core.Option.{Option, none, some}
use mathlib.Core.List.{List, [], ◌∷◌}

abbrev pub Bytes : Type 0
Bytes = List ℕ

-- The bytes of an ASCII literal.
abbrev pub codes : String → Bytes
codes String.[] = []
codes (String.◌∷◌ c s) = code c ∷ codes s

abbrev pub cr : ℕ
cr = 13

abbrev pub lf : ℕ
lf = 10

abbrev pub crlf : Bytes
crlf = cr ∷ lf ∷ []

unfoldable pub is_empty : Bytes → Bool
is_empty [] = true
is_empty (c ∷ s) = false

-- `==` on string views.
unfoldable pub same : Bytes → Bytes → Bool
same [] [] = true
same (x ∷ xs) (y ∷ ys) = x == y && same xs ys
same _ _ = false

unfoldable pub starts_with : Bytes → Bytes → Bool
starts_with [] s = true
starts_with (p ∷ ps) [] = false
starts_with (p ∷ ps) (c ∷ s) = p == c && starts_with ps s

-- `s.find_first_of("\r\n") == npos`
abbrev pub no_crlf : Bytes → Bool
no_crlf [] = true
no_crlf (c ∷ s) = not (c == cr || c == lf) && no_crlf s

-- `s.find(p)`
unfoldable pub find : Bytes → Bytes → Option ℕ
find p [] = if starts_with p [] then some 0 else none
find p (c ∷ s) = if starts_with p (c ∷ s) then some 0 else Option.map suc (find p s)

-- `memchr`, and `s.find(c)`
unfoldable pub find_byte : ℕ → Bytes → Option ℕ
find_byte b [] = none
find_byte b (c ∷ s) = if c == b then some 0 else Option.map suc (find_byte b s)

-- `s.rfind(c)`
unfoldable pub rfind_byte : ℕ → Bytes → Option ℕ
rfind_byte b [] = none
rfind_byte b (c ∷ s) = elim (rfind_byte b s) [
  | some i ↦ some (suc i)
  | none ↦ if c == b then some 0 else none
]

-- `s.substr(0, p)`, where `p` may be `npos`.
abbrev pub until : Option ℕ → Bytes → Bytes
until none s = s
until (some n) s = take n s

-- `s.substr(p, n)`
abbrev pub slice : ℕ → ℕ → Bytes → Bytes
slice p n s = take n (drop p s)
