-- ===== src/Http/Lines.antt =====
-- `line_end`, `line_ok`, `HeaderLine`, `walk_headers` and `find_header` (net/include/net/http.hpp).
-- A position in the head is the list of the bytes from it on; the views of a header line also
-- carry where the value begins in the head, which is what `value.data() - head.data()` reads.
mod Ends
pub mod Split
pub mod Keeps
use llmbridge.Base.{
  ℕ, zero, suc, ◌+◌, ◌-◌, Bool, true, false, ◌&&◌, ◌||◌, not, List, [], ◌∷◌, ◌++◌, Option, none,
  some, ltb, ◌==◌, if◌then◌else◌, length, get_or, take, drop,
}
use llmbridge.Base.Bytes.{Bytes, cr, lf, crlf, find, find_byte, slice}
use llmbridge.Http.Text.{is_blank, ltrim, same_ci}
use llmbridge.Http.Fields.{Field, classify}

pub record HeaderLine : Type 0 where
  pub field : Field
  pub name : Bytes
  pub value : Bytes
  pub value_at : ℕ

-- The last test of `line_end`: no CR before `len`.
abbrev no_cr : Bytes → ℕ → Option ℕ
no_cr b len = elim (find_byte cr (take len b)) [ none ↦ some len | some _ ↦ none ]

-- `b` is the text from `from` on, the result `eol - from`.
unfoldable pub line_end : Bytes → Option ℕ
unfolding find_byte
line_end b = elim (find_byte lf b) [
  | some len ↦ if len == 0 || not (get_or b (len - 1) 0 == cr) then none else no_cr b (len - 1)
  | none ↦ no_cr b (length b)
]

-- The position of the colon.
unfoldable pub line_ok : Bytes → Option ℕ
unfolding find_byte
line_ok line = elim line [
  | [] ↦ none
  | c ∷ s ↦ if is_blank c then none else elim (find_byte b':' (c ∷ s)) [
    | none ↦ none
    | some colon ↦
        if colon == 0 || is_blank (get_or (c ∷ s) (colon - 1) 0) then none else some colon
  ]
]

-- The line handed to `on_line`; `at` is where it starts in the head.
abbrev pub header_line : ℕ → Bytes → ℕ → HeaderLine
header_line at line colon = record {
  field = classify (take colon line);
  name = take colon line;
  value = drop (suc colon) line;
  value_at = at + suc colon;
}

module _ {ℓ} {S : Type ℓ} (on_line : S → HeaderLine → S × Bool) where
  -- What one round does with its line, and `rest`, what the later rounds do.
  unfoldable pub visit : S → ℕ → Bytes → (S → S × Bool) → S × Bool
  visit s at line rest = elim (line_ok line) [
    | none ↦ (s, false)
    | some colon ↦
        let (s', go) = on_line s (header_line at line colon) in if go then rest s' else (s', false)
  ]

  -- The `while`: `eol` is the text from the end of the line on, `at` its position.
  pub walk_loop : ℕ → S → ℕ → Bytes → S × Bool
  unfolding visit
  walk_loop zero s at eol = (s, false)
  walk_loop (suc fuel) s at [] = (s, true)
  walk_loop (suc fuel) s at (c ∷ e) =
      let start = drop 2 (c ∷ e) in
      elim (line_end start) [
        | none ↦ (s, false)
        | some len ↦
            visit s (at + 2) (take len start)
              (λ s'. walk_loop fuel s' (at + 2 + len) (drop len start))
      ]

  -- The state that `on_line` built comes back beside the result, also when the head is refused.
  unfoldable pub walk_headers : S → Bytes → S × Bool
  unfolding walk_loop
  walk_headers s head = elim (line_end head) [
    | none ↦ (s, false)
    | some len ↦ walk_loop (suc (length head)) s len (drop len head)
  ]

-- `name` without a trailing colon.
strip_colon : Bytes → Bytes
strip_colon [] = []
strip_colon (c ∷ []) = if c == b':' then [] else c ∷ []
strip_colon (c ∷ d ∷ s) = c ∷ strip_colon (d ∷ s)

abbrev line_has : Bytes → Bytes → Bool
line_has name line =
    ltb (length name) (length line)
    && get_or line (length name) 0 == b':'
    && same_ci (take (length name) line) name

-- The `while` of `find_header`, whose rounds shorten `headers`; the fuel is its length.
find_header_loop : ℕ → Bytes → Bytes → Bytes
find_header_loop zero name headers = []
find_header_loop (suc fuel) name [] = []
find_header_loop (suc fuel) name (h ∷ t) =
    let eol : ℕ = elim (find crlf (h ∷ t)) [ none ↦ length (h ∷ t) | some n ↦ n ] in
    elim (take eol (h ∷ t)) [
      | [] ↦ []
      | l ∷ ine ↦ elim (line_has name (l ∷ ine)) [
        | true ↦ ltrim (drop (suc (length name)) (l ∷ ine))
        | false ↦ find_header_loop fuel name (drop (eol + 2) (h ∷ t))
      ]
    ]

unfoldable pub find_header : Bytes → Bytes → Bytes
unfolding find_header_loop strip_colon find same_ci ltrim
find_header headers name = elim (strip_colon name) [
  | [] ↦ []
  | c ∷ s ↦ find_header_loop (length headers) (c ∷ s) headers
]
