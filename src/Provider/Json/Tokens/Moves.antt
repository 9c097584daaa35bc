-- ===== src/Provider/Json/Tokens/Moves.antt =====
-- The parser only moves on: what it has passed is a front part of what it was given.
use llmbridge.Base.{
  ℕ, zero, suc, ◌+◌, ◌-◌, ◌≤◌, ◌≡◌, refl, ap, sym, ◌∙◌, [], ◌∷◌, ◌++◌, append_assoc, length,
  length-append, take, drop, take-append-drop, take-length_append, arith,
}
use llmbridge.Base.Bytes.{Bytes}
use llmbridge.Provider.Json.Tokens.{
  Parser, fail, at, ws, skip_ws, tail, between, scan_string, parse_string, escape_length,
  skip_digits, skip_sign, unsigned_end, number_exponent, number_fraction, number_end, parse_number,
  parse_bool, parse_null, parse_value_scalar,
}

-- What of `s` stands before its end part `t`.
pub front_part : Bytes → Bytes → Bytes
front_part s t = between s t

-- `t` is an end part of `s`.
abbrev pub Suffix : Bytes → Bytes → Type 0
Suffix t s = s ≡ front_part s t ++ t

pub Suffix-intro : (x t s : Bytes) → s ≡ x ++ t → Suffix t s
unfolding front_part
Suffix-intro x t s e =
    let n : length s - length t ≡ length x = omega (arith, ap length e, length-append x t) in
    let b : between s t ≡ x =
      ap (λ k. take k s) n ∙ ap (take (length x)) e ∙ take-length_append x t in
    rw b e

pub Suffix-between : (t s : Bytes) → Suffix t s → s ≡ between s t ++ t
unfolding front_part
Suffix-between t s h = h

pub Suffix-refl : (s : Bytes) → Suffix s s
Suffix-refl s = Suffix-intro [] s s refl

pub Suffix-trans : (r s t : Bytes) → Suffix r s → Suffix s t → Suffix r t
Suffix-trans r s t h k =
    let x = front_part s r in
    let y = front_part t s in
    Suffix-intro (y ++ x) r t (k ∙ ap (λ z. y ++ z) h ∙ sym (append_assoc y x r))

pub Suffix-length : (t s : Bytes) → Suffix t s → length t ≤ length s
Suffix-length t s h = omega (arith, ap length h, length-append (front_part s t) t)

pub tail-Suffix : (s : Bytes) → Suffix (tail s) s
tail-Suffix [] = Suffix-refl []
tail-Suffix (c ∷ s) = Suffix-intro (c ∷ []) s (c ∷ s) refl

drop-Suffix : (n : ℕ) (s : Bytes) → Suffix (drop n s) s
drop-Suffix n s = Suffix-intro (take n s) (drop n s) s (sym (take-append-drop n s))

Suffix-cons : (c : ℕ) (t s : Bytes) → Suffix t s → Suffix t (c ∷ s)
Suffix-cons c t s h = Suffix-intro (c ∷ front_part s t) t (c ∷ s) (ap (λ z. c ∷ z) h)

pub skip_ws-Suffix : (s : Bytes) → Suffix (skip_ws s) s
unfolding skip_ws
skip_ws-Suffix [] = Suffix-refl []
skip_ws-Suffix (c ∷ s) =
    let h = Suffix-cons c (skip_ws s) s (skip_ws-Suffix s) in
    let r = Suffix-refl (c ∷ s) in ground (arith, h, r)

skip_digits-Suffix : (s : Bytes) → Suffix (skip_digits s) s
unfolding skip_digits
skip_digits-Suffix [] = Suffix-refl []
skip_digits-Suffix (c ∷ s) =
    let h = Suffix-cons c (skip_digits s) s (skip_digits-Suffix s) in
    let r = Suffix-refl (c ∷ s) in ground (arith, h, r)

pub scan_string-Suffix : (skip escapes : ℕ) (s : Bytes) → Suffix (scan_string skip escapes s).left s
unfolding scan_string
scan_string-Suffix skip escapes [] = Suffix-refl []
scan_string-Suffix (suc skip) escapes (c ∷ s) =
    Suffix-cons c (scan_string skip escapes s).left s (scan_string-Suffix skip escapes s)
scan_string-Suffix zero escapes (c ∷ s) =
    let r = Suffix-refl (c ∷ s) in
    let n = escape_length s in
    let a = Suffix-cons c (scan_string 0 escapes s).left s (scan_string-Suffix 0 escapes s) in
    let b =
      Suffix-cons c (scan_string n (escapes + 1) s).left s (scan_string-Suffix n (escapes + 1) s) in
    ground (arith, r, a, b)

signed_digits-Suffix : (s : Bytes) → Suffix (skip_digits (skip_sign s)) s
signed_digits-Suffix s =
    let a = skip_digits-Suffix s in
    let t = tail s in
    let b = Suffix-trans (skip_digits t) t s (skip_digits-Suffix t) (tail-Suffix s) in
    ground (arith, a, b)

number_exponent-Suffix : (s : Bytes) → Suffix (number_exponent s).1 s
unfolding number_exponent
number_exponent-Suffix s =
    let r = Suffix-refl s in
    let t = tail s in
    let a = Suffix-trans (skip_digits (skip_sign t)) t s (signed_digits-Suffix t) (tail-Suffix s) in
    ground (arith, r, a)

number_fraction-Suffix : (s : Bytes) → Suffix (number_fraction s).1 s
unfolding number_fraction
number_fraction-Suffix s =
    let d = skip_digits (tail s) in
    let l = tail-Suffix s in
    let t = Suffix-trans d (tail s) s (skip_digits-Suffix (tail s)) l in
    let a = number_exponent-Suffix s in
    let b = Suffix-trans (number_exponent d).1 d s (number_exponent-Suffix d) t in
    ground (arith, l, a, b)

-- Behind the sign.
unsigned_end-Suffix : (s : Bytes) → Suffix (unsigned_end s).1 s
unfolding unsigned_end
unsigned_end-Suffix s =
    let r = Suffix-refl s in
    let t = tail s in
    let d = skip_digits s in
    let a = Suffix-trans (number_fraction t).1 t s (number_fraction-Suffix t) (tail-Suffix s) in
    let b =
      Suffix-trans (number_fraction d).1 d s (number_fraction-Suffix d) (skip_digits-Suffix s) in
    ground (arith, r, a, b)

pub number_end-Suffix : (s : Bytes) → Suffix (number_end s).1 s
unfolding number_end
number_end-Suffix s =
    let a = unsigned_end-Suffix s in
    let b =
      Suffix-trans (unsigned_end (tail s)).1 (tail s) s (unsigned_end-Suffix (tail s))
        (tail-Suffix s) in
    ground (arith, a, b)

-- The parser moved on, at the same depth, and has counted no fewer values and no fewer escapes.
pub record Moves (p q : Parser) : Type 0 where
  pub passed : Suffix q.rest p.rest
  pub depth_eq : q.depth ≡ p.depth
  pub nodes_le : p.nodes ≤ q.nodes
  pub escapes_le : p.escapes ≤ q.escapes

pub Moves-refl : (p : Parser) → Moves p p
Moves-refl p = record {
  passed = Suffix-refl p.rest;
  depth_eq = refl;
  nodes_le = omega arith;
  escapes_le = omega arith;
}

pub Moves-trans : (p q r : Parser) → Moves p q → Moves q r → Moves p r
Moves-trans p q r h k = record {
  passed = Suffix-trans r.rest q.rest p.rest k.passed h.passed;
  depth_eq = k.depth_eq ∙ h.depth_eq;
  nodes_le = omega arith;
  escapes_le = omega (arith, h.escapes_le, k.escapes_le);
}

-- Steps on that count nothing.
moved :
    (p q : Parser)
    → Suffix q.rest p.rest
    → q.depth ≡ p.depth
    → q.nodes ≡ p.nodes
    → p.escapes ≤ q.escapes
    → Moves p q
moved p q h k l m = record { passed = h; depth_eq = k; nodes_le = omega arith; escapes_le = m }

pub fail-Moves : (p : Parser) → Moves p (fail p)
fail-Moves p = moved p (fail p) (Suffix-refl p.rest) refl refl (omega arith)

pub tail-Moves : (p : Parser) → Moves p (at (tail p.rest) p)
tail-Moves p = moved p (at (tail p.rest) p) (tail-Suffix p.rest) refl refl (omega arith)

pub ws-Moves : (p : Parser) → Moves p (ws p)
unfolding ws
ws-Moves p = moved p (ws p) (skip_ws-Suffix p.rest) refl refl (omega arith)

pub scan_string-escapes :
    (skip escapes : ℕ) (s : Bytes) → escapes ≤ (scan_string skip escapes s).escapes
unfolding scan_string
scan_string-escapes skip escapes [] = omega arith
scan_string-escapes (suc skip) escapes (c ∷ s) = scan_string-escapes skip escapes s
scan_string-escapes zero escapes (c ∷ s) =
    let a = scan_string-escapes 0 escapes s in
    let b = scan_string-escapes (escape_length s) (escapes + 1) s in ground (arith, a, b)

pub parse_string-Moves : (p : Parser) → Moves p (parse_string p).1
unfolding parse_string
parse_string-Moves p =
    let s = tail p.rest in
    let r = scan_string 0 p.escapes s in
    let h = Suffix-trans r.left s p.rest (scan_string-Suffix 0 p.escapes s) (tail-Suffix p.rest) in
    let k = Suffix-trans (tail r.left) r.left p.rest (tail-Suffix r.left) h in
    moved p (parse_string p).1 (ground (arith, h, k)) (ground arith) (ground arith)
      (ground (arith, scan_string-escapes 0 p.escapes s))

parse_number-Moves : (p : Parser) → Moves p (parse_number p).1
unfolding parse_number
parse_number-Moves p =
    let h = number_end-Suffix p.rest in
    moved p (parse_number p).1 (ground (arith, h)) (ground arith) (ground arith) (ground arith)

parse_bool-Moves : (p : Parser) → Moves p (parse_bool p).1
unfolding parse_bool
parse_bool-Moves p =
    let r = Suffix-refl p.rest in
    let a = drop-Suffix 4 p.rest in
    let b = drop-Suffix 5 p.rest in
    moved p (parse_bool p).1 (ground (arith, r, a, b)) (ground arith) (ground arith) (ground arith)

parse_null-Moves : (p : Parser) → Moves p (parse_null p).1
unfolding parse_null
parse_null-Moves p =
    let r = Suffix-refl p.rest in
    let a = drop-Suffix 4 p.rest in
    moved p (parse_null p).1 (ground (arith, r, a)) (ground arith) (ground arith) (ground arith)

pub parse_value_scalar-Moves : (c : ℕ) (p : Parser) → Moves p (parse_value_scalar c p).1
unfolding parse_value_scalar
parse_value_scalar-Moves c p =
    let a = parse_bool-Moves p in
    let b = parse_null-Moves p in
    let d = parse_number-Moves p in
    record {
      passed = ground (arith, a.passed, b.passed, d.passed);
      depth_eq = ground (arith, a.depth_eq, b.depth_eq, d.depth_eq);
      nodes_le = ground (arith, a.nodes_le, b.nodes_le, d.nodes_le);
      escapes_le = ground (arith, a.escapes_le, b.escapes_le, d.escapes_le);
    }
