-- ===== src/Provider/Json/Parse/Enough.antt =====
-- The recursion of `skip_value` and `parse_value` never uses up its fuel.
use llmbridge.Base.{
  ℕ, zero, suc, ◌+◌, ◌*◌, ◌≤◌, ◌≡◌, refl, sym, ◌∙◌, true, List, [], ◌∷◌, ◌++◌, Bool-cases, inl, inr,
  length, arith,
}
use llmbridge.Base.Bytes.{Bytes}
use llmbridge.Provider.Json.Tokens.{Parser, ws, starts, tail, parse_string}
use llmbridge.Provider.Json.Tokens.Moves.{
  Suffix-length, Moves, Moves-trans, ws-Moves, tail-Moves, parse_string-Moves, skip_ws-Suffix,
}
use llmbridge.Provider.Json.Parse.{
  Config, Front, brace, bracket, front, counted, enter, step_on, member_value, skip_value,
  skip_elements, skip_members, parse_value, parse_elements, parse_members,
}
use llmbridge.Provider.Json.Parse.Rounds.{value_cases, container, skip_value_lem}
use llmbridge.Provider.Json.Parse.Moves.{all_move, member_value-Moves}
use llmbridge.Provider.Json.Parse.Cases.{built_cases, built_lem}

starts-length : (c : ℕ) (s : Bytes) → starts c s ≡ true → suc (length (tail s)) ≤ length s
starts-length c [] h = cc
starts-length c (d ∷ s) h = omega arith

front-brace : (q : Parser) → front q ≡ brace → suc (length (tail q.rest)) ≤ length q.rest
unfolding front
front-brace q h = ground (arith, h)

front-bracket : (q : Parser) → front q ≡ bracket → suc (length (tail q.rest)) ≤ length q.rest
unfolding front
front-bracket q h = ground (arith, h)

Moves-length : (p q : Parser) → Moves p q → length q.rest ≤ length p.rest
Moves-length p q h = Suffix-length q.rest p.rest h.passed

enter-length : (q : Parser) → length (enter q).rest ≤ length (tail q.rest)
unfolding enter ws
enter-length q = Suffix-length (enter q).rest (tail q.rest) (skip_ws-Suffix (tail q.rest))

-- Behind the key and the colon.
unfoldable pub key_at : Parser → Parser
key_at p = step_on (ws (parse_string (ws p)).1)

pub key_at-Moves : (p : Parser) → Moves p (key_at p)
unfolding key_at
key_at-Moves p =
    let q = ws p in
    let s = (parse_string q).1 in
    let r = ws s in
    Moves-trans p q (step_on r) (ws-Moves p) (
      Moves-trans q s (step_on r) (parse_string-Moves q)
        (Moves-trans s r (step_on r) (ws-Moves s) (tail-Moves r)))

-- Two amounts of fuel that are both enough give the same.
record AreEnough (cfg : Config) (f g : ℕ) : Type 0 where
  skipped :
      (p : Parser)
      → 2 * length p.rest + 1 ≤ f
      → 2 * length p.rest + 1 ≤ g
      → skip_value cfg.unique f p ≡ skip_value cfg.unique g p
  elements :
      (p : Parser)
      → 2 * length p.rest + 2 ≤ f
      → 2 * length p.rest + 2 ≤ g
      → skip_elements cfg.unique f p ≡ skip_elements cfg.unique g p
  members :
      (before : ℕ) (ks : List Bytes) (p : Parser)
      → 2 * length p.rest + 2 ≤ f
      → 2 * length p.rest + 2 ≤ g
      → skip_members cfg.unique f before ks p ≡ skip_members cfg.unique g before ks p
  parsed :
      (p : Parser)
      → 2 * length p.rest + 1 ≤ f
      → 2 * length p.rest + 1 ≤ g
      → parse_value cfg f p ≡ parse_value cfg g p
  parsed_elements :
      (p : Parser)
      → 2 * length p.rest + 2 ≤ f
      → 2 * length p.rest + 2 ≤ g
      → parse_elements cfg f p ≡ parse_elements cfg g p
  parsed_members :
      (before : ℕ) (ks : List Bytes) (p : Parser)
      → 2 * length p.rest + 2 ≤ f
      → 2 * length p.rest + 2 ≤ g
      → parse_members cfg f before ks p ≡ parse_members cfg g before ks p

module _ (cfg : Config) (f g : ℕ) (ih : AreEnough cfg f g) (p : Parser) where
  elements_enough :
      2 * length p.rest + 2 ≤ suc f
      → 2 * length p.rest + 2 ≤ suc g
      → skip_elements cfg.unique (suc f) p ≡ skip_elements cfg.unique (suc g) p
  unfolding skip_value
  elements_enough h k =
      let v = skip_value cfg.unique f p in
      let q = ws v in
      let e = ih.skipped p (omega arith) (omega arith) in
      let m = Moves-length p q (Moves-trans p v q ((all_move cfg f).skipped p) (ws-Moves v)) in
      elim (Bool-cases (starts b',' q.rest)) [
        | inl s ↦
            let l = starts-length b',' q.rest s in
            let n = ih.elements (step_on q) (omega arith) (omega arith) in ground (arith, e, s, n)
        | inr s ↦ ground (arith, e, s)
      ]

  parsed_elements_enough :
      2 * length p.rest + 2 ≤ suc f
      → 2 * length p.rest + 2 ≤ suc g
      → parse_elements cfg (suc f) p ≡ parse_elements cfg (suc g) p
  unfolding parse_value
  parsed_elements_enough h k =
      let v = (parse_value cfg f p).1 in
      let q = ws v in
      let e = ih.parsed p (omega arith) (omega arith) in
      let m = Moves-length p q (Moves-trans p v q ((all_move cfg f).parsed p) (ws-Moves v)) in
      elim (Bool-cases (starts b',' q.rest)) [
        | inl s ↦
            let l = starts-length b',' q.rest s in
            let n = ih.parsed_elements (step_on q) (omega arith) (omega arith) in
            ground (arith, e, s, n)
        | inr s ↦ ground (arith, e, s)
      ]

  members_enough :
      (before : ℕ) (ks : List Bytes)
      → 2 * length p.rest + 2 ≤ suc f
      → 2 * length p.rest + 2 ≤ suc g
      → skip_members cfg.unique (suc f) before ks p ≡ skip_members cfg.unique (suc g) before ks p
  unfolding skip_value key_at
  members_enough before ks h k =
      let key = (parse_string (ws p)).0 in
      let r = key_at p in
      let v = skip_value cfg.unique f r in
      let t = ws v in
      let kl = Moves-length p r (key_at-Moves p) in
      let e = ih.skipped r (omega arith) (omega arith) in
      let m = Moves-length r t (Moves-trans r v t ((all_move cfg f).skipped r) (ws-Moves v)) in
      elim (Bool-cases (starts b',' t.rest)) [
        | inl s ↦
            let l = starts-length b',' t.rest s in
            let n = ih.members before (ks ++ key ∷ []) (step_on t) (omega arith) (omega arith) in
            ground (arith, e, s, n)
        | inr s ↦ ground (arith, e, s)
      ]

  member_value_enough :
      (key : Bytes)
      → 2 * length p.rest + 1 ≤ f
      → 2 * length p.rest + 1 ≤ g
      → member_value cfg key (parse_value cfg f) (skip_value cfg.unique f) p
        ≡ member_value cfg key (parse_value cfg g) (skip_value cfg.unique g) p
  unfolding member_value
  member_value_enough key h k =
      let q = ws p in
      let l = Moves-length p q (ws-Moves p) in
      let a = ih.parsed p h k in
      let b = ih.parsed q (omega arith) (omega arith) in
      let d = ih.skipped q (omega arith) (omega arith) in ground (arith, a, b, d)

module _ (cfg : Config) (f g : ℕ) (ih : AreEnough cfg f g) (p : Parser) where
  parsed_members_enough :
      (before : ℕ) (ks : List Bytes)
      → 2 * length p.rest + 2 ≤ suc f
      → 2 * length p.rest + 2 ≤ suc g
      → parse_members cfg (suc f) before ks p ≡ parse_members cfg (suc g) before ks p
  unfolding parse_value key_at
  parsed_members_enough before ks h k =
      let key = (parse_string (ws p)).0 in
      let r = key_at p in
      let am = all_move cfg f in
      let v = (member_value cfg key (parse_value cfg f) (skip_value cfg.unique f) r).1 in
      let t = ws v in
      let kl = Moves-length p r (key_at-Moves p) in
      let e = member_value_enough cfg f g ih r key (omega arith) (omega arith) in
      let m = Moves-length r t (
        Moves-trans r v t
          (member_value-Moves cfg key (parse_value cfg f) (skip_value cfg.unique f) am.parsed
            am.skipped r)
          (ws-Moves v)) in
      elim (Bool-cases (starts b',' t.rest)) [
        | inl s ↦
            let l = starts-length b',' t.rest s in
            let n =
              ih.parsed_members before (ks ++ key ∷ []) (step_on t) (omega arith) (omega arith) in
            ground (arith, e, s, n)
        | inr s ↦ ground (arith, e, s)
      ]

  built_enough :
      (fr : Front)
      → front (ws (counted p)) ≡ fr
      → 2 * length p.rest ≤ f
      → 2 * length p.rest ≤ g
      → built_cases cfg f p fr ≡ built_cases cfg g p fr
  unfolding built_cases
  built_enough brace e h k =
      let q = ws (counted p) in
      let a = Moves-length (counted p) q (ws-Moves (counted p)) in
      let b = front-brace q e in
      let l = enter-length q in
      let inner = enter q in
      let n = ih.parsed_members inner.escapes [] inner (omega arith) (omega arith) in
      ground (arith, n)
  built_enough bracket e h k =
      let q = ws (counted p) in
      let a = Moves-length (counted p) q (ws-Moves (counted p)) in
      let b = front-bracket q e in
      let l = enter-length q in
      let inner = enter q in
      let n = ih.parsed_elements inner (omega arith) (omega arith) in ground (arith, n)
  built_enough _ e h k = refl

  skipped_enough :
      (fr : Front)
      → front (ws (counted p)) ≡ fr
      → 2 * length p.rest ≤ f
      → 2 * length p.rest ≤ g
      → value_cases
          (λ q. skip_members cfg.unique f q.escapes [] q)
          (skip_elements cfg.unique f)
          p
          fr
        ≡ value_cases
            (λ q. skip_members cfg.unique g q.escapes [] q)
            (skip_elements cfg.unique g)
            p
            fr
  unfolding value_cases container
  skipped_enough brace e h k =
      let q = ws (counted p) in
      let a = Moves-length (counted p) q (ws-Moves (counted p)) in
      let b = front-brace q e in
      let l = enter-length q in
      let inner = enter q in
      let n = ih.members inner.escapes [] inner (omega arith) (omega arith) in ground (arith, n)
  skipped_enough bracket e h k =
      let q = ws (counted p) in
      let a = Moves-length (counted p) q (ws-Moves (counted p)) in
      let b = front-bracket q e in
      let l = enter-length q in
      let inner = enter q in
      let n = ih.elements inner (omega arith) (omega arith) in ground (arith, n)
  skipped_enough _ e h k = refl

enough : (cfg : Config) (f g : ℕ) → AreEnough cfg f g
enough cfg zero g = record {
  skipped = λ p h k. absurd (omega arith);
  elements = λ p h k. absurd (omega arith);
  members = λ before ks p h k. absurd (omega arith);
  parsed = λ p h k. absurd (omega arith);
  parsed_elements = λ p h k. absurd (omega arith);
  parsed_members = λ before ks p h k. absurd (omega arith);
}
enough cfg (suc f) zero = record {
  skipped = λ p h k. absurd (omega arith);
  elements = λ p h k. absurd (omega arith);
  members = λ before ks p h k. absurd (omega arith);
  parsed = λ p h k. absurd (omega arith);
  parsed_elements = λ p h k. absurd (omega arith);
  parsed_members = λ before ks p h k. absurd (omega arith);
}
enough cfg (suc f) (suc g) =
    let ih = enough cfg f g in
    record {
      skipped = λ p h k.
          skip_value_lem cfg f p
          ∙ skipped_enough cfg f g ih p (front (ws (counted p))) refl (omega arith) (omega arith)
          ∙ sym (skip_value_lem cfg g p);
      elements = λ p h k. elements_enough cfg f g ih p h k;
      members = λ before ks p h k. members_enough cfg f g ih p before ks h k;
      parsed = λ p h k.
          built_lem cfg f p
          ∙ built_enough cfg f g ih p (front (ws (counted p))) refl (omega arith) (omega arith)
          ∙ sym (built_lem cfg g p);
      parsed_elements = λ p h k. parsed_elements_enough cfg f g ih p h k;
      parsed_members = λ before ks p h k. parsed_members_enough cfg f g ih p before ks h k;
    }

-- From every state and with every text, a parser of a value with fuel of one more than twice the
-- bytes that are left returns what it returns with any greater amount: the fuel is never used up.
pub parse_value-enough :
    (cfg : Config) (fuel : ℕ) (p : Parser)
    → 2 * length p.rest + 1 ≤ fuel
    → parse_value cfg fuel p ≡ parse_value cfg (2 * length p.rest + 1) p
parse_value-enough cfg fuel p h = (enough cfg fuel (2 * length p.rest + 1)).parsed p h (omega arith)
