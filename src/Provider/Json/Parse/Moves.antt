-- ===== src/Provider/Json/Parse/Moves.antt =====
-- The recursion of `skip_value` and `parse_value` only moves on, and comes back to its depth.
use llmbridge.Base.{
  ℕ, zero, suc, ◌+◌, ◌≡◌, refl, Bool, true, false, not, List, [], ◌∷◌, ◌++◌, if◌then◌else◌, arith,
}
use llmbridge.Base.Bytes.{Bytes, is_empty}
use llmbridge.Provider.Json.Tokens.{
  Parser, Value, fail, ws, starts, tail, parse_string, parse_value_scalar,
}
use llmbridge.Provider.Json.Tokens.Moves.{
  Suffix, Suffix-trans, tail-Suffix, skip_ws-Suffix, Moves, Moves-refl, Moves-trans, fail-Moves,
  tail-Moves, ws-Moves, parse_string-Moves, parse_value_scalar-Moves,
}
use llmbridge.Provider.Json.Parse.{
  Config, Front, too_many, ends, too_deep, quote, brace, bracket, other, front, counted, enter,
  leave, close_keys, step_on, member_value, skip_value, skip_elements, skip_members, parse_value,
  parse_elements, parse_members,
}
use llmbridge.Provider.Json.Parse.Rounds.{
  after, member_head, container, value_cases, id_step, skip_value_lem, skip_elements_lem,
  skip_members_lem, parse_value_lem, parse_elements_lem, parse_members_lem,
}

abbrev pub Keeps : (Parser → Parser) → Type 0
Keeps k = (p : Parser) → Moves p (k p)

if_Moves : (b : Bool) (p q r : Parser) → Moves p q → Moves p r → Moves p (if b then q else r)
if_Moves true p q r h k = h
if_Moves false p q r h k = k

close_keys-Moves :
    (unique : Bool) (before : ℕ) (ks : List Bytes) → Keeps (close_keys unique before ks)
unfolding close_keys
close_keys-Moves unique before ks p = if_Moves _ p (fail p) p (fail-Moves p) (Moves-refl p)

after-Moves :
    (close : ℕ) (p q : Parser) (more done : Parser → Parser)
    → Keeps more
    → Keeps done
    → Moves p q
    → Moves p (after close q more done)
unfolding after
after-Moves close p q more done m d h =
    let s = Moves-trans p q (step_on q) h (tail-Moves q) in
    if_Moves (starts b',' q.rest) p (more (step_on q))
      (if starts close q.rest then done (step_on q) else fail q)
      (Moves-trans p (step_on q) (more (step_on q)) s (m (step_on q)))
      (if_Moves (starts close q.rest) p (done (step_on q)) (fail q)
        (Moves-trans p (step_on q) (done (step_on q)) s (d (step_on q)))
        (Moves-trans p q (fail q) h (fail-Moves q)))

member_head-Moves :
    (q : Parser) (k : Bytes → Parser → Parser)
    → ((key : Bytes) → Keeps (k key))
    → Moves q (member_head q k)
unfolding member_head
member_head-Moves q k h =
    let s = (parse_string q).1 in
    let key = (parse_string q).0 in
    let r = ws s in
    let m = Moves-trans q s r (parse_string-Moves q) (ws-Moves s) in
    if_Moves (not (starts b'"' q.rest)) q (fail q)
      (if not (starts b':' r.rest) then fail r else k key (step_on r)) (fail-Moves q)
      (if_Moves (not (starts b':' r.rest)) q (fail r) (k key (step_on r))
        (Moves-trans q r (fail r) m (fail-Moves r))
        (Moves-trans q (step_on r) (k key (step_on r))
          (Moves-trans q r (step_on r) m (tail-Moves r)) (h key (step_on r))))

pub enter-Suffix : (q : Parser) → Suffix (enter q).rest q.rest
unfolding enter ws
enter-Suffix q =
    Suffix-trans (enter q).rest (tail q.rest) q.rest (skip_ws-Suffix (tail q.rest))
      (tail-Suffix q.rest)

leave-Moves : (q r : Parser) → Moves (enter q) r → Moves q (leave r)
leave-Moves q r h =
    let d : (enter q).depth ≡ q.depth + 1 = unfold enter ws in refl in
    let n : (enter q).nodes ≡ q.nodes = unfold enter ws in refl in
    let x : (enter q).escapes ≡ q.escapes = unfold enter ws in refl in
    record {
      passed = Suffix-trans r.rest (enter q).rest q.rest h.passed (enter-Suffix q);
      depth_eq = omega (arith, d, h.depth_eq);
      nodes_le = omega (arith, n, h.nodes_le);
      escapes_le = omega (arith, x, h.escapes_le);
    }

container-Moves : (close : ℕ) (loop : Parser → Parser) → Keeps loop → Keeps (container close loop)
unfolding container
container-Moves close loop h q =
    let inner = enter q in
    leave-Moves q (if starts close inner.rest then step_on inner else loop inner) (
      if_Moves (starts close inner.rest) inner (step_on inner) (loop inner) (tail-Moves inner)
        (h inner))

counted-Moves : (p : Parser) → Moves p (ws (counted p))
counted-Moves p =
    let w = ws-Moves (counted p) in
    record {
      passed = w.passed;
      depth_eq = w.depth_eq;
      nodes_le = omega (arith, w.nodes_le);
      escapes_le = w.escapes_le;
    }

value_cases-Moves :
    (obj arr : Parser → Parser) (fr : Front) (p : Parser)
    → Keeps obj
    → Keeps arr
    → Moves p (value_cases obj arr p fr)
unfolding value_cases
value_cases-Moves obj arr too_many p o a =
    let m = Moves-refl p in
    record { passed = m.passed; depth_eq = refl; nodes_le = omega arith; escapes_le = omega arith }
value_cases-Moves obj arr ends p o a =
    Moves-trans p (ws (counted p)) (fail (ws (counted p))) (counted-Moves p)
      (fail-Moves (ws (counted p)))
value_cases-Moves obj arr too_deep p o a =
    Moves-trans p (ws (counted p)) (fail (ws (counted p))) (counted-Moves p)
      (fail-Moves (ws (counted p)))
value_cases-Moves obj arr quote p o a =
    let q = ws (counted p) in
    Moves-trans p q (parse_string q).1 (counted-Moves p) (parse_string-Moves q)
value_cases-Moves obj arr (other c) p o a =
    let q = ws (counted p) in
    Moves-trans p q (parse_value_scalar c q).1 (counted-Moves p) (parse_value_scalar-Moves c q)
value_cases-Moves obj arr brace p o a =
    let q = ws (counted p) in
    Moves-trans p q (container b'}' obj q) (counted-Moves p) (container-Moves b'}' obj o q)
value_cases-Moves obj arr bracket p o a =
    let q = ws (counted p) in
    Moves-trans p q (container b']' arr q) (counted-Moves p) (container-Moves b']' arr a q)

-- The six functions at one amount of fuel.
pub record AllMove (cfg : Config) (fuel : ℕ) : Type 0 where
  pub skipped : Keeps (skip_value cfg.unique fuel)
  pub elements : Keeps (skip_elements cfg.unique fuel)
  pub members : (before : ℕ) (ks : List Bytes) → Keeps (skip_members cfg.unique fuel before ks)
  pub parsed : Keeps (λ p. (parse_value cfg fuel p).1)
  pub parsed_elements : Keeps (λ p. (parse_elements cfg fuel p).1)
  pub parsed_members :
      (before : ℕ) (ks : List Bytes) → Keeps (λ p. (parse_members cfg fuel before ks p).1)

id-Moves : Keeps id_step
unfolding id_step
id-Moves p = Moves-refl p

pub member_value-Moves :
    (cfg : Config) (key : Bytes) (built : Parser → Value × Parser) (skipped : Parser → Parser)
    → Keeps (λ p. (built p).1)
    → Keeps skipped
    → Keeps (λ p. (member_value cfg key built skipped p).1)
unfolding member_value
member_value-Moves cfg key built skipped b s p =
    let q = ws p in
    let w = ws-Moves p in
    let x = b p in
    let y = Moves-trans p q (built q).1 w (b q) in
    let z = Moves-trans p q (skipped q) w (s q) in
    record {
      passed = ground (arith, x.passed, y.passed, z.passed);
      depth_eq = ground (arith, x.depth_eq, y.depth_eq, z.depth_eq);
      nodes_le = ground (arith, x.nodes_le, y.nodes_le, z.nodes_le);
      escapes_le = ground (arith, x.escapes_le, y.escapes_le, z.escapes_le);
    }

module _ (cfg : Config) (fuel : ℕ) (ih : AllMove cfg fuel) where
  elements_round :
      (p : Parser) (v : Parser) (more : Parser → Parser)
      → Moves p v
      → Keeps more
      → Moves p (after b']' (ws v) more id_step)
  elements_round p v more h m =
      after-Moves b']' p (ws v) more id_step m id-Moves (Moves-trans p v (ws v) h (ws-Moves v))

  members_round :
      (before : ℕ) (ks : List Bytes) (p : Parser) (v : Bytes → Parser → Parser)
      (more : Bytes → Parser → Parser)
      → ((key : Bytes) → Keeps (v key))
      → ((key : Bytes) → Keeps (more key))
      → Moves p (
          member_head (ws p) (λ key r.
            after b'}' (ws (v key r)) (more key) (close_keys cfg.unique before (ks ++ key ∷ []))))
  members_round before ks p v more h m =
      let step = λ (key : Bytes) (r : Parser).
        after b'}' (ws (v key r)) (more key) (close_keys cfg.unique before (ks ++ key ∷ [])) in
      Moves-trans p (ws p) (member_head (ws p) step) (ws-Moves p) (
        member_head-Moves (ws p) step (λ key r.
          after-Moves b'}' r (ws (v key r)) (more key)
            (close_keys cfg.unique before (ks ++ key ∷ [])) (m key)
            (close_keys-Moves cfg.unique before (ks ++ key ∷ []))
            (Moves-trans r (v key r) (ws (v key r)) (h key r) (ws-Moves (v key r)))))

pub all_move : (cfg : Config) (fuel : ℕ) → AllMove cfg fuel
all_move cfg zero = record {
  skipped = λ p. unfold skip_value in fail-Moves p;
  elements = λ p. unfold skip_value in fail-Moves p;
  members = λ before ks p. unfold skip_value in fail-Moves p;
  parsed = λ p. unfold parse_value in fail-Moves p;
  parsed_elements = λ p. unfold parse_value in fail-Moves p;
  parsed_members = λ before ks p. unfold parse_value in fail-Moves p;
}
all_move cfg (suc fuel) =
    let ih = all_move cfg fuel in
    record {
      skipped = λ p. rw (skip_value_lem cfg fuel p) (
          value_cases-Moves (λ q. skip_members cfg.unique fuel q.escapes [] q)
            (skip_elements cfg.unique fuel) (front (ws (counted p))) p
            (λ q. ih.members q.escapes [] q) ih.elements);
      elements = λ p. rw (skip_elements_lem cfg fuel p) (
          if_Moves p.ok p
            (after b']' (ws (skip_value cfg.unique fuel p)) (skip_elements cfg.unique fuel) id_step)
            p
            (elements_round cfg fuel ih p (skip_value cfg.unique fuel p)
              (skip_elements cfg.unique fuel) (ih.skipped p) ih.elements)
            (Moves-refl p));
      members = λ before ks p. rw (skip_members_lem cfg fuel before ks p) (
          if_Moves p.ok p _ p
            (members_round cfg fuel ih before ks p (λ key. skip_value cfg.unique fuel)
              (λ key. skip_members cfg.unique fuel before (ks ++ key ∷ [])) (λ key. ih.skipped)
              (λ key. ih.members before (ks ++ key ∷ [])))
            (Moves-refl p));
      parsed = λ p. rw (parse_value_lem cfg fuel p) (
          value_cases-Moves (λ q. (parse_members cfg fuel q.escapes [] q).1)
            (λ q. (parse_elements cfg fuel q).1) (front (ws (counted p))) p
            (λ q. ih.parsed_members q.escapes [] q) ih.parsed_elements);
      parsed_elements = λ p. rw (parse_elements_lem cfg fuel p) (
          if_Moves (is_empty p.rest) p (fail p)
            (after b']' (ws (parse_value cfg fuel p).1) (λ q. (parse_elements cfg fuel q).1)
              id_step)
            (fail-Moves p)
            (elements_round cfg fuel ih p (parse_value cfg fuel p).1
              (λ q. (parse_elements cfg fuel q).1) (ih.parsed p) ih.parsed_elements));
      parsed_members = λ before ks p. rw (parse_members_lem cfg fuel before ks p) (
          members_round cfg fuel ih before ks p
            (λ key r.
              (member_value cfg key (parse_value cfg fuel) (skip_value cfg.unique fuel) r).1)
            (λ key q. (parse_members cfg fuel before (ks ++ key ∷ []) q).1)
            (λ key.
              member_value-Moves cfg key (parse_value cfg fuel) (skip_value cfg.unique fuel)
                ih.parsed ih.skipped)
            (λ key. ih.parsed_members before (ks ++ key ∷ [])));
    }
