-- ===== src/Provider/Json/Parse/Rounds.antt =====
-- The recursion of `skip_value` and `parse_value`, one round at a time.
use llmbridge.Base.{ℕ, suc, ◌≡◌, refl, not, List, [], ◌∷◌, ◌++◌, if◌then◌else◌, arith}
use llmbridge.Base.Bytes.{Bytes, is_empty}
use llmbridge.Provider.Json.Tokens.{Parser, fail, ws, starts, parse_string, parse_value_scalar}
use llmbridge.Provider.Json.Parse.{
  Config, Front, too_many, ends, too_deep, quote, brace, bracket, other, front, counted, enter,
  leave, close_keys, step_on, member_value, skip_value, skip_elements, skip_members, parse_value,
  parse_elements, parse_members,
}
use llmbridge.Provider.Json.Parse.Same.{
  Same, IsStrict, ws-IsStrict, parse_string-IsStrict, parse_value_scalar-IsStrict, enter-IsStrict,
}

-- What follows a value in a container.
unfoldable pub after : ℕ → Parser → (Parser → Parser) → (Parser → Parser) → Parser
after close q more done =
    if starts b',' q.rest
    then more (step_on q)
    else if starts close q.rest
    then done (step_on q)
    else fail q

pub after-IsStrict :
    (close : ℕ) (more done : Parser → Parser)
    → IsStrict more
    → IsStrict done
    → IsStrict (λ q. after close q more done)
unfolding after
after-IsStrict close more done m d p h =
    let a = m (step_on p) h in let b = d (step_on p) h in ground (arith, h, a, b)

pub after-Same :
    (close : ℕ) (more more' done : Parser → Parser) (q : Parser)
    → ((p : Parser) → Same (more p) (more' p))
    → Same (after close q more done) (after close q more' done)
unfolding after
after-Same close more more' done q h = let a = h (step_on q) in ground (arith, a)

unfoldable pub id_step : Parser → Parser
id_step p = p

-- The rounds of the loops in these terms.
pub skip_elements_lem :
    (cfg : Config) (fuel : ℕ) (p : Parser)
    → skip_elements cfg.unique (suc fuel) p ≡ (
        if p.ok
        then after b']' (ws (skip_value cfg.unique fuel p)) (skip_elements cfg.unique fuel) id_step
        else p)
unfolding skip_value after id_step
skip_elements_lem cfg fuel p = ground arith

pub parse_elements_lem :
    (cfg : Config) (fuel : ℕ) (p : Parser)
    → (parse_elements cfg (suc fuel) p).1 ≡ (
        if is_empty p.rest
        then fail p
        else after b']'
            (ws (parse_value cfg fuel p).1)
            (λ q. (parse_elements cfg fuel q).1)
            id_step)
unfolding parse_value after id_step
parse_elements_lem cfg fuel p = ground arith

-- The head of a member's round: its key and colon; `k` goes on behind them.
unfoldable pub member_head : Parser → (Bytes → Parser → Parser) → Parser
member_head q k =
    let (key, q') = parse_string q in
    let r = ws q' in
    if not (starts b'"' q.rest)
    then fail q
    else if not (starts b':' r.rest)
    then fail r
    else k key (step_on r)

pub skip_members_lem :
    (cfg : Config) (fuel before : ℕ) (ks : List Bytes) (p : Parser)
    → skip_members cfg.unique (suc fuel) before ks p ≡ (
        if p.ok
        then member_head (ws p) (λ key r.
          after b'}'
            (ws (skip_value cfg.unique fuel r))
            (skip_members cfg.unique fuel before (ks ++ key ∷ []))
            (close_keys cfg.unique before (ks ++ key ∷ [])))
        else p)
unfolding skip_value after member_head
skip_members_lem cfg fuel before ks p = ground arith

pub parse_members_lem :
    (cfg : Config) (fuel before : ℕ) (ks : List Bytes) (p : Parser)
    → (parse_members cfg (suc fuel) before ks p).1
      ≡ member_head (ws p) (λ key r.
        after b'}'
          (ws (member_value cfg key (parse_value cfg fuel) (skip_value cfg.unique fuel) r).1)
          (λ q. (parse_members cfg fuel before (ks ++ key ∷ []) q).1)
          (close_keys cfg.unique before (ks ++ key ∷ [])))
unfolding parse_value after member_head
parse_members_lem cfg fuel before ks p = ground arith

pub member_head-IsStrict :
    (k : Bytes → Parser → Parser)
    → ((key : Bytes) → IsStrict (k key))
    → IsStrict (λ q. member_head q k)
unfolding member_head
member_head-IsStrict k s q h =
    let a = parse_string-IsStrict q h in
    let r = ws (parse_string q).1 in
    let b = ws-IsStrict (parse_string q).1 a in
    let c = s (parse_string q).0 (step_on r) b in ground (arith, h, a, b, c)

pub member_head-Same :
    (k k' : Bytes → Parser → Parser) (q : Parser)
    → ((key : Bytes) (r : Parser) → Same (k key r) (k' key r))
    → Same (member_head q k) (member_head q k')
unfolding member_head
member_head-Same k k' q h =
    let r = ws (parse_string q).1 in let a = h (parse_string q).0 (step_on r) in ground (arith, a)

-- A value's cases in these terms.
unfoldable pub container : ℕ → (Parser → Parser) → Parser → Parser
container close loop q =
    let inner = enter q in leave (if starts close inner.rest then step_on inner else loop inner)

unfoldable pub value_cases : (Parser → Parser) → (Parser → Parser) → Parser → Front → Parser
value_cases obj arr p too_many = fail (counted p)
value_cases obj arr p ends = fail (ws (counted p))
value_cases obj arr p too_deep = fail (ws (counted p))
value_cases obj arr p quote = (parse_string (ws (counted p))).1
value_cases obj arr p (other c) = (parse_value_scalar c (ws (counted p))).1
value_cases obj arr p brace = container b'}' obj (ws (counted p))
value_cases obj arr p bracket = container b']' arr (ws (counted p))

pub skip_value_lem :
    (cfg : Config) (fuel : ℕ) (p : Parser)
    → skip_value cfg.unique (suc fuel) p
      ≡ value_cases
          (λ q. skip_members cfg.unique fuel q.escapes [] q)
          (skip_elements cfg.unique fuel)
          p
          (front (ws (counted p)))
unfolding skip_value value_cases container
skip_value_lem cfg fuel p = ground arith

pub parse_value_lem :
    (cfg : Config) (fuel : ℕ) (p : Parser)
    → (parse_value cfg (suc fuel) p).1
      ≡ value_cases
          (λ q. (parse_members cfg fuel q.escapes [] q).1)
          (λ q. (parse_elements cfg fuel q).1)
          p
          (front (ws (counted p)))
unfolding parse_value value_cases container
parse_value_lem cfg fuel p = ground arith

pub container-IsStrict :
    (close : ℕ) (loop : Parser → Parser) → IsStrict loop → IsStrict (container close loop)
unfolding container
container-IsStrict close loop s q h =
    let a = enter-IsStrict q h in let b = s (enter q) a in ground (arith, a, b)

pub container-Same :
    (close : ℕ) (loop loop' : Parser → Parser) (q : Parser)
    → ((p : Parser) → Same (loop p) (loop' p))
    → Same (container close loop q) (container close loop' q)
unfolding container
container-Same close loop loop' q h = let a = h (enter q) in ground (arith, a)

pub value_cases-IsStrict :
    (obj arr : Parser → Parser) (fr : Front)
    → IsStrict obj
    → IsStrict arr
    → IsStrict (λ p. value_cases obj arr p fr)
unfolding value_cases
value_cases-IsStrict obj arr too_many o a p h = refl
value_cases-IsStrict obj arr ends o a p h = refl
value_cases-IsStrict obj arr too_deep o a p h = refl
value_cases-IsStrict obj arr quote o a p h =
    parse_string-IsStrict (ws (counted p)) (ws-IsStrict (counted p) h)
value_cases-IsStrict obj arr (other c) o a p h =
    parse_value_scalar-IsStrict c (ws (counted p)) (ws-IsStrict (counted p) h)
value_cases-IsStrict obj arr brace o a p h =
    container-IsStrict b'}' obj o (ws (counted p)) (ws-IsStrict (counted p) h)
value_cases-IsStrict obj arr bracket o a p h =
    container-IsStrict b']' arr a (ws (counted p)) (ws-IsStrict (counted p) h)

pub value_cases-Same :
    (obj arr obj' arr' : Parser → Parser) (fr : Front) (p : Parser)
    → ((q : Parser) → Same (obj q) (obj' q))
    → ((q : Parser) → Same (arr q) (arr' q))
    → Same (value_cases obj arr p fr) (value_cases obj' arr' p fr)
unfolding value_cases
value_cases-Same obj arr obj' arr' brace p o a = container-Same b'}' obj obj' (ws (counted p)) o
value_cases-Same obj arr obj' arr' bracket p o a = container-Same b']' arr arr' (ws (counted p)) a
value_cases-Same obj arr obj' arr' _ p o a = refl
