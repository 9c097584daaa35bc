-- ===== src/Gateway/Pool.antt =====
-- `UpstreamPool` (gateway/src/core/pool.hpp, gateway/src/core/pool.cpp) on a store of connections.
-- A pointer is a number or, where it is null, `none`; a negative `venue` or `fd` is `none`. The stamps
-- and the cutoff of `reap`, which are only compared, are natural numbers.
pub mod Chain
pub mod Links
pub mod Queues
pub mod Stacks
pub mod Reap
mod Witnesses
use llmbridge.Base.{
  ℕ, zero, suc, ◌+◌, ◌-◌, Bool, true, false, not, ◌&&◌, ◌||◌, Option, none, some, ltb, leb, ◌==◌,
  if◌then◌else◌,
}
use llmbridge.Base.Bytes.{Bytes, is_empty}
use llmbridge.Http.Framer.{ResponseFramer, framer_reset}
use llmbridge.Gateway.OutBuf
use llmbridge.Gateway.OutBuf.{OutBuf, scrub}

abbrev pub Ptr : Type 0
Ptr = Option ℕ

-- The fields of `UpstreamConn` that the pool reads or writes.
pub record UpstreamConn : Type 0 where
  pub fd : Option ℕ
  pub doomed : Bool
  pub rbuf : Bytes
  pub out : OutBuf
  pub tls_out : OutBuf
  pub venue : Option ℕ
  pub pooled : Bool
  pub peer_eof : Bool
  pub ts_pooled : ℕ
  pub framer : ResponseFramer
  pub client : Ptr
  pub pool_newer : Ptr
  pub pool_older : Ptr

abbrev pub Conns : Type 0
Conns = ℕ → UpstreamConn

-- `List`
pub record Ends : Type 0 where
  pub newest : Ptr
  pub oldest : Ptr

-- The pool, the upstream connections by their addresses, and the link `up` of each client.
pub record UpstreamPool : Type 0 where
  pub conns : Conns
  pub ups : ℕ → Ptr
  pub lists : ℕ → Ends
  pub venues : ℕ
  pub cap : ℕ
  pub count : ℕ

pub data Refusal : Type 0 where
  accepted closed not_keep_alive body_open peer_closed leftover not_sent full : Refusal

-- `*p = c`
abbrev pub put : Conns → ℕ → UpstreamConn → Conns
put cs p c q = if q == p then c else cs q

abbrev pub put_ends : (ℕ → Ends) → ℕ → Ends → ℕ → Ends
put_ends ls v l w = if w == v then l else ls w

abbrev put_up : (ℕ → Ptr) → ℕ → Ptr → ℕ → Ptr
put_up ups c p d = if d == c then p else ups d

-- The index of a venue; the code reads it only where it is none of the negative ones.
abbrev pub index : Option ℕ → ℕ
index none = 0
index (some v) = v

unfoldable pub init : ℕ → ℕ → UpstreamPool → UpstreamPool
init venues cap p = record p {
  lists = λ v. record { newest = none; oldest = none };
  venues = venues;
  cap = cap;
}

abbrev pub set_cap : ℕ → UpstreamPool → UpstreamPool
set_cap cap p = record p { cap = cap }

-- `p->pool_older = w` and `p->pool_newer = w`, where `p` is not null.
abbrev pub set_older : Ptr → Ptr → Conns → Conns
set_older none w cs = cs
set_older (some n) w cs = put cs n (record (cs n) { pool_older = w })

abbrev pub set_newer : Ptr → Ptr → Conns → Conns
set_newer none w cs = cs
set_newer (some n) w cs = put cs n (record (cs n) { pool_newer = w })

abbrev pub is_null : Ptr → Bool
is_null none = true
is_null (some n) = false

-- The first and the second branch of `remove`, on the list `l`.
unfoldable pub unlink_newer : UpstreamConn → Ends → Ends
unlink_newer c l = if is_null c.pool_newer then record l { newest = c.pool_older } else l

unfoldable pub unlink_older : UpstreamConn → Ends → Ends
unlink_older c l = if is_null c.pool_older then record l { oldest = c.pool_newer } else l

-- `remove` behind its test.
unfoldable pub unlink : ℕ → UpstreamPool → UpstreamPool
unfolding unlink_newer unlink_older
unlink u p =
    let c = p.conns u in
    let v = index c.venue in
    let l = unlink_newer c (p.lists v) in
    let cs = set_older c.pool_newer c.pool_older p.conns in
    let c' = cs u in
    let cs' = set_newer c'.pool_older c'.pool_newer cs in
    record p {
      conns = put cs' u (record (cs' u) { pool_newer = none; pool_older = none; pooled = false });
      lists = put_ends p.lists v (unlink_older c' l);
      count = p.count - 1;
    }

unfoldable pub remove : ℕ → UpstreamPool → UpstreamPool
unfolding unlink
remove u p = if not (p.conns u).pooled then p else unlink u p

-- `venue < 0 || venue >= _lists.size()`
abbrev pub out_of_range : Option ℕ → ℕ → Bool
out_of_range none venues = true
out_of_range (some v) venues = leb venues v

unfoldable pub acquire : Option ℕ → UpstreamPool → Ptr × UpstreamPool
acquire venue p =
    if out_of_range venue p.venues
    then (none, p)
    else elim ((p.lists (index venue)).newest) [ none ↦ (none, p) | some u ↦ (some u, remove u p) ]

-- `unpair(UpstreamConn*)` of gateway/src/core/conn.hpp.
unfoldable pub unpair : ℕ → UpstreamPool → UpstreamPool
unpair u p =
    let c = p.conns u in
    record p {
      ups = elim (c.client) [ none ↦ p.ups | some d ↦ put_up p.ups d none ];
      conns = put p.conns u (record c { client = none });
    }

-- The checks of `release`, on the connection and the pool without its peer.
unfoldable pub refusal : UpstreamConn → Bool → Bool → Bool → UpstreamPool → Refusal
unfolding is_empty
refusal c keep_alive body_ended request_sent p =
    if c.doomed || is_null c.fd || c.pooled
    then closed
    else if not keep_alive
    then not_keep_alive
    else if not body_ended
    then body_open
    else if c.peer_eof
    then peer_closed
    else if not (is_empty c.rbuf)
    then leftover
    else if not request_sent
    then not_sent
    else if leb p.cap p.count
    then full
    else if out_of_range c.venue p.venues
    then closed
    else accepted

-- The connection as it enters the pool, but for its links.
unfoldable pub scrubbed : ℕ → UpstreamConn → UpstreamConn
unfolding framer_reset scrub OutBuf.clear
scrubbed now c = record c {
  framer = framer_reset c.framer;
  out = scrub c.out;
  tls_out = OutBuf.clear c.tls_out;
  ts_pooled = now;
}

unfoldable pub push : ℕ → ℕ → UpstreamPool → UpstreamPool
unfolding scrubbed
push now u p =
    let c = p.conns u in
    let v = index c.venue in
    let l = p.lists v in
    let cs = put p.conns u (record (scrubbed now c) { pool_older = l.newest; pool_newer = none }) in
    let cs' = set_newer l.newest (some u) cs in
    let l' = if is_null l.newest then record l { oldest = some u } else l in
    record p {
      conns = put cs' u (record (cs' u) { pooled = true });
      lists = put_ends p.lists v (record l' { newest = some u });
      count = p.count + 1;
    }

abbrev pub accepts : Refusal → Bool
accepts accepted = true
accepts _ = false

unfoldable pub release : ℕ → Bool → Bool → Bool → ℕ → UpstreamPool → Refusal × UpstreamPool
unfolding unpair refusal push
release u keep_alive body_ended request_sent now p =
    let q = unpair u p in
    let r = refusal (q.conns u) keep_alive body_ended request_sent q in
    if accepts r then (r, push now u q) else (r, q)

-- The loop of `reap` over one list, and the state of `close`. A round unlinks a connection, so one
-- more than `_count` is fuel enough.
unfoldable pub reap_list {ℓ} :
    {S : Type ℓ} → (S → ℕ → S) → ℕ → ℕ → ℕ → UpstreamPool → S → UpstreamPool × S
unfolding remove
reap_list close cutoff v zero p s = (p, s)
reap_list close cutoff v (suc fuel) p s = elim ((p.lists v).oldest) [
  | none ↦ (p, s)
  | some u ↦
      let rest = reap_list close cutoff v fuel (remove u p) (close s u) in
      if ltb (p.conns u).ts_pooled cutoff then rest else (p, s)
]

-- The lists from the first on, `n` of them.
unfoldable pub reap_lists {ℓ} :
    {S : Type ℓ} → (S → ℕ → S) → ℕ → ℕ → UpstreamPool → S → UpstreamPool × S
unfolding reap_list
reap_lists close cutoff zero p s = (p, s)
reap_lists close cutoff (suc n) p s =
    let (q, t) = reap_lists close cutoff n p s in reap_list close cutoff n (q.count + 1) q t

unfoldable pub reap {ℓ} : {S : Type ℓ} → (S → ℕ → S) → ℕ → UpstreamPool → S → UpstreamPool × S
unfolding reap_lists
reap close cutoff p s = reap_lists close cutoff p.venues p s

-- The loop of `for_each` over one list, from `u` on.
unfoldable pub visit_list {ℓ} : {S : Type ℓ} → (S → ℕ → S) → Conns → ℕ → Ptr → S → S
visit_list f cs zero u s = s
visit_list f cs (suc fuel) none s = s
visit_list f cs (suc fuel) (some u) s = visit_list f cs fuel (cs u).pool_older (f s u)

unfoldable pub visit_lists {ℓ} : {S : Type ℓ} → (S → ℕ → S) → ℕ → UpstreamPool → S → S
unfolding visit_list
visit_lists f zero p s = s
visit_lists f (suc n) p s =
    visit_list f p.conns (p.count + 1) (p.lists n).newest (visit_lists f n p s)

unfoldable pub for_each {ℓ} : {S : Type ℓ} → (S → ℕ → S) → UpstreamPool → S → S
unfolding visit_lists
for_each f p s = visit_lists f p.venues p s
