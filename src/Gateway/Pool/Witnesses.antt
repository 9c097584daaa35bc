-- ===== src/Gateway/Pool/Witnesses.antt =====
-- The pool's theorems on two connections to one venue.
use llmbridge.Base.{ℕ, ◌≡◌, refl, true, false, List, [], ◌∷◌, none, some, ◌==◌, if◌then◌else◌}
use llmbridge.Base.Bytes.{is_empty}
use llmbridge.Gateway.OutBuf.{new_buf}
use llmbridge.Gateway.Pool.{
  UpstreamConn, UpstreamPool, init, acquire, release, accepts, reap, for_each, full,
}
use llmbridge.Gateway.Pool.Chain.{distinct}
use llmbridge.Gateway.Pool.Queues.{Queues, put_queue, total, IsPool}
use llmbridge.Gateway.Pool.Stacks.{IsClean, acquire-pop, release-push, release-IsClean}
use llmbridge.Gateway.Pool.Reap.{live, is_stale}
use llmbridge.Gateway.Pool.Reap.Lists.{Reaped}
use llmbridge.Gateway.Pool.Reap.Walk.{closed_of, reap-Reaped}
use llmbridge.Http.Framer.{new_framer}

abbrev opened : UpstreamConn
opened = record {
  fd = some 7;
  doomed = false;
  rbuf = [];
  out = new_buf;
  tls_out = new_buf;
  venue = some 0;
  pooled = false;
  peer_eof = false;
  ts_pooled = 0;
  framer = new_framer;
  client = none;
  pool_newer = none;
  pool_older = none;
}

abbrev nothing : UpstreamPool
nothing = init 1 2 (record {
  conns = λ u. opened;
  ups = λ c. none;
  lists = λ v. record { newest = none; oldest = none };
  venues = 0;
  cap = 0;
  count = 0;
})

abbrev no_queues : Queues
no_queues v = []

nothing-IsPool : IsPool nothing no_queues
unfolding init
nothing-IsPool = record {
  chain = λ v. tt;
  distinct_at = λ v. unfold distinct in refl;
  newest_at = λ v. refl;
  oldest_at = λ v. refl;
  member = λ u e. cc e;
  in_range = λ v h. refl;
  counted = unfold total in refl;
}

abbrev one_pooled : UpstreamPool
one_pooled = (release 2 true true true 5 nothing).1

abbrev two_pooled : UpstreamPool
two_pooled = (release 3 true true true 9 one_pooled).1

abbrev queue_of : List ℕ → Queues
queue_of us v = if v == 0 then us else []

release-push_example :
    (accepts (release 2 true true true 5 nothing).0 ≡ true) × IsPool one_pooled (queue_of (2 ∷ []))
unfolding init is_empty
release-push_example = release-push 2 true true true 5 nothing no_queues nothing-IsPool

abbrev stacks : Queues
stacks = put_queue (queue_of (2 ∷ [])) 0 (3 ∷ 2 ∷ [])

two_pooled-IsPool : IsPool two_pooled stacks
unfolding release is_empty init
two_pooled-IsPool = (release-push 3 true true true 9 one_pooled (queue_of (2 ∷ [])) one_more).1
  where
    one_more : IsPool one_pooled (queue_of (2 ∷ []))
    one_more = (release-push 2 true true true 5 nothing no_queues nothing-IsPool).1

release-IsClean_example : IsClean (two_pooled.conns 3)
unfolding release is_empty init
release-IsClean_example =
    release-IsClean 3 true true true 9 one_pooled (queue_of (2 ∷ []))
      (release-push 2 true true true 5 nothing no_queues nothing-IsPool).1 refl

acquire-pop_example :
    ((acquire (some 0) two_pooled).0 ≡ some 3)
    × IsPool (acquire (some 0) two_pooled).1 (put_queue stacks 0 (2 ∷ []))
acquire-pop_example = acquire-pop (some 0) two_pooled stacks two_pooled-IsPool

abbrev note : List ℕ → ℕ → List ℕ
note s u = u ∷ s

reap-Reaped_example :
    Reaped note 7 two_pooled []
      (λ v. live (is_stale two_pooled 7) (stacks v))
      (closed_of (is_stale two_pooled 7) stacks two_pooled.venues)
      (reap note 7 two_pooled [])
reap-Reaped_example = reap-Reaped note 7 two_pooled stacks [] two_pooled-IsPool

reap_closes_the_oldest : (reap note 7 two_pooled []).1 ≡ 2 ∷ []
unfolding reap release init is_empty
reap_closes_the_oldest = refl

visits_both : for_each note two_pooled [] ≡ 2 ∷ 3 ∷ []
unfolding for_each release init is_empty
visits_both = refl

full_pool : (release 4 true true true 9 two_pooled).0 ≡ full
unfolding release init is_empty
full_pool = refl
