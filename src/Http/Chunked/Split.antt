-- ===== src/Http/Chunked/Split.antt =====
-- The decoder does not depend on how its input was cut into reads.
use mathlib.Core.List.{flatten}
use llmbridge.Base.{
  ℕ, ◌+◌, ◌-◌, ◌≤◌, ◌≡◌, refl, ap, sym, ◌∙◌, Bool, true, not, List, [], ◌∷◌, ◌++◌, append-nil,
  if◌then◌else◌, ◌⊎◌, length, length-append, arith,
}
use llmbridge.Base.Bytes.{Bytes}
use llmbridge.Http.Chunked.{St, ChunkDecoder, Fed, is_ended, is_failed, feed}
use llmbridge.Http.Chunked.Machine.{
  run, resume, IsReady, run-IsReady, run-append, run-consumed, run-is_ended, run_ended, length-run,
}
use llmbridge.Http.Chunked.Rounds.{feed-run}

-- The result of a call of `feed`, from the run of the machine.
abbrev pub counted : ChunkDecoder → ℕ → Fed → ChunkDecoder × Bytes × Bool
counted d n (d', left, out) = (
  record d' { consumed = if is_failed d'.st then d.consumed else d.consumed + (n - length left) },
  out,
  not (is_failed d'.st),
)

pub feed-counted :
    (d : ChunkDecoder) (s : Bytes) → IsReady d → feed d s ≡ counted d (length s) (run d s)
unfolding feed
feed-counted d s r = rw (feed-run d s r)

is_failed-is_ended : (m : St) → is_failed m ≡ true → is_ended m ≡ true
unfolding is_failed is_ended
is_failed-is_ended St.failed h = refl
is_failed-is_ended _ h = ground arith

-- Two calls, the output of both.
abbrev pub feed_twice : ChunkDecoder → Bytes → Bytes → ChunkDecoder × Bytes × Bool
feed_twice d a b =
    let (d', out, _) = feed d a in
    let (last, more, fed_ok) = feed d' b in (last, out ++ more, fed_ok)

-- The same output and result, and, unless both failed, the same decoder.
pub record SameFeed (x y : ChunkDecoder × Bytes × Bool) : Type 0 where
  pub output : x.1 ≡ y.1
  pub result : x.2 ≡ y.2
  pub state : x.0.st ≡ y.0.st
  pub decoder : x.2 ≡ true → x.0 ≡ y.0

feed_twice-SameFeed :
    (d : ChunkDecoder) (a b : Bytes) (f : Fed)
    → ((f.1 ≡ []) ⊎ (is_ended f.0.st ≡ true))
    → length f.1 ≤ length a
    → SameFeed (counted d (length (a ++ b)) (resume f b)) (
        let d' = (counted d (length a) f).0 in
        let (last, more, fed_ok) = counted d' (length b) (run d' b) in (last, f.2 ++ more, fed_ok))
feed_twice-SameFeed d a b (d', [], out) e h = simp run-consumed (record {
  output = refl;
  result = refl;
  state = refl;
  decoder =
      ground (arith, length-append a b, length-run b d', run_ended b d', is_failed-is_ended d'.st);
})
feed_twice-SameFeed d a b (d', c ∷ s, out) e h =
    let ended : is_ended d'.st ≡ true = ground arith in
    simp (run-consumed, run_ended b d' ended)
      (record {
        output = sym (append-nil out);
        result = refl;
        state = refl;
        decoder = ground (arith, length-append a b, length-append s b);
      })

SameFeed-trans : {x y z : ChunkDecoder × Bytes × Bool} → SameFeed x y → SameFeed y z → SameFeed x z
SameFeed-trans p q = record {
  output = p.output ∙ q.output;
  result = p.result ∙ q.result;
  state = p.state ∙ q.state;
  decoder = λ h. p.decoder h ∙ q.decoder (sym p.result ∙ h);
}

pub feed-IsReady : (d : ChunkDecoder) (s : Bytes) → IsReady d → IsReady (feed d s).0
feed-IsReady d s r = rw (feed-counted d s r) (λ m. run-IsReady s d r m)

feed_twice-append :
    (d : ChunkDecoder) (a b : Bytes) → IsReady d → SameFeed (feed d (a ++ b)) (feed_twice d a b)
feed_twice-append d a b r = rw (feed-counted d a r) (
    rw (feed-counted d (a ++ b) r, run-append a b d)
      (rw (feed-counted (counted d (length a) (run d a)).0 b (λ m. run-IsReady a d r m))
        (feed_twice-SameFeed d a b (run d a) (run-is_ended a d) (length-run a d))))

-- One call for each read, the output of all.
pub feed_reads : ChunkDecoder → List Bytes → ChunkDecoder × Bytes × Bool
feed_reads d [] = feed d []
feed_reads d (a ∷ reads) =
    let (d', out, _) = feed d a in
    let (last, more, fed_ok) = feed_reads d' reads in (last, out ++ more, fed_ok)

-- Of a decoder that has bytes of its chunk remaining if it is inside one (state `part`), as every
-- decoder has that `feed` leaves: however a stretch of input is cut into reads, feeding the reads one
-- after the other gives the output and the result that feeding it at once gives, the same end state,
-- and, unless the input is refused, the same decoder with the same count of bytes taken.
pub feed_reads-flatten :
    (reads : List Bytes) (d : ChunkDecoder)
    → IsReady d
    → SameFeed (feed d (flatten reads)) (feed_reads d reads)
unfolding feed_reads flatten
feed_reads-flatten [] d r = record {
  output = refl;
  result = refl;
  state = refl;
  decoder = λ _. refl;
}
feed_reads-flatten (a ∷ reads) d r =
    let ih = feed_reads-flatten reads (feed d a).0 (feed-IsReady d a r) in
    SameFeed-trans (feed_twice-append d a (flatten reads) r) (record {
      output = ap (λ o. (feed d a).1 ++ o) ih.output;
      result = ih.result;
      state = ih.state;
      decoder = ih.decoder;
    })
