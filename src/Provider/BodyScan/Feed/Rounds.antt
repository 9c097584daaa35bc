-- ===== src/Provider/BodyScan/Feed/Rounds.antt =====
-- The loop of `feed` against the machine that takes every byte once.
use llmbridge.Base.{
  ℕ, zero, suc, ◌+◌, ◌*◌, ◌≤◌, ◌≡◌, refl, Bool, true, false, not, ◌||◌, [], ◌∷◌, if◌then◌else◌,
  Bool-cases, inl, inr, ◌⊎◌, length, drop, arith,
}
use llmbridge.Base.Bytes.{Bytes}
use llmbridge.Provider.BodyScan.{BodyScan, St, in_str}
use llmbridge.Provider.BodyScan.Bytewise.{byte_step}
use llmbridge.Provider.BodyScan.Feed.{
  Run, stopped, bad_escape, str_run, str_step, is_str, Outcome, stop, next, outcome, step,
  scan_loop, is_more, finish, refuse, feed,
}
use llmbridge.Provider.BodyScan.Feed.Machine.{
  take_byte, run, is_behind, byte_step-reread, byte_step-behind, behind-not_str, str_outcome,
  run-str_run,
}

-- The rounds that the loop still takes, at most.
abbrev pub weight : BodyScan → Bytes → ℕ
weight s rest = 2 * length rest + (if is_behind s.st then 0 else 1)

is_str-in_str : (st : St) → is_str st ≡ true → st ≡ in_str
is_str-in_str in_str h = refl
is_str-in_str _ h = cc

run-taken :
    (s : BodyScan) (body : Bytes) (i c : ℕ) (rest : Bytes)
    → is_str s.st ≡ false
    → ((byte_step s.st s i c).2 || not (byte_step s.st s i c).1) ≡ true
    → run s body i (c ∷ rest)
      ≡ str_outcome s body
          (outcome ((byte_step s.st s i c).0, (byte_step s.st s i c).1) (i + 1) rest)
unfolding run take_byte str_outcome
run-taken s body i c rest h k = ground arith

run-reread :
    (s : BodyScan) (body : Bytes) (i c : ℕ) (rest : Bytes)
    → is_str s.st ≡ false
    → (byte_step s.st s i c).2 ≡ false
    → (byte_step s.st s i c).1 ≡ true
    → run s body i (c ∷ rest) ≡ run (byte_step s.st s i c).0 body i (c ∷ rest)
run-reread s body i c rest h k l =
    let t = (byte_step s.st s i c).0 in
    let b : is_behind t.st ≡ true = byte_step-reread s.st s i c k l in
    let n = behind-not_str t.st b in
    let g = byte_step-behind t.st t i c b in unfold run take_byte in ground (arith, n, g)

-- A string's run leaves at most the bytes that it was given.
str_run-length :
    (rest : Bytes) (i j : ℕ) (left : Bytes)
    → str_run i rest ≡ stopped j left
    → length left ≤ length rest
unfolding str_run
str_run-length [] i j left h = ground arith
str_run-length (c ∷ []) i j left h = ground arith
str_run-length (c ∷ e ∷ rest) i j left h =
    ground (arith, str_run-length (e ∷ rest) (i + 1) j left, str_run-length rest (i + 2) j left)

str_step-lighter :
    (r : Run) (s s' : BodyScan) (body : Bytes) (i n : ℕ) (left : Bytes)
    → str_step s body r ≡ next s' i left
    → ((j : ℕ) (l : Bytes) → r ≡ stopped j l → length l ≤ suc n)
    → length left ≤ n
unfolding str_step
str_step-lighter bad_escape s s' body i n left h k = ground arith
str_step-lighter (stopped j []) s s' body i n left h k = ground arith
str_step-lighter (stopped j (d ∷ rest)) s s' body i n left h k = ground (arith, k j (d ∷ rest) refl)

-- A round of the loop is the machine on what the round read.
step-run :
    (s : BodyScan) (body : Bytes) (i c : ℕ) (rest : Bytes)
    → str_outcome s body (step s body i c rest) ≡ run s body i (c ∷ rest)
step-run s body i c rest = elim (Bool-cases (is_str s.st)) [
  | inl h ↦ unfold step in ground (arith, h, run-str_run (c ∷ rest) s body i (is_str-in_str s.st h))
  | inr h ↦ elim (Bool-cases ((byte_step s.st s i c).2 || not (byte_step s.st s i c).1)) [
    | inl k ↦ unfold step in ground (arith, h, k, run-taken s body i c rest h k)
    | inr k ↦ unfold step str_outcome in ground (arith, h, k, run-reread s body i c rest h)
  ]
]

step-lighter :
    (s s' : BodyScan) (body : Bytes) (i j c : ℕ) (rest left : Bytes)
    → step s body i c rest ≡ next s' j left
    → suc (weight s' left) ≤ weight s (c ∷ rest)
step-lighter s s' body i j c rest left h =
    let b = byte_step-reread s.st s i c in
    let g = byte_step-behind s.st s i c in
    elim (Bool-cases (is_str s.st)) [
      | inl k ↦
          let e : str_step s body (str_run i (c ∷ rest)) ≡ next s' j left =
            unfold step in ground (arith, h, k) in
          let shorter =
            str_step-lighter (str_run i (c ∷ rest)) s s' body j (length rest) left e
              (str_run-length (c ∷ rest) i) in
          ground (arith, shorter, is_str-in_str s.st k, k)
      | inr k ↦ unfold step in ground (arith, h, k, b, g)
    ]

Outcome-cases :
    (o : Outcome)
    → ((s : BodyScan) × (o ≡ stop s))
      ⊎ ((s : BodyScan) × (i : ℕ) × (rest : Bytes) × (o ≡ next s i rest))
Outcome-cases (stop s) = inl (s, refl)
Outcome-cases (next s i rest) = inr (s, i, rest, refl)

-- The loop, given fuel for its rounds, is the machine.
pub scan_loop-run :
    (fuel : ℕ) (s : BodyScan) (body : Bytes) (i : ℕ) (rest : Bytes)
    → weight s rest ≤ fuel
    → scan_loop fuel s body i rest ≡ run s body i rest
unfolding scan_loop str_outcome run
scan_loop-run zero s body i [] h = refl
scan_loop-run zero s body i (c ∷ rest) h = ground arith
scan_loop-run (suc fuel) s body i [] h = refl
scan_loop-run (suc fuel) s body i (c ∷ rest) h =
    let lighter = step-lighter s in
    let e = step-run s body i c rest in
    elim (Outcome-cases (step s body i c rest)) [
      | inl (s', k) ↦ ground (arith, e, k)
      | inr (s', j, left, k) ↦
          let l = lighter s' body i j c rest left k in
          ground (arith, e, k, l, scan_loop-run fuel s' body j left)
    ]

-- `feed` with the machine for its loop.
unfoldable pub feed_bytewise : BodyScan → Bytes → Bool → BodyScan
feed_bytewise s body last =
    let (s', ok) = run s body s.pos (drop s.pos body) in
    if not (is_more s.verdict) then s else if ok then finish s' body last else refuse s'

-- At every state and for every body, `feed`, which scans the runs of plain bytes and of two-byte
-- escapes of a string apart and reads the byte that ends a number a second time, leaves the state
-- that taking every byte exactly once leaves; the loop never ends for want of fuel.
pub feed-feed_bytewise :
    (s : BodyScan) (body : Bytes) (last : Bool) → feed s body last ≡ feed_bytewise s body last
unfolding feed feed_bytewise
feed-feed_bytewise s body last =
    let rest = drop s.pos body in
    let h : weight s rest ≤ 2 * length rest + 1 = ground arith in
    rw (scan_loop-run (2 * length rest + 1) s body s.pos rest h) refl
