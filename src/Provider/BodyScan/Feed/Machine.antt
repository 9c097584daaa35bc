-- ===== src/Provider/BodyScan/Feed/Machine.antt =====
-- `BodyScan::feed` as a machine that takes every byte once, with no runs and no rereading.
use llmbridge.Base.{
  ℕ, ◌+◌, ◌≡◌, refl, ◌∙◌, Bool, true, false, not, ◌||◌, [], ◌∷◌, ◌==◌, if◌then◌else◌, arith,
}
use llmbridge.Base.Bytes.{Bytes}
use llmbridge.Provider.BodyScan.{
  BodyScan, St, value, colon, obj_next, arr_next, in_str, str_esc, end, Stepped,
}
use llmbridge.Provider.BodyScan.Keys.{value_done}
use llmbridge.Provider.BodyScan.Bytewise.{
  is_short_escape, byte_step, token_step, number_step, literal_step, close_container,
  open_container, value_opens, value_step, key_step,
}
use llmbridge.Provider.BodyScan.Feed.{
  is_stop, str_run, str_end, str_step, is_str, Outcome, stop, next, outcome,
}

-- A byte in a string.
unfoldable pub str_byte : BodyScan → Bytes → ℕ → ℕ → Stepped
str_byte s body i c = if is_stop c then str_end s body i c else (s, true)

-- A byte anywhere; one that ends a number goes on to the container.
unfoldable pub take_byte : BodyScan → Bytes → ℕ → ℕ → Stepped
take_byte s body i c =
    let (s', ok, taken) = byte_step s.st s i c in
    let (s'', ok', _) = byte_step s'.st s' i c in
    if is_str s.st then str_byte s body i c else if taken || not ok then (s', ok) else (s'', ok')

unfoldable pub run : BodyScan → Bytes → ℕ → Bytes → Stepped
run s body i [] = (s, true)
run s body i (c ∷ rest) =
    let (s', ok) = take_byte s body i c in
    elim ok [ true ↦ run s' body (i + 1) rest | false ↦ (s', false) ]

-- Between two tokens, behind a value.
abbrev pub is_behind : St → Bool
is_behind end = true
is_behind obj_next = true
is_behind arr_next = true
is_behind _ = false

value_done-behind :
    (s : BodyScan) (e : ℕ) → (is_behind (value_done s e).0.st ≡ true) × ((value_done s e).1 ≡ true)
unfolding value_done
value_done-behind s e = (ground arith, ground arith)

open_container-taken :
    (s : BodyScan) (options : Bool) (i : ℕ) (o : Bool) → (open_container s options i o).2 ≡ true
unfolding open_container
open_container-taken s options i o = ground arith

value_opens-taken : (s : BodyScan) (options : Bool) (i c : ℕ) → (value_opens s options i c).2 ≡ true
unfolding value_opens
value_opens-taken s options i c = ground (arith, open_container-taken s options i (c == b'{'))

value_step-taken : (s : BodyScan) (i c : ℕ) → (value_step s i c).2 ≡ true
unfolding value_step
value_step-taken s i c = grind (arith, value_opens-taken)

token_step-taken : (st : St) (s : BodyScan) (i c : ℕ) → (token_step st s i c).2 ≡ true
unfolding token_step key_step close_container
token_step-taken colon s i c = refl
token_step-taken _ s i c = ground (arith, value_step-taken s i c)

-- A byte that is not taken has ended a number.
pub byte_step-reread :
    (st : St) (s : BodyScan) (i c : ℕ)
    → (byte_step st s i c).2 ≡ false
    → (byte_step st s i c).1 ≡ true
    → is_behind (byte_step st s i c).0.st ≡ true
unfolding byte_step number_step literal_step
byte_step-reread value s i c h k = ground (arith, token_step-taken value s i c)
byte_step-reread st s i c h k = ground (arith, token_step-taken st s i c, value_done-behind s i)

pub byte_step-behind :
    (st : St) (s : BodyScan) (i c : ℕ) → is_behind st ≡ true → (byte_step st s i c).2 ≡ true
unfolding byte_step
byte_step-behind end s i c h = ground (arith, token_step-taken end s i c)
byte_step-behind obj_next s i c h = ground (arith, token_step-taken obj_next s i c)
byte_step-behind arr_next s i c h = ground (arith, token_step-taken arr_next s i c)
byte_step-behind _ s i c h = cc

pub behind-not_str : (st : St) → is_behind st ≡ true → is_str st ≡ false
behind-not_str in_str h = cc
behind-not_str _ h = ground arith

-- What the machine does behind an outcome of `step`.
unfoldable pub str_outcome : BodyScan → Bytes → Outcome → Stepped
str_outcome s body (stop s') = (s', false)
str_outcome s body (next s' i rest) = run s' body i rest

same_str : (s : BodyScan) → s.st ≡ in_str → record s { st = in_str } ≡ s
same_str s m = ground arith

run-plain :
    (rest : Bytes) (s : BodyScan) (body : Bytes) (i c : ℕ)
    → s.st ≡ in_str
    → is_stop c ≡ false
    → run s body i (c ∷ rest) ≡ run s body (i + 1) rest
unfolding run take_byte str_byte
run-plain rest s body i c m h = ground arith

run-stop :
    (rest : Bytes) (s : BodyScan) (body : Bytes) (i c : ℕ)
    → s.st ≡ in_str
    → is_stop c ≡ true
    → run s body i (c ∷ rest) ≡ str_outcome s body (outcome (str_end s body i c) (i + 1) rest)
unfolding run take_byte str_byte str_outcome
run-stop rest s body i c m h = ground arith

run-esc :
    (rest : Bytes) (s : BodyScan) (body : Bytes) (i e : ℕ)
    → (e == b'u') ≡ false
    → run (record s { st = str_esc }) body i (e ∷ rest)
      ≡ str_outcome s body (outcome (record s { st = in_str }, is_short_escape e) (i + 1) rest)
unfolding run take_byte str_outcome byte_step
run-esc rest s body i e h = ground arith

run-backslash :
    (rest : Bytes) (s : BodyScan) (body : Bytes) (i c e : ℕ)
    → s.st ≡ in_str
    → (c == b'\\') ≡ true
    → (e == b'u') ≡ false
    → run s body i (c ∷ e ∷ rest) ≡ str_outcome s body (outcome (s, is_short_escape e) (i + 2) rest)
run-backslash rest s body i c e m h k =
    let two : i + 1 + 1 ≡ i + 2 = omega arith in
    run-stop (e ∷ rest) s body i c m (ground arith)
    ∙ unfold str_end str_outcome in
      ground (arith, run-esc rest s body (i + 1) e k, same_str s m, two)

-- The run of a string is a run of the machine.
pub run-str_run :
    (rest : Bytes) (s : BodyScan) (body : Bytes) (i : ℕ)
    → s.st ≡ in_str
    → run s body i rest ≡ str_outcome s body (str_step s body (str_run i rest))
unfolding str_outcome str_step str_run
run-str_run [] s body i m = refl
run-str_run (c ∷ []) s body i m =
    ground (arith, run-plain [] s body i c m, run-stop [] s body i c m)
run-str_run (c ∷ e ∷ rest) s body i m = ground (
  arith,
  run-plain (e ∷ rest) s body i c m,
  run-stop (e ∷ rest) s body i c m,
  run-backslash rest s body i c e m,
  run-str_run (e ∷ rest) s body (i + 1) m,
  run-str_run rest s body (i + 2) m,
)
