-- ===== src/Provider/BodyScan/Moved.antt =====
-- `BodyScan::step` never reads or writes the position of its scan.
use llmbridge.Base.{ℕ, ◌-◌, ◌≡◌, refl, Bool, true, false, ◌==◌, arith}
use llmbridge.Base.Bytes.{Bytes, slice}
use llmbridge.Provider.BodyScan.{
  BodyScan, St, value, arr_first, obj_first, obj_key, colon, obj_next, arr_next, in_str, lit, end,
  Stepped, ◌>>=◌,
}
use llmbridge.Provider.BodyScan.Keys.{value_done, key_done, key_member, key_model, key_set}
use llmbridge.Provider.BodyScan.Bytewise.{
  ByteStep, byte_step, token_step, number_step, literal_step, close_container, open_container,
  value_opens, value_step, key_step,
}

abbrev pub at_pos : ℕ → BodyScan → BodyScan
at_pos p s = record s { pos = p }

abbrev pub moved : ℕ → Stepped → Stepped
moved p (s, ok) = (at_pos p s, ok)

abbrev pub step_moved : ℕ → ByteStep → ByteStep
step_moved p (s, ok, taken) = (at_pos p s, ok, taken)

module _ (p : ℕ) (s : BodyScan) where
  pub value_done-at_pos : (e : ℕ) → value_done (at_pos p s) e ≡ moved p (value_done s e)
  unfolding value_done
  value_done-at_pos e = ground arith

  literal_step-at_pos :
      (i c : ℕ) → literal_step (at_pos p s) i c ≡ step_moved p (literal_step s i c)
  unfolding literal_step value_done
  literal_step-at_pos i c = ground arith

  number_step-at_pos : (i c : ℕ) → number_step (at_pos p s) i c ≡ step_moved p (number_step s i c)
  unfolding number_step
  number_step-at_pos i c = ground (arith, value_done-at_pos i)

  close_container-at_pos :
      (i : ℕ) → close_container (at_pos p s) i ≡ step_moved p (close_container s i)
  unfolding close_container value_done
  close_container-at_pos i = ground arith

  open_container-at_pos :
      (options : Bool) (i : ℕ) (o : Bool)
      → open_container (at_pos p s) options i o ≡ step_moved p (open_container s options i o)
  unfolding open_container
  open_container-at_pos options i o = ground arith

  value_opens-at_pos :
      (options : Bool) (i c : ℕ)
      → value_opens (at_pos p s) options i c ≡ step_moved p (value_opens s options i c)
  unfolding value_opens
  value_opens-at_pos options i c = ground (arith, open_container-at_pos options i (c == b'{'))

  key_step-at_pos : (i c : ℕ) → key_step (at_pos p s) i c ≡ step_moved p (key_step s i c)
  unfolding key_step
  key_step-at_pos i c = ground arith

  key_member-at_pos : (k : Bytes) → key_member (at_pos p s) k ≡ moved p (key_member s k)
  unfolding key_member
  key_member-at_pos k = ground arith

  key_model-at_pos : (k : Bytes) → key_model (at_pos p s) k ≡ moved p (key_model s k)
  unfolding key_model
  key_model-at_pos k = ground arith

  key_set-at_pos : (body k : Bytes) → key_set (at_pos p s) body k ≡ moved p (key_set s body k)
  unfolding key_set
  key_set-at_pos body k = ground arith

value_step-at_pos :
    (p : ℕ) (s : BodyScan) (i c : ℕ) → value_step (at_pos p s) i c ≡ step_moved p (value_step s i c)
unfolding value_step
value_step-at_pos p s i c =
    let plain = record s { options_next = false } in
    let held = record plain { model_next = false; model_open = true; model_at = i; hold = i } in
    let m = record plain { member_next = false; member_open = true; member_value = i } in
    let n = record held { member_next = false; member_open = true; member_value = i } in
    let a = value_opens-at_pos p plain s.options_next i c in
    let b = value_opens-at_pos p held s.options_next i c in
    let d = value_opens-at_pos p m s.options_next i c in
    let e = value_opens-at_pos p n s.options_next i c in ground (arith, a, b, d, e)

token_step-at_pos :
    (st : St) (p : ℕ) (s : BodyScan) (i c : ℕ)
    → token_step st (at_pos p s) i c ≡ step_moved p (token_step st s i c)
unfolding token_step
token_step-at_pos colon p s i c = refl
token_step-at_pos _ p s i c =
    let v = value_step-at_pos p s i c in
    let k = key_step-at_pos p s i c in
    let e = close_container-at_pos p s i in ground (arith, v, k, e)

pub byte_step-at_pos :
    (st : St) (p : ℕ) (s : BodyScan) (i c : ℕ)
    → byte_step st (at_pos p s) i c ≡ step_moved p (byte_step st s i c)
unfolding byte_step
byte_step-at_pos lit p s i c = literal_step-at_pos p s i c
byte_step-at_pos value p s i c = ground (arith, token_step-at_pos value p s i c)
byte_step-at_pos arr_first p s i c = ground (arith, token_step-at_pos arr_first p s i c)
byte_step-at_pos obj_first p s i c = ground (arith, token_step-at_pos obj_first p s i c)
byte_step-at_pos obj_key p s i c = ground (arith, token_step-at_pos obj_key p s i c)
byte_step-at_pos colon p s i c = ground (arith, token_step-at_pos colon p s i c)
byte_step-at_pos obj_next p s i c = ground (arith, token_step-at_pos obj_next p s i c)
byte_step-at_pos arr_next p s i c = ground (arith, token_step-at_pos arr_next p s i c)
byte_step-at_pos in_str p s i c = ground (arith, token_step-at_pos in_str p s i c)
byte_step-at_pos end p s i c = ground (arith, token_step-at_pos end p s i c)
byte_step-at_pos _ p s i c =
    let n = number_step-at_pos p s i c in let v = value_done-at_pos p s i in ground (arith, n, v)

bind-at_pos :
    (p : ℕ) (r r' : Stepped) (f : BodyScan → Stepped)
    → r' ≡ moved p r
    → f (at_pos p r.0) ≡ moved p (f r.0)
    → (r' >>= f) ≡ moved p (r >>= f)
bind-at_pos p (s, true) r' f h k = rw h k
bind-at_pos p (s, false) r' f h k = rw h refl

pub key_done-at_pos :
    (p : ℕ) (s : BodyScan) (body : Bytes) (e : ℕ)
    → key_done (at_pos p s) body e ≡ moved p (key_done s body e)
unfolding key_done
key_done-at_pos p s body e =
    let k = slice s.str (e - s.str) body in
    let closed = record s { key = false } in
    let a = key_member closed k in
    let b = key_model a.0 k in
    let last =
      bind-at_pos p b (key_model (at_pos p a.0) k) (λ s. key_set s body k)
        (key_model-at_pos p a.0 k) (key_set-at_pos p b.0 body k) in
    let told =
      bind-at_pos p a (key_member (at_pos p closed) k)
        (λ s. key_model s k >>= λ s. key_set s body k) (key_member-at_pos p closed k) last in
    ground (arith, told)
