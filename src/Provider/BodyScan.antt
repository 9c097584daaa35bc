-- ===== src/Provider/BodyScan.antt =====
-- The state of `BodyScan` (provider/include/provider/body_scan.hpp, provider/src/body_scan.cpp), a
-- recognizer of JSON that a body is fed to as it arrives. Its steps are in the children.
pub mod Keys
pub mod Bytewise
pub mod Untold
mod Spans
pub mod Moved
pub mod Feed
mod Grown
mod Runs
pub mod Resume
use Prim.Native.Nat.{bit_and, bit_or}
use Prim.Native.String.{String}
use llmbridge.Base.{
  ℕ, zero, suc, ◌+◌, ◌-◌, ◌*◌, ◌/◌, ◌%◌, ◌^◌, Bool, true, false, not, ◌&&◌, ◌||◌, List, [], ◌∷◌,
  ◌++◌, Option, none, some, ltb, leb, ◌==◌, if◌then◌else◌, length, get_or, min,
}
use llmbridge.Base.Bytes.{Bytes, codes, same, slice, find_byte}

pub data St : Type 0 where
  value arr_first obj_first obj_key colon obj_next arr_next : St
  in_str str_esc str_hex : St
  num_sign num_zero num_int num_dot num_frac num_e num_esign num_exp : St
  lit end : St

pub data Verdict : Type 0 where
  more done refused : Verdict

-- `SIZE_MAX`
abbrev pub size_max : ℕ
size_max = 2 ^ 64 - 1

abbrev pub max_depth : ℕ
max_depth = 64

abbrev pub max_keys : ℕ
max_keys = 256

pub record Span : Type 0 where
  pub at : ℕ
  pub len : ℕ

pub record Member : Type 0 where
  pub at : ℕ
  pub value_at : ℕ
  pub end : ℕ
  pub bit : ℕ

pub record BodyScan : Type 0 where
  pub top : List Span
  pub options : List Span
  pub kinds : ℕ
  pub pos : ℕ
  pub hold : ℕ
  pub str : ℕ
  pub model_at : ℕ
  pub model_end : ℕ
  pub open_at : ℕ
  pub member_at : ℕ
  pub member_value : ℕ
  pub found : List Member
  pub members : ℕ
  pub members_seen : ℕ
  pub member_bit : ℕ
  pub has_member : Bool
  pub member_next : Bool
  pub member_open : Bool
  pub depth : ℕ
  pub options_depth : ℕ
  pub st : St
  pub lit_at : ℕ
  pub hex : ℕ
  pub key : Bool
  pub tracked : Bool
  pub options_next : Bool
  pub all_keys : Bool
  pub track_model : Bool
  pub model_next : Bool
  pub model_open : Bool
  pub model_seen : Bool
  pub why : Option String
  pub verdict : Verdict

-- `reset(all_keys, track_model, members)`
unfoldable pub reset : Bool → Bool → ℕ → BodyScan
reset all_keys track_model members = record {
  top = [];
  options = [];
  kinds = 0;
  pos = 0;
  hold = size_max;
  str = 0;
  model_at = size_max;
  model_end = size_max;
  open_at = size_max;
  member_at = 0;
  member_value = 0;
  found = [];
  members = members;
  members_seen = 0;
  member_bit = 0;
  has_member = false;
  member_next = false;
  member_open = false;
  depth = 0;
  options_depth = 0;
  st = value;
  lit_at = 0;
  hex = 0;
  key = false;
  tracked = false;
  options_next = false;
  all_keys = all_keys;
  track_model = track_model;
  model_next = false;
  model_open = false;
  model_seen = false;
  why = none;
  verdict = more;
}

-- `safe()`
unfoldable pub safe : BodyScan → ℕ
safe s = if ltb s.hold s.pos then s.hold else s.pos

-- A step's state and its result; `false` refuses.
abbrev pub Stepped : Type 0
Stepped = BodyScan × Bool

abbrev pub refuse_with : BodyScan → String → Stepped
refuse_with s reason = (record s { why = some reason }, false)

infixl 5 ◌>>=◌
abbrev pub ◌>>=◌ : Stepped → (BodyScan → Stepped) → Stepped
◌>>=◌ (s, ok) f = if ok then f s else (s, false)

-- Bit `d` of `k`, and `k` with that bit as given.
abbrev pub bit_at : ℕ → ℕ → Bool
bit_at k d = k / 2 ^ d % 2 == 1

abbrev pub with_bit : ℕ → ℕ → Bool → ℕ
with_bit k d b = k - k / 2 ^ d % 2 * 2 ^ d + (if b then 2 ^ d else 0)
