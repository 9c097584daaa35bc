-- ===== src/Provider/BodyScan/Grown.antt =====
-- One byte of `BodyScan::feed`: what it does does not change when the body grows behind it.
use llmbridge.Base.{ℕ, ◌+◌, ◌≤◌, ◌≡◌, ◌++◌, length, arith}
use llmbridge.Base.Bytes.{Bytes}
use llmbridge.Provider.BodyScan.{BodyScan, colon}
use llmbridge.Provider.BodyScan.Keys.{value_done}
use llmbridge.Provider.BodyScan.Untold.{byte_step-SameKeys, value_done-SameKeys}
use llmbridge.Provider.BodyScan.Spans.{
  IsInside, IsInside-later, IsInside-same, key_done-append, key_done-IsInside, key_done-verdict,
}
use llmbridge.Provider.BodyScan.Moved.{
  at_pos, moved, byte_step-at_pos, value_done-at_pos, key_done-at_pos,
}
use llmbridge.Provider.BodyScan.Bytewise.{byte_step}
use llmbridge.Provider.BodyScan.Feed.{str_end}
use llmbridge.Provider.BodyScan.Feed.Machine.{str_byte, take_byte}

str_end-append :
    (s : BodyScan) (a b : Bytes) (i d : ℕ)
    → i ≤ length a
    → IsInside (length a) s
    → str_end s (a ++ b) i d ≡ str_end s a i d
unfolding str_end
str_end-append s a b i d h l =
    let k =
      key_done-append (record s { st = colon }) a b i h
        (record { top = l.top; options = l.options }) in
    ground (arith, k)

str_end-IsInside :
    (s : BodyScan) (body : Bytes) (i d : ℕ) → IsInside i s → IsInside (i + 1) (str_end s body i d).0
unfolding str_end
str_end-IsInside s body i d h =
    let l = IsInside-later i (i + 1) s (omega arith) h in
    let k =
      key_done-IsInside (record s { st = colon }) body i (i + 1) (omega arith)
        (record { top = l.top; options = l.options }) in
    let v = IsInside-same (i + 1) s (value_done s (i + 1)).0 (value_done-SameKeys s (i + 1)) l in
    record {
      top = ground (arith, l.top, k.top, v.top);
      options = ground (arith, l.options, k.options, v.options);
    }

str_end-at_pos :
    (p : ℕ) (s : BodyScan) (body : Bytes) (i d : ℕ)
    → str_end (at_pos p s) body i d ≡ moved p (str_end s body i d)
unfolding str_end
str_end-at_pos p s body i d =
    let k = key_done-at_pos p (record s { st = colon }) body i in
    let v = value_done-at_pos p s (i + 1) in ground (arith, k, v)

str_end-verdict :
    (s : BodyScan) (body : Bytes) (i d : ℕ) → (str_end s body i d).0.verdict ≡ s.verdict
unfolding str_end
str_end-verdict s body i d =
    let k = key_done-verdict (record s { st = colon }) body i in
    let v = value_done-SameKeys s (i + 1) in ground (arith, k, v)

pub take_byte-append :
    (s : BodyScan) (a b : Bytes) (i c : ℕ)
    → i ≤ length a
    → IsInside (length a) s
    → take_byte s (a ++ b) i c ≡ take_byte s a i c
unfolding take_byte str_byte
take_byte-append s a b i c h l = let e = str_end-append s a b i c h l in ground (arith, e)

pub take_byte-at_pos :
    (p : ℕ) (s : BodyScan) (body : Bytes) (i c : ℕ)
    → take_byte (at_pos p s) body i c ≡ moved p (take_byte s body i c)
unfolding take_byte str_byte
take_byte-at_pos p s body i c =
    let e = str_end-at_pos p s body i c in
    let t = (byte_step s.st s i c).0 in
    let g = byte_step-at_pos s.st p s i c in
    let g' = byte_step-at_pos t.st p t i c in ground (arith, e, g, g')

pub take_byte-verdict :
    (s : BodyScan) (body : Bytes) (i c : ℕ) → (take_byte s body i c).0.verdict ≡ s.verdict
unfolding take_byte str_byte
take_byte-verdict s body i c =
    let e = str_end-verdict s body i c in
    let t = (byte_step s.st s i c).0 in
    let g = byte_step-SameKeys s.st s i c in
    let g' = byte_step-SameKeys t.st t i c in ground (arith, e, g, g')

pub take_byte-IsInside :
    (s : BodyScan) (body : Bytes) (i c : ℕ)
    → IsInside i s
    → IsInside (i + 1) (take_byte s body i c).0
unfolding take_byte str_byte
take_byte-IsInside s body i c h =
    let l = IsInside-later i (i + 1) s (omega arith) h in
    let e = str_end-IsInside s body i c h in
    let t = (byte_step s.st s i c).0 in
    let lt = IsInside-same (i + 1) s t (byte_step-SameKeys s.st s i c) l in
    let g = IsInside-same (i + 1) t (byte_step t.st t i c).0 (byte_step-SameKeys t.st t i c) lt in
    record {
      top = ground (arith, l.top, e.top, lt.top, g.top);
      options = ground (arith, l.options, e.options, lt.options, g.options);
    }
