-- ===== src/Gateway/OutBuf.antt =====
-- `OutBuf` (gateway/src/core/outbuf.hpp): the bytes owed to one socket, in two halves. Capacities
-- are not modelled, nor is the wiping of memory by `secure_clear`, which leaves an empty string.
pub mod Queue
use llmbridge.Base.{
  ℕ, ◌+◌, ◌-◌, Bool, true, false, ◌&&◌, not, [], ◌∷◌, ◌++◌, ◌==◌, if◌then◌else◌, length, drop,
}
use llmbridge.Base.Bytes.{Bytes, is_empty}

pub record OutBuf : Type 0 where
  pub front : Bytes
  pub back : Bytes
  pub off : ℕ
  pub pinned : Bool

abbrev pub new_buf : OutBuf
new_buf = record { front = []; back = []; off = 0; pinned = false }

-- `stage()` hands out the string where new bytes go, and its caller appends `bytes` to it.
unfoldable pub stage : OutBuf → Bytes → OutBuf
stage b bytes =
    if b.pinned
    then record b { back = b.back ++ bytes }
    else if not (b.off == 0) && b.off == length b.front
    then record b { front = bytes; off = 0 }
    else record b { front = b.front ++ bytes }

unfoldable pub wire : OutBuf → Bytes
wire b = drop b.off b.front

unfoldable pub pin : OutBuf → OutBuf
pin b = record b { pinned = true }

unfoldable pub sent : OutBuf → ℕ → OutBuf
unfolding is_empty
sent b n =
    let off = b.off + n in
    if is_empty b.back
    then record b { off = off; pinned = false }
    else if off == length b.front
    then record { front = b.back; back = []; off = 0; pinned = false }
    else record { front = b.front ++ b.back; back = []; off = off; pinned = false }

unfoldable pub idle : OutBuf → Bool
unfolding is_empty
idle b = b.off == length b.front && is_empty b.back

unfoldable pub unsent : OutBuf → ℕ
unsent b = length b.front - b.off + length b.back

-- The bytes taken, and the buffer without them.
unfoldable pub take_all : OutBuf → Bytes × OutBuf
take_all b =
    if b.pinned
    then (b.front ++ b.back, record b { back = [] })
    else (b.front ++ b.back, record b { front = []; back = []; off = 0 })

-- The storage of the string adopted is a capacity only.
unfoldable pub adopt : OutBuf → Bytes → OutBuf
adopt b s = record b { front = []; off = 0 }

unfoldable pub clear : OutBuf → OutBuf
clear b = record b { front = []; back = []; off = 0 }

unfoldable pub scrub : OutBuf → OutBuf
scrub b = record b { front = []; back = []; off = 0 }
