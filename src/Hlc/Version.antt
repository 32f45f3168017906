-- ===== src/Hlc/Version.antt =====
-- `hlcToInt64` of internal/cluster/writer.go: a clock's timestamp as the version of an item.
use grid_kv.Base.{
  ℕ, ◌+◌, ◌*◌, ◌/◌, ◌%◌, ◌^◌, ◌<◌, ◌≡◌, true, none, some, Str, slt, ltb, ◌==◌, if◌then◌else◌, arith,
}
use grid_kv.Hlc.Defs.{format, parse_remote}
use grid_kv.Hlc.Digits.{NoColon, parse_remote-format}
use grid_kv.Hlc.Order.{earlier}

-- `(tsTruncated << 16) | int64(ctr&0xFFFF)`: the low 16 bits of the first part are 0, so the
-- bitwise or is a sum.
unfoldable pub encode_version : ℕ → ℕ → ℕ
encode_version ts ctr =
    let counter = if ltb 65535 ctr then 65535 else ctr in
    (ts % 2 ^ 48) * 2 ^ 16 % 2 ^ 64 + counter % 2 ^ 16

-- `unix_nano` is the wall clock, for a text that cannot be read.
unfoldable pub hlc_to_int64 : ℕ → Str → ℕ
unfolding parse_remote encode_version
hlc_to_int64 unix_nano text = elim (parse_remote text) [
  | none ↦ unix_nano
  | some (ts, ctr) ↦ encode_version ts ctr
]

hlc_to_int64-format :
    (unix_nano : ℕ) (node_id : Str) (ts ctr : ℕ)
    → NoColon node_id
    → ts < 2 ^ 63
    → ctr < 2 ^ 63
    → hlc_to_int64 unix_nano (format node_id ts ctr) ≡ encode_version ts ctr
unfolding hlc_to_int64
hlc_to_int64-format unix_nano node_id ts ctr n a b =
    rw (parse_remote-format node_id ts ctr n a b, hlc_to_int64)

encode_version_later :
    (t c t' c' : ℕ)
    → t < 2 ^ 63
    → t' < 2 ^ 63
    → c < 2 ^ 16
    → c' < 2 ^ 16
    → t / 2 ^ 47 ≡ t' / 2 ^ 47
    → earlier t c t' c' ≡ true
    → slt (encode_version t c) (encode_version t' c') ≡ true
unfolding encode_version slt
encode_version_later t c t' c' a b e f w h = ground arith

-- Within one window of 2^47 nanoseconds (39 hours), versions keep the order of the timestamps that
-- they are made from: a later time, or the same time with a larger counter, is a larger version as
-- an int64. The timestamps are below 2^63, the counters below 2^16, and the node IDs have no colon.
pub hlc_to_int64_later :
    (unix unix' : ℕ) (id id' : Str) (t c t' c' : ℕ)
    → NoColon id
    → NoColon id'
    → t < 2 ^ 63
    → t' < 2 ^ 63
    → c < 2 ^ 16
    → c' < 2 ^ 16
    → t / 2 ^ 47 ≡ t' / 2 ^ 47
    → earlier t c t' c' ≡ true
    → slt (hlc_to_int64 unix (format id t c)) (hlc_to_int64 unix' (format id' t' c')) ≡ true
hlc_to_int64_later unix unix' id id' t c t' c' n n' a b e f w h =
    rw
      (
        hlc_to_int64-format unix id t c n a (omega arith),
        hlc_to_int64-format unix' id' t' c' n' b (omega arith),
      )
      (encode_version_later t c t' c' a b e f w h)

encode_version_sign : (t c : ℕ) → slt (encode_version t c) 0 ≡ ((t / 2 ^ 47) % 2 == 1)
unfolding encode_version slt
encode_version_sign t c = ground arith

-- The version is negative exactly in every second window of 2^47 nanoseconds (39 hours), for a
-- timestamp and a counter below 2^63 and a node ID without a colon.
pub hlc_to_int64_sign :
    (unix : ℕ) (id : Str) (t c : ℕ)
    → NoColon id
    → t < 2 ^ 63
    → c < 2 ^ 63
    → slt (hlc_to_int64 unix (format id t c)) 0 ≡ ((t / 2 ^ 47) % 2 == 1)
hlc_to_int64_sign unix id t c n a b =
    rw (hlc_to_int64-format unix id t c n a b) (encode_version_sign t c)
