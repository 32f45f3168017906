-- ===== src/Storage/Item.antt =====
-- internal/mem_storage/stored_item.go. Times are nanoseconds since Go's zero time, which stands for
-- "no expiration"; a version is the 64-bit pattern of an int64; a nil value is the empty list.
use grid_kv.Base.{
  ℕ, ◌+◌, ◌-◌, ◌/◌, ◌^◌, Bool, true, false, not, ◌&&◌, ◌||◌, Option, none, some, List, Str, length,
  slt, add64, sub64, ltb, leb, ◌==◌, if◌then◌else◌,
}

pub record StoredItem : Type 0 where
  pub version : ℕ
  pub expire_at : ℕ
  pub value : List ℕ
  pub key : Str

-- `IsExpired`, when the clock shows `now`
unfoldable pub is_expired : ℕ → StoredItem → Bool
is_expired now item = if item.expire_at == 0 then false else ltb item.expire_at now

abbrev pub hour : ℕ
hour = 3600000000000

-- The checks at the end: the versions are equal, so a live item is preferred.
unfoldable pub prefer_live : ℕ → StoredItem → StoredItem → Bool
unfolding is_expired
prefer_live now item other =
    if is_expired now other && not (is_expired now item)
    then false
    else if not (is_expired now other) && is_expired now item
    then true
    else false

-- "For larger time differences": the larger version, then the checks above.
unfoldable pub strict_winner : ℕ → StoredItem → StoredItem → Bool
unfolding prefer_live
strict_winner now item other =
    if slt item.version other.version
    then true
    else if slt other.version item.version
    then false
    else prefer_live now item other

abbrev pub time_diff : ℕ → ℕ → ℕ
time_diff item_ts other_ts = if ltb item_ts other_ts then other_ts - item_ts else item_ts - other_ts

-- The three time windows, for versions that are not negative.
unfoldable pub windowed_winner : ℕ → StoredItem → StoredItem → Bool
unfolding strict_winner
windowed_winner now item other =
    let diff = time_diff (item.version / 2 ^ 16) (other.version / 2 ^ 16) in
    if leb diff 100000000 && not (other.version == item.version)
    then slt item.version other.version
    else if leb diff 500000000 && not (other.version == item.version)
    then slt 1000 (sub64 other.version item.version)
    else strict_winner now item other

-- The time of the version is more than an hour ahead of the clock.
abbrev pub is_future : ℕ → StoredItem → Bool
is_future unix_nano item = slt (add64 unix_nano hour) (item.version / 2 ^ 16)

-- `now` is the time as an instant, `unix_nano` as an int64.
unfoldable pub resolve_conflict : ℕ → ℕ → StoredItem → Option StoredItem → Bool
resolve_conflict now unix_nano item none = false
resolve_conflict now unix_nano item (some other) =
    if slt item.version 0 && not (slt other.version 0)
    then true
    else if slt item.version 0 || slt other.version 0
    then slt item.version other.version
    else if is_future unix_nano item || is_future unix_nano other
    then false
    else windowed_winner now item other

-- -1, 0 and 1
pub data Sign : Type 0 where
  less equal greater : Sign

unfoldable pub compare_version : StoredItem → Option StoredItem → Sign
compare_version item none = Sign.greater
compare_version item (some other) =
    if slt item.version other.version
    then Sign.less
    else if slt other.version item.version
    then Sign.greater
    else Sign.equal

unfoldable pub is_tombstone : StoredItem → Bool
is_tombstone item = (length item.value == 0) && slt 0 item.version

-- `DeepCopy`, and `Copy`, which differ in what they share only; nil is `none`.
unfoldable pub deep_copy : Option StoredItem → Option StoredItem
deep_copy none = none
deep_copy (some item) = some (record {
  version = item.version;
  expire_at = item.expire_at;
  value = item.value;
  key = item.key;
})

unfoldable pub with_version : ℕ → StoredItem → StoredItem
with_version version item = record item { version = version }

-- A duration is an int64.
unfoldable pub with_ttl : ℕ → ℕ → StoredItem → StoredItem
with_ttl now ttl item = record item { expire_at = (if slt 0 ttl then now + ttl else 0) }

unfoldable pub size : Option StoredItem → ℕ
size none = 0
size (some item) = 64 + (24 + length item.value) + (16 + length item.key)

unfoldable pub is_valid : Option StoredItem → Bool
is_valid none = false
is_valid (some item) = slt 0 item.version
