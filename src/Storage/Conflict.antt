-- ===== src/Storage/Conflict.antt =====
-- `ResolveConflict` of internal/mem_storage/stored_item.go against last-write-wins.
use grid_kv.Base.{
  ℕ, ◌-◌, ◌/◌, ◌^◌, ◌<◌, ◌≡◌, true, false, not, ◌&&◌, ◌||◌, some, slt, slt_asymm, slt_nonneg, sub64,
  ltb, ◌==◌, arith,
}
use grid_kv.Storage.Item.{
  StoredItem, is_expired, prefer_live, strict_winner, windowed_winner, is_future, resolve_conflict,
}

-- A gap of more than 100 ms is a gap of more than 1000 between the versions.
medium_gap :
    (v w : ℕ)
    → v < 2 ^ 63
    → w < 2 ^ 63
    → 100000000 < w / 2 ^ 16 - v / 2 ^ 16
    → slt 1000 (sub64 w v) ≡ true
unfolding slt sub64
medium_gap v w a b h = ground arith

medium_gap_back :
    (v w : ℕ)
    → v < 2 ^ 63
    → w < 2 ^ 63
    → 100000000 < v / 2 ^ 16 - w / 2 ^ 16
    → slt 1000 (sub64 w v) ≡ false
unfolding slt sub64
medium_gap_back v w a b h = ground arith

-- The same, from the sign bits.
not_negative : (v : ℕ) → v < 2 ^ 63 → slt v 0 ≡ false
unfolding slt
not_negative v a = ground arith

sign_not_older : (v w : ℕ) → slt v 0 ≡ true → slt w 0 ≡ false → slt w v ≡ false
unfolding slt
sign_not_older v w a b = ground arith

medium_not_older :
    (v w : ℕ) → slt v 0 ≡ false → slt w 0 ≡ false → slt 1000 (sub64 w v) ≡ true → slt w v ≡ false
unfolding slt sub64
medium_not_older v w a b h = ground arith

medium_asymm :
    (v w : ℕ)
    → slt v 0 ≡ false
    → slt w 0 ≡ false
    → slt 1000 (sub64 w v) ≡ true
    → slt 1000 (sub64 v w) ≡ false
unfolding slt sub64
medium_asymm v w a b h = ground arith

module _ (now : ℕ) (item other : StoredItem) where
  strict_winner_not_older :
      strict_winner now item other ≡ true → slt other.version item.version ≡ false
  unfolding strict_winner
  strict_winner_not_older h = ground (arith, slt_asymm item.version other.version)

  strict_winner_asymm : strict_winner now item other ≡ true → strict_winner now other item ≡ false
  unfolding strict_winner prefer_live
  strict_winner_asymm h = ground (arith, slt_asymm item.version other.version)

  windowed_winner_not_older :
      slt item.version 0 ≡ false
      → slt other.version 0 ≡ false
      → windowed_winner now item other ≡ true
      → slt other.version item.version ≡ false
  unfolding windowed_winner
  windowed_winner_not_older a b h = ground (
    arith,
    strict_winner_not_older,
    slt_asymm item.version other.version,
    medium_not_older item.version other.version a b,
  )

  windowed_winner_asymm :
      slt item.version 0 ≡ false
      → slt other.version 0 ≡ false
      → windowed_winner now item other ≡ true
      → windowed_winner now other item ≡ false
  unfolding windowed_winner
  windowed_winner_asymm a b h = ground (
    arith,
    strict_winner_asymm,
    slt_asymm item.version other.version,
    medium_asymm item.version other.version a b,
  )

  windowed_winner_strict :
      item.version < 2 ^ 63
      → other.version < 2 ^ 63
      → windowed_winner now item other ≡ strict_winner now item other
  unfolding windowed_winner strict_winner
  windowed_winner_strict a b = ground (
    arith,
    slt_nonneg item.version other.version a b,
    slt_nonneg other.version item.version b a,
    medium_gap item.version other.version a b,
    medium_gap_back item.version other.version a b,
  )

module _ (now unix_nano : ℕ) (item other : StoredItem) where
  -- For two versions that are not negative and not in the future, the windows of 100 ms and 500 ms
  -- make no difference: the other item wins exactly if its version is larger, or the versions are
  -- equal, the other item is live and the item has expired.
  pub resolve_conflict_last_write_wins :
      item.version < 2 ^ 63
      → other.version < 2 ^ 63
      → is_future unix_nano item ≡ false
      → is_future unix_nano other ≡ false
      → resolve_conflict now unix_nano item (some other) ≡ (
          ltb item.version other.version
          || (item.version == other.version) && is_expired now item && not (is_expired now other))
  unfolding resolve_conflict strict_winner prefer_live
  resolve_conflict_last_write_wins a b f g =
      rw
        (
          not_negative item.version a,
          not_negative other.version b,
          f,
          g,
          windowed_winner_strict now item other a b,
        )
        (rw (slt_nonneg item.version other.version a b, slt_nonneg other.version item.version b a)
          (ground arith))

  -- If the other item wins, its version is not older as an int64.
  pub resolve_conflict_not_older :
      resolve_conflict now unix_nano item (some other) ≡ true
      → slt other.version item.version ≡ false
  unfolding resolve_conflict
  resolve_conflict_not_older h = ground (
    arith,
    slt_asymm item.version other.version,
    sign_not_older item.version other.version,
    windowed_winner_not_older now item other,
  )

  -- Two items never replace one another.
  pub resolve_conflict_asymm :
      resolve_conflict now unix_nano item (some other) ≡ true
      → resolve_conflict now unix_nano other (some item) ≡ false
  unfolding resolve_conflict
  resolve_conflict_asymm h = ground (
    arith,
    slt_asymm item.version other.version,
    sign_not_older other.version item.version,
    sign_not_older item.version other.version,
    windowed_winner_asymm now item other,
  )
