-- ===== src/Reader/Repair.antt =====
-- internal/cluster/reader.go: read repair, which writes the newest item that a read met through the
-- writer of the node. The executor takes every task, and the writer is there.
use mathlib.Core.List.{Mem}
use grid_kv.Base.{
  ℕ, ◌≡◌, refl, true, false, Option, none, some, List, [], ◌∷◌, Str, Map, load, slt, if◌then◌else◌, ◌⊎◌,
  inl, inr, if_cases, arith,
}
use grid_kv.Node.{Libs}
use grid_kv.Reader.Best.{NotOlder, best_from-some, All-Mem}
use grid_kv.Reader.Replicas.{best_from}
use grid_kv.Reader.Limiter.{RateLimiter, new_rate_limiter, allow}
use grid_kv.Storage.Item.{StoredItem}
use grid_kv.Writer.Defs.{Writer, write_key, next_version}
use grid_kv.Writer.Versions.{After, Small, next_version-After}

-- `newReadRepair`; the rate is an int64.
unfoldable pub new_read_repair : ℕ → ℕ → RateLimiter
unfolding new_rate_limiter
new_read_repair now rate = new_rate_limiter now (if slt 0 rate then rate else 100)

-- `maxVersion`
abbrev pub newest_of : StoredItem → List StoredItem → Option StoredItem
newest_of item items = best_from (some item) items

-- `Repair`, and the task that it hands to the executor: `now` is the limiter's clock, `wall` the
-- writer's.
unfoldable pub repair_key :
    Libs
    → (Map ℕ → Map ℕ)
    → ℕ
    → ℕ
    → Str
    → List StoredItem
    → RateLimiter × Writer
    → RateLimiter × Writer
unfolding best_from allow write_key
repair_key libs shuffle now wall key [] (rl, w) = (rl, w)
repair_key libs shuffle now wall key (item ∷ items) (rl, w) =
    let (allowed, rl') = allow now rl in
    elim (newest_of item items) [
      | none ↦ (rl', w)
      | some newest ↦
          if allowed then (rl', (write_key libs shuffle wall key newest w).1) else (rl', w)
    ]

module _ (libs : Libs) (shuffle : Map ℕ → Map ℕ) where
  -- What a repair leaves of the writer: nothing new where the limiter refuses; where it allows the
  -- repair, a write of one of the items, than which none is newer, under a version that comes after
  -- the key's last one.
  abbrev pub Repaired : ℕ → ℕ → Str → List StoredItem → RateLimiter → Writer → Writer → Type 0
  Repaired now wall key items rl w after =
      (((allow now rl).0 ≡ false) × (after ≡ w))
      ⊎ ((newest : StoredItem) × ((allow now rl).0 ≡ true)
          × Mem newest items
          × ((y : StoredItem) → Mem y items → NotOlder newest y)
          × (after ≡ (write_key libs shuffle wall key newest w).1)
          × After (load key w.last_versions) (next_version shuffle wall key w).0)

  repair_key-found :
      (now wall : ℕ) (key : Str) (item : StoredItem) (items : List StoredItem) (rl : RateLimiter)
      (w : Writer) (x : StoredItem)
      → best_from (some item) items ≡ some x
      → (repair_key libs shuffle now wall key (item ∷ items) (rl, w)).1
        ≡ (if (allow now rl).0 then (write_key libs shuffle wall key x w).1 else w)
  unfolding repair_key
  repair_key-found now wall key item items rl w x is = rw (is, repair_key) (ground arith)

  -- A repair of at least one item leaves the writer as it is where the rate limiter refuses it.
  -- Where the limiter allows it, it writes one of the items, than which none is newer, as a new
  -- write, under a version of the writer's clock that comes after the last one that the writer gave
  -- to the key. That last version is below the largest int64.
  pub repair_key-Repaired :
      (now wall : ℕ) (key : Str) (item : StoredItem) (items : List StoredItem) (rl : RateLimiter)
      (w : Writer)
      → Small (load key w.last_versions)
      → Repaired now wall key
          (item ∷ items)
          rl
          w
          (repair_key libs shuffle now wall key (item ∷ items) (rl, w)).1
  repair_key-Repaired now wall key item items rl w small =
      let (x, is, m, first, rest) = best_from-some item items in
      rw (repair_key-found now wall key item items rl w x is) (
        if_cases (Repaired now wall key (item ∷ items) rl w) (allow now rl).0
          (write_key libs shuffle wall key x w).1 w
          (λ allowed. inr (
            x,
            allowed,
            m,
            All-Mem x (item ∷ items) (first, rest),
            refl,
            next_version-After libs shuffle wall key w small,
          ))
          (λ refused. inl (refused, refl)))
