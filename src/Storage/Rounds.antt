-- ===== src/Storage/Rounds.antt =====
-- The rounds of eviction and their fuel.
use grid_kv.Base.{
  ℕ, zero, suc, ◌+◌, ◌≤◌, ◌≡◌, refl, sym, ap, Bool, true, false, ◌&&◌, slt, ltb, ◌==◌, add64,
  if◌then◌else◌, arith,
}
use grid_kv.Storage.Evict.{evict_batch_lru, evict_down}
use grid_kv.Storage.Shard.{MemStorage}

else_same {ℓ} :
    {A : Type ℓ} (b : Bool) (x y z : A)
    → (b ≡ false → y ≡ z)
    → (if b then x else y) ≡ (if b then x else z)
else_same true x y z h = refl
else_same false x y z h = h refl

full : (b : Bool) (e l : ℕ) → l ≤ e → b && ltb e l ≡ false
full b e l h = ground arith

module _ (size target limit : ℕ) where
  evict_down_stops :
      (fuel evicted : ℕ) (s : MemStorage)
      → limit ≤ evicted
      → evict_down fuel size target limit evicted s ≡ s
  unfolding evict_down
  evict_down_stops zero evicted s h = refl
  evict_down_stops (suc fuel) evicted s h =
      rw (full (slt target (add64 s.totals.bytes size)) evicted limit h) refl

  -- As many rounds as evictions are allowed are enough: with any larger fuel the eviction ends in
  -- the same store.
  pub evict_down_enough :
      (fuel fuel' evicted : ℕ) (s : MemStorage)
      → limit ≤ evicted + fuel
      → limit ≤ evicted + fuel'
      → evict_down fuel size target limit evicted s ≡ evict_down fuel' size target limit evicted s
  unfolding evict_down
  evict_down_enough zero fuel' evicted s h h' = sym (evict_down_stops fuel' evicted s (omega arith))
  evict_down_enough fuel zero evicted s h h' = evict_down_stops fuel evicted s (omega arith)
  evict_down_enough (suc fuel) (suc fuel') evicted s h h' =
      let (n, s') = evict_batch_lru s.config.evict_batch_size s in
      ap (λ r. if slt target (add64 s.totals.bytes size) && ltb evicted limit then r else s)
        (else_same (n == 0) s' (evict_down fuel size target limit (evicted + n) s')
          (evict_down fuel' size target limit (evicted + n) s')
          (λ some_gone.
            evict_down_enough fuel fuel' (evicted + n) s' (ground arith) (ground arith)))
