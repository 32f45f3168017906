-- ===== src/Cache/Sketch.antt =====
-- internal/utils/cache/tinylfu.go: the Count-Min sketch and TinyLFU. The hash fnv is a library, and
-- so a parameter. The hit rate, a float that only reports, is left out.
use grid_kv.Base.{
  ℕ, ◌+◌, ◌*◌, ◌/◌, ◌%◌, ◌^◌, Bool, ◌||◌, none, some, List, [], ◌∷◌, Str, get_elem?, set, replicate,
  ltb, ◌==◌, if◌then◌else◌,
}
use Prim.Native.Nat.{bit_xor}

-- The depth is the number of rows in `counts`, each of `width` counters.
pub record CountMinSketch : Type 0 where
  pub width : ℕ
  pub seed : ℕ
  pub counts : List (List ℕ)

unfoldable pub new_count_min_sketch : ℕ → ℕ → CountMinSketch
new_count_min_sketch width depth = record {
  width = width;
  seed = 0x12345678;
  counts = replicate depth (replicate width 0);
}

abbrev xor_shift : ℕ → ℕ
xor_shift h = bit_xor h (h / 2 ^ 33)

unfoldable pub hash64 : ℕ → ℕ
hash64 h =
    let a = xor_shift h * 0xff51afd7ed558ccd % 2 ^ 64 in
    let b = xor_shift a * 0xc4ceb9fe1a85ec53 % 2 ^ 64 in xor_shift b

-- `h % uint64(cms.width)` for the row `i`
unfoldable pub column : ℕ → CountMinSketch → ℕ → ℕ
unfolding hash64
column h1 s i = (h1 + i * hash64 h1 + s.seed * i) % 2 ^ 64 % s.width

-- `cms.counts[i][idx]`; the column is below the width.
abbrev pub count_at : List ℕ → ℕ → ℕ
count_at row i = elim (get_elem? row i) [ none ↦ 0 | some n ↦ n ]

-- The loops over the rows, from the row `i` on.
unfoldable pub min_count : (ℕ → ℕ) → ℕ → List (List ℕ) → ℕ → ℕ
min_count slot i [] low = low
min_count slot i (row ∷ rows) low =
    let count = count_at row (slot i) in
    min_count slot (i + 1) rows (if (i == 0) || ltb count low then count else low)

-- A counter stops at its largest value.
abbrev pub bump : ℕ → ℕ
bump n = if ltb n 0xFFFFFFFFFFFFFFFF then n + 1 else n

unfoldable pub bump_rows : (ℕ → ℕ) → ℕ → List (List ℕ) → List (List ℕ)
bump_rows slot i [] = []
bump_rows slot i (row ∷ rows) =
    set row (slot i) (bump (count_at row (slot i))) ∷ bump_rows slot (i + 1) rows

unfoldable pub halve_row : List ℕ → List ℕ
halve_row [] = []
halve_row (n ∷ row) = n / 2 ∷ halve_row row

unfoldable pub halve_rows : List (List ℕ) → List (List ℕ)
unfolding halve_row
halve_rows [] = []
halve_rows (row ∷ rows) = halve_row row ∷ halve_rows rows

-- `Reset`
unfoldable pub halve : CountMinSketch → CountMinSketch
unfolding halve_rows
halve s = record s { counts = halve_rows s.counts }

module _ (fnv : Str → ℕ) where
  unfoldable pub estimate : Str → CountMinSketch → ℕ
  unfolding min_count column
  estimate key s = min_count (column (fnv key) s) 0 s.counts 0

  unfoldable pub increment : Str → CountMinSketch → CountMinSketch
  unfolding bump_rows column
  increment key s = record s { counts = bump_rows (column (fnv key) s) 0 s.counts }

pub record TinyLfu : Type 0 where
  pub filter : CountMinSketch
  pub hits : ℕ
  pub misses : ℕ

unfoldable pub new_tiny_lfu : TinyLfu
unfolding new_count_min_sketch
new_tiny_lfu = record { filter = new_count_min_sketch 512 4; hits = 0; misses = 0 }

-- `TinyLFU.Reset`
unfoldable pub age : TinyLfu → TinyLfu
unfolding halve
age t = record t { filter = halve t.filter }

unfoldable pub record_access : (Str → ℕ) → Str → Bool → TinyLfu → TinyLfu
unfolding increment
record_access fnv key hit t =
    if hit
    then record t { filter = increment fnv key t.filter; hits = (t.hits + 1) % 2 ^ 64 }
    else record t { misses = (t.misses + 1) % 2 ^ 64 }
