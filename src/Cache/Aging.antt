-- ===== src/Cache/Aging.antt =====
-- The counters of internal/utils/cache/tinylfu.go beside an exact count of each key.
use grid_kv.Base.{
  ℕ, zero, suc, ◌+◌, ◌/◌, ◌≤◌, ◌<◌, ◌≡◌, refl, ap, ◌∙◌, Bool, true, false, List, [], ◌∷◌, Str,
  str_eq, str_eq_iff, All, length, length-set, length-replicate, get_elem?-set_self, set,
  if◌then◌else◌, arith,
}
use native.Mathlib.Nat.{mod-lt}
use grid_kv.Cache.Sketch.{
  CountMinSketch, column, count_at, min_count, bump, bump_rows, halve_row, halve_rows, halve,
  estimate, increment, TinyLfu, age, record_access, new_tiny_lfu,
}

-- Every row has the width of the sketch, and there is a row.
abbrev Sized : ℕ → List (List ℕ) → Type 0
Sized width rows = All (λ row. length row ≡ width) rows

pub record IsSketch (s : CountMinSketch) : Type 0 where
  pub wide : 0 < s.width
  pub sized : Sized s.width s.counts
  pub deep : 0 < length s.counts

count_at-set_self : (row : List ℕ) (i v : ℕ) → i < length row → count_at (set row i v) i ≡ v
count_at-set_self row i v lt = rw (get_elem?-set_self row i v lt, count_at) refl

bump-le : (n : ℕ) → n ≤ bump n
bump-le n = ground arith

count_at-set-bump :
    (row : List ℕ) (i j : ℕ) → count_at row j ≤ count_at (set row i (bump (count_at row i))) j
count_at-set-bump [] i j = omega arith
count_at-set-bump (x ∷ row) zero zero = ground arith
count_at-set-bump (x ∷ row) zero (suc j) = omega arith
count_at-set-bump (x ∷ row) (suc i) zero = omega arith
count_at-set-bump (x ∷ row) (suc i) (suc j) = count_at-set-bump row i j

count_at-halve_row : (row : List ℕ) (i : ℕ) → count_at (halve_row row) i ≡ count_at row i / 2
unfolding halve_row
count_at-halve_row [] i = refl
count_at-halve_row (x ∷ row) zero = refl
count_at-halve_row (x ∷ row) (suc i) = count_at-halve_row row i

length-halve_row : (row : List ℕ) → length (halve_row row) ≡ length row
unfolding halve_row
length-halve_row [] = refl
length-halve_row (x ∷ row) = ap suc (length-halve_row row)

module _ (slot : ℕ → ℕ) (width : ℕ) (inside : (i : ℕ) → slot i < width) where
  -- The smallest counter moves with all the others.
  min_count-bump_rows :
      (i : ℕ) (rows : List (List ℕ)) (low low' : ℕ)
      → Sized width rows
      → low' ≡ bump low
      → min_count slot i (bump_rows slot i rows) low' ≡ bump (min_count slot i rows low)
  unfolding min_count bump_rows
  min_count-bump_rows i [] low low' sized e = e
  min_count-bump_rows i (row ∷ rows) low low' sized e =
      min_count-bump_rows (i + 1) rows _ _ sized.1 (
        ground (
          arith,
          count_at-set_self row (slot i) (bump (count_at row (slot i))) (rw sized.0 (inside i)),
        ))

  min_count-le-bump_rows :
      (slot' : ℕ → ℕ) (i : ℕ) (rows : List (List ℕ)) (low low' : ℕ)
      → low ≤ low'
      → min_count slot i rows low ≤ min_count slot i (bump_rows slot' i rows) low'
  unfolding min_count bump_rows
  min_count-le-bump_rows slot' i [] low low' e = e
  min_count-le-bump_rows slot' i (row ∷ rows) low low' e =
      min_count-le-bump_rows slot' (i + 1) rows _ _
        (ground (arith, count_at-set-bump row (slot' i) (slot i)))

min_count-halve_rows :
    (slot : ℕ → ℕ) (i : ℕ) (rows : List (List ℕ)) (low low' : ℕ)
    → low' ≡ low / 2
    → min_count slot i (halve_rows rows) low' ≡ min_count slot i rows low / 2
unfolding min_count halve_rows
min_count-halve_rows slot i [] low low' e = e
min_count-halve_rows slot i (row ∷ rows) low low' e =
    min_count-halve_rows slot (i + 1) rows _ _ (ground (arith, count_at-halve_row row (slot i)))

bump_rows-Sized :
    (slot : ℕ → ℕ) (width i : ℕ) (rows : List (List ℕ))
    → Sized width rows
    → Sized width (bump_rows slot i rows)
unfolding bump_rows
bump_rows-Sized slot width i [] sized = tt
bump_rows-Sized slot width i (row ∷ rows) sized =
    (length-set row (slot i) _ ∙ sized.0, bump_rows-Sized slot width (i + 1) rows sized.1)

length-bump_rows :
    (slot : ℕ → ℕ) (i : ℕ) (rows : List (List ℕ)) → length (bump_rows slot i rows) ≡ length rows
unfolding bump_rows
length-bump_rows slot i [] = refl
length-bump_rows slot i (row ∷ rows) = ap suc (length-bump_rows slot (i + 1) rows)

halve_rows-Sized :
    (width : ℕ) (rows : List (List ℕ)) → Sized width rows → Sized width (halve_rows rows)
unfolding halve_rows
halve_rows-Sized width [] sized = tt
halve_rows-Sized width (row ∷ rows) sized =
    (length-halve_row row ∙ sized.0, halve_rows-Sized width rows sized.1)

length-halve_rows : (rows : List (List ℕ)) → length (halve_rows rows) ≡ length rows
unfolding halve_rows
length-halve_rows [] = refl
length-halve_rows (row ∷ rows) = ap suc (length-halve_rows rows)

halve-IsSketch : (s : CountMinSketch) → IsSketch s → IsSketch (halve s)
unfolding halve
halve-IsSketch s ok = record {
  wide = ok.wide;
  sized = halve_rows-Sized s.width s.counts ok.sized;
  deep = omega (arith, ok.deep, length-halve_rows s.counts);
}

-- What an access or an aging does to a sketch and to the exact count of `key`.
pub data Note : Type 0 where
  accessed : Str → Bool → Note
  aged : Note

-- The counts of one key alone: an access that hits adds one, up to the largest uint64, and an aging
-- halves.
unfoldable pub exact_count : Str → List Note → ℕ → ℕ
exact_count key [] n = n
exact_count key (accessed k true ∷ notes) n =
    exact_count key notes (if str_eq k key then bump n else n)
exact_count key (accessed k false ∷ notes) n = exact_count key notes n
exact_count key (aged ∷ notes) n = exact_count key notes (n / 2)

module _ (fnv : Str → ℕ) where
  unfoldable pub note : Note → TinyLfu → TinyLfu
  unfolding record_access age
  note (accessed k hit) t = record_access fnv k hit t
  note aged t = age t

  unfoldable pub note_all : List Note → TinyLfu → TinyLfu
  unfolding note
  note_all [] t = t
  note_all (n ∷ notes) t = note_all notes (note n t)

  column-lt : (h1 : ℕ) (s : CountMinSketch) (i : ℕ) → 0 < s.width → column h1 s i < s.width
  unfolding column
  column-lt h1 s i wide = mod-lt _ wide

  increment-IsSketch :
      (key : Str) (s : CountMinSketch) → IsSketch s → IsSketch (increment fnv key s)
  unfolding increment
  increment-IsSketch key s ok = record {
    wide = ok.wide;
    sized = bump_rows-Sized (column (fnv key) s) s.width 0 s.counts ok.sized;
    deep = omega (arith, ok.deep, length-bump_rows (column (fnv key) s) 0 s.counts);
  }

  -- From the first row on, the start does not matter.
  min_count_first :
      (slot : ℕ → ℕ) (rows : List (List ℕ)) (low low' : ℕ)
      → 0 < length rows
      → min_count slot 0 rows low ≡ min_count slot 0 rows low'
  unfolding min_count
  min_count_first slot [] low low' h = absurd (omega arith)
  min_count_first slot (row ∷ rows) low low' h = refl

  estimate-increment :
      (key : Str) (s : CountMinSketch)
      → IsSketch s
      → estimate fnv key (increment fnv key s) ≡ bump (estimate fnv key s)
  unfolding estimate increment column
  estimate-increment key s ok =
      min_count_first _ (bump_rows (column (fnv key) s) 0 s.counts) 0 (bump 0)
        (omega (arith, ok.deep, length-bump_rows (column (fnv key) s) 0 s.counts))
      ∙ min_count-bump_rows (column (fnv key) s) s.width (λ i. column-lt (fnv key) s i ok.wide) 0
          s.counts 0 (bump 0) ok.sized refl

  estimate-le-increment :
      (key k : Str) (s : CountMinSketch)
      → IsSketch s
      → estimate fnv key s ≤ estimate fnv key (increment fnv k s)
  unfolding estimate increment column
  estimate-le-increment key k s ok =
      min_count-le-bump_rows (column (fnv key) s) s.width (λ i. column-lt (fnv key) s i ok.wide)
        (column (fnv k) s) 0 s.counts 0 0 (omega arith)

  estimate-halve :
      (key : Str) (s : CountMinSketch) → estimate fnv key (halve s) ≡ estimate fnv key s / 2
  unfolding estimate halve column
  estimate-halve key s = min_count-halve_rows (column (fnv key) s) 0 s.counts 0 0 refl

  increment-covers :
      (key k : Str) (s : CountMinSketch) (n : ℕ)
      → IsSketch s
      → n ≤ estimate fnv key s
      → (if str_eq k key then bump n else n) ≤ estimate fnv key (increment fnv k s)
  increment-covers key k s n ok le = ground (
    arith,
    str_eq_iff k key,
    estimate-increment key s ok,
    estimate-le-increment key k s ok,
    ap (λ j. estimate fnv key (increment fnv j s)) {x = k} {y = key},
  )

  covers_from :
      (key : Str) (notes : List Note) (t : TinyLfu) (n : ℕ)
      → IsSketch t.filter
      → n ≤ estimate fnv key t.filter
      → exact_count key notes n ≤ estimate fnv key (note_all notes t).filter
  unfolding exact_count note_all
  covers_from key [] t n ok le = le
  covers_from key (accessed k true ∷ notes) t n ok le =
      covers_from key notes (note (accessed k true) t) _ (increment-IsSketch k t.filter ok)
        (increment-covers key k t.filter n ok le)
  covers_from key (accessed k false ∷ notes) t n ok le =
      covers_from key notes (note (accessed k false) t) n ok le
  covers_from key (aged ∷ notes) t n ok le =
      covers_from key notes (note aged t) (n / 2) (halve-IsSketch t.filter ok)
        (omega (arith, estimate-halve key t.filter))

  new-IsSketch : IsSketch (new_tiny_lfu).filter
  unfolding new_tiny_lfu
  new-IsSketch = record {
    wide = omega arith;
    sized = let e = length-replicate 512 zero in (e, (e, (e, (e, tt))));
    deep = omega arith;
  }

  -- A new TinyLFU never estimates a key below its exact count, after any accesses and agings:
  -- whatever other keys share its counters, an access that hits counts for its key, up to the
  -- largest uint64, and an aging halves no more than the exact count halves.
  pub note_all-covers :
      (key : Str) (notes : List Note)
      → exact_count key notes 0 ≤ estimate fnv key (note_all notes new_tiny_lfu).filter
  note_all-covers key notes = covers_from key notes new_tiny_lfu 0 new-IsSketch (omega arith)
