-- ===== src/Compress.antt =====
-- internal/utils/compress/compress.go: LZ4 blocks with a threshold, an int that may be negative.
-- The buffers are not modelled.
use grid_kv.Base.{
  ℕ, ◌*◌, ◌/◌, ◌≤◌, ◌≡◌, Bool, true, false, Option, none, some, List, length, slt, ltb, ◌==◌,
  if◌then◌else◌, arith,
}

-- The library github.com/pierrec/lz4, which the program does not contain: `CompressBlock`, whose
-- output is empty where it fails or finds the data incompressible, and `UncompressBlock` into a
-- buffer of the given size. A block unpacks into any buffer that is large enough for its data.
pub record Lz4 : Type 0 where
  pub compress_block : List ℕ → List ℕ
  pub uncompress_block : List ℕ → ℕ → Option (List ℕ)
  pub unpacks :
      (block : List ℕ) (size : ℕ)
      → (length (compress_block block) == 0) ≡ false
      → length block ≤ size
      → uncompress_block (compress_block block) size ≡ some block

abbrev pub max_estimate : ℕ
max_estimate = 64 * 1024 * 1024

unfoldable pub norm_estimate : List ℕ → ℕ → ℕ
norm_estimate block estimated_size =
    let at_least =
      if ltb estimated_size (length block * 2) then length block * 2 else estimated_size in
    if ltb max_estimate at_least then max_estimate else at_least

module _ (lz4 : Lz4) where
  open lz4 use {compress_block, uncompress_block, unpacks}

  -- The bytes, and whether they are compressed: where that is at least 5% shorter.
  unfoldable pub compress : List ℕ → ℕ → List ℕ × Bool
  compress bytes threshold =
      if slt (length bytes) threshold
      then (bytes, false)
      else if length (compress_block bytes) == 0
      then (bytes, false)
      else if ltb (length (compress_block bytes)) (length bytes * 95 / 100)
      then (compress_block bytes, true)
      else (bytes, false)

  -- Into a fresh buffer (`dst` is nil in every call of the program); a second try has one four
  -- times as large.
  unfoldable pub decompress_to : List ℕ → ℕ → Option (List ℕ)
  unfolding norm_estimate
  decompress_to block estimated_size =
      elim (uncompress_block block (norm_estimate block estimated_size)) [
        | some out ↦ some out
        | none ↦ uncompress_block block (norm_estimate block estimated_size * 4)
      ]

  norm_estimate_enough :
      (block bytes : List ℕ)
      → length bytes ≤ max_estimate
      → length bytes ≤ norm_estimate block (length bytes)
  unfolding norm_estimate
  norm_estimate_enough block bytes h = ground arith

  decompress_to-compress_block :
      (bytes : List ℕ)
      → (length (compress_block bytes) == 0) ≡ false
      → length bytes ≤ max_estimate
      → decompress_to (compress_block bytes) (length bytes) ≡ some bytes
  unfolding decompress_to
  decompress_to-compress_block bytes ne h = rw (
    unpacks bytes (norm_estimate (compress_block bytes) (length bytes)) ne
        (norm_estimate_enough (compress_block bytes) bytes h),
    decompress_to,
  )

  -- What `Compress` marks as compressed, `DecompressTo` unpacks again, with the original size as
  -- the estimate, up to 64 MB; what it does not mark it has left as it was.
  pub decompress_to-compress :
      (bytes : List ℕ) (threshold : ℕ)
      → length bytes ≤ max_estimate
      → let (out, packed) = compress bytes threshold in
        (packed ≡ true → decompress_to out (length bytes) ≡ some bytes)
        × (packed ≡ false → out ≡ bytes)
  unfolding compress
  decompress_to-compress bytes threshold h = ground (
    arith,
    λ (ne : (length (compress_block bytes) == 0) ≡ false). decompress_to-compress_block bytes ne h,
  )
