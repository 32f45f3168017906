-- ===== src/Base/Utf8.antt =====
-- Go's `for _, c := range s` (UTF-8 decoding) and `string(rune(i))` (UTF-8 encoding).
use Prim.Native.Nat.{ℕ, zero, suc, ◌+◌, ◌-◌, ◌*◌, ◌/◌, ◌%◌}
use mathlib.Core.Bool.{Bool, ◌&&◌, ◌||◌}
use mathlib.Core.List.{List, [], ◌∷◌}
use grid_kv.Base.Tests.{ltb, leb, ◌==◌, if◌then◌else◌}
use grid_kv.Base.Lists.{length, drop}
use grid_kv.Base.Text.{Str}

abbrev rune_error : ℕ
rune_error = 0xFFFD

abbrev within : ℕ → ℕ → ℕ → Bool
within lo hi b = leb lo b && leb b hi

-- The value of a continuation byte.
abbrev low6 : ℕ → ℕ
low6 b = b - 0x80

-- The rune at the front and its width; an invalid sequence is U+FFFD of width 1.
decode_two : ℕ → List ℕ → ℕ × ℕ
decode_two b0 (b1 ∷ _) =
    if within 0x80 0xBF b1 then ((b0 - 0xC0) * 64 + low6 b1, 2) else (rune_error, 1)
decode_two b0 [] = (rune_error, 1)

decode_three : ℕ → List ℕ → ℕ × ℕ
decode_three b0 (b1 ∷ b2 ∷ _) =
    if within (if b0 == 0xE0 then 0xA0 else 0x80) (if b0 == 0xED then 0x9F else 0xBF) b1
      && within 0x80 0xBF b2
    then ((b0 - 0xE0) * 4096 + low6 b1 * 64 + low6 b2, 3)
    else (rune_error, 1)
decode_three b0 _ = (rune_error, 1)

decode_four : ℕ → List ℕ → ℕ × ℕ
decode_four b0 (b1 ∷ b2 ∷ b3 ∷ _) =
    if within (if b0 == 0xF0 then 0x90 else 0x80) (if b0 == 0xF4 then 0x8F else 0xBF) b1
      && within 0x80 0xBF b2
      && within 0x80 0xBF b3
    then ((b0 - 0xF0) * 262144 + low6 b1 * 4096 + low6 b2 * 64 + low6 b3, 4)
    else (rune_error, 1)
decode_four b0 _ = (rune_error, 1)

decode_rune : ℕ → List ℕ → ℕ × ℕ
unfolding decode_two decode_three decode_four
decode_rune b0 rest =
    if ltb b0 0x80
    then (b0, 1)
    else if ltb b0 0xC2
    then (rune_error, 1)
    else if ltb b0 0xE0
    then decode_two b0 rest
    else if ltb b0 0xF0
    then decode_three b0 rest
    else if ltb b0 0xF5
    then decode_four b0 rest
    else (rune_error, 1)

-- The fuel is the number of bytes: every rune takes at least one.
runes_from : ℕ → Str → List ℕ
unfolding decode_rune
runes_from zero s = []
runes_from (suc fuel) [] = []
runes_from (suc fuel) (b ∷ s) =
    let (r, width) = decode_rune b s in r ∷ runes_from fuel (drop (width - 1) s)

unfoldable pub runes : Str → List ℕ
unfolding runes_from
runes s = runes_from (length s) s

-- `string(rune(i))`: a surrogate or a number out of range is encoded as U+FFFD.
unfoldable pub encode_rune : ℕ → Str
encode_rune i =
    if ltb i 0x80
    then i ∷ []
    else if ltb i 0x800
    then (0xC0 + i / 64) ∷ (0x80 + i % 64) ∷ []
    else if within 0xD800 0xDFFF i || ltb 0x10FFFF i
    then 0xEF ∷ 0xBF ∷ 0xBD ∷ []
    else if ltb i 0x10000
    then (0xE0 + i / 4096) ∷ (0x80 + i / 64 % 64) ∷ (0x80 + i % 64) ∷ []
    else (0xF0 + i / 262144) ∷ (0x80 + i / 4096 % 64) ∷ (0x80 + i / 64 % 64) ∷ (0x80 + i % 64) ∷ []
