-- ===== src/Hlc/Defs.antt =====
-- The clock of internal/utils/hlc/hlc.go. `last_ts` is an int64 and `counter` a uint64, both kept
-- as 64-bit patterns. The buffer that is used again between calls is not part of the state.
use grid_kv.Base.{
  ℕ, zero, suc, ◌+◌, ◌-◌, ◌*◌, ◌/◌, ◌%◌, ◌^◌, Bool, true, false, ◌&&◌, Option, none, some, [], ◌∷◌,
  ◌++◌, Str, slt, ltb, leb, ◌==◌, if◌then◌else◌,
}

pub record Hlc : Type 0 where
  pub last_ts : ℕ
  pub counter : ℕ
  pub node_id : Str
  pub cached_ts : Str
  pub cache_valid : Bool
  pub last_cache_ts : ℕ
  pub last_cache_ctr : ℕ

unfoldable pub new_hlc : Str → Hlc
new_hlc node_id = record {
  last_ts = 0;
  counter = 0;
  node_id = node_id;
  cached_ts = [];
  cache_valid = false;
  last_cache_ts = 0;
  last_cache_ctr = 0;
}

-- The loop of `AppendInt` and `AppendUint`, over the digits in front of `acc`. The fuel is the
-- size of the array `tmp`.
unfoldable pub digits_from : ℕ → ℕ → Str → Str
digits_from zero i acc = acc
digits_from (suc fuel) i acc =
    let rest = digits_from fuel (i / 10) ((b'0' + i % 10) ∷ acc) in if i == 0 then acc else rest

abbrev pub min_int64 : Str
min_int64 =
    b'-' ∷ b'9' ∷ b'2' ∷ b'2' ∷ b'3' ∷ b'3' ∷ b'7' ∷ b'2' ∷ b'0' ∷ b'3' ∷ b'6' ∷ b'8' ∷ b'5' ∷ b'4'
    ∷ b'7' ∷ b'7' ∷ b'5' ∷ b'8' ∷ b'0' ∷ b'8' ∷ []

unfoldable pub append_int : Str → ℕ → Str
append_int buf i =
    if i == 0
    then buf ++ b'0' ∷ []
    else if slt i 0
    then (if i == 2 ^ 63
        then buf ++ min_int64
        else (buf ++ b'-' ∷ []) ++ digits_from 20 (2 ^ 64 - i) [])
    else buf ++ digits_from 20 i []

unfoldable pub append_uint : Str → ℕ → Str
append_uint buf u = if u == 0 then buf ++ b'0' ∷ [] else buf ++ digits_from 20 u []

-- "nodeID:timestamp:counter"
unfoldable pub format : Str → ℕ → ℕ → Str
format node_id ts ctr = append_int (append_int (node_id ++ b':' ∷ []) ts ++ b':' ∷ []) ctr

-- The first step of `Now`: the clock moves on.
unfoldable pub tick : ℕ → Hlc → Hlc
tick wall h =
    if slt h.last_ts wall
    then record h { last_ts = wall; counter = 0; cache_valid = false }
    else record h { counter = (h.counter + 1) % 2 ^ 64; cache_valid = false }

-- The second: the text, from the cache where it is valid.
unfoldable pub stamp : Hlc → Hlc × Str
unfolding format
stamp h =
    if h.cache_valid && h.last_ts == h.last_cache_ts && h.counter == h.last_cache_ctr
    then (h, h.cached_ts)
    else (
      record h {
        cached_ts = format h.node_id h.last_ts h.counter;
        cache_valid = true;
        last_cache_ts = h.last_ts;
        last_cache_ctr = h.counter;
      },
      format h.node_id h.last_ts h.counter,
    )

-- `Now`, when the wall clock shows `wall`.
unfoldable pub now : ℕ → Hlc → Hlc × Str
unfolding tick stamp
now wall h = stamp (tick wall h)

-- What stands before the first colon and what stands behind it; `none` if there is no colon.
unfoldable pub cut_colon : Str → Option (Str × Str)
cut_colon [] = none
cut_colon (c ∷ s) =
    if c == b':'
    then some ([], s)
    else elim (cut_colon s) [ none ↦ none | some (before, behind) ↦ some (c ∷ before, behind) ]

abbrev pub is_digit : ℕ → Bool
is_digit c = leb b'0' c && leb c b'9'

-- The loop over the timestamp: any other byte ends the update.
unfoldable pub parse_ts : ℕ → Str → Option ℕ
parse_ts ts [] = some ts
parse_ts ts (c ∷ s) =
    let rest = parse_ts ((ts * 10 + (c - b'0')) % 2 ^ 64) s in if is_digit c then rest else none

-- The loop over the counter: any other byte ends the loop.
unfoldable pub parse_ctr : ℕ → Str → ℕ
parse_ctr ctr [] = ctr
parse_ctr ctr (c ∷ s) =
    let rest = parse_ctr ((ctr * 10 + (c - b'0')) % 2 ^ 64) s in if is_digit c then rest else ctr

-- The two numbers of a remote timestamp; `none` where `Update` returns before it reads them all.
unfoldable pub parse_remote : Str → Option (ℕ × ℕ)
unfolding cut_colon parse_ts parse_ctr
parse_remote remote = elim (cut_colon remote) [
  | none ↦ none
  | some (_, []) ↦ none
  | some (_, c ∷ s) ↦ elim (cut_colon (c ∷ s)) [
    | none ↦ none
    | some (_, []) ↦ none
    | some (ts, d ∷ ctr) ↦ elim (parse_ts 0 ts) [
      | none ↦ none
      | some t ↦ some (t, parse_ctr 0 (d ∷ ctr))
    ]
  ]
]

unfoldable pub merge : ℕ → ℕ → Hlc → Hlc
merge ts ctr h =
    if slt h.last_ts ts
    then record h { last_ts = ts; counter = ctr; cache_valid = false }
    else if ts == h.last_ts && ltb h.counter ctr
    then record h { counter = ctr; cache_valid = false }
    else h

unfoldable pub update : Str → Hlc → Hlc
unfolding parse_remote merge
update remote h = elim (parse_remote remote) [ none ↦ h | some (ts, ctr) ↦ merge ts ctr h ]
