-- ===== src/Hlc/Order.antt =====
-- The order of the timestamps of `Now` and `Update` in internal/utils/hlc/hlc.go.
use grid_kv.Base.{
  ℕ, ◌+◌, ◌^◌, ◌<◌, ◌≡◌, sym, ◌∙◌, ap, Bool, true, false, ◌||◌, ◌&&◌, Str, slt, ltb, ◌==◌,
  Option-cases, inl, inr, arith,
}
use grid_kv.Hlc.Defs.{Hlc, tick, stamp, now, merge, update, format, parse_remote}
use grid_kv.Hlc.Digits.{NoColon, parse_remote-format}

-- The timestamp (`t`, `c`) comes before (`t'`, `c'`): by the time as an int64, then by the counter.
abbrev pub earlier : ℕ → ℕ → ℕ → ℕ → Bool
earlier t c t' c' = slt t t' || (t == t') && ltb c c'

-- `Now` gives a later timestamp than the clock had, whatever the wall clock shows, also if it went
-- back, unless the counter is at its end.
pub now_later :
    (wall : ℕ) (h : Hlc)
    → h.counter + 1 < 2 ^ 64
    → earlier h.last_ts h.counter (now wall h).0.last_ts (now wall h).0.counter ≡ true
unfolding now tick stamp
now_later wall h room = ground arith

-- The text of `Now` is that of the numbers which the clock holds from then on. The cache does not
-- show.
pub now_text :
    (wall : ℕ) (h : Hlc)
    → (now wall h).1 ≡ format h.node_id (now wall h).0.last_ts (now wall h).0.counter
unfolding now tick stamp
now_text wall h = ground arith

-- `Update` never takes the clock back, whatever text it is given.
pub update_not_earlier :
    (remote : Str) (h : Hlc)
    → earlier (update remote h).last_ts (update remote h).counter h.last_ts h.counter ≡ false
unfolding update merge slt
update_not_earlier remote h = elim (Option-cases (parse_remote remote)) [
  | inl e ↦ rw (e, update) (ground arith)
  | inr (p, e) ↦ rw (e, update) (ground arith)
]

merge_not_earlier :
    (ts ctr : ℕ) (h : Hlc)
    → ts < 2 ^ 64
    → h.last_ts < 2 ^ 64
    → earlier (merge ts ctr h).last_ts (merge ts ctr h).counter ts ctr ≡ false
unfolding merge slt
merge_not_earlier ts ctr h small small' = ground arith

merge_fits :
    (ts ctr : ℕ) (h : Hlc)
    → ts < 2 ^ 64
    → ctr + 1 < 2 ^ 64
    → h.last_ts < 2 ^ 64
    → h.counter + 1 < 2 ^ 64
    → ((merge ts ctr h).last_ts < 2 ^ 64) × ((merge ts ctr h).counter + 1 < 2 ^ 64)
unfolding merge
merge_fits ts ctr h a b c d = ground arith

now_fits :
    (wall : ℕ) (h : Hlc) → wall < 2 ^ 64 → h.last_ts < 2 ^ 64 → (now wall h).0.last_ts < 2 ^ 64
unfolding now tick stamp
now_fits wall h a b = ground arith

earlier_of_not :
    (t c t' c' t'' c'' : ℕ)
    → t < 2 ^ 64
    → t' < 2 ^ 64
    → t'' < 2 ^ 64
    → earlier t' c' t c ≡ false
    → earlier t' c' t'' c'' ≡ true
    → earlier t c t'' c'' ≡ true
unfolding slt
earlier_of_not t c t' c' t'' c'' x y z h k = ground arith

update-format :
    (ts ctr : ℕ) (node_id : Str) (h : Hlc)
    → NoColon node_id
    → ts < 2 ^ 63
    → ctr < 2 ^ 63
    → update (format node_id ts ctr) h ≡ merge ts ctr h
unfolding update
update-format ts ctr node_id h n a b = rw (parse_remote-format node_id ts ctr n a b, update)

now_after_update :
    (wall : ℕ) (sender : Hlc) (receiver : Hlc)
    → NoColon sender.node_id
    → sender.last_ts < 2 ^ 63
    → sender.counter < 2 ^ 63
    → receiver.last_ts < 2 ^ 64
    → receiver.counter + 1 < 2 ^ 64
    → wall < 2 ^ 64
    → let text = format sender.node_id sender.last_ts sender.counter in
      let later = (now wall (update text receiver)).0 in
      earlier sender.last_ts sender.counter later.last_ts later.counter ≡ true
now_after_update wall sender receiver n a b c d w =
    rw (update-format sender.last_ts sender.counter sender.node_id receiver n a b) (
      earlier_of_not sender.last_ts sender.counter merged.last_ts merged.counter
        (now wall merged).0.last_ts (now wall merged).0.counter (omega arith) fits.0
        (now_fits wall merged w fits.0)
        (merge_not_earlier sender.last_ts sender.counter receiver (omega arith) c)
        (now_later wall merged fits.1))
  where
    merged : Hlc
    merged = merge sender.last_ts sender.counter receiver

    fits : (merged.last_ts < 2 ^ 64) × (merged.counter + 1 < 2 ^ 64)
    fits = merge_fits sender.last_ts sender.counter receiver (omega arith) (omega arith) c d

node_id-now : (wall : ℕ) (h : Hlc) → (now wall h).0.node_id ≡ h.node_id
unfolding now tick stamp
node_id-now wall h = ground arith

-- Causality across nodes: when a node has updated its clock with the text that another node's `Now`
-- gave out, its next timestamp is later than that one, whatever the two wall clocks show. This
-- holds for a sender whose ID has no colon and whose new timestamp and counter are below 2^63, and
-- a receiver whose counter is not at its end.
pub causality :
    (wall wall' : ℕ) (sender receiver : Hlc)
    → NoColon sender.node_id
    → (now wall sender).0.last_ts < 2 ^ 63
    → (now wall sender).0.counter < 2 ^ 63
    → receiver.last_ts < 2 ^ 64
    → receiver.counter + 1 < 2 ^ 64
    → wall' < 2 ^ 64
    → let (sent, text) = now wall sender in
      let later = (now wall' (update text receiver)).0 in
      earlier sent.last_ts sent.counter later.last_ts later.counter ≡ true
causality wall wall' sender receiver n a b c d w =
    rw
      (now_text wall sender
        ∙ ap (λ id. format id (now wall sender).0.last_ts (now wall sender).0.counter)
            (sym (node_id-now wall sender)))
      (now_after_update wall' (now wall sender).0 receiver (rw (node_id-now wall sender) n) a b c d
        w)
