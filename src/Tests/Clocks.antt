-- ===== src/Tests/Clocks.antt =====
-- Clocks of two nodes.
use grid_kv.Base.{bias, ◌≡◌, refl, true, false, [], ◌∷◌, Str, slt, arith}
use grid_kv.Hlc.Defs.{Hlc, new_hlc, now, tick, stamp, update}
use grid_kv.Hlc.Order.{earlier, causality}

abbrev id_a : Str
id_a = 97 ∷ []

abbrev id_b : Str
id_b = 98 ∷ []

-- The clock of "a" after the counter went up once, and a fresh one of "b".
abbrev clock_a : Hlc
clock_a = record {
  last_ts = 1700000000000000000;
  counter = 1;
  node_id = id_a;
  cached_ts = [];
  cache_valid = false;
  last_cache_ts = 0;
  last_cache_ctr = 0;
}

abbrev clock_b : Hlc
clock_b = new_hlc id_b

causality_example :
    let (sent, text) = now 5 clock_a in
    let later = (now 9 (update text clock_b)).0 in
    earlier sent.last_ts sent.counter later.last_ts later.counter ≡ true
unfolding now tick stamp new_hlc slt bias
causality_example =
    causality 5 9 clock_a clock_b (refl, tt) (omega arith) (omega arith) (omega arith) (omega arith)
      (omega arith)
