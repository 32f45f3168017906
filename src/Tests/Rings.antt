-- ===== src/Tests/Rings.antt =====
-- A ring of two nodes with two virtual nodes each, and a hash that adds up the bytes.
use grid_kv.Base.{ℕ, ◌+◌, ◌*◌, ◌≡◌, refl, List, [], ◌∷◌, Str, slt, bias, arith}
use grid_kv.Ring.Defs.{RingNode, HashRing, get, get_n}
use grid_kv.Ring.Scan.{owner, get-owner}
use grid_kv.Ring.GetN.{Replicas, get_n-Replicas}

abbrev byte_sum : Str → ℕ
byte_sum [] = 0
byte_sum (c ∷ s) = c * 7 + byte_sum s

abbrev empty_ring : HashRing
empty_ring = record { version = 0; virtual_nodes = 2; nodes = [] }

abbrev node_a : Str
node_a = 97 ∷ []

abbrev node_b : Str
node_b = 98 ∷ []

abbrev ring_nodes : List RingNode
ring_nodes =
    record { hash = 10; node_id = node_a }
    ∷ record { hash = 20; node_id = node_b }
    ∷ record { hash = 30; node_id = node_a }
    ∷ []

abbrev small_ring : HashRing
small_ring = record { version = 1; virtual_nodes = 2; nodes = ring_nodes }

get-owner_example : get byte_sum node_a small_ring ≡ owner (byte_sum node_a) ring_nodes
get-owner_example =
    get-owner byte_sum node_a small_ring
      ((omega arith, (omega arith, tt)), ((omega arith, tt), (tt, tt)))

get_n-Replicas_example : Replicas byte_sum node_a 2 small_ring (get_n byte_sum node_a 2 small_ring)
unfolding slt bias
get_n-Replicas_example = get_n-Replicas byte_sum node_a 2 small_ring refl
