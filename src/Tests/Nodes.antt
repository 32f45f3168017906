-- ===== src/Tests/Nodes.antt =====
-- A node "a" with a small store, two replicas for each key, and a cache of one shard.
use grid_kv.Base.{ℕ, false, none, some, [], ◌∷◌, Str, Map}
use grid_kv.Cache.Defs.{Cache}
use grid_kv.Cache.Sketch.{new_tiny_lfu}
use grid_kv.Hlc.Defs.{new_hlc}
use grid_kv.Member.State.{MemberMgr}
use grid_kv.Member.Types.{NodeState, NodeInfo}
use grid_kv.Node.{Libs, Node}
use grid_kv.Reader.Defs.{Reply, Reader}
use grid_kv.Ring.Defs.{HashRing}
use grid_kv.Storage.Item.{StoredItem}
use grid_kv.Storage.Store.{Result}
use grid_kv.Tests.Stores.{key_sum, zero_lz4, small_store, item_at}
use grid_kv.Writer.Defs.{Writer}

abbrev pub libs : Libs
libs = record {
  ring_hash = key_sum;
  store_hash = key_sum;
  cache_hash = (λ k. (key_sum k, key_sum k));
  fnv = key_sum;
  lz4 = zero_lz4;
}

abbrev pub id_a : Str
id_a = 97 ∷ []

abbrev pub id_b : Str
id_b = 98 ∷ []

abbrev pub address_b : Str
address_b = 49 ∷ 58 ∷ 57 ∷ []

abbrev pub two_nodes : HashRing
two_nodes = record {
  version = 1;
  virtual_nodes = 1;
  nodes = record { hash = 50; node_id = id_a } ∷ record { hash = 150; node_id = id_b } ∷ [];
}

abbrev pub info_b : NodeInfo
info_b = record {
  node_id = id_b;
  address = address_b;
  state = NodeState.alive;
  incarnation = 7;
  last_active = 1;
  suspect_since = 0;
}

abbrev pub empty_cache : Cache StoredItem
empty_cache = record {
  shards = (λ i. record { items = []; max_size = 4 });
  count = 1;
  closed = false;
  lfu = new_tiny_lfu;
}

abbrev pub members_a : MemberMgr
members_a = record {
  node_id = id_a;
  address = 48 ∷ 58 ∷ 57 ∷ [];
  incarnation = 5;
  members = (id_b, info_b) ∷ [];
  ping_interval = 250000000;
  failure_timeout = 100;
  suspect_timeout = 8000000000;
  indirect_probes = [];
  send_func = none;
  sent = [];
  changes = 0;
  timers = [];
}

abbrev pub node_a : Node
node_a = record {
  node_id = id_a;
  replica_count = 2;
  store = small_store;
  cache = some empty_cache;
  ring = two_nodes;
  member = some members_a;
}

-- "b" has every key, at version 3.
abbrev pub answers_b : Str → Str → Reply
answers_b id key = Result.ok (some (item_at 3))

abbrev pub reader_a : Reader
reader_a = record { node = node_a; cache_ttl = 0; get_func = some answers_b }

abbrev pub writer_a : Writer
writer_a = record {
  node = node_a;
  clock = new_hlc id_a;
  batch_threshold = 2;
  batch_count = 0;
  flush_pending = false;
  last_versions = [];
  pending_ops = [];
}

abbrev pub same_order : Map ℕ → Map ℕ
same_order m = m
