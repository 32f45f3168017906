-- ===== src/Tests/Clusters.antt =====
-- The node "a" reads at the node "b".
use grid_kv.Base.{
  ℕ, ◌≡◌, refl, sym, ap, ◌∙◌, Option, some, List, [], Str, str_eq, slt, bias, add64, load, arith,
}
use mathlib.Core.Path.{subst}
use grid_kv.Cluster.Remote.{handle_read, get_remote}
use grid_kv.Cluster.RemoteTrip.{FitsAnswer, seen, get_remote-handle_read}
use grid_kv.Compress.{compress}
use grid_kv.Gossip.Defs.{address_in}
use grid_kv.Member.State.{members_list}
use grid_kv.Storage.Item.{StoredItem}
use grid_kv.Storage.Reads.{get_item-set_item}
use grid_kv.Storage.Store.{Result, get_item, prepare_item}
use grid_kv.Tests.Nodes.{libs, id_b, members_a}
use grid_kv.Tests.Stores.{key_sum, zero_lz4, zeros, key_k, item_at, small_store, key_store}

abbrev stored : StoredItem
stored = record { version = 5; expire_at = 0; value = zeros; key = [] }

key_store-answer : (get_item key_sum zero_lz4 9 key_k key_store).0 ≡ Result.ok stored
unfolding slt bias add64 load prepare_item compress
key_store-answer =
    get_item-set_item key_sum zero_lz4 9 key_k (item_at 5) small_store refl refl (omega arith)
      (λ old found. ground (arith, found)) refl

stored-FitsAnswer : FitsAnswer stored
unfolding slt bias
stored-FitsAnswer = record {
  key_length = omega arith;
  version_bits = omega arith;
  value_length = omega arith;
  expiry = refl;
}

abbrev item_of : Result StoredItem → StoredItem
item_of (Result.ok item) = item
item_of (Result.err e) = stored

answered-FitsAnswer :
    (item : StoredItem)
    → (get_item key_sum zero_lz4 9 key_k key_store).0 ≡ Result.ok item
    → FitsAnswer item
answered-FitsAnswer item is =
    subst FitsAnswer (ap item_of (sym key_store-answer ∙ is)) stored-FitsAnswer

abbrev net_b : Str → List ℕ → Option (List ℕ)
net_b address request = some (handle_read libs 9 request key_store).0

get_remote-handle_read_example :
    get_remote net_b 7 members_a id_b key_k
    ≡ some (seen key_k (get_item key_sum zero_lz4 9 key_k key_store).0)
unfolding address_in members_list str_eq
get_remote-handle_read_example =
    get_remote-handle_read libs net_b 7 9 members_a id_b key_k key_store refl refl refl
      answered-FitsAnswer
