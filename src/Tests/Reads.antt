-- ===== src/Tests/Reads.antt =====
-- Reads at the node "a", and after its own writes.
use grid_kv.Base.{◌+◌, ◌*◌, ◌/◌, ◌≤◌, ◌≡◌, refl, none, [], ◌∷◌, load, slt, bias, add64, arith}
use mathlib.Core.List.{reverse, reverse_perm}
use grid_kv.Compress.{compress}
use grid_kv.Node.{targets_of}
use grid_kv.Reader.AfterWrite.{read-write_key}
use grid_kv.Reader.Best.{Newest, read_speculative-Newest}
use grid_kv.Reader.Consistency.{read_consistent_nothing}
use grid_kv.Reader.Defs.{found, missing, quorum, read, with_node}
use grid_kv.Reader.Replicas.{
  read_speculative, read_consistent, alive_targets, values_of, ask_targets, count_or_three,
}
use grid_kv.Reader.Limiter.{new_rate_limiter, allow_all, IsLimiter, allow_all-bounded}
use grid_kv.Reader.Repair.{Repaired, repair_key, repair_key-Repaired}
use grid_kv.Ring.Defs.{get_n, has_seen}
use grid_kv.Storage.Store.{prepare_item}
use grid_kv.Tests.Nodes.{libs, id_a, members_a, node_a, reader_a, writer_a, same_order}
use grid_kv.Tests.Stores.{key_k, item_at, zeros}
use grid_kv.Writer.Defs.{Writer, write_key, next_version}

abbrev set_writer : Writer
set_writer = (write_key libs same_order 7 key_k (item_at 0) writer_a).1

read-write_key_example :
    (read libs 9 key_k (with_node reader_a set_writer.node)).0
    ≡ found (record {
      version = (next_version same_order 7 key_k writer_a).0;
      expire_at = 0;
      value = zeros;
      key = [];
    })
unfolding slt bias add64 load prepare_item compress get_n has_seen
read-write_key_example =
    read-write_key libs same_order 7 9 key_k (item_at 0) writer_a
      (with_node reader_a set_writer.node) refl (λ e. ground (arith, e)) refl (omega arith)
      (λ old stored. ground (arith, stored)) refl refl

allow_all-bounded_example :
    IsLimiter (allow_all (1000 ∷ 2000 ∷ []) (new_rate_limiter 0 1)).1
    × ((allow_all (1000 ∷ 2000 ∷ []) (new_rate_limiter 0 1)).0 ≤ 1 + 5000 * 1 / 1000000000)
unfolding new_rate_limiter
allow_all-bounded_example =
    allow_all-bounded (1000 ∷ 2000 ∷ []) 5000 (new_rate_limiter 0 1)
      (record { some_rate = omega arith; full = omega arith })
      (record {
        upward = (omega arith, (omega arith, omega arith));
        dated = omega arith;
        small = omega arith;
        rate_small = omega arith;
      })

repair_key-Repaired_example :
    Repaired libs same_order 1 7 key_k
      (item_at 3 ∷ item_at 5 ∷ [])
      (new_rate_limiter 0 1)
      writer_a
      (repair_key libs same_order 1 7 key_k
        (item_at 3 ∷ item_at 5 ∷ [])
        (new_rate_limiter 0 1, writer_a)).1
unfolding load
repair_key-Repaired_example =
    repair_key-Repaired libs same_order 1 7 key_k (item_at 3) (item_at 5 ∷ [])
      (new_rate_limiter 0 1) writer_a tt

read_speculative-Newest_example :
    let targets = alive_targets id_a members_a (targets_of libs key_k (count_or_three 2) node_a) in
    Newest
      (values_of (ask_targets libs 9 key_k targets reader_a).0)
      (read_speculative libs reverse 9 key_k 2 reader_a).result
read_speculative-Newest_example =
    read_speculative-Newest libs reverse (λ replies. reverse_perm replies) 9 key_k 2 reader_a
      members_a refl refl

read_consistent_nothing_example :
    ((read_consistent libs reverse 9 key_k quorum reader_a).result ≡ missing)
    × ((read_consistent libs reverse 9 key_k quorum reader_a).repair ≡ none)
read_consistent_nothing_example =
    read_consistent_nothing libs reverse 9 key_k quorum reader_a members_a refl refl
      (λ single. ground arith)
