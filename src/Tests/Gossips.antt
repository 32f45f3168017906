-- ===== src/Tests/Gossips.antt =====
-- Gossip at the node "a".
use grid_kv.Base.{
  ℕ, zero, suc, ◌+◌, ◌*◌, ◌^◌, ◌≤◌, ◌<◌, ◌≡◌, refl, true, none, some, [], ◌∷◌, str_eq, load, store,
  slt, bias, add64, arith,
}
use grid_kv.Compress.{compress}
use grid_kv.Gossip.Defs.{push_message, is_stale, handle_message}
use grid_kv.Gossip.Pushes.{Reaches, fan_out-bounds, push_to_target-Reaches}
use grid_kv.Gossip.Replication.{set_op, read-push_message}
use grid_kv.Gossip.Rounds.{SendAnswer, PushAttempt, fan_out, push_to_target, reachable, is_alive_at}
use grid_kv.Member.State.{members_list}
use grid_kv.Member.Types.{state_eq}
use grid_kv.Ring.Defs.{get_n, has_seen}
use grid_kv.Storage.Store.{Result, get_item, prepare_item}
use grid_kv.Tests.Codecs.{item_a, set_a-Sendable}
use grid_kv.Tests.Nodes.{libs, id_a, address_b, members_a, node_a}
use grid_kv.Tests.Stores.{key_sum, zero_lz4}
use grid_kv.Writer.Defs.{is_local_replica}

read-push_message_example :
    (get_item key_sum zero_lz4 9 id_a
      (handle_message libs 8 (push_message (set_op id_a item_a ∷ [])) node_a).2.store).0
    ≡ Result.ok (record { version = 9; expire_at = 0; value = 1 ∷ 2 ∷ []; key = [] })
unfolding load slt bias add64 prepare_item compress get_n has_seen store str_eq is_local_replica
    get_item
read-push_message_example =
    read-push_message libs 8 9 id_a item_a node_a refl set_a-Sendable refl
      (λ old found. ground (arith, found)) refl (omega arith) refl

fan_out-bounds_example : (5 < 2 ^ fan_out 5) × (2 ^ fan_out 5 ≤ 2 * 5) × (fan_out 5 ≤ 5)
fan_out-bounds_example = fan_out-bounds 5 (omega arith)

-- The second attempt is accepted.
abbrev world : ℕ → PushAttempt
world zero = record { member = some members_a; answer = SendAnswer.broken }
world (suc n) = record { member = some members_a; answer = SendAnswer.accepted }

world-Reaches : Reaches world 0 1 address_b
unfolding reachable is_alive_at members_list str_eq state_eq
world-Reaches = record {
  stays = (λ j le. always (0 + j));
  welcome = (λ e. ground (arith, e));
  takes = refl;
}
  where
    always : (n : ℕ) → reachable address_b (world n).member ≡ true
    always zero = refl
    always (suc n) = refl

-- The second attempt reaches the target.
push_reaches_b : (push_to_target world address_b).0 ≡ true
push_reaches_b =
    (push_to_target-Reaches world address_b).1.1 (1, omega arith, world-Reaches)
