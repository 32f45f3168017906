-- ===== src/Tests/Replays.antt =====
-- A checkpoint, a hinted handoff and a round of anti-entropy at the node "a".
use grid_kv.Base.{
  ℕ, zero, suc, ◌≡◌, true, false, none, some, List, [], ◌∷◌, length, length-replicate, replicate,
  ltb, if◌then◌else◌, arith, slt, bias,
}
use grid_kv.Codec.SyncOps.{serialize, encode_op}
use grid_kv.Codec.Wire.{encode_string, put_uint}
use grid_kv.Entropy.Compare.{reported, sync_keys-reported}
use grid_kv.Entropy.Digest.{bloom_size, digest, sync_keys}
use grid_kv.Replay.Checkpoint.{restore, save_checkpoint, last_items, restore-save_checkpoint}
use grid_kv.Replay.Handoff.{Attempt, Hints}
use grid_kv.Storage.Batch.{keys}
use grid_kv.Storage.Shard.{SyncOperation}
use grid_kv.Tests.Codecs.{set_a, set_a-Sendable, delete_b, delete_b-Sendable}
use grid_kv.Tests.Nodes.{libs, id_b, members_a, writer_a}
use grid_kv.Tests.Stores.{key_sum, key_store}
use grid_kv.Writer.Defs.{batch_write}

abbrev ops : List SyncOperation
ops = set_a ∷ delete_b ∷ set_a ∷ []

restore-save_checkpoint_example :
    restore libs 7 (save_checkpoint true ops none).1 writer_a
    ≡ some (
        if ltb 0 (length (last_items ops []))
        then batch_write libs 7 (last_items ops []) writer_a
        else writer_a)
unfolding serialize encode_op encode_string put_uint slt bias
restore-save_checkpoint_example =
    restore-save_checkpoint libs 7 ops none writer_a (λ e. ground (arith, e)) (omega arith)
      (omega arith) (set_a-Sendable, (delete_b-Sendable, (set_a-Sendable, tt)))

-- The first push fails, and an operation is queued before the second.
abbrev attempts : ℕ → Attempt
attempts zero = record { member = some members_a; pushed = false; added = [] }
attempts (suc n) = record { member = some members_a; pushed = true; added = delete_b ∷ [] }

abbrev hints : Hints
hints = (id_b, set_a ∷ []) ∷ []

-- Its own digest.
sync_keys-reported_example :
    (sync_keys libs key_sum 9 (replicate bloom_size false) [] key_store).0
    ≡ reported libs key_sum 9
        (replicate bloom_size false)
        (keys 9 key_store).0
        (digest libs key_sum 9 [] (keys 9 key_store).1).2
sync_keys-reported_example =
    sync_keys-reported libs key_sum 9 (replicate bloom_size false) key_store
      (length-replicate bloom_size false)
