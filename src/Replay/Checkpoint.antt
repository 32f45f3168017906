-- ===== src/Replay/Checkpoint.antt =====
-- internal/cluster/entropy.go: the checkpoint file. `io` says whether every call of the file system
-- succeeds. The data go into a file beside it, which then takes its name: before that, and after a
-- failure, the old file is still there.
use grid_kv.Base.{
  ℕ, ◌%◌, ◌^◌, ◌<◌, ◌≡◌, ◌≢◌, refl, sym, ap, ◌∙◌, Bool, true, false, Option, none, some, List, [],
  ◌∷◌, ◌++◌, map, Map, store, All, length, take, take-length, ltb, ◌==◌, if◌then◌else◌, ◌⊎◌,
  Option-cases, inl, inr, arith,
}
use grid_kv.Codec.Wire.{put_uint, get_uint, get_uint-put_uint}
use grid_kv.Codec.SyncOps.{serialize, deserialize}
use grid_kv.Codec.SyncTrip.{Sendable, sent, deserialize-serialize}
use grid_kv.Node.{Libs}
use grid_kv.Storage.Batch.{get_sync_buffer}
use grid_kv.Storage.Item.{StoredItem}
use grid_kv.Storage.Shard.{SyncOperation}
use grid_kv.Writer.Defs.{Writer, with_store, batch_write}

-- The bytes of the file, none if there is no file.
abbrev pub Disk : Type 0
Disk = Option (List ℕ)

-- The length as a uint32, and the data.
abbrev pub framed : List ℕ → List ℕ
framed bytes = put_uint 4 (length bytes % 2 ^ 32) ++ bytes

-- `SaveCheckpoint`: whether it succeeds, and the file. No operations leave the file as it is.
unfoldable pub save_checkpoint : Bool → List SyncOperation → Disk → Bool × Disk
unfolding serialize put_uint
save_checkpoint io ops disk =
    if length ops == 0
    then (true, disk)
    else if io
    then (true, some (framed (serialize ops)))
    else (false, disk)

abbrev pub read_frame : ℕ × List ℕ → List (Option SyncOperation)
read_frame (n, rest) = if ltb (length rest) n then [] else deserialize (take n rest)

-- `LoadCheckpoint` of a file that can be read: nothing where it is missing or too short. An
-- operation that cannot be read is a nil, `none`.
unfoldable pub load_checkpoint : Disk → List (Option SyncOperation)
unfolding get_uint deserialize
load_checkpoint none = []
load_checkpoint (some bytes) = elim (get_uint 4 bytes) [ none ↦ [] | some frame ↦ read_frame frame ]

-- The loop of `Start` over the operations: a nil is no operation to look into, which panics, `none`;
-- a later item of a key replaces an earlier one.
unfoldable pub items_of : List (Option SyncOperation) → Map StoredItem → Option (Map StoredItem)
items_of [] m = some m
items_of (none ∷ ops) m = none
items_of (some op ∷ ops) m =
    items_of ops (elim op.item [ none ↦ m | some item ↦ store op.key item m ])

-- `Start`: the items of the checkpoint are written again.
abbrev pub write_back : Libs → ℕ → Writer → Option (Map StoredItem) → Option Writer
write_back libs wall w none = none
write_back libs wall w (some items) =
    some (if ltb 0 (length items) then batch_write libs wall items w else w)

unfoldable pub restore : Libs → ℕ → Disk → Writer → Option Writer
unfolding load_checkpoint items_of batch_write
restore libs wall disk w = write_back libs wall w (items_of (load_checkpoint disk) [])

-- One round of `checkpointLoop`, and the end of `Close`: the operations leave the buffer of the
-- store, also where they are not saved.
unfoldable pub checkpoint : Libs → Bool → ℕ → Writer × Disk → Writer × Disk
unfolding save_checkpoint get_sync_buffer
checkpoint libs io time (w, disk) =
    let (ops, s) = get_sync_buffer libs.store_hash libs.lz4 time w.node.store in
    (with_store w s, (save_checkpoint io ops disk).1)

load_framed :
    (bytes : List ℕ)
    → length bytes < 2 ^ 32
    → load_checkpoint (some (framed bytes)) ≡ deserialize bytes
unfolding load_checkpoint
load_framed bytes short =
    let n = length bytes in
    let frame : get_uint 4 (framed bytes) ≡ some (n, bytes) =
      get_uint-put_uint 4 (n % 2 ^ 32) bytes (omega arith)
      ∙ ap (λ k. some (k, bytes)) (omega arith) in
    let fits : ltb n n ≡ false = ground arith in
    let whole : take n bytes ≡ bytes = take-length bytes in
    rw (frame, load_checkpoint, fits, whole) refl

-- The last item of each key.
unfoldable pub last_items : List SyncOperation → Map StoredItem → Map StoredItem
last_items [] m = m
last_items (op ∷ ops) m =
    last_items ops (elim op.item [ none ↦ m | some item ↦ store op.key item m ])

items_of-sent :
    (ops : List SyncOperation) (m : Map StoredItem)
    → items_of (map some (sent ops)) m ≡ some (last_items ops m)
unfolding items_of last_items
items_of-sent [] m = refl
items_of-sent (op ∷ ops) m =
    let with_op = λ (o : Option StoredItem).
      items_of (map some (elim o [ none ↦ sent ops | some item ↦ op ∷ sent ops ])) m in
    let stored = λ (o : Option StoredItem).
      some (last_items ops (elim o [ none ↦ m | some item ↦ store op.key item m ])) in
    elim (Option-cases op.item) [
      | inl lacks ↦ ap with_op lacks ∙ items_of-sent ops m ∙ ap stored (sym lacks)
      | inr (item, has) ↦
          ap with_op has
          ∙ items_of-sent ops (elim op.item [ none ↦ m | some item ↦ store op.key item m ])
    ]

saved :
    (ops : List SyncOperation) (disk : Disk)
    → ops ≢ []
    → (save_checkpoint true ops disk).1 ≡ some (framed (serialize ops))
unfolding save_checkpoint
saved [] disk some_op = absurd (some_op refl)
saved (op ∷ ops) disk some_op = ground arith

-- A node that starts with the file of a checkpoint which was written without an error writes the
-- last item of each key of its operations again, through `BatchSet`, and nothing where no operation
-- has an item; it meets no nil operation. The operations are at least one, fit the wire, and have
-- less than 4 GB altogether.
pub restore-save_checkpoint :
    (libs : Libs) (wall : ℕ) (ops : List SyncOperation) (disk : Disk) (w : Writer)
    → ops ≢ []
    → length ops < 2 ^ 32
    → length (serialize ops) < 2 ^ 32
    → All Sendable ops
    → restore libs wall (save_checkpoint true ops disk).1 w
      ≡ some (
          if ltb 0 (length (last_items ops []))
          then batch_write libs wall (last_items ops []) w
          else w)
unfolding restore
restore-save_checkpoint libs wall ops disk w some_op few short all =
    ap (λ d. write_back libs wall w (items_of (load_checkpoint d) [])) (saved ops disk some_op)
    ∙ ap (λ l. write_back libs wall w (items_of l []))
        (load_framed (serialize ops) short ∙ deserialize-serialize ops few all)
    ∙ ap (write_back libs wall w) (items_of-sent ops [])

-- A checkpoint that fails, or has no operations, leaves the file that was there: what a node starts
-- with then is what it would have started with before.
pub save_checkpoint_fails :
    (io : Bool) (ops : List SyncOperation) (disk : Disk)
    → (io ≡ false) ⊎ (ops ≡ [])
    → (save_checkpoint io ops disk).1 ≡ disk
unfolding save_checkpoint
save_checkpoint_fails io ops disk h = ground arith
