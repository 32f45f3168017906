-- ===== src/Codec/SyncOps.antt =====
-- `SyncOpsCodec`: how the operations for the replicas are written and read. The pooled buffers and
-- the estimate of the size are left out.
use grid_kv.Base.{
  ℕ, zero, suc, Option, none, some, List, [], ◌∷◌, ◌++◌, Str, length, slt, ◌==◌, if◌then◌else◌,
}
use grid_kv.Storage.Item.{StoredItem}
use grid_kv.Storage.Shard.{OpType, SyncOperation}
use grid_kv.Codec.Wire.{◌>>=◌, put_uint, get_uint, get_bytes, encode_string, decode_string}
use grid_kv.Codec.Messages.{unix_nano, unix_time}

-- No expiration, which is Go's zero time, is 0 on the wire; what is not positive there reads as
-- no expiration.
abbrev pub expire_nano : ℕ → ℕ
expire_nano t = if t == 0 then 0 else unix_nano t

abbrev pub expire_time : ℕ → ℕ
expire_time n = if slt 0 n then unix_time n else 0

abbrev pub op_code : OpType → ℕ
op_code OpType.op_set = 0
op_code OpType.op_delete = 1
op_code (OpType.op_other n) = 0

abbrev pub decode_op_type : ℕ → OpType
decode_op_type n =
    if n == 0 then OpType.op_set else if n == 1 then OpType.op_delete else OpType.op_other n

-- `encodeOpStreaming`, of an operation that has an item
unfoldable pub encode_op : SyncOperation → StoredItem → List ℕ
unfolding put_uint encode_string
encode_op op item =
    encode_string op.key
    ++ (put_uint 8 item.version
        ++ (op_code op.op_type
            ∷ (put_uint 8 (expire_nano item.expire_at)
                ++ (put_uint 4 (length item.value) ++ item.value))))

-- The operation behind its length; one without an item is passed over.
unfoldable pub encode_ops : List SyncOperation → List ℕ
unfolding encode_op
encode_ops [] = []
encode_ops (op ∷ ops) =
    let rest = encode_ops ops in
    elim op.item [
      | none ↦ rest
      | some item ↦ put_uint 4 (length (encode_op op item)) ++ (encode_op op item ++ rest)
    ]

unfoldable pub serialize : List SyncOperation → List ℕ
unfolding encode_ops
serialize [] = []
serialize (op ∷ ops) = put_uint 4 (length (op ∷ ops)) ++ encode_ops (op ∷ ops)

abbrev pub first_byte : List ℕ → Option (ℕ × List ℕ)
first_byte [] = none
first_byte (b ∷ bs) = some (b, bs)

-- The fields from the value on, from its length on, and from the type on.
abbrev pub read_value : Str → ℕ → ℕ → ℕ → ℕ × List ℕ → Option SyncOperation
read_value key version op_type expire (n, tail) = do
  (value, rest) ← get_bytes n tail
  some (record {
    key = key;
    op_type = decode_op_type op_type;
    item =
        some
          (record { version = version; expire_at = expire_time expire; value = value; key = key });
  })

abbrev pub read_length : Str → ℕ → ℕ → ℕ × List ℕ → Option SyncOperation
read_length key version op_type (expire, tail) =
    get_uint 4 tail >>= read_value key version op_type expire

abbrev pub read_type : Str → ℕ × List ℕ → Option SyncOperation
read_type key (version, tail) = do
  (op_type, tail₁) ← first_byte tail
  get_uint 8 tail₁ >>= read_length key version op_type

unfoldable pub decode_op : List ℕ → Option SyncOperation
unfolding get_uint get_bytes decode_string
decode_op input = do (key, tail) ← decode_string input; get_uint 8 tail >>= read_type key

-- The loop of `Deserialize`: where bytes are missing it ends, and an operation that does not decode
-- is a nil pointer among the results.
unfoldable pub decode_ops : ℕ → List ℕ → List (Option SyncOperation)
unfolding decode_op
decode_ops zero input = []
decode_ops (suc count) input = elim (get_uint 4 input) [
  | none ↦ []
  | some (n, tail) ↦ elim (get_bytes n tail) [
    | none ↦ []
    | some (bytes, rest) ↦ decode_op bytes ∷ decode_ops count rest
  ]
]

unfoldable pub deserialize : List ℕ → List (Option SyncOperation)
unfolding decode_ops
deserialize input = elim (get_uint 4 input) [
  | none ↦ []
  | some (count, rest) ↦ decode_ops count rest
]
