-- ===== src/Codec/SyncTrip.antt =====
-- What the codec of the operations for the replicas reads back.
use grid_kv.Base.{
  ℕ, zero, suc, ◌^◌, ◌≤◌, ◌<◌, ◌≡◌, refl, sym, ◌∙◌, ap, none, some, List, [], ◌∷◌, ◌++◌, map,
  length, All, Option-cases, inl, inr, arith,
}
use mathlib.Core.List.{append-nil}
use grid_kv.Storage.Item.{StoredItem}
use grid_kv.Storage.Shard.{SyncOperation}
use grid_kv.Codec.Wire.{
  bind-some, put_uint, get_uint, get_bytes, get_uint-put_uint, get_bytes-append,
  decode_string-encode_string,
}
use grid_kv.Codec.SyncOps.{
  expire_nano, expire_time, op_code, decode_op_type, encode_op, encode_ops, serialize, read_value,
  read_length, read_type, decode_op, decode_ops, deserialize,
}

-- What the wire can hold of an operation: an int64 that is 0 or after 1970 for the expiry.
pub record FitsWire (op : SyncOperation) (item : StoredItem) : Type 0 where
  pub key_length : length op.key < 2 ^ 16
  pub same_key : item.key ≡ op.key
  pub version_bits : item.version < 2 ^ 64
  pub value_length : length item.value < 2 ^ 32
  pub total_length : length (encode_op op item) < 2 ^ 32
  pub named_type : decode_op_type (op_code op.op_type) ≡ op.op_type
  pub expiry : expire_time (expire_nano item.expire_at) ≡ item.expire_at

pub expire_nano_bound : (t : ℕ) → expire_nano t < 2 ^ 64
expire_nano_bound t = ground arith

decode_op-encode_op :
    (op : SyncOperation) (item : StoredItem)
    → op.item ≡ some item
    → FitsWire op item
    → decode_op (encode_op op item) ≡ some op
unfolding decode_op encode_op
decode_op-encode_op op item has fits =
    let code = op_code op.op_type in
    let value_part = put_uint 4 (length item.value) ++ item.value in
    let expiry_part = put_uint 8 (expire_nano item.expire_at) ++ value_part in
    let version_part = put_uint 8 item.version ++ (op_code op.op_type ∷ expiry_part) in
    bind-some _ (decode_string-encode_string op.key version_part fits.key_length)
    ∙ bind-some (read_type op.key)
        (get_uint-put_uint 8 item.version (op_code op.op_type ∷ expiry_part) fits.version_bits)
    ∙ bind-some (read_length op.key item.version code) (
        get_uint-put_uint 8 (expire_nano item.expire_at) value_part
          (expire_nano_bound item.expire_at))
    ∙ bind-some (read_value op.key item.version code (expire_nano item.expire_at))
        (get_uint-put_uint 4 (length item.value) item.value fits.value_length)
    ∙ bind-some
        (λ p. some (record {
          key = op.key;
          op_type = decode_op_type (op_code op.op_type);
          item = some (record {
            version = item.version;
            expire_at = expire_time (expire_nano item.expire_at);
            value = p.0;
            key = op.key;
          });
        }))
        (ap (get_bytes (length item.value)) (sym (append-nil item.value))
          ∙ get_bytes-append item.value [])
    ∙ rw (fits.named_type, fits.expiry, sym fits.same_key, has) refl

-- The operations that have an item: the others are not sent.
abbrev pub has_item : SyncOperation → List SyncOperation → List SyncOperation
has_item op rest = elim op.item [ none ↦ rest | some item ↦ op ∷ rest ]

abbrev pub sent : List SyncOperation → List SyncOperation
sent [] = []
sent (op ∷ ops) = has_item op (sent ops)

-- An operation fits, if it is sent.
abbrev pub Sendable : SyncOperation → Type 0
Sendable op = (item : StoredItem) → op.item ≡ some item → FitsWire op item

decode_ops-step :
    (count n : ℕ) (input tail bytes rest : List ℕ)
    → get_uint 4 input ≡ some (n, tail)
    → get_bytes n tail ≡ some (bytes, rest)
    → decode_ops (suc count) input ≡ decode_op bytes ∷ decode_ops count rest
unfolding decode_ops
decode_ops-step count n input tail bytes rest header body = rw (decode_ops, header, body) refl

-- Where the bytes end, so does the loop.
decode_ops-end : (count : ℕ) → decode_ops count [] ≡ []
unfolding decode_ops get_uint
decode_ops-end zero = refl
decode_ops-end (suc count) = refl

encode_ops_end : encode_ops [] ≡ []
unfolding encode_ops
encode_ops_end = refl

encode_ops_item :
    (op : SyncOperation) (ops : List SyncOperation) (item : StoredItem)
    → op.item ≡ some item
    → encode_ops (op ∷ ops)
      ≡ put_uint 4 (length (encode_op op item)) ++ (encode_op op item ++ encode_ops ops)
unfolding encode_ops
encode_ops_item op ops item has = rw (encode_ops, has) refl

encode_ops_nil :
    (op : SyncOperation) (ops : List SyncOperation)
    → op.item ≡ none
    → encode_ops (op ∷ ops) ≡ encode_ops ops
unfolding encode_ops
encode_ops_nil op ops lacks = rw (encode_ops, lacks) refl

decode_ops-encode_ops :
    (count : ℕ) (ops : List SyncOperation)
    → length ops ≤ count
    → All Sendable ops
    → decode_ops count (encode_ops ops) ≡ map some (sent ops)
decode_ops-encode_ops count [] h all = ap (decode_ops count) encode_ops_end ∙ decode_ops-end count
decode_ops-encode_ops zero (op ∷ ops) h all = absurd (omega arith)
decode_ops-encode_ops (suc count) (op ∷ ops) h all = elim (Option-cases op.item) [
  | inl lacks ↦
      ap (decode_ops (suc count)) (encode_ops_nil op ops lacks)
      ∙ decode_ops-encode_ops (suc count) ops (omega arith) all.1
      ∙ ap (λ o. map some (elim o [ none ↦ sent ops | some item ↦ op ∷ sent ops ])) (sym lacks)
  | inr (item, has) ↦
      let body = encode_op op item in
      ap (decode_ops (suc count)) (encode_ops_item op ops item has)
      ∙ decode_ops-step count (length body) (put_uint 4 (length body) ++ (body ++ encode_ops ops))
          (body ++ encode_ops ops) body (encode_ops ops)
          (get_uint-put_uint 4 (length body) (body ++ encode_ops ops) (all.0 item has).total_length)
          (get_bytes-append body (encode_ops ops))
      ∙ ap (λ o. o ∷ decode_ops count (encode_ops ops))
          (decode_op-encode_op op item has (all.0 item has))
      ∙ ap (λ os. some op ∷ os) (decode_ops-encode_ops count ops (omega arith) all.1)
      ∙ ap (λ o. map some (elim o [ none ↦ sent ops | some i ↦ op ∷ sent ops ])) (sym has)
]

deserialize_header :
    (input rest : List ℕ) (count : ℕ)
    → get_uint 4 input ≡ some (count, rest)
    → deserialize input ≡ decode_ops count rest
unfolding deserialize
deserialize_header input rest count header = rw (deserialize, header) refl

-- What is written of a list of operations reads back as those of them that have an item, in their
-- order; an operation without one, which is what a delete is, is lost. This holds for fewer than
-- 2^32 operations that fit the wire.
pub deserialize-serialize :
    (ops : List SyncOperation)
    → length ops < 2 ^ 32
    → All Sendable ops
    → deserialize (serialize ops) ≡ map some (sent ops)
unfolding deserialize serialize get_uint
deserialize-serialize [] h all = refl
deserialize-serialize (op ∷ ops) h all =
    let n = length (op ∷ ops) in
    let input = put_uint 4 n ++ encode_ops (op ∷ ops) in
    deserialize_header input (encode_ops (op ∷ ops)) n
      (get_uint-put_uint 4 n (encode_ops (op ∷ ops)) h)
    ∙ decode_ops-encode_ops n (op ∷ ops) (omega arith) all
