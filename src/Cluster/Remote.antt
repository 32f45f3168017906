-- ===== src/Cluster/Remote.antt =====
-- internal/cluster/cluster.go: a read at another node. `net` is `RequestMessage`, which gives the
-- answer of an address to a request, or an error, `none`; the time limits are left out.
use grid_kv.Base.{
  ℕ, ◌+◌, Option, none, some, List, [], ◌∷◌, ◌++◌, Str, is_empty, length, drop, ltb, if◌then◌else◌,
}
use grid_kv.Codec.SyncOps.{expire_nano, expire_time}
use grid_kv.Codec.Wire.{◌>>=◌, put_uint, get_uint, get_bytes}
use grid_kv.Gossip.Defs.{address_in}
use grid_kv.Member.State.{MemberMgr, members_list}
use grid_kv.Node.{Libs}
use grid_kv.Reader.Defs.{is_value}
use grid_kv.Storage.Item.{StoredItem}
use grid_kv.Storage.Shard.{MemStorage}
use grid_kv.Storage.Store.{Result, get_item}

-- The answer to a read request: the length of the key in two bytes, the key, the version, a zero,
-- the expiry, the length of the value in four bytes, the value.
unfoldable pub encode_answer : StoredItem → List ℕ
unfolding put_uint
encode_answer item =
    put_uint 2 (length item.key)
    ++ (item.key
        ++ (put_uint 8 item.version
            ++ (0
                ∷ (put_uint 8 (expire_nano item.expire_at)
                    ++ (put_uint 4 (length item.value) ++ item.value)))))

-- What a node tells of an item: nothing of a tombstone or an empty value.
abbrev pub told : (StoredItem → List ℕ) → Result StoredItem → List ℕ
told encode (Result.err e) = []
told encode (Result.ok item) = if is_value item then encode item else []

-- The handlers of `MessageTypeReadRequest` and of `MessageTypeRequest`; an answer of no bytes is none.
unfoldable pub handle_read : Libs → ℕ → List ℕ → MemStorage → List ℕ × MemStorage
unfolding get_item encode_answer
handle_read libs now bytes s =
    let (answer, s') = get_item libs.store_hash libs.lz4 now bytes s in
    if is_empty bytes then ([], s) else (told encode_answer answer, s')

unfoldable pub handle_request : Libs → ℕ → List ℕ → MemStorage → List ℕ × MemStorage
unfolding get_item
handle_request libs now bytes s =
    let (answer, s') = get_item libs.store_hash libs.lz4 now bytes s in
    if is_empty bytes then ([], s) else (told (λ item. item.value) answer, s')

-- The fields of an answer behind the key; bytes behind the value do not matter.
abbrev pub item_at_key : Str → ℕ → ℕ → ℕ × List ℕ → Option StoredItem
item_at_key key version expire (n, tail) = do
  (value, rest) ← get_bytes n tail
  some (record { version = version; expire_at = expire_time expire; value = value; key = key })

abbrev pub sized : Str → ℕ → ℕ × List ℕ → Option StoredItem
sized key version (expire, tail) = get_uint 4 tail >>= item_at_key key version expire

abbrev pub versioned : Str → ℕ × List ℕ → Option StoredItem
versioned key (version, tail) = get_uint 8 (drop 1 tail) >>= sized key version

-- An answer too short for the fields is taken for a bare value, with the clock as its version.
abbrev pub keyed : ℕ → Str → List ℕ → ℕ × List ℕ → Option StoredItem
keyed wall key bytes (n, tail) =
    if ltb (length tail) (n + 21)
    then some (record { version = wall; expire_at = 0; value = bytes; key = key })
    else get_uint 8 (drop n tail) >>= versioned key

-- `none` is an error.
unfoldable pub decode_answer : ℕ → Str → List ℕ → Option StoredItem
unfolding get_uint get_bytes
decode_answer wall key bytes = get_uint 2 bytes >>= keyed wall key bytes

abbrev pub found_answer : Option StoredItem → Option (Option StoredItem)
found_answer none = none
found_answer (some item) = some (some item)

abbrev pub received : ℕ → Str → Option (List ℕ) → Option (Option StoredItem)
received wall key none = none
received wall key (some []) = some none
received wall key (some (b ∷ bytes)) = found_answer (decode_answer wall key (b ∷ bytes))

-- The function of `createGetFunc`: an error, nil or an item
unfoldable pub get_remote :
    (Str → List ℕ → Option (List ℕ)) → ℕ → MemberMgr → Str → Str → Option (Option StoredItem)
unfolding address_in members_list decode_answer
get_remote net wall m node_id key =
    let address = address_in node_id (members_list m) in
    if is_empty address then none else received wall key (net address key)
