-- ===== src/Cluster/RemoteTrip.antt =====
-- A read at another node, from the request to the answer: internal/cluster/cluster.go.
use grid_kv.Base.{
  ℕ, zero, suc, ◌+◌, ◌/◌, ◌^◌, ◌<◌, ◌≤◌, ◌≡◌, refl, sym, ap, ◌∙◌, false, Option, none, some, List,
  [], ◌∷◌, ◌++◌, Str, is_empty, length, length-append, drop-append_self, ltb, if◌then◌else◌,
  if_cases, Bool-cases, inl, inr, arith,
}
use mathlib.Core.List.{append-nil}
use grid_kv.Cluster.Remote.{
  encode_answer, told, handle_read, keyed, versioned, sized, item_at_key, decode_answer,
  found_answer, received, get_remote,
}
use grid_kv.Codec.SyncOps.{expire_nano, expire_time}
use grid_kv.Codec.SyncTrip.{expire_nano_bound}
use grid_kv.Codec.Wire.{
  ◌>>=◌, bind-some, put_uint, get_uint, get_bytes, get_uint-put_uint, get_bytes-append,
}
use grid_kv.Gossip.Defs.{address_in}
use grid_kv.Member.State.{MemberMgr, members_list}
use grid_kv.Node.{Libs}
use grid_kv.Reader.Defs.{is_value}
use grid_kv.Storage.Item.{StoredItem}
use grid_kv.Storage.Shard.{MemStorage}
use grid_kv.Storage.Store.{Result, get_item}

-- What an answer can hold of an item.
pub record FitsAnswer (item : StoredItem) : Type 0 where
  pub key_length : length item.key < 2 ^ 16
  pub version_bits : item.version < 2 ^ 64
  pub value_length : length item.value < 2 ^ 32
  pub expiry : expire_time (expire_nano item.expire_at) ≡ item.expire_at

length-put_uint : (k n : ℕ) → length (put_uint k n) ≡ k
unfolding put_uint
length-put_uint zero n = refl
length-put_uint (suc k) n = ap suc (length-put_uint k (n / 256))

ltb-false : (a b : ℕ) → b ≤ a → ltb a b ≡ false
ltb-false a b le = ground arith

abbrev fields : StoredItem → List ℕ
fields item =
    put_uint 8 item.version
    ++ (0
        ∷ (put_uint 8 (expire_nano item.expire_at)
            ++ (put_uint 4 (length item.value) ++ item.value)))

long_enough :
    (item : StoredItem) → ltb (length (item.key ++ fields item)) (length item.key + 21) ≡ false
long_enough item =
    let value_part = put_uint 4 (length item.value) ++ item.value in
    let expiry_part = put_uint 8 (expire_nano item.expire_at) ++ value_part in
    let a = length-append item.key (fields item) in
    let b = length-append (put_uint 8 item.version) (0 ∷ expiry_part) in
    let c = length-append (put_uint 8 (expire_nano item.expire_at)) value_part in
    let d = length-append (put_uint 4 (length item.value)) item.value in
    let e = length-put_uint 8 item.version in
    let f = length-put_uint 8 (expire_nano item.expire_at) in
    let g = length-put_uint 4 (length item.value) in
    ltb-false (length (item.key ++ fields item)) (length item.key + 21) (omega arith)

abbrev named : Str → StoredItem → StoredItem
named key item = record {
  version = item.version;
  expire_at = item.expire_at;
  value = item.value;
  key = key;
}

decode_fields :
    (key : Str) (item : StoredItem)
    → FitsAnswer item
    → ((get_uint 8 (fields item)) >>= versioned key) ≡ some (named key item)
decode_fields key item fits =
    let value_part = put_uint 4 (length item.value) ++ item.value in
    let expiry_part = put_uint 8 (expire_nano item.expire_at) ++ value_part in
    bind-some (versioned key) (get_uint-put_uint 8 item.version (0 ∷ expiry_part) fits.version_bits)
    ∙ bind-some (sized key item.version) (
        get_uint-put_uint 8 (expire_nano item.expire_at) value_part
          (expire_nano_bound item.expire_at))
    ∙ bind-some (item_at_key key item.version (expire_nano item.expire_at))
        (get_uint-put_uint 4 (length item.value) item.value fits.value_length)
    ∙ bind-some
        (λ p. some (record {
          version = item.version;
          expire_at = expire_time (expire_nano item.expire_at);
          value = p.0;
          key = key;
        }))
        (ap (get_bytes (length item.value)) (sym (append-nil item.value))
          ∙ get_bytes-append item.value [])
    ∙ rw fits.expiry refl

decode_keyed :
    (wall : ℕ) (key : Str) (bytes : List ℕ) (item : StoredItem)
    → FitsAnswer item
    → keyed wall key bytes (length item.key, item.key ++ fields item) ≡ some (named key item)
decode_keyed wall key bytes item fits =
    rw (long_enough item, drop-append_self item.key (fields item)) (decode_fields key item fits)

encode_answer-fields :
    (item : StoredItem)
    → encode_answer item ≡ put_uint 2 (length item.key) ++ (item.key ++ fields item)
unfolding encode_answer
encode_answer-fields item = refl

decode_answer_header :
    (wall : ℕ) (key : Str) (bytes : List ℕ) (n : ℕ) (rest : List ℕ)
    → get_uint 2 bytes ≡ some (n, rest)
    → decode_answer wall key bytes ≡ keyed wall key bytes (n, rest)
unfolding decode_answer
decode_answer_header wall key bytes n rest header = rw (decode_answer, header) refl

decode_answer-encode_answer :
    (wall : ℕ) (key : Str) (item : StoredItem)
    → FitsAnswer item
    → decode_answer wall key (encode_answer item) ≡ some (named key item)
decode_answer-encode_answer wall key item fits =
    let whole = item.key ++ fields item in
    ap (decode_answer wall key) (encode_answer-fields item)
    ∙ decode_answer_header wall key (put_uint 2 (length item.key) ++ whole) (length item.key) whole
        (get_uint-put_uint 2 (length item.key) whole fits.key_length)
    ∙ decode_keyed wall key (put_uint 2 (length item.key) ++ whole) item fits

-- What a client may see of an answer of the store.
abbrev pub seen : Str → Result StoredItem → Option StoredItem
seen key (Result.err e) = none
seen key (Result.ok item) = if is_value item then some (named key item) else none

received_encoded :
    (wall : ℕ) (key : Str) (item : StoredItem)
    → received wall key (some (encode_answer item))
      ≡ found_answer (decode_answer wall key (encode_answer item))
unfolding encode_answer
received_encoded wall key item = refl

received-told :
    (wall : ℕ) (key : Str) (answer : Result StoredItem)
    → ((item : StoredItem) → answer ≡ Result.ok item → FitsAnswer item)
    → received wall key (some (told encode_answer answer)) ≡ some (seen key answer)
received-told wall key (Result.err e) fits = refl
received-told wall key (Result.ok item) fits = elim (Bool-cases (is_value item)) [
  | inl value ↦ rw value (
      received_encoded wall key item
      ∙ ap found_answer (decode_answer-encode_answer wall key item (fits item refl)))
  | inr nothing ↦ rw nothing refl
]

handled_read :
    (libs : Libs) (now : ℕ) (key : Str) (s : MemStorage)
    → is_empty key ≡ false
    → (handle_read libs now key s).0
      ≡ told encode_answer (get_item libs.store_hash libs.lz4 now key s).0
unfolding handle_read
handled_read libs now key s some_key =
    if_cases
      (λ (r : List ℕ × MemStorage).
        r.0 ≡ told encode_answer (get_item libs.store_hash libs.lz4 now key s).0)
      (is_empty key) _ _ (λ empty. absurd (ground arith)) (λ _. refl)

reached :
    (net : Str → List ℕ → Option (List ℕ)) (wall : ℕ) (m : MemberMgr) (id key : Str)
    → is_empty (address_in id (members_list m)) ≡ false
    → get_remote net wall m id key ≡ received wall key (net (address_in id (members_list m)) key)
unfolding get_remote
reached net wall m id key known = rw known refl

-- A read at another node gives what the store there answers: the item with its bytes, version and
-- expiry if it has a value, and nil otherwise; if the members know an address of the node, the
-- network carries the request and the answer, the key is not empty, and the answer can hold the
-- item.
pub get_remote-handle_read :
    (libs : Libs) (net : Str → List ℕ → Option (List ℕ)) (wall now : ℕ) (m : MemberMgr)
    (id key : Str) (s : MemStorage)
    → let address = address_in id (members_list m) in
      is_empty address ≡ false
      → is_empty key ≡ false
      → net address key ≡ some (handle_read libs now key s).0
      → ((item : StoredItem)
          → (get_item libs.store_hash libs.lz4 now key s).0 ≡ Result.ok item
          → FitsAnswer item)
      → get_remote net wall m id key
        ≡ some (seen key (get_item libs.store_hash libs.lz4 now key s).0)
get_remote-handle_read libs net wall now m id key s known some_key carried fits =
    reached net wall m id key known
    ∙ ap (received wall key) (carried ∙ ap some (handled_read libs now key s some_key))
    ∙ received-told wall key (get_item libs.store_hash libs.lz4 now key s).0 fits
