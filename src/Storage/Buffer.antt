-- ===== src/Storage/Buffer.antt =====
-- The ring of operations to replicate of a shard (`addToSyncBuffer` and the loop of
-- `GetSyncBuffer`): a bounded queue that drops its oldest entries. The counters of a `uint64` do
-- not wrap within any lifetime of the program, so they are plain numbers.
use grid_kv.Base.{
  ℕ, zero, suc, ◌+◌, ◌-◌, ◌%◌, Option, none, some, List, [], ◌∷◌, get_elem?, set, replicate, leb,
  if◌then◌else◌,
}

pub record SyncBuffer {ℓ} (A : Type ℓ) : Type ℓ where
  pub slots : List (Option A)
  pub head : ℕ
  pub tail : ℕ
  pub capacity : ℕ

-- `i & syncMask`: the capacity is a power of two, so that is the remainder.
abbrev pub slot : ℕ → ℕ → ℕ
slot i capacity = i % capacity

module _ {ℓ} {A : Type ℓ} where
  unfoldable pub new_buffer : ℕ → SyncBuffer A
  new_buffer capacity = record {
    slots = replicate capacity none;
    head = 0;
    tail = 0;
    capacity = capacity;
  }

  -- `for i := tail; i < newTail; i++ { buffer[i&mask].op = nil }`, for `n` slots from `i` on
  unfoldable pub clear_slots : ℕ → ℕ → ℕ → List (Option A) → List (Option A)
  clear_slots zero i capacity slots = slots
  clear_slots (suc n) i capacity slots =
      clear_slots n (i + 1) capacity (set slots (slot i capacity) none)

  -- Where the buffer is full, the oldest entries make room.
  unfoldable pub make_room : SyncBuffer A → SyncBuffer A
  unfolding clear_slots
  make_room b =
      if leb b.capacity (b.head - b.tail)
      then record b {
        slots = clear_slots (b.head - b.capacity + 1 - b.tail) b.tail b.capacity b.slots;
        tail = b.head - b.capacity + 1;
      }
      else b

  abbrev pub write_head : A → SyncBuffer A → SyncBuffer A
  write_head op b = record b {
    slots = set b.slots (slot b.head b.capacity) (some op);
    head = b.head + 1;
  }

  unfoldable pub push : A → SyncBuffer A → SyncBuffer A
  unfolding make_room
  push op b = write_head op (make_room b)

  abbrev pub content : Option (Option A) → Option A
  content none = none
  content (some o) = o

  abbrev pub entry : SyncBuffer A → ℕ → Option A
  entry b i = content (get_elem? b.slots (slot i b.capacity))

  -- The entries from `i` on, `n` slots; an empty slot gives none.
  unfoldable pub collect_ops : ℕ → ℕ → SyncBuffer A → List A
  collect_ops zero i b = []
  collect_ops (suc n) i b =
      let rest = collect_ops n (i + 1) b in elim (entry b i) [ none ↦ rest | some op ↦ op ∷ rest ]

  -- The pending entries, and the buffer that has handed them over.
  unfoldable pub drain : SyncBuffer A → List A × SyncBuffer A
  unfolding collect_ops clear_slots
  drain b = (
    collect_ops (b.head - b.tail) b.tail b,
    record b { slots = clear_slots (b.head - b.tail) b.tail b.capacity b.slots; tail = b.head },
  )
