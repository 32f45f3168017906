-- ===== src/Storage/Queue.antt =====
-- The buffer of operations beside a bounded queue that drops its oldest entry when it is full.
use grid_kv.Base.{
  ℕ, zero, suc, ◌+◌, ◌-◌, ◌*◌, ◌/◌, ◌≤◌, ◌<◌, ◌≡◌, ◌≢◌, refl, sym, ◌∙◌, ap, true, false, Option,
  none, some, List, [], ◌∷◌, ◌++◌, length, length-set, get_elem?-set_self, get_elem?-set_ne, set,
  drop, leb, dec_lt, if◌then◌else◌, arith,
}
use native.Mathlib.Nat.{add-zero, mod-lt, div-add-mod}
use grid_kv.Storage.Buffer.{
  SyncBuffer, slot, clear_slots, make_room, write_head, push, content, entry, collect_ops, drain,
}

-- Two counters that are less than a round apart have different slots.
mul_gap : (c q q' : ℕ) → q < q' → c * q + c ≤ c * q'
mul_gap c q q' h = grind arith

mul_mono : (c q q' : ℕ) → q ≤ q' → c * q ≤ c * q'
mul_mono c q q' h = grind arith

slide : (i n : ℕ) → i + suc n ≡ i + 1 + n
slide i n = omega arith

slot_ne : (i j c : ℕ) → i < j → j - i < c → slot i c ≢ slot j c
slot_ne i j c lt near e = elim (dec_lt (i / c) (j / c)) [
  | yes less ↦ omega (arith, mul_gap c (i / c) (j / c) less, div-add-mod i c, div-add-mod j c)
  | no not_less ↦
      omega (arith, mul_mono c (j / c) (i / c) (omega arith), div-add-mod i c, div-add-mod j c)
]

module _ {ℓ} {A : Type ℓ} where
  -- The entry is there.
  abbrev pub Present : Option A → Type 0
  Present none = ⊥
  Present (some op) = Unit

  pub record IsBuffer (b : SyncBuffer A) : Type 0 where
    pub room : 0 < b.capacity
    pub sized : length b.slots ≡ b.capacity
    pub ordered : b.tail ≤ b.head
    pub bounded : b.head - b.tail ≤ b.capacity
    pub present : (i : ℕ) → b.tail ≤ i → i < b.head → Present (entry b i)

  -- The operations that wait, oldest first.
  unfoldable pub pending : SyncBuffer A → List A
  pending b = collect_ops (b.head - b.tail) b.tail b

  -- Buffers that agree on the slots of a stretch hold the same operations there.
  collect_ops_ext :
      (n i : ℕ) (b b' : SyncBuffer A)
      → ((k : ℕ) → i ≤ k → k < i + n → entry b k ≡ entry b' k)
      → collect_ops n i b ≡ collect_ops n i b'
  unfolding collect_ops
  collect_ops_ext zero i b b' same = refl
  collect_ops_ext (suc n) i b b' same = ground (
    arith,
    same i (omega arith) (omega arith),
    collect_ops_ext n (i + 1) b b' (λ k p q. same k (omega arith) (omega arith)),
  )

  -- One more slot at the end.
  collect_ops-snoc :
      (n i : ℕ) (b : SyncBuffer A) (op : A)
      → entry b (i + n) ≡ some op
      → collect_ops (suc n) i b ≡ collect_ops n i b ++ op ∷ []
  unfolding collect_ops
  collect_ops-snoc zero i b op e = ground (arith, rw add-zero at e)
  collect_ops-snoc (suc n) i b op e =
      ground (arith, collect_ops-snoc n (i + 1) b op (rw (slide i n) at e))

  length-collect_ops :
      (n i : ℕ) (b : SyncBuffer A)
      → ((k : ℕ) → i ≤ k → k < i + n → Present (entry b k))
      → length (collect_ops n i b) ≡ n
  unfolding collect_ops
  length-collect_ops zero i b all = refl
  length-collect_ops (suc n) i b all = ground (
    arith,
    all i (omega arith) (omega arith),
    length-collect_ops n (i + 1) b (λ k p q. all k (omega arith) (omega arith)),
  )

  drop-first :
      (n i : ℕ) (b : SyncBuffer A)
      → Present (entry b i)
      → drop 1 (collect_ops (suc n) i b) ≡ collect_ops n (i + 1) b
  unfolding collect_ops
  drop-first n i b there = ground arith

  entry-write_head_self :
      (op : A) (b : SyncBuffer A)
      → 0 < b.capacity
      → length b.slots ≡ b.capacity
      → entry (write_head op b) b.head ≡ some op
  entry-write_head_self op b room sized = ap content (
      get_elem?-set_self b.slots (slot b.head b.capacity) (some op) (rw sized (mod-lt b.head room)))

  entry-write_head_ne :
      (op : A) (b : SyncBuffer A) (k : ℕ)
      → k < b.head
      → b.head - k < b.capacity
      → entry (write_head op b) k ≡ entry b k
  entry-write_head_ne op b k lt near =
      ap content
        (get_elem?-set_ne b.slots (some op) (λ e. slot_ne k b.head b.capacity lt near (sym e)))

  -- A buffer with room keeps what waits and has the new operation behind it.
  module _ (op : A) (b : SyncBuffer A) (ok : IsBuffer b) (free : b.head - b.tail < b.capacity) where
    entry-write_head : (k : ℕ) → b.tail ≤ k → k < b.head → entry (write_head op b) k ≡ entry b k
    entry-write_head k p q = entry-write_head_ne op b k q (omega arith)

    pending-write_head : pending (write_head op b) ≡ pending b ++ op ∷ []
    unfolding pending
    pending-write_head =
        let n = b.head - b.tail in
        let there : b.tail + n ≡ b.head = omega (arith, ok.ordered) in
        let len : b.head + 1 - b.tail ≡ suc n = omega (arith, ok.ordered) in
        ap (λ m. collect_ops m b.tail (write_head op b)) len
        ∙ collect_ops-snoc n b.tail (write_head op b) op
            (rw there (entry-write_head_self op b ok.room ok.sized))
        ∙ ap (λ ops. ops ++ op ∷ [])
            (collect_ops_ext n b.tail (write_head op b) b
              (λ k p q. entry-write_head k p (omega arith)))

    filled_after : (k : ℕ) → b.tail ≤ k → k < b.head + 1 → Present (entry (write_head op b) k)
    filled_after k p q = elim (dec_lt k b.head) [
      | yes before ↦ rw (entry-write_head k p before) (ok.present k p before)
      | no not_before ↦
          let at_head : k ≡ b.head = omega arith in
          rw (at_head, entry-write_head_self op b ok.room ok.sized) tt
    ]

    write_head-IsBuffer : IsBuffer (write_head op b)
    write_head-IsBuffer = record {
      room = ok.room;
      sized = length-set b.slots (slot b.head b.capacity) (some op) ∙ ok.sized;
      ordered = omega (arith, ok.ordered);
      bounded = omega (arith, ok.ordered);
      present = filled_after;
    }

  -- A full buffer loses the oldest operation.
  module _ (b : SyncBuffer A) (ok : IsBuffer b) (full : b.capacity ≤ b.head - b.tail) where
    abbrev cleared : SyncBuffer A
    cleared = record b { slots = set b.slots (slot b.tail b.capacity) none; tail = b.tail + 1 }

    make_room_full : make_room b ≡ cleared
    unfolding make_room clear_slots
    make_room_full =
        let test : leb b.capacity (b.head - b.tail) ≡ true = ground arith in
        let one : b.head - b.capacity + 1 - b.tail ≡ suc zero =
          omega (arith, ok.bounded, ok.ordered, ok.room) in
        let next : b.head - b.capacity + 1 ≡ b.tail + 1 =
          omega (arith, ok.bounded, ok.ordered, ok.room) in
        rw (test, one, next) refl

    entry-cleared : (k : ℕ) → b.tail + 1 ≤ k → k < b.head → entry cleared k ≡ entry b k
    entry-cleared k p q = ap content (
        get_elem?-set_ne b.slots none
          (slot_ne b.tail k b.capacity (omega arith) (omega (arith, ok.bounded))))

    pending-cleared : pending cleared ≡ drop 1 (pending b)
    unfolding pending
    pending-cleared =
        let n = b.head - (b.tail + 1) in
        let more : b.head - b.tail ≡ suc n = omega (arith, ok.room) in
        collect_ops_ext n (b.tail + 1) cleared b (λ k p q. entry-cleared k p (omega arith))
        ∙ sym (drop-first n b.tail b (ok.present b.tail (omega arith) (omega (arith, ok.room))))
        ∙ ap (λ m. drop 1 (collect_ops m b.tail b)) (sym more)

    cleared-IsBuffer : IsBuffer cleared
    cleared-IsBuffer = record {
      room = ok.room;
      sized = length-set b.slots (slot b.tail b.capacity) none ∙ ok.sized;
      ordered = omega (arith, ok.room);
      bounded = omega (arith, ok.bounded);
      present = λ k p q. rw (entry-cleared k p q) (ok.present k (omega arith) q);
    }

  -- What a queue of `capacity` places holds after `op`.
  abbrev pub bounded_snoc : ℕ → List A → A → List A
  bounded_snoc capacity ops op = (if leb capacity (length ops) then drop 1 ops else ops) ++ op ∷ []

  pub length-pending : (b : SyncBuffer A) → IsBuffer b → length (pending b) ≡ b.head - b.tail
  unfolding pending
  length-pending b ok =
      length-collect_ops (b.head - b.tail) b.tail b
        (λ k p q. ok.present k p (omega (arith, ok.ordered)))

  make_room_free : (b : SyncBuffer A) → b.head - b.tail < b.capacity → make_room b ≡ b
  unfolding make_room
  make_room_free b free =
      let test : leb b.capacity (b.head - b.tail) ≡ false = ground arith in rw test refl

  length-clear_slots :
      (n i c : ℕ) (slots : List (Option A)) → length (clear_slots n i c slots) ≡ length slots
  unfolding clear_slots
  length-clear_slots zero i c slots = refl
  length-clear_slots (suc n) i c slots =
      length-clear_slots n (i + 1) c (set slots (slot i c) none) ∙ length-set slots (slot i c) none

  -- A well-formed buffer stays well-formed when an operation is added, and holds what a queue of its
  -- capacity holds then: the operations before and the new one at the end, without the oldest where
  -- the queue was full.
  pub push-bounded :
      (op : A) (b : SyncBuffer A)
      → IsBuffer b
      → IsBuffer (push op b) × (pending (push op b) ≡ bounded_snoc b.capacity (pending b) op)
  unfolding push
  push-bounded op b ok = elim (dec_lt (b.head - b.tail) b.capacity) [
    | yes free ↦
        let test : leb b.capacity (b.head - b.tail) ≡ false = ground arith in
        rw (make_room_free b free, length-pending b ok, test)
          (write_head-IsBuffer op b ok free, pending-write_head op b ok free)
    | no not_free ↦
        let full : b.capacity ≤ b.head - b.tail = omega arith in
        let test : leb b.capacity (b.head - b.tail) ≡ true = ground arith in
        let ok' = cleared-IsBuffer b ok full in
        let free : b.head - (b.tail + 1) < b.capacity = omega (arith, ok.bounded, ok.room) in
        rw (make_room_full b ok full, length-pending b ok, test, sym (pending-cleared b ok full))
          (
            write_head-IsBuffer op (cleared b ok full) ok' free,
            pending-write_head op (cleared b ok full) ok' free,
          )
  ]

  pub drain-all :
      (b : SyncBuffer A)
      → IsBuffer b
      → ((drain b).0 ≡ pending b) × IsBuffer (drain b).1 × (pending (drain b).1 ≡ [])
  unfolding drain pending collect_ops
  drain-all b ok =
      let none_left : b.head - b.head ≡ zero = omega arith in
      (
        refl,
        record {
          room = ok.room;
          sized = length-clear_slots (b.head - b.tail) b.tail b.capacity b.slots ∙ ok.sized;
          ordered = omega arith;
          bounded = omega arith;
          present = λ i p q. absurd (omega arith);
        },
        rw none_left refl,
      )
