-- ===== src/Storage/Recent.antt =====
-- Runs of writes to the buffer of a shard, and what it hands over after them.
use grid_kv.Base.{
  ℕ, zero, suc, ◌+◌, ◌-◌, ◌≤◌, ◌<◌, ◌≡◌, refl, ◌∙◌, ap, true, false, List, [], ◌∷◌, ◌++◌, length,
  length-append, length-drop, length-replicate, drop, leb, dec_lt, arith,
}
use mathlib.Core.List.{append_assoc, append-nil}
use mathlib.Core.Option.{none}
use grid_kv.Storage.Buffer.{SyncBuffer, new_buffer, make_room, push, drain, collect_ops}
use grid_kv.Storage.Queue.{IsBuffer, pending, bounded_snoc, push-bounded, drain-all, length-pending}

module _ {ℓ} {A : Type ℓ} where
  abbrev pub recent : ℕ → List A → List A
  recent n xs = drop (length xs - n) xs

  unfoldable pub push_all : List A → SyncBuffer A → SyncBuffer A
  push_all [] b = b
  push_all (op ∷ ops) b = push_all ops (push op b)

  drop-append : (k : ℕ) (xs ys : List A) → k ≤ length xs → drop k xs ++ ys ≡ drop k (xs ++ ys)
  drop-append zero xs ys h = refl
  drop-append (suc k) [] ys h = absurd (omega arith)
  drop-append (suc k) (x ∷ xs) ys h = drop-append k xs ys (omega arith)

  drop-same : (m n : ℕ) (xs : List A) → m ≡ n → drop m xs ≡ drop n xs
  drop-same m n xs e = ap (λ k. drop k xs) e

  drop-drop : (j k : ℕ) (xs : List A) → drop j (drop k xs) ≡ drop (k + j) xs
  drop-drop j zero xs = drop-same j (0 + j) xs (omega arith)
  drop-drop zero (suc k) [] = drop-same (suc k) (suc k + 0) [] (omega arith)
  drop-drop (suc j) (suc k) [] = drop-same (suc (k + suc j)) (suc k + suc j) [] (omega arith)
  drop-drop j (suc k) (x ∷ xs) =
      drop-drop j k xs ∙ drop-same (suc (k + j)) (suc k + j) (x ∷ xs) (omega arith)

  recent-recent : (n : ℕ) (xs ys : List A) → recent n (recent n xs ++ ys) ≡ recent n (xs ++ ys)
  recent-recent n xs ys =
      let k = length xs - n in
      let keep : recent n xs ++ ys ≡ drop k (xs ++ ys) = drop-append k xs ys (omega arith) in
      ap (recent n) keep
      ∙ drop-drop (length (drop k (xs ++ ys)) - n) k (xs ++ ys)
      ∙ drop-same (k + (length (drop k (xs ++ ys)) - n)) (length (xs ++ ys) - n) (xs ++ ys)
          (omega (arith, length-drop k (xs ++ ys), length-append xs ys))

  bounded_snoc-recent :
      (n : ℕ) (xs : List A) (op : A)
      → length xs ≤ n
      → 0 < n
      → bounded_snoc n xs op ≡ recent n (xs ++ op ∷ [])
  bounded_snoc-recent n xs op h room = elim (dec_lt (length xs) n) [
    | yes free ↦
        let test : leb n (length xs) ≡ false = ground arith in
        rw test (
          drop-same 0 (length (xs ++ op ∷ []) - n) (xs ++ op ∷ [])
            (omega (arith, length-append xs (op ∷ []))))
    | no not_free ↦
        let test : leb n (length xs) ≡ true = ground arith in
        rw test (
          drop-append 1 xs (op ∷ []) (omega arith)
          ∙ drop-same 1 (length (xs ++ op ∷ []) - n) (xs ++ op ∷ [])
              (omega (arith, length-append xs (op ∷ []))))
  ]

  push-capacity : (op : A) (b : SyncBuffer A) → (push op b).capacity ≡ b.capacity
  unfolding push make_room
  push-capacity op b = ground arith

  recent_all : (n : ℕ) (xs : List A) → length xs ≤ n → xs ≡ recent n xs
  recent_all n xs h = drop-same 0 (length xs - n) xs (omega arith)

  push_all-recent :
      (ops : List A) (b : SyncBuffer A)
      → IsBuffer b
      → IsBuffer (push_all ops b)
        × (pending (push_all ops b) ≡ recent b.capacity (pending b ++ ops))
  unfolding push_all
  push_all-recent [] b ok =
      let short : length (pending b) ≤ b.capacity = rw (length-pending b ok) ok.bounded in
      (ok, rw (append-nil (pending b)) (recent_all b.capacity (pending b) short))
  push_all-recent (op ∷ ops) b ok =
      let short : length (pending b) ≤ b.capacity = rw (length-pending b ok) ok.bounded in
      let one = push-bounded op b ok in
      let rest = push_all-recent ops (push op b) one.0 in
      (
        rest.0,
        rest.1
            ∙ ap (λ c. recent c (pending (push op b) ++ ops)) (push-capacity op b)
            ∙ ap (λ held. recent b.capacity (held ++ ops))
                (one.1 ∙ bounded_snoc-recent b.capacity (pending b) op short ok.room)
            ∙ recent-recent b.capacity (pending b ++ op ∷ []) ops
            ∙ ap (recent b.capacity) (append_assoc (pending b) (op ∷ []) ops),
      )

  pub new_buffer-IsBuffer : (n : ℕ) → 0 < n → IsBuffer {A = A} (new_buffer n)
  unfolding new_buffer
  new_buffer-IsBuffer n room = record {
    room = room;
    sized = length-replicate n none;
    ordered = omega arith;
    bounded = omega arith;
    present = λ i p q. absurd (omega arith);
  }

  -- What a new buffer hands over after any sequence of operations is the most recent of them, as many
  -- as its capacity at most, in the order in which they were added.
  pub push_all-drain :
      (n : ℕ) (ops : List A) → 0 < n → (drain (push_all ops (new_buffer n))).0 ≡ recent n ops
  unfolding pending collect_ops new_buffer
  push_all-drain n ops room =
      let filled = push_all-recent ops (new_buffer n) (new_buffer-IsBuffer n room) in
      (drain-all (push_all ops (new_buffer n)) filled.0).0 ∙ filled.1
