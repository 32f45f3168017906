-- ===== src/Replay/Handoff.antt =====
-- internal/cluster/entropy.go: hinted handoff. What the world does during an attempt is an argument:
-- the members, whether the push succeeds, and the operations that are queued meanwhile. The waits
-- between the attempts are left out.
use grid_kv.Base.{
  ℕ, zero, suc, ◌+◌, ◌<◌, ◌≡◌, Bool, true, false, ◌&&◌, Option, none, some, List, [], ◌∷◌, ◌++◌,
  Str, str_eq, is_empty, Map, store, delete, length, drop, ◌==◌, if◌then◌else◌, ◌⊎◌,
}
use grid_kv.Member.State.{MemberMgr, members_list}
use grid_kv.Member.Types.{NodeInfo, NodeState, state_eq}
use grid_kv.Node.{is_alive}
use grid_kv.Storage.Shard.{SyncOperation}
use grid_kv.Writer.Flush.{ops_at}

abbrev pub Hints : Type 0
Hints = Map (List SyncOperation)

pub record Attempt : Type 0 where
  pub member : Option MemberMgr
  pub pushed : Bool
  pub added : List SyncOperation

-- `r.hintedHandoff[nodeID] = append(r.hintedHandoff[nodeID], ops...)`
unfoldable pub add_hints : Str → List SyncOperation → Hints → Hints
unfolding ops_at
add_hints id [] h = h
add_hints id (op ∷ ops) h = store id (ops_at id h ++ op ∷ ops) h

-- The address of the node among the members, "" where it has none.
unfoldable pub alive_address : Str → List NodeInfo → Str
alive_address id [] = []
alive_address id (info ∷ infos) =
    if str_eq info.node_id id && state_eq info.state NodeState.alive
    then info.address
    else alive_address id infos

unfoldable pub handoff_address : Str → Option MemberMgr → Str
unfolding alive_address
handoff_address id none = []
handoff_address id (some m) = if is_alive id m then alive_address id (members_list m) else []

-- What is left of the queue after a push of its first `n` operations.
unfoldable pub drop_sent : Str → ℕ → Hints → Hints
unfolding ops_at
drop_sent id n h =
    if length (ops_at id h) == n
    then delete id h
    else elim (drop n (ops_at id h)) [ [] ↦ delete id h | op ∷ ops ↦ store id (op ∷ ops) h ]

-- `retryHintedHandoff` with `left` attempts: what was sent, and the queues. `world` gives the
-- attempts by their number.
unfoldable pub retry_from :
    (ℕ → Attempt) → ℕ → ℕ → Str → Hints → Option (Str × List SyncOperation) × Hints
unfolding handoff_address drop_sent add_hints ops_at
retry_from world i zero id h = (none, delete id h)
retry_from world i (suc left) id h =
    let a = world i in
    let ops = ops_at id h in
    let address = handoff_address id a.member in
    let h' = add_hints id a.added h in
    let again = retry_from world (i + 1) left id h' in
    if length ops == 0
    then (none, h)
    else if is_empty address
    then again
    else if a.pushed
    then (some (address, ops), drop_sent id (length ops) h')
    else again

unfoldable pub retry_hinted_handoff :
    (ℕ → Attempt) → Str → Hints → Option (Str × List SyncOperation) × Hints
unfolding retry_from
retry_hinted_handoff world id h = retry_from world 0 10 id h

-- `HintedHandoff`, and the task that it hands to the executor.
unfoldable pub hinted_handoff :
    (ℕ → Attempt) → Str → List SyncOperation → Hints → Option (Str × List SyncOperation) × Hints
unfolding add_hints retry_hinted_handoff
hinted_handoff world id ops h =
    if length ops == 0 then (none, h) else retry_hinted_handoff world id (add_hints id ops h)

-- What is queued for the node before the attempt number `n`, counted from the attempt `i`.
unfoldable pub queued_by : (ℕ → Attempt) → ℕ → ℕ → List SyncOperation
queued_by world i zero = []
queued_by world i (suc n) = (world i).added ++ queued_by world (i + 1) n

-- The node has no address that is alive, or the push fails.
abbrev pub Fails : Str → Attempt → Type 0
Fails id a = (is_empty (handoff_address id a.member) ≡ true) ⊎ (a.pushed ≡ false)

abbrev pub Result : Type 0
Result = Option (Str × List SyncOperation) × Hints

-- What the retries of a queue that is not empty come to. The attempt `n` is the first that does not
-- fail: it sends all that is queued up to then, and what is queued meanwhile stays. Or every attempt
-- fails: nothing is sent, and nothing stays queued.
pub data Outcome (world : ℕ → Attempt) (i left : ℕ) (id : Str) (h : Hints) (r : Result)
    : Type 0 where
  handed_over :
      (n : ℕ)
      → n < left
      → ¬ Fails id (world (i + n))
      → ((k : ℕ) → k < n → Fails id (world (i + k)))
      → r.0 ≡ some (handoff_address id (world (i + n)).member, ops_at id h ++ queued_by world i n)
      → ops_at id r.1 ≡ (world (i + n)).added
      → Outcome world i left id h r
  gave_up :
      ((k : ℕ) → k < left → Fails id (world (i + k)))
      → r.0 ≡ none
      → ops_at id r.1 ≡ []
      → Outcome world i left id h r
