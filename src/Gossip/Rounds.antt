-- ===== src/Gossip/Rounds.antt =====
-- internal/cluster/gossip.go: a round of gossip, `doGossip`, and a push to one target.
use grid_kv.Base.{
  ℕ, zero, suc, ◌+◌, ◌-◌, ◌*◌, ◌/◌, ◌%◌, Bool, true, false, not, ◌&&◌, ◌||◌, Option, none, some,
  List, [], ◌∷◌, Str, str_eq, is_empty, Map, load, store, length, get_elem?, set, take, ltb, ◌==◌,
  if◌then◌else◌,
}
use grid_kv.Gossip.Defs.{pull}
use grid_kv.Member.State.{MemberMgr, members_list}
use grid_kv.Member.Types.{NodeInfo, NodeState, state_eq}
use grid_kv.Node.{Libs, Node}

abbrev pub is_alive_info : NodeInfo → Bool
is_alive_info info = state_eq info.state NodeState.alive

-- `aliveMembers`: the IDs of the alive members other than the node itself.
unfoldable pub others_alive : Str → List NodeInfo → List Str
others_alive self [] = []
others_alive self (info ∷ infos) =
    let rest = others_alive self infos in
    if not (str_eq info.node_id self) && is_alive_info info then info.node_id ∷ rest else rest

-- The loop that halves `n` until it is 0, on fuel: `n` rounds are enough.
unfoldable pub halvings : ℕ → ℕ → ℕ
halvings zero n = 0
halvings (suc fuel) n = let rest = halvings fuel (n / 2) in if n == 0 then 0 else suc rest

-- `fanOut` for `n` alive members
unfoldable pub fan_out : ℕ → ℕ
unfolding halvings
fan_out n = let rounds = halvings n n in if ltb 1 n then (if ltb n rounds then n else rounds) else 1

abbrev pub put_at : ℕ → Option Str → List Str → List Str
put_at i none xs = xs
put_at i (some x) xs = set xs i x

-- `selected[i], selected[j] = selected[j], selected[i]`
unfoldable pub swap : ℕ → ℕ → List Str → List Str
swap i j xs = put_at j (get_elem? xs i) (put_at i (get_elem? xs j) xs)

-- The shuffle, from position `i` down to 1.
unfoldable pub shuffle_from : ℕ → List Str → List Str
unfolding swap
shuffle_from zero xs = xs
shuffle_from (suc i) xs = shuffle_from i (swap (suc i) (suc i * 7 % (suc i + 1)) xs)

unfoldable pub selected : List Str → List Str
unfolding shuffle_from fan_out
selected alive = let n = fan_out (length alive) in shuffle_from (n - 1) (take n alive)

-- `nodeIDToAddr` and `memberMap`, which have the same keys.
unfoldable pub known_from : Map NodeInfo → List NodeInfo → Map NodeInfo
known_from m [] = m
known_from m (info ∷ infos) = known_from (store info.node_id info m) infos

-- The address to pull from, if the member has one and is alive.
unfoldable pub pull_address : Map NodeInfo → Str → Option Str
pull_address known id = elim (load id known) [
  | none ↦ none
  | some info ↦
      if is_empty info.address || not (is_alive_info info) then none else some info.address
]

abbrev pub requested : Str → Option (List ℕ) → List (Str × List ℕ) → List (Str × List ℕ)
requested address none rest = rest
requested address (some message) rest = (address, message) ∷ rest

module _ (libs : Libs) where
  -- The pulls from the selected members, one after the other: what is sent.
  unfoldable pub pull_all : ℕ → Map NodeInfo → List Str → Node → List (Str × List ℕ) × Node
  unfolding pull pull_address
  pull_all now known [] node = ([], node)
  pull_all now known (id ∷ ids) node =
      let (message, node') = pull libs now node in
      let skipped = pull_all now known ids node in
      let (rest, node'') = pull_all now known ids node' in
      elim (pull_address known id) [
        | none ↦ skipped
        | some address ↦ (requested address message rest, node'')
      ]

  -- `doGossip`
  unfoldable pub do_gossip : ℕ → Node → List (Str × List ℕ) × Node
  unfolding others_alive selected known_from pull_all members_list
  do_gossip now node = elim node.member [
    | none ↦ ([], node)
    | some m ↦
        let infos = members_list m in
        let alive = others_alive node.node_id infos in
        if length alive == 0
        then ([], node)
        else pull_all now (known_from [] infos) (selected alive) node
  ]

-- What the network makes of one attempt to send.
pub data SendAnswer : Type 0 where
  accepted refused broken : SendAnswer

-- An attempt to push: the members at that time, and the answer.
pub record PushAttempt : Type 0 where
  pub member : Option MemberMgr
  pub answer : SendAnswer

-- Some member with the address is alive.
unfoldable pub is_alive_at : Str → List NodeInfo → Bool
is_alive_at address [] = false
is_alive_at address (info ∷ infos) =
    (str_eq info.address address && is_alive_info info) || is_alive_at address infos

unfoldable pub reachable : Str → Option MemberMgr → Bool
unfolding is_alive_at members_list
reachable address none = true
reachable address (some m) = is_alive_at address (members_list m)

-- `Push`: the targets to which a task goes.
unfoldable pub push_targets : Option MemberMgr → List Str → List Str
unfolding reachable
push_targets member [] = []
push_targets member (t ∷ ts) =
    let rest = push_targets member ts in if reachable t member then t ∷ rest else rest

-- `pushToTarget` with `left` attempts, the next one with number `i`: whether the target took the
-- message, and how often it was sent. A connection that is refused at first ends it.
unfoldable pub push_from : (ℕ → PushAttempt) → ℕ → ℕ → Str → Bool × ℕ
unfolding reachable
push_from world i zero target = (false, 0)
push_from world i (suc left) target =
    let (taken, sends) = push_from world (i + 1) left target in
    if not (reachable target (world i).member) then (false, 0) else elim (world i).answer [
      | SendAnswer.accepted ↦ (true, 1)
      | SendAnswer.refused ↦ if i == 0 then (false, 1) else (taken, sends + 1)
      | SendAnswer.broken ↦ (taken, sends + 1)
    ]

unfoldable pub push_to_target : (ℕ → PushAttempt) → Str → Bool × ℕ
unfolding push_from
push_to_target world target = push_from world 0 15 target
