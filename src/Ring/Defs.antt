-- ===== src/Ring/Defs.antt =====
-- The ring of internal/cluster/hashring.go. `hash` stands for the upper half of
-- `xxh3.HashString128`, a library that the program does not contain. A version and a count that is
-- an `int` are 64-bit patterns.
use grid_kv.Base.{
  ℕ, zero, suc, ◌+◌, ◌/◌, ◌%◌, Bool, true, false, Option, none, some, List, [], ◌∷◌, ◌++◌, Str, Map,
  load, store, slt, encode_rune, ltb, leb, length, get_elem?, if◌then◌else◌,
}

pub record RingNode : Type 0 where
  pub hash : ℕ
  pub node_id : Str

-- The mutex and the atomic pointer make an update one step for the readers.
pub record HashRing : Type 0 where
  pub version : ℕ
  pub virtual_nodes : ℕ
  pub nodes : List RingNode

unfoldable pub new_hash_ring : ℕ → HashRing
new_hash_ring virtual_nodes = record {
  version = 0;
  virtual_nodes = (if slt 0 virtual_nodes then virtual_nodes else 128);
  nodes = [];
}

-- `sort.Search`: the smallest index from which `f` holds, by halving [i, j). The fuel bounds the
-- rounds.
unfoldable pub search_from : ℕ → (ℕ → Bool) → ℕ → ℕ → ℕ
search_from zero f i j = i
search_from (suc fuel) f i j =
    let h = (i + j) / 2 in
    let left = search_from fuel f i h in
    let right = search_from fuel f (h + 1) j in if ltb i j then (if f h then left else right) else i

-- Every round makes [i, j) shorter.
unfoldable pub sort_search : ℕ → (ℕ → Bool) → ℕ
unfolding search_from
sort_search n f = search_from (n + 1) f 0 n

-- `nodes[i].hash >= hash`
unfoldable pub reaches : List RingNode → ℕ → ℕ → Bool
reaches nodes h i = elim (get_elem? nodes i) [ none ↦ false | some n ↦ leb h n.hash ]

-- `none` is the index -1.
unfoldable pub find_node : List RingNode → ℕ → Option ℕ
unfolding sort_search reaches
find_node [] h = none
find_node (n ∷ nodes) h =
    let idx = sort_search (length (n ∷ nodes)) (reaches (n ∷ nodes) h) in
    some (if leb (length (n ∷ nodes)) idx then 0 else idx)

-- The node ID at an index, "" out of range.
unfoldable pub id_at : List RingNode → ℕ → Str
id_at nodes i = elim (get_elem? nodes i) [ none ↦ [] | some n ↦ n.node_id ]

-- `sort.Slice` by hash. Nodes with one hash come in the order of insertion; the library leaves
-- their order open.
unfoldable pub insert_node : RingNode → List RingNode → List RingNode
insert_node n [] = n ∷ []
insert_node n (x ∷ xs) =
    let rest = insert_node n xs in if ltb n.hash x.hash then n ∷ x ∷ xs else x ∷ rest

unfoldable pub sort_nodes : List RingNode → List RingNode → List RingNode
sort_nodes [] sorted = sorted
sort_nodes (n ∷ ns) sorted = sort_nodes ns (insert_node n sorted)

module _ (hash : Str → ℕ) where
  -- The inner loop of `Update`: `count` virtual nodes from the number `i` on.
  unfoldable pub virtual_nodes_from : Str → ℕ → ℕ → List RingNode
  virtual_nodes_from id i zero = []
  virtual_nodes_from id i (suc count) =
      record { hash = hash (id ++ b':' ∷ encode_rune i); node_id = id }
      ∷ virtual_nodes_from id (i + 1) count

  -- The outer loop.
  unfoldable pub new_nodes : List Str → ℕ → List RingNode
  new_nodes [] count = []
  new_nodes (id ∷ ids) count = virtual_nodes_from id 0 count ++ new_nodes ids count

  unfoldable pub update : ℕ → List Str → HashRing → HashRing × Bool
  unfolding sort_nodes insert_node
  update version ids r =
      if slt r.version version
      then (
        record r { version = version; nodes = sort_nodes (new_nodes ids r.virtual_nodes) [] },
        true,
      )
      else (r, false)

  unfoldable pub get : Str → HashRing → Str
  unfolding find_node id_at
  get key r = elim (find_node r.nodes (hash key)) [ none ↦ [] | some i ↦ id_at r.nodes i ]

-- `seen[id]`
unfoldable pub has_seen : Str → Map Bool → Bool
has_seen id seen = elim (load id seen) [ none ↦ false | some b ↦ b ]

-- The loop of `GetN`: `left` positions from the `i`-th after `idx` on.
unfoldable pub collect : ℕ → List RingNode → ℕ → ℕ → ℕ → Map Bool → List Str → List Str
unfolding id_at has_seen
collect zero nodes idx i n seen result = result
collect (suc left) nodes idx i n seen result =
    let id = id_at nodes ((idx + i) % length nodes) in
    let old = has_seen id seen in
    let rest =
      collect left nodes idx (i + 1) n (if old then seen else store id true seen)
        (if old then result else result ++ id ∷ []) in
    if ltb (length result) n then rest else result

module _ (hash : Str → ℕ) where
  -- `nil` and the empty slice are one list.
  unfoldable pub get_n : Str → ℕ → HashRing → List Str
  unfolding find_node collect
  get_n key n r =
      if slt 0 n
      then elim (find_node r.nodes (hash key)) [
        | none ↦ []
        | some idx ↦ collect (length r.nodes) r.nodes idx 0 n [] []
      ]
      else []
