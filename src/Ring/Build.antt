-- ===== src/Ring/Build.antt =====
-- The virtual nodes that `Update` of internal/cluster/hashring.go builds and sorts.
use grid_kv.Base.{
  ℕ, suc, ◌+◌, ◌≤◌, ◌≡◌, refl, List, [], ◌∷◌, ltb, length, Bool-cases, inl, inr, All, arith,
}
use grid_kv.Ring.Defs.{RingNode, insert_node, sort_nodes}
use grid_kv.Ring.Scan.{IsSorted}

All-insert_node {ℓ} :
    (P : RingNode → Type ℓ) (n : RingNode) (xs : List RingNode)
    → P n
    → All P xs
    → All P (insert_node n xs)
unfolding insert_node
All-insert_node P n [] p a = (p, a)
All-insert_node P n (x ∷ xs) p a = ground (arith, All-insert_node P n xs p a.1)

All-le_trans :
    (b : ℕ) (x : RingNode) (xs : List RingNode)
    → b ≤ x.hash
    → All (λ m. x.hash ≤ m.hash) xs
    → All (λ m. b ≤ m.hash) xs
All-le_trans b x [] le a = tt
All-le_trans b x (y ∷ xs) le a = (omega (arith, a.0), All-le_trans b x xs le a.1)

insert_node-IsSorted :
    (n : RingNode) (xs : List RingNode) → IsSorted xs → IsSorted (insert_node n xs)
unfolding insert_node
insert_node-IsSorted n [] s = (tt, tt)
insert_node-IsSorted n (x ∷ xs) s = elim (Bool-cases (ltb n.hash x.hash)) [
  | inl lt ↦ rw lt ((ground arith, All-le_trans n.hash x xs (ground arith) s.0), (s.0, s.1))
  | inr ge ↦ rw ge (
    All-insert_node (λ m. x.hash ≤ m.hash) n xs (ground arith) s.0,
    insert_node-IsSorted n xs s.1,
  )
]

pub sort_nodes-IsSorted :
    (ns sorted : List RingNode) → IsSorted sorted → IsSorted (sort_nodes ns sorted)
unfolding sort_nodes
sort_nodes-IsSorted [] sorted s = s
sort_nodes-IsSorted (n ∷ ns) sorted s =
    sort_nodes-IsSorted ns (insert_node n sorted) (insert_node-IsSorted n sorted s)

pub All-sort_nodes {ℓ} :
    (P : RingNode → Type ℓ) (ns sorted : List RingNode)
    → All P ns
    → All P sorted
    → All P (sort_nodes ns sorted)
unfolding sort_nodes
All-sort_nodes P [] sorted a s = s
All-sort_nodes P (n ∷ ns) sorted a s =
    All-sort_nodes P ns (insert_node n sorted) a.1 (All-insert_node P n sorted a.0 s)

pub length-insert_node :
    (n : RingNode) (xs : List RingNode) → length (insert_node n xs) ≡ suc (length xs)
unfolding insert_node
length-insert_node n [] = refl
length-insert_node n (x ∷ xs) = ground (arith, length-insert_node n xs)

pub length-sort_nodes :
    (ns sorted : List RingNode) → length (sort_nodes ns sorted) ≡ length ns + length sorted
unfolding sort_nodes
length-sort_nodes [] sorted = omega arith
length-sort_nodes (n ∷ ns) sorted =
    omega (arith, length-sort_nodes ns (insert_node n sorted), length-insert_node n sorted)
