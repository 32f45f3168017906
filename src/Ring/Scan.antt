-- ===== src/Ring/Scan.antt =====
-- `Get` of internal/cluster/hashring.go beside a linear scan of the ring.
use grid_kv.Base.{
  ℕ, zero, suc, ◌≤◌, ◌<◌, ◌≡◌, refl, sym, ◌∙◌, ap, true, false, Option, none, some, List, [], ◌∷◌,
  Str, leb, length, get_elem?, if◌then◌else◌, Bool-cases, Option-cases, ◌≢◌, inl, inr, All, arith,
}
use grid_kv.Ring.Defs.{RingNode, HashRing, sort_search, reaches, find_node, id_at, get}
use grid_kv.Ring.Search.{IsMonotone, IsFirst, sort_search-IsFirst}

-- The virtual nodes in the order of their hashes.
abbrev pub IsSorted : List RingNode → Type 0
IsSorted [] = Unit
IsSorted (n ∷ ns) = All (λ m. n.hash ≤ m.hash) ns × IsSorted ns

-- The first virtual node whose hash is at least `h`.
abbrev pub scan : ℕ → List RingNode → Option RingNode
scan h [] = none
scan h (n ∷ ns) = if leb h n.hash then some n else scan h ns

-- The owner of the hash `h`: past the last virtual node the ring starts over.
abbrev pub first_id : List RingNode → Str
first_id [] = []
first_id (n ∷ ns) = n.node_id

abbrev pub owner_of : List RingNode → Option RingNode → Str
owner_of ns none = first_id ns
owner_of ns (some n) = n.node_id

abbrev pub owner : ℕ → List RingNode → Str
owner h ns = owner_of ns (scan h ns)

reaches_every :
    (h : ℕ) (n : RingNode) (ns : List RingNode) (j : ℕ)
    → All (λ m. n.hash ≤ m.hash) ns
    → leb h n.hash ≡ true
    → j < length ns
    → reaches ns h j ≡ true
unfolding reaches
reaches_every h n [] j a le lt = absurd (omega arith)
reaches_every h n (m ∷ ns) zero a le lt = ground arith
reaches_every h n (m ∷ ns) (suc j) a le lt = reaches_every h n ns j a.1 le (omega arith)

reaches-IsMonotone :
    (h : ℕ) (ns : List RingNode) → IsSorted ns → IsMonotone (length ns) (reaches ns h)
unfolding reaches
reaches-IsMonotone h [] s i j le lt at_i = absurd (omega arith)
reaches-IsMonotone h (n ∷ ns) s zero zero le lt at_i = at_i
reaches-IsMonotone h (n ∷ ns) s zero (suc j) le lt at_i =
    reaches_every h n ns j s.0 at_i (omega arith)
reaches-IsMonotone h (n ∷ ns) s (suc i) zero le lt at_i = absurd (omega arith)
reaches-IsMonotone h (n ∷ ns) s (suc i) (suc j) le lt at_i =
    reaches-IsMonotone h ns s.1 i j (omega arith) (omega arith) at_i

-- The first index that reaches `h` is where the scan stops.
scan_of_first :
    (h : ℕ) (ns : List RingNode) (r : ℕ)
    → IsFirst (reaches ns h) 0 (length ns) r
    → scan h ns ≡ get_elem? ns r
unfolding reaches
scan_of_first h [] r first = refl
scan_of_first h (n ∷ ns) zero first = ground (arith, first.holds (omega arith))
scan_of_first h (n ∷ ns) (suc r) first = rw (first.before 0 (omega arith) (omega arith)) (
    scan_of_first h ns r (record {
      from = omega arith;
      upto = omega (arith, first.upto);
      before = λ k a b. first.before (suc k) (omega arith) (omega arith);
      holds = λ p. first.holds (omega arith);
    }))

get_elem?-end : (ns : List RingNode) (i : ℕ) → leb (length ns) i ≡ true → get_elem? ns i ≡ none
get_elem?-end [] i le = refl
get_elem?-end (n ∷ ns) zero le = ground arith
get_elem?-end (n ∷ ns) (suc i) le = get_elem?-end ns i (ground arith)

get_elem?-inside : (ns : List RingNode) (i : ℕ) → leb (length ns) i ≡ false → get_elem? ns i ≢ none
get_elem?-inside [] i lt e = ground arith
get_elem?-inside (n ∷ ns) zero lt e = cc
get_elem?-inside (n ∷ ns) (suc i) lt e = get_elem?-inside ns i (ground arith) e

id_of_first :
    (h : ℕ) (n : RingNode) (ns : List RingNode) (r : ℕ)
    → scan h (n ∷ ns) ≡ get_elem? (n ∷ ns) r
    → id_at (n ∷ ns) (if leb (length (n ∷ ns)) r then 0 else r) ≡ owner h (n ∷ ns)
unfolding id_at
id_of_first h n ns r e = elim (Bool-cases (leb (length (n ∷ ns)) r)) [
  | inl past ↦ rw past (sym (ap (owner_of (n ∷ ns)) (e ∙ get_elem?-end (n ∷ ns) r past)))
  | inr inside ↦ rw inside (elim (Option-cases (get_elem? (n ∷ ns) r)) [
    | inl missing ↦ absurd (get_elem?-inside (n ∷ ns) r inside missing)
    | inr (m, found) ↦ rw (found, id_at) (sym (ap (owner_of (n ∷ ns)) (e ∙ found)))
  ])
]

get_sorted :
    (h : ℕ) (ns : List RingNode)
    → IsSorted ns
    → (elim (find_node ns h) [ none ↦ [] | some i ↦ id_at ns i ]) ≡ owner h ns
unfolding find_node
get_sorted h [] s = refl
get_sorted h (n ∷ ns) s = id_of_first h n ns (sort_search (length (n ∷ ns)) (reaches (n ∷ ns) h)) (
    scan_of_first h (n ∷ ns) _ (
      sort_search-IsFirst (length (n ∷ ns)) (reaches (n ∷ ns) h) (reaches-IsMonotone h (n ∷ ns) s)))

module _ (hash : Str → ℕ) where
  -- On a ring that is sorted by hash, `Get` by binary search finds the node that a linear scan
  -- finds: the owner of the first virtual node at or after the key's hash, of the first one of all
  -- if there is none, and "" on the empty ring.
  pub get-owner :
      (key : Str) (r : HashRing) → IsSorted r.nodes → get hash key r ≡ owner (hash key) r.nodes
  unfolding get
  get-owner key r s = get_sorted (hash key) r.nodes s
