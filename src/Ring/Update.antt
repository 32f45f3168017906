-- ===== src/Ring/Update.antt =====
-- `Update` of internal/cluster/hashring.go: what it builds, and its versions.
use grid_kv.Base.{
  ℕ, zero, suc, ◌+◌, ◌*◌, ◌≡◌, refl, ap, true, false, List, [], ◌∷◌, ◌++◌, Str, str_eq_refl, slt,
  slt_asymm, slt_irrefl, length, length-append, contains, All, arith,
}
use grid_kv.Ring.Defs.{RingNode, HashRing, virtual_nodes_from, new_nodes, update}
use grid_kv.Ring.Scan.{IsSorted}
use grid_kv.Ring.Build.{sort_nodes-IsSorted, All-sort_nodes, length-sort_nodes}

-- The virtual node belongs to one of the nodes.
abbrev pub OfNodes : List Str → RingNode → Type 0
OfNodes ids n = contains n.node_id ids ≡ true

All-append {ℓ} :
    (P : RingNode → Type ℓ) (xs ys : List RingNode) → All P xs → All P ys → All P (xs ++ ys)
All-append P [] ys a b = b
All-append P (x ∷ xs) ys a b = (a.0, All-append P xs ys a.1 b)

All-weaken :
    (id : Str) (ids : List Str) (xs : List RingNode)
    → All (OfNodes ids) xs
    → All (OfNodes (id ∷ ids)) xs
unfolding contains
All-weaken id ids [] a = tt
All-weaken id ids (x ∷ xs) a = (ground arith, All-weaken id ids xs a.1)

module _ (hash : Str → ℕ) where
  virtual_nodes_from-OfNodes :
      (id : Str) (ids : List Str) (i count : ℕ)
      → All (OfNodes (id ∷ ids)) (virtual_nodes_from hash id i count)
  unfolding virtual_nodes_from contains
  virtual_nodes_from-OfNodes id ids i zero = tt
  virtual_nodes_from-OfNodes id ids i (suc count) =
      (rw (str_eq_refl id), virtual_nodes_from-OfNodes id ids (i + 1) count)

  new_nodes-OfNodes : (ids : List Str) (count : ℕ) → All (OfNodes ids) (new_nodes hash ids count)
  unfolding new_nodes
  new_nodes-OfNodes [] count = tt
  new_nodes-OfNodes (id ∷ ids) count =
      All-append (OfNodes (id ∷ ids)) (virtual_nodes_from hash id 0 count)
        (new_nodes hash ids count) (virtual_nodes_from-OfNodes id ids 0 count)
        (All-weaken id ids _ (new_nodes-OfNodes ids count))

  length-virtual_nodes_from :
      (id : Str) (i count : ℕ) → length (virtual_nodes_from hash id i count) ≡ count
  unfolding virtual_nodes_from
  length-virtual_nodes_from id i zero = refl
  length-virtual_nodes_from id i (suc count) = ap suc (length-virtual_nodes_from id (i + 1) count)

  length-new_nodes :
      (ids : List Str) (count : ℕ) → length (new_nodes hash ids count) ≡ length ids * count
  unfolding new_nodes
  length-new_nodes [] count = omega arith
  length-new_nodes (id ∷ ids) count = omega (
    arith,
    length-append (virtual_nodes_from hash id 0 count) (new_nodes hash ids count),
    length-virtual_nodes_from id 0 count,
    length-new_nodes ids count,
  )

  -- An update with a newer version is accepted: the ring is sorted by hash, has the virtual nodes
  -- of the given nodes and no others, as many as there are nodes times the factor, and carries the
  -- new version.
  pub update_accepted :
      (version : ℕ) (ids : List Str) (r : HashRing)
      → slt r.version version ≡ true
      → let (r', done) = update hash version ids r in
        (done ≡ true)
        × IsSorted r'.nodes
        × All (OfNodes ids) r'.nodes
        × (length r'.nodes ≡ length ids * r.virtual_nodes)
        × (r'.version ≡ version)
        × (r'.virtual_nodes ≡ r.virtual_nodes)
  unfolding update
  update_accepted version ids r newer =
      rw (newer, update)
        (
          refl,
          sort_nodes-IsSorted (new_nodes hash ids r.virtual_nodes) [] tt,
          All-sort_nodes (OfNodes ids) (new_nodes hash ids r.virtual_nodes) []
              (new_nodes-OfNodes ids r.virtual_nodes) tt,
          omega (
            arith,
            length-sort_nodes (new_nodes hash ids r.virtual_nodes) [],
            length-new_nodes ids r.virtual_nodes,
          ),
          refl,
          refl,
        )

  -- `Update` reports whether the version is newer than the ring's, changes nothing if it is not,
  -- and never takes the ring's version back.
  pub update_version :
      (version : ℕ) (ids : List Str) (r : HashRing)
      → let (r', done) = update hash version ids r in
        (done ≡ slt r.version version)
        × (done ≡ false → r' ≡ r)
        × (slt r'.version r.version ≡ false)
  unfolding update
  update_version version ids r = ground (arith, slt_asymm r.version version, slt_irrefl r.version)
