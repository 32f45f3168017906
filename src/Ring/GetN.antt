-- ===== src/Ring/GetN.antt =====
-- `GetN` of internal/cluster/hashring.go beside what a list of replicas is to be.
use grid_kv.Base.{
  ℕ, zero, suc, ◌+◌, ◌-◌, ◌%◌, ◌≤◌, ◌<◌, ◌≡◌, refl, ◌∙◌, ap, Bool, true, false, ◌||◌, some, List,
  [], ◌∷◌, ◌++◌, Str, str_eq, str_eq_iff, str_eq_refl, Map, load, slt, leb, lt→ltb, dec_lt,
  false≢true, length, contains, contains-append, NoRepeat, if◌then◌else◌, ◌⊎◌, inl, inr, arith,
}
use native.Mathlib.Nat.{add-zero, mod-lt, mod-eq_of_lt, mod-eq-sub-mod}
use grid_kv.Ring.Defs.{
  RingNode, HashRing, sort_search, reaches, find_node, id_at, has_seen, collect, get_n, get,
}
use grid_kv.Ring.Replicas.{Collected, collect_induction, collect-Collected, collect_visits}

-- Some virtual node belongs to the node.
abbrev pub on_ring : Str → List RingNode → Bool
on_ring id [] = false
on_ring id (n ∷ ns) = str_eq n.node_id id || on_ring id ns

on_ring-id_at : (ns : List RingNode) (i : ℕ) → i < length ns → on_ring (id_at ns i) ns ≡ true
unfolding id_at
on_ring-id_at [] i lt = absurd (omega arith)
on_ring-id_at (n ∷ ns) zero lt = rw (str_eq_refl n.node_id)
on_ring-id_at (n ∷ ns) (suc i) lt = ground (arith, on_ring-id_at ns i (omega arith))

mod_wrap : (i j len : ℕ) → i < len → j < len → (k : ℕ) × (k < len) × ((i + k) % len ≡ j)
mod_wrap i j len p q = elim (dec_lt j i) [
  | yes below ↦ (j + len - i, omega arith, grind (arith, mod-eq-sub-mod, mod-eq_of_lt))
  | no above ↦ (j - i, omega arith, grind (arith, mod-eq_of_lt))
]

find_node-inside :
    (h : ℕ) (n : RingNode) (ns : List RingNode)
    → (i : ℕ) × (find_node (n ∷ ns) h ≡ some i) × (i < length (n ∷ ns))
unfolding find_node
find_node-inside h n ns =
    let found = sort_search (length (n ∷ ns)) (reaches (n ∷ ns) h) in
    ((if leb (length (n ∷ ns)) found then 0 else found), refl, ground arith)

empty_seen : (n : ℕ) → Collected n [] []
unfolding has_seen contains load
empty_seen n = record { tracks = record { at = λ id. refl }; no_repeat = tt; bounded = omega arith }

module _ (nodes : List RingNode) (idx n : ℕ) (inside : idx < length nodes) where
  -- Every position of the ring is some steps away from `idx`.
  collect_complete :
      let final = collect (length nodes) nodes idx 0 n [] [] in
      length final < n → (i : ℕ) → i < length nodes → contains (id_at nodes i) final ≡ true
  collect_complete room i lt =
      let (k, below, at) = mod_wrap idx i (length nodes) inside lt in
      rw at at (
        collect_visits nodes idx n (length nodes) 0 [] [] (empty_seen n) k room (omega arith)
          (omega arith))

  collect_sound :
      (id : Str)
      → contains id (collect (length nodes) nodes idx 0 n [] []) ≡ true
      → on_ring id nodes ≡ true
  unfolding contains
  collect_sound id =
      collect_induction nodes idx n
        (λ i seen result. contains id result ≡ true → on_ring id nodes ≡ true)
        (λ final. contains id final ≡ true → on_ring id nodes ≡ true)
        (λ i seen result lt p h.
          let pos : ℕ = (idx + i) % length nodes in
          let below : pos < length nodes = mod-lt (idx + i) (omega arith) in
          ground (
            arith,
            contains-append id result (id_at nodes pos ∷ []),
            str_eq_iff (id_at nodes pos) id,
            on_ring-id_at nodes pos below,
            p,
          ))
        (λ i seen result p. p) (length nodes) 0 [] [] (λ h. absurd (false≢true h))

  -- What stands first stays first.
  collect_first :
      (left i : ℕ) (seen : Map Bool) (x : Str) (xs : List Str)
      → (ys : List Str) × (collect left nodes idx i n seen (x ∷ xs) ≡ x ∷ ys)
  collect_first left i seen x xs =
      collect_induction nodes idx n (λ i seen result. (ys : List Str) × (result ≡ x ∷ ys))
        (λ final. (ys : List Str) × (final ≡ x ∷ ys))
        (λ j seen result lt p.
          extend x (id_at nodes ((idx + j) % length nodes)) result p
            (has_seen (id_at nodes ((idx + j) % length nodes)) seen))
        (λ j seen result p. p) left i seen (x ∷ xs) (xs, refl)
    where
      extend :
          (x id : Str) (result : List Str)
          → (ys : List Str) × (result ≡ x ∷ ys)
          → (old : Bool) → (ys : List Str) × ((if old then result else result ++ id ∷ []) ≡ x ∷ ys)
      extend x id result p true = p
      extend x id result (ys, e) false = (ys ++ id ∷ [], rw e)

  collect_head_from :
      (left : ℕ)
      → 0 < n
      → (ys : List Str) × (collect (suc left) nodes idx 0 n [] [] ≡ id_at nodes idx ∷ ys)
  unfolding collect has_seen load
  collect_head_from left pos =
      rw (lt→ltb 0 n pos, add-zero, mod-eq_of_lt inside)
        (collect_first left 1 _ (id_at nodes idx) [])

  collect_head :
      0 < n → (ys : List Str) × (collect (length nodes) nodes idx 0 n [] [] ≡ id_at nodes idx ∷ ys)
  collect_head pos = rw full (collect_head_from (length nodes - 1) pos)
    where
      full : length nodes ≡ suc (length nodes - 1)
      full = omega arith

-- What `GetN` promises of its answer `ids`, asked for `n` nodes.
pub record Replicas (hash : Str → ℕ) (key : Str) (n : ℕ) (r : HashRing) (ids : List Str)
    : Type 0 where
  pub distinct : NoRepeat ids
  pub at_most : length ids ≤ n
  pub sound : (id : Str) → contains id ids ≡ true → on_ring id r.nodes ≡ true
  pub complete :
      length ids < n → (i : ℕ) → i < length r.nodes → contains (id_at r.nodes i) ids ≡ true
  pub owner_first : (r.nodes ≡ []) ⊎ ((rest : List Str) × (ids ≡ get hash key r ∷ rest))

positive_count : (n : ℕ) → slt 0 n ≡ true → 0 < n
unfolding slt
positive_count n h = ground arith

module _ (hash : Str → ℕ) where
  get_n-found :
      (key : Str) (n idx : ℕ) (r : HashRing)
      → slt 0 n ≡ true
      → find_node r.nodes (hash key) ≡ some idx
      → get_n hash key n r ≡ collect (length r.nodes) r.nodes idx 0 n [] []
  unfolding get_n
  get_n-found key n idx r pos f = rw (pos, get_n, f, get_n)

  get-found :
      (key : Str) (idx : ℕ) (r : HashRing)
      → find_node r.nodes (hash key) ≡ some idx
      → get hash key r ≡ id_at r.nodes idx
  unfolding get
  get-found key idx r f = rw (f, get)

  answers_at :
      (key : Str) (n idx : ℕ) (r : HashRing)
      → slt 0 n ≡ true
      → find_node r.nodes (hash key) ≡ some idx
      → idx < length r.nodes
      → Replicas hash key n r (collect (length r.nodes) r.nodes idx 0 n [] [])
  answers_at key n idx r pos f inside =
      let c = collect-Collected r.nodes idx n (length r.nodes) 0 [] [] (empty_seen n) in
      record {
        distinct = c.0;
        at_most = c.1;
        sound = collect_sound r.nodes idx n inside;
        complete = collect_complete r.nodes idx n inside;
        owner_first =
            inr (
              rw (get-found key idx r f)
                (collect_head r.nodes idx n inside (positive_count n pos)));
      }

  get_n-empty : (key : Str) (n : ℕ) (r : HashRing) → r.nodes ≡ [] → get_n hash key n r ≡ []
  unfolding get_n find_node
  get_n-empty key n r e = ground (arith, ap (λ ns. find_node ns (hash key)) e)

  answers_none : (key : Str) (n : ℕ) (r : HashRing) → r.nodes ≡ [] → Replicas hash key n r []
  unfolding contains
  answers_none key n r e = record {
    distinct = tt;
    at_most = omega arith;
    sound = λ id h. absurd (false≢true h);
    complete = λ room i lt. absurd (omega (arith, ap length e));
    owner_first = inl e;
  }

  answers_from :
      (key : Str) (n : ℕ) (r : HashRing) (ns : List RingNode)
      → slt 0 n ≡ true
      → r.nodes ≡ ns
      → Replicas hash key n r (get_n hash key n r)
  answers_from key n r [] pos e = rw (get_n-empty key n r e) (answers_none key n r e)
  answers_from key n r (x ∷ ns) pos e =
      let (idx, f, inside) = find_node-inside (hash key) x ns in
      let found : find_node r.nodes (hash key) ≡ some idx =
        ap (λ ns. find_node ns (hash key)) e ∙ f in
      rw (get_n-found key n idx r pos found)
        (answers_at key n idx r pos found (omega (arith, ap length e)))

  -- Asked for a positive number of nodes, `GetN` answers with distinct nodes of the ring, no more
  -- than asked for, the owner of the key first; and if there are fewer than asked for, then every
  -- node of the ring is among them.
  pub get_n-Replicas :
      (key : Str) (n : ℕ) (r : HashRing)
      → slt 0 n ≡ true
      → Replicas hash key n r (get_n hash key n r)
  get_n-Replicas key n r pos = answers_from key n r r.nodes pos refl
