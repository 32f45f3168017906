-- ===== src/Ring/Replicas.antt =====
-- `GetN`: the replicas of a key.
use grid_kv.Base.{
  ℕ, zero, suc, ◌+◌, ◌%◌, ◌≤◌, ◌<◌, ◌≡◌, sym, ◌∙◌, Bool, true, List, [], ◌∷◌, ◌++◌, Str, str_eq,
  str_eq_iff, Map, store, load-store, ltb, length, length-append, contains, contains-append,
  NoRepeat, NoRepeat-snoc, if◌then◌else◌, ltb→lt, lt→ltb, dec_lt, false≢true, Bool-cases, inl, inr,
  arith,
}
use grid_kv.Ring.Defs.{RingNode, id_at, has_seen, collect}

-- The map of seen nodes and the list of results hold the same IDs.
pub record Tracks (seen : Map Bool) (result : List Str) : Type 0 where
  pub at : (id : Str) → has_seen id seen ≡ contains id result

has_seen-store :
    (id j : Str) (seen : Map Bool)
    → has_seen j (store id true seen) ≡ (if str_eq id j then true else has_seen j seen)
unfolding has_seen
has_seen-store id j seen = ground (arith, load-store id j true seen)

Tracks-snoc :
    (id : Str) (seen : Map Bool) (result : List Str)
    → Tracks seen result
    → Tracks (store id true seen) (result ++ id ∷ [])
unfolding contains
Tracks-snoc id seen result t = record {
  at = λ j.
      rw (has_seen-store id j seen, contains-append j result (id ∷ [])) (ground (arith, t.at j));
}

-- What the loop keeps.
pub record Collected (n : ℕ) (seen : Map Bool) (result : List Str) : Type 0 where
  pub tracks : Tracks seen result
  pub no_repeat : NoRepeat result
  pub bounded : length result ≤ n

-- One round, from a state that can take another ID.
collect_step :
    (id : Str) (n : ℕ) (seen : Map Bool) (result : List Str)
    → Collected n seen result
    → length result < n
    → let old = has_seen id seen in
      Collected n
        (if old then seen else store id true seen)
        (if old then result else result ++ id ∷ [])
collect_step id n seen result c lt = elim (Bool-cases (has_seen id seen)) [
  | inl old ↦ rw old c
  | inr new ↦ rw new (record {
    tracks = Tracks-snoc id seen result c.tracks;
    no_repeat = NoRepeat-snoc id result c.no_repeat (sym (c.tracks.at id) ∙ new);
    bounded = omega (arith, length-append result (id ∷ []));
  })
]

abbrev pub next_seen : Str → Map Bool → Map Bool
next_seen id seen = if has_seen id seen then seen else store id true seen

abbrev pub next_result : Str → Map Bool → List Str → List Str
next_result id seen result = if has_seen id seen then result else result ++ id ∷ []

module _ (nodes : List RingNode) (idx n : ℕ) where
  abbrev pub position : ℕ → Str
  position i = id_at nodes ((idx + i) % length nodes)

  -- An invariant of the states of the loop holds of its result.
  pub collect_induction {ℓ} :
      (P : ℕ → Map Bool → List Str → Type ℓ) (Q : List Str → Type ℓ)
      → ((i : ℕ) (seen : Map Bool) (result : List Str)
          → length result < n
          → P i seen result
          → P (i + 1) (next_seen (position i) seen) (next_result (position i) seen result))
      → ((i : ℕ) (seen : Map Bool) (result : List Str) → P i seen result → Q result)
      → (left i : ℕ) (seen : Map Bool) (result : List Str) → P i seen result
      → Q (collect left nodes idx i n seen result)
  unfolding collect
  collect_induction P Q keep end zero i seen result p = end i seen result p
  collect_induction P Q keep end (suc left) i seen result p =
      elim (Bool-cases (ltb (length result) n)) [
        | inl more ↦ rw more (
            collect_induction P Q keep end left (i + 1) _ _
              (keep i seen result (ltb→lt _ _ more) p))
        | inr done ↦ rw done (end i seen result p)
      ]

  pub collect-Collected :
      (left i : ℕ) (seen : Map Bool) (result : List Str)
      → Collected n seen result
      → let final = collect left nodes idx i n seen result in NoRepeat final × (length final ≤ n)
  collect-Collected =
      collect_induction (λ i seen result. Collected n seen result)
        (λ final. NoRepeat final × (length final ≤ n))
        (λ i seen result lt c. collect_step (position i) n seen result c lt)
        (λ i seen result c. (c.no_repeat, c.bounded))

  contains-next_result :
      (id j : Str) (seen : Map Bool) (result : List Str)
      → contains j result ≡ true
      → contains j (next_result id seen result) ≡ true
  contains-next_result id j seen result h = ground (arith, contains-append j result (id ∷ []))

  pub collect-contains :
      (j : Str) (left i : ℕ) (seen : Map Bool) (result : List Str)
      → contains j result ≡ true
      → contains j (collect left nodes idx i n seen result) ≡ true
  collect-contains j =
      collect_induction (λ i seen result. contains j result ≡ true)
        (λ final. contains j final ≡ true)
        (λ i seen result lt h. contains-next_result (position i) j seen result h)
        (λ i seen result h. h)

  contains-next_result_self :
      (id : Str) (seen : Map Bool) (result : List Str)
      → Tracks seen result
      → contains id (next_result id seen result) ≡ true
  contains-next_result_self id seen result t = elim (Bool-cases (has_seen id seen)) [
    | inl old ↦ rw old (sym (t.at id) ∙ old)
    | inr new ↦
        rw (new, contains-append id result (id ∷ []))
          (unfold contains in ground (arith, str_eq_iff id id))
  ]

  -- The round at position `i`, then those after it.
  visits_next :
      (left i k : ℕ) (seen : Map Bool) (result : List Str)
      → Collected n seen result
      → let final =
          collect left nodes idx
            (i + 1)
            n
            (next_seen (position i) seen)
            (next_result (position i) seen result) in
        (i + 1 ≤ k → contains (position k) final ≡ true)
        → i ≤ k
        → contains (position k) final ≡ true
  visits_next left i k seen result c later from = elim (dec_lt i k) [
    | yes lt ↦ later (omega arith)
    | no here ↦ rw (same here) (
        collect-contains (position i) left (i + 1) _ _
          (contains-next_result_self (position i) seen result c.tracks))
  ]
    where
      same : ¬ (i < k) → k ≡ i
      same q = omega arith

  -- While there is room, no position is passed over.
  pub collect_visits :
      (left i : ℕ) (seen : Map Bool) (result : List Str)
      → Collected n seen result
      → (k : ℕ) → length (collect left nodes idx i n seen result) < n
      → i ≤ k
      → k < i + left
      → contains (position k) (collect left nodes idx i n seen result) ≡ true
  unfolding collect
  collect_visits zero i seen result c k room from to = absurd (omega arith)
  collect_visits (suc left) i seen result c k room from to =
      elim (Bool-cases (ltb (length result) n)) [
        | inr done ↦ absurd (false≢true (sym done ∙ lt→ltb (length result) n (rw done at room)))
        | inl more ↦ rw more (
            visits_next left i k seen result c
              (λ later.
                collect_visits left (i + 1) (next_seen (position i) seen)
                  (next_result (position i) seen result)
                  (collect_step (position i) n seen result c (ltb→lt _ _ more)) k (rw more at room)
                  later (omega arith))
              from)
      ]
