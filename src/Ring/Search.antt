-- ===== src/Ring/Search.antt =====
-- The binary search `sort.Search`, which `findNode` of internal/cluster/hashring.go uses.
use grid_kv.Base.{
  ℕ, zero, suc, ◌+◌, ◌-◌, ◌/◌, ◌≤◌, ◌<◌, ◌≡◌, sym, ◌∙◌, Bool, true, false, ltb, Bool-cases, inl,
  inr, ltb→lt, lt→ltb, dec_lt, false≢true, arith,
}
use grid_kv.Ring.Defs.{search_from, sort_search}

-- Once true, `f` stays true below `n`.
abbrev pub IsMonotone : ℕ → (ℕ → Bool) → Type 0
IsMonotone n f = (i j : ℕ) → i ≤ j → j < n → f i ≡ true → f j ≡ true

-- `r` is the first index in [i, j) at which `f` holds, `j` if there is none.
pub record IsFirst (f : ℕ → Bool) (i j r : ℕ) : Type 0 where
  pub from : i ≤ r
  pub upto : r ≤ j
  pub before : (k : ℕ) → i ≤ k → k < r → f k ≡ false
  pub holds : r < j → f r ≡ true

module _ (n : ℕ) (f : ℕ → Bool) (mono : IsMonotone n f) where
  -- `f` holds at the middle: the first index is not right of it.
  left_half : (i h j r : ℕ) → h < j → f h ≡ true → IsFirst f i h r → IsFirst f i j r
  left_half i h j r lt at_h first = record {
    from = first.from;
    upto = omega (arith, first.upto);
    before = first.before;
    holds = λ _. elim (dec_lt r h) [
      | yes below ↦ first.holds below
      | no not_below ↦ rw (at_end not_below) at_h
    ];
  }
    where
      at_end : ¬ (r < h) → r ≡ h
      at_end q = omega (arith, first.upto)

  below_middle : (k h : ℕ) → k ≤ h → h < n → f h ≡ false → f k ≡ false
  below_middle k h le lt at_h = elim (Bool-cases (f k)) [
    | inl holds ↦ absurd (false≢true (sym at_h ∙ mono k h le lt holds))
    | inr fails ↦ fails
  ]

  -- `f` does not hold at the middle: nor does it to the left.
  right_half : (i h j r : ℕ) → i ≤ h → h < n → f h ≡ false → IsFirst f (h + 1) j r → IsFirst f i j r
  right_half i h j r le lt at_h first = record {
    from = omega (arith, first.from);
    upto = first.upto;
    before = λ k _ below. elim (dec_lt h k) [
      | yes right ↦ first.before k (omega arith) below
      | no left ↦ below_middle k h (omega arith) lt at_h
    ];
    holds = first.holds;
  }

  search_from-IsFirst :
      (fuel i j : ℕ) → i ≤ j → j ≤ n → j - i < fuel → IsFirst f i j (search_from fuel f i j)
  unfolding search_from
  search_from-IsFirst zero i j le len lt = absurd (omega arith)
  search_from-IsFirst (suc fuel) i j le len lt = elim (Bool-cases (ltb i j)) [
    | inr done ↦ rw done (record {
      from = omega arith;
      upto = le;
      before = λ k a b. absurd (omega arith);
      holds = λ p. absurd (false≢true (sym done ∙ lt→ltb i j p));
    })
    | inl more ↦
        let p : i < j = ltb→lt i j more in
        elim (Bool-cases (f ((i + j) / 2))) [
          | inl above ↦
              rw (more, above)
                (left_half i ((i + j) / 2) j _ (omega arith) above (
                  search_from-IsFirst fuel i ((i + j) / 2) (omega arith) (omega arith)
                    (omega arith)))
          | inr below ↦
              rw (more, below)
                (right_half i ((i + j) / 2) j _ (omega arith) (omega arith) below
                  (search_from-IsFirst fuel ((i + j) / 2 + 1) j (omega arith) len (omega arith)))
        ]
  ]

  -- `sort.Search` ends with the first index below `n` at which a monotone test holds, and with `n` if
  -- there is none.
  pub sort_search-IsFirst : IsFirst f 0 n (sort_search n f)
  unfolding sort_search
  sort_search-IsFirst = search_from-IsFirst (n + 1) 0 n (omega arith) (omega arith) (omega arith)
