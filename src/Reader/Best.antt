-- ===== src/Reader/Best.antt =====
-- `GetSpeculative` of internal/cluster/reader.go: which of the answers it returns.
use mathlib.Core.Logic.Or
use mathlib.Core.List.{Mem, Perm, mem-cons, not-mem-nil, mem-cons_self, Mem-prop, filter_map}
use mathlib.Core.Bool.{Bool-set}
use mathlib.Core.Path.{subst}
use mathlib.Core.List.Perm
use grid_kv.Base.{
  ℕ, ◌≡◌, refl, ◌∙◌, false, none, some, List, [], ◌∷◌, Str, is_empty, All, slt, slt_irrefl,
  slt_trans_ge, slt_asymm, ◌⊎◌, inl, inr, if_cases, option_cases, arith, if◌then◌else◌,
}
use grid_kv.Member.State.{MemberMgr}
use grid_kv.Node.{Libs, targets_of}
use grid_kv.Reader.Defs.{Reply, Reader, ReadResult, found, missing, failed, panics, value_of}
use grid_kv.Reader.Replicas.{
  values_of, better, best_from, copy_best, alive_targets, ask_targets, speculate, read_speculative,
  count_or_three, speculate_for, Outcome,
}
use grid_kv.Storage.Item.{StoredItem, compare_version, deep_copy}

abbrev pub NotOlder : StoredItem → StoredItem → Type 0
NotOlder best item = slt best.version item.version ≡ false

-- The result is the newest of the items: one of them, not older than any of them; nothing exactly
-- where there are none.
abbrev pub Newest : List StoredItem → ReadResult → Type 0
Newest items (found best) =
    Mem best items × ((item : StoredItem) → Mem item items → NotOlder best item)
Newest items missing = items ≡ []
Newest items (failed e) = ⊥
Newest items panics = ⊥

better_if :
    (best item : StoredItem)
    → better (some best) item ≡ (if slt best.version item.version then item else best)
unfolding compare_version
better_if best item = ground (arith, slt_asymm item.version best.version)

-- The one of two that is kept.
Kept : StoredItem → StoredItem → StoredItem → Type 0
Kept best item b = NotOlder b best × NotOlder b item × ((b ≡ best) ⊎ (b ≡ item))

better-Kept : (best item : StoredItem) → Kept best item (better (some best) item)
unfolding Kept
better-Kept best item = rw (better_if best item) (
    if_cases (Kept best item) (slt best.version item.version) item best
      (λ newer. (slt_asymm best.version item.version newer, slt_irrefl item.version, inr refl))
      (λ not_newer. (slt_irrefl best.version, not_newer, inl refl)))

mem_later :
    (x best item b : StoredItem) (items : List StoredItem)
    → (b ≡ best) ⊎ (b ≡ item)
    → Mem x (b ∷ items)
    → Mem x (best ∷ item ∷ items)
mem_later x best item b items (inl e) m =
    Or.elim Mem-prop (mem-cons.0 m) (λ p. mem-cons.1 (Or.inl (p ∙ e)))
      (λ rest. mem-cons.1 (Or.inr (mem-cons.1 (Or.inr rest))))
mem_later x best item b items (inr e) m =
    Or.elim Mem-prop (mem-cons.0 m) (λ p. mem-cons.1 (Or.inr (mem-cons.1 (Or.inl (p ∙ e)))))
      (λ rest. mem-cons.1 (Or.inr (mem-cons.1 (Or.inr rest))))

-- What the loop keeps.
pub best_from-some :
    (best : StoredItem) (items : List StoredItem)
    → (x : StoredItem) × (best_from (some best) items ≡ some x)
      × Mem x (best ∷ items)
      × NotOlder x best
      × All (NotOlder x) items
unfolding best_from Kept
best_from-some best [] = (best, refl, mem-cons_self, slt_irrefl best.version, tt)
best_from-some best (item ∷ items) =
    let b = better (some best) item in
    let (older, older', which) = better-Kept best item in
    let (x, is, m, first, rest) = best_from-some b items in
    (
      x,
      is,
      mem_later x best item b items which m,
      slt_trans_ge best.version b.version x.version older first,
      (slt_trans_ge item.version b.version x.version older' first, rest),
    )

pub All-Mem :
    (x : StoredItem) (items : List StoredItem)
    → All (NotOlder x) items
    → (y : StoredItem) → Mem y items
    → NotOlder x y
All-Mem x [] all y m = absurd (not-mem-nil m)
All-Mem x (item ∷ items) all y m =
    Or.elim (Bool-set _ _) (mem-cons.0 m) (λ e. rw e all.0) (All-Mem x items all.1 y)

best_from-Newest : (items : List StoredItem) → Newest items (copy_best (best_from none items))
unfolding best_from deep_copy
best_from-Newest [] = refl
best_from-Newest (item ∷ items) =
    let (x, is, m, first, rest) = best_from-some item items in
    rw is (m, All-Mem x (item ∷ items) (first, rest))

-- The order does not matter.
perm-Newest :
    (items items' : List StoredItem) (r : ReadResult)
    → Perm items items'
    → Newest items r
    → Newest items' r
perm-Newest items items' (found x) p (m, all) =
    ((Perm.mem_iff p).0 m, λ y n. all y ((Perm.mem_iff p).1 n))
perm-Newest items items' missing p e = Perm.eq-nil (Perm.symm (rw e at p))
perm-Newest items items' (failed e) p h = h
perm-Newest items items' panics p h = h

module _ (libs : Libs) (arrive : List Reply → List Reply)
    (arrives : (replies : List Reply) → Perm (arrive replies) replies) where
  speculate-Newest :
      (now : ℕ) (key : Str) (targets : List Str) (r : Reader)
      → Newest
          (values_of (ask_targets libs now key targets r).0)
          (speculate libs arrive now key targets r).result
  unfolding speculate
  speculate-Newest now key targets r =
      let replies = (ask_targets libs now key targets r).0 in
      perm-Newest (values_of (arrive replies)) (values_of replies) _
        (Perm.filter_map value_of (arrives replies)) (best_from-Newest (values_of (arrive replies)))

  speculated_some :
      (now : ℕ) (key : Str) (r : Reader) (m : MemberMgr) (t : Str) (ts : List Str)
      → r.node.member ≡ some m
      → Newest
          (values_of (ask_targets libs now key (alive_targets r.node.node_id m (t ∷ ts)) r).0)
          (speculate_for libs arrive now key (t ∷ ts) r).result
  speculated_some now key r m t ts has =
      option_cases
        (λ (out : Outcome).
          Newest
            (values_of (ask_targets libs now key (alive_targets r.node.node_id m (t ∷ ts)) r).0)
            out.result)
        r.node.member _ _ (λ absent. absurd (ground arith))
        (λ m' is.
          let same : m ≡ m' = ground arith in
          subst
            (λ (k : MemberMgr).
              Newest
                (values_of (ask_targets libs now key (alive_targets r.node.node_id m (t ∷ ts)) r).0)
                (speculate libs arrive now key (alive_targets r.node.node_id k (t ∷ ts)) r).result)
            same (speculate-Newest now key (alive_targets r.node.node_id m (t ∷ ts)) r))

  -- Without targets there is nobody to ask.
  speculated_result :
      (now : ℕ) (key : Str) (r : Reader) (m : MemberMgr)
      → r.node.member ≡ some m
      → (targets : List Str)
      → Newest
          (values_of (ask_targets libs now key (alive_targets r.node.node_id m targets) r).0)
          (speculate_for libs arrive now key targets r).result
  unfolding ask_targets alive_targets filter_map
  speculated_result now key r m has [] = refl
  speculated_result now key r m has (t ∷ ts) = speculated_some now key r m t ts has

  -- In whatever order the answers arrive, `GetSpeculative` returns the newest of the values among
  -- them: one whose version no other exceeds, and nil exactly where no target has a value. The
  -- answers are those of the alive targets and the node itself, for a key that is not empty.
  pub read_speculative-Newest :
      (now : ℕ) (key : Str) (n : ℕ) (r : Reader) (m : MemberMgr)
      → is_empty key ≡ false
      → r.node.member ≡ some m
      → let targets =
          alive_targets r.node.node_id m (targets_of libs key (count_or_three n) r.node) in
        Newest
          (values_of (ask_targets libs now key targets r).0)
          (read_speculative libs arrive now key n r).result
  unfolding read_speculative
  read_speculative-Newest now key n r m named has =
      rw named (speculated_result now key r m has (targets_of libs key (count_or_three n) r.node))
