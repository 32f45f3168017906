-- ===== src/Reader/Consistency.antt =====
-- `GetWithConsistency` of internal/cluster/reader.go.
use grid_kv.Base.{
  ℕ, ◌≡◌, refl, true, false, Option, none, some, List, [], ◌∷◌, Str, is_empty, length, ltb,
  if_cases, option_cases, arith,
}
use grid_kv.Member.State.{MemberMgr}
use grid_kv.Node.{Libs, Node, targets_of, read_cache}
use grid_kv.Reader.Defs.{Reply, Reader, missing, ConsistencyLevel, with_node}
use grid_kv.Reader.Replicas.{
  Outcome, is_one, required, best_from, gather, consult, consult_alive, consult_for, alive_targets,
  read_consistent, to_repair,
}
use grid_kv.Storage.Item.{StoredItem}

-- Nil, no repair.
abbrev Nothing : Outcome → Type 0
Nothing out = (out.result ≡ missing) × (out.repair ≡ none)

no_repair : to_repair [] ≡ none
unfolding to_repair
no_repair = refl

module _ (libs : Libs) (arrive : List Reply → List Reply) where
  consult-Nothing :
      (now : ℕ) (key : Str) (level : ConsistencyLevel) (targets : List Str) (r : Reader)
      → Nothing (consult libs arrive now key level targets r)
  unfolding consult gather best_from
  consult-Nothing now key level targets r =
      if_cases Nothing (ltb 0 (required level (length targets) 0)) _ _ (λ few. (refl, refl))
        (λ enough. (refl, no_repair))

  consult_alive-Nothing :
      (now : ℕ) (key : Str) (level : ConsistencyLevel) (targets : List Str) (r : Reader)
      → Nothing (consult_alive libs arrive now key level targets r)
  consult_alive-Nothing now key level [] r = (refl, refl)
  consult_alive-Nothing now key level (t ∷ ts) r = consult-Nothing now key level (t ∷ ts) r

  -- Nil and no repair, unless the member manager is nil.
  consult_for-Nothing :
      (now : ℕ) (key : Str) (level : ConsistencyLevel) (targets : List Str) (r : Reader)
      (m : MemberMgr)
      → r.node.member ≡ some m
      → Nothing (consult_for libs arrive now key level targets r)
  consult_for-Nothing now key level [] r m has = (refl, refl)
  consult_for-Nothing now key level (t ∷ ts) r m has =
      option_cases Nothing r.node.member _ _ (λ absent. absurd (ground arith))
        (λ m' is. consult_alive-Nothing now key level (alive_targets r.node.node_id m' (t ∷ ts)) r)

  read_cache_member :
      (now : ℕ) (key : Str) (r : Reader) (m : MemberMgr)
      → r.node.member ≡ some m
      → (with_node r (read_cache libs now key r.node).1).node.member ≡ some m
  unfolding read_cache
  read_cache_member now key r m has =
      option_cases (λ (p : Option StoredItem × Node). p.1.member ≡ some m) r.node.cache _ _
        (λ absent. has) (λ c is. has)

  -- `GetWithConsistency` of a key that is not empty, and not in the cache where the level asks for
  -- one answer, returns nil and repairs nothing, whatever the replicas answer: the loop over the
  -- answers is bounded by the length of a slice that stays empty.
  pub read_consistent_nothing :
      (now : ℕ) (key : Str) (level : ConsistencyLevel) (r : Reader) (m : MemberMgr)
      → is_empty key ≡ false
      → r.node.member ≡ some m
      → (is_one level ≡ true → (read_cache libs now key r.node).0 ≡ none)
      → ((read_consistent libs arrive now key level r).result ≡ missing)
        × ((read_consistent libs arrive now key level r).repair ≡ none)
  unfolding read_consistent
  read_consistent_nothing now key level r m named has uncached =
      if_cases Nothing (is_empty key) _ _ (λ empty. absurd (ground arith))
        (λ _.
          if_cases Nothing (is_one level) _ _
            (λ single.
              option_cases Nothing (read_cache libs now key r.node).0 _ _
                (λ absent.
                  consult_for-Nothing now key level _ _ m (read_cache_member now key r m has))
                (λ item cached. absurd (ground (arith, uncached single))))
            (λ several.
              consult_for-Nothing now key level (targets_of libs key r.node.replica_count r.node) r
                m has))
