-- ===== src/Lifecycle/Order.antt =====
-- What `resolveOrder` of internal/utils/lifecycle/lifecycle.go finds.
use grid_kv.Base.{
  ℕ, zero, suc, ◌≡◌, refl, sym, Bool, true, false, ◌||◌, List, [], ◌∷◌, ◌++◌, Str, str_eq,
  str_eq_refl, str_eq_iff, contains, contains-append, All, length, if_cases, Bool-cases, inl, inr,
  arith,
}
use mathlib.Core.Path.{subst}
use grid_kv.Lifecycle.Defs.{
  Lifecycle, Order, ordered, failed, deps_of, then_append, and_then, visit_deps, visit, visit_all,
}

-- An order of names: each stands behind its dependencies, and once.
pub data IsOrder (lm : Lifecycle) : List Str → Type 0 where
  nobody : IsOrder lm []
  one_more :
      (order : List Str) (name : Str)
      → IsOrder lm order
      → All (λ d. contains d order ≡ true) (deps_of name lm)
      → contains name order ≡ false
      → IsOrder lm (order ++ name ∷ [])

-- What holds of an order, if there is one.
abbrev pub Good : (List Str → Type 0) → Order → Type 0
Good P (ordered order) = P order
Good P (failed e) = Unit

Good-and_then :
    (P Q : List Str → Type 0) (r : Order) (next : List Str → Order)
    → Good P r
    → ((order : List Str) → P order → Good Q (next order))
    → Good Q (and_then r next)
Good-and_then P Q (ordered order) next good step = step order good
Good-and_then P Q (failed e) next good step = tt

pub Good-map :
    (P Q : List Str → Type 0) (r : Order)
    → ((order : List Str) → P order → Q order)
    → Good P r
    → Good Q r
Good-map P Q (ordered order) f good = f order good
Good-map P Q (failed e) f good = tt

-- How a visit may change an order: it keeps what is there, adds no name of the path, and afterwards
-- has the names that were asked for.
pub record Visited (lm : Lifecycle) (temp order needs order' : List Str) : Type 0 where
  pub is_order : IsOrder lm order'
  pub grows : (x : Str) → contains x order ≡ true → contains x order' ≡ true
  pub untouched :
      (x : Str) → contains x temp ≡ true → contains x order' ≡ true → contains x order ≡ true
  pub has : All (λ d. contains d order' ≡ true) needs

visit_deps-Visited :
    (go : Str → List Str → Order) (lm : Lifecycle) (temp : List Str) (name : Str)
    (ds order : List Str)
    → ((d : Str) (o : List Str) → IsOrder lm o → Good (Visited lm temp o (d ∷ [])) (go d o))
    → IsOrder lm order
    → Good (Visited lm temp order ds) (visit_deps go lm name ds order)
unfolding visit_deps
visit_deps-Visited go lm temp name [] order visits ok = record {
  is_order = ok;
  grows = (λ x h. h);
  untouched = (λ x t h. h);
  has = tt;
}
visit_deps-Visited go lm temp name (d ∷ ds) order visits ok =
    if_cases (Good (Visited lm temp order (d ∷ ds))) (contains d lm.components) _ _
      (λ known.
        Good-and_then (Visited lm temp order (d ∷ [])) (Visited lm temp order (d ∷ ds)) (go d order)
          (visit_deps go lm name ds) (visits d order ok)
          (λ o first.
            Good-map (Visited lm temp o ds) (Visited lm temp order (d ∷ ds))
              (visit_deps go lm name ds o)
              (λ o' rest. record {
                is_order = rest.is_order;
                grows = (λ x h. rest.grows x (first.grows x h));
                untouched = (λ x t h. first.untouched x t (rest.untouched x t h));
                has = (rest.grows d first.has.0, rest.has);
              })
              (visit_deps-Visited go lm temp name ds o visits first.is_order)))
      (λ stranger. tt)

Good-then_append :
    (P Q : List Str → Type 0) (name : Str) (r : Order)
    → ((order : List Str) → P order → Q (order ++ name ∷ []))
    → Good P r
    → Good Q (then_append name r)
Good-then_append P Q name (ordered order) f good = f order good
Good-then_append P Q name (failed e) f good = tt

or_left : (a b : Bool) → a ≡ true → a || b ≡ true
or_left a b h = ground arith

or_right : (a b : Bool) → b ≡ true → a || b ≡ true
or_right a b h = ground arith

-- The name itself comes last.
appended :
    (lm : Lifecycle) (temp : List Str) (name : Str) (order o : List Str)
    → contains name temp ≡ false
    → contains name order ≡ false
    → Visited lm (name ∷ temp) order (deps_of name lm) o
    → Visited lm temp order (name ∷ []) (o ++ name ∷ [])
unfolding contains
appended lm temp name order o fresh new deps = record {
  is_order = one_more o name deps.is_order deps.has not_yet;
  grows = (λ x h. rw contains-append (or_left (contains x o) _ (deps.grows x h)));
  untouched = (λ x t h. elim (Bool-cases (contains x o)) [
    | inl before ↦ deps.untouched x (or_right (str_eq name x) _ t) before
    | inr other ↦ absurd (ground (arith, fresh, kept x t h other))
  ]);
  has = (rw contains-append (or_right (contains name o) _ (rw (str_eq_refl name) refl)), tt);
}
  where
    not_yet : contains name o ≡ false
    not_yet = elim (Bool-cases (contains name o)) [
      | inl there ↦
          absurd (ground (arith, new, deps.untouched name (rw (str_eq_refl name) refl) there))
      | inr absent ↦ absent
    ]

    kept :
        (x : Str)
        → contains x temp ≡ true
        → contains x (o ++ name ∷ []) ≡ true
        → contains x o ≡ false
        → contains name temp ≡ true
    kept x t h other =
        let same : str_eq name x ≡ true = ground (arith, rw (contains-append, other) at h) in
        subst (λ y. contains y temp ≡ true) (sym ((str_eq_iff name x).0 same)) t

visit-Visited :
    (fuel : ℕ) (lm : Lifecycle) (temp : List Str) (name : Str) (order : List Str)
    → IsOrder lm order
    → Good (Visited lm temp order (name ∷ [])) (visit fuel lm temp name order)
unfolding visit
visit-Visited zero lm temp name order ok = tt
visit-Visited (suc fuel) lm temp name order ok =
    if_cases (Good (Visited lm temp order (name ∷ []))) (contains name temp) _ _ (λ loop. tt)
      (λ fresh.
        if_cases (Good (Visited lm temp order (name ∷ []))) (contains name order) _ _
          (λ done. record {
            is_order = ok;
            grows = (λ x h. h);
            untouched = (λ x t h. h);
            has = (done, tt);
          })
          (λ new.
            Good-then_append (Visited lm (name ∷ temp) order (deps_of name lm))
              (Visited lm temp order (name ∷ [])) name
              (visit_deps (visit fuel lm (name ∷ temp)) lm name (deps_of name lm) order)
              (λ o deps. appended lm temp name order o fresh new deps)
              (visit_deps-Visited (visit fuel lm (name ∷ temp)) lm (name ∷ temp) name
                (deps_of name lm) order (λ d o is. visit-Visited fuel lm (name ∷ temp) d o is) ok)))

pub visit_all-Visited :
    (lm : Lifecycle) (names order : List Str)
    → IsOrder lm order
    → Good (Visited lm [] order names) (visit_all lm names order)
unfolding visit_all
visit_all-Visited lm [] order ok = record {
  is_order = ok;
  grows = (λ x h. h);
  untouched = (λ x t h. h);
  has = tt;
}
visit_all-Visited lm (name ∷ names) order ok =
    Good-and_then (Visited lm [] order (name ∷ [])) (Visited lm [] order (name ∷ names))
      (visit (suc (length lm.components)) lm [] name order) (visit_all lm names)
      (visit-Visited (suc (length lm.components)) lm [] name order ok)
      (λ o first.
        Good-map (Visited lm [] o names) (Visited lm [] order (name ∷ names)) (visit_all lm names o)
          (λ o' rest. record {
            is_order = rest.is_order;
            grows = (λ x h. rest.grows x (first.grows x h));
            untouched = (λ x t h. first.untouched x t (rest.untouched x t h));
            has = (rest.grows name first.has.0, rest.has);
          })
          (visit_all-Visited lm names o first.is_order))
