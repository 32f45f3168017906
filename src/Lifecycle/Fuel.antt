-- ===== src/Lifecycle/Fuel.antt =====
-- The fuel of `resolveOrder` of internal/utils/lifecycle/lifecycle.go, and what it finds in all.
use grid_kv.Base.{
  ℕ, zero, suc, ◌+◌, ◌≤◌, ◌<◌, ◌≡◌, refl, sym, ap, true, false, List, [], ◌∷◌, Str, str_eq,
  str_eq_refl, str_eq_iff, contains, NoRepeat, All, length, if◌then◌else◌, if_cases, Bool-cases,
  inl, inr, arith,
}
use mathlib.Core.Path.{subst}
use grid_kv.Lifecycle.Defs.{
  Lifecycle, Order, out_of_fuel, circular, unknown, ordered, failed, deps_of, then_append, and_then,
  visit_deps, visit, visit_all, resolve_order,
}
use grid_kv.Lifecycle.Order.{IsOrder, nobody, Good, Good-map, Visited, visit_all-Visited}

-- The list without the first occurrence of a name.
unfoldable pub without : Str → List Str → List Str
without s [] = []
without s (t ∷ ts) = let rest = without s ts in if str_eq t s then ts else t ∷ rest

length-without :
    (s : Str) (ts : List Str) → contains s ts ≡ true → suc (length (without s ts)) ≡ length ts
unfolding contains without
length-without s [] h = absurd (ground arith)
length-without s (t ∷ ts) h = elim (Bool-cases (str_eq t s)) [
  | inl here ↦ rw here refl
  | inr there ↦ rw there (ap suc (length-without s ts (ground (arith, rw there at h))))
]

contains-without :
    (s z : Str) (ts : List Str)
    → str_eq s z ≡ false
    → contains z ts ≡ true
    → contains z (without s ts) ≡ true
unfolding contains without
contains-without s z [] other h = h
contains-without s z (t ∷ ts) other h = elim (Bool-cases (str_eq t s)) [
  | inl here ↦
      let same : str_eq t z ≡ false =
        subst (λ y. str_eq y z ≡ false) (sym ((str_eq_iff t s).0 here)) other in
      rw here (ground (arith, rw same at h))
  | inr there ↦ rw there (ground (arith, contains-without s z ts other, h))
]

-- A name that is not in a list differs from those that are.
without-All :
    (s : Str) (xs ys : List Str)
    → contains s xs ≡ false
    → All (λ x. contains x ys ≡ true) xs
    → All (λ x. contains x (without s ys) ≡ true) xs
unfolding contains
without-All s [] ys absent all = tt
without-All s (x ∷ xs) ys absent all = (
  contains-without s x ys (differs (ground (arith, absent))) all.0,
  without-All s xs ys (ground (arith, absent)) all.1,
)
  where
    differs : str_eq x s ≡ false → str_eq s x ≡ false
    differs no_match = elim (Bool-cases (str_eq s x)) [
      | inl same ↦
          let back : str_eq x s ≡ true =
            subst (λ y. str_eq y s ≡ true) ((str_eq_iff s x).0 same) (str_eq_refl s) in
          absurd (ground arith)
      | inr other ↦ other
    ]

-- The pigeonhole principle.
length-NoRepeat :
    (xs ys : List Str) → NoRepeat xs → All (λ x. contains x ys ≡ true) xs → length xs ≤ length ys
length-NoRepeat [] ys once all = omega arith
length-NoRepeat (x ∷ xs) ys once all = omega (
  arith,
  length-NoRepeat xs (without x ys) once.1 (without-All x xs ys once.0 all.1),
  length-without x ys all.0,
)

-- An order or an error of the code.
abbrev pub HasFuel : Order → Type 0
HasFuel (ordered order) = Unit
HasFuel (failed (circular name)) = Unit
HasFuel (failed (unknown name dep)) = Unit
HasFuel (failed out_of_fuel) = ⊥

HasFuel-then_append : (name : Str) (r : Order) → HasFuel r → HasFuel (then_append name r)
HasFuel-then_append name (ordered order) h = tt
HasFuel-then_append name (failed (circular n)) h = tt
HasFuel-then_append name (failed (unknown n d)) h = tt
HasFuel-then_append name (failed out_of_fuel) h = h

HasFuel-and_then :
    (r : Order) (next : List Str → Order)
    → HasFuel r
    → ((o : List Str) → HasFuel (next o))
    → HasFuel (and_then r next)
HasFuel-and_then (ordered order) next h f = f order
HasFuel-and_then (failed (circular n)) next h f = tt
HasFuel-and_then (failed (unknown n d)) next h f = tt
HasFuel-and_then (failed out_of_fuel) next h f = h

visit_deps-HasFuel :
    (go : Str → List Str → Order) (lm : Lifecycle) (name : Str) (ds order : List Str)
    → ((d : Str) (o : List Str) → contains d lm.components ≡ true → HasFuel (go d o))
    → HasFuel (visit_deps go lm name ds order)
unfolding visit_deps
visit_deps-HasFuel go lm name [] order visits = tt
visit_deps-HasFuel go lm name (d ∷ ds) order visits =
    if_cases HasFuel (contains d lm.components) _ _
      (λ known.
        HasFuel-and_then (go d order) (visit_deps go lm name ds) (visits d order known)
          (λ o. visit_deps-HasFuel go lm name ds o visits))
      (λ stranger. tt)

visit-HasFuel :
    (fuel : ℕ) (lm : Lifecycle) (temp : List Str) (name : Str) (order : List Str)
    → NoRepeat temp
    → All (λ x. contains x lm.components ≡ true) temp
    → contains name lm.components ≡ true
    → length lm.components < length temp + fuel
    → HasFuel (visit fuel lm temp name order)
unfolding visit
visit-HasFuel zero lm temp name order once all known enough =
    absurd (omega (arith, length-NoRepeat temp lm.components once all))
visit-HasFuel (suc fuel) lm temp name order once all known enough =
    if_cases HasFuel (contains name temp) _ _ (λ loop. tt)
      (λ fresh.
        if_cases HasFuel (contains name order) _ _ (λ done. tt)
          (λ new.
            HasFuel-then_append name
              (visit_deps (visit fuel lm (name ∷ temp)) lm name (deps_of name lm) order)
              (visit_deps-HasFuel (visit fuel lm (name ∷ temp)) lm name (deps_of name lm) order
                (λ d o dep.
                  visit-HasFuel fuel lm (name ∷ temp) d o (fresh, once) (known, all) dep
                    (omega arith)))))

visit_all-HasFuel :
    (lm : Lifecycle) (names order : List Str)
    → All (λ x. contains x lm.components ≡ true) names
    → HasFuel (visit_all lm names order)
unfolding visit_all
visit_all-HasFuel lm [] order all = tt
visit_all-HasFuel lm (name ∷ names) order all =
    HasFuel-and_then (visit (suc (length lm.components)) lm [] name order) (visit_all lm names)
      (visit-HasFuel (suc (length lm.components)) lm [] name order tt tt all.0 (omega arith))
      (λ o. visit_all-HasFuel lm names o all.1)

all_contained :
    (xs ys : List Str)
    → ((x : Str) → contains x xs ≡ true → contains x ys ≡ true)
    → All (λ x. contains x ys ≡ true) xs
unfolding contains
all_contained [] ys f = tt
all_contained (x ∷ xs) ys f =
    (f x (rw (str_eq_refl x) refl), all_contained xs ys (λ z h. f z (ground (arith, h))))

-- What comes of resolving the dependencies.
abbrev pub Resolved : Lifecycle → Order → Type 0
Resolved lm r =
    HasFuel r
    × Good (λ order. IsOrder lm order × All (λ x. contains x order ≡ true) lm.components) r

-- `resolveOrder` always ends, with an error or with an order: in the order each component stands,
-- every name once, and behind all that it depends on.
pub resolve_order-Resolved : (lm : Lifecycle) → Resolved lm (resolve_order lm)
unfolding resolve_order
resolve_order-Resolved lm = (
  visit_all-HasFuel lm lm.components [] (all_contained lm.components lm.components (λ x h. h)),
  Good-map (Visited lm [] [] lm.components) _ (visit_all lm lm.components [])
      (λ o v. (v.is_order, v.has)) (visit_all-Visited lm lm.components [] nobody),
)
