-- ===== src/Lifecycle/Defs.antt =====
-- internal/utils/lifecycle/lifecycle.go: the components, by their names, and the order that
-- `resolveOrder` finds. `visited` has the names of the order, and `temp` is a path of names.
use grid_kv.Base.{
  ℕ, zero, suc, Bool, true, false, ◌&&◌, Option, none, some, List, [], ◌∷◌, ◌++◌, Str, contains,
  Map, load, store, length, if◌then◌else◌,
}
use mathlib.Core.List.{reverse}

pub record Lifecycle : Type 0 where
  pub components : List Str
  pub dependencies : Map (List Str)
  pub started : Bool

-- `New`
abbrev pub new_lifecycle : Lifecycle
new_lifecycle = record { components = []; dependencies = []; started = false }

-- `Register`: no dependencies leave those that were there.
unfoldable pub register : Str → List Str → Lifecycle → Lifecycle
register name [] lm = record lm { components = lm.components ++ name ∷ [] }
register name (d ∷ deps) lm = record lm {
  components = lm.components ++ name ∷ [];
  dependencies = store name (d ∷ deps) lm.dependencies;
}

pub data OrderError : Type 0 where
  circular : Str → OrderError
  unknown : Str → Str → OrderError
  out_of_fuel : OrderError

pub data Order : Type 0 where
  ordered : List Str → Order
  failed : OrderError → Order

abbrev pub deps_of : Str → Lifecycle → List Str
deps_of name lm = elim (load name lm.dependencies) [ none ↦ [] | some deps ↦ deps ]

abbrev pub then_append : Str → Order → Order
then_append name (ordered order) = ordered (order ++ name ∷ [])
then_append name (failed e) = failed e

abbrev pub and_then : Order → (List Str → Order) → Order
and_then (ordered order) next = next order
and_then (failed e) next = failed e

-- The loop over the dependencies of a name; `go` visits one of them.
unfoldable pub visit_deps : (Str → List Str → Order) → Lifecycle → Str → List Str → List Str → Order
visit_deps go lm name [] order = ordered order
visit_deps go lm name (d ∷ ds) order =
    if contains d lm.components
    then and_then (go d order) (visit_deps go lm name ds)
    else failed (unknown name d)

-- `visit`, on fuel
unfoldable pub visit : ℕ → Lifecycle → List Str → Str → List Str → Order
unfolding visit_deps
visit zero lm temp name order = failed out_of_fuel
visit (suc fuel) lm temp name order =
    if contains name temp
    then failed (circular name)
    else if contains name order
    then ordered order
    else then_append name (visit_deps (visit fuel lm (name ∷ temp)) lm name (deps_of name lm) order)

unfoldable pub visit_all : Lifecycle → List Str → List Str → Order
unfolding visit
visit_all lm [] order = ordered order
visit_all lm (name ∷ names) order =
    and_then (visit (suc (length lm.components)) lm [] name order) (visit_all lm names)

-- `resolveOrder`
unfoldable pub resolve_order : Lifecycle → Order
unfolding visit_all
resolve_order lm = visit_all lm lm.components []

pub data StartError : Type 0 where
  already_started : StartError
  bad_order : OrderError → StartError
  start_failed : StartError

abbrev all_fine : (Str → Bool) → List Str → Bool
all_fine fine [] = true
all_fine fine (name ∷ names) = fine name && all_fine fine names

-- `StartWithTimeout`, within the time limit: all components start at once, and `fine` says which of
-- them succeed.
unfoldable pub start : (Str → Bool) → Lifecycle → Option StartError × Lifecycle
unfolding resolve_order
start fine lm = if lm.started then (some already_started, lm) else elim (resolve_order lm) [
  | failed e ↦ (some (bad_order e), lm)
  | ordered names ↦
      if all_fine fine names then (none, record lm { started = true }) else (some start_failed, lm)
]

abbrev reversed : Order → Order
reversed (failed e) = failed e
reversed (ordered names) = ordered (reverse names)

-- `CloseWithTimeout`: the components in the order in which they are closed; a failure does not keep
-- it from closing the others.
unfoldable pub close : Lifecycle → Order
unfolding resolve_order
close lm = if lm.started then reversed (resolve_order lm) else ordered []
