-- ===== src/Tests/Lifecycles.antt =====
-- A reader that stands on a writer and a cache, and a writer that stands on the cache.
use grid_kv.Base.{[], ◌∷◌, Str, true, ◌≡◌, refl, str_eq, load, contains}
use grid_kv.Lifecycle.Defs.{Lifecycle, ordered, visit_deps, visit, visit_all, resolve_order}
use grid_kv.Lifecycle.Fuel.{Resolved, resolve_order-Resolved}

abbrev cache : Str
cache = 99 ∷ []

abbrev writer : Str
writer = 119 ∷ []

abbrev reader : Str
reader = 114 ∷ []

abbrev parts : Lifecycle
parts = record {
  components = reader ∷ writer ∷ cache ∷ [];
  dependencies = (reader, writer ∷ cache ∷ []) ∷ (writer, cache ∷ []) ∷ [];
  started = true;
}

resolve_order-Resolved_example : Resolved parts (resolve_order parts)
resolve_order-Resolved_example = resolve_order-Resolved parts

cache_first : resolve_order parts ≡ ordered (cache ∷ writer ∷ reader ∷ [])
unfolding resolve_order visit_all visit visit_deps contains load str_eq
cache_first = refl
