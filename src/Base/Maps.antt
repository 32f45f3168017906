-- ===== src/Base/Maps.antt =====
-- Maps from strings, as the program uses `sync.Map` and `map[string]T`: an association list with
-- at most one entry for a key. The order of the list is one order in which `Range` may visit it.
use mathlib.Core.Path.{◌≡◌, refl}
use mathlib.Core.Bool.{false}
use mathlib.Core.List.{List, [], ◌∷◌}
use mathlib.Core.Option.{Option, none, some}
use Prim.Native.Nat.{◌+◌}
use grid_kv.Base.Lists.{length}
use native.Mathlib.Omega.{arith}
use grid_kv.Base.Tests.{if◌then◌else◌}
use grid_kv.Base.Text.{Str, str_eq, str_eq_iff}

abbrev pub Map {ℓ} : Type ℓ → Type ℓ
Map V = List (Str × V)

module _ {ℓ} {V : Type ℓ} where
  -- `m.Load(k)`
  unfoldable pub load : Str → Map V → Option V
  load k [] = none
  load k ((j, v) ∷ m) = if str_eq j k then some v else load k m

  -- `m.Store(k, v)`
  unfoldable pub store : Str → V → Map V → Map V
  store k v [] = (k, v) ∷ []
  store k v ((j, w) ∷ m) = if str_eq j k then (k, v) ∷ m else (j, w) ∷ store k v m

  -- `m.Delete(k)`
  unfoldable pub delete : Str → Map V → Map V
  delete k [] = []
  delete k ((j, w) ∷ m) = let rest = delete k m in if str_eq j k then rest else (j, w) ∷ rest

  pub load-store :
      (k j : Str) (v : V) (m : Map V)
      → load j (store k v m) ≡ (if str_eq k j then some v else load j m)
  unfolding load store
  load-store k j v [] = refl
  load-store k j v ((i, w) ∷ m) =
      ground (arith, str_eq_iff k j, str_eq_iff i k, str_eq_iff i j, load-store k j v m)

  pub load-delete :
      (k j : Str) (m : Map V) → load j (delete k m) ≡ (if str_eq k j then none else load j m)
  unfolding load delete
  load-delete k j [] = ground arith
  load-delete k j ((i, w) ∷ m) =
      ground (arith, str_eq_iff k j, str_eq_iff i k, str_eq_iff i j, load-delete k j m)

  -- No key has two entries.
  abbrev pub Distinct : Map V → Type ℓ
  Distinct [] = Unit
  Distinct ((k, v) ∷ m) = (load k m ≡ none) × Distinct m

  load-store_ne :
      (k j : Str) (v : V) (m : Map V) → str_eq k j ≡ false → load j (store k v m) ≡ load j m
  load-store_ne k j v m h = rw (load-store k j v m, h) refl

  pub store-Distinct : (k : Str) (v : V) (m : Map V) → Distinct m → Distinct (store k v m)
  unfolding store load
  store-Distinct k v [] d = (refl, tt)
  store-Distinct k v ((j, w) ∷ m) d =
      ground
        (arith, str_eq_iff j k, str_eq_iff k j, store-Distinct k v m d.1, load-store_ne k j v m)

  pub delete-Distinct : (k : Str) (m : Map V) → Distinct m → Distinct (delete k m)
  unfolding delete
  delete-Distinct k [] d = tt
  delete-Distinct k ((j, v) ∷ m) d = ground (arith, delete-Distinct k m d.1, load-delete k j m)

  pub length-store_new :
      (k : Str) (v : V) (m : Map V) → load k m ≡ none → length (store k v m) ≡ length m + 1
  unfolding load store
  length-store_new k v [] absent = refl
  length-store_new k v ((j, w) ∷ m) absent = ground (arith, length-store_new k v m)

  pub length-store_found :
      (k : Str) (v w : V) (m : Map V) → load k m ≡ some w → length (store k v m) ≡ length m
  unfolding load store
  length-store_found k v w [] found = ground arith
  length-store_found k v w ((j, u) ∷ m) found = ground (arith, length-store_found k v w m)

  delete_absent : (k : Str) (m : Map V) → load k m ≡ none → delete k m ≡ m
  unfolding load delete
  delete_absent k [] absent = refl
  delete_absent k ((j, w) ∷ m) absent = ground (arith, delete_absent k m)

  pub length-delete :
      (k : Str) (v : V) (m : Map V)
      → Distinct m
      → load k m ≡ some v
      → length (delete k m) + 1 ≡ length m
  unfolding load delete
  length-delete k v [] d found = ground arith
  length-delete k v ((j, w) ∷ m) d found =
      ground (arith, str_eq_iff j k, delete_absent k m, length-delete k v m d.1)
