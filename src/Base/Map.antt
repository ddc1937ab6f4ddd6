-- ===== src/Base/Map.antt =====
-- A Go map keyed by strings: an association list with each key once. The order of the list stands
-- for an order in which `range` may visit the map; `insert` keeps a key's place.
use mathlib.Core.Path.{◌≡◌, refl}
use mathlib.Core.Option.{Option, none, some}
use mathlib.Core.List.{List, [], ◌∷◌, map}
use native.Mathlib.Omega.{arith}
use bcbchain.Base.Lists.{All, All-map}
use bcbchain.Base.Tests.{if◌then◌else◌}
use bcbchain.Base.Text.{Bytes, bytes_eq, bytes_eq_iff, bytes_eq_refl}

abbrev pub GoMap {ℓ} : Type ℓ → Type ℓ
GoMap V = List (Bytes × V)

module _ {ℓ} {V : Type ℓ} where
  -- `v, ok := m[k]`
  unfoldable pub lookup : Bytes → GoMap V → Option V
  lookup k [] = none
  lookup k ((j, v) ∷ m) = if bytes_eq j k then some v else lookup k m

  -- `m[k] = v`
  unfoldable pub insert : Bytes → V → GoMap V → GoMap V
  insert k v [] = (k, v) ∷ []
  insert k v ((j, w) ∷ m) = if bytes_eq j k then (j, v) ∷ m else (j, w) ∷ insert k v m

  -- `for k, v := range data { m[k] = v }`
  unfoldable pub insert_all : GoMap V → GoMap V → GoMap V
  unfolding insert
  insert_all [] m = m
  insert_all ((k, v) ∷ data') m = insert_all data' (insert k v m)

  -- No key is listed twice.
  abbrev pub HasUniqueKeys : GoMap V → Type ℓ
  HasUniqueKeys [] = Unit
  HasUniqueKeys ((k, v) ∷ m) = (lookup k m ≡ none) × HasUniqueKeys m

  pub lookup-insert :
      (k j : Bytes) (v : V) (m : GoMap V)
      → lookup j (insert k v m) ≡ (if bytes_eq k j then some v else lookup j m)
  unfolding lookup insert
  lookup-insert k j v [] = refl
  lookup-insert k j v ((i, w) ∷ m) =
      ground (arith, bytes_eq_iff k j, bytes_eq_iff i k, bytes_eq_iff i j, lookup-insert k j v m)

  pub insert-HasUniqueKeys :
      (k : Bytes) (v : V) (m : GoMap V) → HasUniqueKeys m → HasUniqueKeys (insert k v m)
  unfolding lookup insert
  insert-HasUniqueKeys k v [] h = (refl, tt)
  insert-HasUniqueKeys k v ((j, w) ∷ m) h = ground (
    arith,
    insert-HasUniqueKeys k v m h.1,
    lookup-insert k j v m,
    bytes_eq_iff j k,
    bytes_eq_iff k j,
  )

  -- The map that `insert_all` builds holds the new entry of a key, or else the old one.
  pub lookup-insert_all :
      (k : Bytes) (data' m : GoMap V)
      → HasUniqueKeys data'
      → lookup k (insert_all data' m)
        ≡ elim (lookup k data') [ some v ↦ some v | none ↦ lookup k m ]
  unfolding lookup insert_all
  lookup-insert_all k [] m u = refl
  lookup-insert_all k ((j, v) ∷ d) m u =
      ground
        (arith, lookup-insert_all k d (insert j v m) u.1, lookup-insert j k v m, bytes_eq_iff j k)

  pub insert_all-HasUniqueKeys :
      (data' m : GoMap V) → HasUniqueKeys m → HasUniqueKeys (insert_all data' m)
  unfolding insert_all
  insert_all-HasUniqueKeys [] m h = h
  insert_all-HasUniqueKeys ((k, v) ∷ d) m h =
      insert_all-HasUniqueKeys d (insert k v m) (insert-HasUniqueKeys k v m h)

  tail_entry :
      (k : Bytes) (v : V) (m : GoMap V)
      → lookup k m ≡ none
      → (e : Bytes × V) → lookup e.0 m ≡ some e.1
      → lookup e.0 ((k, v) ∷ m) ≡ some e.1
  unfolding lookup
  tail_entry k v m fresh e h = ground (arith, bytes_eq_iff k e.0)

  -- Every entry is the one that a lookup of its key finds.
  pub entries_found : (m : GoMap V) → HasUniqueKeys m → All (λ e. lookup e.0 m ≡ some e.1) m
  unfolding lookup
  entries_found [] u = tt
  entries_found ((k, v) ∷ m) u = (
    rw (bytes_eq_refl k),
    All-map (λ e. lookup e.0 m ≡ some e.1) (λ e. lookup e.0 ((k, v) ∷ m) ≡ some e.1) m
        (tail_entry k v m u.0) (entries_found m u.1),
  )

  -- The values of a map replaced by a function of their keys (`new[k] = f(k)` for each key).
  pub lookup-map_keys :
      (f : Bytes → V) (k : Bytes) (m : GoMap V)
      → lookup k (map (λ e. (e.0, f e.0)) m)
        ≡ elim (lookup k m) [ some v ↦ some (f k) | none ↦ none ]
  unfolding lookup
  lookup-map_keys f k [] = refl
  lookup-map_keys f k ((j, v) ∷ m) = ground (arith, bytes_eq_iff j k, lookup-map_keys f k m)

  pub map_keys-HasUniqueKeys :
      (f : Bytes → V) (m : GoMap V) → HasUniqueKeys m → HasUniqueKeys (map (λ e. (e.0, f e.0)) m)
  map_keys-HasUniqueKeys f [] u = tt
  map_keys-HasUniqueKeys f ((k, v) ∷ m) u =
      (rw (lookup-map_keys f k m, u.0), map_keys-HasUniqueKeys f m u.1)
