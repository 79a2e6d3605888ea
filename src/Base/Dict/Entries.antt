-- ===== src/Base/Dict/Entries.antt =====
-- What `range` over a map visits: each key that the map holds once, with its value.
use mathlib.Core.Path.{◌≡◌, refl, ap}
use mathlib.Core.Logic.{inl, inr, ◌↔◌}
use mathlib.Core.Option
use mathlib.Core.Option.{Option, none, some}
use mathlib.Core.List.{List, [], ◌∷◌, map}
use Prim.Native.Nat.{◌+◌}
use Prim.Native.String.{String}
use native.Mathlib.Omega.{arith}
use text.Mathlib.Text.{◌==◌}
use text.Mathlib.TextEquality.{eq_iff}
use text.Mathlib.TextPositions.{eq_refl}
use awesome_go_auth.Base.Tests.{if◌then◌else◌}
use awesome_go_auth.Base.Lists.{In, length}
use awesome_go_auth.Base.Dict.{
  Dict, lookup, without, lookup-without, get, put, remove, empty, values,
}

module _ {V : Type 0} where
  -- no key stands twice
  abbrev pub Distinct : List (String × V) → Type 0
  Distinct [] = Unit
  Distinct ((k, v) ∷ m) = (lookup k m ≡ none) × Distinct m

  Distinct-without : (k : String) (m : List (String × V)) → Distinct m → Distinct (without k m)
  unfolding without
  Distinct-without k [] d = tt
  Distinct-without k ((j, v) ∷ m) d =
      ground (arith, Distinct-without k m d.1, lookup-without k j m, eq_iff j k, eq_iff k j)

  pub Distinct-remove :
      (d : Dict V) (k : String) → Distinct d.entries → Distinct (remove d k).entries
  unfolding remove
  Distinct-remove d k h = Distinct-without k d.entries h

  pub Distinct-put :
      (d : Dict V) (k : String) (v : V) → Distinct d.entries → Distinct (put d k v).entries
  unfolding put
  Distinct-put d k v h =
      (ground (arith, lookup-without k k d.entries, eq_refl k), Distinct-without k d.entries h)

  In-lookup : (k : String) (v : V) (m : List (String × V)) → lookup k m ≡ some v → In (k, v) m
  unfolding lookup
  In-lookup k v [] e = absurd (ground (arith, e))
  In-lookup k v ((j, w) ∷ m) e = ground (arith, In-lookup k v m, eq_iff j k)

  lookup-In :
      (k : String) (v : V) (m : List (String × V)) → Distinct m → In (k, v) m → lookup k m ≡ some v
  unfolding lookup
  lookup-In k v [] d i = elim i [ ]
  lookup-In k v ((j, w) ∷ m) d (inl e) =
      ground (arith, ap (λ (x : String × V). x.0) e, ap (λ (x : String × V). x.1) e, eq_iff j k)
  lookup-In k v ((j, w) ∷ m) d (inr i) = ground (arith, lookup-In k v m d.1 i, eq_iff j k)

  -- a map's entries are its keys with what they are mapped to
  pub In-entries :
      (d : Dict V) (k : String) (v : V)
      → Distinct d.entries
      → In (k, v) d.entries ↔ (get d k ≡ some v)
  unfolding get
  In-entries d k v h = (lookup-In k v d.entries h, In-lookup k v d.entries)

  In-map :
      (v : V) (m : List (String × V))
      → In v (map (λ (e : String × V). e.1) m)
      → (k : String) × In (k, v) m
  In-map v [] i = elim i [ ]
  In-map v ((j, w) ∷ m) (inl e) = (j, inl (ap (λ x. (j, x)) e))
  In-map v ((j, w) ∷ m) (inr i) = let (k, h) = In-map v m i in (k, inr h)

  map-In :
      (k : String) (v : V) (m : List (String × V))
      → In (k, v) m
      → In v (map (λ (e : String × V). e.1) m)
  map-In k v [] i = elim i [ ]
  map-In k v ((j, w) ∷ m) (inl e) = inl (ap (λ (x : String × V). x.1) e)
  map-In k v ((j, w) ∷ m) (inr i) = inr (map-In k v m i)

  pub In-values_key :
      (d : Dict V) (v : V)
      → Distinct d.entries
      → In v (values d)
      → (k : String) × (get d k ≡ some v)
  In-values_key d v h i = let (k, at) = In-map v d.entries i in (k, (In-entries d k v h).0 at)

  pub In-values_of_get :
      (d : Dict V) (k : String) (v : V) → Distinct d.entries → get d k ≡ some v → In v (values d)
  In-values_of_get d k v h e = map-In k v d.entries ((In-entries d k v h).1 e)

module _ {V : Type 0} where
  length-without_absent :
      (k : String) (m : List (String × V)) → lookup k m ≡ none → length (without k m) ≡ length m
  unfolding lookup without
  length-without_absent k [] e = refl
  length-without_absent k ((j, v) ∷ m) e = ground (arith, length-without_absent k m)

  length-without :
      (k : String) (v : V) (m : List (String × V))
      → Distinct m
      → lookup k m ≡ some v
      → length (without k m) + 1 ≡ length m
  unfolding lookup without
  length-without k v [] d e = absurd (ground (arith, e))
  length-without k v ((j, w) ∷ m) d e =
      ground (arith, length-without k v m d.1, length-without_absent k m, eq_iff j k, d.0)

  -- a write of a key that is there leaves the number of entries
  pub length-put :
      (d : Dict V) (k : String) (old new : V)
      → Distinct d.entries
      → get d k ≡ some old
      → length (put d k new).entries ≡ length d.entries
  unfolding get put
  length-put d k old new h e = omega (arith, length-without k old d.entries h e)

pub Distinct-empty : (V : Type 0) → Distinct (empty {V = V}).entries
unfolding empty
Distinct-empty V = tt

module _ {V W : Type 0} where
  -- Every value of a map replaced, as a loop over its keys does in place.
  map_entries : (V → W) → List (String × V) → List (String × W)
  map_entries f [] = []
  map_entries f ((k, v) ∷ m) = (k, f v) ∷ map_entries f m

  unfoldable pub map_values : (V → W) → Dict V → Dict W
  unfolding map_entries
  map_values f d = record { entries = map_entries f d.entries }

  lookup-map_entries :
      (f : V → W) (k : String) (m : List (String × V))
      → lookup k (map_entries f m) ≡ Option.map f (lookup k m)
  unfolding map_entries lookup
  lookup-map_entries f k [] = refl
  lookup-map_entries f k ((j, v) ∷ m) = ground (arith, lookup-map_entries f k m)

  pub get-map_values :
      (f : V → W) (d : Dict V) (k : String) → get (map_values f d) k ≡ Option.map f (get d k)
  unfolding map_values get
  get-map_values f d k = lookup-map_entries f k d.entries

module _ {V : Type 0} where
  -- the keys of a map, as `range` gives them
  abbrev pub keys : Dict V → List String
  keys d = map (λ e. e.0) d.entries

  key-lookup :
      (k : String) (m : List (String × V))
      → In k (map (λ (e : String × V). e.0) m)
      → (v : V) × (lookup k m ≡ some v)
  unfolding lookup
  key-lookup k [] i = elim i [ ]
  key-lookup k ((j, w) ∷ m) (inl e) = (w, ground (arith, eq_iff j k))
  key-lookup k ((j, w) ∷ m) (inr i) =
      let (v, found) = key-lookup k m i in (if j == k then w else v, ground (arith, found))

  lookup-key :
      (k : String) (v : V) (m : List (String × V))
      → lookup k m ≡ some v
      → In k (map (λ (e : String × V). e.0) m)
  unfolding lookup
  lookup-key k v [] e = absurd (ground (arith, e))
  lookup-key k v ((j, w) ∷ m) e = ground (arith, lookup-key k v m, eq_iff j k)

  pub In-keys : (d : Dict V) (k : String) → In k (keys d) ↔ ((v : V) × (get d k ≡ some v))
  unfolding get
  In-keys d k = (key-lookup k d.entries, λ (v, e). lookup-key k v d.entries e)
