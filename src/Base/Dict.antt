-- ===== src/Base/Dict.antt =====
-- Go's `map[string]V`. A later key hides an earlier one, so a read sees what was written last; the
-- keys of a map that `put` and `remove` built are distinct, and `range` walks its entries.
pub mod Entries
use Prim.Native.Nat.{ℕ}
use Prim.Native.String.{String}
use mathlib.Core.Path.{◌≡◌, refl, sym, ap, ◌∙◌, subst}
use mathlib.Core.Logic.{◌≢◌, ◌⊎◌, inl, inr, ◌↔◌}
use mathlib.Core.Bool.{Bool, true, false, not}
use mathlib.Core.Option.{Option, none, some}
use mathlib.Core.List.{List, [], ◌∷◌, map}
use native.Mathlib.Omega.{arith}
use text.Mathlib.Text.{◌==◌}
use text.Mathlib.TextEquality.{eq_iff}
use text.Mathlib.TextPositions.{eq_refl}
use awesome_go_auth.Base.Tests.{if◌then◌else◌}
use awesome_go_auth.Base.Lists.{In}

pub record Dict (V : Type 0) : Type 0 where
  pub entries : List (String × V)

module _ {V : Type 0} where
  unfoldable pub lookup : String → List (String × V) → Option V
  lookup k [] = none
  lookup k ((j, v) ∷ m) = if j == k then some v else lookup k m

  unfoldable pub without : String → List (String × V) → List (String × V)
  without k [] = []
  without k ((j, v) ∷ m) = let rest = without k m in if j == k then rest else (j, v) ∷ rest

  -- make(map[string]V)
  unfoldable pub empty : Dict V
  empty = record { entries = [] }

  -- m[k], with the second result as an option
  unfoldable pub get : Dict V → String → Option V
  unfolding lookup
  get d k = lookup k d.entries

  -- delete(m, k)
  unfoldable pub remove : Dict V → String → Dict V
  unfolding without
  remove d k = record { entries = without k d.entries }

  -- m[k] = v
  unfoldable pub put : Dict V → String → V → Dict V
  unfolding without
  put d k v = record { entries = (k, v) ∷ without k d.entries }

  pub lookup-without :
      (k j : String) (m : List (String × V))
      → lookup j (without k m) ≡ (if k == j then none else lookup j m)
  unfolding lookup without
  lookup-without k j [] = ground arith
  lookup-without k j ((i, v) ∷ m) =
      ground (arith, lookup-without k j m, eq_iff i k, eq_iff i j, eq_iff k j)

  -- a read of a key after a write of a key
  pub get-put :
      (m : Dict V) (written read : String) (value : V)
      → get (put m written value) read ≡ (if written == read then some value else get m read)
  unfolding get put lookup
  get-put m written read value = simp lookup-without (ground arith)

  -- a read of a key after a removal of a key
  pub get-remove :
      (m : Dict V) (gone read : String)
      → get (remove m gone) read ≡ (if gone == read then none else get m read)
  unfolding get remove
  get-remove m gone read = lookup-without gone read m.entries

  pub get-empty : (key : String) → get empty key ≡ none
  unfolding get empty
  get-empty key = refl

pub ruleset dict_laws = (get-empty, get-remove, get-put)

module _ {V : Type 0} (d : Dict V) (k : String) where
  pub get-put_self : (v : V) → get (put d k v) k ≡ some v
  get-put_self v = simp (get-put, eq_refl)

  pub get-put_ne : (j : String) (v : V) → k ≢ j → get (put d k v) j ≡ get d j
  get-put_ne j v h = simp get-put (ground (arith, eq_iff k j))

  pub get-remove_self : get (remove d k) k ≡ none
  get-remove_self = simp (get-remove, eq_refl)

  pub get-remove_ne : (j : String) → k ≢ j → get (remove d k) j ≡ get d j
  get-remove_ne j h = simp get-remove (ground (arith, eq_iff k j))

abbrev pub values : {V : Type 0} → Dict V → List V
values d = map (λ e. e.1) d.entries
