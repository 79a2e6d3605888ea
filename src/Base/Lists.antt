-- ===== src/Base/Lists.antt =====
-- Lists measured by native numbers under the library's names, membership by recursion, and the
-- insertion sort that stands for `sort.Slice` and `sort.Strings`.
use Prim.Native.Nat.{ℕ, zero, suc, ◌-◌, min}
use mathlib.Core.Path.{◌≡◌}
use mathlib.Core.Logic.{◌⊎◌, inl, inr, ◌↔◌}
use mathlib.Core.Bool.{Bool, true}
use mathlib.Core.List.{List, [], ◌∷◌}
use native.Mathlib.Omega.{arith}
use awesome_go_auth.Base.Tests.{if◌then◌else◌}

module _ {ℓ} {A : Type ℓ} where
  abbrev pub length : List A → ℕ
  length [] = 0
  length (x ∷ xs) = suc (length xs)

  abbrev pub take : ℕ → List A → List A
  take zero xs = []
  take (suc n) [] = []
  take (suc n) (x ∷ xs) = x ∷ take n xs

  abbrev pub drop : ℕ → List A → List A
  drop zero xs = xs
  drop (suc n) [] = []
  drop (suc n) (x ∷ xs) = drop n xs

  -- `for ... { if keep(x) { out = append(out, x) } }`
  abbrev pub keep_if : (A → Bool) → List A → List A
  keep_if keep [] = []
  keep_if keep (x ∷ xs) = if keep x then x ∷ keep_if keep xs else keep_if keep xs

  abbrev insert_by : (A → A → Bool) → A → List A → List A
  insert_by less x [] = x ∷ []
  insert_by less x (y ∷ ys) = if less x y then x ∷ y ∷ ys else y ∷ insert_by less x ys

  abbrev pub sort_by : (A → A → Bool) → List A → List A
  sort_by less [] = []
  sort_by less (x ∷ xs) = insert_by less x (sort_by less xs)

module _ {A : Type 0} where
  -- `x` stands in the list; by recursion, so that the tactics take it apart.
  abbrev pub In : A → List A → Type 0
  In x [] = ⊥
  In x (y ∷ ys) = (x ≡ y) ⊎ In x ys

module _ {ℓ} {A : Type ℓ} where
  pub length-drop : (n : ℕ) (xs : List A) → length (drop n xs) ≡ length xs - n
  length-drop zero xs = omega arith
  length-drop (suc n) [] = omega arith
  length-drop (suc n) (x ∷ xs) = omega (arith, length-drop n xs)

  pub length-take : (n : ℕ) (xs : List A) → length (take n xs) ≡ min n (length xs)
  length-take zero xs = omega arith
  length-take (suc n) [] = omega arith
  length-take (suc n) (x ∷ xs) = omega (arith, length-take n xs)

module _ {A : Type 0} where
  length-insert_by :
      (less : A → A → Bool) (x : A) (ys : List A) → length (insert_by less x ys) ≡ suc (length ys)
  length-insert_by less x [] = omega arith
  length-insert_by less x (y ∷ ys) = ground (arith, length-insert_by less x ys)

  pub length-sort_by : (less : A → A → Bool) (xs : List A) → length (sort_by less xs) ≡ length xs
  length-sort_by less [] = omega arith
  length-sort_by less (x ∷ xs) =
      omega (arith, length-sort_by less xs, length-insert_by less x (sort_by less xs))

module _ {A : Type 0} (a : A) where
  -- an element of the list after an insertion is the new one or an old one
  In-insert_by :
      (less : A → A → Bool) (x : A) (ys : List A) → In a (insert_by less x ys) ↔ ((a ≡ x) ⊎ In a ys)
  In-insert_by less x [] = (λ h. h, λ h. h)
  In-insert_by less x (y ∷ ys) = (
    λ h. ground (arith, (In-insert_by less x ys).0),
    λ h. ground (arith, (In-insert_by less x ys).1),
  )

  -- sorting neither loses nor adds an element
  pub In-sort_by : (less : A → A → Bool) (xs : List A) → In a (sort_by less xs) ↔ In a xs
  In-sort_by less [] = (λ h. h, λ h. h)
  In-sort_by less (x ∷ xs) = (
    λ h. ground (arith, (In-insert_by less x (sort_by less xs)).0, (In-sort_by less xs).0),
    λ h. ground (arith, (In-insert_by less x (sort_by less xs)).1, (In-sort_by less xs).1),
  )

  pub In-keep_if :
      (keep : A → Bool) (xs : List A) → In a (keep_if keep xs) ↔ (In a xs × (keep a ≡ true))
  In-keep_if keep [] = (λ h. elim h [ ], λ h. h.0)
  In-keep_if keep (x ∷ xs) =
      (λ h. ground (arith, (In-keep_if keep xs).0), λ h. ground (arith, (In-keep_if keep xs).1))

  pub In-take : (n : ℕ) (xs : List A) → In a (take n xs) → In a xs
  In-take zero xs i = elim i [ ]
  In-take (suc n) [] i = i
  In-take (suc n) (x ∷ xs) (inl e) = inl e
  In-take (suc n) (x ∷ xs) (inr i) = inr (In-take n xs i)

  pub In-drop : (n : ℕ) (xs : List A) → In a (drop n xs) → In a xs
  In-drop zero xs i = i
  In-drop (suc n) [] i = i
  In-drop (suc n) (x ∷ xs) i = inr (In-drop n xs i)
