-- ===== src/Paging.antt =====
-- memory_store.go, pageOf: one page of an ordered list, with Go's 64-bit `int` for limit and offset.
pub mod Laws
use awesome_go_auth.Base.{
  ℕ, suc, ◌+◌, ◌-◌, ◌%◌, ◌^◌, ◌<◌, ◌≤◌, Bool, false, true, List, [], ltb, leb, length, take, drop,
  if◌then◌else◌, ◌||◌, ◌≡◌, arith, refl, ◌∷◌, Option, none, some,
}

-- `negsuc n` is -(n + 1).
pub data ℤ : Type 0 where
  pos : ℕ → ℤ
  negsuc : ℕ → ℤ

-- The integer that a sum of two 64-bit integers wraps around to. Both have a sign of their own, so
-- a sum of different signs is in range.
abbrev pub wrap_up : ℕ → ℤ
wrap_up n = if ltb n (2 ^ 63) then pos n else negsuc (2 ^ 64 - 1 - n)

abbrev pub wrap_down : ℕ → ℤ
wrap_down n = if ltb n (2 ^ 63) then negsuc n else pos (2 ^ 64 - 1 - n)

-- offset + limit on int64
unfoldable pub add_int64 : ℤ → ℤ → ℤ
add_int64 (pos a) (pos b) = wrap_up (a + b)
add_int64 (pos a) (negsuc b) = if leb (suc b) a then pos (a - suc b) else negsuc (b - a)
add_int64 (negsuc a) (pos b) = if leb (suc a) b then pos (b - suc a) else negsuc (a - b)
add_int64 (negsuc a) (negsuc b) = wrap_down (a + b + 1)

-- a 64-bit pattern as a signed integer
abbrev pub wrap_int64 : ℕ → ℤ
wrap_int64 n = if ltb n (2 ^ 63) then pos n else negsuc (2 ^ 64 - 1 - n)

abbrev pub is_positive : ℤ → Bool
is_positive (pos n) = ltb 0 n
is_positive (negsuc n) = false

abbrev pub at_least : ℤ → ℕ → Bool
at_least (pos n) m = leb m n
at_least (negsuc n) m = false

-- a negative offset is read as zero
abbrev pub nat_or_zero : ℤ → ℕ
nat_or_zero (pos n) = n
nat_or_zero (negsuc n) = 0

-- end > len(items) || end < 0
abbrev pub end_within : ℤ → ℕ → ℕ
end_within (pos e) len = if ltb len e then len else e
end_within (negsuc e) len = len

module _ {A : Type 0} where
  -- items[offset:end]
  abbrev pub slice : List A → ℕ → ℕ → List A
  slice items offset end = take (end - offset) (drop offset items)

  unfoldable pub page_of : List A → ℤ → ℤ → List A
  unfolding add_int64
  page_of items limit offset =
      let start = nat_or_zero offset in
      let stop = end_within (add_int64 (pos start) limit) (length items) in
      if (if is_positive limit then false else true) || at_least offset (length items)
      then []
      else slice items start stop

  -- items[offset:end] after `end` is cut at the length, by the two listers that do not ask whether
  -- the sum has overflowed; `none` is the panic of a slice whose end precedes its start
  unfoldable pub slice_to : List A → ℕ → ℤ → Option (List A)
  slice_to items offset (negsuc _) = none
  slice_to items offset (pos n) =
      let stop = if ltb (length items) n then length items else n in
      if ltb stop offset then none else some (slice items offset stop)
