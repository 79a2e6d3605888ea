-- ===== src/Admin/Listings/Pages.antt =====
-- What a listing of the administration answers: numbers that fit, and rows that match.
use Prim.Native.Nat.{min}
use awesome_go_auth.Base.{
  ℕ, suc, ◌+◌, ◌-◌, ◌^◌, ◌<◌, ◌≤◌, ◌≡◌, ◌≢◌, String, Bool, true, false, none, some, List, [], ◌∷◌,
  ◌==◌, eq_iff, arith, inl, inr, length, length-drop, take, drop, keep_if, leb, Option-cases,
  Bool-cases, ap, sym, ◌∙◌,
}
use awesome_go_auth.Base.Strings.{trim_space}
use awesome_go_auth.Paging.{ℤ, pos, negsuc, nat_or_zero}
use awesome_go_auth.Paging.Laws.{InInt64, take_all, drop_all}
use awesome_go_auth.Admin.{admin_slice_bounds, slice_start}
use awesome_go_auth.Admin.Bounds.{admin_slice_bounds_lem}
use awesome_go_auth.Admin.Listings.{
  admin_query_int, atoi, signed, leading_digits, value_of, page_answer,
}

atoi-InInt64 : (negative : Bool) (n : ℕ) (i : ℤ) → atoi negative n ≡ some i → InInt64 i
unfolding atoi
atoi-InInt64 false n (pos m) e = ground (arith)
atoi-InInt64 false n (negsuc m) e = ground (arith)
atoi-InInt64 true n (pos m) e = ground (arith)
atoi-InInt64 true n (negsuc m) e = ground (arith)

-- A number that is read from a query fits in 64 bits, whatever is written there, if the default does.
pub admin_query_int-InInt64 :
    (raw : String) (default : ℤ) → InInt64 default → InInt64 (admin_query_int raw default)
unfolding admin_query_int
admin_query_int-InInt64 raw default h =
    let (negative, rest) = signed (trim_space raw) in
    elim (leading_digits rest)
      as (λ ds. InInt64 (elim ds [
        | [] ↦ default
        | d ∷ ds ↦ elim (atoi negative (value_of 0 (d ∷ ds))) [ none ↦ default | some n ↦ n ]
      ])) [
        | [] ↦ h
        | d ∷ ds ↦ elim (Option-cases (atoi negative (value_of 0 (d ∷ ds)))) [
          | inl bad ↦ rw bad h
          | inr (i, good) ↦ rw good (atoi-InInt64 negative (value_of 0 (d ∷ ds)) i good)
        ]
      ]

-- The row at which a listing starts: an offset below zero counts from the end, and no further back
-- than the first row.
abbrev pub from_start : ℤ → ℕ → ℕ
from_start (pos offset) n = offset
from_start (negsuc offset) n = n - suc offset

slice_start_lem : (n : ℕ) (start : ℤ) → slice_start n start ≡ min (from_start start n) n
unfolding slice_start
slice_start_lem n (pos start) = ground arith
slice_start_lem n (negsuc start) = ground arith

module _ {A : Type 0} where
  pub length-keep_if : (keep : A → Bool) (xs : List A) → length (keep_if keep xs) ≤ length xs
  length-keep_if keep [] = omega arith
  length-keep_if keep (x ∷ xs) = ground (arith, length-keep_if keep xs)

  -- a cut that ends a number of rows further on, or at the end of the list
  cut_lem :
      (xs : List A) (low high l : ℕ)
      → high ≡ min (low + l) (length xs)
      → take (high - low) (drop low xs) ≡ take l (drop low xs)
  cut_lem xs low high l e = elim (Bool-cases (leb (low + l) (length xs))) [
    | inl within ↦
        let width : high - low ≡ l = ground (arith, e, within) in
        ap (λ n. take n (drop low xs)) width
    | inr past ↦
        let size = length-drop low xs in
        take_all (high - low) (drop low xs) (ground (arith, e, size, past))
        ∙ sym (take_all l (drop low xs) (ground (arith, size, past)))
  ]

  drop-min : (n : ℕ) (xs : List A) → drop (min n (length xs)) xs ≡ drop n xs
  drop-min n xs = elim (Bool-cases (leb n (length xs))) [
    | inl inside ↦
        let same : min n (length xs) ≡ n = ground (arith, inside) in ap (λ m. drop m xs) same
    | inr past ↦
        let same : min n (length xs) ≡ length xs = ground (arith, past) in
        ap (λ m. drop m xs) same
        ∙ drop_all (length xs) xs (omega arith)
        ∙ sym (drop_all n xs (ground (arith, past)))
  ]

  -- With a filter, the rows that a listing answers are all that match, from where the offset says
  -- and cut at the limit, and the total is the number of all that match.
  pub page_answer_lem :
      (filter : String) (matches : A → Bool) (limit offset : ℤ) (rows : List A)
      → filter ≢ ""
      → length (keep_if matches rows) + nat_or_zero limit < 2 ^ 63
      → InInt64 limit
      → let matched = keep_if matches rows in
        page_answer filter matches limit offset rows ≡ (
          take (nat_or_zero limit) (drop (from_start offset (length matched)) matched),
          pos (length matched),
        )
  unfolding page_answer admin_slice_bounds
  page_answer_lem filter matches limit offset rows written few fits =
      let matched = keep_if matches rows in
      let n = length matched in
      let bounds = admin_slice_bounds n offset limit in
      let (inside, end) = admin_slice_bounds_lem n offset limit (omega (arith, few)) fits in
      let stop : bounds.1 ≡ min (bounds.0 + nat_or_zero limit) n =
        ground (arith, end, few, inside) in
      let start : bounds.0 ≡ min (from_start offset n) n = slice_start_lem n offset in
      let given : (filter == "") ≡ false = ground (arith, written, eq_iff filter "") in
      let page =
        cut_lem matched bounds.0 bounds.1 (nat_or_zero limit) stop
        ∙ ap (λ low. take (nat_or_zero limit) (drop low matched)) start
        ∙ ap (take (nat_or_zero limit)) (drop-min (from_start offset n) matched) in
      rw given (ap (λ r. (r, pos n)) page)
