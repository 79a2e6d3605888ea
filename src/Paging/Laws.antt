-- ===== src/Paging/Laws.antt =====
-- What a page is: the limit and offset contract that the listers of store.go promise.
use awesome_go_auth.Base.{
  ℕ, zero, suc, ◌+◌, ◌-◌, ◌^◌, ◌<◌, ◌≤◌, List, [], ◌∷◌, leb, ltb, length, some, none, if◌then◌else◌,
  take, drop, ◌≡◌, ◌⊎◌, sym, ◌∙◌, arith, refl, length-drop, length-take, ap, Bool-cases, inl, inr,
}
use awesome_go_auth.Paging.{
  ℤ, pos, negsuc, nat_or_zero, end_within, add_int64, slice, slice_to, page_of,
}

-- a value of Go's 64-bit `int`
abbrev pub InInt64 : ℤ → Type 0
InInt64 (pos n) = n < 2 ^ 63
InInt64 (negsuc n) = n < 2 ^ 63

pub nat_or_zero_bound : (n : ℤ) → InInt64 n → nat_or_zero n < 2 ^ 63
nat_or_zero_bound (pos n) h = h
nat_or_zero_bound (negsuc n) h = omega arith

stop_lem :
    (o l n : ℕ)
    → o ≤ n
    → l < 2 ^ 63
    → n < 2 ^ 63
    → let stop = end_within (add_int64 (pos o) (pos l)) n in
      ((stop ≡ o + l) × (o + l ≤ n)) ⊎ ((stop ≡ n) × (n ≤ o + l))
unfolding add_int64
stop_lem o l n h k m = ground arith

module _ {A : Type 0} where
  pub take_all : (n : ℕ) (xs : List A) → length xs ≤ n → take n xs ≡ xs
  take_all zero [] h = refl
  take_all zero (x ∷ xs) h = absurd (omega arith)
  take_all (suc n) [] h = refl
  take_all (suc n) (x ∷ xs) h = ap (λ ys. x ∷ ys) (take_all n xs (omega arith))

  pub drop_all : (n : ℕ) (xs : List A) → length xs ≤ n → drop n xs ≡ []
  drop_all zero [] h = refl
  drop_all zero (x ∷ xs) h = absurd (omega arith)
  drop_all (suc n) [] h = refl
  drop_all (suc n) (x ∷ xs) h = drop_all n xs (omega arith)

  -- a slice that ends `l` further on, or at the end of the list if that comes first
  slice_end :
      (items : List A) (o l stop : ℕ)
      → ((stop ≡ o + l) × (o + l ≤ length items)) ⊎ ((stop ≡ length items) × (length items ≤ o + l))
      → slice items o stop ≡ take l (drop o items)
  slice_end items o l stop (inl (e, fits)) =
      let width : stop - o ≡ l = omega arith in ap (λ n. take n (drop o items)) width
  slice_end items o l stop (inr (e, past)) =
      take_all (stop - o) (drop o items) (omega (arith, length-drop o items))
      ∙ sym (take_all l (drop o items) (omega (arith, length-drop o items)))

  -- For a list shorter than 2 to the 63 and every 64-bit limit and offset, also where their sum
  -- overflows, a page is what follows the offset cut at the limit; a limit below one gives nothing
  -- and a negative offset is zero.
  pub page_of_lem :
      (items : List A) (limit offset : ℤ)
      → length items < 2 ^ 63
      → InInt64 limit
      → page_of items limit offset ≡ take (nat_or_zero limit) (drop (nat_or_zero offset) items)
  unfolding page_of
  page_of_lem items (negsuc l) offset n h = refl
  page_of_lem items (pos zero) offset n h = refl
  page_of_lem items (pos (suc l)) (negsuc o) n h =
      let cut = slice_end items 0 (suc l) _ (stop_lem 0 (suc l) (length items) (omega arith) h n) in
      rw (← cut) (ground arith)
  page_of_lem items (pos (suc l)) (pos o) n h = elim (Bool-cases (leb (length items) o)) [
    | inl past ↦ rw (drop_all o items (ground arith)) (ground (arith, past))
    | inr before ↦
        let cut =
          slice_end items o (suc l) _ (stop_lem o (suc l) (length items) (ground arith) h n) in
        rw (← cut) (ground (arith, before))
  ]

  -- A slice whose end is a sum that nothing guards: the page, or a panic where the sum overflows.
  pub slice_to_lem :
      (items : List A) (o l : ℕ)
      → o < length items
      → length items < 2 ^ 63
      → l < 2 ^ 63
      → slice_to items o (add_int64 (pos o) (pos l))
        ≡ (if leb (2 ^ 63) (o + l) then none else some (take l (drop o items)))
  unfolding slice_to add_int64
  slice_to_lem items o l inside n h = elim (Bool-cases (leb (2 ^ 63) (o + l))) [
    | inl over ↦ ground (arith, over)
    | inr fits ↦ elim (Bool-cases (ltb (length items) (o + l))) [
      | inl past ↦
          let cut = slice_end items o l (length items) (inr (refl, ground (arith))) in
          ground (arith, fits, past, cut)
      | inr within ↦
          let cut = slice_end items o l (o + l) (inl (refl, ground (arith))) in
          ground (arith, fits, within, cut)
    ]
  ]

  -- For a list and a limit below 2 to the 63, a page shorter than its limit is the last one: the
  -- page after it is empty.
  pub short_page_ends :
      (items : List A) (l o : ℕ)
      → length items < 2 ^ 63
      → l < 2 ^ 63
      → length (page_of items (pos l) (pos o)) < l
      → page_of items (pos l) (pos (o + l)) ≡ []
  short_page_ends items l o n h short =
      page_of_lem items (pos l) (pos (o + l)) n h
      ∙ ap (take l) (
          drop_all (o + l) items (
            omega (
              arith,
              ap length (page_of_lem items (pos l) (pos o) n h),
              length-take l (drop o items),
              length-drop o items,
            )))
      ∙ take_all l [] (omega arith)
