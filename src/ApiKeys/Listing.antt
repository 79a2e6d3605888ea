-- ===== src/ApiKeys/Listing.antt =====
-- The page of keys that ListAll returns, and where its sum of limit and offset overflows.
use awesome_go_auth.Base.{
  ◌+◌, ◌^◌, ◌<◌, ◌&&◌, List, [], some, none, leb, ltb, length, take, drop, ◌≡◌, arith, Bool-cases,
  inl, inr, true, if◌then◌else◌,
}
use awesome_go_auth.Paging.{ℤ, nat_or_zero}
use awesome_go_auth.Paging.Laws.{InInt64, slice_to_lem, drop_all, take_all, nat_or_zero_bound}
use awesome_go_auth.ApiKeys.{MemoryApiKeyStore, ApiKeyRecord, list_all, snapshot}

-- the keys in their order, newest first
abbrev pub newest : MemoryApiKeyStore → List ApiKeyRecord
newest s = snapshot (λ _. true) s

-- For fewer than 2 to the 63 keys and every 64-bit limit and offset, a page of keys is what follows
-- the offset cut at the limit, newest first; where the offset is in the list and the sum of the two
-- overflows, there is none, for the slice panics.
pub list_all_lem :
    (s : MemoryApiKeyStore) (limit offset : ℤ)
    → length (newest s) < 2 ^ 63
    → InInt64 limit
    → InInt64 offset
    → list_all limit offset s ≡ (
        let start = nat_or_zero offset in
        let size = nat_or_zero limit in
        if ltb start (length (newest s)) && leb (2 ^ 63) (start + size)
        then none
        else some (take size (drop start (newest s))))
unfolding list_all
list_all_lem s limit offset n h k =
    let start = nat_or_zero offset in
    elim (Bool-cases (leb (length (newest s)) start)) [
      | inl past ↦
          let none_left = drop_all start (newest s) (ground (arith, past)) in
          let empty : List ApiKeyRecord = [] in
          ground (arith, past, none_left, take_all (nat_or_zero limit) empty (omega arith))
      | inr inside ↦
          let cut =
            slice_to_lem (newest s) start (nat_or_zero limit) (ground (arith, inside)) n
              (nat_or_zero_bound limit h) in
          ground (arith, inside, cut)
    ]
