-- ===== src/Admin/Listings/Users.antt =====
-- admin_read.go, adminListUsers with a filter: a page of the users that match, among the first five
-- hundred by id.
use awesome_go_auth.Base.{
  ◌^◌, ◌<◌, ◌≤◌, ◌≡◌, ◌≢◌, true, false, List, ◌==◌, eq_iff, arith, refl, length, length-take,
  Bool-cases, ltb, inl, inr, take, drop, keep_if, map, sort_by,
}
use awesome_go_auth.Base.Dict.{values}
use awesome_go_auth.Paging.{ℤ, pos, negsuc, nat_or_zero}
use awesome_go_auth.Paging.Laws.{InInt64}
use awesome_go_auth.Platform.{Platform}
use awesome_go_auth.Service.{Config, World}
use awesome_go_auth.UserStore.{by_user_id}
use awesome_go_auth.Admin.TwoFactorPolicy.{count_users, batch_lem, length-map}
use awesome_go_auth.Admin.Listings.{
  AdminUserRow, new_admin_user_row, Query, users, filter_of, user_matches, clamp_limit,
  admin_query_int, admin_list_users,
}
use awesome_go_auth.Admin.Listings.Pages.{
  admin_query_int-InInt64, from_start, length-keep_if, page_answer_lem,
}

clamp_limit_bound : (limit : ℤ) → nat_or_zero (clamp_limit limit) ≤ 100
unfolding clamp_limit
clamp_limit_bound (pos n) = ground arith
clamp_limit_bound (negsuc n) = omega arith

clamp_limit-InInt64 : (limit : ℤ) → InInt64 limit → InInt64 (clamp_limit limit)
unfolding clamp_limit
clamp_limit-InInt64 (pos n) h = elim (Bool-cases (ltb 100 n)) [
  | inl over ↦ rw over (omega arith)
  | inr within ↦ rw within h
]
clamp_limit-InInt64 (negsuc n) h = h

module _ (p : Platform) (q : Query) (w : World) where
  -- the rows of the first five hundred users by id that match the filter of a query
  abbrev pub matched_users : List AdminUserRow
  matched_users =
      keep_if (user_matches p (filter_of p q))
        (map new_admin_user_row (take 500 (sort_by by_user_id (values w.users.by_id))))

  few_matched : length matched_users ≤ 500
  few_matched =
      let firsts = take 500 (sort_by by_user_id (values w.users.by_id)) in
      omega (
        arith,
        length-keep_if (user_matches p (filter_of p q)) (map new_admin_user_row firsts),
        length-map new_admin_user_row firsts,
        length-take 500 (sort_by by_user_id (values w.users.by_id)),
      )

  -- Where users can be listed and a filter is given, for fewer than 2 to the 63 users: of the first
  -- five hundred users by id, those that match the filter are counted in the total, and the rows are
  -- those of them from the offset on, cut at the limit; an offset below zero counts from the end of
  -- the matches, and no further back than the first.
  pub admin_list_users_lem :
      (c : Config)
      → c.stores.user_admin ≡ true
      → filter_of p q ≢ ""
      → count_users w.users < 2 ^ 63
      → let matched = matched_users in
        let limit = clamp_limit (admin_query_int q.limit (pos 20)) in
        let offset = admin_query_int q.offset (pos 0) in
        admin_list_users p c q w
        ≡ users
            (take (nat_or_zero limit) (drop (from_start offset (length matched)) matched))
            (pos (length matched))
  unfolding admin_list_users
  admin_list_users_lem c lists written few =
      let filter = filter_of p q in
      let limit = clamp_limit (admin_query_int q.limit (pos 20)) in
      let offset = admin_query_int q.offset (pos 0) in
      let given : (filter == "") ≡ false = ground (arith, written, eq_iff filter "") in
      let page =
        page_answer_lem filter (user_matches p filter) limit offset
          (map new_admin_user_row (take 500 (sort_by by_user_id (values w.users.by_id)))) written
          (omega (arith, few_matched, clamp_limit_bound (admin_query_int q.limit (pos 20))))
          (clamp_limit-InInt64 (admin_query_int q.limit (pos 20))
            (admin_query_int-InInt64 q.limit (pos 20) (omega arith))) in
      rw (lists, given, batch_lem w.users 500 0 few (omega arith), page) refl
