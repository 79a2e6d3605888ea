-- ===== src/Admin/Bounds.antt =====
-- admin_read.go, adminSliceBounds: the bounds are those of a slice, whatever is asked for.
use Prim.Native.Nat.{min}
use awesome_go_auth.Base.{ℕ, ◌+◌, ◌^◌, ◌<◌, ◌≤◌, ◌≡◌, arith, leb, if◌then◌else◌}
use awesome_go_auth.Paging.{ℤ, pos, negsuc, add_int64, nat_or_zero}
use awesome_go_auth.Paging.Laws.{InInt64}
use awesome_go_auth.Admin.{admin_slice_bounds, slice_start}

slice_start_bound : (n : ℕ) (start : ℤ) → slice_start n start ≤ n
unfolding slice_start
slice_start_bound n (pos start) = ground arith
slice_start_bound n (negsuc start) = ground arith

-- For a length below 2 to the 63 and a 64-bit start and limit, the start is inside the list, and the
-- end is the limit further on or at the end of the list; it is the start where the limit is negative
-- or the sum overflows.
pub admin_slice_bounds_lem :
    (n : ℕ) (start limit : ℤ)
    → n < 2 ^ 63
    → InInt64 limit
    → let begin = (admin_slice_bounds n start limit).0 in
      (begin ≤ n)
      × ((admin_slice_bounds n start limit).1 ≡ (
          if leb (2 ^ 63) (begin + nat_or_zero limit)
          then begin
          else min (begin + nat_or_zero limit) n))
unfolding admin_slice_bounds add_int64
admin_slice_bounds_lem n start (pos limit) h k =
    let inside = slice_start_bound n start in (inside, ground (arith, inside))
admin_slice_bounds_lem n start (negsuc limit) h k =
    let inside = slice_start_bound n start in (inside, ground (arith, inside))
