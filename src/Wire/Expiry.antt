-- ===== src/Wire/Expiry.antt =====
-- Whatever cookie the options wrote, with or without the secure mark, the clearing of cookies expires.
use Prim.Native.String.{◌++◌ as cat}
use awesome_go_auth.Base.{
  String, Bool, false, ◌||◌, List, [], ◌∷◌, In, ◌≡◌, ◌==◌, arith, inl, inr, refl, eq_iff,
  Bool-cases, ◌⊎◌, subst, ap, sym, ℕ, ◌&&◌,
}
use awesome_go_auth.Paging.{negsuc}
use awesome_go_auth.Roles.{contains}
use awesome_go_auth.Wire.{
  CookieOptions, Cookie, cookie_name, cookie, expired_cookie, clear_loop, clear_variants,
}

module _ (o : CookieOptions) (path : String) (http_only : Bool) where
  In-clear_loop :
      (seen names : List String) (name : String)
      → contains name seen ≡ false
      → In name names
      → In (expired_cookie o path http_only name) (clear_loop o path http_only seen names)
  unfolding clear_loop contains
  In-clear_loop seen [] name new i = elim i [ ]
  In-clear_loop seen (n ∷ names) name new i = elim (Bool-cases (n == name)) [
    | inl same ↦
        let e : n ≡ name = ground (arith, same, eq_iff n name) in
        let fresh : contains n seen ≡ false = subst (λ x. contains x seen ≡ false) (sym e) new in
        rw fresh (inl (ap (expired_cookie o path http_only) (sym e)))
    | inr other ↦
        let later : In name names = elim i [
          | inl e ↦ absurd (ground (arith, e, other, eq_iff n name))
          | inr j ↦ j
        ] in
        elim (Bool-cases (contains n seen)) [
          | inl old ↦ rw old (In-clear_loop seen names name new later)
          | inr first ↦
              rw first
                (inr (In-clear_loop (n ∷ seen) names name (ground (arith, other, new)) later))
        ]
  ]

cookie_name-cases :
    (o : CookieOptions) (base : String)
    → (cookie_name o base ≡ base)
      ⊎ (cookie_name o base ≡ cat "__Host-" base)
      ⊎ (cookie_name o base ≡ cat "__Secure-" base)
unfolding cookie_name
cookie_name-cases o base = elim (Bool-cases o.secure) [
  | inl on ↦ elim (Bool-cases ((o.path == "" || o.path == "/") && o.domain == "")) [
    | inl host ↦ inr (inl (ground (arith, on, host)))
    | inr other ↦ inr (inr (ground (arith, on, other)))
  ]
  | inr off ↦ inl (ground (arith, off))
]

-- A cookie that was written under a base name with a path, whether its options had the secure mark
-- or not, has a cookie of its name, path and domain among those that clear the base name on that
-- path, and that one is expired.
pub clear_variants-cookie :
    (o : CookieOptions) (secured : Bool) (base value path : String) (max_age : ℕ) (http_only : Bool)
    → let old : CookieOptions = record o { secure = secured } in
      let written = cookie old (cookie_name old base) value path max_age http_only in
      (c : Cookie) × In c (clear_variants o base path http_only)
      × (c.name ≡ written.name)
      × (c.path ≡ written.path)
      × (c.domain ≡ written.domain)
      × (c.max_age ≡ negsuc 0)
unfolding clear_variants cookie expired_cookie contains
clear_variants-cookie o secured base value path max_age http_only =
    let old : CookieOptions = record o { secure = secured } in
    let name = cookie_name old base in
    let variants = cookie_name o base ∷ cat "__Host-" base ∷ cat "__Secure-" base ∷ base ∷ [] in
    let there : In name variants = elim (cookie_name-cases old base) [
      | inl e ↦ inr (inr (inr (inl e)))
      | inr more ↦ elim more [ inl e ↦ inr (inl e) | inr e ↦ inr (inr (inl e)) ]
    ] in
    (
      expired_cookie o path http_only name,
      In-clear_loop o path http_only [] variants name refl there,
      refl,
      refl,
      refl,
      refl,
    )
