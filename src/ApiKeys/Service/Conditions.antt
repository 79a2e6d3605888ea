-- ===== src/ApiKeys/Service/Conditions.antt =====
-- The conditions of Verify on the scopes, the address and the text of a key, against what they mean.
use Prim.Native.Char.{code}
use Prim.Native.String.{[], ◌∷◌, ◌++◌ as cat}
use text.Mathlib.TextEquality.{Char-path}
use text.Mathlib.TextLemmas.{nil-append, cons-append}
use mathlib.Core.List.{[] as nil, ◌∷◌ as cons}
use awesome_go_auth.Base.{
  ℕ, ◌+◌, ◌-◌, String, Bool, true, false, Option, none, some, List, In, ◌≡◌, ◌↔◌, ◌⊎◌, ◌≤◌, ◌<◌,
  inl, inr, refl, arith, eq_iff, eq_refl, Option-cases, Bool-cases, subst, sym, ap, ◌∙◌, eqb,
}
use awesome_go_auth.Base.Dict.{get}
use awesome_go_auth.Base.Strings.{byte_len, byte_width}
use awesome_go_auth.Errors.{ok}
use awesome_go_auth.ApiKeys.{ApiKeyRecord, MemoryApiKeyStore, find_by_prefix}
use awesome_go_auth.Roles.Laws.{contains_iff}
use awesome_go_auth.ApiKeys.Service.{
  Net, cut, has_key_prefix, has_scopes, has_slash, admits, any_admits, ip_allowed, is_expired,
}

-- every scope that is asked for is there
abbrev pub Covers : List String → List String → Type 0
Covers got required = (scope : String) → In scope required → In scope got

-- a key has the scopes that are asked for exactly if each of them is among its own
pub has_scopes_iff :
    (got required : List String) → (has_scopes got required ≡ true) ↔ Covers got required
unfolding has_scopes
has_scopes_iff got nil = (λ h scope i. elim i [ ], λ h. refl)
has_scopes_iff got (cons first rest) = (
  λ h scope i. elim i [
    | inl e ↦ (contains_iff scope got).0 (ground (arith, e))
    | inr later ↦ (has_scopes_iff got rest).0 (ground (arith)) scope later
  ],
  λ h.
      let own = (contains_iff first got).1 (h first (inl refl)) in
      let others = (has_scopes_iff got rest).1 (λ scope i. h scope (inr i)) in
      ground (arith, own, others),
)

module _ (net : Net) where
  -- an entry that is a network contains the address, and any other entry is the address
  abbrev pub Admits : String → String → Type 0
  Admits parsed v =
      ((has_slash v ≡ true)
        × (range : String → Bool) × (net.parse_cidr v ≡ some range)
        × (range parsed ≡ true))
      ⊎ ((has_slash v ≡ false) × (net.parse_ip v ≡ some parsed))

  admits_iff : (parsed v : String) → (admits net parsed v ≡ true) ↔ Admits parsed v
  unfolding admits
  admits_iff parsed v = (
    λ h. elim (Bool-cases (has_slash v)) [
      | inl network ↦ elim (Option-cases (net.parse_cidr v)) [
        | inl bad ↦ absurd (ground (arith, network, bad))
        | inr (range, good) ↦ inl (network, range, good, ground (arith, network, good))
      ]
      | inr plain ↦ elim (Option-cases (net.parse_ip v)) [
        | inl bad ↦ absurd (ground (arith, plain, bad))
        | inr (other, good) ↦ inr (plain, ground (arith, plain, good, eq_iff parsed other))
      ]
    ],
    λ h. elim h [
      | inl (network, range, good, inside) ↦ ground (arith, network, good, inside)
      | inr (plain, good) ↦ ground (arith, plain, good, eq_refl parsed)
    ],
  )

  any_admits_iff :
      (parsed : String) (allowed : List String)
      → (any_admits net parsed allowed ≡ true) ↔ ((v : String) × In v allowed × Admits parsed v)
  unfolding any_admits
  any_admits_iff parsed nil = (λ h. absurd (ground (arith)), λ (v, i, a). elim i [ ])
  any_admits_iff parsed (cons v rest) = (
    λ h. elim (Bool-cases (admits net parsed v)) [
      | inl fits ↦ (v, inl refl, (admits_iff parsed v).0 fits)
      | inr fails ↦
          let (u, i, a) = (any_admits_iff parsed rest).0 (ground (arith, fails)) in (u, inr i, a)
    ],
    λ (u, i, a). elim i [
      | inl e ↦
          let fits = (admits_iff parsed v).1 (subst (Admits parsed) e a) in ground (arith, fits)
      | inr later ↦ ground (arith, (any_admits_iff parsed rest).1 (u, later, a))
    ],
  )

  -- An address may use a key that lists no address, or if it parses and one entry of the list admits
  -- it.
  abbrev pub MayUse : String → List String → Type 0
  MayUse ip allowed =
      (allowed ≡ nil)
      ⊎ ((parsed v : String) × (net.parse_ip ip ≡ some parsed) × In v allowed × Admits parsed v)

  pub ip_allowed_iff :
      (ip : String) (allowed : List String) → (ip_allowed net ip allowed ≡ true) ↔ MayUse ip allowed
  unfolding ip_allowed
  ip_allowed_iff ip nil = (λ h. inl refl, λ h. refl)
  ip_allowed_iff ip (cons first rest) = elim (Option-cases (net.parse_ip ip)) [
    | inl bad ↦ rw (bad, ip_allowed) (λ h. absurd (ground (arith)), λ h. ground (arith))
    | inr (parsed, good) ↦
        rw (good, ip_allowed)
          (
            λ h.
                let (v, i, a) = (any_admits_iff parsed (cons first rest)).0 h in
                inr (parsed, v, refl, i, a),
            λ h. elim h [
              | inl e ↦ absurd (ground (arith, e))
              | inr (q, v, e, i, a) ↦
                  (any_admits_iff parsed (cons first rest)).1 (v, i, ground (arith, e, a))
            ],
          )
  ]

-- a time that is not past an expiry, where there is one
abbrev pub NotPast : ℕ → Option ℕ → Type 0
NotPast t none = Unit
NotPast t (some expiry) = t ≤ expiry

pub is_expired_iff : (t : ℕ) (expiry : Option ℕ) → (is_expired t expiry ≡ false) ↔ NotPast t expiry
is_expired_iff t none = (λ h. tt, λ h. refl)
is_expired_iff t (some expiry) = (λ h. ground arith, λ h. ground arith)

pub mark-append : (s : String) → cat "ak_" s ≡ "a" ∷ "k" ∷ "_" ∷ s
mark-append s =
    cons-append "a" "k_" s
    ∙ ap (λ t. "a" ∷ t)
        (cons-append "k" "_" s
          ∙ ap (λ t. "k" ∷ t) (cons-append "_" "" s ∙ ap (λ t. "_" ∷ t) (nil-append s)))

has_key_prefix-body :
    (raw_key : String)
    → has_key_prefix raw_key ≡ true
    → (body : String) × (raw_key ≡ cat "ak_" body)
unfolding has_key_prefix
has_key_prefix-body [] h = absurd (ground arith)
has_key_prefix-body (a ∷ []) h = absurd (ground arith)
has_key_prefix-body (a ∷ b ∷ []) h = absurd (ground arith)
has_key_prefix-body (a ∷ b ∷ c ∷ body) h =
    let first : a ≡ "a" = Char-path a "a" (ground arith) in
    let second : b ≡ "k" = Char-path b "k" (ground arith) in
    let third : c ≡ "_" = Char-path c "_" (ground arith) in
    (body, rw (first, second, third) (sym (mark-append body)))

-- a key has the mark exactly if it begins with "ak_"
pub has_key_prefix_iff :
    (raw_key : String)
    → (has_key_prefix raw_key ≡ true) ↔ ((body : String) × (raw_key ≡ cat "ak_" body))
unfolding has_key_prefix
has_key_prefix_iff raw_key = (
  has_key_prefix-body raw_key,
  λ (body, e). subst (λ r. has_key_prefix r ≡ true) (sym (e ∙ mark-append body)) refl,
)

cut-rest :
    (n : ℕ) (s front : String)
    → cut n s ≡ some front
    → (rest : String) × (s ≡ cat front rest) × (byte_len front ≡ n)
unfolding cut byte_len
cut-rest n [] front h = elim (Bool-cases (eqb n 0)) [
  | inl none_of_it ↦
      let same : front ≡ [] = ground (arith, none_of_it) in
      rw same ([], sym (nil-append []), ground (arith, none_of_it))
  | inr more ↦ absurd (ground (arith, more))
]
cut-rest n (c ∷ s) front h = elim (Bool-cases (eqb n 0)) [
  | inl none_of_it ↦
      let same : front ≡ [] = ground (arith, none_of_it) in
      rw same (c ∷ s, sym (nil-append (c ∷ s)), ground (arith, none_of_it))
  | inr more ↦ elim (Option-cases (cut (n - byte_width (code c)) s)) [
    | inl bad ↦ absurd (ground (arith, more, bad))
    | inr (before, good) ↦
        let fits : byte_width (code c) ≤ n = ground (arith, more, good) in
        let same : front ≡ c ∷ before = ground (arith, more, good, fits) in
        let (rest, split, size) = cut-rest (n - byte_width (code c)) s before good in
        rw same
          (rest, ap (λ t. c ∷ t) split ∙ sym (cons-append c before rest), omega (arith, size, fits))
  ]
]

cut-cat : (front rest : String) → cut (byte_len front) (cat front rest) ≡ some front
unfolding cut byte_len
cut-cat [] [] = refl
cut-cat [] (c ∷ rest) = rw nil-append refl
cut-cat (c ∷ front) rest =
    let again = cut-cat front rest in
    let left : byte_width (code c) + byte_len front - byte_width (code c) ≡ byte_len front =
      omega arith in
    let some_bytes : 0 < byte_width (code c) = ground arith in
    rw cons-append (ground (arith, again, left, some_bytes))

-- A cut is a front part of that many bytes.
pub cut_iff :
    (n : ℕ) (s front : String)
    → (cut n s ≡ some front) ↔ ((rest : String) × (s ≡ cat front rest) × (byte_len front ≡ n))
cut_iff n s front = (
  cut-rest n s front,
  λ (rest, split, size).
      subst (λ m. cut m s ≡ some front) size
        (subst (λ t. cut (byte_len front) t ≡ some front) (sym split) (cut-cat front rest)),
)

-- the record that a prefix names is active
pub find_by_prefix_iff :
    (prefix : String) (key : ApiKeyRecord) (s : MemoryApiKeyStore)
    → (find_by_prefix prefix s ≡ ok key) ↔ (
        (id : String) × (get s.by_prefix prefix ≡ some id)
        × (get s.by_id id ≡ some key)
        × (key.is_active ≡ true))
unfolding find_by_prefix
find_by_prefix_iff prefix key s = (
  λ e. elim (Option-cases (get s.by_prefix prefix)) [
    | inl missing ↦ absurd (ground (arith, missing))
    | inr (id, named) ↦ elim (Option-cases (get s.by_id id)) [
      | inl missing ↦ absurd (ground (arith, named, missing))
      | inr (k, has) ↦ (id, named, ground (arith, named, has), ground (arith, named, has))
    ]
  ],
  λ (id, named, has, live). ground (arith, named, has, live),
)

pub byte_len-cat : (a b : String) → byte_len (cat a b) ≡ byte_len a + byte_len b
unfolding byte_len
byte_len-cat [] [] = refl
byte_len-cat [] (c ∷ b) = rw (nil-append (c ∷ b)) (omega arith)
byte_len-cat (c ∷ a) b = rw (cons-append c a b) (omega (arith, byte_len-cat a b))
