-- ===== src/UserStore/Indexes.antt =====
-- One index of MemoryUserStore against the table of users: what an entry promises, and how the
-- promise survives each pattern of writes that the methods make.
use awesome_go_auth.Base.{
  String, ◌≡◌, ◌≢◌, none, some, ◌==◌, eq_iff, arith, if◌then◌else◌, Bool-cases, inl, inr,
}
use awesome_go_auth.Base.Dict.{Dict, get, put, remove, get-put, get-remove}
use awesome_go_auth.Models.{User}
use awesome_go_auth.UserStore.{drop_hash}

-- Whoever an entry of the index names has the key in his field. The empty key means "no credential".
abbrev pub Indexes : (User → String) → Dict String → Dict User → Type 0
Indexes field index users =
    (key id : String)
    → key ≢ ""
    → get index key ≡ some id
    → (u : User) × (get users id ≡ some u) × (field u ≡ key)

module _ (field : User → String) (index : Dict String) (users : Dict User) where
  pub get-drop_hash :
      (hash key : String)
      → key ≢ ""
      → get (drop_hash index hash) key ≡ (if hash == key then none else get index key)
  unfolding drop_hash
  get-drop_hash hash key ne =
      ground (arith, get-remove index hash key, eq_iff hash "", eq_iff hash key)

  module _ (indexed : Indexes field index users) (id : String) (u' : User) where
    pub Indexes-store :
        (u : User)
        → get users id ≡ some u
        → field u' ≡ field u
        → Indexes field index (put users id u')
    Indexes-store u found same key j ne e =
        let (v, has, keyed) = indexed key j ne e in
        (
          if id == j then u' else v,
          ground (arith, get-put users id j u', eq_iff id j),
          ground (arith, eq_iff id j),
        )

    pub Indexes-drop :
        (u : User)
        → get users id ≡ some u
        → Indexes field (drop_hash index (field u)) (put users id u')
    Indexes-drop u found key j ne e =
        let kept = get-drop_hash (field u) key ne in
        let (v, has, keyed) = indexed key j ne (ground (arith, kept)) in
        (v, ground (arith, kept, get-put users id j u', eq_iff id j, eq_iff (field u) key), keyed)

    pub Indexes-point :
        (u : User) (hash : String)
        → get users id ≡ some u
        → field u' ≡ hash
        → Indexes field (put (drop_hash index (field u)) hash id) (put users id u')
    Indexes-point u hash found same key j ne e =
        let kept = get-drop_hash (field u) key ne in
        let written = get-put (drop_hash index (field u)) hash key id in
        elim (Bool-cases (hash == key)) [
          | inl now ↦ (
            u',
            ground (arith, written, get-put users id j u', eq_iff id j),
            ground (arith, eq_iff hash key),
          )
          | inr before ↦
              let (v, has, keyed) = indexed key j ne (ground (arith, written, kept)) in
              (
                v,
                ground (
                  arith,
                  written,
                  kept,
                  get-put users id j u',
                  eq_iff id j,
                  eq_iff (field u) key,
                ),
                keyed,
              )
        ]

    pub Indexes-insert : get users id ≡ none → Indexes field index (put users id u')
    Indexes-insert fresh key j ne e =
        let (v, has, keyed) = indexed key j ne e in
        (v, ground (arith, get-put users id j u', eq_iff id j), keyed)

    pub Indexes-enter :
        (hash : String)
        → get users id ≡ none
        → field u' ≡ hash
        → Indexes field (put index hash id) (put users id u')
    Indexes-enter hash fresh same key j ne e =
        let written = get-put index hash key id in
        elim (Bool-cases (hash == key)) [
          | inl now ↦ (
            u',
            ground (arith, written, get-put users id j u', eq_iff id j),
            ground (arith, eq_iff hash key),
          )
          | inr before ↦
              let (v, has, keyed) = indexed key j ne (ground (arith, written)) in
              (v, ground (arith, get-put users id j u', eq_iff id j), keyed)
        ]

  pub Indexes-delete :
      (id : String) (u : User)
      → Indexes field index users
      → get users id ≡ some u
      → Indexes field (drop_hash index (field u)) (remove users id)
  Indexes-delete id u indexed found key j ne e =
      let kept = get-drop_hash (field u) key ne in
      let (v, has, keyed) = indexed key j ne (ground (arith, kept)) in
      (v, ground (arith, kept, get-remove users id j, eq_iff id j, eq_iff (field u) key), keyed)
