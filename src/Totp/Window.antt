-- ===== src/Totp/Window.antt =====
-- Which codes are accepted, and for how long.
use Prim.Native.Nat.{zero, suc}
use Prim.Native.Char.{code as code_of}
use Prim.Native.String.{[], ◌∷◌}
use awesome_go_auth.Base.{
  ℕ, ◌+◌, ◌-◌, ◌*◌, ◌/◌, ◌%◌, ◌^◌, ◌<◌, ◌≤◌, String, true, some, ◌≡◌, ◌↔◌, ◌⊎◌, inl, inr, refl,
  arith, eq_iff, eq_refl, Option-cases, Bool-cases, subst,
}
use awesome_go_auth.Base.Strings.{byte_len, digit}
use awesome_go_auth.Platform.{Platform}
use awesome_go_auth.Totp.{
  agrees, spelled, padded, is_number, all_digits, truncated, big_endian, generate_totp_code,
  validate_totp_code, time_step,
}

digit_code : (d : ℕ) → d < 10 → code_of (digit d) ≡ 48 + d
digit_code zero h = refl
digit_code (suc zero) h = refl
digit_code (suc (suc zero)) h = refl
digit_code (suc (suc (suc zero))) h = refl
digit_code (suc (suc (suc (suc zero)))) h = refl
digit_code (suc (suc (suc (suc (suc zero))))) h = refl
digit_code (suc (suc (suc (suc (suc (suc zero)))))) h = refl
digit_code (suc (suc (suc (suc (suc (suc (suc zero))))))) h = refl
digit_code (suc (suc (suc (suc (suc (suc (suc (suc zero)))))))) h = refl
digit_code (suc (suc (suc (suc (suc (suc (suc (suc (suc zero))))))))) h = refl
digit_code (suc (suc (suc (suc (suc (suc (suc (suc (suc (suc d)))))))))) h = absurd (omega arith)

last_digit : (n : ℕ) → code_of (digit (n % 10)) ≡ 48 + n % 10
last_digit n = digit_code (n % 10) (omega arith)

spelled_len : (w n : ℕ) (done : String) → byte_len (spelled w n done) ≡ w + byte_len done
unfolding spelled byte_len
spelled_len zero n done = omega arith
spelled_len (suc w) n done =
    ground (arith, last_digit n, spelled_len w (n / 10) (digit (n % 10) ∷ done))

spelled_digits :
    (w n : ℕ) (done : String) → all_digits done ≡ true → all_digits (spelled w n done) ≡ true
unfolding spelled all_digits
spelled_digits zero n done h = h
spelled_digits (suc w) n done h =
    spelled_digits w (n / 10) (digit (n % 10) ∷ done) (ground (arith, last_digit n, h))

digits_read : (s : String) → all_digits s ≡ true → 0 < byte_len s → is_number s ≡ true
unfolding all_digits is_number byte_len
digits_read [] h k = absurd (ground (arith))
digits_read (c ∷ s) h k = ground (arith)

-- a code has six bytes and reads as a number
padded_form : (n : ℕ) → (byte_len (padded 6 n) ≡ 6) × (is_number (padded 6 n) ≡ true)
unfolding padded byte_len all_digits
padded_form n =
    let six = spelled_len 6 n "" in
    (
      ground (arith, six),
      digits_read (spelled 6 n "") (spelled_digits 6 n "" refl) (ground (arith, six)),
    )

module _ (p : Platform) (secret : String) where
  generated_form :
      (counter : ℕ) (code : String)
      → generate_totp_code p secret counter ≡ some code
      → (byte_len code ≡ 6) × (is_number code ≡ true)
  unfolding generate_totp_code
  generated_form counter code e = elim (Option-cases (p.decode32 secret)) [
    | inl bad ↦ absurd (ground (arith, bad))
    | inr (key, good) ↦
        let n = truncated (p.hmac_sha1 key (big_endian counter)) % 1000000 in
        let same : padded 6 n ≡ code = ground (arith, good) in
        subst (λ s. (byte_len s ≡ 6) × (is_number s ≡ true)) same (padded_form n)
  ]

  agreed :
      (code : String) (counter : ℕ)
      → agrees (generate_totp_code p secret counter) code ≡ true
      → generate_totp_code p secret counter ≡ some code
  agreed code counter e = elim (Option-cases (generate_totp_code p secret counter)) [
    | inl none_made ↦ absurd (ground (arith, none_made))
    | inr (generated, made) ↦ ground (arith, made, eq_iff generated code)
  ]

  module _ (code : String) (now : ℕ) where
    -- A code is accepted exactly if it is the one of the secret at the time's step or at one of its
    -- two neighbours, as patterns of 64 bits.
    pub validate_totp_code_iff : (validate_totp_code p secret code now ≡ true) ↔ (
        (counter : ℕ) × ((counter ≡ (time_step now + (2 ^ 64 - 1)) % 2 ^ 64)
          ⊎ (counter ≡ time_step now % 2 ^ 64)
          ⊎ (counter ≡ (time_step now + 1) % 2 ^ 64))
        × (generate_totp_code p secret counter ≡ some code))
    unfolding validate_totp_code
    validate_totp_code_iff = (
      λ e. elim (Bool-cases (agrees (generate_totp_code p secret before) code)) [
        | inl yes_before ↦ (before, inl refl, agreed code before yes_before)
        | inr no_before ↦ elim (Bool-cases (agrees (generate_totp_code p secret at) code)) [
          | inl yes_at ↦ (at, inr (inl refl), agreed code at yes_at)
          | inr no_at ↦
              (after, inr (inr refl), agreed code after (ground (arith, no_before, no_at)))
        ]
      ],
      λ (counter, near, made).
          let (six, number) = generated_form counter code made in
          ground (arith, six, number, eq_refl code, near, made),
    )
      where
        before : ℕ
        before = (time_step now + (2 ^ 64 - 1)) % 2 ^ 64

        at : ℕ
        at = time_step now % 2 ^ 64

        after : ℕ
        after = (time_step now + 1) % 2 ^ 64

  -- A code that was made for a secret at a time is accepted for thirty seconds before and after it.
  pub validate_totp_code-generate_totp_code :
      (code : String) (made_at now : ℕ)
      → made_at < 2 ^ 63
      → made_at ≤ now + 30 * 1000000000
      → now ≤ made_at + 30 * 1000000000
      → generate_totp_code p secret (time_step made_at) ≡ some code
      → validate_totp_code p secret code now ≡ true
  validate_totp_code-generate_totp_code code made_at now bound behind ahead made =
      (validate_totp_code_iff code now).1 (time_step made_at, near, made)
    where
      near :
          (time_step made_at ≡ (time_step now + (2 ^ 64 - 1)) % 2 ^ 64)
          ⊎ (time_step made_at ≡ time_step now % 2 ^ 64)
          ⊎ (time_step made_at ≡ (time_step now + 1) % 2 ^ 64)
      near = ground (arith)
