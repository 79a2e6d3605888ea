-- ===== src/Totp.antt =====
-- totp.go: the time-based codes of the second factor. A counter is the 64-bit pattern that is hashed.
pub mod Window
use Prim.Native.Nat.{zero, suc}
use Prim.Native.Char.{code as code_of}
use Prim.Native.String.{◌∷◌ as char_cons, [] as no_chars, ◌++◌ as cat}
use awesome_go_auth.Base.{
  ℕ, ◌+◌, ◌-◌, ◌*◌, ◌/◌, ◌%◌, ◌^◌, String, Bool, true, false, not, ◌&&◌, ◌||◌, Option, none, some,
  List, [], ◌∷◌, ◌==◌, eqb, leb, if◌then◌else◌, length,
}
use awesome_go_auth.Base.Strings.{byte_len, digit}
use awesome_go_auth.Errors.{◌>>=◌, return, then_run}
use awesome_go_auth.Platform.{Platform}
use awesome_go_auth.Service.{Action, random_token}

-- a[n] of a slice of bytes, where n is in range
abbrev byte_at : List ℕ → ℕ → ℕ
byte_at [] n = 0
byte_at (b ∷ bs) zero = b
byte_at (b ∷ bs) (suc n) = byte_at bs n

-- binary.BigEndian.PutUint64
unfoldable pub big_endian : ℕ → List ℕ
big_endian n =
    n / 2 ^ 56 % 256
    ∷ n / 2 ^ 48 % 256
    ∷ n / 2 ^ 40 % 256
    ∷ n / 2 ^ 32 % 256
    ∷ n / 2 ^ 24 % 256
    ∷ n / 2 ^ 16 % 256
    ∷ n / 2 ^ 8 % 256
    ∷ n % 256
    ∷ []

-- the 31 bits at the offset that the last byte gives
unfoldable pub truncated : List ℕ → ℕ
truncated sum =
    let offset = byte_at sum (length sum - 1) % 16 in
    byte_at sum offset % 128 * 2 ^ 24
    + byte_at sum (offset + 1) % 256 * 2 ^ 16
    + byte_at sum (offset + 2) % 256 * 2 ^ 8
    + byte_at sum (offset + 3) % 256

-- the digits of n before what is done, `width` of them
unfoldable pub spelled : ℕ → ℕ → String → String
spelled zero n done = done
spelled (suc w) n done = spelled w (n / 10) (char_cons (digit (n % 10)) done)

-- fmt.Sprintf("%0*d", width, n), for an n of at most that many digits
unfoldable pub padded : ℕ → ℕ → String
padded width n = spelled width n ""

-- strconv.Atoi, whether it succeeds on a short text: a sign or none, then digits
abbrev is_digit : ℕ → Bool
is_digit n = leb 48 n && leb n 57

unfoldable pub all_digits : String → Bool
all_digits no_chars = true
all_digits (char_cons c s) = is_digit (code_of c) && all_digits s

unfoldable pub is_number : String → Bool
is_number no_chars = false
is_number (char_cons c s) =
    if eqb (code_of c) b'+' || eqb (code_of c) b'-'
    then not (s == "") && all_digits s
    else is_digit (code_of c) && all_digits s

-- ok && generated == code
abbrev pub agrees : Option String → String → Bool
agrees none code = false
agrees (some generated) code = generated == code

-- now.Unix() / 30
abbrev pub time_step : ℕ → ℕ
time_step now = now / 1000000000 / 30

module _ (p : Platform) where
  -- generateTOTPSecret
  unfoldable pub generate_totp_secret : Action String
  generate_totp_secret = do raw ← random_token p 20; return (p.encode32 raw)

  -- generateTOTPCode, of the pattern of a counter
  unfoldable pub generate_totp_code : String → ℕ → Option String
  generate_totp_code secret counter = elim (p.decode32 secret) [
    | none ↦ none
    | some key ↦ some (padded 6 (truncated (p.hmac_sha1 key (big_endian counter)) % 1000000))
  ]

  -- validateTOTPCode: the step before, this one and the next; a time is not before 1970
  unfoldable pub validate_totp_code : String → String → ℕ → Bool
  validate_totp_code secret code now =
      if not (eqb (byte_len code) 6)
      then false
      else if not (is_number code)
      then false
      else agrees (generate_totp_code secret ((time_step now + (2 ^ 64 - 1)) % 2 ^ 64)) code
        || agrees (generate_totp_code secret (time_step now % 2 ^ 64)) code
        || agrees (generate_totp_code secret ((time_step now + 1) % 2 ^ 64)) code
