-- ===== src/Examples/Lawful.antt =====
-- A platform that has every property of `IsLawful`: an escaping codec for base64 and for JSON, the
-- identity for the hashes, and a counter for the random source.
use Prim.Native.Nat.{zero, suc}
use Prim.Native.Char.{Char, code}
use Prim.Native.String.{[], ◌∷◌}
use text.Mathlib.TextEquality.{Char-path}
use awesome_go_auth.Base.{
  ℕ, String, ◌≡◌, refl, sym, ap, Option, none, some, ◌==◌, eqb, arith, if◌then◌else◌, Bool-cases,
  inl, inr, eq_refl, List, ◌++◌, drop, ◌-◌, leb, In, ◌∙◌,
}
use awesome_go_auth.Base.Dict.{Dict, get}
use awesome_go_auth.Models.{Any, str, int}
use awesome_go_auth.Platform.{Platform, TokenClaims, NoDot, Carries, IsLawful, claim_names}

abbrev prefixed : Char → Option String → Option String
prefixed c none = none
prefixed c (some s) = some (c ∷ s)

-- '.' is written "-d", and every other character after a '+'
encode : String → String
encode [] = []
encode (c ∷ s) = if eqb (code c) b'.' then "-" ∷ "d" ∷ encode s else "+" ∷ c ∷ encode s

decode : String → Option String
decode [] = some []
decode (t ∷ []) = none
decode (t ∷ c ∷ s) =
    let rest = decode s in if eqb (code t) b'-' then prefixed "." rest else prefixed c rest

decode-encode : (s : String) → decode (encode s) ≡ some s
unfolding decode encode
decode-encode [] = refl
decode-encode (c ∷ s) = elim (Bool-cases (eqb (code c) b'.')) [
  | inl dot ↦
      let same : c ≡ "." = Char-path c "." (ground (arith)) in
      rw (dot, decode-encode s) (ap (λ d. some (d ∷ s)) (sym same))
  | inr other ↦ rw (other, decode-encode s) refl
]

encode_dot : (s : String) → NoDot (encode s)
unfolding encode
encode_dot [] = tt
encode_dot (c ∷ s) = elim (Bool-cases (eqb (code c) b'.')) [
  | inl dot ↦ rw dot (ground (arith), (ground (arith), encode_dot s))
  | inr other ↦ rw other (ground (arith), (ground (arith), encode_dot s))
]

-- A text, and a number as so many characters, each closed by a ';', before what follows.
write_text : String → String → String
write_text [] rest = ";" ∷ rest
write_text (c ∷ s) rest = "+" ∷ c ∷ write_text s rest

write_number : ℕ → String → String
write_number zero rest = ";" ∷ rest
write_number (suc n) rest = "+" ∷ write_number n rest

read_text : String → String × String
read_text [] = ("", "")
read_text (t ∷ []) = ("", "")
read_text (t ∷ c ∷ s) =
    let (more, rest) = read_text s in if eqb (code t) b';' then ("", c ∷ s) else (c ∷ more, rest)

read_number : String → ℕ × String
read_number [] = (0, "")
read_number (t ∷ s) =
    let (n, rest) = read_number s in if eqb (code t) b';' then (0, s) else (suc n, rest)

read-write_number : (n : ℕ) (rest : String) → read_number (write_number n rest) ≡ (n, rest)
unfolding read_number write_number
read-write_number zero rest = refl
read-write_number (suc n) rest = rw (read-write_number n rest) refl

-- nonempty, so that a text is always followed by something
read-write_text :
    (s : String) (c : Char) (rest : String) → read_text (write_text s (c ∷ rest)) ≡ (s, c ∷ rest)
unfolding read_text write_text
read-write_text [] c rest = refl
read-write_text (d ∷ s) c rest = rw (read-write_text s c rest) refl

-- the claims, in a fixed order: the numbers last
write_claims : TokenClaims → String
write_claims c =
    "c"
    ∷ write_text c.sub (
        " "
        ∷ write_text c.sid (
            " "
            ∷ write_text c.tid (
                " "
                ∷ write_text c.jti (
                    " "
                    ∷ write_text c.typ (
                        " "
                        ∷ write_text c.iss (" " ∷ write_number c.iat (write_number c.exp "")))))))

abbrev tail : String → String
tail [] = []
tail (c ∷ s) = s

read_claims : String → Option TokenClaims
unfolding read_text read_number
read_claims [] = none
read_claims (c ∷ s) =
    let (sub, s1) = read_text s in
    let (sid, s2) = read_text (tail s1) in
    let (tid, s3) = read_text (tail s2) in
    let (jti, s4) = read_text (tail s3) in
    let (typ, s5) = read_text (tail s4) in
    let (iss, s6) = read_text (tail s5) in
    let (iat, s7) = read_number (tail s6) in
    let (exp, _) = read_number s7 in
    some (record {
      sub = sub;
      sid = sid;
      tid = tid;
      jti = jti;
      typ = typ;
      iss = iss;
      iat = iat;
      exp = exp;
    })

read-write_claims : (c : TokenClaims) → read_claims (write_claims c) ≡ some c
unfolding read_claims write_claims
read-write_claims c = simp (read-write_text, read-write_number)

abbrev text_of : Option Any → Option String
text_of (some (str s)) = some s
text_of _ = none

abbrev number_of : Option Any → Option ℕ
number_of (some (int n)) = some n
number_of _ = none

abbrev and_then : {A B : Type 0} → Option A → (A → Option B) → Option B
and_then none f = none
and_then (some a) f = f a

-- the claims of a map that has them all
claims_of : Dict Any → Option TokenClaims
claims_of d = and_then (text_of (get d "sub")) λ sub. and_then (text_of (get d "sid")) λ sid.
    and_then (text_of (get d "tid")) λ tid. and_then (text_of (get d "jti")) λ jti.
      and_then (text_of (get d "typ")) λ typ. and_then (text_of (get d "iss")) λ iss.
        and_then (number_of (get d "iat")) λ iat. and_then (number_of (get d "exp")) λ exp.
          some (record {
            sub = sub;
            sid = sid;
            tid = tid;
            jti = jti;
            typ = typ;
            iss = iss;
            iat = iat;
            exp = exp;
          })

claims_of_lem : (d : Dict Any) (c : TokenClaims) → Carries d c → claims_of d ≡ some c
unfolding claims_of
claims_of_lem d c h = ground (arith, h.sub, h.sid, h.tid, h.jti, h.typ, h.iss, h.iat, h.exp)

abbrev pub copies : ℕ → String
copies zero = []
copies (suc n) = "1" ∷ copies n

-- the last four of the message's eight bytes, over and over
abbrev twenty : String → List ℕ → List ℕ
twenty key message = let four = drop 4 message in four ++ four ++ four ++ four ++ four

-- the character at a place of a text, or another
abbrev nth : ℕ → String → Char → Char
nth n [] other = other
nth zero (c ∷ s) other = c
nth (suc n) (c ∷ s) other = nth n s other

-- the small letter of a capital letter of ASCII
abbrev ascii_lower : Char → Char
ascii_lower c = if leb 65 (code c) then nth (code c - 65) "abcdefghijklmnopqrstuvwxyz" c else c

-- a text in small letters, for the ASCII letters
ascii_fold : String → String
ascii_fold [] = []
ascii_fold (c ∷ s) = ascii_lower c ∷ ascii_fold s

unfoldable pub toy : Platform
unfolding encode decode read_claims write_claims claims_of write_text write_number ascii_fold
toy = record {
  lower = λ c. c;
  rand_read = λ n len. some (copies n);
  rand_int = λ n bound. some 0;
  hex = λ s. s;
  encode64 = encode;
  decode64 = decode;
  encode32 = λ s. s;
  decode32 = λ s. some s;
  hmac_sha1 = λ key message. twenty key message;
  sha256 = λ s. s;
  hmac_sha256 = λ secret s. s;
  bcrypt = λ cost n password. some password;
  bcrypt_matches = λ hash password. hash == password;
  marshal_header = λ alg typ. alg;
  header_alg = λ s. some s;
  marshal_claims = λ d. and_then (claims_of d) (λ c. some (write_claims c));
  fold = ascii_fold;
  unmarshal_claims = read_claims;
}

-- the names of the claims are small letters
folded_claim : (name : String) → In name claim_names → toy.fold name ≡ name
unfolding toy ascii_fold
folded_claim name (inl e) = rw e refl
folded_claim name (inr (inl e)) = rw e refl
folded_claim name (inr (inr (inl e))) = rw e refl
folded_claim name (inr (inr (inr (inl e)))) = rw e refl
folded_claim name (inr (inr (inr (inr (inl e))))) = rw e refl
folded_claim name (inr (inr (inr (inr (inr (inl e)))))) = rw e refl
folded_claim name (inr (inr (inr (inr (inr (inr (inl e))))))) = rw e refl
folded_claim name (inr (inr (inr (inr (inr (inr (inr (inl e)))))))) = rw e refl
folded_claim name (inr (inr (inr (inr (inr (inr (inr (inr none_left)))))))) = elim none_left [ ]

pub toy-IsLawful : IsLawful toy
unfolding toy decode
toy-IsLawful = record {
  decode-encode = decode-encode;
  decode32-encode32 = λ s. refl;
  encode_dot = encode_dot;
  fold-claim = λ a b i j e. sym (folded_claim a i) ∙ e ∙ folded_claim b j;
  header_alg-marshal = λ alg typ. refl;
  unmarshal-marshal = λ d bytes c made plain begun ends carries.
      ground (arith, claims_of_lem d c carries, read-write_claims c);
  bcrypt-matches = λ cost n password hash made. ground (arith, eq_refl password);
}
