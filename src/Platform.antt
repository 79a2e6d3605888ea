-- ===== src/Platform.antt =====
-- What the program calls outside the repository: the random source, bcrypt, the hashes and codecs of
-- Go's runtime. Each is an operation of `Platform`; `IsLawful` states the documented behaviour that
-- a theorem may assume.
use Prim.Native.Char.{Char, code}
use Prim.Native.String.{[] as no_chars, ◌∷◌ as char_cons}
use awesome_go_auth.Base.{
  ℕ, ◌<◌, ◌^◌, String, Bool, true, not, ◌&&◌, ◌||◌, ◌≡◌, ◌≢◌, ◌==◌, Option, some, List, [], ◌∷◌, In,
}
use awesome_go_auth.Base.Dict.{Dict, get}
use awesome_go_auth.Models.{Any, str, int}

-- token.go, tokenClaims: what a verifier reads of a payload. Times are seconds.
pub record TokenClaims : Type 0 where
  pub sub : String
  pub sid : String
  pub tid : String
  pub jti : String
  pub typ : String
  pub iss : String
  pub iat : ℕ
  pub exp : ℕ

pub record Platform : Type 0 where
  -- unicode.ToLower
  pub lower : Char → Char
  -- rand.Read: the bytes of the n-th draw, of a length; `none` is an error of the source
  pub rand_read : ℕ → ℕ → Option String
  -- rand.Int: the n-th draw, below a bound
  pub rand_int : ℕ → ℕ → Option ℕ
  -- hex.EncodeToString, base64.RawURLEncoding
  pub hex : String → String
  pub encode64 : String → String
  pub decode64 : String → Option String
  -- sha256.Sum256, hmac.New(sha256.New, secret)
  pub sha256 : String → String
  pub hmac_sha256 : String → String → String
  -- base32 without padding, and hmac.New(sha1.New, key) of a message, by bytes
  pub encode32 : String → String
  pub decode32 : String → Option String
  pub hmac_sha1 : String → List ℕ → List ℕ
  -- bcrypt.GenerateFromPassword, with the draw that salts it, and CompareHashAndPassword
  pub bcrypt : ℕ → ℕ → String → Option String
  pub bcrypt_matches : String → String → Bool
  -- json.Marshal of a JOSE header and of a claims map, and what Unmarshal reads back
  pub marshal_header : String → String → String
  pub header_alg : String → Option String
  pub marshal_claims : Dict Any → Option String
  -- the folding of names under which encoding/json compares a member with a field
  pub fold : String → String
  pub unmarshal_claims : String → Option TokenClaims

abbrev pub NoDot : String → Type 0
NoDot no_chars = Unit
NoDot (char_cons c s) = (code c ≢ b'.') × NoDot s

-- The seven claims that a token is given last, and its subject, as a map has them.
pub record Carries (d : Dict Any) (c : TokenClaims) : Type 0 where
  pub sub : get d "sub" ≡ some (str c.sub)
  pub sid : get d "sid" ≡ some (str c.sid)
  pub tid : get d "tid" ≡ some (str c.tid)
  pub jti : get d "jti" ≡ some (str c.jti)
  pub typ : get d "typ" ≡ some (str c.typ)
  pub iss : get d "iss" ≡ some (str c.iss)
  pub iat : get d "iat" ≡ some (int c.iat)
  pub exp : get d "exp" ≡ some (int c.exp)

-- The names of the claims that a verifier reads.
abbrev pub claim_names : List String
claim_names = "sub" ∷ "sid" ∷ "tid" ∷ "jti" ∷ "typ" ∷ "iss" ∷ "iat" ∷ "exp" ∷ []

-- a member's name is one of the names, or folds like none of them
unfoldable pub plain_name : (String → String) → String → List String → Bool
plain_name fold key [] = true
plain_name fold key (name ∷ names) =
    (not (fold key == fold name) || key == name) && plain_name fold key names

-- No member is read as a claim whose name it does not have: "Exp" is such a member.
unfoldable pub plain_claims : (String → String) → List (String × Any) → Bool
plain_claims fold [] = true
plain_claims fold ((key, _) ∷ members) =
    plain_name fold key claim_names && plain_claims fold members

pub record IsLawful (p : Platform) : Type 0 where
  pub decode-encode : (s : String) → p.decode64 (p.encode64 s) ≡ some s
  pub decode32-encode32 : (s : String) → p.decode32 (p.encode32 s) ≡ some s
  pub encode_dot : (s : String) → NoDot (p.encode64 s)
  pub header_alg-marshal : (alg typ : String) → p.header_alg (p.marshal_header alg typ) ≡ some alg
  -- the names of the claims differ by more than case
  pub fold-claim :
      (a b : String) → In a claim_names → In b claim_names → p.fold a ≡ p.fold b → a ≡ b
  -- JSON carries a text and a whole number of 64 bits unchanged, and Unmarshal reads a claim from the
  -- member of its name where no other member's name folds to it.
  pub unmarshal-marshal :
      (d : Dict Any) (bytes : String) (c : TokenClaims)
      → p.marshal_claims d ≡ some bytes
      → plain_claims p.fold d.entries ≡ true
      → c.iat < 2 ^ 63
      → c.exp < 2 ^ 63
      → Carries d c
      → p.unmarshal_claims bytes ≡ some c
  pub bcrypt-matches :
      (cost draw : ℕ) (password hash : String)
      → p.bcrypt cost draw password ≡ some hash
      → p.bcrypt_matches hash password ≡ true
