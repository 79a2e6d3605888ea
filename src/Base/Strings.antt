-- ===== src/Base/Strings.antt =====
-- The functions of Go's package strings that the program calls on names and addresses.
-- `unicode.ToLower` is a table of the runtime, and stands here as the argument `lower`.
use Prim.Native.Char.{Char, code}
use Prim.Native.Nat.{ℕ, zero, suc, ◌+◌}
use Prim.Native.String.{String, [], ◌∷◌}
use mathlib.Core.Path.{◌≡◌, refl}
use mathlib.Core.Bool.{Bool, ◌&&◌, ◌||◌}
use text.Mathlib.Text.{◌==◌}
use awesome_go_auth.Base.Tests.{ltb, leb, eqb, if◌then◌else◌}

-- unicode.IsSpace
unfoldable pub is_space : Char → Bool
is_space c =
    let n = code c in
    (leb 9 n && leb n 13)
    || eqb n 32
    || eqb n 0x85
    || eqb n 0xa0
    || eqb n 0x1680
    || (leb 0x2000 n && leb n 0x200a)
    || eqb n 0x2028
    || eqb n 0x2029
    || eqb n 0x202f
    || eqb n 0x205f
    || eqb n 0x3000

trim_left : String → String
trim_left [] = []
trim_left (c ∷ s) = if is_space c then trim_left s else c ∷ s

trim_right : String → String
trim_right [] = []
trim_right (c ∷ s) = let rest = trim_right s in if rest == "" && is_space c then [] else c ∷ rest

-- strings.TrimSpace
unfoldable pub trim_space : String → String
unfolding is_space trim_left trim_right
trim_space s = trim_right (trim_left s)

-- strings.ToLower
unfoldable pub to_lower : (Char → Char) → String → String
to_lower lower [] = []
to_lower lower (c ∷ s) = lower c ∷ to_lower lower s

-- len(s): the bytes of the UTF-8 encoding
abbrev pub byte_width : ℕ → ℕ
byte_width n = if ltb n 128 then 1 else if ltb n 2048 then 2 else if ltb n 65536 then 3 else 4

unfoldable pub byte_len : String → ℕ
byte_len [] = 0
byte_len (c ∷ s) = byte_width (code c) + byte_len s

-- the n-th character
abbrev char_at : String → ℕ → Char
char_at [] n = "0"
char_at (c ∷ s) zero = c
char_at (c ∷ s) (suc n) = char_at s n

-- the decimal digit
abbrev pub digit : ℕ → Char
digit n = char_at "0123456789" n

trims : trim_space " \t a b\n" ≡ "a b"
unfolding trim_space
trims = refl
