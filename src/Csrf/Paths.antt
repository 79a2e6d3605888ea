-- ===== src/Csrf/Paths.antt =====
-- csrf.go: which readings of a path the mount prefix has.
use Prim.Native.String.{[] as no_chars, ◌∷◌ as char_cons, ◌++◌ as cat}
use text.Mathlib.TextLemmas.{nil-append, cons-append}
use awesome_go_auth.Base.{
  String, true, ◌≡◌, ◌≢◌, some, List, ◌∷◌, eq_iff, arith, refl, sym, ap, ◌∙◌,
}
use awesome_go_auth.Csrf.{cut_prefix, at_boundary, occurrences, csrf_relative_paths, trim_slash}

cut_prefix-append : (prefix rest : String) → cut_prefix prefix (cat prefix rest) ≡ some rest
unfolding cut_prefix
cut_prefix-append no_chars rest = rw nil-append refl
cut_prefix-append (char_cons c prefix) rest =
    rw cons-append (ground (arith, cut_prefix-append prefix rest))

-- Under a prefix that is no mere slash, a path that continues the prefix at a boundary has as its
-- first reading what follows the prefix, less one slash at the end, whatever other readings it has.
pub csrf_relative_paths-mount :
    (prefix rest : String)
    → prefix ≢ ""
    → prefix ≢ "/"
    → at_boundary rest ≡ true
    → (later : List String) × (csrf_relative_paths (cat prefix rest) prefix
        ≡ trim_slash rest ∷ later)
unfolding csrf_relative_paths occurrences
csrf_relative_paths-mount no_chars rest named long bounded = absurd (named refl)
csrf_relative_paths-mount (char_cons c prefix) rest named long bounded =
    let whole = cut_prefix-append (char_cons c prefix) rest in
    let opened = cons-append c prefix rest in
    let cut : cut_prefix (char_cons c prefix) (char_cons c (cat prefix rest)) ≡ some rest =
      ap (cut_prefix (char_cons c prefix)) (sym opened) ∙ whole in
    (
      occurrences (char_cons c prefix) (cat prefix rest),
      rw opened (
          ground
            (arith, cut, bounded, eq_iff (char_cons c prefix) "", eq_iff (char_cons c prefix) "/")),
    )
