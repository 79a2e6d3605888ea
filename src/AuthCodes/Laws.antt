-- ===== src/AuthCodes/Laws.antt =====
-- A code is consumed once, and until it expires.
use awesome_go_auth.Base.{
  ℕ, String, ◌≡◌, eq_refl, arith, ltb, Option-cases, inl, inr, if◌then◌else◌,
}
use awesome_go_auth.Base.Dict.{get, get-put, get-remove}
use awesome_go_auth.Errors.{ok, err, invalid_code}
use awesome_go_auth.AuthCodes.{AuthCode, MemoryAuthCodeStore, prune, save_code, consume_code}

-- After a code was asked for, whatever the answer, it is not given out again.
pub consume_code-consume_code :
    (s : MemoryAuthCodeStore) (code_hash : String) (now later : ℕ)
    → (consume_code later code_hash (consume_code now code_hash s).1).0 ≡ err invalid_code
unfolding consume_code
consume_code-consume_code s code_hash now later = elim (Option-cases (get s.codes code_hash)) [
  | inl absent ↦ ground (arith, absent)
  | inr (code, has) ↦ ground (arith, has, get-remove s.codes code_hash code_hash, eq_refl code_hash)
]

-- A code that was saved is given out, as it is, until it expires, and refused after.
pub consume_code-save_code :
    (s : MemoryAuthCodeStore) (code : AuthCode) (saved now : ℕ)
    → (consume_code now code.code_hash (save_code saved code s).1).0
      ≡ (if ltb code.expires_at now then err invalid_code else ok code)
unfolding consume_code save_code
consume_code-save_code s code saved now =
    let rest = prune saved s.codes.entries s.codes in
    ground (arith, get-put rest code.code_hash code.code_hash code, eq_refl code.code_hash)
