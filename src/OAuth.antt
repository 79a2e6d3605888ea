-- ===== src/OAuth.antt =====
-- oauth_provisioning.go: which identities of a provider a deployment admits, what a new account takes
-- from them, and what happens where an account holds the address already.
pub mod Domains
pub mod Callback
use Prim.Native.Char.{Char, code}
use Prim.Native.String.{[] as no_chars, ◌∷◌ as char_cons, compare}
use text.Mathlib.Text.{is_lt}
use awesome_go_auth.Base.{
  ℕ, String, Bool, true, false, not, ◌&&◌, ◌||◌, Option, none, some, List, [], ◌∷◌, ◌++◌, ◌==◌, eqb,
  if◌then◌else◌, sort_by,
}
use awesome_go_auth.Base.Strings.{trim_space, to_lower}
use awesome_go_auth.Base.Dict.{Dict}
use awesome_go_auth.Errors.{
  Error, Result, ok, err, external, wrapped, oauth_email_not_verified,
  oauth_email_domain_not_allowed,
}
use awesome_go_auth.Models.{Any, User}

-- oauth.go
pub record OAuthUserInfo : Type 0 where
  pub provider_id : String
  pub provider : String
  pub email : String
  pub name : String
  pub avatar_url : String
  pub email_verified : Option Bool
  pub raw : Dict Any

pub record OAuthProvisioning : Type 0 where
  pub auto_create : Bool
  pub allowed_email_domains : List String
  pub require_verified_email : Bool
  pub on_email_match : String
  -- the entries, in the order of their keys
  pub field_map : List (String × String)

-- DefaultOAuthProvisioning
unfoldable pub default_oauth_provisioning : OAuthProvisioning
default_oauth_provisioning = record {
  auto_create = true;
  allowed_email_domains = [];
  require_verified_email = false;
  on_email_match = "link";
  field_map = [];
}

unfoldable pub normalized : OAuthProvisioning → OAuthProvisioning
normalized policy =
    if policy.on_email_match == "" then record policy { on_email_match = "link" } else policy

-- strings.TrimPrefix(s, "@")
unfoldable pub trim_at : String → String
trim_at no_chars = ""
trim_at (char_cons c s) = if eqb (code c) b'@' then s else char_cons c s

-- email[strings.LastIndex(email, "@")+1:], where there is one
unfoldable pub after_last_at : String → Option String
after_last_at no_chars = none
after_last_at (char_cons c s) = elim (after_last_at s) [
  | some rest ↦ some rest
  | none ↦ if eqb (code c) b'@' then some s else none
]

module _ (lower : Char → Char) where
  unfoldable pub normalize_email_domain : String → String
  normalize_email_domain domain = trim_at (to_lower lower (trim_space domain))

  -- the loop over the admitted domains
  unfoldable pub domain_among : String → List String → Bool
  domain_among got [] = false
  domain_among got (domain ∷ rest) =
      let this = normalize_email_domain domain in
      (not (this == "") && this == got) || domain_among got rest

  unfoldable pub email_domain_allowed : String → List String → Bool
  email_domain_allowed email [] = true
  email_domain_allowed email (d ∷ ds) = elim (after_last_at email) [
    | none ↦ false
    | some rest ↦
        if rest == "" then false else domain_among (to_lower lower (trim_space rest)) (d ∷ ds)
  ]

  unfoldable pub admit : OAuthProvisioning → OAuthUserInfo → Result (Unit {0})
  admit policy info =
      let unverified : Bool = elim info.email_verified [
        | none ↦ true
        | some verified ↦ not verified
      ] in
      if policy.require_verified_email && unverified
      then err oauth_email_not_verified
      else if not (email_domain_allowed info.email policy.allowed_email_domains)
      then err oauth_email_domain_not_allowed
      else ok tt

-- emailVerifiedOnCreate
unfoldable pub email_verified_on_create : OAuthUserInfo → Bool
email_verified_on_create info = elim info.email_verified [ none ↦ true | some verified ↦ verified ]

-- userFieldMapTargets
unfoldable pub set_target : String → Option (String → User → User)
set_target field =
    if field == "firstName"
    then some (λ v u. record u { first_name = v })
    else if field == "lastName"
    then some (λ v u. record u { last_name = v })
    else if field == "phoneNumber"
    then some (λ v u. record u { phone_number = v })
    else if field == "role"
    then some (λ v u. record u { role = v })
    else none

pub record UserFieldSetter : Type 0 where
  pub field : String
  pub expr : Dict Any → Option Any
  pub set : String → User → User

-- A compiler of expressions over a provider's profile and the rendering of what they find, which is
-- oauth_profile_map.go.
pub record ProfileMap : Type 0 where
  pub compile_profile_expr : String → Result (Dict Any → Option Any)
  pub profile_string : Any → Result String

module _ (q : ProfileMap) where
  -- the loop over the sorted fields
  unfoldable pub compile_user_field_map : List (String × String) → Result (List UserFieldSetter)
  compile_user_field_map [] = ok []
  compile_user_field_map ((field, source) ∷ rest) =
      let later = compile_user_field_map rest in
      elim (set_target field) [
        | none ↦ err (external "auth: oauth provisioning: field map: unknown target")
        | some set ↦ elim (q.compile_profile_expr source) [
          | err e ↦ err (wrapped "auth: oauth provisioning: field map" e)
          | ok expr ↦ elim later [
            | err e ↦ err e
            | ok setters ↦ ok (record { field = field; expr = expr; set = set } ∷ setters)
          ]
        ]
      ]

  unfoldable pub apply_user_field_map : List UserFieldSetter → Dict Any → User → Result User
  apply_user_field_map [] raw user = ok user
  apply_user_field_map (setter ∷ rest) raw user = elim (setter.expr raw) [
    | none ↦ apply_user_field_map rest raw user
    | some value ↦ elim (q.profile_string value) [
      | err e ↦ err (wrapped "auth: oauth provisioning: field map" e)
      | ok v ↦ apply_user_field_map rest raw (setter.set v user)
    ]
  ]

  -- Validate
  unfoldable pub validate : (Char → Char) → OAuthProvisioning → Result (Unit {0})
  validate lower policy =
      let mode = policy.on_email_match in
      if not (mode == "" || mode == "link" || mode == "conflict" || mode == "reject")
      then err (external "auth: oauth provisioning: unknown OnEmailMatch")
      else if empty_entry policy.allowed_email_domains
      then err (external "auth: oauth provisioning: empty entry in AllowedEmailDomains")
      else elim (compile_user_field_map policy.field_map) [ err e ↦ err e | ok _ ↦ ok tt ]
    where
      empty_entry : List String → Bool
      empty_entry [] = false
      empty_entry (d ∷ ds) = normalize_email_domain lower d == "" || empty_entry ds
