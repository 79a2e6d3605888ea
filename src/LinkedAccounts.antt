-- ===== src/LinkedAccounts.antt =====
-- oauth.go: MemoryLinkedAccounts, the accounts of users at providers, by id, by provider and by user.
pub mod Laws
use mathlib.Core.Option.{get_or}
use awesome_go_auth.Base.{
  ℕ, String, Option, none, some, List, [], ◌∷◌, ◌++◌, ◌==◌, not, if◌then◌else◌, keep_if,
}
use awesome_go_auth.Base.Dict.{Dict, empty, get, put, remove}
use awesome_go_auth.Errors.{Result, ok, err, M, external}

pub record OAuthLinkedAccount : Type 0 where
  pub id : String
  pub user_id : String
  pub provider : String
  pub provider_id : String
  pub email : String
  pub name : String
  pub picture : String
  pub created_at : ℕ

pub record MemoryLinkedAccounts : Type 0 where
  pub by_id : Dict OAuthLinkedAccount
  pub by_prv : Dict (Dict OAuthLinkedAccount)
  pub by_usr : Dict (List OAuthLinkedAccount)

unfoldable pub new_memory_linked_accounts : MemoryLinkedAccounts
new_memory_linked_accounts = record { by_id = empty; by_prv = empty; by_usr = empty }

-- the first link of the id is replaced, or the link comes last
unfoldable pub replace_or_append :
    OAuthLinkedAccount → List OAuthLinkedAccount → List OAuthLinkedAccount
replace_or_append link [] = link ∷ []
replace_or_append link (l ∷ ls) =
    if l.id == link.id then link ∷ ls else l ∷ replace_or_append link ls

unfoldable pub save_link : OAuthLinkedAccount → M MemoryLinkedAccounts (Unit {0})
save_link link s = (
  ok tt,
  record {
    by_id = put s.by_id link.id link;
    by_prv =
        put s.by_prv link.provider
          (put (get_or (get s.by_prv link.provider) empty) link.provider_id link);
    by_usr =
        put s.by_usr link.user_id (replace_or_append link (get_or (get s.by_usr link.user_id) []));
  },
)

unfoldable pub find_by_provider : String → String → MemoryLinkedAccounts → Result OAuthLinkedAccount
find_by_provider provider provider_id s =
    elim (get (get_or (get s.by_prv provider) empty) provider_id) [
      | none ↦ err (external "auth: linked account not found")
      | some link ↦ ok link
    ]

unfoldable pub list_for_user : String → MemoryLinkedAccounts → List OAuthLinkedAccount
list_for_user user_id s = get_or (get s.by_usr user_id) []

-- if prv, ok := m.byPrv[link.Provider]; ok { delete(prv, link.ProviderID) }
unfoldable pub drop_provider :
    OAuthLinkedAccount → Dict (Dict OAuthLinkedAccount) → Dict (Dict OAuthLinkedAccount)
drop_provider link by_prv = elim (get by_prv link.provider) [
  | none ↦ by_prv
  | some prv ↦ put by_prv link.provider (remove prv link.provider_id)
]

unfoldable pub delete_link : String → M MemoryLinkedAccounts (Unit {0})
delete_link id s = elim (get s.by_id id) [
  | none ↦ (ok tt, s)
  | some link ↦ (
    ok tt,
    record {
      by_id = remove s.by_id id;
      by_prv = drop_provider link s.by_prv;
      by_usr =
          put s.by_usr link.user_id
            (keep_if (λ l. not (l.id == id)) (get_or (get s.by_usr link.user_id) []));
    },
  )
]
