-- ===== src/Service/Tokens/Frame.antt =====
-- Minting a token reads the random source and changes nothing else.
use awesome_go_auth.Base.{ℕ, String, ◌≡◌, Option-cases, inl, inr, arith}
use awesome_go_auth.Models.{User}
use awesome_go_auth.Platform.{Platform}
use awesome_go_auth.Service.{Config, World, draw, new_id}
use awesome_go_auth.Service.Tokens.{issue_token}

-- The worlds differ in the number of draws only.
pub record Frame (w w' : World) : Type 0 where
  pub users : w'.users ≡ w.users
  pub sessions : w'.sessions ≡ w.sessions
  pub clock : w'.clock ≡ w.clock
  pub events : w'.events ≡ w.events
  pub outbox : w'.outbox ≡ w.outbox
  pub links : w'.links ≡ w.links
  pub codes : w'.codes ≡ w.codes

pub new_id-Frame : (p : Platform) (prefix : String) (w : World) → Frame w (new_id p prefix w).1
unfolding new_id draw
new_id-Frame p prefix w = elim (Option-cases (p.rand_read w.draws 16)) [
  | inl e ↦ record {
    users = ground (arith);
    sessions = ground (arith);
    clock = ground (arith);
    events = ground (arith);
    outbox = ground (arith);
    links = ground (arith);
    codes = ground (arith);
  }
  | inr (b, e) ↦ record {
    users = ground (arith);
    sessions = ground (arith);
    clock = ground (arith);
    events = ground (arith);
    outbox = ground (arith);
    links = ground (arith);
    codes = ground (arith);
  }
]

pub issue_token_same :
    (p : Platform) (c : Config) (u : User) (sid typ : String) (ttl : ℕ) (w : World)
    → (issue_token p c u sid typ ttl w).1 ≡ (new_id p "jti" w).1
unfolding issue_token
issue_token_same p c u sid typ ttl w = ground (arith)

pub issue_token-Frame :
    (p : Platform) (c : Config) (u : User) (sid typ : String) (ttl : ℕ) (w : World)
    → Frame w (issue_token p c u sid typ ttl w).1
issue_token-Frame p c u sid typ ttl w =
    rw (issue_token_same p c u sid typ ttl w) (new_id-Frame p "jti" w)
