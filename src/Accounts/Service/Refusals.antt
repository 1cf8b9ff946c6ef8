-- ===== src/Accounts/Service/Refusals.antt =====
-- services/auth-service/internal/service/auth_service.go: the logins that are refused.
use goshield.Prelude.{ℕ, ◌≡◌, refl, false, ◌&&◌, Option, none, some, find}
use goshield.Go.Errors.{err, errorf}
use goshield.Go.Text.{codes_eq}
use goshield.Go.World.{Env, ◌>>=◌}
use goshield.Accounts.Domain.{User, LoginInput}
use goshield.Accounts.Repository.{Accounts, is_enabled, get_by_email}
use goshield.Accounts.Service.{String, List, Setup, login, check_password, normalize}

-- The active account of an email.
abbrev pub account_of : List ℕ → Accounts → Option User
account_of email w = find (λ u. codes_eq u.email email && is_enabled u) w.store.users

module _ (env : Env) (setup : Setup) (input : LoginInput) (w : Accounts) where
  pub login_unknown :
      account_of (normalize input.email) w ≡ none
      → env.fails w.calls ≡ false
      → (login env setup input w).0 ≡ err (errorf "invalid credentials")
  unfolding login check_password get_by_email ◌>>=◌
  login_unknown unknown good = rw good (rw unknown refl)

  pub login_wrong :
      (u : User) (h : String)
      → account_of (normalize input.email) w ≡ some u
      → u.password_hash ≡ some h
      → setup.password_matches h input.password ≡ false
      → env.fails w.calls ≡ false
      → (login env setup input w).0 ≡ err (errorf "invalid credentials")
  unfolding login check_password get_by_email ◌>>=◌
  login_wrong u h known hashed wrong good = rw good (rw known (rw hashed (rw wrong refl)))
