-- ===== src/Accounts/Http/Public/Refusals.antt =====
-- services/auth-service/internal/handler/http.go: what a refused login tells.
use goshield.Prelude.{ℕ, ◌≡◌, refl, true, false, none, some}
use goshield.Go.Errors.{ok}
use goshield.Go.World.{Env, ◌>>=◌}
use goshield.Accounts.Domain.{User, LoginInput}
use goshield.Accounts.Repository.{Accounts}
use goshield.Accounts.Service.Refusals.{account_of, login_unknown, login_wrong}
use goshield.Accounts.Service.{Setup, normalize}
use goshield.Accounts.Http.{String, LoginRequest, Web, Response, kept, message, says, error_text}
use goshield.Accounts.Http.Public.{login_handler, is_valid_login, logged_in, login_refused}

abbrev pub refusal : Response
refusal = record { status = 401; cookie = kept; body = message "invalid email or password" }

abbrev credentials : LoginRequest → LoginInput
credentials r = record { email = r.email; password = r.password }

-- A login for an email that no active account has, and one with a wrong password for an account that
-- has a password hash, get the same answer 401, when the database accepts the search.
pub login_handler-alike :
    (env : Env) (setup : Setup) (web : Web) (r : LoginRequest) (v w : Accounts) (u : User)
    (h : String)
    → is_valid_login env setup web r ≡ true
    → account_of (normalize r.email) v ≡ none
    → account_of (normalize r.email) w ≡ some u
    → u.password_hash ≡ some h
    → setup.password_matches h r.password ≡ false
    → ((n : ℕ) → env.fails n ≡ false)
    → ((login_handler env setup web (some r) v).0 ≡ ok refusal)
      × ((login_handler env setup web (some r) w).0 ≡ ok refusal)
unfolding login_handler login_refused logged_in says error_text ◌>>=◌
login_handler-alike env setup web r v w u h valid unknown known hashed wrong good = (
  rw valid (rw (login_unknown env setup (credentials r) v unknown (good v.calls)) refl),
  rw valid
      (rw (login_wrong env setup (credentials r) w u h known hashed wrong (good w.calls)) refl),
)
