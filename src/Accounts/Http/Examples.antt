-- ===== src/Accounts/Http/Examples.antt =====
-- The theorems on the HTTP handlers of services/auth-service at one account, and tests.
use goshield.Prelude.{◌≡◌, refl, true, false, none, some, List, [], ◌∷◌, ◌++◌}
use goshield.Go.Errors.{ok, err, errorf}
use goshield.Go.Text.{codes}
use goshield.Go.World.{Env, ◌>>=◌}
use goshield.Middleware.{Identity}
use goshield.Accounts.Domain.{User, admin}
use goshield.Accounts.Repository.{Accounts, revoke_refresh_token}
use goshield.Accounts.Repository.Own.{Spares}
use goshield.Accounts.Service.{Setup, normalize, logout}
use goshield.Accounts.Samples.{plain_setup, ann, accounts}
use goshield.Accounts.Http.{Web, RegisterRequest, LoginRequest, cleared, message}
use goshield.Accounts.Http.Public.{
  register_handler, login_handler, logout_handler, is_valid_registration, is_valid_login, presented,
}
use goshield.Accounts.Http.Public.Enrol.{register_handler-admin}
use goshield.Accounts.Http.Public.Refusals.{login_handler-alike, refusal}
use goshield.Accounts.Http.Users.{UsersRequest, asks_me, logs_out_everywhere, deletes, updates}
use goshield.Accounts.Http.Users.Access.{serve_all, serve_all-Spares}
use goshield.Samples.{calm}

abbrev plain_web : Web
plain_web = record {
  valid_email = λ s. true;
  valid_uuid4 = λ s. true;
  oauth_enabled = false;
  auth_code_url = λ now. "";
  exchange = λ code. err (errorf code);
  fetch_google_user_info = λ token. err (errorf token);
  failure_text = λ n. [];
}

abbrev ann_calling : Identity
ann_calling = record { user_id = "ann"; company_id = "acme"; role = "ANALYST" }

abbrev mischief : List UsersRequest
mischief =
    updates "ann" (
      some (record {
        role = some "ADMIN";
        active = some false;
        first_name = some "Anna";
        last_name = none;
      }))
    ∷ deletes "bob"
    ∷ logs_out_everywhere
    ∷ asks_me
    ∷ []

serve_all-Spares_example :
    Spares ann_calling accounts.store
      (serve_all calm plain_setup (λ us. us) ann_calling mischief accounts).store
serve_all-Spares_example =
    serve_all-Spares calm plain_setup (λ us. us) ann_calling mischief accounts refl

abbrev eve : RegisterRequest
eve = record {
  email = codes "eve@acme";
  password = "long enough";
  first_name = "Eve";
  last_name = "Poe";
  company_id = "acme";
  role = "ADMIN";
}

register_handler-admin_example :
    (u : User) × ((register_handler calm plain_setup plain_web (some eve) accounts).1.store.users
      ≡ accounts.store.users ++ u ∷ [])
    × (u.company_id ≡ "acme")
    × (u.role ≡ admin)
unfolding is_valid_registration normalize
register_handler-admin_example =
    register_handler-admin calm plain_setup plain_web eve "long enough" accounts refl refl refl refl
      (λ n. refl)

-- No password is right.
abbrev strict_setup : Setup
strict_setup = record plain_setup { password_matches = λ hash password. false }

abbrev nobody : Accounts
nobody = record accounts { store = record { users = []; tokens = [] } }

abbrev guess : LoginRequest
guess = record { email = codes "ann@acme"; password = "guess" }

login_handler-alike_example :
    ((login_handler calm strict_setup plain_web (some guess) nobody).0 ≡ ok refusal)
    × ((login_handler calm strict_setup plain_web (some guess) accounts).0 ≡ ok refusal)
unfolding is_valid_login normalize
login_handler-alike_example =
    login_handler-alike calm strict_setup plain_web guess nobody accounts ann "secret" refl refl
      refl refl refl (λ n. refl)

-- The database refuses every call.
abbrev stormy : Env
stormy = record calm { fails = λ n. true }

-- A logout whose revocation fails says that it is done, and leaves the token good.
logout_unrevoked : logout_handler stormy plain_setup plain_web "r-1" none accounts ≡ (
  ok (record { status = 200; cookie = cleared; body = message "logged out successfully" }),
  record accounts { calls = 1 },
)
unfolding logout_handler presented logout revoke_refresh_token ◌>>=◌
logout_unrevoked = refl
