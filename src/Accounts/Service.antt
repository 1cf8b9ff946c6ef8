-- ===== src/Accounts/Service.antt =====
-- services/auth-service/internal/service/auth_service.go, and the tokens of pkg/middleware/auth.go.
-- bcrypt, the signature of a token, its digest and the enforcer of policies are parameters. Logging
-- is left out.
pub mod Tokens
pub mod Oauth
pub mod Enrol
pub mod Refusals
mod Examples
use goshield.Prelude.{
  not, true, some, false, Option, ◌==◌, ℕ, ◌+◌, String, Bool, ◌&&◌, ◌||◌, none, List, [], ◌∷◌, eqb,
  leb, if◌then◌else◌,
}
use goshield.Go.Errors.{wrap, errorf, is_not_found, nil_pointer, is_already_exists, err, ok, Result}
use goshield.Go.Text.{to_lower, trim_space}
use goshield.Go.World.{Env, Exec, ◌>>=◌, pure, lift, attempt, wrapping, new_uuid, time_now}
use goshield.Accounts.Domain.{
  viewer, analyst, UserRole, LoginInput, OauthInput, RegisterInput, UpdateUserInput, User,
  role_string, RefreshToken, UserListFilter,
}
use goshield.Accounts.Repository
use goshield.Accounts.Repository.{Accounts}
use goshield.Accounts.Repository.Listing.{list}

-- The claims of a token; a refresh token has the same as an access token.
pub record TokenClaims : Type 0 where
  pub user_id : String
  pub company_id : String
  pub email : List ℕ
  pub role : String
  pub issued_at : ℕ
  pub expires_at : ℕ
  pub id : String

pub record AuthResponse : Type 0 where
  pub user : User
  pub access_token : String
  pub refresh_token : String
  pub expires_at : ℕ

-- The expiries of the token manager and of the configuration, and the libraries.
pub record Setup : Type 0 where
  pub access_expiry : ℕ
  pub refresh_expiry : ℕ
  pub stored_refresh_expiry : ℕ
  pub sign : TokenClaims → Result String
  pub hash_token : String → String
  pub hash_password : String → Result String
  pub password_matches : String → String → Bool

-- `strings.ToLower(strings.TrimSpace(email))`, on ASCII.
unfoldable pub normalize : List ℕ → List ℕ
unfolding trim_space
normalize s = to_lower (trim_space s)

-- The hash of a user that was read is never NULL.
abbrev hash_or_empty : Option String → String
hash_or_empty none = ""
hash_or_empty (some h) = h

module _ (env : Env) (setup : Setup) where
  generate_token : User → ℕ → Exec Accounts (String × ℕ)
  generate_token u expiry = do
    now ← time_now env
    i ← new_uuid env
    signed ← lift (
        setup.sign (record {
          user_id = u.id;
          company_id = u.company_id;
          email = u.email;
          role = role_string u.role;
          issued_at = now;
          expires_at = now + expiry;
          id = i;
        }))
    pure (signed, now + expiry)

  -- The pair is given out also if its refresh token could not be stored.
  unfoldable pub issue_tokens : User → Exec Accounts AuthResponse
  unfolding generate_token
  issue_tokens u = do
    access ←
        wrapping "generate token pair"
          (wrapping "generate access token" (generate_token u setup.access_expiry))
    refresh ←
        wrapping "generate token pair"
          (wrapping "generate refresh token" (generate_token u setup.refresh_expiry))
    i ← new_uuid env
    now ← time_now env
    _ ← attempt (
        Repository.store_refresh_token env (record {
          id = i;
          user_id = u.id;
          token_hash = setup.hash_token refresh.0;
          expires_at = now + setup.stored_refresh_expiry;
          created_at = 0;
          revoked_at = none;
        }))
    pure (record {
      user = u;
      access_token = access.0;
      refresh_token = refresh.0;
      expires_at = access.1;
    })

  -- The end of a refresh, once the token was found.
  exchange : String → RefreshToken → Exec Accounts AuthResponse
  exchange h t = do
    _ ← attempt (Repository.revoke_refresh_token env h)
    u ← wrapping "user not found for refresh" (Repository.get_by_id env t.user_id "")
    issue_tokens u

  unfoldable pub refresh_tokens : String → Exec Accounts AuthResponse
  unfolding exchange
  refresh_tokens token = do
    t ← wrapping "invalid refresh token" (Repository.get_refresh_token env (setup.hash_token token))
    exchange (setup.hash_token token) t

  unfoldable pub logout : String → Exec Accounts (Unit {0})
  logout token = Repository.revoke_refresh_token env (setup.hash_token token)

  unfoldable pub logout_all : String → Exec Accounts (Unit {0})
  logout_all i = Repository.revoke_all_user_tokens env i

  unfoldable pub role_or_analyst : UserRole → UserRole
  role_or_analyst r = if role_string r == "" then analyst else r

  unfoldable pub new_account : String → String → RegisterInput → User
  unfolding role_or_analyst normalize
  new_account i hash input = record {
    id = i;
    company_id = input.company_id;
    email = normalize input.email;
    password_hash = some hash;
    first_name = input.first_name;
    last_name = input.last_name;
    role = role_or_analyst input.role;
    avatar_url = "";
    oauth_provider = "";
    oauth_sub = "";
    active = some true;
    is_active = some true;
    last_login_at = none;
    created_at = 0;
    updated_at = 0;
  }

  registered : Result User → Exec Accounts AuthResponse
  registered (ok u) = issue_tokens u
  registered (err e) =
      if is_already_exists e
      then lift (err (errorf "email already registered"))
      else lift (err (wrap "create user" e))

  unfoldable pub register : RegisterInput → Exec Accounts AuthResponse
  unfolding new_account registered
  register input = do
    hash ← wrapping "hash password" (lift (setup.hash_password input.password))
    i ← new_uuid env
    made ← attempt (Repository.create env (new_account i hash input))
    registered made

  check_password : LoginInput → Result User → Exec Accounts AuthResponse
  check_password input (err e) =
      if is_not_found e
      then lift (err (errorf "invalid credentials"))
      else lift (err (wrap "find user" e))
  check_password input (ok u) =
      if not (setup.password_matches (hash_or_empty u.password_hash) input.password)
      then lift (err (errorf "invalid credentials"))
      else do _ ← attempt (Repository.update_last_login env u.id); issue_tokens u

  unfoldable pub login : LoginInput → Exec Accounts AuthResponse
  unfolding check_password normalize
  login input = do
    found ← attempt (Repository.get_by_email env (normalize input.email))
    check_password input found

  pub default_company : String → String
  default_company c = if c == "" then "00000000-0000-0000-0000-000000000001" else c

  new_oauth_account : String → OauthInput → User
  unfolding default_company normalize
  new_oauth_account i input = record {
    id = i;
    company_id = default_company input.company_id;
    email = normalize input.email;
    password_hash = some "";
    first_name = input.first_name;
    last_name = input.last_name;
    role = viewer;
    avatar_url = input.avatar_url;
    oauth_provider = input.provider;
    oauth_sub = input.sub;
    active = some true;
    is_active = some true;
    last_login_at = none;
    created_at = 0;
    updated_at = 0;
  }

  -- The user is nil if the second search fails; its email is then read.
  refetched : Result User → Exec Accounts AuthResponse
  refetched (ok u) = issue_tokens u
  refetched (err e) = lift (err nil_pointer)

  oauth_created : OauthInput → Result User → Exec Accounts AuthResponse
  unfolding refetched normalize
  oauth_created input (ok u) = issue_tokens u
  oauth_created input (err e) =
      if not (is_already_exists e)
      then lift (err (wrap "create oauth user" e))
      else do again ← attempt (Repository.get_by_email env (normalize input.email)); refetched again

  welcome : User → Exec Accounts AuthResponse
  welcome u = do _ ← attempt (Repository.update_last_login env u.id); issue_tokens u

  by_email : OauthInput → Result User → Exec Accounts AuthResponse
  unfolding oauth_created welcome new_oauth_account
  by_email input (ok u) = welcome u
  by_email input (err e) = do
    i ← new_uuid env
    made ← attempt (Repository.create env (new_oauth_account i input))
    oauth_created input made

  by_sub : OauthInput → Result User → Exec Accounts AuthResponse
  unfolding by_email welcome normalize
  by_sub input (ok u) = welcome u
  by_sub input (err e) = do
    found ← attempt (Repository.get_by_email env (normalize input.email))
    by_email input found

  unfoldable pub handle_oauth : OauthInput → Exec Accounts AuthResponse
  unfolding by_sub
  handle_oauth input = do
    found ← attempt (Repository.get_by_oauth_sub env input.provider input.sub)
    by_sub input found

  unfoldable pub get_user : String → String → Exec Accounts User
  get_user i company = Repository.get_by_id env i company

  unfoldable pub update_user : UpdateUserInput → Exec Accounts (Unit {0})
  update_user input = Repository.update env input

  unfoldable pub delete_user : String → String → Exec Accounts (Unit {0})
  delete_user i company = Repository.delete env i company

  unfoldable pub list_users :
      (List User → List User) → UserListFilter → Exec Accounts (List User × ℕ)
  list_users sorted filter = list env sorted filter

-- `CheckPermission`: the enforcer may be nil, and its errors refuse.
pub check_permission :
    Option (String → String → String → Result Bool) → String → String → String → Bool
check_permission none role resource action = false
check_permission (some enforce) role resource action = elim (enforce role resource action) [
  | ok b ↦ b
  | err e ↦ false
]
