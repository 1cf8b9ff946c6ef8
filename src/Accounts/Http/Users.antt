-- ===== src/Accounts/Http/Users.antt =====
-- services/auth-service/internal/handler/http.go: the routes below /users, which JWTMiddleware guards.
pub mod Access
use goshield.Prelude.{ℕ, String, Bool, ◌&&◌, not, Option, none, some, List, ◌==◌, if◌then◌else◌}
use goshield.Go.Errors.{Error, Result, ok, err, is_not_found}
use goshield.Go.World.{Env, ◌>>=◌, attempt}
use goshield.Middleware.{Identity, jwt_middleware}
use goshield.Gateway.Auth.{Passage, open_to_all, identified, unauthorized}
use goshield.Accounts.Domain.{User, UserRole, user_role}
use goshield.Accounts.Service.{Setup, logout_all, get_user, list_users, update_user, delete_user}
use goshield.Accounts.Http.{Handled, respond, respond_error, message, user, users, empty}

pub record UpdateUserRequest : Type 0 where
  pub role : Option String
  pub active : Option Bool
  pub first_name : Option String
  pub last_name : Option String

abbrev is_admin : Identity → Bool
is_admin who = who.role == "ADMIN"

abbrev role_of : Option String → Option UserRole
role_of none = none
role_of (some s) = some (user_role s)

module _ (env : Env) (setup : Setup) where
  revoked_all : Result (Unit {0}) → Handled
  revoked_all (ok x) = respond 200 (message "all sessions revoked")
  revoked_all (err e) = respond_error 500 "failed to revoke tokens"

  unfoldable pub logout_all_handler : Identity → Handled
  unfolding revoked_all
  logout_all_handler who =
      if who.user_id == ""
      then respond_error 401 "unauthorized"
      else do r ← attempt (logout_all env setup who.user_id); revoked_all r

  -- `err == repository.ErrNotFound`
  missing_or : String → Error → Handled
  missing_or m e =
      if is_not_found e then respond_error 404 "user not found" else respond_error 500 m

  shown : Result User → Handled
  unfolding missing_or
  shown (ok u) = respond 200 (user u)
  shown (err e) = missing_or "failed to get user" e

  unfoldable pub get_current_user : Identity → Handled
  unfolding shown
  get_current_user who = do r ← attempt (get_user env setup who.user_id who.company_id); shown r

  unfoldable pub get_user_handler : Identity → String → Handled
  unfolding shown
  get_user_handler who i =
      if not (is_admin who)
      then respond_error 403 "admin role required"
      else do r ← attempt (get_user env setup i who.company_id); shown r

  listed : Result (List User × ℕ) → Handled
  listed (ok page) = respond 200 (users page.0 page.1)
  listed (err e) = respond_error 500 "failed to list users"

  -- The role, the page and the size of the query; a negative number is 0.
  unfoldable pub list_users_handler : (List User → List User) → Identity → String → ℕ → ℕ → Handled
  unfolding listed
  list_users_handler sorted who role page page_size =
      if not (is_admin who) then respond_error 403 "admin role required" else do
        r ← attempt (
            list_users env setup sorted (record {
              company_id = who.company_id;
              role = user_role role;
              active = none;
              page = page;
              page_size = page_size;
            }))
        listed r

  changed : Result (Unit {0}) → Handled
  changed (ok x) = respond 200 (message "user updated")
  changed (err e) = respond_error 500 "failed to update user"

  -- The `validate` tags of the request are not checked.
  unfoldable pub update_user_handler : Identity → String → Option UpdateUserRequest → Handled
  unfolding changed
  update_user_handler who i none =
      if not (is_admin who) && not (who.user_id == i)
      then respond_error 403 "insufficient permissions"
      else respond_error 400 "invalid request body"
  update_user_handler who i (some r) =
      if not (is_admin who) && not (who.user_id == i)
      then respond_error 403 "insufficient permissions"
      else do
        done ← attempt (
            update_user env setup (record {
              user_id = i;
              company_id = who.company_id;
              role = if is_admin who then role_of r.role else none;
              active = r.active;
              first_name = r.first_name;
              last_name = r.last_name;
            }))
        changed done

  gone : Result (Unit {0}) → Handled
  unfolding missing_or
  gone (ok x) = respond 204 empty
  gone (err e) = missing_or "failed to delete user" e

  unfoldable pub delete_user_handler : Identity → String → Handled
  unfolding gone
  delete_user_handler who i =
      if not (is_admin who)
      then respond_error 403 "admin role required"
      else do r ← attempt (delete_user env setup i who.company_id); gone r

-- A request below /users, with what its path, query and body say.
pub data UsersRequest : Type 0 where
  asks_me logs_out_everywhere : UsersRequest
  lists : String → ℕ → ℕ → UsersRequest
  gets deletes : String → UsersRequest
  updates : String → Option UpdateUserRequest → UsersRequest

module _ (env : Env) (setup : Setup) (sorted : List User → List User) where
  -- The route's handler.
  unfoldable pub route : Identity → UsersRequest → Handled
  route who asks_me = get_current_user env setup who
  route who logs_out_everywhere = logout_all_handler env setup who
  route who (lists role page size) = list_users_handler env setup sorted who role page size
  route who (gets i) = get_user_handler env setup who i
  route who (deletes i) = delete_user_handler env setup who i
  route who (updates i r) = update_user_handler env setup who i r

  admitted : UsersRequest → Passage Identity → Handled
  admitted r open_to_all = respond_error 401 "unauthorized"
  admitted r (identified who) = route who r
  admitted r (unauthorized m) = respond_error 401 m

  -- The group of routes, behind the middleware.
  unfoldable pub protected : (List ℕ → Option Identity) → List ℕ → UsersRequest → Handled
  unfolding admitted
  protected parse header r = admitted r (jwt_middleware parse header)
