-- ===== src/Accounts/Http/Public.antt =====
-- services/auth-service/internal/handler/http.go: the public routes.
pub mod Enrol
pub mod Refusals
use goshield.Prelude.{
  ℕ, ◌+◌, String, Bool, ◌&&◌, ◌||◌, not, Option, none, some, ◌==◌, if◌then◌else◌,
}
use goshield.Go.Errors.{Error, Result, ok, err, nil_pointer}
use goshield.Go.Text.{Text, codes, is_empty}
use goshield.Go.World.{Env, ◌>>=◌, pure, lift, attempt, time_now}
use goshield.Accounts.Domain.{user_role}
use goshield.Accounts.Service.{
  Setup, AuthResponse, register, login, refresh_tokens, logout, handle_oauth,
}
use goshield.Accounts.Http.{
  [], Body, GoogleInfo, Handled, LoginRequest, RegisterRequest, Web, cleared, dashboard, error_text,
  failure, in_range, message, normalise_auth_response, redirect, respond, respond_error, says,
  set_until, string_or_empty, week,
}

module _ (env : Env) (setup : Setup) (web : Web) where
  -- The `validate` tags.
  unfoldable pub is_valid_registration : RegisterRequest → Bool
  is_valid_registration r =
      web.valid_email r.email
      && in_range 8 72 r.password
      && in_range 1 50 r.first_name
      && in_range 1 50 r.last_name
      && web.valid_uuid4 r.company_id
      && (r.role == "" || r.role == "ADMIN" || r.role == "ANALYST" || r.role == "VIEWER")

  unfoldable pub is_valid_login : LoginRequest → Bool
  is_valid_login r = web.valid_email r.email && not (r.password == "")

  -- The answer that carries a session, with its refresh token in the cookie.
  abbrev pub with_cookie : AuthResponse → Body → ℕ → Handled
  with_cookie r body status = do
    now ← time_now env
    pure (record { status = status; cookie = set_until r.refresh_token (now + week); body = body })

  registration_refused : Error → Handled
  unfolding says error_text
  registration_refused e =
      if says web.failure_text (codes "already registered") e
      then respond 409 (failure (error_text web.failure_text e))
      else respond_error 500 "registration failed"

  enrolled : Result AuthResponse → Handled
  unfolding registration_refused
  enrolled (ok r) = respond 201 (normalise_auth_response r)
  enrolled (err e) = registration_refused e

  -- An empty role is the analyst's.
  unfoldable pub register_handler : Option RegisterRequest → Handled
  unfolding is_valid_registration enrolled
  register_handler none = respond_error 400 "invalid request body"
  register_handler (some r) =
      if not (is_valid_registration r) then respond_error 422 "validation failed" else do
        made ← attempt (
            register env setup (record {
              company_id = r.company_id;
              email = r.email;
              password = r.password;
              first_name = r.first_name;
              last_name = r.last_name;
              role = user_role (if r.role == "" then "ANALYST" else r.role);
            }))
        enrolled made

  login_refused : Error → Handled
  unfolding says
  login_refused e =
      if says web.failure_text (codes "invalid credentials") e
      then respond_error 401 "invalid email or password"
      else respond_error 500 "login failed"

  logged_in : Result AuthResponse → Handled
  unfolding login_refused
  logged_in (ok r) = with_cookie r (normalise_auth_response r) 200
  logged_in (err e) = login_refused e

  unfoldable pub login_handler : Option LoginRequest → Handled
  unfolding is_valid_login logged_in
  login_handler none = respond_error 400 "invalid request body"
  login_handler (some r) =
      if not (is_valid_login r) then respond_error 422 "validation failed" else do
        found ← attempt (login env setup (record { email = r.email; password = r.password }))
        logged_in found

  -- The cookie goes before the token of the body.
  unfoldable pub presented : String → Option String → String
  presented cookie body = if cookie == "" then string_or_empty body else cookie

  renewed : Result AuthResponse → Handled
  renewed (ok r) = with_cookie r (normalise_auth_response r) 200
  renewed (err e) = respond_error 401 "invalid or expired refresh token"

  unfoldable pub refresh_tokens_handler : String → Option String → Handled
  unfolding presented renewed
  refresh_tokens_handler cookie body =
      if presented cookie body == ""
      then respond_error 400 "refresh token required"
      else do r ← attempt (refresh_tokens env setup (presented cookie body)); renewed r

  abbrev signed_off : Handled
  signed_off =
      pure (record { status = 200; cookie = cleared; body = message "logged out successfully" })

  -- The error of the revocation is ignored.
  unfoldable pub logout_handler : String → Option String → Handled
  unfolding presented
  logout_handler cookie body =
      if presented cookie body == ""
      then signed_off
      else do _ ← attempt (logout env setup (presented cookie body)); signed_off

  unfoldable pub google_oauth_redirect : Handled
  google_oauth_redirect =
      if not web.oauth_enabled
      then respond_error 503 "Google OAuth is not configured"
      else do now ← time_now env; respond 307 (redirect (web.auth_code_url now))

  -- The use of a nil pointer inside the service is no error that the handler sees.
  oauth_done : Result AuthResponse → Handled
  oauth_done (ok r) = with_cookie r (dashboard r.access_token) 307
  oauth_done (err nil_pointer) = lift (err nil_pointer)
  oauth_done (err e) = respond_error 500 "OAuth login failed"

  google_user : GoogleInfo → String → Text → Handled
  unfolding oauth_done
  google_user info sub email =
      if sub == ""
      then respond_error 500 "missing sub in Google user info"
      else if is_empty email
      then respond_error 500 "missing email in Google user info"
      else do
        r ← attempt (
            handle_oauth env setup (record {
              provider = "google";
              sub = sub;
              email = email;
              first_name = string_or_empty info.given_name;
              last_name = string_or_empty info.family_name;
              avatar_url = string_or_empty info.picture;
              company_id = "";
            }))
        oauth_done r

  email_or_empty : Option Text → Text
  email_or_empty none = []
  email_or_empty (some t) = t

  identified_user : Result GoogleInfo → Handled
  unfolding google_user email_or_empty
  identified_user (err e) = respond_error 500 "failed to get user info"
  identified_user (ok info) =
      google_user info (string_or_empty info.sub) (email_or_empty info.email)

  exchanged : Result String → Handled
  unfolding identified_user
  exchanged (err e) = respond_error 401 "OAuth token exchange failed"
  exchanged (ok token) = identified_user (web.fetch_google_user_info token)

  -- The state of the query is not looked at.
  unfoldable pub google_oauth_callback : String → Handled
  unfolding exchanged
  google_oauth_callback code =
      if not web.oauth_enabled
      then respond_error 503 "Google OAuth is not configured"
      else if code == ""
      then respond_error 400 "missing authorization code"
      else exchanged (web.exchange code)
