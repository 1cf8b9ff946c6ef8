-- ===== src/Accounts/Http.antt =====
-- services/auth-service/internal/handler/http.go: requests and responses. The body
-- parser gives a request or nothing; the validator's tags `email` and `uuid4`, the client of Google
-- and the text of a failed call are parameters. Logging is left out, as are the details of a
-- validation error.
pub mod Public
pub mod Users
mod Examples
use Prim.Native.String.{count}
use goshield.Prelude.{
  ℕ, ◌+◌, ◌++◌, String, Bool, true, false, ◌&&◌, ◌||◌, not, Option, none, some, List, [], ◌∷◌, ◌==◌,
  leb, if◌then◌else◌,
}
use goshield.Go.Errors.{
  Error, Result, ok, err, not_found, forbidden, already_exists, token_not_found, token_revoked,
  token_expired, nil_pointer, external, errorf, wrap,
}
use goshield.Go.Text.{Text, codes, is_empty}
use goshield.Go.World.{Env, Exec, ◌>>=◌, pure, lift, attempt, time_now}
use goshield.Gateway.Auth.{has_prefix}
use goshield.Accounts.Domain.{User, role_string, user_role}
use goshield.Accounts.Repository.{Accounts}
use goshield.Accounts.Service.{
  Setup, AuthResponse, register, login, refresh_tokens, logout, handle_oauth,
}

pub record RegisterRequest : Type 0 where
  pub email : Text
  pub password : String
  pub first_name : String
  pub last_name : String
  pub company_id : String
  pub role : String

pub record LoginRequest : Type 0 where
  pub email : Text
  pub password : String

-- The claims of Google on a user: none where the value is missing or no string.
pub record GoogleInfo : Type 0 where
  pub sub : Option String
  pub email : Option Text
  pub given_name : Option String
  pub family_name : Option String
  pub picture : Option String

-- What the handlers ask of other packages.
pub record Web : Type 0 where
  pub valid_email : Text → Bool
  pub valid_uuid4 : String → Bool
  pub oauth_enabled : Bool
  -- `AuthCodeURL` of the state `gs_…` made at a time
  pub auth_code_url : ℕ → String
  pub exchange : String → Result String
  pub fetch_google_user_info : String → Result GoogleInfo
  -- the text of the failure of the n-th call
  pub failure_text : ℕ → Text

pub record UserDto : Type 0 where
  pub id : String
  pub company_id : String
  pub email : Text
  pub first_name : String
  pub last_name : String
  pub role : String
  pub avatar_url : String
  pub active : Bool
  pub last_login_at : Option ℕ
  pub created_at : ℕ
  pub updated_at : ℕ

pub data Body : Type 0 where
  message : String → Body
  failure : Text → Body
  -- the user, the access token, the refresh token and their expiry
  session : UserDto → String → String → ℕ → Body
  user : User → Body
  users : List User → ℕ → Body
  -- a redirect to an address, and one to the dashboard with a token
  redirect : String → Body
  dashboard : String → Body
  empty : Body

-- The cookie `refresh_token`: left as it is, set until a time, or cleared.
pub data Cookie : Type 0 where
  kept cleared : Cookie
  set_until : String → ℕ → Cookie

pub record Response : Type 0 where
  pub status : ℕ
  pub cookie : Cookie
  pub body : Body

abbrev pub Handled : Type 0
Handled = Exec Accounts Response

abbrev pub respond : ℕ → Body → Handled
respond status body = pure (record { status = status; cookie = kept; body = body })

abbrev pub respond_error : ℕ → String → Handled
respond_error status m = respond status (message m)

-- `strings.Contains`
contains : Text → Text → Bool
unfolding has_prefix
contains [] part = is_empty part
contains (c ∷ s) part = has_prefix (c ∷ s) part || contains s part

-- `err.Error()`; this service has no error `forbidden`, and the panic of a nil pointer has no text.
unfoldable pub error_text : (ℕ → Text) → Error → Text
error_text texts not_found = codes "user not found"
error_text texts already_exists = codes "user already exists"
error_text texts token_not_found = codes "refresh token not found"
error_text texts token_revoked = codes "refresh token revoked"
error_text texts token_expired = codes "refresh token expired"
error_text texts forbidden = []
error_text texts nil_pointer = []
error_text texts (external n) = texts n
error_text texts (errorf s) = codes s
error_text texts (wrap context e) = codes context ++ codes ": " ++ error_text texts e

unfoldable pub says : (ℕ → Text) → Text → Error → Bool
unfolding contains error_text
says texts part e = contains (error_text texts e) part

-- `COALESCE(active, is_active, true)`, the field `Active` of a user that was read.
pub shown_active : User → Bool
shown_active u = elim u.active [ some b ↦ b | none ↦ elim u.is_active [ some b ↦ b | none ↦ true ] ]

pub normalise_auth_response : AuthResponse → Body
unfolding shown_active
normalise_auth_response r =
    session
      (record {
        id = r.user.id;
        company_id = r.user.company_id;
        email = r.user.email;
        first_name = r.user.first_name;
        last_name = r.user.last_name;
        role = role_string r.user.role;
        avatar_url = r.user.avatar_url;
        active = shown_active r.user;
        last_login_at = r.user.last_login_at;
        created_at = r.user.created_at;
        updated_at = r.user.updated_at;
      })
      r.access_token r.refresh_token r.expires_at

-- `7 * 24 * time.Hour`
abbrev pub week : ℕ
week = 604800

abbrev pub in_range : ℕ → ℕ → String → Bool
in_range low high s = leb low (count s) && leb (count s) high

abbrev pub string_or_empty : Option String → String
string_or_empty none = ""
string_or_empty (some s) = s
