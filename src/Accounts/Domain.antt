-- ===== src/Accounts/Domain.antt =====
-- services/auth-service/internal/domain/user.go. A user is a row of the table: its two columns for
-- the active state may be NULL. Emails are code points, and times are counted from the epoch.
use goshield.Prelude.{ℕ, String, Bool, Option, List, ◌==◌, if◌then◌else◌}

pub data UserRole : Type 0 where
  admin analyst viewer : UserRole
  other : String → UserRole

abbrev pub role_string : UserRole → String
role_string admin = "ADMIN"
role_string analyst = "ANALYST"
role_string viewer = "VIEWER"
role_string (other s) = s

-- `UserRole(s)`
abbrev pub user_role : String → UserRole
user_role s =
    if s == "ADMIN"
    then admin
    else if s == "ANALYST"
    then analyst
    else if s == "VIEWER"
    then viewer
    else other s

-- `first_name` and `oauth_sub` are what every statement reads: the columns of migration 003, or where
-- they are NULL the ones of migration 001. The hash is none where the column is NULL.
pub record User : Type 0 where
  pub id : String
  pub company_id : String
  pub email : List ℕ
  pub password_hash : Option String
  pub first_name : String
  pub last_name : String
  pub role : UserRole
  pub avatar_url : String
  pub oauth_provider : String
  pub oauth_sub : String
  pub active : Option Bool
  pub is_active : Option Bool
  pub last_login_at : Option ℕ
  pub created_at : ℕ
  pub updated_at : ℕ

pub record RefreshToken : Type 0 where
  pub id : String
  pub user_id : String
  pub token_hash : String
  pub expires_at : ℕ
  pub created_at : ℕ
  pub revoked_at : Option ℕ

pub record RegisterInput : Type 0 where
  pub company_id : String
  pub email : List ℕ
  pub password : String
  pub first_name : String
  pub last_name : String
  pub role : UserRole

pub record LoginInput : Type 0 where
  pub email : List ℕ
  pub password : String

pub record OauthInput : Type 0 where
  pub provider : String
  pub sub : String
  pub email : List ℕ
  pub first_name : String
  pub last_name : String
  pub avatar_url : String
  pub company_id : String

pub record UpdateUserInput : Type 0 where
  pub user_id : String
  pub company_id : String
  pub role : Option UserRole
  pub active : Option Bool
  pub first_name : Option String
  pub last_name : Option String

pub record UserListFilter : Type 0 where
  pub company_id : String
  pub role : UserRole
  pub active : Option Bool
  pub page : ℕ
  pub page_size : ℕ
