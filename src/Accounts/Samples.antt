-- ===== src/Accounts/Samples.antt =====
-- One account, one refresh token and plain libraries, for the examples on services/auth-service.
use goshield.Prelude.{true, some, none, [], ◌∷◌}
use goshield.Go.Errors.{ok}
use goshield.Go.Text.{codes}
use goshield.Accounts.Domain.{User, RefreshToken, analyst}
use goshield.Accounts.Repository.{Accounts}
use goshield.Accounts.Service.{Setup}

abbrev pub plain_setup : Setup
plain_setup = record {
  access_expiry = 900;
  refresh_expiry = 604800;
  stored_refresh_expiry = 604800;
  sign = λ claims. ok claims.id;
  hash_token = λ token. token;
  hash_password = λ password. ok password;
  password_matches = λ hash password. true;
}

abbrev pub ann : User
ann = record {
  id = "ann";
  company_id = "acme";
  email = codes "ann@acme";
  password_hash = some "secret";
  first_name = "Ann";
  last_name = "Lee";
  role = analyst;
  avatar_url = "";
  oauth_provider = "";
  oauth_sub = "";
  active = some true;
  is_active = some true;
  last_login_at = none;
  created_at = 1;
  updated_at = 1;
}

abbrev anns_token : RefreshToken
anns_token = record {
  id = "t";
  user_id = "ann";
  token_hash = "r-1";
  expires_at = 100000;
  created_at = 1;
  revoked_at = none;
}

abbrev pub accounts : Accounts
accounts = record {
  store = record { users = ann ∷ []; tokens = anns_token ∷ [] };
  published = [];
  calls = 0;
}
