-- ===== src/Accounts/Service/Examples.antt =====
-- The theorems on services/auth-service at one account and one token.
use goshield.Prelude.{◌≡◌, refl, true, false, none, some, List, [], ◌∷◌, map}
use goshield.Go.Errors.{err, is_ok, nil_pointer}
use goshield.Go.Text.{codes}
use goshield.Go.World.{◌>>=◌}
use goshield.Accounts.Domain.{OauthInput, UpdateUserInput}
use goshield.Accounts.Repository.{
  Accounts, is_enabled, update, get_refresh_token, revoke_refresh_token, get_by_id,
  store_refresh_token,
}
use goshield.Accounts.Repository.Active.{update-is_enabled}
use goshield.Accounts.Service.{
  issue_tokens, refresh_tokens, logout, handle_oauth, normalize, default_company,
}
use goshield.Accounts.Service.Tokens.{
  Request, refreshes, logs_in, serve_all, logout-refuses, refresh_tokens-once,
}
use goshield.Accounts.Service.Oauth.{handle_oauth-nil_pointer}
use goshield.Samples.{calm}
use goshield.Accounts.Samples.{plain_setup, ann, accounts}

abbrev again : List Request
again = refreshes "r-1" ∷ logs_in (record { email = codes "ann@acme"; password = "secret" }) ∷ []

logout-refuses_example :
    is_ok
      (refresh_tokens calm plain_setup "r-1"
        (serve_all calm plain_setup again (logout calm plain_setup "r-1" accounts).1)).0
    ≡ false
logout-refuses_example = logout-refuses calm plain_setup "r-1" accounts again refl refl

refreshed : is_ok (refresh_tokens calm plain_setup "r-1" accounts).0 ≡ true
unfolding refresh_tokens get_refresh_token revoke_refresh_token get_by_id store_refresh_token
    issue_tokens ◌>>=◌
refreshed = refl

refresh_tokens-once_example :
    is_ok
      (refresh_tokens calm plain_setup "r-1"
        (serve_all calm plain_setup again (refresh_tokens calm plain_setup "r-1" accounts).1)).0
    ≡ false
refresh_tokens-once_example =
    refresh_tokens-once calm plain_setup "r-1" accounts again refreshed refl

abbrev deactivation : UpdateUserInput
deactivation = record {
  user_id = "ann";
  company_id = "acme";
  role = none;
  active = some false;
  first_name = none;
  last_name = none;
}

update-is_enabled_example :
    map is_enabled (update calm deactivation accounts).1.store.users ≡ true ∷ []
update-is_enabled_example = update-is_enabled calm deactivation accounts ((true, refl), tt)

abbrev ann_has_left : Accounts
ann_has_left = record accounts {
  store = record { users = record ann { is_active = some false } ∷ []; tokens = [] };
}

abbrev ann_by_oauth : OauthInput
ann_by_oauth = record {
  provider = "google";
  sub = "g-7";
  email = codes " Ann@acme";
  first_name = "Ann";
  last_name = "Lee";
  avatar_url = "";
  company_id = "acme";
}

handle_oauth-nil_pointer_example :
    (handle_oauth calm plain_setup ann_by_oauth ann_has_left).0 ≡ err nil_pointer
unfolding normalize default_company
handle_oauth-nil_pointer_example =
    handle_oauth-nil_pointer calm plain_setup ann_by_oauth ann_has_left refl refl refl (λ n. refl)
