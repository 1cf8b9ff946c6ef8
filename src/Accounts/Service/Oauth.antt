-- ===== src/Accounts/Service/Oauth.antt =====
-- services/auth-service/internal/service/auth_service.go: `HandleOAuth` for an account that is not
-- active.
use goshield.Prelude.{ℕ, ◌+◌, ◌≡◌, true, false, ◌&&◌, none, ◌==◌, any, find, arith}
use goshield.Go.Errors.{err, nil_pointer}
use goshield.Go.Text.{codes_eq}
use goshield.Go.World.{Env, ◌>>=◌}
use goshield.Accounts.Domain.{OauthInput}
use goshield.Accounts.Repository.{Accounts, is_enabled, create, get_by_oauth_sub, get_by_email}
use goshield.Accounts.Service.{Setup, handle_oauth, normalize, default_company}

-- If no active account has the subject or the email, but the company has an account with the email,
-- and the database accepts every call, the handler uses a nil pointer.
pub handle_oauth-nil_pointer :
    (env : Env) (setup : Setup) (input : OauthInput) (w : Accounts)
    → find
        (λ u. (u.oauth_provider == input.provider && u.oauth_sub == input.sub) && is_enabled u)
        w.store.users
      ≡ none
    → find (λ u. codes_eq u.email (normalize input.email) && is_enabled u) w.store.users ≡ none
    → any
        (λ u.
          u.company_id == default_company env setup input.company_id
          && codes_eq u.email (normalize input.email))
        w.store.users
      ≡ true
    → ((n : ℕ) → env.fails n ≡ false)
    → (handle_oauth env setup input w).0 ≡ err nil_pointer
unfolding handle_oauth create get_by_oauth_sub get_by_email ◌>>=◌
handle_oauth-nil_pointer env setup input w by_sub by_email taken good =
    ground (arith, good w.calls, good (w.calls + 1), good (w.calls + 3), good (w.calls + 4))
