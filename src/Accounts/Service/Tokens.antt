-- ===== src/Accounts/Service/Tokens.antt =====
-- services/auth-service/internal/service/auth_service.go: a refresh token that was revoked is refused
-- for ever, whatever is asked of the service in between.
use goshield.Prelude.{
  refl, ◌+◌, sym, ℕ, ◌≡◌, ap, ◌∙◌, String, true, false, some, List, [], ◌∷◌, any, find, arith,
  Bool-cases, Option-cases, inl, inr, All,
}
use goshield.Go.Errors.{wrapf, Result, ok, err, is_ok}
use goshield.Go.World.{continue, Env, ◌>>=◌}
use goshield.Go.World.Steps.{Preorder, Steps, steps_rules}
use goshield.Accounts.Domain.{
  User, RefreshToken, RegisterInput, LoginInput, OauthInput, UpdateUserInput,
}
use goshield.Accounts.Repository
use goshield.Accounts.Repository.{Accounts, has_hash, get_refresh_token, revoke_refresh_token}
use goshield.Accounts.Repository.Spent.{
  RevokedIf, IsSpent, Keeps, Keeps-Preorder, revoke-IsSpent, get_by_id-Steps, get_by_email-Steps,
  get_by_oauth_sub-Steps, get_refresh_token-Steps, update_last_login-Steps,
  revoke_refresh_token-Steps, revoke_all_user_tokens-Steps, store_refresh_token-Steps, delete-Steps,
  create-Steps, update-Steps,
}
use goshield.Accounts.Service.{
  none, wrapping, Setup, generate_token, issue_tokens, exchange, refresh_tokens, logout, logout_all,
  register, registered, login, check_password, welcome, refetched, oauth_created, by_email, by_sub,
  handle_oauth, update_user, delete_user,
}

-- A call of one of the service's methods, with its arguments.
pub data Request : Type 0 where
  registers : RegisterInput → Request
  logs_in : LoginInput → Request
  refreshes logs_out logs_out_everywhere : String → Request
  comes_by_oauth : OauthInput → Request
  updates : UpdateUserInput → Request
  deletes : String → String → Request

module _ (env : Env) (setup : Setup) where
  -- The world after a request, whether it returned or failed.
  pub serve : Request → Accounts → Accounts
  serve (registers input) w = (register env setup input w).1
  serve (logs_in input) w = (login env setup input w).1
  serve (refreshes token) w = (refresh_tokens env setup token w).1
  serve (logs_out token) w = (logout env setup token w).1
  serve (logs_out_everywhere i) w = (logout_all env setup i w).1
  serve (comes_by_oauth input) w = (handle_oauth env setup input w).1
  serve (updates input) w = (update_user env setup input w).1
  serve (deletes i company) w = (delete_user env setup i company w).1

  pub serve_all : List Request → Accounts → Accounts
  serve_all [] w = w
  serve_all (r ∷ rs) w = serve_all rs (serve r w)

module _ (h : String) (env : Env) (setup : Setup) where
  abbrev o : Preorder (Keeps h)
  o = Keeps-Preorder h

  generate_token-Steps :
      (u : User) (expiry : ℕ) → Steps (Keeps h) (generate_token env setup u expiry)
  unfolding generate_token
  generate_token-Steps u expiry = search steps_rules depth 9

  issue_tokens-Steps : (u : User) → Steps (Keeps h) (issue_tokens env setup u)
  unfolding issue_tokens
  issue_tokens-Steps u =
      search (steps_rules, generate_token-Steps, store_refresh_token-Steps) depth 9

  exchange-Steps : (g : String) (t : RefreshToken) → Steps (Keeps h) (exchange env setup g t)
  unfolding exchange
  exchange-Steps g t =
      search (steps_rules, revoke_refresh_token-Steps, get_by_id-Steps, issue_tokens-Steps) depth 9

  refresh_tokens-Steps : (token : String) → Steps (Keeps h) (refresh_tokens env setup token)
  unfolding refresh_tokens
  refresh_tokens-Steps token = search (steps_rules, get_refresh_token-Steps, exchange-Steps) depth 9

  registered-Steps : (r : Result User) → Steps (Keeps h) (registered env setup r)
  unfolding registered
  registered-Steps (ok u) = issue_tokens-Steps u
  registered-Steps (err e) = search steps_rules

  register-Steps : (input : RegisterInput) → Steps (Keeps h) (register env setup input)
  unfolding register
  register-Steps input = search (steps_rules, create-Steps, registered-Steps) depth 9

  check_password-Steps :
      (input : LoginInput) (r : Result User) → Steps (Keeps h) (check_password env setup input r)
  unfolding check_password
  check_password-Steps input (err e) = search steps_rules
  check_password-Steps input (ok u) =
      search (steps_rules, update_last_login-Steps, issue_tokens-Steps) depth 9

  login-Steps : (input : LoginInput) → Steps (Keeps h) (login env setup input)
  unfolding login
  login-Steps input = search (steps_rules, get_by_email-Steps, check_password-Steps) depth 9

  welcome-Steps : (u : User) → Steps (Keeps h) (welcome env setup u)
  unfolding welcome
  welcome-Steps u = search (steps_rules, update_last_login-Steps, issue_tokens-Steps) depth 9

  refetched-Steps : (r : Result User) → Steps (Keeps h) (refetched env setup r)
  unfolding refetched
  refetched-Steps (ok u) = issue_tokens-Steps u
  refetched-Steps (err e) = search steps_rules

  oauth_created-Steps :
      (input : OauthInput) (r : Result User) → Steps (Keeps h) (oauth_created env setup input r)
  unfolding oauth_created
  oauth_created-Steps input (ok u) = issue_tokens-Steps u
  oauth_created-Steps input (err e) =
      search (steps_rules, get_by_email-Steps, refetched-Steps) depth 9

  by_email-Steps :
      (input : OauthInput) (r : Result User) → Steps (Keeps h) (by_email env setup input r)
  unfolding by_email
  by_email-Steps input (ok u) = welcome-Steps u
  by_email-Steps input (err e) = search (steps_rules, create-Steps, oauth_created-Steps) depth 9

  by_sub-Steps : (input : OauthInput) (r : Result User) → Steps (Keeps h) (by_sub env setup input r)
  unfolding by_sub
  by_sub-Steps input (ok u) = welcome-Steps u
  by_sub-Steps input (err e) = search (steps_rules, get_by_email-Steps, by_email-Steps) depth 9

  handle_oauth-Steps : (input : OauthInput) → Steps (Keeps h) (handle_oauth env setup input)
  unfolding handle_oauth
  handle_oauth-Steps input = search (steps_rules, get_by_oauth_sub-Steps, by_sub-Steps) depth 9

  serve-Keeps : (r : Request) (w : Accounts) → Keeps h w.store (serve env setup r w).store
  unfolding serve logout logout_all update_user delete_user
  serve-Keeps (registers input) w = (register-Steps input).from w
  serve-Keeps (logs_in input) w = (login-Steps input).from w
  serve-Keeps (refreshes token) w = (refresh_tokens-Steps token).from w
  serve-Keeps (logs_out token) w =
      (revoke_refresh_token-Steps h env (setup.hash_token token)).from w
  serve-Keeps (logs_out_everywhere i) w = (revoke_all_user_tokens-Steps h env i).from w
  serve-Keeps (comes_by_oauth input) w = (handle_oauth-Steps input).from w
  serve-Keeps (updates input) w = (update-Steps h env input).from w
  serve-Keeps (deletes i company) w = (delete-Steps h env i company).from w

  serve_all-Keeps :
      (rs : List Request) (w : Accounts) → Keeps h w.store (serve_all env setup rs w).store
  unfolding serve_all
  serve_all-Keeps [] w k = k
  serve_all-Keeps (r ∷ rs) w k = serve_all-Keeps rs (serve env setup r w) (serve-Keeps r w k)

find-revoked :
    (h : String) (ts : List RefreshToken) (t : RefreshToken)
    → find (has_hash h) ts ≡ some t
    → All (RevokedIf h) ts
    → (at : ℕ) × (t.revoked_at ≡ some at)
find-revoked h [] t e k = cc
find-revoked h (u ∷ ts) t e k = elim (Bool-cases (has_hash h u)) [
  | inl same ↦
      let it : u ≡ t = ground arith in
      ((k.0 same).0, ap (λ x. x.revoked_at) (sym it) ∙ (k.0 same).1)
  | inr other ↦ find-revoked h ts t (ground arith) k.1
]

module _ (env : Env) (setup : Setup) where
  get-refused :
      (h : String) (w : Accounts)
      → IsSpent h w.store.tokens
      → is_ok (get_refresh_token env h w).0 ≡ false
  unfolding get_refresh_token ◌>>=◌
  get-refused h w spent = elim (Option-cases (find (has_hash h) w.store.tokens)) [
    | inl nobody ↦ ground arith
    | inr (t, there) ↦
        let revoked = find-revoked h w.store.tokens t there spent.1 in ground (arith, revoked.1)
  ]

  refresh-refused :
      (token : String) (w : Accounts)
      → IsSpent (setup.hash_token token) w.store.tokens
      → is_ok (refresh_tokens env setup token w).0 ≡ false
  unfolding refresh_tokens ◌>>=◌
  refresh-refused token w spent = ground (arith, get-refused (setup.hash_token token) w spent)

  -- After a logout of a stored token that the database accepts, the token is refused for ever,
  -- whatever requests come in between and whichever of their calls fail.
  pub logout-refuses :
      (token : String) (w : Accounts) (rs : List Request)
      → any (has_hash (setup.hash_token token)) w.store.tokens ≡ true
      → env.fails w.calls ≡ false
      → is_ok
          (refresh_tokens env setup token (serve_all env setup rs (logout env setup token w).1)).0
        ≡ false
  unfolding logout revoke_refresh_token ◌>>=◌
  logout-refuses token w rs there good =
      let h = setup.hash_token token in
      refresh-refused token (serve_all env setup rs (logout env setup token w).1) (
        serve_all-Keeps h env setup rs (logout env setup token w).1
          (rw good (revoke-IsSpent h (env.now w.calls) w.store.tokens there)))

  any-find :
      (h : String) (ts : List RefreshToken)
      → any (has_hash h) ts ≡ false
      → find (has_hash h) ts ≡ none
  any-find h [] e = refl
  any-find h (t ∷ ts) e = ground (arith, any-find h ts)

  exchange-IsSpent :
      (h : String) (t : RefreshToken) (w : Accounts)
      → any (has_hash h) w.store.tokens ≡ true
      → env.fails w.calls ≡ false
      → IsSpent h (exchange env setup h t w).1.store.tokens
  unfolding exchange revoke_refresh_token ◌>>=◌
  exchange-IsSpent h t w there good = (rest h).from (revoke_refresh_token env h w).1 spent
    where
      rest :
          (g : String)
          → Steps (Keeps g) (
              wrapping "user not found for refresh" (Repository.get_by_id env t.user_id "")
              >>= issue_tokens env setup)
      rest g = search (steps_rules, get_by_id-Steps, issue_tokens-Steps) depth 9

      spent : IsSpent h (revoke_refresh_token env h w).1.store.tokens
      spent = rw good (revoke-IsSpent h (env.now w.calls) w.store.tokens there)

  finish :
      (h : String) (r : Result RefreshToken) (v : Accounts)
      → is_ok (continue (wrapf "invalid refresh token" r) (exchange env setup h) v).0 ≡ true
      → any (has_hash h) v.store.tokens ≡ true
      → env.fails v.calls ≡ false
      → IsSpent h
          (continue (wrapf "invalid refresh token" r) (exchange env setup h) v).1.store.tokens
  finish h (ok t) v done there good = exchange-IsSpent h t v there good
  finish h (err e) v done there good = cc

  refreshed-IsSpent :
      (token : String) (w : Accounts)
      → is_ok (refresh_tokens env setup token w).0 ≡ true
      → env.fails (w.calls + 1) ≡ false
      → IsSpent (setup.hash_token token) (refresh_tokens env setup token w).1.store.tokens
  unfolding refresh_tokens get_refresh_token ◌>>=◌
  refreshed-IsSpent token w done good =
      let h = setup.hash_token token in
      elim (Bool-cases (env.fails w.calls)) [
        | inl bad ↦ absurd (ground arith)
        | inr fine ↦ elim (Bool-cases (any (has_hash h) w.store.tokens)) [
          | inl there ↦
              rw fine (finish h _ (record w { calls = w.calls + 1 }) (ground arith) there good)
          | inr nobody ↦ absurd (ground (arith, any-find h w.store.tokens nobody))
        ]
      ]

  -- A refresh that succeeds, while the database accepts the revocation, spends its token: it is
  -- refused for ever, whatever requests come in between and whichever of their calls fail.
  pub refresh_tokens-once :
      (token : String) (w : Accounts) (rs : List Request)
      → is_ok (refresh_tokens env setup token w).0 ≡ true
      → env.fails (w.calls + 1) ≡ false
      → is_ok
          (refresh_tokens env setup token
            (serve_all env setup rs (refresh_tokens env setup token w).1)).0
        ≡ false
  refresh_tokens-once token w rs done good =
      let h = setup.hash_token token in
      refresh-refused token (serve_all env setup rs (refresh_tokens env setup token w).1) (
        serve_all-Keeps h env setup rs (refresh_tokens env setup token w).1
          (refreshed-IsSpent token w done good))
