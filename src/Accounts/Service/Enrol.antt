-- ===== src/Accounts/Service/Enrol.antt =====
-- services/auth-service/internal/service/auth_service.go: the account that `Register` makes.
use goshield.Prelude.{
  ℕ, ◌+◌, ◌≡◌, refl, ◌∙◌, String, false, ◌&&◌, [], ◌∷◌, ◌++◌, ◌==◌, any, Bool-cases, inl, inr,
}
use goshield.Go.Errors.{ok}
use goshield.Go.Text.{codes_eq}
use goshield.Go.World.{Env, ◌>>=◌}
use goshield.Go.World.Steps.{Preorder, Steps, Steps-call, steps_rules}
use goshield.Accounts.Domain.{User, RefreshToken, RegisterInput}
use goshield.Accounts.Repository.{Accounts, Tables, has_hash, create, store_refresh_token}
use goshield.Accounts.Service.{
  Setup, generate_token, issue_tokens, register, registered, new_account, normalize,
}

abbrev pub SameUsers : Tables → Tables → Type 0
SameUsers s t = t.users ≡ s.users

pub SameUsers-Preorder : Preorder SameUsers
SameUsers-Preorder = record { same = λ s. refl; chain = λ s t u p q. q ∙ p }

module _ (env : Env) (setup : Setup) where
  store-Steps : (t : RefreshToken) → Steps SameUsers (store_refresh_token env t)
  unfolding store_refresh_token
  store-Steps t = record {
    from = λ w.
        (Steps-call SameUsers-Preorder env _ (record {
          from = λ v. elim (Bool-cases (any (has_hash t.token_hash) v.store.tokens)) [
            | inl e ↦ rw e refl
            | inr e ↦ rw e refl
          ];
        })).from
          w;
  }

  generate_token-Steps :
      (u : User) (expiry : ℕ) → Steps SameUsers (generate_token env setup u expiry)
  unfolding generate_token
  generate_token-Steps u expiry = search (steps_rules, SameUsers-Preorder) depth 9

  issue_tokens-Steps : (u : User) → Steps SameUsers (issue_tokens env setup u)
  unfolding issue_tokens
  issue_tokens-Steps u =
      search (steps_rules, SameUsers-Preorder, generate_token-Steps, store-Steps) depth 9

  -- What `Register` adds for a fresh email: the account that the input describes.
  pub register-adds :
      (input : RegisterInput) (h : String) (w : Accounts)
      → setup.hash_password input.password ≡ ok h
      → any
          (λ u. u.company_id == input.company_id && codes_eq u.email (normalize input.email))
          w.store.users
        ≡ false
      → ((n : ℕ) → env.fails n ≡ false)
      → (register env setup input w).1.store.users
        ≡ w.store.users
          ++ record (new_account env setup (env.uuid w.calls) h input) {
            created_at = env.now (w.calls + 1);
            updated_at = env.now (w.calls + 1);
          }
            ∷ []
  unfolding register create registered new_account ◌>>=◌
  register-adds input h w hashed fresh good =
      rw hashed (rw (good (w.calls + 1)) (rw fresh ((issue_tokens-Steps _).from _)))
