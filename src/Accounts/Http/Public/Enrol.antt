-- ===== src/Accounts/Http/Public/Enrol.antt =====
-- services/auth-service/internal/handler/http.go: the account that a registration makes.
use goshield.Prelude.{ℕ, ◌≡◌, refl, ◌∙◌, String, true, false, ◌&&◌, some, [], ◌∷◌, ◌++◌, ◌==◌, any}
use goshield.Go.Errors.{Error, Result, ok, err}
use goshield.Go.Text.{codes_eq}
use goshield.Go.World.{Env, ◌>>=◌}
use goshield.Go.World.Steps.{Steps, steps_rules}
use goshield.Accounts.Domain.{User, RegisterInput, admin}
use goshield.Accounts.Repository.{Accounts}
use goshield.Accounts.Service.{
  Setup, AuthResponse, register, new_account, normalize, role_or_analyst,
}
use goshield.Accounts.Service.Enrol.{SameUsers, SameUsers-Preorder, register-adds}
use goshield.Accounts.Http.{RegisterRequest, Web}
use goshield.Accounts.Http.Public.{
  register_handler, is_valid_registration, enrolled, registration_refused,
}

module _ (env : Env) (setup : Setup) (web : Web) where
  refused-Steps : (e : Error) → Steps SameUsers (registration_refused env setup web e)
  unfolding registration_refused
  refused-Steps e = search (steps_rules, SameUsers-Preorder)

  enrolled-Steps : (r : Result AuthResponse) → Steps SameUsers (enrolled env setup web r)
  unfolding enrolled
  enrolled-Steps (ok r) = search (steps_rules, SameUsers-Preorder)
  enrolled-Steps (err e) = refused-Steps e

  abbrev as_administrator : RegisterRequest → RegisterInput
  as_administrator r = record {
    company_id = r.company_id;
    email = r.email;
    password = r.password;
    first_name = r.first_name;
    last_name = r.last_name;
    role = admin;
  }

  -- A valid request without a token, for an email that is fresh in the company it names, makes an
  -- administrator of that company if it asks for the role, when the password is hashed and the
  -- database accepts the calls.
  pub register_handler-admin :
      (r : RegisterRequest) (h : String) (w : Accounts)
      → is_valid_registration env setup web r ≡ true
      → r.role ≡ "ADMIN"
      → setup.hash_password r.password ≡ ok h
      → any
          (λ u. u.company_id == r.company_id && codes_eq u.email (normalize r.email))
          w.store.users
        ≡ false
      → ((n : ℕ) → env.fails n ≡ false)
      → (u : User) × ((register_handler env setup web (some r) w).1.store.users
          ≡ w.store.users ++ u ∷ [])
        × (u.company_id ≡ r.company_id)
        × (u.role ≡ admin)
  unfolding register_handler new_account role_or_analyst ◌>>=◌
  register_handler-admin r h w valid asked hashed fresh good =
      let input = as_administrator r in
      let done = register env setup input w in
      rw valid (
        rw asked (
          _,
          (enrolled-Steps done.0).from done.1 ∙ register-adds env setup input h w hashed fresh good,
          refl,
          refl,
        ))
