-- ===== src/Accounts/Repository.antt =====
-- services/auth-service/internal/repository/user_repository.go: the tables `users` and
-- `refresh_tokens` and their SQL. A statement is a function of the rows.
pub mod Spent
pub mod Active
pub mod Listing
pub mod Own
use goshield.Prelude.{
  ℕ, String, Bool, true, false, ◌&&◌, Option, none, some, List, [], ◌∷◌, ◌++◌, ◌==◌, ltb, any, find,
  update_where, if◌then◌else◌,
}
use goshield.Go.Errors.{
  wrap, errorf, external, Result, ok, err, not_found, already_exists, token_not_found,
  token_revoked, token_expired,
}
use goshield.Go.Text.{codes_eq}
use goshield.Go.World.{Env, World, Exec, ◌>>◌, pure, call, wrapping}
use goshield.Accounts.Domain.{UserRole, User, RefreshToken, UpdateUserInput}

pub record Tables : Type 0 where
  pub users : List User
  pub tokens : List RefreshToken

-- The service publishes nothing.
abbrev pub Accounts : Type 0
Accounts = World (Unit {0}) Tables

-- `COALESCE(is_active, active, true)`
abbrev pub is_enabled : User → Bool
is_enabled u = elim u.is_active [ some b ↦ b | none ↦ elim u.active [ some b ↦ b | none ↦ true ] ]

-- An empty company is any company.
abbrev pub has_user_id : String → String → User → Bool
has_user_id i company u = u.id == i && (if company == "" then true else u.company_id == company)

abbrev pub in_company : String → String → User → Bool
in_company i company u = u.id == i && u.company_id == company

abbrev pub has_hash : String → RefreshToken → Bool
has_hash h t = t.token_hash == h

abbrev with_users : (List User → List User) → Tables → Tables
with_users f t = record t { users = f t.users }

abbrev with_tokens : (List RefreshToken → List RefreshToken) → Tables → Tables
with_tokens f t = record t { tokens = f t.tokens }

abbrev pub keep : {A : Type 0} → Option A → A → A
keep none old = old
keep (some new) old = new

-- A NULL hash cannot be read into a string.
scanned : User → Option String → Exec Accounts User
scanned u none w = (err (wrap "scan user" (errorf "cannot scan NULL into *string")), w)
scanned u (some h) w = (ok u, w)

-- `scanUser`: no row is `ErrNotFound`.
scan_user : Option User → Exec Accounts User
unfolding scanned
scan_user none w = (err not_found, w)
scan_user (some u) w = scanned u u.password_hash w

scan_token : ℕ → Option RefreshToken → Result RefreshToken
scan_token now none = err token_not_found
scan_token now (some t) = elim t.revoked_at [
  | some _ ↦ err token_revoked
  | none ↦ if ltb t.expires_at now then err token_expired else ok t
]

module _ (env : Env) where
  -- `ON CONFLICT (company_id, email) DO NOTHING`
  insert_user : User → Exec Accounts User
  insert_user row w =
      if any (λ u. u.company_id == row.company_id && codes_eq u.email row.email) w.store.users
      then (err already_exists, w)
      else (ok row, record w { store = with_users (λ us. us ++ row ∷ []) w.store })

  unfoldable pub create : User → Exec Accounts User
  unfolding insert_user
  create user w =
      (wrapping "insert user" (call env (λ v. (ok tt, v)))
          >> insert_user
              (record user { created_at = env.now w.calls; updated_at = env.now w.calls }))
        w

  unfoldable pub get_by_id : String → String → Exec Accounts User
  unfolding scan_user
  get_by_id i company =
      call env
        (λ w. scan_user (find (λ u. has_user_id i company u && is_enabled u) w.store.users) w)

  unfoldable pub get_by_email : List ℕ → Exec Accounts User
  unfolding scan_user
  get_by_email email =
      call env (λ w. scan_user (find (λ u. codes_eq u.email email && is_enabled u) w.store.users) w)

  unfoldable pub get_by_oauth_sub : String → String → Exec Accounts User
  unfolding scan_user
  get_by_oauth_sub provider sub = call env (λ w.
      scan_user
        (find (λ u. (u.oauth_provider == provider && u.oauth_sub == sub) && is_enabled u)
          w.store.users)
        w)

  -- An UPDATE that does not look at the number of rows; `set` takes the time.
  abbrev pub set_users : (User → Bool) → (ℕ → User → User) → Exec Accounts (Unit {0})
  set_users p set w =
      call env
        (λ v.
          (ok tt, record v { store = with_users (update_where p (set (env.now w.calls))) v.store }))
        w

  abbrev pub set_tokens :
      (RefreshToken → Bool) → (ℕ → RefreshToken → RefreshToken) → Exec Accounts (Unit {0})
  set_tokens p set w =
      call env
        (λ v. (
          ok tt,
          record v { store = with_tokens (update_where p (set (env.now w.calls))) v.store },
        ))
        w

  update_role : UpdateUserInput → Option UserRole → Exec Accounts (Unit {0})
  update_role input none = pure tt
  update_role input (some r) = wrapping "update role" (
      set_users (in_company input.user_id input.company_id)
        (λ now u. record u { role = r; updated_at = now }))

  update_active : UpdateUserInput → Option Bool → Exec Accounts (Unit {0})
  update_active input none = pure tt
  update_active input (some b) = wrapping "update active" (
      set_users (in_company input.user_id input.company_id)
        (λ now u. record u { active = some b; updated_at = now }))

  update_names : UpdateUserInput → Option String → Option String → Exec Accounts (Unit {0})
  update_names input none none = pure tt
  update_names input first last = wrapping "update names" (
      set_users (in_company input.user_id input.company_id) (λ now u. record u {
        first_name = keep first u.first_name;
        last_name = keep last u.last_name;
        updated_at = now;
      }))

  unfoldable pub update : UpdateUserInput → Exec Accounts (Unit {0})
  unfolding update_role update_active update_names
  update input = do
    update_role input input.role
    update_active input input.active
    update_names input input.first_name input.last_name

  unfoldable pub update_last_login : String → Exec Accounts (Unit {0})
  update_last_login i = set_users (λ u. u.id == i) (λ now u. record u { last_login_at = some now })

  unfoldable pub delete : String → String → Exec Accounts (Unit {0})
  delete i company = call env λ w.
      if any (in_company i company) w.store.users
      then (
        ok tt,
        record w {
          store =
              with_users
                (update_where (in_company i company) (λ u. record u {
                  active = some false;
                  is_active = some false;
                  updated_at = env.now w.calls;
                }))
                w.store;
        },
      )
      else (err not_found, w)

  -- The hashes are unique.
  unfoldable pub store_refresh_token : RefreshToken → Exec Accounts (Unit {0})
  store_refresh_token t w =
      let row = record t { created_at = env.now w.calls; revoked_at = none } in
      call env
        (λ v.
          if any (has_hash row.token_hash) v.store.tokens
          then (err (external v.calls), v)
          else (ok tt, record v { store = with_tokens (λ ts. ts ++ row ∷ []) v.store }))
        w

  unfoldable pub get_refresh_token : String → Exec Accounts RefreshToken
  unfolding scan_token
  get_refresh_token h =
      call env (λ w. (scan_token (env.now w.calls) (find (has_hash h) w.store.tokens), w))

  unfoldable pub revoke_refresh_token : String → Exec Accounts (Unit {0})
  revoke_refresh_token h = set_tokens (has_hash h) (λ now t. record t { revoked_at = some now })

  is_unrevoked : RefreshToken → Bool
  is_unrevoked t = elim t.revoked_at [ none ↦ true | some _ ↦ false ]

  unfoldable pub revoke_all_user_tokens : String → Exec Accounts (Unit {0})
  unfolding is_unrevoked
  revoke_all_user_tokens i =
      set_tokens (λ t. t.user_id == i && is_unrevoked t)
        (λ now t. record t { revoked_at = some now })
