-- ===== src/Accounts/Repository/Listing.antt =====
-- services/auth-service/internal/repository/user_repository.go: `List`. The order of the rows,
-- `ORDER BY created_at DESC`, is the database's: a parameter.
use goshield.Prelude.{
  ℕ, ◌*◌, ◌-◌, Bool, true, false, ◌&&◌, Option, none, some, List, ◌==◌, eqb, any, select, take,
  drop, length, if◌then◌else◌,
}
use goshield.Go.Errors.{Result, ok, err, wrap, errorf}
use goshield.Go.World.{Env, Exec, ◌>>=◌, pure, lift, call, wrapping}
use goshield.Accounts.Domain.{User, UserListFilter, role_string}
use goshield.Accounts.Repository.{String, Accounts}

same_bool : Bool → Bool → Bool
same_bool true b = b
same_bool false b = if b then false else true

-- `active = $3`, which NULL does not pass.
is_active_as : Option Bool → Option Bool → Bool
unfolding same_bool
is_active_as none column = true
is_active_as (some wanted) none = false
is_active_as (some wanted) (some b) = same_bool wanted b

-- The conditions of the WHERE clause.
unfoldable pub is_listed : UserListFilter → User → Bool
unfolding is_active_as
is_listed filter u =
    u.company_id == filter.company_id
    && (if role_string filter.role == ""
        then true
        else role_string u.role == role_string filter.role)
    && is_active_as filter.active u.active

abbrev or_default : ℕ → ℕ → ℕ
or_default d n = if eqb n 0 then d else n

abbrev is_null : Option String → Bool
is_null none = true
is_null (some h) = false

abbrev users_page : (List User → List User) → UserListFilter → List User → List User
users_page sorted filter rows = take (or_default 20 filter.page_size) (
    drop ((or_default 1 filter.page - 1) * or_default 20 filter.page_size)
      (sorted (select (is_listed filter) rows)))

-- `scanUserRow` of each row: a NULL hash fails the listing.
abbrev scan_rows : List User → Result (List User)
scan_rows us =
    if any (λ u. is_null u.password_hash) us
    then err (wrap "scan user row" (errorf "cannot scan NULL into *string"))
    else ok us

module _ (env : Env) (sorted : List User → List User) where
  unfoldable pub list : UserListFilter → Exec Accounts (List User × ℕ)
  list filter = do
    total ←
        wrapping "count users"
          (call env (λ w. (ok (length (select (is_listed filter) w.store.users)), w)))
    page ← wrapping "list users" (call env (λ w. (ok (users_page sorted filter w.store.users), w)))
    rows ← lift (scan_rows page)
    pure (rows, total)
