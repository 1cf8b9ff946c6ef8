-- ===== src/Accounts/Http/Users/Access.antt =====
-- services/auth-service/internal/handler/http.go: what a user that is no administrator changes through
-- the routes below /users.
use goshield.Prelude.{
  ◌≡◌, refl, String, false, none, some, List, [], ◌∷◌, ◌==◌, Bool-cases, inl, inr, eq_iff, sym,
}
use goshield.Go.Errors.{Error, Result, ok, err}
use goshield.Go.World.{Env, ◌>>=◌}
use goshield.Go.World.Steps.{Steps-attempt, Steps-bind, Preorder, Steps, steps_rules}
use goshield.Middleware.{Identity}
use goshield.Accounts.Domain.{User}
use goshield.Accounts.Repository.{Accounts, update}
use goshield.Accounts.Repository.Own.{
  Spares, Spares-Preorder, update-Steps, revoke_all-Steps, get_by_id-Steps,
}
use goshield.Accounts.Service.{Setup, get_user, logout_all, update_user}
use goshield.Accounts.Http.Users.{
  attempt, Option, UsersRequest, asks_me, logs_out_everywhere, lists, gets, deletes, updates,
  UpdateUserRequest, route, get_current_user, shown, missing_or, logout_all_handler, revoked_all,
  get_user_handler, list_users_handler, update_user_handler, changed, delete_user_handler,
}

module _ (env : Env) (setup : Setup) (sorted : List User → List User) (who : Identity) where
  abbrev o : Preorder (Spares who)
  o = Spares-Preorder who

  missing_or-Steps : (m : String) (e : Error) → Steps (Spares who) (missing_or env setup m e)
  unfolding missing_or
  missing_or-Steps m e = search (steps_rules, Spares-Preorder)

  shown-Steps : (r : Result User) → Steps (Spares who) (shown env setup r)
  unfolding shown
  shown-Steps (ok u) = search (steps_rules, Spares-Preorder)
  shown-Steps (err e) = missing_or-Steps _ e

  get_current_user-Steps : Steps (Spares who) (get_current_user env setup who)
  unfolding get_current_user get_user
  get_current_user-Steps =
      search (steps_rules, Spares-Preorder, get_by_id-Steps, shown-Steps) depth 9

  revoked_all-Steps : (r : Result (Unit {0})) → Steps (Spares who) (revoked_all env setup r)
  unfolding revoked_all
  revoked_all-Steps (ok x) = search (steps_rules, Spares-Preorder)
  revoked_all-Steps (err e) = search (steps_rules, Spares-Preorder)

  logout_all_handler-Steps : Steps (Spares who) (logout_all_handler env setup who)
  unfolding logout_all_handler logout_all
  logout_all_handler-Steps =
      search (steps_rules, Spares-Preorder, revoke_all-Steps, revoked_all-Steps) depth 9

  changed-Steps : (r : Result (Unit {0})) → Steps (Spares who) (changed env setup r)
  unfolding changed
  changed-Steps (ok x) = search (steps_rules, Spares-Preorder)
  changed-Steps (err e) = search (steps_rules, Spares-Preorder)

  own_update-Steps :
      (i : String) (r : UpdateUserRequest)
      → i ≡ who.user_id
      → Steps (Spares who) (do
        done ← attempt (
            update env (record {
              user_id = i;
              company_id = who.company_id;
              role = none;
              active = r.active;
              first_name = r.first_name;
              last_name = r.last_name;
            }))
        changed env setup done)
  own_update-Steps i r e =
      Steps-bind o _ _ (Steps-attempt o _ (update-Steps who env _ e refl refl)) changed-Steps

  update_user_handler-Steps :
      (i : String) (r : Option UpdateUserRequest)
      → (who.role == "ADMIN") ≡ false
      → Steps (Spares who) (update_user_handler env setup who i r)
  unfolding update_user_handler update_user
  update_user_handler-Steps i none e = search (steps_rules, Spares-Preorder)
  update_user_handler-Steps i (some r) e = elim (Bool-cases (who.user_id == i)) [
    | inl own ↦ rw e (rw own (own_update-Steps i r (sym ((eq_iff who.user_id i).0 own))))
    | inr other ↦ rw e (rw other (search (steps_rules, Spares-Preorder)))
  ]

  route-Steps :
      (r : UsersRequest)
      → (who.role == "ADMIN") ≡ false
      → Steps (Spares who) (route env setup sorted who r)
  unfolding route get_user_handler list_users_handler delete_user_handler
  route-Steps asks_me e = get_current_user-Steps
  route-Steps logs_out_everywhere e = logout_all_handler-Steps
  route-Steps (lists role page size) e = rw e (search (steps_rules, Spares-Preorder))
  route-Steps (gets i) e = rw e (search (steps_rules, Spares-Preorder))
  route-Steps (deletes i) e = rw e (search (steps_rules, Spares-Preorder))
  route-Steps (updates i r) e = update_user_handler-Steps i r e

  -- The world after requests of the user, whether they returned or failed.
  pub serve_all : List UsersRequest → Accounts → Accounts
  serve_all [] w = w
  serve_all (r ∷ rs) w = serve_all rs (route env setup sorted who r w).1

  -- A user that is no administrator changes, by requests below /users and whichever of their calls
  -- fail, nothing of another's row or token; of the own row at most the active state, the names and
  -- the time of the update, of the own tokens at most their revocation.
  pub serve_all-Spares :
      (rs : List UsersRequest) (w : Accounts)
      → (who.role == "ADMIN") ≡ false
      → Spares who w.store (serve_all rs w).store
  unfolding serve_all
  serve_all-Spares [] w e = o.same w.store
  serve_all-Spares (r ∷ rs) w e =
      o.chain _ _ _ ((route-Steps r e).from w)
        (serve_all-Spares rs (route env setup sorted who r w).1 e)
