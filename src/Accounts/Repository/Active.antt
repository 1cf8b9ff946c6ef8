-- ===== src/Accounts/Repository/Active.antt =====
-- services/auth-service/internal/repository/user_repository.go: what `Update` does to the state of an
-- account.
use goshield.Prelude.{
  ℕ, ◌≡◌, refl, ap, ap₂, ◌∙◌, String, Bool, Option, none, some, List, [], ◌∷◌, map, update_where,
  arith, Bool-cases, inl, inr, All,
}
use goshield.Go.World.{Env, wrapping}
use goshield.Go.World.Steps.{Preorder, Steps, Steps-call, Steps-bind, Steps-wrapping, Steps-pure}
use goshield.Accounts.Domain.{User, UserRole, UpdateUserInput}
use goshield.Accounts.Repository.{
  Accounts, Tables, keep, is_enabled, in_company, set_users, update, update_role, update_active,
  update_names,
}

-- The column `is_active` is not NULL, as `Create` leaves it.
abbrev pub HasFlag : User → Type 0
HasFlag u = (b : Bool) × (u.is_active ≡ some b)

abbrev Holds : Tables → Tables → Type 0
Holds s t =
    All HasFlag s.users → All HasFlag t.users × (map is_enabled t.users ≡ map is_enabled s.users)

Holds-Preorder : Preorder Holds
Holds-Preorder = record {
  same = λ s k. (k, refl);
  chain = λ s t u p q k. ((q (p k).0).0, (q (p k).0).1 ∙ (p k).1);
}

is_enabled-flag : (u v : User) → HasFlag u → v.is_active ≡ u.is_active → is_enabled v ≡ is_enabled u
is_enabled-flag u v (b, e) same = ground (arith, e, same)

update_where-Holds :
    (p : User → Bool) (set : User → User) (us : List User)
    → ((u : User) → (set u).is_active ≡ u.is_active)
    → All HasFlag us
    → All HasFlag (update_where p set us)
      × (map is_enabled (update_where p set us) ≡ map is_enabled us)
update_where-Holds p set [] same k = (tt, refl)
update_where-Holds p set (u ∷ us) same k =
    let rest = update_where-Holds p set us same k.1 in
    elim (Bool-cases (p u)) [
      | inl e ↦ rw e (
        ((k.0.0, same u ∙ k.0.1), rest.0),
        ap₂ ◌∷◌ (is_enabled-flag u (set u) k.0 (same u)) rest.1,
      )
      | inr e ↦ rw e ((k.0, rest.0), ap (◌∷◌ (is_enabled u)) rest.1)
    ]

module _ (env : Env) where
  set_users-Holds :
      (p : User → Bool) (set : ℕ → User → User)
      → ((now : ℕ) (u : User) → (set now u).is_active ≡ u.is_active)
      → Steps Holds (set_users env p set)
  set_users-Holds p set same = record {
    from = λ w.
        (Steps-call Holds-Preorder env _ (record {
          from = λ v.
              update_where-Holds p (set (env.now w.calls)) v.store.users (same (env.now w.calls));
        })).from
          w;
  }

  update_role-Holds :
      (input : UpdateUserInput) (r : Option UserRole) → Steps Holds (update_role env input r)
  unfolding update_role
  update_role-Holds input none = Steps-pure Holds-Preorder tt
  update_role-Holds input (some r) = Steps-wrapping Holds-Preorder _ _ (
      set_users-Holds (in_company input.user_id input.company_id)
        (λ now u. record u { role = r; updated_at = now }) (λ now u. refl))

  update_active-Holds :
      (input : UpdateUserInput) (b : Option Bool) → Steps Holds (update_active env input b)
  unfolding update_active
  update_active-Holds input none = Steps-pure Holds-Preorder tt
  update_active-Holds input (some b) = Steps-wrapping Holds-Preorder _ _ (
      set_users-Holds (in_company input.user_id input.company_id)
        (λ now u. record u { active = some b; updated_at = now }) (λ now u. refl))

  names-Holds :
      (input : UpdateUserInput) (first last : Option String)
      → Steps Holds (
          wrapping "update names" (
            set_users env (in_company input.user_id input.company_id) (λ now u. record u {
              first_name = keep first u.first_name;
              last_name = keep last u.last_name;
              updated_at = now;
            })))
  names-Holds input first last = Steps-wrapping Holds-Preorder _ _ (
      set_users-Holds (in_company input.user_id input.company_id)
        (λ now u. record u {
          first_name = keep first u.first_name;
          last_name = keep last u.last_name;
          updated_at = now;
        })
        (λ now u. refl))

  update_names-Holds :
      (input : UpdateUserInput) (first last : Option String)
      → Steps Holds (update_names env input first last)
  unfolding update_names
  update_names-Holds input none none = Steps-pure Holds-Preorder tt
  update_names-Holds input (some f) last = names-Holds input (some f) last
  update_names-Holds input none (some l) = names-Holds input none (some l)

  -- No update changes which accounts the searches find active, also one that sets `active` to false
  -- and whichever of its calls fail: where `is_active` is not NULL, it decides, and no update writes
  -- it.
  pub update-is_enabled :
      (input : UpdateUserInput) (w : Accounts)
      → All HasFlag w.store.users
      → map is_enabled (update env input w).1.store.users ≡ map is_enabled w.store.users
  unfolding update
  update-is_enabled input w flags =
      ((Steps-bind Holds-Preorder _ _ (update_role-Holds input input.role) (λ a.
          Steps-bind Holds-Preorder _ _ (update_active-Holds input input.active)
            (λ b. update_names-Holds input input.first_name input.last_name))).from
        w flags).1
