-- ===== src/Accounts/Repository/Own.antt =====
-- services/auth-service/internal/repository/user_repository.go: what statements on a user's own rows
-- leave unchanged.
use goshield.Prelude.{
  ℕ, ◌≡◌, refl, ap₂, ◌∙◌, String, Bool, true, ◌&&◌, Option, none, some, List, [], ◌∷◌, ◌==◌, map,
  find, update_where, arith, Bool-cases, inl, inr, if◌then◌else◌,
}
use goshield.Go.World.{Env}
use goshield.Go.World.Steps.{Preorder, Steps, Steps-call, Steps-bind, Steps-wrapping, Steps-pure}
use goshield.Middleware.{Identity}
use goshield.Accounts.Domain.{UserRole, User, RefreshToken, UpdateUserInput}
use goshield.Accounts.Repository.{
  Tables, in_company, keep, scan_user, scanned, get_by_id, set_users, update, update_role,
  update_active, update_names, revoke_all_user_tokens, is_unrevoked,
}

-- The part of a row that the user may not change: all but three fields of the own row.
abbrev pub locked : Identity → User → User
locked who u =
    if in_company who.user_id who.company_id u
    then record u { active = none; first_name = ""; last_name = ""; updated_at = 0 }
    else u

-- Of the own tokens, all but the revocation.
abbrev pub locked_token : Identity → RefreshToken → RefreshToken
locked_token who t = if t.user_id == who.user_id then record t { revoked_at = none } else t

abbrev pub Spares : Identity → Tables → Tables → Type 0
Spares who s t =
    (map (locked who) t.users ≡ map (locked who) s.users)
    × (map (locked_token who) t.tokens ≡ map (locked_token who) s.tokens)

pub Spares-Preorder : (who : Identity) → Preorder (Spares who)
Spares-Preorder who = record {
  same = λ s. (refl, refl);
  chain = λ s t u p q. (q.0 ∙ p.0, q.1 ∙ p.1);
}

-- An UPDATE is not seen by a function that does not see what it sets.
map-update_where :
    {A B : Type 0} (f : A → B) (p : A → Bool) (set : A → A) (xs : List A)
    → ((x : A) → p x ≡ true → f (set x) ≡ f x)
    → map f (update_where p set xs) ≡ map f xs
map-update_where f p set [] same = refl
map-update_where f p set (x ∷ xs) same = elim (Bool-cases (p x)) [
  | inl e ↦ rw e (ap₂ ◌∷◌ (same x e) (map-update_where f p set xs same))
  | inr e ↦ rw e (ap₂ ◌∷◌ refl (map-update_where f p set xs same))
]

module _ (who : Identity) (env : Env) where
  abbrev o : Preorder (Spares who)
  o = Spares-Preorder who

  set_own-Steps :
      (set : ℕ → User → User)
      → ((now : ℕ) (u : User)
          → in_company who.user_id who.company_id u ≡ true
          → locked who (set now u) ≡ locked who u)
      → Steps (Spares who) (set_users env (in_company who.user_id who.company_id) set)
  set_own-Steps set same = record {
    from = λ w.
        (Steps-call o env _ (record {
          from = λ v. (
            map-update_where (locked who) (in_company who.user_id who.company_id)
                (set (env.now w.calls)) v.store.users (same (env.now w.calls)),
            refl,
          );
        })).from
          w;
  }

  update_active-Steps :
      (input : UpdateUserInput) (b : Option Bool)
      → input.user_id ≡ who.user_id
      → input.company_id ≡ who.company_id
      → Steps (Spares who) (update_active env input b)
  unfolding update_active
  update_active-Steps input none i c = Steps-pure o tt
  update_active-Steps input (some b) i c = rw i (
      rw c (
        Steps-wrapping o _ _ (
          set_own-Steps (λ now u. record u { active = some b; updated_at = now })
            (λ now u e. rw e refl))))

  abbrev set_names : Option String → Option String → ℕ → User → User
  set_names first last now u = record u {
    first_name = keep first u.first_name;
    last_name = keep last u.last_name;
    updated_at = now;
  }

  names_set-Steps :
      (first last : Option String)
      → Steps
          (Spares who)
          (set_users env (in_company who.user_id who.company_id) (set_names first last))
  names_set-Steps first last = set_own-Steps (set_names first last) (λ now u e. rw e refl)

  update_names-Steps :
      (input : UpdateUserInput) (first last : Option String)
      → input.user_id ≡ who.user_id
      → input.company_id ≡ who.company_id
      → Steps (Spares who) (update_names env input first last)
  unfolding update_names
  update_names-Steps input none none i c = Steps-pure o tt
  update_names-Steps input (some f) last i c =
      rw i (rw c (Steps-wrapping o _ _ (names_set-Steps (some f) last)))
  update_names-Steps input none (some l) i c =
      rw i (rw c (Steps-wrapping o _ _ (names_set-Steps none (some l))))

  update_role-Steps :
      (input : UpdateUserInput) (r : Option UserRole)
      → r ≡ none
      → Steps (Spares who) (update_role env input r)
  unfolding update_role
  update_role-Steps input none e = Steps-pure o tt
  update_role-Steps input (some r) e = absurd (ground arith)

  -- An update of the own row that has no role.
  pub update-Steps :
      (input : UpdateUserInput)
      → input.user_id ≡ who.user_id
      → input.company_id ≡ who.company_id
      → input.role ≡ none
      → Steps (Spares who) (update env input)
  unfolding update
  update-Steps input i c e = Steps-bind o _ _ (update_role-Steps input input.role e) (λ a.
      Steps-bind o _ _ (update_active-Steps input input.active i c)
        (λ b. update_names-Steps input input.first_name input.last_name i c))

  pub revoke_all-Steps : Steps (Spares who) (revoke_all_user_tokens env who.user_id)
  unfolding revoke_all_user_tokens
  revoke_all-Steps = record {
    from = λ w.
        (Steps-call o env _ (record {
          from = λ v. (
            refl,
            map-update_where (locked_token who)
                (λ t. t.user_id == who.user_id && is_unrevoked env t)
                (λ t. record t { revoked_at = some (env.now w.calls) }) v.store.tokens
                (λ t e. own t (env.now w.calls) e),
          );
        })).from
          w;
  }
    where
      own :
          (t : RefreshToken) (now : ℕ)
          → (t.user_id == who.user_id && is_unrevoked env t) ≡ true
          → locked_token who (record t { revoked_at = some now }) ≡ locked_token who t
      own t now e = let mine : (t.user_id == who.user_id) ≡ true = ground arith in rw mine refl

  scanned-Steps : (u : User) (h : Option String) → Steps (Spares who) (scanned u h)
  unfolding scanned
  scanned-Steps u none = record { from = λ w. o.same w.store }
  scanned-Steps u (some h) = record { from = λ w. o.same w.store }

  scan_user-Steps : (found : Option User) → Steps (Spares who) (scan_user found)
  unfolding scan_user
  scan_user-Steps none = record { from = λ w. o.same w.store }
  scan_user-Steps (some u) = record { from = λ w. (scanned-Steps u u.password_hash).from w }

  pub get_by_id-Steps : (i company : String) → Steps (Spares who) (get_by_id env i company)
  unfolding get_by_id
  get_by_id-Steps i company =
      Steps-call o env _ (record { from = λ w. (scan_user-Steps (find _ w.store.users)).from w })
