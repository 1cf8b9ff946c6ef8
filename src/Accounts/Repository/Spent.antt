-- ===== src/Accounts/Repository/Spent.antt =====
-- services/auth-service/internal/repository/user_repository.go: no statement makes a revoked refresh
-- token good again.
use goshield.Prelude.{
  ℕ, ◌≡◌, refl, String, Bool, true, false, ◌&&◌, Option, none, some, List, [], ◌∷◌, ◌++◌, ◌==◌, any,
  find, update_where, arith, Bool-cases, inl, inr, All, All-append, eq_iff, subst,
}
use goshield.Go.Text.{codes_eq}
use goshield.Go.World.{Env, call}
use goshield.Go.World.Steps.{Preorder, Steps, Steps-call, Steps-bind, Steps-wrapping, Steps-pure}
use goshield.Accounts.Domain.{User, UserRole, RefreshToken, UpdateUserInput}
use goshield.Accounts.Repository.{
  Tables, has_hash, in_company, scan_user, scanned, create, get_by_id, get_by_email,
  get_by_oauth_sub, insert_user, set_users, set_tokens, update_role, update_active, update_names,
  update, update_last_login, delete, store_refresh_token, get_refresh_token, revoke_refresh_token,
  revoke_all_user_tokens,
}

-- The token is revoked if it has the hash.
abbrev pub RevokedIf : String → RefreshToken → Type 0
RevokedIf h t = has_hash h t ≡ true → (at : ℕ) × (t.revoked_at ≡ some at)

-- There is a token with the hash, and every one is revoked.
abbrev pub IsSpent : String → List RefreshToken → Type 0
IsSpent h ts = (any (has_hash h) ts ≡ true) × All (RevokedIf h) ts

abbrev pub Keeps : String → Tables → Tables → Type 0
Keeps h s t = IsSpent h s.tokens → IsSpent h t.tokens

pub Keeps-Preorder : (h : String) → Preorder (Keeps h)
Keeps-Preorder h = record { same = λ s k. k; chain = λ s t u p q k. q (p k) }

abbrev pub revoke : ℕ → RefreshToken → RefreshToken
revoke now t = record t { revoked_at = some now }

any-revoke :
    (h : String) (p : RefreshToken → Bool) (now : ℕ) (ts : List RefreshToken)
    → any (has_hash h) (update_where p (revoke now) ts) ≡ any (has_hash h) ts
any-revoke h p now [] = refl
any-revoke h p now (t ∷ ts) = ground (arith, any-revoke h p now ts)

All-revoke :
    (h : String) (p : RefreshToken → Bool) (now : ℕ) (ts : List RefreshToken)
    → All (RevokedIf h) ts
    → All (RevokedIf h) (update_where p (revoke now) ts)
All-revoke h p now [] k = tt
All-revoke h p now (t ∷ ts) k = elim (Bool-cases (p t)) [
  | inl e ↦ rw e (λ same. (now, refl), All-revoke h p now ts k.1)
  | inr e ↦ rw e (k.0, All-revoke h p now ts k.1)
]

pub revoke-Keeps :
    (h : String) (p : RefreshToken → Bool) (now : ℕ) (ts : List RefreshToken)
    → IsSpent h ts
    → IsSpent h (update_where p (revoke now) ts)
revoke-Keeps h p now ts k = rw (any-revoke h p now ts) (k.0, All-revoke h p now ts k.1)

-- A revocation of the hash makes a token with it spent.
pub revoke-IsSpent :
    (h : String) (now : ℕ) (ts : List RefreshToken)
    → any (has_hash h) ts ≡ true
    → IsSpent h (update_where (has_hash h) (revoke now) ts)
revoke-IsSpent h now ts there = rw (any-revoke h (has_hash h) now ts) (there, all ts)
  where
    all : (us : List RefreshToken) → All (RevokedIf h) (update_where (has_hash h) (revoke now) us)
    all [] = tt
    all (t ∷ us) = elim (Bool-cases (has_hash h t)) [
      | inl e ↦ rw e (λ same. (now, refl), all us)
      | inr e ↦ rw e (λ same. absurd (ground arith), all us)
    ]

any-append_row :
    (p : RefreshToken → Bool) (ts : List RefreshToken) (row : RefreshToken)
    → any p ts ≡ true
    → any p (ts ++ row ∷ []) ≡ true
any-append_row p [] row e = cc
any-append_row p (t ∷ ts) row e = ground (arith, any-append_row p ts row)

-- A new row with another hash leaves a spent token spent.
append-Keeps :
    (h : String) (row : RefreshToken) (ts : List RefreshToken)
    → any (has_hash row.token_hash) ts ≡ false
    → IsSpent h ts
    → IsSpent h (ts ++ row ∷ [])
append-Keeps h row ts fresh k = (
  any-append_row (has_hash h) ts row k.0,
  All-append (RevokedIf h) ts (row ∷ []) k.1
      ((λ same. absurd (clash ((eq_iff row.token_hash h).0 same))), tt),
)
  where
    clash : row.token_hash ≡ h → ⊥
    clash e =
        let gone : any (has_hash h) ts ≡ false = subst (λ x. any (has_hash x) ts ≡ false) e fresh in
        cc

module _ (h : String) (env : Env) where
  abbrev o : Preorder (Keeps h)
  o = Keeps-Preorder h

  scanned-Steps : (u : User) (hash : Option String) → Steps (Keeps h) (scanned u hash)
  unfolding scanned
  scanned-Steps u none = record { from = λ w. (λ k. k) }
  scanned-Steps u (some hash) = record { from = λ w. (λ k. k) }

  scan_user-Steps : (found : Option User) → Steps (Keeps h) (scan_user found)
  unfolding scan_user
  scan_user-Steps none = record { from = λ w k. k }
  scan_user-Steps (some u) = record { from = λ w. (scanned-Steps u u.password_hash).from w }

  scan-Steps :
      (p : User → Bool) → Steps (Keeps h) (call env (λ w. scan_user (find p w.store.users) w))
  scan-Steps p =
      Steps-call o env _ (record { from = λ w. (scan_user-Steps (find p w.store.users)).from w })

  pub get_by_id-Steps : (i company : String) → Steps (Keeps h) (get_by_id env i company)
  unfolding get_by_id
  get_by_id-Steps i company = scan-Steps _

  pub get_by_email-Steps : (email : List ℕ) → Steps (Keeps h) (get_by_email env email)
  unfolding get_by_email
  get_by_email-Steps email = scan-Steps _

  pub get_by_oauth_sub-Steps :
      (provider sub : String) → Steps (Keeps h) (get_by_oauth_sub env provider sub)
  unfolding get_by_oauth_sub
  get_by_oauth_sub-Steps provider sub = scan-Steps _

  pub get_refresh_token-Steps : (g : String) → Steps (Keeps h) (get_refresh_token env g)
  unfolding get_refresh_token
  get_refresh_token-Steps g = Steps-call o env _ (record { from = λ w k. k })

  set_users-Steps :
      (p : User → Bool) (set : ℕ → User → User) → Steps (Keeps h) (set_users env p set)
  set_users-Steps p set = record {
    from = λ w. (Steps-call o env _ (record { from = λ v k. k })).from w;
  }

  revoking-Steps : (p : RefreshToken → Bool) → Steps (Keeps h) (set_tokens env p revoke)
  revoking-Steps p = record {
    from = λ w.
        (Steps-call o env _
            (record { from = λ v. revoke-Keeps h p (env.now w.calls) v.store.tokens })).from
          w;
  }

  pub update_last_login-Steps : (i : String) → Steps (Keeps h) (update_last_login env i)
  unfolding update_last_login
  update_last_login-Steps i = search set_users-Steps

  pub revoke_refresh_token-Steps : (g : String) → Steps (Keeps h) (revoke_refresh_token env g)
  unfolding revoke_refresh_token
  revoke_refresh_token-Steps g = revoking-Steps (has_hash g)

  pub revoke_all_user_tokens-Steps : (i : String) → Steps (Keeps h) (revoke_all_user_tokens env i)
  unfolding revoke_all_user_tokens
  revoke_all_user_tokens-Steps i = revoking-Steps _

  pub store_refresh_token-Steps : (t : RefreshToken) → Steps (Keeps h) (store_refresh_token env t)
  unfolding store_refresh_token
  store_refresh_token-Steps t = record {
    from = λ w.
        (Steps-call o env _ (record {
          from = λ v.
              let row = record t { created_at = env.now w.calls; revoked_at = none } in
              elim (Bool-cases (any (has_hash t.token_hash) v.store.tokens)) [
                | inl e ↦ rw e (λ k. k)
                | inr e ↦ rw e (append-Keeps h row v.store.tokens e)
              ];
        })).from
          w;
  }

  pub delete-Steps : (i company : String) → Steps (Keeps h) (delete env i company)
  unfolding delete
  delete-Steps i company = Steps-call o env _ (record {
    from = λ w. elim (Bool-cases (any (in_company i company) w.store.users)) [
      | inl e ↦ rw e (λ k. k)
      | inr e ↦ rw e (λ k. k)
    ];
  })

  insert_user-Steps : (u : User) → Steps (Keeps h) (insert_user env u)
  unfolding insert_user
  insert_user-Steps u = record {
    from = λ w.
        elim (Bool-cases
          (any (λ v. v.company_id == u.company_id && codes_eq v.email u.email) w.store.users)) [
            | inl e ↦ rw e (λ k. k)
            | inr e ↦ rw e (λ k. k)
          ];
  }

  pub create-Steps : (u : User) → Steps (Keeps h) (create env u)
  unfolding create
  create-Steps u = record {
    from = λ w.
        (Steps-bind o _ _
            (Steps-wrapping o "insert user" _ (Steps-call o env _ (record { from = λ v k. k })))
            (λ a.
              insert_user-Steps
                (record u { created_at = env.now w.calls; updated_at = env.now w.calls }))).from
          w;
  }

  update_role-Steps :
      (input : UpdateUserInput) (r : Option UserRole) → Steps (Keeps h) (update_role env input r)
  unfolding update_role
  update_role-Steps input none = Steps-pure o tt
  update_role-Steps input (some r) = Steps-wrapping o _ _ (search set_users-Steps)

  update_active-Steps :
      (input : UpdateUserInput) (b : Option Bool) → Steps (Keeps h) (update_active env input b)
  unfolding update_active
  update_active-Steps input none = Steps-pure o tt
  update_active-Steps input (some b) = Steps-wrapping o _ _ (search set_users-Steps)

  update_names-Steps :
      (input : UpdateUserInput) (first last : Option String)
      → Steps (Keeps h) (update_names env input first last)
  unfolding update_names
  update_names-Steps input none none = Steps-pure o tt
  update_names-Steps input (some f) last = Steps-wrapping o _ _ (search set_users-Steps)
  update_names-Steps input none (some l) = Steps-wrapping o _ _ (search set_users-Steps)

  pub update-Steps : (input : UpdateUserInput) → Steps (Keeps h) (update env input)
  unfolding update
  update-Steps input = Steps-bind o _ _ (update_role-Steps input input.role) (λ a.
      Steps-bind o _ _ (update_active-Steps input input.active)
        (λ b. update_names-Steps input input.first_name input.last_name))
