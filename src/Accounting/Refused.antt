-- ===== src/Accounting/Refused.antt =====
-- goerp/internal/accounting/repository on the schema of goerp/internal/shared/database/database.go.
use goshield.Prelude.{◌≡◌, refl, String, Bool, false, List}
use goshield.Go.Errors.{is_ok}
use goshield.Go.Float.{Float64, Arithmetic}
use goshield.Go.World.{Env}
use goshield.Go.World.Steps.{Steps-new_uuid, Steps-time_now, Steps-attempt, Steps-lift, ≡-Preorder}
use goshield.Go.World.Refuses.{Refuses, Refuses-first, Refuses-next}
use goshield.Schema.{Refuses-statement, refused-Steps}
use goshield.Accounting.{
  Account, JournalEntry, AccountingFilter, Accounting, list_accounts, list_journal_entries,
  create_journal_entry, post_journal_entry,
}

-- A call of the repository.
pub data Request (F : Float64) : Type 0 where
  list_the_accounts : String → Request F
  list_the_entries : AccountingFilter → Request F
  create : JournalEntry F → Request F
  post : String → String → Request F

module _ {F : Float64} (A : Arithmetic F) (env : Env)
    (by_code : List (Account F) → List (Account F))
    (by_time : List (JournalEntry F) → List (JournalEntry F)) where
  create-Refuses : (e : JournalEntry F) → Refuses (create_journal_entry A env e)
  unfolding create_journal_entry
  create-Refuses e = Refuses-next _ _ (Steps-new_uuid ≡-Preorder env) (λ i.
      Refuses-next _ _ (Steps-time_now ≡-Preorder env) (λ now.
        Refuses-next _ _ (Steps-attempt ≡-Preorder _ (refused-Steps ≡-Preorder env _ _ _ refl))
          (λ counted. Refuses-next _ _ (Steps-lift ≡-Preorder _) (λ u.
            Refuses-next _ _ (Steps-time_now ≡-Preorder env)
              (λ today. Refuses-first _ _ (Refuses-statement env _ _ _ refl))))))

  list-Refuses : (f : AccountingFilter) → Refuses (list_journal_entries A env by_time f)
  unfolding list_journal_entries
  list-Refuses f = Refuses-first _ _ (Refuses-statement env _ _ _ refl)

  accounts-Refuses : (tenant : String) → Refuses (list_accounts A env by_code tenant)
  unfolding list_accounts
  accounts-Refuses tenant = Refuses-statement env _ _ _ refl

  post-Refuses : (i tenant : String) → Refuses (post_journal_entry A env i tenant)
  unfolding post_journal_entry
  post-Refuses i tenant = Refuses-statement env _ _ _ refl

  -- Whether a call succeeds, and the world after it.
  pub serve : Request F → Accounting F → Bool × Accounting F
  serve (list_the_accounts tenant) w =
      let r = list_accounts A env by_code tenant w in (is_ok r.0, r.1)
  serve (list_the_entries f) w = let r = list_journal_entries A env by_time f w in (is_ok r.0, r.1)
  serve (create e) w = let r = create_journal_entry A env e w in (is_ok r.0, r.1)
  serve (post i tenant) w = let r = post_journal_entry A env i tenant w in (is_ok r.0, r.1)

  -- On the tables that AutoMigrate creates, every call of the accounting repository fails, and none
  -- changes the books, whichever calls the database refuses besides.
  pub journal_refused :
      (r : Request F) (w : Accounting F) → ((serve r w).0 ≡ false) × ((serve r w).1.store ≡ w.store)
  unfolding serve
  journal_refused (list_the_accounts tenant) w =
      ((accounts-Refuses tenant).fails w, (accounts-Refuses tenant).keeps w)
  journal_refused (list_the_entries f) w = ((list-Refuses f).fails w, (list-Refuses f).keeps w)
  journal_refused (create e) w = ((create-Refuses e).fails w, (create-Refuses e).keeps w)
  journal_refused (post i tenant) w =
      ((post-Refuses i tenant).fails w, (post-Refuses i tenant).keeps w)
