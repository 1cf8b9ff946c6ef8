-- ===== src/Schema.antt =====
-- goerp/internal/shared/database/database.go: the columns that `AutoMigrate` gives to the tables which
-- the packages crm and accounting name. It creates no chart_of_accounts, journal_entries and
-- journal_lines.
use goshield.Prelude.{String, Bool, true, false, ◌&&◌, List, [], ◌∷◌, ◌==◌, any, if◌then◌else◌, ◌≡◌}
use goshield.Go.Errors.{err, errorf}
use goshield.Go.World.{Env, World, Exec, call, lift}
use goshield.Go.World.Refuses.{Refuses, Refuses-call, Refuses-lift}
use goshield.Go.World.Steps.{Preorder, Steps, Steps-call, Steps-lift}

abbrev columns_of : String → List String
columns_of table =
    if table == "crm_leads"
    then "id" ∷ "tenant_id" ∷ "name" ∷ "email" ∷ "phone" ∷ "company" ∷ "source" ∷ "status"
      ∷ "assigned_to" ∷ "notes" ∷ "created_at" ∷ "updated_at" ∷ []
    else if table == "crm_opportunities"
    then "id" ∷ "tenant_id" ∷ "name" ∷ "customer_id" ∷ "stage" ∷ "probability" ∷ "expected_revenue"
      ∷ "close_date" ∷ "assigned_to" ∷ "notes" ∷ "is_won" ∷ "is_lost" ∷ "created_at" ∷ "updated_at"
      ∷ []
    else if table == "crm_activities"
    then "id" ∷ "tenant_id" ∷ "activity_type" ∷ "title" ∷ "description" ∷ "lead_id"
      ∷ "opportunity_id" ∷ "customer_id" ∷ "assigned_to" ∷ "due_date" ∷ "is_done" ∷ "created_at"
      ∷ []
    else []

-- Every column that a statement names is one of the table; a table without columns is not there.
abbrev pub has_columns : String → List String → Bool
has_columns table [] = true
has_columns table (c ∷ cs) = any (λ d. d == c) (columns_of table) && has_columns table cs

-- A statement on a table, with the columns that it names.
unfoldable pub statement :
    {M S A : Type 0} → Env → String → List String → Exec (World M S) A → Exec (World M S) A
statement env table columns m =
    call env
      (if has_columns table columns then m else lift (err (errorf "no such table or column")))

module _ {M S : Type 0} {R : S → S → Type 0} (o : Preorder R) (env : Env) where
  -- A statement that names a column which is not there leaves the store as it is.
  pub refused-Steps :
      {A : Type 0} (table : String) (columns : List String) (m : Exec (World M S) A)
      → has_columns table columns ≡ false
      → Steps R (statement env table columns m)
  unfolding statement
  refused-Steps table columns m missing = rw missing (Steps-call o env _ (Steps-lift o _))

pub Refuses-statement :
    {M S A : Type 0} (env : Env) (table : String) (columns : List String) (m : Exec (World M S) A)
    → has_columns table columns ≡ false
    → Refuses (statement env table columns m)
unfolding statement
Refuses-statement env table columns m missing = rw missing (Refuses-call env _ (Refuses-lift _))
