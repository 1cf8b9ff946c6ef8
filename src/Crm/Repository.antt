-- ===== src/Crm/Repository.antt =====
-- goerp/internal/crm/repository/crm_repo.go: the tables, and the columns that each statement
-- names. Times are counted
-- in seconds, as their text; the day that a date is read back as and `ORDER BY created_at DESC` are
-- parameters. Ids are primary keys.
use goshield.Prelude.{
  ℕ, ◌*◌, ◌-◌, String, Bool, true, false, ◌&&◌, Option, none, some, List, [], ◌∷◌, ◌++◌, ◌==◌, eqb,
  ltb, find, select, take, drop, length, update_where, delete_where, if◌then◌else◌,
}
use goshield.Go.Errors.{Result, ok, err, errorf, or_zero}
use goshield.Go.Float.{Float64}
use goshield.Go.World.{Env, World, Exec, ◌>>=◌, pure, attempt, reads, writes, new_uuid, time_now}
use goshield.Schema.{statement}
use goshield.Crm.Domain.{Lead, Opportunity, Activity, LeadFilter, ActivityFilter}

pub record Tables (F : Float64) : Type 0 where
  pub leads : List Lead
  pub opportunities : List (Opportunity F)
  pub activities : List Activity

-- The one event is `lead.created`, with the lead.
abbrev pub Crm : Float64 → Type 0
Crm F = World Lead (Tables F)

abbrev pub is_lead : String → String → Lead → Bool
is_lead i tenant l = l.id == i && l.tenant_id == tenant

abbrev pub is_opportunity : {F : Float64} → String → String → Opportunity F → Bool
is_opportunity i tenant o = o.id == i && o.tenant_id == tenant

abbrev pub row_or : {A : Type 0} → Option A → Result A
row_or none = err (errorf "sql: no rows in result set")
row_or (some a) = ok a

abbrev new_or : String → String
new_or s = if s == "" then "new" else s

abbrev or_any : String → String → Bool
or_any wanted column = if wanted == "" then true else column == wanted

-- The offset is that of the page and the limit as they come.
abbrev page_of : {A : Type 0} → ℕ → ℕ → List A → List A
page_of page limit xs =
    take (if eqb limit 0 then 20 else limit)
      (drop (if ltb 1 page then (page - 1) * limit else 0) xs)

abbrev pub day_or : (ℕ → ℕ) → Option ℕ → Option ℕ
day_or day_of none = none
day_or day_of (some t) = some (day_of t)

-- The columns of a COUNT.
abbrev tenant_column : List String
tenant_column = "tenant_id" ∷ []

-- The columns of a DELETE.
abbrev key_columns : List String
key_columns = "id" ∷ "tenant_id" ∷ []

-- Of a SELECT or an INSERT of leads.
abbrev lead_columns : List String
lead_columns =
    "id" ∷ "tenant_id" ∷ "name" ∷ "email" ∷ "phone" ∷ "company" ∷ "source" ∷ "status"
    ∷ "assigned_to" ∷ "notes" ∷ "created_by" ∷ "created_at" ∷ "updated_at" ∷ []

-- Of the UPDATE of a lead.
abbrev updated_columns : List String
updated_columns =
    "name" ∷ "email" ∷ "phone" ∷ "company" ∷ "source" ∷ "status" ∷ "assigned_to" ∷ "notes"
    ∷ "updated_at" ∷ "id" ∷ "tenant_id" ∷ []

-- Of a SELECT or an INSERT of opportunities.
abbrev opportunity_columns : List String
opportunity_columns =
    "id" ∷ "tenant_id" ∷ "name" ∷ "lead_id" ∷ "customer_name" ∷ "customer_email" ∷ "customer_phone"
    ∷ "company" ∷ "stage" ∷ "expected_revenue" ∷ "probability" ∷ "expected_close" ∷ "assigned_to"
    ∷ "description" ∷ "lost_reason" ∷ "created_by" ∷ "created_at" ∷ "updated_at" ∷ []

-- Of the UPDATE of an opportunity.
abbrev edited_columns : List String
edited_columns =
    "name" ∷ "customer_name" ∷ "customer_email" ∷ "customer_phone" ∷ "company" ∷ "stage"
    ∷ "expected_revenue" ∷ "probability" ∷ "expected_close" ∷ "assigned_to" ∷ "description"
    ∷ "lost_reason" ∷ "updated_at" ∷ "id" ∷ "tenant_id" ∷ []

-- Of the SELECT of activities.
abbrev activity_columns : List String
activity_columns =
    "id" ∷ "tenant_id" ∷ "type" ∷ "title" ∷ "description" ∷ "lead_id" ∷ "opportunity_id"
    ∷ "assigned_to" ∷ "due_date" ∷ "completed_at" ∷ "is_done" ∷ "created_by" ∷ "created_at"
    ∷ "updated_at" ∷ []

-- Of the INSERT of an activity.
abbrev stored_columns : List String
stored_columns =
    "id" ∷ "tenant_id" ∷ "type" ∷ "title" ∷ "description" ∷ "lead_id" ∷ "opportunity_id"
    ∷ "assigned_to" ∷ "due_date" ∷ "is_done" ∷ "created_by" ∷ "created_at" ∷ "updated_at" ∷ []

-- Of the UPDATE of an activity.
abbrev completed_columns : List String
completed_columns = "is_done" ∷ "completed_at" ∷ "updated_at" ∷ "id" ∷ "tenant_id" ∷ []

module _ {F : Float64} (env : Env) (day_of : ℕ → ℕ) where
  unfoldable pub list_leads : (List Lead → List Lead) → LeadFilter → Exec (Crm F) (List Lead × ℕ)
  list_leads order f = do
    rows ← statement env "crm_leads" lead_columns (
        reads (λ s. ok (
          page_of f.page f.limit (
            order (
              select
                (λ l.
                  l.tenant_id == f.tenant_id
                  && or_any f.status l.status
                  && or_any f.assigned_to l.assigned_to)
                s.leads)))))
    total ← attempt (
        statement env "crm_leads" tenant_column
          (reads (λ s. ok (length (select (λ l. l.tenant_id == f.tenant_id) s.leads)))))
    pure (rows, or_zero total)

  unfoldable pub get_lead : String → String → Exec (Crm F) Lead
  get_lead i tenant =
      statement env "crm_leads" lead_columns (reads (λ s. row_or (find (is_lead i tenant) s.leads)))

  -- The tags have no column.
  unfoldable pub create_lead : Lead → Exec (Crm F) Lead
  create_lead l = do
    i ← new_uuid env
    now ← time_now env
    let made = record l { id = i; created_at = now; updated_at = now; status = new_or l.status }
    _ ←
        statement env "crm_leads" lead_columns
          (writes (λ s. record s { leads = s.leads ++ record made { tags = [] } ∷ [] }))
    pure made

  unfoldable pub update_lead : Lead → Exec (Crm F) Lead
  update_lead l = do
    now ← time_now env
    _ ← statement env "crm_leads" updated_columns (
        writes (λ s. record s {
          leads =
              update_where (is_lead l.id l.tenant_id)
                (λ row. record row {
                  name = l.name;
                  email = l.email;
                  phone = l.phone;
                  company = l.company;
                  source = l.source;
                  status = l.status;
                  assigned_to = l.assigned_to;
                  notes = l.notes;
                  updated_at = now;
                })
                s.leads;
        }))
    pure (record l { updated_at = now })

  unfoldable pub delete_lead : String → String → Exec (Crm F) (Unit {0})
  delete_lead i tenant =
      statement env "crm_leads" key_columns
        (writes (λ s. record s { leads = delete_where (is_lead i tenant) s.leads }))

  unfoldable pub list_opportunities :
      (List (Opportunity F) → List (Opportunity F))
      → LeadFilter
      → Exec (Crm F) (List (Opportunity F) × ℕ)
  list_opportunities order f = do
    rows ← statement env "crm_opportunities" opportunity_columns (
        reads (λ s. ok (
          page_of f.page f.limit (
            order (
              select (λ o. o.tenant_id == f.tenant_id && or_any f.status o.stage)
                s.opportunities)))))
    total ← attempt (
        statement env "crm_opportunities" tenant_column
          (reads (λ s. ok (length (select (λ o. o.tenant_id == f.tenant_id) s.opportunities)))))
    pure (rows, or_zero total)

  unfoldable pub get_opportunity : String → String → Exec (Crm F) (Opportunity F)
  get_opportunity i tenant =
      statement env "crm_opportunities" opportunity_columns
        (reads (λ s. row_or (find (is_opportunity i tenant) s.opportunities)))

  unfoldable pub create_opportunity : Opportunity F → Exec (Crm F) (Opportunity F)
  create_opportunity o = do
    i ← new_uuid env
    now ← time_now env
    let made = record o { id = i; created_at = now; updated_at = now; stage = new_or o.stage }
    _ ← statement env "crm_opportunities" opportunity_columns (
        writes (λ s. record s {
          opportunities =
              s.opportunities
              ++ record made { expected_close = day_or day_of o.expected_close } ∷ [];
        }))
    pure made

  abbrev pub set_opportunity : Opportunity F → ℕ → Opportunity F → Opportunity F
  set_opportunity o now row = record o {
    id = row.id;
    tenant_id = row.tenant_id;
    lead_id = row.lead_id;
    created_by = row.created_by;
    created_at = row.created_at;
    expected_close = day_or day_of o.expected_close;
    updated_at = now;
  }

  unfoldable pub update_opportunity : Opportunity F → Exec (Crm F) (Opportunity F)
  update_opportunity o = do
    now ← time_now env
    _ ← statement env "crm_opportunities" edited_columns (
        writes (λ s. record s {
          opportunities =
              update_where (is_opportunity o.id o.tenant_id) (set_opportunity o now)
                s.opportunities;
        }))
    pure (record o { updated_at = now })

  unfoldable pub list_activities :
      (List Activity → List Activity) → ActivityFilter → Exec (Crm F) (List Activity × ℕ)
  list_activities order f = do
    rows ← statement env "crm_activities" activity_columns (
        reads (λ s. ok (
          take (if eqb f.limit 0 then 50 else f.limit) (
            order (
              select
                (λ a.
                  a.tenant_id == f.tenant_id
                  && or_any f.lead_id a.lead_id
                  && or_any f.opportunity_id a.opportunity_id)
                s.activities)))))
    total ← attempt (
        statement env "crm_activities" tenant_column
          (reads (λ s. ok (length (select (λ a. a.tenant_id == f.tenant_id) s.activities)))))
    pure (rows, or_zero total)

  unfoldable pub create_activity : Activity → Exec (Crm F) Activity
  create_activity a = do
    i ← new_uuid env
    now ← time_now env
    let made = record a { id = i; created_at = now; updated_at = now }
    _ ← statement env "crm_activities" stored_columns (
        writes (λ s. record s {
          activities =
              s.activities
              ++ record made {
                due_date = day_or day_of a.due_date;
                completed_at = none;
                is_done = false;
              }
                ∷ [];
        }))
    pure made

  unfoldable pub complete_activity : String → String → Exec (Crm F) (Unit {0})
  complete_activity i tenant = do
    now ← time_now env
    statement env "crm_activities" completed_columns (
        writes (λ s. record s {
          activities =
              update_where (λ a. a.id == i && a.tenant_id == tenant)
                (λ a. record a { is_done = true; completed_at = some now; updated_at = now })
                s.activities;
        }))
