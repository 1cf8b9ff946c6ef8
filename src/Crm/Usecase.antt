-- ===== src/Crm/Usecase.antt =====
-- goerp/internal/crm/usecase/crm_usecase.go. The searches and the statistics only pass the call on to
-- the repository.
use goshield.Prelude.{ℕ, String, false, none, List, [], ◌∷◌, ◌==◌, eqb, if◌then◌else◌}
use goshield.Go.Errors.{refuse_if}
use goshield.Go.Float.{Float64, zero_float}
use goshield.Go.World.{Env, Exec, ◌>>=◌, ◌>>◌, pure, lift, attempt, wrapping, publish}
use goshield.Crm.Domain.{
  Lead, Opportunity, Activity, LeadFilter, ActivityFilter, LeadRequest, CreateOpportunityRequest,
  UpdateOpportunityRequest, CreateActivityRequest,
}
use goshield.Crm.Repository
use goshield.Crm.Repository.{Crm}

-- The new text, or the old one where the request has none.
abbrev pub given : String → String → String
given new old = if new == "" then old else new

abbrev given_tags : List String → List String → List String
given_tags [] old = old
given_tags (t ∷ ts) old = t ∷ ts

abbrev or_number : ℕ → ℕ → ℕ
or_number d n = if eqb n 0 then d else n

module _ {F : Float64} (env : Env) (day_of : ℕ → ℕ) where
  unfoldable pub list_leads : (List Lead → List Lead) → LeadFilter → Exec (Crm F) (List Lead × ℕ)
  list_leads order f =
      Repository.list_leads env day_of order
        (record f { page = or_number 1 f.page; limit = or_number 20 f.limit })

  unfoldable pub list_opportunities :
      (List (Opportunity F) → List (Opportunity F))
      → LeadFilter
      → Exec (Crm F) (List (Opportunity F) × ℕ)
  list_opportunities order f =
      Repository.list_opportunities env day_of order
        (record f { page = or_number 1 f.page; limit = or_number 20 f.limit })

  unfoldable pub list_activities :
      (List Activity → List Activity) → ActivityFilter → Exec (Crm F) (List Activity × ℕ)
  list_activities order f =
      Repository.list_activities env day_of order (record f { limit = or_number 50 f.limit })

  unfoldable pub create_lead : LeadRequest → String → String → Exec (Crm F) Lead
  create_lead r tenant by = do
    lift (refuse_if (r.name == "") "lead name is required")
    made ← wrapping "failed to create lead" (
        Repository.create_lead env day_of (record {
          id = "";
          tenant_id = tenant;
          name = r.name;
          email = r.email;
          phone = r.phone;
          company = r.company;
          source = r.source;
          status = "new";
          assigned_to = r.assigned_to;
          notes = r.notes;
          tags = r.tags;
          created_by = by;
          created_at = 0;
          updated_at = 0;
        }))
    publish made
    pure made

  unfoldable pub update_lead : String → LeadRequest → String → Exec (Crm F) Lead
  update_lead i r tenant = do
    l ← wrapping "lead not found" (Repository.get_lead env day_of i tenant)
    wrapping "failed to update lead" (
        Repository.update_lead env day_of (record l {
          name = given r.name l.name;
          email = given r.email l.email;
          phone = given r.phone l.phone;
          company = given r.company l.company;
          source = given r.source l.source;
          status = given r.status l.status;
          assigned_to = given r.assigned_to l.assigned_to;
          notes = given r.notes l.notes;
          tags = given_tags r.tags l.tags;
        }))

  unfoldable pub delete_lead : String → String → Exec (Crm F) (Unit {0})
  delete_lead i tenant = Repository.delete_lead env day_of i tenant

  unfoldable pub create_opportunity :
      CreateOpportunityRequest F → String → String → Exec (Crm F) (Opportunity F)
  create_opportunity r tenant by = do
    lift (refuse_if (r.name == "") "opportunity name is required")
    lift (refuse_if (r.customer_name == "") "customer name is required")
    wrapping "failed to create opportunity" (
        Repository.create_opportunity env day_of (record {
          id = "";
          tenant_id = tenant;
          name = r.name;
          lead_id = r.lead_id;
          customer_name = r.customer_name;
          customer_email = r.customer_email;
          customer_phone = r.customer_phone;
          company = r.company;
          stage = given r.stage "new";
          expected_revenue = r.expected_revenue;
          probability = r.probability;
          expected_close = r.expected_close;
          assigned_to = r.assigned_to;
          description = r.description;
          lost_reason = "";
          created_by = by;
          created_at = 0;
          updated_at = 0;
        }))

  -- The error of the update of the lead is ignored.
  unfoldable pub convert_to_opportunity :
      String → String → String → CreateOpportunityRequest F → Exec (Crm F) (Opportunity F)
  convert_to_opportunity lead tenant by r = do
    l ← wrapping "lead not found" (Repository.get_lead env day_of lead tenant)
    o ←
        create_opportunity
          (record r {
            lead_id = l.id;
            customer_name = given r.customer_name l.name;
            customer_email = given r.customer_email l.email;
            customer_phone = given r.customer_phone l.phone;
            company = given r.company l.company;
          })
          tenant by
    _ ← attempt (Repository.update_lead env day_of (record l { status = "qualified" }))
    pure o

  abbrev pub changed : UpdateOpportunityRequest F → Opportunity F → Opportunity F
  changed r o = record o {
    name = given r.name o.name;
    customer_name = given r.customer_name o.customer_name;
    customer_email = given r.customer_email o.customer_email;
    stage = given r.stage o.stage;
    expected_revenue =
        if F.gt r.expected_revenue (zero_float F) then r.expected_revenue else o.expected_revenue;
    probability = if F.ge r.probability (zero_float F) then r.probability else o.probability;
    assigned_to = given r.assigned_to o.assigned_to;
    description = given r.description o.description;
    lost_reason = given r.lost_reason o.lost_reason;
  }

  unfoldable pub update_opportunity :
      String → UpdateOpportunityRequest F → String → Exec (Crm F) (Opportunity F)
  update_opportunity i r tenant = do
    o ← wrapping "opportunity not found" (Repository.get_opportunity env day_of i tenant)
    wrapping "failed to update opportunity" (Repository.update_opportunity env day_of (changed r o))

  unfoldable pub win_opportunity : String → String → Exec (Crm F) (Opportunity F)
  win_opportunity i tenant = do
    o ← wrapping "opportunity not found" (Repository.get_opportunity env day_of i tenant)
    Repository.update_opportunity env day_of
        (record o { stage = "won"; probability = F.decimal 100 0 })

  unfoldable pub lose_opportunity : String → String → String → Exec (Crm F) (Opportunity F)
  lose_opportunity i tenant reason = do
    o ← wrapping "opportunity not found" (Repository.get_opportunity env day_of i tenant)
    Repository.update_opportunity env day_of
        (record o { stage = "lost"; probability = zero_float F; lost_reason = reason })

  unfoldable pub create_activity : CreateActivityRequest → String → String → Exec (Crm F) Activity
  create_activity r tenant by = do
    lift (refuse_if (r.title == "") "activity title is required")
    lift (refuse_if (r.activity_type == "") "activity type is required")
    wrapping "failed to create activity" (
        Repository.create_activity env day_of (record {
          id = "";
          tenant_id = tenant;
          activity_type = r.activity_type;
          title = r.title;
          description = r.description;
          lead_id = r.lead_id;
          opportunity_id = r.opportunity_id;
          assigned_to = r.assigned_to;
          due_date = r.due_date;
          completed_at = none;
          is_done = false;
          created_by = by;
          created_at = 0;
          updated_at = 0;
        }))

  unfoldable pub complete_activity : String → String → Exec (Crm F) (Unit {0})
  complete_activity i tenant = Repository.complete_activity env day_of i tenant
