-- ===== src/Crm/Refused.antt =====
-- goerp/internal/crm on the schema of goerp/internal/shared/database/database.go.
use goshield.Prelude.{ℕ, ◌≡◌, refl, String, Bool, false, List}
use goshield.Go.Errors.{Result, is_ok}
use goshield.Go.Float.{Float64}
use goshield.Go.World.{Env}
use goshield.Go.World.Steps.{Steps-lift, Steps-new_uuid, Steps-time_now, ≡-Preorder}
use goshield.Go.World.Refuses.{Refuses, Refuses-wrapping, Refuses-first, Refuses-next}
use goshield.Schema.{Refuses-statement}
use goshield.Crm.Domain.{
  Lead, Opportunity, Activity, LeadFilter, ActivityFilter, LeadRequest, CreateOpportunityRequest,
  UpdateOpportunityRequest, CreateActivityRequest,
}
use goshield.Crm.Repository
use goshield.Crm.Repository.{Crm}
use goshield.Crm.Usecase.{
  list_leads, list_opportunities, list_activities, create_lead, update_lead, create_opportunity,
  convert_to_opportunity, update_opportunity, win_opportunity, lose_opportunity, create_activity,
  complete_activity,
}

-- A call of the use case, without the deletion of a lead and the statistics. It passes the searches
-- for a lead and for an opportunity on to the repository.
pub data Request (F : Float64) : Type 0 where
  lists_leads lists_opportunities : LeadFilter → Request F
  lists_activities : ActivityFilter → Request F
  finds_lead finds_opportunity : String → String → Request F
  creates_lead : LeadRequest → String → String → Request F
  updates_lead : String → LeadRequest → String → Request F
  converts : String → String → String → CreateOpportunityRequest F → Request F
  creates_opportunity : CreateOpportunityRequest F → String → String → Request F
  updates_opportunity : String → UpdateOpportunityRequest F → String → Request F
  wins : String → String → Request F
  loses : String → String → String → Request F
  creates_activity : CreateActivityRequest → String → String → Request F
  completes : String → String → Request F

module _ {F : Float64} (env : Env) (day_of : ℕ → ℕ) where
  get_lead-Refuses : (i tenant : String) → Refuses (Repository.get_lead {F = F} env day_of i tenant)
  unfolding Repository.get_lead
  get_lead-Refuses i tenant = Refuses-statement env _ _ _ refl

  get_opportunity-Refuses :
      (i tenant : String) → Refuses (Repository.get_opportunity {F = F} env day_of i tenant)
  unfolding Repository.get_opportunity
  get_opportunity-Refuses i tenant = Refuses-statement env _ _ _ refl

  insert_lead-Refuses : (l : Lead) → Refuses (Repository.create_lead {F = F} env day_of l)
  unfolding Repository.create_lead
  insert_lead-Refuses l = Refuses-next _ _ (Steps-new_uuid ≡-Preorder env) (λ i.
      Refuses-next _ _ (Steps-time_now ≡-Preorder env)
        (λ now. Refuses-first _ _ (Refuses-statement env _ _ _ refl)))

  insert_opportunity-Refuses :
      (o : Opportunity F) → Refuses (Repository.create_opportunity env day_of o)
  unfolding Repository.create_opportunity
  insert_opportunity-Refuses o = Refuses-next _ _ (Steps-new_uuid ≡-Preorder env) (λ i.
      Refuses-next _ _ (Steps-time_now ≡-Preorder env)
        (λ now. Refuses-first _ _ (Refuses-statement env _ _ _ refl)))

  insert_activity-Refuses :
      (a : Activity) → Refuses (Repository.create_activity {F = F} env day_of a)
  unfolding Repository.create_activity
  insert_activity-Refuses a = Refuses-next _ _ (Steps-new_uuid ≡-Preorder env) (λ i.
      Refuses-next _ _ (Steps-time_now ≡-Preorder env)
        (λ now. Refuses-first _ _ (Refuses-statement env _ _ _ refl)))

  create_lead-Refuses :
      (r : LeadRequest) (tenant by : String) → Refuses (create_lead {F = F} env day_of r tenant by)
  unfolding create_lead
  create_lead-Refuses r tenant by =
      Refuses-next _ _ (Steps-lift ≡-Preorder _)
        (λ u. Refuses-first _ _ (Refuses-wrapping _ _ (insert_lead-Refuses _)))

  update_lead-Refuses :
      (i : String) (r : LeadRequest) (tenant : String)
      → Refuses (update_lead {F = F} env day_of i r tenant)
  unfolding update_lead
  update_lead-Refuses i r tenant =
      Refuses-first _ _ (Refuses-wrapping _ _ (get_lead-Refuses i tenant))

  create_opportunity-Refuses :
      (r : CreateOpportunityRequest F) (tenant by : String)
      → Refuses (create_opportunity env day_of r tenant by)
  unfolding create_opportunity
  create_opportunity-Refuses r tenant by = Refuses-next _ _ (Steps-lift ≡-Preorder _) (λ u.
      Refuses-next _ _ (Steps-lift ≡-Preorder _)
        (λ v. Refuses-wrapping _ _ (insert_opportunity-Refuses _)))

  create_activity-Refuses :
      (r : CreateActivityRequest) (tenant by : String)
      → Refuses (create_activity {F = F} env day_of r tenant by)
  unfolding create_activity
  create_activity-Refuses r tenant by = Refuses-next _ _ (Steps-lift ≡-Preorder _) (λ u.
      Refuses-next _ _ (Steps-lift ≡-Preorder _)
        (λ v. Refuses-wrapping _ _ (insert_activity-Refuses _)))

  module _ (leads : List Lead → List Lead) (deals : List (Opportunity F) → List (Opportunity F))
      (acts : List Activity → List Activity) where
    -- Whether a call succeeds, and the world after it.
    pub serve : Request F → Crm F → Bool × Crm F
    serve (lists_leads f) w = let r = list_leads env day_of leads f w in (is_ok r.0, r.1)
    serve (lists_opportunities f) w =
        let r = list_opportunities env day_of deals f w in (is_ok r.0, r.1)
    serve (lists_activities f) w = let r = list_activities env day_of acts f w in (is_ok r.0, r.1)
    serve (finds_lead i t) w = let r = Repository.get_lead env day_of i t w in (is_ok r.0, r.1)
    serve (finds_opportunity i t) w =
        let r = Repository.get_opportunity env day_of i t w in (is_ok r.0, r.1)
    serve (creates_lead q t by) w = let r = create_lead env day_of q t by w in (is_ok r.0, r.1)
    serve (updates_lead i q t) w = let r = update_lead env day_of i q t w in (is_ok r.0, r.1)
    serve (converts i t by q) w =
        let r = convert_to_opportunity env day_of i t by q w in (is_ok r.0, r.1)
    serve (creates_opportunity q t by) w =
        let r = create_opportunity env day_of q t by w in (is_ok r.0, r.1)
    serve (updates_opportunity i q t) w =
        let r = update_opportunity env day_of i q t w in (is_ok r.0, r.1)
    serve (wins i t) w = let r = win_opportunity env day_of i t w in (is_ok r.0, r.1)
    serve (loses i t why) w = let r = lose_opportunity env day_of i t why w in (is_ok r.0, r.1)
    serve (creates_activity q t by) w =
        let r = create_activity env day_of q t by w in (is_ok r.0, r.1)
    serve (completes i t) w = let r = complete_activity env day_of i t w in (is_ok r.0, r.1)

    both :
        {A : Type 0} (m : Crm F → Result A × Crm F) (w : Crm F)
        → Refuses m
        → (is_ok (m w).0 ≡ false) × ((m w).1.store ≡ w.store)
    both m w k = (k.fails w, k.keeps w)

    -- On the tables that AutoMigrate creates, every call of the CRM but the deletion of a lead and
    -- the statistics fails, and none of these changes the tables, whichever calls the database
    -- refuses besides: its statements name columns that the tables lack.
    pub serve_refused :
        (r : Request F) (w : Crm F) → ((serve r w).0 ≡ false) × ((serve r w).1.store ≡ w.store)
    unfolding serve list_leads Repository.list_leads list_opportunities
        Repository.list_opportunities list_activities Repository.list_activities
        convert_to_opportunity update_opportunity win_opportunity lose_opportunity complete_activity
        Repository.complete_activity
    serve_refused (lists_leads f) w =
        both (list_leads env day_of leads f) w
          (Refuses-first _ _ (Refuses-statement env _ _ _ refl))
    serve_refused (lists_opportunities f) w =
        both (list_opportunities env day_of deals f) w
          (Refuses-first _ _ (Refuses-statement env _ _ _ refl))
    serve_refused (lists_activities f) w =
        both (list_activities env day_of acts f) w
          (Refuses-first _ _ (Refuses-statement env _ _ _ refl))
    serve_refused (finds_lead i t) w = both _ w (get_lead-Refuses i t)
    serve_refused (finds_opportunity i t) w = both _ w (get_opportunity-Refuses i t)
    serve_refused (creates_lead q t by) w = both _ w (create_lead-Refuses q t by)
    serve_refused (updates_lead i q t) w = both _ w (update_lead-Refuses i q t)
    serve_refused (converts i t by q) w =
        both (convert_to_opportunity env day_of i t by q) w
          (Refuses-first _ _ (Refuses-wrapping _ _ (get_lead-Refuses i t)))
    serve_refused (creates_opportunity q t by) w = both _ w (create_opportunity-Refuses q t by)
    serve_refused (updates_opportunity i q t) w =
        both (update_opportunity env day_of i q t) w
          (Refuses-first _ _ (Refuses-wrapping _ _ (get_opportunity-Refuses i t)))
    serve_refused (wins i t) w =
        both (win_opportunity env day_of i t) w
          (Refuses-first _ _ (Refuses-wrapping _ _ (get_opportunity-Refuses i t)))
    serve_refused (loses i t why) w =
        both (lose_opportunity env day_of i t why) w
          (Refuses-first _ _ (Refuses-wrapping _ _ (get_opportunity-Refuses i t)))
    serve_refused (creates_activity q t by) w = both _ w (create_activity-Refuses q t by)
    serve_refused (completes i t) w =
        both (complete_activity env day_of i t) w (
          Refuses-next _ _ (Steps-time_now ≡-Preorder env)
            (λ now. Refuses-statement env _ _ _ refl))
