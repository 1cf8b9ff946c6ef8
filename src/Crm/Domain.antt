-- ===== src/Crm/Domain.antt =====
-- goerp/internal/crm/domain/crm.go. A time is none where the code has the zero time or nil.
use goshield.Prelude.{ℕ, String, Bool, Option, List}
use goshield.Go.Float.{Float64}

pub record Lead : Type 0 where
  pub id : String
  pub tenant_id : String
  pub name : String
  pub email : String
  pub phone : String
  pub company : String
  pub source : String
  pub status : String
  pub assigned_to : String
  pub notes : String
  pub tags : List String
  pub created_by : String
  pub created_at : ℕ
  pub updated_at : ℕ

pub record Opportunity (F : Float64) : Type 0 where
  pub id : String
  pub tenant_id : String
  pub name : String
  pub lead_id : String
  pub customer_name : String
  pub customer_email : String
  pub customer_phone : String
  pub company : String
  pub stage : String
  pub expected_revenue : F.Num
  pub probability : F.Num
  pub expected_close : Option ℕ
  pub assigned_to : String
  pub description : String
  pub lost_reason : String
  pub created_by : String
  pub created_at : ℕ
  pub updated_at : ℕ

pub record Activity : Type 0 where
  pub id : String
  pub tenant_id : String
  pub activity_type : String
  pub title : String
  pub description : String
  pub lead_id : String
  pub opportunity_id : String
  pub assigned_to : String
  pub due_date : Option ℕ
  pub completed_at : Option ℕ
  pub is_done : Bool
  pub created_by : String
  pub created_at : ℕ
  pub updated_at : ℕ

-- The filter of leads and of opportunities; the latter's status is its stage.
pub record LeadFilter : Type 0 where
  pub tenant_id : String
  pub status : String
  pub assigned_to : String
  pub page : ℕ
  pub limit : ℕ

pub record ActivityFilter : Type 0 where
  pub tenant_id : String
  pub lead_id : String
  pub opportunity_id : String
  pub limit : ℕ

pub record LeadRequest : Type 0 where
  pub name : String
  pub email : String
  pub phone : String
  pub company : String
  pub source : String
  pub status : String
  pub assigned_to : String
  pub notes : String
  pub tags : List String

pub record CreateOpportunityRequest (F : Float64) : Type 0 where
  pub name : String
  pub lead_id : String
  pub customer_name : String
  pub customer_email : String
  pub customer_phone : String
  pub company : String
  pub stage : String
  pub expected_revenue : F.Num
  pub probability : F.Num
  pub expected_close : Option ℕ
  pub assigned_to : String
  pub description : String

pub record UpdateOpportunityRequest (F : Float64) : Type 0 where
  pub name : String
  pub customer_name : String
  pub customer_email : String
  pub stage : String
  pub expected_revenue : F.Num
  pub probability : F.Num
  pub assigned_to : String
  pub description : String
  pub lost_reason : String

pub record CreateActivityRequest : Type 0 where
  pub activity_type : String
  pub title : String
  pub description : String
  pub lead_id : String
  pub opportunity_id : String
  pub assigned_to : String
  pub due_date : Option ℕ
